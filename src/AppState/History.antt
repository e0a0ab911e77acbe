-- ===== src/AppState/History.antt =====
-- The undo history: its bound, what undo and redo give back, and what a closed lock prevents.
use wiredraft.Prelude.{
  ℕ, zero, suc, String, Bool, true, false, ◌||◌, not, List, [], ◌∷◌, Option, none, some, ◌+◌, ◌≤◌,
  ◌≡◌, ap, inl, inr, arith, Bool-cases, Option-cases, length, take,
}
use wiredraft.Topology.{Topology}
use wiredraft.AppState.{AppState, emit, ensure_selection, leave_map, remembered, set_topology}
use wiredraft.AppState.Changes.{
  ask_change, unchanged, commit_to, commit, undo_to, undo_from, undo, redo_to, redo_from, redo,
}

abbrev pub Bounded : AppState → Type 0
Bounded s = length s.history + length s.future ≤ 50

pub data Edit : Type 0 where
  loads : Option Topology → Bool → Edit
  commits : (Topology → Topology) → Edit
  undoes redoes : Edit

unfoldable pub apply : ℕ → Edit → AppState → AppState
apply now (loads topology remember) s = set_topology now topology remember s
apply now (commits mutator) s = (commit now mutator s).0
apply now undoes s = (undo now s).0
apply now redoes s = (redo now s).0

length-take : (n : ℕ) (xs : List Topology) → length (take n xs) ≤ n
length-take zero xs = omega arith
length-take (suc n) [] = omega arith
length-take (suc n) (x ∷ xs) = omega (arith, length-take n xs)

pub emit-stacks :
    (kind : String) (s : AppState)
    → ((emit kind s).history ≡ s.history)
      × ((emit kind s).future ≡ s.future)
      × ((emit kind s).topology ≡ s.topology)
      × ((emit kind s).edit_lock ≡ s.edit_lock)
unfolding emit
emit-stacks kind s = (ground arith, ground arith, ground arith, ground arith)

remembered-Bounded : (remember : Bool) (s : AppState) → Bounded s → Bounded (remembered remember s)
unfolding remembered
remembered-Bounded false s h = h
remembered-Bounded true s h = elim (Option-cases s.topology) [
  | inl e ↦ rw (e, remembered) h
  | inr (t, e) ↦ rw (e, remembered) (omega (arith, length-take 50 (t ∷ s.history)))
]

emit-Bounded : (kind : String) (s : AppState) → Bounded s → Bounded (emit kind s)
emit-Bounded kind s h =
    omega (arith, ap length (emit-stacks kind s).0, ap length (emit-stacks kind s).1)

leave_map-Bounded :
    (now : ℕ) (t : Option Topology) (s : AppState) → Bounded s → Bounded (leave_map now t s)
unfolding leave_map
leave_map-Bounded now t s h = ground arith

set_topology-Bounded :
    (now : ℕ) (t : Option Topology) (remember : Bool) (s : AppState)
    → Bounded s
    → Bounded (set_topology now t remember s)
unfolding set_topology ensure_selection
set_topology-Bounded now t remember s h =
    emit-Bounded "topology" _
      (remembered-Bounded remember (leave_map now t s) (leave_map-Bounded now t s h))

commit_to-Bounded :
    (now : ℕ) (current next : Topology) (s : AppState)
    → Bounded s
    → Bounded (commit_to now current next s).0
unfolding commit_to
commit_to-Bounded now current next s h =
    elim (Bool-cases
      (not (ask_change now current next s.edit_lock).1 || unchanged s.edit_lock current next)) [
        | inl refused ↦ rw (refused, commit_to) h
        | inr done ↦
            rw (done, commit_to)
              (emit-Bounded "topology" _ (omega (arith, length-take 50 (current ∷ s.history))))
      ]

commit-Bounded :
    (now : ℕ) (f : Topology → Topology) (s : AppState) → Bounded s → Bounded (commit now f s).0
unfolding commit
commit-Bounded now f s h = elim (Option-cases s.topology) [
  | inl e ↦ rw (e, commit) h
  | inr (t, e) ↦ rw (e, commit) (commit_to-Bounded now t (f t) s h)
]

undo_from-Bounded :
    (now : ℕ) (current : Option Topology) (history : List Topology) (s : AppState)
    → length history + length s.future ≤ 50
    → Bounded s
    → Bounded (undo_from now current history s).0
unfolding undo_from undo_to
undo_from-Bounded now none history s k h = h
undo_from-Bounded now (some current) [] s k h = h
undo_from-Bounded now (some current) (previous ∷ rest) s k h =
    elim (Bool-cases (not (ask_change now current previous s.edit_lock).1)) [
      | inl refused ↦ rw (refused, undo_to) h
      | inr done ↦
          rw (done, undo_to) (emit-Bounded "topology" _ (unfold ensure_selection in (omega arith)))
    ]

redo_from-Bounded :
    (now : ℕ) (current : Option Topology) (future : List Topology) (s : AppState)
    → length s.history + length future ≤ 50
    → Bounded s
    → Bounded (redo_from now current future s).0
unfolding redo_from redo_to
redo_from-Bounded now none future s k h = h
redo_from-Bounded now (some current) [] s k h = h
redo_from-Bounded now (some current) (next ∷ rest) s k h =
    elim (Bool-cases (not (ask_change now current next s.edit_lock).1)) [
      | inl refused ↦ rw (refused, redo_to) h
      | inr done ↦
          rw (done, redo_to) (emit-Bounded "topology" _ (unfold ensure_selection in (omega arith)))
    ]

apply-Bounded : (now : ℕ) (e : Edit) (s : AppState) → Bounded s → Bounded (apply now e s)
unfolding apply undo redo
apply-Bounded now (loads t remember) s h = set_topology-Bounded now t remember s h
apply-Bounded now (commits f) s h = commit-Bounded now f s h
apply-Bounded now undoes s h = undo_from-Bounded now s.topology s.history s h h
apply-Bounded now redoes s h = redo_from-Bounded now s.topology s.future s h h

unfoldable pub apply_all : List (ℕ × Edit) → AppState → AppState
apply_all [] s = s
apply_all ((now, e) ∷ es) s = apply_all es (apply now e s)

-- Through any loads, commits, undos and redos, the undo and redo stacks together hold at most 50
-- documents.
pub apply_all-Bounded : (es : List (ℕ × Edit)) (s : AppState) → Bounded s → Bounded (apply_all es s)
unfolding apply_all
apply_all-Bounded [] s h = h
apply_all-Bounded ((now, e) ∷ es) s h =
    apply_all-Bounded es (apply now e s) (apply-Bounded now e s h)
