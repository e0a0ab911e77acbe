-- ===== src/AppState/Undo.antt =====
-- What undo and redo give back, and what a closed lock keeps from changing.
use mathlib.Core.Bool.{false≢true}
use wiredraft.Prelude.{
  String, ℕ, Bool, true, false, ◌||◌, not, List, [], ◌∷◌, Option, none, some, ◌≤◌, ◌≡◌, refl, ◌∙◌,
  ◌⊎◌, inl, inr, arith, Bool-cases, Option-cases, take,
}
use wiredraft.Topology.{Topology}
use wiredraft.EditorLock.{Lock, is_read_only, check_expiry, allows_change}
use wiredraft.AppState.{AppState, emit, ensure_selection, remember_in}
use wiredraft.AppState.Changes.{
  ask_change, unchanged, commit_to, commit, undo_to, undo_from, undo, redo_to, redo_from, redo,
  at_revision,
}
use wiredraft.AppState.History.{emit-stacks}

-- The document and the two stacks of a state.
pub record Holds (s : AppState) (t : Topology) (history future : List Topology) : Type 0 where
  pub topology : s.topology ≡ some t
  pub history_is : s.history ≡ history
  pub future_is : s.future ≡ future

emit-Holds :
    (kind : String) (s : AppState) {t : Topology} {history future : List Topology}
    → Holds s t history future
    → Holds (emit kind s) t history future
emit-Holds kind s h = record {
  topology = (emit-stacks kind s).2 ∙ h.topology;
  history_is = (emit-stacks kind s).0 ∙ h.history_is;
  future_is = (emit-stacks kind s).1 ∙ h.future_is;
}

commit_to-Holds :
    (now : ℕ) (current next : Topology) (s : AppState)
    → (commit_to now current next s).1 ≡ true
    → Holds (commit_to now current next s).0 next (remember_in s.history current) []
unfolding commit_to
commit_to-Holds now current next s h =
    elim (Bool-cases
      (not (ask_change now current next s.edit_lock).1 || unchanged s.edit_lock current next)) [
        | inl refused ↦ absurd (false≢true (rw (refused, commit_to) at h))
        | inr done ↦
            rw (done, commit_to)
              (emit-Holds "topology" _
                (record { topology = refl; history_is = refl; future_is = refl }))
      ]

commit-Holds :
    (now : ℕ) (f : Topology → Topology) (s : AppState) (current : Topology)
    → s.topology ≡ some current
    → (commit now f s).1 ≡ true
    → Holds (commit now f s).0 (f current) (remember_in s.history current) []
unfolding commit
commit-Holds now f s current e h =
    rw (e, commit) (commit_to-Holds now current (f current) s (rw (e, commit) at h))

-- The lock, where there is one, lets the document change from `before` to `after`.
abbrev pub Allowed : ℕ → Topology → Topology → AppState → Type 0
Allowed now before after s = (ask_change now before after s.edit_lock).1 ≡ true

undo_to-Holds :
    (now : ℕ) (current previous : Topology) (rest : List Topology) (s : AppState)
    → Allowed now current previous s
    → ((undo_to now current previous rest s).1 ≡ true)
      × Holds
          (undo_to now current previous rest s).0
          (at_revision current previous)
          rest
          (current ∷ s.future)
unfolding undo_to ensure_selection
undo_to-Holds now current previous rest s a =
    rw (a, undo_to)
      (
        refl,
        emit-Holds "topology" _ (record { topology = refl; history_is = refl; future_is = refl }),
      )

undo_from-Holds :
    (now : ℕ) (s : AppState) (o : Option Topology) (stack other : List Topology)
    (current previous : Topology) (rest : List Topology)
    → o ≡ some current
    → stack ≡ previous ∷ rest
    → s.future ≡ other
    → Allowed now current previous s
    → ((undo_from now o stack s).1 ≡ true)
      × Holds (undo_from now o stack s).0 (at_revision current previous) rest (current ∷ other)
unfolding undo_from
undo_from-Holds now s o stack other current previous rest p q r allowed =
    rw (p, q, undo_from, ← r) (undo_to-Holds now current previous rest s allowed)

redo_to-Holds :
    (now : ℕ) (current next : Topology) (rest : List Topology) (s : AppState)
    → Allowed now current next s
    → ((redo_to now current next rest s).1 ≡ true)
      × Holds
          (redo_to now current next rest s).0
          (at_revision current next)
          (current ∷ s.history)
          rest
unfolding redo_to ensure_selection
redo_to-Holds now current next rest s a =
    rw (a, redo_to)
      (
        refl,
        emit-Holds "topology" _ (record { topology = refl; history_is = refl; future_is = refl }),
      )

redo_from-Holds :
    (now : ℕ) (s : AppState) (o : Option Topology) (stack other : List Topology)
    (current next : Topology) (rest : List Topology)
    → o ≡ some current
    → stack ≡ next ∷ rest
    → s.history ≡ other
    → Allowed now current next s
    → ((redo_from now o stack s).1 ≡ true)
      × Holds (redo_from now o stack s).0 (at_revision current next) (current ∷ other) rest
unfolding redo_from
redo_from-Holds now s o stack other current next rest p q r allowed =
    rw (p, q, redo_from, ← r) (redo_to-Holds now current next rest s allowed)

-- After a commit that went through, an undo that the lock allows goes through too and gives back
-- the document from before, at the revision that the map has now; a redo that the lock then allows
-- goes through and gives back the committed document itself. The undo history then has that
-- document from before on top of the latest 49 that it had before the commit, and nothing is left
-- to redo.
pub redo-undo-commit :
    (t1 t2 t3 : ℕ) (f : Topology → Topology) (s : AppState) (current : Topology)
    → s.topology ≡ some current
    → (commit t1 f s).1 ≡ true
    → Allowed t2 (f current) current (commit t1 f s).0
    → Allowed t3 (at_revision (f current) current) (f current) (undo t2 (commit t1 f s).0).0
    → let done = (commit t1 f s).0 in
      let undone = (undo t2 done).0 in
      let redone = (redo t3 undone).0 in
      ((undo t2 done).1 ≡ true)
      × (undone.topology ≡ some (at_revision (f current) current))
      × ((redo t3 undone).1 ≡ true)
      × (redone.topology ≡ some (f current))
      × (redone.history ≡ at_revision (f current) current ∷ take 49 s.history)
      × (redone.future ≡ [])
unfolding undo redo
redo-undo-commit t1 t2 t3 f s current e c a b =
    let h = commit-Holds t1 f s current e c in
    let (went, u) =
      undo_from-Holds t2 (commit t1 f s).0 (commit t1 f s).0.topology (commit t1 f s).0.history []
        (f current) current (take 49 s.history) h.topology h.history_is h.future_is a in
    let undone = (undo t2 (commit t1 f s).0).0 in
    let (again, r) =
      redo_from-Holds t3 undone undone.topology undone.future (take 49 s.history)
        (at_revision (f current) current) (f current) [] u.topology u.future_is u.history_is b in
    (went, u.topology, again, r.topology, r.history_is, r.future_is)

-- The call failed, and left the document and both stacks as they were.
abbrev pub Refuses : AppState → AppState × Bool → Type 0
Refuses s (s', done) =
    (done ≡ false) × (s'.topology ≡ s.topology) × (s'.history ≡ s.history) × (s'.future ≡ s.future)

module _ (now : ℕ) (s : AppState)
    (refused : (a b : Topology) → (ask_change now a b s.edit_lock).1 ≡ false) where
  commit-Refuses : (f : Topology → Topology) → Refuses s (commit now f s)
  unfolding commit commit_to
  commit-Refuses f = elim (Option-cases s.topology) [
    | inl e ↦ rw (e, commit) (refl, e, refl, refl)
    | inr (t, e) ↦ rw (e, commit, refused t (f t), commit_to) (refl, e, refl, refl)
  ]

  undo_from-Refuses :
      (o : Option Topology) (history : List Topology) → Refuses s (undo_from now o history s)
  unfolding undo_from undo_to
  undo_from-Refuses none history = (refl, refl, refl, refl)
  undo_from-Refuses (some t) [] = (refl, refl, refl, refl)
  undo_from-Refuses (some t) (p ∷ rest) = rw (refused t p, undo_to) (refl, refl, refl, refl)

  redo_from-Refuses :
      (o : Option Topology) (future : List Topology) → Refuses s (redo_from now o future s)
  unfolding redo_from redo_to
  redo_from-Refuses none future = (refl, refl, refl, refl)
  redo_from-Refuses (some t) [] = (refl, refl, refl, refl)
  redo_from-Refuses (some t) (p ∷ rest) = rw (refused t p, redo_to) (refl, refl, refl, refl)

closed-refuses :
    (now : ℕ) (lock : Lock) (before after : Topology)
    → (is_read_only lock.mode ≡ true) ⊎ (lock.deadline ≤ now)
    → (allows_change now before after lock).1 ≡ false
unfolding allows_change check_expiry
closed-refuses now lock before after closed = ground arith

-- While the lock is read-only, or its deadline has come, every commit, undo and redo fails, and
-- leaves the document and both stacks as they were.
pub closed_lock-Refuses :
    (now : ℕ) (f : Topology → Topology) (s : AppState) (lock : Lock)
    → s.edit_lock ≡ some lock
    → (is_read_only lock.mode ≡ true) ⊎ (lock.deadline ≤ now)
    → Refuses s (commit now f s) × Refuses s (undo now s) × Refuses s (redo now s)
unfolding undo redo ask_change
closed_lock-Refuses now f s lock e closed = (
  commit-Refuses now s refused f,
  undo_from-Refuses now s refused s.topology s.history,
  redo_from-Refuses now s refused s.topology s.future,
)
  where
    refused : (a b : Topology) → (ask_change now a b s.edit_lock).1 ≡ false
    refused a b = rw (e, ask_change) (closed-refuses now lock a b closed)
