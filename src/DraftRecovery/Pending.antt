-- ===== src/DraftRecovery/Pending.antt =====
-- How many drafts of a map are pending.
use wiredraft.Prelude.{
  ℕ, suc, String, Bool, false, List, [], ◌∷◌, map, none, some, ◌≡◌, refl, ◌≤◌, ◌==◌, string_eq,
  Bool-cases, inl, inr, arith, if◌then◌else◌, filter, str_iff, is_empty, max,
}
use wiredraft.Topology.{Topology}
use wiredraft.DraftRecovery.{
  Entry, DraftStorage, DraftRecovery, is_pending_of, persist, acknowledge, capture_in, capture,
  accept_in, accept, discard_pending, discard, Call, captures, accepts, acknowledges,
  discards_pending, discards, step, run, new_recovery,
}

unfoldable pub count : String → List Entry → ℕ
count map_id [] = 0
count map_id (e ∷ es) =
    let rest = count map_id es in if is_pending_of map_id e then suc rest else rest

abbrev pub HasOneDraft : DraftRecovery → Type 0
HasOneDraft s = (map_id : String) → count map_id s.entries ≤ 1

count-filter :
    (p : Entry → Bool) (m : String) (es : List Entry) → count m (filter p es) ≤ count m es
unfolding count
count-filter p m [] = omega arith
count-filter p m (e ∷ es) = ground (arith, count-filter p m es)

count-capture_in :
    (id : String) (now : ℕ) (new : Topology) (m : String) (es : List Entry)
    → count m (capture_in id now new es) ≤ (if new.id == m then max 1 (count m es) else count m es)
unfolding count capture_in is_pending_of
count-capture_in id now new m [] = ground arith
count-capture_in id now new m (e ∷ es) = ground (
  arith,
  count-capture_in id now new m es,
  str_iff e.topology.id new.id,
  str_iff e.topology.id m,
  str_iff new.id m,
)

count-accept_in :
    (new : Topology) (m : String) (es : List Entry)
    → (count m (accept_in new es) ≤ count m es) × (new.id ≡ m → count m (accept_in new es) ≡ 0)
unfolding count accept_in is_pending_of
count-accept_in new m [] = (omega arith, λ e. refl)
count-accept_in new m (e ∷ es) =
    let (least, none_left) = count-accept_in new m es in
    (
      ground (arith, least, str_iff e.topology.id new.id, str_iff e.topology.id m),
      λ same.
          ground
            (arith, none_left same, str_iff e.topology.id new.id, str_iff e.topology.id m, same),
    )

step-HasOneDraft : (c : Call) (s : DraftRecovery) → HasOneDraft s → HasOneDraft (step c s)
unfolding step capture accept acknowledge discard_pending discard persist
step-HasOneDraft (captures id now none) s h m = h m
step-HasOneDraft (captures id now (some new)) s h m = elim (Bool-cases (is_empty new.id)) [
  | inl e ↦ rw e (h m)
  | inr e ↦ rw e (ground (arith, count-capture_in id now new m s.entries, h m))
]
step-HasOneDraft (accepts none) s h m = h m
step-HasOneDraft (accepts (some new)) s h m =
    omega (arith, (count-accept_in new m s.entries).0, h m)
step-HasOneDraft (acknowledges new) s h m = omega (arith, count-filter _ m s.entries, h m)
step-HasOneDraft (discards_pending map_id) s h m = omega (arith, count-filter _ m s.entries, h m)
step-HasOneDraft (discards id) s h m = omega (arith, count-filter _ m s.entries, h m)

run-keeps : (cs : List Call) (s : DraftRecovery) → HasOneDraft s → HasOneDraft (run cs s)
unfolding run
run-keeps [] s h = h
run-keeps (c ∷ cs) s h = run-keeps cs (step c s) (step-HasOneDraft c s h)

count-reopened :
    (m : String) (es : List Entry)
    → count m (map (λ (entry : Entry). record entry { pending = false }) es) ≡ 0
unfolding count is_pending_of
count-reopened m [] = refl
count-reopened m (e ∷ es) = count-reopened m es

-- A recovery that is read from the storage has, after any calls, at most one pending draft of each
-- map.
pub run-HasOneDraft :
    (storage : DraftStorage) (stored : List Entry) (cs : List Call)
    → HasOneDraft (run cs (new_recovery storage stored))
run-HasOneDraft storage stored cs =
    run-keeps cs (new_recovery storage stored) (λ m. omega (arith, count-reopened m stored))
