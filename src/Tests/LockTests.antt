-- ===== src/Tests/LockTests.antt =====
-- The edit lock, run.
use wiredraft.Prelude.{
  true, false, [], ◌∷◌, some, ◌≡◌, refl, arith, Bool-cases, ◌⊎◌, inl, inr, string_eq,
}
use wiredraft.Topology.{Topology}
use wiredraft.Document.{same_document, same_document_iff, link_by_id, connection_changes_only}
use wiredraft.Document.Cabling.{OnlyConnections, connection_changes_only-OnlyConnections}
use wiredraft.EditorLock.{
  Lock, read_only, cabling, new_lock, allows, allows_change, set_mode, check_expiry, mode_of,
  Request, required_request_capability,
}
use wiredraft.EditorLock.Idle.{IsValid, checks, run, allows_after_idle}
use wiredraft.EditorLock.Requests.{Passes, Passes-cabling}
use wiredraft.Tests.Samples.{sample}

abbrev opened_lock : Lock
opened_lock = record { mode = cabling; deadline = 900100; timer = some 900100; events = [] }

opens :
    set_mode 100 "cabling" "manual" new_lock
    ≡ record opened_lock { events = (cabling, "manual") ∷ [] }
unfolding set_mode check_expiry mode_of
opens = refl

opened_lock-IsValid : IsValid 100 opened_lock
opened_lock-IsValid = record {
  closed = λ e. cc;
  bounded = omega arith;
  armed = λ e. (omega arith, refl);
}

-- The sample map with its cable taken off.
abbrev unplugged : Topology
unplugged = record sample { links = [] }

allows_after_idle_example :
    ((allows 900100 "cabling" (run 100 ((5, checks) ∷ []) opened_lock)).1 ≡ false)
    × ((allows_change 900100 sample unplugged (run 100 ((5, checks) ∷ []) opened_lock)).1 ≡ false)
    × ((allows 900100 "cabling" (run 100 ((5, checks) ∷ []) opened_lock)).0.mode ≡ read_only)
allows_after_idle_example =
    allows_after_idle 100 900100 ((5, checks) ∷ []) opened_lock "cabling" sample unplugged
      opened_lock-IsValid (refl, tt) (omega arith)

only_cables : connection_changes_only sample unplugged ≡ true
unfolding connection_changes_only link_by_id
only_cables = (same_document_iff _ _).1 refl

connection_changes_only-OnlyConnections_example : OnlyConnections sample unplugged
connection_changes_only-OnlyConnections_example =
    connection_changes_only-OnlyConnections sample unplugged only_cables

-- A request that saves the unplugged map.
abbrev save : Request
save = record { matches = true; resource = ""; method = "PUT"; next = unplugged }

save-Passes : Passes 200 opened_lock save sample
unfolding required_request_capability allows check_expiry
save-Passes = elim (Bool-cases (same_document sample unplugged)) [
  | inl e ↦ inl (rw e refl)
  | inr e ↦ inr ("cabling", rw (e, only_cables) refl, refl)
]

Passes-cabling_example : (same_document sample unplugged ≡ true) ⊎ OnlyConnections sample unplugged
Passes-cabling_example = Passes-cabling 200 opened_lock save sample refl refl refl refl save-Passes
