-- ===== src/EditorLock/Requests.antt =====
-- What the request guard lets through while only cabling is unlocked.
use wiredraft.Prelude.{
  ℕ, String, true, false, none, some, ◌≡◌, ◌⊎◌, inl, inr, arith, Bool-cases, string_eq,
}
use wiredraft.Topology.{Topology}
use wiredraft.Document.{same_document, connection_changes_only}
use wiredraft.Document.Cabling.{OnlyConnections, connection_changes_only-OnlyConnections}
use wiredraft.EditorLock.{cabling, Lock, check_expiry, allows, Request, required_request_capability}

-- The guard of the API client: no capability is needed, or the lock has the one that is needed.
abbrev pub Passes : ℕ → Lock → Request → Topology → Type 0
Passes now s r current =
    (required_request_capability r current ≡ none)
    ⊎ ((capability : String) × (required_request_capability r current ≡ some capability)
        × ((allows now capability s).1 ≡ true))

needs_all :
    (r : Request) (current : Topology)
    → r.matches ≡ true
    → r.resource ≡ ""
    → r.method ≡ "PUT"
    → same_document current r.next ≡ false
    → connection_changes_only current r.next ≡ false
    → required_request_capability r current ≡ some "all"
unfolding required_request_capability
needs_all r current m a b d o = rw (m, a, b, d, o, required_request_capability)

cabling_refuses_all : (now : ℕ) (s : Lock) → s.mode ≡ cabling → (allows now "all" s).1 ≡ false
unfolding allows check_expiry
cabling_refuses_all now s m = ground arith

-- While the lock is in cabling mode, the save of a whole map passes the guard only if its document
-- is the one at hand, or differs from it in connections only.
pub Passes-cabling :
    (now : ℕ) (s : Lock) (r : Request) (current : Topology)
    → s.mode ≡ cabling
    → r.matches ≡ true
    → r.resource ≡ ""
    → r.method ≡ "PUT"
    → Passes now s r current
    → (same_document current r.next ≡ true) ⊎ OnlyConnections current r.next
Passes-cabling now s r current cab m a b p = elim (Bool-cases (same_document current r.next)) [
  | inl same ↦ inl same
  | inr differs ↦ elim (Bool-cases (connection_changes_only current r.next)) [
    | inl only ↦ inr (connection_changes_only-OnlyConnections current r.next only)
    | inr more ↦
        absurd
          (ground (arith, needs_all r current m a b differs more, cabling_refuses_all now s cab))
  ]
]
