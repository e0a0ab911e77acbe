-- ===== src/Collaboration/Revisions.antt =====
-- Which revisions the client delivers.
use wiredraft.Prelude.{
  ℕ, String, ◌&&◌, ◌||◌, not, List, [], ◌∷◌, Option, none, some, ◌+◌, ◌<◌, ◌≡◌, refl, ◌⊎◌, inl, inr,
  ltb, leb, ◌==◌, string_eq, nat_eq, Bool-cases, arith,
}
use wiredraft.Collaboration.{
  Update, Notice, on_topology, on_status, on_revision_gap, on_open, Collaboration, is_current,
  open_source, opened, failed, fired, fire_at, accept_revision, accept_update, receive, heard,
  Event, opens, fails, fires, hears, happen, happen_all,
}

-- The callbacks between two revisions: every delivered topology has the next revision, or one
-- further on that is announced as a gap just before, or follows the unknown revision 0.
pub data Timeline (start : ℕ) : ℕ → List Notice → Type 0 where
  begun : Timeline start start []
  delivered :
      {p r : ℕ} {cs : List Notice} (t : Update) (type : String)
      → Timeline start p cs
      → t.revision ≡ some r
      → p < r
      → (p ≡ 0) ⊎ (r ≡ p + 1)
      → Timeline start r (on_topology t type ∷ cs)
  skipped :
      {p r : ℕ} {cs : List Notice} (t : Update) (type : String)
      → Timeline start p cs
      → t.revision ≡ some r
      → 0 < p
      → p + 1 < r
      → Timeline start r (on_topology t type ∷ on_revision_gap (p + 1) r ∷ cs)
  told :
      {r : ℕ} {cs : List Notice} (status : String)
      → Timeline start r cs
      → Timeline start r (on_status status ∷ cs)
  joined :
      {r : ℕ} {cs : List Notice} (id : String) (at : ℕ)
      → Timeline start r cs
      → Timeline start r (on_open id at ∷ cs)

abbrev Follows : ℕ → Collaboration → Type 0
Follows start s = Timeline start s.revision s.calls

open_source-Follows :
    (start : ℕ) (s : Collaboration) → Follows start s → Follows start (open_source s)
unfolding open_source
open_source-Follows start s h = elim (Bool-cases (s.stopped || s.topology_id == "")) [
  | inl e ↦ rw e h
  | inr e ↦ rw e (told "connecting" h)
]

accept_revision-Follows :
    (start : ℕ) (t : Update) (type : String) (r : ℕ) (s : Collaboration)
    → t.revision ≡ some r
    → Follows start s
    → Follows start (accept_revision t type r s).0
unfolding accept_revision
accept_revision-Follows start t type r s e h = elim (Bool-cases (leb r s.revision)) [
  | inl old ↦ rw old h
  | inr new ↦ elim (Bool-cases (ltb 0 s.revision && ltb (s.revision + 1) r)) [
    | inl gap ↦ rw (new, gap) (skipped t type h e (ground arith) (ground arith))
    | inr next ↦ rw (new, next) (delivered t type h e (ground arith) (ground arith))
  ]
]

accept_update-Follows :
    (start : ℕ) (t : Update) (type : String) (o : Option ℕ) (s : Collaboration)
    → t.revision ≡ o
    → Follows start s
    → Follows start (accept_update t type o s).0
unfolding accept_update
accept_update-Follows start t type none s e h = h
accept_update-Follows start t type (some r) s e h = elim (Bool-cases (t.id == s.topology_id)) [
  | inl same ↦ rw same (accept_revision-Follows start t type r s e h)
  | inr other ↦ rw other h
]

receive-Follows :
    (start : ℕ) (d : Option Update) (type : String) (s : Collaboration)
    → Follows start s
    → Follows start (receive d type s).0
unfolding receive
receive-Follows start none type s h = h
receive-Follows start (some t) type s h = accept_update-Follows start t type t.revision s refl h

fire_at-Follows :
    (start : ℕ) (o : Option ℕ) (s : Collaboration) → Follows start s → Follows start (fire_at o s)
unfolding fire_at
fire_at-Follows start none s h = h
fire_at-Follows start (some d) s h = open_source-Follows start (record s { timer = none }) h

happen-Follows :
    (start : ℕ) (e : Event) (s : Collaboration) → Follows start s → Follows start (happen e s)
unfolding happen opened failed fired heard
happen-Follows start (opens n) s h = elim (Bool-cases (s.stopped || not (is_current s.source n))) [
  | inl e ↦ rw e h
  | inr e ↦ rw e (joined s.topology_id s.revision (told "online" h))
]
happen-Follows start (fails n) s h = elim (Bool-cases (s.stopped || not (is_current s.source n))) [
  | inl e ↦ rw e h
  | inr e ↦ rw e (told "offline" h)
]
happen-Follows start fires s h = fire_at-Follows start s.timer s h
happen-Follows start (hears n d type) s h = elim (Bool-cases (is_current s.source n)) [
  | inl e ↦ rw e (receive-Follows start d type s h)
  | inr e ↦ rw e h
]

-- Whatever events reach a client that was connected at a revision, and in whatever order: each
-- topology that it delivers is newer than the one before, and where revisions in between are
-- missing (and the one before is known, that is not 0) the gap is announced, with the expected and
-- the received revision, just before. The client's revision is that of the last one.
pub happen_all-Timeline :
    (start : ℕ) (es : List Event) (s : Collaboration)
    → Timeline start s.revision s.calls
    → Timeline start (happen_all es s).revision (happen_all es s).calls
unfolding happen_all
happen_all-Timeline start [] s h = h
happen_all-Timeline start (e ∷ es) s h =
    happen_all-Timeline start es (happen e s) (happen-Follows start e s h)
