-- ===== src/DraftRecovery.antt =====
-- Safety copies of unsaved maps: class `DraftRecovery` of web/static/js/draft-recovery.js. The
-- clock and the random id of a new entry are arguments. An entry is one object of the source;
-- whether the storage takes a write is a field, and `stored` is the list that it holds.
pub mod Drafts
pub mod Pending
use wiredraft.Prelude.{
  ℕ, String, Bool, true, false, ◌&&◌, ◌||◌, not, List, [], ◌∷◌, map, Option, none, some, ◌==◌, ◌!=◌,
  Eq, string_eq, if◌then◌else◌, is_empty, filter, any,
}
use wiredraft.Topology.{Topology}
use wiredraft.Document.{same_document}

pub record Entry : Type 0 where
  pub id : String
  pub topology : Topology
  pub saved_at : ℕ
  pub pending : Bool

pub data DraftStorage : Type 0 where
  absent : DraftStorage
  failing : DraftStorage
  working : DraftStorage

pub record DraftRecovery : Type 0 where
  pub entries : List Entry
  pub storage : DraftStorage
  pub stored : List Entry
  pub storage_error : Option String

-- The constructor, with the well-formed entries that the storage holds.
abbrev pub new_recovery : DraftStorage → List Entry → DraftRecovery
new_recovery storage stored = record {
  entries = map (λ (entry : Entry). record entry { pending = false }) stored;
  storage = storage;
  stored = stored;
  storage_error = none;
}

-- `entry.pending && entry.topology.id === mapID`
unfoldable pub is_pending_of : String → Entry → Bool
is_pending_of map_id entry = entry.pending && entry.topology.id == map_id

abbrev pub recoveries : DraftRecovery → List Entry
recoveries s = filter (λ (entry : Entry). not entry.pending) s.entries

unfoldable pub has_pending : String → DraftRecovery → Bool
unfolding is_pending_of
has_pending map_id s = any (is_pending_of map_id) s.entries

abbrev pub written : DraftStorage → List Entry → List Entry → List Entry
written working old new = new
written _ old new = old

abbrev pub write_error : DraftStorage → Option String
write_error absent = some "Session storage unavailable"
write_error failing = some "setItem"
write_error working = none

unfoldable pub persist : DraftRecovery → DraftRecovery
persist s = record s {
  stored = written s.storage s.stored s.entries;
  storage_error = write_error s.storage;
}

unfoldable pub acknowledge : Topology → DraftRecovery → DraftRecovery
unfolding persist
acknowledge submitted s = persist (record s {
  entries =
      filter (λ (entry : Entry). not entry.pending || not (same_document entry.topology submitted))
        s.entries;
})

-- The first pending entry of the map takes the snapshot; without one a new entry is added.
unfoldable pub capture_in : String → ℕ → Topology → List Entry → List Entry
unfolding is_pending_of
capture_in id now topology [] =
    (record { id = id; topology = topology; saved_at = now; pending = true }) ∷ []
capture_in id now topology (entry ∷ entries) =
    let rest = capture_in id now topology entries in
    if is_pending_of topology.id entry
    then (record entry { topology = topology; saved_at = now; pending = true }) ∷ entries
    else entry ∷ rest

unfoldable pub capture : String → ℕ → Option Topology → DraftRecovery → DraftRecovery
unfolding capture_in persist
capture id now none s = s
capture id now (some topology) s =
    if is_empty topology.id
    then s
    else persist (record s { entries = capture_in id now topology s.entries })

-- The loop of `accept`: a pending entry of the map goes if it is the accepted document, and becomes
-- a recovery otherwise.
unfoldable pub accept_in : Topology → List Entry → List Entry
unfolding is_pending_of
accept_in topology [] = []
accept_in topology (entry ∷ entries) =
    let rest = accept_in topology entries in
    if not (is_pending_of topology.id entry)
    then entry ∷ rest
    else if same_document entry.topology topology
    then rest
    else (record entry { pending = false }) ∷ rest

unfoldable pub accept : Option Topology → DraftRecovery → DraftRecovery × Bool
unfolding accept_in persist has_pending
accept none s = (s, false)
accept (some topology) s =
    (persist (record s { entries = accept_in topology s.entries }), has_pending topology.id s)

unfoldable pub discard_pending : String → DraftRecovery → DraftRecovery
unfolding persist
discard_pending map_id s = persist (record s {
  entries = filter (λ (entry : Entry). not entry.pending || entry.topology.id != map_id) s.entries;
})

unfoldable pub discard : String → DraftRecovery → DraftRecovery
unfolding persist
discard id s = persist (record s { entries = filter (λ (entry : Entry). entry.id != id) s.entries })

pub data Call : Type 0 where
  captures : String → ℕ → Option Topology → Call
  accepts : Option Topology → Call
  acknowledges : Topology → Call
  discards_pending : String → Call
  discards : String → Call

unfoldable pub step : Call → DraftRecovery → DraftRecovery
step (captures id now topology) s = capture id now topology s
step (accepts topology) s = (accept topology s).0
step (acknowledges submitted) s = acknowledge submitted s
step (discards_pending map_id) s = discard_pending map_id s
step (discards id) s = discard id s

unfoldable pub run : List Call → DraftRecovery → DraftRecovery
unfolding step
run [] s = s
run (c ∷ cs) s = run cs (step c s)
