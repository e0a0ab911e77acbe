-- ===== src/Collaboration.antt =====
-- The live updates of a map: class `TopologyCollaboration` of web/static/js/collaboration.js. Event
-- sources are numbered in the order in which the factory makes them. `timer` is the delay of the
-- pending `setTimeout` call; the callbacks are listed in `calls`, the latest first. A topology is
-- the id, the revision (`none` where it is no safe integer), and its text.
pub mod Revisions
pub mod Connection
use wiredraft.Prelude.{
  ℕ, String, Bool, true, false, ◌&&◌, ◌||◌, not, List, [], ◌∷◌, Option, none, some, ◌+◌, ◌*◌, min,
  ltb, leb, ◌==◌, ◌!=◌, Eq, string_eq, nat_eq, if◌then◌else◌, is_empty,
}

pub record Update : Type 0 where
  pub id : String
  pub revision : Option ℕ
  pub content : String

pub data Notice : Type 0 where
  on_topology : Update → String → Notice
  on_status : String → Notice
  -- the expected and the received revision
  on_revision_gap : ℕ → ℕ → Notice
  on_open : String → ℕ → Notice

pub record Collaboration : Type 0 where
  pub source : Option ℕ
  -- the number of the next event source that the factory makes
  pub made : ℕ
  pub topology_id : String
  pub revision : ℕ
  pub retry : ℕ
  pub timer : Option ℕ
  pub stopped : Bool
  pub calls : List Notice

abbrev pub new_collaboration : Collaboration
new_collaboration = record {
  source = none;
  made = 0;
  topology_id = "";
  revision = 0;
  retry = 1000;
  timer = none;
  stopped = true;
  calls = [];
}

abbrev pub maximum_retry : ℕ
maximum_retry = 30000

-- `this.source === source`
abbrev pub is_current : Option ℕ → ℕ → Bool
is_current none source = false
is_current (some current) source = current == source

unfoldable pub open_source : Collaboration → Collaboration
open_source s = if s.stopped || is_empty s.topology_id then s else record s {
  calls = on_status "connecting" ∷ s.calls;
  source = some s.made;
  made = s.made + 1;
}

-- The handler `source.onopen`.
unfoldable pub opened : ℕ → Collaboration → Collaboration
opened source s = if s.stopped || not (is_current s.source source) then s else record s {
  retry = 1000;
  calls = on_open s.topology_id s.revision ∷ on_status "online" ∷ s.calls;
}

-- The handler `source.onerror`.
unfoldable pub failed : ℕ → Collaboration → Collaboration
failed source s = if s.stopped || not (is_current s.source source) then s else record s {
  source = none;
  calls = on_status "offline" ∷ s.calls;
  timer = some s.retry;
  retry = min (s.retry * 2) maximum_retry;
}

-- The timer fires, if one is pending.
fire_at : Option ℕ → Collaboration → Collaboration
unfolding open_source
fire_at none s = s
fire_at (some delay) s = open_source (record s { timer = none })

unfoldable pub fired : Collaboration → Collaboration
unfolding fire_at
fired s = fire_at s.timer s

-- The end of `receive`, for a revision.
accept_revision : Update → String → ℕ → Collaboration → Collaboration × Bool
accept_revision topology event_type received s = if leb received s.revision then (s, false) else (
  record s {
    calls =
        on_topology topology event_type
        ∷ (if ltb 0 s.revision && ltb (s.revision + 1) received
            then on_revision_gap (s.revision + 1) received ∷ s.calls
            else s.calls);
    revision = received;
  },
  true,
)

-- `receive` after the parsing, given the revision.
accept_update : Update → String → Option ℕ → Collaboration → Collaboration × Bool
unfolding accept_revision
accept_update topology event_type none s = (s, false)
accept_update topology event_type (some received) s =
    if topology.id != s.topology_id
    then (s, false)
    else accept_revision topology event_type received s

-- The event's data parsed, `none` where it is no JSON.
unfoldable pub receive : Option Update → String → Collaboration → Collaboration × Bool
unfolding accept_update
receive none event_type s = (s, false)
receive (some topology) event_type s = accept_update topology event_type topology.revision s

-- The listener of each event type.
unfoldable pub heard : ℕ → Option Update → String → Collaboration → Collaboration
unfolding receive
heard source payload event_type s =
    if is_current s.source source then (receive payload event_type s).0 else s

unfoldable pub close : Collaboration → Collaboration
close s = record s { stopped = true; timer = none; source = none; topology_id = ""; revision = 0 }

abbrev pub or_zero : Option ℕ → ℕ
or_zero none = 0
or_zero (some n) = n

unfoldable pub connect : Option Update → Collaboration → Collaboration
unfolding close open_source
connect none s = close s
connect (some topology) s =
    if is_empty topology.id
    then close s
    else open_source (record (close s) {
      topology_id = topology.id;
      revision = or_zero topology.revision;
      retry = 1000;
      stopped = false;
    })

-- What happens to a connected client until it is closed.
pub data Event : Type 0 where
  opens : ℕ → Event
  fails : ℕ → Event
  fires : Event
  hears : ℕ → Option Update → String → Event

unfoldable pub happen : Event → Collaboration → Collaboration
unfolding opened failed fired heard
happen (opens source) s = opened source s
happen (fails source) s = failed source s
happen fires s = fired s
happen (hears source payload event_type) s = heard source payload event_type s

unfoldable pub happen_all : List Event → Collaboration → Collaboration
happen_all [] s = s
happen_all (e ∷ es) s = happen_all es (happen e s)
