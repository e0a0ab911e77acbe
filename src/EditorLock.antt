-- ===== src/EditorLock.antt =====
-- The edit lock: `EditorLock` and `requiredRequestCapability` of web/static/js/editor-lock.js. Time
-- is an argument of each call, in milliseconds; the calls of `now()` in one method see one time.
-- The scheduled timer is the time at which it fires. `events` lists the dispatched changes.
pub mod Idle
pub mod Requests
use wiredraft.Prelude.{
  ℕ, String, Bool, true, false, ◌&&◌, ◌||◌, not, List, [], ◌∷◌, ◌++◌, Option, none, some, ◌+◌, ◌*◌,
  max, ltb, ◌==◌, Eq, string_eq, nat_eq, if◌then◌else◌,
}
use wiredraft.Topology.{Topology}
use wiredraft.Document.{same_document, connection_changes_only}

pub data Mode : Type 0 where
  read_only cabling unlocked : Mode

abbrev pub idle_lock_ms : ℕ
idle_lock_ms = 15 * 60 * 1000

-- The texts of `EditMode`; any other text is no mode.
unfoldable pub mode_of : String → Mode
mode_of text = if text == "cabling" then cabling else if text == "all" then unlocked else read_only

abbrev pub is_read_only : Mode → Bool
is_read_only read_only = true
is_read_only cabling = false
is_read_only unlocked = false

abbrev pub is_unlocked : Mode → Bool
is_unlocked unlocked = true
is_unlocked read_only = false
is_unlocked cabling = false

abbrev pub same_mode : Mode → Mode → Bool
same_mode read_only b = is_read_only b
same_mode unlocked b = is_unlocked b
same_mode cabling b = not (is_read_only b || is_unlocked b)

pub record Lock : Type 0 where
  pub mode : Mode
  pub deadline : ℕ
  pub timer : Option ℕ
  pub events : List (Mode × String)

abbrev pub new_lock : Lock
new_lock = record { mode = read_only; deadline = 0; timer = none; events = [] }

-- `armTimer`: the callback runs `max(0, deadline - now)` after now.
unfoldable pub arm_timer : ℕ → Lock → Lock
arm_timer now s = record s { timer = if s.deadline == 0 then none else some (max now s.deadline) }

dispatch : Mode → String → Lock → Lock
dispatch mode reason s = record s { events = s.events ++ (mode, reason) ∷ [] }

unfoldable pub check_expiry : ℕ → Lock → Lock
unfolding arm_timer dispatch
check_expiry now s =
    if is_read_only s.mode || ltb now s.deadline
    then s
    else dispatch read_only "idle" (arm_timer now (record s { mode = read_only; deadline = 0 }))

-- `setMode` after its `checkExpiry`.
switch_mode : ℕ → Mode → String → Lock → Lock
unfolding arm_timer dispatch
switch_mode now next reason c =
    let deadline =
      if is_read_only next
      then 0
      else if is_read_only c.mode
      then now + idle_lock_ms
      else c.deadline in
    if same_mode next c.mode
    then c
    else dispatch next reason (arm_timer now (record c { mode = next; deadline = deadline }))

unfoldable pub set_mode : ℕ → String → String → Lock → Lock
unfolding switch_mode
set_mode now mode reason s = switch_mode now (mode_of mode) reason (check_expiry now s)

unfoldable pub allows : ℕ → String → Lock → Lock × Bool
allows now capability s =
    let c = check_expiry now s in
    (c, is_unlocked c.mode || (same_mode c.mode cabling && capability == "cabling"))

unfoldable pub allows_change : ℕ → Topology → Topology → Lock → Lock × Bool
allows_change now before after s =
    let c = check_expiry now s in
    (
      c,
      if is_read_only c.mode
          then false
          else is_unlocked c.mode || connection_changes_only before after,
    )

-- `recordChange` after its `checkExpiry`.
extend_deadline : ℕ → Topology → Topology → Lock → Lock
unfolding arm_timer
extend_deadline now before after c =
    if is_read_only c.mode || same_document before after
    then c
    else arm_timer now (record c { deadline = now + idle_lock_ms })

unfoldable pub record_change : ℕ → Topology → Topology → Lock → Lock
unfolding extend_deadline
record_change now before after s = extend_deadline now before after (check_expiry now s)

-- The timer is unscheduled; the field keeps its handle, which nothing uses afterwards.
unfoldable pub destroy : Lock → Lock
destroy s = record s { timer = none }

-- A request of the API client: the parts of the path that the source's pattern captures (`none` if
-- the path does not match), the method, and the document in the body of a save.
pub record Request : Type 0 where
  pub matches : Bool
  -- the second capture, an empty text where there is none
  pub resource : String
  pub method : String
  pub next : Topology

-- `null` is `none`.
unfoldable pub required_request_capability : Request → Topology → Option String
required_request_capability r current =
    if not r.matches
    then none
    else if r.resource == "duplicate" && r.method == "POST"
    then none
    else if r.resource == "links" || r.resource == "link-groups"
    then some "cabling"
    else if r.resource == "" && r.method == "PUT"
    then (if same_document current r.next
        then none
        else if connection_changes_only current r.next
        then some "cabling"
        else some "all")
    else some "all"
