-- ===== src/EditorLock/Idle.antt =====
-- When the lock is open, and when it closes by itself.
use mathlib.Core.Bool.{false≢true}
use wiredraft.Prelude.{
  ℕ, String, Bool, true, false, List, [], ◌∷◌, none, some, ◌+◌, ◌≤◌, ◌<◌, ◌≡◌, ◌⊎◌, arith, ◌↔◌,
  string_eq,
}
use wiredraft.Topology.{Topology}
use wiredraft.Document.{connection_changes_only}
use wiredraft.EditorLock.{
  Mode, read_only, cabling, unlocked, Lock, is_read_only, mode_of, idle_lock_ms, switch_mode,
  extend_deadline, check_expiry, set_mode, allows, allows_change, record_change,
}

-- What holds between two calls at time `now`: a closed lock has no deadline and no timer, an open
-- one closes within the idle time, and its timer fires at the deadline or as soon as it was armed.
pub record IsValid (now : ℕ) (s : Lock) : Type 0 where
  pub closed : s.mode ≡ read_only → (s.deadline ≡ 0) × (s.timer ≡ none)
  pub bounded : s.deadline ≤ now + idle_lock_ms
  pub armed : is_read_only s.mode ≡ false → (0 < s.deadline) × (s.timer ≡ some s.deadline)

pub data Call : Type 0 where
  checks : Call
  sets : String → String → Call
  asks : String → Call
  asks_change : Topology → Topology → Call
  records : Topology → Topology → Call

-- One call at a time.
unfoldable pub step : ℕ → Call → Lock → Lock
step now checks s = check_expiry now s
step now (sets mode reason) s = set_mode now mode reason s
step now (asks capability) s = (allows now capability s).0
step now (asks_change before after) s = (allows_change now before after s).0
step now (records before after) s = record_change now before after s

check_expiry-IsValid : (now : ℕ) (s : Lock) → IsValid now s → IsValid now (check_expiry now s)
unfolding check_expiry
check_expiry-IsValid now s v = ground arith

-- After the check an open lock is before its deadline.
check_expiry-open :
    (now : ℕ) (s : Lock)
    → is_read_only (check_expiry now s).mode ≡ false
    → (check_expiry now s ≡ s) × (now < s.deadline)
unfolding check_expiry
check_expiry-open now s h = ground arith

-- What holds of a lock that `check_expiry` has just seen.
abbrev Fresh : ℕ → Lock → Type 0
Fresh now c = IsValid now c × (is_read_only c.mode ≡ false → now < c.deadline)

check_expiry-Fresh : (now : ℕ) (s : Lock) → IsValid now s → Fresh now (check_expiry now s)
unfolding check_expiry
check_expiry-Fresh now s v = (check_expiry-IsValid now s v, λ h. ground arith)

switch_mode-IsValid :
    (now : ℕ) (next : Mode) (reason : String) (c : Lock)
    → Fresh now c
    → IsValid now (switch_mode now next reason c)
unfolding switch_mode
switch_mode-IsValid now read_only reason c f = ground arith
switch_mode-IsValid now cabling reason c f = ground arith
switch_mode-IsValid now unlocked reason c f = ground arith

extend_deadline-IsValid :
    (now : ℕ) (a b : Topology) (c : Lock) → Fresh now c → IsValid now (extend_deadline now a b c)
unfolding extend_deadline
extend_deadline-IsValid now a b c f = ground arith

later-IsValid : (now later : ℕ) (s : Lock) → now ≤ later → IsValid now s → IsValid later s
later-IsValid now later s h v = record {
  closed = v.closed;
  bounded = omega (arith, v.bounded);
  armed = v.armed;
}

step-IsValid : (now : ℕ) (c : Call) (s : Lock) → IsValid now s → IsValid now (step now c s)
unfolding step set_mode record_change allows allows_change
step-IsValid now checks s v = check_expiry-IsValid now s v
step-IsValid now (sets mode reason) s v =
    switch_mode-IsValid now (mode_of mode) reason _ (check_expiry-Fresh now s v)
step-IsValid now (asks capability) s v = check_expiry-IsValid now s v
step-IsValid now (asks_change before after) s v = check_expiry-IsValid now s v
step-IsValid now (records before after) s v =
    extend_deadline-IsValid now before after _ (check_expiry-Fresh now s v)

-- Calls at the given delays after one another.
unfoldable pub run : ℕ → List (ℕ × Call) → Lock → Lock
run now [] s = s
run now ((delay, c) ∷ cs) s = run (now + delay) cs (step (now + delay) c s)

abbrev pub end_of : ℕ → List (ℕ × Call) → ℕ
end_of now [] = now
end_of now ((delay, c) ∷ cs) = end_of (now + delay) cs

-- Through any calls in the order of their times, a closed lock has no deadline and no timer, and an
-- open one has a deadline within the idle time from the last call and a timer that fires there.
pub run-IsValid :
    (now : ℕ) (cs : List (ℕ × Call)) (s : Lock)
    → IsValid now s
    → IsValid (end_of now cs) (run now cs s)
unfolding run
run-IsValid now [] s v = v
run-IsValid now ((delay, c) ∷ cs) s v =
    run-IsValid (now + delay) cs (step (now + delay) c s)
      (step-IsValid (now + delay) c s (later-IsValid now (now + delay) s (omega arith) v))

-- A change is allowed exactly when the lock is open, its deadline has not come, and either all
-- editing is unlocked or the change touches connections only.
pub allows_change_iff :
    (now : ℕ) (before after : Topology) (s : Lock)
    → ((allows_change now before after s).1 ≡ true) ↔ (
        (is_read_only s.mode ≡ false)
        × (now < s.deadline)
        × ((s.mode ≡ unlocked) ⊎ (connection_changes_only before after ≡ true)))
unfolding allows_change check_expiry
allows_change_iff now before after s = ((λ h. ground arith), (λ h. ground arith))

abbrev asks_only : Call → Bool
asks_only checks = true
asks_only (sets mode reason) = false
asks_only (asks capability) = true
asks_only (asks_change before after) = true
asks_only (records before after) = false

-- No call of the sequence sets a mode or records a change.
abbrev pub OnlyAsks : List (ℕ × Call) → Type 0
OnlyAsks [] = Unit {0}
OnlyAsks ((delay, c) ∷ cs) = (asks_only c ≡ true) × OnlyAsks cs

check_expiry-deadline : (now d : ℕ) (s : Lock) → s.deadline ≤ d → (check_expiry now s).deadline ≤ d
unfolding check_expiry
check_expiry-deadline now d s h = ground arith

run-deadline :
    (now d : ℕ) (cs : List (ℕ × Call)) (s : Lock)
    → OnlyAsks cs
    → s.deadline ≤ d
    → (run now cs s).deadline ≤ d
unfolding run step allows allows_change
run-deadline now d [] s o h = h
run-deadline now d ((delay, checks) ∷ cs) s o h =
    run-deadline (now + delay) d cs _ o.1 (check_expiry-deadline (now + delay) d s h)
run-deadline now d ((delay, sets mode reason) ∷ cs) s o h = absurd (false≢true o.0)
run-deadline now d ((delay, asks capability) ∷ cs) s o h =
    run-deadline (now + delay) d cs _ o.1 (check_expiry-deadline (now + delay) d s h)
run-deadline now d ((delay, asks_change before after) ∷ cs) s o h =
    run-deadline (now + delay) d cs _ o.1 (check_expiry-deadline (now + delay) d s h)
run-deadline now d ((delay, records before after) ∷ cs) s o h = absurd (false≢true o.0)

-- From a valid state, when no mode is set and no change is recorded, every question asked fifteen
-- minutes later or after that is refused, whatever was asked in between.
pub allows_after_idle :
    (now later : ℕ) (cs : List (ℕ × Call)) (s : Lock) (capability : String)
    (before after : Topology)
    → IsValid now s
    → OnlyAsks cs
    → now + idle_lock_ms ≤ later
    → ((allows later capability (run now cs s)).1 ≡ false)
      × ((allows_change later before after (run now cs s)).1 ≡ false)
      × ((allows later capability (run now cs s)).0.mode ≡ read_only)
unfolding allows allows_change check_expiry
allows_after_idle now later cs s capability before after v o h =
    let d = run-deadline now (now + idle_lock_ms) cs s o v.bounded in
    (ground arith, ground arith, ground arith)
