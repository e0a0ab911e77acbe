-- ===== src/PlacementSync/Queue.antt =====
-- The queue of saves: `TopologyWriteQueue` of web/static/js/placement-sync.js. An operation is its
-- place in the order of the calls of `run`. Its promise waits for the promise of the call before,
-- becomes active when the operation begins, is settled with or without success, and is done when
-- `catch` and `finally` have run.
use wiredraft.Prelude.{
  ℕ, zero, suc, Bool, true, false, List, [], ◌∷◌, ◌++◌, Option, none, some, ◌+◌, ◌-◌, if_given,
}

pub data Phase : Type 0 where
  waiting : Phase
  active : Phase
  settled : Bool → Phase
  done : Bool → Phase

pub record WriteQueue : Type 0 where
  pub promises : List Phase
  pub pending : ℕ

abbrev pub new_queue : WriteQueue
new_queue = record { promises = []; pending = 0 }

-- What the event loop does to a promise.
pub data Turn : Type 0 where
  begins : Turn
  settles : Bool → Turn
  finishes : Turn

abbrev pub is_done : Phase → Bool
is_done waiting = false
is_done active = false
is_done (settled success) = false
is_done (done success) = true

-- The promise after the turn, where the turn is possible: an operation begins only when the
-- promise before it is done.
unfoldable pub turn_of : Turn → Bool → Phase → Option Phase
turn_of begins true waiting = some active
turn_of begins false waiting = none
turn_of begins ready active = none
turn_of begins ready (settled success) = none
turn_of begins ready (done success) = none
turn_of (settles success) ready waiting = none
turn_of (settles success) ready active = some (settled success)
turn_of (settles success) ready (settled other) = none
turn_of (settles success) ready (done other) = none
turn_of finishes ready waiting = none
turn_of finishes ready active = none
turn_of finishes ready (settled success) = some (done success)
turn_of finishes ready (done success) = none

unfoldable pub turn_at : Turn → ℕ → Bool → List Phase → Option (List Phase)
unfolding turn_of
turn_at turn place ready [] = none
turn_at turn zero ready (promise ∷ promises) =
    if_given (turn_of turn ready promise) (λ next. some (next ∷ promises))
turn_at turn (suc place) ready (promise ∷ promises) =
    if_given (turn_at turn place (is_done promise) promises) (λ next. some (promise ∷ next))

abbrev pub pending_after : Turn → ℕ → ℕ
pending_after begins pending = pending
pending_after (settles success) pending = pending
pending_after finishes pending = pending - 1

-- A call of `run`.
unfoldable pub run : WriteQueue → WriteQueue
run q = record { promises = q.promises ++ waiting ∷ []; pending = q.pending + 1 }

unfoldable pub take_turn : Turn → ℕ → WriteQueue → Option WriteQueue
unfolding turn_at
take_turn turn place q =
    if_given (turn_at turn place true q.promises)
      (λ promises. some (record { promises = promises; pending = pending_after turn q.pending }))

pub data Event : Type 0 where
  calls : Event
  turns : Turn → ℕ → Event

unfoldable pub happen : Event → WriteQueue → Option WriteQueue
unfolding run take_turn
happen calls q = some (run q)
happen (turns turn place) q = take_turn turn place q

unfoldable pub happen_all : List Event → WriteQueue → Option WriteQueue
unfolding happen
happen_all [] q = some q
happen_all (event ∷ events) q = if_given (happen event q) (happen_all events)
