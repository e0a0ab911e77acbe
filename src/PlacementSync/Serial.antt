-- ===== src/PlacementSync/Serial.antt =====
-- Saves go one at a time, in the order of their calls, past a failure too: `TopologyWriteQueue` of
-- web/static/js/placement-sync.js.
use wiredraft.Prelude.{
  ℕ, zero, suc, true, false, List, [], ◌∷◌, ◌++◌, none, some, ◌+◌, ◌≡◌, ◌⊎◌, refl, inl, inr, All,
  All-append, subst, sym, ◌∙◌, if_given, was_given, arith,
}
use wiredraft.PlacementSync.Queue.{
  Phase, waiting, active, settled, done, WriteQueue, new_queue, Turn, begins, settles, finishes,
  turn_of, turn_at, pending_after, run, take_turn, Event, calls, turns, happen, happen_all,
}

-- Up to one operation that is not finished, all are done; after it, all wait.
abbrev pub IsSerial : List Phase → Type 0
IsSerial [] = Unit {0}
IsSerial (waiting ∷ promises) = All (λ p. p ≡ waiting) promises
IsSerial (active ∷ promises) = All (λ p. p ≡ waiting) promises
IsSerial (settled success ∷ promises) = All (λ p. p ≡ waiting) promises
IsSerial (done success ∷ promises) = IsSerial promises

-- How many operations are not finished.
abbrev pub unfinished : List Phase → ℕ
unfinished [] = 0
unfinished (waiting ∷ promises) = suc (unfinished promises)
unfinished (active ∷ promises) = suc (unfinished promises)
unfinished (settled success ∷ promises) = suc (unfinished promises)
unfinished (done success ∷ promises) = unfinished promises

waiting-IsSerial : (promises : List Phase) → All (λ p. p ≡ waiting) promises → IsSerial promises
waiting-IsSerial [] h = tt
waiting-IsSerial (waiting ∷ promises) h = h.1
waiting-IsSerial (active ∷ promises) h = h.1
waiting-IsSerial (settled success ∷ promises) h = h.1
waiting-IsSerial (done success ∷ promises) h = absurd (cc (h.0))

turn_of-none : (turn : Turn) → turn_of turn false waiting ≡ none
unfolding turn_of
turn_of-none begins = refl
turn_of-none (settles success) = refl
turn_of-none finishes = refl

-- Nothing can happen behind an operation that is not finished.
turn_at-none :
    (turn : Turn) (place : ℕ) (promises : List Phase)
    → All (λ p. p ≡ waiting) promises
    → turn_at turn place false promises ≡ none
unfolding turn_at
turn_at-none turn place [] h = refl
turn_at-none turn zero (p ∷ promises) h = rw (h.0, turn_of-none turn) refl
turn_at-none turn (suc place) (p ∷ promises) h =
    rw h.0 (rw (turn_at-none turn place promises h.1) refl)

-- After a turn the order is as it was, with the one promise advanced.
pub record IsKept (turn : Turn) (before after : List Phase) : Type 0 where
  pub serial : IsSerial after
  pub counted : unfinished after ≡ pending_after turn (unfinished before)

turn_of-IsKept :
    (turn : Turn) (p : Phase) (promises : List Phase) {next : Phase}
    → IsSerial (p ∷ promises)
    → turn_of turn true p ≡ some next
    → IsKept turn (p ∷ promises) (next ∷ promises)
unfolding turn_of
turn_of-IsKept begins waiting promises {next} v h =
    let same : active ≡ next = cc in
    subst (λ n. IsKept begins (waiting ∷ promises) (n ∷ promises)) same
      (record { serial = v; counted = refl })
turn_of-IsKept begins active promises v h = absurd (cc)
turn_of-IsKept begins (settled success) promises v h = absurd (cc)
turn_of-IsKept begins (done success) promises v h = absurd (cc)
turn_of-IsKept (settles success) waiting promises v h = absurd (cc)
turn_of-IsKept (settles success) active promises {next} v h =
    let same : settled success ≡ next = cc in
    subst (λ n. IsKept (settles success) (active ∷ promises) (n ∷ promises)) same
      (record { serial = v; counted = refl })
turn_of-IsKept (settles success) (settled other) promises v h = absurd (cc)
turn_of-IsKept (settles success) (done other) promises v h = absurd (cc)
turn_of-IsKept finishes waiting promises v h = absurd (cc)
turn_of-IsKept finishes active promises v h = absurd (cc)
turn_of-IsKept finishes (settled success) promises {next} v h =
    let same : done success ≡ next = cc in
    subst (λ n. IsKept finishes (settled success ∷ promises) (n ∷ promises)) same
      (record { serial = waiting-IsSerial promises v; counted = omega arith })
turn_of-IsKept finishes (done success) promises v h = absurd (cc)

-- No turn is possible behind `p`.
behind-IsKept :
    (turn : Turn) (place : ℕ) (p : Phase) (promises : List Phase) {after : List Phase}
    → All (λ p. p ≡ waiting) promises
    → if_given (turn_at turn place false promises) (λ next. some (p ∷ next)) ≡ some after
    → IsKept turn (p ∷ promises) after
behind-IsKept turn place p promises v h =
    let stuck = turn_at-none turn place promises v in absurd (ground arith)

turn_at-IsKept :
    (turn : Turn) (place : ℕ) (promises : List Phase) {after : List Phase}
    → IsSerial promises
    → turn_at turn place true promises ≡ some after
    → IsKept turn promises after
unfolding turn_at
turn_at-IsKept turn place [] v h = absurd (cc)
turn_at-IsKept turn zero (p ∷ promises) {after} v h =
    let (next, advanced, same) = was_given (turn_of turn true p) _ h in
    let whole : next ∷ promises ≡ after = cc in
    subst (IsKept turn (p ∷ promises)) whole (turn_of-IsKept turn p promises v advanced)
turn_at-IsKept turn (suc place) (waiting ∷ promises) v h =
    behind-IsKept turn place waiting promises v h
turn_at-IsKept turn (suc place) (active ∷ promises) v h =
    behind-IsKept turn place active promises v h
turn_at-IsKept turn (suc place) (settled success ∷ promises) v h =
    behind-IsKept turn place (settled success) promises v h
turn_at-IsKept turn (suc place) (done success ∷ promises) {after} v h =
    let (next, turned, same) = was_given (turn_at turn place true promises) _ h in
    let whole : done success ∷ next ≡ after = cc in
    let kept = turn_at-IsKept turn place promises v turned in
    subst (IsKept turn (done success ∷ promises)) whole
      (record { serial = kept.serial; counted = kept.counted })

unfinished-call :
    (promises : List Phase) → unfinished (promises ++ waiting ∷ []) ≡ unfinished promises + 1
unfinished-call [] = refl
unfinished-call (waiting ∷ promises) = omega (arith, unfinished-call promises)
unfinished-call (active ∷ promises) = omega (arith, unfinished-call promises)
unfinished-call (settled success ∷ promises) = omega (arith, unfinished-call promises)
unfinished-call (done success ∷ promises) = unfinished-call promises

call-IsSerial : (promises : List Phase) → IsSerial promises → IsSerial (promises ++ waiting ∷ [])
call-IsSerial [] v = tt
call-IsSerial (waiting ∷ promises) v = All-append (λ p. p ≡ waiting) promises waiting v refl
call-IsSerial (active ∷ promises) v = All-append (λ p. p ≡ waiting) promises waiting v refl
call-IsSerial (settled success ∷ promises) v = All-append (λ p. p ≡ waiting) promises waiting v refl
call-IsSerial (done success ∷ promises) v = call-IsSerial promises v

-- Some operation can go on, unless all are finished.
can_go :
    (promises : List Phase)
    → IsSerial promises
    → (unfinished promises ≡ 0)
      ⊎ ((turn : Turn) × (place : ℕ) × (next : List Phase) × (turn_at turn place true promises
            ≡ some next))
unfolding turn_at
can_go [] v = inl refl
can_go (waiting ∷ promises) v = inr (begins, 0, active ∷ promises, refl)
can_go (active ∷ promises) v = inr (settles true, 0, settled true ∷ promises, refl)
can_go (settled success ∷ promises) v = inr (finishes, 0, done success ∷ promises, refl)
can_go (done success ∷ promises) v = elim (can_go promises v) [
  | inl none_left ↦ inl none_left
  | inr (turn, place, next, turned) ↦ inr (turn, suc place, done success ∷ next, rw turned refl)
]

abbrev pub IsQueue : WriteQueue → Type 0
IsQueue q = IsSerial q.promises × (q.pending ≡ unfinished q.promises)

happen-IsQueue :
    (event : Event) (q : WriteQueue) {q' : WriteQueue}
    → IsQueue q
    → happen event q ≡ some q'
    → IsQueue q'
unfolding happen run take_turn
happen-IsQueue calls q {q'} v h =
    let same : run q ≡ q' = cc in
    subst IsQueue same
      (call-IsSerial q.promises v.0, omega (arith, v.1, unfinished-call q.promises))
happen-IsQueue (turns turn place) q {q'} v h =
    let (promises, turned, returned) = was_given (turn_at turn place true q.promises) _ h in
    let same : record { promises = promises; pending = pending_after turn q.pending } ≡ q' = cc in
    let kept = turn_at-IsKept turn place q.promises v.0 turned in
    subst IsQueue same (kept.serial, rw v.1 (sym kept.counted))

reached :
    (events : List Event) (q : WriteQueue) {q' : WriteQueue}
    → IsQueue q
    → happen_all events q ≡ some q'
    → IsQueue q'
unfolding happen_all
reached [] q {q'} v h = let same : q ≡ q' = cc in subst IsQueue same v
reached (event ∷ events) q v h =
    let (next, happened, rest) = was_given (happen event q) (happen_all events) h in
    reached events next (happen-IsQueue event q v happened) rest

-- Whatever calls of `run` and turns of the event loop there were, saves go one at a time and in the
-- order of their calls: before an operation that has begun, all are finished, and all after one
-- that is not finished still wait. The number of pending writes is the number of operations that
-- are not finished, and unless it is 0 some operation can go on, also after another has failed.
pub happen_all-IsQueue :
    (events : List Event) {q : WriteQueue}
    → happen_all events new_queue ≡ some q
    → IsSerial q.promises
      × (q.pending ≡ unfinished q.promises)
      × ((q.pending ≡ 0)
          ⊎ ((turn : Turn) × (place : ℕ) × (next : WriteQueue) × (take_turn turn place q
                ≡ some next)))
unfolding take_turn
happen_all-IsQueue events {q} h =
    let v = reached events new_queue (tt, refl) h in
    (
      v.0,
      v.1,
      elim (can_go q.promises v.0) [
        | inl finished ↦ inl (v.1 ∙ finished)
        | inr (turn, place, next, turned) ↦ inr (
          turn,
          place,
          record { promises = next; pending = pending_after turn q.pending },
          rw turned refl,
        )
      ],
    )
