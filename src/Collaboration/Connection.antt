-- ===== src/Collaboration/Connection.antt =====
-- The states of the connection: an open event source, or a pending retry.
use wiredraft.Prelude.{
  ℕ, String, false, ◌||◌, not, List, [], ◌∷◌, Option, none, some, ◌+◌, ◌≤◌, ◌≡◌, refl, ◌⊎◌, inl,
  inr, leb, ◌==◌, string_eq, nat_eq, Bool-cases, arith, is_empty,
}
use wiredraft.Collaboration.{
  Update, Collaboration, maximum_retry, is_current, open_source, opened, failed, fired, fire_at,
  accept_revision, accept_update, receive, heard, close, connect, Event, opens, fails, fires, hears,
  happen, happen_all,
}

abbrev pub IsOnline : Collaboration → Type 0
IsOnline s = (s.timer ≡ none) × ((n : ℕ) × (s.source ≡ some n) × (s.made ≡ n + 1))

abbrev pub IsWaiting : Collaboration → Type 0
IsWaiting s = (s.source ≡ none) × ((d : ℕ) × (s.timer ≡ some d) × (1000 ≤ d) × (d ≤ maximum_retry))

-- A client that `connect` gave a map, and that is not closed since.
pub record IsConnected (s : Collaboration) : Type 0 where
  pub running : s.stopped ≡ false
  pub named : is_empty s.topology_id ≡ false
  pub least : 1000 ≤ s.retry
  pub most : s.retry ≤ maximum_retry
  pub state : IsOnline s ⊎ IsWaiting s

accept_update-keeps :
    (t : Update) (type : String) (o : Option ℕ) (s : Collaboration)
    → IsConnected s
    → IsConnected (accept_update t type o s).0
unfolding accept_update accept_revision
accept_update-keeps t type none s h = h
accept_update-keeps t type (some r) s h = elim (Bool-cases (t.id == s.topology_id)) [
  | inl same ↦ elim (Bool-cases (leb r s.revision)) [
    | inl old ↦ rw (same, old) h
    | inr new ↦
        rw (same, new)
          (record {
            running = h.running;
            named = h.named;
            least = h.least;
            most = h.most;
            state = h.state;
          })
  ]
  | inr other ↦ rw other h
]

receive-keeps :
    (d : Option Update) (type : String) (s : Collaboration)
    → IsConnected s
    → IsConnected (receive d type s).0
unfolding receive
receive-keeps none type s h = h
receive-keeps (some t) type s h = accept_update-keeps t type t.revision s h

fire_at-IsConnected : (o : Option ℕ) (s : Collaboration) → IsConnected s → IsConnected (fire_at o s)
unfolding fire_at open_source
fire_at-IsConnected none s h = h
fire_at-IsConnected (some d) s h =
    rw (h.running, h.named)
      (record {
        running = refl;
        named = h.named;
        least = h.least;
        most = h.most;
        state = inl (refl, (s.made, refl, refl));
      })

happen-IsConnected : (e : Event) (s : Collaboration) → IsConnected s → IsConnected (happen e s)
unfolding happen opened failed fired heard open_source
happen-IsConnected (opens n) s h = elim (Bool-cases (s.stopped || not (is_current s.source n))) [
  | inr e ↦ rw e (record {
    running = h.running;
    named = h.named;
    least = omega arith;
    most = omega arith;
    state = h.state;
  })
  | inl e ↦ rw e h
]
happen-IsConnected (fails n) s h = elim (Bool-cases (s.stopped || not (is_current s.source n))) [
  | inr e ↦ rw e (record {
    running = h.running;
    named = h.named;
    least = ground (arith, h.least);
    most = ground arith;
    state = inr (refl, (s.retry, refl, h.least, h.most));
  })
  | inl e ↦ rw e h
]
happen-IsConnected fires s h = fire_at-IsConnected s.timer s h
happen-IsConnected (hears n d type) s h = elim (Bool-cases (is_current s.source n)) [
  | inl e ↦ rw e (receive-keeps d type s h)
  | inr e ↦ rw e h
]

happen_all-keeps :
    (es : List Event) (s : Collaboration) → IsConnected s → IsConnected (happen_all es s)
unfolding happen_all
happen_all-keeps [] s h = h
happen_all-keeps (e ∷ es) s h = happen_all-keeps es (happen e s) (happen-IsConnected e s h)

connect-IsConnected :
    (t : Update) (s : Collaboration) → is_empty t.id ≡ false → IsConnected (connect (some t) s)
unfolding connect close open_source
connect-IsConnected t s h = rw h (record {
  running = refl;
  named = h;
  least = omega arith;
  most = omega arith;
  state = inl (refl, (s.made, refl, refl));
})

-- After `connect` with a map that has an id, whatever events follow, the client either has its
-- latest event source and no timer, or no source and a pending retry of 1 to 30 seconds; it is
-- never without both. `close` leaves neither, and forgets the map.
pub connect-IsConnected_after :
    (t : Update) (s : Collaboration) (es : List Event)
    → is_empty t.id ≡ false
    → IsConnected (happen_all es (connect (some t) s))
      × ((close (happen_all es (connect (some t) s))).source ≡ none)
      × ((close (happen_all es (connect (some t) s))).timer ≡ none)
      × ((close (happen_all es (connect (some t) s))).topology_id ≡ "")
unfolding close
connect-IsConnected_after t s es h =
    (happen_all-keeps es (connect (some t) s) (connect-IsConnected t s h), refl, refl, refl)
