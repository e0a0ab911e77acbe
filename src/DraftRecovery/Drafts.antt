-- ===== src/DraftRecovery/Drafts.antt =====
-- How long a captured draft is kept.
use wiredraft.Prelude.{
  ℕ, String, Bool, true, false, ◌||◌, not, List, [], ◌∷◌, none, some, ◌≡◌, refl, ap, subst, ◌==◌,
  string_eq, Bool-cases, inl, inr, ◌⊎◌, arith, filter, str_iff, is_empty,
}
use wiredraft.Topology.{Topology}
use wiredraft.Document.{same_document}
use wiredraft.DraftRecovery.{
  Entry, DraftRecovery, is_pending_of, persist, acknowledge, capture_in, capture, accept_in, accept,
  Call, captures, accepts, acknowledges, discards_pending, discards, step, run,
}

-- Some entry has the draft.
abbrev pub IsKept : Topology → List Entry → Type 0
IsKept t [] = ⊥
IsKept t (e ∷ es) = (e.topology ≡ t) ⊎ IsKept t es

-- The call says that the draft, or a document equal to it, is saved.
abbrev pub Saves : Topology → Call → Type 0
Saves t (acknowledges submitted) = same_document t submitted ≡ true
Saves t (accepts (some topology)) = same_document t topology ≡ true
Saves t _ = ⊥

-- The call is no discard and no capture of the same map.
abbrev pub Spares : Topology → Call → Type 0
Spares t (captures id now (some topology)) = (topology.id == t.id) ≡ false
Spares t (captures id now none) = Unit
Spares t (accepts topology) = Unit
Spares t (acknowledges submitted) = Unit
Spares t _ = ⊥

abbrev pub SomeSaves : Topology → List Call → Type 0
SomeSaves t [] = ⊥
SomeSaves t (c ∷ cs) = Saves t c ⊎ SomeSaves t cs

abbrev pub AllSpare : Topology → List Call → Type 0
AllSpare t [] = Unit
AllSpare t (c ∷ cs) = Spares t c × AllSpare t cs

capture_in-IsKept :
    (id : String) (now : ℕ) (new : Topology) (es : List Entry)
    → IsKept new (capture_in id now new es)
unfolding capture_in
capture_in-IsKept id now new [] = inl refl
capture_in-IsKept id now new (e ∷ es) = elim (Bool-cases (is_pending_of new.id e)) [
  | inl p ↦ rw p (inl refl)
  | inr p ↦ rw p (inr (capture_in-IsKept id now new es))
]

capture_in-others :
    (id : String) (now : ℕ) (new t : Topology) (es : List Entry)
    → (new.id == t.id) ≡ false
    → IsKept t es
    → IsKept t (capture_in id now new es)
unfolding capture_in is_pending_of
capture_in-others id now new t [] d k = elim k [ ]
capture_in-others id now new t (e ∷ es) d k = elim (Bool-cases (is_pending_of new.id e)) [
  | inl p ↦ rw p (elim k [
    | inl same ↦ absurd (
        ground (
          arith,
          p,
          d,
          ap (λ (x : Topology). x.id) same,
          str_iff e.topology.id new.id,
          str_iff new.id t.id,
        ))
    | inr later ↦ inr later
  ])
  | inr p ↦
      rw p (elim k [
        | inl same ↦ inl same
        | inr later ↦ inr (capture_in-others id now new t es d later)
      ])
]

filter-IsKept :
    (p : Entry → Bool) (t : Topology) (es : List Entry)
    → IsKept t es
    → IsKept t (filter p es) ⊎ ((e : Entry) × (e.topology ≡ t) × (p e ≡ false))
filter-IsKept p t [] k = elim k [ ]
filter-IsKept p t (e ∷ es) k = elim (Bool-cases (p e)) [
  | inl stays ↦ rw stays (elim k [
    | inl same ↦ inl (inl same)
    | inr later ↦ elim (filter-IsKept p t es later) [ inl x ↦ inl (inr x) | inr x ↦ inr x ]
  ])
  | inr gone ↦ elim k [
    | inl same ↦ inr (e, same, gone)
    | inr later ↦ rw gone (filter-IsKept p t es later)
  ]
]

accept_in-IsKept :
    (t new : Topology) (es : List Entry)
    → IsKept t es
    → IsKept t (accept_in new es) ⊎ (same_document t new ≡ true)
unfolding accept_in
accept_in-IsKept t new [] k = elim k [ ]
accept_in-IsKept t new (e ∷ es) k = elim (Bool-cases (is_pending_of new.id e)) [
  | inr stays ↦ rw stays (elim k [
    | inl same ↦ inl (inl same)
    | inr later ↦ elim (accept_in-IsKept t new es later) [ inl x ↦ inl (inr x) | inr x ↦ inr x ]
  ])
  | inl p ↦ elim (Bool-cases (same_document e.topology new)) [
    | inl gone ↦ elim k [
      | inl same ↦ inr (subst (λ x. same_document x new ≡ true) same gone)
      | inr later ↦ rw (p, gone) (accept_in-IsKept t new es later)
    ]
    | inr displaced ↦
        rw (p, displaced)
          (elim k [
            | inl same ↦ inl (inl same)
            | inr later ↦ elim (accept_in-IsKept t new es later) [
              | inl x ↦ inl (inr x)
              | inr x ↦ inr x
            ]
          ])
  ]
]

step-IsKept :
    (c : Call) (t : Topology) (s : DraftRecovery)
    → Spares t c
    → IsKept t s.entries
    → IsKept t (step c s).entries ⊎ Saves t c
unfolding step capture accept acknowledge persist
step-IsKept (captures id now none) t s d k = inl k
step-IsKept (captures id now (some new)) t s d k = elim (Bool-cases (is_empty new.id)) [
  | inl e ↦ rw e (inl k)
  | inr e ↦ rw e (inl (capture_in-others id now new t s.entries d k))
]
step-IsKept (accepts none) t s d k = inl k
step-IsKept (accepts (some new)) t s d k = accept_in-IsKept t new s.entries k
step-IsKept (acknowledges new) t s d k =
    elim (filter-IsKept (λ (e : Entry). not e.pending || not (same_document e.topology new)) t
      s.entries k) [
        | inl kept ↦ inl kept
        | inr (e, same, gone) ↦
            inr (subst (λ x. same_document x new ≡ true) same (ground (arith, gone)))
      ]
step-IsKept (discards_pending map_id) t s d k = elim d [ ]
step-IsKept (discards id) t s d k = elim d [ ]

run-IsKept :
    (cs : List Call) (t : Topology) (s : DraftRecovery)
    → AllSpare t cs
    → IsKept t s.entries
    → IsKept t (run cs s).entries ⊎ SomeSaves t cs
unfolding run
run-IsKept [] t s d k = inl k
run-IsKept (c ∷ cs) t s d k = elim (step-IsKept c t s d.0 k) [
  | inl kept ↦ elim (run-IsKept cs t (step c s) d.1 kept) [ inl x ↦ inl x | inr x ↦ inr (inr x) ]
  | inr saves ↦ inr (inl saves)
]

-- A captured draft of a map with an id stays among the entries, pending or as a recovery, through
-- whatever calls follow, unless one of them accepts or acknowledges a document equal to it; except
-- for discards and for captures of the same map, which replace it.
pub run-capture :
    (id : String) (now : ℕ) (t : Topology) (cs : List Call) (s : DraftRecovery)
    → is_empty t.id ≡ false
    → AllSpare t cs
    → IsKept t (run cs (capture id now (some t) s)).entries ⊎ SomeSaves t cs
unfolding capture persist
run-capture id now t cs s h d =
    run-IsKept cs t (capture id now (some t) s) d (rw h (capture_in-IsKept id now t s.entries))
