-- ===== src/Clearance.antt =====
-- The loop that slides a box past the boxes that it collides with, in one coordinate. It is the
-- `while (true)` of `layoutRackGroups` (web/static/js/rack.js) and of `assignRoom` and `leaveRoom`
-- (web/static/js/rooms.js), over the test and the step that these fill in. Fuel stands for the
-- rounds; one more than the number of placed boxes is enough.
use wiredraft.Prelude.{
  ℕ, zero, suc, ◌+◌, ◌≤◌, ◌<◌, ◌≡◌, refl, ap, Bool, true, false, List, [], ◌∷◌, Option, none, some,
  length, filter, All, Bool-cases, inl, inr, arith, length-filter,
}
use wiredraft.Prelude.Int.{ℤ, ltb_ℤ, ◌≤ℤ◌, ◌<ℤ◌, max_ℤ}

-- `Math.max(x, ...edges)`
unfoldable pub max_of : ℤ → List ℤ → ℤ
max_of x [] = x
max_of x (e ∷ es) = max_of (max_ℤ x e) es

pub max_of-ge : (x : ℤ) (es : List ℤ) → x ≤ℤ max_of x es
unfolding max_of
max_of-ge x [] = omega arith
max_of-ge x (e ∷ es) = ground (arith, max_of-ge (max_ℤ x e) es)

pub max_of-All : (x : ℤ) (es : List ℤ) → All (λ e. e ≤ℤ max_of x es) es
unfolding max_of
max_of-All x [] = tt
max_of-All x (e ∷ es) = (ground (arith, max_of-ge (max_ℤ x e) es), max_of-All (max_ℤ x e) es)

module _ {A : Type 0} where
  All-filter :
      (P : A → Type 0) (p : A → Bool) (xs : List A)
      → All P (filter p xs)
      → All (λ a. p a ≡ true → P a) xs
  All-filter P p [] h = tt
  All-filter P p (x ∷ xs) h = elim (Bool-cases (p x)) [
    | inl here ↦
        let k : All P (x ∷ filter p xs) = rw here at h in ((λ _. k.0), All-filter P p xs k.1)
    | inr there ↦ ((λ e. absurd (ground arith)), All-filter P p xs (rw there at h))
  ]

  filter-eq-nil : (p : A → Bool) (xs : List A) → filter p xs ≡ [] → All (λ a. p a ≡ false) xs
  filter-eq-nil p [] h = tt
  filter-eq-nil p (x ∷ xs) h = (ground arith, filter-eq-nil p xs (ground arith))

  unfoldable pub slide : (ℤ → A → Bool) → (ℤ → List A → ℤ) → ℕ → List A → ℤ → Option ℤ
  slide collides advance zero placed x = none
  slide collides advance (suc fuel) placed x =
      let hits = filter (collides x) placed in
      let rest = slide collides advance fuel placed (advance x hits) in
      elim hits [ [] ↦ some x | _ ∷ _ ↦ rest ]

module _ {A : Type 0} (collides : ℤ → A → Bool) (advance : ℤ → List A → ℤ) (edge : A → ℤ)
    (blocked : (x : ℤ) (a : A) → collides x a ≡ true → x <ℤ edge a)
    (ahead : (x : ℤ) (hits : List A) → All (λ a. edge a ≤ℤ advance x hits) hits)
    (onward : (x : ℤ) (hits : List A) → x ≤ℤ advance x hits) where
  -- The boxes that still reach beyond `x`.
  pending : ℤ → List A → ℕ
  pending x placed = length (filter (λ a. ltb_ℤ x (edge a)) placed)

  pending-falls :
      (x y : ℤ) (placed : List A)
      → x ≤ℤ y
      → All (λ a. collides x a ≡ true → edge a ≤ℤ y) placed
      → pending y placed + length (filter (collides x) placed) ≤ pending x placed
  unfolding pending
  pending-falls x y [] h k = omega arith
  pending-falls x y (a ∷ placed) h k = elim (Bool-cases (collides x a)) [
    | inl hit ↦ ground (arith, pending-falls x y placed h k.1, blocked x a hit, k.0 hit)
    | inr miss ↦ ground (arith, pending-falls x y placed h k.1)
  ]

  abbrev pub Clear : List A → ℤ → Option ℤ → Type 0
  Clear placed x r = (y : ℤ) × (r ≡ some y) × (x ≤ℤ y) × All (λ a. collides y a ≡ false) placed

  slide-pending :
      (fuel : ℕ) (placed : List A) (x : ℤ)
      → pending x placed < fuel
      → Clear placed x (slide collides advance fuel placed x)
  unfolding slide
  slide-pending zero placed x h = absurd (omega arith)
  slide-pending (suc fuel) placed x h =
      on_hits (filter (collides x) placed) refl
        (slide-pending fuel placed (advance x (filter (collides x) placed)))
    where
      falls :
          pending (advance x (filter (collides x) placed)) placed
            + length (filter (collides x) placed)
          ≤ pending x placed
      falls = pending-falls x (advance x (filter (collides x) placed)) placed (onward x _) (
          All-filter (λ a. edge a ≤ℤ advance x (filter (collides x) placed)) (collides x) placed
            (ahead x (filter (collides x) placed)))

      on_hits :
          (hits : List A)
          → filter (collides x) placed ≡ hits
          → (pending (advance x (filter (collides x) placed)) placed < fuel
              → Clear placed
                  (advance x (filter (collides x) placed))
                  (slide collides advance fuel placed (advance x (filter (collides x) placed))))
          → Clear placed x (slide collides advance (suc fuel) placed x)
      on_hits [] e ih = (x, rw (e, slide), omega arith, filter-eq-nil (collides x) placed e)
      on_hits (a ∷ rest) e ih =
          let (y, found, later, clear) = ih (omega (arith, falls, ap length e)) in
          (y, ground (arith, e, found), omega (arith, onward x (filter (collides x) placed)), clear)

  -- With fuel above the number of placed boxes the loop ends, at or beyond its start, at a place
  -- that collides with no box.
  pub slide-Clear :
      (fuel : ℕ) (placed : List A) (x : ℤ)
      → length placed < fuel
      → Clear placed x (slide collides advance fuel placed x)
  unfolding pending
  slide-Clear fuel placed x h =
      slide-pending fuel placed x (omega (arith, length-filter (λ a. ltb_ℤ x (edge a)) placed))
