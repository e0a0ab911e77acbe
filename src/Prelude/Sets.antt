-- ===== src/Prelude/Sets.antt =====
-- A `Set` as the list of its values without repetition, in insertion order.
use Prim.Native.Nat.{suc, ◌≤◌, ◌+◌}
use mathlib.Core.Path.{◌≡◌, refl, subst}
use mathlib.Core.Logic.{inl, inr}
use mathlib.Core.Bool.{Bool, true, false, ◌&&◌, ◌||◌}
use mathlib.Core.List.{List, [], ◌∷◌, ◌++◌}
use native.Mathlib.Omega.{arith}
use wiredraft.Prelude.Tests.{Eq, ◌==◌, string_eq, nat_eq, Bool-cases, if◌then◌else◌}
use wiredraft.Prelude.Lists.{
  length, contains, add, add_all, unique, filter, contains-append, length-append,
}

module _ {A : Type 0} ⦃e : Eq A⦄ where
  abbrev pub IsDistinct : List A → Type 0
  IsDistinct [] = Unit
  IsDistinct (x ∷ xs) = (contains xs x ≡ false) × IsDistinct xs

  IsDistinct-snoc :
      (xs : List A) (a : A) → IsDistinct xs → contains xs a ≡ false → IsDistinct (xs ++ a ∷ [])
  IsDistinct-snoc [] a d h = (refl, tt)
  IsDistinct-snoc (x ∷ xs) a d h = (
    ground (arith, contains-append xs (a ∷ []) x, d.0, h, e.same_iff a x, e.same_iff x a),
    IsDistinct-snoc xs a d.1 (ground arith),
  )

  pub add-IsDistinct : (xs : List A) (a : A) → IsDistinct xs → IsDistinct (add xs a)
  add-IsDistinct xs a d = elim (Bool-cases (contains xs a)) [
    | inl p ↦ rw p d
    | inr p ↦ rw p (IsDistinct-snoc xs a d p)
  ]

  pub add_all-IsDistinct : (s xs : List A) → IsDistinct s → IsDistinct (add_all s xs)
  add_all-IsDistinct s [] d = d
  add_all-IsDistinct s (x ∷ xs) d = add_all-IsDistinct (add s x) xs (add-IsDistinct s x d)

  pub unique-IsDistinct : (xs : List A) → IsDistinct (unique xs)
  unique-IsDistinct xs = add_all-IsDistinct [] xs tt

  pub contains-add : (s : List A) (x a : A) → contains (add s x) a ≡ (contains s a || x == a)
  contains-add s x a = elim (Bool-cases (contains s x)) [
    | inl p ↦ ground (arith, e.same_iff x a, p)
    | inr p ↦ rw p (ground (arith, contains-append s (x ∷ []) a))
  ]

  pub contains-add_all :
      (s xs : List A) (a : A) → contains (add_all s xs) a ≡ (contains s a || contains xs a)
  contains-add_all s [] a = ground arith
  contains-add_all s (x ∷ xs) a =
      ground (arith, contains-add_all (add s x) xs a, contains-add s x a)

  pub contains-unique : (xs : List A) (a : A) → contains (unique xs) a ≡ contains xs a
  contains-unique xs a = contains-add_all [] xs a

  pub length-add : (s : List A) (x : A) → length s ≤ length (add s x)
  length-add s x = ground (arith, length-append s (x ∷ []))

  pub length-add_all : (s xs : List A) → length (add_all s xs) ≤ length s + length xs
  length-add_all s [] = omega arith
  length-add_all s (x ∷ xs) = ground (arith, length-add_all (add s x) xs, length-append s (x ∷ []))

  -- A set within a list has at most as many values.
  without : A → List A → List A
  without a [] = []
  without a (x ∷ xs) = let rest = without a xs in if x == a then xs else x ∷ rest

  length-without :
      (a : A) (xs : List A) → contains xs a ≡ true → suc (length (without a xs)) ≡ length xs
  unfolding without
  length-without a [] h = absurd (ground (arith, h))
  length-without a (x ∷ xs) h = elim (Bool-cases (x == a)) [
    | inl p ↦ rw p refl
    | inr p ↦ rw p (omega (arith, length-without a xs (ground (arith, h, p))))
  ]

  contains-without :
      (a : A) (xs : List A) (b : A)
      → (a == b) ≡ false
      → contains xs b ≡ true
      → contains (without a xs) b ≡ true
  unfolding without
  contains-without a [] b d h = h
  contains-without a (x ∷ xs) b d h =
      ground
        (arith, contains-without a xs b d, h, d, e.same_iff x a, e.same_iff x b, e.same_iff a b)

  contains-apart :
      (xs : List A) (x b : A) → contains xs x ≡ false → contains xs b ≡ true → (x == b) ≡ false
  contains-apart xs x b h k = elim (Bool-cases (x == b)) [
    | inl p ↦ absurd (ground (arith, h, k, p, e.same_iff x b))
    | inr p ↦ p
  ]

  pub length-IsDistinct :
      (xs ys : List A)
      → IsDistinct xs
      → ((a : A) → contains xs a ≡ true → contains ys a ≡ true)
      → length xs ≤ length ys
  length-IsDistinct [] ys d h = omega arith
  length-IsDistinct (x ∷ xs) ys d h = omega (
    arith,
    length-without x ys (h x (ground (arith, e.same_iff x x))),
    length-IsDistinct xs (without x ys) d.1
        (λ a k. contains-without x ys a (contains-apart xs x a d.0 k) (h a (ground (arith, k)))),
  )

  pub contains-filter :
      (p : A → Bool) (xs : List A) (a : A) → contains (filter p xs) a ≡ (contains xs a && p a)
  contains-filter p [] a = refl
  contains-filter p (x ∷ xs) a = elim (Bool-cases (x == a)) [
    | inl h ↦
        subst (λ z. contains (filter p (x ∷ xs)) z ≡ (contains (x ∷ xs) z && p z))
          ((e.same_iff x a).0 h) (ground (arith, contains-filter p xs x, e.same_iff x x))
    | inr h ↦ ground (arith, contains-filter p xs a, h)
  ]
