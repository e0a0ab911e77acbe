-- ===== src/Prelude/Sorting.antt =====
-- Sets of numbers, sorted.
use Prim.Native.Nat.{ℕ, ◌≤◌, ◌<◌}
use mathlib.Core.Path.{◌≡◌, refl, sym, ap, ◌∙◌}
use mathlib.Core.Logic.{inl, inr}
use mathlib.Core.Bool.{Bool, true, false}
use mathlib.Core.List.{List, [], ◌∷◌, ◌++◌}
use native.Mathlib.Omega.{arith}
use wiredraft.Prelude.Tests.{nat_eq, leb, Bool-cases}
use wiredraft.Prelude.Lists.{contains, insert, sort, filter, unique, add_all, contains-append}
use wiredraft.Prelude.Sets.{IsDistinct}

-- Ascending without repetition, and all above the bound.
abbrev pub IsAbove : ℕ → List ℕ → Type 0
IsAbove n [] = Unit
IsAbove n (x ∷ xs) = (n < x) × IsAbove x xs

contains-insert : (x : ℕ) (xs : List ℕ) (a : ℕ) → contains (insert leb x xs) a ≡ contains (x ∷ xs) a
unfolding insert
contains-insert x [] a = refl
contains-insert x (y ∷ ys) a = ground (arith, contains-insert x ys a)

pub contains-sort : (xs : List ℕ) (a : ℕ) → contains (sort leb xs) a ≡ contains xs a
unfolding sort
contains-sort [] a = refl
contains-sort (x ∷ xs) a = ground (arith, contains-insert x (sort leb xs) a, contains-sort xs a)

insert-IsAbove :
    (n x : ℕ) (xs : List ℕ)
    → n < x
    → contains xs x ≡ false
    → IsAbove n xs
    → IsAbove n (insert leb x xs)
unfolding insert
insert-IsAbove n x [] h c k = (h, tt)
insert-IsAbove n x (y ∷ ys) h c k = elim (Bool-cases (leb x y)) [
  | inl e ↦ rw e (h, (ground (arith, c, e), k.1))
  | inr e ↦ rw e (k.0, insert-IsAbove y x ys (ground (arith, e)) (ground (arith, c)) k.1)
]

pub sort-IsAbove : (xs : List ℕ) → IsDistinct xs → contains xs 0 ≡ false → IsAbove 0 (sort leb xs)
unfolding sort
sort-IsAbove [] d z = tt
sort-IsAbove (x ∷ xs) d z =
    insert-IsAbove 0 x (sort leb xs) (ground (arith, z)) (contains-sort xs x ∙ d.0)
      (sort-IsAbove xs d.1 (ground (arith, z)))

pub sort_id : (n : ℕ) (xs : List ℕ) → IsAbove n xs → sort leb xs ≡ xs
unfolding sort insert
sort_id n [] h = refl
sort_id n (x ∷ []) h = refl
sort_id n (x ∷ y ∷ ys) h = rw (sort_id x (y ∷ ys) h.1) (ground (arith, h.1.0))

pub contains-IsAbove : (n : ℕ) (xs : List ℕ) (a : ℕ) → IsAbove n xs → a ≤ n → contains xs a ≡ false
contains-IsAbove n [] a h k = refl
contains-IsAbove n (x ∷ xs) a h k =
    ground (arith, contains-IsAbove x xs a h.1 (omega (arith, h.0)), h.0)

pub filter_id :
    (p : ℕ → Bool) (xs : List ℕ) → ((a : ℕ) → contains xs a ≡ true → p a ≡ true) → filter p xs ≡ xs
filter_id p [] h = refl
filter_id p (x ∷ xs) h =
    rw (h x (ground arith)) (ap (λ t. x ∷ t) (filter_id p xs (λ a k. h a (ground (arith, k)))))

append_assoc : (xs : List ℕ) (y : ℕ) (ys : List ℕ) → (xs ++ y ∷ []) ++ ys ≡ xs ++ (y ∷ ys)
append_assoc [] y ys = refl
append_assoc (x ∷ xs) y ys = ap (λ t. x ∷ t) (append_assoc xs y ys)

add_all-append :
    (n : ℕ) (s xs : List ℕ)
    → IsAbove n xs
    → ((a : ℕ) → n < a → contains s a ≡ false)
    → add_all s xs ≡ s ++ xs
add_all-append n s [] h k = sym (append_nil s)
  where
    append_nil : (l : List ℕ) → l ++ [] ≡ l
    append_nil [] = refl
    append_nil (x ∷ l) = ap (λ t. x ∷ t) (append_nil l)
add_all-append n s (x ∷ xs) h k = rw (k x h.0) (
    add_all-append x (s ++ x ∷ []) xs h.1
      (λ a l. ground (arith, contains-append s (x ∷ []) a, k a (omega (arith, h.0, l)), l))
    ∙ append_assoc s x xs)

-- The set of an ascending list is the list.
pub unique_id : (n : ℕ) (xs : List ℕ) → IsAbove n xs → unique xs ≡ xs
unique_id n xs h = add_all-append n [] xs h (λ a k. refl)
