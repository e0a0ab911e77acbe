-- ===== src/Prelude/Members.antt =====
-- Members of lists, and what holds of them.
use mathlib.Core.Path.{subst, ◌≡◌, refl, sym}
use mathlib.Core.Logic.{◌⊎◌, inl, inr}
use mathlib.Core.Bool.{Bool, false}
use mathlib.Core.List.{List, [], ◌∷◌, ◌++◌}
use mathlib.Core.Option.{some}
use wiredraft.Prelude.Tests.{if◌then◌else◌, Bool-cases}
use mathlib.Core.Bool.{◌&&◌}
use wiredraft.Prelude.Lists.{In, All, All-map, All-sort, find?, filter, sort}

All-at : {A : Type 0} (P : A → Type 0) (xs : List A) (a : A) → All P xs → In a xs → P a
All-at P [] a h here = absurd here
All-at P (x ∷ xs) a h (inl same) = subst P (sym same) h.0
All-at P (x ∷ xs) a h (inr later) = All-at P xs a h.1 later

All-In : {A : Type 0} (xs : List A) → All (λ x. In x xs) xs
All-In [] = tt
All-In (x ∷ xs) = (inl refl, All-map (λ y here. inr here) xs (All-In xs))

pub In-of_sort :
    {A : Type 0} (before : A → A → Bool) (a : A) (xs : List A) → In a (sort before xs) → In a xs
In-of_sort before a xs h =
    All-at (λ x. In x xs) (sort before xs) a (All-sort before (λ x. In x xs) xs (All-In xs)) h

pub find?-In : {A : Type 0} (f : A → Bool) (xs : List A) {a : A} → find? f xs ≡ some a → In a xs
find?-In f [] h = cc
find?-In f (x ∷ xs) {a} h = elim (Bool-cases (f x)) [
  | inl e ↦
      let found : some x ≡ some a = subst (λ b. (if b then some x else find? f xs) ≡ some a) e h in
      inl cc
  | inr e ↦ inr (find?-In f xs (subst (λ b. (if b then some x else find? f xs) ≡ some a) e h))
]

-- What holds of what two filters leave.
pub All-of_two :
    {A : Type 0} (P : A → Type 0) (f g : A → Bool) (xs : List A)
    → All P (filter g (filter f xs))
    → All (λ x. ((f x && g x) ≡ false) ⊎ P x) xs
All-of_two P f g [] h = tt
All-of_two P f g (x ∷ xs) h = elim (Bool-cases (f x)) [
  | inr e ↦ (
    inl (rw e refl),
    All-of_two P f g xs
        (subst (λ b. All P (filter g (if b then x ∷ filter f xs else filter f xs))) e h),
  )
  | inl e ↦ elim (Bool-cases (g x)) [
    | inr k ↦
        let rest = subst (λ b. All P (filter g (if b then x ∷ filter f xs else filter f xs))) e h in
        (
          inl (rw e k),
          All-of_two P f g xs (
              subst (λ b. All P (if b then x ∷ filter g (filter f xs) else filter g (filter f xs)))
                k rest),
        )
    | inl k ↦
        let rest = subst (λ b. All P (filter g (if b then x ∷ filter f xs else filter f xs))) e h in
        let both =
          subst (λ b. All P (if b then x ∷ filter g (filter f xs) else filter g (filter f xs))) k
            rest in
        (inr both.0, All-of_two P f g xs both.1)
  ]
]

pub All-of_append :
    {A : Type 0} (P : A → Type 0) (xs ys : List A) → All P (xs ++ ys) → All P xs × All P ys
All-of_append P [] ys h = (tt, h)
All-of_append P (x ∷ xs) ys h =
    let (first, rest) = All-of_append P xs ys h.1 in ((h.0, first), rest)
