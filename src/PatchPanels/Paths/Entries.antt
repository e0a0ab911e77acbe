-- ===== src/PatchPanels/Paths/Entries.antt =====
-- The entries that a search writes to the index.
use wiredraft.Prelude.{
  String, Bool, true, false, List, [], ◌∷◌, Option, some, ◌≡◌, refl, sym, ap, subst, ◌∙◌, ◌==◌,
  string_eq, if◌then◌else◌, contains, length, ltb, Bool-cases, inl, inr, arith, str_iff, same_value,
}
use wiredraft.PatchPanels.Paths.{Walk, PathIndex, path_of, set_path, set_all}

same_test : (a b x : String) (t : Bool) → (a == b) ≡ true → (a == x) ≡ t → (b == x) ≡ t
same_test a b x t e f = subst (λ z. (z == x) ≡ t) ((str_iff a b).0 e) f

other_test : (a b x : String) → (a == b) ≡ false → (a == x) ≡ true → (b == x) ≡ false
other_test a b x e f = ground (arith, str_iff a b, str_iff a x, str_iff b x, e, f)

path_of-set_path :
    (id : String) (component : List String) (index : PathIndex) (x : String)
    → path_of (set_path id component index) x
      ≡ (if id == x then some component else path_of index x)
unfolding set_path
path_of-set_path id component [] x = refl
path_of-set_path id component ((key, old) ∷ index) x = elim (Bool-cases (key == id)) [
  | inl e ↦ elim (Bool-cases (key == x)) [
    | inl f ↦ rw e rw f rw (same_test key id x true e f) refl
    | inr f ↦ rw e rw f rw (same_test key id x false e f) refl
  ]
  | inr e ↦ elim (Bool-cases (key == x)) [
    | inl f ↦ rw e rw f rw (other_test key id x e f) refl
    | inr f ↦ rw e rw f (path_of-set_path id component index x)
  ]
]

tests_swap :
    (a b : Bool) (o p : Option (List String))
    → (if a then o else (if b then o else p)) ≡ (if (if b then true else a) then o else p)
tests_swap true true o p = refl
tests_swap true false o p = refl
tests_swap false true o p = refl
tests_swap false false o p = refl

path_of-set_all :
    (ids component : List String) (index : PathIndex) (x : String)
    → path_of (set_all ids component index) x
      ≡ (if contains ids x then some component else path_of index x)
unfolding set_all
path_of-set_all [] component index x = refl
path_of-set_all (id ∷ ids) component index x =
    path_of-set_all ids component (set_path id component index) x
    ∙ ap (λ o. if contains ids x then some component else o) (path_of-set_path id component index x)
    ∙ tests_swap (contains ids x) (id == x) (some component) (path_of index x)

-- The entries after a search: those of its component, if it has two cables or more, and the old
-- ones.
abbrev pub indexed_by : Walk → PathIndex → PathIndex
indexed_by walk index =
    if ltb (length walk.component) 2 then index else set_all walk.component walk.component index

pub path_of-indexed_by :
    (walk : Walk) (index : PathIndex) (x : String)
    → path_of (indexed_by walk index) x ≡ (
        if ltb (length walk.component) 2
        then path_of index x
        else if contains walk.component x
        then some walk.component
        else path_of index x)
path_of-indexed_by walk index x = elim (Bool-cases (ltb (length walk.component) 2)) [
  | inl e ↦ rw e refl
  | inr e ↦ rw e (path_of-set_all walk.component walk.component index x)
]

-- What holds for the component's entries and for the old ones holds for all.
pub indexed_by-entries :
    (Holds : String → List String → Type 0) (walk : Walk) (index : PathIndex)
    → ((x : String) → contains walk.component x ≡ true → Holds x walk.component)
    → ((x : String) (component : List String)
        → path_of index x ≡ some component
        → Holds x component)
    → (x : String) (component : List String) → path_of (indexed_by walk index) x ≡ some component
    → Holds x component
indexed_by-entries Holds walk index new old x component h =
    let entry = sym (path_of-indexed_by walk index x) ∙ h in
    elim (Bool-cases (ltb (length walk.component) 2)) [
      | inl e ↦ old x component (sym (rw e refl) ∙ entry)
      | inr e ↦ elim (Bool-cases (contains walk.component x)) [
        | inl f ↦ subst (Holds x) (same_value (sym (rw e rw f refl) ∙ entry)) (new x f)
        | inr f ↦ old x component (sym (rw e rw f refl) ∙ entry)
      ]
    ]

abbrev pub IsIndexed : PathIndex → String → Type 0
IsIndexed index x = (component : List String) × (path_of index x ≡ some component)

pub indexed_by-old :
    (walk : Walk) (index : PathIndex) (x : String)
    → IsIndexed index x
    → IsIndexed (indexed_by walk index) x
indexed_by-old walk index x (component, h) = elim (Bool-cases (ltb (length walk.component) 2)) [
  | inl e ↦ (component, path_of-indexed_by walk index x ∙ rw e h)
  | inr e ↦ elim (Bool-cases (contains walk.component x)) [
    | inl f ↦ (walk.component, path_of-indexed_by walk index x ∙ rw e rw f refl)
    | inr f ↦ (component, path_of-indexed_by walk index x ∙ rw e rw f h)
  ]
]

two_or_more :
    (component : List String) (x y : String)
    → contains component x ≡ true
    → contains component y ≡ true
    → (x == y) ≡ false
    → ltb (length component) 2 ≡ false
two_or_more [] x y h k apart = absurd (ground (arith, h))
two_or_more (z ∷ []) x y h k apart = ground (arith, str_iff z x, str_iff z y, str_iff x y)
two_or_more (z ∷ w ∷ component) x y h k apart = ground arith

-- A component with two cables has an entry for each.
pub indexed_by-new :
    (walk : Walk) (index : PathIndex) (x y : String)
    → contains walk.component x ≡ true
    → contains walk.component y ≡ true
    → (x == y) ≡ false
    → IsIndexed (indexed_by walk index) x
indexed_by-new walk index x y h k apart = (
  walk.component,
  path_of-indexed_by walk index x ∙ rw (two_or_more walk.component x y h k apart) rw h refl,
)
