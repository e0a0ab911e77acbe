-- ===== src/PatchPanels/Paths/Walks.antt =====
-- What a search has found, and what it has still to visit.
use wiredraft.Prelude.{
  ℕ, zero, suc, String, Bool, true, false, ◌||◌, List, [], ◌∷◌, none, some, ◌≡◌, refl, sym, ap,
  subst, ◌∙◌, ◌==◌, string_eq, if◌then◌else◌, contains, add, Bool-cases, List-cases, inl, inr, ◌⊎◌,
  arith, str_iff, contains-add, same_value,
}
use wiredraft.PatchPanels.Paths.{neighbours, push_all, Walk, visit, search}

pub contains-push_all :
    (ids pending : List String) (y : String)
    → contains (push_all ids pending) y ≡ (contains ids y || contains pending y)
unfolding push_all
contains-push_all [] pending y = refl
contains-push_all (id ∷ ids) pending y = ground (arith, contains-push_all ids (id ∷ pending) y)

-- The cable `y` is next to `x`.
abbrev pub meets : List (String × String) → String → String → Bool
meets edges x y = contains (neighbours edges x) y

-- A walk since the cables `before` were visited: what it found is new, and what meets it is found,
-- still to visit, or visited before.
pub record IsWalk (edges : List (String × String)) (before : List String) (s : Walk) : Type 0 where
  pub split : (x : String) → contains s.visited x ≡ (contains before x || contains s.component x)
  pub apart : (x : String) → contains s.component x ≡ true → contains before x ≡ false
  pub closed :
      (x y : String)
      → contains s.component x ≡ true
      → meets edges x y ≡ true
      → (contains s.component y || contains s.pending y || contains before y) ≡ true

skipped-IsWalk :
    (edges : List (String × String)) (before : List String) (id : String) (rest : List String)
    (s : Walk)
    → s.pending ≡ id ∷ rest
    → contains s.visited id ≡ true
    → IsWalk edges before s
    → IsWalk edges before (record s { pending = rest })
skipped-IsWalk edges before id rest s p v w = record {
  split = w.split;
  apart = w.apart;
  closed = λ x y h k. elim (Bool-cases (id == y)) [
    | inl e ↦
        let here : (contains before y || contains s.component y) ≡ true =
          sym (w.split y) ∙ subst (λ z. contains s.visited z ≡ true) ((str_iff id y).0 e) v in
        ground (arith, here)
    | inr e ↦
        let old : (contains s.component y || contains (id ∷ rest) y || contains before y) ≡ true =
          subst
            (λ pending. (contains s.component y || contains pending y || contains before y) ≡ true)
            p (w.closed x y h k) in
        ground (arith, old, e)
  ];
}

pub in_add :
    (s : List String) (id x : String)
    → contains (add s id) x ≡ true
    → (contains s x ≡ true) ⊎ (id ≡ x)
in_add s id x h = elim (Bool-cases (id == x)) [
  | inl e ↦ inr ((str_iff id x).0 e)
  | inr e ↦ inl (ground (arith, contains-add s id x, h, e))
]

first_part : (a b : Bool) → (a || b) ≡ false → a ≡ false
first_part a b h = ground arith

grown :
    (c i n r b : Bool)
    → (c || (if i then true else r) || b) ≡ true
    → ((c || i) || (n || r) || b) ≡ true
grown c i n r b h = ground arith

pushed : (c i n r b : Bool) → n ≡ true → ((c || i) || (n || r) || b) ≡ true
pushed c i n r b h = ground arith

new-IsWalk :
    (edges : List (String × String)) (before : List String) (id : String) (rest : List String)
    (s : Walk)
    → s.pending ≡ id ∷ rest
    → contains s.visited id ≡ false
    → IsWalk edges before s
    → IsWalk edges before (record {
      visited = add s.visited id;
      component = add s.component id;
      pending = push_all (neighbours edges id) rest;
    })
new-IsWalk edges before id rest s p v w = record {
  split = λ x.
      contains-add s.visited id x
      ∙ ap (λ b. b || id == x) (w.split x)
      ∙ or_assoc (contains before x) (contains s.component x) (id == x)
      ∙ ap (λ b. contains before x || b) (sym (contains-add s.component id x));
  apart = λ x h. elim (in_add s.component id x h) [
    | inl c ↦ w.apart x c
    | inr e ↦ subst (λ z. contains before z ≡ false) e (first_part _ _ (sym (w.split id) ∙ v))
  ];
  closed = λ x y h k.
      rw (contains-add s.component id y) rw (contains-push_all (neighbours edges id) rest y)
        (elim (in_add s.component id x h) [
          | inl c ↦
              grown (contains s.component y) (id == y) (meets edges id y) (contains rest y)
                (contains before y)
                (subst
                  (λ pending.
                    (contains s.component y || contains pending y || contains before y) ≡ true)
                  p (w.closed x y c k))
          | inr e ↦
              pushed (contains s.component y) (id == y) (meets edges id y) (contains rest y)
                (contains before y) (subst (λ z. meets edges z y ≡ true) (sym e) k)
        ]);
}
  where
    or_assoc : (a b c : Bool) → ((a || b) || c) ≡ (a || (b || c))
    or_assoc a b c = ground arith

pub visit-new :
    (edges : List (String × String)) (id : String) (rest : List String) (s : Walk)
    → contains s.visited id ≡ false
    → visit edges id rest s ≡ record {
      visited = add s.visited id;
      component = add s.component id;
      pending = push_all (neighbours edges id) rest;
    }
unfolding visit
visit-new edges id rest s e = rw (e, visit) refl

pub visit-old :
    (edges : List (String × String)) (id : String) (rest : List String) (s : Walk)
    → contains s.visited id ≡ true
    → visit edges id rest s ≡ record s { pending = rest }
unfolding visit
visit-old edges id rest s e = rw (e, visit) refl

visit-IsWalk :
    (edges : List (String × String)) (before : List String) (id : String) (rest : List String)
    (s : Walk)
    → s.pending ≡ id ∷ rest
    → IsWalk edges before s
    → IsWalk edges before (visit edges id rest s)
unfolding visit
visit-IsWalk edges before id rest s p w = elim (Bool-cases (contains s.visited id)) [
  | inl e ↦ rw (e, visit) (skipped-IsWalk edges before id rest s p e w)
  | inr e ↦
      subst (IsWalk edges before) (sym (visit-new edges id rest s e))
        (new-IsWalk edges before id rest s p e w)
]

pub search-nil :
    (edges : List (String × String)) (fuel : ℕ) (s : Walk)
    → s.pending ≡ []
    → search edges fuel s ≡ some s
unfolding search
search-nil edges zero s p = rw p refl
search-nil edges (suc fuel) s p = rw p refl

pub search-cons :
    (edges : List (String × String)) (fuel : ℕ) (s : Walk) (id : String) (rest : List String)
    → s.pending ≡ id ∷ rest
    → search edges (suc fuel) s ≡ search edges fuel (visit edges id rest s)
unfolding search
search-cons edges fuel s id rest p = rw p refl

pub search-zero :
    (edges : List (String × String)) (s : Walk) (id : String) (rest : List String)
    → s.pending ≡ id ∷ rest
    → search edges 0 s ≡ none
unfolding search
search-zero edges s id rest p = rw p refl

-- What every round keeps, a search keeps, and it ends with nothing left to visit.
pub search_invariant :
    (edges : List (String × String)) (Kept : Walk → Type 0)
    → ((id : String) (rest : List String) (s : Walk)
        → s.pending ≡ id ∷ rest
        → Kept s
        → Kept (visit edges id rest s))
    → (fuel : ℕ) (s walk : Walk) → Kept s
    → search edges fuel s ≡ some walk
    → Kept walk × (walk.pending ≡ [])
search_invariant edges Kept keeps zero s walk w h = elim (List-cases s.pending) [
  | inl p ↦
      subst (λ walk. Kept walk × (walk.pending ≡ []))
        (same_value (sym (search-nil edges 0 s p) ∙ h)) (w, p)
  | inr (id, rest, p) ↦ let bad : none ≡ some walk = sym (search-zero edges s id rest p) ∙ h in cc
]
search_invariant edges Kept keeps (suc fuel) s walk w h = elim (List-cases s.pending) [
  | inl p ↦
      subst (λ walk. Kept walk × (walk.pending ≡ []))
        (same_value (sym (search-nil edges (suc fuel) s p) ∙ h)) (w, p)
  | inr (id, rest, p) ↦
      search_invariant edges Kept keeps fuel (visit edges id rest s) walk (keeps id rest s p w)
        (sym (search-cons edges fuel s id rest p) ∙ h)
]

pub search-IsWalk :
    (edges : List (String × String)) (before : List String) (fuel : ℕ) (s walk : Walk)
    → IsWalk edges before s
    → search edges fuel s ≡ some walk
    → IsWalk edges before walk × (walk.pending ≡ [])
search-IsWalk edges before =
    search_invariant edges (IsWalk edges before) (visit-IsWalk edges before)
