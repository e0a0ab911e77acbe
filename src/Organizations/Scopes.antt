-- ===== src/Organizations/Scopes.antt =====
-- The chosen scope is one that the user may choose.
use wiredraft.Prelude.{
  String, Bool, true, false, List, [], ◌∷◌, map, some, ◌≡◌, refl, sym, ap, ◌∙◌, subst, ◌==◌, ◌!=◌,
  string_eq, is_empty, filter, find?, any, contains, Bool-cases, Option-cases, arith, str_iff, inl,
  inr, ◌⊎◌,
}
use wiredraft.Organizations.{
  Organization, Principal, ScopeOption, all_organizations_scope, unique_organizations,
  has_all_access, selectable_organizations, as_option, organization_scope_options, id_of,
  first_option, or_else, choose_scope, resolve_organization_scope,
}

-- The id is that of an option.
abbrev pub IsIn : String → List ScopeOption → Type 0
IsIn id [] = ⊥
IsIn id (o ∷ os) = (o.id ≡ id) ⊎ IsIn id os

abbrev IsChosen : String → List ScopeOption → Type 0
IsChosen id os = (id ≡ "") ⊎ IsIn id os

found :
    (p : ScopeOption → Bool) (o : ScopeOption) (os : List ScopeOption)
    → p o ≡ true
    → find? p (o ∷ os) ≡ some o
found p o os e = rw e refl

passed :
    (p : ScopeOption → Bool) (o : ScopeOption) (os : List ScopeOption)
    → p o ≡ false
    → find? p (o ∷ os) ≡ find? p os
passed p o os e = rw e refl

left_empty : (a b : String) → is_empty a ≡ true → or_else a b ≡ b
left_empty a b e = rw e refl

left_full : (a b : String) → is_empty a ≡ false → or_else a b ≡ a
left_full a b e = rw e refl

kept_first :
    (ids : List String) (o : Organization) (os : List Organization)
    → contains ids o.id ≡ true
    → filter (λ (o : Organization). contains ids o.id) (o ∷ os)
      ≡ o ∷ filter (λ (o : Organization). contains ids o.id) os
kept_first ids o os e = rw e refl

dropped_first :
    (ids : List String) (o : Organization) (os : List Organization)
    → contains ids o.id ≡ false
    → filter (λ (o : Organization). contains ids o.id) (o ∷ os)
      ≡ filter (λ (o : Organization). contains ids o.id) os
dropped_first ids o os e = rw e refl

find-IsIn :
    (p : ScopeOption → Bool) (os : List ScopeOption) (x : ScopeOption)
    → find? p os ≡ some x
    → IsIn x.id os
find-IsIn p [] x h = cc
find-IsIn p (o ∷ os) x h = elim (Bool-cases (p o)) [
  | inl e ↦ inl (ap id_of (sym (found p o os e) ∙ h))
  | inr e ↦ inr (find-IsIn p os x (sym (passed p o os e) ∙ h))
]

find-IsChosen : (p : ScopeOption → Bool) (os : List ScopeOption) → IsChosen (id_of (find? p os)) os
find-IsChosen p os = elim (Option-cases (find? p os)) [
  | inl e ↦ inl (ap id_of e)
  | inr (x, e) ↦ inr (subst (λ id. IsIn id os) (sym (ap id_of e)) (find-IsIn p os x e))
]

first-IsChosen : (os : List ScopeOption) → IsChosen (id_of (first_option os)) os
first-IsChosen [] = inl refl
first-IsChosen (o ∷ os) = inr (inl refl)

or_else-IsChosen :
    (a b : String) (os : List ScopeOption)
    → IsChosen a os
    → IsChosen b os
    → IsChosen (or_else a b) os
or_else-IsChosen a b os x y = elim (Bool-cases (is_empty a)) [
  | inl e ↦ subst (λ id. IsChosen id os) (sym (left_empty a b e)) y
  | inr e ↦ subst (λ id. IsChosen id os) (sym (left_full a b e)) x
]

any-IsIn :
    (os : List ScopeOption) (id : String)
    → any (λ (o : ScopeOption). o.id == id) os ≡ true
    → IsIn id os
any-IsIn [] id h = absurd (ground (arith, h))
any-IsIn (o ∷ os) id h = elim (Bool-cases (o.id == id)) [
  | inl e ↦ inl ((str_iff o.id id).0 e)
  | inr e ↦ inr (any-IsIn os id (ground (arith, h, e)))
]

requested_kept :
    (os : List ScopeOption) (requested : String)
    → any (λ (o : ScopeOption). o.id == requested) os ≡ true
    → choose_scope os requested ≡ requested
unfolding choose_scope
requested_kept os requested e = rw e refl

requested_gone :
    (os : List ScopeOption) (requested : String)
    → any (λ (o : ScopeOption). o.id == requested) os ≡ false
    → choose_scope os requested
      ≡ or_else (id_of (find? (λ (o : ScopeOption). o.is_default) os)) (
          or_else
            (id_of (find? (λ (o : ScopeOption). o.id != all_organizations_scope) os))
            (id_of (first_option os)))
unfolding choose_scope
requested_gone os requested e = rw e refl

choose_scope-IsChosen :
    (os : List ScopeOption) (requested : String) → IsChosen (choose_scope os requested) os
choose_scope-IsChosen os requested =
    elim (Bool-cases (any (λ (o : ScopeOption). o.id == requested) os)) [
      | inl e ↦
          subst (λ id. IsChosen id os) (sym (requested_kept os requested e))
            (inr (any-IsIn os requested e))
      | inr e ↦
          subst (λ id. IsChosen id os) (sym (requested_gone os requested e))
            (or_else-IsChosen _ _ os (find-IsChosen (λ (o : ScopeOption). o.is_default) os) (
              or_else-IsChosen _ _ os
                (find-IsChosen (λ (o : ScopeOption). o.id != all_organizations_scope) os)
                (first-IsChosen os)))
    ]

assigned :
    (ids : List String) (os : List Organization) (id : String)
    → IsIn id (map as_option (filter (λ (o : Organization). contains ids o.id) os))
    → contains ids id ≡ true
assigned ids [] id h = elim h [ ]
assigned ids (o ∷ os) id h = elim (Bool-cases (contains ids o.id)) [
  | inl e ↦ elim (subst (λ l. IsIn id (map as_option l)) (kept_first ids o os e) h) [
    | inl same ↦ subst (λ x. contains ids x ≡ true) same e
    | inr later ↦ assigned ids os id later
  ]
  | inr e ↦ assigned ids os id (subst (λ l. IsIn id (map as_option l)) (dropped_first ids o os e) h)
]

options_without_all :
    (p : Principal)
    → has_all_access p ≡ false
    → organization_scope_options p
      ≡ map as_option (
          filter
            (λ (o : Organization). contains p.organization_ids o.id)
            (unique_organizations p.available_organizations))
unfolding organization_scope_options selectable_organizations
options_without_all p e = rw e refl

-- The scope that is chosen, whatever was stored, is empty or one of the options of the user; for a
-- user without access to all organizations it is empty or one of the organizations assigned to the
-- user. A stored scope that is still an option is kept.
pub resolve_organization_scope-IsIn :
    (p : Principal) (stored : String)
    → let scope = resolve_organization_scope p stored in
      ((scope ≡ "") ⊎ IsIn scope (organization_scope_options p))
      × (has_all_access p ≡ false → (scope ≡ "") ⊎ (contains p.organization_ids scope ≡ true))
      × (any (λ (o : ScopeOption). o.id == stored) (organization_scope_options p) ≡ true
          → scope ≡ stored)
unfolding resolve_organization_scope
resolve_organization_scope-IsIn p stored =
    let os = organization_scope_options p in
    let chosen = choose_scope-IsChosen os stored in
    (
      chosen,
      λ e. elim chosen [
        | inl none_left ↦ inl none_left
        | inr there ↦ inr (
            assigned p.organization_ids (unique_organizations p.available_organizations)
              (choose_scope os stored)
              (subst (IsIn (choose_scope os stored)) (options_without_all p e) there))
      ],
      requested_kept os stored,
    )
