-- ===== src/Organizations.antt =====
-- Which organizations a user may see and which scope is chosen: web/static/js/organizations.js. A
-- principal that is absent has no role and no organizations; absent texts are empty.
pub mod Scopes
use wiredraft.Prelude.{
  ℕ, String, Bool, true, false, ◌&&◌, ◌||◌, not, List, [], ◌∷◌, ◌++◌, map, Option, none, some, ◌==◌,
  ◌!=◌, Eq, string_eq, if◌then◌else◌, is_empty, filter, find?, any, contains, trim,
}

pub record Organization : Type 0 where
  pub id : String
  pub name : String
  pub is_default : Bool

pub record Principal : Type 0 where
  pub role : String
  pub all_organizations : Bool
  pub organization_ids : List String
  pub available_organizations : List Organization

pub record ScopeOption : Type 0 where
  pub id : String
  pub name : String
  pub is_default : Bool
  pub is_all : Bool

abbrev pub all_organizations_scope : String
all_organizations_scope = "all"

abbrev pub or_unnamed : String → String
or_unnamed name = if is_empty name then "Unnamed organization" else name

-- The callback of `flatMap` in `uniqueOrganizations`, with the ids seen so far.
unfoldable pub unique_from : List String → List Organization → List Organization
unique_from seen [] = []
unique_from seen (o ∷ os) =
    let skipped = unique_from seen os in
    let kept = unique_from (trim o.id ∷ seen) os in
    if is_empty (trim o.id) || contains seen (trim o.id)
    then skipped
    else (record {
      id = trim o.id;
      name = or_unnamed (trim (or_unnamed o.name));
      is_default = o.is_default;
    })
      ∷ kept

unfoldable pub unique_organizations : List Organization → List Organization
unfolding unique_from
unique_organizations os = unique_from [] os

abbrev pub has_all_access : Principal → Bool
has_all_access p = p.role == "admin" || p.all_organizations

unfoldable pub selectable_organizations : Principal → List Organization
unfolding unique_organizations
selectable_organizations p =
    let organizations = unique_organizations p.available_organizations in
    if has_all_access p
    then organizations
    else filter (λ (o : Organization). contains p.organization_ids o.id) organizations

abbrev pub as_option : Organization → ScopeOption
as_option o = record { id = o.id; name = o.name; is_default = o.is_default; is_all = false }

abbrev pub all_option : List ScopeOption
all_option =
    (record {
      id = all_organizations_scope;
      name = "All Organizations";
      is_default = false;
      is_all = true;
    })
    ∷ []

unfoldable pub organization_scope_options : Principal → List ScopeOption
unfolding selectable_organizations
organization_scope_options p =
    (if has_all_access p then all_option else []) ++ map as_option (selectable_organizations p)

abbrev pub id_of : Option ScopeOption → String
id_of none = ""
id_of (some o) = o.id

abbrev pub first_option : List ScopeOption → Option ScopeOption
first_option [] = none
first_option (o ∷ os) = some o

-- `a || b` on texts.
abbrev pub or_else : String → String → String
or_else a b = if is_empty a then b else a

-- The choice among the options.
pub choose_scope : List ScopeOption → String → String
choose_scope options requested =
    if any (λ (o : ScopeOption). o.id == requested) options
    then requested
    else or_else (id_of (find? (λ (o : ScopeOption). o.is_default) options)) (
        or_else (id_of (find? (λ (o : ScopeOption). o.id != all_organizations_scope) options))
          (id_of (first_option options)))

unfoldable pub resolve_organization_scope : Principal → String → String
unfolding choose_scope organization_scope_options
resolve_organization_scope p stored = choose_scope (organization_scope_options p) stored

-- `topologiesForOrganizationScope`, given the organization of each topology.
unfoldable pub topologies_for_organization_scope :
    {A : Type 0} → (A → String) → List A → String → List A
topologies_for_organization_scope organization_of topologies scope =
    if scope == all_organizations_scope
    then topologies
    else filter (λ t. organization_of t == scope) topologies

abbrev pub first_organization : List Organization → Option Organization
first_organization [] = none
first_organization (o ∷ os) = some o

abbrev pub first_of : Option Organization → Option Organization → Option Organization
first_of none b = b
first_of (some a) b = some a

unfoldable pub organization_for_new_topology : Principal → String → Option Organization
unfolding selectable_organizations
organization_for_new_topology p scope =
    let organizations = selectable_organizations p in
    let fallback =
      first_of (find? (λ (o : Organization). o.is_default) organizations)
        (first_organization organizations) in
    if not (is_empty scope) && scope != all_organizations_scope
    then first_of (find? (λ (o : Organization). o.id == scope) organizations) fallback
    else fallback
