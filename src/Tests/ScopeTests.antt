-- ===== src/Tests/ScopeTests.antt =====
-- Scopes of organizations, run.
use wiredraft.Prelude.{true, false, [], ◌∷◌, ◌≡◌, ◌⊎◌, string_eq, ◌==◌, any, contains}
use wiredraft.Organizations.{
  Principal, ScopeOption, has_all_access, organization_scope_options, resolve_organization_scope,
}
use wiredraft.Organizations.Scopes.{IsIn, resolve_organization_scope-IsIn}

-- A viewer of the second of two organizations.
abbrev viewer : Principal
viewer = record {
  role = "viewer";
  all_organizations = false;
  organization_ids = "o2" ∷ [];
  available_organizations =
      (record { id = "o1"; name = "ONE"; is_default = true })
      ∷ (record { id = " o2 "; name = ""; is_default = false })
      ∷ [];
}

resolve_organization_scope-IsIn_example :
    let scope = resolve_organization_scope viewer "o1" in
    ((scope ≡ "") ⊎ IsIn scope (organization_scope_options viewer))
    × (has_all_access viewer ≡ false
        → (scope ≡ "") ⊎ (contains viewer.organization_ids scope ≡ true))
    × (any (λ (o : ScopeOption). o.id == "o1") (organization_scope_options viewer) ≡ true
        → scope ≡ "o1")
resolve_organization_scope-IsIn_example = resolve_organization_scope-IsIn viewer "o1"
