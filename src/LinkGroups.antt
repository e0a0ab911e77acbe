-- ===== src/LinkGroups.antt =====
-- Bundles of links: web/static/js/link-groups.js. The form submits texts, empty where it submits
-- nothing.
pub mod Members
pub mod Plan
use Prim.Native.String.{◌++◌ as str_append}
use wiredraft.Prelude.{
  ℕ, String, Bool, true, false, ◌&&◌, ◌||◌, not, List, [], ◌∷◌, ◌++◌, Option, none, some, ◌+◌, ◌==◌,
  ◌!=◌, Eq, string_eq, if◌then◌else◌, is_empty, find?, contains, add_all, unique, length, trim,
  Result, ok, err, ◌>>=◌,
}
use wiredraft.Topology.{Topology, Link, LinkGroup, Port}
use wiredraft.LinkConfiguration.{is_physical_only_port, port_by_id, link_with_id}

pub record GroupInput : Type 0 where
  pub mode : String
  pub name : String
  pub primary_link_id : String
  pub notes : String

pub data GroupError : Type 0 where
  same_cable : GroupError
  no_cable : GroupError
  no_group_cable : GroupError
  rear_member : GroupError
  no_endpoint : GroupError
  mixed_media : GroupError
  no_primary : GroupError

pub record GroupPlan : Type 0 where
  pub action : String
  pub delete_group_ids : List String
  pub group : LinkGroup

unfoldable pub group_for_link : Topology → String → Option LinkGroup
group_for_link t link_id =
    find? (λ (group : LinkGroup). contains group.link_ids link_id) t.link_groups

-- `endpointClasses`, a set of Booleans: whether `true` and whether `false` is in it.
pub record Classes : Type 0 where
  pub physical : Bool
  pub ethernet : Bool

abbrev pub add_class : Bool → Classes → Classes
add_class true c = record c { physical = true }
add_class false c = record c { ethernet = true }

check_ports : Option Port → Option Port → Classes → Result GroupError Classes
unfolding is_physical_only_port
check_ports (some source) (some target) c = ok (
    add_class (is_physical_only_port (some target))
      (add_class (is_physical_only_port (some source)) c))
check_ports _ _ c = err no_endpoint

-- One round of the loop of `validateGroupMembers`.
check_member : Topology → Option Link → Classes → Result GroupError Classes
unfolding check_ports
check_member t none c = err no_group_cable
check_member t (some link) c =
    if link.source_side == "rear" || link.target_side == "rear"
    then err rear_member
    else check_ports (port_by_id t link.source_port_id) (port_by_id t link.target_port_id) c

check_members : Topology → List String → Classes → Result GroupError Classes
unfolding check_member
check_members t [] c = ok c
check_members t (id ∷ ids) c =
    check_member t (link_with_id t id) c >>= λ next. check_members t ids next

unfoldable pub validate_group_members : Topology → List String → Result GroupError Classes
unfolding check_members
validate_group_members t ids =
    check_members t ids (record { physical = false; ethernet = false }) >>= λ c.
    if c.physical && c.ethernet then err mixed_media else ok c

abbrev pub ids_of_group : Option LinkGroup → List String
ids_of_group none = []
ids_of_group (some group) = group.link_ids

unfoldable pub member_ids : Topology → String → String → List String
unfolding group_for_link
member_ids t source target =
    add_all (add_all (unique (source ∷ target ∷ [])) (ids_of_group (group_for_link t source)))
      (ids_of_group (group_for_link t target))

abbrev pub is_there {ℓ} : {A : Type ℓ} → Option A → Bool
is_there none = false
is_there (some a) = true

abbrev pub first_of {ℓ} : {A : Type ℓ} → Option A → Option A → Option A
first_of none b = b
first_of (some a) b = some a

-- `a || b` on texts.
abbrev pub or_text : String → String → String
or_text a b = if is_empty a then b else a

abbrev pub text_of : (LinkGroup → String) → Option LinkGroup → String
text_of f none = ""
text_of f (some group) = f group

abbrev pub primary_of : GroupInput → Option LinkGroup → String → String
primary_of input retained source =
    if input.mode == "Failover"
    then or_text input.primary_link_id
        (or_text (text_of (λ (g : LinkGroup). g.primary_link_id) retained) source)
    else ""

abbrev pub deleted : Option LinkGroup → Option LinkGroup → List String
deleted (some source) (some target) = if source.id != target.id then target.id ∷ [] else []
deleted _ _ = []

-- The object that `planLinkGroup` returns.
pub planned : Topology → String → String → GroupInput → GroupPlan
unfolding group_for_link member_ids
planned t source target input =
    let retained = first_of (group_for_link t source) (group_for_link t target) in
    record {
      action = if is_there retained then "update" else "create";
      delete_group_ids = deleted (group_for_link t source) (group_for_link t target);
      group = record {
        id = text_of (λ (g : LinkGroup). g.id) retained;
        name = trim (
            or_text input.name (
              or_text (text_of (λ (g : LinkGroup). g.name) retained)
                (str_append input.mode " BUNDLE")));
        mode = input.mode;
        link_ids = member_ids t source target;
        primary_link_id = primary_of input retained source;
        notes = input.notes;
      };
    }

-- `planLinkGroup` after the validation of its members.
finish_plan : Topology → String → String → GroupInput → Result GroupError GroupPlan
unfolding planned
finish_plan t source target input =
    if input.mode == "Failover"
      && not (
          contains (member_ids t source target)
            (planned t source target input).group.primary_link_id)
    then err no_primary
    else ok (planned t source target input)

unfoldable pub plan_link_group :
    Topology → String → String → GroupInput → Result GroupError GroupPlan
unfolding finish_plan
plan_link_group t source target input =
    if is_empty source || is_empty target || source == target
    then err same_cable
    else if not (is_there (link_with_id t source)) || not (is_there (link_with_id t target))
    then err no_cable
    else validate_group_members t (member_ids t source target) >>= λ classes.
        finish_plan t source target input
