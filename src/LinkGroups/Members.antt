-- ===== src/LinkGroups/Members.antt =====
-- What the validation of group members establishes.
use wiredraft.Prelude.{
  String, Bool, true, false, ◌&&◌, ◌||◌, List, [], ◌∷◌, Option, none, some, ◌≡◌, refl, sym, ap, ◌∙◌,
  subst, ◌==◌, string_eq, if◌then◌else◌, All, All-map, Bool-cases, arith, inl, inr, Result, ok, err,
  ◌>>=◌,
}
use wiredraft.Topology.{Topology, Link, Port}
use wiredraft.LinkConfiguration.{is_physical_only_port, port_by_id, link_with_id}
use wiredraft.LinkGroups.{
  GroupError, Classes, add_class, check_ports, check_member, check_members, validate_group_members,
  mixed_media, rear_member, no_group_cable,
}

-- Whether a set of classes has the class.
abbrev has : Bool → Classes → Bool
has true c = c.physical
has false c = c.ethernet

-- The link is there, not on the rear of a panel, and both its ports are there and of one class.
pub record IsMember (t : Topology) (physical : Bool) (id : String) : Type 0 where
  pub link : Link
  pub found : link_with_id t id ≡ some link
  pub front : (link.source_side == "rear" || link.target_side == "rear") ≡ false
  pub source : Port
  pub target : Port
  pub source_found : port_by_id t link.source_port_id ≡ some source
  pub target_found : port_by_id t link.target_port_id ≡ some target
  pub source_class : is_physical_only_port (some source) ≡ physical
  pub target_class : is_physical_only_port (some target) ≡ physical

-- The same with the classes of the ports in a set.
record Fits (t : Topology) (c : Classes) (id : String) : Type 0 where
  link : Link
  found : link_with_id t id ≡ some link
  front : (link.source_side == "rear" || link.target_side == "rear") ≡ false
  source : Port
  target : Port
  source_found : port_by_id t link.source_port_id ≡ some source
  target_found : port_by_id t link.target_port_id ≡ some target
  source_class : has (is_physical_only_port (some source)) c ≡ true
  target_class : has (is_physical_only_port (some target)) c ≡ true

abbrev Within : Classes → Classes → Type 0
Within c d = (k : Bool) → has k c ≡ true → has k d ≡ true

has-add_class : (k : Bool) (c : Classes) → has k (add_class k c) ≡ true
has-add_class true c = refl
has-add_class false c = refl

add_class-Within : (k : Bool) (c : Classes) → Within c (add_class k c)
add_class-Within true c true h = refl
add_class-Within true c false h = h
add_class-Within false c true h = h
add_class-Within false c false h = refl

check_ports-ok :
    (a b : Option Port) (c d : Classes)
    → check_ports a b c ≡ ok d
    → (x : Port) × (y : Port) × (a ≡ some x)
      × (b ≡ some y)
      × (d
          ≡ add_class
              (is_physical_only_port (some y))
              (add_class (is_physical_only_port (some x)) c))
unfolding check_ports
check_ports-ok (some x) (some y) c d h = (x, y, refl, refl, cc h)
check_ports-ok none b c d h = cc
check_ports-ok (some x) none c d h = cc

none_fails : (t : Topology) (c : Classes) → check_member t none c ≡ err no_group_cable
unfolding check_member
none_fails t c = refl

bind_ok :
    (m : Result GroupError Classes) (f : Classes → Result GroupError Classes) (d : Classes)
    → (m >>= f) ≡ ok d
    → (c : Classes) × (m ≡ ok c) × (f c ≡ ok d)
bind_ok (ok c) f d h = (c, refl, h)
bind_ok (err e) f d h = cc

rear_fails :
    (t : Topology) (link : Link) (c : Classes)
    → (link.source_side == "rear" || link.target_side == "rear") ≡ true
    → check_member t (some link) c ≡ err rear_member
unfolding check_member
rear_fails t link c e = rw e refl

front_passes :
    (t : Topology) (link : Link) (c : Classes)
    → (link.source_side == "rear" || link.target_side == "rear") ≡ false
    → check_member t (some link) c
      ≡ check_ports (port_by_id t link.source_port_id) (port_by_id t link.target_port_id) c
unfolding check_member
front_passes t link c e = rw e refl

err_is_not_ok :
    (e : GroupError) (d : Classes) (r : Result GroupError Classes) → r ≡ err e → r ≡ ok d → ⊥
err_is_not_ok e d r h k = ground (arith, h, k)

check_ports-Fits :
    (t : Topology) (id : String) (link : Link) (c d : Classes)
    → link_with_id t id ≡ some link
    → (link.source_side == "rear" || link.target_side == "rear") ≡ false
    → check_ports (port_by_id t link.source_port_id) (port_by_id t link.target_port_id) c ≡ ok d
    → Fits t d id × Within c d
check_ports-Fits t id link c d f e h =
    let (x, y, px, py, same) = check_ports-ok _ _ c d h in
    let i = is_physical_only_port (some x) in
    let j = is_physical_only_port (some y) in
    (
      record {
        link = link;
        found = f;
        front = e;
        source = x;
        target = y;
        source_found = px;
        target_found = py;
        source_class = ap (has i) same ∙ add_class-Within j (add_class i c) i (has-add_class i c);
        target_class = ap (has j) same ∙ has-add_class j (add_class i c);
      },
      λ k w. ap (has k) same ∙ add_class-Within j (add_class i c) k (add_class-Within i c k w),
    )

check_member-Fits :
    (t : Topology) (id : String) (o : Option Link) (c d : Classes)
    → link_with_id t id ≡ o
    → check_member t o c ≡ ok d
    → Fits t d id × Within c d
check_member-Fits t id none c d f h = absurd (err_is_not_ok no_group_cable d _ (none_fails t c) h)
check_member-Fits t id (some link) c d f h =
    elim (Bool-cases (link.source_side == "rear" || link.target_side == "rear")) [
      | inl e ↦ absurd (err_is_not_ok rear_member d _ (rear_fails t link c e) h)
      | inr e ↦ check_ports-Fits t id link c d f e (sym (front_passes t link c e) ∙ h)
    ]

Fits-Within : (t : Topology) (c d : Classes) (id : String) → Within c d → Fits t c id → Fits t d id
Fits-Within t c d id w f = record {
  link = f.link;
  found = f.found;
  front = f.front;
  source = f.source;
  target = f.target;
  source_found = f.source_found;
  target_found = f.target_found;
  source_class = w (is_physical_only_port (some f.source)) f.source_class;
  target_class = w (is_physical_only_port (some f.target)) f.target_class;
}

check_members-Fits :
    (t : Topology) (ids : List String) (c d : Classes)
    → check_members t ids c ≡ ok d
    → All (Fits t d) ids × Within c d
unfolding check_members
check_members-Fits t [] c d h = (tt, λ k w. subst (λ (x : Classes). has k x ≡ true) (cc h) w)
check_members-Fits t (id ∷ ids) c d h =
    let (next, first, rest) =
      bind_ok (check_member t (link_with_id t id) c) (check_members t ids) d h in
    let (f, w) = check_member-Fits t id (link_with_id t id) c next refl first in
    let (fs, ws) = check_members-Fits t ids next d rest in
    ((Fits-Within t next d id ws f, fs), λ k x. ws k (w k x))

class_of :
    (c : Classes) (i : Bool) → (c.physical && c.ethernet) ≡ false → has i c ≡ true → i ≡ c.physical
class_of c true b h = sym h
class_of c false b h = ground (arith, b, h)

Fits-IsMember :
    (t : Topology) (c : Classes) (id : String)
    → (c.physical && c.ethernet) ≡ false
    → Fits t c id
    → IsMember t c.physical id
Fits-IsMember t c id b f = record {
  link = f.link;
  found = f.found;
  front = f.front;
  source = f.source;
  target = f.target;
  source_found = f.source_found;
  target_found = f.target_found;
  source_class = class_of c (is_physical_only_port (some f.source)) b f.source_class;
  target_class = class_of c (is_physical_only_port (some f.target)) b f.target_class;
}

one_class :
    (c d : Classes)
    → (if c.physical && c.ethernet then err mixed_media else ok c) ≡ ok d
    → (c.physical && c.ethernet) ≡ false
one_class c d h = elim (Bool-cases (c.physical && c.ethernet)) [
  | inl e ↦ absurd (
      err_is_not_ok mixed_media d (if c.physical && c.ethernet then err mixed_media else ok c)
        (rw e refl) h)
  | inr e ↦ e
]

pub validate_group_members-IsMember :
    (t : Topology) (ids : List String) (d : Classes)
    → validate_group_members t ids ≡ ok d
    → (physical : Bool) × All (IsMember t physical) ids
unfolding validate_group_members
validate_group_members-IsMember t ids d h =
    let (c, checked, last) =
      bind_ok (check_members t ids (record { physical = false; ethernet = false }))
        (λ c. if c.physical && c.ethernet then err mixed_media else ok c) d h in
    (
      c.physical,
      All-map (λ id f. Fits-IsMember t c id (one_class c d last) f) ids
          (check_members-Fits t ids (record { physical = false; ethernet = false }) c checked).0,
    )
