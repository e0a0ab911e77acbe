-- ===== src/LinkGroups/Plan.antt =====
-- What a planned bundle contains.
use wiredraft.Prelude.{
  String, Bool, true, false, ◌&&◌, ◌||◌, not, [], ◌∷◌, ◌≡◌, refl, ◌∙◌, ◌==◌, string_eq, is_empty,
  contains, add_all, unique, All, Bool-cases, arith, str_iff, differ, ◌≢◌, inl, inr, ◌⊎◌,
  Result-cases, ok, err, IsDistinct, add_all-IsDistinct, unique-IsDistinct, contains-add_all,
  contains-unique,
}
use wiredraft.Topology.{Topology}
use wiredraft.LinkConfiguration.{link_with_id}
use wiredraft.LinkGroups.{
  GroupInput, GroupError, GroupPlan, group_for_link, Classes, validate_group_members, ids_of_group,
  member_ids, planned, finish_plan, plan_link_group, same_cable, no_cable, no_primary, is_there,
}
use wiredraft.LinkGroups.Members.{IsMember, validate_group_members-IsMember}

-- What a plan promises of its group.
pub record IsPlan (t : Topology) (source target : String) (p : GroupPlan) : Type 0 where
  pub given : (is_empty source ≡ false) × (is_empty target ≡ false)
  pub two : source ≢ target
  pub ids :
      (id : String)
      → contains p.group.link_ids id ≡ (
          (source == id || target == id || contains (ids_of_group (group_for_link t source)) id)
          || contains (ids_of_group (group_for_link t target)) id)
  pub distinct : IsDistinct p.group.link_ids
  pub members : (physical : Bool) × All (IsMember t physical) p.group.link_ids
  pub primary :
      (p.group.mode ≡ "Failover" → contains p.group.link_ids p.group.primary_link_id ≡ true)
      × ((p.group.mode == "Failover") ≡ false → p.group.primary_link_id ≡ "")

contains-member_ids :
    (t : Topology) (source target id : String)
    → contains (member_ids t source target) id ≡ (
        (source == id || target == id || contains (ids_of_group (group_for_link t source)) id)
        || contains (ids_of_group (group_for_link t target)) id)
unfolding member_ids
contains-member_ids t source target id = ground (
  arith,
  contains-add_all
      (add_all (unique (source ∷ target ∷ [])) (ids_of_group (group_for_link t source)))
      (ids_of_group (group_for_link t target)) id,
  contains-add_all (unique (source ∷ target ∷ [])) (ids_of_group (group_for_link t source)) id,
  contains-unique (source ∷ target ∷ []) id,
)

member_ids-IsDistinct :
    (t : Topology) (source target : String) → IsDistinct (member_ids t source target)
unfolding member_ids
member_ids-IsDistinct t source target =
    let pair = unique (source ∷ target ∷ []) in
    let ours = ids_of_group (group_for_link t source) in
    add_all-IsDistinct (add_all pair ours) (ids_of_group (group_for_link t target))
      (add_all-IsDistinct pair ours (unique-IsDistinct (source ∷ target ∷ [])))

planned-IsPlan :
    (t : Topology) (source target : String) (input : GroupInput) (d : Classes)
    → (is_empty source || is_empty target || source == target) ≡ false
    → validate_group_members t (member_ids t source target) ≡ ok d
    → (input.mode == "Failover"
        && not (
            contains
              (member_ids t source target)
              (planned t source target input).group.primary_link_id))
      ≡ false
    → IsPlan t source target (planned t source target input)
unfolding planned
planned-IsPlan t source target input d e v f = record {
  given = (ground arith, ground arith);
  two = differ source target (ground arith);
  ids = contains-member_ids t source target;
  distinct = member_ids-IsDistinct t source target;
  members = validate_group_members-IsMember t (member_ids t source target) d v;
  primary = (λ m. ground (arith, f, m, str_iff input.mode "Failover"), λ m. rw m refl);
}

abbrev pub lacks_primary : Topology → String → String → GroupInput → Bool
lacks_primary t source target input =
    input.mode == "Failover"
    && not (
        contains (member_ids t source target) (planned t source target input).group.primary_link_id)

-- Why a plan fails: the two cables are not two, one is gone, the members are not fit, or the
-- primary is none of them.
abbrev pub IsRefused : Topology → String → String → GroupInput → GroupError → Type 0
IsRefused t source target input e =
    (((is_empty source || is_empty target || source == target) ≡ true) × (e ≡ same_cable))
    ⊎ (((not (is_there (link_with_id t source)) || not (is_there (link_with_id t target))) ≡ true)
          × (e ≡ no_cable)
        ⊎ ((validate_group_members t (member_ids t source target) ≡ err e)
            ⊎ ((lacks_primary t source target input ≡ true) × (e ≡ no_primary))))

finish_plan-IsPlan :
    (t : Topology) (source target : String) (input : GroupInput) (d : Classes)
    → (is_empty source || is_empty target || source == target) ≡ false
    → validate_group_members t (member_ids t source target) ≡ ok d
    → ((e : GroupError) × (finish_plan t source target input ≡ err e)
        × IsRefused t source target input e)
      ⊎ ((p : GroupPlan) × (finish_plan t source target input ≡ ok p) × IsPlan t source target p)
unfolding finish_plan
finish_plan-IsPlan t source target input d two v =
    elim (Bool-cases (
      input.mode == "Failover"
      && not (
          contains (member_ids t source target)
            (planned t source target input).group.primary_link_id))) [
              | inl e ↦ inl (no_primary, rw e refl, inr (inr (inr (e, refl))))
              | inr e ↦ inr (
                planned t source target input,
                rw e refl,
                planned-IsPlan t source target input d two v e,
              )
            ]

plan_is_finished :
    (t : Topology) (source target : String) (input : GroupInput) (d : Classes)
    → (is_empty source || is_empty target || source == target) ≡ false
    → (not (is_there (link_with_id t source)) || not (is_there (link_with_id t target))) ≡ false
    → validate_group_members t (member_ids t source target) ≡ ok d
    → plan_link_group t source target input ≡ finish_plan t source target input
unfolding plan_link_group
plan_is_finished t source target input d e g v = rw (e, g, v) refl

-- A plan for two links fails for one of four reasons, with the error of that reason: one of them is
-- not given or they are not two, one of them is gone, the members do not pass the validation, or
-- the primary link of a failover group is no member. A plan that does not fail is of two different
-- links, and its group has the two and the members of both their groups, each once; every member is
-- there, off the rear of panels, with both its ports, and all ports are physical-only or none is;
-- in failover mode the primary link is a member, and in the other modes there is none.
pub plan_link_group-IsPlan :
    (t : Topology) (source target : String) (input : GroupInput)
    → ((e : GroupError) × (plan_link_group t source target input ≡ err e)
        × IsRefused t source target input e)
      ⊎ ((p : GroupPlan) × (plan_link_group t source target input ≡ ok p)
          × IsPlan t source target p)
unfolding plan_link_group
plan_link_group-IsPlan t source target input =
    elim (Bool-cases (is_empty source || is_empty target || source == target)) [
      | inl e ↦ inl (same_cable, rw e refl, inl (e, refl))
      | inr e ↦
          elim (Bool-cases
            (not (is_there (link_with_id t source)) || not (is_there (link_with_id t target)))) [
              | inl g ↦ inl (no_cable, rw (e, g) refl, inr (inl (g, refl)))
              | inr g ↦
                  elim (Result-cases (validate_group_members t (member_ids t source target))) [
                    | inr (x, v) ↦ inl (x, rw (e, g, v) refl, inr (inr (inl v)))
                    | inl (d, v) ↦
                        let whole = plan_is_finished t source target input d e g v in
                        elim (finish_plan-IsPlan t source target input d e v) [
                          | inl (x, h, r) ↦ inl (x, whole ∙ h, r)
                          | inr (p, h, r) ↦ inr (p, whole ∙ h, r)
                        ]
                  ]
            ]
    ]
