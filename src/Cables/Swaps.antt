-- ===== src/Cables/Swaps.antt =====
-- A planned move swaps exactly what is in its way.
use wiredraft.Prelude.{
  String, Bool, true, false, ◌&&◌, ◌||◌, List, [], ◌∷◌, Option, none, some, ◌≡◌, refl, sym, subst,
  ◌∙◌, ◌⊎◌, ◌==◌, ◌!=◌, string_eq, find?, any, In, Bool-cases, was_given, passed_none, same_value,
  find?-holds, find?-In, inl, inr, str_iff, arith,
}
use wiredraft.Topology.{Topology, Link}
use wiredraft.PatchPanels.{link_occupies}
use wiredraft.Cables.{
  End, source_end, target_end, end_named, port_at, side_at, find_port, Swap, swap_at, swap_in,
  RepatchPlan, plan_end, plan_cable_repatch,
}

-- The cable to swap with is one of the map whose end is on the side of the port; there is none
-- only if no cable is there.
abbrev pub IsInTheWay : List Link → String → String → Option Swap → Type 0
IsInTheWay links port_id side none = any (link_occupies port_id side) links ≡ false
IsInTheWay links port_id side (some swap) =
    In swap.link links
    × (port_at swap.link swap.end ≡ port_id)
    × (side_at swap.link swap.end ≡ side)

both : (a b : Bool) → (a && b) ≡ true → (a ≡ true) × (b ≡ true)
both a b h = (ground arith, ground arith)

-- One test of an end: it is taken, or the end is not on the side of the port.
swap_at-cases :
    (port_id side : String) (candidate : Link) (end : End) (found : Option Swap)
    → ((swap_at port_id side candidate end found ≡ some (record { link = candidate; end = end }))
        × (port_at candidate end ≡ port_id)
        × (side_at candidate end ≡ side))
      ⊎ ((swap_at port_id side candidate end found ≡ found)
          × ((port_at candidate end == port_id && side_at candidate end == side) ≡ false))
unfolding swap_at
swap_at-cases port_id side candidate end found =
    elim (Bool-cases (port_at candidate end == port_id && side_at candidate end == side)) [
      | inl e ↦
          let (p, s) = both (port_at candidate end == port_id) (side_at candidate end == side) e in
          inl (
            rw e refl,
            (str_iff (port_at candidate end) port_id).0 p,
            (str_iff (side_at candidate end) side).0 s,
          )
      | inr e ↦ inr (rw e refl, e)
    ]

-- What the loops find: an end of one of the cables, or nothing, and then the value from before.
abbrev Finds : String → String → List Link → Option Swap → Option Swap → Type 0
Finds port_id side links found result =
    ((result ≡ found) × (any (link_occupies port_id side) links ≡ false))
    ⊎ ((swap : Swap) × (result ≡ some swap)
        × In swap.link links
        × (port_at swap.link swap.end ≡ port_id)
        × (side_at swap.link swap.end ≡ side))

neither_end :
    (port_id side : String) (candidate : Link)
    → (port_at candidate source_end == port_id && side_at candidate source_end == side) ≡ false
    → (port_at candidate target_end == port_id && side_at candidate target_end == side) ≡ false
    → link_occupies port_id side candidate ≡ false
unfolding link_occupies side_at
neither_end port_id side candidate h k = rw h k

swap_in-Finds :
    (port_id side : String) (links : List Link) (found : Option Swap)
    → Finds port_id side links found (swap_in port_id side links found)
unfolding swap_in
swap_in-Finds port_id side [] found = inl (refl, refl)
swap_in-Finds port_id side (candidate ∷ links) found =
    let at_source = swap_at port_id side candidate source_end found in
    let at_target = swap_at port_id side candidate target_end at_source in
    elim (swap_in-Finds port_id side links at_target) [
      | inr (swap, e, here, p, s) ↦ inr (swap, e, inr here, p, s)
      | inl (e, rest) ↦ elim (swap_at-cases port_id side candidate target_end at_source) [
        | inl (f, p, s) ↦ inr (record { link = candidate; end = target_end }, e ∙ f, inl refl, p, s)
        | inr (f, not_target) ↦ elim (swap_at-cases port_id side candidate source_end found) [
          | inl (g, p, s) ↦
              inr (record { link = candidate; end = source_end }, e ∙ f ∙ g, inl refl, p, s)
          | inr (g, not_source) ↦
              inl (e ∙ f ∙ g, rw (neither_end port_id side candidate not_source not_target) rest)
        ]
      ]
    ]

swap_in-IsInTheWay :
    (port_id side : String) (links : List Link)
    → IsInTheWay links port_id side (swap_in port_id side links none)
swap_in-IsInTheWay port_id side links = elim (swap_in-Finds port_id side links none) [
  | inl (e, free) ↦ subst (IsInTheWay links port_id side) (sym e) free
  | inr (swap, e, here, p, s) ↦ subst (IsInTheWay links port_id side) (sym e) (here, p, s)
]

-- A planned move takes an end of a cable with the given id to another port of the map, on the side
-- where it was, and not to the rear of a device that is no panel.
pub record IsRepatch (t : Topology) (link_id endpoint port_id : String) (plan : RepatchPlan)
    : Type 0 where
  pub of_document : In plan.link t.links
  pub end_is :
      ((endpoint ≡ "source") × (plan.end ≡ source_end))
      ⊎ ((endpoint ≡ "target") × (plan.end ≡ target_end))
  pub from : find_port t.devices (port_at plan.link plan.end) ≡ some plan.from
  pub port_is : plan.port_id ≡ port_id
  pub id : plan.link.id ≡ link_id
  pub elsewhere :
      (plan.link.source_port_id == port_id || plan.link.target_port_id == port_id) ≡ false
  pub to : find_port t.devices port_id ≡ some plan.to
  pub side : plan.side ≡ side_at plan.link plan.end
  pub panel : (plan.side == "rear" && plan.to.device.category != "PatchPanel") ≡ false
  pub swap : IsInTheWay t.links port_id plan.side plan.swap

-- The name of an end of a cable.
abbrev pub Names : String → End → Type 0
Names endpoint end =
    ((endpoint ≡ "source") × (end ≡ source_end)) ⊎ ((endpoint ≡ "target") × (end ≡ target_end))

end_named-Names :
    (endpoint : String) {end : End} → end_named endpoint ≡ some end → Names endpoint end
unfolding end_named
end_named-Names endpoint {end} h = elim (Bool-cases (endpoint == "source")) [
  | inl e ↦
      let same : source_end ≡ end = same_value (sym (rw e refl) ∙ h) in
      inl ((str_iff endpoint "source").0 e, sym same)
  | inr n ↦ elim (Bool-cases (endpoint == "target")) [
    | inl e ↦
        let same : target_end ≡ end = same_value (sym (rw n rw e refl) ∙ h) in
        inr ((str_iff endpoint "target").0 e, sym same)
    | inr m ↦ let bad : none ≡ some end = sym (rw n rw m refl) ∙ h in cc
  ]
]

plan_end-IsRepatch :
    (t : Topology) (link : Link) (end : End) (endpoint port_id : String) (plan : RepatchPlan)
    → In link t.links
    → Names endpoint end
    → (link.source_port_id == port_id || link.target_port_id == port_id) ≡ false
    → plan_end t link end port_id ≡ some plan
    → IsRepatch t link.id endpoint port_id plan
unfolding plan_end
plan_end-IsRepatch t link end endpoint port_id plan of_document named d h =
    let (from, here, h1) = was_given (find_port t.devices (port_at link end)) _ h in
    let (to, e, h2) = was_given (find_port t.devices port_id) _ h1 in
    let (f, h3) =
      passed_none (side_at link end == "rear" && to.device.category != "PatchPanel") _ h2 in
    subst (IsRepatch t link.id endpoint port_id) (same_value h3) (record {
      of_document = of_document;
      end_is = named;
      from = here;
      port_is = refl;
      id = refl;
      elsewhere = d;
      to = e;
      side = refl;
      panel = f;
      swap = swap_in-IsInTheWay port_id (side_at link end) t.links;
    })

-- A planned move takes the named end of a cable of the map, the one with the given id, from its
-- port, which is on the map, to another port of the map, the given one, which no end of the cable
-- is at, on the side where the end was; on the rear side that port is one of a panel. The plan
-- swaps exactly if a cable is on that side of the port, and then with such a cable.
pub plan_cable_repatch-IsRepatch :
    (t : Topology) (link_id endpoint port_id : String) (plan : RepatchPlan)
    → plan_cable_repatch t link_id endpoint port_id ≡ some plan
    → IsRepatch t link_id endpoint port_id plan
unfolding plan_cable_repatch
plan_cable_repatch-IsRepatch t link_id endpoint port_id plan h =
    let (end, named, h1) = was_given (end_named endpoint) _ h in
    let (link, found, h2) =
      was_given (find? (λ (candidate : Link). candidate.id == link_id) t.links) _ h1 in
    let (d, h3) =
      passed_none (link.source_port_id == port_id || link.target_port_id == port_id) _ h2 in
    let same =
      (str_iff link.id link_id).0
        (find?-holds (λ (candidate : Link). candidate.id == link_id) t.links found) in
    subst (λ id. IsRepatch t id endpoint port_id plan) same
      (plan_end-IsRepatch t link end endpoint port_id plan (find?-In _ t.links found)
        (end_named-Names endpoint named) d h3)
