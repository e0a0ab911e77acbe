-- ===== src/PatchPanels/Mapping/Sound.antt =====
-- What a plan of rear mappings promises.
use wiredraft.Prelude.{
  In, ℕ, String, true, false, not, List, [], ◌∷◌, ◌++◌, Option, some, ◌+◌, ◌-◌, ◌≡◌, refl, sym, ◌≢◌,
  All-map, ◌∙◌, subst, ◌==◌, ◌!=◌, string_eq, nat_eq, take, drop, ap, none, ◌≤◌, ltb, to_lower,
  length, All, ok, present, returned_before, passed_test, was_present, returned_value, arith,
  str_iff, differ,
}
use wiredraft.PatchPanels.Mapping.Taken.{contains-rear_port_ids, filter-is_nil, installed}
use wiredraft.Topology.{Topology, Device, Port, Link}
use wiredraft.PatchPanels.{
  no_panels, same_panel, end_before_start, no_source_ports, no_target_ports, rear_mapped,
  type_mismatch, side_of, not_positive, ordered_ports, is_port_side_occupied, panel_by_id,
}
use wiredraft.PatchPanels.Channels.{ChannelTag, rear_channel_plan}
use wiredraft.PatchPanels.Mapping.{
  MappingInput, MappingPlan, blocked_ports, same_types, mapped_link, mapped_links, port_range,
  is_nil, first_port, connect_ranges, plan_ranges, positive_integer, plan_patch_panel_mapping,
}

-- The links join the ports pairwise, rear to rear, between connectors of one type.
abbrev pub JoinsPorts : Device → Device → List Port → List Port → List Link → Type 0
JoinsPorts source target (p ∷ ps) (q ∷ qs) (link ∷ links) =
    (link.source_device_id ≡ source.id)
    × (link.target_device_id ≡ target.id)
    × (link.source_port_id ≡ p.id)
    × (link.target_port_id ≡ q.id)
    × (side_of link.source_side ≡ "rear")
    × (side_of link.target_side ≡ "rear")
    × (p.type ≡ q.type)
    × JoinsPorts source target ps qs links
JoinsPorts source target [] [] [] = Unit
JoinsPorts source target _ _ _ = ⊥

mapped_links-JoinsPorts :
    (source target : Device) (ps qs : List Port) (tags : List (Option ChannelTag))
    → length ps ≡ length qs
    → same_types ps qs ≡ true
    → JoinsPorts source target ps qs (mapped_links source target ps qs tags)
unfolding mapped_links mapped_link same_types side_of to_lower
mapped_links-JoinsPorts source target [] [] tags h s = tt
mapped_links-JoinsPorts source target [] (q ∷ qs) tags h s = absurd (omega arith)
mapped_links-JoinsPorts source target (p ∷ ps) [] tags h s = absurd (omega arith)
mapped_links-JoinsPorts source target (p ∷ ps) (q ∷ qs) tags h s = (
  refl,
  refl,
  refl,
  refl,
  refl,
  refl,
  (str_iff p.type q.type).0 (ground arith),
  mapped_links-JoinsPorts source target ps qs _ (omega arith) (ground arith),
)

-- The ports are those of the device from the first number to the last, in the order of their
-- numbers, and there are that many.
pub record IsRange (device : Device) (first last : ℕ) (ports : List Port) : Type 0 where
  pub positive : 1 ≤ first
  pub ordered : first ≤ last
  pub ports_are : ports ≡ take (last - first + 1) (drop (first - 1) (ordered_ports device))
  pub count : length ports ≡ last - first + 1

-- What the plan promises.
pub record IsSound (t : Topology) (input : MappingInput) (p : MappingPlan) : Type 0 where
  pub source : panel_by_id t input.source_device_id ≡ some p.source
  pub target : panel_by_id t input.target_device_id ≡ some p.target
  pub source_panel : In p.source t.devices × (p.source.category ≡ "PatchPanel")
  pub target_panel : In p.target t.devices × (p.target.category ≡ "PatchPanel")
  pub different : p.source.id ≢ p.target.id
  pub first : ℕ
  pub first_is : input.source_start ≡ some first
  pub last : ℕ
  pub last_is : input.source_end ≡ some last
  pub source_range : IsRange p.source first last p.source_ports
  pub start : ℕ
  pub start_is : input.target_start ≡ some start
  pub target_range : IsRange p.target start (start + (last - first)) p.target_ports
  pub joins : JoinsPorts p.source p.target p.source_ports p.target_ports p.links
  pub free :
      All
        (λ (port : Port). is_port_side_occupied t port.id "rear" ≡ false)
        (p.source_ports ++ p.target_ports)

blocked_ports-free :
    (t : Topology) (ports : List Port)
    → not (is_nil (blocked_ports t ports)) ≡ false
    → All (λ (port : Port). is_port_side_occupied t port.id "rear" ≡ false) ports
unfolding blocked_ports is_port_side_occupied
blocked_ports-free t ports h =
    All-map (λ port free. sym (contains-rear_port_ids t.links port.id) ∙ free) ports
      (filter-is_nil _ ports (ground (arith, h)))

connect_ranges-IsSound :
    (t : Topology) (input : MappingInput) (source target : Device) (first last end start : ℕ)
    (ps qs : List Port) (plan : MappingPlan)
    → panel_by_id t input.source_device_id ≡ some source
    → panel_by_id t input.target_device_id ≡ some target
    → source.id ≢ target.id
    → input.source_start ≡ some first
    → input.source_end ≡ some last
    → input.target_start ≡ some start
    → IsRange source first last ps
    → IsRange target start (start + (last - first)) qs
    → connect_ranges t input source target first last end ps qs ≡ ok plan
    → IsSound t input plan
unfolding connect_ranges
connect_ranges-IsSound t input source target first last end start ps qs plan s u d fi la st sr tr
      h =
    let (unblocked, h1) =
      passed_test (not (is_nil (blocked_ports t (ps ++ qs))))
        (rear_mapped (blocked_ports t (ps ++ qs))) _ h in
    let (types, h2) = passed_test (not (same_types ps qs)) type_mismatch _ h1 in
    let (port, _, h3) = returned_before (first_port ps) _ h2 in
    let (channels, _, h4) =
      returned_before (rear_channel_plan input.channel source port first last) _ h3 in
    subst (λ made. IsSound t input made) (returned_value _ refl h4)
      (record {
        source = s;
        target = u;
        source_panel = installed t input.source_device_id s;
        target_panel = installed t input.target_device_id u;
        different = d;
        first = first;
        first_is = fi;
        last = last;
        last_is = la;
        source_range = sr;
        start = start;
        start_is = st;
        target_range = tr;
        joins =
            mapped_links-JoinsPorts source target ps qs channels.metadata_by_link
              (omega (arith, sr.count, tr.count)) (ground (arith, types));
        free = blocked_ports-free t (ps ++ qs) unblocked;
      })

not_different : (a b : ℕ) → (a != b) ≡ false → a ≡ b
not_different a b h = ground arith

positive_integer-some :
    (o : Option ℕ) (label : String) {n : ℕ}
    → positive_integer o label ≡ ok n
    → (o ≡ some n) × (1 ≤ n)
unfolding positive_integer
positive_integer-some none label h = cc
positive_integer-some (some m) label {n} h =
    let (positive, k) = passed_test (ltb m 1) (not_positive label) (ok m) h in
    let same : m ≡ n = cc in (ap some same, subst (λ z. 1 ≤ z) same (ground (arith, positive)))

plan_ranges-IsSound :
    (t : Topology) (input : MappingInput) (source target : Device) (plan : MappingPlan)
    → panel_by_id t input.source_device_id ≡ some source
    → panel_by_id t input.target_device_id ≡ some target
    → source.id ≢ target.id
    → plan_ranges t input source target ≡ ok plan
    → IsSound t input plan
unfolding plan_ranges port_range
plan_ranges-IsSound t input source target plan s u d h =
    let (first, fi, h1) =
      returned_before (positive_integer input.source_start "Source start port") _ h in
    let (last, la, h2) =
      returned_before (positive_integer input.source_end "Source end port") _ h1 in
    let (start, st, h3) =
      returned_before (positive_integer input.target_start "Target start port") _ h2 in
    let n = last - first + 1 in
    let ps = port_range source first n in
    let qs = port_range target start n in
    let (upward, h4) = passed_test (ltb last first) end_before_start _ h3 in
    let (long, h5) = passed_test (length ps != n) no_source_ports _ h4 in
    let (also_long, h6) = passed_test (length qs != n) no_target_ports _ h5 in
    let (at_first, from_one) = positive_integer-some input.source_start "Source start port" fi in
    let (at_start, also_one) = positive_integer-some input.target_start "Target start port" st in
    let rising : first ≤ last = ground (arith, upward) in
    let same : start + (last - first) - start + 1 ≡ n = omega arith in
    connect_ranges-IsSound t input source target first last (start + n - 1) start ps qs plan s u d
      at_first (positive_integer-some input.source_end "Source end port" la).0 at_start
      (record {
        positive = from_one;
        ordered = rising;
        ports_are = refl;
        count = not_different _ _ long;
      })
      (record {
        positive = also_one;
        ordered = omega arith;
        ports_are = rw same refl;
        count = not_different _ _ also_long ∙ sym same;
      })
      h6

-- A planned rear mapping joins two different installed patch panels: its links go from the ports of
-- the range that was asked for, of the one panel, to as many ports of the other from the start that
-- was asked for, in the order of their numbers, from rear side to rear side and between connectors
-- of one type; the panels have all these ports, and no cable of the document is on the rear side of
-- any of them.
pub plan_patch_panel_mapping-IsSound :
    (t : Topology) (input : MappingInput) (plan : MappingPlan)
    → plan_patch_panel_mapping t input ≡ ok plan
    → IsSound t input plan
unfolding plan_patch_panel_mapping
plan_patch_panel_mapping-IsSound t input plan h =
    let (source, found, h1) =
      returned_before (present (panel_by_id t input.source_device_id) no_panels) _ h in
    let (target, also_found, h2) =
      returned_before (present (panel_by_id t input.target_device_id) no_panels) _ h1 in
    let (different, h3) = passed_test (source.id == target.id) same_panel _ h2 in
    plan_ranges-IsSound t input source target plan (was_present _ _ found)
      (was_present _ _ also_found) (differ source.id target.id different) h3
