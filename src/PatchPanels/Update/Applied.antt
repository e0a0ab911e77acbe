-- ===== src/PatchPanels/Update/Applied.antt =====
-- The channel of a rear mapping that was moved.
use Prim.Native.String.{count}
use wiredraft.Prelude.{
  String, true, false, ◌||◌, not, ◌≡◌, refl, subst, ◌==◌, string_eq, nat_eq, if◌then◌else◌,
  is_empty, trim, to_lower, ok, passed_test, ◌⊎◌, returned_value, on_either, ltb, Bool-cases, inl,
  inr, arith,
}
use wiredraft.Topology.{Topology, Link}
use wiredraft.PatchPanels.{bad_channel_type, no_channel_name, long_channel_name, bad_channel_id}
use wiredraft.PatchPanels.Channels.{is_version_4_uuid}
use wiredraft.PatchPanels.Update.{
  UpdateInput, clear_rear_channel, set_channel, pair_changed, channel_id_for,
}

-- The same run, with the ends of `before`: only its channel may differ.
pub record HasEnds (before after : Link) : Type 0 where
  pub id : after.id ≡ before.id
  pub source_device : after.source_device_id ≡ before.source_device_id
  pub source_port : after.source_port_id ≡ before.source_port_id
  pub source_side : after.source_side ≡ before.source_side
  pub target_device : after.target_device_id ≡ before.target_device_id
  pub target_port : after.target_port_id ≡ before.target_port_id
  pub target_side : after.target_side ≡ before.target_side

cleared-HasEnds : (link : Link) → HasEnds link (clear_rear_channel link)
unfolding clear_rear_channel
cleared-HasEnds link = record {
  id = refl;
  source_device = refl;
  source_port = refl;
  source_side = refl;
  target_device = refl;
  target_port = refl;
  target_side = refl;
}

with_channel-HasEnds :
    (link : Link) (id name type : String)
    → HasEnds link
        (record link { rear_channel_id = id; rear_channel_name = name; rear_channel_type = type })
with_channel-HasEnds link id name type = record {
  id = refl;
  source_device = refl;
  source_port = refl;
  source_side = refl;
  target_device = refl;
  target_port = refl;
  target_side = refl;
}

same-HasEnds : (link : Link) → HasEnds link link
same-HasEnds link = record {
  id = refl;
  source_device = refl;
  source_port = refl;
  source_side = refl;
  target_device = refl;
  target_port = refl;
  target_side = refl;
}

-- The channel of the moved run: none, the one it had between the same panels, or one with a valid
-- id.
abbrev pub HasChannel : Link → Link → Type 0
HasChannel link after =
    (after.rear_channel_id ≡ "")
    ⊎ (((pair_changed link after ≡ false) × (after.rear_channel_id ≡ link.rear_channel_id))
        ⊎ (is_version_4_uuid after.rear_channel_id ≡ true))

abbrev pub IsApplied : Link → Link → Link → Type 0
IsApplied link next after = HasEnds next after × HasChannel link after

cleared-IsApplied : (link next : Link) → IsApplied link next (clear_rear_channel next)
unfolding clear_rear_channel
cleared-IsApplied link next = (cleared-HasEnds next, inl refl)

kept-IsApplied :
    (link next : Link)
    → next.rear_channel_id ≡ link.rear_channel_id
    → IsApplied link next (if pair_changed link next then clear_rear_channel next else next)
kept-IsApplied link next same = elim (Bool-cases (pair_changed link next)) [
  | inl e ↦ rw e (cleared-IsApplied link next)
  | inr e ↦ rw e (same-HasEnds next, inr (inl (e, same)))
]

pub set_channel-IsApplied :
    (t : Topology) (input : UpdateInput) (link next after : Link)
    → next.rear_channel_id ≡ link.rear_channel_id
    → set_channel t input link next ≡ ok after
    → IsApplied link next after
unfolding set_channel
set_channel-IsApplied t input link next after same h =
    let P = IsApplied link next in
    let requested = to_lower (trim input.channel_type) in
    let name = trim input.channel_name in
    let id = channel_id_for t link (pair_changed link next) requested name input.channel_id in
    on_either P (is_empty requested)
      (λ _ k. subst P (returned_value _ refl k) (kept-IsApplied link next same))
      (λ _ k.
        on_either P (requested == "independent")
          (λ _ k. subst P (returned_value _ refl k) (cleared-IsApplied link next))
          (λ _ k.
            let (_, k1) =
              passed_test (not (requested == "tube" || requested == "discrete")) bad_channel_type _
                k in
            let (_, k2) = passed_test (is_empty name) no_channel_name _ k1 in
            let (_, k3) = passed_test (ltb 120 (count name)) long_channel_name _ k2 in
            let (valid, k4) = passed_test (not (is_version_4_uuid id)) bad_channel_id _ k3 in
            subst P (returned_value _ refl k4)
              (with_channel-HasEnds next id name requested, inr (inr (ground (arith, valid)))))
          k)
      h
