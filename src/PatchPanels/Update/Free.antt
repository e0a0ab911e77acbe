-- ===== src/PatchPanels/Update/Free.antt =====
-- What the update of a rear mapping promises.
use wiredraft.PatchPanels.Update.Applied.{HasChannel, IsApplied, set_channel-IsApplied}
use wiredraft.Prelude.{
  String, Bool, true, false, ◌&&◌, ◌||◌, not, [], ◌∷◌, some, ◌≡◌, ◌≢◌, refl, sym, ap, find?,
  find?-holds, find?-In, In, In-of_sort, leb, ◌∙◌, subst, ◌==◌, ◌!=◌, string_eq, nat_eq, filter,
  any, contains, ok, present, returned_before, passed_test, was_present, returned_value, arith,
  str_iff, differ,
}
use wiredraft.Topology.{Topology, Device, Port, Link}
use wiredraft.PatchPanels.{
  PanelError, ordered_ports, no_rear_mapping, not_of_mapping, no_peer, same_panel, no_panel_port,
  no_peer_port, rear_mapped, type_mismatch, side_of, link_occupies, panel_by_id,
}
use wiredraft.PatchPanels.Mapping.{is_nil}
use wiredraft.PatchPanels.Mapping.Taken.{installed, contains-rear_port_ids, filter-is_nil}
use wiredraft.PatchPanels.Update.{
  UpdateInput, rear_link, port_of, taken_by_others, other_links, moved_link, with_notes, move_ends,
  plan_rear_panel_link_update,
}

-- The map has a patch panel with the id, and that has a port with the id.
pub record HasJack (t : Topology) (device_id port_id : String) : Type 0 where
  pub panel : Device
  pub of_document : In panel t.devices
  pub is_panel : panel.category ≡ "PatchPanel"
  pub named : panel.id ≡ device_id
  pub port : Port
  pub on_panel : In port panel.ports
  pub port_named : port.id ≡ port_id

jack_of :
    (t : Topology) (device_id port_id : String) (thrown : PanelError) (panel : Device) (port : Port)
    → panel_by_id t device_id ≡ some panel
    → port_of panel port_id thrown ≡ ok port
    → HasJack t panel.id port.id
unfolding port_of ordered_ports
jack_of t device_id port_id thrown panel port found has =
    let (of_document, category) = installed t device_id found in
    record {
      panel = panel;
      of_document = of_document;
      is_panel = category;
      named = refl;
      port = port;
      on_panel =
          In-of_sort (λ (l r : Port). leb l.port_index r.port_index) port panel.ports
            (find?-In _ (ordered_ports panel) (was_present _ _ has));
      port_named = refl;
    }

-- A run after its move: with its id, between two different panels, from a free rear side to a free
-- rear side, as far as the other cables go.
pub record IsMoved (t : Topology) (link after : Link) : Type 0 where
  pub source_jack : HasJack t after.source_device_id after.source_port_id
  pub target_jack : HasJack t after.target_device_id after.target_port_id
  pub id : after.id ≡ link.id
  pub different : after.source_device_id ≢ after.target_device_id
  pub source_side : after.source_side ≡ "rear"
  pub target_side : after.target_side ≡ "rear"
  pub source_free : any (link_occupies after.source_port_id "rear") (other_links t link) ≡ false
  pub target_free : any (link_occupies after.target_port_id "rear") (other_links t link) ≡ false
  pub channel : HasChannel link after

-- The same of a link and of what `HasEnds` it.
ends-IsMoved :
    (t : Topology) (link next after : Link)
    → IsApplied link next after
    → HasJack t next.source_device_id next.source_port_id
    → HasJack t next.target_device_id next.target_port_id
    → next.id ≡ link.id
    → next.source_device_id ≢ next.target_device_id
    → next.source_side ≡ "rear"
    → next.target_side ≡ "rear"
    → any (link_occupies next.source_port_id "rear") (other_links t link) ≡ false
    → any (link_occupies next.target_port_id "rear") (other_links t link) ≡ false
    → IsMoved t link after
ends-IsMoved t link next after (ends, channel) sj tj id d ss ts sf tf = record {
  source_jack =
      subst (λ port. HasJack t after.source_device_id port) (sym ends.source_port)
        (subst (λ device. HasJack t device next.source_port_id) (sym ends.source_device) sj);
  target_jack =
      subst (λ port. HasJack t after.target_device_id port) (sym ends.target_port)
        (subst (λ device. HasJack t device next.target_port_id) (sym ends.target_device) tj);
  id = ends.id ∙ id;
  different = λ e. d (sym ends.source_device ∙ e ∙ ends.target_device);
  source_side = ends.source_side ∙ ss;
  target_side = ends.target_side ∙ ts;
  source_free = ap (λ x. any (link_occupies x "rear") (other_links t link)) ends.source_port ∙ sf;
  target_free = ap (λ x. any (link_occupies x "rear") (other_links t link)) ends.target_port ∙ tf;
  channel = channel;
}

not_taken-free :
    (t : Topology) (link : Link) (port : Port)
    → contains (taken_by_others t link) port.id ≡ false
    → any (link_occupies port.id "rear") (other_links t link) ≡ false
unfolding taken_by_others
not_taken-free t link port h = sym (contains-rear_port_ids (other_links t link) port.id) ∙ h

next-IsMoved :
    (t : Topology) (link : Link) (panel_is_source : Bool) (panel : Device) (panel_port : Port)
    (peer : Device) (peer_port : Port) (after : Link)
    → HasJack t panel.id panel_port.id
    → HasJack t peer.id peer_port.id
    → peer.id ≢ panel.id
    → contains (taken_by_others t link) panel_port.id ≡ false
    → contains (taken_by_others t link) peer_port.id ≡ false
    → IsApplied link
        (with_notes t (moved_link link panel_is_source panel panel_port peer peer_port))
        after
    → IsMoved t link after
unfolding moved_link with_notes
next-IsMoved t link true panel panel_port peer peer_port after a b d f g set =
    ends-IsMoved t link _ after set a b refl (λ e. d (sym e)) refl refl
      (not_taken-free t link panel_port f) (not_taken-free t link peer_port g)
next-IsMoved t link false panel panel_port peer peer_port after a b d f g set =
    ends-IsMoved t link _ after set b a refl d refl refl (not_taken-free t link peer_port g)
      (not_taken-free t link panel_port f)

with_notes-channel :
    (t : Topology) (link : Link) → (with_notes t link).rear_channel_id ≡ link.rear_channel_id
unfolding with_notes
with_notes-channel t link = refl

move_ends-IsMoved :
    (t : Topology) (input : UpdateInput) (link : Link) (panel_is_source : Bool) (panel : Device)
    (panel_port : Port) (peer : Device) (peer_port : Port) (after : Link)
    → HasJack t panel.id panel_port.id
    → HasJack t peer.id peer_port.id
    → peer.id ≢ panel.id
    → move_ends t input link panel_is_source panel panel_port peer peer_port ≡ ok after
    → IsMoved t link after
unfolding move_ends moved_link
move_ends-IsMoved t input link panel_is_source panel panel_port peer peer_port after a b d h =
    let taken = λ (port : Port). contains (taken_by_others t link) port.id in
    let blocked = filter taken (panel_port ∷ peer_port ∷ []) in
    let next = with_notes t (moved_link link panel_is_source panel panel_port peer peer_port) in
    let (_, h1) = passed_test (panel_port.type != peer_port.type) type_mismatch _ h in
    let (open_ports, h2) = passed_test (not (is_nil blocked)) (rear_mapped blocked) _ h1 in
    let free = filter-is_nil taken (panel_port ∷ peer_port ∷ []) (ground (arith, open_ports)) in
    next-IsMoved t link panel_is_source panel panel_port peer peer_port after a b d free.0 free.1.0
      (set_channel-IsApplied t input link next after
        (with_notes-channel t (moved_link link panel_is_source panel panel_port peer peer_port)) h2)

-- An updated rear mapping is the run with the given id, now between ports of two different patch
-- panels of the map and rear side to rear side; no other cable is on either rear side, and its
-- channel is none, the one that it had between the same two panels, or one whose id is a version 4
-- UUID.
pub plan_rear_panel_link_update-IsMoved :
    (t : Topology) (link_id panel_id : String) (input : UpdateInput) (after : Link)
    → plan_rear_panel_link_update t link_id panel_id input ≡ ok after
    → (link : Link) × (find? (λ (candidate : Link). candidate.id == link_id) t.links ≡ some link)
      × (after.id ≡ link_id)
      × IsMoved t link after
unfolding plan_rear_panel_link_update rear_link
plan_rear_panel_link_update-IsMoved t link_id panel_id input after h =
    let (link, found, h1) = returned_before (rear_link t link_id) _ h in
    let (first, at, h0) =
      returned_before
        (present (find? (λ (candidate : Link). candidate.id == link_id) t.links) no_rear_mapping) _
        found in
    let (_, same) =
      passed_test (side_of first.source_side != "rear" || side_of first.target_side != "rear")
        no_rear_mapping _ h0 in
    let (panel, at_panel, h2) =
      returned_before (present (panel_by_id t panel_id) not_of_mapping) _ h1 in
    let (_, h3) =
      passed_test (link.source_device_id != panel_id && link.target_device_id != panel_id)
        not_of_mapping _ h2 in
    let (peer, at_peer, h4) =
      returned_before (present (panel_by_id t input.peer_device_id) no_peer) _ h3 in
    let (other, h5) = passed_test (peer.id == panel.id) same_panel _ h4 in
    let (panel_port, has, h6) =
      returned_before (port_of panel input.panel_port_id no_panel_port) _ h5 in
    let (peer_port, also_has, h7) =
      returned_before (port_of peer input.peer_port_id no_peer_port) _ h6 in
    let at_link = was_present _ _ at ∙ ap some (returned_value _ refl same) in
    let moved =
      move_ends-IsMoved t input link _ panel panel_port peer peer_port after
        (jack_of t panel_id input.panel_port_id no_panel_port panel panel_port
          (was_present _ _ at_panel) has)
        (jack_of t input.peer_device_id input.peer_port_id no_peer_port peer peer_port
          (was_present _ _ at_peer) also_has)
        (differ peer.id panel.id other) h7 in
    (link, at_link, moved.id ∙ (str_iff link.id link_id).0 (find?-holds _ t.links at_link), moved)
