-- ===== src/PatchPanels/Paths/Closed.antt =====
-- The index of paths: the path of a cable has exactly the cables that its signal reaches.
use wiredraft.Prelude.{
  String, Bool, true, false, List, [], some, ◌≡◌, sym, subst, ◌∙◌, ◌==◌, string_eq, contains, map,
  Bool-cases, inl, inr, arith, str_iff,
}
use wiredraft.Topology.{Topology, Link}
use wiredraft.PatchPanels.Paths.Rounds.{patch_panel_path_index_total}
use wiredraft.PatchPanels.Paths.{
  PathIndex, path_of, patch_panel_path_index, panel_edges, panel_port_ids,
}
use wiredraft.PatchPanels.Paths.Walks.{meets}
use wiredraft.PatchPanels.Paths.Entries.{IsIndexed}
use wiredraft.PatchPanels.Paths.Index.{IsPath, IsIndex, index_paths-IsIndex}
use wiredraft.PatchPanels.Paths.Edges.{
  are_across, are_across-same, meets-panel_edges, panel_edges-IsSymmetric,
}

-- The edges of the document.
abbrev pub edges_of : Topology → List (String × String)
edges_of t = panel_edges (panel_port_ids t) t.links (panel_port_ids t)

-- Two cables that end at one jack of a panel, one at its front and one at its rear.
abbrev pub across : Topology → String → String → Bool
across t = are_across (panel_port_ids t) t.links (panel_port_ids t)

abbrev pub link_ids : Topology → List String
link_ids t = map (λ (link : Link). link.id) t.links

-- The index has the cables of the document that meet another one, each with the cables that one
-- comes to from it over cables that meet.
pub record IsPathIndex (t : Topology) (index : PathIndex) : Type 0 where
  pub listed :
      (x y : String) → contains (link_ids t) x ≡ true → across t x y ≡ true → IsIndexed index x
  pub paths :
      (x : String) (component : List String)
      → path_of index x ≡ some component
      → IsPath (edges_of t) x component

meets-across : (t : Topology) (x y : String) → meets (edges_of t) x y ≡ across t x y
meets-across t = meets-panel_edges (panel_port_ids t) t.links (panel_port_ids t)

across-apart : (t : Topology) (x y : String) → across t x y ≡ true → (x == y) ≡ false
across-apart t x y h = elim (Bool-cases (x == y)) [
  | inl e ↦
      let same : across t x x ≡ true =
        subst (λ z. across t x z ≡ true) (sym ((str_iff x y).0 e)) h in
      absurd (ground (arith, same, are_across-same (panel_port_ids t) t.links (panel_port_ids t) x))
  | inr e ↦ e
]

-- Every document has its index of paths: the searches end within one more round than there are
-- edges. Two cables meet in the edges exactly if they are two and end at the two sides of one jack
-- of a panel. Every cable of the document that meets another one has an entry, and the path of an
-- entry has exactly the cables that one comes to from its cable over cables that meet so.
pub patch_panel_path_index_lem :
    (t : Topology)
    → (index : PathIndex) × (patch_panel_path_index t ≡ some index)
      × IsPathIndex t index
      × ((x y : String) → meets (edges_of t) x y ≡ across t x y)
unfolding patch_panel_path_index
patch_panel_path_index_lem t =
    let (index, found) = patch_panel_path_index_total t in
    let none_yet : IsIndex (edges_of t) [] [] = record {
      shut = λ x y h k. cc;
      paths = λ x component h. cc;
      listed = λ x y h k apart. cc;
    } in
    let (all, i, seen) =
      index_paths-IsIndex (edges_of t) (link_ids t) [] [] index
        (panel_edges-IsSymmetric (panel_port_ids t) t.links (panel_port_ids t)) none_yet found in
    (
      index,
      found,
      record {
        listed = λ x y h k.
            i.listed x y (seen x (ground (arith, h))) (meets-across t x y ∙ k)
              (across-apart t x y k);
        paths = i.paths;
      },
      meets-across t,
    )
