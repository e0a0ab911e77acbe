-- ===== src/PatchPanels/Paths/Rounds.antt =====
-- The rounds of a search run out: a round shortens the stack, or visits a cable for the first time.
use wiredraft.Prelude.{
  ℕ, zero, suc, String, false, List, [], ◌∷◌, ◌++◌, some, ◌+◌, ◌≤◌, ◌<◌, ◌≡◌, refl, ap, ◌==◌,
  string_eq, if◌then◌else◌, contains, length, map, ltb, Bool-cases, List-cases, inl, inr, arith,
  str_iff, contains-append, length-add_all, ltb,
}
use wiredraft.Topology.{Topology, Link}
use wiredraft.PatchPanels.Paths.{
  targets_of, neighbours, push_all, Walk, visit, search, PathIndex, set_all, index_paths,
  patch_panel_path_index, panel_edges, panel_port_ids,
}

-- The edges from cables that are not yet visited.
abbrev unseen : List String → List (String × String) → ℕ
unseen visited [] = 0
unseen visited ((from, to) ∷ edges) =
    let rest = unseen visited edges in if contains visited from then rest else suc rest

unseen_add :
    (visited : List String) (id : String) (edges : List (String × String))
    → contains visited id ≡ false
    → unseen (visited ++ id ∷ []) edges + length (targets_of edges id) ≡ unseen visited edges
unseen_add visited id [] h = refl
unseen_add visited id ((from, to) ∷ edges) h = elim (Bool-cases (from == id)) [
  | inl e ↦ ground (
    arith,
    unseen_add visited id edges h,
    contains-append visited (id ∷ []) from,
    str_iff from id,
    str_iff id from,
  )
  | inr e ↦ ground (
    arith,
    unseen_add visited id edges h,
    contains-append visited (id ∷ []) from,
    str_iff from id,
    str_iff id from,
  )
]

unseen_bound :
    (edges : List (String × String)) (visited : List String) → unseen visited edges ≤ length edges
unseen_bound [] visited = omega arith
unseen_bound ((from, to) ∷ edges) visited = ground (arith, unseen_bound edges visited)

length-push_all :
    (ids pending : List String) → length (push_all ids pending) ≡ length ids + length pending
unfolding push_all
length-push_all [] pending = omega arith
length-push_all (id ∷ ids) pending = omega (arith, length-push_all ids (id ∷ pending))

abbrev rounds_left : List (String × String) → Walk → ℕ
rounds_left edges s = length s.pending + unseen s.visited edges

visit-rounds_left :
    (edges : List (String × String)) (id : String) (rest : List String) (s : Walk)
    → s.pending ≡ id ∷ rest
    → rounds_left edges (visit edges id rest s) < rounds_left edges s
unfolding visit
visit-rounds_left edges id rest s h = elim (Bool-cases (contains s.visited id)) [
  | inl e ↦ rw e (omega (arith, ap length h))
  | inr e ↦ rw e (
      omega (
        arith,
        ap length h,
        unseen_add s.visited id edges e,
        length-push_all (neighbours edges id) rest,
        length-add_all [] (targets_of edges id),
      ))
]

search_enough :
    (edges : List (String × String)) (fuel : ℕ) (s : Walk)
    → rounds_left edges s ≤ fuel
    → (walk : Walk) × (search edges fuel s ≡ some walk)
unfolding search
search_enough edges zero s h = elim (List-cases s.pending) [
  | inl e ↦ (s, rw e refl)
  | inr (id, rest, e) ↦ absurd (omega (arith, ap length e))
]
search_enough edges (suc fuel) s h = elim (List-cases s.pending) [
  | inl e ↦ (s, rw e refl)
  | inr (id, rest, e) ↦
      let (walk, found) =
        search_enough edges fuel (visit edges id rest s)
          (omega (arith, h, visit-rounds_left edges id rest s e)) in
      (walk, rw e found)
]

index_paths_total :
    (edges : List (String × String)) (ids visited : List String) (index : PathIndex)
    → (done : PathIndex) × (index_paths edges ids visited index ≡ some done)
unfolding index_paths
index_paths_total edges [] visited index = (index, refl)
index_paths_total edges (id ∷ ids) visited index =
    let start : Walk = record { visited = visited; component = []; pending = id ∷ [] } in
    let (walk, found) =
      search_enough edges (suc (length edges)) start (omega (arith, unseen_bound edges visited)) in
    elim (Bool-cases (contains visited id)) [
      | inl e ↦
          let (done, h) = index_paths_total edges ids visited index in
          (done, rw (found, index_paths) rw e h)
      | inr e ↦
          let (done, h) = index_paths_total edges ids walk.visited (
            if ltb (length walk.component) 2
            then index
            else set_all walk.component walk.component index) in
          (done, rw (found, index_paths) rw e h)
    ]

-- Every document has its index: on any cables and panels, each search ends within one more round
-- than there are edges, and no search is left out.
pub patch_panel_path_index_total :
    (t : Topology) → (index : PathIndex) × (patch_panel_path_index t ≡ some index)
unfolding patch_panel_path_index
patch_panel_path_index_total t =
    index_paths_total (panel_edges (panel_port_ids t) t.links (panel_port_ids t))
      (map (λ (link : Link). link.id) t.links) [] []
