-- ===== src/PatchPanels/Paths/Index.antt =====
-- The index of paths: its entries are the cables that a signal reaches.
use wiredraft.Prelude.{
  suc, String, true, false, ◌||◌, List, [], ◌∷◌, none, some, ◌≡◌, refl, sym, subst, ◌∙◌, ◌==◌,
  string_eq, contains, length, Bool-cases, Option-cases, inl, inr, arith, str_iff, same_value,
}
use wiredraft.PatchPanels.Paths.{Walk, search, PathIndex, path_of, index_paths}
use wiredraft.PatchPanels.Paths.Walks.{meets, IsWalk, search-IsWalk}
use wiredraft.PatchPanels.Paths.Sound.{
  Joined, here, onward, IsSymmetric, Joined-trans, Joined-sym, from_cable, search-IsFrom,
  search-IsSeen,
}
use wiredraft.PatchPanels.Paths.Entries.{
  indexed_by, indexed_by-entries, IsIndexed, indexed_by-old, indexed_by-new,
}

-- The list has exactly the cables that one comes to from this one.
abbrev pub IsPath : List (String × String) → String → List String → Type 0
IsPath edges x component =
    (y : String)
    → (contains component y ≡ true → Joined edges x y)
      × (Joined edges x y → contains component y ≡ true)

-- The state of the outer loop: the visited cables have all that meets them, each entry is the path
-- of its cable, and a visited cable that meets another has an entry.
pub record IsIndex (edges : List (String × String)) (visited : List String) (index : PathIndex)
    : Type 0 where
  pub shut :
      (x y : String)
      → contains visited x ≡ true
      → meets edges x y ≡ true
      → contains visited y ≡ true
  pub paths :
      (x : String) (component : List String)
      → path_of index x ≡ some component
      → IsPath edges x component
  pub listed :
      (x y : String)
      → contains visited x ≡ true
      → meets edges x y ≡ true
      → (x == y) ≡ false
      → IsIndexed index x

module _ (edges : List (String × String)) (both : IsSymmetric edges) where
  module _ (visited : List String) (index : PathIndex) (walk : Walk)
      (i : IsIndex edges visited index) (w : IsWalk edges visited walk)
      (p : walk.pending ≡ []) where
    -- A walk that has ended has found all that meets what it found.
    found_all :
        (x y : String)
        → contains walk.component x ≡ true
        → meets edges x y ≡ true
        → contains walk.component y ≡ true
    found_all x y h k = elim (Bool-cases (contains visited y)) [
      | inl v ↦
          let again : contains visited x ≡ true = i.shut y x v (both x y k) in
          absurd (ground (arith, again, w.apart x h))
      | inr v ↦
          let met : (contains walk.component y || false || contains visited y) ≡ true =
            subst
              (λ pending.
                (contains walk.component y || contains pending y || contains visited y) ≡ true)
              p (w.closed x y h k) in
          ground (arith, met, v)
    ]

    found-Joined :
        (x y : String)
        → contains walk.component x ≡ true
        → Joined edges x y
        → contains walk.component y ≡ true
    found-Joined x y h here = h
    found-Joined x y h (onward {x = z} k met) = found_all z y (found-Joined x z h k) met

    newly_visited :
        (x : String)
        → contains walk.visited x ≡ true
        → contains visited x ≡ false
        → contains walk.component x ≡ true
    newly_visited x h v =
        let found : (contains visited x || contains walk.component x) ≡ true =
          sym (w.split x) ∙ h in
        ground (arith, found, v)

    step-IsIndex :
        (id : String)
        → ((y : String) → contains walk.component y ≡ true → Joined edges id y)
        → IsIndex edges walk.visited (indexed_by walk index)
    step-IsIndex id from = record {
      shut = λ x y h k. elim (Bool-cases (contains visited x)) [
        | inl v ↦ ground (arith, i.shut x y v k, w.split y)
        | inr v ↦ ground (arith, found_all x y (newly_visited x h v) k, w.split y)
      ];
      paths =
          indexed_by-entries (IsPath edges) walk index
            (λ x h y. (
              λ k. Joined-trans edges (Joined-sym edges both (from x h)) (from y k),
              found-Joined x y h,
            ))
            i.paths;
      listed = λ x y h k apart. elim (Bool-cases (contains visited x)) [
        | inl v ↦ indexed_by-old walk index x (i.listed x y v k apart)
        | inr v ↦
            let new = newly_visited x h v in
            indexed_by-new walk index x y new (found_all x y new k) apart
      ];
    }

starts-IsWalk :
    (edges : List (String × String)) (visited : List String) (id : String)
    → IsWalk edges visited (from_cable edges visited id)
starts-IsWalk edges visited id = record {
  split = λ x. ground arith;
  apart = λ x h. absurd (ground (arith, h));
  closed = λ x y h k. absurd (ground (arith, h));
}

index_paths-skip :
    (edges : List (String × String)) (id : String) (ids visited : List String) (index : PathIndex)
    (walk : Walk)
    → search edges (suc (length edges)) (from_cable edges visited id) ≡ some walk
    → contains visited id ≡ true
    → index_paths edges (id ∷ ids) visited index ≡ index_paths edges ids visited index
unfolding index_paths
index_paths-skip edges id ids visited index walk found e = rw (found, index_paths) rw e refl

index_paths-search :
    (edges : List (String × String)) (id : String) (ids visited : List String) (index : PathIndex)
    (walk : Walk)
    → search edges (suc (length edges)) (from_cable edges visited id) ≡ some walk
    → contains visited id ≡ false
    → index_paths edges (id ∷ ids) visited index
      ≡ index_paths edges ids walk.visited (indexed_by walk index)
unfolding index_paths
index_paths-search edges id ids visited index walk found e = rw (found, index_paths) rw e refl

index_paths-none :
    (edges : List (String × String)) (id : String) (ids visited : List String) (index : PathIndex)
    → search edges (suc (length edges)) (from_cable edges visited id) ≡ none
    → index_paths edges (id ∷ ids) visited index ≡ none
unfolding index_paths
index_paths-none edges id ids visited index found = rw (found, index_paths) refl

skipped_seen :
    (id : String) (ids visited : List String) (x : String)
    → contains visited id ≡ true
    → (contains visited x || contains (id ∷ ids) x) ≡ true
    → (contains visited x || contains ids x) ≡ true
skipped_seen id ids visited x e k = elim (Bool-cases (id == x)) [
  | inl same ↦
      let old : contains visited x ≡ true =
        subst (λ z. contains visited z ≡ true) ((str_iff id x).0 same) e in
      ground (arith, old)
  | inr other ↦ ground (arith, k, other)
]

-- The outer loop ends with the paths of all the cables that were visited, and visits every cable.
pub index_paths-IsIndex :
    (edges : List (String × String)) (ids visited : List String) (index done : PathIndex)
    → IsSymmetric edges
    → IsIndex edges visited index
    → index_paths edges ids visited index ≡ some done
    → (all : List String) × IsIndex edges all done
      × ((x : String) → (contains visited x || contains ids x) ≡ true → contains all x ≡ true)
unfolding index_paths
index_paths-IsIndex edges [] visited index done both i h =
    (visited, subst (IsIndex edges visited) (same_value h) i, λ x k. ground (arith, k))
index_paths-IsIndex edges (id ∷ ids) visited index done both i h =
    let start = from_cable edges visited id in
    elim (Option-cases (search edges (suc (length edges)) start)) [
      | inl found ↦
          let bad : none ≡ some done =
            sym (index_paths-none edges id ids visited index found) ∙ h in
          cc
      | inr (walk, found) ↦ elim (Bool-cases (contains visited id)) [
        | inl e ↦
            let (all, done_index, seen) =
              index_paths-IsIndex edges ids visited index done both i
                (sym (index_paths-skip edges id ids visited index walk found e) ∙ h) in
            (all, done_index, λ x k. seen x (skipped_seen id ids visited x e k))
        | inr e ↦
            let (w, p) =
              search-IsWalk edges visited (suc (length edges)) start walk
                (starts-IsWalk edges visited id) found in
            let (all, done_index, seen) =
              index_paths-IsIndex edges ids walk.visited (indexed_by walk index) done both
                (step-IsIndex edges both visited index walk i w p id
                  (search-IsFrom edges visited id (suc (length edges)) walk found))
                (sym (index_paths-search edges id ids visited index walk found e) ∙ h) in
            let first : contains walk.visited id ≡ true =
              search-IsSeen edges visited id (suc (length edges)) walk found in
            (
              all,
              done_index,
              λ x k. seen x (elim (Bool-cases (id == x)) [
                | inl same ↦
                    let there : contains walk.visited x ≡ true =
                      subst (λ z. contains walk.visited z ≡ true) ((str_iff id x).0 same) first in
                    ground (arith, there)
                | inr other ↦ ground (arith, k, other, w.split x)
              ]),
            )
      ]
    ]
