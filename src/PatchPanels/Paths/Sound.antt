-- ===== src/PatchPanels/Paths/Sound.antt =====
-- A search finds the cable that it starts from, and only cables that the signal reaches from it.
use wiredraft.Prelude.{
  ℕ, String, true, false, ◌||◌, List, [], ◌∷◌, some, ◌≡◌, sym, subst, ◌==◌, string_eq, contains,
  add, Bool-cases, inl, inr, arith, str_iff, contains-add,
}
use wiredraft.PatchPanels.Paths.{neighbours, push_all, Walk, visit, search}
use wiredraft.PatchPanels.Paths.Walks.{
  meets, contains-push_all, visit-old, visit-new, search_invariant,
}

-- One cable leads to the other over cables that meet.
pub data Joined (edges : List (String × String)) (from : String) : String → Type 0 where
  here : Joined edges from from
  onward : {x y : String} → Joined edges from x → meets edges x y ≡ true → Joined edges from y

abbrev pub IsSymmetric : List (String × String) → Type 0
IsSymmetric edges = (x y : String) → meets edges x y ≡ true → meets edges y x ≡ true

module _ (edges : List (String × String)) where
  pub Joined-trans : {x y z : String} → Joined edges x y → Joined edges y z → Joined edges x z
  Joined-trans h here = h
  Joined-trans h (onward k met) = onward (Joined-trans h k) met

  pub Joined-sym : IsSymmetric edges → {x y : String} → Joined edges x y → Joined edges y x
  Joined-sym both here = here
  Joined-sym both (onward {x} {y} h met) =
      Joined-trans (onward here (both x y met)) (Joined-sym both h)

  -- All that a walk has found or has still to visit is joined to its first cable.
  abbrev IsFrom : String → Walk → Type 0
  IsFrom start s =
      (y : String) → (contains s.component y || contains s.pending y) ≡ true → Joined edges start y

  module _ (start id : String) (rest : List String) (s : Walk)
      (w : (y : String)
        → (contains s.component y || contains (id ∷ rest) y) ≡ true
        → Joined edges start y) where
    old-IsFrom : IsFrom start (record s { pending = rest })
    old-IsFrom y h = w y (ground (arith, h))

    new-IsFrom : IsFrom start (record {
      visited = add s.visited id;
      component = add s.component id;
      pending = push_all (neighbours edges id) rest;
    })
    new-IsFrom y h =
        let root : Joined edges start id = w id (ground (arith, str_iff id id)) in
        elim (Bool-cases (meets edges id y)) [
          | inl met ↦ onward root met
          | inr apart ↦ elim (Bool-cases (id == y)) [
            | inl same ↦ subst (Joined edges start) ((str_iff id y).0 same) root
            | inr other ↦ w y (
                ground (
                  arith,
                  h,
                  contains-add s.component id y,
                  contains-push_all (neighbours edges id) rest y,
                ))
          ]
        ]

  visit-IsFrom :
      (start id : String) (rest : List String) (s : Walk)
      → s.pending ≡ id ∷ rest
      → IsFrom start s
      → IsFrom start (visit edges id rest s)
  visit-IsFrom start id rest s p w =
      let w' : (y : String)
          → (contains s.component y || contains (id ∷ rest) y) ≡ true
          → Joined edges start y =
        λ y h.
          w y
            (subst (λ pending. (contains s.component y || contains pending y) ≡ true) (sym p) h) in
      elim (Bool-cases (contains s.visited id)) [
        | inl e ↦
            subst (IsFrom start) (sym (visit-old edges id rest s e)) (old-IsFrom start id rest s w')
        | inr e ↦
            subst (IsFrom start) (sym (visit-new edges id rest s e)) (new-IsFrom start id rest s w')
      ]

  -- The cable that a search starts from is visited when it ends.
  abbrev IsSeen : String → Walk → Type 0
  IsSeen start s = (contains s.visited start || contains s.pending start) ≡ true

  visit-IsSeen :
      (start id : String) (rest : List String) (s : Walk)
      → s.pending ≡ id ∷ rest
      → IsSeen start s
      → IsSeen start (visit edges id rest s)
  visit-IsSeen start id rest s p w =
      let w' : (contains s.visited start || contains (id ∷ rest) start) ≡ true =
        subst (λ pending. (contains s.visited start || contains pending start) ≡ true) p w in
      elim (Bool-cases (contains s.visited id)) [
        | inl e ↦
            subst (IsSeen start) (sym (visit-old edges id rest s e))
              (elim (Bool-cases (id == start)) [
                | inl same ↦
                    let here : contains s.visited start ≡ true =
                      subst (λ z. contains s.visited z ≡ true) ((str_iff id start).0 same) e in
                    ground (arith, here)
                | inr other ↦ ground (arith, w', other)
              ])
        | inr e ↦ subst (IsSeen start) (sym (visit-new edges id rest s e)) (
            ground (
              arith,
              w',
              contains-add s.visited id start,
              contains-push_all (neighbours edges id) rest start,
            ))
      ]

  module _ (visited : List String) (id : String) where
    abbrev pub from_cable : Walk
    from_cable = record { visited = visited; component = []; pending = id ∷ [] }

    pub search-IsFrom :
        (fuel : ℕ) (walk : Walk)
        → search edges fuel from_cable ≡ some walk
        → (y : String) → contains walk.component y ≡ true
        → Joined edges id y
    search-IsFrom fuel walk h y k =
        (search_invariant edges (IsFrom id) (visit-IsFrom id) fuel from_cable walk
            (λ y k. subst (Joined edges id) ((str_iff id y).0 (ground (arith, k))) here) h).0
          y (ground (arith, k))

    pub search-IsSeen :
        (fuel : ℕ) (walk : Walk)
        → search edges fuel from_cable ≡ some walk
        → contains walk.visited id ≡ true
    search-IsSeen fuel walk h =
        let (seen, p) =
          search_invariant edges (IsSeen id) (visit-IsSeen id) fuel from_cable walk
            (ground (arith, str_iff id id)) h in
        let last : (contains walk.visited id || false) ≡ true =
          subst (λ pending. (contains walk.visited id || contains pending id) ≡ true) p seen in
        ground (arith, last)
