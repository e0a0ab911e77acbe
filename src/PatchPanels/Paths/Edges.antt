-- ===== src/PatchPanels/Paths/Edges.antt =====
-- Which cables the edges join: those at the two sides of one jack of a panel.
use wiredraft.Prelude.{
  String, Bool, true, false, ◌&&◌, ◌||◌, not, List, [], ◌∷◌, ◌++◌, ◌≡◌, refl, sym, ◌∙◌, ◌==◌,
  string_eq, str_iff, if◌then◌else◌, contains, contains-unique, Bool-cases, inl, inr, any, arith,
}
use wiredraft.Topology.{Link}
use wiredraft.PatchPanels.Paths.{
  termination, links_at, edges_from, edges_between, panel_edges, targets_of,
}
use wiredraft.PatchPanels.Paths.Walks.{meets}
use wiredraft.PatchPanels.Paths.Sound.{IsSymmetric}

targets_of-append :
    (edges more : List (String × String)) (x y : String)
    → contains (targets_of (edges ++ more) x) y
      ≡ (contains (targets_of edges x) y || contains (targets_of more x) y)
targets_of-append [] more x y = refl
targets_of-append ((from, to) ∷ edges) more x y = ground (arith, targets_of-append edges more x y)

-- One cable is in the first list and the other in the second, and they are two.
abbrev pub splits : List String → List String → String → String → Bool
splits fronts rears x y =
    not (x == y)
    && ((contains fronts x && contains rears y) || (contains fronts y && contains rears x))

-- Two names of two cables are not the names of one.
two_names :
    (f r x y : String)
    → (f == r) ≡ false
    → (f == x && r == y) ≡ (not (x == y) && (f == x && r == y))
two_names f r x y h = ground (arith, str_iff f r, str_iff f x, str_iff r y, str_iff x y)

eq_swap : (x y : String) → (x == y) ≡ (y == x)
eq_swap x y = ground (arith, str_iff x y, str_iff y x)

one_name : (f x y : String) → (not (x == y) && (f == x && f == y)) ≡ false
one_name f x y = ground (arith, str_iff f x, str_iff f y, str_iff x y)

-- The same for the Boolean values of the tests.
new_edge :
    (a b c d n p q : Bool)
    → (a && b) ≡ (n && (a && b))
    → (d && c) ≡ (n && (d && c))
    → ((a && b)
        || ((c && d)
            || (n && (((if a then true else false) && p) || ((if d then true else false) && q)))))
      ≡ (n
          && (((if a then true else false) && (if b then true else p))
              || ((if d then true else false) && (if c then true else q))))
new_edge a b c d n p q h k = ground arith

no_edge :
    (a d n p q : Bool)
    → (n && (a && d)) ≡ false
    → (n && (((if a then true else false) && p) || ((if d then true else false) && q))) ≡ (
        n
        && (((if a then true else false) && (if d then true else p))
            || ((if d then true else false) && (if a then true else q))))
no_edge a d n p q h = ground arith

targets_of-cons :
    (from to : String) (edges : List (String × String)) (x y : String)
    → contains (targets_of ((from, to) ∷ edges) x) y
      ≡ ((from == x && to == y) || contains (targets_of edges x) y)
targets_of-cons from to edges x y = ground arith

targets_of-edges_from :
    (front : String) (rears : List String) (x y : String)
    → contains (targets_of (edges_from front rears) x) y ≡ splits (front ∷ []) rears x y
targets_of-edges_from front [] x y = ground arith
targets_of-edges_from front (rear ∷ rears) x y =
    let rest = edges_from front rears in
    let ih = targets_of-edges_from front rears x y in
    elim (Bool-cases (front == rear)) [
      | inl same ↦
          let one : front ≡ rear = (str_iff front rear).0 same in
          rw same (
            ih
            ∙ no_edge (front == x) (front == y) (not (x == y)) (contains rears y) (contains rears x)
                (one_name front x y)
            ∙ rw one refl)
      | inr other ↦ rw other (
          targets_of-cons front rear ((rear, front) ∷ rest) x y
          ∙ rw (targets_of-cons rear front rest x y, ih)
              (new_edge (front == x) (rear == y) (rear == x) (front == y) (not (x == y))
                (contains rears y) (contains rears x) (two_names front rear x y other)
                (two_names front rear y x other ∙ rw (eq_swap y x) refl)))
    ]

targets_of-edges_between :
    (fronts rears : List String) (x y : String)
    → contains (targets_of (edges_between fronts rears) x) y ≡ splits fronts rears x y
targets_of-edges_between [] rears x y = ground arith
targets_of-edges_between (front ∷ fronts) rears x y =
    targets_of-append (edges_from front rears) (edges_between fronts rears) x y
    ∙ ground
        (arith, targets_of-edges_from front rears x y, targets_of-edges_between fronts rears x y)

-- The two cables end at the two sides of a jack of a panel.
abbrev pub are_across : List String → List Link → List String → String → String → Bool
are_across panel_ports links port_ids x y =
    any
      (λ port_id.
        splits (links_at panel_ports links (termination port_id "front"))
          (links_at panel_ports links (termination port_id "rear")) x y)
      port_ids

targets_of-panel_edges :
    (panel_ports : List String) (links : List Link) (port_ids : List String) (x y : String)
    → contains (targets_of (panel_edges panel_ports links port_ids) x) y
      ≡ are_across panel_ports links port_ids x y
unfolding panel_edges
targets_of-panel_edges panel_ports links [] x y = refl
targets_of-panel_edges panel_ports links (port_id ∷ port_ids) x y =
    let fronts = links_at panel_ports links (termination port_id "front") in
    let rears = links_at panel_ports links (termination port_id "rear") in
    targets_of-append (edges_between fronts rears) (panel_edges panel_ports links port_ids) x y
    ∙ ground (
      arith,
      targets_of-edges_between fronts rears x y,
      targets_of-panel_edges panel_ports links port_ids x y,
    )

pub meets-panel_edges :
    (panel_ports : List String) (links : List Link) (port_ids : List String) (x y : String)
    → meets (panel_edges panel_ports links port_ids) x y ≡ are_across panel_ports links port_ids x y
meets-panel_edges panel_ports links port_ids x y =
    contains-unique (targets_of (panel_edges panel_ports links port_ids) x) y
    ∙ targets_of-panel_edges panel_ports links port_ids x y

splits-swap :
    (fronts rears : List String) (x y : String) → splits fronts rears x y ≡ splits fronts rears y x
splits-swap fronts rears x y = rw (eq_swap x y) (ground arith)

are_across-swap :
    (panel_ports : List String) (links : List Link) (port_ids : List String) (x y : String)
    → are_across panel_ports links port_ids x y ≡ are_across panel_ports links port_ids y x
are_across-swap panel_ports links [] x y = refl
are_across-swap panel_ports links (port_id ∷ port_ids) x y = ground (
  arith,
  splits-swap (links_at panel_ports links (termination port_id "front"))
      (links_at panel_ports links (termination port_id "rear")) x y,
  are_across-swap panel_ports links port_ids x y,
)

-- No cable meets itself.
pub are_across-same :
    (panel_ports : List String) (links : List Link) (port_ids : List String) (x : String)
    → are_across panel_ports links port_ids x x ≡ false
are_across-same panel_ports links [] x = refl
are_across-same panel_ports links (port_id ∷ port_ids) x =
    ground (arith, str_iff x x, are_across-same panel_ports links port_ids x)

-- The edges go both ways.
pub panel_edges-IsSymmetric :
    (panel_ports : List String) (links : List Link) (port_ids : List String)
    → IsSymmetric (panel_edges panel_ports links port_ids)
panel_edges-IsSymmetric panel_ports links port_ids x y met =
    meets-panel_edges panel_ports links port_ids y x
    ∙ are_across-swap panel_ports links port_ids y x
    ∙ sym (meets-panel_edges panel_ports links port_ids x y)
    ∙ met
