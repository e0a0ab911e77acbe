-- ===== src/Rooms/Connections/Bundles.antt =====
-- What is hidden and what is bundled for collapsed rooms: `roomConnections` of
-- web/static/js/rooms.js.
use mathlib.Core.List.{append_assoc, append-nil}
use wiredraft.Prelude.{
  String, Bool, true, false, ◌&&◌, ◌||◌, not, List, [], ◌∷◌, ◌++◌, map, Option, none, some, ◌==◌,
  ◌≡◌, refl, sym, ◌∙◌, inl, inr, string_eq, str_iff, if◌then◌else◌, is_empty, filter, contains,
  contains-add, any, All, Bool-cases, arith,
}
use wiredraft.Topology.{Topology, Link}
use wiredraft.Rooms.Connections.{
  Home, source_home, target_home, Bundle, Connections, endpoint, add_to_bundle, connect_homes,
  connect_ends, connect_link, connect_links, room_connections,
}

-- The cables under a pair of ends.
abbrev pub ids_under : String → String → List Bundle → List String
ids_under s t [] = []
ids_under s t (bundle ∷ bundles) =
    let rest = ids_under s t bundles in
    if bundle.source == s && bundle.target == t then bundle.link_ids else rest

-- No two bundles have the same ends.
abbrev pub HasEnds : String → String → Bundle → Type 0
HasEnds s t bundle = (bundle.source == s && bundle.target == t) ≡ true

abbrev pub AllDiffer : List Bundle → Type 0
AllDiffer [] = Unit {0}
AllDiffer (bundle ∷ bundles) =
    All (λ other. (other.source == bundle.source && other.target == bundle.target) ≡ false) bundles
    × AllDiffer bundles

ids_under-add :
    (s t a b id : String) (bundles : List Bundle)
    → ids_under s t (add_to_bundle a b id bundles)
      ≡ (if a == s && b == t then ids_under s t bundles ++ id ∷ [] else ids_under s t bundles)
unfolding add_to_bundle
ids_under-add s t a b id [] = refl
ids_under-add s t a b id (bundle ∷ bundles) = ground (
  arith,
  ids_under-add s t a b id bundles,
  str_iff bundle.source a,
  str_iff bundle.target b,
  str_iff bundle.source s,
  str_iff bundle.target t,
  str_iff a s,
  str_iff b t,
)

differ-add :
    (s t a b id : String) (bundles : List Bundle)
    → (a == s && b == t) ≡ false
    → All (λ other. (other.source == s && other.target == t) ≡ false) bundles
    → All (λ other. (other.source == s && other.target == t) ≡ false) (add_to_bundle a b id bundles)
unfolding add_to_bundle
differ-add s t a b id [] other h = (other, tt)
differ-add s t a b id (bundle ∷ bundles) other h =
    elim (Bool-cases (bundle.source == a && bundle.target == b)) [
      | inl same ↦ rw same h
      | inr another ↦ rw another (h.0, differ-add s t a b id bundles other h.1)
    ]

AllDiffer-add :
    (a b id : String) (bundles : List Bundle)
    → AllDiffer bundles
    → AllDiffer (add_to_bundle a b id bundles)
unfolding add_to_bundle
AllDiffer-add a b id [] h = (tt, tt)
AllDiffer-add a b id (bundle ∷ bundles) h =
    elim (Bool-cases (bundle.source == a && bundle.target == b)) [
      | inl same ↦ rw same h
      | inr another ↦ rw another (
        differ-add bundle.source bundle.target a b id bundles
            (ground (
              arith,
              str_iff a bundle.source,
              str_iff bundle.source a,
              str_iff b bundle.target,
              str_iff bundle.target b,
            ))
            h.0,
        AllDiffer-add a b id bundles h.1,
      )
    ]

module _ (before : String → String → Bool) (t : Topology) (collapsed : List String) where
  -- A cable touches a collapsed room.
  abbrev pub touches : Home → Home → Bool
  touches source target = contains collapsed source.room_id || contains collapsed target.room_id

  abbrev pub is_inner : Home → Home → Bool
  is_inner source target = not (is_empty source.room_id) && source.room_id == target.room_id

  abbrev pub joins_homes : String → String → Home → Home → Bool
  joins_homes s e source target =
      let a = endpoint collapsed source in
      let b = endpoint collapsed target in
      touches source target
      && not (is_inner source target)
      && (if before a b then a == s && b == e else b == s && a == e)

  -- Of a cable with its two ends: whether it is hidden, and whether it goes under two given ends.
  abbrev pub hides_ends : Option Home → Option Home → Bool
  hides_ends none target = false
  hides_ends (some source) none = false
  hides_ends (some source) (some target) = touches source target

  abbrev pub joins_ends : String → String → Option Home → Option Home → Bool
  joins_ends s e none target = false
  joins_ends s e (some source) none = false
  joins_ends s e (some source) (some target) = joins_homes s e source target

  abbrev pub hides : Link → Bool
  hides link = hides_ends (source_home t link) (target_home t link)

  abbrev pub joins : String → String → Link → Bool
  joins s e link = joins_ends s e (source_home t link) (target_home t link)

  connect_homes-ids :
      (s e id : String) (source target : Home) (c : Connections)
      → ids_under s e (connect_homes before collapsed id source target c).bundles
        ≡ ids_under s e c.bundles ++ (if joins_homes s e source target then id ∷ [] else [])
  unfolding connect_homes
  connect_homes-ids s e id source target c =
      let a = endpoint collapsed source in
      let b = endpoint collapsed target in
      ground (
        arith,
        ids_under-add s e a b id c.bundles,
        ids_under-add s e b a id c.bundles,
        append-nil (ids_under s e c.bundles),
      )

  connect_homes-hidden :
      (id other : String) (source target : Home) (c : Connections)
      → contains (connect_homes before collapsed id source target c).hidden_link_ids other
        ≡ (contains c.hidden_link_ids other || (touches source target && id == other))
  unfolding connect_homes
  connect_homes-hidden id other source target c =
      ground (arith, contains-add c.hidden_link_ids id other)

  connect_homes-AllDiffer :
      (id : String) (source target : Home) (c : Connections)
      → AllDiffer c.bundles
      → AllDiffer (connect_homes before collapsed id source target c).bundles
  unfolding connect_homes
  connect_homes-AllDiffer id source target c h =
      let a = endpoint collapsed source in
      let b = endpoint collapsed target in
      ground (arith, AllDiffer-add a b id c.bundles h, AllDiffer-add b a id c.bundles h)

  connect_ends-ids :
      (s e id : String) (source target : Option Home) (c : Connections)
      → ids_under s e (connect_ends before collapsed id source target c).bundles
        ≡ ids_under s e c.bundles ++ (if joins_ends s e source target then id ∷ [] else [])
  unfolding connect_ends
  connect_ends-ids s e id none target c = sym (append-nil _)
  connect_ends-ids s e id (some source) none c = sym (append-nil _)
  connect_ends-ids s e id (some source) (some target) c = connect_homes-ids s e id source target c

  connect_ends-hidden :
      (id other : String) (source target : Option Home) (c : Connections)
      → contains (connect_ends before collapsed id source target c).hidden_link_ids other
        ≡ (contains c.hidden_link_ids other || (hides_ends source target && id == other))
  unfolding connect_ends
  connect_ends-hidden id other none target c = ground arith
  connect_ends-hidden id other (some source) none c = ground arith
  connect_ends-hidden id other (some source) (some target) c =
      connect_homes-hidden id other source target c

  connect_ends-AllDiffer :
      (id : String) (source target : Option Home) (c : Connections)
      → AllDiffer c.bundles
      → AllDiffer (connect_ends before collapsed id source target c).bundles
  unfolding connect_ends
  connect_ends-AllDiffer id none target c h = h
  connect_ends-AllDiffer id (some source) none c h = h
  connect_ends-AllDiffer id (some source) (some target) c h =
      connect_homes-AllDiffer id source target c h

  connect_links-ids :
      (s e : String) (links : List Link) (c : Connections)
      → ids_under s e (connect_links before t collapsed links c).bundles
        ≡ ids_under s e c.bundles ++ map (λ link. link.id) (filter (joins s e) links)
  unfolding connect_links connect_link
  connect_links-ids s e [] c = sym (append-nil _)
  connect_links-ids s e (link ∷ links) c =
      let next = connect_link before t collapsed link c in
      connect_links-ids s e links next
      ∙ rw (connect_ends-ids s e link.id (source_home t link) (target_home t link) c)
          (elim (Bool-cases (joins s e link)) [
            | inl hit ↦ rw hit (append_assoc (ids_under s e c.bundles) (link.id ∷ []) _)
            | inr missed ↦ rw (missed, append-nil) refl
          ])

  connect_links-hidden :
      (other : String) (links : List Link) (c : Connections)
      → contains (connect_links before t collapsed links c).hidden_link_ids other
        ≡ (contains c.hidden_link_ids other || any (λ link. hides link && link.id == other) links)
  unfolding connect_links connect_link
  connect_links-hidden other [] c = ground arith
  connect_links-hidden other (link ∷ links) c =
      let next = connect_link before t collapsed link c in
      connect_links-hidden other links next
      ∙ rw (connect_ends-hidden link.id other (source_home t link) (target_home t link) c)
          (ground arith)

  connect_links-AllDiffer :
      (links : List Link) (c : Connections)
      → AllDiffer c.bundles
      → AllDiffer (connect_links before t collapsed links c).bundles
  unfolding connect_links connect_link
  connect_links-AllDiffer [] c h = h
  connect_links-AllDiffer (link ∷ links) c h =
      connect_links-AllDiffer links _ (connect_ends-AllDiffer link.id _ _ c h)

  -- A cable is hidden exactly if it has both ends on the map and touches a collapsed room. The
  -- cables under two ends are, in the order of the map, exactly the hidden ones that do not stay
  -- within one room and whose ends these are, sorted: a collapsed room, or a device. No two bundles
  -- have the same ends.
  pub room_connections_lem :
      (s e id : String)
      → (contains (room_connections before t collapsed).hidden_link_ids id
          ≡ any (λ link. hides link && link.id == id) t.links)
        × (ids_under s e (room_connections before t collapsed).bundles
            ≡ map (λ link. link.id) (filter (joins s e) t.links))
        × AllDiffer (room_connections before t collapsed).bundles
  unfolding room_connections
  room_connections_lem s e id = (
    connect_links-hidden id t.links _,
    connect_links-ids s e t.links _,
    connect_links-AllDiffer t.links _ tt,
  )
