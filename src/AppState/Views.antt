-- ===== src/AppState/Views.antt =====
-- Which racks are drawn from both sides: the sets of `emit` and `setRackDualFace` of
-- web/static/js/state.js.
use wiredraft.Prelude.{
  String, Bool, true, false, ◌&&◌, ◌||◌, not, List, [], ◌∷◌, ◌≡◌, refl, sym, ap, ◌==◌, string_eq,
  nat_eq, if◌then◌else◌, is_empty, all, contains, add, length, arith, str_iff, Bool-cases, inl, inr,
  contains-add, length-append, length-filter,
}
use wiredraft.AppState.{AppState, open_new, emit, automatic_racks, delete}
use wiredraft.AppState.Displays.{set_dual, set_rack_dual_face, is_rack_dual_face}

contains-open_new :
    (known dual ids : List String) (a : String)
    → contains (open_new known dual ids) a
      ≡ (contains dual a || (contains ids a && not (contains known a)))
unfolding open_new
contains-open_new known dual [] a = ground arith
contains-open_new known dual (x ∷ ids) a =
    let rest = contains-open_new known (if contains known x then dual else add dual x) ids a in
    elim (Bool-cases (x == a)) [
      | inl e ↦ ground (arith, rest, contains-add dual x a, str_iff x a)
      | inr e ↦ ground (arith, rest, contains-add dual x a)
    ]

-- A change of the map opens both sides of exactly the racks that were open and of those that have
-- equipment on both sides now and had not at the last change; so a rack that the user closed stays
-- closed while its equipment stays on both sides. The remembered set is then the present one.
pub emit-dual_face :
    (s : AppState) (rack_id : String)
    → (is_rack_dual_face rack_id (emit "topology" s) ≡ (
        is_rack_dual_face rack_id s
        || (contains (automatic_racks s.topology) rack_id
            && not (contains s.automatic_dual_face_rack_ids rack_id))))
      × ((emit "topology" s).automatic_dual_face_rack_ids ≡ automatic_racks s.topology)
unfolding emit
emit-dual_face s rack_id = (
  contains-open_new s.automatic_dual_face_rack_ids s.dual_face_rack_ids (automatic_racks s.topology)
      rack_id,
  refl,
)

contains-delete :
    (s : List String) (x a : String) → contains (delete s x) a ≡ (contains s a && not (x == a))
contains-delete [] x a = refl
contains-delete (y ∷ s) x a = elim (Bool-cases (y == x)) [
  | inl e ↦ ground (arith, contains-delete s x a, str_iff y x, str_iff y a, str_iff x a)
  | inr e ↦ ground (arith, contains-delete s x a, str_iff y x, str_iff y a, str_iff x a)
]

delete-whole : (s : List String) (x : String) → length (delete s x) ≡ length s → delete s x ≡ s
delete-whole [] x h = refl
delete-whole (y ∷ s) x h = elim (Bool-cases (y == x)) [
  | inl e ↦ absurd (ground (arith, length-filter (λ z. not (z == x)) s))
  | inr e ↦ rw e (ap (λ t. y ∷ t) (delete-whole s x (ground arith)))
]

-- Where a set of the same size is the set at hand, `set_dual` makes its argument the set.
set_dual-next :
    (next : List String) (s : AppState)
    → (length next ≡ length s.dual_face_rack_ids → next ≡ s.dual_face_rack_ids)
    → (set_dual next s).dual_face_rack_ids ≡ next
unfolding set_dual emit
set_dual-next next s same =
    elim (Bool-cases
      (length next == length s.dual_face_rack_ids && all (contains s.dual_face_rack_ids) next)) [
        | inl e ↦ rw e (sym (same (ground arith)))
        | inr e ↦ rw e refl
      ]

add-whole : (s : List String) (x : String) → length (add s x) ≡ length s → add s x ≡ s
add-whole s x h = elim (Bool-cases (contains s x)) [
  | inl e ↦ rw e refl
  | inr e ↦ absurd (ground (arith, length-append s (x ∷ [])))
]

-- `setRackDualFace` of a rack with an id opens or closes that rack as it is told, and no other,
-- whether or not it skips the change of an equal set.
pub is_rack_dual_face-set_rack_dual_face :
    (rack_id : String) (expanded : Bool) (s : AppState) (other : String)
    → is_empty rack_id ≡ false
    → is_rack_dual_face other (set_rack_dual_face rack_id expanded s)
      ≡ (if rack_id == other then expanded else is_rack_dual_face other s)
unfolding set_rack_dual_face
is_rack_dual_face-set_rack_dual_face rack_id true s other h =
    rw
      (
        h,
        set_dual-next _ s (add-whole s.dual_face_rack_ids rack_id),
        contains-add s.dual_face_rack_ids rack_id other,
      )
      (ground arith)
is_rack_dual_face-set_rack_dual_face rack_id false s other h =
    rw
      (
        h,
        set_dual-next _ s (delete-whole s.dual_face_rack_ids rack_id),
        contains-delete s.dual_face_rack_ids rack_id other,
      )
      (ground arith)
