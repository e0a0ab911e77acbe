-- ===== src/LinkConfiguration/Profiles.antt =====
-- Normal profiles.
use wiredraft.Prelude.{
  ℕ, String, Bool, true, false, ◌&&◌, not, List, [], ◌∷◌, ◌≡◌, refl, sym, ap, ◌∙◌, subst, ◌==◌,
  ◌!=◌, ◌↔◌, string_eq, nat_eq, ltb, leb, filter, contains, unique, sort, inl, inr, IsAbove,
  contains-sort, sort-IsAbove, sort_id, unique_id, filter_id, nat_beq_iff, unique-IsDistinct,
  contains-unique, contains-filter, Bool-cases, arith,
}
use wiredraft.LinkConfiguration.{
  Profile, configurable_modes, sorted_set, configurable_mode, tagged_vlans,
  normalize_link_configuration, same_list,
}

same_list_refl : (xs : List ℕ) → same_list xs xs ≡ true
unfolding same_list
same_list_refl [] = refl
same_list_refl (x ∷ xs) = ground (arith, same_list_refl xs)

pub same_list_iff : (xs ys : List ℕ) → (same_list xs ys ≡ true) ↔ (xs ≡ ys)
unfolding same_list
same_list_iff [] [] = ground arith
same_list_iff [] (y ∷ ys) = (λ h. cc, λ h. cc)
same_list_iff (x ∷ xs) [] = (λ h. cc, λ h. cc)
same_list_iff (x ∷ xs) (y ∷ ys) = (
  λ h. cc ((nat_beq_iff x y).0 (ground (arith, h)), (same_list_iff xs ys).0 (ground (arith, h))),
  λ h. subst (λ l. same_list (x ∷ xs) l ≡ true) h (same_list_refl (x ∷ xs)),
)

contains-sorted_set : (xs : List ℕ) (a : ℕ) → contains (sorted_set xs) a ≡ contains xs a
unfolding sorted_set
contains-sorted_set xs a = contains-sort (unique xs) a ∙ contains-unique xs a

sorted_set-IsAbove : (xs : List ℕ) → contains xs 0 ≡ false → IsAbove 0 (sorted_set xs)
unfolding sorted_set
sorted_set-IsAbove xs z = sort-IsAbove (unique xs) (unique-IsDistinct xs) (contains-unique xs 0 ∙ z)

pub sorted_set_id : (xs : List ℕ) → IsAbove 0 xs → sorted_set xs ≡ xs
unfolding sorted_set
sorted_set_id xs h = ap (sort leb) (unique_id 0 xs h) ∙ sort_id 0 xs h

abbrev is_tagged : ℕ → ℕ → Bool
is_tagged native v = ltb 0 v && v != native

-- What the tagged VLANs of a normal profile are.
pub tagged_vlans-IsAbove :
    (mode : String) (native : ℕ) (vs : List ℕ) → IsAbove 0 (tagged_vlans mode native vs)
unfolding tagged_vlans
tagged_vlans-IsAbove mode native vs = elim (Bool-cases (mode == "Access")) [
  | inl e ↦ rw e tt
  | inr e ↦ rw e (
      sorted_set-IsAbove (filter (is_tagged native) vs)
        (ground (arith, contains-filter (is_tagged native) vs 0)))
]

contains-tagged_vlans :
    (mode : String) (native : ℕ) (vs : List ℕ) (v : ℕ)
    → contains (tagged_vlans mode native vs) v
      ≡ (not (mode == "Access") && (contains vs v && is_tagged native v))
unfolding tagged_vlans
contains-tagged_vlans mode native vs v = elim (Bool-cases (mode == "Access")) [
  | inl e ↦ rw e refl
  | inr e ↦ rw e (
      contains-sorted_set (filter (is_tagged native) vs) v
      ∙ contains-filter (is_tagged native) vs v)
]

none_tagged :
    (mode : String) (native : ℕ) (vs : List ℕ)
    → (mode == "Access") ≡ true
    → tagged_vlans mode native vs ≡ []
unfolding tagged_vlans
none_tagged mode native vs e = rw e refl

all_tagged :
    (mode : String) (native : ℕ) (l : List ℕ)
    → (mode == "Access") ≡ false
    → filter (is_tagged native) l ≡ l
    → IsAbove 0 l
    → tagged_vlans mode native l ≡ l
unfolding tagged_vlans
all_tagged mode native l e f h = rw e (ap sorted_set f ∙ sorted_set_id l h)

tagged_again :
    (mode : String) (native : ℕ) (vs : List ℕ)
    → tagged_vlans mode native (tagged_vlans mode native vs) ≡ tagged_vlans mode native vs
tagged_again mode native vs = elim (Bool-cases (mode == "Access")) [
  | inl e ↦
      none_tagged mode native (tagged_vlans mode native vs) e ∙ sym (none_tagged mode native vs e)
  | inr e ↦
      all_tagged mode native (tagged_vlans mode native vs) e
        (filter_id (is_tagged native) (tagged_vlans mode native vs)
          (λ a h. ground (arith, contains-tagged_vlans mode native vs a, h)))
        (tagged_vlans-IsAbove mode native vs)
]

mode_is_configurable : (mode : String) → contains configurable_modes (configurable_mode mode) ≡ true
unfolding configurable_mode
mode_is_configurable mode = elim (Bool-cases (contains configurable_modes mode)) [
  | inl e ↦ rw e e
  | inr e ↦ rw e refl
]

configurable_again :
    (mode : String) → configurable_mode (configurable_mode mode) ≡ configurable_mode mode
unfolding configurable_mode
configurable_again mode = elim (Bool-cases (contains configurable_modes mode)) [
  | inl e ↦ rw e (rw e refl)
  | inr e ↦ rw e refl
]

normalize_again :
    (p : Profile)
    → normalize_link_configuration (normalize_link_configuration p) ≡ normalize_link_configuration p
unfolding normalize_link_configuration
normalize_again p =
    rw
      (
        configurable_again p.mode,
        tagged_again (configurable_mode p.mode) p.native_vlan p.allowed_vlans,
      )
      refl

-- A normal profile has one of the three modes, VLANs in ascending order without repetition, none in
-- access mode, and otherwise exactly those given that are neither 0 nor the native one. Normalizing
-- again changes nothing.
pub normalize_link_configuration_lem :
    (p : Profile)
    → let n = normalize_link_configuration p in
      (normalize_link_configuration n ≡ n)
      × (contains configurable_modes n.mode ≡ true)
      × IsAbove 0 n.allowed_vlans
      × ((v : ℕ)
          → contains n.allowed_vlans v ≡ (
              not (n.mode == "Access")
              && (contains p.allowed_vlans v && (ltb 0 v && v != p.native_vlan))))
unfolding normalize_link_configuration
normalize_link_configuration_lem p = (
  normalize_again p,
  mode_is_configurable p.mode,
  tagged_vlans-IsAbove (configurable_mode p.mode) p.native_vlan p.allowed_vlans,
  contains-tagged_vlans (configurable_mode p.mode) p.native_vlan p.allowed_vlans,
)
