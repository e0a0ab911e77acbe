-- ===== src/PatchPanels/Channels/Cover.antt =====
-- The channels of a plan share out its runs.
use Prim.Native.String.{count}
use native.Mathlib.Nat.{div-mul-le_self, lt-div-mul-add, le-div_iff_mul-le}
use wiredraft.Prelude.{
  ℕ, zero, suc, String, true, false, not, [], ◌∷◌, some, ◌+◌, ◌-◌, ◌/◌, ◌≤◌, ◌<◌, ◌≡◌, refl, ap,
  ◌∙◌, subst, ◌==◌, string_eq, nat_eq, ltb, if◌then◌else◌, is_empty, contains, trim, to_lower,
  get_elem?, ok, returned_before, passed_test, returned_value, Bool-cases, arith, inl, inr, str_iff,
}
use wiredraft.Topology.{Device, Port}
use wiredraft.PatchPanels.{
  bad_channel_type, no_channel_id, bad_channel_id, long_channel_name, panel_cable_type,
}
use wiredraft.PatchPanels.Channels.{
  ChannelInput, Channel, ChannelPlan, Grouping, all_runs, strands, unreadable,
  rear_channel_group_sizes, rear_channel_group_size, ceil_div, from_indices, tag_of, channel_at,
  plan_channels, plan_requested, rear_channel_plan, is_version_4_uuid, resolved_type,
  base_channel_name, no_channels,
}

get_elem?-from_indices :
    {A : Type 0} (f : ℕ → A) (n first i : ℕ)
    → i < n
    → get_elem? (from_indices f n first) i ≡ some (f (first + i))
unfolding from_indices
get_elem?-from_indices f zero first i h = absurd (omega arith)
get_elem?-from_indices f (suc n) first zero h = ap (λ x. some (f x)) (omega arith)
get_elem?-from_indices f (suc n) first (suc i) h =
    get_elem?-from_indices f n (suc first) i (omega arith) ∙ ap (λ x. some (f x)) (omega arith)

index-lt-ceil_div : (i n size : ℕ) → 0 < size → i < n → i / size < ceil_div n size
unfolding ceil_div
index-lt-ceil_div i n size p h = (le-div_iff_mul-le p).1 (omega (arith, div-mul-le_self i size))

-- The channel has the run with the index among its members.
pub record HasRun (c : Channel) (first i : ℕ) : Type 0 where
  pub starts : c.member_start_index ≤ i
  pub ends : i ≤ c.member_end_index
  pub source : c.source_start ≡ first + c.member_start_index
  pub counted : c.member_count + c.member_start_index ≡ c.member_end_index + 1
  pub type : contains ("tube" ∷ "discrete" ∷ []) c.type ≡ true

channel_at-HasRun :
    (id name type : String) (first n size i : ℕ)
    → 0 < size
    → i < n
    → contains ("tube" ∷ "discrete" ∷ []) type ≡ true
    → HasRun (channel_at id name type first n size (i / size)) first i
unfolding channel_at
channel_at-HasRun id name type first n size i p h t = record {
  starts = div-mul-le_self i size;
  ends = omega (arith, div-mul-le_self i size, lt-div-mul-add {a = i} p);
  source = refl;
  counted = omega (arith, div-mul-le_self i size, lt-div-mul-add {a = i} p);
  type = t;
}

-- The run is tagged with a channel of the plan that has it.
abbrev pub IsCovered : ChannelPlan → ℕ → ℕ → Type 0
IsCovered plan first i =
    (k : ℕ) × (c : Channel) × (get_elem? plan.channels k ≡ some c)
    × (get_elem? plan.metadata_by_link i ≡ some (tag_of (some c)))
    × HasRun c first i

plan_channels-IsCovered :
    (id name type : String) (first n size i : ℕ)
    → 0 < size
    → i < n
    → contains ("tube" ∷ "discrete" ∷ []) type ≡ true
    → IsCovered (plan_channels id name type first n size) first i
unfolding plan_channels
plan_channels-IsCovered id name type first n size i p h t =
    let make = channel_at id name type first n size in
    let found : get_elem? (from_indices make (ceil_div n size) 0) (i / size)
        ≡ some (make (0 + i / size)) =
      get_elem?-from_indices make (ceil_div n size) 0 (i / size) (index-lt-ceil_div i n size p h) in
    let at : get_elem? (from_indices make (ceil_div n size) 0) ((0 + i) / size)
        ≡ get_elem? (from_indices make (ceil_div n size) 0) (i / size) =
      ap (λ x. get_elem? (from_indices make (ceil_div n size) 0) (x / size)) (omega arith) in
    (
      i / size,
      make (i / size),
      found ∙ ap (λ x. some (make x)) (omega arith),
      get_elem?-from_indices
            (λ x. tag_of (get_elem? (from_indices make (ceil_div n size) 0) (x / size))) n 0 i h
          ∙ ap (λ o. some (tag_of o)) (at ∙ found ∙ ap (λ x. some (make x)) (omega arith)),
      channel_at-HasRun id name type first n size i p h t,
    )

group_size-positive :
    (grouping : Grouping) (n size : ℕ)
    → 0 < n
    → rear_channel_group_size grouping n ≡ ok size
    → 0 < size
unfolding rear_channel_group_size
group_size-positive all_runs n size p h = ground arith
group_size-positive unreadable n size p h = cc
group_size-positive (strands k) n size p h =
    elim (Bool-cases (contains rear_channel_group_sizes k)) [
      | inl e ↦ ground arith
      | inr e ↦ ground arith
    ]

resolved_type-known :
    (requested : String) (panel : Device) (port : Port)
    → contains ("auto" ∷ "tube" ∷ "discrete" ∷ []) requested ≡ true
    → contains ("tube" ∷ "discrete" ∷ []) (resolved_type requested panel port) ≡ true
unfolding resolved_type
resolved_type-known requested panel port h = elim (Bool-cases (requested == "auto")) [
  | inl e ↦ elim (Bool-cases (panel_cable_type panel port == "FIBER")) [
    | inl f ↦ rw e rw f refl
    | inr f ↦ rw e rw f refl
  ]
  | inr e ↦ rw e (ground (arith, str_iff "auto" requested, str_iff requested "auto"))
]

plan_requested-IsCovered :
    (input : ChannelInput) (requested : String) (panel : Device) (port : Port) (first last : ℕ)
    (plan : ChannelPlan)
    → plan_requested input requested panel port first last ≡ ok plan
    → (i : ℕ) → i < last - first + 1
    → IsCovered plan first i
unfolding plan_requested
plan_requested-IsCovered input requested panel port first last plan h i k =
    let n = last - first + 1 in
    let type = resolved_type requested panel port in
    let id = to_lower (trim input.channel_id) in
    let name = base_channel_name input.channel_name type first last in
    let (known, h1) =
      passed_test (not (contains ("auto" ∷ "tube" ∷ "discrete" ∷ []) requested)) bad_channel_type _
        h in
    let (_, h2) = passed_test (is_empty id) no_channel_id _ h1 in
    let (_, h3) = passed_test (not (is_version_4_uuid id)) bad_channel_id _ h2 in
    let (_, h4) = passed_test (ltb 120 (count name)) long_channel_name _ h3 in
    let (size, sized, made) =
      returned_before (rear_channel_group_size input.grouping n)
        (λ size. ok (plan_channels id name type first n size)) h4 in
    subst (λ made. IsCovered made first i) (returned_value _ refl made)
      (plan_channels-IsCovered id name type first n size i
        (group_size-positive input.grouping n size (omega arith) sized) k
        (resolved_type-known requested panel port (ground (arith, known))))

-- A plan that is asked for a channel type tags every run of its range with one of its channels:
-- channels whose ranges have that run, number their runs from the first of the range, and are of
-- type tube or discrete.
pub rear_channel_plan-IsCovered :
    (input : ChannelInput) (panel : Device) (port : Port) (first last : ℕ) (plan : ChannelPlan)
    → is_empty (to_lower (trim input.channel_type)) ≡ false
    → rear_channel_plan input panel port first last ≡ ok plan
    → (i : ℕ) → i < last - first + 1
    → IsCovered plan first i
unfolding rear_channel_plan
rear_channel_plan-IsCovered input panel port first last plan typed h =
    plan_requested-IsCovered input (to_lower (trim input.channel_type)) panel port first last plan (
      subst
        (λ b.
          (if b
            then ok (no_channels (last - first + 1))
            else plan_requested input (to_lower (trim input.channel_type)) panel port first last)
          ≡ ok plan)
        typed h)
