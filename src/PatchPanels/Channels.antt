-- ===== src/PatchPanels/Channels.antt =====
-- Rear channels: `rearChannelPlan` and what it calls in web/static/js/patch-panels.js. A text is
-- measured by its characters.
pub mod Cover
use Prim.Native.Char.{code}
use Prim.Native.String.{◌++◌ as str_append, count}
use wiredraft.Prelude.{
  ℕ, zero, suc, String, Bool, true, false, ◌&&◌, ◌||◌, not, List, [], ◌∷◌, map, Option, none, some,
  ◌+◌, ◌-◌, ◌*◌, ◌/◌, ◌%◌, ◌^◌, min, ◌==◌, Eq, string_eq, nat_eq, ltb, leb, if◌then◌else◌, is_empty,
  contains, trim, to_lower, take_chars, drop_chars, decimal, hex, pad_start, parse_hex, get_elem?,
  Result, ok, err, ◌>>=◌,
}
use wiredraft.Topology.{Device, Port}
use wiredraft.PatchPanels.{
  PanelError, bad_channel_type, no_channel_id, bad_channel_id, long_channel_name, bad_group_size,
  panel_cable_type,
}

-- The grouping that the form asks for: all runs, a number, or a text that is no number.
pub data Grouping : Type 0 where
  all_runs : Grouping
  strands : ℕ → Grouping
  unreadable : Grouping

pub record ChannelInput : Type 0 where
  pub channel_type : String
  pub channel_id : String
  pub channel_name : String
  pub grouping : Grouping

pub record Channel : Type 0 where
  pub id : String
  pub name : String
  pub type : String
  pub member_start_index : ℕ
  pub member_end_index : ℕ
  pub source_start : ℕ
  pub source_end : ℕ
  pub member_count : ℕ

pub record ChannelTag : Type 0 where
  pub id : String
  pub name : String
  pub type : String

pub record ChannelPlan : Type 0 where
  pub channels : List Channel
  pub metadata_by_link : List (Option ChannelTag)

abbrev pub rear_channel_group_sizes : List ℕ
rear_channel_group_sizes = 1 ∷ 2 ∷ 4 ∷ 6 ∷ 8 ∷ 12 ∷ 24 ∷ []

unfoldable pub rear_channel_group_size : Grouping → ℕ → Result PanelError ℕ
rear_channel_group_size all_runs link_count = ok link_count
rear_channel_group_size unreadable link_count = err bad_group_size
rear_channel_group_size (strands size) link_count =
    if contains rear_channel_group_sizes size then ok size else err bad_group_size

-- The pattern of a version 4 UUID, character by character.
pub data Place : Type 0 where
  hex_digit : Place
  dash : Place
  version : Place
  variant : Place

abbrev pub times : ℕ → Place → List Place → List Place
times zero p rest = rest
times (suc n) p rest = p ∷ times n p rest

abbrev pub version_4_uuid : List Place
version_4_uuid = times 8 hex_digit (
    dash
    ∷ times 4 hex_digit (
        dash
        ∷ version
        ∷ times 3 hex_digit (dash ∷ variant ∷ times 3 hex_digit (dash ∷ times 12 hex_digit []))))

abbrev pub between : ℕ → ℕ → ℕ → Bool
between low high c = leb low c && leb c high

unfoldable pub fits_place : Place → ℕ → Bool
fits_place hex_digit c = between 48 57 c || between 65 70 c || between 97 102 c
fits_place dash c = c == 45
fits_place version c = c == 52
fits_place variant c = c == 56 || c == 57 || c == 65 || c == 66 || c == 97 || c == 98

unfoldable pub fits_pattern : List Place → String → Bool
unfolding fits_place
fits_pattern [] String.[] = true
fits_pattern [] (String.◌∷◌ c s) = false
fits_pattern (p ∷ ps) String.[] = false
fits_pattern (p ∷ ps) (String.◌∷◌ c s) =
    let rest = fits_pattern ps s in fits_place p (code c) && rest

unfoldable pub is_version_4_uuid : String → Bool
unfolding fits_pattern
is_version_4_uuid s = fits_pattern version_4_uuid s

-- The last part of the UUID, from its 25th character on, plus the offset, in 48 bits.
unfoldable pub derived_channel_uuid : String → ℕ → String
derived_channel_uuid base offset =
    if offset == 0
    then base
    else str_append (take_chars 24 base)
        (pad_start 12 (hex ((parse_hex 0 (drop_chars 24 base) + offset) % 2 ^ 48)))

-- `Math.ceil(a / b)`
unfoldable pub ceil_div : ℕ → ℕ → ℕ
ceil_div a b = (a + b - 1) / b

range_text : ℕ → ℕ → String
range_text first last = str_append (decimal first) (str_append "–" (decimal last))

-- ` · 01/02 · P1–12`
unfoldable pub channel_suffix : ℕ → ℕ → ℕ → ℕ → String
unfolding range_text
channel_suffix index total first last =
    if ltb 1 total
    then str_append " · " (
        str_append (pad_start 2 (decimal (index + 1))) (
          str_append "/"
            (str_append (pad_start 2 (decimal total)) (str_append " · P" (range_text first last)))))
    else ""

-- The callback that makes the channels.
unfoldable pub channel_at : String → String → String → ℕ → ℕ → ℕ → ℕ → Channel
unfolding derived_channel_uuid channel_suffix
channel_at base_id base_name type source_start link_count group_size index =
    let total = ceil_div link_count group_size in
    let start = index * group_size in
    let end = min link_count (start + group_size) - 1 in
    let suffix = channel_suffix index total (source_start + start) (source_start + end) in
    record {
      id = derived_channel_uuid base_id index;
      name = str_append (take_chars (120 - count suffix) base_name) suffix;
      type = type;
      member_start_index = start;
      member_end_index = end;
      source_start = source_start + start;
      source_end = source_start + end;
      member_count = end - start + 1;
    }

-- `Array.from({ length }, (_, index) => f(index))`, from the index on.
unfoldable pub from_indices {ℓ} : {A : Type ℓ} → (ℕ → A) → ℕ → ℕ → List A
from_indices f zero index = []
from_indices f (suc length) index = f index ∷ from_indices f length (suc index)

abbrev pub tag_of : Option Channel → Option ChannelTag
tag_of none = none
tag_of (some channel) = some (record { id = channel.id; name = channel.name; type = channel.type })

unfoldable pub plan_channels : String → String → String → ℕ → ℕ → ℕ → ChannelPlan
unfolding channel_at from_indices ceil_div
plan_channels base_id base_name type source_start link_count group_size =
    let channels =
      from_indices (channel_at base_id base_name type source_start link_count group_size)
        (ceil_div link_count group_size) 0 in
    record {
      channels = channels;
      metadata_by_link =
          from_indices (λ index. tag_of (get_elem? channels (index / group_size))) link_count 0;
    }

unfoldable pub resolved_type : String → Device → Port → String
resolved_type requested panel port =
    if requested == "auto"
    then (if panel_cable_type panel port == "FIBER" then "tube" else "discrete")
    else requested

abbrev pub text_or : String → String → String
text_or a b = if is_empty a then b else a

unfoldable pub base_channel_name : String → String → ℕ → ℕ → String
unfolding range_text
base_channel_name name type first last = trim (
    text_or name (
      str_append (if type == "tube" then "TUBE" else "BUNDLE")
        (str_append " " (range_text first last))))

abbrev pub no_channels : ℕ → ChannelPlan
no_channels link_count = record {
  channels = [];
  metadata_by_link = from_indices (λ _. none) link_count 0;
}

-- The end of `rearChannelPlan`, for a requested type.
plan_requested : ChannelInput → String → Device → Port → ℕ → ℕ → Result PanelError ChannelPlan
unfolding rear_channel_group_size plan_channels resolved_type base_channel_name is_version_4_uuid
plan_requested input requested panel port source_start source_end =
    let link_count = source_end - source_start + 1 in
    let type = resolved_type requested panel port in
    let base_id = to_lower (trim input.channel_id) in
    let base_name = base_channel_name input.channel_name type source_start source_end in
    if not (contains ("auto" ∷ "tube" ∷ "discrete" ∷ []) requested)
    then err bad_channel_type
    else if is_empty base_id
    then err no_channel_id
    else if not (is_version_4_uuid base_id)
    then err bad_channel_id
    else if ltb 120 (count base_name)
    then err long_channel_name
    else rear_channel_group_size input.grouping link_count >>= λ size.
        ok (plan_channels base_id base_name type source_start link_count size)

unfoldable pub rear_channel_plan :
    ChannelInput → Device → Port → ℕ → ℕ → Result PanelError ChannelPlan
unfolding plan_requested
rear_channel_plan input panel port source_start source_end =
    let requested = to_lower (trim input.channel_type) in
    if is_empty requested
    then ok (no_channels (source_end - source_start + 1))
    else plan_requested input requested panel port source_start source_end
