-- ===== src/Labels/Separate.antt =====
-- Placed labels do not overlap: `placeCableLabels` of web/static/js/label-layout.js.
use mathlib.Core.List.{append_assoc, append-nil, map-append}
use wiredraft.Prelude.{
  ℕ, zero, suc, true, false, ◌&&◌, not, List, [], ◌∷◌, ◌++◌, map, none, some, ◌+◌, ◌≤◌, ◌<◌, ◌≡◌,
  ◌⊎◌, inl, inr, refl, sym, ap, subst, ◌∙◌, ltb, nat_eq, find?-holds, All, All-append, nat_beq,
  Bool-cases, Option-cases, Result, ok, err, arith,
}
use wiredraft.Prelude.Int.{pos, ◌+ℤ◌, ◌≤ℤ◌}
use wiredraft.Rack.{Point}
use wiredraft.Labels.{
  Rectangle, LabelItem, Label, LabelError, unable_to_place, label_gap, rectangles_overlap, rect_at,
  is_taken, is_blocked, preferred, find_position, step_position, fallback_position, fallback_steps,
  position_of, label_at, place_from, place_cable_labels,
}

-- One rectangle lies beside the other, or above or below it, with the gap between them.
abbrev pub Apart : Rectangle → Rectangle → Type 0
Apart a b =
    (a.x +ℤ pos (a.width + label_gap) ≤ℤ b.x)
    ⊎ ((b.x +ℤ pos (b.width + label_gap) ≤ℤ a.x)
        ⊎ ((a.y +ℤ pos (a.height + label_gap) ≤ℤ b.y) ⊎ (b.y +ℤ pos (b.height + label_gap) ≤ℤ a.y)))

Apart-sym : (a b : Rectangle) → Apart a b → Apart b a
Apart-sym a b (inl h) = inr (inl h)
Apart-sym a b (inr (inl h)) = inl h
Apart-sym a b (inr (inr (inl h))) = inr (inr (inr h))
Apart-sym a b (inr (inr (inr h))) = inr (inr (inl h))

-- Each label is apart from all that were placed before it.
abbrev pub AllApart : List Label → Type 0
AllApart [] = Unit {0}
AllApart (label ∷ labels) = All (λ other. Apart label.rect other.rect) labels × AllApart labels

rectangles_overlap-Apart : (a b : Rectangle) → rectangles_overlap a b label_gap ≡ false → Apart a b
unfolding rectangles_overlap
rectangles_overlap-Apart a b h = ground arith

is_taken-Apart :
    (placed : List Label) (rect : Rectangle)
    → is_taken placed rect ≡ false
    → All (λ label. Apart label.rect rect) placed
unfolding is_taken
is_taken-Apart [] rect h = tt
is_taken-Apart (label ∷ placed) rect h =
    elim (Bool-cases (rectangles_overlap rect label.rect label_gap)) [
      | inl hit ↦ absurd (ground arith)
      | inr missed ↦ (
        Apart-sym rect label.rect (rectangles_overlap-Apart rect label.rect missed),
        is_taken-Apart placed rect (ground arith),
      )
    ]

AllApart-append :
    (placed : List Label) (label : Label)
    → AllApart placed
    → All (λ other. Apart other.rect label.rect) placed
    → AllApart (placed ++ label ∷ [])
AllApart-append [] label apart free = (tt, tt)
AllApart-append (first ∷ placed) label apart free = (
  All-append (λ other. Apart first.rect other.rect) placed label apart.0 free.0,
  AllApart-append placed label apart.1 free.1,
)

fallback_position-free :
    (rounds step : ℕ) (item : LabelItem) (placed : List Label) {point : Point}
    → fallback_position rounds step item placed ≡ some point
    → is_taken placed (rect_at item point) ≡ false
unfolding fallback_position
fallback_position-free zero step item placed h = cc
fallback_position-free (suc rounds) step item placed {point} h =
    ground (arith, fallback_position-free rounds (step + 1) item placed {point = point})

fallback_position-none :
    (rounds step : ℕ) (item : LabelItem) (placed : List Label)
    → fallback_position rounds step item placed ≡ none
    → (later : ℕ) → step ≤ later
    → later < step + rounds
    → is_taken placed (rect_at item (step_position item later)) ≡ true
unfolding fallback_position
fallback_position-none zero step item placed h later low high = absurd (omega arith)
fallback_position-none (suc rounds) step item placed h later low high =
    elim (Bool-cases (is_taken placed (rect_at item (step_position item step)))) [
      | inl hit ↦ elim (Bool-cases (nat_beq later step)) [
        | inl this ↦ let same : later ≡ step = ground arith in rw same hit
        | inr after ↦
            fallback_position-none rounds (step + 1) item placed (ground arith) later (ground arith)
              (omega arith)
      ]
      | inr free ↦ ground arith
    ]

find_position-free :
    (item : LabelItem) (candidates : List Point) (placed : List Label) (obstacles : List Rectangle)
    {point : Point}
    → find_position item candidates placed obstacles ≡ some point
    → is_taken placed (rect_at item point) ≡ false
unfolding find_position
find_position-free item candidates placed obstacles {point} h = ground (
  arith,
  find?-holds
      (λ (candidate : Point).
        not (is_taken placed (rect_at item candidate))
        && not (is_blocked obstacles (rect_at item candidate)))
      candidates {a = point} h,
)

position_of-free :
    (steps : ℕ) (item : LabelItem) (placed : List Label) (obstacles : List Rectangle)
    {point : Point}
    → position_of steps item placed obstacles ≡ some point
    → is_taken placed (rect_at item point) ≡ false
unfolding position_of
position_of-free steps item placed obstacles {point} h =
    elim (Option-cases (find_position item (preferred item) placed obstacles)) [
      | inl none_at_all ↦ elim (Option-cases (find_position item (preferred item) placed [])) [
        | inl none_left ↦ fallback_position-free steps 0 item placed (ground arith)
        | inr (a, found) ↦
            let same : a ≡ point = ground arith in
            subst (λ p. is_taken placed (rect_at item p) ≡ false) same
              (find_position-free item (preferred item) placed [] found)
      ]
      | inr (a, found) ↦
          let same : a ≡ point = ground arith in
          subst (λ p. is_taken placed (rect_at item p) ≡ false) same
            (find_position-free item (preferred item) placed obstacles found)
    ]

position_of-none :
    (steps : ℕ) (item : LabelItem) (placed : List Label) (obstacles : List Rectangle)
    → position_of steps item placed obstacles ≡ none
    → (step : ℕ)
    → (steps ≤ step) ⊎ (is_taken placed (rect_at item (step_position item step)) ≡ true)
unfolding position_of
position_of-none steps item placed obstacles h step =
    let stuck : fallback_position steps 0 item placed ≡ none =
      ground (arith, Option-cases (find_position item (preferred item) placed obstacles)) in
    elim (Bool-cases (ltb step steps)) [
      | inl below ↦
          inr (fallback_position-none steps 0 item placed stuck step (omega arith) (ground arith))
      | inr above ↦ inl (ground arith)
    ]

-- A label stands on its item's middle, and the items are those given.
abbrev pub Stands : Label → Type 0
Stands label = label.rect ≡ rect_at label.item (record { x = label.x; y = label.y })

-- One after another: the labels of all items, or the labels of the items before one that has no
-- place left, as the same call gives them for those items alone.
abbrev pub IsPlaced :
    ℕ → List Rectangle → List Label → List LabelItem → Result LabelError (List Label) → Type 0
IsPlaced steps obstacles before items (ok labels) =
    (map (λ label. label.item) labels ≡ map (λ label. label.item) before ++ items)
    × All Stands labels
    × AllApart labels
IsPlaced steps obstacles before items (err unable_to_place) =
    (done : List LabelItem) × (item : LabelItem) × (later : List LabelItem) × (items
      ≡ done ++ item ∷ later)
    × (placed : List Label) × (place_from steps obstacles done before ≡ ok placed)
    × ((step : ℕ)
        → (steps ≤ step) ⊎ (is_taken placed (rect_at item (step_position item step)) ≡ true))

place_from-found :
    (steps : ℕ) (obstacles : List Rectangle) (item : LabelItem) (items : List LabelItem)
    (placed : List Label) {point : Point}
    → position_of steps item placed obstacles ≡ some point
    → place_from steps obstacles (item ∷ items) placed
      ≡ place_from steps obstacles items (placed ++ label_at item point ∷ [])
unfolding place_from
place_from-found steps obstacles item items placed found = rw (found, place_from) refl

IsPlaced-shift :
    (steps : ℕ) (obstacles : List Rectangle) (before : List Label) (item : LabelItem)
    (items : List LabelItem) (label : Label) (placing : Result LabelError (List Label))
    → label.item ≡ item
    → ((done : List LabelItem)
        → place_from steps obstacles (item ∷ done) before
          ≡ place_from steps obstacles done (before ++ label ∷ []))
    → IsPlaced steps obstacles (before ++ label ∷ []) items placing
    → IsPlaced steps obstacles before (item ∷ items) placing
IsPlaced-shift steps obstacles before item items label (ok labels) e go (same, stands, apart) = (
  same
      ∙ ap (λ from. from ++ items) (map-append (λ l. l.item) before (label ∷ []))
      ∙ append_assoc (map (λ l. l.item) before) (label.item ∷ []) items
      ∙ ap (λ first. map (λ l. l.item) before ++ first ∷ items) e,
  stands,
  apart,
)
IsPlaced-shift steps obstacles before item items label (err unable_to_place) e go
      (done, other, later, split, placed, all_done, taken) =
    (item ∷ done, other, later, ap (λ rest. item ∷ rest) split, placed, go done ∙ all_done, taken)

place_from-IsPlaced :
    (steps : ℕ) (obstacles : List Rectangle) (items : List LabelItem) (placed : List Label)
    → All Stands placed
    → AllApart placed
    → IsPlaced steps obstacles placed items (place_from steps obstacles items placed)
unfolding place_from
place_from-IsPlaced steps obstacles [] placed stands apart = (sym (append-nil _), stands, apart)
place_from-IsPlaced steps obstacles (item ∷ items) placed stands apart =
    elim (Option-cases (position_of steps item placed obstacles)) [
      | inl nowhere ↦ rw nowhere (
        [],
        item,
        items,
        refl,
        placed,
        refl,
        position_of-none steps item placed obstacles nowhere,
      )
      | inr (point, found) ↦
          let label = label_at item point in
          let free =
            is_taken-Apart placed label.rect (position_of-free steps item placed obstacles found) in
          let rest =
            place_from-IsPlaced steps obstacles items (placed ++ label ∷ [])
              (All-append Stands placed label stands refl)
              (AllApart-append placed label apart free) in
          subst (IsPlaced steps obstacles placed (item ∷ items))
            (sym (place_from-found steps obstacles item items placed found))
            (IsPlaced-shift steps obstacles placed item items label _ refl
              (λ done. place_from-found steps obstacles item done placed found) rest)
    ]

-- Labels that are placed are those of the items, in their order, each with its rectangle around its
-- position, and every two are apart by the gap of five pixels, whatever the obstacles. The call
-- throws only if the items before some item have their labels, and each of the ten thousand steps
-- above and below that item's anchor overlaps one of these labels or is within the gap of it.
pub place_cable_labels-IsPlaced :
    (items : List LabelItem) (obstacles : List Rectangle)
    → IsPlaced fallback_steps obstacles [] items (place_cable_labels items obstacles)
unfolding place_cable_labels
place_cable_labels-IsPlaced items obstacles =
    place_from-IsPlaced fallback_steps obstacles items [] tt tt
