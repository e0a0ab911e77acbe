-- ===== src/Pdf/Objects.antt =====
-- The offsets that a PDF writer keeps: `append`, `object` and `appendObject` of
-- web/static/js/pdf-tiles.js and web/static/js/export.js.
use wiredraft.Prelude.{
  ℕ, suc, String, List, [], ◌∷◌, ◌++◌, some, ◌+◌, ◌*◌, ◌<◌, ◌≡◌, refl, subst, passed_test, inl, inr,
  ◌==◌, nat_eq, if◌then◌else◌, length, length-append, Bool-cases, ok, arith,
}
use mathlib.Core.List.{append_assoc, append-nil}
use wiredraft.Pdf.Single.{write_content}
use wiredraft.Pdf.{
  Writer, TilePage, new_writer, offset_of, mark, append_bytes, append_text, object_text,
  concatenate_bytes, write_object, write_image, write_page, write_pages, is_bad_image, bad_image,
  catalog,
}

pub concatenate_bytes-append :
    (chunks : List (List ℕ)) (bytes : List ℕ)
    → concatenate_bytes (chunks ++ bytes ∷ []) ≡ concatenate_bytes chunks ++ bytes
unfolding concatenate_bytes
concatenate_bytes-append [] bytes = append-nil bytes
concatenate_bytes-append (chunk ∷ chunks) bytes =
    simp (concatenate_bytes-append chunks bytes, append_assoc)

pub concatenate_bytes-append_rest :
    (chunks : List (List ℕ)) (bytes rest : List ℕ)
    → concatenate_bytes (chunks ++ bytes ∷ []) ++ rest ≡ concatenate_bytes chunks ++ (bytes ++ rest)
concatenate_bytes-append_rest chunks bytes rest =
    rw (concatenate_bytes-append chunks bytes) (append_assoc (concatenate_bytes chunks) bytes rest)

module _ (encode : String → List ℕ) where
  -- The object with that id begins after as many bytes as the offset says.
  abbrev pub Stands : ℕ → ℕ → List ℕ → Type 0
  Stands id offset bytes =
      (before : List ℕ) × (texts : List String) × (after : List ℕ) × (bytes
        ≡ before ++ (encode (object_text id texts) ++ after))
      × (length before ≡ offset)

  pub Stands-append :
      (id offset : ℕ) (bytes more : List ℕ)
      → Stands id offset bytes
      → Stands id offset (bytes ++ more)
  Stands-append id offset bytes more (before, texts, after, whole, long) =
      (before, texts, after ++ more, rw whole (simp append_assoc), long)

  -- The offsets are right, and every object below `next` has one.
  pub record IsWritten (next : ℕ) (w : Writer) : Type 0 where
    pub sized : w.size ≡ length (concatenate_bytes w.chunks)
    pub placed :
        (id offset : ℕ)
        → 0 < id
        → offset_of id w.offsets ≡ some offset
        → Stands id offset (concatenate_bytes w.chunks)
    pub marked :
        (id : ℕ) → 0 < id → id < next → (offset : ℕ) × (offset_of id w.offsets ≡ some offset)

  pub append_bytes-IsWritten :
      (next : ℕ) (bytes : List ℕ) (w : Writer)
      → IsWritten next w
      → IsWritten next (append_bytes bytes w)
  unfolding append_bytes
  append_bytes-IsWritten next bytes w v = record {
    sized =
        rw (concatenate_bytes-append w.chunks bytes)
          (omega (arith, v.sized, length-append (concatenate_bytes w.chunks) bytes));
    placed = λ id offset above found. rw (concatenate_bytes-append w.chunks bytes) (
        Stands-append id offset (concatenate_bytes w.chunks) bytes
          (v.placed id offset above found));
    marked = v.marked;
  }

  pub append_text-IsWritten :
      (next : ℕ) (text : String) (w : Writer)
      → IsWritten next w
      → IsWritten next (append_text encode text w)
  unfolding append_text
  append_text-IsWritten next text w v = append_bytes-IsWritten next (encode text) w v

  placed-begin :
      (next : ℕ) (texts : List String) (w : Writer)
      → IsWritten next w
      → (id offset : ℕ) → 0 < id
      → (if id == next then some w.size else offset_of id w.offsets) ≡ some offset
      → Stands id offset (concatenate_bytes w.chunks ++ encode (object_text next texts))
  placed-begin next texts w v id offset above found = elim (Bool-cases (id == next)) [
    | inl this ↦
        let same : id ≡ next = ground arith in
        let long : length (concatenate_bytes w.chunks) ≡ offset = ground (arith, v.sized) in
        (concatenate_bytes w.chunks, texts, [], rw (append-nil, same) refl, long)
    | inr other ↦
        let before : offset_of id w.offsets ≡ some offset = ground arith in
        Stands-append id offset (concatenate_bytes w.chunks) (encode (object_text next texts))
          (v.placed id offset above before)
  ]

  marked-begin :
      (next : ℕ) (w : Writer)
      → IsWritten next w
      → (id : ℕ) → 0 < id
      → id < suc next
      → (offset : ℕ) × ((if id == next then some w.size else offset_of id w.offsets) ≡ some offset)
  marked-begin next w v id above below = elim (Bool-cases (id == next)) [
    | inl this ↦ (w.size, rw this refl)
    | inr other ↦
        let lower : id < next = ground arith in
        let (offset, found) = v.marked id above lower in (offset, rw (other, found) refl)
  ]

  -- An object that is begun: its offset is the length so far.
  begin-IsWritten :
      (next : ℕ) (texts : List String) (w : Writer)
      → IsWritten next w
      → IsWritten (suc next) (append_text encode (object_text next texts) (mark next w))
  unfolding append_text append_bytes mark offset_of
  begin-IsWritten next texts w v = record {
    sized = rw (concatenate_bytes-append w.chunks (encode (object_text next texts))) (
        omega (
          arith,
          v.sized,
          length-append (concatenate_bytes w.chunks) (encode (object_text next texts)),
        ));
    placed = λ id offset above found.
        rw (concatenate_bytes-append w.chunks (encode (object_text next texts)))
          (placed-begin next texts w v id offset above found);
    marked = marked-begin next w v;
  }

  pub write_object-IsWritten :
      (next : ℕ) (body : List String) (w : Writer)
      → IsWritten next w
      → IsWritten (suc next) (write_object encode next body w)
  unfolding write_object
  write_object-IsWritten next body w v = begin-IsWritten next (body ++ "\nendobj\n" ∷ []) w v

  pub write_image-IsWritten :
      (next width height : ℕ) (bytes : List ℕ) (w : Writer)
      → IsWritten next w
      → IsWritten (suc next) (write_image encode next width height bytes w)
  unfolding write_image
  write_image-IsWritten next width height bytes w v =
      append_text-IsWritten (suc next) _ _
        (append_bytes-IsWritten (suc next) bytes _ (begin-IsWritten next _ w v))

  pub write_content-IsWritten :
      (next : ℕ) (content : List ℕ) (w : Writer)
      → IsWritten next w
      → IsWritten (suc next) (write_content encode next content w)
  unfolding write_content
  write_content-IsWritten next content w v =
      append_text-IsWritten (suc next) _ _
        (append_bytes-IsWritten (suc next) content _ (begin-IsWritten next _ w v))

  new_writer-IsWritten : IsWritten 1 new_writer
  unfolding concatenate_bytes offset_of
  new_writer-IsWritten = record {
    sized = refl;
    placed = λ id offset above found. absurd (ground arith);
    marked = λ id above below. absurd (omega arith);
  }

  pub catalog-IsWritten : IsWritten 2 (catalog encode)
  catalog-IsWritten =
      write_object-IsWritten 1 _ _ (append_text-IsWritten 1 _ new_writer new_writer-IsWritten)

  pub at_number :
      {next other : ℕ} (w : Writer) → next ≡ other → IsWritten next w → IsWritten other w
  at_number w same v = subst (λ number. IsWritten number w) same v

  write_page-IsWritten :
      (count font_id index : ℕ) (page : TilePage) (w : Writer)
      → IsWritten (3 + index * 3) w
      → IsWritten (3 + (index + 1) * 3) (write_page encode count font_id index page w)
  unfolding write_page
  write_page-IsWritten count font_id index page w v = at_number _ (omega arith) (
      write_object-IsWritten (3 + index * 3 + 2) _ _ (
        at_number _ (omega arith) (
          write_image-IsWritten (3 + index * 3 + 1) page.pixel_width page.pixel_height page.bytes _
            (at_number _ (omega arith) (write_object-IsWritten (3 + index * 3) _ w v)))))

  pub write_pages-IsWritten :
      (count font_id index : ℕ) (pages : List TilePage) (w : Writer) {w' : Writer}
      → IsWritten (3 + index * 3) w
      → write_pages encode count font_id index pages w ≡ ok w'
      → IsWritten (3 + (index + length pages) * 3) w'
  unfolding write_pages
  write_pages-IsWritten count font_id index [] w {w'} v h =
      let same : w ≡ w' = cc in
      subst (λ x. IsWritten (3 + (index + 0) * 3) x) same (at_number w (omega arith) v)
  write_pages-IsWritten count font_id index (page ∷ pages) w {w'} v h =
      let later = passed_test (is_bad_image page) bad_image _ h in
      at_number w' (omega arith) (
        write_pages-IsWritten count font_id (index + 1) pages
          (write_page encode count font_id index page w)
          (write_page-IsWritten count font_id index page w v) later.1)
