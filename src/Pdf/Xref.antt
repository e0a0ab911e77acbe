-- ===== src/Pdf/Xref.antt =====
-- The files that `buildTiledPDF` and `buildPDFDocument` return, read back through their tables of
-- offsets.
use wiredraft.Prelude.{
  ℕ, zero, suc, String, List, [], ◌∷◌, ◌++◌, Option, none, some, true, false, ◌+◌, ◌*◌, ◌<◌, ◌≤◌,
  ◌≡◌, ◌⊎◌, refl, ◌∙◌, inl, inr, ◌==◌, ◌||◌, nat_eq, ltb, length, any, Bool-cases, Result, ok, err,
  decimal, All, numbers, All-numbers, pad_start, arith,
}
use wiredraft.Pdf.Single.{build_pdf_document}
use wiredraft.Pdf.{
  Writer, TilePage, PdfError, page_count, bad_image, no_bytes, bad_dimensions, offset_of,
  concat_texts, entry_text, append_bytes, append_text, concatenate_bytes, write_entries, write_page,
  write_pages, finish, is_bad_image, catalog, page_tree, with_information, build_tiled_pdf,
}
use wiredraft.Pdf.Objects.{
  Stands, IsWritten, concatenate_bytes-append, concatenate_bytes-append_rest,
  write_object-IsWritten, write_image-IsWritten, write_content-IsWritten, at_number,
  catalog-IsWritten, write_pages-IsWritten,
}

module _ (encode : String → List ℕ) where
  -- The entries of the table from `id` on.
  abbrev pub entries : (ℕ → ℕ) → ℕ → ℕ → List ℕ → List ℕ
  entries offset id zero rest = rest
  entries offset id (suc count) rest =
      encode (concat_texts (pad_start 10 (decimal (offset id)) ∷ " 00000 n \n" ∷ []))
      ++ entries offset (id + 1) count rest

  -- The table of the objects up to `last`, and the trailer with the place of the table.
  abbrev pub table : (ℕ → ℕ) → ℕ → ℕ → List ℕ
  table offset last start =
      encode (concat_texts ("xref\n0 " ∷ decimal (last + 1) ∷ "\n0000000000 65535 f \n" ∷ []))
      ++ entries offset 1 last (
          encode (
            concat_texts (
              "trailer\n<< /Size "
              ∷ decimal (last + 1)
              ∷ " /Root 1 0 R /Info "
              ∷ decimal last
              ∷ " 0 R >>\nstartxref\n"
              ∷ decimal start
              ∷ "\n%%EOF\n"
              ∷ [])))

  -- A body and its table: each object up to `last` begins where its entry says.
  pub record IsIndexed (last : ℕ) (file : List ℕ) : Type 0 where
    pub body : List ℕ
    pub offset : ℕ → ℕ
    pub file_lem : file ≡ body ++ table offset last (length body)
    pub stands : All (λ id. Stands encode id (offset id) body) (numbers 1 last)

  abbrev known : Option ℕ → ℕ
  known none = 0
  known (some offset) = offset

  entry_text-known :
      (id : ℕ) (offsets : List (ℕ × ℕ))
      → (offset : ℕ) × (offset_of id offsets ≡ some offset)
      → entry_text offsets id
        ≡ concat_texts (pad_start 10 (decimal (known (offset_of id offsets))) ∷ " 00000 n \n" ∷ [])
  unfolding entry_text
  entry_text-known id offsets (offset, found) = rw found refl

  -- What the writer keeps while it only appends texts.
  write_entries_lem :
      (id count : ℕ) (w : Writer) (rest : List ℕ)
      → ((other : ℕ)
          → id ≤ other
          → other < id + count
          → (offset : ℕ) × (offset_of other w.offsets ≡ some offset))
      → concatenate_bytes (write_entries encode id count w).chunks ++ rest
        ≡ concatenate_bytes w.chunks
          ++ entries (λ other. known (offset_of other w.offsets)) id count rest
  unfolding write_entries append_text append_bytes
  write_entries_lem id zero w rest marked = refl
  write_entries_lem id (suc count) w rest marked =
      let next = append_text encode (entry_text w.offsets id) w in
      write_entries_lem (id + 1) count next rest
        (λ other above below. marked other (omega arith) (omega arith))
      ∙ concatenate_bytes-append_rest w.chunks (encode (entry_text w.offsets id)) _
      ∙ rw (entry_text-known id w.offsets (marked id (omega arith) (omega arith))) refl

  module _ (last : ℕ) (w : Writer) (v : IsWritten encode (suc last) w) where
    finish_lem :
        (start trailer : String)
        → concatenate_bytes
            (append_text encode trailer
              (write_entries encode 1 last (append_text encode start w))).chunks
          ≡ concatenate_bytes w.chunks
            ++ (encode start
                ++ entries (λ id. known (offset_of id w.offsets)) 1 last (encode trailer))
    unfolding append_text append_bytes
    finish_lem start trailer =
        let begun = append_text encode start w in
        concatenate_bytes-append (write_entries encode 1 last begun).chunks (encode trailer)
        ∙ write_entries_lem 1 last begun (encode trailer)
            (λ other above below. v.marked other (omega arith) (omega arith))
        ∙ concatenate_bytes-append_rest w.chunks (encode start) _

    pub finish-IsIndexed : IsIndexed last (finish encode last w)
    unfolding finish
    finish-IsIndexed = record {
      body = concatenate_bytes w.chunks;
      offset = λ id. known (offset_of id w.offsets);
      file_lem = finish_lem _ _ ∙ rw v.sized refl;
      stands = All-numbers _ 1 last (λ id above below.
          let (offset, found) = v.marked id above (omega arith) in
          rw found (v.placed id offset above found));
    }

  -- Only whole images are written.
  abbrev pub IsTiled : List TilePage → Result PdfError (List ℕ) → Type 0
  IsTiled pages (ok file) =
      (0 < length pages)
      × (length pages ≤ 100)
      × (any is_bad_image pages ≡ false)
      × IsIndexed (3 + length pages * 3 + 1) file
  IsTiled pages (err page_count) = (length pages ≡ 0) ⊎ (100 < length pages)
  IsTiled pages (err bad_image) =
      (0 < length pages) × (length pages ≤ 100) × (any is_bad_image pages ≡ true)
  IsTiled pages (err no_bytes) = ⊥
  IsTiled pages (err bad_dimensions) = ⊥

  write_pages-any :
      (count font_id index : ℕ) (pages : List TilePage) (w : Writer)
      → ((w' : Writer) × (write_pages encode count font_id index pages w ≡ ok w')
          × (any is_bad_image pages ≡ false))
        ⊎ ((write_pages encode count font_id index pages w ≡ err bad_image)
            × (any is_bad_image pages ≡ true))
  unfolding write_pages
  write_pages-any count font_id index [] w = inl (w, refl, refl)
  write_pages-any count font_id index (page ∷ pages) w = elim (Bool-cases (is_bad_image page)) [
    | inl bad ↦ inr (rw bad refl, rw bad refl)
    | inr good ↦ rw good (
        write_pages-any count font_id (index + 1) pages
          (write_page encode count font_id index page w))
  ]

  pages-IsWritten :
      (pages : List TilePage) (title : String) (w : Writer)
      → write_pages encode
          (length pages)
          (3 + length pages * 3)
          0
          pages
          (page_tree encode (length pages))
        ≡ ok w
      → IsWritten encode
          (suc (3 + length pages * 3 + 1))
          (with_information encode (3 + length pages * 3) title w)
  pages-IsWritten pages title w h =
      let font_id = 3 + length pages * 3 in
      let paged =
        write_pages-IsWritten encode (length pages) font_id 0 pages
          (page_tree encode (length pages))
          (write_object-IsWritten encode 2 _ (catalog encode) (catalog-IsWritten encode)) h in
      write_object-IsWritten encode (font_id + 1) _ _ (
        at_number encode _ (omega arith)
          (write_object-IsWritten encode font_id _ w (at_number encode w (omega arith) paged)))

  -- The file of a tiled export, whatever the bytes that the encoder gives for a text: it is an
  -- error of the count of pages exactly if there are none or more than 100, and otherwise of an
  -- image exactly if some page has no bytes or no width or height. Any other file is a body, and
  -- after it the table of offsets and the trailer, which gives the length of the body as the place
  -- of the table. The table has an entry for each of the three objects of every page, the two
  -- before and the two after them: ten digits or more that give the number of bytes before that
  -- object, and at that place the body goes on with the text that opens the object of that number.
  pub build_tiled_pdf-IsTiled :
      (pages : List TilePage) (title : String) → IsTiled pages (build_tiled_pdf encode pages title)
  unfolding build_tiled_pdf
  build_tiled_pdf-IsTiled pages title =
      let count = length pages in
      let font_id = 3 + count * 3 in
      elim (Bool-cases (count == 0 || ltb 100 count)) [
        | inl many ↦ rw many (ground arith)
        | inr few ↦ rw few (elim (write_pages-any count font_id 0 pages (page_tree encode count)) [
          | inl (w, same, fine) ↦ rw same (
            ground arith,
            ground arith,
            fine,
            finish-IsIndexed (font_id + 1) _ (pages-IsWritten pages title w same),
          )
          | inr (same, bad) ↦ rw same (ground arith, ground arith, bad)
        ])
      ]

  -- The file of a single page.
  abbrev pub IsDocument : List ℕ → ℕ → ℕ → Result PdfError (List ℕ) → Type 0
  IsDocument bytes width height (ok file) =
      (0 < length bytes) × (0 < width) × (0 < height) × IsIndexed 6 file
  IsDocument bytes width height (err no_bytes) = length bytes ≡ 0
  IsDocument bytes width height (err bad_dimensions) = (width ≡ 0) ⊎ (height ≡ 0)
  IsDocument bytes width height (err page_count) = ⊥
  IsDocument bytes width height (err bad_image) = ⊥

  pub build_pdf_document-IsDocument :
      (drawing : ℕ → ℕ → String) (bytes : List ℕ) (width height : ℕ) (title : String)
      → IsDocument bytes width height (build_pdf_document encode drawing bytes width height title)
  unfolding build_pdf_document
  build_pdf_document-IsDocument drawing bytes width height title =
      elim (Bool-cases (length bytes == 0)) [
        | inl blank ↦ rw blank (ground arith)
        | inr given ↦ rw given (elim (Bool-cases (width == 0 || height == 0)) [
          | inl flat ↦ rw flat (ground arith)
          | inr sized ↦ rw sized (
            ground arith,
            ground arith,
            ground arith,
            finish-IsIndexed 6 _ (
                write_object-IsWritten encode 6 _ _ (
                  write_content-IsWritten encode 5 _ _ (
                    write_image-IsWritten encode 4 width height bytes _ (
                      write_object-IsWritten encode 3 _ _
                        (write_object-IsWritten encode 2 _ _ (catalog-IsWritten encode)))))),
          )
        ])
      ]
