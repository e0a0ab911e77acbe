-- ===== src/Pdf.antt =====
-- The PDF files of an export: the writer, and `buildTiledPDF` of web/static/js/pdf-tiles.js. A byte
-- is a number and a `Uint8Array` a list of bytes; `encode` is the method of `TextEncoder`.
pub mod Objects
pub mod Single
pub mod Xref
pub mod Tiles
use Prim.Native.Char.{Char, code}
use Prim.Native.String.{◌++◌ as str_append}
use wiredraft.Prelude.{
  ℕ, zero, suc, String, List, [], ◌∷◌, ◌++◌, map, Option, none, some, Bool, true, false, ◌+◌, ◌-◌,
  ◌*◌, ◌/◌, ◌%◌, ◌==◌, ◌||◌, nat_eq, ltb, leb, if◌then◌else◌, length, find?, if_given, decimal, hex,
  to_upper, pad_start, Result, ok, err, ◌>>=◌,
}

-- The texts of a template, one after the other.
unfoldable pub concat_texts : List String → String
concat_texts [] = ""
concat_texts (text ∷ texts) = str_append text (concat_texts texts)

-- `texts.join(" ")`
unfoldable pub spaced : List String → String
spaced [] = ""
spaced (text ∷ []) = text
spaced (text ∷ next ∷ texts) = concat_texts (text ∷ " " ∷ spaced (next ∷ texts) ∷ [])

unfoldable pub concatenate_bytes : List (List ℕ) → List ℕ
concatenate_bytes [] = []
concatenate_bytes (chunk ∷ chunks) = chunk ++ concatenate_bytes chunks

-- The chunks so far, their length and the offsets of the objects, the latest first.
pub record Writer : Type 0 where
  pub chunks : List (List ℕ)
  pub size : ℕ
  pub offsets : List (ℕ × ℕ)

abbrev pub new_writer : Writer
new_writer = record { chunks = []; size = 0; offsets = (0, 0) ∷ [] }

-- An entry that was never assigned is `none`.
unfoldable pub offset_of : ℕ → List (ℕ × ℕ) → Option ℕ
offset_of id [] = none
offset_of id ((other, offset) ∷ offsets) = if id == other then some offset else offset_of id offsets

-- `offsets[id] = size`
unfoldable pub mark : ℕ → Writer → Writer
mark id w = record w { offsets = (id, w.size) ∷ w.offsets }

unfoldable pub append_bytes : List ℕ → Writer → Writer
append_bytes bytes w = record w { chunks = w.chunks ++ bytes ∷ []; size = w.size + length bytes }

-- The text with which the object begins.
abbrev pub object_text : ℕ → List String → String
object_text id texts = concat_texts (decimal id ∷ " 0 obj\n" ∷ texts)

abbrev pub offset_text : Option ℕ → String
offset_text none = "undefined"
offset_text (some offset) = decimal offset

unfoldable pub entry_text : List (ℕ × ℕ) → ℕ → String
entry_text offsets id =
    concat_texts (pad_start 10 (offset_text (offset_of id offsets)) ∷ " 00000 n \n" ∷ [])

pub record TilePage : Type 0 where
  pub bytes : List ℕ
  pub pixel_width : ℕ
  pub pixel_height : ℕ
  pub row : ℕ
  pub column : ℕ

pub data PdfError : Type 0 where
  page_count : PdfError
  bad_image : PdfError
  no_bytes : PdfError
  bad_dimensions : PdfError

-- The units of UTF-16 of a text.
unfoldable pub code_units : String → List ℕ
code_units String.[] = []
code_units (String.◌∷◌ c s) =
    if ltb (code c) 65536
    then code c ∷ code_units s
    else (55296 + (code c - 65536) / 1024) ∷ (56320 + (code c - 65536) % 1024) ∷ code_units s

unfoldable pub title_hex : String → String
title_hex title = concat_texts (map (λ unit. pad_start 4 (hex unit)) (code_units title))

-- The numbers of the pages: 3, 6, 9 and so on.
unfoldable pub page_references : ℕ → ℕ → List String
page_references index zero = []
page_references index (suc count) =
    concat_texts (decimal (3 + index * 3) ∷ " 0 R" ∷ []) ∷ page_references (index + 1) count

abbrev pub tile_content : ℕ → ℕ → TilePage → String
tile_content count index page = concat_texts (
    "q\n1142.55 0 0 777.89 24 40 cm\n/Im0 Do\nQ\nBT /F1 9 Tf 24 24 Td (Page "
    ∷ decimal (index + 1)
    ∷ "/"
    ∷ decimal count
    ∷ " - row "
    ∷ decimal page.row
    ∷ ", column "
    ∷ decimal page.column
    ∷ " - 18pt overlap) Tj ET\n"
    ∷ [])

abbrev pub is_bad_image : TilePage → Bool
is_bad_image page = length page.bytes == 0 || page.pixel_width == 0 || page.pixel_height == 0

module _ (encode : String → List ℕ) where
  unfoldable pub append_text : String → Writer → Writer
  append_text text w = append_bytes (encode text) w

  unfoldable pub write_object : ℕ → List String → Writer → Writer
  write_object id body w = append_text (object_text id (body ++ "\nendobj\n" ∷ [])) (mark id w)

  -- The object of an image: its dictionary, its bytes and its end.
  unfoldable pub write_image : ℕ → ℕ → ℕ → List ℕ → Writer → Writer
  write_image id width height bytes w = append_text "\nendstream\nendobj\n" (
      append_bytes bytes (
        append_text
          (object_text id (
            "<< /Type /XObject /Subtype /Image /Width "
            ∷ decimal width
            ∷ " /Height "
            ∷ decimal height
            ∷ " /ColorSpace /DeviceRGB /BitsPerComponent 8 /Filter /DCTDecode /Length "
            ∷ decimal (length bytes)
            ∷ " >>\nstream\n"
            ∷ []))
          (mark id w)))

  -- The three objects of a page.
  unfoldable pub write_page : ℕ → ℕ → ℕ → TilePage → Writer → Writer
  write_page count font_id index page w =
      let id = 3 + index * 3 in
      let content = tile_content count index page in
      write_object (id + 2)
        ("<< /Length "
          ∷ decimal (length (encode content))
          ∷ " >>\nstream\n"
          ∷ content
          ∷ "endstream"
          ∷ [])
        (write_image (id + 1) page.pixel_width page.pixel_height page.bytes (
          write_object id
            ("<< /Type /Page /Parent 2 0 R /MediaBox [0 0 1190.55 841.89] /Resources << /XObject << /Im0 "
              ∷ decimal (id + 1)
              ∷ " 0 R >> /Font << /F1 "
              ∷ decimal font_id
              ∷ " 0 R >> >> /Contents "
              ∷ decimal (id + 2)
              ∷ " 0 R >>"
              ∷ [])
            w))

  unfoldable pub write_pages : ℕ → ℕ → ℕ → List TilePage → Writer → Result PdfError Writer
  write_pages count font_id index [] w = ok w
  write_pages count font_id index (page ∷ pages) w =
      if is_bad_image page
      then err bad_image
      else write_pages count font_id (index + 1) pages (write_page count font_id index page w)

  -- The entries of the objects from `id` on.
  unfoldable pub write_entries : ℕ → ℕ → Writer → Writer
  write_entries id zero w = w
  write_entries id (suc rest) w =
      write_entries (id + 1) rest (append_text (entry_text w.offsets id) w)

  -- The table of offsets and the trailer, whose last object is `info_id`.
  unfoldable pub finish : ℕ → Writer → List ℕ
  finish info_id w =
      let start =
        concat_texts ("xref\n0 " ∷ decimal (info_id + 1) ∷ "\n0000000000 65535 f \n" ∷ []) in
      let table = write_entries 1 info_id (append_text start w) in
      concatenate_bytes
        (append_text
          (concat_texts (
            "trailer\n<< /Size "
            ∷ decimal (info_id + 1)
            ∷ " /Root 1 0 R /Info "
            ∷ decimal info_id
            ∷ " 0 R >>\nstartxref\n"
            ∷ decimal w.size
            ∷ "\n%%EOF\n"
            ∷ []))
          table).chunks

  abbrev pub catalog : Writer
  catalog =
      write_object 1 ("<< /Type /Catalog /Pages 2 0 R >>" ∷ [])
        (append_text "%PDF-1.4\n%WIREDRAFT\n" new_writer)

  abbrev pub page_tree : ℕ → Writer
  page_tree count =
      write_object 2
        ("<< /Type /Pages /Count "
          ∷ decimal count
          ∷ " /Kids ["
          ∷ spaced (page_references 0 count)
          ∷ "] >>"
          ∷ [])
        catalog

  -- The last two objects.
  abbrev pub with_information : ℕ → String → Writer → Writer
  with_information font_id title w =
      write_object (font_id + 1)
        ("<< /Title <FEFF" ∷ title_hex title ∷ "> /Creator (WireDraft) >>" ∷ [])
        (write_object font_id ("<< /Type /Font /Subtype /Type1 /BaseFont /Helvetica >>" ∷ []) w)

  unfoldable pub build_tiled_pdf : List TilePage → String → Result PdfError (List ℕ)
  build_tiled_pdf pages title =
      let count = length pages in
      let font_id = 3 + count * 3 in
      if count == 0 || ltb 100 count
      then err page_count
      else write_pages count font_id 0 pages (page_tree count) >>= λ w.
          ok (finish (font_id + 1) (with_information font_id title w))
