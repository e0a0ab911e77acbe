-- ===== src/Pdf/Single.antt =====
-- The PDF file of a single page: `buildPDFDocument` of web/static/js/export.js. What is drawn on
-- the page, in floating point, is an argument.
use wiredraft.Prelude.{
  ℕ, String, List, [], ◌∷◌, map, ◌==◌, ◌||◌, nat_eq, leb, if◌then◌else◌, length, decimal, hex,
  to_upper, pad_start, Result, ok, err,
}
use wiredraft.Pdf.{
  PdfError, Writer, append_bytes, append_text, bad_dimensions, catalog, code_units, concat_texts,
  finish, mark, no_bytes, object_text, write_image, write_object,
}

module _ (encode : String → List ℕ) where
  unfoldable pub unicode_text : String → String
  unicode_text text = concat_texts (
      "<FEFF"
      ∷ concat_texts (map (λ unit. to_upper (pad_start 4 (hex unit))) (code_units text))
      ∷ ">"
      ∷ [])

  -- The object of the content: its dictionary, the bytes that are drawn, and its end.
  unfoldable pub write_content : ℕ → List ℕ → Writer → Writer
  write_content id content w = append_text encode "endstream\nendobj\n" (
      append_bytes content (
        append_text encode
          (object_text id ("<< /Length " ∷ decimal (length content) ∷ " >>\nstream\n" ∷ []))
          (mark id w)))

  unfoldable pub build_pdf_document :
      (ℕ → ℕ → String) → List ℕ → ℕ → ℕ → String → Result PdfError (List ℕ)
  build_pdf_document drawing bytes width height title =
      let content = encode (drawing width height) in
      let page_size = if leb height width then "1190.55 841.89" else "841.89 1190.55" in
      if length bytes == 0
      then err no_bytes
      else if width == 0 || height == 0
      then err bad_dimensions
      else ok (
          finish encode 6 (
            write_object encode 6
              ("<< /Title "
                ∷ unicode_text title
                ∷ " /Creator "
                ∷ unicode_text "WireDraft"
                ∷ " >>"
                ∷ [])
              (write_content 5 content (
                write_image encode 4 width height bytes (
                  write_object encode 3
                    ("<< /Type /Page /Parent 2 0 R /MediaBox [0 0 " ∷ page_size
                      ∷ "] /Resources << /XObject << /Im0 4 0 R >> >> /Contents 5 0 R >>" ∷ [])
                    (write_object encode 2 ("<< /Type /Pages /Kids [3 0 R] /Count 1 >>" ∷ [])
                      (catalog encode)))))))
