-- ===== src/Document.antt =====
-- services/document-service/src/document_service: the generator of PDF files, the table of
-- metadata and the endpoints. Drawing a PDF (reportlab) and SHA-256 are parameters; the files are a
-- list of paths with their contents.
pub mod RoundTrip
mod Tests
use Prim.Native.String.{◌++◌ as str_append, count}
use Prim.Native.Char.{code}
use retail_ops_microservices.Base.{
  ℕ, zero, suc, ◌-◌, String, Bool, true, false, ◌&&◌, ◌||◌, not, Option, none, some, List, [], ◌∷◌,
  ◌==◌, leb, is_some, or_else, present, ◌≡◌, refl, Time, if◌then◌else◌,
}
use retail_ops_microservices.Base.Exec.{Result, ok, err, Exec}
use retail_ops_microservices.Base.Int.{fits_int32}
use retail_ops_microservices.Base.Rows.{find_row}
use retail_ops_microservices.Base.Utf8.{Bytes, length, to_char}
use retail_ops_microservices.Http.{HttpError, not_found, server_error}

pub record DocumentMetadata : Type 0 where
  pub id : String
  pub order_id : String
  pub document_type : String
  pub status : String
  pub document_ref : String
  pub document_number : Option String
  pub document_title : Option String
  pub content_type : Option String
  pub storage_path : Option String
  pub size_bytes : Option ℕ
  pub checksum_sha256 : Option String
  pub generator : Option String
  pub created_at : Time
  pub updated_at : Time

-- What is drawn on the page.
pub record PdfText : Type 0 where
  pub document_number : String
  pub document_title : String
  pub document_type : String
  pub order_id : String
  pub generated_at : Time

-- `draw` gives the file's bytes, or `none` where drawing or writing raises.
pub record Tools : Type 0 where
  pub storage_dir : String
  pub draw : PdfText → Option Bytes
  pub sha256 : Bytes → String

pub record DocumentStore : Type 0 where
  pub documents : List DocumentMetadata
  pub files : List (String × Bytes)

-- What a call reads of uuid4 and of the clock.
pub record Stamp : Type 0 where
  pub document_id : String
  pub generated_at : Time
  pub created_at : Time
  pub updated_at : Time

abbrev pub document_key : DocumentMetadata → String
document_key d = d.id

abbrev pub path_of : String × Bytes → String
path_of f = f.0

-- `text[-8:]`
abbrev dropped : ℕ → String → String
dropped zero t = t
dropped (suc n) String.[] = ""
dropped (suc n) (String.◌∷◌ c t) = dropped n t

abbrev last_eight : String → String
last_eight t = dropped (count t - 8) t

-- `upper` of the characters that an id has, which are ASCII.
abbrev upper : String → String
unfolding to_char
upper String.[] = ""
upper (String.◌∷◌ c t) =
    String.◌∷◌
      (if leb 97 (code c) && leb (code c) 122 then or_else (to_char (code c - 32)) c else c)
      (upper t)

unfoldable document_number : String → String → String
unfolding upper
document_number document_type document_id = str_append "MWP-" (
    str_append (if document_type == "invoice" then "INV" else "REC")
      (str_append "-" (upper (last_eight document_id))))

test_document_number : document_number "invoice" "document-0123456789abcdef" ≡ "MWP-INV-89ABCDEF"
unfolding document_number
test_document_number = refl

unfoldable document_title : String → String
document_title document_type =
    if document_type == "receipt" then "Local Workflow Receipt" else "Local Workflow Invoice"

module _ (tools : Tools) (t : Stamp) (document_type order_id : String) where
  abbrev pub file_path : String
  file_path =
      str_append tools.storage_dir (
        str_append "/"
          (str_append document_type (str_append "/" (str_append t.document_id ".pdf"))))

  unfoldable pub pdf_text : PdfText
  unfolding document_number document_title
  pdf_text = record {
    document_number = document_number document_type t.document_id;
    document_title = document_title document_type;
    document_type = document_type;
    order_id = order_id;
    generated_at = t.generated_at;
  }

  -- The metadata of a file's bytes, as `generate` makes them and the table keeps them.
  unfoldable pub metadata_of : Bytes → DocumentMetadata
  unfolding document_number document_title
  metadata_of bytes = record {
    id = t.document_id;
    order_id = order_id;
    document_type = document_type;
    status = "generated";
    document_ref =
        str_append "local-document://" (str_append document_type (str_append "/" t.document_id));
    document_number = some (document_number document_type t.document_id);
    document_title = some (document_title document_type);
    content_type = some "application/pdf";
    storage_path = some file_path;
    size_bytes = some (length bytes);
    checksum_sha256 = some (tools.sha256 bytes);
    generator = some "local-pdf-generator";
    created_at = t.created_at;
    updated_at = t.updated_at;
  }

  -- The columns whose values are not bounded by the code: order_id 64, storage_path 512, and
  -- size_bytes, an integer of 32 bits.
  abbrev pub fits_columns : Bytes → Bool
  fits_columns bytes =
      leb (count order_id) 64 && leb (count file_path) 512 && fits_int32 (length bytes)

  -- The INSERT, after the file was written.
  unfoldable pub stored_document : Bytes → Exec DocumentStore HttpError DocumentMetadata
  unfolding metadata_of find_row
  stored_document bytes s =
      if is_some (find_row document_key t.document_id s.documents) || not (fits_columns bytes)
      then (err server_error, s)
      else (ok (metadata_of bytes), record s { documents = metadata_of bytes ∷ s.documents })

  -- `create_document`; a file with the same path is replaced, which the newest first comes to.
  unfoldable pub create_document : Exec DocumentStore HttpError DocumentMetadata
  unfolding pdf_text stored_document
  create_document s = elim (tools.draw pdf_text) [
    | none ↦ (err server_error, s)
    | some bytes ↦ stored_document bytes (record s { files = (file_path, bytes) ∷ s.files })
  ]

-- The two endpoints.
abbrev create_invoice_metadata :
    Tools → Stamp → String → Exec DocumentStore HttpError DocumentMetadata
unfolding create_document
create_invoice_metadata tools t = create_document tools t "invoice"

abbrev create_receipt_metadata :
    Tools → Stamp → String → Exec DocumentStore HttpError DocumentMetadata
unfolding create_document
create_receipt_metadata tools t = create_document tools t "receipt"

abbrev pub found_document : Option DocumentMetadata → Result HttpError DocumentMetadata
found_document none = err (not_found "Document not found")
found_document (some d) = ok d

unfoldable pub get_document : String → DocumentStore → Result HttpError DocumentMetadata
unfolding find_row
get_document id s = found_document (find_row document_key id s.documents)

pub record FileResponse : Type 0 where
  pub content : Bytes
  pub media_type : String
  pub filename : String

abbrev file_response : DocumentMetadata → Option (String × Bytes) → Result HttpError FileResponse
file_response d none = err (not_found "Document file not found")
file_response d (some f) = ok (record {
  content = f.1;
  media_type = or_else (present d.content_type) "application/pdf";
  filename = str_append (or_else (present d.document_number) d.id) ".pdf";
})

unfoldable pub file_of : DocumentMetadata → DocumentStore → Result HttpError FileResponse
unfolding find_row
file_of d s = elim d.storage_path [
  | none ↦ err (not_found "Document file not found")
  | some path ↦ file_response d (find_row path_of path s.files)
]

unfoldable pub download_found :
    Option DocumentMetadata → DocumentStore → Result HttpError FileResponse
unfolding file_of
download_found none s = err (not_found "Document not found")
download_found (some d) s = file_of d s

unfoldable pub download_document : String → DocumentStore → Result HttpError FileResponse
unfolding find_row download_found
download_document id s = download_found (find_row document_key id s.documents) s
