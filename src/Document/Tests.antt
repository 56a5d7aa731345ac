-- ===== src/Document/Tests.antt =====
-- A document at concrete inputs.
use retail_ops_microservices.Base.{String, ◌≡◌, refl, some, [], ◌∷◌}
use retail_ops_microservices.Base.Exec.{ok}
use retail_ops_microservices.Base.Rows.{find_row}
use retail_ops_microservices.Document.{
  Tools, DocumentStore, Stamp, metadata_of, create_document, get_document, download_document,
}
use retail_ops_microservices.Document.RoundTrip.{download_document-create_document}

abbrev tools : Tools
tools = record {
  storage_dir = "local-data/documents";
  draw = λ p. some (37 ∷ 80 ∷ []);
  sha256 = λ bytes. "checksum";
}

abbrev stamp : Stamp
stamp = record {
  document_id = "document-1234567890abcdef";
  generated_at = 1;
  created_at = 2;
  updated_at = 3;
}

abbrev empty_store : DocumentStore
empty_store = record { documents = []; files = [] }

download_document-create_document_example :
    let d = metadata_of tools stamp "invoice" "o1" (37 ∷ 80 ∷ []) in
    let s' = (create_document tools stamp "invoice" "o1" empty_store).1 in
    ((create_document tools stamp "invoice" "o1" empty_store).0 ≡ ok d)
    × (get_document "document-1234567890abcdef" s' ≡ ok d)
    × (d.size_bytes ≡ some 2)
    × (d.checksum_sha256 ≡ some "checksum")
    × (filename : String) × (download_document "document-1234567890abcdef" s'
        ≡ ok (record {
          content = 37 ∷ 80 ∷ [];
          media_type = "application/pdf";
          filename = filename;
        }))
unfolding find_row
download_document-create_document_example =
    download_document-create_document tools stamp "invoice" "o1" (37 ∷ 80 ∷ []) empty_store refl
      refl refl
