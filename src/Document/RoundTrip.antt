-- ===== src/Document/RoundTrip.antt =====
-- A document from its creation to its download.
use retail_ops_microservices.Base.{String, ◌≡◌, refl, true, none, some, ◌∷◌, eq_refl}
use retail_ops_microservices.Base.Exec.{ok}
use retail_ops_microservices.Base.Rows.{find_row}
use retail_ops_microservices.Base.Utf8.{Bytes, length}
use retail_ops_microservices.Document.{
  DocumentMetadata, Tools, DocumentStore, Stamp, document_key, path_of, file_path, pdf_text,
  metadata_of, fits_columns, stored_document, create_document, get_document, file_of,
  download_found, download_document,
}

module _ (tools : Tools) (t : Stamp) (document_type order_id : String) (bytes : Bytes)
    (s : DocumentStore) where
  abbrev created : DocumentMetadata
  created = metadata_of tools t document_type order_id bytes

  abbrev after_creation : DocumentStore
  after_creation = record {
    documents = created ∷ s.documents;
    files = (file_path tools t document_type order_id, bytes) ∷ s.files;
  }

  create_document_lem :
      tools.draw (pdf_text tools t document_type order_id) ≡ some bytes
      → find_row document_key t.document_id s.documents ≡ none
      → fits_columns tools t document_type order_id bytes ≡ true
      → create_document tools t document_type order_id s ≡ (ok created, after_creation)
  unfolding create_document stored_document
  create_document_lem drawn fresh fit = rw (drawn, create_document, fresh, fit) refl

  find_created : find_row document_key t.document_id after_creation.documents ≡ some created
  unfolding find_row metadata_of
  find_created = rw (eq_refl t.document_id) refl

  find_file :
      find_row path_of (file_path tools t document_type order_id) after_creation.files
      ≡ some (file_path tools t document_type order_id, bytes)
  unfolding find_row
  find_file = rw (eq_refl (file_path tools t document_type order_id)) refl

  -- For a PDF that is drawn, a new id and metadata that fit their columns: the created document is
  -- found under its id, with the length and the SHA-256 of the file, and its download gives the
  -- file's bytes as a PDF.
  pub download_document-create_document :
      tools.draw (pdf_text tools t document_type order_id) ≡ some bytes
      → find_row document_key t.document_id s.documents ≡ none
      → fits_columns tools t document_type order_id bytes ≡ true
      → let d = metadata_of tools t document_type order_id bytes in
        let s' = (create_document tools t document_type order_id s).1 in
        ((create_document tools t document_type order_id s).0 ≡ ok d)
        × (get_document t.document_id s' ≡ ok d)
        × (d.size_bytes ≡ some (length bytes))
        × (d.checksum_sha256 ≡ some (tools.sha256 bytes))
        × (filename : String) × (download_document t.document_id s'
            ≡ ok (record { content = bytes; media_type = "application/pdf"; filename = filename }))
  unfolding get_document download_document download_found file_of metadata_of
  download_document-create_document drawn fresh fit =
      rw (create_document_lem drawn fresh fit, find_created, find_file)
        (refl, refl, refl, refl, _, refl)
