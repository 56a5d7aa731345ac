-- ===== src/Gateway/Routes/Documents.antt =====
-- services/api-gateway/src/api_gateway/routes/documents.py.
use Prim.Native.String.{◌++◌ as str_append}
use retail_ops_microservices.Base.{
  ℕ, String, not, none, List, [], ◌∷◌, or_else, num_eq, ◌==◌, if◌then◌else◌,
}
use retail_ops_microservices.Base.Exec.{pure, raise_if, ◌>>=◌, ◌>>◌}
use retail_ops_microservices.Base.Utf8.{Bytes}
use retail_ops_microservices.Gateway.Idempotency.{gateway_error, JsonResponse}
use retail_ops_microservices.Gateway.Upstream.{
  Json, Request, UpstreamResponse, Network, Handling, gateway_headers, download_upstream, get_from,
  post_to,
}
use retail_ops_microservices.Gateway.Access.{
  get_field, logged, is_one_of, load_owned_order, ensure_order_status, transition_order,
}
use retail_ops_microservices.Gateway.Routes.{Route, on_services, protected, idempotent}

-- The content and its type.
pub record FileResponse : Type 0 where
  pub content : Bytes
  pub media_type : String

-- `headers.get(key, default)`
abbrev header_or : String → List (String × String) → String → String
header_or key [] default_ = default_
header_or key ((k, v) ∷ headers) default_ = if k == key then v else header_or key headers default_

-- `download_response`
abbrev pub download_response : {J : Type 0} → UpstreamResponse J → FileResponse
download_response r = record {
  content = or_else r.content [];
  media_type = header_or "content-type" r.headers "application/pdf";
}

module _ {J W : Type 0} (js : Json J) (net : Network J W) (request_hash : J → String)
    (q : Request) where
  -- The two handlers, which differ in the status that the order has to have, in the document's
  -- path, in the order's next status and in the reason.
  unfoldable pub create_document_handler :
      String → String → String → String → String → J → Handling J W (ℕ × J)
  unfolding load_owned_order ensure_order_status post_to transition_order logged ◌>>=◌
  create_document_handler needed path next_status reason order_id user = do
    order ← load_owned_order js net q user order_id
    ensure_order_status js net q order (needed ∷ [])
    r ← post_to js net q "document" path (("order_id", js.text order_id) ∷ [])
    raise_if (not (num_eq r.status_code 201)) (gateway_error 502 "UPSTREAM_SERVICE_ERROR")
    transition_order js net q order_id next_status reason
    logged js net q user r.body "id"
    pure (201, r.body)

  unfoldable create_invoice_handler : String → J → Handling J W (ℕ × J)
  unfolding create_document_handler
  create_invoice_handler =
      create_document_handler "created" "/documents/invoice" "invoice_generated"
        "Legacy/manual invoice PDF generated"

  unfoldable create_receipt_handler : String → J → Handling J W (ℕ × J)
  unfolding create_document_handler
  create_receipt_handler =
      create_document_handler "payment_completed" "/documents/receipt" "receipt_generated"
        "Legacy/manual receipt PDF generated"

  unfoldable pub create_invoice : String → Route J W (JsonResponse J)
  unfolding protected idempotent create_invoice_handler
  create_invoice order_id = protected js net request_hash q λ user.
      idempotent js net request_hash q user (js.object []) (create_invoice_handler order_id user)

  unfoldable pub create_receipt : String → Route J W (JsonResponse J)
  unfolding protected idempotent create_receipt_handler
  create_receipt order_id = protected js net request_hash q λ user.
      idempotent js net request_hash q user (js.object []) (create_receipt_handler order_id user)

  unfoldable pub found_document : UpstreamResponse J → Handling J W (Unit {0})
  unfolding ◌>>=◌
  found_document r =
      raise_if (num_eq r.status_code 404) (gateway_error 404 "DOCUMENT_NOT_FOUND")
      >> raise_if (not (num_eq r.status_code 200)) (gateway_error 502 "UPSTREAM_SERVICE_ERROR")

  unfoldable pub download_document_handler : String → String → J → Handling J W FileResponse
  unfolding load_owned_order get_from found_document download_upstream gateway_headers ◌>>=◌
  download_document_handler order_id document_id user = do
    load_owned_order js net q user order_id
    metadata ← get_from js net q "document" (str_append "/documents/" document_id)
    found_document metadata
    owner ← get_field js net q metadata.body "order_id"
    raise_if (not (is_one_of js net q owner (order_id ∷ [])))
        (gateway_error 404 "DOCUMENT_NOT_FOUND")
    file ←
        download_upstream js net "document"
          (str_append "/documents/" (str_append document_id "/download")) (gateway_headers q none)
    found_document file
    pure (download_response file)

  unfoldable pub download_document : String → String → Route J W FileResponse
  unfolding protected download_document_handler
  download_document order_id document_id =
      protected js net request_hash q
        λ user. on_services (download_document_handler order_id document_id user)
