-- ===== src/Gateway/DownloadOutcome.antt =====
-- What the download of a document comes to.
use Prim.Native.String.{◌++◌ as str_append}
use retail_ops_microservices.Base.{
  String, ◌≡◌, refl, ◌⊎◌, inl, inr, Bool, true, false, not, none, some, List, [], ◌∷◌, ◌∙◌, ap,
  Bool-cases, Option-cases, num_eq,
}
use retail_ops_microservices.Base.Exec.{Result, ok, err, raise_if, ◌>>=◌}
use retail_ops_microservices.Gateway.Idempotency.{GatewayError}
use retail_ops_microservices.Gateway.Upstream.{
  Json, Request, UpstreamCall, UpstreamResponse, Network, Services, Handling, gateway_headers,
  download_upstream, get_from,
}
use retail_ops_microservices.Gateway.Access.{is_one_of, get_field}
use retail_ops_microservices.Gateway.Routes.Documents.{
  FileResponse, download_response, found_document, download_document_handler,
}
use retail_ops_microservices.Gateway.Steps.{after_bind, num_eq_sound}
use retail_ops_microservices.Gateway.Owned.{get_call, get_from-calls, Owns}
use retail_ops_microservices.Gateway.Follow.{after_load_owned_order}

module _ {J W B : Type 0} (js : Json J) (net : Network J W) (request_hash : J → String)
    (q : Request) (R : Result GatewayError B × Services J W → Type 0) where
  after_found_document :
      (f : Unit {0} → Handling J W B) (r : UpstreamResponse J) (s : Services J W)
      → ((e : GatewayError) → num_eq r.status_code 200 ≡ false → R (err e, s))
      → (r.status_code ≡ 200 → R (f tt s))
      → R ((found_document js net request_hash q r >>= f) s)
  unfolding found_document ◌>>=◌
  after_found_document f r s raised returned = elim (Bool-cases (num_eq r.status_code 404)) [
    | inl a ↦ rw a (raised _ (rw (num_eq_sound r.status_code 404 a) refl))
    | inr a ↦ elim (Bool-cases (num_eq r.status_code 200)) [
      | inr b ↦ rw (a, b) (raised _ b)
      | inl b ↦ rw (a, b) (returned (num_eq_sound r.status_code 200 b))
    ]
  ]

  after_get_field :
      (f : J → Handling J W B) (body : J) (key : String) (s : Services J W)
      → ((e : GatewayError) → R (err e, s))
      → ((x : J) → js.get body key ≡ some x → R (f x s))
      → R ((get_field js net q body key >>= f) s)
  unfolding ◌>>=◌
  after_get_field f body key s raised returned = elim (Option-cases (js.get body key)) [
    | inl e ↦ rw e (raised _)
    | inr (x, e) ↦ rw e (returned x e)
  ]

  after_raise_if_not :
      (b : Bool) (x : GatewayError) (f : Unit {0} → Handling J W B) (s : Services J W)
      → R (err x, s)
      → (b ≡ true → R (f tt s))
      → R ((raise_if (not b) x >>= f) s)
  unfolding ◌>>=◌
  after_raise_if_not true x f s raised returned = returned refl
  after_raise_if_not false x f s raised returned = raised

module _ {J W : Type 0} (js : Json J) (net : Network J W) (request_hash : J → String) (q : Request)
    (order_id document_id : String) (user : J) (s : Services J W) where
  abbrev pub order_path : String
  order_path = str_append "/orders/" order_id

  abbrev document_path : String
  document_path = str_append "/documents/" document_id

  abbrev pub after_order : Services J W
  after_order = (get_from js net q "order" order_path s).1

  abbrev after_metadata : Services J W
  after_metadata = (get_from js net q "document" document_path after_order).1

  abbrev pub order_read : List (UpstreamCall J)
  order_read = get_call q "order" order_path ∷ s.calls

  abbrev metadata_read : List (UpstreamCall J)
  metadata_read = get_call q "document" document_path ∷ order_read

  abbrev download_path : String
  download_path = str_append "/documents/" (str_append document_id "/download")

  abbrev file_read : List (UpstreamCall J)
  file_read = get_call q "document" download_path ∷ metadata_read

  -- The order is the user's, and the document service has answered 200 with metadata that name it.
  abbrev DocumentOfOrder : Type 0
  DocumentOfOrder =
      ((r : UpstreamResponse J) × ((get_from js net q "order" order_path s).0 ≡ ok r)
        × Owns js net q user r)
      × (m : UpstreamResponse J) × (x : J) × ((get_from js net q "document" document_path
            after_order).0
          ≡ ok m)
      × (m.status_code ≡ 200)
      × (js.get m.body "order_id" ≡ some x)
      × (is_one_of js net q x (order_id ∷ []) ≡ true)

  -- What the network answers to the download.
  abbrev pub sent_download : Result GatewayError (UpstreamResponse J) × Services J W
  unfolding download_upstream
  sent_download =
      download_upstream js net "document" download_path (gateway_headers q none) after_metadata

  pub data DownloadOutcome : Result GatewayError FileResponse × Services J W → Type 0 where
    no_download :
        (e : GatewayError) (s' : Services J W)
        → (s'.calls ≡ order_read) ⊎ (s'.calls ≡ metadata_read)
        → DownloadOutcome (err e, s')
    download_failed :
        (e : GatewayError) (s' : Services J W)
        → DocumentOfOrder
        → ((e' : GatewayError) × (sent_download.0 ≡ err e'))
          ⊎ ((file : UpstreamResponse J) × (sent_download.0 ≡ ok file)
              × (num_eq file.status_code 200 ≡ false))
        → s'.calls ≡ file_read
        → DownloadOutcome (err e, s')
    downloaded :
        (s' : Services J W) (file : UpstreamResponse J)
        → DocumentOfOrder
        → sent_download.0 ≡ ok file
        → file.status_code ≡ 200
        → s'.calls ≡ file_read
        → DownloadOutcome (ok (download_response file), s')

  read_calls : after_order.calls ≡ order_read
  read_calls = get_from-calls js net q "order" order_path s

  metadata_calls : after_metadata.calls ≡ metadata_read
  metadata_calls =
      get_from-calls js net q "document" document_path after_order
      ∙ ap (λ c. get_call q "document" document_path ∷ c) read_calls

  abbrev after_file : Services J W
  after_file = sent_download.1

  file_calls : after_file.calls ≡ file_read
  unfolding download_upstream get_call
  file_calls = ap (λ c. get_call q "document" download_path ∷ c) metadata_calls

  -- A document is downloaded only if the order service has answered with an order of the user and
  -- the document service has answered 200 with metadata whose `order_id` is that order; else the
  -- handler raises and the download is not sent. A file is returned only if the download was
  -- answered with 200, and it is that answer's; else the handler raises.
  pub download_document_handler_outcome :
      DownloadOutcome (download_document_handler js net request_hash q order_id document_id user s)
  unfolding download_document_handler
  download_document_handler_outcome =
      after_load_owned_order js net q DownloadOutcome _ user order_id s
        (λ e s' c. no_download e s' (inl c))
        λ r answered owns.
          after_bind DownloadOutcome (get_from js net q "document" document_path) _ after_order
            (λ e sent. no_download e after_metadata (inr metadata_calls))
            λ m sent.
              after_found_document js net request_hash q DownloadOutcome _ m after_metadata
                (λ e other. no_download e after_metadata (inr metadata_calls))
                λ fine.
                  after_get_field js net request_hash q DownloadOutcome _ m.body "order_id"
                    after_metadata (λ e. no_download e after_metadata (inr metadata_calls))
                    λ x found.
                      after_raise_if_not js net request_hash q DownloadOutcome
                        (is_one_of js net q x (order_id ∷ [])) _ _ after_metadata
                        (no_download _ after_metadata (inr metadata_calls))
                        λ named.
                          let known : DocumentOfOrder =
                            ((r, answered, owns), m, x, sent, fine, found, named) in
                          after_bind DownloadOutcome
                            (download_upstream js net "document" download_path
                              (gateway_headers q none))
                            _ after_metadata
                            (λ e got. download_failed e after_file known (inl (e, got)) file_calls)
                            λ file got.
                              after_found_document js net request_hash q DownloadOutcome _ file
                                after_file
                                (λ e other.
                                  download_failed e after_file known (inr (file, got, other))
                                    file_calls)
                                λ right. downloaded after_file file known got right file_calls
