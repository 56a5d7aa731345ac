-- ===== src/Gateway/DocumentOutcome.antt =====
-- What the two handlers that create a document come to.
use Prim.Native.String.{◌++◌ as str_append}
use retail_ops_microservices.Base.{ℕ, String, ◌≡◌, true, some, List, [], ◌∷◌, ◌∙◌, ap}
use retail_ops_microservices.Base.Exec.{Result, ok, err}
use retail_ops_microservices.Gateway.Idempotency.{GatewayError}
use retail_ops_microservices.Gateway.Upstream.{
  Json, Request, UpstreamCall, UpstreamResponse, Network, Services, get_from, post_to,
}
use retail_ops_microservices.Gateway.Access.{is_one_of}
use retail_ops_microservices.Gateway.Routes.Documents.{create_document_handler}
use retail_ops_microservices.Gateway.Steps.{after_bind}
use retail_ops_microservices.Gateway.Owned.{
  get_call, post_call, transitions_path, transition_json, get_from-calls, post_to-calls, Owns,
}
use retail_ops_microservices.Gateway.Follow.{
  after_load_owned_order, after_ensure_order_status, after_transition_order, after_logged,
  after_status,
}

module _ {J W : Type 0} (js : Json J) (net : Network J W) (request_hash : J → String) (q : Request)
    (needed path next_status reason order_id : String) (user : J) (s : Services J W) where
  abbrev pub order_path : String
  order_path = str_append "/orders/" order_id

  abbrev document_json : List (String × J)
  document_json = ("order_id", js.text order_id) ∷ []

  -- The order service has answered with an order of the user in the needed status.
  abbrev OrderChecked : Type 0
  OrderChecked =
      (r : UpstreamResponse J) × (x : J) × ((get_from js net q "order" order_path s).0 ≡ ok r)
      × Owns js net q user r
      × (js.get r.body "status" ≡ some x)
      × (is_one_of js net q x (needed ∷ []) ≡ true)

  abbrev pub after_order : Services J W
  after_order = (get_from js net q "order" order_path s).1

  -- The document service has answered with 201.
  abbrev DocumentMade : UpstreamResponse J → Type 0
  DocumentMade d =
      ((post_to js net q "document" path document_json after_order).0 ≡ ok d)
      × (d.status_code ≡ 201)

  abbrev after_document : Services J W
  after_document = (post_to js net q "document" path document_json after_order).1

  -- The order service has answered the transition with 200.
  abbrev Transitioned : Type 0
  Transitioned =
      (t : UpstreamResponse J) × ((post_to js net q "order" (transitions_path order_id)
          (transition_json js next_status reason) after_document).0
        ≡ ok t)
      × (t.status_code ≡ 200)

  abbrev pub order_read : List (UpstreamCall J)
  order_read = get_call q "order" order_path ∷ s.calls

  abbrev document_sent : List (UpstreamCall J)
  document_sent = post_call js q "document" path document_json ∷ order_read

  abbrev transition_sent : List (UpstreamCall J)
  transition_sent =
      post_call js q "order" (transitions_path order_id) (transition_json js next_status reason)
      ∷ document_sent

  -- The ways in which it ends, with the calls that were sent.
  pub data DocumentOutcome : Result GatewayError (ℕ × J) × Services J W → Type 0 where
    refused :
        (e : GatewayError) (s' : Services J W) → s'.calls ≡ order_read → DocumentOutcome (err e, s')
    no_document :
        (e : GatewayError) (s' : Services J W)
        → OrderChecked
        → s'.calls ≡ document_sent
        → DocumentOutcome (err e, s')
    not_transitioned :
        (e : GatewayError) (s' : Services J W) (d : UpstreamResponse J)
        → OrderChecked
        → DocumentMade d
        → s'.calls ≡ transition_sent
        → DocumentOutcome (err e, s')
    created :
        (s' : Services J W) (d : UpstreamResponse J)
        → OrderChecked
        → DocumentMade d
        → Transitioned
        → s'.calls ≡ transition_sent
        → DocumentOutcome (ok (201, d.body), s')

  read_calls : after_order.calls ≡ order_read
  read_calls = get_from-calls js net q "order" order_path s

  document_calls : after_document.calls ≡ document_sent
  document_calls =
      post_to-calls js net q "document" path document_json after_order
      ∙ ap (λ c. post_call js q "document" path document_json ∷ c) read_calls

  transition_calls :
      (post_to js net q "order"
        (transitions_path order_id)
        (transition_json js next_status reason)
        after_document).1.calls
      ≡ transition_sent
  transition_calls =
      post_to-calls js net q "order" (transitions_path order_id)
        (transition_json js next_status reason) after_document
      ∙ ap
          (λ c.
            post_call js q "order" (transitions_path order_id)
              (transition_json js next_status reason)
            ∷ c)
          document_calls

  -- A document is requested only after the order service has answered with an order of the user in
  -- the needed status, and the order is moved on only after the document service has answered 201.
  -- The handler returns the document with 201 only if both have been done, and no call but the
  -- order's GET, the document's POST and the transition is sent, each at most once, in that order.
  pub create_document_handler_outcome :
      DocumentOutcome (
        create_document_handler js net request_hash q needed path next_status reason order_id user
          s)
  unfolding create_document_handler
  create_document_handler_outcome =
      after_load_owned_order js net q DocumentOutcome _ user order_id s (λ e s' c. refused e s' c)
        λ r answered owns.
          after_ensure_order_status js net q DocumentOutcome _ r.body (needed ∷ []) after_order
            (λ e. refused e after_order (get_from-calls js net q "order" order_path s))
            λ x found is_needed.
              let checked : OrderChecked = (r, x, answered, owns, found, is_needed) in
              after_bind DocumentOutcome (post_to js net q "document" path document_json) _
                after_order (λ e sent. no_document e after_document checked document_calls)
                λ d sent.
                  after_status js net q DocumentOutcome 201 _ _ d after_document
                    (no_document _ after_document checked document_calls)
                    λ made.
                      after_transition_order js net q DocumentOutcome _ order_id next_status reason
                        after_document
                        (λ e. not_transitioned e _ d checked (sent, made) transition_calls)
                        λ t moved fine.
                          after_logged js net q DocumentOutcome _ user d.body "id" _
                            (λ e. not_transitioned e _ d checked (sent, made) transition_calls)
                            (created _ d checked (sent, made) (t, moved, fine) transition_calls)
