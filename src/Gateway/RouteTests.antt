-- ===== src/Gateway/RouteTests.antt =====
-- The routes at concrete inputs: JSON values are texts and objects of texts, and every service
-- answers the same each time.
use retail_ops_microservices.Base.{
  ℕ, String, ◌≡◌, refl, Bool, true, false, Option, none, some, List, [], ◌∷◌, ◌==◌, if◌then◌else◌,
}
use retail_ops_microservices.Base.Exec.{ok}
use retail_ops_microservices.Gateway.Idempotency.{Gateway, IdempotencyRecord, find_record}
use retail_ops_microservices.Gateway.Upstream.{
  Json, Request, UpstreamCall, HttpxResult, answered, Network, Services,
}
use retail_ops_microservices.Gateway.Access.{
  bearer_token, load_owned_order, current_user, user_behind,
}
use retail_ops_microservices.Gateway.Routes.{on_services, protected}
use retail_ops_microservices.Gateway.Routes.Documents.{
  create_document_handler, download_document_handler, create_invoice, create_receipt,
}
use retail_ops_microservices.Gateway.DocumentOutcome.{
  DocumentOutcome, create_document_handler_outcome,
}
use retail_ops_microservices.Gateway.DownloadOutcome.{
  DownloadOutcome, download_document_handler_outcome,
}
use retail_ops_microservices.Gateway.Admission.{Admission, protected_outcome}
use retail_ops_microservices.Gateway.Repeated.{documents_replayed}

data Value : Type 0 where
  nothing : Value
  txt : String → Value
  obj : List (String × String) → Value

abbrev field_of : String → List (String × String) → Option String
field_of key [] = none
field_of key ((k, v) ∷ fields) = if k == key then some v else field_of key fields

abbrev or_nothing : Option String → Value
or_nothing none = nothing
or_nothing (some t) = txt t

abbrev text_of : Value → Option String
text_of (txt t) = some t
text_of nothing = none
text_of (obj fields) = none

abbrev get_value : Value → String → Option Value
get_value (obj fields) key = some (or_nothing (field_of key fields))
get_value nothing key = none
get_value (txt t) key = none

abbrev item_value : Value → String → Option Value
item_value (obj fields) key = elim (field_of key fields) [ none ↦ none | some t ↦ some (txt t) ]
item_value nothing key = none
item_value (txt t) key = none

abbrev equal_values : Value → Value → Bool
equal_values (txt t) (txt u) = t == u
equal_values nothing nothing = true
equal_values _ _ = false

abbrev values : Json Value
values = record {
  null = nothing;
  text = txt;
  number = λ n. nothing;
  object = λ fields. obj [];
  equal = equal_values;
  as_text = text_of;
  get = get_value;
  item = item_value;
}

abbrev answer_to : UpstreamCall Value → HttpxResult Value
answer_to c =
    if c.service == "auth"
    then answered 200 [] (1 ∷ []) (some (obj (("user_id", "ann") ∷ []))) ""
    else if c.service == "document"
    then answered (if c.method == "POST" then 201 else 200) [] (1 ∷ [])
        (some (obj (("id", "d1") ∷ ("order_id", "o1") ∷ []))) ""
    else answered 200 [] (1 ∷ []) (some (obj (("user_id", "ann") ∷ ("status", "created") ∷ []))) ""

abbrev network : Network Value (Unit {0})
network = record { send = λ c w. (answer_to c, w) }

abbrev invoice_request : Request
invoice_request = record {
  authorization = some "Bearer t";
  idempotency_key = some "k";
  correlation_id = none;
  run_id_header = "run";
  run_id = none;
  scenario_id_header = "scenario";
  scenario_id = none;
  state_correlation_id = some "c";
  method = "POST";
  path = "/api/orders/o1/documents/invoice";
}

abbrev ann : Value
ann = obj (("user_id", "ann") ∷ [])

abbrev idle : Services Value (Unit {0})
idle = record { outside = tt; calls = [] }

abbrev hash : Value → String
hash v = ""

create_document_handler_outcome_example :
    DocumentOutcome values network hash invoice_request "created" "/documents/invoice"
      "invoice_generated" "r" "o1" ann idle
      (create_document_handler values network hash invoice_request "created" "/documents/invoice"
        "invoice_generated" "r" "o1" ann idle)
create_document_handler_outcome_example =
    create_document_handler_outcome values network hash invoice_request "created"
      "/documents/invoice" "invoice_generated" "r" "o1" ann idle

download_document_handler_outcome_example :
    DownloadOutcome values network hash invoice_request "o1" "d1" ann idle
      (download_document_handler values network hash invoice_request "o1" "d1" ann idle)
download_document_handler_outcome_example =
    download_document_handler_outcome values network hash invoice_request "o1" "d1" ann idle

abbrev earlier : IdempotencyRecord Value
earlier = record {
  user_id = "ann";
  idempotency_key = "k";
  method = "POST";
  path = "/api/orders/o1/documents/invoice";
  request_hash = "";
  response_status = 201;
  response_body = txt "invoice";
}

abbrev gateway : Gateway Value (Services Value (Unit {0}))
gateway = record { idempotency_keys = earlier ∷ []; services = idle }

protected_outcome_example :
    Admission values network hash invoice_request
      (λ user. on_services (load_owned_order values network invoice_request user "o1"))
      gateway
      (protected values network hash invoice_request
        (λ user. on_services (load_owned_order values network invoice_request user "o1"))
        gateway)
protected_outcome_example =
    protected_outcome values network hash invoice_request
      (λ user. on_services (load_owned_order values network invoice_request user "o1")) gateway

abbrev after_me : Services Value (Unit {0})
after_me = (current_user values network invoice_request idle).1

documents_replayed_example :
    (create_invoice values network hash invoice_request "o1" gateway ≡ (
      ok (record { status_code = 201; content = txt "invoice"; replayed = true }),
      record gateway { services = after_me },
    ))
    × (create_receipt values network hash invoice_request "o1" gateway ≡ (
      ok (record { status_code = 201; content = txt "invoice"; replayed = true }),
      record gateway { services = after_me },
    ))
unfolding current_user user_behind bearer_token find_record
    retail_ops_microservices.Base.Rows.select_first
documents_replayed_example =
    documents_replayed values network hash invoice_request gateway ann (txt "ann") "ann" "k"
      after_me earlier refl refl refl refl refl "o1" refl
