-- ===== src/Workflow/Worker/Checkout.antt =====
-- `_handle_order_create` and `_handle_generate_invoice` of worker.py.
use Prim.Native.String.{◌++◌ as str_append}
use retail_ops_microservices.Base.{
  ℕ, ◌*◌, String, Option, none, some, [], ◌∷◌, if◌then◌else◌, or_else, present, num_eq,
}
use retail_ops_microservices.Base.Exec.{ok, err, ◌>>=◌, ◌>>◌}
use retail_ops_microservices.Workflow.Status.{
  order_creating, invoice_generating, awaiting_payment, status_text,
}
use retail_ops_microservices.Workflow.Types.{WorkflowRun, StreamMessage, JsonValue, HttpCall}
use retail_ops_microservices.Workflow.Contracts.{
  order_created, document_invoice_generated, workflow_awaiting_payment, document_generate_invoice,
  get_field,
}
use retail_ops_microservices.Workflow.External.{External, no_order_id}
use retail_ops_microservices.Workflow.System.{Work}
use retail_ops_microservices.Workflow.Repository.{
  update_workflow, set_order_id, set_status, set_current_step, set_failed_step, set_failure_code,
  set_last_error, set_invoice_document_id,
}
use retail_ops_microservices.Workflow.Worker.Calls.{
  body_item, as_text, as_number, field_or_raise, require_workflow, call_json, transition_order,
  publish_command, publish_event,
}

-- GET /catalog/items/{id}; Python writes a missing id as None.
abbrev catalog_call : WorkflowRun → HttpCall
catalog_call run = record {
  method = "GET";
  service = "catalog";
  path = str_append "/catalog/items/" (or_else run.catalog_item_id "None");
  json = [];
  correlation_id = run.correlation_id;
}

-- A text or None, as JSON.
abbrev pub optional_text : Option String → JsonValue
optional_text none = JsonValue.null
optional_text (some t) = JsonValue.str t

-- POST /orders
abbrev order_call : WorkflowRun → ℕ → ℕ → JsonValue → HttpCall
order_call run quantity unit_price currency = record {
  method = "POST";
  service = "order";
  path = "/orders";
  json =
      ("user_id", JsonValue.str run.user_id)
      ∷ ("catalog_item_id", optional_text run.catalog_item_id)
      ∷ ("quantity", JsonValue.num quantity)
      ∷ ("unit_price_kopecks", JsonValue.num unit_price)
      ∷ ("total_kopecks", JsonValue.num (quantity * unit_price))
      ∷ ("currency", currency)
      ∷ [];
  correlation_id = run.correlation_id;
}

-- POST /documents/{kind}
abbrev pub document_call : String → String → String → HttpCall
document_call kind order_id correlation_id = record {
  method = "POST";
  service = "document";
  path = str_append "/documents/" kind;
  json = ("order_id", JsonValue.str order_id) ∷ [];
  correlation_id = correlation_id;
}

-- `workflow.quantity or 1`
abbrev quantity_or_one : Option ℕ → ℕ
quantity_or_one none = 1
quantity_or_one (some n) = if num_eq n 0 then 1 else n

module _ {W : Type 0} where
  -- `if not workflow.order_id: raise ValueError(…)`
  abbrev pub order_id_or_raise : String → WorkflowRun → Work W String
  order_id_or_raise purpose run s = elim (present run.order_id) [
    | none ↦ (err (no_order_id purpose), s)
    | some id ↦ (ok id, s)
  ]

module _ {W : Type 0} (x : External W) where
  unfoldable pub handle_order_create : StreamMessage → Work W String
  handle_order_create m = do
    workflow_id ← field_or_raise "workflow_id" m
    workflow ← require_workflow x workflow_id
    update_workflow x workflow.id
        (set_status order_creating ∷ set_current_step (status_text order_creating) ∷ [])
    catalog_item ← call_json x (catalog_call workflow) (200 ∷ [])
    price ← body_item "price_kopecks" catalog_item
    unit_price_kopecks ← as_number price
    currency ← body_item "currency" catalog_item
    order ←
        call_json x
          (order_call workflow (quantity_or_one workflow.quantity) unit_price_kopecks currency)
          (200 ∷ 201 ∷ [])
    id ← body_item "id" order
    order_id ← as_text id
    updated ← update_workflow x workflow.id (
        set_order_id order_id
        ∷ set_status invoice_generating
        ∷ set_current_step (status_text invoice_generating)
        ∷ [])
    publish_event x order_created updated (get_field "message_id" m.fields)
        (("order_id", some order_id) ∷ ("user_id", some updated.user_id) ∷ [])
    publish_command x document_generate_invoice updated (get_field "message_id" m.fields)
        (("order_id", some order_id) ∷ ("user_id", some updated.user_id) ∷ [])

  unfoldable pub handle_generate_invoice : StreamMessage → Work W String
  handle_generate_invoice m = do
    workflow_id ← field_or_raise "workflow_id" m
    workflow ← require_workflow x workflow_id
    order_id ← order_id_or_raise "invoice generation" workflow
    update_workflow x workflow.id
        (set_status invoice_generating ∷ set_current_step (status_text invoice_generating) ∷ [])
    document ← call_json x (document_call "invoice" order_id workflow.correlation_id) (201 ∷ [])
    transition_order x order_id "invoice_generated" "Invoice PDF generated by async workflow"
        workflow.correlation_id
    id ← body_item "id" document
    document_id ← as_text id
    updated ← update_workflow x workflow.id (
        set_status awaiting_payment
        ∷ set_current_step (status_text awaiting_payment)
        ∷ set_invoice_document_id document_id
        ∷ set_failed_step none
        ∷ set_failure_code none
        ∷ set_last_error none
        ∷ [])
    publish_event x document_invoice_generated updated (get_field "message_id" m.fields)
        (("order_id", updated.order_id) ∷ ("document_id", some document_id) ∷ [])
    publish_event x workflow_awaiting_payment updated (get_field "message_id" m.fields)
        (("order_id", updated.order_id) ∷ [])
