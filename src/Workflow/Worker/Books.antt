-- ===== src/Workflow/Worker/Books.antt =====
-- The calls of the worker, and the tables of processed messages and acknowledgements.
use retail_ops_microservices.Base.{ℕ, String, ◌≡◌, ◌∙◌, Option, List, [], ◌∷◌, arith}
use retail_ops_microservices.Base.Exec.{◌>>=◌}
use retail_ops_microservices.Workflow.Types.{
  WorkflowRun, ProcessedMessage, StreamMessage, JsonValue, Body, HttpCall,
}
use retail_ops_microservices.Workflow.Contracts.{Command, Event}
use retail_ops_microservices.Workflow.External.{External}
use retail_ops_microservices.Workflow.System.{System, Work, Acknowledged, now}
use retail_ops_microservices.Workflow.Repository.{Update, update_workflow}
use retail_ops_microservices.Workflow.Worker.Calls.{
  body_item, body_get, as_text, as_number, text_or, as_optional, field_or_raise, require_workflow,
  transition_call, call_json, transition_order, publish_command, publish_event, publish_dead_letter,
}
use retail_ops_microservices.Workflow.Worker.Checkout.{order_id_or_raise}
use retail_ops_microservices.Workflow.Worker.Payment.{assert_order_id}
use retail_ops_microservices.Workflow.Worker.Keeps.{Any, Keeps, Keeps-frame, keeps_rules}

-- The table of processed messages and the acknowledgements are these.
pub record Books {W : Type 0} (rows : List ProcessedMessage) (acks : List Acknowledged)
    (s : System W) : Type 0 where
  pub processed : s.processed ≡ rows
  pub acked : s.acked ≡ acks

module _ {W A : Type 0} {rows : List ProcessedMessage} {acks : List Acknowledged} where
  Books-same :
      (m : Work W A)
      → ((s : System W) → ((m s).1.processed ≡ s.processed) × ((m s).1.acked ≡ s.acked))
      → Keeps (Books rows acks) Any m
  Books-same m same =
      Keeps-frame m
        (λ s h. record { processed = (same s).0 ∙ h.processed; acked = (same s).1 ∙ h.acked })

module _ {W : Type 0} {rows : List ProcessedMessage} {acks : List Acknowledged} where
  pub body_item-Books :
      (k : String) (b : Body) → Keeps {W = W} (Books rows acks) Any (body_item k b)
  unfolding body_item
  body_item-Books k b = Books-same (body_item k b) (λ s. ground arith)

  pub body_get-Books : (k : String) (b : Body) → Keeps {W = W} (Books rows acks) Any (body_get k b)
  unfolding body_get
  body_get-Books k b = Books-same (body_get k b) (λ s. ground arith)

  pub as_text-Books : (v : JsonValue) → Keeps {W = W} (Books rows acks) Any (as_text v)
  unfolding as_text
  as_text-Books v = Books-same (as_text v) (λ s. ground arith)

  pub as_number-Books : (v : JsonValue) → Keeps {W = W} (Books rows acks) Any (as_number v)
  unfolding as_number
  as_number-Books v = Books-same (as_number v) (λ s. ground arith)

  pub text_or-Books :
      (d : String) (v : JsonValue) → Keeps {W = W} (Books rows acks) Any (text_or d v)
  unfolding text_or
  text_or-Books d v = Books-same (text_or d v) (λ s. ground arith)

  pub as_optional-Books : (v : JsonValue) → Keeps {W = W} (Books rows acks) Any (as_optional v)
  unfolding as_optional
  as_optional-Books v = Books-same (as_optional v) (λ s. ground arith)

  pub order_id_or_raise-Books :
      (p : String) (r : WorkflowRun) → Keeps {W = W} (Books rows acks) Any (order_id_or_raise p r)
  order_id_or_raise-Books p r = Books-same (order_id_or_raise p r) (λ s. ground arith)

  pub assert_order_id-Books :
      (r : WorkflowRun) → Keeps {W = W} (Books rows acks) Any (assert_order_id r)
  assert_order_id-Books r = Books-same (assert_order_id r) (λ s. ground arith)

module _ {W : Type 0} {rows : List ProcessedMessage} {acks : List Acknowledged}
    (x : External W) where
  pub now-Books : Keeps (Books rows acks) Any (now x)
  unfolding now
  now-Books = Books-same (now x) (λ s. ground arith)

  pub call_json-Books :
      (c : HttpCall) (es : List ℕ) → Keeps (Books rows acks) Any (call_json x c es)
  unfolding call_json ◌>>=◌
  call_json-Books c es = Books-same (call_json x c es) (λ s. ground arith)

  pub transition_order-Books :
      (k n r c : String) → Keeps (Books rows acks) Any (transition_order x k n r c)
  unfolding transition_order
  transition_order-Books k n r c = call_json-Books (transition_call k n r c) (200 ∷ [])

  pub publish_command-Books :
      (c : Command) (r : WorkflowRun) (m : Option String) (fs : List (String × Option String))
      → Keeps (Books rows acks) Any (publish_command x c r m fs)
  unfolding publish_command ◌>>=◌
  publish_command-Books c r m fs = Books-same (publish_command x c r m fs) (λ s. ground arith)

  pub publish_event-Books :
      (e : Event) (r : WorkflowRun) (m : Option String) (fs : List (String × Option String))
      → Keeps (Books rows acks) Any (publish_event x e r m fs)
  unfolding publish_event ◌>>=◌
  publish_event-Books e r m fs = Books-same (publish_event x e r m fs) (λ s. ground arith)

  pub publish_dead_letter-Books :
      (m : StreamMessage) (t : String) → Keeps (Books rows acks) Any (publish_dead_letter x m t)
  unfolding publish_dead_letter ◌>>=◌
  publish_dead_letter-Books m t = Books-same (publish_dead_letter x m t) (λ s. ground arith)

  pub require_workflow-Books : (k : String) → Keeps (Books rows acks) Any (require_workflow x k)
  unfolding require_workflow ◌>>=◌
  require_workflow-Books k = Books-same (require_workflow x k) (λ s. ground arith)

  pub update_workflow-Books :
      (k : String) (us : List Update) → Keeps (Books rows acks) Any (update_workflow x k us)
  unfolding update_workflow ◌>>=◌
  update_workflow-Books k us = Books-same (update_workflow x k us) (λ s. ground arith)

  pub field_or_raise-Books :
      (k : String) (m : StreamMessage) → Keeps {W = W} (Books rows acks) Any (field_or_raise k m)
  unfolding field_or_raise
  field_or_raise-Books k m = Books-same (field_or_raise k m) (λ s. ground arith)

pub ruleset books_rules = (
  body_item-Books, body_get-Books, as_text-Books, as_number-Books, text_or-Books, as_optional-Books,
  order_id_or_raise-Books, assert_order_id-Books, now-Books, call_json-Books,
  transition_order-Books, publish_command-Books, publish_event-Books, publish_dead_letter-Books,
  require_workflow-Books, update_workflow-Books, field_or_raise-Books, keeps_rules,
)
