-- ===== src/Workflow/Types.antt =====
-- The rows of the two tables of repository.py, the messages of the streams, and JSON bodies.
use retail_ops_microservices.Base.{ℕ, String, Option, List, Time}
use retail_ops_microservices.Workflow.Status.{WorkflowStatus}

pub record WorkflowRun : Type 0 where
  pub id : String
  pub workflow_type : String
  pub user_id : String
  pub user_email : Option String
  pub order_id : Option String
  pub status : WorkflowStatus
  pub current_step : Option String
  pub failed_step : Option String
  pub failure_code : Option String
  pub last_error : Option String
  pub correlation_id : String
  pub idempotency_key : Option String
  pub catalog_item_id : Option String
  pub quantity : Option ℕ
  pub invoice_document_id : Option String
  pub receipt_document_id : Option String
  pub payment_id : Option String
  pub notification_id : Option String
  pub payment_scenario : Option String
  pub created_at : Time
  pub updated_at : Time
  pub completed_at : Option Time

pub record CreateWorkflowRun : Type 0 where
  pub user_id : String
  pub user_email : String
  pub catalog_item_id : String
  pub quantity : ℕ
  pub correlation_id : String
  pub idempotency_key : Option String

-- A row of `processed_stream_messages`.
pub record ProcessedMessage : Type 0 where
  pub id : String
  pub stream_name : String
  pub group_name : String
  pub consumer_name : String
  pub redis_message_id : String
  pub message_id : String
  pub message_type : String
  pub workflow_id : Option String
  pub order_id : Option String
  pub status : String
  pub error : Option String
  pub processed_at : Time

-- A `dict[str, str]`, without repeated keys.
abbrev pub Fields : Type 0
Fields = List (String × String)

pub record StreamMessage : Type 0 where
  pub stream : String
  pub message_id : String
  pub fields : Fields

-- The values that the services put into their JSON objects; `nested` is any other.
pub data JsonValue : Type 0 where
  null : JsonValue
  num : ℕ → JsonValue
  str : String → JsonValue
  nested : JsonValue

-- A response body: an object, or anything that is no object.
pub data Body : Type 0 where
  object : List (String × JsonValue) → Body
  not_object : Body

pub record HttpCall : Type 0 where
  pub method : String
  pub service : String
  pub path : String
  pub json : List (String × JsonValue)
  pub correlation_id : String

pub record UpstreamResponse : Type 0 where
  pub status_code : ℕ
  pub body : Body
