-- ===== src/Workflow/External.antt =====
-- What workflow-service uses and does not implement, over a state `W` of its own: the clock, uuid4,
-- the HTTP client, Redis, and the texts that Python and PostgreSQL make and accept.
use retail_ops_microservices.Base.{◌≡◌, ℕ, String, Bool, Option, none, List, Time}
use retail_ops_microservices.Base.Exec.{Result}
use retail_ops_microservices.Workflow.Types.{Fields, StreamMessage, HttpCall, UpstreamResponse}

-- The exceptions of the worker: those that it raises, and those of what it calls.
pub data WorkerError : Type 0 where
  -- ValueError("Unsupported command type: …")
  unsupported_command : Option String → WorkerError
  -- LookupError("Workflow not found: …")
  workflow_not_found : String → WorkerError
  -- ValueError("Workflow has no order_id for …")
  no_order_id : String → WorkerError
  -- AssertionError
  assertion_failed : WorkerError
  -- RuntimeError("… returned …")
  unexpected_status : HttpCall → UpstreamResponse → WorkerError
  -- KeyError, and the use of a JSON value of another type
  missing_key : String → WorkerError
  bad_value : String → WorkerError
  -- UpstreamServiceError and UpstreamTimeoutError
  upstream_failed : String → WorkerError
  -- RedisStreamError and connection errors
  redis_failed : String → WorkerError
  -- an error of the database: a text that is no UUID, or too long for its column
  database_failed : String → WorkerError

-- What XADD comes to: the id of the new entry, an error by which nothing was appended, or an error
-- after the entry was appended, as when the connection is lost before the answer.
pub data Appending : Type 0 where
  appended : String → Appending
  refused : String → Appending
  answer_lost : String → Appending

pub record External (W : Type 0) : Type 0 where
  pub uuid : W → String × W
  pub now : W → Time × W
  -- datetime.isoformat, str(int) and str(exception)
  pub iso : Time → String
  pub decimal : ℕ → String
  pub error_text : WorkerError → String
  -- whether the text is a UUID as `str(uuid4())` writes it, which is how every id of a run is sent;
  -- PostgreSQL casts other spellings to the same UUID, which are not modelled
  pub is_uuid : String → Bool
  pub request : HttpCall → W → Result String UpstreamResponse × W
  -- XADD, XACK, XGROUP CREATE and XREADGROUP; an error carries Redis's text
  pub xadd : String → Fields → W → Appending × W
  pub xack : String → String → String → W → Result String ℕ × W
  pub xgroup : String → String → W → Result String (Unit {0}) × W
  pub xreadgroup : String → String → String → W → Result String (List StreamMessage) × W
  -- the text of the exception, if closing the connection raises one
  pub close : W → Option String × W

-- Redis accepts every entry, and its connections can be closed.
pub record AcceptsAll {W : Type 0} (x : External W) : Type 0 where
  pub appends :
      (stream : String) (fields : Fields) (w : W)
      → (id : String) × ((x.xadd stream fields w).0 ≡ appended id)
  pub closes : (w : W) → (x.close w).0 ≡ none
