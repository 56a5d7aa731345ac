-- ===== src/Gateway/Idempotency.antt =====
-- services/api-gateway/src/api_gateway/idempotency.py over the table of migration 0007. JSON
-- bodies and `request_hash` (SHA-256 of the canonical text) are parameters, and so is the state `S`
-- that the handler works on: the other services.
pub mod Table
pub mod Replay
pub mod Race
use Prim.Native.String.{count}
use retail_ops_microservices.Base.{
  ℕ, String, Bool, true, false, ◌&&◌, ◌||◌, not, leb, Option, none, some, List, [], ◌∷◌, ◌==◌,
  if◌then◌else◌, is_some, present,
}
use retail_ops_microservices.Base.Exec.{Result, ok, err, Exec}
use retail_ops_microservices.Base.Rows.{select_first}

pub record IdempotencyRecord (J : Type 0) : Type 0 where
  pub user_id : String
  pub idempotency_key : String
  pub method : String
  pub path : String
  pub request_hash : String
  pub response_status : ℕ
  pub response_body : J

-- `GatewayError` with its status and its code, an error of the database, and any other exception
-- (a KeyError, an AttributeError).
pub data GatewayError : Type 0 where
  gateway_error : ℕ → String → GatewayError
  database_failed : GatewayError
  internal_error : GatewayError

pub record JsonResponse (J : Type 0) : Type 0 where
  pub status_code : ℕ
  pub content : J
  -- the header Idempotency-Replayed
  pub replayed : Bool

-- What the call reads of the HTTP request, its user and its headers.
pub record GatewayRequest (J : Type 0) : Type 0 where
  pub user_id : String
  pub idempotency_key : Option String
  pub method : String
  pub path : String
  pub payload : J

pub record Gateway (J S : Type 0) : Type 0 where
  pub idempotency_keys : List (IdempotencyRecord J)
  pub services : S

-- The widths of the columns user_id, idempotency_key, method and path. The row's id and the hash
-- have fixed lengths that fit.
abbrev pub fits_scope : String → String → String → String → Bool
fits_scope user_id key method path =
    leb (count user_id) 128 && leb (count key) 256 && leb (count method) 16 && leb (count path) 512

module _ {J : Type 0} where
  abbrev pub in_scope : String → String → String → String → IdempotencyRecord J → Bool
  in_scope user_id key method path r =
      r.user_id == user_id && r.idempotency_key == key && r.method == method && r.path == path

  unfoldable pub find_record :
      String → String → String → String → List (IdempotencyRecord J) → Option (IdempotencyRecord J)
  find_record user_id key method path rows = select_first (in_scope user_id key method path) rows

  -- A row that the unique constraint refuses, or that does not fit its columns, is an error of the
  -- database.
  unfoldable pub store_record :
      IdempotencyRecord J → Exec (List (IdempotencyRecord J)) GatewayError (Unit {0})
  unfolding find_record
  store_record r rows =
      if is_some (find_record r.user_id r.idempotency_key r.method r.path rows)
        || not (fits_scope r.user_id r.idempotency_key r.method r.path)
      then (err database_failed, rows)
      else (ok tt, r ∷ rows)

module _ {J : Type 0} (request_hash : J → String) where
  abbrev pub response_record : GatewayRequest J → String → ℕ → J → IdempotencyRecord J
  response_record q key status body = record {
    user_id = q.user_id;
    idempotency_key = key;
    method = q.method;
    path = q.path;
    request_hash = request_hash q.payload;
    response_status = status;
    response_body = body;
  }

  -- A stored record: its response again, or 409 for another payload.
  abbrev pub replay : GatewayRequest J → IdempotencyRecord J → Result GatewayError (JsonResponse J)
  replay q r =
      if r.request_hash == request_hash q.payload
      then ok
          (record { status_code = r.response_status; content = r.response_body; replayed = true })
      else err (gateway_error 409 "IDEMPOTENCY_KEY_CONFLICT")

module _ {J S : Type 0} where
  -- The response, once `store_record` has returned.
  abbrev pub stored :
      ℕ
      → J
      → S
      → Result GatewayError (Unit {0}) × List (IdempotencyRecord J)
      → Result GatewayError (JsonResponse J) × Gateway J S
  stored status body s (ok _, rows) = (
    ok (record { status_code = status; content = body; replayed = false }),
    record { idempotency_keys = rows; services = s },
  )
  stored status body s (err e, rows) = (err e, record { idempotency_keys = rows; services = s })

module _ {J S : Type 0} (request_hash : J → String) where
  -- What follows the handler. What the handler has written stays written.
  abbrev after_handler :
      GatewayRequest J
      → String
      → Result GatewayError (ℕ × J) × S
      → List (IdempotencyRecord J)
      → Result GatewayError (JsonResponse J) × Gateway J S
  after_handler q key (err e, s) rows = (err e, record { idempotency_keys = rows; services = s })
  after_handler q key (ok (status, body), s) rows =
      stored status body s (store_record (response_record request_hash q key status body) rows)

  -- What follows the lookup, which is a transaction of its own.
  abbrev pub after_lookup :
      GatewayRequest J
      → String
      → Exec S GatewayError (ℕ × J)
      → Option (IdempotencyRecord J)
      → Exec (Gateway J S) GatewayError (JsonResponse J)
  after_lookup q key handler (some r) g = (replay request_hash q r, g)
  after_lookup q key handler none g = after_handler q key (handler g.services) g.idempotency_keys

  unfoldable pub idempotent_json_response :
      GatewayRequest J
      → Exec S GatewayError (ℕ × J)
      → Exec (Gateway J S) GatewayError (JsonResponse J)
  unfolding find_record store_record
  idempotent_json_response q handler g = elim (present q.idempotency_key) [
    | none ↦ (err (gateway_error 400 "IDEMPOTENCY_KEY_REQUIRED"), g)
    | some key ↦
        after_lookup q key handler (find_record q.user_id key q.method q.path g.idempotency_keys) g
  ]
