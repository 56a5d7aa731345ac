-- ===== src/Http.antt =====
-- What FastAPI makes of a handler's outcome: a status code with a body, or an error with a detail.
use retail_ops_microservices.Base.{ℕ, String}

-- `HTTPException`, and the codes that the framework itself gives: 422 for a body that a schema
-- refuses, 500 for an exception that no handler catches.
pub record HttpError : Type 0 where
  pub status_code : ℕ
  pub detail : String

abbrev pub http_error : ℕ → String → HttpError
http_error code text = record { status_code = code; detail = text }

abbrev pub not_found : String → HttpError
not_found = http_error 404

abbrev pub conflict : String → HttpError
conflict = http_error 409

abbrev pub unprocessable : HttpError
unprocessable = http_error 422 "Unprocessable Entity"

abbrev pub server_error : HttpError
server_error = http_error 500 "Internal Server Error"
