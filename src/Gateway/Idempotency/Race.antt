-- ===== src/Gateway/Idempotency/Race.antt =====
-- Two requests with one key whose lookups both come before either response is stored: the lookup
-- and the storage are two transactions, with the handler between them.
use retail_ops_microservices.Base.{◌≡◌, true, false, none, ◌∷◌, String, arith, ℕ}
use retail_ops_microservices.Base.Exec.{ok, err, Exec}
use retail_ops_microservices.Gateway.Idempotency.{
  GatewayError, database_failed, GatewayRequest, Gateway, fits_scope, find_record, store_record,
  response_record, after_lookup,
}
use retail_ops_microservices.Gateway.Idempotency.Table.{find_record-head}

module _ {J S : Type 0} (request_hash : J → String) where
  -- Two requests with the same user, key, method and path, which fit their columns, that both look
  -- the key up before either stores its response are both handled, the second on what the first left. The first is answered
  -- with its response, which alone is stored; the second ends in an error of the database.
  pub after_lookup-race :
      (q q' : GatewayRequest J) (handler handler' : Exec S GatewayError (ℕ × J)) (g : Gateway J S)
      (key : String) (status status' : ℕ) (body body' : J) (s s' : S)
      → find_record q.user_id key q.method q.path g.idempotency_keys ≡ none
      → fits_scope q.user_id key q.method q.path ≡ true
      → (q'.user_id ≡ q.user_id) × (q'.method ≡ q.method) × (q'.path ≡ q.path)
      → handler g.services ≡ (ok (status, body), s)
      → handler' s ≡ (ok (status', body'), s')
      → let found = find_record q.user_id key q.method q.path g.idempotency_keys in
        let (first, g₁) = after_lookup request_hash q key handler found g in
        let (second, g₂) = after_lookup request_hash q' key handler' found g₁ in
        (first ≡ ok (record { status_code = status; content = body; replayed = false }))
        × (second ≡ err database_failed)
        × (g₂.services ≡ s')
        × (g₂.idempotency_keys
            ≡ response_record request_hash q key status body ∷ g.idempotency_keys)
  unfolding store_record
  after_lookup-race q q' handler handler' g key status status' body body' s s' free fit (eu, em, ep)
        h h' =
      ground (
        arith,
        free,
        fit,
        h,
        h',
        find_record-head (response_record request_hash q key status body) g.idempotency_keys,
      )
