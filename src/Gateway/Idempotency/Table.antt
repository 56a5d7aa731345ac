-- ===== src/Gateway/Idempotency/Table.antt =====
-- The table of idempotent responses, and its scopes: a user, a key, a method and a path.
use retail_ops_microservices.Base.{
  ◌≡◌, ◌⊎◌, refl, inl, inr, true, false, none, some, List, ◌∷◌, String, arith, eq_iff, eq_refl,
  present, Option-cases, Bool-cases, ℕ,
}
use retail_ops_microservices.Base.Exec.{Result, ok, err, Exec}
use retail_ops_microservices.Base.Rows.{select_first}
use retail_ops_microservices.Gateway.Idempotency.{
  IdempotencyRecord, GatewayError, gateway_error, GatewayRequest, Gateway, in_scope, fits_scope,
  find_record, store_record, stored, after_lookup, idempotent_json_response,
}

module _ {J : Type 0} where
  pub in_scope-same :
      (r : IdempotencyRecord J) (u k m p : String)
      → in_scope u k m p r ≡ true
      → (r.user_id ≡ u) × (r.idempotency_key ≡ k) × (r.method ≡ m) × (r.path ≡ p)
  in_scope-same r u k m p h =
      ground
        (arith, eq_iff r.user_id u, eq_iff r.idempotency_key k, eq_iff r.method m, eq_iff r.path p)

  in_scope_refl :
      (r : IdempotencyRecord J) → in_scope r.user_id r.idempotency_key r.method r.path r ≡ true
  in_scope_refl r =
      ground (arith, eq_refl r.user_id, eq_refl r.idempotency_key, eq_refl r.method, eq_refl r.path)

  -- What was just stored is found, and other scopes find what they did.
  pub find_record-head :
      (r : IdempotencyRecord J) (rows : List (IdempotencyRecord J))
      → find_record r.user_id r.idempotency_key r.method r.path (r ∷ rows) ≡ some r
  unfolding find_record select_first
  find_record-head r rows = rw (in_scope_refl r)

  pub find_record-tail :
      (r : IdempotencyRecord J) (u k m p : String) (rows : List (IdempotencyRecord J))
      → in_scope u k m p r ≡ false
      → find_record u k m p (r ∷ rows) ≡ find_record u k m p rows
  unfolding find_record select_first
  find_record-tail r u k m p rows h = rw h

  pub store_record-cases :
      (r : IdempotencyRecord J) (rows : List (IdempotencyRecord J))
      → ((find_record r.user_id r.idempotency_key r.method r.path rows ≡ none)
          × (store_record r rows ≡ (ok tt, r ∷ rows)))
        ⊎ (store_record r rows ≡ (err GatewayError.database_failed, rows))
  unfolding store_record
  store_record-cases r rows =
      elim (Option-cases (find_record r.user_id r.idempotency_key r.method r.path rows)) [
        | inr (q, e) ↦ inr (rw e)
        | inl e ↦ elim (Bool-cases (fits_scope r.user_id r.idempotency_key r.method r.path)) [
          | inl fit ↦ inl (e, rw (e, fit))
          | inr unfit ↦ inr (rw (e, unfit))
        ]
      ]

module _ {J S : Type 0} where
  pub stored-keys :
      (status : ℕ) (body : J) (s : S)
      (a : Result GatewayError (Unit {0}) × List (IdempotencyRecord J))
      → (stored status body s a).1.idempotency_keys ≡ a.1
  stored-keys status body s (ok u, rows) = refl
  stored-keys status body s (err e, rows) = refl

module _ {J S : Type 0} (request_hash : J → String) where
  pub idempotent_json_response-cases :
      (q : GatewayRequest J) (handler : Exec S GatewayError (ℕ × J)) (g : Gateway J S)
      → ((present q.idempotency_key ≡ none)
          × (idempotent_json_response request_hash q handler g
              ≡ (err (gateway_error 400 "IDEMPOTENCY_KEY_REQUIRED"), g)))
        ⊎ ((key : String) × (present q.idempotency_key ≡ some key)
            × (idempotent_json_response request_hash q handler g
                ≡ after_lookup request_hash q key handler
                    (find_record q.user_id key q.method q.path g.idempotency_keys)
                    g))
  unfolding idempotent_json_response
  idempotent_json_response-cases q handler g = elim (Option-cases (present q.idempotency_key)) [
    | inl e ↦ inl (e, rw (e, idempotent_json_response))
    | inr (key, e) ↦ inr (key, e, rw (e, idempotent_json_response))
  ]
