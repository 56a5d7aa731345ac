-- ===== src/Gateway/Idempotency/Replay.antt =====
-- What `idempotent_json_response` answers, to the first request with a key and to the later ones.
use retail_ops_microservices.Base.{
  ◌≡◌, ◌≢◌, refl, inl, inr, true, false, Option, none, some, List, ◌∷◌, String, arith, eq_iff,
  eq_refl, present, Bool-cases, ℕ, ◌∙◌,
}
use retail_ops_microservices.Base.Exec.{ok, err, Exec, Result-cases}
use retail_ops_microservices.Gateway.Idempotency.{
  IdempotencyRecord, GatewayError, gateway_error, database_failed, JsonResponse, GatewayRequest,
  Gateway, in_scope, fits_scope, find_record, store_record, response_record, replay, after_lookup,
  idempotent_json_response,
}
use retail_ops_microservices.Gateway.Idempotency.Table.{
  in_scope-same, find_record-head, find_record-tail, store_record-cases, stored-keys,
  idempotent_json_response-cases,
}

module _ {J : Type 0} where
  -- A record that is found in its scope is found there after another one is stored.
  store_record-stable :
      (r a : IdempotencyRecord J) (u k m p : String) (rows : List (IdempotencyRecord J))
      → find_record u k m p rows ≡ some a
      → find_record u k m p (store_record r rows).1 ≡ some a
  store_record-stable r a u k m p rows h = elim (store_record-cases r rows) [
    | inr done ↦ rw done h
    | inl (free, done) ↦ elim (Bool-cases (in_scope u k m p r)) [
      | inr other ↦ rw done (find_record-tail r u k m p rows other ∙ h)
      | inl own ↦
          let (eu, ek, em, ep) = in_scope-same r u k m p own in
          let clash : find_record u k m p rows ≡ none = rw (← eu, ← ek, ← em, ← ep) free in cc
    ]
  ]

-- A request, with what the other services make of it.
pub record Call (J S : Type 0) : Type 0 where
  pub request : GatewayRequest J
  pub handler : Exec S GatewayError (ℕ × J)

module _ {J S : Type 0} (request_hash : J → String) where
  abbrev pub answer : Call J S → Exec (Gateway J S) GatewayError (JsonResponse J)
  answer c = idempotent_json_response request_hash c.request c.handler

  -- The gateways that requests, whatever is answered, lead to.
  pub data Serves (start : Gateway J S) : Gateway J S → Type 0 where
    here : Serves start start
    next : {g : Gateway J S} → Serves start g → (c : Call J S) → Serves start (answer c g).1

  after_lookup-stable :
      (q : GatewayRequest J) (key : String) (handler : Exec S GatewayError (ℕ × J))
      (found : Option (IdempotencyRecord J)) (a : IdempotencyRecord J) (u k m p : String)
      (g : Gateway J S)
      → find_record u k m p g.idempotency_keys ≡ some a
      → find_record u k m p (after_lookup request_hash q key handler found g).1.idempotency_keys
        ≡ some a
  after_lookup-stable q key handler (some r) a u k m p g h = h
  after_lookup-stable q key handler none a u k m p g h =
      elim (Result-cases (handler g.services).0) [
        | inr (e, raised) ↦ rw raised h
        | inl ((status, body), e) ↦
            let r = response_record request_hash q key status body in
            rw e (
              rw
                (stored-keys status body (handler g.services).1 (store_record r g.idempotency_keys))
                (store_record-stable r a u k m p g.idempotency_keys h))
      ]

  -- No request changes or removes a stored record.
  answer-stable :
      (c : Call J S) (a : IdempotencyRecord J) (u k m p : String) (g : Gateway J S)
      → find_record u k m p g.idempotency_keys ≡ some a
      → find_record u k m p (answer c g).1.idempotency_keys ≡ some a
  answer-stable c a u k m p g h =
      elim (idempotent_json_response-cases request_hash c.request c.handler g) [
        | inl (e, done) ↦ rw done h
        | inr (key, e, done) ↦ rw done (
            after_lookup-stable c.request key c.handler
              (find_record c.request.user_id key c.request.method c.request.path g.idempotency_keys)
              a u k m p g h)
      ]

  Serves-stable :
      (a : IdempotencyRecord J) (u k m p : String) {g g' : Gateway J S}
      → Serves g g'
      → find_record u k m p g.idempotency_keys ≡ some a
      → find_record u k m p g'.idempotency_keys ≡ some a
  Serves-stable a u k m p here h = h
  Serves-stable a u k m p (next {g = mid} s c) h =
      answer-stable c a u k m p mid (Serves-stable a u k m p s h)

  -- The first request with a key: the handler's response is returned and stored.
  idempotent_json_response-first :
      (q : GatewayRequest J) (handler : Exec S GatewayError (ℕ × J)) (g : Gateway J S)
      (key : String) (status : ℕ) (body : J) (s : S)
      → present q.idempotency_key ≡ some key
      → find_record q.user_id key q.method q.path g.idempotency_keys ≡ none
      → fits_scope q.user_id key q.method q.path ≡ true
      → handler g.services ≡ (ok (status, body), s)
      → idempotent_json_response request_hash q handler g ≡ (
        ok (record { status_code = status; content = body; replayed = false }),
        record {
          idempotency_keys = response_record request_hash q key status body ∷ g.idempotency_keys;
          services = s;
        },
      )
  unfolding idempotent_json_response store_record
  idempotent_json_response-first q handler g key status body s e free fit h =
      ground (arith, e, free, fit, h)

  -- The answer to a request in the scope of a stored record.
  found-answer :
      (q : GatewayRequest J) (handler : Exec S GatewayError (ℕ × J)) (g : Gateway J S)
      (key : String) (r : IdempotencyRecord J)
      → present q.idempotency_key ≡ some key
      → find_record q.user_id key q.method q.path g.idempotency_keys ≡ some r
      → idempotent_json_response request_hash q handler g ≡ (replay request_hash q r, g)
  unfolding idempotent_json_response
  found-answer q handler g key r e h = rw (e, idempotent_json_response, h)

  -- After a request with a key was answered by its handler, where user, key, method and path fit
  -- their columns, and after any further requests, the same request is answered with the stored response, marked as replayed, whatever the handler
  -- would do now, and nothing changes.
  pub idempotent_json_response-replay :
      (q : GatewayRequest J) (handler handler' : Exec S GatewayError (ℕ × J)) (g g' : Gateway J S)
      (key : String) (status : ℕ) (body : J) (s : S)
      → present q.idempotency_key ≡ some key
      → find_record q.user_id key q.method q.path g.idempotency_keys ≡ none
      → fits_scope q.user_id key q.method q.path ≡ true
      → handler g.services ≡ (ok (status, body), s)
      → Serves (idempotent_json_response request_hash q handler g).1 g'
      → idempotent_json_response request_hash q handler' g'
        ≡ (ok (record { status_code = status; content = body; replayed = true }), g')
  idempotent_json_response-replay q handler handler' g g' key status body s e free fit h later =
      let r = response_record request_hash q key status body in
      let first = idempotent_json_response-first q handler g key status body s e free fit h in
      let found =
        Serves-stable r q.user_id key q.method q.path later
          (rw first (find_record-head r g.idempotency_keys)) in
      found-answer q handler' g' key r e found ∙ (rw (eq_refl (request_hash q.payload)) refl)

  -- After a request with a key was answered by its handler, where user, key, method and path fit
  -- their columns, and after any further requests, a request with the same user, key, method and path and a payload of another hash is refused
  -- with 409, and nothing changes.
  pub idempotent_json_response-conflict :
      (q q' : GatewayRequest J) (handler handler' : Exec S GatewayError (ℕ × J))
      (g g' : Gateway J S) (key : String) (status : ℕ) (body : J) (s : S)
      → present q.idempotency_key ≡ some key
      → find_record q.user_id key q.method q.path g.idempotency_keys ≡ none
      → fits_scope q.user_id key q.method q.path ≡ true
      → handler g.services ≡ (ok (status, body), s)
      → Serves (idempotent_json_response request_hash q handler g).1 g'
      → (q'.user_id ≡ q.user_id)
        × (present q'.idempotency_key ≡ some key)
        × (q'.method ≡ q.method)
        × (q'.path ≡ q.path)
      → request_hash q.payload ≢ request_hash q'.payload
      → idempotent_json_response request_hash q' handler' g'
        ≡ (err (gateway_error 409 "IDEMPOTENCY_KEY_CONFLICT"), g')
  idempotent_json_response-conflict q q' handler handler' g g' key status body s e free fit h later
        (eu, ek, em, ep) ne =
      let r = response_record request_hash q key status body in
      let first = idempotent_json_response-first q handler g key status body s e free fit h in
      let found =
        Serves-stable r q.user_id key q.method q.path later
          (rw first (find_record-head r g.idempotency_keys)) in
      let answered = found-answer q' handler' g' key r ek (rw (eu, em, ep) found) in
      answered ∙ ground (arith, eq_iff (request_hash q.payload) (request_hash q'.payload))

  -- A request with a key that no record has, whose handler raises, stores nothing: the same
  -- request is handled again, and if the handler returns then, its response is returned, not
  -- marked as replayed.
  idempotent_json_response-retry :
      (q : GatewayRequest J) (handler handler' : Exec S GatewayError (ℕ × J)) (g : Gateway J S)
      (key : String) (e : GatewayError) (status : ℕ) (body : J) (s s' : S)
      → present q.idempotency_key ≡ some key
      → find_record q.user_id key q.method q.path g.idempotency_keys ≡ none
      → fits_scope q.user_id key q.method q.path ≡ true
      → handler g.services ≡ (err e, s)
      → handler' s ≡ (ok (status, body), s')
      → let (raised, g') = idempotent_json_response request_hash q handler g in
        (raised ≡ err e)
        × ((idempotent_json_response request_hash q handler' g').0
            ≡ ok (record { status_code = status; content = body; replayed = false }))
        × ((idempotent_json_response request_hash q handler' g').1.services ≡ s')
  unfolding idempotent_json_response store_record
  idempotent_json_response-retry q handler handler' g key e status body s s' k free fit h h' =
      ground (arith, k, free, fit, h, h')

  -- A request with a key that no record has, whose handler returns, and whose user, key, method and
  -- path do not fit their columns, ends in an error of the database and stores no response, while
  -- what the handler has done stays done. The same request again is handled again, with the same
  -- end.
  pub idempotent_json_response-unfit :
      (q : GatewayRequest J) (handler handler' : Exec S GatewayError (ℕ × J)) (g : Gateway J S)
      (key : String) (status status' : ℕ) (body body' : J) (s s' : S)
      → present q.idempotency_key ≡ some key
      → find_record q.user_id key q.method q.path g.idempotency_keys ≡ none
      → fits_scope q.user_id key q.method q.path ≡ false
      → handler g.services ≡ (ok (status, body), s)
      → handler' s ≡ (ok (status', body'), s')
      → let (first, g₁) = idempotent_json_response request_hash q handler g in
        let (second, g₂) = idempotent_json_response request_hash q handler' g₁ in
        (first ≡ err database_failed)
        × (g₁ ≡ record { idempotency_keys = g.idempotency_keys; services = s })
        × (second ≡ err database_failed)
        × (g₂ ≡ record { idempotency_keys = g.idempotency_keys; services = s' })
  unfolding idempotent_json_response store_record
  idempotent_json_response-unfit q handler handler' g key status status' body body' s s' k free
        unfit h h' =
      ground (arith, k, free, unfit, h, h')
