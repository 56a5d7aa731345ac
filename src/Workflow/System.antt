-- ===== src/Workflow/System.antt =====
-- The state that workflow-service works on, and the calls of the outside in its monad.
use retail_ops_microservices.Base.{ℕ, String, List, ◌∷◌, Time}
use retail_ops_microservices.Base.Exec.{Result, ok, err, Exec}
use retail_ops_microservices.Workflow.Types.{
  WorkflowRun, ProcessedMessage, Fields, HttpCall, UpstreamResponse,
}
use retail_ops_microservices.Workflow.External.{
  External, Appending, appended, refused, answer_lost, WorkerError, upstream_failed, redis_failed,
}

-- An entry that XADD has appended to a stream.
pub record Published : Type 0 where
  pub stream : String
  pub fields : Fields

-- An entry that XACK has confirmed for a group.
pub record Acknowledged : Type 0 where
  pub stream : String
  pub group : String
  pub message_id : String

-- The tables `workflow_runs` and `processed_stream_messages`, what was sent to Redis, the newest
-- first, and the state of the outside.
pub record System (W : Type 0) : Type 0 where
  pub runs : List WorkflowRun
  pub processed : List ProcessedMessage
  pub published : List Published
  pub acked : List Acknowledged
  pub outside : W

abbrev pub Work : Type 0 → Type 0 → Type 0
Work W A = Exec (System W) WorkerError A

module _ {W : Type 0} (x : External W) where
  -- `new_message_id()` and `str(uuid4())`
  unfoldable pub new_id : Work W String
  new_id s = let (id, w) = x.uuid s.outside in (ok id, record s { outside = w })

  -- `datetime.now(UTC)`
  unfoldable pub now : Work W Time
  now s = let (t, w) = x.now s.outside in (ok t, record s { outside = w })

  abbrev pub requested :
      {S : Type 0} → Result String UpstreamResponse → S → Result WorkerError UpstreamResponse × S
  requested (ok response) s = (ok response, s)
  requested (err text) s = (err (upstream_failed text), s)

  -- `self._upstream.request`
  unfoldable pub request : HttpCall → Work W UpstreamResponse
  request call s = let (r, w) = x.request call s.outside in requested r (record s { outside = w })

  abbrev pub added : Appending → Published → System W → Result WorkerError String × System W
  added (appended id) entry s = (ok id, record s { published = entry ∷ s.published })
  added (refused text) entry s = (err (redis_failed text), s)
  added (answer_lost text) entry s =
      (err (redis_failed text), record s { published = entry ∷ s.published })

  -- `self._redis.xadd`
  unfoldable pub xadd : String → Fields → Work W String
  xadd stream fields s =
      let (r, w) = x.xadd stream fields s.outside in
      added r (record { stream = stream; fields = fields }) (record s { outside = w })

  abbrev confirmed : Result String ℕ → Acknowledged → System W → Result WorkerError ℕ × System W
  confirmed (ok n) entry s = (ok n, record s { acked = entry ∷ s.acked })
  confirmed (err text) entry s = (err (redis_failed text), s)

  -- `self._redis.xack`
  unfoldable pub xack : String → String → String → Work W ℕ
  xack stream group id s =
      let (r, w) = x.xack stream group id s.outside in
      confirmed r (record { stream = stream; group = group; message_id = id })
        (record s { outside = w })
