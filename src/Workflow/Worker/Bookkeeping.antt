-- ===== src/Workflow/Worker/Bookkeeping.antt =====
-- The `finally` clause of `_process_message`: which messages are recorded and acknowledged.
use mathlib.Core.Path.{subst}
use retail_ops_microservices.Base.{
  ◌∙◌, ℕ, String, ◌≡◌, refl, ap, ◌⊎◌, inl, inr, Bool, true, false, Option, none, some, List, ◌∷◌,
  arith, Bool-cases, is_some, eq_refl, Time,
}
use retail_ops_microservices.Base.Exec.{Result-cases, Result, ok, err, ◌>>=◌}
use retail_ops_microservices.Base.Rows.{select_first}
use retail_ops_microservices.Workflow.Types.{StreamMessage, ProcessedMessage}
use retail_ops_microservices.Workflow.External.{
  External, WorkerError, database_failed, redis_failed,
}
use retail_ops_microservices.Workflow.System.{System, Acknowledged, xack}
use retail_ops_microservices.Workflow.Repository.{
  same_message, record_processed_message, fits_error, fits_message, cast_optional,
}
use retail_ops_microservices.Workflow.Worker.Process.{finish, processed_row}

-- Whether a row of the table has this message's stream, group, consumer and stream id.
abbrev pub is_recorded : List ProcessedMessage → ProcessedMessage → Bool
is_recorded rows row = is_some (select_first (same_message row) rows)

same_message_refl : (row : ProcessedMessage) → same_message row row ≡ true
same_message_refl row = ground (
  arith,
  eq_refl row.stream_name,
  eq_refl row.group_name,
  eq_refl row.consumer_name,
  eq_refl row.redis_message_id,
)

module _ {W : Type 0} (x : External W) (row : String → Time → ProcessedMessage) (s : System W) where
  abbrev recorded_row : ProcessedMessage
  recorded_row = let (t, w) = x.now s.outside in row (x.uuid w).0 t

  abbrev stamped : System W
  stamped = let (t, w) = x.now s.outside in record s { outside = (x.uuid w).1 }

  cast-cases :
      (o : Option String) (s' : System W)
      → (cast_optional x o s' ≡ (ok tt, s'))
        ⊎ ((e : WorkerError) × (cast_optional x o s' ≡ (err e, s')))
  cast-cases none s' = inl refl
  cast-cases (some id) s' = elim (Bool-cases (x.is_uuid id)) [
    | inl valid ↦ inl (rw valid)
    | inr invalid ↦ inr (database_failed "invalid uuid", rw invalid)
  ]

  -- The row is new and is added, or it is there already, or the call raises; only a new row
  -- changes the table.
  record-cases :
      ((e : WorkerError) × (record_processed_message x row s ≡ (err e, stamped)))
      ⊎ ((is_recorded s.processed recorded_row ≡ true)
          × (record_processed_message x row s ≡ (ok false, stamped)))
      ⊎ ((is_recorded s.processed recorded_row ≡ false)
          × (record_processed_message x row s
              ≡ (ok true, record stamped { processed = recorded_row ∷ s.processed })))
  unfolding record_processed_message ◌>>=◌
  record-cases = elim (cast-cases recorded_row.workflow_id stamped) [
    | inr (e, raised) ↦ inl (e, rw raised)
    | inl cast ↦ elim (Bool-cases (fits_message recorded_row)) [
      | inr long ↦ inl (database_failed "value too long", rw (cast, long))
      | inl short ↦ elim (Bool-cases (is_recorded s.processed recorded_row)) [
        | inl old ↦ inr (inl (old, rw (cast, short, old)))
        | inr new ↦ inr (inr (new, rw (cast, short, new)))
      ]
    ]
  ]

  -- A row whose error is longer than its column is refused.
  record-refused :
      fits_error recorded_row.error ≡ false
      → (e : WorkerError) × (record_processed_message x row s ≡ (err e, stamped))
  unfolding record_processed_message ◌>>=◌
  record-refused long_ =
      let long : fits_message recorded_row ≡ false = rw long_ refl in
      elim (cast-cases recorded_row.workflow_id stamped) [
        | inr (e, raised) ↦ (e, rw raised)
        | inl cast ↦ (database_failed "value too long", rw (cast, long))
      ]

module _ {W : Type 0} (x : External W) (c : String) (m : StreamMessage) (g : String) where
  -- The message's key in the table; its other columns do not matter.
  abbrev pub message_row : ProcessedMessage
  message_row = processed_row x c m g "" none "" 0

  abbrev pub acknowledgement : Acknowledged
  acknowledgement = record { stream = m.stream; group = g; message_id = m.message_id }

  -- The three ways in which the `finally` clause can leave the books.
  pub data BooksAfter (before after : System W) (r : Result WorkerError (Unit {0})) : Type 0 where
    not_recorded :
        (e : WorkerError)
        → r ≡ err e
        → after.processed ≡ before.processed
        → after.acked ≡ before.acked
        → BooksAfter before after r
    seen_before :
        is_recorded before.processed message_row ≡ true
        → after.processed ≡ before.processed
        → after.acked ≡ before.acked
        → BooksAfter before after r
    newly_recorded :
        is_recorded before.processed message_row ≡ false
        → is_recorded after.processed message_row ≡ true
        → (after.acked ≡ acknowledgement ∷ before.acked)
          ⊎ ((e : WorkerError) × (r ≡ err e) × (after.acked ≡ before.acked))
        → BooksAfter before after r

  xack-cases :
      (s : System W)
      → ((n : ℕ) × (w : W) × (xack x m.stream g m.message_id s
            ≡ (ok n, record s { acked = acknowledgement ∷ s.acked; outside = w })))
        ⊎ ((e : WorkerError) × (w : W) × (xack x m.stream g m.message_id s
              ≡ (err e, record s { outside = w })))
  unfolding xack
  xack-cases s = elim (Result-cases (x.xack m.stream g m.message_id s.outside).0) [
    | inl (n, e) ↦ inl (n, (x.xack m.stream g m.message_id s.outside).1, rw (xack, e))
    | inr (t, e) ↦ inr (redis_failed t, (x.xack m.stream g m.message_id s.outside).1, rw (xack, e))
  ]

  row_recorded :
      (st : String) (o : Option String) (id : String) (t : Time) (rows : List ProcessedMessage)
      → is_recorded (processed_row x c m g st o id t ∷ rows) message_row ≡ true
  unfolding select_first
  row_recorded st o id t rows = rw (same_message_refl message_row)

  pub finish-books :
      (st : String) (o : Option String) (s : System W)
      → BooksAfter s (finish x c m g st o s).1 (finish x c m g st o s).0
  unfolding finish ◌>>=◌
  finish-books st o s = elim (record-cases x (processed_row x c m g st o) s) [
    | inl (e, raised) ↦ rw (finish, raised) (not_recorded e refl refl refl)
    | inr (inl (old, returned)) ↦ rw (finish, returned) (seen_before old refl refl)
    | inr (inr (new, returned)) ↦
        rw (finish, returned)
          (let (t, w) = x.now s.outside in
            let (id, w') = x.uuid w in
            let rec = row_recorded st o id t s.processed in
            elim (xack-cases (record s {
              processed = processed_row x c m g st o id t ∷ s.processed;
              outside = w';
            })) [
              | inl (n, v, acked) ↦ rw acked (newly_recorded new rec (inl refl))
              | inr (e, v, raised) ↦ rw raised (newly_recorded new rec (inr (e, refl, refl)))
            ])
  ]

  -- With such an error the `finally` clause raises and books nothing.
  pub finish-refused :
      (st : String) (o : Option String) (s : System W)
      → fits_error o ≡ false
      → (e : WorkerError) × ((finish x c m g st o s).0 ≡ err e)
        × ((finish x c m g st o s).1.processed ≡ s.processed)
        × ((finish x c m g st o s).1.acked ≡ s.acked)
  unfolding finish ◌>>=◌
  finish-refused st o s long =
      let (e, raised) = record-refused x (processed_row x c m g st o) s long in
      (e, rw (finish, raised) refl, rw (finish, raised) refl, rw (finish, raised) refl)

  -- The same, counted from an earlier state with the same books.
  pub BooksAfter-rebase :
      (before s after : System W) {r : Result WorkerError (Unit {0})}
      → before.processed ≡ s.processed
      → before.acked ≡ s.acked
      → BooksAfter before after r
      → BooksAfter s after r
  BooksAfter-rebase before s after p q (not_recorded e h i j) = not_recorded e h (i ∙ p) (j ∙ q)
  BooksAfter-rebase before s after p q (seen_before h i j) =
      seen_before (subst (λ rows. is_recorded rows message_row ≡ true) p h) (i ∙ p) (j ∙ q)
  BooksAfter-rebase before s after p q (newly_recorded h i (inl a)) =
      newly_recorded (subst (λ rows. is_recorded rows message_row ≡ false) p h) i
        (inl (a ∙ ap (λ acks. acknowledgement ∷ acks) q))
  BooksAfter-rebase before s after p q (newly_recorded h i (inr (e, raised, a))) =
      newly_recorded (subst (λ rows. is_recorded rows message_row ≡ false) p h) i
        (inr (e, raised, a ∙ q))
