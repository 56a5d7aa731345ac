-- ===== src/Workflow/Worker/Recorded.antt =====
-- Which messages `_process_message` records and acknowledges, over the whole handling of a command.
use Prim.Native.String.{count}
use retail_ops_microservices.Base.{
  some, ◌<◌, ◌∙◌, arith, List, String, ◌≡◌, refl, ap, ◌⊎◌, inl, inr, true, false, ◌∷◌,
}
use retail_ops_microservices.Base.Exec.{Result, ok, err, ◌>>=◌}
use retail_ops_microservices.Workflow.Types.{StreamMessage}
use retail_ops_microservices.Workflow.External.{External, WorkerError}
use retail_ops_microservices.Workflow.System.{System}
use retail_ops_microservices.Workflow.Repository.{fits_error}
use retail_ops_microservices.Workflow.Worker.Process.{
  process_all, process_message, handle_command, finish, outcome_status, outcome_error, rescue,
  after_finally,
}
use retail_ops_microservices.Workflow.Worker.Isolation.{finish-OnRuns}
use retail_ops_microservices.Workflow.Worker.Books.{Books}
use retail_ops_microservices.Workflow.Worker.HandlerBooks.{handle_command-Books, rescue-Books}
use retail_ops_microservices.Workflow.Worker.Bookkeeping.{
  is_recorded, message_row, acknowledgement, BooksAfter, finish-refused, not_recorded, seen_before,
  newly_recorded, finish-books, BooksAfter-rebase,
}

module _ {W : Type 0} (x : External W) (c : String) (m : StreamMessage) (g : String)
    (s : System W) where
  -- The handler's outcome, the state after it and its `except` clause, and the `finally` clause.
  abbrev handled : Result WorkerError (Unit {0}) × System W
  handled = handle_command x m s

  abbrev rescued : Result WorkerError (Unit {0}) × System W
  rescued = rescue x handled.0 m handled.1

  abbrev finished : Result WorkerError (Unit {0}) × System W
  finished = finish x c m g (outcome_status handled.0) (outcome_error x handled.0) rescued.1

  rescued-Books : Books s.processed s.acked rescued.1
  rescued-Books =
      ((rescue-Books x handled.0 m).at handled.1
        ((handle_command-Books x m).at s (record { processed = refl; acked = refl })).0).0

  after-state :
      (a b : Result WorkerError (Unit {0})) (t : System W) → (after_finally x c a (b, t)).1 ≡ t
  after-state a (ok _) t = refl
  after-state a (err e) t = refl

  after-ok :
      (a b : Result WorkerError (Unit {0})) (t t' : System W)
      → after_finally x c a (b, t) ≡ (ok tt, t')
      → (b ≡ ok tt) × (t ≡ t')
  after-ok a (ok u) t t' h = (refl, ap (λ (p : Result WorkerError (Unit {0}) × System W). p.1) h)
  after-ok a (err e) t t' h = cc

  finished-books : BooksAfter x c m g s finished.1 finished.0
  finished-books =
      BooksAfter-rebase x c m g rescued.1 s finished.1 rescued-Books.processed rescued-Books.acked
        (finish-books x c m g (outcome_status handled.0) (outcome_error x handled.0) rescued.1)

  returned-recorded :
      (b : Result WorkerError (Unit {0})) (t : System W)
      → b ≡ ok tt
      → BooksAfter x c m g s t b
      → is_recorded t.processed (message_row x c m g) ≡ true
  returned-recorded b t h (not_recorded e r i j) = cc
  returned-recorded b t h (seen_before old i j) = rw i old
  returned-recorded b t h (newly_recorded new i a) = i

  acked-once :
      (b : Result WorkerError (Unit {0})) (t : System W)
      → BooksAfter x c m g s t b
      → (t.acked ≡ s.acked)
        ⊎ ((t.acked ≡ acknowledgement x c m g ∷ s.acked)
            × (is_recorded s.processed (message_row x c m g) ≡ false)
            × (is_recorded t.processed (message_row x c m g) ≡ true))
  acked-once b t (not_recorded e r i j) = inl j
  acked-once b t (seen_before old i j) = inl j
  acked-once b t (newly_recorded new i (inl a)) = inr (a, new, i)
  acked-once b t (newly_recorded new i (inr (e, r, a))) = inl a

  seen-unchanged :
      (b : Result WorkerError (Unit {0})) (t : System W)
      → is_recorded s.processed (message_row x c m g) ≡ true
      → BooksAfter x c m g s t b
      → (t.processed ≡ s.processed) × (t.acked ≡ s.acked)
  seen-unchanged b t h (not_recorded e r i j) = (i, j)
  seen-unchanged b t h (seen_before old i j) = (i, j)
  seen-unchanged b t h (newly_recorded new i a) = cc

  -- A command whose processing returns without an exception has its row in
  -- `processed_stream_messages`.
  pub process_message_recorded :
      (s' : System W)
      → process_message x c m g (handle_command x) s ≡ (ok tt, s')
      → is_recorded s'.processed (message_row x c m g) ≡ true
  unfolding process_message
  process_message_recorded s' h =
      let (returned, same) = after-ok rescued.0 finished.0 finished.1 s' h in
      rw (← same) (returned-recorded finished.0 finished.1 returned finished-books)

  -- Processing a command acknowledges nothing, or it acknowledges this message once, and then
  -- the message was not recorded before and is recorded afterwards.
  pub process_message_acked :
      let s' = (process_message x c m g (handle_command x) s).1 in
      (s'.acked ≡ s.acked)
      ⊎ ((s'.acked ≡ acknowledgement x c m g ∷ s.acked)
          × (is_recorded s.processed (message_row x c m g) ≡ false)
          × (is_recorded s'.processed (message_row x c m g) ≡ true))
  unfolding process_message
  process_message_acked =
      rw (after-state rescued.0 finished.0 finished.1)
        (acked-once finished.0 finished.1 finished-books)

  -- A command that is delivered again after it was recorded is handled again, and is neither
  -- recorded nor acknowledged.
  pub process_message_redelivered :
      is_recorded s.processed (message_row x c m g) ≡ true
      → let s' = (process_message x c m g (handle_command x) s).1 in
        (s'.processed ≡ s.processed)
        × (s'.acked ≡ s.acked)
        × (s'.runs ≡ (rescue x (handle_command x m s).0 m (handle_command x m s).1).1.runs)
  unfolding process_message
  process_message_redelivered h = rw (after-state rescued.0 finished.0 finished.1) (
    (seen-unchanged finished.0 finished.1 h finished-books).0,
    (seen-unchanged finished.0 finished.1 h finished-books).1,
    ((finish-OnRuns x {P = λ rows. rows ≡ rescued.1.runs} c m g (outcome_status handled.0)
          (outcome_error x handled.0)).at
        rescued.1 (record { rows = refl })).0.rows,
  )

  long_refused : (t : String) → 1024 < count t → fits_error (some t) ≡ false
  long_refused t long = ground arith

  finally-raised :
      (a b : Result WorkerError (Unit {0})) (e : WorkerError) (t : System W)
      → b ≡ err e
      → (after_finally x c a (b, t)).0 ≡ err e
  finally-raised a (ok u) e t h = cc
  finally-raised a (err e') e t h = h

  long-message :
      (e : WorkerError)
      → (handle_command x m s).0 ≡ err e
      → 1024 < count (x.error_text e)
      → (e' : WorkerError) × ((process_message x c m g (handle_command x) s).0 ≡ err e')
        × ((process_message x c m g (handle_command x) s).1.processed ≡ s.processed)
        × ((process_message x c m g (handle_command x) s).1.acked ≡ s.acked)
  unfolding process_message
  long-message e failed long =
      let refused : fits_error (outcome_error x handled.0) ≡ false =
        rw failed (long_refused (x.error_text e) long) in
      let (e', raised, rows, acks) =
        finish-refused x c m g (outcome_status handled.0) (outcome_error x handled.0) rescued.1
          refused in
      (
        e',
        finally-raised rescued.0 finished.0 e' finished.1 raised,
        rw (after-state rescued.0 finished.0 finished.1) (rows ∙ rescued-Books.processed),
        rw (after-state rescued.0 finished.0 finished.1) (acks ∙ rescued-Books.acked),
      )

  -- A command whose handling raises an error with a text of more than 1024 characters stops the
  -- whole batch: the loop raises, and neither this command nor any after it in the batch is
  -- recorded or acknowledged.
  pub process_all_long_error :
      (ms : List StreamMessage) (e : WorkerError)
      → (handle_command x m s).0 ≡ err e
      → 1024 < count (x.error_text e)
      → let (r, s') = process_all x c g (handle_command x) (m ∷ ms) s in
        (e' : WorkerError) × (r ≡ err e') × (s'.processed ≡ s.processed) × (s'.acked ≡ s.acked)
  unfolding process_all ◌>>=◌
  process_all_long_error ms e failed long =
      let (e', raised, rows, acks) = long-message e failed long in
      (e', rw raised refl, rw raised rows, rw raised acks)
