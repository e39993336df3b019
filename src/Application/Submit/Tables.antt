-- ===== src/Application/Submit/Tables.antt =====
-- About the tables during a whole invocation of src/boolean_maybe/application/submit.py.
use boolean_maybe.Prelude.{
  ℕ, ◌≡◌, ◌≢◌, refl, inl, inr, Bool, true, false, Option, none, some, List, [], ◌∷◌, All, map,
}
use boolean_maybe.Domain.Backoff.{RandomSource}
use boolean_maybe.Domain.RetryAfter.{Text}
use boolean_maybe.Persistence.Rows.{Ident, Instant, Bytes, JobRow, Database}
use boolean_maybe.Persistence.Database.{Result, ok, err, run, cancelled, out_of_draws}
use boolean_maybe.Persistence.Ledger.Evolution.{Present}
use boolean_maybe.Persistence.PreSideEffect.{
  PreSideEffectResult, ready_to_submit, already_completed, recovery_candidate,
  terminal_failed_permanent, terminal_ambiguous, not_yet_eligible,
}
use boolean_maybe.Persistence.PreSideEffect.Steps.{Decides}
use boolean_maybe.Persistence.PreSideEffect.Loops.{run_supplied-Decides, run_generated-Decides}
use boolean_maybe.Persistence.Reachable.{
  Step, supplied, generated, Reachable, after, Reachable-IsConsistent,
}
use boolean_maybe.Persistence.Reachable.Histories.{Steps-Reachable}
use boolean_maybe.Application.Flow.{World, Flow, transact}
use boolean_maybe.Application.Flow.Rules.{
  Ensures, Keeps, Tells, Leaves, settle-Ensures, run-cases, Lawful, Holding,
}
use boolean_maybe.Application.Recovery.{
  RecoveryResult, recover_and_reconcile, reconciliation, rerouted, persistence_failed,
}
use boolean_maybe.Application.Recovery.Sound.{
  IsSettledRecovery, LawfulRecovery, recover_and_reconcile-Leaves,
}
use boolean_maybe.Application.Submit.{SubmitOutcome}
use boolean_maybe.Application.Submit.Dispatch.{
  Submission, Dispatched, finished, retry_eligible, dispatch_and_finalize,
}
use boolean_maybe.Application.Submit.Sound.{LawfulDispatch, IsDated, dispatch_and_finalize-Tells}
use boolean_maybe.Application.Submit.Run.{
  Drawn, Pass, Progress, PassEnd, returned, continued, call_of, keyed_call_of, waiting,
  if_it_fitted, returning_outcome, after_recovery, retrying, retry_instant, after_dispatch,
  conflict_with, begin_transaction, beginning, after_begin, run_pass, next_pass, run_passes,
  first_progress, run_with_connection,
}

module _ (is_canonical : Bytes → Bool) (payload_digest : Bytes → Ident) (strptime : Text → Option ℕ)
    (random : RandomSource) (s : Submission) where
  abbrev R : World → Type 0
  R w = Reachable is_canonical strptime random w.db

  -- The other processes are the program's in every call of the pass.
  pub record LawfulPass (pass : Pass) : Type 0 where
    pub begin : Lawful is_canonical strptime random pass.begin
    pub recovery : LawfulRecovery is_canonical strptime random pass.recovery
    pub dispatch : LawfulDispatch is_canonical strptime random pass.dispatch

  -- The attempt that a first transaction names is in the tables.
  abbrev Named : Result PreSideEffectResult → Database → Type 0
  Named (ok (ready_to_submit j a)) db = Present j.job_id a.attempt_id a.attempt_number db
  Named (ok (recovery_candidate j a)) db = Present j.job_id a.attempt_id a.attempt_number db
  Named _ db = Unit

  Decides-Named :
      (db : Database) (r : PreSideEffectResult) (db' : Database)
      → Decides db r db'
      → Named (ok r) db'
  Decides-Named db (ready_to_submit j a) db' d = d.shows.0
  Decides-Named db (recovery_candidate j a) db' d = d.shows
  Decides-Named db (already_completed j a) db' d = tt
  Decides-Named db (terminal_failed_permanent j a) db' d = tt
  Decides-Named db (terminal_ambiguous j a) db' d = tt
  Decides-Named db PreSideEffectResult.idempotency_conflict db' d = tt
  Decides-Named db (not_yet_eligible j t) db' d = tt
  Decides-Named db (PreSideEffectResult.job_in_progress j) db' d = tt

  begin_transaction-Step :
      (key : Option Ident) (turns : List Drawn) (db : Database) (r : PreSideEffectResult)
      (db' : Database)
      → Reachable is_canonical strptime random db
      → begin_transaction is_canonical payload_digest strptime random s key turns db ≡ ok (r, db')
      → Step is_canonical strptime random db db' × Decides db r db'
  unfolding begin_transaction
  begin_transaction-Step none turns db r db' reached h =
      let v = Reachable-IsConsistent is_canonical strptime random db reached in
      let calls = map (keyed_call_of s) turns in
      (
        generated calls s.canonical_bytes r h,
        run_generated-Decides is_canonical calls s.canonical_bytes db r db' v h,
      )
  begin_transaction-Step (some key) turns db r db' reached h =
      let v = Reachable-IsConsistent is_canonical strptime random db reached in
      let calls = map (call_of s) turns in
      (
        supplied calls key s.canonical_bytes r h,
        run_supplied-Decides is_canonical calls key s.canonical_bytes db r db' v h,
      )

  beginning-Ensures :
      (key : Option Ident) (pass : Pass)
      → LawfulPass pass
      → Ensures R
          (beginning is_canonical payload_digest strptime random s key pass)
          (λ x w. R w × Named x w.db)
  unfolding beginning transact
  beginning-Ensures key pass lawful w reached =
      let body = begin_transaction is_canonical payload_digest strptime random s key pass.turns in
      let db0 = pass.begin.others w.db in
      let reached0 =
        Steps-Reachable is_canonical strptime random w.db db0 (lawful.begin w.db reached) reached in
      elim (run-cases pass.begin.fault body db0) [
        | inl (same, failed) ↦
            (rw same reached0, unnamed (run pass.begin.fault body db0).0 _ failed)
        | inr (r, done, said) ↦
            let (step, decides) = begin_transaction-Step key pass.turns db0 r _ reached0 done in
            (after db0 _ reached0 step, rw said (Decides-Named db0 r _ decides))
      ]
    where
      unnamed :
          (x : Result PreSideEffectResult) (db : Database)
          → ((r : PreSideEffectResult) → x ≢ ok r)
          → Named x db
      unnamed (ok r) db failed = absurd (failed r refl)
      unnamed (err e) db failed = tt

  waiting-Keeps : (not_before now : Instant) → Keeps R (waiting not_before now)
  unfolding waiting
  waiting-Keeps not_before now w h = h

  if_it_fitted-Keeps :
      (p : Progress) (outcome : SubmitOutcome) (x : Result Bool)
      → Keeps R (if_it_fitted p outcome x)
  unfolding if_it_fitted
  if_it_fitted-Keeps p outcome (ok true) = λ w h. h
  if_it_fitted-Keeps p outcome (ok false) = λ w h. h
  if_it_fitted-Keeps p outcome (err e) = λ w h. h

  returning_outcome-Keeps : (x : Result SubmitOutcome) → Keeps R (returning_outcome x)
  returning_outcome-Keeps (ok outcome) = λ w h. h
  returning_outcome-Keeps (err e) = λ w h. h

  after_recovery-Keeps :
      (submitted : Bool) (job : JobRow) (x : Result RecoveryResult)
      → Keeps R (after_recovery s submitted job x)
  unfolding after_recovery
  after_recovery-Keeps submitted job (ok (reconciliation x)) = returning_outcome-Keeps _
  after_recovery-Keeps submitted job (ok rerouted) = λ w h. h
  after_recovery-Keeps submitted job (ok persistence_failed) = λ w h. h
  after_recovery-Keeps submitted job (err e) = λ w h. h

  retrying-Keeps :
      (submitted : Bool) (job : JobRow) (at : Option Instant) (pass : Pass)
      → Keeps R (retrying submitted job at pass)
  unfolding retrying
  retrying-Keeps submitted job none pass = λ w h. h
  retrying-Keeps submitted job (some not_before) pass =
      settle-Ensures R (λ _ w. R w) (λ _ w. R w) (waiting not_before pass.retry_from)
        (if_it_fitted _ _) (waiting-Keeps not_before pass.retry_from) (if_it_fitted-Keeps _ _)

  after_dispatch-Keeps :
      (submitted : Bool) (job : JobRow) (pass : Pass) (x : Result (Dispatched × Bool))
      → Keeps R (after_dispatch submitted job pass x)
  unfolding after_dispatch
  after_dispatch-Keeps submitted job pass (ok (finished outcome, this_attempt)) = λ w h. h
  after_dispatch-Keeps submitted job pass (ok (retry_eligible j a, this_attempt)) =
      retrying-Keeps _ j (retry_instant a.completed_at a.retry_after_ms) pass
  after_dispatch-Keeps submitted job pass (err cancelled) = λ w h. h
  after_dispatch-Keeps submitted job pass (err out_of_draws) = λ w h. h
  after_dispatch-Keeps submitted job pass (err _) = λ w h. h

  conflict_with-Keeps : (key : Option Ident) → Keeps R (conflict_with key)
  unfolding conflict_with
  conflict_with-Keeps none = λ w h. h
  conflict_with-Keeps (some key) = λ w h. h

  after_begin-Ensures :
      (p : Progress) (pass : Pass) (x : Result PreSideEffectResult)
      → LawfulPass pass
      → Ensures
          (λ w. R w × Named x w.db)
          (after_begin is_canonical payload_digest strptime random s p pass x)
          (λ _ w. R w)
  unfolding after_begin
  after_begin-Ensures p pass (err e) lawful = λ w h. h.0
  after_begin-Ensures p pass (ok PreSideEffectResult.idempotency_conflict) lawful =
      λ w h. conflict_with-Keeps s.supplied_key w h.0
  after_begin-Ensures p pass (ok (already_completed j a)) lawful =
      λ w h. returning_outcome-Keeps _ w h.0
  after_begin-Ensures p pass (ok (PreSideEffectResult.job_in_progress j)) lawful = λ w h. h.0
  after_begin-Ensures p pass (ok (terminal_failed_permanent j a)) lawful = λ w h. h.0
  after_begin-Ensures p pass (ok (terminal_ambiguous j a)) lawful = λ w h. h.0
  after_begin-Ensures p pass (ok (not_yet_eligible j t)) lawful =
      settle-Ensures (λ w. R w × Unit) (λ _ w. R w) (λ _ w. R w) (waiting t pass.wait_from)
        (if_it_fitted _ _) (λ w h. waiting-Keeps t pass.wait_from w h.0) (if_it_fitted-Keeps _ _)
  after_begin-Ensures p pass (ok (recovery_candidate j a)) lawful =
      settle-Ensures (Holding is_canonical strptime random j.job_id a.attempt_id a.attempt_number)
        (Leaves (Holding is_canonical strptime random j.job_id a.attempt_id a.attempt_number)
          (IsSettledRecovery j.job_id a.attempt_id))
        (λ _ w. R w)
        (recover_and_reconcile strptime random j a s.invocation_token s.lease_seconds pass.recovery)
        (after_recovery s p.submitted_this_invocation j)
        (recover_and_reconcile-Leaves is_canonical strptime random j a s.invocation_token
          s.lease_seconds a.attempt_number pass.recovery lawful.recovery)
        (λ x w h. after_recovery-Keeps p.submitted_this_invocation j x w h.0.0)
  after_begin-Ensures p pass (ok (ready_to_submit j a)) lawful =
      settle-Ensures (Holding is_canonical strptime random j.job_id a.attempt_id a.attempt_number)
        (Tells (Holding is_canonical strptime random j.job_id a.attempt_id a.attempt_number)
          IsDated)
        (λ _ w. R w) (dispatch_and_finalize strptime random s j a pass.dispatch)
        (after_dispatch p.submitted_this_invocation j pass)
        (dispatch_and_finalize-Tells is_canonical strptime random s j a pass.dispatch
          lawful.dispatch)
        (λ x w h. after_dispatch-Keeps p.submitted_this_invocation j pass x w h.0.0)

  run_pass-Keeps :
      (p : Progress) (pass : Pass)
      → LawfulPass pass
      → Keeps R (run_pass is_canonical payload_digest strptime random s p pass)
  unfolding run_pass
  run_pass-Keeps p pass lawful =
      settle-Ensures R (λ x w. R w × Named x w.db) (λ _ w. R w)
        (beginning is_canonical payload_digest strptime random s p.current_key pass)
        (after_begin is_canonical payload_digest strptime random s p pass)
        (beginning-Ensures p.current_key pass lawful) (λ x. after_begin-Ensures p pass x lawful)

  next_pass-Keeps :
      (rest : Progress → Flow SubmitOutcome) (x : Result PassEnd)
      → ((p : Progress) → Keeps R (rest p))
      → Keeps R (next_pass is_canonical payload_digest strptime random s rest x)
  unfolding next_pass
  next_pass-Keeps rest (ok (returned outcome)) keeps = λ w h. h
  next_pass-Keeps rest (ok (continued p)) keeps = keeps p
  next_pass-Keeps rest (err e) keeps = λ w h. h

  run_passes-Keeps :
      (passes : List Pass) (p : Progress)
      → All LawfulPass passes
      → Keeps R (run_passes is_canonical payload_digest strptime random s passes p)
  unfolding run_passes
  run_passes-Keeps [] p lawful = λ w h. h
  run_passes-Keeps (pass ∷ passes) p lawful =
      settle-Ensures R (λ _ w. R w) (λ _ w. R w)
        (run_pass is_canonical payload_digest strptime random s p pass)
        (next_pass is_canonical payload_digest strptime random s
          (λ q. run_passes is_canonical payload_digest strptime random s passes q))
        (run_pass-Keeps p pass lawful.0)
        (λ x. next_pass-Keeps _ x (λ q. run_passes-Keeps passes q lawful.1))

  -- An invocation, among other processes of the program, leaves the tables as some sequence of the
  -- program's transactions does from the empty ones, if it finds them so: whatever the service
  -- answers, however its waits go, and wherever SQLite fails, the id generator raises or the task is
  -- cancelled.
  pub run_with_connection-Reachable :
      (passes : List Pass) (w : World)
      → All LawfulPass passes
      → Reachable is_canonical strptime random w.db
      → Reachable is_canonical strptime random
          ((run_with_connection is_canonical payload_digest strptime random s passes w).1.db)
  unfolding run_with_connection
  run_with_connection-Reachable passes w lawful reached =
      run_passes-Keeps passes (first_progress is_canonical payload_digest strptime random s) lawful
        w reached
