-- ===== src/Application/Submit/Run.antt =====
-- `_run_with_connection` of src/boolean_maybe/application/submit.py: an invocation, from its first
-- transaction to its outcome. `is_canonical` and `payload_digest` stand for canonical_json.py.
use boolean_maybe.Prelude.{
  ℕ, Bool, true, false, ◌||◌, Option, none, some, List, [], ◌∷◌, map, if◌then◌else◌,
}
use boolean_maybe.Domain.Backoff.{RandomSource}
use boolean_maybe.Domain.RetryAfter.{Text}
use boolean_maybe.Persistence.Rows.{
  Ident, Instant, Bytes, JobState, JobRow, AttemptRow, add_milliseconds, is_retryable_failure,
}
use boolean_maybe.Persistence.Database.{
  Transaction, Result, ok, err, assertion, cancelled, out_of_draws,
}
use boolean_maybe.Persistence.PreSideEffect.{
  Call, PreSideEffectResult, ready_to_submit, already_completed, recovery_candidate,
  terminal_failed_permanent, terminal_ambiguous, not_yet_eligible, run_supplied, run_generated,
}
use boolean_maybe.Application.Waiting.{wait_if_it_fits}
use boolean_maybe.Application.Flow.{Moment, Flow, give, raise, settle, transact}
use boolean_maybe.Application.Recovery.{
  RecoveryResult, reconciliation, rerouted, persistence_failed, Quarantined, recover_and_reconcile,
}
use boolean_maybe.Application.Submit.{
  SuccessName, ErrorName, SubmitOutcome, early_failure, job_failure, success_of,
  render_reconciliation_outcome, with_submitted, failed_permanent, retry_exhausted, ambiguous,
  submission_deferred, retry_scheduled, local_persistence_failure,
}
use boolean_maybe.Application.Submit.Dispatch.{
  Submission, Dispatching, Dispatched, finished, retry_eligible, dispatch_and_finalize,
}

-- What a turn of `run_pre_side_effect_transaction` meets; the key is the one that is drawn, where
-- keys are.
pub record Drawn : Type 0 where
  pub key : Ident
  pub now : Instant
  pub lease_now : Instant
  pub draws : List Ident

-- What one pass of the loop meets.
pub record Pass : Type 0 where
  pub begin : Moment
  pub turns : List Drawn
  pub recovery : Quarantined
  pub wait_from : Instant
  pub dispatch : Dispatching
  pub retry_from : Instant

-- The variables of the loop.
pub record Progress : Type 0 where
  pub submitted_this_invocation : Bool
  pub current_key : Option Ident
  pub known_job_id : Option Ident

pub data PassEnd : Type 0 where
  returned : SubmitOutcome → PassEnd
  continued : Progress → PassEnd

abbrev pub call_of : Submission → Drawn → Call
call_of s t = record {
  invocation_token = s.invocation_token;
  lease_seconds = s.lease_seconds;
  now = t.now;
  lease_now = t.lease_now;
  draws = t.draws;
}

abbrev pub keyed_call_of : Submission → Drawn → Ident × Call
keyed_call_of s t = (t.key, call_of s t)

-- `_failed_permanent_outcome`.
unfoldable pub failed_permanent_outcome : AttemptRow → ErrorName
failed_permanent_outcome attempt =
    if is_retryable_failure attempt.state then retry_exhausted else failed_permanent

abbrev deferred_outcome : JobState → ErrorName
deferred_outcome JobState.pending = submission_deferred
deferred_outcome _ = retry_scheduled

-- `await wait_if_it_fits(…)`.
unfoldable pub waiting : Instant → Instant → Flow Bool
unfolding wait_if_it_fits
waiting not_before now w =
    let done = wait_if_it_fits not_before now w.budget in (ok done.0, record w { budget = done.1 })

-- On with the loop if the wait fitted, and else the outcome.
unfoldable pub if_it_fitted : Progress → SubmitOutcome → Result Bool → Flow PassEnd
if_it_fitted p outcome (ok true) = give (continued p)
if_it_fitted p outcome (ok false) = give (returned outcome)
if_it_fitted p outcome (err e) = raise e

abbrev pub returning_outcome : Result SubmitOutcome → Flow PassEnd
returning_outcome (ok outcome) = give (returned outcome)
returning_outcome (err e) = raise e

-- The progress with the Job's key and id.
abbrev pub knowing : Bool → JobRow → Progress
knowing submitted job = record {
  submitted_this_invocation = submitted;
  current_key = some job.idempotency_key;
  known_job_id = some job.job_id;
}

unfoldable pub after_recovery : Submission → Bool → JobRow → Result RecoveryResult → Flow PassEnd
unfolding render_reconciliation_outcome
after_recovery s submitted job (ok (reconciliation x)) =
    returning_outcome (render_reconciliation_outcome x s.digest submitted)
after_recovery s submitted job (ok rerouted) = give (continued (knowing submitted job))
after_recovery s submitted job (ok persistence_failed) =
    give (returned (job_failure local_persistence_failure submitted JobState.submitting job 0))
after_recovery s submitted job (err e) = raise e

-- The instant of the next submission, where the recorded failure has both of its parts.
unfoldable pub retry_instant : Option Instant → Option ℕ → Option Instant
retry_instant (some completed_at) (some retry_after_ms) =
    some (add_milliseconds completed_at retry_after_ms)
retry_instant _ _ = none

unfoldable pub retrying : Bool → JobRow → Option Instant → Pass → Flow PassEnd
unfolding settle waiting if_it_fitted
retrying submitted job none pass = raise assertion
retrying submitted job (some not_before) pass = settle (waiting not_before pass.retry_from) (
    if_it_fitted (knowing submitted job)
      (job_failure retry_scheduled submitted JobState.retry_scheduled job 0))

-- A cancellation is no `Exception`, and goes on; so is the end of the list of rounds none.
unfoldable pub after_dispatch : Bool → JobRow → Pass → Result (Dispatched × Bool) → Flow PassEnd
unfolding retrying retry_instant
after_dispatch submitted job pass (ok (finished outcome, this_attempt)) =
    give (returned (with_submitted (submitted || this_attempt) outcome))
after_dispatch submitted job pass (ok (retry_eligible j a, this_attempt)) =
    retrying (submitted || this_attempt) j (retry_instant a.completed_at a.retry_after_ms) pass
after_dispatch submitted job pass (err cancelled) = raise cancelled
after_dispatch submitted job pass (err out_of_draws) = raise out_of_draws
after_dispatch submitted job pass (err _) =
    give (returned (job_failure local_persistence_failure true JobState.submitting job 0))

-- The conflict is with a key that was supplied.
unfoldable pub conflict_with : Option Ident → Flow PassEnd
conflict_with none = raise assertion
conflict_with (some key) =
    give (returned (early_failure ErrorName.idempotency_conflict false (some key) none))

module _ (is_canonical : Bytes → Bool) (payload_digest : Bytes → Ident) (strptime : Text → Option ℕ)
    (random : RandomSource) (s : Submission) where
  unfoldable pub begin_transaction : Option Ident → List Drawn → Transaction PreSideEffectResult
  unfolding run_supplied run_generated
  begin_transaction none turns =
      run_generated is_canonical (map (keyed_call_of s) turns) s.canonical_bytes
  begin_transaction (some key) turns =
      run_supplied is_canonical (map (call_of s) turns) key s.canonical_bytes

  unfoldable pub beginning : Option Ident → Pass → Flow PreSideEffectResult
  unfolding transact begin_transaction
  beginning current_key pass =
      transact pass.begin (λ now draws. begin_transaction current_key pass.turns)

  unfoldable pub after_begin : Progress → Pass → Result PreSideEffectResult → Flow PassEnd
  unfolding settle conflict_with success_of recover_and_reconcile after_recovery
      failed_permanent_outcome waiting if_it_fitted dispatch_and_finalize after_dispatch
  after_begin p pass (err _) = give (
      returned (
        early_failure local_persistence_failure p.submitted_this_invocation p.current_key
          p.known_job_id))
  after_begin p pass (ok PreSideEffectResult.idempotency_conflict) = conflict_with s.supplied_key
  after_begin p pass (ok (already_completed job attempt)) = returning_outcome (
      success_of SuccessName.already_completed false job.state job attempt
        (payload_digest job.payload_canonical) 0 attempt.http_status attempt.remote_request_id)
  after_begin p pass (ok (PreSideEffectResult.job_in_progress job)) =
      give (
        returned
          (job_failure ErrorName.job_in_progress p.submitted_this_invocation job.state job 0))
  after_begin p pass (ok (recovery_candidate job attempt)) =
      settle
        (recover_and_reconcile strptime random job attempt s.invocation_token s.lease_seconds
          pass.recovery)
        (after_recovery s p.submitted_this_invocation job)
  after_begin p pass (ok (terminal_failed_permanent job attempt)) = give (
      returned (
        job_failure (failed_permanent_outcome attempt) p.submitted_this_invocation job.state job 0))
  after_begin p pass (ok (terminal_ambiguous job attempt)) =
      give (returned (job_failure ambiguous p.submitted_this_invocation job.state job 0))
  after_begin p pass (ok (not_yet_eligible job not_before)) =
      settle (waiting not_before pass.wait_from) (
        if_it_fitted (knowing p.submitted_this_invocation job)
          (job_failure (deferred_outcome job.state) p.submitted_this_invocation job.state job 0))
  after_begin p pass (ok (ready_to_submit job attempt)) =
      settle (dispatch_and_finalize strptime random s job attempt pass.dispatch)
        (after_dispatch p.submitted_this_invocation job pass)

  -- One pass.
  unfoldable pub run_pass : Progress → Pass → Flow PassEnd
  unfolding settle beginning after_begin
  run_pass p pass = settle (beginning p.current_key pass) (after_begin p pass)

  unfoldable pub next_pass : (Progress → Flow SubmitOutcome) → Result PassEnd → Flow SubmitOutcome
  next_pass rest (ok (returned outcome)) = give outcome
  next_pass rest (ok (continued p)) = rest p
  next_pass rest (err e) = raise e

  -- `out_of_draws` says that the list of passes has ended, and not the loop.
  unfoldable pub run_passes : List Pass → Progress → Flow SubmitOutcome
  unfolding settle run_pass next_pass
  run_passes [] p = raise out_of_draws
  run_passes (pass ∷ passes) p = settle (run_pass p pass) (next_pass (λ q. run_passes passes q))

  abbrev pub first_progress : Progress
  first_progress = record {
    submitted_this_invocation = false;
    current_key = s.supplied_key;
    known_job_id = none;
  }

  -- The invocation's token has been drawn.
  unfoldable pub run_with_connection : List Pass → Flow SubmitOutcome
  unfolding run_passes
  run_with_connection passes = run_passes passes first_progress
