-- ===== src/Application/Submit/Dispatch.antt =====
-- `_dispatch_and_finalize` of src/boolean_maybe/application/submit.py: one authorized attempt is
-- submitted, and what came of it is recorded.
use boolean_maybe.Prelude.{ℕ, Bool, true, false, not, Option, none, some, List, [], if◌then◌else◌}
use boolean_maybe.Domain.Backoff.{RandomSource}
use boolean_maybe.Domain.RetryAfter.{
  Text, Diagnostic, parse_retry_after, server_delay_of, diagnostic_of,
}
use boolean_maybe.External.Outcome.{SubmitHttpOutcome}
use boolean_maybe.Persistence.Rows.{
  Ident, Instant, Bytes, JobState, AttemptState, Category, Operation, JobRow, AttemptRow,
  is_rate_limited,
}
use boolean_maybe.Persistence.Database.{Result, ok, err, value_error, assertion, cancelled}
use boolean_maybe.Persistence.Lease.{LeaseRenewal, lease_renewed, lease_lost}
use boolean_maybe.Persistence.Observations.{Observed, append_late_observation}
use boolean_maybe.Persistence.Finalize.{
  Disposition, SubmissionEvidence, SubmissionRecord, finalize_submission_attempt,
}
use boolean_maybe.Application.Classification.{classify_submission_outcome}
use boolean_maybe.Application.Flow.{Moment, Flow, give, raise, settle, transact, requested, post}
use boolean_maybe.Application.ReconciliationSequence.{
  ReconciliationOutcome, Owner, claim_of, renewal,
}
use boolean_maybe.Application.ReconciliationSequence.Loop.{Round, run_reconciliation_sequence}
use boolean_maybe.Application.Recovery.{owner_of}
use boolean_maybe.Application.Submit.{
  SubmitOutcome, SuccessName, ownership_lost, failed_permanent, retry_exhausted,
  local_persistence_failure, job_failure, success_of, render_reconciliation_outcome,
}

-- The arguments that stay the same during an invocation.
pub record Submission : Type 0 where
  pub supplied_key : Option Ident
  pub canonical_bytes : Bytes
  pub digest : Ident
  pub invocation_token : Ident
  pub lease_seconds : ℕ

-- What the dispatch of an attempt meets. `answer` is what `submit_job` returns, and nothing where it
-- raises; `is_cancelled` says that the task is cancelled during the lease's renewal.
pub record Dispatching : Type 0 where
  pub renew : Moment
  pub is_cancelled : Bool
  pub answer : Option SubmitHttpOutcome
  pub finalize : Moment
  pub late_from : Instant
  pub append_late : Moment
  pub sequence_id : Ident
  pub rounds : List Round

-- `_RetryEligibleAfterDispatch`, or an outcome.
pub data Dispatched : Type 0 where
  finished : SubmitOutcome → Dispatched
  retry_eligible : JobRow → AttemptRow → Dispatched

-- The evidence of a task that is cancelled before the dispatch.
abbrev pub not_sent_evidence : SubmissionEvidence
not_sent_evidence = record {
  disposition = Disposition.retryable_failure;
  http_status = none;
  remote_request_id = none;
  error_category = some Category.transport_not_sent;
  retry_after_values = [];
}

abbrev pub is_not_sent : Option Category → Bool
is_not_sent (some Category.transport_not_sent) = true
is_not_sent _ = false

-- `this_attempt_submitted`.
unfoldable pub is_submitted : SubmissionEvidence → Bool
is_submitted evidence = not (is_not_sent evidence.error_category)

abbrev or_uncertain : Option Category → Category
or_uncertain none = Category.protocol_uncertain
or_uncertain (some category) = category

unfoldable pub late_category : Disposition → Option Category → Category
late_category Disposition.succeeded category = Category.processed
late_category _ category = or_uncertain category

unfoldable pub late_wish :
    (Text → Option ℕ) → Category → List Text → Instant → Option (Option ℕ × Option Diagnostic)
unfolding parse_retry_after server_delay_of diagnostic_of
late_wish strptime category values now =
    if is_rate_limited (some category)
    then elim (parse_retry_after strptime values now) [
      | none ↦ none
      | some parsed ↦ some (server_delay_of parsed, diagnostic_of parsed)
    ]
    else some (none, none)

unfoldable pub late_submission :
    AttemptRow → SubmissionEvidence → Category → Option ℕ → Option Diagnostic → Observed
late_submission attempt evidence category retry_after_ms diagnostic = record {
  attempt_id = attempt.attempt_id;
  operation = Operation.submission;
  request_ordinal = 1;
  dispatch_certainty = none;
  evidence_category = some category;
  http_status = evidence.http_status;
  remote_request_id = evidence.remote_request_id;
  retry_after_ms = retry_after_ms;
  retry_after_diagnostic = diagnostic;
  observed_fencing_generation = attempt.fencing_generation;
}

unfoldable pub appending_late_submission : Observed → Moment → Flow Ident
unfolding transact
appending_late_submission seen m = transact m (λ now draws. append_late_observation seen now draws)

unfoldable pub ownership_lost_after :
    Submission
    → JobRow
    → AttemptRow
    → SubmissionEvidence
    → Category
    → Dispatching
    → Option (Option ℕ × Option Diagnostic)
    → Flow (Dispatched × Bool)
unfolding settle late_submission appending_late_submission is_submitted
ownership_lost_after s job attempt evidence category d none = raise value_error
ownership_lost_after s job attempt evidence category d (some (retry_after_ms, diagnostic)) =
    settle
      (appending_late_submission
        (late_submission attempt evidence category retry_after_ms diagnostic) d.append_late)
      (λ _. give (
        finished (job_failure ownership_lost (is_submitted evidence) JobState.submitting job 0),
        is_submitted evidence,
      ))

-- A result of a helper that may raise.
abbrev pub finishing : Bool → Result SubmitOutcome → Flow (Dispatched × Bool)
finishing submitted (ok outcome) = give (finished outcome, submitted)
finishing submitted (err e) = raise e

unfoldable pub rendered :
    Submission → Bool → Result ReconciliationOutcome → Flow (Dispatched × Bool)
unfolding render_reconciliation_outcome
rendered s submitted (ok x) =
    finishing submitted (render_reconciliation_outcome x s.digest submitted)
rendered s submitted (err e) = raise e

unfoldable pub finalized_result :
    Submission → Bool → JobRow → AttemptRow → AttemptState → Flow (Dispatched × Bool)
unfolding success_of
finalized_result s submitted job attempt AttemptState.succeeded = finishing submitted (
    success_of SuccessName.succeeded true JobState.succeeded job attempt s.digest 0
      attempt.http_status attempt.remote_request_id)
finalized_result s submitted job attempt AttemptState.permanent_failure =
    give
      (finished (job_failure failed_permanent submitted JobState.failed_permanent job 0), submitted)
finalized_result s submitted job attempt AttemptState.retryable_failure =
    give
      (finished (job_failure retry_exhausted submitted JobState.failed_permanent job 0), submitted)
finalized_result s submitted job attempt _ = raise assertion

module _ (strptime : Text → Option ℕ) (random : RandomSource) (s : Submission) where
  unfoldable pub finalizing :
      JobRow → AttemptRow → SubmissionEvidence → Moment → Flow SubmissionRecord
  unfolding transact
  finalizing job attempt evidence m = transact m (λ now draws.
      finalize_submission_attempt strptime random
        (claim_of (owner_of job attempt s.invocation_token)) attempt.attempt_number evidence now
        draws)

  -- The owner of a retained attempt goes on with the generation that it was started with.
  abbrev pub retaining : JobRow → AttemptRow → AttemptRow → Owner
  retaining job retained attempt = record {
    job = job;
    attempt = retained;
    invocation_token = s.invocation_token;
    fencing_generation = attempt.fencing_generation;
  }

  unfoldable pub after_finalize :
      JobRow
      → AttemptRow
      → SubmissionEvidence
      → Dispatching
      → Result SubmissionRecord
      → Flow (Dispatched × Bool)
  unfolding settle ownership_lost_after late_wish late_category rendered finalized_result
      is_submitted run_reconciliation_sequence
  after_finalize job attempt evidence d (err _) = give (
    finished
        (job_failure local_persistence_failure (is_submitted evidence) JobState.submitting job 0),
    is_submitted evidence,
  )
  after_finalize job attempt evidence d (ok SubmissionRecord.post_side_effect_failure) =
      let category = late_category evidence.disposition evidence.error_category in
      ownership_lost_after s job attempt evidence category d
        (late_wish strptime category evidence.retry_after_values d.late_from)
  after_finalize job attempt evidence d (ok (SubmissionRecord.retained j a)) =
      settle
        (run_reconciliation_sequence strptime random d.rounds (retaining j a attempt) d.sequence_id)
        (rendered s (is_submitted evidence))
  after_finalize job attempt evidence d (ok (SubmissionRecord.retry_scheduled j a)) =
      give (retry_eligible j a, is_submitted evidence)
  after_finalize job attempt evidence d (ok (SubmissionRecord.finalized j a)) =
      finalized_result s (is_submitted evidence) j a a.state

  unfoldable pub after_answer :
      JobRow → AttemptRow → Dispatching → Option SubmitHttpOutcome → Flow (Dispatched × Bool)
  unfolding settle finalizing after_finalize classify_submission_outcome
  after_answer job attempt d none =
      give (finished (job_failure local_persistence_failure true JobState.submitting job 0), true)
  after_answer job attempt d (some answer) =
      let evidence = classify_submission_outcome answer in
      settle (finalizing job attempt evidence d.finalize) (after_finalize job attempt evidence d)

  -- `submit_job` and what follows.
  unfoldable pub posting : JobRow → AttemptRow → Dispatching → Flow (Dispatched × Bool)
  unfolding settle requested after_answer
  posting job attempt d =
      settle (requested (post attempt.attempt_id d.answer))
        (λ _. after_answer job attempt d d.answer)

  unfoldable pub after_renewal :
      JobRow → AttemptRow → Dispatching → Result LeaseRenewal → Flow (Dispatched × Bool)
  unfolding posting
  after_renewal job attempt d (err _) =
      give (finished (job_failure local_persistence_failure false JobState.submitting job 0), false)
  after_renewal job attempt d (ok lease_lost) =
      give (finished (job_failure ownership_lost false JobState.submitting job 0), false)
  after_renewal job attempt d (ok (lease_renewed _)) = posting job attempt d

  -- The attempt ends as one that was not sent, and the cancellation goes on.
  unfoldable pub cancelling : JobRow → AttemptRow → Dispatching → Flow (Dispatched × Bool)
  unfolding settle finalizing
  cancelling job attempt d =
      settle (finalizing job attempt not_sent_evidence d.finalize) (λ _. raise cancelled)

  unfoldable pub dispatch_and_finalize :
      JobRow → AttemptRow → Dispatching → Flow (Dispatched × Bool)
  unfolding settle renewal after_renewal cancelling
  dispatch_and_finalize job attempt d =
      settle (renewal (owner_of job attempt s.invocation_token) d.renew)
        (λ r. if d.is_cancelled then cancelling job attempt d else after_renewal job attempt d r)
