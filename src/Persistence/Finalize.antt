-- ===== src/Persistence/Finalize.antt =====
-- `finalize_submission_attempt` of src/boolean_maybe/persistence/transactions.py: what the
-- observation of a submission does to the attempt and its Job. `now` is the call's reading of the clock.
pub mod Steps
pub mod Gate
pub mod Ended
use boolean_maybe.Prelude.{ℕ, ◌<◌, Bool, true, false, Option, none, some, List, ltb, if◌then◌else◌}
use boolean_maybe.Domain.Backoff.{RandomSource, policy_delay_ms, effective_delay_ms}
use boolean_maybe.Domain.RetryAfter.{
  Text, Diagnostic, RetryAfterResult, parse_retry_after, server_delay_of, diagnostic_of,
}
use boolean_maybe.Persistence.Rows.{
  Ident, Instant, JobState, AttemptState, Category, Operation, Certainty, JobRow, AttemptRow,
  Database, add_milliseconds, is_rate_limited,
}
use boolean_maybe.Persistence.Database.{
  Transaction, Result, ok, err, ◌>>=◌, value_error, update_job, update_attempt, advance_gate,
}
use boolean_maybe.Persistence.Lease.{Claim, as_owner}
use boolean_maybe.Persistence.Observations.{Observed, insert_submission_observation}

abbrev pub max_submission_attempts : ℕ
max_submission_attempts = 3

pub data Disposition : Type 0 where
  succeeded permanent_failure retryable_failure retained : Disposition

pub record SubmissionEvidence : Type 0 where
  pub disposition : Disposition
  pub http_status : Option ℕ
  pub remote_request_id : Option Ident
  pub error_category : Option Category
  pub retry_after_values : List Text

pub data SubmissionRecord : Type 0 where
  finalized retry_scheduled retained : JobRow → AttemptRow → SubmissionRecord
  post_side_effect_failure : SubmissionRecord

-- The assignments of the `UPDATE submission_attempts` statements.
abbrev pub succeed : Instant → Option ℕ → Option Ident → AttemptRow → AttemptRow
succeed now http_status remote_request_id a = record a {
  state = AttemptState.succeeded;
  completed_at = some now;
  http_status = http_status;
  remote_request_id = remote_request_id;
  owner_token = none;
  lease_expires_at = none;
}

abbrev pub fail_permanently : Instant → Option ℕ → Option Category → AttemptRow → AttemptRow
fail_permanently now http_status error_category a = record a {
  state = AttemptState.permanent_failure;
  completed_at = some now;
  http_status = http_status;
  error_category = error_category;
  owner_token = none;
  lease_expires_at = none;
}

abbrev pub fail_retryably : Instant → Option ℕ → Option Category → ℕ → AttemptRow → AttemptRow
fail_retryably now http_status error_category delay_ms a = record a {
  state = AttemptState.retryable_failure;
  completed_at = some now;
  http_status = http_status;
  error_category = error_category;
  retry_after_ms = some delay_ms;
  owner_token = none;
  lease_expires_at = none;
}

abbrev pub leave_ambiguous : Instant → Category → AttemptRow → AttemptRow
leave_ambiguous now error_category a = record a {
  state = AttemptState.ambiguous;
  completed_at = some now;
  error_category = some error_category;
  owner_token = none;
  lease_expires_at = none;
}

-- The pair of `UPDATE` statements that completes an attempt and moves its Job.
unfoldable pub complete :
    Claim → (AttemptRow → AttemptRow) → JobState → Instant → Database → Result Database
unfolding update_attempt update_job
complete claim change state now db = do
  db' ← update_attempt claim.attempt_id change db
  update_job claim.job_id state now db'

abbrev pub moved : JobState → Instant → JobRow → JobRow
moved state now job = record job { state = state; updated_at = now }

-- The Job's state after a retryable failure of the attempt of that number.
unfoldable pub state_after_retryable : ℕ → JobState
state_after_retryable attempt_number =
    if ltb attempt_number max_submission_attempts
    then JobState.retry_scheduled
    else JobState.failed_permanent

abbrev certainty : Option Category → Disposition → Option Certainty
certainty (some Category.transport_not_sent) _ = some Certainty.not_sent
certainty _ Disposition.retained = some Certainty.maybe_sent
certainty _ _ = none

-- The observation that each branch of `finalize_submission_attempt` inserts.
abbrev submission_seen :
    Claim
    → SubmissionEvidence
    → Option Category
    → Option Ident
    → Option ℕ
    → Option Diagnostic
    → Observed
submission_seen claim e category remote_request_id retry_after_ms diagnostic = record {
  attempt_id = claim.attempt_id;
  operation = Operation.submission;
  request_ordinal = 1;
  dispatch_certainty = certainty e.error_category e.disposition;
  evidence_category = category;
  http_status = e.http_status;
  remote_request_id = remote_request_id;
  retry_after_ms = retry_after_ms;
  retry_after_diagnostic = diagnostic;
  observed_fencing_generation = claim.fencing_generation;
}

unfoldable pub finalize_succeeded :
    Claim
    → SubmissionEvidence
    → Instant
    → List Ident
    → JobRow
    → AttemptRow
    → Transaction SubmissionRecord
unfolding complete insert_submission_observation
finalize_succeeded claim e now draws job attempt db = do
  db' ←
      insert_submission_observation (submission_seen claim e none e.remote_request_id none none) now
        draws db
  let change = succeed now e.http_status e.remote_request_id
  db'' ← complete claim change JobState.succeeded now db'
  ok (finalized (moved JobState.succeeded now job) (change attempt), db'')

unfoldable pub finalize_permanent :
    Claim
    → SubmissionEvidence
    → Instant
    → List Ident
    → JobRow
    → AttemptRow
    → Transaction SubmissionRecord
unfolding complete insert_submission_observation
finalize_permanent claim e now draws job attempt db = do
  db' ←
      insert_submission_observation (submission_seen claim e e.error_category none none none) now
        draws db
  let change = fail_permanently now e.http_status e.error_category
  db'' ← complete claim change JobState.failed_permanent now db'
  ok (finalized (moved JobState.failed_permanent now job) (change attempt), db'')

-- The gate is advanced for a `429` alone.
abbrev pub gate_after : Option Category → Instant → ℕ → Database → Database
gate_after category now delay_ms db =
    if is_rate_limited category then advance_gate (add_milliseconds now delay_ms) now db else db

abbrev retry_record : ℕ → JobRow → AttemptRow → SubmissionRecord
retry_record attempt_number job attempt =
    if ltb attempt_number max_submission_attempts
    then retry_scheduled job attempt
    else finalized job attempt

unfoldable pub finalize_delayed :
    ℕ
    → Option Diagnostic
    → Claim
    → ℕ
    → SubmissionEvidence
    → Instant
    → List Ident
    → JobRow
    → AttemptRow
    → Transaction SubmissionRecord
unfolding complete insert_submission_observation state_after_retryable
finalize_delayed delay_ms diagnostic claim attempt_number e now draws job attempt db = do
  let state = state_after_retryable attempt_number
  let change = fail_retryably now e.http_status e.error_category delay_ms
  db' ←
      insert_submission_observation
        (submission_seen claim e e.error_category none (some delay_ms) diagnostic) now draws
        (gate_after e.error_category now delay_ms db)
  db'' ← complete claim change state now db'
  ok (retry_record attempt_number (moved state now job) (change attempt), db'')

unfoldable pub finalize_parsed :
    RandomSource
    → Option RetryAfterResult
    → Claim
    → ℕ
    → SubmissionEvidence
    → Instant
    → List Ident
    → JobRow
    → AttemptRow
    → Transaction SubmissionRecord
unfolding finalize_delayed policy_delay_ms effective_delay_ms server_delay_of diagnostic_of
finalize_parsed random none claim attempt_number e now draws job attempt db = err value_error
finalize_parsed random (some parsed) claim attempt_number e now draws job attempt db =
    finalize_delayed
      (effective_delay_ms (policy_delay_ms attempt_number random) (server_delay_of parsed))
      (diagnostic_of parsed) claim attempt_number e now draws job attempt db

-- The attempt stays `STARTED` and its Job `SUBMITTING`.
unfoldable pub finalize_retained :
    Claim
    → SubmissionEvidence
    → Instant
    → List Ident
    → JobRow
    → AttemptRow
    → Transaction SubmissionRecord
unfolding insert_submission_observation
finalize_retained claim e now draws job attempt db = do
  db' ←
      insert_submission_observation (submission_seen claim e e.error_category none none none) now
        draws db
  ok (retained job attempt, db')

module _ (strptime : Text → Option ℕ) (random : RandomSource) where
  unfoldable pub by_disposition :
      Disposition
      → Claim
      → ℕ
      → SubmissionEvidence
      → Instant
      → List Ident
      → JobRow
      → AttemptRow
      → Transaction SubmissionRecord
  unfolding finalize_succeeded finalize_permanent finalize_parsed finalize_retained
  by_disposition Disposition.succeeded claim n e now draws = finalize_succeeded claim e now draws
  by_disposition Disposition.permanent_failure claim n e now draws =
      finalize_permanent claim e now draws
  by_disposition Disposition.retryable_failure claim n e now draws =
      finalize_parsed random (parse_retry_after strptime e.retry_after_values now) claim n e now
        draws
  by_disposition Disposition.retained claim n e now draws = finalize_retained claim e now draws

  unfoldable pub finalize_submission_attempt :
      Claim → ℕ → SubmissionEvidence → Instant → List Ident → Transaction SubmissionRecord
  unfolding by_disposition as_owner
  finalize_submission_attempt claim attempt_number e now draws =
      as_owner claim now post_side_effect_failure
        (by_disposition e.disposition claim attempt_number e now draws)
