-- ===== src/Application/Submit.antt =====
-- What src/boolean_maybe/application/submit.py returns: the outcomes, and the rendering of a
-- reconciliation. The texts that only describe a failure are left out; a digest is numbered.
pub mod Dispatch
pub mod Run
pub mod Sound
pub mod Tables
pub mod Posts
pub mod Rendering
use boolean_maybe.Prelude.{ℕ, Bool, true, false, Option, none, some, List, if◌then◌else◌}
use boolean_maybe.Persistence.Rows.{Ident, JobState, AttemptState, JobRow, AttemptRow}
use boolean_maybe.Persistence.Database.{Result, ok, err, assertion}
use boolean_maybe.Application.AttemptHistory.{AttemptHistoryItem}
use boolean_maybe.Application.ReconciliationSequence.{ReconciliationOutcome}

pub data SuccessName : Type 0 where
  succeeded already_completed : SuccessName

pub data ErrorName : Type 0 where
  idempotency_conflict job_in_progress failed_permanent retry_exhausted ambiguous : ErrorName
  submission_deferred retry_scheduled ownership_lost local_persistence_failure : ErrorName

pub record SubmitSuccess : Type 0 where
  pub outcome : SuccessName
  pub submitted : Bool
  pub job_id : Ident
  pub idempotency_key : Ident
  pub state : JobState
  pub attempt_id : Ident
  pub attempt_number : ℕ
  pub http_status : ℕ
  pub remote_request_id : Ident
  pub payload_digest : Ident
  pub reconciliation_requests : ℕ
  pub attempt_history : Option (List AttemptHistoryItem)

pub record SubmitError : Type 0 where
  pub outcome : ErrorName
  pub submitted : Bool
  pub idempotency_key : Option Ident
  pub state : Option JobState
  pub job_id : Option Ident
  pub reconciliation_requests : ℕ
  pub attempt_history : Option (List AttemptHistoryItem)

pub data SubmitOutcome : Type 0 where
  success : SubmitSuccess → SubmitOutcome
  failure : SubmitError → SubmitOutcome

-- A failure of which no Job is known, or perhaps its id.
abbrev pub early_failure : ErrorName → Bool → Option Ident → Option Ident → SubmitOutcome
early_failure name submitted key job_id = failure (record {
  outcome = name;
  submitted = submitted;
  idempotency_key = key;
  state = none;
  job_id = job_id;
  reconciliation_requests = 0;
  attempt_history = none;
})

abbrev pub job_failure : ErrorName → Bool → JobState → JobRow → ℕ → SubmitOutcome
job_failure name submitted state job reconciliation_requests = failure (record {
  outcome = name;
  submitted = submitted;
  idempotency_key = some job.idempotency_key;
  state = some state;
  job_id = some job.job_id;
  reconciliation_requests = reconciliation_requests;
  attempt_history = none;
})

abbrev pub succeeded_with :
    SuccessName → Bool → JobState → JobRow → AttemptRow → Ident → ℕ → ℕ → Ident → SubmitOutcome
succeeded_with name submitted state job attempt digest reconciliation_requests http_status
      remote_request_id =
    success (record {
      outcome = name;
      submitted = submitted;
      job_id = job.job_id;
      idempotency_key = job.idempotency_key;
      state = state;
      attempt_id = attempt.attempt_id;
      attempt_number = attempt.attempt_number;
      http_status = http_status;
      remote_request_id = remote_request_id;
      payload_digest = digest;
      reconciliation_requests = reconciliation_requests;
      attempt_history = none;
    })

-- The success of the attempt: it is asserted that it has a status and a remote id.
unfoldable pub success_of :
    SuccessName
    → Bool
    → JobState
    → JobRow
    → AttemptRow
    → Ident
    → ℕ
    → Option ℕ
    → Option Ident
    → Result SubmitOutcome
success_of name submitted state job attempt digest n (some http_status) (some remote_request_id) =
    ok (succeeded_with name submitted state job attempt digest n http_status remote_request_id)
success_of name submitted state job attempt digest n _ _ = err assertion

unfoldable pub is_failed_permanent : JobState → Bool
is_failed_permanent JobState.failed_permanent = true
is_failed_permanent _ = false

unfoldable pub render_state :
    AttemptState → ReconciliationOutcome → Ident → Bool → Result SubmitOutcome
unfolding success_of is_failed_permanent
render_state AttemptState.succeeded x digest submitted =
    success_of SuccessName.succeeded submitted JobState.succeeded x.job x.attempt digest
      x.request_count x.attempt.http_status x.attempt.remote_request_id
render_state AttemptState.permanent_failure x digest submitted =
    ok (job_failure failed_permanent submitted JobState.failed_permanent x.job x.request_count)
render_state AttemptState.retryable_failure x digest submitted = ok (
    job_failure (if is_failed_permanent x.job.state then retry_exhausted else retry_scheduled)
      submitted x.job.state x.job x.request_count)
render_state AttemptState.ambiguous x digest submitted =
    ok (job_failure ambiguous submitted JobState.ambiguous x.job x.request_count)
render_state AttemptState.started x digest submitted = err assertion

-- `_render_reconciliation_outcome`.
unfoldable pub render_reconciliation_outcome :
    ReconciliationOutcome → Ident → Bool → Result SubmitOutcome
unfolding render_state
render_reconciliation_outcome x digest submitted =
    if x.persistence_failed
    then ok
        (job_failure local_persistence_failure submitted JobState.submitting x.job x.request_count)
    else if x.ownership_lost
    then ok (job_failure ownership_lost submitted x.job.state x.job x.request_count)
    else render_state x.attempt.state x digest submitted

-- `replace(step_result, submitted=…)`.
abbrev pub with_submitted : Bool → SubmitOutcome → SubmitOutcome
with_submitted submitted (success x) = success (record x { submitted = submitted })
with_submitted submitted (failure x) = failure (record x { submitted = submitted })

-- The flag that both kinds of result have.
abbrev pub submitted_of : SubmitOutcome → Bool
submitted_of (success x) = x.submitted
submitted_of (failure x) = x.submitted
