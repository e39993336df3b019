-- ===== src/Application/Classification.antt =====
-- From the wire to the durable state machine: src/boolean_maybe/application/classification.py.
pub mod Evidence
use boolean_maybe.Prelude.{ℕ, Bool, true, false, Option, none, some, List, []}
use boolean_maybe.Domain.RetryAfter.{Text}
use boolean_maybe.External.Outcome.{SubmitHttpOutcome, ReconcileHttpOutcome}
use boolean_maybe.Persistence.Rows.{Category}
use boolean_maybe.Persistence.Finalize.{SubmissionEvidence, Disposition}

pub data ReconciliationDisposition : Type 0 where
  matched conflict not_found retryable : ReconciliationDisposition

pub record ReconciliationEvidence : Type 0 where
  pub disposition : ReconciliationDisposition
  pub error_category : Option Category
  pub retry_after_values : List Text

-- Evidence with no remote id.
abbrev evidence : Disposition → Option ℕ → Option Category → List Text → SubmissionEvidence
evidence disposition http_status error_category retry_after_values = record {
  disposition = disposition;
  http_status = http_status;
  remote_request_id = none;
  error_category = error_category;
  retry_after_values = retry_after_values;
}

unfoldable pub classify_submission_outcome : SubmitHttpOutcome → SubmissionEvidence
classify_submission_outcome (SubmitHttpOutcome.success http_status remote_request_id) = record {
  disposition = Disposition.succeeded;
  http_status = some http_status;
  remote_request_id = some remote_request_id;
  error_category = none;
  retry_after_values = [];
}
classify_submission_outcome SubmitHttpOutcome.validation_rejected =
    evidence Disposition.permanent_failure (some 400) (some Category.validation_rejected) []
classify_submission_outcome SubmitHttpOutcome.idempotency_conflict =
    evidence Disposition.permanent_failure (some 409) (some Category.idempotency_conflict) []
classify_submission_outcome (SubmitHttpOutcome.rate_limited retry_after_values) =
    evidence Disposition.retryable_failure (some 429) (some Category.rate_limited)
      retry_after_values
classify_submission_outcome (SubmitHttpOutcome.transport_failure false) =
    evidence Disposition.retryable_failure none (some Category.transport_not_sent) []
classify_submission_outcome (SubmitHttpOutcome.transport_failure true) =
    evidence Disposition.retained none (some Category.transport_maybe_sent) []
classify_submission_outcome (SubmitHttpOutcome.server_error http_status) =
    evidence Disposition.retained (some http_status) (some Category.server_uncertain) []
classify_submission_outcome SubmitHttpOutcome.protocol_uncertain =
    evidence Disposition.retained none (some Category.protocol_uncertain) []

abbrev reconciled : ReconciliationDisposition → Option Category → List Text → ReconciliationEvidence
reconciled disposition error_category retry_after_values = record {
  disposition = disposition;
  error_category = error_category;
  retry_after_values = retry_after_values;
}

unfoldable pub classify_reconciliation_outcome : ReconcileHttpOutcome → ReconciliationEvidence
classify_reconciliation_outcome (ReconcileHttpOutcome.match_ _ _) =
    reconciled ReconciliationDisposition.matched none []
classify_reconciliation_outcome ReconcileHttpOutcome.conflict =
    reconciled ReconciliationDisposition.conflict (some Category.idempotency_conflict) []
classify_reconciliation_outcome ReconcileHttpOutcome.not_found =
    reconciled ReconciliationDisposition.not_found (some Category.reconciliation_not_found) []
classify_reconciliation_outcome (ReconcileHttpOutcome.rate_limited retry_after_values) =
    reconciled ReconciliationDisposition.retryable (some Category.rate_limited) retry_after_values
classify_reconciliation_outcome (ReconcileHttpOutcome.server_error _) =
    reconciled ReconciliationDisposition.retryable (some Category.server_uncertain) []
classify_reconciliation_outcome ReconcileHttpOutcome.transport_failure =
    reconciled ReconciliationDisposition.retryable (some Category.transport_maybe_sent) []
classify_reconciliation_outcome ReconcileHttpOutcome.protocol_uncertain =
    reconciled ReconciliationDisposition.retryable (some Category.protocol_uncertain) []
