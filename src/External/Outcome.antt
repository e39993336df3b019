-- ===== src/External/Outcome.antt =====
-- What the adapters report of one request: the classes of src/boolean_maybe/external/client.py and
-- of src/boolean_maybe/external/reconcile.py. The texts that only describe a failure are left out.
use boolean_maybe.Prelude.{ℕ, Bool, List, Option, some, none}
use boolean_maybe.Domain.RetryAfter.{Text}
use boolean_maybe.Persistence.Rows.{Ident}

pub data SubmitHttpOutcome : Type 0 where
  success : ℕ → Ident → SubmitHttpOutcome
  validation_rejected idempotency_conflict : SubmitHttpOutcome
  rate_limited : List Text → SubmitHttpOutcome
  server_error : ℕ → SubmitHttpOutcome
  protocol_uncertain : SubmitHttpOutcome
  transport_failure : Bool → SubmitHttpOutcome

pub data ReconcileHttpOutcome : Type 0 where
  match_ : ℕ → Ident → ReconcileHttpOutcome
  conflict not_found : ReconcileHttpOutcome
  rate_limited : List Text → ReconcileHttpOutcome
  server_error : ℕ → ReconcileHttpOutcome
  protocol_uncertain transport_failure : ReconcileHttpOutcome

-- `getattr(http_outcome, "http_status", None)`.
abbrev pub observed_http_status : ReconcileHttpOutcome → Option ℕ
observed_http_status (ReconcileHttpOutcome.match_ http_status _) = some http_status
observed_http_status ReconcileHttpOutcome.conflict = some 200
observed_http_status ReconcileHttpOutcome.not_found = some 404
observed_http_status (ReconcileHttpOutcome.rate_limited _) = some 429
observed_http_status (ReconcileHttpOutcome.server_error http_status) = some http_status
observed_http_status _ = none

abbrev pub observed_remote_request_id : ReconcileHttpOutcome → Option Ident
observed_remote_request_id (ReconcileHttpOutcome.match_ _ remote_request_id) =
    some remote_request_id
observed_remote_request_id _ = none
