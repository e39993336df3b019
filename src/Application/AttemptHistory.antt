-- ===== src/Application/AttemptHistory.antt =====
-- The projection of a Job's attempts: src/boolean_maybe/application/history_projection.py.
pub mod Projection
use boolean_maybe.Prelude.{
  ℕ, suc, Bool, true, false, ◌&&◌, Option, none, some, List, [], ◌∷◌, ltb, leb, ◌==◌, if◌then◌else◌,
  length, select, map,
}
use boolean_maybe.Persistence.Rows.{
  Ident, Instant, AttemptState, Category, Operation, AttemptRow, ObservationRow, Database,
}
use boolean_maybe.Persistence.Database.{attempts_of}

-- `error_category in _RECONCILIATION_FINAL_CATEGORIES`.
abbrev pub is_final : Category → Bool
is_final Category.rate_limited = true
is_final Category.server_uncertain = true
is_final Category.transport_maybe_sent = true
is_final Category.protocol_uncertain = true
is_final Category.reconciliation_not_found = true
is_final Category.reconciliation_inconclusive = true
is_final Category.idempotency_conflict = true
is_final _ = false

pub record ReconciliationSummary : Type 0 where
  pub request_count : ℕ
  pub final_category : Option Category

pub record AttemptHistoryItem : Type 0 where
  pub attempt_id : Ident
  pub attempt_number : ℕ
  pub state : AttemptState
  pub started_at : Instant
  pub completed_at : Option Instant
  pub http_status : Option ℕ
  pub remote_request_id : Option Ident
  pub error_category : Option Category
  pub retry_after_ms : Option ℕ
  pub reconciliation : ReconciliationSummary

abbrev pub is_reconciliation : Operation → Bool
is_reconciliation Operation.reconciliation = true
is_reconciliation Operation.submission = false

abbrev pub reconciliations_of : Ident → List ObservationRow → List ObservationRow
reconciliations_of attempt_id =
    select (λ o. o.attempt_id == attempt_id && is_reconciliation o.operation)

abbrev later_row : ObservationRow → Option ObservationRow → Option ObservationRow
later_row o none = some o
later_row o (some p) = if ltb o.sequence_number p.sequence_number then some p else some o

-- `ORDER BY sequence_number DESC LIMIT 1`.
unfoldable pub last_row : List ObservationRow → Option ObservationRow
last_row [] = none
last_row (o ∷ os) = later_row o (last_row os)

abbrev own_category : Option Category → Option Category
own_category none = none
own_category (some c) = if is_final c then some c else none

abbrev category_of : Option ObservationRow → Option Category
category_of none = none
category_of (some o) = o.evidence_category

abbrev final_of : Option Category → Option Category → Option Category
final_of (some c) last = some c
final_of none last = last

unfoldable pub summarize : Option Category → List ObservationRow → ReconciliationSummary
unfolding last_row
summarize error_category rows = record {
  request_count = length rows;
  final_category = final_of (own_category error_category) (category_of (last_row rows));
}

unfoldable pub history_item : Database → AttemptRow → AttemptHistoryItem
unfolding summarize
history_item db a = record {
  attempt_id = a.attempt_id;
  attempt_number = a.attempt_number;
  state = a.state;
  started_at = a.started_at;
  completed_at = a.completed_at;
  http_status = a.http_status;
  remote_request_id = a.remote_request_id;
  error_category = a.error_category;
  retry_after_ms = a.retry_after_ms;
  reconciliation = summarize a.error_category (reconciliations_of a.attempt_id db.observations);
}

-- `ORDER BY attempt_number`: insertion into a list that is in order.
unfoldable pub insert_by_number : AttemptRow → List AttemptRow → List AttemptRow
insert_by_number a [] = a ∷ []
insert_by_number a (b ∷ rows) =
    let rest = insert_by_number a rows in
    if leb a.attempt_number b.attempt_number then a ∷ b ∷ rows else b ∷ rest

unfoldable pub by_number : List AttemptRow → List AttemptRow
unfolding insert_by_number
by_number [] = []
by_number (a ∷ rows) = insert_by_number a (by_number rows)

unfoldable pub read_attempt_history : Ident → Database → List AttemptHistoryItem
unfolding by_number history_item attempts_of
read_attempt_history job_id db = map (history_item db) (by_number (attempts_of job_id db.attempts))
