-- ===== src/Persistence/Reconcile.antt =====
-- `advance_gate_for_reconciliation_rate_limit`, `record_reconciliation_result` and
-- `consume_late_observations` of src/boolean_maybe/persistence/transactions.py. `now` is the call's
-- reading of the clock.
pub mod Steps
pub mod Earliest
pub mod Ended
use boolean_maybe.Prelude.{
  ℕ, Bool, true, false, not, ◌&&◌, ◌||◌, Option, none, some, List, [], ◌∷◌, ltb, ◌==◌, is_none,
  if◌then◌else◌, select,
}
use boolean_maybe.Domain.Backoff.{RandomSource, policy_delay_ms, effective_delay_ms}
use boolean_maybe.Persistence.Rows.{
  Ident, Instant, JobState, Category, JobRow, AttemptRow, ObservationRow, Database,
  add_milliseconds,
}
use boolean_maybe.Persistence.Database.{
  Transaction, Result, ok, err, ◌>>=◌, advance_gate, mark_consumed,
}
use boolean_maybe.Persistence.Lease.{Claim, as_owner}
use boolean_maybe.Persistence.Finalize.{
  succeed, fail_permanently, fail_retryably, leave_ambiguous, complete, moved,
  state_after_retryable,
}

unfoldable pub advance_gate_for_reconciliation_rate_limit : ℕ → Instant → Transaction Unit
unfolding advance_gate
advance_gate_for_reconciliation_rate_limit delay_ms now db =
    ok (tt, advance_gate (add_milliseconds now delay_ms) now db)

pub data Disposition : Type 0 where
  matched conflict not_found inconclusive : Disposition

pub data ReconciliationRecord : Type 0 where
  finalized : JobRow → AttemptRow → ReconciliationRecord
  post_side_effect_failure : ReconciliationRecord

-- The attempt's `UPDATE` and the Job's new state.
unfoldable pub resolution :
    Disposition → Option ℕ → Option Ident → Instant → AttemptRow → AttemptRow
resolution matched http_status remote_request_id now a = succeed now http_status remote_request_id a
resolution conflict http_status remote_request_id now a =
    fail_permanently now a.http_status (some Category.idempotency_conflict) a
resolution not_found http_status remote_request_id now a =
    leave_ambiguous now Category.reconciliation_not_found a
resolution inconclusive http_status remote_request_id now a =
    leave_ambiguous now Category.reconciliation_inconclusive a

unfoldable pub resolved_state : Disposition → JobState
resolved_state matched = JobState.succeeded
resolved_state conflict = JobState.failed_permanent
resolved_state not_found = JobState.ambiguous
resolved_state inconclusive = JobState.ambiguous

unfoldable pub resolve :
    Claim
    → Disposition
    → Option ℕ
    → Option Ident
    → Instant
    → JobRow
    → AttemptRow
    → Transaction ReconciliationRecord
unfolding complete resolution resolved_state
resolve claim d http_status remote_request_id now job attempt db = do
  let change = resolution d http_status remote_request_id now
  let state = resolved_state d
  db' ← complete claim change state now db
  ok (finalized (moved state now job) (change attempt), db')

unfoldable pub record_reconciliation_result :
    Claim → Disposition → Option ℕ → Option Ident → Instant → Transaction ReconciliationRecord
unfolding resolve as_owner
record_reconciliation_result claim d http_status remote_request_id now =
    as_owner claim now post_side_effect_failure (resolve claim d http_status remote_request_id now)

-- `_is_actionable_late_evidence`.
unfoldable pub is_actionable_late_evidence : Option Category → Option ℕ → Option Ident → Bool
is_actionable_late_evidence (some Category.processed) (some http_status) (some remote_request_id) =
    http_status == 200 || http_status == 201
is_actionable_late_evidence (some Category.validation_rejected) (some http_status) _ =
    http_status == 400
is_actionable_late_evidence (some Category.idempotency_conflict) (some http_status) _ =
    http_status == 409
is_actionable_late_evidence (some Category.rate_limited) (some http_status) _ = http_status == 429
is_actionable_late_evidence _ _ _ = false

-- The rows of the `SELECT` that the test lets through.
unfoldable pub is_candidate : Ident → ObservationRow → Bool
is_candidate attempt_id o =
    o.attempt_id == attempt_id
    && o.is_late
    && is_none o.consumed_at
    && is_actionable_late_evidence o.evidence_category o.http_status o.remote_request_id

abbrev earlier_observation : ObservationRow → Option ObservationRow → Option ObservationRow
earlier_observation o none = some o
earlier_observation o (some p) = if ltb p.sequence_number o.sequence_number then some p else some o

-- `ORDER BY sequence_number`, and the first that is actionable.
unfoldable pub first_candidate : Ident → List ObservationRow → Option ObservationRow
first_candidate attempt_id [] = none
first_candidate attempt_id (o ∷ os) =
    let later = first_candidate attempt_id os in
    if is_candidate attempt_id o then earlier_observation o later else later

pub data LateConsumption : Type 0 where
  late_evidence_consumed : JobRow → AttemptRow → LateConsumption
  no_actionable_late_evidence post_side_effect_failure : LateConsumption

unfoldable pub consume_with :
    Claim
    → (AttemptRow → AttemptRow)
    → JobState
    → Instant
    → JobRow
    → AttemptRow
    → Transaction LateConsumption
unfolding complete
consume_with claim change state now job attempt db = do
  db' ← complete claim change state now db
  ok (late_evidence_consumed (moved state now job) (change attempt), db')

-- The three branches behind `UPDATE attempt_observations`.
unfoldable pub consume_category :
    RandomSource
    → Option Category
    → ObservationRow
    → Claim
    → Instant
    → JobRow
    → AttemptRow
    → Transaction LateConsumption
unfolding consume_with policy_delay_ms effective_delay_ms state_after_retryable advance_gate
consume_category random (some Category.processed) o claim now job attempt db =
    consume_with claim (succeed now o.http_status o.remote_request_id) JobState.succeeded now job
      attempt db
consume_category random (some Category.rate_limited) o claim now job attempt db =
    let delay_ms =
      effective_delay_ms (policy_delay_ms attempt.attempt_number random) o.retry_after_ms in
    consume_with claim (fail_retryably now o.http_status (some Category.rate_limited) delay_ms)
      (state_after_retryable attempt.attempt_number) now job attempt
      (advance_gate (add_milliseconds now delay_ms) now db)
consume_category random category o claim now job attempt db =
    consume_with claim (fail_permanently now o.http_status category) JobState.failed_permanent now
      job attempt db

unfoldable pub consume_first :
    RandomSource
    → Option ObservationRow
    → Claim
    → Instant
    → JobRow
    → AttemptRow
    → Transaction LateConsumption
unfolding consume_category mark_consumed
consume_first random none claim now job attempt db = ok (no_actionable_late_evidence, db)
consume_first random (some o) claim now job attempt db =
    consume_category random o.evidence_category o claim now job attempt
      (mark_consumed o.observation_id now db)

unfoldable pub consume_owned :
    RandomSource → Claim → Instant → JobRow → AttemptRow → Transaction LateConsumption
unfolding consume_first first_candidate
consume_owned random claim now job attempt db =
    consume_first random (first_candidate claim.attempt_id db.observations) claim now job attempt db

unfoldable pub consume_late_observations :
    RandomSource → Claim → Instant → Transaction LateConsumption
unfolding consume_owned as_owner
consume_late_observations random claim now =
    as_owner claim now post_side_effect_failure (consume_owned random claim now)
