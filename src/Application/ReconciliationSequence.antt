-- ===== src/Application/ReconciliationSequence.antt =====
-- `run_reconciliation_sequence` of src/boolean_maybe/application/reconciliation_sequence.py: the
-- requests that find out what became of a submission.
pub mod Loop
pub mod Sound
pub mod Rounds
pub mod Requests
use boolean_maybe.Prelude.{
  ℕ, zero, suc, ◌+◌, ◌-◌, ◌*◌, min, Bool, true, false, Option, none, some, List, [], ◌∷◌, ltb, leb,
  ◌==◌, if◌then◌else◌,
}
use boolean_maybe.Domain.Backoff.{RandomSource, policy_delay_ms, effective_delay_ms}
use boolean_maybe.Domain.RetryAfter.{
  Text, Diagnostic, RetryAfterResult, parse_retry_after, server_delay_of, diagnostic_of,
}
use boolean_maybe.External.Outcome.{
  ReconcileHttpOutcome, observed_http_status, observed_remote_request_id,
}
use boolean_maybe.Persistence.Rows.{
  Ident, Instant, Category, Operation, JobRow, AttemptRow, add_milliseconds, is_rate_limited,
}
use boolean_maybe.Persistence.Database.{Result, ok, err, Error, value_error, out_of_draws}
use boolean_maybe.Persistence.Lease.{
  Claim, LeaseRenewal, lease_renewed, renew_lease, lease_seconds_default, Authorization,
  reconciliation_authorized, reconciliation_ownership_lost, reconciliation_deferred,
  authorize_reconciliation_request,
}
use boolean_maybe.Persistence.Observations.{Observed, append_observation, append_late_observation}
use boolean_maybe.Persistence.Reconcile.{
  Disposition, inconclusive, ReconciliationRecord, record_reconciliation_result, LateConsumption,
  consume_late_observations, advance_gate_for_reconciliation_rate_limit,
}
use boolean_maybe.Application.Classification.{
  ReconciliationDisposition, ReconciliationEvidence, classify_reconciliation_outcome,
}
use boolean_maybe.Application.Waiting.{
  Waited, waited, unfit, lost, renewal_cadence, delay_until, remaining,
}
use boolean_maybe.Application.Flow.{
  World, Moment, Flow, give, raise, settle, transact, slept, requested, get,
}

abbrev pub max_reconciliation_requests : ℕ
max_reconciliation_requests = 3

pub record ReconciliationOutcome : Type 0 where
  pub job : JobRow
  pub attempt : AttemptRow
  pub request_count : ℕ
  pub ownership_lost : Bool
  pub persistence_failed : Bool

-- The arguments that stay the same during the sequence.
pub record Owner : Type 0 where
  pub job : JobRow
  pub attempt : AttemptRow
  pub invocation_token : Ident
  pub fencing_generation : ℕ

abbrev pub claim_of : Owner → Claim
claim_of o = record {
  job_id = o.job.job_id;
  attempt_id = o.attempt.attempt_id;
  invocation_token = o.invocation_token;
  fencing_generation = o.fencing_generation;
}

abbrev pub settled : JobRow → AttemptRow → ℕ → ReconciliationOutcome
settled job attempt request_count = record {
  job = job;
  attempt = attempt;
  request_count = request_count;
  ownership_lost = false;
  persistence_failed = false;
}

abbrev pub lost_ownership : Owner → ℕ → ReconciliationOutcome
lost_ownership o request_count = record (settled o.job o.attempt request_count) {
  ownership_lost = true;
}

abbrev pub failed_persistence : Owner → ℕ → ReconciliationOutcome
failed_persistence o request_count = record (settled o.job o.attempt request_count) {
  persistence_failed = true;
}

unfoldable pub consumed_outcome :
    Owner → ℕ → Result LateConsumption → Flow (Option ReconciliationOutcome)
consumed_outcome o n (ok LateConsumption.no_actionable_late_evidence) = give none
consumed_outcome o n (ok LateConsumption.post_side_effect_failure) =
    give (some (lost_ownership o n))
consumed_outcome o n (ok (LateConsumption.late_evidence_consumed job attempt)) =
    give (some (settled job attempt n))
consumed_outcome o n (err _) = give (some (failed_persistence o n))

unfoldable pub consuming : RandomSource → Owner → Moment → Flow LateConsumption
unfolding transact
consuming random o m = transact m (λ now draws. consume_late_observations random (claim_of o) now)

unfoldable pub try_consume_late_evidence :
    RandomSource → Owner → ℕ → Moment → Flow (Option ReconciliationOutcome)
unfolding settle consuming consumed_outcome
try_consume_late_evidence random o n m = settle (consuming random o m) (consumed_outcome o n)

-- `if consumed is not None: return consumed`.
unfoldable pub unless_consumed :
    {A : Type 0}
    → (ReconciliationOutcome → A)
    → Flow A
    → Result (Option ReconciliationOutcome)
    → Flow A
unless_consumed returned next (ok none) = next
unless_consumed returned next (ok (some outcome)) = give (returned outcome)
unless_consumed returned next (err e) = raise e

-- `_LATE_EVIDENCE_CATEGORY_BY_DISPOSITION`.
unfoldable pub late_evidence_category : Disposition → Category
late_evidence_category Disposition.matched = Category.processed
late_evidence_category Disposition.conflict = Category.idempotency_conflict
late_evidence_category Disposition.not_found = Category.reconciliation_not_found
late_evidence_category Disposition.inconclusive = Category.reconciliation_inconclusive

-- The calls that `_finalize` may make.
pub record Ending : Type 0 where
  pub consume : Moment
  pub record_result : Moment
  pub append_late : Moment

-- What a reconciliation ends with.
pub record Finding : Type 0 where
  pub disposition : Disposition
  pub http_status : Option ℕ
  pub remote_request_id : Option Ident

abbrev pub inconclusive_finding : Finding
inconclusive_finding = record {
  disposition = inconclusive;
  http_status = none;
  remote_request_id = none;
}

unfoldable pub late_observation : Owner → Finding → Observed
unfolding late_evidence_category
late_observation o f = record {
  attempt_id = o.attempt.attempt_id;
  operation = Operation.reconciliation;
  request_ordinal = 1;
  dispatch_certainty = none;
  evidence_category = some (late_evidence_category f.disposition);
  http_status = f.http_status;
  remote_request_id = f.remote_request_id;
  retry_after_ms = none;
  retry_after_diagnostic = none;
  observed_fencing_generation = o.fencing_generation;
}

unfoldable pub appending_late : Owner → Finding → Moment → Flow Ident
unfolding transact late_observation
appending_late o f m =
    transact m (λ now draws. append_late_observation (late_observation o f) now draws)

unfoldable pub recorded_outcome :
    Owner → ℕ → Finding → Moment → Result ReconciliationRecord → Flow ReconciliationOutcome
unfolding settle appending_late
recorded_outcome o n f m (ok (ReconciliationRecord.finalized job attempt)) =
    give (settled job attempt n)
recorded_outcome o n f m (ok ReconciliationRecord.post_side_effect_failure) =
    settle (appending_late o f m) (λ _. give (lost_ownership o n))
recorded_outcome o n f m (err _) = give (failed_persistence o n)

unfoldable pub recording : Owner → Finding → Moment → Flow ReconciliationRecord
unfolding transact
recording o f m = transact m (λ now draws.
    record_reconciliation_result (claim_of o) f.disposition f.http_status f.remote_request_id now)

unfoldable pub record_finding : Owner → ℕ → Finding → Ending → Flow ReconciliationOutcome
unfolding settle recording recorded_outcome
record_finding o n f e =
    settle (recording o f e.record_result) (recorded_outcome o n f e.append_late)

unfoldable pub finalize_by :
    Disposition → RandomSource → Owner → ℕ → Finding → Ending → Flow ReconciliationOutcome
unfolding settle try_consume_late_evidence unless_consumed record_finding
finalize_by Disposition.inconclusive random o n f e =
    settle (try_consume_late_evidence random o n e.consume)
      (unless_consumed (λ x. x) (record_finding o n f e))
finalize_by _ random o n f e = record_finding o n f e

-- `_finalize`.
unfoldable pub finalize : RandomSource → Owner → ℕ → Finding → Ending → Flow ReconciliationOutcome
unfolding finalize_by
finalize random o n f e = finalize_by f.disposition random o n f e

-- `_renew`: an exception counts as a renewal that failed.
abbrev is_renewed : Result LeaseRenewal → Bool
is_renewed (ok (lease_renewed _)) = true
is_renewed _ = false

unfoldable pub renewal : Owner → Moment → Flow LeaseRenewal
unfolding transact
renewal o m = transact m (λ now draws. renew_lease (claim_of o) lease_seconds_default now)

unfoldable pub if_renewed : Flow Waited → Result LeaseRenewal → Flow Waited
if_renewed rest r = if is_renewed r then rest else give lost

-- The loop of `wait_while_renewing_lease`, with the renewals in the tables. Fuel bounds the rounds,
-- of which one is run for each moment at most.
unfoldable pub renewing : ℕ → ℕ → List Moment → Owner → Flow Waited
unfolding settle renewal if_renewed slept
renewing zero left renewals o = give waited
renewing (suc fuel) zero renewals o = give waited
renewing (suc fuel) (suc n) [] o =
    let left = suc n in
    let chunk = min left renewal_cadence in
    settle (slept chunk) (λ _. if left - chunk == 0 then give waited else give lost)
renewing (suc fuel) (suc n) (m ∷ renewals) o =
    let left = suc n in
    let chunk = min left renewal_cadence in
    let rest = renewing fuel (left - chunk) renewals o in
    settle (slept chunk)
      (λ _. if left - chunk == 0 then give waited else settle (renewal o m) (if_renewed rest))

unfoldable pub wait_renewing : Instant → Instant → List Moment → Owner → Flow Waited
unfolding renewing remaining
wait_renewing not_before now renewals o w =
    let delay = delay_until not_before now in
    (if ltb (remaining w.budget) delay then give unfit else renewing delay delay renewals o) w
