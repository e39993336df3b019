-- ===== src/Examples/Transactions.antt =====
-- The transactions' theorems at the tables of one Job.
use boolean_maybe.Prelude.{ℕ, ◌≡◌, ◌≤◌, refl, false, some, [], ◌∷◌, arith}
use boolean_maybe.Domain.Backoff.{policy_delay_ms, effective_delay_ms}
use boolean_maybe.Domain.RetryAfter.{
  accepted, parse_retry_after, parse_value, accept_seconds, strip, lstrip, rstrip, is_delta_seconds,
  is_negative_delta_seconds, int_of, digits_value, accept_delay_ms, server_delay_of, diagnostic_of,
}
use boolean_maybe.External.Outcome.{SubmitHttpOutcome}
use boolean_maybe.Application.Classification.{classify_submission_outcome}
use boolean_maybe.Application.Classification.Evidence.{classify-IsSound}
use boolean_maybe.Persistence.Rows.{add_milliseconds, AttemptRow, Database}
use boolean_maybe.Persistence.Database.{
  ok, empty, find_job_by_key, select_job, select_attempt, insert_job, update_job, insert_attempt,
  update_attempt, insert_observation, next_sequence_number, highest_sequence_number, advance_gate,
  read_gate_not_before,
}
use boolean_maybe.Persistence.Lease.{
  owns, owns_active_attempt, owner_rows, as_owner, claim_rows, still_expired, claim_expired_attempt,
  later_of, blocked_until, claim_succeeded,
}
use boolean_maybe.Persistence.Lease.Fencing.{claim_expired_attempt-fences}
use boolean_maybe.Persistence.Observations.{
  observation_row, insert_with_ids, first_ids, insert_submission_observation,
}
use boolean_maybe.Persistence.Finalize.{
  complete, state_after_retryable, finalize_delayed, finalize_parsed, by_disposition,
  finalize_submission_attempt, SubmissionRecord,
}
use boolean_maybe.Persistence.Finalize.Gate.{finalize_submission_attempt_gate}
use boolean_maybe.Persistence.Finalize.Steps.{finalize_submission_attempt-Advances}
use boolean_maybe.Persistence.Reconcile.{
  Disposition, ReconciliationRecord, resolution, resolved_state, resolve,
  record_reconciliation_result,
}
use boolean_maybe.Persistence.Reconcile.Steps.{record_reconciliation_result-Advances}
use boolean_maybe.Persistence.PreSideEffect.{
  ready_to_submit, insert_job_loop, insert_attempt_loop, started_attempt, start_attempt,
  authorize_at, authorize_or_defer, pending_job, after_insert, create_job, turn_for, turn,
  run_supplied,
}
use boolean_maybe.Persistence.Ledger.{IsConsistent}
use boolean_maybe.Persistence.Ledger.Evolution.{Advances, Later}
use boolean_maybe.Persistence.PreSideEffect.{idempotency_conflict}
use boolean_maybe.Persistence.Database.{bytes_eq}
use boolean_maybe.Persistence.Reachable.Bindings.{run_supplied-conflict}
use boolean_maybe.Persistence.Reachable.Fencing.{Refuses, taken_over-Refuses}
use boolean_maybe.Persistence.Reachable.Histories.{Steps-Later}
use boolean_maybe.Persistence.Reachable.{
  supplied, finalized, Step, next_step, none_more, Step-Advances, Reachable, start, after,
  Reachable-IsConsistent,
}
use boolean_maybe.Examples.Tables.{
  one_date, lowest, every, payload, other_payload, first_call, submitting_job, first_attempt, begun,
  owner, owner-Names, seen_attempt, delayed_job, delayed_attempt, delayed, succeeded_job,
  succeeded_attempt, matched_tables,
}

begun-run :
    run_supplied every (first_call ∷ []) 7 payload empty
    ≡ ok (ready_to_submit submitting_job first_attempt, begun)
unfolding run_supplied turn turn_for create_job after_insert pending_job insert_job_loop
    authorize_or_defer authorize_at start_attempt started_attempt insert_attempt_loop insert_attempt
    insert_job update_job later_of blocked_until read_gate_not_before find_job_by_key empty
begun-run = refl

pub begun-Reachable : Reachable every one_date lowest begun
begun-Reachable =
    after empty begun start (
      supplied (first_call ∷ []) 7 payload (ready_to_submit submitting_job first_attempt) begun-run)

Reachable-IsConsistent_example : IsConsistent begun
Reachable-IsConsistent_example = Reachable-IsConsistent every one_date lowest begun begun-Reachable

pub begun-IsConsistent : IsConsistent begun
begun-IsConsistent = Reachable-IsConsistent every one_date lowest begun begun-Reachable

finalize-run :
    finalize_submission_attempt one_date lowest owner 1
      (classify_submission_outcome (SubmitHttpOutcome.rate_limited ((49 ∷ []) ∷ [])))
      2000000
      (11 ∷ 12 ∷ [])
      begun
    ≡ ok (SubmissionRecord.retry_scheduled delayed_job delayed_attempt, delayed)
unfolding finalize_submission_attempt as_owner owner_rows owns_active_attempt by_disposition
    finalize_parsed finalize_delayed classify_submission_outcome parse_retry_after parse_value
    accept_seconds strip lstrip rstrip is_delta_seconds is_negative_delta_seconds int_of
    digits_value accept_delay_ms server_delay_of effective_delay_ms diagnostic_of policy_delay_ms
    complete state_after_retryable insert_submission_observation first_ids insert_with_ids
    observation_row next_sequence_number highest_sequence_number insert_observation update_attempt
    update_job select_job select_attempt advance_gate
finalize-run = refl

finalize_submission_attempt-Advances_example : Advances begun delayed
finalize_submission_attempt-Advances_example =
    finalize_submission_attempt-Advances one_date lowest owner 1
      (classify_submission_outcome (SubmitHttpOutcome.rate_limited ((49 ∷ []) ∷ []))) 2000000
      (11 ∷ 12 ∷ []) begun (SubmissionRecord.retry_scheduled delayed_job delayed_attempt) delayed
      begun-IsConsistent owner-Names
      (classify-IsSound (SubmitHttpOutcome.rate_limited ((49 ∷ []) ∷ [])) tt) finalize-run

pub delayed-Step : Step every one_date lowest begun delayed
delayed-Step =
    finalized owner 1 (SubmitHttpOutcome.rate_limited ((49 ∷ []) ∷ [])) 2000000 (11 ∷ 12 ∷ [])
      (SubmissionRecord.retry_scheduled delayed_job delayed_attempt) owner-Names tt finalize-run

Step-Advances_example : Advances begun delayed
Step-Advances_example =
    Step-Advances every one_date lowest begun delayed delayed-Step begun-IsConsistent

Steps-Later_example : (b : AttemptRow) × (select_attempt 2 delayed ≡ some b) × Later first_attempt b
Steps-Later_example =
    Steps-Later every one_date lowest begun delayed 2 first_attempt begun-Reachable
      (next_step begun delayed none_more delayed-Step) (unfold select_attempt in refl)

pub delayed-IsConsistent : IsConsistent delayed
delayed-IsConsistent =
    (Step-Advances every one_date lowest begun delayed delayed-Step begun-IsConsistent).consistent

reconcile-run :
    record_reconciliation_result owner Disposition.matched (some 201) (some 77) 2000000 begun
    ≡ ok (ReconciliationRecord.finalized succeeded_job succeeded_attempt, matched_tables)
unfolding record_reconciliation_result as_owner owner_rows owns_active_attempt resolve resolution
    resolved_state complete update_attempt update_job select_job select_attempt
reconcile-run = refl

pub matched_tables-IsConsistent : IsConsistent matched_tables
matched_tables-IsConsistent =
    (record_reconciliation_result-Advances owner 1 Disposition.matched (some 201) (some 77) 2000000
      begun (ReconciliationRecord.finalized succeeded_job succeeded_attempt) matched_tables
      begun-IsConsistent owner-Names (λ d. refl) reconcile-run).consistent

abbrev taken_attempt : AttemptRow
taken_attempt = record first_attempt {
  owner_token = some 10;
  fencing_generation = 2;
  lease_expires_at = some 130000000;
}

abbrev taken : Database
taken = record begun { attempts = taken_attempt ∷ [] }

claim-run :
    claim_expired_attempt seen_attempt 10 60 70000000 begun
    ≡ ok (claim_succeeded submitting_job taken_attempt, taken)
unfolding claim_expired_attempt claim_rows still_expired update_attempt select_job select_attempt
claim-run = refl

claim_expired_attempt-fences_example : owns owner 70000001 taken ≡ false
claim_expired_attempt-fences_example =
    claim_expired_attempt-fences seen_attempt 10 60 70000000 70000001 begun taken submitting_job
      taken_attempt owner claim-run refl refl

taken_over-Refuses_example : Refuses one_date lowest owner 70000001 taken
taken_over-Refuses_example =
    taken_over-Refuses every one_date lowest seen_attempt 10 60 70000000 70000001 begun taken taken
      submitting_job taken_attempt owner begun-Reachable
      (λ b h. unfold select_attempt in ground arith) claim-run none_more refl refl

finalize_submission_attempt_gate_example :
    (t : ℕ) × (read_gate_not_before delayed ≡ some t)
    × (2000000 ≤ t)
    × ((d : ℕ)
        → parse_retry_after one_date ((49 ∷ []) ∷ []) 2000000 ≡ some (accepted d)
        → add_milliseconds 2000000 d ≤ t)
    × ((g : ℕ) → read_gate_not_before begun ≡ some g → g ≤ t)
unfolding classify_submission_outcome
finalize_submission_attempt_gate_example =
    finalize_submission_attempt_gate one_date lowest owner 1
      (classify_submission_outcome (SubmitHttpOutcome.rate_limited ((49 ∷ []) ∷ []))) 2000000
      (11 ∷ 12 ∷ []) begun (SubmissionRecord.retry_scheduled delayed_job delayed_attempt) delayed
      refl refl finalize-run (λ e. cc)

begun-named : find_job_by_key 7 begun ≡ some submitting_job
unfolding find_job_by_key
begun-named = refl

other_payload_differs : bytes_eq payload other_payload ≡ false
unfolding bytes_eq
other_payload_differs = refl

run_supplied-conflict_example :
    run_supplied every (first_call ∷ []) 7 other_payload delayed
    ≡ ok (idempotency_conflict, delayed)
run_supplied-conflict_example =
    run_supplied-conflict every one_date lowest begun delayed submitting_job 7 first_call []
      other_payload begun-Reachable begun-named (next_step begun delayed none_more delayed-Step)
      refl other_payload_differs
