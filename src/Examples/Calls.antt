-- ===== src/Examples/Calls.antt =====
-- The theorems on whole calls, on leases and on late evidence, at the tables of one Job.
use boolean_maybe.Prelude.{
  ◌*◌, ℕ, zero, suc, ◌≡◌, ◌≢◌, ◌≤◌, ◌<◌, refl, ap, true, none, some, [], ◌∷◌, arith, length,
}
use boolean_maybe.Persistence.Rows.{
  JobState, Bytes, AttemptState, Category, Operation, JobRow, AttemptRow, ObservationRow, Database,
  add_milliseconds,
}
use boolean_maybe.Persistence.Database.{
  ok, err, corruption, out_of_draws, empty, bytes_eq, max_payload_bytes, find_job_by_key,
  attempts_of, highest_attempt, select_latest_attempt, update_job, insert_attempt,
  read_gate_not_before, is_success_evidence,
}
use boolean_maybe.Persistence.Lease.{later_of, blocked_until}
use boolean_maybe.Persistence.Lease.{owns}
use boolean_maybe.Persistence.Database.{select_job, select_attempt}
use boolean_maybe.Persistence.Database.{update_job}
use boolean_maybe.Persistence.Rows.{Instant}
use boolean_maybe.Persistence.PreSideEffect.{
  ready_to_submit, already_completed, job_in_progress, insert_attempt_loop, started_attempt,
  start_attempt, authorize_at, authorize_or_defer, retry_evidence, route_retry_scheduled,
  route_state, submitting_evidence, route_submitting, route_existing_job, existing_job, turn_for,
  turn, run_supplied,
}
use boolean_maybe.Persistence.PreSideEffect.Fresh.{run_supplied_new}
use boolean_maybe.Persistence.PreSideEffect.Steps.{Decides}
use boolean_maybe.Persistence.PreSideEffect.Loops.{
  run_supplied-Decides, run_supplied_sound, run_supplied_diverges, run_supplied_once,
}
use boolean_maybe.Persistence.PreSideEffect.Eligibility.{
  HasPassed, route_existing_job-retry, route_existing_job-decided, run_supplied-replay,
}
use boolean_maybe.Examples.Tables.{
  every, payload, first_call, second_call, submitting_job, first_attempt, begun, delayed_job,
  delayed, succeeded_job, matched_tables, retried_job, second_attempt, retried,
}
use boolean_maybe.Examples.Transactions.{delayed-IsConsistent, matched_tables-IsConsistent}

retry-run :
    route_existing_job second_call delayed_job delayed
    ≡ ok (ready_to_submit retried_job second_attempt, retried)
unfolding route_existing_job route_state route_retry_scheduled retry_evidence select_latest_attempt
    attempts_of highest_attempt authorize_or_defer authorize_at start_attempt started_attempt
    insert_attempt_loop insert_attempt update_job later_of blocked_until read_gate_not_before
retry-run = refl

supplied-run :
    run_supplied every (second_call ∷ []) 7 payload delayed
    ≡ ok (ready_to_submit retried_job second_attempt, retried)
unfolding run_supplied turn turn_for existing_job find_job_by_key bytes_eq
supplied-run = rw retry-run refl

run_supplied-Decides_example : Decides delayed (ready_to_submit retried_job second_attempt) retried
run_supplied-Decides_example =
    run_supplied-Decides every (second_call ∷ []) 7 payload delayed
      (ready_to_submit retried_job second_attempt) retried delayed-IsConsistent supplied-run

run_supplied_sound_example :
    run_supplied every (second_call ∷ []) 7 payload delayed ≢ err corruption
run_supplied_sound_example =
    run_supplied_sound every (second_call ∷ []) 7 payload delayed delayed-IsConsistent
      (λ key j h. refl)

route_existing_job-retry_example :
    (l : AttemptRow) × (t : ℕ) × (delay : ℕ) × (select_latest_attempt 1 delayed ≡ some l)
    × (l.state ≡ AttemptState.retryable_failure)
    × (l.completed_at ≡ some t)
    × (l.retry_after_ms ≡ some delay)
    × (add_milliseconds t delay ≤ 4000000)
    × HasPassed (read_gate_not_before delayed) 4000000
route_existing_job-retry_example =
    route_existing_job-retry second_call delayed_job delayed retried_job second_attempt retried refl
      retry-run

in_progress-run :
    route_existing_job second_call submitting_job begun ≡ ok (job_in_progress submitting_job, begun)
unfolding route_existing_job route_state route_submitting submitting_evidence select_latest_attempt
    attempts_of highest_attempt
in_progress-run = refl

route_existing_job-decided_example :
    (begun ≡ begun)
    × ((j : JobRow) (a : AttemptRow) → job_in_progress submitting_job ≢ ready_to_submit j a)
route_existing_job-decided_example =
    route_existing_job-decided second_call submitting_job begun (job_in_progress submitting_job)
      begun (λ e. cc) (λ e. cc) in_progress-run

succeeded-found : find_job_by_key 7 matched_tables ≡ some succeeded_job
unfolding find_job_by_key
succeeded-found = refl

same_payload : bytes_eq payload payload ≡ true
unfolding bytes_eq
same_payload = refl

run_supplied-replay_example :
    (a : AttemptRow) × (run_supplied every (second_call ∷ []) 7 payload matched_tables
      ≡ ok (already_completed succeeded_job a, matched_tables))
    × (is_success_evidence a.http_status a.remote_request_id ≡ true)
run_supplied-replay_example =
    run_supplied-replay every second_call [] 7 payload matched_tables succeeded_job
      matched_tables-IsConsistent succeeded-found refl same_payload refl

run_supplied_once_example :
    run_supplied every (first_call ∷ second_call ∷ []) 7 payload empty
    ≡ run_supplied every (first_call ∷ []) 7 payload empty
run_supplied_once_example =
    run_supplied_once every first_call (second_call ∷ []) 7 payload empty (omega arith)

-- `n` times the byte `1`.
ones : ℕ → Bytes
ones zero = []
ones (suc n) = 49 ∷ ones n

length-ones : (n : ℕ) → length (ones n) ≡ n
unfolding ones
length-ones zero = refl
length-ones (suc n) = ap suc (length-ones n)

ones_long : max_payload_bytes < length (ones 1048577)
ones_long = rw (length-ones 1048577) (omega arith)

nothing-found : find_job_by_key 7 empty ≡ none
unfolding find_job_by_key empty
nothing-found = refl

run_supplied_diverges_example :
    run_supplied every (first_call ∷ second_call ∷ []) 7 (ones 1048577) empty ≡ err out_of_draws
run_supplied_diverges_example =
    run_supplied_diverges every (first_call ∷ second_call ∷ []) 7 (ones 1048577) empty nothing-found
      ones_long

abbrev leased : Database
leased = record begun { attempts = record first_attempt { lease_expires_at = some 90000000 } ∷ [] }

-- A late `200` of the first attempt.
abbrev late_success : ObservationRow
late_success = record {
  observation_id = 21;
  attempt_id = 2;
  sequence_id = 22;
  sequence_number = 1;
  operation = Operation.submission;
  request_ordinal = 1;
  observed_at = 1500000;
  dispatch_certainty = none;
  evidence_category = some Category.processed;
  http_status = some 201;
  remote_request_id = some 77;
  retry_after_ms = none;
  retry_after_diagnostic = none;
  observed_fencing_generation = 1;
  is_late = true;
  consumed_at = none;
}

abbrev with_late : Database
with_late = record begun { observations = late_success ∷ [] }

abbrev late_consumed : Database
late_consumed = record matched_tables {
  observations = record late_success { consumed_at = some 2000000 } ∷ [];
}

run_supplied_new_example :
    (j : JobRow) × (a : AttemptRow) × (db' : Database) × (run_supplied every
        (first_call ∷ [])
        7
        payload
        empty
      ≡ ok (ready_to_submit j a, db'))
    × (j.state ≡ JobState.submitting)
    × (j.payload_canonical ≡ payload)
    × (a.job_id ≡ j.job_id)
    × (a.attempt_number ≡ 1)
    × (select_job j.job_id db' ≡ some j)
    × (select_attempt a.attempt_id db' ≡ some a)
    × ((later : Instant)
        → later < add_milliseconds first_call.lease_now (first_call.lease_seconds * 1000)
        → owns
            (record {
              job_id = j.job_id;
              attempt_id = a.attempt_id;
              invocation_token = first_call.invocation_token;
              fencing_generation = 1;
            })
            later
            db'
          ≡ true)
unfolding empty attempts_of read_gate_not_before
run_supplied_new_example =
    run_supplied_new every first_call [] 7 payload empty 1 2 [] refl nothing-found (omega arith)
      refl refl refl tt
