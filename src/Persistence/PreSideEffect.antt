-- ===== src/Persistence/PreSideEffect.antt =====
-- `run_pre_side_effect_transaction` of src/boolean_maybe/persistence/transactions.py: the Job is
-- found or created, and the next attempt is authorized, deferred or refused. `is_canonical` tells
-- whether `canonical_json` takes the stored bytes back to themselves.
pub mod Steps
pub mod Routing
pub mod Runs
pub mod Loops
pub mod Eligibility
pub mod Fresh
use boolean_maybe.Prelude.{
  ℕ, zero, suc, ◌+◌, ◌*◌, Bool, true, false, not, ◌||◌, Option, none, some, List, [], ◌∷◌, leb, ltb,
  ◌==◌, is_none, if◌then◌else◌,
}
use boolean_maybe.Persistence.Rows.{
  Ident, Instant, Bytes, JobState, AttemptState, JobRow, AttemptRow, Database, add_milliseconds,
}
use boolean_maybe.Persistence.Database.{
  Transaction, is_success_evidence, Result, ok, err, ◌>>=◌, Error, integrity, corruption,
  out_of_draws, job_id_unique, attempt_id_unique, bytes_eq, find_job_by_key, select_latest_attempt,
  find_successful_attempt, insert_job, insert_attempt, update_job, read_gate_not_before,
}
use boolean_maybe.Persistence.Lease.{is_unexpired, later_of, blocked_until}
use boolean_maybe.Persistence.Observations.{retry_on}

abbrev pub initial_fencing_generation : ℕ
initial_fencing_generation = 1

pub data PreSideEffectResult : Type 0 where
  ready_to_submit already_completed recovery_candidate : JobRow → AttemptRow → PreSideEffectResult
  terminal_failed_permanent terminal_ambiguous : JobRow → AttemptRow → PreSideEffectResult
  idempotency_conflict : PreSideEffectResult
  not_yet_eligible : JobRow → Instant → PreSideEffectResult
  job_in_progress : JobRow → PreSideEffectResult

-- What the call's surroundings give it. `now` and `lease_now` are its two readings of the clock,
-- `draws` the values of the id generator.
pub record Call : Type 0 where
  pub invocation_token : Ident
  pub lease_seconds : ℕ
  pub now : Instant
  pub lease_now : Instant
  pub draws : List Ident

abbrev is_job_id_collision : Error → Bool
is_job_id_collision (integrity job_id_unique) = true
is_job_id_collision _ = false

abbrev is_attempt_id_collision : Error → Bool
is_attempt_id_collision (integrity attempt_id_unique) = true
is_attempt_id_collision _ = false

-- The loop of `_insert_job`, with the Job's id that it settles on and the draws that are left.
unfoldable pub insert_job_loop :
    JobRow → List Ident → Database → Result (JobRow × List Ident × Database)
insert_job_loop job [] db =
    retry_on is_job_id_collision (do db' ← insert_job job db; ok (job, [], db')) (err out_of_draws)
insert_job_loop job (i ∷ draws) db =
    let again = insert_job_loop (record job { job_id = i }) draws db in
    retry_on is_job_id_collision (do db' ← insert_job job db; ok (job, i ∷ draws, db')) again

-- The loop of `_start_attempt`.
unfoldable pub insert_attempt_loop :
    AttemptRow → List Ident → Database → Result (AttemptRow × Database)
insert_attempt_loop attempt [] db =
    retry_on is_attempt_id_collision (do db' ← insert_attempt attempt db; ok (attempt, db'))
      (err out_of_draws)
insert_attempt_loop attempt (i ∷ draws) db =
    let again = insert_attempt_loop (record attempt { attempt_id = i }) draws db in
    retry_on is_attempt_id_collision (do db' ← insert_attempt attempt db; ok (attempt, db')) again

unfoldable pub started_attempt : Call → JobRow → ℕ → Ident → AttemptRow
started_attempt call job attempt_number attempt_id = record {
  attempt_id = attempt_id;
  job_id = job.job_id;
  attempt_number = attempt_number;
  state = AttemptState.started;
  started_at = call.now;
  completed_at = none;
  http_status = none;
  remote_request_id = none;
  error_category = none;
  retry_after_ms = none;
  owner_token = some call.invocation_token;
  fencing_generation = initial_fencing_generation;
  lease_expires_at = some (add_milliseconds call.lease_now (call.lease_seconds * 1000));
}

unfoldable pub start_attempt :
    Call → JobRow → ℕ → List Ident → Database → Result (AttemptRow × Database)
unfolding insert_attempt_loop started_attempt
start_attempt call job attempt_number [] db = err out_of_draws
start_attempt call job attempt_number (i ∷ draws) db = do
  inserted ← insert_attempt_loop (started_attempt call job attempt_number i) draws db
  db' ← update_job job.job_id JobState.submitting call.now inserted.1
  ok (inserted.0, db')

unfoldable pub authorize_at :
    Call → JobRow → ℕ → List Ident → Option Instant → Transaction PreSideEffectResult
unfolding start_attempt
authorize_at call job attempt_number draws (some not_before) db =
    ok (not_yet_eligible job not_before, db)
authorize_at call job attempt_number draws none db = do
  begun ← start_attempt call job attempt_number draws db
  ok (
    ready_to_submit (record job { state = JobState.submitting; updated_at = call.now }) begun.0,
    begun.1,
  )

unfoldable pub authorize_or_defer :
    Call → JobRow → ℕ → List Ident → Option Instant → Transaction PreSideEffectResult
unfolding authorize_at later_of blocked_until read_gate_not_before
authorize_or_defer call job attempt_number draws job_eligible_at db =
    authorize_at call job attempt_number draws
      (blocked_until (later_of job_eligible_at (read_gate_not_before db)) call.now) db

route_succeeded : JobRow → Option AttemptRow → Transaction PreSideEffectResult
route_succeeded job none db = err corruption
route_succeeded job (some attempt) db =
    if is_success_evidence attempt.http_status attempt.remote_request_id
    then ok (already_completed job attempt, db)
    else err corruption

unfoldable pub retry_evidence :
    Call
    → JobRow
    → AttemptRow
    → AttemptState
    → Option Instant
    → Option ℕ
    → Transaction PreSideEffectResult
unfolding authorize_or_defer
retry_evidence call job latest AttemptState.retryable_failure (some completed_at)
      (some retry_after_ms) db =
    authorize_or_defer call job (latest.attempt_number + 1) call.draws
      (some (add_milliseconds completed_at retry_after_ms)) db
retry_evidence call job latest _ _ _ db = err corruption

unfoldable pub route_retry_scheduled :
    Call → JobRow → Option AttemptRow → Transaction PreSideEffectResult
unfolding retry_evidence
route_retry_scheduled call job none db = err corruption
route_retry_scheduled call job (some latest) db =
    retry_evidence call job latest latest.state latest.completed_at latest.retry_after_ms db

unfoldable pub submitting_evidence :
    Call → JobRow → AttemptRow → AttemptState → Transaction PreSideEffectResult
submitting_evidence call job latest AttemptState.started db =
    if is_unexpired latest.lease_expires_at call.now
    then ok (job_in_progress job, db)
    else ok (recovery_candidate job latest, db)
submitting_evidence call job latest _ db = err corruption

unfoldable pub route_submitting :
    Call → JobRow → Option AttemptRow → Transaction PreSideEffectResult
unfolding submitting_evidence
route_submitting call job none db = err corruption
route_submitting call job (some latest) db = submitting_evidence call job latest latest.state db

failed_evidence : JobRow → AttemptRow → AttemptState → Transaction PreSideEffectResult
failed_evidence job latest AttemptState.permanent_failure db =
    ok (terminal_failed_permanent job latest, db)
failed_evidence job latest AttemptState.retryable_failure db =
    ok (terminal_failed_permanent job latest, db)
failed_evidence job latest _ db = err corruption

route_failed : JobRow → Option AttemptRow → Transaction PreSideEffectResult
unfolding failed_evidence
route_failed job none db = err corruption
route_failed job (some latest) db = failed_evidence job latest latest.state db

ambiguous_evidence : JobRow → AttemptRow → AttemptState → Transaction PreSideEffectResult
ambiguous_evidence job latest AttemptState.ambiguous db = ok (terminal_ambiguous job latest, db)
ambiguous_evidence job latest _ db = err corruption

route_ambiguous : JobRow → Option AttemptRow → Transaction PreSideEffectResult
unfolding ambiguous_evidence
route_ambiguous job none db = err corruption
route_ambiguous job (some latest) db = ambiguous_evidence job latest latest.state db

unfoldable pub route_state : JobState → Call → JobRow → Transaction PreSideEffectResult
unfolding route_succeeded route_retry_scheduled route_submitting route_failed route_ambiguous
    authorize_or_defer find_successful_attempt select_latest_attempt
route_state JobState.succeeded call job db =
    route_succeeded job (find_successful_attempt job.job_id db) db
route_state JobState.pending call job db = authorize_or_defer call job 1 call.draws none db
route_state JobState.retry_scheduled call job db =
    route_retry_scheduled call job (select_latest_attempt job.job_id db) db
route_state JobState.submitting call job db =
    route_submitting call job (select_latest_attempt job.job_id db) db
route_state JobState.failed_permanent call job db =
    route_failed job (select_latest_attempt job.job_id db) db
route_state JobState.ambiguous call job db =
    route_ambiguous job (select_latest_attempt job.job_id db) db

-- `_route_existing_job`.
unfoldable pub route_existing_job : Call → JobRow → Transaction PreSideEffectResult
unfolding route_state
route_existing_job call job = route_state job.state call job

-- A Job that is new: it is inserted as `PENDING`, and authorized at once.
unfoldable pub pending_job : Call → Ident → Ident → Bytes → JobRow
pending_job call job_id key canonical_bytes = record {
  job_id = job_id;
  idempotency_key = key;
  payload_canonical = canonical_bytes;
  state = JobState.pending;
  created_at = call.now;
  updated_at = call.now;
}

-- One turn of the loop: a result of the whole call, or another turn.
pub data Turn : Type 0 where
  returned : PreSideEffectResult → Turn
  again : Turn

abbrev finished : Result (PreSideEffectResult × Database) → Result (Turn × Database)
finished (ok (r, db)) = ok (returned r, db)
finished (err e) = err e

-- `except sqlite3.IntegrityError` around `_insert_job`: back to the head of the loop.
unfoldable pub after_insert :
    Call → Database → Result (JobRow × List Ident × Database) → Result (Turn × Database)
unfolding authorize_or_defer
after_insert call db (ok (job, draws, db')) =
    finished (authorize_or_defer call job 1 draws none db')
after_insert call db (err (integrity c)) = ok (again, db)
after_insert call db (err e) = err e

unfoldable pub create_job : Call → Ident → Bytes → List Ident → Database → Result (Turn × Database)
unfolding after_insert insert_job_loop pending_job
create_job call key canonical_bytes [] db = err out_of_draws
create_job call key canonical_bytes (i ∷ draws) db =
    after_insert call db (insert_job_loop (pending_job call i key canonical_bytes) draws db)

-- Another turn, or the end of the call.
abbrev pub next_turn :
    Result (Turn × Database)
    → Result (PreSideEffectResult × Database)
    → Result (PreSideEffectResult × Database)
next_turn (ok (returned r, db)) rest = ok (r, db)
next_turn (ok (again, db)) rest = rest
next_turn (err e) rest = err e

module _ (is_canonical : Bytes → Bool) where
  unfoldable pub existing_job : Call → Bytes → JobRow → Transaction PreSideEffectResult
  unfolding route_existing_job
  existing_job call canonical_bytes job db =
      if not (is_canonical job.payload_canonical)
      then err corruption
      else if not (bytes_eq job.payload_canonical canonical_bytes)
      then ok (idempotency_conflict, db)
      else route_existing_job call job db

  -- The body of the loop; `generated` says that no key was supplied.
  unfoldable pub turn_for :
      Bool → Call → Ident → Bytes → Option JobRow → Database → Result (Turn × Database)
  unfolding create_job existing_job
  turn_for generated call key canonical_bytes none db =
      create_job call key canonical_bytes call.draws db
  turn_for generated call key canonical_bytes (some existing) db =
      if generated then ok (again, db) else finished (existing_job call canonical_bytes existing db)

  unfoldable pub turn : Bool → Call → Ident → Bytes → Database → Result (Turn × Database)
  unfolding turn_for find_job_by_key
  turn generated call key canonical_bytes db =
      turn_for generated call key canonical_bytes (find_job_by_key key db) db

  -- The loop under a supplied key: one call's surroundings for each turn.
  unfoldable pub run_supplied : List Call → Ident → Bytes → Transaction PreSideEffectResult
  unfolding turn
  run_supplied [] key canonical_bytes db = err out_of_draws
  run_supplied (call ∷ calls) key canonical_bytes db =
      let rest = run_supplied calls key canonical_bytes db in
      next_turn (turn false call key canonical_bytes db) rest

  -- The loop under generated keys, of which each turn draws one.
  unfoldable pub run_generated : List (Ident × Call) → Bytes → Transaction PreSideEffectResult
  unfolding turn
  run_generated [] canonical_bytes db = err out_of_draws
  run_generated ((key, call) ∷ calls) canonical_bytes db =
      let rest = run_generated calls canonical_bytes db in
      next_turn (turn true call key canonical_bytes db) rest
