-- ===== src/Persistence/PreSideEffect/Fresh.antt =====
-- About `run_pre_side_effect_transaction` of src/boolean_maybe/persistence/transactions.py for a
-- new Job.
use boolean_maybe.Prelude.{
  ℕ, ◌≤◌, ◌<◌, ◌*◌, ◌≡◌, refl, Bool, true, false, not, ◌&&◌, ◌||◌, Option, none, some, List, [],
  ◌∷◌, ◌++◌, arith, any, all, leb, ◌==◌, length, update_where,
}
use boolean_maybe.Persistence.Rows.{
  Ident, Instant, Bytes, JobState, JobRow, AttemptRow, Database, is_started, add_milliseconds,
}
use boolean_maybe.Persistence.Database.{
  ok, max_payload_bytes, find_job_by_key, attempts_of, insert_job, insert_attempt, update_job,
  read_gate_not_before, select_job, select_attempt,
}
use boolean_maybe.Persistence.Ledger.Select.{
  job_named, attempt_named, job_named-update, job_named-append, attempt_named-append,
}
use boolean_maybe.Persistence.Lease.{later_of, blocked_until, owns, owns_active_attempt}
use boolean_maybe.Persistence.PreSideEffect.{
  Call, ready_to_submit, insert_job_loop, insert_attempt_loop, started_attempt, start_attempt,
  authorize_at, authorize_or_defer, pending_job, after_insert, create_job, turn, turn_for,
  run_supplied,
}
use boolean_maybe.Persistence.PreSideEffect.Loops.{key_free}
use boolean_maybe.Persistence.PreSideEffect.Eligibility.{HasPassed}

added : JobRow → Database → Database
added job db = record db { jobs = db.jobs ++ job ∷ [] }

insert_job-added :
    (job : JobRow) (db : Database)
    → length job.payload_canonical ≤ max_payload_bytes
    → job.created_at ≡ job.updated_at
    → any (λ j. j.job_id == job.job_id) db.jobs ≡ false
    → find_job_by_key job.idempotency_key db ≡ none
    → insert_job job db ≡ ok (added job db)
unfolding insert_job added find_job_by_key
insert_job-added job db fits same id key = ground (arith, key_free job.idempotency_key db.jobs)

insert_job_loop-added :
    (job : JobRow) (draws : List Ident) (db : Database)
    → insert_job job db ≡ ok (added job db)
    → insert_job_loop job draws db ≡ ok (job, draws, added job db)
unfolding insert_job_loop
insert_job_loop-added job [] db h = rw h refl
insert_job_loop-added job (i ∷ draws) db h = rw h refl

any-added :
    (job : JobRow) (jobs : List JobRow)
    → any (λ j. j.job_id == job.job_id) (jobs ++ job ∷ []) ≡ true
any-added job [] = ground arith
any-added job (j ∷ jobs) = ground (arith, any-added job jobs)

updatable :
    (job : JobRow) (now : Instant) (jobs : List JobRow)
    → any (λ j. j.job_id == job.job_id) jobs ≡ false
    → job.created_at ≤ now
    → all (λ j. not (j.job_id == job.job_id) || leb j.created_at now) (jobs ++ job ∷ []) ≡ true
updatable job now [] fresh h = ground arith
updatable job now (j ∷ jobs) fresh h = ground (arith, updatable job now jobs)

no_attempt :
    (i : Ident) (p : AttemptRow → Bool) (rows : List AttemptRow)
    → attempts_of i rows ≡ []
    → any (λ a. a.job_id == i && p a) rows ≡ false
unfolding attempts_of
no_attempt i p [] h = refl
no_attempt i p (a ∷ rows) h = ground (arith, no_attempt i p rows)

unblocked :
    (gate : Option Instant) (now : Instant) → HasPassed gate now → blocked_until gate now ≡ none
unfolding blocked_until
unblocked none now h = refl
unblocked (some t) now h = ground arith

self : (n : ℕ) → n ≤ n
self n = omega arith

module _ (call : Call) (job : JobRow) (k : Ident) (db : Database)
    (new_job : any (λ j. j.job_id == job.job_id) db.jobs ≡ false)
    (new_attempt : any (λ a. a.attempt_id == k) db.attempts ≡ false)
    (idle : attempts_of job.job_id db.attempts ≡ []) (created : job.created_at ≤ call.now) where
  begun_by : Database
  begun_by = record db {
    jobs = db.jobs ++ job ∷ [];
    attempts = db.attempts ++ started_attempt call job 1 k ∷ [];
  }

  insert_attempt_first : insert_attempt (started_attempt call job 1 k) (added job db) ≡ ok begun_by
  unfolding insert_attempt started_attempt added begun_by
  insert_attempt_first =
      rw
        (
          new_attempt,
          no_attempt job.job_id (λ a. a.attempt_number == 1) db.attempts idle,
          no_attempt job.job_id (λ a. is_started a.state) db.attempts idle,
          any-added job db.jobs,
        )
        refl

  insert_attempt_loop_first :
      (draws : List Ident)
      → insert_attempt_loop (started_attempt call job 1 k) draws (added job db)
        ≡ ok (started_attempt call job 1 k, begun_by)
  unfolding insert_attempt_loop
  insert_attempt_loop_first [] = rw insert_attempt_first refl
  insert_attempt_loop_first (i ∷ draws) = rw insert_attempt_first refl

  submitted_by : Database
  submitted_by = record begun_by {
    jobs =
        update_where (λ j. j.job_id == job.job_id)
          (λ j. record j { state = JobState.submitting; updated_at = call.now })
          (db.jobs ++ job ∷ []);
  }

  start_attempt_first :
      (draws : List Ident)
      → start_attempt call job 1 (k ∷ draws) (added job db)
        ≡ ok (started_attempt call job 1 k, submitted_by)
  unfolding start_attempt update_job begun_by submitted_by
  start_attempt_first draws =
      rw (insert_attempt_loop_first draws, updatable job call.now db.jobs new_job created) refl

  authorize_or_defer_first :
      (draws : List Ident)
      → HasPassed (read_gate_not_before db) call.now
      → authorize_or_defer call job 1 (k ∷ draws) none (added job db)
        ≡ ok (
          ready_to_submit
              (record job { state = JobState.submitting; updated_at = call.now })
              (started_attempt call job 1 k),
          submitted_by,
        )
  unfolding authorize_or_defer authorize_at later_of added read_gate_not_before
  authorize_or_defer_first draws open_ =
      rw (unblocked (read_gate_not_before db) call.now open_, start_attempt_first draws) refl

  -- The rows that the call leaves.
  job_there :
      job_named job.job_id submitted_by.jobs
      ≡ some (record job { state = JobState.submitting; updated_at = call.now })
  unfolding submitted_by begun_by
  job_there = ground (
    arith,
    job_named-update job.job_id job.job_id
        (λ j. record j { state = JobState.submitting; updated_at = call.now }) (db.jobs ++ job ∷ [])
        (λ j. refl),
    job_named-append job.job_id job db.jobs new_job,
  )

  attempt_there : attempt_named k submitted_by.attempts ≡ some (started_attempt call job 1 k)
  unfolding submitted_by begun_by started_attempt
  attempt_there =
      ground (arith, attempt_named-append (started_attempt call job 1 k) db.attempts new_attempt)

  owned_there :
      (later : Instant)
      → later < add_milliseconds call.lease_now (call.lease_seconds * 1000)
      → owns
          (record {
            job_id = job.job_id;
            attempt_id = k;
            invocation_token = call.invocation_token;
            fencing_generation = 1;
          })
          later
          submitted_by
        ≡ true
  unfolding owns owns_active_attempt select_job select_attempt started_attempt
  owned_there later soon = rw (job_there, attempt_there) (ground (arith, soon))

module _ (is_canonical : Bytes → Bool) where
  -- A new key whose payload fits, with ids that no row has, while the gate of the service is open: the
  -- call returns at its first turn, ready to submit the new Job's first attempt. The tables that it
  -- leaves have both rows, and the call's token and generation 1 own the attempt there, at every
  -- instant before the end of the lease that begins with the call.
  pub run_supplied_new :
      (call : Call) (calls : List Call) (key : Ident) (canonical_bytes : Bytes) (db : Database)
      (i k : Ident) (draws : List Ident)
      → call.draws ≡ i ∷ k ∷ draws
      → find_job_by_key key db ≡ none
      → length canonical_bytes ≤ max_payload_bytes
      → any (λ j. j.job_id == i) db.jobs ≡ false
      → any (λ a. a.attempt_id == k) db.attempts ≡ false
      → attempts_of i db.attempts ≡ []
      → HasPassed (read_gate_not_before db) call.now
      → (j : JobRow) × (a : AttemptRow) × (db' : Database) × (run_supplied is_canonical
            (call ∷ calls)
            key
            canonical_bytes
            db
          ≡ ok (ready_to_submit j a, db'))
        × (j.state ≡ JobState.submitting)
        × (j.payload_canonical ≡ canonical_bytes)
        × (a.job_id ≡ j.job_id)
        × (a.attempt_number ≡ 1)
        × (select_job j.job_id db' ≡ some j)
        × (select_attempt a.attempt_id db' ≡ some a)
        × ((later : Instant)
            → later < add_milliseconds call.lease_now (call.lease_seconds * 1000)
            → owns
                (record {
                  job_id = j.job_id;
                  attempt_id = a.attempt_id;
                  invocation_token = call.invocation_token;
                  fencing_generation = 1;
                })
                later
                db'
              ≡ true)
  unfolding run_supplied turn turn_for create_job after_insert pending_job started_attempt
      submitted_by begun_by select_job select_attempt
  run_supplied_new call calls key canonical_bytes db i k draws drawn free fits new_job new_attempt
        idle open_ =
      let job = pending_job call i key canonical_bytes in
      let now = self call.now in
      (
        record job { state = JobState.submitting },
        started_attempt call job 1 k,
        submitted_by call job k db new_job new_attempt idle now,
        rw
            (
              free,
              drawn,
              insert_job_loop-added job (k ∷ draws) db
                  (insert_job-added job db fits refl new_job free),
              authorize_or_defer_first call job k db new_job new_attempt idle now draws open_,
            )
            refl,
        refl,
        refl,
        refl,
        refl,
        job_there call job k db new_job new_attempt idle now,
        attempt_there call job k db new_job new_attempt idle now,
        owned_there call job k db new_job new_attempt idle now,
      )
