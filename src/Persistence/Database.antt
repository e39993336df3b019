-- ===== src/Persistence/Database.antt =====
-- The SQL statements of src/boolean_maybe/persistence/transactions.py and rate_limit_gate.py on the
-- tables, under the constraints of src/boolean_maybe/persistence/schema.py, and what a transaction
-- leaves behind. A transaction that raises is rolled back, or never committed before its
-- connection closes: the tables stay as they were.
use boolean_maybe.Prelude.{
  ℕ, ◌+◌, max, Bool, true, false, not, ◌&&◌, ◌||◌, Option, none, some, List, [], ◌∷◌, ◌++◌, ltb,
  leb, ◌==◌, ◌≡◌, refl, is_none, if◌then◌else◌, length, find, any, all, select, update_where,
}
use boolean_maybe.Persistence.Rows.{
  Ident, Instant, Bytes, JobState, JobRow, AttemptRow, ObservationRow, GateRow, Database,
  is_started, is_succeeded,
}

-- The constraints whose violation is an `sqlite3.IntegrityError`.
pub data Constraint : Type 0 where
  payload_length job_updated_at job_id_unique idempotency_key_unique : Constraint
  attempt_shape attempt_completed_at attempt_job attempt_id_unique : Constraint
  attempt_number_unique one_started_attempt : Constraint
  observation_shape observation_attempt observation_id_unique : Constraint
  sequence_number_unique sequence_id_unique : Constraint

-- `out_of_draws` is no exception of the program: the list of the draws that an id or key generator
-- makes in the call has ended.
pub data Error : Type 0 where
  integrity : Constraint → Error
  persistence corruption value_error out_of_draws assertion cancelled : Error

infixl 5 ◌>>=◌
pub data Result {κ} (B : Type κ) : Type κ where
  err : Error → Result B
  ok : B → Result B

-- The first exception ends the sequence.
abbrev pub ◌>>=◌ {κ ℓ} : {B : Type κ} {C : Type ℓ} → Result B → (next : B → Result C) → Result C
err exception >>= next = err exception
ok value >>= next = next value

-- What a transaction returns, and the tables that it commits: those it began with for `ROLLBACK`.
abbrev pub Transaction : Type 0 → Type 0
Transaction A = Database → Result (A × Database)

-- `BEGIN IMMEDIATE` or a later statement may fail with `sqlite3.OperationalError`.
unfoldable pub run : {A : Type 0} → Bool → Transaction A → Database → Result A × Database
run true body db = (err persistence, db)
run false body db = elim (body db) [ ok (a, db') ↦ (ok a, db') | err e ↦ (err e, db) ]

unfoldable pub empty : Database
empty = record { jobs = []; attempts = []; observations = []; gate = none }

unfoldable pub bytes_eq : Bytes → Bytes → Bool
bytes_eq [] [] = true
bytes_eq (a ∷ rest) (b ∷ more) = a == b && bytes_eq rest more
bytes_eq _ _ = false

abbrev pub max_payload_bytes : ℕ
max_payload_bytes = 1048576

-- `_find_job_by_key`, `_select_job`, `_select_attempt`.
unfoldable pub find_job_by_key : Ident → Database → Option JobRow
find_job_by_key key db = find (λ j. j.idempotency_key == key) db.jobs

unfoldable pub select_job : Ident → Database → Option JobRow
select_job job_id db = find (λ j. j.job_id == job_id) db.jobs

unfoldable pub select_attempt : Ident → Database → Option AttemptRow
select_attempt attempt_id db = find (λ a. a.attempt_id == attempt_id) db.attempts

unfoldable pub attempts_of : Ident → List AttemptRow → List AttemptRow
attempts_of job_id = select (λ a. a.job_id == job_id)

abbrev later_attempt : AttemptRow → Option AttemptRow → Option AttemptRow
later_attempt a none = some a
later_attempt a (some b) = if ltb b.attempt_number a.attempt_number then some a else some b

-- `ORDER BY attempt_number DESC LIMIT 1`.
unfoldable pub highest_attempt : List AttemptRow → Option AttemptRow
highest_attempt [] = none
highest_attempt (a ∷ rest) = later_attempt a (highest_attempt rest)

unfoldable pub select_latest_attempt : Ident → Database → Option AttemptRow
unfolding attempts_of highest_attempt
select_latest_attempt job_id db = highest_attempt (attempts_of job_id db.attempts)

abbrev the_only : List AttemptRow → Option AttemptRow
the_only (a ∷ []) = some a
the_only _ = none

-- `None` unless exactly one attempt of the job has succeeded.
unfoldable pub find_successful_attempt : Ident → Database → Option AttemptRow
unfolding attempts_of
find_successful_attempt job_id db =
    the_only (select (λ a. is_succeeded a.state) (attempts_of job_id db.attempts))

-- `INSERT INTO jobs`.
unfoldable pub insert_job : JobRow → Database → Result Database
insert_job job db =
    if ltb max_payload_bytes (length job.payload_canonical)
    then err (integrity payload_length)
    else if ltb job.updated_at job.created_at
    then err (integrity job_updated_at)
    else if any (λ j. j.job_id == job.job_id) db.jobs
    then err (integrity job_id_unique)
    else if any (λ j. j.idempotency_key == job.idempotency_key) db.jobs
    then err (integrity idempotency_key_unique)
    else ok (record db { jobs = db.jobs ++ job ∷ [] })

-- `UPDATE jobs SET state = ?, updated_at = ? WHERE job_id = ?`.
unfoldable pub update_job : Ident → JobState → Instant → Database → Result Database
update_job job_id state now db =
    if all (λ j. not (j.job_id == job_id) || leb j.created_at now) db.jobs
    then ok (record db {
      jobs =
          update_where (λ j. j.job_id == job_id) (λ j. record j { state = state; updated_at = now })
            db.jobs;
    })
    else err (integrity job_updated_at)

-- The two table checks on a row of `submission_attempts`, besides those on single columns.
abbrev pub completed_after_start : AttemptRow → Bool
completed_after_start a = elim a.completed_at [ none ↦ true | some t ↦ leb a.started_at t ]

abbrev pub attempt_shape_holds : AttemptRow → Bool
attempt_shape_holds a =
    if is_started a.state
    then is_none a.completed_at && not (is_none a.owner_token) && not (is_none a.lease_expires_at)
    else not (is_none a.completed_at) && is_none a.owner_token && is_none a.lease_expires_at

-- `INSERT INTO submission_attempts`.
unfoldable pub insert_attempt : AttemptRow → Database → Result Database
insert_attempt attempt db =
    if not (
      attempt_shape_holds attempt
      && ltb 0 attempt.attempt_number
      && ltb 0 attempt.fencing_generation)
    then err (integrity attempt_shape)
    else if not (completed_after_start attempt)
    then err (integrity attempt_completed_at)
    else if any (λ a. a.attempt_id == attempt.attempt_id) db.attempts
    then err (integrity attempt_id_unique)
    else if any (λ a. a.job_id == attempt.job_id && a.attempt_number == attempt.attempt_number)
        db.attempts
    then err (integrity attempt_number_unique)
    else if is_started attempt.state
        && any (λ a. a.job_id == attempt.job_id && is_started a.state) db.attempts
    then err (integrity one_started_attempt)
    else if not (any (λ j. j.job_id == attempt.job_id) db.jobs)
    then err (integrity attempt_job)
    else ok (record db { attempts = db.attempts ++ attempt ∷ [] })

-- `UPDATE submission_attempts SET … WHERE attempt_id = ?`: `change` is the assignment.
unfoldable pub update_attempt : Ident → (AttemptRow → AttemptRow) → Database → Result Database
update_attempt attempt_id change db =
    let rows = update_where (λ a. a.attempt_id == attempt_id) change db.attempts in
    if not (all (λ a. attempt_shape_holds a) rows)
    then err (integrity attempt_shape)
    else if not (all (λ a. completed_after_start a) rows)
    then err (integrity attempt_completed_at)
    else ok (record db { attempts = rows })

-- `SELECT COALESCE(MAX(sequence_number), 0) + 1 … WHERE attempt_id = ?`.
unfoldable pub highest_sequence_number : Ident → List ObservationRow → ℕ
highest_sequence_number attempt_id [] = 0
highest_sequence_number attempt_id (o ∷ os) =
    max (if o.attempt_id == attempt_id then o.sequence_number else 0)
      (highest_sequence_number attempt_id os)

unfoldable pub next_sequence_number : Ident → Database → ℕ
unfolding highest_sequence_number
next_sequence_number attempt_id db = highest_sequence_number attempt_id db.observations + 1

abbrev http_status_in_range : Option ℕ → Bool
http_status_in_range none = true
http_status_in_range (some status) = leb 100 status && leb status 599

-- `INSERT INTO attempt_observations`.
unfoldable pub insert_observation : ObservationRow → Database → Result Database
insert_observation o db =
    if not (
      http_status_in_range o.http_status
      && ltb 0 o.sequence_number
      && ltb 0 o.request_ordinal
      && ltb 0 o.observed_fencing_generation)
    then err (integrity observation_shape)
    else if any (λ p. p.observation_id == o.observation_id) db.observations
    then err (integrity observation_id_unique)
    else if any (λ p. p.attempt_id == o.attempt_id && p.sequence_number == o.sequence_number)
        db.observations
    then err (integrity sequence_number_unique)
    else if any (λ p. p.sequence_id == o.sequence_id && p.request_ordinal == o.request_ordinal)
        db.observations
    then err (integrity sequence_id_unique)
    else if not (any (λ a. a.attempt_id == o.attempt_id) db.attempts)
    then err (integrity observation_attempt)
    else ok (record db { observations = db.observations ++ o ∷ [] })

-- `UPDATE attempt_observations SET consumed_at = ? WHERE observation_id = ?`.
unfoldable pub mark_consumed : Ident → Instant → Database → Database
mark_consumed observation_id now db = record db {
  observations =
      update_where (λ o. o.observation_id == observation_id)
        (λ o. record o { consumed_at = some now }) db.observations;
}

-- rate_limit_gate.py
unfoldable pub read_gate_not_before : Database → Option Instant
read_gate_not_before db = elim db.gate [ none ↦ none | some g ↦ some g.not_before ]

abbrev upsert : Option GateRow → Instant → Instant → GateRow
upsert none candidate now = record { not_before = candidate; updated_at = now }
upsert (some g) candidate now = record { not_before = max g.not_before candidate; updated_at = now }

unfoldable pub advance_gate : Instant → Instant → Database → Database
advance_gate candidate_not_before now db = record db {
  gate = some (upsert db.gate candidate_not_before now);
}

-- `_verify_attempt_success_evidence`.
abbrev pub is_success_evidence : Option ℕ → Option Ident → Bool
is_success_evidence (some http_status) (some remote_request_id) =
    http_status == 200 || http_status == 201
is_success_evidence _ _ = false

-- A sequence that returns has come through its first step.
pub >>=-eq-ok {κ ℓ} :
    {B : Type κ} {C : Type ℓ} (first : Result B) (next : B → Result C) {c : C}
    (returned : (first >>= next) ≡ ok c)
    → (b : B) × (first ≡ ok b) × (next b ≡ ok c)
>>=-eq-ok (err exception) next returned = cc
>>=-eq-ok (ok value) next returned = (value, refl, returned)

-- `COMMIT`, and the value.
abbrev pub returning : {A : Type 0} → A → Database → Result (A × Database)
returning x db = ok (x, db)

pub ok-returning :
    {A : Type 0} (x y : A) (db db' : Database)
    → ◌≡◌ {A = Result (A × Database)} (ok (x, db)) (ok (y, db'))
    → db ≡ db'
ok-returning x y db db' h = cc
