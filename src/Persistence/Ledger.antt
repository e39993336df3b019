-- ===== src/Persistence/Ledger.antt =====
-- The life of a Job as its rows tell it: the invariant of the tables
-- `jobs` and `submission_attempts`.
pub mod Attempts
pub mod Writes
pub mod Resolves
pub mod Select
pub mod Evolution
use boolean_maybe.Prelude.{
  ℕ, zero, suc, ◌+◌, ◌≤◌, ◌≡◌, Bool, true, false, Option, none, some, List, [], ◌∷◌, any, ◌==◌, leb,
  if◌then◌else◌, is_none,
}
use boolean_maybe.Persistence.Rows.{Ident, JobState, AttemptState, JobRow, AttemptRow, Database}
use boolean_maybe.Persistence.Database.{
  is_success_evidence, select_job, find_job_by_key, attempts_of,
}

-- The state of a Job of which every attempt so far failed retryably, and whose next attempt would
-- have the number `next`.
abbrev pub state_before : ℕ → JobState
state_before next =
    if next == 1
    then JobState.pending
    else if leb next 3
    then JobState.retry_scheduled
    else JobState.failed_permanent

-- The attempts of a Job in the state `s`, from the one with the number `n` on: they are numbered
-- without a gap, none passes the budget of three, all but the last failed retryably, and a success
-- has its evidence.
abbrev pub Life : ℕ → JobState → List AttemptRow → Type 0
Life n s [] = s ≡ state_before n
Life n s (a ∷ rest) = (a.attempt_number ≡ n) × (n ≤ 3) × elim a.state [
  | AttemptState.retryable_failure ↦
      (is_none a.completed_at ≡ false) × (is_none a.retry_after_ms ≡ false) × Life (suc n) s rest
  | AttemptState.started ↦ (rest ≡ []) × (s ≡ JobState.submitting)
  | AttemptState.succeeded ↦
      (is_success_evidence a.http_status a.remote_request_id ≡ true)
      × (rest ≡ [])
      × (s ≡ JobState.succeeded)
  | AttemptState.permanent_failure ↦ (rest ≡ []) × (s ≡ JobState.failed_permanent)
  | AttemptState.ambiguous ↦ (rest ≡ []) × (s ≡ JobState.ambiguous)
]

-- No two attempts have the same id.
abbrev pub Distinct : List AttemptRow → Type 0
Distinct [] = Unit
Distinct (a ∷ rest) = (any (λ b. b.attempt_id == a.attempt_id) rest ≡ false) × Distinct rest

-- The two tables that consistency reads are the same.
abbrev pub SameTables : Database → Database → Type 0
SameTables db db' = (db'.jobs ≡ db.jobs) × (db'.attempts ≡ db.attempts)

pub record IsConsistent (db : Database) : Type 0 where
  pub distinct : Distinct db.attempts
  pub orphans : (i : Ident) → select_job i db ≡ none → attempts_of i db.attempts ≡ []
  pub lives :
      (i : Ident) (j : JobRow)
      → select_job i db ≡ some j
      → Life 1 j.state (attempts_of i db.attempts)
  pub keyed :
      (key : Ident) (j : JobRow) → find_job_by_key key db ≡ some j → select_job j.job_id db ≡ some j
