-- ===== src/Persistence/Ledger/Resolves.antt =====
-- What a call of the owner of an attempt may do to the tables.
use boolean_maybe.Prelude.{ℕ, ◌≤◌, ◌≡◌, some, [], ◌∷◌, arith}
use boolean_maybe.Persistence.Rows.{Instant, JobState, JobRow, AttemptRow, Database}
use boolean_maybe.Persistence.Database.{
  ok, find_job_by_key, select_job, select_attempt, attempts_of,
}
use boolean_maybe.Persistence.Lease.{Claim}
use boolean_maybe.Persistence.Lease.Ownership.{Owned}
use boolean_maybe.Persistence.Finalize.{complete}
use boolean_maybe.Persistence.Ledger.{Life, IsConsistent, SameTables}
use boolean_maybe.Persistence.Ledger.Attempts.{Life-budget}
use boolean_maybe.Persistence.Ledger.Select.{attempt_named-of_job}
use boolean_maybe.Persistence.Ledger.Writes.{KeepsIdentity, complete-Advances}
use boolean_maybe.Persistence.Ledger.Evolution.{Evolves-refl, JobsStay-refl, Advances}

pub data Resolves (claim : Claim) (now : Instant) (a : AttemptRow) (db db' : Database)
    : Type 0 where
  kept : SameTables db db' → Resolves claim now a db db'
  completed :
      (db1 : Database) (f : AttemptRow → AttemptRow) (s : JobState)
      → SameTables db db1
      → KeepsIdentity f
      → Life a.attempt_number s (f a ∷ [])
      → complete claim f s now db1 ≡ ok db'
      → Resolves claim now a db db'

-- The claim names an attempt of the Job that it names, and the number is the attempt's: callers
-- take all three from one row.
pub record Names (claim : Claim) (attempt_number : ℕ) (db : Database) : Type 0 where
  pub of_job :
      (a : AttemptRow) → select_attempt claim.attempt_id db ≡ some a → a.job_id ≡ claim.job_id
  pub number :
      (a : AttemptRow)
      → select_attempt claim.attempt_id db ≡ some a
      → a.attempt_number ≡ attempt_number

-- Consistency reads two tables alone.
pub IsConsistent-frame :
    (db db' : Database) → SameTables db db' → IsConsistent db → IsConsistent db'
unfolding select_job find_job_by_key
IsConsistent-frame db db' same v = record {
  distinct = rw same.1 v.distinct;
  orphans = λ i h. ground (arith, v.orphans i);
  lives = λ i j h. ground (arith, v.lives i j);
  keyed = λ key j h. ground (arith, v.keyed key j);
}

pub Owned-budget :
    (claim : Claim) (n : ℕ) (now : Instant) (db : Database) (j : JobRow) (a : AttemptRow)
    → IsConsistent db
    → Names claim n db
    → Owned claim now db j a
    → (1 ≤ a.attempt_number) × (a.attempt_number ≤ 3)
unfolding select_attempt
Owned-budget claim n now db j a v names o =
    Life-budget 1 j.state claim.attempt_id (attempts_of a.job_id db.attempts) a
      (v.lives a.job_id j (rw (names.of_job a o.attempt) o.job))
      (attempt_named-of_job claim.attempt_id db.attempts a o.attempt)

pub Advances-unmoved : (db db' : Database) → SameTables db db' → IsConsistent db → Advances db db'
Advances-unmoved db db' same v = record {
  consistent = IsConsistent-frame db db' same v;
  evolves = rw same.1 (Evolves-refl db.attempts);
  jobs = rw same.0 (JobsStay-refl db.jobs);
}

pub Resolves-Advances :
    (claim : Claim) (n : ℕ) (now : Instant) (db db' : Database) (j : JobRow) (a : AttemptRow)
    → IsConsistent db
    → Names claim n db
    → Owned claim now db j a
    → Resolves claim now a db db'
    → Advances db db'
unfolding select_job select_attempt
Resolves-Advances claim n now db db' j a v names o (kept same) = Advances-unmoved db db' same v
Resolves-Advances claim n now db db' j a v names o (completed db1 f s same keeps life h) =
    let done =
      complete-Advances claim f s now a j db1 db' (IsConsistent-frame db db1 same v) keeps
        (rw same.1 o.attempt) o.started (names.of_job a o.attempt) (rw same.0 o.job) o.submitting
        life h in
    record {
      consistent = done.consistent;
      evolves = rw (← same.1) done.evolves;
      jobs = rw (← same.0) done.jobs;
    }
