-- ===== src/Persistence/Ledger/Writes.antt =====
-- The writes of the transactions of src/boolean_maybe/persistence/transactions.py and the
-- invariant of the tables.
use boolean_maybe.Prelude.{
  suc, ◌≤◌, ◌≡◌, ◌⊎◌, inl, inr, refl, false, some, List, [], ◌∷◌, ◌++◌, any, ◌==◌, if◌then◌else◌,
  arith, Bool-cases, ◌∙◌, update_where, length,
}
use boolean_maybe.Persistence.Rows.{
  Ident, Instant, JobState, AttemptState, JobRow, AttemptRow, Database,
}
use boolean_maybe.Persistence.Database.{
  attempts_of, ok, find_job_by_key, select_job, select_attempt, update_attempt, update_job,
  insert_job, insert_attempt,
}
use boolean_maybe.Persistence.Lease.{Claim}
use boolean_maybe.Persistence.Finalize.{complete}
use boolean_maybe.Persistence.Ledger.{Life, IsConsistent}
use boolean_maybe.Persistence.Ledger.Select.{
  Keyed, Keyed-update, Keyed-append, job_named, changed, job_named-update, job_named-append,
  job_named-none, attempts_of-append, attempts_of-update, attempt_named-of_job, update-of_other,
  Distinct-update, Distinct-append,
}
use boolean_maybe.Persistence.Ledger.Evolution.{
  Later, Evolves-refl, Evolves-append, Evolves-update, Advances, Present, JobsStay-refl,
  JobsStay-append, JobsStay-update,
}
use boolean_maybe.Persistence.Ledger.Select.{attempt_named-append}
use boolean_maybe.Persistence.Ledger.Attempts.{Life-append, Life-update, Life-budget}

-- An assignment to an attempt that leaves its identity alone.
pub record KeepsIdentity (f : AttemptRow → AttemptRow) : Type 0 where
  pub id : (a : AttemptRow) → (f a).attempt_id ≡ a.attempt_id
  pub job : (a : AttemptRow) → (f a).job_id ≡ a.job_id
  pub number : (a : AttemptRow) → (f a).attempt_number ≡ a.attempt_number
  pub generation : (a : AttemptRow) → a.fencing_generation ≤ (f a).fencing_generation

-- What such an assignment makes of an attempt that has not ended.
kept_identity :
    (f : AttemptRow → AttemptRow) (a : AttemptRow)
    → KeepsIdentity f
    → a.state ≡ AttemptState.started
    → Later a (f a)
kept_identity f a keeps t = record {
  id = keeps.id a;
  job = keeps.job a;
  number = keeps.number a;
  generation = keeps.generation a;
  ended = inl t;
}

module _ {db : Database} (v : IsConsistent db) (k : Ident) (f : AttemptRow → AttemptRow)
    (keeps : KeepsIdentity f) (a : AttemptRow) (found : select_attempt k db ≡ some a)
    (active : a.state ≡ AttemptState.started) where
  attempts_of-written :
      (i : Ident)
      → attempts_of i (update_where (λ b. b.attempt_id == k) f db.attempts) ≡ (
          if a.job_id == i
          then update_where (λ b. b.attempt_id == k) f (attempts_of i db.attempts)
          else attempts_of i db.attempts)
  unfolding select_attempt
  attempts_of-written i = elim (Bool-cases (a.job_id == i)) [
    | inl same ↦ rw same (attempts_of-update k i f db.attempts keeps.job)
    | inr other ↦ rw other (
        attempts_of-update k i f db.attempts keeps.job
        ∙ update-of_other k i f db.attempts a v.distinct found (ground arith))
  ]

  -- The attempt and its Job are written; the Job's new state fits the attempt's.
  written-IsConsistent :
      (jobs : List JobRow) (g : JobRow → JobRow) (j : JobRow)
      → ((i : Ident)
          → job_named i jobs
            ≡ (if i == a.job_id then changed g (job_named i db.jobs) else job_named i db.jobs))
      → select_job a.job_id db ≡ some j
      → j.state ≡ JobState.submitting
      → Life a.attempt_number (g j).state (f a ∷ [])
      → Keyed jobs
      → IsConsistent (record db {
        jobs = jobs;
        attempts = update_where (λ b. b.attempt_id == k) f db.attempts;
      })
  unfolding select_job select_attempt find_job_by_key
  written-IsConsistent jobs g j shows e t c q = record {
    keyed = q;
    distinct = Distinct-update k f db.attempts keeps.id v.distinct;
    orphans = λ i h. ground (arith, shows i, v.orphans i, attempts_of-written i);
    lives = λ i j' h. ground (
      arith,
      shows i,
      v.lives i j',
      v.lives i j,
      attempts_of-written i,
      attempt_named-of_job k db.attempts a found,
      Life-update 1 (g j).state k f (attempts_of a.job_id db.attempts) a,
    );
  }

pub insert_job-ok :
    (job : JobRow) (db db' : Database)
    → insert_job job db ≡ ok db'
    → (any (λ j. j.job_id == job.job_id) db.jobs ≡ false)
      × (db' ≡ record db { jobs = db.jobs ++ job ∷ [] })
unfolding insert_job
insert_job-ok job db db' h = ground arith

insert_attempt-ok :
    (a : AttemptRow) (db db' : Database)
    → insert_attempt a db ≡ ok db'
    → (any (λ b. b.attempt_id == a.attempt_id) db.attempts ≡ false)
      × (db' ≡ record db { attempts = db.attempts ++ a ∷ [] })
unfolding insert_attempt
insert_attempt-ok a db db' h = ground arith

abbrev moved_to : JobState → Instant → JobRow → JobRow
moved_to state now j = record j { state = state; updated_at = now }

update_job-ok :
    (i : Ident) (s : JobState) (now : Instant) (db db' : Database)
    → update_job i s now db ≡ ok db'
    → db' ≡ record db { jobs = update_where (λ j. j.job_id == i) (moved_to s now) db.jobs }
unfolding update_job
update_job-ok i s now db db' h = ground arith

update_attempt-ok :
    (i : Ident) (f : AttemptRow → AttemptRow) (db db' : Database)
    → update_attempt i f db ≡ ok db'
    → db' ≡ record db { attempts = update_where (λ a. a.attempt_id == i) f db.attempts }
unfolding update_attempt
update_attempt-ok i f db db' h = ground arith

inserted-IsConsistent :
    (job : JobRow) (db : Database)
    → IsConsistent db
    → job.state ≡ JobState.pending
    → any (λ j. j.job_id == job.job_id) db.jobs ≡ false
    → IsConsistent (record db { jobs = db.jobs ++ job ∷ [] })
unfolding select_job find_job_by_key
inserted-IsConsistent job db v e fresh = record {
  keyed = Keyed-append job db.jobs fresh v.keyed;
  distinct = v.distinct;
  orphans = λ i h. ground (arith, job_named-append i job db.jobs fresh, v.orphans i);
  lives = λ i j h. ground (
    arith,
    job_named-append i job db.jobs fresh,
    job_named-none i db.jobs,
    v.orphans i,
    v.lives i j,
  );
}

-- A Job that `INSERT INTO jobs` adds as `PENDING` has no attempt yet.
pub insert_job-Advances :
    (job : JobRow) (db db' : Database)
    → IsConsistent db
    → job.state ≡ JobState.pending
    → insert_job job db ≡ ok db'
    → Advances db db'
insert_job-Advances job db db' v e h =
    let (fresh, shape) = insert_job-ok job db db' h in
    rw shape (record {
      consistent = inserted-IsConsistent job db v e fresh;
      evolves = Evolves-refl db.attempts;
      jobs = JobsStay-append db.jobs (job ∷ []);
    })

begun-IsConsistent :
    (a : AttemptRow) (now : Instant) (j : JobRow) (db : Database)
    → IsConsistent db
    → select_job a.job_id db ≡ some j
    → (j.state ≡ JobState.pending) ⊎ (j.state ≡ JobState.retry_scheduled)
    → a.state ≡ AttemptState.started
    → a.attempt_number ≡ suc (length (attempts_of a.job_id db.attempts))
    → any (λ b. b.attempt_id == a.attempt_id) db.attempts ≡ false
    → IsConsistent (record db {
      attempts = db.attempts ++ a ∷ [];
      jobs = update_where (λ j. j.job_id == a.job_id) (moved_to JobState.submitting now) db.jobs;
    })
unfolding select_job find_job_by_key
begun-IsConsistent a now j db v found open_ t number fresh = record {
  keyed =
      Keyed-update a.job_id (moved_to JobState.submitting now) db.jobs (λ _. refl) (λ _. refl)
        v.keyed;
  distinct = Distinct-append a db.attempts fresh v.distinct;
  orphans = λ i h. ground (
    arith,
    job_named-update a.job_id i (moved_to JobState.submitting now) db.jobs (λ _. refl),
    attempts_of-append i a db.attempts,
    v.orphans i,
  );
  lives = λ i j' h. ground (
    arith,
    job_named-update a.job_id i (moved_to JobState.submitting now) db.jobs (λ _. refl),
    attempts_of-append i a db.attempts,
    v.lives i j',
    v.lives i j,
    Life-append 1 j.state (attempts_of i db.attempts) a,
  );
}

-- Both statements of `_start_attempt`.
pub start-Advances :
    (a : AttemptRow) (now : Instant) (j : JobRow) (db db' db'' : Database)
    → IsConsistent db
    → select_job a.job_id db ≡ some j
    → (j.state ≡ JobState.pending) ⊎ (j.state ≡ JobState.retry_scheduled)
    → a.state ≡ AttemptState.started
    → a.attempt_number ≡ suc (length (attempts_of a.job_id db.attempts))
    → insert_attempt a db ≡ ok db'
    → update_job a.job_id JobState.submitting now db' ≡ ok db''
    → Advances db db''
start-Advances a now j db db' db'' v found open_ t number h h' =
    let (fresh, shape) = insert_attempt-ok a db db' h in
    let shape' = update_job-ok a.job_id JobState.submitting now db' db'' h' in
    rw (shape', shape)
      (record {
        consistent = begun-IsConsistent a now j db v found open_ t number fresh;
        evolves = Evolves-append db.attempts (a ∷ []);
        jobs =
            JobsStay-update a.job_id (moved_to JobState.submitting now) db.jobs
              (λ j. (refl, refl, refl));
      })

-- The attempt that both statements start is new, and it is there.
pub start-Present :
    (a : AttemptRow) (now : Instant) (db db' db'' : Database)
    → insert_attempt a db ≡ ok db'
    → update_job a.job_id JobState.submitting now db' ≡ ok db''
    → Present a.job_id a.attempt_id a.attempt_number db''
      × (any (λ b. b.attempt_id == a.attempt_id) db.attempts ≡ false)
unfolding select_attempt
start-Present a now db db' db'' h h' =
    let (fresh, shape) = insert_attempt-ok a db db' h in
    let shape' = update_job-ok a.job_id JobState.submitting now db' db'' h' in
    (
      rw (shape', shape)
          (record {
            row = a;
            there = attempt_named-append a db.attempts fresh;
            of_job = refl;
            number = refl;
          }),
      fresh,
    )

same_jobs :
    (i k : Ident) (jobs : List JobRow)
    → job_named i jobs ≡ (if i == k then changed (λ j. j) (job_named i jobs) else job_named i jobs)
same_jobs i k jobs = ground arith

-- An update of a started attempt that leaves it started, such as that of a lease.
pub touch-Advances :
    (k : Ident) (f : AttemptRow → AttemptRow) (a : AttemptRow) (j : JobRow) (db db' : Database)
    → IsConsistent db
    → KeepsIdentity f
    → select_attempt k db ≡ some a
    → a.state ≡ AttemptState.started
    → (f a).state ≡ AttemptState.started
    → select_job a.job_id db ≡ some j
    → j.state ≡ JobState.submitting
    → update_attempt k f db ≡ ok db'
    → Advances db db'
unfolding select_job select_attempt find_job_by_key
touch-Advances k f a j db db' v keeps found t t' named s h =
    let budget =
      Life-budget 1 j.state k (attempts_of a.job_id db.attempts) a (v.lives a.job_id j named)
        (attempt_named-of_job k db.attempts a found) in
    rw (update_attempt-ok k f db db' h) (record {
      consistent =
          written-IsConsistent v k f keeps a found t db.jobs (λ x. x) j
            (λ i. same_jobs i a.job_id db.jobs) named s (ground (arith, keeps.number a, budget))
            v.keyed;
      evolves = Evolves-update k f db.attempts a v.distinct found (kept_identity f a keeps t);
      jobs = JobsStay-refl db.jobs;
    })

complete-ok :
    (claim : Claim) (f : AttemptRow → AttemptRow) (s : JobState) (now : Instant) (db db' : Database)
    → complete claim f s now db ≡ ok db'
    → db' ≡ record db {
      jobs = update_where (λ j. j.job_id == claim.job_id) (moved_to s now) db.jobs;
      attempts = update_where (λ a. a.attempt_id == claim.attempt_id) f db.attempts;
    }
unfolding complete
complete-ok claim f s now db db' h = ground arith

-- The pair of updates that completes an attempt.
pub complete-Advances :
    (claim : Claim) (f : AttemptRow → AttemptRow) (s : JobState) (now : Instant) (a : AttemptRow)
    (j : JobRow) (db db' : Database)
    → IsConsistent db
    → KeepsIdentity f
    → select_attempt claim.attempt_id db ≡ some a
    → a.state ≡ AttemptState.started
    → a.job_id ≡ claim.job_id
    → select_job claim.job_id db ≡ some j
    → j.state ≡ JobState.submitting
    → Life a.attempt_number s (f a ∷ [])
    → complete claim f s now db ≡ ok db'
    → Advances db db'
unfolding find_job_by_key select_job select_attempt
complete-Advances claim f s now a j db db' v keeps found t named of_job sub life h =
    rw (complete-ok claim f s now db db' h) (record {
      consistent =
          written-IsConsistent v claim.attempt_id f keeps a found t
            (update_where (λ j. j.job_id == claim.job_id) (moved_to s now) db.jobs) (moved_to s now)
            j (λ i. rw named (job_named-update claim.job_id i (moved_to s now) db.jobs (λ _. refl)))
            (rw named of_job) sub life
            (Keyed-update claim.job_id (moved_to s now) db.jobs (λ _. refl) (λ _. refl) v.keyed);
      evolves =
          Evolves-update claim.attempt_id f db.attempts a v.distinct found
            (kept_identity f a keeps t);
      jobs = JobsStay-update claim.job_id (moved_to s now) db.jobs (λ j. (refl, refl, refl));
    })
