-- ===== src/Persistence/Lease/Ownership.antt =====
-- What a claim that holds says of the rows, and what a call with any other claim does.
use boolean_maybe.Prelude.{
  ◌≡◌, ◌⊎◌, inl, inr, true, false, some, arith, Option-cases, Bool-cases, List, [], ◌∷◌, find, ◌==◌,
}
use boolean_maybe.Persistence.Rows.{
  Ident, Instant, JobState, AttemptState, JobRow, AttemptRow, Database,
}
use boolean_maybe.Persistence.Database.{Transaction, ok, select_job, select_attempt}
use boolean_maybe.Persistence.Lease.{Claim, owns, owns_active_attempt, as_owner}

-- The row that an id finds has that id.
pub select_job-id :
    (i : Ident) (db : Database) (j : JobRow) → select_job i db ≡ some j → j.job_id ≡ i
unfolding select_job
select_job-id i db j h = go db.jobs h
  where
    go : (jobs : List JobRow) → find (λ k. k.job_id == i) jobs ≡ some j → j.job_id ≡ i
    go [] e = absurd (ground arith)
    go (k ∷ jobs) e = ground (arith, go jobs)

pub select_attempt-id :
    (i : Ident) (db : Database) (a : AttemptRow) → select_attempt i db ≡ some a → a.attempt_id ≡ i
unfolding select_attempt
select_attempt-id i db a h = go db.attempts h
  where
    go : (rows : List AttemptRow) → find (λ b. b.attempt_id == i) rows ≡ some a → a.attempt_id ≡ i
    go [] e = absurd (ground arith)
    go (b ∷ rows) e = ground (arith, go rows)

-- The rows that a claim which holds names.
pub record Owned (claim : Claim) (now : Instant) (db : Database) (j : JobRow) (a : AttemptRow)
    : Type 0 where
  pub job : select_job claim.job_id db ≡ some j
  pub attempt : select_attempt claim.attempt_id db ≡ some a
  pub submitting : j.state ≡ JobState.submitting
  pub started : a.state ≡ AttemptState.started
  pub token : a.owner_token ≡ some claim.invocation_token
  pub generation : a.fencing_generation ≡ claim.fencing_generation

Owned-rows :
    (claim : Claim) (now : Instant) (db : Database) (j : JobRow) (a : AttemptRow)
    → select_job claim.job_id db ≡ some j
    → select_attempt claim.attempt_id db ≡ some a
    → owns_active_attempt (some j) (some a) claim.invocation_token claim.fencing_generation now
      ≡ true
    → Owned claim now db j a
unfolding owns_active_attempt
Owned-rows claim now db j a ej ea h = ground arith

-- A claim that holds names a started attempt of a submitting Job.
pub owns-Owned :
    (claim : Claim) (now : Instant) (db : Database)
    → owns claim now db ≡ true
    → (j : JobRow) × (a : AttemptRow) × Owned claim now db j a
unfolding owns
owns-Owned claim now db h = elim (Option-cases (select_job claim.job_id db)) [
  | inl e ↦ absurd (ground arith)
  | inr (j, ej) ↦ elim (Option-cases (select_attempt claim.attempt_id db)) [
    | inl e ↦ absurd (ground arith)
    | inr (a, ea) ↦ (j, a, ground arith)
  ]
]

module _ {A : Type 0} (claim : Claim) (now : Instant) (lost : A)
    (body : JobRow → AttemptRow → Transaction A) (db : Database) where
  -- A claim that does not hold: the call reports so, and writes nothing.
  pub as_owner-lost : owns claim now db ≡ false → as_owner claim now lost body db ≡ ok (lost, db)
  unfolding owns as_owner
  as_owner-lost h = ground arith

  pub as_owner-cases :
      (r : A) (db' : Database)
      → as_owner claim now lost body db ≡ ok (r, db')
      → ((r ≡ lost) × (db' ≡ db))
        ⊎ ((j : JobRow) × (a : AttemptRow) × Owned claim now db j a × (body j a db ≡ ok (r, db')))
  unfolding as_owner
  as_owner-cases r db' h = elim (Option-cases (select_job claim.job_id db)) [
    | inl e ↦ inl (ground arith, ground arith)
    | inr (j, ej) ↦ elim (Option-cases (select_attempt claim.attempt_id db)) [
      | inl e ↦ inl (ground arith, ground arith)
      | inr (a, ea) ↦
          elim (Bool-cases (
            owns_active_attempt (some j) (some a) claim.invocation_token claim.fencing_generation
              now)) [
                | inl held ↦ inr (j, a, Owned-rows claim now db j a ej ea held, ground arith)
                | inr not_held ↦ inl (ground arith, ground arith)
              ]
    ]
  ]
