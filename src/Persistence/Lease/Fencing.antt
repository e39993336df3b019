-- ===== src/Persistence/Lease/Fencing.antt =====
-- About a take-over by `claim_expired_attempt` of
-- src/boolean_maybe/persistence/transactions.py and the claims on the attempt.
use boolean_maybe.Prelude.{
  ℕ, ◌*◌, ◌≡◌, ◌≢◌, refl, inl, inr, true, false, Option, none, some, arith, Option-cases,
}
use boolean_maybe.Persistence.Rows.{Ident, Instant, JobRow, AttemptRow, Database, add_milliseconds}
use boolean_maybe.Persistence.Database.{ok, select_job, select_attempt, update_attempt}
use boolean_maybe.Persistence.Lease.{
  Claim, owns, owns_active_attempt, Captured, still_expired, taken_over, claim_succeeded,
  claim_rows, claim_expired_attempt,
}
use boolean_maybe.Persistence.Ledger.Select.{found-update}

-- What a take-over that succeeds found, and what it leaves.
pub record TakenOver (c : Captured) (token : Ident) (until now : Instant) (db db' : Database)
    : Type 0 where
  pub job : JobRow
  pub attempt : AttemptRow
  pub was_expired : still_expired c job attempt now ≡ true
  pub job_after : select_job c.job_id db' ≡ some job
  pub attempt_after : select_attempt c.attempt_id db' ≡ some (taken_over token until attempt)

pub claim_expired_attempt-TakenOver :
    (c : Captured) (token : Ident) (lease_seconds : ℕ) (now : Instant) (db db' : Database)
    (j : JobRow) (a : AttemptRow)
    → claim_expired_attempt c token lease_seconds now db ≡ ok (claim_succeeded j a, db')
    → TakenOver c token (add_milliseconds now (lease_seconds * 1000)) now db db'
unfolding claim_expired_attempt claim_rows select_job select_attempt update_attempt
claim_expired_attempt-TakenOver c token lease_seconds now db db' j a h =
    elim (Option-cases (select_job c.job_id db)) [
      | inl e ↦ absurd (ground arith)
      | inr (j0, ej) ↦ elim (Option-cases (select_attempt c.attempt_id db)) [
        | inl e ↦ absurd (ground arith)
        | inr (a0, ea) ↦
            let kept =
              found-update c.attempt_id
                (taken_over token (add_milliseconds now (lease_seconds * 1000))) db.attempts a0
                (λ b. refl) ea in
            record {
              job = j0;
              attempt = a0;
              was_expired = ground arith;
              job_after = ground arith;
              attempt_after = ground arith;
            }
      ]
    ]

pub other_generation :
    (job : Option JobRow) (a : AttemptRow) (claim : Claim) (now : Instant)
    → a.fencing_generation ≢ claim.fencing_generation
    → owns_active_attempt job (some a) claim.invocation_token claim.fencing_generation now ≡ false
unfolding owns_active_attempt
other_generation none a claim now h = refl
other_generation (some j) a claim now h = ground arith

-- After a take-over, no claim of the generation that the new owner captured holds, whenever it is
-- tried.
pub claim_expired_attempt-fences :
    (c : Captured) (token : Ident) (lease_seconds : ℕ) (now later : Instant) (db db' : Database)
    (j : JobRow) (a : AttemptRow) (stale : Claim)
    → claim_expired_attempt c token lease_seconds now db ≡ ok (claim_succeeded j a, db')
    → stale.attempt_id ≡ c.attempt_id
    → stale.fencing_generation ≡ c.fencing_generation
    → owns stale later db' ≡ false
unfolding owns owns_active_attempt still_expired
claim_expired_attempt-fences c token lease_seconds now later db db' j a stale h same gen =
    let t = claim_expired_attempt-TakenOver c token lease_seconds now db db' j a h in
    rw (same, t.attempt_after)
      (other_generation (select_job stale.job_id db') (taken_over token _ t.attempt) stale later
        (ground (arith, t.was_expired)))
