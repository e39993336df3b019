-- ===== src/Application/Recovery.antt =====
-- `recover_and_reconcile` of src/boolean_maybe/application/recovery.py: an attempt whose lease has
-- expired is taken over, and what became of it is found out.
pub mod Sound
use boolean_maybe.Prelude.{ℕ, Option, List}
use boolean_maybe.Domain.Backoff.{RandomSource}
use boolean_maybe.Domain.RetryAfter.{Text}
use boolean_maybe.Persistence.Rows.{Ident, JobRow, AttemptRow}
use boolean_maybe.Persistence.Database.{Result, ok, err}
use boolean_maybe.Persistence.Lease.{
  Captured, ClaimResult, claim_succeeded, claim_rejected, claim_expired_attempt,
}
use boolean_maybe.Application.Flow.{Moment, Flow, give, raise, settle, transact, slept}
use boolean_maybe.Application.ReconciliationSequence.{ReconciliationOutcome, Owner}
use boolean_maybe.Application.ReconciliationSequence.Loop.{Round, run_reconciliation_sequence}

abbrev pub quarantine : ℕ
quarantine = 10000000

pub data RecoveryResult : Type 0 where
  reconciliation : ReconciliationOutcome → RecoveryResult
  rerouted persistence_failed : RecoveryResult

abbrev pub captured_of : JobRow → AttemptRow → Captured
captured_of job attempt = record {
  job_id = job.job_id;
  attempt_id = attempt.attempt_id;
  owner_token = attempt.owner_token;
  fencing_generation = attempt.fencing_generation;
  lease_expires_at = attempt.lease_expires_at;
}

abbrev pub owner_of : JobRow → AttemptRow → Ident → Owner
owner_of job attempt invocation_token = record {
  job = job;
  attempt = attempt;
  invocation_token = invocation_token;
  fencing_generation = attempt.fencing_generation;
}

-- What a recovery meets: the moment of its claim, the sequence's id and the sequence's rounds.
pub record Quarantined : Type 0 where
  pub claim : Moment
  pub sequence_id : Ident
  pub rounds : List Round

unfoldable pub claiming : Captured → Ident → ℕ → Moment → Flow ClaimResult
unfolding transact
claiming c invocation_token lease_seconds m =
    transact m (λ now draws. claim_expired_attempt c invocation_token lease_seconds now)

unfoldable pub reconciled_result : Result ReconciliationOutcome → Flow RecoveryResult
reconciled_result (ok outcome) = give (reconciliation outcome)
reconciled_result (err e) = raise e

module _ (strptime : Text → Option ℕ) (random : RandomSource) where
  unfoldable pub after_claim : Ident → Quarantined → Result ClaimResult → Flow RecoveryResult
  unfolding settle run_reconciliation_sequence reconciled_result
  after_claim invocation_token q (ok (claim_succeeded job attempt)) =
      settle
        (run_reconciliation_sequence strptime random q.rounds
          (owner_of job attempt invocation_token) q.sequence_id)
        reconciled_result
  after_claim invocation_token q (ok claim_rejected) = give rerouted
  after_claim invocation_token q (err _) = give persistence_failed

  unfoldable pub recover_and_reconcile :
      JobRow → AttemptRow → Ident → ℕ → Quarantined → Flow RecoveryResult
  unfolding settle slept claiming after_claim
  recover_and_reconcile job attempt invocation_token lease_seconds q =
      settle (slept quarantine) (λ _.
        settle (claiming (captured_of job attempt) invocation_token lease_seconds q.claim)
          (after_claim invocation_token q))
