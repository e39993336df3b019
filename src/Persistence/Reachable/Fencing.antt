-- ===== src/Persistence/Reachable/Fencing.antt =====
-- What the previous owner of an attempt may still do after `claim_expired_attempt` of
-- src/boolean_maybe/persistence/transactions.py has taken it over.
use boolean_maybe.Prelude.{ℕ, ◌*◌, ◌≡◌, Bool, false, some, Option, List, arith}
use boolean_maybe.Domain.Backoff.{RandomSource}
use boolean_maybe.Domain.RetryAfter.{Text}
use boolean_maybe.Persistence.Rows.{
  Ident, Instant, Bytes, JobRow, AttemptRow, Database, add_milliseconds,
}
use boolean_maybe.Persistence.Database.{ok, select_job, select_attempt}
use boolean_maybe.Persistence.Lease.{
  Claim, owns, Captured, still_expired, taken_over, claim_succeeded, claim_expired_attempt,
  renew_lease, lease_lost, authorize_reconciliation_request, reconciliation_ownership_lost,
}
use boolean_maybe.Persistence.Lease.Ownership.{as_owner-lost}
use boolean_maybe.Persistence.Lease.Fencing.{claim_expired_attempt-TakenOver, other_generation}
use boolean_maybe.Persistence.Finalize.{
  SubmissionEvidence, SubmissionRecord, finalize_submission_attempt,
}
use boolean_maybe.Persistence.Reconcile.{
  Disposition, ReconciliationRecord, record_reconciliation_result, LateConsumption,
  consume_late_observations,
}
use boolean_maybe.Persistence.Reachable.{Steps, Reachable, after, claimed}
use boolean_maybe.Persistence.Reachable.Histories.{Steps-Later}

-- Each call that asks whether its claim holds reports that it lost the attempt, and writes nothing.
pub record Refuses (strptime : Text → Option ℕ) (random : RandomSource) (claim : Claim)
    (now : Instant) (db : Database) : Type 0 where
  pub on_finalization :
      (n : ℕ) (e : SubmissionEvidence) (draws : List Ident)
      → finalize_submission_attempt strptime random claim n e now draws db
        ≡ ok (SubmissionRecord.post_side_effect_failure, db)
  pub on_result :
      (d : Disposition) (http_status : Option ℕ) (remote_request_id : Option Ident)
      → record_reconciliation_result claim d http_status remote_request_id now db
        ≡ ok (ReconciliationRecord.post_side_effect_failure, db)
  pub on_late_evidence :
      consume_late_observations random claim now db
      ≡ ok (LateConsumption.post_side_effect_failure, db)
  pub on_renewal :
      (lease_seconds : ℕ) → renew_lease claim lease_seconds now db ≡ ok (lease_lost, db)
  pub on_authorization :
      (lease_seconds : ℕ) (not_before : Option Instant)
      → authorize_reconciliation_request claim lease_seconds now not_before db
        ≡ ok (reconciliation_ownership_lost, db)

lost-Refuses :
    (strptime : Text → Option ℕ) (random : RandomSource) (claim : Claim) (now : Instant)
    (db : Database)
    → owns claim now db ≡ false
    → Refuses strptime random claim now db
unfolding finalize_submission_attempt record_reconciliation_result consume_late_observations
    renew_lease authorize_reconciliation_request
lost-Refuses strptime random claim now db h = record {
  on_finalization = λ n e draws. as_owner-lost claim now _ _ db h;
  on_result = λ d s i. as_owner-lost claim now _ _ db h;
  on_late_evidence = as_owner-lost claim now _ _ db h;
  on_renewal = λ n. ground arith;
  on_authorization = λ n t. ground arith;
}

-- After a take-over in reachable tables, and after whatever transactions are committed since, by
-- whichever process, a claim of the generation that the new owner captured is refused by every call
-- that asks whether its claim holds: it reports that the attempt is lost and writes nothing.
pub taken_over-Refuses :
    (is_canonical : Bytes → Bool) (strptime : Text → Option ℕ) (random : RandomSource)
    (c : Captured) (token : Ident) (lease_seconds : ℕ) (now later : Instant) (db db1 db2 : Database)
    (j : JobRow) (a : AttemptRow) (stale : Claim)
    → Reachable is_canonical strptime random db
    → ((b : AttemptRow) → select_attempt c.attempt_id db ≡ some b → b.job_id ≡ c.job_id)
    → claim_expired_attempt c token lease_seconds now db ≡ ok (claim_succeeded j a, db1)
    → Steps is_canonical strptime random db1 db2
    → stale.attempt_id ≡ c.attempt_id
    → stale.fencing_generation ≡ c.fencing_generation
    → Refuses strptime random stale later db2
unfolding owns still_expired
taken_over-Refuses is_canonical strptime random c token lease_seconds now later db db1 db2 j a stale
      reached of_job h steps same generation =
    let t = claim_expired_attempt-TakenOver c token lease_seconds now db db1 j a h in
    let until = add_milliseconds now (lease_seconds * 1000) in
    let reached1 =
      after db db1 reached (claimed c token lease_seconds now (claim_succeeded j a) of_job h) in
    let (b, there, moved_on) =
      Steps-Later is_canonical strptime random db1 db2 c.attempt_id
        (taken_over token until t.attempt) reached1 steps t.attempt_after in
    lost-Refuses strptime random stale later db2 (
      rw (same, there)
        (other_generation (select_job stale.job_id db2) b stale later
          (ground (arith, t.was_expired, moved_on.generation))))
