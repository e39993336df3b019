-- ===== src/Application/Recovery/Sound.antt =====
-- About the tables during `recover_and_reconcile` of src/boolean_maybe/application/recovery.py.
use mathlib.Core.Path.{subst}
use boolean_maybe.Prelude.{
  ℕ, ◌*◌, ◌≡◌, Bool, inl, inr, Option, arith, Option-cases, Bool-cases, All,
}
use boolean_maybe.Domain.Backoff.{RandomSource}
use boolean_maybe.Domain.RetryAfter.{Text}
use boolean_maybe.Persistence.Rows.{Ident, Instant, Bytes, JobRow, AttemptRow, Database}
use boolean_maybe.Persistence.Database.{
  ok, select_job, select_attempt, >>=-eq-ok, returning, update_attempt,
}
use boolean_maybe.Persistence.Rows.{add_milliseconds}
use boolean_maybe.Persistence.Lease.{
  Captured, ClaimResult, claim_succeeded, claim_rejected, claim_expired_attempt, claim_rows,
  still_expired, taken_over,
}
use boolean_maybe.Persistence.Lease.Ownership.{select_job-id, select_attempt-id}
use boolean_maybe.Persistence.Ledger.Evolution.{Present}
use boolean_maybe.Persistence.Reachable.{claimed, Reachable}
use boolean_maybe.Application.Flow.{World, settle, slept}
use boolean_maybe.Application.Flow.Rules.{
  Ensures, Tells, Leaves, give-Leaves, carry-Leaves, raise-Leaves, settle-Leaves, settle_keeping,
  Lawful, Holding, transact-Ensures, slept-Holding, IfOk, told_ok,
}
use boolean_maybe.Application.ReconciliationSequence.Loop.{run_reconciliation_sequence}
use boolean_maybe.Application.ReconciliationSequence.Sound.{IsSettledAs, LawfulRound}
use boolean_maybe.Application.ReconciliationSequence.Rounds.{run_reconciliation_sequence-Leaves}
use boolean_maybe.Application.Recovery.{
  RecoveryResult, reconciliation, rerouted, persistence_failed, captured_of, owner_of, Quarantined,
  quarantine, claiming, reconciled_result, after_claim, recover_and_reconcile,
}

-- A claim that succeeds returns the rows that it was made for.
abbrev pub Claims : Captured → ClaimResult → Type 0
Claims c (claim_succeeded j a) = (j.job_id ≡ c.job_id) × (a.attempt_id ≡ c.attempt_id)
Claims c claim_rejected = Unit

rejected-Claims :
    (c : Captured) (db : Database) (r : ClaimResult) (db' : Database)
    → returning claim_rejected db ≡ ok (r, db')
    → Claims c r
rejected-Claims c db r db' h = let same : claim_rejected ≡ r = cc in subst (Claims c) same tt

claim_expired_attempt-Claims :
    (c : Captured) (token : Ident) (lease_seconds : ℕ) (now : Instant) (db : Database)
    (r : ClaimResult) (db' : Database)
    → claim_expired_attempt c token lease_seconds now db ≡ ok (r, db')
    → Claims c r
unfolding claim_expired_attempt claim_rows
claim_expired_attempt-Claims c token lease_seconds now db r db' h =
    let until = add_milliseconds now (lease_seconds * 1000) in
    elim (Option-cases (select_job c.job_id db)) [
      | inl e ↦ rejected-Claims c db r db' (rw e at h)
      | inr (j, ej) ↦ elim (Option-cases (select_attempt c.attempt_id db)) [
        | inl e ↦ rejected-Claims c db r db' (rw (ej, e) at h)
        | inr (a, ea) ↦ elim (Bool-cases (still_expired c j a now)) [
          | inr changed ↦ rejected-Claims c db r db' (rw (ej, ea, changed) at h)
          | inl expired ↦
              let x = claim_succeeded j (taken_over token until a) in
              let (db1, done, last) =
                >>=-eq-ok (update_attempt c.attempt_id (taken_over token until) db) (returning x)
                  (rw (ej, ea, expired) at h) in
              let same : claim_succeeded j (taken_over token until a) ≡ r = cc in
              subst (Claims c) same
                (select_job-id c.job_id db j ej, select_attempt-id c.attempt_id db a ea)
        ]
      ]
    ]

-- A recovery that ends with a reconciliation ends as that does.
abbrev pub IsSettledRecovery : Ident → Ident → RecoveryResult → Database → Type 0
IsSettledRecovery i k (reconciliation x) db = IsSettledAs i k x db
IsSettledRecovery i k rerouted db = Unit
IsSettledRecovery i k persistence_failed db = Unit

module _ (is_canonical : Bytes → Bool) (strptime : Text → Option ℕ) (random : RandomSource) where
  pub record LawfulRecovery (q : Quarantined) : Type 0 where
    pub claim : Lawful is_canonical strptime random q.claim
    pub rounds : All (LawfulRound is_canonical strptime random) q.rounds

  module _ (job : JobRow) (attempt : AttemptRow) (token : Ident) (lease_seconds n : ℕ)
      (q : Quarantined) (lawful : LawfulRecovery q) where
    abbrev pub P : World → Type 0
    P = Holding is_canonical strptime random job.job_id attempt.attempt_id n

    claiming-Tells :
        Ensures P
          (claiming (captured_of job attempt) token lease_seconds q.claim)
          (Tells P (Claims (captured_of job attempt)))
    unfolding claiming
    claiming-Tells =
        let c = captured_of job attempt in
        transact-Ensures is_canonical strptime random q.claim
          (λ now draws. claim_expired_attempt c token lease_seconds now) lawful.claim job.job_id
          attempt.attempt_id n (Claims c)
          (λ db r db' p h. (
            claimed c token lease_seconds q.claim.now r (λ a e. ground (arith, p.there, p.of_job))
                h,
            claim_expired_attempt-Claims c token lease_seconds q.claim.now db r db' h,
          ))

    abbrev Settled : RecoveryResult → Database → Type 0
    Settled = IsSettledRecovery job.job_id attempt.attempt_id

    reconciling-Leaves :
        (j : JobRow) (a : AttemptRow)
        → j.job_id ≡ job.job_id
        → a.attempt_id ≡ attempt.attempt_id
        → Ensures P
            (run_reconciliation_sequence strptime random q.rounds
              (owner_of j a token)
              q.sequence_id)
            (Leaves P (IsSettledAs job.job_id attempt.attempt_id))
    reconciling-Leaves j a same_job same_attempt =
        rw (← same_job, ← same_attempt)
          (run_reconciliation_sequence-Leaves is_canonical strptime random (owner_of j a token) n
            q.rounds q.sequence_id lawful.rounds)

    after_claim-Leaves :
        (r : ClaimResult)
        → Claims (captured_of job attempt) r
        → Ensures P (after_claim strptime random token q (ok r)) (Leaves P Settled)
    unfolding after_claim reconciled_result
    after_claim-Leaves (claim_succeeded j a) said =
        settle-Leaves P (IsSettledAs job.job_id attempt.attempt_id) Settled
          (run_reconciliation_sequence strptime random q.rounds (owner_of j a token) q.sequence_id)
          reconciled_result (reconciling-Leaves j a said.0 said.1)
          (λ x. carry-Leaves P Settled (reconciliation x)) (λ e. raise-Leaves P Settled e)
    after_claim-Leaves claim_rejected said = give-Leaves P Settled rerouted (λ db. tt)

    pub recover_and_reconcile-Leaves :
        Ensures P
          (recover_and_reconcile strptime random job attempt token lease_seconds q)
          (Leaves P Settled)
    unfolding recover_and_reconcile after_claim
    recover_and_reconcile-Leaves =
        let c = captured_of job attempt in
        settle_keeping P Settled (slept quarantine)
          (λ _.
            settle (claiming c token lease_seconds q.claim) (after_claim strptime random token q))
          (slept-Holding is_canonical strptime random quarantine job.job_id attempt.attempt_id n)
          (λ _.
            settle-Leaves P (λ r _. Claims c r) Settled (claiming c token lease_seconds q.claim)
              (after_claim strptime random token q) claiming-Tells
              (λ r w h. after_claim-Leaves r h.1 w h.0)
              (λ e. give-Leaves P Settled persistence_failed (λ db. tt)))

    -- A recovery of an attempt that is in reachable tables leaves reachable tables in which it is,
    -- and the attempt of an outcome that reports no failure and no lost ownership has ended: the
    -- tables that are left have the returned rows under the ids of the Job and the attempt.
    pub recover_and_reconcile_sound :
        (w : World)
        → Reachable is_canonical strptime random w.db
        → Present job.job_id attempt.attempt_id n w.db
        → P ((recover_and_reconcile strptime random job attempt token lease_seconds q w).1)
          × IfOk
              (λ r.
                IsSettledRecovery job.job_id attempt.attempt_id r
                  (recover_and_reconcile strptime random job attempt token lease_seconds q w).1.db)
              (recover_and_reconcile strptime random job attempt token lease_seconds q w).0
    recover_and_reconcile_sound w reached present =
        let (held, said) = recover_and_reconcile-Leaves w (reached, present) in
        (held, told_ok (λ r. Settled r _) _ said)
