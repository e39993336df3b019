-- ===== src/Persistence/Reachable.antt =====
-- The tables that any sequence of the transactions leaves, from the empty ones: each step is one
-- committed transaction of src/boolean_maybe/persistence/transactions.py, by whichever process.
pub mod Histories
pub mod Fencing
pub mod Bindings
use boolean_maybe.Prelude.{ℕ, ◌≤◌, ◌≡◌, refl, Bool, true, Option, some, List, arith, length}
use boolean_maybe.Domain.Backoff.{RandomSource}
use boolean_maybe.Domain.RetryAfter.{Text}
use boolean_maybe.External.Outcome.{SubmitHttpOutcome}
use boolean_maybe.Application.Classification.{classify_submission_outcome}
use boolean_maybe.Application.Classification.Evidence.{HasSuccessStatus, classify-IsSound}
use boolean_maybe.Application.AttemptHistory.Projection.{read_attempt_history_lem}
use boolean_maybe.Persistence.Rows.{Ident, Instant, Bytes, JobRow, AttemptRow, Database}
use boolean_maybe.Persistence.Database.{
  ok, empty, select_job, select_attempt, find_job_by_key, attempts_of, is_success_evidence,
  advance_gate,
}
use boolean_maybe.Persistence.Lease.{
  Claim, LeaseRenewal, renew_lease, Captured, ClaimResult, claim_expired_attempt, Authorization,
  authorize_reconciliation_request,
}
use boolean_maybe.Persistence.Lease.Steps.{
  renew_lease-Advances, claim_expired_attempt-Advances, authorize_reconciliation_request-Advances,
}
use boolean_maybe.Persistence.Observations.{Observed, append_observation, append_late_observation}
use boolean_maybe.Persistence.Observations.Frame.{
  append_observation_frame, append_late_observation_frame,
}
use boolean_maybe.Persistence.Finalize.{SubmissionRecord, finalize_submission_attempt}
use boolean_maybe.Persistence.Finalize.Steps.{finalize_submission_attempt-Advances}
use boolean_maybe.Persistence.Reconcile.{
  Disposition, matched, ReconciliationRecord, record_reconciliation_result, LateConsumption,
  consume_late_observations, advance_gate_for_reconciliation_rate_limit,
}
use boolean_maybe.Persistence.Reconcile.Steps.{
  record_reconciliation_result-Advances, consume_late_observations-Advances,
}
use boolean_maybe.Persistence.PreSideEffect.{Call, PreSideEffectResult, run_supplied, run_generated}
use boolean_maybe.Persistence.PreSideEffect.Loops.{run_supplied-Decides, run_generated-Decides}
use boolean_maybe.Persistence.Ledger.{IsConsistent}
use boolean_maybe.Persistence.Ledger.Resolves.{Names, Advances-unmoved}
use boolean_maybe.Persistence.Ledger.Evolution.{Advances}

-- The fencing claim of each step is one that names an attempt of its own Job: the callers copy both
-- ids and the number from one row. A step may fail to own the attempt, and then changes nothing.
pub data Step (is_canonical : Bytes → Bool) (strptime : Text → Option ℕ) (random : RandomSource)
    (db db' : Database) : Type 0 where
  supplied :
      (calls : List Call) (key : Ident) (canonical_bytes : Bytes) (r : PreSideEffectResult)
      → run_supplied is_canonical calls key canonical_bytes db ≡ ok (r, db')
      → Step is_canonical strptime random db db'
  generated :
      (calls : List (Ident × Call)) (canonical_bytes : Bytes) (r : PreSideEffectResult)
      → run_generated is_canonical calls canonical_bytes db ≡ ok (r, db')
      → Step is_canonical strptime random db db'
  finalized :
      (claim : Claim) (n : ℕ) (o : SubmitHttpOutcome) (now : Instant) (draws : List Ident)
      (r : SubmissionRecord)
      → Names claim n db
      → HasSuccessStatus o
      → finalize_submission_attempt strptime random claim n
          (classify_submission_outcome o)
          now
          draws
          db
        ≡ ok (r, db')
      → Step is_canonical strptime random db db'
  reconciled :
      (claim : Claim) (n : ℕ) (d : Disposition) (http_status : Option ℕ)
      (remote_request_id : Option Ident) (now : Instant) (r : ReconciliationRecord)
      → Names claim n db
      → (d ≡ matched → is_success_evidence http_status remote_request_id ≡ true)
      → record_reconciliation_result claim d http_status remote_request_id now db ≡ ok (r, db')
      → Step is_canonical strptime random db db'
  consumed :
      (claim : Claim) (n : ℕ) (now : Instant) (r : LateConsumption)
      → Names claim n db
      → consume_late_observations random claim now db ≡ ok (r, db')
      → Step is_canonical strptime random db db'
  renewed :
      (claim : Claim) (n lease_seconds : ℕ) (now : Instant) (r : LeaseRenewal)
      → Names claim n db
      → renew_lease claim lease_seconds now db ≡ ok (r, db')
      → Step is_canonical strptime random db db'
  claimed :
      (c : Captured) (token : Ident) (lease_seconds : ℕ) (now : Instant) (r : ClaimResult)
      → ((a : AttemptRow) → select_attempt c.attempt_id db ≡ some a → a.job_id ≡ c.job_id)
      → claim_expired_attempt c token lease_seconds now db ≡ ok (r, db')
      → Step is_canonical strptime random db db'
  authorized :
      (claim : Claim) (n lease_seconds : ℕ) (now : Instant) (not_before : Option Instant)
      (r : Authorization)
      → Names claim n db
      → authorize_reconciliation_request claim lease_seconds now not_before db ≡ ok (r, db')
      → Step is_canonical strptime random db db'
  observed :
      (seen : Observed) (sequence_id : Ident) (now : Instant) (draws : List Ident) (i : Ident)
      → append_observation seen sequence_id now draws db ≡ ok (i, db')
      → Step is_canonical strptime random db db'
  observed_late :
      (seen : Observed) (now : Instant) (draws : List Ident) (i : Ident)
      → append_late_observation seen now draws db ≡ ok (i, db')
      → Step is_canonical strptime random db db'
  gate_advanced :
      (delay_ms : ℕ) (now : Instant)
      → advance_gate_for_reconciliation_rate_limit delay_ms now db ≡ ok (tt, db')
      → Step is_canonical strptime random db db'

pub data Reachable (is_canonical : Bytes → Bool) (strptime : Text → Option ℕ)
    (random : RandomSource) : Database → Type 0 where
  start : Reachable is_canonical strptime random empty
  after :
      (db db' : Database)
      → Reachable is_canonical strptime random db
      → Step is_canonical strptime random db db'
      → Reachable is_canonical strptime random db'

-- Committed transactions, one after another.
pub data Steps (is_canonical : Bytes → Bool) (strptime : Text → Option ℕ) (random : RandomSource)
    (db : Database) : Database → Type 0 where
  none_more : Steps is_canonical strptime random db db
  next_step :
      (db1 db' : Database)
      → Steps is_canonical strptime random db db1
      → Step is_canonical strptime random db1 db'
      → Steps is_canonical strptime random db db'

pub empty-IsConsistent : IsConsistent empty
unfolding select_job find_job_by_key attempts_of empty
empty-IsConsistent = record {
  distinct = tt;
  orphans = λ i h. refl;
  lives = λ i j h. absurd (ground arith);
  keyed = λ key j h. absurd (ground arith);
}

module _ (is_canonical : Bytes → Bool) (strptime : Text → Option ℕ) (random : RandomSource) where
  -- Every committed transaction keeps the tables consistent, and no attempt is lost, renumbered or
  -- given a lower generation, or changed once it has ended, and no Job is lost or given another id,
  -- key or payload.
  pub Step-Advances :
      (db db' : Database)
      → Step is_canonical strptime random db db'
      → IsConsistent db
      → Advances db db'
  unfolding advance_gate_for_reconciliation_rate_limit advance_gate
  Step-Advances db db' (supplied calls key bytes r h) v =
      (run_supplied-Decides is_canonical calls key bytes db r db' v h).advances
  Step-Advances db db' (generated calls bytes r h) v =
      (run_generated-Decides is_canonical calls bytes db r db' v h).advances
  Step-Advances db db' (finalized claim n o now draws r names status h) v =
      finalize_submission_attempt-Advances strptime random claim n (classify_submission_outcome o)
        now draws db r db' v names (classify-IsSound o status) h
  Step-Advances db db' (reconciled claim n d s i now r names sound h) v =
      record_reconciliation_result-Advances claim n d s i now db r db' v names sound h
  Step-Advances db db' (consumed claim n now r names h) v =
      consume_late_observations-Advances random claim n now db r db' v names h
  Step-Advances db db' (renewed claim n lease now r names h) v =
      renew_lease-Advances claim n lease now db r db' v names h
  Step-Advances db db' (claimed c token lease now r of_job h) v =
      claim_expired_attempt-Advances c token lease now db r db' v of_job h
  Step-Advances db db' (authorized claim n lease now not_before r names h) v =
      authorize_reconciliation_request-Advances claim n lease now not_before db r db' v names h
  Step-Advances db db' (observed seen q now draws i h) v =
      let frame = append_observation_frame seen q now draws db i db' h in
      Advances-unmoved db db' (frame.0, frame.1) v
  Step-Advances db db' (observed_late seen now draws i h) v =
      let frame = append_late_observation_frame seen now draws db i db' h in
      Advances-unmoved db db' (frame.0, frame.1) v
  Step-Advances db db' (gate_advanced delay now h) v =
      Advances-unmoved db db' (ground arith, ground arith) v

  -- Whatever transactions were committed, from the empty tables on, and in whatever order processes
  -- made them, the tables are consistent: attempts have distinct ids and belong to a Job, those of a
  -- Job are numbered 1, 2, … up to 3, all but the last failed retryably, the Job's state fits the
  -- last, and a success has its evidence.
  pub Reachable-IsConsistent :
      (db : Database) → Reachable is_canonical strptime random db → IsConsistent db
  Reachable-IsConsistent db start = empty-IsConsistent
  Reachable-IsConsistent _ (after db0 db before step) =
      (Step-Advances db0 db step (Reachable-IsConsistent db0 before)).consistent
