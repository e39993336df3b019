-- ===== src/Persistence/Reachable/Bindings.antt =====
-- The payload that a key is bound to, over the transactions of
-- src/boolean_maybe/persistence/transactions.py.
use boolean_maybe.Prelude.{ℕ, ◌≡◌, refl, Bool, true, false, Option, some, List, ◌∷◌}
use boolean_maybe.Domain.Backoff.{RandomSource}
use boolean_maybe.Domain.RetryAfter.{Text}
use boolean_maybe.Persistence.Rows.{Ident, Bytes, JobRow, Database}
use boolean_maybe.Persistence.Database.{ok, find_job_by_key, bytes_eq}
use boolean_maybe.Persistence.Ledger.Evolution.{
  JobsStay, JobsStay-refl, JobsStay-trans, JobsStay-keyed,
}
use boolean_maybe.Persistence.PreSideEffect.{
  Call, idempotency_conflict, turn, turn_for, existing_job, run_supplied,
}
use boolean_maybe.Persistence.Reachable.{
  Steps, none_more, next_step, Step-Advances, Reachable, Reachable-IsConsistent,
}
use boolean_maybe.Persistence.Reachable.Histories.{Steps-Reachable}

conflicting_call :
    (is_canonical : Bytes → Bool) (call : Call) (calls : List Call) (key : Ident) (other : Bytes)
    (db : Database) (job : JobRow)
    → find_job_by_key key db ≡ some job
    → is_canonical job.payload_canonical ≡ true
    → bytes_eq job.payload_canonical other ≡ false
    → run_supplied is_canonical (call ∷ calls) key other db ≡ ok (idempotency_conflict, db)
unfolding run_supplied turn turn_for existing_job
conflicting_call is_canonical call calls key other db job e canonical differs =
    rw (e, canonical, differs) refl

module _ (is_canonical : Bytes → Bool) (strptime : Text → Option ℕ) (random : RandomSource) where
  Steps-JobsStay :
      (db db' : Database)
      → Steps is_canonical strptime random db db'
      → Reachable is_canonical strptime random db
      → JobsStay db.jobs db'.jobs
  Steps-JobsStay db _ none_more reached = JobsStay-refl db.jobs
  Steps-JobsStay db _ (next_step db1 db' before step) reached =
      let v =
        Reachable-IsConsistent is_canonical strptime random db1
          (Steps-Reachable is_canonical strptime random db db1 before reached) in
      JobsStay-trans db.jobs db1.jobs db'.jobs (Steps-JobsStay db db1 before reached)
        (Step-Advances is_canonical strptime random db1 db' step v).jobs

  -- A key is bound to its payload for ever: once a Job is there under the key, and whatever
  -- transactions are committed since, by whichever process, a call under that key with another
  -- payload reports a conflict at its first turn and writes nothing, if the stored payload is
  -- canonical.
  pub run_supplied-conflict :
      (db db' : Database) (job : JobRow) (key : Ident) (call : Call) (calls : List Call)
      (other : Bytes)
      → Reachable is_canonical strptime random db
      → find_job_by_key key db ≡ some job
      → Steps is_canonical strptime random db db'
      → is_canonical job.payload_canonical ≡ true
      → bytes_eq job.payload_canonical other ≡ false
      → run_supplied is_canonical (call ∷ calls) key other db' ≡ ok (idempotency_conflict, db')
  unfolding find_job_by_key
  run_supplied-conflict db db' job key call calls other reached h steps canonical differs =
      let (i, there, stays) =
        JobsStay-keyed key db.jobs db'.jobs job (Steps-JobsStay db db' steps reached) h in
      conflicting_call is_canonical call calls key other db' i there (rw stays.2 canonical)
        (rw stays.2 differs)
