-- ===== src/Persistence/Reachable/Histories.antt =====
-- What later transactions find of the attempts of earlier ones: the rows that
-- src/boolean_maybe/persistence/transactions.py writes, over any number of transactions.
use boolean_maybe.Prelude.{ℕ, ◌≡◌, Bool, some, Option, arith}
use boolean_maybe.Domain.Backoff.{RandomSource}
use boolean_maybe.Domain.RetryAfter.{Text}
use boolean_maybe.Persistence.Rows.{Ident, Bytes, AttemptRow, Database}
use boolean_maybe.Persistence.Database.{select_attempt}
use boolean_maybe.Persistence.Ledger.Evolution.{
  Later, Evolves, Evolves-refl, Evolves-trans, Evolves-named, Present,
}
use boolean_maybe.Persistence.Ledger.Resolves.{Names}
use boolean_maybe.Persistence.Lease.{Claim}
use boolean_maybe.Persistence.Reachable.{
  Steps, none_more, next_step, Step-Advances, Reachable, after, Reachable-IsConsistent,
}

module _ (is_canonical : Bytes → Bool) (strptime : Text → Option ℕ) (random : RandomSource) where
  pub Steps-Reachable :
      (db db' : Database)
      → Steps is_canonical strptime random db db'
      → Reachable is_canonical strptime random db
      → Reachable is_canonical strptime random db'
  Steps-Reachable db _ none_more reached = reached
  Steps-Reachable db _ (next_step db1 db' before step) reached =
      after db1 db' (Steps-Reachable db db1 before reached) step

  pub Steps-Evolves :
      (db db' : Database)
      → Steps is_canonical strptime random db db'
      → Reachable is_canonical strptime random db
      → Evolves db.attempts db'.attempts
  Steps-Evolves db _ none_more reached = Evolves-refl db.attempts
  Steps-Evolves db _ (next_step db1 db' before step) reached =
      let v =
        Reachable-IsConsistent is_canonical strptime random db1
          (Steps-Reachable db db1 before reached) in
      Evolves-trans db.attempts db1.attempts db'.attempts (Steps-Evolves db db1 before reached)
        (Step-Advances is_canonical strptime random db1 db' step v).evolves

  -- Whatever transactions are committed after reachable tables, by whichever process, each attempt
  -- is still there under its id, with its Job and its number, its generation is no lower, and it is
  -- the same row if it had ended.
  pub Steps-Later :
      (db db' : Database) (attempt_id : Ident) (a : AttemptRow)
      → Reachable is_canonical strptime random db
      → Steps is_canonical strptime random db db'
      → select_attempt attempt_id db ≡ some a
      → (b : AttemptRow) × (select_attempt attempt_id db' ≡ some b) × Later a b
  unfolding select_attempt
  Steps-Later db db' attempt_id a reached steps h =
      Evolves-named attempt_id db.attempts db'.attempts a (Steps-Evolves db db' steps reached) h

-- A claim on an attempt that is there names it.
pub Present-Names :
    (claim : Claim) (n : ℕ) (db : Database)
    → Present claim.job_id claim.attempt_id n db
    → Names claim n db
Present-Names claim n db p = record {
  of_job = λ a h. ground (arith, p.there, p.of_job);
  number = λ a h. ground (arith, p.there, p.number);
}
