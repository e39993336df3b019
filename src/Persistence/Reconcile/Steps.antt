-- ===== src/Persistence/Reconcile/Steps.antt =====
-- About `record_reconciliation_result` and `consume_late_observations` of
-- src/boolean_maybe/persistence/transactions.py and the invariant of the tables.
use boolean_maybe.Prelude.{
  ℕ, ◌≤◌, ◌≡◌, refl, ◌∙◌, ap, inl, inr, true, Option, none, some, List, [], ◌∷◌, arith,
  Option-cases,
}
use boolean_maybe.Domain.Backoff.{RandomSource}
use boolean_maybe.Persistence.Rows.{
  Ident, Instant, JobState, Category, JobRow, AttemptRow, ObservationRow, Database,
}
use boolean_maybe.Persistence.Database.{
  is_success_evidence, ok, ◌>>=◌, >>=-eq-ok, returning, ok-returning,
}
use boolean_maybe.Persistence.Lease.{Claim}
use boolean_maybe.Persistence.Lease.Ownership.{as_owner-cases}
use boolean_maybe.Persistence.Finalize.{complete}
use boolean_maybe.Persistence.Reconcile.{
  Disposition, matched, ReconciliationRecord, LateConsumption, no_actionable_late_evidence,
  resolution, resolved_state, resolve, record_reconciliation_result, is_actionable_late_evidence,
  is_candidate, first_candidate, consume_with, consume_category, consume_first, consume_owned,
  consume_late_observations,
}
use boolean_maybe.Persistence.Ledger.{Life, SameTables, IsConsistent}
use boolean_maybe.Persistence.Ledger.Resolves.{
  Resolves, kept, completed, Names, Owned-budget, Resolves-Advances,
}
use boolean_maybe.Persistence.Ledger.Evolution.{Advances, unchanged}
use boolean_maybe.Persistence.Ledger.Writes.{KeepsIdentity}

-- A completion from tables that hold the same Jobs and attempts.
completed-Resolves :
    {A : Type 0} (claim : Claim) (now : Instant) (a : AttemptRow) (f : AttemptRow → AttemptRow)
    (s : JobState) (x r : A) (db db0 db' : Database)
    → SameTables db db0
    → KeepsIdentity f
    → Life a.attempt_number s (f a ∷ [])
    → (complete claim f s now db0 >>= returning x) ≡ ok (r, db')
    → Resolves claim now a db db'
completed-Resolves claim now a f s x r db db0 db' same keeps life h =
    let (db2, done, last) = >>=-eq-ok (complete claim f s now db0) (returning x) h in
    completed db0 f s same keeps life (done ∙ ap ok (ok-returning x r db2 db' last))

pub actionable-success :
    (http_status : Option ℕ) (remote_request_id : Option Ident)
    → is_actionable_late_evidence (some Category.processed) http_status remote_request_id ≡ true
    → is_success_evidence http_status remote_request_id ≡ true
unfolding is_actionable_late_evidence
actionable-success none remote_request_id h = ground arith
actionable-success (some n) none h = ground arith
actionable-success (some n) (some i) h = h

-- The row that is chosen passes the test.
first_candidate-is_candidate :
    (attempt_id : Ident) (rows : List ObservationRow) (o : ObservationRow)
    → first_candidate attempt_id rows ≡ some o
    → is_candidate attempt_id o ≡ true
unfolding first_candidate
first_candidate-is_candidate attempt_id [] o h = ground arith
first_candidate-is_candidate attempt_id (p ∷ rows) o h =
    elim (Option-cases (first_candidate attempt_id rows)) [
      | inl e ↦ ground arith
      | inr (q, e) ↦ ground (arith, first_candidate-is_candidate attempt_id rows q)
    ]

is_candidate-actionable :
    (attempt_id : Ident) (o : ObservationRow)
    → is_candidate attempt_id o ≡ true
    → is_actionable_late_evidence o.evidence_category o.http_status o.remote_request_id ≡ true
unfolding is_candidate
is_candidate-actionable attempt_id o h = ground arith

pub first_candidate-actionable :
    (attempt_id : Ident) (rows : List ObservationRow) (o : ObservationRow)
    → first_candidate attempt_id rows ≡ some o
    → is_actionable_late_evidence o.evidence_category o.http_status o.remote_request_id ≡ true
first_candidate-actionable attempt_id rows o h =
    is_candidate-actionable attempt_id o (first_candidate-is_candidate attempt_id rows o h)

module _ (claim : Claim) (now : Instant) (j : JobRow) (a : AttemptRow) (db db' : Database)
    (budget : (1 ≤ a.attempt_number) × (a.attempt_number ≤ 3)) where
  Life-resolution :
      (d : Disposition) (http_status : Option ℕ) (remote_request_id : Option Ident)
      → (d ≡ matched → is_success_evidence http_status remote_request_id ≡ true)
      → Life a.attempt_number
          (resolved_state d)
          (resolution d http_status remote_request_id now a ∷ [])
  unfolding resolved_state resolution
  Life-resolution matched http_status remote_request_id sound =
      (refl, budget.1, (sound refl, refl, refl))
  Life-resolution _ http_status remote_request_id sound = (refl, budget.1, (refl, refl))

  resolve-Resolves :
      (d : Disposition) (http_status : Option ℕ) (remote_request_id : Option Ident)
      (r : ReconciliationRecord)
      → (d ≡ matched → is_success_evidence http_status remote_request_id ≡ true)
      → resolve claim d http_status remote_request_id now j a db ≡ ok (r, db')
      → Resolves claim now a db db'
  unfolding resolve
  resolve-Resolves d http_status remote_request_id r sound h =
      completed-Resolves claim now a (resolution d http_status remote_request_id now)
        (resolved_state d) _ r db db db' (refl, refl)
        (record {
          id = λ a. ground arith;
          job = λ a. ground arith;
          number = λ a. ground arith;
          generation = λ a. ground arith;
        })
        (Life-resolution d http_status remote_request_id sound) h

  consume_with-Resolves :
      (f : AttemptRow → AttemptRow) (s : JobState) (db0 : Database) (r : LateConsumption)
      → SameTables db db0
      → KeepsIdentity f
      → Life a.attempt_number s (f a ∷ [])
      → consume_with claim f s now j a db0 ≡ ok (r, db')
      → Resolves claim now a db db'
  unfolding consume_with
  consume_with-Resolves f s db0 r same keeps life h =
      completed-Resolves claim now a f s _ r db db0 db' same keeps life h

  consume_category-Resolves :
      (random : RandomSource) (c : Option Category) (o : ObservationRow) (r : LateConsumption)
      (db0 : Database)
      → SameTables db db0
      → is_actionable_late_evidence c o.http_status o.remote_request_id ≡ true
      → consume_category random c o claim now j a db0 ≡ ok (r, db')
      → Resolves claim now a db db'
  unfolding consume_category
  consume_category-Resolves random (some Category.processed) o r db0 same good h =
      consume_with-Resolves _ _ db0 r same
        (record {
          id = λ _. refl;
          job = λ _. refl;
          number = λ _. refl;
          generation = λ a. ground arith;
        })
        (refl, budget.1, (actionable-success o.http_status o.remote_request_id good, refl, refl)) h
  consume_category-Resolves random (some Category.rate_limited) o r db0 same good h =
      consume_with-Resolves _ _ _ r (ground (arith, same))
        (record {
          id = λ _. refl;
          job = λ _. refl;
          number = λ _. refl;
          generation = λ a. ground arith;
        })
        (ground (arith, budget)) h
  consume_category-Resolves random _ o r db0 same good h =
      consume_with-Resolves _ _ db0 r same
        (record {
          id = λ _. refl;
          job = λ _. refl;
          number = λ _. refl;
          generation = λ a. ground arith;
        })
        (refl, budget.1, (refl, refl)) h

  consume_owned-Resolves :
      (random : RandomSource) (r : LateConsumption) (found : Option ObservationRow)
      → first_candidate claim.attempt_id db.observations ≡ found
      → consume_first random found claim now j a db ≡ ok (r, db')
      → Resolves claim now a db db'
  unfolding consume_first
  consume_owned-Resolves random r none first h =
      kept (rw (← ok-returning no_actionable_late_evidence r db db' h) (refl, refl))
  consume_owned-Resolves random r (some o) first h =
      consume_category-Resolves random o.evidence_category o r _ (refl, refl)
        (first_candidate-actionable claim.attempt_id db.observations o first) h

-- The end of a reconciliation keeps consistent tables consistent, whatever it found, if the claim
-- names an attempt of its Job and a match comes with the evidence of a success.
pub record_reconciliation_result-Advances :
    (claim : Claim) (n : ℕ) (d : Disposition) (http_status : Option ℕ)
    (remote_request_id : Option Ident) (now : Instant) (db : Database) (r : ReconciliationRecord)
    (db' : Database)
    → IsConsistent db
    → Names claim n db
    → (d ≡ matched → is_success_evidence http_status remote_request_id ≡ true)
    → record_reconciliation_result claim d http_status remote_request_id now db ≡ ok (r, db')
    → Advances db db'
unfolding record_reconciliation_result
record_reconciliation_result-Advances claim n d http_status remote now db r db' v names sound h =
    elim (as_owner-cases claim now ReconciliationRecord.post_side_effect_failure
      (resolve claim d http_status remote now) db r db' h) [
        | inl lost ↦ rw (lost.1) (unchanged db v)
        | inr (j, a, o, done) ↦ Resolves-Advances claim n now db db' j a v names o (
            resolve-Resolves claim now j a db db' (Owned-budget claim n now db j a v names o) d
              http_status remote r sound done)
      ]

-- The consumption of late evidence keeps consistent tables consistent, if the claim names an attempt
-- of its Job.
pub consume_late_observations-Advances :
    (random : RandomSource) (claim : Claim) (n : ℕ) (now : Instant) (db : Database)
    (r : LateConsumption) (db' : Database)
    → IsConsistent db
    → Names claim n db
    → consume_late_observations random claim now db ≡ ok (r, db')
    → Advances db db'
unfolding consume_late_observations
consume_late_observations-Advances random claim n now db r db' v names h =
    elim (as_owner-cases claim now LateConsumption.post_side_effect_failure
      (consume_owned random claim now) db r db' h) [
        | inl lost ↦ rw (lost.1) (unchanged db v)
        | inr (j, a, o, done) ↦ Resolves-Advances claim n now db db' j a v names o (
            consume_owned-Resolves claim now j a db db' (Owned-budget claim n now db j a v names o)
              random r _ refl done)
      ]
