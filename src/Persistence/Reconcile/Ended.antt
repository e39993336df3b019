-- ===== src/Persistence/Reconcile/Ended.antt =====
-- What `record_reconciliation_result` and `consume_late_observations` of
-- src/boolean_maybe/persistence/transactions.py return of an attempt that they completed, and leave
-- of it in the tables.
use mathlib.Core.Path.{subst}
use boolean_maybe.Prelude.{arith, ℕ, ◌≡◌, refl, inl, inr, true, Option, none, some}
use boolean_maybe.Domain.Backoff.{RandomSource}
use boolean_maybe.Persistence.Rows.{
  Ident, Instant, AttemptState, JobState, Category, JobRow, AttemptRow, ObservationRow, Database,
}
use boolean_maybe.Persistence.Database.{
  is_success_evidence, ok, >>=-eq-ok, returning, select_job, select_attempt, update_attempt,
  update_job, mark_consumed, advance_gate,
}
use boolean_maybe.Persistence.Lease.{Claim}
use boolean_maybe.Persistence.Ledger.Select.{job_named-update, found-update}
use boolean_maybe.Persistence.Lease.Ownership.{as_owner-cases}
use boolean_maybe.Persistence.Finalize.{complete, moved}
use boolean_maybe.Persistence.Reconcile.{
  Disposition, matched, ReconciliationRecord, LateConsumption, no_actionable_late_evidence,
  late_evidence_consumed, resolution, resolved_state, resolve, record_reconciliation_result,
  is_actionable_late_evidence, first_candidate, consume_with, consume_category, consume_first,
  consume_owned, consume_late_observations,
}
use boolean_maybe.Persistence.Reconcile.Steps.{actionable-success, first_candidate-actionable}

-- The attempt has ended, and a success has its evidence.
abbrev pub HasEnded : AttemptRow → Type 0
HasEnded a = elim a.state [
  | AttemptState.started ↦ ⊥
  | AttemptState.succeeded ↦ is_success_evidence a.http_status a.remote_request_id ≡ true
  | _ ↦ Unit
]

-- The attempt has ended, and the tables have the rows of the Job and of the attempt under the two
-- ids.
abbrev pub HasEndedIn : Ident → Ident → JobRow → AttemptRow → Database → Type 0
HasEndedIn i k j a db = HasEnded a × (select_job i db ≡ some j) × (select_attempt k db ≡ some a)

abbrev pub Finalizes : Claim → ReconciliationRecord → Database → Type 0
Finalizes claim (ReconciliationRecord.finalized j a) db =
    HasEndedIn claim.job_id claim.attempt_id j a db
Finalizes claim ReconciliationRecord.post_side_effect_failure db = Unit

abbrev pub Consumes : Claim → LateConsumption → Database → Type 0
Consumes claim (late_evidence_consumed j a) db = HasEndedIn claim.job_id claim.attempt_id j a db
Consumes claim no_actionable_late_evidence db = Unit
Consumes claim LateConsumption.post_side_effect_failure db = Unit

-- The two `UPDATE` statements, as the rows show them afterwards.
complete-rows :
    (claim : Claim) (f : AttemptRow → AttemptRow) (s : JobState) (now : Instant) (j : JobRow)
    (a : AttemptRow) (db db' : Database)
    → ((b : AttemptRow) → (f b).attempt_id ≡ b.attempt_id)
    → select_job claim.job_id db ≡ some j
    → select_attempt claim.attempt_id db ≡ some a
    → complete claim f s now db ≡ ok db'
    → (select_job claim.job_id db' ≡ some (moved s now j))
      × (select_attempt claim.attempt_id db' ≡ some (f a))
unfolding complete update_attempt update_job select_job select_attempt
complete-rows claim f s now j a db db' keeps ej ea h = (
  ground (
    arith,
    job_named-update claim.job_id claim.job_id (λ k. record k { state = s; updated_at = now })
        db.jobs (λ k. refl),
  ),
  ground (arith, found-update claim.attempt_id f db.attempts a keeps ea),
)

resolution-HasEnded :
    (d : Disposition) (http_status : Option ℕ) (remote_request_id : Option Ident) (now : Instant)
    (a : AttemptRow)
    → (d ≡ matched → is_success_evidence http_status remote_request_id ≡ true)
    → HasEnded (resolution d http_status remote_request_id now a)
unfolding resolution
resolution-HasEnded Disposition.matched s i now a sound = sound refl
resolution-HasEnded Disposition.conflict s i now a sound = tt
resolution-HasEnded Disposition.not_found s i now a sound = tt
resolution-HasEnded Disposition.inconclusive s i now a sound = tt

resolution-id :
    (d : Disposition) (http_status : Option ℕ) (remote_request_id : Option Ident) (now : Instant)
    (a : AttemptRow)
    → (resolution d http_status remote_request_id now a).attempt_id ≡ a.attempt_id
unfolding resolution
resolution-id Disposition.matched s i now a = refl
resolution-id Disposition.conflict s i now a = refl
resolution-id Disposition.not_found s i now a = refl
resolution-id Disposition.inconclusive s i now a = refl

pub record_reconciliation_result-Finalizes :
    (claim : Claim) (d : Disposition) (http_status : Option ℕ) (remote_request_id : Option Ident)
    (now : Instant) (db : Database) (r : ReconciliationRecord) (db' : Database)
    → (d ≡ matched → is_success_evidence http_status remote_request_id ≡ true)
    → record_reconciliation_result claim d http_status remote_request_id now db ≡ ok (r, db')
    → Finalizes claim r db'
unfolding record_reconciliation_result resolve
record_reconciliation_result-Finalizes claim d s i now db r db' sound h =
    elim (as_owner-cases claim now ReconciliationRecord.post_side_effect_failure
      (resolve claim d s i now) db r db' h) [
        | inl lost ↦ rw lost.0 tt
        | inr (j, a, o, done) ↦
            let f = resolution d s i now in
            let (db1, wrote, last) =
              >>=-eq-ok (complete claim f (resolved_state d) now db) (returning _) done in
            let same : ReconciliationRecord.finalized (moved (resolved_state d) now j) (f a) ≡ r =
              cc in
            let there : db1 ≡ db' = cc in
            let (job_row, attempt_row) =
              complete-rows claim f (resolved_state d) now j a db db1 (resolution-id d s i now)
                o.job o.attempt wrote in
            subst (λ x. Finalizes claim x db') same
              (
                resolution-HasEnded d s i now a sound,
                rw (← there) job_row,
                rw (← there) attempt_row,
              )
      ]

consume_with-Consumes :
    (claim : Claim) (f : AttemptRow → AttemptRow) (s : JobState) (now : Instant) (j : JobRow)
    (a : AttemptRow) (db : Database) (r : LateConsumption) (db' : Database)
    → HasEnded (f a)
    → ((b : AttemptRow) → (f b).attempt_id ≡ b.attempt_id)
    → select_job claim.job_id db ≡ some j
    → select_attempt claim.attempt_id db ≡ some a
    → consume_with claim f s now j a db ≡ ok (r, db')
    → Consumes claim r db'
unfolding consume_with
consume_with-Consumes claim f s now j a db r db' has_ended keeps ej ea h =
    let (db1, wrote, last) = >>=-eq-ok (complete claim f s now db) (returning _) h in
    let same : late_evidence_consumed (moved s now j) (f a) ≡ r = cc in
    let there : db1 ≡ db' = cc in
    let (job_row, attempt_row) = complete-rows claim f s now j a db db1 keeps ej ea wrote in
    subst (λ x. Consumes claim x db') same
      (has_ended, rw (← there) job_row, rw (← there) attempt_row)

consume_category-Consumes :
    (random : RandomSource) (c : Option Category) (o : ObservationRow) (claim : Claim)
    (now : Instant) (j : JobRow) (a : AttemptRow) (db : Database) (r : LateConsumption)
    (db' : Database)
    → is_actionable_late_evidence c o.http_status o.remote_request_id ≡ true
    → select_job claim.job_id db ≡ some j
    → select_attempt claim.attempt_id db ≡ some a
    → consume_category random c o claim now j a db ≡ ok (r, db')
    → Consumes claim r db'
unfolding consume_category advance_gate select_job select_attempt
consume_category-Consumes random (some Category.processed) o claim now j a db r db' good ej ea h =
    consume_with-Consumes claim _ _ now j a db r db'
      (actionable-success o.http_status o.remote_request_id good) (λ b. refl) ej ea h
consume_category-Consumes random (some Category.rate_limited) o claim now j a db r db' good ej ea
      h =
    consume_with-Consumes claim _ _ now j a _ r db' tt (λ b. refl) ej ea h
consume_category-Consumes random _ o claim now j a db r db' good ej ea h =
    consume_with-Consumes claim _ _ now j a db r db' tt (λ b. refl) ej ea h

consume_first-Consumes :
    (random : RandomSource) (found : Option ObservationRow) (claim : Claim) (now : Instant)
    (j : JobRow) (a : AttemptRow) (db : Database) (r : LateConsumption) (db' : Database)
    → first_candidate claim.attempt_id db.observations ≡ found
    → select_job claim.job_id db ≡ some j
    → select_attempt claim.attempt_id db ≡ some a
    → consume_first random found claim now j a db ≡ ok (r, db')
    → Consumes claim r db'
unfolding consume_first mark_consumed select_job select_attempt
consume_first-Consumes random none claim now j a db r db' first ej ea h =
    let same : no_actionable_late_evidence ≡ r = cc in subst (λ x. Consumes claim x db') same tt
consume_first-Consumes random (some o) claim now j a db r db' first ej ea h =
    consume_category-Consumes random o.evidence_category o claim now j a _ r db'
      (first_candidate-actionable claim.attempt_id db.observations o first) ej ea h

pub consume_late_observations-Consumes :
    (random : RandomSource) (claim : Claim) (now : Instant) (db : Database) (r : LateConsumption)
    (db' : Database)
    → consume_late_observations random claim now db ≡ ok (r, db')
    → Consumes claim r db'
unfolding consume_late_observations consume_owned
consume_late_observations-Consumes random claim now db r db' h =
    elim (as_owner-cases claim now LateConsumption.post_side_effect_failure
      (consume_owned random claim now) db r db' h) [
        | inl lost ↦ rw lost.0 tt
        | inr (j, a, o, done) ↦
            consume_first-Consumes random _ claim now j a db r db' refl o.job o.attempt done
      ]
