-- ===== src/Application/ReconciliationSequence/Sound.antt =====
-- About the tables during `run_reconciliation_sequence` of
-- src/boolean_maybe/application/reconciliation_sequence.py, and about what it returns.
use boolean_maybe.Prelude.{ℕ, ◌≡◌, ◌⊎◌, Bool, true, Option, none, some, arith, if◌then◌else◌, All}
use boolean_maybe.Domain.Backoff.{RandomSource}
use boolean_maybe.Domain.RetryAfter.{Text}
use boolean_maybe.External.Outcome.{ReconcileHttpOutcome}
use boolean_maybe.Persistence.Rows.{Ident, Bytes, Database}
use boolean_maybe.Persistence.Database.{ok, is_success_evidence}
use boolean_maybe.Persistence.Observations.{append_late_observation}
use boolean_maybe.Persistence.Reconcile.{
  Disposition, matched, ReconciliationRecord, LateConsumption, consume_late_observations,
  record_reconciliation_result,
}
use boolean_maybe.Persistence.Reconcile.Ended.{
  HasEnded, HasEndedIn, Finalizes, Consumes, record_reconciliation_result-Finalizes,
  consume_late_observations-Consumes,
}
use boolean_maybe.Persistence.Reachable.{reconciled, consumed, observed_late}
use boolean_maybe.Persistence.Reachable.Histories.{Present-Names}
use boolean_maybe.Application.Classification.{classify_reconciliation_outcome}
use boolean_maybe.Application.Flow.{World, Moment, Flow, give}
use boolean_maybe.Application.Flow.Rules.{
  Ensures, Keeps, Leaves, give-Leaves, carry-Leaves, raise-Leaves, settle-Leaves, settle_keeping,
  Lawful, Holding, transact-Leaves, transact-Holding,
}
use boolean_maybe.Application.ReconciliationSequence.{
  ReconciliationOutcome, settled, Owner, claim_of, lost_ownership, failed_persistence, consuming,
  appending_late, recording, late_observation, consumed_outcome, try_consume_late_evidence,
  unless_consumed, Ending, Finding, recorded_outcome, record_finding, finalize_by, finalize,
}
use boolean_maybe.Application.ReconciliationSequence.Loop.{
  Round, RoundEnd, ended, going_on, finish, ending_with, conclusion, finding_of,
}

-- An outcome that reports no failure carries an attempt that has ended.
abbrev pub IsFinal : ReconciliationOutcome → Type 0
IsFinal x =
    if x.persistence_failed then Unit else if x.ownership_lost then Unit else HasEnded x.attempt

-- The same of the tables: its rows are there, under the two ids.
abbrev pub IsSettledAs : Ident → Ident → ReconciliationOutcome → Database → Type 0
IsSettledAs i k x db =
    if x.persistence_failed
    then Unit
    else if x.ownership_lost
    then Unit
    else HasEndedIn i k x.job x.attempt db

abbrev pub IsSettled : Owner → ReconciliationOutcome → Database → Type 0
IsSettled o = IsSettledAs o.job.job_id o.attempt.attempt_id

abbrev pub IsSettledIfAny : Owner → Option ReconciliationOutcome → Database → Type 0
IsSettledIfAny o none db = Unit
IsSettledIfAny o (some x) db = IsSettled o x db

abbrev pub IsSettledIfEnded : Owner → RoundEnd → Database → Type 0
IsSettledIfEnded o (ended x) db = IsSettled o x db
IsSettledIfEnded o (going_on n not_before) db = Unit

-- A match has a status of `200` or `201` and a remote id.
abbrev pub IsSoundFinding : Finding → Type 0
IsSoundFinding f =
    f.disposition ≡ matched → is_success_evidence f.http_status f.remote_request_id ≡ true

-- The status of a match, as the adapter checks it before it reports one.
abbrev pub HasMatchStatus : ReconcileHttpOutcome → Type 0
HasMatchStatus (ReconcileHttpOutcome.match_ http_status _) =
    (http_status ≡ 200) ⊎ (http_status ≡ 201)
HasMatchStatus _ = Unit

pub finding_of-IsSoundFinding :
    (d : Disposition) (answer : ReconcileHttpOutcome)
    → HasMatchStatus answer
    → conclusion (classify_reconciliation_outcome answer).disposition ≡ some d
    → IsSoundFinding (finding_of d answer)
unfolding conclusion classify_reconciliation_outcome
finding_of-IsSoundFinding d (ReconcileHttpOutcome.match_ s i) h c m = ground arith
finding_of-IsSoundFinding d ReconcileHttpOutcome.conflict h c m = ground arith
finding_of-IsSoundFinding d ReconcileHttpOutcome.not_found h c m = ground arith
finding_of-IsSoundFinding d (ReconcileHttpOutcome.rate_limited _) h c m = ground arith
finding_of-IsSoundFinding d (ReconcileHttpOutcome.server_error _) h c m = ground arith
finding_of-IsSoundFinding d ReconcileHttpOutcome.protocol_uncertain h c m = ground arith
finding_of-IsSoundFinding d ReconcileHttpOutcome.transport_failure h c m = ground arith

module _ (is_canonical : Bytes → Bool) (strptime : Text → Option ℕ) (random : RandomSource) where
  abbrev LawfulMoment : Moment → Type 0
  LawfulMoment = Lawful is_canonical strptime random

  abbrev pub LawfulEnding : Ending → Type 0
  LawfulEnding e =
      LawfulMoment e.consume × LawfulMoment e.record_result × LawfulMoment e.append_late

  -- The other processes are the program's in every call of the round, and a match has its status.
  pub record LawfulRound (round : Round) : Type 0 where
    pub consume : LawfulMoment round.consume
    pub authorize : LawfulMoment round.authorize
    pub renewals : All LawfulMoment round.renewals
    pub answer : HasMatchStatus round.answer
    pub observe : LawfulMoment round.observe
    pub advance : LawfulMoment round.advance
    pub ending : LawfulEnding round.ending

  module _ (o : Owner) (attempt_number : ℕ) where
    abbrev pub Held : World → Type 0
    Held = Holding is_canonical strptime random o.job.job_id o.attempt.attempt_id attempt_number

    consumed_outcome-Leaves :
        (k : ℕ) (x : LateConsumption)
        → Ensures
            (λ w. Held w × Consumes (claim_of o) x w.db)
            (consumed_outcome o k (ok x))
            (Leaves Held (IsSettledIfAny o))
    unfolding consumed_outcome
    consumed_outcome-Leaves k LateConsumption.no_actionable_late_evidence =
        carry-Leaves Held (IsSettledIfAny o) none
    consumed_outcome-Leaves k LateConsumption.post_side_effect_failure =
        carry-Leaves Held (IsSettledIfAny o) (some (lost_ownership o k))
    consumed_outcome-Leaves k (LateConsumption.late_evidence_consumed j a) =
        carry-Leaves Held (IsSettledIfAny o) (some (settled j a k))

    consuming-Leaves :
        (m : Moment)
        → LawfulMoment m
        → Ensures Held (consuming random o m) (Leaves Held (Consumes (claim_of o)))
    unfolding consuming
    consuming-Leaves m lawful =
        transact-Leaves is_canonical strptime random m
          (λ now draws. consume_late_observations random (claim_of o) now) lawful o.job.job_id
          o.attempt.attempt_id attempt_number (Consumes (claim_of o))
          (λ db r db' p h. (
            consumed (claim_of o) attempt_number m.now r
                (Present-Names (claim_of o) attempt_number db p) h,
            consume_late_observations-Consumes random (claim_of o) m.now db r db' h,
          ))

    pub try_consume_late_evidence-Leaves :
        (k : ℕ) (m : Moment)
        → LawfulMoment m
        → Ensures Held (try_consume_late_evidence random o k m) (Leaves Held (IsSettledIfAny o))
    unfolding try_consume_late_evidence consumed_outcome
    try_consume_late_evidence-Leaves k m lawful =
        settle-Leaves Held (Consumes (claim_of o)) (IsSettledIfAny o) (consuming random o m)
          (consumed_outcome o k) (consuming-Leaves m lawful) (consumed_outcome-Leaves k)
          (λ e. give-Leaves Held (IsSettledIfAny o) (some (failed_persistence o k)) (λ db. tt))

    appending_late-Keeps :
        (f : Finding) (m : Moment) → LawfulMoment m → Keeps Held (appending_late o f m)
    unfolding appending_late
    appending_late-Keeps f m lawful =
        transact-Holding is_canonical strptime random m
          (λ now draws. append_late_observation (late_observation o f) now draws) lawful
          o.job.job_id o.attempt.attempt_id attempt_number
          (λ db r db' p h. observed_late (late_observation o f) m.now m.draws r h)

    recorded_outcome-Leaves :
        (k : ℕ) (f : Finding) (m : Moment) (x : ReconciliationRecord)
        → LawfulMoment m
        → Ensures
            (λ w. Held w × Finalizes (claim_of o) x w.db)
            (recorded_outcome o k f m (ok x))
            (Leaves Held (IsSettled o))
    unfolding recorded_outcome
    recorded_outcome-Leaves k f m (ReconciliationRecord.finalized j a) lawful =
        carry-Leaves Held (IsSettled o) (settled j a k)
    recorded_outcome-Leaves k f m ReconciliationRecord.post_side_effect_failure lawful = λ w h.
        settle_keeping Held (IsSettled o) (appending_late o f m) (λ _. give (lost_ownership o k))
          (appending_late-Keeps f m lawful)
          (λ _. give-Leaves Held (IsSettled o) (lost_ownership o k) (λ db. tt)) w h.0

    recording-Leaves :
        (f : Finding) (m : Moment)
        → LawfulMoment m
        → IsSoundFinding f
        → Ensures Held (recording o f m) (Leaves Held (Finalizes (claim_of o)))
    unfolding recording
    recording-Leaves f m lawful sound =
        transact-Leaves is_canonical strptime random m
          (λ now draws.
            record_reconciliation_result (claim_of o) f.disposition f.http_status
              f.remote_request_id now)
          lawful o.job.job_id o.attempt.attempt_id attempt_number (Finalizes (claim_of o))
          (λ db r db' p h. (
            reconciled (claim_of o) attempt_number f.disposition f.http_status f.remote_request_id
                m.now r (Present-Names (claim_of o) attempt_number db p) sound h,
            record_reconciliation_result-Finalizes (claim_of o) f.disposition f.http_status
                f.remote_request_id m.now db r db' sound h,
          ))

    record_finding-Leaves :
        (k : ℕ) (f : Finding) (e : Ending)
        → LawfulEnding e
        → IsSoundFinding f
        → Ensures Held (record_finding o k f e) (Leaves Held (IsSettled o))
    unfolding record_finding recorded_outcome
    record_finding-Leaves k f e lawful sound =
        settle-Leaves Held (Finalizes (claim_of o)) (IsSettled o) (recording o f e.record_result)
          (recorded_outcome o k f e.append_late) (recording-Leaves f e.record_result lawful.1 sound)
          (λ x. recorded_outcome-Leaves k f e.append_late x lawful.2)
          (λ x. give-Leaves Held (IsSettled o) (failed_persistence o k) (λ db. tt))

    pub unless_consumed-Leaves :
        {A : Type 0} (Said : A → Database → Type 0) (returned : ReconciliationOutcome → A)
        (next : Flow A) (x : Option ReconciliationOutcome)
        → ((y : ReconciliationOutcome) (db : Database) → IsSettled o y db → Said (returned y) db)
        → Ensures Held next (Leaves Held Said)
        → Ensures
            (λ w. Held w × IsSettledIfAny o x w.db)
            (unless_consumed returned next (ok x))
            (Leaves Held Said)
    unfolding unless_consumed
    unless_consumed-Leaves Said returned next none final later w h = later w h.0
    unless_consumed-Leaves Said returned next (some x) final later w h =
        carry-Leaves Held Said (returned x) w (h.0, final x w.db h.1)

    finalize-Leaves :
        (d : Disposition) (k : ℕ) (f : Finding) (e : Ending)
        → LawfulEnding e
        → IsSoundFinding f
        → Ensures Held (finalize_by d random o k f e) (Leaves Held (IsSettled o))
    unfolding finalize_by unless_consumed
    finalize-Leaves Disposition.inconclusive k f e lawful sound =
        settle-Leaves Held (IsSettledIfAny o) (IsSettled o)
          (try_consume_late_evidence random o k e.consume)
          (unless_consumed (λ x. x) (record_finding o k f e))
          (try_consume_late_evidence-Leaves k e.consume lawful.0)
          (λ x.
            unless_consumed-Leaves (IsSettled o) (λ y. y) (record_finding o k f e) x
              (λ y db final. final) (record_finding-Leaves k f e lawful sound))
          (λ x. raise-Leaves Held (IsSettled o) x)
    finalize-Leaves Disposition.matched k f e lawful sound =
        record_finding-Leaves k f e lawful sound
    finalize-Leaves Disposition.conflict k f e lawful sound =
        record_finding-Leaves k f e lawful sound
    finalize-Leaves Disposition.not_found k f e lawful sound =
        record_finding-Leaves k f e lawful sound

    pub finish-Leaves :
        (k : ℕ) (f : Finding) (e : Ending)
        → LawfulEnding e
        → IsSoundFinding f
        → Ensures Held (finish random o k f e) (Leaves Held (IsSettledIfEnded o))
    unfolding finish finalize ending_with
    finish-Leaves k f e lawful sound =
        settle-Leaves Held (IsSettled o) (IsSettledIfEnded o)
          (finalize_by f.disposition random o k f e) ending_with
          (finalize-Leaves f.disposition k f e lawful sound)
          (λ x. carry-Leaves Held (IsSettledIfEnded o) (ended x))
          (λ x. raise-Leaves Held (IsSettledIfEnded o) x)
