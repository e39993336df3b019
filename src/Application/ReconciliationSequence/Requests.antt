-- ===== src/Application/ReconciliationSequence/Requests.antt =====
-- About the number of requests that `run_reconciliation_sequence` of
-- src/boolean_maybe/application/reconciliation_sequence.py makes.
pub mod Rounds
use boolean_maybe.Prelude.{
  ℕ, zero, suc, ◌+◌, ◌-◌, ◌≤◌, ◌<◌, ◌≡◌, refl, min, Bool, true, false, Option, none, some, List, [],
  ◌∷◌, leb, ltb, ◌==◌, if◌then◌else◌, arith, inl, inr, Bool-cases,
}
use boolean_maybe.Domain.Backoff.{RandomSource, policy_delay_ms, effective_delay_ms}
use boolean_maybe.Domain.RetryAfter.{Text, Diagnostic}
use boolean_maybe.Persistence.Rows.{Ident, Instant, is_rate_limited}
use boolean_maybe.Persistence.Database.{Result, ok, err, Transaction}
use boolean_maybe.Persistence.Lease.{
  Authorization, reconciliation_authorized, reconciliation_ownership_lost, reconciliation_deferred,
  LeaseRenewal,
}
use boolean_maybe.Persistence.Observations.{Observed}
use boolean_maybe.Persistence.Reconcile.{Disposition, ReconciliationRecord, LateConsumption}
use boolean_maybe.Application.Classification.{
  ReconciliationEvidence, classify_reconciliation_outcome,
}
use boolean_maybe.Application.Waiting.{
  Waited, waited, unfit, lost, renewal_cadence, delay_until, remaining,
}
use boolean_maybe.Application.Flow.{
  World, Moment, Flow, Request, get, post, give, raise, settle, transact, slept, requested,
}
use boolean_maybe.Application.Flow.Rules.{
  Ensures, Keeps, Tells, give-Tells, raise-Tells, settle-Tells, Keeps-Tells, if-Ensures,
  settle-Ensures,
}
use boolean_maybe.Application.ReconciliationSequence.{
  ReconciliationOutcome, settled, Owner, lost_ownership, failed_persistence, consuming,
  consumed_outcome, try_consume_late_evidence, unless_consumed, Ending, Finding,
  inconclusive_finding, recording, appending_late, recorded_outcome, record_finding, finalize_by,
  finalize, renewal, if_renewed, renewing, wait_renewing, max_reconciliation_requests,
}
use boolean_maybe.Application.ReconciliationSequence.Loop.{
  Round, RoundEnd, ended, going_on, finish, ending_with, conclusion, finding_of, another,
  after_advance, advancing, delaying, concluded, after_observation, appending, observing,
  requesting, after_wait, authorization, after_authorize, authorizing, run_round, next_round,
  run_rounds, run_reconciliation_sequence, server_wish, reconciliation_observation,
}

-- So many reconciliation requests later, and no other.
abbrev pub Gets : ℕ → List Request → List Request → Type 0
Gets zero before later = later ≡ before
Gets (suc n) before [] = ⊥
Gets (suc n) before (get key answer ∷ later) = Gets n before later
Gets (suc n) before (post attempt_id answer ∷ later) = ⊥

-- At most three requests were made, and an outcome reports their number.
pub record Counted (before : List Request) (x : Result ReconciliationOutcome) (w : World)
    : Type 0 where
  pub number : ℕ
  pub few : number ≤ max_reconciliation_requests
  pub made : Gets number before w.requests
  pub reported : (y : ReconciliationOutcome) → x ≡ ok y → y.request_count ≡ number

module _ (before : List Request) where
  abbrev After : ℕ → World → Type 0
  After k w = Gets k before w.requests

  abbrev Reports : ℕ → ReconciliationOutcome → Type 0
  Reports k y = y.request_count ≡ k

  abbrev ReportsIfAny : ℕ → Option ReconciliationOutcome → Type 0
  ReportsIfAny k none = Unit
  ReportsIfAny k (some y) = Reports k y

  -- Another round comes only within the budget of requests.
  abbrev ReportsIfEnded : ℕ → RoundEnd → Type 0
  ReportsIfEnded k (ended y) = Reports k y
  ReportsIfEnded k (going_on m not_before) = (m ≡ k) × (m < max_reconciliation_requests)

  -- The end of a round.
  record RoundCounted (x : Result RoundEnd) (w : World) : Type 0 where
    pub number : ℕ
    pub few : number ≤ max_reconciliation_requests
    pub made : After number w
    pub reported : (y : RoundEnd) → x ≡ ok y → ReportsIfEnded number y

  counted :
      (k : ℕ) (f : Flow RoundEnd)
      → k ≤ max_reconciliation_requests
      → Ensures (After k) f (Tells (After k) (ReportsIfEnded k))
      → Ensures (After k) f RoundCounted
  counted k f few tells w h =
      let (made, reported) = tells w h in
      record { number = k; few = few; made = made; reported = reported }

  module _ (random : RandomSource) (o : Owner) where
    try_consume-Reports :
        (k : ℕ) (m : Moment)
        → Ensures
            (After k)
            (try_consume_late_evidence random o k m)
            (Tells (After k) (ReportsIfAny k))
    unfolding try_consume_late_evidence consuming transact consumed_outcome
    try_consume-Reports k m =
        settle-Ensures (After k) (λ _ w. After k w) (Tells (After k) (ReportsIfAny k))
          (consuming random o m) (consumed_outcome o k) (λ w h. h) onward
      where
        onward :
            (x : Result LateConsumption)
            → Ensures (After k) (consumed_outcome o k x) (Tells (After k) (ReportsIfAny k))
        onward (ok LateConsumption.no_actionable_late_evidence) =
            give-Tells (After k) (ReportsIfAny k) none tt
        onward (ok LateConsumption.post_side_effect_failure) =
            give-Tells (After k) (ReportsIfAny k) (some (lost_ownership o k)) refl
        onward (ok (LateConsumption.late_evidence_consumed j a)) =
            give-Tells (After k) (ReportsIfAny k) (some (settled j a k)) refl
        onward (err e) = give-Tells (After k) (ReportsIfAny k) (some (failed_persistence o k)) refl

    record_finding-Reports :
        (k : ℕ) (f : Finding) (e : Ending)
        → Ensures (After k) (record_finding o k f e) (Tells (After k) (Reports k))
    unfolding record_finding recording transact recorded_outcome appending_late
    record_finding-Reports k f e =
        settle-Ensures (After k) (λ _ w. After k w) (Tells (After k) (Reports k))
          (recording o f e.record_result) (recorded_outcome o k f e.append_late) (λ w h. h) onward
      where
        onward :
            (x : Result ReconciliationRecord)
            → Ensures
                (After k)
                (recorded_outcome o k f e.append_late x)
                (Tells (After k) (Reports k))
        onward (ok (ReconciliationRecord.finalized j a)) =
            give-Tells (After k) (Reports k) (settled j a k) refl
        onward (ok ReconciliationRecord.post_side_effect_failure) =
            settle-Ensures (After k) (λ _ w. After k w) (Tells (After k) (Reports k))
              (appending_late o f e.append_late) (λ _. give (lost_ownership o k)) (λ w h. h)
              (λ _. give-Tells (After k) (Reports k) (lost_ownership o k) refl)
        onward (err x) = give-Tells (After k) (Reports k) (failed_persistence o k) refl

    unless_consumed-Reports :
        {A : Type 0} (k : ℕ) (Said : A → Type 0) (returned : ReconciliationOutcome → A)
        (next : Flow A) (x : Option ReconciliationOutcome)
        → ((y : ReconciliationOutcome) → Reports k y → Said (returned y))
        → Ensures (After k) next (Tells (After k) Said)
        → ReportsIfAny k x
        → Ensures (After k) (unless_consumed returned next (ok x)) (Tells (After k) Said)
    unfolding unless_consumed
    unless_consumed-Reports k Said returned next none final later said = later
    unless_consumed-Reports k Said returned next (some y) final later said =
        give-Tells (After k) Said (returned y) (final y said)

    finalize_by-Reports :
        (d : Disposition) (k : ℕ) (f : Finding) (e : Ending)
        → Ensures (After k) (finalize_by d random o k f e) (Tells (After k) (Reports k))
    unfolding finalize_by unless_consumed
    finalize_by-Reports Disposition.inconclusive k f e =
        settle-Tells (After k) (ReportsIfAny k) (Reports k)
          (try_consume_late_evidence random o k e.consume)
          (unless_consumed (λ x. x) (record_finding o k f e)) (try_consume-Reports k e.consume)
          (λ x said.
            unless_consumed-Reports k (Reports k) (λ y. y) (record_finding o k f e) x (λ y r. r)
              (record_finding-Reports k f e) said)
          (λ x. raise-Tells (After k) (Reports k) x)
    finalize_by-Reports Disposition.matched k f e = record_finding-Reports k f e
    finalize_by-Reports Disposition.conflict k f e = record_finding-Reports k f e
    finalize_by-Reports Disposition.not_found k f e = record_finding-Reports k f e

    finish-Reports :
        (k : ℕ) (f : Finding) (e : Ending)
        → Ensures (After k) (finish random o k f e) (Tells (After k) (ReportsIfEnded k))
    unfolding finish finalize ending_with
    finish-Reports k f e =
        settle-Tells (After k) (Reports k) (ReportsIfEnded k)
          (finalize_by f.disposition random o k f e) ending_with
          (finalize_by-Reports f.disposition k f e)
          (λ y said. give-Tells (After k) (ReportsIfEnded k) (ended y) said)
          (λ x. raise-Tells (After k) (ReportsIfEnded k) x)

    if_renewed-After :
        (k : ℕ) (rest : Flow Waited) (r : Result LeaseRenewal)
        → Keeps (After k) rest
        → Keeps (After k) (if_renewed rest r)
    unfolding if_renewed
    if_renewed-After k rest r keeps =
        if-Ensures (After k) (λ _ w. After k w) _ rest (give lost) keeps (λ w h. h)

    renewing-After :
        (k fuel left : ℕ) (renewals : List Moment) → Keeps (After k) (renewing fuel left renewals o)
    unfolding renewing renewal transact slept
    renewing-After k zero left renewals = λ w h. h
    renewing-After k (suc fuel) zero renewals = λ w h. h
    renewing-After k (suc fuel) (suc n) [] =
        let chunk = min (suc n) renewal_cadence in
        settle-Ensures (After k) (λ _ w. After k w) (λ _ w. After k w) (slept chunk)
          (λ _. if suc n - chunk == 0 then give waited else give lost) (λ w h. h)
          (λ _.
            if-Ensures (After k) (λ _ w. After k w) (suc n - chunk == 0) (give waited) (give lost)
              (λ w h. h) (λ w h. h))
    renewing-After k (suc fuel) (suc n) (m ∷ renewals) =
        let chunk = min (suc n) renewal_cadence in
        let rest = renewing fuel (suc n - chunk) renewals o in
        settle-Ensures (After k) (λ _ w. After k w) (λ _ w. After k w) (slept chunk)
          (λ _. if suc n - chunk == 0 then give waited else settle (renewal o m) (if_renewed rest))
          (λ w h. h)
          (λ _.
            if-Ensures (After k) (λ _ w. After k w) (suc n - chunk == 0) (give waited)
              (settle (renewal o m) (if_renewed rest)) (λ w h. h)
              (settle-Ensures (After k) (λ _ w. After k w) (λ _ w. After k w) (renewal o m)
                (if_renewed rest) (λ w h. h)
                (λ r. if_renewed-After k rest r (renewing-After k fuel (suc n - chunk) renewals))))

    wait_renewing-After :
        (k : ℕ) (not_before now : Instant) (renewals : List Moment)
        → Keeps (After k) (wait_renewing not_before now renewals o)
    unfolding wait_renewing
    wait_renewing-After k not_before now renewals w =
        let delay = delay_until not_before now in
        if-Ensures (After k) (λ _ v. After k v) (ltb (remaining w.budget) delay) (give unfit)
          (renewing delay delay renewals o) (λ v h. h) (renewing-After k delay delay renewals) w
