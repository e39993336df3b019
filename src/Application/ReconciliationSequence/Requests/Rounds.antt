-- ===== src/Application/ReconciliationSequence/Requests/Rounds.antt =====
-- About the number of requests in the rounds of `run_reconciliation_sequence` of
-- src/boolean_maybe/application/reconciliation_sequence.py.
use boolean_maybe.Prelude.{
  ℕ, suc, ◌+◌, ◌≤◌, ◌<◌, ◌≡◌, refl, Option, none, some, List, [], ◌∷◌, leb, arith, inl, inr,
  Bool-cases,
}
use boolean_maybe.Domain.Backoff.{RandomSource, policy_delay_ms, effective_delay_ms}
use boolean_maybe.Domain.RetryAfter.{Text, Diagnostic}
use boolean_maybe.Persistence.Rows.{Ident, Instant, is_rate_limited}
use boolean_maybe.Persistence.Database.{Result, ok, err}
use boolean_maybe.Persistence.Lease.{
  Authorization, reconciliation_authorized, reconciliation_ownership_lost, reconciliation_deferred,
}
use boolean_maybe.Persistence.Reconcile.{Disposition}
use boolean_maybe.Application.Classification.{
  ReconciliationEvidence, classify_reconciliation_outcome,
}
use boolean_maybe.Application.Waiting.{Waited, waited, unfit, lost}
use boolean_maybe.Application.Flow.{
  World, Flow, Request, get, give, raise, settle, transact, requested,
}
use boolean_maybe.Application.Flow.Rules.{
  Ensures, Tells, give-Tells, raise-Tells, if-Ensures, settle-Ensures, IfOk, told_ok,
}
use boolean_maybe.Application.ReconciliationSequence.{
  ReconciliationOutcome, Owner, lost_ownership, failed_persistence, try_consume_late_evidence,
  unless_consumed, inconclusive_finding, wait_renewing, max_reconciliation_requests,
}
use boolean_maybe.Application.ReconciliationSequence.Loop.{
  Round, RoundEnd, ended, going_on, conclusion, finding_of, another, after_advance, advancing,
  delaying, concluded, after_observation, appending, observing, requesting, after_wait,
  authorization, after_authorize, authorizing, run_round, next_round, run_rounds,
  run_reconciliation_sequence, server_wish, reconciliation_observation,
}
use boolean_maybe.Application.ReconciliationSequence.Requests.{
  Gets, Counted, After, ReportsIfAny, ReportsIfEnded, RoundCounted, counted, try_consume-Reports,
  finish-Reports, wait_renewing-After,
}

module _ (before : List Request) where
  module _ (strptime : Text → Option ℕ) (random : RandomSource) (o : Owner) (round : Round) where
    another-Reports :
        (k delay_ms : ℕ)
        → Ensures
            (After before k)
            (another random o k delay_ms round)
            (Tells (After before k) (ReportsIfEnded before k))
    unfolding another
    another-Reports k delay_ms = elim (Bool-cases (leb max_reconciliation_requests k)) [
      | inl full ↦ rw full (finish-Reports before random o k inconclusive_finding round.ending)
      | inr less ↦ rw less (
          give-Tells (After before k) (ReportsIfEnded before k) (going_on k _) (refl, ground arith))
    ]

    failed-Reports :
        (k : ℕ)
        → Ensures
            (After before k)
            (give (ended (failed_persistence o k)))
            (Tells (After before k) (ReportsIfEnded before k))
    failed-Reports k =
        give-Tells (After before k) (ReportsIfEnded before k) (ended (failed_persistence o k)) refl

    after_advance-Reports :
        (k delay_ms : ℕ) (x : Result {0} Unit)
        → Ensures
            (After before k)
            (after_advance random o k delay_ms round x)
            (Tells (After before k) (ReportsIfEnded before k))
    unfolding after_advance
    after_advance-Reports k delay_ms (ok _) = another-Reports k delay_ms
    after_advance-Reports k delay_ms (err e) = failed-Reports k

    delaying-Reports :
        (k : ℕ) (evidence : ReconciliationEvidence) (server_ms : Option ℕ)
        → Ensures
            (After before k)
            (delaying random o k evidence server_ms round)
            (Tells (After before k) (ReportsIfEnded before k))
    unfolding delaying advancing transact
    delaying-Reports k evidence server_ms =
        let delay_ms = effective_delay_ms (policy_delay_ms k random) server_ms in
        if-Ensures (After before k) (Tells (After before k) (ReportsIfEnded before k))
          (is_rate_limited evidence.error_category)
          (settle (advancing delay_ms round.advance) (after_advance random o k delay_ms round))
          (another random o k delay_ms round)
          (settle-Ensures (After before k) (λ _ w. After before k w)
            (Tells (After before k) (ReportsIfEnded before k)) (advancing delay_ms round.advance)
            (after_advance random o k delay_ms round) (λ w h. h) (after_advance-Reports k delay_ms))
          (another-Reports k delay_ms)

    after_observation-Reports :
        (k : ℕ) (evidence : ReconciliationEvidence) (server_ms : Option ℕ) (x : Result Ident)
        → Ensures
            (After before k)
            (after_observation random o k evidence server_ms round x)
            (Tells (After before k) (ReportsIfEnded before k))
    unfolding after_observation concluded
    after_observation-Reports k evidence server_ms (ok i) =
        concluding (conclusion evidence.disposition)
      where
        concluding :
            (c : Option Disposition)
            → Ensures
                (After before k)
                (concluded random o k evidence server_ms round c)
                (Tells (After before k) (ReportsIfEnded before k))
        concluding (some d) =
            finish-Reports before random o k (finding_of d round.answer) round.ending
        concluding none = delaying-Reports k evidence server_ms
    after_observation-Reports k evidence server_ms (err e) = failed-Reports k

    observing-Reports :
        (q : Ident) (k : ℕ) (evidence : ReconciliationEvidence)
        (wish : Option (Option ℕ × Option Diagnostic))
        → Ensures
            (After before k)
            (observing strptime random o q k evidence round wish)
            (Tells (After before k) (ReportsIfEnded before k))
    unfolding observing appending transact
    observing-Reports q k evidence none = raise-Tells (After before k) (ReportsIfEnded before k) _
    observing-Reports q k evidence (some (server_ms, diagnostic)) =
        let seen = reconciliation_observation o k round.answer evidence server_ms diagnostic in
        settle-Ensures (After before k) (λ _ w. After before k w)
          (Tells (After before k) (ReportsIfEnded before k)) (appending seen q round.observe)
          (after_observation random o k evidence server_ms round) (λ w h. h)
          (after_observation-Reports k evidence server_ms)

    requesting-Counted :
        (q : Ident) (k : ℕ)
        → k < max_reconciliation_requests
        → Ensures (After before k) (requesting strptime random o q k round) (RoundCounted before)
    unfolding requesting requested
    requesting-Counted q k less =
        let evidence = classify_reconciliation_outcome round.answer in
        let next : k + 1 ≡ suc k = omega arith in
        settle-Ensures (After before k) (λ _ w. After before (k + 1) w) (RoundCounted before)
          (requested (get o.job.idempotency_key round.answer))
          (λ _.
            observing strptime random o q (k + 1) evidence round
              (server_wish strptime evidence round.answered_at))
          (λ w h. rw next h)
          (λ _.
            counted before (k + 1)
              (observing strptime random o q (k + 1) evidence round
                (server_wish strptime evidence round.answered_at))
              (omega (arith, less))
              (observing-Reports q (k + 1) evidence
                (server_wish strptime evidence round.answered_at)))

    after_wait-Reports :
        (k : ℕ) (not_before : Option Instant) (x : Result Waited)
        → k < max_reconciliation_requests
        → Ensures
            (After before k)
            (after_wait strptime random o k not_before round x)
            (Tells (After before k) (ReportsIfEnded before k))
    unfolding after_wait
    after_wait-Reports k not_before (ok waited) less =
        give-Tells (After before k) (ReportsIfEnded before k) (going_on k not_before) (refl, less)
    after_wait-Reports k not_before (ok unfit) less =
        finish-Reports before random o k inconclusive_finding round.ending
    after_wait-Reports k not_before (ok lost) less =
        give-Tells (After before k) (ReportsIfEnded before k) (ended (lost_ownership o k)) refl
    after_wait-Reports k not_before (err e) less =
        raise-Tells (After before k) (ReportsIfEnded before k) e

    after_authorize-Counted :
        (q : Ident) (k : ℕ) (not_before : Option Instant) (x : Result Authorization)
        → k < max_reconciliation_requests
        → Ensures
            (After before k)
            (after_authorize strptime random o q k not_before round x)
            (RoundCounted before)
    unfolding after_authorize
    after_authorize-Counted q k not_before (ok reconciliation_authorized) less =
        requesting-Counted q k less
    after_authorize-Counted q k not_before (ok reconciliation_ownership_lost) less =
        counted before k _ (omega (arith, less))
          (give-Tells (After before k) (ReportsIfEnded before k) (ended (lost_ownership o k)) refl)
    after_authorize-Counted q k not_before (ok (reconciliation_deferred until)) less =
        counted before k _ (omega (arith, less)) (
          settle-Ensures (After before k) (λ _ w. After before k w)
            (Tells (After before k) (ReportsIfEnded before k))
            (wait_renewing until round.wait_from round.renewals o)
            (after_wait strptime random o k not_before round)
            (wait_renewing-After before random o k until round.wait_from round.renewals)
            (λ x. after_wait-Reports k not_before x less))
    after_authorize-Counted q k not_before (err e) less =
        counted before k _ (omega (arith, less)) (failed-Reports k)

    run_round-Counted :
        (q : Ident) (k : ℕ) (not_before : Option Instant)
        → k < max_reconciliation_requests
        → Ensures
            (After before k)
            (run_round strptime random o q k not_before round)
            (RoundCounted before)
    unfolding run_round authorizing authorization transact unless_consumed
    run_round-Counted q k not_before less =
        settle-Ensures (After before k) (Tells (After before k) (ReportsIfAny before k))
          (RoundCounted before) (try_consume_late_evidence random o k round.consume)
          (unless_consumed ended (authorizing strptime random o q k not_before round))
          (try_consume-Reports before random o k round.consume) onward
      where
        going :
            Ensures
              (After before k)
              (authorizing strptime random o q k not_before round)
              (RoundCounted before)
        going =
            settle-Ensures (After before k) (λ _ w. After before k w) (RoundCounted before)
              (authorization o not_before round.authorize)
              (after_authorize strptime random o q k not_before round) (λ w h. h)
              (λ x. after_authorize-Counted q k not_before x less)

        onward :
            (x : Result (Option ReconciliationOutcome))
            → Ensures
                (Tells (After before k) (ReportsIfAny before k) x)
                (unless_consumed ended (authorizing strptime random o q k not_before round) x)
                (RoundCounted before)
        onward (ok none) w (h, said) = going w h
        onward (ok (some y)) w (h, said) =
            counted before k (give (ended y)) (omega (arith, less))
              (give-Tells (After before k) (ReportsIfEnded before k) (ended y) (said (some y) refl))
              w h
        onward (err e) w (h, said) =
            counted before k (raise e) (omega (arith, less))
              (raise-Tells (After before k) (ReportsIfEnded before k) e) w h

  module _ (strptime : Text → Option ℕ) (random : RandomSource) (o : Owner) where
    next_round-Counted :
        (rest : ℕ → Option Instant → Flow ReconciliationOutcome) (x : Result RoundEnd)
        → ((m : ℕ) (not_before : Option Instant)
            → m < max_reconciliation_requests
            → Ensures (After before m) (rest m not_before) (Counted before))
        → Ensures (RoundCounted before x) (next_round strptime random rest x) (Counted before)
    unfolding next_round
    next_round-Counted rest (ok (ended y)) counts w c = record {
      number = c.number;
      few = c.few;
      made = c.made;
      reported = λ z e. let same : y ≡ z = cc in rw (← same) (c.reported (ended y) refl);
    }
    next_round-Counted rest (ok (going_on m not_before)) counts w c =
        let (same, less) = c.reported (going_on m not_before) refl in
        counts m not_before less w (rw same c.made)
    next_round-Counted rest (err e) counts w c = record {
      number = c.number;
      few = c.few;
      made = c.made;
      reported = λ z q. cc;
    }

    run_rounds-Counted :
        (rounds : List Round) (q : Ident) (k : ℕ) (not_before : Option Instant)
        → k < max_reconciliation_requests
        → Ensures
            (After before k)
            (run_rounds strptime random rounds o q k not_before)
            (Counted before)
    unfolding run_rounds
    run_rounds-Counted [] q k not_before less =
        λ w h. record { number = k; few = omega (arith, less); made = h; reported = λ z e. cc }
    run_rounds-Counted (round ∷ rounds) q k not_before less =
        settle-Ensures (After before k) (RoundCounted before) (Counted before)
          (run_round strptime random o q k not_before round)
          (next_round strptime random (λ m later. run_rounds strptime random rounds o q m later))
          (run_round-Counted strptime random o round q k not_before less)
          (λ x. next_round-Counted _ x (λ m later few. run_rounds-Counted rounds q m later few))

pub run_reconciliation_sequence-Counted :
    (strptime : Text → Option ℕ) (random : RandomSource) (o : Owner) (rounds : List Round)
    (sequence_id : Ident) (w : World)
    → Counted w.requests
        (run_reconciliation_sequence strptime random rounds o sequence_id w).0
        (run_reconciliation_sequence strptime random rounds o sequence_id w).1
unfolding run_reconciliation_sequence
run_reconciliation_sequence-Counted strptime random o rounds sequence_id w =
    run_rounds-Counted w.requests strptime random o rounds sequence_id 0 none (omega arith) w refl

-- At most three requests later, whose number an outcome reports.
pub record FewRequests (before : List Request) (x : Result ReconciliationOutcome) (w : World)
    : Type 0 where
  pub number : ℕ
  pub few : number ≤ max_reconciliation_requests
  pub made : Gets number before w.requests
  pub reported : IfOk (λ y. y.request_count ≡ number) x

-- A reconciliation sequence makes at most three requests, all of them reconciliations, however many
-- rounds it goes through and whatever it meets there, and what it returns reports how many it made.
pub run_reconciliation_sequence_requests :
    (strptime : Text → Option ℕ) (random : RandomSource) (o : Owner) (rounds : List Round)
    (sequence_id : Ident) (w : World)
    → FewRequests w.requests
        (run_reconciliation_sequence strptime random rounds o sequence_id w).0
        (run_reconciliation_sequence strptime random rounds o sequence_id w).1
run_reconciliation_sequence_requests strptime random o rounds sequence_id w =
    let c = run_reconciliation_sequence-Counted strptime random o rounds sequence_id w in
    record {
      number = c.number;
      few = c.few;
      made = c.made;
      reported = told_ok (λ y. y.request_count ≡ c.number) _ c.reported;
    }
