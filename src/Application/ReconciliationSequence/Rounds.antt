-- ===== src/Application/ReconciliationSequence/Rounds.antt =====
-- About the rounds of `run_reconciliation_sequence` of
-- src/boolean_maybe/application/reconciliation_sequence.py and the tables.
use boolean_maybe.Prelude.{
  ℕ, zero, suc, ◌+◌, ◌-◌, ◌≡◌, refl, min, Bool, Option, none, some, List, [], ◌∷◌, leb, ltb, ◌==◌,
  if◌then◌else◌, All,
}
use boolean_maybe.Domain.Backoff.{RandomSource, policy_delay_ms, effective_delay_ms}
use boolean_maybe.Domain.RetryAfter.{Text, Diagnostic}
use boolean_maybe.Persistence.Rows.{Ident, Instant, Bytes, Database, is_rate_limited}
use boolean_maybe.Persistence.Database.{Result, ok, err, value_error}
use boolean_maybe.Persistence.Lease.{
  Authorization, reconciliation_authorized, reconciliation_ownership_lost, reconciliation_deferred,
  LeaseRenewal, renew_lease, lease_seconds_default, authorize_reconciliation_request,
}
use boolean_maybe.Persistence.Observations.{Observed, append_observation}
use boolean_maybe.Persistence.Reconcile.{Disposition, advance_gate_for_reconciliation_rate_limit}
use boolean_maybe.Persistence.Ledger.Evolution.{Present}
use boolean_maybe.Persistence.Reachable.{Reachable, renewed, authorized, observed, gate_advanced}
use boolean_maybe.Persistence.Reachable.Histories.{Present-Names}
use boolean_maybe.Application.Classification.{
  ReconciliationEvidence, classify_reconciliation_outcome,
}
use boolean_maybe.Application.Waiting.{
  Waited, waited, unfit, lost, renewal_cadence, delay_until, remaining,
}
use boolean_maybe.Application.Flow.{World, Moment, Flow, give, settle, slept, requested, get}
use boolean_maybe.Application.Flow.Rules.{
  Ensures, Keeps, Leaves, give-Leaves, carry-Leaves, raise-Leaves, settle-Leaves, Keeps-Tells,
  if-Ensures, IfOk, told_ok, settle-Ensures, Lawful, transact-Holding, slept-Holding,
  requested-Holding,
}
use boolean_maybe.Application.ReconciliationSequence.{
  ReconciliationOutcome, Owner, claim_of, lost_ownership, failed_persistence,
  try_consume_late_evidence, unless_consumed, inconclusive_finding, renewal, if_renewed, renewing,
  wait_renewing, max_reconciliation_requests,
}
use boolean_maybe.Application.ReconciliationSequence.Loop.{
  Round, RoundEnd, ended, going_on, finish, conclusion, finding_of, another, after_advance,
  advancing, delaying, concluded, after_observation, appending, observing, requesting, after_wait,
  authorization, after_authorize, authorizing, run_round, next_round, run_rounds,
  run_reconciliation_sequence, server_wish, reconciliation_observation,
}
use boolean_maybe.Application.ReconciliationSequence.Sound.{
  IsSettled, IsSettledIfAny, IsSettledIfEnded, finding_of-IsSoundFinding, LawfulRound, Held,
  finish-Leaves, try_consume_late_evidence-Leaves, unless_consumed-Leaves,
}

module _ (is_canonical : Bytes → Bool) (strptime : Text → Option ℕ) (random : RandomSource)
    (o : Owner) (attempt_number : ℕ) where
  abbrev pub P : World → Type 0
  P = Held is_canonical strptime random o attempt_number

  abbrev LawfulMoment : Moment → Type 0
  LawfulMoment = Lawful is_canonical strptime random

  pub renewal-Keeps : (m : Moment) → LawfulMoment m → Keeps P (renewal o m)
  unfolding renewal
  renewal-Keeps m lawful =
      transact-Holding is_canonical strptime random m
        (λ now draws. renew_lease (claim_of o) lease_seconds_default now) lawful o.job.job_id
        o.attempt.attempt_id attempt_number
        (λ db r db' p h.
          renewed (claim_of o) attempt_number lease_seconds_default m.now r
            (Present-Names (claim_of o) attempt_number db p) h)

  if_renewed-Keeps :
      (rest : Flow Waited) (r : Result LeaseRenewal) → Keeps P rest → Keeps P (if_renewed rest r)
  unfolding if_renewed
  if_renewed-Keeps rest r keeps = if-Ensures P (λ _ w. P w) _ rest (give lost) keeps (λ w h. h)

  renewing-Keeps :
      (fuel left : ℕ) (renewals : List Moment)
      → All LawfulMoment renewals
      → Keeps P (renewing fuel left renewals o)
  unfolding renewing
  renewing-Keeps zero left renewals lawful = λ w h. h
  renewing-Keeps (suc fuel) zero renewals lawful = λ w h. h
  renewing-Keeps (suc fuel) (suc n) [] lawful =
      let chunk = min (suc n) renewal_cadence in
      settle-Ensures P (λ _ w. P w) (λ _ w. P w) (slept chunk)
        (λ _. if suc n - chunk == 0 then give waited else give lost)
        (slept-Holding is_canonical strptime random chunk o.job.job_id o.attempt.attempt_id
          attempt_number)
        (λ _.
          if-Ensures P (λ _ w. P w) (suc n - chunk == 0) (give waited) (give lost) (λ w h. h)
            (λ w h. h))
  renewing-Keeps (suc fuel) (suc n) (m ∷ renewals) lawful =
      let chunk = min (suc n) renewal_cadence in
      let rest = renewing fuel (suc n - chunk) renewals o in
      settle-Ensures P (λ _ w. P w) (λ _ w. P w) (slept chunk)
        (λ _. if suc n - chunk == 0 then give waited else settle (renewal o m) (if_renewed rest))
        (slept-Holding is_canonical strptime random chunk o.job.job_id o.attempt.attempt_id
          attempt_number)
        (λ _.
          if-Ensures P (λ _ w. P w) (suc n - chunk == 0) (give waited)
            (settle (renewal o m) (if_renewed rest)) (λ w h. h)
            (settle-Ensures P (λ _ w. P w) (λ _ w. P w) (renewal o m) (if_renewed rest)
              (renewal-Keeps m lawful.0)
              (λ r.
                if_renewed-Keeps rest r (renewing-Keeps fuel (suc n - chunk) renewals lawful.1))))

  wait_renewing-Keeps :
      (not_before now : Instant) (renewals : List Moment)
      → All LawfulMoment renewals
      → Keeps P (wait_renewing not_before now renewals o)
  unfolding wait_renewing
  wait_renewing-Keeps not_before now renewals lawful w =
      let delay = delay_until not_before now in
      if-Ensures P (λ _ v. P v) (ltb (remaining w.budget) delay) (give unfit)
        (renewing delay delay renewals o) (λ v h. h) (renewing-Keeps delay delay renewals lawful) w

  advancing-Keeps : (delay_ms : ℕ) (m : Moment) → LawfulMoment m → Keeps P (advancing delay_ms m)
  unfolding advancing
  advancing-Keeps delay_ms m lawful =
      transact-Holding is_canonical strptime random m
        (λ now draws. advance_gate_for_reconciliation_rate_limit delay_ms now) lawful o.job.job_id
        o.attempt.attempt_id attempt_number (λ db r db' p h. gate_advanced delay_ms m.now h)

  appending-Keeps :
      (seen : Observed) (q : Ident) (m : Moment) → LawfulMoment m → Keeps P (appending seen q m)
  unfolding appending
  appending-Keeps seen q m lawful =
      transact-Holding is_canonical strptime random m
        (λ now draws. append_observation seen q now draws) lawful o.job.job_id o.attempt.attempt_id
        attempt_number (λ db r db' p h. observed seen q m.now m.draws r h)

  authorization-Keeps :
      (not_before : Option Instant) (m : Moment)
      → LawfulMoment m
      → Keeps P (authorization o not_before m)
  unfolding authorization
  authorization-Keeps not_before m lawful =
      transact-Holding is_canonical strptime random m
        (λ now draws.
          authorize_reconciliation_request (claim_of o) lease_seconds_default now not_before)
        lawful o.job.job_id o.attempt.attempt_id attempt_number
        (λ db r db' p h.
          authorized (claim_of o) attempt_number lease_seconds_default m.now not_before r
            (Present-Names (claim_of o) attempt_number db p) h)

  module _ (round : Round) (lawful : LawfulRound is_canonical strptime random round) where
    abbrev LeavesEnd : Result RoundEnd → World → Type 0
    LeavesEnd = Leaves P (IsSettledIfEnded o)

    ended-Leaves :
        (x : ReconciliationOutcome)
        → ((db : Database) → IsSettled o x db)
        → Ensures P (give (ended x)) LeavesEnd
    ended-Leaves x final = give-Leaves P (IsSettledIfEnded o) (ended x) final

    inconclusive-Leaves :
        (k : ℕ) → Ensures P (finish random o k inconclusive_finding round.ending) LeavesEnd
    inconclusive-Leaves k =
        finish-Leaves is_canonical strptime random o attempt_number k inconclusive_finding
          round.ending lawful.ending (λ m. cc)

    another-Leaves : (k delay_ms : ℕ) → Ensures P (another random o k delay_ms round) LeavesEnd
    unfolding another
    another-Leaves k delay_ms =
        if-Ensures P LeavesEnd (leb max_reconciliation_requests k)
          (finish random o k inconclusive_finding round.ending) (give (going_on k _))
          (inconclusive-Leaves k) (give-Leaves P (IsSettledIfEnded o) (going_on k _) (λ db. tt))

    delaying-Leaves :
        (k : ℕ) (evidence : ReconciliationEvidence) (server_ms : Option ℕ)
        → Ensures P (delaying random o k evidence server_ms round) LeavesEnd
    unfolding delaying after_advance
    delaying-Leaves k evidence server_ms =
        let delay_ms = effective_delay_ms (policy_delay_ms k random) server_ms in
        if-Ensures P LeavesEnd (is_rate_limited evidence.error_category)
          (settle (advancing delay_ms round.advance) (after_advance random o k delay_ms round))
          (another random o k delay_ms round)
          (settle-Leaves P (λ _ _. Unit) (IsSettledIfEnded o) (advancing delay_ms round.advance)
            (after_advance random o k delay_ms round)
            (Keeps-Tells P (advancing delay_ms round.advance)
              (advancing-Keeps delay_ms round.advance lawful.advance))
            (λ _ w h. another-Leaves k delay_ms w h.0)
            (λ e. ended-Leaves (failed_persistence o k) (λ db. tt)))
          (another-Leaves k delay_ms)

    concluded-Leaves :
        (k : ℕ) (server_ms : Option ℕ) (c : Option Disposition)
        → conclusion (classify_reconciliation_outcome round.answer).disposition ≡ c
        → Ensures P
            (concluded random o k (classify_reconciliation_outcome round.answer) server_ms round c)
            LeavesEnd
    unfolding concluded
    concluded-Leaves k server_ms (some d) e =
        finish-Leaves is_canonical strptime random o attempt_number k (finding_of d round.answer)
          round.ending lawful.ending (finding_of-IsSoundFinding d round.answer lawful.answer e)
    concluded-Leaves k server_ms none e =
        delaying-Leaves k (classify_reconciliation_outcome round.answer) server_ms

    observing-Leaves :
        (q : Ident) (k : ℕ) (wish : Option (Option ℕ × Option Diagnostic))
        → Ensures P
            (observing strptime random o q k
              (classify_reconciliation_outcome round.answer)
              round
              wish)
            LeavesEnd
    unfolding observing after_observation
    observing-Leaves q k none = raise-Leaves P (IsSettledIfEnded o) value_error
    observing-Leaves q k (some (server_ms, diagnostic)) =
        let evidence = classify_reconciliation_outcome round.answer in
        let seen = reconciliation_observation o k round.answer evidence server_ms diagnostic in
        settle-Leaves P (λ _ _. Unit) (IsSettledIfEnded o) (appending seen q round.observe)
          (after_observation random o k evidence server_ms round)
          (Keeps-Tells P (appending seen q round.observe)
            (appending-Keeps seen q round.observe lawful.observe))
          (λ _ w h. concluded-Leaves k server_ms (conclusion evidence.disposition) refl w h.0)
          (λ e. ended-Leaves (failed_persistence o k) (λ db. tt))

    requesting-Leaves :
        (q : Ident) (k : ℕ) → Ensures P (requesting strptime random o q k round) LeavesEnd
    unfolding requesting
    requesting-Leaves q k =
        let evidence = classify_reconciliation_outcome round.answer in
        settle-Ensures P (λ _ w. P w) LeavesEnd (requested (get o.job.idempotency_key round.answer))
          (λ _.
            observing strptime random o q (k + 1) evidence round
              (server_wish strptime evidence round.answered_at))
          (requested-Holding is_canonical strptime random (get o.job.idempotency_key round.answer)
            o.job.job_id o.attempt.attempt_id attempt_number)
          (λ _. observing-Leaves q (k + 1) (server_wish strptime evidence round.answered_at))

    after_wait-Leaves :
        (k : ℕ) (not_before : Option Instant) (x : Result Waited)
        → Ensures P (after_wait strptime random o k not_before round x) LeavesEnd
    unfolding after_wait
    after_wait-Leaves k not_before (ok waited) =
        give-Leaves P (IsSettledIfEnded o) (going_on k not_before) (λ db. tt)
    after_wait-Leaves k not_before (ok unfit) = inconclusive-Leaves k
    after_wait-Leaves k not_before (ok lost) = ended-Leaves (lost_ownership o k) (λ db. tt)
    after_wait-Leaves k not_before (err e) = raise-Leaves P (IsSettledIfEnded o) e

    after_authorize-Leaves :
        (q : Ident) (k : ℕ) (not_before : Option Instant) (x : Result Authorization)
        → Ensures P (after_authorize strptime random o q k not_before round x) LeavesEnd
    unfolding after_authorize
    after_authorize-Leaves q k not_before (ok reconciliation_authorized) = requesting-Leaves q k
    after_authorize-Leaves q k not_before (ok reconciliation_ownership_lost) =
        ended-Leaves (lost_ownership o k) (λ db. tt)
    after_authorize-Leaves q k not_before (ok (reconciliation_deferred until)) =
        settle-Ensures P (λ _ w. P w) LeavesEnd
          (wait_renewing until round.wait_from round.renewals o)
          (after_wait strptime random o k not_before round)
          (wait_renewing-Keeps until round.wait_from round.renewals lawful.renewals)
          (after_wait-Leaves k not_before)
    after_authorize-Leaves q k not_before (err e) = ended-Leaves (failed_persistence o k) (λ db. tt)

    authorizing-Leaves :
        (q : Ident) (k : ℕ) (not_before : Option Instant)
        → Ensures P (authorizing strptime random o q k not_before round) LeavesEnd
    unfolding authorizing
    authorizing-Leaves q k not_before =
        settle-Ensures P (λ _ w. P w) LeavesEnd (authorization o not_before round.authorize)
          (after_authorize strptime random o q k not_before round)
          (authorization-Keeps not_before round.authorize lawful.authorize)
          (after_authorize-Leaves q k not_before)

    run_round-Leaves :
        (q : Ident) (k : ℕ) (not_before : Option Instant)
        → Ensures P (run_round strptime random o q k not_before round) LeavesEnd
    unfolding run_round unless_consumed
    run_round-Leaves q k not_before =
        settle-Leaves P (IsSettledIfAny o) (IsSettledIfEnded o)
          (try_consume_late_evidence random o k round.consume)
          (unless_consumed ended (authorizing strptime random o q k not_before round))
          (try_consume_late_evidence-Leaves is_canonical strptime random o attempt_number k
            round.consume lawful.consume)
          (λ x.
            unless_consumed-Leaves is_canonical strptime random o attempt_number
              (IsSettledIfEnded o) ended (authorizing strptime random o q k not_before round) x
              (λ y db final. final) (authorizing-Leaves q k not_before))
          (λ e. raise-Leaves P (IsSettledIfEnded o) e)

  run_rounds-Leaves :
      (rounds : List Round) (q : Ident) (k : ℕ) (not_before : Option Instant)
      → All (LawfulRound is_canonical strptime random) rounds
      → Ensures P (run_rounds strptime random rounds o q k not_before) (Leaves P (IsSettled o))
  unfolding run_rounds next_round
  run_rounds-Leaves [] q k not_before lawful = raise-Leaves P (IsSettled o) _
  run_rounds-Leaves (round ∷ rounds) q k not_before lawful =
      settle-Leaves P (IsSettledIfEnded o) (IsSettled o)
        (run_round strptime random o q k not_before round)
        (next_round strptime random (λ m later. run_rounds strptime random rounds o q m later))
        (run_round-Leaves round lawful.0 q k not_before)
        (onward (λ m later. run_rounds-Leaves rounds q m later lawful.1))
        (λ e. raise-Leaves P (IsSettled o) e)
    where
      onward :
          ((m : ℕ) (later : Option Instant)
            → Ensures P (run_rounds strptime random rounds o q m later) (Leaves P (IsSettled o)))
          → (x : RoundEnd)
          → Ensures
              (λ w. P w × IsSettledIfEnded o x w.db)
              (next_round strptime random
                (λ m later. run_rounds strptime random rounds o q m later)
                (ok x))
              (Leaves P (IsSettled o))
      onward rest (ended x) = carry-Leaves P (IsSettled o) x
      onward rest (going_on m later) = λ w h. rest m later w h.0

  pub run_reconciliation_sequence-Leaves :
      (rounds : List Round) (sequence_id : Ident)
      → All (LawfulRound is_canonical strptime random) rounds
      → Ensures P
          (run_reconciliation_sequence strptime random rounds o sequence_id)
          (Leaves P (IsSettled o))
  unfolding run_reconciliation_sequence
  run_reconciliation_sequence-Leaves rounds sequence_id lawful =
      run_rounds-Leaves rounds sequence_id 0 none lawful

  -- Whatever other processes of the program commit meanwhile, and whichever calls fail, the sequence
  -- commits transactions of the program alone: from reachable tables in which its attempt is, it
  -- leaves reachable tables in which it is. Where it returns and reports neither a failure nor a lost
  -- ownership, its attempt has ended, and as a success only with the evidence of one: the tables that
  -- it leaves have the returned rows under the ids of the Job and the attempt.
  pub run_reconciliation_sequence_sound :
      (rounds : List Round) (sequence_id : Ident) (w : World)
      → All (LawfulRound is_canonical strptime random) rounds
      → Reachable is_canonical strptime random w.db
      → Present o.job.job_id o.attempt.attempt_id attempt_number w.db
      → P ((run_reconciliation_sequence strptime random rounds o sequence_id w).1)
        × IfOk
            (λ x.
              IsSettled o x
                (run_reconciliation_sequence strptime random rounds o sequence_id w).1.db)
            (run_reconciliation_sequence strptime random rounds o sequence_id w).0
  run_reconciliation_sequence_sound rounds sequence_id w lawful reached present =
      let (held, said) =
        run_reconciliation_sequence-Leaves rounds sequence_id lawful w (reached, present) in
      (held, told_ok (λ x. IsSettled o x _) _ said)
