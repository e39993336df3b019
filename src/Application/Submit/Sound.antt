-- ===== src/Application/Submit/Sound.antt =====
-- About the tables during `_dispatch_and_finalize` of src/boolean_maybe/application/submit.py.
use boolean_maybe.Prelude.{
  ℕ, ◌≡◌, Bool, true, false, Option, none, some, All, is_none, if◌then◌else◌,
}
use boolean_maybe.Domain.Backoff.{RandomSource}
use boolean_maybe.Domain.RetryAfter.{Text, Diagnostic}
use boolean_maybe.External.Outcome.{SubmitHttpOutcome}
use boolean_maybe.Persistence.Rows.{Bytes, AttemptState, Category, JobState, JobRow, AttemptRow}
use boolean_maybe.Persistence.Database.{Result, ok, err, value_error, assertion, cancelled}
use boolean_maybe.Persistence.Lease.{LeaseRenewal, lease_renewed, lease_lost}
use boolean_maybe.Persistence.Observations.{Observed, append_late_observation}
use boolean_maybe.Persistence.Finalize.{
  SubmissionEvidence, SubmissionRecord, finalize_submission_attempt,
}
use boolean_maybe.Persistence.Finalize.Ended.{Records, finalize_submission_attempt-Records}
use boolean_maybe.Persistence.Reachable.{finalized, observed_late, Reachable}
use boolean_maybe.Persistence.Ledger.Evolution.{Present}
use boolean_maybe.Persistence.Reachable.Histories.{Present-Names}
use boolean_maybe.Application.Classification.{classify_submission_outcome}
use boolean_maybe.Application.Classification.Evidence.{HasSuccessStatus, classify-IsSound}
use boolean_maybe.Application.Flow.{World, give, raise, requested, post}
use boolean_maybe.Application.Flow.Rules.{
  Ensures, Keeps, Tells, Leaves, give-Tells, raise-Tells, settle-Tells, settle-Ensures, if-Ensures,
  IfOk, told_ok, Lawful, Holding, transact-Ensures, transact-Holding, requested-Holding,
}
use boolean_maybe.Application.ReconciliationSequence.{ReconciliationOutcome, claim_of, renewal}
use boolean_maybe.Application.ReconciliationSequence.Loop.{run_reconciliation_sequence}
use boolean_maybe.Application.ReconciliationSequence.Sound.{IsSettledAs, LawfulRound}
use boolean_maybe.Application.ReconciliationSequence.Rounds.{
  renewal-Keeps, run_reconciliation_sequence-Leaves,
}
use boolean_maybe.Application.Recovery.{owner_of}
use boolean_maybe.Application.Submit.{
  SubmitOutcome, job_failure, ownership_lost, render_reconciliation_outcome,
}
use boolean_maybe.Application.Submit.Dispatch.{
  Submission, Dispatching, Dispatched, finished, retry_eligible, not_sent_evidence, is_submitted,
  late_category, late_wish, late_submission, appending_late_submission, ownership_lost_after,
  finishing, rendered, finalized_result, finalizing, retaining, after_finalize, after_answer,
  posting, after_renewal, cancelling, dispatch_and_finalize,
}

-- An attempt that is to be submitted again has both parts of its instant.
abbrev pub IsDated : Dispatched × Bool → Type 0
IsDated (finished outcome, submitted) = Unit
IsDated (retry_eligible j a, submitted) =
    (is_none a.completed_at ≡ false) × (is_none a.retry_after_ms ≡ false)

-- An answer of the adapter that reports success has the status of one.
abbrev pub IsAnswer : Option SubmitHttpOutcome → Type 0
IsAnswer none = Unit
IsAnswer (some answer) = HasSuccessStatus answer

module _ (is_canonical : Bytes → Bool) (strptime : Text → Option ℕ) (random : RandomSource) where
  -- The other processes are the program's in every call of the dispatch.
  pub record LawfulDispatch (d : Dispatching) : Type 0 where
    pub renew : Lawful is_canonical strptime random d.renew
    pub answer : IsAnswer d.answer
    pub finalize : Lawful is_canonical strptime random d.finalize
    pub append_late : Lawful is_canonical strptime random d.append_late
    pub rounds : All (LawfulRound is_canonical strptime random) d.rounds

  module _ (s : Submission) (job : JobRow) (attempt : AttemptRow) (d : Dispatching)
      (lawful : LawfulDispatch d) where
    abbrev pub P : World → Type 0
    P = Holding is_canonical strptime random job.job_id attempt.attempt_id attempt.attempt_number

    abbrev TellsDated : Result (Dispatched × Bool) → World → Type 0
    TellsDated = Tells P IsDated

    finishing-Tells :
        (submitted : Bool) (x : Result SubmitOutcome) → Ensures P (finishing submitted x) TellsDated
    finishing-Tells submitted (ok outcome) = give-Tells P IsDated (finished outcome, submitted) tt
    finishing-Tells submitted (err e) = raise-Tells P IsDated e

    rendered-Tells :
        (submitted : Bool) (x : Result ReconciliationOutcome)
        → Ensures P (rendered s submitted x) TellsDated
    unfolding rendered
    rendered-Tells submitted (ok x) =
        finishing-Tells submitted (render_reconciliation_outcome x s.digest submitted)
    rendered-Tells submitted (err e) = raise-Tells P IsDated e

    appending-Keeps : (seen : Observed) → Keeps P (appending_late_submission seen d.append_late)
    unfolding appending_late_submission
    appending-Keeps seen =
        transact-Holding is_canonical strptime random d.append_late
          (λ now draws. append_late_observation seen now draws) lawful.append_late job.job_id
          attempt.attempt_id attempt.attempt_number
          (λ db r db' p h. observed_late seen d.append_late.now d.append_late.draws r h)

    ownership_lost_after-Tells :
        (evidence : SubmissionEvidence) (category : Category)
        (wish : Option (Option ℕ × Option Diagnostic))
        → Ensures P (ownership_lost_after s job attempt evidence category d wish) TellsDated
    unfolding ownership_lost_after
    ownership_lost_after-Tells evidence category none = raise-Tells P IsDated value_error
    ownership_lost_after-Tells evidence category (some (retry_after_ms, diagnostic)) =
        let seen = late_submission attempt evidence category retry_after_ms diagnostic in
        let lost = job_failure ownership_lost (is_submitted evidence) JobState.submitting job 0 in
        settle-Ensures P (λ _ w. P w) TellsDated (appending_late_submission seen d.append_late)
          (λ _. give (finished lost, is_submitted evidence)) (appending-Keeps seen)
          (λ _. give-Tells P IsDated (finished lost, is_submitted evidence) tt)

    finalized_result-Tells :
        (submitted : Bool) (j : JobRow) (a : AttemptRow) (state : AttemptState)
        → Ensures P (finalized_result s submitted j a state) TellsDated
    unfolding finalized_result
    finalized_result-Tells submitted j a AttemptState.succeeded = finishing-Tells submitted _
    finalized_result-Tells submitted j a AttemptState.permanent_failure =
        give-Tells P IsDated (finished _, submitted) tt
    finalized_result-Tells submitted j a AttemptState.retryable_failure =
        give-Tells P IsDated (finished _, submitted) tt
    finalized_result-Tells submitted j a _ = raise-Tells P IsDated assertion

    finalizing-Tells :
        (answer : SubmitHttpOutcome)
        → HasSuccessStatus answer
        → Ensures P
            (finalizing strptime random s job attempt
              (classify_submission_outcome answer)
              d.finalize)
            (Tells P (Records (claim_of (owner_of job attempt s.invocation_token))))
    unfolding finalizing
    finalizing-Tells answer status =
        let claim = claim_of (owner_of job attempt s.invocation_token) in
        let evidence = classify_submission_outcome answer in
        transact-Ensures is_canonical strptime random d.finalize
          (λ now draws.
            finalize_submission_attempt strptime random claim attempt.attempt_number evidence now
              draws)
          lawful.finalize job.job_id attempt.attempt_id attempt.attempt_number (Records claim)
          (λ db r db' p h. (
            finalized claim attempt.attempt_number answer d.finalize.now d.finalize.draws r
                (Present-Names claim attempt.attempt_number db p) status h,
            finalize_submission_attempt-Records strptime random claim attempt.attempt_number
                evidence d.finalize.now d.finalize.draws db r db' (classify-IsSound answer status)
                h,
          ))

    retained-Tells :
        (j : JobRow) (a : AttemptRow)
        → j.job_id ≡ job.job_id
        → a.attempt_id ≡ attempt.attempt_id
        → Ensures P
            (run_reconciliation_sequence strptime random d.rounds
              (retaining strptime random s j a attempt)
              d.sequence_id)
            (Leaves P (IsSettledAs job.job_id attempt.attempt_id))
    retained-Tells j a same_job same_attempt =
        rw (← same_job, ← same_attempt)
          (run_reconciliation_sequence-Leaves is_canonical strptime random
            (retaining strptime random s j a attempt) attempt.attempt_number d.rounds d.sequence_id
            lawful.rounds)

    after_finalize-Tells :
        (evidence : SubmissionEvidence) (r : SubmissionRecord)
        → Records (claim_of (owner_of job attempt s.invocation_token)) r
        → Ensures P (after_finalize strptime random s job attempt evidence d (ok r)) TellsDated
    unfolding after_finalize
    after_finalize-Tells evidence SubmissionRecord.post_side_effect_failure said =
        let category = late_category evidence.disposition evidence.error_category in
        ownership_lost_after-Tells evidence category
          (late_wish strptime category evidence.retry_after_values d.late_from)
    after_finalize-Tells evidence (SubmissionRecord.retained j a) said =
        settle-Ensures P (Leaves P (IsSettledAs job.job_id attempt.attempt_id)) TellsDated
          (run_reconciliation_sequence strptime random d.rounds
            (retaining strptime random s j a attempt) d.sequence_id)
          (rendered s (is_submitted evidence)) (retained-Tells j a said.0 said.1)
          (λ x w h. rendered-Tells (is_submitted evidence) x w h.0)
    after_finalize-Tells evidence (SubmissionRecord.retry_scheduled j a) said =
        give-Tells P IsDated (retry_eligible j a, is_submitted evidence) said
    after_finalize-Tells evidence (SubmissionRecord.finalized j a) said =
        finalized_result-Tells (is_submitted evidence) j a a.state

    after_answer-Tells :
        (answer : Option SubmitHttpOutcome)
        → IsAnswer answer
        → Ensures P (after_answer strptime random s job attempt d answer) TellsDated
    unfolding after_answer after_finalize
    after_answer-Tells none status = give-Tells P IsDated (finished _, true) tt
    after_answer-Tells (some answer) status =
        let evidence = classify_submission_outcome answer in
        settle-Tells P (Records (claim_of (owner_of job attempt s.invocation_token))) IsDated
          (finalizing strptime random s job attempt evidence d.finalize)
          (after_finalize strptime random s job attempt evidence d) (finalizing-Tells answer status)
          (after_finalize-Tells evidence)
          (λ e. give-Tells P IsDated (finished _, is_submitted evidence) tt)

    posting-Tells : Ensures P (posting strptime random s job attempt d) TellsDated
    unfolding posting
    posting-Tells =
        settle-Ensures P (λ _ w. P w) TellsDated (requested (post attempt.attempt_id d.answer))
          (λ _. after_answer strptime random s job attempt d d.answer)
          (requested-Holding is_canonical strptime random (post attempt.attempt_id d.answer)
            job.job_id attempt.attempt_id attempt.attempt_number)
          (λ _. after_answer-Tells d.answer lawful.answer)

    after_renewal-Tells :
        (r : Result LeaseRenewal)
        → Ensures P (after_renewal strptime random s job attempt d r) TellsDated
    unfolding after_renewal
    after_renewal-Tells (err e) = give-Tells P IsDated (finished _, false) tt
    after_renewal-Tells (ok lease_lost) = give-Tells P IsDated (finished _, false) tt
    after_renewal-Tells (ok (lease_renewed until)) = posting-Tells

    cancelling-Tells : Ensures P (cancelling strptime random s job attempt d) TellsDated
    unfolding cancelling classify_submission_outcome
    cancelling-Tells =
        settle-Tells P (Records (claim_of (owner_of job attempt s.invocation_token))) IsDated
          (finalizing strptime random s job attempt not_sent_evidence d.finalize)
          (λ _. raise cancelled) (finalizing-Tells (SubmitHttpOutcome.transport_failure false) tt)
          (λ _ _. raise-Tells P IsDated cancelled) (λ e. raise-Tells P IsDated cancelled)

    pub dispatch_and_finalize-Tells :
        Ensures P (dispatch_and_finalize strptime random s job attempt d) TellsDated
    unfolding dispatch_and_finalize
    dispatch_and_finalize-Tells =
        settle-Ensures P (λ _ w. P w) TellsDated
          (renewal (owner_of job attempt s.invocation_token) d.renew)
          (λ r.
            if d.is_cancelled
            then cancelling strptime random s job attempt d
            else after_renewal strptime random s job attempt d r)
          (renewal-Keeps is_canonical strptime random (owner_of job attempt s.invocation_token)
            attempt.attempt_number d.renew lawful.renew)
          (λ r.
            if-Ensures P TellsDated d.is_cancelled (cancelling strptime random s job attempt d)
              (after_renewal strptime random s job attempt d r) cancelling-Tells
              (after_renewal-Tells r))

    -- From reachable tables in which the attempt is, its dispatch leaves reachable tables in which it
    -- is, whatever the service answers, whichever calls fail, and cancelled or not. An attempt that
    -- is to be submitted again has an instant before which it is not.
    pub dispatch_and_finalize_sound :
        (w : World)
        → Reachable is_canonical strptime random w.db
        → Present job.job_id attempt.attempt_id attempt.attempt_number w.db
        → P ((dispatch_and_finalize strptime random s job attempt d w).1)
          × IfOk IsDated (dispatch_and_finalize strptime random s job attempt d w).0
    dispatch_and_finalize_sound w reached present =
        let (held, said) = dispatch_and_finalize-Tells w (reached, present) in
        (held, told_ok IsDated _ said)
