-- ===== src/Application/Submit/Posts.antt =====
-- About the requests of `_dispatch_and_finalize` of src/boolean_maybe/application/submit.py.
use mathlib.Core.Path.{subst}
use boolean_maybe.Prelude.{
  ℕ, zero, ◌≤◌, ◌≡◌, ◌≢◌, ◌⊎◌, inl, inr, refl, Bool, true, false, Option, none, some, List, ◌∷◌,
  arith, if◌then◌else◌,
}
use boolean_maybe.Domain.Backoff.{RandomSource}
use boolean_maybe.Domain.RetryAfter.{Text, Diagnostic}
use boolean_maybe.External.Outcome.{SubmitHttpOutcome}
use boolean_maybe.Persistence.Rows.{JobState, AttemptState, Category, JobRow, AttemptRow}
use boolean_maybe.Persistence.Database.{Result, ok, err, value_error, assertion, cancelled}
use boolean_maybe.Persistence.Lease.{LeaseRenewal, lease_renewed, lease_lost}
use boolean_maybe.Persistence.Finalize.{SubmissionEvidence, SubmissionRecord}
use boolean_maybe.Application.Classification.{classify_submission_outcome}
use boolean_maybe.Application.Flow.{World, Request, post, give, raise, settle, transact, requested}
use boolean_maybe.Application.Flow.Rules.{Ensures, settle-Ensures, if-Ensures, IfOk, told_ok}
use boolean_maybe.Application.ReconciliationSequence.{
  ReconciliationOutcome, renewal, max_reconciliation_requests,
}
use boolean_maybe.Application.ReconciliationSequence.Loop.{run_reconciliation_sequence}
use boolean_maybe.Application.ReconciliationSequence.Requests.{Gets, Counted}
use boolean_maybe.Application.ReconciliationSequence.Requests.Rounds.{
  run_reconciliation_sequence-Counted,
}
use boolean_maybe.Application.Recovery.{owner_of}
use boolean_maybe.Application.Submit.{
  SubmitOutcome, job_failure, ownership_lost, render_reconciliation_outcome,
}
use boolean_maybe.Application.Submit.Dispatch.{
  Submission, Dispatching, Dispatched, finished, not_sent_evidence, is_submitted, late_category,
  late_wish, late_submission, appending_late_submission, ownership_lost_after, finishing, rendered,
  finalized_result, finalizing, retaining, after_finalize, after_answer, posting, after_renewal,
  cancelling, dispatch_and_finalize,
}

-- The adapter did not show that no byte of the request was sent; an exception shows nothing.
abbrev pub may_be_sent : Option SubmitHttpOutcome → Bool
may_be_sent none = true
may_be_sent (some (SubmitHttpOutcome.transport_failure begun)) = begun
may_be_sent (some _) = true

-- The flag that comes with a result.
abbrev pub Flagged : Bool → Result (Dispatched × Bool) → Type 0
Flagged flag x = (r : Dispatched × Bool) → x ≡ ok r → r.1 ≡ flag

-- One submission of the attempt and then at most three reconciliations, with that flag.
pub record SubmittedOnce (before : List Request) (attempt : AttemptRow) (d : Dispatching)
    (x : Result (Dispatched × Bool)) (w : World) : Type 0 where
  pub number : ℕ
  pub few : number ≤ max_reconciliation_requests
  pub made : Gets number (post attempt.attempt_id d.answer ∷ before) w.requests
  pub flagged : IfOk (λ r. r.1 ≡ may_be_sent d.answer) x

module _ (before : List Request) (attempt : AttemptRow) (d : Dispatching) where
  abbrev posted : List Request
  posted = post attempt.attempt_id d.answer ∷ before

  -- One submission of the attempt, and at most three reconciliations after it.
  pub record OncePosted (x : Result (Dispatched × Bool)) (w : World) : Type 0 where
    pub number : ℕ
    pub few : number ≤ max_reconciliation_requests
    pub made : Gets number posted w.requests
    pub flagged : Flagged (may_be_sent d.answer) x

  abbrev pub NotPosted : Result (Dispatched × Bool) → World → Type 0
  NotPosted x w = (w.requests ≡ before) × Flagged false x

  abbrev Sent : World → Type 0
  Sent w = w.requests ≡ posted

  Gave : (r : Dispatched × Bool) → r.1 ≡ may_be_sent d.answer → Ensures Sent (give r) OncePosted
  Gave r flag w h = record {
    number = zero;
    few = omega arith;
    made = h;
    flagged = λ q e. let same : r ≡ q = cc in rw (← same) flag;
  }

  Raised :
      (x : Result (Dispatched × Bool))
      → ((r : Dispatched × Bool) → x ≢ ok r)
      → Ensures Sent (λ w. (x, w)) OncePosted
  Raised x failed w h = record {
    number = zero;
    few = omega arith;
    made = h;
    flagged = λ q e. absurd (failed q e);
  }

  finishing-OncePosted :
      (x : Result SubmitOutcome) → Ensures Sent (finishing (may_be_sent d.answer) x) OncePosted
  finishing-OncePosted (ok outcome) = Gave (finished outcome, may_be_sent d.answer) refl
  finishing-OncePosted (err e) = Raised (err e) (λ r h. cc)

  module _ (strptime : Text → Option ℕ) (random : RandomSource) (s : Submission)
      (job : JobRow) where
    finishing-after :
        (x : Result SubmitOutcome) (n : ℕ)
        → n ≤ max_reconciliation_requests
        → Ensures (λ w. Gets n posted w.requests) (finishing (may_be_sent d.answer) x) OncePosted
    finishing-after (ok outcome) n few w h = record {
      number = n;
      few = few;
      made = h;
      flagged =
          λ q e. let same : (finished outcome, may_be_sent d.answer) ≡ q = cc in rw (← same) refl;
    }
    finishing-after (err x) n few w h = record {
      number = n;
      few = few;
      made = h;
      flagged = λ q e. cc;
    }

    rendered-OncePosted :
        (x : Result ReconciliationOutcome)
        → Ensures (Counted posted x) (rendered s (may_be_sent d.answer) x) OncePosted
    unfolding rendered
    rendered-OncePosted (ok y) w c =
        finishing-after (render_reconciliation_outcome y s.digest (may_be_sent d.answer)) c.number
          c.few w c.made
    rendered-OncePosted (err e) w c = record {
      number = c.number;
      few = c.few;
      made = c.made;
      flagged = λ q h. cc;
    }

    retained-OncePosted :
        (j : JobRow) (a : AttemptRow)
        → Ensures Sent
            (settle
              (run_reconciliation_sequence strptime random d.rounds
                (retaining strptime random s j a attempt)
                d.sequence_id)
              (rendered s (may_be_sent d.answer)))
            OncePosted
    retained-OncePosted j a =
        let sequence =
          run_reconciliation_sequence strptime random d.rounds
            (retaining strptime random s j a attempt) d.sequence_id in
        settle-Ensures Sent (Counted posted) OncePosted sequence (rendered s (may_be_sent d.answer))
          (λ w h.
            subst (λ b. Counted b (sequence w).0 (sequence w).1) h
              (run_reconciliation_sequence-Counted strptime random
                (retaining strptime random s j a attempt) d.rounds d.sequence_id w))
          rendered-OncePosted

    ownership_lost_after-OncePosted :
        (evidence : SubmissionEvidence) (category : Category)
        (wish : Option (Option ℕ × Option Diagnostic))
        → is_submitted evidence ≡ may_be_sent d.answer
        → Ensures Sent (ownership_lost_after s job attempt evidence category d wish) OncePosted
    unfolding ownership_lost_after appending_late_submission transact
    ownership_lost_after-OncePosted evidence category none flag =
        Raised (err value_error) (λ r h. cc)
    ownership_lost_after-OncePosted evidence category (some (retry_after_ms, diagnostic)) flag =
        let lost = job_failure ownership_lost (is_submitted evidence) JobState.submitting job 0 in
        settle-Ensures Sent (λ _ w. Sent w) OncePosted
          (appending_late_submission
            (late_submission attempt evidence category retry_after_ms diagnostic) d.append_late)
          (λ _. give (finished lost, is_submitted evidence)) (λ w h. h)
          (λ _. Gave (finished lost, is_submitted evidence) flag)

    finalized_result-OncePosted :
        (j : JobRow) (a : AttemptRow) (state : AttemptState)
        → Ensures Sent (finalized_result s (may_be_sent d.answer) j a state) OncePosted
    unfolding finalized_result
    finalized_result-OncePosted j a AttemptState.succeeded = finishing-OncePosted _
    finalized_result-OncePosted j a AttemptState.permanent_failure =
        Gave (finished _, may_be_sent d.answer) refl
    finalized_result-OncePosted j a AttemptState.retryable_failure =
        Gave (finished _, may_be_sent d.answer) refl
    finalized_result-OncePosted j a _ = Raised (err assertion) (λ r h. cc)

    after_finalize-OncePosted :
        (evidence : SubmissionEvidence) (r : Result SubmissionRecord)
        → is_submitted evidence ≡ may_be_sent d.answer
        → Ensures Sent (after_finalize strptime random s job attempt evidence d r) OncePosted
    unfolding after_finalize
    after_finalize-OncePosted evidence (err e) flag = Gave (finished _, is_submitted evidence) flag
    after_finalize-OncePosted evidence (ok SubmissionRecord.post_side_effect_failure) flag =
        let category = late_category evidence.disposition evidence.error_category in
        ownership_lost_after-OncePosted evidence category
          (late_wish strptime category evidence.retry_after_values d.late_from) flag
    after_finalize-OncePosted evidence (ok (SubmissionRecord.retained j a)) flag =
        rw flag (retained-OncePosted j a)
    after_finalize-OncePosted evidence (ok (SubmissionRecord.retry_scheduled j a)) flag =
        Gave _ flag
    after_finalize-OncePosted evidence (ok (SubmissionRecord.finalized j a)) flag =
        rw flag (finalized_result-OncePosted j a a.state)

-- The flag of an answer is that of its evidence.
is_submitted-classify :
    (answer : SubmitHttpOutcome)
    → is_submitted (classify_submission_outcome answer) ≡ may_be_sent (some answer)
unfolding is_submitted classify_submission_outcome
is_submitted-classify (SubmitHttpOutcome.success s i) = refl
is_submitted-classify SubmitHttpOutcome.validation_rejected = refl
is_submitted-classify SubmitHttpOutcome.idempotency_conflict = refl
is_submitted-classify (SubmitHttpOutcome.rate_limited values) = refl
is_submitted-classify (SubmitHttpOutcome.server_error s) = refl
is_submitted-classify SubmitHttpOutcome.protocol_uncertain = refl
is_submitted-classify (SubmitHttpOutcome.transport_failure true) = refl
is_submitted-classify (SubmitHttpOutcome.transport_failure false) = refl

module _ (strptime : Text → Option ℕ) (random : RandomSource) (s : Submission) (job : JobRow)
    (attempt : AttemptRow) (d : Dispatching) (before : List Request) where
  after_answer-OncePosted :
      (answer : Option SubmitHttpOutcome)
      → d.answer ≡ answer
      → Ensures
          (Sent before attempt d)
          (after_answer strptime random s job attempt d answer)
          (OncePosted before attempt d)
  unfolding after_answer finalizing transact
  after_answer-OncePosted none e = Gave before attempt d (finished _, true) (rw e refl)
  after_answer-OncePosted (some answer) e =
      let evidence = classify_submission_outcome answer in
      settle-Ensures (Sent before attempt d) (λ _ w. Sent before attempt d w)
        (OncePosted before attempt d) (finalizing strptime random s job attempt evidence d.finalize)
        (after_finalize strptime random s job attempt evidence d) (λ w h. h)
        (λ r.
          after_finalize-OncePosted before attempt d strptime random s job evidence r
            (rw e (is_submitted-classify answer)))

  abbrev Unchanged : World → Type 0
  Unchanged w = w.requests ≡ before

  -- What a dispatch requests, and the flag that says so.
  abbrev pub Accounted : Result (Dispatched × Bool) → World → Type 0
  Accounted x w = NotPosted before attempt d x w ⊎ OncePosted before attempt d x w

  posting-Accounted : Ensures Unchanged (posting strptime random s job attempt d) Accounted
  unfolding posting requested
  posting-Accounted =
      settle-Ensures Unchanged (λ _ w. Sent before attempt d w) Accounted
        (requested (post attempt.attempt_id d.answer))
        (λ _. after_answer strptime random s job attempt d d.answer) (λ w h. rw h refl)
        (λ _ w h. inr (after_answer-OncePosted d.answer refl w h))

  unsent : (r : Dispatched) → Ensures Unchanged (give (r, false)) Accounted
  unsent r w h = inl (h, λ q e. let same : (r, false) ≡ q = cc in rw (← same) refl)

  after_renewal-Accounted :
      (r : Result LeaseRenewal)
      → Ensures Unchanged (after_renewal strptime random s job attempt d r) Accounted
  unfolding after_renewal
  after_renewal-Accounted (err e) = unsent (finished _)
  after_renewal-Accounted (ok lease_lost) = unsent (finished _)
  after_renewal-Accounted (ok (lease_renewed until)) = posting-Accounted

  cancelling-Accounted : Ensures Unchanged (cancelling strptime random s job attempt d) Accounted
  unfolding cancelling finalizing transact
  cancelling-Accounted =
      settle-Ensures Unchanged (λ _ w. Unchanged w) Accounted
        (finalizing strptime random s job attempt not_sent_evidence d.finalize)
        (λ _. raise cancelled) (λ w h. h) (λ _ w h. inl (h, λ q e. cc))

  pub dispatch_and_finalize-Accounted :
      Ensures Unchanged (dispatch_and_finalize strptime random s job attempt d) Accounted
  unfolding dispatch_and_finalize renewal transact
  dispatch_and_finalize-Accounted =
      settle-Ensures Unchanged (λ _ w. Unchanged w) Accounted
        (renewal (owner_of job attempt s.invocation_token) d.renew)
        (λ r.
          if d.is_cancelled
          then cancelling strptime random s job attempt d
          else after_renewal strptime random s job attempt d r)
        (λ w h. h)
        (λ r.
          if-Ensures Unchanged Accounted d.is_cancelled (cancelling strptime random s job attempt d)
            (after_renewal strptime random s job attempt d r) cancelling-Accounted
            (after_renewal-Accounted r))

  -- The dispatch of an attempt submits it at most once, and makes at most three reconciliation
  -- requests after that. The flag that it returns is set exactly when it submitted the attempt and the
  -- adapter did not report that no byte was sent.
  pub dispatch_and_finalize_requests :
      (w : World)
      → w.requests ≡ before
      → (((dispatch_and_finalize strptime random s job attempt d w).1.requests ≡ before)
          × IfOk (λ r. r.1 ≡ false) (dispatch_and_finalize strptime random s job attempt d w).0)
        ⊎ SubmittedOnce before attempt d
            (dispatch_and_finalize strptime random s job attempt d w).0
            (dispatch_and_finalize strptime random s job attempt d w).1
  dispatch_and_finalize_requests w same = elim (dispatch_and_finalize-Accounted w same) [
    | inl (kept, flag) ↦ inl (kept, told_ok (λ r. r.1 ≡ false) _ flag)
    | inr c ↦ inr (record {
      number = c.number;
      few = c.few;
      made = c.made;
      flagged = told_ok (λ r. r.1 ≡ may_be_sent d.answer) _ c.flagged;
    })
  ]
