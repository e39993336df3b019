-- ===== src/Application/Submit/Rendering.antt =====
-- About `_render_reconciliation_outcome` of src/boolean_maybe/application/submit.py.
use boolean_maybe.Prelude.{
  ℕ, ◌≡◌, refl, inl, inr, Bool, false, Option, some, arith, Bool-cases, Option-cases, ◌∙◌,
  if◌then◌else◌,
}
use boolean_maybe.Persistence.Rows.{Ident, AttemptState, JobState}
use boolean_maybe.Persistence.Database.{ok}
use boolean_maybe.Persistence.Reconcile.Ended.{HasEnded}
use boolean_maybe.Application.ReconciliationSequence.{ReconciliationOutcome}
use boolean_maybe.Application.ReconciliationSequence.Sound.{IsFinal}
use boolean_maybe.Application.Submit.{
  SubmitOutcome, SuccessName, succeeded_with, job_failure, local_persistence_failure,
  ownership_lost, success, failure, submitted_of, success_of, render_state,
  render_reconciliation_outcome,
}

abbrev pub requests_of : SubmitOutcome → ℕ
requests_of (success x) = x.reconciliation_requests
requests_of (failure x) = x.reconciliation_requests

abbrev pub job_id_of : SubmitOutcome → Option Ident
job_id_of (success x) = some x.job_id
job_id_of (failure x) = x.job_id

-- The outcome that an invocation reports of a reconciliation.
pub record Renders (x : ReconciliationOutcome) (digest : Ident) (submitted : Bool) : Type 0 where
  pub outcome : SubmitOutcome
  pub returned : render_reconciliation_outcome x digest submitted ≡ ok outcome
  pub flag : submitted_of outcome ≡ submitted
  pub counted : requests_of outcome ≡ x.request_count
  pub of_job : job_id_of outcome ≡ some x.job.job_id

-- The same of the part that looks at the attempt's state.
record RendersState (x : ReconciliationOutcome) (digest : Ident) (submitted : Bool)
    (state : AttemptState) : Type 0 where
  pub outcome : SubmitOutcome
  pub returned : render_state state x digest submitted ≡ ok outcome
  pub flag : submitted_of outcome ≡ submitted
  pub counted : requests_of outcome ≡ x.request_count
  pub of_job : job_id_of outcome ≡ some x.job.job_id

state_renders :
    (x : ReconciliationOutcome) (digest : Ident) (submitted : Bool) (state : AttemptState)
    → x.attempt.state ≡ state
    → HasEnded x.attempt
    → RendersState x digest submitted state
unfolding render_state success_of
state_renders x digest submitted AttemptState.succeeded e has_ended =
    elim (Option-cases x.attempt.http_status) [
      | inl none_there ↦ absurd (ground arith)
      | inr (status, s) ↦ elim (Option-cases x.attempt.remote_request_id) [
        | inl none_there ↦ absurd (ground arith)
        | inr (i, r) ↦ record {
          outcome =
              succeeded_with SuccessName.succeeded submitted JobState.succeeded x.job x.attempt
                digest x.request_count status i;
          returned = rw (s, r) refl;
          flag = refl;
          counted = refl;
          of_job = refl;
        }
      ]
    ]
state_renders x digest submitted AttemptState.permanent_failure e has_ended = record {
  outcome = _;
  returned = refl;
  flag = refl;
  counted = refl;
  of_job = refl;
}
state_renders x digest submitted AttemptState.retryable_failure e has_ended = record {
  outcome = _;
  returned = refl;
  flag = refl;
  counted = refl;
  of_job = refl;
}
state_renders x digest submitted AttemptState.ambiguous e has_ended = record {
  outcome = _;
  returned = refl;
  flag = refl;
  counted = refl;
  of_job = refl;
}
state_renders x digest submitted AttemptState.started e has_ended = absurd (ground arith)

neither :
    {A : Type 0} (b c : Bool) (p q r : A)
    → b ≡ false
    → c ≡ false
    → (if b then p else if c then q else r) ≡ r
neither b c p q r e l = rw (e, l) refl

plain :
    (x : ReconciliationOutcome) (digest : Ident) (submitted : Bool)
    → x.persistence_failed ≡ false
    → x.ownership_lost ≡ false
    → render_reconciliation_outcome x digest submitted
      ≡ render_state x.attempt.state x digest submitted
unfolding render_reconciliation_outcome
plain x digest submitted e l = neither x.persistence_failed x.ownership_lost _ _ _ e l

-- An outcome that reports a failure, or whose attempt has ended, is rendered and no assertion fails;
-- the report carries the flag, the number of requests and the Job's id.
pub render_reconciliation_outcome-Renders :
    (x : ReconciliationOutcome) (digest : Ident) (submitted : Bool)
    → IsFinal x
    → Renders x digest submitted
render_reconciliation_outcome-Renders x digest submitted final =
    elim (Bool-cases x.persistence_failed) [
      | inl e ↦ record {
        outcome =
            job_failure local_persistence_failure submitted JobState.submitting x.job
              x.request_count;
        returned = unfold render_reconciliation_outcome in rw e refl;
        flag = refl;
        counted = refl;
        of_job = refl;
      }
      | inr e ↦ elim (Bool-cases x.ownership_lost) [
        | inl l ↦ record {
          outcome = job_failure ownership_lost submitted x.job.state x.job x.request_count;
          returned = unfold render_reconciliation_outcome in rw (e, l) refl;
          flag = refl;
          counted = refl;
          of_job = refl;
        }
        | inr l ↦
            let ended = rw (e, l) at final in
            let r = state_renders x digest submitted x.attempt.state refl ended in
            record {
              outcome = r.outcome;
              returned = plain x digest submitted e l ∙ r.returned;
              flag = r.flag;
              counted = r.counted;
              of_job = r.of_job;
            }
      ]
    ]
