-- ===== src/Persistence/Finalize/Ended.antt =====
-- What `finalize_submission_attempt` of src/boolean_maybe/persistence/transactions.py returns.
use mathlib.Core.Path.{subst}
use boolean_maybe.Prelude.{
  ℕ, ◌≡◌, refl, inl, inr, true, false, Option, none, some, List, arith, is_none, ltb, Bool-cases,
}
use boolean_maybe.Domain.Backoff.{RandomSource}
use boolean_maybe.Domain.RetryAfter.{Text, Diagnostic, RetryAfterResult}
use boolean_maybe.Persistence.Rows.{
  Ident, Instant, JobState, AttemptState, JobRow, AttemptRow, Database,
}
use boolean_maybe.Persistence.Database.{ok, ◌>>=◌, >>=-eq-ok, returning, is_success_evidence}
use boolean_maybe.Persistence.Lease.{Claim}
use boolean_maybe.Persistence.Lease.Ownership.{as_owner-cases, select_job-id, select_attempt-id}
use boolean_maybe.Persistence.Observations.{insert_submission_observation}
use boolean_maybe.Persistence.Finalize.{
  Disposition, SubmissionEvidence, SubmissionRecord, finalized, retry_scheduled, retained,
  post_side_effect_failure, complete, moved, succeed, fail_permanently, fail_retryably, gate_after,
  retry_record, max_submission_attempts, state_after_retryable, finalize_succeeded,
  finalize_permanent, finalize_delayed, finalize_parsed, finalize_retained, by_disposition,
  finalize_submission_attempt,
}
use boolean_maybe.Persistence.Finalize.Steps.{IsSound}

-- A finalized attempt succeeded with evidence or failed, one to be retried has the parts of its
-- instant, and one that is retained is the claimed one.
abbrev pub Records : Claim → SubmissionRecord → Type 0
Records claim (finalized j a) = elim a.state [
  | AttemptState.succeeded ↦ is_success_evidence a.http_status a.remote_request_id ≡ true
  | AttemptState.permanent_failure ↦ Unit
  | AttemptState.retryable_failure ↦ Unit
  | _ ↦ ⊥
]
Records claim (retry_scheduled j a) =
    (is_none a.completed_at ≡ false) × (is_none a.retry_after_ms ≡ false)
Records claim (retained j a) = (j.job_id ≡ claim.job_id) × (a.attempt_id ≡ claim.attempt_id)
Records claim post_side_effect_failure = Unit

module _ (claim : Claim) (e : SubmissionEvidence) (now : Instant) (draws : List Ident) (j : JobRow)
    (a : AttemptRow) (db : Database) (r : SubmissionRecord) (db' : Database) where
  finalize_succeeded-Records :
      is_success_evidence e.http_status e.remote_request_id ≡ true
      → finalize_succeeded claim e now draws j a db ≡ ok (r, db')
      → Records claim r
  unfolding finalize_succeeded
  finalize_succeeded-Records sound h =
      let f = succeed now e.http_status e.remote_request_id in
      let x = finalized (moved JobState.succeeded now j) (f a) in
      let (db1, inserted, rest) =
        >>=-eq-ok (insert_submission_observation _ now draws db)
          (λ d. complete claim f JobState.succeeded now d >>= returning x) h in
      let (db2, done, last) =
        >>=-eq-ok (complete claim f JobState.succeeded now db1) (returning x) rest in
      let same : x ≡ r = cc in subst (Records claim) same sound

  finalize_permanent-Records :
      finalize_permanent claim e now draws j a db ≡ ok (r, db') → Records claim r
  unfolding finalize_permanent
  finalize_permanent-Records h =
      let f = fail_permanently now e.http_status e.error_category in
      let x = finalized (moved JobState.failed_permanent now j) (f a) in
      let (db1, inserted, rest) =
        >>=-eq-ok (insert_submission_observation _ now draws db)
          (λ d. complete claim f JobState.failed_permanent now d >>= returning x) h in
      let (db2, done, last) =
        >>=-eq-ok (complete claim f JobState.failed_permanent now db1) (returning x) rest in
      let same : x ≡ r = cc in subst (Records claim) same tt

  finalize_delayed-Records :
      (delay_ms : ℕ) (diagnostic : Option Diagnostic) (n : ℕ)
      → finalize_delayed delay_ms diagnostic claim n e now draws j a db ≡ ok (r, db')
      → Records claim r
  unfolding finalize_delayed
  finalize_delayed-Records delay_ms diagnostic n h =
      let f = fail_retryably now e.http_status e.error_category delay_ms in
      let s = state_after_retryable n in
      let x = retry_record n (moved s now j) (f a) in
      let (db1, inserted, rest) =
        >>=-eq-ok
          (insert_submission_observation _ now draws (gate_after e.error_category now delay_ms db))
          (λ d. complete claim f s now d >>= returning x) h in
      let (db2, done, last) = >>=-eq-ok (complete claim f s now db1) (returning x) rest in
      let same : x ≡ r = cc in
      subst (Records claim) same (elim (Bool-cases (ltb n max_submission_attempts)) [
        | inl less ↦ rw less (refl, refl)
        | inr more ↦ rw more tt
      ])

  finalize_parsed-Records :
      (random : RandomSource) (parsed : Option RetryAfterResult) (n : ℕ)
      → finalize_parsed random parsed claim n e now draws j a db ≡ ok (r, db')
      → Records claim r
  unfolding finalize_parsed
  finalize_parsed-Records random none n h = absurd (ground arith)
  finalize_parsed-Records random (some parsed) n h = finalize_delayed-Records _ _ n h

  finalize_retained-Records :
      j.job_id ≡ claim.job_id
      → a.attempt_id ≡ claim.attempt_id
      → finalize_retained claim e now draws j a db ≡ ok (r, db')
      → Records claim r
  unfolding finalize_retained
  finalize_retained-Records of_job of_attempt h =
      let (db1, inserted, last) =
        >>=-eq-ok (insert_submission_observation _ now draws db) (returning (retained j a)) h in
      let same : retained j a ≡ r = cc in subst (Records claim) same (of_job, of_attempt)

  by_disposition-Records :
      (strptime : Text → Option ℕ) (random : RandomSource) (n : ℕ) (d : Disposition)
      → (d ≡ Disposition.succeeded → is_success_evidence e.http_status e.remote_request_id ≡ true)
      → j.job_id ≡ claim.job_id
      → a.attempt_id ≡ claim.attempt_id
      → by_disposition strptime random d claim n e now draws j a db ≡ ok (r, db')
      → Records claim r
  unfolding by_disposition
  by_disposition-Records strptime random n Disposition.succeeded sound p q h =
      finalize_succeeded-Records (sound refl) h
  by_disposition-Records strptime random n Disposition.permanent_failure sound p q h =
      finalize_permanent-Records h
  by_disposition-Records strptime random n Disposition.retryable_failure sound p q h =
      finalize_parsed-Records random _ n h
  by_disposition-Records strptime random n Disposition.retained sound p q h =
      finalize_retained-Records p q h

pub finalize_submission_attempt-Records :
    (strptime : Text → Option ℕ) (random : RandomSource) (claim : Claim) (n : ℕ)
    (e : SubmissionEvidence) (now : Instant) (draws : List Ident) (db : Database)
    (r : SubmissionRecord) (db' : Database)
    → IsSound e
    → finalize_submission_attempt strptime random claim n e now draws db ≡ ok (r, db')
    → Records claim r
unfolding finalize_submission_attempt
finalize_submission_attempt-Records strptime random claim n e now draws db r db' sound h =
    elim (as_owner-cases claim now post_side_effect_failure
      (by_disposition strptime random e.disposition claim n e now draws) db r db' h) [
        | inl lost ↦ rw lost.0 tt
        | inr (j, a, o, done) ↦
            by_disposition-Records claim e now draws j a db r db' strptime random n e.disposition
              sound (select_job-id claim.job_id db j o.job)
              (select_attempt-id claim.attempt_id db a o.attempt) done
      ]
