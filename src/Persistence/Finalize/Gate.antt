-- ===== src/Persistence/Finalize/Gate.antt =====
-- About the gate of the service in `finalize_submission_attempt` of
-- src/boolean_maybe/persistence/transactions.py.
use mathlib.Core.Path.{subst}
use boolean_maybe.Prelude.{
  ℕ, ◌≤◌, ◌≡◌, ◌≢◌, refl, sym, ap, ◌∙◌, inl, inr, Option, none, some, List, arith, max,
  Option-cases,
}
use boolean_maybe.Domain.Backoff.{RandomSource, policy_delay_ms, effective_delay_ms}
use boolean_maybe.Domain.RetryAfter.{
  Text, Diagnostic, RetryAfterResult, accepted, rejected, parse_retry_after, server_delay_of,
}
use boolean_maybe.Persistence.Rows.{
  Ident, Instant, JobState, Category, JobRow, AttemptRow, Database, add_milliseconds,
}
use boolean_maybe.Persistence.Database.{
  ok, ◌>>=◌, >>=-eq-ok, returning, ok-returning, update_attempt, update_job, advance_gate,
  read_gate_not_before,
}
use boolean_maybe.Persistence.Lease.{Claim}
use boolean_maybe.Persistence.Lease.Ownership.{as_owner-cases}
use boolean_maybe.Persistence.Observations.{insert_submission_observation}
use boolean_maybe.Persistence.Observations.Frame.{insert_submission_observation_frame}
use boolean_maybe.Persistence.Finalize.{
  Disposition, SubmissionEvidence, SubmissionRecord, complete, gate_after, fail_retryably,
  state_after_retryable, finalize_delayed, finalize_parsed, by_disposition,
  finalize_submission_attempt,
}

complete_gate :
    (claim : Claim) (f : AttemptRow → AttemptRow) (s : JobState) (now : Instant) (db db' : Database)
    → complete claim f s now db ≡ ok db'
    → db'.gate ≡ db.gate
unfolding complete update_attempt update_job
complete_gate claim f s now db db' h = ground arith

finalize_delayed_gate :
    (delay_ms : ℕ) (diagnostic : Option Diagnostic) (claim : Claim) (n : ℕ) (e : SubmissionEvidence)
    (now : Instant) (draws : List Ident) (j : JobRow) (a : AttemptRow) (db : Database)
    (r : SubmissionRecord) (db' : Database)
    → e.error_category ≡ some Category.rate_limited
    → finalize_delayed delay_ms diagnostic claim n e now draws j a db ≡ ok (r, db')
    → db'.gate ≡ (advance_gate (add_milliseconds now delay_ms) now db).gate
unfolding finalize_delayed
finalize_delayed_gate delay_ms diagnostic claim n e now draws j a db r db' limited h =
    let f = fail_retryably now e.http_status e.error_category delay_ms in
    let (db1, inserted, rest) =
      >>=-eq-ok
        (insert_submission_observation _ now draws (gate_after e.error_category now delay_ms db))
        (λ db1. complete claim f (state_after_retryable n) now db1 >>= returning _) h in
    let (db2, done, last) =
      >>=-eq-ok (complete claim f (state_after_retryable n) now db1) (returning _) rest in
    let frame = insert_submission_observation_frame _ now draws _ db1 inserted in
    let gate2 : db2.gate ≡ db1.gate =
      complete_gate claim f (state_after_retryable n) now db1 db2 done in
    sym (ap (λ d. d.gate) (ok-returning _ r db2 db' last))
    ∙ gate2
    ∙ frame.2
    ∙ ap (λ c. (gate_after c now delay_ms db).gate) limited

-- The gate after an advance: there, at the candidate or later, and not before where it was.
record Advanced (candidate : Instant) (db db' : Database) : Type 0 where
  pub at : Instant
  pub there : read_gate_not_before db' ≡ some at
  pub reached : candidate ≤ at
  pub not_back : (g : Instant) → read_gate_not_before db ≡ some g → g ≤ at

advance_gate-Advanced :
    (candidate now : Instant) (db db' : Database)
    → db'.gate ≡ (advance_gate candidate now db).gate
    → Advanced candidate db db'
unfolding advance_gate read_gate_not_before
advance_gate-Advanced candidate now db db' h = elim (Option-cases db.gate) [
  | inl e ↦ record {
    at = candidate;
    there = ground arith;
    reached = ground arith;
    not_back = λ g q. ground arith;
  }
  | inr (g, e) ↦ record {
    at = max g.not_before candidate;
    there = ground arith;
    reached = ground arith;
    not_back = λ t q. ground arith;
  }
]

module _ (strptime : Text → Option ℕ) (random : RandomSource) (claim : Claim) (n : ℕ)
    (e : SubmissionEvidence) (now : Instant) (draws : List Ident) (db : Database)
    (r : SubmissionRecord) (db' : Database) where
  finalize_parsed-Advanced :
      (parsed : Option RetryAfterResult) (j : JobRow) (a : AttemptRow)
      → e.error_category ≡ some Category.rate_limited
      → finalize_parsed random parsed claim n e now draws j a db ≡ ok (r, db')
      → (p : RetryAfterResult) × (parsed ≡ some p)
        × Advanced
            (add_milliseconds now
              (effective_delay_ms (policy_delay_ms n random) (server_delay_of p)))
            db
            db'
  unfolding finalize_parsed
  finalize_parsed-Advanced none j a limited h = absurd (ground arith)
  finalize_parsed-Advanced (some p) j a limited h = (
    p,
    refl,
    advance_gate-Advanced _ now db db'
        (finalize_delayed_gate _ _ claim n e now draws j a db r db' limited h),
  )

  accepted_delay :
      (p : RetryAfterResult) (d : ℕ)
      → p ≡ accepted d
      → d ≤ effective_delay_ms (policy_delay_ms n random) (server_delay_of p)
  unfolding effective_delay_ms server_delay_of
  accepted_delay (accepted c) d h = ground arith
  accepted_delay (rejected c) d h = ground arith

  -- After a `429` that its owner records, the gate is closed until an instant that is not before now,
  -- not before now plus the delay that the service asked for, if that was accepted, and not before
  -- the instant that it was closed until.
  pub finalize_submission_attempt_gate :
      e.disposition ≡ Disposition.retryable_failure
      → e.error_category ≡ some Category.rate_limited
      → finalize_submission_attempt strptime random claim n e now draws db ≡ ok (r, db')
      → r ≢ SubmissionRecord.post_side_effect_failure
      → (t : Instant) × (read_gate_not_before db' ≡ some t)
        × (now ≤ t)
        × ((d : ℕ)
            → parse_retry_after strptime e.retry_after_values now ≡ some (accepted d)
            → add_milliseconds now d ≤ t)
        × ((g : Instant) → read_gate_not_before db ≡ some g → g ≤ t)
  unfolding finalize_submission_attempt by_disposition
  finalize_submission_attempt_gate retryable limited h kept =
      elim (as_owner-cases claim now SubmissionRecord.post_side_effect_failure
        (by_disposition strptime random e.disposition claim n e now draws) db r db' h) [
          | inl lost ↦ absurd (kept lost.0)
          | inr (j, a, o, done) ↦
              let done' =
                subst
                  (λ d. by_disposition strptime random d claim n e now draws j a db ≡ ok (r, db'))
                  retryable done in
              let (p, parsed, gate) =
                finalize_parsed-Advanced (parse_retry_after strptime e.retry_after_values now) j a
                  limited done' in
              (
                gate.at,
                gate.there,
                ground (arith, gate.reached),
                λ d same. ground (arith, gate.reached, accepted_delay p d),
                gate.not_back,
              )
        ]
