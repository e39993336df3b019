-- ===== src/Persistence/Finalize/Steps.antt =====
-- About the branches of `finalize_submission_attempt` of
-- src/boolean_maybe/persistence/transactions.py and the invariant of the tables.
use mathlib.Core.Path.{subst}
use boolean_maybe.Prelude.{
  sym, ℕ, ◌≤◌, ◌≡◌, refl, ◌∙◌, ap, inl, inr, true, Option, none, some, List, [], ◌∷◌, arith,
}
use boolean_maybe.Domain.Backoff.{RandomSource}
use boolean_maybe.Domain.RetryAfter.{Text, Diagnostic, RetryAfterResult}
use boolean_maybe.Persistence.Rows.{Ident, Instant, JobState, JobRow, AttemptRow, Database}
use boolean_maybe.Persistence.Database.{
  is_success_evidence, ok, ◌>>=◌, >>=-eq-ok, returning, ok-returning, advance_gate,
}
use boolean_maybe.Persistence.Lease.{Claim}
use boolean_maybe.Persistence.Lease.Ownership.{as_owner-cases}
use boolean_maybe.Persistence.Observations.{Observed, insert_submission_observation}
use boolean_maybe.Persistence.Observations.Frame.{insert_submission_observation_frame}
use boolean_maybe.Persistence.Finalize.{
  Disposition, SubmissionEvidence, SubmissionRecord, succeed, fail_permanently, fail_retryably,
  complete, gate_after, state_after_retryable, finalize_succeeded, finalize_permanent,
  finalize_delayed, finalize_parsed, finalize_retained, by_disposition, finalize_submission_attempt,
}
use boolean_maybe.Persistence.Ledger.{Life, SameTables, IsConsistent}
use boolean_maybe.Persistence.Ledger.Resolves.{
  Resolves, kept, completed, Names, Owned-budget, Resolves-Advances,
}
use boolean_maybe.Persistence.Ledger.Evolution.{Advances, unchanged}
use boolean_maybe.Persistence.Ledger.Writes.{KeepsIdentity}

-- An observation is inserted and the attempt completed, from tables whose gate may be new.
recorded-Resolves :
    (claim : Claim) (now : Instant) (a : AttemptRow) (seen : Observed) (draws : List Ident)
    (f : AttemptRow → AttemptRow) (s : JobState) (x r : SubmissionRecord) (db db0 db' : Database)
    → SameTables db db0
    → KeepsIdentity f
    → Life a.attempt_number s (f a ∷ [])
    → (insert_submission_observation seen now draws db0 >>= λ db1.
        complete claim f s now db1 >>= returning x)
      ≡ ok (r, db')
    → Resolves claim now a db db'
recorded-Resolves claim now a seen draws f s x r db db0 db' same keeps life h =
    let (db1, inserted, rest) =
      >>=-eq-ok (insert_submission_observation seen now draws db0)
        (λ db1. complete claim f s now db1 >>= returning x) h in
    let (db2, done, last) = >>=-eq-ok (complete claim f s now db1) (returning x) rest in
    let frame = insert_submission_observation_frame seen now draws db0 db1 inserted in
    completed db1 f s (frame.0 ∙ same.0, frame.1 ∙ same.1) keeps life
      (done ∙ ap ok (ok-returning x r db2 db' last))

module _ (claim : Claim) (e : SubmissionEvidence) (now : Instant) (draws : List Ident) (j : JobRow)
    (a : AttemptRow) (db : Database) (r : SubmissionRecord) (db' : Database)
    (budget : (1 ≤ a.attempt_number) × (a.attempt_number ≤ 3)) where
  finalize_succeeded-Resolves :
      is_success_evidence e.http_status e.remote_request_id ≡ true
      → finalize_succeeded claim e now draws j a db ≡ ok (r, db')
      → Resolves claim now a db db'
  unfolding finalize_succeeded
  finalize_succeeded-Resolves sound h =
      recorded-Resolves claim now a _ draws (succeed now e.http_status e.remote_request_id)
        JobState.succeeded _ r db db db' (refl, refl)
        (record {
          id = λ _. refl;
          job = λ _. refl;
          number = λ _. refl;
          generation = λ a. ground arith;
        })
        (refl, budget.1, (sound, refl, refl)) h

  finalize_permanent-Resolves :
      finalize_permanent claim e now draws j a db ≡ ok (r, db') → Resolves claim now a db db'
  unfolding finalize_permanent
  finalize_permanent-Resolves h =
      recorded-Resolves claim now a _ draws (fail_permanently now e.http_status e.error_category)
        JobState.failed_permanent _ r db db db' (refl, refl)
        (record {
          id = λ _. refl;
          job = λ _. refl;
          number = λ _. refl;
          generation = λ a. ground arith;
        })
        (refl, budget.1, (refl, refl)) h

  finalize_retained-Resolves :
      finalize_retained claim e now draws j a db ≡ ok (r, db') → Resolves claim now a db db'
  unfolding finalize_retained
  finalize_retained-Resolves h =
      let (db1, inserted, last) =
        >>=-eq-ok (insert_submission_observation _ now draws db)
          (returning (SubmissionRecord.retained j a)) h in
      let frame = insert_submission_observation_frame _ now draws db db1 inserted in
      kept (rw (← ok-returning _ r db1 db' last) (frame.0, frame.1))

  finalize_delayed-Resolves :
      (delay_ms : ℕ) (diagnostic : Option Diagnostic)
      → finalize_delayed delay_ms diagnostic claim a.attempt_number e now draws j a db ≡ ok (r, db')
      → Resolves claim now a db db'
  unfolding finalize_delayed advance_gate
  finalize_delayed-Resolves delay_ms diagnostic h =
      recorded-Resolves claim now a _ draws
        (fail_retryably now e.http_status e.error_category delay_ms)
        (state_after_retryable a.attempt_number) _ r db
        (gate_after e.error_category now delay_ms db) db' (ground arith)
        (record {
          id = λ _. refl;
          job = λ _. refl;
          number = λ _. refl;
          generation = λ a. ground arith;
        })
        (ground (arith, budget)) h

module _ (strptime : Text → Option ℕ) (random : RandomSource) (claim : Claim)
    (e : SubmissionEvidence) (now : Instant) (draws : List Ident) (j : JobRow) (a : AttemptRow)
    (db : Database) (r : SubmissionRecord) (db' : Database)
    (budget : (1 ≤ a.attempt_number) × (a.attempt_number ≤ 3)) where
  finalize_parsed-Resolves :
      (parsed : Option RetryAfterResult)
      → finalize_parsed random parsed claim a.attempt_number e now draws j a db ≡ ok (r, db')
      → Resolves claim now a db db'
  unfolding finalize_parsed
  finalize_parsed-Resolves none h = absurd (ground arith)
  finalize_parsed-Resolves (some parsed) h =
      finalize_delayed-Resolves claim e now draws j a db r db' budget _ _ h

  by_disposition-Resolves :
      (d : Disposition)
      → (d ≡ Disposition.succeeded → is_success_evidence e.http_status e.remote_request_id ≡ true)
      → by_disposition strptime random d claim a.attempt_number e now draws j a db ≡ ok (r, db')
      → Resolves claim now a db db'
  unfolding by_disposition
  by_disposition-Resolves Disposition.succeeded sound h =
      finalize_succeeded-Resolves claim e now draws j a db r db' budget (sound refl) h
  by_disposition-Resolves Disposition.permanent_failure sound h =
      finalize_permanent-Resolves claim e now draws j a db r db' budget h
  by_disposition-Resolves Disposition.retryable_failure sound h = finalize_parsed-Resolves _ h
  by_disposition-Resolves Disposition.retained sound h =
      finalize_retained-Resolves claim e now draws j a db r db' budget h

-- Evidence of success is a `200` or `201` with a remote id, as the HTTP client makes it.
abbrev pub IsSound : SubmissionEvidence → Type 0
IsSound e =
    e.disposition ≡ Disposition.succeeded
    → is_success_evidence e.http_status e.remote_request_id ≡ true

-- Recording a submission's observation keeps consistent tables consistent, on every branch, if the
-- claim and the number are those of an attempt of the Job, and evidence of success is sound.
pub finalize_submission_attempt-Advances :
    (strptime : Text → Option ℕ) (random : RandomSource) (claim : Claim) (n : ℕ)
    (e : SubmissionEvidence) (now : Instant) (draws : List Ident) (db : Database)
    (r : SubmissionRecord) (db' : Database)
    → IsConsistent db
    → Names claim n db
    → IsSound e
    → finalize_submission_attempt strptime random claim n e now draws db ≡ ok (r, db')
    → Advances db db'
unfolding finalize_submission_attempt
finalize_submission_attempt-Advances strptime random claim n e now draws db r db' v names sound h =
    elim (as_owner-cases claim now SubmissionRecord.post_side_effect_failure
      (by_disposition strptime random e.disposition claim n e now draws) db r db' h) [
        | inl lost ↦ rw lost.1 (unchanged db v)
        | inr (j, a, o, done) ↦
            let budget = Owned-budget claim n now db j a v names o in
            Resolves-Advances claim n now db db' j a v names o (
              by_disposition-Resolves strptime random claim e now draws j a db r db' budget
                e.disposition sound
                (subst
                  (λ m.
                    by_disposition strptime random e.disposition claim m e now draws j a db
                    ≡ ok (r, db'))
                  (sym (names.number a o.attempt)) done))
      ]
