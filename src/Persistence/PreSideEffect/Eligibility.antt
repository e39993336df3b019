-- ===== src/Persistence/PreSideEffect/Eligibility.antt =====
-- About `_route_existing_job` of src/boolean_maybe/persistence/transactions.py: when a call may
-- submit, and the answer of a Job that is decided.
use mathlib.Core.Path.{subst}
use boolean_maybe.Prelude.{
  ℕ, ◌+◌, ◌≤◌, ◌≡◌, ◌≢◌, refl, inl, inr, Bool, true, Option, none, some, List, ◌∷◌, arith,
  Option-cases,
}
use boolean_maybe.Persistence.Rows.{
  Ident, Instant, Bytes, JobState, AttemptState, JobRow, AttemptRow, Database, add_milliseconds,
}
use boolean_maybe.Persistence.Database.{
  ok, bytes_eq, find_job_by_key, select_latest_attempt, read_gate_not_before, is_success_evidence,
}
use boolean_maybe.Persistence.Lease.{later_of, blocked_until}
use boolean_maybe.Persistence.PreSideEffect.{
  Call, PreSideEffectResult, ready_to_submit, already_completed, authorize_at, authorize_or_defer,
  retry_evidence, route_retry_scheduled, route_succeeded, route_state, route_existing_job,
  existing_job, turn, turn_for, run_supplied,
}
use boolean_maybe.Persistence.PreSideEffect.Routing.{latest-LastFits, successful}
use boolean_maybe.Persistence.Ledger.{IsConsistent}

-- An instant that is there is not after `now`.
abbrev pub HasPassed : Option Instant → Instant → Type 0
HasPassed none now = Unit
HasPassed (some t) now = t ≤ now

authorize_or_defer-ready :
    (call : Call) (job : JobRow) (n : ℕ) (draws : List Ident) (eligible : Option Instant)
    (db : Database) (j : JobRow) (a : AttemptRow) (db' : Database)
    → authorize_or_defer call job n draws eligible db ≡ ok (ready_to_submit j a, db')
    → HasPassed eligible call.now × HasPassed (read_gate_not_before db) call.now
unfolding authorize_or_defer authorize_at later_of blocked_until
authorize_or_defer-ready call job n draws none db j a db' h =
    elim (Option-cases (read_gate_not_before db)) [
      | inl e ↦ (tt, rw e tt)
      | inr (t, e) ↦ (tt, rw e (ground arith))
    ]
authorize_or_defer-ready call job n draws (some u) db j a db' h =
    elim (Option-cases (read_gate_not_before db)) [
      | inl e ↦ (ground arith, rw e tt)
      | inr (t, e) ↦ (ground arith, rw e (ground arith))
    ]

retry_evidence-ready :
    (call : Call) (job : JobRow) (l : AttemptRow) (s : AttemptState) (c : Option Instant)
    (d : Option ℕ) (db : Database) (j : JobRow) (a : AttemptRow) (db' : Database)
    → retry_evidence call job l s c d db ≡ ok (ready_to_submit j a, db')
    → (t : Instant) × (delay : ℕ) × (s ≡ AttemptState.retryable_failure)
      × (c ≡ some t)
      × (d ≡ some delay)
      × (add_milliseconds t delay ≤ call.now)
      × HasPassed (read_gate_not_before db) call.now
unfolding retry_evidence
retry_evidence-ready call job l AttemptState.retryable_failure (some t) (some delay) db j a db' h =
    let (passed, open_) =
      authorize_or_defer-ready call job (l.attempt_number + 1) call.draws
        (some (add_milliseconds t delay)) db j a db' h in
    (t, delay, refl, refl, refl, passed, open_)
retry_evidence-ready call job l _ _ _ db j a db' h = absurd (ground arith)

-- A Job that waits for its retry is submitted again only when its last attempt failed retryably, when
-- that attempt's delay is over, and when the gate of the service is open.
pub route_existing_job-retry :
    (call : Call) (job : JobRow) (db : Database) (j : JobRow) (a : AttemptRow) (db' : Database)
    → job.state ≡ JobState.retry_scheduled
    → route_existing_job call job db ≡ ok (ready_to_submit j a, db')
    → (l : AttemptRow) × (t : Instant) × (delay : ℕ) × (select_latest_attempt job.job_id db
        ≡ some l)
      × (l.state ≡ AttemptState.retryable_failure)
      × (l.completed_at ≡ some t)
      × (l.retry_after_ms ≡ some delay)
      × (add_milliseconds t delay ≤ call.now)
      × HasPassed (read_gate_not_before db) call.now
unfolding route_existing_job route_state route_retry_scheduled
route_existing_job-retry call job db j a db' e h =
    let h' = subst (λ s. route_state s call job db ≡ ok (ready_to_submit j a, db')) e h in
    elim (Option-cases (select_latest_attempt job.job_id db)) [
      | inl last ↦ absurd (ground arith)
      | inr (l, last) ↦
          let (t, delay, failed, completed, after, over, open_) =
            retry_evidence-ready call job l l.state l.completed_at l.retry_after_ms db j a db'
              (rw last at h') in
          (l, t, delay, last, failed, completed, after, over, open_)
    ]

route_state-decided :
    (s : JobState) (call : Call) (job : JobRow) (db : Database) (r : PreSideEffectResult)
    (db' : Database)
    → s ≢ JobState.pending
    → s ≢ JobState.retry_scheduled
    → route_state s call job db ≡ ok (r, db')
    → (db' ≡ db) × ((j : JobRow) (a : AttemptRow) → r ≢ ready_to_submit j a)
unfolding route_state
route_state-decided JobState.pending call job db r db' p q h = absurd (p refl)
route_state-decided JobState.retry_scheduled call job db r db' p q h = absurd (q refl)
route_state-decided JobState.succeeded call job db r db' p q h =
    (ground arith, λ j a e. ground arith)
route_state-decided JobState.submitting call job db r db' p q h =
    (ground arith, λ j a e. ground arith)
route_state-decided JobState.failed_permanent call job db r db' p q h =
    (ground arith, λ j a e. ground arith)
route_state-decided JobState.ambiguous call job db r db' p q h =
    (ground arith, λ j a e. ground arith)

-- Of the Jobs that are there, only one that is pending or waits for a retry is ever submitted: of any
-- other a call writes nothing and starts no attempt.
pub route_existing_job-decided :
    (call : Call) (job : JobRow) (db : Database) (r : PreSideEffectResult) (db' : Database)
    → job.state ≢ JobState.pending
    → job.state ≢ JobState.retry_scheduled
    → route_existing_job call job db ≡ ok (r, db')
    → (db' ≡ db) × ((j : JobRow) (a : AttemptRow) → r ≢ ready_to_submit j a)
unfolding route_existing_job
route_existing_job-decided call job db r db' p q h =
    route_state-decided job.state call job db r db' p q h

module _ (is_canonical : Bytes → Bool) where
  -- The same key and payload, once the Job has succeeded: in consistent tables the call reports at its
  -- first turn the Job and its attempt with the evidence of the success, and writes nothing.
  pub run_supplied-replay :
      (call : Call) (calls : List Call) (key : Ident) (canonical_bytes : Bytes) (db : Database)
      (job : JobRow)
      → IsConsistent db
      → find_job_by_key key db ≡ some job
      → is_canonical job.payload_canonical ≡ true
      → bytes_eq job.payload_canonical canonical_bytes ≡ true
      → job.state ≡ JobState.succeeded
      → (a : AttemptRow) × (run_supplied is_canonical (call ∷ calls) key canonical_bytes db
          ≡ ok (already_completed job a, db))
        × (is_success_evidence a.http_status a.remote_request_id ≡ true)
  unfolding run_supplied turn turn_for existing_job route_existing_job route_state route_succeeded
  run_supplied-replay call calls key canonical_bytes db job v e canonical same done =
      let named = v.keyed key job e in
      let (l, last, fits) = latest-LastFits call job db v named JobState.succeeded done (λ p. cc) in
      (
        l,
        rw (e, canonical, same, done, successful call job db v named l done last, fits.1) refl,
        fits.1,
      )
