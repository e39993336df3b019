-- ===== src/Persistence/PreSideEffect/Routing.antt =====
-- About `_route_existing_job` of src/boolean_maybe/persistence/transactions.py and the
-- invariant of the tables.
use mathlib.Core.Path.{subst}
use boolean_maybe.Prelude.{
  ℕ, ◌+◌, ◌≡◌, ◌≢◌, inl, inr, false, Option, none, some, List, [], ◌∷◌, arith, is_none,
  Option-cases, Bool-cases, refl,
}
use boolean_maybe.Persistence.Rows.{
  Ident, Instant, JobState, AttemptState, JobRow, AttemptRow, Database, add_milliseconds,
}
use boolean_maybe.Persistence.Database.{
  insert_attempt, update_job, ok, err, corruption, select_job, attempts_of, highest_attempt,
  select_latest_attempt, find_successful_attempt, is_success_evidence, select_attempt,
}
use boolean_maybe.Persistence.Lease.{is_unexpired}
use boolean_maybe.Persistence.PreSideEffect.{
  Call, PreSideEffectResult, authorize_or_defer, insert_attempt_loop, started_attempt,
  start_attempt, authorize_at, route_state, retry_evidence, already_completed, job_in_progress,
  recovery_candidate, terminal_failed_permanent, terminal_ambiguous, route_succeeded,
  submitting_evidence, route_submitting, failed_evidence, route_failed, ambiguous_evidence,
  route_ambiguous,
}
use boolean_maybe.Persistence.PreSideEffect.Steps.{
  Decides, told, pending-Startable, retry-Startable, authorize_or_defer-Decides,
}
use boolean_maybe.Persistence.Ledger.{IsConsistent, Life}
use boolean_maybe.Persistence.Ledger.Attempts.{
  select-succeeded, highest_attempt-LastFits, highest_attempt-there, highest_attempt-named,
  LastFits,
}

insert_attempt_sound : (a : AttemptRow) (db : Database) → insert_attempt a db ≢ err corruption
unfolding insert_attempt
insert_attempt_sound a db h = ground arith

insert_attempt_loop_sound :
    (a : AttemptRow) (draws : List Ident) (db : Database)
    → insert_attempt_loop a draws db ≢ err corruption
unfolding insert_attempt_loop
insert_attempt_loop_sound a [] db h = ground (arith, insert_attempt_sound a db)
insert_attempt_loop_sound a (i ∷ draws) db h = ground (
  arith,
  insert_attempt_sound a db,
  insert_attempt_loop_sound (record a { attempt_id = i }) draws db,
)

start_attempt_sound :
    (call : Call) (j : JobRow) (n : ℕ) (draws : List Ident) (db : Database)
    → start_attempt call j n draws db ≢ err corruption
unfolding start_attempt update_job
start_attempt_sound call j n [] db h = ground arith
start_attempt_sound call j n (i ∷ draws) db h =
    ground (arith, insert_attempt_loop_sound (started_attempt call j n i) draws db)

authorize_at_sound :
    (call : Call) (j : JobRow) (n : ℕ) (draws : List Ident) (blocked : Option Instant)
    (db : Database)
    → authorize_at call j n draws blocked db ≢ err corruption
unfolding authorize_at
authorize_at_sound call j n draws (some t) db h = ground arith
authorize_at_sound call j n draws none db h = ground (arith, start_attempt_sound call j n draws db)

pub authorize_or_defer_sound :
    (call : Call) (j : JobRow) (n : ℕ) (draws : List Ident) (eligible : Option Instant)
    (db : Database)
    → authorize_or_defer call j n draws eligible db ≢ err corruption
unfolding authorize_or_defer
authorize_or_defer_sound call j n draws eligible db = authorize_at_sound call j n draws _ db

module _ (call : Call) (j : JobRow) (db : Database) (v : IsConsistent db)
    (named : select_job j.job_id db ≡ some j) where
  pub latest-LastFits :
      (s : JobState)
      → j.state ≡ s
      → s ≢ JobState.pending
      → (l : AttemptRow) × (select_latest_attempt j.job_id db ≡ some l) × LastFits s l
  unfolding select_latest_attempt
  latest-LastFits s e ne =
      let life : Life 1 s (attempts_of j.job_id db.attempts) =
        subst (λ t. Life 1 t (attempts_of j.job_id db.attempts)) e (v.lives j.job_id j named) in
      let (l, last) = highest_attempt-there s (attempts_of j.job_id db.attempts) life ne in
      (
        l,
        last,
        highest_attempt-LastFits 1 s (attempts_of j.job_id db.attempts) l (omega arith) life last,
      )

  pub successful :
      (l : AttemptRow)
      → j.state ≡ JobState.succeeded
      → select_latest_attempt j.job_id db ≡ some l
      → find_successful_attempt j.job_id db ≡ some l
  unfolding select_latest_attempt find_successful_attempt
  successful l e last =
      let life : Life 1 JobState.succeeded (attempts_of j.job_id db.attempts) =
        subst (λ t. Life 1 t (attempts_of j.job_id db.attempts)) e (v.lives j.job_id j named) in
      rw (select-succeeded 1 (attempts_of j.job_id db.attempts) l (omega arith) life last)

  retry_evidence_sound :
      (l : AttemptRow) (s : AttemptState) (c : Option Instant) (d : Option ℕ)
      → s ≡ AttemptState.retryable_failure
      → is_none c ≡ false
      → is_none d ≡ false
      → retry_evidence call j l s c d db ≢ err corruption
  unfolding retry_evidence
  retry_evidence_sound l AttemptState.retryable_failure (some c) (some d) e p q h =
      authorize_or_defer_sound call j (l.attempt_number + 1) call.draws
        (some (add_milliseconds c d)) db h
  retry_evidence_sound l _ _ _ e p q h = ground arith

  pub route_state_sound : (s : JobState) → j.state ≡ s → route_state s call j db ≢ err corruption
  unfolding route_state
  route_state_sound JobState.pending e h = authorize_or_defer_sound call j 1 call.draws none db h
  route_state_sound JobState.retry_scheduled e h =
      let (l, last, fits) = latest-LastFits JobState.retry_scheduled e (λ p. cc) in
      retry_evidence_sound l l.state l.completed_at l.retry_after_ms fits.0 fits.1 fits.2
        (rw last at h)
  route_state_sound JobState.succeeded e h =
      let (l, last, fits) = latest-LastFits JobState.succeeded e (λ p. cc) in
      ground (arith, successful l e last)
  route_state_sound JobState.submitting e h =
      let (l, last, fits) = latest-LastFits JobState.submitting e (λ p. cc) in ground arith
  route_state_sound JobState.failed_permanent e h =
      let (l, last, fits) = latest-LastFits JobState.failed_permanent e (λ p. cc) in ground arith
  route_state_sound JobState.ambiguous e h =
      let (l, last, fits) = latest-LastFits JobState.ambiguous e (λ p. cc) in ground arith

module _ (call : Call) (j : JobRow) (db : Database) (r : PreSideEffectResult) (db' : Database)
    (v : IsConsistent db) (named : select_job j.job_id db ≡ some j) where
  retry_evidence-Decides :
      (l : AttemptRow) (s : AttemptState) (c : Option Instant) (d : Option ℕ)
      → j.state ≡ JobState.retry_scheduled
      → highest_attempt (attempts_of j.job_id db.attempts) ≡ some l
      → retry_evidence call j l s c d db ≡ ok (r, db')
      → Decides db r db'
  unfolding retry_evidence
  retry_evidence-Decides l AttemptState.retryable_failure (some c) (some d) e last h =
      authorize_or_defer-Decides call j (l.attempt_number + 1) call.draws
        (some (add_milliseconds c d)) db r db' v (retry-Startable call j db v named l e last) h
  retry_evidence-Decides l _ _ _ e last h = absurd (ground arith)

  route_succeeded-Decides :
      (o : Option AttemptRow) → route_succeeded j o db ≡ ok (r, db') → Decides db r db'
  unfolding route_succeeded
  route_succeeded-Decides none h = absurd (ground arith)
  route_succeeded-Decides (some a) h =
      elim (Bool-cases (is_success_evidence a.http_status a.remote_request_id)) [
        | inl good ↦ told (already_completed j a) r db db' v tt (rw good at h)
        | inr bad ↦ absurd (ground arith)
      ]

  submitting_evidence-Decides :
      (l : AttemptRow) (s : AttemptState)
      → highest_attempt (attempts_of j.job_id db.attempts) ≡ some l
      → submitting_evidence call j l s db ≡ ok (r, db')
      → Decides db r db'
  unfolding submitting_evidence select_attempt
  submitting_evidence-Decides l AttemptState.started last h =
      let (there, of_job) = highest_attempt-named j.job_id db.attempts l v.distinct last in
      elim (Bool-cases (is_unexpired l.lease_expires_at call.now)) [
        | inl held ↦ told (job_in_progress j) r db db' v tt (rw held at h)
        | inr expired ↦
            told (recovery_candidate j l) r db db' v
              (record { row = l; there = there; of_job = of_job; number = refl }) (rw expired at h)
      ]
  submitting_evidence-Decides l _ last h = absurd (ground arith)

  route_failed-Decides :
      (l : AttemptRow) (s : AttemptState)
      → failed_evidence j l s db ≡ ok (r, db')
      → Decides db r db'
  unfolding failed_evidence
  route_failed-Decides l AttemptState.permanent_failure h =
      told (terminal_failed_permanent j l) r db db' v tt h
  route_failed-Decides l AttemptState.retryable_failure h =
      told (terminal_failed_permanent j l) r db db' v tt h
  route_failed-Decides l _ h = absurd (ground arith)

  route_ambiguous-Decides :
      (l : AttemptRow) (s : AttemptState)
      → ambiguous_evidence j l s db ≡ ok (r, db')
      → Decides db r db'
  unfolding ambiguous_evidence
  route_ambiguous-Decides l AttemptState.ambiguous h = told (terminal_ambiguous j l) r db db' v tt h
  route_ambiguous-Decides l _ h = absurd (ground arith)

  pub route_state-Decides :
      (s : JobState) → j.state ≡ s → route_state s call j db ≡ ok (r, db') → Decides db r db'
  unfolding route_state
  route_state-Decides JobState.pending e h =
      authorize_or_defer-Decides call j 1 call.draws none db r db' v
        (pending-Startable call j db v named e) h
  route_state-Decides JobState.retry_scheduled e h =
      elim (Option-cases (select_latest_attempt j.job_id db)) [
        | inl e0 ↦ absurd (ground arith)
        | inr (l, last) ↦
            retry_evidence-Decides l l.state l.completed_at l.retry_after_ms e
              (unfold select_latest_attempt in last) (rw last at h)
      ]
  route_state-Decides JobState.succeeded e h =
      route_succeeded-Decides (find_successful_attempt j.job_id db) h
  route_state-Decides JobState.submitting e h =
      elim (Option-cases (select_latest_attempt j.job_id db)) [
        | inl e0 ↦ absurd (unfold route_submitting in ground arith)
        | inr (l, last) ↦
            submitting_evidence-Decides l l.state (unfold select_latest_attempt in last)
              (unfold route_submitting in (rw last at h))
      ]
  route_state-Decides JobState.failed_permanent e h =
      elim (Option-cases (select_latest_attempt j.job_id db)) [
        | inl e0 ↦ absurd (unfold route_failed in ground arith)
        | inr (l, last) ↦ route_failed-Decides l l.state (unfold route_failed in (rw last at h))
      ]
  route_state-Decides JobState.ambiguous e h =
      elim (Option-cases (select_latest_attempt j.job_id db)) [
        | inl e0 ↦ absurd (unfold route_ambiguous in ground arith)
        | inr (l, last) ↦
            route_ambiguous-Decides l l.state (unfold route_ambiguous in (rw last at h))
      ]
