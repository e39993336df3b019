-- ===== src/Persistence/PreSideEffect/Steps.antt =====
-- About `_insert_job`, `_start_attempt` and `_authorize_or_defer` of
-- src/boolean_maybe/persistence/transactions.py and the invariant of the tables.
use mathlib.Core.Path.{subst}
use boolean_maybe.Prelude.{
  ℕ, suc, ◌+◌, ◌≡◌, ◌⊎◌, ◌∙◌, ap, inl, inr, Option, none, some, List, [], ◌∷◌, arith, length, any,
  false, ◌==◌,
}
use boolean_maybe.Persistence.Rows.{Ident, Instant, JobState, JobRow, AttemptRow, Database}
use boolean_maybe.Persistence.Database.{
  ok, ◌>>=◌, >>=-eq-ok, returning, ok-returning, insert_job, insert_attempt, update_job, select_job,
  attempts_of, highest_attempt, read_gate_not_before,
}
use boolean_maybe.Persistence.Lease.{later_of, blocked_until}
use boolean_maybe.Persistence.PreSideEffect.{
  Call, PreSideEffectResult, ready_to_submit, recovery_candidate, not_yet_eligible, insert_job_loop,
  insert_attempt_loop, started_attempt, start_attempt, authorize_at, authorize_or_defer,
}
use boolean_maybe.Persistence.Ledger.{IsConsistent, Life}
use boolean_maybe.Persistence.Ledger.Attempts.{highest_attempt-Life, Life-pending}
use boolean_maybe.Persistence.Ledger.Writes.{start-Advances, start-Present}
use boolean_maybe.Persistence.Ledger.Evolution.{Advances, unchanged, Present}

-- The row that the loop of `_start_attempt` inserts differs from the first one in its id alone.
insert_attempt_loop-ok :
    (a : AttemptRow) (draws : List Ident) (db : Database) (a' : AttemptRow) (db' : Database)
    → insert_attempt_loop a draws db ≡ ok (a', db')
    → (insert_attempt a' db ≡ ok db')
      × (a'.job_id ≡ a.job_id)
      × (a'.state ≡ a.state)
      × (a'.attempt_number ≡ a.attempt_number)
unfolding insert_attempt_loop
insert_attempt_loop-ok a [] db a' db' h = ground arith
insert_attempt_loop-ok a (i ∷ draws) db a' db' h =
    ground (arith, insert_attempt_loop-ok (record a { attempt_id = i }) draws db a' db')

pub insert_job_loop-ok :
    (job : JobRow) (draws : List Ident) (db : Database) (job' : JobRow) (left : List Ident)
    (db' : Database)
    → insert_job_loop job draws db ≡ ok (job', left, db')
    → (insert_job job' db ≡ ok db') × (job'.state ≡ job.state)
unfolding insert_job_loop
insert_job_loop-ok job [] db job' left db' h = ground arith
insert_job_loop-ok job (i ∷ draws) db job' left db' h =
    ground (arith, insert_job_loop-ok (record job { job_id = i }) draws db job' left db')

-- The Job is there, may start an attempt, and `n` is the number that comes next.
pub record Startable (j : JobRow) (n : ℕ) (db : Database) : Type 0 where
  pub named : select_job j.job_id db ≡ some j
  pub idle : (j.state ≡ JobState.pending) ⊎ (j.state ≡ JobState.retry_scheduled)
  pub number : n ≡ suc (length (attempts_of j.job_id db.attempts))

-- The attempt that a result names is in the tables, and one that it starts is new.
abbrev pub Shows : Database → PreSideEffectResult → Database → Type 0
Shows db (ready_to_submit j a) db' =
    Present j.job_id a.attempt_id a.attempt_number db'
    × (any (λ b. b.attempt_id == a.attempt_id) db.attempts ≡ false)
Shows db (recovery_candidate j a) db' = Present j.job_id a.attempt_id a.attempt_number db'
Shows db _ db' = Unit

-- What the whole call does to consistent tables.
pub record Decides (db : Database) (r : PreSideEffectResult) (db' : Database) : Type 0 where
  pub advances : Advances db db'
  pub shows : Shows db r db'

-- A result with the tables as they were.
pub told :
    (x r : PreSideEffectResult) (db db' : Database)
    → IsConsistent db
    → Shows db x db
    → returning x db ≡ ok (r, db')
    → Decides db r db'
told x r db db' v shows h =
    let same : db ≡ db' = ok-returning x r db db' h in
    let same_result : x ≡ r = cc in
    rw (← same, ← same_result) (record { advances = unchanged db v; shows = shows })

start_attempt-Advances :
    (call : Call) (j : JobRow) (n : ℕ) (draws : List Ident) (db : Database) (a : AttemptRow)
    (db' : Database)
    → IsConsistent db
    → Startable j n db
    → start_attempt call j n draws db ≡ ok (a, db')
    → Advances db db' × Shows db (ready_to_submit j a) db'
unfolding start_attempt
start_attempt-Advances call j n [] db a db' v s h = absurd (ground arith)
start_attempt-Advances call j n (i ∷ draws) db a db' v s h =
    let (begun, inserted, rest) =
      >>=-eq-ok (insert_attempt_loop (started_attempt call j n i) draws db)
        (λ begun. update_job j.job_id JobState.submitting call.now begun.1 >>= returning begun.0)
        h in
    let (db2, moved, last) =
      >>=-eq-ok (update_job j.job_id JobState.submitting call.now begun.1) (returning begun.0)
        rest in
    let (done, of_job, state, number) =
      insert_attempt_loop-ok (started_attempt call j n i) draws db begun.0 begun.1 inserted in
    let same_row : begun.0 ≡ a = cc in
    let moved_last : update_job (begun.0).job_id JobState.submitting call.now begun.1 ≡ ok db' =
      rw of_job (moved ∙ ap ok (ok-returning begun.0 a db2 db' last)) in
    let present = start-Present begun.0 call.now db begun.1 db' done moved_last in
    (
      start-Advances begun.0 call.now j db begun.1 db' v (rw of_job s.named) s.idle state
          (number ∙ rw of_job s.number) done moved_last,
      rw (← same_row, ← of_job) present,
    )

authorize_at-Decides :
    (call : Call) (j : JobRow) (n : ℕ) (draws : List Ident) (blocked : Option Instant)
    (db : Database) (r : PreSideEffectResult) (db' : Database)
    → IsConsistent db
    → Startable j n db
    → authorize_at call j n draws blocked db ≡ ok (r, db')
    → Decides db r db'
unfolding authorize_at
authorize_at-Decides call j n draws (some t) db r db' v s h =
    told (not_yet_eligible j t) r db db' v tt h
authorize_at-Decides call j n draws none db r db' v s h =
    let result = λ (a : AttemptRow).
      ready_to_submit (record j { state = JobState.submitting; updated_at = call.now }) a in
    let (begun, started, last) =
      >>=-eq-ok (start_attempt call j n draws db) (λ b. returning (result b.0) b.1) h in
    let same_result : result begun.0 ≡ r = cc in
    let (advances, shows) = start_attempt-Advances call j n draws db begun.0 begun.1 v s started in
    rw (← ok-returning (result begun.0) r begun.1 db' last, ← same_result)
      (record { advances = advances; shows = shows })

pub authorize_or_defer-Decides :
    (call : Call) (j : JobRow) (n : ℕ) (draws : List Ident) (eligible : Option Instant)
    (db : Database) (r : PreSideEffectResult) (db' : Database)
    → IsConsistent db
    → Startable j n db
    → authorize_or_defer call j n draws eligible db ≡ ok (r, db')
    → Decides db r db'
authorize_or_defer-Decides call j n draws eligible db r db' v s h =
    authorize_at-Decides call j n draws
      (blocked_until (later_of eligible (read_gate_not_before db)) call.now) db r db' v s
      (unfold authorize_or_defer in h)

-- In consistent tables the number that each branch computes is the next one.
module _ (call : Call) (j : JobRow) (db : Database) (v : IsConsistent db)
    (named : select_job j.job_id db ≡ some j) where
  pub pending-Startable : j.state ≡ JobState.pending → Startable j 1 db
  pending-Startable e = record {
    named = named;
    idle = inl e;
    number = ground (
      arith,
      Life-pending 1 (attempts_of j.job_id db.attempts) (omega arith)
          (subst (λ s. Life 1 s (attempts_of j.job_id db.attempts)) e (v.lives j.job_id j named)),
    );
  }

  pub retry-Startable :
      (l : AttemptRow)
      → j.state ≡ JobState.retry_scheduled
      → highest_attempt (attempts_of j.job_id db.attempts) ≡ some l
      → Startable j (l.attempt_number + 1) db
  retry-Startable l e last = record {
    named = named;
    idle = inr e;
    number = omega (
      arith,
      highest_attempt-Life 1 j.state (attempts_of j.job_id db.attempts) l (v.lives j.job_id j named)
          last,
    );
  }
