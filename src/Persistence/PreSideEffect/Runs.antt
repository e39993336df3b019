-- ===== src/Persistence/PreSideEffect/Runs.antt =====
-- About one turn of the loop of `run_pre_side_effect_transaction`, of
-- src/boolean_maybe/persistence/transactions.py.
use boolean_maybe.Prelude.{
  ◌≡◌, ◌≢◌, refl, ◌∙◌, inl, inr, Bool, true, none, some, List, [], ◌∷◌, arith, Bool-cases,
  Option-cases,
}
use boolean_maybe.Persistence.Rows.{Bytes, Ident, JobState, JobRow, Database}
use boolean_maybe.Persistence.Database.{
  Result, ok, err, integrity, corruption, bytes_eq, insert_job, select_job, find_job_by_key,
}
use boolean_maybe.Persistence.PreSideEffect.{
  Call, PreSideEffectResult, authorize_or_defer, route_existing_job, insert_job_loop, pending_job,
  Turn, returned, again, ready_to_submit, recovery_candidate, already_completed,
  terminal_failed_permanent, terminal_ambiguous, idempotency_conflict, not_yet_eligible,
  job_in_progress, finished, after_insert, create_job, existing_job, turn_for, turn,
}
use boolean_maybe.Persistence.PreSideEffect.Steps.{
  Decides, Shows, told, Startable, insert_job_loop-ok, authorize_or_defer-Decides,
}
use boolean_maybe.Persistence.PreSideEffect.Routing.{
  route_state-Decides, route_state_sound, authorize_or_defer_sound,
}
use boolean_maybe.Persistence.Ledger.{IsConsistent}
use boolean_maybe.Persistence.Ledger.Select.{job_named-append, job_named-none}
use boolean_maybe.Persistence.Ledger.Evolution.{Evolves-trans, JobsStay-trans}
use boolean_maybe.Persistence.Ledger.Writes.{insert_job-ok, insert_job-Advances}

-- The new Job that `create_job` inserts may start its first attempt.
created-Startable :
    (job : JobRow) (db db' : Database)
    → IsConsistent db
    → job.state ≡ JobState.pending
    → insert_job job db ≡ ok db'
    → Startable job 1 db'
unfolding select_job
created-Startable job db db' v e h =
    let (fresh, shape) = insert_job-ok job db db' h in
    record {
      named = rw shape (ground (arith, job_named-append job.job_id job db.jobs fresh));
      idle = inl e;
      number = rw shape (ground (arith, v.orphans job.job_id, job_named-none job.job_id db.jobs));
    }

-- What one turn does: nothing, or what the call does.
abbrev pub Turns : Database → Turn → Database → Type 0
Turns db (returned r) db' = Decides db r db'
Turns db again db' = db' ≡ db

finished-Turns :
    (db : Database) (x : Result (PreSideEffectResult × Database)) (t : Turn) (db' : Database)
    → ((r : PreSideEffectResult) → x ≡ ok (r, db') → Decides db r db')
    → finished x ≡ ok (t, db')
    → Turns db t db'
finished-Turns db (ok (r, db1)) (returned r') db' decides h =
    let same : r ≡ r' = cc in rw (← same) (decides r (ground arith))
finished-Turns db (ok (r, db1)) again db' decides h = absurd (ground arith)
finished-Turns db (err e) t db' decides h = absurd (ground arith)

-- A transaction that leaves the attempts alone comes before the decision.
Shows-after :
    (db db1 : Database) (r : PreSideEffectResult) (db' : Database)
    → db1.attempts ≡ db.attempts
    → Shows db1 r db'
    → Shows db r db'
Shows-after db db1 (ready_to_submit j a) db' same shows = rw (← same) shows
Shows-after db db1 (recovery_candidate j a) db' same shows = shows
Shows-after db db1 (already_completed j a) db' same shows = tt
Shows-after db db1 (terminal_failed_permanent j a) db' same shows = tt
Shows-after db db1 (terminal_ambiguous j a) db' same shows = tt
Shows-after db db1 idempotency_conflict db' same shows = tt
Shows-after db db1 (not_yet_eligible j t) db' same shows = tt
Shows-after db db1 (job_in_progress j) db' same shows = tt

after_insert-Decides :
    (call : Call) (job : JobRow) (draws : List Ident) (db : Database)
    (x : Result (JobRow × List Ident × Database)) (t : Turn) (db' : Database)
    → IsConsistent db
    → job.state ≡ JobState.pending
    → insert_job_loop job draws db ≡ x
    → after_insert call db x ≡ ok (t, db')
    → Turns db t db'
unfolding after_insert
after_insert-Decides call job draws db (ok (job', left, db1)) t db' v e i h =
    let (done, state) = insert_job_loop-ok job draws db job' left db1 i in
    let inserted = insert_job-Advances job' db db1 v (state ∙ e) done in
    let (fresh, shape) = insert_job-ok job' db db1 done in
    finished-Turns db (authorize_or_defer call job' 1 left none db1) t db'
      (λ r authorized.
        let decided =
          authorize_or_defer-Decides call job' 1 left none db1 r db' inserted.consistent
            (created-Startable job' db db1 v (state ∙ e) done) authorized in
        record {
          advances = record {
            consistent = decided.advances.consistent;
            evolves =
                Evolves-trans db.attempts db1.attempts db'.attempts inserted.evolves
                  decided.advances.evolves;
            jobs = JobsStay-trans db.jobs db1.jobs db'.jobs inserted.jobs decided.advances.jobs;
          };
          shows = Shows-after db db1 r db' (rw shape refl) decided.shows;
        })
      h
after_insert-Decides call job draws db (err (integrity c)) (returned r) db' v e i h =
    absurd (ground arith)
after_insert-Decides call job draws db (err (integrity c)) again db' v e i h = ground arith
after_insert-Decides call job draws db (err x) t db' v e i h = absurd (ground arith)

create_job-Decides :
    (call : Call) (key : Ident) (canonical_bytes : Bytes) (draws : List Ident) (db : Database)
    (t : Turn) (db' : Database)
    → IsConsistent db
    → create_job call key canonical_bytes draws db ≡ ok (t, db')
    → Turns db t db'
unfolding create_job pending_job
create_job-Decides call key canonical_bytes [] db t db' v h = absurd (ground arith)
create_job-Decides call key canonical_bytes (i ∷ draws) db t db' v h =
    after_insert-Decides call (pending_job call i key canonical_bytes) draws db _ t db' v refl refl
      h

insert_job_sound : (job : JobRow) (db : Database) → insert_job job db ≢ err corruption
unfolding insert_job
insert_job_sound job db h = ground arith

insert_job_loop_sound :
    (job : JobRow) (draws : List Ident) (db : Database)
    → insert_job_loop job draws db ≢ err corruption
unfolding insert_job_loop
insert_job_loop_sound job [] db h = ground (arith, insert_job_sound job db)
insert_job_loop_sound job (i ∷ draws) db h =
    ground
      (arith, insert_job_sound job db, insert_job_loop_sound (record job { job_id = i }) draws db)

finished_sound :
    (x : Result (PreSideEffectResult × Database)) → x ≢ err corruption → finished x ≢ err corruption
finished_sound (ok (r, db)) ne h = ground arith
finished_sound (err e) ne h = ground arith

after_insert_sound :
    (call : Call) (db : Database) (x : Result (JobRow × List Ident × Database))
    → x ≢ err corruption
    → after_insert call db x ≢ err corruption
unfolding after_insert
after_insert_sound call db (ok (job, left, db1)) ne h =
    finished_sound (authorize_or_defer call job 1 left none db1)
      (authorize_or_defer_sound call job 1 left none db1) h
after_insert_sound call db (err (integrity c)) ne h = ground arith
after_insert_sound call db (err x) ne h = ground arith

create_job_sound :
    (call : Call) (key : Ident) (canonical_bytes : Bytes) (draws : List Ident) (db : Database)
    → create_job call key canonical_bytes draws db ≢ err corruption
unfolding create_job
create_job_sound call key canonical_bytes [] db h = ground arith
create_job_sound call key canonical_bytes (i ∷ draws) db h =
    after_insert_sound call db _
      (insert_job_loop_sound (pending_job call i key canonical_bytes) draws db) h

module _ (is_canonical : Bytes → Bool) where
  -- Every stored payload is canonical, as `_verify_payload_canonical` demands.
  abbrev pub AllCanonical : Database → Type 0
  AllCanonical db =
      (key : Ident) (j : JobRow)
      → find_job_by_key key db ≡ some j
      → is_canonical j.payload_canonical ≡ true

  module _ (call : Call) (key : Ident) (canonical_bytes : Bytes) (db : Database)
      (v : IsConsistent db) where
    existing_job-Decides :
        (j : JobRow) (r : PreSideEffectResult) (db' : Database)
        → select_job j.job_id db ≡ some j
        → existing_job is_canonical call canonical_bytes j db ≡ ok (r, db')
        → Decides db r db'
    unfolding existing_job
    existing_job-Decides j r db' named h = elim (Bool-cases (is_canonical j.payload_canonical)) [
      | inr bad ↦ absurd (ground arith)
      | inl good ↦ elim (Bool-cases (bytes_eq j.payload_canonical canonical_bytes)) [
        | inr differs ↦ told idempotency_conflict r db db' v tt (rw (good, differs) at h)
        | inl equal ↦
            route_state-Decides call j db r db' v named j.state refl
              (unfold route_existing_job in (rw (good, equal) at h))
      ]
    ]

    existing_job_sound :
        (j : JobRow)
        → select_job j.job_id db ≡ some j
        → is_canonical j.payload_canonical ≡ true
        → existing_job is_canonical call canonical_bytes j db ≢ err corruption
    unfolding existing_job
    existing_job_sound j named good h =
        elim (Bool-cases (bytes_eq j.payload_canonical canonical_bytes)) [
          | inr differs ↦ ground arith
          | inl equal ↦
              route_state_sound call j db v named j.state refl
                (unfold route_existing_job in (rw (good, equal) at h))
        ]

    skipped_turn :
        (t : Turn) (db' : Database)
        → ◌≡◌ {A = Result (Turn × Database)} (ok (again, db)) (ok (t, db'))
        → Turns db t db'
    skipped_turn (returned r) db' h = absurd (ground arith)
    skipped_turn again db' h = ground arith

    pub turn-Decides :
        (generated : Bool) (t : Turn) (db' : Database)
        → turn is_canonical generated call key canonical_bytes db ≡ ok (t, db')
        → Turns db t db'
    unfolding turn turn_for
    turn-Decides generated t db' h = elim (Option-cases (find_job_by_key key db)) [
      | inl e ↦ create_job-Decides call key canonical_bytes call.draws db t db' v (rw e at h)
      | inr (j, e) ↦ elim (Bool-cases generated) [
        | inl g ↦ skipped_turn t db' (rw (e, g) at h)
        | inr g ↦
            finished-Turns db (existing_job is_canonical call canonical_bytes j db) t db'
              (λ r done. existing_job-Decides j r db' (v.keyed key j e) done) (rw (e, g) at h)
      ]
    ]

    pub turn_sound :
        (generated : Bool)
        → AllCanonical db
        → turn is_canonical generated call key canonical_bytes db ≢ err corruption
    unfolding turn turn_for
    turn_sound generated all h = elim (Option-cases (find_job_by_key key db)) [
      | inl e ↦ create_job_sound call key canonical_bytes call.draws db (rw e at h)
      | inr (j, e) ↦ elim (Bool-cases generated) [
        | inl g ↦ ground arith
        | inr g ↦
            finished_sound (existing_job is_canonical call canonical_bytes j db)
              (existing_job_sound j (v.keyed key j e) (all key j e)) (rw (e, g) at h)
      ]
    ]
