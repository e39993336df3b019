-- ===== src/Persistence/PreSideEffect/Loops.antt =====
-- About the loop of `run_pre_side_effect_transaction` of
-- src/boolean_maybe/persistence/transactions.py.
use boolean_maybe.Prelude.{
  ◌<◌, ◌≤◌, ◌≡◌, ◌≢◌, refl, inl, inr, Bool, true, false, none, List, [], ◌∷◌, arith, find, any,
  ◌==◌, Option-cases, length,
}
use boolean_maybe.Persistence.Rows.{Bytes, Ident, JobRow, Database}
use boolean_maybe.Persistence.Database.{
  Result, ok, err, integrity, corruption, out_of_draws, payload_length, Constraint, job_id_unique,
  max_payload_bytes, insert_job, find_job_by_key,
}
use boolean_maybe.Persistence.PreSideEffect.{
  Call, PreSideEffectResult, insert_job_loop, pending_job, Turn, returned, again, finished,
  after_insert, create_job, turn_for, turn, next_turn, run_supplied, run_generated,
}
use boolean_maybe.Persistence.PreSideEffect.Steps.{Decides}
use boolean_maybe.Persistence.PreSideEffect.Runs.{Turns, AllCanonical, turn-Decides, turn_sound}
use boolean_maybe.Persistence.Ledger.{IsConsistent}

insert_job-too_long :
    (job : JobRow) (db : Database)
    → max_payload_bytes < length job.payload_canonical
    → insert_job job db ≡ err (integrity payload_length)
unfolding insert_job
insert_job-too_long job db h = ground arith

insert_job_loop-too_long :
    (job : JobRow) (draws : List Ident) (db : Database)
    → max_payload_bytes < length job.payload_canonical
    → insert_job_loop job draws db ≡ err (integrity payload_length)
unfolding insert_job_loop
insert_job_loop-too_long job [] db h = rw (insert_job-too_long job db h)
insert_job_loop-too_long job (i ∷ draws) db h = rw (insert_job-too_long job db h)

create_job-too_long :
    (call : Call) (key : Ident) (canonical_bytes : Bytes) (i : Ident) (draws : List Ident)
    (db : Database)
    → max_payload_bytes < length canonical_bytes
    → create_job call key canonical_bytes (i ∷ draws) db ≡ ok (again, db)
unfolding create_job pending_job after_insert
create_job-too_long call key canonical_bytes i draws db h =
    rw (insert_job_loop-too_long (pending_job call i key canonical_bytes) draws db h)

create_job_next :
    (call : Call) (key : Ident) (canonical_bytes : Bytes) (draws : List Ident) (db : Database)
    (rest : Result (PreSideEffectResult × Database))
    → max_payload_bytes < length canonical_bytes
    → rest ≡ err out_of_draws
    → next_turn (create_job call key canonical_bytes draws db) rest ≡ err out_of_draws
create_job_next call key canonical_bytes [] db rest h e = unfold create_job in refl
create_job_next call key canonical_bytes (i ∷ draws) db rest h e =
    rw (create_job-too_long call key canonical_bytes i draws db h) e

pub key_free :
    (key : Ident) (jobs : List JobRow)
    → find (λ j. j.idempotency_key == key) jobs ≡ none
    → any (λ j. j.idempotency_key == key) jobs ≡ false
key_free key [] h = refl
key_free key (j ∷ jobs) h = ground (arith, key_free key jobs)

-- A new row of a payload that fits can only collide by its Job's id.
insert_job-fits :
    (job : JobRow) (db : Database) (c : Constraint)
    → find_job_by_key job.idempotency_key db ≡ none
    → length job.payload_canonical ≤ max_payload_bytes
    → job.created_at ≡ job.updated_at
    → insert_job job db ≡ err (integrity c)
    → c ≡ job_id_unique
unfolding insert_job find_job_by_key
insert_job-fits job db c e fits same h = ground (arith, key_free job.idempotency_key db.jobs)

insert_job_loop-fits :
    (job : JobRow) (draws : List Ident) (db : Database) (c : Constraint)
    → find_job_by_key job.idempotency_key db ≡ none
    → length job.payload_canonical ≤ max_payload_bytes
    → job.created_at ≡ job.updated_at
    → insert_job_loop job draws db ≢ err (integrity c)
unfolding insert_job_loop
insert_job_loop-fits job [] db c e fits same h =
    ground (arith, insert_job-fits job db c e fits same)
insert_job_loop-fits job (i ∷ draws) db c e fits same h = ground (
  arith,
  insert_job-fits job db c e fits same,
  insert_job_loop-fits (record job { job_id = i }) draws db c e fits same,
)

finished-returned :
    (x : Result (PreSideEffectResult × Database)) (db : Database) → finished x ≢ ok (again, db)
finished-returned (ok (r, db1)) db h = ground arith
finished-returned (err e) db h = ground arith

after_insert-returned :
    (call : Call) (db db' : Database) (x : Result (JobRow × List Ident × Database))
    → ((c : Constraint) → x ≢ err (integrity c))
    → after_insert call db x ≢ ok (again, db')
unfolding after_insert
after_insert-returned call db db' (ok (job, left, db1)) ne h = finished-returned _ db' h
after_insert-returned call db db' (err (integrity c)) ne h = ne c refl
after_insert-returned call db db' (err e) ne h = ground arith

create_job-returned :
    (call : Call) (key : Ident) (canonical_bytes : Bytes) (draws : List Ident) (db db' : Database)
    → find_job_by_key key db ≡ none
    → length canonical_bytes ≤ max_payload_bytes
    → create_job call key canonical_bytes draws db ≢ ok (again, db')
unfolding create_job pending_job
create_job-returned call key canonical_bytes [] db db' e fits h = ground arith
create_job-returned call key canonical_bytes (i ∷ draws) db db' e fits h =
    after_insert-returned call db db' _
      (λ c. insert_job_loop-fits (pending_job call i key canonical_bytes) draws db c e fits refl) h

after_turn-Decides :
    (db : Database) (t : Turn) (db1 : Database) (rest : Result (PreSideEffectResult × Database))
    (r : PreSideEffectResult) (db' : Database)
    → Turns db t db1
    → (rest ≡ ok (r, db') → Decides db r db')
    → next_turn (ok (t, db1)) rest ≡ ok (r, db')
    → Decides db r db'
after_turn-Decides db (returned x) db1 rest r db' turned later h =
    let same : db1 ≡ db' = ground arith in
    let same_result : x ≡ r = cc in rw (← same, ← same_result) turned
after_turn-Decides db again db1 rest r db' turned later h = later h

next_turn-Decides :
    (db : Database) (x : Result (Turn × Database)) (rest : Result (PreSideEffectResult × Database))
    (r : PreSideEffectResult) (db' : Database)
    → ((t : Turn) (db1 : Database) → x ≡ ok (t, db1) → Turns db t db1)
    → (rest ≡ ok (r, db') → Decides db r db')
    → next_turn x rest ≡ ok (r, db')
    → Decides db r db'
next_turn-Decides db (ok (t, db1)) rest r db' one later h =
    after_turn-Decides db t db1 rest r db' (one t db1 refl) later h
next_turn-Decides db (err e) rest r db' one later h = absurd (ground arith)

next_turn_sound :
    (x : Result (Turn × Database)) (rest : Result (PreSideEffectResult × Database))
    → x ≢ err corruption
    → rest ≢ err corruption
    → next_turn x rest ≢ err corruption
next_turn_sound (ok (returned r, db1)) rest one later h = ground arith
next_turn_sound (ok (again, db1)) rest one later h = later h
next_turn_sound (err e) rest one later h = ground arith

next_turn-decided :
    (x : Result (Turn × Database)) (rest other : Result (PreSideEffectResult × Database))
    → ((db' : Database) → x ≢ ok (again, db'))
    → next_turn x rest ≡ next_turn x other
next_turn-decided (ok (returned r, db1)) rest other ne = refl
next_turn-decided (ok (again, db1)) rest other ne = absurd (ne db1 refl)
next_turn-decided (err e) rest other ne = refl

module _ (is_canonical : Bytes → Bool) where
  -- A call under a supplied key keeps consistent tables consistent and no attempt of theirs is lost
  -- or rewritten after its end, whatever it returns. The attempt that it authorizes is new and in the
  -- tables, and so is in them the one that it names for recovery.
  pub run_supplied-Decides :
      (calls : List Call) (key : Ident) (canonical_bytes : Bytes) (db : Database)
      (r : PreSideEffectResult) (db' : Database)
      → IsConsistent db
      → run_supplied is_canonical calls key canonical_bytes db ≡ ok (r, db')
      → Decides db r db'
  run_supplied-Decides [] key canonical_bytes db r db' v h =
      absurd (unfold run_supplied in ground arith)
  run_supplied-Decides (call ∷ calls) key canonical_bytes db r db' v h =
      next_turn-Decides db (turn is_canonical false call key canonical_bytes db)
        (run_supplied is_canonical calls key canonical_bytes db) r db'
        (turn-Decides is_canonical call key canonical_bytes db v false)
        (run_supplied-Decides calls key canonical_bytes db r db' v) (unfold run_supplied in h)

  -- A call that generates its keys does so too.
  pub run_generated-Decides :
      (calls : List (Ident × Call)) (canonical_bytes : Bytes) (db : Database)
      (r : PreSideEffectResult) (db' : Database)
      → IsConsistent db
      → run_generated is_canonical calls canonical_bytes db ≡ ok (r, db')
      → Decides db r db'
  run_generated-Decides [] canonical_bytes db r db' v h =
      absurd (unfold run_generated in ground arith)
  run_generated-Decides ((key, call) ∷ calls) canonical_bytes db r db' v h =
      next_turn-Decides db (turn is_canonical true call key canonical_bytes db)
        (run_generated is_canonical calls canonical_bytes db) r db'
        (turn-Decides is_canonical call key canonical_bytes db v true)
        (run_generated-Decides calls canonical_bytes db r db' v) (unfold run_generated in h)

  -- In consistent tables whose payloads are canonical a call never reports corruption.
  pub run_supplied_sound :
      (calls : List Call) (key : Ident) (canonical_bytes : Bytes) (db : Database)
      → IsConsistent db
      → AllCanonical is_canonical db
      → run_supplied is_canonical calls key canonical_bytes db ≢ err corruption
  run_supplied_sound [] key canonical_bytes db v all h = unfold run_supplied in ground arith
  run_supplied_sound (call ∷ calls) key canonical_bytes db v all h =
      next_turn_sound (turn is_canonical false call key canonical_bytes db)
        (run_supplied is_canonical calls key canonical_bytes db)
        (turn_sound is_canonical call key canonical_bytes db v false all)
        (run_supplied_sound calls key canonical_bytes db v all) (unfold run_supplied in h)

  -- A new Job whose canonical payload is longer than the table allows: however many turns the call
  -- makes under its supplied key, it returns nothing.
  pub run_supplied_diverges :
      (calls : List Call) (key : Ident) (canonical_bytes : Bytes) (db : Database)
      → find_job_by_key key db ≡ none
      → max_payload_bytes < length canonical_bytes
      → run_supplied is_canonical calls key canonical_bytes db ≡ err out_of_draws
  unfolding run_supplied turn turn_for
  run_supplied_diverges [] key canonical_bytes db e h = refl
  run_supplied_diverges (call ∷ calls) key canonical_bytes db e h = rw e (
      create_job_next call key canonical_bytes call.draws db _ h
        (run_supplied_diverges calls key canonical_bytes db e h))

  turn-returned :
      (call : Call) (key : Ident) (canonical_bytes : Bytes) (db db' : Database)
      → length canonical_bytes ≤ max_payload_bytes
      → turn is_canonical false call key canonical_bytes db ≢ ok (again, db')
  unfolding turn turn_for
  turn-returned call key canonical_bytes db db' fits h =
      elim (Option-cases (find_job_by_key key db)) [
        | inl e ↦ create_job-returned call key canonical_bytes call.draws db db' e fits (rw e at h)
        | inr (j, e) ↦ finished-returned _ db' (rw e at h)
      ]

  -- With a payload that fits, the first turn decides the call under a supplied key.
  pub run_supplied_once :
      (call : Call) (calls : List Call) (key : Ident) (canonical_bytes : Bytes) (db : Database)
      → length canonical_bytes ≤ max_payload_bytes
      → run_supplied is_canonical (call ∷ calls) key canonical_bytes db
        ≡ run_supplied is_canonical (call ∷ []) key canonical_bytes db
  unfolding run_supplied
  run_supplied_once call calls key canonical_bytes db fits =
      next_turn-decided (turn is_canonical false call key canonical_bytes db) _ _
        (λ db'. turn-returned call key canonical_bytes db db' fits)
