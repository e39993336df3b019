-- ===== src/Persistence/Observations.antt =====
-- The rows of `attempt_observations`: `_insert_submission_observation`, `append_observation` and
-- `append_late_observation` of src/boolean_maybe/persistence/transactions.py. `draws` are the values
-- that the id generator returns in the call, in order.
pub mod Frame
use boolean_maybe.Prelude.{ℕ, Bool, true, false, Option, none, some, List, [], ◌∷◌, if◌then◌else◌}
use boolean_maybe.Domain.RetryAfter.{Diagnostic}
use boolean_maybe.Persistence.Rows.{
  Ident, Instant, Category, Operation, Certainty, ObservationRow, Database,
}
use boolean_maybe.Persistence.Database.{
  Transaction, Result, ok, err, ◌>>=◌, Error, integrity, out_of_draws, observation_id_unique,
  sequence_id_unique, insert_observation, next_sequence_number,
}

-- What a caller records of one request.
pub record Observed : Type 0 where
  pub attempt_id : Ident
  pub operation : Operation
  pub request_ordinal : ℕ
  pub dispatch_certainty : Option Certainty
  pub evidence_category : Option Category
  pub http_status : Option ℕ
  pub remote_request_id : Option Ident
  pub retry_after_ms : Option ℕ
  pub retry_after_diagnostic : Option Diagnostic
  pub observed_fencing_generation : ℕ

unfoldable pub observation_row :
    Observed → Ident → Ident → Bool → Instant → Database → ObservationRow
observation_row seen observation_id sequence_id is_late now db = record {
  observation_id = observation_id;
  attempt_id = seen.attempt_id;
  sequence_id = sequence_id;
  sequence_number = next_sequence_number seen.attempt_id db;
  operation = seen.operation;
  request_ordinal = seen.request_ordinal;
  observed_at = now;
  dispatch_certainty = seen.dispatch_certainty;
  evidence_category = seen.evidence_category;
  http_status = seen.http_status;
  remote_request_id = seen.remote_request_id;
  retry_after_ms = seen.retry_after_ms;
  retry_after_diagnostic = seen.retry_after_diagnostic;
  observed_fencing_generation = seen.observed_fencing_generation;
  is_late = is_late;
  consumed_at = none;
}

-- `"observation_id" in str(exc)`.
abbrev pub is_observation_id_collision : Error → Bool
is_observation_id_collision (integrity observation_id_unique) = true
is_observation_id_collision _ = false

-- `"observation_id" in str(exc) or "sequence_id" in str(exc)`.
abbrev pub is_id_collision : Error → Bool
is_id_collision (integrity observation_id_unique) = true
is_id_collision (integrity sequence_id_unique) = true
is_id_collision _ = false

-- The `except` clause of the loops: again after a collision, and else the exception goes on.
abbrev pub retry_on {ℓ} : {A : Type ℓ} → (Error → Bool) → Result A → Result A → Result A
retry_on collides (ok a) again = ok a
retry_on collides (err e) again = if collides e then again else err e

-- Both loops that draw the two ids anew; they return the observation's id too.
unfoldable pub insert_with_ids : ObservationRow → List Ident → Database → Result (Ident × Database)
unfolding insert_observation
insert_with_ids row (o ∷ s ∷ draws) db =
    let again = insert_with_ids (record row { observation_id = o; sequence_id = s }) draws db in
    retry_on is_id_collision (do db' ← insert_observation row db; ok (row.observation_id, db'))
      again
insert_with_ids row _ db =
    retry_on is_id_collision (do db' ← insert_observation row db; ok (row.observation_id, db'))
      (err out_of_draws)

-- The sequence's id is drawn first.
unfoldable pub first_ids :
    Observed → Bool → Instant → List Ident → Database → Result (Ident × Database)
unfolding insert_with_ids observation_row
first_ids seen is_late now (s ∷ o ∷ draws) db =
    insert_with_ids (observation_row seen o s is_late now db) draws db
first_ids seen is_late now _ db = err out_of_draws

unfoldable pub insert_submission_observation :
    Observed → Instant → List Ident → Database → Result Database
unfolding first_ids
insert_submission_observation seen now draws db = do
  inserted ← first_ids seen false now draws db
  ok inserted.1

unfoldable pub append_late_observation : Observed → Instant → List Ident → Transaction Ident
unfolding first_ids
append_late_observation seen now draws db = first_ids seen true now draws db

-- The loop of `append_observation`: the caller's `sequence_id` stays.
insert_with_id : ObservationRow → List Ident → Database → Result (Ident × Database)
unfolding insert_observation
insert_with_id row [] db =
    retry_on is_observation_id_collision
      (do db' ← insert_observation row db; ok (row.observation_id, db')) (err out_of_draws)
insert_with_id row (o ∷ draws) db =
    let again = insert_with_id (record row { observation_id = o }) draws db in
    retry_on is_observation_id_collision
      (do db' ← insert_observation row db; ok (row.observation_id, db')) again

unfoldable pub append_observation : Observed → Ident → Instant → List Ident → Transaction Ident
unfolding insert_with_id observation_row
append_observation seen sequence_id now [] db = err out_of_draws
append_observation seen sequence_id now (o ∷ draws) db =
    insert_with_id (observation_row seen o sequence_id false now db) draws db
