-- ===== src/Persistence/Observations/Frame.antt =====
-- The tables that recording an observation leaves alone.
use boolean_maybe.Prelude.{◌≡◌, refl, Bool, true, false, List, [], ◌∷◌, arith}
use boolean_maybe.Persistence.Rows.{Ident, Instant, ObservationRow, Database}
use boolean_maybe.Persistence.Database.{ok, err}
use boolean_maybe.Persistence.Observations.{
  Observed, insert_with_ids, first_ids, insert_submission_observation, append_late_observation,
  insert_with_id, append_observation,
}

abbrev pub SameRows : Database → Database → Type 0
SameRows db db' = (db'.jobs ≡ db.jobs) × (db'.attempts ≡ db.attempts) × (db'.gate ≡ db.gate)

insert_with_ids_frame :
    (row : ObservationRow) (draws : List Ident) (db : Database) (i : Ident) (db' : Database)
    → insert_with_ids row draws db ≡ ok (i, db')
    → SameRows db db'
unfolding insert_with_ids
insert_with_ids_frame row [] db i db' h = ground arith
insert_with_ids_frame row (o ∷ []) db i db' h = ground arith
insert_with_ids_frame row (o ∷ s ∷ draws) db i db' h = ground (
  arith,
  insert_with_ids_frame (record row { observation_id = o; sequence_id = s }) draws db i db',
)

first_ids_frame :
    (seen : Observed) (late : Bool) (now : Instant) (draws : List Ident) (db : Database) (i : Ident)
    (db' : Database)
    → first_ids seen late now draws db ≡ ok (i, db')
    → SameRows db db'
unfolding first_ids
first_ids_frame seen late now [] db i db' h = ground arith
first_ids_frame seen late now (s ∷ []) db i db' h = ground arith
first_ids_frame seen late now (s ∷ o ∷ draws) db i db' h = insert_with_ids_frame _ draws db i db' h

pub insert_submission_observation_frame :
    (seen : Observed) (now : Instant) (draws : List Ident) (db db' : Database)
    → insert_submission_observation seen now draws db ≡ ok db'
    → SameRows db db'
unfolding insert_submission_observation
insert_submission_observation_frame seen now draws db db' h =
    elim (first_ids seen false now draws db)
        as (λ r. first_ids seen false now draws db ≡ r → SameRows db db') [
          | ok (i, db1) ↦ λ e. ground (arith, first_ids_frame seen false now draws db i db1)
          | err x ↦ λ e. ground arith
        ]
      refl

pub append_late_observation_frame :
    (seen : Observed) (now : Instant) (draws : List Ident) (db : Database) (i : Ident)
    (db' : Database)
    → append_late_observation seen now draws db ≡ ok (i, db')
    → SameRows db db'
unfolding append_late_observation
append_late_observation_frame seen now draws db i db' h =
    first_ids_frame seen true now draws db i db' h

insert_with_id_frame :
    (row : ObservationRow) (draws : List Ident) (db : Database) (i : Ident) (db' : Database)
    → insert_with_id row draws db ≡ ok (i, db')
    → SameRows db db'
unfolding insert_with_id
insert_with_id_frame row [] db i db' h = ground arith
insert_with_id_frame row (o ∷ draws) db i db' h =
    ground (arith, insert_with_id_frame (record row { observation_id = o }) draws db i db')

pub append_observation_frame :
    (seen : Observed) (sequence_id : Ident) (now : Instant) (draws : List Ident) (db : Database)
    (i : Ident) (db' : Database)
    → append_observation seen sequence_id now draws db ≡ ok (i, db')
    → SameRows db db'
unfolding append_observation
append_observation_frame seen q now [] db i db' h = ground arith
append_observation_frame seen q now (o ∷ draws) db i db' h = insert_with_id_frame _ draws db i db' h
