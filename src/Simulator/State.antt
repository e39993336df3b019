-- ===== src/Simulator/State.antt =====
-- Processed records and request ordinals: `KeyCoordinator` of
-- src/boolean_maybe/simulator/state.py. A dictionary is the list of its entries, the newest first.
-- Every handler holds its key's lock from its first step to its last, so the locks are left out.
use boolean_maybe.Prelude.{
  ℕ, ◌+◌, Bool, ◌&&◌, Option, none, some, List, [], ◌∷◌, ◌==◌, if◌then◌else◌,
}
use boolean_maybe.Persistence.Rows.{Ident, Bytes, Operation}
use boolean_maybe.Simulator.Scenario.{operation_eq}

pub record ProcessedRecord : Type 0 where
  pub idempotency_key : Ident
  pub canonical_bytes : Bytes
  pub payload_digest : Ident
  pub remote_request_id : Ident

pub record KeyCoordinator : Type 0 where
  pub records : List (Ident × ProcessedRecord)
  pub ordinals : List ((Operation × Ident) × ℕ)

unfoldable pub fresh : KeyCoordinator
fresh = record { records = []; ordinals = [] }

unfoldable pub last_ordinal : Operation → Ident → List ((Operation × Ident) × ℕ) → ℕ
last_ordinal operation key [] = 0
last_ordinal operation key (((o, k), n) ∷ rest) =
    if operation_eq o operation && k == key then n else last_ordinal operation key rest

unfoldable pub next_ordinal : Operation → Ident → KeyCoordinator → ℕ × KeyCoordinator
unfolding last_ordinal
next_ordinal operation key c =
    let ordinal = last_ordinal operation key c.ordinals + 1 in
    (ordinal, record c { ordinals = ((operation, key), ordinal) ∷ c.ordinals })

unfoldable pub find_record : Ident → List (Ident × ProcessedRecord) → Option ProcessedRecord
find_record key [] = none
find_record key ((k, r) ∷ rest) = if k == key then some r else find_record key rest

unfoldable pub get_record : Ident → KeyCoordinator → Option ProcessedRecord
unfolding find_record
get_record key c = find_record key c.records

-- `remote_id` is the SHA-256 based id of a key, and `duplicate` the text `remote-duplicate`.
unfoldable pub create_record :
    (remote_id : Ident → Ident) (duplicate : Ident) (key : Ident)
    → Bytes
    → Ident
    → Bool
    → KeyCoordinator
    → ProcessedRecord × KeyCoordinator
create_record remote_id duplicate key canonical_bytes digest duplicate_remote_id c =
    let r : ProcessedRecord = record {
      idempotency_key = key;
      canonical_bytes = canonical_bytes;
      payload_digest = digest;
      remote_request_id = if duplicate_remote_id then duplicate else remote_id key;
    } in
    (r, record c { records = (key, r) ∷ c.records })
