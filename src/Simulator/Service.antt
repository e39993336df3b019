-- ===== src/Simulator/Service.antt =====
-- The request handlers: src/boolean_maybe/simulator/service.py. A handler runs under its key's lock,
-- so it is one step on the state; the wait of a timeout changes nothing and is left out.
pub mod Records
use boolean_maybe.Prelude.{
  ℕ, Bool, true, false, not, Option, none, some, List, [], ◌∷◌, if◌then◌else◌, is_none,
}
use boolean_maybe.Persistence.Rows.{Ident, Bytes, Operation}
use boolean_maybe.Persistence.Database.{bytes_eq}
use boolean_maybe.Simulator.Scenario.{Scenario, Action, ScenarioPlan, resolve, resolve_action}
use boolean_maybe.Simulator.State.{
  ProcessedRecord, KeyCoordinator, next_ordinal, get_record, create_record,
}

-- The bodies, with the fields that vary.
pub data Body : Type 0 where
  rate_limited simulated_server_error : Body
  idempotency_conflict : Ident → Ident → Body
  submission : ProcessedRecord → Bool → Body
  reconciliation : ProcessedRecord → Body
  not_found : Ident → Body

pub data Delivery : Type 0 where
  response : ℕ → Body → Option ℕ → Delivery
  aborted : Delivery

-- `Outcome`: of a response its status, its body and the value of a `Retry-After` header.
pub record Outcome : Type 0 where
  pub delivery : Delivery
  pub processed : Bool
  pub scenario : Scenario
  pub ordinal : ℕ

abbrev log_scenario : Option Scenario → Scenario
log_scenario none = Scenario.success
log_scenario (some s) = s

abbrev is_duplicate : Option Scenario → Bool
is_duplicate (some Scenario.duplicate_remote_request_id) = true
is_duplicate _ = false

abbrev conflicts : Option ProcessedRecord → Bytes → Bool
conflicts none canonical_bytes = false
conflicts (some r) canonical_bytes = not (bytes_eq r.canonical_bytes canonical_bytes)

abbrev stored_digest : Option ProcessedRecord → Ident → Ident
stored_digest none digest = digest
stored_digest (some r) digest = r.payload_digest

module _ (remote_id : Ident → Ident) (duplicate : Ident) (plan : ScenarioPlan) where
  -- The record that is there, or a new one.
  unfoldable pub process :
      Ident → Bytes → Ident → Bool → Option ProcessedRecord → KeyCoordinator → KeyCoordinator
  unfolding create_record
  process key canonical_bytes digest dup (some existing) c = c
  process key canonical_bytes digest dup none c =
      (create_record remote_id duplicate key canonical_bytes digest dup c).1

  unfoldable pub normal_submission :
      Ident
      → Bytes
      → Ident
      → Option Scenario
      → ℕ
      → Option ProcessedRecord
      → KeyCoordinator
      → Outcome × KeyCoordinator
  unfolding create_record
  normal_submission key canonical_bytes digest scenario ordinal (some existing) c = (
    record {
      delivery = response 200 (submission existing true) none;
      processed = true;
      scenario = log_scenario scenario;
      ordinal = ordinal;
    },
    c,
  )
  normal_submission key canonical_bytes digest scenario ordinal none c =
      let (r, c') =
        create_record remote_id duplicate key canonical_bytes digest (is_duplicate scenario) c in
      (
        record {
          delivery = response 201 (submission r false) none;
          processed = true;
          scenario = log_scenario scenario;
          ordinal = ordinal;
        },
        c',
      )

  abbrev outcome : Delivery → Bool → Option Scenario → ℕ → Outcome
  outcome delivery processed scenario ordinal = record {
    delivery = delivery;
    processed = processed;
    scenario = log_scenario scenario;
    ordinal = ordinal;
  }

  unfoldable pub submission_action :
      Action
      → Ident
      → Bytes
      → Ident
      → Option Scenario
      → ℕ
      → Option ProcessedRecord
      → KeyCoordinator
      → Outcome × KeyCoordinator
  unfolding process normal_submission
  submission_action Action.return_500 key bytes digest s n existing c =
      (outcome (response 500 simulated_server_error none) (not (is_none existing)) s n, c)
  submission_action Action.return_429 key bytes digest s n existing c =
      (outcome (response 429 rate_limited (some 1)) (not (is_none existing)) s n, c)
  submission_action Action.timeout_no_process key bytes digest s n existing c =
      (outcome aborted (not (is_none existing)) s n, c)
  submission_action Action.process_then_disconnect key bytes digest s n existing c =
      (outcome aborted true s n, process key bytes digest false existing c)
  submission_action Action.process_then_timeout key bytes digest s n existing c =
      (outcome aborted true s n, process key bytes digest false existing c)
  submission_action Action.process_then_500 key bytes digest s n existing c = (
    outcome (response 500 simulated_server_error none) true s n,
    process key bytes digest false existing c,
  )
  submission_action Action.normal key bytes digest s n existing c =
      normal_submission key bytes digest s n existing c

  unfoldable pub submission_step :
      Option Action
      → Ident
      → Bytes
      → Ident
      → Option Scenario
      → ℕ
      → Option ProcessedRecord
      → KeyCoordinator
      → Option (Outcome × KeyCoordinator)
  unfolding submission_action
  submission_step none key bytes digest s n existing c = none
  submission_step (some action) key bytes digest s n existing c =
      if conflicts existing bytes
      then some (
        outcome (response 409 (idempotency_conflict (stored_digest existing digest) digest) none)
            true s n,
        c,
      )
      else some (submission_action action key bytes digest s n existing c)

  -- `none` is the `ScenarioPlanError` of an action that the plan cannot have.
  unfoldable pub handle_submission :
      Ident → Bytes → Ident → KeyCoordinator → Option (Outcome × KeyCoordinator)
  unfolding submission_step next_ordinal get_record
  handle_submission key canonical_bytes digest c =
      let (ordinal, c') = next_ordinal Operation.submission key c in
      let scenario = resolve plan Operation.submission key in
      submission_step (resolve_action scenario Operation.submission ordinal) key canonical_bytes
        digest scenario ordinal (get_record key c') c'

  unfoldable pub reconciliation_action :
      Action → Ident → Option Scenario → ℕ → Option ProcessedRecord → Outcome
  reconciliation_action Action.return_500 key s n existing =
      outcome (response 500 simulated_server_error none) (not (is_none existing)) s n
  reconciliation_action Action.timeout_no_process key s n existing =
      outcome aborted (not (is_none existing)) s n
  reconciliation_action _ key s n (some existing) =
      outcome (response 200 (reconciliation existing) none) true s n
  reconciliation_action _ key s n none = outcome (response 404 (not_found key) none) false s n

  unfoldable pub reconciliation_step :
      Option Action
      → Ident
      → Option Scenario
      → ℕ
      → Option ProcessedRecord
      → KeyCoordinator
      → Option (Outcome × KeyCoordinator)
  unfolding reconciliation_action
  reconciliation_step none key s n existing c = none
  reconciliation_step (some action) key s n existing c =
      some (reconciliation_action action key s n existing, c)

  unfoldable pub handle_reconciliation : Ident → KeyCoordinator → Option (Outcome × KeyCoordinator)
  unfolding reconciliation_step next_ordinal get_record
  handle_reconciliation key c =
      let (ordinal, c') = next_ordinal Operation.reconciliation key c in
      let scenario = resolve plan Operation.reconciliation key in
      reconciliation_step (resolve_action scenario Operation.reconciliation ordinal) key scenario
        ordinal (get_record key c') c'
