-- ===== src/Simulator/Scenario.antt =====
-- Scenario plans and the action of each request: src/boolean_maybe/simulator/scenario.py. A rule's
-- texts are taken as read: the key is `none` for the wildcard `*`.
pub mod Actions
pub mod Plans
use boolean_maybe.Prelude.{
  ℕ, suc, Bool, true, false, not, ◌&&◌, ◌||◌, Option, none, some, List, [], ◌∷◌, ltb, ◌==◌,
  option_eq, if◌then◌else◌, length, any,
}
use boolean_maybe.Persistence.Rows.{Ident, Operation}

pub data Scenario : Type 0 where
  success five_hundred_then_success rate_limited_then_success connect_timeout : Scenario
  processed_then_disconnect processed_without_response processed_then_500 : Scenario
  duplicate_remote_request_id reconciliation_timeout always_500 : Scenario

pub data Action : Type 0 where
  normal return_500 return_429 timeout_no_process : Action
  process_then_disconnect process_then_timeout process_then_500 : Action

abbrev pub operation_eq : Operation → Operation → Bool
operation_eq Operation.submission Operation.submission = true
operation_eq Operation.reconciliation Operation.reconciliation = true
operation_eq _ _ = false

-- `operation in SCENARIO_OPERATIONS[scenario]`.
unfoldable pub supports : Scenario → Operation → Bool
supports Scenario.success operation = true
supports Scenario.always_500 operation = true
supports Scenario.reconciliation_timeout operation = operation_eq operation Operation.reconciliation
supports _ operation = operation_eq operation Operation.submission

abbrev first_only : ℕ → Action → Action
first_only ordinal action = if ordinal == 1 then action else Action.normal

-- `none` is the `ScenarioPlanError` at the end.
unfoldable pub resolve_action : Option Scenario → Operation → ℕ → Option Action
resolve_action none operation ordinal = some Action.normal
resolve_action (some Scenario.success) operation ordinal = some Action.normal
resolve_action (some Scenario.always_500) operation ordinal = some Action.return_500
resolve_action (some Scenario.five_hundred_then_success) Operation.submission ordinal =
    some (first_only ordinal Action.return_500)
resolve_action (some Scenario.rate_limited_then_success) Operation.submission ordinal =
    some (first_only ordinal Action.return_429)
resolve_action (some Scenario.connect_timeout) Operation.submission ordinal =
    some (first_only ordinal Action.timeout_no_process)
resolve_action (some Scenario.processed_then_disconnect) Operation.submission ordinal =
    some (first_only ordinal Action.process_then_disconnect)
resolve_action (some Scenario.processed_without_response) Operation.submission ordinal =
    some (first_only ordinal Action.process_then_timeout)
resolve_action (some Scenario.processed_then_500) Operation.submission ordinal =
    some (first_only ordinal Action.process_then_500)
resolve_action (some Scenario.duplicate_remote_request_id) Operation.submission ordinal =
    some Action.normal
resolve_action (some Scenario.reconciliation_timeout) Operation.reconciliation ordinal =
    some (first_only ordinal Action.timeout_no_process)
resolve_action _ _ _ = none

pub record Rule : Type 0 where
  pub operation : Operation
  pub idempotency_key : Option Ident
  pub scenario : Scenario

-- The two dictionaries, as the lists of their entries.
pub record ScenarioPlan : Type 0 where
  pub exact_rules : List ((Operation × Ident) × Scenario)
  pub wildcard_rules : List (Operation × Scenario)

abbrev pub empty_plan : ScenarioPlan
empty_plan = record { exact_rules = []; wildcard_rules = [] }

unfoldable pub exact_rule :
    Operation → Ident → List ((Operation × Ident) × Scenario) → Option Scenario
exact_rule operation key [] = none
exact_rule operation key (((o, k), s) ∷ rules) =
    if operation_eq o operation && k == key then some s else exact_rule operation key rules

unfoldable pub wildcard_rule : Operation → List (Operation × Scenario) → Option Scenario
wildcard_rule operation [] = none
wildcard_rule operation ((o, s) ∷ rules) =
    if operation_eq o operation then some s else wildcard_rule operation rules

abbrev or_else : Option Scenario → Option Scenario → Option Scenario
or_else none other = other
or_else (some s) other = some s

-- `ScenarioPlan.resolve`.
unfoldable pub resolve : ScenarioPlan → Operation → Ident → Option Scenario
unfolding exact_rule wildcard_rule
resolve plan operation key =
    or_else (exact_rule operation key plan.exact_rules)
      (wildcard_rule operation plan.wildcard_rules)

abbrev pub max_rules : ℕ
max_rules = 1000

abbrev pub same_selector : Rule → Rule → Bool
same_selector r s =
    operation_eq r.operation s.operation && option_eq r.idempotency_key s.idempotency_key

unfoldable pub add_rule : Rule → ScenarioPlan → ScenarioPlan
add_rule r plan = elim r.idempotency_key [
  | none ↦ record plan { wildcard_rules = (r.operation, r.scenario) ∷ plan.wildcard_rules }
  | some key ↦ record plan { exact_rules = ((r.operation, key), r.scenario) ∷ plan.exact_rules }
]

-- The loop over the rules; `seen` are the rules before, and `none` is a `ScenarioPlanError`.
unfoldable pub add_rules : List Rule → List Rule → ScenarioPlan → Option ScenarioPlan
unfolding supports add_rule
add_rules [] seen plan = some plan
add_rules (r ∷ rules) seen plan =
    let rest = add_rules rules (r ∷ seen) (add_rule r plan) in
    if not (supports r.scenario r.operation) || any (λ s. same_selector r s) seen
    then none
    else rest

unfoldable pub validate_rules : List Rule → Option ScenarioPlan
unfolding add_rules
validate_rules rules = if ltb max_rules (length rules) then none else add_rules rules [] empty_plan
