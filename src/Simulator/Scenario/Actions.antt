-- ===== src/Simulator/Scenario/Actions.antt =====
-- About `resolve_action` of src/boolean_maybe/simulator/scenario.py.
use boolean_maybe.Prelude.{ℕ, ◌≤◌, ◌≡◌, ◌≢◌, ◌⊎◌, true, none, some, arith}
use boolean_maybe.Persistence.Rows.{Operation}
use boolean_maybe.Simulator.Scenario.{Scenario, Action, supports, resolve_action}

-- An operation that the scenario supports always has an action.
pub resolve_action-supported :
    (s : Scenario) (operation : Operation) (ordinal : ℕ)
    → supports s operation ≡ true
    → resolve_action (some s) operation ordinal ≢ none
unfolding supports resolve_action
resolve_action-supported s operation ordinal h e = ground arith

-- From a key's second request on, the simulator acts normally under every scenario but `always-500`,
-- which returns 500 each time.
pub resolve_action-recovers :
    (s : Scenario) (operation : Operation) (ordinal : ℕ)
    → supports s operation ≡ true
    → 2 ≤ ordinal
    → (resolve_action (some s) operation ordinal ≡ some Action.normal)
      ⊎ ((s ≡ Scenario.always_500)
          × (resolve_action (some s) operation ordinal ≡ some Action.return_500))
unfolding supports resolve_action
resolve_action-recovers s operation ordinal h two = ground arith
