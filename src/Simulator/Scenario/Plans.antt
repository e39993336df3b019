-- ===== src/Simulator/Scenario/Plans.antt =====
-- About the validation of a plan in src/boolean_maybe/simulator/scenario.py.
use boolean_maybe.Prelude.{
  ℕ, ◌≡◌, ◌≢◌, ◌⊎◌, inl, inr, refl, true, Option, none, some, List, [], ◌∷◌, arith, Bool-cases,
  Option-cases,
}
use boolean_maybe.Persistence.Rows.{Ident, Operation}
use boolean_maybe.Simulator.Scenario.{
  Scenario, supports, resolve_action, Rule, ScenarioPlan, operation_eq, exact_rule, wildcard_rule,
  resolve, add_rule, add_rules, validate_rules, empty_plan,
}
use boolean_maybe.Simulator.Scenario.Actions.{resolve_action-supported}

-- Every rule of the plan is for an operation that its scenario supports.
record IsSupported (plan : ScenarioPlan) : Type 0 where
  pub exact :
      (operation : Operation) (key : Ident) (s : Scenario)
      → exact_rule operation key plan.exact_rules ≡ some s
      → supports s operation ≡ true
  pub wildcard :
      (operation : Operation) (s : Scenario)
      → wildcard_rule operation plan.wildcard_rules ≡ some s
      → supports s operation ≡ true

operation_eq-≡ : (o p : Operation) → operation_eq o p ≡ true → o ≡ p
operation_eq-≡ Operation.submission Operation.submission h = refl
operation_eq-≡ Operation.reconciliation Operation.reconciliation h = refl
operation_eq-≡ Operation.submission Operation.reconciliation h = ground arith
operation_eq-≡ Operation.reconciliation Operation.submission h = ground arith

exact_rule-add :
    (o operation : Operation) (k key : Ident) (s t : Scenario)
    (rules : List ((Operation × Ident) × Scenario))
    → exact_rule operation key (((o, k), s) ∷ rules) ≡ some t
    → ((o ≡ operation) × (s ≡ t)) ⊎ (exact_rule operation key rules ≡ some t)
unfolding exact_rule
exact_rule-add o operation k key s t rules h = elim (Bool-cases (operation_eq o operation)) [
  | inl e ↦ ground (arith, operation_eq-≡ o operation e)
  | inr e ↦ ground arith
]

wildcard_rule-add :
    (o operation : Operation) (s t : Scenario) (rules : List (Operation × Scenario))
    → wildcard_rule operation ((o, s) ∷ rules) ≡ some t
    → ((o ≡ operation) × (s ≡ t)) ⊎ (wildcard_rule operation rules ≡ some t)
unfolding wildcard_rule
wildcard_rule-add o operation s t rules h = elim (Bool-cases (operation_eq o operation)) [
  | inl e ↦ ground (arith, operation_eq-≡ o operation e)
  | inr e ↦ ground arith
]

with_rule-IsSupported :
    (o : Operation) (key : Option Ident) (s : Scenario) (plan : ScenarioPlan)
    → supports s o ≡ true
    → IsSupported plan
    → IsSupported (add_rule (record { operation = o; idempotency_key = key; scenario = s }) plan)
unfolding add_rule
with_rule-IsSupported o none s plan h v = record {
  exact = v.exact;
  wildcard = λ operation t q. elim (wildcard_rule-add o operation s t plan.wildcard_rules q) [
    | inl (e, f) ↦ rw⁻¹ (e, f) h
    | inr old ↦ v.wildcard operation t old
  ];
}
with_rule-IsSupported o (some k) s plan h v = record {
  exact = λ operation key t q. elim (exact_rule-add o operation k key s t plan.exact_rules q) [
    | inl (e, f) ↦ rw⁻¹ (e, f) h
    | inr old ↦ v.exact operation key t old
  ];
  wildcard = v.wildcard;
}

add_rule-IsSupported :
    (r : Rule) (plan : ScenarioPlan)
    → supports r.scenario r.operation ≡ true
    → IsSupported plan
    → IsSupported (add_rule r plan)
add_rule-IsSupported r plan h v =
    with_rule-IsSupported r.operation r.idempotency_key r.scenario plan h v

empty_plan-IsSupported : IsSupported empty_plan
unfolding exact_rule wildcard_rule
empty_plan-IsSupported = record {
  exact = λ operation key s q. absurd (ground arith);
  wildcard = λ operation s q. absurd (ground arith);
}

add_rules-IsSupported :
    (rules seen : List Rule) (plan plan' : ScenarioPlan)
    → IsSupported plan
    → add_rules rules seen plan ≡ some plan'
    → IsSupported plan'
unfolding add_rules
add_rules-IsSupported [] seen plan plan' v h = let same : plan' ≡ plan = ground arith in rw same v
add_rules-IsSupported (r ∷ rules) seen plan plan' v h =
    elim (Bool-cases (supports r.scenario r.operation)) [
      | inl ok ↦
          add_rules-IsSupported rules (r ∷ seen) (add_rule r plan) plan'
            (add_rule-IsSupported r plan ok v) (ground arith)
      | inr bad ↦ absurd (ground arith)
    ]

-- A plan that `validate_rules` returns gives every request of every key an action.
pub validate_rules-total :
    (rules : List Rule) (plan : ScenarioPlan) (operation : Operation) (key : Ident) (ordinal : ℕ)
    → validate_rules rules ≡ some plan
    → resolve_action (resolve plan operation key) operation ordinal ≢ none
unfolding validate_rules resolve
validate_rules-total rules plan operation key ordinal h e =
    let v : IsSupported plan =
      add_rules-IsSupported rules [] empty_plan plan empty_plan-IsSupported (ground arith) in
    elim (Option-cases (exact_rule operation key plan.exact_rules)) [
      | inr (s, q) ↦
          resolve_action-supported s operation ordinal (v.exact operation key s q) (rw q at e)
      | inl q ↦ elim (Option-cases (wildcard_rule operation plan.wildcard_rules)) [
        | inl w ↦ unfold resolve_action in ground arith
        | inr (s, w) ↦
            resolve_action-supported s operation ordinal (v.wildcard operation s w) (rw (q, w) at e)
      ]
    ]
