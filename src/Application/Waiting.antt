-- ===== src/Application/Waiting.antt =====
-- The wait budget of one invocation: src/boolean_maybe/application/waiting.py. Durations are
-- microseconds where the source has float seconds; `now` is the clock's reading. The `Sleeper` is
-- time passing: its call is the argument of `sleep`.
pub mod Budget
use boolean_maybe.Prelude.{
  ℕ, zero, suc, ◌+◌, ◌-◌, ◌≤◌, Bool, true, false, Option, none, some, List, [], ◌∷◌, min, ltb, ◌==◌,
  if◌then◌else◌, ◌++◌, not, ◌&&◌,
}
use boolean_maybe.Persistence.Rows.{Instant}

abbrev pub ceiling : ℕ
ceiling = 30000000

abbrev pub renewal_cadence : ℕ
renewal_cadence = 20000000

-- `slept` is the total so far, and `sleeps` the calls of the sleeper, the last first.
pub record WaitBudget : Type 0 where
  pub ceiling_of : ℕ
  pub slept : ℕ
  pub sleeps : List ℕ

abbrev pub new_budget : WaitBudget
new_budget = record { ceiling_of = ceiling; slept = 0; sleeps = [] }

-- `max(0.0, ceiling - slept)` is the subtraction that stops at 0.
unfoldable pub remaining : WaitBudget → ℕ
remaining b = b.ceiling_of - b.slept

unfoldable pub sleep : ℕ → WaitBudget → WaitBudget
sleep duration b = record b { slept = b.slept + duration; sleeps = duration ∷ b.sleeps }

-- `max(0.0, not_before - now)`.
abbrev pub delay_until : Instant → Instant → ℕ
delay_until not_before now = not_before - now

unfoldable pub wait_if_it_fits : Instant → Instant → WaitBudget → Bool × WaitBudget
unfolding remaining sleep
wait_if_it_fits not_before now b =
    if ltb (remaining b) (delay_until not_before now)
    then (false, b)
    else (true, sleep (delay_until not_before now) b)

-- The result of a wait under renewal; `lost` is the source's `None`.
pub data Waited : Type 0 where
  waited unfit lost : Waited

-- The loop: `renewals` are the answers of `renew`, in order. Fuel bounds the rounds; a renewal that
-- is not there is one that failed.
abbrev first_answer : List Bool → Bool
first_answer [] = false
first_answer (r ∷ rs) = r

abbrev later_answers : List Bool → List Bool
later_answers [] = []
later_answers (r ∷ rs) = rs

unfoldable pub chunks : ℕ → ℕ → List Bool → WaitBudget → Waited × WaitBudget
unfolding sleep
chunks zero left renewals b = (waited, b)
chunks (suc fuel) zero renewals b = (waited, b)
chunks (suc fuel) (suc n) renewals b =
    let left = suc n in
    let chunk = min left renewal_cadence in
    let b' = sleep chunk b in
    let rest = chunks fuel (left - chunk) (later_answers renewals) b' in
    if left - chunk == 0 then (waited, b') else if first_answer renewals then rest else (lost, b')

-- The fuel: one round more than the whole chunks of the delay.
unfoldable pub wait_while_renewing_lease :
    Instant → Instant → List Bool → WaitBudget → Waited × WaitBudget
unfolding chunks remaining
wait_while_renewing_lease not_before now renewals b =
    let delay = delay_until not_before now in
    if ltb (remaining b) delay then (unfit, b) else chunks delay delay renewals b
