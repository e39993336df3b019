-- ===== src/Application/Flow.antt =====
-- What an invocation of src/boolean_maybe/application/submit.py does to the world: the tables, which
-- other processes write too, its wait budget and its HTTP requests. A workflow returns or raises, and
-- leaves a world either way.
pub mod Rules
use boolean_maybe.Prelude.{ℕ, Bool, List, ◌∷◌, Option}
use boolean_maybe.External.Outcome.{SubmitHttpOutcome, ReconcileHttpOutcome}
use boolean_maybe.Persistence.Rows.{Ident, Instant, Database}
use boolean_maybe.Persistence.Database.{Result, ok, err, Error, Transaction, run}
use boolean_maybe.Application.Waiting.{WaitBudget, sleep}

-- A request that was handed to the adapters, with their answer: of `submit_job`, for the attempt,
-- where `none` is an exception, and of `reconcile_job`, for the key.
pub data Request : Type 0 where
  post : Ident → Option SubmitHttpOutcome → Request
  get : Ident → ReconcileHttpOutcome → Request

-- `requests` has the last request first.
pub record World : Type 0 where
  pub db : Database
  pub budget : WaitBudget
  pub requests : List Request

-- What a call of a transaction meets: what other processes commit before it, whether SQLite fails,
-- the clock's reading, and what the id generator returns.
pub record Moment : Type 0 where
  pub others : Database → Database
  pub fault : Bool
  pub now : Instant
  pub draws : List Ident

abbrev pub Flow : Type 0 → Type 0
Flow A = World → Result A × World

abbrev pub give : {A : Type 0} → A → Flow A
give a w = (ok a, w)

abbrev pub raise : {A : Type 0} → Error → Flow A
raise e w = (err e, w)

-- `try`: the rest sees what the first part returned or raised.
unfoldable pub settle : {A B : Type 0} → Flow A → (Result A → Flow B) → Flow B
settle first rest w = rest (first w).0 (first w).1

-- `await asyncio.to_thread(transactions.…, conn, …)`.
unfoldable pub transact : {A : Type 0} → Moment → (Instant → List Ident → Transaction A) → Flow A
unfolding run
transact m body w =
    let done = run m.fault (body m.now m.draws) (m.others w.db) in
    (done.0, record w { db = done.1 })

-- `await wait_budget.sleep(…)`.
unfoldable pub slept : ℕ → Flow Unit
unfolding sleep
slept duration w = (ok tt, record w { budget = sleep duration w.budget })

unfoldable pub requested : Request → Flow Unit
requested request w = (ok tt, record w { requests = request ∷ w.requests })
