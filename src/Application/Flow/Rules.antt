-- ===== src/Application/Flow/Rules.antt =====
-- What holds after a workflow, from what holds before it.
use mathlib.Core.Path.{subst}
use boolean_maybe.Prelude.{
  ℕ, Bool, true, false, ◌≡◌, ◌≢◌, ◌⊎◌, inl, inr, refl, Option, List, arith, if◌then◌else◌,
}
use boolean_maybe.Domain.Backoff.{RandomSource}
use boolean_maybe.Domain.RetryAfter.{Text}
use boolean_maybe.Persistence.Rows.{Ident, Instant, Bytes, Database}
use boolean_maybe.Persistence.Database.{Result, ok, err, Error, Transaction, run}
use boolean_maybe.Persistence.Ledger.Evolution.{Present, Present-advances}
use boolean_maybe.Persistence.Reachable.{Step, Steps, next_step, Reachable}
use boolean_maybe.Persistence.Reachable.Histories.{Steps-Reachable, Steps-Evolves}
use boolean_maybe.Application.Flow.{
  World, Moment, Flow, give, raise, settle, transact, slept, requested, Request,
}

-- From a world of the first kind the workflow leaves one of the second, which may depend on what it
-- returns or raises.
abbrev pub Ensures : {A : Type 0} → (World → Type 0) → Flow A → (Result A → World → Type 0) → Type 0
Ensures before f later = (w : World) → before w → later (f w).0 (f w).1

abbrev pub Keeps : {A : Type 0} → (World → Type 0) → Flow A → Type 0
Keeps I f = Ensures I f (λ _ w. I w)

pub settle-Ensures :
    {A B : Type 0} (before : World → Type 0) (middle : Result A → World → Type 0)
    (later : Result B → World → Type 0) (first : Flow A) (rest : Result A → Flow B)
    → Ensures before first middle
    → ((r : Result A) → Ensures (middle r) (rest r) later)
    → Ensures before (settle first rest) later
unfolding settle
settle-Ensures before middle later first rest p q w h = q (first w).0 (first w).1 (p w h)

pub if-Ensures :
    {A : Type 0} (before : World → Type 0) (later : Result A → World → Type 0) (b : Bool)
    (f g : Flow A)
    → Ensures before f later
    → Ensures before g later
    → Ensures before (if b then f else g) later
if-Ensures before later true f g p q = p
if-Ensures before later false f g p q = q

-- The world stays of that kind, and what is returned satisfies the predicate.
abbrev pub Tells : {A : Type 0} → (World → Type 0) → (A → Type 0) → Result A → World → Type 0
Tells {A} P Said x w = P w × ((a : A) → x ≡ ok a → Said a)

-- The same with a predicate that looks at the tables left, too.
abbrev pub Leaves :
    {A : Type 0} → (World → Type 0) → (A → Database → Type 0) → Result A → World → Type 0
Leaves {A} P Said x w = P w × ((a : A) → x ≡ ok a → Said a w.db)

-- A predicate of what is returned, if anything is.
abbrev pub IfOk : {A : Type 0} → (A → Type 0) → Result A → Type 0
IfOk Said (ok a) = Said a
IfOk Said (err e) = Unit

pub told_ok :
    {A : Type 0} (Said : A → Type 0) (x : Result A) → ((a : A) → x ≡ ok a → Said a) → IfOk Said x
told_ok Said (ok a) said = said a refl
told_ok Said (err e) said = tt

module _ (P : World → Type 0) where
  module _ {A : Type 0} (Said : A → Type 0) where
    pub give-Tells : (a : A) → Said a → Ensures P (give a) (Tells P Said)
    give-Tells a said w h = (h, λ b e. let same : a ≡ b = cc in subst Said same said)

    pub raise-Tells : (e : Error) → Ensures P (raise {A = A} e) (Tells P Said)
    raise-Tells e w h = (h, λ b q. cc)

  pub settle-Tells :
      {A B : Type 0} (Said : A → Type 0) (SaidLater : B → Type 0) (first : Flow A)
      (rest : Result A → Flow B)
      → Ensures P first (Tells P Said)
      → ((a : A) → Said a → Ensures P (rest (ok a)) (Tells P SaidLater))
      → ((e : Error) → Ensures P (rest (err e)) (Tells P SaidLater))
      → Ensures P (settle first rest) (Tells P SaidLater)
  settle-Tells {A} {B} Said SaidLater first rest p q raised =
      settle-Ensures P (Tells P Said) (Tells P SaidLater) first rest p onward
    where
      onward : (r : Result A) → Ensures (Tells P Said r) (rest r) (Tells P SaidLater)
      onward (ok a) w (h, said) = q a (said a refl) w h
      onward (err e) w (h, said) = raised e w h

  module _ {A : Type 0} (Said : A → Database → Type 0) where
    pub give-Leaves : (a : A) → ((db : Database) → Said a db) → Ensures P (give a) (Leaves P Said)
    give-Leaves a said w h =
        (h, λ b e. let same : a ≡ b = cc in subst (λ x. Said x w.db) same (said w.db))

    -- What is said of the tables before, where nothing is written.
    pub carry-Leaves : (a : A) → Ensures (λ w. P w × Said a w.db) (give a) (Leaves P Said)
    carry-Leaves a w h = (h.0, λ b e. let same : a ≡ b = cc in subst (λ x. Said x w.db) same h.1)

    pub raise-Leaves : (e : Error) → Ensures P (raise {A = A} e) (Leaves P Said)
    raise-Leaves e w h = (h, λ b q. cc)

  pub settle-Leaves :
      {A B : Type 0} (Said : A → Database → Type 0) (SaidLater : B → Database → Type 0)
      (first : Flow A) (rest : Result A → Flow B)
      → Ensures P first (Leaves P Said)
      → ((a : A) → Ensures (λ w. P w × Said a w.db) (rest (ok a)) (Leaves P SaidLater))
      → ((e : Error) → Ensures P (rest (err e)) (Leaves P SaidLater))
      → Ensures P (settle first rest) (Leaves P SaidLater)
  settle-Leaves {A} {B} Said SaidLater first rest p q raised =
      settle-Ensures P (Leaves P Said) (Leaves P SaidLater) first rest p onward
    where
      onward : (r : Result A) → Ensures (Leaves P Said r) (rest r) (Leaves P SaidLater)
      onward (ok a) w (h, said) = q a w (h, said a refl)
      onward (err e) w (h, said) = raised e w h

  -- After a part that keeps the world of its kind.
  pub settle_keeping :
      {A B : Type 0} (SaidLater : B → Database → Type 0) (first : Flow A) (rest : Result A → Flow B)
      → Keeps P first
      → ((r : Result A) → Ensures P (rest r) (Leaves P SaidLater))
      → Ensures P (settle first rest) (Leaves P SaidLater)
  settle_keeping SaidLater first rest keeps q =
      settle-Ensures P (λ _ w. P w) (Leaves P SaidLater) first rest keeps q

  -- Where nothing is said of what is returned.
  pub Keeps-Tells : {A : Type 0} (f : Flow A) → Keeps P f → Ensures P f (Tells P (λ _. Unit))
  Keeps-Tells f keeps w h = (keeps w h, λ a e. tt)

-- A transaction that ran: nothing was committed, or what it returned with.
pub run-cases :
    {A : Type 0} (fault : Bool) (body : Transaction A) (db : Database)
    → (((run fault body db).1 ≡ db) × ((r : A) → (run fault body db).0 ≢ ok r))
      ⊎ ((r : A) × (body db ≡ ok (r, (run fault body db).1)) × ((run fault body db).0 ≡ ok r))
unfolding run
run-cases true body db = inl (refl, λ r h. cc)
run-cases {A = A} false body db = ran (body db) refl
  where
    ran :
        (x : Result (A × Database))
        → body db ≡ x
        → (((run false body db).1 ≡ db) × ((r : A) → (run false body db).0 ≢ ok r))
          ⊎ ((r : A) × (body db ≡ ok (r, (run false body db).1)) × ((run false body db).0 ≡ ok r))
    ran (ok (r, db')) e = inr (r, ground arith, ground arith)
    ran (err x) e = inl (ground arith, λ r h. ground arith)

module _ (is_canonical : Bytes → Bool) (strptime : Text → Option ℕ) (random : RandomSource) where
  -- The other processes commit nothing but the program's transactions.
  abbrev pub Lawful : Moment → Type 0
  Lawful m =
      (db : Database)
      → Reachable is_canonical strptime random db
      → Steps is_canonical strptime random db (m.others db)

  -- The tables are reachable, and the attempt is in them.
  abbrev pub Holding : Ident → Ident → ℕ → World → Type 0
  Holding i k n w = Reachable is_canonical strptime random w.db × Present i k n w.db

  pub Steps-Holding :
      (i k : Ident) (n : ℕ) (db db' : Database)
      → Steps is_canonical strptime random db db'
      → Reachable is_canonical strptime random db
      → Present i k n db
      → Reachable is_canonical strptime random db' × Present i k n db'
  Steps-Holding i k n db db' steps reached present = (
    Steps-Reachable is_canonical strptime random db db' steps reached,
    Present-advances i k n db db' (Steps-Evolves is_canonical strptime random db db' steps reached)
        present,
  )

  module _ {A : Type 0} (m : Moment) (body : Instant → List Ident → Transaction A)
      (lawful : Lawful m) where
    -- What a transaction leaves is what it committed after the others', or theirs alone.
    pub transact-Steps :
        (w : World)
        → Reachable is_canonical strptime random w.db
        → ((r : A) (db' : Database)
            → body m.now m.draws (m.others w.db) ≡ ok (r, db')
            → Step is_canonical strptime random (m.others w.db) db')
        → Steps is_canonical strptime random w.db ((transact m body w).1.db)
    unfolding transact
    transact-Steps w reached step = elim (run-cases m.fault (body m.now m.draws) (m.others w.db)) [
      | inl (same, failed) ↦ rw same (lawful w.db reached)
      | inr (r, done, said) ↦ next_step (m.others w.db) _ (lawful w.db reached) (step r _ done)
    ]

    pub transact-Holding :
        (i k : Ident) (n : ℕ)
        → ((db : Database) (r : A) (db' : Database)
            → Present i k n db
            → body m.now m.draws db ≡ ok (r, db')
            → Step is_canonical strptime random db db')
        → Keeps (Holding i k n) (transact m body)
    transact-Holding i k n step w (reached, present) =
        let (before, there) =
          Steps-Holding i k n w.db (m.others w.db) (lawful w.db reached) reached present in
        Steps-Holding i k n w.db _
          (transact-Steps w reached (λ r db' h. step (m.others w.db) r db' there h)) reached present

    -- With what a transaction that returned says of its result and of the tables that it leaves.
    pub transact-Leaves :
        (i k : Ident) (n : ℕ) (Said : A → Database → Type 0)
        → ((db : Database) (r : A) (db' : Database)
            → Present i k n db
            → body m.now m.draws db ≡ ok (r, db')
            → Step is_canonical strptime random db db' × Said r db')
        → Ensures (Holding i k n) (transact m body) (Leaves (Holding i k n) Said)
    unfolding transact
    transact-Leaves i k n Said step w (reached, present) =
        let (before, there) =
          Steps-Holding i k n w.db (m.others w.db) (lawful w.db reached) reached present in
        (
          transact-Holding i k n (λ db r db' p h. (step db r db' p h).0) w (reached, present),
          elim (run-cases m.fault (body m.now m.draws) (m.others w.db)) [
            | inl (same, failed) ↦ λ r e. absurd (failed r e)
            | inr (r, done, said) ↦ λ r' e.
                let same : r ≡ r' = cc in
                subst (λ x. Said x (run m.fault (body m.now m.draws) (m.others w.db)).1) same
                  (step (m.others w.db) r _ there done).1
          ],
        )

    pub transact-Ensures :
        (i k : Ident) (n : ℕ) (Said : A → Type 0)
        → ((db : Database) (r : A) (db' : Database)
            → Present i k n db
            → body m.now m.draws db ≡ ok (r, db')
            → Step is_canonical strptime random db db' × Said r)
        → Ensures (Holding i k n) (transact m body) (Tells (Holding i k n) Said)
    transact-Ensures i k n Said step = transact-Leaves i k n (λ a _. Said a) step

  pub slept-Holding : (duration : ℕ) (i k : Ident) (n : ℕ) → Keeps (Holding i k n) (slept duration)
  unfolding slept
  slept-Holding duration i k n w h = h

  pub requested-Holding :
      (request : Request) (i k : Ident) (n : ℕ) → Keeps (Holding i k n) (requested request)
  unfolding requested
  requested-Holding request i k n w h = h
