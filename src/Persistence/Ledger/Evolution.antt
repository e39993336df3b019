-- ===== src/Persistence/Ledger/Evolution.antt =====
-- How the rows of `submission_attempts` and of `jobs` change: the statements of
-- src/boolean_maybe/persistence/transactions.py that write them.
use boolean_maybe.Prelude.{
  ℕ, ◌≤◌, ◌≡◌, ◌⊎◌, inl, inr, refl, false, some, List, [], ◌∷◌, ◌++◌, ◌==◌, any, arith,
  update_where, Bool-cases, ◌∙◌,
}
use boolean_maybe.Persistence.Rows.{Ident, AttemptState, JobRow, AttemptRow, Database}
use boolean_maybe.Persistence.Database.{select_attempt}
use boolean_maybe.Persistence.Ledger.{Distinct, IsConsistent}
use boolean_maybe.Persistence.Ledger.Select.{attempt_named, key_named}

-- A row later: the same attempt, of no lower generation, and the same row if it had ended.
pub record Later (a b : AttemptRow) : Type 0 where
  pub id : b.attempt_id ≡ a.attempt_id
  pub job : b.job_id ≡ a.job_id
  pub number : b.attempt_number ≡ a.attempt_number
  pub generation : a.fencing_generation ≤ b.fencing_generation
  pub ended : (a.state ≡ AttemptState.started) ⊎ (b ≡ a)

-- No row goes, each is later, and new ones follow.
abbrev pub Evolves : List AttemptRow → List AttemptRow → Type 0
Evolves [] rows = Unit
Evolves (a ∷ rows) [] = ⊥
Evolves (a ∷ rows) (b ∷ more) = Later a b × Evolves rows more

pub same_row : (a : AttemptRow) → Later a a
same_row a = record {
  id = refl;
  job = refl;
  number = refl;
  generation = omega arith;
  ended = inr refl;
}

Later-trans : (a b c : AttemptRow) → Later a b → Later b c → Later a c
Later-trans a b c p q = record {
  id = ground (arith, p.id, q.id);
  job = ground (arith, p.job, q.job);
  number = ground (arith, p.number, q.number);
  generation = omega (arith, p.generation, q.generation);
  ended = ground (arith, p.ended, q.ended);
}

pub Evolves-refl : (rows : List AttemptRow) → Evolves rows rows
Evolves-refl [] = tt
Evolves-refl (a ∷ rows) = (same_row a, Evolves-refl rows)

pub Evolves-trans :
    (rows more most : List AttemptRow) → Evolves rows more → Evolves more most → Evolves rows most
Evolves-trans [] more most p q = tt
Evolves-trans (a ∷ rows) [] most p q = absurd p
Evolves-trans (a ∷ rows) (b ∷ more) [] p q = absurd q
Evolves-trans (a ∷ rows) (b ∷ more) (c ∷ most) p q =
    (Later-trans a b c p.0 q.0, Evolves-trans rows more most p.1 q.1)

pub Evolves-append : (rows more : List AttemptRow) → Evolves rows (rows ++ more)
Evolves-append [] more = tt
Evolves-append (a ∷ rows) more = (same_row a, Evolves-append rows more)

untouched :
    (k : Ident) (f : AttemptRow → AttemptRow) (rows : List AttemptRow)
    → any (λ b. b.attempt_id == k) rows ≡ false
    → Evolves rows (update_where (λ b. b.attempt_id == k) f rows)
untouched k f [] h = tt
untouched k f (a ∷ rows) h =
    let other : (a.attempt_id == k) ≡ false = ground arith in
    (rw other (same_row a), untouched k f rows (ground arith))

-- An update of the one row with that id.
pub Evolves-update :
    (k : Ident) (f : AttemptRow → AttemptRow) (rows : List AttemptRow) (a : AttemptRow)
    → Distinct rows
    → attempt_named k rows ≡ some a
    → Later a (f a)
    → Evolves rows (update_where (λ b. b.attempt_id == k) f rows)
Evolves-update k f [] a d h later = absurd (ground arith)
Evolves-update k f (b ∷ rows) a d h later = elim (Bool-cases (b.attempt_id == k)) [
  | inl same ↦
      let found : a ≡ b = ground arith in
      (rw (same, ← found) later, untouched k f rows (ground arith))
  | inr other ↦ (rw other (same_row b), Evolves-update k f rows a d.1 (ground arith) later)
]

-- The row that an id finds, later.
pub Evolves-named :
    (k : Ident) (rows more : List AttemptRow) (a : AttemptRow)
    → Evolves rows more
    → attempt_named k rows ≡ some a
    → (b : AttemptRow) × (attempt_named k more ≡ some b) × Later a b
Evolves-named k [] more a p h = absurd (ground arith)
Evolves-named k (c ∷ rows) [] a p h = absurd p
Evolves-named k (c ∷ rows) (b ∷ more) a p h = elim (Bool-cases (c.attempt_id == k)) [
  | inl same ↦ let found : c ≡ a = ground arith in (b, ground (arith, p.0.id), rw (← found) p.0)
  | inr other ↦
      let (d, there, later) = Evolves-named k rows more a p.1 (ground arith) in
      (d, ground (arith, p.0.id), later)
]

-- An attempt of that Job and number, under that id, is in the tables.
pub record Present (job_id attempt_id : Ident) (attempt_number : ℕ) (db : Database) : Type 0 where
  pub row : AttemptRow
  pub there : select_attempt attempt_id db ≡ some row
  pub of_job : row.job_id ≡ job_id
  pub number : row.attempt_number ≡ attempt_number

-- A row of a Job later: its id, its key and its payload stay.
abbrev pub SameJob : JobRow → JobRow → Type 0
SameJob j i =
    (i.job_id ≡ j.job_id)
    × (i.idempotency_key ≡ j.idempotency_key)
    × (i.payload_canonical ≡ j.payload_canonical)

-- No Job goes, each keeps these, and new ones follow.
abbrev pub JobsStay : List JobRow → List JobRow → Type 0
JobsStay [] jobs = Unit
JobsStay (j ∷ jobs) [] = ⊥
JobsStay (j ∷ jobs) (i ∷ more) = SameJob j i × JobsStay jobs more

pub JobsStay-refl : (jobs : List JobRow) → JobsStay jobs jobs
JobsStay-refl [] = tt
JobsStay-refl (j ∷ jobs) = ((refl, refl, refl), JobsStay-refl jobs)

pub JobsStay-trans :
    (jobs more most : List JobRow) → JobsStay jobs more → JobsStay more most → JobsStay jobs most
JobsStay-trans [] more most p q = tt
JobsStay-trans (j ∷ jobs) [] most p q = absurd p
JobsStay-trans (j ∷ jobs) (i ∷ more) [] p q = absurd q
JobsStay-trans (j ∷ jobs) (i ∷ more) (h ∷ most) p q = (
  (ground (arith, p.0.0, q.0.0), ground (arith, p.0.1, q.0.1), q.0.2 ∙ p.0.2),
  JobsStay-trans jobs more most p.1 q.1,
)

pub JobsStay-append : (jobs more : List JobRow) → JobsStay jobs (jobs ++ more)
JobsStay-append [] more = tt
JobsStay-append (j ∷ jobs) more = ((refl, refl, refl), JobsStay-append jobs more)

-- Another state and another time.
pub JobsStay-update :
    (k : Ident) (f : JobRow → JobRow) (jobs : List JobRow)
    → ((j : JobRow) → SameJob j (f j))
    → JobsStay jobs (update_where (λ j. j.job_id == k) f jobs)
JobsStay-update k f [] same = tt
JobsStay-update k f (j ∷ jobs) same = elim (Bool-cases (j.job_id == k)) [
  | inl this ↦ rw this (same j, JobsStay-update k f jobs same)
  | inr other ↦ rw other ((refl, refl, refl), JobsStay-update k f jobs same)
]

-- The Job that a key finds, later.
pub JobsStay-keyed :
    (key : Ident) (jobs more : List JobRow) (j : JobRow)
    → JobsStay jobs more
    → key_named key jobs ≡ some j
    → (i : JobRow) × (key_named key more ≡ some i) × SameJob j i
JobsStay-keyed key [] more j p h = absurd (ground arith)
JobsStay-keyed key (k ∷ jobs) [] j p h = absurd p
JobsStay-keyed key (k ∷ jobs) (i ∷ more) j p h = elim (Bool-cases (k.idempotency_key == key)) [
  | inl same ↦ let found : k ≡ j = ground arith in (i, ground (arith, p.0.1), rw (← found) p.0)
  | inr other ↦
      let (d, there, stays) = JobsStay-keyed key jobs more j p.1 (ground arith) in
      (d, ground (arith, p.0.1), stays)
]

-- What a committed transaction does to consistent tables.
pub record Advances (db db' : Database) : Type 0 where
  pub consistent : IsConsistent db'
  pub evolves : Evolves db.attempts db'.attempts
  pub jobs : JobsStay db.jobs db'.jobs

pub unchanged : (db : Database) → IsConsistent db → Advances db db
unchanged db v = record {
  consistent = v;
  evolves = Evolves-refl db.attempts;
  jobs = JobsStay-refl db.jobs;
}

pub Present-advances :
    (i k : Ident) (n : ℕ) (db db' : Database)
    → Evolves db.attempts db'.attempts
    → Present i k n db
    → Present i k n db'
unfolding select_attempt
Present-advances i k n db db' evolves p =
    let (b, there, later) = Evolves-named k db.attempts db'.attempts p.row evolves p.there in
    record {
      row = b;
      there = there;
      of_job = ground (arith, later.job, p.of_job);
      number = ground (arith, later.number, p.number);
    }
