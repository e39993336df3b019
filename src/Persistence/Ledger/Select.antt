-- ===== src/Persistence/Ledger/Select.antt =====
-- How the statements that write rows show in the statements that read them.
use boolean_maybe.Prelude.{
  ◌≡◌, ◌≢◌, refl, false, ◌||◌, Option, none, some, List, [], ◌∷◌, ◌++◌, any, ◌==◌, if◌then◌else◌,
  arith, inl, inr, Option-cases, find, update_where,
}
use boolean_maybe.Persistence.Rows.{Ident, JobRow, AttemptRow}
use boolean_maybe.Persistence.Database.{attempts_of}
use boolean_maybe.Persistence.Ledger.{Distinct}

abbrev pub job_named : Ident → List JobRow → Option JobRow
job_named i = find (λ j. j.job_id == i)

abbrev pub attempt_named : Ident → List AttemptRow → Option AttemptRow
attempt_named i = find (λ a. a.attempt_id == i)

abbrev pub changed : (JobRow → JobRow) → Option JobRow → Option JobRow
changed f none = none
changed f (some j) = some (f j)

pub job_named-update :
    (k i : Ident) (f : JobRow → JobRow) (jobs : List JobRow)
    → ((j : JobRow) → (f j).job_id ≡ j.job_id)
    → job_named i (update_where (λ j. j.job_id == k) f jobs)
      ≡ (if i == k then changed f (job_named i jobs) else job_named i jobs)
job_named-update k i f [] keeps = ground arith
job_named-update k i f (j ∷ jobs) keeps = ground (arith, keeps j, job_named-update k i f jobs keeps)

pub job_named-append :
    (i : Ident) (job : JobRow) (jobs : List JobRow)
    → any (λ j. j.job_id == job.job_id) jobs ≡ false
    → job_named i (jobs ++ job ∷ []) ≡ (if i == job.job_id then some job else job_named i jobs)
job_named-append i job [] fresh = ground arith
job_named-append i job (j ∷ jobs) fresh = ground (arith, job_named-append i job jobs)

pub job_named-none :
    (i : Ident) (jobs : List JobRow)
    → any (λ j. j.job_id == i) jobs ≡ false
    → job_named i jobs ≡ none
job_named-none i [] h = refl
job_named-none i (j ∷ jobs) h = ground (arith, job_named-none i jobs)

pub job_id-job_named :
    (i : Ident) (jobs : List JobRow) (j : JobRow) → job_named i jobs ≡ some j → j.job_id ≡ i
job_id-job_named i [] j h = ground arith
job_id-job_named i (k ∷ jobs) j h = ground (arith, job_id-job_named i jobs j)

pub attempt_named-append :
    (a : AttemptRow) (rows : List AttemptRow)
    → any (λ b. b.attempt_id == a.attempt_id) rows ≡ false
    → attempt_named a.attempt_id (rows ++ a ∷ []) ≡ some a
attempt_named-append a [] fresh = ground arith
attempt_named-append a (b ∷ rows) fresh = ground (arith, attempt_named-append a rows)

-- The row that was updated.
pub found-update :
    (k : Ident) (f : AttemptRow → AttemptRow) (rows : List AttemptRow) (a : AttemptRow)
    → ((b : AttemptRow) → (f b).attempt_id ≡ b.attempt_id)
    → find (λ b. b.attempt_id == k) rows ≡ some a
    → find (λ b. b.attempt_id == k) (update_where (λ b. b.attempt_id == k) f rows) ≡ some (f a)
found-update k f [] a keeps h = ground arith
found-update k f (b ∷ rows) a keeps h = ground (arith, keeps b, found-update k f rows a keeps)

pub attempts_of-append :
    (i : Ident) (a : AttemptRow) (rows : List AttemptRow)
    → attempts_of i (rows ++ a ∷ [])
      ≡ (if a.job_id == i then attempts_of i rows ++ a ∷ [] else attempts_of i rows)
unfolding attempts_of
attempts_of-append i a [] = ground arith
attempts_of-append i a (b ∷ rows) = ground (arith, attempts_of-append i a rows)

-- An update that keeps the Job's id goes through the selection of a Job's attempts.
pub attempts_of-update :
    (k i : Ident) (f : AttemptRow → AttemptRow) (rows : List AttemptRow)
    → ((a : AttemptRow) → (f a).job_id ≡ a.job_id)
    → attempts_of i (update_where (λ a. a.attempt_id == k) f rows)
      ≡ update_where (λ a. a.attempt_id == k) f (attempts_of i rows)
unfolding attempts_of
attempts_of-update k i f [] keeps = refl
attempts_of-update k i f (a ∷ rows) keeps =
    ground (arith, keeps a, attempts_of-update k i f rows keeps)

pub attempt_named-of_job :
    (k : Ident) (rows : List AttemptRow) (a : AttemptRow)
    → attempt_named k rows ≡ some a
    → attempt_named k (attempts_of a.job_id rows) ≡ some a
unfolding attempts_of
attempt_named-of_job k [] a h = ground arith
attempt_named-of_job k (b ∷ rows) a h = ground (arith, attempt_named-of_job k rows a)

pub update-of_none :
    (k i : Ident) (f : AttemptRow → AttemptRow) (rows : List AttemptRow)
    → any (λ b. b.attempt_id == k) rows ≡ false
    → update_where (λ a. a.attempt_id == k) f (attempts_of i rows) ≡ attempts_of i rows
unfolding attempts_of
update-of_none k i f [] h = refl
update-of_none k i f (b ∷ rows) h = ground (arith, update-of_none k i f rows)

pub update-of_other :
    (k i : Ident) (f : AttemptRow → AttemptRow) (rows : List AttemptRow) (a : AttemptRow)
    → Distinct rows
    → attempt_named k rows ≡ some a
    → a.job_id ≢ i
    → update_where (λ a. a.attempt_id == k) f (attempts_of i rows) ≡ attempts_of i rows
unfolding attempts_of
update-of_other k i f [] a d h ne = ground arith
update-of_other k i f (b ∷ rows) a d h ne =
    ground (arith, update-of_none k i f rows, update-of_other k i f rows a d.1)

any-update :
    (k i : Ident) (f : AttemptRow → AttemptRow) (rows : List AttemptRow)
    → ((a : AttemptRow) → (f a).attempt_id ≡ a.attempt_id)
    → any (λ b. b.attempt_id == i) (update_where (λ a. a.attempt_id == k) f rows)
      ≡ any (λ b. b.attempt_id == i) rows
any-update k i f [] keeps = refl
any-update k i f (a ∷ rows) keeps = ground (arith, keeps a, any-update k i f rows keeps)

pub Distinct-update :
    (k : Ident) (f : AttemptRow → AttemptRow) (rows : List AttemptRow)
    → ((a : AttemptRow) → (f a).attempt_id ≡ a.attempt_id)
    → Distinct rows
    → Distinct (update_where (λ a. a.attempt_id == k) f rows)
Distinct-update k f [] keeps d = tt
Distinct-update k f (a ∷ rows) keeps d =
    ground
      (arith, keeps a, any-update k a.attempt_id f rows keeps, Distinct-update k f rows keeps d.1)

any-append :
    (i : Ident) (a : AttemptRow) (rows : List AttemptRow)
    → any (λ b. b.attempt_id == i) (rows ++ a ∷ [])
      ≡ (any (λ b. b.attempt_id == i) rows || a.attempt_id == i)
any-append i a [] = ground arith
any-append i a (b ∷ rows) = ground (arith, any-append i a rows)

pub Distinct-append :
    (a : AttemptRow) (rows : List AttemptRow)
    → any (λ b. b.attempt_id == a.attempt_id) rows ≡ false
    → Distinct rows
    → Distinct (rows ++ a ∷ [])
Distinct-append a [] fresh d = (refl, tt)
Distinct-append a (b ∷ rows) fresh d =
    ground (arith, any-append b.attempt_id a rows, Distinct-append a rows)

abbrev pub key_named : Ident → List JobRow → Option JobRow
key_named key = find (λ j. j.idempotency_key == key)

-- The row that a key finds is the row that its Job's id finds.
abbrev pub Keyed : List JobRow → Type 0
Keyed jobs =
    (key : Ident) (j : JobRow) → key_named key jobs ≡ some j → job_named j.job_id jobs ≡ some j

abbrev rewritten : Ident → (JobRow → JobRow) → Option JobRow → Option JobRow
rewritten k f none = none
rewritten k f (some j) = if j.job_id == k then some (f j) else some j

key_named-update :
    (k key : Ident) (f : JobRow → JobRow) (jobs : List JobRow)
    → ((j : JobRow) → (f j).idempotency_key ≡ j.idempotency_key)
    → key_named key (update_where (λ j. j.job_id == k) f jobs) ≡ rewritten k f (key_named key jobs)
key_named-update k key f [] keeps = refl
key_named-update k key f (j ∷ jobs) keeps =
    ground (arith, keeps j, key_named-update k key f jobs keeps)

pub Keyed-update :
    (k : Ident) (f : JobRow → JobRow) (jobs : List JobRow)
    → ((j : JobRow) → (f j).job_id ≡ j.job_id)
    → ((j : JobRow) → (f j).idempotency_key ≡ j.idempotency_key)
    → Keyed jobs
    → Keyed (update_where (λ j. j.job_id == k) f jobs)
Keyed-update k f jobs keeps_id keeps_key v key j h = elim (Option-cases (key_named key jobs)) [
  | inl missing ↦ absurd (ground (arith, key_named-update k key f jobs keeps_key))
  | inr (i, found) ↦ ground (
    arith,
    keeps_id i,
    key_named-update k key f jobs keeps_key,
    job_named-update k j.job_id f jobs keeps_id,
    v key i found,
  )
]

key_named-append :
    (key : Ident) (job : JobRow) (jobs : List JobRow)
    → key_named key (jobs ++ job ∷ []) ≡ elim (key_named key jobs) [
      | none ↦ if job.idempotency_key == key then some job else none
      | some j ↦ some j
    ]
key_named-append key job [] = refl
key_named-append key job (j ∷ jobs) = ground (arith, key_named-append key job jobs)

pub Keyed-append :
    (job : JobRow) (jobs : List JobRow)
    → any (λ j. j.job_id == job.job_id) jobs ≡ false
    → Keyed jobs
    → Keyed (jobs ++ job ∷ [])
Keyed-append job jobs fresh v key j h = ground (
  arith,
  key_named-append key job jobs,
  job_named-append j.job_id job jobs fresh,
  job_named-none job.job_id jobs,
  v key j,
)
