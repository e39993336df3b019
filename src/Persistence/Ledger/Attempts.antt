-- ===== src/Persistence/Ledger/Attempts.antt =====
-- What starting, updating and completing an attempt does to the life of its Job.
use mathlib.Core.Path.{subst}
use boolean_maybe.Prelude.{
  ℕ, suc, ◌+◌, ◌≤◌, ◌≡◌, ◌≢◌, ◌⊎◌, inl, inr, refl, true, false, none, some, List, [], ◌∷◌, ◌++◌,
  ◌==◌, arith, Option-cases, any, false, update_where, select, length, is_none,
}
use boolean_maybe.Persistence.Rows.{Ident, JobState, AttemptState, AttemptRow, is_succeeded}
use boolean_maybe.Persistence.Database.{highest_attempt, is_success_evidence, attempts_of}
use boolean_maybe.Persistence.Ledger.{Life, Distinct}
use boolean_maybe.Persistence.Ledger.Select.{attempt_named}

highest_attempt-none : (rows : List AttemptRow) → highest_attempt rows ≡ none → rows ≡ []
unfolding highest_attempt
highest_attempt-none [] h = refl
highest_attempt-none (a ∷ rows) h = ground arith

-- The attempt with the highest number is the last.
pub highest_attempt-Life :
    (n : ℕ) (s : JobState) (rows : List AttemptRow) (l : AttemptRow)
    → Life n s rows
    → highest_attempt rows ≡ some l
    → suc l.attempt_number ≡ n + length rows
unfolding highest_attempt
highest_attempt-Life n s [] l h e = ground arith
highest_attempt-Life n s (a ∷ rows) l h e = elim (Option-cases (highest_attempt rows)) [
  | inl last ↦ ground (arith, highest_attempt-none rows)
  | inr (m, later) ↦ ground (arith, highest_attempt-Life (suc n) s rows m)
]

-- A new attempt follows retryable failures alone, and has the next number.
pub Life-append :
    (n : ℕ) (s : JobState) (rows : List AttemptRow) (a : AttemptRow)
    → Life n s rows
    → (s ≡ JobState.pending) ⊎ (s ≡ JobState.retry_scheduled)
    → a.state ≡ AttemptState.started
    → a.attempt_number ≡ n + length rows
    → Life n JobState.submitting (rows ++ a ∷ [])
Life-append n s [] a h t e m = ground arith
Life-append n s (b ∷ rows) a h t e m = ground (arith, Life-append (suc n) s rows a)

-- The update of a started attempt is the update of the last.
pub Life-update :
    (n : ℕ) (s : JobState) (k : Ident) (f : AttemptRow → AttemptRow) (rows : List AttemptRow)
    (a : AttemptRow)
    → Life n JobState.submitting rows
    → attempt_named k rows ≡ some a
    → a.state ≡ AttemptState.started
    → Life a.attempt_number s (f a ∷ [])
    → Life n s (update_where (λ b. b.attempt_id == k) f rows)
Life-update n s k f [] a h e t c = ground arith
Life-update n s k f (b ∷ rows) a h e t c = ground (arith, Life-update (suc n) s k f rows a)

-- No attempt of a Job passes the budget.
pub Life-budget :
    (n : ℕ) (s : JobState) (k : Ident) (rows : List AttemptRow) (a : AttemptRow)
    → Life n s rows
    → attempt_named k rows ≡ some a
    → (n ≤ a.attempt_number) × (a.attempt_number ≤ 3)
Life-budget n s k [] a h e = ground arith
Life-budget n s k (b ∷ rows) a h e = ground (arith, Life-budget (suc n) s k rows a)

tail-Life :
    (n : ℕ) (s : JobState) (a : AttemptRow) (rows : List AttemptRow) (m : AttemptRow)
    → Life n s (a ∷ rows)
    → highest_attempt rows ≡ some m
    → Life (suc n) s rows
unfolding highest_attempt
tail-Life n s a [] m h e = ground arith
tail-Life n s a (b ∷ rows) m h e = ground arith

-- What the last attempt of a Job in each state looks like.
abbrev pub LastFits : JobState → AttemptRow → Type 0
LastFits JobState.pending l = ⊥
LastFits JobState.submitting l = l.state ≡ AttemptState.started
LastFits JobState.retry_scheduled l =
    (l.state ≡ AttemptState.retryable_failure)
    × (is_none l.completed_at ≡ false)
    × (is_none l.retry_after_ms ≡ false)
LastFits JobState.succeeded l =
    (l.state ≡ AttemptState.succeeded)
    × (is_success_evidence l.http_status l.remote_request_id ≡ true)
LastFits JobState.failed_permanent l =
    (l.state ≡ AttemptState.permanent_failure) ⊎ (l.state ≡ AttemptState.retryable_failure)
LastFits JobState.ambiguous l = l.state ≡ AttemptState.ambiguous

last-LastFits : (n : ℕ) (s : JobState) (a : AttemptRow) → 1 ≤ n → Life n s (a ∷ []) → LastFits s a
last-LastFits n JobState.pending a p h = ground arith
last-LastFits n _ a p h = ground arith

-- The attempt with the highest number fits the Job's state.
pub highest_attempt-LastFits :
    (n : ℕ) (s : JobState) (rows : List AttemptRow) (l : AttemptRow)
    → 1 ≤ n
    → Life n s rows
    → highest_attempt rows ≡ some l
    → LastFits s l
highest_attempt-LastFits n s [] l p h e = absurd (unfold highest_attempt in ground arith)
highest_attempt-LastFits n s (a ∷ rows) l p h e = elim (Option-cases (highest_attempt rows)) [
  | inl last ↦
      let none_left : rows ≡ [] = highest_attempt-none rows last in
      let is_last : a ≡ l = unfold highest_attempt in ground arith in
      subst (LastFits s) is_last (last-LastFits n s a p (subst (λ r. Life n s (a ∷ r)) none_left h))
  | inr (m, later) ↦
      let above : suc m.attempt_number ≡ suc n + length rows =
        highest_attempt-Life (suc n) s rows m (tail-Life n s a rows m h later) later in
      let is_last : m ≡ l = unfold highest_attempt in ground arith in
      subst (LastFits s) is_last (
        highest_attempt-LastFits (suc n) s rows m (omega arith) (tail-Life n s a rows m h later)
          later)
]

pub Life-pending :
    (n : ℕ) (rows : List AttemptRow) → 1 ≤ n → Life n JobState.pending rows → rows ≡ []
Life-pending n rows p h = elim (Option-cases (highest_attempt rows)) [
  | inl e ↦ highest_attempt-none rows e
  | inr (l, e) ↦ absurd (highest_attempt-LastFits n JobState.pending rows l p h e)
]

-- A Job past its first state has an attempt.
pub highest_attempt-there :
    (s : JobState) (rows : List AttemptRow)
    → Life 1 s rows
    → s ≢ JobState.pending
    → (l : AttemptRow) × (highest_attempt rows ≡ some l)
highest_attempt-there s [] h ne = absurd (ne h)
highest_attempt-there s (a ∷ rows) h ne = elim (Option-cases (highest_attempt (a ∷ rows))) [
  | inl e ↦ absurd (cc (highest_attempt-none (a ∷ rows) e))
  | inr found ↦ found
]

-- A Job that succeeded has one successful attempt, the last.
pub select-succeeded :
    (n : ℕ) (rows : List AttemptRow) (l : AttemptRow)
    → 1 ≤ n
    → Life n JobState.succeeded rows
    → highest_attempt rows ≡ some l
    → select (λ a. is_succeeded a.state) rows ≡ l ∷ []
unfolding highest_attempt
select-succeeded n [] l p h e = absurd (ground arith)
select-succeeded n (a ∷ rows) l p h e = elim (Option-cases (highest_attempt rows)) [
  | inl last ↦ let none_left : rows ≡ [] = highest_attempt-none rows last in ground arith
  | inr (m, later) ↦
      let life : Life (suc n) JobState.succeeded rows =
        tail-Life n JobState.succeeded a rows m h later in
      let above : suc m.attempt_number ≡ suc n + length rows =
        highest_attempt-Life (suc n) JobState.succeeded rows m life later in
      let rest : select (λ b. is_succeeded b.state) rows ≡ m ∷ [] =
        select-succeeded (suc n) rows m (omega arith) life later in
      ground arith
]

named-any :
    (k : Ident) (rows : List AttemptRow) (a : AttemptRow)
    → attempt_named k rows ≡ some a
    → any (λ b. b.attempt_id == k) rows ≡ true
named-any k [] a h = ground arith
named-any k (b ∷ rows) a h = ground (arith, named-any k rows a)

-- The last attempt of a Job is the row that its id finds, and is the Job's.
pub highest_attempt-named :
    (i : Ident) (rows : List AttemptRow) (l : AttemptRow)
    → Distinct rows
    → highest_attempt (attempts_of i rows) ≡ some l
    → (attempt_named l.attempt_id rows ≡ some l) × (l.job_id ≡ i)
unfolding highest_attempt attempts_of
highest_attempt-named i [] l d h = absurd (ground arith)
highest_attempt-named i (b ∷ rows) l d h =
    elim (Option-cases (highest_attempt (attempts_of i rows))) [
      | inl e ↦ ground arith
      | inr (m, e) ↦
          let (there, of_job) = highest_attempt-named i rows m d.1 e in
          let apart : (b.attempt_id == m.attempt_id) ≡ false =
            ground (arith, named-any m.attempt_id rows m there, d.0) in
          ground arith
    ]
