-- ===== src/Application/AttemptHistory/Projection.antt =====
-- The order of the history that `read_attempt_history` of
-- src/boolean_maybe/application/history_projection.py projects.
use boolean_maybe.Prelude.{
  ℕ, ◌≤◌, ◌≡◌, inl, inr, refl, Bool, List, [], ◌∷◌, arith, map, length, leb, select, All,
  Bool-cases,
}
use boolean_maybe.Persistence.Rows.{Ident, AttemptRow, Database}
use boolean_maybe.Persistence.Database.{attempts_of}
use boolean_maybe.Application.AttemptHistory.{
  AttemptHistoryItem, history_item, insert_by_number, by_number, read_attempt_history,
}

-- No item comes before one of a lower number.
abbrev pub InOrder : List AttemptHistoryItem → Type 0
InOrder [] = Unit
InOrder (i ∷ items) = All (λ j. i.attempt_number ≤ j.attempt_number) items × InOrder items

abbrev AllFrom : ℕ → List AttemptRow → Type 0
AllFrom n = All (λ b. n ≤ b.attempt_number)

abbrev RowsInOrder : List AttemptRow → Type 0
RowsInOrder [] = Unit
RowsInOrder (a ∷ rows) = AllFrom a.attempt_number rows × RowsInOrder rows

AllFrom-less : (m n : ℕ) (rows : List AttemptRow) → m ≤ n → AllFrom n rows → AllFrom m rows
AllFrom-less m n [] h all = tt
AllFrom-less m n (b ∷ rows) h all = (ground (arith, all.0), AllFrom-less m n rows h all.1)

AllFrom-insert :
    (n : ℕ) (a : AttemptRow) (rows : List AttemptRow)
    → n ≤ a.attempt_number
    → AllFrom n rows
    → AllFrom n (insert_by_number a rows)
unfolding insert_by_number
AllFrom-insert n a [] h all = (h, tt)
AllFrom-insert n a (b ∷ rows) h all = elim (Bool-cases (leb a.attempt_number b.attempt_number)) [
  | inl first ↦ rw first (h, all)
  | inr after ↦ rw after (all.0, AllFrom-insert n a rows h all.1)
]

insert-RowsInOrder :
    (a : AttemptRow) (rows : List AttemptRow)
    → RowsInOrder rows
    → RowsInOrder (insert_by_number a rows)
unfolding insert_by_number
insert-RowsInOrder a [] h = (tt, tt)
insert-RowsInOrder a (b ∷ rows) h = elim (Bool-cases (leb a.attempt_number b.attempt_number)) [
  | inl first ↦
      let less : a.attempt_number ≤ b.attempt_number = ground arith in
      rw first ((less, AllFrom-less a.attempt_number b.attempt_number rows less h.0), h)
  | inr after ↦
      rw after
        (AllFrom-insert b.attempt_number a rows (ground arith) h.0, insert-RowsInOrder a rows h.1)
]

by_number-RowsInOrder : (rows : List AttemptRow) → RowsInOrder (by_number rows)
unfolding by_number
by_number-RowsInOrder [] = tt
by_number-RowsInOrder (a ∷ rows) =
    insert-RowsInOrder a (by_number rows) (by_number-RowsInOrder rows)

module _ (db : Database) where
  items-All :
      (n : ℕ) (rows : List AttemptRow)
      → AllFrom n rows
      → All (λ j. n ≤ j.attempt_number) (map (history_item db) rows)
  unfolding history_item
  items-All n [] h = tt
  items-All n (a ∷ rows) h = (h.0, items-All n rows h.1)

  items-InOrder : (rows : List AttemptRow) → RowsInOrder rows → InOrder (map (history_item db) rows)
  unfolding history_item
  items-InOrder [] h = tt
  items-InOrder (a ∷ rows) h = (items-All a.attempt_number rows h.0, items-InOrder rows h.1)

  -- The number of items that pass a test.
  module _ (p : AttemptHistoryItem → Bool) where
    abbrev counted : List AttemptRow → ℕ
    counted rows = length (select p (map (history_item db) rows))

    counted-insert :
        (a : AttemptRow) (rows : List AttemptRow)
        → counted (insert_by_number a rows) ≡ counted (a ∷ rows)
    unfolding insert_by_number
    counted-insert a [] = refl
    counted-insert a (b ∷ rows) = ground (arith, counted-insert a rows)

    counted-by_number : (rows : List AttemptRow) → counted (by_number rows) ≡ counted rows
    unfolding by_number
    counted-by_number [] = refl
    counted-by_number (a ∷ rows) =
        ground (arith, counted-insert a (by_number rows), counted-by_number rows)

-- In whatever order the tables have the attempts of a Job, its history has an item for each of them,
-- as many with any property as there are such attempts, and is in the order of their numbers.
pub read_attempt_history_lem :
    (db : Database) (i : Ident) (p : AttemptHistoryItem → Bool)
    → InOrder (read_attempt_history i db)
      × (length (select p (read_attempt_history i db))
          ≡ length (select p (map (history_item db) (attempts_of i db.attempts))))
unfolding read_attempt_history
read_attempt_history_lem db i p =
    let rows = attempts_of i db.attempts in
    (items-InOrder db (by_number rows) (by_number-RowsInOrder rows), counted-by_number db p rows)
