-- ===== src/Persistence/Reconcile/Earliest.antt =====
-- About the choice of a late observation in `consume_late_observations` of
-- src/boolean_maybe/persistence/transactions.py.
use boolean_maybe.Prelude.{
  ℕ, ◌≤◌, ◌≡◌, ◌⊎◌, true, none, some, List, [], ◌∷◌, ◌==◌, update_where, All,
}
use boolean_maybe.Persistence.Rows.{Ident, Instant, AttemptRow, ObservationRow, Database}
use boolean_maybe.Persistence.Reconcile.{is_actionable_late_evidence, is_candidate}

module _ (attempt_id : Ident) where
  -- No candidate of the rows comes before the sequence number.
  abbrev pub AllLater : ℕ → List ObservationRow → Type 0
  AllLater n = All (λ p. is_candidate attempt_id p ≡ true → n ≤ p.sequence_number)

  -- An actionable row before which no other comes.
  abbrev pub IsEarliest : ObservationRow → List ObservationRow → Type 0
  IsEarliest o rows = (is_candidate attempt_id o ≡ true) × AllLater o.sequence_number rows

-- A row of the list.
abbrev pub Among : ObservationRow → List ObservationRow → Type 0
Among o [] = ⊥
Among o (p ∷ rows) = (p ≡ o) ⊎ Among o rows

-- A late observation of the attempt that was not yet consumed and says what became of it.
pub record IsPending (attempt_id : Ident) (o : ObservationRow) : Type 0 where
  pub of_attempt : o.attempt_id ≡ attempt_id
  pub late : o.is_late ≡ true
  pub unconsumed : o.consumed_at ≡ none
  pub actionable :
      is_actionable_late_evidence o.evidence_category o.http_status o.remote_request_id ≡ true

-- What is consumed: the pending observation of the lowest number, which is marked, and whose status
-- the attempt takes.
pub record ConsumesEarliest (k : Ident) (now : Instant) (a : AttemptRow) (db db' : Database)
    : Type 0 where
  pub consumed : ObservationRow
  pub there : Among consumed db.observations
  pub pending : IsPending k consumed
  pub earliest :
      All (λ p. IsPending k p → consumed.sequence_number ≤ p.sequence_number) db.observations
  pub marked :
      db'.observations
      ≡ update_where
          (λ p. p.observation_id == consumed.observation_id)
          (λ p. record p { consumed_at = some now })
          db.observations
  pub status : a.http_status ≡ consumed.http_status
