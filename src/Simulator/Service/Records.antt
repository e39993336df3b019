-- ===== src/Simulator/Service/Records.antt =====
-- About the processed records in src/boolean_maybe/simulator/service.py.
use boolean_maybe.Prelude.{
  Bool, ℕ, ◌≡◌, ◌⊎◌, refl, inl, inr, true, false, not, Option, none, some, arith, is_none,
  Bool-cases, Option-cases,
}
use boolean_maybe.Persistence.Rows.{Ident, Bytes, Operation}
use boolean_maybe.Persistence.Database.{bytes_eq}
use boolean_maybe.Simulator.Scenario.{Scenario, Action, ScenarioPlan, resolve, resolve_action}
use boolean_maybe.Simulator.State.{
  ProcessedRecord, KeyCoordinator, next_ordinal, find_record, get_record, create_record,
}
use boolean_maybe.Simulator.Service.{
  Body, response, is_duplicate, Outcome, conflicts, process, normal_submission, submission_action,
  submission_step, handle_submission, reconciliation_step, handle_reconciliation,
}

-- The record of a key, as its first submission made it.
record Stores (key : Ident) (bytes_of : Bytes) (digest_of : Ident) (c : KeyCoordinator)
    : Type 0 where
  pub stored : ProcessedRecord
  pub there : get_record key c ≡ some stored
  pub bytes : stored.canonical_bytes ≡ bytes_of
  pub digest : stored.payload_digest ≡ digest_of

module _ (remote_id : Ident → Ident) (duplicate : Ident) (plan : ScenarioPlan) where
  submission_action-keeps :
      (action : Action) (key : Ident) (bytes : Bytes) (digest : Ident) (s : Option Scenario) (n : ℕ)
      (c : KeyCoordinator) (k : Ident) (r : ProcessedRecord)
      → get_record k c ≡ some r
      → get_record k
          (submission_action remote_id duplicate plan action key bytes digest s n
            (get_record key c)
            c).1
        ≡ some r
  unfolding submission_action process normal_submission create_record get_record find_record
  submission_action-keeps action key bytes digest s n c k r h =
      elim (Option-cases (get_record key c)) [ inl e ↦ ground arith | inr (x, e) ↦ ground arith ]

  submission_step-keeps :
      (action : Option Action) (key : Ident) (bytes : Bytes) (digest : Ident) (s : Option Scenario)
      (n : ℕ) (c : KeyCoordinator) (o : Outcome) (c' : KeyCoordinator) (k : Ident)
      (r : ProcessedRecord)
      → submission_step remote_id duplicate plan action key bytes digest s n (get_record key c) c
        ≡ some (o, c')
      → get_record k c ≡ some r
      → get_record k c' ≡ some r
  unfolding submission_step
  submission_step-keeps none key bytes digest s n c o c' k r h e = absurd (ground arith)
  submission_step-keeps (some action) key bytes digest s n c o c' k r h e =
      elim (Bool-cases (conflicts (get_record key c) bytes)) [
        | inl conflict ↦ let same : c' ≡ c = ground arith in rw same e
        | inr fine ↦
            let same : c'
                ≡ (submission_action remote_id duplicate plan action key bytes digest s n
                    (get_record key c) c).1 =
              ground arith in
            rw same (submission_action-keeps action key bytes digest s n c k r e)
      ]

  -- No submission changes or removes a record that is there, of whichever key.
  pub handle_submission-keeps :
      (key : Ident) (canonical_bytes : Bytes) (digest : Ident) (c : KeyCoordinator) (o : Outcome)
      (c' : KeyCoordinator) (k : Ident) (r : ProcessedRecord)
      → handle_submission remote_id duplicate plan key canonical_bytes digest c ≡ some (o, c')
      → get_record k c ≡ some r
      → get_record k c' ≡ some r
  unfolding handle_submission next_ordinal get_record
  handle_submission-keeps key canonical_bytes digest c o c' k r h e =
      submission_step-keeps _ key canonical_bytes digest _ _
        (next_ordinal Operation.submission key c).1 o c' k r h e

  submission_action-processed :
      (action : Action) (key : Ident) (bytes : Bytes) (digest : Ident) (s : Option Scenario) (n : ℕ)
      (c c' : KeyCoordinator) (o : Outcome)
      → submission_action remote_id duplicate plan action key bytes digest s n (get_record key c) c
        ≡ (o, c')
      → o.processed ≡ not (is_none (get_record key c'))
  unfolding submission_action process normal_submission create_record get_record find_record
  submission_action-processed action key bytes digest s n c c' o h =
      elim (Option-cases (get_record key c)) [ inl e ↦ ground arith | inr (x, e) ↦ ground arith ]

  submission_step-processed :
      (action : Option Action) (key : Ident) (bytes : Bytes) (digest : Ident) (s : Option Scenario)
      (n : ℕ) (c : KeyCoordinator) (o : Outcome) (c' : KeyCoordinator)
      → submission_step remote_id duplicate plan action key bytes digest s n (get_record key c) c
        ≡ some (o, c')
      → o.processed ≡ not (is_none (get_record key c'))
  unfolding submission_step
  submission_step-processed none key bytes digest s n c o c' h = absurd (ground arith)
  submission_step-processed (some action) key bytes digest s n c o c' h =
      elim (Bool-cases (conflicts (get_record key c) bytes)) [
        | inl conflict ↦ elim (Option-cases (get_record key c)) [
          | inl e ↦ absurd (ground arith)
          | inr (x, e) ↦ ground arith
        ]
        | inr fine ↦ submission_action-processed action key bytes digest s n c c' o (ground arith)
      ]

  -- The `processed` flag of a submission's outcome tells whether the key has a record afterwards.
  pub handle_submission-processed :
      (key : Ident) (canonical_bytes : Bytes) (digest : Ident) (c : KeyCoordinator) (o : Outcome)
      (c' : KeyCoordinator)
      → handle_submission remote_id duplicate plan key canonical_bytes digest c ≡ some (o, c')
      → o.processed ≡ not (is_none (get_record key c'))
  unfolding handle_submission next_ordinal
  handle_submission-processed key canonical_bytes digest c o c' h =
      submission_step-processed _ key canonical_bytes digest _ _
        (next_ordinal Operation.submission key c).1 o c' h

  created-Stores :
      (key : Ident) (bytes : Bytes) (digest : Ident) (dup : Bool) (c c' : KeyCoordinator)
      → (create_record remote_id duplicate key bytes digest dup c).1 ≡ c'
      → Stores key bytes digest c'
  unfolding create_record get_record find_record
  created-Stores key bytes digest dup c c' e = record {
    stored = (create_record remote_id duplicate key bytes digest dup c).0;
    there = rw (← e) (ground arith);
    bytes = refl;
    digest = refl;
  }

  -- A submission of a key without a record makes one of its own bytes, if any.
  submission_action-Stores :
      (action : Action) (key : Ident) (bytes : Bytes) (digest : Ident) (s : Option Scenario) (n : ℕ)
      (c c' : KeyCoordinator) (o : Outcome)
      → submission_action remote_id duplicate plan action key bytes digest s n none c ≡ (o, c')
      → o.processed ≡ true
      → Stores key bytes digest c'
  unfolding submission_action process normal_submission
  submission_action-Stores Action.return_500 key bytes digest s n c c' o h p = absurd (ground arith)
  submission_action-Stores Action.return_429 key bytes digest s n c c' o h p = absurd (ground arith)
  submission_action-Stores Action.timeout_no_process key bytes digest s n c c' o h p =
      absurd (ground arith)
  submission_action-Stores Action.process_then_disconnect key bytes digest s n c c' o h p =
      created-Stores key bytes digest false c c' (ground arith)
  submission_action-Stores Action.process_then_timeout key bytes digest s n c c' o h p =
      created-Stores key bytes digest false c c' (ground arith)
  submission_action-Stores Action.process_then_500 key bytes digest s n c c' o h p =
      created-Stores key bytes digest false c c' (ground arith)
  submission_action-Stores Action.normal key bytes digest s n c c' o h p =
      created-Stores key bytes digest (is_duplicate s) c c' (ground arith)

  submission_step-Stores :
      (action : Option Action) (key : Ident) (bytes : Bytes) (digest : Ident) (s : Option Scenario)
      (n : ℕ) (c : KeyCoordinator) (o : Outcome) (c' : KeyCoordinator)
      → submission_step remote_id duplicate plan action key bytes digest s n none c ≡ some (o, c')
      → o.processed ≡ true
      → Stores key bytes digest c'
  unfolding submission_step
  submission_step-Stores none key bytes digest s n c o c' h p = absurd (ground arith)
  submission_step-Stores (some action) key bytes digest s n c o c' h p =
      submission_action-Stores action key bytes digest s n c c' o (ground arith) p

  handle_submission-Stores :
      (key : Ident) (bytes : Bytes) (digest : Ident) (c : KeyCoordinator) (o : Outcome)
      (c' : KeyCoordinator)
      → get_record key c ≡ none
      → handle_submission remote_id duplicate plan key bytes digest c ≡ some (o, c')
      → o.processed ≡ true
      → Stores key bytes digest c'
  unfolding handle_submission next_ordinal get_record
  handle_submission-Stores key bytes digest c o c' e h p =
      submission_step-Stores _ key bytes digest _ _ (next_ordinal Operation.submission key c).1 o c'
        (rw e at h) p

  -- The coordinator after any further requests.
  pub data Handled (c : KeyCoordinator) : KeyCoordinator → Type 0 where
    no_more : Handled c c
    submitted :
        (c1 c' : KeyCoordinator) (key : Ident) (bytes : Bytes) (digest : Ident) (o : Outcome)
        → Handled c c1
        → handle_submission remote_id duplicate plan key bytes digest c1 ≡ some (o, c')
        → Handled c c'
    asked_for :
        (c1 c' : KeyCoordinator) (key : Ident) (o : Outcome)
        → Handled c c1
        → handle_reconciliation remote_id duplicate plan key c1 ≡ some (o, c')
        → Handled c c'

  handle_reconciliation-keeps :
      (key : Ident) (c : KeyCoordinator) (o : Outcome) (c' : KeyCoordinator)
      → handle_reconciliation remote_id duplicate plan key c ≡ some (o, c')
      → c'.records ≡ c.records
  unfolding handle_reconciliation next_ordinal reconciliation_step
  handle_reconciliation-keeps key c o c' h =
      elim (Option-cases (
        resolve_action (resolve plan Operation.reconciliation key) Operation.reconciliation
          (next_ordinal Operation.reconciliation key c).0)) [
            | inl none_left ↦ absurd (ground arith)
            | inr (action, q) ↦ ground arith
          ]

  Handled-keeps :
      (c c' : KeyCoordinator) (k : Ident) (r : ProcessedRecord)
      → Handled c c'
      → get_record k c ≡ some r
      → get_record k c' ≡ some r
  unfolding get_record
  Handled-keeps c _ k r no_more e = e
  Handled-keeps c _ k r (submitted c1 c' key bytes digest o before h) e =
      handle_submission-keeps key bytes digest c1 o c' k r h (Handled-keeps c c1 k r before e)
  Handled-keeps c _ k r (asked_for c1 c' key o before h) e =
      rw (handle_reconciliation-keeps key c1 o c' h) (Handled-keeps c c1 k r before e)

  conflict-answer :
      (key : Ident) (bytes : Bytes) (digest : Ident) (c : KeyCoordinator) (o : Outcome)
      (c' : KeyCoordinator) (r : ProcessedRecord)
      → get_record key c ≡ some r
      → bytes_eq r.canonical_bytes bytes ≡ false
      → handle_submission remote_id duplicate plan key bytes digest c ≡ some (o, c')
      → (o.delivery ≡ response 409 (Body.idempotency_conflict r.payload_digest digest) none)
        × (c'.records ≡ c.records)
  unfolding handle_submission next_ordinal submission_step get_record
  conflict-answer key bytes digest c o c' r e ne h =
      elim (Option-cases (
        resolve_action (resolve plan Operation.submission key) Operation.submission
          (next_ordinal Operation.submission key c).0)) [
            | inl none_left ↦ absurd (ground arith)
            | inr (action, q) ↦ ground arith
          ]

  -- Once a first submission of a key was processed, and whatever requests were handled since, of
  -- whichever keys, a submission of that key with other bytes is answered 409 with the digest of the
  -- first one and its own, and changes no record.
  pub handle_submission-conflict :
      (key : Ident) (bytes other : Bytes) (digest other_digest : Ident)
      (c c1 c2 c3 : KeyCoordinator) (first o : Outcome)
      → get_record key c ≡ none
      → handle_submission remote_id duplicate plan key bytes digest c ≡ some (first, c1)
      → first.processed ≡ true
      → Handled c1 c2
      → bytes_eq bytes other ≡ false
      → handle_submission remote_id duplicate plan key other other_digest c2 ≡ some (o, c3)
      → (o.delivery ≡ response 409 (Body.idempotency_conflict digest other_digest) none)
        × (c3.records ≡ c2.records)
  handle_submission-conflict key bytes other digest other_digest c c1 c2 c3 first o new h p since
        differ again =
      let s = handle_submission-Stores key bytes digest c first c1 new h p in
      let there = Handled-keeps c1 c2 key s.stored since s.there in
      let (answer, same) =
        conflict-answer key other other_digest c2 o c3 s.stored there (rw s.bytes differ) again in
      (rw (← s.digest) answer, same)

  -- What the service may answer to a reconciliation request, from what it has under the key: the
  -- record, or that there is none, or the error of the scenario that always fails.
  abbrev pub Answers : Ident → Option ProcessedRecord → Scenario → ℕ → Body → Type 0
  Answers key existing scenario status body =
      ((status ≡ 200)
        × (r : ProcessedRecord) × (existing ≡ some r)
        × (body ≡ Body.reconciliation r))
      ⊎ (((status ≡ 404) × (existing ≡ none) × (body ≡ Body.not_found key))
          ⊎ ((status ≡ 500)
              × (body ≡ Body.simulated_server_error)
              × (scenario ≡ Scenario.always_500)))
