-- ===== src/Examples/Workflows.antt =====
-- The workflows of src/boolean_maybe/application/submit.py, reconciliation_sequence.py and
-- recovery.py at concrete inputs.
use boolean_maybe.Prelude.{◌≡◌, ◌⊎◌, inl, inr, refl, false, true, some, List, [], ◌∷◌}
use boolean_maybe.Persistence.Rows.{Ident, Instant, Database}
use boolean_maybe.Persistence.Database.{empty, select_attempt}
use boolean_maybe.Persistence.Ledger.Evolution.{Present}
use boolean_maybe.Persistence.Reachable.{Reachable, start, Steps, none_more}
use boolean_maybe.External.Outcome.{SubmitHttpOutcome, ReconcileHttpOutcome}
use boolean_maybe.Application.Waiting.{new_budget}
use boolean_maybe.Application.Flow.{World, Moment}
use boolean_maybe.Application.Flow.Rules.{IfOk}
use boolean_maybe.Application.ReconciliationSequence.{Owner, Ending, settled}
use boolean_maybe.Application.ReconciliationSequence.Loop.{Round, run_reconciliation_sequence}
use boolean_maybe.Application.ReconciliationSequence.Sound.{IsSettled, LawfulRound}
use boolean_maybe.Application.ReconciliationSequence.Rounds.{P, run_reconciliation_sequence_sound}
use boolean_maybe.Application.ReconciliationSequence.Requests.Rounds.{
  FewRequests, run_reconciliation_sequence_requests,
}
use boolean_maybe.Application.Recovery.{Quarantined, owner_of, recover_and_reconcile}
use boolean_maybe.Application.Recovery.Sound.{
  IsSettledRecovery, LawfulRecovery, recover_and_reconcile_sound,
}
use boolean_maybe.Application.Submit.Dispatch.{Submission, Dispatching, dispatch_and_finalize}
use boolean_maybe.Application.Submit.Sound.{IsDated, LawfulDispatch, dispatch_and_finalize_sound}
use boolean_maybe.Application.Submit.Posts.{SubmittedOnce, dispatch_and_finalize_requests}
use boolean_maybe.Application.Submit.Rendering.{Renders, render_reconciliation_outcome-Renders}
use boolean_maybe.Application.Submit.Run.{Pass, run_with_connection}
use boolean_maybe.Application.Submit.Tables.{LawfulPass, run_with_connection-Reachable}
use boolean_maybe.Examples.Tables.{
  one_date, lowest, every, payload, submitting_job, first_attempt, begun, succeeded_job,
  succeeded_attempt,
}
use boolean_maybe.Examples.Transactions.{begun-Reachable}

-- A call that no other process disturbs.
abbrev quiet : Instant → List Ident → Moment
quiet now draws = record { others = λ db. db; fault = false; now = now; draws = draws }

abbrev quiet_ending : Ending
quiet_ending = record {
  consume = quiet 2000000 [];
  record_result = quiet 2000000 [];
  append_late = quiet 2000000 (23 ∷ 24 ∷ []);
}

abbrev matching_round : Round
matching_round = record {
  consume = quiet 2000000 [];
  authorize = quiet 2000000 [];
  wait_from = 2000000;
  renewals = [];
  answer = ReconcileHttpOutcome.match_ 200 77;
  answered_at = 2000000;
  observe = quiet 2000000 (21 ∷ []);
  advance = quiet 2000000 [];
  scheduled_from = 2000000;
  ending = quiet_ending;
}

undisturbed :
    (db : Database) → Reachable every one_date lowest db → Steps every one_date lowest db db
undisturbed db reached = none_more

matching_round-Lawful : LawfulRound every one_date lowest matching_round
matching_round-Lawful = record {
  consume = undisturbed;
  authorize = undisturbed;
  renewals = tt;
  answer = inl refl;
  observe = undisturbed;
  advance = undisturbed;
  ending = (undisturbed, undisturbed, undisturbed);
}

abbrev begun_world : World
begun_world = record { db = begun; budget = new_budget; requests = [] }

first-Present : Present 1 2 1 begun
unfolding select_attempt
first-Present = record { row = first_attempt; there = refl; of_job = refl; number = refl }

abbrev first_owner : Owner
first_owner = owner_of submitting_job first_attempt 9

run_reconciliation_sequence_sound_example :
    P every one_date lowest first_owner 1 (
      (run_reconciliation_sequence one_date lowest
        (matching_round ∷ [])
        first_owner
        20
        begun_world).1)
    × IfOk
        (λ x.
          IsSettled first_owner x
            (run_reconciliation_sequence one_date lowest
              (matching_round ∷ [])
              first_owner
              20
              begun_world).1.db)
        (run_reconciliation_sequence one_date lowest
          (matching_round ∷ [])
          first_owner
          20
          begun_world).0
run_reconciliation_sequence_sound_example =
    run_reconciliation_sequence_sound every one_date lowest first_owner 1 (matching_round ∷ []) 20
      begun_world (matching_round-Lawful, tt) begun-Reachable first-Present

run_reconciliation_sequence_requests_example :
    FewRequests []
      (run_reconciliation_sequence one_date lowest
        (matching_round ∷ [])
        first_owner
        20
        begun_world).0
      (run_reconciliation_sequence one_date lowest
        (matching_round ∷ [])
        first_owner
        20
        begun_world).1
run_reconciliation_sequence_requests_example =
    run_reconciliation_sequence_requests one_date lowest first_owner (matching_round ∷ []) 20
      begun_world

-- The attempt is taken over after its lease.
abbrev late_quarantine : Quarantined
late_quarantine = record {
  claim = quiet 70000000 [];
  sequence_id = 20;
  rounds = matching_round ∷ [];
}

late_quarantine-Lawful : LawfulRecovery every one_date lowest late_quarantine
late_quarantine-Lawful = record { claim = undisturbed; rounds = (matching_round-Lawful, tt) }

recover_and_reconcile_sound_example :
    P every one_date lowest first_owner 1 (
      (recover_and_reconcile one_date lowest submitting_job first_attempt 10 60 late_quarantine
        begun_world).1)
    × IfOk
        (λ r.
          IsSettledRecovery submitting_job.job_id first_attempt.attempt_id r
            (recover_and_reconcile one_date lowest submitting_job first_attempt 10 60
              late_quarantine begun_world).1.db)
        (recover_and_reconcile one_date lowest submitting_job first_attempt 10 60 late_quarantine
          begun_world).0
recover_and_reconcile_sound_example =
    recover_and_reconcile_sound every one_date lowest submitting_job first_attempt 10 60 1
      late_quarantine late_quarantine-Lawful begun_world begun-Reachable first-Present

abbrev submission : Submission
submission = record {
  supplied_key = some 7;
  canonical_bytes = payload;
  digest = 5;
  invocation_token = 9;
  lease_seconds = 60;
}

abbrev dispatching : Dispatching
dispatching = record {
  renew = quiet 2000000 [];
  is_cancelled = false;
  answer = some (SubmitHttpOutcome.success 201 77);
  finalize = quiet 2000000 (31 ∷ 32 ∷ []);
  late_from = 2000000;
  append_late = quiet 2000000 [];
  sequence_id = 20;
  rounds = [];
}

dispatching-Lawful : LawfulDispatch every one_date lowest dispatching
dispatching-Lawful = record {
  renew = undisturbed;
  answer = inr refl;
  finalize = undisturbed;
  append_late = undisturbed;
  rounds = tt;
}

dispatch_and_finalize_sound_example :
    P every one_date lowest first_owner 1 (
      (dispatch_and_finalize one_date lowest submission submitting_job first_attempt dispatching
        begun_world).1)
    × IfOk IsDated
        (dispatch_and_finalize one_date lowest submission submitting_job first_attempt dispatching
          begun_world).0
dispatch_and_finalize_sound_example =
    dispatch_and_finalize_sound every one_date lowest submission submitting_job first_attempt
      dispatching dispatching-Lawful begun_world begun-Reachable first-Present

dispatch_and_finalize_requests_example :
    (((dispatch_and_finalize one_date lowest submission submitting_job first_attempt dispatching
          begun_world).1.requests
        ≡ [])
      × IfOk
          (λ r. r.1 ≡ false)
          (dispatch_and_finalize one_date lowest submission submitting_job first_attempt dispatching
            begun_world).0)
    ⊎ SubmittedOnce [] first_attempt dispatching
        (dispatch_and_finalize one_date lowest submission submitting_job first_attempt dispatching
          begun_world).0
        (dispatch_and_finalize one_date lowest submission submitting_job first_attempt dispatching
          begun_world).1
dispatch_and_finalize_requests_example =
    dispatch_and_finalize_requests one_date lowest submission submitting_job first_attempt
      dispatching [] begun_world refl

render_reconciliation_outcome-Renders_example :
    Renders (settled succeeded_job succeeded_attempt 1) 5 true
render_reconciliation_outcome-Renders_example =
    render_reconciliation_outcome-Renders (settled succeeded_job succeeded_attempt 1) 5 true refl

abbrev first_pass : Pass
first_pass = record {
  begin = quiet 1000000 [];
  turns = record { key = 7; now = 1000000; lease_now = 1000000; draws = 1 ∷ 2 ∷ [] } ∷ [];
  recovery = late_quarantine;
  wait_from = 1000000;
  dispatch = dispatching;
  retry_from = 2000000;
}

first_pass-Lawful : LawfulPass every (λ bytes. 5) one_date lowest submission first_pass
first_pass-Lawful = record {
  begin = undisturbed;
  recovery = late_quarantine-Lawful;
  dispatch = dispatching-Lawful;
}

abbrev empty_world : World
empty_world = record { db = empty; budget = new_budget; requests = [] }

run_with_connection-Reachable_example : Reachable every one_date lowest (
    (run_with_connection every
      (λ bytes. 5)
      one_date
      lowest
      submission
      (first_pass ∷ [])
      empty_world).1.db)
run_with_connection-Reachable_example =
    run_with_connection-Reachable every (λ bytes. 5) one_date lowest submission (first_pass ∷ [])
      empty_world (first_pass-Lawful, tt) start
