-- ===== src/Examples/Tables.antt =====
-- Tables as a Job's transactions leave them one after the other, and the surroundings of the calls.
use boolean_maybe.Prelude.{ℕ, ◌≤◌, Bool, true, false, Option, none, some, [], ◌∷◌, arith}
use boolean_maybe.Domain.Backoff.{RandomSource}
use boolean_maybe.Domain.RetryAfter.{Text}
use boolean_maybe.Persistence.Rows.{
  Bytes, JobState, AttemptState, Category, Operation, JobRow, AttemptRow, Database,
}
use boolean_maybe.Persistence.Lease.{Claim, Captured}
use boolean_maybe.Persistence.PreSideEffect.{Call}
use boolean_maybe.Persistence.Database.{select_attempt}
use boolean_maybe.Persistence.Ledger.Resolves.{Names}

-- Every text is a date, 3.0005 seconds after the epoch.
abbrev pub one_date : Text → Option ℕ
one_date value = some 3000500

pub self_bound : (n : ℕ) → n ≤ n
self_bound n = omega arith

-- Every draw is the lowest.
abbrev pub lowest : RandomSource
lowest = record {
  randint = λ low high. low;
  at_least = λ low high h. self_bound low;
  at_most = λ low high h. h;
}

abbrev pub every : Bytes → Bool
every bytes = true

abbrev pub payload : Bytes
payload = 123 ∷ 125 ∷ []

abbrev pub other_payload : Bytes
other_payload = 123 ∷ 49 ∷ 125 ∷ []

abbrev pub first_call : Call
first_call = record {
  invocation_token = 9;
  lease_seconds = 60;
  now = 1000000;
  lease_now = 1000000;
  draws = 1 ∷ 2 ∷ [];
}

abbrev pub second_call : Call
second_call = record {
  invocation_token = 10;
  lease_seconds = 60;
  now = 4000000;
  lease_now = 4000000;
  draws = 3 ∷ [];
}

abbrev pub submitting_job : JobRow
submitting_job = record {
  job_id = 1;
  idempotency_key = 7;
  payload_canonical = payload;
  state = JobState.submitting;
  created_at = 1000000;
  updated_at = 1000000;
}

abbrev pub first_attempt : AttemptRow
first_attempt = record {
  attempt_id = 2;
  job_id = 1;
  attempt_number = 1;
  state = AttemptState.started;
  started_at = 1000000;
  completed_at = none;
  http_status = none;
  remote_request_id = none;
  error_category = none;
  retry_after_ms = none;
  owner_token = some 9;
  fencing_generation = 1;
  lease_expires_at = some 61000000;
}

-- After the first call.
abbrev pub begun : Database
begun = record {
  jobs = submitting_job ∷ [];
  attempts = first_attempt ∷ [];
  observations = [];
  gate = none;
}

abbrev pub owner : Claim
owner = record { job_id = 1; attempt_id = 2; invocation_token = 9; fencing_generation = 1 }

pub owner-Names : Names owner 1 begun
unfolding select_attempt
owner-Names = record { of_job = λ a h. ground arith; number = λ a h. ground arith }

-- What the take-over captures of the first attempt.
abbrev pub seen_attempt : Captured
seen_attempt = record {
  job_id = 1;
  attempt_id = 2;
  owner_token = some 9;
  fencing_generation = 1;
  lease_expires_at = some 61000000;
}

abbrev pub delayed_job : JobRow
delayed_job = record submitting_job { state = JobState.retry_scheduled; updated_at = 2000000 }

abbrev pub delayed_attempt : AttemptRow
delayed_attempt = record first_attempt {
  state = AttemptState.retryable_failure;
  completed_at = some 2000000;
  http_status = some 429;
  error_category = some Category.rate_limited;
  retry_after_ms = some 1000;
  owner_token = none;
  lease_expires_at = none;
}

-- After a `429` with `Retry-After: 1`.
abbrev pub delayed : Database
delayed = record {
  jobs = delayed_job ∷ [];
  attempts = delayed_attempt ∷ [];
  observations =
      record {
        observation_id = 12;
        attempt_id = 2;
        sequence_id = 11;
        sequence_number = 1;
        operation = Operation.submission;
        request_ordinal = 1;
        observed_at = 2000000;
        dispatch_certainty = none;
        evidence_category = some Category.rate_limited;
        http_status = some 429;
        remote_request_id = none;
        retry_after_ms = some 1000;
        retry_after_diagnostic = none;
        observed_fencing_generation = 1;
        is_late = false;
        consumed_at = none;
      }
      ∷ [];
  gate = some (record { not_before = 3000000; updated_at = 2000000 });
}

abbrev pub succeeded_job : JobRow
succeeded_job = record submitting_job { state = JobState.succeeded; updated_at = 2000000 }

abbrev pub succeeded_attempt : AttemptRow
succeeded_attempt = record first_attempt {
  state = AttemptState.succeeded;
  completed_at = some 2000000;
  http_status = some 201;
  remote_request_id = some 77;
  owner_token = none;
  lease_expires_at = none;
}

-- After a reconciliation that found the remote request 77.
abbrev pub matched_tables : Database
matched_tables = record begun { jobs = succeeded_job ∷ []; attempts = succeeded_attempt ∷ [] }

-- After the second call, on `delayed`.
abbrev pub retried_job : JobRow
retried_job = record submitting_job { updated_at = 4000000 }

abbrev pub second_attempt : AttemptRow
second_attempt = record first_attempt {
  attempt_id = 3;
  attempt_number = 2;
  started_at = 4000000;
  owner_token = some 10;
  lease_expires_at = some 64000000;
}

abbrev pub retried : Database
retried = record delayed {
  jobs = retried_job ∷ [];
  attempts = delayed_attempt ∷ second_attempt ∷ [];
}
