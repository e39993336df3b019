-- ===== src/Persistence/Rows.antt =====
-- The rows of the tables and the literals that they hold: the classes of
-- src/boolean_maybe/persistence/transactions.py and the columns of schema.py. Identifiers, tokens
-- and keys are texts that this code only compares, and are numbered; an instant is a number of
-- microseconds; a payload is the list of its bytes.
use boolean_maybe.Prelude.{ℕ, ◌*◌, ◌+◌, Bool, true, false, Option, List}
use boolean_maybe.Domain.RetryAfter.{Diagnostic}

abbrev pub Ident : Type 0
Ident = ℕ

abbrev pub Instant : Type 0
Instant = ℕ

abbrev pub Bytes : Type 0
Bytes = List ℕ

-- `clock.add_milliseconds`.
abbrev pub add_milliseconds : Instant → ℕ → Instant
add_milliseconds instant milliseconds = instant + milliseconds * 1000

pub data JobState : Type 0 where
  pending submitting retry_scheduled succeeded failed_permanent ambiguous : JobState

pub data AttemptState : Type 0 where
  started succeeded retryable_failure permanent_failure ambiguous : AttemptState

-- The texts that the code stores as an error or evidence category.
pub data Category : Type 0 where
  processed validation_rejected idempotency_conflict rate_limited : Category
  transport_not_sent transport_maybe_sent server_uncertain protocol_uncertain : Category
  reconciliation_not_found reconciliation_inconclusive : Category

pub data Operation : Type 0 where
  submission reconciliation : Operation

pub data Certainty : Type 0 where
  not_sent maybe_sent : Certainty

pub record JobRow : Type 0 where
  pub job_id : Ident
  pub idempotency_key : Ident
  pub payload_canonical : Bytes
  pub state : JobState
  pub created_at : Instant
  pub updated_at : Instant

pub record AttemptRow : Type 0 where
  pub attempt_id : Ident
  pub job_id : Ident
  pub attempt_number : ℕ
  pub state : AttemptState
  pub started_at : Instant
  pub completed_at : Option Instant
  pub http_status : Option ℕ
  pub remote_request_id : Option Ident
  pub error_category : Option Category
  pub retry_after_ms : Option ℕ
  pub owner_token : Option Ident
  pub fencing_generation : ℕ
  pub lease_expires_at : Option Instant

-- A row of `attempt_observations`.
pub record ObservationRow : Type 0 where
  pub observation_id : Ident
  pub attempt_id : Ident
  pub sequence_id : Ident
  pub sequence_number : ℕ
  pub operation : Operation
  pub request_ordinal : ℕ
  pub observed_at : Instant
  pub dispatch_certainty : Option Certainty
  pub evidence_category : Option Category
  pub http_status : Option ℕ
  pub remote_request_id : Option Ident
  pub retry_after_ms : Option ℕ
  pub retry_after_diagnostic : Option Diagnostic
  pub observed_fencing_generation : ℕ
  pub is_late : Bool
  pub consumed_at : Option Instant

-- The row of `service_rate_limit_gate`.
pub record GateRow : Type 0 where
  pub not_before : Instant
  pub updated_at : Instant

-- The tables; `gate` is the singleton of `service_rate_limit_gate`, if it is there.
pub record Database : Type 0 where
  pub jobs : List JobRow
  pub attempts : List AttemptRow
  pub observations : List ObservationRow
  pub gate : Option GateRow

abbrev pub is_submitting : JobState → Bool
is_submitting JobState.submitting = true
is_submitting _ = false

abbrev pub is_started : AttemptState → Bool
is_started AttemptState.started = true
is_started _ = false

abbrev pub is_retryable_failure : AttemptState → Bool
is_retryable_failure AttemptState.retryable_failure = true
is_retryable_failure _ = false

abbrev pub is_succeeded : AttemptState → Bool
is_succeeded AttemptState.succeeded = true
is_succeeded _ = false

abbrev pub is_rate_limited : Option Category → Bool
is_rate_limited (Option.some Category.rate_limited) = true
is_rate_limited _ = false
