-- ===== src/Persistence/Lease.antt =====
-- Ownership of the active attempt: `_owns_active_attempt`, `renew_lease`, `claim_expired_attempt`
-- and `authorize_reconciliation_request` of src/boolean_maybe/persistence/transactions.py. `now` is
-- the reading of the clock that the call makes.
pub mod Ownership
pub mod Steps
pub mod Fencing
use boolean_maybe.Prelude.{
  ℕ, ◌+◌, ◌*◌, max, Bool, true, false, not, ◌&&◌, ◌||◌, Option, none, some, ltb, leb, ◌==◌,
  option_eq, if◌then◌else◌,
}
use boolean_maybe.Persistence.Rows.{
  Ident, Instant, JobRow, AttemptRow, Database, is_submitting, is_started, add_milliseconds,
}
use boolean_maybe.Persistence.Database.{
  Transaction, ok, err, ◌>>=◌, select_job, select_attempt, update_attempt, read_gate_not_before,
}

abbrev pub lease_seconds_default : ℕ
lease_seconds_default = 60

-- `lease_expires_at is not None and lease_expires_at > now`.
abbrev pub is_unexpired : Option Instant → Instant → Bool
is_unexpired none now = false
is_unexpired (some lease_expires_at) now = ltb now lease_expires_at

-- `lease_expires_at is not None and lease_expires_at <= now`.
abbrev pub is_expired : Option Instant → Instant → Bool
is_expired none now = false
is_expired (some lease_expires_at) now = leb lease_expires_at now

unfoldable pub owns_active_attempt : Option JobRow → Option AttemptRow → Ident → ℕ → Instant → Bool
owns_active_attempt none attempt invocation_token fencing_generation now = false
owns_active_attempt (some job) none invocation_token fencing_generation now = false
owns_active_attempt (some job) (some attempt) invocation_token fencing_generation now =
    is_submitting job.state
    && is_started attempt.state
    && option_eq attempt.owner_token (some invocation_token)
    && attempt.fencing_generation == fencing_generation
    && is_unexpired attempt.lease_expires_at now

-- The arguments that name an attempt and the owner's claim on it.
pub record Claim : Type 0 where
  pub job_id : Ident
  pub attempt_id : Ident
  pub invocation_token : Ident
  pub fencing_generation : ℕ

-- Whether the claim holds of the rows that the transaction reads.
unfoldable pub owns : Claim → Instant → Database → Bool
unfolding owns_active_attempt select_job select_attempt
owns claim now db =
    owns_active_attempt (select_job claim.job_id db) (select_attempt claim.attempt_id db)
      claim.invocation_token claim.fencing_generation now

-- The rows are read, `lost` is returned with `ROLLBACK` if the claim does not hold, and else the
-- rest of the transaction runs.
unfoldable pub owner_rows :
    {A : Type 0}
    → Claim
    → Instant
    → A
    → (JobRow → AttemptRow → Transaction A)
    → Option JobRow
    → Option AttemptRow
    → Transaction A
unfolding owns_active_attempt
owner_rows claim now lost body (some job) (some attempt) db =
    if owns_active_attempt (some job) (some attempt) claim.invocation_token claim.fencing_generation
      now
    then body job attempt db
    else ok (lost, db)
owner_rows claim now lost body _ _ db = ok (lost, db)

unfoldable pub as_owner :
    {A : Type 0} → Claim → Instant → A → (JobRow → AttemptRow → Transaction A) → Transaction A
unfolding owner_rows select_job select_attempt
as_owner claim now lost body db =
    owner_rows claim now lost body (select_job claim.job_id db) (select_attempt claim.attempt_id db)
      db

pub data LeaseRenewal : Type 0 where
  lease_renewed : Instant → LeaseRenewal
  lease_lost : LeaseRenewal

abbrev with_lease : Instant → AttemptRow → AttemptRow
with_lease lease_expires_at a = record a { lease_expires_at = some lease_expires_at }

unfoldable pub renew_lease : Claim → ℕ → Instant → Transaction LeaseRenewal
unfolding owns update_attempt
renew_lease claim lease_seconds now db =
    let lease_expires_at = add_milliseconds now (lease_seconds * 1000) in
    if not (owns claim now db) then ok (lease_lost, db) else do
      db' ← update_attempt claim.attempt_id (with_lease lease_expires_at) db
      ok (lease_renewed lease_expires_at, db')

pub data ClaimResult : Type 0 where
  claim_succeeded : JobRow → AttemptRow → ClaimResult
  claim_rejected : ClaimResult

-- What the caller captured before its quarantine wait.
pub record Captured : Type 0 where
  pub job_id : Ident
  pub attempt_id : Ident
  pub owner_token : Option Ident
  pub fencing_generation : ℕ
  pub lease_expires_at : Option Instant

unfoldable pub still_expired : Captured → JobRow → AttemptRow → Instant → Bool
still_expired c job attempt now =
    is_submitting job.state
    && is_started attempt.state
    && option_eq attempt.owner_token c.owner_token
    && attempt.fencing_generation == c.fencing_generation
    && option_eq attempt.lease_expires_at c.lease_expires_at
    && is_expired attempt.lease_expires_at now

abbrev pub taken_over : Ident → Instant → AttemptRow → AttemptRow
taken_over token lease_expires_at a = record a {
  owner_token = some token;
  fencing_generation = a.fencing_generation + 1;
  lease_expires_at = some lease_expires_at;
}

unfoldable pub claim_rows :
    Captured → Ident → ℕ → Instant → Option JobRow → Option AttemptRow → Transaction ClaimResult
unfolding still_expired update_attempt
claim_rows c token lease_seconds now (some job) (some attempt) db =
    let lease_expires_at = add_milliseconds now (lease_seconds * 1000) in
    if not (still_expired c job attempt now) then ok (claim_rejected, db) else do
      db' ← update_attempt c.attempt_id (taken_over token lease_expires_at) db
      ok (claim_succeeded job (taken_over token lease_expires_at attempt), db')
claim_rows c token lease_seconds now _ _ db = ok (claim_rejected, db)

unfoldable pub claim_expired_attempt : Captured → Ident → ℕ → Instant → Transaction ClaimResult
unfolding claim_rows select_job select_attempt
claim_expired_attempt c new_invocation_token lease_seconds now db =
    claim_rows c new_invocation_token lease_seconds now (select_job c.job_id db)
      (select_attempt c.attempt_id db) db

pub data Authorization : Type 0 where
  reconciliation_authorized reconciliation_ownership_lost : Authorization
  reconciliation_deferred : Instant → Authorization

-- `_later_of`.
unfoldable pub later_of : Option Instant → Option Instant → Option Instant
later_of none b = b
later_of (some a) none = some a
later_of (some a) (some b) = some (max a b)

-- The effective instant if it is still to come.
unfoldable pub blocked_until : Option Instant → Instant → Option Instant
blocked_until none now = none
blocked_until (some not_before) now = if ltb now not_before then some not_before else none

unfoldable pub grant : Claim → ℕ → Instant → Option Instant → Transaction Authorization
unfolding update_attempt
grant claim lease_seconds now (some not_before) db = ok (reconciliation_deferred not_before, db)
grant claim lease_seconds now none db = do
  db' ←
      update_attempt claim.attempt_id (with_lease (add_milliseconds now (lease_seconds * 1000))) db
  ok (reconciliation_authorized, db')

unfoldable pub authorize_reconciliation_request :
    Claim → ℕ → Instant → Option Instant → Transaction Authorization
unfolding owns grant later_of blocked_until read_gate_not_before
authorize_reconciliation_request claim lease_seconds now not_before db =
    if not (owns claim now db)
    then ok (reconciliation_ownership_lost, db)
    else grant claim lease_seconds now
        (blocked_until (later_of not_before (read_gate_not_before db)) now) db
