-- ===== src/Persistence/Lease/Steps.antt =====
-- About `renew_lease`, `claim_expired_attempt` and `authorize_reconciliation_request` of
-- src/boolean_maybe/persistence/transactions.py and the invariant of the tables.
use boolean_maybe.Prelude.{
  ℕ, ◌*◌, ◌≡◌, refl, ◌∙◌, ap, inl, inr, true, Option, none, some, arith, Bool-cases, Option-cases,
}
use boolean_maybe.Persistence.Rows.{Ident, Instant, JobRow, AttemptRow, Database, add_milliseconds}
use boolean_maybe.Persistence.Database.{
  ok, ◌>>=◌, >>=-eq-ok, returning, ok-returning, update_attempt, select_job, select_attempt,
  read_gate_not_before,
}
use boolean_maybe.Persistence.Lease.{
  Claim, Captured, LeaseRenewal, lease_renewed, ClaimResult, claim_succeeded, Authorization,
  with_lease, taken_over, owns, renew_lease, claim_rows, still_expired, claim_expired_attempt,
  grant, later_of, blocked_until, authorize_reconciliation_request, reconciliation_authorized,
}
use boolean_maybe.Persistence.Lease.Ownership.{owns-Owned}
use boolean_maybe.Persistence.Ledger.{IsConsistent}
use boolean_maybe.Persistence.Ledger.Resolves.{Names}
use boolean_maybe.Persistence.Ledger.Evolution.{Advances, unchanged}
use boolean_maybe.Persistence.Ledger.Writes.{touch-Advances}

-- A new lease for the attempt that the claim owns.
leased-Advances :
    {A : Type 0} (claim : Claim) (n : ℕ) (now lease_expires_at : Instant) (x r : A)
    (db db' : Database)
    → IsConsistent db
    → Names claim n db
    → owns claim now db ≡ true
    → (update_attempt claim.attempt_id (with_lease lease_expires_at) db >>= returning x)
      ≡ ok (r, db')
    → Advances db db'
leased-Advances claim n now lease_expires_at x r db db' v names held h =
    let (j, a, o) = owns-Owned claim now db held in
    let (db1, done, last) =
      >>=-eq-ok (update_attempt claim.attempt_id (with_lease lease_expires_at) db) (returning x)
        h in
    touch-Advances claim.attempt_id (with_lease lease_expires_at) a j db db' v
      (record {
        id = λ _. refl;
        job = λ _. refl;
        number = λ _. refl;
        generation = λ a. ground arith;
      })
      o.attempt o.started o.started (rw (names.of_job a o.attempt) (o.job)) o.submitting
      (done ∙ ap ok (ok-returning x r db1 db' last))

-- Renewing a lease, under a claim that names an attempt of its Job, keeps consistent tables
-- consistent.
pub renew_lease-Advances :
    (claim : Claim) (n lease_seconds : ℕ) (now : Instant) (db : Database) (r : LeaseRenewal)
    (db' : Database)
    → IsConsistent db
    → Names claim n db
    → renew_lease claim lease_seconds now db ≡ ok (r, db')
    → Advances db db'
unfolding renew_lease
renew_lease-Advances claim n lease_seconds now db r db' v names h =
    let until = add_milliseconds now (lease_seconds * 1000) in
    elim (Bool-cases (owns claim now db)) [
      | inl held ↦
          leased-Advances claim n now until (lease_renewed until) r db db' v names held
            (rw held at h)
      | inr lost ↦ let same : db' ≡ db = ground arith in rw same (unchanged db v)
    ]

-- Authorizing a reconciliation request, under a claim that names an attempt of its Job, keeps
-- consistent tables consistent.
pub authorize_reconciliation_request-Advances :
    (claim : Claim) (n lease_seconds : ℕ) (now : Instant) (not_before : Option Instant)
    (db : Database) (r : Authorization) (db' : Database)
    → IsConsistent db
    → Names claim n db
    → authorize_reconciliation_request claim lease_seconds now not_before db ≡ ok (r, db')
    → Advances db db'
authorize_reconciliation_request-Advances claim n lease_seconds now not_before db r db' v names h =
    elim (Bool-cases (owns claim now db)) [
      | inl held ↦
          granted (blocked_until (later_of not_before (read_gate_not_before db)) now) held
            (unfold authorize_reconciliation_request in (rw held at h))
      | inr lost ↦
          let same : db' ≡ db = unfold authorize_reconciliation_request in ground arith in
          rw same (unchanged db v)
    ]
  where
    granted :
        (blocked : Option Instant)
        → owns claim now db ≡ true
        → grant claim lease_seconds now blocked db ≡ ok (r, db')
        → Advances db db'
    granted (some t) held g =
        unfold grant in (let same : db' ≡ db = ground arith in rw same (unchanged db v))
    granted none held g =
        leased-Advances claim n now (add_milliseconds now (lease_seconds * 1000))
          reconciliation_authorized r db db' v names held (unfold grant in g)

claim_rows-Advances :
    (c : Captured) (token : Ident) (lease_seconds : ℕ) (now : Instant) (j : JobRow) (a : AttemptRow)
    (db : Database) (r : ClaimResult) (db' : Database)
    → IsConsistent db
    → select_job c.job_id db ≡ some j
    → select_attempt c.attempt_id db ≡ some a
    → a.job_id ≡ c.job_id
    → claim_rows c token lease_seconds now (some j) (some a) db ≡ ok (r, db')
    → Advances db db'
unfolding claim_rows
claim_rows-Advances c token lease_seconds now j a db r db' v ej ea of_job h =
    let until = add_milliseconds now (lease_seconds * 1000) in
    let x = claim_succeeded j (taken_over token until a) in
    elim (Bool-cases (still_expired c j a now)) [
      | inl expired ↦
          let (db1, done, last) =
            >>=-eq-ok (update_attempt c.attempt_id (taken_over token until) db) (returning x)
              (rw expired at h) in
          touch-Advances c.attempt_id (taken_over token until) a j db db' v
            (record {
              id = λ _. refl;
              job = λ _. refl;
              number = λ _. refl;
              generation = λ a. ground arith;
            })
            ea (ground arith) (ground arith) (rw of_job ej) (ground arith)
            (done ∙ ap ok (ok-returning x r db1 db' last))
      | inr changed ↦ let same : db' ≡ db = ground arith in rw same (unchanged db v)
    ]

-- Taking over an attempt, where the captured ids are those of an attempt and its Job, keeps
-- consistent tables consistent.
pub claim_expired_attempt-Advances :
    (c : Captured) (token : Ident) (lease_seconds : ℕ) (now : Instant) (db : Database)
    (r : ClaimResult) (db' : Database)
    → IsConsistent db
    → ((a : AttemptRow) → select_attempt c.attempt_id db ≡ some a → a.job_id ≡ c.job_id)
    → claim_expired_attempt c token lease_seconds now db ≡ ok (r, db')
    → Advances db db'
unfolding claim_expired_attempt
claim_expired_attempt-Advances c token lease_seconds now db r db' v of_job h =
    elim (Option-cases (select_job c.job_id db)) [
      | inl e ↦ let same : db' ≡ db = ground arith in rw same (unchanged db v)
      | inr (j, ej) ↦ elim (Option-cases (select_attempt c.attempt_id db)) [
        | inl e ↦ let same : db' ≡ db = ground arith in rw same (unchanged db v)
        | inr (a, ea) ↦
            claim_rows-Advances c token lease_seconds now j a db r db' v ej ea (of_job a ea)
              (rw (ej, ea) at h)
      ]
    ]
