-- ===== src/Application/Waiting/Budget.antt =====
-- About the two waits of src/boolean_maybe/application/waiting.py and what they spend.
use boolean_maybe.Prelude.{
  ℕ, zero, suc, ◌+◌, ◌-◌, ◌≤◌, ◌≡◌, ◌≢◌, refl, inl, inr, Bool, true, false, List, arith, All, min,
  ltb, ◌==◌, if◌then◌else◌, Bool-cases,
}
use boolean_maybe.Persistence.Rows.{Instant}
use boolean_maybe.Application.Waiting.{
  renewal_cadence, WaitBudget, remaining, sleep, delay_until, wait_if_it_fits, Waited, waited,
  unfit, lost, first_answer, later_answers, chunks, wait_while_renewing_lease,
}

-- Every sleep is at most the renewal cadence.
abbrev pub AllShort : List ℕ → Type 0
AllShort = All (λ s. s ≤ renewal_cadence)

-- What a wait of `n` microseconds does to a budget.
record Spent (n : ℕ) (r : Waited × WaitBudget) (b : WaitBudget) : Type 0 where
  pub ceiling_kept : r.1.ceiling_of ≡ b.ceiling_of
  pub at_most : r.1.slept ≤ b.slept + n
  pub whole : r.0 ≡ waited → r.1.slept ≡ b.slept + n
  pub fits : r.0 ≢ unfit
  pub short : AllShort b.sleeps → AllShort r.1.sleeps

one_more :
    (chunk left : ℕ) (r : Waited × WaitBudget) (b : WaitBudget)
    → chunk ≤ left
    → chunk ≤ renewal_cadence
    → Spent (left - chunk) r (sleep chunk b)
    → Spent left r b
unfolding sleep
one_more chunk left r b h c s = record {
  ceiling_kept = s.ceiling_kept;
  at_most = ground (arith, s.at_most);
  whole = λ e. ground (arith, s.whole e);
  fits = s.fits;
  short = λ all. s.short (c, all);
}

next_chunk :
    (chunk left : ℕ) (done answer : Bool) (rest : Waited × WaitBudget) (b : WaitBudget)
    → chunk ≤ left
    → chunk ≤ renewal_cadence
    → (done ≡ true → left ≡ chunk)
    → Spent (left - chunk) rest (sleep chunk b)
    → Spent left
        (if done then (waited, sleep chunk b) else if answer then rest else (lost, sleep chunk b))
        b
unfolding sleep
next_chunk chunk left true answer rest b h c end s = record {
  ceiling_kept = refl;
  at_most = ground arith;
  whole = λ e. ground (arith, end refl);
  fits = λ e. ground arith;
  short = λ all. (c, all);
}
next_chunk chunk left false true rest b h c end s = one_more chunk left rest b h c s
next_chunk chunk left false false rest b h c end s = record {
  ceiling_kept = refl;
  at_most = ground arith;
  whole = λ e. ground arith;
  fits = λ e. ground arith;
  short = λ all. (c, all);
}

chunks-Spent :
    (fuel left : ℕ) (renewals : List Bool) (b : WaitBudget)
    → left ≤ fuel
    → Spent left (chunks fuel left renewals b) b
unfolding chunks
chunks-Spent zero left renewals b h = record {
  ceiling_kept = refl;
  at_most = ground arith;
  whole = λ e. ground arith;
  fits = λ e. ground arith;
  short = λ all. all;
}
chunks-Spent (suc fuel) zero renewals b h = record {
  ceiling_kept = refl;
  at_most = ground arith;
  whole = λ e. ground arith;
  fits = λ e. ground arith;
  short = λ all. all;
}
chunks-Spent (suc fuel) (suc n) renewals b h =
    next_chunk (min (suc n) renewal_cadence) (suc n) (suc n - min (suc n) renewal_cadence == 0)
      (first_answer renewals) _ b (ground arith) (ground arith) (λ e. ground arith)
      (chunks-Spent fuel (suc n - min (suc n) renewal_cadence) (later_answers renewals)
        (sleep (min (suc n) renewal_cadence) b) (ground arith))

-- A wait that fits sleeps exactly the delay, one that does not leaves the budget as it was, and the
-- total never passes the ceiling.
pub wait_if_it_fits_lem :
    (not_before now : Instant) (b : WaitBudget)
    → b.slept ≤ b.ceiling_of
    → ((wait_if_it_fits not_before now b).0 ≡ false → (wait_if_it_fits not_before now b).1 ≡ b)
      × ((wait_if_it_fits not_before now b).0 ≡ true
          → (wait_if_it_fits not_before now b).1.slept ≡ b.slept + delay_until not_before now)
      × ((wait_if_it_fits not_before now b).1.slept ≤ b.ceiling_of)
unfolding wait_if_it_fits remaining sleep
wait_if_it_fits_lem not_before now b h = (λ e. ground arith, λ e. ground arith, ground arith)

Spent-whole :
    (n : ℕ) (x : Waited × WaitBudget) (r : Waited) (b b' : WaitBudget)
    → x ≡ (r, b')
    → Spent n x b
    → b.slept + n ≤ b.ceiling_of
    → (b'.slept ≤ b.ceiling_of)
      × (r ≡ waited → b'.slept ≡ b.slept + n)
      × (r ≡ unfit → b' ≡ b)
      × (AllShort b.sleeps → AllShort b'.sleeps)
Spent-whole n x r b b' e s fit = (
  ground (arith, s.at_most),
  λ w. ground (arith, s.whole),
  λ u. absurd (ground (arith, s.fits)),
  λ all. let same : b' ≡ x.1 = ground arith in rw same (s.short all),
)

-- Whatever the renewals answer: the total stays below the ceiling; a wait that is reported as done
-- slept the whole delay; one that does not fit leaves the budget as it was; and no sleep is longer
-- than the renewal cadence.
pub wait_while_renewing_lease_lem :
    (not_before now : Instant) (renewals : List Bool) (b : WaitBudget) (r : Waited)
    (b' : WaitBudget)
    → b.slept ≤ b.ceiling_of
    → wait_while_renewing_lease not_before now renewals b ≡ (r, b')
    → (b'.slept ≤ b.ceiling_of)
      × (r ≡ waited → b'.slept ≡ b.slept + delay_until not_before now)
      × (r ≡ unfit → b' ≡ b)
      × (AllShort b.sleeps → AllShort b'.sleeps)
unfolding wait_while_renewing_lease remaining
wait_while_renewing_lease_lem not_before now renewals b r b' h e =
    let delay = delay_until not_before now in
    let s = chunks-Spent delay delay renewals b (ground arith) in
    elim (Bool-cases (ltb (b.ceiling_of - b.slept) delay)) [
      | inl big ↦ (
        ground arith,
        λ w. ground arith,
        λ u. ground arith,
        λ all. let same : b' ≡ b = ground arith in rw same all,
      )
      | inr small ↦
          let done : chunks delay delay renewals b ≡ (r, b') = ground arith in
          Spent-whole delay (chunks delay delay renewals b) r b b' done s (ground arith)
    ]
