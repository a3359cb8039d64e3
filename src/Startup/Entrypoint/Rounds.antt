-- ===== src/Startup/Entrypoint/Rounds.antt =====
-- The loop of `wait_for_db` ends.
use fast_api_ddd_template.Base.{
  ℕ, zero, suc, ◌+◌, ◌-◌, ◌*◌, ◌≤◌, ◌<◌, ◌≡◌, arith, Bool, true, false, ◌||◌, some, ltb, Bool-cases,
  inl, inr, if◌then◌else◌,
}
use fast_api_ddd_template.Startup.Entrypoint.{Round, Wait, ready, late, wait_for_db}

module _ (start timeout : ℕ) where
  -- The round is the last: it connects, or the time is over.
  abbrev pub stops : Round → Bool
  stops r = r.connects || ltb (timeout * 1000000) (r.now - start)

  abbrev pub ending : Round → Wait
  ending r = if r.connects then ready (r.now - start) else late

  -- The n-th round is the last.
  pub record IsLast (rounds : ℕ → Round) (n : ℕ) : Type 0 where
    pub last : stops (rounds n) ≡ true
    pub earlier : (k : ℕ) → k < n → stops (rounds k) ≡ false

  ends_at :
      (b fuel : ℕ) (rounds : ℕ → Round)
      → stops (rounds b) ≡ true
      → b < fuel
      → (n : ℕ) × (n ≤ b)
        × IsLast rounds n
        × (wait_for_db rounds start timeout fuel ≡ some (ending (rounds n)))
  unfolding wait_for_db
  ends_at b zero rounds h f = absurd (omega arith)
  ends_at zero (suc fuel) rounds h f =
      (zero, omega arith, record { last = h; earlier = λ k l. absurd (omega arith) }, ground arith)
  ends_at (suc b) (suc fuel) rounds h f = elim (Bool-cases (stops (rounds 0))) [
    | inl e ↦ (
      zero,
      omega arith,
      record { last = e; earlier = λ k l. absurd (omega arith) },
      ground arith,
    )
    | inr e ↦
        let (n, l, f', q) = ends_at b fuel (λ k. rounds (suc k)) h (omega arith) in
        (suc n, omega arith, record { last = f'.last; earlier = before e f'.earlier }, ground arith)
  ]
    where
      before :
          {n : ℕ}
          → stops (rounds 0) ≡ false
          → ((k : ℕ) → k < n → stops (rounds (suc k)) ≡ false)
          → (k : ℕ) → k < suc n
          → stops (rounds k) ≡ false
      before e p zero l = e
      before e p (suc k) l = p k (omega arith)

  -- The clock runs: it does not go back before the first round, and a second goes by between two
  -- rounds, in `time.sleep(1)`.
  pub record IsClock (rounds : ℕ → Round) : Type 0 where
    pub begins : start ≤ (rounds 0).now
    pub sleeps : (k : ℕ) → (rounds k).now + 1000000 ≤ (rounds (suc k)).now

  elapsed : (rounds : ℕ → Round) → IsClock rounds → (n : ℕ) → start + n * 1000000 ≤ (rounds n).now
  elapsed rounds c zero = let b = c.begins in omega arith
  elapsed rounds c (suc n) = let e = elapsed rounds c n in let s = c.sleeps n in omega arith

  -- If the clock runs, the loop ends within `timeout` + 2 rounds: at the first round that connects
  -- or finds that the time is over, as ready if it connects and as late otherwise.
  pub wait_for_db-ends :
      (rounds : ℕ → Round) (fuel : ℕ)
      → IsClock rounds
      → timeout + 2 ≤ fuel
      → (n : ℕ) × (n ≤ timeout + 1)
        × IsLast rounds n
        × (wait_for_db rounds start timeout fuel ≡ some (ending (rounds n)))
  wait_for_db-ends rounds fuel c f =
      let e = elapsed rounds c (timeout + 1) in
      ends_at (timeout + 1) fuel rounds (ground arith) (omega arith)
