-- ===== src/Cli/Wait.antt =====
-- The wait between restarts ends, and sleeps no longer than it is told.
use elephant_shrew.Prelude.{
  ℕ, zero, suc, ◌+◌, ◌-◌, ◌≤◌, ◌<◌, ◌≡◌, Bool, false, not, ◌&&◌, List, [], ◌∷◌, some, arith, inl,
  inr, All, length, true, sym, ◌∙◌, ltb, ◌==◌, if◌then◌else◌, Bool-cases,
}
use elephant_shrew.Cli.{sleep_loop, sleep_with_stop_check}

abbrev pub total : List ℕ → ℕ
total [] = 0
total (n ∷ ns) = n + total ns

-- sleeps of a wait of length `delay`, each at most `interval` long
pub record IsWait (stop : ℕ → Bool) (delay interval : ℕ) (naps : List ℕ) : Type 0 where
  pub within : total naps ≤ delay
  pub short : All (λ n. n ≤ interval) naps
  -- a stop is noticed before the next sleep: the test before sleep `n` reads `stop n`
  pub noticed : (n : ℕ) → stop n ≡ true → length naps ≤ n
  pub whole : ((n : ℕ) → stop n ≡ false) → total naps ≡ delay

after_nap :
    (stop : ℕ → Bool) (n nap : ℕ) (naps : List ℕ)
    → stop zero ≡ false
    → stop n ≡ true
    → ((m : ℕ) → stop (suc m) ≡ true → length naps ≤ m)
    → length (nap ∷ naps) ≤ n
after_nap stop zero nap naps awake s h = absurd (true-false (sym awake ∙ s))
  where
    true-false : false ≡ true → ⊥
    true-false h = cc
after_nap stop (suc n) nap naps awake s h = let few = h n s in omega arith

awake_of : (b : Bool) {s : Bool} → (b && not s) ≡ true → s ≡ false
awake_of b h = ground arith

sleep_loop-IsWait :
    (fuel : ℕ) (stop : ℕ → Bool) (remaining interval : ℕ)
    → 0 < interval
    → remaining < fuel
    → (naps : List ℕ) × (sleep_loop fuel stop remaining interval ≡ some naps)
      × IsWait stop remaining interval naps
unfolding sleep_loop
sleep_loop-IsWait zero stop remaining interval p h = absurd (omega arith)
sleep_loop-IsWait (suc fuel) stop remaining interval p h =
    let nap = if ltb interval remaining then interval else remaining in
    elim (Bool-cases (ltb 0 remaining && not (stop zero))) [
      | inl q ↦
          let (naps, e, w) =
            sleep_loop-IsWait fuel (λ n. stop (suc n)) (remaining - nap) interval p
              (ground arith) in
          let bound : (nap ≤ interval) × (nap ≤ remaining) = ground arith in
          (
            nap ∷ naps,
            rw (q, sleep_loop, e),
            record {
              within = omega (arith, w.within, bound.1);
              short = (bound.0, w.short);
              noticed = λ n s. after_nap stop n nap naps (awake_of (ltb 0 remaining) q) s w.noticed;
              whole = λ s. omega (arith, w.whole (λ n. s (suc n)), bound.1);
            },
          )
      | inr q ↦ (
        [],
        rw (q, sleep_loop),
        record {
          within = omega arith;
          short = tt;
          noticed = λ n s. omega arith;
          whole = λ s. let awake : stop zero ≡ false = s zero in ground arith;
        },
      )
    ]

-- The wait ends (fuel for `delay` + 1 turns is enough). It sleeps `delay` in all at most, and exactly that if it is
-- never told to stop; no sleep is longer than the interval, and where the test before sleep `n` finds the
-- stop there are at most `n` sleeps, so a stop is noticed within one; an interval of 0 acts as 1.
pub sleep_with_stop_check-IsWait :
    (fuel : ℕ) (stop : ℕ → Bool) (delay interval : ℕ)
    → delay < fuel
    → (naps : List ℕ) × (sleep_with_stop_check fuel stop delay interval ≡ some naps)
      × IsWait stop delay (if interval == 0 then 1 else interval) naps
unfolding sleep_with_stop_check
sleep_with_stop_check-IsWait fuel stop delay interval h =
    sleep_loop-IsWait fuel stop delay (if interval == 0 then 1 else interval) (ground arith) h
