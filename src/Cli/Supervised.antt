-- ===== src/Cli/Supervised.antt =====
-- The loop of `main` ends with a stop, and waits as configured between two runs of the service.
use elephant_shrew.Prelude.{
  ℕ, zero, suc, ◌≤◌, ◌<◌, ◌≡◌, true, false, ◌||◌, List, [], ◌∷◌, Option, some, arith, inl, inr, All,
  length, Bool-cases,
}
use elephant_shrew.Config.{Text, RuntimeConfig}
use elephant_shrew.Cli.{
  Round, supervise, CliOptions, parse_arguments, load_effective_config, run_main,
}
use elephant_shrew.Cli.Wait.{total, sleep_with_stop_check-IsWait}

-- Once a turn `k` reads the stop flag as set, the loop ends, after at most `k` waits; fuel for `k + 1`
-- turns is enough, and no wait is longer than the restart delay.
pub supervise-ends :
    (k fuel : ℕ) (rounds : ℕ → Round) (c : RuntimeConfig)
    → (rounds k).stop_before ≡ true
    → k < fuel
    → (waits : List (List ℕ)) × (supervise fuel rounds c ≡ some waits)
      × (length waits ≤ k)
      × All (λ naps. total naps ≤ c.supervisor.restart_delay_ms) waits
unfolding supervise
supervise-ends k zero rounds c h lt = absurd (omega arith)
supervise-ends zero (suc fuel) rounds c h lt = ([], rw (h, supervise), omega arith, tt)
supervise-ends (suc k) (suc fuel) rounds c h lt =
    let round = rounds zero in
    let delay = c.supervisor.restart_delay_ms in
    elim (Bool-cases (round.stop_before || round.stop_after)) [
      | inl p ↦ ([], rw (p, supervise), omega arith, tt)
      | inr p ↦
          let (naps, e, w) =
            sleep_with_stop_check-IsWait (suc delay) round.stop_in_wait delay
              c.supervisor.poll_interval_ms (omega arith) in
          let (waits, e', l, a) = supervise-ends k fuel (λ n. rounds (suc n)) c h (omega arith) in
          (naps ∷ waits, rw (p, supervise, e, e'), omega arith, (w.within, a))
    ]

-- A run of `main` that is told to stop in turn `k` at the latest exits: with 0 where the arguments and
-- the configuration are accepted and no scan is asked for.
pub run_main-exits :
    (load : Text → Option RuntimeConfig) (scan : Option ℕ) (k fuel : ℕ) (rounds : ℕ → Round)
    (args : List Text) {o : CliOptions} {c : RuntimeConfig}
    → (rounds k).stop_before ≡ true
    → k < fuel
    → parse_arguments args ≡ some o
    → load_effective_config load o ≡ some c
    → o.scan_only ≡ false
    → run_main load scan fuel rounds args ≡ some 0
unfolding run_main
run_main-exits load scan k fuel rounds args {o} {c} h lt e e' s =
    let (waits, w, _, _) = supervise-ends k fuel rounds c h lt in rw (run_main, e, e', s, w)
