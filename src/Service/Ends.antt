-- ===== src/Service/Ends.antt =====
-- The whole program ends when it is told to, with the exit code of its arguments and with its devices closed.
use elephant_shrew.Prelude.{
  ℕ, zero, suc, ◌≤◌, ◌<◌, ◌≡◌, ◌≢◌, ◌↔◌, refl, sym, ap, ◌∙◌, Bool, true, false, List, [], ◌∷◌,
  Option, none, some, some_inj, arith, inl, inr, length, ◌==◌, if◌then◌else◌, Bool-cases,
  Option-cases,
}
use elephant_shrew.Config.{Text, RuntimeConfig}
use elephant_shrew.Receiver.{Pcap}
use elephant_shrew.Store.Connect.{make_store}
use elephant_shrew.Capture.Devices.{IsLawful}
use elephant_shrew.Cli.{CliOptions, parse_arguments, load_effective_config}
use elephant_shrew.Cli.Wait.{sleep_with_stop_check-IsWait}
use elephant_shrew.Service.{
  refusal_of, Attempt, wait_loop, wait_until_stop_requested, serve, list_interfaces, run_program,
}
use elephant_shrew.Service.Closes.{Closed, left, left-Closed, run_capture_service-left}

-- The wait ends at the first reading that is set, after a sleep of the interval for each reading before it.
wait_loop-ends :
    (k fuel : ℕ) (stop : ℕ → Bool) (interval : ℕ)
    → stop k ≡ true
    → k < fuel
    → (naps : List ℕ) × (wait_loop fuel stop interval ≡ some naps) × (length naps ≤ k)
unfolding wait_loop
wait_loop-ends k zero stop interval h lt = absurd (omega arith)
wait_loop-ends zero (suc fuel) stop interval h lt = ([], rw (h, wait_loop), omega arith)
wait_loop-ends (suc k) (suc fuel) stop interval h lt = elim (Bool-cases (stop zero)) [
  | inl p ↦ ([], rw (p, wait_loop), omega arith)
  | inr p ↦
      let (naps, e, l) = wait_loop-ends k fuel (λ n. stop (suc n)) interval h (omega arith) in
      (interval ∷ naps, rw (p, wait_loop, e), omega arith)
]

-- a stop that the wait of a service hears
pub record IsHeard (patience : ℕ) (stop : ℕ → Bool) : Type 0 where
  pub at : ℕ
  pub in_time : at < patience
  pub heard : stop at ≡ true

wait_until_stop_requested-heard :
    (patience : ℕ) (stop : ℕ → Bool) (interval : ℕ)
    → IsHeard patience stop
    → wait_until_stop_requested patience stop interval ≢ none
unfolding wait_until_stop_requested
wait_until_stop_requested-heard patience stop interval h e =
    let (naps, e', l) =
      wait_loop-ends h.at patience stop (if interval == 0 then 1 else interval) h.heard h.in_time in
    some-none (sym e' ∙ e)
  where
    some-none : {naps : List ℕ} → some naps ≡ none → ⊥
    some-none q = cc

list_interfaces-code : (devices : List Text) → ((list_interfaces devices).0 ≡ 0) ↔ (devices ≢ [])
unfolding list_interfaces
list_interfaces-code [] = (λ e. absurd (omega arith), λ h. absurd (h refl))
list_interfaces-code (d ∷ ds) = (λ e. cc, λ h. refl)

list_interfaces_bounded : (devices : List Text) → (list_interfaces devices).0 ≤ 1
unfolding list_interfaces
list_interfaces_bounded [] = omega arith
list_interfaces_bounded (d ∷ ds) = omega arith

-- the arguments and the configuration that the program accepts, with something to list where it is to list
pub record IsAccepted (load : Text → Option RuntimeConfig) (devices args : List Text) : Type 0 where
  pub options : CliOptions
  pub config : RuntimeConfig
  pub parsed : parse_arguments args ≡ some options
  pub loaded : load_effective_config load options ≡ some config
  pub listed : options.scan_only ≡ true → devices ≢ []

module _ {W : Type 0} (pcap : Pcap W) (lawful : IsLawful pcap) (patience : ℕ) where
  -- the loop ends in turn `k`, and its devices are closed
  serve-ends :
      (k fuel : ℕ) (attempts : ℕ → Attempt) (c : RuntimeConfig) (w : W)
      → (attempts k).stop_before ≡ true
      → k < fuel
      → ((j : ℕ) → j < k → IsHeard patience (attempts j).stop_in_service)
      → (w' : W) × (serve pcap fuel patience attempts c w ≡ some w') × Closed pcap w w'
  unfolding serve
  serve-ends k zero attempts c w h lt heard = absurd (omega arith)
  serve-ends zero (suc fuel) attempts c w h lt heard = (w, rw (h, serve), λ e o. o)
  serve-ends (suc k) (suc fuel) attempts c w h lt heard =
      let a : Attempt = attempts zero in
      let delay = c.supervisor.restart_delay_ms in
      let refusal = refusal_of (make_store a.spawned a.ping c.redis) in
      let w1 : W = left pcap refusal c w in
      let closed : Closed pcap w w1 = left-Closed pcap lawful refusal c w in
      let (o, e) = run_capture_service-left pcap patience a c w (
        wait_until_stop_requested-heard patience a.stop_in_service c.supervisor.poll_interval_ms
          (heard 0 (omega arith))) in
      elim (Bool-cases a.stop_before) [
        | inl p ↦ (w, rw (p, serve), λ e o. o)
        | inr p ↦ elim (Bool-cases a.stop_after) [
          | inl q ↦ (w1, rw (e, p, q, serve), closed)
          | inr q ↦
              let (naps, f, _) =
                sleep_with_stop_check-IsWait (suc delay) a.stop_in_wait delay
                  c.supervisor.poll_interval_ms (omega arith) in
              let (w', g, more) =
                serve-ends k fuel (λ n. attempts (suc n)) c w1 h (omega arith)
                  (λ j l. heard (suc j) (omega arith)) in
              (w', rw (e, f, p, q, serve) g, λ d open_now. closed d (more d open_now))
        ]
      ]

  -- Where the stop flag is set before turn `k`, and heard by the wait of each life of the service before it: for any
  -- arguments and any configuration file the program ends. It exits with 0 or 1, and with 0 just
  -- where the arguments and the configuration are accepted and a scan has something to list; and
  -- no device is open that was not open before, however many lives the service had, and however
  -- many of them an exception ended. Premise: the devices are lawful.
  pub run_program-ends :
      (load : Text → Option RuntimeConfig) (devices args : List Text) (k fuel : ℕ)
      (attempts : ℕ → Attempt) (w : W)
      → (attempts k).stop_before ≡ true
      → k < fuel
      → ((j : ℕ) → j < k → IsHeard patience (attempts j).stop_in_service)
      → (code : ℕ) × (w' : W) × (run_program pcap load devices fuel patience attempts args w
          ≡ some (code, w'))
        × Closed pcap w w'
        × (code ≤ 1)
        × ((code ≡ 0) ↔ IsAccepted load devices args)
  unfolding run_program
  run_program-ends load devices args k fuel attempts w h lt heard =
      elim (Option-cases (parse_arguments args)) [
        | inl p ↦ (
          1,
          w,
          rw (p, run_program),
          λ e o. o,
          omega arith,
          (λ e. absurd (omega arith), λ v. absurd (none-some (sym p ∙ v.parsed))),
        )
        | inr (o, p) ↦ elim (Option-cases (load_effective_config load o)) [
          | inl l ↦ (
            1,
            w,
            rw (p, l, run_program),
            λ e o. o,
            omega arith,
            (
              λ e. absurd (omega arith),
              λ v. absurd (
                  none-some
                    (sym l ∙ (ap (load_effective_config load) (same_options p v) ∙ v.loaded))),
            ),
          )
          | inr (c, l) ↦ elim (Bool-cases o.scan_only) [
            | inl s ↦ (
              (list_interfaces devices).0,
              w,
              rw (p, l, s, run_program),
              λ e o. o,
              list_interfaces_bounded devices,
              (
                λ z. accepted p l (λ t. (list_interfaces-code devices).0 z),
                λ v.
                    (list_interfaces-code devices).1 (
                      v.listed (ap (λ (x : CliOptions). x.scan_only) (sym (same_options p v)) ∙ s)),
              ),
            )
            | inr s ↦
                let (w', e, closed) = serve-ends k fuel attempts c w h lt heard in
                (
                  0,
                  w',
                  rw (p, l, s, e, run_program),
                  closed,
                  omega arith,
                  (λ z. accepted p l (λ t. absurd (true-false (sym t ∙ s))), λ v. refl),
                )
          ]
        ]
      ]
    where
      true-false : true ≡ false → ⊥
      true-false q = cc

      none-some : {A : Type 0} {x : A} → none ≡ some x → ⊥
      none-some q = cc

      same_options :
          {o : CliOptions}
          → parse_arguments args ≡ some o
          → (v : IsAccepted load devices args) → o ≡ v.options
      same_options p v = some_inj (sym p ∙ v.parsed)

      accepted :
          {o : CliOptions} {c : RuntimeConfig}
          → parse_arguments args ≡ some o
          → load_effective_config load o ≡ some c
          → (o.scan_only ≡ true → devices ≢ [])
          → IsAccepted load devices args
      accepted p l n = record { options = _; config = _; parsed = p; loaded = l; listed = n }
