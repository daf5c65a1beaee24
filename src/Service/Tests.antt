-- ===== src/Service/Tests.antt =====
-- A run of the program that crashes once and is then told to stop, and the theorem at it.
use mathlib.Core.Option
use elephant_shrew.Prelude.{
  ℕ, ◌≤◌, ◌≡◌, ◌↔◌, refl, Bool, true, false, List, [], ◌∷◌, Option, none, some, arith, ◌==◌, codes,
}
use elephant_shrew.Config.{Text, RuntimeConfig, default_config}
use elephant_shrew.Store.Connect.{timed_out}
use elephant_shrew.Receiver.Tests.{net}
use elephant_shrew.Capture.{
  not_found, init, set_up, capture_all, capture_on, resolve_capture_device, release, close_devices,
  clear_receivers, stop_all, close_each,
}
use elephant_shrew.Capture.Tests.{net-IsLawful}
use elephant_shrew.Service.{
  new_bootstrapper, ServiceEnd, crashed, not_strapped, init_failed, Attempt, resolve,
  run_capture_service, strap, list_interfaces, run_program,
}
use elephant_shrew.Service.Closes.{Closed}
use elephant_shrew.Service.Ends.{IsAccepted, run_program-ends}

abbrev off : ℕ → Bool
off d = false

abbrev missing : RuntimeConfig
missing = record default_config {
  capture = record { ifaces = codes "eth9" ∷ []; record_packets = false; debug_packets = false };
}

-- the flag is set before the second turn
abbrev attempts : ℕ → Attempt
attempts n = record {
  stop_before = n == 1;
  spawned = true;
  ping = timed_out;
  stop_in_service = λ n. true;
  stop_after = false;
  stop_in_wait = λ n. false;
}

outcome : Option (ServiceEnd × (ℕ → Bool)) → Option ServiceEnd
outcome r = Option.map (λ x. x.0) r

run_capture_service-missing :
    outcome (run_capture_service net 1 (attempts 0) missing off)
    ≡ some (crashed (init_failed not_found))
unfolding outcome run_capture_service resolve strap init set_up capture_all capture_on
    resolve_capture_device release close_devices clear_receivers stop_all close_each
run_capture_service-missing = refl

resolve_early : (resolve net none missing new_bootstrapper off).0 ≡ crashed not_strapped
unfolding resolve
resolve_early = refl

list_interfaces-two :
    list_interfaces (codes "lo" ∷ codes "eth0" ∷ [])
    ≡ (0, codes "Available interfaces:" ∷ codes " - lo" ∷ codes " - eth0" ∷ [])
unfolding list_interfaces
list_interfaces-two = refl

abbrev line : List Text
line = codes "-i" ∷ codes "eth9" ∷ []

run_program-ends_example :
    (code : ℕ) × (w' : ℕ → Bool) × (run_program net (λ path. none) [] 2 1 attempts line off
      ≡ some (code, w'))
    × Closed net off w'
    × (code ≤ 1)
    × ((code ≡ 0) ↔ IsAccepted (λ path. none) [] line)
run_program-ends_example =
    run_program-ends net net-IsLawful 1 (λ path. none) [] line 1 2 attempts off refl (omega arith)
      (λ j l. record { at = 0; in_time = omega arith; heard = refl })
