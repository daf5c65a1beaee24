-- ===== src/Service.antt =====
-- src/Bootstrapper.cpp, and the rest of src/ElephantShrewMain.cpp: the capture service as `main` runs it, with
-- the devices, the store and the restarts together. What the Hypodermic container resolves is a new
-- `ElephantShrew`. A `Text` of output is given back where a function prints one.
pub mod Closes
pub mod Ends
mod Tests
use mathlib.Core.Option
use elephant_shrew.Prelude.{
  ℕ, zero, suc, Bool, true, false, not, ◌&&◌, ◌||◌, List, [], ◌∷◌, ◌++◌, map, Option, none, some,
  ltb, ◌==◌, if◌then◌else◌, ◌>>=◌, codes,
}
use elephant_shrew.Config.{Text, RuntimeConfig}
use elephant_shrew.Receiver.{Pcap, Receiver}
use elephant_shrew.Store.Connect.{Ping, Refusal, Made, refused, ready, make_store}
use elephant_shrew.Capture.{Fault, Shrew, Result, ok, err, init, release}
use elephant_shrew.Cli.{CliOptions, parse_arguments, load_effective_config, sleep_with_stop_check}

-- The container, if it is built, and the service that was resolved: its receivers and opened devices.
pub record Bootstrapper : Type 0 where
  pub container : Bool
  pub elephant_shrew : Option (List Receiver × List ℕ)

abbrev pub new_bootstrapper : Bootstrapper
new_bootstrapper = record { container = false; elephant_shrew = none }

-- the exceptions of `Resolve`
pub data Crash : Type 0 where
  not_strapped : Crash
  init_failed : Fault → Crash

pub data ServiceEnd : Type 0 where
  returned : ServiceEnd
  crashed : Crash → ServiceEnd

-- `Strap`, but for the version that it prints
unfoldable pub strap : Bootstrapper → Bootstrapper
strap b = record b { container = true }

-- the exception of the constructor of `RedisPacketStore`, if there is one
abbrev pub refusal_of : Made → Option Refusal
refusal_of (refused r io) = some r
refusal_of (ready s io) = none

-- One life of the service, as the world outside decides it: what the stop flag reads before it, the io thread
-- and the PING of its store, and what the flag reads while it runs, after it, and during the wait.
pub record Attempt : Type 0 where
  pub stop_before : Bool
  pub spawned : Bool
  pub ping : Ping
  pub stop_in_service : ℕ → Bool
  pub stop_after : Bool
  pub stop_in_wait : ℕ → Bool

-- `WaitUntilStopRequested`, on fuel: the lengths of its sleeps
unfoldable pub wait_loop : ℕ → (ℕ → Bool) → ℕ → Option (List ℕ)
wait_loop zero stop interval = none
wait_loop (suc fuel) stop interval =
    let rest = wait_loop fuel (λ n. stop (suc n)) interval in
    if not (stop zero) then Option.map (λ ns. interval ∷ ns) rest else some []

unfoldable pub wait_until_stop_requested : ℕ → (ℕ → Bool) → ℕ → Option (List ℕ)
wait_until_stop_requested fuel stop interval =
    wait_loop fuel stop (if interval == 0 then 1 else interval)

-- `ListInterfaces` over the names of the devices: the exit code, and the lines that it prints
unfoldable pub list_interfaces : List Text → ℕ × List Text
list_interfaces [] = (1, codes "No network interfaces found." ∷ [])
list_interfaces (d ∷ ds) = (0, codes "Available interfaces:" ∷ map (λ n. codes " - " ++ n) (d ∷ ds))

module _ {W : Type 0} (pcap : Pcap W) where
  abbrev pub new_shrew : W → Shrew W
  new_shrew w = record { receivers = []; opened_devices = []; world = w }

  -- the destructor of a service, if there is one; that of `Bootstrapper` does no more
  abbrev pub destroy_service : Option (List Receiver × List ℕ) → W → W
  destroy_service none w = w
  destroy_service (some (rs, ds)) w =
      (release pcap (record { receivers = rs; opened_devices = ds; world = w })).world

  -- the end of `Resolve`: an exception destroys the new service, a return the old one
  abbrev pub finish_resolve :
      Bootstrapper → Result (Unit {0}) × Shrew W → ServiceEnd × Bootstrapper × W
  finish_resolve b (ok u, s) = (
    returned,
    record b { elephant_shrew = some (s.receivers, s.opened_devices) },
    destroy_service b.elephant_shrew s.world,
  )
  finish_resolve b (err f, s) = (crashed (init_failed f), b, (release pcap s).world)

  -- `Resolve`
  unfoldable pub resolve :
      Option Refusal → RuntimeConfig → Bootstrapper → W → ServiceEnd × Bootstrapper × W
  resolve refusal c b w =
      if not b.container
      then (crashed not_strapped, b, w)
      else finish_resolve b (init pcap refusal c (new_shrew w))

  -- what follows `Resolve` in `RunCaptureService`, with the destructor on both ways out
  abbrev pub served : ℕ → (ℕ → Bool) → ℕ → ServiceEnd × Bootstrapper × W → Option (ServiceEnd × W)
  served fuel stop interval (returned, b, w) =
      Option.map (λ naps. (returned, destroy_service b.elephant_shrew w))
        (wait_until_stop_requested fuel stop interval)
  served fuel stop interval (crashed e, b, w) = some (crashed e, destroy_service b.elephant_shrew w)

  -- `RunCaptureService`
  unfoldable pub run_capture_service : ℕ → Attempt → RuntimeConfig → W → Option (ServiceEnd × W)
  run_capture_service fuel a c w =
      let store = make_store a.spawned a.ping c.redis in
      served fuel a.stop_in_service c.supervisor.poll_interval_ms
        (resolve (refusal_of store) c (strap new_bootstrapper) w)

  -- The loop of `main`, on fuel for its turns and for the wait in each. An exception of the service is logged
  -- and ends here.
  unfoldable pub serve : ℕ → ℕ → (ℕ → Attempt) → RuntimeConfig → W → Option W
  serve zero patience attempts c w = none
  serve (suc fuel) patience attempts c w =
      let a = attempts zero in
      let delay = c.supervisor.restart_delay_ms in
      let again = (λ (w' : W).
        sleep_with_stop_check (suc delay) a.stop_in_wait delay c.supervisor.poll_interval_ms
        >>= λ naps. serve fuel patience (λ n. attempts (suc n)) c w') in
      if a.stop_before
      then some w
      else run_capture_service patience a c w >>= λ r. if a.stop_after then some r.1 else again r.1

  -- `main`: the exit code, and the network after it
  unfoldable pub run_program :
      (Text → Option RuntimeConfig)
      → List Text
      → ℕ
      → ℕ
      → (ℕ → Attempt)
      → List Text
      → W
      → Option (ℕ × W)
  run_program load devices fuel patience attempts args w = elim (parse_arguments args) [
    | none ↦ some (1, w)
    | some o ↦ elim (load_effective_config load o) [
      | none ↦ some (1, w)
      | some c ↦
          if o.scan_only
          then some ((list_interfaces devices).0, w)
          else Option.map (λ w'. (0, w')) (serve fuel patience attempts c w)
    ]
  ]
