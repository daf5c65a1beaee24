-- ===== src/Service/Closes.antt =====
-- A life of the service leaves no device open that was not open before it.
use elephant_shrew.Prelude.{ℕ, ◌≡◌, refl, sym, ap, ◌∙◌, true, List, Option, none, some}
use mathlib.Core.Option
use elephant_shrew.Config.{RuntimeConfig}
use elephant_shrew.Receiver.{Pcap}
use elephant_shrew.Store.Connect.{Refusal, make_store}
use elephant_shrew.Capture.{
  Shrew, Result, ok, err, init, release, close_devices, clear_receivers, stop_all, close_each,
}
use elephant_shrew.Capture.Devices.{IsLawful}
use elephant_shrew.Capture.Release.{release-init}
use elephant_shrew.Service.{
  new_bootstrapper, ServiceEnd, returned, crashed, strap, refusal_of, Attempt, new_shrew,
  finish_resolve, resolve, served, run_capture_service, wait_until_stop_requested,
}

module _ {W : Type 0} (pcap : Pcap W) where
  -- no device is open in `w'` that is not open in `w`
  abbrev pub Closed : W → W → Type 0
  Closed w w' = (e : ℕ) → pcap.is_opened e w' ≡ true → pcap.is_opened e w ≡ true

  -- the network after the service of a new object is destroyed, whether `Init` returned or threw
  abbrev pub left : Option Refusal → RuntimeConfig → W → W
  left refusal c w = (release pcap (init pcap refusal c (new_shrew pcap w)).1).world

  new_shrew-release : (w : W) → (release pcap (new_shrew pcap w)).world ≡ w
  unfolding release close_devices clear_receivers stop_all close_each
  new_shrew-release w = refl

  pub left-Closed :
      IsLawful pcap
      → (refusal : Option Refusal) (c : RuntimeConfig) (w : W) → Closed w (left refusal c w)
  left-Closed lawful refusal c w e h =
      ap (λ x. pcap.is_opened e x) (sym (new_shrew-release w))
      ∙ release-init pcap lawful refusal c (new_shrew pcap w) e h

  -- A life of the service ends in the network that its destruction leaves: the exception of `Resolve`
  -- ends it at once, and otherwise the wait does.
  pub run_capture_service-left :
      (fuel : ℕ) (a : Attempt) (c : RuntimeConfig) (w : W)
      → ((wait_until_stop_requested fuel a.stop_in_service c.supervisor.poll_interval_ms ≡ none)
          → ⊥)
      → (o : ServiceEnd) × (run_capture_service pcap fuel a c w
          ≡ some (o, left (refusal_of (make_store a.spawned a.ping c.redis)) c w))
  unfolding run_capture_service resolve strap
  run_capture_service-left fuel a c w h =
      go (init pcap (refusal_of (make_store a.spawned a.ping c.redis)) c (new_shrew pcap w))
    where
      waits :
          (o : Option (List ℕ))
          → (o ≡ none → ⊥)
          → (x : ServiceEnd × W) → Option.map (λ naps. x) o ≡ some x
      waits none h x = absurd (h refl)
      waits (some naps) h x = refl

      go :
          (r : Result (Unit {0}) × Shrew W)
          → (o : ServiceEnd) × (served pcap fuel a.stop_in_service c.supervisor.poll_interval_ms
                (finish_resolve pcap (strap new_bootstrapper) r)
              ≡ some (o, (release pcap r.1).world))
      go (ok u, s) = (
        returned,
        waits (wait_until_stop_requested fuel a.stop_in_service c.supervisor.poll_interval_ms) h
            (returned, (release pcap s).world),
      )
      go (err f, s) = (crashed _, refl)
