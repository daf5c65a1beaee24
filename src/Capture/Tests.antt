-- ===== src/Capture/Tests.antt =====
-- A service on one device, and the theorem at it.
use elephant_shrew.Prelude.{
  ℕ, ◌≡◌, refl, Bool, true, false, [], ◌∷◌, none, some, ◌==◌, codes, if◌then◌else◌,
}
use elephant_shrew.Config.{RuntimeConfig, default_config}
use elephant_shrew.Receiver.{receive, stop}
use elephant_shrew.Receiver.Tests.{net}
use elephant_shrew.Capture.{
  Shrew, err, not_found, init, release, set_up, capture_all, capture_on, route_traffic, acquire,
  open_device, track_opened_device, start_receiver, resolve_capture_device, stop_all, close_each,
  close_devices, clear_receivers,
}
use elephant_shrew.Capture.Devices.{IsLawful}
use elephant_shrew.Capture.Release.{release-init}
use elephant_shrew.Capture.Plan.{receiver_of}

pub net-IsLawful : IsLawful net
net-IsLawful = record {
  opens = (λ d e dir w. refl);
  closes = (λ d e w. refl);
  starts = (λ d e w. refl);
  stops = (λ d e w. refl);
}

-- device 5 is open already
abbrev idle : Shrew (ℕ → Bool)
idle = record { receivers = []; opened_devices = []; world = λ d. d == 5 }

abbrev bridged : RuntimeConfig
bridged = record default_config {
  routing = record {
    enabled = true;
    ingress_iface = codes "eth0";
    egress_iface = codes "eth1";
    bidirectional = true;
  };
}

abbrev mistyped : RuntimeConfig
mistyped = record default_config {
  capture = record {
    ifaces = codes "eth1" ∷ codes "eth7" ∷ [];
    record_packets = false;
    debug_packets = false;
  };
}

init-bridged : (init net none bridged idle).1.opened_devices ≡ 3 ∷ 4 ∷ []
unfolding init set_up route_traffic resolve_capture_device acquire open_device track_opened_device
    start_receiver receive release close_devices clear_receivers stop_all close_each
init-bridged = refl

-- the second interface does not exist: the first device is open then, and is tracked
init-mistyped :
    ((init net none mistyped idle).0 ≡ err not_found)
    × ((init net none mistyped idle).1.opened_devices ≡ 4 ∷ [])
unfolding init set_up capture_all capture_on resolve_capture_device acquire open_device
    track_opened_device start_receiver receive release close_devices clear_receivers stop_all
    close_each
init-mistyped = (refl, refl)

still_open : net.is_opened 5 (release net (init net none mistyped idle).1).world ≡ true
unfolding init set_up capture_all capture_on resolve_capture_device acquire open_device
    track_opened_device start_receiver receive release close_devices clear_receivers stop_all stop
    close_each
still_open = refl

release-init_example : net.is_opened 5 (release net idle).world ≡ true
release-init_example = release-init net net-IsLawful none mistyped idle 5 still_open

-- the service after the bridge was set up
abbrev bridging : Shrew (ℕ → Bool)
bridging = record {
  receivers =
      receiver_of bridged.capture (3, some 4) ∷ receiver_of bridged.capture (4, some 3) ∷ [];
  opened_devices = 3 ∷ 4 ∷ [];
  world = (λ d. if d == 4 then true else if d == 3 then true else d == 5);
}
