-- ===== src/Capture/Plan.antt =====
-- Which receivers a service runs after an `Init` that returns.
use elephant_shrew.Prelude.{
  ℕ, ◌≡◌, ◌≢◌, true, false, List, [], ◌∷◌, map, Option, none, some, if◌then◌else◌,
}
use elephant_shrew.Config.{CaptureOptions, RuntimeConfig}
use elephant_shrew.Receiver.{Pcap, Receiver}
use elephant_shrew.Capture.{ok, resolve_capture_device}

-- a capture: the device, and the device that its packets go on to
abbrev pub Job : Type 0
Job = ℕ × Option ℕ

-- the receiver of a capture that runs
abbrev pub receiver_of : CaptureOptions → Job → Receiver
receiver_of c (d, route) = record {
  store = c.record_packets;
  device = some d;
  route_device = route;
  record_packets = c.record_packets;
  debug_packets = c.debug_packets;
  capturing = true;
}

module _ {W : Type 0} (pcap : Pcap W) where
  -- the captures that a configuration stands for
  pub data Planned (c : RuntimeConfig) : List Job → Type 0 where
    routed :
        (i e : ℕ)
        → c.routing.enabled ≡ true
        → resolve_capture_device pcap c.routing.ingress_iface ≡ ok i
        → resolve_capture_device pcap c.routing.egress_iface ≡ ok e
        → Planned c ((i, some e) ∷ (if c.routing.bidirectional then (e, some i) ∷ [] else []))
    front :
        (d : ℕ)
        → c.routing.enabled ≡ false
        → c.capture.ifaces ≡ []
        → resolve_capture_device pcap [] ≡ ok d
        → Planned c ((d, none) ∷ [])
    listed :
        (ds : List ℕ)
        → c.routing.enabled ≡ false
        → c.capture.ifaces ≢ []
        → map (resolve_capture_device pcap) c.capture.ifaces ≡ map (λ d. ok d) ds
        → Planned c (map (λ d. (d, none)) ds)

  -- what a receiver is before its `Receive`
  abbrev fresh : CaptureOptions → ℕ → Option ℕ → Receiver
  fresh c d route = record (receiver_of c (d, route)) { capturing = false }
