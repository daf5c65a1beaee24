-- ===== src/Capture.antt =====
-- src/ElephantShrew.cpp: the capture service opens its devices and starts a receiver on each. An exception
-- leaves the object as it is then, so a step gives back the state on every path.

pub mod Devices
pub mod Plan
pub mod Release
pub mod Tests
use elephant_shrew.Prelude.{
  ℕ, Bool, true, false, not, ◌&&◌, ◌||◌, List, [], ◌∷◌, ◌++◌, Option, none, some, ◌==◌,
  if◌then◌else◌,
}
use elephant_shrew.Config.{Text, is_empty, CaptureOptions, RoutingOptions, RuntimeConfig}
use elephant_shrew.Store.Connect.{Refusal}
use elephant_shrew.Receiver.{
  PcapDirection, pcpp_in, pcpp_inout, Pcap, Receiver, Failure, receive, stop,
}

-- the exceptions of `Init`
pub data Fault : Type 0 where
  no_interfaces not_found not_opened : Fault
  store_refused : Refusal → Fault
  not_receiving : Failure → Fault

-- `receivers_` and `opened_devices_`, with the network
pub record Shrew (W : Type 0) : Type 0 where
  pub receivers : List Receiver
  pub opened_devices : List ℕ
  pub world : W

-- a return or an exception
pub data Result (A : Type 0) : Type 0 where
  ok : A → Result A
  err : Fault → Result A

abbrev pub M : Type 0 → Type 0 → Type 0
M W A = Shrew W → Result A × Shrew W

-- what follows a step: an exception passes it over
abbrev pub after : {W A B : Type 0} → (A → M W B) → Result A × Shrew W → Result B × Shrew W
after f (ok a, s) = f a s
after f (err e, s) = (err e, s)

infixl 5 ◌>>=◌ ◌>>◌
abbrev pub ◌>>=◌ : {W A B : Type 0} → M W A → (A → M W B) → M W B
◌>>=◌ m f s = after f (m s)

abbrev pub ◌>>◌ : {W B : Type 0} → M W (Unit {0}) → M W B → M W B
m >> k = m >>= λ _. k

abbrev pub contains : List ℕ → ℕ → Bool
contains [] d = false
contains (x ∷ xs) d = x == d || contains xs d

module _ {W : Type 0} (pcap : Pcap W) where
  abbrev pub give : {A : Type 0} → Result A → M W A
  give r s = (r, s)

  -- `ResolveCaptureDevice`
  unfoldable pub resolve_capture_device : Text → Result ℕ
  resolve_capture_device iface =
      if is_empty iface
      then elim pcap.front [ none ↦ err no_interfaces | some d ↦ ok d ]
      else elim (pcap.by_name iface) [ none ↦ err not_found | some d ↦ ok d ]

  -- `OpenDevice`
  unfoldable pub open_device : ℕ → PcapDirection → M W (Unit {0})
  open_device d dir s =
      let (opened, w) = pcap.open_device d dir s.world in
      if pcap.is_opened d s.world
      then (ok tt, s)
      else (if opened then ok tt else err not_opened, record s { world = w })

  -- `TrackOpenedDevice`
  unfoldable pub track_opened_device : ℕ → M W (Unit {0})
  track_opened_device d s = (
    ok tt,
    if not (contains s.opened_devices d)
        then record s { opened_devices = s.opened_devices ++ d ∷ [] }
        else s,
  )

  -- `OpenDevice`, then `TrackOpenedDevice`
  unfoldable pub acquire : ℕ → PcapDirection → M W (Unit {0})
  acquire d dir = do open_device d dir; track_opened_device d

  -- a new `PcapReceiver`, its `Receive`, and its place in `receivers_`
  unfoldable pub start_receiver : CaptureOptions → ℕ → Option ℕ → M W (Unit {0})
  start_receiver c d route s =
      let (failed, r, w) =
        receive pcap
          (record {
            store = c.record_packets;
            device = some d;
            route_device = route;
            record_packets = c.record_packets;
            debug_packets = c.debug_packets;
            capturing = false;
          })
          s.world in
      elim failed [
        | some f ↦ (err (not_receiving f), record s { world = w })
        | none ↦ (ok tt, record s { receivers = s.receivers ++ r ∷ []; world = w })
      ]

  -- one interface of the capture
  unfoldable pub capture_on : CaptureOptions → Text → M W (Unit {0})
  capture_on c iface = do
    d ← give (resolve_capture_device iface)
    acquire d pcpp_inout
    start_receiver c d none

  -- the loop over the interfaces
  unfoldable pub capture_all : CaptureOptions → List Text → M W (Unit {0})
  capture_all c [] = give (ok tt)
  capture_all c (i ∷ is) = do capture_on c i; capture_all c is

  -- the bridge between two devices
  unfoldable pub route_traffic : CaptureOptions → RoutingOptions → M W (Unit {0})
  route_traffic c r = do
    ingress ← give (resolve_capture_device r.ingress_iface)
    egress ← give (resolve_capture_device r.egress_iface)
    acquire ingress pcpp_in
    acquire egress pcpp_in
    start_receiver c ingress (some egress)
    if r.bidirectional then start_receiver c egress (some ingress) else give (ok tt)

  -- the destructors of the receivers, in the order of the vector
  unfoldable pub stop_all : List Receiver → W → W
  stop_all [] w = w
  stop_all (r ∷ rs) w = stop_all rs (stop pcap r w).1

  -- the loop of `CloseDevices`, from the last device to the first
  unfoldable pub close_each : List ℕ → W → W
  close_each [] w = w
  close_each (d ∷ ds) w =
      let w' = close_each ds w in if pcap.is_opened d w' then pcap.close d w' else w'

  unfoldable pub close_devices : Shrew W → Shrew W
  close_devices s = record s { opened_devices = []; world = close_each s.opened_devices s.world }

  unfoldable pub clear_receivers : Shrew W → Shrew W
  clear_receivers s = record s { receivers = []; world = stop_all s.receivers s.world }

  -- the destructor, and the start of `Init`
  unfoldable pub release : Shrew W → Shrew W
  release s = close_devices (clear_receivers s)

  -- `Init` after the release; `refusal` is the exception of `RedisPacketStore`, if it throws one
  unfoldable pub set_up : Option Refusal → RuntimeConfig → M W (Unit {0})
  set_up refusal c = do
    give (
        if c.capture.record_packets
        then (elim refusal [ some r ↦ err (store_refused r) | none ↦ ok tt ])
        else ok tt)
    if c.routing.enabled then route_traffic c.capture c.routing else (elim c.capture.ifaces [
      | [] ↦ capture_on c.capture []
      | i ∷ is ↦ capture_all c.capture (i ∷ is)
    ])

  unfoldable pub init : Option Refusal → RuntimeConfig → M W (Unit {0})
  init refusal c s = set_up refusal c (release s)
