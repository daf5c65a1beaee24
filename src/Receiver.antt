-- ===== src/Receiver.antt =====
-- src/PcapReceiver.cpp: capture on one device, forwarding to another, and recording. PcapPlusPlus is a
-- parameter: the devices by number, and what it reads in a packet.
pub mod Packets
pub mod Tests
use elephant_shrew.Prelude.{
  ℕ, ◌+◌, ◌*◌, ◌/◌, ◌%◌, ◌^◌, ◌≡◌, ◌≢◌, Bool, true, false, not, ◌&&◌, List, Option, none, some,
  length, take, if◌then◌else◌, codes,
}
use elephant_shrew.Config.{Text}
use elephant_shrew.Render.{hex}
use elephant_shrew.Store.{PacketInfo}

-- the direction of `pcpp::PcapLiveDevice::DeviceConfiguration`
pub data PcapDirection : Type 0 where
  pcpp_in pcpp_inout : PcapDirection

-- the live devices of PcapPlusPlus, over a state `W` of the network
pub record Pcap (W : Type 0) : Type 0 where
  pub front : Option ℕ
  pub by_name : Text → Option ℕ
  pub name : ℕ → Text
  pub is_opened : ℕ → W → Bool
  pub open_device : ℕ → PcapDirection → W → Bool × W
  pub close : ℕ → W → W
  pub start_capture : ℕ → W → Bool × W
  pub stop_capture : ℕ → W → W
  pub send_packet : ℕ → List ℕ → W → Bool × W

-- what `pcpp::Packet` says of a frame: the addresses of the first layer of each kind, and its types
pub record Layers : Type 0 where
  pub ipv4 : Option (Text × Text)
  pub ipv6 : Option (Text × Text)
  pub arp : Option (Text × Text)
  pub is_arp : Bool
  pub is_tcp : Bool
  pub is_udp : Bool
  pub is_icmp : Bool

-- `pcpp::RawPacket`
pub record RawPacket : Type 0 where
  pub bytes : List ℕ
  pub tv_sec : ℕ
  pub tv_nsec : ℕ

-- the fields of `PcapReceiver`; `store` says that the pointer is not null
pub record Receiver : Type 0 where
  pub store : Bool
  pub device : Option ℕ
  pub route_device : Option ℕ
  pub record_packets : Bool
  pub debug_packets : Bool
  pub capturing : Bool

-- the exceptions of `Receive` and `processPacket`
pub data Failure : Type 0 where
  no_device device_closed route_closed no_start : Failure
  not_forwarded no_store : Failure

-- how processing a packet ends: an exception, a return before the recording, or a call of `Store`
pub data Processed : Type 0 where
  thrown : Failure → Processed
  unrecorded : Processed
  stored : PacketInfo → Processed

abbrev pub addresses : Layers → Text × Text
addresses l = elim l.ipv4 [
  | some a ↦ a
  | none ↦ elim l.ipv6 [
    | some a ↦ a
    | none ↦ elim l.arp [ some a ↦ a | none ↦ (codes "N/A", codes "N/A") ]
  ]
]

abbrev pub protocol_name : Layers → Text
protocol_name l =
    if l.is_arp
    then codes "ARP"
    else if l.is_tcp
    then codes "TCP"
    else if l.is_udp
    then codes "UDP"
    else if l.is_icmp
    then codes "ICMP"
    else codes "OTHER"

-- the record of a packet, with its bytes in hex
unfoldable pub describe : Text → Layers → RawPacket → PacketInfo
describe iface l raw =
    let len = length raw.bytes % 2 ^ 32 in
    let (src, dst) = addresses l in
    record {
      iface = iface;
      src_ip = src;
      dst_ip = dst;
      protocol = protocol_name l;
      length = len;
      data_hex = hex (take len raw.bytes);
      timestamp_us = (raw.tv_sec * 1000000 + raw.tv_nsec / 1000) % 2 ^ 64;
    }

module _ {W : Type 0} (pcap : Pcap W) where
  -- the forwarding: whether it succeeded, or there was nothing to do
  unfoldable pub forward : Option ℕ → RawPacket → W → Bool × W
  forward none raw w = (true, w)
  forward (some route) raw w = pcap.send_packet route raw.bytes w

  -- `processPacket`; `none` is a call through a null `device_`
  unfoldable pub process_packet :
      (List ℕ → Layers) → Receiver → RawPacket → W → Option (Processed × W)
  process_packet parse r raw w = elim r.device [
    | none ↦ none
    | some d ↦
        let (sent, w') = forward r.route_device raw w in
        if not sent
        then some (thrown not_forwarded, w')
        else if not r.record_packets
        then some (unrecorded, w')
        else if not r.store
        then some (thrown no_store, w')
        else some (stored (describe (pcap.name d) (parse raw.bytes) raw), w')
  ]

  -- `onPacketArrives`: the packet that goes to the store, if one does
  unfoldable pub on_packet_arrives :
      (List ℕ → Layers) → Receiver → RawPacket → W → Option (Option PacketInfo × W)
  on_packet_arrives parse r raw w = elim (process_packet parse r raw w) [
    | none ↦ none
    | some (stored p, w') ↦ some (some p, w')
    | some (unrecorded, w') ↦ some (none, w')
    | some (thrown f, w') ↦ some (none, w')
  ]

  -- `route_device_ && !route_device_->isOpened()`
  abbrev pub route_is_closed : Option ℕ → W → Bool
  route_is_closed none w = false
  route_is_closed (some e) w = not (pcap.is_opened e w)

  -- `Receive`; `none` is a return
  unfoldable pub receive : Receiver → W → Option Failure × Receiver × W
  receive r w = elim r.device [
    | none ↦ (some no_device, r, w)
    | some d ↦
        let (started, w') = pcap.start_capture d w in
        if not (pcap.is_opened d w)
        then (some device_closed, r, w)
        else if route_is_closed r.route_device w
        then (some route_closed, r, w)
        else if not started
        then (some no_start, r, w')
        else (none, record r { capturing = true }, w')
  ]

  -- `Stop`
  unfoldable pub stop : Receiver → W → Receiver × W
  stop r w = elim r.device [
    | none ↦ (r, w)
    | some d ↦
        if r.capturing then (record r { capturing = false }, pcap.stop_capture d w) else (r, w)
  ]
