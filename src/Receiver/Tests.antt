-- ===== src/Receiver/Tests.antt =====
-- A network of devices that are open or not, a packet, and the theorem at them.
use elephant_shrew.Prelude.{
  ℕ, ◌≡◌, refl, Bool, true, false, List, [], ◌∷◌, none, some, ◌==◌, arith, codes, if◌then◌else◌,
}
use elephant_shrew.Config.{same_text}
use elephant_shrew.Render.{hex}
use elephant_shrew.Store.{PacketInfo}
use elephant_shrew.Receiver.{
  Pcap, Layers, RawPacket, Receiver, stored, describe, forward, process_packet, receive,
  route_closed,
}
use elephant_shrew.Receiver.Packets.{IsWhole, WasForwarded, process_packet-IsWhole}

-- device 3 is "eth0" and device 4 is "eth1": all that is done to them succeeds
abbrev pub net : Pcap (ℕ → Bool)
net = record {
  front = some 3;
  by_name = (λ n.
      if same_text n (codes "eth0")
      then some 3
      else if same_text n (codes "eth1")
      then some 4
      else none);
  name = (λ d. if d == 3 then codes "eth0" else codes "eth1");
  is_opened = (λ d w. w d);
  open_device = (λ d dir w. (true, λ e. if e == d then true else w e));
  close = (λ d w e. if e == d then false else w e);
  start_capture = (λ d w. (true, w));
  stop_capture = (λ d w. w);
  send_packet = (λ d bytes w. (w d, w));
}

abbrev pub all_open : ℕ → Bool
all_open d = true

abbrev pub layers : List ℕ → Layers
layers bytes = record {
  ipv4 = some (codes "10.0.0.1", codes "10.0.0.2");
  ipv6 = none;
  arp = none;
  is_arp = false;
  is_tcp = false;
  is_udp = true;
  is_icmp = true;
}

abbrev pub raw : RawPacket
raw = record { bytes = 26 ∷ 255 ∷ []; tv_sec = 2; tv_nsec = 5999 }

abbrev pub recorder : Receiver
recorder = record {
  store = true;
  device = some 3;
  route_device = some 4;
  record_packets = true;
  debug_packets = false;
  capturing = false;
}

abbrev pub entry : PacketInfo
entry = record {
  iface = codes "eth0";
  src_ip = codes "10.0.0.1";
  dst_ip = codes "10.0.0.2";
  protocol = codes "UDP";
  length = 2;
  data_hex = codes "1aff";
  timestamp_us = 2000005;
}

process_packet-entry :
    process_packet net layers recorder raw all_open ≡ some (stored entry, all_open)
unfolding process_packet forward describe hex
process_packet-entry = refl

receive-stop :
    (receive net (record recorder { route_device = some 4 }) (λ d. d == 3)).0 ≡ some route_closed
unfolding receive
receive-stop = refl

process_packet-IsWhole_example :
    (d : ℕ) × (some 3 ≡ some d)
    × (true ≡ true)
    × (true ≡ true)
    × WasForwarded net layers recorder raw all_open (some 4) all_open
    × IsWhole (net.name d) raw entry
process_packet-IsWhole_example =
    process_packet-IsWhole net layers recorder raw all_open (omega arith) (omega arith)
      process_packet-entry
