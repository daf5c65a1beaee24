-- ===== src/Parser/Wire/Layer.antt =====
-- What follows the Ethernet header and its tags: an ARP message, or an IP header with a segment or another payload.
use elephant_shrew.Prelude.{
  ℕ, ◌+◌, ◌^◌, ◌≤◌, ◌<◌, ◌≡◌, ◌≢◌, ◌∙◌, List, false, arith, add32, ◌==◌, set_flag,
}
use elephant_shrew.Abi.{Tuple, parse_ok, t_addr_valid}
use elephant_shrew.Parser.{arp_addresses, parse_arp, parse_network, parse_transport}
use elephant_shrew.Parser.Reader.{next, copy_into, ◌>>=◌}
use elephant_shrew.Parser.Wire.{
  Byte, Word, Bytes, byte-Byte, es_be16-Word, slice-Bytes, check-es_need,
}
use elephant_shrew.Parser.Wire.Header
use elephant_shrew.Parser.Wire.Header.{
  Network, IsNetwork, with_network, packet_end_le, parse_network-IsNetwork,
}
use elephant_shrew.Parser.Wire.Transport.{IsSegment, ported, parse_transport-IsSegment}

pub data Layer : Type 0 where
  segment : Network → List ℕ → List ℕ → Layer
  payload : Network → Layer
  arp : List ℕ → List ℕ → Layer

abbrev pub type_of : Layer → ℕ
type_of (segment n sport dport) = Header.ethertype n
type_of (payload n) = Header.ethertype n
type_of (arp sender target) = 0x0806

-- a request or a reply for an IPv4 address on Ethernet
pub record IsArp (p : List ℕ) (cap end off : ℕ) (sender target : List ℕ) : Type 0 where
  pub there : off + 28 ≤ cap
  pub inside : off + 28 ≤ end
  pub hardware : Word p off 1
  pub protocol : Word p (off + 2) 0x0800
  pub hardware_size : Byte p (off + 4) 6
  pub protocol_size : Byte p (off + 5) 4
  pub sender_bytes : Bytes p (off + 14) 4 sender
  pub target_bytes : Bytes p (off + 24) 4 target

-- a TCP or UDP header with its ports, within the packet
pub record Ports (p : List ℕ) (cap end off : ℕ) (n : Network) (sport dport : List ℕ) : Type 0 where
  pub network : IsNetwork p cap end off n
  pub header : IsSegment p cap (Header.packet_end off n) (Header.l4 off n) (Header.proto n)
  pub source : Bytes p (Header.l4 off n) 2 sport
  pub target : Bytes p (Header.l4 off n + 2) 2 dport

abbrev pub IsLayer : List ℕ → ℕ → ℕ → ℕ → Layer → Type 0
IsLayer p cap end off (segment n sport dport) = Ports p cap end off n sport dport
IsLayer p cap end off (payload n) =
    IsNetwork p cap end off n × (Header.proto n ≢ 6) × (Header.proto n ≢ 17)
IsLayer p cap end off (arp sender target) = IsArp p cap end off sender target

-- the tuple after the layer
abbrev pub layered : Layer → Tuple → Tuple
layered (segment n sport dport) t = ported sport dport (with_network n t)
layered (payload n) t = with_network n t
layered (arp sender target) t = record t {
  src = copy_into sender t.src;
  dst = copy_into target t.dst;
  ip_version = 4;
  flags = set_flag t.flags t_addr_valid;
}

module _ (p : List ℕ) (cap end off : ℕ) (cap_word : cap < 2 ^ 32) (end_word : end < 2 ^ 32) where
  parse_arp-IsArp :
      (sender target : List ℕ) (t : Tuple)
      → IsArp p cap end off sender target
      → parse_arp p cap end off t ≡ next (parse_ok, layered (arp sender target) t)
  unfolding parse_arp arp_addresses ◌>>=◌
  parse_arp-IsArp sender target t v =
      let whole = check-es_need t off 28 cap end v.there v.inside cap_word end_word in
      let fourth : add32 off 4 ≡ off + 4 = omega (arith, v.there) in
      let fifth : add32 off 5 ≡ off + 5 = omega (arith, v.there) in
      rw (
        parse_arp,
        whole,
        es_be16-Word p off 1 v.hardware,
        es_be16-Word p (off + 2) 0x0800 v.protocol,
        fourth,
        fifth,
        byte-Byte p (off + 4) 6 v.hardware_size,
        byte-Byte p (off + 5) 4 v.protocol_size,
        arp_addresses,
        slice-Bytes p (off + 14) 4 sender v.sender_bytes,
        slice-Bytes p (off + 24) 4 target v.target_bytes,
      )

  parse_transport-other :
      (l4 packet_end : ℕ) (t : Tuple)
      → t.l4_proto ≢ 6
      → t.l4_proto ≢ 17
      → parse_transport p cap l4 packet_end t ≡ next (parse_ok, t)
  unfolding parse_transport
  parse_transport-other l4 packet_end t a b =
      let e : (t.l4_proto == 6) ≡ false = ground arith in
      let e' : (t.l4_proto == 17) ≡ false = ground arith in rw (parse_transport, e, e')

  pub parse_network-IsLayer :
      (l : Layer) (t : Tuple)
      → IsLayer p cap end off l
      → parse_network p cap end (type_of l) off t ≡ next (parse_ok, layered l t)
  unfolding parse_network
  parse_network-IsLayer (segment n sport dport) t v =
      parse_network-IsNetwork p cap end off cap_word end_word n t v.network
      ∙ parse_transport-IsSegment p cap (Header.packet_end off n) (Header.l4 off n)
          (with_network n t) sport dport v.source v.target cap_word
          (packet_end_le p cap end off cap_word end_word n v.network) v.header
  parse_network-IsLayer (payload n) t (v, a, b) =
      parse_network-IsNetwork p cap end off cap_word end_word n t v
      ∙ parse_transport-other (Header.l4 off n) (Header.packet_end off n) (with_network n t) a b
  parse_network-IsLayer (arp sender target) t v = parse_arp-IsArp sender target t v
