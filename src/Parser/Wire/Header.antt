-- ===== src/Parser/Wire/Header.antt =====
-- The network header of a frame, of either version, with what `es_parse` takes from it.
use elephant_shrew.Prelude.{ℕ, ◌+◌, ◌*◌, ◌^◌, ◌<◌, ◌≡◌, List, arith}
use elephant_shrew.Abi.{Tuple}
use elephant_shrew.Parser.{parse_network, parse_transport}
use elephant_shrew.Parser.Reader.{◌>>=◌}
use elephant_shrew.Parser.Wire.Ip4.{Ipv4, IsIpv4, addressed, parse_ipv4-IsIpv4}
use elephant_shrew.Parser.Wire.Ip6.{Ipv6, IsIpv6, parse_ipv6-IsIpv6}

pub data Network : Type 0 where
  ip4 : Ipv4 → Network
  ip6 : Ipv6 → Network

abbrev pub ethertype : Network → ℕ
ethertype (ip4 h) = 0x0800
ethertype (ip6 h) = 0x86dd

abbrev pub version : Network → ℕ
version (ip4 h) = 4
version (ip6 h) = 6

abbrev pub proto : Network → ℕ
proto (ip4 h) = h.proto
proto (ip6 h) = h.proto

abbrev pub src : Network → List ℕ
src (ip4 h) = h.src
src (ip6 h) = h.src

abbrev pub dst : Network → List ℕ
dst (ip4 h) = h.dst
dst (ip6 h) = h.dst

-- where the transport header starts, for a header at `off`
abbrev pub l4 : ℕ → Network → ℕ
l4 off (ip4 h) = off + h.words * 4
l4 off (ip6 h) = h.l4

-- where the packet ends
abbrev pub packet_end : ℕ → Network → ℕ
packet_end off (ip4 h) = off + h.total
packet_end off (ip6 h) = off + 40 + h.payload

abbrev pub IsNetwork : List ℕ → ℕ → ℕ → ℕ → Network → Type 0
IsNetwork p cap end off (ip4 h) = IsIpv4 p cap end off h
IsNetwork p cap end off (ip6 h) = IsIpv6 p cap end off h

abbrev pub with_network : Network → Tuple → Tuple
with_network n = addressed (version n) (proto n) (src n) (dst n)

module _ (p : List ℕ) (cap end off : ℕ) (cap_word : cap < 2 ^ 32) (end_word : end < 2 ^ 32) where
  pub packet_end_le : (n : Network) → IsNetwork p cap end off n → packet_end off n < 2 ^ 32
  packet_end_le (ip4 h) v = omega (arith, v.total_in_packet)
  packet_end_le (ip6 h) v = omega (arith, v.payload_in_packet)

  pub parse_network-IsNetwork :
      (n : Network) (t : Tuple)
      → IsNetwork p cap end off n
      → parse_network p cap end (ethertype n) off t
        ≡ parse_transport p cap (l4 off n) (packet_end off n) (with_network n t)
  unfolding parse_network ◌>>=◌
  parse_network-IsNetwork (ip4 h) t v =
      rw (parse_network, parse_ipv4-IsIpv4 p cap end off t h v cap_word end_word)
  parse_network-IsNetwork (ip6 h) t v =
      rw (parse_network, parse_ipv6-IsIpv6 p cap end off t h v cap_word end_word)
