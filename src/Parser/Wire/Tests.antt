-- ===== src/Parser/Wire/Tests.antt =====
-- A frame of 74 bytes, with one tag besides the one that the network card has stripped: UDP over IPv6, behind a
-- hop-by-hop header.
use elephant_shrew.Prelude.{ℕ, refl, List, [], ◌∷◌, ◌++◌, arith, replicate}
use elephant_shrew.Parser.Wire.Header.{ip6}
use elephant_shrew.Parser.Wire.Ip6.{Ipv6, IsIpv6, reached, header}
use elephant_shrew.Parser.Wire.Tagged.{untagged, tag}
use elephant_shrew.Parser.Wire.Transport.{udp}
use elephant_shrew.Parser.Wire.Layer.{segment}
use elephant_shrew.Parser.Wire.Frame.{Frame, IsFrame}

abbrev pub shrew : List ℕ
shrew =
    replicate 12 0
    ++ 0x81 ∷ 0x00 ∷ 0x20 ∷ 0x05 ∷ 0x86 ∷ 0xdd ∷ 0x60 ∷ 0 ∷ 0 ∷ 0 ∷ 0 ∷ 16 ∷ 0 ∷ 64 ∷ replicate 15 0
    ++ 1 ∷ replicate 15 0
    ++ 2 ∷ 17 ∷ 0 ∷ replicate 6 0
    ++ 0x30 ∷ 0x39 ∷ 1 ∷ 0xbb ∷ 0 ∷ 8 ∷ 0 ∷ 0 ∷ []

-- in the observer's buffer
abbrev pub padded : List ℕ
padded = shrew ++ replicate 54 0

abbrev shrew_ip6 : Ipv6
shrew_ip6 = record {
  low_nibble = 0;
  payload = 16;
  kind = 0;
  proto = 17;
  l4 = 66;
  src = replicate 15 0 ++ 1 ∷ [];
  dst = replicate 15 0 ++ 2 ∷ [];
}

abbrev pub shrew_frame : Frame
shrew_frame = record {
  vids = 0x2005 ∷ [];
  layer = segment (ip6 shrew_ip6) (0x30 ∷ 0x39 ∷ []) (1 ∷ 0xbb ∷ []);
}

shrew-IsIpv6 : IsIpv6 padded 74 74 18 shrew_ip6
shrew-IsIpv6 = record {
  version_byte = refl;
  nibble = omega arith;
  payload_word = record { high = 0; low = 16; first = refl; second = refl; value = refl };
  some_payload = omega arith;
  payload_in_packet = omega arith;
  there = omega arith;
  kind_byte = refl;
  src_bytes = record { there = omega arith; content = refl };
  dst_bytes = record { there = omega arith; content = refl };
  extended =
      header 3 0 58 0 17 17 66 refl (omega arith) refl (omega arith) (omega arith) (omega arith)
        (omega arith) refl (reached 3 17 66 refl);
  not_esp = omega arith;
}

pub shrew-IsFrame : IsFrame padded 74 74 shrew_frame
shrew-IsFrame = record {
  ethernet = omega arith;
  ethernet_in_frame = omega arith;
  first_type = 0x8100;
  first_word = record { high = 0x81; low = 0; first = refl; second = refl; value = refl };
  off = 18;
  tags =
      tag 1 0x8100 14 0x2005 0x86dd [] 0x86dd 18 refl (omega arith) (omega arith)
        record { high = 0x20; low = 5; first = refl; second = refl; value = refl }
        record { high = 0x86; low = 0xdd; first = refl; second = refl; value = refl }
        (untagged 1 0x86dd 18 refl);
  content = record {
    network = shrew-IsIpv6;
    header =
        udp 8 refl (omega arith)
          record { high = 0; low = 8; first = refl; second = refl; value = refl } (omega arith)
          (omega arith);
    source = record { there = omega arith; content = refl };
    target = record { there = omega arith; content = refl };
  };
}
