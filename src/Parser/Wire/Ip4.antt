-- ===== src/Parser/Wire/Ip4.antt =====
-- An IPv4 header, with its options, and what `parse_ipv4` takes from it.
use elephant_shrew.Prelude.{
  ℕ, ◌+◌, ◌*◌, ◌/◌, ◌%◌, ◌^◌, ◌≤◌, ◌<◌, ◌≡◌, true, false, ◌||◌, List, arith, add32, sub32, ltb,
  ◌==◌, set_flag,
}
use elephant_shrew.Abi.{Tuple, t_addr_valid}
use elephant_shrew.Parser.{parse_ipv4, ipv4_lengths, ipv4_fields}
use elephant_shrew.Parser.Reader.{next, copy_into, ◌>>=◌}
use elephant_shrew.Parser.Wire.{
  Byte, Word, Bytes, byte-Byte, es_be16-Word, slice-Bytes, check-es_need,
}

-- what the header says: its length in words of four bytes, the total length, the protocol and the addresses
pub record Ipv4 : Type 0 where
  pub words : ℕ
  pub total : ℕ
  pub proto : ℕ
  pub src : List ℕ
  pub dst : List ℕ

-- the header at `off`, with its options, and no fragment
pub record IsIpv4 (p : List ℕ) (cap end off : ℕ) (h : Ipv4) : Type 0 where
  pub version_byte : Byte p off (64 + h.words)
  pub nibble : h.words < 16
  pub whole : 5 ≤ h.words
  pub total_word : Word p (off + 2) h.total
  pub header_in_total : h.words * 4 ≤ h.total
  pub total_in_packet : off + h.total ≤ end
  pub there : off + h.words * 4 ≤ cap
  pub fragment_field : ℕ
  pub fragment_word : Word p (off + 6) fragment_field
  pub unfragmented : fragment_field % 0x4000 ≡ 0
  pub proto_byte : Byte p (off + 9) h.proto
  pub src_bytes : Bytes p (off + 12) 4 h.src
  pub dst_bytes : Bytes p (off + 16) 4 h.dst

-- the tuple after a network header
abbrev pub addressed : ℕ → ℕ → List ℕ → List ℕ → Tuple → Tuple
addressed version proto src dst t = record t {
  src = copy_into src t.src;
  dst = copy_into dst t.dst;
  ip_version = version;
  l4_proto = proto;
  flags = set_flag t.flags t_addr_valid;
}

module _ (p : List ℕ) (cap end off : ℕ) (t : Tuple) (h : Ipv4) (v : IsIpv4 p cap end off h)
    (cap_word : cap < 2 ^ 32) (end_word : end < 2 ^ 32) where
  ipv4_fields-IsIpv4 :
      ipv4_fields p cap (off + h.total) off t (h.words * 4)
      ≡ next (off + h.words * 4, off + h.total, addressed 4 h.proto h.src h.dst t)
  unfolding ipv4_fields ◌>>=◌
  ipv4_fields-IsIpv4 =
      let proto_at : add32 off 9 ≡ off + 9 = omega (arith, v.there, v.whole) in
      let header_end : add32 off (h.words * 4) ≡ off + h.words * 4 = omega (arith, v.there) in
      let whole =
        check-es_need t off (h.words * 4) cap (off + h.total) v.there (omega arith) cap_word
          (omega arith) in
      let plain : (v.fragment_field % 0x4000 == 0) ≡ true = ground (arith, v.unfragmented) in
      rw (
        ipv4_fields,
        whole,
        proto_at,
        byte-Byte p (off + 9) h.proto v.proto_byte,
        slice-Bytes p (off + 12) 4 h.src v.src_bytes,
        slice-Bytes p (off + 16) 4 h.dst v.dst_bytes,
        es_be16-Word p (off + 6) v.fragment_field v.fragment_word,
        plain,
        header_end,
      )

  pub parse_ipv4-IsIpv4 :
      parse_ipv4 p cap end off t
      ≡ next (off + h.words * 4, off + h.total, addressed 4 h.proto h.src h.dst t)
  unfolding parse_ipv4 ipv4_lengths ◌>>=◌
  parse_ipv4-IsIpv4 =
      let whole =
        check-es_need t off 20 cap end (omega (arith, v.there, v.whole))
          (omega (arith, v.total_in_packet, v.header_in_total, v.whole)) cap_word end_word in
      let version : ((64 + h.words) / 16 == 4) ≡ true = ground (arith, v.nibble) in
      let size : (64 + h.words) % 16 * 4 ≡ h.words * 4 = omega (arith, v.nibble) in
      let fits : (ltb (h.words * 4) 20 || ltb h.total (h.words * 4) || ltb (sub32 end off) h.total)
          ≡ false =
        ground (arith, v.whole, v.header_in_total, v.total_in_packet) in
      let total_end : add32 off h.total ≡ off + h.total = omega (arith, v.total_in_packet) in
      rw (
        parse_ipv4,
        whole,
        byte-Byte p off (64 + h.words) v.version_byte,
        version,
        ipv4_lengths,
        size,
        es_be16-Word p (off + 2) h.total v.total_word,
        fits,
        total_end,
        ipv4_fields-IsIpv4,
      )
