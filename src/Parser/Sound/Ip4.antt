-- ===== src/Parser/Sound/Ip4.antt =====
-- `parse_ipv4` backwards.
use mathlib.Core.Path.{subst}
use elephant_shrew.Prelude.{
  ℕ, ◌+◌, ◌*◌, ◌/◌, ◌%◌, ◌^◌, ◌≤◌, ◌<◌, ◌≡◌, sym, ap, ◌∙◌, not, ◌||◌, List, arith, IsBytes,
  All-get_elem?, add32, sub32, ltb, ◌==◌, set_flag,
}
use elephant_shrew.Abi.{Tuple, malformed, fragment, t_fragment}
use elephant_shrew.Parser.{es_need, parse_ipv4, ipv4_lengths, ipv4_fields}
use elephant_shrew.Parser.Reader.{next, check, byte, es_be16, slice}
use elephant_shrew.Parser.Wire.{Byte, Word}
use elephant_shrew.Parser.Wire.Ip4.{Ipv4, IsIpv4, addressed}
use elephant_shrew.Parser.Sound.{
  next-inj, bind_next, branch_next, es_need_next, byte_next, byte_at, es_be16_next, slice_next,
}

-- what a step has read from an IPv4 header into the tuple
pub record Read (p : List ℕ) (cap end off : ℕ) (t : Tuple) (r : ℕ × ℕ × Tuple) : Type 0 where
  pub header : Ipv4
  pub on_wire : IsIpv4 p cap end off header
  pub result : r ≡ (
    off + header.words * 4,
    off + header.total,
    addressed 4 header.proto header.src header.dst t,
  )

module _ (p : List ℕ) (cap end off : ℕ) (t : Tuple) {r : ℕ × ℕ × Tuple} (octets : IsBytes p)
    (cap_word : cap < 2 ^ 32) (end_word : end < 2 ^ 32) where
  ipv4_fields_next :
      (words total : ℕ)
      → Byte p off (64 + words)
      → words < 16
      → 5 ≤ words
      → Word p (off + 2) total
      → words * 4 ≤ total
      → off + total ≤ end
      → ipv4_fields p cap (off + total) off t (words * 4) ≡ next r
      → Read p cap end off t r
  unfolding ipv4_fields
  ipv4_fields_next words total first nibble whole word inside fits h =
      let (u, e, h1) = bind_next (check t (es_need off (words * 4) cap (off + total))) h in
      let (c, d) = es_need_next t off (words * 4) cap (off + total) e cap_word (omega arith) in
      let (proto, ep, h2) = bind_next (byte p (add32 off 9)) h1 in
      let (src, es, h3) = bind_next (slice p (off + 12) 4) h2 in
      let (dst, ed, h4) = bind_next (slice p (off + 16) 4) h3 in
      let (frag, ef, h5) = bind_next (es_be16 p (off + 6)) h4 in
      let t' = addressed 4 proto src dst t in
      let (plain, h6) =
        branch_next (not (frag % 0x4000 == 0)) fragment
          (record t' { flags = set_flag t'.flags t_fragment }) h5 in
      let proto_at : add32 off 9 ≡ off + 9 = omega arith in
      let header_end : add32 off (words * 4) ≡ off + words * 4 = omega arith in
      record {
        header = record { words = words; total = total; proto = proto; src = src; dst = dst };
        on_wire = record {
          version_byte = first;
          nibble = nibble;
          whole = whole;
          total_word = word;
          header_in_total = inside;
          total_in_packet = fits;
          there = c;
          fragment_field = frag;
          fragment_word = es_be16_next p (off + 6) ef;
          unfragmented = ground arith;
          proto_byte = byte_at p (off + 9) proto_at ep;
          src_bytes = slice_next p (off + 12) 4 es;
          dst_bytes = slice_next p (off + 16) 4 ed;
        };
        result = sym (next-inj h6) ∙ ap (λ l4. (l4, off + total, t')) header_end;
      }

  -- an IPv4 header that was parsed is on the wire
  pub parse_ipv4_next : parse_ipv4 p cap end off t ≡ next r → Read p cap end off t r
  unfolding parse_ipv4 ipv4_lengths
  parse_ipv4_next h =
      let (u, e, h1) = bind_next (check t (es_need off 20 cap end)) h in
      let (c, d) = es_need_next t off 20 cap end e cap_word end_word in
      let (first, ef, h2) = bind_next (byte p off) h1 in
      let (version, h3) = branch_next (not (first / 16 == 4)) malformed t h2 in
      let small : first < 256 = All-get_elem? (λ b. b < 256) p off octets (byte_next p off ef) in
      let words = first % 16 in
      let (total, et, h4) = bind_next (es_be16 p (off + 2)) h3 in
      let (good, h5) =
        branch_next (ltb (words * 4) 20 || ltb total (words * 4) || ltb (sub32 end off) total)
          malformed t h4 in
      let whole : 5 ≤ words = ground arith in
      let inside : words * 4 ≤ total = ground arith in
      let fits : off + total ≤ end = ground arith in
      let total_end : add32 off total ≡ off + total = omega arith in
      let split : first ≡ 64 + words = ground arith in
      ipv4_fields_next words total (subst (Byte p off) split (byte_next p off ef)) (omega arith)
        whole (es_be16_next p (off + 2) et) inside fits
        (subst (λ n. ipv4_fields p cap n off t (words * 4) ≡ next r) total_end h5)
