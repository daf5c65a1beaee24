-- ===== src/Parser/Sound/Ip6.antt =====
-- `parse_ipv6` backwards, with the loop over the extension headers.
use mathlib.Core.Path.{subst}
use elephant_shrew.Prelude.{
  ℕ, zero, suc, ◌+◌, ◌*◌, ◌/◌, ◌%◌, ◌^◌, ◌≤◌, ◌<◌, ◌≡◌, ◌≢◌, sym, ap, ◌∙◌, false, not, ◌||◌, inl,
  inr, List, arith, IsBytes, All-get_elem?, add32, sub32, ltb, ◌==◌, if◌then◌else◌, Bool-cases,
}
use elephant_shrew.Abi.{Tuple, malformed, unsupported}
use elephant_shrew.Parser.{
  es_need, es_ext, ext_fragment, ext_header, ext_loop, parse_ipv6, ipv6_lengths, ipv6_fields,
}
use elephant_shrew.Parser.Reader.{Parsed, next, stop, check, ◌>>◌, byte, es_be16, slice, ◌>>=◌}
use elephant_shrew.Parser.Wire.{Byte, Word}
use elephant_shrew.Parser.Wire.Ip4.{addressed}
use elephant_shrew.Parser.Wire.Ip6.{ext_size, Extended, reached, header, Ipv6, IsIpv6}
use elephant_shrew.Parser.Sound.{
  next-inj, stopped, bind_next, branch_next, es_need_next, byte_next, byte_at, es_be16_next,
  slice_next,
}

-- what a step has read from an extension header of kind `kind`
record Passed (p : List ℕ) (cap end kind off : ℕ) (r : ℕ × ℕ) : Type 0 where
  not_fragment : kind ≢ 44
  size : ℕ
  size_byte : Byte p (off + 1) size
  small : size < 256
  large : 8 ≤ ext_size kind size
  there : off + ext_size kind size ≤ cap
  inside : off + ext_size kind size ≤ end
  next_byte : Byte p off r.0
  following : r.1 ≡ off + ext_size kind size

module _ (p : List ℕ) (cap end : ℕ) (t : Tuple) (octets : IsBytes p) (cap_word : cap < 2 ^ 32)
    (end_word : end < 2 ^ 32) where
  ext_fragment_next : (off : ℕ) {r : ℕ × ℕ} → ext_fragment p cap end off t ≡ next r → ⊥
  unfolding ext_fragment
  ext_fragment_next off h =
      let (u, e, h1) = bind_next (check t (es_need off 8 cap end)) h in
      let (proto, ep, h2) = bind_next (byte p off) h1 in stopped h2

  -- a header whose size `n` is known
  sized_next :
      (off n : ℕ) {r : ℕ × ℕ}
      → (if ltb n 8
          then stop malformed t
          else (do check t (es_need off n cap end); kind' ← byte p off; next (kind', add32 off n)))
        ≡ next r
      → (8 ≤ n) × (off + n ≤ cap) × (off + n ≤ end) × Byte p off r.0 × (r.1 ≡ off + n)
  sized_next off n {r} h =
      let (large, h1) = branch_next (ltb n 8) malformed t h in
      let (v, e, h2) = bind_next (check t (es_need off n cap end)) h1 in
      let (c, d) = es_need_next t off n cap end e cap_word end_word in
      let (kind', ek, h3) = bind_next (byte p off) h2 in
      let result = next-inj h3 in
      let step : add32 off n ≡ off + n = omega arith in
      (
        ground arith,
        c,
        d,
        subst (Byte p off) (ap (λ (r : ℕ × ℕ). r.0) result) (byte_next p off ek),
        sym (ap (λ (r : ℕ × ℕ). r.1) result) ∙ step,
      )

  ext_header_next :
      (kind off : ℕ) {r : ℕ × ℕ}
      → ext_header p cap end kind off t ≡ next r
      → Passed p cap end kind off r
  unfolding ext_header
  ext_header_next kind off {r} h =
      let (u, e, h1) = bind_next (check t (es_need off 2 cap end)) h in
      let (c, d) = es_need_next t off 2 cap end e cap_word end_word in
      elim (Bool-cases (kind == 44)) [
        | inl k ↦ absurd (ext_fragment_next off (rw k at h1))
        | inr k ↦
            let (size, es, h2) = bind_next (byte p (add32 off 1)) (rw k at h1) in
            let second : add32 off 1 ≡ off + 1 = omega arith in
            let size_byte = byte_at p (off + 1) second es in
            let small : size < 256 = All-get_elem? (λ b. b < 256) p (off + 1) octets size_byte in
            let n = ext_size kind size in
            let counted : (if kind == 51 then add32 size 2 * 4 else add32 size 1 * 8) ≡ n =
              ground arith in
            let v = sized_next off n (rw counted at h2) in
            record {
              not_fragment = ground arith;
              size = size;
              size_byte = size_byte;
              small = small;
              large = v.0;
              there = v.1;
              inside = v.2;
              next_byte = v.3;
              following = v.4;
            }
      ]

  reached_lem :
      (n kind off : ℕ) {proto l4 : ℕ}
      → ◌≡◌ {A = Parsed (ℕ × ℕ)} (next (kind, off)) (next (proto, l4))
      → es_ext proto ≡ false
      → Extended p cap end n kind off proto l4
  reached_lem n kind off h e =
      let same = next-inj h in
      subst (λ (r : ℕ × ℕ). Extended p cap end n kind off r.0 r.1) same
        (reached n kind off (ap (λ (r : ℕ × ℕ). es_ext r.0) same ∙ e))

  ext_loop_next :
      (n kind off : ℕ) {proto l4 : ℕ}
      → ext_loop p cap n end kind off t ≡ next (proto, l4)
      → es_ext proto ≡ false
      → Extended p cap end n kind off proto l4
  unfolding ext_loop
  ext_loop_next zero kind off h e = reached_lem zero kind off h e
  ext_loop_next (suc n) kind off {proto} {l4} h e = elim (Bool-cases (es_ext kind)) [
    | inr k ↦ reached_lem (suc n) kind off (rw (k, ext_loop) at h) e
    | inl k ↦
        let ((kind', off'), eh, h1) =
          bind_next (ext_header p cap end kind off t) (rw (k, ext_loop) at h) in
        let v = ext_header_next kind off eh in
        let rest = ext_loop_next n kind' off' h1 e in
        header n kind off v.size kind' proto l4 k v.not_fragment v.size_byte v.small v.large v.there
          v.inside v.next_byte (subst (λ o. Extended p cap end n kind' o proto l4) v.following rest)
  ]

-- what a step has read from an IPv6 header into the tuple
pub record Read (p : List ℕ) (cap end off : ℕ) (t : Tuple) (r : ℕ × ℕ × Tuple) : Type 0 where
  pub header : Ipv6
  pub on_wire : IsIpv6 p cap end off header
  pub result :
      r ≡ (header.l4, off + 40 + header.payload, addressed 6 header.proto header.src header.dst t)

module _ (p : List ℕ) (cap end off : ℕ) (t : Tuple) {r : ℕ × ℕ × Tuple} (octets : IsBytes p)
    (cap_word : cap < 2 ^ 32) (end_word : end < 2 ^ 32) where
  ipv6_fields_next :
      (low_nibble payload : ℕ)
      → Byte p off (96 + low_nibble)
      → low_nibble < 16
      → Word p (off + 4) payload
      → payload ≢ 0
      → off + 40 + payload ≤ end
      → off + 40 ≤ cap
      → ipv6_fields p cap (off + 40 + payload) off t ≡ next r
      → Read p cap end off t r
  unfolding ipv6_fields
  ipv6_fields_next low_nibble payload first nibble word some_payload fits c h =
      let (kind, ek, h1) = bind_next (byte p (add32 off 6)) h in
      let (src, es, h2) = bind_next (slice p (off + 8) 16) h1 in
      let (dst, ed, h3) = bind_next (slice p (off + 24) 16) h2 in
      let t' = record (addressed 6 0 src dst t) { l4_proto = t.l4_proto } in
      let ((proto, l4), ee, h4) =
        bind_next (ext_loop p cap 4 (off + 40 + payload) kind (add32 off 40) t') h3 in
      let (good, h5) =
        branch_next (es_ext proto || proto == 50) unsupported (addressed 6 proto src dst t) h4 in
      let kind_at : add32 off 6 ≡ off + 6 = omega arith in
      let start : add32 off 40 ≡ off + 40 = omega arith in
      let known : es_ext proto ≡ false = ground arith in
      record {
        header = record {
          low_nibble = low_nibble;
          payload = payload;
          kind = kind;
          proto = proto;
          l4 = l4;
          src = src;
          dst = dst;
        };
        on_wire = record {
          version_byte = first;
          nibble = nibble;
          payload_word = word;
          some_payload = some_payload;
          payload_in_packet = fits;
          there = c;
          kind_byte = byte_at p (off + 6) kind_at ek;
          src_bytes = slice_next p (off + 8) 16 es;
          dst_bytes = slice_next p (off + 24) 16 ed;
          extended =
              subst (λ o. Extended p cap (off + 40 + payload) 4 kind o proto l4) start
                (ext_loop_next p cap (off + 40 + payload) t' octets cap_word (omega arith) 4 kind
                  (add32 off 40) ee known);
          not_esp = ground arith;
        };
        result = sym (next-inj h5);
      }

  -- an IPv6 header that was parsed is on the wire
  pub parse_ipv6_next : parse_ipv6 p cap end off t ≡ next r → Read p cap end off t r
  unfolding parse_ipv6 ipv6_lengths
  parse_ipv6_next h =
      let (u, e, h1) = bind_next (check t (es_need off 40 cap end)) h in
      let (c, d) = es_need_next t off 40 cap end e cap_word end_word in
      let (first, ef, h2) = bind_next (byte p off) h1 in
      let (version, h3) = branch_next (not (first / 16 == 6)) malformed t h2 in
      let small : first < 256 = All-get_elem? (λ b. b < 256) p off octets (byte_next p off ef) in
      let (payload, et, h4) = bind_next (es_be16 p (off + 4)) h3 in
      let (full, h5) = branch_next (payload == 0) unsupported t h4 in
      let (room, h6) = branch_next (ltb (sub32 (sub32 end off) 40) payload) malformed t h5 in
      let fits : off + 40 + payload ≤ end = ground arith in
      let payload_end : add32 (add32 off 40) payload ≡ off + 40 + payload = omega arith in
      let split : first ≡ 96 + first % 16 = ground arith in
      ipv6_fields_next (first % 16) payload (subst (Byte p off) split (byte_next p off ef))
        (omega arith) (es_be16_next p (off + 4) et) (ground arith) fits c
        (subst (λ n. ipv6_fields p cap n off t ≡ next r) payload_end h6)
