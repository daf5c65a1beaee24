-- ===== src/Parser/Wire/Ip6.antt =====
-- An IPv6 header, with its extension headers, and what `parse_ipv6` takes from it.
use elephant_shrew.Prelude.{
  ℕ, zero, suc, ◌+◌, ◌*◌, ◌/◌, ◌^◌, ◌≤◌, ◌<◌, ◌≡◌, ◌≢◌, refl, true, false, List, arith, add32,
  sub32, ltb, ◌==◌, if◌then◌else◌,
}
use elephant_shrew.Abi.{Tuple}
use elephant_shrew.Parser.{es_ext, ext_header, ext_loop, parse_ipv6, ipv6_lengths, ipv6_fields}
use elephant_shrew.Parser.Reader.{next, ◌>>=◌}
use elephant_shrew.Parser.Wire.{
  Byte, Word, Bytes, byte-Byte, es_be16-Word, slice-Bytes, check-es_need,
}
use elephant_shrew.Parser.Wire.Ip4.{addressed}

-- the size of an extension header, from the byte after its first: that of an AH counts in words of four
abbrev pub ext_size : ℕ → ℕ → ℕ
ext_size kind n = if kind == 51 then (n + 2) * 4 else (n + 1) * 8

-- `n` extension headers at most, from the header of kind `kind` at `off`, none of them a fragment's, up to
-- the transport header at `l4`
pub data Extended (p : List ℕ) (cap end : ℕ) : ℕ → ℕ → ℕ → ℕ → ℕ → Type 0 where
  reached : (n kind off : ℕ) → es_ext kind ≡ false → Extended p cap end n kind off kind off
  header :
      (n kind off size kind' proto l4 : ℕ)
      → es_ext kind ≡ true
      → kind ≢ 44
      → Byte p (off + 1) size
      → size < 256
      → 8 ≤ ext_size kind size
      → off + ext_size kind size ≤ cap
      → off + ext_size kind size ≤ end
      → Byte p off kind'
      → Extended p cap end n kind' (off + ext_size kind size) proto l4
      → Extended p cap end (suc n) kind off proto l4

-- what the header says: the payload's length, the kind of what follows, the protocol after the
-- extension headers and its offset, and the addresses
pub record Ipv6 : Type 0 where
  pub low_nibble : ℕ
  pub payload : ℕ
  pub kind : ℕ
  pub proto : ℕ
  pub l4 : ℕ
  pub src : List ℕ
  pub dst : List ℕ

-- the header at `off`, with at most four extension headers
pub record IsIpv6 (p : List ℕ) (cap end off : ℕ) (h : Ipv6) : Type 0 where
  pub version_byte : Byte p off (96 + h.low_nibble)
  pub nibble : h.low_nibble < 16
  pub payload_word : Word p (off + 4) h.payload
  pub some_payload : h.payload ≢ 0
  pub payload_in_packet : off + 40 + h.payload ≤ end
  pub there : off + 40 ≤ cap
  pub kind_byte : Byte p (off + 6) h.kind
  pub src_bytes : Bytes p (off + 8) 16 h.src
  pub dst_bytes : Bytes p (off + 24) 16 h.dst
  pub extended : Extended p cap (off + 40 + h.payload) 4 h.kind (off + 40) h.proto h.l4
  pub not_esp : h.proto ≢ 50

module _ (p : List ℕ) (cap end : ℕ) (t : Tuple) (cap_word : cap < 2 ^ 32)
    (end_word : end < 2 ^ 32) where
  ext_header_lem :
      (kind off size kind' : ℕ)
      → kind ≢ 44
      → Byte p (off + 1) size
      → size < 256
      → 8 ≤ ext_size kind size
      → off + ext_size kind size ≤ cap
      → off + ext_size kind size ≤ end
      → Byte p off kind'
      → ext_header p cap end kind off t ≡ next (kind', off + ext_size kind size)
  unfolding ext_header ◌>>=◌
  ext_header_lem kind off size kind' k b small e c d b' =
      let start = check-es_need t off 2 cap end (omega arith) (omega arith) cap_word end_word in
      let plain : (kind == 44) ≡ false = ground arith in
      let second : add32 off 1 ≡ off + 1 = omega arith in
      let counted : (if kind == 51 then add32 size 2 * 4 else add32 size 1 * 8)
          ≡ ext_size kind size =
        ground arith in
      let large : ltb (ext_size kind size) 8 ≡ false = ground arith in
      let whole = check-es_need t off (ext_size kind size) cap end c d cap_word end_word in
      let following : add32 off (ext_size kind size) ≡ off + ext_size kind size = omega arith in
      rw (
        ext_header,
        start,
        plain,
        second,
        byte-Byte p (off + 1) size b,
        counted,
        large,
        whole,
        byte-Byte p off kind' b',
        following,
      )

  ext_loop-Extended :
      {n kind off proto l4 : ℕ}
      → Extended p cap end n kind off proto l4
      → (es_ext proto ≡ false) × (ext_loop p cap n end kind off t ≡ next (proto, l4))
  unfolding ext_loop ◌>>=◌
  ext_loop-Extended (reached zero kind off e) = (e, refl)
  ext_loop-Extended (reached (suc n) kind off e) = (e, rw (ext_loop, e))
  ext_loop-Extended (header n kind off size kind' proto l4 e k b small l c d b' x) =
      let (f, r) = ext_loop-Extended x in
      (f, rw (ext_loop, e, ext_header_lem kind off size kind' k b small l c d b', r))

module _ (p : List ℕ) (cap end off : ℕ) (t : Tuple) (h : Ipv6) (v : IsIpv6 p cap end off h)
    (cap_word : cap < 2 ^ 32) (end_word : end < 2 ^ 32) where
  ipv6_fields-IsIpv6 :
      ipv6_fields p cap (off + 40 + h.payload) off t
      ≡ next (h.l4, off + 40 + h.payload, addressed 6 h.proto h.src h.dst t)
  unfolding ipv6_fields ◌>>=◌
  ipv6_fields-IsIpv6 =
      let kind_at : add32 off 6 ≡ off + 6 = omega (arith, v.there) in
      let start : add32 off 40 ≡ off + 40 = omega (arith, v.there) in
      let (known, skipped) =
        ext_loop-Extended p cap (off + 40 + h.payload)
          (record (addressed 6 h.proto h.src h.dst t) { l4_proto = t.l4_proto }) cap_word
          (omega (arith, v.payload_in_packet)) v.extended in
      let plain : (h.proto == 50) ≡ false = ground (arith, v.not_esp) in
      rw (
        ipv6_fields,
        kind_at,
        byte-Byte p (off + 6) h.kind v.kind_byte,
        slice-Bytes p (off + 8) 16 h.src v.src_bytes,
        slice-Bytes p (off + 24) 16 h.dst v.dst_bytes,
        start,
        skipped,
        known,
        plain,
      )

  pub parse_ipv6-IsIpv6 :
      parse_ipv6 p cap end off t
      ≡ next (h.l4, off + 40 + h.payload, addressed 6 h.proto h.src h.dst t)
  unfolding parse_ipv6 ipv6_lengths ◌>>=◌
  parse_ipv6-IsIpv6 =
      let whole =
        check-es_need t off 40 cap end v.there (omega (arith, v.payload_in_packet)) cap_word
          end_word in
      let version : ((96 + h.low_nibble) / 16 == 6) ≡ true = ground (arith, v.nibble) in
      let full : (h.payload == 0) ≡ false = ground (arith, v.some_payload) in
      let fits : ltb (sub32 (sub32 end off) 40) h.payload ≡ false =
        ground (arith, v.payload_in_packet) in
      let payload_end : add32 (add32 off 40) h.payload ≡ off + 40 + h.payload =
        omega (arith, v.payload_in_packet) in
      rw (
        parse_ipv6,
        whole,
        byte-Byte p off (96 + h.low_nibble) v.version_byte,
        version,
        ipv6_lengths,
        es_be16-Word p (off + 4) h.payload v.payload_word,
        full,
        fits,
        payload_end,
        ipv6_fields-IsIpv6,
      )
