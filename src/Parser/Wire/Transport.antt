-- ===== src/Parser/Wire/Transport.antt =====
-- A TCP or UDP header, and what `parse_transport` takes from it.
use elephant_shrew.Prelude.{
  ℕ, ◌+◌, ◌*◌, ◌/◌, ◌^◌, ◌≤◌, ◌<◌, ◌≡◌, true, false, ◌||◌, List, arith, add32, sub32, ltb, ◌==◌,
  set_flag,
}
use elephant_shrew.Abi.{Tuple, parse_ok, t_ports_valid}
use elephant_shrew.Parser.{parse_transport, tcp_header, udp_header, ports}
use elephant_shrew.Parser.Reader.{next, copy_into, ◌>>=◌}
use elephant_shrew.Parser.Wire.{
  Byte, Word, Bytes, byte-Byte, es_be16-Word, slice-Bytes, check-es_need,
}

-- a header at `l4`, within the network packet that ends before `end`
pub data IsSegment (p : List ℕ) (cap end l4 proto : ℕ) : Type 0 where
  tcp :
      (first : ℕ)
      → proto ≡ 6
      → l4 + 20 ≤ cap
      → Byte p (l4 + 12) first
      → 20 ≤ first / 16 * 4
      → l4 + first / 16 * 4 ≤ end
      → IsSegment p cap end l4 proto
  udp :
      (size : ℕ)
      → proto ≡ 17
      → l4 + 8 ≤ cap
      → Word p (l4 + 4) size
      → 8 ≤ size
      → l4 + size ≤ end
      → IsSegment p cap end l4 proto

-- the tuple after the ports
abbrev pub ported : List ℕ → List ℕ → Tuple → Tuple
ported sport dport t = record t {
  sport = copy_into sport t.sport;
  dport = copy_into dport t.dport;
  flags = set_flag t.flags t_ports_valid;
}

module _ (p : List ℕ) (cap end l4 : ℕ) (t : Tuple) (sport dport : List ℕ)
    (source : Bytes p l4 2 sport) (target : Bytes p (l4 + 2) 2 dport) (cap_word : cap < 2 ^ 32)
    (end_word : end < 2 ^ 32) where
  ports-Bytes : ports p cap l4 t ≡ next (parse_ok, ported sport dport t)
  unfolding ports ◌>>=◌
  ports-Bytes = rw (slice-Bytes p l4 2 sport source, slice-Bytes p (l4 + 2) 2 dport target)

  pub parse_transport-IsSegment :
      IsSegment p cap end l4 t.l4_proto
      → parse_transport p cap l4 end t ≡ next (parse_ok, ported sport dport t)
  unfolding parse_transport tcp_header udp_header ◌>>=◌
  parse_transport-IsSegment (tcp first e c b large fits) =
      let kind : (t.l4_proto == 6) ≡ true = ground arith in
      let whole = check-es_need t l4 20 cap end c (omega arith) cap_word end_word in
      let at : add32 l4 12 ≡ l4 + 12 = omega arith in
      let good : (ltb (first / 16 * 4) 20 || ltb (sub32 end l4) (first / 16 * 4)) ≡ false =
        ground arith in
      rw (
        parse_transport,
        kind,
        tcp_header,
        whole,
        at,
        byte-Byte p (l4 + 12) first b,
        good,
        ports-Bytes,
      )
  parse_transport-IsSegment (udp size e c w large fits) =
      let other : (t.l4_proto == 6) ≡ false = ground arith in
      let kind : (t.l4_proto == 17) ≡ true = ground arith in
      let whole = check-es_need t l4 8 cap end c (omega arith) cap_word end_word in
      let good : (ltb size 8 || ltb (sub32 end l4) size) ≡ false = ground arith in
      rw (
        parse_transport,
        other,
        kind,
        udp_header,
        whole,
        es_be16-Word p (l4 + 4) size w,
        good,
        ports-Bytes,
      )
