-- ===== src/Parser/Sound/Transport.antt =====
-- `parse_transport` backwards: the TCP or UDP header, and the ports.
use elephant_shrew.Prelude.{
  ℕ, ◌+◌, ◌*◌, ◌/◌, ◌^◌, ◌<◌, ◌≡◌, ◌≢◌, ◌⊎◌, sym, inl, inr, ◌||◌, List, arith, add32, sub32, ltb,
  ◌==◌, Bool-cases,
}
use elephant_shrew.Abi.{Tuple, ParseStatus, parse_ok, malformed}
use elephant_shrew.Parser.{es_need, parse_transport, tcp_header, udp_header, ports}
use elephant_shrew.Parser.Reader.{next, check, byte, es_be16, slice}
use elephant_shrew.Parser.Wire.{Bytes}
use elephant_shrew.Parser.Wire.Transport.{IsSegment, tcp, udp, ported}
use elephant_shrew.Parser.Sound.{
  next-inj, bind_next, branch_next, es_need_next, byte_at, es_be16_next, slice_next,
}

-- the ports that a step has read into the tuple
pub record Ported (p : List ℕ) (l4 : ℕ) (t : Tuple) (r : ParseStatus × Tuple) : Type 0 where
  pub sport : List ℕ
  pub dport : List ℕ
  pub source : Bytes p l4 2 sport
  pub target : Bytes p (l4 + 2) 2 dport
  pub result : r ≡ (parse_ok, ported sport dport t)

module _ (p : List ℕ) (cap end l4 : ℕ) (t : Tuple) (cap_word : cap < 2 ^ 32)
    (end_word : end < 2 ^ 32) where
  ports_next : {r : ParseStatus × Tuple} → ports p cap l4 t ≡ next r → Ported p l4 t r
  unfolding ports
  ports_next h =
      let (sport, es, h1) = bind_next (slice p l4 2) h in
      let (dport, ed, h2) = bind_next (slice p (l4 + 2) 2) h1 in
      record {
        sport = sport;
        dport = dport;
        source = slice_next p l4 2 es;
        target = slice_next p (l4 + 2) 2 ed;
        result = sym (next-inj h2);
      }

  tcp_header_next :
      {u : Unit}
      → t.l4_proto ≡ 6
      → tcp_header p cap end l4 t ≡ next u
      → IsSegment p cap end l4 t.l4_proto
  unfolding tcp_header
  tcp_header_next kind h =
      let (u, e, h1) = bind_next (check t (es_need l4 20 cap end)) h in
      let (c, d) = es_need_next t l4 20 cap end e cap_word end_word in
      let (b, eb, h2) = bind_next (byte p (add32 l4 12)) h1 in
      let (fits, _) =
        branch_next (ltb (b / 16 * 4) 20 || ltb (sub32 end l4) (b / 16 * 4)) malformed t h2 in
      let at : add32 l4 12 ≡ l4 + 12 = omega arith in
      tcp b kind c (byte_at p (l4 + 12) at eb) (ground arith) (ground arith)

  udp_header_next :
      {u : Unit}
      → t.l4_proto ≡ 17
      → udp_header p cap end l4 t ≡ next u
      → IsSegment p cap end l4 t.l4_proto
  unfolding udp_header
  udp_header_next kind h =
      let (u, e, h1) = bind_next (check t (es_need l4 8 cap end)) h in
      let (c, d) = es_need_next t l4 8 cap end e cap_word end_word in
      let (size, es, h2) = bind_next (es_be16 p (l4 + 4)) h1 in
      let (fits, _) = branch_next (ltb size 8 || ltb (sub32 end l4) size) malformed t h2 in
      udp size kind c (es_be16_next p (l4 + 4) es) (ground arith) (ground arith)

  -- a transport header that was parsed is on the wire, and another payload is left alone
  pub parse_transport_next :
      {r : ParseStatus × Tuple}
      → parse_transport p cap l4 end t ≡ next r
      → (IsSegment p cap end l4 t.l4_proto × Ported p l4 t r)
        ⊎ ((t.l4_proto ≢ 6) × (t.l4_proto ≢ 17) × (r ≡ (parse_ok, t)))
  unfolding parse_transport
  parse_transport_next {r} h = elim (Bool-cases (t.l4_proto == 6)) [
    | inl e ↦
        let (u, e1, h1) = bind_next (tcp_header p cap end l4 t) (rw (e, parse_transport) at h) in
        inl (tcp_header_next (ground arith) e1, ports_next h1)
    | inr e ↦ elim (Bool-cases (t.l4_proto == 17)) [
      | inl e' ↦
          let (u, e1, h1) =
            bind_next (udp_header p cap end l4 t) (rw (e, e', parse_transport) at h) in
          inl (udp_header_next (ground arith) e1, ports_next h1)
      | inr e' ↦ inr (ground arith, ground arith, sym (next-inj (rw (e, e', parse_transport) at h)))
    ]
  ]
