-- ===== src/Parser/Sound/Network.antt =====
-- `parse_network` backwards: what follows the tags.
use mathlib.Core.Path.{subst}
use elephant_shrew.Prelude.{
  ℕ, ◌+◌, ◌^◌, ◌<◌, ◌≡◌, refl, sym, ap, ◌∙◌, inl, inr, List, arith, IsBytes, ◌==◌, Bool-cases,
  add32, not, ◌||◌,
}
use elephant_shrew.Abi.{Tuple, ParseStatus, parse_ok, unsupported}
use elephant_shrew.Parser.{
  es_need, es_vlan, arp_addresses, parse_arp, parse_ipv4, parse_ipv6, parse_transport,
  parse_network,
}
use elephant_shrew.Parser.Reader.{next, check, byte, es_be16, slice}
use elephant_shrew.Parser.Wire.{Byte, Word}
use elephant_shrew.Parser.Wire.Header
use elephant_shrew.Parser.Wire.Header.{Network, ip4, ip6, IsNetwork, with_network, packet_end_le}
use elephant_shrew.Parser.Wire.Layer.{Layer, segment, payload, arp, type_of, IsLayer, layered}
use elephant_shrew.Parser.Sound.{
  next-inj, stopped, bind_next, branch_next, es_need_next, byte_at, es_be16_next, slice_next,
}
use elephant_shrew.Parser.Sound.Transport.{parse_transport_next}
use elephant_shrew.Parser.Sound.Ip4.{parse_ipv4_next}
use elephant_shrew.Parser.Sound.Ip6.{parse_ipv6_next}

-- what a step has read after the tags
pub record Read (p : List ℕ) (cap end type off : ℕ) (t : Tuple) (r : ParseStatus × Tuple)
    : Type 0 where
  pub layer : Layer
  pub on_wire : IsLayer p cap end off layer
  pub ethertype : type ≡ type_of layer
  pub result : r ≡ (parse_ok, layered layer t)

module _ (p : List ℕ) (cap end off : ℕ) (t : Tuple) (octets : IsBytes p) (cap_word : cap < 2 ^ 32)
    (end_word : end < 2 ^ 32) {r : ParseStatus × Tuple} where
  parse_arp_next : parse_arp p cap end off t ≡ next r → Read p cap end 0x0806 off t r
  unfolding parse_arp arp_addresses
  parse_arp_next h =
      let (u, e, h1) = bind_next (check t (es_need off 28 cap end)) h in
      let (c, d) = es_need_next t off 28 cap end e cap_word end_word in
      let (hw, e1, h2) = bind_next (es_be16 p off) h1 in
      let (proto, e2, h3) = bind_next (es_be16 p (off + 2)) h2 in
      let (hw_len, e3, h4) = bind_next (byte p (add32 off 4)) h3 in
      let (proto_len, e4, h5) = bind_next (byte p (add32 off 5)) h4 in
      let (known, h6) =
        branch_next
          (not (hw == 1) || not (proto == 0x0800) || not (hw_len == 6) || not (proto_len == 4))
          unsupported t h5 in
      let (sender, e5, h7) = bind_next (slice p (off + 14) 4) h6 in
      let (target, e6, h8) = bind_next (slice p (off + 24) 4) h7 in
      let fourth : add32 off 4 ≡ off + 4 = omega arith in
      let fifth : add32 off 5 ≡ off + 5 = omega arith in
      record {
        layer = arp sender target;
        on_wire = record {
          there = c;
          inside = d;
          hardware = subst (Word p off) (ground arith) (es_be16_next p off e1);
          protocol = subst (Word p (off + 2)) (ground arith) (es_be16_next p (off + 2) e2);
          hardware_size = subst (Byte p (off + 4)) (ground arith) (byte_at p (off + 4) fourth e3);
          protocol_size = subst (Byte p (off + 5)) (ground arith) (byte_at p (off + 5) fifth e4);
          sender_bytes = slice_next p (off + 14) 4 e5;
          target_bytes = slice_next p (off + 24) 4 e6;
        };
        ethertype = refl;
        result = sym (next-inj h8);
      }

  transport_next :
      (type : ℕ) (n : Network) (l4 packet_end : ℕ) (t' : Tuple)
      → IsNetwork p cap end off n
      → type ≡ Header.ethertype n
      → ◌≡◌ {A = ℕ × ℕ × Tuple}
          (l4, packet_end, t')
          (Header.l4 off n, Header.packet_end off n, with_network n t)
      → parse_transport p cap l4 packet_end t' ≡ next r
      → Read p cap end type off t r
  transport_next type n l4 packet_end t' v e same h =
      let f = λ (x : ℕ × ℕ × Tuple). parse_transport p cap x.0 x.1 x.2 in
      elim (parse_transport_next p cap (Header.packet_end off n) (Header.l4 off n)
        (with_network n t) cap_word (packet_end_le p cap end off cap_word end_word n v)
        (sym (ap f same) ∙ h)) [
          | inl (header, ported) ↦ record {
            layer = segment n ported.sport ported.dport;
            on_wire = record {
              network = v;
              header = header;
              source = ported.source;
              target = ported.target;
            };
            ethertype = e;
            result = ported.result;
          }
          | inr (a, b, left) ↦ record {
            layer = payload n;
            on_wire = (v, a, b);
            ethertype = e;
            result = left;
          }
        ]

  pub parse_network_next :
      (type : ℕ) → parse_network p cap end type off t ≡ next r → Read p cap end type off t r
  unfolding parse_network
  parse_network_next type h =
      let (plain, h1) = branch_next (es_vlan type) unsupported t h in
      elim (Bool-cases (type == 0x0806)) [
        | inl e ↦
            subst (λ type. Read p cap end type off t r) (ground arith) (parse_arp_next (rw e at h1))
        | inr e ↦ elim (Bool-cases (type == 0x0800)) [
          | inl e4 ↦
              let ((l4, packet_end, t'), ep, h2) =
                bind_next (parse_ipv4 p cap end off t) (rw (e, e4) at h1) in
              let v = parse_ipv4_next p cap end off t octets cap_word end_word ep in
              transport_next type (ip4 v.header) l4 packet_end t' v.on_wire (ground arith) v.result
                h2
          | inr e4 ↦ elim (Bool-cases (type == 0x86dd)) [
            | inl e6 ↦
                let ((l4, packet_end, t'), ep, h2) =
                  bind_next (parse_ipv6 p cap end off t) (rw (e, e4, e6) at h1) in
                let v = parse_ipv6_next p cap end off t octets cap_word end_word ep in
                transport_next type (ip6 v.header) l4 packet_end t' v.on_wire (ground arith)
                  v.result h2
            | inr e6 ↦ absurd (stopped (rw (e, e4, e6) at h1))
          ]
        ]
      ]
