-- ===== src/Parser/Shape/Frame.antt =====
-- Every outcome of `es_parse` falls under the case analysis of the parent.
use mathlib.Core.List.{append-nil}
use elephant_shrew.Prelude.{
  ap, ◌∙◌, [], ◌∷◌, ℕ, ◌+◌, ◌*◌, ◌/◌, ◌≤◌, ◌≡◌, refl, inl, inr, Bool, ◌||◌, List, arith, length,
  drop, add32, sub32, ltb, ◌==◌,
}
use elephant_shrew.Abi.{Tuple, zero_tuple, parse_ok}
use elephant_shrew.Parser.{es_vlan, ports, parse_transport, parse_network, parse_frame}
use elephant_shrew.Parser.Reader.{copy_into}
use elephant_shrew.Parser.Ensures.{
  Ensures, goes, stops, Outcome, Ensures-bind, Ensures-if, Ensures-need, Ensures-byte, Ensures-be16,
  Ensures-slice,
}
use elephant_shrew.Parser.Shape.{
  Sized-ethertype, Window, Sized, IsTransport, nothing, linked, addressed, ported, Linked,
  Addressed, Q, need-Addressed, set_ports, vlan_loop-Linked, push_vlan-Linked,
}
use elephant_shrew.Parser.Shape.Ip4.{parse_arp-Returned, parse_ipv4-Located}
use elephant_shrew.Parser.Shape.Ip6.{parse_ipv6-Located}

drop-full : (xs : List ℕ) → drop (length xs) xs ≡ []
drop-full [] = refl
drop-full (x ∷ xs) = drop-full xs

copy_into-full : (bs dst : List ℕ) → length bs ≡ length dst → copy_into bs dst ≡ bs
copy_into-full bs dst e = rw (e, drop-full, append-nil)

zero_tuple-Sized : Sized zero_tuple
zero_tuple-Sized = ground arith

start : Linked (record zero_tuple { flags = 1 })
start = (ground arith, refl)

module _ (w : Window) where
  open w use {bytes as p, octets, cap, original_len, fits, small, word}

  -- past the header checks both transports hand over two ports
  ports-Returned :
      (l4 : ℕ) (t : Tuple)
      → Addressed t
      → IsTransport t.l4_proto
      → l4 + 8 ≤ cap
      → Ensures (Outcome (Q w)) (Q w) (ports p cap l4 t)
  unfolding ports
  ports-Returned l4 t (z, f) proto h = Ensures-bind _ (Ensures-slice p l4 2 (omega arith)) λ a ha.
      Ensures-bind _ (Ensures-slice p (l4 + 2) 2 (omega arith)) λ b hb.
        let ea = copy_into-full a t.sport (omega arith) in
        let eb = copy_into-full b t.dport (omega arith) in
        goes (
          ground (arith, ap length ea, ap length eb),
          ported l4 refl (set_ports f) h proto (ea ∙ ha.0) (eb ∙ hb.0),
        )

  pub parse_transport-Returned :
      (l4 end : ℕ) (t : Tuple)
      → end ≤ original_len
      → Addressed t
      → Ensures (Outcome (Q w)) (Q w) (parse_transport p cap l4 end t)
  unfolding parse_transport
  parse_transport-Returned l4 end t he l =
      Ensures-if (t.l4_proto == 6)
        (λ tcp.
          Ensures-bind {P = λ _. l4 + 8 ≤ cap} _
            (Ensures-bind _ (need-Addressed w l4 20 end t he l) λ _ h.
              Ensures-bind _ (Ensures-byte p (add32 l4 12) octets (omega arith)) λ b _.
                Ensures-if (ltb (b / 16 * 4) 20 || ltb (sub32 end l4) (b / 16 * 4))
                  (λ _. stops (l.0, addressed (inr (inl refl)) l.1)) (λ _. goes (omega arith)))
            λ _ h. ports-Returned l4 t l (inl (ground arith)) h)
        λ _.
          Ensures-if (t.l4_proto == 17)
            (λ udp.
              Ensures-bind {P = λ _. l4 + 8 ≤ cap} _
                (Ensures-bind _ (need-Addressed w l4 8 end t he l) λ _ h.
                  Ensures-bind _ (Ensures-be16 p (l4 + 4) octets (omega arith)) λ ulen _.
                    Ensures-if (ltb ulen 8 || ltb (sub32 end l4) ulen)
                      (λ _. stops (l.0, addressed (inr (inl refl)) l.1)) (λ _. goes (omega arith)))
                λ _ h. ports-Returned l4 t l (inr (ground arith)) h)
            (λ _. goes {a = (parse_ok, t)} (l.0, addressed (inl refl) l.1))

  pub parse_network-Returned :
      (type off : ℕ) (t : Tuple)
      → Linked t
      → Ensures (Outcome (Q w)) (Q w) (parse_network p cap original_len type off t)
  unfolding parse_network
  parse_network-Returned type off t l =
      Ensures-if (es_vlan type) (λ _. stops (l.0, linked (inr (inl refl)) l.1))
        λ _.
          Ensures-if (type == 0x0806) (λ _. parse_arp-Returned w off t l)
            λ _.
              Ensures-if (type == 0x0800)
                (λ _.
                  Ensures-bind _ (parse_ipv4-Located w off t l)
                    λ r h. parse_transport-Returned r.0 r.1 r.2 h.1 h.2)
                λ _.
                  Ensures-if (type == 0x86dd)
                    (λ _.
                      Ensures-bind _ (parse_ipv6-Located w off t l)
                        λ r h. parse_transport-Returned r.0 r.1 r.2 h.1 h.2)
                    (λ _. stops (l.0, linked (inr (inl refl)) l.1))

  pub parse_frame-Returned :
      (stripped_vlan : Bool) (stripped_vid : ℕ)
      → Ensures (Outcome (Q w)) (Q w) (parse_frame p cap original_len stripped_vlan stripped_vid)
  unfolding parse_frame
  parse_frame-Returned stripped vid =
      Ensures-bind _
        (Ensures-need 0 14 cap original_len zero_tuple small word
          (zero_tuple-Sized, nothing (inl refl) refl)
          (λ short. (zero_tuple-Sized, nothing (inr (inr (refl, short))) refl)))
        λ _ h. Ensures-bind _ (Ensures-be16 p 12 octets (omega arith)) λ type ht.
          Ensures-bind _
            (Ensures-if stripped
              (λ _. push_vlan-Linked w (record zero_tuple { flags = 1 }) vid start (omega arith))
              (λ _. goes start))
            λ t l. Ensures-bind _ (vlan_loop-Linked w 2 type 14 t ht (omega arith) l) λ r k.
              parse_network-Returned r.0 r.1 (record r.2 { ethertype = r.0 })
                (Sized-ethertype r.0 k.2.0 k.0, k.2.1)
