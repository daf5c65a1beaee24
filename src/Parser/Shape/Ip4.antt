-- ===== src/Parser/Shape/Ip4.antt =====
-- ARP and IPv4 keep to the case analysis of the parent.
use elephant_shrew.Prelude.{
  ℕ, ◌+◌, ◌*◌, ◌/◌, ◌%◌, ◌≤◌, refl, inl, inr, not, ◌||◌, arith, add32, sub32, ltb, ◌==◌,
}
use elephant_shrew.Abi.{Tuple}
use elephant_shrew.Parser.{arp_addresses, parse_arp, ipv4_fields, ipv4_lengths, parse_ipv4}
use elephant_shrew.Parser.Ensures.{
  Ensures, goes, stops, Outcome, Ensures-bind, Ensures-if, Ensures-byte, Ensures-be16,
  Ensures-slice,
}
use elephant_shrew.Parser.Shape.{
  Window, linked, addressed, fragmented, Linked, Located, Q, need-Linked, Sized-readdress, set_addr,
  set_fragment,
}

module _ (w : Window) where
  open w use {bytes as p, octets, cap, original_len, fits, small, word}

  pub arp_addresses-Returned :
      (off : ℕ) (t : Tuple)
      → (off + 28 ≤ original_len) × (off + 28 ≤ cap)
      → Linked t
      → Ensures (Outcome (Q w)) (Q w) (arp_addresses p cap off t)
  unfolding arp_addresses
  arp_addresses-Returned off t h l =
      Ensures-bind _ (Ensures-slice p (off + 14) 4 (omega arith)) λ a ha.
        Ensures-bind _ (Ensures-slice p (off + 24) 4 (omega arith)) λ b hb. goes (
          Sized-readdress t a b 4 t.l4_proto _ l.0 (omega arith) (omega arith) (omega arith)
              (omega arith),
          addressed (inl refl) (set_addr l.1),
        )

  pub parse_arp-Returned :
      (off : ℕ) (t : Tuple)
      → Linked t
      → Ensures (Outcome (Q w)) (Q w) (parse_arp p cap original_len off t)
  unfolding parse_arp
  parse_arp-Returned off t l =
      Ensures-bind _ (need-Linked w off 28 original_len t (omega arith) l) λ _ h.
        Ensures-bind _ (Ensures-be16 p off octets (omega arith)) λ hw _.
          Ensures-bind _ (Ensures-be16 p (off + 2) octets (omega arith)) λ proto _.
            Ensures-bind _ (Ensures-byte p (add32 off 4) octets (omega arith)) λ hw_len _.
              Ensures-bind _ (Ensures-byte p (add32 off 5) octets (omega arith)) λ proto_len _.
                Ensures-if
                  (not (hw == 1)
                    || not (proto == 0x0800)
                    || not (hw_len == 6)
                    || not (proto_len == 4))
                  (λ _. stops (l.0, linked (inr (inl refl)) l.1))
                  λ _. arp_addresses-Returned off t h l

  pub ipv4_fields-Located :
      (end off : ℕ) (t : Tuple) (ihl : ℕ)
      → end ≤ original_len
      → 20 ≤ ihl
      → Linked t
      → Ensures (Located w) (Q w) (ipv4_fields p cap end off t ihl)
  unfolding ipv4_fields
  ipv4_fields-Located end off t ihl he hi l =
      Ensures-bind _ (need-Linked w off ihl end t he l) λ _ h.
        Ensures-bind _ (Ensures-byte p (add32 off 9) octets (omega arith)) λ proto hp.
          Ensures-bind _ (Ensures-slice p (off + 12) 4 (omega arith)) λ a ha.
            Ensures-bind _ (Ensures-slice p (off + 16) 4 (omega arith)) λ b hb.
              Ensures-bind _ (Ensures-be16 p (off + 6) octets (omega arith)) λ frag _.
                Ensures-if (not (frag % 0x4000 == 0))
                  (λ _. stops (
                    Sized-readdress t a b 4 proto _ l.0 (omega arith) hp (omega arith)
                        (omega arith),
                    fragmented refl (set_fragment (set_addr l.1)),
                  ))
                  (λ _. goes {a = (add32 off ihl, end, _)} (
                    omega arith,
                    he,
                    (
                      Sized-readdress t a b 4 proto _ l.0 (omega arith) hp (omega arith)
                          (omega arith),
                      set_addr l.1,
                    ),
                  ))

  pub ipv4_lengths-Located :
      (off : ℕ) (t : Tuple) (ihl : ℕ)
      → (off + 20 ≤ original_len) × (off + 20 ≤ cap)
      → Linked t
      → Ensures (Located w) (Q w) (ipv4_lengths p cap original_len off t ihl)
  unfolding ipv4_lengths
  ipv4_lengths-Located off t ihl h l =
      Ensures-bind _ (Ensures-be16 p (off + 2) octets (omega arith)) λ total _.
        Ensures-if (ltb ihl 20 || ltb total ihl || ltb (sub32 original_len off) total)
          (λ _. stops (l.0, linked (inl refl) l.1))
          λ sane. ipv4_fields-Located (add32 off total) off t ihl (ground arith) (ground arith) l

  pub parse_ipv4-Located :
      (off : ℕ) (t : Tuple)
      → Linked t
      → Ensures (Located w) (Q w) (parse_ipv4 p cap original_len off t)
  unfolding parse_ipv4
  parse_ipv4-Located off t l =
      Ensures-bind _ (need-Linked w off 20 original_len t (omega arith) l) λ _ h.
        Ensures-bind _ (Ensures-byte p off octets (omega arith)) λ first _.
          Ensures-if (not (first / 16 == 4)) (λ _. stops (l.0, linked (inl refl) l.1))
            λ _. ipv4_lengths-Located off t (first % 16 * 4) h l
