-- ===== src/Parser/Shape/Ip6.antt =====
-- IPv6 and its extension headers keep to the case analysis of the parent.
use elephant_shrew.Prelude.{
  ◌<◌, ℕ, zero, suc, ◌+◌, ◌*◌, ◌/◌, ◌≤◌, refl, inl, inr, not, ◌||◌, List, arith, add32, sub32, ltb,
  ◌==◌, if◌then◌else◌, set_flag,
}
use elephant_shrew.Abi.{Tuple, t_addr_valid}
use elephant_shrew.Parser.{
  es_ext, ext_fragment, ext_header, ext_loop, ipv6_fields, ipv6_lengths, parse_ipv6,
}
use elephant_shrew.Parser.Reader.{copy_into}
use elephant_shrew.Parser.Ensures.{
  Ensures, goes, stops, Ensures-bind, Ensures-if, Ensures-byte, Ensures-be16, Ensures-slice,
}
use elephant_shrew.Parser.Shape.{
  Window, Sized, linked, addressed, fragmented, Linked, Addressed, Located, Q, need-Linked,
  need-Addressed, Sized-readdress, Sized-proto, set_addr, set_fragment,
}

-- the tuple once the IPv6 addresses are in
abbrev addressed6 : Tuple → List ℕ → List ℕ → Tuple
addressed6 t a b = record t {
  src = copy_into a t.src;
  dst = copy_into b t.dst;
  ip_version = 6;
  flags = set_flag t.flags t_addr_valid;
}

module _ (w : Window) where
  open w use {bytes as p, octets, cap, original_len, fits, small, word}

  pub ext_header-bounded :
      (end nxt off : ℕ) (t : Tuple)
      → end ≤ original_len
      → Addressed t
      → Ensures (λ r. (r.0 < 256) × (r.1 ≤ end)) (Q w) (ext_header p cap end nxt off t)
  unfolding ext_header ext_fragment
  ext_header-bounded end nxt off t he l = Ensures-bind _ (need-Addressed w off 2 end t he l) λ _ h.
      Ensures-if (nxt == 44)
        (λ _. Ensures-bind _ (need-Addressed w off 8 end t he l) λ _ k.
          Ensures-bind _ (Ensures-byte p off octets (omega arith))
            λ proto hp. stops (Sized-proto proto _ l.0 hp, fragmented refl (set_fragment l.1)))
        λ _. Ensures-bind _ (Ensures-byte p (add32 off 1) octets (omega arith)) λ size _.
          let ext_len : ℕ = if nxt == 51 then add32 size 2 * 4 else add32 size 1 * 8 in
          Ensures-if (ltb ext_len 8) (λ _. stops (l.0, addressed (inr (inl refl)) l.1))
            λ _. Ensures-bind _ (need-Addressed w off ext_len end t he l) λ _ k.
              Ensures-bind _ (Ensures-byte p off octets (omega arith))
                λ nxt' hn. goes (hn, omega arith)

  pub ext_loop-bounded :
      (rounds end nxt off : ℕ) (t : Tuple)
      → end ≤ original_len
      → nxt < 256
      → off ≤ end
      → Addressed t
      → Ensures (λ r. (r.0 < 256) × (r.1 ≤ end)) (Q w) (ext_loop p cap rounds end nxt off t)
  unfolding ext_loop
  ext_loop-bounded zero end nxt off t he hn h l = goes (hn, h)
  ext_loop-bounded (suc rounds) end nxt off t he hn h l =
      Ensures-if (es_ext nxt)
        (λ _.
          Ensures-bind _ (ext_header-bounded end nxt off t he l)
            λ r k. ext_loop-bounded rounds end r.0 r.1 t he k.0 k.1 l)
        (λ _. goes (hn, h))

  pub ipv6_fields-Located :
      (end off : ℕ) (t : Tuple)
      → end ≤ original_len
      → off + 40 ≤ end
      → off + 40 ≤ cap
      → Linked t
      → Ensures (Located w) (Q w) (ipv6_fields p cap end off t)
  unfolding ipv6_fields
  ipv6_fields-Located end off t he h k l =
      Ensures-bind _ (Ensures-byte p (add32 off 6) octets (omega arith)) λ nxt hn.
        Ensures-bind _ (Ensures-slice p (off + 8) 16 (omega arith)) λ a ha.
          Ensures-bind _ (Ensures-slice p (off + 24) 16 (omega arith)) λ b hb.
            let z : Sized (addressed6 t a b) =
              Sized-readdress t a b 6 t.l4_proto _ l.0 (omega arith) (omega arith) (omega arith)
                (omega arith) in
            Ensures-bind _
              (ext_loop-bounded 4 end nxt (add32 off 40) (addressed6 t a b) he hn (omega arith)
                (z, set_addr l.1))
              λ r hr.
                Ensures-if (es_ext r.0 || r.0 == 50)
                  (λ _.
                    stops
                      (Sized-proto r.0 _ z hr.0, addressed (inr (inr (inl refl))) (set_addr l.1)))
                  (λ _.
                    goes {a = (r.1, end, _)}
                      (omega arith, he, (Sized-proto r.0 _ z hr.0, set_addr l.1)))

  pub ipv6_lengths-Located :
      (off : ℕ) (t : Tuple)
      → (off + 40 ≤ original_len) × (off + 40 ≤ cap)
      → Linked t
      → Ensures (Located w) (Q w) (ipv6_lengths p cap original_len off t)
  unfolding ipv6_lengths
  ipv6_lengths-Located off t h l =
      Ensures-bind _ (Ensures-be16 p (off + 4) octets (omega arith)) λ payload _.
        Ensures-if (payload == 0) (λ _. stops (l.0, linked (inr (inl refl)) l.1))
          λ _.
            Ensures-if (ltb (sub32 (sub32 original_len off) 40) payload)
              (λ _. stops (l.0, linked (inl refl) l.1))
              λ sane.
                ipv6_fields-Located (add32 (add32 off 40) payload) off t (ground arith)
                  (ground arith) h.1 l

  pub parse_ipv6-Located :
      (off : ℕ) (t : Tuple)
      → Linked t
      → Ensures (Located w) (Q w) (parse_ipv6 p cap original_len off t)
  unfolding parse_ipv6
  parse_ipv6-Located off t l =
      Ensures-bind _ (need-Linked w off 40 original_len t (omega arith) l) λ _ h.
        Ensures-bind _ (Ensures-byte p off octets (omega arith)) λ first _.
          Ensures-if (not (first / 16 == 6)) (λ _. stops (l.0, linked (inl refl) l.1))
            λ _. ipv6_lengths-Located off t h l
