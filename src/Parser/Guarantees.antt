-- ===== src/Parser/Guarantees.antt =====
-- What the callers of `es_parse` may rely on: no read past the prefix, and the shape of the tuple.
use mathlib.Core.Path.{subst}
use elephant_shrew.Prelude.{
  some_inj, IsBytes, ℕ, ◌+◌, ◌^◌, ◌≤◌, ◌<◌, ◌≡◌, refl, sym, ◌∙◌, ◌≢◌, ◌↔◌, Bool, true, false, List,
  some, arith, length, take, drop, has_flag,
}
use elephant_shrew.Abi.{
  Tuple, ParseStatus, parse_ok, truncated, fragment, skipped, t_l2_valid, t_addr_valid,
  t_ports_valid, t_fragment, parse_bytes,
}
use elephant_shrew.Parser.{es_parse, clip}
use elephant_shrew.Parser.Ensures.{Ensures-outcome}
use elephant_shrew.Parser.Shape.{
  Window, Sized, IsTransport, nothing, linked, addressed, fragmented, ported, WReturned,
}
use elephant_shrew.Parser.Shape.Frame.{parse_frame-Returned}

-- what `clip` leaves of the prefix
clip-le :
    (cap original_len : ℕ) → (clip cap original_len ≤ cap) × (clip cap original_len ≤ original_len)
clip-le cap original_len = ground arith

module _ (p : List ℕ) (cap original_len : ℕ) (stripped : Bool) (vid : ℕ) (octets : IsBytes p)
    (fits : clip cap original_len ≤ length p) (small : cap < 2 ^ 32)
    (word : original_len < 2 ^ 32) where
  abbrev window : Window
  window = record {
    bytes = p;
    cap = clip cap original_len;
    original_len = original_len;
    octets = octets;
    fits = fits;
    small = omega (arith, (clip-le cap original_len).0);
    word = word;
  }

  has_outcome :
      (s : ParseStatus) × (t : Tuple) × (es_parse p cap original_len stripped vid ≡ some (s, t))
      × WReturned window s t
  unfolding es_parse
  has_outcome = Ensures-outcome (parse_frame-Returned window stripped vid)

  -- Where `p` holds, in bytes, the prefix up to `cap` (cut to 128 bytes and to the packet), and both
  -- lengths are words of 32 bits, the parser
  -- returns a status and a tuple: it reads no byte of `p` past its end, and writes none past the
  -- arrays of the tuple.
  pub es_parse_total :
      (r : ParseStatus × Tuple) × (es_parse p cap original_len stripped vid ≡ some r)
  es_parse_total = let (s, t, e, _) = has_outcome in ((s, t), e)

  module _ {s : ParseStatus} {t : Tuple}
      (e : es_parse p cap original_len stripped vid ≡ some (s, t)) where
    returned : WReturned window s t
    returned =
        let (s', t', e', r) = has_outcome in
        subst (λ (o : ParseStatus × Tuple). WReturned window o.0 o.1) (some_inj (sym e' ∙ e)) r

    -- Where `p` holds the prefix as for `es_parse_total`: whatever the packet, the status is one of the five results of a parse, the arrays of the tuple
    -- keep their lengths, its other fields fit their widths, at most two VLAN identifiers of twelve
    -- bits are recorded, the reserved field stays 0 and no unknown flag is set.
    pub es_parse-Sized : Sized t × (t.flags < 16) × (s ≢ skipped)
    es_parse-Sized = elim returned.1 [
      | nothing r f ↦ (returned.0, omega arith, λ k. ground arith)
      | linked r f ↦ (returned.0, omega arith, λ k. ground arith)
      | addressed r f ↦ (returned.0, omega arith, λ k. ground arith)
      | fragmented r f ↦ (returned.0, omega arith, λ k. ground arith)
      | ported l4 r f _ _ _ _ ↦ (returned.0, omega arith, λ k. ground arith)
    ]

    -- Where `p` holds the prefix as for `es_parse_total`: a tuple whose ports are marked valid belongs to an unfragmented TCP or UDP packet that was
    -- parsed with success, and its ports are the four bytes at an offset `l4` that lies, with the
    -- eight bytes from there on, within the prefix.
    pub es_parse-ports :
        has_flag t.flags t_ports_valid ≡ true
        → (s ≡ parse_ok)
          × (has_flag t.flags t_addr_valid ≡ true)
          × (has_flag t.flags t_fragment ≡ false)
          × IsTransport t.l4_proto
          × ((l4 : ℕ) × (l4 + 8 ≤ clip cap original_len)
              × (t.sport ≡ take 2 (drop l4 p))
              × (t.dport ≡ take 2 (drop (l4 + 2) p)))
    es_parse-ports = elim returned.1 [
      | nothing r f ↦ λ h. absurd (ground arith)
      | linked r f ↦ λ h. absurd (ground arith)
      | addressed r f ↦ λ h. absurd (ground arith)
      | fragmented r f ↦ λ h. absurd (ground arith)
      | ported l4 r f k proto es ed ↦ λ h. (r, rw f refl, rw f refl, proto, (l4, k, es, ed))
    ]

    -- Where `p` holds the prefix as for `es_parse_total`, the status and the flags agree: a fragment is reported exactly when the fragment flag is set,
    -- and a success has both the link layer and the addresses valid.
    pub es_parse-flags :
        ((s ≡ fragment) ↔ (has_flag t.flags t_fragment ≡ true))
        × (s ≡ parse_ok
            → (has_flag t.flags t_l2_valid ≡ true) × (has_flag t.flags t_addr_valid ≡ true))
    es_parse-flags = elim returned.1 [
      | nothing r f ↦
          ((λ k. absurd (ground arith), λ k. absurd (ground arith)), λ k. absurd (ground arith))
      | linked r f ↦
          ((λ k. absurd (ground arith), λ k. absurd (ground arith)), λ k. absurd (ground arith))
      | addressed r f ↦
          ((λ k. absurd (ground arith), λ k. absurd (ground arith)), λ k. (rw f refl, rw f refl))
      | fragmented r f ↦ ((λ k. rw f refl, λ k. r), λ k. absurd (ground arith))
      | ported l4 r f _ _ _ _ ↦
          ((λ k. absurd (ground arith), λ k. absurd (ground arith)), λ k. (rw f refl, rw f refl))
    ]

    -- Where `p` holds the prefix as for `es_parse_total`: a missing prefix is never reported for a packet of at most 128 bytes that is there whole.
    pub es_parse_whole : original_len ≤ cap → original_len ≤ parse_bytes → s ≢ truncated
    es_parse_whole h k e =
        let whole : clip cap original_len ≡ original_len = ground arith in
        elim returned.1 [
          | nothing r f ↦ ground (arith, whole)
          | linked r f ↦ ground (arith, whole)
          | addressed r f ↦ ground (arith, whole)
          | fragmented r f ↦ ground (arith, whole)
          | ported l4 r f _ _ _ _ ↦ ground (arith, whole)
        ]
