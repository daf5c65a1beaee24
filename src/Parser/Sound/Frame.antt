-- ===== src/Parser/Sound/Frame.antt =====
-- A frame that was parsed, read off the wire.
use mathlib.Core.Path.{subst}
use elephant_shrew.Prelude.{
  ℕ, ◌+◌, ◌^◌, ◌≤◌, ◌<◌, ◌≡◌, sym, ap, ◌∙◌, Bool, true, false, List, ◌++◌, none, some, arith,
  length, length-append, IsBytes, if◌then◌else◌, some_inj, ◌↔◌,
}
use elephant_shrew.Abi.{Tuple, zero_tuple, ParseStatus, parse_ok, unsupported}
use elephant_shrew.Parser.{
  es_need, es_vlan, push_vlan, vlan_loop, parse_network, parse_frame, clip, es_parse,
}
use elephant_shrew.Parser.Reader.{Parsed, next, check, es_be16, outcome}
use elephant_shrew.Parser.Wire.{Word}
use elephant_shrew.Parser.Sound.Network.{parse_network_next}
use elephant_shrew.Parser.Wire.Tagged.{Tagged}
use elephant_shrew.Parser.Wire.Layer.{layered}
use elephant_shrew.Parser.Wire.Frame.{
  Frame, IsFrame, stripped_vids, tuple_of, bare, layered-tagged, stripped_lem, clip_small,
  es_parse-IsFrame,
}
use elephant_shrew.Parser.Sound.{next-inj, bind_next, branch_next, es_need_next, es_be16_next}
use elephant_shrew.Parser.Sound.Honest.{Honest, goes, stops, faults, parse_frame-Honest}
use elephant_shrew.Parser.Sound.Tagged
use elephant_shrew.Parser.Sound.Tagged.{vlan_loop_next}

stripped_few : (stripped : Bool) (vid : ℕ) → length (stripped_vids stripped vid) ≤ 2
stripped_few true vid = omega arith
stripped_few false vid = omega arith

module _ (p : List ℕ) (cap len : ℕ) (stripped : Bool) (vid : ℕ) (octets : IsBytes p)
    (cap_word : cap < 2 ^ 32) (len_word : len < 2 ^ 32) {r : ParseStatus × Tuple} where
  network_plain :
      (type off : ℕ) (t : Tuple)
      → parse_network p cap len type off t ≡ next r
      → es_vlan type ≡ false
  unfolding parse_network
  network_plain type off t h = (branch_next (es_vlan type) unsupported t h).0

  -- from the tag loop on
  after_tags :
      (first_type type off : ℕ) (t : Tuple)
      → 14 ≤ cap
      → 14 ≤ len
      → Word p 12 first_type
      → Tagged.Read p cap len 2 first_type 14 (stripped_vids stripped vid) bare (type, off, t)
      → parse_network p cap len type off (record t { ethertype = type }) ≡ next r
      → (f : Frame) × IsFrame p cap len f
        × (length (stripped_vids stripped vid) + length f.vids ≤ 2)
        × (r ≡ (parse_ok, tuple_of (stripped_vids stripped vid) f))
  after_tags first_type type off t c d first tags h =
      let v =
        parse_network_next p cap len off (record t { ethertype = type }) octets cap_word len_word
          type h in
      let ids = stripped_vids stripped vid ++ tags.vids in
      let result = λ (type : ℕ) (t : Tuple). layered v.layer (record t { ethertype = type }) in
      (
        record { vids = tags.vids; layer = v.layer },
        record {
          ethernet = c;
          ethernet_in_frame = d;
          first_type = first_type;
          first_word = first;
          off = off;
          tags =
              subst (λ type. Tagged p cap len 2 first_type 14 tags.vids type off) v.ethertype
                tags.tags;
          content = v.on_wire;
        },
        omega (arith, tags.few, length-append (stripped_vids stripped vid) tags.vids),
        v.result
            ∙ ((λ i. (parse_ok, result (v.ethertype i) (tags.result i)))
                ∙ ap (λ t. (parse_ok, t)) (layered-tagged ids v.layer)),
      )

  parse_frame_next :
      parse_frame p cap len stripped vid ≡ next r
      → (f : Frame) × IsFrame p cap len f
        × (length (stripped_vids stripped vid) + length f.vids ≤ 2)
        × (r ≡ (parse_ok, tuple_of (stripped_vids stripped vid) f))
  unfolding parse_frame
  parse_frame_next h =
      let (u, e, h1) = bind_next (check zero_tuple (es_need 0 14 cap len)) h in
      let (c, d) = es_need_next zero_tuple 0 14 cap len e cap_word len_word in
      let (first_type, ef, h2) = bind_next (es_be16 p 12) h1 in
      let (t', ep, h3) = bind_next (if stripped then push_vlan bare vid else next bare) h2 in
      let pushed = next-inj (sym (stripped_lem stripped vid) ∙ ep) in
      let ((type, off, t), el, h4) = bind_next (vlan_loop p cap 2 len first_type 14 t') h3 in
      let looped = ap (vlan_loop p cap 2 len first_type 14) pushed ∙ el in
      let plain = network_plain type off (record t { ethertype = type }) h4 in
      let tags =
        vlan_loop_next p cap len bare cap_word len_word 2 first_type 14 (stripped_vids stripped vid)
          (stripped_few stripped vid) looped plain in
      after_tags first_type type off t c d (es_be16_next p 12 ef) tags h4

outcome_next :
    {m : Parsed (ParseStatus × Tuple)} {t : Tuple}
    → Honest m
    → outcome m ≡ some (parse_ok, t)
    → m ≡ next (parse_ok, t)
unfolding outcome
outcome_next (goes a) h = ap next (some_inj h)
outcome_next (stops s t bad) h = absurd (bad (ap (λ (r : ParseStatus × Tuple). r.0) (some_inj h)))
outcome_next faults h = absurd (none-some h)
  where
    none-some : {r : ParseStatus × Tuple} → none ≡ some r → ⊥
    none-some e = cc

-- The parser succeeds with the tuple `t` exactly when the captured bytes hold the headers of a frame of ARP, or of IPv4
-- or IPv6 with a TCP or UDP segment or another payload, behind at most two VLAN tags, the one that the network card
-- has stripped included, and `t` has just the fields that are on the wire. Premises: the prefix is of bytes, and the
-- packet's length is a word of 32 bits.
pub es_parse_iff :
    (p : List ℕ) (cap len : ℕ) (stripped : Bool) (vid : ℕ) (t : Tuple)
    → IsBytes p
    → len < 2 ^ 32
    → (es_parse p cap len stripped vid ≡ some (parse_ok, t)) ↔ (
        (f : Frame) × IsFrame p (clip cap len) len f
        × (length (stripped_vids stripped vid) + length f.vids ≤ 2)
        × (t ≡ tuple_of (stripped_vids stripped vid) f))
unfolding es_parse
es_parse_iff p cap len stripped vid t octets word = (
  λ h.
      let parsed = outcome_next (parse_frame-Honest p (clip cap len) len stripped vid) h in
      let (f, v, few, same) =
        parse_frame_next p (clip cap len) len stripped vid octets (clip_small cap len) word
          parsed in
      (f, v, few, ap (λ (r : ParseStatus × Tuple). r.1) same),
  λ (f, v, few, same).
      es_parse-IsFrame p cap len stripped vid f v few word
      ∙ ap (λ t. some (parse_ok, t)) (sym same),
)
