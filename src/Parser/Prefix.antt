-- ===== src/Parser/Prefix.antt =====
-- More of the same packet: a longer prefix gives the same answer, but where the shorter one was
-- reported as truncated.
use elephant_shrew.Prelude.{
  ℕ, zero, suc, ◌+◌, ◌*◌, ◌/◌, ◌%◌, ◌^◌, ◌≤◌, ◌<◌, ◌≡◌, ◌≢◌, refl, ap, Bool, true, false, not, ◌||◌,
  List, [], ◌∷◌, ◌++◌, some, ◌⊎◌, inl, inr, arith, length, length-append, get_elem?, take, drop,
  add32, sub32, ltb, leb, ◌==◌, if◌then◌else◌, Bool-cases, Option-cases,
}
use elephant_shrew.Abi.{Tuple, ParseStatus, truncated, zero_tuple}
use elephant_shrew.Parser.{
  es_need, es_vlan, es_ext, vlan_tag, vlan_loop, arp_addresses, parse_arp, ipv4_fields,
  ipv4_lengths, parse_ipv4, ext_fragment, ext_header, ext_loop, ipv6_fields, ipv6_lengths,
  parse_ipv6, ports, parse_transport, parse_network, parse_frame, clip, es_parse,
}
use elephant_shrew.Parser.Reader.{
  Parsed, next, stop, fault, ◌>>=◌, check, byte, es_be16, slice, outcome,
}

-- the first computation says less than the second, or the same
data Agrees {A : Type 0} : Parsed A → Parsed A → Type 0 where
  same : {m : Parsed A} → Agrees m m
  short : {t : Tuple} {m : Parsed A} → Agrees (stop truncated t) m
  beyond : {m : Parsed A} → Agrees fault m

module _ {A B : Type 0} where
  Agrees-bind :
      {m n : Parsed A} {f g : A → Parsed B}
      → Agrees m n
      → ((a : A) → Agrees (f a) (g a))
      → Agrees (m >>= f) (n >>= g)
  unfolding ◌>>=◌
  Agrees-bind (same {m = next a}) k = k a
  Agrees-bind (same {m = stop s t}) k = same
  Agrees-bind (same {m = fault}) k = same
  Agrees-bind short k = short
  Agrees-bind beyond k = beyond

module _ {A : Type 0} where
  Agrees-if :
      (b : Bool) {m n m' n' : Parsed A}
      → Agrees m m'
      → Agrees n n'
      → Agrees (if b then m else n) (if b then m' else n')
  Agrees-if true h k = h
  Agrees-if false h k = k

get_elem?-append : (p q : List ℕ) (i b : ℕ) → get_elem? p i ≡ some b → get_elem? (p ++ q) i ≡ some b
get_elem?-append [] q i b e = cc
get_elem?-append (x ∷ p) q zero b e = e
get_elem?-append (x ∷ p) q (suc i) b e = get_elem?-append p q i b e

take-append : (n : ℕ) (p q : List ℕ) → n ≤ length p → take n (p ++ q) ≡ take n p
take-append zero p q h = refl
take-append (suc n) [] q h = absurd (omega arith)
take-append (suc n) (x ∷ p) q h = ap (◌∷◌ x) (take-append n p q (omega arith))

slice-append :
    (i n : ℕ) (p q : List ℕ) → i + n ≤ length p → take n (drop i (p ++ q)) ≡ take n (drop i p)
slice-append zero n p q h = take-append n p q (omega arith)
slice-append (suc i) n [] q h = absurd (omega arith)
slice-append (suc i) n (x ∷ p) q h = slice-append i n p q (omega arith)

module _ (p q : List ℕ) where
  Agrees-byte : (i : ℕ) → Agrees (byte p i) (byte (p ++ q) i)
  unfolding byte
  Agrees-byte i = elim (Option-cases (get_elem? p i)) [
    | inl e ↦ rw (e, byte) beyond
    | inr (b, e) ↦ rw (e, get_elem?-append p q i b e, byte) same
  ]

  Agrees-be16 : (i : ℕ) → Agrees (es_be16 p i) (es_be16 (p ++ q) i)
  unfolding es_be16
  Agrees-be16 i = Agrees-bind (Agrees-byte i) λ a. Agrees-bind (Agrees-byte (i + 1)) λ b. same

  Agrees-slice : (i n : ℕ) → Agrees (slice p i n) (slice (p ++ q) i n)
  unfolding slice
  Agrees-slice i n = elim (Bool-cases (leb (i + n) (length p))) [
    | inl e ↦
        let e' : leb (i + n) (length (p ++ q)) ≡ true = ground (arith, length-append p q) in
        rw (e, e', slice-append i n p q (ground arith)) same
    | inr e ↦ rw e beyond
  ]

es_need-longer :
    (off n cap cap' end : ℕ)
    → cap ≤ cap'
    → cap' < 2 ^ 32
    → (es_need off n cap end ≡ truncated) ⊎ (es_need off n cap end ≡ es_need off n cap' end)
unfolding es_need
es_need-longer off n cap cap' end h small = ground arith

module _ {cap cap' : ℕ} (h : cap ≤ cap') (small : cap' < 2 ^ 32) where
  Agrees-need :
      (off n end : ℕ) (t : Tuple)
      → Agrees (check t (es_need off n cap end)) (check t (es_need off n cap' end))
  unfolding check
  Agrees-need off n end t = elim (es_need-longer off n cap cap' end h small) [
    | inl e ↦ rw (e, check) short
    | inr e ↦ rw e same
  ]

module _ (p q : List ℕ) {cap cap' : ℕ} (h : cap ≤ cap') (small : cap' < 2 ^ 32) where
  abbrev need :
      (off n end : ℕ) (t : Tuple)
      → Agrees (check t (es_need off n cap end)) (check t (es_need off n cap' end))
  need = Agrees-need h small

  Agrees-vlan_loop :
      (rounds end type off : ℕ) (t : Tuple)
      → Agrees
          (vlan_loop p cap rounds end type off t)
          (vlan_loop (p ++ q) cap' rounds end type off t)
  unfolding vlan_loop vlan_tag
  Agrees-vlan_loop zero end type off t = same
  Agrees-vlan_loop (suc rounds) end type off t =
      Agrees-if (es_vlan type)
        (Agrees-bind
          (Agrees-if (leb 2 t.vlan_count) same (
            Agrees-bind (need off 4 end t) λ _.
              Agrees-bind (Agrees-be16 p q off) λ vid.
                Agrees-bind same λ t'. Agrees-bind (Agrees-be16 p q (off + 2)) λ type'. same))
          λ r. Agrees-vlan_loop rounds end r.0 r.1 r.2)
        same

  Agrees-arp :
      (end off : ℕ) (t : Tuple)
      → Agrees (parse_arp p cap end off t) (parse_arp (p ++ q) cap' end off t)
  unfolding parse_arp arp_addresses
  Agrees-arp end off t = Agrees-bind (need off 28 end t) λ _.
      Agrees-bind (Agrees-be16 p q off) λ hw. Agrees-bind (Agrees-be16 p q (off + 2)) λ proto.
        Agrees-bind (Agrees-byte p q (add32 off 4)) λ hw_len.
          Agrees-bind (Agrees-byte p q (add32 off 5)) λ proto_len.
            Agrees-if
              (not (hw == 1) || not (proto == 0x0800) || not (hw_len == 6) || not (proto_len == 4))
              same
              (Agrees-bind (Agrees-slice p q (off + 14) 4)
                λ a. Agrees-bind (Agrees-slice p q (off + 24) 4) λ b. same)

  Agrees-ipv4 :
      (end off : ℕ) (t : Tuple)
      → Agrees (parse_ipv4 p cap end off t) (parse_ipv4 (p ++ q) cap' end off t)
  unfolding parse_ipv4 ipv4_lengths ipv4_fields
  Agrees-ipv4 end off t = Agrees-bind (need off 20 end t) λ _.
      Agrees-bind (Agrees-byte p q off) λ first. Agrees-if (not (first / 16 == 4)) same (
        Agrees-bind (Agrees-be16 p q (off + 2)) λ total.
          Agrees-if
            (ltb (first % 16 * 4) 20 || ltb total (first % 16 * 4) || ltb (sub32 end off) total)
            same
            (Agrees-bind (need off (first % 16 * 4) (add32 off total) t) λ _.
              Agrees-bind (Agrees-byte p q (add32 off 9)) λ proto.
                Agrees-bind (Agrees-slice p q (off + 12) 4) λ a.
                  Agrees-bind (Agrees-slice p q (off + 16) 4)
                    λ b. Agrees-bind (Agrees-be16 p q (off + 6)) λ frag. same))

  Agrees-ext_header :
      (end nxt off : ℕ) (t : Tuple)
      → Agrees (ext_header p cap end nxt off t) (ext_header (p ++ q) cap' end nxt off t)
  unfolding ext_header ext_fragment
  Agrees-ext_header end nxt off t = Agrees-bind (need off 2 end t) λ _.
      Agrees-if (nxt == 44)
        (Agrees-bind (need off 8 end t) λ _. Agrees-bind (Agrees-byte p q off) λ proto. same)
        (Agrees-bind (Agrees-byte p q (add32 off 1)) λ size.
          Agrees-if (ltb (if nxt == 51 then add32 size 2 * 4 else add32 size 1 * 8) 8) same (
            Agrees-bind (need off (if nxt == 51 then add32 size 2 * 4 else add32 size 1 * 8) end t)
              λ _. Agrees-bind (Agrees-byte p q off) λ nxt'. same))

  Agrees-ext_loop :
      (rounds end nxt off : ℕ) (t : Tuple)
      → Agrees (ext_loop p cap rounds end nxt off t) (ext_loop (p ++ q) cap' rounds end nxt off t)
  unfolding ext_loop
  Agrees-ext_loop zero end nxt off t = same
  Agrees-ext_loop (suc rounds) end nxt off t =
      Agrees-if (es_ext nxt)
        (Agrees-bind (Agrees-ext_header end nxt off t) λ r. Agrees-ext_loop rounds end r.0 r.1 t)
        same

  Agrees-ipv6 :
      (end off : ℕ) (t : Tuple)
      → Agrees (parse_ipv6 p cap end off t) (parse_ipv6 (p ++ q) cap' end off t)
  unfolding parse_ipv6 ipv6_lengths ipv6_fields
  Agrees-ipv6 end off t = Agrees-bind (need off 40 end t) λ _.
      Agrees-bind (Agrees-byte p q off) λ first. Agrees-if (not (first / 16 == 6)) same (
        Agrees-bind (Agrees-be16 p q (off + 4)) λ payload. Agrees-if (payload == 0) same (
          Agrees-if (ltb (sub32 (sub32 end off) 40) payload) same (
            Agrees-bind (Agrees-byte p q (add32 off 6)) λ nxt.
              Agrees-bind (Agrees-slice p q (off + 8) 16) λ a.
                Agrees-bind (Agrees-slice p q (off + 24) 16)
                  λ b. Agrees-bind (Agrees-ext_loop 4 _ nxt (add32 off 40) _) λ r. same)))

  Agrees-transport :
      (l4 end : ℕ) (t : Tuple)
      → Agrees (parse_transport p cap l4 end t) (parse_transport (p ++ q) cap' l4 end t)
  unfolding parse_transport
  Agrees-transport l4 end t =
      Agrees-if (t.l4_proto == 6)
        (Agrees-bind
          (Agrees-bind (need l4 20 end t)
            λ _. Agrees-bind (Agrees-byte p q (add32 l4 12)) λ b. same)
          (λ _. both_ports))
        (Agrees-if (t.l4_proto == 17)
          (Agrees-bind
            (Agrees-bind (need l4 8 end t) λ _. Agrees-bind (Agrees-be16 p q (l4 + 4)) λ u. same)
            (λ _. both_ports))
          same)
    where
      both_ports : Agrees (ports p cap l4 t) (ports (p ++ q) cap' l4 t)
      both_ports =
          Agrees-bind (Agrees-slice p q l4 2)
            λ a. Agrees-bind (Agrees-slice p q (l4 + 2) 2) λ b. same

  Agrees-frame :
      (end : ℕ) (stripped : Bool) (vid : ℕ)
      → Agrees (parse_frame p cap end stripped vid) (parse_frame (p ++ q) cap' end stripped vid)
  unfolding parse_frame parse_network
  Agrees-frame end stripped vid = Agrees-bind (need 0 14 end zero_tuple) λ _.
      Agrees-bind (Agrees-be16 p q 12) λ type. Agrees-bind same λ t.
        Agrees-bind (Agrees-vlan_loop 2 end type 14 t)
          λ r. network r.0 r.1 (record r.2 { ethertype = r.0 })
    where
      network :
          (type off : ℕ) (t : Tuple)
          → Agrees (parse_network p cap end type off t) (parse_network (p ++ q) cap' end type off t)
      network type off t = Agrees-if (es_vlan type) same (
          Agrees-if (type == 0x0806) (Agrees-arp end off t) (
            Agrees-if (type == 0x0800)
              (Agrees-bind (Agrees-ipv4 end off t) λ r. Agrees-transport r.0 r.1 r.2)
              (Agrees-if (type == 0x86dd)
                (Agrees-bind (Agrees-ipv6 end off t) λ r. Agrees-transport r.0 r.1 r.2) same)))

Agrees-outcome :
    {m n : Parsed (ParseStatus × Tuple)} {s : ParseStatus} {t : Tuple}
    → Agrees m n
    → outcome m ≡ some (s, t)
    → s ≢ truncated
    → outcome n ≡ some (s, t)
unfolding outcome
Agrees-outcome same e ne = e
Agrees-outcome short e ne = absurd (ne cc)
Agrees-outcome beyond e ne = cc

clip_mono : (cap cap' n : ℕ) → cap ≤ cap' → clip cap n ≤ clip cap' n
clip_mono cap cap' n h = ground arith

-- A result that is not "truncated" is final: whatever bytes follow, and however many of them a
-- longer prefix takes in, the parser returns the same status and the same tuple.
pub es_parse_stable :
    (p q : List ℕ) (cap cap' original_len : ℕ) (stripped : Bool) (vid : ℕ) {s : ParseStatus}
    {t : Tuple}
    → cap ≤ cap'
    → es_parse p cap original_len stripped vid ≡ some (s, t)
    → s ≢ truncated
    → es_parse (p ++ q) cap' original_len stripped vid ≡ some (s, t)
unfolding es_parse
es_parse_stable p q cap cap' original_len stripped vid h e ne =
    Agrees-outcome
      (Agrees-frame p q (clip_mono cap cap' original_len h) (ground arith) original_len stripped
        vid)
      e ne
