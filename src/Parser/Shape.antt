-- ===== src/Parser/Shape.antt =====
-- What `es_parse` may return, as one case analysis that every stage of the parser keeps.
pub mod Ip4
pub mod Ip6
pub mod Frame
use elephant_shrew.Prelude.{
  ℕ, zero, suc, ◌+◌, ◌*◌, ◌/◌, ◌%◌, ◌^◌, ◌≤◌, ◌<◌, ◌≡◌, refl, ◌⊎◌, inl, inr, true, false, not, ◌||◌,
  List, ◌++◌, arith, length, length-append, length-drop, length-set, All, All-set, IsBytes, take,
  drop, add32, sub32, ltb, leb, ◌==◌, if◌then◌else◌, set, set_flag,
}
use elephant_shrew.Abi.{
  Tuple, zero_tuple, ParseStatus, parse_ok, truncated, unsupported, malformed, fragment,
  t_addr_valid, t_ports_valid, t_fragment,
}
use elephant_shrew.Parser.{
  es_need, es_vlan, es_ext, push_vlan, vlan_tag, vlan_loop, arp_addresses, parse_arp, ipv4_fields,
  ipv4_lengths, parse_ipv4, ext_fragment, ext_header, ext_loop, ipv6_fields, ipv6_lengths,
  parse_ipv6, tcp_header, udp_header, ports, parse_transport, parse_network, parse_frame,
}
use elephant_shrew.Parser.Reader.{Parsed, next, stop, copy_into, check}
use elephant_shrew.Parser.Ensures.{
  Ensures, goes, stops, Outcome, Ensures-bind, Ensures-if, Ensures-need, Ensures-byte, Ensures-be16,
  Ensures-slice,
}

-- The arrays keep their lengths, the other fields their widths, and at most two VLAN identifiers,
-- of twelve bits each, are recorded.
pub record Sized (t : Tuple) : Type 0 where
  pub src_size : length t.src ≡ 16
  pub dst_size : length t.dst ≡ 16
  pub sport_size : length t.sport ≡ 2
  pub dport_size : length t.dport ≡ 2
  pub vlan_size : length t.vlan ≡ 2
  pub vlan_room : t.vlan_count ≤ 2
  pub unreserved : t.reserved ≡ 0
  pub ethertype_word : t.ethertype < 2 ^ 16
  pub ip_version_byte : t.ip_version < 256
  pub l4_proto_byte : t.l4_proto < 256
  pub vlan_ids : All (λ v. v < 0x1000) t.vlan

abbrev pub IsTransport : ℕ → Type 0
IsTransport proto = (proto ≡ 6) ⊎ (proto ≡ 17)

module _ (p : List ℕ) (cap original_len : ℕ) where
  -- the three refusals; a missing prefix is reported only where the prefix is short
  abbrev pub Refused : ParseStatus → Type 0
  Refused s = (s ≡ malformed) ⊎ ((s ≡ unsupported) ⊎ ((s ≡ truncated) × (cap < original_len)))

  pub data Case (s : ParseStatus) (t : Tuple) : Type 0 where
    nothing : Refused s → t.flags ≡ 0 → Case s t
    linked : Refused s → t.flags ≡ 1 → Case s t
    addressed : (s ≡ parse_ok) ⊎ Refused s → t.flags ≡ 3 → Case s t
    fragmented : s ≡ fragment → t.flags ≡ 11 → Case s t
    ported :
        (l4 : ℕ)
        → s ≡ parse_ok
        → t.flags ≡ 7
        → l4 + 8 ≤ cap
        → IsTransport t.l4_proto
        → t.sport ≡ take 2 (drop l4 p)
        → t.dport ≡ take 2 (drop (l4 + 2) p)
        → Case s t

  abbrev pub Returned : ParseStatus → Tuple → Type 0
  Returned s t = Sized t × Case s t

abbrev pub Linked : Tuple → Type 0
Linked t = Sized t × (t.flags ≡ 1)

abbrev pub Addressed : Tuple → Type 0
Addressed t = Sized t × (t.flags ≡ 3)

pub length-copy_into :
    (bs dst : List ℕ) → length bs ≤ length dst → length (copy_into bs dst) ≡ length dst
length-copy_into bs dst h =
    omega (arith, length-append bs (drop (length bs) dst), length-drop (length bs) dst)

pub Sized-readdress :
    (t : Tuple) (a b : List ℕ) (version proto flags : ℕ)
    → Sized t
    → version < 256
    → proto < 256
    → length a ≤ 16
    → length b ≤ 16
    → Sized (record t {
      src = copy_into a t.src;
      dst = copy_into b t.dst;
      ip_version = version;
      l4_proto = proto;
      flags = flags;
    })
Sized-readdress t a b version proto flags z hv hp ha hb =
    ground (arith, length-copy_into a t.src, length-copy_into b t.dst)

pub Sized-proto :
    {t : Tuple} (proto flags : ℕ)
    → Sized t
    → proto < 256
    → Sized (record t { l4_proto = proto; flags = flags })
Sized-proto proto flags z h = ground arith

pub Sized-ethertype :
    {t : Tuple} (type : ℕ) → Sized t → type < 2 ^ 16 → Sized (record t { ethertype = type })
Sized-ethertype type z h = ground arith

Sized-vlan :
    (t : Tuple) (vid : ℕ)
    → Sized t
    → t.vlan_count < 2
    → Sized (record t {
      vlan = set t.vlan t.vlan_count (vid % 0x1000);
      vlan_count = (t.vlan_count + 1) % 256;
    })
Sized-vlan t vid z h = ground (
  arith,
  length-set t.vlan t.vlan_count (vid % 0x1000),
  All-set (λ v. v < 0x1000) t.vlan t.vlan_count (vid % 0x1000) z.vlan_ids (omega arith),
)

pub set_addr : {f : ℕ} → f ≡ 1 → set_flag f t_addr_valid ≡ 3
set_addr e = rw e

pub set_fragment : {f : ℕ} → f ≡ 3 → set_flag f t_fragment ≡ 11
set_fragment e = rw e

pub set_ports : {f : ℕ} → f ≡ 3 → set_flag f t_ports_valid ≡ 7
set_ports e = rw e

-- What the callers of `es_parse` provide: the prefix holds the bytes up to `cap`.
pub record Window : Type 0 where
  pub bytes : List ℕ
  pub cap : ℕ
  pub original_len : ℕ
  pub octets : IsBytes bytes
  pub fits : cap ≤ length bytes
  pub small : cap < 2 ^ 32
  pub word : original_len < 2 ^ 32

abbrev pub WReturned : Window → ParseStatus → Tuple → Type 0
WReturned w = Returned w.bytes w.cap w.original_len

module _ (w : Window) where
  open w use {bytes as p, octets, cap, original_len, fits, small, word}

  abbrev pub Q : ParseStatus → Tuple → Type 0
  Q = Returned p cap original_len

  pub need-Linked :
      (off n end : ℕ) (t : Tuple)
      → end ≤ original_len
      → Linked t
      → Ensures (λ _. (off + n ≤ end) × (off + n ≤ cap)) Q (check t (es_need off n cap end))
  need-Linked off n end t h (z, f) =
      Ensures-need off n cap end t small (omega arith) (z, linked (inl refl) f)
        (λ short. (z, linked (inr (inr (refl, omega arith))) f))

  pub need-Addressed :
      (off n end : ℕ) (t : Tuple)
      → end ≤ original_len
      → Addressed t
      → Ensures (λ _. (off + n ≤ end) × (off + n ≤ cap)) Q (check t (es_need off n cap end))
  need-Addressed off n end t h (z, f) =
      Ensures-need off n cap end t small (omega arith) (z, addressed (inr (inl refl)) f)
        (λ short. (z, addressed (inr (inr (inr (refl, omega arith)))) f))

  pub push_vlan-Linked :
      (t : Tuple) (vid : ℕ) → Linked t → t.vlan_count < 2 → Ensures Linked Q (push_vlan t vid)
  unfolding push_vlan
  push_vlan-Linked t vid (z, f) h =
      Ensures-if (ltb t.vlan_count 2) (λ _. goes (Sized-vlan t vid z h, f))
        (λ no. absurd (ground arith))

  pub vlan_tag-Linked :
      (off : ℕ) (t : Tuple)
      → Linked t
      → Ensures
          (λ r. (r.0 < 2 ^ 16) × (r.1 ≤ original_len) × Linked r.2)
          Q
          (vlan_tag p cap original_len off t)
  unfolding vlan_tag
  vlan_tag-Linked off t l =
      Ensures-if (leb 2 t.vlan_count) (λ _. stops (l.0, linked (inr (inl refl)) l.1))
        λ room. Ensures-bind _ (need-Linked off 4 original_len t (omega arith) l) λ _ h.
          Ensures-bind _ (Ensures-be16 p off octets (omega arith)) λ vid _.
            Ensures-bind _ (push_vlan-Linked t vid l (ground arith)) λ t' l'.
              Ensures-bind _ (Ensures-be16 p (off + 2) octets (omega arith))
                λ type ht. goes (ht, omega arith, l')

  pub vlan_loop-Linked :
      (rounds type off : ℕ) (t : Tuple)
      → type < 2 ^ 16
      → off ≤ original_len
      → Linked t
      → Ensures
          (λ r. (r.0 < 2 ^ 16) × (r.1 ≤ original_len) × Linked r.2)
          Q
          (vlan_loop p cap rounds original_len type off t)
  unfolding vlan_loop
  vlan_loop-Linked zero type off t ht h l = goes (ht, h, l)
  vlan_loop-Linked (suc rounds) type off t ht h l =
      Ensures-if (es_vlan type)
        (λ _.
          Ensures-bind _ (vlan_tag-Linked off t l)
            λ r k. vlan_loop-Linked rounds r.0 r.1 r.2 k.0 k.1 k.2)
        (λ _. goes (ht, h, l))

  -- the transport header's offset, the end of the packet and the tuple
  abbrev pub Located : ℕ × ℕ × Tuple → Type 0
  Located r = (r.0 < 2 ^ 32) × (r.1 ≤ original_len) × Addressed r.2
