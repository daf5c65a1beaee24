-- ===== src/Parser/Sound/Honest.antt =====
-- An early return is never one with `ES_PARSE_OK`.
use elephant_shrew.Prelude.{
  ℕ, zero, suc, ◌+◌, ◌*◌, ◌/◌, ◌%◌, ◌≢◌, Bool, true, false, not, ◌||◌, List, none, some, get_elem?,
  length, add32, sub32, ltb, leb, ◌==◌, if◌then◌else◌,
}
use elephant_shrew.Abi.{
  Tuple, ParseStatus, parse_ok, truncated, unsupported, malformed, fragment, skipped, zero_tuple,
}
use elephant_shrew.Parser.{
  es_vlan, es_ext, push_vlan, vlan_tag, vlan_loop, arp_addresses, parse_arp, ipv4_fields,
  ipv4_lengths, parse_ipv4, ext_fragment, ext_header, ext_loop, ipv6_fields, ipv6_lengths,
  parse_ipv6, tcp_header, udp_header, ports, parse_transport, parse_network, parse_frame,
}
use elephant_shrew.Parser.Reader.{Parsed, next, stop, fault, ◌>>=◌, check, byte, es_be16, slice}

pub data Honest {A : Type 0} : Parsed A → Type 0 where
  goes : (a : A) → Honest (next a)
  stops : (s : ParseStatus) (t : Tuple) → s ≢ parse_ok → Honest (stop s t)
  faults : Honest fault

module _ {A B : Type 0} where
  bind_lem :
      {m : Parsed A} (f : A → Parsed B) → Honest m → ((a : A) → Honest (f a)) → Honest (m >>= f)
  unfolding ◌>>=◌
  bind_lem f (goes a) k = k a
  bind_lem f (stops s t h) k = stops s t h
  bind_lem f faults k = faults

module _ {A : Type 0} where
  if_lem : (b : Bool) {m n : Parsed A} → Honest m → Honest n → Honest (if b then m else n)
  if_lem true h k = h
  if_lem false h k = k

  unsupported_lem : (t : Tuple) → Honest {A = A} (stop unsupported t)
  unsupported_lem t = stops unsupported t λ h. cc

  malformed_lem : (t : Tuple) → Honest {A = A} (stop malformed t)
  malformed_lem t = stops malformed t λ h. cc

  fragment_lem : (t : Tuple) → Honest {A = A} (stop fragment t)
  fragment_lem t = stops fragment t λ h. cc

check_lem : (t : Tuple) (s : ParseStatus) → Honest (check t s)
unfolding check
check_lem t parse_ok = goes tt
check_lem t truncated = stops truncated t λ h. cc
check_lem t unsupported = stops unsupported t λ h. cc
check_lem t malformed = stops malformed t λ h. cc
check_lem t fragment = stops fragment t λ h. cc
check_lem t skipped = stops skipped t λ h. cc

module _ (p : List ℕ) where
  byte_lem : (i : ℕ) → Honest (byte p i)
  unfolding byte
  byte_lem i = elim (get_elem? p i) as (λ o. Honest (elim o [ none ↦ fault | some b ↦ next b ])) [
    | none ↦ faults
    | some b ↦ goes b
  ]

  es_be16_lem : (i : ℕ) → Honest (es_be16 p i)
  unfolding es_be16
  es_be16_lem i = bind_lem _ (byte_lem i) λ a. bind_lem _ (byte_lem (i + 1)) λ b. goes _

  slice_lem : (i n : ℕ) → Honest (slice p i n)
  unfolding slice
  slice_lem i n = if_lem (leb (i + n) (length p)) (goes _) faults

push_vlan_lem : (t : Tuple) (vid : ℕ) → Honest (push_vlan t vid)
unfolding push_vlan
push_vlan_lem t vid = if_lem (ltb t.vlan_count 2) (goes _) faults

module _ (p : List ℕ) (cap : ℕ) where
  vlan_tag_lem : (end off : ℕ) (t : Tuple) → Honest (vlan_tag p cap end off t)
  unfolding vlan_tag
  vlan_tag_lem end off t = if_lem (leb 2 t.vlan_count) (unsupported_lem t) (
      bind_lem _ (check_lem t _) λ _. bind_lem _ (es_be16_lem p off) λ vid.
        bind_lem _ (push_vlan_lem t vid) λ t'. bind_lem _ (es_be16_lem p (off + 2)) λ type. goes _)

  vlan_loop_lem : (n end type off : ℕ) (t : Tuple) → Honest (vlan_loop p cap n end type off t)
  unfolding vlan_loop
  vlan_loop_lem zero end type off t = goes _
  vlan_loop_lem (suc n) end type off t =
      if_lem (es_vlan type)
        (bind_lem _ (vlan_tag_lem end off t) λ r. vlan_loop_lem n end r.0 r.1 r.2) (goes _)

  parse_arp_lem : (end off : ℕ) (t : Tuple) → Honest (parse_arp p cap end off t)
  unfolding parse_arp arp_addresses
  parse_arp_lem end off t = bind_lem _ (check_lem t _) λ _. bind_lem _ (es_be16_lem p off) λ hw.
      bind_lem _ (es_be16_lem p (off + 2)) λ proto. bind_lem _ (byte_lem p _) λ hw_len.
        bind_lem _ (byte_lem p _) λ proto_len.
          if_lem
            (not (hw == 1) || not (proto == 0x0800) || not (hw_len == 6) || not (proto_len == 4))
            (unsupported_lem t)
            (bind_lem _ (slice_lem p _ _) λ sender. bind_lem _ (slice_lem p _ _) λ target. goes _)

  parse_ipv4_lem : (end off : ℕ) (t : Tuple) → Honest (parse_ipv4 p cap end off t)
  unfolding parse_ipv4 ipv4_lengths ipv4_fields
  parse_ipv4_lem end off t = bind_lem _ (check_lem t _) λ _. bind_lem _ (byte_lem p off) λ first.
      if_lem (not (first / 16 == 4)) (malformed_lem t) (
        bind_lem _ (es_be16_lem p _) λ total.
          if_lem
            (ltb (first % 16 * 4) 20 || ltb total (first % 16 * 4) || ltb (sub32 end off) total)
            (malformed_lem t)
            (bind_lem _ (check_lem t _) λ _. bind_lem _ (byte_lem p _) λ proto.
              bind_lem _ (slice_lem p _ _) λ source. bind_lem _ (slice_lem p _ _) λ target.
                bind_lem _ (es_be16_lem p _)
                  λ frag. if_lem (not (frag % 0x4000 == 0)) (fragment_lem _) (goes _)))

  ext_header_lem : (end kind off : ℕ) (t : Tuple) → Honest (ext_header p cap end kind off t)
  unfolding ext_header ext_fragment
  ext_header_lem end kind off t = bind_lem _ (check_lem t _) λ _.
      if_lem (kind == 44)
        (bind_lem _ (check_lem t _) λ _. bind_lem _ (byte_lem p _) λ proto. fragment_lem _)
        (bind_lem _ (byte_lem p _) λ size.
          if_lem (ltb (if kind == 51 then add32 size 2 * 4 else add32 size 1 * 8) 8)
            (malformed_lem t)
            (bind_lem _ (check_lem t _) λ _. bind_lem _ (byte_lem p _) λ kind'. goes _))

  ext_loop_lem : (n end kind off : ℕ) (t : Tuple) → Honest (ext_loop p cap n end kind off t)
  unfolding ext_loop
  ext_loop_lem zero end kind off t = goes _
  ext_loop_lem (suc n) end kind off t =
      if_lem (es_ext kind)
        (bind_lem _ (ext_header_lem end kind off t) λ r. ext_loop_lem n end r.0 r.1 t) (goes _)

  parse_ipv6_lem : (end off : ℕ) (t : Tuple) → Honest (parse_ipv6 p cap end off t)
  unfolding parse_ipv6 ipv6_lengths ipv6_fields
  parse_ipv6_lem end off t = bind_lem _ (check_lem t _) λ _. bind_lem _ (byte_lem p off) λ first.
      if_lem (not (first / 16 == 6)) (malformed_lem t) (
        bind_lem _ (es_be16_lem p _) λ payload. if_lem (payload == 0) (unsupported_lem t) (
          if_lem (ltb (sub32 (sub32 end off) 40) payload) (malformed_lem t) (
            bind_lem _ (byte_lem p _) λ kind. bind_lem _ (slice_lem p _ _) λ source.
              bind_lem _ (slice_lem p _ _) λ target.
                bind_lem _ (ext_loop_lem 4 _ kind _ _)
                  λ r. if_lem (es_ext r.0 || r.0 == 50) (unsupported_lem _) (goes _))))

  ports_lem : (l4 : ℕ) (t : Tuple) → Honest (ports p cap l4 t)
  unfolding ports
  ports_lem l4 t =
      bind_lem _ (slice_lem p _ _) λ source. bind_lem _ (slice_lem p _ _) λ target. goes _

  parse_transport_lem : (l4 end : ℕ) (t : Tuple) → Honest (parse_transport p cap l4 end t)
  unfolding parse_transport tcp_header udp_header
  parse_transport_lem l4 end t =
      if_lem (t.l4_proto == 6)
        (bind_lem _
          (bind_lem _ (check_lem t _) λ _. bind_lem _ (byte_lem p _) λ b.
            if_lem (ltb (b / 16 * 4) 20 || ltb (sub32 end l4) (b / 16 * 4)) (malformed_lem t)
              (goes _))
          λ _. ports_lem l4 t)
        (if_lem (t.l4_proto == 17)
          (bind_lem _
            (bind_lem _ (check_lem t _) λ _.
              bind_lem _ (es_be16_lem p _)
                λ size. if_lem (ltb size 8 || ltb (sub32 end l4) size) (malformed_lem t) (goes _))
            λ _. ports_lem l4 t)
          (goes _))

  parse_network_lem : (end type off : ℕ) (t : Tuple) → Honest (parse_network p cap end type off t)
  unfolding parse_network
  parse_network_lem end type off t = if_lem (es_vlan type) (unsupported_lem t) (
      if_lem (type == 0x0806) (parse_arp_lem end off t) (
        if_lem (type == 0x0800)
          (bind_lem _ (parse_ipv4_lem end off t) λ r. parse_transport_lem r.0 r.1 r.2)
          (if_lem (type == 0x86dd)
            (bind_lem _ (parse_ipv6_lem end off t) λ r. parse_transport_lem r.0 r.1 r.2)
            (unsupported_lem t))))

  pub parse_frame-Honest :
      (end : ℕ) (stripped : Bool) (vid : ℕ) → Honest (parse_frame p cap end stripped vid)
  unfolding parse_frame
  parse_frame-Honest end stripped vid = bind_lem _ (check_lem zero_tuple _) λ _.
      bind_lem _ (es_be16_lem p 12) λ type.
        bind_lem _ (if_lem stripped (push_vlan_lem _ vid) (goes _))
          λ t. bind_lem _ (vlan_loop_lem 2 end type 14 t) λ r. parse_network_lem end r.0 r.1 _
