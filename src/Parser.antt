-- ===== src/Parser.antt =====
-- bpf/packet_parser.bpf.h: the bounded Ethernet parser of the TC programs, one function for each
-- part of `es_parse`. `p` holds the bytes that may be read. Sums of `__u32` are taken mod 2^32; a
-- sum that C makes on the pointer is plain.
pub mod Reader
pub mod Ensures
pub mod Shape
pub mod Guarantees
pub mod Prefix
pub mod Wire
pub mod Sound
pub mod Tests
use elephant_shrew.Prelude.{
  ℕ, zero, suc, ◌+◌, ◌-◌, ◌*◌, ◌/◌, ◌%◌, Bool, true, false, not, ◌&&◌, ◌||◌, List, Option, add32,
  sub32, ltb, leb, ◌==◌, if◌then◌else◌, set, set_flag,
}
use elephant_shrew.Abi.{
  Tuple, zero_tuple, ParseStatus, parse_ok, truncated, unsupported, malformed, fragment,
  parse_bytes, t_l2_valid, t_addr_valid, t_ports_valid, t_fragment,
}
use Reader.{Parsed, next, stop, fault, ◌>>=◌, ◌>>◌, check, byte, es_be16, slice, copy_into, outcome}

-- Bounds distinguish a missing prefix from a structurally impossible length.
unfoldable pub es_need : ℕ → ℕ → ℕ → ℕ → ParseStatus
es_need off n cap end =
    if ltb end off || ltb (sub32 end off) n
    then malformed
    else if ltb cap off || ltb (sub32 cap off) n
    then truncated
    else parse_ok

abbrev pub es_vlan : ℕ → Bool
es_vlan type = type == 0x8100 || type == 0x88a8

abbrev pub es_ext : ℕ → Bool
es_ext n = n == 0 || n == 43 || n == 60 || n == 51 || n == 44

-- `t->vlan[t->vlan_count++] = vid & 0x0fff`
unfoldable pub push_vlan : Tuple → ℕ → Parsed Tuple
push_vlan t vid =
    if ltb t.vlan_count 2
    then next (record t {
      vlan = set t.vlan t.vlan_count (vid % 0x1000);
      vlan_count = (t.vlan_count + 1) % 256;
    })
    else fault

module _ (p : List ℕ) (cap : ℕ) where
  -- one round of the tag loop, past its `break`
  unfoldable pub vlan_tag : ℕ → ℕ → Tuple → Parsed (ℕ × ℕ × Tuple)
  vlan_tag end off t = if leb 2 t.vlan_count then stop unsupported t else do
    check t (es_need off 4 cap end)
    vid ← es_be16 p off
    t' ← push_vlan t vid
    type ← es_be16 p (off + 2)
    next (type, add32 off 4, t')

  unfoldable pub vlan_loop : ℕ → ℕ → ℕ → ℕ → Tuple → Parsed (ℕ × ℕ × Tuple)
  vlan_loop zero end type off t = next (type, off, t)
  vlan_loop (suc rounds) end type off t =
      let tagged = (do
        (type', off', t') ← vlan_tag end off t
        vlan_loop rounds end type' off' t') in
      if es_vlan type then tagged else next (type, off, t)

  -- the sender's and the target's address of an Ethernet/IPv4 request or reply
  unfoldable pub arp_addresses : ℕ → Tuple → Parsed (ParseStatus × Tuple)
  arp_addresses off t = do
    sender ← slice p (off + 14) 4
    target ← slice p (off + 24) 4
    next (
      parse_ok,
      record t {
        src = copy_into sender t.src;
        dst = copy_into target t.dst;
        ip_version = 4;
        flags = set_flag t.flags t_addr_valid;
      },
    )

  -- type == 0x0806
  unfoldable pub parse_arp : ℕ → ℕ → Tuple → Parsed (ParseStatus × Tuple)
  parse_arp end off t = do
    check t (es_need off 28 cap end)
    hw ← es_be16 p off
    proto ← es_be16 p (off + 2)
    hw_len ← byte p (add32 off 4)
    proto_len ← byte p (add32 off 5)
    if not (hw == 1) || not (proto == 0x0800) || not (hw_len == 6) || not (proto_len == 4)
        then stop unsupported t
        else arp_addresses off t

  -- within the declared total length: Ethernet padding must not become transport data
  unfoldable pub ipv4_fields : ℕ → ℕ → Tuple → ℕ → Parsed (ℕ × ℕ × Tuple)
  ipv4_fields end off t ihl = do
    check t (es_need off ihl cap end)
    proto ← byte p (add32 off 9)
    source ← slice p (off + 12) 4
    target ← slice p (off + 16) 4
    frag ← es_be16 p (off + 6)
    let t' = record t {
      src = copy_into source t.src;
      dst = copy_into target t.dst;
      ip_version = 4;
      l4_proto = proto;
      flags = set_flag t.flags t_addr_valid;
    }
    if not (frag % 0x4000 == 0)
        then stop fragment (record t' { flags = set_flag t'.flags t_fragment })
        else next (add32 off ihl, end, t')

  -- the rest of `parse_ipv4`, from `ihl` on
  unfoldable pub ipv4_lengths : ℕ → ℕ → Tuple → ℕ → Parsed (ℕ × ℕ × Tuple)
  ipv4_lengths end off t ihl = do
    total ← es_be16 p (off + 2)
    if ltb ihl 20 || ltb total ihl || ltb (sub32 end off) total
        then stop malformed t
        else ipv4_fields (add32 off total) off t ihl

  -- type == 0x0800; gives the offset of the transport header, the end of the packet and the tuple
  unfoldable pub parse_ipv4 : ℕ → ℕ → Tuple → Parsed (ℕ × ℕ × Tuple)
  parse_ipv4 end off t = do
    check t (es_need off 20 cap end)
    first ← byte p off
    if not (first / 16 == 4) then stop malformed t else ipv4_lengths end off t (first % 16 * 4)

  -- next == 44; atomic fragments are excluded too
  unfoldable pub ext_fragment : ℕ → ℕ → Tuple → Parsed (ℕ × ℕ)
  ext_fragment end off t = do
    check t (es_need off 8 cap end)
    proto ← byte p off
    stop fragment (record t { l4_proto = proto; flags = set_flag t.flags t_fragment })

  -- one extension header, past the `break`
  unfoldable pub ext_header : ℕ → ℕ → ℕ → Tuple → Parsed (ℕ × ℕ)
  ext_header end nxt off t = do
    check t (es_need off 2 cap end)
    if nxt == 44 then ext_fragment end off t else do
      size ← byte p (add32 off 1)
      let ext_len = if nxt == 51 then add32 size 2 * 4 else add32 size 1 * 8
      if ltb ext_len 8 then stop malformed t else do
        check t (es_need off ext_len cap end)
        nxt' ← byte p off
        next (nxt', add32 off ext_len)

  unfoldable pub ext_loop : ℕ → ℕ → ℕ → ℕ → Tuple → Parsed (ℕ × ℕ)
  ext_loop zero end nxt off t = next (nxt, off)
  ext_loop (suc rounds) end nxt off t =
      let skip = (do (nxt', off') ← ext_header end nxt off t; ext_loop rounds end nxt' off' t) in
      if es_ext nxt then skip else next (nxt, off)

  -- the addresses and the extension headers, within the declared payload
  unfoldable pub ipv6_fields : ℕ → ℕ → Tuple → Parsed (ℕ × ℕ × Tuple)
  ipv6_fields end off t = do
    nxt ← byte p (add32 off 6)
    source ← slice p (off + 8) 16
    target ← slice p (off + 24) 16
    let t' = record t {
      src = copy_into source t.src;
      dst = copy_into target t.dst;
      ip_version = 6;
      flags = set_flag t.flags t_addr_valid;
    }
    (proto, l4) ← ext_loop 4 end nxt (add32 off 40) t'
    let t'' = record t' { l4_proto = proto }
    if es_ext proto || proto == 50 then stop unsupported t'' else next (l4, end, t'')

  -- the rest of `parse_ipv6`, from `payload` on
  unfoldable pub ipv6_lengths : ℕ → ℕ → Tuple → Parsed (ℕ × ℕ × Tuple)
  ipv6_lengths end off t = do
    payload ← es_be16 p (off + 4)
    if payload == 0
        then stop unsupported t
        else if ltb (sub32 (sub32 end off) 40) payload
        then stop malformed t
        else ipv6_fields (add32 (add32 off 40) payload) off t

  -- type == 0x86dd
  unfoldable pub parse_ipv6 : ℕ → ℕ → Tuple → Parsed (ℕ × ℕ × Tuple)
  parse_ipv6 end off t = do
    check t (es_need off 40 cap end)
    first ← byte p off
    if not (first / 16 == 6) then stop malformed t else ipv6_lengths end off t

  tcp_header : ℕ → ℕ → Tuple → Parsed (Unit {0})
  tcp_header end l4 t = do
    check t (es_need l4 20 cap end)
    b ← byte p (add32 l4 12)
    if ltb (b / 16 * 4) 20 || ltb (sub32 end l4) (b / 16 * 4) then stop malformed t else next tt

  udp_header : ℕ → ℕ → Tuple → Parsed (Unit {0})
  udp_header end l4 t = do
    check t (es_need l4 8 cap end)
    ulen ← es_be16 p (l4 + 4)
    if ltb ulen 8 || ltb (sub32 end l4) ulen then stop malformed t else next tt

  ports : ℕ → Tuple → Parsed (ParseStatus × Tuple)
  ports l4 t = do
    source ← slice p l4 2
    target ← slice p (l4 + 2) 2
    next (
      parse_ok,
      record t {
        sport = copy_into source t.sport;
        dport = copy_into target t.dport;
        flags = set_flag t.flags t_ports_valid;
      },
    )

  unfoldable pub parse_transport : ℕ → ℕ → Tuple → Parsed (ParseStatus × Tuple)
  unfolding tcp_header udp_header ports
  parse_transport l4 end t =
      if t.l4_proto == 6
      then (do tcp_header end l4 t; ports l4 t)
      else if t.l4_proto == 17
      then (do udp_header end l4 t; ports l4 t)
      else next (parse_ok, t)

  unfoldable pub parse_network : ℕ → ℕ → ℕ → Tuple → Parsed (ParseStatus × Tuple)
  parse_network end type off t =
      if es_vlan type
      then stop unsupported t
      else if type == 0x0806
      then parse_arp end off t
      else if type == 0x0800
      then (do (l4, end', t') ← parse_ipv4 end off t; parse_transport l4 end' t')
      else if type == 0x86dd
      then (do (l4, end', t') ← parse_ipv6 end off t; parse_transport l4 end' t')
      else stop unsupported t

  -- from the Ethernet header on, with `cap` cut to the limits
  unfoldable pub parse_frame : ℕ → Bool → ℕ → Parsed (ParseStatus × Tuple)
  parse_frame end stripped_vlan stripped_vid = do
    check zero_tuple (es_need 0 14 cap end)
    type ← es_be16 p 12
    let t = record zero_tuple { flags = t_l2_valid }
    t' ← if stripped_vlan then push_vlan t stripped_vid else next t
    (type', off, t'') ← vlan_loop 2 end type 14 t'
    parse_network end type' off (record t'' { ethertype = type' })

-- `if (cap > ES_PARSE_BYTES) cap = ES_PARSE_BYTES; if (cap > original_len) cap = original_len;`
abbrev pub clip : ℕ → ℕ → ℕ
clip cap original_len =
    let cap' = if ltb parse_bytes cap then parse_bytes else cap in
    if ltb original_len cap' then original_len else cap'

unfoldable pub es_parse : List ℕ → ℕ → ℕ → Bool → ℕ → Option (ParseStatus × Tuple)
es_parse p cap original_len stripped_vlan stripped_vid =
    outcome (parse_frame p (clip cap original_len) original_len stripped_vlan stripped_vid)
