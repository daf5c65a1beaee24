-- ===== src/Decoder.antt =====
-- inc/TelemetryTypes.hpp: the check of a ring record before user space trusts it.
pub mod Accepts
pub mod Tests
use elephant_shrew.Prelude.{
  ℕ, Bool, not, ◌&&◌, ◌||◌, List, Option, none, some, ltb, leb, ◌==◌, if◌then◌else◌, has_flag,
}
use elephant_shrew.Abi.{
  Event, abi_version, snapshot_max, linktype_ethernet, directions, hook_tc, hook_xdp, t_addr_valid,
  t_ports_valid, t_fragment, e_copy_failed,
}
use elephant_shrew.Abi.Layout.{sizeof_event, load_event}

-- the first `if` of `DecodeEvent`; a byte has a flag outside the three (four) known ones exactly
-- when it is at least 8 (16)
abbrev pub unknown_record : Event → Bool
unknown_record e =
    not (e.abi_version == abi_version)
    || not (e.record_size == sizeof_event)
    || e.ifindex == 0
    || leb directions e.direction
    || not (e.hook == hook_tc) && not (e.hook == hook_xdp)
    || not (e.link_type == linktype_ethernet)
    || ltb 5 e.parse_status
    || ltb snapshot_max e.captured_len
    || ltb e.original_len e.captured_len
    || ltb 2 e.tuple.vlan_count
    || not (e.tuple.reserved == 0)
    || leb 8 e.flags
    || leb 16 e.tuple.flags

abbrev pub copy_contradicts : Event → Bool
copy_contradicts e = has_flag e.flags e_copy_failed && not (e.captured_len == 0)

abbrev pub ports_contradict : Event → Bool
ports_contradict e =
    has_flag e.tuple.flags t_ports_valid
    && (not (has_flag e.tuple.flags t_addr_valid)
        || has_flag e.tuple.flags t_fragment
        || not (e.tuple.l4_proto == 6) && not (e.tuple.l4_proto == 17))

unfoldable pub check_event : Event → Option Event
check_event e =
    if unknown_record e
    then none
    else if copy_contradicts e
    then none
    else if ports_contradict e
    then none
    else some e

-- `data` is a null pointer, or the bytes that the ring hands over. The result is what is stored
-- in `out`, if anything.
unfoldable pub decode_event : Option (List ℕ) → ℕ → Option Event
decode_event none size = none
decode_event (some bytes) size =
    if not (size == sizeof_event) then none else check_event (load_event bytes)
