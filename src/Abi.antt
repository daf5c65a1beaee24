-- ===== src/Abi.antt =====
-- bpf/elephantshrew_shared.h: the constants and records that the BPF programs and the user-space
-- reader share. Bytes are numbers below 256, arrays are lists, and an enum is a data type with the
-- number that stands for it.
pub mod Layout
use elephant_shrew.Prelude.{ℕ, List, replicate}

abbrev pub abi_version : ℕ
abi_version = 2

abbrev pub parse_bytes : ℕ
parse_bytes = 128

abbrev pub snapshot_max : ℕ
snapshot_max = 128

abbrev pub linktype_ethernet : ℕ
linktype_ethernet = 1

abbrev pub directions : ℕ
directions = 2

-- `enum es_hook`
abbrev pub hook_tc : ℕ
hook_tc = 1

abbrev pub hook_xdp : ℕ
hook_xdp = 2

-- What a TC program returns: TC_ACT_UNSPEC (-1), TC_ACT_SHOT (2), TC_ACT_REDIRECT (7).
pub data TcVerdict : Type 0 where
  tc_next tc_drop tc_redirect : TcVerdict

pub data Direction : Type 0 where
  ingress egress : Direction

abbrev pub direction_code : Direction → ℕ
direction_code ingress = 0
direction_code egress = 1

pub data ParseStatus : Type 0 where
  parse_ok truncated unsupported malformed fragment skipped : ParseStatus

abbrev pub status_code : ParseStatus → ℕ
status_code parse_ok = 0
status_code truncated = 1
status_code unsupported = 2
status_code malformed = 3
status_code fragment = 4
status_code skipped = 5

-- `enum es_tuple_flags`
abbrev pub t_l2_valid : ℕ
t_l2_valid = 1

abbrev pub t_addr_valid : ℕ
t_addr_valid = 2

abbrev pub t_ports_valid : ℕ
t_ports_valid = 4

abbrev pub t_fragment : ℕ
t_fragment = 8

-- `enum es_event_flags`
abbrev pub e_prefix_truncated : ℕ
e_prefix_truncated = 1

abbrev pub e_copy_failed : ℕ
e_copy_failed = 2

abbrev pub e_vlan_stripped : ℕ
e_vlan_stripped = 4

-- `struct es_tuple`. The ports keep network order, so they are two bytes each.
pub record Tuple : Type 0 where
  pub src : List ℕ
  pub dst : List ℕ
  pub sport : List ℕ
  pub dport : List ℕ
  pub ethertype : ℕ
  pub vlan : List ℕ
  pub ip_version : ℕ
  pub l4_proto : ℕ
  pub flags : ℕ
  pub vlan_count : ℕ
  pub reserved : ℕ

-- `struct es_tuple` with all its bytes 0
abbrev pub zero_tuple : Tuple
zero_tuple = record {
  src = replicate 16 0;
  dst = replicate 16 0;
  sport = replicate 2 0;
  dport = replicate 2 0;
  ethertype = 0;
  vlan = replicate 2 0;
  ip_version = 0;
  l4_proto = 0;
  flags = 0;
  vlan_count = 0;
  reserved = 0;
}

-- `struct es_event`
pub record Event : Type 0 where
  pub timestamp_mono_ns : ℕ
  pub sequence : ℕ
  pub ifindex : ℕ
  pub original_len : ℕ
  pub cpu : ℕ
  pub abi_version : ℕ
  pub record_size : ℕ
  pub captured_len : ℕ
  pub link_type : ℕ
  pub direction : ℕ
  pub hook : ℕ
  pub parse_status : ℕ
  pub flags : ℕ
  pub tuple : Tuple
  pub prefix : List ℕ

-- `struct es_counters`, a field for each `enum es_counter_id`
pub record Counters : Type 0 where
  pub packets : ℕ
  pub bytes : ℕ
  pub selected : ℕ
  pub events : ℕ
  pub ring_lost : ℕ
  pub parse_partial : ℕ
  pub parse_malformed : ℕ
  pub snapshot_failed : ℕ
  pub flow_update_failed : ℕ
  pub policy_drop : ℕ
  pub mirror_attempt : ℕ
  pub mirror_error : ℕ
  pub redirect_attempt : ℕ

-- `struct es_flow_key`; its `reserved` bytes are always 0
pub record FlowKey : Type 0 where
  pub tuple : Tuple
  pub ifindex : ℕ
  pub direction : ℕ

-- `struct es_flow_value`
pub record FlowValue : Type 0 where
  pub first_ns : ℕ
  pub last_ns : ℕ
  pub packets : ℕ
  pub bytes : ℕ
