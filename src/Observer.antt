-- ===== src/Observer.antt =====
-- bpf/elephantshrew_tc.bpf.c: what the TC observer does with one packet. The kernel's helpers are
-- parameters: `Skb.load_bytes` for `bpf_skb_load_bytes` from offset 0, `Env` for the clock, the
-- processor and whether the ring has room, `FlowTable` for the LRU map of flows.
pub mod Balance
pub mod Sampling
pub mod Described
pub mod Emits
pub mod Submits
pub mod Cpus
pub mod Tests
use mathlib.Core.Option
use elephant_shrew.Prelude.{
  ℕ, ◌+◌, ◌-◌, ◌%◌, ◌^◌, Bool, true, false, not, ◌&&◌, ◌||◌, List, Option, none, some, replicate,
  length, ◌>>=◌, add64, ltb, leb, ◌==◌, if◌then◌else◌, has_flag, set_flag,
}
use elephant_shrew.Abi.{
  Tuple, zero_tuple, Event, Counters, FlowKey, FlowValue, Direction, direction_code, TcVerdict,
  tc_next, ParseStatus, parse_ok, truncated, malformed, skipped, status_code, parse_bytes,
  snapshot_max, abi_version, linktype_ethernet, hook_tc, t_ports_valid, e_prefix_truncated,
  e_copy_failed, e_vlan_stripped,
}
use elephant_shrew.Abi.Layout.{sizeof_event}
use elephant_shrew.Parser.{es_parse}
use elephant_shrew.Parser.Reader.{copy_into}

-- the read-only settings, written before the program is loaded
pub record Settings : Type 0 where
  pub sample_every : ℕ
  pub snapshot_bytes : ℕ
  pub classify : Bool
  pub flow_enabled : Bool
  pub select_l4_proto : ℕ

-- what the program reads of `struct __sk_buff`
pub record Skb : Type 0 where
  pub len : ℕ
  pub ifindex : ℕ
  pub vlan_present : Bool
  pub vlan_tci : ℕ
  pub load_bytes : ℕ → Option (List ℕ)

pub record Env : Type 0 where
  pub now : ℕ
  pub cpu : ℕ
  pub ring_room : Bool

-- `insert` is the update with BPF_NOEXIST and a zero value, which may fail or evict; `write`
-- stores through the pointer that a lookup gave.
pub record FlowTable (F : Type 0) : Type 0 where
  pub lookup : FlowKey → F → Option FlowValue
  pub insert : FlowKey → F → F
  pub write : FlowKey → FlowValue → F → F

pub record Seen (F : Type 0) : Type 0 where
  pub verdict : TcVerdict
  pub counters : Option Counters
  pub flows : F
  pub event : Option Event

is_ok : ParseStatus → Bool
is_ok parse_ok = true
is_ok _ = false

-- the counter for the result of a parse
count_status : ParseStatus → Counters → Counters
count_status malformed s = record s { parse_malformed = add64 s.parse_malformed 1 }
count_status parse_ok s = s
count_status _ s = record s { parse_partial = add64 s.parse_partial 1 }

-- the array of 128 bytes, zeroed, with `bs` copied to its start
unfoldable pub buffer_of : List ℕ → List ℕ
buffer_of bs = copy_into bs (replicate parse_bytes 0)

-- the copy onto the stack; a fault where it would run past the array
unfoldable pub buffer : List ℕ → Option (List ℕ)
buffer bs = if ltb parse_bytes (length bs) then none else some (buffer_of bs)

unfoldable pub parse_loaded : Skb → ℕ → Option (List ℕ) → Option (ParseStatus × Tuple)
unfolding buffer buffer_of
parse_loaded skb cap none = some (truncated, zero_tuple)
parse_loaded skb cap (some bs) =
    buffer bs >>= λ b. es_parse b cap skb.len skb.vlan_present (skb.vlan_tci % 2 ^ 16)

-- `none` only where the copy or the parser faults
unfoldable pub classify_skb : Settings → Skb → Option (ParseStatus × Tuple)
unfolding parse_loaded
classify_skb c skb =
    let cap = if ltb parse_bytes skb.len then parse_bytes else skb.len in
    if c.classify || c.flow_enabled || not (c.select_l4_proto == 0)
    then (if not (cap == 0)
        then parse_loaded skb cap (skb.load_bytes cap)
        else some (truncated, zero_tuple))
    else some (skipped, zero_tuple)

abbrev touch : FlowValue → ℕ → ℕ → FlowValue
touch f now len = record {
  first_ns = if f.packets == 0 then now else f.first_ns;
  last_ns = now;
  packets = add64 f.packets 1;
  bytes = add64 f.bytes len;
}

abbrev pub flow_key : Direction → Skb → Tuple → FlowKey
flow_key d skb t = record { tuple = t; ifindex = skb.ifindex; direction = direction_code d }

module _ {F : Type 0} (table : FlowTable F) where
  touch_found : FlowKey → ℕ → ℕ → Counters → F → Option FlowValue → Counters × F
  touch_found key now len s flows none =
      (record s { flow_update_failed = add64 s.flow_update_failed 1 }, flows)
  touch_found key now len s flows (some f) = (s, table.write key (touch f now len) flows)

  touch_or_insert : FlowKey → ℕ → ℕ → Counters → F → Option FlowValue → Counters × F
  unfolding touch_found
  touch_or_insert key now len s flows none =
      let flows' = table.insert key flows in
      touch_found key now len s flows' (table.lookup key flows')
  touch_or_insert key now len s flows (some f) = touch_found key now len s flows (some f)

  unfoldable pub es_count_flow : Direction → Skb → Tuple → Counters → F → ℕ → Counters × F
  unfolding touch_or_insert
  es_count_flow d skb t s flows now =
      let key = flow_key d skb t in
      if not (has_flag t.flags t_ports_valid)
      then (s, flows)
      else touch_or_insert key now skb.len s flows (table.lookup key flows)

-- the record after the `memset` and the assignments
abbrev pub fresh_event : Direction → Skb → Env → ℕ → ParseStatus → Tuple → Event
fresh_event d skb env seq status t = record {
  timestamp_mono_ns = env.now;
  sequence = seq;
  ifindex = skb.ifindex;
  original_len = skb.len;
  cpu = env.cpu;
  abi_version = abi_version;
  record_size = sizeof_event;
  captured_len = 0;
  link_type = linktype_ethernet;
  direction = direction_code d;
  hook = hook_tc;
  parse_status = status_code status;
  flags = if skb.vlan_present then set_flag 0 e_vlan_stripped else 0;
  tuple = t;
  prefix = replicate snapshot_max 0;
}

abbrev pub snapshot_len : Settings → Skb → ℕ
snapshot_len c skb =
    let want = if ltb snapshot_max c.snapshot_bytes then snapshot_max else c.snapshot_bytes in
    if ltb skb.len want then skb.len else want

-- A failed copy must not publish partially initialized data.
copy_prefix : Skb → ℕ → Event → Option (List ℕ) → Counters → Event × Counters
copy_prefix skb want e (some bs) s = (
  record e {
    captured_len = want % 2 ^ 16;
    prefix = copy_into bs e.prefix;
    flags = if ltb want skb.len then set_flag e.flags e_prefix_truncated else e.flags;
  },
  s,
)
copy_prefix skb want e none s = (
  record e { prefix = replicate snapshot_max 0; flags = set_flag e.flags e_copy_failed },
  record s { snapshot_failed = add64 s.snapshot_failed 1 },
)

unfoldable pub take_snapshot : Settings → Skb → Event → Counters → Event × Counters
unfolding copy_prefix
take_snapshot c skb e s =
    let want = snapshot_len c skb in
    if not (want == 0) then copy_prefix skb want e (skb.load_bytes want) s else (e, s)

-- from `bpf_ringbuf_reserve` on
unfoldable pub emit :
    Settings → Direction → Skb → Env → ℕ → ParseStatus → Tuple → Counters → Option Event × Counters
emit c d skb env seq status t s =
    if env.ring_room
    then (let (e, s') = take_snapshot c skb (fresh_event d skb env seq status t) s in
        (some e, record s' { events = add64 s'.events 1 }))
    else (none, record s { ring_lost = add64 s.ring_lost 1 })

-- the selection: telemetry only, no packet is dropped here
unfoldable pub sample :
    Settings → Direction → Skb → Env → ℕ → ParseStatus → Tuple → Counters → Option Event × Counters
unfolding is_ok
sample c d skb env seq status t s =
    let selected' = add64 s.selected 1 in
    let s' = record s { selected = selected' } in
    if not (c.select_l4_proto == 0) && (not (is_ok status) || not (t.l4_proto == c.select_l4_proto))
    then (none, s)
    else if c.sample_every == 0 || not (selected' % c.sample_every == 0)
    then (none, s')
    else emit c d skb env seq status t s'

module _ {F : Type 0} (table : FlowTable F) where
  unfoldable pub count_and_sample :
      Settings → Direction → Skb → Env → Counters → F → ℕ → ParseStatus × Tuple → Seen F
  unfolding is_ok
  count_and_sample c d skb env s flows seq (status, t) =
      let (s', flows') =
        if c.flow_enabled && is_ok status
        then es_count_flow table d skb t s flows env.now
        else (s, flows) in
      let (event, s'') = sample c d skb env seq status t s' in
      record { verdict = tc_next; counters = some s''; flows = flows'; event = event }

  -- `status` is counted only if the packet was looked at
  abbrev counted : Settings → ParseStatus → Counters → Counters
  counted c status s =
      if c.classify || c.flow_enabled || not (c.select_l4_proto == 0)
      then count_status status s
      else s

  -- The program, attached in direction `d`; `none` only where the copy or the parser faults.
  unfoldable pub es_observe :
      Settings → Direction → Skb → Env → Option Counters → F → Option (Seen F)
  unfolding count_status
  es_observe c d skb env none flows =
      some (record { verdict = tc_next; counters = none; flows = flows; event = none })
  es_observe c d skb env (some s) flows =
      let seq = add64 s.packets 1 in
      let s' = record s { packets = seq; bytes = add64 s.bytes skb.len } in
      Option.map (λ r. count_and_sample c d skb env (counted c r.0 s') flows seq r)
        (classify_skb c skb)

  unfoldable pub es_ingress : Settings → Skb → Env → Option Counters → F → Option (Seen F)
  es_ingress c = es_observe c Direction.ingress

  unfoldable pub es_egress : Settings → Skb → Env → Option Counters → F → Option (Seen F)
  es_egress c = es_observe c Direction.egress
