-- ===== src/Observer/Tests.antt =====
-- The observer on a UDP packet, and the theorems at it.
use mathlib.Core.Path.{subst}
use elephant_shrew.Prelude.{
  map, ℕ, ◌≡◌, refl, true, false, List, [], ◌∷◌, Option, none, some, arith, length, take, replicate,
  IsBytes, leb, if◌then◌else◌, Bool-cases, inl, inr, some_inj, length-take, All-take,
}
use elephant_shrew.Parser.{
  es_need, push_vlan, vlan_tag, vlan_loop, arp_addresses, parse_arp, ipv4_fields, ipv4_lengths,
  parse_ipv4, ext_fragment, ext_header, ext_loop, ipv6_fields, ipv6_lengths, parse_ipv6,
  parse_transport, parse_network, parse_frame, es_parse,
}
use elephant_shrew.Parser.Reader.{◌>>=◌, check, byte, es_be16, slice, outcome}
use elephant_shrew.Abi.{parse_ok, zero_tuple, Event, Counters, ingress, tc_next, skipped}
use elephant_shrew.Abi.Layout.{store_event}
use elephant_shrew.Decoder.{decode_event}
use elephant_shrew.Observer.{
  Settings, Skb, Env, FlowTable, Seen, fresh_event, buffer, buffer_of, parse_loaded, classify_skb,
  take_snapshot, emit, sample, count_and_sample, es_observe,
}
use elephant_shrew.Observer.Balance.{IsBalanced}
use elephant_shrew.Observer.Sampling.{zero_counters}
use elephant_shrew.Observer.Cpus.{
  site_of, Maps, store_maps, visits, start, later, Observed-IsBalanced,
}
use elephant_shrew.Observer.Described.{IsSkb, es_observe_total}
use elephant_shrew.Observer.Emits.{es_observe-decode}
use elephant_shrew.Observer.Submits.{es_observe-IsFrame}
use elephant_shrew.Parser.Wire.Frame.{IsFrame, tuple_of}
use elephant_shrew.Parser.Wire.Tests.{shrew, shrew_frame, shrew-IsFrame}

-- a table that holds nothing
abbrev pub no_flows : FlowTable (Unit {0})
no_flows = record { lookup = λ k m. none; insert = λ k m. m; write = λ k v m. m }

abbrev settings : Settings
settings = record {
  sample_every = 1;
  snapshot_bytes = 4;
  classify = false;
  flow_enabled = false;
  select_l4_proto = 0;
}

abbrev bytes : List ℕ
bytes = 1 ∷ 2 ∷ 3 ∷ 4 ∷ 5 ∷ []

-- `bpf_skb_load_bytes` from offset 0 of a packet
abbrev pub load_of : List ℕ → ℕ → Option (List ℕ)
load_of packet n = if leb n (length packet) then some (take n packet) else none

abbrev skb : Skb
skb = record { len = 5; ifindex = 3; vlan_present = true; vlan_tci = 0; load_bytes = load_of bytes }

abbrev pub env : Env
env = record { now = 1000; cpu = 2; ring_room = true }

none-some : {bs : List ℕ} → none ≡ some bs → ⊥
none-some h = cc

bytes-IsBytes : IsBytes bytes
bytes-IsBytes = ground arith

pub load_of-fits :
    (packet : List ℕ)
    → IsBytes packet
    → (n : ℕ) (bs : List ℕ) → load_of packet n ≡ some bs
    → (length bs ≡ n) × IsBytes bs
load_of-fits packet octets n bs h = elim (Bool-cases (leb n (length packet))) [
  | inl p ↦
      let same : take n packet ≡ bs = some_inj (rw p at h) in
      subst (λ (x : List ℕ). (length x ≡ n) × IsBytes x) same
        (ground (arith, length-take n packet), All-take _ n packet octets)
  | inr p ↦ absurd (none-some (rw p at h))
]

skb-IsSkb : IsSkb skb
skb-IsSkb = record {
  len_word = omega arith;
  ifindex_word = omega arith;
  ifindex_set = omega arith;
  loads = load_of-fits bytes bytes-IsBytes;
}

abbrev submitted : Event
submitted = record (fresh_event ingress skb env 1 skipped zero_tuple) {
  captured_len = 4;
  prefix = 1 ∷ 2 ∷ 3 ∷ 4 ∷ replicate 124 0;
  flags = 5;
}

abbrev pub counters : Counters
counters = record zero_counters { packets = 1; bytes = 5; selected = 1; events = 1 }

abbrev seen : Seen (Unit {0})
seen = record { verdict = tc_next; counters = some counters; flows = tt; event = some submitted }

observe-skb : es_observe no_flows settings ingress skb env (some zero_counters) tt ≡ some seen
unfolding es_observe classify_skb count_and_sample sample emit take_snapshot
observe-skb = refl

-- after the packet
abbrev maps : Maps (Unit {0})
maps =
    store_maps env.cpu 0 counters tt (record { counters = λ i j. zero_counters; flows = λ i. tt })

Observed-IsBalanced_example :
    IsBalanced 1 (maps.counters env.cpu 0)
    × ((maps.counters env.cpu 0).packets ≡ visits env.cpu 0 ((env.cpu, 0) ∷ []))
    × ((maps.counters env.cpu 0).events ≡ visits env.cpu 0 (map site_of (submitted ∷ [])))
Observed-IsBalanced_example =
    Observed-IsBalanced no_flows env.cpu 0
      (later (start (λ i. tt)) ingress skb env seen counters observe-skb refl) (omega arith)

es_observe_total_example :
    (r : Seen (Unit {0})) × (es_observe no_flows settings ingress skb env (some zero_counters) tt
      ≡ some r)
es_observe_total_example =
    es_observe_total settings skb skb-IsSkb no_flows ingress env (some zero_counters) tt

es_observe-decode_example : decode_event (some (store_event submitted)) 216 ≡ some submitted
es_observe-decode_example =
    es_observe-decode no_flows settings ingress skb env zero_counters tt skb-IsSkb (omega arith)
      observe-skb refl

-- a tagged frame of UDP over IPv6
abbrev pub classifying : Settings
classifying = record settings { classify = true }

abbrev pub shrew_skb : Skb
shrew_skb = record {
  len = 74;
  ifindex = 3;
  vlan_present = true;
  vlan_tci = 0x64;
  load_bytes = load_of shrew;
}

pub shrew_skb-IsSkb : IsSkb shrew_skb
shrew_skb-IsSkb = record {
  len_word = omega arith;
  ifindex_word = omega arith;
  ifindex_set = omega arith;
  loads = load_of-fits shrew (ground arith);
}

abbrev pub shrew_event : Event
shrew_event =
    record (fresh_event ingress shrew_skb env 1 parse_ok (tuple_of (0x64 ∷ []) shrew_frame)) {
      captured_len = 4;
      prefix = replicate 128 0;
      flags = 5;
    }

abbrev pub shrew_seen : Seen (Unit {0})
shrew_seen = record {
  verdict = tc_next;
  counters = some (record zero_counters { packets = 1; bytes = 74; selected = 1; events = 1 });
  flows = tt;
  event = some shrew_event;
}

pub observe-shrew :
    es_observe no_flows classifying ingress shrew_skb env (some zero_counters) tt ≡ some shrew_seen
unfolding es_observe classify_skb count_and_sample sample emit take_snapshot parse_loaded buffer
    buffer_of es_parse parse_frame parse_network parse_transport parse_ipv6 ipv6_lengths ipv6_fields
    ext_loop ext_header ext_fragment parse_ipv4 ipv4_lengths ipv4_fields parse_arp arp_addresses
    vlan_loop vlan_tag push_vlan es_need check byte es_be16 slice outcome ◌>>=◌
observe-shrew = refl

buffer-shrew : IsFrame (buffer_of shrew) 74 74 shrew_frame
unfolding buffer_of
buffer-shrew = shrew-IsFrame

es_observe-IsFrame_example :
    (decode_event (some (store_event shrew_event)) 216 ≡ some shrew_event)
    × (shrew_event.parse_status ≡ 0)
    × (shrew_event.tuple ≡ tuple_of (0x64 ∷ []) shrew_frame)
    × (shrew_event.ifindex ≡ 3)
    × (shrew_event.original_len ≡ 74)
es_observe-IsFrame_example =
    es_observe-IsFrame no_flows classifying ingress shrew_skb env zero_counters tt shrew shrew_frame
      shrew_skb-IsSkb (record { now_word = omega arith; cpu_word = omega arith }) refl refl
      buffer-shrew (omega arith) observe-shrew refl
