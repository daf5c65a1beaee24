-- ===== src/Observer/Emits.antt =====
-- What the observer submits is what user space accepts.
use mathlib.Core.Option
use mathlib.Core.Path.{subst}
use elephant_shrew.Prelude.{
  ℕ, ◌%◌, ◌^◌, ◌≤◌, ◌<◌, ◌≡◌, ◌≢◌, refl, sym, ap, ◌∙◌, inl, inr, true, not, ◌&&◌, ◌||◌, List, [],
  ◌∷◌, Option, none, some, arith, length, replicate, All, add64, ◌==◌, Bool-cases, has_flag,
  some_inj,
}
use elephant_shrew.Abi.{Tuple, Event, Counters, Direction, ParseStatus, status_code}
use elephant_shrew.Abi.Layout.{store_event, TupleFits, EventFits}
use elephant_shrew.Abi.Layout.RoundTrip.{VlanFits, load_event-store_event, pair_of_length}
use elephant_shrew.Decoder.{decode_event}
use elephant_shrew.Decoder.Accepts.{IsTrusted, decode_event_iff}
use elephant_shrew.Parser.Shape.{Sized, length-copy_into}
use elephant_shrew.Observer.{
  Settings, Skb, Env, FlowTable, Seen, snapshot_len, fresh_event, copy_prefix, take_snapshot, is_ok,
  emit, sample, count_and_sample, counted, es_observe,
}
use elephant_shrew.Observer.Described.{IsSkb, IsEnv, IsDescribed, classify_skb-IsDescribed}

vlan-VlanFits : (t : Tuple) → Sized t → VlanFits t
vlan-VlanFits t z =
    let (v, v', e) = pair_of_length t.vlan z.vlan_size in
    let ids : All (λ v. v < 0x1000) (v ∷ v' ∷ []) = subst (All (λ v. v < 0x1000)) e z.vlan_ids in
    (v, v', e, omega arith, omega arith)

-- a record that user space accepts, and that the layout carries over
record IsGood (e : Event) : Type 0 where
  fits : EventFits e
  tuple_fits : TupleFits e.tuple
  vlan_fits : VlanFits e.tuple
  trusted : IsTrusted e

-- the parts of the record that the snapshot does not touch
record IsHeader (e : Event) : Type 0 where
  timestamp_word : e.timestamp_mono_ns < 2 ^ 64
  sequence_word : e.sequence < 2 ^ 64
  ifindex_word : e.ifindex < 2 ^ 32
  ifindex_set : e.ifindex ≢ 0
  original_len_word : e.original_len < 2 ^ 32
  cpu_word : e.cpu < 2 ^ 32
  version : e.abi_version ≡ 2
  size : e.record_size ≡ 216
  ethernet : e.link_type ≡ 1
  direction_known : e.direction < 2
  hook_known : e.hook ≡ 1
  status_known : e.parse_status ≤ 5

good :
    (e : Event)
    → IsHeader e
    → IsDescribed e.tuple
    → e.flags < 8
    → length e.prefix ≡ 128
    → e.captured_len ≤ 128
    → e.captured_len ≤ e.original_len
    → (has_flag e.flags 2 ≡ true → e.captured_len ≡ 0)
    → IsGood e
good e h t flags size cap within failed = record {
  fits = omega arith;
  tuple_fits = omega arith;
  vlan_fits = vlan-VlanFits e.tuple t.sized;
  trusted = record {
    version = h.version;
    size = h.size;
    interface = h.ifindex_set;
    direction = h.direction_known;
    hook = inl h.hook_known;
    ethernet = h.ethernet;
    status = h.status_known;
    snapshot = cap;
    within = within;
    tags = t.sized.vlan_room;
    reserved = t.sized.unreserved;
    event_flags = flags;
    tuple_flags = t.flags_known;
    failed_copy = failed;
    ports_need_addresses = t.addresses;
    ports_not_fragment = t.whole;
    ports_transport = t.transport;
  };
}

IsGood-decode : (e : Event) → IsGood e → decode_event (some (store_event e)) 216 ≡ some e
IsGood-decode e g =
    let (same, size) = load_event-store_event e g.fits g.tuple_fits g.vlan_fits in
    (decode_event_iff (some (store_event e)) 216 e).1 (store_event e, refl, refl, same, g.trusted)

nothing : {e : Event} → none ≡ some e → ⊥
nothing h = cc

status_code-le : (s : ParseStatus) → status_code s ≤ 5
status_code-le s = ground arith

module _ (c : Settings) (d : Direction) (skb : Skb) (env : Env) (seq : ℕ) (status : ParseStatus)
    (t : Tuple) (v : IsSkb skb) (w : IsEnv env) (seq_word : seq < 2 ^ 64) (k : IsDescribed t) where
  header :
      (captured flags : ℕ) (prefix : List ℕ)
      → IsHeader (record (fresh_event d skb env seq status t) {
        captured_len = captured;
        flags = flags;
        prefix = prefix;
      })
  header captured flags prefix = record {
    timestamp_word = w.now_word;
    sequence_word = seq_word;
    ifindex_word = v.ifindex_word;
    ifindex_set = v.ifindex_set;
    original_len_word = v.len_word;
    cpu_word = w.cpu_word;
    version = refl;
    size = refl;
    ethernet = refl;
    direction_known = ground arith;
    hook_known = refl;
    status_known = status_code-le status;
  }

  copy_prefix-IsGood :
      (want : ℕ) (o : Option (List ℕ)) (s : Counters)
      → want ≤ 128
      → want ≤ skb.len
      → skb.load_bytes want ≡ o
      → IsGood (copy_prefix skb want (fresh_event d skb env seq status t) o s).0
  unfolding copy_prefix
  copy_prefix-IsGood want none s h h' e =
      good _ (header _ _ _) k (ground arith) refl (omega arith) (omega arith) (λ _. refl)
  copy_prefix-IsGood want (some bs) s h h' e =
      let (size, _) = v.loads want bs e in
      good _ (header _ _ _) k (ground arith) (length-copy_into bs (replicate 128 0) (omega arith))
        (omega arith) (omega arith) (λ p. absurd (ground arith))

  take_snapshot-IsGood :
      (s : Counters) → IsGood (take_snapshot c skb (fresh_event d skb env seq status t) s).0
  unfolding take_snapshot
  take_snapshot-IsGood s = elim (Bool-cases (snapshot_len c skb == 0)) [
    | inl p ↦
        rw (p, take_snapshot)
          (good _ (header _ _ _) k (ground arith) refl (omega arith) (omega arith) (λ _. refl))
    | inr p ↦
        rw (p, take_snapshot)
          (copy_prefix-IsGood (snapshot_len c skb) _ s (ground arith) (ground arith) refl)
  ]

  emit-IsGood : (s : Counters) (e : Event) → (emit c d skb env seq status t s).0 ≡ some e → IsGood e
  unfolding emit
  emit-IsGood s e h = elim (Bool-cases env.ring_room) [
    | inl p ↦ subst IsGood (some_inj (rw (p, emit) at h)) (take_snapshot-IsGood s)
    | inr p ↦ absurd (nothing (rw (p, emit) at h))
  ]

  sample-IsGood :
      (s : Counters) (e : Event) → (sample c d skb env seq status t s).0 ≡ some e → IsGood e
  unfolding sample
  sample-IsGood s e h =
      elim (Bool-cases (
        not (c.select_l4_proto == 0)
        && (not (is_ok status) || not (t.l4_proto == c.select_l4_proto)))) [
          | inl p ↦ absurd (nothing (rw (p, sample) at h))
          | inr p ↦
              elim (Bool-cases
                (c.sample_every == 0 || not (add64 s.selected 1 % c.sample_every == 0))) [
                  | inl q ↦ absurd (nothing (rw (p, q, sample) at h))
                  | inr q ↦ emit-IsGood _ e (rw (p, q, sample) at h)
                ]
        ]

  count_and_sample-IsGood :
      {F : Type 0} (table : FlowTable F) (s : Counters) (flows : F) (e : Event)
      → (count_and_sample table c d skb env s flows seq (status, t)).event ≡ some e
      → IsGood e
  unfolding count_and_sample
  count_and_sample-IsGood table s flows e h = sample-IsGood _ e h

-- Every record that the observer submits comes through the ring as it was written: its 216 bytes
-- pass the check of `DecodeEvent` and give back the same record. Premises: the widths of what the
-- kernel supplies, and that a copy out of the packet which succeeds gives the bytes asked for.
pub es_observe-decode :
    {F : Type 0} (table : FlowTable F) (c : Settings) (d : Direction) (skb : Skb) (env : Env)
    (s : Counters) (flows : F) {r : Seen F} {e : Event}
    → IsSkb skb
    → IsEnv env
    → es_observe table c d skb env (some s) flows ≡ some r
    → r.event ≡ some e
    → decode_event (some (store_event e)) 216 ≡ some e
unfolding es_observe
es_observe-decode {F} table c d skb env s flows {r} {e} v w seen submitted =
    let s' : Counters = record s { packets = add64 s.packets 1; bytes = add64 s.bytes skb.len } in
    let f = λ (r : ParseStatus × Tuple).
      count_and_sample table c d skb env (counted table c r.0 s') flows (add64 s.packets 1) r in
    let (status, t, p, k) = classify_skb-IsDescribed c skb v in
    let same : f (status, t) ≡ r = some_inj (sym (ap (Option.map f) p) ∙ seen) in
    IsGood-decode e (
      count_and_sample-IsGood c d skb env (add64 s.packets 1) status t v w (omega arith) k table _
        flows e (ap (λ (r : Seen F). r.event) same ∙ submitted))
