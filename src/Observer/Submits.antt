-- ===== src/Observer/Submits.antt =====
-- What a submitted record says of its packet.
use mathlib.Core.Path.{subst}
use elephant_shrew.Prelude.{
  ℕ, ◌%◌, ◌^◌, ◌+◌, ◌≤◌, ◌<◌, ◌≡◌, refl, sym, ap, ◌∙◌, inl, inr, true, false, not, ◌&&◌, ◌||◌, List,
  [], Option, none, some, arith, length, add64, ltb, ◌==◌, if◌then◌else◌, Bool-cases, Option-cases,
  some_inj,
}
use elephant_shrew.Abi.{
  Tuple, Event, Counters, Direction, direction_code, ParseStatus, parse_ok, parse_bytes,
  status_code,
}
use elephant_shrew.Abi.Layout.{store_event}
use elephant_shrew.Decoder.{decode_event}
use elephant_shrew.Parser.{clip}
use elephant_shrew.Parser.Wire.Frame.{Frame, IsFrame, stripped_vids, tuple_of, es_parse-IsFrame}
use elephant_shrew.Observer.{
  Settings, Skb, Env, FlowTable, Seen, buffer_of, parse_loaded, classify_skb, snapshot_len,
  fresh_event, copy_prefix, take_snapshot, is_ok, emit, sample, count_and_sample, es_observe,
}
use elephant_shrew.Observer.Described.{IsSkb, IsEnv, buffer_fits}
use elephant_shrew.Observer.Emits.{es_observe-decode}

-- the record without what the snapshot writes
abbrev pub core : Event → Event
core e = record e { captured_len = 0; flags = 0; prefix = [] }

nothing : {e : Event} → none ≡ some e → ⊥
nothing h = cc

module _ (c : Settings) (d : Direction) (skb : Skb) (env : Env) (seq : ℕ) (status : ParseStatus)
    (t : Tuple) where
  copy_prefix-core :
      (want : ℕ) (o : Option (List ℕ)) (e : Event) (s : Counters)
      → core (copy_prefix skb want e o s).0 ≡ core e
  unfolding copy_prefix
  copy_prefix-core want none e s = refl
  copy_prefix-core want (some bs) e s = refl

  take_snapshot-core : (e : Event) (s : Counters) → core (take_snapshot c skb e s).0 ≡ core e
  unfolding take_snapshot
  take_snapshot-core e s = elim (Bool-cases (snapshot_len c skb == 0)) [
    | inl p ↦ rw (p, take_snapshot) refl
    | inr p ↦ rw (p, take_snapshot) (copy_prefix-core (snapshot_len c skb) _ e s)
  ]

  emit-core :
      (s : Counters) (e : Event)
      → (emit c d skb env seq status t s).0 ≡ some e
      → core e ≡ core (fresh_event d skb env seq status t)
  unfolding emit
  emit-core s e h = elim (Bool-cases env.ring_room) [
    | inl p ↦ sym (ap core (some_inj (rw (p, emit) at h))) ∙ take_snapshot-core _ s
    | inr p ↦ absurd (nothing (rw (p, emit) at h))
  ]

  sample-core :
      (s : Counters) (e : Event)
      → (sample c d skb env seq status t s).0 ≡ some e
      → core e ≡ core (fresh_event d skb env seq status t)
  unfolding sample
  sample-core s e h =
      elim (Bool-cases (
        not (c.select_l4_proto == 0)
        && (not (is_ok status) || not (t.l4_proto == c.select_l4_proto)))) [
          | inl p ↦ absurd (nothing (rw (p, sample) at h))
          | inr p ↦
              elim (Bool-cases
                (c.sample_every == 0 || not (add64 s.selected 1 % c.sample_every == 0))) [
                  | inl q ↦ absurd (nothing (rw (p, q, sample) at h))
                  | inr q ↦ emit-core _ e (rw (p, q, sample) at h)
                ]
        ]

module _ {F : Type 0} (table : FlowTable F) (c : Settings) (d : Direction) (skb : Skb) (env : Env)
    (s : Counters) (flows : F) {r : Seen F} {e : Event}
    (seen : es_observe table c d skb env (some s) flows ≡ some r)
    (submitted : r.event ≡ some e) where
  -- A submitted record is that of its packet, parsed: the interface, the length, the time, the direction, the number
  -- of the packet, the status and the tuple.
  pub es_observe-core :
      {status : ParseStatus} {t : Tuple}
      → classify_skb c skb ≡ some (status, t)
      → core e ≡ core (fresh_event d skb env (add64 s.packets 1) status t)
  unfolding es_observe count_and_sample
  es_observe-core {status} {t} p =
      sample-core c d skb env (add64 s.packets 1) status t _ e
        (ap (λ (r : Seen F). r.event) (some_inj (rw p at seen)) ∙ submitted)

  placed :
      (e.ifindex ≡ skb.ifindex) × (◌≡◌ {A = ℕ × ℕ} (e.cpu, e.direction) (env.cpu, direction_code d))
  unfolding es_observe
  placed = elim (Option-cases (classify_skb c skb)) [
    | inl p ↦ absurd (unseen (rw (p, es_observe) at seen))
    | inr ((status, t), p) ↦
        let same = es_observe-core p in
        (ap (λ (x : Event). x.ifindex) same, ap (λ (x : Event). the_site x) same)
  ]
    where
      the_site : Event → ℕ × ℕ
      the_site x = (x.cpu, x.direction)

      unseen : none ≡ some r → ⊥
      unseen h = cc

  pub es_observe-ifindex : e.ifindex ≡ skb.ifindex
  es_observe-ifindex = placed.0

  -- the processor and the direction that the record names
  pub es_observe-site : ◌≡◌ {A = ℕ × ℕ} (e.cpu, e.direction) (env.cpu, direction_code d)
  es_observe-site = placed.1

-- how many bytes of a packet the parser is given
abbrev pub parsed_bytes : Skb → ℕ
parsed_bytes skb = if ltb parse_bytes skb.len then parse_bytes else skb.len

parsed_bytes_le : (skb : Skb) → parsed_bytes skb ≤ 128
parsed_bytes_le skb = ground arith

clip_lem : (skb : Skb) → clip (parsed_bytes skb) skb.len ≡ parsed_bytes skb
clip_lem skb = ground arith

-- the tags that the card has stripped
abbrev pub skb_vids : Skb → List ℕ
skb_vids skb = stripped_vids skb.vlan_present (skb.vlan_tci % 2 ^ 16)

classify_skb-IsFrame :
    (c : Settings) (skb : Skb) (bs : List ℕ) (f : Frame)
    → c.classify ≡ true
    → skb.len < 2 ^ 32
    → length bs ≤ 128
    → skb.load_bytes (parsed_bytes skb) ≡ some bs
    → IsFrame (buffer_of bs) (parsed_bytes skb) skb.len f
    → length (skb_vids skb) + length f.vids ≤ 2
    → classify_skb c skb ≡ some (parse_ok, tuple_of (skb_vids skb) f)
unfolding classify_skb parse_loaded
classify_skb-IsFrame c skb bs f on word short loaded v few =
    let some_bytes : (parsed_bytes skb == 0) ≡ false = ground (arith, v.ethernet) in
    let parsed =
      es_parse-IsFrame (buffer_of bs) (parsed_bytes skb) skb.len skb.vlan_present
        (skb.vlan_tci % 2 ^ 16) f
        (subst (λ n. IsFrame (buffer_of bs) n skb.len f) (sym (clip_lem skb)) v) few word in
    rw (classify_skb, on, some_bytes, loaded, buffer_fits bs short, parsed)

-- A record that the program submits for a frame of ARP or IP behind at most two VLAN tags, while it classifies,
-- reaches user space with what is on the wire: its 216 bytes pass the check of `DecodeEvent`, the record then has the status `ES_PARSE_OK`,
-- exactly the frame's fields, and the interface and the length of the packet. Premises: the widths of what the kernel
-- supplies, the bytes that its copy gives, and that these hold the frame's headers.
pub es_observe-IsFrame :
    {F : Type 0} (table : FlowTable F) (c : Settings) (d : Direction) (skb : Skb) (env : Env)
    (s : Counters) (flows : F) (bs : List ℕ) (f : Frame) {r : Seen F} {e : Event}
    → IsSkb skb
    → IsEnv env
    → c.classify ≡ true
    → skb.load_bytes (parsed_bytes skb) ≡ some bs
    → IsFrame (buffer_of bs) (parsed_bytes skb) skb.len f
    → length (skb_vids skb) + length f.vids ≤ 2
    → es_observe table c d skb env (some s) flows ≡ some r
    → r.event ≡ some e
    → (decode_event (some (store_event e)) 216 ≡ some e)
      × (e.parse_status ≡ status_code parse_ok)
      × (e.tuple ≡ tuple_of (skb_vids skb) f)
      × (e.ifindex ≡ skb.ifindex)
      × (e.original_len ≡ skb.len)
es_observe-IsFrame table c d skb env s flows bs f {r} {e} v w on loaded frame few seen submitted =
    let same = es_observe-core table c d skb env s flows seen submitted (
      classify_skb-IsFrame c skb bs f on v.len_word
        (omega (arith, (v.loads (parsed_bytes skb) bs loaded).0, parsed_bytes_le skb)) loaded frame
        few) in
    (
      es_observe-decode table c d skb env s flows v w seen submitted,
      ap (λ (x : Event). x.parse_status) same,
      ap (λ (x : Event). x.tuple) same,
      ap (λ (x : Event). x.ifindex) same,
      ap (λ (x : Event). x.original_len) same,
    )
