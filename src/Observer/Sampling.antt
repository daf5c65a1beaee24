-- ===== src/Observer/Sampling.antt =====
-- The counters of one processor and direction over one packet.
use native.Mathlib.Nat.{zero-div}
use mathlib.Core.Path.{subst}
use elephant_shrew.Prelude.{
  ℕ, ◌+◌, ◌^◌, ◌≤◌, ◌<◌, ◌≡◌, refl, ◌⊎◌, inl, inr, not, ◌&&◌, ◌||◌, List, [], ◌∷◌, Option, none,
  some, arith, add64, ◌==◌, Bool-cases, Option-cases, has_flag, some_inj,
}
use elephant_shrew.Abi.{
  Tuple, Event, Counters, Direction, tc_next, ParseStatus, parse_ok, malformed, FlowKey, FlowValue,
  t_ports_valid,
}
use elephant_shrew.Observer.Balance.{IsBalanced, IsOwing, Emitted, sample-Emitted}
use elephant_shrew.Observer.{
  Settings, Skb, Env, FlowTable, Seen, is_ok, touch_found, touch_or_insert, es_count_flow,
  count_and_sample, classify_skb, count_status, counted, es_observe,
}

abbrev pub emitted : Option Event → ℕ
emitted none = 0
emitted (some e) = 1

abbrev pub to_list : Option Event → List Event
to_list none = []
to_list (some e) = e ∷ []

abbrev pub zero_counters : Counters
zero_counters = record {
  packets = 0;
  bytes = 0;
  selected = 0;
  events = 0;
  ring_lost = 0;
  parse_partial = 0;
  parse_malformed = 0;
  snapshot_failed = 0;
  flow_update_failed = 0;
  policy_drop = 0;
  mirror_attempt = 0;
  mirror_error = 0;
  redirect_attempt = 0;
}

pub zero-IsBalanced : (n : ℕ) → IsBalanced n zero_counters
zero-IsBalanced n = record {
  sampled = omega (arith, zero-div n);
  snapshots = omega arith;
  selections = omega arith;
  results = omega arith;
  misses = omega arith;
  no_wrap = omega arith;
}

module _ {F : Type 0} (table : FlowTable F) where
  es_count_flow_cases :
      (d : Direction) (skb : Skb) (t : Tuple) (s : Counters) (flows : F) (now : ℕ)
      → ((es_count_flow table d skb t s flows now).0 ≡ s)
        ⊎ ((es_count_flow table d skb t s flows now).0
            ≡ record s { flow_update_failed = add64 s.flow_update_failed 1 })
  unfolding es_count_flow
  es_count_flow_cases d skb t s flows now = elim (Bool-cases (has_flag t.flags t_ports_valid)) [
    | inl p ↦ rw p (or_insert _ (table.lookup _ flows))
    | inr p ↦ rw p (inl refl)
  ]
    where
      found :
          (key : FlowKey) (flows : F) (o : Option FlowValue)
          → ((touch_found table key now skb.len s flows o).0 ≡ s)
            ⊎ ((touch_found table key now skb.len s flows o).0
                ≡ record s { flow_update_failed = add64 s.flow_update_failed 1 })
      found key flows none = inr refl
      found key flows (some f) = inl refl

      or_insert :
          (key : FlowKey) (o : Option FlowValue)
          → ((touch_or_insert table key now skb.len s flows o).0 ≡ s)
            ⊎ ((touch_or_insert table key now skb.len s flows o).0
                ≡ record s { flow_update_failed = add64 s.flow_update_failed 1 })
      or_insert key none = found key _ _
      or_insert key (some f) = inl refl

  -- between the first two counters and the sampling: a packet that is counted and not yet selected
  abbrev Pending : ℕ → Counters → Counters → Type 0
  Pending n s s' =
      IsOwing n 0 s'
      × (s'.selected + 1 ≤ s'.packets)
      × (s'.packets ≡ s.packets + 1)
      × (s'.events ≡ s.events)

  count_status-Pending :
      (n : ℕ) (status : ParseStatus) (s s' : Counters)
      → Pending n s s'
      → s'.parse_partial + s'.parse_malformed + 1 ≤ s'.packets
      → s'.flow_update_failed + 1 ≤ s'.packets
      → let s'' = count_status status s' in
        Pending n s s'' × (s''.flow_update_failed + 1 ≤ s''.packets)
  unfolding count_status
  count_status-Pending n malformed s s' (o, k, l, m) h h' = ground arith
  count_status-Pending n parse_ok s s' (o, k, l, m) h h' = ground arith
  count_status-Pending n _ s s' (o, k, l, m) h h' = ground arith

  counted-Pending :
      (c : Settings) (status : ParseStatus) (s : Counters) (len : ℕ)
      → IsBalanced c.sample_every s
      → s.packets + 1 < 2 ^ 64
      → let s' =
          counted table c status
            (record s { packets = add64 s.packets 1; bytes = add64 s.bytes len }) in
        Pending c.sample_every s s' × (s'.flow_update_failed + 1 ≤ s'.packets)
  counted-Pending c status s len b h =
      elim (Bool-cases (c.classify || c.flow_enabled || not (c.select_l4_proto == 0))) [
        | inl p ↦ rw p (
            count_status-Pending c.sample_every status s _ (ground arith) (ground arith)
              (ground arith))
        | inr p ↦ rw p (ground arith)
      ]

  -- what a packet that was seen leaves behind
  abbrev pub Step : ℕ → Counters → Seen F → Type 0
  Step n s r =
      (r.verdict ≡ tc_next)
      × ((s' : Counters) × (r.counters ≡ some s')
          × IsBalanced n s'
          × (s'.packets ≡ s.packets + 1)
          × (s'.events ≡ s.events + emitted r.event))

  Emitted-Step :
      (n : ℕ) (s u : Counters) (flows : F) (r : Option Event × Counters)
      → Emitted n u r
      → u.packets ≡ s.packets + 1
      → u.events ≡ s.events
      → Step n s (record { verdict = tc_next; counters = some r.1; flows = flows; event = r.0 })
  Emitted-Step n s u flows (none, s') (b, e, p) hp he =
      (refl, (s', refl, b, omega arith, omega arith))
  Emitted-Step n s u flows (some ev, s') (b, e, p) hp he =
      (refl, (s', refl, b, omega arith, omega arith))

  flow-Pending :
      (n : ℕ) (d : Direction) (skb : Skb) (t : Tuple) (s s' : Counters) (flows : F) (now : ℕ)
      → Pending n s s'
      → s'.flow_update_failed + 1 ≤ s'.packets
      → Pending n s (es_count_flow table d skb t s' flows now).0
  flow-Pending n d skb t s s' flows now (o, k, l, m) h =
      elim (es_count_flow_cases d skb t s' flows now) [
        | inl p ↦ rw p (o, k, l, m)
        | inr p ↦ rw p (ground arith)
      ]

  count_and_sample-Step :
      (c : Settings) (d : Direction) (skb : Skb) (env : Env) (s s' : Counters) (flows : F) (seq : ℕ)
      (r : ParseStatus × Tuple)
      → Pending c.sample_every s s'
      → s'.flow_update_failed + 1 ≤ s'.packets
      → Step c.sample_every s (count_and_sample table c d skb env s' flows seq r)
  unfolding count_and_sample
  count_and_sample-Step c d skb env s s' flows seq (status, t) (o, k, l, m) h =
      let n = c.sample_every in
      let v = es_count_flow table d skb t s' flows env.now in
      let u = flow-Pending n d skb t s s' flows env.now (o, k, l, m) h in
      elim (Bool-cases (c.flow_enabled && is_ok status)) [
        | inl p ↦
            rw (p, count_and_sample)
              (Emitted-Step n s v.0 v.1 _ (sample-Emitted c d skb env seq status t v.0 u.0 u.1) u.2
                u.3)
        | inr p ↦
            rw (p, count_and_sample)
              (Emitted-Step n s s' flows _ (sample-Emitted c d skb env seq status t s' o k) l m)
      ]

  -- A packet that is seen is let through, is counted once, and leaves the counters balanced: with
  -- `sample_every` at `n`, records submitted and records lost make up one in `n` of the packets
  -- selected; `events` counts the records submitted. Premises: the counters were balanced, and
  -- the packet counter does not wrap.
  pub es_observe-IsBalanced :
      (c : Settings) (d : Direction) (skb : Skb) (env : Env) (s : Counters) (flows : F) {r : Seen F}
      → IsBalanced c.sample_every s
      → s.packets + 1 < 2 ^ 64
      → es_observe table c d skb env (some s) flows ≡ some r
      → Step c.sample_every s r
  unfolding es_observe
  es_observe-IsBalanced c d skb env s flows {r} b h e = elim (Option-cases (classify_skb c skb)) [
    | inl p ↦ absurd (ground arith)
    | inr ((status, t), p) ↦
        let (u, k) = counted-Pending c status s skb.len b h in
        subst (Step c.sample_every s) (some_inj (rw p at e))
          (count_and_sample-Step c d skb env s _ flows _ (status, t) u k)
  ]
