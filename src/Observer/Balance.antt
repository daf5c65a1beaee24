-- ===== src/Observer/Balance.antt =====
-- What sampling one packet does to the counters of its direction.
use native.Mathlib.Nat.{div-le_self}
use elephant_shrew.Prelude.{
  ℕ, ◌+◌, ◌/◌, ◌%◌, ◌^◌, ◌≤◌, ◌<◌, ◌≡◌, ◌≢◌, refl, ◌⊎◌, inl, inr, true, false, not, ◌&&◌, ◌||◌,
  List, Option, none, some, arith, add64, ◌==◌, Bool-cases,
}
use elephant_shrew.Abi.{Tuple, Event, Counters, Direction, ParseStatus}
use elephant_shrew.Observer.{
  Settings, Skb, Env, snapshot_len, fresh_event, copy_prefix, take_snapshot, emit, sample, is_ok,
}

div_next : (k n : ℕ) → n ≢ 0 → (k + 1) % n ≡ 0 → (k + 1) / n ≡ k / n + 1
div_next k n h e = let p : 0 < n = omega arith in grind arith

div_same : (k n : ℕ) → n ≢ 0 → (k + 1) % n ≢ 0 → (k + 1) / n ≡ k / n
div_same k n h e = let p : 0 < n = omega arith in grind arith

-- What holds of the counters as long as the packets have not wrapped: every `n`-th selected packet
-- became an event or was lost for want of room.
pub record IsBalanced (n : ℕ) (s : Counters) : Type 0 where
  pub sampled : s.events + s.ring_lost ≡ s.selected / n
  pub snapshots : s.snapshot_failed ≤ s.events
  pub selections : s.selected ≤ s.packets
  pub results : s.parse_partial + s.parse_malformed ≤ s.packets
  pub misses : s.flow_update_failed ≤ s.packets
  pub no_wrap : s.packets < 2 ^ 64

-- the same while a packet is under way: `owed` of its effects on the samples are still to come
pub record IsOwing (n owed : ℕ) (s : Counters) : Type 0 where
  pub sampled : s.events + s.ring_lost + owed ≡ s.selected / n
  pub snapshots : s.snapshot_failed ≤ s.events
  pub selections : s.selected ≤ s.packets
  pub results : s.parse_partial + s.parse_malformed ≤ s.packets
  pub misses : s.flow_update_failed ≤ s.packets
  pub no_wrap : s.packets < 2 ^ 64

-- how many records came out, and where the counters went
abbrev pub Emitted : ℕ → Counters → Option Event × Counters → Type 0
Emitted n s (none, s') = IsBalanced n s' × (s'.events ≡ s.events) × (s'.packets ≡ s.packets)
Emitted n s (some e, s') = IsBalanced n s' × (s'.events ≡ s.events + 1) × (s'.packets ≡ s.packets)

copy_prefix_cases :
    (skb : Skb) (want : ℕ) (e : Event) (o : Option (List ℕ)) (s : Counters)
    → ((copy_prefix skb want e o s).1 ≡ s)
      ⊎ ((copy_prefix skb want e o s).1 ≡ record s { snapshot_failed = add64 s.snapshot_failed 1 })
unfolding copy_prefix
copy_prefix_cases skb want e (some bs) s = inl refl
copy_prefix_cases skb want e none s = inr refl

take_snapshot_cases :
    (c : Settings) (skb : Skb) (e : Event) (s : Counters)
    → ((take_snapshot c skb e s).1 ≡ s)
      ⊎ ((take_snapshot c skb e s).1 ≡ record s { snapshot_failed = add64 s.snapshot_failed 1 })
unfolding take_snapshot
take_snapshot_cases c skb e s = elim (Bool-cases (snapshot_len c skb == 0)) [
  | inl p ↦ rw p (inl refl)
  | inr p ↦ rw p (copy_prefix_cases skb _ e (skb.load_bytes (snapshot_len c skb)) s)
]

module _ (c : Settings) (d : Direction) (skb : Skb) (env : Env) (seq : ℕ) (status : ParseStatus)
    (t : Tuple) where
  emit-Emitted :
      (n : ℕ) (s : Counters) → IsOwing n 1 s → Emitted n s (emit c d skb env seq status t s)
  unfolding emit
  emit-Emitted n s o = elim (Bool-cases env.ring_room) [
    | inl p ↦
        rw (p, emit)
          (elim (take_snapshot_cases c skb (fresh_event d skb env seq status t) s) [
            | inl q ↦ rw q (ground (arith, div-le_self s.selected n))
            | inr q ↦ rw q (ground (arith, div-le_self s.selected n))
          ])
    | inr p ↦ rw (p, emit) (ground (arith, div-le_self s.selected n))
  ]

  not_sampled : (n k : ℕ) → (n == 0 || not ((k + 1) % n == 0)) ≡ true → (k + 1) / n ≡ k / n
  not_sampled n k h = elim (Bool-cases (n == 0)) [
    | inl z ↦ let e : n ≡ 0 = ground arith in rw e (omega arith)
    | inr z ↦ div_same k n (ground arith) (ground arith)
  ]

  is_sampled : (n k : ℕ) → (n == 0 || not ((k + 1) % n == 0)) ≡ false → (k + 1) / n ≡ k / n + 1
  is_sampled n k h = div_next k n (ground arith) (ground arith)

  pub sample-Emitted :
      (s : Counters)
      → IsOwing c.sample_every 0 s
      → s.selected + 1 ≤ s.packets
      → Emitted c.sample_every s (sample c d skb env seq status t s)
  unfolding sample
  sample-Emitted s o h =
      let k : add64 s.selected 1 ≡ s.selected + 1 = omega arith in
      elim (Bool-cases (
        not (c.select_l4_proto == 0)
        && (not (is_ok status) || not (t.l4_proto == c.select_l4_proto)))) [
          | inl p ↦ rw (p, sample) (ground arith)
          | inr p ↦
              elim (Bool-cases
                (c.sample_every == 0 || not ((s.selected + 1) % c.sample_every == 0))) [
                  | inl q ↦
                      rw (k, p, q, sample) (ground (arith, not_sampled c.sample_every s.selected q))
                  | inr q ↦
                      let e = is_sampled c.sample_every s.selected q in
                      rw (k, p, q, sample)
                        (emit-Emitted c.sample_every (record s { selected = s.selected + 1 })
                          (ground arith))
                ]
        ]
