-- ===== src/Observer/Described.antt =====
-- What the observer knows of every packet that it classifies.
use mathlib.Core.Option
use elephant_shrew.Prelude.{
  ℕ, zero, suc, drop, ◌%◌, ◌^◌, ◌≤◌, ◌<◌, ◌≡◌, ◌≢◌, ◌⊎◌, refl, ap, inl, inr, true, false, not, ◌||◌,
  List, [], ◌∷◌, Option, none, some, arith, length, replicate, IsBytes, All-append, add64, ltb,
  ◌==◌, if◌then◌else◌, Bool-cases, has_flag,
}
use elephant_shrew.Abi.{
  Tuple, zero_tuple, Counters, Direction, ParseStatus, truncated, skipped, t_addr_valid,
  t_ports_valid, t_fragment,
}
use elephant_shrew.Parser.{es_parse, clip}
use elephant_shrew.Parser.Shape.{Sized, length-copy_into}
use elephant_shrew.Parser.Guarantees.{es_parse_total, es_parse-Sized, es_parse-ports}
use elephant_shrew.Observer.{
  Settings, Skb, Env, FlowTable, Seen, buffer, buffer_of, parse_loaded, classify_skb,
  count_and_sample, counted, es_observe,
}

-- The kernel's side: lengths and indices are 32 bits wide, an interface has an index, and a copy
-- that succeeds gives the bytes that were asked for.
pub record IsSkb (skb : Skb) : Type 0 where
  pub len_word : skb.len < 2 ^ 32
  pub ifindex_word : skb.ifindex < 2 ^ 32
  pub ifindex_set : skb.ifindex ≢ 0
  pub loads : (n : ℕ) (bs : List ℕ) → skb.load_bytes n ≡ some bs → (length bs ≡ n) × IsBytes bs

pub record IsEnv (env : Env) : Type 0 where
  pub now_word : env.now < 2 ^ 64
  pub cpu_word : env.cpu < 2 ^ 32

-- what a classified packet's tuple is known to be
pub record IsDescribed (t : Tuple) : Type 0 where
  pub sized : Sized t
  pub flags_known : t.flags < 16
  pub addresses : has_flag t.flags t_ports_valid ≡ true → has_flag t.flags t_addr_valid ≡ true
  pub whole : has_flag t.flags t_ports_valid ≡ true → has_flag t.flags t_fragment ≡ false
  pub transport : has_flag t.flags t_ports_valid ≡ true → (t.l4_proto ≡ 6) ⊎ (t.l4_proto ≡ 17)

pub zero-IsDescribed : IsDescribed zero_tuple
zero-IsDescribed = record {
  sized = ground arith;
  flags_known = omega arith;
  addresses = λ h. absurd (ground arith);
  whole = λ h. refl;
  transport = λ h. absurd (ground arith);
}

All-drop : (n : ℕ) (xs : List ℕ) → IsBytes xs → IsBytes (drop n xs)
All-drop zero xs h = h
All-drop (suc n) [] h = h
All-drop (suc n) (x ∷ xs) h = All-drop n xs h.1

buffer_lem :
    (bs : List ℕ)
    → length bs ≤ 128
    → IsBytes bs
    → (length (buffer_of bs) ≡ 128) × IsBytes (buffer_of bs)
unfolding buffer_of
buffer_lem bs h k = (
  length-copy_into bs (replicate 128 0) h,
  All-append (λ b. b < 256) bs _ k (All-drop (length bs) (replicate 128 0) (omega arith)),
)

-- a copy of 128 bytes at most does not run past the array
pub buffer_fits : (bs : List ℕ) → length bs ≤ 128 → buffer bs ≡ some (buffer_of bs)
unfolding buffer
buffer_fits bs h = let few : ltb 128 (length bs) ≡ false = ground arith in rw few

module _ (c : Settings) (skb : Skb) (v : IsSkb skb) where
  parsed :
      (bs : List ℕ) (cap : ℕ)
      → cap ≤ 128
      → skb.load_bytes cap ≡ some bs
      → (status : ParseStatus) × (t : Tuple) × (es_parse
            (buffer_of bs)
            cap
            skb.len
            skb.vlan_present
            (skb.vlan_tci % 2 ^ 16)
          ≡ some (status, t))
        × IsDescribed t
  parsed bs cap h e =
      let (size, octets) = v.loads cap bs e in
      let (len, octets') = buffer_lem bs (omega arith) octets in
      let fits : clip cap skb.len ≤ length (buffer_of bs) = ground arith in
      let small : cap < 2 ^ 32 = omega arith in
      let (r, p) =
        es_parse_total (buffer_of bs) cap skb.len skb.vlan_present (skb.vlan_tci % 2 ^ 16) octets'
          fits small v.len_word in
      let (sized, known, _) =
        es_parse-Sized (buffer_of bs) cap skb.len skb.vlan_present (skb.vlan_tci % 2 ^ 16) octets'
          fits small v.len_word p in
      let ports =
        es_parse-ports (buffer_of bs) cap skb.len skb.vlan_present (skb.vlan_tci % 2 ^ 16) octets'
          fits small v.len_word p in
      (
        r.0,
        r.1,
        p,
        record {
          sized = sized;
          flags_known = known;
          addresses = λ h. (ports h).1;
          whole = λ h. (ports h).2;
          transport = λ h. (ports h).3;
        },
      )

  pub parse_loaded-IsDescribed :
      (cap : ℕ) (o : Option (List ℕ))
      → cap ≤ 128
      → skb.load_bytes cap ≡ o
      → (status : ParseStatus) × (t : Tuple) × (parse_loaded skb cap o ≡ some (status, t))
        × IsDescribed t
  unfolding parse_loaded
  parse_loaded-IsDescribed cap none h e = (truncated, zero_tuple, refl, zero-IsDescribed)
  parse_loaded-IsDescribed cap (some bs) h e =
      let (status, t, p, k) = parsed bs cap h e in
      let fits = buffer_fits bs (omega (arith, (v.loads cap bs e).0)) in
      (status, t, rw (parse_loaded, fits) p, k)

  pub classify_skb-IsDescribed :
      (status : ParseStatus) × (t : Tuple) × (classify_skb c skb ≡ some (status, t)) × IsDescribed t
  unfolding classify_skb
  classify_skb-IsDescribed =
      let cap : ℕ = if ltb 128 skb.len then 128 else skb.len in
      elim (Bool-cases (c.classify || c.flow_enabled || not (c.select_l4_proto == 0))) [
        | inl p ↦ elim (Bool-cases (cap == 0)) [
          | inl q ↦ (truncated, zero_tuple, rw (p, q, classify_skb), zero-IsDescribed)
          | inr q ↦
              let (status, t, e, k) =
                parse_loaded-IsDescribed cap (skb.load_bytes cap) (ground arith) refl in
              (status, t, rw (p, q, classify_skb) e, k)
        ]
        | inr p ↦ (skipped, zero_tuple, rw (p, classify_skb), zero-IsDescribed)
      ]

  -- Where the packet's fields have their widths and a load that succeeds gives the bytes asked for,
  -- the program returns for every packet: the copy of its start stays within the array on the stack, and the
  -- parser does not read past what was copied.
  pub es_observe_total :
      {F : Type 0} (table : FlowTable F) (d : Direction) (env : Env) (s : Option Counters)
      (flows : F)
      → (r : Seen F) × (es_observe table c d skb env s flows ≡ some r)
  unfolding es_observe
  es_observe_total table d env none flows = (_, refl)
  es_observe_total table d env (some s) flows =
      let s' : Counters = record s { packets = add64 s.packets 1; bytes = add64 s.bytes skb.len } in
      let f = λ (r : ParseStatus × Tuple).
        count_and_sample table c d skb env (counted table c r.0 s') flows (add64 s.packets 1) r in
      let (status, t, e, _) = classify_skb-IsDescribed in (f (status, t), ap (Option.map f) e)
