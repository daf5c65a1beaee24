-- ===== src/Observer/Cpus.antt =====
-- The maps of the observer over any run of packets, in both directions and on any processors. `counters` and `flows` of
-- bpf/elephantshrew_tc.bpf.c are per-CPU maps: a packet reads and writes the values of its own processor, and of the
-- counters those of its direction.
use mathlib.Core.List.{map-append}
use mathlib.Core.Path.{subst}
use elephant_shrew.Prelude.{
  ℕ, zero, suc, ◌+◌, ◌^◌, ◌≤◌, ◌<◌, ◌≡◌, refl, sym, ap, ◌∙◌, inl, inr, true, false, ◌&&◌, List, [],
  ◌∷◌, ◌++◌, map, Option, none, some, some_inj, arith, length, All, ◌==◌, if◌then◌else◌, Bool-cases,
}
use elephant_shrew.Abi.{Event, Counters, Direction, direction_code}
use elephant_shrew.Observer.{Settings, Skb, Env, FlowTable, Seen, es_observe}
use elephant_shrew.Observer.Balance.{IsBalanced}
use elephant_shrew.Observer.Sampling.{
  zero_counters, zero-IsBalanced, to_list, emitted, es_observe-IsBalanced,
}
use elephant_shrew.Observer.Submits.{es_observe-site}

-- a processor, and the key of a direction in `counters`
abbrev pub Site : Type 0
Site = ℕ × ℕ

-- the values of the maps, by processor
pub record Maps (F : Type 0) : Type 0 where
  pub counters : ℕ → ℕ → Counters
  pub flows : ℕ → F

-- what the program leaves behind on the processor `cpu`
abbrev pub store_maps : {F : Type 0} → ℕ → ℕ → Counters → F → Maps F → Maps F
store_maps cpu key s f m = record {
  counters = λ i j. if i == cpu && j == key then s else m.counters i j;
  flows = λ i. if i == cpu then f else m.flows i;
}

module _ {F : Type 0} (table : FlowTable F) where
  -- The program run on packets, one after the other, from counters at 0: where each packet came, the last one first,
  -- what the program submitted, in order, and the maps then.
  pub data Observed (c : Settings) : List Site → List Event → Maps F → Type 0 where
    start :
        (flows : ℕ → F)
        → Observed c [] [] (record { counters = λ i j. zero_counters; flows = flows })
    later :
        {ps : List Site} {es : List Event} {m : Maps F}
        → Observed c ps es m
        → (d : Direction) (skb : Skb) (env : Env) (r : Seen F) (s : Counters)
        → es_observe table c d skb env
            (some (m.counters env.cpu (direction_code d)))
            (m.flows env.cpu)
          ≡ some r
        → r.counters ≡ some s
        → Observed c
            ((env.cpu, direction_code d) ∷ ps)
            (es ++ to_list r.event)
            (store_maps env.cpu (direction_code d) s r.flows m)

-- how often a processor and direction is in a list
abbrev pub visits : ℕ → ℕ → List Site → ℕ
visits i j [] = 0
visits i j ((cpu, key) ∷ ps) = (if i == cpu && j == key then 1 else 0) + visits i j ps

-- where a record says that it was made
abbrev pub site_of : Event → Site
site_of e = (e.cpu, e.direction)

visits-append :
    (i j : ℕ) (xs ys : List Site) → visits i j (xs ++ ys) ≡ visits i j xs + visits i j ys
visits-append i j [] ys = omega arith
visits-append i j ((cpu, key) ∷ xs) ys = omega (arith, visits-append i j xs ys)

visits-submitted :
    (i j cpu key : ℕ) (o : Option Event)
    → ((e : Event) → o ≡ some e → site_of e ≡ (cpu, key))
    → visits i j (map site_of (to_list o)) ≡ (if i == cpu && j == key then emitted o else 0)
visits-submitted i j cpu key none h = elim (Bool-cases (i == cpu && j == key)) [
  | inl p ↦ rw p
  | inr p ↦ rw p
]
visits-submitted i j cpu key (some e) h =
    let one = ap (λ (s : Site). visits i j (s ∷ [])) (h e refl) in
    elim (Bool-cases (i == cpu && j == key)) [ inl p ↦ one ∙ rw p | inr p ↦ one ∙ rw p ]

visits-le : (i j : ℕ) (ps : List Site) → visits i j ps ≤ length ps
visits-le i j [] = omega arith
visits-le i j ((cpu, key) ∷ ps) =
    let rest = visits-le i j ps in
    elim (Bool-cases (i == cpu && j == key)) [
      | inl p ↦ rw p (omega arith)
      | inr p ↦ rw p (omega arith)
    ]

same_site : (i a j b : ℕ) → (i == a && j == b) ≡ true → (i ≡ a) × (j ≡ b)
same_site i a j b h = ground arith

-- After fewer than 2 ^ 64 packets, in both directions and on any processors, from counters at 0: the counters of each
-- processor and direction are balanced, its packet counter is the number of packets that came there, and its event
-- counter that of the submitted records that say they come from there.
pub Observed-IsBalanced :
    {F : Type 0} (table : FlowTable F) {c : Settings} {ps : List Site} {es : List Event}
    {m : Maps F} (i j : ℕ)
    → Observed table c ps es m
    → length ps < 2 ^ 64
    → IsBalanced c.sample_every (m.counters i j)
      × ((m.counters i j).packets ≡ visits i j ps)
      × ((m.counters i j).events ≡ visits i j (map site_of es))
Observed-IsBalanced table {c} i j (start flows) h = (zero-IsBalanced c.sample_every, refl, refl)
Observed-IsBalanced table {c} i j (later {ps} {es} {m} o d skb env r s e u) h =
    let key = direction_code d in
    let (b, p, q) = Observed-IsBalanced table i j o (omega arith) in
    let there =
      visits-submitted i j env.cpu key r.event
        (λ x y. es_observe-site table c d skb env (m.counters env.cpu key) (m.flows env.cpu) e y) in
    let all =
      ap (visits i j) (map-append site_of es (to_list r.event))
      ∙ visits-append i j (map site_of es) (map site_of (to_list r.event)) in
    elim (Bool-cases (i == env.cpu && j == key)) [
      | inr k ↦
          let none_there : visits i j (map site_of (to_list r.event)) ≡ 0 = there ∙ rw k in
          rw k (b, omega (arith, p), omega (arith, q, all, none_there))
      | inl k ↦
          let (at_cpu, at_key) = same_site i env.cpu j key k in
          let (b', p', q') = Observed-IsBalanced table env.cpu key o (omega arith) in
          let (v, (s', u', b'', p'', q'')) =
            es_observe-IsBalanced table c d skb env (m.counters env.cpu key) (m.flows env.cpu) b'
              (omega (arith, p', visits-le env.cpu key ps)) e in
          let same : s' ≡ s = some_inj (sym u' ∙ u) in
          let came : visits i j ps ≡ visits env.cpu key ps = λ t. visits (at_cpu t) (at_key t) ps in
          let made : visits i j (map site_of es) ≡ visits env.cpu key (map site_of es) =
            λ t. visits (at_cpu t) (at_key t) (map site_of es) in
          let submitted : visits i j (map site_of (to_list r.event)) ≡ emitted r.event =
            there ∙ rw k in
          rw k (
            subst (IsBalanced c.sample_every) same b'',
            subst (λ (x : Counters). x.packets ≡ 1 + visits i j ps) same
                (omega (arith, p'', p', came)),
            subst (λ (x : Counters). x.events ≡ visits i j (map site_of (es ++ to_list r.event)))
                same (omega (arith, q'', q', all, made, submitted)),
          )
    ]

-- over the processors below `n`
abbrev pub sum : ℕ → (ℕ → ℕ) → ℕ
sum zero f = 0
sum (suc n) f = sum n f + f n

-- a counter, over the processors below `n` and both directions
abbrev pub total : {F : Type 0} → ℕ → (Counters → ℕ) → Maps F → ℕ
total n f m = sum n (λ i. f (m.counters i 0) + f (m.counters i 1))

sum-same : (n : ℕ) (f g : ℕ → ℕ) → ((i : ℕ) → i < n → f i ≡ g i) → sum n f ≡ sum n g
sum-same zero f g h = refl
sum-same (suc n) f g h =
    let first = sum-same n f g (λ i k. h i (omega arith)) in
    let last = h n (omega arith) in omega arith

-- one more at `a`
sum-one :
    (n a : ℕ) (f g : ℕ → ℕ)
    → a < n
    → ((i : ℕ) → f i ≡ (if i == a then 1 else 0) + g i)
    → sum n f ≡ suc (sum n g)
sum-one zero a f g h e = absurd (omega arith)
sum-one (suc n) a f g h e = elim (Bool-cases (n == a)) [
  | inl p ↦
      let others =
        sum-same n f g
          (λ i k. let far : (i == a) ≡ false = ground arith in e i ∙ rw far (omega arith)) in
      let here : f n ≡ 1 + g n = e n ∙ rw p in omega arith
  | inr p ↦
      let others = sum-one n a f g (ground arith) e in
      let here : f n ≡ g n = e n ∙ rw p (omega arith) in omega arith
]

-- a processor below `n`, and a direction
abbrev pub IsSite : ℕ → Site → Type 0
IsSite n s = (s.0 < n) × (s.1 < 2)

-- the visits of all processors and directions
sum-visits :
    (n : ℕ) (ps : List Site)
    → All (IsSite n) ps
    → sum n (λ i. visits i 0 ps + visits i 1 ps) ≡ length ps
sum-visits n [] h = none_at_all n
  where
    none_at_all : (n : ℕ) → sum n (λ i. 0) ≡ 0
    none_at_all zero = refl
    none_at_all (suc n) = omega (arith, none_at_all n)
sum-visits n ((cpu, key) ∷ ps) ((small, kind), h) =
    sum-one n cpu (λ i. visits i 0 ((cpu, key) ∷ ps) + visits i 1 ((cpu, key) ∷ ps))
      (λ i. visits i 0 ps + visits i 1 ps) small (λ i. ground arith)
    ∙ ap suc (sum-visits n ps h)

length-map : {A B : Type 0} (f : A → B) (xs : List A) → length (map f xs) ≡ length xs
length-map f [] = refl
length-map f (x ∷ xs) = ap suc (length-map f xs)

-- Over all processors the packets are counted, and the records.
pub Observed-total :
    {F : Type 0} (table : FlowTable F) {c : Settings} {ps : List Site} {es : List Event}
    {m : Maps F} (n : ℕ)
    → Observed table c ps es m
    → length ps < 2 ^ 64
    → All (IsSite n) ps
    → All (IsSite n) (map site_of es)
    → (total n (λ s. s.packets) m ≡ length ps) × (total n (λ s. s.events) m ≡ length es)
Observed-total table {c} {ps} {es} {m} n o h sites origins = (
  sum-same n _ (λ i. visits i 0 ps + visits i 1 ps)
        (λ i _.
          λ t. (Observed-IsBalanced table i 0 o h).1 t + (Observed-IsBalanced table i 1 o h).1 t)
      ∙ sum-visits n ps sites,
  sum-same n _ (λ i. visits i 0 (map site_of es) + visits i 1 (map site_of es))
        (λ i _.
          λ t. (Observed-IsBalanced table i 0 o h).2 t + (Observed-IsBalanced table i 1 o h).2 t)
      ∙ (sum-visits n (map site_of es) origins ∙ length-map site_of es),
)
