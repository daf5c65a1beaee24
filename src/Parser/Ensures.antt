-- ===== src/Parser/Ensures.antt =====
-- What a parsing step guarantees: it does not fault, a value that it goes on with has `P`, and an
-- early return has `Q`. One rule for each way to build a step.
use elephant_shrew.Prelude.{
  ℕ, ◌+◌, ◌^◌, ◌≤◌, ◌<◌, ◌≡◌, refl, ◌⊎◌, inl, inr, Bool, true, false, List, some, arith, length,
  get_elem?-some, All-get_elem?, IsBytes, take, drop, length-take, length-drop, leb, if◌then◌else◌,
}
use elephant_shrew.Abi.{Tuple, ParseStatus, parse_ok, truncated, malformed}
use elephant_shrew.Parser.{es_need}
use elephant_shrew.Parser.Reader.{Parsed, next, stop, ◌>>=◌, check, byte, es_be16, slice, outcome}

pub data Ensures {A : Type 0} (P : A → Type 0) (Q : ParseStatus → Tuple → Type 0)
    : Parsed A → Type 0 where
  goes : {a : A} → P a → Ensures P Q (next a)
  stops : {s : ParseStatus} {t : Tuple} → Q s t → Ensures P Q (stop s t)

module _ {A B : Type 0} {P : A → Type 0} {R : B → Type 0} {Q : ParseStatus → Tuple → Type 0} where
  pub Ensures-bind :
      {m : Parsed A} (f : A → Parsed B)
      → Ensures P Q m
      → ((a : A) → P a → Ensures R Q (f a))
      → Ensures R Q (m >>= f)
  unfolding ◌>>=◌
  Ensures-bind f (goes {a} h) k = k a h
  Ensures-bind f (stops h) k = stops h

module _ {A : Type 0} {P : A → Type 0} {Q : ParseStatus → Tuple → Type 0} where
  pub Ensures-if :
      (b : Bool) {m n : Parsed A}
      → (b ≡ true → Ensures P Q m)
      → (b ≡ false → Ensures P Q n)
      → Ensures P Q (if b then m else n)
  Ensures-if true km kn = km refl
  Ensures-if false km kn = kn refl

  pub Ensures-weaken :
      {P' : A → Type 0} {m : Parsed A} → ((a : A) → P a → P' a) → Ensures P Q m → Ensures P' Q m
  Ensures-weaken k (goes {a} h) = goes (k a h)
  Ensures-weaken k (stops h) = stops h

abbrev pub Outcome : (ParseStatus → Tuple → Type 0) → ParseStatus × Tuple → Type 0
Outcome Q r = Q r.0 r.1

-- A computation with a guarantee has an outcome, and the outcome has it.
pub Ensures-outcome :
    {Q : ParseStatus → Tuple → Type 0} {m : Parsed (ParseStatus × Tuple)}
    → Ensures (Outcome Q) Q m
    → (s : ParseStatus) × (t : Tuple) × (outcome m ≡ some (s, t)) × Q s t
unfolding outcome
Ensures-outcome (goes {a} h) = (a.0, a.1, refl, h)
Ensures-outcome (stops {s} {t} h) = (s, t, refl, h)

es_need-cases :
    (off n cap end : ℕ)
    → cap < 2 ^ 32
    → end < 2 ^ 32
    → (es_need off n cap end ≡ malformed)
      ⊎ (((es_need off n cap end ≡ truncated) × (cap < end))
          ⊎ ((es_need off n cap end ≡ parse_ok) × ((off + n ≤ end) × (off + n ≤ cap))))
unfolding es_need
es_need-cases off n cap end hc he = ground arith

module _ {Q : ParseStatus → Tuple → Type 0} where
  -- After `if (rc) return rc;` the `n` bytes at `off` lie in the packet and in the prefix.
  pub Ensures-need :
      (off n cap end : ℕ) (t : Tuple)
      → cap < 2 ^ 32
      → end < 2 ^ 32
      → Q malformed t
      → (cap < end → Q truncated t)
      → Ensures (λ _. (off + n ≤ end) × (off + n ≤ cap)) Q (check t (es_need off n cap end))
  unfolding check
  Ensures-need off n cap end t hc he bad short = elim (es_need-cases off n cap end hc he) [
    | inl e ↦ rw (e, check) (stops bad)
    | inr (inl (e, h)) ↦ rw (e, check) (stops (short h))
    | inr (inr (e, h)) ↦ rw (e, check) (goes h)
  ]

  pub Ensures-byte :
      (p : List ℕ) (i : ℕ) → IsBytes p → i < length p → Ensures (λ b. b < 256) Q (byte p i)
  unfolding byte
  Ensures-byte p i o h =
      let (b, e) = get_elem?-some p i h in
      rw (e, byte) (goes (All-get_elem? (λ b. b < 256) p i o e))

  pub Ensures-be16 :
      (p : List ℕ) (i : ℕ)
      → IsBytes p
      → i + 1 < length p
      → Ensures (λ x. x < 2 ^ 16) Q (es_be16 p i)
  unfolding es_be16
  Ensures-be16 p i o h =
      Ensures-bind _ (Ensures-byte p i o (omega arith))
        (λ a ha. Ensures-bind _ (Ensures-byte p (i + 1) o h) (λ b hb. goes (omega arith)))

  pub Ensures-slice :
      (p : List ℕ) (i n : ℕ)
      → i + n ≤ length p
      → Ensures (λ bs. (bs ≡ take n (drop i p)) × (length bs ≡ n)) Q (slice p i n)
  unfolding slice
  Ensures-slice p i n h =
      Ensures-if (leb (i + n) (length p))
        (λ _. goes (refl, omega (arith, length-take n (drop i p), length-drop i p)))
        (λ no. absurd (ground arith))
