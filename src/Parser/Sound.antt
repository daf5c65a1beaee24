-- ===== src/Parser/Sound.antt =====
-- What a result of the parser says of the wire: the steps of bpf/packet_parser.bpf.h read backwards, from a step that
-- went on to the bytes that it has seen.
pub mod Transport
pub mod Ip4
pub mod Ip6
pub mod Tagged
pub mod Honest
pub mod Network
pub mod Frame
mod Tests
use mathlib.Core.Path.{subst}
use elephant_shrew.Prelude.{
  ℕ, ◌+◌, ◌*◌, ◌^◌, ◌≤◌, ◌<◌, ◌≡◌, refl, sym, ap, ◌∙◌, Bool, true, false, inl, inr, ◌||◌, List, [],
  ◌∷◌, Option, none, some, arith, length, take, drop, get_elem?, sub32, ltb, leb, if◌then◌else◌,
  Bool-cases,
}
use elephant_shrew.Abi.{
  Tuple, ParseStatus, parse_ok, truncated, unsupported, malformed, fragment, skipped,
}
use elephant_shrew.Parser.{es_need}
use elephant_shrew.Parser.Reader.{Parsed, next, stop, fault, ◌>>=◌, check, byte, es_be16, slice}
use elephant_shrew.Parser.Wire.{Byte, Word, Bytes}

pub next-inj : {A : Type 0} {x y : A} → next x ≡ next y → x ≡ y
next-inj h = cc

pub stopped : {A : Type 0} {s : ParseStatus} {t : Tuple} {x : A} → stop s t ≡ next x → ⊥
stopped h = cc

faulted : {A : Type 0} {x : A} → fault ≡ next x → ⊥
faulted h = cc

-- a chain that went on did so at its first step
pub bind_next :
    {A B : Type 0} (m : Parsed A) {f : A → Parsed B} {r : B}
    → (m >>= f) ≡ next r
    → (a : A) × (m ≡ next a) × (f a ≡ next r)
unfolding ◌>>=◌
bind_next (next a) h = (a, refl, h)
bind_next (stop s t) h = absurd (stopped h)
bind_next fault h = absurd (faulted h)

-- `if (b) stop; else m` that went on
pub branch_next :
    {A : Type 0} (b : Bool) (s : ParseStatus) (t : Tuple) {m : Parsed A} {r : A}
    → (if b then stop s t else m) ≡ next r
    → (b ≡ false) × (m ≡ next r)
branch_next true s t h = absurd (stopped h)
branch_next false s t h = (refl, h)

check_next : (t : Tuple) (s : ParseStatus) {u : Unit} → check t s ≡ next u → s ≡ parse_ok
unfolding check
check_next t parse_ok h = refl
check_next t truncated h = absurd (stopped h)
check_next t unsupported h = absurd (stopped h)
check_next t malformed h = absurd (stopped h)
check_next t fragment h = absurd (stopped h)
check_next t skipped h = absurd (stopped h)

pub es_need_next :
    (t : Tuple) (off n cap end : ℕ) {u : Unit}
    → check t (es_need off n cap end) ≡ next u
    → cap < 2 ^ 32
    → end < 2 ^ 32
    → (off + n ≤ cap) × (off + n ≤ end)
unfolding es_need
es_need_next t off n cap end h hc he =
    let k = check_next t (es_need off n cap end) h in ground arith

module _ (p : List ℕ) where
  pub byte_next : (i : ℕ) {b : ℕ} → byte p i ≡ next b → Byte p i b
  unfolding byte
  byte_next i {b} h =
      elim (get_elem? p i)
          as (λ o. (elim o [ none ↦ fault | some b ↦ next b ]) ≡ next b → o ≡ some b) [
            | none ↦ λ h. absurd (faulted h)
            | some a ↦ λ h. ap some (next-inj h)
          ]
        h

  -- the same for an offset that is a sum of `__u32`
  pub byte_at : {i : ℕ} (j : ℕ) {b : ℕ} → i ≡ j → byte p i ≡ next b → Byte p j b
  byte_at j {b} e h = byte_next j (subst (λ i. byte p i ≡ next b) e h)

  pub es_be16_next : (i : ℕ) {n : ℕ} → es_be16 p i ≡ next n → Word p i n
  unfolding es_be16
  es_be16_next i h =
      let (a, ea, h1) = bind_next (byte p i) h in
      let (b, eb, h2) = bind_next (byte p (i + 1)) h1 in
      record {
        high = a;
        low = b;
        first = byte_next i ea;
        second = byte_next (i + 1) eb;
        value = sym (next-inj h2);
      }

  pub slice_next : (i n : ℕ) {bs : List ℕ} → slice p i n ≡ next bs → Bytes p i n bs
  unfolding slice
  slice_next i n h = elim (Bool-cases (leb (i + n) (length p))) [
    | inl e ↦ record { there = ground arith; content = next-inj (rw e at h) }
    | inr e ↦ absurd (faulted (rw e at h))
  ]
