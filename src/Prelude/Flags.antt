-- ===== src/Prelude/Flags.antt =====
-- Flag bits of a byte. A mask with one bit is read and set by division, which the arithmetic
-- tactics read; `set_flag-bit_or` ties both to the bit operations.
use Prim.Native.Nat.{ℕ, zero, suc, ◌+◌, ◌*◌, ◌%◌, ◌<◌, bit_and, bit_or}
use mathlib.Core.Path.{◌≡◌, refl, sym, subst}
use mathlib.Core.Logic.{inl, inr}
use mathlib.Core.Bool.{Bool, true, false, ◌&&◌}
use native.Mathlib.Omega.{arith}
use elephant_shrew.Prelude.Tests.{leb, ◌==◌, ==_iff, if◌then◌else◌, Bool-cases}

-- `f & m` is not 0, for a mask `m` of one bit
abbrev pub has_flag : ℕ → ℕ → Bool
has_flag f m = leb m (f % (2 * m))

-- `f | m`, for a mask `m` of one bit
abbrev pub set_flag : ℕ → ℕ → ℕ
set_flag f m = if has_flag f m then f else f + m

-- both operations against the bit operations, on one byte and the four masks
abbrev mask_agrees : ℕ → ℕ → Bool
mask_agrees f m =
    (if has_flag f m then 1 else 0) == (if bit_and f m == 0 then 0 else 1)
    && (set_flag f m == bit_or f m)

abbrev byte_agrees : ℕ → Bool
byte_agrees f = let ok = mask_agrees f in ok 1 && (ok 2 && (ok 4 && ok 8))

bytes_agree : ℕ → Bool
bytes_agree zero = true
bytes_agree (suc f) = let rest = bytes_agree f in if byte_agrees f then rest else false

bytes_agree-byte_agrees :
    (bound : ℕ) {f : ℕ} → f < bound → bytes_agree bound ≡ true → byte_agrees f ≡ true
unfolding bytes_agree
bytes_agree-byte_agrees zero lt e = absurd (omega arith)
bytes_agree-byte_agrees (suc b) {f} lt e = elim (Bool-cases (byte_agrees b)) [
  | inl p ↦ elim (Bool-cases (f == b)) [
    | inl q ↦ subst (λ (x : ℕ). byte_agrees x ≡ true) (sym ((==_iff f b).0 q)) p
    | inr q ↦ bytes_agree-byte_agrees b {f = f} (ground arith) (rw (p, bytes_agree) at e)
  ]
  | inr p ↦ absurd (true-false (rw (p, bytes_agree) at e))
]
  where
    true-false : false ≡ true → ⊥
    true-false h = cc

checked : bytes_agree 256 ≡ true
unfolding bytes_agree
checked = refl

split : (a b : Bool) → (a && b) ≡ true → (a ≡ true) × (b ≡ true)
split true b h = (refl, h)
split false b h = absurd cc

masked : (f m : ℕ) → mask_agrees f m ≡ true → set_flag f m ≡ bit_or f m
masked f m h =
    let test = (if has_flag f m then 1 else 0) == (if bit_and f m == 0 then 0 else 1) in
    (==_iff (set_flag f m) (bit_or f m)).0 (split test (set_flag f m == bit_or f m) h).1

-- On bytes, setting a flag of the four is the bitwise or.
pub set_flag-bit_or :
    (f : ℕ)
    → f < 256
    → (set_flag f 1 ≡ bit_or f 1)
      × (set_flag f 2 ≡ bit_or f 2)
      × (set_flag f 4 ≡ bit_or f 4)
      × (set_flag f 8 ≡ bit_or f 8)
set_flag-bit_or f h =
    let ok = mask_agrees f in
    let (a, rest) = split (ok 1) (ok 2 && (ok 4 && ok 8)) (bytes_agree-byte_agrees 256 h checked) in
    let (b, rest') = split (ok 2) (ok 4 && ok 8) rest in
    let (c, d) = split (ok 4) (ok 8) rest' in
    (masked f 1 a, masked f 2 b, masked f 4 c, masked f 8 d)
