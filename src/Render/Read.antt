-- ===== src/Render/Read.antt =====
-- What was written can be read back.
use native.Mathlib.Nat.{pow-suc}
use elephant_shrew.Prelude.{
  ℕ, zero, suc, ◌+◌, ◌-◌, ◌*◌, ◌/◌, ◌%◌, ◌^◌, ◌≤◌, ◌<◌, ◌≡◌, refl, ap, ◌∙◌, List, [], ◌∷◌, arith,
  ltb, if◌then◌else◌, IsBytes, length, Bool-cases, inl, inr,
}
use elephant_shrew.Render.{digits, reversed, to_string, hex_digit, hex}

-- the number that a text of decimal digits stands for, read from the left
abbrev pub decimal : ℕ → List ℕ → ℕ
decimal n [] = n
decimal n (d ∷ ds) = decimal (n * 10 + (d - 48)) ds

abbrev pub nibble : ℕ → ℕ
nibble c = if ltb c 58 then c - 48 else c - 87

-- the bytes that a text of pairs of digits stands for
abbrev pub unhex : List ℕ → List ℕ
unhex [] = []
unhex (a ∷ []) = []
unhex (a ∷ b ∷ cs) = (nibble a * 16 + nibble b) ∷ unhex cs

nibble-hex_digit : (n : ℕ) → n < 16 → nibble (hex_digit n) ≡ n
nibble-hex_digit n h = ground arith

unhex-hex : (bs : List ℕ) → IsBytes bs → unhex (hex bs) ≡ bs
unfolding hex
unhex-hex [] h = refl
unhex-hex (b ∷ bs) (h, hs) =
    let p = nibble-hex_digit (b / 16) (omega arith) in
    let q = nibble-hex_digit (b % 16) (omega arith) in
    rw (p, q, unhex-hex bs hs) (ap (λ (x : ℕ). x ∷ bs) (omega arith))

length-hex : (bs : List ℕ) → length (hex bs) ≡ 2 * length bs
unfolding hex
length-hex [] = refl
length-hex (b ∷ bs) = omega (arith, length-hex bs)

-- Bytes written as hex digits are read back as they were, and take two digits each.
pub hex_lem : (bs : List ℕ) → IsBytes bs → (unhex (hex bs) ≡ bs) × (length (hex bs) ≡ 2 * length bs)
hex_lem bs h = (unhex-hex bs h, length-hex bs)

decimal-reversed :
    (fuel n : ℕ) (out : List ℕ)
    → n < 10 ^ fuel
    → 0 < fuel
    → decimal 0 (reversed (digits fuel n) out) ≡ decimal n out
unfolding digits
decimal-reversed zero n out h p = absurd (omega arith)
decimal-reversed (suc fuel) n out h p = elim (Bool-cases (ltb n 10)) [
  | inl q ↦ rw q (ap (λ (x : ℕ). decimal x out) (ground (arith, q)))
  | inr q ↦
      let bound : n < 10 ^ fuel * 10 = rw (pow-suc 10 fuel) at h in
      rw q (
        decimal-reversed fuel (n / 10) ((48 + n % 10) ∷ out) (omega arith)
          (enough fuel (ground (arith, q)) bound)
        ∙ ap (λ (x : ℕ). decimal x out) (omega arith))
]
  where
    enough : (fuel : ℕ) → 10 ≤ n → n < 10 ^ fuel * 10 → 0 < fuel
    enough zero l h = omega arith
    enough (suc f) l h = omega arith

-- A number of at most 64 bits that is written in decimal is read back as it was.
pub to_string_lem : (n : ℕ) → n < 2 ^ 64 → decimal 0 (to_string n) ≡ n
unfolding to_string
to_string_lem n h = decimal-reversed 20 n [] (omega arith) (omega arith)
