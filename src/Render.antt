-- ===== src/Render.antt =====
-- How numbers and bytes are written as text: `std::to_string`, and the stream manipulators
-- `std::hex`, `std::setfill('0')` and `std::setw(2)` that src/PcapReceiver.cpp uses.
pub mod Read
mod Tests
use elephant_shrew.Prelude.{
  ℕ, zero, suc, ◌+◌, ◌*◌, ◌/◌, ◌%◌, List, [], ◌∷◌, ◌++◌, Option, none, some, ltb, if◌then◌else◌,
}

-- the decimal digits of a number, the last first, on fuel
unfoldable pub digits : ℕ → ℕ → List ℕ
digits zero n = []
digits (suc fuel) n =
    let rest = digits fuel (n / 10) in (48 + n % 10) ∷ (if ltb n 10 then [] else rest)

abbrev pub reversed : List ℕ → List ℕ → List ℕ
reversed [] out = out
reversed (d ∷ ds) out = reversed ds (d ∷ out)

-- `std::to_string` of an unsigned integer of at most 64 bits, which has at most 20 digits
unfoldable pub to_string : ℕ → List ℕ
to_string n = reversed (digits 20 n) []

abbrev pub hex_digit : ℕ → ℕ
hex_digit n = if ltb n 10 then 48 + n else 87 + n

-- two digits for each byte
unfoldable pub hex : List ℕ → List ℕ
hex [] = []
hex (b ∷ bs) = hex_digit (b / 16) ∷ hex_digit (b % 16) ∷ hex bs
