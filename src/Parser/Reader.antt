-- ===== src/Parser/Reader.antt =====
-- The control flow of `es_parse` (bpf/packet_parser.bpf.h): a computation goes on with a value,
-- returns early with a status and the tuple filled so far, or faults. A fault is what C leaves
-- undefined: a read past the prefix, or a write past an array of the tuple.
use elephant_shrew.Prelude.{
  ℕ, ◌+◌, ◌*◌, List, ◌++◌, Option, none, some, length, get_elem?, take, drop, leb, if◌then◌else◌,
}
use elephant_shrew.Abi.{Tuple, ParseStatus, parse_ok}

pub data Parsed (A : Type 0) : Type 0 where
  next : A → Parsed A
  stop : ParseStatus → Tuple → Parsed A
  fault : Parsed A

module _ {A B : Type 0} where
  infixl 10 ◌>>=◌
  unfoldable pub ◌>>=◌ : Parsed A → (A → Parsed B) → Parsed B
  next a >>= f = f a
  stop s t >>= f = stop s t
  fault >>= f = fault

module _ {B : Type 0} where
  infixl 10 ◌>>◌
  abbrev pub ◌>>◌ : Parsed (Unit {0}) → Parsed B → Parsed B
  m >> k = m >>= λ _. k

-- `if (rc) return rc;`
unfoldable pub check : Tuple → ParseStatus → Parsed (Unit {0})
check t parse_ok = next tt
check t s = stop s t

-- `p[i]`
unfoldable pub byte : List ℕ → ℕ → Parsed ℕ
byte p i = elim (get_elem? p i) [ none ↦ fault | some b ↦ next b ]

-- `es_be16(p + i)`
unfoldable pub es_be16 : List ℕ → ℕ → Parsed ℕ
unfolding byte ◌>>=◌
es_be16 p i = do a ← byte p i; b ← byte p (i + 1); next (a * 256 + b)

-- the source of a `memcpy` of `n` bytes from `p + i`
unfoldable pub slice : List ℕ → ℕ → ℕ → Parsed (List ℕ)
slice p i n = if leb (i + n) (length p) then next (take n (drop i p)) else fault

-- `memcpy` to the start of an array
abbrev pub copy_into : List ℕ → List ℕ → List ℕ
copy_into bs dst = bs ++ drop (length bs) dst

-- What the caller of `es_parse` gets; `none` stands for a fault.
unfoldable pub outcome : Parsed (ParseStatus × Tuple) → Option (ParseStatus × Tuple)
outcome (next r) = some r
outcome (stop s t) = some (s, t)
outcome fault = none
