-- ===== src/Parser/Wire.antt =====
-- What is on the wire: the headers that `es_parse` knows, as a description of the bytes at an offset. `cap` bytes
-- of the packet are there, and its network header ends before `end`.
pub mod Ip4
pub mod Ip6
pub mod Transport
pub mod Tagged
pub mod Header
pub mod Layer
pub mod Frame
pub mod Tests
use elephant_shrew.Prelude.{
  ℕ, ◌+◌, ◌*◌, ◌/◌, ◌%◌, ◌^◌, ◌≤◌, ◌<◌, ◌≡◌, ◌≢◌, refl, true, false, List, [], ◌∷◌, ◌++◌, some,
  arith, length, take, drop, get_elem?, add32, sub32, ltb, leb, ◌==◌, if◌then◌else◌,
}
use elephant_shrew.Abi.{Tuple, parse_ok}
use elephant_shrew.Parser.{es_need}
use elephant_shrew.Parser.Reader.{next, check, byte, es_be16, slice, ◌>>=◌}

module _ (p : List ℕ) where
  abbrev pub Byte : ℕ → ℕ → Type 0
  Byte i b = get_elem? p i ≡ some b

  -- a number of two bytes in network order
  pub record Word (i n : ℕ) : Type 0 where
    pub high : ℕ
    pub low : ℕ
    pub first : Byte i high
    pub second : Byte (i + 1) low
    pub value : n ≡ high * 256 + low

  -- `n` bytes from `i` on
  pub record Bytes (i n : ℕ) (bs : List ℕ) : Type 0 where
    pub there : i + n ≤ length p
    pub content : take n (drop i p) ≡ bs

  pub byte-Byte : (i b : ℕ) → Byte i b → byte p i ≡ next b
  unfolding byte
  byte-Byte i b e = rw (e, byte)

  pub es_be16-Word : (i n : ℕ) → Word i n → es_be16 p i ≡ next n
  unfolding es_be16 byte ◌>>=◌
  es_be16-Word i n w = rw (es_be16, byte, w.first, w.second, w.value)

  pub slice-Bytes : (i n : ℕ) (bs : List ℕ) → Bytes i n bs → slice p i n ≡ next bs
  unfolding slice
  slice-Bytes i n bs w =
      let e : leb (i + n) (length p) ≡ true = ground (arith, w.there) in rw (slice, e, w.content)

-- a header of `n` bytes that is there
pub check-es_need :
    (t : Tuple) (off n cap end : ℕ)
    → off + n ≤ cap
    → off + n ≤ end
    → cap < 2 ^ 32
    → end < 2 ^ 32
    → check t (es_need off n cap end) ≡ next tt
unfolding check es_need
check-es_need t off n cap end c e hc he =
    let k : es_need off n cap end ≡ parse_ok = ground arith in rw k
