-- ===== src/Util/Hex.antt =====
-- `hex` and `unhex` of include/gs++/util.hpp. A text is the list of its character codes.
use cpp_slp_graph_search.Prelude.{
  ℕ, ◌+◌, ◌-◌, ◌*◌, ◌/◌, ◌%◌, ◌<◌, ◌≤◌, ◌≡◌, refl, List, [], ◌∷◌, arith, leb, ◌==◌, ==_iff,
  if◌then◌else◌, true, ◌||◌, get_or, length, All,
}
use cpp_slp_graph_search.Prelude.Tables.{passes, passes-entry}
use cpp_slp_graph_search.Util.Bytes.{Byte}

abbrev pub Text : Type 0
Text = List ℕ

abbrev pub chars : Text
chars =
    b'0' ∷ b'1' ∷ b'2' ∷ b'3' ∷ b'4' ∷ b'5' ∷ b'6' ∷ b'7' ∷ b'8' ∷ b'9' ∷ b'a' ∷ b'b' ∷ b'c' ∷ b'd'
    ∷ b'e' ∷ b'f' ∷ []

unfoldable pub hex : List ℕ → Text
hex [] = []
hex (b ∷ v) = get_or chars (b / 16) 0 ∷ get_or chars (b % 16) 0 ∷ hex v

-- `p <= '9' ? p - '0' : p - 'a' + 10`, modulo 256. A `char` is signed, so that codes from 128 on
-- are negative and take the first branch.
nibble : ℕ → ℕ
nibble p = if leb p b'9' || leb 128 p then (p + 256 - b'0') % 256 else (p + 256 - b'a' + 10) % 256

-- The byte that two characters stand for, as stored to a `std::uint8_t`.
unfoldable pub unhex_byte : ℕ → ℕ → ℕ
unfolding nibble
unhex_byte p q = (nibble p * 16 + nibble q) % 256

-- `v_.size() / 2` bytes: a last odd character is left out.
unfoldable pub unhex : Text → List ℕ
unfolding unhex_byte
unhex [] = []
unhex (p ∷ []) = []
unhex (p ∷ q ∷ v) = unhex_byte p q ∷ unhex v

byte_table :
    passes (λ b. unhex_byte (get_or chars (b / 16) 0) (get_or chars (b % 16) 0) == b) 256 ≡ true
unfolding passes unhex_byte
byte_table = refl

unhex_byte-hex :
    (b : ℕ) → Byte b → unhex_byte (get_or chars (b / 16) 0) (get_or chars (b % 16) 0) ≡ b
unhex_byte-hex b h = (==_iff _ b).0 (passes-entry _ 256 b byte_table h)

-- Text that `hex` wrote of bytes reads back.
pub unhex-hex : (v : List ℕ) → All Byte v → unhex (hex v) ≡ v
unfolding hex unhex
unhex-hex [] h = refl
unhex-hex (b ∷ v) (hb, h) = ground (arith, unhex_byte-hex b hb, unhex-hex v h)

pub length-hex : (v : List ℕ) → length (hex v) ≡ 2 * length v
unfolding hex
length-hex [] = refl
length-hex (b ∷ v) = omega (arith, length-hex v)

-- After a decimal digit, an upper-case second digit, which `txid_regex` lets pass, reads as a byte that is 32 too small.
pub unhex_byte_upper_case :
    (p d : ℕ)
    → b'0' ≤ p
    → p ≤ b'9'
    → 10 ≤ d
    → d < 16
    → (unhex_byte p (b'A' + (d - 10)) + 32) % 256 ≡ unhex_byte p (b'a' + (d - 10))
unfolding unhex_byte
unhex_byte_upper_case p d h k l m = ground arith
