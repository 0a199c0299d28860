-- ===== src/Rest/HexLaws.antt =====
-- The gateway's hexadecimal text against that of the server (include/gs++/util.hpp).
use cpp_slp_graph_search.Prelude.{
  ℕ, ◌/◌, ◌%◌, ◌≡◌, refl, List, [], ◌∷◌, arith, ◌==◌, Bool, true, false, ◌&&◌, All, map, get_or,
}
use mathlib.Core.Path.{ap₂}
use cpp_slp_graph_search.Prelude.Tables.{passes, passes-entry}
use cpp_slp_graph_search.Util.Bytes.{Byte}
use cpp_slp_graph_search.Util.Hex.{hex, chars}
use cpp_slp_graph_search.Rest.Numeric.{Num, nan, pos, neg, parse_int16}
use cpp_slp_graph_search.Rest.Hex.{hex_to_bytes, bytes_to_hex, hex_of}

same_pos : ℕ → Num → Bool
same_pos b nan = false
same_pos b (pos n) = n == b
same_pos b (neg n) = false

same_pos→eq : (b : ℕ) (n : Num) → same_pos b n ≡ true → n ≡ pos b
unfolding same_pos
same_pos→eq b nan h = ground arith
same_pos→eq b (pos n) h = ground arith
same_pos→eq b (neg n) h = ground arith

parse_table :
    passes
      (λ b. same_pos b (parse_int16 (get_or chars (b / 16) 0 ∷ get_or chars (b % 16) 0 ∷ [])))
      256
    ≡ true
unfolding passes parse_int16 same_pos
parse_table = refl

parse_int16-chars :
    (b : ℕ) → Byte b → parse_int16 (get_or chars (b / 16) 0 ∷ get_or chars (b % 16) 0 ∷ []) ≡ pos b
parse_int16-chars b h = same_pos→eq b _ (passes-entry _ 256 b parse_table h)

-- The gateway reads each text that the server's `hex` wrote of bytes as the bytes behind it.
pub hex_to_bytes-hex : (v : List ℕ) → All Byte v → hex_to_bytes (hex v) ≡ map pos v
unfolding hex_to_bytes hex
hex_to_bytes-hex [] h = refl
hex_to_bytes-hex (b ∷ v) (hb, h) =
    ap₂ (λ n ns. n ∷ ns) (parse_int16-chars b hb) (hex_to_bytes-hex v h)

print_test : ℕ → List ℕ → Bool
print_test b (p ∷ q ∷ []) = p == get_or chars (b / 16) 0 && q == get_or chars (b % 16) 0
print_test b s = false

print_test→eq :
    (b : ℕ) (s : List ℕ)
    → print_test b s ≡ true
    → s ≡ get_or chars (b / 16) 0 ∷ get_or chars (b % 16) 0 ∷ []
unfolding print_test
print_test→eq b [] h = ground arith
print_test→eq b (p ∷ []) h = ground arith
print_test→eq b (p ∷ q ∷ []) h = ground arith
print_test→eq b (p ∷ q ∷ c ∷ r) h = ground arith

print_table : passes (λ b. print_test b (hex_of (pos b))) 256 ≡ true
unfolding passes print_test hex_of
print_table = refl

hex_of-pos :
    (b : ℕ) → Byte b → hex_of (pos b) ≡ get_or chars (b / 16) 0 ∷ get_or chars (b % 16) 0 ∷ []
hex_of-pos b h = print_test→eq b _ (passes-entry _ 256 b print_table h)

-- On bytes the gateway writes the text that the server's `hex` writes.
pub bytes_to_hex-pos : (v : List ℕ) → All Byte v → bytes_to_hex (map pos v) ≡ hex v
unfolding bytes_to_hex hex
bytes_to_hex-pos [] h = refl
bytes_to_hex-pos (b ∷ v) (hb, h) = rw (hex_of-pos b hb, bytes_to_hex-pos v h) refl
