-- ===== src/Rest/Hex.antt =====
-- `hexToBytes` and `bytesToHex` of rest/index.js.
use cpp_slp_graph_search.Prelude.{
  ℕ, zero, suc, ◌-◌, ◌/◌, ◌%◌, List, [], ◌∷◌, ◌++◌, leb, if◌then◌else◌,
}
use cpp_slp_graph_search.Rest.Numeric.{Num, nan, pos, neg, parse_int16, to_uint32, to_string16}

-- Two characters at a time; `substr` gives one at the end of a text of odd length.
unfoldable pub hex_to_bytes : List ℕ → List Num
unfolding parse_int16
hex_to_bytes [] = []
hex_to_bytes (p ∷ []) = parse_int16 (p ∷ []) ∷ []
hex_to_bytes (p ∷ q ∷ s) = parse_int16 (p ∷ q ∷ []) ∷ hex_to_bytes s

-- `bytes[i] < 0 ? bytes[i] + 256 : bytes[i]`
unfoldable pub current : Num → Num
current nan = nan
current (pos n) = pos n
current (neg zero) = neg zero
current (neg (suc n)) = if leb (suc n) 256 then pos (256 - suc n) else neg (suc n - 256)

-- The text of one element: `current >>> 4` and `current & 0xF` in base 16.
unfoldable pub hex_of : Num → List ℕ
unfolding current to_uint32 to_string16
hex_of b = let n = to_uint32 (current b) in to_string16 (n / 16) ++ to_string16 (n % 16)

unfoldable pub bytes_to_hex : List Num → List ℕ
unfolding hex_of
bytes_to_hex [] = []
bytes_to_hex (b ∷ bytes) = hex_of b ++ bytes_to_hex bytes
