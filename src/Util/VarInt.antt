-- ===== src/Util/VarInt.antt =====
-- Variable-length integers: `var_int_additional_size`, `extract_var_int` (util.hpp) and
-- `num_to_var_int` (src/util.cpp).
use cpp_slp_graph_search.Prelude.{
  ℕ, ◌-◌, ◌*◌, ◌/◌, ◌%◌, ◌^◌, ◌<◌, ◌≤◌, ◌≡◌, List, [], ◌∷◌, ◌++◌, arith, ltb, leb, ◌==◌,
  if◌then◌else◌, length, length-append, take-append, drop-append,
}
use cpp_slp_graph_search.Util.Bytes.{le_bytes, length-le_bytes, le-le_bytes}
use cpp_slp_graph_search.Util.Reader.{
  Reader, done, pure, ◌>>=◌, peek, extract_u8, extract_u16, extract_u32, extract_u64, extract,
  take_bytes,
}

unfoldable pub additional_size : ℕ → ℕ
additional_size v = if ltb v 0xFD then 0 else if v == 0xFD then 2 else if v == 0xFE then 4 else 8

unfoldable pub var_int_additional_size : Reader ℕ
unfolding peek additional_size
var_int_additional_size = do v ← peek; pure (additional_size v)

unfoldable pub rest_of_var_int : ℕ → Reader ℕ
unfolding extract_u16 extract_u32 extract_u64
rest_of_var_int ret =
    if ltb ret 0xFD
    then pure ret
    else if ret == 0xFD
    then extract_u16
    else if ret == 0xFE
    then extract_u32
    else extract_u64

unfoldable pub extract_var_int : Reader ℕ
unfolding extract_u8 rest_of_var_int
extract_var_int = do ret ← extract_u8; rest_of_var_int ret

-- `(n >> (8*m)) & 0xFF`
byte_of : ℕ → ℕ → ℕ
byte_of n m = n / 2 ^ (8 * m) % 256

unfoldable pub num_to_var_int : ℕ → List ℕ
unfolding byte_of
num_to_var_int n =
    let b = byte_of n in
    if leb n 0xFC
    then n % 256 ∷ []
    else if leb n 0xFFFF
    then 0xFD ∷ b 0 ∷ b 1 ∷ []
    else if leb n 0xFFFFFFFF
    then 0xFE ∷ b 0 ∷ b 1 ∷ b 2 ∷ b 3 ∷ []
    else 0xFF ∷ b 0 ∷ b 1 ∷ b 2 ∷ b 3 ∷ b 4 ∷ b 5 ∷ b 6 ∷ b 7 ∷ []

-- What `num_to_var_int` writes, by the width that it chooses.
num_to_var_int_lem :
    (n : ℕ)
    → num_to_var_int n ≡ (
        if leb n 0xFC
        then n ∷ []
        else if leb n 0xFFFF
        then 0xFD ∷ le_bytes 2 n
        else if leb n 0xFFFFFFFF
        then 0xFE ∷ le_bytes 4 n
        else 0xFF ∷ le_bytes 8 n)
unfolding num_to_var_int le_bytes
num_to_var_int_lem n = ground arith

pub extract-le_bytes :
    (k n : ℕ) (rest : List ℕ) → n < 256 ^ k → extract k (le_bytes k n ++ rest) ≡ done (n, rest)
unfolding extract take_bytes
extract-le_bytes k n rest h = ground (
  arith,
  length-append (le_bytes k n) rest,
  length-le_bytes k n,
  take-append k (le_bytes k n) rest,
  drop-append k (le_bytes k n) rest,
  le-le_bytes k n h,
)

-- A reader gets back every 64-bit number that `num_to_var_int` wrote, and what follows it.
pub extract_var_int-num_to_var_int :
    (n : ℕ) (rest : List ℕ)
    → n < 2 ^ 64
    → extract_var_int (num_to_var_int n ++ rest) ≡ done (n, rest)
unfolding extract_var_int
extract_var_int-num_to_var_int n rest h = rw num_to_var_int_lem (
    ground (arith, extract-le_bytes 2 n rest, extract-le_bytes 4 n rest, extract-le_bytes 8 n rest))

-- The announced size is the number of bytes that follow the first.
pub var_int_additional_size-num_to_var_int :
    (n : ℕ) (rest : List ℕ)
    → var_int_additional_size (num_to_var_int n ++ rest)
      ≡ done (length (num_to_var_int n) - 1, num_to_var_int n ++ rest)
unfolding var_int_additional_size
var_int_additional_size-num_to_var_int n rest =
    rw num_to_var_int_lem (unfold le_bytes in ground arith)

pub length-num_to_var_int :
    (n : ℕ) → (1 ≤ length (num_to_var_int n)) × (length (num_to_var_int n) ≤ 9)
length-num_to_var_int n = rw num_to_var_int_lem (unfold le_bytes in ground arith)
