-- ===== src/Util/Bytes.antt =====
-- Little-endian numbers, as `std::copy` onto an unsigned integer reads them (util.hpp).
use cpp_slp_graph_search.Prelude.{
  ℕ, zero, suc, ◌+◌, ◌*◌, ◌/◌, ◌%◌, ◌^◌, ◌<◌, ◌≡◌, refl, List, [], ◌∷◌, arith, length, All,
}
use native.Mathlib.Nat.{pow-suc}

abbrev pub Byte : ℕ → Type 0
Byte b = b < 256

-- The value of the bytes, lowest first.
unfoldable pub le : List ℕ → ℕ
le [] = 0
le (b ∷ bs) = b + 256 * le bs

-- The `k` bytes of `n`, lowest first: what writing a k-byte integer to memory leaves there.
unfoldable pub le_bytes : ℕ → ℕ → List ℕ
le_bytes zero n = []
le_bytes (suc k) n = n % 256 ∷ le_bytes k (n / 256)

pub length-le_bytes : (k n : ℕ) → length (le_bytes k n) ≡ k
unfolding le_bytes
length-le_bytes zero n = refl
length-le_bytes (suc k) n = omega (arith, length-le_bytes k (n / 256))

pub le_bytes-Byte : (k n : ℕ) → All Byte (le_bytes k n)
unfolding le_bytes
le_bytes-Byte zero n = tt
le_bytes-Byte (suc k) n = (omega arith, le_bytes-Byte k (n / 256))

-- Reading back what was written, below the width of the integer.
pub le-le_bytes : (k n : ℕ) → n < 256 ^ k → le (le_bytes k n) ≡ n
unfolding le le_bytes
le-le_bytes zero n h = omega arith
le-le_bytes (suc k) n h = omega (arith, le-le_bytes k (n / 256) (omega (arith, pow-suc 256 k)))

-- `k` bytes make a number below 256 ^ k.
pub le-lt : (k : ℕ) (bs : List ℕ) → length bs ≡ k → All Byte bs → le bs < 256 ^ k
unfolding le
le-lt zero [] e h = omega arith
le-lt zero (b ∷ bs) e h = absurd (omega arith)
le-lt (suc k) [] e h = absurd (omega arith)
le-lt (suc k) (b ∷ bs) e (hb, h) = omega (arith, le-lt k bs (omega arith) h, pow-suc 256 k)
