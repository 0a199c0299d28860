-- ===== src/Util/Reader.antt =====
-- Reading through an iterator `it` up to `end_it`. The state is the bytes from `it` on, so that
-- `it == end_it` is the empty list and `it + n >= end_it` compares `n` with their number.
use cpp_slp_graph_search.Prelude.{
  ℕ, List, [], ◌∷◌, Bool, true, false, leb, if◌then◌else◌, length, take, drop,
}
use cpp_slp_graph_search.Util.Bytes.{le}

-- `refused` is an early `return false`; `fault` is a read at or behind `end_it`, which the
-- program must never make.
pub data Outcome {ℓ} (A : Type ℓ) : Type ℓ where
  done : A → Outcome A
  refused fault : Outcome A

abbrev pub Reader {ℓ} : Type ℓ → Type ℓ
Reader A = List ℕ → Outcome (A × List ℕ)

abbrev pub pure {ℓ} : {A : Type ℓ} → A → Reader A
pure a s = done (a, s)

abbrev pub refuse {ℓ} : {A : Type ℓ} → Reader A
refuse s = refused

abbrev pub bind_outcome {ℓ κ} :
    {A : Type ℓ} {B : Type κ} → Outcome (A × List ℕ) → (A → Reader B) → Outcome (B × List ℕ)
bind_outcome (done (a, s)) f = f a s
bind_outcome refused f = refused
bind_outcome fault f = fault

infixl 5 ◌>>=◌ ◌>>◌
abbrev pub ◌>>=◌ {ℓ κ} : {A : Type ℓ} {B : Type κ} → Reader A → (A → Reader B) → Reader B
◌>>=◌ m f s = bind_outcome (m s) f

abbrev pub ◌>>◌ {ℓ} : {B : Type ℓ} → Reader (Unit {0}) → Reader B → Reader B
m >> k = m >>= λ _. k

-- CHECK_END(n): `if (it+n >= end_it) return false;`
unfoldable pub check_end : ℕ → Reader (Unit {0})
check_end n s = if leb (length s) n then refused else done (tt, s)

-- `if (cond) return false;`
unfoldable pub guard : Bool → Reader (Unit {0})
guard true s = done (tt, s)
guard false s = refused

-- `std::copy(it, it+n, …); it += n;`
unfoldable pub take_bytes : ℕ → Reader (List ℕ)
take_bytes n s = if leb n (length s) then done (take n s, drop n s) else fault

-- `*it`
unfoldable pub peek : Reader ℕ
peek [] = fault
peek (b ∷ s) = done (b, b ∷ s)

unfoldable pub extract_u8 : Reader ℕ
extract_u8 [] = fault
extract_u8 (b ∷ s) = done (b, s)

unfoldable pub extract : ℕ → Reader ℕ
unfolding take_bytes
extract n = do bs ← take_bytes n; pure (le bs)

unfoldable pub extract_u16 : Reader ℕ
unfolding extract
extract_u16 = extract 2

unfoldable pub extract_u32 : Reader ℕ
unfolding extract
extract_u32 = extract 4

unfoldable pub extract_u64 : Reader ℕ
unfolding extract
extract_u64 = extract 8
