-- ===== src/Slp/Chunks.antt =====
-- The first part of `slp_transaction::hydrate`: the pushes behind OP_RETURN. `it` is the list of
-- the bytes from it on.
use cpp_slp_graph_search.Prelude.{
  ℕ, zero, suc, List, [], ◌∷◌, ◌++◌, Option, none, some, Bool, false, not, ◌&&◌, ltb, leb, ◌==◌,
  if◌then◌else◌, length, take, drop,
}
use cpp_slp_graph_search.Util.Bytes.{le}

-- `extract_pushdata`: the length of the push and the place behind it, or `none` with `it` where it
-- was before the opcode.
unfoldable pub extract_pushdata : List ℕ → Option ℕ × List ℕ
unfolding le
extract_pushdata [] = (none, [])
extract_pushdata (cnt ∷ s) =
    if ltb 0 cnt && ltb cnt 0x4C
    then (if ltb (length s) cnt then (none, cnt ∷ s) else (some cnt, s))
    else if cnt == 0x4C
    then (if leb (length s) 1 then (none, cnt ∷ s) else (some (le (take 1 s)), drop 1 s))
    else if cnt == 0x4D
    then (if leb (length s) 2 then (none, cnt ∷ s) else (some (le (take 2 s)), drop 2 s))
    else if cnt == 0x4E
    then (if leb (length s) 4 then (none, cnt ∷ s) else (some (le (take 4 s)), drop 4 s))
    else (none, cnt ∷ s)

-- `SLP` and a zero byte.
unfoldable pub is_lokad : List ℕ → Bool
is_lokad [] = false
is_lokad (a ∷ []) = false
is_lokad (a ∷ b ∷ []) = false
is_lokad (a ∷ b ∷ c ∷ []) = false
is_lokad (a ∷ b ∷ c ∷ d ∷ []) = a == b'S' && b == b'L' && c == b'P' && d == 0
is_lokad (a ∷ b ∷ c ∷ d ∷ e ∷ r) = false

-- How the loop ends: with the chunks and the place of `it`, by a check that fails, or, in the
-- model only, with its fuel used up.
pub data Scan : Type 0 where
  scanned : List (List ℕ) → List ℕ → Scan
  failed out_of_fuel : Scan

-- `extract_string` and the rest of one round.
unfoldable pub take_chunk : (List (List ℕ) → List ℕ → Scan) → List (List ℕ) → ℕ → List ℕ → Scan
unfolding is_lokad
take_chunk continue chunks len s =
    if ltb (length s) len
    then failed
    else if length chunks == 0 && not (is_lokad (take len s))
    then failed
    else continue (chunks ++ take len s ∷ []) (drop len s)

unfoldable pub scan : ℕ → List (List ℕ) → List ℕ → Scan
unfolding extract_pushdata take_chunk
scan zero chunks s = out_of_fuel
scan (suc fuel) chunks s = elim (extract_pushdata s).0 [
  | none ↦ scanned chunks (extract_pushdata s).1
  | some len ↦ take_chunk (scan fuel) chunks len (extract_pushdata s).1
]

-- Each round reads the opcode at least, which bounds the rounds.
unfoldable pub scan_chunks : List ℕ → Scan
unfolding scan
scan_chunks s = scan (suc (length s)) [] s
