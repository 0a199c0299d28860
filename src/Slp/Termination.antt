-- ===== src/Slp/Termination.antt =====
-- The loop of `slp_transaction::hydrate` over the pushes (include/gs++/slp_transaction.hpp).
use cpp_slp_graph_search.Prelude.{
  ℕ, zero, suc, ◌<◌, ◌≡◌, ◌≢◌, List, [], ◌∷◌, ◌++◌, arith, some, Option-cases, inl, inr, length,
  length-drop, take, drop,
}
use cpp_slp_graph_search.Slp.Chunks.{
  Scan, out_of_fuel, scan, scan_chunks, extract_pushdata, take_chunk,
}

extract_pushdata_shrinks :
    (s : List ℕ) (len : ℕ)
    → (extract_pushdata s).0 ≡ some len
    → length (extract_pushdata s).1 < length s
unfolding extract_pushdata
extract_pushdata_shrinks [] len e = cc
extract_pushdata_shrinks (c ∷ s) len e =
    ground (arith, length-drop 1 s, length-drop 2 s, length-drop 4 s)

take_chunk-ne-out_of_fuel :
    (continue : List (List ℕ) → List ℕ → Scan) (chunks : List (List ℕ)) (len : ℕ) (s : List ℕ)
    → continue (chunks ++ take len s ∷ []) (drop len s) ≢ out_of_fuel
    → take_chunk continue chunks len s ≢ out_of_fuel
unfolding take_chunk
take_chunk-ne-out_of_fuel continue chunks len s h = ground arith

scan-ne-out_of_fuel :
    (fuel : ℕ) (chunks : List (List ℕ)) (s : List ℕ)
    → length s < fuel
    → scan fuel chunks s ≢ out_of_fuel
unfolding scan
scan-ne-out_of_fuel zero chunks s h = absurd (omega arith)
scan-ne-out_of_fuel (suc fuel) chunks s h = elim (Option-cases (extract_pushdata s).0) [
  | inl stop ↦ rw (stop, scan) (λ e. cc)
  | inr (len, e) ↦
      let rest = (extract_pushdata s).1 in
      rw (e, scan)
        (take_chunk-ne-out_of_fuel (scan fuel) chunks len rest (
          scan-ne-out_of_fuel fuel (chunks ++ take len rest ∷ []) (drop len rest)
            (omega (arith, extract_pushdata_shrinks s len e, length-drop len rest))))
]

-- On every script the loop over the pushes ends within one round for each byte and one more.
pub scan_chunks-ne-out_of_fuel : (s : List ℕ) → scan_chunks s ≢ out_of_fuel
unfolding scan_chunks
scan_chunks-ne-out_of_fuel s = scan-ne-out_of_fuel (suc (length s)) [] s (omega arith)
