-- ===== src/Slp/Pushes.antt =====
-- Chunks written as pushes, and the loop of `hydrate` that reads them back. An empty push is
-- written as OP_PUSHDATA1 with length 0.
use cpp_slp_graph_search.Prelude.{
  not, ◌==◌, ℕ, zero, suc, ◌+◌, ◌≤◌, ◌<◌, ◌≡◌, ◌⊎◌, inl, inr, refl, List, [], ◌∷◌, ◌++◌, arith,
  true, false, none, some, All, length, length-append, ltb, leb, ◌&&◌, if◌then◌else◌, take-append,
  drop-append, ap, ◌∙◌,
}
use mathlib.Core.List.{append-nil, append_assoc}
use cpp_slp_graph_search.Slp.Chunks.{Scan, scanned, scan, extract_pushdata, take_chunk, is_lokad}

unfoldable pub push : List ℕ → List ℕ
push c = if leb 1 (length c) && ltb (length c) 0x4C then length c ∷ c else 0x4C ∷ length c ∷ c

unfoldable pub pushes : List (List ℕ) → List ℕ
unfolding push
pushes [] = []
pushes (c ∷ cs) = push c ++ pushes cs

extract_pushdata-push :
    (c rest : List ℕ)
    → length c < 256
    → 1 ≤ length c + length rest
    → extract_pushdata (push c ++ rest) ≡ (some (length c), c ++ rest)
unfolding extract_pushdata push
extract_pushdata-push c rest h k = ground (arith, length-append c rest)

take_chunk-append :
    (continue : List (List ℕ) → List ℕ → Scan) (acc : List (List ℕ)) (c rest : List ℕ)
    → (1 ≤ length acc) ⊎ (is_lokad c ≡ true)
    → take_chunk continue acc (length c) (c ++ rest) ≡ continue (acc ++ c ∷ []) rest
unfolding take_chunk
take_chunk-append continue acc c rest l =
    let fits : ltb (length (c ++ rest)) (length c) ≡ false = ground (arith, length-append c rest) in
    let fine : (length acc == 0 && not (is_lokad c)) ≡ false = ground arith in
    rw (take-append (length c) c rest refl, drop-append (length c) c rest refl)
      (rw (fits, fine) refl)

-- One round of the loop reads one push.
pub scan-push :
    (fuel : ℕ) (acc : List (List ℕ)) (c rest : List ℕ)
    → length c < 256
    → 1 ≤ length c + length rest
    → (1 ≤ length acc) ⊎ (is_lokad c ≡ true)
    → scan (suc fuel) acc (push c ++ rest) ≡ scan fuel (acc ++ c ∷ []) rest
unfolding scan
scan-push fuel acc c rest h k l =
    ap (λ p. elim p.0 [ none ↦ scanned acc p.1 | some len ↦ take_chunk (scan fuel) acc len p.1 ])
      (extract_pushdata-push c rest h k)
    ∙ take_chunk-append (scan fuel) acc c rest l

abbrev pub last_length : List (List ℕ) → ℕ
last_length [] = 0
last_length (c ∷ []) = length c
last_length (c ∷ d ∷ cs) = last_length (d ∷ cs)

pub length-pushes :
    (c : List ℕ) (cs : List (List ℕ)) → length c + length (pushes cs) + 1 ≤ length (pushes (c ∷ cs))
unfolding pushes
length-pushes c cs = ground (arith, length-append c (pushes cs))

-- The pushes of chunks behind a first one are read back whole.
pub scan-pushes :
    (fuel : ℕ) (acc cs : List (List ℕ))
    → All (λ c. length c < 256) cs
    → 1 ≤ length acc
    → (cs ≡ []) ⊎ (1 ≤ last_length cs)
    → length cs < fuel
    → scan fuel acc (pushes cs) ≡ scanned (acc ++ cs) []
unfolding pushes
scan-pushes zero acc cs h k l m = absurd (omega arith)
scan-pushes (suc fuel) acc [] h k l m = unfold scan extract_pushdata in rw (append-nil acc) refl
scan-pushes (suc fuel) acc (c ∷ []) (hc, h) k l m =
    scan-push fuel acc c [] hc (ground arith) (inl k)
    ∙ scan-pushes fuel (acc ++ c ∷ []) [] tt (omega (arith, length-append acc (c ∷ []))) (inl refl)
        (omega arith)
    ∙ ap (λ cs. scanned cs []) (append-nil (acc ++ c ∷ []))
scan-pushes (suc fuel) acc (c ∷ d ∷ cs) (hc, h) k l m =
    scan-push fuel acc c (pushes (d ∷ cs)) hc (omega (arith, length-pushes d cs)) (inl k)
    ∙ scan-pushes fuel (acc ++ c ∷ []) (d ∷ cs) h (omega (arith, length-append acc (c ∷ [])))
        (inr (ground arith)) (omega arith)
    ∙ ap (λ cs. scanned cs []) (append_assoc acc (c ∷ []) (d ∷ cs))
