-- ===== src/Tx/Outputs/Described.antt =====
-- `slp_outputs` of src/transaction.cpp against the outputs that an SLP message refers to.
use cpp_slp_graph_search.Prelude.{
  ℕ, zero, suc, ◌≡◌, refl, sym, ap, ◌∙◌, List, [], ◌∷◌, ◌++◌, none, some, arith, inl, inr,
  Option-cases, Bool-cases, ◌||◌, leb, ◌==◌, ◌≤◌, length, take, drop, get_elem?, true, false,
}
use mathlib.Core.Path.{ap₂}
use cpp_slp_graph_search.Prelude.{Bool, if◌then◌else◌}
use cpp_slp_graph_search.Slp.Message.{SlpTx, invalid, genesis, mint, send}
use cpp_slp_graph_search.Tx.Types.{Output, Transaction}
use cpp_slp_graph_search.Tx.Outputs.{
  slp_outputs, slp_outputs_of, quantity_outputs, send_outputs, pair_of, single,
}

-- The outputs from number 1 on.
abbrev behind_first : List Output → List Output
behind_first outputs = drop 1 outputs

-- The output of a number from 1 on, if there is one; none for number 0.
numbered : List Output → ℕ → List Output
numbered outputs zero = []
numbered outputs (suc i) = take 1 (drop i (behind_first outputs))

-- What a message refers to: a GENESIS or a MINT the output 1 and the one of its baton, and a SEND as
-- many outputs as it has amounts, from number 1 on.
unfoldable described : List Output → SlpTx → List Output
unfolding numbered
described outputs invalid = []
described outputs (genesis g) = numbered outputs 1 ++ numbered outputs g.mint_baton_vout
described outputs (mint m) = numbered outputs 1 ++ numbered outputs m.mint_baton_vout
described outputs (send amounts) = take (length amounts) (behind_first outputs)

unfoldable pub token_outputs : Transaction → List Output
unfolding described
token_outputs tx = described tx.outputs tx.slp.slp_tx

take_one :
    (i : ℕ) (xs : List Output) {o : Output} → get_elem? xs i ≡ some o → take 1 (drop i xs) ≡ o ∷ []
take_one i [] e = absurd (ground (arith, e))
take_one zero (x ∷ xs) e = ground (arith, e)
take_one (suc i) (x ∷ xs) e = take_one i xs e

drop_all : (i : ℕ) (xs : List Output) → length xs ≤ i → drop i xs ≡ []
drop_all zero [] h = refl
drop_all (suc i) [] h = refl
drop_all zero (x ∷ xs) h = absurd (omega (arith, h))
drop_all (suc i) (x ∷ xs) h = drop_all i xs (omega (arith, h))

take_all : (n : ℕ) (xs : List Output) → length xs ≤ n → take n xs ≡ xs
take_all zero [] h = refl
take_all (suc n) [] h = refl
take_all zero (x ∷ xs) h = absurd (omega (arith, h))
take_all (suc n) (x ∷ xs) h = ap (λ ys. x ∷ ys) (take_all n xs (omega (arith, h)))

numbered-some :
    (outputs : List Output) (i : ℕ) {o : Output}
    → get_elem? outputs (suc i) ≡ some o
    → numbered outputs (suc i) ≡ o ∷ []
unfolding numbered
numbered-some [] i e = absurd (ground (arith, e))
numbered-some (x ∷ xs) i e = take_one i xs e

numbered-past : (outputs : List Output) (i : ℕ) → length outputs ≤ i → numbered outputs i ≡ []
unfolding numbered
numbered-past outputs zero h = refl
numbered-past [] (suc i) h = ap (take 1) (drop_all i [] (omega arith))
numbered-past (x ∷ xs) (suc i) h = ap (take 1) (drop_all i xs (omega (arith, h)))

numbered-absent :
    (outputs : List Output) (vout : ℕ)
    → (leb (length outputs) vout || vout == 0) ≡ true
    → numbered outputs vout ≡ []
numbered-absent outputs zero q = unfold numbered in refl
numbered-absent outputs (suc i) q = numbered-past outputs (suc i) (ground (arith, q))

numbered-inside :
    (outputs : List Output) (vout : ℕ) {o : Output}
    → (leb (length outputs) vout || vout == 0) ≡ false
    → get_elem? outputs vout ≡ some o
    → numbered outputs vout ≡ o ∷ []
numbered-inside outputs zero q e = absurd (ground (arith, q))
numbered-inside outputs (suc i) q e = numbered-some outputs i e

quantity_outputs-numbered :
    (outputs os : List Output) (vout : ℕ)
    → quantity_outputs outputs vout ≡ some os
    → os ≡ numbered outputs 1 ++ numbered outputs vout
unfolding quantity_outputs pair_of single
quantity_outputs-numbered outputs os vout e = elim (Option-cases (get_elem? outputs 1)) [
  | inl missing ↦ absurd (unread missing (leb (length outputs) vout || vout == 0) e)
  | inr (a, first) ↦ by_test a first (leb (length outputs) vout || vout == 0) refl e
]
  where
    unread :
        get_elem? outputs 1 ≡ none
        → (test : Bool)
        → (if test
            then single (get_elem? outputs 1)
            else pair_of (get_elem? outputs 1) (get_elem? outputs vout))
          ≡ some os
        → ⊥
    unread missing true p = ground (arith, missing, p)
    unread missing false p = ground (arith, missing, p)

    by_test :
        (a : Output)
        → get_elem? outputs 1 ≡ some a
        → (test : Bool) → (leb (length outputs) vout || vout == 0) ≡ test
        → (if test
            then single (get_elem? outputs 1)
            else pair_of (get_elem? outputs 1) (get_elem? outputs vout))
          ≡ some os
        → os ≡ numbered outputs 1 ++ numbered outputs vout
    by_test a first true q p =
        let no_baton : numbered outputs vout ≡ [] = numbered-absent outputs vout q in
        let one : os ≡ a ∷ [] = ground (arith, first, p) in
        one ∙ sym (ap₂ (λ xs ys. xs ++ ys) (numbered-some outputs 0 first) no_baton)
    by_test a first false q p = elim (Option-cases (get_elem? outputs vout)) [
      | inl missing ↦ absurd (ground (arith, first, missing, p))
      | inr (b, second) ↦
          let two : os ≡ a ∷ b ∷ [] = ground (arith, first, second, p) in
          two
          ∙ sym (
              ap₂ (λ xs ys. xs ++ ys) (numbered-some outputs 0 first)
                (numbered-inside outputs vout q second))
    ]

send_outputs-take :
    (outputs os : List Output) (amounts : List ℕ)
    → send_outputs outputs amounts ≡ some os
    → os ≡ take (length amounts) (behind_first outputs)
unfolding send_outputs
send_outputs-take [] os amounts e = absurd (ground (arith, e))
send_outputs-take (o ∷ outputs) os amounts e =
    elim (Bool-cases (leb (length outputs) (length amounts))) [
      | inl few ↦ ground (arith, few, e, take_all (length amounts) outputs)
      | inr many ↦ ground (arith, many, e)
    ]

slp_outputs_of-described :
    (outputs os : List Output) (t : SlpTx)
    → slp_outputs_of outputs t ≡ some os
    → os ≡ described outputs t
unfolding slp_outputs_of described
slp_outputs_of-described outputs os invalid e = ground (arith, e)
slp_outputs_of-described outputs os (genesis g) e =
    quantity_outputs-numbered outputs os g.mint_baton_vout e
slp_outputs_of-described outputs os (mint m) e =
    quantity_outputs-numbered outputs os m.mint_baton_vout e
slp_outputs_of-described outputs os (send amounts) e = send_outputs-take outputs os amounts e

-- What `slp_outputs` gives, where it reads no output out of range.
pub slp_outputs-token_outputs :
    (tx : Transaction) (os : List Output) → slp_outputs tx ≡ some os → os ≡ token_outputs tx
unfolding slp_outputs token_outputs
slp_outputs-token_outputs tx os e = slp_outputs_of-described tx.outputs os tx.slp.slp_tx e
