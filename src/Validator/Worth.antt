-- ===== src/Validator/Worth.antt =====
-- `slp_validator::check_send` (src/slp_validator.cpp) against what the inputs are worth.
use cpp_slp_graph_search.Prelude.{
  ℕ, zero, suc, ◌^◌, ◌≤◌, ◌<◌, ◌≡◌, refl, ap, ◌∙◌, List, [], ◌∷◌, arith, false, none, some, leb,
  length, All, map, inl, inr, Option-cases, get_or, sym, if◌then◌else◌, ◌&&◌, ◌==◌,
}
use cpp_slp_graph_search.Prelude.Keys.{bytes_key, bytes_discrete}
use mathlib.Core.Path.{ap₂}
use cpp_slp_graph_search.Prelude.Map.{find}
use cpp_slp_graph_search.Prelude.Set.{contains}
use cpp_slp_graph_search.Slp.Message.{SlpTx, invalid, genesis, mint, send}
use cpp_slp_graph_search.Slp.Sound.{IsAmount}
use cpp_slp_graph_search.Tx.Types.{Outpoint, Transaction}
use cpp_slp_graph_search.Tx.Outputs.{slp_amount_of, slp_amount_of, output_slp_amount}
use cpp_slp_graph_search.Validator.State.{Validator, has_valid, get}
use cpp_slp_graph_search.Validator.Check.{same_token, valid_parent, verdict, validate_tx}
use cpp_slp_graph_search.Validator.Send.{
  IsWellFormed, total, spent_amount, validate_tx-spent_amount,
}

-- The tokens at an output of a transaction: a GENESIS or a MINT has its quantity at output 1, and a
-- SEND its amounts at the outputs from number 1 on, in their order.
unfoldable tokens_at : SlpTx → ℕ → ℕ
tokens_at t zero = 0
tokens_at invalid (suc i) = 0
tokens_at (genesis g) (suc i) = get_or (g.qty ∷ []) i 0
tokens_at (mint m) (suc i) = get_or (m.qty ∷ []) i 0
tokens_at (send amounts) (suc i) = get_or amounts i 0

-- What an input is worth: the tokens of the output that it spends, if the map has the transaction
-- behind it, which is judged valid and has the same token id and token type; and else nothing.
unfoldable pub worth : Validator → Transaction → Outpoint → ℕ
unfolding tokens_at
worth v tx o = elim (find o.txid v.transaction_map) [
  | none ↦ 0
  | some txi ↦ elim (bytes_discrete tx.slp.tokenid txi.slp.tokenid) [
    | no other ↦ 0
    | yes same ↦
        if contains o.txid v.valid && tx.slp.token_type == txi.slp.token_type
        then tokens_at txi.slp.slp_tx o.vout
        else 0
  ]
]

get_or-past : (ns : List ℕ) (i : ℕ) → length ns ≤ i → get_or ns i 0 ≡ 0
get_or-past [] i h = refl
get_or-past (n ∷ ns) zero h = absurd (omega (arith, h))
get_or-past (n ∷ ns) (suc i) h = get_or-past ns i (omega (arith, h))

get_or-one : (n i : ℕ) → get_or (n ∷ []) i 0 ≡ (if suc i == 1 then n else 0)
get_or-one n zero = refl
get_or-one n (suc i) = ground arith

tokens_at-slp_amount_of : (t : SlpTx) (vout : ℕ) → tokens_at t vout ≡ slp_amount_of t vout
unfolding tokens_at slp_amount_of
tokens_at-slp_amount_of invalid zero = refl
tokens_at-slp_amount_of invalid (suc i) = refl
tokens_at-slp_amount_of (genesis g) zero = refl
tokens_at-slp_amount_of (genesis g) (suc i) = get_or-one g.qty i
tokens_at-slp_amount_of (mint m) zero = refl
tokens_at-slp_amount_of (mint m) (suc i) = get_or-one m.qty i
tokens_at-slp_amount_of (send amounts) zero = refl
tokens_at-slp_amount_of (send amounts) (suc i) = ground (arith, get_or-past amounts i)

worth-spent_amount :
    (v : Validator) (tx : Transaction) (o : Outpoint) → worth v tx o ≡ spent_amount v tx o
unfolding worth spent_amount valid_parent get has_valid same_token output_slp_amount
worth-spent_amount v tx o = elim (Option-cases (find o.txid v.transaction_map)) [
  | inl missing ↦ ground (arith, missing)
  | inr (txi, there) ↦ ground (arith, there, tokens_at-slp_amount_of txi.slp.slp_tx o.vout)
]

worths-spent_amounts :
    (v : Validator) (tx : Transaction) (os : List Outpoint)
    → map (worth v tx) os ≡ map (spent_amount v tx) os
worths-spent_amounts v tx [] = refl
worths-spent_amounts v tx (o ∷ os) =
    ap₂ (λ n ns. n ∷ ns) (worth-spent_amount v tx o) (worths-spent_amounts v tx os)

-- Over a map that holds transactions under their own ids, with quantities of 64 bits, a SEND that is
-- not judged yet, of amounts of 64 bits and with fewer than 2 ^ 32 amounts and inputs, is judged valid
-- exactly when the tokens that its inputs are worth cover the amounts: an input is worth the tokens of
-- the output that it spends, if the transaction behind it is in the map, judged valid, and of the same
-- token id and token type. The check always ends, without an exception.
pub validate_tx-send :
    (v : Validator) (tx : Transaction) (amounts : List ℕ)
    → IsWellFormed v
    → tx.slp.slp_tx ≡ send amounts
    → All IsAmount amounts
    → length amounts < 2 ^ 32
    → length tx.inputs < 2 ^ 32
    → has_valid v tx.txid ≡ false
    → validate_tx v tx ≡ verdict (leb (total amounts) (total (map (worth v tx) tx.inputs)))
validate_tx-send v tx amounts h e bounded few_amounts few_inputs fresh =
    validate_tx-spent_amount v tx amounts h e bounded few_amounts few_inputs fresh
    ∙ ap (λ ns. verdict (leb (total amounts) (total ns)))
        (sym (worths-spent_amounts v tx tx.inputs))
