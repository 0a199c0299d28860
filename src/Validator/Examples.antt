-- ===== src/Validator/Examples.antt =====
-- Runs of the validator on a token with a genesis and a spending of it.
use cpp_slp_graph_search.Prelude.{
  ℕ, ◌≡◌, refl, [], ◌∷◌, arith, true, false, leb, map, inr, some, List,
}
use cpp_slp_graph_search.Prelude.Keys.{bytes_discrete}
use cpp_slp_graph_search.Prelude.Set.{contains}
use cpp_slp_graph_search.Slp.Message.{SlpTx, genesis, send}
use cpp_slp_graph_search.Tx.Types.{Transaction, Outpoint, outpoint_key}
use cpp_slp_graph_search.Prelude.Map.{find}
use cpp_slp_graph_search.Tx.Outputs.{output_slp_amount}
use cpp_slp_graph_search.Validator.State.{Validator, has_valid, get}
use cpp_slp_graph_search.Validator.Inputs.{slp_inputs}
use cpp_slp_graph_search.Validator.InputLaws.{SpendsTokens, slp_inputs-SpendsTokens}
use cpp_slp_graph_search.Validator.Check.{add_tx, verdict, validate_tx}
use cpp_slp_graph_search.Validator.Send.{IsWellFormed, total}
use cpp_slp_graph_search.Validator.Worth.{worth, validate_tx-send}
use cpp_slp_graph_search.Validator.Invariant.{IsOutcome, add_tx-IsOutcome}

-- A transaction of token 1 with one input.
abbrev token_tx : ℕ → ℕ → SlpTx → Transaction
token_tx n vout m = record {
  txid = n ∷ [];
  version = 1;
  lock_time = 0;
  inputs = record { txid = 1 ∷ []; vout = vout } ∷ [];
  outputs = [];
  slp = record { tokenid = 1 ∷ []; token_type = 1; slp_tx = m };
  serialized = [];
}

abbrev first : Transaction
first = token_tx 1 0 (
    genesis (record {
      ticker = [];
      name = [];
      document_uri = [];
      document_hash = [];
      decimals = 0;
      has_mint_baton = true;
      mint_baton_vout = 2;
      qty = 10;
    }))

abbrev ledger : Validator
ledger = record { transaction_map = (1 ∷ [], first) ∷ []; valid = (1 ∷ []) ∷ [] }

ledger-IsWellFormed : IsWellFormed ledger
ledger-IsWellFormed = ((refl, omega arith), tt)

validate_tx-send_example :
    validate_tx ledger (token_tx 2 1 (send (4 ∷ 6 ∷ [])))
    ≡ verdict (
        leb (total (4 ∷ 6 ∷ [])) (
          total (
            map
              (worth ledger (token_tx 2 1 (send (4 ∷ 6 ∷ []))))
              (token_tx 2 1 (send (4 ∷ 6 ∷ []))).inputs)))
unfolding has_valid contains bytes_discrete
validate_tx-send_example =
    validate_tx-send ledger (token_tx 2 1 (send (4 ∷ 6 ∷ []))) (4 ∷ 6 ∷ []) ledger-IsWellFormed refl
      (omega arith, (omega arith, tt)) (omega arith) (omega arith) refl

add_tx-IsOutcome_example :
    IsOutcome (2 ∷ []) (add_tx ledger (token_tx 2 1 (send (4 ∷ 6 ∷ []))) false)
add_tx-IsOutcome_example =
    add_tx-IsOutcome ledger (token_tx 2 1 (send (4 ∷ 6 ∷ []))) false ledger-IsWellFormed
      (omega arith, (omega arith, tt))

-- The first transaction again, with its two outputs.
abbrev with_outputs : Transaction
with_outputs = record first {
  outputs =
      record { prev_tx_id = 1 ∷ []; prev_out_idx = 0; value = 0; scriptpubkey = 0x6a ∷ [] }
      ∷ record { prev_tx_id = 1 ∷ []; prev_out_idx = 1; value = 546; scriptpubkey = [] }
      ∷ [];
}

abbrev full_ledger : Validator
full_ledger = record { transaction_map = (1 ∷ [], with_outputs) ∷ []; valid = (1 ∷ []) ∷ [] }

slp_inputs-SpendsTokens_example :
    (ins : List Outpoint) × (slp_inputs full_ledger (token_tx 2 1 (send (4 ∷ 6 ∷ []))) ≡ some ins)
    × ((input : Outpoint)
        → contains input (token_tx 2 1 (send (4 ∷ 6 ∷ []))).inputs ≡ true
        → SpendsTokens full_ledger input
        → contains input ins ≡ true)
slp_inputs-SpendsTokens_example =
    slp_inputs-SpendsTokens full_ledger (token_tx 2 1 (send (4 ∷ 6 ∷ []))) (inr (omega arith), tt)

-- Output 1 of the first transaction carries its tokens.
carries_tokens : SpendsTokens full_ledger (record { txid = 1 ∷ []; vout = 1 })
unfolding get find bytes_discrete output_slp_amount
carries_tokens = record {
  prev = with_outputs;
  known = refl;
  own_id = refl;
  numbered = ((refl, refl), ((refl, refl), tt));
  inside = omega arith;
  carried = omega arith;
}
