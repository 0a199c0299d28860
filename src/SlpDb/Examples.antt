-- ===== src/SlpDb/Examples.antt =====
-- A token with one output and a baton.
use cpp_slp_graph_search.Prelude.{ℕ, none, ◌≡◌, ◌≤◌, refl, [], ◌∷◌, arith, true, some}
use cpp_slp_graph_search.Prelude.Keys.{bytes_key, bytes_discrete}
use cpp_slp_graph_search.Prelude.Map.{find, has_key}
use cpp_slp_graph_search.Prelude.Set.{contains}
use cpp_slp_graph_search.Prelude.Distinct.{nodup}
use cpp_slp_graph_search.Slp.Message.{SlpTx, Genesis, genesis, send}
use cpp_slp_graph_search.Tx.Types.{Output, Transaction, outpoint_key, Outpoint-discrete}
use cpp_slp_graph_search.SlpDb.Store.{SlpDb, SlpToken, outpoint_at, value_output, add_transaction}
use cpp_slp_graph_search.SlpDb.Supply.{supply}
use cpp_slp_graph_search.Bch.Runs.{ran}
use cpp_slp_graph_search.Bch.Process.{spend_slp_inputs}
use cpp_slp_graph_search.Bch.Removed.{AreTagged}
use cpp_slp_graph_search.Bch.Supply.{supply-spend_slp_inputs}

abbrev output_of : ℕ → ℕ → Output
output_of n vout = record {
  prev_tx_id = n ∷ [];
  prev_out_idx = vout;
  value = 546;
  scriptpubkey = [];
}

-- A transaction of token 1 with three outputs.
abbrev token_tx : ℕ → ℕ → SlpTx → Transaction
token_tx n vout m = record {
  txid = n ∷ [];
  version = 1;
  lock_time = 0;
  inputs = record { txid = 1 ∷ []; vout = vout } ∷ [];
  outputs = output_of n 0 ∷ output_of n 1 ∷ output_of n 2 ∷ [];
  slp = record { tokenid = 1 ∷ []; token_type = 1; slp_tx = m };
  serialized = [];
}

abbrev with_baton : Genesis
with_baton = record {
  ticker = [];
  name = [];
  document_uri = [];
  document_hash = [];
  decimals = 0;
  has_mint_baton = true;
  mint_baton_vout = 2;
  qty = 10;
}

abbrev new_tx : Transaction
new_tx = token_tx 1 0 (genesis with_baton)

abbrev one_token : SlpToken
one_token = record {
  tokenid = 1 ∷ [];
  transactions = (1 ∷ [], new_tx) ∷ [];
  utxos = (outpoint_at new_tx 1, value_output (outpoint_at new_tx 1) 10) ∷ [];
  mint_baton_outpoint = some (outpoint_at new_tx 2);
}

abbrev one_token_db : SlpDb
one_token_db = record {
  tokens = (1 ∷ [], one_token) ∷ [];
  utxo_to_tokenid = (outpoint_at new_tx 1, 1 ∷ []) ∷ [];
}

one_token-found : find (1 ∷ []) one_token_db.tokens ≡ some one_token
unfolding find bytes_discrete
one_token-found = refl

abbrev four_six : Transaction
four_six = token_tx 2 1 (send (4 ∷ 6 ∷ []))

one_token-AreTagged : AreTagged (1 ∷ []) one_token.utxos one_token_db.utxo_to_tokenid
unfolding find
one_token-AreTagged o out e = elim (Outpoint-discrete (outpoint_at new_tx 1) o) [
  | yes same ↦ ground (arith, e)
  | no other ↦ absurd (ground (arith, e))
]

four_six-untagged :
    (vout : ℕ) → find (outpoint_at four_six vout) one_token_db.utxo_to_tokenid ≡ none
unfolding find Outpoint-discrete bytes_discrete
four_six-untagged vout = refl

supply-spend_slp_inputs_example :
    (db' : SlpDb) × (token' : SlpToken) × (spend_slp_inputs
        (record { txid = 1 ∷ []; vout = 1 } ∷ [])
        (add_transaction one_token_db four_six)
      ≡ ran db')
    × (find (1 ∷ []) db'.tokens ≡ some token')
    × (supply token'.utxos ≤ supply one_token.utxos)
unfolding nodup contains has_key find bytes_discrete
supply-spend_slp_inputs_example =
    supply-spend_slp_inputs one_token_db four_six (4 ∷ 6 ∷ []) one_token refl one_token-found
      (omega arith, (omega arith, tt)) (omega arith) refl (refl, tt) one_token-AreTagged
      four_six-untagged
