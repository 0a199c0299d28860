-- ===== src/Bch/Examples.antt =====
-- A block with a GENESIS and a SEND of its token, and a transaction of the mempool.
use cpp_slp_graph_search.Tx.Outputs.Described.{token_outputs}
use cpp_slp_graph_search.Prelude.{
  ℕ, ◌≡◌, refl, List, [], ◌∷◌, some, true, false, arith, inl, inr, All,
}
use cpp_slp_graph_search.Prelude.Keys.{bytes_key, bytes_discrete}
use cpp_slp_graph_search.Prelude.Map.{find, or_else}
use cpp_slp_graph_search.Prelude.Set.{contains}
use cpp_slp_graph_search.Prelude.Distinct.{nodup}
use cpp_slp_graph_search.Slp.Message.{Hash, SlpTx, genesis, send}
use cpp_slp_graph_search.Tx.Types.{Outpoint, Output, Transaction, outpoint_key}
use cpp_slp_graph_search.Tx.Outputs.{slp_outputs}
use cpp_slp_graph_search.Block.Codec.{Block}
use cpp_slp_graph_search.Topological.Order.{ids}
use cpp_slp_graph_search.Topological.Correct.{IsRankedIn}
use cpp_slp_graph_search.UtxoDb.Store.{empty_utxodb, get_outputs_by_outpoints, one_of}
use cpp_slp_graph_search.SlpDb.Tagged.{IsTaggedDb}
use cpp_slp_graph_search.Bch.Runs.{ran, ran_or}
use cpp_slp_graph_search.Bch.Process.{Bch, slp_transactions, process_block, process_mempool_tx}
use cpp_slp_graph_search.Bch.Utxos.{created}
use cpp_slp_graph_search.Bch.Lookups.{spent_by}
use cpp_slp_graph_search.Bch.Mempool.{answer, process_mempool_tx-get_outputs_by_outpoints}
use cpp_slp_graph_search.Bch.Ends.{process_block-runs}

abbrev point : ℕ → ℕ → Outpoint
point n vout = record { txid = n ∷ []; vout = vout }

abbrev output_at : ℕ → ℕ → List ℕ → Output
output_at n vout script = record {
  prev_tx_id = n ∷ [];
  prev_out_idx = vout;
  value = 546;
  scriptpubkey = script;
}

-- A transaction with an OP_RETURN and one output with a script.
abbrev token_tx : ℕ → Outpoint → SlpTx → Transaction
token_tx n spent message = record {
  txid = n ∷ [];
  version = 1;
  lock_time = 0;
  inputs = spent ∷ [];
  outputs = output_at n 0 (0x6a ∷ []) ∷ output_at n 1 (7 ∷ []) ∷ [];
  slp = record { tokenid = 1 ∷ []; token_type = 1; slp_tx = message };
  serialized = [];
}

abbrev new_tx : Transaction
new_tx = token_tx 1 (point 0 0) (
    genesis (record {
      ticker = [];
      name = [];
      document_uri = [];
      document_hash = [];
      decimals = 0;
      has_mint_baton = false;
      mint_baton_vout = 0;
      qty = 10;
    }))

abbrev sending_tx : Transaction
sending_tx = token_tx 2 (point 1 1) (send (4 ∷ []))

-- The child stands before its parent.
abbrev two_txs : Block
two_txs = record {
  header = record {
    version = 1;
    prev_block = [];
    merkle_root = [];
    timestamp = 0;
    bits = 0;
    nonce = 0;
  };
  block_hash = [];
  txs = sending_tx ∷ new_tx ∷ [];
}

abbrev start : Bch
start = record { utxodb = empty_utxodb; slpdb = record { tokens = []; utxo_to_tokenid = [] } }

abbrev first_byte : Hash → ℕ
first_byte [] = 0
first_byte (b ∷ v) = b

distinct_ids : nodup (ids (slp_transactions two_txs.txs)) ≡ true
unfolding nodup contains bytes_discrete slp_transactions
distinct_ids = refl

parents_first :
    All (IsRankedIn first_byte (slp_transactions two_txs.txs)) (slp_transactions two_txs.txs)
unfolding contains bytes_discrete slp_transactions
parents_first = ((inr (omega arith), tt), ((inl refl, tt), tt))

process_block-runs_example :
    (s' : Bch) × (process_block start two_txs true ≡ ran s') × IsTaggedDb s'.slpdb
process_block-runs_example =
    process_block-runs start two_txs true first_byte (inr (omega arith), (inr (omega arith), tt))
      distinct_ids parents_first tt

abbrev next : Bch
next = ran_or start (process_block start two_txs false)

new_outputs-read : slp_outputs new_tx ≡ some (output_at 1 1 (7 ∷ []) ∷ [])
unfolding slp_outputs
new_outputs-read = refl

process_mempool_tx-get_outputs_by_outpoints_example :
    (s' : Bch) × (process_mempool_tx start new_tx ≡ ran s')
    × ((o : Outpoint)
        → (let pool =
              or_else
                (find o start.utxodb.mempool_outpoint_map)
                (created (token_outputs new_tx) o) in
            let before = contains o start.utxodb.mempool_spent_confirmed_outpoints in
            get_outputs_by_outpoints s'.utxodb (o ∷ [])
            ≡ one_of (
                answer
                  (find o start.utxodb.outpoint_map)
                  pool
                  (spent_by new_tx.inputs before pool o))))
process_mempool_tx-get_outputs_by_outpoints_example =
    process_mempool_tx-get_outputs_by_outpoints start new_tx (output_at 1 1 (7 ∷ []) ∷ [])
      new_outputs-read
