-- ===== src/Server/Listener/Examples.antt =====
-- The cache with one empty block.
use cpp_slp_graph_search.Prelude.{
  ℕ, ◌≡◌, ◌%◌, ◌+◌, ◌^◌, refl, List, [], ◌∷◌, ◌++◌, true, false, Bool,
}
use cpp_slp_graph_search.Prelude.Keys.{bytes_key}
use cpp_slp_graph_search.Slp.Message.{zero_hash}
use cpp_slp_graph_search.Util.Reader.{check_end, extract_u32}
use cpp_slp_graph_search.Block.Codec.{Block}
use cpp_slp_graph_search.Block.Codec
use cpp_slp_graph_search.Bch.Process
use cpp_slp_graph_search.Util.VarInt.{var_int_additional_size, extract_var_int}
use cpp_slp_graph_search.Topological.Sort.{topological_sort}
use cpp_slp_graph_search.Graph.Store.{ref_key}
use cpp_slp_graph_search.Bch.Process.{Bch}
use cpp_slp_graph_search.UtxoDb.Store.{empty_utxodb}
use cpp_slp_graph_search.Server.Sync.{synced, slpsync_process_block}
use cpp_slp_graph_search.Server.Sync.Reached.{initial}
use cpp_slp_graph_search.Server.Listener.{Listener, load_block}
use cpp_slp_graph_search.Server.Listener.Heights.{load_block-height}
use cpp_slp_graph_search.Server.Samples.{one_id, as_stored, databases}

abbrev listener : Bool → Listener
listener utxosync = record {
  server = initial utxosync databases;
  startup_processing_mempool = false;
  startup_mempool_transactions = [];
  next_block_height = 1;
  current_block_hash = zero_hash;
  last_incoming_zmq_tx = zero_hash;
  last_incoming_zmq_tx_unix = 0;
  last_incoming_zmq_blk_size = 0;
  last_incoming_zmq_blk_unix = 0;
}

-- A header of zeros, and no transactions.
abbrev no_txs : List ℕ
no_txs =
    zero_hash
    ++ (zero_hash ++ (0 ∷ 0 ∷ 0 ∷ 0 ∷ 0 ∷ 0 ∷ 0 ∷ 0 ∷ 0 ∷ 0 ∷ 0 ∷ 0 ∷ 0 ∷ 0 ∷ 0 ∷ 0 ∷ 0 ∷ []))

abbrev loaded : Listener
loaded = record (listener true) {
  server = record (initial true databases) {
    bch = record databases {
      utxodb = record empty_utxodb {
        current_block_height = 2;
        last_block_added = [] ∷ [] ∷ [];
        last_block_removed = [] ∷ [] ∷ [];
      };
    };
  };
  current_block_hash = one_id;
  next_block_height = 2;
}

no_txs-loaded : load_block (λ m. one_id) as_stored (listener true) no_txs ≡ synced loaded
unfolding load_block Codec.hydrate Codec.read_header check_end zero_hash extract_u32
    var_int_additional_size extract_var_int Codec.read_txs slpsync_process_block
    Process.process_block Codec.block_of topological_sort
no_txs-loaded = refl

load_block-height_example :
    (loaded.server.bch.utxodb.current_block_height
      ≡ ((listener true).server.bch.utxodb.current_block_height + 2) % 2 ^ 32)
    × (loaded.next_block_height ≡ (listener true).next_block_height + 1)
load_block-height_example =
    load_block-height (λ m. one_id) as_stored (listener true) loaded no_txs refl no_txs-loaded
