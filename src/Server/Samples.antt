-- ===== src/Server/Samples.antt =====
-- A token's first transaction, a block that holds it, and the server around them.
use cpp_slp_graph_search.Prelude.{ℕ, refl, arith, List, [], ◌∷◌, false, inl, inr}
use cpp_slp_graph_search.Prelude.Keys.{bytes_key}
use cpp_slp_graph_search.Slp.Message.{Hash, Genesis, genesis}
use cpp_slp_graph_search.Util.Hex.{Text}
use cpp_slp_graph_search.Tx.Types.{Transaction, Output}
use cpp_slp_graph_search.Tx.Typed.{IsTransaction}
use cpp_slp_graph_search.Tx.Typed.Readers.{IsHash}
use cpp_slp_graph_search.Block.Codec.{Block}
use cpp_slp_graph_search.Graph.Store.{ref_key, clear, insert_token_data}
use cpp_slp_graph_search.Bch.Process.{Bch}
use cpp_slp_graph_search.UtxoDb.Store.{empty_utxodb}
use cpp_slp_graph_search.Server.Sync.{Server, Group}
use cpp_slp_graph_search.Server.Sync.Order.{IsOrder}
use cpp_slp_graph_search.Server.Sync.Blocks.{IsServer}
use cpp_slp_graph_search.Server.Sync.Reached.{started, initial, empty_graph, Reached-IsServer}

-- 64 digits, and the 32 bytes that they stand for.
abbrev pub ones : Text
ones =
    b'0' ∷ b'1' ∷ b'0' ∷ b'1' ∷ b'0' ∷ b'1' ∷ b'0' ∷ b'1' ∷ b'0' ∷ b'1' ∷ b'0' ∷ b'1' ∷ b'0' ∷ b'1'
    ∷ b'0' ∷ b'1' ∷ b'0' ∷ b'1' ∷ b'0' ∷ b'1' ∷ b'0' ∷ b'1' ∷ b'0' ∷ b'1' ∷ b'0' ∷ b'1' ∷ b'0'
    ∷ b'1' ∷ b'0' ∷ b'1' ∷ b'0' ∷ b'1' ∷ b'0' ∷ b'1' ∷ b'0' ∷ b'1' ∷ b'0' ∷ b'1' ∷ b'0' ∷ b'1'
    ∷ b'0' ∷ b'1' ∷ b'0' ∷ b'1' ∷ b'0' ∷ b'1' ∷ b'0' ∷ b'1' ∷ b'0' ∷ b'1' ∷ b'0' ∷ b'1' ∷ b'0'
    ∷ b'1' ∷ b'0' ∷ b'1' ∷ b'0' ∷ b'1' ∷ b'0' ∷ b'1' ∷ b'0' ∷ b'1' ∷ b'0' ∷ b'1' ∷ []

abbrev pub one_id : Hash
one_id =
    1 ∷ 1 ∷ 1 ∷ 1 ∷ 1 ∷ 1 ∷ 1 ∷ 1 ∷ 1 ∷ 1 ∷ 1 ∷ 1 ∷ 1 ∷ 1 ∷ 1 ∷ 1 ∷ 1 ∷ 1 ∷ 1 ∷ 1 ∷ 1 ∷ 1 ∷ 1 ∷ 1
    ∷ 1 ∷ 1 ∷ 1 ∷ 1 ∷ 1 ∷ 1 ∷ 1 ∷ 1 ∷ []

abbrev pub output_at : ℕ → Output
output_at i = record { prev_tx_id = one_id; prev_out_idx = i; value = 546; scriptpubkey = [] }

abbrev pub ten : Genesis
ten = record {
  ticker = [];
  name = [];
  document_uri = [];
  document_hash = [];
  decimals = 0;
  has_mint_baton = false;
  mint_baton_vout = 0;
  qty = 10;
}

abbrev pub issue : Transaction
issue = record {
  txid = one_id;
  version = 1;
  lock_time = 0;
  inputs = [];
  outputs = output_at 0 ∷ output_at 1 ∷ [];
  slp = record { tokenid = one_id; token_type = 1; slp_tx = genesis ten };
  serialized = 7 ∷ [];
}

pub one_id-IsHash : IsHash one_id
one_id-IsHash = (refl, omega arith)

pub issue-IsTransaction : IsTransaction issue
issue-IsTransaction = record {
  txid = one_id-IsHash;
  version = omega arith;
  lock_time = omega arith;
  inputs = tt;
  in_count = omega arith;
  outputs = (
    record { value = omega arith; script = tt; script_size = omega arith },
    (record { value = omega arith; script = tt; script_size = omega arith }, tt),
  );
  out_count = omega arith;
  numbered = ((refl, refl), ((refl, refl), tt));
  slp = inr (
    refl,
    (
      inl refl,
      (inl refl, omega arith, inl (refl, refl), omega arith, λ e. absurd (omega (arith, e))),
    ),
    λ e. refl,
  );
  serialized = (omega arith, tt);
}

abbrev pub as_stored : List Group → List Group
as_stored groups = groups

pub as_stored-IsOrder : IsOrder as_stored
as_stored-IsOrder groups test = refl

abbrev pub databases : Bch
databases = record { utxodb = empty_utxodb; slpdb = record { tokens = []; utxo_to_tokenid = [] } }

abbrev pub at_start : Server
at_start = initial false databases

abbrev pub block_of : List Transaction → Block
block_of txs = record {
  block_hash = [];
  header = record {
    version = 0;
    prev_block = [];
    merkle_root = [];
    timestamp = 0;
    bits = 0;
    nonce = 0;
  };
  txs = txs;
}

abbrev pub one_block : Block
one_block = block_of (issue ∷ [])

pub at_start-IsServer : IsServer at_start
at_start-IsServer = Reached-IsServer as_stored at_start as_stored-IsOrder (started false databases)

abbrev pub after : Server
after = record at_start {
  validator = record { transaction_map = (one_id, issue) ∷ []; valid = one_id ∷ [] };
  g = (insert_token_data (clear empty_graph) one_id (issue ∷ [])).0;
}
