-- ===== src/Block/Codec.antt =====
-- `block::hydrate` (include/gs++/block.hpp) and `block::serialize` (src/block.cpp).
use cpp_slp_graph_search.Prelude.{
  ◌||◌, ℕ, zero, suc, List, [], ◌∷◌, ◌++◌, Bool, not, if◌then◌else◌, length, drop,
}
use cpp_slp_graph_search.Util.Bytes.{le_bytes}
use cpp_slp_graph_search.Util.Reader.{
  Outcome, done, refused, fault, Reader, pure, ◌>>=◌, ◌>>◌, check_end, take_bytes, extract_u32,
}
use cpp_slp_graph_search.Util.VarInt.{var_int_additional_size, extract_var_int, num_to_var_int}
use cpp_slp_graph_search.Slp.Message.{Hash, is_invalid}
use cpp_slp_graph_search.Tx.Types.{Transaction}
use cpp_slp_graph_search.Tx.Hydrate as TxHydrate

pub record Header : Type 0 where
  pub version : ℕ
  pub prev_block : Hash
  pub merkle_root : Hash
  pub timestamp : ℕ
  pub bits : ℕ
  pub nonce : ℕ

pub record Block : Type 0 where
  pub block_hash : Hash
  pub header : Header
  pub txs : List Transaction

unfoldable pub read_header : Reader Header
read_header = do
  check_end 4
  version ← extract_u32
  check_end 32
  prev_block ← take_bytes 32
  check_end 32
  merkle_root ← take_bytes 32
  check_end 4
  timestamp ← extract_u32
  check_end 4
  bits ← extract_u32
  check_end 4
  nonce ← extract_u32
  pure (record {
    version = version;
    prev_block = prev_block;
    merkle_root = merkle_root;
    timestamp = timestamp;
    bits = bits;
    nonce = nonce;
  })

-- ADD_TO_HEADER of each field; `serialize` writes the same bytes.
unfoldable pub header_bytes : Header → List ℕ
header_bytes h =
    le_bytes 4 h.version
    ++ (h.prev_block
        ++ (h.merkle_root ++ (le_bytes 4 h.timestamp ++ (le_bytes 4 h.bits ++ le_bytes 4 h.nonce))))

unfoldable pub all_serialized : List Transaction → List ℕ
all_serialized [] = []
all_serialized (tx ∷ txs) = tx.serialized ++ all_serialized txs

unfoldable pub serialize : Block → List ℕ
serialize b = header_bytes b.header ++ (num_to_var_int (length b.txs) ++ all_serialized b.txs)

-- `it += tx.serialized.size()`
unfoldable pub advance : List ℕ → Outcome Transaction → Outcome (Transaction × List ℕ)
advance s (done tx) = done (tx, drop (length tx.serialized) s)
advance s refused = refused
advance s fault = fault

unfoldable pub keep_tx : Bool → Transaction → List Transaction → List Transaction
keep_tx slp_only tx txs = if not slp_only || not (is_invalid tx.slp.slp_tx) then tx ∷ txs else txs

module _ (sha256 : List ℕ → List ℕ) where
  unfoldable pub read_tx : Reader Transaction
  read_tx s = advance s (TxHydrate.hydrate sha256 s)

  unfoldable pub read_txs : Bool → ℕ → Reader (List Transaction)
  read_txs slp_only zero = pure []
  read_txs slp_only (suc n) = do
    check_end 0
    tx ← read_tx
    txs ← read_txs slp_only n
    pure (keep_tx slp_only tx txs)

  unfoldable pub block_of : Header → List Transaction → Block
  block_of h txs = record { block_hash = sha256 (sha256 (header_bytes h)); header = h; txs = txs }

  -- `hydrate(begin, end, slp_only)`, with the bytes that are left.
  unfoldable pub hydrate : Bool → Reader Block
  hydrate slp_only = do
    h ← read_header
    size ← var_int_additional_size
    check_end size
    txn_count ← extract_var_int
    txs ← read_txs slp_only txn_count
    pure (block_of h txs)
