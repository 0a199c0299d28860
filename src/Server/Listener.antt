-- ===== src/Server/Listener.antt =====
-- `main` and `get_mempool_transactions` of server/gs++.cpp: the blocks of the cache, the mempool at the
-- start, and the messages that the ZMQ listener hears. The answers of the node, the hash function and
-- the clock are arguments.
pub mod Heights
pub mod Examples
pub mod Messages
use cpp_slp_graph_search.Prelude.{
  ℕ, ◌+◌, ◌-◌, List, [], ◌∷◌, ◌++◌, Option, none, some, Bool, true, false, if◌then◌else◌, length,
}
use cpp_slp_graph_search.Util.Reader.{Outcome, done, refused, fault}
use cpp_slp_graph_search.Slp.Message.{Hash, zero_hash, is_invalid}
use cpp_slp_graph_search.Tx.Types.{Transaction}
use cpp_slp_graph_search.Tx.Hydrate
use cpp_slp_graph_search.Block.Codec.{Block}
use cpp_slp_graph_search.Block.Codec
use cpp_slp_graph_search.Topological.Sort.{topological_sort}
use cpp_slp_graph_search.Bch.Process
use cpp_slp_graph_search.Server.Sync.{
  Synced, synced, aborted, bad_read, out_of_fuel, ◌>>=◌, of_run, Server, Group,
  slpsync_process_block, slpsync_process_mempool, slpsync_process_tx,
}

-- The global variables of the listener. `next_block_height` is one more than
-- `current_block_height`, which starts at -1.
pub record Listener : Type 0 where
  pub server : Server
  pub startup_processing_mempool : Bool
  pub startup_mempool_transactions : List Transaction
  pub next_block_height : ℕ
  pub current_block_hash : Hash
  pub last_incoming_zmq_tx : Hash
  pub last_incoming_zmq_tx_unix : ℕ
  pub last_incoming_zmq_blk_size : ℕ
  pub last_incoming_zmq_blk_unix : ℕ

-- The envelope of a message; one of another kind is passed over.
pub data Envelope : Type 0 where
  rawtx rawblock other : Envelope

abbrev pub sorted_or_stop {ℓ} : {A : Type ℓ} → Option A → Synced A
sorted_or_stop none = out_of_fuel
sorted_or_stop (some a) = synced a

-- An exception that nothing catches ends the process.
abbrev pub caught_by_none {ℓ} : {A : Type ℓ} → Option A → Synced A
caught_by_none none = aborted
caught_by_none (some a) = synced a

-- `gs::block` as a container of transactions.
unfoldable pub block_with : List Transaction → Block
block_with txs = record {
  block_hash = zero_hash;
  header = record {
    version = 0;
    prev_block = zero_hash;
    merkle_root = zero_hash;
    timestamp = 0;
    bits = 0;
    nonce = 0;
  };
  txs = txs;
}

unfoldable pub keep_slp : Transaction → List Transaction → List Transaction
keep_slp tx txs = if is_invalid tx.slp.slp_tx then txs else tx ∷ txs

unfoldable pub push_startup : Listener → Outcome Transaction → Listener
push_startup l (done tx) =
    if is_invalid tx.slp.slp_tx
    then l
    else record l { startup_mempool_transactions = l.startup_mempool_transactions ++ tx ∷ [] }
push_startup l refused = l
push_startup l fault = l

-- A `rawtx` behind the start.
unfoldable pub hear_tx : Listener → ℕ → Outcome Transaction → Synced Listener
hear_tx l now (done tx) = do
  r ← slpsync_process_tx l.server tx
  synced
      (record l { server = r.0; last_incoming_zmq_tx = tx.txid; last_incoming_zmq_tx_unix = now })
hear_tx l now refused = synced l
hear_tx l now fault = bad_read

module _ (sha256 : List ℕ → List ℕ) where
  -- The loop of `get_mempool_transactions`; `none` is its exception. `raw` is `get_raw_transaction`.
  unfoldable pub read_mempool : (Hash → Option (List ℕ)) → List Hash → Option (List Transaction)
  unfolding keep_slp
  read_mempool raw [] = some []
  read_mempool raw (txid ∷ txids) =
      let rest = read_mempool raw txids in
      elim (raw txid) [
        | none ↦ none
        | some txdata ↦ elim (Hydrate.hydrate sha256 txdata) [
          | done tx ↦ elim rest [ none ↦ none | some txs ↦ some (keep_slp tx txs) ]
          | refused ↦ none
          | fault ↦ none
        ]
      ]

  -- `get_mempool_transactions`; the first argument is the answer of `get_raw_mempool`.
  unfoldable pub get_mempool_transactions :
      Option (List Hash) → (Hash → Option (List ℕ)) → Option (List Transaction)
  unfolding read_mempool
  get_mempool_transactions none raw = none
  get_mempool_transactions (some txids) raw = read_mempool raw txids

  module _ (order : List Group → List Group) where
    -- One block of the cache. A block that is refused ends the program, `aborted` here.
    unfoldable pub load_hydrated : Listener → Outcome (Block × List ℕ) → Synced Listener
    load_hydrated l (done (b, rest)) = do
      r ← slpsync_process_block order l.server b true
      bch ← if r.0.utxosync then of_run (Process.process_block r.0.bch b true) else synced r.0.bch
      synced (record l {
        server = record r.0 { bch = bch };
        current_block_hash = b.block_hash;
        next_block_height = l.next_block_height + 1;
      })
    load_hydrated l refused = aborted
    load_hydrated l fault = bad_read

    unfoldable pub load_block : Listener → List ℕ → Synced Listener
    unfolding load_hydrated
    load_block l blk_data = load_hydrated l (Codec.hydrate sha256 false blk_data)

    -- The loop over the files of the cache, up to the first height that has none. The height in the
    -- configuration is not negative.
    unfoldable pub load_blocks : Listener → List (List ℕ) → Synced Listener
    unfolding load_block
    load_blocks l [] = synced (record l { next_block_height = l.next_block_height - 1 })
    load_blocks l (blk_data ∷ files) = do l' ← load_block l blk_data; load_blocks l' files

    -- A block from the node, under the hash that the node gave for its height.
    unfoldable pub fetch_hydrated : Listener → Hash → Outcome (Block × List ℕ) → Synced Listener
    fetch_hydrated l hash (done (b, rest)) = do
      txs ← sorted_or_stop (topological_sort b.txs)
      let blk = record b { txs = txs }
      r ← slpsync_process_block order l.server blk false
      bch ← if r.0.utxosync then of_run (Process.process_block r.0.bch blk true) else synced r.0.bch
      synced (record l {
        server = record r.0 { bch = bch };
        current_block_hash = hash;
        next_block_height = l.next_block_height + 1;
      })
    fetch_hydrated l hash refused =
        synced (record l { next_block_height = l.next_block_height - 1 })
    fetch_hydrated l hash fault = bad_read

    -- One height of the loop over `get_block_hash` and `get_raw_block`, for a height that is not negative.
    -- After a failure it goes on one height lower. The file of the cache that it writes is left out.
    unfoldable pub fetch_block : Listener → Option Hash → Option (List ℕ) → Synced Listener
    unfolding fetch_hydrated
    fetch_block l none block_data =
        synced (record l { next_block_height = l.next_block_height - 1 })
    fetch_block l (some hash) none =
        synced (record l { next_block_height = l.next_block_height - 1 })
    fetch_block l (some hash) (some block_data) =
        fetch_hydrated l hash (Codec.hydrate sha256 false block_data)

    -- The end of the start, with what `get_mempool_transactions` gave.
    unfoldable pub start_up : Listener → List Transaction → Synced Listener
    unfolding block_with
    start_up l mempool_transactions = do
      txs ←
          sorted_or_stop (topological_sort (l.startup_mempool_transactions ++ mempool_transactions))
      s ← slpsync_process_mempool order l.server (block_with txs)
      synced (record l {
        server = s;
        startup_mempool_transactions = l.startup_mempool_transactions ++ mempool_transactions;
        startup_processing_mempool = false;
      })

    -- A `rawblock` behind the start, with the mempool that the node has then.
    unfoldable pub hear_block :
        Listener → ℕ → Option (List Transaction) → Outcome (Block × List ℕ) → Synced Listener
    unfolding block_with
    hear_block l now mempool (done (b, rest)) = do
      txs ← sorted_or_stop (topological_sort b.txs)
      r ← slpsync_process_block order l.server (record b { txs = txs }) false
      mempool_transactions ← caught_by_none mempool
      pool ← sorted_or_stop (topological_sort mempool_transactions)
      s ← slpsync_process_mempool order r.0 (block_with pool)
      synced (record l {
        server = s;
        next_block_height = l.next_block_height + 1;
        current_block_hash = b.block_hash;
        last_incoming_zmq_blk_size = length b.txs;
        last_incoming_zmq_blk_unix = now;
      })
    hear_block l now mempool refused = synced l
    hear_block l now mempool fault = bad_read

    -- A message while the server starts.
    unfoldable pub hear_early : Listener → Envelope → List ℕ → Synced Listener
    unfolding push_startup
    hear_early l rawtx msg_data = synced (push_startup l (Hydrate.hydrate sha256 msg_data))
    hear_early l rawblock msg_data = synced l
    hear_early l other msg_data = synced l

    unfoldable pub hear_late :
        Listener → ℕ → Option (List Transaction) → Envelope → List ℕ → Synced Listener
    unfolding hear_tx hear_block
    hear_late l now mempool rawtx msg_data = hear_tx l now (Hydrate.hydrate sha256 msg_data)
    hear_late l now mempool rawblock msg_data =
        hear_block l now mempool (Codec.hydrate sha256 false msg_data)
    hear_late l now mempool other msg_data = synced l

    -- One round of the listener, with `zmqpub` off.
    unfoldable pub hear :
        Listener → ℕ → Option (List Transaction) → Envelope → List ℕ → Synced Listener
    unfolding hear_early hear_late
    hear l now mempool envelope msg_data =
        if l.startup_processing_mempool
        then hear_early l envelope msg_data
        else hear_late l now mempool envelope msg_data
