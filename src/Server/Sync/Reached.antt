-- ===== src/Server/Sync/Reached.antt =====
-- The states of server/gs++.cpp that blocks and transactions make, and `GraphSearch` in them.
use cpp_slp_graph_search.Prelude.{
  length, ℕ, ◌≡◌, ◌⊎◌, ◌↔◌, refl, sym, subst, List, [], none, some, true, false, Bool, inl, inr,
  arith, map, All, All-imp, Option-cases,
}
use cpp_slp_graph_search.Prelude.Keys.{bytes_key}
use cpp_slp_graph_search.Prelude.Map.{find, has_key}
use cpp_slp_graph_search.Prelude.Set.{contains}
use cpp_slp_graph_search.Prelude.Distinct.{nodup}
use cpp_slp_graph_search.Slp.Message.{Hash, SlpTx, invalid, genesis, mint, send}
use cpp_slp_graph_search.Slp.Sound.{IsMessageOf}
use cpp_slp_graph_search.Util.Hex.{Text}
use cpp_slp_graph_search.Tx.Types.{Transaction}
use cpp_slp_graph_search.Tx.Typed.{IsTransaction}
use cpp_slp_graph_search.Tx.Outputs.Reads.{HasOutputs}
use cpp_slp_graph_search.Block.Codec.{Block}
use cpp_slp_graph_search.Validator.State.{has, has_valid}
use cpp_slp_graph_search.Validator.Send.{Fits}
use cpp_slp_graph_search.Bch.Process.{Bch}
use cpp_slp_graph_search.Bch.Process
use cpp_slp_graph_search.Graph.Store.{Ref, ref_key, TxGraph, clear}
use cpp_slp_graph_search.Graph.Fresh.{txdata_of}
use cpp_slp_graph_search.Graph.Correct.{Route}
use cpp_slp_graph_search.Graph.Reachable.{cleared}
use cpp_slp_graph_search.Server.Search.{
  txid_regex, txid_of, exclude_ids, exclusion_set, answered, graph_search_service,
}
use cpp_slp_graph_search.Server.Answers.{graph_search_service-Route}
use cpp_slp_graph_search.Server.Sync.{
  synced, Server, Group, slpsync_process_block, slpsync_process_mempool, slpsync_process_tx,
}
use cpp_slp_graph_search.Server.Sync.Order.{IsOrder}
use cpp_slp_graph_search.Server.Sync.Keys.{Holds}
use cpp_slp_graph_search.Server.Sync.Blocks.{
  IsServer, BchEnds, IsBlockStep, slpsync_process_block-IsBlockStep,
}
use cpp_slp_graph_search.Server.Sync.Mempool.{IsMempoolStep, slpsync_process_mempool-IsMempoolStep}
use cpp_slp_graph_search.Server.Sync.Accept.{IsTxStep, slpsync_process_tx-IsTxStep}

-- The quantities of a message that `hydrate` returns have 64 bits.
message-Fits : (tokenid : Hash) (t : ℕ) (m : SlpTx) → IsMessageOf tokenid t m → Fits m
message-Fits tokenid t invalid h = tt
message-Fits tokenid t (genesis g) h = h.3
message-Fits tokenid t (mint m) h = h.1.2
message-Fits tokenid t (send a) h = h.1.2

pub IsTransaction-Fits : (tx : Transaction) → IsTransaction tx → Fits tx.slp.slp_tx
IsTransaction-Fits tx h = elim h.slp [
  | inl e ↦ subst Fits (sym e) tt
  | inr (size, message, own) ↦ message-Fits tx.slp.tokenid tx.slp.token_type tx.slp.slp_tx message.1
]

-- The global variables at the start of the process.
abbrev pub empty_graph : TxGraph
empty_graph = record { tokens = []; txid_to_token = [] }

abbrev pub initial : Bool → Bch → Server
initial utxosync bch = record {
  validator = record { transaction_map = []; valid = [] };
  g = clear empty_graph;
  mg = clear empty_graph;
  bch = bch;
  utxosync = utxosync;
}

-- The states that the three functions make, in any order, of transactions that `hydrate` has read.
pub data Reached (order : List Group → List Group) : Server → Type 0 where
  started : (utxosync : Bool) (bch : Bch) → Reached order (initial utxosync bch)
  block_processed :
      {s s' : Server}
      → Reached order s
      → (b : Block) (trusted : Bool) (list : List Transaction) → All IsTransaction b.txs
      → BchEnds s (Process.process_block s.bch b true)
      → slpsync_process_block order s b trusted ≡ synced (s', list)
      → Reached order s'
  mempool_processed :
      {s s' : Server}
      → Reached order s
      → (b : Block) → All IsTransaction b.txs
      → (s.utxosync ≡ false) ⊎ All HasOutputs b.txs
      → slpsync_process_mempool order s b ≡ synced s'
      → Reached order s'
  tx_processed :
      {s s' : Server}
      → Reached order s
      → (tx : Transaction) (accepted : Bool) → IsTransaction tx
      → (s.utxosync ≡ false) ⊎ HasOutputs tx
      → slpsync_process_tx s tx ≡ synced (s', accepted)
      → Reached order s'

initial-IsServer : (utxosync : Bool) (bch : Bch) → IsServer (initial utxosync bch)
unfolding has has_valid contains has_key find clear
initial-IsServer utxosync bch = record {
  formed = tt;
  known = λ x e. absurd (ground arith);
  g = cleared empty_graph;
  mg = cleared empty_graph;
  g_valid = λ x e. absurd (ground arith);
  mg_valid = λ x e. absurd (ground arith);
  apart = λ x e. refl;
}

all-Fits : (txs : List Transaction) → All IsTransaction txs → All (λ tx. Fits tx.slp.slp_tx) txs
all-Fits txs h = All-imp txs IsTransaction-Fits h

-- In every state that the server reaches: a valid transaction is known, the transactions of both
-- graphs are valid, none is in both, and each graph is one that insertions make.
pub Reached-IsServer :
    (order : List Group → List Group) (s : Server) → IsOrder order → Reached order s → IsServer s
Reached-IsServer order _ perm (started utxosync bch) = initial-IsServer utxosync bch
Reached-IsServer order _ perm (block_processed {s} {s'} r b trusted list typed ends e) =
    let step =
      slpsync_process_block-IsBlockStep order s b trusted perm (Reached-IsServer order s perm r)
        (all-Fits b.txs typed) ends in
    (subst (Holds trusted (IsBlockStep s b)) e step).server
Reached-IsServer order _ perm (mempool_processed {s} {s'} r b typed outputs e) =
    let step =
      slpsync_process_mempool-IsMempoolStep order s b perm (Reached-IsServer order s perm r)
        (all-Fits b.txs typed) outputs in
    (subst (Holds false (IsMempoolStep s)) e step).server
Reached-IsServer order _ perm (tx_processed {s} {s'} r tx accepted typed outputs e) =
    let step =
      slpsync_process_tx-IsTxStep s tx (Reached-IsServer order s perm r)
        (IsTransaction-Fits tx typed) outputs in
    (subst (Holds false (IsTxStep s tx)) e step).server

pub has_key-none : (x : Hash) (m : List (Hash × Hash)) → has_key x m ≡ false → find x m ≡ none
unfolding has_key
has_key-none x m e = elim (Option-cases (find x m)) [
  | inl absent ↦ absent
  | inr (v, found) ↦ absurd (ground (arith, e, found))
]

-- In every state that the server reaches: where the text of a request and those of its exclusions
-- name ids, the first of a transaction of the blocks, `GraphSearch` answers with the data of exactly
-- the nodes that the inputs reach without entering the exclusion set, each once.
pub graph_search_service-Reached :
    (sha256 : List ℕ → List ℕ) (order : List Group → List Group) (s : Server) (max_size : ℕ)
    (text : Text) (texts : List Text) (txid tokenid : Hash) (txids : List Hash)
    → IsOrder order
    → Reached order s
    → txid_regex text ≡ true
    → txid_of text ≡ some txid
    → exclude_ids texts ≡ some txids
    → find txid s.g.txid_to_token ≡ some tokenid
    → (nodes : List Ref) × (graph_search_service sha256 s.g s.mg max_size text texts
        ≡ answered (map (txdata_of s.g) nodes))
      × (nodup nodes ≡ true)
      × ((v : Ref)
          → contains v nodes ≡ true
            ↔ Route s.g
                (record { tokenid = tokenid; txid = txid })
                (exclusion_set s.g max_size (length txids) txids [])
                v)
unfolding has_key
graph_search_service-Reached sha256 order s max_size text texts txid tokenid txids perm r form id
      ids known =
    let h = Reached-IsServer order s perm r in
    graph_search_service-Route sha256 s.g s.mg max_size text texts txid tokenid txids form id ids
      h.g (has_key-none txid s.mg.txid_to_token (h.apart txid (ground (arith, known)))) known
