-- ===== src/Server/Sync/Known.antt =====
-- Transactions that the validator of server/gs++.cpp knows when their block comes.
use cpp_slp_graph_search.Prelude.{
  length, ℕ, ◌≡◌, ◌⊎◌, refl, sym, subst, List, [], none, some, true, false, Bool, arith, All,
}
use cpp_slp_graph_search.Prelude.Keys.{bytes_key}
use cpp_slp_graph_search.Prelude.Map.{find, has_key}
use cpp_slp_graph_search.Slp.Message.{Hash}
use cpp_slp_graph_search.Util.Hex.{Text}
use cpp_slp_graph_search.Tx.Outputs.Reads.{HasOutputs}
use cpp_slp_graph_search.Topological.Order.{ids}
use cpp_slp_graph_search.Block.Codec.{Block}
use cpp_slp_graph_search.Validator.State.{has, has_valid}
use cpp_slp_graph_search.Validator.Send.{Fits}
use cpp_slp_graph_search.Bch.Process
use cpp_slp_graph_search.Graph.Store.{ref_key, Ref, TxGraph}
use cpp_slp_graph_search.Graph.Search.{response, not_found, graph_search}
use cpp_slp_graph_search.Server.Search.{
  txid_regex, txid_of, exclude_ids, unknown_txid, search_excluding, graph_search_service,
  exclusion_set, confirmed_answer,
}
use cpp_slp_graph_search.Server.Answers.{search-unknown}
use cpp_slp_graph_search.Server.Sync.{Server, Group, slpsync_process_block, slpsync_process_mempool}
use cpp_slp_graph_search.Server.Sync.Order.{IsOrder}
use cpp_slp_graph_search.Server.Sync.Keys.{Holds, Holds-mono}
use cpp_slp_graph_search.Server.Sync.Blocks.{
  IsServer, BchEnds, IsBlockStep, slpsync_process_block-IsBlockStep,
}
use cpp_slp_graph_search.Server.Sync.Mempool.{IsMempoolStep, slpsync_process_mempool-IsMempoolStep}
use cpp_slp_graph_search.Server.Sync.Reached.{has_key-none}

-- A search for a transaction that neither graph knows.
search_seen-unknown :
    (g : TxGraph) (txid : Hash) (seen : List Ref)
    → find txid g.txid_to_token ≡ none
    → graph_search g txid seen ≡ response not_found [] seen
unfolding graph_search
search_seen-unknown g txid seen e = rw e refl

graph_search_service-unknown :
    (sha256 : List ℕ → List ℕ) (g mg : TxGraph) (max_size : ℕ) (text : Text) (texts : List Text)
    (txid : Hash) (txids : List Hash)
    → txid_regex text ≡ true
    → txid_of text ≡ some txid
    → exclude_ids texts ≡ some txids
    → has_key txid g.txid_to_token ≡ false
    → has_key txid mg.txid_to_token ≡ false
    → graph_search_service sha256 g mg max_size text texts ≡ unknown_txid
unfolding graph_search_service search_excluding confirmed_answer
graph_search_service-unknown sha256 g mg max_size text texts txid txids form id ids absent absent' =
    let seen = exclusion_set g max_size (length txids) txids [] in
    rw
      (
        form,
        id,
        ids,
        search-unknown mg txid (has_key-none txid mg.txid_to_token absent'),
        search_seen-unknown g txid seen (has_key-none txid g.txid_to_token absent),
      )
      refl

-- Let the state be one that the invariant holds of, and let a transaction be known to the validator,
-- as one is that came from the mempool, and not be in the graph of the blocks. After any block, its
-- own included, and the mempool that follows it, the transaction is in neither graph and `GraphSearch`
-- answers that it is unknown, though it is valid still if it was.
pub graph_search_service-known :
    (sha256 : List ℕ → List ℕ) (order : List Group → List Group) (s : Server) (b m : Block)
    (trusted : Bool) (max_size : ℕ) (text : Text) (texts : List Text) (txid : Hash)
    (txids : List Hash)
    → IsOrder order
    → IsServer s
    → All (λ tx. Fits tx.slp.slp_tx) b.txs
    → All (λ tx. Fits tx.slp.slp_tx) m.txs
    → BchEnds s (Process.process_block s.bch b true)
    → (s.utxosync ≡ false) ⊎ All HasOutputs m.txs
    → txid_regex text ≡ true
    → txid_of text ≡ some txid
    → exclude_ids texts ≡ some txids
    → has s.validator txid ≡ true
    → has_key txid s.g.txid_to_token ≡ false
    → Holds trusted
        (λ r.
          Holds false
            (λ s'.
              (has_key txid s'.g.txid_to_token ≡ false)
              × (has_key txid s'.mg.txid_to_token ≡ false)
              × (graph_search_service sha256 s'.g s'.mg max_size text texts ≡ unknown_txid)
              × (has_valid s.validator txid ≡ true → has_valid s'.validator txid ≡ true))
            (slpsync_process_mempool order r.0 m))
        (slpsync_process_block order s b trusted)
graph_search_service-known sha256 order s b m trusted max_size text texts txid txids perm h fits
      fits' ends outputs form id ids old absent =
    Holds-mono trusted (IsBlockStep s b) _ (slpsync_process_block order s b trusted)
      (slpsync_process_block-IsBlockStep order s b trusted perm h fits ends)
      λ r step.
        Holds-mono false (IsMempoolStep r.0) _ (slpsync_process_mempool order r.0 m)
          (slpsync_process_mempool-IsMempoolStep order r.0 m perm step.server fits'
            (subst (λ u. (u ≡ false) ⊎ All HasOutputs m.txs) (sym step.mode) outputs))
          λ s' step'.
            let still : has_key txid r.0.g.txid_to_token ≡ false =
              ground (arith, step.graph txid, step.unknown txid, old, absent) in
            let gone : has_key txid s'.g.txid_to_token ≡ false =
              subst (λ g. has_key txid g.txid_to_token ≡ false) (sym step'.graph) still in
            let gone' : has_key txid s'.mg.txid_to_token ≡ false =
              ground (arith, step'.mempool txid, step.known txid, old) in
            (
              gone,
              gone',
              graph_search_service-unknown sha256 s'.g s'.mg max_size text texts txid txids form id
                  ids gone gone',
              λ e. step'.valid txid (ground (arith, step.valid txid, e)),
            )
