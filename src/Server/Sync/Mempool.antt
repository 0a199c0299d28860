-- ===== src/Server/Sync/Mempool.antt =====
-- `slpsync_bitcoind_process_mempool` of server/gs++.cpp.
use cpp_slp_graph_search.Prelude.{
  All-of, inl, ◌⊎◌, ◌≡◌, refl, ap, ◌∙◌, inr, List, [], ◌∷◌, true, false, not, ◌||◌, ◌&&◌, arith,
  All,
}
use cpp_slp_graph_search.Prelude.Keys.{bytes_key}
use cpp_slp_graph_search.Prelude.Map.{has_key, find}
use cpp_slp_graph_search.Prelude.Set.{contains}
use cpp_slp_graph_search.Slp.Message.{Hash}
use cpp_slp_graph_search.Tx.Types.{Transaction}
use cpp_slp_graph_search.Tx.Outputs.Reads.{HasOutputs, slp_outputs-some}
use cpp_slp_graph_search.Topological.Order.{ids}
use cpp_slp_graph_search.Block.Codec.{Block}
use cpp_slp_graph_search.Graph.Store.{TxGraph, clear}
use cpp_slp_graph_search.Graph.Reachable.{cleared}
use cpp_slp_graph_search.Validator.State.{has, has_valid}
use cpp_slp_graph_search.Validator.Send.{Fits}
use cpp_slp_graph_search.Bch.Runs.{ran}
use cpp_slp_graph_search.Bch.Process.{Bch, process_mempool_tx}
use cpp_slp_graph_search.Bch.Mempool.{process_mempool_tx-get_outputs_by_outpoints}
use cpp_slp_graph_search.Server.Sync.{
  Server, Group, Batch, start_batch, collect, insert_groups, process_mempool_txs, all_txs,
  slpsync_process_mempool,
}
use cpp_slp_graph_search.Server.Sync.Order.{IsOrder, order-group_ids, order-HasOutputs}
use cpp_slp_graph_search.Server.Sync.Keys.{
  group_ids, IsBatch, Holds, bind-Holds, collect-IsBatch, start-IsBatch, insert_groups-known,
}
use cpp_slp_graph_search.Server.Sync.Blocks.{IsServer, utxosync-Holds, insert_groups-Reachable}

pub process_mempool_tx-runs :
    (s : Bch) (tx : Transaction) → HasOutputs tx → (s' : Bch) × (process_mempool_tx s tx ≡ ran s')
process_mempool_tx-runs s tx h =
    let (outputs, e) = slp_outputs-some tx h in
    let (s', ran_s, answers) = process_mempool_tx-get_outputs_by_outpoints s tx outputs e in
    (s', ran_s)

process_mempool_txs-runs :
    (txs : List Transaction) (s : Bch)
    → All HasOutputs txs
    → (s' : Bch) × (process_mempool_txs txs s ≡ ran s')
unfolding process_mempool_txs
process_mempool_txs-runs [] s h = (s, refl)
process_mempool_txs-runs (tx ∷ txs) s (h, hs) =
    let (s₁, e₁) = process_mempool_tx-runs s tx h in
    let (s₂, e₂) = process_mempool_txs-runs txs s₁ hs in (s₂, rw e₁ e₂)

-- What the whole mempool makes of the state: its graph is made anew, of the transactions that have
-- become valid now, and nothing else has.
pub record IsMempoolStep (s s' : Server) : Type 0 where
  pub server : IsServer s'
  pub mempool :
      (x : Hash)
      → has_key x s'.mg.txid_to_token ≡ (has_valid s'.validator x && not (has s.validator x))
  pub known : (x : Hash) → has s.validator x ≡ true → has s'.validator x ≡ true
  pub valid : (x : Hash) → has_valid s.validator x ≡ true → has_valid s'.validator x ≡ true
  pub graph : s'.g ≡ s.g

cleared_empty : (g : TxGraph) (x : Hash) → has_key x (clear g).txid_to_token ≡ false
unfolding clear has_key find
cleared_empty g x = refl

abbrev refreshed : (List Group → List Group) → Server → Bch → Batch → Server
refreshed order s bch batch = record s {
  bch = bch;
  validator = batch.validator;
  mg = insert_groups (order batch.valid_txs) (clear s.mg);
}

refreshed-IsMempoolStep :
    (order : List Group → List Group) (s : Server) (all : List Hash) (Q : Transaction → Type 0)
    (bch : Bch) (batch : Batch)
    → IsOrder order
    → IsServer s
    → IsBatch s.validator all Q batch
    → IsMempoolStep s (refreshed order s bch batch)
refreshed-IsMempoolStep order s all Q bch batch perm h batched = record {
  server = record {
    formed = batched.formed;
    known = λ x e. ground (arith, batched.valid x, h.known x, batched.known x, batched.listed x, e);
    g = h.g;
    mg = insert_groups-Reachable (order batch.valid_txs) (clear s.mg) (cleared s.mg);
    g_valid = λ x e. ground (arith, batched.valid x, h.g_valid x, e);
    mg_valid = λ x e. ground (arith, batched.valid x, listed x, e);
    apart = λ x e. ground (arith, listed x, batched.unknown x, h.g_valid x, h.known x, e);
  };
  mempool = λ x. ground (arith, listed x, batched.valid x, batched.unknown x, h.known x);
  known = batched.known;
  valid = λ x e. ground (arith, batched.valid x, e);
  graph = refl;
}
  where
    listed :
        (x : Hash)
        → has_key x (insert_groups (order batch.valid_txs) (clear s.mg)).txid_to_token
          ≡ contains x (ids batch.valid_txs_list)
    listed x =
        insert_groups-known (order batch.valid_txs) (clear s.mg) x
        ∙ ap (λ c. c || contains x (group_ids (order batch.valid_txs))) (cleared_empty s.mg x)
        ∙ order-group_ids order batch.valid_txs x perm
        ∙ batched.groups x

-- Let the state be one that the invariant holds of, let each transaction of the mempool have
-- quantities of 64 bits, and let the UTXO database be off, or each of them have no SLP message or at
-- least two outputs. Then `slpsync_process_mempool` gives a state, or ends the process by the exception of
-- `check_mint`. In the state the invariant holds, the graph of the mempool knows just the valid
-- transactions that were unknown before, and the graph of the blocks is the old one.
pub slpsync_process_mempool-IsMempoolStep :
    (order : List Group → List Group) (s : Server) (b : Block)
    → IsOrder order
    → IsServer s
    → All (λ tx. Fits tx.slp.slp_tx) b.txs
    → (s.utxosync ≡ false) ⊎ All HasOutputs b.txs
    → Holds false (IsMempoolStep s) (slpsync_process_mempool order s b)
unfolding slpsync_process_mempool
slpsync_process_mempool-IsMempoolStep order s b perm h fits (inl off) =
    let all_of = λ (tx : Transaction). Unit {0} in
    bind-Holds false (IsBatch s.validator (ids b.txs) all_of) (IsMempoolStep s)
      (collect false (start_batch s.validator) b.txs) _
      (collect-IsBatch false s.validator (ids b.txs) all_of (start_batch s.validator) b.txs fits
        (All-of b.txs (λ tx. tt)) (λ x e. e)
        (start-IsBatch s.validator (ids b.txs) all_of h.formed))
      λ batch batched.
        bind-Holds false (λ bch. Unit {0}) (IsMempoolStep s) _ _
          (utxosync-Holds false s (process_mempool_txs (all_txs (order batch.valid_txs)) s.bch)
            (inl off))
          λ bch u. refreshed-IsMempoolStep order s (ids b.txs) all_of bch batch perm h batched
slpsync_process_mempool-IsMempoolStep order s b perm h fits (inr outputs) =
    bind-Holds false (IsBatch s.validator (ids b.txs) HasOutputs) (IsMempoolStep s)
      (collect false (start_batch s.validator) b.txs) _
      (collect-IsBatch false s.validator (ids b.txs) HasOutputs (start_batch s.validator) b.txs fits
        outputs (λ x e. e) (start-IsBatch s.validator (ids b.txs) HasOutputs h.formed))
      λ batch batched.
        let txs = all_txs (order batch.valid_txs) in
        let readable = order-HasOutputs order batch.valid_txs perm batched.each in
        bind-Holds false (λ bch. Unit {0}) (IsMempoolStep s) _ _
          (utxosync-Holds false s (process_mempool_txs txs s.bch)
            (inr (process_mempool_txs-runs txs s.bch readable)))
          λ bch u. refreshed-IsMempoolStep order s (ids b.txs) HasOutputs bch batch perm h batched
