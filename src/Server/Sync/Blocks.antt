-- ===== src/Server/Sync/Blocks.antt =====
-- `slpsync_bitcoind_process_block` of server/gs++.cpp: what a block adds.
use cpp_slp_graph_search.Prelude.{
  ◌≡◌, refl, ap, ◌∙◌, ◌⊎◌, inl, inr, List, [], ◌∷◌, true, false, Bool, ◌||◌, arith, Bool-cases,
  if◌then◌else◌, All, All-of,
}
use cpp_slp_graph_search.Prelude.Keys.{bytes_key}
use cpp_slp_graph_search.Prelude.Map.{has_key}
use cpp_slp_graph_search.Prelude.Set.{contains}
use cpp_slp_graph_search.Slp.Message.{Hash}
use cpp_slp_graph_search.Tx.Types.{Transaction}
use cpp_slp_graph_search.Topological.Order.{ids}
use cpp_slp_graph_search.Block.Codec.{Block}
use cpp_slp_graph_search.Graph.Store.{TxGraph, insert_token_data}
use cpp_slp_graph_search.Graph.Reachable.{Reachable, inserted}
use cpp_slp_graph_search.Validator.State.{has, has_valid}
use cpp_slp_graph_search.Validator.Send.{Fits, IsWellFormed}
use cpp_slp_graph_search.Bch.Runs.{Run, ran}
use cpp_slp_graph_search.Bch.Process.{Bch}
use cpp_slp_graph_search.Bch.Process
use cpp_slp_graph_search.Server.Sync.{
  synced, of_run, Server, Group, Batch, start_batch, collect, insert_groups, slpsync_process_block,
}
use cpp_slp_graph_search.Server.Sync.Order.{IsOrder, order-group_ids}
use cpp_slp_graph_search.Server.Sync.Keys.{
  IsBatch, Holds, bind-Holds, collect-IsBatch, start-IsBatch, insert_groups-known,
}

-- What holds between the functions: a valid transaction is known, a transaction of a graph is valid,
-- and none is in both graphs.
pub record IsServer (s : Server) : Type 0 where
  pub formed : IsWellFormed s.validator
  pub known : (x : Hash) → has_valid s.validator x ≡ true → has s.validator x ≡ true
  pub g : Reachable s.g
  pub mg : Reachable s.mg
  pub g_valid : (x : Hash) → has_key x s.g.txid_to_token ≡ true → has_valid s.validator x ≡ true
  pub mg_valid : (x : Hash) → has_key x s.mg.txid_to_token ≡ true → has_valid s.validator x ≡ true
  pub apart : (x : Hash) → has_key x s.g.txid_to_token ≡ true → has_key x s.mg.txid_to_token ≡ false

-- The UTXO database is off, or this run of it gives a state.
abbrev pub BchEnds : Server → Run Bch → Type 0
BchEnds s r = (s.utxosync ≡ false) ⊎ ((bch : Bch) × (r ≡ ran bch))

pub utxosync-Holds :
    (safe : Bool) (s : Server) (r : Run Bch)
    → BchEnds s r
    → Holds safe (λ bch. Unit {0}) (if s.utxosync then of_run r else synced s.bch)
utxosync-Holds safe s r (inl off) = rw off tt
utxosync-Holds safe s r (inr (bch, e)) = elim (Bool-cases s.utxosync) [
  | inl on ↦ rw (on, e) tt
  | inr off ↦ rw off tt
]

pub insert_groups-Reachable :
    (groups : List Group) (g : TxGraph) → Reachable g → Reachable (insert_groups groups g)
unfolding insert_groups
insert_groups-Reachable [] g r = r
insert_groups-Reachable ((t, txs) ∷ groups) g r =
    insert_groups-Reachable groups (insert_token_data g t txs).0 (inserted r t txs)

-- What a block makes of the state: the transactions in the list come from it, were unknown, and are
-- what the validator's valid transactions and the graph of the blocks gain.
pub record IsBlockStep (s : Server) (b : Block) (r : Server × List Transaction) : Type 0 where
  pub server : IsServer r.0
  pub valid :
      (x : Hash) → has_valid r.0.validator x ≡ (has_valid s.validator x || contains x (ids r.1))
  pub graph :
      (x : Hash)
      → has_key x r.0.g.txid_to_token ≡ (has_key x s.g.txid_to_token || contains x (ids r.1))
  pub inside : (x : Hash) → contains x (ids r.1) ≡ true → contains x (ids b.txs) ≡ true
  pub unknown : (x : Hash) → contains x (ids r.1) ≡ true → has s.validator x ≡ false
  pub known : (x : Hash) → has s.validator x ≡ true → has r.0.validator x ≡ true
  pub mempool : r.0.mg ≡ s.mg
  pub mode : r.0.utxosync ≡ s.utxosync

-- The state and the list at the end of `slpsync_process_block`.
abbrev ended : (List Group → List Group) → Server → Bch → Batch → Server × List Transaction
ended order s bch batch = (
  record s {
    bch = bch;
    validator = batch.validator;
    g = insert_groups (order batch.valid_txs) s.g;
  },
  batch.valid_txs_list,
)

ended-IsBlockStep :
    (order : List Group → List Group) (s : Server) (b : Block) (bch : Bch) (batch : Batch)
    → IsOrder order
    → IsServer s
    → IsBatch s.validator (ids b.txs) (λ tx. Unit) batch
    → IsBlockStep s b (ended order s bch batch)
ended-IsBlockStep order s b bch batch perm h batched = record {
  server = record {
    formed = batched.formed;
    known = λ x e. ground (arith, batched.valid x, h.known x, batched.known x, batched.listed x, e);
    g = insert_groups-Reachable (order batch.valid_txs) s.g h.g;
    mg = h.mg;
    g_valid = λ x e. ground (arith, graph x, batched.valid x, h.g_valid x, e);
    mg_valid = λ x e. ground (arith, batched.valid x, h.mg_valid x, e);
    apart =
        λ x e. ground (arith, graph x, h.apart x, batched.unknown x, h.mg_valid x, h.known x, e);
  };
  valid = batched.valid;
  graph = graph;
  inside = batched.inside;
  unknown = batched.unknown;
  known = batched.known;
  mempool = refl;
  mode = refl;
}
  where
    graph :
        (x : Hash)
        → has_key x (insert_groups (order batch.valid_txs) s.g).txid_to_token
          ≡ (has_key x s.g.txid_to_token || contains x (ids batch.valid_txs_list))
    graph x =
        insert_groups-known (order batch.valid_txs) s.g x
        ∙ ap (λ c. has_key x s.g.txid_to_token || c)
            (order-group_ids order batch.valid_txs x perm ∙ batched.groups x)

-- Let the state be one that the invariant holds of, the quantities of the block have 64 bits, and the
-- UTXO database be off or process the block. Then `slpsync_process_block` gives a state, or, only where the
-- block is not trusted, ends the process by the exception of `check_mint`. In the state the invariant
-- holds; the transactions judged valid and those that the graph of the blocks knows have grown by the
-- same ones, those of the returned list, which are of the block and were unknown to the validator
-- before; and the graph of the mempool is the old one.
pub slpsync_process_block-IsBlockStep :
    (order : List Group → List Group) (s : Server) (b : Block) (trusted : Bool)
    → IsOrder order
    → IsServer s
    → All (λ tx. Fits tx.slp.slp_tx) b.txs
    → BchEnds s (Process.process_block s.bch b true)
    → Holds trusted (IsBlockStep s b) (slpsync_process_block order s b trusted)
unfolding slpsync_process_block
slpsync_process_block-IsBlockStep order s b trusted perm h fits ends =
    bind-Holds trusted (λ bch. Unit {0}) (IsBlockStep s b) _ _ (utxosync-Holds trusted s _ ends)
      λ bch u.
        bind-Holds trusted (IsBatch s.validator (ids b.txs) (λ tx. Unit)) (IsBlockStep s b)
          (collect trusted (start_batch s.validator) b.txs) _
          (collect-IsBatch trusted s.validator (ids b.txs) (λ tx. Unit) (start_batch s.validator)
            b.txs fits (All-of b.txs (λ tx. tt)) (λ x e. e)
            (start-IsBatch s.validator (ids b.txs) (λ tx. Unit) h.formed))
          λ batch batched. ended-IsBlockStep order s b bch batch perm h batched
