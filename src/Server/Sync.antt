-- ===== src/Server/Sync.antt =====
-- `slpsync_bitcoind_process_block`, `slpsync_bitcoind_process_mempool` and
-- `slpsync_bitcoind_process_tx` of server/gs++.cpp. Each holds `processing_mutex`, so that they run
-- one after the other.
pub mod Keys
pub mod Order
pub mod Blocks
pub mod Mempool
pub mod Accept
pub mod Reached
pub mod Known
pub mod Examples
use cpp_slp_graph_search.Prelude.{
  ℕ, List, [], ◌∷◌, ◌++◌, Option, none, some, Bool, true, false, if◌then◌else◌, ite,
}
use cpp_slp_graph_search.Prelude.Keys.{bytes_key, bytes_discrete}
use cpp_slp_graph_search.Prelude.Map.{Map, find, insert, assign}
use cpp_slp_graph_search.Slp.Message.{Hash, is_invalid}
use cpp_slp_graph_search.Tx.Types.{Transaction}
use cpp_slp_graph_search.Block.Codec.{Block}
use cpp_slp_graph_search.Graph.Store.{TxGraph, clear, insert_token_data}
use cpp_slp_graph_search.Validator.State.{Validator, has}
use cpp_slp_graph_search.Validator.Check.{Verdict, verdict, rare_condition, add_tx}
use cpp_slp_graph_search.Validator.Check
use cpp_slp_graph_search.Bch.Runs.{Run, ran, failed_assert}
use cpp_slp_graph_search.Bch.Runs
use cpp_slp_graph_search.Bch.Process.{Bch, process_mempool_tx}
use cpp_slp_graph_search.Bch.Process

-- A result, or one of: an assertion that fails or an exception that nothing catches, which end the
-- process; a read of `outputs` out of range, which is undefined; in the model only, the end of a fuel.
pub data Synced {ℓ} (A : Type ℓ) : Type ℓ where
  synced : A → Synced A
  aborted bad_read out_of_fuel : Synced A

infixl 5 ◌>>=◌
abbrev pub ◌>>=◌ {ℓ κ} : {A : Type ℓ} {B : Type κ} → Synced A → (A → Synced B) → Synced B
synced a >>= f = f a
aborted >>= f = aborted
bad_read >>= f = bad_read
out_of_fuel >>= f = out_of_fuel

abbrev pub of_run {ℓ} : {A : Type ℓ} → Run A → Synced A
of_run (ran a) = synced a
of_run Run.bad_read = bad_read
of_run failed_assert = aborted
of_run Run.out_of_fuel = out_of_fuel

abbrev pub of_verdict {ℓ} : {A : Type ℓ} → Verdict A → Synced A
of_verdict (verdict a) = synced a
of_verdict rare_condition = aborted
of_verdict Verdict.out_of_fuel = out_of_fuel

-- The global variables that the functions change, and `utxosync`.
pub record Server : Type 0 where
  pub validator : Validator
  pub g : TxGraph
  pub mg : TxGraph
  pub bch : Bch
  pub utxosync : Bool

-- An entry of `valid_txs`.
abbrev pub Group : Type 0
Group = Hash × List Transaction

-- `push_back` to the entry of the token, or a new entry.
unfoldable pub push_tx : Hash → Transaction → List Group → List Group
push_tx tokenid tx [] = (tokenid, tx ∷ []) ∷ []
push_tx tokenid tx ((t, txs) ∷ groups) =
    ite (bytes_discrete t tokenid) ((t, txs ++ tx ∷ []) ∷ groups)
      ((t, txs) ∷ push_tx tokenid tx groups)

-- The validator, and what the loop over the transactions gathers.
pub record Batch : Type 0 where
  pub validator : Validator
  pub valid_txs : List Group
  pub valid_txs_list : List Transaction

unfoldable pub take_in : Batch → Transaction → Validator × Bool → Batch
unfolding push_tx
take_in b tx (v, true) = record {
  validator = v;
  valid_txs = push_tx tx.slp.tokenid tx b.valid_txs;
  valid_txs_list = b.valid_txs_list ++ tx ∷ [];
}
take_in b tx (v, false) = record b { validator = v }

-- One round of the loop.
unfoldable pub add_block_tx : Bool → Batch → Transaction → Synced Batch
unfolding has add_tx take_in
add_block_tx trusted b tx =
    if has b.validator tx.txid
    then synced b
    else (of_verdict (add_tx b.validator tx trusted) >>= λ r. synced (take_in b tx r))

unfoldable pub collect : Bool → Batch → List Transaction → Synced Batch
unfolding add_block_tx
collect trusted b [] = synced b
collect trusted b (tx ∷ txs) = do b' ← add_block_tx trusted b tx; collect trusted b' txs

abbrev pub start_batch : Validator → Batch
start_batch v = record { validator = v; valid_txs = []; valid_txs_list = [] }

unfoldable pub insert_groups : List Group → TxGraph → TxGraph
insert_groups [] g = g
insert_groups ((tokenid, txs) ∷ groups) g = insert_groups groups (insert_token_data g tokenid txs).0

unfoldable pub process_mempool_txs : List Transaction → Bch → Run Bch
process_mempool_txs [] s = ran s
process_mempool_txs (tx ∷ txs) s = Runs.◌>>=◌ (process_mempool_tx s tx) (process_mempool_txs txs)

unfoldable pub all_txs : List Group → List Transaction
all_txs [] = []
all_txs ((tokenid, txs) ∷ groups) = txs ++ all_txs groups

-- `order` is the order in which a hash map lists its entries.
module _ (order : List Group → List Group) where
  -- The transactions of `valid_txs_list` come with the state. The function always returns true.
  unfoldable pub slpsync_process_block : Server → Block → Bool → Synced (Server × List Transaction)
  unfolding collect insert_groups
  slpsync_process_block s b trusted = do
    bch ← if s.utxosync then of_run (Process.process_block s.bch b true) else synced s.bch
    batch ← collect trusted (start_batch s.validator) b.txs
    synced (
      record s {
        bch = bch;
        validator = batch.validator;
        g = insert_groups (order batch.valid_txs) s.g;
      },
      batch.valid_txs_list,
    )

  unfoldable pub slpsync_process_mempool : Server → Block → Synced Server
  unfolding collect insert_groups process_mempool_txs all_txs
  slpsync_process_mempool s b = do
    batch ← collect false (start_batch s.validator) b.txs
    bch ←
        if s.utxosync
        then of_run (process_mempool_txs (all_txs (order batch.valid_txs)) s.bch)
        else synced s.bch
    synced (record s {
      bch = bch;
      validator = batch.validator;
      mg = insert_groups (order batch.valid_txs) (clear s.mg);
    })

unfoldable pub accept_tx : Server → Transaction → Validator × Bool → Server × Bool
accept_tx s tx (v, true) =
    (record s { validator = v; mg = (insert_token_data s.mg tx.slp.tokenid (tx ∷ [])).0 }, true)
accept_tx s tx (v, false) = (record s { validator = v }, false)

unfoldable pub slpsync_process_tx : Server → Transaction → Synced (Server × Bool)
unfolding accept_tx has add_tx
slpsync_process_tx s tx = do
  bch ← if s.utxosync then of_run (process_mempool_tx s.bch tx) else synced s.bch
  if is_invalid tx.slp.slp_tx
      then synced (record s { bch = bch }, false)
      else if has s.validator tx.txid
      then synced (record s { bch = bch }, false)
      else (of_verdict (add_tx s.validator tx false) >>= λ r.
          synced (accept_tx (record s { bch = bch }) tx r))
