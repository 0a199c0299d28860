-- ===== src/Bch/Process.antt =====
-- `bch::process_block` and `bch::process_mempool_tx`.
use cpp_slp_graph_search.Prelude.{
  ℕ, ◌+◌, ◌%◌, ◌^◌, List, [], ◌∷◌, ◌++◌, Option, none, some, Bool, true, false, ltb, if◌then◌else◌,
  ite, length,
}
use cpp_slp_graph_search.Prelude.Keys.{bytes_key}
use cpp_slp_graph_search.Prelude.Map.{find, has_key, assign, erase}
use cpp_slp_graph_search.Prelude.Set.{add}
use cpp_slp_graph_search.Slp.Message.{is_invalid}
use cpp_slp_graph_search.Tx.Types.{
  Outpoint, Output, Transaction, outpoint_of, outpoint_key, is_op_return,
}
use cpp_slp_graph_search.Tx.Outputs.{slp_outputs}
use cpp_slp_graph_search.Block.Codec.{Block}
use cpp_slp_graph_search.Topological.Sort.{topological_sort}
use cpp_slp_graph_search.SlpDb.Store.{SlpDb, add_transaction, spend_utxo, put_token}
use cpp_slp_graph_search.Bch.Runs.{Run, ran, failed_assert, read_or, sorted_or, ◌>>=◌}
use cpp_slp_graph_search.UtxoDb.Store.{
  UtxoDb, Script, ScriptIndex, stored, insert_output, add_to_script, remove_from_script,
}

pub record Bch : Type 0 where
  pub utxodb : UtxoDb
  pub slpdb : SlpDb

-- `blk_inputs`, `blk_outputs` and `slp_txs`.
unfoldable pub block_inputs : List Transaction → List Outpoint
block_inputs [] = []
block_inputs (tx ∷ txs) = tx.inputs ++ block_inputs txs

unfoldable pub block_outputs : List Transaction → Run (List Output)
block_outputs [] = ran []
block_outputs (tx ∷ txs) = do
  outputs ← read_or (slp_outputs tx)
  rest ← block_outputs txs
  ran (outputs ++ rest)

unfoldable pub slp_transactions : List Transaction → List Transaction
slp_transactions [] = []
slp_transactions (tx ∷ txs) =
    if is_invalid tx.slp.slp_tx then slp_transactions txs else tx ∷ slp_transactions txs

unfoldable pub remove_outpoint : Outpoint → List Outpoint → List Outpoint
remove_outpoint o [] = []
remove_outpoint o (i ∷ os) =
    ite (outpoint_key.dec i o) (remove_outpoint o os) (i ∷ remove_outpoint o os)

-- `mempool_scriptpubkey_to_output.at(script).erase(oid)`, which leaves an empty set.
unfoldable pub drop_from_script : Script → Output → ScriptIndex → ScriptIndex
drop_from_script s oid index = elim (find s index) [
  | none ↦ index
  | some set ↦ assign s (erase (outpoint_of oid) set) index
]

-- The loop over `blk_outputs`, for an output that is no OP_RETURN.
unfoldable pub add_output : UtxoDb → Output → UtxoDb
unfolding stored insert_output add_to_script drop_from_script remove_outpoint
add_output u m =
    let oid = stored u.outpoint_map m in
    record u {
      outpoint_map = insert_output m u.outpoint_map;
      scriptpubkey_to_output = add_to_script m.scriptpubkey oid u.scriptpubkey_to_output;
      mempool_outpoint_map = erase (outpoint_of m) u.mempool_outpoint_map;
      mempool_scriptpubkey_to_output =
          drop_from_script m.scriptpubkey oid u.mempool_scriptpubkey_to_output;
      mempool_spent_confirmed_outpoints =
          remove_outpoint (outpoint_of oid) u.mempool_spent_confirmed_outpoints;
    }

unfoldable pub add_outputs : List Output → UtxoDb → UtxoDb
unfolding add_output
add_outputs [] u = u
add_outputs (m ∷ ms) u = add_outputs ms (if is_op_return m then u else add_output u m)

-- `this_block_added`
unfoldable pub added_outpoints : List Output → List Outpoint
added_outpoints [] = []
added_outpoints (m ∷ ms) =
    if is_op_return m then added_outpoints ms else outpoint_of m ∷ added_outpoints ms

unfoldable pub add_slp_txs : List Transaction → SlpDb → SlpDb
add_slp_txs [] db = db
add_slp_txs (tx ∷ txs) db = add_slp_txs txs (add_transaction db tx)

-- The first part of the loop over `blk_inputs`: a confirmed output is spent.
unfoldable pub spend_confirmed : UtxoDb → Outpoint → UtxoDb
unfolding remove_from_script remove_outpoint
spend_confirmed u m = elim (find m u.outpoint_map) [
  | none ↦ u
  | some o ↦ record u {
    outpoint_map = erase m u.outpoint_map;
    scriptpubkey_to_output = remove_from_script o.scriptpubkey o u.scriptpubkey_to_output;
    mempool_spent_confirmed_outpoints =
        if has_key o.scriptpubkey u.scriptpubkey_to_output
        then remove_outpoint (outpoint_of o) u.mempool_spent_confirmed_outpoints
        else u.mempool_spent_confirmed_outpoints;
  }
]

-- The second part: an output of the mempool is spent.
unfoldable pub spend_mempool : UtxoDb → Outpoint → UtxoDb
unfolding remove_from_script
spend_mempool u m = elim (find m u.mempool_outpoint_map) [
  | none ↦ u
  | some o ↦ record u {
    mempool_outpoint_map = erase m u.mempool_outpoint_map;
    mempool_scriptpubkey_to_output =
        remove_from_script o.scriptpubkey o u.mempool_scriptpubkey_to_output;
  }
]

-- The third part: the token's outpoint.
unfoldable pub spend_slp : SlpDb → Outpoint → Run SlpDb
unfolding spend_utxo put_token
spend_slp db m = elim (find m db.utxo_to_tokenid) [
  | none ↦ ran db
  | some tokenid ↦ elim (find tokenid db.tokens) [
    | none ↦ failed_assert
    | some token ↦ ran (put_token tokenid (spend_utxo m token) db)
  ]
]

unfoldable pub spend_inputs : List Outpoint → UtxoDb → UtxoDb
unfolding spend_confirmed spend_mempool
spend_inputs [] u = u
spend_inputs (m ∷ ms) u = spend_inputs ms (spend_mempool (spend_confirmed u m) m)

unfoldable pub spend_slp_inputs : List Outpoint → SlpDb → Run SlpDb
unfolding spend_slp
spend_slp_inputs [] db = ran db
spend_slp_inputs (m ∷ ms) db = do db' ← spend_slp db m; spend_slp_inputs ms db'

abbrev pub list_of : Option Output → List Output
list_of none = []
list_of (some o) = o ∷ []

-- `this_block_removed`
unfoldable pub removed_outputs : List Outpoint → UtxoDb → List Output
unfolding spend_confirmed spend_mempool
removed_outputs [] u = []
removed_outputs (m ∷ ms) u =
    list_of (find m u.outpoint_map)
    ++ (list_of (find m (spend_confirmed u m).mempool_outpoint_map)
        ++ removed_outputs ms (spend_mempool (spend_confirmed u m) m))

abbrev pub rollback_depth : ℕ
rollback_depth = 10

-- `push_back`, and `pop_front` when there are too many.
unfoldable pub keep_last {ℓ} : {A : Type ℓ} → A → List A → List A
keep_last a [] = a ∷ []
keep_last a (b ∷ bs) =
    if ltb rollback_depth (length (b ∷ bs) + 1) then bs ++ a ∷ [] else b ∷ (bs ++ a ∷ [])

unfoldable pub save : Bool → List Outpoint → List Output → UtxoDb → UtxoDb
unfolding keep_last
save false added removed u = u
save true added removed u = record u {
  last_block_added = keep_last added u.last_block_added;
  last_block_removed = keep_last removed u.last_block_removed;
}

unfoldable pub raise_height : UtxoDb → UtxoDb
raise_height u = record u { current_block_height = (u.current_block_height + 1) % 2 ^ 32 }

-- What happens to the outputs. The token database does not read them, so the two parts of the loop
-- over the inputs stand side by side.
unfoldable pub process_utxos : List Output → List Outpoint → Bool → UtxoDb → UtxoDb
unfolding add_outputs spend_inputs save removed_outputs added_outpoints raise_height
process_utxos outputs inputs save_rollback u =
    let added = add_outputs outputs (raise_height u) in
    save save_rollback (added_outpoints outputs) (removed_outputs inputs added)
      (spend_inputs inputs added)

-- `process_block(block, save_rollback)`
unfoldable pub process_block : Bch → Block → Bool → Run Bch
unfolding block_inputs block_outputs slp_transactions process_utxos add_slp_txs spend_slp_inputs
process_block s b save_rollback = do
  outputs ← block_outputs b.txs
  slp_txs ← sorted_or (topological_sort (slp_transactions b.txs))
  slpdb ← spend_slp_inputs (block_inputs b.txs) (add_slp_txs slp_txs s.slpdb)
  ran (record {
    utxodb = process_utxos outputs (block_inputs b.txs) save_rollback s.utxodb;
    slpdb = slpdb;
  })

-- The loops of `process_mempool_tx`.
unfoldable pub add_mempool_output : UtxoDb → Output → UtxoDb
unfolding stored insert_output add_to_script
add_mempool_output u m = record u {
  mempool_outpoint_map = insert_output m u.mempool_outpoint_map;
  mempool_scriptpubkey_to_output =
      add_to_script m.scriptpubkey (stored u.mempool_outpoint_map m)
        u.mempool_scriptpubkey_to_output;
}

unfoldable pub add_mempool_outputs : List Output → UtxoDb → UtxoDb
unfolding add_mempool_output
add_mempool_outputs [] u = u
add_mempool_outputs (m ∷ ms) u =
    add_mempool_outputs ms (if is_op_return m then u else add_mempool_output u m)

unfoldable pub use_input : UtxoDb → Outpoint → UtxoDb
unfolding remove_from_script
use_input u m = elim (find m u.mempool_outpoint_map) [
  | none ↦ record u {
    mempool_spent_confirmed_outpoints = add m u.mempool_spent_confirmed_outpoints;
  }
  | some o ↦ record u {
    mempool_scriptpubkey_to_output =
        remove_from_script o.scriptpubkey o u.mempool_scriptpubkey_to_output;
  }
]

unfoldable pub use_inputs : List Outpoint → UtxoDb → UtxoDb
unfolding use_input
use_inputs [] u = u
use_inputs (m ∷ ms) u = use_inputs ms (use_input u m)

-- `process_mempool_tx(tx)`
unfoldable pub process_mempool_tx : Bch → Transaction → Run Bch
unfolding add_mempool_outputs use_inputs
process_mempool_tx s tx = do
  outputs ← read_or (slp_outputs tx)
  ran (record {
    utxodb = use_inputs tx.inputs (add_mempool_outputs outputs s.utxodb);
    slpdb = if is_invalid tx.slp.slp_tx then s.slpdb else add_transaction s.slpdb tx;
  })
