-- ===== src/Bch/Indexed.antt =====
-- The index by script under `process_block`.
use cpp_slp_graph_search.Prelude.{◌++◌}
use cpp_slp_graph_search.Tx.Types.{Transaction}
use cpp_slp_graph_search.Tx.Outputs.Described.{token_outputs}
use cpp_slp_graph_search.Prelude.{◌≡◌, sym, ap, ◌∙◌, List, [], ◌∷◌, none, Bool, true, All}
use cpp_slp_graph_search.Prelude.Map.{Map, find}
use cpp_slp_graph_search.Prelude.Distinct.{nodup}
use cpp_slp_graph_search.Tx.Types.{Outpoint, Output, outpoint_key}
use cpp_slp_graph_search.UtxoDb.Store.{UtxoDb}
use cpp_slp_graph_search.UtxoDb.Index.{IsIndexed}
use cpp_slp_graph_search.Block.Codec.{Block}
use cpp_slp_graph_search.Topological.Sort.{topological_sort}
use cpp_slp_graph_search.Bch.Runs.{ran, sorted_or, bind-ran, ran_or}
use cpp_slp_graph_search.Bch.Process.{
  process_utxos, Bch, block_outputs, block_inputs, process_block, slp_transactions, add_slp_txs,
  spend_slp_inputs,
}

-- Outputs that are not in the map and differ from one another.
abbrev pub IsFresh : List Outpoint → Map Outpoint Output → Type 0
IsFresh os map = (nodup os ≡ true) × All (λ o. find o map ≡ none) os

-- The index of a state agrees with its map of confirmed outputs.
abbrev pub IsIndexedDb : UtxoDb → Type 0
IsIndexedDb u = IsIndexed u.outpoint_map u.scriptpubkey_to_output

-- When `process_block` ends, the state has the outputs that `process_utxos` makes.
pub process_block-process_utxos :
    (s s' : Bch) (b : Block) (save_rollback : Bool) (outputs : List Output)
    → block_outputs b.txs ≡ ran outputs
    → process_block s b save_rollback ≡ ran s'
    → s'.utxodb ≡ process_utxos outputs (block_inputs b.txs) save_rollback s.utxodb
unfolding process_block
process_block-process_utxos s s' b save_rollback outputs read e =
    let (read_outputs, e₁, rest₁) = bind-ran (block_outputs b.txs) _ e in
    let (sorted, e₂, rest₂) =
      bind-ran (sorted_or (topological_sort (slp_transactions b.txs))) _ rest₁ in
    let (slpdb, e₃, rest₃) =
      bind-ran (spend_slp_inputs (block_inputs b.txs) (add_slp_txs sorted s.slpdb)) _ rest₂ in
    let same : read_outputs ≡ outputs = ap (ran_or []) (sym e₁ ∙ read) in
    sym (ap (λ r. (ran_or s r).utxodb) rest₃)
    ∙ ap (λ os. process_utxos os (block_inputs b.txs) save_rollback s.utxodb) same

-- The outputs of the block's transactions that their SLP messages refer to.
unfoldable pub block_token_outputs : List Transaction → List Output
block_token_outputs [] = []
block_token_outputs (tx ∷ txs) = token_outputs tx ++ block_token_outputs txs
