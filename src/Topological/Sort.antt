-- ===== src/Topological/Sort.antt =====
-- `topological_sort` and `topological_sort_internal` of src/util.cpp.
use cpp_slp_graph_search.Prelude.{
  ℕ, zero, suc, List, [], ◌∷◌, ◌++◌, Option, none, some, if◌then◌else◌, length,
}
use cpp_slp_graph_search.Prelude.Keys.{bytes_key}
use cpp_slp_graph_search.Prelude.Map.{Map, find, insert}
use cpp_slp_graph_search.Prelude.Set.{contains}
use cpp_slp_graph_search.Slp.Message.{Hash}
use cpp_slp_graph_search.Tx.Types.{Outpoint, Transaction}
use cpp_slp_graph_search.Block.Codec.{Block}

-- `stack` and `visited`, which every call gets by reference.
pub record Dfs : Type 0 where
  pub stack : List Transaction
  pub visited : List Hash

-- The loop `transactions.insert({ tx.txid, tx })`.
unfoldable pub index : Map Hash Transaction → List Transaction → Map Hash Transaction
index transactions [] = transactions
index transactions (tx ∷ txs) = index (insert tx.txid tx transactions) txs

-- `none` is the end of the fuel, in the model only.
abbrev pub Recur : Type 0
Recur = Transaction → Dfs → Option Dfs

abbrev pub and_then {ℓ} : {A B : Type ℓ} → Option A → (A → Option B) → Option B
and_then none k = none
and_then (some a) k = k a

-- The loop over `tx.inputs`.
unfoldable pub visit_inputs : Map Hash Transaction → Recur → List Outpoint → Dfs → Option Dfs
visit_inputs transactions recur [] d = some d
visit_inputs transactions recur (o ∷ os) d =
    if contains o.txid d.visited
    then visit_inputs transactions recur os d
    else elim (find o.txid transactions) [
      | none ↦ visit_inputs transactions recur os d
      | some parent ↦ and_then (recur parent d) (visit_inputs transactions recur os)
    ]

abbrev pub enter : Transaction → Dfs → Dfs
enter tx d = record d { visited = tx.txid ∷ d.visited }

abbrev pub leave : Transaction → Dfs → Option Dfs
leave tx d = some (record d { stack = d.stack ++ tx ∷ [] })

unfoldable pub topological_sort_internal : Map Hash Transaction → ℕ → Recur
unfolding visit_inputs
topological_sort_internal transactions zero tx d = none
topological_sort_internal transactions (suc fuel) tx d =
    and_then
      (visit_inputs transactions (topological_sort_internal transactions fuel) tx.inputs
        (enter tx d))
      (leave tx)

-- The last loop over `tx_list`.
unfoldable pub visit_roots : Recur → List Transaction → Dfs → Option Dfs
visit_roots recur [] d = some d
visit_roots recur (tx ∷ txs) d =
    if contains tx.txid d.visited
    then visit_roots recur txs d
    else and_then (recur tx d) (visit_roots recur txs)

-- Each call visits one more id, so the calls nest no deeper than the list is long.
unfoldable pub topological_sort : List Transaction → Option (List Transaction)
unfolding index topological_sort_internal visit_roots
topological_sort tx_list =
    and_then
      (visit_roots (topological_sort_internal (index [] tx_list) (suc (length tx_list))) tx_list
        (record { stack = []; visited = [] }))
      (λ d. some d.stack)

-- `block::topological_sort`
unfoldable pub sort_block : Block → Option Block
unfolding topological_sort
sort_block b = and_then (topological_sort b.txs) (λ txs. some (record b { txs = txs }))
