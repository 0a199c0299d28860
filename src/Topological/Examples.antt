-- ===== src/Topological/Examples.antt =====
-- A child listed before its parent.
use cpp_slp_graph_search.Prelude.{ℕ, ◌≡◌, refl, List, [], ◌∷◌, some, true, arith, inl, inr, All}
use cpp_slp_graph_search.Prelude.Keys.{bytes_key, bytes_discrete}
use cpp_slp_graph_search.Prelude.Map.{find, insert}
use cpp_slp_graph_search.Prelude.Set.{contains}
use cpp_slp_graph_search.Prelude.Distinct.{nodup}
use cpp_slp_graph_search.Slp.Message.{Hash, invalid}
use cpp_slp_graph_search.Tx.Types.{Transaction}
use cpp_slp_graph_search.Topological.Sort.{index, topological_sort}
use cpp_slp_graph_search.Topological.Order.{ids, IsOrdered}
use cpp_slp_graph_search.Topological.Correct.{topological_sort-IsOrdered}

abbrev tx_from : ℕ → ℕ → Transaction
tx_from n parent = record {
  txid = n ∷ [];
  version = 1;
  lock_time = 0;
  inputs = record { txid = parent ∷ []; vout = 0 } ∷ [];
  outputs = [];
  slp = record { tokenid = []; token_type = 0; slp_tx = invalid };
  serialized = [];
}

abbrev child_first : List Transaction
child_first = tx_from 3 2 ∷ tx_from 2 1 ∷ []

abbrev first_byte : Hash → ℕ
first_byte [] = 0
first_byte (b ∷ v) = b

-- The parent comes out first.
child_first-sorted : topological_sort child_first ≡ some (tx_from 2 1 ∷ tx_from 3 2 ∷ [])
unfolding topological_sort find insert contains bytes_discrete
child_first-sorted = refl

topological_sort-IsOrdered_example :
    (sorted : List Transaction) × (topological_sort child_first ≡ some sorted)
    × (nodup (ids sorted) ≡ true)
    × ((v : Hash) → contains v (ids sorted) ≡ contains v (ids child_first))
    × All (λ t. find t.txid (index [] child_first) ≡ some t) sorted
    × IsOrdered (λ v. contains v (ids child_first)) [] sorted
unfolding nodup contains bytes_discrete
topological_sort-IsOrdered_example =
    topological_sort-IsOrdered first_byte child_first refl
      ((inr (omega arith), tt), ((inl refl, tt), tt))
