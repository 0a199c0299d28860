-- ===== src/Graph/Examples.antt =====
-- The search in a chain of three transactions, from the last, with the first excluded.
use cpp_slp_graph_search.Prelude.{
  ℕ, ap, arith, All, ◌≡◌, refl, some, List, [], ◌∷◌, true, map, ◌↔◌, ◌||◌,
}
use cpp_slp_graph_search.Prelude.Keys.{bytes_key, bytes_discrete}
use cpp_slp_graph_search.Prelude.Map.{find, has_key, insert}
use cpp_slp_graph_search.Prelude.Set.{contains}
use cpp_slp_graph_search.Prelude.Distinct.{nodup}
use cpp_slp_graph_search.Slp.Message.{invalid}
use cpp_slp_graph_search.Tx.Types.{Transaction}
use cpp_slp_graph_search.Graph.Store.{
  clear, insert_token_data, Ref-discrete, Ref, ref_key, TxGraph, token_graph,
}
use cpp_slp_graph_search.Graph.Search.{graph_search, response, ok}
use cpp_slp_graph_search.Graph.Fresh.{txdata_of}
use cpp_slp_graph_search.Graph.Correct.{Route}
use cpp_slp_graph_search.Graph.Reachable.{cleared, inserted, graph_search-Reachable}
use cpp_slp_graph_search.Graph.Nodes.{insert_token_data-node_of}
use cpp_slp_graph_search.Graph.Inserted.{node_of}
use cpp_slp_graph_search.Graph.Ends.{IsLinked, all_refs, refs_of}

abbrev ref : ℕ → Ref
ref n = record { tokenid = 1 ∷ []; txid = n ∷ [] }

abbrev chain : TxGraph
chain = record {
  tokens =
      (
        1 ∷ [],
        (1 ∷ [], record { inputs = []; txdata = 10 ∷ [] })
            ∷ (2 ∷ [], record { inputs = ref 1 ∷ []; txdata = 20 ∷ [] })
            ∷ (3 ∷ [], record { inputs = ref 2 ∷ ref 1 ∷ []; txdata = 30 ∷ [] })
            ∷ [],
      )
      ∷ [];
  txid_to_token = (1 ∷ [], 1 ∷ []) ∷ (2 ∷ [], 1 ∷ []) ∷ (3 ∷ [], 1 ∷ []) ∷ [];
}

chain-IsLinked : IsLinked chain
unfolding all_refs refs_of contains Ref-discrete
chain-IsLinked = ((tt, ((refl, tt), ((refl, (refl, tt)), tt))), tt)

-- Transaction number `n`, which spends an output of the parent.
abbrev tx_from : ℕ → ℕ → Transaction
tx_from n parent = record {
  txid = n ∷ [];
  version = 1;
  lock_time = 0;
  inputs = record { txid = parent ∷ []; vout = 1 } ∷ [];
  outputs = [];
  slp = record { tokenid = 1 ∷ []; token_type = 1; slp_tx = invalid };
  serialized = n ∷ n ∷ [];
}

-- The graph after two insertions, of the first two transactions of the token and of one more.
abbrev grown : TxGraph
grown =
    (insert_token_data (insert_token_data (clear chain) (1 ∷ []) (tx_from 1 0 ∷ tx_from 2 1 ∷ [])).0
      (1 ∷ []) (tx_from 3 2 ∷ [])).0

grown-knows : find (3 ∷ []) grown.txid_to_token ≡ some (1 ∷ [])
unfolding insert_token_data clear find insert has_key bytes_discrete
grown-knows = refl

graph_search-Reachable_example :
    (order : List Ref) × (after : List Ref) × (graph_search grown (3 ∷ []) (ref 1 ∷ [])
      ≡ response ok (map (txdata_of grown) order) after)
    × (nodup order ≡ true)
    × ((v : Ref) → contains v order ≡ true ↔ Route grown (ref 3) (ref 1 ∷ []) v)
    × ((v : Ref) → contains v after ≡ (contains v order || contains v (ref 1 ∷ [])))
graph_search-Reachable_example =
    graph_search-Reachable grown (3 ∷ []) (1 ∷ []) (ref 1 ∷ [])
      (inserted (inserted (cleared chain) (1 ∷ []) (tx_from 1 0 ∷ tx_from 2 1 ∷ [])) (1 ∷ [])
        (tx_from 3 2 ∷ []))
      grown-knows

abbrev first_byte : List ℕ → ℕ
first_byte [] = 0
first_byte (b ∷ v) = b

-- A child and its parent enter an empty graph, the child first.
insert_token_data-node_of_example :
    ((insert_token_data (clear chain) (1 ∷ []) (tx_from 2 1 ∷ tx_from 1 0 ∷ [])).1 ≡ 2)
    × All
        (λ tx.
          find tx.txid (
            token_graph
              (insert_token_data (clear chain) (1 ∷ []) (tx_from 2 1 ∷ tx_from 1 0 ∷ [])).0
              (1 ∷ []))
          ≡ some (
              node_of
                (1 ∷ [])
                (token_graph
                  (insert_token_data (clear chain) (1 ∷ []) (tx_from 2 1 ∷ tx_from 1 0 ∷ [])).0
                  (1 ∷ []))
                tx))
        (tx_from 2 1 ∷ tx_from 1 0 ∷ [])
unfolding clear find has_key token_graph
insert_token_data-node_of_example =
    insert_token_data-node_of (clear chain) (1 ∷ []) (tx_from 2 1 ∷ tx_from 1 0 ∷ [])
      (
        (((λ e. omega (arith, ap first_byte e)), (λ e. omega (arith, ap first_byte e))), tt),
        (tt, tt),
      )
      ((refl, refl), ((refl, refl), tt))
