-- ===== src/Graph/Known.antt =====
-- The transactions that `txgraph` (src/txgraph.cpp) knows after `insert_token_data`.
use cpp_slp_graph_search.Prelude.{
  ◌≡◌, subst, List, [], ◌∷◌, true, ◌||◌, arith, inl, inr, Bool-cases,
}
use cpp_slp_graph_search.Prelude.Keys.{bytes_key, bytes_discrete}
use cpp_slp_graph_search.Prelude.Map.{Map, has_key, insert, find-insert}
use cpp_slp_graph_search.Prelude.Set.{contains}
use cpp_slp_graph_search.Slp.Message.{Hash}
use cpp_slp_graph_search.Tx.Types.{Transaction}
use cpp_slp_graph_search.Topological.Order.{ids}
use cpp_slp_graph_search.Graph.Store.{
  TxGraph, Pass, add_node, first_pass, start_pass, finish_pass, insert_token_data,
}

pub has_key-insert :
    {V : Type 0} (k x : Hash) (v : V) (m : Map Hash V)
    → has_key x (insert k v m) ≡ (has_key x m || contains x (k ∷ []))
unfolding has_key contains
has_key-insert k x v m = ground (arith, find-insert k x v m)

known_again :
    {V : Type 0} (k x : Hash) (m : Map Hash V)
    → has_key k m ≡ true
    → has_key x m ≡ (has_key x m || contains x (k ∷ []))
unfolding contains
known_again k x m e = elim (bytes_discrete k x) [
  | yes same ↦ let e' : has_key x m ≡ true = subst (λ j. has_key j m ≡ true) same e in ground arith
  | no other ↦ ground arith
]

add_node-known :
    (tokenid : Hash) (p : Pass) (tx : Transaction) (x : Hash)
    → has_key x (add_node tokenid p tx).txid_to_token
      ≡ (has_key x p.txid_to_token || contains x (tx.txid ∷ []))
unfolding add_node
add_node-known tokenid p tx x = elim (Bool-cases (has_key tx.txid p.txid_to_token)) [
  | inl e ↦ rw e (known_again tx.txid x p.txid_to_token e)
  | inr e ↦ rw e (has_key-insert tx.txid x tokenid p.txid_to_token)
]

first_pass-known :
    (tokenid : Hash) (p : Pass) (txs : List Transaction) (x : Hash)
    → has_key x (first_pass tokenid p txs).txid_to_token
      ≡ (has_key x p.txid_to_token || contains x (ids txs))
unfolding first_pass contains
first_pass-known tokenid p [] x = ground arith
first_pass-known tokenid p (tx ∷ txs) x =
    ground
      (arith, first_pass-known tokenid (add_node tokenid p tx) txs x, add_node-known tokenid p tx x)

-- Afterwards a graph knows what it knew before, and the transactions that were inserted.
pub insert_token_data-known :
    (g : TxGraph) (tokenid : Hash) (txs : List Transaction) (x : Hash)
    → has_key x (insert_token_data g tokenid txs).0.txid_to_token
      ≡ (has_key x g.txid_to_token || contains x (ids txs))
unfolding insert_token_data finish_pass start_pass
insert_token_data-known g tokenid txs x = first_pass-known tokenid (start_pass g tokenid) txs x
