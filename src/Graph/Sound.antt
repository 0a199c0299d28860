-- ===== src/Graph/Sound.antt =====
-- What holds of every state of `txgraph` (src/txgraph.cpp), through `insert_token_data`.
use cpp_slp_graph_search.Prelude.{
  ◌+◌, ◌≡◌, refl, sym, ap, ◌∙◌, subst, List, [], ◌∷◌, ◌++◌, none, some, Bool, true, false, arith,
  inl, inr, Option-cases, if◌then◌else◌, All, All-imp, ite, map,
}
use cpp_slp_graph_search.Prelude.Keys.{bytes_key, bytes_discrete}
use cpp_slp_graph_search.Prelude.Map.{
  Map, find, has_key, insert, assign, find-All, All-insert, All-erase, find-assign,
}
use cpp_slp_graph_search.Slp.Message.{Hash}
use cpp_slp_graph_search.Tx.Types.{Transaction}
use cpp_slp_graph_search.Graph.Store.{
  ref_key, GraphNode, TokenGraph, TxGraph, Pass, clear, token_graph, add_node, first_pass,
  start_pass, second_pass, finish_pass, insert_token_data,
}
use cpp_slp_graph_search.Graph.Closed.{
  IsClosed, Extends, insert-Extends, has_key-insert_self, insert-IsClosed, second_pass-IsClosed,
}

-- An entry of `txid_to_token` whose transaction is in the graph of its token.
abbrev IsPlaced : (Hash → TokenGraph) → Hash × Hash → Type 0
IsPlaced graph_of entry = has_key entry.0 (graph_of entry.1) ≡ true

-- Pointers stay inside the graph of a token, and every known transaction is in the graph of its
-- token.
pub record IsSound (g : TxGraph) : Type 0 where
  pub closed : All (λ t. IsClosed t.0 t.1) g.tokens
  pub placed : All (IsPlaced (token_graph g)) g.txid_to_token

-- The graph of each token, with one that is being changed.
abbrev pub with_graph : TxGraph → Hash → TokenGraph → Hash → TokenGraph
with_graph g tokenid graph t = ite (bytes_discrete tokenid t) graph (token_graph g t)

record IsSoundPass (g : TxGraph) (tokenid : Hash) (p : Pass) : Type 0 where
  closed : IsClosed tokenid p.graph
  placed : All (IsPlaced (with_graph g tokenid p.graph)) p.txid_to_token

with_graph_mono :
    (g : TxGraph) (tokenid : Hash) (graph graph' : TokenGraph)
    → Extends graph graph'
    → (entry : Hash × Hash) → IsPlaced (with_graph g tokenid graph) entry
    → IsPlaced (with_graph g tokenid graph') entry
with_graph_mono g tokenid graph graph' more entry h = elim (bytes_discrete tokenid entry.1) [
  | yes e ↦ ground (arith, h, more entry.0)
  | no other ↦ ground (arith, h)
]

pub with_graph_self :
    (g : TxGraph) (tokenid : Hash) (graph : TokenGraph) → with_graph g tokenid graph tokenid ≡ graph
with_graph_self g tokenid graph = ground arith

add_node-IsSoundPass :
    (g : TxGraph) (tokenid : Hash) (p : Pass) (tx : Transaction)
    → IsSoundPass g tokenid p
    → IsSoundPass g tokenid (add_node tokenid p tx)
unfolding add_node
add_node-IsSoundPass g tokenid p tx h = if_known (has_key tx.txid p.txid_to_token)
  where
    node : GraphNode
    node = record { inputs = []; txdata = tx.serialized }

    graph' : TokenGraph
    graph' = insert tx.txid node p.graph

    added : Pass
    added = record {
      graph = graph';
      txid_to_token = insert tx.txid tokenid p.txid_to_token;
      input_map = insert tx.serialized (map (λ o. o.txid) tx.inputs) p.input_map;
      latest = p.latest ++ tx.txid ∷ [];
      ret = p.ret + 1;
    }

    grown : All (IsPlaced (with_graph g tokenid graph')) p.txid_to_token
    grown =
        All-imp p.txid_to_token
          (with_graph_mono g tokenid p.graph graph' (insert-Extends tx.txid node p.graph)) h.placed

    if_known : (b : Bool) → IsSoundPass g tokenid (if b then p else added)
    if_known true = h
    if_known false = record {
      closed = insert-IsClosed tokenid tx.txid node p.graph refl h.closed;
      placed =
          All-insert (IsPlaced (with_graph g tokenid graph')) tx.txid tokenid p.txid_to_token grown
            (ap (has_key tx.txid) (with_graph_self g tokenid graph')
              ∙ has_key-insert_self tx.txid node p.graph);
    }

first_pass-IsSoundPass :
    (g : TxGraph) (tokenid : Hash) (p : Pass) (txs : List Transaction)
    → IsSoundPass g tokenid p
    → IsSoundPass g tokenid (first_pass tokenid p txs)
unfolding first_pass
first_pass-IsSoundPass g tokenid p [] h = h
first_pass-IsSoundPass g tokenid p (tx ∷ txs) h =
    first_pass-IsSoundPass g tokenid (add_node tokenid p tx) txs
      (add_node-IsSoundPass g tokenid p tx h)

token_graph-IsClosed :
    (g : TxGraph) (tokenid : Hash) → IsSound g → IsClosed tokenid (token_graph g tokenid)
unfolding token_graph
token_graph-IsClosed g tokenid h = elim (Option-cases (find tokenid g.tokens)) [
  | inl e ↦ subst (IsClosed tokenid) (sym (graph_none e)) tt
  | inr (graph, e) ↦
      subst (IsClosed tokenid) (sym (graph_some e))
        (find-All (λ t. IsClosed t.0 t.1) tokenid g.tokens h.closed e)
]
  where
    graph_none : find tokenid g.tokens ≡ none → token_graph g tokenid ≡ []
    graph_none e = rw (e, token_graph) refl

    graph_some :
        {graph : TokenGraph} → find tokenid g.tokens ≡ some graph → token_graph g tokenid ≡ graph
    graph_some e = rw (e, token_graph) refl

start_pass-IsSoundPass :
    (g : TxGraph) (tokenid : Hash) → IsSound g → IsSoundPass g tokenid (start_pass g tokenid)
unfolding start_pass
start_pass-IsSoundPass g tokenid h = record {
  closed = token_graph-IsClosed g tokenid h;
  placed = All-imp g.txid_to_token same h.placed;
}
  where
    same :
        (entry : Hash × Hash)
        → IsPlaced (token_graph g) entry
        → IsPlaced (with_graph g tokenid (token_graph g tokenid)) entry
    same entry e = elim (bytes_discrete tokenid entry.1) [
      | yes eq ↦
          let moved = ap (λ t. has_key entry.0 (token_graph g t)) eq in ground (arith, e, moved)
      | no other ↦ ground (arith, e)
    ]

pub token_graph-assign :
    (g : TxGraph) (tokenid t : Hash) (graph : TokenGraph) (known : Map Hash Hash)
    → token_graph (record { tokens = assign tokenid graph g.tokens; txid_to_token = known }) t
      ≡ with_graph g tokenid graph t
unfolding token_graph
token_graph-assign g tokenid t graph known = ground (arith, find-assign tokenid t graph g.tokens)

finish_pass-IsSound :
    (g : TxGraph) (tokenid : Hash) (p : Pass)
    → IsSound g
    → IsSoundPass g tokenid p
    → IsSound (finish_pass g tokenid p).0
unfolding finish_pass assign
finish_pass-IsSound g tokenid p h k =
    let graph' = second_pass tokenid p.input_map p.graph p.latest in
    let (closed, more) = second_pass-IsClosed tokenid p.input_map p.graph p.latest k.closed in
    record {
      closed = (closed, All-erase (λ t. IsClosed t.0 t.1) tokenid g.tokens h.closed);
      placed =
          All-imp p.txid_to_token
            (λ entry e.
              ap (has_key entry.0) (token_graph-assign g tokenid entry.1 graph' p.txid_to_token)
              ∙ with_graph_mono g tokenid p.graph graph' more entry e)
            k.placed;
    }

pub insert_token_data-IsSound :
    (g : TxGraph) (tokenid : Hash) (txs : List Transaction)
    → IsSound g
    → IsSound (insert_token_data g tokenid txs).0
unfolding insert_token_data
insert_token_data-IsSound g tokenid txs h =
    finish_pass-IsSound g tokenid (first_pass tokenid (start_pass g tokenid) txs) h (
      first_pass-IsSoundPass g tokenid (start_pass g tokenid) txs
        (start_pass-IsSoundPass g tokenid h))

pub clear-IsSound : (g : TxGraph) → IsSound (clear g)
unfolding clear
clear-IsSound g = record { closed = tt; placed = tt }
