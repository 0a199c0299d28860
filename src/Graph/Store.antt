-- ===== src/Graph/Store.antt =====
-- `graph_node`, `token_details`, `txgraph` and `insert_token_data`.
use cpp_slp_graph_search.Prelude.{
  ℕ, ◌+◌, List, [], ◌∷◌, ◌++◌, Option, none, some, if◌then◌else◌, map, ℕ_discrete,
}
use cpp_slp_graph_search.Prelude.Keys.{Key, bytes_key}
use cpp_slp_graph_search.Prelude.Map.{Map, find, has_key, insert, assign}
use cpp_slp_graph_search.Slp.Message.{Hash}
use cpp_slp_graph_search.Tx.Types.{Transaction}

-- A `graph_node*`: the node of `txid` in the graph of the token. The containers keep their nodes
-- in place, so the pointer holds as long as the graph does.
pub record Ref : Type 0 where
  pub tokenid : Hash
  pub txid : Hash

unfoldable pub Ref-discrete : Discrete Ref
unfolding ℕ_discrete
Ref-discrete = hlevel ℕ_discrete

instance abbrev pub ref_key : Key Ref
ref_key = record { dec = Ref-discrete }

pub record GraphNode : Type 0 where
  pub inputs : List Ref
  pub txdata : List ℕ

-- `token_details::graph`
abbrev pub TokenGraph : Type 0
TokenGraph = Map Hash GraphNode

-- `txid_to_token` holds a pointer to the token's details, which its token id stands for.
pub record TxGraph : Type 0 where
  pub tokens : Map Hash TokenGraph
  pub txid_to_token : Map Hash Hash

unfoldable pub clear : TxGraph → TxGraph
clear g = record { tokens = []; txid_to_token = [] }

unfoldable pub token_graph : TxGraph → Hash → TokenGraph
token_graph g tokenid = elim (find tokenid g.tokens) [ none ↦ [] | some graph ↦ graph ]

-- The variables of `insert_token_data` between its passes.
pub record Pass : Type 0 where
  pub graph : TokenGraph
  pub txid_to_token : Map Hash Hash
  pub input_map : Map (List ℕ) (List Hash)
  pub latest : List Hash
  pub ret : ℕ

-- One round of the first pass.
unfoldable pub add_node : Hash → Pass → Transaction → Pass
add_node tokenid p tx = if has_key tx.txid p.txid_to_token then p else (record {
  graph = insert tx.txid (record { inputs = []; txdata = tx.serialized }) p.graph;
  txid_to_token = insert tx.txid tokenid p.txid_to_token;
  input_map = insert tx.serialized (map (λ o. o.txid) tx.inputs) p.input_map;
  latest = p.latest ++ tx.txid ∷ [];
  ret = p.ret + 1;
})

unfoldable pub first_pass : Hash → Pass → List Transaction → Pass
unfolding add_node
first_pass tokenid p [] = p
first_pass tokenid p (tx ∷ txs) = first_pass tokenid (add_node tokenid p tx) txs

-- The pointers to those inputs that the graph holds.
unfoldable pub known_inputs : Hash → TokenGraph → List Hash → List Ref
known_inputs tokenid graph [] = []
known_inputs tokenid graph (txid ∷ txids) =
    if has_key txid graph
    then record { tokenid = tokenid; txid = txid } ∷ known_inputs tokenid graph txids
    else known_inputs tokenid graph txids

-- `input_map[node->txdata]`
unfoldable pub inputs_of : Map (List ℕ) (List Hash) → GraphNode → List Hash
inputs_of input_map node = elim (find node.txdata input_map) [ none ↦ [] | some txids ↦ txids ]

unfoldable pub link : Hash → Map (List ℕ) (List Hash) → TokenGraph → GraphNode → GraphNode
unfolding known_inputs inputs_of
link tokenid input_map graph node = record node {
  inputs = node.inputs ++ known_inputs tokenid graph (inputs_of input_map node);
}

unfoldable pub link_at :
    Hash → Map (List ℕ) (List Hash) → TokenGraph → Hash → Option GraphNode → TokenGraph
unfolding link
link_at tokenid input_map graph txid none = graph
link_at tokenid input_map graph txid (some node) =
    assign txid (link tokenid input_map graph node) graph

unfoldable pub second_pass : Hash → Map (List ℕ) (List Hash) → TokenGraph → List Hash → TokenGraph
unfolding link_at
second_pass tokenid input_map graph [] = graph
second_pass tokenid input_map graph (txid ∷ latest) =
    second_pass tokenid input_map (link_at tokenid input_map graph txid (find txid graph)) latest

unfoldable pub start_pass : TxGraph → Hash → Pass
unfolding token_graph
start_pass g tokenid = record {
  graph = token_graph g tokenid;
  txid_to_token = g.txid_to_token;
  input_map = [];
  latest = [];
  ret = 0;
}

unfoldable pub finish_pass : TxGraph → Hash → Pass → TxGraph × ℕ
unfolding second_pass
finish_pass g tokenid p = (
  record {
    tokens = assign tokenid (second_pass tokenid p.input_map p.graph p.latest) g.tokens;
    txid_to_token = p.txid_to_token;
  },
  p.ret,
)

-- The graph afterwards, and the number of transactions that were new.
unfoldable pub insert_token_data : TxGraph → Hash → List Transaction → TxGraph × ℕ
unfolding start_pass first_pass finish_pass
insert_token_data g tokenid txs =
    finish_pass g tokenid (first_pass tokenid (start_pass g tokenid) txs)
