-- ===== src/Graph/Search.antt =====
-- `build_exclusion_set` and `graph_search__ptr`.
use cpp_slp_graph_search.Prelude.{
  ◌+◌, ℕ, zero, suc, List, [], ◌∷◌, ◌++◌, Option, none, some, Bool, true, false, if◌then◌else◌,
  length,
}
use cpp_slp_graph_search.Prelude.Keys.{bytes_key}
use cpp_slp_graph_search.Prelude.Map.{Map, find, has_key}
use cpp_slp_graph_search.Prelude.Set.{contains, add}
use cpp_slp_graph_search.Slp.Message.{Hash}
use cpp_slp_graph_search.Graph.Store.{Ref, ref_key, GraphNode, TokenGraph, TxGraph, token_graph}

-- `*n`. Where the model has no node of that id, it has an empty one.
unfoldable pub node_at : TxGraph → Ref → GraphNode
node_at g r = elim (find r.txid (token_graph g r.tokenid)) [
  | none ↦ record { inputs = []; txdata = [] }
  | some node ↦ node
]

pub record Walk : Type 0 where
  pub seen : List Ref
  pub stack : List Ref
  pub ret : List (List ℕ)

-- The body of the loop over `node->inputs`.
unfoldable pub visit : TxGraph → Walk → Ref → Walk
visit g w n = if contains n w.seen then w else (record {
  seen = n ∷ w.seen;
  stack = n ∷ w.stack;
  ret = w.ret ++ (node_at g n).txdata ∷ [];
})

unfoldable pub visit_all : TxGraph → Walk → List Ref → Walk
unfolding visit
visit_all g w [] = w
visit_all g w (n ∷ ns) = visit_all g (visit g w n) ns

-- The `do … while` loop, or, in the model only, the end of its fuel.
pub data Loop : Type 0 where
  ended : Walk → Loop
  out_of_fuel : Loop

unfoldable pub loop : TxGraph → ℕ → Walk → Loop
unfolding visit_all
loop g zero w = elim w.stack [ [] ↦ ended w | _ ∷ _ ↦ out_of_fuel ]
loop g (suc fuel) w = elim w.stack [
  | [] ↦ ended w
  | n ∷ stack ↦ loop g fuel (visit_all g (record w { stack = stack }) (node_at g n).inputs)
]

-- The number of nodes, which bounds the rounds.
unfoldable pub size : Map Hash TokenGraph → ℕ
size [] = 0
size ((t, graph) ∷ tokens) = length graph + size tokens

pub data Status : Type 0 where
  ok not_found not_in_tokengraph : Status

-- The response and the exclusion set afterwards.
pub data Response : Type 0 where
  response : Status → List (List ℕ) → List Ref → Response
  no_response : Response

respond : Loop → Response
respond (ended w) = response ok w.ret w.seen
respond out_of_fuel = no_response

unfoldable pub start : TxGraph → Ref → List Ref → Walk
start g root seen = record {
  seen = add root seen;
  stack = root ∷ [];
  ret = (node_at g root).txdata ∷ [];
}

unfoldable pub search_from : TxGraph → Ref → List Ref → Response
unfolding respond start loop
search_from g root seen = respond (loop g (suc (size g.tokens)) (start g root seen))

in_graph : TxGraph → Hash → List Ref → Hash → Response
unfolding search_from
in_graph g txid seen tokenid =
    if has_key txid (token_graph g tokenid)
    then search_from g (record { tokenid = tokenid; txid = txid }) seen
    else response not_in_tokengraph [] seen

in_token : TxGraph → Hash → List Ref → Option Hash → Response
unfolding in_graph
in_token g txid seen none = response not_found [] seen
in_token g txid seen (some tokenid) = in_graph g txid seen tokenid

-- `graph_search__ptr(lookup_txid, seen)`
unfoldable pub graph_search : TxGraph → Hash → List Ref → Response
unfolding in_token
graph_search g txid seen = in_token g txid seen (find txid g.txid_to_token)

-- `build_exclusion_set` walks alike and keeps no data.
exclusion : List Ref → Response → Bool × List Ref
exclusion seen (response ok ret seen') = (true, seen')
exclusion seen (response not_found ret seen') = (false, seen)
exclusion seen (response not_in_tokengraph ret seen') = (false, seen)
exclusion seen no_response = (false, seen)

unfoldable pub build_exclusion_set : TxGraph → Hash → List Ref → Bool × List Ref
unfolding exclusion graph_search
build_exclusion_set g txid seen = exclusion seen (graph_search g txid seen)
