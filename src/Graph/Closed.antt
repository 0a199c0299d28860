-- ===== src/Graph/Closed.antt =====
-- Pointers inside a token's graph, through the two passes of `insert_token_data`.
use cpp_slp_graph_search.Prelude.{
  ℕ, ◌≡◌, refl, sym, subst, List, [], ◌∷◌, Option, none, some, Bool, true, false, arith,
  if◌then◌else◌, All, All-imp, All-append,
}
use cpp_slp_graph_search.Prelude.Keys.{bytes_key}
use cpp_slp_graph_search.Prelude.Map.{
  Map, find, has_key, insert, assign, erase, find-All, All-insert, All-erase, find-insert,
  find-assign,
}
use cpp_slp_graph_search.Slp.Message.{Hash}
use cpp_slp_graph_search.Graph.Store.{
  Ref, GraphNode, TokenGraph, known_inputs, inputs_of, link, link_at, second_pass,
}

-- A pointer to a node of the graph of the token.
abbrev pub PointsInto : Hash → TokenGraph → Ref → Type 0
PointsInto tokenid graph r = (r.tokenid ≡ tokenid) × (has_key r.txid graph ≡ true)

abbrev pub HasInputsIn : Hash → TokenGraph → Hash × GraphNode → Type 0
HasInputsIn tokenid graph entry = All (PointsInto tokenid graph) entry.1.inputs

-- All inputs of all nodes are pointers into the graph itself.
abbrev pub IsClosed : Hash → TokenGraph → Type 0
IsClosed tokenid graph = All (HasInputsIn tokenid graph) graph

-- The second graph has the ids of the first.
abbrev pub Extends : TokenGraph → TokenGraph → Type 0
Extends graph graph' = (txid : Hash) → has_key txid graph ≡ true → has_key txid graph' ≡ true

HasInputsIn-mono :
    (tokenid : Hash) (graph graph' : TokenGraph)
    → Extends graph graph'
    → (entry : Hash × GraphNode) → HasInputsIn tokenid graph entry
    → HasInputsIn tokenid graph' entry
HasInputsIn-mono tokenid graph graph' more entry h =
    All-imp entry.1.inputs (λ r k. (k.0, more r.txid k.1)) h

pub insert-Extends :
    (txid : Hash) (node : GraphNode) (graph : TokenGraph) → Extends graph (insert txid node graph)
unfolding has_key
insert-Extends txid node graph j e = ground (arith, find-insert txid j node graph)

pub has_key-insert_self :
    (txid : Hash) (node : GraphNode) (graph : TokenGraph)
    → has_key txid (insert txid node graph) ≡ true
unfolding has_key
has_key-insert_self txid node graph = ground (arith, find-insert txid txid node graph)

assign-Extends :
    (txid : Hash) (node : GraphNode) (graph : TokenGraph) → Extends graph (assign txid node graph)
unfolding has_key
assign-Extends txid node graph j e = ground (arith, find-assign txid j node graph)

pub insert-IsClosed :
    (tokenid txid : Hash) (node : GraphNode) (graph : TokenGraph)
    → node.inputs ≡ []
    → IsClosed tokenid graph
    → IsClosed tokenid (insert txid node graph)
insert-IsClosed tokenid txid node graph e h =
    let graph' = insert txid node graph in
    let grown =
      All-imp graph (HasInputsIn-mono tokenid graph graph' (insert-Extends txid node graph)) h in
    All-insert (HasInputsIn tokenid graph') txid node graph grown
      (subst (All (PointsInto tokenid graph')) (sym e) tt)

known_inputs-PointsInto :
    (tokenid : Hash) (graph : TokenGraph) (txids : List Hash)
    → All (PointsInto tokenid graph) (known_inputs tokenid graph txids)
unfolding known_inputs
known_inputs-PointsInto tokenid graph [] = tt
known_inputs-PointsInto tokenid graph (txid ∷ txids) =
    if_known (has_key txid graph) refl (known_inputs-PointsInto tokenid graph txids)
  where
    if_known :
        (b : Bool)
        → has_key txid graph ≡ b
        → All (PointsInto tokenid graph) (known_inputs tokenid graph txids)
        → All (PointsInto tokenid graph) (
            if b
            then record { tokenid = tokenid; txid = txid } ∷ known_inputs tokenid graph txids
            else known_inputs tokenid graph txids)
    if_known true e h = ((refl, e), h)
    if_known false e h = h

-- A node that is linked has the pointers that it had and pointers into the graph.
assign-link-IsClosed :
    (tokenid : Hash) (input_map : Map (List ℕ) (List Hash)) (graph : TokenGraph) (txid : Hash)
    (node : GraphNode)
    → HasInputsIn tokenid graph (txid, node)
    → IsClosed tokenid graph
    → IsClosed tokenid (assign txid (link tokenid input_map graph node) graph)
unfolding assign link
assign-link-IsClosed tokenid input_map graph txid node old h =
    let linked = link tokenid input_map graph node in
    let graph' = assign txid linked graph in
    let more = HasInputsIn-mono tokenid graph graph' (assign-Extends txid linked graph) in
    let new = known_inputs-PointsInto tokenid graph (inputs_of input_map node) in
    (
      more (txid, linked) (All-append (PointsInto tokenid graph) node.inputs _ old new),
      All-imp (erase txid graph) more (All-erase (HasInputsIn tokenid graph) txid graph h),
    )

link_at-IsClosed :
    (tokenid : Hash) (input_map : Map (List ℕ) (List Hash)) (graph : TokenGraph) (txid : Hash)
    (found : Option GraphNode)
    → find txid graph ≡ found
    → IsClosed tokenid graph
    → IsClosed tokenid (link_at tokenid input_map graph txid found)
      × Extends graph (link_at tokenid input_map graph txid found)
unfolding link_at
link_at-IsClosed tokenid input_map graph txid none e h = (h, λ j k. k)
link_at-IsClosed tokenid input_map graph txid (some node) e h = (
  assign-link-IsClosed tokenid input_map graph txid node
      (find-All (HasInputsIn tokenid graph) txid graph h e) h,
  assign-Extends txid (link tokenid input_map graph node) graph,
)

-- The second pass keeps all pointers inside the graph, and all ids.
pub second_pass-IsClosed :
    (tokenid : Hash) (input_map : Map (List ℕ) (List Hash)) (graph : TokenGraph)
    (latest : List Hash)
    → IsClosed tokenid graph
    → IsClosed tokenid (second_pass tokenid input_map graph latest)
      × Extends graph (second_pass tokenid input_map graph latest)
unfolding second_pass
second_pass-IsClosed tokenid input_map graph [] h = (h, λ j k. k)
second_pass-IsClosed tokenid input_map graph (txid ∷ latest) h =
    let (closed, more) = link_at-IsClosed tokenid input_map graph txid (find txid graph) refl h in
    let (closed', more') =
      second_pass-IsClosed tokenid input_map
        (link_at tokenid input_map graph txid (find txid graph)) latest closed in
    (closed', λ j k. more' j (more j k))
