-- ===== src/Graph/Nodes.antt =====
-- The nodes that `insert_token_data` (src/txgraph.cpp) makes of new transactions.
use cpp_slp_graph_search.Prelude.{
  ℕ, ◌≡◌, refl, sym, ap, ◌∙◌, subst, List, [], ◌∷◌, none, some, false, arith, All, All-imp,
  All-both, map, length,
}
use cpp_slp_graph_search.Prelude.Keys.{bytes_key, bytes_discrete}
use cpp_slp_graph_search.Prelude.Map.{Map, find, has_key, assign, find-assign}
use cpp_slp_graph_search.Slp.Message.{Hash}
use cpp_slp_graph_search.Tx.Types.{Transaction}
use cpp_slp_graph_search.Graph.Store.{
  Ref, GraphNode, TokenGraph, TxGraph, token_graph, first_pass, start_pass, inputs_of, link,
  link_at, second_pass, finish_pass, insert_token_data,
}
use cpp_slp_graph_search.Graph.Sound.{token_graph-assign, with_graph_self}
use cpp_slp_graph_search.Graph.Inserted.{
  parents, known_inputs-pointers, bare, node_of, Apart, AreApart, IsNew, first_pass-Passed,
  pointers_cong,
}

abbrev with_inputs : Transaction → List Ref → GraphNode
with_inputs tx ins = record { inputs = ins; txdata = tx.serialized }

-- A node of the first pass, linked.
link-bare :
    (tokenid : Hash) (input_map : Map (List ℕ) (List Hash)) (graph : TokenGraph) (tx : Transaction)
    → find tx.serialized input_map ≡ some (parents tx)
    → link tokenid input_map graph (bare tx) ≡ node_of tokenid graph tx
unfolding link inputs_of
link-bare tokenid input_map graph tx e =
    rw (e, inputs_of) (ap (with_inputs tx) (known_inputs-pointers tokenid graph (parents tx)))

link_at-bare :
    (tokenid : Hash) (input_map : Map (List ℕ) (List Hash)) (graph : TokenGraph) (tx : Transaction)
    → find tx.txid graph ≡ some (bare tx)
    → find tx.serialized input_map ≡ some (parents tx)
    → link_at tokenid input_map graph tx.txid (find tx.txid graph)
      ≡ assign tx.txid (node_of tokenid graph tx) graph
unfolding link_at
link_at-bare tokenid input_map graph tx e e' =
    ap (link_at tokenid input_map graph tx.txid) e
    ∙ ap (λ n. assign tx.txid n graph) (link-bare tokenid input_map graph tx e')

-- What the second pass leaves of a graph and of the transactions that it links.
record Linked (tokenid : Hash) (graph graph' : TokenGraph) (txs : List Transaction) : Type 0 where
  keys : (j : Hash) → has_key j graph' ≡ has_key j graph
  nodes : All (λ tx. find tx.txid graph' ≡ some (node_of tokenid graph tx)) txs
  others : (j : Hash) → All (λ tx. ¬ (tx.txid ≡ j)) txs → find j graph' ≡ find j graph

assign-keys :
    (k j : Hash) (n m : GraphNode) (graph : TokenGraph)
    → find k graph ≡ some m
    → has_key j (assign k n graph) ≡ has_key j graph
unfolding has_key
assign-keys k j n m graph e = elim (bytes_discrete k j) [
  | yes same ↦
      let there = ap (λ i. find i graph) (sym same) ∙ e in
      ground (arith, find-assign k j n graph, there)
  | no other ↦ ground (arith, find-assign k j n graph)
]

assign_self : (k : Hash) (n : GraphNode) (graph : TokenGraph) → find k (assign k n graph) ≡ some n
assign_self k n graph = ground (arith, find-assign k k n graph)

assign_other :
    (k j : Hash) (n : GraphNode) (graph : TokenGraph)
    → ¬ (k ≡ j)
    → find j (assign k n graph) ≡ find j graph
assign_other k j n graph ne = ground (arith, find-assign k j n graph)

node_of_cong :
    (tokenid : Hash) (graph graph' : TokenGraph)
    → ((j : Hash) → has_key j graph ≡ has_key j graph')
    → (tx : Transaction) → node_of tokenid graph tx ≡ node_of tokenid graph' tx
node_of_cong tokenid graph graph' same tx =
    ap (with_inputs tx) (pointers_cong tokenid graph graph' (parents tx) same)

second_pass-Linked :
    (tokenid : Hash) (input_map : Map (List ℕ) (List Hash)) (graph : TokenGraph)
    (txs : List Transaction)
    → AreApart txs
    → All (λ tx. find tx.txid graph ≡ some (bare tx)) txs
    → All (λ tx. find tx.serialized input_map ≡ some (parents tx)) txs
    → Linked tokenid graph (second_pass tokenid input_map graph (map (λ tx. tx.txid) txs)) txs
unfolding second_pass
second_pass-Linked tokenid input_map graph [] apart found bytes = record {
  keys = λ j. refl;
  nodes = tt;
  others = λ j ne. refl;
}
second_pass-Linked tokenid input_map graph (tx ∷ txs) (a, apart) (f, found) (b, bytes) =
    let node = node_of tokenid graph tx in
    let next = assign tx.txid node graph in
    let still =
      All-imp txs (λ u p. assign_other tx.txid u.txid node graph p.0.0 ∙ p.1)
        (All-both (Apart tx) (λ u. find u.txid graph ≡ some (bare u)) txs a found) in
    let same = λ (j : Hash). assign-keys tx.txid j node (bare tx) graph f in
    let rest = second_pass-Linked tokenid input_map next txs apart still bytes in
    subst
      (λ g.
        Linked tokenid graph (second_pass tokenid input_map g (map (λ u. u.txid) txs)) (tx ∷ txs))
      (sym (link_at-bare tokenid input_map graph tx f b))
      (record {
        keys = λ j. rest.keys j ∙ same j;
        nodes = (
          rest.others tx.txid (All-imp txs (λ u p e. p.0 (sym e)) a)
              ∙ assign_self tx.txid node graph,
          All-imp txs (λ u e. e ∙ ap some (node_of_cong tokenid next graph same u)) rest.nodes,
        );
        others = λ j ne. rest.others j ne.1 ∙ assign_other tx.txid j node graph ne.0;
      })

start-IsNew :
    (g : TxGraph) (tokenid : Hash) (tx : Transaction)
    → has_key tx.txid g.txid_to_token ≡ false
    → find tx.txid (token_graph g tokenid) ≡ none
    → IsNew (start_pass g tokenid) tx
unfolding start_pass find
start-IsNew g tokenid tx e e' = record { unknown = e; no_node = e'; no_bytes = refl }

-- Let transactions differ in their ids and their bytes, and be new to a graph and to a token's
-- part of it. `insert_token_data` counts them all, and leaves for each a node with its bytes and with
-- pointers to those of its parents, in their order, that are in the token's graph afterwards, among
-- them the parents that come with it, before or behind it.
pub insert_token_data-node_of :
    (g : TxGraph) (tokenid : Hash) (txs : List Transaction)
    → AreApart txs
    → All
        (λ tx.
          (has_key tx.txid g.txid_to_token ≡ false) × (find tx.txid (token_graph g tokenid) ≡ none))
        txs
    → ((insert_token_data g tokenid txs).1 ≡ length txs)
      × All
          (λ tx.
            find tx.txid (token_graph (insert_token_data g tokenid txs).0 tokenid)
            ≡ some (node_of tokenid (token_graph (insert_token_data g tokenid txs).0 tokenid) tx))
          txs
unfolding insert_token_data finish_pass start_pass
insert_token_data-node_of g tokenid txs apart new =
    let begin = start_pass g tokenid in
    let passed = first_pass tokenid begin txs in
    let h =
      first_pass-Passed tokenid begin txs apart
        (All-imp txs (λ tx e. start-IsNew g tokenid tx e.0 e.1) new) in
    let graph' = second_pass tokenid passed.input_map passed.graph passed.latest in
    let linked =
      subst
        (λ l. Linked tokenid passed.graph (second_pass tokenid passed.input_map passed.graph l) txs)
        (sym h.latest)
        (second_pass-Linked tokenid passed.input_map passed.graph txs apart
          (All-imp txs (λ tx l. l.node) h.listed) (All-imp txs (λ tx l. l.bytes) h.listed)) in
    let stored =
      token_graph-assign g tokenid tokenid graph' passed.txid_to_token
      ∙ with_graph_self g tokenid graph' in
    (
      omega (arith, h.count),
      All-imp txs
          (λ tx e.
            ap (find tx.txid) stored
            ∙ e
            ∙ ap some (node_of_cong tokenid passed.graph graph' (λ j. sym (linked.keys j)) tx)
            ∙ ap (λ gr. some (node_of tokenid gr tx)) (sym stored))
          linked.nodes,
    )
