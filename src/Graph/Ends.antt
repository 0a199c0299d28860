-- ===== src/Graph/Ends.antt =====
-- The search of src/txgraph.cpp as a whole: its end and its response.
use cpp_slp_graph_search.Prelude.{
  sym, subst, Option-cases, All, some, ℕ, zero, suc, ◌+◌, ◌≤◌, ◌≡◌, ◌↔◌, inl, inr, refl, ap, ◌∙◌,
  List, [], ◌∷◌, ◌++◌, arith, true, ◌||◌, length, length-append, length-reverse, map, reverse,
  List-cases,
}
use cpp_slp_graph_search.Prelude.Keys.{bytes_key}
use cpp_slp_graph_search.Prelude.Map.{find-All, Map, find, has_key}
use cpp_slp_graph_search.Prelude.Set.{contains}
use cpp_slp_graph_search.Slp.Message.{Hash}
use cpp_slp_graph_search.Prelude.Distinct.{nodup, unseen, unseen-le-length, Within}
use cpp_slp_graph_search.Graph.Store.{GraphNode, Ref, ref_key, TokenGraph, TxGraph, token_graph}
use cpp_slp_graph_search.Graph.Search.{
  Walk, node_at, loop, Loop, ended, start, size, search_from, graph_search, response, ok,
}
use cpp_slp_graph_search.Graph.Fresh.{fresh, txdata_of, visit_all_lem, unseen-fresh}
use cpp_slp_graph_search.Graph.Correct.{Route, here, step, Inv, Inv-start, Inv-round, round}

unfoldable pub refs_of : Hash → TokenGraph → List Ref
refs_of tokenid [] = []
refs_of tokenid ((txid, node) ∷ graph) =
    record { tokenid = tokenid; txid = txid } ∷ refs_of tokenid graph

-- The pointers to all nodes.
unfoldable pub all_refs : Map Hash TokenGraph → List Ref
unfolding refs_of
all_refs [] = []
all_refs ((tokenid, graph) ∷ tokens) = refs_of tokenid graph ++ all_refs tokens

length-refs_of :
    (tokenid : Hash) (graph : TokenGraph) → length (refs_of tokenid graph) ≡ length graph
unfolding refs_of
length-refs_of tokenid [] = refl
length-refs_of tokenid ((txid, node) ∷ graph) = ap suc (length-refs_of tokenid graph)

length-all_refs : (tokens : Map Hash TokenGraph) → length (all_refs tokens) ≡ size tokens
unfolding all_refs size
length-all_refs [] = refl
length-all_refs ((tokenid, graph) ∷ tokens) =
    rw
      (
        length-append (refs_of tokenid graph) (all_refs tokens),
        length-refs_of tokenid graph,
        length-all_refs tokens,
      )
      refl

-- Every input of a node is a pointer to a node.
abbrev pub IsLinked : TxGraph → Type 0
IsLinked g = All (λ t. All (λ entry. Within (all_refs g.tokens) entry.1.inputs) t.1) g.tokens

node_at-IsLinked :
    (g : TxGraph) (n : Ref) → IsLinked g → Within (all_refs g.tokens) (node_at g n).inputs
unfolding node_at token_graph find
node_at-IsLinked g n linked = elim (Option-cases (find n.tokenid g.tokens)) [
  | inl none_such ↦
      let nowhere : (node_at g n).inputs ≡ [] = rw (none_such, node_at, token_graph) refl in
      subst (Within (all_refs g.tokens)) (sym nowhere) tt
  | inr (graph, e) ↦ elim (Option-cases (find n.txid graph)) [
    | inl none_such ↦
        let nowhere : (node_at g n).inputs ≡ [] = rw (e, none_such, node_at, token_graph) refl in
        subst (Within (all_refs g.tokens)) (sym nowhere) tt
    | inr (node, e') ↦
        let there : (node_at g n).inputs ≡ node.inputs = rw (e, e', node_at, token_graph) refl in
        let linked_node = λ (entry : Hash × GraphNode). Within (all_refs g.tokens) entry.1.inputs in
        let in_graph =
          find-All (λ (t : Hash × TokenGraph). All linked_node t.1) n.tokenid g.tokens linked e in
        subst (Within (all_refs g.tokens)) (sym there)
          (find-All linked_node n.txid graph in_graph e')
  ]
]

module _ (g : TxGraph) (root : Ref) (seen₀ : List Ref) (linked : IsLinked g) where
  -- What the loop leaves.
  abbrev Finished : Loop → Type 0
  Finished result = (w : Walk) × (result ≡ ended w) × (w.stack ≡ []) × Inv g root seen₀ w

  loop-Finished :
      (fuel : ℕ) (w : Walk)
      → Inv g root seen₀ w
      → unseen (all_refs g.tokens) w.seen + length w.stack ≤ fuel
      → Finished (loop g fuel w)
  unfolding loop
  loop-Finished zero w h le = elim (List-cases w.stack) [
    | inl e ↦ (w, rw e refl, e, h)
    | inr (u, rest, e) ↦ absurd (ground (arith, ap length e))
  ]
  loop-Finished (suc fuel) w h le = elim (List-cases w.stack) [
    | inl e ↦ (w, rw e refl, e, h)
    | inr (u, rest, e) ↦
        let ns = (node_at g u).inputs in
        let w' = record w { stack = rest } in
        let refs = all_refs g.tokens in
        let less = unseen-fresh refs w.seen ns (node_at-IsLinked g u linked) in
        let shape = visit_all_lem g w' ns in
        let added =
          length-append (reverse (fresh w.seen ns)) rest
          ∙ ap (λ k. k + length rest) (length-reverse (fresh w.seen ns)) in
        let le' : unseen refs (round g root seen₀ w u rest).seen
              + length (round g root seen₀ w u rest).stack
            ≤ fuel =
          omega (
            arith,
            less,
            ap length e,
            le,
            added,
            ap (λ x. unseen refs x.seen) shape,
            ap (λ x. length x.stack) shape,
          ) in
        let (end, e', empty, done) =
          loop-Finished fuel (round g root seen₀ w u rest) (Inv-round g root seen₀ w u rest e h)
            le' in
        (end, rw e e', empty, done)
  ]

  Route-in :
      (w : Walk) (h : Inv g root seen₀ w)
      → w.stack ≡ []
      → (v : Ref) → Route g root seen₀ v
      → contains v h.order ≡ true
  Route-in w h e _ here = h.rooted
  Route-in w h e v (step {u} route edge out) = elim (h.closed u v (Route-in w h e u route) edge) [
    | inl waiting ↦ absurd (unfold contains in ground (arith, ap (contains u) e))
    | inr met ↦ ground (arith, h.split v)
  ]

-- In a graph whose inputs all point to nodes, the search ends. On a transaction of a token's graph it answers `ok` with the data of exactly the
-- nodes that routes reach, each node once, and it adds exactly those nodes to the exclusion set.
pub graph_search-Route :
    (g : TxGraph) (txid tokenid : Hash) (seen : List Ref)
    → IsLinked g
    → find txid g.txid_to_token ≡ some tokenid
    → has_key txid (token_graph g tokenid) ≡ true
    → (order : List Ref) × (after : List Ref) × (graph_search g txid seen
        ≡ response ok (map (txdata_of g) order) after)
      × (nodup order ≡ true)
      × ((v : Ref)
          → contains v order ≡ true ↔ Route g (record { tokenid = tokenid; txid = txid }) seen v)
      × ((v : Ref) → contains v after ≡ (contains v order || contains v seen))
unfolding graph_search search_from
graph_search-Route g txid tokenid seen linked known held =
    let root : Ref = record { tokenid = tokenid; txid = txid } in
    let (w, e, empty, h) =
      loop-Finished g root seen linked (suc (size g.tokens)) (start g root seen)
        (Inv-start g root seen)
        (omega (
          arith,
          unseen-le-length (all_refs g.tokens) (start g root seen).seen,
          length-all_refs g.tokens,
        )) in
    (
      h.order,
      w.seen,
      rw (known, held, e, h.data_of) refl,
      h.distinct,
      (λ v. (h.sound v, Route-in g root seen linked w h empty v)),
      h.split,
    )
