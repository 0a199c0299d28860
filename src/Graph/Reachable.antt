-- ===== src/Graph/Reachable.antt =====
-- The states of `txgraph` (src/txgraph.cpp) that its operations make, and the search in them.
use cpp_slp_graph_search.Prelude.{
  ◌≡◌, ◌↔◌, sym, List, [], ◌∷◌, some, true, ◌||◌, arith, All, All-imp, map,
}
use cpp_slp_graph_search.Prelude.Keys.{bytes_key, bytes_discrete}
use cpp_slp_graph_search.Prelude.Map.{Map, find, has_key, find-All}
use cpp_slp_graph_search.Prelude.Set.{contains, contains-append}
use cpp_slp_graph_search.Prelude.Distinct.{nodup, Within}
use cpp_slp_graph_search.Slp.Message.{Hash}
use cpp_slp_graph_search.Tx.Types.{Transaction}
use cpp_slp_graph_search.Graph.Store.{Ref, ref_key, TokenGraph, TxGraph, clear, insert_token_data}
use cpp_slp_graph_search.Graph.Search.{graph_search, response, ok}
use cpp_slp_graph_search.Graph.Fresh.{txdata_of}
use cpp_slp_graph_search.Graph.Correct.{Route}
use cpp_slp_graph_search.Graph.Ends.{IsLinked, all_refs, refs_of, graph_search-Route}
use cpp_slp_graph_search.Graph.Closed.{IsClosed, PointsInto}
use cpp_slp_graph_search.Graph.Sound.{IsSound, clear-IsSound, insert_token_data-IsSound}

contains-refs_of :
    (tokenid : Hash) (r : Ref) (graph : TokenGraph)
    → PointsInto tokenid graph r
    → contains r (refs_of tokenid graph) ≡ true
unfolding refs_of contains has_key find
contains-refs_of tokenid r [] (e, k) = absurd (ground arith)
contains-refs_of tokenid r ((j, node) ∷ graph) (e, k) = elim (bytes_discrete j r.txid) [
  | yes same ↦
      let this : ◌≡◌ {A = Ref} (record { tokenid = tokenid; txid = j }) r =
        λ i. record { tokenid = sym e i; txid = same i } in
      ground (arith, this)
  | no other ↦ ground (arith, contains-refs_of tokenid r graph (e, ground arith))
]

-- Pointers of a closed graph, in a list that has the pointers to its nodes.
Within-PointsInto :
    (tokenid : Hash) (graph : TokenGraph) (refs rs : List Ref)
    → ((r : Ref) → contains r (refs_of tokenid graph) ≡ true → contains r refs ≡ true)
    → All (PointsInto tokenid graph) rs
    → Within refs rs
Within-PointsInto tokenid graph refs [] sub h = tt
Within-PointsInto tokenid graph refs (r ∷ rs) sub (h, hs) =
    (sub r (contains-refs_of tokenid r graph h), Within-PointsInto tokenid graph refs rs sub hs)

linked_in :
    (refs : List Ref) (tokens : Map Hash TokenGraph)
    → ((r : Ref) → contains r (all_refs tokens) ≡ true → contains r refs ≡ true)
    → All (λ t. IsClosed t.0 t.1) tokens
    → All (λ t. All (λ entry. Within refs entry.1.inputs) t.1) tokens
unfolding all_refs
linked_in refs [] sub h = tt
linked_in refs ((t, graph) ∷ tokens) sub (h, hs) =
    let split = λ (r : Ref). contains-append r (refs_of t graph) (all_refs tokens) in
    (
      All-imp graph
          (λ entry k.
            Within-PointsInto t graph refs entry.1.inputs
              (λ r e. sub r (ground (arith, split r, e))) k)
          h,
      linked_in refs tokens (λ r e. sub r (ground (arith, split r, e))) hs,
    )

IsSound-IsLinked : (g : TxGraph) → IsSound g → IsLinked g
IsSound-IsLinked g h = linked_in (all_refs g.tokens) g.tokens (λ r e. e) h.closed

-- The states that a cleared graph reaches by insertions, in any order.
pub data Reachable : TxGraph → Type 0 where
  cleared : (g : TxGraph) → Reachable (clear g)
  inserted :
      {g : TxGraph}
      → Reachable g
      → (tokenid : Hash) (txs : List Transaction) → Reachable (insert_token_data g tokenid txs).0

Reachable-IsSound : (g : TxGraph) → Reachable g → IsSound g
Reachable-IsSound _ (cleared g) = clear-IsSound g
Reachable-IsSound _ (inserted {g} r tokenid txs) =
    insert_token_data-IsSound g tokenid txs (Reachable-IsSound g r)

-- In every state that a cleared graph reaches by insertions, a search from a known transaction
-- answers `ok` with the data of exactly the nodes that routes from it reach, each once; it never
-- answers that the transaction is not in its token's graph.
pub graph_search-Reachable :
    (g : TxGraph) (txid tokenid : Hash) (seen : List Ref)
    → Reachable g
    → find txid g.txid_to_token ≡ some tokenid
    → (order : List Ref) × (after : List Ref) × (graph_search g txid seen
        ≡ response ok (map (txdata_of g) order) after)
      × (nodup order ≡ true)
      × ((v : Ref)
          → contains v order ≡ true ↔ Route g (record { tokenid = tokenid; txid = txid }) seen v)
      × ((v : Ref) → contains v after ≡ (contains v order || contains v seen))
graph_search-Reachable g txid tokenid seen r known =
    let sound = Reachable-IsSound g r in
    graph_search-Route g txid tokenid seen (IsSound-IsLinked g sound) known
      (find-All _ txid g.txid_to_token sound.placed known)
