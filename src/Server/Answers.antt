-- ===== src/Server/Answers.antt =====
-- The answers of `GraphSearch` (server/gs++.cpp).
use cpp_slp_graph_search.Prelude.{
  ℕ, ◌*◌, ◌≤◌, ◌≡◌, ◌↔◌, refl, List, [], ◌∷◌, ◌++◌, some, none, true, arith, leb, length,
  length-append, map, inl, inr, Bool-cases,
}
use native.Mathlib.Numerals.{unary_clauses}
use cpp_slp_graph_search.Prelude.Keys.{bytes_key}
use cpp_slp_graph_search.Prelude.Map.{find}
use cpp_slp_graph_search.Prelude.Set.{contains}
use cpp_slp_graph_search.Prelude.Distinct.{nodup}
use cpp_slp_graph_search.Slp.Message.{Hash}
use cpp_slp_graph_search.Util.Hex.{Text}
use cpp_slp_graph_search.Tx.Types.{Transaction}
use cpp_slp_graph_search.Graph.Store.{Ref, ref_key, TxGraph}
use cpp_slp_graph_search.Graph.Search.{
  response, ok, not_found, graph_search, build_exclusion_set, node_at,
}
use cpp_slp_graph_search.Graph.Fresh.{txdata_of}
use cpp_slp_graph_search.Graph.Correct.{Route}
use cpp_slp_graph_search.Graph.Reachable.{Reachable, graph_search-Reachable}
use cpp_slp_graph_search.Server.Search.{
  txid_regex, txid_of, exclude_ids, exclusion_set, answered, copies, overlap, unaccounted,
  hydrate_all, mempool_answer, search_excluding, graph_search_service,
}

pub search-unknown :
    (mg : TxGraph) (txid : Hash)
    → find txid mg.txid_to_token ≡ none
    → graph_search mg txid [] ≡ response not_found [] []
unfolding graph_search
search-unknown mg txid e = rw e refl

search_excluding-Reachable :
    (sha256 : List ℕ → List ℕ) (g mg : TxGraph) (max_size : ℕ) (txid tokenid : Hash)
    (txids : List Hash)
    → Reachable g
    → find txid mg.txid_to_token ≡ none
    → find txid g.txid_to_token ≡ some tokenid
    → (order : List Ref) × (search_excluding sha256 g mg max_size txid txids
        ≡ answered (map (txdata_of g) order))
      × (nodup order ≡ true)
      × ((v : Ref)
          → contains v order ≡ true
            ↔ Route g
                (record { tokenid = tokenid; txid = txid })
                (exclusion_set g max_size (length txids) txids [])
                v)
unfolding search_excluding
search_excluding-Reachable sha256 g mg max_size txid tokenid txids r absent known =
    let seen = exclusion_set g max_size (length txids) txids [] in
    let (order, after, e, once, routes, grown) =
      graph_search-Reachable g txid tokenid seen r known in
    (order, rw (search-unknown mg txid absent, e) refl, once, routes)

-- Let the graph of the blocks be one that insertions make, and the text of the request and those of
-- its exclusions name ids, of which the mempool does not know the first and the blocks do. Then the
-- service answers with the data of exactly the nodes that the inputs reach without entering the
-- exclusion set, each once.
pub graph_search_service-Route :
    (sha256 : List ℕ → List ℕ) (g mg : TxGraph) (max_size : ℕ) (text : Text) (texts : List Text)
    (txid tokenid : Hash) (txids : List Hash)
    → txid_regex text ≡ true
    → txid_of text ≡ some txid
    → exclude_ids texts ≡ some txids
    → Reachable g
    → find txid mg.txid_to_token ≡ none
    → find txid g.txid_to_token ≡ some tokenid
    → (order : List Ref) × (graph_search_service sha256 g mg max_size text texts
        ≡ answered (map (txdata_of g) order))
      × (nodup order ≡ true)
      × ((v : Ref)
          → contains v order ≡ true
            ↔ Route g
                (record { tokenid = tokenid; txid = txid })
                (exclusion_set g max_size (length txids) txids [])
                v)
unfolding graph_search_service
graph_search_service-Route sha256 g mg max_size text texts txid tokenid txids form id ids r absent
      known =
    let (order, e, once, routes) =
      search_excluding-Reachable sha256 g mg max_size txid tokenid txids r absent known in
    (order, rw (form, id, ids) e, once, routes)

exclusion_set-first :
    (g : TxGraph) (max_size count : ℕ) (x : Hash) (xs : List Hash) (seen : List Ref)
    → max_size ≤ count
    → exclusion_set g max_size count (x ∷ xs) seen ≡ (build_exclusion_set g x seen).1
unfolding exclusion_set
exclusion_set-first g max_size count x xs seen h =
    let full : leb max_size count ≡ true = ground arith in rw full refl

exclusion_set-one :
    (g : TxGraph) (max_size count : ℕ) (x : Hash) (seen : List Ref)
    → exclusion_set g max_size count (x ∷ []) seen ≡ (build_exclusion_set g x seen).1
unfolding exclusion_set
exclusion_set-one g max_size count x seen = elim (Bool-cases (leb max_size count)) [
  | inl e ↦ rw e refl
  | inr e ↦ rw e refl
]

-- A request with as many exclusions as `max_exclusion_set_size` or more is answered as if it named the
-- first of them alone.
pub search_excluding-first :
    (sha256 : List ℕ → List ℕ) (g mg : TxGraph) (max_size : ℕ) (txid x : Hash) (xs : List Hash)
    → max_size ≤ length (x ∷ xs)
    → search_excluding sha256 g mg max_size txid (x ∷ xs)
      ≡ search_excluding sha256 g mg max_size txid (x ∷ [])
unfolding search_excluding
search_excluding-first sha256 g mg max_size txid x xs h =
    rw
      (
        exclusion_set-first g max_size (length (x ∷ xs)) x xs [] h,
        exclusion_set-one g max_size 1 x [],
      )
      refl

length-copies : (ret ns : List (List ℕ)) → length (copies ret ns) ≡ length ret * length ns
unfolding copies
length-copies ret [] = omega arith
length-copies ret (n ∷ ns) =
    let joined = length-append ret (copies ret ns) in
    let rest = length-copies ret ns in simp unary_clauses (omega (arith, joined, rest))

mempool_answer-answered :
    (sha256 : List ℕ → List ℕ) (g : TxGraph) (ret : List (List ℕ)) {txs : List Transaction}
    → hydrate_all sha256 ret ≡ some txs
    → mempool_answer sha256 g ret
      ≡ answered (
          copies ret ret
          ++ map
              (λ n. (node_at g n).txdata)
              (overlap g (unaccounted (map (λ tx. tx.txid) txs) txs) []))
unfolding mempool_answer
mempool_answer-answered sha256 g ret e = rw (e, mempool_answer) refl

-- When the mempool has the transaction and all the data that its search finds can be read, the
-- answer holds at least the square of the number of data found.
pub search_excluding-copies :
    (sha256 : List ℕ → List ℕ) (g mg : TxGraph) (max_size : ℕ) (txid : Hash) (txids : List Hash)
    (ret : List (List ℕ)) (seen : List Ref) (txs : List Transaction)
    → graph_search mg txid [] ≡ response ok ret seen
    → hydrate_all sha256 ret ≡ some txs
    → (data_sent : List (List ℕ)) × (search_excluding sha256 g mg max_size txid txids
        ≡ answered data_sent)
      × (length ret * length ret ≤ length data_sent)
unfolding search_excluding
search_excluding-copies sha256 g mg max_size txid txids ret seen txs found read =
    let more =
      map (λ n. (node_at g n).txdata) (overlap g (unaccounted (map (λ tx. tx.txid) txs) txs) []) in
    (
      copies ret ret ++ more,
      rw found (mempool_answer-answered sha256 g ret read),
      omega (arith, length-append (copies ret ret) more, length-copies ret ret),
    )
