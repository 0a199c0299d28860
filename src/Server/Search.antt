-- ===== src/Server/Search.antt =====
-- `GraphSearch` of server/gs++.cpp.
use cpp_slp_graph_search.Prelude.{
  ℕ, List, [], ◌∷◌, ◌++◌, Option, none, some, Bool, true, ◌&&◌, ◌||◌, leb, ◌==◌, if◌then◌else◌,
  length, map,
}
use cpp_slp_graph_search.Prelude.Keys.{bytes_key}
use cpp_slp_graph_search.Prelude.Set.{contains}
use cpp_slp_graph_search.Slp.Message.{Hash}
use cpp_slp_graph_search.Util.Hex.{Text, unhex}
use cpp_slp_graph_search.Util.Reader.{done, refused, fault}
use cpp_slp_graph_search.Tx.Types.{Outpoint, Transaction}
use cpp_slp_graph_search.Tx.Hydrate.{hydrate}
use cpp_slp_graph_search.Graph.Store.{Ref, ref_key, TxGraph}
use cpp_slp_graph_search.Graph.Search.{
  Response, response, no_response, ok, not_found, not_in_tokengraph, node_at, graph_search,
  build_exclusion_set,
}

within : ℕ → ℕ → ℕ → Bool
within low high c = leb low c && leb c high

every : (ℕ → Bool) → Text → Bool
every f [] = true
every f (c ∷ t) = f c && every f t

-- `^[0-9a-fA-F]{64}$`
unfoldable pub txid_regex : Text → Bool
unfolding within every
txid_regex t =
    length t == 64
    && every (λ c. within b'0' b'9' c || (within b'a' b'f' c || within b'A' b'F' c)) t

-- `gs::txid(text)` of a text of 64 characters (include/gs++/bhash.hpp); `none` is an assertion that
-- fails.
unfoldable pub txid_of : Text → Option Hash
unfolding within every
txid_of t = if every (λ c. within b'0' b'9' c || within b'a' b'f' c) t then some (unhex t) else none

-- The reply with status OK and its `txdata`, or the status; a failed assertion; a mempool
-- transaction that `hydrate` refuses; in the model only, the end of the fuel of a search.
pub data Answer : Type 0 where
  answered : List (List ℕ) → Answer
  invalid_argument unknown_txid internal failed_assert unread out_of_fuel : Answer

-- The ids among `exclude_txids` that have the form of one.
unfoldable pub exclude_ids : List Text → Option (List Hash)
unfolding txid_regex txid_of
exclude_ids [] = some []
exclude_ids (t ∷ ts) =
    let rest = exclude_ids ts in
    if txid_regex t
    then elim (txid_of t) [
      | none ↦ none
      | some txid ↦ elim rest [ none ↦ none | some txids ↦ some (txid ∷ txids) ]
    ]
    else rest

-- The loop over `exclude_txids`, which are `count` in all.
unfoldable pub exclusion_set : TxGraph → ℕ → ℕ → List Hash → List Ref → List Ref
exclusion_set g max_exclusion_set_size count [] seen = seen
exclusion_set g max_exclusion_set_size count (txid ∷ txids) seen =
    let next = (build_exclusion_set g txid seen).1 in
    let rest = exclusion_set g max_exclusion_set_size count txids next in
    if leb max_exclusion_set_size count then next else rest

unfoldable pub confirmed_answer : Response → Answer
confirmed_answer (response ok ret seen) = answered ret
confirmed_answer (response not_found ret seen) = unknown_txid
confirmed_answer (response not_in_tokengraph ret seen) = internal
confirmed_answer no_response = out_of_fuel

-- `add_txdata` of the whole result, for each of its elements.
unfoldable pub copies : List (List ℕ) → List (List ℕ) → List (List ℕ)
copies ret [] = []
copies ret (n ∷ ns) = ret ++ copies ret ns

unfoldable pub unaccounted_inputs : List Hash → List Outpoint → List Hash
unaccounted_inputs mempool_txids [] = []
unaccounted_inputs mempool_txids (o ∷ os) =
    let rest = unaccounted_inputs mempool_txids os in
    if contains o.txid mempool_txids then rest else o.txid ∷ rest

unfoldable pub unaccounted : List Hash → List Transaction → List Hash
unfolding unaccounted_inputs
unaccounted mempool_txids [] = []
unaccounted mempool_txids (tx ∷ txs) =
    unaccounted_inputs mempool_txids tx.inputs ++ unaccounted mempool_txids txs

unfoldable pub overlap : TxGraph → List Hash → List Ref → List Ref
overlap g [] seen = seen
overlap g (txid ∷ txids) seen = overlap g txids (build_exclusion_set g txid seen).1

module _ (sha256 : List ℕ → List ℕ) where
  unfoldable pub hydrate_all : List (List ℕ) → Option (List Transaction)
  hydrate_all [] = some []
  hydrate_all (d ∷ ds) =
      let rest = hydrate_all ds in
      elim (hydrate sha256 d) [
        | done tx ↦ elim rest [ none ↦ none | some txs ↦ some (tx ∷ txs) ]
        | refused ↦ none
        | fault ↦ none
      ]

  -- The answer from the mempool, whose order behind the copies is that of a hash set.
  unfoldable pub mempool_answer : TxGraph → List (List ℕ) → Answer
  unfolding hydrate_all copies unaccounted overlap
  mempool_answer g ret = elim (hydrate_all ret) [
    | none ↦ unread
    | some txs ↦ answered (
        copies ret ret
        ++ map (λ n. (node_at g n).txdata)
            (overlap g (unaccounted (map (λ tx. tx.txid) txs) txs) []))
  ]

  by_mempool : TxGraph → Hash → List Ref → Response → Answer
  unfolding mempool_answer confirmed_answer
  by_mempool g txid seen (response ok ret seen') = mempool_answer g ret
  by_mempool g txid seen (response not_found ret seen') =
      confirmed_answer (graph_search g txid seen)
  by_mempool g txid seen (response not_in_tokengraph ret seen') =
      confirmed_answer (graph_search g txid seen)
  by_mempool g txid seen no_response = out_of_fuel

  -- The search itself. Pointers into `mg` and into `g` differ, so the exclusion set of `g` has none of
  -- `mg`, and what the search in `mg` adds to it matches no pointer into `g`.
  unfoldable pub search_excluding : TxGraph → TxGraph → ℕ → Hash → List Hash → Answer
  unfolding exclusion_set by_mempool
  search_excluding g mg max_exclusion_set_size txid txids =
      by_mempool g txid (exclusion_set g max_exclusion_set_size (length txids) txids [])
        (graph_search mg txid [])

  with_ids : TxGraph → TxGraph → ℕ → Option Hash → Option (List Hash) → Answer
  unfolding search_excluding
  with_ids g mg max_exclusion_set_size none txids = failed_assert
  with_ids g mg max_exclusion_set_size (some txid) none = failed_assert
  with_ids g mg max_exclusion_set_size (some txid) (some txids) =
      search_excluding g mg max_exclusion_set_size txid txids

  -- `GraphSearch`, of the graphs of the blocks and of the mempool.
  unfoldable pub graph_search_service : TxGraph → TxGraph → ℕ → Text → List Text → Answer
  unfolding txid_regex txid_of exclude_ids with_ids
  graph_search_service g mg max_exclusion_set_size txid exclude_txids =
      if txid_regex txid
      then with_ids g mg max_exclusion_set_size (txid_of txid) (exclude_ids exclude_txids)
      else invalid_argument
