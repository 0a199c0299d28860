-- ===== src/Graph/Fresh.antt =====
-- One round of the search of src/txgraph.cpp: which nodes it adds, and a measure.
use cpp_slp_graph_search.Prelude.{
  ℕ, ◌+◌, ◌≤◌, ◌≡◌, refl, sym, ap, ◌∙◌, List, [], ◌∷◌, ◌++◌, arith, not, ◌&&◌, if◌then◌else◌,
  length, map, reverse, reverse-cons-append, Bool-cases, inl, inr,
}
use mathlib.Core.List.{append_assoc, append-nil}
use cpp_slp_graph_search.Prelude.Set.{contains}
use cpp_slp_graph_search.Prelude.Distinct.{unseen, unseen-lt, Within}
use cpp_slp_graph_search.Graph.Store.{Ref, ref_key, TxGraph}
use cpp_slp_graph_search.Graph.Search.{Walk, node_at, visit_all}

-- The pointers of a list that are not seen yet, each once.
unfoldable pub fresh : List Ref → List Ref → List Ref
fresh seen [] = []
fresh seen (n ∷ ns) = if contains n seen then fresh seen ns else n ∷ fresh (n ∷ seen) ns

pub contains-fresh :
    (seen ns : List Ref) (v : Ref)
    → contains v (fresh seen ns) ≡ (contains v ns && not (contains v seen))
unfolding fresh contains
contains-fresh seen [] v = refl
contains-fresh seen (n ∷ ns) v =
    ground (arith, contains-fresh seen ns v, contains-fresh (n ∷ seen) ns v, ref_key.dec n v)

module _ (g : TxGraph) where
  abbrev pub txdata_of : Ref → List ℕ
  txdata_of n = (node_at g n).txdata

  pub visit_all_lem :
      (w : Walk) (ns : List Ref)
      → visit_all g w ns ≡ record {
        seen = reverse (fresh w.seen ns) ++ w.seen;
        stack = reverse (fresh w.seen ns) ++ w.stack;
        ret = w.ret ++ map txdata_of (fresh w.seen ns);
      }
  unfolding visit_all fresh
  visit_all_lem w [] = ap (λ r. record w { ret = r }) (sym (append-nil w.ret))
  visit_all_lem w (n ∷ ns) = elim (Bool-cases (contains n w.seen)) [
    | inl old ↦ rw old (visit_all_lem w ns)
    | inr new ↦
        let later = fresh (n ∷ w.seen) ns in
        let w' : Walk = record {
          seen = n ∷ w.seen;
          stack = n ∷ w.stack;
          ret = w.ret ++ txdata_of n ∷ [];
        } in
        rw new (
          visit_all_lem w' ns ∙ (λ i. record {
            seen = sym (reverse-cons-append n later w.seen) i;
            stack = sym (reverse-cons-append n later w.stack) i;
            ret = append_assoc w.ret (txdata_of n ∷ []) (map txdata_of later) i;
          }))
  ]

-- What a round adds was unseen before.
pub unseen-fresh :
    (u seen ns : List Ref)
    → Within u ns
    → unseen u (reverse (fresh seen ns) ++ seen) + length (fresh seen ns) ≤ unseen u seen
unfolding fresh
unseen-fresh u seen [] h = omega arith
unseen-fresh u seen (n ∷ ns) (hn, h) = elim (Bool-cases (contains n seen)) [
  | inl old ↦ rw old (unseen-fresh u seen ns h)
  | inr new ↦
      rw (new, reverse-cons-append n (fresh (n ∷ seen) ns) seen)
        (omega (arith, unseen-fresh u (n ∷ seen) ns h, unseen-lt u seen n hn new))
]
