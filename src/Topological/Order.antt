-- ===== src/Topological/Order.antt =====
-- What a list of transactions must satisfy to be in topological order, and its laws.
use cpp_slp_graph_search.Prelude.{
  ◌≡◌, subst, List, [], ◌∷◌, ◌++◌, arith, Bool, true, not, ◌||◌, map, All,
}
use cpp_slp_graph_search.Prelude.Keys.{bytes_key, bytes_discrete}
use cpp_slp_graph_search.Prelude.Set.{contains}
use cpp_slp_graph_search.Slp.Message.{Hash}
use cpp_slp_graph_search.Tx.Types.{Outpoint, Transaction}

abbrev pub ids : List Transaction → List Hash
ids txs = map (λ t. t.txid) txs

pub contains-ids :
    (Q : Hash → Type 0) (txs : List Transaction) (v : Hash)
    → All (λ t. Q t.txid) txs
    → contains v (ids txs) ≡ true
    → Q v
unfolding contains
contains-ids Q [] v h e = absurd (ground arith)
contains-ids Q (t ∷ txs) v (h, hs) e = elim (bytes_discrete t.txid v) [
  | yes same ↦ subst Q same h
  | no other ↦ contains-ids Q txs v hs (ground arith)
]

module _ (listed : Hash → Bool) where
  -- Whether a parent, if it is listed, is in a set.
  abbrev pub met : List Hash → Outpoint → Bool
  met before o = not (listed o.txid) || contains o.txid before

  -- Each transaction comes after its listed parents, those of `before` included.
  abbrev pub IsOrdered : List Hash → List Transaction → Type 0
  IsOrdered before [] = Unit
  IsOrdered before (t ∷ ts) =
      All (λ o. met before o ≡ true) t.inputs × IsOrdered (t.txid ∷ before) ts

  pub met_mono :
      (s t : List Hash) (os : List Outpoint)
      → ((v : Hash) → contains v s ≡ true → contains v t ≡ true)
      → All (λ o. met s o ≡ true) os
      → All (λ o. met t o ≡ true) os
  met_mono s t [] sub h = tt
  met_mono s t (o ∷ os) sub (h, hs) = (ground (arith, sub o.txid), met_mono s t os sub hs)

  contains-cons_mono :
      (s t : List Hash) (x v : Hash)
      → (contains v s ≡ true → contains v t ≡ true)
      → contains v (x ∷ s) ≡ true
      → contains v (x ∷ t) ≡ true
  unfolding contains
  contains-cons_mono s t x v sub h = ground arith

  pub IsOrdered-mono :
      (s t : List Hash) (txs : List Transaction)
      → ((v : Hash) → contains v s ≡ true → contains v t ≡ true)
      → IsOrdered s txs
      → IsOrdered t txs
  IsOrdered-mono s t [] sub h = tt
  IsOrdered-mono s t (x ∷ xs) sub (h, hs) = (
    met_mono s t x.inputs sub h,
    IsOrdered-mono (x.txid ∷ s) (x.txid ∷ t) xs (λ v. contains-cons_mono s t x.txid v (sub v)) hs,
  )

  contains-shift :
      (x v : Hash) (s t : List Hash)
      → contains v (x ∷ t ++ s) ≡ true
      → contains v (t ++ x ∷ s) ≡ true
  unfolding contains
  contains-shift x v s [] h = h
  contains-shift x v s (y ∷ t) h = ground (arith, contains-shift x v s t)

  pub IsOrdered-append :
      (before : List Hash) (xs ys : List Transaction)
      → IsOrdered before xs
      → IsOrdered (ids xs ++ before) ys
      → IsOrdered before (xs ++ ys)
  IsOrdered-append before [] ys h k = k
  IsOrdered-append before (x ∷ xs) ys (h, hs) k = (
    h,
    IsOrdered-append (x.txid ∷ before) xs ys hs (
        IsOrdered-mono (x.txid ∷ ids xs ++ before) (ids xs ++ x.txid ∷ before) ys
          (λ v. contains-shift x.txid v before (ids xs)) k),
  )
