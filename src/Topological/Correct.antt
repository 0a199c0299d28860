-- ===== src/Topological/Correct.antt =====
-- `topological_sort` of src/util.cpp as a whole.
use mathlib.Core.Path.{fun_ext}
use cpp_slp_graph_search.Prelude.{
  ℕ, suc, ◌≡◌, ◌<◌, ◌≤◌, ◌⊎◌, inl, inr, refl, ap, subst, ◌∙◌, List, [], ◌∷◌, arith, Bool, true,
  false, ◌||◌, All, none, some, Bool-cases, length-map, All-imp, All-of, length,
}
use cpp_slp_graph_search.Prelude.Keys.{bytes_key, bytes_discrete}
use cpp_slp_graph_search.Prelude.Map.{Map, find, find-insert, All-insert, insert, has_key}
use cpp_slp_graph_search.Prelude.Set.{contains}
use cpp_slp_graph_search.Prelude.Distinct.{nodup, unseen, unseen-le-length}
use cpp_slp_graph_search.Slp.Message.{Hash}
use cpp_slp_graph_search.Tx.Types.{Outpoint, Transaction}
use cpp_slp_graph_search.Topological.Sort.{
  Dfs, Recur, index, visit_roots, topological_sort_internal, topological_sort,
}
use cpp_slp_graph_search.Topological.Order.{contains-ids, ids, IsOrdered}
use cpp_slp_graph_search.Topological.Visit.{
  IsKeyed, IsBelow, IsRanked, Step, Visits, Step-refl, Step-trans, contains-pushed,
  topological_sort_internal-Visits, unseen-Step,
}

index-All :
    (P : Hash × Transaction → Type 0) (m : Map Hash Transaction) (txs : List Transaction)
    → All P m
    → All (λ t. P (t.txid, t)) txs
    → All P (index m txs)
unfolding index
index-All P m [] h hs = h
index-All P m (t ∷ txs) h (p, ps) =
    index-All P (insert t.txid t m) txs (All-insert P t.txid t m h p) ps

index-keeps :
    (m : Map Hash Transaction) (txs : List Transaction) (v : Hash) {x : Transaction}
    → find v m ≡ some x
    → find v (index m txs) ≡ some x
unfolding index
index-keeps m [] v e = e
index-keeps m (t ∷ txs) v e =
    index-keeps (insert t.txid t m) txs v (ground (arith, find-insert t.txid v t m))

insert-free :
    (m : Map Hash Transaction) (t : Transaction) (txs : List Transaction)
    → contains t.txid (ids txs) ≡ false
    → All (λ x. find x.txid m ≡ none) txs
    → All (λ x. find x.txid (insert t.txid t m) ≡ none) txs
unfolding contains
insert-free m t [] h free = tt
insert-free m t (x ∷ txs) h (f, free) = (
  ground (arith, find-insert t.txid x.txid t m, h, bytes_discrete t.txid x.txid),
  insert-free m t txs (ground arith) free,
)

index-finds :
    (m : Map Hash Transaction) (txs : List Transaction)
    → nodup (ids txs) ≡ true
    → All (λ t. find t.txid m ≡ none) txs
    → All (λ t. find t.txid (index m txs) ≡ some t) txs
unfolding index nodup
index-finds m [] h free = tt
index-finds m (t ∷ txs) h (f, free) = (
  index-keeps (insert t.txid t m) txs t.txid (ground (arith, find-insert t.txid t.txid t m)),
  index-finds (insert t.txid t m) txs (ground arith) (insert-free m t txs (ground arith) free),
)

has_key-index :
    (m : Map Hash Transaction) (txs : List Transaction) (v : Hash)
    → has_key v (index m txs) ≡ (has_key v m || contains v (ids txs))
unfolding index has_key contains
has_key-index m [] v = ground arith
has_key-index m (t ∷ txs) v =
    ground (arith, has_key-index (insert t.txid t m) txs v, find-insert t.txid v t m)

-- A transaction's parents that are in the list have a lower rank.
abbrev pub IsRankedIn : (Hash → ℕ) → List Transaction → Transaction → Type 0
IsRankedIn rank txs t =
    All (λ o. (contains o.txid (ids txs) ≡ false) ⊎ (rank o.txid < rank t.txid)) t.inputs

-- All that is visited is on the stack.
abbrev IsClean : Dfs → Type 0
IsClean d = (v : Hash) → contains v d.visited ≡ true → contains v (ids d.stack) ≡ true

module _ (transactions : Map Hash Transaction) (rank : Hash → ℕ) (universe : List Hash) where
  IsClean-Step : (d d' : Dfs) → IsClean d → Step transactions rank d d' → IsClean d'
  IsClean-Step d d' clean p v e =
      ground (arith, p.marked v, contains-pushed transactions rank d d' p v, clean v)

  -- The loop over the whole list.
  visit_roots-Step :
      (n : ℕ) (recur : Recur) (txs : List Transaction) (d : Dfs)
      → Visits transactions rank universe n recur
      → All (λ t. find t.txid transactions ≡ some t) txs
      → IsClean d
      → unseen universe d.visited ≤ n
      → (d' : Dfs) × (visit_roots recur txs d ≡ some d')
        × Step transactions rank d d'
        × All (λ t. contains t.txid d'.visited ≡ true) txs
  unfolding visit_roots
  visit_roots-Step n recur [] d ok found clean le = (d, refl, Step-refl transactions rank d, tt)
  visit_roots-Step n recur (t ∷ txs) d ok (f, found) clean le =
      elim (Bool-cases (contains t.txid d.visited)) [
        | inl old ↦
            let (d', e, p, all) = visit_roots-Step n recur txs d ok found clean le in
            (d', rw old e, p, (ground (arith, p.marked t.txid), all))
        | inr new ↦
            let (d₁, e₁, p₁, seen) = ok t d f new (λ v e. inl (clean v e)) le in
            let (d', e, p, all) =
              visit_roots-Step n recur txs d₁ ok found (IsClean-Step d d₁ clean p₁)
                (unseen-Step transactions rank universe n d d₁ p₁ le) in
            (
              d',
              rw (new, e₁) e,
              Step-trans transactions rank d d₁ d' p₁ p,
              (ground (arith, p.marked t.txid), all),
            )
      ]

known-listed :
    (txs : List Transaction) (v : Hash) {t : Transaction}
    → find v (index [] txs) ≡ some t
    → contains v (ids txs) ≡ true
known-listed txs v e = unfold has_key find in ground (arith, has_key-index [] txs v)

IsBelow-index :
    (rank : Hash → ℕ) (txs : List Transaction) (r : ℕ) (o : Outpoint)
    → (contains o.txid (ids txs) ≡ false) ⊎ (rank o.txid < r)
    → IsBelow (index [] txs) rank r o
IsBelow-index rank txs r o (inl absent) =
    inl (unfold has_key find in ground (arith, has_key-index [] txs o.txid))
IsBelow-index rank txs r o (inr below) = inr below

listed-index :
    (txs : List Transaction)
    → ◌≡◌ {A = Hash → Bool} (λ v. has_key v (index [] txs)) (λ v. contains v (ids txs))
listed-index txs = fun_ext (λ v. has_key-index [] txs v ∙ nothing_else v)
  where
    nothing_else :
        (v : Hash) → (has_key {V = Transaction} v [] || contains v (ids txs)) ≡ contains v (ids txs)
    nothing_else v = unfold has_key find in refl

contains-nil : (v : Hash) → contains v [] ≡ false
unfolding contains
contains-nil v = refl

-- Of transactions with distinct ids, none of which is an ancestor of itself, `topological_sort`
-- gives back each one exactly once, every one after its parents in the list, and it ends.
pub topological_sort-IsOrdered :
    (rank : Hash → ℕ) (txs : List Transaction)
    → nodup (ids txs) ≡ true
    → All (IsRankedIn rank txs) txs
    → (sorted : List Transaction) × (topological_sort txs ≡ some sorted)
      × (nodup (ids sorted) ≡ true)
      × ((v : Hash) → contains v (ids sorted) ≡ contains v (ids txs))
      × All (λ t. find t.txid (index [] txs) ≡ some t) sorted
      × IsOrdered (λ v. contains v (ids txs)) [] sorted
unfolding topological_sort
topological_sort-IsOrdered rank txs distinct ranked =
    let all = index [] txs in
    let found = index-finds [] txs distinct (All-of txs (λ t. unfold find in refl)) in
    let inside =
      All-imp {Q = λ t. contains t.txid (ids txs) ≡ true} txs (λ t e. known-listed txs t.txid e)
        found in
    let below =
      All-imp {Q = λ t. All (IsBelow all rank (rank t.txid)) t.inputs} txs
        (λ t h. All-imp t.inputs (λ o b. IsBelow-index rank txs (rank t.txid) o b) h) ranked in
    let visits =
      topological_sort_internal-Visits all rank (ids txs)
        (index-All (IsKeyed all rank) [] txs tt (All-of txs (λ t. refl)))
        (index-All (IsRanked all rank) [] txs tt below) (suc (length txs))
        (index-All (λ entry. contains entry.1.txid (ids txs) ≡ true) [] txs tt inside) in
    let (d', e, p, seen) =
      visit_roots-Step all rank (ids txs) (suc (length txs))
        (topological_sort_internal all (suc (length txs))) txs (record { stack = []; visited = [] })
        visits found (λ v e. unfold contains in cc)
        (omega
          (arith, unseen-le-length (ids txs) [], length-map {A = Transaction} (λ t. t.txid) txs)) in
    let to_new = λ (v : Hash) (h : contains v (ids txs) ≡ true).
      contains-ids (λ u. contains u d'.visited ≡ true) txs v seen h in
    let to_list = λ (v : Hash) (h : contains v (ids p.new) ≡ true).
      contains-ids (λ u. contains u (ids txs) ≡ true) p.new v
        (All-imp p.new (λ t k. known-listed txs t.txid k) p.known) h in
    (
      p.new,
      rw e (ap some p.pushed),
      p.distinct,
      (λ v. ground (arith, to_new v, to_list v, p.marked v, contains-nil v)),
      p.known,
      subst (λ f. IsOrdered f [] p.new) (listed-index txs) p.ordered,
    )
