-- ===== src/Server/Sync/Order.antt =====
-- The order in which a hash map of server/gs++.cpp lists its entries.
use cpp_slp_graph_search.Prelude.{
  ◌≡◌, refl, sym, ap, ◌∙◌, List, [], ◌∷◌, ◌++◌, false, Bool, not, ◌||◌, arith, leb, length, All,
  inl, inr, Bool-cases,
}
use cpp_slp_graph_search.Prelude.Keys.{bytes_key}
use cpp_slp_graph_search.Prelude.Set.{contains}
use cpp_slp_graph_search.Slp.Message.{Hash, is_invalid}
use cpp_slp_graph_search.Tx.Types.{Transaction}
use cpp_slp_graph_search.Tx.Outputs.Reads.{HasOutputs}
use cpp_slp_graph_search.Topological.Order.{ids}
use cpp_slp_graph_search.Server.Sync.{Group, all_txs}
use cpp_slp_graph_search.Server.Sync.Keys.{group_ids, contains-group_ids}

abbrev pub any {ℓ} : {A : Type ℓ} → (A → Bool) → List A → Bool
any f [] = false
any f (a ∷ l) = f a || any f l

-- The same entries, in some order: what one list has, whatever the test, the other has.
abbrev pub IsOrder : (List Group → List Group) → Type 0
IsOrder order =
    (groups : List Group) (test : Group → Bool) → any test (order groups) ≡ any test groups

any-group_ids :
    (x : Hash) (groups : List Group)
    → contains x (group_ids groups) ≡ any (λ group. contains x (ids group.1)) groups
any-group_ids x [] = unfold all_txs contains in refl
any-group_ids x ((t, txs) ∷ groups) =
    contains-group_ids x t txs groups ∙ ap (λ c. contains x (ids txs) || c) (any-group_ids x groups)

pub order-group_ids :
    (order : List Group → List Group) (groups : List Group) (x : Hash)
    → IsOrder order
    → contains x (group_ids (order groups)) ≡ contains x (group_ids groups)
order-group_ids order groups x same =
    any-group_ids x (order groups)
    ∙ same groups (λ group. contains x (ids group.1))
    ∙ sym (any-group_ids x groups)

any-append {ℓ} : {A : Type ℓ} (f : A → Bool) (l m : List A) → any f (l ++ m) ≡ (any f l || any f m)
any-append f [] m = refl
any-append f (a ∷ l) m = ground (arith, any-append f l m)

any-all_txs :
    (f : Transaction → Bool) (groups : List Group)
    → any f (all_txs groups) ≡ any (λ group. any f group.1) groups
unfolding all_txs
any-all_txs f [] = refl
any-all_txs f ((t, txs) ∷ groups) =
    any-append f txs (all_txs groups) ∙ ap (λ c. any f txs || c) (any-all_txs f groups)

-- Whether `slp_outputs` would read outputs that the transaction does not have.
abbrev lacks_outputs : Transaction → Bool
lacks_outputs tx = not (is_invalid tx.slp.slp_tx || leb 2 (length tx.outputs))

lacks-HasOutputs : (tx : Transaction) → HasOutputs tx → lacks_outputs tx ≡ false
lacks-HasOutputs tx (inl e) = ground (arith, e)
lacks-HasOutputs tx (inr h) = ground (arith, h)

HasOutputs-lacks : (tx : Transaction) → lacks_outputs tx ≡ false → HasOutputs tx
HasOutputs-lacks tx e = elim (Bool-cases (is_invalid tx.slp.slp_tx)) [
  | inl bad ↦ inl bad
  | inr fine ↦ inr (ground (arith, e, fine))
]

any-HasOutputs : (txs : List Transaction) → All HasOutputs txs → any lacks_outputs txs ≡ false
any-HasOutputs [] h = refl
any-HasOutputs (tx ∷ txs) (h, hs) = ground (arith, lacks-HasOutputs tx h, any-HasOutputs txs hs)

HasOutputs-any : (txs : List Transaction) → any lacks_outputs txs ≡ false → All HasOutputs txs
HasOutputs-any [] e = tt
HasOutputs-any (tx ∷ txs) e =
    (HasOutputs-lacks tx (ground (arith, e)), HasOutputs-any txs (ground (arith, e)))

pub order-HasOutputs :
    (order : List Group → List Group) (groups : List Group)
    → IsOrder order
    → All HasOutputs (all_txs groups)
    → All HasOutputs (all_txs (order groups))
order-HasOutputs order groups same h = HasOutputs-any (all_txs (order groups)) (
    any-all_txs lacks_outputs (order groups)
    ∙ same groups (λ group. any lacks_outputs group.1)
    ∙ sym (any-all_txs lacks_outputs groups)
    ∙ any-HasOutputs (all_txs groups) h)
