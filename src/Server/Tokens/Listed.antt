-- ===== src/Server/Tokens/Listed.antt =====
-- The second loop of `SlpAllTokenBalances` of server/gs++.cpp.
use cpp_slp_graph_search.Prelude.{
  subst, ℕ, ◌≡◌, refl, ap, sym, ◌∙◌, List, [], ◌∷◌, arith, some, inl, inr, Option-cases,
}
use mathlib.Core.List.{Memᴰ}
use cpp_slp_graph_search.Prelude.{subst}
use mathlib.Core.Path.{ap₂}
use mathlib.Core.List.Memᴰ
use cpp_slp_graph_search.Prelude.Keys.{bytes_key, bytes_discrete}
use cpp_slp_graph_search.Prelude.Map.{Map, find}
use cpp_slp_graph_search.Slp.Message.{Hash}
use cpp_slp_graph_search.Validator.State.{Validator}
use cpp_slp_graph_search.Server.Tokens.{
  Genesis, Transaction, TokenBalance, token_genesis, balance_of, balance_list,
}

pub find-Memᴰ : (t : Hash) (k : ℕ) (m : Map Hash ℕ) → find t m ≡ some k → Memᴰ (t, k) m
unfolding find
find-Memᴰ t k [] e = absurd (ground arith)
find-Memᴰ t k ((j, v) ∷ m) e = elim (bytes_discrete j t) [
  | yes same ↦ Memᴰ.head (ap₂ (λ x y. (x, y)) (sym same) (ground (arith, e)))
  | no other ↦ Memᴰ.tail (find-Memᴰ t k m (ground (arith, e)))
]

balance_list-cons :
    (v : Validator) (t : Hash) (k : ℕ) (m : Map Hash ℕ) (list : List TokenBalance)
    → balance_list v ((t, k) ∷ m) ≡ some list
    → (g : Transaction × Genesis) × (rest : List TokenBalance) × (token_genesis v t ≡ some g)
      × (balance_list v m ≡ some rest)
      × (list ≡ balance_of k g ∷ rest)
unfolding balance_list
balance_list-cons v t k m list e = elim (Option-cases (token_genesis v t)) [
  | inl none_such ↦ absurd (ground (arith, none_such, e))
  | inr (g, known) ↦ elim (Option-cases (balance_list v m)) [
    | inl none_such ↦ absurd (ground (arith, known, none_such, e))
    | inr (rest, more) ↦ (g, rest, known, more, ground (arith, known, more, e))
  ]
]

-- An entry of the map gives a reply in the list.
pub balance_list-Memᴰ :
    (v : Validator) (t : Hash) (k : ℕ) (m : Map Hash ℕ) (list : List TokenBalance)
    → balance_list v m ≡ some list
    → Memᴰ (t, k) m
    → (g : Transaction × Genesis) × (token_genesis v t ≡ some g) × Memᴰ (balance_of k g) list
balance_list-Memᴰ v t k [] list e h = absurd (Memᴰ.not-nil h)
balance_list-Memᴰ v t k ((j, n) ∷ m) list e (Memᴰ.head p) =
    let (g, rest, known, more, shape) = balance_list-cons v j n m list e in
    (
      g,
      (ap (token_genesis v) (ap (λ q. q.0) p) ∙ known),
      subst (Memᴰ (balance_of k g)) (sym shape)
          (Memᴰ.head (ap (λ i. balance_of i g) (ap (λ q. q.1) p))),
    )
balance_list-Memᴰ v t k ((j, n) ∷ m) list e (Memᴰ.tail h) =
    let (g, rest, known, more, shape) = balance_list-cons v j n m list e in
    let (g', known', found) = balance_list-Memᴰ v t k m rest more h in
    (g', known', subst (Memᴰ (balance_of k g')) (sym shape) (Memᴰ.tail found))

-- A reply of the list is that of an entry of the map.
pub balance_list-entry :
    (v : Validator) (m : Map Hash ℕ) (list : List TokenBalance) (b : TokenBalance)
    → balance_list v m ≡ some list
    → Memᴰ b list
    → (t : Hash) × (k : ℕ) × (g : Transaction × Genesis) × Memᴰ (t, k) m
      × (token_genesis v t ≡ some g)
      × (b ≡ balance_of k g)
unfolding balance_list
balance_list-entry v [] list b e h =
    let none_listed : list ≡ [] = ground (arith, e) in
    absurd (Memᴰ.not-nil (subst (Memᴰ b) none_listed h))
balance_list-entry v ((j, n) ∷ m) list b e h =
    let (g, rest, known, more, shape) = balance_list-cons v j n m list e in
    elim (Memᴰ.cases_cons (subst (Memᴰ b) shape h)) [
      | inl here ↦ (j, n, g, Memᴰ.head refl, known, here)
      | inr behind ↦
          let (t, k, g', there, known', same) = balance_list-entry v m rest b more behind in
          (t, k, g', Memᴰ.tail there, known', same)
    ]
