-- ===== src/Server/Tokens/Sums.antt =====
-- The map of `SlpAllTokenBalances` of server/gs++.cpp, and the replies made of its entries.
use cpp_slp_graph_search.Prelude.{
  ite, ℕ, ◌≡◌, refl, ap, sym, ◌∙◌, subst, List, [], ◌∷◌, arith, Option, none, some, inl, inr,
  Option-cases, All, All-reverse, reverse,
}
use mathlib.Core.List.{Memᴰ, reverse-reverse}
use mathlib.Core.List.Memᴰ
use cpp_slp_graph_search.Prelude.Keys.{bytes_key, bytes_discrete}
use cpp_slp_graph_search.Prelude.Map.{Map, find, erase, assign, find-assign, find-All}
use cpp_slp_graph_search.Slp.Message.{Hash, Genesis}
use cpp_slp_graph_search.Tx.Types.{Transaction, Output}
use cpp_slp_graph_search.Tx.Outputs.{output_slp_amount}
use cpp_slp_graph_search.Util.Bytes.{Byte}
use cpp_slp_graph_search.Util.Hex.{hex, unhex, unhex-hex}
use cpp_slp_graph_search.UtxoDb.Store.{add64}
use cpp_slp_graph_search.Validator.State.{Validator, get}
use cpp_slp_graph_search.Server.Tokens.{token_genesis, with_genesis, genesis_of, all_sums, value_at}

-- An entry of the map is the one that a lookup finds.
abbrev pub IsFound : Map Hash ℕ → Type 0
IsFound m = (t : Hash) (k : ℕ) → Memᴰ (t, k) m → find t m ≡ some k

erase-Memᴰ :
    (t j : Hash) (k : ℕ) (m : Map Hash ℕ) → Memᴰ (j, k) (erase t m) → ¬ (t ≡ j) × Memᴰ (j, k) m
unfolding erase
erase-Memᴰ t j k [] h = absurd (Memᴰ.not-nil h)
erase-Memᴰ t j k ((i, n) ∷ m) h = by_key (erase-Memᴰ t j k m) (bytes_discrete i t) h
  where
    by_key :
        (Memᴰ (j, k) (erase t m) → ¬ (t ≡ j) × Memᴰ (j, k) m)
        → (d : Dec (i ≡ t)) → Memᴰ (j, k) (ite d (erase t m) ((i, n) ∷ erase t m))
        → ¬ (t ≡ j) × Memᴰ (j, k) ((i, n) ∷ m)
    by_key behind (yes same) p = let (apart, there) = behind p in (apart, Memᴰ.tail there)
    by_key behind (no other) (Memᴰ.head p) = (λ e. other (sym (e ∙ ap (λ q. q.0) p)), Memᴰ.head p)
    by_key behind (no other) (Memᴰ.tail p) =
        let (apart, there) = behind p in (apart, Memᴰ.tail there)

assign-IsFound : (t : Hash) (n : ℕ) (m : Map Hash ℕ) → IsFound m → IsFound (assign t n m)
assign-IsFound t n m h j k p = by_place (unfold assign in p)
  where
    by_place : Memᴰ (j, k) ((t, n) ∷ erase t m) → find j (assign t n m) ≡ some k
    by_place (Memᴰ.head p) =
        ap (λ i. find i (assign t n m)) (ap (λ q. q.0) p)
        ∙ ground (arith, find-assign t t n m, ap (λ q. q.1) p)
    by_place (Memᴰ.tail p) =
        let (other, there) = erase-Memᴰ t j k m p in
        ground (arith, find-assign t j n m, other, h j k there)

pub all_sums-IsFound :
    (v : Validator) (utxos : List Output) (balances sums : Map Hash ℕ)
    → all_sums v balances utxos ≡ some sums
    → IsFound balances
    → IsFound sums
unfolding all_sums
all_sums-IsFound v [] balances sums e h = subst IsFound (ground (arith, e)) h
all_sums-IsFound v (utxo ∷ utxos) balances sums e h = elim (Option-cases (get v utxo.prev_tx_id)) [
  | inl none_such ↦ absurd (ground (arith, none_such, e))
  | inr (tx, there) ↦
      let t = tx.slp.tokenid in
      let n = add64 (value_at t balances) (output_slp_amount tx utxo.prev_out_idx) in
      all_sums-IsFound v utxos (assign t n balances) sums (ground (arith, there, e))
        (assign-IsFound t n balances h)
]

-- A transaction under its own id, which is of bytes.
abbrev pub IsNamed : Hash × Transaction → Type 0
IsNamed entry = (entry.1.txid ≡ entry.0) × All Byte entry.0

pub token_genesis-IsNamed :
    (v : Validator) (t : Hash) (g : Transaction × Genesis)
    → All IsNamed v.transaction_map
    → token_genesis v t ≡ some g
    → (g.0.txid ≡ t) × All Byte t
unfolding token_genesis with_genesis get
token_genesis-IsNamed v t g h e = elim (Option-cases (find t v.transaction_map)) [
  | inl none_such ↦ absurd (ground (arith, none_such, e))
  | inr (tx, there) ↦
      let named = find-All IsNamed t v.transaction_map h there in
      (own tx (genesis_of tx.slp.slp_tx) refl there ∙ named.0, named.1)
]
  where
    own :
        (tx : Transaction) (o : Option Genesis)
        → genesis_of tx.slp.slp_tx ≡ o
        → find t v.transaction_map ≡ some tx
        → g.0.txid ≡ tx.txid
    own tx none q there = absurd (ground (arith, q, there, e))
    own tx (some made) q there =
        let same : g ≡ (tx, made) = ground (arith, q, there, e) in ap (λ p. p.0.txid) same

pub hex-reverse_injective :
    (t s : Hash) → All Byte t → All Byte s → hex (reverse t) ≡ hex (reverse s) → t ≡ s
hex-reverse_injective t s ht hs e =
    sym (reverse-reverse t)
    ∙ ap reverse (
        sym (unhex-hex (reverse t) (All-reverse Byte t ht))
        ∙ ap unhex e
        ∙ unhex-hex (reverse s) (All-reverse Byte s hs))
    ∙ reverse-reverse s
