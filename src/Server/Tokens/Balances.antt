-- ===== src/Server/Tokens/Balances.antt =====
-- `SlpTokenBalance` and `SlpAllTokenBalances` of server/gs++.cpp against each other.
use cpp_slp_graph_search.Prelude.{
  ℕ, ◌≡◌, refl, ap, ◌∙◌, List, [], ◌∷◌, arith, if◌then◌else◌, inl, inr, Option-cases,
}
use mathlib.Core.Option
use cpp_slp_graph_search.Prelude.Keys.{bytes_key, bytes_discrete}
use cpp_slp_graph_search.Prelude.Map.{Map, find, assign, find-assign}
use cpp_slp_graph_search.Slp.Message.{Hash}
use cpp_slp_graph_search.Tx.Types.{Output}
use cpp_slp_graph_search.Tx.Outputs.{output_slp_amount}
use cpp_slp_graph_search.UtxoDb.Store.{add64}
use cpp_slp_graph_search.Validator.State.{Validator, get}
use cpp_slp_graph_search.Validator.Check.{same_hash}
use cpp_slp_graph_search.Server.Tokens.{token_sum, all_sums, value_at, value_of}

value_at-assign :
    (tokenid t : Hash) (n : ℕ) (balances : Map Hash ℕ)
    → value_at t (assign tokenid (add64 (value_at tokenid balances) n) balances)
      ≡ (if same_hash tokenid t then add64 (value_at t balances) n else value_at t balances)
unfolding value_at
value_at-assign tokenid t n balances = elim (bytes_discrete tokenid t) [
  | yes same ↦
      let here = ap (λ j. value_of (find j balances)) same in
      let found = find-assign tokenid t (add64 (value_of (find tokenid balances)) n) balances in
      ground (arith, here, found, ap value_of found)
  | no other ↦
      let found = find-assign tokenid t (add64 (value_of (find tokenid balances)) n) balances in
      ground (arith, found, ap value_of found)
]

-- The value of a token in the map that the first loop of `SlpAllTokenBalances` makes is what the loop
-- of `SlpTokenBalance` adds up for the token over the same outputs; and both loops end by an exception
-- for the same outputs.
pub all_sums-token_sum :
    (v : Validator) (tokenid : Hash) (utxos : List Output) (balances : Map Hash ℕ)
    → Option.map (value_at tokenid) (all_sums v balances utxos)
      ≡ token_sum v tokenid (value_at tokenid balances) utxos
unfolding all_sums token_sum
all_sums-token_sum v tokenid [] balances = refl
all_sums-token_sum v tokenid (utxo ∷ utxos) balances = elim (Option-cases (get v utxo.prev_tx_id)) [
  | inl e ↦ rw (e, all_sums, token_sum) refl
  | inr (tx, e) ↦
      let n = output_slp_amount tx utxo.prev_out_idx in
      let t = tx.slp.tokenid in
      let next = assign t (add64 (value_at t balances) n) balances in
      rw (e, all_sums, token_sum)
        (all_sums-token_sum v tokenid utxos next
          ∙ ap (λ k. token_sum v tokenid k utxos) (value_at-assign t tokenid n balances))
]
