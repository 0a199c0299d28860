-- ===== src/Server/Tokens/Examples.antt =====
-- The balance of one script.
use cpp_slp_graph_search.Prelude.{ℕ, ◌≡◌, refl, List, [], ◌∷◌, ◌⊎◌, true}
use cpp_slp_graph_search.Prelude.Keys.{bytes_key, bytes_discrete}
use cpp_slp_graph_search.Slp.Message.{Hash}
use cpp_slp_graph_search.Util.Hex.{Text, hex}
use cpp_slp_graph_search.Graph.Store.{ref_key}
use cpp_slp_graph_search.UtxoDb.Store.{empty_utxodb, UtxoDb}
use mathlib.Core.List.{Memᴰ, reverse}
use cpp_slp_graph_search.Prelude.{◌≢◌, arith}
use cpp_slp_graph_search.Prelude.Map.{Map, assign, erase, find}
use cpp_slp_graph_search.Server.Tokens.{
  TokenBalance, answered, bare_balance, slp_token_balance, slp_all_token_balances,
}
use cpp_slp_graph_search.Server.Tokens.Replies.{slp_token_balance-slp_all_token_balances}
use cpp_slp_graph_search.Server.Samples.{ones, one_id, output_at, after}
use cpp_slp_graph_search.Prelude.Set.{contains}
use cpp_slp_graph_search.Server.Search.{txid_regex}

-- The output 1 of the transaction `issue` at a script of one byte.
abbrev one_unspent : UtxoDb
one_unspent = record empty_utxodb {
  scriptpubkey_to_output = (9 ∷ [], (record { txid = one_id; vout = 1 }, output_at 1) ∷ []) ∷ [];
}

abbrev one_script : Text → List ℕ
one_script text = 9 ∷ []

abbrev all_entries : Map Hash ℕ → Map Hash ℕ
all_entries balances = balances

abbrev ten_held : TokenBalance
ten_held = record { value = 10; decimals = 0; ticker = []; name = []; tokenid = ones; type = 1 }

ten_held-answered :
    slp_all_token_balances one_script all_entries after.validator one_unspent []
    ≡ answered (ten_held ∷ [])
unfolding slp_all_token_balances find bytes_discrete contains assign erase hex
ten_held-answered = refl

txid_regex-ones : txid_regex (hex (reverse one_id)) ≡ true
unfolding txid_regex hex
txid_regex-ones = refl

slp_token_balance-slp_all_token_balances_example :
    ((slp_token_balance one_script after.validator one_unspent [] (hex (reverse one_id))
        ≡ answered (bare_balance (hex (reverse one_id))))
      × ((b : TokenBalance)
          → Memᴰ b (ten_held ∷ [])
          → b.tokenid ≡ hex (reverse one_id)
          → b.value ≡ 0))
    ⊎ ((b : TokenBalance) × (slp_token_balance one_script after.validator one_unspent []
            (hex (reverse one_id))
          ≡ answered b)
        × Memᴰ b (ten_held ∷ [])
        × (b.tokenid ≡ hex (reverse one_id))
        × (b.value ≢ 0))
slp_token_balance-slp_all_token_balances_example =
    slp_token_balance-slp_all_token_balances one_script all_entries after.validator one_unspent []
      one_id (ten_held ∷ []) ((refl, omega arith), tt) (λ balances entry. (λ h. h, λ h. h))
      (omega arith) txid_regex-ones ten_held-answered
