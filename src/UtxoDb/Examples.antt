-- ===== src/UtxoDb/Examples.antt =====
-- A store with two outputs of one script, of which the mempool spends one.
use cpp_slp_graph_search.Prelude.{ℕ, ◌≡◌, ◌<◌, ◌%◌, ◌^◌, refl, some, [], ◌∷◌, arith, length, take}
use cpp_slp_graph_search.Prelude.Keys.{bytes_discrete}
use cpp_slp_graph_search.Prelude.Map.{find}
use cpp_slp_graph_search.Prelude.Set.{contains}
use cpp_slp_graph_search.Tx.Types.{Outpoint, outpoint_key, Output, outpoint_of, Outpoint-discrete}
use cpp_slp_graph_search.UtxoDb.Store.{
  UtxoDb, empty_utxodb, rollback, get_outputs_by_scriptpubkey, get_balance_by_scriptpubkey,
}
use cpp_slp_graph_search.UtxoDb.Rollback.{rollback-outpoint_map}
use cpp_slp_graph_search.UtxoDb.Answers.{
  held_by, total, get_outputs_by_scriptpubkey-take,
  get_balance_by_scriptpubkey-get_outputs_by_scriptpubkey,
}

abbrev coin : ℕ → Output
coin n = record { prev_tx_id = n ∷ []; prev_out_idx = 0; value = n; scriptpubkey = 7 ∷ [] }

abbrev two_coins : UtxoDb
two_coins = record empty_utxodb {
  outpoint_map = (outpoint_of (coin 5), coin 5) ∷ (outpoint_of (coin 6), coin 6) ∷ [];
  scriptpubkey_to_output =
      (7 ∷ [], (outpoint_of (coin 5), coin 5) ∷ (outpoint_of (coin 6), coin 6) ∷ []) ∷ [];
  mempool_spent_confirmed_outpoints = outpoint_of (coin 5) ∷ [];
}

get_outputs_by_scriptpubkey-take_example :
    get_outputs_by_scriptpubkey two_coins (7 ∷ []) 1 ≡ take 1 (held_by two_coins (7 ∷ []))
get_outputs_by_scriptpubkey-take_example =
    get_outputs_by_scriptpubkey-take two_coins (7 ∷ []) 1 (omega arith)

-- The spent output is passed over.
one_answer : get_outputs_by_scriptpubkey two_coins (7 ∷ []) 2 ≡ coin 6 ∷ []
unfolding get_outputs_by_scriptpubkey find contains bytes_discrete Outpoint-discrete
one_answer = refl

few_answers : length (get_outputs_by_scriptpubkey two_coins (7 ∷ []) 2) < 2
few_answers = rw one_answer (omega arith)

get_balance_by_scriptpubkey-get_outputs_by_scriptpubkey_example :
    get_balance_by_scriptpubkey two_coins (7 ∷ [])
    ≡ total (get_outputs_by_scriptpubkey two_coins (7 ∷ []) 2) % 2 ^ 64
get_balance_by_scriptpubkey-get_outputs_by_scriptpubkey_example =
    get_balance_by_scriptpubkey-get_outputs_by_scriptpubkey two_coins (7 ∷ []) 2 few_answers

-- A store whose last block made one coin and spent another.
abbrev after_one_block : UtxoDb
after_one_block = record two_coins {
  last_block_removed = (coin 4 ∷ []) ∷ [];
  last_block_added = (outpoint_of (coin 6) ∷ []) ∷ [];
}

rollback-outpoint_map_example :
    ((rollback after_one_block).current_block_height ≡ after_one_block.current_block_height)
    × ((o : Outpoint) (x : Output)
        → find o after_one_block.outpoint_map ≡ some x
        → find o (rollback after_one_block).outpoint_map ≡ some x)
rollback-outpoint_map_example = rollback-outpoint_map after_one_block
