-- ===== src/SlpDb/Edges.antt =====
-- What `slpdb::add_transaction` (include/gs++/slpdb.hpp) records behind the last output, and for
-- the baton of a GENESIS.
use cpp_slp_graph_search.Prelude.{
  ℕ, zero, suc, ◌+◌, ◌≡◌, ◌≤◌, ◌<◌, refl, ap, ◌∙◌, List, [], ◌∷◌, arith, true, false, none, some,
  length, ltb,
}
use cpp_slp_graph_search.Prelude.Keys.{bytes_key}
use cpp_slp_graph_search.Prelude.Map.{Map, find, has_key, insert, assign, find-insert, find-assign}
use cpp_slp_graph_search.Slp.Message.{Genesis, genesis}
use cpp_slp_graph_search.Tx.Types.{Outpoint, Transaction, outpoint_key, Outpoint-discrete}
use cpp_slp_graph_search.SlpDb.Store.{
  SlpOutput, SlpToken, SlpDb, outpoint_at, value_output, add_amounts, spend_utxo, send_token,
  record_tx, new_token, add_genesis, add_utxo, put_token, tag_utxo, tag_baton, genesis_baton,
  add_by_type, add_transaction,
}

has_key-insert :
    (o i : Outpoint) (out : SlpOutput) (m : Map Outpoint SlpOutput)
    → (has_key o m ≡ true → has_key o (insert i out m) ≡ true) × (has_key o (insert o out m) ≡ true)
unfolding has_key
has_key-insert o i out m =
    ((λ h. ground (arith, find-insert i o out m)), ground (arith, find-insert o o out m))

add_amounts-keeps :
    (tx : Transaction) (n i : ℕ) (amounts : List ℕ) (m : Map Outpoint SlpOutput) (o : Outpoint)
    → has_key o m ≡ true
    → has_key o (add_amounts tx n i amounts m) ≡ true
unfolding add_amounts
add_amounts-keeps tx n i [] m o h = h
add_amounts-keeps tx n i (amount ∷ amounts) m o h =
    let at = outpoint_at tx (i + 1) in
    let later =
      add_amounts-keeps tx n (i + 1) amounts (insert at (value_output at amount) m) o
        ((has_key-insert o at (value_output at amount) m).0 h) in
    ground (arith, later)

add_amounts-has :
    (tx : Transaction) (n i k : ℕ) (amounts : List ℕ) (m : Map Outpoint SlpOutput)
    → k < length amounts
    → i + k < 1 + n
    → has_key (outpoint_at tx (i + k + 1)) (add_amounts tx n i amounts m) ≡ true
unfolding add_amounts
add_amounts-has tx n i k [] m h l = absurd (omega arith)
add_amounts-has tx n i zero (amount ∷ amounts) m h l =
    let at = outpoint_at tx (i + 1) in
    let added =
      add_amounts-keeps tx n (i + 1) amounts (insert at (value_output at amount) m) at
        (has_key-insert at at (value_output at amount) m).1 in
    let here : ltb i (1 + n) ≡ true = ground arith in
    rw here (
      ap
        (λ j.
          has_key (outpoint_at tx (j + 1))
            (add_amounts tx n (i + 1) amounts (insert at (value_output at amount) m)))
        (omega arith)
      ∙ added)
add_amounts-has tx n i (suc k) (amount ∷ amounts) m h l =
    let at = outpoint_at tx (i + 1) in
    let later =
      add_amounts-has tx n (i + 1) k amounts (insert at (value_output at amount) m)
        (omega (arith, h)) (omega (arith, l)) in
    let here : ltb i (1 + n) ≡ true = ground arith in
    rw here (
      ap
        (λ j.
          has_key (outpoint_at tx (j + 1))
            (add_amounts tx n (i + 1) amounts (insert at (value_output at amount) m)))
        (omega arith)
      ∙ later)

-- A SEND of more amounts than its transaction has outputs leaves an entry in `utxos` for an output
-- number that is past the last output.
pub send_token-past_end :
    (tx : Transaction) (amounts : List ℕ) (token : SlpToken)
    → length tx.outputs < length amounts
    → has_key (outpoint_at tx (length tx.outputs + 1)) (send_token tx amounts token).utxos ≡ true
unfolding send_token record_tx
send_token-past_end tx amounts token h =
    ap
      (λ k.
        has_key (outpoint_at tx (k + 1)) (add_amounts tx (length tx.outputs) 0 amounts token.utxos))
      (omega arith)
    ∙ add_amounts-has tx (length tx.outputs) 0 (length tx.outputs) amounts token.utxos h
        (omega arith)

-- The token of a GENESIS with a baton.
abbrev pub token_with_baton : Transaction → Genesis → SlpToken
token_with_baton tx g = record {
  tokenid = tx.txid;
  transactions = (tx.txid, tx) ∷ [];
  utxos = (outpoint_at tx 1, value_output (outpoint_at tx 1) g.qty) ∷ [];
  mint_baton_outpoint = some (outpoint_at tx g.mint_baton_vout);
}

add_genesis-tokens :
    (db : SlpDb) (tx : Transaction) (g : Genesis)
    → find tx.txid db.tokens ≡ none
    → g.has_mint_baton ≡ true
    → 2 ≤ g.mint_baton_vout
    → g.mint_baton_vout < length tx.outputs
    → (add_genesis db tx g).tokens ≡ assign tx.txid (token_with_baton tx g) db.tokens
unfolding add_genesis new_token add_utxo put_token tag_utxo genesis_baton tag_baton insert find
add_genesis-tokens db tx g fresh has low high =
    let long : ltb (length tx.outputs) 2 ≡ false = ground arith in
    let inside : ltb g.mint_baton_vout (length tx.outputs) ≡ true = ground arith in
    rw (long, fresh, has, inside) refl

baton-missing :
    (tx : Transaction) (g : Genesis)
    → 2 ≤ g.mint_baton_vout
    → find (outpoint_at tx g.mint_baton_vout) (token_with_baton tx g).utxos ≡ none
unfolding find
baton-missing tx g low =
    elim (Outpoint-discrete (outpoint_at tx 1) (outpoint_at tx g.mint_baton_vout)) [
      | yes same ↦ absurd (omega (arith, ap (λ o. o.vout) same))
      | no other ↦ ground arith
    ]

spend_utxo-absent :
    (o : Outpoint) (token : SlpToken) → find o token.utxos ≡ none → spend_utxo o token ≡ token
unfolding spend_utxo
spend_utxo-absent o token e = rw (e, spend_utxo) refl

-- The baton of a new token is known as its baton, but its removal by a block changes nothing: the
-- token keeps the baton of a spent output.
pub spend_utxo-genesis_baton :
    (db : SlpDb) (tx : Transaction) (g : Genesis)
    → find tx.txid db.tokens ≡ none
    → tx.slp.slp_tx ≡ genesis g
    → g.has_mint_baton ≡ true
    → 2 ≤ g.mint_baton_vout
    → g.mint_baton_vout < length tx.outputs
    → (token : SlpToken) × (find tx.txid (add_transaction db tx).tokens ≡ some token)
      × (token.mint_baton_outpoint ≡ some (outpoint_at tx g.mint_baton_vout))
      × (spend_utxo (outpoint_at tx g.mint_baton_vout) token ≡ token)
unfolding add_transaction add_by_type
spend_utxo-genesis_baton db tx g fresh e has low high =
    let token = token_with_baton tx g in
    let stored : find tx.txid (assign tx.txid token db.tokens) ≡ some token =
      ground (arith, find-assign tx.txid tx.txid token db.tokens) in
    (
      token,
      ap (λ m. find tx.txid (add_by_type db tx m).tokens) e
          ∙ ap (find tx.txid) (add_genesis-tokens db tx g fresh has low high)
          ∙ stored,
      refl,
      spend_utxo-absent (outpoint_at tx g.mint_baton_vout) token (baton-missing tx g low),
    )
