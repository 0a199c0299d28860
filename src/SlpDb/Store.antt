-- ===== src/SlpDb/Store.antt =====
-- `slp_output`, `slp_token`, `slpdb` and `slpdb::add_transaction`.
use cpp_slp_graph_search.Prelude.{
  ℕ, ◌+◌, List, [], ◌∷◌, Option, none, some, Bool, true, false, ◌&&◌, ltb, if◌then◌else◌, ite,
  length,
}
use cpp_slp_graph_search.Prelude.Keys.{bytes_key}
use cpp_slp_graph_search.Prelude.Map.{Map, find, insert, assign, erase}
use cpp_slp_graph_search.Slp.Message.{Hash, Genesis, Mint, SlpTx, invalid, genesis, mint, send}
use cpp_slp_graph_search.Tx.Types.{Outpoint, Transaction, outpoint_key}
use cpp_slp_graph_search.Validator.Check.{add128, output_amount}

pub record SlpOutput : Type 0 where
  pub outpoint : Outpoint
  pub amount : ℕ
  pub is_mint_baton : Bool

pub record SlpToken : Type 0 where
  pub tokenid : Hash
  pub transactions : Map Hash Transaction
  pub utxos : Map Outpoint SlpOutput
  pub mint_baton_outpoint : Option Outpoint

pub record SlpDb : Type 0 where
  pub tokens : Map Hash SlpToken
  pub utxo_to_tokenid : Map Outpoint Hash

-- `slp_token(tx)`
unfoldable pub new_token : Transaction → SlpToken
new_token tx = record {
  tokenid = tx.txid;
  transactions = (tx.txid, tx) ∷ [];
  utxos = [];
  mint_baton_outpoint = none;
}

-- `slp_output(outpoint, amount)` and `slp_output(outpoint, mint_baton_utxo)`.
abbrev pub value_output : Outpoint → ℕ → SlpOutput
value_output o n = record { outpoint = o; amount = n; is_mint_baton = false }

abbrev pub baton_output : Outpoint → SlpOutput
baton_output o = record { outpoint = o; amount = 0; is_mint_baton = true }

abbrev pub outpoint_at : Transaction → ℕ → Outpoint
outpoint_at tx vout = record { txid = tx.txid; vout = vout }

unfoldable pub add_utxo : Outpoint → SlpOutput → SlpToken → SlpToken
add_utxo o out token = record token { utxos = insert o out token.utxos }

-- A change of the token behind the reference that `find` gave.
unfoldable pub put_token : Hash → SlpToken → SlpDb → SlpDb
put_token tokenid token db = record db { tokens = assign tokenid token db.tokens }

unfoldable pub tag_utxo : Outpoint → Hash → SlpDb → SlpDb
tag_utxo o tokenid db = record db { utxo_to_tokenid = insert o tokenid db.utxo_to_tokenid }

abbrev pub token_or : Option SlpToken → SlpToken → SlpToken
token_or none t = t
token_or (some u) t = u

-- The baton of a GENESIS, which gets no entry in `utxos`.
unfoldable pub genesis_baton : Transaction → Genesis → SlpToken → SlpToken
genesis_baton tx g token =
    if g.has_mint_baton && ltb g.mint_baton_vout (length tx.outputs)
    then record token { mint_baton_outpoint = some (outpoint_at tx g.mint_baton_vout) }
    else token

unfoldable pub tag_baton : Transaction → Bool → ℕ → Hash → SlpDb → SlpDb
unfolding tag_utxo
tag_baton tx has vout tokenid db =
    if has && ltb vout (length tx.outputs) then tag_utxo (outpoint_at tx vout) tokenid db else db

unfoldable pub add_genesis : SlpDb → Transaction → Genesis → SlpDb
unfolding new_token add_utxo put_token tag_utxo genesis_baton tag_baton
add_genesis db tx g =
    if ltb (length tx.outputs) 2
    then db
    else (let o = outpoint_at tx 1 in
        let token =
          add_utxo o (value_output o g.qty) (token_or (find tx.txid db.tokens) (new_token tx)) in
        tag_baton tx g.has_mint_baton g.mint_baton_vout tx.txid
          (tag_utxo o tx.txid (put_token tx.txid (genesis_baton tx g token) db)))

unfoldable pub spends : Outpoint → List Outpoint → Bool
spends o [] = false
spends o (i ∷ is) = ite (outpoint_key.dec o i) true (spends o is)

-- The loop over the inputs in the MINT branch.
abbrev pub spends_baton : Option Outpoint → List Outpoint → Bool
spends_baton none is = false
spends_baton (some baton) is = spends baton is

unfoldable pub record_tx : Transaction → SlpToken → SlpToken
record_tx tx token = record token { transactions = insert tx.txid tx token.transactions }

-- The baton of a MINT. Its entry in `utxos` names the outpoint of the quantity.
unfoldable pub mint_baton : Transaction → Mint → SlpToken → SlpToken
unfolding add_utxo
mint_baton tx m token =
    if m.has_mint_baton && ltb m.mint_baton_vout (length tx.outputs)
    then add_utxo (outpoint_at tx m.mint_baton_vout) (baton_output (outpoint_at tx 1))
        (record token { mint_baton_outpoint = some (outpoint_at tx m.mint_baton_vout) })
    else token

unfoldable pub add_mint_to : SlpDb → Transaction → Mint → SlpToken → SlpDb
unfolding add_utxo put_token tag_utxo tag_baton record_tx mint_baton spends
add_mint_to db tx m token =
    if spends_baton token.mint_baton_outpoint tx.inputs
    then (let o = outpoint_at tx 1 in
        let minted = add_utxo o (value_output o m.qty) (record_tx tx token) in
        tag_baton tx m.has_mint_baton m.mint_baton_vout tx.slp.tokenid
          (tag_utxo o tx.slp.tokenid (put_token tx.slp.tokenid (mint_baton tx m minted) db)))
    else db

-- `total_token_inputs`
unfoldable pub token_inputs : Map Outpoint SlpOutput → ℕ → List Outpoint → ℕ
unfolding add128
token_inputs utxos sum [] = sum
token_inputs utxos sum (o ∷ os) = elim (find o utxos) [
  | none ↦ token_inputs utxos sum os
  | some out ↦ token_inputs utxos (add128 sum out.amount) os
]

-- The loop over the amounts, from number `i` on, in a transaction of `n` outputs.
unfoldable pub add_amounts :
    Transaction → ℕ → ℕ → List ℕ → Map Outpoint SlpOutput → Map Outpoint SlpOutput
add_amounts tx n i [] utxos = utxos
add_amounts tx n i (amount ∷ amounts) utxos =
    if ltb i (1 + n)
    then add_amounts tx n (i + 1) amounts
        (insert (outpoint_at tx (i + 1)) (value_output (outpoint_at tx (i + 1)) amount) utxos)
    else utxos

unfoldable pub tag_amounts : Transaction → ℕ → ℕ → List ℕ → Map Outpoint Hash → Map Outpoint Hash
tag_amounts tx n i [] tags = tags
tag_amounts tx n i (amount ∷ amounts) tags =
    if ltb i (1 + n)
    then tag_amounts tx n (i + 1) amounts (insert (outpoint_at tx (i + 1)) tx.slp.tokenid tags)
    else tags

unfoldable pub send_token : Transaction → List ℕ → SlpToken → SlpToken
unfolding add_amounts record_tx
send_token tx amounts token =
    record_tx tx (record token { utxos = add_amounts tx (length tx.outputs) 0 amounts token.utxos })

unfoldable pub add_send_to : SlpDb → Transaction → List ℕ → SlpToken → SlpDb
unfolding token_inputs output_amount send_token tag_amounts
add_send_to db tx amounts token =
    if ltb (token_inputs token.utxos 0 tx.inputs) (output_amount 0 amounts) then db else (record {
      tokens = assign tx.slp.tokenid (send_token tx amounts token) db.tokens;
      utxo_to_tokenid = tag_amounts tx (length tx.outputs) 0 amounts db.utxo_to_tokenid;
    })

unfoldable pub add_by_type : SlpDb → Transaction → SlpTx → SlpDb
unfolding add_genesis add_mint_to add_send_to
add_by_type db tx invalid = db
add_by_type db tx (genesis g) = add_genesis db tx g
add_by_type db tx (mint m) = elim (find tx.slp.tokenid db.tokens) [
  | none ↦ db
  | some token ↦ add_mint_to db tx m token
]
add_by_type db tx (send amounts) = elim (find tx.slp.tokenid db.tokens) [
  | none ↦ db
  | some token ↦ add_send_to db tx amounts token
]

unfoldable pub add_transaction : SlpDb → Transaction → SlpDb
unfolding add_by_type
add_transaction db tx = add_by_type db tx tx.slp.slp_tx

-- What `process_block` does to the token of a spent outpoint: `utxos` loses it, and the baton is
-- reset only if `utxos` held it.
unfoldable pub spend_utxo : Outpoint → SlpToken → SlpToken
unfolding spends
spend_utxo o token = elim (find o token.utxos) [
  | none ↦ token
  | some out ↦ record token {
    utxos = erase o token.utxos;
    mint_baton_outpoint =
        if spends_baton token.mint_baton_outpoint (o ∷ []) then none else token.mint_baton_outpoint;
  }
]
