-- ===== src/SlpDb/Tagged.antt =====
-- The tokens that `utxo_to_tokenid` of `slpdb` (include/gs++/slpdb.hpp) names.
use cpp_slp_graph_search.Prelude.{
  ℕ, ◌+◌, ◌≡◌, List, [], ◌∷◌, Option, some, none, arith, Bool, true, false, All, All-imp, ltb,
  if◌then◌else◌, length, ◌&&◌,
}
use cpp_slp_graph_search.Prelude.Keys.{bytes_key}
use cpp_slp_graph_search.Prelude.Map.{Map, find, has_key, assign, insert, find-assign, All-insert}
use cpp_slp_graph_search.Slp.Message.{Hash, SlpTx, Genesis, Mint, invalid, genesis, mint, send}
use cpp_slp_graph_search.Tx.Types.{Outpoint, Transaction, outpoint_key}
use cpp_slp_graph_search.Validator.Check.{output_amount}
use cpp_slp_graph_search.SlpDb.Store.{
  send_token, SlpDb, SlpToken, put_token, tag_utxo, tag_baton, outpoint_at, tag_amounts,
  spends_baton, token_inputs, add_genesis, add_mint_to, add_send_to, add_by_type, add_transaction,
}

abbrev IsTagged : Map Hash SlpToken → Map Outpoint Hash → Type 0
IsTagged tokens tags = All (λ entry. has_key entry.1 tokens ≡ true) tags

-- Every token id that an outpoint is tagged with is the id of a token.
abbrev pub IsTaggedDb : SlpDb → Type 0
IsTaggedDb db = IsTagged db.tokens db.utxo_to_tokenid

has_key-assign :
    (k j : Hash) (x : SlpToken) (tokens : Map Hash SlpToken)
    → has_key j tokens ≡ true
    → has_key j (assign k x tokens) ≡ true
unfolding has_key
has_key-assign k j x tokens h = ground (arith, find-assign k j x tokens)

has_key-assign_self :
    (k : Hash) (x : SlpToken) (tokens : Map Hash SlpToken) → has_key k (assign k x tokens) ≡ true
unfolding has_key
has_key-assign_self k x tokens = ground (arith, find-assign k k x tokens)

assign-IsTagged :
    (k : Hash) (x : SlpToken) (tokens : Map Hash SlpToken) (tags : Map Outpoint Hash)
    → IsTagged tokens tags
    → IsTagged (assign k x tokens) tags
assign-IsTagged k x tokens tags h = All-imp tags (λ entry e. has_key-assign k entry.1 x tokens e) h

pub put_token-IsTaggedDb :
    (k : Hash) (x : SlpToken) (db : SlpDb) → IsTaggedDb db → IsTaggedDb (put_token k x db)
unfolding put_token
put_token-IsTaggedDb k x db h = assign-IsTagged k x db.tokens db.utxo_to_tokenid h

tag_utxo-IsTaggedDb :
    (o : Outpoint) (k : Hash) (db : SlpDb)
    → has_key k db.tokens ≡ true
    → IsTaggedDb db
    → IsTaggedDb (tag_utxo o k db)
unfolding tag_utxo
tag_utxo-IsTaggedDb o k db e h = All-insert _ o k db.utxo_to_tokenid h e

ite-IsTaggedDb :
    (b : Bool) (x y : SlpDb) → IsTaggedDb x → IsTaggedDb y → IsTaggedDb (if b then x else y)
ite-IsTaggedDb true x y h k = h
ite-IsTaggedDb false x y h k = k

-- The tags of a GENESIS or a MINT name the token that was put just before.
two_tags-IsTaggedDb :
    (tx : Transaction) (has : Bool) (vout : ℕ) (o : Outpoint) (k : Hash) (x : SlpToken) (db : SlpDb)
    → IsTaggedDb db
    → IsTaggedDb (tag_baton tx has vout k (tag_utxo o k (put_token k x db)))
unfolding tag_baton tag_utxo put_token
two_tags-IsTaggedDb tx has vout o k x db h =
    let put = put_token-IsTaggedDb k x db h in
    let there = has_key-assign_self k x db.tokens in
    let once = tag_utxo-IsTaggedDb o k (put_token k x db) there put in
    let twice =
      tag_utxo-IsTaggedDb (outpoint_at tx vout) k (tag_utxo o k (put_token k x db)) there once in
    ite-IsTaggedDb (has && ltb vout (length tx.outputs)) _ _ twice once

if_token-IsTaggedDb :
    (found : Option SlpToken) (db : SlpDb) (with_token : SlpToken → SlpDb)
    → IsTaggedDb db
    → ((token : SlpToken) → IsTaggedDb (with_token token))
    → IsTaggedDb (elim found [ none ↦ db | some token ↦ with_token token ])
if_token-IsTaggedDb none db with_token h k = h
if_token-IsTaggedDb (some token) db with_token h k = k token

ite-IsTagged :
    (b : Bool) (tokens : Map Hash SlpToken) (x y : Map Outpoint Hash)
    → IsTagged tokens x
    → IsTagged tokens y
    → IsTagged tokens (if b then x else y)
ite-IsTagged true tokens x y h k = h
ite-IsTagged false tokens x y h k = k

tag_amounts-IsTagged :
    (tx : Transaction) (n i : ℕ) (amounts : List ℕ) (tokens : Map Hash SlpToken)
    (tags : Map Outpoint Hash)
    → has_key tx.slp.tokenid tokens ≡ true
    → IsTagged tokens tags
    → IsTagged tokens (tag_amounts tx n i amounts tags)
unfolding tag_amounts
tag_amounts-IsTagged tx n i [] tokens tags e h = h
tag_amounts-IsTagged tx n i (amount ∷ amounts) tokens tags e h =
    let o = outpoint_at tx (i + 1) in
    let next = insert o tx.slp.tokenid tags in
    ite-IsTagged (ltb i (1 + n)) tokens _ tags
      (tag_amounts-IsTagged tx n (i + 1) amounts tokens next e
        (All-insert _ o tx.slp.tokenid tags h e))
      h

add_send_to-IsTaggedDb :
    (db : SlpDb) (tx : Transaction) (amounts : List ℕ) (token : SlpToken)
    → IsTaggedDb db
    → IsTaggedDb (add_send_to db tx amounts token)
unfolding add_send_to
add_send_to-IsTaggedDb db tx amounts token h =
    let sent = send_token tx amounts token in
    let k = tx.slp.tokenid in
    ite-IsTaggedDb (ltb (token_inputs token.utxos 0 tx.inputs) (output_amount 0 amounts)) db _ h (
      tag_amounts-IsTagged tx (length tx.outputs) 0 amounts (assign k sent db.tokens)
        db.utxo_to_tokenid (has_key-assign_self k sent db.tokens)
        (assign-IsTagged k sent db.tokens db.utxo_to_tokenid h))

add_mint_to-IsTaggedDb :
    (db : SlpDb) (tx : Transaction) (m : Mint) (token : SlpToken)
    → IsTaggedDb db
    → IsTaggedDb (add_mint_to db tx m token)
unfolding add_mint_to
add_mint_to-IsTaggedDb db tx m token h =
    ite-IsTaggedDb (spends_baton token.mint_baton_outpoint tx.inputs) _ db
      (two_tags-IsTaggedDb tx m.has_mint_baton m.mint_baton_vout (outpoint_at tx 1) tx.slp.tokenid _
        db h)
      h

add_genesis-IsTaggedDb :
    (db : SlpDb) (tx : Transaction) (g : Genesis) → IsTaggedDb db → IsTaggedDb (add_genesis db tx g)
unfolding add_genesis
add_genesis-IsTaggedDb db tx g h =
    ite-IsTaggedDb (ltb (length tx.outputs) 2) db _ h
      (two_tags-IsTaggedDb tx g.has_mint_baton g.mint_baton_vout (outpoint_at tx 1) tx.txid _ db h)

add_by_type-IsTaggedDb :
    (db : SlpDb) (tx : Transaction) (msg : SlpTx)
    → IsTaggedDb db
    → IsTaggedDb (add_by_type db tx msg)
unfolding add_by_type
add_by_type-IsTaggedDb db tx invalid h = h
add_by_type-IsTaggedDb db tx (genesis g) h = add_genesis-IsTaggedDb db tx g h
add_by_type-IsTaggedDb db tx (mint m) h =
    if_token-IsTaggedDb (find tx.slp.tokenid db.tokens) db (add_mint_to db tx m) h
      (λ token. add_mint_to-IsTaggedDb db tx m token h)
add_by_type-IsTaggedDb db tx (send amounts) h =
    if_token-IsTaggedDb (find tx.slp.tokenid db.tokens) db (add_send_to db tx amounts) h
      (λ token. add_send_to-IsTaggedDb db tx amounts token h)

-- Adding a transaction keeps every tag the id of a token.
pub add_transaction-IsTaggedDb :
    (db : SlpDb) (tx : Transaction) → IsTaggedDb db → IsTaggedDb (add_transaction db tx)
unfolding add_transaction
add_transaction-IsTaggedDb db tx h = add_by_type-IsTaggedDb db tx tx.slp.slp_tx h
