-- ===== src/Bch/Supply.antt =====
-- `slpdb::add_transaction` (include/gs++/slpdb.hpp) and then the loop of `bch::process_block`
-- (src/bch.cpp) over the inputs, which finds a token by the tag of the outpoint.
use cpp_slp_graph_search.Prelude.{
  subst, ℕ, ◌+◌, ◌^◌, ◌<◌, ◌≤◌, ◌≡◌, ◌⊎◌, inl, inr, sym, ap, ◌∙◌, List, [], ◌∷◌, arith, true, none,
  some, All, length, ltb, Option-cases, Bool-cases,
}
use cpp_slp_graph_search.Prelude.Keys.{bytes_key}
use cpp_slp_graph_search.Prelude.Map.{Map, find, insert, assign, find-insert}
use cpp_slp_graph_search.Prelude.Distinct.{nodup}
use cpp_slp_graph_search.Slp.Message.{Hash, send}
use cpp_slp_graph_search.Slp.Sound.{IsAmount}
use cpp_slp_graph_search.Tx.Types.{Outpoint, Transaction, outpoint_key, Outpoint-discrete}
use cpp_slp_graph_search.SlpDb.Store.{
  token_inputs, SlpOutput, SlpToken, SlpDb, outpoint_at, value_output, add_amounts, tag_amounts,
  send_token, add_send_to, add_transaction, record_tx,
}
use cpp_slp_graph_search.SlpDb.Tagged.{IsTaggedDb, add_transaction-IsTaggedDb}
use cpp_slp_graph_search.SlpDb.Supply.{
  supply, spend_utxos, find_assigned, add_transaction-send, supply-add_transaction,
}
use cpp_slp_graph_search.Validator.Check.{output_amount}
use cpp_slp_graph_search.Bch.Runs.{ran}
use cpp_slp_graph_search.Bch.Process.{spend_slp_inputs}
use cpp_slp_graph_search.Bch.Removed.{AreTagged, spend_slp_inputs-Removed}

-- The outpoints of a transaction have no tag, or the one of its token.
abbrev Untagged : Transaction → Map Outpoint Hash → Type 0
Untagged tx tags =
    (vout : ℕ)
    → (find (outpoint_at tx vout) tags ≡ none)
      ⊎ (find (outpoint_at tx vout) tags ≡ some tx.slp.tokenid)

insert-AreTagged :
    (o : Outpoint) (out : SlpOutput) (tokenid : Hash) (utxos : Map Outpoint SlpOutput)
    (tags : Map Outpoint Hash)
    → (find o tags ≡ none) ⊎ (find o tags ≡ some tokenid)
    → AreTagged tokenid utxos tags
    → AreTagged tokenid (insert o out utxos) (insert o tokenid tags)
insert-AreTagged o out tokenid utxos tags free held j x e = elim (Option-cases (find j utxos)) [
  | inr (y, there) ↦ ground (arith, held j y there, find-insert o j tokenid tags)
  | inl absent ↦ elim (Outpoint-discrete o j) [
    | no other ↦ absurd (ground (arith, absent, find-insert o j out utxos, e))
    | yes same ↦
        let tag_here = λ (h : find o (insert o tokenid tags) ≡ some tokenid).
          ap (λ q. find q (insert o tokenid tags)) (sym same) ∙ h in
        elim free [
          | inl bare ↦ tag_here (ground (arith, bare, find-insert o o tokenid tags))
          | inr own ↦ tag_here (ground (arith, own, find-insert o o tokenid tags))
        ]
  ]
]

insert-Untagged :
    (tx : Transaction) (vout : ℕ) (tags : Map Outpoint Hash)
    → Untagged tx tags
    → Untagged tx (insert (outpoint_at tx vout) tx.slp.tokenid tags)
insert-Untagged tx vout tags free i =
    let o = outpoint_at tx vout in
    let after = find-insert o (outpoint_at tx i) tx.slp.tokenid tags in
    elim (free i) [
      | inr own ↦ inr (ground (arith, own, after))
      | inl bare ↦ elim (Outpoint-discrete o (outpoint_at tx i)) [
        | yes same ↦ inr (ground (arith, bare, after))
        | no other ↦ inl (ground (arith, bare, after))
      ]
    ]

add_amounts-AreTagged :
    (tx : Transaction) (n i : ℕ) (amounts : List ℕ) (utxos : Map Outpoint SlpOutput)
    (tags : Map Outpoint Hash)
    → Untagged tx tags
    → AreTagged tx.slp.tokenid utxos tags
    → AreTagged tx.slp.tokenid (add_amounts tx n i amounts utxos) (tag_amounts tx n i amounts tags)
unfolding add_amounts tag_amounts
add_amounts-AreTagged tx n i [] utxos tags free held = held
add_amounts-AreTagged tx n i (amount ∷ amounts) utxos tags free held =
    elim (Bool-cases (ltb i (1 + n))) [
      | inr past ↦ rw past held
      | inl inside ↦
          let o = outpoint_at tx (i + 1) in
          rw inside (
            add_amounts-AreTagged tx n (i + 1) amounts (insert o (value_output o amount) utxos)
              (insert o tx.slp.tokenid tags) (insert-Untagged tx (i + 1) tags free)
              (insert-AreTagged o (value_output o amount) tx.slp.tokenid utxos tags (free (i + 1))
                held))
    ]

-- Each outpoint that the token of this id holds in a database is tagged with the id.
abbrev HasTags : Hash → SlpDb → Type 0
HasTags k db =
    (token : SlpToken) → find k db.tokens ≡ some token → AreTagged k token.utxos db.utxo_to_tokenid

found-HasTags :
    (k : Hash) (db : SlpDb) (token : SlpToken)
    → find k db.tokens ≡ some token
    → AreTagged k token.utxos db.utxo_to_tokenid
    → HasTags k db
found-HasTags k db token found held other e =
    let same : token ≡ other = ground (arith, found, e) in
    subst (λ t. AreTagged k t.utxos db.utxo_to_tokenid) same held

-- A SEND keeps the tags of its token, accepted or refused.
add_transaction-HasTags :
    (db : SlpDb) (tx : Transaction) (amounts : List ℕ) (token : SlpToken)
    → tx.slp.slp_tx ≡ send amounts
    → find tx.slp.tokenid db.tokens ≡ some token
    → Untagged tx db.utxo_to_tokenid
    → AreTagged tx.slp.tokenid token.utxos db.utxo_to_tokenid
    → HasTags tx.slp.tokenid (add_transaction db tx)
unfolding add_send_to send_token record_tx
add_transaction-HasTags db tx amounts token e found free held =
    let k = tx.slp.tokenid in
    let n = length tx.outputs in
    let sent = send_token tx amounts token in
    subst (HasTags k) (sym (add_transaction-send db tx amounts token e found))
      (elim (Bool-cases (ltb (token_inputs token.utxos 0 tx.inputs) (output_amount 0 amounts))) [
        | inl refused ↦ rw refused (found-HasTags k db token found held)
        | inr accepted ↦ rw accepted (
            found-HasTags k
              (record {
                tokens = assign k sent db.tokens;
                utxo_to_tokenid = tag_amounts tx n 0 amounts db.utxo_to_tokenid;
              })
              sent (find_assigned k sent db.tokens)
              (add_amounts-AreTagged tx n 0 amounts token.utxos db.utxo_to_tokenid free held))
      ])

-- Let the token of a SEND be in the database, let every outpoint that the token holds have its tag and
-- every tag be the id of a token, and let the SEND's outpoints have no tag. When a SEND of fewer than
-- 2 ^ 32 amounts of 64 bits enters the database, and `process_block` then takes the inputs, each named
-- once, out of it by their tags, no assertion fails, and the amounts that the token's outputs hold do
-- not become more. This holds whether the SEND is accepted or refused.
pub supply-spend_slp_inputs :
    (db : SlpDb) (tx : Transaction) (amounts : List ℕ) (token : SlpToken)
    → tx.slp.slp_tx ≡ send amounts
    → find tx.slp.tokenid db.tokens ≡ some token
    → All IsAmount amounts
    → length amounts < 2 ^ 32
    → nodup tx.inputs ≡ true
    → IsTaggedDb db
    → AreTagged tx.slp.tokenid token.utxos db.utxo_to_tokenid
    → ((vout : ℕ) → find (outpoint_at tx vout) db.utxo_to_tokenid ≡ none)
    → (db' : SlpDb) × (token' : SlpToken) × (spend_slp_inputs tx.inputs (add_transaction db tx)
        ≡ ran db')
      × (find tx.slp.tokenid db'.tokens ≡ some token')
      × (supply token'.utxos ≤ supply token.utxos)
supply-spend_slp_inputs db tx amounts token e found bounded few distinct tagged held free =
    let (added, now, less) =
      supply-add_transaction db tx amounts token e found bounded few distinct in
    let still =
      add_transaction-HasTags db tx amounts token e found (λ vout. inl (free vout)) held added
        now in
    let (db', done, left) =
      spend_slp_inputs-Removed tx.inputs (add_transaction db tx) tx.slp.tokenid added
        (add_transaction-IsTaggedDb db tx tagged) now still in
    (db', spend_utxos tx.inputs added, done, left, less)
