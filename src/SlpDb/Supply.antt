-- ===== src/SlpDb/Supply.antt =====
-- The amounts that a token's `utxos` hold, under `slpdb::add_transaction` (include/gs++/slpdb.hpp)
-- and under the removal of spent outpoints by `bch::process_block` (src/bch.cpp).
use cpp_slp_graph_search.Prelude.{
  ℕ, ◌+◌, ◌^◌, ◌≡◌, ◌≤◌, ◌<◌, refl, sym, ap, ◌∙◌, List, [], ◌∷◌, arith, true, false, none, some,
  inl, inr, Option-cases, Bool-cases, All, length, ltb,
}
use cpp_slp_graph_search.Prelude.Keys.{bytes_key}
use cpp_slp_graph_search.Prelude.Map.{
  Map, find, insert, erase, assign, find-insert, find-erase, find-assign,
}
use cpp_slp_graph_search.Prelude.Set.{contains}
use cpp_slp_graph_search.Prelude.Distinct.{nodup}
use cpp_slp_graph_search.Slp.Message.{Hash, send}
use cpp_slp_graph_search.Slp.Sound.{IsAmount}
use cpp_slp_graph_search.Tx.Types.{Outpoint, Transaction, outpoint_key, Outpoint-discrete}
use cpp_slp_graph_search.Validator.Check.{add128, output_amount}
use cpp_slp_graph_search.Validator.Send.{total, total-IsAmount, output_amount_lem}
use cpp_slp_graph_search.SlpDb.Store.{
  SlpOutput, SlpToken, SlpDb, outpoint_at, value_output, add_amounts, token_inputs, spend_utxo,
  send_token, add_send_to, add_by_type, add_transaction, record_tx,
}

-- All tokens in existence, by `utxos`.
unfoldable pub supply : Map Outpoint SlpOutput → ℕ
supply [] = 0
supply ((o, out) ∷ utxos) = out.amount + supply utxos

-- The tokens behind a list of inputs.
unfoldable pub found_at : Map Outpoint SlpOutput → Outpoint → ℕ
found_at utxos o = elim (find o utxos) [ none ↦ 0 | some out ↦ out.amount ]

unfoldable pub found_sum : Map Outpoint SlpOutput → List Outpoint → ℕ
found_sum utxos [] = 0
found_sum utxos (o ∷ os) = found_at utxos o + found_sum utxos os

-- The loop over the inputs, for one token.
unfoldable pub spend_utxos : List Outpoint → SlpToken → SlpToken
spend_utxos [] token = token
spend_utxos (o ∷ os) token = spend_utxos os (spend_utxo o token)

supply-insert :
    (o : Outpoint) (out : SlpOutput) (m : Map Outpoint SlpOutput)
    → supply (insert o out m) ≤ supply m + out.amount
unfolding insert supply
supply-insert o out m = ground arith

supply-erase_le : (o : Outpoint) (m : Map Outpoint SlpOutput) → supply (erase o m) ≤ supply m
unfolding erase supply
supply-erase_le o [] = omega arith
supply-erase_le o ((i, out) ∷ m) = ground (arith, supply-erase_le o m)

supply-erase :
    (o : Outpoint) (m : Map Outpoint SlpOutput) → supply (erase o m) + found_at m o ≤ supply m
unfolding erase supply found_at find
supply-erase o [] = omega arith
supply-erase o ((i, out) ∷ m) = ground (arith, supply-erase o m, supply-erase_le o m)

found_at-erase :
    (o i : Outpoint) (m : Map Outpoint SlpOutput)
    → ¬ (o ≡ i)
    → found_at (erase o m) i ≡ found_at m i
unfolding found_at
found_at-erase o i m other = ground (arith, find-erase o i m)

found_sum-erase :
    (o : Outpoint) (m : Map Outpoint SlpOutput) (os : List Outpoint)
    → contains o os ≡ false
    → found_sum (erase o m) os ≡ found_sum m os
unfolding found_sum contains
found_sum-erase o m [] h = refl
found_sum-erase o m (i ∷ os) h = elim (Outpoint-discrete i o) [
  | yes same ↦ absurd (ground arith)
  | no other ↦
      omega
        (arith, found_at-erase o i m (λ e. other (sym e)), found_sum-erase o m os (ground arith))
]

-- One removal, seen from `utxos`.
spend_utxo_lem :
    (o : Outpoint) (token : SlpToken) (os : List Outpoint)
    → contains o os ≡ false
    → (supply (spend_utxo o token).utxos + found_at token.utxos o ≤ supply token.utxos)
      × (found_sum (spend_utxo o token).utxos os ≡ found_sum token.utxos os)
unfolding spend_utxo found_at
spend_utxo_lem o token os h = elim (Option-cases (find o token.utxos)) [
  | inl absent ↦
      let same : spend_utxo o token ≡ token = rw (absent, spend_utxo) refl in
      let nothing : found_at token.utxos o ≡ 0 = rw (absent, found_at) refl in
      (omega (arith, nothing, ap (λ t. supply t.utxos) same), ap (λ t. found_sum t.utxos os) same)
  | inr (out, there) ↦
      let erased : (spend_utxo o token).utxos ≡ erase o token.utxos = rw (there, spend_utxo) refl in
      (
        omega (arith, supply-erase o token.utxos, ap supply erased),
        ap (λ m. found_sum m os) erased ∙ found_sum-erase o token.utxos os h,
      )
]

supply-spend_utxos :
    (os : List Outpoint) (token : SlpToken)
    → nodup os ≡ true
    → supply (spend_utxos os token).utxos + found_sum token.utxos os ≤ supply token.utxos
unfolding spend_utxos found_sum nodup
supply-spend_utxos [] token h = omega arith
supply-spend_utxos (o ∷ os) token h =
    let (one, rest) = spend_utxo_lem o token os (ground arith) in
    omega (arith, one, rest, supply-spend_utxos os (spend_utxo o token) (ground arith))

found_at-insert :
    (o i : Outpoint) (out : SlpOutput) (m : Map Outpoint SlpOutput)
    → found_at m i ≤ found_at (insert o out m) i
unfolding found_at
found_at-insert o i out m = ground (arith, find-insert o i out m)

found_sum-insert :
    (o : Outpoint) (out : SlpOutput) (m : Map Outpoint SlpOutput) (os : List Outpoint)
    → found_sum m os ≤ found_sum (insert o out m) os
unfolding found_sum
found_sum-insert o out m [] = omega arith
found_sum-insert o out m (i ∷ os) =
    omega (arith, found_sum-insert o out m os, found_at-insert o i out m)

-- The loop over the amounts adds no more than their sum, and keeps what was there.
add_amounts_lem :
    (tx : Transaction) (n i : ℕ) (amounts : List ℕ) (m : Map Outpoint SlpOutput)
    (os : List Outpoint)
    → (supply (add_amounts tx n i amounts m) ≤ supply m + total amounts)
      × (found_sum m os ≤ found_sum (add_amounts tx n i amounts m) os)
unfolding add_amounts total
add_amounts_lem tx n i [] m os = (omega arith, omega arith)
add_amounts_lem tx n i (amount ∷ amounts) m os = elim (Bool-cases (ltb i (1 + n))) [
  | inr past ↦ rw past (omega arith, omega arith)
  | inl inside ↦
      let o = outpoint_at tx (i + 1) in
      let out = value_output o amount in
      let (sum, kept) = add_amounts_lem tx n (i + 1) amounts (insert o out m) os in
      rw inside (
        omega (arith, sum, supply-insert o out m),
        omega (arith, kept, found_sum-insert o out m os),
      )
]

add128-le : (a b : ℕ) → add128 a b ≤ a + b
unfolding add128
add128-le a b = omega arith

token_inputs-none :
    (m : Map Outpoint SlpOutput) (sum : ℕ) (o : Outpoint) (os : List Outpoint)
    → find o m ≡ none
    → (token_inputs m sum (o ∷ os) ≡ token_inputs m sum os) × (found_at m o ≡ 0)
unfolding token_inputs found_at
token_inputs-none m sum o os e = (rw (e, token_inputs) refl, rw (e, found_at) refl)

token_inputs-some :
    (m : Map Outpoint SlpOutput) (sum : ℕ) (o : Outpoint) (os : List Outpoint) {out : SlpOutput}
    → find o m ≡ some out
    → (token_inputs m sum (o ∷ os) ≡ token_inputs m (add128 sum out.amount) os)
      × (found_at m o ≡ out.amount)
unfolding token_inputs found_at
token_inputs-some m sum o os e = (rw (e, token_inputs) refl, rw (e, found_at) refl)

-- The 128-bit sum of the inputs is at most their sum.
token_inputs-le :
    (m : Map Outpoint SlpOutput) (sum : ℕ) (os : List Outpoint)
    → token_inputs m sum os ≤ sum + found_sum m os
unfolding found_sum
token_inputs-le m sum [] = no_more
  where
    no_more : token_inputs m sum [] ≤ sum + 0
    no_more = unfold token_inputs in omega arith
token_inputs-le m sum (o ∷ os) = elim (Option-cases (find o m)) [
  | inl absent ↦ omega (arith, token_inputs-none m sum o os absent, token_inputs-le m sum os)
  | inr (out, there) ↦ omega (
    arith,
    token_inputs-some m sum o os there,
    token_inputs-le m (add128 sum out.amount) os,
    add128-le sum out.amount,
  )
]

pub add_transaction-send :
    (db : SlpDb) (tx : Transaction) (amounts : List ℕ) (token : SlpToken)
    → tx.slp.slp_tx ≡ send amounts
    → find tx.slp.tokenid db.tokens ≡ some token
    → add_transaction db tx ≡ add_send_to db tx amounts token
unfolding add_transaction add_by_type
add_transaction-send db tx amounts token e found =
    ap (add_by_type db tx) e ∙ (rw (found, add_by_type) refl)

pub find_assigned :
    (k : Hash) (token : SlpToken) (m : Map Hash SlpToken) → find k (assign k token m) ≡ some token
find_assigned k token m = ground (arith, find-assign k k token m)

-- When a SEND of amounts of 64 bits enters the database and its inputs, each named once, are then
-- removed, the tokens in existence do not become more. This holds whether the SEND is accepted or
-- refused.
pub supply-add_transaction :
    (db : SlpDb) (tx : Transaction) (amounts : List ℕ) (token : SlpToken)
    → tx.slp.slp_tx ≡ send amounts
    → find tx.slp.tokenid db.tokens ≡ some token
    → All IsAmount amounts
    → length amounts < 2 ^ 32
    → nodup tx.inputs ≡ true
    → (token' : SlpToken) × (find tx.slp.tokenid (add_transaction db tx).tokens ≡ some token')
      × (supply (spend_utxos tx.inputs token').utxos ≤ supply token.utxos)
unfolding add_send_to send_token record_tx
supply-add_transaction db tx amounts token e found bounded few distinct =
    let step = add_transaction-send db tx amounts token e found in
    elim (Bool-cases (ltb (token_inputs token.utxos 0 tx.inputs) (output_amount 0 amounts))) [
      | inl refused ↦ (
        token,
        ap (λ d. find tx.slp.tokenid d.tokens) step ∙ rw refused found,
        omega (arith, supply-spend_utxos tx.inputs token distinct),
      )
      | inr accepted ↦
          let sent = send_token tx amounts token in
          let (grown, kept) =
            add_amounts_lem tx (length tx.outputs) 0 amounts token.utxos tx.inputs in
          let out =
            output_amount_lem 0 amounts (omega (arith, total-IsAmount amounts bounded, few)) in
          let covered : output_amount 0 amounts ≤ token_inputs token.utxos 0 tx.inputs =
            ground arith in
          (
            sent,
            ap (λ d. find tx.slp.tokenid d.tokens) step
                ∙ rw accepted (find_assigned tx.slp.tokenid sent db.tokens),
            omega (
              arith,
              supply-spend_utxos tx.inputs sent distinct,
              out,
              covered,
              token_inputs-le token.utxos 0 tx.inputs,
              grown,
              kept,
            ),
          )
    ]
