-- ===== src/Server/Tokens.antt =====
-- `SlpOutpoints`, `SlpTokenBalance` and `SlpAllTokenBalances` of server/gs++.cpp. `from_cashaddr` is
-- an argument here, with its scripts; Script models it.
pub mod Balances
pub mod Sums
pub mod Listed
pub mod Replies
pub mod Examples
use cpp_slp_graph_search.Prelude.{
  ℕ, ◌%◌, ◌^◌, List, [], ◌∷◌, ◌++◌, Option, none, some, Bool, true, false, not, ◌==◌, if◌then◌else◌,
  map, reverse,
}
use cpp_slp_graph_search.Prelude.Keys.{bytes_key}
use cpp_slp_graph_search.Prelude.Map.{Map, find, assign}
use cpp_slp_graph_search.Slp.Message.{Hash, SlpTx, Genesis, invalid, genesis, mint, send}
use cpp_slp_graph_search.Util.Bytes.{le_bytes}
use cpp_slp_graph_search.Util.Hex.{Text, hex, unhex}
use cpp_slp_graph_search.Tx.Types.{Transaction, Output}
use cpp_slp_graph_search.Tx.Outputs.{output_slp_amount, mint_baton_outpoint}
use cpp_slp_graph_search.UtxoDb.Store.{UtxoDb, add64, get_outputs_by_scriptpubkey}
use cpp_slp_graph_search.Validator.State.{Validator, has, has_valid, get}
use cpp_slp_graph_search.Validator.Check.{same_hash}
use cpp_slp_graph_search.Server.Search.{txid_regex, txid_of}

-- The status OK with a reply; INVALID_ARGUMENT; an exception of `at` or of `absl::get`.
pub data TokenAnswer (A : Type 0) : Type 0 where
  answered : A → TokenAnswer A
  invalid_argument raised : TokenAnswer A

abbrev pub answer_or_raise : {A : Type 0} → Option A → TokenAnswer A
answer_or_raise none = raised
answer_or_raise (some a) = answered a

-- `decompress(true)`
unfoldable pub decompress : Hash → Text
decompress v = hex (reverse v)

-- `absl::get<gs::slp_transaction_genesis>`
unfoldable pub genesis_of : SlpTx → Option Genesis
genesis_of invalid = none
genesis_of (genesis g) = some g
genesis_of (mint m) = none
genesis_of (send amounts) = none

-- `validator.get` of the token's first transaction, with its GENESIS.
unfoldable with_genesis : Option Transaction → Option (Transaction × Genesis)
unfolding genesis_of
with_genesis none = none
with_genesis (some tx) = elim (genesis_of tx.slp.slp_tx) [ none ↦ none | some g ↦ some (tx, g) ]

unfoldable pub token_genesis : Validator → Hash → Option (Transaction × Genesis)
unfolding with_genesis get
token_genesis v tokenid = with_genesis (get v tokenid)

pub record TokenBalance : Type 0 where
  pub value : ℕ
  pub decimals : ℕ
  pub ticker : List ℕ
  pub name : List ℕ
  pub tokenid : Text
  pub type : ℕ

unfoldable pub balance_of : ℕ → Transaction × Genesis → TokenBalance
unfolding decompress
balance_of value (tx, g) = record {
  value = value;
  decimals = g.decimals;
  ticker = g.ticker;
  name = g.name;
  tokenid = decompress tx.txid;
  type = tx.slp.token_type;
}

-- The loop of `SlpTokenBalance`; `none` is the exception of `at`.
unfoldable pub token_sum : Validator → Hash → ℕ → List Output → Option ℕ
unfolding get output_slp_amount add64
token_sum v tokenid balance [] = some balance
token_sum v tokenid balance (utxo ∷ utxos) = elim (get v utxo.prev_tx_id) [
  | none ↦ none
  | some tx ↦
      token_sum v tokenid
        (if same_hash tx.slp.tokenid tokenid
          then add64 balance (output_slp_amount tx utxo.prev_out_idx)
          else balance)
        utxos
]

-- The fields that are not set are 0 or empty.
unfoldable bare_balance : Text → TokenBalance
bare_balance text = record {
  value = 0;
  decimals = 0;
  ticker = [];
  name = [];
  tokenid = text;
  type = 0;
}

unfoldable balance_reply : Validator → Hash → Text → Option ℕ → Option TokenBalance
unfolding bare_balance balance_of token_genesis
balance_reply v tokenid text none = none
balance_reply v tokenid text (some balance) =
    if balance == 0
    then some (bare_balance text)
    else elim (token_genesis v tokenid) [ none ↦ none | some g ↦ some (balance_of balance g) ]

abbrev pub value_of : Option ℕ → ℕ
value_of none = 0
value_of (some n) = n

-- The entry of the map, 0 where there is none.
unfoldable pub value_at : Hash → Map Hash ℕ → ℕ
value_at tokenid balances = value_of (find tokenid balances)

-- The first loop of `SlpAllTokenBalances`.
unfoldable pub all_sums : Validator → Map Hash ℕ → List Output → Option (Map Hash ℕ)
unfolding get output_slp_amount add64 value_at
all_sums v balances [] = some balances
all_sums v balances (utxo ∷ utxos) = elim (get v utxo.prev_tx_id) [
  | none ↦ none
  | some tx ↦
      let tokenid = tx.slp.tokenid in
      all_sums v
        (assign tokenid (add64 (value_at tokenid balances) (output_slp_amount tx utxo.prev_out_idx))
          balances)
        utxos
]

-- The second loop, over the entries in the order in which the hash map lists them.
unfoldable pub balance_list : Validator → Map Hash ℕ → Option (List TokenBalance)
unfolding balance_of token_genesis
balance_list v [] = some []
balance_list v ((tokenid, balance) ∷ balances) =
    let rest = balance_list v balances in
    elim (token_genesis v tokenid) [
      | none ↦ none
      | some g ↦ elim rest [ none ↦ none | some list ↦ some (balance_of balance g ∷ list) ]
    ]

unfoldable list_reply :
    (Map Hash ℕ → Map Hash ℕ) → Validator → Option (Map Hash ℕ) → Option (List TokenBalance)
unfolding balance_list
list_reply order v none = none
list_reply order v (some balances) = balance_list v (order balances)

abbrev pub outputs_limit : ℕ
outputs_limit = 100000

outpoint_text : (ℕ → Text) → Output → Text
unfolding decompress
outpoint_text to_string utxo = decompress utxo.prev_tx_id ++ (b':' ∷ to_string utxo.prev_out_idx)

-- `from_cashaddr` gives no bytes for a text that is no address.
module _ (from_cashaddr : Text → List ℕ) where
  -- `to_string` is `std::to_string`.
  unfoldable pub slp_outpoints : (ℕ → Text) → UtxoDb → Text → TokenAnswer (List Text)
  unfolding outpoint_text get_outputs_by_scriptpubkey
  slp_outpoints to_string u cashaddr = elim (from_cashaddr cashaddr) [
    | [] ↦ invalid_argument
    | b ∷ script ↦
        answered
          (map (outpoint_text to_string) (get_outputs_by_scriptpubkey u (b ∷ script) outputs_limit))
  ]

  unfoldable pub slp_token_balance : Validator → UtxoDb → Text → Text → TokenAnswer TokenBalance
  unfolding txid_regex unhex token_sum balance_reply get_outputs_by_scriptpubkey
  slp_token_balance v u cashaddr text = elim (from_cashaddr cashaddr) [
    | [] ↦ invalid_argument
    | b ∷ script ↦
        let tokenid = reverse (unhex text) in
        let utxos = get_outputs_by_scriptpubkey u (b ∷ script) outputs_limit in
        if txid_regex text
        then answer_or_raise (balance_reply v tokenid text (token_sum v tokenid 0 utxos))
        else invalid_argument
  ]

  -- `order` is the order in which a hash map lists its entries.
  unfoldable pub slp_all_token_balances :
      (Map Hash ℕ → Map Hash ℕ) → Validator → UtxoDb → Text → TokenAnswer (List TokenBalance)
  unfolding all_sums list_reply get_outputs_by_scriptpubkey
  slp_all_token_balances order v u cashaddr = elim (from_cashaddr cashaddr) [
    | [] ↦ invalid_argument
    | b ∷ script ↦ answer_or_raise (
        list_reply order v
          (all_sums v [] (get_outputs_by_scriptpubkey u (b ∷ script) outputs_limit)))
  ]
