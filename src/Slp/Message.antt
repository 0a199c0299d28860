-- ===== src/Slp/Message.antt =====
-- The data of include/gs++/slp_transaction.hpp. The program's tag `type` and its variant `slp_tx`
-- are written together everywhere, so the variant alone stands for both.
use cpp_slp_graph_search.Prelude.{ℕ, zero, suc, List, [], ◌∷◌, Bool, true, false}

-- gs::txid, gs::tokenid and gs::blockhash: the bytes of `bhash::v`.
abbrev pub Hash : Type 0
Hash = List ℕ

zeros : ℕ → List ℕ
zeros zero = []
zeros (suc n) = 0 ∷ zeros n

-- `bhash()`
unfoldable pub zero_hash : Hash
unfolding zeros
zero_hash = zeros 32

pub record Genesis : Type 0 where
  pub ticker : List ℕ
  pub name : List ℕ
  pub document_uri : List ℕ
  pub document_hash : List ℕ
  pub decimals : ℕ
  pub has_mint_baton : Bool
  pub mint_baton_vout : ℕ
  pub qty : ℕ

pub record Mint : Type 0 where
  pub has_mint_baton : Bool
  pub mint_baton_vout : ℕ
  pub qty : ℕ

pub data SlpTx : Type 0 where
  invalid : SlpTx
  genesis : Genesis → SlpTx
  mint : Mint → SlpTx
  send : List ℕ → SlpTx

pub record SlpTransaction : Type 0 where
  pub tokenid : Hash
  pub token_type : ℕ
  pub slp_tx : SlpTx

-- `slp.type == slp_transaction_type::invalid`
abbrev pub is_invalid : SlpTx → Bool
is_invalid invalid = true
is_invalid (genesis g) = false
is_invalid (mint m) = false
is_invalid (send a) = false

abbrev pub is_genesis : SlpTx → Bool
is_genesis invalid = false
is_genesis (genesis g) = true
is_genesis (mint m) = false
is_genesis (send a) = false
