-- ===== src/Tx/Types.antt =====
-- `outpoint`, `output` (include/gs++/output.hpp) and `transaction` (include/gs++/transaction.hpp).
use cpp_slp_graph_search.Prelude.{ℕ, List, [], ◌∷◌, Bool, false, ◌==◌, ℕ_discrete}
use cpp_slp_graph_search.Prelude.Keys.{Key}
use cpp_slp_graph_search.Slp.Message.{Hash, SlpTransaction}

pub record Outpoint : Type 0 where
  pub txid : Hash
  pub vout : ℕ

unfoldable pub Outpoint-discrete : Discrete Outpoint
unfolding ℕ_discrete
Outpoint-discrete = hlevel ℕ_discrete

instance abbrev pub outpoint_key : Key Outpoint
outpoint_key = record { dec = Outpoint-discrete }

pub record Output : Type 0 where
  pub prev_tx_id : Hash
  pub prev_out_idx : ℕ
  pub value : ℕ
  pub scriptpubkey : List ℕ

starts_with_return : List ℕ → Bool
starts_with_return [] = false
starts_with_return (b ∷ v) = b == 0x6a

unfoldable pub is_op_return : Output → Bool
unfolding starts_with_return
is_op_return o = starts_with_return o.scriptpubkey

-- `gs::outpoint(m.prev_tx_id, m.prev_out_idx)`, which is also what `output::operator==` compares.
abbrev pub outpoint_of : Output → Outpoint
outpoint_of o = record { txid = o.prev_tx_id; vout = o.prev_out_idx }

pub record Transaction : Type 0 where
  pub txid : Hash
  pub version : ℕ
  pub lock_time : ℕ
  pub inputs : List Outpoint
  pub outputs : List Output
  pub slp : SlpTransaction
  pub serialized : List ℕ
