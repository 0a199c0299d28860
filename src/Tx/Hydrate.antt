-- ===== src/Tx/Hydrate.antt =====
-- `transaction::hydrate` of include/gs++/transaction.hpp. A failed parse returns false; the object
-- is then discarded by every caller, so no state is kept for it. `sha256` is the third-party hash.
use cpp_slp_graph_search.Prelude.{
  ℕ, zero, suc, ◌+◌, ◌-◌, ◌^◌, List, [], ◌∷◌, ltb, if◌then◌else◌, length, take, map,
}
use cpp_slp_graph_search.Util.Reader.{
  Outcome, done, refused, fault, Reader, pure, ◌>>=◌, ◌>>◌, check_end, guard, take_bytes,
  extract_u32, extract_u64,
}
use cpp_slp_graph_search.Util.VarInt.{var_int_additional_size, extract_var_int}
use cpp_slp_graph_search.Slp.Message.{SlpTransaction, invalid, is_genesis, zero_hash}
use cpp_slp_graph_search.Slp.Parse.{from_scriptpubkey}
use cpp_slp_graph_search.Tx.Types.{Outpoint, Output, Transaction, is_op_return}

abbrev pub max_tx_size : ℕ
max_tx_size = 1000000

-- CHECK_END(1 + size), the number itself, and the limit that follows it everywhere.
unfoldable pub read_count : Reader ℕ
read_count = do
  size ← var_int_additional_size
  check_end (1 + size)
  n ← extract_var_int
  guard (ltb n max_tx_size)
  pure n

unfoldable pub read_input : Reader Outpoint
read_input = do
  check_end 32
  prev_tx_id ← take_bytes 32
  check_end 4
  prev_out_idx ← extract_u32
  script_len ← read_count
  check_end script_len
  sigscript ← take_bytes script_len
  check_end 4
  sequence ← extract_u32
  pure (record { txid = prev_tx_id; vout = prev_out_idx })

-- `std::abs` of the 64 bits as a signed number. At the least number, where `abs` is undefined, the
-- model has 2 ^ 63.
unfoldable pub abs64 : ℕ → ℕ
abs64 n = if ltb n (2 ^ 63) then n else 2 ^ 64 - n

-- The id of the transaction is not known yet.
unfoldable pub read_output : ℕ → Reader Output
read_output out_i = do
  check_end 8
  value ← extract_u64
  script_len ← read_count
  check_end script_len
  scriptpubkey ← take_bytes script_len
  pure (record {
    prev_tx_id = zero_hash;
    prev_out_idx = out_i;
    value = abs64 value;
    scriptpubkey = scriptpubkey;
  })

-- `for (i = from; i < from + n; ++i)`
unfoldable pub read_list {ℓ} : {A : Type ℓ} → (ℕ → Reader A) → ℕ → ℕ → Reader (List A)
read_list item zero i = pure []
read_list item (suc n) i = do a ← item i; rest ← read_list item n (i + 1); pure (a ∷ rest)

pub record Body : Type 0 where
  pub version : ℕ
  pub inputs : List Outpoint
  pub outputs : List Output
  pub lock_time : ℕ

unfoldable pub read_body : Reader Body
read_body = do
  check_end 4
  version ← extract_u32
  in_count ← read_count
  inputs ← read_list (λ i. read_input) in_count 0
  out_count ← read_count
  outputs ← read_list read_output out_count 0
  check_end (4 - 1)
  lock_time ← extract_u32
  pure (record { version = version; inputs = inputs; outputs = outputs; lock_time = lock_time })

unfoldable pub no_slp : SlpTransaction
no_slp = record { tokenid = zero_hash; token_type = 0; slp_tx = invalid }

unfoldable pub name_genesis : List ℕ → SlpTransaction → SlpTransaction
name_genesis txid slp = if is_genesis slp.slp_tx then record slp { tokenid = txid } else slp

-- The message of the first output, if that is an OP_RETURN.
unfoldable pub slp_of : List ℕ → List Output → SlpTransaction
unfolding no_slp name_genesis is_op_return from_scriptpubkey
slp_of txid [] = no_slp
slp_of txid (o ∷ outputs) =
    if is_op_return o then name_genesis txid (from_scriptpubkey o.scriptpubkey) else no_slp

unfoldable pub set_prev_tx_id : List ℕ → Output → Output
set_prev_tx_id txid o = record o { prev_tx_id = txid }

module _ (sha256 : List ℕ → List ℕ) where
  -- What follows the reads: the bytes that were read, their hash and the SLP message.
  unfoldable pub finish : List ℕ → Body → Transaction
  unfolding slp_of set_prev_tx_id
  finish serialized b =
      let txid = sha256 (sha256 serialized) in
      let outputs = map (set_prev_tx_id txid) b.outputs in
      record {
        txid = txid;
        version = b.version;
        lock_time = b.lock_time;
        inputs = b.inputs;
        outputs = outputs;
        slp = slp_of txid outputs;
        serialized = serialized;
      }

  unfoldable pub hydrated : List ℕ → Outcome (Body × List ℕ) → Outcome Transaction
  unfolding finish
  hydrated s (done (b, rest)) = done (finish (take (length s - length rest) s) b)
  hydrated s refused = refused
  hydrated s fault = fault

  unfoldable pub hydrate : List ℕ → Outcome Transaction
  unfolding hydrated
  hydrate s = hydrated s (read_body s)
