-- ===== src/Tx/Encode.antt =====
-- The serialization of a transaction by the Bitcoin Cash rules, as an independent description of
-- the bytes that `hydrate` reads.
use cpp_slp_graph_search.Prelude.{ℕ, ◌+◌, ◌^◌, ◌<◌, ◌≡◌, List, [], ◌∷◌, ◌++◌, All, length, map}
use cpp_slp_graph_search.Util.Bytes.{le_bytes}
use cpp_slp_graph_search.Util.VarInt.{num_to_var_int}
use cpp_slp_graph_search.Slp.Message.{zero_hash}
use cpp_slp_graph_search.Tx.Types.{Outpoint, Output}
use cpp_slp_graph_search.Tx.Hydrate.{Body, max_tx_size}

pub record TxIn : Type 0 where
  pub prevout : Outpoint
  pub script : List ℕ
  pub sequence : ℕ

pub record TxOut : Type 0 where
  pub value : ℕ
  pub script : List ℕ

pub record RawTx : Type 0 where
  pub version : ℕ
  pub ins : List TxIn
  pub outs : List TxOut
  pub lock_time : ℕ

unfoldable pub encode_in : TxIn → List ℕ
encode_in i =
    i.prevout.txid
    ++ (le_bytes 4 i.prevout.vout
        ++ (num_to_var_int (length i.script) ++ (i.script ++ le_bytes 4 i.sequence)))

unfoldable pub encode_out : TxOut → List ℕ
encode_out o = le_bytes 8 o.value ++ (num_to_var_int (length o.script) ++ o.script)

unfoldable pub concat_map {ℓ} : {A : Type ℓ} → (A → List ℕ) → List A → List ℕ
concat_map f [] = []
concat_map f (x ∷ xs) = f x ++ concat_map f xs

unfoldable pub encode : RawTx → List ℕ
encode t =
    le_bytes 4 t.version
    ++ (num_to_var_int (length t.ins)
        ++ (concat_map encode_in t.ins
            ++ (num_to_var_int (length t.outs)
                ++ (concat_map encode_out t.outs ++ le_bytes 4 t.lock_time))))

-- The widths of the fields, and the limits of `hydrate`. A value is below 2 ^ 63: a satoshi amount
-- is not negative.
pub record IsTxIn (i : TxIn) : Type 0 where
  pub txid : length i.prevout.txid ≡ 32
  pub vout : i.prevout.vout < 256 ^ 4
  pub script : length i.script < max_tx_size
  pub sequence : i.sequence < 256 ^ 4

pub record IsTxOut (o : TxOut) : Type 0 where
  pub value : o.value < 2 ^ 63
  pub script : length o.script < max_tx_size

pub record IsRawTx (t : RawTx) : Type 0 where
  pub version : t.version < 256 ^ 4
  pub ins : All IsTxIn t.ins
  pub outs : All IsTxOut t.outs
  pub in_count : length t.ins < max_tx_size
  pub out_count : length t.outs < max_tx_size
  pub lock_time : t.lock_time < 256 ^ 4

-- The outputs in their order, numbered from `i` on.
abbrev pub numbered : ℕ → List TxOut → List Output
numbered i [] = []
numbered i (o ∷ outs) =
    record { prev_tx_id = zero_hash; prev_out_idx = i; value = o.value; scriptpubkey = o.script }
    ∷ numbered (i + 1) outs

abbrev pub body_of : RawTx → Body
body_of t = record {
  version = t.version;
  inputs = map (λ i. i.prevout) t.ins;
  outputs = numbered 0 t.outs;
  lock_time = t.lock_time;
}
