-- ===== src/Examples.antt =====
-- Runs of the messages, transactions, blocks and graphs on concrete inputs.
use cpp_slp_graph_search.Block.Codec.{Block}
use cpp_slp_graph_search.Prelude.{
  ℕ, ◌≡◌, inl, refl, List, [], ◌∷◌, ◌++◌, arith, true, false, map, reverse,
}
use cpp_slp_graph_search.Prelude.Keys.{bytes_key}
use cpp_slp_graph_search.Util.Reader.{done}
use cpp_slp_graph_search.Util.VarInt.{
  extract_var_int, num_to_var_int, extract_var_int-num_to_var_int,
}
use cpp_slp_graph_search.Slp.Message.{zero_hash, SlpTransaction, send}
use cpp_slp_graph_search.Slp.Chunks.{scan_chunks, out_of_fuel}
use cpp_slp_graph_search.Slp.Parse
use cpp_slp_graph_search.Slp.Sound.{IsMessage, IsAnswer, hydrate_lem}
use cpp_slp_graph_search.Slp.Script.{script_of}
use cpp_slp_graph_search.Slp.RoundTrip.{hydrated, hydrate-script_of}
use cpp_slp_graph_search.Slp.Termination.{scan_chunks-ne-out_of_fuel}
use cpp_slp_graph_search.Tx.Hydrate
use cpp_slp_graph_search.Tx.Encode.{RawTx, IsRawTx, encode, body_of}
use cpp_slp_graph_search.Tx.Safety.{IsRead, hydrate-IsRead}
use cpp_slp_graph_search.Tx.RoundTrip.{hydrate-encode}
use cpp_slp_graph_search.Block.Codec
use cpp_slp_graph_search.Block.RoundTrip.{IsHeader, tx_of, hydrate-serialize}

abbrev two_amounts : SlpTransaction
two_amounts = record { tokenid = zero_hash; token_type = 1; slp_tx = send (5 ∷ 7 ∷ []) }

two_amounts-IsMessage : IsMessage two_amounts
unfolding zero_hash
two_amounts-IsMessage =
    (inl refl, (refl, (omega arith, omega arith, (omega arith, (omega arith, tt)))))

hydrate-script_of_example :
    Parse.hydrate two_amounts (script_of two_amounts) ≡ (hydrated zero_hash two_amounts, true)
hydrate-script_of_example = hydrate-script_of two_amounts two_amounts two_amounts-IsMessage tt

-- OP_RETURN and a push that is cut off.
abbrev cut_off : List ℕ
cut_off = 0x6A ∷ 4 ∷ 83 ∷ 76 ∷ 80 ∷ 0 ∷ 1 ∷ 1 ∷ 4 ∷ 83 ∷ 69 ∷ []

hydrate_lem_example : IsAnswer (Parse.hydrate two_amounts cut_off)
hydrate_lem_example = hydrate_lem two_amounts cut_off (
  omega arith,
  (
    omega arith,
    (
      omega arith,
      (
        omega arith,
        (
          omega arith,
          (
            omega arith,
            (omega arith, (omega arith, (omega arith, (omega arith, (omega arith, tt))))),
          ),
        ),
      ),
    ),
  ),
)

scan_chunks-ne-out_of_fuel_example : ¬ (scan_chunks cut_off ≡ out_of_fuel)
scan_chunks-ne-out_of_fuel_example = scan_chunks-ne-out_of_fuel cut_off

-- One input and one output.
abbrev raw : RawTx
raw = record {
  version = 1;
  ins =
      record { prevout = record { txid = zero_hash; vout = 3 }; script = 7 ∷ []; sequence = 0 }
      ∷ [];
  outs = record { value = 546; script = 0x6A ∷ [] } ∷ [];
  lock_time = 9;
}

raw-IsRawTx : IsRawTx raw
unfolding zero_hash
raw-IsRawTx = record {
  version = omega arith;
  ins = (
    record { txid = refl; vout = omega arith; script = omega arith; sequence = omega arith },
    tt,
  );
  outs = (record { value = omega arith; script = omega arith }, tt);
  in_count = omega arith;
  out_count = omega arith;
  lock_time = omega arith;
}

hydrate-encode_example :
    Hydrate.hydrate (λ s. reverse s) (encode raw ++ 1 ∷ [])
    ≡ done (Hydrate.finish (λ s. reverse s) (encode raw) (body_of raw))
hydrate-encode_example = hydrate-encode (λ s. reverse s) raw (1 ∷ []) raw-IsRawTx

hydrate-IsRead_example :
    IsRead (λ s. reverse s) (encode raw) (Hydrate.hydrate (λ s. reverse s) (encode raw))
hydrate-IsRead_example = hydrate-IsRead (λ s. reverse s) (encode raw)

abbrev head : Codec.Header
head = record {
  version = 1;
  prev_block = zero_hash;
  merkle_root = zero_hash;
  timestamp = 2;
  bits = 3;
  nonce = 4;
}

head-IsHeader : IsHeader head
unfolding zero_hash
head-IsHeader = record {
  version = omega arith;
  prev_block = refl;
  merkle_root = refl;
  timestamp = omega arith;
  bits = omega arith;
  nonce = omega arith;
}

hydrate-serialize_example :
    Codec.hydrate
      (λ s. reverse s)
      false
      (Codec.serialize
          (record { block_hash = []; header = head; txs = map (tx_of (λ s. reverse s)) (raw ∷ []) })
        ++ [])
    ≡ done (Codec.block_of (λ s. reverse s) head (map (tx_of (λ s. reverse s)) (raw ∷ [])), [])
hydrate-serialize_example =
    hydrate-serialize (λ s. reverse s) [] head (raw ∷ []) [] head-IsHeader (raw-IsRawTx, tt)
      (omega arith)

extract_var_int-num_to_var_int_example :
    extract_var_int (num_to_var_int 70000 ++ 1 ∷ []) ≡ done (70000, 1 ∷ [])
extract_var_int-num_to_var_int_example = extract_var_int-num_to_var_int 70000 (1 ∷ []) (omega arith)
