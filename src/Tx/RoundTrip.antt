-- ===== src/Tx/RoundTrip.antt =====
-- `hydrate` on the serialization of a transaction.
use cpp_slp_graph_search.Prelude.{
  take-append, ltb, ◌-◌, ℕ, ◌+◌, ◌^◌, ◌≤◌, ◌<◌, ◌≡◌, refl, ap, List, [], ◌∷◌, ◌++◌, arith, All,
  length, length-append, map,
}
use mathlib.Core.List.{append_assoc}
use cpp_slp_graph_search.Util.Bytes.{le_bytes, length-le_bytes}
use cpp_slp_graph_search.Util.Reader.{done, extract_u32, extract_u64}
use cpp_slp_graph_search.Util.ReaderLaws.{check_end-lt, guard-true, take_bytes-append}
use cpp_slp_graph_search.Util.VarInt.{
  num_to_var_int, extract-le_bytes, extract_var_int-num_to_var_int,
  var_int_additional_size-num_to_var_int, length-num_to_var_int,
}
use cpp_slp_graph_search.Slp.Message.{zero_hash}
use cpp_slp_graph_search.Tx.Hydrate.{
  finish, hydrated, hydrate, read_count, read_input, read_output, read_list, read_body, abs64,
  max_tx_size,
}
use cpp_slp_graph_search.Tx.Encode.{
  TxIn, TxOut, RawTx, encode_in, encode_out, encode, concat_map, IsTxIn, IsTxOut, IsRawTx, numbered,
  body_of,
}

pub extract_u32-le_bytes :
    (n : ℕ) (r : List ℕ) → n < 256 ^ 4 → extract_u32 (le_bytes 4 n ++ r) ≡ done (n, r)
unfolding extract_u32
extract_u32-le_bytes = extract-le_bytes 4

extract_u64-le_bytes :
    (n : ℕ) (r : List ℕ) → n < 256 ^ 8 → extract_u64 (le_bytes 8 n ++ r) ≡ done (n, r)
unfolding extract_u64
extract_u64-le_bytes = extract-le_bytes 8

read_count-num_to_var_int :
    (n : ℕ) (r : List ℕ)
    → n < max_tx_size
    → 1 ≤ length r
    → read_count (num_to_var_int n ++ r) ≡ done (n, r)
unfolding read_count
read_count-num_to_var_int n r h l =
    rw
      (
        var_int_additional_size-num_to_var_int n r,
        check_end-lt (1 + (length (num_to_var_int n) - 1)) (num_to_var_int n ++ r)
            (omega (arith, length-num_to_var_int n, length-append (num_to_var_int n) r)),
        extract_var_int-num_to_var_int n r (omega arith),
        guard-true (ltb n max_tx_size) r (ground arith),
      )
      refl

abs64-lt : (n : ℕ) → n < 2 ^ 63 → abs64 n ≡ n
unfolding abs64
abs64-lt n h = ground arith

-- A script behind its length.
abbrev counted : List ℕ → List ℕ → List ℕ
counted script r = num_to_var_int (length script) ++ (script ++ r)

read_input-encode_in :
    (i : TxIn) (r : List ℕ)
    → IsTxIn i
    → 1 ≤ length r
    → read_input (
        i.prevout.txid
        ++ (le_bytes 4 i.prevout.vout ++ counted i.script (le_bytes 4 i.sequence ++ r)))
      ≡ done (i.prevout, r)
unfolding read_input
read_input-encode_in i r h l =
    let r4 = le_bytes 4 i.sequence ++ r in
    let r3 = i.script ++ r4 in
    let r2 = num_to_var_int (length i.script) ++ r3 in
    let r1 = le_bytes 4 i.prevout.vout ++ r2 in
    let l4 = length-append (le_bytes 4 i.sequence) r in
    let l3 = length-append i.script r4 in
    let l2 = length-append (num_to_var_int (length i.script)) r3 in
    let l1 = length-append (le_bytes 4 i.prevout.vout) r2 in
    let l0 = length-append i.prevout.txid r1 in
    let ls = length-le_bytes 4 i.sequence in
    let lv = length-le_bytes 4 i.prevout.vout in
    let ln = length-num_to_var_int (length i.script) in
    rw
      (
        check_end-lt 32 (i.prevout.txid ++ r1) (omega (arith, l0, l1, lv, h.txid)),
        take_bytes-append 32 i.prevout.txid r1 h.txid,
        check_end-lt 4 r1 (omega (arith, l1, l2, lv, ln)),
        extract_u32-le_bytes i.prevout.vout r2 h.vout,
        read_count-num_to_var_int (length i.script) r3 h.script (omega (arith, l3, l4, ls)),
        check_end-lt (length i.script) r3 (omega (arith, l3, l4, ls)),
        take_bytes-append (length i.script) i.script r4 refl,
        check_end-lt 4 r4 (omega (arith, l4, ls)),
        extract_u32-le_bytes i.sequence r h.sequence,
      )
      refl

read_output-encode_out :
    (j : ℕ) (o : TxOut) (r : List ℕ)
    → IsTxOut o
    → 1 ≤ length r
    → read_output j (le_bytes 8 o.value ++ counted o.script r)
      ≡ done (
        record {
          prev_tx_id = zero_hash;
          prev_out_idx = j;
          value = o.value;
          scriptpubkey = o.script;
        },
        r,
      )
unfolding read_output
read_output-encode_out j o r h l =
    let r2 = o.script ++ r in
    let r1 = num_to_var_int (length o.script) ++ r2 in
    let l2 = length-append o.script r in
    let l1 = length-append (num_to_var_int (length o.script)) r2 in
    let l0 = length-append (le_bytes 8 o.value) r1 in
    let lv = length-le_bytes 8 o.value in
    let ln = length-num_to_var_int (length o.script) in
    rw
      (
        check_end-lt 8 (le_bytes 8 o.value ++ r1) (omega (arith, l0, l1, lv, ln)),
        extract_u64-le_bytes o.value r1 (omega (arith, h.value)),
        read_count-num_to_var_int (length o.script) r2 h.script (omega (arith, l2)),
        check_end-lt (length o.script) r2 (omega (arith, l2)),
        take_bytes-append (length o.script) o.script r refl,
        abs64-lt o.value h.value,
      )
      refl

pub read_input_lem :
    (i : TxIn) (r : List ℕ)
    → IsTxIn i
    → 1 ≤ length r
    → read_input (encode_in i ++ r) ≡ done (i.prevout, r)
unfolding encode_in
read_input_lem i r h l = simp append_assoc (read_input-encode_in i r h l)

pub read_output_lem :
    (j : ℕ) (o : TxOut) (r : List ℕ)
    → IsTxOut o
    → 1 ≤ length r
    → read_output j (encode_out o ++ r)
      ≡ done (
        record {
          prev_tx_id = zero_hash;
          prev_out_idx = j;
          value = o.value;
          scriptpubkey = o.script;
        },
        r,
      )
unfolding encode_out
read_output_lem j o r h l = simp append_assoc (read_output-encode_out j o r h l)

read_list-ins :
    (ins : List TxIn) (j : ℕ) (r : List ℕ)
    → All IsTxIn ins
    → 1 ≤ length r
    → read_list (λ i. read_input) (length ins) j (concat_map encode_in ins ++ r)
      ≡ done (map (λ i. i.prevout) ins, r)
unfolding read_list concat_map
read_list-ins [] j r h l = refl
read_list-ins (i ∷ ins) j r (hi, h) l =
    let rest = concat_map encode_in ins ++ r in
    rw (append_assoc (encode_in i) (concat_map encode_in ins) r) (
      rw
        (
          read_input_lem i rest hi (omega (arith, length-append (concat_map encode_in ins) r)),
          read_list-ins ins (j + 1) r h l,
        )
        refl)

read_list-outs :
    (outs : List TxOut) (j : ℕ) (r : List ℕ)
    → All IsTxOut outs
    → 1 ≤ length r
    → read_list read_output (length outs) j (concat_map encode_out outs ++ r)
      ≡ done (numbered j outs, r)
unfolding read_list concat_map
read_list-outs [] j r h l = refl
read_list-outs (o ∷ outs) j r (ho, h) l =
    let rest = concat_map encode_out outs ++ r in
    rw (append_assoc (encode_out o) (concat_map encode_out outs) r) (
      rw
        (
          read_output_lem j o rest ho (omega (arith, length-append (concat_map encode_out outs) r)),
          read_list-outs outs (j + 1) r h l,
        )
        refl)

read_body-parts :
    (t : RawTx) (r : List ℕ)
    → IsRawTx t
    → read_body (
        le_bytes 4 t.version
        ++ (num_to_var_int (length t.ins)
            ++ (concat_map encode_in t.ins
                ++ (num_to_var_int (length t.outs)
                    ++ (concat_map encode_out t.outs ++ (le_bytes 4 t.lock_time ++ r))))))
      ≡ done (body_of t, r)
unfolding read_body
read_body-parts t r h =
    let s5 = le_bytes 4 t.lock_time ++ r in
    let s4 = concat_map encode_out t.outs ++ s5 in
    let s3 = num_to_var_int (length t.outs) ++ s4 in
    let s2 = concat_map encode_in t.ins ++ s3 in
    let s1 = num_to_var_int (length t.ins) ++ s2 in
    let s0 = le_bytes 4 t.version ++ s1 in
    let l5 = length-append (le_bytes 4 t.lock_time) r in
    let l4 = length-append (concat_map encode_out t.outs) s5 in
    let l3 = length-append (num_to_var_int (length t.outs)) s4 in
    let l2 = length-append (concat_map encode_in t.ins) s3 in
    let l1 = length-append (num_to_var_int (length t.ins)) s2 in
    let l0 = length-append (le_bytes 4 t.version) s1 in
    let lv = length-le_bytes 4 t.version in
    let lt = length-le_bytes 4 t.lock_time in
    rw
      (
        check_end-lt 4 s0 (omega (arith, l0, l1, l2, l3, l4, l5, lv, lt)),
        extract_u32-le_bytes t.version s1 h.version,
        read_count-num_to_var_int (length t.ins) s2 h.in_count (omega (arith, l2, l3, l4, l5, lt)),
        read_list-ins t.ins 0 s3 h.ins (omega (arith, l3, l4, l5, lt)),
        read_count-num_to_var_int (length t.outs) s4 h.out_count (omega (arith, l4, l5, lt)),
        read_list-outs t.outs 0 s5 h.outs (omega (arith, l5, lt)),
        check_end-lt 3 s5 (omega (arith, l5, lt)),
        extract_u32-le_bytes t.lock_time r h.lock_time,
      )
      refl

read_body-encode :
    (t : RawTx) (r : List ℕ) → IsRawTx t → read_body (encode t ++ r) ≡ done (body_of t, r)
unfolding encode
read_body-encode t r h = simp append_assoc (read_body-parts t r h)

-- `hydrate` reads back every transaction serialized within the format and the limits, from the front of any longer input, and takes
-- exactly its bytes.
pub hydrate-encode :
    (sha256 : List ℕ → List ℕ) (t : RawTx) (r : List ℕ)
    → IsRawTx t
    → hydrate sha256 (encode t ++ r) ≡ done (finish sha256 (encode t) (body_of t))
unfolding hydrate hydrated
hydrate-encode sha256 t r h = rw (read_body-encode t r h) (
    ap (λ s. done (finish sha256 s (body_of t)))
      (take-append _ (encode t) r (omega (arith, length-append (encode t) r))))
