-- ===== src/Block/RoundTrip.antt =====
-- `block::hydrate` on what `block::serialize` wrote (src/block.cpp).
use cpp_slp_graph_search.Prelude.{
  ℕ, ◌+◌, ◌-◌, ◌^◌, ◌≤◌, ◌<◌, ◌≡◌, refl, List, [], ◌∷◌, ◌++◌, arith, All, length, length-append,
  map, drop-append, false, length-map,
}
use mathlib.Core.List.{append_assoc}
use cpp_slp_graph_search.Util.Bytes.{le_bytes, length-le_bytes}
use cpp_slp_graph_search.Util.Reader.{done}
use cpp_slp_graph_search.Util.ReaderLaws.{check_end-lt, take_bytes-append}
use cpp_slp_graph_search.Util.VarInt.{
  num_to_var_int, extract_var_int-num_to_var_int, var_int_additional_size-num_to_var_int,
  length-num_to_var_int,
}
use cpp_slp_graph_search.Tx.Types.{Transaction}
use cpp_slp_graph_search.Tx.Hydrate.{finish}
use cpp_slp_graph_search.Tx.Encode.{RawTx, encode, IsRawTx, body_of}
use cpp_slp_graph_search.Tx.RoundTrip.{hydrate-encode, extract_u32-le_bytes}
use cpp_slp_graph_search.Block.Codec.{
  Header, read_header, header_bytes, all_serialized, serialize, advance, keep_tx, read_tx, read_txs,
  block_of, hydrate,
}

pub record IsHeader (h : Header) : Type 0 where
  pub version : h.version < 256 ^ 4
  pub prev_block : length h.prev_block ≡ 32
  pub merkle_root : length h.merkle_root ≡ 32
  pub timestamp : h.timestamp < 256 ^ 4
  pub bits : h.bits < 256 ^ 4
  pub nonce : h.nonce < 256 ^ 4

read_header-parts :
    (h : Header) (r : List ℕ)
    → IsHeader h
    → 1 ≤ length r
    → read_header (
        le_bytes 4 h.version
        ++ (h.prev_block
            ++ (h.merkle_root
                ++ (le_bytes 4 h.timestamp ++ (le_bytes 4 h.bits ++ (le_bytes 4 h.nonce ++ r))))))
      ≡ done (h, r)
unfolding read_header
read_header-parts h r w l =
    let s5 = le_bytes 4 h.nonce ++ r in
    let s4 = le_bytes 4 h.bits ++ s5 in
    let s3 = le_bytes 4 h.timestamp ++ s4 in
    let s2 = h.merkle_root ++ s3 in
    let s1 = h.prev_block ++ s2 in
    let s0 = le_bytes 4 h.version ++ s1 in
    let e5 : length s5 ≡ 4 + length r =
      omega (arith, length-append (le_bytes 4 h.nonce) r, length-le_bytes 4 h.nonce) in
    let e4 : length s4 ≡ 4 + length s5 =
      omega (arith, length-append (le_bytes 4 h.bits) s5, length-le_bytes 4 h.bits) in
    let e3 : length s3 ≡ 4 + length s4 =
      omega (arith, length-append (le_bytes 4 h.timestamp) s4, length-le_bytes 4 h.timestamp) in
    let e2 : length s2 ≡ 32 + length s3 =
      omega (arith, length-append h.merkle_root s3, w.merkle_root) in
    let e1 : length s1 ≡ 32 + length s2 =
      omega (arith, length-append h.prev_block s2, w.prev_block) in
    let e0 : length s0 ≡ 4 + length s1 =
      omega (arith, length-append (le_bytes 4 h.version) s1, length-le_bytes 4 h.version) in
    rw
      (
        check_end-lt 4 s0 (omega arith),
        extract_u32-le_bytes h.version s1 w.version,
        check_end-lt 32 s1 (omega arith),
        take_bytes-append 32 h.prev_block s2 w.prev_block,
        check_end-lt 32 s2 (omega arith),
        take_bytes-append 32 h.merkle_root s3 w.merkle_root,
        check_end-lt 4 s3 (omega arith),
        extract_u32-le_bytes h.timestamp s4 w.timestamp,
        check_end-lt 4 s4 (omega arith),
        extract_u32-le_bytes h.bits s5 w.bits,
        check_end-lt 4 s5 (omega arith),
        extract_u32-le_bytes h.nonce r w.nonce,
      )
      refl

read_header-header_bytes :
    (h : Header) (r : List ℕ)
    → IsHeader h
    → 1 ≤ length r
    → read_header (header_bytes h ++ r) ≡ done (h, r)
unfolding header_bytes
read_header-header_bytes h r w l = simp append_assoc (read_header-parts h r w l)

module _ (sha256 : List ℕ → List ℕ) where
  -- The transaction that reading a serialized one gives.
  abbrev pub tx_of : RawTx → Transaction
  tx_of t = finish sha256 (encode t) (body_of t)

  serialized-tx_of : (t : RawTx) → (tx_of t).serialized ≡ encode t
  unfolding finish
  serialized-tx_of t = refl

  read_tx-encode :
      (t : RawTx) (r : List ℕ) → IsRawTx t → read_tx sha256 (encode t ++ r) ≡ done (tx_of t, r)
  unfolding read_tx advance
  read_tx-encode t r h =
      rw (hydrate-encode sha256 t r h)
        (rw (serialized-tx_of t) (rw (drop-append (length (encode t)) (encode t) r refl) refl))

  encode-nonempty : (t : RawTx) → 1 ≤ length (encode t)
  unfolding encode le_bytes
  encode-nonempty t = omega arith

  read_txs-all_serialized :
      (ts : List RawTx) (r : List ℕ)
      → All IsRawTx ts
      → read_txs sha256 false (length ts) (all_serialized (map tx_of ts) ++ r)
        ≡ done (map tx_of ts, r)
  unfolding read_txs all_serialized keep_tx finish
  read_txs-all_serialized [] r h = refl
  read_txs-all_serialized (t ∷ ts) r (ht, h) =
      let rest = all_serialized (map tx_of ts) ++ r in
      rw (serialized-tx_of t, append_assoc (encode t) (all_serialized (map tx_of ts)) r)
        (rw
          (
            check_end-lt 0 (encode t ++ rest)
                (omega (arith, encode-nonempty t, length-append (encode t) rest)),
            read_tx-encode t rest ht,
            read_txs-all_serialized ts r h,
          )
          refl)

  -- A block as `serialize` writes it, of a header and fewer than 2 ^ 64 transactions within the format,
  -- read without `slp_only`, reads back whole, with the double
  -- hash of its header for its hash, and leaves what follows it.
  pub hydrate-serialize :
      (hash : List ℕ) (h : Header) (ts : List RawTx) (r : List ℕ)
      → IsHeader h
      → All IsRawTx ts
      → length ts < 2 ^ 64
      → hydrate sha256 false
          (serialize (record { block_hash = hash; header = h; txs = map tx_of ts }) ++ r)
        ≡ done (block_of sha256 h (map tx_of ts), r)
  unfolding hydrate serialize
  hydrate-serialize hash h ts r w ws n =
      let txs = map tx_of ts in
      let s2 = all_serialized txs ++ r in
      let s1 = num_to_var_int (length txs) ++ s2 in
      let count : length txs ≡ length ts = length-map tx_of ts in
      let l1 = length-append (num_to_var_int (length txs)) s2 in
      let ln = length-num_to_var_int (length txs) in
      rw
        (
          append_assoc (header_bytes h) (num_to_var_int (length txs) ++ all_serialized txs) r,
          append_assoc (num_to_var_int (length txs)) (all_serialized txs) r,
        )
        (rw
          (
            read_header-header_bytes h s1 w (omega arith),
            var_int_additional_size-num_to_var_int (length txs) s2,
            check_end-lt (length (num_to_var_int (length txs)) - 1) s1 (omega arith),
            extract_var_int-num_to_var_int (length txs) s2 (omega arith),
          )
          (rw (count, read_txs-all_serialized ts r ws) refl))
