-- ===== src/Server/Examples.antt =====
-- A chain of three transactions in the blocks, asked for by text.
use cpp_slp_graph_search.Prelude.{
  ℕ, ◌≡◌, ◌≤◌, refl, sym, ap, ◌∙◌, arith, List, [], ◌∷◌, none, some, true, length,
}
use cpp_slp_graph_search.Prelude.Keys.{bytes_key, bytes_discrete}
use cpp_slp_graph_search.Prelude.Map.{find, insert, has_key}
use cpp_slp_graph_search.Prelude.Set.{contains, add}
use cpp_slp_graph_search.Slp.Message.{Hash, invalid}
use cpp_slp_graph_search.Util.Hex.{Text, unhex}
use cpp_slp_graph_search.Tx.Types.{Transaction}
use cpp_slp_graph_search.Graph.Store.{
  Ref-discrete, ref_key, TxGraph, token_graph, clear, insert_token_data,
}
use cpp_slp_graph_search.Graph.Search.{response, ok, graph_search, node_at, size}
use cpp_slp_graph_search.Tx.Hydrate.{hydrate, finish}
use cpp_slp_graph_search.Tx.Encode.{RawTx, IsRawTx, encode, body_of}
use cpp_slp_graph_search.Tx.RoundTrip.{hydrate-encode}
use mathlib.Core.List.{append-nil}
use cpp_slp_graph_search.Server.Search.{
  txid_regex, txid_of, exclude_ids, answered, hydrate_all, search_excluding,
}
use cpp_slp_graph_search.Validator.State.{Validator}
use cpp_slp_graph_search.Server.Answers.{search_excluding-first, search_excluding-copies}

-- 64 digits, and the 32 bytes that they stand for.
abbrev text_of : ℕ → Text
text_of d =
    b'0' ∷ d ∷ b'0' ∷ d ∷ b'0' ∷ d ∷ b'0' ∷ d ∷ b'0' ∷ d ∷ b'0' ∷ d ∷ b'0' ∷ d ∷ b'0' ∷ d ∷ b'0' ∷ d
    ∷ b'0' ∷ d ∷ b'0' ∷ d ∷ b'0' ∷ d ∷ b'0' ∷ d ∷ b'0' ∷ d ∷ b'0' ∷ d ∷ b'0' ∷ d ∷ b'0' ∷ d ∷ b'0'
    ∷ d ∷ b'0' ∷ d ∷ b'0' ∷ d ∷ b'0' ∷ d ∷ b'0' ∷ d ∷ b'0' ∷ d ∷ b'0' ∷ d ∷ b'0' ∷ d ∷ b'0' ∷ d
    ∷ b'0' ∷ d ∷ b'0' ∷ d ∷ b'0' ∷ d ∷ b'0' ∷ d ∷ b'0' ∷ d ∷ b'0' ∷ d ∷ []

abbrev id_of : ℕ → Hash
id_of b =
    b ∷ b ∷ b ∷ b ∷ b ∷ b ∷ b ∷ b ∷ b ∷ b ∷ b ∷ b ∷ b ∷ b ∷ b ∷ b ∷ b ∷ b ∷ b ∷ b ∷ b ∷ b ∷ b ∷ b
    ∷ b ∷ b ∷ b ∷ b ∷ b ∷ b ∷ b ∷ b ∷ []

abbrev tx_from : ℕ → ℕ → Transaction
tx_from n parent = record {
  txid = id_of n;
  version = 1;
  lock_time = 0;
  inputs = record { txid = id_of parent; vout = 1 } ∷ [];
  outputs = [];
  slp = record { tokenid = id_of 1; token_type = 1; slp_tx = invalid };
  serialized = n ∷ [];
}

abbrev empty : TxGraph
empty = record { tokens = []; txid_to_token = [] }

abbrev blocks : TxGraph
blocks =
    (insert_token_data (clear empty) (id_of 1) (tx_from 1 0 ∷ tx_from 2 1 ∷ tx_from 3 2 ∷ [])).0

third_text-form : txid_regex (text_of b'3') ≡ true
unfolding txid_regex
third_text-form = refl

third_text-id : txid_of (text_of b'3') ≡ some (id_of 3)
unfolding txid_of unhex
third_text-id = refl

first_text-ids : exclude_ids (text_of b'1' ∷ []) ≡ some (id_of 1 ∷ [])
unfolding exclude_ids unhex
first_text-ids = refl

blocks-know : find (id_of 3) blocks.txid_to_token ≡ some (id_of 1)
unfolding insert_token_data clear find insert has_key bytes_discrete
blocks-know = refl

empty-knows_none : find (id_of 3) empty.txid_to_token ≡ none
unfolding find
empty-knows_none = refl

search_excluding-first_example :
    search_excluding (λ v. v) blocks empty 2 (id_of 3) (id_of 0 ∷ id_of 1 ∷ [])
    ≡ search_excluding (λ v. v) blocks empty 2 (id_of 3) (id_of 0 ∷ [])
search_excluding-first_example =
    search_excluding-first (λ v. v) blocks empty 2 (id_of 3) (id_of 0) (id_of 1 ∷ []) (omega arith)

-- A transaction of the mempool, as bytes.
abbrev small : RawTx
small = record {
  version = 1;
  ins = [];
  outs = record { value = 546; script = 0x6A ∷ [] } ∷ [];
  lock_time = 9;
}

small-IsRawTx : IsRawTx small
small-IsRawTx = record {
  version = omega arith;
  ins = tt;
  outs = (record { value = omega arith; script = omega arith }, tt);
  in_count = omega arith;
  out_count = omega arith;
  lock_time = omega arith;
}

abbrev mempool : TxGraph
mempool = record {
  tokens = (id_of 1, (id_of 4, record { inputs = []; txdata = encode small }) ∷ []) ∷ [];
  txid_to_token = (id_of 4, id_of 1) ∷ [];
}

small-found :
    graph_search mempool (id_of 4) []
    ≡ response ok (encode small ∷ []) (record { tokenid = id_of 1; txid = id_of 4 } ∷ [])
unfolding graph_search find has_key token_graph node_at add contains Ref-discrete bytes_discrete
    size
small-found = refl

small-read :
    hydrate_all (λ v. v) (encode small ∷ [])
    ≡ some (finish (λ v. v) (encode small) (body_of small) ∷ [])
unfolding hydrate_all
small-read =
    let whole = ap (hydrate (λ v. v)) (sym (append-nil (encode small))) in
    rw (whole ∙ hydrate-encode (λ v. v) small [] small-IsRawTx, hydrate_all) refl

search_excluding-copies_example :
    (data_sent : List (List ℕ)) × (search_excluding (λ v. v) blocks mempool 5 (id_of 4) []
      ≡ answered data_sent)
    × (1 ≤ length data_sent)
search_excluding-copies_example =
    search_excluding-copies (λ v. v) blocks mempool 5 (id_of 4) [] (encode small ∷ [])
      (record { tokenid = id_of 1; txid = id_of 4 } ∷ [])
      (finish (λ v. v) (encode small) (body_of small) ∷ []) small-found small-read

abbrev one_valid : Validator
one_valid = record { transaction_map = []; valid = id_of 1 ∷ [] }
