-- ===== src/Rest/Examples.antt =====
-- Runs of the gateway before a service that knows one output.
use cpp_slp_graph_search.Prelude.{◌≡◌, inl, inr, refl, [], ◌∷◌, arith, none, map}
use cpp_slp_graph_search.Prelude.Codes.{codes}
use cpp_slp_graph_search.Util.Hex.{hex}
use cpp_slp_graph_search.Rest.Numeric.{is_nan, pos}
use cpp_slp_graph_search.Rest.Json.{str}
use cpp_slp_graph_search.Rest.Hex.{hex_to_bytes}
use cpp_slp_graph_search.Rest.HexLaws.{hex_to_bytes-hex}
use cpp_slp_graph_search.Rest.Gateway.{
  Output, Upstream, split, shown_txid, sent_txid, bad_format, reply, outputs_json,
  output_with_address, get_utxo,
}
use cpp_slp_graph_search.Rest.GatewayLaws.{
  sent_txid-shown_txid, request_text, no_colon, get_utxo-Malformed,
}
use cpp_slp_graph_search.Rest.Requests.{Named, IsNamed, shown, wanted, get_utxo-request_text}

abbrev output : Output
output = record {
  prev_tx_id = 0xAB ∷ 7 ∷ [];
  prev_out_idx = 1;
  height = 600000;
  value = 546;
  scriptpubkey_b64 = codes "ag==";
}

abbrev service : Upstream
service = record {
  graph_search = λ txid. inl (str (codes "not found"));
  utxo_search_by_outpoints = λ os. inr (map (λ o. output) os);
  utxo_search_by_scriptpubkey = λ script limit. inr (output ∷ []);
  balance_by_scriptpubkey = λ script. inr 546;
  decode = λ address. none;
  to_base64 = λ bytes. bytes;
  from_script = λ script. none;
}

sent_txid-shown_txid_example : sent_txid (shown_txid output) ≡ hex (0xAB ∷ 7 ∷ [])
sent_txid-shown_txid_example = sent_txid-shown_txid output (omega arith, (omega arith, tt))

hex_to_bytes-hex_example : hex_to_bytes (hex (0xAB ∷ 7 ∷ [])) ≡ map pos (0xAB ∷ 7 ∷ [])
hex_to_bytes-hex_example = hex_to_bytes-hex (0xAB ∷ 7 ∷ []) (omega arith, (omega arith, tt))

-- `07ab:1`
abbrev entry : Named
entry = (7 ∷ 0xAB ∷ [], b'1' ∷ [])

entry-IsNamed : IsNamed entry
entry-IsNamed = record {
  bytes = (omega arith, (omega arith, tt));
  vout_colon = (omega arith, tt);
  vout_comma = (omega arith, tt);
  numeric = unfold is_nan in refl;
}

get_utxo-request_text_example :
    get_utxo service (request_text (shown entry) (shown entry ∷ []))
    ≡ reply
        (outputs_json (output_with_address service))
        (service.utxo_search_by_outpoints (wanted entry ∷ wanted entry ∷ []))
get_utxo-request_text_example =
    get_utxo-request_text service entry (entry ∷ []) entry-IsNamed (entry-IsNamed, tt)

-- `0:1,7`
get_utxo-Malformed_example : get_utxo service (b'0' ∷ b':' ∷ b'1' ∷ b',' ∷ b'7' ∷ []) ≡ bad_format
unfolding split
get_utxo-Malformed_example =
    get_utxo-Malformed service (b'0' ∷ b':' ∷ b'1' ∷ b',' ∷ b'7' ∷ [])
      ((b'0' ∷ b':' ∷ b'1' ∷ []) ∷ []) [] (b'7' ∷ []) refl (no_colon (omega arith, tt))
