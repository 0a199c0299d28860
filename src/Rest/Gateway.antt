-- ===== src/Rest/Gateway.antt =====
-- The four routes of rest/index.js. What the gateway calls enters as the parameter `up`: the gRPC
-- clients, `cashaddrjs.decode`, the base64 of a buffer and bitcore's address of a script.
use cpp_slp_graph_search.Prelude.{
  ℕ, List, [], ◌∷◌, ◌++◌, Option, none, some, true, false, ◌==◌, if◌then◌else◌, map, reverse, ◌⊎◌,
  inl, inr,
}
use cpp_slp_graph_search.Prelude.Codes.{codes}
use cpp_slp_graph_search.Rest.Numeric.{pos, is_nan}
use cpp_slp_graph_search.Rest.Hex.{hex_to_bytes, bytes_to_hex}
use cpp_slp_graph_search.Rest.Json.{Json, null, bool, num, str, arr, obj, items, fields, Response}
use cpp_slp_graph_search.Rest.Address.{Decoded, address_script}

-- A message `Output` of the service, by the getters that the gateway calls.
pub record Output : Type 0 where
  pub prev_tx_id : List ℕ
  pub prev_out_idx : ℕ
  pub height : ℕ
  pub value : ℕ
  pub scriptpubkey_b64 : List ℕ

-- An outpoint of a request, as `setTxid` and `setVout` were given it.
pub record RequestOutpoint : Type 0 where
  pub txid : List ℕ
  pub vout : List ℕ

-- A call answers with an error, which is passed on, or with the response's content.
pub record Upstream : Type 0 where
  pub graph_search : List ℕ → Json ⊎ List (List ℕ)
  pub utxo_search_by_outpoints : List RequestOutpoint → Json ⊎ List Output
  pub utxo_search_by_scriptpubkey : List ℕ → ℕ → Json ⊎ List Output
  pub balance_by_scriptpubkey : List ℕ → Json ⊎ ℕ
  pub decode : List ℕ → Option Decoded
  pub to_base64 : List ℕ → List ℕ
  pub from_script : List ℕ → Option (List ℕ)

-- `s.split(sep)` at one character.
unfoldable pub split_at : ℕ → List ℕ → List ℕ → List (List ℕ)
split_at sep piece [] = reverse piece ∷ []
split_at sep piece (c ∷ s) =
    let here = reverse piece ∷ split_at sep [] s in
    let on = split_at sep (c ∷ piece) s in if c == sep then here else on

unfoldable pub split : ℕ → List ℕ → List (List ℕ)
unfolding split_at
split sep s = split_at sep [] s

unfoldable pub failure : Json → Json
failure e = obj (fields ((codes "success", bool false) ∷ (codes "error", e) ∷ []))

unfoldable pub success : Json → Json
success j = obj (fields ((codes "success", bool true) ∷ (codes "data", j) ∷ []))

-- The callback of a call: the header is set, and the error or the data is written.
unfoldable pub reply {ℓ} : {A : Type ℓ} → (A → Json) → Json ⊎ A → Response
unfolding failure success
reply render (inl e) = record { json_type = true; body = failure e }
reply render (inr a) = record { json_type = true; body = success (render a) }

-- `bytesToHex(Object.values(v.getPrevTxId_asU8()).reverse())`
unfoldable pub shown_txid : Output → List ℕ
unfolding bytes_to_hex
shown_txid v = bytes_to_hex (reverse (map pos v.prev_tx_id))

-- `bytesToHex(hexToBytes(segments[0]).reverse())`
unfoldable pub sent_txid : List ℕ → List ℕ
unfolding bytes_to_hex hex_to_bytes
sent_txid s = bytes_to_hex (reverse (hex_to_bytes s))

-- One round of the loop over `outpoints`; `none` is the early return.
to_outpoint : List (List ℕ) → Option RequestOutpoint
unfolding sent_txid is_nan
to_outpoint [] = none
to_outpoint (a ∷ []) = none
to_outpoint (a ∷ b ∷ []) = if is_nan b then none else some (record { txid = sent_txid a; vout = b })
to_outpoint (a ∷ b ∷ c ∷ r) = none

unfoldable pub parse_outpoint : List ℕ → Option RequestOutpoint
unfolding to_outpoint split
parse_outpoint o = to_outpoint (split b':' o)

cons_outpoint :
    Option RequestOutpoint → Option (List RequestOutpoint) → Option (List RequestOutpoint)
cons_outpoint none os = none
cons_outpoint (some o) none = none
cons_outpoint (some o) (some os) = some (o ∷ os)

unfoldable pub parse_outpoints : List (List ℕ) → Option (List RequestOutpoint)
unfolding parse_outpoint cons_outpoint
parse_outpoints [] = some []
parse_outpoints (o ∷ os) = cons_outpoint (parse_outpoint o) (parse_outpoints os)

address_json : Option (List ℕ) → Json
address_json none = null
address_json (some a) = str a

unfoldable pub output_fields : Output → List (List ℕ × Json)
unfolding shown_txid
output_fields v =
    (codes "prevTxId", str (shown_txid v))
    ∷ (codes "prevOutIdx", num v.prev_out_idx)
    ∷ (codes "height", num v.height)
    ∷ (codes "value", num v.value)
    ∷ []

-- The four fields, the script and its address, or null where bitcore throws.
unfoldable pub output_with_address : Upstream → Output → Json
unfolding output_fields address_json
output_with_address up v = obj (
    fields (
      output_fields v
      ++ (codes "pkScript", str v.scriptpubkey_b64)
        ∷ (codes "address", address_json (up.from_script v.scriptpubkey_b64))
        ∷ []))

unfoldable pub output_json : Output → Json
unfolding output_fields
output_json v = obj (fields (output_fields v))

unfoldable pub outputs_json : (Output → Json) → List Output → Json
outputs_json f os = arr (items (map f os))

-- `/slp/graphsearch/<txid>`
unfoldable pub get_graphsearch : Upstream → List ℕ → Response
unfolding reply
get_graphsearch up txid = reply (λ list. arr (items (map str list))) (up.graph_search txid)

unfoldable pub bad_format : Response
unfolding failure
bad_format = record { json_type = false; body = failure (str (codes "bad format")) }

search_outpoints : Upstream → Option (List RequestOutpoint) → Response
unfolding bad_format reply outputs_json output_with_address
search_outpoints up none = bad_format
search_outpoints up (some os) =
    reply (outputs_json (output_with_address up)) (up.utxo_search_by_outpoints os)

-- `/utxo/<txid>:<vout>,…`
unfoldable pub get_utxo : Upstream → List ℕ → Response
unfolding search_outpoints parse_outpoints split
get_utxo up param = search_outpoints up (parse_outpoints (split b',' param))

-- `addressToScriptpubkey`; `none` is the exception that `decode` throws.
unfoldable pub address_to_scriptpubkey : Upstream → List ℕ → Option (List ℕ)
unfolding address_script
address_to_scriptpubkey up address = elim (up.decode address) [
  | none ↦ none
  | some x ↦ some (up.to_base64 (address_script x))
]

-- `/address/utxos/<address>`; with no response, Express answers for the exception.
unfoldable pub get_address_utxos : Upstream → List ℕ → Option Response
unfolding address_to_scriptpubkey reply outputs_json output_json
get_address_utxos up address = elim (address_to_scriptpubkey up address) [
  | none ↦ none
  | some s ↦ some (reply (outputs_json output_json) (up.utxo_search_by_scriptpubkey s 10000))
]

-- `/address/balance/<address>`
unfoldable pub get_address_balance : Upstream → List ℕ → Option Response
unfolding address_to_scriptpubkey reply
get_address_balance up address = elim (address_to_scriptpubkey up address) [
  | none ↦ none
  | some s ↦ some (reply num (up.balance_by_scriptpubkey s))
]
