-- ===== src/Rest/Requests.antt =====
-- Requests for `/utxo/…` with ids in hexadecimal digits.
use cpp_slp_graph_search.Prelude.{
  not, get_or, ◌<◌, ◌/◌, ◌%◌, ◌==◌, true, ℕ, ◌≡◌, ◌≢◌, refl, ap, ◌∙◌, List, [], ◌∷◌, arith, false,
  All, All-reverse, map, reverse, reverse-map,
}
use cpp_slp_graph_search.Util.Bytes.{Byte}
use cpp_slp_graph_search.Util.Hex.{hex, chars}
use cpp_slp_graph_search.Rest.Numeric.{pos, is_nan}
use cpp_slp_graph_search.Rest.HexLaws.{hex_to_bytes-hex, bytes_to_hex-pos}
use cpp_slp_graph_search.Rest.Gateway.{
  RequestOutpoint, Upstream, sent_txid, get_utxo, reply, outputs_json, output_with_address,
}
use mathlib.Core.Path.{ap₂}
use cpp_slp_graph_search.Prelude.Tables.{passes, passes-entry}
use cpp_slp_graph_search.Rest.GatewayLaws.{
  Lacks, Entry, request_text, IsEntry, to_request, get_utxo-pieces,
}

-- The bytes of an id, as a response shows them, and the text of an output number.
abbrev pub Named : Type 0
Named = List ℕ × List ℕ

-- `<txid>:<vout>` with the id in hexadecimal digits.
abbrev pub shown : Named → Entry
shown (txid, vout) = (hex txid, vout)

-- The id is of bytes, and the output number, without a separator, is a number to `isNaN`.
pub record IsNamed (e : Named) : Type 0 where
  pub bytes : All Byte e.0
  pub vout_colon : Lacks b':' e.1
  pub vout_comma : Lacks b',' e.1
  pub numeric : is_nan e.1 ≡ false

-- What the service is asked for: the id with its bytes in reverse.
abbrev pub wanted : Named → RequestOutpoint
wanted (txid, vout) = record { txid = hex (reverse txid); vout = vout }

digit-ne :
    (sep n : ℕ)
    → passes (λ i. not (get_or chars i 0 == sep)) 16 ≡ true
    → n < 16
    → get_or chars n 0 ≢ sep
digit-ne sep n table small e =
    let apart = passes-entry (λ i. not (get_or chars i 0 == sep)) 16 n table small in
    ground (arith, apart, e)

hex-Lacks :
    (sep : ℕ) (v : List ℕ)
    → passes (λ i. not (get_or chars i 0 == sep)) 16 ≡ true
    → All Byte v
    → Lacks sep (hex v)
unfolding hex
hex-Lacks sep [] table h = tt
hex-Lacks sep (b ∷ v) table (hb, h) = (
  digit-ne sep (b / 16) table (omega (arith, hb)),
  (digit-ne sep (b % 16) table (omega arith), hex-Lacks sep v table h),
)

no_colon_digit : passes (λ i. not (get_or chars i 0 == b':')) 16 ≡ true
unfolding passes
no_colon_digit = refl

no_comma_digit : passes (λ i. not (get_or chars i 0 == b',')) 16 ≡ true
unfolding passes
no_comma_digit = refl

shown-IsEntry : (e : Named) → IsNamed e → IsEntry (shown e)
shown-IsEntry (txid, vout) h = record {
  txid_colon = hex-Lacks b':' txid no_colon_digit h.bytes;
  txid_comma = hex-Lacks b',' txid no_comma_digit h.bytes;
  vout_colon = h.vout_colon;
  vout_comma = h.vout_comma;
  numeric = h.numeric;
}

sent_txid-hex : (v : List ℕ) → All Byte v → sent_txid (hex v) ≡ hex (reverse v)
unfolding sent_txid
sent_txid-hex v h =
    rw (hex_to_bytes-hex v h, reverse-map pos v)
      (bytes_to_hex-pos (reverse v) (All-reverse Byte v h))

to_request-wanted : (e : Named) → IsNamed e → to_request (shown e) ≡ wanted e
to_request-wanted (txid, vout) h =
    ap (λ id. record { txid = id; vout = vout }) (sent_txid-hex txid h.bytes)

to_requests-wanted :
    (es : List Named) → All IsNamed es → map to_request (map shown es) ≡ map wanted es
to_requests-wanted [] h = refl
to_requests-wanted (e ∷ es) (h, hs) =
    ap₂ (λ o os. o ∷ os) (to_request-wanted e h) (to_requests-wanted es hs)

shown-IsEntries : (es : List Named) → All IsNamed es → All IsEntry (map shown es)
shown-IsEntries [] h = tt
shown-IsEntries (e ∷ es) (h, hs) = (shown-IsEntry e h, shown-IsEntries es hs)

-- A request that names outpoints by the digits of their ids' bytes and by numbers, with commas
-- between them, is answered with what the service answers for exactly those outpoints in that order,
-- each id with the digits of its bytes in reverse.
pub get_utxo-request_text :
    (up : Upstream) (e : Named) (es : List Named)
    → IsNamed e
    → All IsNamed es
    → get_utxo up (request_text (shown e) (map shown es))
      ≡ reply
          (outputs_json (output_with_address up))
          (up.utxo_search_by_outpoints (map wanted (e ∷ es)))
get_utxo-request_text up e es h hs =
    get_utxo-pieces up (shown e) (map shown es) (shown-IsEntry e h) (shown-IsEntries es hs)
    ∙ ap (λ os. reply (outputs_json (output_with_address up)) (up.utxo_search_by_outpoints os))
        (to_requests-wanted (e ∷ es) (h, hs))
