-- ===== src/Rest/GatewayLaws.antt =====
-- What `/utxo/…` sends upstream, for requests as a client writes them.
use cpp_slp_graph_search.Prelude.{
  inr, inl, ◌==◌, Bool-cases, true, none, ℕ, ◌≡◌, ◌≢◌, refl, ap, ◌∙◌, List, [], ◌∷◌, ◌++◌, arith,
  false, some, All, All-reverse, All-append, map, reverse, reverse-map, reverse-cons-append,
}
use cpp_slp_graph_search.Util.Bytes.{Byte}
use cpp_slp_graph_search.Util.Hex.{hex}
use cpp_slp_graph_search.Rest.Numeric.{pos, is_nan}
use cpp_slp_graph_search.Rest.Hex.{bytes_to_hex}
use cpp_slp_graph_search.Rest.HexLaws.{hex_to_bytes-hex, bytes_to_hex-pos}
use cpp_slp_graph_search.Rest.Gateway.{
  Output, RequestOutpoint, Upstream, split, split_at, shown_txid, sent_txid, parse_outpoint,
  parse_outpoints, get_utxo, reply, outputs_json, output_with_address, bad_format,
}
use mathlib.Core.List.{reverse-reverse, append-nil}

pub shown_txid_lem :
    (o : Output) → All Byte o.prev_tx_id → shown_txid o ≡ hex (reverse o.prev_tx_id)
unfolding shown_txid
shown_txid_lem o h =
    ap bytes_to_hex (reverse-map pos o.prev_tx_id)
    ∙ bytes_to_hex-pos (reverse o.prev_tx_id) (All-reverse Byte o.prev_tx_id h)

-- The id of bytes that a response shows, put into a request, is sent upstream as the id in its own order.
pub sent_txid-shown_txid :
    (o : Output) → All Byte o.prev_tx_id → sent_txid (shown_txid o) ≡ hex o.prev_tx_id
unfolding sent_txid
sent_txid-shown_txid o h =
    let bytes = All-reverse Byte o.prev_tx_id h in
    rw (shown_txid_lem o h, hex_to_bytes-hex (reverse o.prev_tx_id) bytes)
      (rw (reverse-map pos (reverse o.prev_tx_id), reverse-reverse o.prev_tx_id)
        (bytes_to_hex-pos o.prev_tx_id h))

abbrev pub Lacks : ℕ → List ℕ → Type 0
Lacks sep = All (λ c. c ≢ sep)

split_at-Lacks :
    (sep : ℕ) (piece s : List ℕ) → Lacks sep s → split_at sep piece s ≡ (reverse piece ++ s) ∷ []
unfolding split_at
split_at-Lacks sep piece [] h = ground (arith, append-nil (reverse piece))
split_at-Lacks sep piece (c ∷ s) (hc, h) =
    ground (arith, split_at-Lacks sep (c ∷ piece) s h, reverse-cons-append c piece s)

split_at-append :
    (sep : ℕ) (piece s t : List ℕ)
    → Lacks sep s
    → split_at sep piece (s ++ sep ∷ t) ≡ (reverse piece ++ s) ∷ split_at sep [] t
unfolding split_at
split_at-append sep piece [] t h = ground (arith, append-nil (reverse piece))
split_at-append sep piece (c ∷ s) t (hc, h) =
    ground (arith, split_at-append sep (c ∷ piece) s t h, reverse-cons-append c piece s)

-- `<txid>:<vout>`, and such texts with commas between them.
abbrev pub Entry : Type 0
Entry = List ℕ × List ℕ

unfoldable pub entry_text : Entry → List ℕ
entry_text (a, b) = a ++ b':' ∷ b

unfoldable pub request_text : Entry → List Entry → List ℕ
unfolding entry_text
request_text e [] = entry_text e
request_text e (f ∷ es) = entry_text e ++ b',' ∷ request_text f es

-- Neither part holds a separator, and the second one is a number to `isNaN`.
pub record IsEntry (e : Entry) : Type 0 where
  pub txid_colon : Lacks b':' e.0
  pub txid_comma : Lacks b',' e.0
  pub vout_colon : Lacks b':' e.1
  pub vout_comma : Lacks b',' e.1
  pub numeric : is_nan e.1 ≡ false

abbrev pub to_request : Entry → RequestOutpoint
to_request e = record { txid = sent_txid e.0; vout = e.1 }

parse_outpoint-entry_text :
    (e : Entry) → IsEntry e → parse_outpoint (entry_text e) ≡ some (to_request e)
unfolding parse_outpoint entry_text
parse_outpoint-entry_text (a, b) h =
    rw (split_at-append b':' [] a b h.txid_colon, split_at-Lacks b':' [] b h.vout_colon)
      (rw h.numeric refl)

entry_text-Lacks : (e : Entry) → IsEntry e → Lacks b',' (entry_text e)
unfolding entry_text
entry_text-Lacks (a, b) h =
    All-append (λ c. c ≢ b',') a (b':' ∷ b) h.txid_comma ((λ p. absurd (omega arith)), h.vout_comma)

parse_outpoints-request_text :
    (e : Entry) (es : List Entry)
    → IsEntry e
    → All IsEntry es
    → parse_outpoints (split b',' (request_text e es)) ≡ some (map to_request (e ∷ es))
unfolding parse_outpoints split request_text
parse_outpoints-request_text e [] h hs =
    rw (split_at-Lacks b',' [] (entry_text e) (entry_text-Lacks e h))
      (rw (parse_outpoint-entry_text e h) refl)
parse_outpoints-request_text e (f ∷ es) h (hf, hs) =
    rw (split_at-append b',' [] (entry_text e) (request_text f es) (entry_text-Lacks e h))
      (rw (parse_outpoint-entry_text e h, parse_outpoints-request_text f es hf hs) refl)

pub get_utxo-pieces :
    (up : Upstream) (e : Entry) (es : List Entry)
    → IsEntry e
    → All IsEntry es
    → get_utxo up (request_text e es)
      ≡ reply
          (outputs_json (output_with_address up))
          (up.utxo_search_by_outpoints (map to_request (e ∷ es)))
unfolding get_utxo
get_utxo-pieces up e es h hs = rw (parse_outpoints-request_text e es h hs) refl

-- A piece of a request with no colon, with a second part that is no number, or with two colons.
pub data Malformed (q : List ℕ) : Type 0 where
  no_colon : Lacks b':' q → Malformed q
  bad_vout :
      (a b : List ℕ)
      → Lacks b':' a
      → Lacks b':' b
      → is_nan b ≡ true
      → q ≡ a ++ b':' ∷ b
      → Malformed q
  two_colons :
      (a b c : List ℕ) → Lacks b':' a → Lacks b':' b → q ≡ a ++ b':' ∷ (b ++ b':' ∷ c) → Malformed q

split_at-cons :
    (sep : ℕ) (piece s : List ℕ)
    → (x : List ℕ) × (r : List (List ℕ)) × (split_at sep piece s ≡ x ∷ r)
unfolding split_at
split_at-cons sep piece [] = (reverse piece, [], refl)
split_at-cons sep piece (c ∷ s) = elim (Bool-cases (c == sep)) [
  | inl e ↦ (reverse piece, split_at sep [] s, rw e refl)
  | inr e ↦ rw e (split_at-cons sep (c ∷ piece) s)
]

parse_outpoint-Malformed : (q : List ℕ) → Malformed q → parse_outpoint q ≡ none
unfolding parse_outpoint
parse_outpoint-Malformed q (no_colon h) = rw (split_at-Lacks b':' [] q h) refl
parse_outpoint-Malformed q (bad_vout a b h k n e) =
    rw (e, split_at-append b':' [] a b h, split_at-Lacks b':' [] b k) (rw n refl)
parse_outpoint-Malformed q (two_colons a b c h k e) =
    let (x, r, more) = split_at-cons b':' [] c in
    rw (e, split_at-append b':' [] a (b ++ b':' ∷ c) h, split_at-append b':' [] b c k)
      (rw more refl)

parse_outpoints-Malformed :
    (front back : List (List ℕ)) (q : List ℕ)
    → Malformed q
    → parse_outpoints (front ++ q ∷ back) ≡ none
unfolding parse_outpoints
parse_outpoints-Malformed [] back q h = ground (arith, parse_outpoint-Malformed q h)
parse_outpoints-Malformed (p ∷ front) back q h =
    ground (arith, parse_outpoints-Malformed front back q h)

-- One malformed piece, wherever it stands, makes the whole answer `bad format`, written without the
-- JSON header and without a call of the service.
pub get_utxo-Malformed :
    (up : Upstream) (text : List ℕ) (front back : List (List ℕ)) (q : List ℕ)
    → split b',' text ≡ front ++ q ∷ back
    → Malformed q
    → get_utxo up text ≡ bad_format
unfolding get_utxo
get_utxo-Malformed up text front back q e h = rw (e, parse_outpoints-Malformed front back q h) refl
