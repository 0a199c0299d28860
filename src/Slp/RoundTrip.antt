-- ===== src/Slp/RoundTrip.antt =====
-- `slp_transaction::hydrate` on the script of a message.
use cpp_slp_graph_search.Prelude.{
  ltb, if◌then◌else◌, ℕ, ◌≤◌, ◌≡◌, inr, refl, List, [], ◌∷◌, arith, true, false, length, ◌∙◌,
}
use cpp_slp_graph_search.Slp.Message.{
  is_genesis, Hash, SlpTx, invalid, genesis, mint, send, SlpTransaction,
}
use cpp_slp_graph_search.Slp.Chunks.{scanned, scan_chunks, is_lokad}
use cpp_slp_graph_search.Slp.Parse.{
  parse_action, parse_chunks, hydrate, accept_or_fail, set_token_type, after_scan,
}
use cpp_slp_graph_search.Slp.Pushes.{pushes, scan-push, scan-pushes, length-pushes, last_length}
use cpp_slp_graph_search.Slp.Sound.{IsTokenType, IsMessageOf, IsMessage}
use cpp_slp_graph_search.Slp.Script.{field_chunks, lokad, script_of, IsShort}
use cpp_slp_graph_search.Slp.Fields.{
  parse_send-chunks, parse_mint-chunks, parse_genesis-chunks, parse_token_type-single,
}
use cpp_slp_graph_search.Slp.Sizes.{IsReadable, field_chunks-IsReadable}

length-le-pushes : (cs : List (List ℕ)) → length cs ≤ length (pushes cs)
unfolding pushes
length-le-pushes [] = omega arith
length-le-pushes (c ∷ cs) = omega (arith, length-le-pushes cs, length-pushes c cs)

last_length-cons :
    (c : List ℕ) (cs : List (List ℕ)) → 1 ≤ last_length cs → last_length (c ∷ cs) ≡ last_length cs
last_length-cons c [] h = absurd (omega arith)
last_length-cons c (d ∷ cs) h = refl

scan_chunks-pushes :
    (t : ℕ) (cs : List (List ℕ))
    → IsReadable cs
    → scan_chunks (pushes (lokad ∷ (t ∷ []) ∷ cs)) ≡ scanned (lokad ∷ (t ∷ []) ∷ cs) []
unfolding scan_chunks pushes
scan_chunks-pushes t cs r =
    let rest = (t ∷ []) ∷ cs in
    scan-push (length (pushes (lokad ∷ rest))) [] lokad (pushes rest) (omega arith) (omega arith)
      (inr (unfold is_lokad in refl))
    ∙ scan-pushes (length (pushes (lokad ∷ rest))) (lokad ∷ []) rest (omega arith, r.short)
        (omega arith) (inr (omega (arith, last_length-cons (t ∷ []) cs r.last, r.last)))
        (omega (arith, length-le-pushes rest, length-pushes lokad rest))

-- What `hydrate` leaves in an object whose token id was `old`: a GENESIS names no token.
unfoldable pub hydrated : Hash → SlpTransaction → SlpTransaction
hydrated old slp = if is_genesis slp.slp_tx then record slp { tokenid = old } else slp

parse_chunks-field_chunks :
    (o : SlpTransaction) (tokenid : Hash) (t : ℕ) (tx : SlpTx)
    → IsTokenType t
    → IsMessageOf tokenid t tx
    → parse_chunks o (lokad ∷ (t ∷ []) ∷ field_chunks tokenid tx)
      ≡ (hydrated o.tokenid (record { tokenid = tokenid; token_type = t; slp_tx = tx }), true)
unfolding parse_chunks field_chunks hydrated
parse_chunks-field_chunks o tokenid t invalid ht h = absurd h
parse_chunks-field_chunks o tokenid t (genesis g) ht h =
    rw (parse_token_type-single t ht, set_token_type, parse_action)
      (rw (parse_genesis-chunks t g h, accept_or_fail) refl)
parse_chunks-field_chunks o tokenid t (mint m) ht h =
    rw (parse_token_type-single t ht, set_token_type, parse_action)
      (rw (parse_mint-chunks t tokenid m h.0 h.1, accept_or_fail) refl)
parse_chunks-field_chunks o tokenid t (send ns) ht h =
    rw (parse_token_type-single t ht, set_token_type, parse_action)
      (rw (parse_send-chunks tokenid ns h.0 h.1, accept_or_fail) refl)

-- `hydrate` reads back every sound message whose texts are shorter than 256 bytes from its script,
-- whatever the object held before. A genesis leaves the object's token id as it was.
pub hydrate-script_of :
    (o slp : SlpTransaction)
    → IsMessage slp
    → IsShort slp.slp_tx
    → hydrate o (script_of slp) ≡ (hydrated o.tokenid slp, true)
unfolding hydrate script_of
hydrate-script_of o slp h s =
    let r = field_chunks-IsReadable slp.tokenid slp.token_type slp.slp_tx h.1 s in
    let fields = field_chunks slp.tokenid slp.slp_tx in
    let rest = (slp.token_type ∷ []) ∷ fields in
    let long : ltb (length (0x6A ∷ pushes (lokad ∷ rest))) 10 ≡ false =
      ground
        (arith, length-pushes lokad rest, length-pushes (slp.token_type ∷ []) fields, r.size) in
    rw long (
      rw (scan_chunks-pushes slp.token_type fields r, after_scan)
        (parse_chunks-field_chunks o slp.tokenid slp.token_type slp.slp_tx h.0 h.1))
