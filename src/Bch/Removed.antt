-- ===== src/Bch/Removed.antt =====
-- The loop of `bch::process_block` (src/bch.cpp) over the inputs, for one token of the token database.
use cpp_slp_graph_search.Prelude.{
  subst, ◌≡◌, inl, inr, refl, sym, ap, ◌∙◌, List, [], ◌∷◌, arith, none, some, Option-cases,
}
use cpp_slp_graph_search.Prelude.Keys.{bytes_key, bytes_discrete}
use cpp_slp_graph_search.Prelude.Map.{Map, find, find-erase, find-assign, find-All}
use cpp_slp_graph_search.Slp.Message.{Hash}
use cpp_slp_graph_search.Tx.Types.{Outpoint, outpoint_key}
use cpp_slp_graph_search.SlpDb.Store.{SlpOutput, SlpToken, SlpDb, spend_utxo, put_token}
use cpp_slp_graph_search.SlpDb.Tagged.{IsTaggedDb, put_token-IsTaggedDb}
use cpp_slp_graph_search.SlpDb.Supply.{spend_utxos}
use cpp_slp_graph_search.Bch.Runs.{ran}
use cpp_slp_graph_search.Bch.Process.{spend_slp, spend_slp_inputs}
use cpp_slp_graph_search.Bch.Ends.{has_key-found}

-- Each outpoint that a token holds is tagged with the token's id.
abbrev pub AreTagged : Hash → Map Outpoint SlpOutput → Map Outpoint Hash → Type 0
AreTagged tokenid utxos tags =
    (o : Outpoint) (out : SlpOutput) → find o utxos ≡ some out → find o tags ≡ some tokenid

spend_utxo-none :
    (o : Outpoint) (token : SlpToken) → find o token.utxos ≡ none → spend_utxo o token ≡ token
unfolding spend_utxo
spend_utxo-none o token e = rw (e, spend_utxo) refl

spend_utxo-AreTagged :
    (o : Outpoint) (token : SlpToken) (tokenid : Hash) (tags : Map Outpoint Hash)
    → AreTagged tokenid token.utxos tags
    → AreTagged tokenid (spend_utxo o token).utxos tags
unfolding spend_utxo
spend_utxo-AreTagged o token tokenid tags h j out e = elim (Option-cases (find o token.utxos)) [
  | inl absent ↦ h j out (ap (λ t. find j t.utxos) (sym (spend_utxo-none o token absent)) ∙ e)
  | inr (held, there) ↦ h j out (ground (arith, there, find-erase o j token.utxos, e))
]

-- An outpoint with no tag, or one of another token, is none that the token holds.
untagged-none :
    (o : Outpoint) (tokenid : Hash) (utxos : Map Outpoint SlpOutput) (tags : Map Outpoint Hash)
    → AreTagged tokenid utxos tags
    → ¬ (find o tags ≡ some tokenid)
    → find o utxos ≡ none
untagged-none o tokenid utxos tags h other = elim (Option-cases (find o utxos)) [
  | inl absent ↦ absent
  | inr (out, there) ↦ absurd (other (h o out there))
]

find-put_token :
    (k j : Hash) (token : SlpToken) (db : SlpDb)
    → ¬ (k ≡ j)
    → find j (put_token k token db).tokens ≡ find j db.tokens
unfolding put_token
find-put_token k j token db other = ground (arith, find-assign k j token db.tokens)

find-put_token_self :
    (k : Hash) (token : SlpToken) (db : SlpDb) → find k (put_token k token db).tokens ≡ some token
unfolding put_token
find-put_token_self k token db = ground (arith, find-assign k k token db.tokens)

-- What a removal leaves of the token database, for one token.
record Removed (db db' : SlpDb) (tokenid : Hash) (left : SlpToken) : Type 0 where
  token : find tokenid db'.tokens ≡ some left
  tags : db'.utxo_to_tokenid ≡ db.utxo_to_tokenid
  tagged : IsTaggedDb db'

spend_slp-Removed :
    (db : SlpDb) (o : Outpoint) (tokenid : Hash) (token : SlpToken)
    → IsTaggedDb db
    → find tokenid db.tokens ≡ some token
    → AreTagged tokenid token.utxos db.utxo_to_tokenid
    → (db' : SlpDb) × (spend_slp db o ≡ ran db') × Removed db db' tokenid (spend_utxo o token)
unfolding spend_slp
spend_slp-Removed db o tokenid token h found held =
    elim (Option-cases (find o db.utxo_to_tokenid)) [
      | inl bare ↦
          let absent =
            untagged-none o tokenid token.utxos db.utxo_to_tokenid held
              (λ e. absurd (ground (arith, e, bare))) in
          (
            db,
            rw (bare, spend_slp) refl,
            record {
              token = found ∙ ap some (sym (spend_utxo-none o token absent));
              tags = refl;
              tagged = h;
            },
          )
      | inr (k, tag) ↦
          let (w, e) = has_key-found k db.tokens (find-All _ o db.utxo_to_tokenid h tag) in
          let next = put_token k (spend_utxo o w) db in
          (
            next,
            rw (tag, e, spend_slp) refl,
            record {
              token = kept k w tag e;
              tags = unfold put_token in refl;
              tagged = put_token-IsTaggedDb k (spend_utxo o w) db h;
            },
          )
    ]
  where
    kept :
        (k : Hash) (w : SlpToken)
        → find o db.utxo_to_tokenid ≡ some k
        → find k db.tokens ≡ some w
        → find tokenid (put_token k (spend_utxo o w) db).tokens ≡ some (spend_utxo o token)
    kept k w tag e = elim (bytes_discrete k tokenid) [
      | yes same ↦
          let own : find k db.tokens ≡ some token = ap (λ j. find j db.tokens) same ∙ found in
          let this : w ≡ token = ground (arith, own, e) in
          ap (λ j. find j (put_token k (spend_utxo o w) db).tokens) (sym same)
          ∙ find-put_token_self k (spend_utxo o w) db
          ∙ ap (λ t. some (spend_utxo o t)) this
      | no other ↦
          let absent =
            untagged-none o tokenid token.utxos db.utxo_to_tokenid held
              (λ i. other (ground (arith, i, tag))) in
          find-put_token k tokenid (spend_utxo o w) db other
          ∙ found
          ∙ ap some (sym (spend_utxo-none o token absent))
    ]

-- The loop over the inputs does to the token what it is to do.
pub spend_slp_inputs-Removed :
    (os : List Outpoint) (db : SlpDb) (tokenid : Hash) (token : SlpToken)
    → IsTaggedDb db
    → find tokenid db.tokens ≡ some token
    → AreTagged tokenid token.utxos db.utxo_to_tokenid
    → (db' : SlpDb) × (spend_slp_inputs os db ≡ ran db')
      × (find tokenid db'.tokens ≡ some (spend_utxos os token))
unfolding spend_slp_inputs spend_utxos
spend_slp_inputs-Removed [] db tokenid token h found held = (db, refl, found)
spend_slp_inputs-Removed (o ∷ os) db tokenid token h found held =
    let (db₁, e₁, one) = spend_slp-Removed db o tokenid token h found held in
    let still =
      subst (AreTagged tokenid (spend_utxo o token).utxos) (sym one.tags)
        (spend_utxo-AreTagged o token tokenid db.utxo_to_tokenid held) in
    let (db₂, e₂, rest) =
      spend_slp_inputs-Removed os db₁ tokenid (spend_utxo o token) one.tagged one.token still in
    (db₂, rw e₁ e₂, rest)
