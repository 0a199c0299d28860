-- ===== src/Slp/Fields.antt =====
-- The fields of a script, read by the parts of `slp_transaction::hydrate`.
use mathlib.Core.List.{reverse-reverse}
use cpp_slp_graph_search.Prelude.{
  ℕ, ◌≡◌, refl, List, [], ◌∷◌, arith, Bool, true, false, some, All, length, reverse, length-reverse,
  map, ◌∙◌,
}
use cpp_slp_graph_search.Util.Bytes.{le, le_bytes, length-le_bytes, le-le_bytes}
use cpp_slp_graph_search.Slp.Message.{Hash, Genesis, Mint}
use cpp_slp_graph_search.Slp.Parse.{
  string_to_number, parse_token_type, parse_baton, parse_amount, parse_amounts, parse_tokenid,
  parse_genesis, parse_mint, parse_send,
}
use cpp_slp_graph_search.Slp.Sound.{IsAmount, IsBaton, IsGenesis, IsMint, IsSend, IsTokenType}
use cpp_slp_graph_search.Slp.Script.{amount_chunk, baton_chunk}

parse_amount-amount_chunk : (n : ℕ) → IsAmount n → parse_amount (amount_chunk n) ≡ some n
unfolding parse_amount amount_chunk
parse_amount-amount_chunk n h = ground (
  arith,
  length-reverse (le_bytes 8 n),
  length-le_bytes 8 n,
  reverse-reverse (le_bytes 8 n),
  le-le_bytes 8 n,
)

pub length-amount_chunk : (n : ℕ) → length (amount_chunk n) ≡ 8
unfolding amount_chunk
length-amount_chunk n = length-reverse (le_bytes 8 n) ∙ length-le_bytes 8 n

parse_amounts-map : (ns : List ℕ) → All IsAmount ns → parse_amounts (map amount_chunk ns) ≡ some ns
unfolding parse_amounts
parse_amounts-map [] h = refl
parse_amounts-map (n ∷ ns) (hn, h) =
    rw (parse_amount-amount_chunk n hn, parse_amounts-map ns h) refl

parse_baton-baton_chunk :
    (has : Bool) (vout : ℕ)
    → IsBaton has vout
    → parse_baton (baton_chunk has vout) ≡ some (has, vout)
unfolding parse_baton baton_chunk
parse_baton-baton_chunk true vout h = ground arith
parse_baton-baton_chunk false vout h = ground arith

parse_tokenid-reverse : (t : Hash) → length t ≡ 32 → parse_tokenid (reverse t) ≡ some t
unfolding parse_tokenid
parse_tokenid-reverse t h = ground (arith, length-reverse t, reverse-reverse t)

pub parse_send-chunks :
    (t : Hash) (ns : List ℕ)
    → length t ≡ 32
    → IsSend ns
    → parse_send (reverse t ∷ map amount_chunk ns) ≡ some (t, ns)
unfolding parse_send
parse_send-chunks t ns h s = rw (parse_tokenid-reverse t h, parse_amounts-map ns s.2) (ground arith)

pub parse_mint-chunks :
    (t : ℕ) (tokenid : Hash) (m : Mint)
    → length tokenid ≡ 32
    → IsMint t m
    → parse_mint t
        (reverse tokenid ∷ baton_chunk m.has_mint_baton m.mint_baton_vout ∷ amount_chunk m.qty ∷ [])
      ≡ some (tokenid, m)
unfolding parse_mint
parse_mint-chunks t tokenid m h s =
    rw
      (
        parse_tokenid-reverse tokenid h,
        parse_baton-baton_chunk m.has_mint_baton m.mint_baton_vout s.1,
        parse_amount-amount_chunk m.qty s.2,
      )
      (ground arith)

pub parse_genesis-chunks :
    (t : ℕ) (g : Genesis)
    → IsGenesis t g
    → parse_genesis t (
        g.ticker
        ∷ g.name
        ∷ g.document_uri
        ∷ g.document_hash
        ∷ (g.decimals ∷ [])
        ∷ baton_chunk g.has_mint_baton g.mint_baton_vout
        ∷ amount_chunk g.qty
        ∷ [])
      ≡ some g
unfolding parse_genesis
parse_genesis-chunks t g s =
    rw
      (
        parse_baton-baton_chunk g.has_mint_baton g.mint_baton_vout s.2,
        parse_amount-amount_chunk g.qty s.3,
      )
      (unfold string_to_number le in ground arith)

pub parse_token_type-single : (t : ℕ) → IsTokenType t → parse_token_type (t ∷ []) ≡ some t
unfolding parse_token_type string_to_number le
parse_token_type-single t h = ground arith
