-- ===== src/Slp/Sizes.antt =====
-- The sizes of the fields of a script.
use cpp_slp_graph_search.Prelude.{
  ℕ, ◌≤◌, ◌<◌, List, [], ◌∷◌, arith, Bool, true, false, All, length, reverse, length-reverse, map,
}
use cpp_slp_graph_search.Prelude.Codes.{codes}
use cpp_slp_graph_search.Slp.Message.{Hash, SlpTx, invalid, genesis, mint, send}
use cpp_slp_graph_search.Slp.Pushes.{pushes, length-pushes, last_length}
use cpp_slp_graph_search.Slp.Sound.{IsMessageOf}
use cpp_slp_graph_search.Slp.Script.{amount_chunk, baton_chunk, field_chunks, IsShort}
use cpp_slp_graph_search.Slp.Fields.{length-amount_chunk}

amount_chunks-short : (ns : List ℕ) → All (λ c. length c < 256) (map amount_chunk ns)
amount_chunks-short [] = tt
amount_chunks-short (n ∷ ns) = (omega (arith, length-amount_chunk n), amount_chunks-short ns)

last_length-amounts :
    (c : List ℕ) (ns : List ℕ) → 1 ≤ length c → 1 ≤ last_length (c ∷ map amount_chunk ns)
last_length-amounts c [] h = h
last_length-amounts c (n ∷ ns) h =
    last_length-amounts (amount_chunk n) ns (omega (arith, length-amount_chunk n))

baton_chunk-short : (has : Bool) (vout : ℕ) → length (baton_chunk has vout) < 256
unfolding baton_chunk
baton_chunk-short true vout = omega arith
baton_chunk-short false vout = omega arith

-- Every chunk of a message fits a push, and there is an action, which makes the last chunk and the
-- whole long enough.
pub record IsReadable (chunks : List (List ℕ)) : Type 0 where
  pub short : All (λ c. length c < 256) chunks
  pub last : 1 ≤ last_length chunks
  pub size : 4 ≤ length (pushes chunks)

pub field_chunks-IsReadable :
    (tokenid : Hash) (t : ℕ) (tx : SlpTx)
    → IsMessageOf tokenid t tx
    → IsShort tx
    → IsReadable (field_chunks tokenid tx)
unfolding field_chunks
field_chunks-IsReadable tokenid t invalid h s = absurd h
field_chunks-IsReadable tokenid t (genesis g) h s = record {
  short = (
    omega arith,
    (
      s.0,
      (
        s.1,
        (
          s.2,
          (
            ground arith,
            (
              omega arith,
              (
                baton_chunk-short g.has_mint_baton g.mint_baton_vout,
                (omega (arith, length-amount_chunk g.qty), tt),
              ),
            ),
          ),
        ),
      ),
    ),
  );
  last = omega (arith, length-amount_chunk g.qty);
  size = omega (
    arith,
    length-pushes (codes "GENESIS") (
        g.ticker
        ∷ g.name
        ∷ g.document_uri
        ∷ g.document_hash
        ∷ (g.decimals ∷ [])
        ∷ baton_chunk g.has_mint_baton g.mint_baton_vout
        ∷ amount_chunk g.qty
        ∷ []),
  );
}
field_chunks-IsReadable tokenid t (mint m) h s = record {
  short = (
    omega arith,
    (
      omega (arith, length-reverse tokenid),
      (
        baton_chunk-short m.has_mint_baton m.mint_baton_vout,
        (omega (arith, length-amount_chunk m.qty), tt),
      ),
    ),
  );
  last = omega (arith, length-amount_chunk m.qty);
  size = omega (
    arith,
    length-pushes (codes "MINT") (
        reverse tokenid ∷ baton_chunk m.has_mint_baton m.mint_baton_vout ∷ amount_chunk m.qty ∷ []),
  );
}
field_chunks-IsReadable tokenid t (send ns) h s = record {
  short = (omega arith, (omega (arith, length-reverse tokenid), amount_chunks-short ns));
  last = last_length-amounts (reverse tokenid) ns (omega (arith, length-reverse tokenid));
  size = omega (arith, length-pushes (codes "SEND") (reverse tokenid ∷ map amount_chunk ns));
}
