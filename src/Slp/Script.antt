-- ===== src/Slp/Script.antt =====
-- The script that carries a message, after the rules of SLP token type 1 and NFT1.
use cpp_slp_graph_search.Prelude.{ℕ, ◌<◌, List, [], ◌∷◌, Bool, true, false, length, reverse, map}
use cpp_slp_graph_search.Prelude.Codes.{codes}
use cpp_slp_graph_search.Util.Bytes.{le_bytes}
use cpp_slp_graph_search.Slp.Message.{Hash, SlpTx, invalid, genesis, mint, send, SlpTransaction}
use cpp_slp_graph_search.Slp.Pushes.{pushes}

-- The chunks of a message.
unfoldable pub amount_chunk : ℕ → List ℕ
amount_chunk n = reverse (le_bytes 8 n)

unfoldable pub baton_chunk : Bool → ℕ → List ℕ
baton_chunk true vout = vout ∷ []
baton_chunk false vout = []

unfoldable pub field_chunks : Hash → SlpTx → List (List ℕ)
unfolding baton_chunk amount_chunk
field_chunks tokenid invalid = []
field_chunks tokenid (genesis g) =
    codes "GENESIS"
    ∷ g.ticker
    ∷ g.name
    ∷ g.document_uri
    ∷ g.document_hash
    ∷ (g.decimals ∷ [])
    ∷ baton_chunk g.has_mint_baton g.mint_baton_vout
    ∷ amount_chunk g.qty
    ∷ []
field_chunks tokenid (mint m) =
    codes "MINT"
    ∷ reverse tokenid
    ∷ baton_chunk m.has_mint_baton m.mint_baton_vout
    ∷ amount_chunk m.qty
    ∷ []
field_chunks tokenid (send amounts) = codes "SEND" ∷ reverse tokenid ∷ map amount_chunk amounts

abbrev pub lokad : List ℕ
lokad = b'S' ∷ b'L' ∷ b'P' ∷ 0 ∷ []

-- The script: OP_RETURN and the pushes.
unfoldable pub script_of : SlpTransaction → List ℕ
unfolding pushes field_chunks
script_of slp = 0x6A ∷ pushes (lokad ∷ (slp.token_type ∷ []) ∷ field_chunks slp.tokenid slp.slp_tx)

-- The texts of a GENESIS fit a push of at most 255 bytes.
abbrev pub IsShort : SlpTx → Type 0
IsShort (genesis g) =
    (length g.ticker < 256) × (length g.name < 256) × (length g.document_uri < 256)
IsShort invalid = Unit
IsShort (mint m) = Unit
IsShort (send a) = Unit
