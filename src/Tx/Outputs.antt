-- ===== src/Tx/Outputs.antt =====
-- `slp_outputs`, `output_slp_amount` and `mint_baton_outpoint` of src/transaction.cpp.
pub mod Reads
pub mod Carried
pub mod Described
use cpp_slp_graph_search.Prelude.{
  ℕ, ◌-◌, List, [], ◌∷◌, Option, none, some, ◌&&◌, ◌||◌, ltb, leb, ◌==◌, if◌then◌else◌, length,
  get_elem?, get_or, take, Bool, true, false, ite,
}
use cpp_slp_graph_search.Prelude.Keys.{bytes_discrete}
use cpp_slp_graph_search.Slp.Message.{SlpTx, invalid, genesis, mint, send}
use cpp_slp_graph_search.Tx.Types.{Outpoint, Output, Transaction}

-- A read of `outputs` out of range is undefined in the program and `none` here.
pair_of : Option Output → Option Output → Option (List Output)
pair_of none b = none
pair_of (some a) none = none
pair_of (some a) (some b) = some (a ∷ b ∷ [])

single : Option Output → Option (List Output)
single none = none
single (some a) = some (a ∷ [])

-- The quantity's output, and the baton's where it has one.
quantity_outputs : List Output → ℕ → Option (List Output)
unfolding pair_of single
quantity_outputs outputs vout =
    if leb (length outputs) vout || vout == 0
    then single (get_elem? outputs 1)
    else pair_of (get_elem? outputs 1) (get_elem? outputs vout)

-- `outputs.size() - 1` wraps round where there are no outputs, and the range then starts behind
-- the end.
send_outputs : List Output → List ℕ → Option (List Output)
send_outputs [] amounts = none
send_outputs (o ∷ outputs) amounts =
    if leb (length outputs) (length amounts)
    then some outputs
    else some (take (length amounts) outputs)

slp_outputs_of : List Output → SlpTx → Option (List Output)
unfolding send_outputs quantity_outputs
slp_outputs_of outputs invalid = some []
slp_outputs_of outputs (genesis g) = quantity_outputs outputs g.mint_baton_vout
slp_outputs_of outputs (mint m) = quantity_outputs outputs m.mint_baton_vout
slp_outputs_of outputs (send amounts) = send_outputs outputs amounts

unfoldable pub slp_outputs : Transaction → Option (List Output)
unfolding slp_outputs_of
slp_outputs tx = slp_outputs_of tx.outputs tx.slp.slp_tx

unfoldable pub slp_amount_of : SlpTx → ℕ → ℕ
slp_amount_of invalid vout = 0
slp_amount_of (genesis g) vout = if vout == 1 then g.qty else 0
slp_amount_of (mint m) vout = if vout == 1 then m.qty else 0
slp_amount_of (send amounts) vout =
    if ltb 0 vout && ltb (vout - 1) (length amounts) then get_or amounts (vout - 1) 0 else 0

unfoldable pub output_slp_amount : Transaction → ℕ → ℕ
unfolding slp_amount_of
output_slp_amount tx vout = slp_amount_of tx.slp.slp_tx vout

baton_vout : ℕ → SlpTx → ℕ
baton_vout n invalid = 0
baton_vout n (genesis g) = if ltb g.mint_baton_vout n then g.mint_baton_vout else 0
baton_vout n (mint m) = if ltb m.mint_baton_vout n then m.mint_baton_vout else 0
baton_vout n (send amounts) = 0

-- Output number 0 stands for no baton.
unfoldable pub mint_baton_outpoint : Transaction → Outpoint
unfolding baton_vout
mint_baton_outpoint tx = record {
  txid = tx.txid;
  vout = baton_vout (length tx.outputs) tx.slp.slp_tx;
}

-- The loop of `slp_inputs` over the outputs of the transaction before.
unfoldable pub spends_one_of : Outpoint → List Output → Bool
spends_one_of input [] = false
spends_one_of input (o ∷ os) =
    if o.prev_out_idx == input.vout && ite (bytes_discrete o.prev_tx_id input.txid) true false
    then true
    else spends_one_of input os
