-- ===== src/Tx/Outputs/Reads.antt =====
-- The reads of `slp_outputs` (src/transaction.cpp).
use cpp_slp_graph_search.Prelude.{
  ℕ, zero, suc, ◌<◌, ◌≤◌, ◌⊎◌, ◌≡◌, refl, List, [], ◌∷◌, Option, some, Bool, true, false, arith,
  inl, inr, Bool-cases, if◌then◌else◌, length, get_elem?, leb, ◌==◌, ◌||◌, take,
}
use cpp_slp_graph_search.Slp.Message.{SlpTx, invalid, genesis, mint, send, is_invalid}
use cpp_slp_graph_search.Tx.Types.{Output, Transaction}
use cpp_slp_graph_search.Tx.Outputs.{
  pair_of, single, quantity_outputs, send_outputs, slp_outputs_of, slp_outputs,
}

-- No SLP message, or the two outputs that a message's outputs start with.
abbrev pub HasOutputs : Transaction → Type 0
HasOutputs tx = (is_invalid tx.slp.slp_tx ≡ true) ⊎ (2 ≤ length tx.outputs)

get_elem?-some :
    (i : ℕ) (os : List Output) → i < length os → (o : Output) × (get_elem? os i ≡ some o)
get_elem?-some i [] h = absurd (omega arith)
get_elem?-some zero (o ∷ os) h = (o, refl)
get_elem?-some (suc i) (o ∷ os) h = get_elem?-some i os (omega arith)

abbrev Reads : Option (List Output) → Type 0
Reads o = (os : List Output) × (o ≡ some os)

quantity_outputs-Reads :
    (outputs : List Output) (vout : ℕ) → 2 ≤ length outputs → Reads (quantity_outputs outputs vout)
unfolding quantity_outputs pair_of single
quantity_outputs-Reads outputs vout h =
    let (a, e) = get_elem?-some 1 outputs (omega arith) in
    elim (Bool-cases (leb (length outputs) vout || vout == 0)) [
      | inl alone ↦ (a ∷ [], rw (alone, e) refl)
      | inr both ↦
          let (c, e') = get_elem?-some vout outputs (ground (arith, both)) in
          (a ∷ c ∷ [], rw (both, e, e') refl)
    ]

send_outputs-Reads :
    (outputs : List Output) (amounts : List ℕ)
    → 2 ≤ length outputs
    → Reads (send_outputs outputs amounts)
unfolding send_outputs
send_outputs-Reads [] amounts h = absurd (omega arith)
send_outputs-Reads (o ∷ outputs) amounts h = if_all (leb (length outputs) (length amounts))
  where
    if_all : (b : Bool) → Reads (if b then some outputs else some (take (length amounts) outputs))
    if_all true = (outputs, refl)
    if_all false = (take (length amounts) outputs, refl)

slp_outputs_of-Reads :
    (outputs : List Output) (msg : SlpTx)
    → (is_invalid msg ≡ true) ⊎ (2 ≤ length outputs)
    → Reads (slp_outputs_of outputs msg)
unfolding slp_outputs_of
slp_outputs_of-Reads outputs invalid h = ([], refl)
slp_outputs_of-Reads outputs (genesis g) (inl e) = absurd (ground arith)
slp_outputs_of-Reads outputs (genesis g) (inr h) =
    quantity_outputs-Reads outputs g.mint_baton_vout h
slp_outputs_of-Reads outputs (mint m) (inl e) = absurd (ground arith)
slp_outputs_of-Reads outputs (mint m) (inr h) = quantity_outputs-Reads outputs m.mint_baton_vout h
slp_outputs_of-Reads outputs (send amounts) (inl e) = absurd (ground arith)
slp_outputs_of-Reads outputs (send amounts) (inr h) = send_outputs-Reads outputs amounts h

pub slp_outputs-some :
    (tx : Transaction) → HasOutputs tx → (os : List Output) × (slp_outputs tx ≡ some os)
unfolding slp_outputs
slp_outputs-some tx h = slp_outputs_of-Reads tx.outputs tx.slp.slp_tx h
