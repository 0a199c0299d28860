-- ===== src/Tx/Outputs/Carried.antt =====
-- The outputs that carry tokens, among `slp_outputs` (src/transaction.cpp).
use cpp_slp_graph_search.Prelude.{
  ℕ, zero, suc, ◌+◌, ◌-◌, ◌<◌, ◌≤◌, ◌≡◌, sym, ap, ◌∙◌, subst, List, [], ◌∷◌, Option, none, some,
  Bool, true, false, arith, if◌then◌else◌, length, get_elem?, leb, ◌==◌, ◌||◌, take, length-take,
}
use cpp_slp_graph_search.Slp.Message.{Hash, SlpTx, invalid, genesis, mint, send}
use cpp_slp_graph_search.Tx.Types.{Outpoint, Output, Transaction}
use cpp_slp_graph_search.Tx.Outputs.{
  pair_of, single, quantity_outputs, send_outputs, slp_outputs_of, slp_outputs, slp_amount_of,
  output_slp_amount, spends_one_of,
}

-- Outputs with the transaction's id, numbered from `i` on, as `hydrate` makes them.
abbrev pub IsNumbered : Hash → ℕ → List Output → Type 0
IsNumbered txid i [] = Unit
IsNumbered txid i (o ∷ os) =
    ((o.prev_tx_id ≡ txid) × (o.prev_out_idx ≡ i)) × IsNumbered txid (i + 1) os

IsNumbered-take :
    (txid : Hash) (i n : ℕ) (os : List Output)
    → IsNumbered txid i os
    → IsNumbered txid i (take n os)
IsNumbered-take txid i zero os h = tt
IsNumbered-take txid i (suc n) [] h = tt
IsNumbered-take txid i (suc n) (o ∷ os) (h, hs) = (h, IsNumbered-take txid (i + 1) n os hs)

spends_first :
    (input : Outpoint) (o : Output) (os : List Output)
    → o.prev_tx_id ≡ input.txid
    → o.prev_out_idx ≡ input.vout
    → spends_one_of input (o ∷ os) ≡ true
unfolding spends_one_of
spends_first input o os e e' = ground (arith, e, e')

spends_later :
    (input : Outpoint) (o : Output) (os : List Output)
    → spends_one_of input os ≡ true
    → spends_one_of input (o ∷ os) ≡ true
unfolding spends_one_of
spends_later input o os e = ground (arith, e)

spends_numbered :
    (input : Outpoint) (i k : ℕ) (os : List Output)
    → IsNumbered input.txid i os
    → input.vout ≡ i + k
    → k < length os
    → spends_one_of input os ≡ true
spends_numbered input i k [] h e l = absurd (omega arith)
spends_numbered input i zero (o ∷ os) h e l =
    spends_first input o os h.0.0 (omega (arith, h.0.1, e))
spends_numbered input i (suc k) (o ∷ os) h e l =
    spends_later input o os
      (spends_numbered input (i + 1) k os h.1 (omega (arith, e)) (omega (arith, l)))

abbrev given : Option (List Output) → List Output
given none = []
given (some os) = os

first_of_pair :
    (b : Output) (c : Option Output) (os : List Output)
    → pair_of (some b) c ≡ some os
    → (tail : List Output) × (os ≡ b ∷ tail)
unfolding pair_of
first_of_pair b none os e = absurd (ground arith)
first_of_pair b (some c) os e = (c ∷ [], sym (ap given e))

first_of_quantity :
    (a b : Output) (rest os : List Output) (vout : ℕ)
    → quantity_outputs (a ∷ b ∷ rest) vout ≡ some os
    → (tail : List Output) × (os ≡ b ∷ tail)
unfolding quantity_outputs pair_of single
first_of_quantity a b rest os vout e = if_alone (leb (length (a ∷ b ∷ rest)) vout || vout == 0) e
  where
    if_alone :
        (t : Bool)
        → (if t then single (some b) else pair_of (some b) (get_elem? (a ∷ b ∷ rest) vout))
          ≡ some os
        → (tail : List Output) × (os ≡ b ∷ tail)
    if_alone true q = ([], sym (ap given q))
    if_alone false q = first_of_pair b (get_elem? (a ∷ b ∷ rest) vout) os q

-- A quantity of tokens is at output 1.
quantity_carried :
    (txid : Hash) (input : Outpoint) (outputs os : List Output) (vout : ℕ)
    → IsNumbered txid 0 outputs
    → input.txid ≡ txid
    → input.vout ≡ 1
    → input.vout < length outputs
    → quantity_outputs outputs vout ≡ some os
    → spends_one_of input os ≡ true
quantity_carried txid input [] os vout h e e' l q = absurd (omega arith)
quantity_carried txid input (a ∷ []) os vout h e e' l q = absurd (omega arith)
quantity_carried txid input (a ∷ b ∷ rest) os vout h e e' l q =
    let (tail, shape) = first_of_quantity a b rest os vout q in
    subst (λ l. spends_one_of input l ≡ true) (sym shape)
      (spends_first input b tail (h.1.0.0 ∙ sym e) (omega (arith, h.1.0.1, e')))

-- The amounts of a SEND are at the outputs from 1 on.
send_carried :
    (txid : Hash) (input : Outpoint) (outputs os : List Output) (amounts : List ℕ)
    → IsNumbered txid 0 outputs
    → input.txid ≡ txid
    → 1 ≤ input.vout
    → input.vout < length outputs
    → input.vout ≤ length amounts
    → send_outputs outputs amounts ≡ some os
    → spends_one_of input os ≡ true
unfolding send_outputs
send_carried txid input [] os amounts h e l m n q = absurd (omega arith)
send_carried txid input (o ∷ outputs) os amounts h e l m n q =
    if_all (leb (length outputs) (length amounts)) q
  where
    numbered : IsNumbered input.txid 1 outputs
    numbered = subst (λ t. IsNumbered t 1 outputs) (sym e) h.1

    if_all :
        (t : Bool)
        → (if t then some outputs else some (take (length amounts) outputs)) ≡ some os
        → spends_one_of input os ≡ true
    if_all true r =
        subst (λ l. spends_one_of input l ≡ true) (ap given r)
          (spends_numbered input 1 (input.vout - 1) outputs numbered (omega (arith, l))
            (omega (arith, l, m)))
    if_all false r =
        subst (λ l. spends_one_of input l ≡ true) (ap given r)
          (spends_numbered input 1 (input.vout - 1) (take (length amounts) outputs)
            (IsNumbered-take input.txid 1 (length amounts) outputs numbered) (omega (arith, l))
            (omega (arith, l, m, n, length-take (length amounts) outputs)))

slp_outputs_of-carried :
    (txid : Hash) (input : Outpoint) (outputs os : List Output) (message : SlpTx)
    → IsNumbered txid 0 outputs
    → input.txid ≡ txid
    → input.vout < length outputs
    → 1 ≤ slp_amount_of message input.vout
    → slp_outputs_of outputs message ≡ some os
    → spends_one_of input os ≡ true
unfolding slp_outputs_of slp_amount_of
slp_outputs_of-carried txid input outputs os invalid h e l a q = absurd (omega (arith, a))
slp_outputs_of-carried txid input outputs os (genesis g) h e l a q =
    quantity_carried txid input outputs os g.mint_baton_vout h e (ground (arith, a)) l q
slp_outputs_of-carried txid input outputs os (mint m) h e l a q =
    quantity_carried txid input outputs os m.mint_baton_vout h e (ground (arith, a)) l q
slp_outputs_of-carried txid input outputs os (send amounts) h e l a q =
    send_carried txid input outputs os amounts h e (ground (arith, a)) l (ground (arith, a)) q

-- An output of a transaction that `output_slp_amount` gives tokens is among its SLP outputs.
pub slp_outputs-carried :
    (prev : Transaction) (input : Outpoint) (os : List Output)
    → IsNumbered prev.txid 0 prev.outputs
    → input.txid ≡ prev.txid
    → input.vout < length prev.outputs
    → 1 ≤ output_slp_amount prev input.vout
    → slp_outputs prev ≡ some os
    → spends_one_of input os ≡ true
unfolding slp_outputs output_slp_amount
slp_outputs-carried prev input os h e l a q =
    slp_outputs_of-carried prev.txid input prev.outputs os prev.slp.slp_tx h e l a q
