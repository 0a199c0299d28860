-- ===== src/Validator/InputLaws.antt =====
-- The inputs that `slp_inputs` (src/transaction.cpp) lists.
use cpp_slp_graph_search.Prelude.{
  ◌≤◌, ◌<◌, ◌≡◌, refl, sym, ap, ◌∙◌, subst, List, [], ◌∷◌, Option, none, some, Bool, true, false,
  arith, inl, inr, Option-cases, length, All,
}
use cpp_slp_graph_search.Prelude.Set.{contains, contains_self}
use cpp_slp_graph_search.Tx.Types.{Outpoint, Output, Transaction, outpoint_key, Outpoint-discrete}
use cpp_slp_graph_search.Tx.Outputs.{slp_outputs, spends_one_of, output_slp_amount}
use cpp_slp_graph_search.Tx.Outputs.Carried.{IsNumbered, slp_outputs-carried}
use cpp_slp_graph_search.Tx.Outputs.Reads.{HasOutputs, slp_outputs-some}
use cpp_slp_graph_search.Prelude.Map.{find-All}
use cpp_slp_graph_search.Prelude.Keys.{bytes_key}
use cpp_slp_graph_search.Validator.State.{Validator, get}
use cpp_slp_graph_search.Validator.Inputs.{kept, after_input, or_nil, slp_inputs_from, slp_inputs}

contains-kept :
    (b : Bool) (i o : Outpoint) (rest : List Outpoint)
    → contains o rest ≡ true
    → contains o (kept b i rest) ≡ true
unfolding contains
contains-kept true i o rest h = ground (arith, h)
contains-kept false i o rest h = h

kept_self :
    (b : Bool) (i : Outpoint) (rest : List Outpoint) → b ≡ true → contains i (kept b i rest) ≡ true
kept_self true i rest e = contains_self i rest
kept_self false i rest e = absurd (ground arith)

-- An input spends an output of a known transaction that carries tokens.
pub record SpendsTokens (v : Validator) (input : Outpoint) : Type 0 where
  pub prev : Transaction
  pub known : get v input.txid ≡ some prev
  pub own_id : input.txid ≡ prev.txid
  pub numbered : IsNumbered prev.txid 0 prev.outputs
  pub inside : input.vout < length prev.outputs
  pub carried : 1 ≤ output_slp_amount prev input.vout

after_input-some :
    (found : Option (List Output)) (i : Outpoint) (rest : Option (List Outpoint))
    (ins : List Outpoint)
    → after_input found i rest ≡ some ins
    → (os : List Output) × (more : List Outpoint) × (found ≡ some os)
      × (rest ≡ some more)
      × (ins ≡ kept (spends_one_of i os) i more)
after_input-some none i rest ins e = absurd (ground arith)
after_input-some (some os) i none ins e = absurd (ground arith)
after_input-some (some os) i (some more) ins e = (os, more, refl, refl, sym (ap or_nil e))

inputs_none :
    (v : Validator) (i : Outpoint) (inputs : List Outpoint)
    → get v i.txid ≡ none
    → slp_inputs_from v (i ∷ inputs) ≡ slp_inputs_from v inputs
unfolding slp_inputs_from get
inputs_none v i inputs e = rw (e, slp_inputs_from) refl

inputs_some :
    (v : Validator) (i : Outpoint) (inputs : List Outpoint) {prev : Transaction}
    → get v i.txid ≡ some prev
    → slp_inputs_from v (i ∷ inputs) ≡ after_input (slp_outputs prev) i (slp_inputs_from v inputs)
unfolding slp_inputs_from get
inputs_some v i inputs e = rw (e, slp_inputs_from) refl

in_tail :
    (i input : Outpoint) (inputs : List Outpoint)
    → ¬ (i ≡ input)
    → contains input (i ∷ inputs) ≡ true
    → contains input inputs ≡ true
unfolding contains
in_tail i input inputs other h = ground (arith, h)

slp_inputs_from-SpendsTokens :
    (v : Validator) (inputs ins : List Outpoint) (input : Outpoint)
    → slp_inputs_from v inputs ≡ some ins
    → contains input inputs ≡ true
    → SpendsTokens v input
    → contains input ins ≡ true
slp_inputs_from-SpendsTokens v [] ins input e h s = absurd (unfold contains in ground (arith, h))
slp_inputs_from-SpendsTokens v (i ∷ inputs) ins input e h s = elim (Outpoint-discrete i input) [
  | yes same ↦
      let step = inputs_some v i inputs (ap (λ o. get v o.txid) same ∙ s.known) in
      let (os, more, found, rest, shape) =
        after_input-some (slp_outputs s.prev) i _ ins (sym step ∙ e) in
      let hit =
        ap (λ o. spends_one_of o os) same
        ∙ slp_outputs-carried s.prev input os s.numbered s.own_id s.inside s.carried found in
      subst (λ o. contains o ins ≡ true) same
        (ap (contains i) shape ∙ kept_self (spends_one_of i os) i more hit)
  | no other ↦
      let later = in_tail i input inputs other h in
      elim (Option-cases (get v i.txid)) [
        | inl absent ↦
            slp_inputs_from-SpendsTokens v inputs ins input
              (sym (inputs_none v i inputs absent) ∙ e) later s
        | inr (prev, known) ↦
            let (os, more, found, rest, shape) =
              after_input-some (slp_outputs prev) i _ ins
                (sym (inputs_some v i inputs known) ∙ e) in
            ap (contains input) shape
            ∙ contains-kept (spends_one_of i os) i input more
                (slp_inputs_from-SpendsTokens v inputs more input rest later s)
      ]
]

slp_inputs_from-some :
    (v : Validator) (inputs : List Outpoint)
    → All (λ entry. HasOutputs entry.1) v.transaction_map
    → (ins : List Outpoint) × (slp_inputs_from v inputs ≡ some ins)
unfolding slp_inputs_from get
slp_inputs_from-some v [] h = ([], refl)
slp_inputs_from-some v (i ∷ inputs) h =
    let (more, e) = slp_inputs_from-some v inputs h in
    elim (Option-cases (get v i.txid)) [
      | inl absent ↦ (more, inputs_none v i inputs absent ∙ e)
      | inr (prev, known) ↦
          let (os, made) =
            slp_outputs-some prev
              (find-All (λ entry. HasOutputs entry.1) i.txid v.transaction_map h known) in
          (kept (spends_one_of i os) i more, inputs_some v i inputs known ∙ rw (made, e) refl)
    ]

-- Over transactions with the outputs that their messages refer to, `slp_inputs` returns, and it
-- lists every input of the transaction that spends an output of a known transaction to which
-- `output_slp_amount` gives tokens.
pub slp_inputs-SpendsTokens :
    (v : Validator) (tx : Transaction)
    → All (λ entry. HasOutputs entry.1) v.transaction_map
    → (ins : List Outpoint) × (slp_inputs v tx ≡ some ins)
      × ((input : Outpoint)
          → contains input tx.inputs ≡ true
          → SpendsTokens v input
          → contains input ins ≡ true)
unfolding slp_inputs
slp_inputs-SpendsTokens v tx h =
    let (ins, e) = slp_inputs_from-some v tx.inputs h in
    (ins, e, λ input i s. slp_inputs_from-SpendsTokens v tx.inputs ins input e i s)
