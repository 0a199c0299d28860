-- ===== src/Validator/Inputs.antt =====
-- `transaction::slp_inputs` of src/transaction.cpp.
use cpp_slp_graph_search.Prelude.{List, [], ◌∷◌, Option, none, some, Bool, true, false}
use cpp_slp_graph_search.Tx.Types.{Outpoint, Output, Transaction}
use cpp_slp_graph_search.Tx.Outputs.{slp_outputs, spends_one_of}
use cpp_slp_graph_search.Validator.State.{Validator, get}

abbrev pub kept : Bool → Outpoint → List Outpoint → List Outpoint
kept true input rest = input ∷ rest
kept false input rest = rest

-- `none` is a read of `outputs` out of range in `slp_outputs`.
abbrev pub after_input :
    Option (List Output) → Outpoint → Option (List Outpoint) → Option (List Outpoint)
after_input none input rest = none
after_input (some os) input none = none
after_input (some os) input (some rest) = some (kept (spends_one_of input os) input rest)

abbrev pub or_nil : Option (List Outpoint) → List Outpoint
or_nil none = []
or_nil (some os) = os

unfoldable pub slp_inputs_from : Validator → List Outpoint → Option (List Outpoint)
unfolding get
slp_inputs_from v [] = some []
slp_inputs_from v (input ∷ inputs) =
    let rest = slp_inputs_from v inputs in
    elim (get v input.txid) [ none ↦ rest | some prev ↦ after_input (slp_outputs prev) input rest ]

unfoldable pub slp_inputs : Validator → Transaction → Option (List Outpoint)
unfolding slp_inputs_from
slp_inputs v tx = slp_inputs_from v tx.inputs
