-- ===== src/Bch/Utxos.antt =====
-- The outputs that `process_block` keeps in `utxodb`.
use cpp_slp_graph_search.Prelude.{
  ◌≡◌, refl, sym, ap, ◌∙◌, List, [], ◌∷◌, Option, none, some, Bool, true, false, arith, inl, inr,
  Bool-cases, Option-cases, ite, if◌then◌else◌,
}
use cpp_slp_graph_search.Prelude.Map.{Map, find, erase, find-erase, or_else}
use cpp_slp_graph_search.Prelude.Set.{contains}
use cpp_slp_graph_search.Tx.Types.{
  Outpoint, Output, Outpoint-discrete, outpoint_of, outpoint_key, is_op_return,
}
use cpp_slp_graph_search.UtxoDb.Store.{ScriptIndex, remove_from_script, UtxoDb, insert_output}
use cpp_slp_graph_search.UtxoDb.Index.{find-insert_output}
use cpp_slp_graph_search.Bch.Process.{
  removed_outputs, spend_confirmed, spend_mempool, add_output, add_outputs, spend_inputs, save,
  raise_height, added_outpoints, process_utxos,
}

-- The output that a block makes at an outpoint.
unfoldable pub created : List Output → Outpoint → Option Output
created [] o = none
created (m ∷ ms) o =
    if is_op_return m
    then created ms o
    else or_else (ite (Outpoint-discrete (outpoint_of m) o) (some m) none) (created ms o)

-- A set of unspent outputs, and what a block makes of it.
abbrev pub Utxos : Type 0
Utxos = Outpoint → Option Output

unfoldable pub after_block : List Output → List Outpoint → Utxos → Utxos
unfolding created
after_block outputs inputs utxos o =
    if contains o inputs then none else or_else (utxos o) (created outputs o)

pub add_outputs-data :
    (m : Output) (ms : List Output) (u : UtxoDb)
    → is_op_return m ≡ true
    → add_outputs (m ∷ ms) u ≡ add_outputs ms u
unfolding add_outputs
add_outputs-data m ms u e = ap (λ b. add_outputs ms (if b then u else add_output u m)) e

pub add_outputs-value :
    (m : Output) (ms : List Output) (u : UtxoDb)
    → is_op_return m ≡ false
    → add_outputs (m ∷ ms) u ≡ add_outputs ms (add_output u m)
unfolding add_outputs
add_outputs-value m ms u e = ap (λ b. add_outputs ms (if b then u else add_output u m)) e

pub created-data :
    (m : Output) (ms : List Output) (o : Outpoint)
    → is_op_return m ≡ true
    → created (m ∷ ms) o ≡ created ms o
unfolding created
created-data m ms o e = ground (arith, e)

pub created-value :
    (m : Output) (ms : List Output) (o : Outpoint)
    → is_op_return m ≡ false
    → created (m ∷ ms) o
      ≡ or_else (ite (Outpoint-discrete (outpoint_of m) o) (some m) none) (created ms o)
unfolding created
created-value m ms o e = ground (arith, e)

pub add_output-outpoint_map :
    (u : UtxoDb) (m : Output) → (add_output u m).outpoint_map ≡ insert_output m u.outpoint_map
unfolding add_output
add_output-outpoint_map u m = refl

add_outputs-outpoint_map :
    (ms : List Output) (u : UtxoDb) (o : Outpoint)
    → find o (add_outputs ms u).outpoint_map ≡ or_else (find o u.outpoint_map) (created ms o)
unfolding add_outputs created
add_outputs-outpoint_map [] u o = ground arith
add_outputs-outpoint_map (m ∷ ms) u o =
    let find_in = λ (v : UtxoDb). find o v.outpoint_map in
    let kept = add_outputs-outpoint_map ms u o in
    let made = add_outputs-outpoint_map ms (add_output u m) o in
    let put = ap (find o) (add_output-outpoint_map u m) ∙ find-insert_output o m u.outpoint_map in
    elim (Bool-cases (is_op_return m)) [
      | inl is_data ↦
          ap find_in (add_outputs-data m ms u is_data)
          ∙ kept
          ∙ ap (or_else (find o u.outpoint_map)) (sym (created-data m ms o is_data))
      | inr is_value ↦
          ap find_in (add_outputs-value m ms u is_value)
          ∙ made
          ∙ ground (arith, put, created-value m ms o is_value)
    ]

-- What a step does to the confirmed outputs.
pub record Confirmed (v : UtxoDb) (map : Map Outpoint Output) (index : ScriptIndex) : Type 0 where
  pub outputs : v.outpoint_map ≡ map
  pub scripts : v.scriptpubkey_to_output ≡ index

pub spend_mempool-Confirmed :
    (u : UtxoDb) (m : Outpoint)
    → Confirmed (spend_mempool u m) u.outpoint_map u.scriptpubkey_to_output
unfolding spend_mempool
spend_mempool-Confirmed u m = elim (Option-cases (find m u.mempool_outpoint_map)) [
  | inl e ↦ rw (e, spend_mempool) record { outputs = refl; scripts = refl }
  | inr (x, e) ↦ rw (e, spend_mempool) record { outputs = refl; scripts = refl }
]

erase_absent :
    (m : Outpoint) (map : List (Outpoint × Output)) → find m map ≡ none → erase m map ≡ map
unfolding find erase
erase_absent m [] e = refl
erase_absent m ((k, x) ∷ map) e = ground (arith, erase_absent m map)

pub spend_confirmed-none :
    (u : UtxoDb) (m : Outpoint)
    → find m u.outpoint_map ≡ none
    → Confirmed (spend_confirmed u m) u.outpoint_map u.scriptpubkey_to_output
unfolding spend_confirmed
spend_confirmed-none u m e = rw (e, spend_confirmed) record { outputs = refl; scripts = refl }

pub spend_confirmed-some :
    (u : UtxoDb) (m : Outpoint) {x : Output}
    → find m u.outpoint_map ≡ some x
    → Confirmed
        (spend_confirmed u m)
        (erase m u.outpoint_map)
        (remove_from_script x.scriptpubkey x u.scriptpubkey_to_output)
unfolding spend_confirmed erase remove_from_script
spend_confirmed-some u m e = rw (e, spend_confirmed) record { outputs = refl; scripts = refl }

spend_confirmed-outpoint_map :
    (u : UtxoDb) (m : Outpoint) → (spend_confirmed u m).outpoint_map ≡ erase m u.outpoint_map
spend_confirmed-outpoint_map u m = elim (Option-cases (find m u.outpoint_map)) [
  | inl e ↦ (spend_confirmed-none u m e).outputs ∙ sym (erase_absent m u.outpoint_map e)
  | inr (x, e) ↦ (spend_confirmed-some u m e).outputs
]

spend_inputs-outpoint_map :
    (ms : List Outpoint) (u : UtxoDb) (o : Outpoint)
    → find o (spend_inputs ms u).outpoint_map
      ≡ (if contains o ms then none else find o u.outpoint_map)
unfolding spend_inputs contains
spend_inputs-outpoint_map [] u o = refl
spend_inputs-outpoint_map (m ∷ ms) u o =
    let later = spend_inputs-outpoint_map ms (spend_mempool (spend_confirmed u m) m) o in
    let step =
      (spend_mempool-Confirmed (spend_confirmed u m) m).outputs
      ∙ spend_confirmed-outpoint_map u m in
    let gone = ap (find o) step ∙ find-erase m o u.outpoint_map in rw later (ground (arith, gone))

pub save-Confirmed :
    (b : Bool) (added : List Outpoint) (removed : List Output) (u : UtxoDb)
    → Confirmed (save b added removed u) u.outpoint_map u.scriptpubkey_to_output
unfolding save
save-Confirmed true added removed u = record { outputs = refl; scripts = refl }
save-Confirmed false added removed u = record { outputs = refl; scripts = refl }

pub raise_height-Confirmed :
    (u : UtxoDb) → Confirmed (raise_height u) u.outpoint_map u.scriptpubkey_to_output
unfolding raise_height
raise_height-Confirmed u = record { outputs = refl; scripts = refl }

pub process_utxos-after_block :
    (outputs : List Output) (inputs : List Outpoint) (save_rollback : Bool) (u : UtxoDb)
    (o : Outpoint)
    → find o (process_utxos outputs inputs save_rollback u).outpoint_map
      ≡ after_block outputs inputs (λ k. find k u.outpoint_map) o
unfolding process_utxos after_block
process_utxos-after_block outputs inputs save_rollback u o =
    let raised = raise_height u in
    let added = add_outputs outputs raised in
    let saved =
      save-Confirmed save_rollback (added_outpoints outputs) (removed_outputs inputs added)
        (spend_inputs inputs added) in
    let made = add_outputs-outpoint_map outputs raised o in
    ap (find o) saved.outputs
    ∙ spend_inputs-outpoint_map inputs added o
    ∙ ap (λ x. if contains o inputs then none else x)
        (made
          ∙ ap (λ map. or_else (find o map) (created outputs o)) (raise_height-Confirmed u).outputs)
