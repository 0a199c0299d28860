-- ===== src/Bch/Lookups.antt =====
-- What the loops of `bch::process_mempool_tx` (src/bch.cpp) leave for a lookup of an outpoint.
use cpp_slp_graph_search.Prelude.{
  ◌≡◌, refl, sym, ap, ◌∙◌, subst, List, [], ◌∷◌, Option, none, some, Bool, true, false, not, ◌&&◌,
  ◌||◌, arith, inl, inr, Bool-cases, Option-cases, ite, if◌then◌else◌,
}
use cpp_slp_graph_search.Prelude.Map.{is_some, find, or_else}
use cpp_slp_graph_search.Prelude.Set.{contains, add}
use cpp_slp_graph_search.Tx.Types.{
  Outpoint, Output, Outpoint-discrete, outpoint_of, outpoint_key, is_op_return,
}
use cpp_slp_graph_search.UtxoDb.Store.{remove_from_script, UtxoDb}
use cpp_slp_graph_search.UtxoDb.Index.{find-insert_output}
use cpp_slp_graph_search.Bch.Process.{
  add_mempool_output, add_mempool_outputs, use_input, use_inputs,
}
use cpp_slp_graph_search.Bch.Utxos.{created, created-data, created-value}

-- What a lookup of an outpoint reads of the state.
pub record Looks (u v : UtxoDb) (o : Outpoint) (mempool : Option Output) (spent : Bool)
    : Type 0 where
  pub confirmed : v.outpoint_map ≡ u.outpoint_map
  pub unconfirmed : find o v.mempool_outpoint_map ≡ mempool
  pub marked : contains o v.mempool_spent_confirmed_outpoints ≡ spent

add_mempool_outputs-data :
    (m : Output) (ms : List Output) (u : UtxoDb)
    → is_op_return m ≡ true
    → add_mempool_outputs (m ∷ ms) u ≡ add_mempool_outputs ms u
unfolding add_mempool_outputs
add_mempool_outputs-data m ms u e =
    ap (λ b. add_mempool_outputs ms (if b then u else add_mempool_output u m)) e

add_mempool_outputs-value :
    (m : Output) (ms : List Output) (u : UtxoDb)
    → is_op_return m ≡ false
    → add_mempool_outputs (m ∷ ms) u ≡ add_mempool_outputs ms (add_mempool_output u m)
unfolding add_mempool_outputs
add_mempool_outputs-value m ms u e =
    ap (λ b. add_mempool_outputs ms (if b then u else add_mempool_output u m)) e

add_mempool_output-Looks :
    (m : Output) (u : UtxoDb) (o : Outpoint)
    → Looks u
        (add_mempool_output u m)
        o
        (or_else
          (find o u.mempool_outpoint_map)
          (ite (Outpoint-discrete (outpoint_of m) o) (some m) none))
        (contains o u.mempool_spent_confirmed_outpoints)
unfolding add_mempool_output
add_mempool_output-Looks m u o = record {
  confirmed = refl;
  unconfirmed = find-insert_output o m u.mempool_outpoint_map;
  marked = refl;
}

pub add_mempool_outputs-Looks :
    (ms : List Output) (u : UtxoDb) (o : Outpoint)
    → Looks u
        (add_mempool_outputs ms u)
        o
        (or_else (find o u.mempool_outpoint_map) (created ms o))
        (contains o u.mempool_spent_confirmed_outpoints)
unfolding add_mempool_outputs created
add_mempool_outputs-Looks [] u o = record {
  confirmed = refl;
  unconfirmed = ground arith;
  marked = refl;
}
add_mempool_outputs-Looks (m ∷ ms) u o =
    let kept = add_mempool_outputs-Looks ms u o in
    let made = add_mempool_outputs-Looks ms (add_mempool_output u m) o in
    let put = add_mempool_output-Looks m u o in
    elim (Bool-cases (is_op_return m)) [
      | inl is_data ↦
          let same = add_mempool_outputs-data m ms u is_data in
          record {
            confirmed = ap (λ v. v.outpoint_map) same ∙ kept.confirmed;
            unconfirmed =
                ap (λ v. find o v.mempool_outpoint_map) same
                ∙ kept.unconfirmed
                ∙ ap (or_else (find o u.mempool_outpoint_map)) (sym (created-data m ms o is_data));
            marked = ap (λ v. contains o v.mempool_spent_confirmed_outpoints) same ∙ kept.marked;
          }
      | inr is_value ↦
          let same = add_mempool_outputs-value m ms u is_value in
          let first = put.unconfirmed in
          let rest = created-value m ms o is_value in
          record {
            confirmed = ap (λ v. v.outpoint_map) same ∙ made.confirmed ∙ put.confirmed;
            unconfirmed =
                ap (λ v. find o v.mempool_outpoint_map) same
                ∙ made.unconfirmed
                ∙ ground (arith, first, rest);
            marked =
                ap (λ v. contains o v.mempool_spent_confirmed_outpoints) same
                ∙ made.marked
                ∙ put.marked;
          }
    ]

contains-add :
    (o m : Outpoint) (s : List Outpoint)
    → contains o (add m s) ≡ (contains o (m ∷ []) || contains o s)
unfolding contains add
contains-add o m s = elim (Outpoint-discrete m o) [
  | yes e ↦ let same = ap (λ k. contains k s) e in ground (arith, same)
  | no other ↦ ground arith
]

-- Whether a lookup of an outpoint is to find it spent.
abbrev pub spent_by : List Outpoint → Bool → Option Output → Outpoint → Bool
spent_by ms before pool o = before || (contains o ms && not (is_some pool))

use_input-none :
    (m : Outpoint) (u : UtxoDb)
    → find m u.mempool_outpoint_map ≡ none
    → use_input u m
      ≡ record u { mempool_spent_confirmed_outpoints = add m u.mempool_spent_confirmed_outpoints }
unfolding use_input
use_input-none m u e = rw (e, use_input) refl

use_input-some :
    (m : Outpoint) (u : UtxoDb) {x : Output}
    → find m u.mempool_outpoint_map ≡ some x
    → use_input u m ≡ record u {
      mempool_scriptpubkey_to_output =
          remove_from_script x.scriptpubkey x u.mempool_scriptpubkey_to_output;
    }
unfolding use_input remove_from_script
use_input-some m u e = rw (e, use_input) refl

one_spent :
    (m o : Outpoint) (u : UtxoDb)
    → find m u.mempool_outpoint_map ≡ none
    → contains o (add m u.mempool_spent_confirmed_outpoints)
      ≡ spent_by
          (m ∷ [])
          (contains o u.mempool_spent_confirmed_outpoints)
          (find o u.mempool_outpoint_map)
          o
unfolding contains
one_spent m o u e =
    let put = contains-add o m u.mempool_spent_confirmed_outpoints in
    elim (Outpoint-discrete m o) [
      | yes same ↦
          let absent = ap (λ k. find k u.mempool_outpoint_map) (sym same) ∙ e in
          ground (arith, put, absent)
      | no other ↦ ground (arith, put)
    ]

none_spent :
    (m o : Outpoint) (u : UtxoDb) {x : Output}
    → find m u.mempool_outpoint_map ≡ some x
    → contains o u.mempool_spent_confirmed_outpoints
      ≡ spent_by
          (m ∷ [])
          (contains o u.mempool_spent_confirmed_outpoints)
          (find o u.mempool_outpoint_map)
          o
unfolding contains
none_spent m o u e = elim (Outpoint-discrete m o) [
  | yes same ↦
      let there = ap (λ k. find k u.mempool_outpoint_map) (sym same) ∙ e in ground (arith, there)
  | no other ↦ ground arith
]

use_input-Looks :
    (m : Outpoint) (u : UtxoDb) (o : Outpoint)
    → Looks u (use_input u m) o (find o u.mempool_outpoint_map) (
        spent_by
          (m ∷ [])
          (contains o u.mempool_spent_confirmed_outpoints)
          (find o u.mempool_outpoint_map)
          o)
use_input-Looks m u o =
    let pool = find o u.mempool_outpoint_map in
    let spent = spent_by (m ∷ []) (contains o u.mempool_spent_confirmed_outpoints) pool o in
    elim (Option-cases (find m u.mempool_outpoint_map)) [
      | inl e ↦
          subst (λ v. Looks u v o pool spent) (sym (use_input-none m u e))
            (record { confirmed = refl; unconfirmed = refl; marked = one_spent m o u e })
      | inr (x, e) ↦
          subst (λ v. Looks u v o pool spent) (sym (use_input-some m u e))
            (record { confirmed = refl; unconfirmed = refl; marked = none_spent m o u e })
    ]

pub use_inputs-Looks :
    (ms : List Outpoint) (u : UtxoDb) (o : Outpoint)
    → Looks u (use_inputs ms u) o (find o u.mempool_outpoint_map) (
        spent_by ms
          (contains o u.mempool_spent_confirmed_outpoints)
          (find o u.mempool_outpoint_map)
          o)
unfolding use_inputs contains
use_inputs-Looks [] u o = record { confirmed = refl; unconfirmed = refl; marked = ground arith }
use_inputs-Looks (m ∷ ms) u o =
    let first = use_input-Looks m u o in
    let rest = use_inputs-Looks ms (use_input u m) o in
    let pool = first.unconfirmed in
    let seen = first.marked in
    record {
      confirmed = rest.confirmed ∙ first.confirmed;
      unconfirmed = rest.unconfirmed ∙ pool;
      marked = rest.marked ∙ ground (arith, pool, seen);
    }
