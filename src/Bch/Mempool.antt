-- ===== src/Bch/Mempool.antt =====
-- What `bch::process_mempool_tx` (src/bch.cpp) makes of the outputs.
use cpp_slp_graph_search.Tx.Outputs.Described.{token_outputs, slp_outputs-token_outputs}
use cpp_slp_graph_search.Prelude.{
  ◌≡◌, refl, ap, ◌∙◌, List, [], ◌∷◌, Option, none, some, Bool, arith, if◌then◌else◌,
}
use mathlib.Core.List.{append-nil}
use cpp_slp_graph_search.Prelude.Map.{find, or_else}
use cpp_slp_graph_search.Prelude.Set.{contains}
use cpp_slp_graph_search.Tx.Types.{Outpoint, Output, Transaction, outpoint_key}
use cpp_slp_graph_search.Tx.Outputs.{slp_outputs}
use cpp_slp_graph_search.UtxoDb.Store.{one_of, get_outputs_by_outpoints, UtxoDb, output_at}
use cpp_slp_graph_search.Slp.Message.{is_invalid}
use cpp_slp_graph_search.SlpDb.Store.{add_transaction}
use cpp_slp_graph_search.Bch.Runs.{ran}
use cpp_slp_graph_search.Bch.Process.{Bch, add_mempool_outputs, use_inputs, process_mempool_tx}
use cpp_slp_graph_search.Bch.Lookups.{Looks, add_mempool_outputs-Looks, spent_by, use_inputs-Looks}
use cpp_slp_graph_search.Bch.Utxos.{created}

-- An answer for an outpoint, by what is known of it.
abbrev pub answer : Option Output → Option Output → Bool → Option Output
answer none pool spent = pool
answer (some out) pool spent = if spent then none else some out

output_at-Looks :
    {u v : UtxoDb} {o : Outpoint} {pool : Option Output} {spent : Bool}
    → Looks u v o pool spent
    → output_at v o ≡ answer (find o u.outpoint_map) pool spent
unfolding output_at
output_at-Looks {u} {v} {o} h =
    let known = ap (find o) h.confirmed in
    let unconfirmed = h.unconfirmed in
    let marked = h.marked in ground (arith, known, unconfirmed, marked)

-- The state after a transaction with these SLP outputs.
abbrev after_tx : Bch → Transaction → List Output → Bch
after_tx s tx outputs = record {
  utxodb = use_inputs tx.inputs (add_mempool_outputs outputs s.utxodb);
  slpdb = if is_invalid tx.slp.slp_tx then s.slpdb else add_transaction s.slpdb tx;
}

process_mempool_tx-ran :
    (s : Bch) (tx : Transaction) (outputs : List Output)
    → slp_outputs tx ≡ some outputs
    → process_mempool_tx s tx ≡ ran (after_tx s tx outputs)
unfolding process_mempool_tx
process_mempool_tx-ran s tx outputs made = rw made refl

process_mempool_tx-answers :
    (s : Bch) (tx : Transaction) (outputs : List Output)
    → slp_outputs tx ≡ some outputs
    → (s' : Bch) × (process_mempool_tx s tx ≡ ran s')
      × ((o : Outpoint)
          → (let pool = or_else (find o s.utxodb.mempool_outpoint_map) (created outputs o) in
              let before = contains o s.utxodb.mempool_spent_confirmed_outpoints in
              get_outputs_by_outpoints s'.utxodb (o ∷ [])
              ≡ one_of
                  (answer (find o s.utxodb.outpoint_map) pool (spent_by tx.inputs before pool o))))
unfolding get_outputs_by_outpoints
process_mempool_tx-answers s tx outputs made = (
  after_tx s tx outputs,
  process_mempool_tx-ran s tx outputs made,
  λ o.
      let added = add_mempool_outputs-Looks outputs s.utxodb o in
      let used = use_inputs-Looks tx.inputs (add_mempool_outputs outputs s.utxodb) o in
      let known = ap (find o) added.confirmed in
      let pool = added.unconfirmed in
      let before = added.marked in
      append-nil (one_of (output_at (after_tx s tx outputs).utxodb o))
      ∙ ap one_of (output_at-Looks used ∙ rw (known, pool, before) refl),
)

-- A transaction of the mempool of which `slp_outputs` reads no output out of range is processed. In the
-- state after it, the answer for one outpoint is this. Where a confirmed output is at it: that output,
-- unless the outpoint was marked as spent before, or the transaction spends it and neither the mempool's
-- map nor a token output of this transaction is at it. Where none is confirmed: the output that the
-- mempool's map had, or else the first token output at it that is no OP_RETURN, spent or not; and
-- nothing where there is neither. The token outputs are those that the SLP message refers to: output 1
-- and the baton's of a GENESIS or a MINT, and of a SEND as many as it has amounts, from output 1 on.
pub process_mempool_tx-get_outputs_by_outpoints :
    (s : Bch) (tx : Transaction) (outputs : List Output)
    → slp_outputs tx ≡ some outputs
    → (s' : Bch) × (process_mempool_tx s tx ≡ ran s')
      × ((o : Outpoint)
          → (let pool =
                or_else (find o s.utxodb.mempool_outpoint_map) (created (token_outputs tx) o) in
              let before = contains o s.utxodb.mempool_spent_confirmed_outpoints in
              get_outputs_by_outpoints s'.utxodb (o ∷ [])
              ≡ one_of
                  (answer (find o s.utxodb.outpoint_map) pool (spent_by tx.inputs before pool o))))
process_mempool_tx-get_outputs_by_outpoints s tx outputs made =
    process_mempool_tx-answers s tx (token_outputs tx)
      (made ∙ ap some (slp_outputs-token_outputs tx outputs made))
