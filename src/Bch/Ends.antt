-- ===== src/Bch/Ends.antt =====
-- That `bch::process_block` (src/bch.cpp) ends without a read out of range or a failed assertion.
use cpp_slp_graph_search.Prelude.{
  ℕ, ◌≡◌, refl, List, [], ◌∷◌, ◌++◌, some, Bool, true, arith, inl, inr, Option-cases, All,
}
use cpp_slp_graph_search.Prelude.Keys.{bytes_key}
use cpp_slp_graph_search.Prelude.Map.{Map, find, has_key, find-All}
use cpp_slp_graph_search.Prelude.Distinct.{nodup}
use cpp_slp_graph_search.Slp.Message.{Hash}
use cpp_slp_graph_search.Tx.Types.{Outpoint, Output, Transaction, outpoint_key}
use cpp_slp_graph_search.Tx.Outputs.Reads.{HasOutputs, slp_outputs-some}
use cpp_slp_graph_search.Block.Codec.{Block}
use cpp_slp_graph_search.Topological.Order.{ids}
use cpp_slp_graph_search.Topological.Correct.{IsRankedIn, topological_sort-IsOrdered}
use cpp_slp_graph_search.SlpDb.Store.{SlpDb, spend_utxo, put_token, add_transaction}
use cpp_slp_graph_search.SlpDb.Tagged.{IsTaggedDb, put_token-IsTaggedDb, add_transaction-IsTaggedDb}
use cpp_slp_graph_search.Bch.Runs.{ran}
use cpp_slp_graph_search.Bch.Process.{
  Bch, block_outputs, block_inputs, slp_transactions, add_slp_txs, spend_slp, spend_slp_inputs,
  process_block, process_utxos,
}

add_slp_txs-IsTaggedDb :
    (txs : List Transaction) (db : SlpDb) → IsTaggedDb db → IsTaggedDb (add_slp_txs txs db)
unfolding add_slp_txs
add_slp_txs-IsTaggedDb [] db h = h
add_slp_txs-IsTaggedDb (tx ∷ txs) db h =
    add_slp_txs-IsTaggedDb txs (add_transaction db tx) (add_transaction-IsTaggedDb db tx h)

pub has_key-found :
    {V : Type 0} (k : Hash) (m : Map Hash V) → has_key k m ≡ true → (v : V) × (find k m ≡ some v)
unfolding has_key
has_key-found k m e = elim (Option-cases (find k m)) [
  | inl absent ↦ absurd (ground (arith, e, absent))
  | inr found ↦ found
]

spend_slp-runs :
    (db : SlpDb) (m : Outpoint)
    → IsTaggedDb db
    → (db' : SlpDb) × (spend_slp db m ≡ ran db') × IsTaggedDb db'
unfolding spend_slp
spend_slp-runs db m h = elim (Option-cases (find m db.utxo_to_tokenid)) [
  | inl e ↦ (db, rw (e, spend_slp) refl, h)
  | inr (tokenid, e) ↦
      let (token, e₁) = has_key-found tokenid db.tokens (find-All _ m db.utxo_to_tokenid h e) in
      let next = put_token tokenid (spend_utxo m token) db in
      (next, rw (e, e₁, spend_slp) refl, put_token-IsTaggedDb tokenid (spend_utxo m token) db h)
]

spend_slp_inputs-runs :
    (ms : List Outpoint) (db : SlpDb)
    → IsTaggedDb db
    → (db' : SlpDb) × (spend_slp_inputs ms db ≡ ran db') × IsTaggedDb db'
unfolding spend_slp_inputs
spend_slp_inputs-runs [] db h = (db, refl, h)
spend_slp_inputs-runs (m ∷ ms) db h =
    let (db₁, e₁, h₁) = spend_slp-runs db m h in
    let (db₂, e₂, h₂) = spend_slp_inputs-runs ms db₁ h₁ in (db₂, rw e₁ e₂, h₂)

block_outputs-runs :
    (txs : List Transaction)
    → All HasOutputs txs
    → (os : List Output) × (block_outputs txs ≡ ran os)
unfolding block_outputs
block_outputs-runs [] h = ([], refl)
block_outputs-runs (tx ∷ txs) (h, hs) =
    let (os, e) = slp_outputs-some tx h in
    let (rest, e') = block_outputs-runs txs hs in (os ++ rest, rw (e, e') refl)

-- Let each transaction of a block have no SLP message or at least two outputs; let the transactions
-- with a message have distinct ids and a rank that falls from each to its parents among them; and let
-- each tag of the token database be the id of a token. Then `process_block` ends with a state: it
-- reads no output out of range and no assertion fails; and the tags of that state are ids of tokens.
pub process_block-runs :
    (s : Bch) (b : Block) (save_rollback : Bool) (rank : Hash → ℕ)
    → All HasOutputs b.txs
    → nodup (ids (slp_transactions b.txs)) ≡ true
    → All (IsRankedIn rank (slp_transactions b.txs)) (slp_transactions b.txs)
    → IsTaggedDb s.slpdb
    → (s' : Bch) × (process_block s b save_rollback ≡ ran s') × IsTaggedDb s'.slpdb
process_block-runs s b save_rollback rank outputs distinct ranked h =
    let (os, e₁) = block_outputs-runs b.txs outputs in
    let (sorted, e₂, once, same, known, ordered) =
      topological_sort-IsOrdered rank (slp_transactions b.txs) distinct ranked in
    let (db, e₃, h') =
      spend_slp_inputs-runs (block_inputs b.txs) (add_slp_txs sorted s.slpdb)
        (add_slp_txs-IsTaggedDb sorted s.slpdb h) in
    (
      record { utxodb = process_utxos os (block_inputs b.txs) save_rollback s.utxodb; slpdb = db },
      unfold process_block in rw (e₁, e₂, e₃) refl,
      h',
    )
