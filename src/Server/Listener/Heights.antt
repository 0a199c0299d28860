-- ===== src/Server/Listener/Heights.antt =====
-- The height of the UTXO database through a block of the cache (server/gs++.cpp, include/gs++/bch.hpp).
use cpp_slp_graph_search.Prelude.{
  ℕ, ◌+◌, ◌%◌, ◌^◌, ◌≡◌, refl, sym, ap, ◌∙◌, List, [], ◌∷◌, true, false, Bool, arith, inl, inr,
  Option-cases, if◌then◌else◌,
}
use cpp_slp_graph_search.Prelude.Map.{find}
use cpp_slp_graph_search.Util.Reader.{Outcome, done, refused, fault}
use cpp_slp_graph_search.Tx.Types.{Transaction, Outpoint, Output, outpoint_key, is_op_return}
use cpp_slp_graph_search.Block.Codec.{Block}
use cpp_slp_graph_search.Block.Codec
use cpp_slp_graph_search.UtxoDb.Store.{UtxoDb}
use cpp_slp_graph_search.Bch.Runs.{Run, ran, failed_assert, bind-ran}
use cpp_slp_graph_search.Bch.Process.{
  Bch, add_output, add_outputs, spend_confirmed, spend_mempool, spend_inputs, save, raise_height,
  process_utxos, block_outputs, block_inputs, slp_transactions, spend_slp_inputs, add_slp_txs,
  added_outpoints, removed_outputs,
}
use cpp_slp_graph_search.Bch.Process
use cpp_slp_graph_search.Bch.Indexed.{process_block-process_utxos}
use cpp_slp_graph_search.Server.Sync.{
  collect, start_batch, Synced, synced, aborted, bad_read, ◌>>=◌, of_run, Server, Group,
  slpsync_process_block,
}
use cpp_slp_graph_search.Server.Listener.{Listener, load_hydrated, load_block}

abbrev height : UtxoDb → ℕ
height u = u.current_block_height

unless-height :
    (skip : Bool) (u : UtxoDb) (m : Output)
    → (if skip then u else add_output u m).current_block_height ≡ u.current_block_height
unfolding add_output
unless-height true u m = refl
unless-height false u m = refl

add_outputs-height :
    (ms : List Output) (u : UtxoDb)
    → (add_outputs ms u).current_block_height ≡ u.current_block_height
unfolding add_outputs
add_outputs-height [] u = refl
add_outputs-height (m ∷ ms) u =
    add_outputs-height ms (if is_op_return m then u else add_output u m)
    ∙ unless-height (is_op_return m) u m

spend_mempool-height :
    (u : UtxoDb) (m : Outpoint) → (spend_mempool u m).current_block_height ≡ u.current_block_height
unfolding spend_mempool
spend_mempool-height u m = elim (Option-cases (find m u.mempool_outpoint_map)) [
  | inl e ↦ rw (e, spend_mempool) refl
  | inr (o, e) ↦ rw (e, spend_mempool) refl
]

spend_confirmed-height :
    (u : UtxoDb) (m : Outpoint)
    → (spend_confirmed u m).current_block_height ≡ u.current_block_height
unfolding spend_confirmed
spend_confirmed-height u m = elim (Option-cases (find m u.outpoint_map)) [
  | inl e ↦ rw (e, spend_confirmed) refl
  | inr (o, e) ↦ rw (e, spend_confirmed) refl
]

spend_inputs-height :
    (ms : List Outpoint) (u : UtxoDb)
    → (spend_inputs ms u).current_block_height ≡ u.current_block_height
unfolding spend_inputs
spend_inputs-height [] u = refl
spend_inputs-height (m ∷ ms) u =
    spend_inputs-height ms (spend_mempool (spend_confirmed u m) m)
    ∙ spend_mempool-height (spend_confirmed u m) m
    ∙ spend_confirmed-height u m

save-height :
    (b : Bool) (added : List Outpoint) (removed : List Output) (u : UtxoDb)
    → (save b added removed u).current_block_height ≡ u.current_block_height
unfolding save
save-height true added removed u = refl
save-height false added removed u = refl

process_utxos-height :
    (outputs : List Output) (inputs : List Outpoint) (b : Bool) (u : UtxoDb)
    → (process_utxos outputs inputs b u).current_block_height
      ≡ (u.current_block_height + 1) % 2 ^ 32
unfolding process_utxos raise_height
process_utxos-height outputs inputs b u =
    let added = add_outputs outputs (raise_height u) in
    save-height b (added_outpoints outputs) (removed_outputs inputs added)
      (spend_inputs inputs added)
    ∙ spend_inputs-height inputs added
    ∙ add_outputs-height outputs (raise_height u)

-- Each run of `bch::process_block` raises the height by one.
process_block-height :
    (s s' : Bch) (b : Block) (save_rollback : Bool)
    → Process.process_block s b save_rollback ≡ ran s'
    → s'.utxodb.current_block_height ≡ (s.utxodb.current_block_height + 1) % 2 ^ 32
unfolding Process.process_block
process_block-height s s' b save_rollback e =
    let (outputs, read, rest) = bind-ran (block_outputs b.txs) _ e in
    ap height (process_block-process_utxos s s' b save_rollback outputs read e)
    ∙ process_utxos-height outputs (block_inputs b.txs) save_rollback s.utxodb

bind-synced {ℓ κ} :
    {A : Type ℓ} {B : Type κ} (r : Synced A) (f : A → Synced B) {b : B}
    → r >>= f ≡ synced b
    → (a : A) × (r ≡ synced a) × (f a ≡ synced b)
bind-synced (synced a) f e = (a, refl, e)
bind-synced aborted f e = absurd (ground arith)
bind-synced bad_read f e = absurd (ground arith)
bind-synced Synced.out_of_fuel f e = absurd (ground arith)

-- The value of a result, or the first argument where there is none.
abbrev synced_or {ℓ} : {A : Type ℓ} → A → Synced A → A
synced_or d (synced a) = a
synced_or d aborted = d
synced_or d bad_read = d
synced_or d Synced.out_of_fuel = d

of_run-ran {ℓ} : {A : Type ℓ} (r : Run A) {a : A} → of_run r ≡ synced a → r ≡ ran a
of_run-ran (ran b) {a} e = ap ran (ap (synced_or b) e)
of_run-ran Run.bad_read e = absurd (ground arith)
of_run-ran failed_assert e = absurd (ground arith)
of_run-ran Run.out_of_fuel e = absurd (ground arith)

if_on :
    (on : Bool) (old : Bch) (run : Run Bch) {bch : Bch}
    → on ≡ true
    → (if on then of_run run else synced old) ≡ synced bch
    → run ≡ ran bch
if_on true old run e q = of_run-ran run q
if_on false old run e q = absurd (ground arith)

-- With the UTXO database on, each block that is processed raises its height, also where the block is
-- part of `slpsync_bitcoind_process_block`.
synced_block-height :
    (order : List Group → List Group) (s : Server) (b : Block) (trusted : Bool)
    (r : Server × List Transaction)
    → s.utxosync ≡ true
    → slpsync_process_block order s b trusted ≡ synced r
    → (r.0.bch.utxodb.current_block_height ≡ (s.bch.utxodb.current_block_height + 1) % 2 ^ 32)
      × (r.0.utxosync ≡ true)
unfolding slpsync_process_block
synced_block-height order s b trusted r on e =
    let (bch, made, rest) = bind-synced _ _ e in
    let (batch, gathered, last) =
      bind-synced (collect trusted (start_batch s.validator) b.txs) _ rest in
    let run = if_on s.utxosync s.bch (Process.process_block s.bch b true) on made in
    let same = ap (synced_or r) last in
    (
      ap (λ q. height q.0.bch.utxodb) (sym same) ∙ process_block-height s.bch bch b true run,
      ap (λ q. q.0.utxosync) (sym same) ∙ on,
    )

-- With the UTXO database on, `bch::process_block` runs twice for a block of the cache: in
-- `slpsync_bitcoind_process_block`, and again behind it. A block that is loaded thus raises the height
-- of the UTXO database by two, modulo 2 ^ 32, and the height of the server by one.
pub load_block-height :
    (sha256 : List ℕ → List ℕ) (order : List Group → List Group) (l l' : Listener)
    (blk_data : List ℕ)
    → l.server.utxosync ≡ true
    → load_block sha256 order l blk_data ≡ synced l'
    → (l'.server.bch.utxodb.current_block_height
        ≡ (l.server.bch.utxodb.current_block_height + 2) % 2 ^ 32)
      × (l'.next_block_height ≡ l.next_block_height + 1)
unfolding load_block load_hydrated
load_block-height sha256 order l l' blk_data on e = loaded (Codec.hydrate sha256 false blk_data) e
  where
    loaded :
        (o : Outcome (Block × List ℕ))
        → load_hydrated sha256 order l o ≡ synced l'
        → (l'.server.bch.utxodb.current_block_height
            ≡ (l.server.bch.utxodb.current_block_height + 2) % 2 ^ 32)
          × (l'.next_block_height ≡ l.next_block_height + 1)
    loaded (done (b, rest)) q =
        let (r, first, more) = bind-synced (slpsync_process_block order l.server b true) _ q in
        let (bch, second, last) = bind-synced _ _ more in
        let (once, still) = synced_block-height order l.server b true r on first in
        let run = if_on r.0.utxosync r.0.bch (Process.process_block r.0.bch b true) still second in
        let twice = process_block-height r.0.bch bch b true run in
        let same = ap (synced_or l') last in
        (
          ap (λ (k : Listener). k.server.bch.utxodb.current_block_height) (sym same)
              ∙ omega (arith, once, twice),
          ap (λ (k : Listener). k.next_block_height) (sym same),
        )
    loaded refused q = absurd (ground arith)
    loaded fault q = absurd (ground arith)
