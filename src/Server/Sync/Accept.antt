-- ===== src/Server/Sync/Accept.antt =====
-- `slpsync_bitcoind_process_tx` of server/gs++.cpp.
use cpp_slp_graph_search.Prelude.{
  ◌⊎◌, ◌≡◌, refl, subst, inl, inr, [], ◌∷◌, true, false, Bool, not, ◌||◌, ◌&&◌, arith, Bool-cases,
  if◌then◌else◌,
}
use cpp_slp_graph_search.Prelude.Keys.{bytes_key}
use cpp_slp_graph_search.Prelude.Map.{has_key}
use cpp_slp_graph_search.Prelude.Set.{contains, contains_one}
use cpp_slp_graph_search.Slp.Message.{Hash, is_invalid}
use cpp_slp_graph_search.Tx.Types.{Transaction}
use cpp_slp_graph_search.Tx.Outputs.Reads.{HasOutputs}
use cpp_slp_graph_search.Graph.Store.{insert_token_data}
use cpp_slp_graph_search.Graph.Known.{insert_token_data-known}
use cpp_slp_graph_search.Graph.Reachable.{inserted}
use cpp_slp_graph_search.Validator.State.{Validator, has, has_valid}
use cpp_slp_graph_search.Validator.Check.{Verdict, verdict, rare_condition, out_of_fuel, add_tx}
use cpp_slp_graph_search.Validator.Send.{Fits, IsWellFormed}
use cpp_slp_graph_search.Validator.Invariant.{IsOutcome, add_tx-IsOutcome}
use cpp_slp_graph_search.Validator.Total.{EndsBy, add_tx-EndsBy}
use cpp_slp_graph_search.Validator.Adds.{Grown, Adds, add_tx-Adds}
use cpp_slp_graph_search.Bch.Process.{Bch, process_mempool_tx}
use cpp_slp_graph_search.Server.Sync.{
  Synced, synced, ◌>>=◌, of_verdict, Server, accept_tx, slpsync_process_tx,
}
use cpp_slp_graph_search.Server.Sync.Keys.{Holds, bind-Holds}
use cpp_slp_graph_search.Server.Sync.Blocks.{BchEnds, IsServer, utxosync-Holds}
use cpp_slp_graph_search.Server.Sync.Mempool.{process_mempool_tx-runs}

-- What one transaction makes of the state: the valid transactions and the graph of the mempool gain
-- it, if it is accepted, and nothing else.
pub record IsTxStep (s : Server) (tx : Transaction) (r : Server × Bool) : Type 0 where
  pub server : IsServer r.0
  pub valid :
      (x : Hash)
      → has_valid r.0.validator x ≡ (has_valid s.validator x || (r.1 && contains x (tx.txid ∷ [])))
  pub mempool :
      (x : Hash)
      → has_key x r.0.mg.txid_to_token
        ≡ (has_key x s.mg.txid_to_token || (r.1 && contains x (tx.txid ∷ [])))
  pub accepted : r.1 ≡ true → has s.validator tx.txid ≡ false
  pub graph : r.0.g ≡ s.g

-- The state with another UTXO database.
abbrev with_bch : Server → Bch → Server
with_bch s bch = record s { bch = bch }

same-IsTxStep :
    (s : Server) (bch : Bch) (tx : Transaction) → IsServer s → IsTxStep s tx (with_bch s bch, false)
same-IsTxStep s bch tx h = record {
  server = record {
    formed = h.formed;
    known = h.known;
    g = h.g;
    mg = h.mg;
    g_valid = h.g_valid;
    mg_valid = h.mg_valid;
    apart = h.apart;
  };
  valid = λ x. ground arith;
  mempool = λ x. ground arith;
  accepted = λ e. absurd (ground arith);
  graph = refl;
}

accept_tx-IsTxStep :
    (s : Server) (bch : Bch) (tx : Transaction) (v : Validator) (accepted : Bool)
    → IsServer s
    → has s.validator tx.txid ≡ false
    → IsWellFormed v
    → Grown s.validator v tx.txid accepted true
    → IsTxStep s tx (accept_tx (with_bch s bch) tx (v, accepted))
unfolding accept_tx
accept_tx-IsTxStep s bch tx v true h new formed grown = record {
  server = record {
    formed = formed;
    known = λ x e. ground (arith, grown.valid x, h.known x, grown.known x, e);
    g = h.g;
    mg = inserted h.mg tx.slp.tokenid (tx ∷ []);
    g_valid = λ x e. ground (arith, grown.valid x, h.g_valid x, e);
    mg_valid = λ x e. ground (arith, gained x, grown.valid x, h.mg_valid x, e);
    apart = λ x e. elim (Bool-cases (contains x (tx.txid ∷ []))) [
      | inl this ↦
          let missing = subst (λ j. has s.validator j ≡ false) (contains_one x tx.txid this) new in
          absurd (ground (arith, h.g_valid x e, h.known x, missing))
      | inr other ↦ ground (arith, gained x, other, h.apart x e)
    ];
  };
  valid = grown.valid;
  mempool = gained;
  accepted = λ e. new;
  graph = refl;
}
  where
    gained :
        (x : Hash)
        → has_key x (insert_token_data s.mg tx.slp.tokenid (tx ∷ [])).0.txid_to_token
          ≡ (has_key x s.mg.txid_to_token || contains x (tx.txid ∷ []))
    gained x = insert_token_data-known s.mg tx.slp.tokenid (tx ∷ []) x
accept_tx-IsTxStep s bch tx v false h new formed grown = record {
  server = record {
    formed = formed;
    known = λ x e. ground (arith, grown.valid x, h.known x, grown.known x, e);
    g = h.g;
    mg = h.mg;
    g_valid = λ x e. ground (arith, grown.valid x, h.g_valid x, e);
    mg_valid = λ x e. ground (arith, grown.valid x, h.mg_valid x, e);
    apart = h.apart;
  };
  valid = grown.valid;
  mempool = λ x. ground arith;
  accepted = λ e. absurd (ground arith);
  graph = refl;
}

judged-IsTxStep :
    (s : Server) (bch : Bch) (tx : Transaction) (r : Verdict (Validator × Bool))
    → IsServer s
    → has s.validator tx.txid ≡ false
    → EndsBy false r
    → IsOutcome tx.txid r
    → Adds s.validator tx.txid true r
    → Holds false (IsTxStep s tx) (of_verdict r >>= λ r. synced (accept_tx (with_bch s bch) tx r))
judged-IsTxStep s bch tx (verdict (v, accepted)) h new ends formed grown =
    accept_tx-IsTxStep s bch tx v accepted h new formed.0 grown
judged-IsTxStep s bch tx rare_condition h new ends formed grown = refl
judged-IsTxStep s bch tx out_of_fuel h new ends formed grown = ends

-- Let the state be one that the invariant holds of, let the transaction have quantities of 64 bits,
-- and let the UTXO database be off, or the transaction have no SLP message or at least two outputs.
-- Then `slpsync_process_tx` gives a state and whether it accepted the transaction, or ends the process by the
-- exception of `check_mint`. In the state the invariant holds. If the transaction was accepted, it was
-- unknown to the validator before, and the transactions judged valid and those that the graph of the
-- mempool knows have grown by it alone; if not, both are the old ones. The graph of the blocks is the
-- old one.
pub slpsync_process_tx-IsTxStep :
    (s : Server) (tx : Transaction)
    → IsServer s
    → Fits tx.slp.slp_tx
    → (s.utxosync ≡ false) ⊎ HasOutputs tx
    → Holds false (IsTxStep s tx) (slpsync_process_tx s tx)
unfolding slpsync_process_tx
slpsync_process_tx-IsTxStep s tx h fits outputs =
    bind-Holds false (λ bch. Unit {0}) (IsTxStep s tx) _ _
      (utxosync-Holds false s (process_mempool_tx s.bch tx) (ends outputs))
      λ bch u. by_kind bch (is_invalid tx.slp.slp_tx) (has s.validator tx.txid) refl refl
  where
    ends : (s.utxosync ≡ false) ⊎ HasOutputs tx → BchEnds s (process_mempool_tx s.bch tx)
    ends (inl off) = inl off
    ends (inr enough) = inr (process_mempool_tx-runs s.bch tx enough)

    judged : Bch → Synced (Server × Bool)
    judged bch =
        of_verdict (add_tx s.validator tx false) >>= λ r. synced (accept_tx (with_bch s bch) tx r)

    by_kind :
        (bch : Bch) (plain old : Bool)
        → is_invalid tx.slp.slp_tx ≡ plain
        → has s.validator tx.txid ≡ old
        → Holds false (IsTxStep s tx) (
            if plain
            then synced (with_bch s bch, false)
            else if old
            then synced (with_bch s bch, false)
            else judged bch)
    by_kind bch true old e e' = same-IsTxStep s bch tx h
    by_kind bch false true e e' = same-IsTxStep s bch tx h
    by_kind bch false false e e' =
        judged-IsTxStep s bch tx (add_tx s.validator tx false) h e'
          (add_tx-EndsBy s.validator tx false h.formed fits)
          (add_tx-IsOutcome s.validator tx false h.formed fits)
          (subst (λ k. Adds s.validator tx.txid (not k) (add_tx s.validator tx false)) e
            (add_tx-Adds s.validator tx false e'))
