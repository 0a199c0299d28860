-- ===== src/Server/Listener/Messages.antt =====
-- A transaction that the ZMQ listener of server/gs++.cpp hears, from its bytes to the state.
use cpp_slp_graph_search.Prelude.{
  ℕ, ◌≡◌, ◌⊎◌, refl, List, Option, true, false, Bool, All, inl, inr, Bool-cases, if◌then◌else◌,
}
use cpp_slp_graph_search.Util.Bytes.{Byte}
use cpp_slp_graph_search.Util.Reader.{Outcome, done, refused, fault}
use cpp_slp_graph_search.Slp.Message.{is_invalid}
use cpp_slp_graph_search.Tx.Types.{Transaction}
use cpp_slp_graph_search.Tx.Hydrate.{hydrate}
use cpp_slp_graph_search.Tx.Safety.{IsRead, hydrate-IsRead}
use cpp_slp_graph_search.Tx.Typed.{IsTyped, hydrate-IsTyped}
use cpp_slp_graph_search.Tx.Typed.Readers.{IsHash}
use cpp_slp_graph_search.Tx.Outputs.Reads.{HasOutputs}
use cpp_slp_graph_search.Server.Sync.{synced, Group, slpsync_process_tx}
use cpp_slp_graph_search.Server.Sync.Keys.{Holds, bind-Holds}
use cpp_slp_graph_search.Server.Sync.Blocks.{IsServer}
use cpp_slp_graph_search.Server.Sync.Accept.{IsTxStep, slpsync_process_tx-IsTxStep}
use cpp_slp_graph_search.Server.Sync.Reached.{IsTransaction-Fits}
use cpp_slp_graph_search.Server.Listener.{
  Listener, rawtx, push_startup, hear_tx, hear_early, hear_late, hear,
}

-- The invariant holds, and the graph of the blocks is the old one.
pub record Kept (l l' : Listener) : Type 0 where
  pub server : IsServer l'.server
  pub graph : l'.server.g ≡ l.server.g

-- What the UTXO database needs of a transaction.
abbrev pub IsReadable : Listener → Outcome Transaction → Type 0
IsReadable l (done tx) = (l.server.utxosync ≡ false) ⊎ HasOutputs tx
IsReadable l refused = Unit
IsReadable l fault = Unit

push_startup-Kept :
    (l : Listener) (o : Outcome Transaction) → IsServer l.server → Kept l (push_startup l o)
unfolding push_startup
push_startup-Kept l (done tx) h = elim (Bool-cases (is_invalid tx.slp.slp_tx)) [
  | inl e ↦ rw e (record { server = h; graph = refl })
  | inr e ↦ rw e (record { server = h; graph = refl })
]
push_startup-Kept l refused h = record { server = h; graph = refl }
push_startup-Kept l fault h = record { server = h; graph = refl }

hear_tx-Kept :
    (sha256 : List ℕ → List ℕ) (l : Listener) (now : ℕ) (msg_data : List ℕ)
    (o : Outcome Transaction)
    → IsServer l.server
    → IsTyped o
    → IsRead sha256 msg_data o
    → IsReadable l o
    → Holds false (Kept l) (hear_tx l now o)
unfolding hear_tx
hear_tx-Kept sha256 l now msg_data (done tx) h typed read readable =
    bind-Holds false (IsTxStep l.server tx) (Kept l) (slpsync_process_tx l.server tx) _
      (slpsync_process_tx-IsTxStep l.server tx h (IsTransaction-Fits tx typed) readable)
      λ r step. record { server = step.server; graph = step.graph }
hear_tx-Kept sha256 l now msg_data refused h typed read readable = record {
  server = h;
  graph = refl;
}
hear_tx-Kept sha256 l now msg_data fault h typed read readable = absurd read

-- Let the hash function give 32 bytes, and let the invariant of the server hold. On any bytes in the
-- envelope of a transaction, which, unless the UTXO database is off, is none, has no SLP message or has
-- at least two outputs: the listener keeps the invariant and the graph of the blocks, or ends the
-- process by the exception of `check_mint`.
pub hear-rawtx :
    (sha256 : List ℕ → List ℕ) (order : List Group → List Group) (l : Listener) (now : ℕ)
    (mempool : Option (List Transaction)) (msg_data : List ℕ)
    → ((m : List ℕ) → IsHash (sha256 m))
    → All Byte msg_data
    → IsServer l.server
    → IsReadable l (hydrate sha256 msg_data)
    → Holds false (Kept l) (hear sha256 order l now mempool rawtx msg_data)
unfolding hear hear_early hear_late
hear-rawtx sha256 order l now mempool msg_data hash bytes h readable =
    by_time l.startup_processing_mempool
  where
    by_time :
        (early : Bool)
        → Holds false (Kept l) (
            if early
            then synced (push_startup l (hydrate sha256 msg_data))
            else hear_tx l now (hydrate sha256 msg_data))
    by_time true = push_startup-Kept l (hydrate sha256 msg_data) h
    by_time false =
        hear_tx-Kept sha256 l now msg_data (hydrate sha256 msg_data) h
          (hydrate-IsTyped sha256 msg_data hash bytes) (hydrate-IsRead sha256 msg_data) readable
