-- ===== src/Bch/Bytes.antt =====
-- `bch::process_mempool_tx` (src/bch.cpp) on the bytes of a message.
use cpp_slp_graph_search.Prelude.{ℕ, ◌≡◌, ◌⊎◌, inl, inr, refl, List, ◌++◌}
use cpp_slp_graph_search.Util.Reader.{Outcome, done, refused, fault}
use cpp_slp_graph_search.Tx.Types.{Transaction}
use cpp_slp_graph_search.Tx.Hydrate.{hydrate}
use cpp_slp_graph_search.Tx.Safety.{IsRead, hydrate-IsRead}
use cpp_slp_graph_search.Bch.Runs.{Run, bad_read, failed_assert}
use cpp_slp_graph_search.Bch.Process.{Bch, process_mempool_tx}

-- `assert(hydration_success)`
unfoldable pub process_hydrated : Bch → Outcome Transaction → Run Bch
process_hydrated s (done tx) = process_mempool_tx s tx
process_hydrated s refused = failed_assert
process_hydrated s fault = bad_read

unfoldable pub process_mempool_data : (List ℕ → List ℕ) → Bch → List ℕ → Run Bch
unfolding process_hydrated
process_mempool_data sha256 s msg_data = process_hydrated s (hydrate sha256 msg_data)

-- What a message does, by what `hydrate` makes of it: a failed assertion, or what the transaction
-- at its front does.
abbrev pub IsProcessed : (List ℕ → List ℕ) → Bch → List ℕ → Outcome Transaction → Run Bch → Type 0
IsProcessed sha256 s msg_data o r =
    ((o ≡ refused) × (r ≡ failed_assert))
    ⊎ ((tx : Transaction) × (rest : List ℕ) × (o ≡ done tx)
        × (msg_data ≡ tx.serialized ++ rest)
        × (tx.txid ≡ sha256 (sha256 tx.serialized))
        × (r ≡ process_mempool_tx s tx))

process_hydrated-IsProcessed :
    (sha256 : List ℕ → List ℕ) (s : Bch) (msg_data : List ℕ) (o : Outcome Transaction)
    → IsRead sha256 msg_data o
    → IsProcessed sha256 s msg_data o (process_hydrated s o)
unfolding process_hydrated
process_hydrated-IsProcessed sha256 s msg_data (done tx) h = inr (tx, h.0.0, refl, h.0.1, h.1, refl)
process_hydrated-IsProcessed sha256 s msg_data refused h = inl (refl, refl)
process_hydrated-IsProcessed sha256 s msg_data fault h = absurd h

-- On every byte string, either `hydrate` refuses it and the assertion fails; or it starts with the
-- bytes of the transaction that `hydrate` returns, whose id is their double hash, and the state
-- becomes what that transaction makes of it.
pub process_mempool_data-IsProcessed :
    (sha256 : List ℕ → List ℕ) (s : Bch) (msg_data : List ℕ)
    → IsProcessed sha256 s msg_data
        (hydrate sha256 msg_data)
        (process_mempool_data sha256 s msg_data)
unfolding process_mempool_data
process_mempool_data-IsProcessed sha256 s msg_data =
    process_hydrated-IsProcessed sha256 s msg_data (hydrate sha256 msg_data)
      (hydrate-IsRead sha256 msg_data)
