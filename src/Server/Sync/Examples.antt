-- ===== src/Server/Sync/Examples.antt =====
-- A token's first transaction, in a block and in the mempool.
use cpp_slp_graph_search.Prelude.{
  ℕ, ◌≡◌, ◌↔◌, refl, arith, List, [], ◌∷◌, some, true, false, inl, map,
}
use cpp_slp_graph_search.Prelude.Keys.{bytes_key, bytes_discrete}
use cpp_slp_graph_search.Prelude.Map.{find, insert, has_key}
use cpp_slp_graph_search.Prelude.Set.{contains, add}
use cpp_slp_graph_search.Prelude.Distinct.{nodup}
use cpp_slp_graph_search.Util.Hex.{unhex}
use cpp_slp_graph_search.Tx.Hydrate.{hydrate}
use cpp_slp_graph_search.Tx.Typed.{IsTyped, hydrate-IsTyped}
use cpp_slp_graph_search.Tx.Typed.Readers.{IsHash}
use cpp_slp_graph_search.Graph.Store.{Ref, ref_key, clear, insert_token_data}
use cpp_slp_graph_search.Graph.Fresh.{txdata_of}
use cpp_slp_graph_search.Graph.Correct.{Route}
use cpp_slp_graph_search.Validator.State.{has, has_valid, get, add_valid_txid, insert_tx}
use cpp_slp_graph_search.Validator.Check.{
  add_tx, validate, judged, validate_tx, validate_with, switch, switch_on, check_genesis,
}
use cpp_slp_graph_search.Validator.Total.{EndsBy, add_tx-EndsBy}
use cpp_slp_graph_search.Server.Search.{
  txid_regex, txid_of, exclude_ids, exclusion_set, answered, graph_search_service, unknown_txid,
}
use cpp_slp_graph_search.Server.Sync.{
  Server, synced, slpsync_process_block, slpsync_process_mempool, slpsync_process_tx, collect,
  add_block_tx, take_in, push_tx, insert_groups, accept_tx,
}
use cpp_slp_graph_search.Server.Sync.Keys.{Holds}
use cpp_slp_graph_search.Server.Sync.Blocks.{
  IsServer, IsBlockStep, slpsync_process_block-IsBlockStep,
}
use cpp_slp_graph_search.Server.Sync.Mempool.{IsMempoolStep, slpsync_process_mempool-IsMempoolStep}
use cpp_slp_graph_search.Server.Sync.Accept.{IsTxStep, slpsync_process_tx-IsTxStep}
use cpp_slp_graph_search.Server.Sync.Reached.{
  Reached, started, block_processed, tx_processed, empty_graph, Reached-IsServer,
  graph_search_service-Reached,
}
use cpp_slp_graph_search.Server.Sync.Known.{graph_search_service-known}
use cpp_slp_graph_search.Server.Samples.{
  ones, one_id, issue, one_id-IsHash, issue-IsTransaction, as_stored, as_stored-IsOrder, databases,
  at_start, block_of, one_block, at_start-IsServer, after,
}

slpsync_process_block-IsBlockStep_example :
    Holds true
      (IsBlockStep at_start one_block)
      (slpsync_process_block as_stored at_start one_block true)
slpsync_process_block-IsBlockStep_example =
    slpsync_process_block-IsBlockStep as_stored at_start one_block true as_stored-IsOrder
      at_start-IsServer (omega arith, tt) (inl refl)

slpsync_process_mempool-IsMempoolStep_example :
    Holds false (IsMempoolStep at_start) (slpsync_process_mempool as_stored at_start one_block)
slpsync_process_mempool-IsMempoolStep_example =
    slpsync_process_mempool-IsMempoolStep as_stored at_start one_block as_stored-IsOrder
      at_start-IsServer (omega arith, tt) (inl refl)

slpsync_process_tx-IsTxStep_example :
    Holds false (IsTxStep at_start issue) (slpsync_process_tx at_start issue)
slpsync_process_tx-IsTxStep_example =
    slpsync_process_tx-IsTxStep at_start issue at_start-IsServer (omega arith) (inl refl)

add_tx-EndsBy_example : EndsBy false (add_tx at_start.validator issue false)
add_tx-EndsBy_example = add_tx-EndsBy at_start.validator issue false tt (omega arith)

after-processed :
    slpsync_process_block as_stored at_start one_block true ≡ synced (after, issue ∷ [])
unfolding slpsync_process_block collect add_block_tx has has_key find add_tx take_in push_tx
    insert_groups insert_tx insert add_valid_txid add contains
after-processed = refl

after-Reached : Reached as_stored after
after-Reached =
    block_processed (started false databases) one_block true (issue ∷ []) (issue-IsTransaction, tt)
      (inl refl) after-processed

ones-form : txid_regex ones ≡ true
unfolding txid_regex
ones-form = refl

ones-id : txid_of ones ≡ some one_id
unfolding txid_of unhex
ones-id = refl

no-ids : exclude_ids [] ≡ some []
unfolding exclude_ids
no-ids = refl

after-knows : find one_id after.g.txid_to_token ≡ some one_id
unfolding insert_token_data clear find insert has_key bytes_discrete
after-knows = refl

graph_search_service-Reached_example :
    (nodes : List Ref) × (graph_search_service (λ s. s) after.g after.mg 5 ones []
      ≡ answered (map (txdata_of after.g) nodes))
    × (nodup nodes ≡ true)
    × ((v : Ref)
        → contains v nodes ≡ true
          ↔ Route after.g
              (record { tokenid = one_id; txid = one_id })
              (exclusion_set after.g 5 0 [] [])
              v)
graph_search_service-Reached_example =
    graph_search_service-Reached (λ s. s) as_stored after 5 ones [] one_id one_id []
      as_stored-IsOrder after-Reached ones-form ones-id no-ids after-knows

-- The state after the transaction has come from the mempool.
abbrev heard : Server
heard = record at_start {
  validator = record { transaction_map = (one_id, issue) ∷ []; valid = one_id ∷ [] };
  mg = (insert_token_data (clear empty_graph) one_id (issue ∷ [])).0;
}

heard-processed : slpsync_process_tx at_start issue ≡ synced (heard, true)
unfolding slpsync_process_tx accept_tx has has_key find add_tx insert_tx insert add_valid_txid add
    contains validate judged validate_tx validate_with has_valid switch switch_on check_genesis get
    bytes_discrete
heard-processed = refl

heard-IsServer : IsServer heard
heard-IsServer = Reached-IsServer as_stored heard as_stored-IsOrder (
    tx_processed (started false databases) issue true issue-IsTransaction (inl refl)
      heard-processed)

heard-known : has heard.validator one_id ≡ true
unfolding has has_key find bytes_discrete
heard-known = refl

heard-absent : has_key one_id heard.g.txid_to_token ≡ false
unfolding has_key find clear
heard-absent = refl

graph_search_service-known_example :
    Holds false
      (λ r.
        Holds false
          (λ s'.
            (has_key one_id s'.g.txid_to_token ≡ false)
            × (has_key one_id s'.mg.txid_to_token ≡ false)
            × (graph_search_service (λ s. s) s'.g s'.mg 5 ones [] ≡ unknown_txid)
            × (has_valid heard.validator one_id ≡ true → has_valid s'.validator one_id ≡ true))
          (slpsync_process_mempool as_stored r.0 (block_of [])))
      (slpsync_process_block as_stored heard one_block false)
graph_search_service-known_example =
    graph_search_service-known (λ s. s) as_stored heard one_block (block_of []) false 5 ones []
      one_id [] as_stored-IsOrder heard-IsServer (omega arith, tt) tt (inl refl) (inl refl)
      ones-form ones-id no-ids heard-known heard-absent

constant-IsHash : (m : List ℕ) → IsHash one_id
constant-IsHash m = one_id-IsHash

abbrev some_bytes : List ℕ
some_bytes = 1 ∷ 0 ∷ 0 ∷ 0 ∷ 0 ∷ 0 ∷ 0 ∷ 0 ∷ 0 ∷ 0 ∷ []

hydrate-IsTyped_example : IsTyped (hydrate (λ m. one_id) some_bytes)
hydrate-IsTyped_example = hydrate-IsTyped (λ m. one_id) some_bytes constant-IsHash (omega arith)
