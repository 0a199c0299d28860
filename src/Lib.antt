-- ===== src/Lib.antt =====
-- cpp_slp_graph_search: a server that keeps the SLP token graphs of Bitcoin Cash in memory and
-- answers searches in them, with a JSON gateway before it.
--
-- A block comes in as bytes (include/gs++/block.hpp), which hold transactions
-- (include/gs++/transaction.hpp); the first output of a transaction may hold an SLP message
-- (include/gs++/slp_transaction.hpp). The transactions of a token become the nodes of its graph,
-- in which a client searches for the ancestors of a transaction (src/txgraph.cpp). The validator
-- (src/slp_validator.cpp) judges which transactions move tokens that exist. src/bch.cpp applies
-- blocks and transactions of the mempool to the unspent outputs (src/utxodb.cpp) and to the token
-- database (include/gs++/slpdb.hpp), whose transactions it sorts first (src/util.cpp). The gateway
-- (rest/index.js) turns HTTP requests into gRPC calls and the replies into JSON.
--
-- Prelude: shared names, Boolean tests, finite maps and sets with a key interface.
-- Util: include/gs++/util.hpp and num_to_var_int of src/util.cpp. A reader is a function from
--   the bytes that are left to a value and the rest, a refusal (`return false`), or a fault, which
--   is a read at or behind the end.
-- Slp: slp_transaction::hydrate. Chunks is its loop over the pushes, Parse the fields; the object
--   is passed in and out. Script describes the script of a message; Sound, Fields, Sizes, Pushes,
--   RoundTrip and Termination hold the proofs.
-- Tx: transaction::hydrate and the functions of src/transaction.cpp. Encode is an independent
--   description of the format, Typed the types of what is read. `slp_outputs` has no value where the
--   code reads outputs out of range; Outputs/Described describes the outputs that it gives.
-- Block: block::hydrate and block::serialize (src/block.cpp).
-- Graph: txgraph. A pointer to a node is the pair of a token id and a transaction id, which stands
--   for it because the containers never move a node. Store holds the state and insert_token_data,
--   Search graph_search__ptr and build_exclusion_set. Closed and Sound carry pointers and ids through
--   the two passes, Reachable has the states that insertions make, Known the ids that an insertion
--   adds. A lock makes each operation one step, so the locks are left out.
-- Validator: slp_validator. State has the two containers, Check the checks and add_tx. A check gives
--   a verdict, the exception of check_mint, or the end of the fuel, which is two more than the number
--   of transactions in the map; a check of a judged transaction goes no deeper. Inputs is slp_inputs;
--   Send and Worth are about a SEND, Mint about a MINT, Invariant, Total and Adds about add_tx.
-- Topological: topological_sort of src/util.cpp and block::topological_sort. Sort has the code, Order
--   what an ordered list is, Visit the recursion and Correct the whole.
-- SlpDb: slpdb::add_transaction on every branch, and what process_block does to a token's outputs.
-- UtxoDb: the containers of utxodb, rollback and the lookups (Store), the sets by script against the
--   map (Index), the answers for a script (Answers).
-- Bch: process_block and process_mempool_tx. Process has the code; a run gives a state, a read out of
--   range, or a failed assertion. Utxos describes the outputs after a block, Indexed the sets by
--   script, Lookups and Mempool the lookups after a transaction of the mempool, Bytes a message of
--   the mempool, Ends that a block is processed, Removed and Supply the removal
--   of spent outpoints from the token database after a SEND.
-- Server: server/gs++.cpp. GraphSearch (Search, Answers), the two validation requests (Validation),
--   SlpOutpoints and the requests for balances (Tokens) are each one step. A pointer into the graph of
--   the mempool is never one into that of the blocks. Sync has the three functions that bring blocks
--   and transactions to the validator, the two graphs and the database; Keys and Order are about the
--   ids that they add, Blocks, Mempool and Accept about one function each, Reached about the states
--   they lead to, Known about a transaction that was heard before its block. Listener has the start of
--   `main` and the messages of the ZMQ listener; its `next_block_height` is current_block_height and
--   one. The order in which a hash map lists its entries, the answers of the node and the clock are
--   parameters.
-- Script: scriptpubkey of include/gs++/scriptpubkey.hpp: scripts, addresses and convertBits.
-- Rest: all routes of rest/index.js. Numeric models parseInt(…, 16), isNaN, >>> and toString(16)
--   on the UTF-16 code units of a text.
-- Fuzz: fuzz/nodejs_validation/report.js and the server beside it (Report), and
--   fuzz/slp-parser.js/server.js (Parser). slp-validate and slp-parser are parameters.
--   Other than a null document hash, what the parsers return is taken to have the types they document.
--
-- Numbers are natural numbers. Integers of fixed width come from bytes, so they are in range. The
-- version of a transaction is the unsigned number with the same four bytes. The fuel
-- of the loop over pushes is one more than the number of bytes, and the fuel of the search one more
-- than the number of nodes: a round of the first reads a byte at least, and a round of the second
-- takes a node off the stack that never returns to it. The recursion of topological_sort has one unit
-- of fuel more than there are transactions, since each call nested in another visits a new id.
--
-- sha256, the gRPC services, cashaddr::Encode and cashaddr::Decode, cashaddrjs, bitcore and Buffer
-- are parameters. Not modelled: of the server, OutputOracle, SlpUtxos, SlpTokenInfo, Status, the
-- requests for unspent outputs, what the listener publishes, the files of the cache and the
-- configuration; the RPC client; utxodb's current_block_hash; a block that was read in part; log lines
-- and locks; secp256k1, sha2 and cashaddr, which are copies of other projects; printing; and the
-- generated code.
pub mod Prelude
pub mod Util
pub mod Rest
pub mod Fuzz
pub mod Slp
pub mod Script
pub mod Tx
pub mod Block
pub mod Topological
pub mod Graph
pub mod Validator
pub mod SlpDb
pub mod UtxoDb
pub mod Server
pub mod Bch
pub mod Examples
