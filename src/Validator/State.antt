-- ===== src/Validator/State.antt =====
-- `slp_validator` and its operations on the two containers.
use cpp_slp_graph_search.Prelude.{List, Option, Bool, not}
use cpp_slp_graph_search.Prelude.Keys.{bytes_key}
use cpp_slp_graph_search.Prelude.Map.{Map, find, has_key, insert, erase}
use cpp_slp_graph_search.Prelude.Set.{contains, add}
use cpp_slp_graph_search.Slp.Message.{Hash}
use cpp_slp_graph_search.Tx.Types.{Transaction}

pub record Validator : Type 0 where
  pub transaction_map : Map Hash Transaction
  pub valid : List Hash

unfoldable pub has : Validator → Hash → Bool
has v txid = has_key txid v.transaction_map

unfoldable pub has_valid : Validator → Hash → Bool
has_valid v txid = contains txid v.valid

-- `get(txid)`; `none` is the exception of `at`.
unfoldable pub get : Validator → Hash → Option Transaction
get v txid = find txid v.transaction_map

unfoldable pub remove_tx : Validator → Hash → Validator × Bool
unfolding has
remove_tx v txid = (record v { transaction_map = erase txid v.transaction_map }, has v txid)

unfoldable pub add_valid_txid : Validator → Hash → Validator × Bool
unfolding has_valid
add_valid_txid v txid = (record v { valid = add txid v.valid }, not (has_valid v txid))

-- `transaction_map.insert({ tx.txid, tx })`
unfoldable pub insert_tx : Validator → Transaction → Validator
insert_tx v tx = record v { transaction_map = insert tx.txid tx v.transaction_map }
