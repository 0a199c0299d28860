-- ===== src/UtxoDb/Store.antt =====
-- `utxodb`: its containers, `rollback` and the lookups.
use cpp_slp_graph_search.Prelude.{
  ℕ, ◌+◌, ◌%◌, ◌^◌, List, [], ◌∷◌, ◌++◌, Option, none, some, ◌==◌, ltb, if◌then◌else◌, length,
}
use cpp_slp_graph_search.Prelude.Keys.{bytes_key}
use cpp_slp_graph_search.Prelude.Map.{Map, find, has_key, insert, assign, erase}
use cpp_slp_graph_search.Prelude.Set.{contains}
use cpp_slp_graph_search.Tx.Types.{Outpoint, Output, outpoint_of, outpoint_key}

abbrev pub Script : Type 0
Script = List ℕ

-- A `flat_hash_set<output>`: outputs are equal when their outpoints are.
abbrev pub OutputSet : Type 0
OutputSet = Map Outpoint Output

abbrev pub ScriptIndex : Type 0
ScriptIndex = Map Script OutputSet

-- A deque is the list of its elements from front to back.
pub record UtxoDb : Type 0 where
  pub current_block_height : ℕ
  pub outpoint_map : Map Outpoint Output
  pub scriptpubkey_to_output : ScriptIndex
  pub mempool_outpoint_map : Map Outpoint Output
  pub mempool_scriptpubkey_to_output : ScriptIndex
  pub mempool_spent_confirmed_outpoints : List Outpoint
  pub last_block_removed : List (List Output)
  pub last_block_added : List (List Outpoint)

abbrev pub empty_utxodb : UtxoDb
empty_utxodb = record {
  current_block_height = 0;
  outpoint_map = [];
  scriptpubkey_to_output = [];
  mempool_outpoint_map = [];
  mempool_scriptpubkey_to_output = [];
  mempool_spent_confirmed_outpoints = [];
  last_block_removed = [];
  last_block_added = [];
}

unfoldable pub outputs_of : Script → ScriptIndex → OutputSet
outputs_of s index = elim (find s index) [ none ↦ [] | some set ↦ set ]

abbrev pub stored_or : Option Output → Output → Output
stored_or none m = m
stored_or (some o) m = o

-- The output that `map.insert({ outpoint, m })` leaves at the outpoint.
unfoldable pub stored : Map Outpoint Output → Output → Output
stored map m = stored_or (find (outpoint_of m) map) m

unfoldable pub insert_output : Output → Map Outpoint Output → Map Outpoint Output
insert_output m map = insert (outpoint_of m) m map

-- The output `oid` enters the set of the script, which is made if it is missing.
unfoldable pub add_to_script : Script → Output → ScriptIndex → ScriptIndex
unfolding outputs_of
add_to_script s oid index = assign s (insert (outpoint_of oid) oid (outputs_of s index)) index

abbrev pub put_or_erase : Script → OutputSet → ScriptIndex → ScriptIndex
put_or_erase s [] index = erase s index
put_or_erase s (e ∷ set) index = assign s (e ∷ set) index

-- `addr_map.erase(o)`, and the set goes when it is empty.
unfoldable pub remove_from_script : Script → Output → ScriptIndex → ScriptIndex
remove_from_script s o index = elim (find s index) [
  | none ↦ index
  | some set ↦ put_or_erase s (erase (outpoint_of o) set) index
]

-- The same in `rollback`, where a set that did not hold the output stays.
unfoldable pub remove_if_held : Script → Output → ScriptIndex → ScriptIndex
remove_if_held s o index = elim (find s index) [
  | none ↦ index
  | some set ↦
      if has_key (outpoint_of o) set
      then put_or_erase s (erase (outpoint_of o) set) index
      else index
]

-- The first loop of `rollback`, for one output.
unfoldable pub restore : UtxoDb → Output → UtxoDb
unfolding stored insert_output add_to_script
restore u m = record u {
  outpoint_map = insert_output m u.outpoint_map;
  scriptpubkey_to_output =
      add_to_script m.scriptpubkey (stored u.outpoint_map m) u.scriptpubkey_to_output;
}

-- The second loop, for one outpoint.
unfoldable pub unindex : UtxoDb → Outpoint → UtxoDb
unfolding remove_if_held
unindex u m = elim (find m u.outpoint_map) [
  | none ↦ u
  | some o ↦ record u {
    scriptpubkey_to_output = remove_if_held o.scriptpubkey o u.scriptpubkey_to_output;
  }
]

unfoldable pub restore_all : List Output → UtxoDb → UtxoDb
unfolding restore
restore_all [] u = u
restore_all (m ∷ ms) u = restore_all ms (restore u m)

unfoldable pub unindex_all : List Outpoint → UtxoDb → UtxoDb
unfolding unindex
unindex_all [] u = u
unindex_all (m ∷ ms) u = unindex_all ms (unindex u m)

-- `back()`, and what `pop_back` leaves.
unfoldable pub split_back {ℓ} : {A : Type ℓ} → A → List A → List A × A
split_back a [] = ([], a)
split_back a (b ∷ bs) = let r = split_back b bs in (a ∷ r.0, r.1)

unfoldable pub rollback_to :
    UtxoDb → List (List Output) × List Output → List (List Outpoint) × List Outpoint → UtxoDb
unfolding restore_all unindex_all
rollback_to u (removed, rb_removed) (added, rb_added) =
    unindex_all rb_added
      (restore_all rb_removed (record u { last_block_removed = removed; last_block_added = added }))

abbrev pub rollback_by : UtxoDb → List (List Output) → List (List Outpoint) → UtxoDb
rollback_by u [] added = u
rollback_by u (r ∷ removed) [] = u
rollback_by u (r ∷ removed) (a ∷ added) = rollback_to u (split_back r removed) (split_back a added)

unfoldable pub rollback : UtxoDb → UtxoDb
unfolding rollback_to split_back
rollback u = rollback_by u u.last_block_removed u.last_block_added

abbrev pub one_of : Option Output → List Output
one_of none = []
one_of (some o) = o ∷ []

-- The answer for one outpoint.
unfoldable pub output_at : UtxoDb → Outpoint → Option Output
output_at u o = elim (find o u.outpoint_map) [
  | none ↦ find o u.mempool_outpoint_map
  | some out ↦ if contains o u.mempool_spent_confirmed_outpoints then none else some out
]

unfoldable pub get_outputs_by_outpoints : UtxoDb → List Outpoint → List Output
unfolding output_at
get_outputs_by_outpoints u [] = []
get_outputs_by_outpoints u (o ∷ os) = one_of (output_at u o) ++ get_outputs_by_outpoints u os

-- A loop over a set, with the outputs that it passes over, up to the limit.
unfoldable pub fill : List Outpoint → ℕ → List Output → OutputSet → List Output
fill passed limit ret [] = ret
fill passed limit ret ((k, o) ∷ set) =
    let more = fill passed limit (ret ++ o ∷ []) set in
    let less = fill passed limit ret set in
    if contains (outpoint_of o) passed
    then less
    else if length (ret ++ o ∷ []) == limit
    then ret ++ o ∷ []
    else more

unfoldable pub get_outputs_by_scriptpubkey : UtxoDb → Script → ℕ → List Output
unfolding fill outputs_of
get_outputs_by_scriptpubkey u s limit =
    let ret =
      fill u.mempool_spent_confirmed_outpoints limit [] (outputs_of s u.scriptpubkey_to_output) in
    if ltb (length ret) limit
    then fill [] limit ret (outputs_of s u.mempool_scriptpubkey_to_output)
    else ret

-- `std::uint64_t`
unfoldable pub add64 : ℕ → ℕ → ℕ
add64 a b = (a + b) % 2 ^ 64

unfoldable pub sum_values : List Outpoint → ℕ → OutputSet → ℕ
unfolding add64
sum_values passed ret [] = ret
sum_values passed ret ((k, o) ∷ set) =
    sum_values passed (if contains (outpoint_of o) passed then ret else add64 ret o.value) set

unfoldable pub get_balance_by_scriptpubkey : UtxoDb → Script → ℕ
unfolding sum_values outputs_of
get_balance_by_scriptpubkey u s =
    sum_values []
      (sum_values u.mempool_spent_confirmed_outpoints 0 (outputs_of s u.scriptpubkey_to_output))
      (outputs_of s u.mempool_scriptpubkey_to_output)
