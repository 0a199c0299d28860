-- ===== src/UtxoDb/Rollback.antt =====
-- `utxodb::rollback` (src/utxodb.cpp).
use cpp_slp_graph_search.Prelude.{
  ◌≡◌, refl, ◌∙◌, List, [], ◌∷◌, some, arith, inl, inr, Option-cases,
}
use cpp_slp_graph_search.Prelude.Map.{find, find-insert}
use cpp_slp_graph_search.Tx.Types.{Outpoint, Output, outpoint_of, outpoint_key}
use cpp_slp_graph_search.UtxoDb.Store.{
  UtxoDb, restore, unindex, restore_all, unindex_all, rollback_to, rollback_by, rollback,
  insert_output,
}

-- `v` has the outputs of `u` at their outpoints, and its height.
record Keeps (u v : UtxoDb) : Type 0 where
  pub height : v.current_block_height ≡ u.current_block_height
  pub found :
      (o : Outpoint) (x : Output) → find o u.outpoint_map ≡ some x → find o v.outpoint_map ≡ some x

Keeps-refl : (u : UtxoDb) → Keeps u u
Keeps-refl u = record { height = refl; found = λ o x e. e }

Keeps-trans : (u v w : UtxoDb) → Keeps u v → Keeps v w → Keeps u w
Keeps-trans u v w h k = record {
  height = k.height ∙ h.height;
  found = λ o x e. k.found o x (h.found o x e);
}

restore-Keeps : (u : UtxoDb) (m : Output) → Keeps u (restore u m)
unfolding restore insert_output
restore-Keeps u m = record {
  height = refl;
  found = λ o x e. find-insert (outpoint_of m) o m u.outpoint_map ∙ ground (arith, e);
}

unindex-Keeps : (u : UtxoDb) (m : Outpoint) → Keeps u (unindex u m)
unfolding unindex
unindex-Keeps u m = elim (Option-cases (find m u.outpoint_map)) [
  | inl e ↦ rw (e, unindex) (Keeps-refl u)
  | inr (x, e) ↦ rw (e, unindex) record { height = refl; found = λ o x e. e }
]

restore_all-Keeps : (ms : List Output) (u : UtxoDb) → Keeps u (restore_all ms u)
unfolding restore_all
restore_all-Keeps [] u = Keeps-refl u
restore_all-Keeps (m ∷ ms) u =
    Keeps-trans u (restore u m) _ (restore-Keeps u m) (restore_all-Keeps ms (restore u m))

unindex_all-Keeps : (ms : List Outpoint) (u : UtxoDb) → Keeps u (unindex_all ms u)
unfolding unindex_all
unindex_all-Keeps [] u = Keeps-refl u
unindex_all-Keeps (m ∷ ms) u =
    Keeps-trans u (unindex u m) _ (unindex-Keeps u m) (unindex_all-Keeps ms (unindex u m))

rollback_to-Keeps :
    (u : UtxoDb) (removed : List (List Output) × List Output)
    (added : List (List Outpoint) × List Outpoint)
    → Keeps u (rollback_to u removed added)
unfolding rollback_to
rollback_to-Keeps u (rs, rb_removed) (bs, rb_added) =
    let popped = record u { last_block_removed = rs; last_block_added = bs } in
    Keeps-trans u (restore_all rb_removed popped) _
      (Keeps-trans u popped _ (record { height = refl; found = λ o x e. e })
        (restore_all-Keeps rb_removed popped))
      (unindex_all-Keeps rb_added (restore_all rb_removed popped))

rollback_by-Keeps :
    (u : UtxoDb) (removed : List (List Output)) (added : List (List Outpoint))
    → Keeps u (rollback_by u removed added)
rollback_by-Keeps u [] added = Keeps-refl u
rollback_by-Keeps u (r ∷ removed) [] = Keeps-refl u
rollback_by-Keeps u (r ∷ removed) (a ∷ added) = rollback_to-Keeps u _ _

-- A rollback takes no output out of the map by outpoint, also none of those that the block added, and it
-- leaves the height as it was.
pub rollback-outpoint_map :
    (u : UtxoDb)
    → ((rollback u).current_block_height ≡ u.current_block_height)
      × ((o : Outpoint) (x : Output)
          → find o u.outpoint_map ≡ some x
          → find o (rollback u).outpoint_map ≡ some x)
unfolding rollback
rollback-outpoint_map u =
    let kept = rollback_by-Keeps u u.last_block_removed u.last_block_added in
    (kept.height, kept.found)
