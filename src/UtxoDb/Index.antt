-- ===== src/UtxoDb/Index.antt =====
-- The index by script of `utxodb` (include/gs++/utxodb.hpp) against its map of outputs.
use cpp_slp_graph_search.Prelude.{
  ◌≡◌, refl, sym, ap, ◌∙◌, [], ◌∷◌, arith, Option, none, some, inl, inr, Option-cases, All, ite,
}
use cpp_slp_graph_search.Prelude.Keys.{bytes_key, bytes_discrete}
use cpp_slp_graph_search.Prelude.Map.{
  find-erase_same, find-erase_other, All-erase, Map, find, insert, assign, erase, or_else,
  find-insert, find-assign, find-erase, find-All, All-insert,
}
use cpp_slp_graph_search.Tx.Types.{Outpoint, Output, outpoint_of, outpoint_key, Outpoint-discrete}
use cpp_slp_graph_search.UtxoDb.Store.{
  Script, OutputSet, ScriptIndex, outputs_of, stored, insert_output, add_to_script, put_or_erase,
  remove_from_script,
}

-- What a script's set holds of an output.
abbrev pub of_script : Script → Option Output → Option Output
of_script s none = none
of_script s (some o) = ite (bytes_discrete o.scriptpubkey s) (some o) none

abbrev pub IsKept : Outpoint × Output → Type 0
IsKept entry = outpoint_of entry.1 ≡ entry.0

-- The map holds each output at its outpoint, and the set of a script has exactly the outputs of
-- the map with that script.
pub record IsIndexed (map : Map Outpoint Output) (index : ScriptIndex) : Type 0 where
  pub kept : All IsKept map
  pub agree : (s : Script) (o : Outpoint) → find o (outputs_of s index) ≡ of_script s (find o map)

pub IsIndexed-empty : IsIndexed [] []
unfolding outputs_of find
IsIndexed-empty = record { kept = tt; agree = λ s o. refl }

outputs_of-assign :
    (s t : Script) (set : OutputSet) (index : ScriptIndex)
    → outputs_of s (assign t set index) ≡ ite (bytes_discrete t s) set (outputs_of s index)
unfolding outputs_of
outputs_of-assign s t set index = ground (arith, find-assign t s set index)

outputs_of-erase :
    (s t : Script) (index : ScriptIndex)
    → outputs_of s (erase t index) ≡ ite (bytes_discrete t s) [] (outputs_of s index)
unfolding outputs_of
outputs_of-erase s t index = ground (arith, find-erase t s index)

outputs_of-put_or_erase :
    (s t : Script) (set : OutputSet) (index : ScriptIndex)
    → outputs_of s (put_or_erase t set index) ≡ ite (bytes_discrete t s) set (outputs_of s index)
outputs_of-put_or_erase s t [] index = outputs_of-erase s t index
outputs_of-put_or_erase s t (e ∷ set) index = outputs_of-assign s t (e ∷ set) index

outputs_of-none : (s : Script) (index : ScriptIndex) → find s index ≡ none → outputs_of s index ≡ []
unfolding outputs_of
outputs_of-none s index e = rw (e, outputs_of) refl

outputs_of-some :
    (s : Script) (index : ScriptIndex) {set : OutputSet}
    → find s index ≡ some set
    → outputs_of s index ≡ set
unfolding outputs_of
outputs_of-some s index e = rw (e, outputs_of) refl

remove_from_script-none :
    (t : Script) (out : Output) (index : ScriptIndex)
    → find t index ≡ none
    → remove_from_script t out index ≡ index
unfolding remove_from_script
remove_from_script-none t out index e = rw (e, remove_from_script) refl

remove_from_script-some :
    (t : Script) (out : Output) (index : ScriptIndex) {set : OutputSet}
    → find t index ≡ some set
    → remove_from_script t out index ≡ put_or_erase t (erase (outpoint_of out) set) index
unfolding remove_from_script
remove_from_script-some t out index e = rw (e, remove_from_script) refl

find-remove_from_script :
    (s t : Script) (out : Output) (index : ScriptIndex) (o : Outpoint)
    → find o (outputs_of s (remove_from_script t out index))
      ≡ ite
          (bytes_discrete t s)
          (ite (Outpoint-discrete (outpoint_of out) o) none (find o (outputs_of s index)))
          (find o (outputs_of s index))
unfolding find
find-remove_from_script s t out index o = elim (Option-cases (find t index)) [
  | inl absent ↦
      let same = ap (λ i. find o (outputs_of s i)) (remove_from_script-none t out index absent) in
      elim (bytes_discrete t s) [
        | yes e ↦
            let empty =
              ap (find o) (outputs_of-none s index (ap (λ k. find k index) (sym e) ∙ absent)) in
            ground (arith, same, empty)
        | no other ↦ ground (arith, same)
      ]
  | inr (set, there) ↦
      let step =
        ap (λ i. find o (outputs_of s i)) (remove_from_script-some t out index there)
        ∙ ap (find o) (outputs_of-put_or_erase s t (erase (outpoint_of out) set) index) in
      elim (bytes_discrete t s) [
        | yes e ↦
            let set_of =
              ap (find o) (outputs_of-some s index (ap (λ k. find k index) (sym e) ∙ there)) in
            ground (arith, step, set_of, find-erase (outpoint_of out) o set)
        | no other ↦ ground (arith, step)
      ]
]

stored-found :
    (map : Map Outpoint Output) (m : Output) {o : Output}
    → find (outpoint_of m) map ≡ some o
    → stored map m ≡ o
unfolding stored
stored-found map m e = rw (e, stored) refl

stored-new :
    (map : Map Outpoint Output) (m : Output) → find (outpoint_of m) map ≡ none → stored map m ≡ m
unfolding stored
stored-new map m e = rw (e, stored) refl

find-add_to_script :
    (s t : Script) (oid : Output) (index : ScriptIndex) (o : Outpoint)
    → find o (outputs_of s (add_to_script t oid index))
      ≡ ite
          (bytes_discrete t s)
          (or_else
            (find o (outputs_of s index))
            (ite (Outpoint-discrete (outpoint_of oid) o) (some oid) none))
          (find o (outputs_of s index))
unfolding add_to_script
find-add_to_script s t oid index o =
    let step =
      ap (find o)
        (outputs_of-assign s t (insert (outpoint_of oid) oid (outputs_of t index)) index) in
    elim (bytes_discrete t s) [
      | yes e ↦
          let put = find-insert (outpoint_of oid) o oid (outputs_of t index) in
          let set_of = ap (λ k. find o (outputs_of k index)) e in ground (arith, step, put, set_of)
      | no other ↦ ground (arith, step)
    ]

pub find-insert_output :
    (o : Outpoint) (m : Output) (map : Map Outpoint Output)
    → find o (insert_output m map)
      ≡ or_else (find o map) (ite (Outpoint-discrete (outpoint_of m) o) (some m) none)
unfolding insert_output
find-insert_output o m map = find-insert (outpoint_of m) o m map

insert_output-IsKept :
    (m : Output) (map : Map Outpoint Output) → All IsKept map → All IsKept (insert_output m map)
unfolding insert_output
insert_output-IsKept m map h = All-insert IsKept (outpoint_of m) m map h refl

agree-insert :
    (map : Map Outpoint Output) (index : ScriptIndex) (m : Output)
    → find (outpoint_of m) map ≡ none
    → IsIndexed map index
    → (s : Script) (o : Outpoint)
    → find o (outputs_of s (add_to_script m.scriptpubkey m index))
      ≡ of_script s (find o (insert_output m map))
agree-insert map index m new h s o =
    let added = find-add_to_script s m.scriptpubkey m index o in
    let before = h.agree s o in
    let put = ap (of_script s) (find-insert_output o m map) in
    elim (Outpoint-discrete (outpoint_of m) o) [
      | yes here ↦
          let gone = ap (λ k. find k map) (sym here) ∙ new in
          let before' = before ∙ ap (of_script s) gone in ground (arith, added, before', put, gone)
      | no other ↦ elim (Option-cases (find o map)) [
        | inl e ↦
            let before' = before ∙ ap (of_script s) e in ground (arith, added, before', put, e)
        | inr (x, e) ↦
            let before' = before ∙ ap (of_script s) e in ground (arith, added, before', put, e)
      ]
    ]

-- A new output enters the map and the index.
pub insert_output-IsIndexed :
    (map : Map Outpoint Output) (index : ScriptIndex) (m : Output)
    → find (outpoint_of m) map ≡ none
    → IsIndexed map index
    → IsIndexed (insert_output m map) (add_to_script m.scriptpubkey (stored map m) index)
insert_output-IsIndexed map index m new h = record {
  kept = insert_output-IsKept m map h.kept;
  agree = λ s o. rw (stored-new map m new) (agree-insert map index m new h s o);
}

agree-erase :
    (map : Map Outpoint Output) (index : ScriptIndex) (m : Outpoint) (out : Output)
    → find m map ≡ some out
    → IsIndexed map index
    → (s : Script) (o : Outpoint)
    → find o (outputs_of s (remove_from_script out.scriptpubkey out index))
      ≡ of_script s (find o (erase m map))
agree-erase map index m out there h s o =
    let removed = find-remove_from_script s out.scriptpubkey out index o in
    let before = h.agree s o in
    let same = find-All IsKept m map h.kept there in
    elim (Outpoint-discrete (outpoint_of out) o) [
      | yes here ↦
          let at_m : m ≡ o = sym same ∙ here in
          let found = ap (λ k. find k map) (sym at_m) ∙ there in
          let before' = before ∙ ap (of_script s) found in
          let after = ap (of_script s) (find-erase_same map at_m) in
          ground (arith, removed, before', after)
      | no other ↦
          let after = ap (of_script s) (find-erase_other map (λ e. other (same ∙ e))) in
          ground (arith, removed, before, after)
    ]

-- A spent output leaves both.
pub erase-IsIndexed :
    (map : Map Outpoint Output) (index : ScriptIndex) (m : Outpoint) (out : Output)
    → find m map ≡ some out
    → IsIndexed map index
    → IsIndexed (erase m map) (remove_from_script out.scriptpubkey out index)
erase-IsIndexed map index m out there h = record {
  kept = All-erase IsKept m map h.kept;
  agree = agree-erase map index m out there h;
}
