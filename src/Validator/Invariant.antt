-- ===== src/Validator/Invariant.antt =====
-- `slp_validator::add_tx` (src/slp_validator.cpp): the map it leaves and its result.
use cpp_slp_graph_search.Prelude.{
  subst, sym, ◌≡◌, refl, arith, Bool, true, false, not, ◌&&◌, inl, inr, Option-cases, Bool-cases,
  if◌then◌else◌,
}
use cpp_slp_graph_search.Prelude.Keys.{bytes_key}
use cpp_slp_graph_search.Prelude.Map.{find, insert}
use cpp_slp_graph_search.Prelude.Set.{contains, add, contains_self}
use cpp_slp_graph_search.Slp.Message.{Hash, is_invalid}
use cpp_slp_graph_search.Tx.Types.{Transaction}
use cpp_slp_graph_search.Validator.State.{Validator, has, has_valid, get, add_valid_txid, insert_tx}
use cpp_slp_graph_search.Validator.Check.{
  Verdict, verdict, rare_condition, out_of_fuel, and_then, judged, validate, validate_tx, add_tx,
}
use cpp_slp_graph_search.Validator.Send.{Fits, IsWellFormed}

-- After a result, the map is well formed, and a transaction that was accepted counts as valid.
abbrev pub IsOutcome : Hash → Verdict (Validator × Bool) → Type 0
IsOutcome txid (verdict (v, accepted)) =
    IsWellFormed v × ((accepted && not (has_valid v txid)) ≡ false)
IsOutcome txid rare_condition = Unit
IsOutcome txid out_of_fuel = Unit

pub insert_tx-IsWellFormed :
    (v : Validator) (tx : Transaction)
    → IsWellFormed v
    → Fits tx.slp.slp_tx
    → IsWellFormed (insert_tx v tx)
unfolding insert_tx insert
insert_tx-IsWellFormed v tx h f = elim (Option-cases (find tx.txid v.transaction_map)) [
  | inl e ↦ rw (e, insert) ((refl, f), h)
  | inr (old, e) ↦ rw (e, insert) h
]

has_valid-add_valid_txid :
    (v : Validator) (txid : Hash) → has_valid (add_valid_txid v txid).0 txid ≡ true
unfolding has_valid add_valid_txid add
has_valid-add_valid_txid v txid = elim (Bool-cases (contains txid v.valid)) [
  | inl e ↦ rw (e, e) refl
  | inr e ↦ rw e (contains_self txid v.valid)
]

add_valid_txid-IsOutcome :
    (v : Validator) (txid : Hash) (accepted : Bool)
    → IsWellFormed v
    → IsOutcome txid (verdict ((add_valid_txid v txid).0, accepted))
add_valid_txid-IsOutcome v txid accepted h =
    (unfold add_valid_txid in h, ground (arith, has_valid-add_valid_txid v txid))

judged-IsOutcome :
    (v : Validator) (txid : Hash) (r : Verdict Bool)
    → IsWellFormed v
    → IsOutcome txid (judged v txid r)
unfolding judged
judged-IsOutcome v txid (verdict true) h = add_valid_txid-IsOutcome v txid true h
judged-IsOutcome v txid (verdict false) h = (h, refl)
judged-IsOutcome v txid rare_condition h = tt
judged-IsOutcome v txid out_of_fuel h = tt

validate-IsOutcome :
    (v : Validator) (txid : Hash) → IsWellFormed v → IsOutcome txid (validate v txid)
unfolding validate
validate-IsOutcome v txid h = elim (Option-cases (get v txid)) [
  | inl e ↦
      let same : validate v txid ≡ verdict (v, false) = rw (e, validate) refl in
      subst (IsOutcome txid) (sym same) (h, refl)
  | inr (tx, e) ↦
      let same : validate v txid ≡ judged v txid (validate_tx v tx) = rw (e, validate) refl in
      subst (IsOutcome txid) (sym same) (judged-IsOutcome v txid (validate_tx v tx) h)
]

and_fresh-IsOutcome :
    (txid : Hash) (fresh : Bool) (r : Verdict (Validator × Bool))
    → IsOutcome txid r
    → IsOutcome txid (and_then r (λ a. verdict (a.0, a.1 && fresh)))
and_fresh-IsOutcome txid fresh (verdict (v, b)) (h, k) = (h, ground arith)
and_fresh-IsOutcome txid fresh rare_condition h = tt
and_fresh-IsOutcome txid fresh out_of_fuel h = tt

-- Over a map that holds transactions under their own ids, with quantities of 64 bits, and for a
-- transaction with such quantities, `add_tx` leaves such a map, and it returns true only when the
-- transaction counts as valid afterwards.
pub add_tx-IsOutcome :
    (v : Validator) (tx : Transaction) (trusted : Bool)
    → IsWellFormed v
    → Fits tx.slp.slp_tx
    → IsOutcome tx.txid (add_tx v tx trusted)
unfolding add_tx
add_tx-IsOutcome v tx trusted h f = elim (Bool-cases (is_invalid tx.slp.slp_tx)) [
  | inl e ↦ rw e (h, refl)
  | inr e ↦ rw e (by_trust trusted)
]
  where
    kept : IsWellFormed (insert_tx v tx)
    kept = insert_tx-IsWellFormed v tx h f

    fresh : Bool
    fresh = not (has v tx.txid)

    by_trust :
        (t : Bool)
        → IsOutcome tx.txid (
            if t
            then verdict ((add_valid_txid (insert_tx v tx) tx.txid).0, fresh)
            else and_then (validate (insert_tx v tx) tx.txid) (λ r. verdict (r.0, r.1 && fresh)))
    by_trust true = add_valid_txid-IsOutcome (insert_tx v tx) tx.txid fresh kept
    by_trust false =
        and_fresh-IsOutcome tx.txid fresh (validate (insert_tx v tx) tx.txid)
          (validate-IsOutcome (insert_tx v tx) tx.txid kept)
