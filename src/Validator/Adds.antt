-- ===== src/Validator/Adds.antt =====
-- Which transactions `slp_validator::add_tx` (src/slp_validator.cpp) makes known and valid.
use cpp_slp_graph_search.Prelude.{
  ◌≡◌, refl, subst, sym, ◌∙◌, List, [], ◌∷◌, true, false, Bool, not, ◌||◌, ◌&&◌, arith, inl, inr,
  Bool-cases, Option-cases, if◌then◌else◌,
}
use cpp_slp_graph_search.Prelude.Keys.{bytes_key, bytes_discrete}
use cpp_slp_graph_search.Prelude.Set.{contains, add}
use cpp_slp_graph_search.Slp.Message.{Hash, is_invalid}
use cpp_slp_graph_search.Tx.Types.{Transaction}
use cpp_slp_graph_search.Validator.State.{Validator, has, has_valid, get, add_valid_txid, insert_tx}
use cpp_slp_graph_search.Validator.Check.{
  Verdict, verdict, rare_condition, out_of_fuel, and_then, judged, validate, validate_tx, add_tx,
}
use cpp_slp_graph_search.Graph.Known.{has_key-insert}

-- From `v` to a validator: the transaction is valid from now on if it was accepted, and no other
-- becomes valid; and it is known from now on.
pub record Grown (v v' : Validator) (txid : Hash) (accepted kept : Bool) : Type 0 where
  pub valid : (x : Hash) → has_valid v' x ≡ (has_valid v x || (accepted && contains x (txid ∷ [])))
  pub known : (x : Hash) → has v' x ≡ (has v x || (kept && contains x (txid ∷ [])))

-- What holds of a result, if there is one.
abbrev pub Adds : Validator → Hash → Bool → Verdict (Validator × Bool) → Type 0
Adds v txid kept (verdict (v', accepted)) = Grown v v' txid accepted kept
Adds v txid kept rare_condition = Unit
Adds v txid kept out_of_fuel = Unit

contains-add :
    (x k : Hash) (s : List Hash) → contains x (add k s) ≡ (contains x s || contains x (k ∷ []))
unfolding add contains
contains-add x k s = elim (bytes_discrete k x) [
  | yes same ↦ let e = subst (λ j. contains j s ≡ contains x s) (sym same) refl in ground (arith, e)
  | no other ↦ ground arith
]

add_valid_txid-Grown :
    (v v' : Validator) (txid : Hash)
    → Grown v v' txid false true
    → Grown v (add_valid_txid v' txid).0 txid true true
unfolding add_valid_txid has_valid has
add_valid_txid-Grown v v' txid h = record {
  valid = λ x. contains-add x txid v'.valid ∙ ground (arith, h.valid x);
  known = h.known;
}

insert_tx-Grown : (v : Validator) (tx : Transaction) → Grown v (insert_tx v tx) tx.txid false true
unfolding insert_tx has_valid has
insert_tx-Grown v tx = record {
  valid = λ x. ground arith;
  known = λ x. has_key-insert tx.txid x tx v.transaction_map;
}

judged-Adds :
    (v v' : Validator) (txid : Hash) (r : Verdict Bool)
    → Grown v v' txid false true
    → Adds v txid true (judged v' txid r)
unfolding judged
judged-Adds v v' txid (verdict true) h = add_valid_txid-Grown v v' txid h
judged-Adds v v' txid (verdict false) h = h
judged-Adds v v' txid rare_condition h = tt
judged-Adds v v' txid out_of_fuel h = tt

validate-Adds :
    (v v' : Validator) (txid : Hash)
    → Grown v v' txid false true
    → Adds v txid true (validate v' txid)
unfolding validate
validate-Adds v v' txid h = elim (Option-cases (get v' txid)) [
  | inl e ↦ rw (e, validate) h
  | inr (tx, e) ↦ rw (e, validate) (judged-Adds v v' txid (validate_tx v' tx) h)
]

and_fresh-Adds :
    (v : Validator) (txid : Hash) (fresh : Bool) (r : Verdict (Validator × Bool))
    → fresh ≡ true
    → Adds v txid true r
    → Adds v txid true (and_then r (λ a. verdict (a.0, a.1 && fresh)))
and_fresh-Adds v txid fresh (verdict (v', b)) e h =
    subst (λ c. Grown v v' txid c true) (ground arith) h
and_fresh-Adds v txid fresh rare_condition e h = tt
and_fresh-Adds v txid fresh out_of_fuel e h = tt

-- For a transaction that is new to the validator, `add_tx` makes it known unless it has no SLP
-- message, and makes it valid just when it returns true; nothing else becomes known or valid.
pub add_tx-Adds :
    (v : Validator) (tx : Transaction) (trusted : Bool)
    → has v tx.txid ≡ false
    → Adds v tx.txid (not (is_invalid tx.slp.slp_tx)) (add_tx v tx trusted)
unfolding add_tx
add_tx-Adds v tx trusted new = elim (Bool-cases (is_invalid tx.slp.slp_tx)) [
  | inl e ↦ rw e (record { valid = λ x. ground arith; known = λ x. ground arith })
  | inr e ↦ rw e (by_trust trusted)
]
  where
    v' : Validator
    v' = insert_tx v tx

    fresh : not (has v tx.txid) ≡ true
    fresh = ground (arith, new)

    by_trust :
        (t : Bool)
        → Adds v tx.txid true (
            if t
            then verdict ((add_valid_txid v' tx.txid).0, not (has v tx.txid))
            else and_then (validate v' tx.txid) (λ r. verdict (r.0, r.1 && not (has v tx.txid))))
    by_trust true =
        subst (λ b. Grown v (add_valid_txid v' tx.txid).0 tx.txid b true) (sym fresh)
          (add_valid_txid-Grown v v' tx.txid (insert_tx-Grown v tx))
    by_trust false =
        and_fresh-Adds v tx.txid (not (has v tx.txid)) (validate v' tx.txid) fresh
          (validate-Adds v v' tx.txid (insert_tx-Grown v tx))

pub add_tx-invalid :
    (v : Validator) (tx : Transaction) (trusted : Bool)
    → is_invalid tx.slp.slp_tx ≡ true
    → add_tx v tx trusted ≡ verdict (v, false)
unfolding add_tx
add_tx-invalid v tx trusted e = rw e refl
