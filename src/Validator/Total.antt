-- ===== src/Validator/Total.antt =====
-- The checks of `slp_validator` (src/slp_validator.cpp) end.
use cpp_slp_graph_search.Prelude.{
  ℕ, suc, ◌≡◌, ◌≢◌, refl, sym, subst, List, [], ◌∷◌, none, some, true, false, Bool, not, ◌&&◌, ltb,
  ◌==◌, inl, inr, Bool-cases, Option-cases, if◌then◌else◌, length,
}
use cpp_slp_graph_search.Slp.Message.{Hash, SlpTx, invalid, genesis, mint, send, is_invalid}
use cpp_slp_graph_search.Tx.Types.{Outpoint, Transaction}
use cpp_slp_graph_search.Tx.Outputs.{output_slp_amount}
use cpp_slp_graph_search.Validator.State.{Validator, has, has_valid, get, insert_tx, add_valid_txid}
use cpp_slp_graph_search.Validator.Check.{
  Verdict, verdict, rare_condition, out_of_fuel, and_then, OutputsCheck, valid_parent, spend,
  check_send, check_mint, check_genesis, check_outputs_valid, validate_with, switch_on, switch,
  validate_tx, validate, judged, add_tx, add128,
}
use cpp_slp_graph_search.Validator.Send.{
  Fits, IsWellFormed, IsKept, valid_parent-IsKept, check_outputs_valid_lem, spend-none, spend-some,
  spent_amount,
}
use cpp_slp_graph_search.Prelude.Map.{find-All}
use cpp_slp_graph_search.Prelude.Keys.{bytes_key}
use cpp_slp_graph_search.Validator.Invariant.{insert_tx-IsWellFormed}
use cpp_slp_graph_search.Validator.Mint.{check_mint-ne-out_of_fuel}

-- A result or the exception, and not the end of the fuel.
abbrev pub Ends {ℓ} : {A : Type ℓ} → Verdict A → Type 0
Ends (verdict a) = Unit
Ends rare_condition = Unit
Ends out_of_fuel = ⊥

pub and_then-Ends {ℓ κ} :
    {A : Type ℓ} {B : Type κ} (r : Verdict A) (f : A → Verdict B)
    → Ends r
    → ((a : A) → Ends (f a))
    → Ends (and_then r f)
and_then-Ends (verdict a) f h next = next a
and_then-Ends rare_condition f h next = tt
and_then-Ends out_of_fuel f h next = h

spend-Ends :
    (v : Validator) (inner : OutputsCheck) (tx : Transaction) (seen : List Hash) (amount : ℕ)
    (os : List Outpoint)
    → IsWellFormed v
    → Ends (spend v (check_outputs_valid v inner) tx seen amount os)
unfolding spend
spend-Ends v inner tx seen amount [] h = tt
spend-Ends v inner tx seen amount (o ∷ os) h = elim (Option-cases (valid_parent v tx o)) [
  | inl e ↦
      let step = spend-none v (check_outputs_valid v inner) tx seen amount o os e in
      subst Ends (sym step.0) (spend-Ends v inner tx seen amount os h)
  | inr (txi, e) ↦
      let kept = valid_parent-IsKept v tx txi o h e in
      let valid : has_valid v txi.txid ≡ true =
        subst (λ j. has_valid v j ≡ true) (sym kept.0.0) kept.1 in
      let there : has v txi.txid ≡ true = subst (λ j. has v j ≡ true) (sym kept.0.0) kept.2 in
      let (seen', ok) = check_outputs_valid_lem v inner seen txi valid there in
      let step = spend-some v (check_outputs_valid v inner) tx txi seen seen' amount o os e ok in
      subst Ends (sym step.0)
        (spend-Ends v inner tx seen' (add128 amount (spent_amount v tx o)) os h)
]

check_mint-Ends : (r : Verdict Bool) → r ≢ out_of_fuel → Ends r
check_mint-Ends (verdict b) h = tt
check_mint-Ends rare_condition h = tt
check_mint-Ends out_of_fuel h = h refl

-- A parent that counts as valid is not looked into.
validate_with-valid :
    (v : Validator) (inner : OutputsCheck) (tx : Transaction)
    → has_valid v tx.txid ≡ true
    → Ends (validate_with v inner tx)
unfolding validate_with
validate_with-valid v inner tx e = elim (Bool-cases (is_invalid tx.slp.slp_tx)) [
  | inl bad ↦ rw bad tt
  | inr fine ↦ rw (fine, e) tt
]

-- The body of `check_genesis` behind the look at the first input.
group_check : Validator → (Transaction → Verdict Bool) → Outpoint → Verdict Bool
group_check v validate o =
    if has_valid v o.txid
    then elim (get v o.txid) [
      | none ↦ verdict false
      | some txi ↦
          if txi.slp.token_type == 0x81 && ltb 0 (output_slp_amount txi o.vout)
          then validate txi
          else verdict false
    ]
    else verdict false

group_check-Ends :
    (v : Validator) (inner : OutputsCheck) (o : Outpoint)
    → IsWellFormed v
    → Ends (group_check v (validate_with v inner) o)
unfolding group_check get
group_check-Ends v inner o h = elim (Bool-cases (has_valid v o.txid)) [
  | inl valid ↦ elim (Option-cases (get v o.txid)) [
    | inl e ↦ rw (valid, e) tt
    | inr (txi, e) ↦
        let own : txi.txid ≡ o.txid = (find-All IsKept o.txid v.transaction_map h e).0 in
        let valid' = subst (λ j. has_valid v j ≡ true) (sym own) valid in
        elim (Bool-cases (txi.slp.token_type == 0x81 && ltb 0 (output_slp_amount txi o.vout))) [
          | inl group ↦ rw (valid, e, group) (validate_with-valid v inner txi valid')
          | inr other ↦ rw (valid, e, other) tt
        ]
  ]
  | inr unjudged ↦ rw unjudged tt
]

check_genesis-group :
    (v : Validator) (validate : Transaction → Verdict Bool) (tx : Transaction) (os : List Outpoint)
    → tx.slp.token_type == 0x41 ≡ true
    → tx.inputs ≡ os
    → check_genesis v validate tx
      ≡ elim os [ [] ↦ verdict false | o ∷ rest ↦ group_check v validate o ]
unfolding check_genesis group_check
check_genesis-group v validate tx [] child e = rw (child, e, check_genesis) refl
check_genesis-group v validate tx (o ∷ os) child e = rw (child, e, check_genesis) refl

check_genesis-parent :
    (v : Validator) (validate : Transaction → Verdict Bool) (tx : Transaction)
    → tx.slp.token_type == 0x41 ≡ false
    → check_genesis v validate tx ≡ verdict true
unfolding check_genesis
check_genesis-parent v validate tx e = rw e refl

inputs-Ends :
    (v : Validator) (inner : OutputsCheck) (os : List Outpoint)
    → IsWellFormed v
    → Ends (elim os [ [] ↦ verdict false | o ∷ rest ↦ group_check v (validate_with v inner) o ])
inputs-Ends v inner [] h = tt
inputs-Ends v inner (o ∷ os) h = group_check-Ends v inner o h

check_genesis-Ends :
    (v : Validator) (inner : OutputsCheck) (tx : Transaction)
    → IsWellFormed v
    → Ends (check_genesis v (validate_with v inner) tx)
check_genesis-Ends v inner tx h = elim (Bool-cases (tx.slp.token_type == 0x41)) [
  | inl child ↦
      subst Ends (sym (check_genesis-group v (validate_with v inner) tx tx.inputs child refl))
        (inputs-Ends v inner tx.inputs h)
  | inr other ↦ subst Ends (sym (check_genesis-parent v (validate_with v inner) tx other)) tt
]

switch_on-Ends :
    (v : Validator) (inner : OutputsCheck) (seen : List Hash) (tx : Transaction) (t : SlpTx)
    → IsWellFormed v
    → Ends (switch_on v inner seen tx t)
unfolding switch_on check_send
switch_on-Ends v inner seen tx invalid h = tt
switch_on-Ends v inner seen tx (genesis g) h =
    and_then-Ends (check_genesis v (validate_with v inner) tx) _ (check_genesis-Ends v inner tx h)
      λ b. tt
switch_on-Ends v inner seen tx (mint m) h =
    and_then-Ends (check_mint v tx) _ (check_mint-Ends _ (check_mint-ne-out_of_fuel v tx h)) λ b. tt
switch_on-Ends v inner seen tx (send amounts) h =
    and_then-Ends (spend v (check_outputs_valid v inner) tx seen 0 tx.inputs) _
      (spend-Ends v inner tx seen 0 tx.inputs h) λ r. tt

validate_tx-Ends : (v : Validator) (tx : Transaction) → IsWellFormed v → Ends (validate_tx v tx)
unfolding validate_tx validate_with
validate_tx-Ends v tx h = elim (Bool-cases (is_invalid tx.slp.slp_tx)) [
  | inl bad ↦ rw bad tt
  | inr fine ↦ elim (Bool-cases (has_valid v tx.txid)) [
    | inl old ↦ rw (fine, old) tt
    | inr new ↦
        rw (fine, new)
          (and_then-Ends (switch (suc (suc (length v.transaction_map))) v [] tx) _
            (unfold switch in
              switch_on-Ends v (switch (suc (length v.transaction_map)) v) [] tx tx.slp.slp_tx h)
            λ r. tt)
  ]
]

judged-Ends : (v : Validator) (txid : Hash) (r : Verdict Bool) → Ends r → Ends (judged v txid r)
unfolding judged
judged-Ends v txid (verdict true) h = tt
judged-Ends v txid (verdict false) h = tt
judged-Ends v txid rare_condition h = tt
judged-Ends v txid out_of_fuel h = h

validate-Ends : (v : Validator) (txid : Hash) → IsWellFormed v → Ends (validate v txid)
unfolding validate
validate-Ends v txid h = elim (Option-cases (get v txid)) [
  | inl e ↦ rw (e, validate) tt
  | inr (tx, e) ↦ rw (e, validate) (judged-Ends v txid (validate_tx v tx) (validate_tx-Ends v tx h))
]

-- The same, and the exception only for a transaction that is not trusted.
abbrev pub EndsBy {ℓ} : {A : Type ℓ} → Bool → Verdict A → Type 0
EndsBy trusted (verdict a) = Unit
EndsBy trusted rare_condition = trusted ≡ false
EndsBy trusted out_of_fuel = ⊥

untrusted-EndsBy {ℓ} : {A : Type ℓ} (r : Verdict A) → Ends r → EndsBy false r
untrusted-EndsBy (verdict a) h = tt
untrusted-EndsBy rare_condition h = refl
untrusted-EndsBy out_of_fuel h = h

-- Over a map that holds transactions under their own ids, with quantities of 64 bits, `add_tx` of a
-- transaction with such quantities always ends: with a result, or, where the transaction is not
-- trusted, with the exception of `check_mint`.
pub add_tx-EndsBy :
    (v : Validator) (tx : Transaction) (trusted : Bool)
    → IsWellFormed v
    → Fits tx.slp.slp_tx
    → EndsBy trusted (add_tx v tx trusted)
unfolding add_tx
add_tx-EndsBy v tx trusted h f = elim (Bool-cases (is_invalid tx.slp.slp_tx)) [
  | inl bad ↦ rw bad tt
  | inr fine ↦ rw fine (by_trust trusted)
]
  where
    judged_result : Verdict (Validator × Bool)
    judged_result =
        and_then (validate (insert_tx v tx) tx.txid)
          (λ r. verdict (r.0, r.1 && not (has v tx.txid)))

    by_trust :
        (t : Bool)
        → EndsBy t (
            if t
            then verdict ((add_valid_txid (insert_tx v tx) tx.txid).0, not (has v tx.txid))
            else judged_result)
    by_trust true = tt
    by_trust false = untrusted-EndsBy judged_result (
        and_then-Ends (validate (insert_tx v tx) tx.txid) _
          (validate-Ends (insert_tx v tx) tx.txid (insert_tx-IsWellFormed v tx h f)) λ r. tt)
