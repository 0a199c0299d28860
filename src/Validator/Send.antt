-- ===== src/Validator/Send.antt =====
-- `slp_validator::check_send` (src/slp_validator.cpp) against the sums of amounts.
use cpp_slp_graph_search.Prelude.{
  ℕ, zero, suc, ◌+◌, ◌*◌, ◌^◌, ◌≤◌, ◌<◌, ◌≡◌, refl, ap, ◌∙◌, ◌-◌, subst, List, [], ◌∷◌, arith, true,
  false, not, none, some, ltb, leb, length, All, map, length-map, inl, inr, Option-cases,
  Bool-cases, get_or,
}
use cpp_slp_graph_search.Prelude.Keys.{bytes_key}
use cpp_slp_graph_search.Prelude.Map.{find, find-All, has_key}
use cpp_slp_graph_search.Prelude.Set.{contains}
use cpp_slp_graph_search.Slp.Message.{Hash, SlpTx, invalid, genesis, mint, send, is_invalid}
use cpp_slp_graph_search.Slp.Sound.{IsAmount}
use cpp_slp_graph_search.Tx.Types.{Outpoint, Transaction}
use cpp_slp_graph_search.Tx.Outputs.{slp_amount_of, slp_amount_of, output_slp_amount}
use cpp_slp_graph_search.Validator.State.{Validator, has, has_valid, get}
use cpp_slp_graph_search.Validator.Check.{
  valid_parent, OutputsCheck, verdict, spend, check_outputs_valid, output_amount, add128,
  validate_tx, validate_with, switch, switch_on, check_send,
}

unfoldable pub total : List ℕ → ℕ
total [] = 0
total (n ∷ ns) = n + total ns

-- The quantities of a message have 64 bits.
abbrev pub Fits : SlpTx → Type 0
Fits invalid = Unit
Fits (genesis g) = IsAmount g.qty
Fits (mint m) = IsAmount m.qty
Fits (send amounts) = All IsAmount amounts

-- The map holds each transaction under its own id.
abbrev pub IsKept : Hash × Transaction → Type 0
IsKept entry = (entry.1.txid ≡ entry.0) × Fits entry.1.slp.slp_tx

abbrev pub IsWellFormed : Validator → Type 0
IsWellFormed v = All IsKept v.transaction_map

-- What the loop of `check_send` adds for an input.
unfoldable pub spent_amount : Validator → Transaction → Outpoint → ℕ
spent_amount v tx o = elim (valid_parent v tx o) [
  | none ↦ 0
  | some txi ↦ output_slp_amount txi o.vout
]

get_or-IsAmount : (ns : List ℕ) (i : ℕ) → All IsAmount ns → IsAmount (get_or ns i 0)
get_or-IsAmount [] i h = omega arith
get_or-IsAmount (n ∷ ns) zero (h, hs) = h
get_or-IsAmount (n ∷ ns) (suc i) (h, hs) = get_or-IsAmount ns i hs

slp_amount_of-IsAmount : (t : SlpTx) (vout : ℕ) → Fits t → IsAmount (slp_amount_of t vout)
unfolding slp_amount_of
slp_amount_of-IsAmount invalid vout h = omega arith
slp_amount_of-IsAmount (genesis g) vout h = ground arith
slp_amount_of-IsAmount (mint m) vout h = ground arith
slp_amount_of-IsAmount (send amounts) vout h = ground (arith, get_or-IsAmount amounts (vout - 1) h)

output_slp_amount-IsAmount :
    (tx : Transaction) (vout : ℕ) → Fits tx.slp.slp_tx → IsAmount (output_slp_amount tx vout)
unfolding output_slp_amount
output_slp_amount-IsAmount tx vout h = slp_amount_of-IsAmount tx.slp.slp_tx vout h

pub valid_parent-IsKept :
    (v : Validator) (tx txi : Transaction) (o : Outpoint)
    → IsWellFormed v
    → valid_parent v tx o ≡ some txi
    → IsKept (o.txid, txi) × (has_valid v o.txid ≡ true) × (has v o.txid ≡ true)
unfolding valid_parent get has has_key
valid_parent-IsKept v tx txi o h e = elim (Option-cases (find o.txid v.transaction_map)) [
  | inl missing ↦ absurd (ground arith)
  | inr (t, there) ↦
      let same : t ≡ txi = ground arith in
      (
        subst (λ x. IsKept (o.txid, x)) same (find-All IsKept o.txid v.transaction_map h there),
        ground arith,
        ground arith,
      )
]

pub check_outputs_valid_lem :
    (v : Validator) (inner : OutputsCheck) (seen : List Hash) (tx : Transaction)
    → has_valid v tx.txid ≡ true
    → has v tx.txid ≡ true
    → (seen' : List Hash) × (check_outputs_valid v inner seen tx ≡ verdict (seen', true))
unfolding check_outputs_valid
check_outputs_valid_lem v inner seen tx ok there = elim (Bool-cases (contains tx.txid seen)) [
  | inl old ↦ (seen, rw (there, old) refl)
  | inr new ↦ (tx.txid ∷ seen, rw (there, new, ok) refl)
]

pub spend-none :
    (v : Validator) (check : OutputsCheck) (tx : Transaction) (seen : List Hash) (amount : ℕ)
    (o : Outpoint) (os : List Outpoint)
    → valid_parent v tx o ≡ none
    → (spend v check tx seen amount (o ∷ os) ≡ spend v check tx seen amount os)
      × (spent_amount v tx o ≡ 0)
unfolding spend spent_amount
spend-none v check tx seen amount o os e = (rw (e, spend) refl, rw (e, spent_amount) refl)

pub spend-some :
    (v : Validator) (check : OutputsCheck) (tx txi : Transaction) (seen seen' : List Hash)
    (amount : ℕ) (o : Outpoint) (os : List Outpoint)
    → valid_parent v tx o ≡ some txi
    → check seen txi ≡ verdict (seen', true)
    → (spend v check tx seen amount (o ∷ os)
        ≡ spend v check tx seen' (add128 amount (spent_amount v tx o)) os)
      × (spent_amount v tx o ≡ output_slp_amount txi o.vout)
unfolding spend spent_amount
spend-some v check tx txi seen seen' amount o os e ok =
    (rw (e, ok, spend, spent_amount) refl, rw (e, spent_amount) refl)

add128_lem : (a b : ℕ) → a + b < 2 ^ 128 → add128 a b ≡ a + b
unfolding add128
add128_lem a b h = omega arith

spend_lem :
    (v : Validator) (inner : OutputsCheck) (tx : Transaction) (seen : List Hash) (amount : ℕ)
    (os : List Outpoint)
    → IsWellFormed v
    → amount + total (map (spent_amount v tx) os) < 2 ^ 128
    → (seen' : List Hash) × (spend v (check_outputs_valid v inner) tx seen amount os
        ≡ verdict (seen', amount + total (map (spent_amount v tx) os)))
unfolding total
spend_lem v inner tx seen amount [] h lt =
    (seen, unfold spend in ap (λ n. verdict (seen, n)) (omega arith))
spend_lem v inner tx seen amount (o ∷ os) h lt = elim (Option-cases (valid_parent v tx o)) [
  | inl skipped ↦
      let check = check_outputs_valid v inner in
      let (same, zero_amount) = spend-none v check tx seen amount o os skipped in
      let (seen', rest) = spend_lem v inner tx seen amount os h (omega (arith, zero_amount, lt)) in
      (seen', same ∙ rest ∙ ap (λ n. verdict (seen', n)) (omega (arith, zero_amount)))
  | inr (txi, e) ↦
      let check = check_outputs_valid v inner in
      let (kept, ok, there) = valid_parent-IsKept v tx txi o h e in
      let (seen₁, passed) =
        check_outputs_valid_lem v inner seen txi (ap (has_valid v) kept.0 ∙ ok)
          (ap (has v) kept.0 ∙ there) in
      let (same, _) = spend-some v check tx txi seen seen₁ amount o os e passed in
      let sum = add128_lem amount (spent_amount v tx o) (omega (arith, lt)) in
      let (seen', rest) =
        spend_lem v inner tx seen₁ (amount + spent_amount v tx o) os h (omega (arith, lt)) in
      (
        seen',
        same
            ∙ ap (λ n. spend v check tx seen₁ n os) sum
            ∙ rest
            ∙ ap (λ n. verdict (seen', n)) (omega arith),
      )
]

pub output_amount_lem :
    (sum : ℕ) (ns : List ℕ) → sum + total ns < 2 ^ 128 → output_amount sum ns ≡ sum + total ns
unfolding output_amount total
output_amount_lem sum [] h = omega arith
output_amount_lem sum (n ∷ ns) h =
    let added = add128_lem sum n (omega (arith, h)) in
    rw added (output_amount_lem (sum + n) ns (omega (arith, h)) ∙ (omega arith))

pub total-IsAmount : (ns : List ℕ) → All IsAmount ns → total ns ≤ length ns * 2 ^ 64
unfolding total
total-IsAmount [] h = omega arith
total-IsAmount (n ∷ ns) (h, hs) = omega (arith, total-IsAmount ns hs)

spent_amount-IsAmount :
    (v : Validator) (tx : Transaction) (o : Outpoint)
    → IsWellFormed v
    → IsAmount (spent_amount v tx o)
unfolding spent_amount
spent_amount-IsAmount v tx o h = elim (Option-cases (valid_parent v tx o)) [
  | inl skipped ↦ rw (skipped, spent_amount) (omega arith)
  | inr (txi, e) ↦
      let amount = output_slp_amount-IsAmount txi o.vout (valid_parent-IsKept v tx txi o h e).0.1 in
      rw (e, spent_amount) amount
]

spent_amounts-IsAmount :
    (v : Validator) (tx : Transaction) (os : List Outpoint)
    → IsWellFormed v
    → All IsAmount (map (spent_amount v tx) os)
spent_amounts-IsAmount v tx [] h = tt
spent_amounts-IsAmount v tx (o ∷ os) h =
    (spent_amount-IsAmount v tx o h, spent_amounts-IsAmount v tx os h)

switch-send :
    (fuel : ℕ) (v : Validator) (seen : List Hash) (tx : Transaction) (amounts : List ℕ)
    → tx.slp.slp_tx ≡ send amounts
    → switch (suc fuel) v seen tx
      ≡ check_send v (check_outputs_valid v (switch fuel v)) seen tx amounts
unfolding switch switch_on
switch-send fuel v seen tx amounts e = ap (switch_on v (switch fuel v) seen tx) e

not-ltb : (a b : ℕ) → not (ltb a b) ≡ leb b a
not-ltb a b = ground arith

pub validate_tx-spent_amount :
    (v : Validator) (tx : Transaction) (amounts : List ℕ)
    → IsWellFormed v
    → tx.slp.slp_tx ≡ send amounts
    → All IsAmount amounts
    → length amounts < 2 ^ 32
    → length tx.inputs < 2 ^ 32
    → has_valid v tx.txid ≡ false
    → validate_tx v tx ≡ verdict (leb (total amounts) (total (map (spent_amount v tx) tx.inputs)))
unfolding validate_tx validate_with check_send
validate_tx-spent_amount v tx amounts h e bounded few_amounts few_inputs fresh =
    let inner = switch (suc (length v.transaction_map)) v in
    let out_le = total-IsAmount amounts bounded in
    let in_le =
      total-IsAmount (map (spent_amount v tx) tx.inputs)
        (spent_amounts-IsAmount v tx tx.inputs h) in
    let count = length-map (spent_amount v tx) tx.inputs in
    let out = output_amount_lem 0 amounts (omega (arith, out_le, few_amounts)) in
    let (seen', spent) =
      spend_lem v inner tx [] 0 tx.inputs h (omega (arith, in_le, few_inputs, count)) in
    let known : is_invalid tx.slp.slp_tx ≡ false = ap is_invalid e in
    rw
      (
        known,
        fresh,
        switch-send (suc (length v.transaction_map)) v [] tx amounts e,
        spent,
        out,
        not-ltb,
      )
      (ap verdict (ground arith))
