-- ===== src/UtxoDb/Answers.antt =====
-- The answers of `utxodb` for a script: the list up to a limit, and the balance.
use cpp_slp_graph_search.Prelude.{
  subst, dec_lt, length-take, ℕ, zero, suc, ◌+◌, ◌-◌, ◌%◌, ◌^◌, ◌≤◌, ◌<◌, ◌≡◌, refl, sym, ap, List,
  [], ◌∷◌, ◌++◌, arith, ltb, if◌then◌else◌, length, take, length-append, Bool-cases, inl, inr,
}
use mathlib.Core.List.{append-nil, append_assoc}
use cpp_slp_graph_search.Prelude.Set.{contains}
use cpp_slp_graph_search.Tx.Types.{Outpoint, Output, outpoint_of, outpoint_key}
use cpp_slp_graph_search.UtxoDb.Store.{
  UtxoDb, Script, OutputSet, outputs_of, fill, get_outputs_by_scriptpubkey, add64, sum_values,
  get_balance_by_scriptpubkey,
}

-- The outputs of a set but those of `passed`.
unfoldable unspent : List Outpoint → OutputSet → List Output
unspent passed [] = []
unspent passed ((k, o) ∷ set) =
    if contains (outpoint_of o) passed then unspent passed set else o ∷ unspent passed set

-- The confirmed outputs of a script but those marked as spent by the mempool, and behind them the
-- mempool's set of the script.
unfoldable pub held_by : UtxoDb → Script → List Output
unfolding unspent
held_by u s =
    unspent u.mempool_spent_confirmed_outpoints (outputs_of s u.scriptpubkey_to_output)
    ++ unspent [] (outputs_of s u.mempool_scriptpubkey_to_output)

abbrev pub total : List Output → ℕ
total [] = 0
total (o ∷ os) = o.value + total os

fill-take :
    (passed : List Outpoint) (limit : ℕ) (ret : List Output) (set : OutputSet) (room : ℕ)
    → limit ≡ length ret + suc room
    → fill passed limit ret set ≡ ret ++ take (suc room) (unspent passed set)
unfolding fill unspent
fill-take passed limit ret [] room h = sym (append-nil ret)
fill-take passed limit ret ((k, o) ∷ set) zero h =
    let longer = length-append ret (o ∷ []) in
    let rest = fill-take passed limit ret set zero h in
    elim (Bool-cases (contains (outpoint_of o) passed)) [
      | inl yes_passed ↦ rw yes_passed rest
      | inr not_passed ↦ ground (arith, not_passed, longer)
    ]
fill-take passed limit ret ((k, o) ∷ set) (suc room) h =
    let longer = length-append ret (o ∷ []) in
    let rest = fill-take passed limit ret set (suc room) h in
    let more = fill-take passed limit (ret ++ o ∷ []) set room (omega (arith, longer)) in
    let joined = append_assoc ret (o ∷ []) (take (suc room) (unspent passed set)) in
    elim (Bool-cases (contains (outpoint_of o) passed)) [
      | inl yes_passed ↦ rw yes_passed rest
      | inr not_passed ↦ ground (arith, not_passed, longer, more, joined)
    ]

sum_values-total :
    (passed : List Outpoint) (sum : ℕ) (set : OutputSet)
    → sum < 2 ^ 64
    → sum_values passed sum set ≡ (sum + total (unspent passed set)) % 2 ^ 64
unfolding sum_values unspent add64
sum_values-total passed sum [] h = omega arith
sum_values-total passed sum ((k, o) ∷ set) h =
    let next = sum_values-total passed ((sum + o.value) % 2 ^ 64) set (omega arith) in
    let same = sum_values-total passed sum set h in
    elim (Bool-cases (contains (outpoint_of o) passed)) [
      | inl yes_passed ↦ rw yes_passed same
      | inr not_passed ↦ rw (not_passed, next) omega arith
    ]

take-append_long {ℓ} :
    {A : Type ℓ} (n : ℕ) (xs ys : List A) → n ≤ length xs → take n (xs ++ ys) ≡ take n xs
take-append_long zero xs ys h = refl
take-append_long (suc n) [] ys h = absurd (omega arith)
take-append_long (suc n) (x ∷ xs) ys h = ap (λ zs. x ∷ zs) (take-append_long n xs ys (omega arith))

take-append_room {ℓ} :
    {A : Type ℓ} (n room : ℕ) (xs ys : List A)
    → n ≡ length xs + room
    → take n (xs ++ ys) ≡ xs ++ take room ys
take-append_room n room [] ys h = ap (λ i. take i ys) (omega arith)
take-append_room zero room (x ∷ xs) ys h = absurd (omega arith)
take-append_room (suc n) room (x ∷ xs) ys h =
    ap (λ zs. x ∷ zs) (take-append_room n room xs ys (omega arith))

take_all {ℓ} : {A : Type ℓ} (n : ℕ) (xs : List A) → length xs ≤ n → take n xs ≡ xs
take_all zero [] h = refl
take_all zero (x ∷ xs) h = absurd (omega arith)
take_all (suc n) [] h = refl
take_all (suc n) (x ∷ xs) h = ap (λ zs. x ∷ zs) (take_all n xs (omega arith))

fill_both :
    (passed : List Outpoint) (n : ℕ) (confirmed mempool : OutputSet)
    → (let ret = fill passed (suc n) [] confirmed in
        if ltb (length ret) (suc n) then fill [] (suc n) ret mempool else ret)
      ≡ take (suc n) (unspent passed confirmed ++ unspent [] mempool)
fill_both passed n confirmed mempool =
    let a = unspent passed confirmed in
    let b = unspent [] mempool in
    let first = fill-take passed (suc n) [] confirmed n (omega arith) in
    let size = length-take (suc n) a in
    rw first (elim (dec_lt (length a) (suc n)) [
      | yes short ↦
          let room = n - length a in
          let whole = take_all (suc n) a (omega arith) in
          let second = fill-take [] (suc n) a mempool room (omega arith) in
          let both = take-append_room (suc n) (suc room) a b (omega arith) in
          ground (arith, whole, second, both)
      | no long ↦ rw (take-append_long (suc n) a b (omega arith)) (ground (arith, size))
    ])

-- For a limit of at least one, the answer is the first outputs, up to the limit, of this list: the
-- confirmed outputs of the script that are not marked as spent by the mempool, and behind them all
-- outputs that the mempool's set of the script has, marked or not.
pub get_outputs_by_scriptpubkey-take :
    (u : UtxoDb) (s : Script) (limit : ℕ)
    → 1 ≤ limit
    → get_outputs_by_scriptpubkey u s limit ≡ take limit (held_by u s)
unfolding get_outputs_by_scriptpubkey held_by
get_outputs_by_scriptpubkey-take u s zero h = absurd (omega arith)
get_outputs_by_scriptpubkey-take u s (suc n) h =
    fill_both u.mempool_spent_confirmed_outpoints n (outputs_of s u.scriptpubkey_to_output)
      (outputs_of s u.mempool_scriptpubkey_to_output)

-- For a limit of at least one, the answer has at most that many outputs.
pub length-get_outputs_by_scriptpubkey :
    (u : UtxoDb) (s : Script) (limit : ℕ)
    → 1 ≤ limit
    → length (get_outputs_by_scriptpubkey u s limit) ≤ limit
length-get_outputs_by_scriptpubkey u s limit h =
    rw (get_outputs_by_scriptpubkey-take u s limit h)
      (omega (arith, length-take limit (held_by u s)))

total-append : (xs ys : List Output) → total (xs ++ ys) ≡ total xs + total ys
total-append [] ys = omega arith
total-append (x ∷ xs) ys = omega (arith, total-append xs ys)

balance-held_by :
    (u : UtxoDb) (s : Script) → get_balance_by_scriptpubkey u s ≡ total (held_by u s) % 2 ^ 64
unfolding get_balance_by_scriptpubkey held_by
balance-held_by u s =
    let confirmed = outputs_of s u.scriptpubkey_to_output in
    let mempool = outputs_of s u.mempool_scriptpubkey_to_output in
    let passed = u.mempool_spent_confirmed_outpoints in
    let first = sum_values-total passed 0 confirmed (omega arith) in
    let second =
      sum_values-total [] ((0 + total (unspent passed confirmed)) % 2 ^ 64) mempool (omega arith) in
    let both = total-append (unspent passed confirmed) (unspent [] mempool) in
    rw (first, second) (omega (arith, both))

take-short {ℓ} : {A : Type ℓ} (n : ℕ) (xs : List A) → length (take n xs) < n → take n xs ≡ xs
take-short n xs h = take_all n xs (omega (arith, length-take n xs))

-- When the answer for a script is shorter than the limit, the balance of the script is the sum of
-- the values in the answer, modulo 2 ^ 64.
pub get_balance_by_scriptpubkey-get_outputs_by_scriptpubkey :
    (u : UtxoDb) (s : Script) (limit : ℕ)
    → length (get_outputs_by_scriptpubkey u s limit) < limit
    → get_balance_by_scriptpubkey u s ≡ total (get_outputs_by_scriptpubkey u s limit) % 2 ^ 64
get_balance_by_scriptpubkey-get_outputs_by_scriptpubkey u s limit h =
    let answer = get_outputs_by_scriptpubkey-take u s limit (omega arith) in
    let short = subst (λ xs. length xs < limit) answer h in
    let whole = take-short limit (held_by u s) short in rw (answer, whole) (balance-held_by u s)
