-- ===== src/Validator/Check.antt =====
-- The checks of `slp_validator`. They read the containers and change only the set `seen`.
use cpp_slp_graph_search.Prelude.{
  ite, ℕ, zero, suc, ◌+◌, ◌%◌, ◌^◌, List, [], ◌∷◌, ◌++◌, Option, none, some, Bool, true, false, not,
  ◌&&◌, ◌==◌, ltb, if◌then◌else◌, length,
}
use cpp_slp_graph_search.Prelude.Keys.{bytes_key, bytes_discrete}
use cpp_slp_graph_search.Prelude.Set.{contains}
use cpp_slp_graph_search.Slp.Message.{
  Hash, SlpTx, invalid, genesis, mint, send, is_genesis, is_invalid,
}
use cpp_slp_graph_search.Tx.Types.{Outpoint, Transaction, outpoint_key}
use cpp_slp_graph_search.Tx.Outputs.{output_slp_amount, mint_baton_outpoint}
use cpp_slp_graph_search.Validator.State.{Validator, has, has_valid, get, insert_tx, add_valid_txid}

-- A result, the exception `mint rare condition`, or, in the model only, the end of the fuel.
pub data Verdict {ℓ} (A : Type ℓ) : Type ℓ where
  verdict : A → Verdict A
  rare_condition out_of_fuel : Verdict A

abbrev pub and_then {ℓ κ} : {A : Type ℓ} {B : Type κ} → Verdict A → (A → Verdict B) → Verdict B
and_then (verdict a) f = f a
and_then rare_condition f = rare_condition
and_then out_of_fuel f = out_of_fuel

-- `absl::uint128`
unfoldable pub add128 : ℕ → ℕ → ℕ
add128 a b = (a + b) % 2 ^ 128

unfoldable pub output_amount : ℕ → List ℕ → ℕ
unfolding add128
output_amount sum [] = sum
output_amount sum (n ∷ amounts) = output_amount (add128 sum n) amounts

abbrev pub same_hash : Hash → Hash → Bool
same_hash a b = ite (bytes_discrete a b) true false

-- `tx.slp.token_type == txi.slp.token_type && tx.slp.tokenid == txi.slp.tokenid`
unfoldable pub same_token : Transaction → Transaction → Bool
same_token tx txi =
    tx.slp.token_type == txi.slp.token_type && same_hash tx.slp.tokenid txi.slp.tokenid

-- The transaction behind an input, past the first checks of each loop over inputs.
unfoldable pub valid_parent : Validator → Transaction → Outpoint → Option Transaction
unfolding has_valid get same_token
valid_parent v tx o =
    if has_valid v o.txid
    then elim (get v o.txid) [
      | none ↦ none
      | some txi ↦ if same_token tx txi then some txi else none
    ]
    else none

-- `check_outputs_valid`, and with it the new set `seen`.
abbrev pub OutputsCheck : Type 0
OutputsCheck = List Hash → Transaction → Verdict (List Hash × Bool)

-- The loop over the inputs in `check_send`, with `seen` and `input_amount`.
unfoldable pub spend :
    Validator → OutputsCheck → Transaction → List Hash → ℕ → List Outpoint → Verdict (List Hash × ℕ)
unfolding add128
spend v outputs_valid tx seen amount [] = verdict (seen, amount)
spend v outputs_valid tx seen amount (o ∷ os) = elim (valid_parent v tx o) [
  | none ↦ spend v outputs_valid tx seen amount os
  | some txi ↦ and_then (outputs_valid seen txi) (λ r.
      spend v outputs_valid tx r.0
        (if r.1 then add128 amount (output_slp_amount txi o.vout) else amount) os)
]

unfoldable pub check_send :
    Validator → OutputsCheck → List Hash → Transaction → List ℕ → Verdict (List Hash × Bool)
unfolding spend output_amount
check_send v outputs_valid seen tx amounts =
    and_then (spend v outputs_valid tx seen 0 tx.inputs)
      (λ r. verdict (r.0, not (ltb r.1 (output_amount 0 amounts))))

unfoldable pub is_mint_or_genesis : SlpTx → Bool
is_mint_or_genesis invalid = false
is_mint_or_genesis (genesis g) = true
is_mint_or_genesis (mint m) = true
is_mint_or_genesis (send amounts) = false

-- The body of the loop in `walk_mints_home`: what it appends.
unfoldable pub baton_parent : Validator → Transaction → Outpoint → List Transaction
unfolding is_mint_or_genesis
baton_parent v front o = elim (valid_parent v front o) [
  | none ↦ []
  | some txi ↦
      if ite (outpoint_key.dec o (mint_baton_outpoint txi)) true false
        && is_mint_or_genesis txi.slp.slp_tx
      then txi ∷ []
      else []
]

unfoldable pub baton_parents : Validator → Transaction → List Outpoint → List Transaction
unfolding baton_parent
baton_parents v front [] = []
baton_parents v front (o ∷ os) = baton_parent v front o ++ baton_parents v front os

unfoldable pub walk_mints_home : Validator → Transaction → Transaction → List Transaction
unfolding baton_parents same_token
walk_mints_home v front back =
    if same_token front back then baton_parents v front back.inputs else []

-- The `for` loop of a round: it meets a genesis, or gathers the next transactions.
pub data Round : Type 0 where
  found : Round
  gathered : List Transaction → Round

unfoldable pub round : Validator → Transaction → List Transaction → List Transaction → Round
unfolding walk_mints_home
round v back [] inputs = gathered inputs
round v back (front ∷ input_txs) inputs =
    if is_genesis front.slp.slp_tx
    then found
    else round v back input_txs (inputs ++ walk_mints_home v back front)

unfoldable pub all_same : Hash → List Transaction → Bool
all_same txid [] = true
all_same txid (t ∷ ts) = same_hash txid t.txid && all_same txid ts

unfoldable pub after_round :
    Validator → (Transaction → List Transaction → Verdict Bool) → Round → Verdict Bool
unfolding has_valid all_same
after_round v continue found = verdict true
after_round v continue (gathered []) = verdict false
after_round v continue (gathered (t ∷ ts)) =
    if all_same t.txid (t ∷ ts)
    then (if has_valid v t.txid then verdict true else continue t (t ∷ ts))
    else rare_condition

unfoldable pub mint_loop : Validator → ℕ → Transaction → List Transaction → Verdict Bool
unfolding after_round round
mint_loop v zero back input_txs = out_of_fuel
mint_loop v (suc fuel) back input_txs = after_round v (mint_loop v fuel) (round v back input_txs [])

unfoldable pub check_mint : Validator → Transaction → Verdict Bool
unfolding mint_loop walk_mints_home
check_mint v tx = mint_loop v (suc (length v.transaction_map)) tx (walk_mints_home v tx tx)

-- `check_genesis`; `validate` is the call on the parent.
unfoldable pub check_genesis : Validator → (Transaction → Verdict Bool) → Transaction → Verdict Bool
unfolding has_valid get
check_genesis v validate tx =
    if tx.slp.token_type == 0x41
    then elim tx.inputs [
      | [] ↦ verdict false
      | o ∷ os ↦
          if has_valid v o.txid
          then elim (get v o.txid) [
            | none ↦ verdict false
            | some txi ↦
                if txi.slp.token_type == 0x81 && ltb 0 (output_slp_amount txi o.vout)
                then validate txi
                else verdict false
          ]
          else verdict false
    ]
    else verdict true

unfoldable pub check_outputs_valid : Validator → OutputsCheck → OutputsCheck
unfolding has has_valid
check_outputs_valid v switch seen tx =
    if has v tx.txid
    then (if contains tx.txid seen
        then verdict (seen, true)
        else if has_valid v tx.txid
        then verdict (tx.txid ∷ seen, true)
        else switch (tx.txid ∷ seen) tx)
    else verdict (seen, false)

unfoldable pub validate_with : Validator → OutputsCheck → Transaction → Verdict Bool
unfolding has_valid
validate_with v switch tx =
    if is_invalid tx.slp.slp_tx
    then verdict false
    else if has_valid v tx.txid
    then verdict true
    else and_then (switch [] tx) (λ r. verdict r.1)

unfoldable pub switch_on :
    Validator → OutputsCheck → List Hash → Transaction → SlpTx → Verdict (List Hash × Bool)
unfolding check_send check_mint check_genesis check_outputs_valid validate_with
switch_on v inner seen tx invalid = verdict (seen, false)
switch_on v inner seen tx (genesis g) =
    and_then (check_genesis v (validate_with v inner) tx) (λ b. verdict (seen, b))
switch_on v inner seen tx (mint m) = and_then (check_mint v tx) (λ b. verdict (seen, b))
switch_on v inner seen tx (send amounts) =
    check_send v (check_outputs_valid v inner) seen tx amounts

-- The `switch` on the type, which `check_outputs_valid` and `validate` share.
unfoldable pub switch : ℕ → Validator → OutputsCheck
unfolding switch_on
switch zero v seen tx = out_of_fuel
switch (suc fuel) v seen tx = switch_on v (switch fuel v) seen tx tx.slp.slp_tx

-- `validate(tx)`
unfoldable pub validate_tx : Validator → Transaction → Verdict Bool
unfolding validate_with switch
validate_tx v tx = validate_with v (switch (suc (suc (length v.transaction_map))) v) tx

unfoldable pub judged : Validator → Hash → Verdict Bool → Verdict (Validator × Bool)
unfolding add_valid_txid
judged v txid (verdict true) = verdict ((add_valid_txid v txid).0, true)
judged v txid (verdict false) = verdict (v, false)
judged v txid rare_condition = rare_condition
judged v txid out_of_fuel = out_of_fuel

-- `validate(txid)`
unfoldable pub validate : Validator → Hash → Verdict (Validator × Bool)
unfolding judged validate_tx get
validate v txid = elim (get v txid) [
  | none ↦ verdict (v, false)
  | some tx ↦ judged v txid (validate_tx v tx)
]

-- `add_tx(tx, trusted)`. An exception leaves the transaction in the map.
unfoldable pub add_tx : Validator → Transaction → Bool → Verdict (Validator × Bool)
unfolding insert_tx add_valid_txid validate has
add_tx v tx trusted =
    if is_invalid tx.slp.slp_tx
    then verdict (v, false)
    else (let fresh = not (has v tx.txid) in
        let v' = insert_tx v tx in
        if trusted
        then verdict ((add_valid_txid v' tx.txid).0, fresh)
        else and_then (validate v' tx.txid) (λ r. verdict (r.0, r.1 && fresh)))
