-- ===== src/Bch/Runs.antt =====
-- How `process_block` and `process_mempool_tx` of include/gs++/bch.hpp end.
use cpp_slp_graph_search.Prelude.{◌≡◌, refl, List, Option, none, some, arith}
use cpp_slp_graph_search.Tx.Types.{Transaction}

-- A result, or one of: a read of `outputs` out of range in `slp_outputs`, which is undefined; an
-- assertion that fails; in the model only, the end of the fuel of `topological_sort`.
pub data Run {ℓ} (A : Type ℓ) : Type ℓ where
  ran : A → Run A
  bad_read failed_assert out_of_fuel : Run A

infixl 5 ◌>>=◌
abbrev pub ◌>>=◌ {ℓ κ} : {A : Type ℓ} {B : Type κ} → Run A → (A → Run B) → Run B
ran a >>= f = f a
bad_read >>= f = bad_read
failed_assert >>= f = failed_assert
out_of_fuel >>= f = out_of_fuel

abbrev pub read_or {ℓ} : {A : Type ℓ} → Option A → Run A
read_or none = bad_read
read_or (some a) = ran a

abbrev pub sorted_or : Option (List Transaction) → Run (List Transaction)
sorted_or none = out_of_fuel
sorted_or (some txs) = ran txs

pub bind-ran {ℓ κ} :
    {A : Type ℓ} {B : Type κ} (r : Run A) (f : A → Run B) {b : B}
    → r >>= f ≡ ran b
    → (a : A) × (r ≡ ran a) × (f a ≡ ran b)
bind-ran (ran a) f e = (a, refl, e)
bind-ran bad_read f e = absurd (ground arith)
bind-ran failed_assert f e = absurd (ground arith)
bind-ran out_of_fuel f e = absurd (ground arith)

-- The result, or the first argument where there is none.
abbrev pub ran_or {ℓ} : {A : Type ℓ} → A → Run A → A
ran_or d (ran a) = a
ran_or d bad_read = d
ran_or d failed_assert = d
ran_or d out_of_fuel = d
