-- ===== src/Prelude/Keys.antt =====
-- Types whose values serve as keys of a map or of a set: equality is decided.
use Prim.Native.Nat.{ℕ}
use mathlib.Core.List.{List}
use native.Mathlib.Decide.{ℕ_discrete}

pub record Key {ℓ} (K : Type ℓ) : Type ℓ where
  pub dec : Discrete K

instance abbrev pub nat_key : Key ℕ
nat_key = record { dec = ℕ_discrete }

unfoldable pub bytes_discrete : Discrete (List ℕ)
unfolding ℕ_discrete
bytes_discrete = hlevel ℕ_discrete

instance abbrev pub bytes_key : Key (List ℕ)
bytes_key = record { dec = bytes_discrete }
