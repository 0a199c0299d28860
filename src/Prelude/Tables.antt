-- ===== src/Prelude/Tables.antt =====
-- A statement about every number below a small bound, checked by evaluation.
use Prim.Native.Nat.{ℕ, zero, suc, ◌<◌}
use mathlib.Core.Path.{◌≡◌}
use mathlib.Core.Bool.{Bool, true, false}
use cpp_slp_graph_search.Prelude.Tests.{if◌then◌else◌}
use native.Mathlib.Omega.{arith}

module _ (test : ℕ → Bool) where
  -- Each of the first `count` entries passes.
  unfoldable pub passes : ℕ → Bool
  passes zero = true
  passes (suc count) = if test count then passes count else false

  pub passes-entry : (count entry : ℕ) → passes count ≡ true → entry < count → test entry ≡ true
  unfolding passes
  passes-entry zero entry ok within = absurd (omega arith)
  passes-entry (suc last) entry ok within = ground (arith, passes-entry last entry)
