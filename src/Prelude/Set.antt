-- ===== src/Prelude/Set.antt =====
-- Hash sets as lists of keys.
use mathlib.Core.Path.{◌≡◌, refl}
use mathlib.Core.Logic.{ite}
use cpp_slp_graph_search.Prelude.Tests.{if◌then◌else◌}
use mathlib.Core.Bool.{Bool, true, false, ◌||◌}
use mathlib.Core.List.{List, [], ◌∷◌, ◌++◌, reverse, reverse-append}
use native.Mathlib.Omega.{arith}
use cpp_slp_graph_search.Prelude.Keys.{Key}

module _ {ℓ} {K : Type ℓ} ⦃key : Key K⦄ where
  -- `s.count(k)`, as a test.
  unfoldable pub contains : K → List K → Bool
  contains k [] = false
  contains k (j ∷ s) = ite (key.dec j k) true (contains k s)

  -- `s.insert(k)`
  unfoldable pub add : K → List K → List K
  add k s = if contains k s then s else k ∷ s

  pub contains-append :
      (k : K) (s t : List K) → contains k (s ++ t) ≡ (contains k s || contains k t)
  unfolding contains
  contains-append k [] t = refl
  contains-append k (j ∷ s) t = ground (arith, contains-append k s t)

  pub contains-reverse : (k : K) (s : List K) → contains k (reverse s) ≡ contains k s
  unfolding contains
  contains-reverse k [] = refl
  contains-reverse k (j ∷ s) =
      rw (reverse-append (j ∷ []) s, contains-append k (reverse s) (j ∷ []))
        (ground (arith, contains-reverse k s))

  pub contains_self : (k : K) (s : List K) → contains k (k ∷ s) ≡ true
  unfolding contains
  contains_self k s = ground arith

  pub contains-cons :
      (v u : K) (s : List K) → contains v (u ∷ s) ≡ (contains v (u ∷ []) || contains v s)
  unfolding contains
  contains-cons v u s = ground arith

  pub contains_one : (v u : K) → contains v (u ∷ []) ≡ true → u ≡ v
  unfolding contains
  contains_one v u e = elim (key.dec u v) [ yes same ↦ same | no other ↦ absurd (ground arith) ]
