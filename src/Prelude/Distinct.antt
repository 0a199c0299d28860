-- ===== src/Prelude/Distinct.antt =====
-- Lists of keys with no key twice, and how many keys of a list a set misses.
use Prim.Native.Nat.{ℕ, suc, ◌≤◌, ◌<◌}
use mathlib.Core.Path.{◌≡◌, ap}
use mathlib.Core.Bool.{Bool, true, false, not, ◌&&◌}
use mathlib.Core.List.{List, [], ◌∷◌, ◌++◌}
use native.Mathlib.Omega.{arith}
use cpp_slp_graph_search.Prelude.Tests.{if◌then◌else◌}
use cpp_slp_graph_search.Prelude.Lists.{length}
use cpp_slp_graph_search.Prelude.Keys.{Key}
use cpp_slp_graph_search.Prelude.Set.{contains, contains-append}

module _ {ℓ} {K : Type ℓ} ⦃key : Key K⦄ where
  unfoldable pub nodup : List K → Bool
  nodup [] = true
  nodup (n ∷ ns) = not (contains n ns) && nodup ns

  pub nodup-append :
      (xs ys : List K)
      → nodup xs ≡ true
      → nodup ys ≡ true
      → ((v : K) → contains v xs ≡ true → contains v ys ≡ false)
      → nodup (xs ++ ys) ≡ true
  unfolding nodup contains
  nodup-append [] ys h k d = k
  nodup-append (x ∷ xs) ys h k d =
      let later = nodup-append xs ys (ground arith) k (λ v e. d v (ground arith)) in
      ground (arith, contains-append x xs ys, d x, later)

  -- The elements of `u` that are not in the set.
  unfoldable pub unseen : List K → List K → ℕ
  unseen [] seen = 0
  unseen (v ∷ u) seen = if contains v seen then unseen u seen else suc (unseen u seen)

  pub unseen_mono :
      (u s t : List K)
      → ((v : K) → contains v s ≡ true → contains v t ≡ true)
      → unseen u t ≤ unseen u s
  unfolding unseen
  unseen_mono [] s t h = omega arith
  unseen_mono (v ∷ u) s t h = ground (arith, unseen_mono u s t h, h v)

  pub unseen-le : (u seen : List K) (n : K) → unseen u (n ∷ seen) ≤ unseen u seen
  unfolding unseen contains
  unseen-le [] seen n = omega arith
  unseen-le (v ∷ u) seen n = ground (arith, unseen-le u seen n)

  pub unseen-lt :
      (u seen : List K) (n : K)
      → contains n u ≡ true
      → contains n seen ≡ false
      → unseen u (n ∷ seen) < unseen u seen
  unfolding unseen contains
  unseen-lt [] seen n h k = cc
  unseen-lt (v ∷ u) seen n h k =
      ground
        (arith, unseen-lt u seen n, unseen-le u seen n, ap (λ m. contains m seen) {x = v} {y = n})

  pub unseen-le-length : (u seen : List K) → unseen u seen ≤ length u
  unfolding unseen
  unseen-le-length [] seen = omega arith
  unseen-le-length (v ∷ u) seen = ground (arith, unseen-le-length u seen)

  abbrev pub Within : List K → List K → Type 0
  Within u [] = Unit
  Within u (n ∷ ns) = (contains n u ≡ true) × Within u ns
