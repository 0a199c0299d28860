-- ===== src/Prelude/Map.antt =====
-- Hash maps as association lists. The order of entries has no counterpart in the program, whose
-- containers iterate in an order of their own.
use mathlib.Core.Path.{◌≡◌}
use mathlib.Core.Logic.{ite}
use mathlib.Core.Bool.{Bool, true, false}
use mathlib.Core.Option.{Option, none, some}
use mathlib.Core.List.{List, [], ◌∷◌}
use mathlib.Core.Path.{subst}
use native.Mathlib.Omega.{arith}
use cpp_slp_graph_search.Prelude.Lists.{All}
use cpp_slp_graph_search.Prelude.Keys.{Key}

abbrev pub Map {ℓ} : Type ℓ → Type ℓ → Type ℓ
Map K V = List (K × V)

abbrev pub is_some {ℓ} : {A : Type ℓ} → Option A → Bool
is_some none = false
is_some (some a) = true

abbrev pub or_else {ℓ} : {A : Type ℓ} → Option A → Option A → Option A
or_else none b = b
or_else (some a) b = some a

module _ {ℓ} {K V : Type ℓ} ⦃key : Key K⦄ where
  unfoldable pub find : K → Map K V → Option V
  find k [] = none
  find k ((j, v) ∷ m) = ite (key.dec j k) (some v) (find k m)

  -- `m.count(k)`, as a test.
  unfoldable pub has_key : K → Map K V → Bool
  has_key k m = is_some (find k m)

  -- `m.erase(k)`
  unfoldable pub erase : K → Map K V → Map K V
  erase k [] = []
  erase k ((j, v) ∷ m) = ite (key.dec j k) (erase k m) ((j, v) ∷ erase k m)

  -- `m.insert({k, v})` and `m.emplace(k, v)`: an entry that is there stays.
  unfoldable pub insert : K → V → Map K V → Map K V
  insert k v m = elim (find k m) [ none ↦ (k, v) ∷ m | some w ↦ m ]

  -- `m[k] = v`
  unfoldable pub assign : K → V → Map K V → Map K V
  assign k v m = (k, v) ∷ erase k m

  pub find-erase : (k j : K) (m : Map K V) → find j (erase k m) ≡ ite (key.dec k j) none (find j m)
  unfolding find erase
  find-erase k j [] = ground arith
  find-erase k j ((i, v) ∷ m) = ground (arith, find-erase k j m)

  pub find-erase_same : {k j : K} (m : Map K V) → k ≡ j → find j (erase k m) ≡ none
  find-erase_same {k} {j} m e = elim (key.dec k j) [
    | yes same ↦ ground (arith, find-erase k j m)
    | no other ↦ absurd (other e)
  ]

  pub find-erase_other : {k j : K} (m : Map K V) → ¬ (k ≡ j) → find j (erase k m) ≡ find j m
  find-erase_other {k} {j} m ne = ground (arith, find-erase k j m)

  pub find-insert :
      (k j : K) (v : V) (m : Map K V)
      → find j (insert k v m) ≡ or_else (find j m) (ite (key.dec k j) (some v) none)
  unfolding find insert
  find-insert k j v m = ground arith

  pub find-assign :
      (k j : K) (v : V) (m : Map K V)
      → find j (assign k v m) ≡ ite (key.dec k j) (some v) (find j m)
  unfolding find assign
  find-assign k j v m = ground (arith, find-erase k j m)

  -- What holds of all entries holds of the one that is found.
  pub find-All {κ} :
      (P : K × V → Type κ) (k : K) (m : Map K V) {v : V} → All P m → find k m ≡ some v → P (k, v)
  unfolding find
  find-All P k [] h e = absurd (ground arith)
  find-All P k ((j, x) ∷ m) {v} (hx, h) e = elim (key.dec j k) [
    | yes same ↦ let e' : x ≡ v = ground arith in subst P (λ i. (same i, e' i)) hx
    | no other ↦ find-All P k m h (ground arith)
  ]

  pub All-insert {κ} :
      (P : K × V → Type κ) (k : K) (v : V) (m : Map K V) → All P m → P (k, v) → All P (insert k v m)
  unfolding insert
  All-insert P k v m h p = if_free (find k m)
    where
      if_free : (o : Option V) → All P (elim o [ none ↦ (k, v) ∷ m | some w ↦ m ])
      if_free none = (p, h)
      if_free (some w) = h

  pub All-erase {κ} : (P : K × V → Type κ) (k : K) (m : Map K V) → All P m → All P (erase k m)
  unfolding erase
  All-erase P k [] h = tt
  All-erase P k ((j, v) ∷ m) (p, h) = if_same (key.dec j k) (All-erase P k m h)
    where
      if_same :
          (d : Dec (j ≡ k)) → All P (erase k m) → All P (ite d (erase k m) ((j, v) ∷ erase k m))
      if_same (yes e) rest = rest
      if_same (no e) rest = (p, rest)
