-- ===== src/Util/ReaderLaws.antt =====
-- How the readers behave: on input that is long enough, and on any input.
use cpp_slp_graph_search.Prelude.{
  ◌==◌, ltb, ℕ, ◌+◌, ◌≤◌, ◌<◌, ◌≡◌, refl, sym, ap, ◌∙◌, List, [], ◌∷◌, ◌++◌, Bool, true, false,
  arith, length, length-append, take, take-append, drop-append, take-append-drop, length-drop, leb,
  Bool-cases, inl, inr,
}
use mathlib.Core.List.{append_assoc}
use cpp_slp_graph_search.Util.Bytes.{le}
use cpp_slp_graph_search.Util.VarInt.{additional_size, extract_var_int, rest_of_var_int}
use cpp_slp_graph_search.Util.Reader.{
  Outcome, done, refused, fault, Reader, pure, bind_outcome, ◌>>=◌, ◌>>◌, check_end, guard,
  take_bytes, extract,
}

-- One step of a `do` block whose first reader succeeds.
pub bind-done {ℓ κ} :
    {A : Type ℓ} {B : Type κ} (m : Reader A) (k : A → Reader B) (s : List ℕ) {a : A} {r : List ℕ}
    → m s ≡ done (a, r)
    → (m >>= k) s ≡ k a r
bind-done m k s e = ap (λ o. bind_outcome o k) e

pub check_end-lt : (n : ℕ) (s : List ℕ) → n < length s → check_end n s ≡ done (tt, s)
unfolding check_end
check_end-lt n s h = ground arith

pub guard-true : (b : Bool) (s : List ℕ) → b ≡ true → guard b s ≡ done (tt, s)
unfolding guard
guard-true b s h = rw h refl

pub take_bytes-append : (n : ℕ) (p r : List ℕ) → length p ≡ n → take_bytes n (p ++ r) ≡ done (p, r)
unfolding take_bytes
take_bytes-append n p r h =
    ground (arith, length-append p r, take-append n p r h, drop-append n p r h)

-- What a successful reader leaves is the end of what it was given, with a byte at least if `least`
-- is 1; and no reader reads too far.
abbrev pub IsSafe {ℓ} : {A : Type ℓ} → ℕ → List ℕ → Outcome (A × List ℕ) → Type 0
IsSafe least s (done (a, r)) = (least ≤ length r) × ((p : List ℕ) × (s ≡ p ++ r))
IsSafe least s refused = Unit
IsSafe least s fault = ⊥

pub IsSafe-append {ℓ} :
    {A : Type ℓ} (i : ℕ) (s p r : List ℕ) (o : Outcome (A × List ℕ))
    → s ≡ p ++ r
    → IsSafe i r o
    → IsSafe i s o
IsSafe-append i s p r (done (a, q)) e (l, (p', e')) =
    (l, (p ++ p', e ∙ ap (λ t. p ++ t) e' ∙ sym (append_assoc p p' q)))
IsSafe-append i s p r refused e h = tt
IsSafe-append i s p r fault e h = h

pub bind_outcome-IsSafe {ℓ κ} :
    {A : Type ℓ} {B : Type κ} (i j : ℕ) (s : List ℕ) (o : Outcome (A × List ℕ)) (k : A → Reader B)
    → IsSafe i s o
    → ((a : A) (r : List ℕ) → i ≤ length r → IsSafe j r (k a r))
    → IsSafe j s (bind_outcome o k)
bind_outcome-IsSafe i j s (done (a, r)) k (l, (p, e)) h = IsSafe-append j s p r (k a r) e (h a r l)
bind_outcome-IsSafe i j s refused k l h = tt
bind_outcome-IsSafe i j s fault k l h = l

pub take_bytes-IsSafe : (n i : ℕ) (s : List ℕ) → n + i ≤ length s → IsSafe i s (take_bytes n s)
unfolding take_bytes
take_bytes-IsSafe n i s h =
    let fits : leb n (length s) ≡ true = ground arith in
    rw fits (omega (arith, length-drop n s), (take n s, sym (take-append-drop n s)))

-- `CHECK_END(n)` and a read of `n` bytes at most leave a byte behind.
pub check_end-IsSafe : (n : ℕ) (s : List ℕ) → IsSafe (n + 1) s (check_end n s)
unfolding check_end
check_end-IsSafe n s = elim (Bool-cases (leb (length s) n)) [
  | inl short ↦ rw short tt
  | inr long ↦ rw long (ground arith, ([], refl))
]

pub guard-IsSafe : (b : Bool) (i : ℕ) (s : List ℕ) → i ≤ length s → IsSafe i s (guard b s)
unfolding guard
guard-IsSafe true i s h = (h, ([], refl))
guard-IsSafe false i s h = tt

pub extract-IsSafe : (n i : ℕ) (s : List ℕ) → n + i ≤ length s → IsSafe i s (extract n s)
unfolding extract
extract-IsSafe n i s h =
    bind_outcome-IsSafe i i s (take_bytes n s) (λ bs. pure (le bs)) (take_bytes-IsSafe n i s h)
      (λ bs r l. (l, ([], refl)))

rest_of_var_int-IsSafe :
    (b i : ℕ) (s : List ℕ) → additional_size b + i ≤ length s → IsSafe i s (rest_of_var_int b s)
unfolding rest_of_var_int additional_size
rest_of_var_int-IsSafe b i s h = elim (Bool-cases (ltb b 0xFD)) [
  | inl one ↦ rw one (ground arith, ([], refl))
  | inr more ↦ elim (Bool-cases (b == 0xFD)) [
    | inl two ↦ rw (more, two) (extract-IsSafe 2 i s (ground arith))
    | inr more2 ↦ elim (Bool-cases (b == 0xFE)) [
      | inl four ↦ rw (more, more2, four) (extract-IsSafe 4 i s (ground arith))
      | inr more3 ↦ rw (more, more2, more3) (extract-IsSafe 8 i s (ground arith))
    ]
  ]
]

-- The number behind `CHECK_END(1 + var_int_additional_size(it))`.
pub extract_var_int-IsSafe :
    (b i : ℕ) (s : List ℕ)
    → additional_size b + i ≤ length s
    → IsSafe i (b ∷ s) (extract_var_int (b ∷ s))
unfolding extract_var_int additional_size
extract_var_int-IsSafe b i s h =
    IsSafe-append i (b ∷ s) (b ∷ []) s (rest_of_var_int b s) refl (rest_of_var_int-IsSafe b i s h)

-- Behind a `CHECK_END(n)` there are more than `n` bytes.
pub check_end-bind-IsSafe {ℓ} :
    {B : Type ℓ} (n i : ℕ) (s : List ℕ) (k : Reader B)
    → (n < length s → IsSafe i s (k s))
    → IsSafe i s ((check_end n >> k) s)
unfolding check_end
check_end-bind-IsSafe n i s k h = elim (Bool-cases (leb (length s) n)) [
  | inl short ↦ rw short tt
  | inr long ↦ rw long (h (ground arith))
]

-- `CHECK_END(n)` and a read of `n` bytes, or of fewer.
pub checked-IsSafe {ℓ κ} :
    {A : Type ℓ} {B : Type κ} (n i : ℕ) (s : List ℕ) (m : Reader A) (k : A → Reader B)
    → (n < length s → IsSafe 1 s (m s))
    → ((a : A) (r : List ℕ) → 1 ≤ length r → IsSafe i r (k a r))
    → IsSafe i s ((check_end n >> (m >>= k)) s)
checked-IsSafe n i s m k safe h =
    check_end-bind-IsSafe n i s (m >>= k) (λ long. bind_outcome-IsSafe 1 i s (m s) k (safe long) h)
