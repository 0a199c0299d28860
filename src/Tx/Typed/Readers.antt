-- ===== src/Tx/Typed/Readers.antt =====
-- The readers of `transaction::hydrate` (include/gs++/transaction.hpp), on bytes: the ranges of what
-- they return.
use cpp_slp_graph_search.Prelude.{
  ℕ, zero, suc, ◌+◌, ◌^◌, ◌≤◌, ◌<◌, ◌≡◌, refl, List, [], ◌∷◌, arith, All, All-take, All-drop,
  length, length-take, ltb, leb, ◌==◌, Bool-cases, inl, inr,
}
use cpp_slp_graph_search.Util.Bytes.{Byte, le, le-lt}
use cpp_slp_graph_search.Util.Reader.{
  Outcome, done, refused, fault, Reader, pure, bind_outcome, ◌>>◌, check_end, guard, take_bytes,
  extract, extract_u8, extract_u16, extract_u32, extract_u64, peek,
}
use cpp_slp_graph_search.Util.VarInt.{rest_of_var_int, var_int_additional_size, extract_var_int}
use cpp_slp_graph_search.Slp.Message.{Hash}
use cpp_slp_graph_search.Tx.Types.{Outpoint, Output}
use cpp_slp_graph_search.Tx.Hydrate.{
  read_count, read_input, read_output, read_list, abs64, max_tx_size,
}

-- A hash of the program's type `bhash`: an array of 32 bytes.
abbrev pub IsHash : Hash → Type 0
IsHash h = (length h ≡ 32) × All Byte h

-- A reader that succeeds gives a value with `P`, and what it leaves is bytes.
abbrev pub Gives {ℓ} : {A : Type ℓ} → (A → Type 0) → Outcome (A × List ℕ) → Type 0
Gives P (done (a, r)) = P a × All Byte r
Gives P refused = Unit
Gives P fault = Unit

pub bind_outcome-Gives {ℓ κ} :
    {A : Type ℓ} {B : Type κ} (P : A → Type 0) (Q : B → Type 0) (o : Outcome (A × List ℕ))
    (k : A → Reader B)
    → Gives P o
    → ((a : A) (r : List ℕ) → P a → All Byte r → Gives Q (k a r))
    → Gives Q (bind_outcome o k)
bind_outcome-Gives P Q (done (a, r)) k (p, h) next = next a r p h
bind_outcome-Gives P Q refused k p next = tt
bind_outcome-Gives P Q fault k p next = tt

-- A check reads nothing.
pub checked-Gives {ℓ} :
    {B : Type ℓ} (Q : B → Type 0) (n : ℕ) (s : List ℕ) (k : Reader B)
    → Gives Q (k s)
    → Gives Q ((check_end n >> k) s)
unfolding check_end
checked-Gives Q n s k h = elim (Bool-cases (leb (length s) n)) [
  | inl short ↦ rw short tt
  | inr long ↦ rw long h
]

pub take_bytes-Gives :
    (n : ℕ) (s : List ℕ) → All Byte s → Gives (λ bs. (length bs ≡ n) × All Byte bs) (take_bytes n s)
unfolding take_bytes
take_bytes-Gives n s h = elim (Bool-cases (leb n (length s))) [
  | inl fits ↦ rw fits ((ground (arith, length-take n s), All-take Byte n s h), All-drop Byte n s h)
  | inr short ↦ rw short tt
]

extract-Gives : (n : ℕ) (s : List ℕ) → All Byte s → Gives (λ v. v < 256 ^ n) (extract n s)
unfolding extract
extract-Gives n s h =
    bind_outcome-Gives (λ bs. (length bs ≡ n) × All Byte bs) (λ v. v < 256 ^ n) (take_bytes n s)
      (λ bs. pure (le bs)) (take_bytes-Gives n s h) λ bs r p l. (le-lt n bs p.0 p.1, l)

pub u32-Gives : (s : List ℕ) → All Byte s → Gives (λ v. v < 256 ^ 4) (extract_u32 s)
unfolding extract_u32
u32-Gives = extract-Gives 4

u64-Gives : (s : List ℕ) → All Byte s → Gives (λ v. v < 256 ^ 8) (extract_u64 s)
unfolding extract_u64
u64-Gives = extract-Gives 8

Gives-Unit {ℓ} :
    {A : Type ℓ} (P : A → Type 0) (o : Outcome (A × List ℕ)) → Gives P o → Gives (λ a. Unit {0}) o
Gives-Unit P (done (a, r)) (p, h) = (tt, h)
Gives-Unit P refused h = tt
Gives-Unit P fault h = tt

rest_of_var_int-Gives :
    (b : ℕ) (s : List ℕ) → All Byte s → Gives (λ n. Unit {0}) (rest_of_var_int b s)
unfolding rest_of_var_int extract_u16
rest_of_var_int-Gives b s h = elim (Bool-cases (ltb b 0xFD)) [
  | inl one ↦ rw one (tt, h)
  | inr more ↦ elim (Bool-cases (b == 0xFD)) [
    | inl two ↦ rw (more, two) (Gives-Unit _ _ (extract-Gives 2 s h))
    | inr more2 ↦ elim (Bool-cases (b == 0xFE)) [
      | inl four ↦ rw (more, more2, four) (Gives-Unit _ _ (u32-Gives s h))
      | inr more3 ↦ rw (more, more2, more3) (Gives-Unit _ _ (u64-Gives s h))
    ]
  ]
]

var_int-Gives : (s : List ℕ) → All Byte s → Gives (λ n. Unit {0}) (extract_var_int s)
unfolding extract_var_int extract_u8
var_int-Gives [] h = tt
var_int-Gives (b ∷ s) (hb, h) = rest_of_var_int-Gives b s h

-- The size is read without moving on.
var_int_size-Gives : (s : List ℕ) → All Byte s → Gives (λ n. Unit {0}) (var_int_additional_size s)
unfolding var_int_additional_size peek
var_int_size-Gives [] h = tt
var_int_size-Gives (b ∷ s) h = (tt, h)

limit-Gives :
    (n : ℕ) (s : List ℕ)
    → All Byte s
    → Gives (λ m. m < max_tx_size) ((guard (ltb n max_tx_size) >> pure n) s)
unfolding guard
limit-Gives n s h = elim (Bool-cases (ltb n max_tx_size)) [
  | inl low ↦ rw low (ground arith, h)
  | inr high ↦ rw high tt
]

pub read_count-Gives : (s : List ℕ) → All Byte s → Gives (λ n. n < max_tx_size) (read_count s)
unfolding read_count
read_count-Gives s h =
    let low = λ (n : ℕ). n < max_tx_size in
    bind_outcome-Gives (λ n. Unit {0}) low (var_int_additional_size s) _ (var_int_size-Gives s h)
      λ size s1 u h1. checked-Gives low (1 + size) s1 _ (
        bind_outcome-Gives (λ n. Unit {0}) low (extract_var_int s1) _ (var_int-Gives s1 h1)
          λ n s2 u2 h2. limit-Gives n s2 h2)

pub record IsOutpoint (o : Outpoint) : Type 0 where
  pub txid : IsHash o.txid
  pub vout : o.vout < 2 ^ 32

pub read_input-Gives : (s : List ℕ) → All Byte s → Gives IsOutpoint (read_input s)
unfolding read_input
read_input-Gives s h = checked-Gives IsOutpoint 32 s _ (
    bind_outcome-Gives IsHash IsOutpoint (take_bytes 32 s) _ (take_bytes-Gives 32 s h)
      λ prev s1 hp h1. checked-Gives IsOutpoint 4 s1 _ (
        bind_outcome-Gives (λ v. v < 256 ^ 4) IsOutpoint (extract_u32 s1) _ (u32-Gives s1 h1)
          λ vout s2 hv h2.
            bind_outcome-Gives (λ n. n < max_tx_size) IsOutpoint (read_count s2) _
              (read_count-Gives s2 h2)
              λ len s3 hl h3. checked-Gives IsOutpoint len s3 _ (
                bind_outcome-Gives (λ bs. (length bs ≡ len) × All Byte bs) IsOutpoint
                  (take_bytes len s3) _ (take_bytes-Gives len s3 h3)
                  λ sig s4 hs h4. checked-Gives IsOutpoint 4 s4 _ (
                    bind_outcome-Gives (λ v. v < 256 ^ 4) IsOutpoint (extract_u32 s4) _
                      (u32-Gives s4 h4)
                      λ seq s5 hq h5. (record { txid = hp; vout = omega (arith, hv) }, h5)))))

-- An output as it is read at position `j`.
pub record IsReadOutput (j : ℕ) (o : Output) : Type 0 where
  pub prev_out_idx : o.prev_out_idx ≡ j
  pub value : o.value ≤ 2 ^ 63
  pub script : All Byte o.scriptpubkey
  pub script_size : length o.scriptpubkey < max_tx_size

abs64-le : (n : ℕ) → n < 2 ^ 64 → abs64 n ≤ 2 ^ 63
unfolding abs64
abs64-le n h = ground arith

pub read_output-Gives : (j : ℕ) (s : List ℕ) → All Byte s → Gives (IsReadOutput j) (read_output j s)
unfolding read_output
read_output-Gives j s h = checked-Gives (IsReadOutput j) 8 s _ (
    bind_outcome-Gives (λ v. v < 256 ^ 8) (IsReadOutput j) (extract_u64 s) _ (u64-Gives s h)
      λ value s1 hv h1.
        bind_outcome-Gives (λ n. n < max_tx_size) (IsReadOutput j) (read_count s1) _
          (read_count-Gives s1 h1)
          λ len s2 hl h2. checked-Gives (IsReadOutput j) len s2 _ (
            bind_outcome-Gives (λ bs. (length bs ≡ len) × All Byte bs) (IsReadOutput j)
              (take_bytes len s2) _ (take_bytes-Gives len s2 h2)
              λ script s3 hs h3. (
                record {
                  prev_out_idx = refl;
                  value = abs64-le value (omega (arith, hv));
                  script = hs.1;
                  script_size = omega (arith, hs.0, hl);
                },
                h3,
              )))

-- The members, numbered from `i` on, each with `P` at its number.
abbrev pub AllFrom {ℓ} : {A : Type ℓ} → (ℕ → A → Type 0) → ℕ → List A → Type 0
AllFrom P i [] = Unit
AllFrom P i (a ∷ rest) = P i a × AllFrom P (i + 1) rest

pub read_list-Gives {ℓ} :
    {A : Type ℓ} (P : ℕ → A → Type 0) (item : ℕ → Reader A) (n i : ℕ) (s : List ℕ)
    → ((j : ℕ) (r : List ℕ) → All Byte r → Gives (P j) (item j r))
    → All Byte s
    → Gives (λ l. (length l ≡ n) × AllFrom P i l) (read_list item n i s)
unfolding read_list
read_list-Gives P item zero i s each h = ((refl, tt), h)
read_list-Gives P item (suc n) i s each h =
    bind_outcome-Gives (P i) (λ l. (length l ≡ suc n) × AllFrom P i l) (item i s) _ (each i s h)
      λ a s1 ha h1.
        bind_outcome-Gives (λ l. (length l ≡ n) × AllFrom P (i + 1) l)
          (λ l. (length l ≡ suc n) × AllFrom P i l) (read_list item n (i + 1) s1) _
          (read_list-Gives P item n (i + 1) s1 each h1)
          λ rest s2 hr h2. ((omega (arith, hr.0), (ha, hr.1)), h2)
