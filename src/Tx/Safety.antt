-- ===== src/Tx/Safety.antt =====
-- The reads of `transaction::hydrate` (include/gs++/transaction.hpp) on any input.
use cpp_slp_graph_search.Prelude.{
  length-append, take-append, ◌-◌, take, ℕ, zero, suc, ◌+◌, ◌≤◌, ◌<◌, ◌≡◌, refl, List, [], ◌∷◌,
  ◌++◌, arith, length,
}
use cpp_slp_graph_search.Util.Reader.{
  Outcome, done, refused, fault, Reader, guard, take_bytes, extract_u32, extract_u64,
}
use cpp_slp_graph_search.Util.ReaderLaws.{
  IsSafe, bind_outcome-IsSafe, check_end-bind-IsSafe, checked-IsSafe, guard-IsSafe,
  take_bytes-IsSafe, extract-IsSafe, extract_var_int-IsSafe,
}
use cpp_slp_graph_search.Util.VarInt.{additional_size, var_int_additional_size, extract_var_int}
use cpp_slp_graph_search.Tx.Types.{Transaction}
use cpp_slp_graph_search.Tx.Hydrate.{
  read_count, read_input, read_output, read_list, read_body, hydrate, hydrated, Body,
}

read_count-IsSafe : (s : List ℕ) → 1 ≤ length s → IsSafe 1 s (read_count s)
unfolding read_count var_int_additional_size
read_count-IsSafe [] h = absurd (omega arith)
read_count-IsSafe (b ∷ s) h =
    checked-IsSafe (1 + additional_size b) 1 (b ∷ s) extract_var_int _
      (λ long. extract_var_int-IsSafe b 1 s (omega arith))
      (λ n r l.
        bind_outcome-IsSafe 1 1 r (guard _ r) _ (guard-IsSafe _ 1 r l) (λ u q k. (k, ([], refl))))

script-IsSafe : (n : ℕ) (s : List ℕ) → n < length s → IsSafe 1 s (take_bytes n s)
script-IsSafe n s h = take_bytes-IsSafe n 1 s (omega arith)

u32-IsSafe : (s : List ℕ) → 4 < length s → IsSafe 1 s (extract_u32 s)
unfolding extract_u32
u32-IsSafe s h = extract-IsSafe 4 1 s (omega arith)

u64-IsSafe : (s : List ℕ) → 8 < length s → IsSafe 1 s (extract_u64 s)
unfolding extract_u64
u64-IsSafe s h = extract-IsSafe 8 1 s (omega arith)

read_input-IsSafe : (s : List ℕ) → 1 ≤ length s → IsSafe 1 s (read_input s)
unfolding read_input
read_input-IsSafe s h = checked-IsSafe 32 1 s (take_bytes 32) _ (script-IsSafe 32 s) λ prev r l.
    checked-IsSafe 4 1 r extract_u32 _ (u32-IsSafe r) λ idx r1 l1.
      bind_outcome-IsSafe 1 1 r1 (read_count r1) _ (read_count-IsSafe r1 l1) λ len r2 l2.
        checked-IsSafe len 1 r2 (take_bytes len) _ (script-IsSafe len r2) λ sig r3 l3.
          checked-IsSafe 4 1 r3 extract_u32 _ (u32-IsSafe r3) λ sequence r4 l4. (l4, ([], refl))

read_output-IsSafe : (i : ℕ) (s : List ℕ) → 1 ≤ length s → IsSafe 1 s (read_output i s)
unfolding read_output
read_output-IsSafe i s h = checked-IsSafe 8 1 s extract_u64 _ (u64-IsSafe s) λ value r l.
    bind_outcome-IsSafe 1 1 r (read_count r) _ (read_count-IsSafe r l) λ len r1 l1.
      checked-IsSafe len 1 r1 (take_bytes len) _ (script-IsSafe len r1)
        λ script r2 l2. (l2, ([], refl))

read_list-IsSafe {ℓ} :
    {A : Type ℓ} (item : ℕ → Reader A) (n i : ℕ) (s : List ℕ)
    → ((j : ℕ) (r : List ℕ) → 1 ≤ length r → IsSafe 1 r (item j r))
    → 1 ≤ length s
    → IsSafe 1 s (read_list item n i s)
unfolding read_list
read_list-IsSafe item zero i s safe h = (h, ([], refl))
read_list-IsSafe item (suc n) i s safe h =
    bind_outcome-IsSafe 1 1 s (item i s) _ (safe i s h) λ a r l.
      bind_outcome-IsSafe 1 1 r (read_list item n (i + 1) r) _
        (read_list-IsSafe item n (i + 1) r safe l) λ rest q k. (k, ([], refl))

pub read_body-IsSafe : (s : List ℕ) → IsSafe 0 s (read_body s)
unfolding read_body
read_body-IsSafe s = checked-IsSafe 4 0 s extract_u32 _ (u32-IsSafe s) λ version r l.
    bind_outcome-IsSafe 1 0 r (read_count r) _ (read_count-IsSafe r l) λ in_count r1 l1.
      bind_outcome-IsSafe 1 0 r1 (read_list (λ i. read_input) in_count 0 r1) _
        (read_list-IsSafe (λ i. read_input) in_count 0 r1 (λ j. read_input-IsSafe) l1)
        λ inputs r2 l2.
          bind_outcome-IsSafe 1 0 r2 (read_count r2) _ (read_count-IsSafe r2 l2) λ out_count r3 l3.
            bind_outcome-IsSafe 1 0 r3 (read_list read_output out_count 0 r3) _
              (read_list-IsSafe read_output out_count 0 r3 read_output-IsSafe l3)
              λ outputs r4 l4. check_end-bind-IsSafe 3 0 r4 _ λ long.
                bind_outcome-IsSafe 0 0 r4 (extract_u32 r4) _
                  (unfold extract_u32 in extract-IsSafe 4 0 r4 (omega arith))
                  λ lock_time q k. (k, ([], refl))

-- What a call of `hydrate` on the bytes `s` may return: never a fault; and a transaction whose
-- `serialized` is the part of `s` that was read, with its double hash as its id.
abbrev pub IsRead : (List ℕ → List ℕ) → List ℕ → Outcome Transaction → Type 0
IsRead sha256 s (done tx) =
    ((rest : List ℕ) × (s ≡ tx.serialized ++ rest)) × (tx.txid ≡ sha256 (sha256 tx.serialized))
IsRead sha256 s refused = Unit
IsRead sha256 s fault = ⊥

hydrated-IsRead :
    (sha256 : List ℕ → List ℕ) (s : List ℕ) (o : Outcome (Body × List ℕ))
    → IsSafe 0 s o
    → IsRead sha256 s (hydrated sha256 s o)
unfolding hydrated
hydrated-IsRead sha256 s (done (b, r)) (l, (p, e)) =
    let whole : take (length s - length r) s ≡ p =
      rw e (take-append _ p r (omega (arith, length-append p r))) in
    ((r, rw whole e), refl)
hydrated-IsRead sha256 s refused h = tt
hydrated-IsRead sha256 s fault h = h

-- On every byte string `hydrate` ends without a read behind its input. A transaction that it returns
-- carries exactly the bytes at the front that were read, and their double hash as its id.
pub hydrate-IsRead : (sha256 : List ℕ → List ℕ) (s : List ℕ) → IsRead sha256 s (hydrate sha256 s)
unfolding hydrate
hydrate-IsRead sha256 s = hydrated-IsRead sha256 s (read_body s) (read_body-IsSafe s)
