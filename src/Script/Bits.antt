-- ===== src/Script/Bits.antt =====
-- `convertBits` of include/gs++/scriptpubkey.hpp, from bytes to groups of five bits and back.
pub mod RoundTrip
use cpp_slp_graph_search.Prelude.{
  ℕ, zero, suc, ◌+◌, ◌-◌, ◌*◌, ◌/◌, ◌%◌, ◌^◌, ◌<◌, ◌≡◌, refl, ap, sym, ◌∙◌, List, [], ◌∷◌, ◌++◌,
  Option, none, some, Bool, true, false, arith, ltb, leb, ◌==◌, All,
}
use cpp_slp_graph_search.Util.Bytes.{Byte}
use cpp_slp_graph_search.Script.{drain, prepend, last_bits, regroup, convert_bits}

-- The rest of a list gives `out`, whatever the accumulator holds above its low bits.
abbrev pub Continues : ℕ → ℕ → Bool → List ℕ → ℕ → (ℕ → Type 0) → List ℕ → Type 0
Continues from to strict rest bits Low out =
    (acc : ℕ) → Low acc → regroup from to strict rest acc bits ≡ some out

pub encode0 :
    (b acc : ℕ) (rest out : List ℕ)
    → b < 256
    → Continues 8 5 false rest 3 (λ a. a % 8 ≡ b % 8) out
    → regroup 8 5 false (b ∷ rest) acc 0 ≡ some (b / 8 ∷ out)
unfolding regroup drain prepend
encode0 b acc rest out h next =
    let more = next ((acc * 256 + b) % 2 ^ 32) (omega arith) in ground (arith, more)

pub encode3 :
    (b acc r : ℕ) (rest out : List ℕ)
    → b < 256
    → acc % 8 ≡ r
    → Continues 8 5 false rest 1 (λ a. a % 2 ≡ b % 2) out
    → regroup 8 5 false (b ∷ rest) acc 3 ≡ some ((r * 4 + b / 64) ∷ b / 2 % 32 ∷ out)
unfolding regroup drain prepend
encode3 b acc r rest out h e next =
    let more = next ((acc * 256 + b) % 2 ^ 32) (omega arith) in ground (arith, more)

pub encode1 :
    (b acc r : ℕ) (rest out : List ℕ)
    → b < 256
    → acc % 2 ≡ r
    → Continues 8 5 false rest 4 (λ a. a % 16 ≡ b % 16) out
    → regroup 8 5 false (b ∷ rest) acc 1 ≡ some ((r * 16 + b / 16) ∷ out)
unfolding regroup drain prepend
encode1 b acc r rest out h e next =
    let more = next ((acc * 256 + b) % 2 ^ 32) (omega arith) in ground (arith, more)

pub encode4 :
    (b acc r : ℕ) (rest out : List ℕ)
    → b < 256
    → acc % 16 ≡ r
    → Continues 8 5 false rest 2 (λ a. a % 4 ≡ b % 4) out
    → regroup 8 5 false (b ∷ rest) acc 4 ≡ some ((r * 2 + b / 128) ∷ b / 4 % 32 ∷ out)
unfolding regroup drain prepend
encode4 b acc r rest out h e next =
    let more = next ((acc * 256 + b) % 2 ^ 32) (omega arith) in ground (arith, more)

pub encode2 :
    (b acc r : ℕ) (rest out : List ℕ)
    → b < 256
    → acc % 4 ≡ r
    → Continues 8 5 false rest 0 (λ a. Unit) out
    → regroup 8 5 false (b ∷ rest) acc 2 ≡ some ((r * 8 + b / 32) ∷ b % 32 ∷ out)
unfolding regroup drain prepend
encode2 b acc r rest out h e next =
    let more = next ((acc * 256 + b) % 2 ^ 32) tt in ground (arith, more)

pub decode0 :
    (v acc : ℕ) (rest out : List ℕ)
    → v < 32
    → Continues 5 8 true rest 5 (λ a. a % 32 ≡ v) out
    → regroup 5 8 true (v ∷ rest) acc 0 ≡ some (out)
unfolding regroup drain prepend
decode0 v acc rest out h next =
    let more = next ((acc * 32 + v) % 2 ^ 32) (omega arith) in ground (arith, more)

pub decode5 :
    (v acc r b : ℕ) (rest out : List ℕ)
    → v < 32
    → acc % 32 ≡ r
    → r * 8 + v / 4 ≡ b
    → Continues 5 8 true rest 2 (λ a. a % 4 ≡ v % 4) out
    → regroup 5 8 true (v ∷ rest) acc 5 ≡ some (b ∷ out)
unfolding regroup drain prepend
decode5 v acc r b rest out h e w next =
    let more = next ((acc * 32 + v) % 2 ^ 32) (omega arith) in ground (arith, more)

pub decode2 :
    (v acc r : ℕ) (rest out : List ℕ)
    → v < 32
    → acc % 4 ≡ r
    → Continues 5 8 true rest 7 (λ a. a % 128 ≡ r * 32 + v) out
    → regroup 5 8 true (v ∷ rest) acc 2 ≡ some (out)
unfolding regroup drain prepend
decode2 v acc r rest out h e next =
    let more = next ((acc * 32 + v) % 2 ^ 32) (omega arith) in ground (arith, more)

pub decode7 :
    (v acc r b : ℕ) (rest out : List ℕ)
    → v < 32
    → acc % 128 ≡ r
    → r * 2 + v / 16 ≡ b
    → Continues 5 8 true rest 4 (λ a. a % 16 ≡ v % 16) out
    → regroup 5 8 true (v ∷ rest) acc 7 ≡ some (b ∷ out)
unfolding regroup drain prepend
decode7 v acc r b rest out h e w next =
    let more = next ((acc * 32 + v) % 2 ^ 32) (omega arith) in ground (arith, more)

pub decode4 :
    (v acc r b : ℕ) (rest out : List ℕ)
    → v < 32
    → acc % 16 ≡ r
    → r * 16 + v / 2 ≡ b
    → Continues 5 8 true rest 1 (λ a. a % 2 ≡ v % 2) out
    → regroup 5 8 true (v ∷ rest) acc 4 ≡ some (b ∷ out)
unfolding regroup drain prepend
decode4 v acc r b rest out h e w next =
    let more = next ((acc * 32 + v) % 2 ^ 32) (omega arith) in ground (arith, more)

pub decode1 :
    (v acc r : ℕ) (rest out : List ℕ)
    → v < 32
    → acc % 2 ≡ r
    → Continues 5 8 true rest 6 (λ a. a % 64 ≡ r * 32 + v) out
    → regroup 5 8 true (v ∷ rest) acc 1 ≡ some (out)
unfolding regroup drain prepend
decode1 v acc r rest out h e next =
    let more = next ((acc * 32 + v) % 2 ^ 32) (omega arith) in ground (arith, more)

pub decode6 :
    (v acc r b : ℕ) (rest out : List ℕ)
    → v < 32
    → acc % 64 ≡ r
    → r * 4 + v / 8 ≡ b
    → Continues 5 8 true rest 3 (λ a. a % 8 ≡ v % 8) out
    → regroup 5 8 true (v ∷ rest) acc 6 ≡ some (b ∷ out)
unfolding regroup drain prepend
decode6 v acc r b rest out h e w next =
    let more = next ((acc * 32 + v) % 2 ^ 32) (omega arith) in ground (arith, more)

pub decode3 :
    (v acc r b : ℕ) (rest out : List ℕ)
    → v < 32
    → acc % 8 ≡ r
    → r * 32 + v ≡ b
    → Continues 5 8 true rest 0 (λ a. Unit) out
    → regroup 5 8 true (v ∷ rest) acc 3 ≡ some (b ∷ out)
unfolding regroup drain prepend
decode3 v acc r b rest out h e w next =
    let more = next ((acc * 32 + v) % 2 ^ 32) tt in ground (arith, more)

pub encode_end3 : (acc r : ℕ) → acc % 8 ≡ r → regroup 8 5 false [] acc 3 ≡ some (r * 4 ∷ [])
unfolding regroup last_bits
encode_end3 acc r e = ground (arith, e)

pub encode_end1 : (acc r : ℕ) → acc % 2 ≡ r → regroup 8 5 false [] acc 1 ≡ some (r * 16 ∷ [])
unfolding regroup last_bits
encode_end1 acc r e = ground (arith, e)

pub encode_end4 : (acc r : ℕ) → acc % 16 ≡ r → regroup 8 5 false [] acc 4 ≡ some (r * 2 ∷ [])
unfolding regroup last_bits
encode_end4 acc r e = ground (arith, e)

pub encode_end2 : (acc r : ℕ) → acc % 4 ≡ r → regroup 8 5 false [] acc 2 ≡ some (r * 8 ∷ [])
unfolding regroup last_bits
encode_end2 acc r e = ground (arith, e)

pub decode_end2 : (acc : ℕ) → acc % 4 ≡ 0 → regroup 5 8 true [] acc 2 ≡ some []
unfolding regroup last_bits
decode_end2 acc e = ground (arith, e)

pub decode_end4 : (acc : ℕ) → acc % 16 ≡ 0 → regroup 5 8 true [] acc 4 ≡ some []
unfolding regroup last_bits
decode_end4 acc e = ground (arith, e)

pub decode_end1 : (acc : ℕ) → acc % 2 ≡ 0 → regroup 5 8 true [] acc 1 ≡ some []
unfolding regroup last_bits
decode_end1 acc e = ground (arith, e)

pub decode_end3 : (acc : ℕ) → acc % 8 ≡ 0 → regroup 5 8 true [] acc 3 ≡ some []
unfolding regroup last_bits
decode_end3 acc e = ground (arith, e)
