-- ===== src/Script.antt =====
-- `scriptpubkey` of include/gs++/scriptpubkey.hpp: scripts and addresses. `cashaddr::Encode` and
-- `cashaddr::Decode`, which belong to another project, are arguments.
pub mod Bits
pub mod RoundTrip
pub mod Examples
use cpp_slp_graph_search.Prelude.{
  ℕ, zero, suc, ◌+◌, ◌-◌, ◌*◌, ◌/◌, ◌%◌, ◌^◌, List, [], ◌∷◌, ◌++◌, Option, none, some, Bool, true,
  false, ◌&&◌, ltb, leb, ◌==◌, if◌then◌else◌, length, take, drop, get_or,
}
use cpp_slp_graph_search.Util.Hex.{Text}

-- "P2PKH", "P2SH" and the empty text.
pub data AddressType : Type 0 where
  p2pkh p2sh no_type : AddressType

unfoldable pub to_address : List ℕ → AddressType × List ℕ
to_address v =
    if ltb 5 (length v)
      && (get_or v 0 0 == 0x76 && (get_or v 1 0 == 0xA9 && length v == 3 + get_or v 2 0 + 2))
    then (p2pkh, take (length v - 5) (drop 3 v))
    else if length v == 23 && (get_or v 0 0 == 0xA9 && get_or v 22 0 == 0x87)
    then (p2sh, take 20 (drop 1 v))
    else (no_type, [])

-- `none` is an assertion that fails, here and below.
unfoldable pub type_bits : AddressType → Option ℕ
type_bits p2pkh = some 0
type_bits p2sh = some 8
type_bits no_type = none

unfoldable pub hash_size_bits : List ℕ → Option ℕ
hash_size_bits hash =
    let bits = length hash * 8 in
    if bits == 160
    then some 0
    else if bits == 192
    then some 1
    else if bits == 224
    then some 2
    else if bits == 256
    then some 3
    else if bits == 320
    then some 4
    else if bits == 384
    then some 5
    else if bits == 448
    then some 6
    else if bits == 512
    then some 7
    else none

-- `while (bits >= to)`: what is written, and the bits that are left. At most `bits` rounds.
unfoldable pub drain : ℕ → ℕ → ℕ → ℕ → List ℕ × ℕ
drain zero to accumulator bits = ([], bits)
drain (suc fuel) to accumulator bits =
    let rest = drain fuel to accumulator (bits - to) in
    if leb to bits then (accumulator / 2 ^ (bits - to) % 2 ^ to ∷ rest.0, rest.1) else ([], bits)

unfoldable pub prepend : List ℕ → Option (List ℕ) → Option (List ℕ)
prepend out none = none
prepend out (some rest) = some (out ++ rest)

-- What follows the loop.
unfoldable pub last_bits : ℕ → ℕ → Bool → ℕ → ℕ → Option (List ℕ)
last_bits from to true accumulator bits =
    if ltb bits from && accumulator * 2 ^ (to - bits) % 2 ^ to == 0 then some [] else none
last_bits from to false accumulator bits =
    if ltb 0 bits then some (accumulator * 2 ^ (to - bits) % 2 ^ to ∷ []) else some []

-- The loop over `data`. The writes fill `result` from its start; `index` has 8 bits, which is enough
-- for the addresses.
unfoldable pub regroup : ℕ → ℕ → Bool → List ℕ → ℕ → ℕ → Option (List ℕ)
unfolding drain prepend last_bits
regroup from to strict [] accumulator bits = last_bits from to strict accumulator bits
regroup from to strict (value ∷ bytes) accumulator bits =
    let next = (accumulator * 2 ^ from + value) % 2 ^ 32 in
    let drained = drain (bits + from) to next (bits + from) in
    let rest = regroup from to strict bytes next drained.1 in
    if value / 2 ^ from == 0 then prepend drained.0 rest else none

unfoldable pub convert_bits : List ℕ → ℕ → ℕ → Bool → Option (List ℕ)
unfolding regroup
convert_bits bytes from to strict = regroup from to strict bytes 0 0

encode_with : (Text → List ℕ → Text) → Text → Option ℕ → Option ℕ → List ℕ → Option Text
unfolding convert_bits
encode_with encode prefix none size hash = none
encode_with encode prefix (some t) none hash = none
encode_with encode prefix (some t) (some size) hash =
    elim (convert_bits ((t + size) % 256 ∷ hash) 8 5 false) [
      | none ↦ none
      | some payload ↦ some (encode prefix payload)
    ]

unfoldable pub to_cashaddr : (Text → List ℕ → Text) → Text → List ℕ → Option Text
unfolding encode_with to_address type_bits hash_size_bits
to_cashaddr encode prefix v =
    let address = to_address v in
    encode_with encode prefix (type_bits address.0) (hash_size_bits address.1) address.1

-- The `switch` on `hash[0] & 120`; `hash[0]` of no bytes is a read out of range, `none` here.
unfoldable pub script_of : List ℕ → Option (List ℕ)
script_of [] = none
script_of (version ∷ hash) =
    let kind = version / 8 % 16 * 8 in
    if kind == 0
    then some (0x76 ∷ 0xA9 ∷ length hash % 256 ∷ hash ++ 0x88 ∷ 0xAC ∷ [])
    else if kind == 8
    then some (0xA9 ∷ length hash % 256 ∷ hash ++ 0x87 ∷ [])
    else some []

decode_with : Text × List ℕ → Option (List ℕ)
unfolding convert_bits script_of
decode_with ([], payload) = some []
decode_with (c ∷ prefix, payload) = elim (convert_bits payload 5 8 true) [
  | none ↦ none
  | some hash ↦ script_of hash
]

unfoldable pub from_cashaddr : (Text → Text × List ℕ) → Text → Option (List ℕ)
unfolding decode_with
from_cashaddr decode cashaddr = decode_with (decode cashaddr)
