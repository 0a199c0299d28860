-- ===== src/Script/RoundTrip.antt =====
-- `to_cashaddr` and `from_cashaddr` of include/gs++/scriptpubkey.hpp on the standard scripts.
use cpp_slp_graph_search.Prelude.{
  ℕ, zero, suc, ◌+◌, ◌-◌, ◌*◌, ◌/◌, ◌%◌, ◌^◌, ◌≤◌, ◌<◌, ◌≡◌, inl, inr, refl, ap, subst, ◌∙◌, List,
  [], ◌∷◌, ◌++◌, Option, none, some, true, false, arith, ltb, leb, ◌==◌, All, All-append,
  Bool-cases, length, length-append, length-take, take, take-append, All-take, get_or,
}
use cpp_slp_graph_search.Util.Bytes.{Byte}
use cpp_slp_graph_search.Util.Hex.{Text}
use cpp_slp_graph_search.Script.{
  AddressType, p2pkh, p2sh, to_address, type_bits, hash_size_bits, drain, prepend, last_bits,
  regroup, convert_bits, encode_with, to_cashaddr, script_of, decode_with, from_cashaddr,
}
use cpp_slp_graph_search.Script.Bits.RoundTrip.{convert_bits-convert_bits}

abbrev pub Quint : ℕ → Type 0
Quint g = g < 32

drain-Quint : (fuel acc bits : ℕ) → All Quint (drain fuel 5 acc bits).0
unfolding drain
drain-Quint zero acc bits = tt
drain-Quint (suc fuel) acc bits = elim (Bool-cases (leb 5 bits)) [
  | inl more ↦ rw more (omega arith, drain-Quint fuel acc (bits - 5))
  | inr few ↦ rw few tt
]

abbrev AllOf : Option (List ℕ) → Type 0
AllOf none = Unit
AllOf (some out) = All Quint out

prepend-AllOf :
    (out : List ℕ) (rest : Option (List ℕ)) → All Quint out → AllOf rest → AllOf (prepend out rest)
unfolding prepend
prepend-AllOf out none h k = tt
prepend-AllOf out (some rest) h k = All-append Quint out rest h k

regroup-AllOf : (bytes : List ℕ) (acc bits : ℕ) → AllOf (regroup 8 5 false bytes acc bits)
unfolding regroup last_bits
regroup-AllOf [] acc bits = elim (Bool-cases (ltb 0 bits)) [
  | inl some_left ↦ rw some_left (omega arith, tt)
  | inr none_left ↦ rw none_left tt
]
regroup-AllOf (b ∷ bytes) acc bits =
    let next = (acc * 2 ^ 8 + b) % 2 ^ 32 in
    let drained = drain (bits + 8) 5 next (bits + 8) in
    let rest =
      prepend-AllOf drained.0 (regroup 8 5 false bytes next drained.1)
        (drain-Quint (bits + 8) next (bits + 8)) (regroup-AllOf bytes next drained.1) in
    elim (Bool-cases (b / 2 ^ 8 == 0)) [ inl e ↦ rw e rest | inr e ↦ rw e tt ]

groups-Quint :
    (bytes groups : List ℕ) → convert_bits bytes 8 5 false ≡ some groups → All Quint groups
unfolding convert_bits
groups-Quint bytes groups e = subst AllOf e (regroup-AllOf bytes 0 0)

-- OP_DUP OP_HASH160 hash OP_EQUALVERIFY OP_CHECKSIG, and OP_HASH160 hash OP_EQUAL.
abbrev pub p2pkh_script : List ℕ → List ℕ
p2pkh_script hash = 0x76 ∷ 0xA9 ∷ length hash % 256 ∷ hash ++ 0x88 ∷ 0xAC ∷ []

abbrev pub p2sh_script : List ℕ → List ℕ
p2sh_script hash = 0xA9 ∷ length hash % 256 ∷ hash ++ 0x87 ∷ []

hash_size_bits-some :
    (hash : List ℕ) (size : ℕ)
    → hash_size_bits hash ≡ some size
    → (size < 8) × (20 ≤ length hash) × (length hash ≤ 64)
unfolding hash_size_bits
hash_size_bits-some hash size e = ground arith

hash_size_bits-twenty : (hash : List ℕ) → length hash ≡ 20 → hash_size_bits hash ≡ some 0
unfolding hash_size_bits
hash_size_bits-twenty hash e = ground (arith, e)

to_address-p2pkh :
    (hash : List ℕ)
    → 20 ≤ length hash
    → length hash ≤ 64
    → to_address (p2pkh_script hash) ≡ (p2pkh, hash)
unfolding to_address
to_address-p2pkh hash h l =
    let size = length-append hash (0x88 ∷ 0xAC ∷ []) in
    let taken = take-append (length hash) hash (0x88 ∷ 0xAC ∷ []) refl in
    let long : ltb 5 (length (p2pkh_script hash)) ≡ true = ground (arith, size) in
    let exact : length (p2pkh_script hash) == 3 + length hash % 256 + 2 ≡ true =
      ground (arith, size) in
    let count : length (p2pkh_script hash) - 5 ≡ length hash = ground (arith, size) in
    rw (long, exact, count, taken) refl

get_or-append : (l r : List ℕ) (i : ℕ) → length l ≡ i → get_or (l ++ r) i 0 ≡ get_or r 0 0
get_or-append [] r zero e = refl
get_or-append [] r (suc i) e = absurd (omega arith)
get_or-append (x ∷ l) r zero e = absurd (omega arith)
get_or-append (x ∷ l) r (suc i) e = get_or-append l r i (omega (arith, e))

take_fewer : (i : ℕ) (l r : List ℕ) → i ≤ length l → take i (l ++ r) ≡ take i l
take_fewer zero l r h = refl
take_fewer (suc i) [] r h = absurd (omega arith)
take_fewer (suc i) (x ∷ l) r h = ap (λ t. x ∷ t) (take_fewer i l r (omega arith))

-- The bytes from 1 to 20 are the length and all of the hash but its last byte.
to_address-p2sh :
    (hash : List ℕ) → length hash ≡ 20 → to_address (p2sh_script hash) ≡ (p2sh, 20 ∷ take 19 hash)
unfolding to_address
to_address-p2sh hash e =
    let size = length-append hash (0x87 ∷ []) in
    let taken = take_fewer 19 hash (0x87 ∷ []) (omega (arith, e)) in
    let end = get_or-append hash (0x87 ∷ []) 20 e in
    let exact : length (p2sh_script hash) == 23 ≡ true = ground (arith, size, e) in
    let count : length hash % 256 ≡ 20 = omega (arith, e) in
    rw (exact, end, taken, count) (ground arith)

-- What both directions need of the library: `Decode` gives back what `Encode` took.
abbrev pub IsCodec : (Text → List ℕ → Text) → (Text → Text × List ℕ) → Text → Type 0
IsCodec encode decode prefix =
    (payload : List ℕ) → All Quint payload → decode (encode prefix payload) ≡ (prefix, payload)

encode_with-some :
    (encode : Text → List ℕ → Text) (prefix : Text) (t size : ℕ) (hash groups : List ℕ)
    → convert_bits ((t + size) % 256 ∷ hash) 8 5 false ≡ some groups
    → encode_with encode prefix (some t) (some size) hash ≡ some (encode prefix groups)
unfolding encode_with
encode_with-some encode prefix t size hash groups e = rw (e, encode_with) refl

decode_with-some :
    (c : ℕ) (prefix : Text) (groups bytes : List ℕ)
    → convert_bits groups 5 8 true ≡ some bytes
    → decode_with (c ∷ prefix, groups) ≡ script_of bytes
unfolding decode_with
decode_with-some c prefix groups bytes e = rw (e, decode_with) refl

-- An address of a version byte and a hash, there and back.
there_and_back :
    (encode : Text → List ℕ → Text) (decode : Text → Text × List ℕ) (c : ℕ) (prefix : Text)
    (v hash script : List ℕ) (type : AddressType) (t size : ℕ)
    → IsCodec encode decode (c ∷ prefix)
    → to_address v ≡ (type, hash)
    → type_bits type ≡ some t
    → hash_size_bits hash ≡ some size
    → t + size < 256
    → All Byte hash
    → script_of ((t + size) % 256 ∷ hash) ≡ some script
    → (text : Text) × (to_cashaddr encode (c ∷ prefix) v ≡ some text)
      × (from_cashaddr decode text ≡ some script)
unfolding to_cashaddr from_cashaddr
there_and_back encode decode c prefix v hash script type t size codec address kind sized low bytes
      made =
    let (groups, there, back) =
      convert_bits-convert_bits ((t + size) % 256 ∷ hash) (omega arith, bytes) in
    let decoded = codec groups (groups-Quint ((t + size) % 256 ∷ hash) groups there) in
    (
      encode (c ∷ prefix) groups,
      rw (address, kind, sized) (encode_with-some encode (c ∷ prefix) t size hash groups there),
      ap decode_with decoded
          ∙ decode_with-some c prefix groups ((t + size) % 256 ∷ hash) back
          ∙ made,
    )

version_p2pkh : (size : ℕ) → size < 8 → (0 + size) % 256 / 8 % 16 * 8 ≡ 0
version_p2pkh size h = omega arith

script_of-p2pkh :
    (hash : List ℕ) (version : ℕ)
    → version / 8 % 16 * 8 ≡ 0
    → script_of (version ∷ hash) ≡ some (p2pkh_script hash)
unfolding script_of
script_of-p2pkh hash version e = rw e refl

-- Where `Decode` gives back what `Encode` took with a prefix that is not empty: the P2PKH script of a
-- hash of 20, 24, 28, 32, 40, 48, 56 or 64 bytes has an address with that prefix, and
-- `from_cashaddr` makes the same script of it.
pub from_cashaddr-to_cashaddr :
    (encode : Text → List ℕ → Text) (decode : Text → Text × List ℕ) (c : ℕ) (prefix : Text)
    (hash : List ℕ) (size : ℕ)
    → IsCodec encode decode (c ∷ prefix)
    → All Byte hash
    → hash_size_bits hash ≡ some size
    → (text : Text) × (to_cashaddr encode (c ∷ prefix) (p2pkh_script hash) ≡ some text)
      × (from_cashaddr decode text ≡ some (p2pkh_script hash))
unfolding type_bits
from_cashaddr-to_cashaddr encode decode c prefix hash size codec bytes sized =
    let (low, few, many) = hash_size_bits-some hash size sized in
    there_and_back encode decode c prefix (p2pkh_script hash) hash (p2pkh_script hash) p2pkh 0 size
      codec (to_address-p2pkh hash few many) refl sized (omega (arith, low)) bytes
      (script_of-p2pkh hash ((0 + size) % 256) (version_p2pkh size low))

length-shifted : (hash : List ℕ) → length hash ≡ 20 → length (20 ∷ take 19 hash) ≡ 20
length-shifted hash e = omega (arith, length-take 19 hash, e)

-- Under the same condition, the P2SH script of a hash of 20 bytes has an address; `from_cashaddr` makes
-- of it the P2SH script of the byte 20 and the first 19 bytes of the hash.
pub from_cashaddr-to_cashaddr_p2sh :
    (encode : Text → List ℕ → Text) (decode : Text → Text × List ℕ) (c : ℕ) (prefix : Text)
    (hash : List ℕ)
    → IsCodec encode decode (c ∷ prefix)
    → All Byte hash
    → length hash ≡ 20
    → (text : Text) × (to_cashaddr encode (c ∷ prefix) (p2sh_script hash) ≡ some text)
      × (from_cashaddr decode text ≡ some (p2sh_script (20 ∷ take 19 hash)))
unfolding type_bits script_of
from_cashaddr-to_cashaddr_p2sh encode decode c prefix hash codec bytes e =
    let shifted = 20 ∷ take 19 hash in
    let size = length-shifted hash e in
    there_and_back encode decode c prefix (p2sh_script hash) shifted (p2sh_script shifted) p2sh 8 0
      codec (to_address-p2sh hash e) refl (hash_size_bits-twenty shifted size) (omega arith)
      (omega arith, All-take Byte 19 hash bytes) refl
