-- ===== src/Rest/Numeric.antt =====
-- The parts of JavaScript's numbers that rest/index.js uses: `parseInt(s, 16)`, `isNaN` of a
-- string, `>>>`, `&` and `toString(16)`.
use cpp_slp_graph_search.Prelude.{
  ℕ, zero, suc, ◌+◌, ◌-◌, ◌*◌, ◌/◌, ◌%◌, ◌^◌, List, [], ◌∷◌, ◌++◌, Option, none, some, Bool, true,
  false, not, ◌&&◌, ◌||◌, leb, ltb, ◌==◌, if◌then◌else◌, reverse,
}

-- An integer, or NaN. `neg n` is -n, and `neg 0` is -0.
pub data Num : Type 0 where
  nan : Num
  pos neg : ℕ → Num

-- WhiteSpace and LineTerminator of the language.
unfoldable pub is_space : ℕ → Bool
is_space c =
    (leb 9 c && leb c 13)
    || c == 0x20
    || c == 0xA0
    || c == 0x1680
    || (leb 0x2000 c && leb c 0x200A)
    || c == 0x2028
    || c == 0x2029
    || c == 0x202F
    || c == 0x205F
    || c == 0x3000
    || c == 0xFEFF

unfoldable pub trim_start : List ℕ → List ℕ
unfolding is_space
trim_start [] = []
trim_start (c ∷ s) = if is_space c then trim_start s else c ∷ s

trim : List ℕ → List ℕ
unfolding trim_start
trim s = reverse (trim_start (reverse (trim_start s)))

is_digit : ℕ → Bool
is_digit c = leb b'0' c && leb c b'9'

unfoldable pub digit16 : ℕ → Option ℕ
unfolding is_digit
digit16 c =
    if is_digit c
    then some (c - b'0')
    else if leb b'a' c && leb c b'f'
    then some (c - b'a' + 10)
    else if leb b'A' c && leb c b'F'
    then some (c - b'A' + 10)
    else none

-- The value of the longest run of digits, `none` if there is none.
unfoldable pub digits_from : Option ℕ → List ℕ → Option ℕ
unfolding digit16
digits_from acc [] = acc
digits_from acc (c ∷ s) =
    let more = λ (d : ℕ). digits_from (some (elim acc [ none ↦ d | some a ↦ a * 16 + d ])) s in
    elim (digit16 c) [ none ↦ acc | some d ↦ more d ]

-- A leading `0x` or `0X` is dropped.
unfoldable pub drop_prefix : List ℕ → List ℕ
drop_prefix (a ∷ x ∷ s) = if a == b'0' && (x == b'x' || x == b'X') then s else a ∷ x ∷ s
drop_prefix s = s

signed : Bool → Option ℕ → Num
signed b none = nan
signed true (some n) = neg n
signed false (some n) = pos n

unsigned_text : List ℕ → Option ℕ
unfolding digits_from drop_prefix
unsigned_text s = digits_from none (drop_prefix s)

with_sign : List ℕ → Num
unfolding signed unsigned_text
with_sign [] = nan
with_sign (c ∷ s) =
    if c == b'-'
    then signed true (unsigned_text s)
    else if c == b'+'
    then signed false (unsigned_text s)
    else signed false (unsigned_text (c ∷ s))

-- `parseInt(s, 16)`
unfoldable pub parse_int16 : List ℕ → Num
unfolding with_sign trim_start
parse_int16 s = with_sign (trim_start s)

-- ToUint32, which `>>>` and `&` (of a small mask) apply to their left operand.
unfoldable pub to_uint32 : Num → ℕ
to_uint32 nan = 0
to_uint32 (pos n) = n % 2 ^ 32
to_uint32 (neg n) = (2 ^ 32 - n % 2 ^ 32) % 2 ^ 32

unfoldable pub hex_char : ℕ → ℕ
hex_char d = if ltb d 10 then b'0' + d else b'a' + (d - 10)

digits16 : ℕ → ℕ → List ℕ
unfolding hex_char
digits16 zero n = []
digits16 (suc k) n =
    let front = digits16 k (n / 16) in
    if ltb n 16 then hex_char n ∷ [] else front ++ hex_char (n % 16) ∷ []

-- `n.toString(16)` of a number below 2 ^ 32, which has eight digits at most.
unfoldable pub to_string16 : ℕ → List ℕ
unfolding digits16
to_string16 = digits16 8

-- StrDecimalLiteral: digits, a point with digits on one side at least, an exponent.
all_chars : (ℕ → Bool) → List ℕ → Bool
all_chars p [] = true
all_chars p (c ∷ s) = p c && all_chars p s

nonempty_of : (ℕ → Bool) → List ℕ → Bool
unfolding all_chars
nonempty_of p [] = false
nonempty_of p (c ∷ s) = all_chars p (c ∷ s)

strip_sign : List ℕ → List ℕ
strip_sign [] = []
strip_sign (c ∷ s) = if c == b'+' || c == b'-' then s else c ∷ s

-- `digits` tells whether a digit stood before, in the whole or in the fraction.
fraction : Bool → List ℕ → Bool
unfolding nonempty_of strip_sign is_digit
fraction digits [] = digits
fraction digits (c ∷ s) =
    let more = fraction true s in
    if is_digit c
    then more
    else (c == b'e' || c == b'E') && digits && nonempty_of is_digit (strip_sign s)

decimal : Bool → List ℕ → Bool
unfolding fraction
decimal digits [] = digits
decimal digits (c ∷ s) =
    let more = decimal true s in
    if is_digit c then more else if c == b'.' then fraction digits s else fraction digits (c ∷ s)

infinity : List ℕ
infinity = b'I' ∷ b'n' ∷ b'f' ∷ b'i' ∷ b'n' ∷ b'i' ∷ b't' ∷ b'y' ∷ []

same_text : List ℕ → List ℕ → Bool
same_text [] [] = true
same_text [] (b ∷ t) = false
same_text (a ∷ s) [] = false
same_text (a ∷ s) (b ∷ t) = a == b && same_text s t

decimal_literal : List ℕ → Bool
unfolding decimal same_text infinity strip_sign
decimal_literal s = let t = strip_sign s in same_text t infinity || decimal false t

radix_digit : ℕ → ℕ → Bool
unfolding digit16
radix_digit r c = elim (digit16 c) [ none ↦ false | some d ↦ ltb d r ]

-- A radix prefix is followed by a digit at least, and takes no sign.
is_numeric : List ℕ → Bool
unfolding radix_digit decimal_literal nonempty_of
is_numeric (z ∷ x ∷ s) =
    if z == b'0' && (x == b'x' || x == b'X')
    then nonempty_of (radix_digit 16) s
    else if z == b'0' && (x == b'o' || x == b'O')
    then nonempty_of (radix_digit 8) s
    else if z == b'0' && (x == b'b' || x == b'B')
    then nonempty_of (radix_digit 2) s
    else decimal_literal (z ∷ x ∷ s)
is_numeric [] = true
is_numeric (c ∷ []) = decimal_literal (c ∷ [])

-- `isNaN(s)` of a string: an empty or blank one counts as 0.
unfoldable pub is_nan : List ℕ → Bool
unfolding is_numeric trim
is_nan s = not (is_numeric (trim s))
