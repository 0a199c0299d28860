-- ===== src/Fuzz/Report.antt =====
-- The reports of fuzz/nodejs_validation/report.js and of the server beside it. `slp-validate` is a
-- parameter, and so is the text of its numbers.
use cpp_slp_graph_search.Prelude.{
  ◌*◌, ℕ, ◌+◌, ◌-◌, ◌%◌, ◌⊎◌, inl, inr, List, [], ◌∷◌, Option, none, some, Bool, true, false, ◌&&◌,
  ◌==◌, leb, if◌then◌else◌, map,
}
use cpp_slp_graph_search.Prelude.Codes.{codes}
use cpp_slp_graph_search.Util.Hex.{hex, Text}

-- An object of `parseSlpOutputScript`, over its numbers. `other` are the fields that no report
-- changes.
pub record Parsed (Big Other : Type 0) : Type 0 where
  pub transaction_type : Text
  pub symbol : Text
  pub name : Text
  pub document_uri : Text
  pub document_sha256 : Option Text
  pub quantity : Option Big
  pub send_outputs : Option (List Big)
  pub other : Other

-- The object with texts for its numbers.
abbrev pub Shown : Type 0 → Type 0
Shown Other = Parsed Text Other

-- `toUpperCase` on hexadecimal digits.
unfoldable pub upper : ℕ → ℕ
upper c = if leb b'a' c && leb c b'z' then c - 32 else c

-- `Buffer.from(s, 'binary').toString('hex').toUpperCase()`; `binary` keeps the low byte of each code.
unfoldable pub binary_hex : Text → Text
unfolding upper hex
binary_hex s = map upper (hex (map (λ c. c % 256) s))

unfoldable pub same_text : Text → Text → Bool
same_text [] [] = true
same_text [] (c ∷ t) = false
same_text (c ∷ s) [] = false
same_text (c ∷ s) (d ∷ t) = c == d && same_text s t

abbrev pub map_option {ℓ κ} : {A : Type ℓ} {B : Type κ} → (A → B) → Option A → Option B
map_option f none = none
map_option f (some a) = some (f a)

abbrev pub or_empty : Option Text → Text
or_empty none = []
or_empty (some s) = s

-- One digit of `Buffer.from(s, 'hex')`.
unfoldable pub hex_digit : ℕ → Option ℕ
hex_digit c =
    if leb b'0' c && leb c b'9'
    then some (c - b'0')
    else if leb b'a' c && leb c b'f'
    then some (c - b'a' + 10)
    else if leb b'A' c && leb c b'F'
    then some (c - b'A' + 10)
    else none

abbrev pub byte_before : Option ℕ → Option ℕ → List ℕ → List ℕ
byte_before (some h) (some l) rest = (h * 16 + l) ∷ rest
byte_before (some h) none rest = []
byte_before none l rest = []

-- `Buffer.from(s, 'hex')`, which ends before the first pair that is not of two digits.
unfoldable pub buffer_from_hex : Text → List ℕ
unfolding hex_digit
buffer_from_hex [] = []
buffer_from_hex (p ∷ []) = []
buffer_from_hex (p ∷ q ∷ s) = byte_before (hex_digit p) (hex_digit q) (buffer_from_hex s)

-- `req.url[0] == '/' ? req.url.slice(1) : req.url`
unfoldable pub path_of : Text → Text
path_of [] = []
path_of (c ∷ url) = if c == b'/' then url else c ∷ url

module _ {Big Other : Type 0} (parse : List ℕ → Text ⊎ Parsed Big Other)
    (to_text : Big → Text) where
  -- The `GENESIS` branch.
  unfoldable pub show_genesis : Parsed Big Other → Parsed Big Other
  unfolding binary_hex
  show_genesis y = record y {
    symbol = binary_hex y.symbol;
    name = binary_hex y.name;
    document_uri = binary_hex y.document_uri;
    document_sha256 = some (binary_hex (or_empty y.document_sha256));
  }

  unfoldable pub show_numbers : Parsed Big Other → Shown Other
  show_numbers y = record {
    transaction_type = y.transaction_type;
    symbol = y.symbol;
    name = y.name;
    document_uri = y.document_uri;
    document_sha256 = y.document_sha256;
    quantity = map_option to_text y.quantity;
    send_outputs = map_option (map to_text) y.send_outputs;
    other = y.other;
  }

  -- The statements between the parse and the output.
  unfoldable pub show : Parsed Big Other → Shown Other
  unfolding show_genesis show_numbers same_text
  show y =
      show_numbers (if same_text y.transaction_type (codes "GENESIS") then show_genesis y else y)

  abbrev pub show_result : Text ⊎ Parsed Big Other → Text ⊎ Shown Other
  show_result (inl message) = inl message
  show_result (inr y) = inr (show y)

  -- report.js on the bytes of its file: what it prints, `inl` with exit code 1.
  unfoldable pub report : List ℕ → Text ⊎ Shown Other
  unfolding show
  report bin = show_result (parse bin)

  -- server.js on a URL: the answer with `success: false` and the message, or `success: true` and the data.
  unfoldable pub serve : Text → Text ⊎ Shown Other
  unfolding show path_of buffer_from_hex
  serve url = show_result (parse (buffer_from_hex (path_of url)))
