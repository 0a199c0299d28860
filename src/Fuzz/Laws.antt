-- ===== src/Fuzz/Laws.antt =====
-- The server of fuzz/nodejs_validation against report.js.
use cpp_slp_graph_search.Prelude.{
  ℕ, ◌≡◌, ◌⊎◌, refl, ap, ◌∙◌, List, [], ◌∷◌, ◌/◌, ◌%◌, ◌==◌, ==_iff, true, false, Bool, Option,
  some, none, ◌+◌, ◌*◌, All, get_or,
}
use cpp_slp_graph_search.Prelude.Tables.{passes, passes-entry}
use cpp_slp_graph_search.Util.Bytes.{Byte}
use cpp_slp_graph_search.Util.Hex.{hex, Text, chars}
use cpp_slp_graph_search.Fuzz.Report.{
  Parsed, hex_digit, byte_before, buffer_from_hex, path_of, report, serve, show_result,
}

digits_are : ℕ → Option ℕ → Option ℕ → Bool
digits_are b (some h) (some l) = (h * 16 + l) == b
digits_are b none l = false
digits_are b (some h) none = false

byte_before-digits_are :
    (b : ℕ) (p q : Option ℕ) (rest : List ℕ)
    → digits_are b p q ≡ true
    → byte_before p q rest ≡ b ∷ rest
unfolding digits_are
byte_before-digits_are b (some h) (some l) rest e = ap (λ n. n ∷ rest) ((==_iff _ b).0 e)
byte_before-digits_are b none l rest e = cc
byte_before-digits_are b (some h) none rest e = cc

digit_table :
    passes
      (λ b.
        digits_are b (hex_digit (get_or chars (b / 16) 0)) (hex_digit (get_or chars (b % 16) 0)))
      256
    ≡ true
unfolding passes digits_are hex_digit
digit_table = refl

pub buffer_from_hex-hex : (v : List ℕ) → All Byte v → buffer_from_hex (hex v) ≡ v
unfolding buffer_from_hex hex
buffer_from_hex-hex [] h = refl
buffer_from_hex-hex (b ∷ v) (hb, h) =
    byte_before-digits_are b _ _ _ (passes-entry _ 256 b digit_table hb)
    ∙ ap (λ s. b ∷ s) (buffer_from_hex-hex v h)

module _ {Big Other : Type 0} (parse : List ℕ → Text ⊎ Parsed Big Other)
    (to_text : Big → Text) where
  -- Asked with a slash and the hexadecimal text of a script of bytes, the server answers with the
  -- object or the message that report.js prints for that script.
  pub serve-hex :
      (bin : List ℕ)
      → All Byte bin
      → serve parse to_text (b'/' ∷ hex bin) ≡ report parse to_text bin
  unfolding serve report path_of
  serve-hex bin h = ap (λ s. show_result parse to_text (parse s)) (buffer_from_hex-hex bin h)
