-- ===== src/Fuzz/Examples.antt =====
-- A run of the fuzzing server with a parser that knows one message.
use cpp_slp_graph_search.Prelude.{ℕ, ◌≡◌, ◌⊎◌, inl, inr, List, [], ◌∷◌, arith, none, some}
use cpp_slp_graph_search.Prelude.Codes.{codes}
use cpp_slp_graph_search.Util.Hex.{hex, Text}
use cpp_slp_graph_search.Fuzz.Report.{Parsed, serve, report}
use cpp_slp_graph_search.Fuzz.Laws.{serve-hex}

abbrev parse_all : List ℕ → Text ⊎ Parsed ℕ ℕ
parse_all [] = inl (codes "empty script")
parse_all (b ∷ bin) = inr (record {
  transaction_type = codes "GENESIS";
  symbol = codes "AB";
  name = [];
  document_uri = [];
  document_sha256 = none;
  quantity = some b;
  send_outputs = none;
  other = 1;
})

abbrev one_digit : ℕ → Text
one_digit n = n ∷ []

serve-hex_example :
    serve parse_all one_digit (b'/' ∷ hex (0x6A ∷ 4 ∷ []))
    ≡ report parse_all one_digit (0x6A ∷ 4 ∷ [])
serve-hex_example = serve-hex parse_all one_digit (0x6A ∷ 4 ∷ []) (omega arith, (omega arith, tt))
