-- ===== src/Fuzz/Parser.antt =====
-- The server of fuzz/slp-parser.js/server.js, with `slp-parser` a parameter.
use cpp_slp_graph_search.Prelude.{ℕ, ◌⊎◌, inl, inr, List, Option, none, some, if◌then◌else◌, map}
use cpp_slp_graph_search.Prelude.Codes.{codes}
use cpp_slp_graph_search.Util.Hex.{hex, Text}
use cpp_slp_graph_search.Fuzz.Report.{binary_hex, same_text, map_option, path_of, buffer_from_hex}

-- An object of `parseSLP`: its own fields and those of its `data`.
pub record Message (Big : Type 0) : Type 0 where
  pub token_type : ℕ
  pub transaction_type : Text
  pub ticker : Text
  pub name : Text
  pub document_uri : Text
  pub document_hash : Option Text
  pub decimals : Option ℕ
  pub qty : Option Big
  pub tokenid : Option (List ℕ)
  pub mint_baton_vout : Option ℕ
  pub amounts : Option (List Big)

pub record GenesisTexts : Type 0 where
  pub symbol : Text
  pub name : Text
  pub document_uri : Text
  pub document_sha256 : Text

-- What the server adds to the object.
pub record Added : Type 0 where
  pub version_type : ℕ
  pub genesis_texts : Option GenesisTexts
  pub decimals : Option ℕ
  pub quantity : Option Text
  pub token_id_hex : Option Text
  pub baton_vout : Option ℕ
  pub send_outputs : Option (List Text)

module _ {Big : Type 0} (parse_slp : List ℕ → Text ⊎ Message Big) (to_text : Big → Text)
    (type_error : Text) where
  -- The `GENESIS` branch; `Buffer.from(null, 'binary')` throws, with `type_error` for its message.
  unfoldable pub genesis_texts_of : Message Big → Option Text → Text ⊎ GenesisTexts
  unfolding binary_hex
  genesis_texts_of y none = inl type_error
  genesis_texts_of y (some document_hash) = inr (record {
    symbol = binary_hex y.ticker;
    name = binary_hex y.name;
    document_uri = binary_hex y.document_uri;
    document_sha256 = binary_hex document_hash;
  })

  -- The statements behind the `GENESIS` branch.
  unfoldable pub add_fields : Message Big → Option GenesisTexts → Added
  add_fields y texts = record {
    version_type = y.token_type;
    genesis_texts = texts;
    decimals = y.decimals;
    quantity = map_option to_text y.qty;
    token_id_hex = map_option hex y.tokenid;
    baton_vout = y.mint_baton_vout;
    send_outputs = map_option (map to_text) y.amounts;
  }

  abbrev pub add_genesis : Message Big → Text ⊎ GenesisTexts → Text ⊎ (Message Big × Added)
  add_genesis y (inl message) = inl message
  add_genesis y (inr texts) = inr (y, add_fields y (some texts))

  unfoldable pub added : Message Big → Text ⊎ (Message Big × Added)
  unfolding genesis_texts_of add_fields same_text
  added y =
      if same_text y.transaction_type (codes "GENESIS")
      then add_genesis y (genesis_texts_of y y.document_hash)
      else inr (y, add_fields y none)

  abbrev pub added_result : Text ⊎ Message Big → Text ⊎ (Message Big × Added)
  added_result (inl message) = inl message
  added_result (inr y) = added y

  -- The answer to a URL: `inl` with `success: false`.
  unfoldable pub serve_parser : Text → Text ⊎ (Message Big × Added)
  unfolding added path_of buffer_from_hex
  serve_parser url = added_result (parse_slp (buffer_from_hex (path_of url)))
