-- ===== src/Rest/Address.antt =====
-- `addressToScriptpubkey` of rest/index.js.
use cpp_slp_graph_search.Prelude.{ℕ, ◌%◌, List, [], ◌∷◌, ◌++◌, length}

-- What `cashaddrjs.decode` returns: `x.type` and `x.hash`.
pub data AddressType : Type 0 where
  p2pkh p2pk other : AddressType

pub record Decoded : Type 0 where
  pub type : AddressType
  pub hash : List ℕ

script_bytes : AddressType → List ℕ → List ℕ
script_bytes p2pkh hash = 0x76 ∷ 0xA9 ∷ length hash % 256 ∷ hash ++ 0x88 ∷ 0xAC ∷ []
script_bytes p2pk hash = 0xAC ∷ length hash % 256 ∷ hash ++ 0x87 ∷ []
script_bytes other hash = 0xA9 ∷ length hash % 256 ∷ hash ++ 0x87 ∷ []

-- The bytes of the buffer, before `toString('base64')`.
unfoldable pub address_script : Decoded → List ℕ
unfolding script_bytes
address_script x = script_bytes x.type x.hash
