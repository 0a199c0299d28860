-- ===== src/Server/Validation.antt =====
-- `TrustedValidation` and `TrustedValidationBulk` of server/gs++.cpp.
use cpp_slp_graph_search.Prelude.{
  ◌≡◌, refl, List, [], ◌∷◌, Option, none, some, Bool, arith, if◌then◌else◌, map,
}
use cpp_slp_graph_search.Slp.Message.{Hash}
use cpp_slp_graph_search.Util.Hex.{Text}
use cpp_slp_graph_search.Validator.State.{Validator, has_valid}
use cpp_slp_graph_search.Server.Search.{txid_regex, txid_of}

-- A status OK with the reply; INVALID_ARGUMENT; a failed assertion.
pub data Reply (A : Type 0) : Type 0 where
  replied : A → Reply A
  bad_argument failed : Reply A

abbrev pub judge : Validator → Option Hash → Reply Bool
judge v none = failed
judge v (some txid) = replied (has_valid v txid)

unfoldable pub trusted_validation : Validator → Text → Reply Bool
trusted_validation v text = if txid_regex text then judge v (txid_of text) else bad_argument

abbrev pub with_id : Option Hash → Reply (List Hash) → Reply (List Hash)
with_id none rest = failed
with_id (some txid) (replied txids) = replied (txid ∷ txids)
with_id (some txid) bad_argument = bad_argument
with_id (some txid) failed = failed

-- The loop over `request->txids()`.
unfoldable pub lookup_ids : List Text → Reply (List Hash)
lookup_ids [] = replied []
lookup_ids (text ∷ texts) =
    let rest = lookup_ids texts in
    if txid_regex text then with_id (txid_of text) rest else bad_argument

abbrev pub judge_all : Validator → Reply (List Hash) → Reply (List Bool)
judge_all v (replied txids) = replied (map (has_valid v) txids)
judge_all v bad_argument = bad_argument
judge_all v failed = failed

unfoldable pub trusted_validation_bulk : Validator → List Text → Reply (List Bool)
unfolding lookup_ids
trusted_validation_bulk v texts = judge_all v (lookup_ids texts)

-- The replies to single requests in one: the first that has no answer decides.
abbrev pub all_replies : List (Reply Bool) → Reply (List Bool)
all_replies [] = replied []
all_replies (bad_argument ∷ rs) = bad_argument
all_replies (failed ∷ rs) = failed
all_replies (replied b ∷ rs) = elim (all_replies rs) [
  | replied bs ↦ replied (b ∷ bs)
  | bad_argument ↦ bad_argument
  | failed ↦ failed
]

-- The bulk request replies as the single requests do in order, up to the first that has no answer,
-- which is then the reply.
pub trusted_validation_bulk-all_replies :
    (v : Validator) (texts : List Text)
    → trusted_validation_bulk v texts ≡ all_replies (map (trusted_validation v) texts)
unfolding trusted_validation_bulk trusted_validation lookup_ids
trusted_validation_bulk-all_replies v [] = refl
trusted_validation_bulk-all_replies v (text ∷ texts) =
    let rest = trusted_validation_bulk-all_replies v texts in ground (arith, rest)
