-- ===== src/Script/Examples.antt =====
-- The addresses of a hash of twenty bytes.
use cpp_slp_graph_search.Prelude.{ℕ, ◌≡◌, refl, arith, List, [], ◌∷◌, some, take}
use cpp_slp_graph_search.Util.Hex.{Text}
use cpp_slp_graph_search.Script.{hash_size_bits, to_cashaddr, from_cashaddr}
use cpp_slp_graph_search.Script.RoundTrip.{
  p2pkh_script, p2sh_script, IsCodec, from_cashaddr-to_cashaddr, from_cashaddr-to_cashaddr_p2sh,
}

abbrev twenty : List ℕ
twenty =
    1 ∷ 2 ∷ 3 ∷ 4 ∷ 5 ∷ 6 ∷ 7 ∷ 8 ∷ 9 ∷ 10 ∷ 11 ∷ 12 ∷ 13 ∷ 14 ∷ 15 ∷ 16 ∷ 17 ∷ 18 ∷ 19 ∷ 255 ∷ []

-- A code whose text is the payload, for one prefix.
abbrev encode : Text → List ℕ → Text
encode prefix payload = payload

abbrev decode : Text → Text × List ℕ
decode text = (b'x' ∷ [], text)

code-IsCodec : IsCodec encode decode (b'x' ∷ [])
code-IsCodec payload h = refl

twenty-size : hash_size_bits twenty ≡ some 0
unfolding hash_size_bits
twenty-size = refl

from_cashaddr-to_cashaddr_example :
    (text : Text) × (to_cashaddr encode (b'x' ∷ []) (p2pkh_script twenty) ≡ some text)
    × (from_cashaddr decode text ≡ some (p2pkh_script twenty))
from_cashaddr-to_cashaddr_example =
    from_cashaddr-to_cashaddr encode decode b'x' [] twenty 0 code-IsCodec (omega arith) twenty-size

from_cashaddr-to_cashaddr_p2sh_example :
    (text : Text) × (to_cashaddr encode (b'x' ∷ []) (p2sh_script twenty) ≡ some text)
    × (from_cashaddr decode text ≡ some (p2sh_script (20 ∷ take 19 twenty)))
from_cashaddr-to_cashaddr_p2sh_example =
    from_cashaddr-to_cashaddr_p2sh encode decode b'x' [] twenty code-IsCodec (omega arith) refl
