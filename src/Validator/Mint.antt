-- ===== src/Validator/Mint.antt =====
-- The walk of `slp_validator::check_mint` (src/slp_validator.cpp).
use cpp_slp_graph_search.Prelude.{
  ◌≡◌, ◌≢◌, ap, ◌∙◌, List, [], ◌∷◌, ◌++◌, arith, Bool, true, false, length, All, All-append, inl,
  inr, Option-cases, Bool-cases, if◌then◌else◌,
}
use cpp_slp_graph_search.Slp.Message.{is_genesis}
use cpp_slp_graph_search.Tx.Types.{Outpoint, Transaction}
use cpp_slp_graph_search.Validator.State.{Validator, has_valid}
use cpp_slp_graph_search.Validator.Check.{
  same_token, valid_parent, Verdict, out_of_fuel, baton_parent, baton_parents, walk_mints_home,
  Round, found, gathered, round, after_round, mint_loop, check_mint,
}
use cpp_slp_graph_search.Validator.Send.{IsWellFormed, valid_parent-IsKept}

abbrev IsJudged : Validator → Transaction → Type 0
IsJudged v t = has_valid v t.txid ≡ true

if-All :
    (v : Validator) (b : Bool) (t : Transaction)
    → IsJudged v t
    → All (IsJudged v) (if b then t ∷ [] else [])
if-All v true t h = (h, tt)
if-All v false t h = tt

baton_parent-IsJudged :
    (v : Validator) (front : Transaction) (o : Outpoint)
    → IsWellFormed v
    → All (IsJudged v) (baton_parent v front o)
unfolding baton_parent
baton_parent-IsJudged v front o h = elim (Option-cases (valid_parent v front o)) [
  | inl e ↦ rw (e, baton_parent) tt
  | inr (txi, e) ↦
      let (kept, ok, there) = valid_parent-IsKept v front txi o h e in
      rw (e, baton_parent) (if-All v _ txi (ap (has_valid v) kept.0 ∙ ok))
]

baton_parents-IsJudged :
    (v : Validator) (front : Transaction) (os : List Outpoint)
    → IsWellFormed v
    → All (IsJudged v) (baton_parents v front os)
unfolding baton_parents
baton_parents-IsJudged v front [] h = tt
baton_parents-IsJudged v front (o ∷ os) h =
    All-append (IsJudged v) (baton_parent v front o) (baton_parents v front os)
      (baton_parent-IsJudged v front o h) (baton_parents-IsJudged v front os h)

walk-IsJudged :
    (v : Validator) (front back : Transaction)
    → IsWellFormed v
    → All (IsJudged v) (walk_mints_home v front back)
unfolding walk_mints_home
walk-IsJudged v front back h = if-both (same_token front back)
  where
    if-both : (b : Bool) → All (IsJudged v) (if b then baton_parents v front back.inputs else [])
    if-both true = baton_parents-IsJudged v front back.inputs h
    if-both false = tt

abbrev GathersJudged : Validator → Round → Type 0
GathersJudged v found = Unit
GathersJudged v (gathered ts) = All (IsJudged v) ts

round-GathersJudged :
    (v : Validator) (back : Transaction) (txs inputs : List Transaction)
    → IsWellFormed v
    → All (IsJudged v) inputs
    → GathersJudged v (round v back txs inputs)
unfolding round
round-GathersJudged v back [] inputs h k = k
round-GathersJudged v back (front ∷ txs) inputs h k =
    elim (Bool-cases (is_genesis front.slp.slp_tx)) [
      | inl e ↦ rw e tt
      | inr e ↦ rw e (
          round-GathersJudged v back txs (inputs ++ walk_mints_home v back front) h (
            All-append (IsJudged v) inputs (walk_mints_home v back front) k
              (walk-IsJudged v back front h)))
    ]

after_round-ne-out_of_fuel :
    (v : Validator) (continue : Transaction → List Transaction → Verdict Bool) (r : Round)
    → GathersJudged v r
    → after_round v continue r ≢ out_of_fuel
unfolding after_round
after_round-ne-out_of_fuel v continue found h e = cc
after_round-ne-out_of_fuel v continue (gathered []) h e = cc
after_round-ne-out_of_fuel v continue (gathered (t ∷ ts)) (ht, h) e = ground arith

-- Over a map that holds transactions under their own ids, with quantities of 64 bits, the walk from
-- any MINT ends in its first round.
pub check_mint-ne-out_of_fuel :
    (v : Validator) (tx : Transaction) → IsWellFormed v → check_mint v tx ≢ out_of_fuel
unfolding check_mint mint_loop
check_mint-ne-out_of_fuel v tx h =
    after_round-ne-out_of_fuel v (mint_loop v (length v.transaction_map))
      (round v tx (walk_mints_home v tx tx) [])
      (round-GathersJudged v tx (walk_mints_home v tx tx) [] h tt)
