-- ===== src/Server/Tokens/Replies.antt =====
-- The replies of `SlpTokenBalance` and `SlpAllTokenBalances` of server/gs++.cpp.
use cpp_slp_graph_search.Prelude.{
  reverse, ℕ, ◌≡◌, ◌⊎◌, refl, ap, sym, ◌∙◌, List, [], ◌∷◌, arith, Option, none, some, inl, inr,
  Option-cases, List-cases, ◌==◌, true, false, Bool-cases,
}
use mathlib.Core.List.{Memᴰ, reverse-reverse}
use cpp_slp_graph_search.Util.Bytes.{Byte}
use cpp_slp_graph_search.Server.Tokens.{decompress, value_of}
use cpp_slp_graph_search.Server.Tokens.Sums.{
  IsFound, IsNamed, all_sums-IsFound, token_genesis-IsNamed, hex-reverse_injective,
}
use cpp_slp_graph_search.Util.Hex.{hex, unhex-hex}
use cpp_slp_graph_search.Prelude.{◌↔◌, ◌≢◌, All, All-reverse, ==_iff}
use mathlib.Core.Option
use cpp_slp_graph_search.UtxoDb.Store.{UtxoDb, get_outputs_by_scriptpubkey}
use cpp_slp_graph_search.Util.Hex.{Text, unhex}
use cpp_slp_graph_search.Server.Search.{txid_regex}
use cpp_slp_graph_search.Server.Tokens.Balances.{all_sums-token_sum}
use mathlib.Core.List.Memᴰ
use cpp_slp_graph_search.Prelude.Keys.{bytes_key}
use cpp_slp_graph_search.Prelude.Map.{Map, find}
use cpp_slp_graph_search.Slp.Message.{Hash}
use cpp_slp_graph_search.Validator.State.{Validator}
use cpp_slp_graph_search.Server.Tokens.{
  txid_regex, UtxoDb, slp_all_token_balances, slp_token_balance, Text, Genesis, Transaction,
  TokenBalance, answered, answer_or_raise, token_genesis, outputs_limit, all_sums, token_sum,
  list_reply, balance_of, balance_list, balance_reply, bare_balance, value_at,
}
use cpp_slp_graph_search.Server.Tokens.Listed.{find-Memᴰ, balance_list-Memᴰ, balance_list-entry}

-- The entries that are listed are those of the map.
abbrev pub IsListing : (Map Hash ℕ → Map Hash ℕ) → Type 0
IsListing order =
    (balances : Map Hash ℕ) (entry : Hash × ℕ) → Memᴰ entry balances ↔ Memᴰ entry (order balances)

value_at-found :
    (t : Hash) (m : Map Hash ℕ) → (value_at t m == 0) ≡ false → find t m ≡ some (value_at t m)
unfolding value_at
value_at-found t m e = elim (Option-cases (find t m)) [
  | inl none_such ↦ absurd (ground (arith, none_such, e))
  | inr (k, found) ↦ ground (arith, found)
]

-- The id of a token, as texts show it.
abbrev shown_id : Hash → Text
shown_id t = hex (reverse t)

-- A reply for a token carries its id.
balance_of-shown_id :
    (v : Validator) (t : Hash) (k : ℕ) (g : Transaction × Genesis)
    → All IsNamed v.transaction_map
    → token_genesis v t ≡ some g
    → (balance_of k g).tokenid ≡ shown_id t
unfolding balance_of decompress
balance_of-shown_id v t k g named known = ap shown_id (token_genesis-IsNamed v t g named known).0

-- The replies of the list for a token have the value that the map has.
listed-value :
    (v : Validator) (t : Hash) (m : Map Hash ℕ) (entries : Map Hash ℕ) (list : List TokenBalance)
    (b : TokenBalance)
    → All IsNamed v.transaction_map
    → All Byte t
    → IsFound m
    → ((entry : Hash × ℕ) → Memᴰ entry entries → Memᴰ entry m)
    → balance_list v entries ≡ some list
    → Memᴰ b list
    → b.tokenid ≡ shown_id t
    → b.value ≡ value_at t m
unfolding balance_of value_at
listed-value v t m entries list b named bytes found back e h id =
    let (s, k, g, there, known, same) = balance_list-entry v entries list b e h in
    let of_bytes = (token_genesis-IsNamed v s g named known).1 in
    let shown =
      sym (balance_of-shown_id v s k g named known) ∙ ap (λ x. x.tokenid) (sym same) ∙ id in
    let this = hex-reverse_injective s t of_bytes bytes shown in
    ap (λ x. x.value) same
    ∙ ap value_of (sym (found s k (back (s, k) there)))
    ∙ ap (λ x. value_of (find x m)) this

reply-listed :
    (order : Map Hash ℕ → Map Hash ℕ) (v : Validator) (t : Hash) (balances : Map Hash ℕ)
    (list : List TokenBalance)
    → IsListing order
    → All IsNamed v.transaction_map
    → All Byte t
    → IsFound balances
    → balance_list v (order balances) ≡ some list
    → ((balance_reply v t (shown_id t) (some (value_at t balances))
          ≡ some (bare_balance (shown_id t)))
        × ((b : TokenBalance) → Memᴰ b list → b.tokenid ≡ shown_id t → b.value ≡ 0))
      ⊎ ((b : TokenBalance) × (balance_reply v t (shown_id t) (some (value_at t balances)) ≡ some b)
          × Memᴰ b list
          × (b.tokenid ≡ shown_id t)
          × (b.value ≢ 0))
unfolding balance_reply
reply-listed order v t balances list listing named bytes found e =
    elim (Bool-cases (value_at t balances == 0)) [
      | inl zero_value ↦ inl (
        ground (arith, zero_value),
        λ b h id.
            let entry_value =
              listed-value v t balances (order balances) list b named bytes found
                (λ entry. (listing balances entry).1) e h id in
            entry_value ∙ (==_iff _ 0).0 zero_value,
      )
      | inr some_value ↦
          let k = value_at t balances in
          let entry = find-Memᴰ t k balances (value_at-found t balances some_value) in
          let (g, known, listed) =
            balance_list-Memᴰ v t k (order balances) list e ((listing balances (t, k)).0 entry) in
          inr (
            balance_of k g,
            ground (arith, some_value, known),
            listed,
            balance_of-shown_id v t k g named known,
            λ zero_value. absurd (ground (arith, some_value, zero_value)),
          )
    ]

answer_or_raise-answered :
    {A : Type 0} (o : Option A) (a : A) → answer_or_raise o ≡ answered a → o ≡ some a
answer_or_raise-answered none a e = absurd (ground (arith, e))
answer_or_raise-answered (some b) a e = ground (arith, e)

-- What `SlpAllTokenBalances` finds where it answers, and what `SlpTokenBalance` replies by it.
answered-all_sums :
    (from_cashaddr : Text → List ℕ) (order : Map Hash ℕ → Map Hash ℕ) (v : Validator) (u : UtxoDb)
    (cashaddr text : Text) (list : List TokenBalance)
    → txid_regex text ≡ true
    → slp_all_token_balances from_cashaddr order v u cashaddr ≡ answered list
    → (balances : Map Hash ℕ) × (balance_list v (order balances) ≡ some list)
      × IsFound balances
      × (slp_token_balance from_cashaddr v u cashaddr text
          ≡ answer_or_raise (
              balance_reply v
                (reverse (unhex text))
                text
                (some (value_at (reverse (unhex text)) balances))))
unfolding slp_token_balance slp_all_token_balances list_reply find
answered-all_sums from_cashaddr order v u cashaddr text list form e =
    elim (List-cases (from_cashaddr cashaddr)) [
      | inl empty ↦ absurd (ground (arith, empty, e))
      | inr (b, bs, script) ↦
          let utxos = get_outputs_by_scriptpubkey u (b ∷ bs) outputs_limit in
          elim (Option-cases (all_sums v [] utxos)) [
            | inl none_such ↦ absurd (ground (arith, script, none_such, e))
            | inr (balances, sums) ↦
                let t = reverse (unhex text) in
                let summed : token_sum v t 0 utxos ≡ some (value_at t balances) =
                  sym (all_sums-token_sum v t utxos []) ∙ ap (Option.map (value_at t)) sums in
                (
                  balances,
                  answer_or_raise-answered _ list (ground (arith, script, sums, e)),
                  all_sums-IsFound v utxos [] balances sums (λ t k h. absurd (Memᴰ.not-nil h)),
                  rw (slp_token_balance, script, form, summed) refl,
                )
          ]
    ]

-- Let the validator's map hold transactions under their own ids, which are of bytes, let the order be
-- one that lists just the entries of a map, let the digits of a token id have the form of an id, and let
-- `SlpAllTokenBalances` answer an address with a list. Then `SlpTokenBalance` answers for that address
-- and those digits: with a reply of the list that has them for its token id and a value other than 0; or
-- else with the value 0, those digits and no other field set, and then each reply of the list with those
-- digits has the value 0.
pub slp_token_balance-slp_all_token_balances :
    (from_cashaddr : Text → List ℕ) (order : Map Hash ℕ → Map Hash ℕ) (v : Validator) (u : UtxoDb)
    (cashaddr : Text) (t : Hash) (list : List TokenBalance)
    → All IsNamed v.transaction_map
    → IsListing order
    → All Byte t
    → txid_regex (hex (reverse t)) ≡ true
    → slp_all_token_balances from_cashaddr order v u cashaddr ≡ answered list
    → ((slp_token_balance from_cashaddr v u cashaddr (hex (reverse t))
          ≡ answered (bare_balance (hex (reverse t))))
        × ((b : TokenBalance) → Memᴰ b list → b.tokenid ≡ hex (reverse t) → b.value ≡ 0))
      ⊎ ((b : TokenBalance) × (slp_token_balance from_cashaddr v u cashaddr (hex (reverse t))
            ≡ answered b)
          × Memᴰ b list
          × (b.tokenid ≡ hex (reverse t))
          × (b.value ≢ 0))
slp_token_balance-slp_all_token_balances from_cashaddr order v u cashaddr t list named listing bytes
      form e =
    let (balances, listed, found, same) =
      answered-all_sums from_cashaddr order v u cashaddr (shown_id t) list form e in
    let read : reverse (unhex (shown_id t)) ≡ t =
      ap reverse (unhex-hex (reverse t) (All-reverse Byte t bytes)) ∙ reverse-reverse t in
    let same' =
      same
      ∙ ap (λ i. answer_or_raise (balance_reply v i (shown_id t) (some (value_at i balances))))
          read in
    elim (reply-listed order v t balances list listing named bytes found listed) [
      | inl (bare, others) ↦ inl (same' ∙ ap answer_or_raise bare, others)
      | inr (b, reply, member, id, value) ↦
          inr (b, same' ∙ ap answer_or_raise reply, member, id, value)
    ]
