-- ===== src/Slp/Parse.antt =====
-- The second part of `slp_transaction::hydrate`: the fields of the message. Every failed
-- PARSE_CHECK has one effect, an invalid message and `false`, so a failure is `none` here.
use cpp_slp_graph_search.Prelude.{
  ℕ, List, [], ◌∷◌, Option, none, some, Bool, true, false, not, ◌&&◌, ◌||◌, ltb, leb, ◌==◌,
  if◌then◌else◌, length, reverse,
}
use cpp_slp_graph_search.Prelude.Codes.{codes}
use cpp_slp_graph_search.Util.Bytes.{le}
use cpp_slp_graph_search.Slp.Message.{
  Hash, Genesis, Mint, invalid, genesis, mint, send, SlpTransaction, zero_hash,
}
use cpp_slp_graph_search.Slp.Chunks.{Scan, scanned, failed, out_of_fuel, scan_chunks}

infixl 5 ◌>>=◌ ◌>>◌
abbrev pub ◌>>=◌ {ℓ κ} : {A : Type ℓ} {B : Type κ} → Option A → (A → Option B) → Option B
none >>= f = none
some a >>= f = f a

abbrev pub ◌>>◌ {ℓ} : {B : Type ℓ} → Option (Unit {0}) → Option B → Option B
m >> k = m >>= λ _. k

-- PARSE_CHECK(! cond, …)
abbrev pub check : Bool → Option (Unit {0})
check true = some tt
check false = none

-- `string_to_number`: one, two, four or eight bytes, lowest first.
unfoldable pub string_to_number : List ℕ → Option ℕ
unfolding le
string_to_number s =
    if length s == 1 || length s == 2 || length s == 4 || length s == 8 then some (le s) else none

unfoldable pub parse_token_type : List ℕ → Option ℕ
unfolding string_to_number
parse_token_type s = do
  check (length s == 1 || length s == 2)
  t ← string_to_number (reverse s)
  check (t == 1 || t == 0x41 || t == 0x81)
  some t

-- `has_mint_baton` and `mint_baton_vout`, which GENESIS and MINT read alike.
unfoldable pub parse_baton : List ℕ → Option (Bool × ℕ)
unfolding string_to_number
parse_baton [] = some (false, 0)
parse_baton (b ∷ s) = do
  check (length (b ∷ s) == 1)
  vout ← string_to_number (b ∷ s)
  check (leb 2 vout)
  some (true, vout)

-- A quantity or an amount: eight bytes, highest first.
unfoldable pub parse_amount : List ℕ → Option ℕ
unfolding string_to_number
parse_amount s = do check (length s == 8); string_to_number (reverse s)

unfoldable pub parse_tokenid : List ℕ → Option Hash
parse_tokenid s = do check (length s == 32); some (reverse s)

parse_decimals : List ℕ → Option ℕ
unfolding string_to_number
parse_decimals s = do check (length s == 1); d ← string_to_number s; check (leb d 9); some d

-- The chunks behind GENESIS; ten in all.
unfoldable pub parse_genesis : ℕ → List (List ℕ) → Option Genesis
unfolding parse_decimals parse_baton parse_amount
parse_genesis token_type
      (ticker ∷ name ∷ document_uri ∷ document_hash ∷ decimals_str ∷ vout_str ∷ qty_str ∷ []) =
    do
      check (length document_hash == 0 || length document_hash == 32)
      decimals ← parse_decimals decimals_str
      baton ← parse_baton vout_str
      qty ← parse_amount qty_str
      check (not (token_type == 0x41) || (decimals == 0 && baton.1 == 0 && qty == 1))
      some (record {
        ticker = ticker;
        name = name;
        document_uri = document_uri;
        document_hash = document_hash;
        decimals = decimals;
        has_mint_baton = baton.0;
        mint_baton_vout = baton.1;
        qty = qty;
      })
parse_genesis token_type chunks = none

-- The chunks behind MINT; six in all.
unfoldable pub parse_mint : ℕ → List (List ℕ) → Option (Hash × Mint)
unfolding parse_tokenid parse_baton parse_amount
parse_mint token_type (tokenid_str ∷ vout_str ∷ qty_str ∷ []) = do
  check (not (token_type == 0x41))
  tokenid ← parse_tokenid tokenid_str
  baton ← parse_baton vout_str
  check (leb baton.1 0xFF)
  qty ← parse_amount qty_str
  some (tokenid, record { has_mint_baton = baton.0; mint_baton_vout = baton.1; qty = qty })
parse_mint token_type chunks = none

unfoldable pub parse_amounts : List (List ℕ) → Option (List ℕ)
unfolding parse_amount
parse_amounts [] = some []
parse_amounts (s ∷ chunks) = do n ← parse_amount s; ns ← parse_amounts chunks; some (n ∷ ns)

-- The chunks behind SEND; four in all at least.
unfoldable pub parse_send : List (List ℕ) → Option (Hash × List ℕ)
unfolding parse_tokenid parse_amounts
parse_send [] = none
parse_send (tokenid_str ∷ chunks) = do
  tokenid ← parse_tokenid tokenid_str
  amounts ← parse_amounts chunks
  check (leb 1 (length amounts) && leb (length amounts) 19)
  some (tokenid, amounts)

unfoldable pub same_bytes : List ℕ → List ℕ → Bool
same_bytes [] [] = true
same_bytes [] (b ∷ t) = false
same_bytes (a ∷ s) [] = false
same_bytes (a ∷ s) (b ∷ t) = a == b && same_bytes s t

unfoldable pub set_genesis : SlpTransaction → Genesis → SlpTransaction
set_genesis slp g = record slp { slp_tx = genesis g }

unfoldable pub set_mint : SlpTransaction → Hash × Mint → SlpTransaction
set_mint slp (t, m) = record slp { tokenid = t; slp_tx = mint m }

unfoldable pub set_send : SlpTransaction → Hash × List ℕ → SlpTransaction
set_send slp (t, a) = record slp { tokenid = t; slp_tx = send a }

-- The message by its action; `slp` has its token type already. A GENESIS leaves `tokenid` alone.
unfoldable pub parse_action : SlpTransaction → List ℕ → List (List ℕ) → Option SlpTransaction
unfolding parse_genesis parse_mint parse_send same_bytes set_genesis set_mint set_send
parse_action slp action chunks =
    if same_bytes action (codes "GENESIS")
    then (do g ← parse_genesis slp.token_type chunks; some (set_genesis slp g))
    else if same_bytes action (codes "MINT")
    then (do m ← parse_mint slp.token_type chunks; some (set_mint slp m))
    else if same_bytes action (codes "SEND")
    then (do a ← parse_send chunks; some (set_send slp a))
    else none

-- On a failure the object keeps its fields, the token type included, and is marked invalid.
unfoldable pub accept_or_fail : SlpTransaction → Option SlpTransaction → SlpTransaction × Bool
accept_or_fail slp none = (record slp { slp_tx = invalid }, false)
accept_or_fail slp (some slp') = (slp', true)

unfoldable pub set_token_type :
    SlpTransaction → Option ℕ → List ℕ → List (List ℕ) → SlpTransaction × Bool
unfolding accept_or_fail parse_action
set_token_type slp none action chunks = accept_or_fail slp none
set_token_type slp (some t) action chunks =
    let slp' = record slp { token_type = t } in
    accept_or_fail slp' (parse_action slp' action chunks)

-- The chunks are the lokad id, the token type, the action and its fields.
unfoldable pub parse_chunks : SlpTransaction → List (List ℕ) → SlpTransaction × Bool
unfolding set_token_type parse_token_type
parse_chunks slp (lokad ∷ token_type_str ∷ action ∷ chunks) =
    set_token_type slp (parse_token_type token_type_str) action chunks
parse_chunks slp chunks = accept_or_fail slp none

unfoldable pub after_scan : SlpTransaction → Scan → SlpTransaction × Bool
unfolding parse_chunks
after_scan slp (scanned chunks []) = parse_chunks slp chunks
after_scan slp (scanned chunks (b ∷ rest)) = accept_or_fail slp none
after_scan slp failed = accept_or_fail slp none
after_scan slp out_of_fuel = accept_or_fail slp none

-- `hydrate` of the object `slp`: the object afterwards, and the result.
unfoldable pub hydrate : SlpTransaction → List ℕ → SlpTransaction × Bool
unfolding after_scan scan_chunks
hydrate slp [] = accept_or_fail slp none
hydrate slp (b ∷ v) =
    let rest = after_scan slp (scan_chunks v) in
    if not (b == 0x6A) || ltb (length (b ∷ v)) 10 then accept_or_fail slp none else rest

-- `slp_transaction(scriptpubkey)`. The constructor leaves `token_type` unset; the model has 0.
unfoldable pub from_scriptpubkey : List ℕ → SlpTransaction
unfolding hydrate
from_scriptpubkey v =
    (hydrate (record { tokenid = zero_hash; token_type = 0; slp_tx = invalid }) v).0
