-- ===== src/Slp/Sound.antt =====
-- The rules of a message, and `slp_transaction::hydrate` against them.
use cpp_slp_graph_search.Prelude.{
  ◌||◌, not, ◌&&◌, ◌==◌, ltb, Bool-cases, drop, take, subst, Option-cases, ℕ, zero, suc, ◌^◌, ◌≤◌,
  ◌<◌, ◌≡◌, ◌≢◌, ◌⊎◌, inl, inr, refl, List, [], ◌∷◌, ◌++◌, arith, Bool, true, false, none, some,
  All, length, reverse, length-reverse, All-reverse, All-append, All-take, All-drop,
}
use cpp_slp_graph_search.Prelude.Codes.{codes}
use cpp_slp_graph_search.Util.Bytes.{Byte, le-lt}
use cpp_slp_graph_search.Slp.Message.{
  Hash, Genesis, Mint, SlpTx, invalid, genesis, mint, send, SlpTransaction,
}
use cpp_slp_graph_search.Slp.Chunks.{
  is_lokad, Scan, scanned, failed, out_of_fuel, scan, scan_chunks, extract_pushdata, take_chunk,
}
use cpp_slp_graph_search.Slp.Parse.{
  parse_token_type, parse_baton, parse_amount, parse_amounts, parse_genesis, parse_mint, parse_send,
  parse_action, parse_chunks, hydrate, same_bytes, set_genesis, set_mint, set_send, accept_or_fail,
  set_token_type, after_scan,
}

abbrev pub IsAmount : ℕ → Type 0
IsAmount n = n < 2 ^ 64

-- No baton and output number 0, or a baton at an output from 2 to 255.
abbrev pub IsBaton : Bool → ℕ → Type 0
IsBaton has vout = ((has ≡ false) × (vout ≡ 0)) ⊎ ((has ≡ true) × (2 ≤ vout) × (vout ≤ 255))

-- A token of type 0x41, an NFT1 child, is one indivisible piece with no baton.
abbrev pub IsGenesis : ℕ → Genesis → Type 0
IsGenesis t g =
    ((length g.document_hash ≡ 0) ⊎ (length g.document_hash ≡ 32))
    × (g.decimals ≤ 9)
    × IsBaton g.has_mint_baton g.mint_baton_vout
    × IsAmount g.qty
    × (t ≡ 0x41 → (g.decimals ≡ 0) × (g.has_mint_baton ≡ false) × (g.qty ≡ 1))

abbrev pub IsMint : ℕ → Mint → Type 0
IsMint t m = (t ≢ 0x41) × IsBaton m.has_mint_baton m.mint_baton_vout × IsAmount m.qty

abbrev pub IsSend : List ℕ → Type 0
IsSend amounts = (1 ≤ length amounts) × (length amounts ≤ 19) × All IsAmount amounts

abbrev pub IsTokenType : ℕ → Type 0
IsTokenType t = (t ≡ 1) ⊎ (t ≡ 0x41) ⊎ (t ≡ 0x81)

abbrev pub IsMessageOf : Hash → ℕ → SlpTx → Type 0
IsMessageOf tokenid t invalid = ⊥
IsMessageOf tokenid t (genesis g) = IsGenesis t g
IsMessageOf tokenid t (mint m) = (length tokenid ≡ 32) × IsMint t m
IsMessageOf tokenid t (send a) = (length tokenid ≡ 32) × IsSend a

abbrev pub IsMessage : SlpTransaction → Type 0
IsMessage s = IsTokenType s.token_type × IsMessageOf s.tokenid s.token_type s.slp_tx

parse_amount-IsAmount : (s : List ℕ) {n : ℕ} → All Byte s → parse_amount s ≡ some n → IsAmount n
unfolding parse_amount
parse_amount-IsAmount s h e = ground (
  arith,
  length-reverse s,
  λ (l : length (reverse s) ≡ 8). le-lt 8 (reverse s) l (All-reverse Byte s h),
)

parse_amounts-All :
    (chunks : List (List ℕ)) (ns : List ℕ)
    → All (All Byte) chunks
    → parse_amounts chunks ≡ some ns
    → All IsAmount ns
unfolding parse_amounts
parse_amounts-All [] ns h e = let e' : [] ≡ ns = ground arith in subst (All IsAmount) e' tt
parse_amounts-All (s ∷ chunks) ns (hs, h) e = elim (Option-cases (parse_amount s)) [
  | inl bad ↦ absurd (ground arith)
  | inr (n, en) ↦ elim (Option-cases (parse_amounts chunks)) [
    | inl bad ↦ absurd (ground arith)
    | inr (m, em) ↦
        let e' : n ∷ m ≡ ns = ground arith in
        subst (All IsAmount) e' (parse_amount-IsAmount s hs en, parse_amounts-All chunks m h em)
  ]
]

parse_baton-IsBaton :
    (s : List ℕ) {b : Bool × ℕ} → All Byte s → parse_baton s ≡ some b → IsBaton b.0 b.1
unfolding parse_baton
parse_baton-IsBaton [] h e = ground arith
parse_baton-IsBaton (b ∷ []) (hb, h) e = ground arith
parse_baton-IsBaton (b ∷ c ∷ s) h e = ground arith

parse_genesis-IsGenesis :
    (t : ℕ) (chunks : List (List ℕ)) (g : Genesis)
    → All (All Byte) chunks
    → parse_genesis t chunks ≡ some g
    → IsGenesis t g
unfolding parse_genesis
parse_genesis-IsGenesis t (c0 ∷ c1 ∷ c2 ∷ c3 ∷ c4 ∷ c5 ∷ c6 ∷ []) g
      (h0, (h1, (h2, (h3, (h4, (h5, (h6, _))))))) e =
    elim (Option-cases (parse_baton c5)) [
      | inl bad ↦ absurd (ground arith)
      | inr (b, eb) ↦ elim (Option-cases (parse_amount c6)) [
        | inl bad ↦ absurd (ground arith)
        | inr (q, eq) ↦ ground (arith, parse_baton-IsBaton c5 h5 eb, parse_amount-IsAmount c6 h6 eq)
      ]
    ]
parse_genesis-IsGenesis t _ g h e = cc

parse_mint-IsMint :
    (t : ℕ) (chunks : List (List ℕ)) (r : Hash × Mint)
    → All (All Byte) chunks
    → parse_mint t chunks ≡ some r
    → (length r.0 ≡ 32) × IsMint t r.1
unfolding parse_mint
parse_mint-IsMint t (c0 ∷ c1 ∷ c2 ∷ []) r (h0, (h1, (h2, _))) e =
    elim (Option-cases (parse_baton c1)) [
      | inl bad ↦ absurd (ground arith)
      | inr (b, eb) ↦ elim (Option-cases (parse_amount c2)) [
        | inl bad ↦ absurd (ground arith)
        | inr (q, eq) ↦
            ground (
              arith,
              length-reverse c0,
              parse_baton-IsBaton c1 h1 eb,
              parse_amount-IsAmount c2 h2 eq,
            )
      ]
    ]
parse_mint-IsMint t _ r h e = cc

parse_send-IsSend :
    (chunks : List (List ℕ)) (r : Hash × List ℕ)
    → All (All Byte) chunks
    → parse_send chunks ≡ some r
    → (length r.0 ≡ 32) × IsSend r.1
unfolding parse_send
parse_send-IsSend [] r h e = cc
parse_send-IsSend (c ∷ chunks) (t, ns) (hc, h) e = elim (Option-cases (parse_amounts chunks)) [
  | inl bad ↦ absurd (ground arith)
  | inr (m, em) ↦
      let e' : m ≡ ns = ground arith in
      let bounds : (length t ≡ 32) × (1 ≤ length m) × (length m ≤ 19) =
        ground (arith, length-reverse c) in
      subst (λ ms. (length t ≡ 32) × IsSend ms) e'
        (bounds.0, (bounds.1, bounds.2, parse_amounts-All chunks m h em))
]

parse_token_type-IsTokenType : (s : List ℕ) (t : ℕ) → parse_token_type s ≡ some t → IsTokenType t
unfolding parse_token_type
parse_token_type-IsTokenType s t h = ground arith

-- Whatever ends the loop, the chunks read from bytes are lists of bytes.
abbrev ScanBytes : Scan → Type 0
ScanBytes (scanned chunks rest) = All (All Byte) chunks
ScanBytes failed = Unit
ScanBytes out_of_fuel = Unit

extract_pushdata-Byte : (s : List ℕ) → All Byte s → All Byte (extract_pushdata s).1
unfolding extract_pushdata
extract_pushdata-Byte [] h = tt
extract_pushdata-Byte (c ∷ s) (hc, h) =
    ground (arith, All-drop Byte 1 s h, All-drop Byte 2 s h, All-drop Byte 4 s h)

take_chunk-Byte :
    (continue : List (List ℕ) → List ℕ → Scan) (chunks : List (List ℕ)) (len : ℕ) (s : List ℕ)
    → ((cs : List (List ℕ)) (r : List ℕ)
        → All (All Byte) cs
        → All Byte r
        → ScanBytes (continue cs r))
    → All (All Byte) chunks
    → All Byte s
    → ScanBytes (take_chunk continue chunks len s)
unfolding take_chunk
take_chunk-Byte continue chunks len s keep h hs =
    let next =
      keep (chunks ++ take len s ∷ []) (drop len s)
        (All-append (All Byte) chunks (take len s ∷ []) h (All-take Byte len s hs, tt))
        (All-drop Byte len s hs) in
    elim (Bool-cases (ltb (length s) len)) [
      | inl short ↦ rw (short, take_chunk, ScanBytes) tt
      | inr long ↦ rw long (elim (Bool-cases (length chunks == 0 && not (is_lokad (take len s)))) [
        | inl bad ↦ rw bad tt
        | inr fine ↦ rw fine next
      ])
    ]

scan-Byte :
    (fuel : ℕ) (chunks : List (List ℕ)) (s : List ℕ)
    → All (All Byte) chunks
    → All Byte s
    → ScanBytes (scan fuel chunks s)
unfolding scan
scan-Byte zero chunks s h hs = tt
scan-Byte (suc fuel) chunks s h hs = elim (Option-cases (extract_pushdata s).0) [
  | inl stop ↦ rw (stop, scan, ScanBytes) h
  | inr (len, e) ↦
      rw (e, scan, ScanBytes)
        (take_chunk-Byte (scan fuel) chunks len (extract_pushdata s).1 (scan-Byte fuel) h
          (extract_pushdata-Byte s hs))
]

parse_action-IsMessage :
    (slp : SlpTransaction) (action : List ℕ) (chunks : List (List ℕ)) (r : SlpTransaction)
    → IsTokenType slp.token_type
    → All (All Byte) chunks
    → parse_action slp action chunks ≡ some r
    → IsMessage r
unfolding parse_action
parse_action-IsMessage slp action chunks r t h e =
    elim (Bool-cases (same_bytes action (codes "GENESIS"))) [
      | inl is_genesis ↦ elim (Option-cases (parse_genesis slp.token_type chunks)) [
        | inl bad ↦ absurd (ground arith)
        | inr (g, eg) ↦
            let e' : set_genesis slp g ≡ r = ground arith in
            subst IsMessage e' (t, parse_genesis-IsGenesis slp.token_type chunks g h eg)
      ]
      | inr not_genesis ↦ elim (Bool-cases (same_bytes action (codes "MINT"))) [
        | inl is_mint ↦ elim (Option-cases (parse_mint slp.token_type chunks)) [
          | inl bad ↦ absurd (ground arith)
          | inr (m, em) ↦
              let e' : set_mint slp m ≡ r = ground arith in
              subst IsMessage e' (t, parse_mint-IsMint slp.token_type chunks m h em)
        ]
        | inr not_mint ↦ elim (Bool-cases (same_bytes action (codes "SEND"))) [
          | inl is_send ↦ elim (Option-cases (parse_send chunks)) [
            | inl bad ↦ absurd (ground arith)
            | inr (a, ea) ↦
                let e' : set_send slp a ≡ r = ground arith in
                subst IsMessage e' (t, parse_send-IsSend chunks a h ea)
          ]
          | inr not_send ↦ absurd (ground arith)
        ]
      ]
    ]

-- Either the parse succeeds with a sound message, or it fails and the object is marked invalid.
abbrev pub IsAnswer : SlpTransaction × Bool → Type 0
IsAnswer a = ((a.1 ≡ true) × IsMessage a.0) ⊎ ((a.1 ≡ false) × (a.0.slp_tx ≡ invalid))

fail-IsAnswer : (slp : SlpTransaction) → IsAnswer (accept_or_fail slp none)
unfolding accept_or_fail
fail-IsAnswer slp = inr (refl, refl)

parse_chunks-IsAnswer :
    (slp : SlpTransaction) (chunks : List (List ℕ))
    → All (All Byte) chunks
    → IsAnswer (parse_chunks slp chunks)
unfolding parse_chunks
parse_chunks-IsAnswer slp [] h = fail-IsAnswer slp
parse_chunks-IsAnswer slp (a ∷ []) h = fail-IsAnswer slp
parse_chunks-IsAnswer slp (a ∷ b ∷ []) h = fail-IsAnswer slp
parse_chunks-IsAnswer slp (a ∷ b ∷ c ∷ chunks) (ha, (hb, (hc, h))) =
    elim (Option-cases (parse_token_type b)) [
      | inl bad ↦ rw (bad, set_token_type) (fail-IsAnswer slp)
      | inr (t, et) ↦
          let slp' = record slp { token_type = t } in
          elim (Option-cases (parse_action slp' c chunks)) [
            | inl bad ↦ rw (et, set_token_type) (rw (bad, accept_or_fail) (inr (refl, refl)))
            | inr (r, er) ↦
                rw (et, set_token_type)
                  (rw (er, accept_or_fail)
                    (inl (
                      refl,
                      parse_action-IsMessage slp' c chunks r (parse_token_type-IsTokenType b t et) h
                          er,
                    )))
          ]
    ]

after_scan-IsAnswer : (slp : SlpTransaction) (r : Scan) → ScanBytes r → IsAnswer (after_scan slp r)
unfolding after_scan
after_scan-IsAnswer slp (scanned chunks []) h = parse_chunks-IsAnswer slp chunks h
after_scan-IsAnswer slp (scanned chunks (b ∷ rest)) h = fail-IsAnswer slp
after_scan-IsAnswer slp failed h = fail-IsAnswer slp
after_scan-IsAnswer slp out_of_fuel h = fail-IsAnswer slp

-- On every script of bytes, `hydrate` returns true exactly with a message that obeys the rules of its kind,
-- and returns false exactly with the object marked invalid.
pub hydrate_lem : (slp : SlpTransaction) (v : List ℕ) → All Byte v → IsAnswer (hydrate slp v)
unfolding hydrate
hydrate_lem slp [] h = fail-IsAnswer slp
hydrate_lem slp (b ∷ v) (hb, h) =
    let answer =
      after_scan-IsAnswer slp (scan_chunks v)
        (unfold scan_chunks in scan-Byte (suc (length v)) [] v tt h) in
    elim (Bool-cases (not (b == 0x6A) || ltb (length (b ∷ v)) 10)) [
      | inl bad ↦ rw bad (fail-IsAnswer slp)
      | inr fine ↦ rw fine answer
    ]
