-- ===== src/Tx/Typed.antt =====
-- The fields that `transaction::hydrate` (include/gs++/transaction.hpp) reads, on any input.
pub mod Readers
pub mod Fields
use cpp_slp_graph_search.Prelude.{
  ℕ, zero, suc, ◌+◌, ◌^◌, ◌≤◌, ◌<◌, ◌≡◌, ◌⊎◌, inl, inr, refl, List, [], ◌∷◌, arith, Bool, true,
  false, All, All-take, length, length-map, map, ltb, take, ◌-◌, Bool-cases,
}
use cpp_slp_graph_search.Util.Bytes.{Byte}
use cpp_slp_graph_search.Util.Reader.{Outcome, done, refused, fault, extract_u32, extract_u64}
use cpp_slp_graph_search.Slp.Message.{
  is_genesis, zero_hash, Hash, SlpTransaction, SlpTx, invalid, genesis, mint, send,
}
use cpp_slp_graph_search.Slp.Parse.{from_scriptpubkey}
use cpp_slp_graph_search.Slp.Sound.{IsMessage, IsAnswer, hydrate_lem}
use cpp_slp_graph_search.Tx.Types.{Outpoint, Output, Transaction, is_op_return}
use cpp_slp_graph_search.Tx.Hydrate.{
  Body, read_input, read_output, read_body, read_count, read_list, max_tx_size, hydrate, hydrated,
  finish, slp_of, name_genesis, no_slp, set_prev_tx_id,
}
use cpp_slp_graph_search.Tx.Outputs.Carried.{IsNumbered}
use cpp_slp_graph_search.Tx.Typed.Fields.{IsBody, read_body-Gives}
use cpp_slp_graph_search.Tx.Typed.Readers.{
  Gives, AllFrom, IsOutpoint, IsReadOutput, read_input-Gives, read_output-Gives, read_count-Gives,
  read_list-Gives, u32-Gives, bind_outcome-Gives, checked-Gives, IsHash,
}

All-AllFrom {ℓ} :
    {A : Type ℓ} (P : A → Type 0) (i : ℕ) (l : List A) → AllFrom (λ j. P) i l → All P l
All-AllFrom P i [] h = tt
All-AllFrom P i (a ∷ l) (h, hs) = (h, All-AllFrom P (i + 1) l hs)

-- The ranges of an output's own fields.
pub record IsOutput (o : Output) : Type 0 where
  pub value : o.value ≤ 2 ^ 63
  pub script : All Byte o.scriptpubkey
  pub script_size : length o.scriptpubkey < max_tx_size

set_prev_tx_id-IsNumbered :
    (txid : Hash) (i : ℕ) (os : List Output)
    → AllFrom IsReadOutput i os
    → IsNumbered txid i (map (set_prev_tx_id txid) os) × All IsOutput (map (set_prev_tx_id txid) os)
unfolding set_prev_tx_id
set_prev_tx_id-IsNumbered txid i [] h = (tt, tt)
set_prev_tx_id-IsNumbered txid i (o ∷ os) (h, hs) =
    let (numbered, outputs) = set_prev_tx_id-IsNumbered txid (i + 1) os hs in
    (
      ((refl, h.prev_out_idx), numbered),
      (record { value = h.value; script = h.script; script_size = h.script_size }, outputs),
    )

-- Not an SLP transaction, or one with a sound message; a GENESIS has its transaction's id for a
-- token.
abbrev pub IsSlpOf : Hash → SlpTransaction → Type 0
IsSlpOf txid slp =
    (slp.slp_tx ≡ invalid)
    ⊎ ((length slp.tokenid ≡ 32)
        × IsMessage slp
        × (is_genesis slp.slp_tx ≡ true → slp.tokenid ≡ txid))

named-IsSlpOf :
    (txid tokenid : Hash) (t : ℕ) (m : SlpTx)
    → IsHash txid
    → IsMessage (record { tokenid = tokenid; token_type = t; slp_tx = m })
    → IsSlpOf txid (name_genesis txid (record { tokenid = tokenid; token_type = t; slp_tx = m }))
unfolding name_genesis
named-IsSlpOf txid tokenid t invalid h m = inl refl
named-IsSlpOf txid tokenid t (genesis g) h m = inr (h.0, m, λ e. refl)
named-IsSlpOf txid tokenid t (mint g) h m = inr (m.1.0, m, λ e. absurd (ground arith))
named-IsSlpOf txid tokenid t (send a) h m = inr (m.1.0, m, λ e. absurd (ground arith))

name_genesis_invalid :
    (txid : Hash) (slp : SlpTransaction)
    → slp.slp_tx ≡ invalid
    → (name_genesis txid slp).slp_tx ≡ invalid
unfolding name_genesis
name_genesis_invalid txid slp e = ground (arith, e)

script-IsSlpOf :
    (txid : Hash) (v : List ℕ)
    → IsHash txid
    → All Byte v
    → IsSlpOf txid (name_genesis txid (from_scriptpubkey v))
unfolding from_scriptpubkey
script-IsSlpOf txid v h hv =
    elim (hydrate_lem (record { tokenid = zero_hash; token_type = 0; slp_tx = invalid }) v hv) [
      | inl (ok, m) ↦ named-IsSlpOf txid _ _ _ h m
      | inr (bad, e) ↦ inl (name_genesis_invalid txid _ e)
    ]

slp_of-IsSlpOf :
    (txid : Hash) (os : List Output) → IsHash txid → All IsOutput os → IsSlpOf txid (slp_of txid os)
unfolding slp_of no_slp
slp_of-IsSlpOf txid [] h hs = inl refl
slp_of-IsSlpOf txid (o ∷ os) h (ho, hs) = elim (Bool-cases (is_op_return o)) [
  | inl yes_slp ↦ rw yes_slp (script-IsSlpOf txid o.scriptpubkey h ho.script)
  | inr no_return ↦ rw no_return (inl refl)
]

-- The program's types, and what `hydrate` adds to them: every array has its size, every integer its
-- width, and the outputs are the transaction's own, numbered from 0 on.
pub record IsTransaction (tx : Transaction) : Type 0 where
  pub txid : IsHash tx.txid
  pub version : tx.version < 2 ^ 32
  pub lock_time : tx.lock_time < 2 ^ 32
  pub inputs : All IsOutpoint tx.inputs
  pub in_count : length tx.inputs < max_tx_size
  pub outputs : All IsOutput tx.outputs
  pub out_count : length tx.outputs < max_tx_size
  pub numbered : IsNumbered tx.txid 0 tx.outputs
  pub slp : IsSlpOf tx.txid tx.slp
  pub serialized : All Byte tx.serialized

-- What a call of `hydrate` may return, by its result.
abbrev pub IsTyped : Outcome Transaction → Type 0
IsTyped (done tx) = IsTransaction tx
IsTyped refused = Unit
IsTyped fault = Unit

finish-IsTransaction :
    (sha256 : List ℕ → List ℕ) (s : List ℕ) (b : Body)
    → ((m : List ℕ) → IsHash (sha256 m))
    → All Byte s
    → IsBody b
    → IsTransaction (finish sha256 s b)
unfolding finish
finish-IsTransaction sha256 s b hash hs h =
    let txid = sha256 (sha256 s) in
    let (numbered, outputs) = set_prev_tx_id-IsNumbered txid 0 b.outputs h.outputs in
    record {
      txid = hash (sha256 s);
      version = h.version;
      lock_time = h.lock_time;
      inputs = All-AllFrom IsOutpoint 0 b.inputs h.inputs;
      in_count = h.in_count;
      outputs = outputs;
      out_count = omega (arith, h.out_count, length-map (set_prev_tx_id txid) b.outputs);
      numbered = numbered;
      slp = slp_of-IsSlpOf txid (map (set_prev_tx_id txid) b.outputs) (hash (sha256 s)) outputs;
      serialized = hs;
    }

hydrated-IsTyped :
    (sha256 : List ℕ → List ℕ) (s : List ℕ) (o : Outcome (Body × List ℕ))
    → ((m : List ℕ) → IsHash (sha256 m))
    → All Byte s
    → Gives IsBody o
    → IsTyped (hydrated sha256 s o)
unfolding hydrated
hydrated-IsTyped sha256 s (done (b, r)) hash hs (h, hr) =
    finish-IsTransaction sha256 (take (length s - length r) s) b hash
      (All-take Byte (length s - length r) s hs) h
hydrated-IsTyped sha256 s refused hash hs h = tt
hydrated-IsTyped sha256 s fault hash hs h = tt

-- Where the hash function gives 32 bytes: on every byte string, a transaction that `hydrate` returns
-- has the program's types. Its id and the ids that its inputs name have 32 bytes; its version, its
-- lock time and the output numbers of its inputs have 32 bits, and its values at most 2 ^ 63; there
-- are fewer than 1,000,000 inputs, outputs and script bytes; every output carries the transaction's
-- own id and its position; and it has no SLP message, or a sound one with a token id of 32 bytes,
-- which is its own id where the message is a GENESIS.
pub hydrate-IsTyped :
    (sha256 : List ℕ → List ℕ) (s : List ℕ)
    → ((m : List ℕ) → IsHash (sha256 m))
    → All Byte s
    → IsTyped (hydrate sha256 s)
unfolding hydrate
hydrate-IsTyped sha256 s hash hs =
    hydrated-IsTyped sha256 s (read_body s) hash hs (read_body-Gives s hs)
