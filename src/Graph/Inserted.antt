-- ===== src/Graph/Inserted.antt =====
-- The first pass of `insert_token_data` (src/txgraph.cpp) over new transactions.
use cpp_slp_graph_search.Prelude.{
  ℕ, ◌+◌, ◌≡◌, refl, sym, ◌∙◌, subst, List, [], ◌∷◌, ◌++◌, none, some, false, arith, All, map,
  length, Bool-cases, inl, inr, ap, filter_by,
}
use mathlib.Core.List.{append-nil, append_assoc}
use cpp_slp_graph_search.Prelude.Keys.{bytes_key}
use cpp_slp_graph_search.Prelude.Map.{Map, find, has_key, insert, find-insert}
use cpp_slp_graph_search.Slp.Message.{Hash}
use cpp_slp_graph_search.Tx.Types.{Transaction}
use cpp_slp_graph_search.Graph.Store.{
  Ref, GraphNode, TokenGraph, Pass, add_node, first_pass, known_inputs,
}

abbrev pub parents : Transaction → List Hash
parents tx = map (λ o. o.txid) tx.inputs

abbrev pub bare : Transaction → GraphNode
bare tx = record { inputs = []; txdata = tx.serialized }

-- The pointers to those of some transactions that the graph has, in their order.
abbrev pub pointers : Hash → TokenGraph → List Hash → List Ref
pointers tokenid graph txids =
    map (λ txid. record { tokenid = tokenid; txid = txid })
      (filter_by (λ txid. has_key txid graph) txids)

pub known_inputs-pointers :
    (tokenid : Hash) (graph : TokenGraph) (txids : List Hash)
    → known_inputs tokenid graph txids ≡ pointers tokenid graph txids
unfolding known_inputs
known_inputs-pointers tokenid graph [] = refl
known_inputs-pointers tokenid graph (txid ∷ txids) = elim (Bool-cases (has_key txid graph)) [
  | inl there ↦ rw there (
      ap (λ refs. record { tokenid = tokenid; txid = txid } ∷ refs)
        (known_inputs-pointers tokenid graph txids))
  | inr missing ↦ rw missing (known_inputs-pointers tokenid graph txids)
]

-- A node as it is to be: the bytes, and pointers to the parents that the graph has.
abbrev pub node_of : Hash → TokenGraph → Transaction → GraphNode
node_of tokenid graph tx = record {
  inputs = pointers tokenid graph (parents tx);
  txdata = tx.serialized;
}

-- Different ids and different bytes.
abbrev pub Apart : Transaction → Transaction → Type 0
Apart tx u = ¬ (tx.txid ≡ u.txid) × ¬ (tx.serialized ≡ u.serialized)

abbrev pub AreApart : List Transaction → Type 0
AreApart [] = Unit
AreApart (tx ∷ txs) = All (Apart tx) txs × AreApart txs

pub record IsNew (p : Pass) (tx : Transaction) : Type 0 where
  pub unknown : has_key tx.txid p.txid_to_token ≡ false
  pub no_node : find tx.txid p.graph ≡ none
  pub no_bytes : find tx.serialized p.input_map ≡ none

-- What the first pass leaves of a transaction.
pub record IsListed (p : Pass) (tx : Transaction) : Type 0 where
  pub node : find tx.txid p.graph ≡ some (bare tx)
  pub bytes : find tx.serialized p.input_map ≡ some (parents tx)

-- The pass after one new transaction.
abbrev with_node : Hash → Pass → Transaction → Pass
with_node tokenid p tx = record {
  graph = insert tx.txid (bare tx) p.graph;
  txid_to_token = insert tx.txid tokenid p.txid_to_token;
  input_map = insert tx.serialized (parents tx) p.input_map;
  latest = p.latest ++ tx.txid ∷ [];
  ret = p.ret + 1;
}

add_node-new :
    (tokenid : Hash) (p : Pass) (tx : Transaction)
    → has_key tx.txid p.txid_to_token ≡ false
    → add_node tokenid p tx ≡ with_node tokenid p tx
unfolding add_node
add_node-new tokenid p tx e = rw e refl

insert_other-none :
    {V : Type 0} (k j : Hash) (v : V) (m : Map Hash V)
    → ¬ (k ≡ j)
    → find j m ≡ none
    → find j (insert k v m) ≡ none
insert_other-none k j v m ne e = ground (arith, find-insert k j v m)

insert_self-some :
    {V : Type 0} (k : Hash) (v : V) (m : Map Hash V)
    → find k m ≡ none
    → find k (insert k v m) ≡ some v
insert_self-some k v m e = ground (arith, find-insert k k v m)

insert_kept :
    {V : Type 0} (k j : Hash) (v w : V) (m : Map Hash V)
    → find j m ≡ some w
    → find j (insert k v m) ≡ some w
insert_kept k j v w m e = ground (arith, find-insert k j v m)

insert_unknown :
    (k j : Hash) (v : Hash) (m : Map Hash Hash)
    → ¬ (k ≡ j)
    → has_key j m ≡ false
    → has_key j (insert k v m) ≡ false
unfolding has_key
insert_unknown k j v m ne e = ground (arith, find-insert k j v m)

with_node-IsNew :
    (tokenid : Hash) (p : Pass) (tx u : Transaction)
    → Apart tx u
    → IsNew p u
    → IsNew (with_node tokenid p tx) u
with_node-IsNew tokenid p tx u (ne, ne') h = record {
  unknown = insert_unknown tx.txid u.txid tokenid p.txid_to_token ne h.unknown;
  no_node = insert_other-none tx.txid u.txid (bare tx) p.graph ne h.no_node;
  no_bytes = insert_other-none tx.serialized u.serialized (parents tx) p.input_map ne' h.no_bytes;
}

-- What the first pass does with new transactions.
pub record Passed (p p' : Pass) (txs : List Transaction) : Type 0 where
  pub listed : All (IsListed p') txs
  pub latest : p'.latest ≡ p.latest ++ map (λ tx. tx.txid) txs
  pub count : p'.ret ≡ p.ret + length txs
  pub nodes : (j : Hash) (n : GraphNode) → find j p.graph ≡ some n → find j p'.graph ≡ some n
  pub bytes :
      (j : List ℕ) (ins : List Hash)
      → find j p.input_map ≡ some ins
      → find j p'.input_map ≡ some ins

All-with_node-IsNew :
    (tokenid : Hash) (p : Pass) (tx : Transaction) (txs : List Transaction)
    → All (Apart tx) txs
    → All (IsNew p) txs
    → All (IsNew (with_node tokenid p tx)) txs
All-with_node-IsNew tokenid p tx [] a h = tt
All-with_node-IsNew tokenid p tx (u ∷ txs) (a, as') (h, hs) =
    (with_node-IsNew tokenid p tx u a h, All-with_node-IsNew tokenid p tx txs as' hs)

pub first_pass-Passed :
    (tokenid : Hash) (p : Pass) (txs : List Transaction)
    → AreApart txs
    → All (IsNew p) txs
    → Passed p (first_pass tokenid p txs) txs
unfolding first_pass
first_pass-Passed tokenid p [] a h = record {
  listed = tt;
  latest = sym (append-nil p.latest);
  count = omega arith;
  nodes = λ j n e. e;
  bytes = λ j ins e. e;
}
first_pass-Passed tokenid p (tx ∷ txs) (a, apart) (h, hs) =
    let next = with_node tokenid p tx in
    let rest =
      first_pass-Passed tokenid next txs apart (All-with_node-IsNew tokenid p tx txs a hs) in
    subst (λ q. Passed p (first_pass tokenid q txs) (tx ∷ txs))
      (sym (add_node-new tokenid p tx h.unknown))
      (record {
        listed = (
          record {
            node =
                rest.nodes tx.txid (bare tx) (insert_self-some tx.txid (bare tx) p.graph h.no_node);
            bytes =
                rest.bytes tx.serialized (parents tx)
                  (insert_self-some tx.serialized (parents tx) p.input_map h.no_bytes);
          },
          rest.listed,
        );
        latest = rest.latest ∙ append_assoc p.latest (tx.txid ∷ []) (map (λ t. t.txid) txs);
        count = omega (arith, rest.count);
        nodes = λ j n e. rest.nodes j n (insert_kept tx.txid j (bare tx) n p.graph e);
        bytes = λ j ins e.
            rest.bytes j ins (insert_kept tx.serialized j (parents tx) ins p.input_map e);
      })

pub pointers_cong :
    (tokenid : Hash) (graph graph' : TokenGraph) (txids : List Hash)
    → ((j : Hash) → has_key j graph ≡ has_key j graph')
    → pointers tokenid graph txids ≡ pointers tokenid graph' txids
pointers_cong tokenid graph graph' [] same = refl
pointers_cong tokenid graph graph' (txid ∷ txids) same =
    ground (arith, same txid, pointers_cong tokenid graph graph' txids same)
