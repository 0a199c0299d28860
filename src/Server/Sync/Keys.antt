-- ===== src/Server/Sync/Keys.antt =====
-- Which transactions the functions of Server.Sync add to the graphs.
use cpp_slp_graph_search.Prelude.{
  ◌≡◌, refl, sym, ap, subst, ◌∙◌, List, [], ◌∷◌, ◌++◌, true, false, Bool, not, ◌||◌, arith, inl,
  inr, Bool-cases, if◌then◌else◌, ite, All, All-append, All-split,
}
use mathlib.Core.List.{map-append}
use cpp_slp_graph_search.Prelude.Keys.{bytes_key, bytes_discrete}
use cpp_slp_graph_search.Prelude.Map.{has_key}
use cpp_slp_graph_search.Prelude.Set.{contains, contains-append, contains_one, contains_self}
use cpp_slp_graph_search.Slp.Message.{Hash, is_invalid}
use cpp_slp_graph_search.Tx.Types.{Transaction}
use cpp_slp_graph_search.Topological.Order.{ids}
use cpp_slp_graph_search.Graph.Store.{TxGraph, insert_token_data}
use cpp_slp_graph_search.Graph.Known.{insert_token_data-known}
use cpp_slp_graph_search.Validator.State.{Validator, has, has_valid}
use cpp_slp_graph_search.Validator.Check.{Verdict, verdict, rare_condition, out_of_fuel, add_tx}
use cpp_slp_graph_search.Validator.Send.{Fits, IsWellFormed}
use cpp_slp_graph_search.Validator.Invariant.{IsOutcome, add_tx-IsOutcome}
use cpp_slp_graph_search.Validator.Total.{EndsBy, add_tx-EndsBy}
use cpp_slp_graph_search.Validator.Adds.{Grown, Adds, add_tx-Adds, add_tx-invalid}
use cpp_slp_graph_search.Server.Sync.{
  Synced, synced, aborted, bad_read, ◌>>=◌, of_verdict, Group, push_tx, Batch, start_batch, take_in,
  add_block_tx, collect, insert_groups, all_txs,
}

ids-append : (txs us : List Transaction) → ids (txs ++ us) ≡ ids txs ++ ids us
ids-append txs us = map-append (λ t. t.txid) txs us

abbrev pub group_ids : List Group → List Hash
group_ids groups = ids (all_txs groups)

contains-ids_last :
    (x : Hash) (txs : List Transaction) (tx : Transaction)
    → contains x (ids (txs ++ tx ∷ [])) ≡ (contains x (ids txs) || contains x (tx.txid ∷ []))
contains-ids_last x txs tx =
    ap (contains x) (ids-append txs (tx ∷ [])) ∙ contains-append x (ids txs) (tx.txid ∷ [])

pub contains-group_ids :
    (x tokenid : Hash) (txs : List Transaction) (groups : List Group)
    → contains x (group_ids ((tokenid, txs) ∷ groups))
      ≡ (contains x (ids txs) || contains x (group_ids groups))
unfolding all_txs
contains-group_ids x tokenid txs groups =
    ap (contains x) (ids-append txs (all_txs groups))
    ∙ contains-append x (ids txs) (group_ids groups)

push_tx-ids :
    (x tokenid : Hash) (tx : Transaction) (groups : List Group)
    → contains x (group_ids (push_tx tokenid tx groups))
      ≡ (contains x (group_ids groups) || contains x (tx.txid ∷ []))
unfolding push_tx
push_tx-ids x tokenid tx [] = unfold all_txs contains in ground arith
push_tx-ids x tokenid tx ((t, txs) ∷ groups) =
    if_same (bytes_discrete t tokenid) (push_tx-ids x tokenid tx groups)
  where
    here :
        contains x (group_ids ((t, txs) ∷ groups))
        ≡ (contains x (ids txs) || contains x (group_ids groups))
    here = contains-group_ids x t txs groups

    if_same :
        (d : Dec (t ≡ tokenid))
        → contains x (group_ids (push_tx tokenid tx groups))
          ≡ (contains x (group_ids groups) || contains x (tx.txid ∷ []))
        → contains x (
            group_ids (ite d ((t, txs ++ tx ∷ []) ∷ groups) ((t, txs) ∷ push_tx tokenid tx groups)))
          ≡ (contains x (group_ids ((t, txs) ∷ groups)) || contains x (tx.txid ∷ []))
    if_same (yes e) ih =
        contains-group_ids x t (txs ++ tx ∷ []) groups
        ∙ ground (arith, here, contains-ids_last x txs tx)
    if_same (no e) ih =
        contains-group_ids x t txs (push_tx tokenid tx groups) ∙ ground (arith, here, ih)

pub push_tx-All :
    (Q : Transaction → Type 0) (tokenid : Hash) (tx : Transaction) (groups : List Group)
    → Q tx
    → All Q (all_txs groups)
    → All Q (all_txs (push_tx tokenid tx groups))
unfolding push_tx all_txs
push_tx-All Q tokenid tx [] q h = (q, tt)
push_tx-All Q tokenid tx ((t, txs) ∷ groups) q h =
    let (first, rest) = All-split Q txs (all_txs groups) h in
    if_same (bytes_discrete t tokenid) first rest (push_tx-All Q tokenid tx groups q rest)
  where
    if_same :
        (d : Dec (t ≡ tokenid))
        → All Q txs
        → All Q (all_txs groups)
        → All Q (all_txs (push_tx tokenid tx groups))
        → All Q
            (all_txs (ite d ((t, txs ++ tx ∷ []) ∷ groups) ((t, txs) ∷ push_tx tokenid tx groups)))
    if_same (yes e) first rest ih =
        All-append Q (txs ++ tx ∷ []) (all_txs groups) (All-append Q txs (tx ∷ []) first (q, tt))
          rest
    if_same (no e) first rest ih = All-append Q txs (all_txs (push_tx tokenid tx groups)) first ih

-- What the loop has gathered, from the validator `v` on: the transactions in the list, which are
-- those in the groups, are among `all`, satisfy `Q`, were unknown and are valid now, and no others have become
-- valid.
pub record IsBatch (v : Validator) (all : List Hash) (Q : Transaction → Type 0) (b : Batch)
    : Type 0 where
  pub formed : IsWellFormed b.validator
  pub known : (x : Hash) → has v x ≡ true → has b.validator x ≡ true
  pub listed : (x : Hash) → contains x (ids b.valid_txs_list) ≡ true → has b.validator x ≡ true
  pub valid :
      (x : Hash) → has_valid b.validator x ≡ (has_valid v x || contains x (ids b.valid_txs_list))
  pub groups : (x : Hash) → contains x (group_ids b.valid_txs) ≡ contains x (ids b.valid_txs_list)
  pub each : All Q (all_txs b.valid_txs)
  pub inside : (x : Hash) → contains x (ids b.valid_txs_list) ≡ true → contains x all ≡ true
  pub unknown : (x : Hash) → contains x (ids b.valid_txs_list) ≡ true → has v x ≡ false

-- What holds of the result. There is one, or the process ends, which only one that may abort does.
abbrev pub Holds {ℓ} : {A : Type ℓ} → Bool → (A → Type 0) → Synced A → Type 0
Holds safe P (synced a) = P a
Holds safe P aborted = safe ≡ false
Holds safe P bad_read = ⊥
Holds safe P Synced.out_of_fuel = ⊥

pub bind-Holds {ℓ κ} :
    {A : Type ℓ} {B : Type κ} (safe : Bool) (P : A → Type 0) (Q : B → Type 0) (r : Synced A)
    (f : A → Synced B)
    → Holds safe P r
    → ((a : A) → P a → Holds safe Q (f a))
    → Holds safe Q (r >>= f)
bind-Holds safe P Q (synced a) f h next = next a h
bind-Holds safe P Q aborted f h next = h
bind-Holds safe P Q bad_read f h next = h
bind-Holds safe P Q Synced.out_of_fuel f h next = h

pub Holds-mono {ℓ} :
    {A : Type ℓ} (safe : Bool) (P Q : A → Type 0) (r : Synced A)
    → Holds safe P r
    → ((a : A) → P a → Q a)
    → Holds safe Q r
Holds-mono safe P Q (synced a) h f = f a h
Holds-mono safe P Q aborted h f = h
Holds-mono safe P Q bad_read h f = h
Holds-mono safe P Q Synced.out_of_fuel h f = h

accepted-IsBatch :
    (v v' : Validator) (all : List Hash) (Q : Transaction → Type 0) (b : Batch) (tx : Transaction)
    (accepted kept : Bool)
    → IsWellFormed v'
    → Q tx
    → contains tx.txid all ≡ true
    → has b.validator tx.txid ≡ false
    → (accepted ≡ true → kept ≡ true)
    → Grown b.validator v' tx.txid accepted kept
    → IsBatch v all Q b
    → IsBatch v all Q (take_in b tx (v', accepted))
unfolding take_in
accepted-IsBatch v v' all Q b tx true kept formed q among new both grown h = record {
  formed = formed;
  known = λ x e. ground (arith, h.known x e, grown.known x);
  listed = λ x e.
      ground (arith, contains-ids_last x b.valid_txs_list tx, h.listed x, grown.known x, both refl);
  valid = λ x. ground (arith, contains-ids_last x b.valid_txs_list tx, h.valid x, grown.valid x);
  groups = λ x. ground (
    arith,
    contains-ids_last x b.valid_txs_list tx,
    push_tx-ids x tx.slp.tokenid tx b.valid_txs,
    h.groups x,
  );
  each = push_tx-All Q tx.slp.tokenid tx b.valid_txs q h.each;
  inside = λ x e. elim (Bool-cases (contains x (ids b.valid_txs_list))) [
    | inl old ↦ h.inside x old
    | inr fresh ↦
        let this : contains x (tx.txid ∷ []) ≡ true =
          ground (arith, contains-ids_last x b.valid_txs_list tx) in
        subst (λ j. contains j all ≡ true) (contains_one x tx.txid this) among
  ];
  unknown = λ x e. elim (Bool-cases (contains x (ids b.valid_txs_list))) [
    | inl old ↦ h.unknown x old
    | inr fresh ↦
        let this : contains x (tx.txid ∷ []) ≡ true =
          ground (arith, contains-ids_last x b.valid_txs_list tx) in
        let same = contains_one x tx.txid this in
        let missing : has b.validator x ≡ false = subst (λ j. has b.validator j ≡ false) same new in
        ground (arith, h.known x, missing)
  ];
}
accepted-IsBatch v v' all Q b tx false kept formed q among new both grown h = record {
  formed = formed;
  known = λ x e. ground (arith, h.known x e, grown.known x);
  listed = λ x e. ground (arith, h.listed x e, grown.known x);
  valid = λ x. ground (arith, h.valid x, grown.valid x);
  groups = h.groups;
  each = h.each;
  inside = h.inside;
  unknown = h.unknown;
}

judged-IsBatch :
    (trusted : Bool) (v : Validator) (all : List Hash) (Q : Transaction → Type 0) (b : Batch)
    (tx : Transaction) (kept : Bool) (r : Verdict (Validator × Bool))
    → Q tx
    → contains tx.txid all ≡ true
    → has b.validator tx.txid ≡ false
    → kept ≡ true
    → EndsBy trusted r
    → IsOutcome tx.txid r
    → Adds b.validator tx.txid kept r
    → IsBatch v all Q b
    → Holds trusted (IsBatch v all Q) (of_verdict r >>= λ r. synced (take_in b tx r))
judged-IsBatch trusted v all Q b tx kept (verdict (v', accepted)) q among new e ends formed grown
      h =
    accepted-IsBatch v v' all Q b tx accepted kept formed.0 q among new (λ a. e) grown h
judged-IsBatch trusted v all Q b tx kept rare_condition q among new e ends formed grown h = ends
judged-IsBatch trusted v all Q b tx kept out_of_fuel q among new e ends formed grown h = ends

add_block_tx-IsBatch :
    (trusted : Bool) (v : Validator) (all : List Hash) (Q : Transaction → Type 0) (b : Batch)
    (tx : Transaction)
    → Fits tx.slp.slp_tx
    → Q tx
    → contains tx.txid all ≡ true
    → IsBatch v all Q b
    → Holds trusted (IsBatch v all Q) (add_block_tx trusted b tx)
unfolding add_block_tx
add_block_tx-IsBatch trusted v all Q b tx fits q among h = if_known (has b.validator tx.txid) refl
  where
    result : Synced Batch
    result = of_verdict (add_tx b.validator tx trusted) >>= λ r. synced (take_in b tx r)

    unchanged : take_in b tx (b.validator, false) ≡ b
    unchanged = unfold take_in in refl

    if_known :
        (k : Bool)
        → has b.validator tx.txid ≡ k
        → Holds trusted (IsBatch v all Q) (if k then synced b else result)
    if_known true old = h
    if_known false new = elim (Bool-cases (is_invalid tx.slp.slp_tx)) [
      | inl e ↦
          rw (add_tx-invalid b.validator tx trusted e) (subst (IsBatch v all Q) (sym unchanged) h)
      | inr e ↦
          judged-IsBatch trusted v all Q b tx (not (is_invalid tx.slp.slp_tx))
            (add_tx b.validator tx trusted) q among new (ground (arith, e))
            (add_tx-EndsBy b.validator tx trusted h.formed fits)
            (add_tx-IsOutcome b.validator tx trusted h.formed fits)
            (add_tx-Adds b.validator tx trusted new) h
    ]

pub collect-IsBatch :
    (trusted : Bool) (v : Validator) (all : List Hash) (Q : Transaction → Type 0) (b : Batch)
    (txs : List Transaction)
    → All (λ tx. Fits tx.slp.slp_tx) txs
    → All Q txs
    → ((x : Hash) → contains x (ids txs) ≡ true → contains x all ≡ true)
    → IsBatch v all Q b
    → Holds trusted (IsBatch v all Q) (collect trusted b txs)
unfolding collect
collect-IsBatch trusted v all Q b [] fits qs among h = h
collect-IsBatch trusted v all Q b (tx ∷ txs) (fit, fits) (q, qs) among h =
    bind-Holds trusted (IsBatch v all Q) (IsBatch v all Q) (add_block_tx trusted b tx) _
      (add_block_tx-IsBatch trusted v all Q b tx fit q
        (among tx.txid (contains_self tx.txid (ids txs))) h)
      λ b' h'.
        collect-IsBatch trusted v all Q b' txs fits qs
          (λ x e. among x (unfold contains in ground (arith, e))) h'

pub start-IsBatch :
    (v : Validator) (all : List Hash) (Q : Transaction → Type 0)
    → IsWellFormed v
    → IsBatch v all Q (start_batch v)
unfolding all_txs contains
start-IsBatch v all Q formed = record {
  formed = formed;
  known = λ x e. e;
  listed = λ x e. absurd (ground arith);
  valid = λ x. ground arith;
  groups = λ x. refl;
  each = tt;
  inside = λ x e. absurd (ground arith);
  unknown = λ x e. absurd (ground arith);
}

pub insert_groups-known :
    (groups : List Group) (g : TxGraph) (x : Hash)
    → has_key x (insert_groups groups g).txid_to_token
      ≡ (has_key x g.txid_to_token || contains x (group_ids groups))
unfolding insert_groups
insert_groups-known [] g x = unfold all_txs contains in ground arith
insert_groups-known ((t, txs) ∷ groups) g x =
    insert_groups-known groups (insert_token_data g t txs).0 x
    ∙ ground (arith, insert_token_data-known g t txs x, contains-group_ids x t txs groups)
