-- ===== src/Topological/Visit.antt =====
-- The recursion of `topological_sort_internal` (src/util.cpp): what a call adds, and that it ends.
use cpp_slp_graph_search.Prelude.{
  ℕ, zero, suc, ◌≡◌, ◌<◌, ◌≤◌, ◌⊎◌, inl, inr, refl, sym, ap, ◌∙◌, List, [], ◌∷◌, ◌++◌, arith, Bool,
  true, false, ◌||◌, All, none, some, Bool-cases, Option-cases, All-append,
}
use mathlib.Core.List.{append_assoc, append-nil, map-append}
use cpp_slp_graph_search.Prelude.Keys.{bytes_key, bytes_discrete}
use cpp_slp_graph_search.Prelude.Map.{Map, find, find-All, has_key}
use cpp_slp_graph_search.Prelude.Set.{
  contains, contains-cons, contains_one, contains_self, contains-append,
}
use cpp_slp_graph_search.Prelude.Distinct.{nodup, nodup-append, unseen, unseen_mono, unseen-lt}
use cpp_slp_graph_search.Slp.Message.{Hash}
use cpp_slp_graph_search.Tx.Types.{Outpoint, Transaction}
use cpp_slp_graph_search.Topological.Sort.{
  Dfs, Recur, visit_inputs, enter, topological_sort_internal,
}
use cpp_slp_graph_search.Topological.Order.{
  met_mono, ids, met, IsOrdered, IsOrdered-append, IsOrdered-mono,
}

module _ (transactions : Map Hash Transaction) (rank : Hash → ℕ) where
  abbrev pub listed : Hash → Bool
  listed v = has_key v transactions

  -- The map holds each transaction under its id.
  abbrev pub IsKeyed : Hash × Transaction → Type 0
  IsKeyed entry = entry.1.txid ≡ entry.0

  -- Parents have a lower rank, so no transaction is its own ancestor.
  abbrev pub IsBelow : ℕ → Outpoint → Type 0
  IsBelow r o = (has_key o.txid transactions ≡ false) ⊎ (rank o.txid < r)

  abbrev pub IsRanked : Hash × Transaction → Type 0
  IsRanked entry = All (IsBelow (rank entry.1.txid)) entry.1.inputs

  -- What is visited and not on the stack yet has a rank of `r` or more.
  abbrev pub Grey : ℕ → Dfs → Type 0
  Grey r d =
      (v : Hash) → contains v d.visited ≡ true → (contains v (ids d.stack) ≡ true) ⊎ (r ≤ rank v)

  -- What a call has added: each transaction once, from the map, and in order.
  pub record Step (d : Dfs) (d' : Dfs) : Type 0 where
    pub new : List Transaction
    pub pushed : d'.stack ≡ d.stack ++ new
    pub marked : (v : Hash) → contains v d'.visited ≡ (contains v (ids new) || contains v d.visited)
    pub distinct : nodup (ids new) ≡ true
    pub unmet : (v : Hash) → contains v (ids new) ≡ true → contains v d.visited ≡ false
    pub known : All (λ t. find t.txid transactions ≡ some t) new
    pub ordered : IsOrdered listed (ids d.stack) new

  pub Step-refl : (d : Dfs) → Step d d
  Step-refl d = record {
    new = [];
    pushed = sym (append-nil d.stack);
    marked = λ v. unfold contains in refl;
    distinct = unfold nodup in refl;
    unmet = λ v e. unfold contains in cc;
    known = tt;
    ordered = tt;
  }

  pub contains-pushed :
      (d d' : Dfs) (p : Step d d') (v : Hash)
      → contains v (ids d'.stack) ≡ (contains v (ids d.stack) || contains v (ids p.new))
  contains-pushed d d' p v =
      ap (λ s. contains v (ids s)) p.pushed
      ∙ ap (contains v) (map-append (λ t. t.txid) d.stack p.new)
      ∙ contains-append v (ids d.stack) (ids p.new)

  pub Step-trans : (a b c : Dfs) → Step a b → Step b c → Step a c
  Step-trans a b c p q =
      let split = λ (v : Hash).
        ap (contains v) (map-append (λ t. t.txid) p.new q.new)
        ∙ contains-append v (ids p.new) (ids q.new) in
      record {
        new = p.new ++ q.new;
        pushed = q.pushed ∙ ap (λ s. s ++ q.new) p.pushed ∙ append_assoc a.stack p.new q.new;
        marked = λ v. ground (arith, q.marked v, p.marked v, split v);
        distinct =
            ap nodup (map-append (λ t. t.txid) p.new q.new)
            ∙ nodup-append (ids p.new) (ids q.new) p.distinct q.distinct (λ v e.
              ground
                (arith, q.marked v, p.marked v, q.unmet v, Bool-cases (contains v (ids q.new))));
        unmet = λ v e. ground (arith, split v, p.unmet v, q.unmet v, p.marked v);
        known = All-append (λ t. find t.txid transactions ≡ some t) p.new q.new p.known q.known;
        ordered = IsOrdered-append listed (ids a.stack) p.new q.new p.ordered (
            IsOrdered-mono listed (ids b.stack) (ids p.new ++ ids a.stack) q.new
              (λ v e.
                ground
                  (arith, contains-pushed a b p v, contains-append v (ids p.new) (ids a.stack)))
              q.ordered);
      }

  pub Grey-Step : (r : ℕ) (d d' : Dfs) → Grey r d → Step d d' → Grey r d'
  Grey-Step r d d' h p v e = elim (Bool-cases (contains v (ids p.new))) [
    | inl now ↦ inl (ground (arith, contains-pushed d d' p v))
    | inr not_now ↦ elim (h v (ground (arith, p.marked v))) [
      | inl before ↦ inl (ground (arith, contains-pushed d d' p v))
      | inr above ↦ inr above
    ]
  ]

  module _ (universe : List Hash) where
    -- What a call does when at most `n` ids of the universe are not visited yet.
    abbrev pub Visits : ℕ → Recur → Type 0
    Visits n recur =
        (t : Transaction) (d : Dfs)
        → find t.txid transactions ≡ some t
        → contains t.txid d.visited ≡ false
        → Grey (suc (rank t.txid)) d
        → unseen universe d.visited ≤ n
        → (d' : Dfs) × (recur t d ≡ some d') × Step d d' × (contains t.txid d'.visited ≡ true)

    pub unseen-Step :
        (n : ℕ) (d d' : Dfs)
        → Step d d'
        → unseen universe d.visited ≤ n
        → unseen universe d'.visited ≤ n
    unseen-Step n d d' p h =
        omega
          (arith, h, unseen_mono universe d.visited d'.visited (λ v e. ground (arith, p.marked v)))

    met-Step :
        (d d' : Dfs) (o : Outpoint)
        → Step d d'
        → met listed d.visited o ≡ true
        → met listed d'.visited o ≡ true
    met-Step d d' o p h = ground (arith, p.marked o.txid)

    met_absent :
        (s : List Hash) (o : Outpoint) → find o.txid transactions ≡ none → met listed s o ≡ true
    unfolding has_key
    met_absent s o e = rw e refl

    IsBelow-found :
        (r : ℕ) (o : Outpoint) {t : Transaction}
        → find o.txid transactions ≡ some t
        → IsBelow r o
        → rank o.txid < r
    unfolding has_key
    IsBelow-found r o e (inl absent) = absurd (ground arith)
    IsBelow-found r o e (inr below) = below

    Grey-le : (r q : ℕ) (d : Dfs) → q ≤ r → Grey r d → Grey q d
    Grey-le r q d le h v e = elim (h v e) [
      | inl on ↦ inl on
      | inr above ↦ inr (omega (arith, above, le))
    ]

    module _ (keyed : All IsKeyed transactions) (ranked : All IsRanked transactions) where
      pub visit_inputs-Step :
          (n r : ℕ) (recur : Recur) (os : List Outpoint) (d : Dfs)
          → Visits n recur
          → All (IsBelow r) os
          → Grey r d
          → unseen universe d.visited ≤ n
          → (d' : Dfs) × (visit_inputs transactions recur os d ≡ some d')
            × Step d d'
            × All (λ o. met listed d'.visited o ≡ true) os
      unfolding visit_inputs
      visit_inputs-Step n r recur [] d ok below grey le = (d, refl, Step-refl d, tt)
      visit_inputs-Step n r recur (o ∷ os) d ok (b, below) grey le =
          elim (Bool-cases (contains o.txid d.visited)) [
            | inl old ↦
                let (d', e, p, m) = visit_inputs-Step n r recur os d ok below grey le in
                (d', rw old e, p, (met-Step d d' o p (ground arith), m))
            | inr new ↦ elim (Option-cases (find o.txid transactions)) [
              | inl absent ↦
                  let (d', e, p, m) = visit_inputs-Step n r recur os d ok below grey le in
                  (d', rw (new, absent) e, p, (met_absent d'.visited o absent, m))
              | inr (parent, found) ↦
                  let same : parent.txid ≡ o.txid =
                    find-All IsKeyed o.txid transactions keyed found in
                  let lower = IsBelow-found r o found b in
                  let (d₁, e₁, p₁, seen) =
                    ok parent d (ap (λ h. find h transactions) same ∙ found)
                      (ap (λ h. contains h d.visited) same ∙ new)
                      (Grey-le r (suc (rank parent.txid)) d (omega (arith, ap rank same, lower))
                        grey)
                      le in
                  let (d', e, p, m) =
                    visit_inputs-Step n r recur os d₁ ok below (Grey-Step r d d₁ grey p₁)
                      (unseen-Step n d d₁ p₁ le) in
                  let parent_met : met listed d'.visited o ≡ true =
                    met-Step d₁ d' o p (ground (arith, ap (λ h. contains h d₁.visited) same)) in
                  (d', rw (new, found, e₁) e, Step-trans d d₁ d' p₁ p, (parent_met, m))
            ]
          ]

      Grey-enter :
          (t : Transaction) (d : Dfs) → Grey (suc (rank t.txid)) d → Grey (rank t.txid) (enter t d)
      unfolding contains
      Grey-enter t d h v e = elim (bytes_discrete t.txid v) [
        | yes same ↦ inr (omega (arith, ap rank same))
        | no other ↦ elim (h v (ground arith)) [
          | inl on ↦ inl on
          | inr above ↦ inr (omega (arith, above))
        ]
      ]

      -- Where the loop has met all parents, they are on the stack.
      parents-pushed :
          (t : Transaction) (d' : Dfs) (os : List Outpoint)
          → Grey (rank t.txid) d'
          → All (IsBelow (rank t.txid)) os
          → All (λ o. met listed d'.visited o ≡ true) os
          → All (λ o. met listed (ids d'.stack) o ≡ true) os
      parents-pushed t d' [] grey below m = tt
      parents-pushed t d' (o ∷ os) grey (b, below) (m, ms) = (
        elim (Bool-cases (has_key o.txid transactions)) [
          | inr absent ↦ ground arith
          | inl there ↦ elim (grey o.txid (ground arith)) [
            | inl on ↦ ground arith
            | inr above ↦
                absurd
                  (elim b [ inl absent ↦ ground arith | inr lower ↦ omega (arith, above, lower) ])
          ]
        ],
        parents-pushed t d' os grey below ms,
      )

      -- A call around the loop over the inputs.
      leave-Step :
          (t : Transaction) (d d₁ : Dfs) (p : Step (enter t d) d₁)
          → find t.txid transactions ≡ some t
          → contains t.txid d.visited ≡ false
          → All (λ o. met listed (ids d₁.stack) o ≡ true) t.inputs
          → Step d (record d₁ { stack = d₁.stack ++ t ∷ [] })
      leave-Step t d d₁ p found fresh parents =
          let split = λ (v : Hash).
            ap (contains v) (map-append (λ x. x.txid) p.new (t ∷ []))
            ∙ contains-append v (ids p.new) (t.txid ∷ []) in
          let entered = λ (v : Hash). contains-cons v t.txid d.visited in
          record {
            new = p.new ++ t ∷ [];
            pushed = ap (λ s. s ++ t ∷ []) p.pushed ∙ append_assoc d.stack p.new (t ∷ []);
            marked = λ v. ground (arith, p.marked v, split v, entered v);
            distinct =
                ap nodup (map-append (λ x. x.txid) p.new (t ∷ []))
                ∙ nodup-append (ids p.new) (t.txid ∷ []) p.distinct (unfold nodup contains in refl)
                    (λ v e. ground (arith, p.unmet v, entered v));
            unmet = λ v e. elim (Bool-cases (contains v (t.txid ∷ []))) [
              | inl last ↦ ap (λ h. contains h d.visited) (sym (contains_one v t.txid last)) ∙ fresh
              | inr before ↦ ground (arith, split v, p.unmet v, entered v)
            ];
            known =
                All-append (λ x. find x.txid transactions ≡ some x) p.new (t ∷ []) p.known
                  (found, tt);
            ordered = IsOrdered-append listed (ids d.stack) p.new (t ∷ []) p.ordered (
              met_mono listed (ids d₁.stack) (ids p.new ++ ids d.stack) t.inputs
                  (λ v e. ground (
                    arith,
                    contains-pushed (enter t d) d₁ p v,
                    contains-append v (ids p.new) (ids d.stack),
                  ))
                  parents,
              tt,
            );
          }

      pub topological_sort_internal-Visits :
          (fuel : ℕ)
          → All (λ entry. contains entry.1.txid universe ≡ true) transactions
          → Visits fuel (topological_sort_internal transactions fuel)
      unfolding topological_sort_internal
      topological_sort_internal-Visits zero inside t d found fresh grey le = absurd (
          omega (
            arith,
            le,
            unseen-lt universe d.visited t.txid
                (find-All (λ entry. contains entry.1.txid universe ≡ true) t.txid transactions
                  inside found)
                fresh,
          ))
      topological_sort_internal-Visits (suc fuel) inside t d found fresh grey le =
          let in_universe =
            find-All (λ entry. contains entry.1.txid universe ≡ true) t.txid transactions inside
              found in
          let below = find-All IsRanked t.txid transactions ranked found in
          let less = unseen-lt universe d.visited t.txid in_universe fresh in
          let (d₁, e, p, m) =
            visit_inputs-Step fuel (rank t.txid) (topological_sort_internal transactions fuel)
              t.inputs (enter t d) (topological_sort_internal-Visits fuel inside) below
              (Grey-enter t d grey) (omega (arith, le, less)) in
          let parents =
            parents-pushed t d₁ t.inputs
              (Grey-Step (rank t.txid) (enter t d) d₁ (Grey-enter t d grey) p) below m in
          (
            record d₁ { stack = d₁.stack ++ t ∷ [] },
            rw e refl,
            leave-Step t d d₁ p found fresh parents,
            ground (arith, p.marked t.txid, contains_self t.txid d.visited),
          )
