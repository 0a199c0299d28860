-- ===== src/Graph/Correct.antt =====
-- The search of src/txgraph.cpp: the invariant of its loop, against routes along inputs.
use cpp_slp_graph_search.Prelude.{
  subst, ◌≡◌, ◌⊎◌, inl, inr, refl, sym, ap, ◌∙◌, List, [], ◌∷◌, ◌++◌, arith, true, false, ◌||◌, map,
  reverse, Bool-cases,
}
use mathlib.Core.List.{map-append}
use cpp_slp_graph_search.Prelude.Set.{
  contains_self, contains, contains-append, contains-reverse, add,
}
use cpp_slp_graph_search.Prelude.Distinct.{nodup, nodup-append}
use cpp_slp_graph_search.Graph.Store.{Ref, ref_key, TxGraph}
use cpp_slp_graph_search.Graph.Search.{Walk, node_at, visit_all, start}
use cpp_slp_graph_search.Graph.Fresh.{fresh, contains-fresh, txdata_of, visit_all_lem}

nodup-fresh : (seen ns : List Ref) → nodup (fresh seen ns) ≡ true
unfolding nodup fresh contains
nodup-fresh seen [] = refl
nodup-fresh seen (n ∷ ns) =
    ground (arith, nodup-fresh seen ns, nodup-fresh (n ∷ seen) ns, contains-fresh (n ∷ seen) ns n)

contains-cons :
    (v u : Ref) (rest : List Ref) → contains v (u ∷ rest) ≡ (contains v (u ∷ []) || contains v rest)
unfolding contains
contains-cons v u rest = ground arith

contains_only : (u v : Ref) → ¬ (u ≡ v) → contains v (u ∷ []) ≡ true → ⊥
unfolding contains
contains_only u v other e = ground arith

stays_below :
    (v u : Ref) (rest : List Ref)
    → ¬ (u ≡ v)
    → contains v (u ∷ rest) ≡ true
    → contains v rest ≡ true
unfolding contains
stays_below v u rest other e = ground arith

module _ (g : TxGraph) (root : Ref) (seen₀ : List Ref) where
  -- The nodes that the inputs lead to, from the root on, without entering an excluded node.
  pub data Route : Ref → Type 0 where
    here : Route root
    step :
        {u v : Ref}
        → Route u
        → contains v (node_at g u).inputs ≡ true
        → contains v seen₀ ≡ false
        → Route v

  -- `order` lists the nodes whose data the response holds, in the response's order.
  pub record Inv (w : Walk) : Type 0 where
    pub order : List Ref
    pub data_of : w.ret ≡ map (txdata_of g) order
    pub split : (v : Ref) → contains v w.seen ≡ (contains v order || contains v seen₀)
    pub sound : (v : Ref) → contains v order ≡ true → Route v
    pub stacked : (v : Ref) → contains v w.stack ≡ true → contains v order ≡ true
    pub rooted : contains root order ≡ true
    pub closed :
        (u v : Ref)
        → contains u order ≡ true
        → contains v (node_at g u).inputs ≡ true
        → (contains u w.stack ≡ true) ⊎ (contains v w.seen ≡ true)
    pub distinct : nodup order ≡ true

  at_root : (v : Ref) → contains v (root ∷ []) ≡ true → Route v
  at_root v e = elim (ref_key.dec root v) [
    | yes same ↦ subst Route same here
    | no other ↦ absurd (contains_only root v other e)
  ]

  add_root : (v : Ref) → contains v (add root seen₀) ≡ (contains v (root ∷ []) || contains v seen₀)
  unfolding add contains
  add_root v = ground (arith, ap (λ r. contains r seen₀) {x = root} {y = v})

  pub Inv-start : Inv (start g root seen₀)
  unfolding start contains
  Inv-start = record {
    order = root ∷ [];
    data_of = refl;
    split = λ v. add_root v;
    sound = λ v e. at_root v e;
    stacked = λ v e. e;
    rooted = ground arith;
    closed = λ u v e edge. inl e;
    distinct = unfold nodup in refl;
  }

  -- One round, at the node `u` on top of the stack.
  abbrev pub round : Walk → Ref → List Ref → Walk
  round w u rest = visit_all g (record w { stack = rest }) (node_at g u).inputs

  pub Inv-round :
      (w : Walk) (u : Ref) (rest : List Ref) → w.stack ≡ u ∷ rest → Inv w → Inv (round w u rest)
  Inv-round w u rest e h =
      let new = fresh w.seen (node_at g u).inputs in
      let in_new = λ (v : Ref). contains-fresh w.seen (node_at g u).inputs v in
      let in_seen = λ (v : Ref).
        contains-append v (reverse new) w.seen
        ∙ ap (λ b. b || contains v w.seen) (contains-reverse v new) in
      let in_stack = λ (v : Ref).
        contains-append v (reverse new) rest
        ∙ ap (λ b. b || contains v rest) (contains-reverse v new) in
      let in_order = λ (v : Ref). contains-append v h.order new in
      let on_top : contains u w.stack ≡ true = rw e (contains_self u rest) in
      let w' = record w { stack = rest } in
      rw (visit_all_lem g w' (node_at g u).inputs) (record {
        order = h.order ++ new;
        data_of =
            ap (λ r. r ++ map (txdata_of g) new) h.data_of
            ∙ sym (map-append (txdata_of g) h.order new);
        split = λ v. ground (arith, in_seen v, in_order v, h.split v);
        sound = λ v m. elim (Bool-cases (contains v h.order)) [
          | inl old ↦ h.sound v old
          | inr fresh_one ↦
              step (h.sound u (h.stacked u on_top)) (ground (arith, in_order v, in_new v))
                (ground (arith, in_order v, in_new v, h.split v))
        ];
        stacked = λ v m.
            ground (
              arith,
              in_stack v,
              in_order v,
              h.stacked v,
              ap (contains v) e,
              contains-cons v u rest,
            );
        rooted = ground (arith, in_order root, h.rooted);
        closed = λ x v m edge. elim (Bool-cases (contains x h.order)) [
          | inr fresh_one ↦ inl (ground (arith, in_stack x, in_order x))
          | inl old ↦ elim (h.closed x v old edge) [
            | inr met ↦ inr (ground (arith, in_seen v))
            | inl waiting ↦ elim (ref_key.dec u x) [
              | yes same ↦
                  let edge' : contains v (node_at g u).inputs ≡ true = rw same edge in
                  inr (ground (arith, in_seen v, in_new v))
              | no other ↦
                  let below = stays_below x u rest other (sym (ap (contains x) e) ∙ waiting) in
                  inl (ground (arith, in_stack x))
            ]
          ]
        ];
        distinct =
            nodup-append h.order new h.distinct (nodup-fresh w.seen (node_at g u).inputs)
              (λ v m. ground (arith, in_new v, h.split v));
      })
