-- ===== src/Engine/Painting.antt =====
-- The search for cycles: what a node's change of colour does to the ranks.
use schema_init.Prelude.{
  All-map, ℕ, zero, suc, ◌+◌, ◌<◌, ◌≡◌, refl, sym, ap, ◌∙◌, ◌≢◌, inl, inr, false, Option, none,
  some, List, [], ◌∷◌, arith, ◌==◌, if◌then◌else◌, Bool-cases, ==_iff, length, get_elem?,
  get_elem?-set_self, get_elem?-set_ne, All,
}
use mathlib.Core.Path.{subst}
use schema_init.Engine.Service.{Service}
use schema_init.Engine.Cycles.{Color, white, gray, black, Search, paint, deps_of}
use schema_init.Engine.Turns.{Resolved, Below, DoneRanked}

pub in_range : (cs : List Color) (i : ℕ) (c : Color) → get_elem? cs i ≡ some c → i < length cs
in_range [] i c h = cc
in_range (x ∷ cs) zero c h = omega arith
in_range (x ∷ cs) (suc i) c h = omega (arith, in_range cs i c h)

-- The ranks with the node just done on top.
pub raise : ℕ → ℕ → (ℕ → ℕ) → ℕ → ℕ
raise node top rank x = if x == node then top else rank x

pub raise_self : (node top : ℕ) (rank : ℕ → ℕ) → raise node top rank node ≡ top
unfolding raise
raise_self node top rank = ground arith

pub raise_ne : (node top : ℕ) (rank : ℕ → ℕ) (x : ℕ) → x ≢ node → raise node top rank x ≡ rank x
unfolding raise
raise_ne node top rank x h = let e : (x == node) ≡ false = ground (arith, h) in rw e refl

-- A node that is painted, and what that changes.
module _ (st : Search) (node : ℕ) (c c' : Color) (was : get_elem? st.color node ≡ some c) where
  pub painted_self : get_elem? (paint st node c').color node ≡ some c'
  painted_self = get_elem?-set_self st.color node c' (in_range st.color node c was)

  pub painted_ne : (x : ℕ) → node ≢ x → get_elem? (paint st node c').color x ≡ get_elem? st.color x
  painted_ne x h = get_elem?-set_ne st.color c' h

  pub other_of : (x : ℕ) (o : Option Color) → get_elem? st.color x ≡ o → some c ≢ o → node ≢ x
  other_of x o e n h = n (sym was ∙ (ap (λ k. get_elem? st.color k) h ∙ e))

  pub painted_black :
      (u : ℕ)
      → some c' ≢ some black
      → get_elem? (paint st node c').color u ≡ some black
      → get_elem? st.color u ≡ some black
  painted_black u n h = elim (Bool-cases (node == u)) [
    | inl e ↦
        let same : node ≡ u = (==_iff node u).0 e in
        absurd (n (sym painted_self ∙ (ap (λ k. get_elem? (paint st node c').color k) same ∙ h)))
    | inr e ↦ sym (painted_ne u (ground (arith, e))) ∙ h
  ]

  pub Below-painted :
      (rank : ℕ → ℕ) (bound : ℕ) (o : Option ℕ)
      → some c ≢ some black
      → Below st rank bound o
      → Below (paint st node c') rank bound o
  Below-painted rank bound none n b = tt
  Below-painted rank bound (some v) n (inl e) = inl (painted_ne v (other_of v none e (λ h. cc)) ∙ e)
  Below-painted rank bound (some v) n (inr (e, l)) =
      inr (painted_ne v (other_of v (some black) e n) ∙ e, l)

  -- When the node is done, its dependencies and those of the others rank below.
  pub Below-raised :
      (rank : ℕ → ℕ) (top bound : ℕ) (o : Option ℕ)
      → some c ≢ some black
      → Below st rank bound o
      → Below (paint st node c') (raise node top rank) bound o
  Below-raised rank top bound none n b = tt
  Below-raised rank top bound (some v) n (inl e) =
      inl (painted_ne v (other_of v none e (λ h. cc)) ∙ e)
  Below-raised rank top bound (some v) n (inr (e, l)) =
      let other = other_of v (some black) e n in
      inr (painted_ne v other ∙ e, omega (arith, l, raise_ne node top rank v (λ h. other (sym h))))

pub Resolved-Below :
    (table : List Service) (st : Search) (r : DoneRanked table st) (o : Option ℕ)
    → Resolved st o
    → Below st r.rank r.top o
Resolved-Below table st r none h = tt
Resolved-Below table st r (some v) (inl e) = inl e
Resolved-Below table st r (some v) (inr e) = inr (e, r.under v e)

-- A white node is painted gray: nothing is done by that.
pub grayed-DoneRanked :
    (table : List Service) (st : Search) (node : ℕ)
    → get_elem? st.color node ≡ some white
    → DoneRanked table st
    → DoneRanked table (paint st node gray)
grayed-DoneRanked table st node was r = record {
  rank = r.rank;
  top = r.top;
  under = λ u h. r.under u (painted_black st node white gray was u (λ e. cc) h);
  below = λ u h.
      All-map (λ d b. Below-painted st node white gray was r.rank (r.rank u) d.dep_idx (λ e. cc) b)
        (deps_of table u) (r.below u (painted_black st node white gray was u (λ e. cc) h));
}

-- A gray node whose dependencies are all done is painted black, and ranks above all others.
pub blackened-DoneRanked :
    (table : List Service) (st : Search) (node : ℕ)
    → get_elem? st.color node ≡ some gray
    → All (λ d. Resolved st d.dep_idx) (deps_of table node)
    → DoneRanked table st
    → DoneRanked table (paint st node black)
blackened-DoneRanked table st node was all r = record {
  rank = raise node r.top r.rank;
  top = r.top + 1;
  under = λ u h. elim (Bool-cases (u == node)) [
    | inl e ↦ omega (
      arith,
      raise_self node r.top r.rank,
      ap (λ x. raise node r.top r.rank x) ((==_iff u node).0 e),
    )
    | inr e ↦ omega (arith, raise_ne node r.top r.rank u (unlike u e), r.under u (before u e h))
  ];
  below = λ u h. elim (Bool-cases (u == node)) [
    | inl e ↦
        subst
          (λ x.
            All
              (λ d.
                Below (paint st node black) (raise node r.top r.rank) (raise node r.top r.rank x)
                  d.dep_idx)
              (deps_of table x))
          (sym ((==_iff u node).0 e)) at_node
    | inr e ↦
        All-map
          (λ d b.
            subst (λ n. Below (paint st node black) (raise node r.top r.rank) n d.dep_idx)
              (sym (raise_ne node r.top r.rank u (unlike u e)))
              (Below-raised st node gray black was r.rank r.top (r.rank u) d.dep_idx (λ x. cc) b))
          (deps_of table u) (r.below u (before u e h))
  ];
}
  where
    unlike : (u : ℕ) → (u == node) ≡ false → u ≢ node
    unlike u e = ground (arith, e)

    before :
        (u : ℕ)
        → (u == node) ≡ false
        → get_elem? (paint st node black).color u ≡ some black
        → get_elem? st.color u ≡ some black
    before u e h = sym (painted_ne st node gray black was u (λ x. unlike u e (sym x))) ∙ h

    at_node :
        All
          (λ d.
            Below
              (paint st node black)
              (raise node r.top r.rank)
              (raise node r.top r.rank node)
              d.dep_idx)
          (deps_of table node)
    at_node =
        All-map
          (λ d b.
            subst (λ n. Below (paint st node black) (raise node r.top r.rank) n d.dep_idx)
              (sym (raise_self node r.top r.rank))
              (Below-raised st node gray black was r.rank r.top r.top d.dep_idx (λ x. cc)
                (Resolved-Below table st r d.dep_idx b)))
          (deps_of table node) all
