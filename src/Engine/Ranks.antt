-- ===== src/Engine/Ranks.antt =====
-- The search for cycles from one node and from all.
use schema_init.Prelude.{
  ℕ, zero, suc, ◌+◌, ◌≤◌, ◌<◌, ◌≡◌, refl, sym, ap, ◌∙◌, ◌≢◌, inl, inr, true, false, Option, none,
  some, List, arith, ◌==◌, Bool-cases, ==_iff, length, get_elem?, set,
}
use mathlib.Core.Path.{subst}
use schema_init.Engine.Service.{Service}
use schema_init.Engine.Cycles.{
  Color, white, gray, black, Search, paint, deps_of, dfs, is_white, check_from,
}
use schema_init.Engine.Turns.{
  whites, whites-set_le, whites-set_lt, Keeps, Keeps-refl, Keeps-trans, Resolved, Resolved-kept,
  DoneRanked, Visited, visit_deps-Turned,
}
use schema_init.Engine.Painting.{painted_self, painted_ne, grayed-DoneRanked, blackened-DoneRanked}

-- Around a node: gray before its dependencies, black behind them.
pub around_node :
    (st st2 : Search) (node : ℕ)
    → get_elem? st.color node ≡ some white
    → get_elem? st2.color node ≡ some gray
    → Keeps (paint st node gray) st2
    → Keeps st (paint st2 node black)
around_node st st2 node was yet k = record {
  colors = λ x h.
      let other : node ≢ x =
        λ e. elim_white (sym (ap is_white (ap (λ n. get_elem? st.color n) (sym e) ∙ was)) ∙ h) in
      let same = painted_ne st node white gray was x other in
      painted_ne st2 node gray black yet x other ∙ (k.colors x (ap is_white same ∙ h) ∙ same);
  settled = λ x. elim (Bool-cases (node == x)) [
    | inl e ↦ inr (
        ap (λ n. get_elem? (paint st2 node black).color n) (sym ((==_iff node x).0 e))
        ∙ painted_self st2 node gray black yet)
    | inr e ↦
        let other : node ≢ x = ground (arith, e) in
        let after = painted_ne st2 node gray black yet x other in
        elim (k.settled x) [
          | inl s ↦ inl (after ∙ (s ∙ painted_ne st node white gray was x other))
          | inr s ↦ inr (after ∙ s)
        ]
  ];
  fewer =
      omega
        (arith, k.fewer, whites-set_lt st.color node was, whites-set_le st2.color node black refl);
  more = k.more;
}
  where
    elim_white : true ≡ false → ⊥
    elim_white e = cc

pub dfs-Visited :
    (fuel : ℕ) (table : List Service) (node : ℕ) (st : Search)
    → get_elem? st.color node ≡ some white
    → whites st.color ≤ fuel
    → (st' : Search) × (dfs fuel table node st ≡ some st') × Visited table node st st'
unfolding dfs
dfs-Visited zero table node st was w = absurd (omega (arith, w, whites-set_lt st.color node was))
dfs-Visited (suc fuel) table node st was w =
    let left : whites (set st.color node gray) ≤ fuel =
      omega (arith, w, whites-set_lt st.color node was) in
    let (st2, run, t) =
      visit_deps-Turned table fuel (dfs fuel table) (dfs-Visited fuel table) (deps_of table node)
        (paint st node gray) left in
    let gray_yet : get_elem? st2.color node ≡ some gray =
      t.keeps.colors node (ap is_white (painted_self st node white gray was))
      ∙ painted_self st node white gray was in
    (
      paint st2 node black,
      rw (run, dfs) refl,
      record {
        keeps = around_node st st2 node was gray_yet t.keeps;
        finished = painted_self st2 node gray black gray_yet;
        ranks = λ z r.
            blackened-DoneRanked table st2 node gray_yet (t.resolved z)
              (t.ranks z (grayed-DoneRanked table st node was r));
      },
    )

-- No node is in progress.
abbrev pub NoGray : Search → Type 0
NoGray st = (x : ℕ) → get_elem? st.color x ≢ some gray

pub NoGray-kept : (st st' : Search) → Keeps st st' → NoGray st → NoGray st'
NoGray-kept st st' k n x e = elim (k.settled x) [
  | inl s ↦ n x (sym s ∙ e)
  | inr s ↦ clash (sym s ∙ e)
]
  where
    clash : some black ≡ some gray → ⊥
    clash e = cc

-- The nodes from one on, as far as they exist, are done.
pub record Checked (table : List Service) (k i : ℕ) (st st' : Search) : Type 0 where
  pub keeps : Keeps st st'
  pub covered : (j : ℕ) → i ≤ j → j < i + k → Resolved st' (some j)
  pub ranks : st'.cycles ≡ 0 → DoneRanked table st → DoneRanked table st'

-- Neither white nor in progress: no node, or done.
pub settled_color :
    (st : Search) (j : ℕ) (c : Option Color)
    → get_elem? st.color j ≡ c
    → is_white c ≡ false
    → c ≢ some gray
    → Resolved st (some j)
settled_color st j none e w g = inl e
settled_color st j (some white) e w g = cc
settled_color st j (some gray) e w g = absurd (g refl)
settled_color st j (some black) e w g = inr e

pub white_color : (c : Option Color) → is_white c ≡ true → c ≡ some white
white_color none h = cc
white_color (some white) h = refl
white_color (some gray) h = cc
white_color (some black) h = cc

pub check_from-Checked :
    (table : List Service) (k i : ℕ) (st : Search)
    → NoGray st
    → whites st.color ≤ length table
    → (st' : Search) × (check_from table k i st ≡ some st') × Checked table k i st st'
unfolding check_from
check_from-Checked table zero i st n w = (
  st,
  refl,
  record {
    keeps = Keeps-refl st;
    covered = λ j l h. absurd (omega (arith, l, h));
    ranks = λ z r. r;
  },
)
check_from-Checked table (suc k) i st n w = elim (Bool-cases (is_white (get_elem? st.color i))) [
  | inl e ↦
      let (st1, run1, v) =
        dfs-Visited (suc (length table)) table i st (white_color (get_elem? st.color i) e)
          (omega (arith, w)) in
      let (st2, run2, c) =
        check_from-Checked table k (suc i) st1 (NoGray-kept st st1 v.keeps n)
          (omega (arith, w, v.keeps.fewer)) in
      (
        st2,
        rw (e, run1, check_from) run2,
        record {
          keeps = Keeps-trans st st1 st2 v.keeps c.keeps;
          covered = λ j l h. elim (Bool-cases (i == j)) [
            | inl s ↦
                subst (λ x. Resolved st2 (some x)) ((==_iff i j).0 s)
                  (Resolved-kept st1 st2 (some i) c.keeps (inr v.finished))
            | inr s ↦ c.covered j (ground (arith, s, l)) (omega (arith, h))
          ];
          ranks = λ z r. c.ranks z (v.ranks (omega (arith, z, c.keeps.more)) r);
        },
      )
  | inr e ↦
      let (st2, run2, c) = check_from-Checked table k (suc i) st n w in
      (
        st2,
        rw (e, check_from) run2,
        record {
          keeps = c.keeps;
          covered = λ j l h. elim (Bool-cases (i == j)) [
            | inl s ↦
                subst (λ x. Resolved st2 (some x)) ((==_iff i j).0 s)
                  (Resolved-kept st st2 (some i) c.keeps
                    (settled_color st i (get_elem? st.color i) refl e (n i)))
            | inr s ↦ c.covered j (ground (arith, s, l)) (omega (arith, h))
          ];
          ranks = c.ranks;
        },
      )
]
