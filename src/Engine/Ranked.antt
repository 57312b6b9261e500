-- ===== src/Engine/Ranked.antt =====
-- Where the dependencies can be ranked, the search for cycles reports none.
use schema_init.Prelude.{
  ℕ, zero, suc, ◌+◌, ◌≤◌, ◌<◌, ◌≡◌, refl, ap, ◌∙◌, ◌≢◌, ◌⊎◌, inl, inr, Option, none, some, List, [],
  ◌∷◌, arith, Bool-cases, Option-cases, length, get_elem?, set, length-set, All,
}
use mathlib.Core.Path.{subst}
use schema_init.Engine.Service.{Dep, Service}
use schema_init.Engine.Cycles.{
  Color, white, gray, black, Search, paint, deps_of, is_white, visit_dep, visit_deps, dfs,
  check_from,
}
use schema_init.Engine.Painting.{in_range}

-- A dependency on no service, or on one of a lower rank; `n` services there are.
abbrev pub Lower : ℕ → (ℕ → ℕ) → ℕ → Option ℕ → Type 0
Lower n rank u none = Unit {0}
Lower n rank u (some v) = (n ≤ v) ⊎ (rank v < rank u)

-- Ranks of the services such that each one's dependencies rank below it.
abbrev pub IsRanked : List Service → Type 0
IsRanked table =
    (rank : ℕ → ℕ) × ((u : ℕ) → All (λ d. Lower (length table) rank u d.dep_idx) (deps_of table u))

set_gray :
    (cs : List Color) (i x : ℕ)
    → get_elem? (set cs i gray) x ≡ some gray
    → (x ≡ i) ⊎ (get_elem? cs x ≡ some gray)
set_gray [] i x h = inr h
set_gray (c ∷ cs) zero zero h = inl refl
set_gray (c ∷ cs) zero (suc x) h = inr h
set_gray (c ∷ cs) (suc i) zero h = inr h
set_gray (c ∷ cs) (suc i) (suc x) h = elim (set_gray cs i x h) [
  | inl e ↦ inl (ap suc e)
  | inr e ↦ inr e
]

set_black :
    (cs : List Color) (i x : ℕ)
    → get_elem? (set cs i black) x ≡ some gray
    → (x ≢ i) × (get_elem? cs x ≡ some gray)
set_black [] i x h = cc
set_black (c ∷ cs) zero zero h = cc
set_black (c ∷ cs) zero (suc x) h = (λ e. absurd (omega (arith, e)), h)
set_black (c ∷ cs) (suc i) zero h = (λ e. absurd (omega (arith, e)), h)
set_black (c ∷ cs) (suc i) (suc x) h =
    let r = set_black cs i x h in (λ e. r.0 (omega (arith, e)), r.1)

-- A search that reports no cycle and leaves no node in progress.
pub record Silent (st st' : Search) : Type 0 where
  pub same : st'.cycles ≡ st.cycles
  pub grays : (x : ℕ) → get_elem? st'.color x ≡ some gray → get_elem? st.color x ≡ some gray
  pub size : length st'.color ≡ length st.color

Silent-refl : (st : Search) → Silent st st
Silent-refl st = record { same = refl; grays = λ x h. h; size = refl }

Silent-trans : (a b c : Search) → Silent a b → Silent b c → Silent a c
Silent-trans a b c f g = record {
  same = g.same ∙ f.same;
  grays = λ x h. f.grays x (g.grays x h);
  size = g.size ∙ f.size;
}

module _ (table : List Service) (rank : ℕ → ℕ)
    (ranked : (u : ℕ) → All (λ d. Lower (length table) rank u d.dep_idx) (deps_of table u)) where
  abbrev GraysFrom : ℕ → Search → Type 0
  GraysFrom bound st = (x : ℕ) → get_elem? st.color x ≡ some gray → bound ≤ rank x

  module _ (rec : ℕ → Search → Option Search)
      (silent : (dep : ℕ) (st st' : Search)
        → rec dep st ≡ some st'
        → length st.color ≡ length table
        → GraysFrom (rank dep + 1) st
        → Silent st st') where
    visit_known :
        (node v : ℕ) (st st' : Search) (c : Option Color)
        → get_elem? st.color v ≡ c
        → visit_dep rec (some v) st ≡ some st'
        → length st.color ≡ length table
        → GraysFrom (rank node) st
        → Lower (length table) rank node (some v)
        → Silent st st'
    unfolding visit_dep
    visit_known node v st st' none e run s g l =
        let eq : some st ≡ some st' = rw (e, visit_dep) at run in
        let eq' : st ≡ st' = cc in subst (λ x. Silent st x) eq' (Silent-refl st)
    visit_known node v st st' (some black) e run s g l =
        let eq : some st ≡ some st' = rw (e, visit_dep) at run in
        let eq' : st ≡ st' = cc in subst (λ x. Silent st x) eq' (Silent-refl st)
    visit_known node v st st' (some gray) e run s g (inl n) =
        absurd (omega (arith, n, s, in_range st.color v gray e))
    visit_known node v st st' (some gray) e run s g (inr n) = absurd (omega (arith, n, g v e))
    visit_known node v st st' (some white) e run s g (inl n) =
        absurd (omega (arith, n, s, in_range st.color v white e))
    visit_known node v st st' (some white) e run s g (inr n) =
        let eq : rec v st ≡ some st' = rw (e, visit_dep) at run in
        silent v st st' eq s (λ x h. omega (arith, n, g x h))

    visit_dep-Silent :
        (node : ℕ) (o : Option ℕ) (st st' : Search)
        → visit_dep rec o st ≡ some st'
        → length st.color ≡ length table
        → GraysFrom (rank node) st
        → Lower (length table) rank node o
        → Silent st st'
    unfolding visit_dep
    visit_dep-Silent node none st st' run s g l =
        let eq : st ≡ st' = cc in subst (λ x. Silent st x) eq (Silent-refl st)
    visit_dep-Silent node (some v) st st' run s g l =
        visit_known node v st st' (get_elem? st.color v) refl run s g l

    visit_deps-Silent :
        (node : ℕ) (ds : List Dep) (st st' : Search)
        → visit_deps rec ds st ≡ some st'
        → length st.color ≡ length table
        → GraysFrom (rank node) st
        → All (λ d. Lower (length table) rank node d.dep_idx) ds
        → Silent st st'
    unfolding visit_deps
    visit_deps-Silent node [] st st' run s g l =
        let eq : st ≡ st' = cc in subst (λ x. Silent st x) eq (Silent-refl st)
    visit_deps-Silent node (d ∷ ds) st st' run s g l =
        elim (Option-cases (visit_dep rec d.dep_idx st)) [
          | inl e ↦ let eq : none ≡ some st' = rw (e, visit_deps) at run in cc
          | inr (s1, e) ↦
              let eq : visit_deps rec ds s1 ≡ some st' = rw (e, visit_deps) at run in
              let one = visit_dep-Silent node d.dep_idx st s1 e s g l.0 in
              Silent-trans st s1 st' one (
                visit_deps-Silent node ds s1 st' eq (one.size ∙ s) (λ x h. g x (one.grays x h)) l.1)
        ]

  -- The node itself is painted gray, then black.
  painted-Silent :
      (node : ℕ) (st st2 : Search)
      → Silent (paint st node gray) st2
      → Silent st (paint st2 node black)
  painted-Silent node st st2 k = record {
    same = k.same;
    grays = λ x h.
        let (other, yet) = set_black st2.color node x h in
        elim (set_gray st.color node x (k.grays x yet)) [ inl e ↦ absurd (other e) | inr e ↦ e ];
    size = length-set st2.color node black ∙ (k.size ∙ length-set st.color node gray);
  }

  dfs-Silent :
      (fuel node : ℕ) (st st' : Search)
      → dfs fuel table node st ≡ some st'
      → length st.color ≡ length table
      → GraysFrom (rank node + 1) st
      → Silent st st'
  unfolding dfs
  dfs-Silent zero node st st' run s g = cc
  dfs-Silent (suc fuel) node st st' run s g =
      elim (Option-cases (visit_deps (dfs fuel table) (deps_of table node) (paint st node gray))) [
        | inl e ↦ let eq : none ≡ some st' = rw (e, dfs) at run in cc
        | inr (st2, e) ↦
            let eq : some (paint st2 node black) ≡ some st' = rw (e, dfs) at run in
            let eq' : paint st2 node black ≡ st' = cc in
            subst (λ x. Silent st x) eq'
              (painted-Silent node st st2 (
                visit_deps-Silent (dfs fuel table) (dfs-Silent fuel) node (deps_of table node)
                  (paint st node gray) st2 e (length-set st.color node gray ∙ s)
                  (λ x h. elim (set_gray st.color node x h) [
                    | inl i ↦ omega (arith, ap rank i)
                    | inr i ↦ omega (arith, g x i)
                  ])
                  (ranked node)))
      ]

  pub check_from-Silent :
      (k i : ℕ) (st st' : Search)
      → check_from table k i st ≡ some st'
      → length st.color ≡ length table
      → ((x : ℕ) → get_elem? st.color x ≢ some gray)
      → Silent st st'
  unfolding check_from
  check_from-Silent zero i st st' run s n =
      let eq : st ≡ st' = cc in subst (λ x. Silent st x) eq (Silent-refl st)
  check_from-Silent (suc k) i st st' run s n = elim (Bool-cases (is_white (get_elem? st.color i))) [
    | inl e ↦ elim (Option-cases (dfs (suc (length table)) table i st)) [
      | inl d ↦ let eq : none ≡ some st' = rw (e, d, check_from) at run in cc
      | inr (s1, d) ↦
          let eq : check_from table k (suc i) s1 ≡ some st' = rw (e, d, check_from) at run in
          let one = dfs-Silent (suc (length table)) i st s1 d s (λ x h. absurd (n x h)) in
          Silent-trans st s1 st' one
            (check_from-Silent k (suc i) s1 st' eq (one.size ∙ s) (λ x h. n x (one.grays x h)))
    ]
    | inr e ↦
        let eq : check_from table k (suc i) st ≡ some st' = rw (e, check_from) at run in
        check_from-Silent k (suc i) st st' eq s n
  ]
