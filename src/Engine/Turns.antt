-- ===== src/Engine/Turns.antt =====
-- The search for cycles, over the dependencies of one node.
use schema_init.Prelude.{
  ℕ, zero, suc, ◌+◌, ◌≤◌, ◌<◌, ◌≡◌, refl, ap, ◌∙◌, ◌⊎◌, inl, inr, false, Option, none, some, List,
  [], ◌∷◌, arith, one_if, get_elem?, set, All,
}
use schema_init.Engine.Service.{Dep, Service}
use schema_init.Engine.Cycles.{
  Color, white, gray, black, Search, deps_of, visit_dep, visit_deps, is_white,
}

abbrev pub whites : List Color → ℕ
whites [] = 0
whites (c ∷ cs) = one_if (is_white (some c)) + whites cs

pub whites-set_le :
    (cs : List Color) (i : ℕ) (c : Color)
    → is_white (some c) ≡ false
    → whites (set cs i c) ≤ whites cs
whites-set_le [] i c h = omega arith
whites-set_le (x ∷ cs) zero c h = rw h (omega arith)
whites-set_le (x ∷ cs) (suc i) c h = omega (arith, whites-set_le cs i c h)

pub whites-set_lt :
    (cs : List Color) (i : ℕ) → get_elem? cs i ≡ some white → whites (set cs i gray) + 1 ≡ whites cs
whites-set_lt [] i h = cc
whites-set_lt (x ∷ cs) zero h = let e : x ≡ white = cc in rw e (omega arith)
whites-set_lt (x ∷ cs) (suc i) h = omega (arith, whites-set_lt cs i h)

-- What a step of the search keeps: the nodes that are not white, the count of cycles but for more.
pub record Keeps (st st' : Search) : Type 0 where
  pub colors :
      (x : ℕ)
      → is_white (get_elem? st.color x) ≡ false
      → get_elem? st'.color x ≡ get_elem? st.color x
  pub settled :
      (x : ℕ)
      → (get_elem? st'.color x ≡ get_elem? st.color x) ⊎ (get_elem? st'.color x ≡ some black)
  pub fewer : whites st'.color ≤ whites st.color
  pub more : st.cycles ≤ st'.cycles

pub Keeps-refl : (st : Search) → Keeps st st
Keeps-refl st = record {
  colors = λ x h. refl;
  settled = λ x. inl refl;
  fewer = omega arith;
  more = omega arith;
}

pub Keeps-trans : (a b c : Search) → Keeps a b → Keeps b c → Keeps a c
Keeps-trans a b c f g = record {
  colors = λ x h. g.colors x (ap is_white (f.colors x h) ∙ h) ∙ f.colors x h;
  settled = λ x. elim (g.settled x) [
    | inl e ↦ elim (f.settled x) [ inl d ↦ inl (e ∙ d) | inr d ↦ inr (e ∙ d) ]
    | inr e ↦ inr e
  ];
  fewer = omega (arith, f.fewer, g.fewer);
  more = omega (arith, f.more, g.more);
}

-- A dependency on no node, or on one that is done.
abbrev pub Resolved : Search → Option ℕ → Type 0
Resolved st none = Unit {0}
Resolved st (some v) = (get_elem? st.color v ≡ none) ⊎ (get_elem? st.color v ≡ some black)

pub Resolved-kept : (st st' : Search) (o : Option ℕ) → Keeps st st' → Resolved st o → Resolved st' o
Resolved-kept st st' none k r = tt
Resolved-kept st st' (some v) k (inl e) = inl (k.colors v (ap is_white e) ∙ e)
Resolved-kept st st' (some v) k (inr e) = inr (k.colors v (ap is_white e) ∙ e)

-- A dependency on no node, or on one that is done and ranks below.
abbrev pub Below : Search → (ℕ → ℕ) → ℕ → Option ℕ → Type 0
Below st rank bound none = Unit {0}
Below st rank bound (some v) =
    (get_elem? st.color v ≡ none) ⊎ ((get_elem? st.color v ≡ some black) × rank v < bound)

-- The nodes that are done have ranks below `top`, each above those of its dependencies, all done.
pub record DoneRanked (table : List Service) (st : Search) : Type 0 where
  pub rank : ℕ → ℕ
  pub top : ℕ
  pub under : (u : ℕ) → get_elem? st.color u ≡ some black → rank u < top
  pub below :
      (u : ℕ)
      → get_elem? st.color u ≡ some black
      → All (λ d. Below st rank (rank u) d.dep_idx) (deps_of table u)

-- What a search from a node leaves.
pub record Visited (table : List Service) (node : ℕ) (st st' : Search) : Type 0 where
  pub keeps : Keeps st st'
  pub finished : get_elem? st'.color node ≡ some black
  pub ranks : st'.cycles ≡ 0 → DoneRanked table st → DoneRanked table st'

-- What a turn over dependencies leaves.
pub record Turned (table : List Service) (P : Search → Type 0) (st st' : Search) : Type 0 where
  pub keeps : Keeps st st'
  pub resolved : st'.cycles ≡ 0 → P st'
  pub ranks : st'.cycles ≡ 0 → DoneRanked table st → DoneRanked table st'

module _ (table : List Service) (fuel : ℕ) (rec : ℕ → Search → Option Search)
    (ends : (dep : ℕ) (st : Search)
      → get_elem? st.color dep ≡ some white
      → whites st.color ≤ fuel
      → (st' : Search) × (rec dep st ≡ some st') × Visited table dep st st') where
  pub visit_known :
      (dep : ℕ) (st : Search) (c : Option Color)
      → get_elem? st.color dep ≡ c
      → whites st.color ≤ fuel
      → (st' : Search) × (visit_dep rec (some dep) st ≡ some st')
        × Turned table (λ s. Resolved s (some dep)) st st'
  unfolding visit_dep
  visit_known dep st none e w = (
    st,
    rw (e, visit_dep) refl,
    record { keeps = Keeps-refl st; resolved = λ z. inl e; ranks = λ z r. r },
  )
  visit_known dep st (some white) e w =
      let (st', run, v) = ends dep st e w in
      (
        st',
        rw (e, visit_dep) run,
        record { keeps = v.keeps; resolved = λ z. inr v.finished; ranks = v.ranks },
      )
  visit_known dep st (some gray) e w = (
    record st { cycles = st.cycles + 1 },
    rw (e, visit_dep) refl,
    record {
      keeps = record {
        colors = λ x h. refl;
        settled = λ x. inl refl;
        fewer = omega arith;
        more = omega arith;
      };
      resolved = λ z. absurd (omega (arith, z));
      ranks = λ z r. absurd (omega (arith, z));
    },
  )
  visit_known dep st (some black) e w = (
    st,
    rw (e, visit_dep) refl,
    record { keeps = Keeps-refl st; resolved = λ z. inr e; ranks = λ z r. r },
  )

  pub visit_dep-Turned :
      (o : Option ℕ) (st : Search)
      → whites st.color ≤ fuel
      → (st' : Search) × (visit_dep rec o st ≡ some st') × Turned table (λ s. Resolved s o) st st'
  unfolding visit_dep
  visit_dep-Turned none st w =
      (st, refl, record { keeps = Keeps-refl st; resolved = λ z. tt; ranks = λ z r. r })
  visit_dep-Turned (some dep) st w = visit_known dep st (get_elem? st.color dep) refl w

  pub visit_deps-Turned :
      (ds : List Dep) (st : Search)
      → whites st.color ≤ fuel
      → (st' : Search) × (visit_deps rec ds st ≡ some st')
        × Turned table (λ s. All (λ d. Resolved s d.dep_idx) ds) st st'
  unfolding visit_deps
  visit_deps-Turned [] st w =
      (st, refl, record { keeps = Keeps-refl st; resolved = λ z. tt; ranks = λ z r. r })
  visit_deps-Turned (d ∷ ds) st w =
      let (s1, run1, t1) = visit_dep-Turned d.dep_idx st w in
      let (s2, run2, t2) = visit_deps-Turned ds s1 (omega (arith, w, t1.keeps.fewer)) in
      (
        s2,
        rw (run1, visit_deps) run2,
        record {
          keeps = Keeps-trans st s1 s2 t1.keeps t2.keeps;
          resolved = λ z. (
            Resolved-kept s1 s2 d.dep_idx t2.keeps (t1.resolved (omega (arith, z, t2.keeps.more))),
            t2.resolved z,
          );
          ranks = λ z r. t2.ranks z (t1.ranks (omega (arith, z, t2.keeps.more)) r);
        },
      )
