-- ===== src/Engine/Acyclic.antt =====
-- The search for cycles of dependencies ends, and where it finds none the dependencies can be ranked.
use schema_init.Prelude.{
  All-map, ℕ, zero, suc, ◌≤◌, ◌<◌, ◌≡◌, refl, sym, ◌∙◌, inl, inr, Option, none, some, List, [], ◌∷◌,
  arith, ltb, Bool-cases, length, get_elem?, replicate, length-replicate, All,
}
use mathlib.Core.Path.{subst}
use schema_init.Engine.Service.{Service}
use schema_init.Engine.Cycles.{Color, white, gray, black, Search, deps_of, services_check_cycles}
use schema_init.Engine.Ranked.{Lower, IsRanked, check_from-Silent}
use schema_init.Engine.Turns.{whites, DoneRanked, Below}
use schema_init.Engine.Ranks.{NoGray, Checked, check_from-Checked}

-- What the count of cycles says.
abbrev pub Verdict : List Service → Option ℕ → Type 0
Verdict table none = ⊥
Verdict table (some zero) = IsRanked table
Verdict table (some (suc n)) = ¬ IsRanked table

abbrev untouched : ℕ → Search
untouched n = record { color = replicate n white; cycles = 0 }

white_at : (n x : ℕ) → x < n → get_elem? (replicate n white) x ≡ some white
white_at zero x h = absurd (omega (arith, h))
white_at (suc n) zero h = refl
white_at (suc n) (suc x) h = white_at n x (omega (arith, h))

no_color : (n x : ℕ) (c : Color) → get_elem? (replicate n white) x ≡ some c → c ≡ white
no_color zero x c h = cc
no_color (suc n) zero c h = cc
no_color (suc n) (suc x) c h = no_color n x c h

whites-replicate : (n : ℕ) → whites (replicate n white) ≤ n
whites-replicate zero = omega arith
whites-replicate (suc n) = omega (arith, whites-replicate n)

untouched-DoneRanked : (table : List Service) → DoneRanked table (untouched (length table))
untouched-DoneRanked table = record {
  rank = λ x. 0;
  top = 0;
  under = λ u h. absurd (not_done u h);
  below = λ u h. absurd (not_done u h);
}
  where
    not_done : (u : ℕ) → get_elem? (replicate (length table) white) u ≡ some black → ⊥
    not_done u h = let e = no_color (length table) u black h in cc

no_gray : (n : ℕ) → NoGray (untouched n)
no_gray n x e = let h = no_color n x gray e in cc

deps_outside : (table : List Service) (u : ℕ) → length table ≤ u → deps_of table u ≡ []
deps_outside [] u h = refl
deps_outside (s ∷ ss) zero h = absurd (omega (arith, h))
deps_outside (s ∷ ss) (suc u) h = deps_outside ss u (omega (arith, h))

module _ (table : List Service) (st : Search)
    (c : Checked table (length table) 0 (untouched (length table)) st) where
  -- A service that exists has a colour in the end.
  colored : (v : ℕ) → v < length table → get_elem? st.color v ≡ none → ⊥
  colored v h e = elim (c.keeps.settled v) [
    | inl s ↦ let clash : none ≡ some white = sym e ∙ (s ∙ white_at (length table) v h) in cc
    | inr s ↦ let clash : none ≡ some black = sym e ∙ s in cc
  ]

  done_in_the_end : (v : ℕ) → v < length table → get_elem? st.color v ≡ some black
  done_in_the_end v h = elim (c.covered v (omega arith) (omega (arith, h))) [
    | inl e ↦ absurd (colored v h e)
    | inr e ↦ e
  ]

  Lower-of :
      (r : DoneRanked table st) (u : ℕ) (o : Option ℕ)
      → Below st r.rank (r.rank u) o
      → Lower (length table) r.rank u o
  Lower-of r u none b = tt
  Lower-of r u (some v) (inl e) = elim (Bool-cases (ltb v (length table))) [
    | inl l ↦ absurd (colored v (ground (arith, l)) e)
    | inr l ↦ inl (ground (arith, l))
  ]
  Lower-of r u (some v) (inr (e, l)) = inr l

  IsRanked-in_the_end : DoneRanked table st → IsRanked table
  IsRanked-in_the_end r = (
    r.rank,
    λ u. elim (Bool-cases (ltb u (length table))) [
      | inl l ↦
          All-map (λ d b. Lower-of r u d.dep_idx b) (deps_of table u)
            (r.below u (done_in_the_end u (ground (arith, l))))
      | inr l ↦
          subst (λ ds. All (λ d. Lower (length table) r.rank u d.dep_idx) ds)
            (sym (deps_outside table u (ground (arith, l)))) tt
    ],
  )

verdict_of :
    (table : List Service) (n : ℕ)
    → (n ≡ 0 → IsRanked table)
    → (IsRanked table → n ≡ 0)
    → Verdict table (some n)
verdict_of table zero h k = h refl
verdict_of table (suc n) h k = λ r. absurd (omega (arith, k r))

-- The search for cycles always ends. Where it reports none, the services can be ranked such that each
-- one's dependencies on other services rank below it, so that none waits for itself; where it reports
-- one or more, there is no such ranking.
pub services_check_cycles-Verdict :
    (table : List Service) → Verdict table (services_check_cycles table)
unfolding services_check_cycles
services_check_cycles-Verdict table =
    let start : Search = untouched (length table) in
    let (st, run, c) =
      check_from-Checked table (length table) 0 start (no_gray (length table))
        (whites-replicate (length table)) in
    rw (run, services_check_cycles)
      (verdict_of table st.cycles
        (λ z. IsRanked-in_the_end table st c (c.ranks z (untouched-DoneRanked table)))
        (λ r.
          (check_from-Silent table r.0 r.1 (length table) 0 start st run
            (length-replicate (length table) white) (no_gray (length table))).same))
