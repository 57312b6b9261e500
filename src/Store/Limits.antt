-- ===== src/Store/Limits.antt =====
-- The limits of the descriptor store, and what leaves it.
use schema_init.Prelude.{
  ℕ, ◌+◌, ◌≤◌, ◌<◌, ◌≡◌, refl, sym, ap, ◌∙◌, inl, inr, true, false, Option, none, some, List, [],
  ◌∷◌, ◌++◌, arith, Bool-cases, one_if, length, length-append, Bytes, str_eq, str_eq_iff,
  str_eq_refl,
}
use mathlib.Core.Path.{subst}
use schema_init.Store.{
  StoreEnt, fdstore_count, fdstore_add, fdstore_take, fdstore_drop, refuses, fdstore_valid_name,
  max_total, name_or_stored, fdstore_room,
}

count-append :
    (es : List StoreEnt) (e : StoreEnt) (svc : Bytes)
    → fdstore_count (es ++ e ∷ []) svc ≡ fdstore_count es svc + one_if (str_eq e.svc svc)
unfolding fdstore_count
count-append [] e svc = omega arith
count-append (x ∷ es) e svc = omega (arith, count-append es e svc)

accepted :
    (limit : Option ℕ) (store : List StoreEnt) (svc : Bytes) (fd : ℕ) (name : Bytes) (max : ℕ)
    → refuses limit store svc fd name max ≡ false
    → (fdstore_count store svc < max)
      × (length store < max_total)
      × (fdstore_valid_name name ≡ true)
      × (fdstore_room limit fd ≡ true)
unfolding refuses
accepted limit store svc fd name max r = (ground arith, ground arith, ground arith, ground arith)

some-injective {ℓ} : {A : Type ℓ} {x y : A} → some x ≡ some y → x ≡ y
some-injective {A} p = cc

abbrev pub Added : Option ℕ → List StoreEnt → Bytes → Bytes → ℕ → Bytes → ℕ → List StoreEnt → Type 0
Added limit store svc other fd name max store' =
    (fdstore_count store' svc ≡ fdstore_count store svc + 1)
    × (fdstore_count store' svc ≤ max)
    × (length store' ≤ max_total)
    × (fdstore_valid_name (name_or_stored name) ≡ true)
    × (fdstore_room limit fd ≡ true)
    × (fdstore_count store' other ≡ fdstore_count store other)

-- A descriptor that is taken in has a valid name and leaves room for PID 1; its service then
-- holds one more, at most its own maximum, a service of another name holds as many as before, and
-- the store has at most 4096.
pub fdstore_add-limits :
    (limit : Option ℕ) (store store' : List StoreEnt) (svc other : Bytes) (fd : ℕ) (name : Bytes)
    (max : ℕ)
    → str_eq svc other ≡ false
    → fdstore_add limit store svc fd name max ≡ some store'
    → (fdstore_count store' svc ≡ fdstore_count store svc + 1)
      × (fdstore_count store' svc ≤ max)
      × (length store' ≤ max_total)
      × (fdstore_valid_name (name_or_stored name) ≡ true)
      × (fdstore_room limit fd ≡ true)
      × (fdstore_count store' other ≡ fdstore_count store other)
unfolding fdstore_add
fdstore_add-limits limit store store' svc other fd name max ne h =
    let new : StoreEnt = record { svc = svc; name = name_or_stored name; fd = fd } in
    elim (Bool-cases (refuses limit store svc fd (name_or_stored name) max)) [
      | inl r ↦ let no : none ≡ some store' = sym (rw r refl) ∙ h in cc
      | inr r ↦
          let grown : store ++ new ∷ [] ≡ store' = some-injective (sym (rw r refl) ∙ h) in
          let one : fdstore_count (store ++ new ∷ []) svc ≡ fdstore_count store svc + 1 =
            count-append store new svc
            ∙ ap (λ b. fdstore_count store svc + one_if b) (str_eq_refl svc) in
          let (more, room, name_ok, fd_ok) =
            accepted limit store svc fd (name_or_stored name) max r in
          subst (Added limit store svc other fd name max) grown (
            one,
            omega (arith, one, more),
            omega (arith, length-append store (new ∷ []), room),
            name_ok,
            fd_ok,
            count-append store new other ∙ rw ne (omega arith),
          )
    ]

-- Nothing of a service stays when it is dropped, and everything of the others does.
pub fdstore_drop-counts :
    (store : List StoreEnt) (svc other : Bytes)
    → str_eq svc other ≡ false
    → (fdstore_count (fdstore_drop store svc).0 svc ≡ 0)
      × (length (fdstore_drop store svc).1 ≡ fdstore_count store svc)
      × (fdstore_count (fdstore_drop store svc).0 other ≡ fdstore_count store other)
unfolding fdstore_drop fdstore_take fdstore_count
fdstore_drop-counts [] svc other ne = (refl, refl, refl)
fdstore_drop-counts (e ∷ es) svc other ne =
    let (none_left, gone, others) = fdstore_drop-counts es svc other ne in
    elim (Bool-cases (str_eq e.svc svc)) [
      | inl b ↦
          let same : str_eq e.svc other ≡ str_eq svc other =
            ap (λ x. str_eq x other) ((str_eq_iff e.svc svc).0 b) in
          rw b (none_left, omega (arith, gone), rw (same, ne) (others ∙ omega arith))
      | inr b ↦ rw b (
        rw b (omega (arith, none_left)),
        omega (arith, gone),
        ap (λ n. one_if (str_eq e.svc other) + n) others,
      )
    ]
