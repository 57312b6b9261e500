-- ===== src/Recorder/Culprits.antt =====
-- recorder_logic.h: how often a culprit was seen in the last week.
use schema_init.Prelude.{
  ◌+◌, one_if, ◌&&◌, ℕ, zero, suc, ◌-◌, ◌*◌, ◌≤◌, ◌<◌, ◌≡◌, refl, inl, inr, Bool, true, Option,
  none, some, List, [], ◌∷◌, ◌++◌, arith, ltb, leb, ◌==◌, if◌then◌else◌, Bool-cases, Option-cases,
  length, get_elem?, set, take, drop, length-append, length-set, All, Bytes, str_eq,
}
use mathlib.Core.Path.{subst}

abbrev pub week : ℕ
week = 7 * 86400

-- One row of the table: its key and its times, at most 32.
pub record Culprit : Type 0 where
  pub key : Bytes
  pub ts : List ℕ

-- Where the week begins.
abbrev pub week_floor : ℕ → ℕ
week_floor now = if ltb week now then now - week else 0

unfoldable pub find_key : List Culprit → Bytes → Option ℕ
find_key [] key = none
find_key (c ∷ cs) key =
    let rest = find_key cs key in
    if str_eq c.key key then some 0 else elim rest [ none ↦ none | some i ↦ some (suc i) ]

unfoldable pub newest_ts : ℕ → List ℕ → ℕ
newest_ts best [] = best
newest_ts best (t ∷ ts) = newest_ts (if ltb best t then t else best) ts

-- The row to give up: the first that is over a week old, or else the one seen longest ago. `i` is the
-- next index, `bi` and `best` the loop's variables.
unfoldable pub evict_from : ℕ → ℕ → Option ℕ → ℕ → List Culprit → Option ℕ
unfolding newest_ts
evict_from floor i bi best [] = bi
evict_from floor i bi best (c ∷ cs) =
    let newest = newest_ts 0 c.ts in
    let older : Bool = elim bi [ none ↦ true | some b ↦ ltb newest best ] in
    let took = evict_from floor (suc i) (some i) newest cs in
    let left = evict_from floor (suc i) bi best cs in
    if ltb newest floor then some i else if older then took else left

unfoldable pub keep_from : ℕ → List ℕ → List ℕ
keep_from floor [] = []
keep_from floor (t ∷ ts) = let rest = keep_from floor ts in if leb floor t then t ∷ rest else rest

-- The tail of the function: the old times go, one more if 32 are left, and the new one comes.
unfoldable pub see : ℕ → ℕ → Culprit → Culprit
unfolding keep_from
see floor t c =
    let kept = keep_from floor c.ts in
    let room = if length kept == 32 then drop 1 kept else kept in
    record c { ts = if leb floor t then room ++ t ∷ [] else room }

abbrev pub blank_row : Bytes → Culprit
blank_row key = record { key = take 63 key; ts = [] }

-- The row is written back, with the count of its times.
abbrev pub seen_at : List Culprit → ℕ → Culprit → List Culprit × ℕ
seen_at tab i c = (set tab i c, length c.ts)

-- `rec_culprit_count`; `none` is the write before the table that a table without room would ask for.
unfoldable pub rec_culprit_count : List Culprit → ℕ → Bytes → ℕ → ℕ → Option (List Culprit × ℕ)
unfolding find_key evict_from see
rec_culprit_count tab max key t now =
    let floor = week_floor now in
    elim (find_key tab key) [
      | some i ↦ elim (get_elem? tab i) [
        | none ↦ none
        | some c ↦ some (seen_at tab i (see floor t c))
      ]
      | none ↦
          if ltb t floor
          then some (tab, 0)
          else if ltb (length tab) max
          then some
              (tab ++ see floor t (blank_row key) ∷ [], length (see floor t (blank_row key)).ts)
          else elim (evict_from floor 0 none 0 tab) [
            | none ↦ none
            | some i ↦ some (seen_at tab i (see floor t (blank_row key)))
          ]
    ]

-- The times of a row between two times, both included.
unfoldable pub times_within : ℕ → ℕ → List ℕ → ℕ
times_within lo hi [] = 0
times_within lo hi (t ∷ ts) = one_if (leb lo t && leb t hi) + times_within lo hi ts

unfoldable pub rec_culprit_seen : List Culprit → Bytes → ℕ → ℕ → ℕ
unfolding times_within
rec_culprit_seen [] key lo hi = 0
rec_culprit_seen (c ∷ cs) key lo hi =
    (if str_eq c.key key then times_within lo hi c.ts else 0) + rec_culprit_seen cs key lo hi

times_within_le : (lo hi : ℕ) (ts : List ℕ) → times_within lo hi ts ≤ length ts
unfolding times_within
times_within_le lo hi [] = omega arith
times_within_le lo hi (t ∷ ts) = ground (arith, times_within_le lo hi ts)

-- A row within its bounds.
abbrev pub RowFits : Culprit → Type 0
RowFits c = length c.ts ≤ 32

-- The table within its bounds.
pub record TabFits (max : ℕ) (tab : List Culprit) : Type 0 where
  pub rows : length tab ≤ max
  pub times : All RowFits tab

keep_from-length : (floor : ℕ) (ts : List ℕ) → length (keep_from floor ts) ≤ length ts
unfolding keep_from
keep_from-length floor [] = omega arith
keep_from-length floor (t ∷ ts) = ground (arith, keep_from-length floor ts)

length-drop_one : (xs : List ℕ) → length (drop 1 xs) ≡ length xs - 1
length-drop_one [] = refl
length-drop_one (x ∷ xs) = omega arith

see-RowFits : (floor t : ℕ) (c : Culprit) → RowFits c → RowFits (see floor t c)
unfolding see
see-RowFits floor t c h =
    let kept = keep_from floor c.ts in
    ground (
      arith,
      h,
      keep_from-length floor c.ts,
      length-drop_one kept,
      length-append kept (t ∷ []),
      length-append (drop 1 kept) (t ∷ []),
    )

All-set :
    (tab : List Culprit) (i : ℕ) (c : Culprit)
    → All RowFits tab
    → RowFits c
    → All RowFits (set tab i c)
All-set [] i c a h = tt
All-set (x ∷ tab) zero c a h = (h, a.1)
All-set (x ∷ tab) (suc i) c a h = (a.0, All-set tab i c a.1 h)

All-get :
    (tab : List Culprit) (i : ℕ) (c : Culprit)
    → All RowFits tab
    → get_elem? tab i ≡ some c
    → RowFits c
All-get [] i c a g = cc
All-get (x ∷ tab) zero c a g = let same : x ≡ c = cc in subst RowFits same a.0
All-get (x ∷ tab) (suc i) c a g = All-get tab i c a.1 g

found_later :
    (c : Culprit) (cs : List Culprit) (key : Bytes) (i : ℕ)
    → find_key (c ∷ cs) key ≡ some (suc i)
    → find_key cs key ≡ some i
unfolding find_key
found_later c cs key i h = ground arith

find_key-get :
    (tab : List Culprit) (key : Bytes) (i : ℕ)
    → find_key tab key ≡ some i
    → (c : Culprit) × (get_elem? tab i ≡ some c)
unfolding find_key
find_key-get [] key i h = cc
find_key-get (c ∷ cs) key zero h = (c, refl)
find_key-get (c ∷ cs) key (suc i) h = find_key-get cs key i (found_later c cs key i h)

evict_from-some :
    (floor i b best : ℕ) (tab : List Culprit)
    → (k : ℕ) × (evict_from floor i (some b) best tab ≡ some k)
unfolding evict_from
evict_from-some floor i b best [] = (b, refl)
evict_from-some floor i b best (c ∷ cs) =
    let newest = newest_ts 0 c.ts in
    elim (Bool-cases (ltb newest floor)) [
      | inl p ↦ (i, rw p refl)
      | inr p ↦ elim (Bool-cases (ltb newest best)) [
        | inl q ↦ let (k, e) = evict_from-some floor (suc i) i newest cs in (k, rw (p, q) e)
        | inr q ↦ let (k, e) = evict_from-some floor (suc i) b best cs in (k, rw (p, q) e)
      ]
    ]

-- A table that is not empty has a row to give up.
evict_from-row :
    (floor i best : ℕ) (tab : List Culprit)
    → 0 < length tab
    → (k : ℕ) × (evict_from floor i none best tab ≡ some k)
unfolding evict_from
evict_from-row floor i best [] h = absurd (omega (arith, h))
evict_from-row floor i best (c ∷ cs) h =
    let newest = newest_ts 0 c.ts in
    elim (Bool-cases (ltb newest floor)) [
      | inl p ↦ (i, rw p refl)
      | inr p ↦ let (k, e) = evict_from-some floor (suc i) i newest cs in (k, rw p e)
    ]

All-append :
    (tab : List Culprit) (c : Culprit) → All RowFits tab → RowFits c → All RowFits (tab ++ c ∷ [])
All-append [] c a h = (h, tt)
All-append (x ∷ tab) c a h = (a.0, All-append tab c a.1 h)

abbrev Counted : ℕ → Option (List Culprit × ℕ) → Type 0
Counted max out =
    (tab : List Culprit) × (n : ℕ) × (out ≡ some (tab, n)) × TabFits max tab × (n ≤ 32)

-- On a table with room for a row a count always succeeds; the table keeps to its rows and each row
-- to its 32 times, and the count returned is at most 32.
pub rec_culprit_count-TabFits :
    (tab : List Culprit) (max : ℕ) (key : Bytes) (t now : ℕ)
    → 0 < max
    → TabFits max tab
    → Counted max (rec_culprit_count tab max key t now)
unfolding rec_culprit_count
rec_culprit_count-TabFits tab max key t now pos fits =
    let floor = week_floor now in
    let new = see floor t (blank_row key) in
    let new_fits = see-RowFits floor t (blank_row key) (omega arith) in
    elim (Option-cases (find_key tab key)) [
      | inr (i, f) ↦
          let (c, g) = find_key-get tab key i f in
          let row = see-RowFits floor t c (All-get tab i c fits.times g) in
          (
            set tab i (see floor t c),
            length (see floor t c).ts,
            rw (f, g, rec_culprit_count) refl,
            record {
              rows = omega (arith, length-set tab i (see floor t c), fits.rows);
              times = All-set tab i (see floor t c) fits.times row;
            },
            row,
          )
      | inl f ↦ elim (Bool-cases (ltb t floor)) [
        | inl o ↦ (tab, 0, rw (f, o, rec_culprit_count) refl, fits, omega arith)
        | inr o ↦ elim (Bool-cases (ltb (length tab) max)) [
          | inl r ↦ (
            tab ++ new ∷ [],
            length new.ts,
            rw (f, o, r, rec_culprit_count) refl,
            record {
              rows = ground (arith, length-append tab (new ∷ []));
              times = All-append tab new fits.times new_fits;
            },
            new_fits,
          )
          | inr r ↦
              let (k, e) = evict_from-row floor 0 0 tab (ground arith) in
              (
                set tab k new,
                length new.ts,
                rw (f, o, r, e, rec_culprit_count) refl,
                record {
                  rows = omega (arith, length-set tab k new, fits.rows);
                  times = All-set tab k new fits.times new_fits;
                },
                new_fits,
              )
        ]
      ]
    ]

-- What is seen of a culprit is at most 32 times per row of the table.
pub rec_culprit_seen_le :
    (tab : List Culprit) (key : Bytes) (lo hi : ℕ)
    → All RowFits tab
    → rec_culprit_seen tab key lo hi ≤ 32 * length tab
unfolding rec_culprit_seen
rec_culprit_seen_le [] key lo hi a = omega arith
rec_culprit_seen_le (c ∷ cs) key lo hi a =
    ground (arith, times_within_le lo hi c.ts, a.0, rec_culprit_seen_le cs key lo hi a.1)
