-- ===== src/Recorder/Episodes.antt =====
-- recorder_logic.h: pressure episodes, and the processes that used the most time.
use schema_init.Prelude.{
  ℕ, zero, suc, ◌+◌, ◌-◌, ◌%◌, ◌^◌, ◌≤◌, ◌<◌, ◌≡◌, refl, inl, inr, Bool, true, false, ◌&&◌, ◌||◌,
  Option, none, some, List, [], ◌∷◌, ◌++◌, arith, ltb, leb, ◌==◌, if◌then◌else◌, Bool-cases, length,
  take, length-take_le, All, Bytes, str_eq,
}
use schema_init.Recorder.Events.{ℤ, pos, negsuc}

abbrev pub eq_pid : ℤ → ℤ → Bool
eq_pid (pos m) (pos n) = m == n
eq_pid (pos m) (negsuc n) = false
eq_pid (negsuc m) (pos n) = false
eq_pid (negsuc m) (negsuc n) = m == n

pub record Proc : Type 0 where
  pub pid : ℤ
  pub comm : Bytes
  pub ticks : ℕ

pub record Hog : Type 0 where
  pub comm : Bytes
  pub count : ℕ
  pub ticks : ℕ
  pub top_ticks : ℕ
  pub top_pid : ℤ

-- `overlapped` is set by the recorder when a crash falls into the episode.
pub record Episode : Type 0 where
  pub active : Bool
  pub kind : ℕ
  pub start_mono : ℕ
  pub last_fire_mono : ℕ
  pub start_wall : ℕ
  pub overlapped : Bool

unfoldable pub rec_episode_fire : Episode → ℕ → ℕ → ℕ → Episode
rec_episode_fire ep kind mono wall =
    if ep.active then record ep { last_fire_mono = mono } else record {
      active = true;
      kind = kind % 256;
      start_mono = mono;
      last_fire_mono = mono;
      start_wall = wall;
      overlapped = false;
    }

-- The differences are of unsigned 64-bit numbers.
abbrev pub wrapped : ℕ → ℕ → ℕ
wrapped a b = (a + 2 ^ 64 - b) % 2 ^ 64

unfoldable pub rec_episode_check : Episode → ℕ → Bool
rec_episode_check ep mono = ep.active && leb 30 (wrapped mono ep.last_fire_mono)

unfoldable pub rec_episode_arrow : Episode → ℕ → Bool
rec_episode_arrow ep end_mono =
    let last = if ltb ep.last_fire_mono end_mono then ep.last_fire_mono else end_mono in
    ep.overlapped || leb 120 (wrapped last ep.start_mono)

-- The process with the pid and the name of `p` in the earlier list.
unfoldable pub find_proc : List Proc → Proc → Option Proc
find_proc [] p = none
find_proc (a ∷ olds) p =
    let rest = find_proc olds p in
    if eq_pid a.pid p.pid && str_eq a.comm p.comm then some a else rest

-- One process goes to its group, or to a new one while there are fewer than 512.
unfoldable pub add_hog : Proc → ℕ → List Hog → ℕ → List Hog
add_hog p d [] room =
    if room == 0
    then []
    else record { comm = take 31 p.comm; count = 1; ticks = d; top_ticks = d; top_pid = p.pid } ∷ []
add_hog p d (g ∷ gs) room =
    let rest = add_hog p d gs (room - 1) in
    if str_eq g.comm p.comm
    then record g {
      count = g.count + 1;
      ticks = (g.ticks + d) % 2 ^ 64;
      top_ticks = if ltb g.top_ticks d then d else g.top_ticks;
      top_pid = if ltb g.top_ticks d then p.pid else g.top_pid;
    }
      ∷ gs
    else g ∷ rest

-- A process counts if it was there before and has used time since.
unfoldable pub group_hogs : List Proc → List Proc → List Hog → List Hog
unfolding find_proc add_hog
group_hogs olds [] gs = gs
group_hogs olds (b ∷ bs) gs = elim (find_proc olds b) [
  | none ↦ group_hogs olds bs gs
  | some a ↦
      group_hogs olds bs (if leb b.ticks a.ticks then gs else add_hog b (b.ticks - a.ticks) gs 512)
]

-- The inner loop of the sort, on the sorted part from its end.
unfoldable pub insert_hog : Hog → List Hog → List Hog
insert_hog t [] = t ∷ []
insert_hog t (g ∷ gs) = if ltb g.ticks t.ticks then g ∷ insert_hog t gs else t ∷ g ∷ gs

unfoldable pub sort_hogs : List Hog → List Hog → List Hog
unfolding insert_hog
sort_hogs sorted [] = sorted
sort_hogs sorted (g ∷ gs) = sort_hogs (insert_hog g sorted) gs

abbrev pub reversed : List Hog → List Hog
reversed [] = []
reversed (g ∷ gs) = reversed gs ++ g ∷ []

unfoldable pub rec_hogs : List Proc → List Proc → ℕ → List Hog
unfolding group_hogs sort_hogs
rec_hogs olds bs max = take max (reversed (sort_hogs [] (group_hogs olds bs [])))

-- Each entry has at least the ticks of those behind it.
abbrev pub Falls : List Hog → Type 0
Falls [] = Unit
Falls (g ∷ gs) = All (λ (h : Hog). h.ticks ≤ g.ticks) gs × Falls gs

abbrev Rises : List Hog → Type 0
Rises [] = Unit
Rises (g ∷ gs) = All (λ (h : Hog). g.ticks ≤ h.ticks) gs × Rises gs

All-insert :
    (n : ℕ) (t : Hog) (gs : List Hog)
    → n ≤ t.ticks
    → All (λ (h : Hog). n ≤ h.ticks) gs
    → All (λ (h : Hog). n ≤ h.ticks) (insert_hog t gs)
unfolding insert_hog
All-insert n t [] h a = (h, tt)
All-insert n t (g ∷ gs) h a = elim (Bool-cases (ltb g.ticks t.ticks)) [
  | inl b ↦ rw (b, insert_hog) (a.0, All-insert n t gs h a.1)
  | inr b ↦ rw (b, insert_hog) (h, a)
]

All-above :
    (m n : ℕ) (gs : List Hog)
    → m ≤ n
    → All (λ (h : Hog). n ≤ h.ticks) gs
    → All (λ (h : Hog). m ≤ h.ticks) gs
All-above m n [] h a = tt
All-above m n (g ∷ gs) h a = (omega (arith, h, a.0), All-above m n gs h a.1)

insert_hog-Rises : (t : Hog) (gs : List Hog) → Rises gs → Rises (insert_hog t gs)
unfolding insert_hog
insert_hog-Rises t [] r = (tt, tt)
insert_hog-Rises t (g ∷ gs) r = elim (Bool-cases (ltb g.ticks t.ticks)) [
  | inl b ↦
      rw (b, insert_hog) (All-insert g.ticks t gs (ground arith) r.0, insert_hog-Rises t gs r.1)
  | inr b ↦
      let le : t.ticks ≤ g.ticks = ground arith in
      rw (b, insert_hog) ((le, All-above t.ticks g.ticks gs le r.0), r)
]

sort_hogs-Rises : (sorted gs : List Hog) → Rises sorted → Rises (sort_hogs sorted gs)
unfolding sort_hogs
sort_hogs-Rises sorted [] r = r
sort_hogs-Rises sorted (g ∷ gs) r =
    sort_hogs-Rises (insert_hog g sorted) gs (insert_hog-Rises g sorted r)

All-append_le :
    (n : ℕ) (gs : List Hog) (g : Hog)
    → All (λ (h : Hog). h.ticks ≤ n) gs
    → g.ticks ≤ n
    → All (λ (h : Hog). h.ticks ≤ n) (gs ++ g ∷ [])
All-append_le n [] g a h = (h, tt)
All-append_le n (x ∷ gs) g a h = (a.0, All-append_le n gs g a.1 h)

append-Falls :
    (gs : List Hog) (g : Hog)
    → Falls gs
    → All (λ (h : Hog). g.ticks ≤ h.ticks) gs
    → Falls (gs ++ g ∷ [])
append-Falls [] g f a = (tt, tt)
append-Falls (x ∷ gs) g f a = (All-append_le x.ticks gs g f.0 a.0, append-Falls gs g f.1 a.1)

All-append_ge :
    (n : ℕ) (gs : List Hog) (g : Hog)
    → All (λ (h : Hog). n ≤ h.ticks) gs
    → n ≤ g.ticks
    → All (λ (h : Hog). n ≤ h.ticks) (gs ++ g ∷ [])
All-append_ge n [] g a h = (h, tt)
All-append_ge n (x ∷ gs) g a h = (a.0, All-append_ge n gs g a.1 h)

All-reversed :
    (n : ℕ) (gs : List Hog)
    → All (λ (h : Hog). n ≤ h.ticks) gs
    → All (λ (h : Hog). n ≤ h.ticks) (reversed gs)
All-reversed n [] a = tt
All-reversed n (g ∷ gs) a = All-append_ge n (reversed gs) g (All-reversed n gs a.1) a.0

reversed-Falls : (gs : List Hog) → Rises gs → Falls (reversed gs)
reversed-Falls [] r = tt
reversed-Falls (g ∷ gs) r =
    append-Falls (reversed gs) g (reversed-Falls gs r.1) (All-reversed g.ticks gs r.0)

All-take :
    (n k : ℕ) (gs : List Hog)
    → All (λ (h : Hog). h.ticks ≤ n) gs
    → All (λ (h : Hog). h.ticks ≤ n) (take k gs)
All-take n zero gs a = tt
All-take n (suc k) [] a = tt
All-take n (suc k) (g ∷ gs) a = (a.0, All-take n k gs a.1)

take-Falls : (k : ℕ) (gs : List Hog) → Falls gs → Falls (take k gs)
take-Falls zero gs f = tt
take-Falls (suc k) [] f = tt
take-Falls (suc k) (g ∷ gs) f = (All-take g.ticks k gs f.0, take-Falls k gs f.1)

-- The hogs come with the one that used the most time first, and at most as many as were asked for.
pub rec_hogs-Falls :
    (olds bs : List Proc) (max : ℕ)
    → Falls (rec_hogs olds bs max) × (length (rec_hogs olds bs max) ≤ max)
unfolding rec_hogs
rec_hogs-Falls olds bs max =
    let sorted = sort_hogs [] (group_hogs olds bs []) in
    (
      take-Falls max (reversed sorted)
          (reversed-Falls sorted (sort_hogs-Rises [] (group_hogs olds bs []) tt)),
      length-take_le max (reversed sorted),
    )

-- Fires at a list of times, the first of them at its head.
abbrev pub fires : Episode → ℕ → List (ℕ × ℕ) → Episode
fires ep kind [] = ep
fires ep kind (t ∷ ts) = fires (rec_episode_fire ep kind t.0 t.1) kind ts

fires-start :
    (ep : Episode) (kind : ℕ) (ts : List (ℕ × ℕ))
    → ep.active ≡ true
    → (fires ep kind ts).start_mono ≡ ep.start_mono
unfolding rec_episode_fire
fires-start ep kind [] h = refl
fires-start ep kind (t ∷ ts) h =
    rw h (fires-start (record ep { active = true; last_fire_mono = t.0 }) kind ts refl)

-- An episode that no crash has marked and that fired from time `a` to `b` makes an arrow exactly if
-- that took two minutes, whenever it is found to be over.
pub episode_arrow_iff :
    (ep : Episode) (kind a b wall wall' end_mono : ℕ)
    → ep.active ≡ false
    → a ≤ b
    → b ≤ end_mono
    → end_mono < 2 ^ 64
    → rec_episode_arrow (rec_episode_fire (rec_episode_fire ep kind a wall) kind b wall') end_mono
      ≡ leb 120 (b - a)
unfolding rec_episode_fire rec_episode_arrow
episode_arrow_iff ep kind a b wall wall' end_mono h ab be lt =
    let kept : (if ltb b end_mono then b else end_mono) ≡ b = ground arith in
    let gap : wrapped b a ≡ b - a = omega arith in rw (h, kept, gap) refl
