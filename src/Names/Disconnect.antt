-- ===== src/Names/Disconnect.antt =====
-- A connection goes away: it is taken out of every name, and every change of owner is reported.
use schema_init.Prelude.{
  ℕ, ◌+◌, ◌≤◌, ◌≡◌, refl, sym, ◌∙◌, inl, inr, true, false, Option, none, List, [], ◌∷◌, ◌++◌, arith,
  ltb, Bool-cases, Option-cases, length, length-append, Bytes, str_eq, str_eq_iff,
}
use schema_init.Names.Holders.{Transition, Outcome, first_owner, holds, transitions}
use schema_init.Names.Registry.{
  NameEnt, Names, name_find, holders_of, names_owner, disconnect_ent, disconnect_loop,
  names_disconnect, names_holds,
}
use schema_init.Names.Queue.{
  Reports, disconnect-without, holds-without, without-Distinct, disconnect-Reports,
}
use schema_init.Names.Ownership.{
  apply_all, holders_of-cons, apply-other, Reports-apply, NamesDistinct, HoldersDistinct,
  IsRegistry,
}
use mathlib.Core.List.{append-nil, append_assoc}

-- The entries and the transitions of the loop, with no accumulator and no bound.
dropped : List NameEnt → ℕ → List NameEnt
dropped [] conn = []
dropped (e ∷ es) conn = record e { holders = (disconnect_ent e conn).holders } ∷ dropped es conn

changes : List NameEnt → ℕ → List Transition
changes [] conn = []
changes (e ∷ es) conn = transitions e.name (disconnect_ent e conn) ++ changes es conn

length-transitions : {R : Type 0} (n : Bytes) (o : Outcome R) → length (transitions n o) ≤ 1
length-transitions n o = elim (Option-cases o.change) [
  | inl e ↦ rw e (omega arith)
  | inr (c, e) ↦ rw e (omega arith)
]

-- With room for a transition of each entry left, none is lost.
disconnect_loop-eq :
    (es : List NameEnt) (conn max : ℕ) (out : List Transition)
    → length out + length es ≤ max
    → disconnect_loop es conn max out ≡ (dropped es conn, out ++ changes es conn)
unfolding disconnect_loop dropped changes
disconnect_loop-eq [] conn max out h = rw append-nil
disconnect_loop-eq (e ∷ es) conn max out h =
    let new = transitions e.name (disconnect_ent e conn) in
    let room : ltb (length out) max ≡ true = ground arith in
    let fits : length (out ++ new) + length es ≤ max =
      omega (arith, length-append {0} out new, length-transitions e.name (disconnect_ent e conn)) in
    rw (room, disconnect_loop)
      (rw (disconnect_loop-eq es conn max (out ++ new) fits) (rw append_assoc))

apply_all-append :
    (ts us : List Transition) (m : Bytes) (o : Option ℕ)
    → apply_all (ts ++ us) m o ≡ apply_all us m (apply_all ts m o)
unfolding apply_all
apply_all-append [] us m o = refl
apply_all-append (t ∷ ts) us m o = apply_all-append ts us m _

find-cons :
    (e : NameEnt) (es : List NameEnt) (m : Bytes)
    → name_find (e ∷ es) m ≡ none
    → (str_eq e.name m ≡ false) × (name_find es m ≡ none)
unfolding name_find
find-cons e es m h = ground arith

changes-absent :
    (es : List NameEnt) (conn : ℕ) (m : Bytes) (o : Option ℕ)
    → name_find es m ≡ none
    → apply_all (changes es conn) m o ≡ o
unfolding changes
changes-absent [] conn m o h = unfold apply_all in refl
changes-absent (e ∷ es) conn m o h =
    let (ne, rest) = find-cons e es m h in
    apply_all-append (transitions e.name (disconnect_ent e conn)) (changes es conn) m o
    ∙ rw (apply-other e.name m (disconnect_ent e conn) o ne) (changes-absent es conn m o rest)

dropped_owners :
    (es : List NameEnt) (conn : ℕ) (m : Bytes)
    → NamesDistinct es
    → HoldersDistinct es
    → first_owner (holders_of (dropped es conn) m)
      ≡ apply_all (changes es conn) m (first_owner (holders_of es m))
unfolding dropped changes
dropped_owners [] conn m n d = unfold apply_all in refl
dropped_owners (e ∷ es) conn m n d =
    let o = disconnect_ent e conn in
    let r : Reports e.holders o = unfold disconnect_ent in disconnect-Reports e.holders conn d.0 in
    rw apply_all-append (
      rw holders_of-cons (
        rw holders_of-cons (elim (Bool-cases (str_eq e.name m)) [
          | inl same ↦
              let eq = (str_eq_iff e.name m).0 same in
              rw same (
                rw (Reports-apply e.name m e.holders o r)
                  (rw same (sym (changes-absent es conn m (first_owner o.holders) (rw eq at n.0)))))
          | inr other ↦
              rw other (rw (apply-other e.name m o _ other) (dropped_owners es conn m n.1 d.1))
        ])))

-- In a well-formed registry, after a disconnect with room for a transition of every name, the
-- owner of every name is the one that the reported transitions give.
pub disconnect_owners :
    (r : Names) (conn max : ℕ) (m : Bytes)
    → IsRegistry r
    → length r.names ≤ max
    → let out = names_disconnect r conn max in
      names_owner out.0 m ≡ apply_all out.1 m (names_owner r m)
unfolding names_disconnect names_owner
disconnect_owners r conn max m ok room =
    rw (disconnect_loop-eq r.names conn max [] (omega arith))
      (dropped_owners r.names conn m ok.names_distinct ok.holders_distinct)

holds_none-dropped :
    (es : List NameEnt) (conn : ℕ) (m : Bytes)
    → HoldersDistinct es
    → holds (holders_of (dropped es conn) m) conn ≡ false
unfolding dropped disconnect_ent
holds_none-dropped [] conn m d = unfold holders_of holds in refl
holds_none-dropped (e ∷ es) conn m d = rw holders_of-cons (elim (Bool-cases (str_eq e.name m)) [
  | inl same ↦ rw same (rw (disconnect-without e.holders conn d.0) (holds-without e.holders conn))
  | inr other ↦ rw other (holds_none-dropped es conn m d.1)
])

-- In a well-formed registry, after a disconnect with room for a transition of every name, the
-- connection neither owns a name nor waits for one.
pub disconnect_forgets :
    (r : Names) (conn max : ℕ) (m : Bytes)
    → IsRegistry r
    → length r.names ≤ max
    → names_holds (names_disconnect r conn max).0 conn m ≡ false
unfolding names_disconnect names_holds
disconnect_forgets r conn max m ok room =
    rw (disconnect_loop-eq r.names conn max [] (omega arith))
      (holds_none-dropped r.names conn m ok.holders_distinct)

find-dropped :
    (es : List NameEnt) (conn : ℕ) (m : Bytes)
    → name_find es m ≡ none
    → name_find (dropped es conn) m ≡ none
unfolding dropped name_find
find-dropped [] conn m h = refl
find-dropped (e ∷ es) conn m h = ground (arith, find-dropped es conn m)

dropped-distinct :
    (es : List NameEnt) (conn : ℕ)
    → NamesDistinct es
    → HoldersDistinct es
    → NamesDistinct (dropped es conn) × HoldersDistinct (dropped es conn)
unfolding dropped disconnect_ent
dropped-distinct [] conn n d = (tt, tt)
dropped-distinct (e ∷ es) conn n d =
    let (names, holders) = dropped-distinct es conn n.1 d.1 in
    (
      (find-dropped es conn e.name n.0, names),
      (rw (disconnect-without e.holders conn d.0) (without-Distinct e.holders conn d.0), holders),
    )

-- A disconnect keeps the registry well formed.
pub disconnect-IsRegistry :
    (r : Names) (conn max : ℕ)
    → IsRegistry r
    → length r.names ≤ max
    → IsRegistry (names_disconnect r conn max).0
unfolding names_disconnect
disconnect-IsRegistry r conn max ok room =
    let (names, holders) = dropped-distinct r.names conn ok.names_distinct ok.holders_distinct in
    rw (disconnect_loop-eq r.names conn max [] (omega arith))
      (record { names_distinct = names; holders_distinct = holders })
