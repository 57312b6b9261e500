-- ===== src/Names/Ownership.antt =====
-- The owners of all names across the operations of the registry: every change of owner is reported
-- as a transition, and nothing else changes.
use schema_init.Prelude.{
  ℕ, ◌≡◌, refl, sym, ap, ◌∙◌, ◌≢◌, inl, inr, false, Option, none, List, [], ◌∷◌, ◌++◌, arith,
  if◌then◌else◌, Bool-cases, Option-cases, All, Bytes, str_eq, str_eq_iff, str_eq_refl,
}
use schema_init.Names.Holders.{
  Transition, Holder, Outcome, request_holders, release_holders, first_owner, transitions,
}
use schema_init.Names.Registry.{
  NameEnt, Names, name_find, name_intern, put_holders, holders_of, names_request, names_release,
  names_owner,
}
use schema_init.Names.Queue.{Distinct, Reports, request-Reports, release-Reports}

-- The transitions read as updates of a name's owner, in order.
unfoldable pub apply_all : List Transition → Bytes → Option ℕ → Option ℕ
apply_all [] m o = o
apply_all (t ∷ ts) m o = apply_all ts m (if str_eq t.name m then t.new_owner else o)

holders_of-append :
    (es : List NameEnt) (n m : Bytes)
    → holders_of (es ++ record { name = n; holders = [] } ∷ []) m ≡ holders_of es m
unfolding holders_of
holders_of-append [] n m = ground arith
holders_of-append (e ∷ es) n m = ground (arith, holders_of-append es n m)

pub holders_of-intern :
    (es : List NameEnt) (n m : Bytes) → holders_of (name_intern es n) m ≡ holders_of es m
unfolding name_intern
holders_of-intern es n m = elim (Option-cases (name_find es n)) [
  | inl e ↦ rw (e, name_intern) (holders_of-append es n m)
  | inr (x, e) ↦ rw (e, name_intern) refl
]

-- A write reaches the entry of its name alone, and is lost only where there is no entry.
holders_of-put :
    (es : List NameEnt) (n m : Bytes) (hs : List Holder)
    → (name_find es n ≡ none → hs ≡ [])
    → holders_of (put_holders es n hs) m ≡ (if str_eq n m then hs else holders_of es m)
unfolding put_holders holders_of
holders_of-put [] n m hs f = ground (arith, f)
holders_of-put (e ∷ es) n m hs f =
    ground
      (arith, str_eq_iff e.name n, str_eq_iff n m, str_eq_iff e.name m, holders_of-put es n m hs)

pub find-append :
    (es : List NameEnt) (n : Bytes)
    → name_find (es ++ record { name = n; holders = [] } ∷ []) n ≢ none
unfolding name_find
find-append [] n = ground (arith, str_eq_iff n n)
find-append (e ∷ es) n = ground (arith, find-append es n)

find-intern : (es : List NameEnt) (n : Bytes) → name_find (name_intern es n) n ≢ none
unfolding name_intern
find-intern es n = elim (Option-cases (name_find es n)) [
  | inl e ↦ rw (e, name_intern) (find-append es n)
  | inr (x, e) ↦ rw (e, name_intern) (rw e (λ q. cc))
]

-- The owner of a name after its holders are replaced, against the transitions reported for them.
pub Reports-apply :
    {R : Type 0} (n m : Bytes) (hs : List Holder) (o : Outcome R)
    → Reports hs o
    → apply_all (transitions n o) m (first_owner hs)
      ≡ (if str_eq n m then first_owner o.holders else first_owner hs)
unfolding apply_all
Reports-apply n m hs o r = elim (Option-cases o.change) [
  | inl e ↦
      let same : first_owner o.holders ≡ first_owner hs = rw e at r in rw e (rw same (ground arith))
  | inr ((old, new), e) ↦
      let now : new ≡ first_owner o.holders = (rw e at r).1 in rw e (rw now (ground arith))
]

-- The names are distinct, and no connection stands twice in a name's holders.
abbrev pub NamesDistinct : List NameEnt → Type 0
NamesDistinct [] = Unit
NamesDistinct (e ∷ es) = (name_find es e.name ≡ none) × NamesDistinct es

abbrev pub HoldersDistinct : List NameEnt → Type 0
HoldersDistinct = All (λ e. Distinct e.holders)

pub record IsRegistry (r : Names) : Type 0 where
  pub names_distinct : NamesDistinct r.names
  pub holders_distinct : HoldersDistinct r.names

pub holders_of-cons :
    (e : NameEnt) (es : List NameEnt) (n : Bytes)
    → holders_of (e ∷ es) n ≡ (if str_eq e.name n then e.holders else holders_of es n)
unfolding holders_of
holders_of-cons e es n = ground arith

pub holders_of-Distinct :
    (es : List NameEnt) (n : Bytes) → HoldersDistinct es → Distinct (holders_of es n)
holders_of-Distinct [] n d = unfold holders_of in tt
holders_of-Distinct (e ∷ es) n d = elim (Bool-cases (str_eq e.name n)) [
  | inl h ↦ rw holders_of-cons (rw h d.0)
  | inr h ↦ rw holders_of-cons (rw h (holders_of-Distinct es n d.1))
]

pub apply-other :
    {R : Type 0} (n m : Bytes) (o : Outcome R) (x : Option ℕ)
    → str_eq n m ≡ false
    → apply_all (transitions n o) m x ≡ x
unfolding apply_all
apply-other n m o x ne = elim (Option-cases o.change) [
  | inl e ↦ rw e refl
  | inr ((old, new), e) ↦ rw e (rw ne refl)
]

-- Replacing the holders of one name, with the change of owner reported.
put_owner :
    {R : Type 0} (es : List NameEnt) (n m : Bytes) (o : Outcome R)
    → (name_find es n ≡ none → o.holders ≡ [])
    → Reports (holders_of es n) o
    → first_owner (holders_of (put_holders es n o.holders) m)
      ≡ apply_all (transitions n o) m (first_owner (holders_of es m))
put_owner es n m o f r = elim (Bool-cases (str_eq n m)) [
  | inl same ↦
      let e : n ≡ m = (str_eq_iff n m).0 same in
      ap first_owner (holders_of-put es n m o.holders f)
      ∙ rw same (rw (← e) (sym (Reports-apply n n (holders_of es n) o r ∙ rw str_eq_refl refl)))
  | inr other ↦
      ap first_owner (holders_of-put es n m o.holders f)
      ∙ rw other (sym (apply-other n m o (first_owner (holders_of es m)) other))
]

-- After a request the owner of every name is the one that the reported transitions give: the
-- requested name's by its transition, if there is one, and all others as before.
pub request_owners :
    (r : Names) (conn : ℕ) (name : Bytes) (flags : ℕ) (m : Bytes)
    → let out = names_request r conn name flags in
      names_owner out.0 m ≡ apply_all out.2 m (names_owner r m)
unfolding names_request names_owner
request_owners r conn name flags m =
    let es = name_intern r.names name in
    let new : Holder = record { conn_id = conn; flags = flags } in
    put_owner es name m (request_holders (holders_of es name) new)
      (λ e. absurd (find-intern r.names name e)) (request-Reports (holders_of es name) new)
    ∙ ap
        (λ hs.
          apply_all (transitions name (request_holders (holders_of es name) new)) m
            (first_owner hs))
        (holders_of-intern r.names name m)

release_absent :
    (es : List NameEnt) (n : Bytes) (conn : ℕ)
    → name_find es n ≡ none
    → (release_holders (holders_of es n) conn).holders ≡ []
unfolding holders_of
release_absent es n conn e = rw (e, holders_of) (unfold release_holders in refl)

-- In a well-formed registry, after a release the owner of every name is the one that the reported
-- transitions give.
pub release_owners :
    (r : Names) (conn : ℕ) (name m : Bytes)
    → IsRegistry r
    → let out = names_release r conn name in
      names_owner out.0 m ≡ apply_all out.2 m (names_owner r m)
unfolding names_release names_owner
release_owners r conn name m ok =
    put_owner r.names name m (release_holders (holders_of r.names name) conn)
      (release_absent r.names name conn)
      (release-Reports (holders_of r.names name) conn
        (holders_of-Distinct r.names name ok.holders_distinct))
