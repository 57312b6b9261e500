-- ===== src/Names/Invariant.antt =====
-- The registry stays well formed: distinct names, and no connection twice in a name's holders.
use schema_init.Prelude.{
  ℕ, ◌≡◌, refl, inl, inr, false, none, List, [], ◌∷◌, ◌++◌, arith, Bool-cases, Option-cases, length,
  Bytes, str_eq, str_eq_iff,
}
use schema_init.Names.Holders.{Holder, request_holders, release_holders}
use schema_init.Names.Registry.{
  NameEnt, Names, name_find, name_intern, put_holders, holders_of, names_request, names_release,
  names_disconnect, names_new, names_alloc_unique,
}
use schema_init.Names.Queue.{Distinct, release-without, without-Distinct}
use schema_init.Names.Replies.{request-Distinct}
use schema_init.Names.Ownership.{NamesDistinct, HoldersDistinct, IsRegistry, holders_of-Distinct}
use schema_init.Names.Disconnect.{disconnect-IsRegistry}

find-put :
    (es : List NameEnt) (n m : Bytes) (hs : List Holder)
    → name_find es m ≡ none
    → name_find (put_holders es n hs) m ≡ none
unfolding name_find put_holders
find-put [] n m hs h = refl
find-put (e ∷ es) n m hs h = ground (arith, find-put es n m hs)

put-Distinct :
    (es : List NameEnt) (n : Bytes) (hs : List Holder)
    → NamesDistinct es
    → HoldersDistinct es
    → Distinct hs
    → NamesDistinct (put_holders es n hs) × HoldersDistinct (put_holders es n hs)
unfolding put_holders
put-Distinct [] n hs k d x = (tt, tt)
put-Distinct (e ∷ es) n hs k d x = elim (Bool-cases (str_eq e.name n)) [
  | inl h ↦ rw (h, put_holders) (k, (x, d.1))
  | inr h ↦
      let (names, holders) = put-Distinct es n hs k.1 d.1 x in
      rw (h, put_holders) ((find-put es n e.name hs k.0, names), (d.0, holders))
]

find-append_other :
    (es : List NameEnt) (n m : Bytes)
    → name_find es m ≡ none
    → str_eq n m ≡ false
    → name_find (es ++ record { name = n; holders = [] } ∷ []) m ≡ none
unfolding name_find
find-append_other [] n m h ne = rw ne
find-append_other (e ∷ es) n m h ne = ground (arith, find-append_other es n m)

find-none_ne :
    (e : NameEnt) (es : List NameEnt) (n : Bytes)
    → name_find (e ∷ es) n ≡ none
    → (str_eq n e.name ≡ false) × (name_find es n ≡ none)
unfolding name_find
find-none_ne e es n h = ground (arith, str_eq_iff n e.name, str_eq_iff e.name n)

append-distinct :
    (es : List NameEnt) (n : Bytes)
    → NamesDistinct es
    → HoldersDistinct es
    → name_find es n ≡ none
    → NamesDistinct (es ++ record { name = n; holders = [] } ∷ [])
      × HoldersDistinct (es ++ record { name = n; holders = [] } ∷ [])
append-distinct [] n k d h = ((unfold name_find in refl, tt), (tt, tt))
append-distinct (e ∷ es) n k d h =
    let (ne, rest) = find-none_ne e es n h in
    let (names, holders) = append-distinct es n k.1 d.1 rest in
    ((find-append_other es n e.name k.0 ne, names), (d.0, holders))

intern-distinct :
    (es : List NameEnt) (n : Bytes)
    → NamesDistinct es
    → HoldersDistinct es
    → NamesDistinct (name_intern es n) × HoldersDistinct (name_intern es n)
unfolding name_intern
intern-distinct es n k d = elim (Option-cases (name_find es n)) [
  | inl e ↦ rw (e, name_intern) (append-distinct es n k d e)
  | inr (x, e) ↦ rw (e, name_intern) (k, d)
]

new-IsRegistry : IsRegistry names_new
unfolding names_new
new-IsRegistry = record { names_distinct = tt; holders_distinct = tt }

request-IsRegistry :
    (r : Names) (conn : ℕ) (name : Bytes) (flags : ℕ)
    → IsRegistry r
    → IsRegistry (names_request r conn name flags).0
unfolding names_request
request-IsRegistry r conn name flags ok =
    let (k, d) = intern-distinct r.names name ok.names_distinct ok.holders_distinct in
    let hs = holders_of (name_intern r.names name) name in
    let new : Holder = record { conn_id = conn; flags = flags } in
    let kept = request-Distinct hs new (holders_of-Distinct (name_intern r.names name) name d) in
    let (names, holders) =
      put-Distinct (name_intern r.names name) name (request_holders hs new).holders k d kept in
    record { names_distinct = names; holders_distinct = holders }

release-IsRegistry :
    (r : Names) (conn : ℕ) (name : Bytes) → IsRegistry r → IsRegistry (names_release r conn name).0
unfolding names_release
release-IsRegistry r conn name ok =
    let hs = holders_of r.names name in
    let d = holders_of-Distinct r.names name ok.holders_distinct in
    let kept : Distinct (release_holders hs conn).holders =
      rw (release-without hs conn d) (without-Distinct hs conn d) in
    let (names, holders) =
      put-Distinct r.names name (release_holders hs conn).holders ok.names_distinct
        ok.holders_distinct kept in
    record { names_distinct = names; holders_distinct = holders }

-- The broker's calls on the registry; a disconnect passes a buffer with room for every name.
pub data Call : Type 0 where
  hello : ℕ → Call
  request : ℕ → Bytes → ℕ → Call
  release : ℕ → Bytes → Call
  disconnect : ℕ → Call

unfoldable pub call : Names → Call → Names
call r (hello conn) = (names_alloc_unique r conn).0
call r (request conn name flags) = (names_request r conn name flags).0
call r (release conn name) = (names_release r conn name).0
call r (disconnect conn) = (names_disconnect r conn (length r.names)).0

unfoldable pub calls : Names → List Call → Names
calls r [] = r
calls r (c ∷ cs) = calls (call r c) cs

call-IsRegistry : (r : Names) (c : Call) → IsRegistry r → IsRegistry (call r c)
unfolding call
call-IsRegistry r (hello conn) ok =
    unfold names_alloc_unique in
    record { names_distinct = ok.names_distinct; holders_distinct = ok.holders_distinct }
call-IsRegistry r (request conn name flags) ok = request-IsRegistry r conn name flags ok
call-IsRegistry r (release conn name) ok = release-IsRegistry r conn name ok
call-IsRegistry r (disconnect conn) ok =
    disconnect-IsRegistry r conn (length r.names) ok (omega arith)

calls-IsRegistry : (cs : List Call) (r : Names) → IsRegistry r → IsRegistry (calls r cs)
unfolding calls
calls-IsRegistry [] r ok = ok
calls-IsRegistry (c ∷ cs) r ok = calls-IsRegistry cs (call r c) (call-IsRegistry r c ok)

-- Every registry that the broker's calls build from an empty one is well formed: no name has two
-- entries, and no connection stands twice among the holders of a name.
pub calls_new-IsRegistry : (cs : List Call) → IsRegistry (calls names_new cs)
calls_new-IsRegistry cs = calls-IsRegistry cs names_new new-IsRegistry
