-- ===== src/Bus/Match.antt =====
-- sdbus_match.h: match rules, their parser, and which messages they accept.
use schema_init.Prelude.{
  ℕ, Bool, true, false, ◌&&◌, ◌||◌, Option, none, some, List, [], ◌∷◌, ◌++◌, ◌==◌, if◌then◌else◌,
  length, drop, Bytes, codes, str_eq, starts_with,
}

-- `sdbus_match_rule`; a NULL pointer is `none`.
pub record MatchRule : Type 0 where
  pub type : Option Bytes
  pub interface : Option Bytes
  pub member : Option Bytes
  pub path : Option Bytes
  pub path_namespace : Option Bytes
  pub sender : Option Bytes
  pub destination : Option Bytes
  pub arg0 : Option Bytes
  pub arg0_namespace : Option Bytes
  pub raw : Bytes

abbrev pub blank_rule : MatchRule
blank_rule = record {
  type = none;
  interface = none;
  member = none;
  path = none;
  path_namespace = none;
  sender = none;
  destination = none;
  arg0 = none;
  arg0_namespace = none;
  raw = [];
}

-- The chain of `slot` assignments; an unknown key is ignored.
unfoldable pub set_slot : MatchRule → Bytes → Bytes → MatchRule
set_slot r key val =
    if str_eq key (codes "type")
    then record r { type = some val }
    else if str_eq key (codes "interface")
    then record r { interface = some val }
    else if str_eq key (codes "member")
    then record r { member = some val }
    else if str_eq key (codes "path")
    then record r { path = some val }
    else if str_eq key (codes "path_namespace")
    then record r { path_namespace = some val }
    else if str_eq key (codes "sender")
    then record r { sender = some val }
    else if str_eq key (codes "destination")
    then record r { destination = some val }
    else if str_eq key (codes "arg0")
    then record r { arg0 = some val }
    else if str_eq key (codes "arg0namespace")
    then record r { arg0_namespace = some val }
    else r

-- Where the cursor of `sdbus__parse_rule` stands: between pairs, in a key, behind the '=' of a key, or
-- in a value.
pub data Cursor : Type 0 where
  between : Cursor
  in_key : Bytes → Cursor
  at_quote : Bytes → Cursor
  in_value : Bytes → Bytes → Cursor

-- `sdbus__parse_rule` from a place in the text on; `none` is a malformed rule.
unfoldable pub parse_from : Cursor → MatchRule → Bytes → Option MatchRule
parse_from between r [] = some r
parse_from (in_key k) r [] = none
parse_from (at_quote k) r [] = none
parse_from (in_value k v) r [] = none
parse_from between r (c ∷ cs) =
    let skip = parse_from between r cs in
    let empty_key = parse_from (at_quote []) r cs in
    let key = parse_from (in_key (c ∷ [])) r cs in
    if c == b' ' || c == b',' then skip else if c == b'=' then empty_key else key
parse_from (in_key k) r (c ∷ cs) =
    let value = parse_from (at_quote k) r cs in
    let more = parse_from (in_key (k ++ c ∷ [])) r cs in
    if c == b'=' then value else if c == b',' then none else more
parse_from (at_quote k) r (c ∷ cs) =
    let value = parse_from (in_value k []) r cs in if c == 39 then value else none
parse_from (in_value k v) r (c ∷ cs) =
    let next = parse_from between (set_slot r k v) cs in
    let more = parse_from (in_value k (v ++ c ∷ [])) r cs in if c == 39 then next else more

unfoldable pub parse_rule : Bytes → Option MatchRule
unfolding parse_from
parse_rule rule = elim (parse_from between blank_rule rule) [
  | none ↦ none
  | some r ↦ some (record r { raw = rule })
]

unfoldable pub match_add : List MatchRule → Bytes → Option (List MatchRule)
match_add m rule = elim (parse_rule rule) [ none ↦ none | some r ↦ some (m ++ r ∷ []) ]

abbrev pub last_rule : MatchRule → List MatchRule → MatchRule
last_rule r [] = r
last_rule r (s ∷ ss) = last_rule s ss

abbrev pub but_last_rule : List MatchRule → List MatchRule
but_last_rule [] = []
but_last_rule (r ∷ []) = []
but_last_rule (r ∷ s ∷ ss) = r ∷ but_last_rule (s ∷ ss)

-- `m->rules[i] = m->rules[--m->n]` at the first rule with that text; `none` is not found.
unfoldable pub match_remove : List MatchRule → Bytes → Option (List MatchRule)
match_remove [] rule = none
match_remove (r ∷ rs) rule =
    if str_eq r.raw rule
    then elim rs [ [] ↦ some [] | s ∷ ss ↦ some (last_rule s ss ∷ but_last_rule (s ∷ ss)) ]
    else elim (match_remove rs rule) [ none ↦ none | some rs' ↦ some (r ∷ rs') ]

-- `strcmp` of two pointers that may be NULL.
abbrev pub same_text : Bytes → Option Bytes → Bool
same_text s none = false
same_text s (some t) = str_eq s t

unfoldable pub eq_or_null : Option Bytes → Option Bytes → Bool
eq_or_null none field = true
eq_or_null (some c) field = same_text c field

abbrev pub at_end_or : ℕ → Bytes → Bool
at_end_or stop [] = true
at_end_or stop (c ∷ cs) = c == stop

unfoldable pub ns_match : Option Bytes → Option Bytes → Bool
ns_match none path = true
ns_match (some ns) none = false
ns_match (some ns) (some path) =
    starts_with ns path && (at_end_or b'/' (drop (length ns) path) || str_eq ns (codes "/"))

unfoldable pub any_eq : Bytes → List Bytes → Bool
any_eq s [] = false
any_eq s (t ∷ ts) = str_eq s t || any_eq s ts

unfoldable pub sender_match : Option Bytes → Option Bytes → List Bytes → Bool
unfolding any_eq
sender_match none uniq owned = true
sender_match (some c) uniq owned = same_text c uniq || any_eq c owned

unfoldable pub arg0_namespace_match : Option Bytes → Option Bytes → Bool
arg0_namespace_match none arg0 = true
arg0_namespace_match (some ns) none = false
arg0_namespace_match (some ns) (some a) = starts_with ns a && at_end_or b'.' (drop (length ns) a)

unfoldable pub arg0_match : MatchRule → Option Bytes → Bool
unfolding eq_or_null arg0_namespace_match
arg0_match r arg0 = eq_or_null r.arg0 arg0 && arg0_namespace_match r.arg0_namespace arg0

-- What a rule sees of a message.
pub record SeenMsg : Type 0 where
  pub type : Option Bytes
  pub interface : Option Bytes
  pub member : Option Bytes
  pub path : Option Bytes
  pub sender : Option Bytes
  pub sender_owned : List Bytes
  pub dest : Option Bytes
  pub dest_owned : List Bytes
  pub arg0 : Option Bytes

abbrev pub is_signal_type : Option Bytes → Bool
is_signal_type none = true
is_signal_type (some t) = str_eq t (codes "signal")

-- The tests of the loop in `sdbus_match_signal`.
unfoldable pub rule_accepts_signal : MatchRule → SeenMsg → Bool
unfolding eq_or_null sender_match ns_match arg0_match
rule_accepts_signal r s =
    is_signal_type r.type
    && eq_or_null r.interface s.interface
    && eq_or_null r.member s.member
    && eq_or_null r.path s.path
    && sender_match r.sender s.sender s.sender_owned
    && ns_match r.path_namespace s.path
    && arg0_match r s.arg0

unfoldable pub match_signal : List MatchRule → SeenMsg → Bool
unfolding rule_accepts_signal
match_signal [] s = false
match_signal (r ∷ rs) s = if rule_accepts_signal r s then true else match_signal rs s

unfoldable pub rule_accepts_message : MatchRule → SeenMsg → Bool
unfolding eq_or_null sender_match ns_match arg0_match
rule_accepts_message r s =
    eq_or_null r.type s.type
    && eq_or_null r.interface s.interface
    && eq_or_null r.member s.member
    && eq_or_null r.path s.path
    && sender_match r.sender s.sender s.sender_owned
    && sender_match r.destination s.dest s.dest_owned
    && ns_match r.path_namespace s.path
    && arg0_match r s.arg0

unfoldable pub any_accepts_message : List MatchRule → SeenMsg → Bool
unfolding rule_accepts_message
any_accepts_message [] s = false
any_accepts_message (r ∷ rs) s = if rule_accepts_message r s then true else any_accepts_message rs s

-- A monitor without rules gets every message.
unfoldable pub match_message : List MatchRule → SeenMsg → Bool
unfolding any_accepts_message
match_message [] s = true
match_message (r ∷ rs) s = any_accepts_message (r ∷ rs) s
