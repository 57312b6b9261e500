-- ===== src/Bus/PolicyText.antt =====
-- sdbus_policy.h: the reader of the policy text. strtol, getpwnam and getgrnam are parameters.
use schema_init.Prelude.{
  ℕ, ◌-◌, ◌%◌, ◌^◌, Bool, true, false, ◌&&◌, ◌||◌, Option, none, some, List, [], ◌∷◌, ◌++◌, leb,
  ◌==◌, if◌then◌else◌, Bytes, codes, str_eq, starts_with,
}
use schema_init.Bus.Policy.{
  Policy, Ctx, CtxKind, ctx_default, ctx_mandatory, ctx_user, ctx_group, CtxSel, Rule, Pred,
}

-- The C locale's `isspace`.
abbrev pub is_space : ℕ → Bool
is_space c = c == 32 || (leb 9 c && leb c 13)

unfoldable pub trim_left : Bytes → Bytes
trim_left [] = []
trim_left (c ∷ cs) = let rest = trim_left cs in if is_space c then rest else c ∷ cs

abbrev pub cons_unless_space : ℕ → Bytes → Bytes
cons_unless_space c [] = if is_space c then [] else c ∷ []
cons_unless_space c (d ∷ ds) = c ∷ d ∷ ds

unfoldable pub trim_right : Bytes → Bytes
trim_right [] = []
trim_right (c ∷ cs) = cons_unless_space c (trim_right cs)

unfoldable pub trim : Bytes → Bytes
unfolding trim_left trim_right
trim s = trim_right (trim_left s)

-- What stands before the first `c`, and what stands behind it.
unfoldable pub cut : ℕ → Bytes → Bytes × Option Bytes
cut c [] = ([], none)
cut c (x ∷ xs) =
    let (before, behind) = cut c xs in if x == c then ([], some xs) else (x ∷ before, behind)

abbrev pub cons_first : ℕ → List Bytes → List Bytes
cons_first c [] = (c ∷ []) ∷ []
cons_first c (l ∷ ls) = (c ∷ l) ∷ ls

-- The pieces between the separators.
unfoldable pub split_at : ℕ → Bytes → List Bytes
split_at c [] = [] ∷ []
split_at c (x ∷ xs) = if x == c then [] ∷ split_at c xs else cons_first x (split_at c xs)

-- `key, value = text.partition(sep)`, both trimmed.
unfoldable pub partition : ℕ → Bytes → Bytes × Bytes
unfolding cut trim
partition sep s = elim (cut sep s).1 [ none ↦ (trim s, []) | some v ↦ (trim (cut sep s).0, trim v) ]

unfoldable pub parse_preds : List Bytes → List Pred
unfolding partition
parse_preds [] = []
parse_preds (part ∷ parts) =
    let rest = parse_preds parts in
    elim (trim part) [
      | [] ↦ rest
      | c ∷ cs ↦
          record { attr = (partition b':' (c ∷ cs)).0; value = (partition b':' (c ∷ cs)).1 } ∷ rest
    ]

unfoldable pub has_receive_pred : List Pred → Bool
has_receive_pred [] = false
has_receive_pred (p ∷ ps) = starts_with (codes "receive_") p.attr || has_receive_pred ps

-- A rule goes to the context opened last; before any context it is an error.
unfoldable pub add_rule : List Ctx → Rule → Option (List Ctx)
add_rule [] r = none
add_rule (c ∷ []) r = some (record c { rules = c.rules ++ r ∷ [] } ∷ [])
add_rule (c ∷ d ∷ ds) r = elim (add_rule (d ∷ ds) r) [ none ↦ none | some cs ↦ some (c ∷ cs) ]

unfoldable pub ctx_kind_of : Bytes → Option CtxKind
ctx_kind_of s =
    if str_eq s (codes "default")
    then some ctx_default
    else if str_eq s (codes "mandatory")
    then some ctx_mandatory
    else if str_eq s (codes "user")
    then some ctx_user
    else if str_eq s (codes "group")
    then some ctx_group
    else none

module _ (strtol : Bytes → ℕ × Bytes) (getpwnam getgrnam : Bytes → Option ℕ) where
  -- The value, if the whole text was read.
  unfoldable pub is_int : Bytes → Option ℕ
  is_int [] = none
  is_int (c ∷ cs) = elim (strtol (c ∷ cs)).1 [ [] ↦ some (strtol (c ∷ cs)).0 | x ∷ xs ↦ none ]

  -- An id, or -1.
  abbrev pub id_or_none : Option ℕ → ℕ
  id_or_none none = 2 ^ 32 - 1
  id_or_none (some i) = i % 2 ^ 32

  abbrev pub named_id : CtxKind → Bytes → ℕ
  named_id kind s = elim kind [ ctx_user ↦ id_or_none (getpwnam s) | _ ↦ id_or_none (getgrnam s) ]

  abbrev pub selector_sel : CtxKind → Bytes → CtxSel
  selector_sel kind [] = record { wildcard = true; selector_id = 2 ^ 32 - 1 }
  selector_sel kind (c ∷ cs) = elim (is_int (c ∷ cs)) [
    | some v ↦ record { wildcard = false; selector_id = v % 2 ^ 32 }
    | none ↦ record { wildcard = false; selector_id = named_id kind (c ∷ cs) }
  ]

  unfoldable pub resolve_sel : CtxKind → Bytes → CtxSel
  unfolding is_int
  resolve_sel kind selector = elim kind [
    | ctx_default ↦ record { wildcard = true; selector_id = 2 ^ 32 - 1 }
    | ctx_mandatory ↦ record { wildcard = true; selector_id = 2 ^ 32 - 1 }
    | other ↦ selector_sel other selector
  ]

  unfoldable pub open_ctx : Policy → Bytes → Option Policy
  unfolding partition resolve_sel
  open_ctx pol value = elim (ctx_kind_of (partition b':' value).0) [
    | none ↦ none
    | some kind ↦ some (record pol {
      ctxs =
          pol.ctxs
          ++ record { kind = kind; sel = resolve_sel kind (partition b':' value).1; rules = [] }
            ∷ [];
    })
  ]

  unfoldable pub open_rule : Policy → Bool → Bytes → Option Policy
  unfolding parse_preds has_receive_pred add_rule
  open_rule pol allow value =
      let preds : List Pred = parse_preds (split_at b',' value) in
      elim (add_rule pol.ctxs (record { allow = allow; preds = preds })) [
        | none ↦ none
        | some ctxs ↦
            some
              (record { ctxs = ctxs; has_recv_rule = pol.has_recv_rule || has_receive_pred preds })
      ]

  abbrev pub parse_entry : Policy → Bytes → Bytes → Option Policy
  parse_entry pol key value =
      if str_eq key (codes "context")
      then open_ctx pol value
      else if str_eq key (codes "allow")
      then open_rule pol true value
      else if str_eq key (codes "deny")
      then open_rule pol false value
      else none

  -- One turn of the loop: a comment is cut off, a blank line skipped.
  unfoldable pub parse_line : Policy → Bytes → Option Policy
  unfolding open_ctx open_rule
  parse_line pol line = elim (trim (cut b'#' line).0) [
    | [] ↦ some pol
    | c ∷ cs ↦ parse_entry pol (partition b'=' (c ∷ cs)).0 (partition b'=' (c ∷ cs)).1
  ]

  unfoldable pub parse_lines : Policy → List Bytes → Option Policy
  unfolding parse_line
  parse_lines pol [] = some pol
  parse_lines pol (l ∷ ls) = elim (parse_line pol l) [
    | none ↦ none
    | some next ↦ parse_lines next ls
  ]

  unfoldable pub policy_parse : Bytes → Option Policy
  unfolding parse_lines
  policy_parse text = parse_lines (record { ctxs = []; has_recv_rule = false }) (split_at 10 text)
