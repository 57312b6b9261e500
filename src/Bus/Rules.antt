-- ===== src/Bus/Rules.antt =====
-- Match rules: what is written is read back, and what is added can be removed.
use schema_init.Prelude.{
  ℕ, ◌+◌, ◌≡◌, refl, sym, ap, ◌∙◌, ◌≢◌, inl, inr, true, false, ◌||◌, Option, none, some, List, [],
  ◌∷◌, ◌++◌, arith, ◌==◌, if◌then◌else◌, Bool-cases, one_if, All, Bytes, codes, str_eq, str_eq_iff,
}
use mathlib.Core.Path.{subst}
use schema_init.Bus.Match.{
  MatchRule, blank_rule, set_slot, between, in_key, at_quote, in_value, parse_from, parse_rule,
  match_remove, last_rule, but_last_rule,
}

-- A rule as a client writes it.
abbrev pub render : List (Bytes × Bytes) → Bytes
render [] = []
render (p ∷ []) = p.0 ++ (codes "='" ++ (p.1 ++ 39 ∷ []))
render (p ∷ q ∷ ps) = p.0 ++ (codes "='" ++ (p.1 ++ (39 ∷ b',' ∷ render (q ∷ ps))))

abbrev pub set_slots : MatchRule → List (Bytes × Bytes) → MatchRule
set_slots r [] = r
set_slots r (p ∷ ps) = set_slots (set_slot r p.0 p.1) ps

-- A byte that ends no key, and one that ends no value.
abbrev pub KeyByte : ℕ → Type 0
KeyByte c = (c ≢ b'=') × (c ≢ b',') × (c ≢ b' ')

abbrev pub ValueByte : ℕ → Type 0
ValueByte c = c ≢ 39

abbrev pub IsPair : Bytes × Bytes → Type 0
IsPair p = All KeyByte p.0 × All ValueByte p.1

append-cons : (k : Bytes) (c : ℕ) (cs : Bytes) → (k ++ c ∷ []) ++ cs ≡ k ++ c ∷ cs
append-cons [] c cs = refl
append-cons (x ∷ k) c cs = ap (λ t. x ∷ t) (append-cons k c cs)

append-nil : (k : Bytes) → k ++ [] ≡ k
append-nil [] = refl
append-nil (x ∷ k) = ap (λ t. x ∷ t) (append-nil k)

parse_key :
    (k key : Bytes) (r : MatchRule) (rest : Bytes)
    → All KeyByte key
    → parse_from (in_key k) r (key ++ b'=' ∷ rest) ≡ parse_from (at_quote (k ++ key)) r rest
unfolding parse_from
parse_key k [] r rest a = ap (λ t. parse_from (at_quote t) r rest) (sym (append-nil k))
parse_key k (c ∷ cs) r rest a =
    let not_eq : (c == b'=') ≡ false = ground (arith, a.0) in
    let not_comma : (c == b',') ≡ false = ground (arith, a.0) in
    rw (not_eq, not_comma)
      (parse_key (k ++ c ∷ []) cs r rest a.1
        ∙ ap (λ t. parse_from (at_quote t) r rest) (append-cons k c cs))

parse_value :
    (k v val : Bytes) (r : MatchRule) (rest : Bytes)
    → All ValueByte val
    → parse_from (in_value k v) r (val ++ 39 ∷ rest)
      ≡ parse_from between (set_slot r k (v ++ val)) rest
unfolding parse_from
parse_value k v [] r rest a =
    ap (λ t. parse_from between (set_slot r k t) rest) (sym (append-nil v))
parse_value k v (c ∷ cs) r rest a =
    let inside : (c == 39) ≡ false = ground (arith, a.0) in
    rw inside (
      parse_value k (v ++ c ∷ []) cs r rest a.1
      ∙ ap (λ t. parse_from between (set_slot r k t) rest) (append-cons v c cs))

parse_pair :
    (p : Bytes × Bytes) (r : MatchRule) (rest : Bytes)
    → IsPair p
    → parse_from between r (p.0 ++ (codes "='" ++ (p.1 ++ 39 ∷ rest)))
      ≡ parse_from between (set_slot r p.0 p.1) rest
unfolding parse_from
parse_pair ([], val) r rest (a, b) = parse_value [] [] val r rest b
parse_pair (c ∷ cs, val) r rest (a, b) =
    let not_eq : (c == b'=') ≡ false = ground (arith, a.0) in
    let not_skip : (c == b' ' || c == b',') ≡ false = ground (arith, a.0) in
    rw (not_skip, not_eq)
      (parse_key (c ∷ []) cs r (39 ∷ (val ++ 39 ∷ rest)) a.1 ∙ parse_value (c ∷ cs) [] val r rest b)

parse_end : (r : MatchRule) → parse_from between r [] ≡ some r
unfolding parse_from
parse_end r = refl

parse_comma :
    (r : MatchRule) (rest : Bytes) → parse_from between r (b',' ∷ rest) ≡ parse_from between r rest
unfolding parse_from
parse_comma r rest = refl

parse_render :
    (ps : List (Bytes × Bytes)) (r : MatchRule)
    → All IsPair ps
    → parse_from between r (render ps) ≡ some (set_slots r ps)
parse_render [] r a = parse_end r
parse_render (p ∷ []) r a = parse_pair p r [] a.0 ∙ parse_end _
parse_render (p ∷ q ∷ ps) r a =
    parse_pair p r (b',' ∷ render (q ∷ ps)) a.0
    ∙ (parse_comma _ _ ∙ parse_render (q ∷ ps) (set_slot r p.0 p.1) a.1)

-- A rule of pairs whose keys hold no '=', ',' or blank and whose values hold no quote is read as
-- these pairs, set one after the other, and its text is kept.
pub parse_rule-render :
    (ps : List (Bytes × Bytes))
    → All IsPair ps
    → parse_rule (render ps) ≡ some (record (set_slots blank_rule ps) { raw = render ps })
unfolding parse_rule
parse_rule-render ps a = rw (parse_render ps blank_rule a, parse_rule) refl

-- How many rules have a text.
abbrev pub raw_count : Bytes → List MatchRule → ℕ
raw_count t [] = 0
raw_count t (r ∷ rs) = one_if (str_eq r.raw t) + raw_count t rs

raw_count-append :
    (t : Bytes) (rs ss : List MatchRule) → raw_count t (rs ++ ss) ≡ raw_count t rs + raw_count t ss
raw_count-append t [] ss = omega arith
raw_count-append t (r ∷ rs) ss = omega (arith, raw_count-append t rs ss)

raw_count-last :
    (t : Bytes) (s : MatchRule) (ss : List MatchRule)
    → raw_count t (last_rule s ss ∷ but_last_rule (s ∷ ss)) ≡ raw_count t (s ∷ ss)
raw_count-last t s [] = refl
raw_count-last t s (u ∷ us) = omega (arith, raw_count-last t u us)

-- The texts of the rules after a removal: one less of that text.
abbrev pub Removed : Bytes → Bytes → List MatchRule → Option (List MatchRule) → Type 0
Removed rule t m none = raw_count rule m ≡ 0
Removed rule t m (some m') = raw_count t m ≡ raw_count t m' + one_if (str_eq rule t)

str_eq_swap : (a b t : Bytes) → str_eq a b ≡ true → str_eq a t ≡ str_eq b t
str_eq_swap a b t e = ap (λ (x : Bytes). str_eq x t) ((str_eq_iff a b).0 e)

text_found :
    (r : MatchRule) (rs : List MatchRule) (rule t : Bytes)
    → str_eq r.raw rule ≡ true
    → Removed rule t
        (r ∷ rs)
        (elim rs [ [] ↦ some [] | s ∷ ss ↦ some (last_rule s ss ∷ but_last_rule (s ∷ ss)) ])
text_found r [] rule t e = omega (arith, ap one_if (str_eq_swap r.raw rule t e))
text_found r (s ∷ ss) rule t e =
    omega (arith, ap one_if (str_eq_swap r.raw rule t e), raw_count-last t s ss)

text_skipped :
    (r : MatchRule) (rs : List MatchRule) (rule t : Bytes) (o : Option (List MatchRule))
    → str_eq r.raw rule ≡ false
    → Removed rule t rs o
    → Removed rule t (r ∷ rs) (elim o [ none ↦ none | some rs' ↦ some (r ∷ rs') ])
text_skipped r rs rule t none e h = omega (arith, ap one_if e, h)
text_skipped r rs rule t (some m') e h = omega (arith, h)

-- A removal takes one rule with that text away and no other; it fails only if there is none.
pub match_remove-raw_count :
    (m : List MatchRule) (rule t : Bytes) → Removed rule t m (match_remove m rule)
unfolding match_remove
match_remove-raw_count [] rule t = refl
match_remove-raw_count (r ∷ rs) rule t =
    let ih = match_remove-raw_count rs rule t in
    elim (Bool-cases (str_eq r.raw rule)) [
      | inl e ↦
          subst
            (λ b. Removed rule t (r ∷ rs) (
              if◌then◌else◌ {A = Option (List MatchRule)} b
                (elim rs [ [] ↦ some [] | s ∷ ss ↦ some (last_rule s ss ∷ but_last_rule (s ∷ ss)) ])
                (elim (match_remove rs rule) [ none ↦ none | some rs' ↦ some (r ∷ rs') ])))
            (sym e) (text_found r rs rule t e)
      | inr e ↦
          subst
            (λ b. Removed rule t (r ∷ rs) (
              if◌then◌else◌ {A = Option (List MatchRule)} b
                (elim rs [ [] ↦ some [] | s ∷ ss ↦ some (last_rule s ss ∷ but_last_rule (s ∷ ss)) ])
                (elim (match_remove rs rule) [ none ↦ none | some rs' ↦ some (r ∷ rs') ])))
            (sym e) (text_skipped r rs rule t (match_remove rs rule) e ih)
    ]
