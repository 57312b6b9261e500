-- ===== src/BootGuard.antt =====
-- pi_bootguard.h: which image the Raspberry Pi wrapper boots after failed boots.
pub mod RoundTrip
use schema_init.Prelude.{
  ℕ, zero, suc, ◌+◌, ◌-◌, ◌*◌, ◌/◌, ◌%◌, ◌^◌, ◌≤◌, ◌<◌, ◌≡◌, refl, sym, ap, ◌∙◌, ◌≢◌, ◌↔◌, ◌⊎◌, inl,
  inr, Bool, true, false, not, ◌&&◌, ◌||◌, Option, none, some, List, [], ◌∷◌, ◌++◌, map, arith, ltb,
  leb, ◌==◌, if◌then◌else◌, Bool-cases, Option-cases, one_if, ==_iff, length, get_elem?, set,
  replicate, take, drop, span, length-take_le, length-append, length-replicate, length-set,
  get_elem?-set_self, get_elem?-set_ne, All, Some, Bytes, codes, str_eq, str_eq_iff, str_eq_refl,
  starts_with,
}
use schema_init.Prelude.Decimal.{print_digits, print_decimal, is_digit}

pub data Target : Type 0 where
  current known_good systemd : Target

-- `attempts` is an int that is never negative.
pub record BootState : Type 0 where
  pub attempts : ℕ
  pub last_target : Target

abbrev pub int_max : ℕ
int_max = 2147483647

abbrev pub target_name : Target → Bytes
target_name current = codes "current"
target_name known_good = codes "known-good"
target_name systemd = codes "systemd"

abbrev pub default_state : BootState
default_state = record { attempts = 0; last_target = current }

-- The digits at the head of a text, as a number in front of which `v` has been read; `none` is a
-- number over INT_MAX.
unfoldable pub parse_digits : ℕ → Bytes → Option (ℕ × Bytes)
parse_digits v [] = some (v, [])
parse_digits v (c ∷ cs) =
    let next = v * 10 + (c - b'0') in
    let rest = parse_digits next cs in
    if not (is_digit c) then some (v, c ∷ cs) else if ltb int_max next then none else rest

abbrev pub ends : Bytes → Bool
ends [] = true
ends (c ∷ cs) = c == 10

-- `strncmp(name, ..., l) == 0 && (name[l] == '\n' || name[l] == '\0')`.
unfoldable pub is_target : Target → Bytes → Bool
is_target t name = starts_with (target_name t) name && ends (drop (length (target_name t)) name)

unfoldable pub parse_target : Bytes → Option Target
unfolding is_target
parse_target name =
    if is_target current name
    then some current
    else if is_target known_good name
    then some known_good
    else if is_target systemd name
    then some systemd
    else none

-- What follows the digits: the rest of `pi_state_parse`.
unfoldable pub parse_last : ℕ → Bytes → BootState
unfolding parse_target
parse_last v rest =
    if starts_with (10 ∷ codes "last_target=") rest
    then elim (parse_target (drop 13 rest)) [
      | none ↦ default_state
      | some t ↦ record { attempts = v; last_target = t }
    ]
    else default_state

abbrev pub starts_digit : Bytes → Bool
starts_digit [] = false
starts_digit (c ∷ cs) = is_digit c

-- `pi_state_parse`: any doubt boots current.
unfoldable pub pi_state_parse : Option Bytes → BootState
unfolding parse_last parse_digits
pi_state_parse none = default_state
pi_state_parse (some buf) =
    if not (starts_with (codes "attempts=") buf) || not (starts_digit (drop 9 buf))
    then default_state
    else elim (parse_digits 0 (drop 9 buf)) [
      | none ↦ default_state
      | some (v, rest) ↦ parse_last v rest
    ]

-- `pi_state_format`; the result -1 is `none`.
unfoldable pub pi_state_format : BootState → ℕ → Option Bytes
pi_state_format st n =
    let text =
      codes "attempts="
      ++ (print_decimal st.attempts
          ++ (10 ∷ codes "last_target=" ++ (target_name st.last_target ++ 10 ∷ []))) in
    if leb n (length text) then none else some text

unfoldable pub pi_decide : BootState → Bool → BootState
pi_decide st known_good_differs =
    if st.attempts == 0 || st.attempts == 1
    then record { attempts = st.attempts + 1; last_target = current }
    else if st.attempts == 2 && known_good_differs
    then record { attempts = 3; last_target = known_good }
    else record { attempts = 0; last_target = systemd }

-- The states of a run of boots that all fail, with whether the known good image differs each time.
abbrev pub boots : BootState → List Bool → List BootState
boots st [] = []
boots st (d ∷ ds) = pi_decide st d ∷ boots (pi_decide st d) ds

four_boots :
    (n : ℕ) (t : Target) (a b c d : Bool)
    → Some
        (λ (s : BootState). s.last_target ≡ systemd)
        (boots (record { attempts = n; last_target = t }) (a ∷ b ∷ c ∷ d ∷ []))
unfolding pi_decide
four_boots zero t a b true d = inr (inr (inr (inl refl)))
four_boots zero t a b false d = inr (inr (inl refl))
four_boots (suc zero) t a true c d = inr (inr (inl refl))
four_boots (suc zero) t a false c d = inr (inl refl)
four_boots (suc (suc zero)) t true b c d = inr (inl refl)
four_boots (suc (suc zero)) t false b c d = inl refl
four_boots (suc (suc (suc n))) t a b c d = inl (ground arith)

-- Among any four failed boots in a row, systemd is booted at least once.
pub systemd_within_four :
    (st : BootState) (a b c d : Bool)
    → Some (λ (s : BootState). s.last_target ≡ systemd) (boots st (a ∷ b ∷ c ∷ d ∷ []))
systemd_within_four st a b c d = four_boots st.attempts st.last_target a b c d
