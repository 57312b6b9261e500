-- ===== src/BootGuard/RoundTrip.antt =====
-- What pi_state_format writes, pi_state_parse reads back.
use schema_init.Prelude.{
  ℕ, zero, suc, ◌+◌, ◌-◌, ◌*◌, ◌/◌, ◌%◌, ◌≤◌, ◌<◌, ◌≡◌, refl, sym, ap, ◌∙◌, inl, inr, true, false,
  none, some, [], ◌∷◌, ◌++◌, arith, ltb, leb, Bool-cases, length, Bytes, codes, starts_with,
}
use schema_init.Prelude.Decimal.{print_digits, print_decimal, is_digit}
use schema_init.BootGuard.{
  Target, current, known_good, systemd, BootState, int_max, target_name, parse_digits, is_target,
  parse_target, parse_last, starts_digit, pi_state_parse, pi_state_format,
}

pow_ten : ℕ → ℕ
pow_ten zero = 1
pow_ten (suc k) = 10 * pow_ten k

print_digits-append :
    (k n : ℕ) (rest t : Bytes) → print_digits k n rest ++ t ≡ print_digits k n (rest ++ t)
unfolding print_digits
print_digits-append zero n rest t = refl
print_digits-append (suc k) n rest t = elim (Bool-cases (ltb n 10)) [
  | inl b ↦ rw b refl
  | inr b ↦ rw b (print_digits-append k (n / 10) ((b'0' + n % 10) ∷ rest) t)
]

print_digits-digit : (k n : ℕ) (rest : Bytes) → starts_digit (print_digits (suc k) n rest) ≡ true
unfolding print_digits
print_digits-digit zero n rest = elim (Bool-cases (ltb n 10)) [
  | inl b ↦ rw b (ground arith)
  | inr b ↦ rw b (ground arith)
]
print_digits-digit (suc k) n rest = elim (Bool-cases (ltb n 10)) [
  | inl b ↦ rw b (ground arith)
  | inr b ↦ rw (b, print_digits) (print_digits-digit k (n / 10) ((b'0' + n % 10) ∷ rest))
]

parse_digit :
    (v d : ℕ) (rest : Bytes)
    → d < 10
    → v * 10 + d ≤ int_max
    → parse_digits v ((b'0' + d) ∷ rest) ≡ parse_digits (v * 10 + d) rest
unfolding parse_digits
parse_digit v d rest h le =
    let digit : is_digit (b'0' + d) ≡ true = ground arith in
    let value : v * 10 + (b'0' + d - b'0') ≡ v * 10 + d = omega arith in
    let small : ltb int_max (v * 10 + d) ≡ false = ground arith in rw (digit, value, small) refl

parse_digits-print_digits :
    (k n : ℕ) (rest : Bytes)
    → n < pow_ten k
    → n ≤ int_max
    → parse_digits 0 (print_digits k n rest) ≡ parse_digits n rest
unfolding print_digits pow_ten
parse_digits-print_digits zero n rest h le = ap (λ m. parse_digits m rest) (omega (arith, h))
parse_digits-print_digits (suc k) n rest h le = elim (Bool-cases (ltb n 10)) [
  | inl b ↦ rw b (
      parse_digit 0 n rest (ground arith) (omega (arith, le))
      ∙ ap (λ m. parse_digits m rest) (omega arith))
  | inr b ↦ rw b (
      parse_digits-print_digits k (n / 10) ((b'0' + n % 10) ∷ rest) (omega (arith, h))
        (omega (arith, le))
      ∙ parse_digit (n / 10) (n % 10) rest (omega arith) (omega (arith, le))
      ∙ ap (λ m. parse_digits m rest) (omega arith))
]

-- What follows the digits in the file.
abbrev tail : Target → Bytes
tail t = 10 ∷ codes "last_target=" ++ (target_name t ++ 10 ∷ [])

parse_last-tail :
    (v : ℕ) (t : Target) → parse_last v (tail t) ≡ record { attempts = v; last_target = t }
unfolding parse_last parse_target is_target starts_with
parse_last-tail v current = refl
parse_last-tail v known_good = refl
parse_last-tail v systemd = refl

parse_digits-tail : (v : ℕ) (t : Target) → parse_digits v (tail t) ≡ some (v, tail t)
unfolding parse_digits
parse_digits-tail v t = refl

parse_text :
    (v : ℕ) (t : Target)
    → v ≤ int_max
    → pi_state_parse (some (codes "attempts=" ++ (print_decimal v ++ tail t)))
      ≡ record { attempts = v; last_target = t }
unfolding pi_state_parse starts_with print_decimal
parse_text v t le =
    let digits : parse_digits 0 (print_digits 20 v (tail t)) ≡ some (v, tail t) =
      parse_digits-print_digits 20 v (tail t) (unfold pow_ten in omega (arith, le)) le
      ∙ parse_digits-tail v t in
    let first = print_digits-digit 19 v (tail t) in
    rw (print_digits-append 20 v [] (tail t), first, digits) (parse_last-tail v t)

-- A state with an int of attempts that fits its buffer is read back as it was written.
pub pi_state_parse-pi_state_format :
    (st : BootState) (n : ℕ) (text : Bytes)
    → st.attempts ≤ int_max
    → pi_state_format st n ≡ some text
    → pi_state_parse (some text) ≡ st
unfolding pi_state_format
pi_state_parse-pi_state_format st n text le h =
    let whole = codes "attempts=" ++ (print_decimal st.attempts ++ tail st.last_target) in
    elim (Bool-cases (leb n (length whole))) [
      | inl b ↦ let no : none ≡ some text = sym (rw b refl) ∙ h in cc
      | inr b ↦
          let same : some whole ≡ some text = sym (rw b refl) ∙ h in
          ap pi_state_parse (sym same) ∙ parse_text st.attempts st.last_target le
    ]
