-- ===== src/Schema/Weights.antt =====
-- The popcount loop of schema.c: termination, bounds, and the weight of a word given by its bits.
use schema_init.Prelude.{
  ℕ, zero, suc, ◌+◌, ◌*◌, ◌/◌, ◌%◌, ◌^◌, ◌≤◌, ◌<◌, ◌≡◌, refl, ap, ◌∙◌, inl, inr, Bool, true, false,
  List, [], ◌∷◌, arith, ◌==◌, Bool-cases, one_if, length,
}
use schema_init.Schema.{popcount_loop, popcount}

-- A word from its bits, the lowest first.
abbrev pub word : List Bool → ℕ
word [] = 0
word (b ∷ bs) = one_if b + 2 * word bs

-- How many of the bits are set.
abbrev pub count_true : List Bool → ℕ
count_true [] = 0
count_true (b ∷ bs) = one_if b + count_true bs

popcount_loop-zero : (k : ℕ) → popcount_loop k 0 ≡ 0
unfolding popcount_loop
popcount_loop-zero zero = refl
popcount_loop-zero (suc k) = refl

popcount_loop-cons : (k b v : ℕ) → b < 2 → popcount_loop (suc k) (b + 2 * v) ≡ b + popcount_loop k v
unfolding popcount_loop
popcount_loop-cons k b v h = elim (Bool-cases (b + 2 * v == 0)) [
  | inl z ↦
      let b0 : b ≡ 0 = ground arith in
      let v0 : v ≡ 0 = ground arith in rw z (rw (b0, v0) (rw popcount_loop-zero))
  | inr nz ↦
      let low : (b + 2 * v) % 2 ≡ b = omega arith in
      let high : (b + 2 * v) / 2 ≡ v = omega arith in rw nz (rw (low, high))
]

one_if-lt : (b : Bool) → one_if b < 2
one_if-lt true = omega arith
one_if-lt false = omega arith

popcount_loop-word :
    (bs : List Bool) (k : ℕ) → length bs ≤ k → popcount_loop k (word bs) ≡ count_true bs
popcount_loop-word [] k h = popcount_loop-zero k
popcount_loop-word (b ∷ bs) zero h = elim h [ ]
popcount_loop-word (b ∷ bs) (suc k) h =
    popcount_loop-cons k (one_if b) (word bs) (one_if-lt b)
    ∙ ap (λ n. one_if b + n) (popcount_loop-word bs k (omega arith))

-- The weight of a word of at most 32 bits is the number of its set bits: the loop ends in time.
pub popcount-word : (bs : List Bool) → length bs ≤ 32 → popcount (word bs) ≡ count_true bs
unfolding popcount
popcount-word bs h = popcount_loop-word bs 32 h

popcount_loop-le : (k v n : ℕ) → v < 2 ^ n → popcount_loop k v ≤ n
unfolding popcount_loop
popcount_loop-le zero v n h = omega arith
popcount_loop-le (suc k) v zero h = let z : v ≡ 0 = omega arith in rw z (omega arith)
popcount_loop-le (suc k) v (suc n) h =
    let small : v / 2 < 2 ^ n = grind arith in ground (arith, popcount_loop-le k (v / 2) n small)

pub popcount-le : (v n : ℕ) → v < 2 ^ n → popcount v ≤ n
unfolding popcount
popcount-le v n h = popcount_loop-le 32 v n h
