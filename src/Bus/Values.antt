-- ===== src/Bus/Values.antt =====
-- A written value of a header field is read back.
use schema_init.Prelude.{
  ℕ, suc, ◌+◌, ◌-◌, ◌^◌, ◌≤◌, ◌<◌, ◌≡◌, refl, sym, ap, ◌∙◌, ◌≢◌, Bool, true, false, none, some, [],
  ◌∷◌, ◌++◌, arith, ltb, leb, ◌==◌, length, get_elem?, drop, length-append, All, Bytes,
}
use mathlib.Core.List.{append_assoc}
use schema_init.Bus.Wire.{
  align, rd_u32, c_string, value, text_at, string_val, signature_val, u32_val,
}
use schema_init.Bus.Forward.{u32_bytes}

pub get_elem?-append : (a b : Bytes) (i : ℕ) → get_elem? (a ++ b) (length a + i) ≡ get_elem? b i
get_elem?-append [] b i = let e : 0 + i ≡ i = omega arith in ap (λ n. get_elem? b n) e
get_elem?-append (x ∷ a) b i =
    let e : suc (length a) + i ≡ suc (length a + i) = omega arith in
    ap (λ n. get_elem? (x ∷ (a ++ b)) n) e ∙ get_elem?-append a b i

pub drop-append : (a b : Bytes) → drop (length a) (a ++ b) ≡ b
drop-append [] b = refl
drop-append (x ∷ a) b = drop-append a b

-- A byte of a C string.
abbrev pub NonZero : ℕ → Type 0
NonZero c = c ≢ 0

pub c_string-append : (val rest : Bytes) → All NonZero val → c_string (val ++ (0 ∷ rest)) ≡ some val
unfolding c_string
c_string-append [] rest h = refl
c_string-append (c ∷ cs) rest h =
    let n : (c == 0) ≡ false = ground (arith, h.0) in rw (n, c_string-append cs rest h.1) refl

pub read_end : (val rest : Bytes) → get_elem? (val ++ (0 ∷ rest)) (length val) ≡ some 0
read_end [] rest = refl
read_end (c ∷ cs) rest = read_end cs rest

-- A buffer from a place on: what stands at `length a + i` is what stands at `i` behind.
module _ (a : Bytes) where
  pub read_at :
      (b : Bytes) (off i : ℕ) → off ≡ length a + i → get_elem? (a ++ b) off ≡ get_elem? b i
  read_at b off i e = ap (λ n. get_elem? (a ++ b) n) e ∙ get_elem?-append a b i

  pub read_u32 :
      (le : Bool) (v : ℕ) (rest : Bytes)
      → v < 2 ^ 32
      → rd_u32 (a ++ (u32_bytes le v ++ rest)) (length a) le ≡ some v
  unfolding rd_u32
  read_u32 true v rest h =
      let b : Bytes = u32_bytes true v ++ rest in
      rw
        (
          read_at b (length a) 0 (omega arith),
          read_at b (length a + 1) 1 refl,
          read_at b (length a + 2) 2 refl,
          read_at b (length a + 3) 3 refl,
        )
        (ap (λ n. some n) (omega (arith, h)))
  read_u32 false v rest h =
      let b : Bytes = u32_bytes false v ++ rest in
      rw
        (
          read_at b (length a) 0 (omega arith),
          read_at b (length a + 1) 1 refl,
          read_at b (length a + 2) 2 refl,
          read_at b (length a + 3) 3 refl,
        )
        (ap (λ n. some n) (omega (arith, h)))

  -- A text with its NUL.
  pub read_text :
      (val rest : Bytes) (header_end : ℕ)
      → All NonZero val
      → length a + length val < header_end
      → text_at (a ++ (val ++ (0 ∷ rest))) header_end (length val) (length a)
        ≡ value (some val) 0 (length a + length val + 1)
  unfolding text_at
  read_text val rest header_end n h =
      let fits : leb (header_end - length a) (length val) ≡ false = ground (arith, h) in
      let nul : get_elem? (a ++ (val ++ (0 ∷ rest))) (length a + length val) ≡ some 0 =
        get_elem?-append a (val ++ (0 ∷ rest)) (length val) ∙ read_end val rest in
      rw (fits, nul, drop-append a (val ++ (0 ∷ rest)), c_string-append val rest n) refl

pub length-u32_bytes : (le : Bool) (v : ℕ) → length (u32_bytes le v) ≡ 4
length-u32_bytes true v = refl
length-u32_bytes false v = refl

-- The same in a buffer that is written otherwise.
pub text_read :
    (buf a val rest : Bytes) (header_end off : ℕ)
    → buf ≡ a ++ (val ++ (0 ∷ rest))
    → off ≡ length a
    → All NonZero val
    → off + length val < header_end
    → text_at buf header_end (length val) off ≡ value (some val) 0 (off + length val + 1)
text_read buf a val rest header_end off e f n h =
    rw (e, f) (read_text a val rest header_end n (omega (arith, f, h)))

pub u32_read :
    (buf a rest : Bytes) (off v : ℕ) (le : Bool)
    → buf ≡ a ++ (u32_bytes le v ++ rest)
    → off ≡ length a
    → v < 2 ^ 32
    → rd_u32 buf off le ≡ some v
u32_read buf a rest off v le e f h = rw (e, f) (read_u32 a le v rest h)

module _ (buf a : Bytes) (le : Bool) (header_end off : ℕ) (aligned : align off 4 ≡ length a) where
  pub string_read :
      (val rest : Bytes)
      → buf ≡ a ++ (u32_bytes le (length val) ++ (val ++ (0 ∷ rest)))
      → All NonZero val
      → length val < 2 ^ 32
      → length a + 4 + length val < header_end
      → string_val buf le header_end off ≡ value (some val) 0 (align off 4 + 4 + length val + 1)
  unfolding string_val
  string_read val rest e n s h =
      let words : Bytes = u32_bytes le (length val) in
      let fits : ltb header_end (align off 4 + 4) ≡ false = ground (arith, h, aligned) in
      let size : align off 4 + 4 ≡ length (a ++ words) =
        omega (arith, aligned, length-append a words, length-u32_bytes le (length val)) in
      let number : rd_u32 buf (align off 4) le ≡ some (length val) =
        u32_read buf a (val ++ (0 ∷ rest)) (align off 4) (length val) le e aligned s in
      rw (fits, number)
        (text_read buf (a ++ words) val rest header_end (align off 4 + 4)
          (e ∙ sym (append_assoc a words (val ++ (0 ∷ rest)))) size n (omega (arith, aligned, h)))

  pub number_read :
      (v : ℕ) (rest : Bytes)
      → buf ≡ a ++ (u32_bytes le v ++ rest)
      → v < 2 ^ 32
      → length a + 4 ≤ header_end
      → u32_val buf le header_end off ≡ value none v (align off 4 + 4)
  unfolding u32_val
  number_read v rest e s h =
      let fits : ltb header_end (align off 4 + 4) ≡ false = ground (arith, h, aligned) in
      rw (fits, u32_read buf a rest (align off 4) v le e aligned s) refl

pub signature_read :
    (buf a : Bytes) (header_end off : ℕ) (val rest : Bytes)
    → buf ≡ a ++ (length val ∷ (val ++ (0 ∷ rest)))
    → off ≡ length a
    → All NonZero val
    → off + 1 + length val < header_end
    → signature_val buf header_end off ≡ value (some val) 0 (off + 1 + length val + 1)
unfolding signature_val
signature_read buf a header_end off val rest e f n h =
    let fits : leb header_end off ≡ false = ground (arith, h) in
    let byte : get_elem? buf off ≡ some (length val) =
      ap (λ b. get_elem? b off) e
      ∙ read_at a (length val ∷ (val ++ (0 ∷ rest))) off 0 (omega (arith, f)) in
    let size : off + 1 ≡ length (a ++ (length val ∷ [])) =
      omega (arith, f, length-append a (length val ∷ [])) in
    rw (fits, byte)
      (text_read buf (a ++ (length val ∷ [])) val rest header_end (off + 1)
        (e ∙ sym (append_assoc a (length val ∷ []) (val ++ (0 ∷ rest)))) size n h)
