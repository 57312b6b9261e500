-- ===== src/Bus/Reads.antt =====
-- The values of header fields are read inside the buffer.
use schema_init.Prelude.{
  ℕ, zero, suc, ◌+◌, ◌-◌, ◌*◌, ◌^◌, ◌≤◌, ◌<◌, ◌≡◌, refl, ap, ◌∙◌, inl, inr, Bool, true, false, ◌||◌,
  Option, none, some, List, [], ◌∷◌, arith, ltb, leb, ◌==◌, if◌then◌else◌, Bool-cases, ==_iff,
  length, get_elem?, drop, Bytes,
}
use schema_init.Bus.Wire.{
  rd_u32, align, c_string, FieldVal, unreadable, malformed, value, text_at, string_val,
  signature_val, u32_val, field_val,
}

pub byte_read {ℓ} :
    {A : Type ℓ} (xs : List A) (i : ℕ) → i < length xs → (x : A) × (get_elem? xs i ≡ some x)
byte_read [] i h = absurd (omega (arith, h))
byte_read (x ∷ xs) zero h = (x, refl)
byte_read (x ∷ xs) (suc i) h = byte_read xs i (omega (arith, h))

pub word_read :
    (buf : Bytes) (off : ℕ) (le : Bool)
    → off + 4 ≤ length buf
    → (v : ℕ) × (rd_u32 buf off le ≡ some v)
unfolding rd_u32
word_read buf off le h =
    let (a, p) = byte_read buf off (omega arith) in
    let (b, q) = byte_read buf (off + 1) (omega arith) in
    let (c, r) = byte_read buf (off + 2) (omega arith) in
    let (d, s) = byte_read buf (off + 3) (omega arith) in
    (
      (if le
          then a + b * 2 ^ 8 + c * 2 ^ 16 + d * 2 ^ 24
          else d + c * 2 ^ 8 + b * 2 ^ 16 + a * 2 ^ 24),
      rw (p, q, r, s) refl,
    )

pub get_elem?-drop : (buf : Bytes) (i l : ℕ) → get_elem? (drop i buf) l ≡ get_elem? buf (i + l)
get_elem?-drop buf zero l = let e : l ≡ 0 + l = omega arith in ap (λ n. get_elem? buf n) e
get_elem?-drop [] (suc i) l = refl
get_elem?-drop (c ∷ cs) (suc i) l =
    let e : suc (i + l) ≡ suc i + l = omega arith in
    get_elem?-drop cs i l ∙ ap (λ n. get_elem? (c ∷ cs) n) e

abbrev pub IsRead {ℓ} : {A : Type ℓ} → Option A → Type 0
IsRead none = ⊥
IsRead (some a) = Unit {0}

c_string_cons :
    (c : ℕ) (o : Option Bytes) (b : Bool)
    → IsRead o
    → IsRead {A = Bytes} (if b then some [] else elim o [ none ↦ none | some s ↦ some (c ∷ s) ])
c_string_cons c o true h = tt
c_string_cons c none false h = elim h [ ]
c_string_cons c (some s) false h = tt

-- A text ends where a NUL stands.
pub c_string-IsRead : (buf : Bytes) (l : ℕ) → get_elem? buf l ≡ some 0 → IsRead (c_string buf)
unfolding c_string
c_string-IsRead [] l h = cc
c_string-IsRead (c ∷ cs) zero h = let z : c ≡ 0 = cc in rw z tt
c_string-IsRead (c ∷ cs) (suc l) h = c_string_cons c (c_string cs) (c == 0) (c_string-IsRead cs l h)

-- A value was read inside the buffer and ends behind the place where it starts.
abbrev pub Fits : ℕ → FieldVal → Type 0
Fits off unreadable = ⊥
Fits off malformed = Unit {0}
Fits off (value s v off') = off ≤ off'

text_of-Fits :
    (off l : ℕ) (o : Option Bytes)
    → IsRead o
    → Fits off (elim o [ none ↦ unreadable | some s ↦ value (some s) 0 (off + l + 1) ])
text_of-Fits off l none h = elim h [ ]
text_of-Fits off l (some s) h = omega arith

text_at-Fits :
    (buf : Bytes) (header_end l off : ℕ)
    → header_end ≤ length buf
    → off ≤ header_end
    → Fits off (text_at buf header_end l off)
unfolding text_at
text_at-Fits buf header_end l off h k = elim (Bool-cases (leb (header_end - off) l)) [
  | inl e ↦ rw e tt
  | inr e ↦
      let (z, g) = byte_read buf (off + l) (ground (arith, e)) in
      elim (Bool-cases (z == 0)) [
        | inl n ↦
            let zero_there : get_elem? (drop off buf) l ≡ some 0 =
              get_elem?-drop buf off l ∙ (g ∙ ap (λ (n : ℕ). some n) ((==_iff z 0).0 n)) in
            rw (e, g, n)
              (text_of-Fits off l (c_string (drop off buf))
                (c_string-IsRead (drop off buf) l zero_there))
        | inr n ↦ rw (e, g, n) tt
      ]
]

Fits-le : (off off' : ℕ) → off ≤ off' → (v : FieldVal) → Fits off' v → Fits off v
Fits-le off off' h unreadable f = f
Fits-le off off' h malformed f = tt
Fits-le off off' h (value s v b) f = omega (arith, f)

module _ (buf : Bytes) (le : Bool) (header_end off : ℕ) (inside : header_end ≤ length buf) where
  align-le4 : off ≤ align off 4
  unfolding align
  align-le4 = omega arith

  string_val-Fits : Fits off (string_val buf le header_end off)
  unfolding string_val
  string_val-Fits = elim (Bool-cases (ltb header_end (align off 4 + 4))) [
    | inl e ↦ rw e tt
    | inr e ↦
        let (sl, g) = word_read buf (align off 4) le (ground (arith, e)) in
        rw (e, g)
          (Fits-le off (align off 4 + 4) (omega (arith, align-le4))
            (text_at buf header_end sl (align off 4 + 4))
            (text_at-Fits buf header_end sl (align off 4 + 4) inside (ground (arith, e))))
  ]

  signature_val-Fits : Fits off (signature_val buf header_end off)
  unfolding signature_val
  signature_val-Fits = elim (Bool-cases (leb header_end off)) [
    | inl e ↦ rw e tt
    | inr e ↦
        let (gl, g) = byte_read buf off (ground (arith, e)) in
        rw (e, g)
          (Fits-le off (off + 1) (omega arith) (text_at buf header_end gl (off + 1))
            (text_at-Fits buf header_end gl (off + 1) inside (ground (arith, e))))
  ]

  u32_val-Fits : Fits off (u32_val buf le header_end off)
  unfolding u32_val
  u32_val-Fits = elim (Bool-cases (ltb header_end (align off 4 + 4))) [
    | inl e ↦ rw e tt
    | inr e ↦
        let (v, g) = word_read buf (align off 4) le (ground (arith, e)) in
        rw (e, g) (omega (arith, align-le4))
  ]

  pub field_val-Fits : (sig : ℕ) → Fits off (field_val buf le header_end sig off)
  unfolding field_val
  field_val-Fits sig = elim (Bool-cases (sig == b's' || sig == b'o')) [
    | inl e ↦ rw e string_val-Fits
    | inr e ↦ elim (Bool-cases (sig == b'g')) [
      | inl f ↦ rw (e, f) signature_val-Fits
      | inr f ↦ elim (Bool-cases (sig == b'u')) [
        | inl u ↦ rw (e, f, u) u32_val-Fits
        | inr u ↦ rw (e, f, u) tt
      ]
    ]
  ]
