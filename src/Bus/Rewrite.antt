-- ===== src/Bus/Rewrite.antt =====
-- What the writer appends, and the parser's run over it.
use schema_init.Prelude.{
  ℕ, zero, suc, ◌+◌, ◌-◌, ◌*◌, ◌/◌, ◌%◌, ◌^◌, ◌≤◌, ◌<◌, ◌≡◌, refl, ap, ◌∙◌, Bool, false, [], ◌∷◌,
  ◌++◌, arith, leb, ◌==◌, length, replicate, length-append, length-replicate, Bytes,
}
use mathlib.Core.List.{append_assoc}
use schema_init.Bus.Wire.{WireMsg, align, next, wire_field, wire_fields}
use schema_init.Bus.Forward.{u32_bytes, w_align, w_u32, w_field_head, w_str_field, w_u32_field}
use schema_init.Bus.Values.{length-u32_bytes}

pub append-nil : (k : Bytes) → k ++ [] ≡ k
append-nil [] = refl
append-nil (x ∷ k) = ap (λ t. x ∷ t) (append-nil k)

-- A buffer whose length is a multiple of four is not padded.
pub w_align_four : (w : Bytes) → length w % 4 ≡ 0 → w_align w 4 ≡ w
unfolding w_align align
w_align_four w h =
    let none_left : (length w + 3) / 4 * 4 - length w ≡ 0 = omega (arith, h) in
    rw none_left (append-nil w)

pub length-w_align_eight : (w : Bytes) → length (w_align w 8) ≡ align (length w) 8
unfolding w_align align
length-w_align_eight w = omega (
  arith,
  length-append w (replicate ((length w + 7) / 8 * 8 - length w) 0),
  length-replicate {A = ℕ} ((length w + 7) / 8 * 8 - length w) 0,
)

head_size : (w : Bytes) (code sigc : ℕ) → length (w_field_head w code sigc) ≡ align (length w) 8 + 4
unfolding w_field_head
head_size w code sigc =
    omega (arith, length-append (w_align w 8) (code ∷ 1 ∷ sigc ∷ 0 ∷ []), length-w_align_eight w)

align_mod_four : (n : ℕ) → (align n 8 + 4) % 4 ≡ 0
unfolding align
align_mod_four n = omega arith

w_u32_head :
    (le : Bool) (w : Bytes) (code sigc v : ℕ)
    → w_u32 le (w_field_head w code sigc) v ≡ w_field_head w code sigc ++ u32_bytes le v
unfolding w_u32
w_u32_head le w code sigc v =
    ap (λ x. x ++ u32_bytes le v)
      (w_align_four (w_field_head w code sigc)
        (ap (λ n. n % 4) (head_size w code sigc) ∙ align_mod_four (length w)))

head_bytes :
    (w : Bytes) (code sigc : ℕ)
    → w_field_head w code sigc ≡ w_align w 8 ++ (code ∷ 1 ∷ sigc ∷ 0 ∷ [])
unfolding w_field_head
head_bytes w code sigc = refl

-- The bytes that a text field appends, with what follows it.
pub str_field_bytes :
    (le : Bool) (w : Bytes) (code sigc : ℕ) (val rest : Bytes)
    → (sigc == b'g') ≡ false
    → length val < 2 ^ 32
    → w_str_field le w code sigc val ++ rest
      ≡ w_align w 8 ++ (code ∷ 1 ∷ sigc ∷ 0 ∷ (u32_bytes le (length val) ++ (val ++ (0 ∷ rest))))
unfolding w_str_field
str_field_bytes le w code sigc val rest g s =
    let size : length val % 2 ^ 32 ≡ length val = omega (arith, s) in
    rw g (rw size (rw (w_u32_head le w code sigc (length val)) (simp (head_bytes, append_assoc))))

pub signature_field_bytes :
    (le : Bool) (w : Bytes) (code : ℕ) (val rest : Bytes)
    → length val < 256
    → w_str_field le w code b'g' val ++ rest
      ≡ w_align w 8 ++ (code ∷ 1 ∷ b'g' ∷ 0 ∷ (length val ∷ (val ++ (0 ∷ rest))))
unfolding w_str_field
signature_field_bytes le w code val rest s =
    let size : length val % 256 ≡ length val = omega (arith, s) in
    rw size (simp (head_bytes, append_assoc))

pub u32_field_bytes :
    (le : Bool) (w : Bytes) (code v : ℕ) (rest : Bytes)
    → w_u32_field le w code v ++ rest
      ≡ w_align w 8 ++ (code ∷ 1 ∷ b'u' ∷ 0 ∷ (u32_bytes le v ++ rest))
unfolding w_u32_field
u32_field_bytes le w code v rest =
    rw (w_u32_head le w code b'u' v) (simp (head_bytes, append_assoc))

-- The lengths.
pub length-str_field :
    (le : Bool) (w : Bytes) (code sigc : ℕ) (val : Bytes)
    → (sigc == b'g') ≡ false
    → length (w_str_field le w code sigc val) ≡ align (length w) 8 + 8 + length val + 1
unfolding w_str_field
length-str_field le w code sigc val g = rw g (
    rw (w_u32_head le w code sigc (length val % 2 ^ 32)) (
      omega (
        arith,
        length-append (w_field_head w code sigc ++ u32_bytes le (length val % 2 ^ 32))
            (val ++ (0 ∷ [])),
        length-append (w_field_head w code sigc) (u32_bytes le (length val % 2 ^ 32)),
        length-append val (0 ∷ []),
        head_size w code sigc,
        length-u32_bytes le (length val % 2 ^ 32),
      )))

pub length-signature_field :
    (le : Bool) (w : Bytes) (code : ℕ) (val : Bytes)
    → length (w_str_field le w code b'g' val) ≡ align (length w) 8 + 5 + length val + 1
unfolding w_str_field
length-signature_field le w code val = omega (
  arith,
  length-append (w_field_head w code b'g') ((length val % 256) ∷ (val ++ (0 ∷ []))),
  length-append val (0 ∷ []),
  head_size w code b'g',
)

pub length-u32_field :
    (le : Bool) (w : Bytes) (code v : ℕ) → length (w_u32_field le w code v) ≡ align (length w) 8 + 8
unfolding w_u32_field
length-u32_field le w code v = rw (w_u32_head le w code b'u' v) (
    omega (
      arith,
      length-append (w_field_head w code b'u') (u32_bytes le v),
      head_size w code b'u',
      length-u32_bytes le v,
    ))

pub align_shift : (p n : ℕ) → p % 8 ≡ 0 → align (p + n) 8 ≡ p + align n 8
unfolding align
align_shift p n h = omega (arith, h)

pub align_more : (n : ℕ) → n ≤ align n 8
unfolding align
align_more n = omega arith

-- The buffer begins with `start`, of a length divisible by eight, and its fields end at `header_end`.
module _ (buf start : Bytes) (header_end : ℕ) (even : length start % 8 ≡ 0) where
  -- With enough fuel the loop comes from the end of `w` to the end of `w'`.
  abbrev pub Runs : Bytes → WireMsg → Bytes → WireMsg → Type 0
  Runs w m w' m' =
      (fuel : ℕ)
      → header_end < length start + length w + fuel
      → (fuel' : ℕ) × (header_end < length start + length w' + fuel')
        × (wire_fields fuel buf header_end m (length start + length w)
            ≡ wire_fields fuel' buf header_end m' (length start + length w'))

  -- If the buffer goes on as written up to `w'`, then up to `w` too, and the loop runs between them.
  abbrev pub Links : Bytes → WireMsg → Bytes → WireMsg → Type 0
  Links w m w' m' =
      (tail : Bytes)
      → buf ≡ start ++ (w' ++ tail)
      → length start + length w' ≤ header_end
      → (tail' : Bytes) × (buf ≡ start ++ (w ++ tail'))
        × (length start + length w ≤ header_end)
        × Runs w m w' m'

  pub Links-refl : (w : Bytes) (m : WireMsg) → Links w m w m
  Links-refl w m tail e h =
      (tail, e, h, λ (fuel : ℕ) (l : header_end < length start + length w + fuel). (fuel, l, refl))

  pub Links-trans :
      (w : Bytes) (m : WireMsg) (w' : Bytes) (m' : WireMsg) (w'' : Bytes) (m'' : WireMsg)
      → Links w m w' m'
      → Links w' m' w'' m''
      → Links w m w'' m''
  Links-trans w m w' m' w'' m'' f g tail e h =
      let (t1, e1, h1, r1) = g tail e h in
      let (t2, e2, h2, r2) = f t1 e1 h1 in
      (
        t2,
        e2,
        h2,
        λ (fuel : ℕ) (l : header_end < length start + length w + fuel).
            let (f1, l1, q1) = r2 fuel l in let (f2, l2, q2) = r1 f1 l1 in (f2, l2, q1 ∙ q2),
      )

  -- One turn of the loop.
  pub turn-Runs :
      (w : Bytes) (m : WireMsg) (w' : Bytes) (m' : WireMsg)
      → wire_field buf header_end m (length start + length w) ≡ next (length start + length w') m'
      → length w < length w'
      → length start + length w' ≤ header_end
      → Runs w m w' m'
  unfolding wire_fields
  turn-Runs w m w' m' t l h zero f = absurd (omega (arith, l, h, f))
  turn-Runs w m w' m' t l h (suc fuel) f =
      let more : leb header_end (length start + length w) ≡ false = ground (arith, l, h) in
      (fuel, omega (arith, f, l), rw (more, t) refl)
