-- ===== src/Bus/Links.antt =====
-- Each field that the writer appends is one turn of the parser's loop.
use schema_init.Prelude.{
  ℕ, ◌+◌, ◌-◌, ◌%◌, ◌^◌, ◌≤◌, ◌<◌, ◌≡◌, refl, sym, ap, ◌∙◌, Bool, true, false, ◌||◌, Option, none,
  some, ◌∷◌, ◌++◌, arith, ◌==◌, if◌then◌else◌, length, replicate, length-append, All, Bytes,
}
use mathlib.Core.List.{append_assoc}
use schema_init.Bus.Wire.{WireMsg, align, field_type, field_set, next, wire_field}
use schema_init.Bus.Forward.{u32_bytes, w_align, w_str_field, w_u32_field, w_str_if, w_u32_if}
use schema_init.Bus.Fields.{str_field_read, signature_field_read, number_field_read}
use schema_init.Bus.Values.{NonZero}
use schema_init.Bus.Rewrite.{
  Links, Links-refl, turn-Runs, str_field_bytes, signature_field_bytes, u32_field_bytes,
  length-str_field, length-signature_field, length-u32_field, align_shift, align_more,
  length-w_align_eight,
}

padded : (w : Bytes) → w_align w 8 ≡ w ++ replicate (align (length w) 8 - length w) 0
unfolding w_align
padded w = refl

-- A text field as far as it is there.
abbrev pub HasText : ℕ → Option Bytes → Type 0
HasText bound none = Unit {0}
HasText bound (some val) = All NonZero val × length val < bound

abbrev pub set_if : WireMsg → ℕ → Option Bytes → WireMsg
set_if m code none = m
set_if m code (some val) = field_set m code (some val) 0

abbrev pub set_num_if : WireMsg → ℕ → Bool → ℕ → WireMsg
set_num_if m code has v = if has then field_set m code none v else m

module _ (buf start : Bytes) (header_end : ℕ) (even : length start % 8 ≡ 0) (w : Bytes)
    (m : WireMsg) where
  -- The place of the padded buffer.
  aligned_at : align (length start + length w) 8 ≡ length (start ++ w_align w 8)
  aligned_at = omega (
    arith,
    align_shift (length start) (length w) even,
    length-append start (w_align w 8),
    length-w_align_eight w,
  )

  -- A buffer that goes on with `w` padded goes on with `w`.
  unpadded :
      (rest : Bytes)
      → buf ≡ (start ++ w_align w 8) ++ rest
      → buf ≡ start ++ (w ++ (replicate (align (length w) 8 - length w) 0 ++ rest))
  unpadded rest e =
      e
      ∙ (append_assoc start (w_align w 8) rest
          ∙ ap (λ x. start ++ x)
              (ap (λ x. x ++ rest) (padded w)
                ∙ append_assoc w (replicate (align (length w) 8 - length w) 0) rest))

  -- What a field that reads back gives.
  Links-field :
      (w' : Bytes) (rest : Bytes → Bytes) (m' : WireMsg)
      → ((tail : Bytes) → w' ++ tail ≡ w_align w 8 ++ rest tail)
      → length w < length w'
      → ((tail : Bytes)
          → buf ≡ (start ++ w_align w 8) ++ rest tail
          → length start + length w' ≤ header_end
          → wire_field buf header_end m (length start + length w)
            ≡ next (length start + length w') m')
      → Links buf start header_end even w m w' m'
  Links-field w' rest m' written l turn tail e h =
      let bytes : buf ≡ (start ++ w_align w 8) ++ rest tail =
        e
        ∙ (ap (λ x. start ++ x) (written tail)
            ∙ sym (append_assoc start (w_align w 8) (rest tail))) in
      (
        replicate (align (length w) 8 - length w) 0 ++ rest tail,
        unpadded (rest tail) bytes,
        omega (arith, l, h),
        turn-Runs buf start header_end even w m w' m' (turn tail bytes h) l h,
      )

  pub Links-str_field :
      (code sigc : ℕ) (val : Bytes)
      → (sigc == b's' || sigc == b'o') ≡ true
      → field_type code ≡ sigc
      → All NonZero val
      → length val < 2 ^ 32
      → Links buf start header_end even w m
          (w_str_field m.endian_le w code sigc val)
          (field_set m code (some val) 0)
  Links-str_field code sigc val k t n s =
      let le : Bool = m.endian_le in
      let w' : Bytes = w_str_field le w code sigc val in
      let text : (sigc == b'g') ≡ false = ground (arith, k) in
      let size : length w' ≡ align (length w) 8 + 8 + length val + 1 =
        length-str_field le w code sigc val text in
      let at : length (start ++ w_align w 8) + 8 + length val + 1 ≡ length start + length w' =
        omega (arith, size, length-append start (w_align w 8), length-w_align_eight w) in
      Links-field w'
        (λ (tail : Bytes). code ∷ 1 ∷ sigc ∷ 0 ∷ (u32_bytes le (length val) ++ (val ++ (0 ∷ tail))))
        (field_set m code (some val) 0)
        (λ (tail : Bytes). str_field_bytes le w code sigc val tail text s)
        (omega (arith, size, align_more (length w)))
        (λ tail e h.
          str_field_read buf (start ++ w_align w 8) header_end (length start + length w) code m
            aligned_at sigc val tail e k t n s (omega (arith, at, h))
          ∙ ap (λ x. next x (field_set m code (some val) 0)) at)

  Links-signature_field :
      (code : ℕ) (val : Bytes)
      → field_type code ≡ b'g'
      → All NonZero val
      → length val < 256
      → Links buf start header_end even w m
          (w_str_field m.endian_le w code b'g' val)
          (field_set m code (some val) 0)
  Links-signature_field code val t n s =
      let le : Bool = m.endian_le in
      let w' : Bytes = w_str_field le w code b'g' val in
      let size : length w' ≡ align (length w) 8 + 5 + length val + 1 =
        length-signature_field le w code val in
      let at : length (start ++ w_align w 8) + 5 + length val + 1 ≡ length start + length w' =
        omega (arith, size, length-append start (w_align w 8), length-w_align_eight w) in
      Links-field w' (λ (tail : Bytes). code ∷ 1 ∷ b'g' ∷ 0 ∷ (length val ∷ (val ++ (0 ∷ tail))))
        (field_set m code (some val) 0)
        (λ (tail : Bytes). signature_field_bytes le w code val tail s)
        (omega (arith, size, align_more (length w)))
        (λ tail e h.
          signature_field_read buf (start ++ w_align w 8) header_end (length start + length w) code
            m aligned_at val tail e t n (omega (arith, at, h))
          ∙ ap (λ x. next x (field_set m code (some val) 0)) at)

  Links-u32_field :
      (code v : ℕ)
      → field_type code ≡ b'u'
      → v < 2 ^ 32
      → Links buf start header_end even w m
          (w_u32_field m.endian_le w code v)
          (field_set m code none v)
  Links-u32_field code v t s =
      let le : Bool = m.endian_le in
      let w' : Bytes = w_u32_field le w code v in
      let size : length w' ≡ align (length w) 8 + 8 = length-u32_field le w code v in
      let at : length (start ++ w_align w 8) + 8 ≡ length start + length w' =
        omega (arith, size, length-append start (w_align w 8), length-w_align_eight w) in
      Links-field w' (λ (tail : Bytes). code ∷ 1 ∷ b'u' ∷ 0 ∷ (u32_bytes le v ++ tail))
        (field_set m code none v) (λ (tail : Bytes). u32_field_bytes le w code v tail)
        (omega (arith, size, align_more (length w)))
        (λ tail e h.
          number_field_read buf (start ++ w_align w 8) header_end (length start + length w) code m
            aligned_at v tail e t s (omega (arith, at, h))
          ∙ ap (λ x. next x (field_set m code none v)) at)

  pub Links-str_if :
      (code sigc : ℕ) (val : Option Bytes)
      → (sigc == b's' || sigc == b'o') ≡ true
      → field_type code ≡ sigc
      → HasText (2 ^ 32) val
      → Links buf start header_end even w m
          (w_str_if m.endian_le w code sigc val)
          (set_if m code val)
  Links-str_if code sigc none k t h = Links-refl buf start header_end even w m
  Links-str_if code sigc (some val) k t h = Links-str_field code sigc val k t h.0 h.1

  pub Links-signature_if :
      (code : ℕ) (val : Option Bytes)
      → field_type code ≡ b'g'
      → HasText 256 val
      → Links buf start header_end even w m
          (w_str_if m.endian_le w code b'g' val)
          (set_if m code val)
  Links-signature_if code none t h = Links-refl buf start header_end even w m
  Links-signature_if code (some val) t h = Links-signature_field code val t h.0 h.1

  pub Links-u32_if :
      (code : ℕ) (has : Bool) (v : ℕ)
      → field_type code ≡ b'u'
      → v < 2 ^ 32
      → Links buf start header_end even w m
          (w_u32_if m.endian_le w code has v)
          (set_num_if m code has v)
  Links-u32_if code false v t s = Links-refl buf start header_end even w m
  Links-u32_if code true v t s = Links-u32_field code v t s
