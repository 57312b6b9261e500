-- ===== src/Bus/Fields.antt =====
-- A written header field is read back.
use schema_init.Prelude.{
  ℕ, ◌+◌, ◌^◌, ◌≤◌, ◌<◌, ◌≡◌, refl, sym, ap, ◌∙◌, Bool, true, false, ◌||◌, Option, none, some, [],
  ◌∷◌, ◌++◌, arith, ltb, ◌==◌, length, get_elem?, length-append, All, Bytes,
}
use mathlib.Core.List.{append_assoc}
use schema_init.Bus.Wire.{
  WireMsg, align, value, string_val, signature_val, u32_val, field_val, field_type, field_set, next,
  wire_field, field_turn,
}
use schema_init.Bus.Forward.{u32_bytes}
use schema_init.Bus.Values.{NonZero, signature_read, read_at, string_read, number_read}

head_read :
    (buf a rest : Bytes) (header_end off code sig : ℕ) (m : WireMsg)
    → buf ≡ a ++ (code ∷ 1 ∷ sig ∷ 0 ∷ rest)
    → align off 8 ≡ length a
    → length a + 4 ≤ header_end
    → wire_field buf header_end m off
      ≡ field_turn m code sig (field_val buf m.endian_le header_end sig (align off 8 + 2 + 1 + 1))
unfolding wire_field
head_read buf a rest header_end off code sig m e f h =
    let b : Bytes = code ∷ 1 ∷ sig ∷ 0 ∷ rest in
    let room : ltb header_end (align off 8 + 2) ≡ false = ground (arith, f, h) in
    let room' : ltb header_end (align off 8 + 2 + 1 + 1) ≡ false = ground (arith, f, h) in
    let first : get_elem? buf (align off 8) ≡ some code =
      ap (λ x. get_elem? x (align off 8)) e ∙ read_at a b (align off 8) 0 (omega (arith, f)) in
    let second : get_elem? buf (align off 8 + 1) ≡ some 1 =
      ap (λ x. get_elem? x (align off 8 + 1)) e
      ∙ read_at a b (align off 8 + 1) 1 (omega (arith, f)) in
    let third : get_elem? buf (align off 8 + 2) ≡ some sig =
      ap (λ x. get_elem? x (align off 8 + 2)) e
      ∙ read_at a b (align off 8 + 2) 2 (omega (arith, f)) in
    rw (room, first, second, room', third) refl

-- The types that the header fields have.
abbrev pub IsCode : ℕ → ℕ → Type 0
IsCode code sig = (1 ≤ code) × (code ≤ 9) × (field_type code ≡ sig)

field_turn_set :
    (m : WireMsg) (code sig off : ℕ) (sval : Option Bytes) (uval : ℕ)
    → field_type code ≡ sig
    → field_turn m code sig (value sval uval off) ≡ next off (field_set m code sval uval)
field_turn_set m code sig off sval uval t =
    let same : (sig == field_type code) ≡ true = ground (arith, t) in rw same (ground arith)

align_four : (off n : ℕ) → align off 8 ≡ n → align (align off 8 + 2 + 1 + 1) 4 ≡ n + 4
unfolding align
align_four off n e = omega (arith, e)

field_val_text :
    (buf : Bytes) (le : Bool) (header_end sig off : ℕ)
    → (sig == b's' || sig == b'o') ≡ true
    → field_val buf le header_end sig off ≡ string_val buf le header_end off
unfolding field_val
field_val_text buf le header_end sig off k = rw k refl

field_val_signature :
    (buf : Bytes) (le : Bool) (header_end off : ℕ)
    → field_val buf le header_end b'g' off ≡ signature_val buf header_end off
unfolding field_val
field_val_signature buf le header_end off = refl

field_val_number :
    (buf : Bytes) (le : Bool) (header_end off : ℕ)
    → field_val buf le header_end b'u' off ≡ u32_val buf le header_end off
unfolding field_val
field_val_number buf le header_end off = refl

-- A field whose value is read is set.
field_read :
    (buf a rest : Bytes) (header_end off code sig off' : ℕ) (m : WireMsg) (sval : Option Bytes)
    (uval : ℕ)
    → buf ≡ a ++ (code ∷ 1 ∷ sig ∷ 0 ∷ rest)
    → align off 8 ≡ length a
    → length a + 4 ≤ header_end
    → field_type code ≡ sig
    → field_val buf m.endian_le header_end sig (align off 8 + 2 + 1 + 1) ≡ value sval uval off'
    → wire_field buf header_end m off ≡ next off' (field_set m code sval uval)
field_read buf a rest header_end off code sig off' m sval uval e f h t v =
    head_read buf a rest header_end off code sig m e f h
    ∙ (ap (λ x. field_turn m code sig x) v ∙ field_turn_set m code sig off' sval uval t)

module _ (buf a : Bytes) (header_end off code : ℕ) (m : WireMsg)
    (aligned : align off 8 ≡ length a) where
  -- A text field, type 's' or 'o'.
  pub str_field_read :
      (sig : ℕ) (val rest : Bytes)
      → buf
        ≡ a ++ (code ∷ 1 ∷ sig ∷ 0 ∷ (u32_bytes m.endian_le (length val) ++ (val ++ (0 ∷ rest))))
      → (sig == b's' || sig == b'o') ≡ true
      → field_type code ≡ sig
      → All NonZero val
      → length val < 2 ^ 32
      → length a + 8 + length val < header_end
      → wire_field buf header_end m off
        ≡ next (length a + 8 + length val + 1) (field_set m code (some val) 0)
  str_field_read sig val rest e k t n s h =
      let head : Bytes = code ∷ 1 ∷ sig ∷ 0 ∷ [] in
      let words : Bytes = u32_bytes m.endian_le (length val) ++ (val ++ (0 ∷ rest)) in
      let off' : ℕ = align off 8 + 2 + 1 + 1 in
      let size : align off' 4 ≡ length (a ++ head) =
        omega (arith, align_four off (length a) aligned, length-append a head) in
      let ends : align off' 4 + 4 + length val + 1 ≡ length a + 8 + length val + 1 =
        omega (arith, align_four off (length a) aligned) in
      field_read buf a words header_end off code sig (length a + 8 + length val + 1) m (some val) 0
        e aligned (omega (arith, h)) t
        (field_val_text buf m.endian_le header_end sig off' k
          ∙ (string_read buf (a ++ head) m.endian_le header_end off' size val rest
                (e ∙ sym (append_assoc a head words)) n s (omega (arith, h, length-append a head))
              ∙ ap (λ x. value (some val) 0 x) ends))

  pub signature_field_read :
      (val rest : Bytes)
      → buf ≡ a ++ (code ∷ 1 ∷ b'g' ∷ 0 ∷ (length val ∷ (val ++ (0 ∷ rest))))
      → field_type code ≡ b'g'
      → All NonZero val
      → length a + 5 + length val < header_end
      → wire_field buf header_end m off
        ≡ next (length a + 5 + length val + 1) (field_set m code (some val) 0)
  signature_field_read val rest e t n h =
      let head : Bytes = code ∷ 1 ∷ b'g' ∷ 0 ∷ [] in
      let text : Bytes = length val ∷ (val ++ (0 ∷ rest)) in
      let off' : ℕ = align off 8 + 2 + 1 + 1 in
      let size : off' ≡ length (a ++ head) = omega (arith, aligned, length-append a head) in
      let ends : off' + 1 + length val + 1 ≡ length a + 5 + length val + 1 =
        omega (arith, aligned) in
      field_read buf a text header_end off code b'g' (length a + 5 + length val + 1) m (some val) 0
        e aligned (omega (arith, h)) t
        (field_val_signature buf m.endian_le header_end off'
          ∙ (signature_read buf (a ++ head) header_end off' val rest
                (e ∙ sym (append_assoc a head text)) size n (omega (arith, h, aligned))
              ∙ ap (λ x. value (some val) 0 x) ends))

  pub number_field_read :
      (v : ℕ) (rest : Bytes)
      → buf ≡ a ++ (code ∷ 1 ∷ b'u' ∷ 0 ∷ (u32_bytes m.endian_le v ++ rest))
      → field_type code ≡ b'u'
      → v < 2 ^ 32
      → length a + 8 ≤ header_end
      → wire_field buf header_end m off ≡ next (length a + 8) (field_set m code none v)
  number_field_read v rest e t s h =
      let head : Bytes = code ∷ 1 ∷ b'u' ∷ 0 ∷ [] in
      let words : Bytes = u32_bytes m.endian_le v ++ rest in
      let off' : ℕ = align off 8 + 2 + 1 + 1 in
      let size : align off' 4 ≡ length (a ++ head) =
        omega (arith, align_four off (length a) aligned, length-append a head) in
      let ends : align off' 4 + 4 ≡ length a + 8 =
        omega (arith, align_four off (length a) aligned) in
      field_read buf a words header_end off code b'u' (length a + 8) m none v e aligned
        (omega (arith, h)) t
        (field_val_number buf m.endian_le header_end off'
          ∙ (number_read buf (a ++ head) m.endian_le header_end off' size v rest
                (e ∙ sym (append_assoc a head words)) s (omega (arith, h, length-append a head))
              ∙ ap (λ x. value none v x) ends))
