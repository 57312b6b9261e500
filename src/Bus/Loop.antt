-- ===== src/Bus/Loop.antt =====
-- The loop over the header fields reads inside the buffer, ends, and keeps the lengths of the message.
use schema_init.Prelude.{
  ℕ, zero, suc, ◌+◌, ◌≤◌, ◌<◌, ◌≡◌, refl, ◌∙◌, inl, inr, not, ◌&&◌, Option, arith, ltb, leb, ◌==◌,
  Bool-cases, length, Bytes,
}
use schema_init.Bus.Wire.{
  WireMsg, Parsed, out_of_bounds, out_of_fuel, incomplete, corrupt, parsed, align, FieldVal,
  unreadable, malformed, value, field_val, field_set, Turn, unread, bad, done, next, wire_field,
  wire_fields, field_turn, sig_turn, field_type,
}
use schema_init.Bus.Reads.{byte_read, Fits, field_val-Fits}

-- Two messages have the same lengths.
abbrev pub SameLengths : WireMsg → WireMsg → Type 0
SameLengths m n =
    (m.body_offset ≡ n.body_offset) × (m.body_len ≡ n.body_len) × (m.total_len ≡ n.total_len)

pub field_set-SameLengths :
    (m : WireMsg) (code : ℕ) (sval : Option Bytes) (uval : ℕ)
    → SameLengths m (field_set m code sval uval)
unfolding field_set
field_set-SameLengths m code sval uval = ground arith

-- A turn reads inside the buffer and goes on behind where it stood.
abbrev pub GoesOn : ℕ → WireMsg → Turn → Type 0
GoesOn off m unread = ⊥
GoesOn off m bad = Unit {0}
GoesOn off m done = Unit {0}
GoesOn off m (next off' m') = off < off' × SameLengths m m'

pub field_turn-GoesOn :
    (m : WireMsg) (code sig off off' : ℕ) (v : FieldVal)
    → off < off'
    → Fits off' v
    → GoesOn off m (field_turn m code sig v)
field_turn-GoesOn m code sig off off' unreadable l f = f
field_turn-GoesOn m code sig off off' malformed l f = tt
field_turn-GoesOn m code sig off off' (value s v b) l f =
    elim (Bool-cases (leb 1 code && leb code 9 && not (sig == field_type code))) [
      | inl e ↦ rw e tt
      | inr e ↦ rw e (omega (arith, f), field_set-SameLengths m code s v)
    ]

pub sig_turn-GoesOn :
    (buf : Bytes) (header_end : ℕ) (m : WireMsg) (off off' code siglen : ℕ)
    → header_end ≤ length buf
    → off ≤ off'
    → GoesOn off m (sig_turn buf header_end m off' code siglen)
sig_turn-GoesOn buf header_end m off off' code siglen h l =
    elim (Bool-cases (ltb header_end (off' + siglen + 1))) [
      | inl e ↦ rw e tt
      | inr e ↦
          let (sig, g) = byte_read buf off' (ground (arith, e)) in
          rw (e, g)
            (field_turn-GoesOn m code sig off (off' + siglen + 1)
              (field_val buf m.endian_le header_end sig (off' + siglen + 1)) (omega arith)
              (field_val-Fits buf m.endian_le header_end (off' + siglen + 1) h sig))
    ]

pub align-le8 : (off : ℕ) → off ≤ align off 8
unfolding align
align-le8 off = omega arith

pub wire_field-GoesOn :
    (buf : Bytes) (header_end : ℕ) (m : WireMsg) (off : ℕ)
    → header_end ≤ length buf
    → GoesOn off m (wire_field buf header_end m off)
unfolding wire_field
wire_field-GoesOn buf header_end m off h = elim (Bool-cases (ltb header_end (align off 8 + 2))) [
  | inl e ↦ rw e tt
  | inr e ↦
      let (code, p) = byte_read buf (align off 8) (ground (arith, e)) in
      let (siglen, q) = byte_read buf (align off 8 + 1) (ground (arith, e)) in
      rw (e, p, q)
        (sig_turn-GoesOn buf header_end m off (align off 8 + 2) code siglen h
          (omega (arith, align-le8 off)))
]

-- A parse that reads inside the buffer, ends, and keeps the lengths of a message.
abbrev pub Keeps : WireMsg → Parsed → Type 0
Keeps m out_of_bounds = ⊥
Keeps m out_of_fuel = ⊥
Keeps m incomplete = Unit {0}
Keeps m corrupt = Unit {0}
Keeps m (parsed m') = SameLengths m m'

pub Keeps-trans : (m n : WireMsg) (p : Parsed) → SameLengths m n → Keeps n p → Keeps m p
Keeps-trans m n incomplete s k = tt
Keeps-trans m n corrupt s k = tt
Keeps-trans m n out_of_bounds s k = k
Keeps-trans m n out_of_fuel s k = k
Keeps-trans m n (parsed m') s k = (s.0 ∙ k.0, s.1 ∙ k.1, s.2 ∙ k.2)

pub turn-Keeps :
    (m : WireMsg) (off : ℕ) (rest : ℕ → WireMsg → Parsed) (t : Turn)
    → GoesOn off m t
    → ((off' : ℕ) (m' : WireMsg) → off < off' → Keeps m' (rest off' m'))
    → Keeps m (elim t [
      | unread ↦ out_of_bounds
      | bad ↦ corrupt
      | done ↦ parsed m
      | next off' m' ↦ rest off' m'
    ])
turn-Keeps m off rest unread k ih = k
turn-Keeps m off rest bad k ih = tt
turn-Keeps m off rest done k ih = (refl, refl, refl)
turn-Keeps m off rest (next off' m') k ih = Keeps-trans m m' (rest off' m') k.1 (ih off' m' k.0)

pub wire_fields-Keeps :
    (fuel : ℕ) (buf : Bytes) (header_end : ℕ) (m : WireMsg) (off : ℕ)
    → header_end ≤ length buf
    → 0 < fuel
    → header_end < off + fuel
    → Keeps m (wire_fields fuel buf header_end m off)
unfolding wire_fields
wire_fields-Keeps zero buf header_end m off h z f = absurd (omega (arith, z))
wire_fields-Keeps (suc fuel) buf header_end m off h z f = elim (Bool-cases (leb header_end off)) [
  | inl e ↦ rw e (refl, refl, refl)
  | inr e ↦ rw e (
      turn-Keeps m off (λ (off' : ℕ) (m' : WireMsg). wire_fields fuel buf header_end m' off')
        (wire_field buf header_end m off) (wire_field-GoesOn buf header_end m off h)
        (λ (off' : ℕ) (m' : WireMsg) (l : off < off').
          wire_fields-Keeps fuel buf header_end m' off' h (ground (arith, e, f))
            (omega (arith, l, f))))
]
