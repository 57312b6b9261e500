-- ===== src/Bus/Header.antt =====
-- The header parser on every buffer: it stays inside the buffer, it ends, and its lengths fit.
use schema_init.Prelude.{
  ℕ, suc, ◌+◌, ◌-◌, ◌%◌, ◌≤◌, ◌≡◌, refl, ap, ◌∙◌, inl, inr, Bool, true, false, not, ◌&&◌, ◌||◌,
  Option, none, some, [], ◌∷◌, arith, ltb, leb, ◌==◌, Bool-cases, ==_iff, length, get_elem?, drop,
  Bytes,
}
use schema_init.Bus.Wire.{
  WireMsg, Parsed, out_of_bounds, out_of_fuel, incomplete, corrupt, parsed, rd_u32, align, c_string,
  wire_fields, wire_arg0, and_then, wire_lengths, wire_parse, max_msg, fixed_header, read_header,
  first_byte, starts_text, words_header,
}
use schema_init.Bus.Reads.{byte_read, word_read, get_elem?-drop, c_string-IsRead, IsRead}
use schema_init.Bus.Loop.{SameLengths, align-le8, Keeps, Keeps-trans, wire_fields-Keeps}

arg0_of-Keeps :
    (m : WireMsg) (o : Option Bytes)
    → IsRead o
    → Keeps m (elim o [ none ↦ out_of_bounds | some s ↦ parsed (record m { arg0 = some s }) ])
arg0_of-Keeps m none h = h
arg0_of-Keeps m (some s) h = (refl, refl, refl)

arg0_text-Keeps :
    (buf : Bytes) (m : WireMsg)
    → m.body_offset + m.body_len ≤ length buf
    → leb 5 m.body_len ≡ true
    → starts_text m.signature ≡ true
    → Keeps m (wire_arg0 buf m)
unfolding wire_arg0
arg0_text-Keeps buf m h l s =
    let (sl, g) = word_read buf m.body_offset m.endian_le (ground (arith, l)) in
    elim (Bool-cases (ltb sl (m.body_len - 4))) [
      | inl e ↦
          let (z, n) = byte_read buf (m.body_offset + 4 + sl) (ground (arith, e)) in
          elim (Bool-cases (z == 0)) [
            | inl nul ↦
                let there : get_elem? (drop (m.body_offset + 4) buf) sl ≡ some 0 =
                  get_elem?-drop buf (m.body_offset + 4) sl
                  ∙ (n ∙ ap (λ (x : ℕ). some x) ((==_iff z 0).0 nul)) in
                rw (s, l, g, e, n, nul)
                  (arg0_of-Keeps m (c_string (drop (m.body_offset + 4) buf))
                    (c_string-IsRead (drop (m.body_offset + 4) buf) sl there))
            | inr nul ↦ rw (s, l, g, e, n, nul) (refl, refl, refl)
          ]
      | inr e ↦ rw (s, l, g, e) (refl, refl, refl)
    ]

no_arg0-Keeps :
    (buf : Bytes) (m : WireMsg)
    → (starts_text m.signature && leb 5 m.body_len) ≡ false
    → Keeps m (wire_arg0 buf m)
unfolding wire_arg0
no_arg0-Keeps buf m e = rw e (refl, refl, refl)

wire_arg0-Keeps :
    (buf : Bytes) (m : WireMsg)
    → m.body_offset + m.body_len ≤ length buf
    → Keeps m (wire_arg0 buf m)
wire_arg0-Keeps buf m h = elim (Bool-cases (starts_text m.signature && leb 5 m.body_len)) [
  | inl e ↦ arg0_text-Keeps buf m h (ground (arith, e)) (ground (arith, e))
  | inr e ↦ no_arg0-Keeps buf m e
]

-- What a parse of a buffer promises: it never reads outside, it ends, and a message that it finds lies
-- in the buffer, header first, padded to eight bytes, body behind it, and is not too long.
abbrev pub WellParsed : Bytes → Parsed → Type 0
WellParsed buf out_of_bounds = ⊥
WellParsed buf out_of_fuel = ⊥
WellParsed buf incomplete = Unit {0}
WellParsed buf corrupt = Unit {0}
WellParsed buf (parsed m) =
    (16 ≤ m.body_offset)
    × (m.body_offset % 8 ≡ 0)
    × (m.total_len ≡ m.body_offset + m.body_len)
    × m.total_len ≤ length buf
    × m.total_len ≤ max_msg

and_then-Keeps :
    (m : WireMsg) (p : Parsed) (f : WireMsg → Parsed)
    → Keeps m p
    → ((m' : WireMsg) → SameLengths m m' → Keeps m' (f m'))
    → Keeps m (and_then p f)
unfolding and_then
and_then-Keeps m out_of_bounds f k h = k
and_then-Keeps m out_of_fuel f k h = k
and_then-Keeps m incomplete f k h = tt
and_then-Keeps m corrupt f k h = tt
and_then-Keeps m (parsed m') f k h = Keeps-trans m m' (f m') k (h m' k)

Keeps-WellParsed :
    (buf : Bytes) (m : WireMsg) (p : Parsed)
    → Keeps m p
    → WellParsed buf (parsed m)
    → WellParsed buf p
Keeps-WellParsed buf m out_of_bounds k w = k
Keeps-WellParsed buf m out_of_fuel k w = k
Keeps-WellParsed buf m incomplete k w = tt
Keeps-WellParsed buf m corrupt k w = tt
Keeps-WellParsed buf m (parsed m') k w = rw⁻¹ (k.0, k.1, k.2) w

header-Keeps :
    (buf : Bytes) (m : WireMsg) (farr : ℕ)
    → 16 + farr ≤ length buf
    → m.body_offset + m.body_len ≤ length buf
    → Keeps m (and_then (wire_fields (suc farr) buf (16 + farr) m 16) (wire_arg0 buf))
header-Keeps buf m farr h b =
    and_then-Keeps m (wire_fields (suc farr) buf (16 + farr) m 16) (wire_arg0 buf)
      (wire_fields-Keeps (suc farr) buf (16 + farr) m 16 h (omega arith) (omega arith))
      (λ (m' : WireMsg) (s : SameLengths m m'). wire_arg0-Keeps buf m' (rw⁻¹ (s.0, s.1) b))

align_mod : (off : ℕ) → align off 8 % 8 ≡ 0
unfolding align
align_mod off = omega arith

wire_lengths-WellParsed :
    (buf : Bytes) (le : Bool) (type flags body_len serial farr : ℕ)
    → WellParsed buf (wire_lengths buf (fixed_header le type flags body_len serial farr) farr)
unfolding wire_lengths
wire_lengths-WellParsed buf le type flags body_len serial farr =
    let m = fixed_header le type flags body_len serial farr in
    elim (Bool-cases (ltb max_msg farr || ltb max_msg body_len)) [
      | inl e ↦ rw e tt
      | inr e ↦ elim (Bool-cases (ltb max_msg m.total_len)) [
        | inl l ↦ rw (e, l) tt
        | inr l ↦ elim (Bool-cases (ltb (length buf) m.total_len)) [
          | inl c ↦ rw (e, l, c) tt
          | inr c ↦
              let fits : m.total_len ≤ length buf = ground (arith, c) in
              let head : 16 + farr ≤ m.body_offset = align-le8 (16 + farr) in
              rw (e, l, c)
                (Keeps-WellParsed buf m
                  (and_then (wire_fields (suc farr) buf (16 + farr) m 16) (wire_arg0 buf))
                  (header-Keeps buf m farr (omega (arith, head, fits)) fits)
                  (omega (arith, head), align_mod (16 + farr), refl, fits, ground (arith, l)))
        ]
      ]
    ]

word_header :
    (buf : Bytes) (le : Bool) (type flags : ℕ)
    → 16 ≤ length buf
    → WellParsed buf
        (elim (words_header le type flags (rd_u32 buf 4 le) (rd_u32 buf 8 le) (rd_u32 buf 12 le)) [
          | none ↦ out_of_bounds
          | some (m, farr) ↦ wire_lengths buf m farr
        ])
word_header buf le type flags h =
    let (body_len, p) = word_read buf 4 le (omega arith) in
    let (serial, q) = word_read buf 8 le (omega arith) in
    let (farr, r) = word_read buf 12 le (omega arith) in
    rw (p, q, r) (wire_lengths-WellParsed buf le type flags body_len serial farr)

header_read :
    (buf : Bytes) (le : Bool)
    → 16 ≤ length buf
    → WellParsed buf (elim (read_header buf le) [
      | none ↦ out_of_bounds
      | some (m, farr) ↦ wire_lengths buf m farr
    ])
header_read [] le h = absurd (omega (arith, h))
header_read (a ∷ []) le h = absurd (omega (arith, h))
header_read (a ∷ b ∷ []) le h = absurd (omega (arith, h))
header_read (a ∷ b ∷ c ∷ rest) le h = word_header (a ∷ b ∷ c ∷ rest) le b c h

-- The parser never reads outside the buffer, it ends, and a message that it finds lies in the buffer:
-- its body behind the header, at a multiple of eight, and its whole length not over the maximum.
pub wire_parse-WellParsed : (buf : Bytes) → WellParsed buf (wire_parse buf)
unfolding wire_parse
wire_parse-WellParsed buf = elim (Bool-cases (ltb (length buf) 16)) [
  | inl e ↦ rw e tt
  | inr e ↦ elim (Bool-cases (not (first_byte buf == b'l') && not (first_byte buf == b'B'))) [
    | inl b ↦ rw (e, b) tt
    | inr b ↦ rw (e, b) (header_read buf (first_byte buf == b'l') (ground (arith, e)))
  ]
]
