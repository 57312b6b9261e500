-- ===== src/Bus/Wire.antt =====
-- sdbus_wire.h: the parser of a message header.
use schema_init.Prelude.{
  ℕ, zero, suc, ◌+◌, ◌-◌, ◌*◌, ◌/◌, ◌^◌, Bool, true, false, not, ◌&&◌, ◌||◌, Option, none, some, [],
  ◌∷◌, ltb, leb, ◌==◌, if◌then◌else◌, length, get_elem?, drop, Bytes,
}

-- `sdbus_wire_msg`; a NULL pointer is `none`.
pub record WireMsg : Type 0 where
  pub endian_le : Bool
  pub type : ℕ
  pub flags : ℕ
  pub serial : ℕ
  pub reply_serial : ℕ
  pub has_reply_serial : Bool
  pub path : Option Bytes
  pub interface : Option Bytes
  pub member : Option Bytes
  pub error_name : Option Bytes
  pub destination : Option Bytes
  pub sender : Option Bytes
  pub signature : Option Bytes
  pub arg0 : Option Bytes
  pub unix_fds : ℕ
  pub has_unix_fds : Bool
  pub body_offset : ℕ
  pub body_len : ℕ
  pub total_len : ℕ

abbrev pub max_msg : ℕ
max_msg = 128 * 1024 * 1024

-- What `sdbus_wire_parse` returns: 0, -1 or a length with the message. The first two constructors are
-- a read outside the buffer and a loop that does not end.
pub data Parsed : Type 0 where
  out_of_bounds : Parsed
  out_of_fuel : Parsed
  incomplete : Parsed
  corrupt : Parsed
  parsed : WireMsg → Parsed

abbrev pub four_bytes : Option ℕ → Option ℕ → Option ℕ → Option ℕ → Bool → Option ℕ
four_bytes (some a) (some b) (some c) (some d) le = some (
    if le then a + b * 2 ^ 8 + c * 2 ^ 16 + d * 2 ^ 24 else d + c * 2 ^ 8 + b * 2 ^ 16 + a * 2 ^ 24)
four_bytes _ _ _ _ le = none

unfoldable pub rd_u32 : Bytes → ℕ → Bool → Option ℕ
rd_u32 buf off le =
    four_bytes (get_elem? buf off) (get_elem? buf (off + 1)) (get_elem? buf (off + 2))
      (get_elem? buf (off + 3)) le

unfoldable pub align : ℕ → ℕ → ℕ
align off a = (off + (a - 1)) / a * a

-- The C string that starts here.
unfoldable pub c_string : Bytes → Option Bytes
c_string [] = none
c_string (c ∷ cs) =
    let rest : Option Bytes = elim (c_string cs) [ none ↦ none | some s ↦ some (c ∷ s) ] in
    if c == 0 then some [] else rest

-- The value of a header field and the place behind it.
pub data FieldVal : Type 0 where
  unreadable : FieldVal
  malformed : FieldVal
  value : Option Bytes → ℕ → ℕ → FieldVal

-- A text of `l` bytes at `off` with its NUL.
unfoldable pub text_at : Bytes → ℕ → ℕ → ℕ → FieldVal
unfolding c_string
text_at buf header_end l off =
    if leb (header_end - off) l then malformed else elim (get_elem? buf (off + l)) [
      | none ↦ unreadable
      | some z ↦
          if z == 0
          then elim (c_string (drop off buf)) [
            | none ↦ unreadable
            | some s ↦ value (some s) 0 (off + l + 1)
          ]
          else malformed
    ]

unfoldable pub string_val : Bytes → Bool → ℕ → ℕ → FieldVal
string_val buf le header_end off =
    if ltb header_end (align off 4 + 4) then malformed else elim (rd_u32 buf (align off 4) le) [
      | none ↦ unreadable
      | some sl ↦ text_at buf header_end sl (align off 4 + 4)
    ]

unfoldable pub signature_val : Bytes → ℕ → ℕ → FieldVal
signature_val buf header_end off =
    if leb header_end off then malformed else elim (get_elem? buf off) [
      | none ↦ unreadable
      | some gl ↦ text_at buf header_end gl (off + 1)
    ]

unfoldable pub u32_val : Bytes → Bool → ℕ → ℕ → FieldVal
u32_val buf le header_end off =
    if ltb header_end (align off 4 + 4) then malformed else elim (rd_u32 buf (align off 4) le) [
      | none ↦ unreadable
      | some v ↦ value none v (align off 4 + 4)
    ]

unfoldable pub field_val : Bytes → Bool → ℕ → ℕ → ℕ → FieldVal
field_val buf le header_end sig off =
    if sig == b's' || sig == b'o'
    then string_val buf le header_end off
    else if sig == b'g'
    then signature_val buf header_end off
    else if sig == b'u'
    then u32_val buf le header_end off
    else malformed

-- `kfieldtype`, the one type of each field.
unfoldable pub field_type : ℕ → ℕ
field_type code =
    if code == 1
    then b'o'
    else if code == 5 || code == 9
    then b'u'
    else if code == 8
    then b'g'
    else b's'

unfoldable pub field_set : WireMsg → ℕ → Option Bytes → ℕ → WireMsg
field_set m code sval uval =
    if code == 1
    then record m { path = sval }
    else if code == 2
    then record m { interface = sval }
    else if code == 3
    then record m { member = sval }
    else if code == 4
    then record m { error_name = sval }
    else if code == 5
    then record m { reply_serial = uval; has_reply_serial = true }
    else if code == 6
    then record m { destination = sval }
    else if code == 7
    then record m { sender = sval }
    else if code == 8
    then record m { signature = sval }
    else if code == 9
    then record m { unix_fds = uval; has_unix_fds = true }
    else m

-- One turn of the loop over the header fields.
pub data Turn : Type 0 where
  unread : Turn
  bad : Turn
  done : Turn
  next : ℕ → WireMsg → Turn

abbrev pub field_turn : WireMsg → ℕ → ℕ → FieldVal → Turn
field_turn m code sig unreadable = unread
field_turn m code sig malformed = bad
field_turn m code sig (value sval uval off) =
    if leb 1 code && leb code 9 && not (sig == field_type code)
    then bad
    else next off (field_set m code sval uval)

abbrev pub sig_turn : Bytes → ℕ → WireMsg → ℕ → ℕ → ℕ → Turn
sig_turn buf header_end m off code siglen =
    if ltb header_end (off + siglen + 1) then bad else elim (get_elem? buf off) [
      | none ↦ unread
      | some sig ↦
          field_turn m code sig (field_val buf m.endian_le header_end sig (off + siglen + 1))
    ]

abbrev pub code_turn : Bytes → ℕ → WireMsg → ℕ → Option ℕ → Option ℕ → Turn
code_turn buf header_end m off none siglen = unread
code_turn buf header_end m off (some code) none = unread
code_turn buf header_end m off (some code) (some siglen) =
    sig_turn buf header_end m (off + 2) code siglen

unfoldable pub wire_field : Bytes → ℕ → WireMsg → ℕ → Turn
unfolding field_type
wire_field buf header_end m off =
    if ltb header_end (align off 8 + 2)
    then done
    else code_turn buf header_end m (align off 8) (get_elem? buf (align off 8))
        (get_elem? buf (align off 8 + 1))

-- The loop; it has enough fuel if that is the length of the header.
unfoldable pub wire_fields : ℕ → Bytes → ℕ → WireMsg → ℕ → Parsed
wire_fields zero buf header_end m off = out_of_fuel
wire_fields (suc fuel) buf header_end m off =
    let turns : Parsed = elim (wire_field buf header_end m off) [
      | unread ↦ out_of_bounds
      | bad ↦ corrupt
      | done ↦ parsed m
      | next off' m' ↦ wire_fields fuel buf header_end m' off'
    ] in
    if leb header_end off then parsed m else turns

abbrev pub starts_text : Option Bytes → Bool
starts_text none = false
starts_text (some []) = false
starts_text (some (c ∷ cs)) = c == b's' || c == b'o'

-- The first argument, if it is a text.
unfoldable pub wire_arg0 : Bytes → WireMsg → Parsed
unfolding rd_u32 c_string
wire_arg0 buf m =
    if starts_text m.signature && leb 5 m.body_len
    then elim (rd_u32 buf m.body_offset m.endian_le) [
      | none ↦ out_of_bounds
      | some sl ↦
          if ltb sl (m.body_len - 4)
          then elim (get_elem? buf (m.body_offset + 4 + sl)) [
            | none ↦ out_of_bounds
            | some z ↦
                if z == 0
                then elim (c_string (drop (m.body_offset + 4) buf)) [
                  | none ↦ out_of_bounds
                  | some s ↦ parsed (record m { arg0 = some s })
                ]
                else parsed m
          ]
          else parsed m
    ]
    else parsed m

unfoldable pub and_then : Parsed → (WireMsg → Parsed) → Parsed
and_then out_of_bounds f = out_of_bounds
and_then out_of_fuel f = out_of_fuel
and_then incomplete f = incomplete
and_then corrupt f = corrupt
and_then (parsed m) f = f m

abbrev pub fixed_header : Bool → ℕ → ℕ → ℕ → ℕ → ℕ → WireMsg
fixed_header le type flags body_len serial farr = record {
  endian_le = le;
  type = type;
  flags = flags;
  serial = serial;
  reply_serial = 0;
  has_reply_serial = false;
  path = none;
  interface = none;
  member = none;
  error_name = none;
  destination = none;
  sender = none;
  signature = none;
  arg0 = none;
  unix_fds = 0;
  has_unix_fds = false;
  body_offset = align (16 + farr) 8;
  body_len = body_len;
  total_len = align (16 + farr) 8 + body_len;
}

-- The parser behind the fixed header.
unfoldable pub wire_lengths : Bytes → WireMsg → ℕ → Parsed
unfolding wire_fields wire_arg0 and_then
wire_lengths buf m farr =
    if ltb max_msg farr || ltb max_msg m.body_len
    then corrupt
    else if ltb max_msg m.total_len
    then corrupt
    else if ltb (length buf) m.total_len
    then incomplete
    else and_then (wire_fields (suc farr) buf (16 + farr) m 16) (wire_arg0 buf)

abbrev pub words_header : Bool → ℕ → ℕ → Option ℕ → Option ℕ → Option ℕ → Option (WireMsg × ℕ)
words_header le type flags (some body_len) (some serial) (some farr) =
    some (fixed_header le type flags body_len serial farr, farr)
words_header le type flags _ _ _ = none

abbrev pub read_header : Bytes → Bool → Option (WireMsg × ℕ)
read_header (e ∷ type ∷ flags ∷ rest) le =
    words_header le type flags (rd_u32 (e ∷ type ∷ flags ∷ rest) 4 le)
      (rd_u32 (e ∷ type ∷ flags ∷ rest) 8 le) (rd_u32 (e ∷ type ∷ flags ∷ rest) 12 le)
read_header _ le = none

abbrev pub first_byte : Bytes → ℕ
first_byte [] = 0
first_byte (c ∷ cs) = c

unfoldable pub wire_parse : Bytes → Parsed
unfolding wire_lengths
wire_parse buf =
    if ltb (length buf) 16
    then incomplete
    else if not (first_byte buf == b'l') && not (first_byte buf == b'B')
    then corrupt
    else elim (read_header buf (first_byte buf == b'l')) [
      | none ↦ out_of_bounds
      | some (m, farr) ↦ wire_lengths buf m farr
    ]
