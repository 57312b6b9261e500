-- ===== src/Bus/Forward.antt =====
-- sdbus_wire.h: the writer that rebuilds a header with the sender's verified name.
use schema_init.Prelude.{
  ℕ, ◌-◌, ◌/◌, ◌%◌, ◌^◌, Bool, true, false, Option, none, some, [], ◌∷◌, ◌++◌, ◌==◌, if◌then◌else◌,
  length, replicate, take, drop, Bytes,
}
use schema_init.Bus.Wire.{WireMsg, align}

-- The buffer of an `sdbus__w` is the bytes written so far; it grows as needed.
unfoldable pub w_align : Bytes → ℕ → Bytes
w_align w a = w ++ replicate (align (length w) a - length w) 0

abbrev pub u32_bytes : Bool → ℕ → Bytes
u32_bytes true v = (v % 256) ∷ (v / 2 ^ 8 % 256) ∷ (v / 2 ^ 16 % 256) ∷ (v / 2 ^ 24 % 256) ∷ []
u32_bytes false v = (v / 2 ^ 24 % 256) ∷ (v / 2 ^ 16 % 256) ∷ (v / 2 ^ 8 % 256) ∷ (v % 256) ∷ []

unfoldable pub w_u32 : Bool → Bytes → ℕ → Bytes
w_u32 le w v = w_align w 4 ++ u32_bytes le v

-- The code of a field and the signature of its variant, one type.
unfoldable pub w_field_head : Bytes → ℕ → ℕ → Bytes
w_field_head w code sigc = w_align w 8 ++ (code ∷ 1 ∷ sigc ∷ 0 ∷ [])

unfoldable pub w_str_field : Bool → Bytes → ℕ → ℕ → Bytes → Bytes
w_str_field le w code sigc val =
    if sigc == b'g'
    then w_field_head w code sigc ++ ((length val % 256) ∷ (val ++ (0 ∷ [])))
    else w_u32 le (w_field_head w code sigc) (length val % 2 ^ 32) ++ (val ++ (0 ∷ []))

unfoldable pub w_u32_field : Bool → Bytes → ℕ → ℕ → Bytes
w_u32_field le w code val = w_u32 le (w_field_head w code b'u') val

abbrev pub w_str_if : Bool → Bytes → ℕ → ℕ → Option Bytes → Bytes
w_str_if le w code sigc none = w
w_str_if le w code sigc (some val) = w_str_field le w code sigc val

abbrev pub w_u32_if : Bool → Bytes → ℕ → Bool → ℕ → Bytes
w_u32_if le w code has val = if has then w_u32_field le w code val else w

-- The header fields, without the length of their array.
unfoldable pub forward_fields : WireMsg → Bytes → Bytes
forward_fields m new_sender =
    let le : Bool = m.endian_le in
    let w1 : Bytes = w_str_if le [] 1 b'o' m.path in
    let w2 : Bytes = w_str_if le w1 2 b's' m.interface in
    let w3 : Bytes = w_str_if le w2 3 b's' m.member in
    let w4 : Bytes = w_str_if le w3 4 b's' m.error_name in
    let w5 : Bytes = w_u32_if le w4 5 m.has_reply_serial m.reply_serial in
    let w6 : Bytes = w_str_if le w5 6 b's' m.destination in
    let w7 : Bytes = w_str_field le w6 7 b's' new_sender in
    let w8 : Bytes = w_str_if le w7 8 b'g' m.signature in w_u32_if le w8 9 m.has_unix_fds m.unix_fds

unfoldable pub wire_reforward : Bytes → WireMsg → Bytes → Bytes
wire_reforward orig m new_sender =
    let fw : Bytes = forward_fields m new_sender in
    w_align (w_u32 m.endian_le (take 12 orig) (length fw % 2 ^ 32) ++ fw) 8
    ++ take m.body_len (drop m.body_offset orig)
