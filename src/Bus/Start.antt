-- ===== src/Bus/Start.antt =====
-- The start of a forwarded message is read back.
use schema_init.Prelude.{
  ℕ, zero, suc, ◌+◌, ◌-◌, ◌%◌, ◌^◌, ◌≤◌, ◌<◌, ◌≡◌, refl, sym, ap, ◌∙◌, Bool, true, false, not, ◌&&◌,
  ◌||◌, none, some, [], ◌∷◌, ◌++◌, arith, ltb, ◌==◌, length, replicate, take, drop, length-append,
  length-replicate, Bytes,
}
use mathlib.Core.List.{append_assoc}
use schema_init.Bus.Wire.{
  WireMsg, parsed, align, fixed_header, wire_fields, wire_lengths, wire_arg0, wire_parse, rd_u32,
  max_msg,
}
use schema_init.Bus.Forward.{u32_bytes, w_align, w_u32}
use schema_init.Bus.Values.{length-u32_bytes, u32_read, drop-append}
use schema_init.Bus.Rewrite.{align_more, w_align_four}
use schema_init.Bus.Forwarding.{num_if}

abbrev pub endian_byte : Bool → ℕ
endian_byte true = b'l'
endian_byte false = b'B'

-- Twelve bytes, the length of the header fields, and what follows.
abbrev pub message_bytes : Bool → ℕ → ℕ → ℕ → ℕ → ℕ → ℕ → Bytes → Bytes
message_bytes le type flags version body_len serial farr rest =
    endian_byte le
    ∷ type
    ∷ flags
    ∷ version
    ∷ (u32_bytes le body_len ++ (u32_bytes le serial ++ (u32_bytes le farr ++ rest)))

pub endian_byte_lem :
    (le : Bool)
    → ((endian_byte le == b'l') ≡ le)
      × ((not (endian_byte le == b'l') && not (endian_byte le == b'B')) ≡ false)
endian_byte_lem true = (refl, refl)
endian_byte_lem false = (refl, refl)

pub words_parsed :
    (e type flags : ℕ) (rest : Bytes) (le : Bool) (body_len serial farr : ℕ)
    → 16 ≤ length (e ∷ type ∷ flags ∷ rest)
    → (e == b'l') ≡ le
    → (not (e == b'l') && not (e == b'B')) ≡ false
    → rd_u32 (e ∷ type ∷ flags ∷ rest) 4 le ≡ some body_len
    → rd_u32 (e ∷ type ∷ flags ∷ rest) 8 le ≡ some serial
    → rd_u32 (e ∷ type ∷ flags ∷ rest) 12 le ≡ some farr
    → wire_parse (e ∷ type ∷ flags ∷ rest)
      ≡ wire_lengths
          (e ∷ type ∷ flags ∷ rest)
          (fixed_header le type flags body_len serial farr)
          farr
unfolding wire_parse
words_parsed e type flags rest le body_len serial farr h l b p q r =
    let long : ltb (length (e ∷ type ∷ flags ∷ rest)) 16 ≡ false = ground (arith, h) in
    rw (long, b, l, p, q, r)
      (ap
        (λ (x : Bool).
          wire_lengths (e ∷ type ∷ flags ∷ rest) (fixed_header x type flags body_len serial farr)
            farr)
        l)

pub header_parsed :
    (le : Bool) (type flags version body_len serial farr : ℕ) (rest : Bytes)
    → body_len < 2 ^ 32
    → serial < 2 ^ 32
    → farr < 2 ^ 32
    → wire_parse (message_bytes le type flags version body_len serial farr rest)
      ≡ wire_lengths
          (message_bytes le type flags version body_len serial farr rest)
          (fixed_header le type flags body_len serial farr)
          farr
header_parsed le type flags version body_len serial farr rest p q r =
    let buf : Bytes = message_bytes le type flags version body_len serial farr rest in
    let first : Bytes = endian_byte le ∷ type ∷ flags ∷ version ∷ [] in
    let words : Bytes = u32_bytes le body_len ++ u32_bytes le serial in
    let after : Bytes = u32_bytes le farr ++ rest in
    let one : length (first ++ u32_bytes le body_len) ≡ 8 =
      omega (arith, length-append first (u32_bytes le body_len), length-u32_bytes le body_len) in
    let two : length (first ++ words) ≡ 12 = omega (
      arith,
      length-append first words,
      length-append (u32_bytes le body_len) (u32_bytes le serial),
      length-u32_bytes le body_len,
      length-u32_bytes le serial,
    ) in
    let three : buf ≡ (first ++ words) ++ after =
      ap (λ x. first ++ x)
        (sym (append_assoc (u32_bytes le body_len) (u32_bytes le serial) after)) in
    let size : 16 ≤ length buf = omega (
      arith,
      two,
      length-append (first ++ words) after,
      ap (λ (x : Bytes). length x) three,
      length-append (u32_bytes le farr) rest,
      length-u32_bytes le farr,
    ) in
    words_parsed (endian_byte le) type flags
      (version ∷ (u32_bytes le body_len ++ (u32_bytes le serial ++ after))) le body_len serial farr
      size (endian_byte_lem le).0 (endian_byte_lem le).1
      (u32_read buf first (u32_bytes le serial ++ after) 4 body_len le refl refl p)
      (u32_read buf (first ++ u32_bytes le body_len) after 8 serial le (ap (λ x. first ++ x) refl)
        (sym one) q)
      (u32_read buf (first ++ words) rest 12 farr le three (sym two) r)

-- The fixed header and the array's length, in front of the fields.
abbrev pub start_bytes : WireMsg → ℕ → ℕ → Bytes
start_bytes m version farr =
    endian_byte m.endian_le
    ∷ m.type
    ∷ m.flags
    ∷ version
    ∷ (u32_bytes m.endian_le m.body_len
        ++ (u32_bytes m.endian_le m.serial ++ u32_bytes m.endian_le farr))

pub length-start_bytes : (m : WireMsg) (version farr : ℕ) → length (start_bytes m version farr) ≡ 16
length-start_bytes m version farr = omega (
  arith,
  length-append (u32_bytes m.endian_le m.body_len)
      (u32_bytes m.endian_le m.serial ++ u32_bytes m.endian_le farr),
  length-append (u32_bytes m.endian_le m.serial) (u32_bytes m.endian_le farr),
  length-u32_bytes m.endian_le m.body_len,
  length-u32_bytes m.endian_le m.serial,
  length-u32_bytes m.endian_le farr,
)

pub start_message :
    (m : WireMsg) (version farr : ℕ) (rest : Bytes)
    → start_bytes m version farr ++ rest
      ≡ message_bytes m.endian_le m.type m.flags version m.body_len m.serial farr rest
start_message m version farr rest = simp append_assoc

-- The parser behind the fixed header, on a buffer of that length.
pub lengths_pass :
    (buf : Bytes) (m : WireMsg) (farr : ℕ) (n : WireMsg)
    → m.body_len ≤ max_msg
    → farr ≤ max_msg
    → m.total_len ≤ max_msg
    → m.total_len ≤ length buf
    → wire_fields (suc farr) buf (16 + farr) m 16 ≡ parsed n
    → wire_lengths buf m farr ≡ wire_arg0 buf n
unfolding wire_lengths
lengths_pass buf m farr n b f t l e =
    let small : (ltb max_msg farr || ltb max_msg m.body_len) ≡ false = ground (arith, b, f) in
    let short : ltb max_msg m.total_len ≡ false = ground (arith, t) in
    let whole : ltb (length buf) m.total_len ≡ false = ground (arith, l) in
    rw (small, short, whole, e) refl

-- What the parser makes of a forwarded message before it looks for the first argument.
abbrev pub forwarded : WireMsg → Bytes → ℕ → WireMsg
forwarded m new_sender farr = record m {
  sender = some new_sender;
  reply_serial = num_if m.has_reply_serial m.reply_serial;
  unix_fds = num_if m.has_unix_fds m.unix_fds;
  arg0 = none;
  body_offset = align (16 + farr) 8;
  total_len = align (16 + farr) 8 + m.body_len;
}

-- What is written before the body.
unfoldable pub head_written : Bytes → Bytes → Bytes
head_written start fw = w_align (start ++ fw) 8

pub head_written_lem :
    (start fw body : Bytes)
    → length start ≡ 16
    → (head_written start fw ++ body
        ≡ start ++ (fw ++ (replicate (align (16 + length fw) 8 - (16 + length fw)) 0 ++ body)))
      × (length (head_written start fw ++ body) ≡ align (16 + length fw) 8 + length body)
      × (drop (align (16 + length fw) 8) (head_written start fw ++ body) ≡ body)
unfolding head_written w_align
head_written_lem start fw body h =
    let size : length (start ++ fw) ≡ 16 + length fw = omega (arith, length-append start fw, h) in
    let zeros : Bytes = replicate (align (16 + length fw) 8 - (16 + length fw)) 0 in
    let head : length ((start ++ fw) ++ zeros) ≡ align (16 + length fw) 8 = omega (
      arith,
      length-append (start ++ fw) zeros,
      size,
      length-replicate {A = ℕ} (align (16 + length fw) 8 - (16 + length fw)) 0,
      align_more (16 + length fw),
    ) in
    rw size (
      simp append_assoc,
      omega (arith, length-append ((start ++ fw) ++ zeros) body, head),
      ap (λ n. drop n (((start ++ fw) ++ zeros) ++ body)) (sym head)
          ∙ drop-append ((start ++ fw) ++ zeros) body,
    )

pub length-take : (n : ℕ) (xs : Bytes) → n ≤ length xs → length (take n xs) ≡ n
length-take zero xs h = refl
length-take (suc n) [] h = absurd (omega (arith, h))
length-take (suc n) (x ∷ xs) h = omega (arith, length-take n xs (omega (arith, h)))

pub length-drop : (n : ℕ) (xs : Bytes) → length (drop n xs) ≡ length xs - n
length-drop zero xs = omega arith
length-drop (suc n) [] = omega arith
length-drop (suc n) (x ∷ xs) = omega (arith, length-drop n xs)

-- The first twelve bytes of a message with this fixed header.
abbrev pub fixed_bytes : WireMsg → ℕ → Bytes
fixed_bytes m version =
    endian_byte m.endian_le
    ∷ m.type
    ∷ m.flags
    ∷ version
    ∷ (u32_bytes m.endian_le m.body_len ++ u32_bytes m.endian_le m.serial)

pub start_written :
    (orig : Bytes) (m : WireMsg) (version farr : ℕ)
    → take 12 orig ≡ fixed_bytes m version
    → farr < 2 ^ 32
    → w_u32 m.endian_le (take 12 orig) (farr % 2 ^ 32) ≡ start_bytes m version farr
unfolding w_u32
start_written orig m version farr e f =
    let size : farr % 2 ^ 32 ≡ farr = omega (arith, f) in
    let twelve : length (fixed_bytes m version) ≡ 12 = omega (
      arith,
      length-append (u32_bytes m.endian_le m.body_len) (u32_bytes m.endian_le m.serial),
      length-u32_bytes m.endian_le m.body_len,
      length-u32_bytes m.endian_le m.serial,
    ) in
    rw (e, size, w_align_four (fixed_bytes m version) (omega (arith, twelve))) (simp append_assoc)
