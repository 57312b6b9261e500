-- ===== src/Bus/Reforward.antt =====
-- The parser on a forwarded message.
use schema_init.Prelude.{
  ℕ, suc, ◌+◌, ◌-◌, ◌%◌, ◌^◌, ◌≤◌, ◌<◌, ◌≡◌, refl, sym, ap, ◌∙◌, some, ◌++◌, arith, length,
  replicate, take, drop, Bytes,
}
use mathlib.Core.Path.{subst}
use schema_init.Bus.Wire.{
  WireMsg, parsed, align, wire_fields, wire_lengths, wire_arg0, wire_parse, max_msg,
}
use schema_init.Bus.Forward.{forward_fields, wire_reforward}
use schema_init.Bus.Rewrite.{align_more}
use schema_init.Bus.Links.{HasText}
use schema_init.Bus.Forwarding.{FieldsFit, stage9}
use schema_init.Bus.RoundTrip.{fixed_part, run_fields, written9, written_lem}
use schema_init.Bus.Start.{
  message_bytes, header_parsed, start_bytes, length-start_bytes, start_message, lengths_pass,
  forwarded, head_written, head_written_lem, length-take, length-drop, fixed_bytes, start_written,
}

module _ (m : WireMsg) (new_sender : Bytes) (fit : FieldsFit m)
    (sender : HasText (2 ^ 32) (some new_sender)) where
  -- The loop over the fields of a buffer that begins as it is written.
  fields_parsed :
      (buf start tail : Bytes) (farr : ℕ)
      → length start ≡ 16
      → farr ≡ length (forward_fields m new_sender)
      → buf ≡ start ++ (forward_fields m new_sender ++ tail)
      → wire_fields (suc farr) buf (16 + farr) (fixed_part m farr) 16
        ≡ parsed (stage9 (fixed_part m farr) m new_sender)
  fields_parsed buf start tail farr h n e =
      let even : length start % 8 ≡ 0 = omega (arith, h) in
      let w : forward_fields m new_sender ≡ written9 m new_sender farr =
        written_lem m new_sender farr in
      ap (λ k. wire_fields (suc farr) buf (16 + farr) (fixed_part m farr) k) (sym h)
      ∙ run_fields m new_sender farr buf start (16 + farr) even fit sender tail (suc farr)
          (e ∙ ap (λ x. start ++ (x ++ tail)) w)
          (omega (arith, h, n, ap (λ (x : Bytes). length x) w)) (omega (arith, h))

  whole_parsed :
      (buf tail : Bytes) (version farr : ℕ)
      → m.serial < 2 ^ 32
      → farr ≡ length (forward_fields m new_sender)
      → buf ≡ start_bytes m version farr ++ (forward_fields m new_sender ++ tail)
      → align (16 + farr) 8 + m.body_len ≤ max_msg
      → align (16 + farr) 8 + m.body_len ≤ length buf
      → wire_parse buf ≡ wire_arg0 buf (forwarded m new_sender farr)
  whole_parsed buf tail version farr serial n e total long =
      let rest : Bytes = forward_fields m new_sender ++ tail in
      let as_message : buf
          ≡ message_bytes m.endian_le m.type m.flags version m.body_len m.serial farr rest =
        e ∙ start_message m version farr rest in
      let room : 16 + farr ≤ align (16 + farr) 8 = align_more (16 + farr) in
      subst (λ x. wire_parse x ≡ wire_lengths x (fixed_part m farr) farr) (sym as_message)
        (header_parsed m.endian_le m.type m.flags version m.body_len m.serial farr rest
          (omega (arith, total)) serial (omega (arith, total, room)))
      ∙ lengths_pass buf (fixed_part m farr) farr (stage9 (fixed_part m farr) m new_sender)
          (omega (arith, total)) (omega (arith, total, room)) total long
          (fields_parsed buf (start_bytes m version farr) tail farr
            (length-start_bytes m version farr) n e)

-- A forwarded message is parsed, up to the search for the first argument in its body, to the header
-- of the original with the given sender, and behind that header stands the original's body. This holds
-- if the original starts with its twelve bytes and holds its body, its texts are C strings (the signature
-- under 256 bytes, the others under 2 ^ 32) as the sender is, its numbers have 32 bits, and the new
-- message is not over the maximum.
pub wire_parse-wire_reforward :
    (orig : Bytes) (m : WireMsg) (new_sender : Bytes) (version : ℕ)
    → take 12 orig ≡ fixed_bytes m version
    → m.body_offset + m.body_len ≤ length orig
    → FieldsFit m
    → HasText (2 ^ 32) (some new_sender)
    → m.serial < 2 ^ 32
    → align (16 + length (forward_fields m new_sender)) 8 + m.body_len ≤ max_msg
    → wire_parse (wire_reforward orig m new_sender)
        ≡ wire_arg0
            (wire_reforward orig m new_sender)
            (forwarded m new_sender (length (forward_fields m new_sender)))
      × drop
          (align (16 + length (forward_fields m new_sender)) 8)
          (wire_reforward orig m new_sender)
        ≡ take m.body_len (drop m.body_offset orig)
unfolding wire_reforward head_written
wire_parse-wire_reforward orig m new_sender version e h fit sender serial total =
    let fw : Bytes = forward_fields m new_sender in
    let farr : ℕ = length fw in
    let body : Bytes = take m.body_len (drop m.body_offset orig) in
    let start : Bytes = start_bytes m version farr in
    let room : 16 + farr ≤ align (16 + farr) 8 = align_more (16 + farr) in
    let bytes : wire_reforward orig m new_sender ≡ head_written start fw ++ body =
      ap (λ x. head_written x fw ++ body)
        (start_written orig m version farr e (omega (arith, total, room))) in
    let (as_start, size, behind) =
      head_written_lem start fw body (length-start_bytes m version farr) in
    let whole : length body ≡ m.body_len =
      length-take m.body_len (drop m.body_offset orig)
        (omega (arith, h, length-drop m.body_offset orig)) in
    (
      subst (λ x. wire_parse x ≡ wire_arg0 x (forwarded m new_sender farr)) (sym bytes)
          (whole_parsed m new_sender fit sender (head_written start fw ++ body)
            (replicate (align (16 + farr) 8 - (16 + farr)) 0 ++ body) version farr serial refl
            as_start total (omega (arith, size, whole))),
      ap (λ x. drop (align (16 + farr) 8) x) bytes ∙ behind,
    )
