-- ===== src/Bus/RoundTrip.antt =====
-- A forwarded message is parsed to the same header with the verified sender.
use schema_init.Prelude.{
  ℕ, zero, suc, ◌+◌, ◌%◌, ◌^◌, ◌≤◌, ◌<◌, ◌≡◌, refl, sym, ap, ◌∙◌, true, some, [], ◌++◌, arith, leb,
  length, Bytes,
}
use mathlib.Core.Path.{subst}
use schema_init.Bus.Wire.{WireMsg, parsed, field_type, fixed_header, wire_fields}
use schema_init.Bus.Forward.{w_str_field, w_str_if, w_u32_if, forward_fields}
use schema_init.Bus.Rewrite.{Links, Links-trans}
use schema_init.Bus.Links.{HasText, Links-str_field, Links-str_if, Links-signature_if, Links-u32_if}
use schema_init.Bus.Forwarding.{
  FieldsFit, stage0, stage1, stage2, stage3, stage4, stage5, stage6, stage7, stage8, stage9,
  set_stage1, set_stage2, set_stage3, set_stage4, set_stage5, set_stage6, set_stage7, set_stage8,
  set_stage9,
}

fields_end :
    (fuel : ℕ) (buf : Bytes) (header_end : ℕ) (m : WireMsg) (off : ℕ)
    → header_end ≤ off
    → 0 < fuel
    → wire_fields fuel buf header_end m off ≡ parsed m
unfolding wire_fields
fields_end zero buf header_end m off h z = absurd (omega (arith, z))
fields_end (suc fuel) buf header_end m off h z =
    let past : leb header_end off ≡ true = ground (arith, h) in rw past refl

-- The fixed header of a forwarded message.
abbrev pub fixed_part : WireMsg → ℕ → WireMsg
fixed_part m farr = fixed_header m.endian_le m.type m.flags m.body_len m.serial farr

module _ (m : WireMsg) (new_sender : Bytes) (farr : ℕ) where
  abbrev pub written0 : Bytes
  written0 = []

  abbrev pub written1 : Bytes
  written1 = w_str_if m.endian_le written0 1 b'o' m.path

  abbrev pub written2 : Bytes
  written2 = w_str_if m.endian_le written1 2 b's' m.interface

  abbrev pub written3 : Bytes
  written3 = w_str_if m.endian_le written2 3 b's' m.member

  abbrev pub written4 : Bytes
  written4 = w_str_if m.endian_le written3 4 b's' m.error_name

  abbrev pub written5 : Bytes
  written5 = w_u32_if m.endian_le written4 5 m.has_reply_serial m.reply_serial

  abbrev pub written6 : Bytes
  written6 = w_str_if m.endian_le written5 6 b's' m.destination

  abbrev pub written7 : Bytes
  written7 = w_str_field m.endian_le written6 7 b's' new_sender

  abbrev pub written8 : Bytes
  written8 = w_str_if m.endian_le written7 8 b'g' m.signature

  abbrev pub written9 : Bytes
  written9 = w_u32_if m.endian_le written8 9 m.has_unix_fds m.unix_fds

  pub written_lem : forward_fields m new_sender ≡ written9
  unfolding forward_fields
  written_lem = refl

  module _ (buf start : Bytes) (header_end : ℕ) (even : length start % 8 ≡ 0) (fit : FieldsFit m)
      (sender_fits : HasText (2 ^ 32) (some new_sender)) where
    abbrev At : Bytes → WireMsg → Bytes → WireMsg → Type 0
    At w x w' y = Links buf start header_end even w x w' y

    link1 :
        At written0
          (stage0 (fixed_part m farr) m new_sender)
          written1
          (stage1 (fixed_part m farr) m new_sender)
    unfolding field_type
    link1 =
        subst (λ x. At written0 (stage0 (fixed_part m farr) m new_sender) written1 x)
          (set_stage1 (fixed_part m farr) m new_sender)
          (Links-str_if buf start header_end even written0 (stage0 (fixed_part m farr) m new_sender)
            1 b'o' m.path refl refl fit.0)

    link2 :
        At written1
          (stage1 (fixed_part m farr) m new_sender)
          written2
          (stage2 (fixed_part m farr) m new_sender)
    unfolding field_type
    link2 =
        subst (λ x. At written1 (stage1 (fixed_part m farr) m new_sender) written2 x)
          (set_stage2 (fixed_part m farr) m new_sender)
          (Links-str_if buf start header_end even written1 (stage1 (fixed_part m farr) m new_sender)
            2 b's' m.interface refl refl fit.1)

    link3 :
        At written2
          (stage2 (fixed_part m farr) m new_sender)
          written3
          (stage3 (fixed_part m farr) m new_sender)
    unfolding field_type
    link3 =
        subst (λ x. At written2 (stage2 (fixed_part m farr) m new_sender) written3 x)
          (set_stage3 (fixed_part m farr) m new_sender)
          (Links-str_if buf start header_end even written2 (stage2 (fixed_part m farr) m new_sender)
            3 b's' m.member refl refl fit.2)

    link4 :
        At written3
          (stage3 (fixed_part m farr) m new_sender)
          written4
          (stage4 (fixed_part m farr) m new_sender)
    unfolding field_type
    link4 =
        subst (λ x. At written3 (stage3 (fixed_part m farr) m new_sender) written4 x)
          (set_stage4 (fixed_part m farr) m new_sender)
          (Links-str_if buf start header_end even written3 (stage3 (fixed_part m farr) m new_sender)
            4 b's' m.error_name refl refl fit.3)

    link5 :
        At written4
          (stage4 (fixed_part m farr) m new_sender)
          written5
          (stage5 (fixed_part m farr) m new_sender)
    unfolding field_type
    link5 =
        subst (λ x. At written4 (stage4 (fixed_part m farr) m new_sender) written5 x)
          (set_stage5 (fixed_part m farr) m new_sender)
          (Links-u32_if buf start header_end even written4 (stage4 (fixed_part m farr) m new_sender)
            5 m.has_reply_serial m.reply_serial refl fit.4)

    link6 :
        At written5
          (stage5 (fixed_part m farr) m new_sender)
          written6
          (stage6 (fixed_part m farr) m new_sender)
    unfolding field_type
    link6 =
        subst (λ x. At written5 (stage5 (fixed_part m farr) m new_sender) written6 x)
          (set_stage6 (fixed_part m farr) m new_sender)
          (Links-str_if buf start header_end even written5 (stage5 (fixed_part m farr) m new_sender)
            6 b's' m.destination refl refl fit.5)

    link7 :
        At written6
          (stage6 (fixed_part m farr) m new_sender)
          written7
          (stage7 (fixed_part m farr) m new_sender)
    unfolding field_type
    link7 =
        subst (λ x. At written6 (stage6 (fixed_part m farr) m new_sender) written7 x)
          (set_stage7 (fixed_part m farr) m new_sender)
          (Links-str_field buf start header_end even written6
            (stage6 (fixed_part m farr) m new_sender) 7 b's' new_sender refl refl sender_fits.0
            sender_fits.1)

    link8 :
        At written7
          (stage7 (fixed_part m farr) m new_sender)
          written8
          (stage8 (fixed_part m farr) m new_sender)
    unfolding field_type
    link8 =
        subst (λ x. At written7 (stage7 (fixed_part m farr) m new_sender) written8 x)
          (set_stage8 (fixed_part m farr) m new_sender)
          (Links-signature_if buf start header_end even written7
            (stage7 (fixed_part m farr) m new_sender) 8 m.signature refl fit.6)

    link9 :
        At written8
          (stage8 (fixed_part m farr) m new_sender)
          written9
          (stage9 (fixed_part m farr) m new_sender)
    unfolding field_type
    link9 =
        subst (λ x. At written8 (stage8 (fixed_part m farr) m new_sender) written9 x)
          (set_stage9 (fixed_part m farr) m new_sender)
          (Links-u32_if buf start header_end even written8 (stage8 (fixed_part m farr) m new_sender)
            9 m.has_unix_fds m.unix_fds refl fit.7)

    all_linked :
        At []
          (stage0 (fixed_part m farr) m new_sender)
          written9
          (stage9 (fixed_part m farr) m new_sender)
    all_linked =
        Links-trans buf start header_end even written0 (stage0 (fixed_part m farr) m new_sender)
          written1 (stage1 (fixed_part m farr) m new_sender) written9
          (stage9 (fixed_part m farr) m new_sender) link1
          (Links-trans buf start header_end even written1 (stage1 (fixed_part m farr) m new_sender)
            written2 (stage2 (fixed_part m farr) m new_sender) written9
            (stage9 (fixed_part m farr) m new_sender) link2
            (Links-trans buf start header_end even written2
              (stage2 (fixed_part m farr) m new_sender) written3
              (stage3 (fixed_part m farr) m new_sender) written9
              (stage9 (fixed_part m farr) m new_sender) link3
              (Links-trans buf start header_end even written3
                (stage3 (fixed_part m farr) m new_sender) written4
                (stage4 (fixed_part m farr) m new_sender) written9
                (stage9 (fixed_part m farr) m new_sender) link4
                (Links-trans buf start header_end even written4
                  (stage4 (fixed_part m farr) m new_sender) written5
                  (stage5 (fixed_part m farr) m new_sender) written9
                  (stage9 (fixed_part m farr) m new_sender) link5
                  (Links-trans buf start header_end even written5
                    (stage5 (fixed_part m farr) m new_sender) written6
                    (stage6 (fixed_part m farr) m new_sender) written9
                    (stage9 (fixed_part m farr) m new_sender) link6
                    (Links-trans buf start header_end even written6
                      (stage6 (fixed_part m farr) m new_sender) written7
                      (stage7 (fixed_part m farr) m new_sender) written9
                      (stage9 (fixed_part m farr) m new_sender) link7
                      (Links-trans buf start header_end even written7
                        (stage7 (fixed_part m farr) m new_sender) written8
                        (stage8 (fixed_part m farr) m new_sender) written9
                        (stage9 (fixed_part m farr) m new_sender) link8 link9)))))))

    -- The loop over all that was written.
    pub run_fields :
        (tail : Bytes) (fuel : ℕ)
        → buf ≡ start ++ (written9 ++ tail)
        → header_end ≡ length start + length written9
        → header_end < length start + fuel
        → wire_fields fuel buf header_end (fixed_part m farr) (length start)
          ≡ parsed (stage9 (fixed_part m farr) m new_sender)
    run_fields tail fuel e h f =
        let (_, _, _, runs) = all_linked tail e (omega (arith, h)) in
        let (fuel', f', run) = runs fuel (omega (arith, f)) in
        let here : length start + 0 ≡ length start = omega arith in
        ap (λ n. wire_fields fuel buf header_end (fixed_part m farr) n) (sym here)
        ∙ (run
            ∙ fields_end fuel' buf header_end (stage9 (fixed_part m farr) m new_sender)
                (length start + length written9) (omega (arith, h)) (omega (arith, f', h)))
