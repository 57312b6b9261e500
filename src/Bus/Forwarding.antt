-- ===== src/Bus/Forwarding.antt =====
-- A forwarded header is read back: the fields of the message, with the name of the sender.
use schema_init.Prelude.{
  ℕ, ◌^◌, ◌<◌, ◌≡◌, refl, Bool, true, false, Option, none, some, if◌then◌else◌, Bytes,
}
use schema_init.Bus.Wire.{WireMsg, field_set}
use schema_init.Bus.Links.{HasText, set_if, set_num_if}

-- A message with all its header fields.
abbrev pub with_fields :
    WireMsg
    → Option Bytes
    → Option Bytes
    → Option Bytes
    → Option Bytes
    → Bool
    → ℕ
    → Option Bytes
    → Option Bytes
    → Option Bytes
    → Bool
    → ℕ
    → WireMsg
with_fields b path interface member error_name has reply_serial destination sender signature fds
      unix_fds =
    record b {
      path = path;
      interface = interface;
      member = member;
      error_name = error_name;
      has_reply_serial = has;
      reply_serial = reply_serial;
      destination = destination;
      sender = sender;
      signature = signature;
      has_unix_fds = fds;
      unix_fds = unix_fds;
    }

-- A number that counts only where it is there.
abbrev pub num_if : Bool → ℕ → ℕ
num_if has v = if has then v else 0

-- The texts of a message are C strings that fit, and its numbers have 32 bits.
abbrev pub FieldsFit : WireMsg → Type 0
FieldsFit m =
    HasText (2 ^ 32) m.path
    × HasText (2 ^ 32) m.interface
    × HasText (2 ^ 32) m.member
    × HasText (2 ^ 32) m.error_name
    × m.reply_serial < 2 ^ 32
    × HasText (2 ^ 32) m.destination
    × HasText 256 m.signature
    × m.unix_fds < 2 ^ 32

-- The message after each field; `b` is the fixed header.
module _ (b m : WireMsg) (new_sender : Bytes) where
  abbrev pub stage0 : WireMsg
  stage0 = with_fields b none none none none false 0 none none none false 0

  abbrev pub stage1 : WireMsg
  stage1 = with_fields b m.path none none none false 0 none none none false 0

  abbrev pub stage2 : WireMsg
  stage2 = with_fields b m.path m.interface none none false 0 none none none false 0

  abbrev pub stage3 : WireMsg
  stage3 = with_fields b m.path m.interface m.member none false 0 none none none false 0

  abbrev pub stage4 : WireMsg
  stage4 = with_fields b m.path m.interface m.member m.error_name false 0 none none none false 0

  abbrev pub stage5 : WireMsg
  stage5 =
      with_fields b m.path m.interface m.member m.error_name m.has_reply_serial
        (num_if m.has_reply_serial m.reply_serial) none none none false 0

  abbrev pub stage6 : WireMsg
  stage6 =
      with_fields b m.path m.interface m.member m.error_name m.has_reply_serial
        (num_if m.has_reply_serial m.reply_serial) m.destination none none false 0

  abbrev pub stage7 : WireMsg
  stage7 =
      with_fields b m.path m.interface m.member m.error_name m.has_reply_serial
        (num_if m.has_reply_serial m.reply_serial) m.destination (some new_sender) none false 0

  abbrev pub stage8 : WireMsg
  stage8 =
      with_fields b m.path m.interface m.member m.error_name m.has_reply_serial
        (num_if m.has_reply_serial m.reply_serial) m.destination (some new_sender) m.signature false
        0

  abbrev pub stage9 : WireMsg
  stage9 =
      with_fields b m.path m.interface m.member m.error_name m.has_reply_serial
        (num_if m.has_reply_serial m.reply_serial) m.destination (some new_sender) m.signature
        m.has_unix_fds (num_if m.has_unix_fds m.unix_fds)

  pub set_stage1 : set_if stage0 1 m.path ≡ stage1
  unfolding field_set
  set_stage1 =
      elim m.path
        as (λ o.
          set_if stage0 1 o ≡ with_fields b o none none none false 0 none none none false 0) [
            | none ↦ refl
            | some v ↦ refl
          ]

  pub set_stage2 : set_if stage1 2 m.interface ≡ stage2
  unfolding field_set
  set_stage2 =
      elim m.interface
        as (λ o.
          set_if stage1 2 o ≡ with_fields b m.path o none none false 0 none none none false 0) [
            | none ↦ refl
            | some v ↦ refl
          ]

  pub set_stage3 : set_if stage2 3 m.member ≡ stage3
  unfolding field_set
  set_stage3 =
      elim m.member
        as (λ o.
          set_if stage2 3 o
          ≡ with_fields b m.path m.interface o none false 0 none none none false 0) [
            | none ↦ refl
            | some v ↦ refl
          ]

  pub set_stage4 : set_if stage3 4 m.error_name ≡ stage4
  unfolding field_set
  set_stage4 =
      elim m.error_name
        as (λ o.
          set_if stage3 4 o
          ≡ with_fields b m.path m.interface m.member o false 0 none none none false 0) [
            | none ↦ refl
            | some v ↦ refl
          ]

  pub set_stage5 : set_num_if stage4 5 m.has_reply_serial m.reply_serial ≡ stage5
  unfolding field_set
  set_stage5 =
      elim m.has_reply_serial
        as (λ h.
          set_num_if stage4 5 h m.reply_serial
          ≡ with_fields b m.path m.interface m.member m.error_name h (num_if h m.reply_serial) none
              none none false 0) [ true ↦ refl | false ↦ refl ]

  pub set_stage6 : set_if stage5 6 m.destination ≡ stage6
  unfolding field_set
  set_stage6 =
      elim m.destination
        as (λ o.
          set_if stage5 6 o
          ≡ with_fields b m.path m.interface m.member m.error_name m.has_reply_serial
              (num_if m.has_reply_serial m.reply_serial) o none none false 0) [
                | none ↦ refl
                | some v ↦ refl
              ]

  pub set_stage7 : field_set stage6 7 (some new_sender) 0 ≡ stage7
  unfolding field_set
  set_stage7 = refl

  pub set_stage8 : set_if stage7 8 m.signature ≡ stage8
  unfolding field_set
  set_stage8 =
      elim m.signature
        as (λ o.
          set_if stage7 8 o
          ≡ with_fields b m.path m.interface m.member m.error_name m.has_reply_serial
              (num_if m.has_reply_serial m.reply_serial) m.destination (some new_sender) o false
              0) [ none ↦ refl | some v ↦ refl ]

  pub set_stage9 : set_num_if stage8 9 m.has_unix_fds m.unix_fds ≡ stage9
  unfolding field_set
  set_stage9 =
      elim m.has_unix_fds
        as (λ h.
          set_num_if stage8 9 h m.unix_fds
          ≡ with_fields b m.path m.interface m.member m.error_name m.has_reply_serial
              (num_if m.has_reply_serial m.reply_serial) m.destination (some new_sender) m.signature
              h (num_if h m.unix_fds)) [ true ↦ refl | false ↦ refl ]
