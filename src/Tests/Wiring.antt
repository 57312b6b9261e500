-- ===== src/Tests/Wiring.antt =====
-- The broker's parser and writer on one message, a call of Hello.
use schema_init.Prelude.{
  take, drop, ◌+◌, ◌≡◌, refl, true, false, none, some, [], ◌∷◌, ◌++◌, arith, length, Bytes, codes,
}
use schema_init.Bus.Forward.{
  wire_reforward, forward_fields, w_str_field, w_u32, w_field_head, w_align,
}
use schema_init.Bus.Reforward.{wire_parse-wire_reforward}
use schema_init.Bus.Start.{forwarded}
use schema_init.Bus.Wire.{
  field_val, string_val, text_at, field_set, wire_arg0, align, WireMsg, wire_parse, wire_field,
  parsed,
}
use schema_init.Bus.Header.{WellParsed, wire_parse-WellParsed}
use schema_init.Bus.Route.{type_method_call}

-- A call of Hello: sixteen bytes, a member field, and no body.
abbrev hello : Bytes
hello =
    codes "l"
    ++ (1
        ∷ 0
        ∷ 1
        ∷ 0
        ∷ 0
        ∷ 0
        ∷ 0
        ∷ 1
        ∷ 0
        ∷ 0
        ∷ 0
        ∷ 14
        ∷ 0
        ∷ 0
        ∷ 0
        ∷ 3
        ∷ 1
        ∷ b's'
        ∷ 0
        ∷ 5
        ∷ 0
        ∷ 0
        ∷ 0
        ∷ (codes "Hello" ++ (0 ∷ 0 ∷ 0 ∷ [])))

wire_parse-WellParsed_example : WellParsed hello (wire_parse hello)
wire_parse-WellParsed_example = wire_parse-WellParsed hello

abbrev hello_message : WireMsg
hello_message = record {
  endian_le = true;
  type = type_method_call;
  flags = 0;
  serial = 1;
  reply_serial = 0;
  has_reply_serial = false;
  path = none;
  interface = none;
  member = some (codes "Hello");
  error_name = none;
  destination = none;
  sender = none;
  signature = none;
  arg0 = none;
  unix_fds = 0;
  has_unix_fds = false;
  body_offset = 32;
  body_len = 0;
  total_len = 32;
}

hello_parsed : wire_parse hello ≡ parsed hello_message
unfolding wire_parse wire_field align field_val string_val text_at field_set
hello_parsed = refl

wire_parse-wire_reforward_example :
    wire_parse (wire_reforward hello hello_message (codes ":1.5"))
      ≡ wire_arg0 (wire_reforward hello hello_message (codes ":1.5")) (
          forwarded hello_message
            (codes ":1.5")
            (length (forward_fields hello_message (codes ":1.5"))))
    × drop
        (align (16 + length (forward_fields hello_message (codes ":1.5"))) 8)
        (wire_reforward hello hello_message (codes ":1.5"))
      ≡ take 0 (drop 32 hello)
unfolding forward_fields w_str_field w_u32 w_field_head w_align align
wire_parse-wire_reforward_example =
    wire_parse-wire_reforward hello hello_message (codes ":1.5") 1 refl (omega arith) (omega arith)
      (omega arith) (omega arith) (omega arith)
