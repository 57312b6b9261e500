-- ===== src/Tests/Routing.antt =====
-- The broker: a client at :1.5 that calls the owner of a name, :1.7, which answers and signals.
use schema_init.Prelude.{
  ℕ, ◌≡◌, refl, Bool, true, false, Option, none, some, List, [], ◌∷◌, arith, All, Bytes, codes,
  str_eq,
}
use schema_init.Bus.Match.{MatchRule, blank_rule, set_slot, parse_rule, match_signal}
use schema_init.Bus.Rules.{render, set_slots, parse_rule-render}
use schema_init.Bus.Replies.{ReplyEnt, replies_match}
use schema_init.Bus.Pending.{Answered, replies_match-pending}
use schema_init.Bus.Policy.{
  Policy, Req, Rule, ctx_default, policy_eval, is_requested_reply, applicable, rule_matches,
  pred_matches,
}
use schema_init.Bus.Verdicts.{policy_eval-last_says, precedence, last_says}
use schema_init.Bus.Wire.{WireMsg}
use schema_init.Bus.Route.{
  Conn, route_targets, route_resolve, send_request, takes_signal, type_str, type_signal,
  type_method_call, type_method_return,
}
use schema_init.Bus.Delivery.{Waiting, route_targets-Waiting, route_targets-answered}
use schema_init.Names.Registry.{names_new}

abbrev message : ℕ → ℕ → ℕ → Bool → Option Bytes → WireMsg
message type serial reply_serial replies dest = record {
  endian_le = true;
  type = type;
  flags = 0;
  serial = serial;
  reply_serial = reply_serial;
  has_reply_serial = replies;
  path = some (codes "/");
  interface = some (codes "org.example");
  member = some (codes "Changed");
  error_name = none;
  destination = dest;
  sender = none;
  signature = none;
  arg0 = none;
  unix_fds = 0;
  has_unix_fds = false;
  body_offset = 16;
  body_len = 0;
  total_len = 16;
}

abbrev conn : ℕ → Bytes → Option (List MatchRule) → Conn
conn id unique matches = record {
  id = id;
  uid = 1000;
  gids = 100 ∷ [];
  unique = some unique;
  matches = matches;
}

abbrev watcher : MatchRule
watcher = set_slot blank_rule (codes "member") (codes "Changed")

abbrev client : Conn
client = conn 5 (codes ":1.5") (some (watcher ∷ []))

abbrev server : Conn
server = conn 7 (codes ":1.7") none

abbrev peers : List Conn
peers = client ∷ server ∷ []

abbrev permit : Bytes → Rule
permit attr = record { allow = true; preds = record { attr = attr; value = codes "*" } ∷ [] }

abbrev open_policy : Policy
open_policy = record {
  ctxs =
      record {
        kind = ctx_default;
        sel = record { wildcard = true; selector_id = 0 };
        rules = permit (codes "send_destination") ∷ permit (codes "send_type") ∷ [];
      }
      ∷ [];
  has_recv_rule = false;
}

abbrev call : WireMsg
call = message type_method_call 3 0 false (some (codes ":1.7"))

abbrev answer : WireMsg
answer = message type_method_return 9 3 true (some (codes ":1.5"))

abbrev signal : WireMsg
signal = message type_signal 4 0 false none

abbrev waiting_call : List ReplyEnt
waiting_call = record { callee = 7; caller = 5; serial = 3; live = true; deadline = 120010 } ∷ []

call_targets : (route_targets call client names_new peers open_policy [] 10 4).targets ≡ 7 ∷ []
unfolding route_targets policy_eval is_requested_reply send_request str_eq applicable rule_matches
    pred_matches type_str
call_targets = refl

answer_resolves : route_resolve names_new peers answer.destination ≡ some 5
unfolding route_resolve str_eq
answer_resolves = refl

route_targets-answered_example :
    (route_targets answer server names_new peers open_policy
      (route_targets call client names_new peers open_policy [] 10 4).replies
      20
      4).targets
    ≡ 5 ∷ []
route_targets-answered_example =
    route_targets-answered call answer client server names_new peers open_policy open_policy [] 10
      20 3 call_targets refl refl refl answer_resolves

route_targets-Waiting_example :
    All
      (Waiting answer server waiting_call)
      (route_targets answer server names_new peers open_policy waiting_call 20 4).targets
route_targets-Waiting_example =
    route_targets-Waiting answer server names_new peers open_policy waiting_call 20 4 refl

signal_targets : (route_targets signal server names_new peers open_policy [] 10 4).targets ≡ 5 ∷ []
unfolding route_targets policy_eval is_requested_reply send_request str_eq applicable rule_matches
    pred_matches type_str takes_signal match_signal set_slot
signal_targets = refl

abbrev strict_request : Req
strict_request = send_request call client []

not_a_reply : is_requested_reply strict_request ≡ false
unfolding is_requested_reply send_request str_eq
not_a_reply = refl

policy_eval-last_says_example :
    policy_eval open_policy strict_request ≡ last_says false (precedence open_policy strict_request)
policy_eval-last_says_example = policy_eval-last_says open_policy strict_request not_a_reply

abbrev pairs : List (Bytes × Bytes)
pairs = (codes "type", codes "signal") ∷ (codes "member", codes "Changed") ∷ []

pairs_rendered : render pairs ≡ codes "type='signal',member='Changed'"
pairs_rendered = refl

parse_rule-render_example :
    parse_rule (render pairs) ≡ some (record (set_slots blank_rule pairs) { raw = render pairs })
parse_rule-render_example = parse_rule-render pairs (omega arith)

replies_match-pending_example :
    Answered 7 3 (some 5) 7 5 3 waiting_call (replies_match waiting_call 7 3 (some 5))
replies_match-pending_example = replies_match-pending waiting_call 7 3 (some 5) 7 5 3
