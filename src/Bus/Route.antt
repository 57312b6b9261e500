-- ===== src/Bus/Route.antt =====
-- sdbus_route.h: to whom a message goes.
use schema_init.Prelude.{
  ℕ, zero, suc, ◌%◌, Bool, true, false, not, ◌&&◌, ◌||◌, Option, none, some, List, [], ◌∷◌, ◌==◌,
  if◌then◌else◌, Bytes, codes, str_eq,
}
use schema_init.Bus.Wire.{WireMsg}
use schema_init.Bus.Policy.{Policy, Req, policy_eval}
use schema_init.Bus.Match.{MatchRule, SeenMsg, match_signal}
use schema_init.Bus.Replies.{ReplyEnt, replies_match, replies_record}
use schema_init.Names.Registry.{Names, names_owner, names_owned_by}

-- The part of `sdbus_conn` that routing reads; a NULL pointer is `none`.
pub record Conn : Type 0 where
  pub id : ℕ
  pub uid : ℕ
  pub gids : List ℕ
  pub unique : Option Bytes
  pub matches : Option (List MatchRule)

abbrev pub type_method_call : ℕ
type_method_call = 1

abbrev pub type_method_return : ℕ
type_method_return = 2

abbrev pub type_error : ℕ
type_error = 3

abbrev pub type_signal : ℕ
type_signal = 4

unfoldable pub type_str : ℕ → Option Bytes
type_str t =
    if t == type_method_call
    then some (codes "method_call")
    else if t == type_method_return
    then some (codes "method_return")
    else if t == type_error
    then some (codes "error")
    else if t == type_signal
    then some (codes "signal")
    else none

abbrev pub is_reply : WireMsg → Bool
is_reply msg = (msg.type == type_method_return || msg.type == type_error) && msg.has_reply_serial

abbrev pub has_unique : Bytes → Option Bytes → Bool
has_unique dest none = false
has_unique dest (some u) = str_eq u dest

unfoldable pub conn_named : List Conn → Bytes → Option ℕ
conn_named [] dest = none
conn_named (c ∷ cs) dest = if has_unique dest c.unique then some c.id else conn_named cs dest

-- The connection of a unique name, else the owner of the name; -1 is `none`.
unfoldable pub route_resolve : Names → List Conn → Option Bytes → Option ℕ
unfolding conn_named
route_resolve names all none = none
route_resolve names all (some dest) = elim (conn_named all dest) [
  | none ↦ names_owner names dest
  | some id ↦ some id
]

unfoldable pub recv_request : WireMsg → List Bytes → Option Bytes → Conn → Req
recv_request msg snames sender_unique rcpt = record {
  op = some (codes "receive");
  uid = rcpt.uid;
  gids = rcpt.gids;
  interface = msg.interface;
  member = msg.member;
  msgtype = type_str msg.type;
  path = msg.path;
  destination = none;
  dest_names = [];
  name = none;
  has_reply_serial = false;
  sender_name = sender_unique;
  sender_names = snames;
}

unfoldable pub recv_allowed : Policy → WireMsg → List Bytes → Option Bytes → Conn → Bool
recv_allowed pol msg snames sender_unique rcpt =
    policy_eval pol (recv_request msg snames sender_unique rcpt)

abbrev pub owned_names : Names → Option ℕ → List Bytes
owned_names names none = []
owned_names names (some owner) = names_owned_by names.names owner

unfoldable pub send_request : WireMsg → Conn → List Bytes → Req
send_request msg sender dnames = record {
  op = some (codes "send");
  uid = sender.uid;
  gids = sender.gids;
  interface = msg.interface;
  member = msg.member;
  msgtype = type_str msg.type;
  path = msg.path;
  destination = msg.destination;
  dest_names = dnames;
  name = none;
  has_reply_serial = msg.has_reply_serial;
  sender_name = none;
  sender_names = [];
}

pub record Routed : Type 0 where
  pub targets : List ℕ
  pub synth_error : Bool
  pub denied : Bool
  pub replies : List ReplyEnt

unfoldable pub conn_of : List Conn → ℕ → Option Conn
conn_of [] id = none
conn_of (c ∷ cs) id = if c.id == id then some c else conn_of cs id

-- The receive policy on a directed signal: without a recipient it fails.
unfoldable pub directed_allowed : Policy → WireMsg → List Bytes → Option Bytes → Option Conn → Bool
directed_allowed pol msg snames sender_unique none = false
directed_allowed pol msg snames sender_unique (some rc) =
    recv_allowed pol msg snames sender_unique rc

abbrev pub signal_seen : WireMsg → Conn → List Bytes → SeenMsg
signal_seen msg sender snames = record {
  type = none;
  interface = msg.interface;
  member = msg.member;
  path = msg.path;
  sender = sender.unique;
  sender_owned = snames;
  dest = none;
  dest_owned = [];
  arg0 = msg.arg0;
}

unfoldable pub signal_matches : WireMsg → Conn → List Bytes → Option (List MatchRule) → Bool
signal_matches msg sender snames none = false
signal_matches msg sender snames (some m) = match_signal m (signal_seen msg sender snames)

-- The tests of the broadcast loop.
unfoldable pub takes_signal : Policy → WireMsg → Conn → List Bytes → Conn → Bool
unfolding signal_matches
takes_signal pol msg sender snames rcpt =
    not (rcpt.id == sender.id)
    && signal_matches msg sender snames rcpt.matches
    && (not pol.has_recv_rule || recv_allowed pol msg snames sender.unique rcpt)

unfoldable pub broadcast : Policy → WireMsg → Conn → List Bytes → List Conn → ℕ → List ℕ
broadcast pol msg sender snames all zero = []
broadcast pol msg sender snames [] (suc room) = []
broadcast pol msg sender snames (rcpt ∷ cs) (suc room) =
    let taken = rcpt.id ∷ broadcast pol msg sender snames cs room in
    let skipped = broadcast pol msg sender snames cs (suc room) in
    if takes_signal pol msg sender snames rcpt then taken else skipped

abbrev pub only : Option ℕ → List ℕ
only none = []
only (some id) = id ∷ []

abbrev pub to_targets : List ReplyEnt → List ℕ → Routed
to_targets replies targets = record {
  targets = targets;
  synth_error = false;
  denied = false;
  replies = replies;
}

unfoldable pub route_reply : WireMsg → Conn → Names → List Conn → List ReplyEnt → ℕ → Routed
unfolding route_resolve
route_reply msg sender names all replies max_targets =
    let m : List ReplyEnt × Option ℕ =
      replies_match replies sender.id msg.reply_serial (route_resolve names all msg.destination) in
    to_targets m.0 (if max_targets == 0 then [] else only m.1)

unfoldable pub route_signal :
    WireMsg → Conn → Names → List Conn → Policy → Option ℕ → List ReplyEnt → ℕ → Routed
unfolding directed_allowed broadcast
route_signal msg sender names all pol dest_owner replies max_targets =
    let snames : List Bytes = names_owned_by names.names sender.id in
    to_targets replies (elim msg.destination [
      | none ↦ broadcast pol msg sender snames all max_targets
      | some dest ↦ elim dest_owner [
        | none ↦ []
        | some owner ↦
            if max_targets == 0
            then []
            else if pol.has_recv_rule
                && not (directed_allowed pol msg snames sender.unique (conn_of all owner))
            then []
            else owner ∷ []
      ]
    ])

-- `type == METHOD_CALL && !(flags & NO_REPLY)`.
abbrev pub expects_reply : WireMsg → Bool
expects_reply msg = msg.type == type_method_call && not (msg.flags % 2 == 1)

unfoldable pub route_unicast : WireMsg → Conn → Option ℕ → List ReplyEnt → ℕ → ℕ → Routed
route_unicast msg sender none replies now max_targets = record {
  targets = [];
  synth_error = true;
  denied = false;
  replies = replies;
}
route_unicast msg sender (some owner) replies now max_targets =
    if max_targets == 0
    then to_targets replies []
    else to_targets
        (if expects_reply msg
          then replies_record replies now owner msg.serial sender.id
          else replies)
        (owner ∷ [])

unfoldable pub route_targets :
    WireMsg → Conn → Names → List Conn → Policy → List ReplyEnt → ℕ → ℕ → Routed
unfolding route_reply route_signal route_unicast
route_targets msg sender names all pol replies now max_targets =
    let dest_owner : Option ℕ = route_resolve names all msg.destination in
    if is_reply msg
    then route_reply msg sender names all replies max_targets
    else if not (policy_eval pol (send_request msg sender (owned_names names dest_owner)))
    then record { targets = []; synth_error = false; denied = true; replies = replies }
    else if msg.type == type_signal
    then route_signal msg sender names all pol dest_owner replies max_targets
    else route_unicast msg sender dest_owner replies now max_targets
