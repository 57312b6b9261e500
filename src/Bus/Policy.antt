-- ===== src/Bus/Policy.antt =====
-- sdbus_policy.h: the policy text, its contexts and rules, and the verdict on a request.
use schema_init.Prelude.{
  ℕ, ◌^◌, Bool, true, false, ◌&&◌, ◌||◌, Option, none, some, List, [], ◌∷◌, leb, ◌==◌,
  if◌then◌else◌, Bytes, codes, str_eq, starts_with,
}

-- `sdbus_req`; an `int` is its 32-bit pattern, so that a uid of -1 is 2 ^ 32 - 1.
pub record Req : Type 0 where
  pub op : Option Bytes
  pub uid : ℕ
  pub gids : List ℕ
  pub interface : Option Bytes
  pub member : Option Bytes
  pub msgtype : Option Bytes
  pub path : Option Bytes
  pub destination : Option Bytes
  pub dest_names : List Bytes
  pub name : Option Bytes
  pub has_reply_serial : Bool
  pub sender_name : Option Bytes
  pub sender_names : List Bytes

pub record Pred : Type 0 where
  pub attr : Bytes
  pub value : Bytes

pub record Rule : Type 0 where
  pub allow : Bool
  pub preds : List Pred

pub data CtxKind : Type 0 where
  ctx_default : CtxKind
  ctx_mandatory : CtxKind
  ctx_user : CtxKind
  ctx_group : CtxKind

pub record CtxSel : Type 0 where
  pub wildcard : Bool
  pub selector_id : ℕ

pub record Ctx : Type 0 where
  pub kind : CtxKind
  pub sel : CtxSel
  pub rules : List Rule

pub record Policy : Type 0 where
  pub ctxs : List Ctx
  pub has_recv_rule : Bool

-- `sdbus__eq`: false on a NULL pointer.
abbrev pub eq_text : Option Bytes → Bytes → Bool
eq_text none s = false
eq_text (some t) s = str_eq t s

abbrev pub is_star : Bytes → Bool
is_star value = str_eq value (codes "*")

abbrev pub present : Option Bytes → Bool
present none = false
present (some s) = true

unfoldable pub field_matches : Option Bytes → Bytes → Bool
field_matches field value = if is_star value then present field else eq_text field value

unfoldable pub has_name : List Bytes → Bytes → Bool
has_name [] value = false
has_name (n ∷ ns) value = str_eq n value || has_name ns value

-- Membership in the owned names, with a fallback where there are none.
unfoldable pub names_match : List Bytes → Option Bytes → Bytes → Bool
unfolding has_name
names_match [] fallback value = if is_star value then present fallback else eq_text fallback value
names_match (n ∷ ns) fallback value = if is_star value then true else has_name (n ∷ ns) value

abbrev pub or_blank : Option Bytes → Bytes
or_blank none = []
or_blank (some s) = s

abbrev pub sends : Req → Bool
sends req = eq_text req.op (codes "send")

abbrev pub receives : Req → Bool
receives req = eq_text req.op (codes "receive")

abbrev pub asks_name : Req → Bool
asks_name req = eq_text req.op (codes "own")

-- One turn of the loop in `sdbus__rule_matches`: false where it returns 0.
unfoldable pub pred_matches : Pred → Req → Bool
unfolding field_matches names_match
pred_matches p req =
    if str_eq p.attr (codes "user") || str_eq p.attr (codes "group")
    then is_star p.value
    else if str_eq p.attr (codes "own")
    then asks_name req && (is_star p.value || str_eq p.value (or_blank req.name))
    else if str_eq p.attr (codes "own_prefix")
    then asks_name req && starts_with p.value (or_blank req.name)
    else if str_eq p.attr (codes "send_destination")
    then sends req && names_match req.dest_names req.destination p.value
    else if str_eq p.attr (codes "send_interface")
    then sends req && field_matches req.interface p.value
    else if str_eq p.attr (codes "send_member")
    then sends req && field_matches req.member p.value
    else if str_eq p.attr (codes "send_type")
    then sends req && field_matches req.msgtype p.value
    else if str_eq p.attr (codes "send_path")
    then sends req && field_matches req.path p.value
    else if str_eq p.attr (codes "receive_sender")
    then receives req && names_match req.sender_names req.sender_name p.value
    else if str_eq p.attr (codes "receive_interface")
    then receives req && field_matches req.interface p.value
    else if str_eq p.attr (codes "receive_member")
    then receives req && field_matches req.member p.value
    else if str_eq p.attr (codes "receive_type")
    then receives req && field_matches req.msgtype p.value
    else if str_eq p.attr (codes "receive_path")
    then receives req && field_matches req.path p.value
    else false

unfoldable pub preds_match : List Pred → Req → Bool
preds_match [] req = true
preds_match (p ∷ ps) req = pred_matches p req && preds_match ps req

unfoldable pub rule_matches : Rule → Req → Bool
unfolding preds_match
rule_matches rule req = preds_match rule.preds req

unfoldable pub mem_id : ℕ → List ℕ → Bool
mem_id i [] = false
mem_id i (g ∷ gs) = g == i || mem_id i gs

abbrev pub is_empty : List ℕ → Bool
is_empty [] = true
is_empty (g ∷ gs) = false

abbrev pub is_negative : ℕ → Bool
is_negative i = leb (2 ^ 31) i

unfoldable pub applicable : Ctx → Req → Bool
unfolding mem_id
applicable ctx req = elim ctx.kind [
  | ctx_default ↦ true
  | ctx_mandatory ↦ true
  | ctx_user ↦
      if is_negative req.uid
      then false
      else if ctx.sel.wildcard
      then true
      else ctx.sel.selector_id == req.uid
  | ctx_group ↦
      if is_empty req.gids
      then false
      else if ctx.sel.wildcard
      then true
      else mem_id ctx.sel.selector_id req.gids
]

unfoldable pub is_requested_reply : Req → Bool
is_requested_reply req =
    sends req
    && req.has_reply_serial
    && (eq_text req.msgtype (codes "method_return") || eq_text req.msgtype (codes "error"))

abbrev pub same_kind : CtxKind → CtxKind → Bool
same_kind ctx_default ctx_default = true
same_kind ctx_mandatory ctx_mandatory = true
same_kind ctx_user ctx_user = true
same_kind ctx_group ctx_group = true
same_kind _ _ = false

-- The loops of `sdbus_policy_eval`, innermost first; the verdict is true for "allow".
unfoldable pub eval_rules : List Rule → Req → Bool → Bool
eval_rules [] req verdict = verdict
eval_rules (r ∷ rs) req verdict =
    eval_rules rs req (if rule_matches r req then r.allow else verdict)

unfoldable pub eval_ctxs : CtxKind → List Ctx → Req → Bool → Bool
unfolding eval_rules
eval_ctxs kind [] req verdict = verdict
eval_ctxs kind (c ∷ cs) req verdict =
    eval_ctxs kind cs req (
      if same_kind c.kind kind && applicable c req then eval_rules c.rules req verdict else verdict)

unfoldable pub policy_eval : Policy → Req → Bool
unfolding eval_ctxs
policy_eval pol req =
    if is_requested_reply req
    then true
    else eval_ctxs ctx_mandatory pol.ctxs req (
        eval_ctxs ctx_user pol.ctxs req
          (eval_ctxs ctx_group pol.ctxs req (eval_ctxs ctx_default pol.ctxs req false)))
