-- ===== src/Bus/Delivery.antt =====
-- Who gets a message: replies go to callers that wait, and a call that is sent is answered.
use schema_init.Prelude.{
  ℕ, suc, ◌<◌, ◌≡◌, refl, sym, ap, ◌∙◌, inl, inr, Bool, true, false, not, ◌&&◌, Option, none, some,
  List, [], ◌∷◌, arith, ◌==◌, if◌then◌else◌, Bool-cases, All,
}
use mathlib.Core.Path.{subst}
use schema_init.Bus.Wire.{WireMsg}
use schema_init.Bus.Policy.{Policy, policy_eval}
use schema_init.Bus.Replies.{ReplyEnt, replies_match, replies_record}
use schema_init.Bus.Pending.{
  pending, replies_match-wanted, replies_match-pending, replies_record-pending, Answered,
}
use schema_init.Names.Registry.{Names}
use schema_init.Bus.Route.{
  Conn, Routed, is_reply, expects_reply, type_signal, route_targets, route_unicast, route_resolve,
  send_request, owned_names, only,
}

-- A target of a reply is a caller whose call to the sender with that serial is pending.
abbrev pub Waiting : WireMsg → Conn → List ReplyEnt → ℕ → Type 0
Waiting msg sender replies caller = 0 < pending sender.id caller msg.reply_serial replies

only-Waiting :
    (msg : WireMsg) (sender : Conn) (replies : List ReplyEnt) (want : Option ℕ) (b : Bool)
    (m : List ReplyEnt × Option ℕ)
    → ((a : ℕ) → Answered sender.id msg.reply_serial want sender.id a msg.reply_serial replies m)
    → All (Waiting msg sender replies) (if b then [] else only m.1)
only-Waiting msg sender replies want true m h = tt
only-Waiting msg sender replies want false (t', none) h = tt
only-Waiting msg sender replies want false (t', some caller) h = (ground (arith, (h caller).0), tt)

-- A reply goes to nobody but a caller of its sender that waits for it, whatever the policy says.
pub route_targets-Waiting :
    (msg : WireMsg) (sender : Conn) (names : Names) (all : List Conn) (pol : Policy)
    (replies : List ReplyEnt) (now max_targets : ℕ)
    → is_reply msg ≡ true
    → All
        (Waiting msg sender replies)
        (route_targets msg sender names all pol replies now max_targets).targets
unfolding route_targets
route_targets-Waiting msg sender names all pol replies now max_targets r =
    let want = route_resolve names all msg.destination in
    rw (r, route_targets)
      (only-Waiting msg sender replies want (max_targets == 0)
        (replies_match replies sender.id msg.reply_serial want)
        (λ a.
          replies_match-pending replies sender.id msg.reply_serial want sender.id a
            msg.reply_serial))

route_unicast-denied :
    (msg : WireMsg) (sender : Conn) (o : Option ℕ) (replies : List ReplyEnt) (now max_targets : ℕ)
    → (route_unicast msg sender o replies now max_targets).denied ≡ false
unfolding route_unicast
route_unicast-denied msg sender none replies now max_targets = refl
route_unicast-denied msg sender (some owner) replies now max_targets = ground arith

-- Nobody gets a message that is no reply and that the policy forbids; this is reported as denied,
-- and nothing else is.
pub route_targets-denied :
    (msg : WireMsg) (sender : Conn) (names : Names) (all : List Conn) (pol : Policy)
    (replies : List ReplyEnt) (now max_targets : ℕ)
    → (route_targets msg sender names all pol replies now max_targets).denied ≡ (
        not (is_reply msg)
        && not (
            policy_eval pol (
              send_request msg sender
                (owned_names names (route_resolve names all msg.destination)))))
unfolding route_targets
route_targets-denied msg sender names all pol replies now max_targets =
    let owner = route_resolve names all msg.destination in
    elim (Bool-cases (is_reply msg)) [
      | inl r ↦ rw (r, route_targets) refl
      | inr r ↦
          elim (Bool-cases (policy_eval pol (send_request msg sender (owned_names names owner)))) [
            | inl v ↦ elim (Bool-cases (msg.type == type_signal)) [
              | inl t ↦ rw (r, v, t, route_targets) refl
              | inr t ↦
                  rw (r, v, t, route_targets)
                    (route_unicast-denied msg sender owner replies now max_targets)
            ]
            | inr v ↦ rw (r, v, route_targets) refl
          ]
    ]

unicast_recorded :
    (msg : WireMsg) (sender : Conn) (o : Option ℕ) (replies : List ReplyEnt)
    (now max_targets callee : ℕ)
    → (route_unicast msg sender o replies now max_targets).targets ≡ callee ∷ []
    → expects_reply msg ≡ true
    → (route_unicast msg sender o replies now max_targets).replies
      ≡ replies_record replies now callee msg.serial sender.id
unfolding route_unicast
unicast_recorded msg sender none replies now max_targets callee t x = cc
unicast_recorded msg sender (some owner) replies now max_targets callee t x = ground arith

call_no_reply : (msg : WireMsg) → expects_reply msg ≡ true → is_reply msg ≡ false
call_no_reply msg x = ground arith

call_no_signal : (msg : WireMsg) → expects_reply msg ≡ true → (msg.type == type_signal) ≡ false
call_no_signal msg x = ground arith

call_allowed :
    (msg : WireMsg) (sender : Conn) (names : Names) (all : List Conn) (pol : Policy)
    (replies : List ReplyEnt) (now max_targets : ℕ)
    → expects_reply msg ≡ true
    → policy_eval pol
        (send_request msg sender (owned_names names (route_resolve names all msg.destination)))
      ≡ true
    → route_targets msg sender names all pol replies now max_targets
      ≡ route_unicast msg sender (route_resolve names all msg.destination) replies now max_targets
unfolding route_targets
call_allowed msg sender names all pol replies now max_targets x v =
    rw (call_no_reply msg x, v, call_no_signal msg x) refl

call_denied :
    (msg : WireMsg) (sender : Conn) (names : Names) (all : List Conn) (pol : Policy)
    (replies : List ReplyEnt) (now max_targets : ℕ)
    → expects_reply msg ≡ true
    → policy_eval pol
        (send_request msg sender (owned_names names (route_resolve names all msg.destination)))
      ≡ false
    → (route_targets msg sender names all pol replies now max_targets).targets ≡ []
unfolding route_targets
call_denied msg sender names all pol replies now max_targets x v = rw (call_no_reply msg x, v) refl

call_recorded :
    (msg : WireMsg) (sender : Conn) (names : Names) (all : List Conn) (pol : Policy)
    (replies : List ReplyEnt) (now max_targets callee : ℕ)
    → (route_targets msg sender names all pol replies now max_targets).targets ≡ callee ∷ []
    → expects_reply msg ≡ true
    → (route_targets msg sender names all pol replies now max_targets).replies
      ≡ replies_record replies now callee msg.serial sender.id
call_recorded msg sender names all pol replies now max_targets callee t x =
    let owner = route_resolve names all msg.destination in
    let r = call_no_reply msg x in
    let s = call_no_signal msg x in
    elim (Bool-cases (policy_eval pol (send_request msg sender (owned_names names owner)))) [
      | inl v ↦
          let eq = call_allowed msg sender names all pol replies now max_targets x v in
          ap (λ (o : Routed). o.replies) eq
          ∙ unicast_recorded msg sender owner replies now max_targets callee
              (sym (ap (λ (o : Routed). o.targets) eq) ∙ t) x
      | inr v ↦
          let n : [] ≡ callee ∷ [] =
            sym (call_denied msg sender names all pol replies now max_targets x v) ∙ t in
          cc
    ]

reply_targets :
    (msg : WireMsg) (sender : Conn) (names : Names) (all : List Conn) (pol : Policy)
    (replies : List ReplyEnt) (now room : ℕ)
    → is_reply msg ≡ true
    → (route_targets msg sender names all pol replies now (suc room)).targets
      ≡ only
          (replies_match replies sender.id msg.reply_serial
            (route_resolve names all msg.destination)).1
unfolding route_targets
reply_targets msg sender names all pol replies now room r =
    let z : (suc room == 0) ≡ false = ground arith in rw (r, z) refl

-- A call that is sent to a callee and expects a reply is answered: when the callee replies to its
-- serial, before anything else happens and with a destination that resolves to the caller, then the
-- reply goes to the caller.
pub route_targets-answered :
    (call reply : WireMsg) (caller callee : Conn) (names : Names) (all : List Conn)
    (pol pol' : Policy) (replies : List ReplyEnt) (now later room : ℕ)
    → (route_targets call caller names all pol replies now (suc room)).targets ≡ callee.id ∷ []
    → expects_reply call ≡ true
    → is_reply reply ≡ true
    → reply.reply_serial ≡ call.serial
    → route_resolve names all reply.destination ≡ some caller.id
    → (route_targets reply callee names all pol'
        (route_targets call caller names all pol replies now (suc room)).replies
        later
        (suc room)).targets
      ≡ caller.id ∷ []
route_targets-answered call reply caller callee names all pol pol' replies now later room t x r s
      d =
    let kept = (route_targets call caller names all pol replies now (suc room)).replies in
    let recorded : kept ≡ replies_record replies now callee.id call.serial caller.id =
      call_recorded call caller names all pol replies now (suc room) callee.id t x in
    let waits : 0 < pending callee.id caller.id call.serial kept =
      subst (λ l. 0 < pending callee.id caller.id call.serial l) (sym recorded)
        (ground (
          arith,
          replies_record-pending replies now callee.id call.serial caller.id callee.id caller.id
              call.serial,
        )) in
    reply_targets reply callee names all pol' kept later room r
    ∙ (ap (λ w. only (replies_match kept callee.id reply.reply_serial w).1) d
        ∙ (ap (λ n. only (replies_match kept callee.id n (some caller.id)).1) s
            ∙ ap only (replies_match-wanted kept callee.id call.serial caller.id waits)))
