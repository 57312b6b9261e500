-- ===== src/Bus/Replies.antt =====
-- sdbus_reply.h: the calls that wait for a reply.
use schema_init.Prelude.{
  ℕ, zero, suc, ◌+◌, ◌-◌, Bool, true, false, not, ◌&&◌, ◌||◌, Option, none, some, List, [], ◌∷◌,
  ltb, leb, ◌==◌, if◌then◌else◌,
}

abbrev pub reply_timeout_ms : ℕ
reply_timeout_ms = 120000

pub record ReplyEnt : Type 0 where
  pub callee : ℕ
  pub caller : ℕ
  pub serial : ℕ
  pub live : Bool
  pub deadline : ℕ

-- A call is written to the first dead slot, or behind the last one.
unfoldable pub replies_put : List ReplyEnt → ReplyEnt → List ReplyEnt
replies_put [] e = e ∷ []
replies_put (x ∷ xs) e = if x.live then x ∷ replies_put xs e else e ∷ xs

-- `sdbus_replies_record` at the time `now`.
unfoldable pub replies_record : List ReplyEnt → ℕ → ℕ → ℕ → ℕ → List ReplyEnt
unfolding replies_put
replies_record t now callee serial caller = replies_put t (record {
  callee = callee;
  caller = caller;
  serial = serial;
  live = true;
  deadline = now + reply_timeout_ms;
})

-- `want_caller < 0 || ents[i].caller == want_caller`; -1 is `none`.
abbrev pub wanted : Option ℕ → ℕ → Bool
wanted none caller = true
wanted (some w) caller = caller == w

unfoldable pub is_answer_to : ReplyEnt → ℕ → ℕ → Option ℕ → Bool
is_answer_to e from reply_serial want =
    e.live && e.callee == from && e.serial == reply_serial && wanted want e.caller

abbrev pub dead : ReplyEnt → ReplyEnt
dead e = record e { live = false }

unfoldable pub replies_match : List ReplyEnt → ℕ → ℕ → Option ℕ → List ReplyEnt × Option ℕ
unfolding is_answer_to
replies_match [] from reply_serial want = ([], none)
replies_match (e ∷ es) from reply_serial want =
    let (es', caller) = replies_match es from reply_serial want in
    if is_answer_to e from reply_serial want
    then (dead e ∷ es, some e.caller)
    else (e ∷ es', caller)

-- The callers that wait for `callee`, with the serials of their calls.
unfoldable pub replies_pending_on : List ReplyEnt → ℕ → ℕ → ℕ → List (ℕ × ℕ)
replies_pending_on es callee except zero = []
replies_pending_on [] callee except (suc max) = []
replies_pending_on (e ∷ es) callee except (suc max) =
    let skip = replies_pending_on es callee except (suc max) in
    let next = replies_pending_on es callee except max in
    if e.live && e.callee == callee && not (e.caller == except)
    then (e.caller, e.serial) ∷ next
    else skip

abbrev pub earlier : Option ℕ → ℕ → Bool
earlier none d = true
earlier (some b) d = ltb d b

unfoldable pub next_deadline_from : Option ℕ → List ReplyEnt → Option ℕ
next_deadline_from best [] = best
next_deadline_from best (e ∷ es) =
    next_deadline_from (if e.live && earlier best e.deadline then some e.deadline else best) es

unfoldable pub replies_next_deadline : List ReplyEnt → Option ℕ
unfolding next_deadline_from
replies_next_deadline t = next_deadline_from none t

-- Expired calls die; as many of them are reported as there is room for.
unfoldable pub replies_reap_expired : List ReplyEnt → ℕ → ℕ → List ReplyEnt × List (ℕ × ℕ)
replies_reap_expired [] now_ms max = ([], [])
replies_reap_expired (e ∷ es) now_ms max =
    let (kept, out) = replies_reap_expired es now_ms max in
    let (reaped, less) = replies_reap_expired es now_ms (max - 1) in
    if not (e.live && leb e.deadline now_ms)
    then (e ∷ kept, out)
    else if max == 0
    then (dead e ∷ kept, out)
    else (dead e ∷ reaped, (e.caller, e.serial) ∷ less)

unfoldable pub replies_purge : List ReplyEnt → ℕ → List ReplyEnt
replies_purge [] conn = []
replies_purge (e ∷ es) conn =
    (if e.live && (e.caller == conn || e.callee == conn) then dead e else e) ∷ replies_purge es conn
