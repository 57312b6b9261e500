-- ===== src/Bus/Verdicts.antt =====
-- The verdict of a policy: which rule decides, and what decides if none does.
use schema_init.Prelude.{
  ◌≡◌, refl, sym, ap, ◌∙◌, inl, inr, Bool, false, ◌&&◌, List, [], ◌∷◌, ◌++◌, if◌then◌else◌,
  Bool-cases,
}
use schema_init.Bus.Policy.{
  Policy, Ctx, CtxKind, ctx_default, ctx_mandatory, ctx_user, ctx_group, Rule, Req, applicable,
  same_kind, rule_matches, eval_rules, eval_ctxs, policy_eval, is_requested_reply,
}

-- The rules that match a request.
abbrev pub matching : List Rule → Req → List Rule
matching [] req = []
matching (r ∷ rs) req = if rule_matches r req then r ∷ matching rs req else matching rs req

-- The matching rules of the contexts of a kind that apply to a request, in the order of the text.
abbrev pub in_force : CtxKind → List Ctx → Req → List Rule
in_force kind [] req = []
in_force kind (c ∷ cs) req =
    if same_kind c.kind kind && applicable c req
    then matching c.rules req ++ in_force kind cs req
    else in_force kind cs req

-- What the last rule says.
abbrev pub last_says : Bool → List Rule → Bool
last_says verdict [] = verdict
last_says verdict (r ∷ rs) = last_says r.allow rs

last_says-append :
    (v : Bool) (rs ss : List Rule) → last_says v (rs ++ ss) ≡ last_says (last_says v rs) ss
last_says-append v [] ss = refl
last_says-append v (r ∷ rs) ss = last_says-append r.allow rs ss

eval_rules-last_says :
    (rs : List Rule) (req : Req) (v : Bool) → eval_rules rs req v ≡ last_says v (matching rs req)
unfolding eval_rules
eval_rules-last_says [] req v = refl
eval_rules-last_says (r ∷ rs) req v = elim (Bool-cases (rule_matches r req)) [
  | inl m ↦ rw m (eval_rules-last_says rs req r.allow)
  | inr m ↦ rw m (eval_rules-last_says rs req v)
]

eval_ctxs-last_says :
    (kind : CtxKind) (cs : List Ctx) (req : Req) (v : Bool)
    → eval_ctxs kind cs req v ≡ last_says v (in_force kind cs req)
unfolding eval_ctxs
eval_ctxs-last_says kind [] req v = refl
eval_ctxs-last_says kind (c ∷ cs) req v =
    elim (Bool-cases (same_kind c.kind kind && applicable c req)) [
      | inl m ↦ rw m (
          eval_ctxs-last_says kind cs req (eval_rules c.rules req v)
          ∙ (ap (λ b. last_says b (in_force kind cs req)) (eval_rules-last_says c.rules req v)
              ∙ sym (last_says-append v (matching c.rules req) (in_force kind cs req))))
      | inr m ↦ rw m (eval_ctxs-last_says kind cs req v)
    ]

eval_ctxs-last_says-append :
    (kind : CtxKind) (cs : List Ctx) (req : Req) (v w : Bool) (rs : List Rule)
    → w ≡ last_says v rs
    → eval_ctxs kind cs req w ≡ last_says v (rs ++ in_force kind cs req)
eval_ctxs-last_says-append kind cs req v w rs e =
    eval_ctxs-last_says kind cs req w
    ∙ (ap (λ b. last_says b (in_force kind cs req)) e
        ∙ sym (last_says-append v rs (in_force kind cs req)))

-- The rules that bear on a request, the weakest first.
abbrev pub weaker : Policy → Req → List Rule
weaker pol req =
    (in_force ctx_default pol.ctxs req ++ in_force ctx_group pol.ctxs req)
    ++ in_force ctx_user pol.ctxs req

abbrev pub precedence : Policy → Req → List Rule
precedence pol req = weaker pol req ++ in_force ctx_mandatory pol.ctxs req

-- The verdict on what is not a requested reply is what the last matching rule says, in the order of
-- the default, group, user and mandatory contexts that apply; it is a denial if no rule matches.
pub policy_eval-last_says :
    (pol : Policy) (req : Req)
    → is_requested_reply req ≡ false
    → policy_eval pol req ≡ last_says false (precedence pol req)
unfolding policy_eval
policy_eval-last_says pol req n = rw n (
    eval_ctxs-last_says-append ctx_mandatory pol.ctxs req false _ (weaker pol req) (
      eval_ctxs-last_says-append ctx_user pol.ctxs req false _
        (in_force ctx_default pol.ctxs req ++ in_force ctx_group pol.ctxs req)
        (eval_ctxs-last_says-append ctx_group pol.ctxs req false _
          (in_force ctx_default pol.ctxs req)
          (eval_ctxs-last_says ctx_default pol.ctxs req false))))

-- If a rule of a mandatory context matches what is not a requested reply, the last such rule decides,
-- whatever the other contexts say.
pub policy_eval-mandatory :
    (pol : Policy) (req : Req) (r : Rule) (rs : List Rule)
    → is_requested_reply req ≡ false
    → in_force ctx_mandatory pol.ctxs req ≡ r ∷ rs
    → policy_eval pol req ≡ last_says r.allow rs
policy_eval-mandatory pol req r rs n h =
    policy_eval-last_says pol req n
    ∙ (last_says-append false (weaker pol req) (in_force ctx_mandatory pol.ctxs req)
        ∙ ap (λ l. last_says (last_says false (weaker pol req)) l) h)
