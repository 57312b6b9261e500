-- ===== src/Engine/Bound.antt =====
-- A binder goes on only with its bound: bind_pass, the body of the loop in bind_tick.
use schema_init.Prelude.{
  ℕ, zero, suc, ◌≡◌, refl, sym, ap, ◌∙◌, ◌≢◌, ◌⊎◌, inl, inr, true, false, some, List, [], ◌∷◌,
  arith, ◌==◌, Bool-cases, Option-cases, length, get_elem?,
}
use mathlib.Core.Path.{subst}
use schema_init.Schema.{State, new_process, excised, dormant}
use schema_init.Engine.Service.{Service, svc_is_up, is_gone}
use schema_init.Engine.Cards.{
  Engine, Answers, update, modify, at_service, bind_hold, bind_bound, bind_stop, stop_main,
  stop_fuel,
}
use schema_init.Engine.Deck.{at_service-none, at_service-some, get_elem?-modify_self}
use schema_init.Engine.Bind.{
  with_pair, bind_start, bind_excise, bind_down, is_back, bind_back, bind_waits, try_back, try_wait,
  bind_follow, bind_pass, ts_after,
}

with_pair-some {ℓ} :
    {A : Type ℓ} (e : Engine) (j t : ℕ) (b bd : Service) (missing : A) (f : Service → Service → A)
    → get_elem? e.services j ≡ some b
    → get_elem? e.services t ≡ some bd
    → with_pair e j t missing f ≡ f b bd
with_pair-some e j t b bd missing f g h =
    at_service-some e j b missing (λ b. at_service e t missing (λ bd. f b bd)) g
    ∙ at_service-some e t bd missing (λ bd. f b bd) h

-- A held binder is not held once more, whatever happens to its bound.
bind_stop-held :
    (stop : ℕ → Engine → Engine) (j : ℕ) (e : Engine) (b : Service)
    → get_elem? e.services j ≡ some b
    → b.bind_held ≡ true
    → bind_stop stop j e ≡ e
unfolding bind_stop
bind_stop-held stop j e b g h = at_service-some e j b e _ g ∙ rw h refl

bind_down-held :
    (ans : Answers) (j : ℕ) (e : Engine) (b bd : Service)
    → get_elem? e.services j ≡ some b
    → b.bind_held ≡ true
    → bind_down ans j e b bd ≡ e
unfolding bind_down
bind_down-held ans j e b bd g h =
    ground (arith, bind_stop-held (stop_main (stop_fuel e) ans) j e b g h)

-- What `bind_tick` must see of the bound by its tests before it starts a held binder again.
record Returned (b bd : Service) : Type 0 where
  is_up : svc_is_up bd ≡ true
  not_stopping : (bd.stop_pid ≡ 0) × (bd.ctl_killed ≡ false)
  newer_run : ts_after bd.spawn_time_mono b.bind_held_since ≡ true
  own_run_over : (b.child_pid ≡ 0) × (b.stop_pid ≡ 0)

bind_back-Returned : (b bd : Service) → bind_back (svc_is_up bd) b bd ≡ true → Returned b bd
unfolding bind_back is_back
bind_back-Returned b bd h = record {
  is_up = ground arith;
  not_stopping = ground arith;
  newer_run = ground arith;
  own_run_over = ground arith;
}

-- What must hold of the bound, and of its run `bd0` that the binder was held over, for the binder to go on.
pub record HasReturned (bd0 b bd : Service) : Type 0 where
  pub is_up : svc_is_up bd ≡ true
  pub not_stopping : (bd.stop_pid ≡ 0) × (bd.ctl_killed ≡ false)
  pub newer_run : ts_after bd.spawn_time_mono bd0.bind_seen_spawn ≡ true
  pub own_run_over : (b.child_pid ≡ 0) × (b.stop_pid ≡ 0)

bind_hold-since :
    (e : Engine) (b bd : Service) (t : ℕ)
    → bind_bound e.services b ≡ some t
    → get_elem? e.services t ≡ some bd
    → b.bind_held ≡ false
    → (bind_hold e b).bind_held_since ≡ bd.bind_seen_spawn
unfolding bind_hold
bind_hold-since e b bd t bound h free =
    rw free (rw bound (at_service-some e t bd _ (λ (x : Service). x.bind_seen_spawn) h))

abbrev waiting : Engine → Service → Service
waiting e b = bind_hold e (bind_excise b)

-- `try_wait` on two services that are there: nothing, or the binder is held.
try_wait-cases :
    (j t : ℕ) (e : Engine) (b bd : Service)
    → get_elem? e.services j ≡ some b
    → get_elem? e.services t ≡ some bd
    → (try_wait j t e ≡ e) × (bind_waits b bd ≡ false)
      ⊎ (get_elem? (try_wait j t e).services j ≡ some (waiting e b))
unfolding try_wait update
try_wait-cases j t e b bd g h = elim (Bool-cases (bind_waits b bd)) [
  | inl w ↦
      let eq : try_wait j t e ≡ update e j (waiting e) =
        with_pair-some e j t b bd e _ g h ∙ rw w refl in
      inr (ap (λ x. get_elem? x.services j) eq ∙ get_elem?-modify_self e.services j (waiting e) g)
  | inr w ↦
      let eq : try_wait j t e ≡ e = with_pair-some e j t b bd e _ g h ∙ rw w refl in inl (eq, w)
]

some-injective {ℓ} : {A : Type ℓ} {x y : A} → some x ≡ some y → x ≡ y
some-injective {A} p = cc

waiting_held : (e : Engine) (b b' : Service) → some (waiting e b) ≡ some b' → b'.bind_held ≡ true
unfolding bind_hold
waiting_held e b b' p = sym (ap (λ (x : Service). x.bind_held) (some-injective p))

-- A binder that `try_wait` leaves free is left alone, and does not wait for a lost bound.
try_wait-free :
    (j t : ℕ) (e : Engine) (b bd b' : Service)
    → get_elem? e.services j ≡ some b
    → get_elem? e.services t ≡ some bd
    → get_elem? (try_wait j t e).services j ≡ some b'
    → b'.bind_held ≡ false
    → (try_wait j t e ≡ e) × (b' ≡ b) × (bind_waits b bd ≡ false)
try_wait-free j t e b bd b' g h r k = elim (try_wait-cases j t e b bd g h) [
  | inl (eq, w) ↦ (eq, some-injective (sym r ∙ ap (λ x. get_elem? x.services j) eq ∙ g), w)
  | inr p ↦ let held = waiting_held e b b' (sym p ∙ r) in cc
]

-- `try_back` on a held binder: nothing, or the binder is started and its bound is back.
try_back-cases :
    (j t : ℕ) (e : Engine) (b bd : Service)
    → get_elem? e.services j ≡ some b
    → get_elem? e.services t ≡ some bd
    → (try_back (svc_is_up bd) j t e ≡ e)
      ⊎ (try_back (svc_is_up bd) j t e ≡ update e j bind_start) × Returned b bd
unfolding try_back
try_back-cases j t e b bd g h = elim (Bool-cases (bind_back (svc_is_up bd) b bd)) [
  | inl w ↦ inr (with_pair-some e j t b bd e _ g h ∙ rw w refl, bind_back-Returned b bd w)
  | inr w ↦ inl (with_pair-some e j t b bd e _ g h ∙ rw w refl)
]

modify_present :
    (ss : List Service) (i t : ℕ) (f : Service → Service) (s : Service)
    → get_elem? ss t ≡ some s
    → (s' : Service) × (get_elem? (modify ss i f) t ≡ some s')
unfolding modify
modify_present [] i t f s h = cc
modify_present (x ∷ ss) zero zero f s h = (f x, refl)
modify_present (x ∷ ss) zero (suc t) f s h = (s, h)
modify_present (x ∷ ss) (suc i) zero f s h = (x, refl)
modify_present (x ∷ ss) (suc i) (suc t) f s h = modify_present ss i t f s h

-- A binder that `try_wait` leaves behind does not wait for a lost bound any more.
try_wait-done :
    (j t : ℕ) (e : Engine) (b' d' : Service)
    → get_elem? (try_wait j t e).services j ≡ some b'
    → get_elem? (try_wait j t e).services t ≡ some d'
    → bind_waits b' d' ≡ false
unfolding try_wait bind_waits
try_wait-done j t e b' d' r q = elim (Bool-cases b'.bind_held) [
  | inl k ↦ rw k refl
  | inr k ↦ elim (Option-cases (get_elem? e.services j)) [
    | inl g ↦
        let eq : try_wait j t e ≡ e = at_service-none e j e _ g in
        let gone = sym (ap (λ x. get_elem? x.services j) eq ∙ g) ∙ r in cc
    | inr (b, g) ↦ elim (Option-cases (get_elem? e.services t)) [
      | inl h ↦
          let eq : try_wait j t e ≡ e = at_service-some e j b e _ g ∙ at_service-none e t e _ h in
          let gone = sym (ap (λ x. get_elem? x.services t) eq ∙ h) ∙ q in cc
      | inr (d, h) ↦
          let (eq, same, w) = try_wait-free j t e b d b' g h r k in
          let same_d = some-injective (sym q ∙ ap (λ x. get_elem? x.services t) eq ∙ h) in
          subst (λ y. bind_waits b' y ≡ false) (sym same_d)
            (subst (λ x. bind_waits x d ≡ false) (sym same) w)
    ]
  ]
]

not_gone_state : (s : State) → is_gone s ≡ false → (s ≢ excised) × (s ≢ dormant)
not_gone_state s h = grind (arith, h)

-- The tests of a binder that does not wait, where it is free and about to start.
not_gone :
    (b d : Service)
    → b.bind_held ≡ false
    → b.child_pid ≡ 0
    → b.inst.state ≡ new_process
    → bind_waits b d ≡ false
    → (d.inst.state ≢ excised) × (d.inst.state ≢ dormant)
unfolding bind_waits
not_gone b d free idle new w = not_gone_state d.inst.state (ground (arith, new))

module _ (ans : Answers) (j t : ℕ) (e : Engine) (b bd : Service)
    (g : get_elem? e.services j ≡ some b) (h : get_elem? e.services t ≡ some bd)
    (named : (length b.bind_name == 0) ≡ false) (bound : bind_bound e.services b ≡ some t) where
  pass_follows :
      bind_pass ans j e ≡ try_wait j t (try_back (svc_is_up bd) j t (bind_down ans j e b bd))
  unfolding bind_pass bind_follow
  pass_follows =
      at_service-some e j b e _ g ∙ rw named (rw bound (with_pair-some e j t b bd e _ g h))

  let_go :
      (b' : Service)
      → b.bind_held ≡ true
      → get_elem? (bind_pass ans j e).services j ≡ some b'
      → b'.bind_held ≡ false
      → Returned b bd × (b'.inst.state ≡ new_process)
  unfolding update bind_start
  let_go b' held r k =
      let go = try_back (svc_is_up bd) j t in
      let down =
        pass_follows ∙ ap (λ x. try_wait j t (go x)) (bind_down-held ans j e b bd g held) in
      elim (try_back-cases j t e b bd g h) [
        | inl eq ↦
            let same = down ∙ ap (try_wait j t) eq in
            let (_, left, _) =
              try_wait-free j t e b bd b' g h (sym (ap (λ x. get_elem? x.services j) same) ∙ r) k in
            cc
        | inr (eq, back) ↦
            let same = down ∙ ap (try_wait j t) eq in
            let (d, at) = modify_present e.services j t bind_start bd h in
            let (_, left, _) =
              try_wait-free j t (update e j bind_start) (bind_start b) d b'
                (get_elem?-modify_self e.services j bind_start g) at
                (sym (ap (λ x. get_elem? x.services j) same) ∙ r) k in
            (back, ap (λ (x : Service). x.inst.state) left)
      ]

  -- A binder whose hold was set by `bind_hold` over the bound that it had then, and that is held since, is
  -- let go by the body of `bind_tick`'s loop only if its bound is up in a run that began after the run
  -- of that former bound that was last seen up at the hold, is not being stopped, and the binder's own
  -- old run is over; the binder then starts anew. The binder and its bound are in the table.
  pub held_until_back :
      (b' : Service) (e0 : Engine) (b0 bd0 : Service) (t0 : ℕ)
      → bind_bound e0.services b0 ≡ some t0
      → get_elem? e0.services t0 ≡ some bd0
      → b0.bind_held ≡ false
      → b.bind_held_since ≡ (bind_hold e0 b0).bind_held_since
      → b.bind_held ≡ true
      → get_elem? (bind_pass ans j e).services j ≡ some b'
      → b'.bind_held ≡ false
      → HasReturned bd0 b bd × (b'.inst.state ≡ new_process)
  held_until_back b' e0 b0 bd0 t0 bound0 h0 free since held r k =
      let (back, anew) = let_go b' held r k in
      let seen = since ∙ bind_hold-since e0 b0 bd0 t0 bound0 h0 free in
      (
        record {
          is_up = back.is_up;
          not_stopping = back.not_stopping;
          newer_run = subst (λ u. ts_after bd.spawn_time_mono u ≡ true) seen back.newer_run;
          own_run_over = back.own_run_over;
        },
        anew,
      )

  -- Right after the body of `bind_tick`'s loop for a binder with a bound in the table, a binder that is not
  -- held, has no process and is about to start does not have a bound that is excised or dormant.
  pub strict_start :
      (b' d' : Service)
      → get_elem? (bind_pass ans j e).services j ≡ some b'
      → get_elem? (bind_pass ans j e).services t ≡ some d'
      → b'.bind_held ≡ false
      → b'.child_pid ≡ 0
      → b'.inst.state ≡ new_process
      → (d'.inst.state ≢ excised) × (d'.inst.state ≢ dormant)
  strict_start b' d' r q free idle new =
      let e' = try_back (svc_is_up bd) j t (bind_down ans j e b bd) in
      not_gone b' d' free idle new (
        try_wait-done j t e' b' d' (sym (ap (λ x. get_elem? x.services j) pass_follows) ∙ r)
          (sym (ap (λ x. get_elem? x.services t) pass_follows) ∙ q))
