-- ===== src/Engine/Deck.antt =====
-- The table of services under an update, and the cards of a service.
use schema_init.Prelude.{
  ℕ, zero, suc, ◌+◌, ◌≤◌, ◌<◌, ◌≡◌, refl, sym, ap, ◌∙◌, ◌≢◌, ◌⊎◌, inl, inr, true, ◌||◌, Option,
  none, some, List, [], ◌∷◌, arith, ltb, leb, Bool-cases, Option-cases, length, get_elem?, drop,
  Bytes, starts_with,
}
use mathlib.Core.Path.{subst}
use schema_init.Engine.Service.{Time, Service}
use schema_init.Engine.Probe.{find_other, service_fallback, fallback_prefix}
use schema_init.Engine.Backoff.{park}
use schema_init.Engine.Cards.{
  Engine, Answers, modify, update, at_service, fallback_up, play_card, play_next, play_fallback,
  play_exec,
}

pub at_service-some {ℓ} :
    {A : Type ℓ} (e : Engine) (i : ℕ) (s : Service) (missing : A) (f : Service → A)
    → get_elem? e.services i ≡ some s
    → at_service e i missing f ≡ f s
at_service-some {A} e i s missing f g = ap {B = A} (λ o. elim o [ none ↦ missing | some t ↦ f t ]) g

pub at_service-none {ℓ} :
    {A : Type ℓ} (e : Engine) (i : ℕ) (missing : A) (f : Service → A)
    → get_elem? e.services i ≡ none
    → at_service e i missing f ≡ missing
at_service-none {A} e i missing f g = ap {B = A} (λ o. elim o [ none ↦ missing | some t ↦ f t ]) g

pub get_elem?-modify_self :
    (ss : List Service) (i : ℕ) (f : Service → Service) {s : Service}
    → get_elem? ss i ≡ some s
    → get_elem? (modify ss i f) i ≡ some (f s)
unfolding modify
get_elem?-modify_self [] i f h = cc
get_elem?-modify_self (x ∷ ss) zero f h = cc
get_elem?-modify_self (x ∷ ss) (suc i) f h = get_elem?-modify_self ss i f h

pub get_elem?-modify_ne :
    (ss : List Service) (i j : ℕ) (f : Service → Service)
    → i ≢ j
    → get_elem? (modify ss i f) j ≡ get_elem? ss j
unfolding modify
get_elem?-modify_ne [] i j f ne = refl
get_elem?-modify_ne (x ∷ ss) zero zero f ne = absurd (ne refl)
get_elem?-modify_ne (x ∷ ss) zero (suc j) f ne = refl
get_elem?-modify_ne (x ∷ ss) (suc i) zero f ne = refl
get_elem?-modify_ne (x ∷ ss) (suc i) (suc j) f ne =
    get_elem?-modify_ne ss i j f (λ e. ne (ap suc e))

find_other-ne :
    (ts : List Service) (j self : ℕ) (name : Bytes) (k : ℕ)
    → find_other j ts self name ≡ some k
    → k ≢ self
unfolding find_other
find_other-ne [] j self name k h = cc
find_other-ne (t ∷ ts) j self name k h = ground (arith, find_other-ne ts (suc j) self name k)

-- The fallback of a service is another service.
pub service_fallback-ne :
    (cs : List Bytes) (table : List Service) (self j : ℕ)
    → service_fallback cs table self ≡ some j
    → j ≢ self
unfolding service_fallback
service_fallback-ne [] table self j h = cc
service_fallback-ne (c ∷ cs) table self j h =
    ground (arith, service_fallback-ne cs table self j, find_other-ne table 0 self (drop 9 c) j)

-- What playing the deck does to its service.
pub record Played (s s' : Service) : Type 0 where
  pub in_order : (s'.card_next ≡ s.card_next) ⊎ (s'.card_next ≡ suc s.card_next)
  pub in_deck : s.card_next ≤ length s.card → s'.card_next ≤ length s.card
  pub same_deck : s'.card ≡ s.card
  pub same_budget : s'.restart_count ≡ s.restart_count
  pub waits : 0 < s.card_pid → s' ≡ s

-- The service at index `i` after a call that may have met the undefined shift.
abbrev Plays : ℕ → Service → Option Engine → Type 0
Plays i s none = Unit
Plays i s (some e) = (s' : Service) × (get_elem? e.services i ≡ some s') × Played s s'

idle-Played : (s : Service) → Played s s
idle-Played s = ground arith

-- Parking leaves the deck and the budget alone.
pub park_keeps :
    (s t : Service) (now : Time)
    → park s now ≡ some t
    → (t.card ≡ s.card) × (t.card_next ≡ s.card_next) × (t.restart_count ≡ s.restart_count)
unfolding park
park_keeps s t now h = ground arith

module _ (ans : Answers) (i : ℕ) (e : Engine) (s : Service)
    (g : get_elem? e.services i ≡ some s) where
  play_exec-Plays :
      s.card_pid ≡ 0 → s.card_next < length s.card → Plays i s (some (play_exec ans i s e))
  unfolding play_exec update
  play_exec-Plays idle room = elim (Option-cases (ans.card_fork i)) [
    | inl f ↦
        rw (f, play_exec)
          (
            record s { card_next = s.card_next + 1 },
            get_elem?-modify_self e.services i _ g,
            ground arith,
          )
    | inr (pid, f) ↦
        rw (f, play_exec)
          (
            record s { card_next = s.card_next + 1; card_pid = pid; card_start = ans.now },
            get_elem?-modify_self e.services i _ g,
            ground arith,
          )
  ]

  play_fallback-Plays :
      s.card_pid ≡ 0 → s.card_next < length s.card → Plays i s (play_fallback ans i s e)
  unfolding play_fallback update
  play_fallback-Plays idle room = elim (Option-cases (service_fallback s.card e.services i)) [
    | inl f ↦
        rw (f, play_fallback)
          (
            record s { card_next = s.card_next + 1 },
            get_elem?-modify_self e.services i _ g,
            ground arith,
          )
    | inr (j, f) ↦
        let s' = record s { card_next = s.card_next + 1; fallback_live = true } in
        elim (Option-cases (park s' ans.now)) [
          | inl q ↦ rw (f, q, play_fallback) tt
          | inr (t, q) ↦
              rw (f, q, play_fallback)
                (
                  t,
                  get_elem?-modify_ne _ j i fallback_up
                        (service_fallback-ne s.card e.services i j f)
                      ∙ get_elem?-modify_self e.services i _ g,
                  ground (arith, park_keeps s' t ans.now q),
                )
        ]
  ]

play_next-Plays :
    (ans : Answers) (i : ℕ) (e : Engine) (s : Service)
    → get_elem? e.services i ≡ some s
    → Plays i s (play_next ans i s e)
unfolding play_next
play_next-Plays ans i e s g =
    elim (Bool-cases (ltb 0 s.card_pid || leb (length s.card) s.card_next)) [
      | inl stay ↦ rw (stay, play_next, Plays) (s, g, idle-Played s)
      | inr go ↦ elim (Option-cases (get_elem? s.card s.card_next)) [
        | inl f ↦ rw (go, play_next, Plays) (rw (f, Plays) (s, g, idle-Played s))
        | inr (c, f) ↦ elim (Bool-cases (starts_with fallback_prefix c)) [
          | inl b ↦
              rw (go, play_next, Plays)
                (rw (f, Plays)
                  (rw (b, Plays) (play_fallback-Plays ans i e s g (ground arith) (ground arith))))
          | inr b ↦
              rw (go, play_next, Plays)
                (rw (f, Plays)
                  (rw (b, Plays) (play_exec-Plays ans i e s g (ground arith) (ground arith))))
        ]
      ]
    ]

play_card-at :
    (ans : Answers) (i : ℕ) (e : Engine) (s : Service)
    → get_elem? e.services i ≡ some s
    → play_card ans i e ≡ play_next ans i s e
unfolding play_card
play_card-at ans i e s g = at_service-some e i s (some e) (λ s. play_next ans i s e) g

-- If the call returns, its service stands at its index, with at most one more card played, in
-- order and within its deck; a card that is still running lets no other be played.
pub play_card-Played :
    (ans : Answers) (i : ℕ) (e e' : Engine) (s : Service)
    → get_elem? e.services i ≡ some s
    → play_card ans i e ≡ some e'
    → (s' : Service) × (get_elem? e'.services i ≡ some s') × Played s s'
play_card-Played ans i e e' s g p =
    subst (Plays i s) (sym (play_card-at ans i e s g) ∙ p) (play_next-Plays ans i e s g)
