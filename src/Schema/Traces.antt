-- ===== src/Schema/Traces.antt =====
-- What must have been observed for a service to be excised, over every sequence of flag words.
use schema_init.Prelude.{ℕ, ◌<◌, ◌≡◌, refl, ap, ◌∙◌, ◌≢◌, ◌⊎◌, inl, inr, List, [], ◌∷◌, ◌++◌}
use schema_init.Schema.{
  State, friction, settled, new_process, recovery, full_trust, perfect, excised, dormant, Instance,
  popcount, f8_bits, f9_bits, f6_bits, schema_step, schema_instance_init,
}
use mathlib.Core.Path.{subst}
use mathlib.Core.List.{append-nil, append_assoc}
use schema_init.Schema.Graph.{
  Edge, trusted, doubted, recovered, worsened, rescued, condemned, promoted, lost, waiting,
  IsStable, stable_fundamental, stable_settled, stable_perfect, stable_excised, stable_dormant,
  Moves, step-Moves,
}

-- The state machine driven by one flag word after another.
unfoldable pub run_steps : Instance → List ℕ → Instance
run_steps i [] = i
run_steps i (f ∷ fs) = run_steps (schema_step i f) fs

abbrev pub Low8 : ℕ → Type 0
Low8 f = popcount (f8_bits f) < 5

abbrev pub Low9 : ℕ → Type 0
Low9 f = popcount (f9_bits f) < 8

abbrev pub Low6 : ℕ → Type 0
Low6 f = popcount (f6_bits f) < 3

-- The words split at one that was too light in its vector while the service was in the state `s`.
pub record Failure (Low : ℕ → Type 0) (s : State) (i : Instance) (fs : List ℕ) : Type 0 where
  pub before : List ℕ
  pub word : ℕ
  pub after : List ℕ
  pub split : fs ≡ before ++ word ∷ after
  pub from_state : (run_steps i before).state ≡ s
  pub light : Low word

-- A failure of the F8 word in NEW_PROCESS.
abbrev pub Doubted : Instance → List ℕ → Type 0
Doubted i fs = Failure Low8 new_process i fs

-- Behind it a failure of the F9 word in RECOVERY.
abbrev pub Worsened : Instance → List ℕ → Type 0
Worsened i fs = (w : Failure Low9 recovery i fs) × Doubted i w.before

-- Behind both a failure of the F6 word in FRICTION.
abbrev pub Condemned : Instance → List ℕ → Type 0
Condemned i fs = (c : Failure Low6 friction i fs) × Worsened i c.before

-- A zero word in FULL_TRUST.
abbrev pub Lost : Instance → List ℕ → Type 0
Lost i fs = Failure (λ f. f ≡ 0) full_trust i fs

-- What the words seen so far must hold, by the state that they led to.
abbrev Seen : Instance → State → List ℕ → Type 0
Seen i recovery fs = Doubted i fs
Seen i friction fs = Worsened i fs
Seen i settled fs = Doubted i fs
Seen i excised fs = Condemned i fs ⊎ Lost i fs
Seen i dormant fs = ⊥
Seen i perfect fs = ⊥
Seen i _ fs = Unit

run_steps-snoc :
    (i : Instance) (fs : List ℕ) (f : ℕ)
    → run_steps i (fs ++ f ∷ []) ≡ schema_step (run_steps i fs) f
unfolding run_steps
run_steps-snoc i [] f = refl
run_steps-snoc i (g ∷ fs) f = run_steps-snoc (schema_step i g) fs f

-- A failure within the first words is one within all.
abbrev widen :
    {Low : ℕ → Type 0} {s : State} {i : Instance} {fs : List ℕ} (gs rest : List ℕ)
    → fs ≡ gs ++ rest
    → Failure Low s i gs
    → Failure Low s i fs
widen gs rest e k = record {
  before = k.before;
  word = k.word;
  after = k.after ++ rest;
  split = e ∙ (ap (λ l. l ++ rest) k.split ∙ append_assoc k.before (k.word ∷ k.after) rest);
  from_state = k.from_state;
  light = k.light;
}

module _ (i : Instance) (seen : List ℕ) (f : ℕ) where
  abbrev later :
      {Low : ℕ → Type 0} {s : State} → Failure Low s i seen → Failure Low s i (seen ++ f ∷ [])
  later k = widen seen (f ∷ []) refl k

  abbrev now_light :
      {Low : ℕ → Type 0} {s : State}
      → (run_steps i seen).state ≡ s
      → Low f
      → Failure Low s i (seen ++ f ∷ [])
  now_light e h = record {
    before = seen;
    word = f;
    after = [];
    split = refl;
    from_state = e;
    light = h;
  }

  Edge-Seen :
      {s t : State}
      → Edge f s t
      → (run_steps i seen).state ≡ s
      → Seen i s seen
      → Seen i t (seen ++ f ∷ [])
  Edge-Seen (trusted h) e k = tt
  Edge-Seen (doubted h) e k = now_light e h
  Edge-Seen (recovered h) e k = later k
  Edge-Seen (worsened h) e k = (now_light e h, k)
  Edge-Seen (rescued h) e (w, d) = later (widen w.before (w.word ∷ w.after) w.split d)
  Edge-Seen (condemned h) e k = inl (now_light e h, k)
  Edge-Seen (promoted h) e k = tt
  Edge-Seen (lost h) e k = inr (now_light e h)
  Edge-Seen (waiting h l) e k = tt

  stable-Seen : {s : State} → IsStable s → Seen i s seen → Seen i s (seen ++ f ∷ [])
  stable-Seen stable_fundamental k = tt
  stable-Seen stable_settled k = later k
  stable-Seen stable_perfect k = k
  stable-Seen stable_dormant k = k
  stable-Seen stable_excised (inl (c, w)) = inl (later c, w)
  stable-Seen stable_excised (inr z) = inr (later z)

  Moves-Seen :
      {s t : State}
      → Moves f s t
      → (run_steps i seen).state ≡ s
      → Seen i s seen
      → Seen i t (seen ++ f ∷ [])
  Moves-Seen (inl m) e k = Edge-Seen m e k
  Moves-Seen (inr (st, same)) e k = subst (λ s. Seen i s (seen ++ f ∷ [])) same (stable-Seen st k)

run_steps-Seen :
    (i : Instance) (fs seen : List ℕ)
    → Seen i (run_steps i seen).state seen
    → Seen i (run_steps i (seen ++ fs)).state (seen ++ fs)
run_steps-Seen i [] seen h = rw append-nil h
run_steps-Seen i (f ∷ fs) seen h =
    let step : Seen i (run_steps i (seen ++ f ∷ [])).state (seen ++ f ∷ []) =
      rw run_steps-snoc (Moves-Seen i seen f (step-Moves (run_steps i seen) f) refl h) in
    subst (λ l. Seen i (run_steps i l).state l) (append_assoc seen (f ∷ []) fs)
      (run_steps-Seen i fs (seen ++ f ∷ []) step)

start-Seen :
    (pid target : ℕ)
    → Seen
        (schema_instance_init pid target)
        (run_steps (schema_instance_init pid target) []).state
        []
unfolding run_steps schema_instance_init
start-Seen pid target = tt

-- A service that the state machine excises had an F8 word that was too light while it was new, later
-- an F9 word that was too light in RECOVERY, and later still an F6 word that was too light in FRICTION;
-- or its word was zero while it was in FULL_TRUST.
pub excised_needs_failures :
    (pid target : ℕ) (fs : List ℕ)
    → (run_steps (schema_instance_init pid target) fs).state ≡ excised
    → Condemned (schema_instance_init pid target) fs ⊎ Lost (schema_instance_init pid target) fs
excised_needs_failures pid target fs e =
    rw e at (run_steps-Seen (schema_instance_init pid target) fs [] (start-Seen pid target))

-- Flag words alone never make a service dormant or perfect: those are the engine's decisions.
pub never_dormant :
    (pid target : ℕ) (fs : List ℕ)
    → ((run_steps (schema_instance_init pid target) fs).state ≢ dormant)
      × ((run_steps (schema_instance_init pid target) fs).state ≢ perfect)
never_dormant pid target fs =
    let k = run_steps-Seen (schema_instance_init pid target) fs [] (start-Seen pid target) in
    (λ e. rw e at k, λ e. rw e at k)
