-- ===== src/Tests/Recording.antt =====
-- recorder_logic.h: two events in the ring, three arrows, a row of culprits and an episode.
use schema_init.Prelude.{
  ℕ, ◌≤◌, ◌≡◌, refl, true, false, some, List, [], ◌∷◌, arith, replicate, codes,
}
use schema_init.Recorder.Events.{
  pos, src_pid1, src_psi, src_session, Event, Arrow, Shm, newest, rec_ring, tier_live,
  rec_ring_push,
}
use schema_init.Recorder.Ring.{pushed, IsBlank, pushed-newest}
use schema_init.Recorder.Arrows.{rec_arrow_shade, rec_arrow_beats, beats_shaded}
use schema_init.Recorder.Culprits.{Culprit, TabFits, rec_culprit_count, rec_culprit_count-TabFits}
use schema_init.Recorder.Episodes.{Proc}

abbrev event : ℕ → Event
event t = record {
  ts = t;
  src = src_pid1;
  tier = 0;
  crit = false;
  pid = pos 7;
  rc = pos 0;
  kind = codes "died";
  boot = [];
  comm = codes "camera";
  subj = codes "camera";
  msg = [];
}

abbrev hidden : Arrow
hidden = record {
  state = 0;
  tier = 0;
  src = src_psi;
  event_ts = 0;
  resolved_ts = 0;
  recurrence = 0;
  line = [];
}

abbrev blank : Shm
blank = record { seq = 0; arrow = hidden; head = 0; count = 0; ring = replicate rec_ring (event 0) }

abbrev blank-IsBlank : IsBlank blank
blank-IsBlank = record { no_head = refl; no_count = refl; room = refl }

pushed-newest_example : newest (pushed blank (event 2 ∷ event 1 ∷ [])) 1 ≡ some (event 1)
pushed-newest_example =
    pushed-newest blank (event 2 ∷ event 1 ∷ []) 1 blank-IsBlank (omega arith) (omega arith)

two_pushed : (pushed blank (event 2 ∷ event 1 ∷ [])).count ≡ 2
unfolding rec_ring_push
two_pushed = refl

abbrev live : ℕ → Arrow
live t = record hidden { state = 1; tier = tier_live; src = src_session; event_ts = t }

later_beats : rec_arrow_beats (live 5) (live 3) 100 ≡ true
unfolding rec_arrow_beats beats_shaded rec_arrow_shade
later_beats = refl

shown_beats : rec_arrow_beats (live 3) hidden 100 ≡ true
unfolding rec_arrow_beats beats_shaded rec_arrow_shade
shown_beats = refl

abbrev culprits : List Culprit
culprits = record { key = codes "camera"; ts = 5 ∷ 900000 ∷ [] } ∷ []

rec_culprit_count-TabFits_example :
    (tab : List Culprit) × (n : ℕ) × (rec_culprit_count culprits 1 (codes "mic") 900001 900002
      ≡ some (tab, n))
    × TabFits 1 tab
    × (n ≤ 32)
rec_culprit_count-TabFits_example =
    rec_culprit_count-TabFits culprits 1 (codes "mic") 900001 900002 (omega arith)
      (record { rows = omega arith; times = (omega arith, tt) })

abbrev proc : ℕ → ℕ → Proc
proc pid ticks = record { pid = pos pid; comm = codes "cc"; ticks = ticks }
