-- ===== src/Tests/Keeping.antt =====
-- fdstore.h and pi_bootguard.h: one stored descriptor, and a saved boot state.
use schema_init.Prelude.{◌≡◌, refl, some, List, [], ◌∷◌, arith, codes, str_eq}
use schema_init.Store.{
  StoreEnt, fdstore_add, fdstore_count, refuses, fdstore_room, fdstore_valid_name, all_name_bytes,
}
use schema_init.Store.Limits.{Added, fdstore_add-limits}
use schema_init.Prelude.Decimal.{print_digits, print_decimal}
use schema_init.BootGuard.{known_good, BootState, pi_state_parse, pi_state_format}
use schema_init.BootGuard.RoundTrip.{pi_state_parse-pi_state_format}

abbrev stored : List StoreEnt
stored = record { svc = codes "db"; name = codes "stored"; fd = 9 } ∷ []

adds : fdstore_add (some 1024) [] (codes "db") 9 [] 2 ≡ some stored
unfolding fdstore_add refuses fdstore_room fdstore_valid_name all_name_bytes fdstore_count
adds = refl

fdstore_add-limits_example : Added (some 1024) [] (codes "db") (codes "web") 9 [] 2 stored
unfolding str_eq
fdstore_add-limits_example =
    fdstore_add-limits (some 1024) [] stored (codes "db") (codes "web") 9 [] 2 refl adds

abbrev second_try : BootState
second_try = record { attempts = 2; last_target = known_good }

formats : pi_state_format second_try 64 ≡ some (codes "attempts=2\nlast_target=known-good\n")
unfolding pi_state_format print_decimal print_digits
formats = refl

pi_state_parse-pi_state_format_example :
    pi_state_parse (some (codes "attempts=2\nlast_target=known-good\n")) ≡ second_try
pi_state_parse-pi_state_format_example =
    pi_state_parse-pi_state_format second_try 64 (codes "attempts=2\nlast_target=known-good\n")
      (omega arith) formats
