-- ===== src/Bus/Signals.antt =====
-- Who gets a signal without destination: the connections that ask for it, within the room there is.
use schema_init.Prelude.{ℕ, ◌≡◌, ◌≢◌, true, List, Bytes}
use schema_init.Bus.Wire.{WireMsg}
use schema_init.Bus.Policy.{Policy}
use schema_init.Names.Registry.{Names}
use schema_init.Bus.Route.{Conn, takes_signal}

-- A connection that is not the sender and takes the signal.
abbrev pub TakesAs : Policy → WireMsg → Conn → List Bytes → ℕ → Conn → Type 0
TakesAs pol msg sender snames target rcpt =
    (rcpt.id ≡ target) × (target ≢ sender.id) × (takes_signal pol msg sender snames rcpt ≡ true)
