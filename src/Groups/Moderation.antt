-- ===== src/Groups/Moderation.antt =====
-- What the events that the handler accepts and processes do to the groups.
use cloistr_relay.Prelude.{List, [], ◌∷◌, string_eq, nat_eq}
use cloistr_relay.Nostr.{Event}
use cloistr_relay.Groups.Store.{Store, Config, Sql}
use cloistr_relay.Groups.Saved.{Parsers, on_event_saved}

module _ (cfg : Config) (parsers : Parsers) where
  -- The events that are saved, in their order, each with what PostgreSQL, the clock and the random
  -- generator answer.
  unfoldable pub process_all : List (Sql × Event) → Store → Store
  process_all [] st = st
  process_all ((q, e) ∷ es) st = process_all es ((on_event_saved cfg parsers q e st).1)
