-- ===== src/WriteAhead/Shutdown.antt =====
-- The drain at a shutdown ends.
use cloistr_relay.Prelude.{ℕ, ◌+◌, Option, none, some, List, [], ◌∷◌, ◌++◌, if◌then◌else◌}
use cloistr_relay.Nostr.{Event}
use cloistr_relay.WriteAhead.Queue.{Config, WalEvent, Codec, DrainFate}

module _ {Data : Type 0} (c : Codec Data) (cfg : Config) (fate : ℕ → DrainFate) where
  -- The event of an entry, if it can be read and PostgreSQL takes it in round `i`.
  stored_of : ℕ → Option WalEvent → List Event
  stored_of i none = []
  stored_of i (some v) = if (fate i).stored then v.event ∷ [] else []

  unfoldable pub stored_from : ℕ → List Data → List Event
  unfolding stored_of
  stored_from i [] = []
  stored_from i (d ∷ ds) = stored_of i (c.unmarshal d) ++ stored_from (i + 1) ds
