-- ===== src/Haven/Importer.antt =====
-- internal/haven/importer.go: the polls of other relays for events that are addressed to the owner.
-- The code polls all relays at once; what is modelled is the poll of a relay while no other poll runs.
-- What a relay, the store function and the clock answer in a poll is its fate. The pool of
-- connections, the metrics, the log messages, the ticker and ForcePoll are left out; times are Unix
-- times.
use cloistr_relay.Prelude.{
  ℕ, zero, ◌+◌, ◌-◌, String, Bool, true, false, not, ◌||◌, Option, none, some, List, [], ◌∷◌, ◌++◌,
  length, is_empty, ltb, if◌then◌else◌, contains, string_eq, ◌==◌,
}
use cloistr_relay.Nostr.{Event}
use cloistr_relay.Haven.Types.{Box, unknown, private, chat, inbox, outbox, Config}
use cloistr_relay.Haven.Router.{Router, route_event}
pub mod Imports
pub mod Lost

-- The counters of ImporterStats.
pub record ImporterStats : Type 0 where
  pub events_imported : ℕ
  pub events_skipped : ℕ
  pub fetch_errors : ℕ
  pub relays_polled : ℕ

-- The sets and the counters of an Importer, and the events that the store function has taken. A
-- relay that was never fetched from is not in `last_fetch`.
pub record Importer : Type 0 where
  pub seen_events : List String
  pub last_fetch : String → Option ℕ
  pub stats : ImporterStats
  pub stored : List Event

unfoldable pub new_importer : Importer
new_importer = record {
  seen_events = [];
  last_fetch = λ url. none;
  stats = record { events_imported = 0; events_skipped = 0; fetch_errors = 0; relays_polled = 0 };
  stored = [];
}

-- What a poll of a relay meets: whether it connects, the clock before and after, what the query
-- answers for its `Since`, and whether the store function takes the i-th event of the answer.
pub record PollFate : Type 0 where
  pub connects : Bool
  pub started : ℕ
  pub answer : ℕ → Option (List Event)
  pub takes : ℕ → Bool
  pub ended : ℕ

unfoldable pub is_imported_box : Box → Bool
is_imported_box unknown = false
is_imported_box private = false
is_imported_box chat = true
is_imported_box inbox = true
is_imported_box outbox = false

-- Whether Start starts the worker.
unfoldable pub starts : Config → Bool → Bool
starts cfg has_store =
    if not cfg.importer_enabled || is_empty cfg.importer_relays then false else has_store

-- The store function has taken the event.
unfoldable pub remember : Event → Importer → Importer
remember e imp = record imp {
  seen_events = imp.seen_events ++ e.id ∷ [];
  stored = imp.stored ++ e ∷ [];
}

-- The router is NewRouter's for the importer's configuration.
module _ (r : Router) where
  unfoldable pub is_skipped : List String → Event → Bool
  unfolding is_imported_box
  is_skipped seen e =
      contains seen e.id
      || e.pubkey == r.config.owner_pubkey
      || not (is_imported_box (route_event r e))

  -- The loop of pollRelay over the events of an answer, from the i-th on, with its two counts.
  unfoldable pub import_events : (ℕ → Bool) → ℕ → List Event → Importer → ℕ → ℕ → Importer × ℕ × ℕ
  unfolding is_skipped remember
  import_events takes i [] imp imported skipped = (imp, imported, skipped)
  import_events takes i (e ∷ es) imp imported skipped =
      let skip = import_events takes (i + 1) es imp imported (skipped + 1) in
      let fail = import_events takes (i + 1) es imp imported skipped in
      let take = import_events takes (i + 1) es (remember e imp) (imported + 1) skipped in
      if is_skipped imp.seen_events e then skip else if takes i then take else fail

  unfoldable pub fetch_error : Importer → Importer
  fetch_error imp = record imp {
    stats = record imp.stats { fetch_errors = imp.stats.fetch_errors + 1 };
  }

  unfoldable pub since_of : ℕ → Option ℕ → ℕ
  since_of now none = now - 86_400
  since_of now (some t) = t

  -- After the loop.
  unfoldable pub close_poll : String → ℕ → Importer × ℕ × ℕ → Importer
  close_poll url now (imp, imported, skipped) = record imp {
    last_fetch = λ u. if u == url then some now else imp.last_fetch u;
    stats = record imp.stats {
      events_imported = imp.stats.events_imported + imported;
      events_skipped = imp.stats.events_skipped + skipped;
    };
  }

  unfoldable pub take_answer : String → PollFate → Option (List Event) → Importer → Importer
  unfolding import_events fetch_error close_poll
  take_answer url f none imp = fetch_error imp
  take_answer url f (some es) imp = close_poll url f.ended (import_events f.takes 0 es imp 0 0)

  unfoldable pub poll_relay : String → PollFate → Importer → Importer
  unfolding fetch_error since_of take_answer
  poll_relay url f imp =
      if f.connects
      then take_answer url f (f.answer (since_of f.started (imp.last_fetch url))) imp
      else fetch_error imp

  unfoldable pub cleanup_seen_events : Importer → Importer
  cleanup_seen_events imp =
      if ltb 1000 (length imp.seen_events) then record imp { seen_events = [] } else imp

  -- pollAllRelays of an importer with one relay: then no other poll runs at the same time.
  unfoldable pub poll_only_relay : String → PollFate → Importer → Importer
  unfolding poll_relay cleanup_seen_events
  poll_only_relay url f imp =
      let done = cleanup_seen_events (poll_relay url f imp) in
      record done { stats = record done.stats { relays_polled = 1 } }
