-- ===== src/Haven/Subscriber.antt =====
-- internal/haven/subscriber.go: the subscriptions to other relays. An event is dealt with before the
-- next one is looked at, and the clock stands still in that time; times are in nanoseconds. The
-- connections, the log messages and the metrics are left out.
use cloistr_relay.Prelude.{
  ℕ, ◌+◌, ◌-◌, ◌*◌, String, Bool, true, false, not, ◌||◌, Option, none, some, List, [], ◌∷◌,
  is_empty, ltb, if◌then◌else◌, string_eq, ◌==◌,
}
use cloistr_relay.Nostr.{Event}
use cloistr_relay.Haven.Types.{Config}
use cloistr_relay.Haven.Router.{Router, route_event}
use cloistr_relay.Haven.Importer.{is_imported_box}
pub mod Spacing

-- The counters of SubscriberStats.
pub record SubscriberStats : Type 0 where
  pub events_received : ℕ
  pub events_imported : ℕ
  pub events_skipped : ℕ
  pub reconnects : ℕ

-- An event that the store function has taken, and when.
pub record Taken : Type 0 where
  pub event : Event
  pub time : ℕ

-- The ids that were seen, with their times, the counters, and the events that the store function has
-- taken, the last one first.
pub record Subscriber : Type 0 where
  pub seen_events : String → Option ℕ
  pub stats : SubscriberStats
  pub stored : List Taken

-- The state of the connection to one relay.
pub record RelaySubscription : Type 0 where
  pub connected : Bool
  pub reconnect_at : ℕ
  pub backoff_secs : ℕ
  pub last_event : ℕ
  pub events_recv : ℕ
  pub errors : ℕ

unfoldable pub new_subscriber : Subscriber
new_subscriber = record {
  seen_events = λ id. none;
  stats = record { events_received = 0; events_imported = 0; events_skipped = 0; reconnects = 0 };
  stored = [];
}

-- Whether Start starts the connections.
unfoldable pub starts : Config → Bool → Bool
starts cfg has_store =
    if not cfg.importer_enabled || is_empty cfg.importer_relays
    then false
    else if not cfg.importer_realtime_enabled
    then false
    else has_store

unfoldable pub is_seen : Option ℕ → Bool
is_seen none = false
is_seen (some t) = true

unfoldable pub received : ℕ → RelaySubscription → RelaySubscription
received now rs = record rs { events_recv = rs.events_recv + 1; last_event = now }

unfoldable pub skip : Subscriber → Subscriber
skip s = record s { stats = record s.stats { events_skipped = s.stats.events_skipped + 1 } }

unfoldable pub count_event : Subscriber → Subscriber
count_event s = record s {
  stats = record s.stats { events_received = s.stats.events_received + 1 };
}

unfoldable pub import_event : ℕ → Event → Subscriber → Subscriber
import_event now e s = record s {
  seen_events = λ id. if id == e.id then some now else s.seen_events id;
  stats = record s.stats { events_imported = s.stats.events_imported + 1 };
  stored = (record { event = e; time = now }) ∷ s.stored;
}

-- processEvent, its part for the subscriber; `takes` is whether the store function succeeds.
unfoldable pub process_event : Router → ℕ → Bool → Event → Subscriber → Subscriber
unfolding is_seen skip count_event import_event
process_event r now takes e s =
    if is_seen (s.seen_events e.id)
    then skip (count_event s)
    else if e.pubkey == r.config.owner_pubkey
    then skip (count_event s)
    else if not (is_imported_box (route_event r e))
    then skip (count_event s)
    else if takes
    then import_event now e (count_event s)
    else count_event s

unfoldable pub one_hour : ℕ
one_hour = 3_600_000_000_000

unfoldable pub is_old : ℕ → Option ℕ → Bool
is_old cutoff none = false
is_old cutoff (some t) = ltb t cutoff

unfoldable pub cleanup_seen_events : ℕ → Subscriber → Subscriber
unfolding is_old one_hour
cleanup_seen_events now s = record s {
  seen_events = λ id. if is_old (now - one_hour) (s.seen_events id) then none else s.seen_events id;
}

-- scheduleReconnect
unfoldable pub backoff : ℕ → ℕ
backoff secs = if ltb 60 (secs * 2) then 60 else secs * 2

unfoldable pub schedule_reconnect :
    ℕ → RelaySubscription → Subscriber → RelaySubscription × Subscriber
unfolding backoff
schedule_reconnect now rs s = (
  record rs {
    backoff_secs = backoff rs.backoff_secs;
    reconnect_at = now + backoff rs.backoff_secs * 1_000_000_000;
  },
  record s { stats = record s.stats { reconnects = s.stats.reconnects + 1 } },
)

-- manageRelay after a connection that succeeds.
unfoldable pub connect : RelaySubscription → RelaySubscription
connect rs = record rs { backoff_secs = 1; connected = true }
