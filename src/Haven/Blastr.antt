-- ===== src/Haven/Blastr.antt =====
-- internal/haven/blastr.go: the broadcast of outbox events to other relays and the queue of retries,
-- a sorted set in Redis. The JSON codecs, ZRANGEBYSCORE and the relays are parameters. What they and
-- the clock answer at a step is the step's fate. A round of the worker runs without another step
-- between its entries.
use cloistr_relay.Prelude.{
  ℕ, zero, suc, ◌+◌, ◌-◌, ◌*◌, ◌/◌, ◌%◌, ◌^◌, ◌≡◌, String, Bool, true, false, not, ◌||◌, ◌&&◌,
  Option, none, some, List, [], ◌∷◌, ◌++◌, map, length, is_empty, ltb, leb, if◌then◌else◌, select,
  Comparable, ◌==◌,
}
use cloistr_relay.Nostr.{Event}
use cloistr_relay.Haven.Types.{Box, unknown, private, chat, inbox, outbox, Config}
use cloistr_relay.Haven.Router.{Router, route_event}
pub mod Waiting
pub mod Delivery
pub mod Tries

pub record RetryEntry (Raw : Type 0) : Type 0 where
  pub event_id : String
  pub event : Raw
  pub relay_url : String
  pub attempts : ℕ
  pub added_at : ℕ
  pub last_error : String

-- json.Marshal and json.Unmarshal at an event and at a RetryEntry, with the comparison of members.
pub record Codec (Raw Data : Type 0) : Type 0 where
  pub marshal_event : Event → Option Raw
  pub unmarshal_event : Raw → Option Event
  pub marshal : RetryEntry Raw → Option Data
  pub unmarshal : Data → Option (RetryEntry Raw)
  pub members : Comparable Data

-- An item of the sorted set.
pub record Item (Data : Type 0) : Type 0 where
  pub score : ℕ
  pub member : Data

-- The sorted set, the queue of events to broadcast, the counters, and the publications that retries
-- have tried, with their relays.
pub record Blastr (Data : Type 0) : Type 0 where
  pub retries : List (Item Data)
  pub event_queue : List Event
  pub tried : List (String × Event)
  pub events_broadcast : ℕ
  pub events_failed : ℕ
  pub events_retried : ℕ
  pub retries_exhausted : ℕ

-- Signed 64-bit seconds in two's complement: only a positive value above the limit is cut.
unfoldable pub capped : ℕ → ℕ
capped seconds = if ltb 960 seconds && ltb seconds (2 ^ 63) then 960 else seconds

-- The delay in nanoseconds.
unfoldable pub retry_backoff : ℕ → ℕ
unfolding capped
retry_backoff zero = capped 30 * 1_000_000_000
retry_backoff (suc k) = capped (30 * 2 ^ k % 2 ^ 64) * 1_000_000_000 % 2 ^ 64

unfoldable pub is_outbox : Box → Bool
is_outbox unknown = false
is_outbox private = false
is_outbox chat = false
is_outbox inbox = false
is_outbox outbox = true

-- Broadcast; the channel holds 100 events.
module _ (r : Router) (cfg : Config) {Data : Type 0} where
  unfoldable pub broadcast : Event → Blastr Data → Blastr Data
  broadcast e b =
      if not cfg.blastr_enabled || not (is_outbox (route_event r e))
      then b
      else if ltb (length b.event_queue) 100
      then record b { event_queue = b.event_queue ++ e ∷ [] }
      else record b { events_failed = b.events_failed + 1 }

-- The clock in nanoseconds, and whether ZADD and ZREM succeed.
pub record RedisFate : Type 0 where
  pub now : ℕ
  pub added : Bool
  pub removed : Bool

-- What a retry meets: the fates, and the error of the publication, if any.
pub record EntryFate : Type 0 where
  pub redis : RedisFate
  pub error : Option String

-- ZRANGEBYSCORE with its bound and its count; `none` is an error.
abbrev pub Range : Type 0 → Type 0
Range Data = ℕ → ℕ → List (Item Data) → Option (List Data)

unfoldable pub max_retries : Config → ℕ
max_retries cfg = if leb cfg.blastr_max_retries 0 then 6 else cfg.blastr_max_retries

module _ {Raw Data : Type 0} (c : Codec Raw Data) where
  -- ZREM and ZADD: a member is in the set once, with its last score.
  unfoldable pub zrem : Data → List (Item Data) → List (Item Data)
  zrem d items = select (λ it. not (c.members.same it.member d)) items

  unfoldable pub zadd : ℕ → Data → List (Item Data) → List (Item Data)
  unfolding zrem
  zadd score d items = zrem d items ++ (record { score = score; member = d }) ∷ []

  unfoldable pub put : RedisFate → ℕ → Option Data → Blastr Data → Blastr Data
  unfolding zadd
  put f attempts none b = b
  put f attempts (some d) b =
      if f.added
      then record b {
        retries = zadd ((f.now + retry_backoff attempts) / 1_000_000_000) d b.retries;
      }
      else b

  unfoldable pub requeue : RedisFate → RetryEntry Raw → Blastr Data → Blastr Data
  unfolding put
  requeue f v b = put f v.attempts (c.marshal v) b

  unfoldable pub queue_encoded :
      RedisFate → Event → String → String → Option Raw → Blastr Data → Blastr Data
  unfolding put
  queue_encoded f e url err none b = b
  queue_encoded f e url err (some raw) b =
      put f 1
        (c.marshal (record {
          event_id = e.id;
          event = raw;
          relay_url = url;
          attempts = 1;
          added_at = f.now / 1_000_000_000;
          last_error = err;
        }))
        b

  unfoldable pub queue_for_retry : RedisFate → Event → String → String → Blastr Data → Blastr Data
  unfolding queue_encoded
  queue_for_retry f e url err b = queue_encoded f e url err (c.marshal_event e) b

  unfoldable pub remove_from_retry_queue : RedisFate → Data → Blastr Data → Blastr Data
  unfolding zrem
  remove_from_retry_queue f d b = if f.removed then record b { retries = zrem d b.retries } else b

  unfoldable pub queue_all : List (RedisFate × String) → Event → Blastr Data → Blastr Data
  unfolding queue_for_retry
  queue_all [] e b = b
  queue_all ((f, url) ∷ rest) e b =
      queue_all rest e (queue_for_retry f e url "initial broadcast failed" b)

  -- The counters after a broadcast with the relays that took the event and those that failed.
  unfoldable pub count_broadcast : Bool → Bool → Blastr Data → Blastr Data
  count_broadcast no_success no_failure b =
      if not no_success
      then record b { events_broadcast = b.events_broadcast + 1 }
      else if no_failure
      then record b { events_failed = b.events_failed + 1 }
      else b

  -- broadcastEvent: the relays that took the event, and those that failed in the order of their
  -- answers, each with the fate of its retry.
  unfoldable pub broadcast_event :
      Bool → Config → List String → List (RedisFate × String) → Event → Blastr Data → Blastr Data
  unfolding queue_all count_broadcast
  broadcast_event has_redis cfg taken failed e b =
      count_broadcast (is_empty taken) (is_empty failed)
        (if has_redis && cfg.blastr_retry_enabled then queue_all failed e b else b)

  unfoldable pub after_publish :
      Config → RedisFate → Option String → RetryEntry Raw → Blastr Data → Blastr Data
  unfolding requeue max_retries
  after_publish cfg f none v b = record b { events_retried = b.events_retried + 1 }
  after_publish cfg f (some err) v b =
      if leb (max_retries cfg) (v.attempts + 1)
      then record b { retries_exhausted = b.retries_exhausted + 1 }
      else requeue f (record v { attempts = v.attempts + 1; last_error = err }) b

  unfoldable pub retry_event :
      Config → EntryFate → Option Event → RetryEntry Raw → Blastr Data → Blastr Data
  unfolding after_publish
  retry_event cfg f none v b = b
  retry_event cfg f (some e) v b =
      after_publish cfg f.redis f.error v (record b { tried = (v.relay_url, e) ∷ b.tried })

  -- One turn of the loop, after Unmarshal.
  unfoldable pub retry_entry :
      Config → EntryFate → Data → Option (RetryEntry Raw) → Blastr Data → Blastr Data
  unfolding retry_event remove_from_retry_queue
  retry_entry cfg f d none b = remove_from_retry_queue f.redis d b
  retry_entry cfg f d (some v) b =
      retry_event cfg f (c.unmarshal_event v.event) v (remove_from_retry_queue f.redis d b)

  unfoldable pub retry_all : Config → List Data → (ℕ → EntryFate) → ℕ → Blastr Data → Blastr Data
  unfolding retry_entry
  retry_all cfg [] fate i b = b
  retry_all cfg (d ∷ ds) fate i b =
      retry_all cfg ds fate (i + 1) (retry_entry cfg (fate i) d (c.unmarshal d) b)

  unfoldable pub retry_fetched :
      Config → Option (List Data) → (ℕ → EntryFate) → Blastr Data → Blastr Data
  unfolding retry_all
  retry_fetched cfg none fate b = b
  retry_fetched cfg (some ds) fate b = retry_all cfg ds fate 0 b

  -- processRetryQueue at a time in seconds, with a Redis client.
  unfoldable pub process_retry_queue :
      Config → Range Data → ℕ → (ℕ → EntryFate) → Blastr Data → Blastr Data
  unfolding retry_fetched
  process_retry_queue cfg range now fate b = retry_fetched cfg (range now 50 b.retries) fate b
