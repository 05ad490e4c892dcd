-- ===== src/WriteAhead/Queue.antt =====
-- internal/writeahead/writeahead.go: the queue in Redis, the writes to it and its drain to
-- PostgreSQL. What the services and the clock answer is a parameter of each step: a `WriteFate` for
-- a write, a `DrainFate` for a round of a drain. The JSON codec is a parameter of the module's
-- functions. An LPop that fails may have been carried out: then its entry is lost.
use cloistr_relay.Prelude.{
  ℕ, zero, suc, ◌+◌, ◌-◌, String, Bool, true, false, not, ◌&&◌, ◌||◌, Option, none, some, List, [],
  ◌∷◌, ◌++◌, length, ltb, if◌then◌else◌,
}
use cloistr_relay.Nostr.{Event}

-- Durations are in nanoseconds.
pub record Config : Type 0 where
  pub enabled : Bool
  pub queue_key : String
  pub drain_interval : ℕ
  pub batch_size : ℕ
  pub max_retries : ℕ
  pub retry_delay : ℕ
  pub event_ttl : ℕ

unfoldable pub default_config : Config
default_config = record {
  enabled = true;
  queue_key = "wal:events";
  drain_interval = 100_000_000;
  batch_size = 100;
  max_retries = 3;
  retry_delay = 1_000_000_000;
  event_ttl = 86_400_000_000_000;
}

pub record WalEvent : Type 0 where
  pub event : Event
  pub timestamp : ℕ
  pub retries : ℕ

-- json.Marshal and json.Unmarshal at WalEvent, and the bytes that a nil slice is sent as.
pub record Codec (Data : Type 0) : Type 0 where
  pub marshal : WalEvent → Option Data
  pub unmarshal : Data → Option WalEvent
  pub no_bytes : Data

-- The Redis list, the events that PostgreSQL has stored, oldest first, and the counters.
pub record Wal (Data : Type 0) : Type 0 where
  pub queue : List Data
  pub saved : List Event
  pub stats_written : ℕ
  pub stats_drained : ℕ
  pub stats_failed : ℕ

-- The clock at a write, whether RPush succeeds, and whether it is carried out if it does not; and
-- whether SaveEvent succeeds.
pub record WriteFate : Type 0 where
  pub now : ℕ
  pub pushed : Bool
  pub landed : Bool
  pub stored : Bool

-- Whether LPop answers, and whether it is carried out if it does not; the clock; and whether SaveEvent
-- and the RPush of a retry succeed.
pub record DrainFate : Type 0 where
  pub popped : Bool
  pub taken : Bool
  pub now : ℕ
  pub stored : Bool
  pub requeued : Bool

-- The results `nil` and an error.
pub data Outcome : Type 0 where
  ok : Outcome
  marshal_error : Outcome
  save_error : Outcome

module _ {Data : Type 0} where
  unfoldable pub save_event : Bool → Event → Wal Data → Bool × Wal Data
  save_event stored e w =
      if stored then (true, record w { saved = w.saved ++ e ∷ [] }) else (false, w)

  unfoldable pub save_directly : Bool → Event → Wal Data → Outcome × Wal Data
  unfolding save_event
  save_directly stored e w =
      if (save_event stored e w).0
      then (ok, (save_event stored e w).1)
      else (save_error, (save_event stored e w).1)

  unfoldable pub push : Data → Wal Data → Wal Data
  push d w = record w { queue = w.queue ++ d ∷ [] }

-- What follows a round: the next rounds, or the end of the loop.
unfoldable pub resume : {A B : Type 0} → (A → B) → Option A → B → B
resume next none end = end
resume next (some a) end = next a

-- An RPush that fails is carried out all the same.
abbrev pub is_doubled : WriteFate → Bool
is_doubled f = not f.pushed && f.landed

-- An LPop that fails is carried out all the same.
abbrev pub is_lost : DrainFate → Bool
is_lost f = not f.popped && f.taken

abbrev pub tail : {A : Type 0} → List A → List A
tail [] = []
tail (x ∷ xs) = xs

-- The state in which a round returns: an LPop that fails may have taken an entry.
unfoldable pub left_by : {Data : Type 0} → DrainFate → Wal Data → Wal Data
left_by f w = if is_lost f then record w { queue = tail w.queue } else w

module _ {Data : Type 0} (c : Codec Data) (cfg : Config) where
  unfoldable pub write_encoded : WriteFate → Event → Option Data → Wal Data → Outcome × Wal Data
  unfolding save_directly push
  write_encoded f e none w = (marshal_error, w)
  write_encoded f e (some d) w =
      if f.pushed
      then (ok, record (push d w) { stats_written = w.stats_written + 1 })
      else save_directly f.stored e (if f.landed then push d w else w)

  -- Write; the first argument is whether there is a Redis client.
  unfoldable pub write : Bool → WriteFate → Event → Wal Data → Outcome × Wal Data
  unfolding write_encoded save_directly
  write has_redis f e w =
      if not has_redis || not cfg.enabled
      then save_directly f.stored e w
      else write_encoded f e (c.marshal (record { event = e; timestamp = f.now; retries = 0 })) w

  unfoldable pub bytes_of : WalEvent → Data
  bytes_of v = elim (c.marshal v) [ none ↦ c.no_bytes | some d ↦ d ]

  unfoldable pub fail : Wal Data → Wal Data
  fail w = record w { stats_failed = w.stats_failed + 1 }

  unfoldable pub retry : DrainFate → WalEvent → Wal Data → Wal Data
  unfolding push bytes_of fail
  retry f v w =
      if ltb (v.retries + 1) cfg.max_retries
      then (if f.requeued then push (bytes_of (record v { retries = v.retries + 1 })) w else w)
      else fail w

  -- A round after Unmarshal: expiry, SaveEvent, retry.
  unfoldable pub settle : DrainFate → Option WalEvent → Wal Data → Wal Data
  unfolding save_event fail retry
  settle f none w = w
  settle f (some v) w =
      if ltb cfg.event_ttl (f.now - v.timestamp)
      then fail w
      else (if (save_event f.stored v.event w).0
          then record ((save_event f.stored v.event w).1) { stats_drained = w.stats_drained + 1 }
          else retry f v w)

  -- One round of drainBatch on the list; `none` is a return.
  unfoldable pub drain_round : DrainFate → List Data → Wal Data → Option (Wal Data)
  unfolding settle
  drain_round f [] w = none
  drain_round f (d ∷ rest) w =
      if f.popped then some (settle f (c.unmarshal d) (record w { queue = rest })) else none

  -- drainBatch with both services there; the list holds a fate for each of its BatchSize rounds.
  unfoldable pub drain_batch : List DrainFate → Wal Data → Wal Data
  unfolding drain_round resume left_by
  drain_batch [] w = w
  drain_batch (f ∷ fates) w = resume (drain_batch fates) (drain_round f w.queue w) (left_by f w)

  unfoldable pub settle_last : DrainFate → Option WalEvent → Wal Data → Wal Data
  unfolding save_event
  settle_last f none w = w
  settle_last f (some v) w = (save_event f.stored v.event w).1

  unfoldable pub drain_all_round : DrainFate → List Data → Wal Data → Option (Wal Data)
  unfolding settle_last
  drain_all_round f [] w = none
  drain_all_round f (d ∷ rest) w =
      if f.popped then some (settle_last f (c.unmarshal d) (record w { queue = rest })) else none

  -- The loop of drainAll on fuel, from round `i` on: `none` is a loop that has not ended.
  unfoldable pub drain_all : ℕ → (ℕ → DrainFate) → ℕ → Wal Data → Option (Wal Data)
  unfolding drain_all_round resume left_by
  drain_all zero fate i w = none
  drain_all (suc fuel) fate i w =
      resume (drain_all fuel fate (i + 1)) (drain_all_round (fate i) w.queue w)
        (some (left_by (fate i) w))

-- What QueueLength answers, and IsHealthy by it: `none` is an error of LLen.
unfoldable pub queue_length : {Data : Type 0} → Bool → Bool → Wal Data → Option ℕ
queue_length has_redis answered w =
    if not has_redis then some 0 else (if answered then some (length w.queue) else none)

unfoldable pub is_healthy : {Data : Type 0} → Bool → Bool → Wal Data → Bool
unfolding queue_length
is_healthy has_redis answered w = elim (queue_length has_redis answered w) [
  | none ↦ false
  | some n ↦ ltb n 10_000
]
