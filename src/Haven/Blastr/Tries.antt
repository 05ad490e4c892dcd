-- ===== src/Haven/Blastr/Tries.antt =====
-- internal/haven/blastr.go: how often retries try to publish, over any sequence of broadcasts and
-- rounds of the retry worker.
use cloistr_relay.Prelude.{
  ℕ, ◌+◌, ◌-◌, ◌*◌, ◌/◌, ◌≤◌, ◌≡◌, ◌≢◌, refl, ap, String, Bool, true, false, Option, none, some,
  List, [], ◌∷◌, length, All, ltb, is_empty, arith, if◌then◌else◌,
}
use cloistr_relay.Nostr.{Event}
use cloistr_relay.Haven.Types.{Config}
use cloistr_relay.Haven.Blastr.{
  RetryEntry, Codec, Item, Blastr, RedisFate, EntryFate, Range, queue_encoded, queue_for_retry,
  queue_all, count_broadcast, broadcast_event, max_retries, retry_entry, retry_all, retry_fetched,
  process_retry_queue,
}
use cloistr_relay.Haven.Blastr.Waiting.{
  IsFaithful, IsDistinct, HasMember, chances, waiting, put-waiting, put-tried,
}
use cloistr_relay.Haven.Blastr.Delivery.{budget, entry-budget, entry-HasMember}

-- ZRANGEBYSCORE answers members of the set, each once.
abbrev pub IsRange : {Data : Type 0} → Range Data → Type 0
IsRange range =
    (now n : ℕ) (items : List (Item _)) (ds : List _)
    → range now n items ≡ some ds
    → All (λ d. HasMember d items) ds × IsDistinct ds

-- The broadcast of an event, with the relays that took it and those that failed, and a round of the
-- retry worker at a time in seconds.
pub data Op : Type 0 where
  broadcast_of : List String → List (RedisFate × String) → Event → Op
  round_of : ℕ → (ℕ → EntryFate) → Op

-- Every ZREM succeeds.
abbrev pub IsRemoving : Op → Type 0
IsRemoving (broadcast_of taken failed e) = Unit
IsRemoving (round_of now fate) = (i : ℕ) → (fate i).redis.removed ≡ true

-- The publications that failed at first.
unfoldable pub failures : List Op → ℕ
failures [] = 0
failures (broadcast_of taken failed e ∷ ops) = length failed + failures ops
failures (round_of now fate ∷ ops) = failures ops

-- How often a failed publication is retried.
unfoldable pub retry_limit : Config → ℕ
retry_limit cfg = if ltb 2 (max_retries cfg) then max_retries cfg - 1 else 1

module _ {Raw Data : Type 0} (c : Codec Raw Data) (cfg : Config) (range : Range Data) where
  unfoldable pub run_op : Op → Blastr Data → Blastr Data
  run_op (broadcast_of taken failed e) b = broadcast_event c true cfg taken failed e b
  run_op (round_of now fate) b = process_retry_queue c cfg range now fate b

  unfoldable pub run : List Op → Blastr Data → Blastr Data
  run [] b = b
  run (op ∷ ops) b = run ops (run_op op b)

module _ {Raw Data : Type 0} (c : Codec Raw Data) (cfg : Config) where
  entry-All :
      (f : EntryFate) (d : Data) (o : Option (RetryEntry Raw)) (b : Blastr Data) (ds : List Data)
      → All (λ x. x ≢ d) ds
      → All (λ x. HasMember x b.retries) ds
      → All (λ x. HasMember x ((retry_entry c cfg f d o b).retries)) ds
  entry-All f d o b [] differ h = tt
  entry-All f d o b (x ∷ ds) differ h =
      (entry-HasMember c cfg f d x o b differ.0 h.0, entry-All f d o b ds differ.1 h.1)

  retry_all-budget :
      IsFaithful c
      → (ds : List Data) (fate : ℕ → EntryFate) (i : ℕ) (b : Blastr Data)
      → ((k : ℕ) → (fate k).redis.removed ≡ true)
      → All (λ d. HasMember d b.retries) ds
      → IsDistinct ds
      → budget c cfg (retry_all c cfg ds fate i b) ≤ budget c cfg b
  unfolding retry_all
  retry_all-budget faithful [] fate i b gone h distinct = omega arith
  retry_all-budget faithful (d ∷ ds) fate i b gone h distinct =
      let b' = retry_entry c cfg (fate i) d (c.unmarshal d) b in
      omega (
        arith,
        entry-budget c cfg faithful (fate i) d (c.unmarshal d) b (gone i) refl h.0,
        retry_all-budget faithful ds fate (i + 1) b' gone
            (entry-All (fate i) d (c.unmarshal d) b ds distinct.0 h.1) distinct.1,
      )

  fetched-budget :
      IsFaithful c
      → (o : Option (List Data)) (fate : ℕ → EntryFate) (b : Blastr Data)
      → ((k : ℕ) → (fate k).redis.removed ≡ true)
      → ((ds : List Data) → o ≡ some ds → All (λ d. HasMember d b.retries) ds × IsDistinct ds)
      → budget c cfg (retry_fetched c cfg o fate b) ≤ budget c cfg b
  unfolding retry_fetched
  fetched-budget faithful none fate b gone h = omega arith
  fetched-budget faithful (some ds) fate b gone h =
      retry_all-budget faithful ds fate 0 b gone (h ds refl).0 (h ds refl).1

  fresh-chances : (v : RetryEntry Raw) → v.attempts ≡ 1 → chances c cfg (some v) ≡ retry_limit cfg
  unfolding chances retry_limit
  fresh-chances v once = ground (arith, once)

  queue_encoded-budget :
      IsFaithful c
      → (f : RedisFate) (e : Event) (url err : String) (o : Option Raw) (b : Blastr Data)
      → budget c cfg (queue_encoded c f e url err o b) ≤ budget c cfg b + retry_limit cfg
  unfolding queue_encoded budget
  queue_encoded-budget faithful f e url err none b = omega arith
  queue_encoded-budget faithful f e url err (some raw) b =
      let v : RetryEntry Raw = record {
        event_id = e.id;
        event = raw;
        relay_url = url;
        attempts = 1;
        added_at = f.now / 1_000_000_000;
        last_error = err;
      } in
      ground (
        arith,
        put-waiting c cfg f 1 v (c.marshal v) b (faithful v),
        ap length (put-tried c cfg f 1 (c.marshal v) b),
        fresh-chances v refl,
      )

  queue_all-budget :
      IsFaithful c
      → (failed : List (RedisFate × String)) (e : Event) (b : Blastr Data)
      → budget c cfg (queue_all c failed e b) ≤ budget c cfg b + retry_limit cfg * length failed
  unfolding queue_all queue_for_retry
  queue_all-budget faithful [] e b = omega arith
  queue_all-budget faithful ((f, url) ∷ failed) e b =
      let b' = queue_for_retry c f e url "initial broadcast failed" b in
      omega (
        arith,
        queue_encoded-budget faithful f e url "initial broadcast failed" (c.marshal_event e) b,
        queue_all-budget faithful failed e b',
      )

  count_broadcast-budget :
      (s f : Bool) (b : Blastr Data) → budget c cfg (count_broadcast c s f b) ≡ budget c cfg b
  unfolding count_broadcast budget
  count_broadcast-budget s f b = ground arith

  queued-budget :
      IsFaithful c
      → (keep : Bool) (failed : List (RedisFate × String)) (e : Event) (b : Blastr Data)
      → budget c cfg (if keep then queue_all c failed e b else b)
        ≤ budget c cfg b + retry_limit cfg * length failed
  queued-budget faithful true failed e b = queue_all-budget faithful failed e b
  queued-budget faithful false failed e b = omega arith

  broadcast-budget :
      IsFaithful c
      → (taken : List String) (failed : List (RedisFate × String)) (e : Event) (b : Blastr Data)
      → budget c cfg (broadcast_event c true cfg taken failed e b)
        ≤ budget c cfg b + retry_limit cfg * length failed
  unfolding broadcast_event
  broadcast-budget faithful taken failed e b =
      let b' = if cfg.blastr_retry_enabled then queue_all c failed e b else b in
      let same = count_broadcast-budget (is_empty taken) (is_empty failed) b' in
      omega (arith, same, queued-budget faithful cfg.blastr_retry_enabled failed e b)

module _ {Raw Data : Type 0} (c : Codec Raw Data) (cfg : Config) (range : Range Data) where
  run-budget :
      IsFaithful c
      → IsRange range
      → (ops : List Op) (b : Blastr Data) → All IsRemoving ops
      → budget c cfg (run c cfg range ops b) ≤ budget c cfg b + retry_limit cfg * failures ops
  unfolding run run_op failures process_retry_queue
  run-budget faithful answers [] b gone = omega arith
  run-budget faithful answers (broadcast_of taken failed e ∷ ops) b gone = omega (
    arith,
    broadcast-budget c cfg faithful taken failed e b,
    run-budget faithful answers ops (broadcast_event c true cfg taken failed e b) gone.1,
  )
  run-budget faithful answers (round_of now fate ∷ ops) b gone = omega (
    arith,
    fetched-budget c cfg faithful (range now 50 b.retries) fate b gone.0
        (λ ds e. answers now 50 b.retries ds e),
    run-budget faithful answers ops (process_retry_queue c cfg range now fate b) gone.1,
  )

  -- Over any sequence of broadcasts and rounds of the retry worker that starts with an empty queue:
  -- if every ZREM succeeds, an entry is read as it was written and ZRANGEBYSCORE answers distinct
  -- members of the set, then retries try to publish at most `retry_limit` times for each publication
  -- that failed at first, whichever publications and ZADDs fail. That limit is one less than the
  -- maximum of retries, and 1 if that is less.
  pub run-tried :
      IsFaithful c
      → IsRange range
      → (ops : List Op) (b : Blastr Data) → All IsRemoving ops
      → b.retries ≡ []
      → length (run c cfg range ops b).tried ≤ length b.tried + retry_limit cfg * failures ops
  unfolding budget waiting
  run-tried faithful answers ops b gone empty =
      omega (arith, run-budget faithful answers ops b gone, ap (waiting c cfg) empty)
