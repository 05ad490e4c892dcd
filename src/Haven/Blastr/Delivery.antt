-- ===== src/Haven/Blastr/Delivery.antt =====
-- internal/haven/blastr.go: a retry does not raise what was tried and what can still be tried.
use cloistr_relay.Prelude.{
  ℕ, ◌+◌, ◌≤◌, ◌≡◌, ◌≢◌, ap, String, true, Option, none, some, ◌∷◌, length, leb, arith, inl, inr,
  Bool-cases,
}
use cloistr_relay.Nostr.{Event}
use cloistr_relay.Haven.Types.{Config}
use cloistr_relay.Haven.Blastr.{
  RetryEntry, Codec, Blastr, RedisFate, EntryFate, requeue, remove_from_retry_queue, max_retries,
  after_publish, retry_event, retry_entry,
}
use cloistr_relay.Haven.Blastr.Waiting.{
  IsFaithful, HasMember, chances, waiting, zrem-waiting, zrem-chances, zrem-HasMember, put-waiting,
  put-tried, put-HasMember,
}

module _ {Raw Data : Type 0} (c : Codec Raw Data) (cfg : Config) where
  -- What was tried, and how often the entries of the queue can still be tried.
  unfoldable pub budget : Blastr Data → ℕ
  budget b = length b.tried + waiting c cfg b.retries

  after_publish-budget :
      IsFaithful c
      → (f : RedisFate) (err : Option String) (v : RetryEntry Raw) (b : Blastr Data)
      → budget (after_publish c cfg f err v b) + 1 ≤ budget b + chances c cfg (some v)
  unfolding after_publish requeue budget chances
  after_publish-budget faithful f none v b = ground arith
  after_publish-budget faithful f (some err) v b =
      let next : RetryEntry Raw = record v { attempts = v.attempts + 1; last_error = err } in
      let o = c.marshal next in
      ground (
        arith,
        put-waiting c cfg f next.attempts next o b (faithful next),
        ap length (put-tried c cfg f next.attempts o b),
      )

  retry_event-budget :
      IsFaithful c
      → (f : EntryFate) (o : Option Event) (v : RetryEntry Raw) (b : Blastr Data)
      → budget (retry_event c cfg f o v b) ≤ budget b + chances c cfg (some v)
  unfolding retry_event budget
  retry_event-budget faithful f none v b = omega arith
  retry_event-budget faithful f (some e) v b =
      let tried : Blastr Data = record b { tried = (v.relay_url, e) ∷ b.tried } in
      omega (arith, after_publish-budget faithful f.redis f.error v tried)

  pub entry-budget :
      IsFaithful c
      → (f : EntryFate) (d : Data) (o : Option (RetryEntry Raw)) (b : Blastr Data)
      → f.redis.removed ≡ true
      → c.unmarshal d ≡ o
      → HasMember d b.retries
      → budget (retry_entry c cfg f d o b) ≤ budget b
  unfolding retry_entry remove_from_retry_queue budget
  entry-budget faithful f d none b gone read h =
      rw gone (omega (arith, zrem-waiting c cfg d b.retries))
  entry-budget faithful f d (some v) b gone read h =
      let b' = remove_from_retry_queue c f.redis d b in
      let less : budget b' + chances c cfg (c.unmarshal d) ≤ budget b =
        rw gone (omega (arith, zrem-chances c cfg d b.retries h)) in
      omega (
        arith,
        retry_event-budget faithful f (c.unmarshal_event v.event) v b',
        less,
        ap (chances c cfg) read,
      )

  after_publish-HasMember :
      (f : RedisFate) (err : Option String) (v : RetryEntry Raw) (x : Data) (b : Blastr Data)
      → HasMember x b.retries
      → HasMember x ((after_publish c cfg f err v b).retries)
  unfolding after_publish requeue
  after_publish-HasMember f none v x b h = h
  after_publish-HasMember f (some err) v x b h =
      elim (Bool-cases (leb (max_retries cfg) (v.attempts + 1))) [
        | inl hit ↦ rw hit h
        | inr miss ↦ rw miss (put-HasMember c cfg f _ _ x b h)
      ]

  retry_event-HasMember :
      (f : EntryFate) (o : Option Event) (v : RetryEntry Raw) (x : Data) (b : Blastr Data)
      → HasMember x b.retries
      → HasMember x ((retry_event c cfg f o v b).retries)
  unfolding retry_event
  retry_event-HasMember f none v x b h = h
  retry_event-HasMember f (some e) v x b h = after_publish-HasMember f.redis f.error v x _ h

  remove-HasMember :
      (f : RedisFate) (d x : Data) (b : Blastr Data)
      → x ≢ d
      → HasMember x b.retries
      → HasMember x ((remove_from_retry_queue c f d b).retries)
  unfolding remove_from_retry_queue
  remove-HasMember f d x b differ h = elim (Bool-cases f.removed) [
    | inl hit ↦ rw hit (zrem-HasMember c cfg d x b.retries differ h)
    | inr miss ↦ rw miss h
  ]

  pub entry-HasMember :
      (f : EntryFate) (d x : Data) (o : Option (RetryEntry Raw)) (b : Blastr Data)
      → x ≢ d
      → HasMember x b.retries
      → HasMember x ((retry_entry c cfg f d o b).retries)
  unfolding retry_entry
  entry-HasMember f d x none b differ h = remove-HasMember f.redis d x b differ h
  entry-HasMember f d x (some v) b differ h =
      retry_event-HasMember f (c.unmarshal_event v.event) v x _
        (remove-HasMember f.redis d x b differ h)
