-- ===== src/EventCache/Invariant.antt =====
-- What the event cache holds after a sequence of operations.
use cloistr_relay.Prelude.{
  ℕ, ◌≡◌, refl, String, Bool, true, false, ◌⊎◌, inl, inr, Option, none, some, List, [], ◌∷◌, All,
  In, Bool-cases, if◌then◌else◌,
}
use cloistr_relay.Nostr.{Event}
use cloistr_relay.Decimal.{pos, in_range}
use cloistr_relay.Redis.{Redis}
use cloistr_relay.EventCache.Cache.{
  Config, Codec, Outcome, event_key, pubkey_kind_key, get_ttl, set, set_encoded, set_index, get,
  delete, delete_index, invalidate,
}
use cloistr_relay.EventCache.Keys.{is_plain}

-- What is marshalled is read again.
abbrev pub IsFaithful : {Data : Type 0} → Codec Data → Type 0
IsFaithful {Data} c = (e : Event) (d : Data) → c.marshal e ≡ some d → c.unmarshal d ≡ some e

-- An operation on the cache, with the times of its commands.
pub data Op : Type 0 where
  set_of : (ℕ → ℕ) → Event → Op
  delete_of : (ℕ → ℕ) → String → Op
  invalidate_of : ℕ → String → ℕ → Op

-- The events that operations cache.
abbrev pub cached : List Op → List Event
cached [] = []
cached (set_of clock e ∷ ops) = e ∷ cached ops
cached (delete_of clock id ∷ ops) = cached ops
cached (invalidate_of now pubkey kind ∷ ops) = cached ops

-- A hexadecimal key, and a kind that Go's int64 holds.
abbrev pub IsPlain : String → ℕ → Type 0
IsPlain pubkey kind = (is_plain pubkey ≡ true) × (in_range (pos kind) ≡ true)

module _ {Data : Type 0} (redis : Redis Data) (c : Codec Data) (cfg : Config)
    (has_redis : Bool) where
  unfoldable pub step : Op → redis.Store → redis.Store
  step (set_of clock e) s = (set redis c cfg has_redis clock e s).1
  step (delete_of clock id) s = delete redis c cfg has_redis clock id s
  step (invalidate_of now pubkey kind) s = invalidate redis c cfg has_redis now pubkey kind s

  unfoldable pub run : List Op → redis.Store → redis.Store
  unfolding step
  run [] s = s
  run (op ∷ ops) s = run ops (step op s)

  -- The entry of a key is an event of the list, under one of its two keys.
  pub record Holds (es : List Event) (k : String) (d : Data) : Type 0 where
    pub event : Event
    pub reads : c.unmarshal d ≡ some event
    pub member : In event es
    pub place : (k ≡ event_key cfg event.id) ⊎ (k ≡ pubkey_kind_key cfg event.pubkey event.kind)

  abbrev pub IsSound : List Event → redis.Store → Type 0
  IsSound es s = (u : ℕ) (k : String) (d : Data) → redis.view s u k ≡ some d → Holds es k d

  set-IsSound :
      (es : List Event) (t ttl : ℕ) (k : String) (d : Data) (s : redis.Store)
      → Holds es k d
      → IsSound es s
      → IsSound es (redis.set t ttl k d s).1
  set-IsSound es t ttl k d s new old u j e h = elim (redis.set_lem t ttl k d s u j e h) [
    | inl p ↦ rw (p.0, p.1) new
    | inr q ↦ old u j e q
  ]

  del-IsSound :
      (es : List Event) (t : ℕ) (k : String) (s : redis.Store)
      → IsSound es s
      → IsSound es (redis.del t k s).1
  del-IsSound es t k s old u j e h = old u j e (redis.del_lem t k s u j e h)

  if-IsSound :
      (es : List Event) (b : Bool) (s t : redis.Store)
      → IsSound es s
      → IsSound es t
      → IsSound es (if b then s else t)
  if-IsSound es true s t p q = p
  if-IsSound es false s t p q = q

  ite-IsSound :
      (es : List Event) (b : Bool) (p q : Outcome × redis.Store)
      → IsSound es p.1
      → IsSound es q.1
      → IsSound es (if b then p else q).1
  ite-IsSound es true p q h k = h
  ite-IsSound es false p q h k = k

  set_index-IsSound :
      (es : List Event) (clock : ℕ → ℕ) (e : Event) (d : Data) (s : redis.Store)
      → c.unmarshal d ≡ some e
      → In e es
      → IsSound es s
      → IsSound es (set_index redis c cfg has_redis clock e d s)
  unfolding set_index
  set_index-IsSound es clock e d s reads i old =
      if-IsSound es _ _ s
        (set-IsSound es (clock 1) _ _ d s
          (record { event = e; reads = reads; member = i; place = inr refl }) old)
        old

  set_encoded-IsSound :
      (es : List Event) (clock : ℕ → ℕ) (e : Event) (o : Option Data) (s : redis.Store)
      → ((d : Data) → o ≡ some d → c.unmarshal d ≡ some e)
      → In e es
      → IsSound es s
      → IsSound es (set_encoded redis c cfg has_redis clock e o s).1
  unfolding set_encoded
  set_encoded-IsSound es clock e none s reads i old = old
  set_encoded-IsSound es clock e (some d) s reads i old =
      let entry : Holds es (event_key cfg e.id) d = record {
        event = e;
        reads = reads d refl;
        member = i;
        place = inl refl;
      } in
      let first =
        set-IsSound es (clock 0) (get_ttl cfg e.kind) (event_key cfg e.id) d s entry old in
      elim (Bool-cases (redis.set (clock 0) (get_ttl cfg e.kind) (event_key cfg e.id) d s).0) [
        | inl hit ↦ rw hit (set_index-IsSound es clock e d _ (reads d refl) i first)
        | inr miss ↦ rw miss first
      ]

  delete_index-IsSound :
      (es : List Event) (clock : ℕ → ℕ) (id : String) (o : Option Event) (s : redis.Store)
      → IsSound es s
      → IsSound es (delete_index redis c cfg has_redis clock id o s)
  unfolding delete_index
  delete_index-IsSound es clock id none s old = old
  delete_index-IsSound es clock id (some e) s old =
      if-IsSound es _ _ s (del-IsSound es (clock 3) _ s old) old

  step-IsSound :
      IsFaithful c
      → (es : List Event) (op : Op) (s : redis.Store) → All (λ e. In e es) (cached (op ∷ []))
      → IsSound es s
      → IsSound es (step op s)
  unfolding step set delete invalidate
  step-IsSound faithful es (set_of clock e) s h old =
      ite-IsSound es _ _ _ old
        (set_encoded-IsSound es clock e (c.marshal e) s (λ d m. faithful e d m) h.0 old)
  step-IsSound faithful es (delete_of clock id) s h old = if-IsSound es _ s _ old (
      delete_index-IsSound es clock id (get redis c cfg has_redis (clock 0) id s) _
        (del-IsSound es (clock 1) (event_key cfg id) s old))
  step-IsSound faithful es (invalidate_of now pubkey kind) s h old =
      if-IsSound es _ s _ old (if-IsSound es _ _ s (del-IsSound es now _ s old) old)

  pub run-IsSound :
      IsFaithful c
      → (es : List Event) (ops : List Op) (s : redis.Store) → All (λ e. In e es) (cached ops)
      → IsSound es s
      → IsSound es (run ops s)
  unfolding run
  run-IsSound faithful es [] s h old = old
  run-IsSound faithful es (set_of clock e ∷ ops) s h old =
      run-IsSound faithful es ops _ h.1 (step-IsSound faithful es (set_of clock e) s (h.0, tt) old)
  run-IsSound faithful es (delete_of clock id ∷ ops) s h old =
      run-IsSound faithful es ops _ h (step-IsSound faithful es (delete_of clock id) s tt old)
  run-IsSound faithful es (invalidate_of now p k ∷ ops) s h old =
      run-IsSound faithful es ops _ h (step-IsSound faithful es (invalidate_of now p k) s tt old)
