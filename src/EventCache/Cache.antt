-- ===== src/EventCache/Cache.antt =====
-- internal/eventcache/eventcache.go. Redis and the JSON codec are parameters; `has_redis` is whether
-- there is a client. `clock i` is the time of the i-th command of an operation. The log messages and
-- the statistics (SCAN) are left out.
use Prim.Native.String.{◌++◌ as append}
use cloistr_relay.Prelude.{
  ℕ, ◌+◌, ◌==◌, nat_eq, string_eq, String, Bool, true, false, not, ◌&&◌, ◌||◌, Option, none, some,
  List, [], ◌∷◌, map, leb, ltb, if◌then◌else◌,
}
use cloistr_relay.Nostr.{Event, Fetched, failed, missing, found}
use cloistr_relay.Decimal.{pos, itoa}
use cloistr_relay.Redis.{Redis}

-- Durations are in nanoseconds.
pub record Config : Type 0 where
  pub enabled : Bool
  pub default_ttl : ℕ
  pub profile_ttl : ℕ
  pub contacts_ttl : ℕ
  pub key_prefix : String
  pub max_cache_size : ℕ

unfoldable pub default_config : Config
default_config = record {
  enabled = true;
  default_ttl = 300_000_000_000;
  profile_ttl = 900_000_000_000;
  contacts_ttl = 600_000_000_000;
  key_prefix = "event:";
  max_cache_size = 100_000;
}

-- json.Marshal and json.Unmarshal at an event.
pub record Codec (Data : Type 0) : Type 0 where
  pub marshal : Event → Option Data
  pub unmarshal : Data → Option Event

unfoldable pub event_key : Config → String → String
event_key cfg id = append cfg.key_prefix (append "id:" id)

unfoldable pub pubkey_kind_key : Config → String → ℕ → String
pubkey_kind_key cfg pubkey kind =
    append cfg.key_prefix (append "pk:" (append pubkey (append ":" (itoa (pos kind)))))

unfoldable pub get_ttl : Config → ℕ → ℕ
get_ttl cfg kind =
    if kind == 0 then cfg.profile_ttl else if kind == 3 then cfg.contacts_ttl else cfg.default_ttl

unfoldable pub is_parameterized : ℕ → Bool
is_parameterized kind = leb 30000 kind && ltb kind 40000

unfoldable pub is_cacheable : ℕ → Bool
unfolding is_parameterized
is_cacheable kind = kind == 0 || kind == 3 || kind == 10002 || is_parameterized kind

unfoldable pub is_replaceable : ℕ → Bool
unfolding is_parameterized
is_replaceable kind =
    kind == 0 || kind == 3 || leb 10000 kind && ltb kind 20000 || is_parameterized kind

-- The results `nil` and an error.
pub data Outcome : Type 0 where
  ok : Outcome
  marshal_error : Outcome

unfoldable pub is_event : String → Option Event → Bool
is_event id none = false
is_event id (some e) = e.id == id

unfoldable pub prepend : Option Event → List Event → List Event
prepend none es = es
prepend (some e) es = e ∷ es

unfoldable pub count_ok : Outcome → ℕ → ℕ
count_ok ok n = n + 1
count_ok marshal_error n = n

module _ {Data : Type 0} (redis : Redis Data) (c : Codec Data) (cfg : Config)
    (has_redis : Bool) where
  is_off : Bool
  is_off = not has_redis || not cfg.enabled

  -- The second SET of Set, which indexes a replaceable event.
  unfoldable pub set_index : (ℕ → ℕ) → Event → Data → redis.Store → redis.Store
  set_index clock e d s =
      if is_replaceable e.kind
      then (redis.set (clock 1) (get_ttl cfg e.kind) (pubkey_kind_key cfg e.pubkey e.kind) d s).1
      else s

  unfoldable pub set_encoded : (ℕ → ℕ) → Event → Option Data → redis.Store → Outcome × redis.Store
  unfolding set_index
  set_encoded clock e none s = (marshal_error, s)
  set_encoded clock e (some d) s =
      let done = redis.set (clock 0) (get_ttl cfg e.kind) (event_key cfg e.id) d s in
      (ok, if done.0 then set_index clock e d done.1 else done.1)

  unfoldable pub set : (ℕ → ℕ) → Event → redis.Store → Outcome × redis.Store
  unfolding is_off set_encoded
  set clock e s = if is_off then (ok, s) else set_encoded clock e (c.marshal e) s

  -- What GET answers, read as an event: an error is a miss.
  unfoldable pub decode : Fetched Data → Option Event
  decode failed = none
  decode missing = none
  decode (found d) = c.unmarshal d

  unfoldable pub get : ℕ → String → redis.Store → Option Event
  unfolding is_off decode
  get now id s = if is_off then none else decode (redis.get now (event_key cfg id) s)

  unfoldable pub get_by_pubkey_kind : ℕ → String → ℕ → redis.Store → Option Event
  unfolding is_off decode
  get_by_pubkey_kind now pubkey kind s =
      if is_off
      then none
      else if not (is_replaceable kind)
      then none
      else decode (redis.get now (pubkey_kind_key cfg pubkey kind) s)

  unfoldable pub get_profile : ℕ → String → redis.Store → Option Event
  unfolding get_by_pubkey_kind
  get_profile now pubkey s = get_by_pubkey_kind now pubkey 0 s

  unfoldable pub get_contacts : ℕ → String → redis.Store → Option Event
  unfolding get_by_pubkey_kind
  get_contacts now pubkey s = get_by_pubkey_kind now pubkey 3 s

  -- The cleanup of the index after the event that GET answered is deleted.
  unfoldable pub delete_index : (ℕ → ℕ) → String → Option Event → redis.Store → redis.Store
  unfolding get_by_pubkey_kind is_event
  delete_index clock id none s = s
  delete_index clock id (some e) s =
      if is_replaceable e.kind && is_event id (get_by_pubkey_kind (clock 2) e.pubkey e.kind s)
      then (redis.del (clock 3) (pubkey_kind_key cfg e.pubkey e.kind) s).1
      else s

  unfoldable pub delete : (ℕ → ℕ) → String → redis.Store → redis.Store
  unfolding is_off get delete_index
  delete clock id s =
      if is_off
      then s
      else delete_index clock id (get (clock 0) id s) (redis.del (clock 1) (event_key cfg id) s).1

  -- MultiGet: missing and unreadable entries are left out.
  unfoldable pub decode_all : List (Option Data) → List Event
  unfolding prepend
  decode_all [] = []
  decode_all (none ∷ ds) = decode_all ds
  decode_all (some d ∷ ds) = prepend (c.unmarshal d) (decode_all ds)

  unfoldable pub decode_answer : Option (List (Option Data)) → List Event
  unfolding decode_all
  decode_answer none = []
  decode_answer (some ds) = decode_all ds

  unfoldable pub multi_get : ℕ → List String → redis.Store → List Event
  unfolding is_off decode_answer
  multi_get now [] s = []
  multi_get now (id ∷ ids) s =
      if is_off then [] else decode_answer (redis.mget now (map (event_key cfg) (id ∷ ids)) s)

  unfoldable pub invalidate : ℕ → String → ℕ → redis.Store → redis.Store
  unfolding is_off
  invalidate now pubkey kind s =
      if is_off
      then s
      else if is_replaceable kind
      then (redis.del now (pubkey_kind_key cfg pubkey kind) s).1
      else s

  -- WarmCache on the events that the channel gives: the commands of the i-th event are at
  -- `clock i`, and `cancelled i` is whether the context is done after it.
  unfoldable pub warm_from :
      (ℕ → ℕ → ℕ) → (ℕ → Bool) → ℕ → ℕ → List Event → redis.Store → ℕ × redis.Store
  unfolding set count_ok
  warm_from clock cancelled i n [] s = (n, s)
  warm_from clock cancelled i n (e ∷ events) s =
      let done =
        if is_cacheable e.kind
        then (count_ok (set (clock i) e s).0 n, (set (clock i) e s).1)
        else (n, s) in
      let rest = warm_from clock cancelled (i + 1) done.0 events done.1 in
      if cancelled i then done else rest

  unfoldable pub warm_cache : (ℕ → ℕ → ℕ) → (ℕ → Bool) → List Event → redis.Store → ℕ × redis.Store
  unfolding is_off warm_from
  warm_cache clock cancelled events s =
      if is_off then (0, s) else warm_from clock cancelled 0 0 events s
