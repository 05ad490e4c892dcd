-- ===== src/Session/Store.antt =====
-- internal/session/session.go: sessions in Redis. Redis and the JSON codec are parameters; `has_redis`
-- is whether there is a client. A `Moment` has the time of the commands of an operation and the Unix
-- time in seconds. The state that Create returns is `fresh`. The log messages, and the listings of
-- keys (KEYS and SCAN), are left out.
use Prim.Native.String.{◌++◌ as append}
use cloistr_relay.Prelude.{
  ℕ, ◌==◌, string_eq, String, Bool, true, not, ◌||◌, Option, none, some, List, [], ◌∷◌, ◌++◌,
  select, contains, if◌then◌else◌,
}
use cloistr_relay.Nostr.{Fetched, failed, missing, found}
use cloistr_relay.Redis.{Redis}

pub record State : Type 0 where
  pub session_id : String
  pub auth_pubkey : String
  pub authed_at : ℕ
  pub connected_at : ℕ
  pub remote_ip : String
  pub subscriptions : List String
  pub last_activity : ℕ

-- SessionTTL is in nanoseconds.
pub record Config : Type 0 where
  pub enabled : Bool
  pub session_ttl : ℕ
  pub key_prefix : String

unfoldable pub default_config : Config
default_config = record { enabled = true; session_ttl = 1_800_000_000_000; key_prefix = "session:" }

-- json.Marshal and json.Unmarshal at a State.
pub record Codec (Data : Type 0) : Type 0 where
  pub marshal : State → Option Data
  pub unmarshal : Data → Option State

pub record Moment : Type 0 where
  pub read_at : ℕ
  pub write_at : ℕ
  pub unix : ℕ

-- The results `nil` and an error.
pub data Outcome : Type 0 where
  ok : Outcome
  marshal_error : Outcome

unfoldable pub key : Config → String → String
key cfg id = append cfg.key_prefix id

-- The state that Create starts with.
unfoldable pub fresh : ℕ → String → String → State
fresh now id ip = record {
  session_id = id;
  auth_pubkey = "";
  authed_at = 0;
  connected_at = now;
  remote_ip = ip;
  subscriptions = [];
  last_activity = now;
}

-- What SetAuthPubkey writes: into the state that was read, or into a new one.
unfoldable pub authenticated : ℕ → String → String → Option State → State
authenticated now id pubkey none = record {
  session_id = id;
  auth_pubkey = pubkey;
  authed_at = now;
  connected_at = now;
  remote_ip = "";
  subscriptions = [];
  last_activity = now;
}
authenticated now id pubkey (some st) = record st {
  auth_pubkey = pubkey;
  authed_at = now;
  last_activity = now;
}

unfoldable pub subscribed : ℕ → String → State → Option State
subscribed now sub st =
    if contains st.subscriptions sub
    then none
    else some (record st { subscriptions = st.subscriptions ++ sub ∷ []; last_activity = now })

unfoldable pub unsubscribed : ℕ → String → State → Option State
unsubscribed now sub st = some (record st {
  subscriptions = select (λ x. not (x == sub)) st.subscriptions;
  last_activity = now;
})

unfoldable pub touched : ℕ → State → Option State
touched now st = some (record st { last_activity = now })

unfoldable pub pubkey_of : Option State → String
pubkey_of none = ""
pubkey_of (some st) = st.auth_pubkey

module _ {Data : Type 0} (redis : Redis Data) (c : Codec Data) (cfg : Config)
    (has_redis : Bool) where
  unfoldable pub is_off : Bool
  is_off = not has_redis || not cfg.enabled

  unfoldable pub put_encoded : ℕ → String → Option Data → redis.Store → Outcome × redis.Store
  put_encoded t id none s = (marshal_error, s)
  put_encoded t id (some d) s = (ok, (redis.set t cfg.session_ttl (key cfg id) d s).1)

  -- json.Marshal and SET; an error of SET is only logged.
  unfoldable pub put : ℕ → String → State → redis.Store → Outcome × redis.Store
  unfolding put_encoded
  put t id st s = put_encoded t id (c.marshal st) s

  unfoldable pub create : Moment → String → String → redis.Store → Outcome × redis.Store
  unfolding is_off put
  create m id ip s = if is_off then (ok, s) else put m.write_at id (fresh m.unix id ip) s

  unfoldable pub decode : Fetched Data → Option State
  decode failed = none
  decode missing = none
  decode (found d) = c.unmarshal d

  unfoldable pub get : ℕ → String → redis.Store → Option State
  unfolding is_off decode
  get t id s = if is_off then none else decode (redis.get t (key cfg id) s)

  unfoldable pub set_auth_pubkey : Moment → String → String → redis.Store → Outcome × redis.Store
  unfolding is_off get put
  set_auth_pubkey m id pubkey s =
      if is_off
      then (ok, s)
      else put m.write_at id (authenticated m.unix id pubkey (get m.read_at id s)) s

  unfoldable pub get_auth_pubkey : ℕ → String → redis.Store → String
  unfolding get
  get_auth_pubkey t id s = pubkey_of (get t id s)

  unfoldable pub is_authenticated : ℕ → String → redis.Store → Bool
  unfolding get
  is_authenticated t id s = not (pubkey_of (get t id s) == "")

  unfoldable pub write_back : ℕ → String → Option State → redis.Store → Outcome × redis.Store
  unfolding put
  write_back t id none s = (ok, s)
  write_back t id (some st) s = put t id st s

  unfoldable pub change_read :
      Moment → String → (State → Option State) → Option State → redis.Store → Outcome × redis.Store
  unfolding write_back
  change_read m id f none s = (ok, s)
  change_read m id f (some st) s = write_back m.write_at id (f st) s

  -- The shape of AddSubscription, RemoveSubscription and Touch: read the state, return if there is
  -- none or nothing changes, and write the new state.
  unfoldable pub change :
      Moment → String → (State → Option State) → redis.Store → Outcome × redis.Store
  unfolding is_off get change_read
  change m id f s = if is_off then (ok, s) else change_read m id f (get m.read_at id s) s

  unfoldable pub add_subscription : Moment → String → String → redis.Store → Outcome × redis.Store
  unfolding change
  add_subscription m id sub s = change m id (subscribed m.unix sub) s

  unfoldable pub remove_subscription :
      Moment → String → String → redis.Store → Outcome × redis.Store
  unfolding change
  remove_subscription m id sub s = change m id (unsubscribed m.unix sub) s

  unfoldable pub touch : Moment → String → redis.Store → Outcome × redis.Store
  unfolding change
  touch m id s = change m id (touched m.unix) s

  unfoldable pub delete : Moment → String → redis.Store → redis.Store
  unfolding is_off
  delete m id s = if is_off then s else (redis.del m.write_at (key cfg id) s).1
