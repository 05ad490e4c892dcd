-- ===== src/Examples/Keeping.antt =====
-- A Redis in memory, and the event cache and the sessions on it (internal/eventcache,
-- internal/session).
use cloistr_relay.Prelude.{
  ℕ, ◌+◌, ◌≡◌, refl, sym, contains, String, true, ◌⊎◌, inl, inr, Option, none, some, List, [], ◌∷◌,
  map, All, In, arith, Bool-cases, if◌then◌else◌, eq_iff, string_eq, ◌==◌, ltb,
}
use cloistr_relay.Nostr.{Event, Fetched, missing, found}
use cloistr_relay.Redis.{Redis}
use cloistr_relay.EventCache.Cache
use cloistr_relay.EventCache.Keys.{is_plain}
use cloistr_relay.EventCache.Invariant
use cloistr_relay.EventCache.Invariant.{cached, set_of, delete_of}
use cloistr_relay.EventCache.Sound.{Matches, by_author, answers, run-answers}
use cloistr_relay.Session.Store
use cloistr_relay.Session.Proper
use cloistr_relay.Session.Store.{State, Config, Codec, Moment, get, delete}
use cloistr_relay.Session.Proper.{IsProper, all_grants, create_of, authenticate_of, subscribe_of}
use cloistr_relay.Session.Authenticated.{run, deleted-IsProper}

-- Entries with the time at which they expire.
abbrev Entries : Type 0 → Type 0
Entries Data = String → Option (Data × ℕ)

abbrev alive : {Data : Type 0} → ℕ → Option (Data × ℕ) → Option Data
alive u none = none
alive u (some (d, end)) = if ltb u end then some d else none

abbrev answer_of : {Data : Type 0} → Option Data → Fetched Data
answer_of none = missing
answer_of (some d) = found d

abbrev put_entry : {Data : Type 0} → String → Option (Data × ℕ) → Entries Data → Entries Data
put_entry k o s j = if j == k then o else s j

answer_of-found : {Data : Type 0} (o : Option Data) (d : Data) → answer_of o ≡ found d → o ≡ some d
answer_of-found none d h = cc
answer_of-found (some e) d h = cc

module _ {Data : Type 0} where
  put_set :
      (t ttl : ℕ) (k : String) (d : Data) (s : Entries Data) (u : ℕ) (j : String) (e : Data)
      → alive u (put_entry k (some (d, t + ttl)) s j) ≡ some e
      → (j ≡ k) × (e ≡ d) ⊎ (alive u (s j) ≡ some e)
  put_set t ttl k d s u j e h = elim (Bool-cases (j == k)) [
    | inl same ↦
        let kept : (if ltb u (t + ttl) then some d else none) ≡ some e = rw same at h in
        elim (Bool-cases (ltb u (t + ttl))) [
          | inl lives ↦
              let q : some d ≡ some e = rw lives at kept in inl ((eq_iff j k).0 same, cc q)
          | inr dead ↦ let q : ◌≡◌ {A = Option Data} none (some e) = rw dead at kept in cc q
        ]
    | inr other ↦ inr (rw other at h)
  ]

  put_del :
      (k : String) (s : Entries Data) (u : ℕ) (j : String) (e : Data)
      → alive u (put_entry k none s j) ≡ some e
      → alive u (s j) ≡ some e
  put_del k s u j e h = elim (Bool-cases (j == k)) [
    | inl same ↦ let q : ◌≡◌ {A = Option Data} none (some e) = rw same at h in cc q
    | inr other ↦ rw other at h
  ]

  put_gone : (k : String) (s : Entries Data) (u : ℕ) → alive u (put_entry k none s k) ≡ none
  put_gone k s u = rw ((eq_iff k k).1 refl)

  mget_all :
      (t : ℕ) (ks : List String) (s : Entries Data) (ds : List (Option Data))
      → some (map (λ k. alive t (s k)) ks) ≡ some ds
      → ds ≡ map (λ k. alive t (s k)) ks
  mget_all t ks s ds h = cc

  abbrev memory : Redis Data
  memory = record {
    Store = Entries Data;
    view = λ s u k. alive u (s k);
    get = λ t k s. answer_of (alive t (s k));
    mget = λ t ks s. some (map (λ k. alive t (s k)) ks);
    set = λ t ttl k d s. (true, put_entry k (some (d, t + ttl)) s);
    del = λ t k s. (true, put_entry k none s);
    get_found = λ t k s d h. answer_of-found (alive t (s k)) d h;
    mget_lem = λ t ks s ds h. mget_all t ks s ds h;
    set_lem = λ t ttl k d s u j e h. put_set t ttl k d s u j e h;
    del_lem = λ t k s u j e h. put_del k s u j e h;
    del_done = λ t k s u h late. put_gone k s u;
  }

abbrev profile : Event
profile = record { id = "01"; pubkey = "a1"; created_at = 5; kind = 0; tags = []; content = "{}" }

plain_a1 : is_plain "a1" ≡ true
unfolding is_plain
plain_a1 = refl

abbrev cache_codec : Cache.Codec Event
cache_codec = record { marshal = λ e. some e; unmarshal = λ e. some e }

abbrev cache_cfg : Cache.Config
cache_cfg = record {
  enabled = true;
  default_ttl = 5;
  profile_ttl = 15;
  contacts_ttl = 10;
  key_prefix = "event:";
  max_cache_size = 0;
}

abbrev cache_ops : List Invariant.Op
cache_ops = set_of (λ i. i) profile ∷ delete_of (λ i. 3 + i) "02" ∷ []

run-answers_example :
    All
      (λ e. Matches (by_author 9 "a1" 0) e × In e (cached cache_ops))
      (answers memory cache_codec cache_cfg true
        (by_author 9 "a1" 0)
        (Invariant.run memory cache_codec cache_cfg true cache_ops (λ k. none)))
run-answers_example =
    run-answers memory cache_codec cache_cfg true cache_ops (by_author 9 "a1" 0) (λ k. none)
      (λ e d h. sym h) (λ u k. refl) ((plain_a1, refl), tt) (plain_a1, refl)

abbrev codec : Codec State
codec = record { marshal = λ st. some st; unmarshal = λ st. some st }

abbrev cfg : Config
cfg = record { enabled = true; session_ttl = 100; key_prefix = "session:" }

abbrev then_at : ℕ → Moment
then_at t = record { read_at = t; write_at = t; unix = t }

abbrev ops : List Proper.Op
ops =
    create_of (then_at 8) "s1" "10.0.0.1"
    ∷ authenticate_of (then_at 9) "s1" "a1"
    ∷ subscribe_of (then_at 10) "s1" "feed"
    ∷ []

abbrev left : State
left = record {
  session_id = "s1";
  auth_pubkey = "a1";
  authed_at = 9;
  connected_at = 8;
  remote_ip = "10.0.0.1";
  subscriptions = "feed" ∷ [];
  last_activity = 10;
}

read :
    get memory codec cfg true 11 "s1"
      (run memory codec cfg true ops (delete memory codec cfg true (then_at 7) "s1" (λ k. none)))
    ≡ some left
unfolding get run delete Store.key Store.add_subscription Store.set_auth_pubkey Store.subscribed
    contains Store.authenticated Store.create Store.fresh
read = refl

deleted-IsProper_example : IsProper "s1" (all_grants "s1" ops) left
deleted-IsProper_example =
    deleted-IsProper memory codec cfg true (then_at 7) "s1" ops (λ k. none) 11 left
      (λ st d h. sym h) refl (omega arith, (omega arith, (omega arith, tt))) (omega arith) read
