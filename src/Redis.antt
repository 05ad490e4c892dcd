-- ===== src/Redis.antt =====
-- The commands GET, MGET, SET with an expiry and DEL of Redis, which internal/eventcache and
-- internal/session call: a parameter of those parts, with the documented behaviour as its laws. A
-- command that answers with an error may have been carried out or not.
use cloistr_relay.Prelude.{ℕ, ◌≤◌, ◌≡◌, ◌⊎◌, String, Bool, true, Option, none, some, List, map}
use cloistr_relay.Nostr.{Fetched, found}

pub record Redis (Data : Type 0) : Type 1 where
  pub Store : Type 0
  -- What a key holds at a time, if nothing is written until then.
  pub view : Store → ℕ → String → Option Data
  -- The commands, each at the time that is its first argument. SET has the expiry before the key;
  -- `true` is an answer without an error.
  pub get : ℕ → String → Store → Fetched Data
  pub mget : ℕ → List String → Store → Option (List (Option Data))
  pub set : ℕ → ℕ → String → Data → Store → Bool × Store
  pub del : ℕ → String → Store → Bool × Store
  pub get_found :
      (t : ℕ) (k : String) (s : Store) (d : Data) → get t k s ≡ found d → view s t k ≡ some d
  pub mget_lem :
      (t : ℕ) (ks : List String) (s : Store) (ds : List (Option Data))
      → mget t ks s ≡ some ds
      → ds ≡ map (view s t) ks
  pub set_lem :
      (t ttl : ℕ) (k : String) (d : Data) (s : Store) (u : ℕ) (j : String) (e : Data)
      → view (set t ttl k d s).1 u j ≡ some e
      → (j ≡ k) × (e ≡ d) ⊎ (view s u j ≡ some e)
  pub del_lem :
      (t : ℕ) (k : String) (s : Store) (u : ℕ) (j : String) (e : Data)
      → view (del t k s).1 u j ≡ some e
      → view s u j ≡ some e
  pub del_done :
      (t : ℕ) (k : String) (s : Store) (u : ℕ)
      → (del t k s).0 ≡ true
      → t ≤ u
      → view (del t k s).1 u k ≡ none
