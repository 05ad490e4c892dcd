-- ===== src/Nostr.antt =====
-- The go-nostr types that the relay's handlers read, and the pair (reject, message) that a khatru
-- handler returns.
use cloistr_relay.Prelude.{ℕ, String, List, []}

abbrev pub Tag : Type 0
Tag = List String

-- nostr.Event. `created_at` is a Unix time in seconds.
pub record Event : Type 0 where
  pub id : String
  pub pubkey : String
  pub created_at : ℕ
  pub kind : ℕ
  pub tags : List Tag
  pub content : String

-- nostr.Filter, as far as the handlers read it. `p_tags`, `h_tags` and `d_tags` are the entries
-- `Tags["p"]`, `Tags["h"]` and `Tags["d"]`; a missing entry is the empty list.
pub record Filter : Type 0 where
  pub ids : List String
  pub kinds : List ℕ
  pub authors : List String
  pub p_tags : List String
  pub h_tags : List String
  pub d_tags : List String

-- A message: the text, or the format of `fmt.Sprintf`, with its arguments.
pub data Arg : Type 0 where
  num : ℕ → Arg
  str : String → Arg

pub data Message : Type 0 where
  msg : String → List Arg → Message

abbrev pub text : String → Message
text s = msg s []

-- The results `false, ""` and `true, msg` of a RejectEvent or RejectFilter handler.
pub data Verdict : Type 0 where
  accept : Verdict
  reject : Message → Verdict

-- What a read of a database returns: an error, no row, or the value.
pub data Fetched {ℓ} (A : Type ℓ) : Type ℓ where
  failed : Fetched A
  missing : Fetched A
  found : A → Fetched A
