-- ===== src/Management/Access.antt =====
-- internal/management: the tables of bans, exemptions and allowed kinds (store.go), the copies of them
-- in memory (access_cache.go), and the handlers that ask the copies (handler.go). A set of kinds is
-- a list, since it is tested for being empty.
use cloistr_relay.Prelude.{
  ℕ, String, Bool, true, false, not, ◌||◌, Option, none, some, List, [], ◌∷◌, ◌==◌, string_eq,
  nat_eq, contains, is_empty, select, if◌then◌else◌,
}
use cloistr_relay.Nostr.{Event, text, Verdict, accept, reject}

-- The rows of the four tables by their keys; also the type of the copies.
pub record AccessSets : Type 0 where
  pub banned_pubkeys : String → Bool
  pub banned_events : String → Bool
  pub exempt_pubkeys : String → Bool
  pub allowed_kinds : List ℕ

unfoldable pub empty_access : AccessSets
empty_access = record {
  banned_pubkeys = λ p. false;
  banned_events = λ id. false;
  exempt_pubkeys = λ p. false;
  allowed_kinds = [];
}

-- The copies, if some were loaded.
unfoldable pub access : Option AccessSets → AccessSets
unfolding empty_access
access none = empty_access
access (some a) = a

unfoldable pub is_pubkey_banned : Option AccessSets → String → Bool
is_pubkey_banned snap pubkey = (access snap).banned_pubkeys pubkey

unfoldable pub is_event_banned : Option AccessSets → String → Bool
is_event_banned snap id = (access snap).banned_events id

unfoldable pub is_rate_limit_exempt : Option AccessSets → String → Bool
is_rate_limit_exempt snap pubkey = (access snap).exempt_pubkeys pubkey

unfoldable pub is_kind_allowed : Option AccessSets → ℕ → Bool
is_kind_allowed snap kind =
    is_empty (access snap).allowed_kinds || contains (access snap).allowed_kinds kind

unfoldable pub reject_banned_pubkey : Option AccessSets → Event → Verdict
reject_banned_pubkey snap event =
    if is_pubkey_banned snap event.pubkey then reject (text "blocked: pubkey banned") else accept

unfoldable pub reject_banned_event : Option AccessSets → Event → Verdict
reject_banned_event snap event =
    if is_event_banned snap event.id then reject (text "blocked: event banned") else accept

unfoldable pub reject_disallowed_kind : Option AccessSets → Event → Verdict
reject_disallowed_kind snap event =
    if not (is_kind_allowed snap event.kind)
    then reject (text "blocked: event kind not allowed")
    else accept

-- The statements of the administrator, each of which runs or fails in PostgreSQL.
pub data Statement : Type 0 where
  ban_pubkey unban_pubkey ban_event unban_event exempt_pubkey remove_exemption : String → Statement
  allow_kind disallow_kind : ℕ → Statement

abbrev pub set : (String → Bool) → String → Bool → String → Bool
set f key b k = if k == key then b else f k

unfoldable pub execute : Statement → AccessSets → AccessSets
execute (ban_pubkey p) t = record t { banned_pubkeys = set t.banned_pubkeys p true }
execute (unban_pubkey p) t = record t { banned_pubkeys = set t.banned_pubkeys p false }
execute (ban_event id) t = record t { banned_events = set t.banned_events id true }
execute (unban_event id) t = record t { banned_events = set t.banned_events id false }
execute (exempt_pubkey p) t = record t { exempt_pubkeys = set t.exempt_pubkeys p true }
execute (remove_exemption p) t = record t { exempt_pubkeys = set t.exempt_pubkeys p false }
execute (allow_kind k) t =
    if contains t.allowed_kinds k then t else record t { allowed_kinds = k ∷ t.allowed_kinds }
execute (disallow_kind k) t = record t {
  allowed_kinds = select (λ j. not (j == k)) t.allowed_kinds;
}
