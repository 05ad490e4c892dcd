-- ===== src/Management/Reload.antt =====
-- internal/management/access_cache.go: the reloads of the copies, by several goroutines of one
-- process at once, while this process and others write to the tables. Every query, every statement
-- and every lock is a step of its own.
use cloistr_relay.Prelude.{
  ℕ, String, Bool, Option, none, some, List, [], ◌∷◌, ◌==◌, string_eq, nat_eq, if◌then◌else◌,
}
use cloistr_relay.Management.Access.{AccessSets, Statement, execute}

-- How far a goroutine is in RefreshAccess: not in it, or holding the lock with what the queries that
-- it has made have read.
pub data Reload : Type 0 where
  idle : Reload
  locked : Reload
  read_pubkeys : (String → Bool) → Reload
  read_events : (String → Bool) → (String → Bool) → Reload
  read_exempt : (String → Bool) → (String → Bool) → (String → Bool) → Reload
  read_all : AccessSets → Reload

pub record State : Type 0 where
  pub tables : AccessSets
  pub access_snap : Option AccessSets
  pub refresh_mu : Option ℕ
  pub reloads : ℕ → Reload

-- A statement that PostgreSQL executes for any process, or a step of a goroutine in RefreshAccess: it
-- takes the lock; its next query answers; it stores the copies and returns; it returns with an error.
pub data Move : Type 0 where
  statement : Statement → Move
  lock query publish give_up : ℕ → Move

abbrev pub put : (ℕ → Reload) → ℕ → Reload → ℕ → Reload
put f i r j = if j == i then r else f j

-- The next of the four queries.
unfoldable pub next_query : AccessSets → Reload → Reload
next_query t idle = idle
next_query t locked = read_pubkeys t.banned_pubkeys
next_query t (read_pubkeys p) = read_events p t.banned_events
next_query t (read_events p e) = read_exempt p e t.exempt_pubkeys
next_query t (read_exempt p e x) = read_all (record {
  banned_pubkeys = p;
  banned_events = e;
  exempt_pubkeys = x;
  allowed_kinds = t.allowed_kinds;
})
next_query t (read_all a) = read_all a

unfoldable pub store_all : ℕ → Reload → State → State
store_all i (read_all a) s = record s {
  access_snap = some a;
  refresh_mu = none;
  reloads = put s.reloads i idle;
}
store_all i idle s = s
store_all i locked s = s
store_all i (read_pubkeys p) s = s
store_all i (read_events p e) s = s
store_all i (read_exempt p e x) s = s

unfoldable pub leave : ℕ → Reload → State → State
leave i idle s = s
leave i locked s = record s { refresh_mu = none; reloads = put s.reloads i idle }
leave i (read_pubkeys p) s = record s { refresh_mu = none; reloads = put s.reloads i idle }
leave i (read_events p e) s = record s { refresh_mu = none; reloads = put s.reloads i idle }
leave i (read_exempt p e x) s = record s { refresh_mu = none; reloads = put s.reloads i idle }
leave i (read_all a) s = s

unfoldable pub acquire : ℕ → Option ℕ → State → State
acquire i none s = record s { refresh_mu = some i; reloads = put s.reloads i locked }
acquire i (some j) s = s

-- A move that cannot be made now, such as to take a lock that is held, changes nothing.
unfoldable pub step : Move → State → State
unfolding next_query store_all leave acquire
step (statement w) s = record s { tables = execute w s.tables }
step (lock i) s = acquire i s.refresh_mu s
step (query i) s = record s { reloads = put s.reloads i (next_query s.tables (s.reloads i)) }
step (publish i) s = store_all i (s.reloads i) s
step (give_up i) s = leave i (s.reloads i) s

unfoldable pub run : List Move → State → State
unfolding step
run [] s = s
run (m ∷ ms) s = run ms (step m s)

-- The start of the process, with any tables.
unfoldable pub start : AccessSets → State
start t = record { tables = t; access_snap = none; refresh_mu = none; reloads = λ i. idle }
