-- ===== src/Storage/Deleted.antt =====
-- Deleted events stay deleted.
use cloistr_relay.Prelude.{
  ℕ, ◌≤◌, ◌<◌, String, ◌≡◌, ◌≢◌, ◌↔◌, ◌⊎◌, Bool, true, false, List, [], ◌∷◌, string_eq, nat_eq,
  eq_iff, arith,
}
use cloistr_relay.Nostr.{Event, accept}
use cloistr_relay.Storage.Tombstone.{
  Table, record_tombstone, is_tombstoned, LookupError, is_conn_error, is_timeout, Context, alive,
  canceled, expired, classify_tombstone_error, Attempt, abandoned, errored, answered, Looked, says,
  fails, lookup_with_deadline, verdict_of, refuse, on_retry, on_first, is_retryable,
  reject_republished_deletion, reject_republished_deletion_event, Cause, client_gone, timeout,
  conn_error, other_cause,
}

-- A deletion that is recorded: whether the statement succeeds, the id, the kind and the time.
pub record Deletion : Type 0 where
  pub executed : Bool
  pub id : String
  pub kind : ℕ
  pub now : ℕ

unfoldable pub put : Deletion → Table → Table
put d table = record_tombstone d.executed d.id d.kind d.now table

unfoldable pub record_all : List Deletion → Table → Table
record_all [] table = table
record_all (d ∷ ds) table = record_all ds (put d table)

record-is_tombstoned :
    (d : Deletion) (table : Table) (id : String)
    → is_tombstoned table id ≡ true
    → is_tombstoned (put d table) id ≡ true
unfolding put record_tombstone is_tombstoned
record-is_tombstoned d table id h = ground (arith, h)

recorded-is_tombstoned :
    (d : Deletion) (table : Table) → d.executed ≡ true → is_tombstoned (put d table) d.id ≡ true
unfolding put record_tombstone is_tombstoned
recorded-is_tombstoned d table ran = ground (arith, ran, eq_iff d.id d.id)

record_all-is_tombstoned :
    (ds : List Deletion) (table : Table) (id : String)
    → is_tombstoned table id ≡ true
    → is_tombstoned (record_all ds table) id ≡ true
unfolding record_all
record_all-is_tombstoned [] table id h = h
record_all-is_tombstoned (d ∷ ds) table id h =
    record_all-is_tombstoned ds (put d table) id (record-is_tombstoned d table id h)

-- An attempt that fails in a way that is tried again: with the request alive, by a timeout or a
-- broken connection.
abbrev pub IsRetried : Attempt → Type 0
IsRetried (abandoned err ctx) =
    (ctx ≡ alive) × ((is_timeout err ≡ true) ⊎ (is_conn_error err ≡ true))
IsRetried (errored err ctx) = (ctx ≡ alive) × ((is_timeout err ≡ true) ⊎ (is_conn_error err ≡ true))
IsRetried answered = ⊥

refused : (cause : Cause) → refuse cause ≢ accept
unfolding refuse
refused cause h = ground (arith, h)

verdict_of-accept : (b : Bool) → (verdict_of b ≡ accept) ↔ (b ≡ false)
unfolding verdict_of
verdict_of-accept b = ground arith

on_retry-accept : (l : Looked) → (on_retry l ≡ accept) ↔ (l ≡ says false)
unfolding on_retry
on_retry-accept (says b) = ground (arith, verdict_of-accept b)
on_retry-accept (fails err ctx) = (λ h. absurd (refused _ h), λ e. absurd (ground (arith, e)))

-- A failure that is tried again.
abbrev IsRetryable : LookupError → Context → Type 0
IsRetryable err ctx = (ctx ≡ alive) × ((is_timeout err ≡ true) ⊎ (is_conn_error err ≡ true))

on_first_failed :
    (err : LookupError) (ctx : Context) (second : Looked)
    → (on_first (fails err ctx) second ≡ accept) ↔ IsRetryable err ctx × (second ≡ says false)
unfolding on_first is_retryable classify_tombstone_error
on_first_failed err alive second = ground (arith, on_retry-accept second, λ (c : Cause). refused c)
on_first_failed err canceled second = ground arith
on_first_failed err expired second =
    ground (arith, refused client_gone, refused timeout, refused conn_error, refused other_cause)

lookup_says :
    (table : Table) (id : String) (a : Attempt)
    → (lookup_with_deadline table id a ≡ says false)
      ↔ (a ≡ answered) × (is_tombstoned table id ≡ false)
unfolding lookup_with_deadline
lookup_says table id (abandoned err ctx) = ground arith
lookup_says table id (errored err ctx) = ground arith
lookup_says table id answered = ground arith

rejected-accept :
    (table later : Table) (first second : Attempt) (id : String)
    → (reject_republished_deletion table later first second id ≡ accept) ↔ (
        (first ≡ answered) × (is_tombstoned table id ≡ false)
        ⊎ IsRetried first × (second ≡ answered) × (is_tombstoned later id ≡ false))
unfolding reject_republished_deletion lookup_with_deadline
rejected-accept table later (abandoned err ctx) second id = ground (
  arith,
  on_first_failed err ctx (lookup_with_deadline later id second),
  lookup_says later id second,
)
rejected-accept table later (errored err ctx) second id = ground (
  arith,
  on_first_failed err ctx (lookup_with_deadline later id second),
  lookup_says later id second,
)
rejected-accept table later answered second id =
    ground (arith, verdict_of-accept (is_tombstoned table id))

-- An event is accepted exactly if it is ephemeral, or an attempt answered that it is not deleted:
-- the first one, or the second one after a failure of the first that is tried again.
pub reject_republished_deletion_event-accept :
    (table later : Table) (first second : Attempt) (e : Event)
    → (reject_republished_deletion_event table later first second e ≡ accept) ↔ (
        ((20000 ≤ e.kind) × (e.kind < 30000))
        ⊎ (first ≡ answered) × (is_tombstoned table e.id ≡ false)
        ⊎ IsRetried first × (second ≡ answered) × (is_tombstoned later e.id ≡ false))
unfolding reject_republished_deletion_event lookup_with_deadline classify_tombstone_error
    is_retryable refuse verdict_of
reject_republished_deletion_event-accept table later first second e =
    ground (arith, rejected-accept table later first second e.id)

-- Once an event's deletion is recorded, the event is refused for good, ephemeral ones aside:
-- whatever else is recorded before, between and after the attempts, and however they end.
pub deleted-refused :
    (d : Deletion) (since retried : List Deletion) (table : Table) (first second : Attempt)
    (e : Event)
    → d.executed ≡ true
    → e.id ≡ d.id
    → (e.kind < 20000) ⊎ (30000 ≤ e.kind)
    → let seen = record_all (d ∷ since) table in
      reject_republished_deletion_event seen (record_all retried seen) first second e ≢ accept
unfolding record_all
deleted-refused d since retried table first second e ran same stored h =
    let seen : Table = record_all (d ∷ since) table in
    let recorded = recorded-is_tombstoned d table ran in
    let first_sees = record_all-is_tombstoned since (put d table) d.id recorded in
    let second_sees = record_all-is_tombstoned retried seen d.id first_sees in
    let why =
      (reject_republished_deletion_event-accept seen (record_all retried seen) first second e).0
        h in
    ground (arith, why, rw (← same) at first_sees, rw (← same) at second_sees, stored)
