-- ===== src/Storage/Tombstone.antt =====
-- internal/storage/tombstone.go: the ids of deleted events, and the check of new events against
-- them. The semaphore and the deadline of an attempt show in its outcome only.
use Prim.Native.String.{slice}
use cloistr_relay.Prelude.{
  ℕ, String, Bool, true, false, ◌&&◌, ◌||◌, Option, none, some, List, [], ◌∷◌, ◌==◌, string_eq,
  nat_eq, ltb, leb, if◌then◌else◌, contains,
}
use cloistr_relay.Nostr.{Event, str, msg, text, Verdict, accept, reject}

-- deleted_event: the rows by their ids.
pub record Tombstone : Type 0 where
  pub kind : ℕ
  pub deleted_at : ℕ

abbrev pub Table : Type 0
Table = String → Option Tombstone

abbrev kept : Option Tombstone → Tombstone → Tombstone
kept none t = t
kept (some old) t = old

-- INSERT … ON CONFLICT DO NOTHING; a statement that fails changes nothing.
unfoldable pub record_tombstone : Bool → String → ℕ → ℕ → Table → Table
record_tombstone executed id kind now table k =
    if executed && k == id
    then some (kept (table id) (record { kind = kind; deleted_at = now }))
    else table k

abbrev present : Option Tombstone → Bool
present none = false
present (some t) = true

unfoldable pub is_tombstoned : Table → String → Bool
is_tombstoned table id = present (table id)

-- The errors that the classification tells apart: a pq.Error by its SQLSTATE.
pub data LookupError : Type 0 where
  bad_conn eof unexpected_eof net_op_error deadline_exceeded other_error : LookupError
  pq_error : String → LookupError

unfoldable pub conn_error_sqlstates : List String
conn_error_sqlstates = "57P01" ∷ "57P02" ∷ "57P03" ∷ []

unfoldable pub is_conn_error : LookupError → Bool
is_conn_error bad_conn = true
is_conn_error eof = true
is_conn_error unexpected_eof = true
is_conn_error net_op_error = true
is_conn_error (pq_error code) = slice code 0 2 == "08" || contains conn_error_sqlstates code
is_conn_error deadline_exceeded = false
is_conn_error other_error = false

-- ctx.Err() of the request.
pub data Context : Type 0 where
  alive canceled expired : Context

pub data Cause : Type 0 where
  client_gone timeout conn_error other_cause : Cause

unfoldable pub name_of : Cause → String
name_of client_gone = "client_gone"
name_of timeout = "timeout"
name_of conn_error = "conn_error"
name_of other_cause = "other"

unfoldable pub is_timeout : LookupError → Bool
is_timeout deadline_exceeded = true
is_timeout (pq_error code) = code == "57014"
is_timeout bad_conn = false
is_timeout eof = false
is_timeout unexpected_eof = false
is_timeout net_op_error = false
is_timeout other_error = false

unfoldable pub classify_tombstone_error : Context → LookupError → Cause
unfolding is_timeout is_conn_error
classify_tombstone_error canceled err = client_gone
classify_tombstone_error alive err =
    if is_timeout err then timeout else if is_conn_error err then conn_error else other_cause
classify_tombstone_error expired err =
    if is_timeout err then timeout else if is_conn_error err then conn_error else other_cause

-- How an attempt ends: no slot or no answer by its deadline or before the request ends, an error of
-- the lookup, or the answer of the lookup. With each failure comes ctx.Err() of the request then.
pub data Attempt : Type 0 where
  abandoned : LookupError → Context → Attempt
  errored : LookupError → Context → Attempt
  answered : Attempt

pub data Looked : Type 0 where
  says : Bool → Looked
  fails : LookupError → Context → Looked

unfoldable pub lookup_with_deadline : Table → String → Attempt → Looked
lookup_with_deadline table id (abandoned err ctx) = fails err ctx
lookup_with_deadline table id (errored err ctx) = fails err ctx
lookup_with_deadline table id answered = says (is_tombstoned table id)

unfoldable pub verdict_of : Bool → Verdict
verdict_of deleted =
    if deleted then reject (text "blocked: this event was deleted from this relay") else accept

unfoldable pub refuse : Cause → Verdict
unfolding name_of
refuse cause =
    reject (msg "error: could not check deletion status (%s), refusing" (str (name_of cause) ∷ []))

-- The second attempt, and the last one.
unfoldable pub on_retry : Looked → Verdict
unfolding verdict_of refuse
on_retry (says deleted) = verdict_of deleted
on_retry (fails err ctx) = refuse (classify_tombstone_error ctx err)

unfoldable pub is_retryable : Context → Cause → Bool
is_retryable alive timeout = true
is_retryable alive conn_error = true
is_retryable alive client_gone = false
is_retryable alive other_cause = false
is_retryable canceled cause = false
is_retryable expired cause = false

abbrev pub gone : Cause → Bool
gone client_gone = true
gone timeout = false
gone conn_error = false
gone other_cause = false

unfoldable pub on_first : Looked → Looked → Verdict
unfolding verdict_of refuse on_retry is_retryable
on_first (says deleted) second = verdict_of deleted
on_first (fails err ctx) second =
    let cause = classify_tombstone_error ctx err in
    if gone cause
    then reject (text "client-gone: deletion check interrupted by client disconnect")
    else if is_retryable ctx cause
    then on_retry second
    else refuse cause

-- The attempts see the tables of their times.
unfoldable pub reject_republished_deletion : Table → Table → Attempt → Attempt → String → Verdict
unfolding lookup_with_deadline on_first
reject_republished_deletion table later first second id =
    on_first (lookup_with_deadline table id first) (lookup_with_deadline later id second)

abbrev is_ephemeral_kind : ℕ → Bool
is_ephemeral_kind kind = leb 20000 kind && ltb kind 30000

unfoldable pub reject_republished_deletion_event :
    Table → Table → Attempt → Attempt → Event → Verdict
unfolding reject_republished_deletion
reject_republished_deletion_event table later first second event =
    if is_ephemeral_kind event.kind
    then accept
    else reject_republished_deletion table later first second event.id
