-- ===== src/ArbiterClaim/Store.antt =====
-- internal/arbiterclaim/store.go and handler.go. The table arbiter_claims is a function from the
-- task (its primary key) to the row; times are milliseconds of the database's clock. A query that
-- misses its deadline returns an error, and an INSERT may commit all the same.
use cloistr_relay.Prelude.{
  ℕ, ◌+◌, String, Bool, true, ◌&&◌, Option, none, some, ◌==◌, nat_eq, string_eq, [], ◌∷◌, ltb,
  if◌then◌else◌,
}
use cloistr_relay.Prelude.TextOrder.{text_lt}
use cloistr_relay.Nostr.{Event, msg, str, text, Verdict, accept, reject}
use cloistr_relay.ArbiterClaim.Claim.{Claim, is_claim, validate, Checked, malformed, well_formed}

pub record Row : Type 0 where
  pub event_id : String
  pub claimant : String
  pub claimed_at : ℕ

abbrev pub Table : Type 0
Table = String → Option Row

abbrev pub empty : Table
empty task = none

abbrev pub default_settle_window : ℕ
default_settle_window = 10000

-- NewStore
abbrev pub settle_window : ℕ → ℕ
settle_window given = if given == 0 then default_settle_window else given

-- What becomes of the two queries of one call.
pub data Insert : Type 0 where
  completed : Insert
  abandoned : Insert
  timed_out_committed : Insert

pub record Weather : Type 0 where
  pub insert : Insert
  pub holder_readable : Bool

abbrev pub fair : Weather
fair = record { insert = completed; holder_readable = true }

pub data Outcome : Type 0 where
  won : Outcome
  lost : String → Outcome
  store_error : Outcome

abbrev row_of : Claim → ℕ → Row
row_of c now = record { event_id = c.event_id; claimant = c.claimant; claimed_at = now }

-- INSERT … ON CONFLICT (task_id) DO UPDATE … WHERE … RETURNING event_id: whether the row is
-- written.
unfoldable pub displaces : ℕ → ℕ → Claim → Option Row → Bool
displaces settle now c none = true
displaces settle now c (some row) =
    text_lt c.event_id row.event_id && ltb now (row.claimed_at + settle)

unfoldable pub insert_claim : ℕ → ℕ → Claim → Table → Table
unfolding displaces
insert_claim settle now c t task =
    if task == c.task_id && displaces settle now c (t task) then some (row_of c now) else t task

-- Holder, and holderOf: "" if the task is unclaimed or the read fails.
unfoldable pub holder : Table → String → String
holder t task = elim (t task) [ none ↦ "" | some row ↦ row.event_id ]

unfoldable pub lost_to : String → Outcome
lost_to winner = if winner == "" then store_error else lost winner

unfoldable pub outcome : ℕ → ℕ → Weather → Claim → Table → Insert → Outcome
unfolding lost_to holder displaces
outcome settle now w c t abandoned = store_error
outcome settle now w c t timed_out_committed = store_error
outcome settle now w c t completed =
    if displaces settle now c (t c.task_id)
    then won
    else lost_to (if w.holder_readable then holder t c.task_id else "")

-- An INSERT that was abandoned before it committed leaves the table alone.
unfoldable pub table_after : ℕ → ℕ → Claim → Table → Insert → Table
table_after settle now c t abandoned = t
table_after settle now c t timed_out_committed = insert_claim settle now c t
table_after settle now c t completed = insert_claim settle now c t

unfoldable pub try_claim : ℕ → ℕ → Weather → Claim → Table → Outcome × Table
unfolding outcome
try_claim settle now w c t =
    (outcome settle now w c t w.insert, table_after settle now c t w.insert)

unfoldable pub answer : Claim → Outcome → Verdict
answer c won = accept
answer c (lost winner) =
    reject (msg "conflict: task %s already claimed by event %s" (str c.task_id ∷ str winner ∷ []))
answer c store_error = reject (text "error: claim store unavailable, retry")

unfoldable pub handle_checked : ℕ → ℕ → Weather → Table → Checked → Verdict × Table
unfolding answer
handle_checked settle now w t (malformed reason) =
    (reject (msg "invalid: malformed arbiter claim: %s" (str reason ∷ [])), t)
handle_checked settle now w t (well_formed c) =
    let (outcome, t') = try_claim settle now w c t in (answer c outcome, t')

-- The handler that RegisterHandlers installs.
unfoldable pub handle : ℕ → ℕ → Weather → Event → Table → Verdict × Table
handle settle now w event t =
    if is_claim event then handle_checked settle now w t (validate event) else (accept, t)
