-- ===== src/Examples/Retrying.antt =====
-- A broadcast that one of two relays refuses, and a round of its retries (internal/haven/blastr.go).
use cloistr_relay.Prelude.{
  ℕ, ◌+◌, ◌*◌, ◌≤◌, ◌≡◌, refl, sym, ◌&&◌, ◌↔◌, Bool, true, some, List, [], ◌∷◌, length, string_eq,
  nat_eq, arith, leb, if◌then◌else◌, ◌==◌, All, Bool-cases, inl, inr, select,
}
use cloistr_relay.Nostr.{Event}
use cloistr_relay.Haven.Types.{Config, default_config}
use cloistr_relay.Haven.Blastr.{
  RetryEntry, Codec, Item, Blastr, RedisFate, EntryFate, Range, process_retry_queue,
  broadcast_event, retry_backoff,
}
use cloistr_relay.Haven.Blastr.Waiting.{IsFaithful, HasMember, IsDistinct}
use cloistr_relay.Haven.Blastr.Tries.{
  IsRange, Op, broadcast_of, round_of, run, run_op, failures, retry_limit, run-tried,
}

abbrev note : Event
note = record { id = "1"; pubkey = "alice"; created_at = 5; kind = 1; tags = []; content = "" }

-- Entries that are stored as they are, with an event in one byte.
abbrev Entry : Type 0
Entry = RetryEntry ℕ

abbrev same_entry : Entry → Entry → Bool
same_entry v w =
    (v.event_id == w.event_id)
    && (v.event == w.event)
    && (v.relay_url == w.relay_url)
    && (v.attempts == w.attempts)
    && (v.added_at == w.added_at)
    && (v.last_error == w.last_error)

same_entry_iff : (v w : Entry) → (same_entry v w ≡ true) ↔ (v ≡ w)
same_entry_iff v w = ground (
  arith,
  string_eq.same_iff v.event_id w.event_id,
  nat_eq.same_iff v.event w.event,
  string_eq.same_iff v.relay_url w.relay_url,
  nat_eq.same_iff v.attempts w.attempts,
  nat_eq.same_iff v.added_at w.added_at,
  string_eq.same_iff v.last_error w.last_error,
)

abbrev codec : Codec ℕ Entry
codec = record {
  marshal_event = λ e. some 0;
  unmarshal_event = λ e. some note;
  marshal = λ v. some v;
  unmarshal = λ v. some v;
  members = record { same = same_entry; same_iff = same_entry_iff };
}

codec-IsFaithful : IsFaithful codec
codec-IsFaithful v d e = sym e

-- The first item, if it is due.
abbrev due : ℕ → List (Item Entry) → List Entry
due now [] = []
due now (it ∷ items) = if leb it.score now then it.member ∷ [] else []

abbrev range : Range Entry
range now n items = some (due now items)

due-IsRange :
    (now : ℕ) (items : List (Item Entry))
    → All (λ d. HasMember d items) (due now items) × IsDistinct (due now items)
due-IsRange now [] = (tt, tt)
due-IsRange now (it ∷ items) = elim (Bool-cases (leb it.score now)) [
  | inl hit ↦ rw hit ((inl refl, tt), (tt, tt))
  | inr miss ↦ rw miss (tt, tt)
]

range-IsRange : IsRange range
range-IsRange now n items ds e =
    let same : due now items ≡ ds = cc e in rw (← same) (due-IsRange now items)

abbrev cfg : Config
cfg = record default_config { blastr_retry_enabled = true }

abbrev answers : RedisFate
answers = record { now = 7_000_000_000; added = true; removed = true }

abbrev refused : EntryFate
refused = record { redis = answers; error = some "closed" }

abbrev ops : List Op
ops =
    broadcast_of ("wss://a" ∷ []) ((answers, "wss://b") ∷ []) note ∷ round_of 40 (λ i. refused) ∷ []

abbrev fresh_state : Blastr Entry
fresh_state = record {
  retries = [];
  event_queue = [];
  tried = [];
  events_broadcast = 0;
  events_failed = 0;
  events_retried = 0;
  retries_exhausted = 0;
}

run-tried_example :
    length (run codec cfg range ops fresh_state).tried
    ≤ length fresh_state.tried + retry_limit cfg * failures ops
run-tried_example =
    run-tried codec cfg range codec-IsFaithful range-IsRange ops fresh_state (tt, ((λ i. refl), tt))
      refl

tries : length (run codec cfg range ops fresh_state).tried ≡ 1
unfolding run run_op process_retry_queue broadcast_event select retry_backoff
tries = refl
