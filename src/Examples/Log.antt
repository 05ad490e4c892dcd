-- ===== src/Examples/Log.antt =====
-- The write-ahead log with entries that are stored as they are, at two writes and a batch
-- (internal/writeahead).
use cloistr_relay.Prelude.{◌≡◌, refl, true, false, some, List, [], ◌∷◌, ◌++◌, arith}
use cloistr_relay.Nostr.{Event}
use cloistr_relay.WriteAhead.Queue.{Config, WalEvent, Codec, Wal, WriteFate, DrainFate}
use cloistr_relay.WriteAhead.Ops.{
  IsFaithful, Op, write_of, drain_of, run, log_of, writes_of, queued,
}
use cloistr_relay.WriteAhead.Refinement.{run-log}
use cloistr_relay.WriteAhead.Accounting.{IsBalanced, run-IsBalanced}
use cloistr_relay.WriteAhead.Recovery.{drains, run-recovers}

abbrev note : Event
note = record { id = "1"; pubkey = "alice"; created_at = 5; kind = 1; tags = []; content = "" }

abbrev codec : Codec WalEvent
codec = record {
  marshal = λ v. some v;
  unmarshal = λ v. some v;
  no_bytes = record { event = note; timestamp = 0; retries = 0 };
}

codec-IsFaithful : IsFaithful codec
codec-IsFaithful v = (v, refl, refl)

abbrev empty : Wal WalEvent
empty = record { queue = []; saved = []; stats_written = 0; stats_drained = 0; stats_failed = 0 }

abbrev pushes : WriteFate
pushes = record { now = 7; pushed = true; landed = false; stored = false }

abbrev works : DrainFate
works = record { popped = true; taken = false; now = 9; stored = true; requeued = true }

abbrev cfg : Config
cfg = record {
  enabled = true;
  queue_key = "wal:events";
  drain_interval = 1;
  batch_size = 2;
  max_retries = 3;
  retry_delay = 1;
  event_ttl = 100;
}

abbrev ops : List Op
ops = write_of pushes note ∷ write_of pushes note ∷ drain_of (works ∷ []) ∷ []

run-log_example : log_of codec (run codec cfg ops empty) ≡ log_of codec empty ++ writes_of ops
run-log_example =
    run-log codec cfg 7 codec-IsFaithful refl ops empty
      ((refl, omega arith), ((refl, omega arith), (((refl, refl, omega arith), tt), tt))) tt

run-IsBalanced_example : IsBalanced codec cfg (run codec cfg ops empty)
run-IsBalanced_example =
    run-IsBalanced codec cfg codec-IsFaithful ops empty (refl, (refl, (((refl, refl), tt), tt)))
      (record { readable = tt; balance = refl })

abbrev two : List WalEvent
two =
    (record { event = note; timestamp = 7; retries = 0 })
    ∷ (record { event = note; timestamp = 8; retries = 0 })
    ∷ []

abbrev waiting : Wal WalEvent
waiting = record empty { queue = two }

run-recovers_example :
    ((run codec cfg (drains ((works ∷ []) ∷ (works ∷ works ∷ []) ∷ [])) waiting).queue ≡ [])
    × ((run codec cfg (drains ((works ∷ []) ∷ (works ∷ works ∷ []) ∷ [])) waiting).saved
        ≡ [] ++ queued codec two)
run-recovers_example =
    run-recovers codec cfg 7 ((works ∷ []) ∷ (works ∷ works ∷ []) ∷ []) waiting
      (
        ((refl, refl, omega arith), tt),
        (((refl, refl, omega arith), ((refl, refl, omega arith), tt)), tt),
      )
      (
        ((record { event = note; timestamp = 7; retries = 0 }), refl, omega arith),
        (((record { event = note; timestamp = 8; retries = 0 }), refl, omega arith), tt),
      )
      (omega arith)
