-- ===== src/Examples/Sweeps.antt =====
-- A table with an expired note, an expired gift wrap in its grace period and two events that do not
-- expire, swept with batches of one (internal/expiry).
use cloistr_relay.Prelude.{
  ◌+◌, ◌≤◌, ◌<◌, ◌≡◌, refl, false, true, some, List, [], ◌∷◌, arith, any_of, select, String,
}
use cloistr_relay.Prelude.Sorting.{total, sort_by}
use cloistr_relay.Nostr.{Event, Tag}
use cloistr_relay.Expiry.Sweeper.{
  Config, SweepResult, BatchFate, LiveEnd, committed, lost, is_expired, live_run, dry_run,
}
use cloistr_relay.Expiry.Batches.{others, hits}
use cloistr_relay.Expiry.Sweeping.{live_run-dry, live_run-keeps}

abbrev expires : String → List Tag
expires v = ("expiration" ∷ v ∷ []) ∷ []

abbrev old_note : Event
old_note = record {
  id = "1";
  pubkey = "a";
  created_at = 1;
  kind = 1;
  tags = expires "90";
  content = "";
}

abbrev wrap : Event
wrap = record {
  id = "2";
  pubkey = "b";
  created_at = 1;
  kind = 1059;
  tags = expires "90";
  content = "";
}

abbrev odd : Event
odd = record {
  id = "3";
  pubkey = "c";
  created_at = 1;
  kind = 1;
  tags = expires "soon";
  content = "";
}

abbrev table : List Event
table = old_note ∷ wrap ∷ odd ∷ []

abbrev cfg : Config
cfg = record {
  dry_run = false;
  interval = 3600;
  batch_size = 1;
  batch_pause = 1;
  gift_wrap_grace = 50;
}

abbrev calm : BatchFate
calm = record { cancelled_before = false; ending = committed; cancelled_after = false }

abbrev lossy : BatchFate
lossy = record { cancelled_before = false; ending = lost; cancelled_after = false }

abbrev counted_one : SweepResult
counted_one = record {
  deleted = 0;
  would_delete = 1;
  counts = (record { kind = 1; count = 1 }) ∷ [];
  malformed = 1;
}

dry : dry_run true 100 50 table ≡ some counted_one
unfolding dry_run total sort_by select any_of
dry = refl

few : hits (is_expired 100 50) table < 3
unfolding is_expired select any_of
few = omega arith

live_run-dry_example :
    live_run 3 (λ i. calm) true cfg 100 50 table
    ≡ some (record {
      table = others (is_expired 100 50) table;
      result = record counted_one { deleted = 1; would_delete = 0 };
      succeeded = true;
    })
live_run-dry_example =
    live_run-dry cfg 0 3 100 50 (λ i. calm) table counted_one refl
      (record { running = λ i. refl; commits = λ i. refl; goes_on = λ i. refl }) few dry

abbrev cut_short : LiveEnd
cut_short = record {
  table = wrap ∷ odd ∷ [];
  result = record counted_one { would_delete = 0 };
  succeeded = false;
}

lost_run : live_run 3 (λ i. lossy) true cfg 100 50 table ≡ some cut_short
unfolding live_run any_of sort_by select
lost_run = refl

live_run-keeps_example :
    (others (is_expired 100 50) cut_short.table ≡ others (is_expired 100 50) table)
    × (cut_short.result.deleted + hits (is_expired 100 50) cut_short.table
        ≤ hits (is_expired 100 50) table)
live_run-keeps_example = live_run-keeps cfg 3 100 50 (λ i. lossy) true table cut_short lost_run
