-- ===== src/WriteAhead/Ops.antt =====
-- Writes and drains in the order in which Redis serves them, and the promise of the codec.
use cloistr_relay.Prelude.{
  ℕ, ◌+◌, ◌≤◌, ◌≡◌, ap, ◌∙◌, refl, true, false, Option, none, some, List, [], ◌∷◌, ◌++◌, All,
}
use cloistr_relay.Nostr.{Event}
use cloistr_relay.WriteAhead.Queue.{
  Config, WalEvent, Codec, Wal, WriteFate, DrainFate, write, drain_round, drain_batch, resume,
  is_lost, left_by,
}

-- Every event is marshalled, and Unmarshal reads back what Marshal wrote.
abbrev pub IsFaithful : {Data : Type 0} → Codec Data → Type 0
IsFaithful c = (v : WalEvent) → (d : _) × (c.marshal v ≡ some d) × (c.unmarshal d ≡ some v)

pub data Op : Type 0 where
  write_of : WriteFate → Event → Op
  drain_of : List DrainFate → Op

module _ {Data : Type 0} (c : Codec Data) (cfg : Config) where
  unfoldable pub run_op : Op → Wal Data → Wal Data
  run_op (write_of f e) w = (write c cfg true f e w).1
  run_op (drain_of fates) w = drain_batch c cfg fates w

  unfoldable pub run : List Op → Wal Data → Wal Data
  run [] w = w
  run (op ∷ ops) w = run ops (run_op op w)

unfoldable pub pending : Option WalEvent → List Event → List Event
pending none es = es
pending (some v) es = v.event ∷ es

module _ {Data : Type 0} (c : Codec Data) where
  -- An entry of the queue that can be read and was written at `t₀` or later.
  abbrev pub IsEntrySince : ℕ → Data → Type 0
  IsEntrySince t₀ d = (v : WalEvent) × (c.unmarshal d ≡ some v) × (t₀ ≤ v.timestamp)

  unfoldable pub queued : List Data → List Event
  queued [] = []
  queued (d ∷ ds) = pending (c.unmarshal d) (queued ds)

  -- The specification: a log of events, the saved ones first.
  unfoldable pub log_of : Wal Data → List Event
  log_of w = w.saved ++ queued w.queue

left_by_kept : {Data : Type 0} (f : DrainFate) (w : Wal Data) → is_lost f ≡ false → left_by f w ≡ w
unfolding left_by
left_by_kept f w kept = rw kept refl

module _ {Data : Type 0} (c : Codec Data) (cfg : Config) where
  pub drain_batch_stop :
      (f : DrainFate) (fates : List DrainFate) (w : Wal Data)
      → drain_round c cfg f w.queue w ≡ none
      → drain_batch c cfg (f ∷ fates) w ≡ left_by f w
  unfolding drain_batch resume
  drain_batch_stop f fates w e = ap (λ o. resume (drain_batch c cfg fates) o (left_by f w)) e

  -- A batch that stops where no entry is lost.
  pub drain_batch_kept :
      (f : DrainFate) (fates : List DrainFate) (w : Wal Data)
      → is_lost f ≡ false
      → drain_round c cfg f w.queue w ≡ none
      → drain_batch c cfg (f ∷ fates) w ≡ w
  drain_batch_kept f fates w kept e = drain_batch_stop f fates w e ∙ left_by_kept f w kept

  pub drain_batch_more :
      (f : DrainFate) (fates : List DrainFate) (w w' : Wal Data)
      → drain_round c cfg f w.queue w ≡ some w'
      → drain_batch c cfg (f ∷ fates) w ≡ drain_batch c cfg fates w'
  unfolding drain_batch resume
  drain_batch_more f fates w w' e = ap (λ o. resume (drain_batch c cfg fates) o (left_by f w)) e

unfoldable pub writes_of : List Op → List Event
writes_of [] = []
writes_of (write_of f e ∷ ops) = e ∷ writes_of ops
writes_of (drain_of fates ∷ ops) = writes_of ops

-- A step without failures from `t₀` on, no later than the TTL allows; an LPop may fail if it is not
-- carried out.
abbrev pub IsCalm : Config → ℕ → Op → Type 0
IsCalm cfg t₀ (write_of f e) = (f.pushed ≡ true) × (t₀ ≤ f.now)
IsCalm cfg t₀ (drain_of fates) =
    All (λ f. (is_lost f ≡ false) × (f.stored ≡ true) × (f.now ≤ t₀ + cfg.event_ttl)) fates
