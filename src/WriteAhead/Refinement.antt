-- ===== src/WriteAhead/Refinement.antt =====
-- Without failures the queue and the table together are a log to which writes append.
use mathlib.Core.List.{append_assoc, append-nil}
use cloistr_relay.Prelude.{
  ℕ, ◌+◌, ◌≤◌, ◌≡◌, refl, sym, ap, ◌∙◌, true, false, Option, none, some, List, [], ◌∷◌, ◌++◌, All,
  All-append, arith, inl, inr, Option-cases,
}
use cloistr_relay.Nostr.{Event}
use cloistr_relay.WriteAhead.Queue.{
  Config, WalEvent, Codec, Wal, WriteFate, DrainFate, write, write_encoded, settle, drain_round,
  drain_batch, save_event, push, is_lost,
}
use cloistr_relay.WriteAhead.Ops.{
  IsFaithful, Op, write_of, drain_of, run_op, run, IsEntrySince, pending, queued, log_of, writes_of,
  IsCalm, drain_batch_kept, drain_batch_more,
}

pending-append :
    (o : Option WalEvent) (xs ys : List Event) → pending o xs ++ ys ≡ pending o (xs ++ ys)
unfolding pending
pending-append none xs ys = refl
pending-append (some v) xs ys = refl

module _ {Data : Type 0} (c : Codec Data) (cfg : Config) (t₀ : ℕ) where
  queued-append : (xs ys : List Data) → queued c (xs ++ ys) ≡ queued c xs ++ queued c ys
  unfolding queued
  queued-append [] ys = refl
  queued-append (x ∷ xs) ys =
      ap (pending (c.unmarshal x)) (queued-append xs ys)
      ∙ sym (pending-append (c.unmarshal x) (queued c xs) (queued c ys))

  -- A write without failures appends its event to the log, and a fresh entry to the queue.
  write-log :
      IsFaithful c
      → cfg.enabled ≡ true
      → (f : WriteFate) (e : Event) (w : Wal Data) → f.pushed ≡ true
      → t₀ ≤ f.now
      → All (IsEntrySince c t₀) w.queue
      → (log_of c ((write c cfg true f e w).1) ≡ log_of c w ++ e ∷ [])
        × All (IsEntrySince c t₀) ((write c cfg true f e w).1.queue)
  unfolding write write_encoded push log_of queued pending
  write-log faithful on f e w pushed late fresh =
      let v : WalEvent = record { event = e; timestamp = f.now; retries = 0 } in
      let d = faithful v in
      rw (on, d.1, pushed)
        (
          ap (λ q. w.saved ++ q) (queued-append w.queue (d.0 ∷ []))
              ∙ rw d.2 (sym (append_assoc w.saved (queued c w.queue) (e ∷ []))),
          All-append (IsEntrySince c t₀) w.queue d.0 fresh (v, d.2, late),
        )

  -- A round that finds PostgreSQL up and the entry fresh moves the event into the table.
  pub settle-saved :
      (f : DrainFate) (v : WalEvent) (w : Wal Data)
      → f.stored ≡ true
      → f.now ≤ t₀ + cfg.event_ttl
      → t₀ ≤ v.timestamp
      → settle c cfg f (some v) w
        ≡ record w { saved = w.saved ++ v.event ∷ []; stats_drained = w.stats_drained + 1 }
  unfolding settle save_event
  settle-saved f v w stored soon late = ground arith

  moved-log :
      (w : Wal Data) (v : WalEvent) (d : Data) (rest : List Data)
      → w.queue ≡ d ∷ rest
      → c.unmarshal d ≡ some v
      → (w.saved ++ v.event ∷ []) ++ queued c rest ≡ log_of c w
  unfolding log_of queued pending
  moved-log w v d rest at reads =
      rw (at, reads) (append_assoc w.saved (v.event ∷ []) (queued c rest))

  round-log :
      (f : DrainFate) (w w' : Wal Data) (q : List Data)
      → f.stored ≡ true
      → f.now ≤ t₀ + cfg.event_ttl
      → w.queue ≡ q
      → All (IsEntrySince c t₀) q
      → drain_round c cfg f q w ≡ some w'
      → (log_of c w' ≡ log_of c w) × All (IsEntrySince c t₀) w'.queue
  unfolding drain_round log_of
  round-log f w w' [] stored soon at fresh e = cc
  round-log f w w' (d ∷ rest) stored soon at ((v, reads, late), fresh) e =
      let moved : Wal Data = record w {
        queue = rest;
        saved = w.saved ++ v.event ∷ [];
        stats_drained = w.stats_drained + 1;
      } in
      let is_moved : w' ≡ moved =
        ground (arith, reads, settle-saved f v (record w { queue = rest }) stored soon late) in
      rw is_moved (moved-log w v d rest at reads, fresh)

  pub drain_batch-log :
      (fates : List DrainFate) (w : Wal Data)
      → All (λ f. (is_lost f ≡ false) × (f.stored ≡ true) × (f.now ≤ t₀ + cfg.event_ttl)) fates
      → All (IsEntrySince c t₀) w.queue
      → (log_of c (drain_batch c cfg fates w) ≡ log_of c w)
        × All (IsEntrySince c t₀) ((drain_batch c cfg fates w).queue)
  unfolding drain_batch
  drain_batch-log [] w calm fresh = (refl, fresh)
  drain_batch-log (f ∷ fates) w calm fresh = elim (Option-cases (drain_round c cfg f w.queue w)) [
    | inl stop ↦ rw (drain_batch_kept c cfg f fates w calm.0.0 stop) (refl, fresh)
    | inr (w', more) ↦
        let moved = round-log f w w' w.queue calm.0.1 calm.0.2 refl fresh more in
        let rest = drain_batch-log fates w' calm.1 moved.1 in
        rw (drain_batch_more c cfg f fates w w' more) (rest.0 ∙ moved.0, rest.1)
  ]

  -- While PostgreSQL takes every event and Redis every push, and no LPop takes an entry without
  -- answering, over a time of at most the TTL, the writes and the batches of the drain, in any order,
  -- implement a log: the table followed by the events in the queue is what it was followed by the
  -- written events, in the order of the writes.
  pub run-log :
      IsFaithful c
      → cfg.enabled ≡ true
      → (ops : List Op) (w : Wal Data) → All (IsCalm cfg t₀) ops
      → All (IsEntrySince c t₀) w.queue
      → log_of c (run c cfg ops w) ≡ log_of c w ++ writes_of ops
  unfolding run run_op writes_of
  run-log faithful on [] w calm fresh = sym (append-nil (log_of c w))
  run-log faithful on (write_of f e ∷ ops) w calm fresh =
      let one = write-log faithful on f e w calm.0.0 calm.0.1 fresh in
      run-log faithful on ops ((write c cfg true f e w).1) calm.1 one.1
      ∙ ap (λ l. l ++ writes_of ops) one.0
      ∙ append_assoc (log_of c w) (e ∷ []) (writes_of ops)
  run-log faithful on (drain_of fates ∷ ops) w calm fresh =
      let one = drain_batch-log fates w calm.0 fresh in
      run-log faithful on ops (drain_batch c cfg fates w) calm.1 one.1
      ∙ ap (λ l. l ++ writes_of ops) one.0
