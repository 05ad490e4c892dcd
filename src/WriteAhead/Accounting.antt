-- ===== src/WriteAhead/Accounting.antt =====
-- The counters of the write-ahead log account for every entry, as long as each retry is pushed.
use cloistr_relay.Prelude.{
  ℕ, suc, ◌+◌, ◌≡◌, refl, ap, true, false, Option, none, some, List, [], ◌∷◌, All, All-append,
  length, length-append, arith, inl, inr, Option-cases, Bool-cases,
}
use cloistr_relay.Nostr.{Event}
use cloistr_relay.WriteAhead.Queue.{
  Config, WalEvent, Codec, Wal, WriteFate, DrainFate, write, write_encoded, save_directly, settle,
  drain_round, drain_batch, save_event, push, bytes_of, retry, fail, is_lost, is_doubled,
}
use cloistr_relay.WriteAhead.Ops.{
  IsFaithful, Op, write_of, drain_of, run_op, run, drain_batch_kept, drain_batch_more,
}

-- Every push of a retry succeeds, and no LPop or RPush that fails is carried out.
abbrev pub IsKept : Op → Type 0
IsKept (write_of f e) = is_doubled f ≡ false
IsKept (drain_of fates) = All (λ f. (f.requeued ≡ true) × (is_lost f ≡ false)) fates

-- The entries in the queue, those that were saved and those that were given up.
abbrev pub accounted : {Data : Type 0} → Wal Data → ℕ
accounted w = length w.queue + w.stats_drained + w.stats_failed

module _ {Data : Type 0} (c : Codec Data) (cfg : Config) where
  abbrev pub IsReadable : Data → Type 0
  IsReadable d = (v : WalEvent) × (c.unmarshal d ≡ some v)

  -- Every entry can be read, and the counters account for every entry that was written.
  pub record IsBalanced (w : Wal Data) : Type 0 where
    pub readable : All IsReadable w.queue
    pub balance : accounted w ≡ w.stats_written

  write-written :
      (f : WriteFate) (e : Event) (o : Option Data) (w : Wal Data)
      → is_doubled f ≡ false
      → let w' = (write_encoded c cfg f e o w).1 in
        accounted w' + w.stats_written ≡ accounted w + w'.stats_written
  unfolding write_encoded push save_directly save_event
  write-written f e none w kept = refl
  write-written f e (some d) w kept = ground (arith, kept, length-append w.queue (d ∷ []))

  bytes_of-IsReadable : IsFaithful c → (v : WalEvent) → IsReadable (bytes_of c cfg v)
  unfolding bytes_of
  bytes_of-IsReadable faithful v =
      let d = faithful v in
      let same : bytes_of c cfg v ≡ d.0 = ground (arith, d.1) in (v, rw same d.2)

  settle-accounted :
      (f : DrainFate) (v : WalEvent) (w : Wal Data)
      → f.requeued ≡ true
      → (accounted (settle c cfg f (some v) w) ≡ suc (accounted w))
        × ((settle c cfg f (some v) w).stats_written ≡ w.stats_written)
  unfolding settle save_event retry push fail
  settle-accounted f v w again =
      ground
        (arith, length-append w.queue (bytes_of c cfg (record v { retries = v.retries + 1 }) ∷ []))

  settle-IsReadable :
      IsFaithful c
      → (f : DrainFate) (v : WalEvent) (w : Wal Data) → All IsReadable w.queue
      → All IsReadable ((settle c cfg f (some v) w).queue)
  unfolding settle save_event retry push fail
  settle-IsReadable faithful f v w readable =
      let again : WalEvent = record v { retries = v.retries + 1 } in
      ground (
        arith,
        readable,
        All-append IsReadable w.queue (bytes_of c cfg again) readable
            (bytes_of-IsReadable faithful again),
      )

  round-IsBalanced :
      IsFaithful c
      → (f : DrainFate) (q : List Data) (w w' : Wal Data) → f.requeued ≡ true
      → w.queue ≡ q
      → drain_round c cfg f q w ≡ some w'
      → IsBalanced w
      → IsBalanced w'
  unfolding drain_round
  round-IsBalanced faithful f [] w w' again at e b = cc
  round-IsBalanced faithful f (d ∷ rest) w w' again at e b =
      let readable : All IsReadable (d ∷ rest) = rw at at b.readable in
      let popped : Wal Data = record w { queue = rest } in
      let counts = settle-accounted f readable.0.0 popped again in
      let same : w' ≡ settle c cfg f (some (readable.0.0)) popped = ground (arith, readable.0.1) in
      rw same (record {
        readable = settle-IsReadable faithful f readable.0.0 popped readable.1;
        balance = ground (arith, counts, b.balance, ap length at);
      })

  batch-IsBalanced :
      IsFaithful c
      → (fates : List DrainFate) (w : Wal Data)
      → All (λ f. (f.requeued ≡ true) × (is_lost f ≡ false)) fates
      → IsBalanced w
      → IsBalanced (drain_batch c cfg fates w)
  unfolding drain_batch
  batch-IsBalanced faithful [] w again b = b
  batch-IsBalanced faithful (f ∷ fates) w again b =
      elim (Option-cases (drain_round c cfg f w.queue w)) [
        | inl stop ↦ rw (drain_batch_kept c cfg f fates w again.0.1 stop) b
        | inr (w', more) ↦ rw (drain_batch_more c cfg f fates w w' more) (
            batch-IsBalanced faithful fates w' again.1
              (round-IsBalanced faithful f w.queue w w' again.0.0 refl more b))
      ]

  encoded-IsReadable :
      IsFaithful c
      → (f : WriteFate) (e : Event) (v : WalEvent) (w : Wal Data) → All IsReadable w.queue
      → All IsReadable ((write_encoded c cfg f e (c.marshal v) w).1.queue)
  unfolding write_encoded push save_directly save_event
  encoded-IsReadable faithful f e v w readable =
      let d = faithful v in
      rw d.1 (ground (arith, readable, All-append IsReadable w.queue d.0 readable (v, d.2)))

  direct-IsBalanced :
      (f : WriteFate) (e : Event) (w : Wal Data)
      → IsBalanced w
      → IsBalanced ((save_directly f.stored e w).1)
  unfolding save_directly save_event
  direct-IsBalanced f e w b = elim (Bool-cases f.stored) [
    | inl hit ↦ rw hit (record { readable = b.readable; balance = b.balance })
    | inr miss ↦ rw miss b
  ]

  write-IsBalanced :
      IsFaithful c
      → (f : WriteFate) (e : Event) (w : Wal Data) → is_doubled f ≡ false
      → IsBalanced w
      → IsBalanced ((write c cfg true f e w).1)
  unfolding write
  write-IsBalanced faithful f e w kept b =
      let v : WalEvent = record { event = e; timestamp = f.now; retries = 0 } in
      let pushed : IsBalanced ((write_encoded c cfg f e (c.marshal v) w).1) = record {
        readable = encoded-IsReadable faithful f e v w b.readable;
        balance = omega (arith, write-written f e (c.marshal v) w kept, b.balance);
      } in
      ground (arith, pushed, direct-IsBalanced f e w b)

  -- As long as the pushes of retries succeed and no LPop or RPush that fails is carried out, whatever
  -- else fails: after any sequence of writes and batches of the drain, each written entry is in the
  -- queue, or counted as drained, or counted as failed, if that was so at first.
  pub run-IsBalanced :
      IsFaithful c
      → (ops : List Op) (w : Wal Data) → All IsKept ops
      → IsBalanced w
      → IsBalanced (run c cfg ops w)
  unfolding run run_op
  run-IsBalanced faithful [] w again b = b
  run-IsBalanced faithful (write_of f e ∷ ops) w again b =
      run-IsBalanced faithful ops ((write c cfg true f e w).1) again.1
        (write-IsBalanced faithful f e w again.0 b)
  run-IsBalanced faithful (drain_of fates ∷ ops) w again b =
      run-IsBalanced faithful ops (drain_batch c cfg fates w) again.1
        (batch-IsBalanced faithful fates w again.0 b)
