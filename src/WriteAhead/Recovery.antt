-- ===== src/WriteAhead/Recovery.antt =====
-- The batches of the drain empty the queue once the services answer
-- (internal/writeahead/writeahead.go).
use mathlib.Core.List.{append-nil}
use cloistr_relay.Prelude.{
  ℕ, zero, suc, ◌+◌, ◌≤◌, ◌≡◌, refl, sym, ap, ◌∙◌, true, false, none, some, List, [], ◌∷◌, ◌++◌,
  All, length, arith,
}
use cloistr_relay.WriteAhead.Queue.{
  Config, Codec, Wal, DrainFate, drain_round, drain_batch, is_lost,
}
use cloistr_relay.WriteAhead.Ops.{
  Op, drain_of, run_op, run, IsEntrySince, queued, log_of, drain_batch_kept, drain_batch_more,
}
use cloistr_relay.WriteAhead.Refinement.{settle-saved, drain_batch-log}

abbrev pub drop : {A : Type 0} → ℕ → List A → List A
drop zero xs = xs
drop (suc n) [] = []
drop (suc n) (x ∷ xs) = drop n xs

drop-nil : {A : Type 0} (n : ℕ) → drop {A = A} n [] ≡ []
drop-nil zero = refl
drop-nil (suc n) = refl

drop-drop : {A : Type 0} (m n : ℕ) (xs : List A) → drop n (drop m xs) ≡ drop (m + n) xs
drop-drop zero n xs = let e : n ≡ 0 + n = omega arith in ap (λ k. drop k xs) e
drop-drop (suc m) n [] = drop-nil n ∙ sym (drop-nil (suc m + n))
drop-drop (suc m) n (x ∷ xs) =
    let e : suc (m + n) ≡ suc m + n = omega arith in drop-drop m n xs ∙ ap (λ k. drop k (x ∷ xs)) e

drop-all : {A : Type 0} (n : ℕ) (xs : List A) → length xs ≤ n → drop n xs ≡ []
drop-all zero [] h = refl
drop-all zero (x ∷ xs) h = absurd (omega arith)
drop-all (suc n) [] h = refl
drop-all (suc n) (x ∷ xs) h = drop-all n xs (omega (arith, h))

-- Batches one after the other, and the rounds that they have together.
abbrev pub drains : List (List DrainFate) → List Op
drains [] = []
drains (fates ∷ batches) = drain_of fates ∷ drains batches

abbrev pub rounds : List (List DrainFate) → ℕ
rounds [] = 0
rounds (fates ∷ batches) = length fates + rounds batches

-- With an empty queue the log is the table.
all_saved :
    {Data : Type 0} (c : Codec Data) (w' w : Wal Data)
    → w'.queue ≡ []
    → log_of c w' ≡ log_of c w
    → w'.saved ≡ w.saved ++ queued c w.queue
unfolding log_of queued
all_saved c w' w e l = sym (ap (λ q. w'.saved ++ queued c q) e ∙ append-nil w'.saved) ∙ l

module _ {Data : Type 0} (c : Codec Data) (cfg : Config) (t₀ : ℕ) where
  -- Redis and PostgreSQL answer, before an entry from `t₀` on expires.
  abbrev pub IsServed : DrainFate → Type 0
  IsServed f = (f.popped ≡ true) × (f.stored ≡ true) × (f.now ≤ t₀ + cfg.event_ttl)

  answered-kept : (f : DrainFate) → f.popped ≡ true → is_lost f ≡ false
  answered-kept f up = rw up refl

  All-calm :
      (fates : List DrainFate)
      → All IsServed fates
      → All (λ f. (is_lost f ≡ false) × (f.stored ≡ true) × (f.now ≤ t₀ + cfg.event_ttl)) fates
  All-calm [] h = tt
  All-calm (f ∷ fates) h = ((answered-kept f h.0.0, h.0.1, h.0.2), All-calm fates h.1)

  round-queue :
      (f : DrainFate) (d : Data) (rest : List Data) (w : Wal Data)
      → IsServed f
      → IsEntrySince c t₀ d
      → (w' : Wal Data) × (drain_round c cfg f (d ∷ rest) w ≡ some w') × (w'.queue ≡ rest)
  unfolding drain_round
  round-queue f d rest w (up, stored, soon) (v, reads, late) =
      let w' : Wal Data = record w {
        queue = rest;
        saved = w.saved ++ v.event ∷ [];
        stats_drained = w.stats_drained + 1;
      } in
      (
        w',
        rw (up, reads)
            (ap some (settle-saved c cfg t₀ f v (record w { queue = rest }) stored soon late)),
        refl,
      )

  drain_batch-queue :
      (fates : List DrainFate) (q : List Data) (w : Wal Data)
      → w.queue ≡ q
      → All IsServed fates
      → All (IsEntrySince c t₀) q
      → (drain_batch c cfg fates w).queue ≡ drop (length fates) q
  unfolding drain_batch drain_round
  drain_batch-queue [] q w at served fresh = at
  drain_batch-queue (f ∷ fates) [] w at served fresh =
      ap (λ (x : Wal Data). x.queue)
        (drain_batch_kept c cfg f fates w (answered-kept f served.0.0) (stops w.queue at))
      ∙ at
    where
      stops : (l : List Data) → l ≡ [] → drain_round c cfg f l w ≡ none
      stops l e = ap (λ x. drain_round c cfg f x w) e
  drain_batch-queue (f ∷ fates) (d ∷ rest) w at served fresh =
      let next = round-queue f d rest w served.0 fresh.0 in
      ap (λ (x : Wal Data). x.queue)
        (drain_batch_more c cfg f fates w next.0 (ap (λ l. drain_round c cfg f l w) at ∙ next.1))
      ∙ drain_batch-queue fates rest next.0 next.2 served.1 fresh.1

  run-queue :
      (batches : List (List DrainFate)) (w : Wal Data)
      → All (All IsServed) batches
      → All (IsEntrySince c t₀) w.queue
      → ((run c cfg (drains batches) w).queue ≡ drop (rounds batches) w.queue)
        × (log_of c (run c cfg (drains batches) w) ≡ log_of c w)
  unfolding run run_op
  run-queue [] w served fresh = (refl, refl)
  run-queue (fates ∷ batches) w served fresh =
      let one = drain_batch-log c cfg t₀ fates w (All-calm fates served.0) fresh in
      let w' = drain_batch c cfg fates w in
      let rest = run-queue batches w' served.1 one.1 in
      (
        rest.0
            ∙ ap (drop (rounds batches)) (drain_batch-queue fates w.queue w refl served.0 fresh)
            ∙ drop-drop (length fates) (rounds batches) w.queue,
        rest.1 ∙ one.0,
      )

  -- The log recovers: once every LPop answers and PostgreSQL takes every event, batches of the drain
  -- that have together as many rounds as the queue has readable entries, while none of these
  -- expires, empty the queue, and the table grows by its events, in their order.
  pub run-recovers :
      (batches : List (List DrainFate)) (w : Wal Data)
      → All (All IsServed) batches
      → All (IsEntrySince c t₀) w.queue
      → length w.queue ≤ rounds batches
      → ((run c cfg (drains batches) w).queue ≡ [])
        × ((run c cfg (drains batches) w).saved ≡ w.saved ++ queued c w.queue)
  run-recovers batches w served fresh enough =
      let h = run-queue batches w served fresh in
      let empty = h.0 ∙ drop-all (rounds batches) w.queue enough in
      (empty, all_saved c (run c cfg (drains batches) w) w empty h.1)
