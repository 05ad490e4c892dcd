-- ===== src/Expiry/Sweeping.antt =====
-- What a pass of the sweeper deletes (internal/expiry/sweeper.go).
use native.Mathlib.Nat.{zero-add}
use cloistr_relay.Prelude.{
  ℕ, suc, ◌+◌, ◌≤◌, ◌<◌, ◌≡◌, refl, ◌∙◌, Bool, true, false, Option, none, some, List, [], ◌∷◌,
  length, select, arith, Bool-cases, inl, inr, nat_eq, ◌==◌,
}
use cloistr_relay.Prelude.Sorting.{total, sort_by, total-sort_by}
use cloistr_relay.Nostr.{Event}
use cloistr_relay.Expiry.Sweeper.{
  Config, KindCount, SweepResult, BatchFate, LoopEnd, LiveEnd, is_expired, is_malformed, count_kind,
  group_by_kind, has_more, count_expired, sum_counts, dry_run, delete_loop, finish, live_run,
  no_result,
}
use cloistr_relay.Expiry.Batches.{others, hits, IsCalm, delete_loop-end, delete_loop-IsSafe}

-- Grouping keeps the number of events.
count_kind-total :
    (k : ℕ) (kcs : List KindCount)
    → total (λ kc. kc.count) (count_kind k kcs) ≡ total (λ kc. kc.count) kcs + 1
unfolding total count_kind
count_kind-total k [] = refl
count_kind-total k (kc ∷ kcs) = elim (Bool-cases (kc.kind == k)) [
  | inl same ↦ rw same (omega arith)
  | inr other ↦ rw other (omega (arith, count_kind-total k kcs))
]

group_by_kind-total : (es : List Event) → total (λ kc. kc.count) (group_by_kind es) ≡ length es
unfolding total group_by_kind
group_by_kind-total [] = refl
group_by_kind-total (e ∷ es) =
    omega (arith, count_kind-total e.kind (group_by_kind es), group_by_kind-total es)

dry_run-result :
    (now grace : ℕ) (table : List Event) (r : SweepResult)
    → dry_run true now grace table ≡ some r
    → r ≡ record {
      deleted = 0;
      would_delete = hits (is_expired now grace) table;
      counts = sort_by has_more (group_by_kind (select (is_expired now grace) table));
      malformed = length (select is_malformed table);
    }
unfolding dry_run count_expired sum_counts
dry_run-result now grace table r e =
    let kcs = group_by_kind (select (is_expired now grace) table) in
    let counted : total (λ kc. kc.count) (sort_by has_more kcs)
        ≡ length (select (is_expired now grace) table) =
      total-sort_by has_more (λ kc. kc.count) kcs
      ∙ group_by_kind-total (select (is_expired now grace) table) in
    cc (e, counted)

-- A dry run counts what a live run deletes: if the counting queries answer, the batch size is
-- positive, every batch commits and the context is not done, then a live run at the same time, with
-- more fuel than expired events, ends without an error, leaves the events that have not expired, in
-- their order, and reports as deleted what the dry run would delete, with the same counts.
pub live_run-dry :
    (cfg : Config) (limit fuel now grace : ℕ) (fate : ℕ → BatchFate) (table : List Event)
    (r : SweepResult)
    → cfg.batch_size ≡ suc limit
    → IsCalm fate
    → hits (is_expired now grace) table < fuel
    → dry_run true now grace table ≡ some r
    → live_run fuel fate true cfg now grace table
      ≡ some (record {
        table = others (is_expired now grace) table;
        result = record r { deleted = r.would_delete; would_delete = 0 };
        succeeded = true;
      })
unfolding live_run count_expired
live_run-dry cfg limit fuel now grace fate table r size calm enough e = rw size (
    rw (delete_loop-end (is_expired now grace) fate limit fuel 0 table 0 calm enough)
      (rw (dry_run-result now grace table r e, zero-add) refl))

-- Whatever the batches meet, errors, cancellations and commits whose answer is lost included: a live
-- run that ends leaves every event that has not expired, and the deletions that it reports are no
-- more than the expired events that are gone.
pub live_run-keeps :
    (cfg : Config) (fuel now grace : ℕ) (fate : ℕ → BatchFate) (answered : Bool)
    (table : List Event) (end : LiveEnd)
    → live_run fuel fate answered cfg now grace table ≡ some end
    → (others (is_expired now grace) end.table ≡ others (is_expired now grace) table)
      × (end.result.deleted + hits (is_expired now grace) end.table
          ≤ hits (is_expired now grace) table)
unfolding live_run count_expired
live_run-keeps cfg fuel now grace fate false table end e =
    let same : record { table = table; result = no_result; succeeded = false } ≡ end = cc e in
    rw (← same) (refl, omega arith)
live_run-keeps cfg fuel now grace fate true table end e =
    go (delete_loop fuel fate 0 cfg.batch_size (is_expired now grace) table 0) refl e
  where
    go :
        (o : Option LoopEnd)
        → delete_loop fuel fate 0 cfg.batch_size (is_expired now grace) table 0 ≡ o
        → finish
            (sort_by has_more (group_by_kind (select (is_expired now grace) table)))
            (length (select is_malformed table))
            o
          ≡ some end
        → (others (is_expired now grace) end.table ≡ others (is_expired now grace) table)
          × (end.result.deleted + hits (is_expired now grace) end.table
              ≤ hits (is_expired now grace) table)
    go none p q = let gone : ⊥ = cc in absurd gone
    go (some l) p q =
        let safe =
          delete_loop-IsSafe (is_expired now grace) fuel fate 0 cfg.batch_size table 0 l p in
        let ends : LiveEnd = record {
          table = l.rows;
          result = record no_result {
            deleted = l.total_deleted;
            counts = sort_by has_more (group_by_kind (select (is_expired now grace) table));
            malformed = length (select is_malformed table);
          };
          succeeded = l.fine;
        } in
        let same : ends ≡ end = cc q in rw (← same) (safe.kept, omega (arith, safe.reported))
