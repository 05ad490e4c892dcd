-- ===== src/Expiry/Sweeper.antt =====
-- internal/expiry/sweeper.go: the SQL statements on the table of events, and the passes of the
-- sweeper. Of the rows that qualify, DELETE with LIMIT takes the first of the table, whose order is
-- arbitrary. What a transaction and the context do in a batch is the batch's fate. The times are
-- Unix times; a grace period that is longer than the time since 1970 leaves 0. Elapsed times, the
-- log messages, the pause between batches and the ticker are left out.
use Prim.Native.Char.{code}
use Prim.Native.String.{count}
use cloistr_relay.Prelude.{
  ℕ, zero, suc, ◌+◌, ◌-◌, ◌*◌, String, Bool, true, false, not, ◌&&◌, Option, none, some, List, [],
  ◌∷◌, ltb, leb, if◌then◌else◌, any_of, select, length, string_eq, nat_eq, ◌==◌,
}
use cloistr_relay.Prelude.Sorting.{sort_by, total}
use cloistr_relay.Nostr.{Tag, Event}

-- The interval, the batch pause and the grace period are in seconds.
pub record Config : Type 0 where
  pub dry_run : Bool
  pub interval : ℕ
  pub batch_size : ℕ
  pub batch_pause : ℕ
  pub gift_wrap_grace : ℕ

unfoldable pub default_config : Config
default_config = record {
  dry_run = true;
  interval = 3600;
  batch_size = 1000;
  batch_pause = 1;
  gift_wrap_grace = 2_592_000;
}

pub record KindCount : Type 0 where
  pub kind : ℕ
  pub count : ℕ

pub record SweepResult : Type 0 where
  pub deleted : ℕ
  pub would_delete : ℕ
  pub counts : List KindCount
  pub malformed : ℕ

abbrev pub no_result : SweepResult
no_result = record { deleted = 0; would_delete = 0; counts = []; malformed = 0 }

abbrev pub kind_gift_wrap : ℕ
kind_gift_wrap = 1059

-- The digits of a text, read after `n`.
read_digits : ℕ → String → Option ℕ
read_digits n String.[] = some n
read_digits n (String.◌∷◌ c s) =
    let rest = read_digits (n * 10 + (code c - 48)) s in
    if leb 48 (code c) && leb (code c) 57 then rest else none

-- The value of a text that matches `^\d{1,18}$`.
unfoldable pub numeral : String → Option ℕ
unfolding read_digits
numeral s = if leb 1 (count s) && leb (count s) 18 then read_digits 0 s else none

unfoldable pub below : ℕ → Option ℕ → Bool
below bound none = false
below bound (some n) = ltb n bound

unfoldable pub is_some : Option ℕ → Bool
is_some none = false
is_some (some n) = true

-- An expiration tag with a number below the bound.
unfoldable pub is_past : ℕ → Tag → Bool
unfolding numeral below
is_past bound [] = false
is_past bound (k ∷ []) = false
is_past bound (k ∷ v ∷ rest) = k == "expiration" && below bound (numeral v)

unfoldable pub is_numeric : Tag → Bool
unfolding numeral is_some
is_numeric [] = false
is_numeric (k ∷ []) = false
is_numeric (k ∷ v ∷ rest) = k == "expiration" && is_some (numeral v)

unfoldable pub is_not_numeric : Tag → Bool
unfolding numeral is_some
is_not_numeric [] = false
is_not_numeric (k ∷ []) = false
is_not_numeric (k ∷ v ∷ rest) = k == "expiration" && not (is_some (numeral v))

unfoldable pub is_expired : ℕ → ℕ → Event → Bool
unfolding is_past
is_expired now grace e = any_of (is_past (if e.kind == kind_gift_wrap then grace else now)) e.tags

unfoldable pub is_malformed : Event → Bool
unfolding is_numeric is_not_numeric
is_malformed e = any_of is_not_numeric e.tags && not (any_of is_numeric e.tags)

-- GROUP BY kind, and ORDER BY cnt DESC.
unfoldable pub count_kind : ℕ → List KindCount → List KindCount
count_kind k [] = (record { kind = k; count = 1 }) ∷ []
count_kind k (kc ∷ kcs) =
    let rest = count_kind k kcs in
    if kc.kind == k then (record kc { count = kc.count + 1 }) ∷ kcs else kc ∷ rest

unfoldable pub group_by_kind : List Event → List KindCount
unfolding count_kind
group_by_kind [] = []
group_by_kind (e ∷ es) = count_kind e.kind (group_by_kind es)

unfoldable pub has_more : KindCount → KindCount → Bool
has_more a b = ltb b.count a.count

-- countExpired; `answered` is whether its transaction succeeds.
unfoldable pub count_expired : Bool → ℕ → ℕ → List Event → Option (List KindCount × ℕ)
unfolding group_by_kind has_more is_expired is_malformed
count_expired answered now grace table =
    if answered
    then some (
      sort_by has_more (group_by_kind (select (is_expired now grace) table)),
      length (select is_malformed table),
    )
    else none

unfoldable pub sum_counts : List KindCount → ℕ
sum_counts kcs = total (λ kc. kc.count) kcs

unfoldable pub dry_run : Bool → ℕ → ℕ → List Event → Option SweepResult
unfolding count_expired sum_counts
dry_run answered now grace table = elim (count_expired answered now grace table) [
  | none ↦ none
  | some (kcs, bad) ↦
      some (record no_result { would_delete = sum_counts kcs; counts = kcs; malformed = bad })
]

-- The rows that DELETE leaves, and the number of those it deletes.
unfoldable pub delete_first : ℕ → (Event → Bool) → List Event → List Event × ℕ
delete_first zero p es = (es, 0)
delete_first (suc n) p [] = ([], 0)
delete_first (suc n) p (e ∷ es) =
    let gone = delete_first n p es in
    let kept = delete_first (suc n) p es in
    if p e then (gone.0, gone.1 + 1) else (e ∷ kept.0, kept.1)

-- How the transaction of a batch ends: an error at the COMMIT may come after it was carried out.
pub data Ending : Type 0 where
  committed : Ending
  rolled_back : Ending
  lost : Ending

-- Whether the context is done when the loop tests it before and after the batch.
pub record BatchFate : Type 0 where
  pub cancelled_before : Bool
  pub ending : Ending
  pub cancelled_after : Bool

-- Rows, with the number of deleted rows if there is no error.
unfoldable pub delete_batch : Ending → ℕ → (Event → Bool) → List Event → List Event × Option ℕ
unfolding delete_first
delete_batch committed limit p es = ((delete_first limit p es).0, some (delete_first limit p es).1)
delete_batch rolled_back limit p es = (es, none)
delete_batch lost limit p es = ((delete_first limit p es).0, none)

-- The end of the loop: the rows, the total, and whether there was no error.
pub record LoopEnd : Type 0 where
  pub rows : List Event
  pub total_deleted : ℕ
  pub fine : Bool

unfoldable pub stop : List Event → ℕ → Bool → Option LoopEnd
stop es n fine = some (record { rows = es; total_deleted = n; fine = fine })

-- What follows a batch; `next` goes on with the loop.
unfoldable pub after_batch :
    (List Event → ℕ → Option LoopEnd) → Bool → ℕ → List Event × Option ℕ → Option LoopEnd
unfolding stop
after_batch next cancelled n (es, none) = stop es n false
after_batch next cancelled n (es, some zero) = stop es n true
after_batch next cancelled n (es, some (suc k)) =
    if cancelled then stop es (n + suc k) true else next es (n + suc k)

-- The loop of liveRun on fuel, from batch `i` on: `none` is a loop that has not ended.
unfoldable pub delete_loop :
    ℕ → (ℕ → BatchFate) → ℕ → ℕ → (Event → Bool) → List Event → ℕ → Option LoopEnd
unfolding delete_batch after_batch stop
delete_loop zero fate i limit p es n = none
delete_loop (suc fuel) fate i limit p es n =
    let end =
      after_batch (delete_loop fuel fate (i + 1) limit p) (fate i).cancelled_after n
        (delete_batch (fate i).ending limit p es) in
    if (fate i).cancelled_before then stop es n true else end

-- liveRun: its rows, its result, and whether there was no error.
pub record LiveEnd : Type 0 where
  pub table : List Event
  pub result : SweepResult
  pub succeeded : Bool

unfoldable pub finish : List KindCount → ℕ → Option LoopEnd → Option LiveEnd
finish kcs bad none = none
finish kcs bad (some end) = some (record {
  table = end.rows;
  result = record no_result { deleted = end.total_deleted; counts = kcs; malformed = bad };
  succeeded = end.fine;
})

unfoldable pub live_run : ℕ → (ℕ → BatchFate) → Bool → Config → ℕ → ℕ → List Event → Option LiveEnd
unfolding count_expired delete_loop finish
live_run fuel fate answered cfg now grace table = elim (count_expired answered now grace table) [
  | none ↦ some (record { table = table; result = no_result; succeeded = false })
  | some (kcs, bad) ↦
      finish kcs bad (delete_loop fuel fate 0 cfg.batch_size (is_expired now grace) table 0)
]

-- What Sweep returns: of a dry run, with `none` for an error, or of a live run.
pub data Pass : Type 0 where
  counted : Option SweepResult → Pass
  ran : Option LiveEnd → Pass

unfoldable pub grace_of : Config → ℕ → ℕ
grace_of cfg now = now - cfg.gift_wrap_grace

unfoldable pub sweep : ℕ → (ℕ → BatchFate) → Bool → Config → ℕ → List Event → Pass
unfolding dry_run live_run grace_of
sweep fuel fate answered cfg now table =
    if cfg.dry_run
    then counted (dry_run answered now (grace_of cfg now) table)
    else ran (live_run fuel fate answered cfg now (grace_of cfg now) table)
