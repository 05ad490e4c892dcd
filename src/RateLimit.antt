-- ===== src/RateLimit.antt =====
-- internal/ratelimit/memory.go: the limiters in memory, from the view of one key, whose buckets no
-- other key's calls touch. A call tests the bucket's tokens and adds one in two steps, and the sweep
-- deducts tokens and deletes the bucket in two steps; they interleave. A key that is not in the map
-- has spent 0. Between a deduction that takes a bucket below 0 and its deletion it counts as 0, which
-- makes no difference to a test against a positive maximum.
use cloistr_relay.Prelude.{
  ℕ, suc, ◌+◌, ◌-◌, ◌≤◌, Bool, false, List, [], ◌∷◌, ltb, leb, if◌then◌else◌,
}

-- The tokens spent; the calls that have passed the test with this bucket and have still to add their
-- token; and whether the sweep has found that the bucket is to be deleted.
pub record Bucket : Type 0 where
  pub spent : ℕ
  pub passed : ℕ
  pub doomed : Bool

-- A call's test; the addition of a call that has passed; the two steps of the sweep.
pub data Op : Type 0 where
  load : Op
  add : Op
  deduct : Op
  delete : Op

-- A call passes the test. One that has passed adds to the bucket that it has tested: to no bucket of
-- the map, if that was deleted since.
unfoldable pub step : ℕ → ℕ → Op → Bucket → Bucket
step per max load b = if ltb b.spent max then record b { passed = b.passed + 1 } else b
step per max add b =
    if ltb 0 b.passed then record b { spent = b.spent + 1; passed = b.passed - 1 } else b
step per max deduct b = record b { spent = b.spent - per; doomed = leb b.spent per }
step per max delete b = if b.doomed then record { spent = 0; passed = 0; doomed = false } else b

-- The calls that are let through.
unfoldable pub allowed : ℕ → ℕ → List Op → Bucket → ℕ
allowed per max [] b = 0
allowed per max (load ∷ ops) b =
    let rest = allowed per max ops (step per max load b) in
    if ltb b.spent max then suc rest else rest
allowed per max (add ∷ ops) b = allowed per max ops (step per max add b)
allowed per max (deduct ∷ ops) b = allowed per max ops (step per max deduct b)
allowed per max (delete ∷ ops) b = allowed per max ops (step per max delete b)

-- The steps of the sweep.
unfoldable pub deductions : List Op → ℕ
deductions [] = 0
deductions (deduct ∷ ops) = suc (deductions ops)
deductions (load ∷ ops) = deductions ops
deductions (add ∷ ops) = deductions ops
deductions (delete ∷ ops) = deductions ops

unfoldable pub deletions : List Op → ℕ
deletions [] = 0
deletions (delete ∷ ops) = suc (deletions ops)
deletions (load ∷ ops) = deletions ops
deletions (add ∷ ops) = deletions ops
deletions (deduct ∷ ops) = deletions ops

module _ (per max c : ℕ) where
  -- Never more than `c` calls are between their test and their addition.
  unfoldable pub IsBusy : List Op → Bucket → Type 0
  unfolding step
  IsBusy [] b = b.passed ≤ c
  IsBusy (op ∷ ops) b = (b.passed ≤ c) × IsBusy ops (step per max op b)

  -- A bucket is overdrawn by the calls that pass the test at the same time, and by no others.
  abbrev pub IsWithin : Bucket → Type 0
  IsWithin b = b.spent + b.passed ≤ max + c
