-- ===== src/Wot/Bucket.antt =====
-- The token bucket of internal/wot/trust.go. Tokens are counted in 10⁻⁹ of a token and times in
-- nanoseconds, so that `elapsed.Seconds() * limit` is exact; the rounding of float64 is not modelled.
-- The clock is Go's monotonic one: a difference of times is not negative.
use mathlib.Core.Path.{subst}
use cloistr_relay.Prelude.{
  ℕ, suc, ◌+◌, ◌-◌, ◌*◌, ◌≤◌, ◌≡◌, sym, ap, ◌∙◌, ◌⊎◌, Bool, true, false, List, [], ◌∷◌, arith, ltb,
  if◌then◌else◌,
}

abbrev pub token : ℕ
token = 1000000000

pub record RateBucket : Type 0 where
  pub tokens : ℕ
  pub last_time : ℕ
  pub limit : ℕ

-- The bucket that getOrCreateBucket makes.
abbrev pub new_bucket : ℕ → ℕ → RateBucket
new_bucket now events_per_sec = record {
  tokens = events_per_sec * token;
  last_time = now;
  limit = events_per_sec;
}

-- What is in the bucket after the refill.
unfoldable pub refilled : ℕ → RateBucket → ℕ
refilled now b =
    let tokens = b.tokens + (now - b.last_time) * b.limit in
    let burst = b.limit * 2 * token in if ltb burst tokens then burst else tokens

unfoldable pub allow : ℕ → RateBucket → Bool × RateBucket
allow now b =
    let tokens = refilled now b in
    if ltb tokens token
    then (false, record b { tokens = tokens; last_time = now })
    else (true, record b { tokens = tokens - token; last_time = now })

-- The number of attempts that are let through, at the times of the list.
unfoldable pub granted : List ℕ → RateBucket → ℕ
granted [] b = 0
granted (now ∷ times) b =
    let rest = granted times (allow now b).1 in if (allow now b).0 then suc rest else rest

-- The times do not go back, and end at `end`.
abbrev pub AreOrdered : ℕ → List ℕ → ℕ → Type 0
AreOrdered start [] end = start ≤ end
AreOrdered start (now ∷ times) end = (start ≤ now) × AreOrdered now times end

end_after : (times : List ℕ) (start end : ℕ) → AreOrdered start times end → start ≤ end
end_after [] start end o = o
end_after (now ∷ times) start end o = omega (arith, o.0, end_after times now end o.1)

split_time :
    (start now end limit : ℕ)
    → start ≤ now
    → now ≤ end
    → (end - start) * limit ≡ (now - start) * limit + (end - now) * limit
split_time start now end limit p q =
    let whole : end - start ≡ (now - start) + (end - now) = omega arith in rw whole (omega arith)

refilled-bound :
    (now : ℕ) (b : RateBucket) → refilled now b ≤ b.tokens + (now - b.last_time) * b.limit
unfolding refilled
refilled-bound now b = ground arith

allow-cases :
    (now : ℕ) (b : RateBucket)
    → ((allow now b).1.last_time ≡ now)
      × ((allow now b).1.limit ≡ b.limit)
      × (((allow now b).0 ≡ true) × ((allow now b).1.tokens + token ≡ refilled now b)
          ⊎ ((allow now b).0 ≡ false) × ((allow now b).1.tokens ≡ refilled now b))
unfolding allow
allow-cases now b = ground arith

-- From one time to another, a bucket grants at most what it holds and what its rate refills in that
-- time, however the attempts are spread.
pub granted-bound :
    (times : List ℕ) (b : RateBucket) (end : ℕ)
    → AreOrdered b.last_time times end
    → granted times b * token ≤ b.tokens + (end - b.last_time) * b.limit
unfolding granted
granted-bound [] b end ordered = omega arith
granted-bound (now ∷ times) b end ordered =
    let (when, rate, tokens) = allow-cases now b in
    let after = (allow now b).1 in
    let ordered' = subst (λ (x : ℕ). AreOrdered x times end) (sym when) ordered.1 in
    let refills : (end - after.last_time) * after.limit ≡ (end - now) * b.limit =
      ap (λ (x : ℕ). (end - x) * after.limit) when ∙ ap (λ (l : ℕ). (end - now) * l) rate in
    let ih = granted-bound times after end ordered' in
    let split =
      split_time b.last_time now end b.limit ordered.0 (end_after times now end ordered.1) in
    ground (arith, ih, refills, split, tokens, refilled-bound now b)

-- A bucket never holds more than two seconds' worth.
pub allow-burst : (now : ℕ) (b : RateBucket) → (allow now b).1.tokens ≤ b.limit * 2 * token
unfolding allow refilled
allow-burst now b = ground arith
