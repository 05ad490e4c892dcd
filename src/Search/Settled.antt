-- ===== src/Search/Settled.antt =====
-- The attempts to set the search up end (internal/search/search.go).
use cloistr_relay.Prelude.{
  ℕ, zero, suc, ◌+◌, ◌≤◌, ◌<◌, ◌≡◌, ap, ◌∙◌, String, Bool, true, Option, none, some, List, [], ◌∷◌,
  ◌++◌, length, length-append, All, All-append, arith, string_eq,
}
use cloistr_relay.Search.Setup.{Retried, least, next_wait, after_attempt, retry_from, retry_setup}

module _ (attempt : ℕ → Option String) (waited : ℕ → Bool) (every max_wait : ℕ)
    (fits : every ≤ max_wait) where
  abbrev InRange : ℕ → Type 0
  InRange w = (every ≤ w) × (w ≤ max_wait)

  next_wait-InRange :
      (next : ℕ) (last err : String)
      → every ≤ next
      → InRange (next_wait every max_wait next last err)
  unfolding next_wait least
  next_wait-InRange next last err le = (ground (arith, fits, le), ground (arith, fits))

  -- Attempt `n + k` is the first from `n` on that succeeds, and the waits before it end.
  pub record IsFirst (n k : ℕ) : Type 0 where
    pub success : attempt (n + k) ≡ none
    pub failures : (i : ℕ) → n ≤ i → i < n + k → (err : String) × (attempt i ≡ some err)
    pub ends : (i : ℕ) → n ≤ i → i < n + k → waited i ≡ true

  pub record IsReady (n k : ℕ) (waits : List ℕ) (o : Option Retried) : Type 0 where
    pub all_waits : List ℕ
    pub ends_with : o ≡ some (record { attempts = n + k; ready = true; waits = all_waits })
    pub number : length all_waits ≡ length waits + k
    pub ranges : All InRange all_waits

  retry_from-IsReady :
      (fuel k n next : ℕ) (last : String) (waits : List ℕ)
      → k < fuel
      → every ≤ next
      → All InRange waits
      → IsFirst n k
      → IsReady n k waits (retry_from attempt waited every max_wait fuel n next last waits)
  unfolding retry_from after_attempt
  retry_from-IsReady zero k n next last waits enough le ranges h = absurd (omega arith)
  retry_from-IsReady (suc fuel) zero n next last waits enough le ranges h =
      let done : attempt n ≡ none = ap attempt (omega arith) ∙ h.success in
      rw done (record {
        all_waits = waits;
        ends_with =
            ap (λ m. some (record { attempts = m; ready = true; waits = waits })) (omega arith);
        number = omega arith;
        ranges = ranges;
      })
  retry_from-IsReady (suc fuel) (suc k) n next last waits enough le ranges h =
      let failed = h.failures n (omega arith) (omega arith) in
      let w = next_wait every max_wait next last failed.0 in
      let fine = next_wait-InRange next last failed.0 le in
      let rest =
        retry_from-IsReady fuel k (suc n) w failed.0 (waits ++ w ∷ []) (omega (arith, enough))
          fine.0 (All-append InRange waits w ranges fine)
          (record {
            success = ap attempt (omega arith) ∙ h.success;
            failures = λ i ge lt. h.failures i (omega (arith, ge)) (omega (arith, lt));
            ends = λ i ge lt. h.ends i (omega (arith, ge)) (omega (arith, lt));
          }) in
      rw (failed.1, h.ends n (omega arith) (omega arith))
        (record {
          all_waits = rest.all_waits;
          ends_with =
              rest.ends_with
              ∙ ap (λ m. some (record { attempts = m; ready = true; waits = rest.all_waits }))
                  (omega arith);
          number = omega (arith, rest.number, length-append waits (w ∷ []));
          ranges = rest.ranges;
        })

  -- The setup is reached: if attempt `k + 1` is the first that succeeds, and the context does not
  -- end before it, then retrySetup returns after it without an error, having waited `k` times,
  -- each time at least the interval and at most the maximum, which is not less than the interval.
  pub retry_setup-IsReady :
      (fuel k : ℕ)
      → k < fuel
      → IsFirst 1 k
      → IsReady 1 k [] (retry_setup attempt waited every max_wait fuel)
  unfolding retry_setup
  retry_setup-IsReady fuel k enough h =
      retry_from-IsReady fuel k 1 every "" [] enough (omega arith) tt h
