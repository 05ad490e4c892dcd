-- ===== src/ArbiterClaim/Winner.antt =====
-- Concurrent claims for one task (internal/arbiterclaim/store.go) and the tie-break that the clients
-- apply to the same claims (Winner of claim.go).
use cloistr_relay.Prelude.{
  ℕ, ◌+◌, ◌≤◌, ◌<◌, String, ◌≡◌, ◌≢◌, refl, ◌∙◌, sym, ap, inl, inr, false, none, some, List, [],
  ◌∷◌, map, arith, string_eq, eq_iff, All, In, All-In, if◌then◌else◌,
}
use cloistr_relay.Prelude.Sorting.{IsLeast, sort-IsLeast}
use cloistr_relay.Prelude.TextOrder.{text_lt, text_lt_irrefl, text_lt_trans, text_lt_total}
use cloistr_relay.ArbiterClaim.Claim.{Claim, winner, before}
use cloistr_relay.ArbiterClaim.Store.{
  Row, Table, abandoned, table_after, insert_claim, holder, try_claim,
}
use cloistr_relay.ArbiterClaim.Race.{Attempt, step, run, Descends, run_row}

not_lt_trans : (a b c : String) → text_lt a b ≡ false → text_lt b c ≡ false → text_lt a c ≡ false
not_lt_trans a b c p q = ground (arith, text_lt_total b c, text_lt_trans a c b)

holder_row :
    (t : Table) (task : String) (row : Row) → t task ≡ some row → holder t task ≡ row.event_id
unfolding holder
holder_row t task row e = ground arith

module _ (settle : ℕ) (task : String) (start : ℕ) where
  -- The attempt is for the task, inside the window that begins at `start`, and its INSERT commits.
  pub record IsConcurrent (a : Attempt) : Type 0 where
    pub for_task : a.claim.task_id ≡ task
    pub late_enough : start ≤ a.now
    pub early_enough : a.now < start + settle
    pub commits : a.weather.insert ≢ abandoned

  abbrev claimed : Attempt → Row
  claimed a = record {
    event_id = a.claim.event_id;
    claimant = a.claim.claimant;
    claimed_at = a.now;
  }

  abbrev lower : Attempt → Row → Row
  lower a row = if text_lt a.claim.event_id row.event_id then claimed a else row

  step_first :
      (a : Attempt) (t : Table)
      → t task ≡ none
      → IsConcurrent a
      → step settle a t task ≡ some (claimed a)
  unfolding step try_claim table_after insert_claim
  step_first a t e c = ground (arith, eq_iff task a.claim.task_id)

  step-lower :
      (a : Attempt) (t : Table) (row : Row)
      → t task ≡ some row
      → start ≤ row.claimed_at
      → IsConcurrent a
      → step settle a t task ≡ some (lower a row)
  unfolding step try_claim table_after insert_claim
  step-lower a t row e s c = ground (arith, eq_iff task a.claim.task_id)

  -- In the window, the row that is left is not above any of the ids that were tried.
  run_lowest :
      (attempts : List Attempt) (t : Table) (row row' : Row)
      → t task ≡ some row
      → start ≤ row.claimed_at
      → All IsConcurrent attempts
      → run settle attempts t task ≡ some row'
      → All (λ (a : Attempt). text_lt a.claim.event_id row'.event_id ≡ false) attempts
  unfolding run
  run_lowest [] t row row' e s all end = tt
  run_lowest (a ∷ rest) t row row' e s all end =
      let next = step-lower a t row e s all.0 in
      let recent : start ≤ (lower a row).claimed_at = ground (arith, all.0.late_enough) in
      let below : text_lt a.claim.event_id (lower a row).event_id ≡ false =
        ground (arith, text_lt_irrefl a.claim.event_id) in
      let (x, ex, d) = run_row settle task rest (step settle a t) (lower a row) next in
      let same : x ≡ row' = cc in
      (
        not_lt_trans a.claim.event_id (lower a row).event_id row'.event_id below
            (rw (← same) d.not_above),
        run_lowest rest (step settle a t) (lower a row) row' next recent all.1 end,
      )

  In-claims :
      (attempts : List Attempt) (a : Attempt)
      → In a attempts
      → In a.claim (map (λ (b : Attempt). b.claim) attempts)
  In-claims [] a i = absurd i
  In-claims (b ∷ rest) a (inl e) = inl (ap (λ (x : Attempt). x.claim) e)
  In-claims (b ∷ rest) a (inr i) = inr (In-claims rest a i)

  In-attempts :
      (attempts : List Attempt) (c : Claim)
      → In c (map (λ (b : Attempt). b.claim) attempts)
      → (a : Attempt) × In a attempts × (a.claim ≡ c)
  In-attempts [] c i = absurd i
  In-attempts (b ∷ rest) c (inl e) = (b, inl refl, sym e)
  In-attempts (b ∷ rest) c (inr i) = let (a, j, e) = In-attempts rest c i in (a, inr j, e)

  -- The id of the row that is left is an id that was tried.
  run_tried :
      (a : Attempt) (rest : List Attempt) (row' : Row)
      → Descends settle task rest (claimed a) row'
      → (b : Attempt) × In b (a ∷ rest) × (b.claim.event_id ≡ row'.event_id)
  run_tried a rest row' d = elim d.origin [
    | inl same ↦ (a, inl refl, sym same)
    | inr (b, i, e) ↦ (b, inr i, e)
  ]

  abbrev claims_of : List Attempt → List Claim
  claims_of attempts = map (λ (b : Attempt). b.claim) attempts

  -- The store agrees with the clients' tie-break: if claims for a free task arrive inside one settle
  -- window and their INSERTs commit (their callers may still see a timeout or a failed read), the
  -- holder is the event that `winner` chooses among all of them, in whatever order they arrive.
  pub run-winner :
      (a : Attempt) (rest : List Attempt) (t : Table) (w : Claim)
      → t task ≡ none
      → All IsConcurrent (a ∷ rest)
      → winner (claims_of (a ∷ rest)) ≡ some w
      → holder (run settle (a ∷ rest) t) task ≡ w.event_id
  unfolding run winner
  run-winner a rest t w free all e =
      let next = step_first a t free all.0 in
      let (row', ex, d) = run_row settle task rest (step settle a t) (claimed a) next in
      let ids =
        run_lowest rest (step settle a t) (claimed a) row' next all.0.late_enough all.1 ex in
      let least : IsLeast before w (claims_of (a ∷ rest)) =
        sort-IsLeast before (λ x. text_lt_irrefl x.event_id)
          (λ x y z. text_lt_trans x.event_id y.event_id z.event_id) (claims_of (a ∷ rest)) w e in
      let (b, i, tried) = In-attempts (a ∷ rest) w least.member in
      let not_above =
        All-In (λ (x : Attempt). text_lt x.claim.event_id row'.event_id ≡ false) b (a ∷ rest)
          (d.not_above, ids) i in
      let (c, j, holds) = run_tried a rest row' d in
      let not_below = least.least c.claim (In-claims (a ∷ rest) c j) in
      holder_row (run settle (a ∷ rest) t) task row' ex
      ∙ text_lt_total row'.event_id w.event_id (rw (← holds) not_below) (rw tried at not_above)
