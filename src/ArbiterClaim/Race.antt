-- ===== src/ArbiterClaim/Race.antt =====
-- What a sequence of claims makes of the table of internal/arbiterclaim/store.go.
use cloistr_relay.Prelude.{
  ℕ, ◌+◌, ◌≤◌, ◌<◌, String, ◌≡◌, refl, sym, ◌⊎◌, inl, inr, true, false, Option, some, List, [], ◌∷◌,
  arith, string_eq, All, In,
}
use cloistr_relay.Prelude.TextOrder.{text_lt, text_lt_irrefl, text_lt_trans}
use cloistr_relay.ArbiterClaim.Claim.{Claim}
use cloistr_relay.ArbiterClaim.Store.{
  Row, Table, Weather, Insert, abandoned, completed, timed_out_committed, table_after, insert_claim,
  try_claim,
}

-- One call of TryClaim, at a time of the database's clock.
pub record Attempt : Type 0 where
  pub now : ℕ
  pub weather : Weather
  pub claim : Claim

unfoldable pub step : ℕ → Attempt → Table → Table
step settle a t = (try_claim settle a.now a.weather a.claim t).1

-- The table after the attempts, in the order in which Postgres serves them.
unfoldable pub run : ℕ → List Attempt → Table → Table
run settle [] t = t
run settle (a ∷ rest) t = run settle rest (step settle a t)

module _ (settle : ℕ) (a : Attempt) (t : Table) (task : String) (row : Row) where
  -- A row stays, or is displaced by a lower event id inside the settle window.
  abbrev StaysOrFalls : Option Row → Type 0
  StaysOrFalls after =
      (after ≡ some row)
      ⊎ (after
          ≡ some (record {
            event_id = a.claim.event_id;
            claimant = a.claim.claimant;
            claimed_at = a.now;
          }))
        × (text_lt a.claim.event_id row.event_id ≡ true)
        × (a.now < row.claimed_at + settle)

  insert_row : t task ≡ some row → StaysOrFalls (insert_claim settle a.now a.claim t task)
  unfolding insert_claim
  insert_row e = ground arith

  table_row :
      t task ≡ some row → (i : Insert) → StaysOrFalls (table_after settle a.now a.claim t i task)
  unfolding table_after
  table_row e abandoned = inl e
  table_row e timed_out_committed = insert_row e
  table_row e completed = insert_row e

  step_row : t task ≡ some row → StaysOrFalls (step settle a t task)
  unfolding step try_claim
  step_row e = table_row e a.weather.insert

module _ (settle : ℕ) (task : String) where
  -- What the attempts make of a row: its event id does not grow, and is the id of the old row or of
  -- an attempt for the task.
  pub record Descends (attempts : List Attempt) (row : Row) (row' : Row) : Type 0 where
    pub not_above : text_lt row.event_id row'.event_id ≡ false
    pub origin :
        (row'.event_id ≡ row.event_id)
        ⊎ ((a : Attempt) × In a attempts × (a.claim.event_id ≡ row'.event_id))

  pub run_row :
      (attempts : List Attempt) (t : Table) (row : Row)
      → t task ≡ some row
      → (row' : Row) × (run settle attempts t task ≡ some row') × Descends attempts row row'
  unfolding run
  run_row [] t row e =
      (row, e, record { not_above = text_lt_irrefl row.event_id; origin = inl refl })
  run_row (a ∷ rest) t row e = elim (step_row settle a t task row e) [
    | inl same ↦
        let (row', e', d) = run_row rest (step settle a t) row same in
        (
          row',
          e',
          record {
            not_above = d.not_above;
            origin = elim d.origin [ inl o ↦ inl o | inr o ↦ inr (o.0, inr o.1, o.2) ];
          },
        )
    | inr new ↦
        let (row', e', d) = run_row rest (step settle a t) _ new.0 in
        (
          row',
          e',
          record {
            not_above = ground (
              arith,
              text_lt_trans a.claim.event_id row.event_id row'.event_id,
              d.not_above,
              new.1,
            );
            origin = elim d.origin [
              | inl o ↦ inr (a, inl refl, sym o)
              | inr o ↦ inr (o.0, inr o.1, o.2)
            ];
          },
        )
  ]

-- A holder is only ever displaced by a lower event id: whatever attempts follow, for any tasks, at
-- any times and with any failures, a claimed task stays claimed, and the event id of its holder
-- never grows.
pub run-fencing :
    (settle : ℕ) (task : String) (attempts : List Attempt) (t : Table) (row : Row)
    → t task ≡ some row
    → (row' : Row) × (run settle attempts t task ≡ some row')
      × (text_lt row.event_id row'.event_id ≡ false)
run-fencing settle task attempts t row e =
    let (row', e', d) = run_row settle task attempts t row e in (row', e', d.not_above)

-- A claim is final once its settle window is over: no attempt at or after that time changes the
-- row, whatever its event id.
pub run_final :
    (settle : ℕ) (task : String) (attempts : List Attempt) (t : Table) (row : Row)
    → t task ≡ some row
    → All (λ (a : Attempt). row.claimed_at + settle ≤ a.now) attempts
    → run settle attempts t task ≡ some row
unfolding run
run_final settle task [] t row e late = e
run_final settle task (a ∷ rest) t row e late = elim (step_row settle a t task row e) [
  | inl same ↦ run_final settle task rest (step settle a t) row same late.1
  | inr new ↦ absurd (omega (arith, new.2, late.0))
]
