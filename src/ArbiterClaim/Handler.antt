-- ===== src/ArbiterClaim/Handler.antt =====
-- The handler of internal/arbiterclaim/handler.go: what its answer says of the table.
use cloistr_relay.Prelude.{
  ℕ, String, ◌≡◌, ◌≢◌, refl, ◌∙◌, ap, ◌⊎◌, inl, inr, true, false, Option, some, arith, string_eq,
  eq_iff, [], ◌∷◌, Bool-cases,
}
use cloistr_relay.Nostr.{Event, msg, str, accept, reject}
use cloistr_relay.ArbiterClaim.Claim.{
  Claim, is_claim, validate, Checked, malformed, well_formed, task_id_of,
}
use cloistr_relay.ArbiterClaim.Store.{
  Row, Table, Weather, Insert, completed, table_after, insert_claim, holder, try_claim, handle,
  handle_checked, outcome, Outcome, won, lost, store_error, lost_to, answer, displaces,
}

module _ (settle now : ℕ) (w : Weather) (e : Event) (t : Table) where
  validate-fields :
      (c : Claim)
      → validate e ≡ well_formed c
      → (c.event_id ≡ e.id) × (c.claimant ≡ e.pubkey) × (c.task_id ≡ task_id_of e)
  unfolding validate
  validate-fields c v = ground arith

  answer-accept : (c : Claim) (o : Outcome) → answer c o ≡ accept → o ≡ won
  unfolding answer
  answer-accept c won a = refl
  answer-accept c (lost winner) a = absurd (ground arith)
  answer-accept c store_error a = absurd (ground arith)

  answer-conflict :
      (c : Claim) (task winner : String) (o : Outcome)
      → answer c o
        ≡ reject (msg "conflict: task %s already claimed by event %s" (str task ∷ str winner ∷ []))
      → (task ≡ c.task_id) × (o ≡ lost winner)
  unfolding answer
  answer-conflict c task winner won a = absurd (ground arith)
  answer-conflict c task winner (lost other) a = ground arith
  answer-conflict c task winner store_error a = absurd (ground arith)

  not_displaced :
      (c : Claim) (s : String)
      → displaces settle now c (t c.task_id) ≡ false
      → insert_claim settle now c t s ≡ t s
  unfolding insert_claim
  not_displaced c s kept = ground (arith, eq_iff s c.task_id)

  outcome-won :
      (c : Claim) (i : Insert)
      → outcome settle now w c t i ≡ won
      → table_after settle now c t i c.task_id
        ≡ some (record { event_id = c.event_id; claimant = c.claimant; claimed_at = now })
  unfolding outcome table_after insert_claim lost_to
  outcome-won c i o = ground (arith, eq_iff c.task_id c.task_id)

  outcome-lost :
      (c : Claim) (i : Insert) (winner : String)
      → outcome settle now w c t i ≡ lost winner
      → (holder t c.task_id ≡ winner)
        × (winner ≢ "")
        × (i ≡ completed)
        × (displaces settle now c (t c.task_id) ≡ false)
  unfolding outcome lost_to
  outcome-lost c i winner o = ground (arith, eq_iff winner "")

  table_after-frame :
      (c : Claim) (i : Insert) (task : String)
      → task ≢ c.task_id
      → table_after settle now c t i task ≡ t task
  unfolding table_after insert_claim
  table_after-frame c i task other = ground (arith, eq_iff task c.task_id)

  checked-accept :
      (k : Checked)
      → validate e ≡ k
      → (handle_checked settle now w t k).0 ≡ accept
      → (handle_checked settle now w t k).1 (task_id_of e)
        ≡ some (record { event_id = e.id; claimant = e.pubkey; claimed_at = now })
  unfolding handle_checked try_claim table_after
  checked-accept (malformed reason) v ok = absurd (ground arith)
  checked-accept (well_formed c) v ok =
      let (id, who, task) = validate-fields c v in
      let row = outcome-won c w.insert (answer-accept c (outcome settle now w c t w.insert) ok) in
      ground (arith, row, id, who, task)

  checked-frame :
      (k : Checked) (task : String)
      → validate e ≡ k
      → task ≢ task_id_of e
      → (handle_checked settle now w t k).1 task ≡ t task
  unfolding handle_checked try_claim table_after
  checked-frame (malformed reason) task v other = refl
  checked-frame (well_formed c) task v other =
      table_after-frame c w.insert task (ground (arith, validate-fields c v))

  -- What a conflict says of the table: the task it names is the claim's, the event id it names is
  -- that of the holder, and no task has changed hands.
  abbrev pub IsConflict : String → String → (String → Option Row) → Type 0
  IsConflict task winner after =
      (task ≡ task_id_of e)
      × (holder t task ≡ winner)
      × (winner ≢ "")
      × ((s : String) → after s ≡ t s)

  checked-IsConflict :
      (k : Checked) (task winner : String)
      → validate e ≡ k
      → (handle_checked settle now w t k).0
        ≡ reject (msg "conflict: task %s already claimed by event %s" (str task ∷ str winner ∷ []))
      → IsConflict task winner (handle_checked settle now w t k).1
  unfolding handle_checked try_claim table_after
  checked-IsConflict (malformed reason) task winner v refused = absurd (ground arith)
  checked-IsConflict (well_formed c) task winner v refused =
      let (names, o) = answer-conflict c task winner (outcome settle now w c t w.insert) refused in
      let (held, nonempty, done, kept) = outcome-lost c w.insert winner o in
      let (id, who, same) = validate-fields c v in
      (
        names ∙ same,
        ap (holder t) names ∙ held,
        nonempty,
        λ s. ap (λ (i : Insert). table_after settle now c t i s) done ∙ not_displaced c s kept,
      )

  -- A claim that is accepted holds its task: after the handler, the row of the claim's task is the
  -- event's id and author, taken at the database's time.
  pub handle-accept :
      is_claim e ≡ true
      → (handle settle now w e t).0 ≡ accept
      → (handle settle now w e t).1 (task_id_of e)
        ≡ some (record { event_id = e.id; claimant = e.pubkey; claimed_at = now })
  unfolding handle
  handle-accept claim = rw claim (checked-accept (validate e) refl)

  -- The handler leaves every task alone other than the claim's own, and every task if the event is
  -- no claim.
  pub handle-frame :
      (task : String)
      → (is_claim e ≡ false) ⊎ (task ≢ task_id_of e)
      → (handle settle now w e t).1 task ≡ t task
  unfolding handle
  handle-frame task (inl e) = rw e
  handle-frame task (inr other) = elim (Bool-cases (is_claim e)) [
    | inl b ↦ rw b (checked-frame (validate e) task refl other)
    | inr b ↦ rw b
  ]

  -- A conflict is truthful and harmless: if the handler answers that a task is already claimed by an
  -- event, then the task is the claim's own, that event holds it, and the handler has left every
  -- task as it was.
  pub handle-IsConflict :
      (task winner : String)
      → (handle settle now w e t).0
        ≡ reject (msg "conflict: task %s already claimed by event %s" (str task ∷ str winner ∷ []))
      → IsConflict task winner (handle settle now w e t).1
  unfolding handle
  handle-IsConflict task winner = elim (Bool-cases (is_claim e)) [
    | inl b ↦ rw b (checked-IsConflict (validate e) task winner refl)
    | inr b ↦ rw b (λ impossible. absurd (ground (arith, impossible)))
  ]
