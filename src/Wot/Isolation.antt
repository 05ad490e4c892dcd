-- ===== src/Wot/Isolation.antt =====
-- Which buckets an event may change (RejectEventByTrust of internal/wot/trust.go).
use cloistr_relay.Prelude.{
  ℕ, ◌≤◌, String, ◌≡◌, ◌≢◌, refl, ◌⊎◌, inl, inr, true, ◌&&◌, arith, ◌==◌, nat_eq, string_eq, eq_iff,
  contains, ltb, Bool-cases,
}
use cloistr_relay.Nostr.{Event}
use cloistr_relay.Wot.Trust.{TrustLevel}
use cloistr_relay.Wot.Gate.{
  Handler, Buckets, Charge, free, collab, general, draw, collab_key, charge, rate_limit, is_exempt,
  gate, get_trust_level, reject_event_by_trust,
}

draw-frame :
    (now rate : ℕ) (key other : String) (buckets : Buckets)
    → other ≢ key
    → (draw now rate key buckets).1 other ≡ buckets other
unfolding draw
draw-frame now rate key other buckets apart = ground (arith, eq_iff other key)

-- The bucket that the charge draws from is not this one.
abbrev Spares : String → String → Charge → Type 0
Spares pubkey key free = Unit
Spares pubkey key (collab rate) = key ≢ collab_key pubkey
Spares pubkey key (general rate) = key ≢ pubkey

rate_limit-frame :
    (now : ℕ) (level : TrustLevel) (pubkey key : String) (c : Charge) (buckets : Buckets)
    → Spares pubkey key c
    → (rate_limit now level pubkey c buckets).1 key ≡ buckets key
unfolding rate_limit
rate_limit-frame now level pubkey key free buckets s = refl
rate_limit-frame now level pubkey key (collab rate) buckets s =
    draw-frame now rate (collab_key pubkey) key buckets s
rate_limit-frame now level pubkey key (general rate) buckets s =
    draw-frame now rate pubkey key buckets s

charge-Spares :
    (h : Handler) (kind rate : ℕ) (pubkey key : String)
    → key ≢ collab_key pubkey
    → (key ≢ pubkey) ⊎ (contains h.collab_kinds kind ≡ true) × (1 ≤ h.collab_rate)
    → Spares pubkey key (charge h kind rate)
unfolding charge
charge-Spares h kind rate pubkey key apart why = elim (Bool-cases (rate == 0)) [
  | inl z ↦ rw z tt
  | inr nz ↦ rw nz (elim (Bool-cases (contains h.collab_kinds kind && ltb 0 h.collab_rate)) [
    | inl c ↦ rw c apart
    | inr g ↦ rw g (elim why [ inl other ↦ other | inr both ↦ absurd (ground (arith, g, both)) ])
  ])
]

-- What a call does to the buckets.
reject_event_by_trust-Spares :
    (h : Handler) (now : ℕ) (authed : String) (event : Event) (buckets : Buckets) (key : String)
    → Spares event.pubkey key
        (charge h event.kind (h.policies (get_trust_level h event.pubkey)).events_per_second)
    → (reject_event_by_trust h now authed event buckets).1 key ≡ buckets key
unfolding reject_event_by_trust gate
reject_event_by_trust-Spares h now authed event buckets key s =
    let level = get_trust_level h event.pubkey in
    let rate = (h.policies level).events_per_second in
    let same = rate_limit-frame now level event.pubkey key (charge h event.kind rate) buckets s in
    elim (Bool-cases (is_exempt h event)) [ inl e ↦ rw e | inr e ↦ rw e same ]

module _ (h : Handler) (now : ℕ) (authed : String) (event : Event) (buckets : Buckets) where
  -- A collaboration event, for a relay that keeps a bucket of its own for them.
  abbrev pub IsCollab : Type 0
  IsCollab = (contains h.collab_kinds event.kind ≡ true) × (1 ≤ h.collab_rate)

  -- Typing never starves a save: a collaboration event leaves every bucket as it was but the
  -- author's own collaboration bucket, so that no author's general bucket changes.
  pub reject_event_by_trust-collab :
      IsCollab
      → (key : String) → key ≢ collab_key event.pubkey
      → (reject_event_by_trust h now authed event buckets).1 key ≡ buckets key
  reject_event_by_trust-collab is_collab key other =
      reject_event_by_trust-Spares h now authed event buckets key (
        charge-Spares h event.kind (h.policies (get_trust_level h event.pubkey)).events_per_second
          event.pubkey key other (inr is_collab))

  -- Nobody can drain the bucket of another: whatever the event, the buckets of all keys but the
  -- author's two are as they were.
  pub reject_event_by_trust-frame :
      (key : String)
      → key ≢ event.pubkey
      → key ≢ collab_key event.pubkey
      → (reject_event_by_trust h now authed event buckets).1 key ≡ buckets key
  reject_event_by_trust-frame key mine theirs =
      reject_event_by_trust-Spares h now authed event buckets key (
        charge-Spares h event.kind (h.policies (get_trust_level h event.pubkey)).events_per_second
          event.pubkey key theirs (inl mine))
