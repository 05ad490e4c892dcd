-- ===== src/Membership/Payments.antt =====
-- internal/membership: payments (payments.go), the webhook that settles them (http.go), the upgrade of
-- a member's tier (store.go) and the sweep (scheduler.go). Several webhooks run at once: every query
-- is a step of its own. Times are seconds, and 0 is Go's zero time.
use cloistr_relay.Prelude.{
  ℕ, ◌+◌, ◌-◌, ◌*◌, String, Bool, true, false, not, ◌&&◌, Option, none, some, List, [], ◌∷◌, ◌==◌,
  nat_eq, string_eq, ltb, contains, if◌then◌else◌,
}
use cloistr_relay.Membership.Join.{Member}

pub data PaymentStatus : Type 0 where
  pending settled expired : PaymentStatus

pub record PendingPayment : Type 0 where
  pub pubkey : String
  pub tier : String
  pub amount_sats : ℕ
  pub period_days : ℕ
  pub status : PaymentStatus
  pub created_at : ℕ

abbrev pub is_pending : PaymentStatus → Bool
is_pending pending = true
is_pending settled = false
is_pending expired = false

-- A payment that was granted: its hash, and the amount that the Lightning node said was paid.
pub record Grant : Type 0 where
  pub payment_hash : String
  pub sats : ℕ

-- How far a webhook is: it has found a pending payment; the Lightning node has said that it is paid
-- (with the amount, which it keeps); it has marked it settled; it has read the member's row.
pub data Phase : Type 0 where
  idle : Phase
  found : String → PendingPayment → Phase
  verified : String → PendingPayment → ℕ → Phase
  marked : String → PendingPayment → ℕ → Phase
  read : String → PendingPayment → ℕ → Member → Phase

-- The two tables, the webhooks, and the payments for which UpdateTier was executed, latest first.
pub record State : Type 0 where
  pub payments : String → Option PendingPayment
  pub members : String → Option Member
  pub webhooks : ℕ → Phase
  pub granted : List Grant

-- A step of webhook `i`, with what it is told: the hash of its body; the Lightning node's answer, the
-- amount if it is paid; whether a statement is executed, the clock, and whether MarkSettled returns no
-- error if its statement is executed. Or the creation of a payment, with a new hash, or the sweep.
pub data Move : Type 0 where
  look_up : ℕ → String → Move
  check_payment : ℕ → Option ℕ → Move
  mark_settled : ℕ → Bool → Bool → Move
  get_member : ℕ → Bool → Move
  update_tier : ℕ → Bool → ℕ → Move
  create : String → PendingPayment → Bool → Move
  sweep : ℕ → ℕ → Move

abbrev pub put : {K : Type 0} → Bool → K → K → K
put here new old = if here then new else old

unfoldable pub set_phase : ℕ → Phase → State → State
set_phase i p s = record s { webhooks = λ j. put (j == i) p (s.webhooks j) }

unfoldable pub seen : String → Option PendingPayment → Phase
seen hash none = idle
seen hash (some p) = if is_pending p.status then found hash p else idle

-- A webhook begins when it is idle.
unfoldable pub begun : Phase → Phase → Phase
begun idle new = new
begun (found hash p) new = found hash p
begun (verified hash p n) new = verified hash p n
begun (marked hash p n) new = marked hash p n
begun (read hash p n m) new = read hash p n m

unfoldable pub paid : Option ℕ → String → PendingPayment → Phase
paid none hash p = idle
paid (some sats) hash p = if ltb sats p.amount_sats then idle else verified hash p sats

unfoldable pub checked : Option ℕ → Phase → Phase
unfolding paid
checked answer (found hash p) = paid answer hash p
checked answer idle = idle
checked answer (verified hash p n) = verified hash p n
checked answer (marked hash p n) = marked hash p n
checked answer (read hash p n m) = read hash p n m

abbrev pub settled_row : PendingPayment → PendingPayment
settled_row p = record p { status = settled }

-- UPDATE … WHERE payment_hash = $2 AND status = 'pending' on the row of the hash; `none` is no row.
unfoldable pub settle_row : Option PendingPayment → Option PendingPayment
settle_row none = none
settle_row (some p) = if is_pending p.status then some (settled_row p) else none

-- MarkSettled: an error, also that no row is pending, ends the webhook.
unfoldable pub settle_with :
    ℕ → Bool → String → PendingPayment → ℕ → Option PendingPayment → State → State
unfolding set_phase
settle_with i answered hash p sats none s = set_phase i idle s
settle_with i answered hash p sats (some row) s =
    set_phase i (if answered then marked hash p sats else idle)
      (record s { payments = λ h. put (h == hash) (some row) (s.payments h) })

unfoldable pub settle_phase : ℕ → Bool → Bool → Phase → State → State
unfolding settle_with settle_row set_phase
settle_phase i executed answered (verified hash p sats) s =
    if executed
    then settle_with i answered hash p sats (settle_row (s.payments hash)) s
    else set_phase i idle s
settle_phase i executed answered idle s = s
settle_phase i executed answered (found hash p) s = s
settle_phase i executed answered (marked hash p n) s = s
settle_phase i executed answered (read hash p n m) s = s

unfoldable pub member_read : String → PendingPayment → ℕ → Option Member → Phase
member_read hash p n none = idle
member_read hash p n (some m) = read hash p n m

unfoldable pub member_phase : Bool → (String → Option Member) → Phase → Phase
unfolding member_read
member_phase executed members (marked hash p n) =
    if executed then member_read hash p n (members p.pubkey) else idle
member_phase executed members idle = idle
member_phase executed members (found hash p) = found hash p
member_phase executed members (verified hash p n) = verified hash p n
member_phase executed members (read hash p n m) = read hash p n m

-- The new expiry: the period from now on, or from the current expiry if that is later.
unfoldable pub extended : ℕ → PendingPayment → Member → ℕ
extended now p m =
    (if not (m.tier_expires_at == 0) && ltb now m.tier_expires_at then m.tier_expires_at else now)
    + p.period_days * 86400

unfoldable pub upgraded : String → ℕ → Option Member → Option Member
upgraded tier expiry none = none
upgraded tier expiry (some m) = some (record m { tier = tier; tier_expires_at = expiry })

unfoldable pub upgrade_phase : ℕ → Bool → ℕ → Phase → State → State
unfolding set_phase extended upgraded
upgrade_phase i executed now (read hash p n m) s = set_phase i idle (record s {
  members = λ k.
      put (executed && k == p.pubkey) (upgraded p.tier (extended now p m) (s.members k))
        (s.members k);
  granted = if executed then (record { payment_hash = hash; sats = n }) ∷ s.granted else s.granted;
})
upgrade_phase i executed now idle s = s
upgrade_phase i executed now (found hash p) s = s
upgrade_phase i executed now (verified hash p n) s = s
upgrade_phase i executed now (marked hash p n) s = s

unfoldable pub known_tiers : List String
known_tiers = "free" ∷ "hybrid" ∷ "premium" ∷ "enterprise" ∷ []

unfoldable pub is_valid_payment : String → PendingPayment → Bool
is_valid_payment hash p =
    not (hash == "")
    && not (p.pubkey == "")
    && contains known_tiers p.tier
    && ltb 0 p.amount_sats
    && ltb 0 p.period_days

abbrev pub or_else : Option PendingPayment → PendingPayment → Option PendingPayment
or_else none p = some (record p { status = pending })
or_else (some old) p = some old

-- MarkExpired and ResetExpiredTiers on a row.
unfoldable pub expired_row : ℕ → Option PendingPayment → Option PendingPayment
expired_row cutoff none = none
expired_row cutoff (some p) =
    some
      (if is_pending p.status && ltb p.created_at cutoff then record p { status = expired } else p)

unfoldable pub reset_row : ℕ → Option Member → Option Member
reset_row now none = none
reset_row now (some m) = some (
    if not (m.tier == "free") && not (m.tier_expires_at == 0) && ltb m.tier_expires_at now
    then record m { tier = "free" }
    else m)

unfoldable pub step : Move → State → State
unfolding set_phase seen checked settle_phase member_phase upgrade_phase is_valid_payment
    expired_row reset_row
step (look_up i hash) s = set_phase i (begun (s.webhooks i) (seen hash (s.payments hash))) s
step (check_payment i answer) s = set_phase i (checked answer (s.webhooks i)) s
step (mark_settled i executed answered) s = settle_phase i executed answered (s.webhooks i) s
step (get_member i executed) s = set_phase i (member_phase executed s.members (s.webhooks i)) s
step (update_tier i executed now) s = upgrade_phase i executed now (s.webhooks i) s
step (create hash p executed) s = record s {
  payments = λ h.
      put (executed && is_valid_payment hash p && h == hash) (or_else (s.payments h) p)
        (s.payments h);
}
step (sweep now max_age) s = record s {
  payments = λ h. expired_row (now - max_age) (s.payments h);
  members = λ k. reset_row now (s.members k);
}

unfoldable pub run : List Move → State → State
unfolding step
run [] s = s
run (m ∷ ms) s = run ms (step m s)
