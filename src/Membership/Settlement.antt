-- ===== src/Membership/Settlement.antt =====
-- A payment is granted at most once, and only if it was paid.
use cloistr_relay.Prelude.{
  ℕ, suc, ◌≤◌, ◌≡◌, refl, ◌⊎◌, inl, inr, String, Bool, true, false, Option, none, some, List, [],
  ◌∷◌, ◌==◌, nat_eq, string_eq, ltb, if◌then◌else◌, All, arith, Bool-cases,
}
use mathlib.Core.Path.{subst}
use cloistr_relay.Membership.Payments.{
  settled, PendingPayment, is_pending, Grant, Phase, idle, found, verified, marked, read, State,
  put, set_phase, seen, begun, paid, checked,
}

-- How often a payment was granted.
abbrev pub times : String → List Grant → ℕ
times hash [] = 0
times hash (g ∷ gs) = let rest = times hash gs in if hash == g.payment_hash then suc rest else rest

-- A payment that is settled was granted at most once, any other one never.
abbrev pub IsOnce : Option PendingPayment → ℕ → Type 0
IsOnce none n = n ≡ 0
IsOnce (some p) n = (p.status ≡ settled) × (n ≤ 1) ⊎ (n ≡ 0)

-- The row is there, with that amount.
abbrev pub HasAmount : ℕ → Option PendingPayment → Type 0
HasAmount a none = ⊥
HasAmount a (some p) = p.amount_sats ≡ a

abbrev pub IsSettled : Option PendingPayment → Type 0
IsSettled none = ⊥
IsSettled (some p) = p.status ≡ settled

-- The webhook has marked the payment settled, and has still to grant it.
abbrev pub Holds : String → Phase → Type 0
Holds hash idle = ⊥
Holds hash (found h p) = ⊥
Holds hash (verified h p n) = ⊥
Holds hash (marked h p n) = hash ≡ h
Holds hash (read h p n m) = hash ≡ h

abbrev pub IsKnown : (String → Option PendingPayment) → Phase → Type 0
IsKnown payments idle = Unit
IsKnown payments (found hash p) = HasAmount p.amount_sats (payments hash)
IsKnown payments (verified hash p sats) =
    HasAmount p.amount_sats (payments hash) × (p.amount_sats ≤ sats)
IsKnown payments (marked hash p sats) =
    HasAmount p.amount_sats (payments hash) × (p.amount_sats ≤ sats) × IsSettled (payments hash)
IsKnown payments (read hash p sats m) =
    HasAmount p.amount_sats (payments hash) × (p.amount_sats ≤ sats) × IsSettled (payments hash)

abbrev pub IsPaid : (String → Option PendingPayment) → Grant → Type 0
IsPaid payments g = (a : ℕ) × HasAmount a (payments g.payment_hash) × (a ≤ g.sats)

pub record IsSound (s : State) : Type 0 where
  pub once : (hash : String) → IsOnce (s.payments hash) (times hash s.granted)
  pub known : (i : ℕ) → IsKnown s.payments (s.webhooks i)
  pub ungranted : (i : ℕ) (hash : String) → Holds hash (s.webhooks i) → times hash s.granted ≡ 0
  pub alone :
      (i j : ℕ) (hash : String) → Holds hash (s.webhooks i) → Holds hash (s.webhooks j) → i ≡ j
  pub grants_paid : All (IsPaid s.payments) s.granted

pub Holds-IsSettled :
    (payments : String → Option PendingPayment) (hash : String) (ph : Phase)
    → IsKnown payments ph
    → Holds hash ph
    → IsSettled (payments hash)
Holds-IsSettled payments hash idle k h = absurd h
Holds-IsSettled payments hash (found g p) k h = absurd h
Holds-IsSettled payments hash (verified g p n) k h = absurd h
Holds-IsSettled payments hash (marked g p n) k h = rw h k.2
Holds-IsSettled payments hash (read g p n m) k h = rw h k.2

-- No operation changes the amount of a payment, or removes one or its settlement.
abbrev pub Keeps : (String → Option PendingPayment) → (String → Option PendingPayment) → Type 0
Keeps old new =
    (hash : String)
    → ((a : ℕ) → HasAmount a (old hash) → HasAmount a (new hash))
      × (IsSettled (old hash) → IsSettled (new hash))

pub kept-IsKnown :
    (old new : String → Option PendingPayment) (ph : Phase)
    → Keeps old new
    → IsKnown old ph
    → IsKnown new ph
kept-IsKnown old new idle k h = tt
kept-IsKnown old new (found hash p) k h = (k hash).0 p.amount_sats h
kept-IsKnown old new (verified hash p n) k h = ((k hash).0 p.amount_sats h.0, h.1)
kept-IsKnown old new (marked hash p n) k h = ((k hash).0 p.amount_sats h.0, h.1, (k hash).1 h.2)
kept-IsKnown old new (read hash p n m) k h = ((k hash).0 p.amount_sats h.0, h.1, (k hash).1 h.2)

pub kept-IsPaid :
    (old new : String → Option PendingPayment) (gs : List Grant)
    → Keeps old new
    → All (IsPaid old) gs
    → All (IsPaid new) gs
kept-IsPaid old new [] k h = tt
kept-IsPaid old new (g ∷ gs) k h =
    let (a, has, enough) = h.0 in
    ((a, (k g.payment_hash).0 a has, enough), kept-IsPaid old new gs k h.1)

pub put-IsKnown :
    (payments : String → Option PendingPayment) (here : Bool) (new old : Phase)
    → IsKnown payments new
    → IsKnown payments old
    → IsKnown payments (put here new old)
put-IsKnown payments true new old h k = h
put-IsKnown payments false new old h k = k

-- Where webhook `i` goes on to a phase in which it holds only what it held.
pub put-held :
    (s : State) (i j : ℕ) (ph : Phase) (hash : String)
    → ((hash : String) → Holds hash ph → Holds hash (s.webhooks i))
    → Holds hash (put (j == i) ph (s.webhooks j))
    → Holds hash (s.webhooks j)
put-held s i j ph hash held h = elim (Bool-cases (j == i)) [
  | inl same ↦
      let here : Holds hash ph = rw same at h in
      let e : i ≡ j = ground (arith, same) in
      subst (λ k. Holds hash (s.webhooks k)) e (held hash here)
  | inr other ↦ rw other at h
]

-- A step of one webhook that leaves the tables alone, and holds only what it held.
pub phase-IsSound :
    (i : ℕ) (ph : Phase) (s : State)
    → ((hash : String) → Holds hash ph → Holds hash (s.webhooks i))
    → IsSound s
    → IsKnown s.payments ph
    → IsSound (set_phase i ph s)
unfolding set_phase
phase-IsSound i ph s held h k = record {
  once = h.once;
  known = λ j. put-IsKnown s.payments (j == i) ph (s.webhooks j) k (h.known j);
  ungranted = λ j hash x. h.ungranted j hash (put-held s i j ph hash held x);
  alone = λ j l hash x y.
      h.alone j l hash (put-held s i j ph hash held x) (put-held s i l ph hash held y);
  grants_paid = h.grants_paid;
}

pub seen-IsKnown :
    (payments : String → Option PendingPayment) (hash : String) (o : Option PendingPayment)
    → payments hash ≡ o
    → IsKnown payments (seen hash o)
unfolding seen
seen-IsKnown payments hash none at = tt
seen-IsKnown payments hash (some p) at = elim (Bool-cases (is_pending p.status)) [
  | inl open_one ↦ rw open_one (rw at refl)
  | inr closed ↦ rw closed tt
]

pub begun-IsKnown :
    (payments : String → Option PendingPayment) (old new : Phase)
    → IsKnown payments old
    → IsKnown payments new
    → IsKnown payments (begun old new)
unfolding begun
begun-IsKnown payments idle new h k = k
begun-IsKnown payments (found hash p) new h k = h
begun-IsKnown payments (verified hash p n) new h k = h
begun-IsKnown payments (marked hash p n) new h k = h
begun-IsKnown payments (read hash p n m) new h k = h

paid-IsKnown :
    (payments : String → Option PendingPayment) (answer : Option ℕ) (hash : String)
    (p : PendingPayment)
    → HasAmount p.amount_sats (payments hash)
    → IsKnown payments (paid answer hash p)
unfolding paid
paid-IsKnown payments none hash p h = tt
paid-IsKnown payments (some sats) hash p h = elim (Bool-cases (ltb sats p.amount_sats)) [
  | inl less ↦ rw less tt
  | inr enough ↦ rw enough (h, ground (arith, enough))
]

pub checked-IsKnown :
    (payments : String → Option PendingPayment) (answer : Option ℕ) (ph : Phase)
    → IsKnown payments ph
    → IsKnown payments (checked answer ph)
unfolding checked
checked-IsKnown payments answer idle h = tt
checked-IsKnown payments answer (found hash p) h = paid-IsKnown payments answer hash p h
checked-IsKnown payments answer (verified hash p n) h = h
checked-IsKnown payments answer (marked hash p n) h = h
checked-IsKnown payments answer (read hash p n m) h = h

seen-held : (hash g : String) (o : Option PendingPayment) → Holds g (seen hash o) → ⊥
unfolding seen
seen-held hash g none h = h
seen-held hash g (some p) h = elim (Bool-cases (is_pending p.status)) [
  | inl open_one ↦ rw open_one at h
  | inr closed ↦ rw closed at h
]

pub begun-held :
    (hash g : String) (old : Phase) (o : Option PendingPayment)
    → Holds g (begun old (seen hash o))
    → Holds g old
unfolding begun
begun-held hash g idle o h = seen-held hash g o h
begun-held hash g (found k p) o h = h
begun-held hash g (verified k p n) o h = h
begun-held hash g (marked k p n) o h = h
begun-held hash g (read k p n m) o h = h

paid-held :
    (answer : Option ℕ) (hash g : String) (p : PendingPayment) → Holds g (paid answer hash p) → ⊥
unfolding paid
paid-held none hash g p h = h
paid-held (some sats) hash g p h = elim (Bool-cases (ltb sats p.amount_sats)) [
  | inl less ↦ rw less at h
  | inr enough ↦ rw enough at h
]

pub checked-held :
    (answer : Option ℕ) (g : String) (ph : Phase) → Holds g (checked answer ph) → Holds g ph
unfolding checked
checked-held answer g idle h = h
checked-held answer g (found k p) h = paid-held answer k g p h
checked-held answer g (verified k p n) h = h
checked-held answer g (marked k p n) h = h
checked-held answer g (read k p n m) h = h
