-- ===== src/Membership/Grants.antt =====
-- No step of the webhooks grants a payment twice.
use cloistr_relay.Prelude.{
  ℕ, suc, ◌≤◌, ◌≡◌, refl, ap, ◌∙◌, ◌⊎◌, inl, inr, String, Bool, true, false, Option, none, some,
  ◌==◌, nat_eq, string_eq, eq_iff, if◌then◌else◌, sym, arith, Bool-cases,
}
use mathlib.Core.Path.{subst}
use cloistr_relay.Membership.Join.{Member}
use cloistr_relay.Membership.Payments.{
  PendingPayment, settled, is_pending, Phase, idle, found, verified, marked, read, State, put,
  set_phase, settled_row, settle_row, settle_with, settle_phase, member_read, member_phase,
  upgrade_phase,
}
use cloistr_relay.Membership.Settlement.{
  times, IsOnce, HasAmount, IsSettled, Holds, Holds-IsSettled, IsKnown, IsSound, Keeps,
  kept-IsKnown, kept-IsPaid, put-IsKnown, phase-IsSound,
}

settled_from :
    (o : Option PendingPayment) (row : PendingPayment)
    → settle_row o ≡ some row
    → (p : PendingPayment) × (o ≡ some p) × (is_pending p.status ≡ true) × (row ≡ settled_row p)
unfolding settle_row
settled_from none row h = absurd (ground (arith, h))
settled_from (some p) row h = (p, refl, ground (arith, h), ground (arith, h))

-- The row of a payment that is marked settled, and how often it was granted.
settled_row-IsOnce :
    (p row : PendingPayment) (n : ℕ)
    → is_pending p.status ≡ true
    → row ≡ settled_row p
    → IsOnce (some p) n
    → IsOnce (some row) n
settled_row-IsOnce p row n is same h =
    ground (arith, is, h, ap (λ (r : PendingPayment). r.status) same)

pending-ungranted :
    (p : PendingPayment) (n : ℕ) → is_pending p.status ≡ true → IsOnce (some p) n → n ≡ 0
pending-ungranted p n is h = ground (arith, is, h)

pending-unsettled : (p : PendingPayment) → is_pending p.status ≡ true → p.status ≡ settled → ⊥
pending-unsettled p is h = ground (arith, is, h)

module _ (i : ℕ) (hash : String) (p : PendingPayment) (sats : ℕ) (s : State) (row : PendingPayment)
    (settles : settle_row (s.payments hash) ≡ some row) where
  abbrev after : String → Option PendingPayment
  after h = put (h == hash) (some row) (s.payments h)

  settled-Keeps : Keeps s.payments after
  settled-Keeps h = elim (Bool-cases (h == hash)) [
    | inl same ↦
        let (p₀, at, open_one, row_is) = settled_from (s.payments hash) row settles in
        let here : s.payments h ≡ some p₀ = ap s.payments ((eq_iff h hash).0 same) ∙ at in
        rw (same, here)
          (
            λ a has. ap (λ (r : PendingPayment). r.amount_sats) row_is ∙ has,
            λ set_before. ap (λ (r : PendingPayment). r.status) row_is,
          )
    | inr differs ↦ rw differs (λ a has. has, λ before. before)
  ]

  settled-IsOnce :
      (h : String)
      → IsOnce (s.payments h) (times h s.granted)
      → IsOnce (after h) (times h s.granted)
  settled-IsOnce h once = elim (Bool-cases (h == hash)) [
    | inl same ↦
        let (p₀, at, open_one, row_is) = settled_from (s.payments hash) row settles in
        let here : s.payments h ≡ some p₀ = ap s.payments ((eq_iff h hash).0 same) ∙ at in
        let old : IsOnce (some p₀) (times h s.granted) = rw here at once in
        rw same (settled_row-IsOnce p₀ row (times h s.granted) open_one row_is old)
    | inr differs ↦ rw differs once
  ]

  row-IsSettled : IsSettled (after hash)
  row-IsSettled =
      let (p₀, at, open_one, row_is) = settled_from (s.payments hash) row settles in
      let me : (hash == hash) ≡ true = (eq_iff hash hash).1 refl in
      rw me (ap (λ (r : PendingPayment). r.status) row_is)

  -- Before, nobody held the payment, and it was not granted.
  unheld : IsSound s → (j : ℕ) → Holds hash (s.webhooks j) → ⊥
  unheld h j holds =
      let (p₀, at, open_one, row_is) = settled_from (s.payments hash) row settles in
      let was = Holds-IsSettled s.payments hash (s.webhooks j) (h.known j) holds in
      pending-unsettled p₀ open_one (rw at at was)

  fresh_hash : IsSound s → times hash s.granted ≡ 0
  fresh_hash h =
      let (p₀, at, open_one, row_is) = settled_from (s.payments hash) row settles in
      pending-ungranted p₀ (times hash s.granted) open_one (rw at at (h.once hash))

  -- The phase of webhook `j` then, and what it holds.
  now_held :
      (j : ℕ) (g : String)
      → Holds g (put (j == i) (marked hash p sats) (s.webhooks j))
      → (j ≡ i) × (g ≡ hash) ⊎ Holds g (s.webhooks j)
  now_held j g x = elim (Bool-cases (j == i)) [
    | inl same ↦
        let e : j ≡ i = ground (arith, same) in
        let k : Holds g (marked hash p sats) = rw same at x in inl (e, k)
    | inr other ↦ inr (rw other at x)
  ]

  settled-IsSound :
      (answered : Bool)
      → HasAmount p.amount_sats (s.payments hash)
      → p.amount_sats ≤ sats
      → IsSound s
      → IsSound (settle_with i answered hash p sats (some row) s)
  unfolding settle_with set_phase
  settled-IsSound true has enough h = record {
    once = λ k. settled-IsOnce k (h.once k);
    known = λ j.
        put-IsKnown after (j == i) (marked hash p sats) (s.webhooks j)
          ((settled-Keeps hash).0 p.amount_sats has, enough, row-IsSettled)
          (kept-IsKnown s.payments after (s.webhooks j) settled-Keeps (h.known j));
    ungranted = λ j g x. elim (now_held j g x) [
      | inl e ↦ rw e.1 (fresh_hash h)
      | inr old ↦ h.ungranted j g old
    ];
    alone = λ j l g x y. elim (now_held j g x) [
      | inl e ↦ elim (now_held l g y) [
        | inl f ↦ e.0 ∙ sym f.0
        | inr held ↦ absurd (unheld h l (subst (λ k. Holds k (s.webhooks l)) e.1 held))
      ]
      | inr old ↦ elim (now_held l g y) [
        | inl f ↦ absurd (unheld h j (subst (λ k. Holds k (s.webhooks j)) f.1 old))
        | inr held ↦ h.alone j l g old held
      ]
    ];
    grants_paid = kept-IsPaid s.payments after s.granted settled-Keeps h.grants_paid;
  }
  settled-IsSound false has enough h =
      let moved : State = record s { payments = after } in
      phase-IsSound i idle moved (λ g x. absurd x)
        (record {
          once = λ k. settled-IsOnce k (h.once k);
          known = λ j. kept-IsKnown s.payments after (s.webhooks j) settled-Keeps (h.known j);
          ungranted = h.ungranted;
          alone = h.alone;
          grants_paid = kept-IsPaid s.payments after s.granted settled-Keeps h.grants_paid;
        })
        tt

settle_with-IsSound :
    (i : ℕ) (answered : Bool) (hash : String) (p : PendingPayment) (sats : ℕ)
    (o : Option PendingPayment) (s : State)
    → settle_row (s.payments hash) ≡ o
    → HasAmount p.amount_sats (s.payments hash)
    → p.amount_sats ≤ sats
    → IsSound s
    → IsSound (settle_with i answered hash p sats o s)
unfolding settle_with
settle_with-IsSound i answered hash p sats none s at has enough h =
    phase-IsSound i idle s (λ g x. absurd x) h tt
settle_with-IsSound i answered hash p sats (some row) s at has enough h =
    settled-IsSound i hash p sats s row at answered has enough h

pub settle_phase-IsSound :
    (i : ℕ) (executed answered : Bool) (ph : Phase) (s : State)
    → IsKnown s.payments ph
    → IsSound s
    → IsSound (settle_phase i executed answered ph s)
unfolding settle_phase
settle_phase-IsSound i true answered (verified hash p sats) s k h =
    settle_with-IsSound i answered hash p sats (settle_row (s.payments hash)) s refl k.0 k.1 h
settle_phase-IsSound i false answered (verified hash p sats) s k h =
    phase-IsSound i idle s (λ g x. absurd x) h tt
settle_phase-IsSound i executed answered idle s k h = h
settle_phase-IsSound i executed answered (found hash p) s k h = h
settle_phase-IsSound i executed answered (marked hash p n) s k h = h
settle_phase-IsSound i executed answered (read hash p n m) s k h = h

pub member_phase-IsKnown :
    (executed : Bool) (s : State) (ph : Phase)
    → IsKnown s.payments ph
    → IsKnown s.payments (member_phase executed s.members ph)
unfolding member_phase member_read
member_phase-IsKnown true s (marked hash p n) k = read_member (s.members p.pubkey)
  where
    read_member : (o : Option Member) → IsKnown s.payments (member_read hash p n o)
    read_member none = tt
    read_member (some m) = k
member_phase-IsKnown false s (marked hash p n) k = tt
member_phase-IsKnown executed s idle k = tt
member_phase-IsKnown executed s (found hash p) k = k
member_phase-IsKnown executed s (verified hash p n) k = k
member_phase-IsKnown executed s (read hash p n m) k = k

pub member_phase-held :
    (executed : Bool) (members : String → Option Member) (g : String) (ph : Phase)
    → Holds g (member_phase executed members ph)
    → Holds g ph
unfolding member_phase member_read
member_phase-held true members g (marked hash p n) h = read_held (members p.pubkey) h
  where
    read_held : (o : Option Member) → Holds g (member_read hash p n o) → g ≡ hash
    read_held none x = absurd x
    read_held (some m) x = x
member_phase-held false members g (marked hash p n) h = absurd h
member_phase-held executed members g idle h = h
member_phase-held executed members g (found hash p) h = h
member_phase-held executed members g (verified hash p n) h = h
member_phase-held executed members g (read hash p n m) h = h

settled-granted : (o : Option PendingPayment) (n : ℕ) → IsSettled o → n ≡ 0 → IsOnce o (suc n)
settled-granted none n h z = absurd h
settled-granted (some p) n h z = inl (h, omega (arith, z))

-- Webhook `i` grants the payment that it holds.
module _ (i : ℕ) (hash : String) (p : PendingPayment) (n : ℕ) (m : Member) (s : State)
    (at : s.webhooks i ≡ read hash p n m) (h : IsSound s) where
  me_held : Holds hash (s.webhooks i)
  me_held = rw at refl

  me-IsKnown : IsKnown s.payments (read hash p n m)
  me-IsKnown = subst (λ ph. IsKnown s.payments ph) at (h.known i)

  others :
      (j : ℕ) (g : String)
      → Holds g (put (j == i) idle (s.webhooks j))
      → Holds g (s.webhooks j) × ((j == i) ≡ false)
  others j g x = elim (Bool-cases (j == i)) [
    | inl same ↦ absurd (rw same at x)
    | inr other ↦ (rw other at x, other)
  ]

  -- What the others hold is another payment.
  differs : (j : ℕ) (g : String) → Holds g (s.webhooks j) → (j == i) ≡ false → (g == hash) ≡ false
  differs j g x other = elim (Bool-cases (g == hash)) [
    | inl same ↦
        let e : j ≡ i =
          h.alone j i hash (subst (λ k. Holds k (s.webhooks j)) ((eq_iff g hash).0 same) x)
            me_held in
        absurd (ground (arith, e, other))
    | inr no_match ↦ no_match
  ]

  granted-IsOnce :
      (g : String)
      → IsOnce (s.payments g) (if g == hash then suc (times g s.granted) else times g s.granted)
  granted-IsOnce g = elim (Bool-cases (g == hash)) [
    | inl same ↦
        let e = (eq_iff g hash).0 same in
        rw same (
          settled-granted (s.payments g) (times g s.granted) (rw e me-IsKnown.2)
            (rw e (h.ungranted i hash me_held)))
    | inr other ↦ rw other (h.once g)
  ]

  granted-IsSound :
      (executed : Bool) (now : ℕ) → IsSound (upgrade_phase i executed now (read hash p n m) s)
  unfolding upgrade_phase set_phase
  granted-IsSound true now = record {
    once = granted-IsOnce;
    known = λ j. put-IsKnown s.payments (j == i) idle (s.webhooks j) tt (h.known j);
    ungranted = λ j g x. let o = others j g x in rw (differs j g o.0 o.1) (h.ungranted j g o.0);
    alone = λ j l g x y. h.alone j l g (others j g x).0 (others l g y).0;
    grants_paid = ((p.amount_sats, me-IsKnown.0, me-IsKnown.1), h.grants_paid);
  }
  granted-IsSound false now = record {
    once = h.once;
    known = λ j. put-IsKnown s.payments (j == i) idle (s.webhooks j) tt (h.known j);
    ungranted = λ j g x. h.ungranted j g (others j g x).0;
    alone = λ j l g x y. h.alone j l g (others j g x).0 (others l g y).0;
    grants_paid = h.grants_paid;
  }

pub upgrade_phase-IsSound :
    (i : ℕ) (executed : Bool) (now : ℕ) (ph : Phase) (s : State)
    → s.webhooks i ≡ ph
    → IsSound s
    → IsSound (upgrade_phase i executed now ph s)
unfolding upgrade_phase
upgrade_phase-IsSound i executed now (read hash p n m) s at h =
    granted-IsSound i hash p n m s at h executed now
upgrade_phase-IsSound i executed now idle s at h = h
upgrade_phase-IsSound i executed now (found hash p) s at h = h
upgrade_phase-IsSound i executed now (verified hash p n) s at h = h
upgrade_phase-IsSound i executed now (marked hash p n) s at h = h
