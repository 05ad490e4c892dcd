-- ===== src/Haven/Blastr/Waiting.antt =====
-- internal/haven/blastr.go: the retries that wait in the sorted set, and how ZREM and ZADD change them.
use cloistr_relay.Prelude.{
  ℕ, ◌+◌, ◌-◌, ◌≤◌, ◌≡◌, ◌≢◌, refl, sym, ◌∙◌, ap, Option, none, some, List, [], ◌∷◌, ◌++◌, All, ltb,
  select, arith, inl, inr, ◌⊎◌, Bool-cases, if◌then◌else◌,
}
use cloistr_relay.Haven.Types.{Config}
use cloistr_relay.Haven.Blastr.{
  RetryEntry, Codec, Item, Blastr, RedisFate, zrem, zadd, put, max_retries,
}

-- Unmarshal reads back what Marshal wrote.
abbrev pub IsFaithful : {Raw Data : Type 0} → Codec Raw Data → Type 0
IsFaithful c = (v : _) (d : _) → c.marshal v ≡ some d → c.unmarshal d ≡ some v

-- The items differ from each other.
abbrev pub IsDistinct : {Data : Type 0} → List Data → Type 0
IsDistinct [] = Unit
IsDistinct (d ∷ ds) = All (λ x. x ≢ d) ds × IsDistinct ds

abbrev pub HasMember : {Data : Type 0} → Data → List (Item Data) → Type 0
HasMember d [] = ⊥
HasMember d (it ∷ items) = (it.member ≡ d) ⊎ HasMember d items

module _ {Raw Data : Type 0} (c : Codec Raw Data) (cfg : Config) where
  -- How often an entry can still be tried.
  unfoldable pub chances : Option (RetryEntry Raw) → ℕ
  chances none = 0
  chances (some v) =
      if ltb (v.attempts + 1) (max_retries cfg) then max_retries cfg - v.attempts else 1

  unfoldable pub waiting : List (Item Data) → ℕ
  waiting [] = 0
  waiting (it ∷ items) = chances (c.unmarshal it.member) + waiting items

  waiting-append :
      (items : List (Item Data)) (it : Item Data)
      → waiting (items ++ it ∷ []) ≡ waiting items + chances (c.unmarshal it.member)
  unfolding waiting
  waiting-append [] it = omega arith
  waiting-append (x ∷ items) it = omega (arith, waiting-append items it)

  pub zrem-waiting :
      (d : Data) (items : List (Item Data)) → waiting (zrem c d items) ≤ waiting items
  unfolding waiting zrem select
  zrem-waiting d [] = omega arith
  zrem-waiting d (it ∷ items) = ground (arith, zrem-waiting d items)

  pub zrem-chances :
      (d : Data) (items : List (Item Data))
      → HasMember d items
      → waiting (zrem c d items) + chances (c.unmarshal d) ≤ waiting items
  unfolding waiting zrem select
  zrem-chances d [] h = absurd h
  zrem-chances d (it ∷ items) (inl e) =
      let same = (c.members.same_iff it.member d).1 e in
      let even = ap (λ x. chances (c.unmarshal x)) e in
      ground (arith, zrem-waiting d items, same, even)
  zrem-chances d (it ∷ items) (inr h) = ground (arith, zrem-chances d items h)

  pub zrem-HasMember :
      (d x : Data) (items : List (Item Data))
      → x ≢ d
      → HasMember x items
      → HasMember x (zrem c d items)
  unfolding zrem select
  zrem-HasMember d x [] differ h = absurd h
  zrem-HasMember d x (it ∷ items) differ (inl e) = elim (Bool-cases (c.members.same it.member d)) [
    | inl hit ↦ absurd (differ (sym e ∙ (c.members.same_iff it.member d).0 hit))
    | inr miss ↦ rw miss (inl e)
  ]
  zrem-HasMember d x (it ∷ items) differ (inr h) =
      let rest = zrem-HasMember d x items differ h in
      elim (Bool-cases (c.members.same it.member d)) [
        | inl hit ↦ rw hit rest
        | inr miss ↦ rw miss (inr rest)
      ]

  append-HasMember :
      (x : Data) (items : List (Item Data)) (it : Item Data)
      → (x ≡ it.member) ⊎ HasMember x items
      → HasMember x (items ++ it ∷ [])
  append-HasMember x [] it (inl e) = inl (sym e)
  append-HasMember x [] it (inr h) = absurd h
  append-HasMember x (y ∷ items) it (inl e) = inr (append-HasMember x items it (inl e))
  append-HasMember x (y ∷ items) it (inr (inl e)) = inl e
  append-HasMember x (y ∷ items) it (inr (inr h)) = inr (append-HasMember x items it (inr h))

  zadd-HasMember :
      (d x : Data) (score : ℕ) (items : List (Item Data))
      → HasMember x items
      → HasMember x (zadd c score d items)
  unfolding zadd
  zadd-HasMember d x score items h = elim (Bool-cases (c.members.same x d)) [
    | inl hit ↦
        append-HasMember x (zrem c d items) (record { score = score; member = d })
          (inl ((c.members.same_iff x d).0 hit))
    | inr miss ↦
        append-HasMember x (zrem c d items) (record { score = score; member = d })
          (inr (zrem-HasMember d x items (λ e. absurd (cc ((c.members.same_iff x d).1 e, miss))) h))
  ]

  zadd-waiting :
      (d : Data) (score : ℕ) (items : List (Item Data))
      → waiting (zadd c score d items) ≤ waiting items + chances (c.unmarshal d)
  unfolding zadd
  zadd-waiting d score items =
      let it : Item Data = record { score = score; member = d } in
      omega (arith, zrem-waiting d items, waiting-append (zrem c d items) it)

  pub put-waiting :
      (f : RedisFate) (n : ℕ) (v : RetryEntry Raw) (o : Option Data) (b : Blastr Data)
      → ((d : Data) → o ≡ some d → c.unmarshal d ≡ some v)
      → waiting ((put c f n o b).retries) ≤ waiting b.retries + chances (some v)
  unfolding put
  put-waiting f n v none b faithful = omega arith
  put-waiting f n v (some d) b faithful = elim (Bool-cases f.added) [
    | inl hit ↦ rw hit (omega (arith, zadd-waiting d _ b.retries, ap chances (faithful d refl)))
    | inr miss ↦ rw miss (omega arith)
  ]

  pub put-tried :
      (f : RedisFate) (n : ℕ) (o : Option Data) (b : Blastr Data) → (put c f n o b).tried ≡ b.tried
  unfolding put
  put-tried f n none b = refl
  put-tried f n (some d) b = ground arith

  pub put-HasMember :
      (f : RedisFate) (n : ℕ) (o : Option Data) (x : Data) (b : Blastr Data)
      → HasMember x b.retries
      → HasMember x ((put c f n o b).retries)
  unfolding put
  put-HasMember f n none x b h = h
  put-HasMember f n (some d) x b h = elim (Bool-cases f.added) [
    | inl hit ↦ rw hit (zadd-HasMember d x _ b.retries h)
    | inr miss ↦ rw miss h
  ]
