-- ===== src/Management/Bans.antt =====
-- A ban applies once its own reload is done, whatever other reloads and writes run at the same time.
use cloistr_relay.Prelude.{
  ℕ, ◌≡◌, refl, ap, ◌∙◌, String, Bool, true, false, Option, none, some, List, [], ◌∷◌, string_eq,
  nat_eq, eq_iff, arith, All,
}
use cloistr_relay.Management.Access.{
  AccessSets, Statement, ban_pubkey, unban_pubkey, execute, access, is_pubkey_banned,
}
use cloistr_relay.Management.Reload.{
  Reload, idle, locked, read_pubkeys, read_events, read_exempt, read_all, State, Move, statement,
  lock, query, publish, give_up, store_all, leave, acquire, step, run, start,
}
use cloistr_relay.Management.Exclusion.{
  IsExclusive, step-IsExclusive, run-IsExclusive, start-IsExclusive,
}
use cloistr_relay.Management.Freshness.{
  idle_when_free, HasRead, IsSettled, IsCopied, IsElsewhere, execute_other, acquire-IsSettled,
  run-IsSettled, run-IsCopied, step-IsSettled,
}

-- A reload writes no table.
acquire-tables : (i : ℕ) (m : Option ℕ) (s : State) → (acquire i m s).tables ≡ s.tables
unfolding acquire
acquire-tables i none s = refl
acquire-tables i (some k) s = refl

store_all-tables : (i : ℕ) (r : Reload) (s : State) → (store_all i r s).tables ≡ s.tables
unfolding store_all
store_all-tables i (read_all a) s = refl
store_all-tables i idle s = refl
store_all-tables i locked s = refl
store_all-tables i (read_pubkeys f) s = refl
store_all-tables i (read_events f e) s = refl
store_all-tables i (read_exempt f e x) s = refl

leave-tables : (i : ℕ) (r : Reload) (s : State) → (leave i r s).tables ≡ s.tables
unfolding leave
leave-tables i (read_all a) s = refl
leave-tables i idle s = refl
leave-tables i locked s = refl
leave-tables i (read_pubkeys f) s = refl
leave-tables i (read_events f e) s = refl
leave-tables i (read_exempt f e x) s = refl

module _ (p : String) (banned : Bool) where
  abbrev stored_ban : AccessSets → Bool
  stored_ban t = t.banned_pubkeys p

  step-tables :
      (m : Move) (s : State)
      → IsElsewhere p banned m
      → stored_ban (step m s).tables ≡ stored_ban s.tables
  unfolding step
  step-tables (statement w) s o = execute_other p banned w s.tables o
  step-tables (lock i) s o = ap stored_ban (acquire-tables i s.refresh_mu s)
  step-tables (query i) s o = refl
  step-tables (publish i) s o = ap stored_ban (store_all-tables i (s.reloads i) s)
  step-tables (give_up i) s o = ap stored_ban (leave-tables i (s.reloads i) s)

  lock-IsSettled :
      (i : ℕ) (s : State)
      → s.refresh_mu ≡ none
      → s.tables.banned_pubkeys p ≡ banned
      → IsExclusive s
      → IsSettled p banned (step (lock i) s)
  unfolding step
  lock-IsSettled i s free stored alone =
      let none_reads : (j : ℕ) → HasRead p banned (s.reloads j) =
        λ j. rw (idle_when_free s free alone j) tt in
      acquire-IsSettled p banned i s.refresh_mu s (record { stored = stored; read = none_reads })

  run-stored :
      (ms : List Move) (s : State)
      → All (IsElsewhere p banned) ms
      → s.tables.banned_pubkeys p ≡ banned
      → (run ms s).tables.banned_pubkeys p ≡ banned
  unfolding run
  run-stored [] s o h = h
  run-stored (m ∷ ms) s o h = run-stored ms (step m s) o.1 (step-tables m s o.0 ∙ h)

  published :
      (i : ℕ) (a : AccessSets) (s : State)
      → s.reloads i ≡ read_all a
      → IsSettled p banned s
      → IsCopied p banned (step (publish i) s)
  unfolding step store_all is_pubkey_banned access
  published i a s at k =
      let read : HasRead p banned (read_all a) = rw at at (k.read i) in
      ap (λ r. is_pubkey_banned (store_all i r s).access_snap p) at ∙ read

-- The statement that bans a key, and the one that lifts its ban.
abbrev pub statement_of : String → Bool → Statement
statement_of p true = ban_pubkey p
statement_of p false = unban_pubkey p

executed :
    (p : String) (banned : Bool) (t : AccessSets)
    → (execute (statement_of p banned) t).banned_pubkeys p ≡ banned
unfolding execute
executed p true t = ground (arith, eq_iff p p)
executed p false t = ground (arith, eq_iff p p)

step-executed :
    (p : String) (banned : Bool) (s : State)
    → (step (statement (statement_of p banned)) s).tables.banned_pubkeys p ≡ banned
unfolding step
step-executed p banned s = executed p banned s.tables

-- A run up to the moment when the statement is executed and `i` waits for the lock, and on to the
-- moment when `i`, which has taken it, publishes.
abbrev pub waited : String → Bool → AccessSets → List Move → List Move → State
waited p banned t before waiting =
    run waiting (step (statement (statement_of p banned)) (run before (start t)))

abbrev pub loaded : ℕ → List Move → State → State
loaded i during s = run during (step (lock i) s)

-- BanPubkey and UnbanPubkey: the statement is executed at some point of a run, `i` finds the lock
-- free, and `i` has made its queries when it publishes. Whatever else happens in between, with other
-- reloads before, waiting and after, and with statements about other keys and lists at any time: from
-- then on the copies say that the key is banned, or that it is not.
pub reload-effective :
    (p : String) (banned : Bool) (i : ℕ) (t : AccessSets) (a : AccessSets)
    (before waiting during after : List Move)
    → All (IsElsewhere p banned) waiting
    → (waited p banned t before waiting).refresh_mu ≡ none
    → All (IsElsewhere p banned) during
    → (loaded i during (waited p banned t before waiting)).reloads i ≡ read_all a
    → All (IsElsewhere p banned) after
    → is_pubkey_banned
        (run after
          (step (publish i) (loaded i during (waited p banned t before waiting)))).access_snap
        p
      ≡ banned
reload-effective p banned i t a before waiting during after w free d ready f =
    let s₀ = step (statement (statement_of p banned)) (run before (start t)) in
    let s₁ = run waiting s₀ in
    let s₂ = run during (step (lock i) s₁) in
    let alone = run-IsExclusive waiting s₀ (
      step-IsExclusive (statement (statement_of p banned)) (run before (start t))
        (run-IsExclusive before (start t) (start-IsExclusive t))) in
    let stored = run-stored p banned waiting s₀ w (step-executed p banned (run before (start t))) in
    let settled =
      run-IsSettled p banned during (step (lock i) s₁) d
        (lock-IsSettled p banned i s₁ free stored alone) in
    run-IsCopied p banned after (step (publish i) s₂) f
      (step-IsSettled p banned (publish i) s₂ tt settled) (published p banned i a s₂ ready settled)
