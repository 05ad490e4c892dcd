-- ===== src/Management/Freshness.antt =====
-- A ban applies once its own reload is done, whatever other reloads run at the same time.
use cloistr_relay.Prelude.{
  ℕ, ◌≡◌, refl, ◌∙◌, inl, inr, String, Bool, false, Option, none, some, List, [], ◌∷◌, ◌==◌,
  string_eq, nat_eq, arith, All, Bool-cases,
}
use cloistr_relay.Management.Access.{
  AccessSets, Statement, ban_pubkey, unban_pubkey, ban_event, unban_event, exempt_pubkey,
  remove_exemption, allow_kind, disallow_kind, execute, access, is_pubkey_banned,
}
use cloistr_relay.Management.Reload.{
  Reload, idle, locked, read_pubkeys, read_events, read_exempt, read_all, State, Move, statement,
  lock, query, publish, give_up, put, next_query, store_all, leave, acquire, step, run,
}
use cloistr_relay.Management.Exclusion.{IsExclusive}

pub idle_when_free :
    (s : State) → s.refresh_mu ≡ none → IsExclusive s → (j : ℕ) → s.reloads j ≡ idle
idle_when_free s free alone j = ground (arith, alone j, free)

module _ (p : String) (banned : Bool) where
  -- What a reload has read of the bans says of the key what it is.
  abbrev pub HasRead : Reload → Type 0
  HasRead idle = Unit
  HasRead locked = Unit
  HasRead (read_pubkeys f) = f p ≡ banned
  HasRead (read_events f e) = f p ≡ banned
  HasRead (read_exempt f e x) = f p ≡ banned
  HasRead (read_all a) = a.banned_pubkeys p ≡ banned

  pub record IsSettled (s : State) : Type 0 where
    pub stored : s.tables.banned_pubkeys p ≡ banned
    pub read : (j : ℕ) → HasRead (s.reloads j)

  next-HasRead :
      (t : AccessSets) (r : Reload)
      → t.banned_pubkeys p ≡ banned
      → HasRead r
      → HasRead (next_query t r)
  unfolding next_query
  next-HasRead t idle e h = h
  next-HasRead t locked e h = e
  next-HasRead t (read_pubkeys f) e h = h
  next-HasRead t (read_events f g) e h = h
  next-HasRead t (read_exempt f g x) e h = h
  next-HasRead t (read_all a) e h = h

  put-HasRead :
      (f : ℕ → Reload) (i : ℕ) (r : Reload)
      → ((j : ℕ) → HasRead (f j))
      → HasRead r
      → (j : ℕ) → HasRead (put f i r j)
  put-HasRead f i r all h j = elim (Bool-cases (j == i)) [
    | inl same ↦ rw same h
    | inr differs ↦ rw differs (all j)
  ]

  -- A statement about another key or another list.
  abbrev pub IsOther : Statement → Type 0
  IsOther (ban_pubkey k) = (p == k) ≡ false
  IsOther (unban_pubkey k) = (p == k) ≡ false
  IsOther (ban_event k) = Unit
  IsOther (unban_event k) = Unit
  IsOther (exempt_pubkey k) = Unit
  IsOther (remove_exemption k) = Unit
  IsOther (allow_kind k) = Unit
  IsOther (disallow_kind k) = Unit

  abbrev pub IsElsewhere : Move → Type 0
  IsElsewhere (statement w) = IsOther w
  IsElsewhere (lock i) = Unit
  IsElsewhere (query i) = Unit
  IsElsewhere (publish i) = Unit
  IsElsewhere (give_up i) = Unit

  pub execute_other :
      (w : Statement) (t : AccessSets)
      → IsOther w
      → (execute w t).banned_pubkeys p ≡ t.banned_pubkeys p
  unfolding execute
  execute_other (ban_pubkey k) t h = rw h refl
  execute_other (unban_pubkey k) t h = rw h refl
  execute_other (ban_event k) t h = refl
  execute_other (unban_event k) t h = refl
  execute_other (exempt_pubkey k) t h = refl
  execute_other (remove_exemption k) t h = refl
  execute_other (allow_kind k) t h = ground arith
  execute_other (disallow_kind k) t h = refl

  store_all-IsSettled : (i : ℕ) (r : Reload) (s : State) → IsSettled s → IsSettled (store_all i r s)
  unfolding store_all
  store_all-IsSettled i (read_all a) s h = record {
    stored = h.stored;
    read = put-HasRead s.reloads i idle h.read tt;
  }
  store_all-IsSettled i idle s h = h
  store_all-IsSettled i locked s h = h
  store_all-IsSettled i (read_pubkeys f) s h = h
  store_all-IsSettled i (read_events f e) s h = h
  store_all-IsSettled i (read_exempt f e x) s h = h

  leave-IsSettled : (i : ℕ) (r : Reload) (s : State) → IsSettled s → IsSettled (leave i r s)
  unfolding leave
  leave-IsSettled i (read_all a) s h = h
  leave-IsSettled i idle s h = h
  leave-IsSettled i locked s h = record {
    stored = h.stored;
    read = put-HasRead s.reloads i idle h.read tt;
  }
  leave-IsSettled i (read_pubkeys f) s h = record {
    stored = h.stored;
    read = put-HasRead s.reloads i idle h.read tt;
  }
  leave-IsSettled i (read_events f e) s h = record {
    stored = h.stored;
    read = put-HasRead s.reloads i idle h.read tt;
  }
  leave-IsSettled i (read_exempt f e x) s h = record {
    stored = h.stored;
    read = put-HasRead s.reloads i idle h.read tt;
  }

  pub acquire-IsSettled :
      (i : ℕ) (m : Option ℕ) (s : State) → IsSettled s → IsSettled (acquire i m s)
  unfolding acquire
  acquire-IsSettled i none s h = record {
    stored = h.stored;
    read = put-HasRead s.reloads i locked h.read tt;
  }
  acquire-IsSettled i (some k) s h = h

  pub step-IsSettled : (m : Move) (s : State) → IsElsewhere m → IsSettled s → IsSettled (step m s)
  unfolding step
  step-IsSettled (statement w) s o h = record {
    stored = execute_other w s.tables o ∙ h.stored;
    read = h.read;
  }
  step-IsSettled (lock i) s o h = acquire-IsSettled i s.refresh_mu s h
  step-IsSettled (query i) s o h = record {
    stored = h.stored;
    read =
        put-HasRead s.reloads i (next_query s.tables (s.reloads i)) h.read
          (next-HasRead s.tables (s.reloads i) h.stored (h.read i));
  }
  step-IsSettled (publish i) s o h = store_all-IsSettled i (s.reloads i) s h
  step-IsSettled (give_up i) s o h = leave-IsSettled i (s.reloads i) s h

  pub run-IsSettled :
      (ms : List Move) (s : State) → All IsElsewhere ms → IsSettled s → IsSettled (run ms s)
  unfolding run
  run-IsSettled [] s o h = h
  run-IsSettled (m ∷ ms) s o h = run-IsSettled ms (step m s) o.1 (step-IsSettled m s o.0 h)

  -- The copies say of the key what the table says.
  abbrev pub IsCopied : State → Type 0
  IsCopied s = is_pubkey_banned s.access_snap p ≡ banned

  store_all-IsCopied :
      (i : ℕ) (r : Reload) (s : State) → HasRead r → IsCopied s → IsCopied (store_all i r s)
  unfolding store_all is_pubkey_banned access
  store_all-IsCopied i (read_all a) s r h = r
  store_all-IsCopied i idle s r h = h
  store_all-IsCopied i locked s r h = h
  store_all-IsCopied i (read_pubkeys f) s r h = h
  store_all-IsCopied i (read_events f e) s r h = h
  store_all-IsCopied i (read_exempt f e x) s r h = h

  leave-snap : (i : ℕ) (r : Reload) (s : State) → (leave i r s).access_snap ≡ s.access_snap
  unfolding leave
  leave-snap i (read_all a) s = refl
  leave-snap i idle s = refl
  leave-snap i locked s = refl
  leave-snap i (read_pubkeys f) s = refl
  leave-snap i (read_events f e) s = refl
  leave-snap i (read_exempt f e x) s = refl

  acquire-snap : (i : ℕ) (m : Option ℕ) (s : State) → (acquire i m s).access_snap ≡ s.access_snap
  unfolding acquire
  acquire-snap i none s = refl
  acquire-snap i (some k) s = refl

  step-IsCopied : (m : Move) (s : State) → IsSettled s → IsCopied s → IsCopied (step m s)
  unfolding step
  step-IsCopied (statement w) s k h = h
  step-IsCopied (lock i) s k h = rw (acquire-snap i s.refresh_mu s) h
  step-IsCopied (query i) s k h = h
  step-IsCopied (publish i) s k h = store_all-IsCopied i (s.reloads i) s (k.read i) h
  step-IsCopied (give_up i) s k h = rw (leave-snap i (s.reloads i) s) h

  pub run-IsCopied :
      (ms : List Move) (s : State)
      → All IsElsewhere ms
      → IsSettled s
      → IsCopied s
      → IsCopied (run ms s)
  unfolding run
  run-IsCopied [] s o k h = h
  run-IsCopied (m ∷ ms) s o k h =
      run-IsCopied ms (step m s) o.1 (step-IsSettled m s o.0 k) (step-IsCopied m s k h)
