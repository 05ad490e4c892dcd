-- ===== src/Management/Exclusion.antt =====
-- One goroutine at a time reloads the copies.
use cloistr_relay.Prelude.{
  ℕ, ◌≡◌, refl, ◌⊎◌, inl, Option, none, some, List, [], ◌∷◌, string_eq, nat_eq, arith,
}
use cloistr_relay.Management.Access.{AccessSets}
use cloistr_relay.Management.Reload.{
  Reload, idle, locked, read_pubkeys, read_events, read_exempt, read_all, State, Move, statement,
  lock, query, publish, give_up, next_query, store_all, leave, acquire, step, run, start,
}

-- Only the goroutine that holds the lock is in a reload.
abbrev pub IsExclusive : State → Type 0
IsExclusive s = (j : ℕ) → (s.reloads j ≡ idle) ⊎ (s.refresh_mu ≡ some j)

store_all-IsExclusive :
    (i : ℕ) (r : Reload) (s : State)
    → s.reloads i ≡ r
    → IsExclusive s
    → IsExclusive (store_all i r s)
unfolding store_all
store_all-IsExclusive i (read_all a) s at ok j = ground (arith, at, ok j, ok i)
store_all-IsExclusive i idle s at ok j = ok j
store_all-IsExclusive i locked s at ok j = ok j
store_all-IsExclusive i (read_pubkeys p) s at ok j = ok j
store_all-IsExclusive i (read_events p e) s at ok j = ok j
store_all-IsExclusive i (read_exempt p e x) s at ok j = ok j

leave-IsExclusive :
    (i : ℕ) (r : Reload) (s : State) → s.reloads i ≡ r → IsExclusive s → IsExclusive (leave i r s)
unfolding leave
leave-IsExclusive i idle s at ok j = ok j
leave-IsExclusive i locked s at ok j = ground (arith, at, ok j, ok i)
leave-IsExclusive i (read_pubkeys p) s at ok j = ground (arith, at, ok j, ok i)
leave-IsExclusive i (read_events p e) s at ok j = ground (arith, at, ok j, ok i)
leave-IsExclusive i (read_exempt p e x) s at ok j = ground (arith, at, ok j, ok i)
leave-IsExclusive i (read_all a) s at ok j = ok j

acquire-IsExclusive :
    (i : ℕ) (m : Option ℕ) (s : State)
    → s.refresh_mu ≡ m
    → IsExclusive s
    → IsExclusive (acquire i m s)
unfolding acquire
acquire-IsExclusive i none s at ok j = ground (arith, at, ok j)
acquire-IsExclusive i (some k) s at ok j = ok j

next_query_idle : (t : AccessSets) (r : Reload) → r ≡ idle → next_query t r ≡ idle
unfolding next_query
next_query_idle t r e = rw e refl

query-IsExclusive : (i : ℕ) (s : State) → IsExclusive s → IsExclusive (step (query i) s)
unfolding step
query-IsExclusive i s ok j = ground (arith, ok j, ok i, next_query_idle s.tables (s.reloads i))

pub step-IsExclusive : (m : Move) (s : State) → IsExclusive s → IsExclusive (step m s)
unfolding step
step-IsExclusive (statement w) s ok j = ok j
step-IsExclusive (lock i) s ok j = acquire-IsExclusive i s.refresh_mu s refl ok j
step-IsExclusive (query i) s ok j = query-IsExclusive i s ok j
step-IsExclusive (publish i) s ok j = store_all-IsExclusive i (s.reloads i) s refl ok j
step-IsExclusive (give_up i) s ok j = leave-IsExclusive i (s.reloads i) s refl ok j

pub run-IsExclusive : (ms : List Move) (s : State) → IsExclusive s → IsExclusive (run ms s)
unfolding run
run-IsExclusive [] s ok = ok
run-IsExclusive (m ∷ ms) s ok = run-IsExclusive ms (step m s) (step-IsExclusive m s ok)

pub start-IsExclusive : (t : AccessSets) → IsExclusive (start t)
unfolding start
start-IsExclusive t j = inl refl
