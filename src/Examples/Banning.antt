-- ===== src/Examples/Banning.antt =====
-- A ban whose own reload runs after another one that has read the table before it
-- (internal/management).
use cloistr_relay.Prelude.{◌≡◌, refl, true, false, none, List, [], ◌∷◌}
use cloistr_relay.Management.Access.{AccessSets, is_pubkey_banned}
use cloistr_relay.Management.Reload.{
  Reload, read_all, State, Move, statement, lock, query, publish, give_up, step, run,
}
use cloistr_relay.Management.Bans.{waited, loaded, reload-effective}

abbrev nothing : AccessSets
nothing = record {
  banned_pubkeys = λ p. false;
  banned_events = λ id. false;
  exempt_pubkeys = λ p. false;
  allowed_kinds = [];
}

-- The periodic reload, goroutine 0, has read the bans.
abbrev before : List Move
before = lock 0 ∷ query 0 ∷ []

-- It publishes what it has read while goroutine 1, the ban's own, waits for the lock.
abbrev waiting : List Move
waiting = lock 1 ∷ query 0 ∷ query 0 ∷ query 0 ∷ publish 0 ∷ []

abbrev during : List Move
during = query 1 ∷ query 1 ∷ lock 0 ∷ query 1 ∷ query 1 ∷ []

free : (waited "eve" true nothing before waiting).refresh_mu ≡ none
unfolding run cloistr_relay.Management.Reload.start
free = refl

ready :
    (loaded 1 during (waited "eve" true nothing before waiting)).reloads 1
    ≡ read_all (waited "eve" true nothing before waiting).tables
unfolding run cloistr_relay.Management.Reload.start
ready = refl

reload-effective_example :
    is_pubkey_banned
      (run []
        (step (publish 1) (loaded 1 during (waited "eve" true nothing before waiting)))).access_snap
      "eve"
    ≡ true
reload-effective_example =
    reload-effective "eve" true 1 nothing (waited "eve" true nothing before waiting).tables before
      waiting during [] (tt, (tt, (tt, (tt, (tt, tt))))) free (tt, (tt, (tt, (tt, (tt, tt))))) ready
      tt
