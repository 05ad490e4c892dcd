-- ===== src/Gates/Order.antt =====
-- Authentication comes before the database.
use cloistr_relay.Prelude.{
  ◌≡◌, refl, ◌⊎◌, Bool, true, false, not, ◌&&◌, List, [], ◌∷◌, ◌++◌, All, ltb, arith,
}
use cloistr_relay.Nostr.{Event, Verdict, accept, reject}
use cloistr_relay.Auth as Auth
use cloistr_relay.Gates.Chain.{
  Gate, Config, World, in_memory, when, validation_gates, is_distributed, auth_gate, tombstone_gate,
  ban_gates, register_write_gates, and_then, run_gates,
}

pub All-append-All :
    {A : Type 0} (P : A → Type 0) (xs ys : List A) → All P xs → All P ys → All P (xs ++ ys)
All-append-All P [] ys h k = k
All-append-All P (x ∷ xs) ys h k = (h.0, All-append-All P xs ys h.1 k)

abbrev IsInMemory : Gate → Type 0
IsInMemory g = g.asks_database ≡ false

when-IsInMemory : (b : Bool) (gs : List Gate) → All IsInMemory gs → All IsInMemory (when b gs)
when-IsInMemory true gs h = h
when-IsInMemory false gs h = tt

validation-IsInMemory : (cfg : Config) (w : World) → All IsInMemory (validation_gates cfg w)
unfolding validation_gates
validation-IsInMemory cfg w = (
  refl,
  (
    refl,
    (
      refl,
      All-append-All IsInMemory (when (ltb 0 cfg.checks.min_pow_difficulty) (_ ∷ [])) _
          (when-IsInMemory (ltb 0 cfg.checks.min_pow_difficulty) _ (refl, tt))
          (
            refl,
            when-IsInMemory (not (is_distributed cfg) && ltb 0 cfg.rate_limit_events_per_sec) _
                (refl, tt),
          ),
    ),
  ),
)

and_then-asked :
    (v : Verdict) (rest : Verdict × Bool) (asks : Bool)
    → asks ≡ false
    → (and_then v rest asks).1 ≡ true
    → (v ≡ accept) × (rest.1 ≡ true)
unfolding and_then
and_then-asked accept rest asks h asked = ground (arith, h, asked)
and_then-asked (reject m) rest asks h asked = absurd (ground (arith, h, asked))

-- If the database was asked, a handler that stands before all those that ask it has accepted.
asked-accept :
    (pre post : List Gate) (g : Gate) (e : Event)
    → All IsInMemory pre
    → IsInMemory g
    → (run_gates (pre ++ (g ∷ post)) e).1 ≡ true
    → g.check e ≡ accept
unfolding run_gates
asked-accept [] post g e h k asked =
    (and_then-asked (g.check e) (run_gates post e) g.asks_database k asked).0
asked-accept (x ∷ pre) post g e h k asked =
    asked-accept pre post g e h.1 k
      (and_then-asked (x.check e) (run_gates (pre ++ (g ∷ post)) e) x.asks_database h.0 asked).1

-- An event for which the relay asks the database has passed authentication: under a write policy its
-- kind is exempt, or its author is authenticated, and on the whitelist if there is one.
pub asked-IsOwn :
    (cfg : Config) (w : World) (e : Event)
    → Auth.guards_write cfg.auth.policy ≡ true
    → (run_gates (register_write_gates cfg w) e).1 ≡ true
    → Auth.IsExempt cfg.auth w.authed e ⊎ Auth.IsOwn cfg.auth w.authed e
unfolding register_write_gates auth_gate
asked-IsOwn cfg w e guards asked =
    let redis = when (is_distributed cfg) (in_memory w.redis_limiter ∷ []) in
    (Auth.reject_event-IsOwn cfg.auth w.authed e guards).0 (
      asked-accept (validation_gates cfg w ++ redis) (tombstone_gate w ∷ ban_gates w.management)
        (auth_gate cfg w) e
        (All-append-All IsInMemory (validation_gates cfg w) redis (validation-IsInMemory cfg w)
          (when-IsInMemory (is_distributed cfg) (in_memory w.redis_limiter ∷ []) (refl, tt)))
        refl asked)
