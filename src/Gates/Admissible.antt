-- ===== src/Gates/Admissible.antt =====
-- What an event that passes the gates satisfies.
use cloistr_relay.Prelude.{
  ℕ, ◌≤◌, ◌<◌, ◌+◌, ◌≡◌, refl, ◌⊎◌, inl, inr, String, Bool, true, false, Option, none, some, List,
  [], ◌∷◌, ◌++◌, string_eq, nat_eq, eq_iff, All, ltb, arith, Bool-cases,
}
use cloistr_relay.Nostr.{Event, Verdict, accept, reject}
use cloistr_relay.Auth as Auth
use cloistr_relay.Handlers.Checks.{
  reject_invalid_events, reject_timestamp_out_of_range-window, require_pow, count_leading_zero_bits,
}
use cloistr_relay.Handlers.Expiry.{reject_expired_events, is_expired}
use cloistr_relay.Storage.Tombstone.{is_tombstoned, answered}
use cloistr_relay.Storage.Deleted.{IsRetried, reject_republished_deletion_event-accept}
use cloistr_relay.Management.Access.{
  AccessSets, is_pubkey_banned, is_event_banned, is_kind_allowed, reject_banned_pubkey,
  reject_banned_event, reject_disallowed_kind,
}
use cloistr_relay.Gates.Chain.{
  Gate, Config, World, in_memory, when, validation_gates, is_distributed, auth_gate, tombstone_gate,
  ban_gates, register_write_gates, and_then, run_gates,
}

abbrev Accepts : Event → Gate → Type 0
Accepts e g = g.check e ≡ accept

and_then-accept :
    (v : Verdict) (rest : Verdict × Bool) (asks : Bool)
    → (and_then v rest asks).0 ≡ accept
    → (v ≡ accept) × (rest.0 ≡ accept)
unfolding and_then
and_then-accept accept rest asks h = (refl, h)
and_then-accept (reject m) rest asks h = absurd (ground (arith, h))

run_gates-Accepts : (gs : List Gate) (e : Event) → (run_gates gs e).0 ≡ accept → All (Accepts e) gs
unfolding run_gates
run_gates-Accepts [] e h = tt
run_gates-Accepts (g ∷ gs) e h =
    let both = and_then-accept (g.check e) (run_gates gs e) g.asks_database h in
    (both.0, run_gates-Accepts gs e both.1)

All-split : {A : Type 0} (P : A → Type 0) (xs ys : List A) → All P (xs ++ ys) → All P xs × All P ys
All-split P [] ys h = (tt, h)
All-split P (x ∷ xs) ys h = let rest = All-split P xs ys h.1 in ((h.0, rest.0), rest.1)

-- The store of bans, if there is one, has neither the author nor the event on a list, and allows the
-- kind.
abbrev pub IsNotBanned : Option (Option AccessSets) → Event → Type 0
IsNotBanned none e = Unit
IsNotBanned (some snap) e =
    (is_pubkey_banned snap e.pubkey ≡ false)
    × (is_event_banned snap e.id ≡ false)
    × (is_kind_allowed snap e.kind ≡ true)

ban_gates-IsNotBanned :
    (m : Option (Option AccessSets)) (e : Event) → All (Accepts e) (ban_gates m) → IsNotBanned m e
unfolding ban_gates reject_banned_pubkey reject_banned_event reject_disallowed_kind
ban_gates-IsNotBanned none e h = tt
ban_gates-IsNotBanned (some snap) e h = ground (arith, h.0, h.1.0, h.1.1.0)

worked_enough :
    (cfg : Config) (e : Event) (asks : Bool)
    → ltb 0 cfg.checks.min_pow_difficulty ≡ asks
    → All (Accepts e) (when asks (in_memory (require_pow cfg.checks) ∷ []))
    → cfg.checks.min_pow_difficulty ≤ count_leading_zero_bits e.id
unfolding require_pow
worked_enough cfg e true at h = ground (arith, h.0)
worked_enough cfg e false at h = ground (arith, at)

signed-hashed :
    (ok : Bool) (id : String) (e : Event)
    → reject_invalid_events ok id e ≡ accept
    → (ok ≡ true) × (id ≡ e.id)
unfolding reject_invalid_events
signed-hashed ok id e h = ground (arith, h, eq_iff id e.id)

accepted-is_expired :
    (now : ℕ) (e : Event) → reject_expired_events now e ≡ accept → is_expired now e ≡ false
unfolding reject_expired_events
accepted-is_expired now e h = ground (arith, h)

author_checked :
    (cfg : Auth.Config) (authed : String) (e : Event)
    → Auth.reject_event cfg authed e ≡ accept
    → (Auth.guards_write cfg.policy ≡ false) ⊎ Auth.IsExempt cfg authed e ⊎ Auth.IsOwn cfg authed e
author_checked cfg authed e h = elim (Bool-cases (Auth.guards_write cfg.policy)) [
  | inl guards ↦ inr ((Auth.reject_event-IsOwn cfg authed e guards).0 h)
  | inr free ↦ inl free
]

-- What the gates ask of an event.
pub record IsAdmissible (cfg : Config) (w : World) (e : Event) : Type 0 where
  pub signed : w.signature_ok ≡ true
  pub hashed : w.computed_id ≡ e.id
  pub not_too_new :
      (cfg.checks.max_created_at_future ≡ 0)
      ⊎ (e.created_at ≤ w.now + cfg.checks.max_created_at_future)
  pub not_too_old :
      (cfg.checks.max_created_at_past ≡ 0) ⊎ (w.now ≤ e.created_at + cfg.checks.max_created_at_past)
  pub live : is_expired w.now e ≡ false
  pub worked : cfg.checks.min_pow_difficulty ≤ count_leading_zero_bits e.id
  pub written_by :
      (Auth.guards_write cfg.auth.policy ≡ false)
      ⊎ Auth.IsExempt cfg.auth w.authed e
      ⊎ Auth.IsOwn cfg.auth w.authed e
  pub not_deleted :
      ((20000 ≤ e.kind) × (e.kind < 30000))
      ⊎ (w.first_attempt ≡ answered) × (is_tombstoned w.tombstones e.id ≡ false)
      ⊎ IsRetried w.first_attempt
        × (w.second_attempt ≡ answered)
        × (is_tombstoned w.tombstones_later e.id ≡ false)
  pub not_banned : IsNotBanned w.management e

-- Every event that the gates accept has the id and the signature that it should have, is neither too
-- new nor too old nor expired, and shows the work that is asked for; it is its authenticated author's
-- where the policy asks for that and the event is not exempt; it was found not to be deleted, unless
-- its kind is ephemeral (20000 to 29999), for which deletions are not looked up; and it is not banned.
pub run_gates-IsAdmissible :
    (cfg : Config) (w : World) (e : Event)
    → (run_gates (register_write_gates cfg w) e).0 ≡ accept
    → IsAdmissible cfg w e
unfolding register_write_gates validation_gates auth_gate tombstone_gate
run_gates-IsAdmissible cfg w e h =
    let redis = when (is_distributed cfg) (in_memory w.redis_limiter ∷ []) in
    let asks = ltb 0 cfg.checks.min_pow_difficulty in
    let pow = when asks (in_memory (require_pow cfg.checks) ∷ []) in
    let later = auth_gate cfg w ∷ tombstone_gate w ∷ ban_gates w.management in
    let all = run_gates-Accepts (register_write_gates cfg w) e h in
    let halves = All-split (Accepts e) (validation_gates cfg w ++ redis) later all in
    let first = (All-split (Accepts e) (validation_gates cfg w) redis halves.0).0 in
    let written = signed-hashed w.signature_ok w.computed_id e first.0 in
    let window = (reject_timestamp_out_of_range-window cfg.checks w.now e).0 first.1.0 in
    record {
      signed = written.0;
      hashed = written.1;
      not_too_new = window.0;
      not_too_old = window.1;
      live = accepted-is_expired w.now e first.1.1.0;
      worked = worked_enough cfg e asks refl (All-split (Accepts e) pow _ first.1.1.1).0;
      written_by = author_checked cfg.auth w.authed e halves.1.0;
      not_deleted =
          (reject_republished_deletion_event-accept w.tombstones w.tombstones_later w.first_attempt
              w.second_attempt e).0
            halves.1.1.0;
      not_banned = ban_gates-IsNotBanned w.management e halves.1.1.1;
    }
