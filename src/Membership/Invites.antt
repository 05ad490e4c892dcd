-- ===== src/Membership/Invites.antt =====
-- The uses of an invite, over requests that are answered one after the other.
use cloistr_relay.Prelude.{
  ℕ, ◌+◌, ◌≤◌, ◌<◌, String, ◌≡◌, ◌≢◌, ◌⊎◌, inl, inr, refl, ap, ◌∙◌, Bool, true, false, Option, none,
  some, List, [], ◌∷◌, arith, nat_eq, string_eq, eq_iff, if◌then◌else◌, Bool-cases,
}
use cloistr_relay.Nostr.{Event, Verdict, accept, reject}
use cloistr_relay.Membership.Join.{
  kind_join_request, Invite, Store, invite_code_of, is_valid_invite, is_member, Reads, check_invite,
  check_code, reject_join_request, Writes, on_join_request_saved, admit, consume, add_member,
  use_invite, used,
}

-- One request, with the time and the fates of its queries.
pub record Request : Type 0 where
  pub event : Event
  pub now : ℕ
  pub reads : Reads
  pub writes : Writes

abbrev accepts : Verdict → Bool
accepts accept = true
accepts (reject m) = false

-- A request that is refused is not saved.
unfoldable pub join : Bool → Request → Store → Store
join require q s =
    if accepts (reject_join_request require q.reads q.now s q.event)
    then on_join_request_saved q.writes q.now s q.event
    else s

unfoldable pub join_all : Bool → List Request → Store → Store
join_all require [] s = s
join_all require (q ∷ rest) s = join_all require rest (join require q s)

-- The invite is there, its limit is the one it was made with, and it is not used more often.
abbrev pub IsWithin : ℕ → String → Store → Type 0
IsWithin limit code s =
    (i : Invite) × (s.invites code ≡ some i) × (i.max_uses ≡ limit) × (i.uses ≤ limit)

saved-invites :
    (w : Writes) (now : ℕ) (s : Store) (e : Event) (code : String)
    → ((on_join_request_saved w now s e).invites code ≡ s.invites code)
      ⊎ ((on_join_request_saved w now s e).invites code ≡ used (s.invites code))
        × (code ≡ invite_code_of e.tags)
        × (code ≢ "")
        × (e.kind ≡ kind_join_request)
        × (is_member s e.pubkey ≡ false)
unfolding on_join_request_saved admit consume use_invite add_member
saved-invites w now s e code =
    ground (arith, eq_iff (invite_code_of e.tags) "", eq_iff code (invite_code_of e.tags))

valid-uses :
    (now : ℕ) (x : Option Invite) (i : Invite)
    → x ≡ some i
    → check_invite now x ≡ accept
    → (i.max_uses ≡ 0) ⊎ (i.uses < i.max_uses)
unfolding check_invite is_valid_invite
valid-uses now none i e ok = absurd (ground (arith, e))
valid-uses now (some j) i e ok = let same : j ≡ i = cc in rw (← same) (ground (arith, ok))

accepted-uses :
    (require : Bool) (w : Reads) (now : ℕ) (s : Store) (e : Event) (i : Invite)
    → reject_join_request require w now s e ≡ accept
    → e.kind ≡ kind_join_request
    → is_member s e.pubkey ≡ false
    → invite_code_of e.tags ≢ ""
    → s.invites (invite_code_of e.tags) ≡ some i
    → (i.max_uses ≡ 0) ⊎ (i.uses < i.max_uses)
unfolding reject_join_request check_code
accepted-uses require w now s e i ok kind fresh named found =
    valid-uses now (s.invites (invite_code_of e.tags)) i found
      (ground (arith, ok, eq_iff (invite_code_of e.tags) ""))

accepts-accept : (v : Verdict) → accepts v ≡ true → v ≡ accept
accepts-accept accept h = refl
accepts-accept (reject m) h = absurd (ground (arith, h))

module _ (require : Bool) (q : Request) (limit : ℕ) (code : String) (s : Store) where
  saved-IsWithin :
      1 ≤ limit
      → IsWithin limit code s
      → reject_join_request require q.reads q.now s q.event ≡ accept
      → IsWithin limit code (on_join_request_saved q.writes q.now s q.event)
  unfolding used
  saved-IsWithin positive (i, e, l, u) ok = elim (saved-invites q.writes q.now s q.event code) [
    | inl same ↦ (i, same ∙ e, l, u)
    | inr (uses, is_code, named, kind, fresh) ↦
        let found : s.invites (invite_code_of q.event.tags) ≡ some i = rw (← is_code) e in
        let left =
          accepted-uses require q.reads q.now s q.event i ok kind fresh (rw (← is_code) named)
            found in
        (record i { uses = i.uses + 1 }, uses ∙ ap used e, l, ground (arith, left, l, positive))
  ]

  join-IsWithin : 1 ≤ limit → IsWithin limit code s → IsWithin limit code (join require q s)
  unfolding join
  join-IsWithin positive within =
      elim (Bool-cases (accepts (reject_join_request require q.reads q.now s q.event))) [
        | inl ok ↦ rw ok (saved-IsWithin positive within (accepts-accept _ ok))
        | inr refused ↦ rw refused within
      ]

-- An invite is never used more often than its limit: whatever requests come, at whatever times and
-- whichever of their queries fail, the invite stays, its limit stays, and its uses stay within it, as
-- long as each request is dealt with before the next one is looked at.
pub join_all-IsWithin :
    (require : Bool) (requests : List Request) (limit : ℕ) (code : String) (s : Store)
    → 1 ≤ limit
    → IsWithin limit code s
    → IsWithin limit code (join_all require requests s)
unfolding join_all
join_all-IsWithin require [] limit code s positive within = within
join_all-IsWithin require (q ∷ rest) limit code s positive within =
    join_all-IsWithin require rest limit code (join require q s) positive
      (join-IsWithin require q limit code s positive within)
