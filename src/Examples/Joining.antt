-- ===== src/Examples/Joining.antt =====
-- A join request with an invite that has one use left (internal/membership).
use cloistr_relay.Prelude.{
  ◌≡◌, ◌≢◌, ◌↔◌, refl, ◌⊎◌, Bool, true, false, none, some, [], ◌∷◌, arith, string_eq, nat_eq,
}
use cloistr_relay.Nostr.{Event, accept}
use cloistr_relay.Membership.Join.{
  Invite, Store, has_protected_tag, invite_code_of, is_member, reject_join_request,
}
use cloistr_relay.Membership.Admission.{HasUsableInvite, reject_join_request-HasUsableInvite}
use cloistr_relay.Membership.Invites.{Request, join_all, IsWithin, join_all-IsWithin}

abbrev invite : Invite
invite = record {
  code = "code";
  created_at = 1;
  expires_at = 0;
  max_uses = 1;
  uses = 0;
  created_by = "relay";
}

abbrev store : Store
store = record { members = λ pubkey. none; invites = λ code. some invite }

abbrev required : Bool
required = true

abbrev ask : Event
ask = record {
  id = "1";
  pubkey = "alice";
  created_at = 5;
  kind = 28934;
  tags = ("-" ∷ []) ∷ ("claim" ∷ "code" ∷ []) ∷ [];
  content = "";
}

reject_join_request-HasUsableInvite_example :
    (reject_join_request required (record { member_read = true; invite_read = true }) 10 store ask
      ≡ accept)
    ↔ (has_protected_tag ask ≡ true)
      × (ask.pubkey ≢ "")
      × ((is_member store "alice" ≡ true)
          ⊎ HasUsableInvite 10 store ask
          ⊎ (invite_code_of ask.tags ≡ "") × (required ≡ false))
reject_join_request-HasUsableInvite_example =
    reject_join_request-HasUsableInvite 10 store ask required
      (record { member_read = true; invite_read = true }) refl refl refl

abbrev request : Request
request = record {
  event = ask;
  now = 10;
  reads = record { member_read = true; invite_read = true };
  writes = record { member_checked = true; invite_used = true; member_added = true };
}

join_all-IsWithin_example : IsWithin 1 "code" (join_all true (request ∷ request ∷ []) store)
join_all-IsWithin_example =
    join_all-IsWithin true (request ∷ request ∷ []) 1 "code" store (omega arith)
      (invite, refl, refl, omega arith)
