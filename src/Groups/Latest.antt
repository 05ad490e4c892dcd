-- ===== src/Groups/Latest.antt =====
-- The latest event of an author (latestEventFrom of internal/groups/resolve.go).
use cloistr_relay.Prelude.{
  String, ◌≡◌, refl, Bool, true, false, some, List, [], ◌∷◌, arith, nat_eq, string_eq, eq_iff, In,
  All-In, All-select, In-select, In-of-select, select,
}
use cloistr_relay.Prelude.Sorting.{sort-IsLeast}
use cloistr_relay.Prelude.TextOrder.{text_lt_irrefl, text_lt_trans}
use cloistr_relay.Nostr.{Event}
use cloistr_relay.Groups.Resolve.{newer, is_from, latest_event_from}

newer_irrefl : (a : Event) → newer a a ≡ false
unfolding newer
newer_irrefl a = ground (arith, text_lt_irrefl a.id)

newer_trans : (a b c : Event) → newer a b ≡ true → newer b c ≡ true → newer a c ≡ true
unfolding newer
newer_trans a b c p q = ground (arith, text_lt_trans c.id b.id a.id)

is_from-author : (pubkey : String) (e : Event) → is_from pubkey e ≡ true → e.pubkey ≡ pubkey
unfolding is_from
is_from-author pubkey e h = ground (arith, eq_iff e.pubkey pubkey)

-- The event is the author's, and none of the author's events is later, or of the same time with a
-- higher id.
pub record IsLatestOf (events : List Event) (pubkey : String) (e : Event) : Type 0 where
  pub stored : In e events
  pub author : e.pubkey ≡ pubkey
  pub latest : (y : Event) → In y events → y.pubkey ≡ pubkey → newer y e ≡ false

-- latestEventFrom returns the latest of the stored events that the author has signed, whatever order
-- the store returns them in.
pub latest_event_from-IsLatestOf :
    (events : List Event) (pubkey : String) (e : Event)
    → latest_event_from events pubkey ≡ some e
    → IsLatestOf events pubkey e
unfolding latest_event_from is_from
latest_event_from-IsLatestOf events pubkey e found =
    let l = sort-IsLeast newer newer_irrefl newer_trans (select (is_from pubkey) events) e found in
    record {
      stored = In-of-select (is_from pubkey) e events l.member;
      author = is_from-author pubkey e (
          All-In (λ (x : Event). is_from pubkey x ≡ true) e (select (is_from pubkey) events)
            (All-select (is_from pubkey) events) l.member);
      latest = λ y i own.
          l.least y
            (In-select (is_from pubkey) y events i (ground (arith, eq_iff y.pubkey pubkey, own)));
    }

-- The author's events alone decide.
pub select-select :
    (p q : Event → Bool) (events : List Event)
    → ((e : Event) → q e ≡ true → p e ≡ true)
    → select q (select p events) ≡ select q events
unfolding select
select-select p q [] h = refl
select-select p q (e ∷ events) h = ground (arith, h e, select-select p q events h)
