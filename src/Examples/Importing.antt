-- ===== src/Examples/Importing.antt =====
-- A poll in which the store function fails, and a later one (internal/haven/importer.go).
use cloistr_relay.Prelude.{
  ◌≡◌, refl, true, false, Option, some, List, [], ◌∷◌, In, All, arith, ltb, ℕ, if◌then◌else◌, inl,
  inr, contains, any_of, Bool-cases, ◌≤◌,
}
use cloistr_relay.Nostr.{Event}
use cloistr_relay.Haven.Types.{Config, default_config}
use cloistr_relay.Haven.Router.{Router, new_router, route_event, is_addressed_to_owner, is_p_tag}
use cloistr_relay.Haven.Importer.{PollFate, new_importer, since_of, poll_relay}
use cloistr_relay.Haven.Importer.Lost.{IsHonest, polls, failed-lost}

abbrev owned : Config
owned = record default_config {
  enabled = true;
  owner_pubkey = "owner";
  importer_enabled = true;
  importer_relays = "wss://a" ∷ [];
}

abbrev router : Router
router = new_router owned

abbrev mention : Event
mention = record {
  id = "01";
  pubkey = "alice";
  created_at = 50;
  kind = 1;
  tags = ("p" ∷ "owner" ∷ []) ∷ [];
  content = "hello";
}

-- A relay that honours Since.
abbrev answer : ℕ → Option (List Event)
answer since = some (if ltb 50 since then [] else mention ∷ [])

abbrev fails : PollFate
fails = record { connects = true; started = 90; answer = answer; takes = λ i. false; ended = 100 }

abbrev works : PollFate
works = record { connects = true; started = 400; answer = answer; takes = λ i. true; ended = 410 }

honours :
    (since : ℕ) (es : List Event) → answer since ≡ some es → All (λ e. since ≤ e.created_at) es
honours since es h = elim (Bool-cases (ltb 50 since)) [
  | inl late ↦ let q : some [] ≡ some es = rw late at h in let e : [] ≡ es = cc q in rw (← e) tt
  | inr early ↦
      let q : some (mention ∷ []) ≡ some es = rw early at h in
      let e : mention ∷ [] ≡ es = cc q in rw (← e) (ground arith, tt)
]

works-IsHonest : IsHonest router 100 works
works-IsHonest = record { honours = honours; later = omega arith }

asked :
    fails.answer (since_of router fails.started (new_importer.last_fetch "wss://a"))
    ≡ some (mention ∷ [])
unfolding since_of new_importer
asked = refl

-- The poll has stored nothing, so later polls store the event in no case.
unstored : ¬ In mention (poll_relay router "wss://a" fails new_importer).stored
unfolding poll_relay new_importer contains route_event any_of is_addressed_to_owner is_p_tag
unstored i = i

failed-lost_example :
    ¬ In mention
      (polls router "wss://a" (works ∷ []) (poll_relay router "wss://a" fails new_importer)).stored
failed-lost_example =
    failed-lost router "wss://a" fails (mention ∷ []) new_importer mention (works ∷ []) refl asked
      (omega arith) (works-IsHonest, tt) unstored
