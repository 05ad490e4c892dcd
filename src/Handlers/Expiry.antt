-- ===== src/Handlers/Expiry.antt =====
-- Expiration tags (NIP-40) of internal/handlers/handlers.go. The clock is an argument.
use cloistr_relay.Prelude.{
  ℕ, ◌≤◌, ◌≡◌, ◌↔◌, ◌⊎◌, refl, ap, ◌∙◌, Bool, true, false, ◌&&◌, Option, none, some, List, [], ◌∷◌,
  ◌++◌, ◌==◌, string_eq, ltb, if◌then◌else◌, arith, All,
}
use cloistr_relay.Nostr.{Tag, Event, text, Verdict, accept, reject}
use cloistr_relay.Decimal.{ℤ, pos, negsuc, atoi, itoa, in_range, atoi-itoa}

-- The number in an expiration tag, if the tag is one that can be read.
unfoldable pub expiration_in : Tag → Option ℤ
expiration_in [] = none
expiration_in (k ∷ []) = none
expiration_in (k ∷ v ∷ r) = if k == "expiration" then atoi v else none

unfoldable pub or_next : Option ℤ → ℤ → ℤ
or_next none z = z
or_next (some t) z = t

unfoldable pub get_expiration : List Tag → ℤ
unfolding expiration_in or_next
get_expiration [] = pos 0
get_expiration (tag ∷ tags) = or_next (expiration_in tag) (get_expiration tags)

-- Positive, and before the clock.
unfoldable pub is_past : ℕ → ℤ → Bool
is_past now (pos t) = ltb 0 t && ltb t now
is_past now (negsuc t) = false

unfoldable pub is_expired : ℕ → Event → Bool
unfolding is_past
is_expired now event = is_past now (get_expiration event.tags)

unfoldable pub reject_expired_events : ℕ → Event → Verdict
reject_expired_events now event =
    if is_expired now event then reject (text "invalid: event has expired") else accept

abbrev Unreadable : Tag → Type 0
Unreadable tag = expiration_in tag ≡ none

-- The expiration time of an event is that of its first tag that can be read as one.
skip-Unreadable :
    (before rest : List Tag)
    → All Unreadable before
    → get_expiration (before ++ rest) ≡ get_expiration rest
unfolding get_expiration
skip-Unreadable [] rest h = refl
skip-Unreadable (t ∷ before) rest h =
    ap (λ o. or_next o (get_expiration (before ++ rest))) h.0 ∙ skip-Unreadable before rest h.1

-- No expiration time, or one that the clock has not passed.
abbrev pub IsLive : ℕ → ℤ → Type 0
IsLive now (pos t) = (t ≡ 0) ⊎ (now ≤ t)
IsLive now (negsuc t) = Unit

is_past-IsLive : (now : ℕ) (z : ℤ) → (is_past now z ≡ false) ↔ IsLive now z
unfolding is_past
is_past-IsLive now (pos t) = ground arith
is_past-IsLive now (negsuc t) = ground arith

first_expiration :
    (before after : List Tag) (z : ℤ)
    → All Unreadable before
    → in_range z ≡ true
    → get_expiration (before ++ (("expiration" ∷ itoa z ∷ []) ∷ after)) ≡ z
unfolding get_expiration expiration_in or_next
first_expiration before after z h fits =
    skip-Unreadable before (("expiration" ∷ itoa z ∷ []) ∷ after) h
    ∙ ap (λ o. or_next o (get_expiration after)) (atoi-itoa z fits)

-- An event whose first readable expiration tag has the time `z` is accepted by the expiration check
-- exactly if `z` is not positive, or not before the clock.
pub reject_expired_events-IsLive :
    (now : ℕ) (event : Event) (before after : List Tag) (z : ℤ)
    → All Unreadable before
    → in_range z ≡ true
    → event.tags ≡ before ++ (("expiration" ∷ itoa z ∷ []) ∷ after)
    → (reject_expired_events now event ≡ accept) ↔ IsLive now z
unfolding reject_expired_events is_expired
reject_expired_events-IsLive now event before after z h fits e = ground (
  arith,
  is_past-IsLive now z,
  ap (is_past now) (ap get_expiration e ∙ first_expiration before after z h fits),
)
