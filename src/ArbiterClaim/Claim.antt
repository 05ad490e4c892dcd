-- ===== src/ArbiterClaim/Claim.antt =====
-- internal/arbiterclaim/claim.go. The text of an ErrMalformed is kept as the message that the
-- handler makes of it.
use cloistr_relay.Prelude.{
  ℕ, String, List, [], ◌∷◌, Bool, false, not, ◌&&◌, Option, ◌==◌, nat_eq, string_eq, any_of,
  if◌then◌else◌,
}
use cloistr_relay.Prelude.Sorting.{sort_by, first}
use cloistr_relay.Prelude.TextOrder.{text_lt}
use cloistr_relay.Strings.{has_prefix, trim_prefix, trim_space}
use cloistr_relay.Nostr.{Tag, Event}

abbrev pub kind_claim : ℕ
kind_claim = 30078

abbrev pub d_tag_prefix : String
d_tag_prefix = "arbiter:claim:"

abbrev pub tag_marker : String
tag_marker = "arbiter-claim"

pub record Claim : Type 0 where
  pub task_id : String
  pub event_id : String
  pub claimant : String
  pub at : ℕ

-- The value of the first tag of that name, or "".
unfoldable pub tag_value : String → List Tag → String
tag_value name [] = ""
tag_value name ((k ∷ v ∷ more) ∷ tags) =
    let rest = tag_value name tags in if k == name then v else rest
tag_value name (_ ∷ tags) = tag_value name tags

is_tag : String → String → Tag → Bool
is_tag name value (k ∷ v ∷ more) = k == name && v == value
is_tag name value (k ∷ []) = false
is_tag name value [] = false

unfoldable pub has_tag : Event → String → String → Bool
unfolding is_tag
has_tag event name value = any_of (is_tag name value) event.tags

unfoldable pub is_claim : Event → Bool
unfolding tag_value
is_claim event = event.kind == kind_claim && has_prefix (tag_value "d" event.tags) d_tag_prefix

unfoldable pub task_id_of : Event → String
task_id_of event =
    if is_claim event then trim_space (trim_prefix (tag_value "d" event.tags) d_tag_prefix) else ""

pub data Checked : Type 0 where
  malformed : String → Checked
  well_formed : Claim → Checked

unfoldable pub validate : Event → Checked
validate event =
    if task_id_of event == ""
    then malformed "empty task id after arbiter:claim:"
    else if not (has_tag event "t" tag_marker)
    then malformed "missing t=arbiter-claim marker tag"
    else if event.id == ""
    then malformed "event has no id"
    else well_formed (record {
      task_id = task_id_of event;
      event_id = event.id;
      claimant = event.pubkey;
      at = event.created_at;
    })

abbrev pub before : Claim → Claim → Bool
before a b = text_lt a.event_id b.event_id

-- Winner: the lowest event id.
unfoldable pub winner : List Claim → Option Claim
winner claims = first (sort_by before claims)

-- BuildClaimEvent. The caller signs it, which fills in the id and the key.
unfoldable pub build_claim_tags : String → List Tag
build_claim_tags task_id =
    ("d" ∷ Prim.Native.String.◌++◌ d_tag_prefix task_id ∷ []) ∷ ("t" ∷ tag_marker ∷ []) ∷ []
