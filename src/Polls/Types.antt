-- ===== src/Polls/Types.antt =====
-- internal/polls/types.go: polls and responses, as events and as values.
use cloistr_relay.Prelude.{
  ℕ, String, Bool, true, false, not, ◌&&◌, Option, none, some, List, [], ◌∷◌, ◌++◌, ◌==◌, string_eq,
  nat_eq, ltb, if◌then◌else◌, contains, length,
}
use cloistr_relay.Nostr.{Tag, Event}
use cloistr_relay.Decimal.{ℤ, pos, negsuc, int_eq, atoi, itoa}

abbrev pub kind_poll : ℕ
kind_poll = 1068

abbrev pub kind_poll_response : ℕ
kind_poll_response = 1018

pub record PollOption : Type 0 where
  pub index : ℤ
  pub label : String

pub record Poll : Type 0 where
  pub id : String
  pub question : String
  pub options : List PollOption
  pub closed_at : ℤ
  pub min_choices : ℤ
  pub max_choices : ℤ

pub record PollResponse : Type 0 where
  pub poll_id : String
  pub poll_ref : String
  pub selections : List ℤ

unfoldable pub add_option : Option ℤ → List String → Poll → Poll
add_option none labels poll = poll
add_option (some i) [] poll = poll
add_option (some i) (label ∷ r) poll = record poll {
  options = poll.options ++ (record { index = i; label = label }) ∷ [];
}

unfoldable pub set_closed_at : Option ℤ → Poll → Poll
set_closed_at none poll = poll
set_closed_at (some t) poll = record poll { closed_at = t }

unfoldable pub set_min_choices : Option ℤ → Poll → Poll
set_min_choices none poll = poll
set_min_choices (some n) poll = record poll { min_choices = n }

unfoldable pub set_max_choices : Option ℤ → Poll → Poll
set_max_choices none poll = poll
set_max_choices (some n) poll = record poll { max_choices = n }

-- One turn of the loop over the tags.
unfoldable pub parse_tag : Poll → Tag → Poll
unfolding add_option set_closed_at set_min_choices set_max_choices
parse_tag poll [] = poll
parse_tag poll (k ∷ []) = poll
parse_tag poll (k ∷ v ∷ r) =
    if k == "poll_option"
    then add_option (atoi v) r poll
    else if k == "closed_at"
    then set_closed_at (atoi v) poll
    else if k == "min_choices"
    then set_min_choices (atoi v) poll
    else if k == "max_choices"
    then set_max_choices (atoi v) poll
    else poll

unfoldable pub parse_tags : Poll → List Tag → Poll
unfolding parse_tag
parse_tags poll [] = poll
parse_tags poll (t ∷ tags) = parse_tags (parse_tag poll t) tags

unfoldable pub parse_poll : Event → Option Poll
unfolding parse_tags
parse_poll event =
    if event.kind == kind_poll
    then some (
        parse_tags
          (record {
            id = event.id;
            question = event.content;
            options = [];
            closed_at = pos 0;
            min_choices = pos 1;
            max_choices = pos 1;
          })
          event.tags)
    else none

abbrev pub is_positive : ℤ → Bool
is_positive (pos n) = ltb 0 n
is_positive (negsuc n) = false

unfoldable pub option_tag : PollOption → Tag
option_tag o = "poll_option" ∷ itoa o.index ∷ o.label ∷ []

unfoldable pub option_tags : List PollOption → List Tag
unfolding option_tag
option_tags [] = []
option_tags (o ∷ os) = option_tag o ∷ option_tags os

unfoldable pub tag_if : Bool → String → ℤ → List Tag
tag_if given key z = if given then (key ∷ itoa z ∷ []) ∷ [] else []

-- CreatePollEvent at the time `now`; the event has no id yet.
unfoldable pub create_poll_event : ℕ → String → Poll → Event
unfolding option_tags tag_if
create_poll_event now pubkey poll = record {
  id = "";
  pubkey = pubkey;
  created_at = now;
  kind = kind_poll;
  tags =
      option_tags poll.options
      ++ (tag_if (is_positive poll.closed_at) "closed_at" poll.closed_at
          ++ (tag_if (not (poll.min_choices == pos 1)) "min_choices" poll.min_choices
              ++ tag_if (not (poll.max_choices == pos 1)) "max_choices" poll.max_choices));
  content = poll.question;
}

unfoldable pub add_selection : Option ℤ → PollResponse → PollResponse
add_selection none r = r
add_selection (some i) r = record r { selections = r.selections ++ i ∷ [] }

unfoldable pub parse_response_tag : PollResponse → Tag → PollResponse
unfolding add_selection
parse_response_tag r [] = r
parse_response_tag r (k ∷ []) = r
parse_response_tag r (k ∷ v ∷ rest) =
    if k == "e"
    then record r { poll_id = v }
    else if k == "a"
    then record r { poll_ref = v }
    else if k == "response"
    then add_selection (atoi v) r
    else r

unfoldable pub parse_response_tags : PollResponse → List Tag → PollResponse
unfolding parse_response_tag
parse_response_tags r [] = r
parse_response_tags r (t ∷ tags) = parse_response_tags (parse_response_tag r t) tags

unfoldable pub parse_poll_response : Event → Option PollResponse
unfolding parse_response_tags
parse_poll_response event =
    if event.kind == kind_poll_response
    then some
        (parse_response_tags (record { poll_id = ""; poll_ref = ""; selections = [] }) event.tags)
    else none

unfoldable pub text_tag_if : String → String → List Tag
text_tag_if key v = if not (v == "") then (key ∷ v ∷ []) ∷ [] else []

unfoldable pub selection_tags : List ℤ → List Tag
selection_tags [] = []
selection_tags (i ∷ is) = ("response" ∷ itoa i ∷ []) ∷ selection_tags is

unfoldable pub create_poll_response_event : ℕ → String → PollResponse → Event
unfolding text_tag_if selection_tags
create_poll_response_event now pubkey r = record {
  id = "";
  pubkey = pubkey;
  created_at = now;
  kind = kind_poll_response;
  tags = text_tag_if "e" r.poll_id ++ (text_tag_if "a" r.poll_ref ++ selection_tags r.selections);
  content = "";
}

-- Whether a count is below a bound.
abbrev pub count_lt : ℕ → ℤ → Bool
count_lt n (pos m) = ltb n m
count_lt n (negsuc m) = false

abbrev pub lt_count : ℤ → ℕ → Bool
lt_count (pos m) n = ltb m n
lt_count (negsuc m) n = true

unfoldable pub option_indices : List PollOption → List ℤ
option_indices [] = []
option_indices (o ∷ os) = o.index ∷ option_indices os

-- The loop over the selections.
unfoldable pub all_options : List ℤ → List ℤ → Bool
all_options indices [] = true
all_options indices (s ∷ ss) = contains indices s && all_options indices ss

unfoldable pub validate_response : Poll → PollResponse → Bool
unfolding option_indices all_options
validate_response poll r =
    if count_lt (length r.selections) poll.min_choices
    then false
    else if lt_count poll.max_choices (length r.selections)
    then false
    else all_options (option_indices poll.options) r.selections
