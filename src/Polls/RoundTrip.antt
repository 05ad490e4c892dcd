-- ===== src/Polls/RoundTrip.antt =====
-- Polls and responses survive the way through an event.
use mathlib.Core.List.{append_assoc, append-nil}
use cloistr_relay.Prelude.{
  ℕ, ◌≡◌, refl, sym, ap, ◌∙◌, String, Bool, true, false, not, some, List, [], ◌∷◌, ◌++◌, ◌==◌,
  string_eq, nat_eq, eq_iff, if◌then◌else◌, All, arith, Bool-cases, inl, inr,
}
use cloistr_relay.Nostr.{Tag}
use cloistr_relay.Decimal.{ℤ, pos, int_eq, in_range, atoi-itoa}
use cloistr_relay.Polls.Types.{
  PollOption, Poll, PollResponse, add_option, set_closed_at, set_min_choices, set_max_choices,
  parse_tag, parse_tags, parse_poll, is_positive, option_tag, option_tags, tag_if,
  create_poll_event, add_selection, parse_response_tag, parse_response_tags, parse_poll_response,
  text_tag_if, selection_tags, create_poll_response_event,
}

parse_tags-append :
    (poll : Poll) (xs ys : List Tag)
    → parse_tags poll (xs ++ ys) ≡ parse_tags (parse_tags poll xs) ys
unfolding parse_tags
parse_tags-append poll [] ys = refl
parse_tags-append poll (x ∷ xs) ys = parse_tags-append (parse_tag poll x) xs ys

abbrev IsFitting : PollOption → Type 0
IsFitting o = in_range o.index ≡ true

parse-option_tags :
    (poll : Poll) (os : List PollOption)
    → All IsFitting os
    → parse_tags poll (option_tags os) ≡ record poll { options = poll.options ++ os }
unfolding parse_tags option_tags option_tag parse_tag
parse-option_tags poll [] h =
    ap (λ (l : List PollOption). record poll { options = l }) (sym (append-nil poll.options))
parse-option_tags poll (o ∷ os) h =
    let next : Poll = record poll { options = poll.options ++ o ∷ [] } in
    ap (λ r. parse_tags (add_option r (o.label ∷ []) poll) (option_tags os)) (atoi-itoa o.index h.0)
    ∙ parse-option_tags next os h.1
    ∙ ap (λ (l : List PollOption). record poll { options = l })
        (append_assoc poll.options (o ∷ []) os)

module _ (poll : Poll) (z : ℤ) (fits : in_range z ≡ true) where
  parse_closed_at :
      (given : Bool)
      → parse_tags poll (tag_if given "closed_at" z)
        ≡ record poll { closed_at = if given then z else poll.closed_at }
  unfolding parse_tags parse_tag tag_if set_closed_at
  parse_closed_at true = ap (λ r. set_closed_at r poll) (atoi-itoa z fits)
  parse_closed_at false = refl

  parse_min_choices :
      (given : Bool)
      → parse_tags poll (tag_if given "min_choices" z)
        ≡ record poll { min_choices = if given then z else poll.min_choices }
  unfolding parse_tags parse_tag tag_if set_min_choices
  parse_min_choices true = ap (λ r. set_min_choices r poll) (atoi-itoa z fits)
  parse_min_choices false = refl

  parse_max_choices :
      (given : Bool)
      → parse_tags poll (tag_if given "max_choices" z)
        ≡ record poll { max_choices = if given then z else poll.max_choices }
  unfolding parse_tags parse_tag tag_if set_max_choices
  parse_max_choices true = ap (λ r. set_max_choices r poll) (atoi-itoa z fits)
  parse_max_choices false = refl

default_kept : (z : ℤ) → (if not (z == pos 1) then z else pos 1) ≡ z
default_kept z = ground (arith, int_eq.same_iff z (pos 1))

-- The numbers of a poll fit an int64.
pub record IsStorable (poll : Poll) : Type 0 where
  pub indices : All IsFitting poll.options
  pub closing : in_range poll.closed_at ≡ true
  pub at_least : in_range poll.min_choices ≡ true
  pub at_most : in_range poll.max_choices ≡ true

-- The event that is created for a poll is parsed to the poll, apart from the id, which the event
-- has not got yet, and a closing time that is not positive, which is dropped.
pub parse-create :
    (now : ℕ) (pubkey : String) (poll : Poll)
    → IsStorable poll
    → parse_poll (create_poll_event now pubkey poll)
      ≡ some (record poll {
        id = "";
        closed_at = if is_positive poll.closed_at then poll.closed_at else pos 0;
      })
unfolding parse_poll create_poll_event
parse-create now pubkey poll h =
    let p0 : Poll = record {
      id = "";
      question = poll.question;
      options = [];
      closed_at = pos 0;
      min_choices = pos 1;
      max_choices = pos 1;
    } in
    let closes = tag_if (is_positive poll.closed_at) "closed_at" poll.closed_at in
    let least = tag_if (not (poll.min_choices == pos 1)) "min_choices" poll.min_choices in
    let most = tag_if (not (poll.max_choices == pos 1)) "max_choices" poll.max_choices in
    let p1 : Poll = record p0 { options = poll.options } in
    let p2 : Poll = record p1 {
      closed_at = if is_positive poll.closed_at then poll.closed_at else pos 0;
    } in
    let p3 : Poll = record p2 { min_choices = poll.min_choices } in
    ap some (
      parse_tags-append p0 (option_tags poll.options) (closes ++ (least ++ most))
      ∙ ap (λ p. parse_tags p (closes ++ (least ++ most)))
          (parse-option_tags p0 poll.options h.indices)
      ∙ parse_tags-append p1 closes (least ++ most)
      ∙ ap (λ p. parse_tags p (least ++ most))
          (parse_closed_at p1 poll.closed_at h.closing (is_positive poll.closed_at))
      ∙ parse_tags-append p2 least most
      ∙ ap (λ p. parse_tags p most)
          (parse_min_choices p2 poll.min_choices h.at_least (not (poll.min_choices == pos 1))
            ∙ ap (λ (z : ℤ). record p2 { min_choices = z }) (default_kept poll.min_choices))
      ∙ parse_max_choices p3 poll.max_choices h.at_most (not (poll.max_choices == pos 1))
      ∙ ap (λ (z : ℤ). record p3 { max_choices = z }) (default_kept poll.max_choices))

parse_response-append :
    (r : PollResponse) (xs ys : List Tag)
    → parse_response_tags r (xs ++ ys) ≡ parse_response_tags (parse_response_tags r xs) ys
unfolding parse_response_tags
parse_response-append r [] ys = refl
parse_response-append r (x ∷ xs) ys = parse_response-append (parse_response_tag r x) xs ys

parse-selection_tags :
    (r : PollResponse) (zs : List ℤ)
    → All (λ z. in_range z ≡ true) zs
    → parse_response_tags r (selection_tags zs) ≡ record r { selections = r.selections ++ zs }
unfolding parse_response_tags selection_tags parse_response_tag add_selection
parse-selection_tags r [] h =
    ap (λ (l : List ℤ). record r { selections = l }) (sym (append-nil r.selections))
parse-selection_tags r (z ∷ zs) h =
    ap (λ o. parse_response_tags (add_selection o r) (selection_tags zs)) (atoi-itoa z h.0)
    ∙ parse-selection_tags (record r { selections = r.selections ++ z ∷ [] }) zs h.1
    ∙ ap (λ (l : List ℤ). record r { selections = l }) (append_assoc r.selections (z ∷ []) zs)

parse_e_tag :
    (r : PollResponse) (v : String)
    → r.poll_id ≡ ""
    → parse_response_tags r (text_tag_if "e" v) ≡ record r { poll_id = v }
unfolding parse_response_tags parse_response_tag text_tag_if
parse_e_tag r v h = elim (Bool-cases (v == "")) [
  | inl none_given ↦
      rw none_given
        (ap (λ (s : String). record r { poll_id = s }) (h ∙ sym ((eq_iff v "").0 none_given)))
  | inr given ↦ rw given refl
]

parse_a_tag :
    (r : PollResponse) (v : String)
    → r.poll_ref ≡ ""
    → parse_response_tags r (text_tag_if "a" v) ≡ record r { poll_ref = v }
unfolding parse_response_tags parse_response_tag text_tag_if
parse_a_tag r v h = elim (Bool-cases (v == "")) [
  | inl none_given ↦
      rw none_given
        (ap (λ (s : String). record r { poll_ref = s }) (h ∙ sym ((eq_iff v "").0 none_given)))
  | inr given ↦ rw given refl
]

-- The event that is created for a response is parsed to the same response.
pub parse_response-create :
    (now : ℕ) (pubkey : String) (r : PollResponse)
    → All (λ z. in_range z ≡ true) r.selections
    → parse_poll_response (create_poll_response_event now pubkey r) ≡ some r
unfolding parse_poll_response create_poll_response_event
parse_response-create now pubkey r h =
    let r0 : PollResponse = record { poll_id = ""; poll_ref = ""; selections = [] } in
    let r1 : PollResponse = record r0 { poll_id = r.poll_id } in
    let r2 : PollResponse = record r1 { poll_ref = r.poll_ref } in
    let a = text_tag_if "a" r.poll_ref in
    let s = selection_tags r.selections in
    ap some (
      parse_response-append r0 (text_tag_if "e" r.poll_id) (a ++ s)
      ∙ ap (λ x. parse_response_tags x (a ++ s)) (parse_e_tag r0 r.poll_id refl)
      ∙ parse_response-append r1 a s
      ∙ ap (λ x. parse_response_tags x s) (parse_a_tag r1 r.poll_ref refl)
      ∙ parse-selection_tags r2 r.selections h)
