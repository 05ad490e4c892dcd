-- ===== src/Examples/Polling.antt =====
-- A poll with two options (internal/polls).
use cloistr_relay.Prelude.{◌≡◌, refl, some, [], ◌∷◌, if◌then◌else◌}
use cloistr_relay.Decimal.{pos}
use cloistr_relay.Polls.Types.{Poll, is_positive, parse_poll, create_poll_event}
use cloistr_relay.Polls.RoundTrip.{parse-create}

abbrev poll : Poll
poll = record {
  id = "1";
  question = "Which?";
  options =
      (record { index = pos 0; label = "this" }) ∷ (record { index = pos 1; label = "that" }) ∷ [];
  closed_at = pos 1_700_000_000;
  min_choices = pos 1;
  max_choices = pos 2;
}

parse-create_example :
    parse_poll (create_poll_event 5 "alice" poll)
    ≡ some (record poll {
      id = "";
      closed_at = if is_positive poll.closed_at then poll.closed_at else pos 0;
    })
parse-create_example =
    parse-create 5 "alice" poll
      (record { indices = (refl, (refl, tt)); closing = refl; at_least = refl; at_most = refl })
