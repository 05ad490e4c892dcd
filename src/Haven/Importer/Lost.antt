-- ===== src/Haven/Importer/Lost.antt =====
-- What an importer cannot fetch again (internal/haven/importer.go).
use cloistr_relay.Prelude.{
  ℕ, ◌+◌, ◌≤◌, ◌<◌, ◌≡◌, refl, String, Bool, true, ◌⊎◌, inl, inr, Option, none, some, List, [], ◌∷◌,
  ◌++◌, All, In, All-In, arith, Bool-cases, string_eq, eq_iff,
}
use cloistr_relay.Nostr.{Event}
use cloistr_relay.Haven.Router.{Router}
use cloistr_relay.Haven.Importer.{
  Importer, PollFate, is_skipped, import_events, fetch_error, since_of, close_poll, take_answer,
  remember, poll_relay,
}

In-snoc : (e x : Event) (xs : List Event) → In e (xs ++ x ∷ []) → In e xs ⊎ (e ≡ x)
In-snoc e x [] (inl p) = inr p
In-snoc e x [] (inr i) = absurd i
In-snoc e x (y ∷ xs) (inl p) = inl (inl p)
In-snoc e x (y ∷ xs) (inr i) = elim (In-snoc e x xs i) [ inl j ↦ inl (inr j) | inr q ↦ inr q ]

module _ (r : Router) where
  -- Only events of the answer are stored, and no times of fetches change.
  record IsTaken (es : List Event) (imp imp' : Importer) : Type 0 where
    from : (e : Event) → In e imp'.stored → In e imp.stored ⊎ In e es
    fetched : imp'.last_fetch ≡ imp.last_fetch

  IsTaken-more :
      (x : Event) (es : List Event) (imp imp' : Importer)
      → IsTaken es imp imp'
      → IsTaken (x ∷ es) imp imp'
  IsTaken-more x es imp imp' h = record {
    from = λ e i. elim (h.from e i) [ inl j ↦ inl j | inr j ↦ inr (inr j) ];
    fetched = h.fetched;
  }

  IsTaken-remember :
      (x : Event) (es : List Event) (imp imp' : Importer)
      → IsTaken es (remember x imp) imp'
      → IsTaken (x ∷ es) imp imp'
  unfolding remember
  IsTaken-remember x es imp imp' h = record {
    from = λ e i. elim (h.from e i) [
      | inl j ↦ elim (In-snoc e x imp.stored j) [ inl k ↦ inl k | inr q ↦ inr (inl q) ]
      | inr j ↦ inr (inr j)
    ];
    fetched = h.fetched;
  }

  import_events-IsTaken :
      (takes : ℕ → Bool) (i : ℕ) (es : List Event) (imp : Importer) (m n : ℕ)
      → IsTaken es imp (import_events r takes i es imp m n).0
  unfolding import_events
  import_events-IsTaken takes i [] imp m n = record { from = λ e i. inl i; fetched = refl }
  import_events-IsTaken takes i (x ∷ es) imp m n =
      elim (Bool-cases (is_skipped r imp.seen_events x)) [
        | inl skip ↦
            rw skip (IsTaken-more x es imp _ (import_events-IsTaken takes (i + 1) es imp m (n + 1)))
        | inr new ↦ rw new (elim (Bool-cases (takes i)) [
          | inl ok ↦ rw ok (
              IsTaken-remember x es imp _
                (import_events-IsTaken takes (i + 1) es (remember x imp) (m + 1) n))
          | inr bad ↦
              rw bad (IsTaken-more x es imp _ (import_events-IsTaken takes (i + 1) es imp m n))
        ])
      ]

  -- The relay honours Since, and the clock has passed `t` when the poll ends.
  pub record IsHonest (t : ℕ) (f : PollFate) : Type 0 where
    pub honours :
        (since : ℕ) (es : List Event)
        → f.answer since ≡ some es
        → All (λ e. since ≤ e.created_at) es
    pub later : t ≤ f.ended

  unfoldable pub polls : String → List PollFate → Importer → Importer
  polls url [] imp = imp
  polls url (f ∷ fates) imp = polls url fates (poll_relay r url f imp)

  -- Polls of a relay that was fetched from after `t` leave out what was created before `t`.
  record IsPast (t : ℕ) (url : String) (imp : Importer) : Type 0 where
    time : ℕ
    fetched : imp.last_fetch url ≡ some time
    past : t ≤ time

  close_poll-IsPast :
      (t : ℕ) (url : String) (f : PollFate) (es : List Event) (imp : Importer)
      → t ≤ f.ended
      → IsPast t url (close_poll r url f.ended (import_events r f.takes 0 es imp 0 0))
  unfolding close_poll
  close_poll-IsPast t url f es imp late = record {
    time = f.ended;
    fetched = rw ((eq_iff url url).1 refl) refl;
    past = late;
  }

  close_poll-stored :
      (url : String) (f : PollFate) (es : List Event) (imp : Importer) (e : Event)
      → In e (close_poll r url f.ended (import_events r f.takes 0 es imp 0 0)).stored
      → In e imp.stored ⊎ In e es
  unfolding close_poll
  close_poll-stored url f es imp e i = (import_events-IsTaken f.takes 0 es imp 0 0).from e i

  -- A poll of such a relay keeps it such, and stores nothing that was created before.
  record IsQuiet (t : ℕ) (url : String) (e : Event) (imp imp' : Importer) : Type 0 where
    still : IsPast t url imp'
    unstored : In e imp'.stored → In e imp.stored

  fetch_error-IsQuiet :
      (t : ℕ) (url : String) (e : Event) (imp : Importer)
      → IsPast t url imp
      → IsQuiet t url e imp (fetch_error r imp)
  unfolding fetch_error
  fetch_error-IsQuiet t url e imp h = record {
    still = record { time = h.time; fetched = h.fetched; past = h.past };
    unstored = λ i. i;
  }

  take_answer-IsQuiet :
      (t : ℕ) (url : String) (f : PollFate) (e : Event) (imp : Importer) (o : Option (List Event))
      → IsHonest t f
      → IsPast t url imp
      → e.created_at < t
      → ((es : List Event) → o ≡ some es → All (λ x. t ≤ x.created_at) es)
      → IsQuiet t url e imp (take_answer r url f o imp)
  unfolding take_answer
  take_answer-IsQuiet t url f e imp none honest h old late = fetch_error-IsQuiet t url e imp h
  take_answer-IsQuiet t url f e imp (some es) honest h old late = record {
    still = close_poll-IsPast t url f es imp honest.later;
    unstored = λ i. elim (close_poll-stored url f es imp e i) [
      | inl j ↦ j
      | inr j ↦
          let new : t ≤ e.created_at = All-In (λ x. t ≤ x.created_at) e es (late es refl) j in
          absurd (omega (arith, new, old))
    ];
  }

  All-later :
      (t u : ℕ) (es : List Event)
      → t ≤ u
      → All (λ x. u ≤ x.created_at) es
      → All (λ x. t ≤ x.created_at) es
  All-later t u [] le h = tt
  All-later t u (x ∷ es) le h = (omega (arith, le, h.0), All-later t u es le h.1)

  poll_relay-IsQuiet :
      (t : ℕ) (url : String) (f : PollFate) (e : Event) (imp : Importer)
      → IsHonest t f
      → IsPast t url imp
      → e.created_at < t
      → IsQuiet t url e imp (poll_relay r url f imp)
  unfolding poll_relay since_of
  poll_relay-IsQuiet t url f e imp honest h old = elim (Bool-cases f.connects) [
    | inl up ↦
        rw (up, h.fetched)
          (take_answer-IsQuiet t url f e imp (f.answer h.time) honest h old
            (λ es q. All-later t h.time es h.past (honest.honours h.time es q)))
    | inr down ↦ rw down (fetch_error-IsQuiet t url e imp h)
  ]

  polls-IsQuiet :
      (t : ℕ) (url : String) (fates : List PollFate) (e : Event) (imp : Importer)
      → All (IsHonest t) fates
      → IsPast t url imp
      → e.created_at < t
      → In e (polls url fates imp).stored
      → In e imp.stored
  unfolding polls
  polls-IsQuiet t url [] e imp honest h old i = i
  polls-IsQuiet t url (f ∷ fates) e imp honest h old i =
      let quiet = poll_relay-IsQuiet t url f e imp honest.0 h old in
      quiet.unstored
        (polls-IsQuiet t url fates e (poll_relay r url f imp) honest.1 quiet.still old i)

  poll_relay-IsPast :
      (url : String) (f : PollFate) (es : List Event) (imp : Importer)
      → f.connects ≡ true
      → f.answer (since_of r f.started (imp.last_fetch url)) ≡ some es
      → IsPast f.ended url (poll_relay r url f imp)
  unfolding poll_relay take_answer
  poll_relay-IsPast url f es imp up answered =
      rw (up, answered) (close_poll-IsPast f.ended url f es imp (omega arith))

  -- A failure of the store function is final: an event that was created before a poll of a relay
  -- ended, and that is not stored by then although the relay answered, is not stored by any later
  -- polls of this relay, if the relay honours Since and the clock does not go back.
  pub failed-lost :
      (url : String) (f : PollFate) (es : List Event) (imp : Importer) (e : Event)
      (fates : List PollFate)
      → f.connects ≡ true
      → f.answer (since_of r f.started (imp.last_fetch url)) ≡ some es
      → e.created_at < f.ended
      → All (IsHonest f.ended) fates
      → ¬ In e (poll_relay r url f imp).stored
      → ¬ In e (polls url fates (poll_relay r url f imp)).stored
  failed-lost url f es imp e fates up answered old honest out i = out (
      polls-IsQuiet f.ended url fates e (poll_relay r url f imp) honest
        (poll_relay-IsPast url f es imp up answered) old i)
