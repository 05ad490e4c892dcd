-- ===== src/Haven/Subscriber/Spacing.antt =====
-- How often a subscriber stores an event (internal/haven/subscriber.go).
use cloistr_relay.Prelude.{
  ℕ, ◌+◌, ◌-◌, ◌≤◌, ◌<◌, ◌≡◌, refl, sym, ap, ◌∙◌, String, Bool, true, false, ◌⊎◌, inl, inr, Option,
  none, some, List, [], ◌∷◌, All, arith, Bool-cases, if◌then◌else◌, string_eq, eq_iff, ◌==◌, ltb,
}
use cloistr_relay.Nostr.{Event}
use cloistr_relay.Haven.Router.{Router}
use cloistr_relay.Haven.Subscriber.{
  Subscriber, Taken, new_subscriber, process_event, is_seen, skip, count_event, import_event,
  one_hour, is_old, cleanup_seen_events,
}

-- What happens to a subscriber, with its time.
pub data Op : Type 0 where
  process_of : ℕ → Bool → Event → Op
  cleanup_of : ℕ → Op

abbrev pub time_of : Op → ℕ
time_of (process_of now takes e) = now
time_of (cleanup_of now) = now

-- The clock does not go back.
abbrev pub IsOrdered : ℕ → List Op → Type 0
IsOrdered t [] = Unit
IsOrdered t (op ∷ ops) = (t ≤ time_of op) × IsOrdered (time_of op) ops

-- An earlier storage of the same id is more than an hour ago.
abbrev pub IsApart : Taken → Taken → Type 0
IsApart later earlier = earlier.event.id ≡ later.event.id → earlier.time + one_hour < later.time

abbrev pub IsSpaced : List Taken → Type 0
IsSpaced [] = Unit
IsSpaced (t ∷ ts) = All (IsApart t) ts × IsSpaced ts

-- An event that was stored is in the set with a later time, or was stored more than an hour ago.
abbrev IsKnown : ℕ → (String → Option ℕ) → Taken → Type 0
IsKnown now seen t =
    ((u : ℕ) × (seen t.event.id ≡ some u) × (t.time ≤ u) × (u ≤ now)) ⊎ (t.time + one_hour < now)

record IsSound (now : ℕ) (s : Subscriber) : Type 0 where
  known : All (IsKnown now s.seen_events) s.stored
  spaced : IsSpaced s.stored

IsKnown-later :
    (t u : ℕ) (seen : String → Option ℕ) (ts : List Taken)
    → t ≤ u
    → All (IsKnown t seen) ts
    → All (IsKnown u seen) ts
IsKnown-later t u seen [] le h = tt
IsKnown-later t u seen (x ∷ ts) le h = (
  elim h.0 [
    | inl (v, at, ge, lt) ↦ inl (v, at, ge, omega (arith, lt, le))
    | inr old ↦ inr (omega (arith, old, le))
  ],
  IsKnown-later t u seen ts le h.1,
)

unseen-IsApart :
    (now : ℕ) (seen : String → Option ℕ) (e : Event) (ts : List Taken)
    → seen e.id ≡ none
    → All (IsKnown now seen) ts
    → All (IsApart (record { event = e; time = now })) ts
unseen-IsApart now seen e [] new h = tt
unseen-IsApart now seen e (x ∷ ts) new h = (
  λ same. elim h.0 [
    | inl (u, there, le, lt) ↦
        let gone : ◌≡◌ {A = Option ℕ} none (some u) = sym new ∙ sym (ap seen same) ∙ there in
        let wrong : ⊥ = cc in absurd wrong
    | inr old ↦ old
  ],
  unseen-IsApart now seen e ts new h.1,
)

cleanup-IsKnown :
    (now : ℕ) (seen : String → Option ℕ) (ts : List Taken)
    → All (IsKnown now seen) ts
    → All (IsKnown now (λ id. if is_old (now - one_hour) (seen id) then none else seen id)) ts
unfolding is_old
cleanup-IsKnown now seen [] h = tt
cleanup-IsKnown now seen (x ∷ ts) h = (
  elim h.0 [
    | inl (u, there, le, lt) ↦ elim (Bool-cases (ltb u (now - one_hour))) [
      | inl old ↦ inr (ground (arith, old, le))
      | inr new ↦ inl (u, rw there (rw new refl), le, lt)
    ]
    | inr old ↦ inr old
  ],
  cleanup-IsKnown now seen ts h.1,
)

not_later : (now : ℕ) (seen : String → Option ℕ) (t : Taken) → IsKnown now seen t → t.time ≤ now
not_later now seen t (inl (u, there, le, lt)) = omega (arith, le, lt)
not_later now seen t (inr old) = omega (arith, old)

import-IsKnown :
    (now : ℕ) (e : Event) (seen : String → Option ℕ) (ts : List Taken)
    → All (IsKnown now seen) ts
    → All (IsKnown now (λ id. if id == e.id then some now else seen id)) ts
import-IsKnown now e seen [] h = tt
import-IsKnown now e seen (x ∷ ts) h = (
  elim (Bool-cases (x.event.id == e.id)) [
    | inl same ↦ inl (now, rw same refl, not_later now seen x h.0, omega arith)
    | inr other ↦ elim h.0 [
      | inl (u, there, le, lt) ↦ inl (u, rw other there, le, lt)
      | inr old ↦ inr old
    ]
  ],
  import-IsKnown now e seen ts h.1,
)

unseen : (o : Option ℕ) → is_seen o ≡ false → o ≡ none
unfolding is_seen
unseen none h = refl
unseen (some t) h = cc

choose :
    (now : ℕ) (b : Bool) (x y : Subscriber)
    → IsSound now x
    → IsSound now y
    → IsSound now (if b then x else y)
choose now true x y h k = h
choose now false x y h k = k

import_event-IsSound :
    (now : ℕ) (e : Event) (s : Subscriber)
    → s.seen_events e.id ≡ none
    → IsSound now s
    → IsSound now (import_event now e (count_event s))
unfolding import_event count_event
import_event-IsSound now e s fresh h = record {
  known = (
    inl (now, rw ((eq_iff e.id e.id).1 refl) refl, omega arith, omega arith),
    import-IsKnown now e s.seen_events s.stored h.known,
  );
  spaced = (unseen-IsApart now s.seen_events e s.stored fresh h.known, h.spaced);
}

module _ (r : Router) where
  process_event-IsSound :
      (now : ℕ) (takes : Bool) (e : Event) (s : Subscriber)
      → IsSound now s
      → IsSound now (process_event r now takes e s)
  unfolding process_event skip count_event
  process_event-IsSound now takes e s h = elim (Bool-cases (is_seen (s.seen_events e.id))) [
    | inl seen ↦ rw seen (record { known = h.known; spaced = h.spaced })
    | inr new ↦
        let fresh : s.seen_events e.id ≡ none = unseen (s.seen_events e.id) new in
        let same : IsSound now (skip (count_event s)) = record {
          known = h.known;
          spaced = h.spaced;
        } in
        rw new (
          choose now _ (skip (count_event s)) _ same (
            choose now _ (skip (count_event s)) _ same (
              choose now takes (import_event now e (count_event s)) (count_event s)
                (import_event-IsSound now e s fresh h)
                (record { known = h.known; spaced = h.spaced }))))
  ]

  later-IsSound : (t u : ℕ) (s : Subscriber) → t ≤ u → IsSound t s → IsSound u s
  later-IsSound t u s le h = record {
    known = IsKnown-later t u s.seen_events s.stored le h.known;
    spaced = h.spaced;
  }

  step : Op → Subscriber → Subscriber
  step (process_of now takes e) s = process_event r now takes e s
  step (cleanup_of now) s = cleanup_seen_events now s

  unfoldable pub run : List Op → Subscriber → Subscriber
  unfolding step
  run [] s = s
  run (op ∷ ops) s = run ops (step op s)

  step-IsSound :
      (t : ℕ) (op : Op) (s : Subscriber)
      → t ≤ time_of op
      → IsSound t s
      → IsSound (time_of op) (step op s)
  unfolding step cleanup_seen_events
  step-IsSound t (process_of now takes e) s le h =
      process_event-IsSound now takes e s (later-IsSound t now s le h)
  step-IsSound t (cleanup_of now) s le h = record {
    known =
        cleanup-IsKnown now s.seen_events s.stored
          (IsKnown-later t now s.seen_events s.stored le h.known);
    spaced = h.spaced;
  }

  run_keep :
      (t : ℕ) (ops : List Op) (s : Subscriber)
      → IsOrdered t ops
      → IsSound t s
      → IsSpaced (run ops s).stored
  unfolding run
  run_keep t [] s order h = h.spaced
  run_keep t (op ∷ ops) s order h =
      run_keep (time_of op) ops (step op s) order.1 (step-IsSound t op s order.0 h)

  -- If the clock does not go back: over any sequence of events and cleanups from a new subscriber,
  -- whatever the events are and whichever calls of the store function fail, two events that it
  -- stores under the same id are more than an hour apart.
  pub run-IsSpaced :
      (t : ℕ) (ops : List Op) → IsOrdered t ops → IsSpaced (run ops new_subscriber).stored
  unfolding new_subscriber
  run-IsSpaced t ops order =
      run_keep t ops new_subscriber order (record { known = tt; spaced = tt })
