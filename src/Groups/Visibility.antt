-- ===== src/Groups/Visibility.antt =====
-- Who sees the events of private groups (internal/groups/scope.go).
use cloistr_relay.Prelude.{
  String, ◌≡◌, ◌≢◌, refl, ap, ◌↔◌, ◌⊎◌, inl, inr, Bool, true, false, not, Option, none, some, List,
  [], arith, string_eq, eq_iff, In, All-In, All-select, In-select, In-of-select, any_of-In,
  In-any_of, any_of, select, contains, Bool-cases,
}
use cloistr_relay.Nostr.{Event, Filter}
use cloistr_relay.Groups.Scope.{
  Group, State, known_group, h_values, can_read_group, can_read, visible, only_visible,
  ordinary_query, group_query, is_group_filter,
}

module _ (st : State) (reader : String) where
  -- The id names no private group, or the reader is authenticated as a member of it.
  abbrev pub MayRead : String → Type 0
  MayRead id =
      (known_group st id ≡ none)
      ⊎ ((g : Group) × (known_group st id ≡ some g)
          × ((g.private ≡ false) ⊎ (reader ≢ "") × (contains g.members reader ≡ true)))

  can_read_group-cases :
      (g : Option Group)
      → (can_read_group reader g ≡ true) ↔ (
          (g ≡ none)
          ⊎ ((x : Group) × (g ≡ some x)
              × ((x.private ≡ false) ⊎ (reader ≢ "") × (contains x.members reader ≡ true))))
  unfolding can_read_group
  can_read_group-cases none = (λ _. inl refl, λ _. refl)
  can_read_group-cases (some g) = (
    λ h. inr (g, refl, ground (arith, h, eq_iff reader "")),
    λ h. elim h [
      | inl e ↦ absurd (ground (arith, e))
      | inr (x, e, ok) ↦
          let same : x ≡ g = cc in
          let clear = rw same at ok in ground (arith, clear, eq_iff reader "")
    ],
  )

  pub can_read-MayRead : (id : String) → (can_read st id reader ≡ true) ↔ MayRead id
  unfolding can_read
  can_read-MayRead id = can_read_group-cases (known_group st id)

  -- Every group that the event names in an h tag may be read by the reader.
  abbrev pub IsVisible : Event → Type 0
  IsVisible e = (id : String) → In id (h_values e.tags) → MayRead id

  abbrev unreadable : String → Bool
  unreadable id = not (can_read st id reader)

  pub visible-IsVisible : (e : Event) → (visible st e reader ≡ true) ↔ IsVisible e
  unfolding visible
  visible-IsVisible e = (
    λ v id i. (can_read-MayRead id).0 (elim (Bool-cases (can_read st id reader)) [
      | inl readable ↦ readable
      | inr hidden ↦
          absurd (ground (arith, v, In-any_of unreadable id (h_values e.tags) i (ap not hidden)))
    ]),
    λ all. elim (Bool-cases (any_of unreadable (h_values e.tags))) [
      | inl named ↦
          let (id, i, u) = any_of-In unreadable (h_values e.tags) named in
          absurd (ground (arith, u, (can_read-MayRead id).1 (all id i)))
      | inr clear ↦ ap not clear
    ],
  )

  abbrev seen : Event → Bool
  seen e = visible st e reader

  -- A query that is not addressed to groups returns exactly the stored events that the reader may
  -- see: none that names a private group in which the reader is no member, and all the others.
  pub ordinary_query-IsVisible :
      (q : Filter → Option (List Event)) (f : Filter) (events : List Event)
      → is_group_filter st f ≡ false
      → q f ≡ some events
      → (es : List Event) × (ordinary_query st reader q f ≡ some es)
        × ((e : Event) → In e es ↔ In e events × IsVisible e)
  unfolding ordinary_query only_visible
  ordinary_query-IsVisible q f events plain read = (
    select seen events,
    rw plain (ap (only_visible st reader) read),
    λ e. (
      λ i. (
        In-of-select seen e events i,
        (visible-IsVisible e).0 (
            All-In (λ (x : Event). seen x ≡ true) e (select seen events) (All-select seen events)
              i),
      ),
      λ both. In-select seen e events both.0 ((visible-IsVisible e).1 both.1),
    ),
  )

  -- The two kinds of handlers share the questions out: a question is answered by the ordinary
  -- handlers or by relay29's, and the others add nothing to the answer.
  pub group_query-ordinary_query :
      (q g : Filter → Option (List Event)) (f : Filter)
      → (group_query st g f ≡ some [])
          × (ordinary_query st reader q f ≡ only_visible st reader (q f))
        ⊎ (group_query st g f ≡ g f) × (ordinary_query st reader q f ≡ some [])
  unfolding group_query ordinary_query
  group_query-ordinary_query q g f = ground arith
