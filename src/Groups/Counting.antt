-- ===== src/Groups/Counting.antt =====
-- What a COUNT reveals of private groups (privateAwareCount of internal/groups/scope.go).
use cloistr_relay.Prelude.{
  ◌+◌, String, ◌≡◌, refl, sym, ap, ◌∙◌, Bool, true, false, not, ◌&&◌, List, [], ◌∷◌, arith,
  string_eq, eq_iff, any_of, select, contains, length,
}
use cloistr_relay.Nostr.{Event, Filter}
use cloistr_relay.Groups.Scope.{
  State, known_group, is_known, h_values, can_read_group, can_read, visible, is_hidden,
  hidden_groups, Counted, subtract_hidden, private_aware_count,
}

-- The keys of a map are different.
abbrev pub HasUniqueKeys : State → Type 0
HasUniqueKeys [] = Unit
HasUniqueKeys ((key, g) ∷ st) = (is_known st key ≡ false) × HasUniqueKeys st

hidden-is_known :
    (st : State) (reader id : String)
    → is_known st id ≡ false
    → contains (hidden_groups st reader) id ≡ false
unfolding is_known any_of hidden_groups select contains
hidden-is_known [] reader id h = refl
hidden-is_known ((key, g) ∷ st) reader id h = ground (arith, hidden-is_known st reader id)

hidden-can_read :
    (st : State) (reader id : String)
    → HasUniqueKeys st
    → contains (hidden_groups st reader) id ≡ not (can_read st id reader)
unfolding hidden_groups select contains can_read can_read_group known_group is_hidden
hidden-can_read [] reader id u = refl
hidden-can_read ((key, g) ∷ st) reader id u =
    ground
      (arith, hidden-can_read st reader id u.1, hidden-is_known st reader id, eq_iff key id, u.0)

any_of-cong :
    {A : Type 0} (p q : A → Bool) (xs : List A) → ((x : A) → p x ≡ q x) → any_of p xs ≡ any_of q xs
unfolding any_of
any_of-cong p q [] h = refl
any_of-cong p q (x ∷ xs) h = cc (h x, any_of-cong p q xs h)

select-cong :
    {A : Type 0} (p q : A → Bool) (xs : List A) → ((x : A) → p x ≡ q x) → select p xs ≡ select q xs
unfolding select
select-cong p q [] h = refl
select-cong p q (x ∷ xs) h = cc (h x, select-cong p q xs h)

length-split :
    {A : Type 0} (p q : A → Bool) (xs : List A)
    → length (select p xs)
      ≡ length (select (λ x. p x && q x) xs) + length (select (λ x. p x && not (q x)) xs)
unfolding select
length-split p q [] = refl
length-split p q (x ∷ xs) = ground (arith, length-split p q xs)

-- A COUNT handler that counts the stored events that match.
abbrev pub count_of : (Filter → Event → Bool) → List Event → Filter → Counted
count_of matches stored f = record { count = length (select (matches f) stored); failed = false }

-- Naming groups in #h keeps the events that name one of them.
abbrev pub ReadsHTags : (Filter → Event → Bool) → Type 0
ReadsHTags matches =
    (f : Filter) (id : String) (ids : List String) (e : Event)
    → matches (record f { h_tags = id ∷ ids }) e
      ≡ (matches (record f { h_tags = [] }) e && any_of (contains (id ∷ ids)) (h_values e.tags))

none_of : (ids : List String) → any_of (contains []) ids ≡ false
unfolding any_of contains
none_of [] = refl
none_of (id ∷ ids) = none_of ids

-- The difference that the handler computes.
subtract_hidden-length :
    {A : Type 0} (p q : A → Bool) (xs : List A)
    → subtract_hidden
        (record { count = length (select p xs); failed = false })
        (record { count = length (select (λ x. p x && not (q x)) xs); failed = false })
      ≡ record { count = length (select (λ x. p x && q x) xs); failed = false }
unfolding subtract_hidden
subtract_hidden-length p q xs = ground (arith, length-split p q xs)

module _ (st : State) (reader : String) (u : HasUniqueKeys st) where
  abbrev unreadable : String → Bool
  unreadable id = not (can_read st id reader)

  names_hidden-visible :
      (ids : List String)
      → any_of (contains (hidden_groups st reader)) ids
        ≡ any_of (λ id. not (can_read st id reader)) ids
  names_hidden-visible ids =
      any_of-cong (contains (hidden_groups st reader)) (λ id. not (can_read st id reader)) ids
        (λ id. hidden-can_read st reader id u)

  module _ (matches : Filter → Event → Bool) (reads : ReadsHTags matches) (stored : List Event)
      (f : Filter) (plain : f.h_tags ≡ []) where
    abbrev seen : Event → Bool
    seen e = visible st e reader

    abbrev masked : List String → Filter
    masked ids = record f { h_tags = ids }

    masked-none : masked [] ≡ f
    masked-none = ap masked (sym plain)

    matches-masked :
        (id : String) (ids : List String) (e : Event)
        → hidden_groups st reader ≡ id ∷ ids
        → matches (masked (id ∷ ids)) e ≡ (matches f e && not (seen e))
    unfolding visible
    matches-masked id ids e h =
        let values = h_values e.tags in
        let same = ap (λ (f' : Filter). matches f' e) masked-none in
        let hides : any_of (contains (id ∷ ids)) values ≡ any_of unreadable values =
          ap (λ (hs : List String). any_of (contains hs) values) (sym h)
          ∙ names_hidden-visible values in
        ground (arith, reads f id ids e, same, hides)

    all_visible : (e : Event) → hidden_groups st reader ≡ [] → seen e ≡ true
    unfolding visible
    all_visible e h =
        let values = h_values e.tags in
        let hides : any_of (contains []) values ≡ any_of unreadable values =
          ap (λ (hs : List String). any_of (contains hs) values) (sym h)
          ∙ names_hidden-visible values in
        ground (arith, hides, none_of values)

    abbrev counted : List Event → Counted
    counted es = record { count = length es; failed = false }

    -- A COUNT that names no group counts exactly the matching events that the reader may see, if the
    -- store counts the stored events that match and reads #h the way Nostr does, and the ids of the
    -- groups are different: private groups add nothing to the count, and the subtraction takes away
    -- nothing else.
    pub private_aware_count-visible :
        private_aware_count st reader (count_of matches stored) f
        ≡ record { count = length (select (λ e. matches f e && seen e) stored); failed = false }
    unfolding private_aware_count
    private_aware_count-visible = go (hidden_groups st reader) refl
      where
        go :
            (hidden : List String)
            → hidden_groups st reader ≡ hidden
            → private_aware_count st reader (count_of matches stored) f ≡ record {
              count = length (select (λ e. matches f e && seen e) stored);
              failed = false;
            }
        go [] h =
            let all : (e : Event) → matches f e ≡ (matches f e && seen e) =
              λ e. ground (arith, all_visible e h) in
            simp (plain, h)
              (ap counted (select-cong (matches f) (λ e. matches f e && seen e) stored all))
        go (id ∷ ids) h =
            let hides =
              select-cong (matches (masked (id ∷ ids))) (λ e. matches f e && not (seen e)) stored
                (λ e. matches-masked id ids e h) in
            simp (plain, h)
              (ap (λ m. subtract_hidden (counted (select (matches f) stored)) (counted m)) hides
                ∙ subtract_hidden-length (matches f) seen stored)
