-- ===== src/Search/Selects.antt =====
-- What the query of a search asks for (internal/search/search.go).
use mathlib.Core.Path.{subst}
use cloistr_relay.Prelude.{
  ℕ, ◌≤◌, ◌≡◌, ◌↔◌, refl, sym, ◌∙◌, String, Bool, true, false, ◌&&◌, ◌||◌, ◌⊎◌, Option, none, some,
  List, [], ◌∷◌, ◌++◌, ap, leb, any_of, any_of-In, In-any_of, In, is_empty, Comparable, arith,
  nat_eq, string_eq, ◌==◌, inl, inr,
}
use cloistr_relay.Nostr.{Event, Arg, num, str}
use cloistr_relay.Sql.{
  Condition, Piece, txt, arg, text_of, where_pieces, matches_search, kind_in, author_in,
  created_from, created_to, Texts, holds, all_hold, arg_at, is_num, is_str,
}
use cloistr_relay.Sql.Builders.{
  Builder, add, add_all, Means, add-Means, add_all-Means, get_elem-append,
}
use cloistr_relay.Sql.Reader.{
  begin, expecting, finished, read_all, read_piece, read_all-append, read_where,
}
use cloistr_relay.Search.Query.{
  SearchFilter, add_time, search_conditions, limit_of, build_search_query, search_query, query_head,
  query_tail,
}

abbrev after : Option ℕ → ℕ → Bool
after none t = true
after (some s) t = leb s t

abbrev before : Option ℕ → ℕ → Bool
before none t = true
before (some s) t = leb t s

and_true : (b : Bool) → b ≡ (b && true)
and_true true = refl
and_true false = refl

and_both : (a b : Bool) → ((a && b) ≡ true) ↔ ((a ≡ true) × (b ≡ true))
and_both true b = (λ h. (refl, h), λ h. h.1)
and_both false b = (λ h. cc, λ h. h.0)

-- An item of the list, or no list at all.
abbrev IsListed : {A : Type 0} → List A → A → Type 0
IsListed xs a = (xs ≡ []) ⊎ In a xs

listed :
    {A : Type 0} ⦃c : Comparable A⦄ (xs : List A) (a : A)
    → ((is_empty xs || any_of (λ x. x == a) xs) ≡ true) ↔ IsListed xs a
listed [] a = (λ h. inl refl, λ h. refl)
listed ⦃c⦄ (x ∷ xs) a = (
  λ h.
      let found = any_of-In (λ y. y == a) (x ∷ xs) h in
      inr (subst (λ z. In z (x ∷ xs)) ((c.same_iff found.0 a).0 found.2) found.1),
  λ h. elim h [
    | inl none' ↦ let gone : ⊥ = cc in absurd gone
    | inr i ↦ In-any_of (λ y. y == a) a (x ∷ xs) i ((c.same_iff a a).1 refl)
  ],
)

abbrev IsAfter : Option ℕ → ℕ → Type 0
IsAfter none t = Unit
IsAfter (some s) t = s ≤ t

abbrev IsBefore : Option ℕ → ℕ → Type 0
IsBefore none t = Unit
IsBefore (some s) t = t ≤ s

after_iff : (o : Option ℕ) (t : ℕ) → (after o t ≡ true) ↔ IsAfter o t
after_iff none t = (λ h. tt, λ h. refl)
after_iff (some s) t = (λ h. ground arith, λ h. ground arith)

before_iff : (o : Option ℕ) (t : ℕ) → (before o t ≡ true) ↔ IsBefore o t
before_iff none t = (λ h. tt, λ h. refl)
before_iff (some s) t = (λ h. ground arith, λ h. ground arith)

-- There is always a condition.
full-append : {A : Type 0} (xs : List A) (x : A) → is_empty (xs ++ x ∷ []) ≡ false
full-append [] x = refl
full-append (y ∷ xs) x = refl

add_time-full :
    (c : ℕ → Condition) (o : Option ℕ) (b : Builder)
    → is_empty b.conditions ≡ false
    → is_empty (add_time c o b).conditions ≡ false
unfolding add_time add
add_time-full c none b h = h
add_time-full c (some s) b h = full-append b.conditions (c b.arg_num)

add_all-full :
    {A : Type 0} (c : List ℕ → Condition) (f : A → Arg) (xs : List A) (b : Builder)
    → is_empty b.conditions ≡ false
    → is_empty (add_all c f xs b).conditions ≡ false
unfolding add_all
add_all-full c f [] b h = h
add_all-full c f (x ∷ xs) b h = full-append b.conditions _

conditions-full :
    (f : SearchFilter) (s : String) → is_empty (search_conditions f s).conditions ≡ false
unfolding search_conditions add
conditions-full f s = add_time-full created_to f.until _ (
    add_time-full created_from f.since _
      (add_all-full author_in str f.authors _ (add_all-full kind_in num f.kinds _ refl)))

module _ (t : Texts) (e : Event) where
  -- The event has the words, and is of the kinds, the authors and the time of the filter.
  pub record IsFound (f : SearchFilter) (s : String) : Type 0 where
    pub searched : t.searched s e ≡ true
    pub kind : IsListed f.kinds e.kind
    pub author : IsListed f.authors e.pubkey
    pub since : IsAfter f.since e.created_at
    pub until : IsBefore f.until e.created_at

  -- What PostgreSQL makes of a search: its text has pieces that are read to the end, as a condition
  -- that finds the row or not, and the number of the argument behind LIMIT.
  pub record Reads (f : SearchFilter) (s : String) : Type 0 where
    pub pieces : List Piece
    pub is_text : (build_search_query f s).0 ≡ text_of pieces
    pub holds_of : Bool
    pub limit_arg : ℕ
    pub reads :
        read_all query_head query_tail t (build_search_query f s).1 e begin pieces
        ≡ finished holds_of limit_arg
    pub finds : (holds_of ≡ true) ↔ IsFound f s
    pub limits : arg_at (build_search_query f s).1 limit_arg ≡ some (num (limit_of f))

  add_from-Means :
      (o : Option ℕ) (b : Builder) (m : Bool)
      → Means t e b m
      → Means t e (add_time created_from o b) (m && after o e.created_at)
  unfolding add_time holds
  add_from-Means none b m h = rw (← and_true m) h
  add_from-Means (some s) b m h =
      add-Means t e created_from (num s) b m (leb s e.created_at) (λ args n q. rw q) h

  add_to-Means :
      (o : Option ℕ) (b : Builder) (m : Bool)
      → Means t e b m
      → Means t e (add_time created_to o b) (m && before o e.created_at)
  unfolding add_time holds
  add_to-Means none b m h = rw (← and_true m) h
  add_to-Means (some s) b m h =
      add-Means t e created_to (num s) b m (leb e.created_at s) (λ args n q. rw q) h

  start-Means :
      (s : String)
      → Means t e
          (add matches_search (str s) (record { conditions = []; args = []; arg_num = 1 }))
          (true && t.searched s e)
  unfolding holds all_hold
  start-Means s =
      add-Means t e matches_search (str s) _ true (t.searched s e) (λ args n q. rw q)
        (record { numbered = refl; means = λ more. refl })

  search-Means :
      (f : SearchFilter) (s : String)
      → Means t e (search_conditions f s) (
          ((((true && t.searched s e) && (is_empty f.kinds || any_of (λ k. k == e.kind) f.kinds))
              && (is_empty f.authors || any_of (λ a. a == e.pubkey) f.authors))
            && after f.since e.created_at)
          && before f.until e.created_at)
  unfolding search_conditions holds
  search-Means f s = add_to-Means f.until _ _ (
      add_from-Means f.since _ _ (
        add_all-Means t e author_in (is_str (λ a. a == e.pubkey)) str (λ a. a == e.pubkey) f.authors
          _ _ (λ args ns. refl) (λ x. refl)
          (add_all-Means t e kind_in (is_num (λ k. k == e.kind)) num (λ k. k == e.kind) f.kinds _ _
            (λ args ns. refl) (λ x. refl) (start-Means s))))

  conditions-IsFound :
      (f : SearchFilter) (s : String)
      → (all_hold t (build_search_query f s).1 e (search_conditions f s).conditions ≡ true)
        ↔ IsFound f s
  unfolding build_search_query
  conditions-IsFound f s =
      let m = search-Means f s in
      let more = num (limit_of f) ∷ [] in
      (
        λ h.
            let h5 = (and_both _ _).0 (sym (m.means more) ∙ h) in
            let h4 = (and_both _ _).0 h5.0 in
            let h3 = (and_both _ _).0 h4.0 in
            let h2 = (and_both _ _).0 h3.0 in
            record {
              searched = h2.0;
              kind = (listed f.kinds e.kind).0 h2.1;
              author = (listed f.authors e.pubkey).0 h3.1;
              since = (after_iff f.since e.created_at).0 h4.1;
              until = (before_iff f.until e.created_at).0 h5.1;
            },
        λ w.
            m.means more
            ∙ (and_both _ _).1 (
              (and_both _ _).1 (
                (and_both _ _).1 (
                  (and_both _ _).1 (w.searched, (listed f.kinds e.kind).1 w.kind),
                  (listed f.authors e.pubkey).1 w.author,
                ),
                (after_iff f.since e.created_at).1 w.since,
              ),
              (before_iff f.until e.created_at).1 w.until,
            ),
      )

  -- The text of a search is made of pieces that PostgreSQL reads, with the query's arguments, as a
  -- condition on the rows and a LIMIT: the condition holds of a row exactly if the row has the words
  -- of the search, one of the kinds if the filter lists any, one of the authors if it lists any, and
  -- a time that is not before Since and not after Until; and the argument of LIMIT is the filter's
  -- limit if that lies between 1 and 99, and 100 otherwise.
  pub search-IsFound : (f : SearchFilter) (s : String) → Reads f s
  unfolding build_search_query search_query read_all read_piece
  search-IsFound f s =
      let b = search_conditions f s in
      let args = (build_search_query f s).1 in
      let found = all_hold t args e b.conditions in
      record {
        pieces = search_query b;
        is_text = refl;
        holds_of = found;
        limit_arg = b.arg_num;
        reads =
            read_all-append query_head query_tail t args e (expecting true)
              (where_pieces b.conditions) (txt query_tail ∷ arg b.arg_num ∷ [])
            ∙ ap
                (λ x.
                  read_all query_head query_tail t args e x (txt query_tail ∷ arg b.arg_num ∷ []))
                (read_where query_head query_tail t args e true b.conditions (conditions-full f s));
        finds = conditions-IsFound f s;
        limits = rw (search-Means f s).numbered (get_elem-append b.args (num (limit_of f)) []);
      }
