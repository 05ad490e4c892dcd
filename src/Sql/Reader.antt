-- ===== src/Sql/Reader.antt =====
-- What PostgreSQL makes of a query's text: a reader of the grammar of the queries of internal/search,
-- independent of how they are put together. Its results are for one row.
use cloistr_relay.Prelude.{
  ℕ, ◌≡◌, refl, ap, ◌∙◌, String, Bool, true, false, ◌&&◌, ◌||◌, List, [], ◌∷◌, ◌++◌, any_of, leb,
  is_empty, arith, nat_eq, string_eq, ◌==◌, if◌then◌else◌,
}
use cloistr_relay.Nostr.{Event, Arg}
use cloistr_relay.Sql.{
  Condition, always, kind_in, author_in, Piece, txt, arg, items, render, where_pieces, Texts,
  arg_at, is_num, is_str, holds, all_hold,
}

-- The beginnings of conditions: with a list of arguments, with one in parentheses, with one.
pub data Opening : Type 0 where
  truth : Opening
  search_of : Opening
  kind_list : Opening
  author_list : Opening
  author_equals : Opening
  kind_equals : Opening
  content_matches : Opening
  time_from : Opening
  time_to : Opening
  wrong : Opening

unfoldable pub opening : String → Opening
opening s =
    if s == "1=1"
    then truth
    else if s == "search_tsv @@ to_tsquery('english', "
    then search_of
    else if s == "kind IN ("
    then kind_list
    else if s == "pubkey IN ("
    then author_list
    else if s == "pubkey = "
    then author_equals
    else if s == "kind = "
    then kind_equals
    else if s == "content ILIKE "
    then content_matches
    else if s == "created_at >= "
    then time_from
    else if s == "created_at <= "
    then time_to
    else wrong

-- Where the reader is, and whether the conditions hold so far: before the query; before a condition;
-- at its only argument; at an argument of a list, with whether one before has been found; before the
-- closing parenthesis; behind a condition; at the argument of LIMIT; at the end.
pub data Scan : Type 0 where
  begin : Scan
  expecting : Bool → Scan
  single : Opening → Bool → Scan
  listing : Opening → Bool → Bool → Scan
  closing : Bool → Scan
  ended : Bool → Scan
  limiting : Bool → Scan
  finished : Bool → ℕ → Scan
  broken : Scan

unfoldable pub opened : Opening → Bool → Scan
opened truth b = ended b
opened kind_list b = listing kind_list b false
opened author_list b = listing author_list b false
opened wrong b = broken
opened o b = single o b

module _ (head tail : String) (t : Texts) (args : List Arg) (e : Event) where
  unfoldable pub test : Opening → ℕ → Bool
  test search_of n = is_str (λ s. t.searched s e) (arg_at args n)
  test kind_list n = is_num (λ k. k == e.kind) (arg_at args n)
  test author_list n = is_str (λ a. a == e.pubkey) (arg_at args n)
  test author_equals n = is_str (λ a. a == e.pubkey) (arg_at args n)
  test kind_equals n = is_num (λ k. k == e.kind) (arg_at args n)
  test content_matches n = is_str (λ s. t.like s e) (arg_at args n)
  test time_from n = is_num (λ s. leb s e.created_at) (arg_at args n)
  test time_to n = is_num (λ s. leb e.created_at s) (arg_at args n)
  test _ n = false

  unfoldable pub answered : Opening → Bool → Scan
  answered search_of b = closing b
  answered o b = ended b

  -- An empty list, which no query has, holds of no row.
  unfoldable pub read_piece : Scan → Piece → Scan
  unfolding opening opened test answered
  read_piece begin (txt s) = if s == head then expecting true else broken
  read_piece (expecting b) (txt s) = opened (opening s) b
  read_piece (single o b) (arg n) = answered o (b && test o n)
  read_piece (listing o b found) (arg n) = listing o b (found || test o n)
  read_piece (listing o b found) (txt s) =
      if s == "," then listing o b found else if s == ")" then ended (b && found) else broken
  read_piece (closing b) (txt s) = if s == ")" then ended b else broken
  read_piece (ended b) (txt s) =
      if s == " AND " then expecting b else if s == tail then limiting b else broken
  read_piece (limiting b) (arg n) = finished b n
  read_piece _ p = broken

  unfoldable pub read_all : Scan → List Piece → Scan
  unfolding read_piece
  read_all s [] = s
  read_all s (p ∷ ps) = read_all (read_piece s p) ps

  pub read_all-append :
      (s : Scan) (xs ys : List Piece) → read_all s (xs ++ ys) ≡ read_all (read_all s xs) ys
  unfolding read_all
  read_all-append s [] ys = refl
  read_all-append s (x ∷ xs) ys = read_all-append (read_piece s x) xs ys

  or_none : (f : Bool) → f ≡ (f || false)
  or_none f = ground arith

  or_assoc : (f x y : Bool) → ((f || x) || y) ≡ (f || (x || y))
  or_assoc f x y = ground arith

  and_assoc : (b x y : Bool) → ((b && x) && y) ≡ (b && (x && y))
  and_assoc b x y = ground arith

  read_items :
      (o : Opening) (b found : Bool) (ns : List ℕ)
      → read_all (listing o b found) (items ns ++ txt ")" ∷ [])
        ≡ ended (b && (found || any_of (test o) ns))
  unfolding read_all read_piece items any_of
  read_items o b found [] = ap (λ x. ended (b && x)) (or_none found)
  read_items o b found (n ∷ []) = ap (λ x. ended (b && (found || x))) (or_none (test o n)) ∙ refl
  read_items o b found (n ∷ m ∷ ns) =
      read_items o b (found || test o n) (m ∷ ns)
      ∙ ap (λ x. ended (b && x)) (or_assoc found (test o n) (any_of (test o) (m ∷ ns)))

  read_condition :
      (b : Bool) (c : Condition) → read_all (expecting b) (render c) ≡ ended (b && holds t args e c)
  unfolding read_all read_piece render opening opened answered test holds
  read_condition b always = ap ended (ground arith)
  read_condition b (kind_in ns) = read_items kind_list b false ns
  read_condition b (author_in ns) = read_items author_list b false ns
  read_condition b _ = refl

  -- The reader finds of the conditions' texts what the conditions say.
  pub read_where :
      (b : Bool) (cs : List Condition)
      → is_empty cs ≡ false
      → read_all (expecting b) (where_pieces cs) ≡ ended (b && all_hold t args e cs)
  unfolding where_pieces all_hold read_all read_piece
  read_where b [] full = cc
  read_where b (c ∷ []) full = read_condition b c ∙ ap (λ x. ended (b && x)) (ground arith)
  read_where b (c ∷ d ∷ cs) full =
      read_all-append (expecting b) (render c) (txt " AND " ∷ where_pieces (d ∷ cs))
      ∙ ap (λ s. read_all s (txt " AND " ∷ where_pieces (d ∷ cs))) (read_condition b c)
      ∙ read_where (b && holds t args e c) (d ∷ cs) refl
      ∙ ap ended (and_assoc b (holds t args e c) (all_hold t args e (d ∷ cs)))
