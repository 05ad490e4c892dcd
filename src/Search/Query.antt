-- ===== src/Search/Query.antt =====
-- internal/search/search.go: the query of a search, and its text in the syntax of tsquery. A missing
-- Since or Until is `none`.
use Prim.Native.Char.{Char, code}
use Prim.Native.String.{◌++◌ as append}
use cloistr_relay.Prelude.{
  ℕ, String, Bool, not, ◌&&◌, ◌||◌, Option, none, some, List, [], ◌∷◌, ◌++◌, map, leb, ltb,
  if◌then◌else◌, string_eq, ◌==◌,
}
use cloistr_relay.Strings.{is_space}
use cloistr_relay.Nostr.{Arg, num, str}
use cloistr_relay.Decimal.{pos, itoa}
use cloistr_relay.Sql.{
  Condition, matches_search, kind_in, author_in, created_from, created_to, join, Piece, txt, arg,
  text_of, where_pieces,
}
use cloistr_relay.Sql.Builders.{Builder, add, add_all}

-- The parts of nostr.Filter that a search reads.
pub record SearchFilter : Type 0 where
  pub search : String
  pub kinds : List ℕ
  pub authors : List String
  pub since : Option ℕ
  pub until : Option ℕ
  pub limit : ℕ

unfoldable pub has_search : SearchFilter → Bool
has_search f = not (f.search == "")

unfoldable pub kinds_list : List ℕ → String
unfolding join
kinds_list kinds = join ", " (map (λ k. itoa (pos k)) kinds)

unfoldable pub add_time : (ℕ → Condition) → Option ℕ → Builder → Builder
unfolding add
add_time c none b = b
add_time c (some s) b = add c (num s) b

-- The conditions of buildSearchQuery, with their arguments.
unfoldable pub search_conditions : SearchFilter → String → Builder
unfolding add add_all add_time
search_conditions f tsquery = add_time created_to f.until (
    add_time created_from f.since (
      add_all author_in str f.authors (
        add_all kind_in num f.kinds
          (add matches_search (str tsquery) (record { conditions = []; args = []; arg_num = 1 })))))

unfoldable pub limit_of : SearchFilter → ℕ
limit_of f = if ltb 0 f.limit && ltb f.limit 100 then f.limit else 100

abbrev pub query_head : String
query_head = "SELECT id, pubkey, created_at, kind, tags, content, sig FROM event WHERE "

abbrev pub query_tail : String
query_tail = " ORDER BY ts_rank(search_tsv, to_tsquery('english', $1)) DESC LIMIT "

-- The texts that buildSearchQuery puts together, with the query's indentation left out.
unfoldable pub search_query : Builder → List Piece
search_query b = txt query_head ∷ where_pieces b.conditions ++ txt query_tail ∷ arg b.arg_num ∷ []

-- buildSearchQuery: the text and the arguments.
unfoldable pub build_search_query : SearchFilter → String → String × List Arg
unfolding search_conditions limit_of search_query
build_search_query f tsquery =
    let b = search_conditions f tsquery in
    (text_of (search_query b), b.args ++ num (limit_of f) ∷ [])

-- strings.Fields: a word, and the words of a text that follows the part `w` of a word.
unfoldable pub end_word : String → List String → List String
end_word w ws = if w == "" then ws else w ∷ ws

fields_from : String → String → List String
unfolding end_word
fields_from w String.[] = end_word w []
fields_from w (String.◌∷◌ c s) =
    let next = end_word w (fields_from "" s) in
    let more = fields_from (append w (String.◌∷◌ c "")) s in if is_space c then next else more

unfoldable pub fields : String → List String
unfolding fields_from
fields s = fields_from "" s

unfoldable pub is_plain_letter : Char → Bool
is_plain_letter c =
    leb 97 (code c) && leb (code c) 122
    || leb 65 (code c) && leb (code c) 90
    || leb 48 (code c) && leb (code c) 57

-- strings.Map with the function that drops all but letters and digits.
unfoldable pub clean : String → String
unfolding is_plain_letter
clean String.[] = ""
clean (String.◌∷◌ c s) = let rest = clean s in if is_plain_letter c then String.◌∷◌ c rest else rest

unfoldable pub escape : List String → List String
unfolding clean
escape [] = []
escape (w ∷ ws) =
    let rest = escape ws in if clean w == "" then rest else append (clean w) ":*" ∷ rest

unfoldable pub to_ts_query : String → String
unfolding fields escape join
to_ts_query search = join " | " (escape (fields search))

-- QueryEvents up to its query: nothing is asked without a word to search for.
unfoldable pub query_events : SearchFilter → Option (String × List Arg)
unfolding to_ts_query build_search_query
query_events f =
    if f.search == ""
    then none
    else if to_ts_query f.search == ""
    then none
    else some (build_search_query f (to_ts_query f.search))
