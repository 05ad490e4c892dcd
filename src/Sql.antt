-- ===== src/Sql.antt =====
-- The WHERE clauses that internal/search and internal/management put together, with numbered
-- arguments: the conditions as data, their texts, and what PostgreSQL makes of them. Full text search
-- and ILIKE are parameters.
use Prim.Native.String.{◌++◌ as append}
use cloistr_relay.Prelude.{
  ℕ, zero, suc, ◌≡◌, refl, sym, ap, ◌∙◌, String, Bool, true, false, not, ◌&&◌, Option, none, some,
  List, [], ◌∷◌, ◌++◌, map, length, length-append, leb, ltb, any_of, contains, arith, nat_eq,
  string_eq, ◌==◌, Comparable,
}
use cloistr_relay.Nostr.{Event, Arg, num, str}
use cloistr_relay.Decimal.{pos, itoa}
pub mod Builders
pub mod Reader

-- A condition, with the numbers of its arguments.
pub data Condition : Type 0 where
  always : Condition
  matches_search : ℕ → Condition
  kind_in : List ℕ → Condition
  author_in : List ℕ → Condition
  author_is : ℕ → Condition
  kind_is : ℕ → Condition
  content_like : ℕ → Condition
  created_from : ℕ → Condition
  created_to : ℕ → Condition

unfoldable pub place : ℕ → String
place n = append "$" (itoa (pos n))

-- strings.Join
unfoldable pub join : String → List String → String
join sep [] = ""
join sep (x ∷ []) = x
join sep (x ∷ y ∷ r) = append x (append sep (join sep (y ∷ r)))

-- The texts that are put together to a query, and the numbers of arguments between them.
pub data Piece : Type 0 where
  txt : String → Piece
  arg : ℕ → Piece

unfoldable pub text_of : List Piece → String
unfolding place
text_of [] = ""
text_of (txt s ∷ ps) = append s (text_of ps)
text_of (arg n ∷ ps) = append (place n) (text_of ps)

-- The arguments with commas between them.
unfoldable pub items : List ℕ → List Piece
items [] = []
items (n ∷ []) = arg n ∷ []
items (n ∷ m ∷ ns) = arg n ∷ txt "," ∷ items (m ∷ ns)

unfoldable pub render : Condition → List Piece
unfolding items
render always = txt "1=1" ∷ []
render (matches_search n) = txt "search_tsv @@ to_tsquery('english', " ∷ arg n ∷ txt ")" ∷ []
render (kind_in ns) = txt "kind IN (" ∷ items ns ++ txt ")" ∷ []
render (author_in ns) = txt "pubkey IN (" ∷ items ns ++ txt ")" ∷ []
render (author_is n) = txt "pubkey = " ∷ arg n ∷ []
render (kind_is n) = txt "kind = " ∷ arg n ∷ []
render (content_like n) = txt "content ILIKE " ∷ arg n ∷ []
render (created_from n) = txt "created_at >= " ∷ arg n ∷ []
render (created_to n) = txt "created_at <= " ∷ arg n ∷ []

-- strings.Join(conditions, " AND ")
unfoldable pub where_pieces : List Condition → List Piece
unfolding render
where_pieces [] = []
where_pieces (c ∷ []) = render c
where_pieces (c ∷ d ∷ cs) = render c ++ txt " AND " ∷ where_pieces (d ∷ cs)

unfoldable pub where_clause : List Condition → String
unfolding where_pieces text_of
where_clause cs = text_of (where_pieces cs)

abbrev pub get_elem? : List Arg → ℕ → Option Arg
get_elem? [] i = none
get_elem? (x ∷ xs) zero = some x
get_elem? (x ∷ xs) (suc i) = get_elem? xs i

-- The arguments are numbered from 1 on.
abbrev pub arg_at : List Arg → ℕ → Option Arg
arg_at args zero = none
arg_at args (suc i) = get_elem? args i

abbrev pub is_num : (ℕ → Bool) → Option Arg → Bool
is_num p none = false
is_num p (some (num n)) = p n
is_num p (some (str s)) = false

abbrev pub is_str : (String → Bool) → Option Arg → Bool
is_str p none = false
is_str p (some (num n)) = false
is_str p (some (str s)) = p s

-- `search_tsv @@ to_tsquery('english', s)` and `content ILIKE s` of a row.
pub record Texts : Type 0 where
  pub searched : String → Event → Bool
  pub like : String → Event → Bool

module _ (t : Texts) (args : List Arg) (e : Event) where
  unfoldable pub holds : Condition → Bool
  holds always = true
  holds (matches_search n) = is_str (λ s. t.searched s e) (arg_at args n)
  holds (kind_in ns) = any_of (λ n. is_num (λ k. k == e.kind) (arg_at args n)) ns
  holds (author_in ns) = any_of (λ n. is_str (λ a. a == e.pubkey) (arg_at args n)) ns
  holds (author_is n) = is_str (λ a. a == e.pubkey) (arg_at args n)
  holds (kind_is n) = is_num (λ k. k == e.kind) (arg_at args n)
  holds (content_like n) = is_str (λ s. t.like s e) (arg_at args n)
  holds (created_from n) = is_num (λ s. leb s e.created_at) (arg_at args n)
  holds (created_to n) = is_num (λ s. leb e.created_at s) (arg_at args n)

  unfoldable pub all_hold : List Condition → Bool
  unfolding holds
  all_hold [] = true
  all_hold (c ∷ cs) = holds c && all_hold cs
