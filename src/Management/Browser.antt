-- ===== src/Management/Browser.antt =====
-- internal/management/query.go: the browser of events. strings.ToLower and time.Parse are parameters,
-- the latter with the Unix time of the date's first second. A limit of zero or less is 0. What the
-- queries answer is an argument; the time of a row is the event's, its tags are left out.
use Prim.Native.String.{◌++◌ as append}
use cloistr_relay.Prelude.{
  ℕ, zero, suc, ◌+◌, String, Bool, Option, none, some, List, [], ◌∷◌, ◌++◌, length, ltb, leb,
  if◌then◌else◌, string_eq, nat_eq, ◌==◌,
}
use cloistr_relay.Nostr.{Event, Arg, num, str}
use cloistr_relay.Decimal.{ℤ, pos, negsuc, atoi, itoa}
use cloistr_relay.Sql.{
  Condition, always, author_is, kind_is, content_like, created_from, created_to, place,
  where_clause,
}
use cloistr_relay.Sql.Builders.{Builder, add}

pub record BrowserFilter : Type 0 where
  pub pubkey : String
  pub kind : String
  pub search : String
  pub start_date : String
  pub end_date : String

pub record BrowserEvent : Type 0 where
  pub event : Event
  pub is_banned : Bool

pub record BrowserResult : Type 0 where
  pub events : List BrowserEvent
  pub total : ℕ
  pub limit : ℕ
  pub offset : ℕ
  pub has_more : Bool

pub record Texts : Type 0 where
  pub to_lower : String → String
  pub parse_date : String → Option ℕ

-- A kind below 0, which no row has, is an argument of its own.
unfoldable pub kind_arg : ℤ → Arg
kind_arg (pos n) = num n
kind_arg (negsuc n) = str (itoa (negsuc n))

unfoldable pub add_kind : Option ℤ → Builder → Builder
unfolding add kind_arg
add_kind none b = b
add_kind (some z) b = add kind_is (kind_arg z) b

unfoldable pub add_date : (ℕ → Condition) → ℕ → Option ℕ → Builder → Builder
unfolding add
add_date c extra none b = b
add_date c extra (some d) b = add c (num (d + extra)) b

-- A part of the filter that is not the empty text.
abbrev pub if_given : String → (Builder → Builder) → Builder → Builder
if_given s f b = if s == "" then b else f b

-- The conditions of QueryBrowserEvents, with their arguments.
unfoldable pub browser_conditions : Texts → BrowserFilter → Builder
unfolding add add_kind add_date
browser_conditions t f =
    if_given f.end_date (λ b. add_date created_to 86_399 (t.parse_date f.end_date) b)
      (if_given f.start_date (λ b. add_date created_from 0 (t.parse_date f.start_date) b)
        (if_given f.search (λ b. add content_like (str (append "%" (append f.search "%"))) b)
          (if_given f.kind (λ b. add_kind (atoi f.kind) b)
            (if_given f.pubkey (λ b. add author_is (str (t.to_lower f.pubkey)) b)
              (record { conditions = always ∷ []; args = []; arg_num = 1 })))))

unfoldable pub page_limit : ℕ → ℕ
page_limit limit = if leb limit 0 then 50 else if ltb 200 limit then 200 else limit

-- The texts of the two queries, with their indentation left out.
unfoldable pub count_query : Builder → String
count_query b = append "SELECT COUNT(*) FROM event WHERE " (where_clause b.conditions)

unfoldable pub fetch_query : Builder → String
fetch_query b =
    append
      "SELECT e.id, e.pubkey, e.kind, e.content, e.created_at, e.tagvalues, EXISTS(SELECT 1 FROM management_banned_events b WHERE b.event_id = e.id) AS is_banned FROM event e WHERE "
      (append (where_clause b.conditions) (
        append " ORDER BY e.created_at DESC LIMIT "
          (append (place b.arg_num) (append " OFFSET " (place (suc b.arg_num))))))

unfoldable pub fetch_args : Builder → ℕ → ℕ → List Arg
fetch_args b limit offset = b.args ++ num (limit + 1) ∷ num offset ∷ []

abbrev pub take : {A : Type 0} → ℕ → List A → List A
take zero xs = []
take (suc n) [] = []
take (suc n) (x ∷ xs) = x ∷ take n xs

unfoldable pub page_of : ℕ → ℕ → ℕ → List BrowserEvent → BrowserResult
page_of limit offset total events =
    let more = ltb limit (length events) in
    record {
      events = if more then take limit events else events;
      total = total;
      limit = limit;
      offset = offset;
      has_more = more;
    }

-- What a query answers, given its text and arguments: `none` is an error.
pub record Database : Type 0 where
  pub count : String → List Arg → Option ℕ
  pub fetch : String → List Arg → Option (List BrowserEvent)

unfoldable pub fetched : ℕ → ℕ → ℕ → Option (List BrowserEvent) → Option BrowserResult
unfolding page_of
fetched limit offset total none = none
fetched limit offset total (some events) = some (page_of limit offset total events)

unfoldable pub counted : Database → Builder → ℕ → ℕ → Option ℕ → Option BrowserResult
unfolding fetch_query fetch_args fetched
counted db b limit offset none = none
counted db b limit offset (some total) =
    fetched limit offset total (db.fetch (fetch_query b) (fetch_args b limit offset))

-- QueryBrowserEvents; `none` is an error.
unfoldable pub query_browser_events :
    Option Database → Texts → BrowserFilter → ℕ → ℕ → Option BrowserResult
unfolding browser_conditions page_limit count_query counted
query_browser_events none t f limit offset = none
query_browser_events (some db) t f limit offset =
    let b = browser_conditions t f in
    counted db b (page_limit limit) offset (db.count (count_query b) b.args)
