-- ===== src/Management/Browsing.antt =====
-- What the browser of events shows (internal/management/query.go).
use mathlib.Core.Path.{ap₂}
use cloistr_relay.Prelude.{
  ℕ, zero, suc, ◌+◌, ◌≤◌, ◌<◌, ◌≡◌, ◌↔◌, refl, ap, sym, ◌∙◌, true, false, some, List, [], ◌∷◌,
  length, ltb, arith, Bool-cases, inl, inr, if◌then◌else◌,
}
use cloistr_relay.Management.Browser.{
  BrowserFilter, BrowserEvent, BrowserResult, Texts, Database, browser_conditions, page_limit,
  count_query, fetch_query, fetch_args, take, page_of, fetched, counted, query_browser_events,
}

abbrev pub drop : {A : Type 0} → ℕ → List A → List A
drop zero xs = xs
drop (suc n) [] = []
drop (suc n) (x ∷ xs) = drop n xs

module _ {A : Type 0} where
  take-short : (n : ℕ) (xs : List A) → length xs ≤ n → take n xs ≡ xs
  take-short zero [] h = refl
  take-short zero (x ∷ xs) h = absurd (omega arith)
  take-short (suc n) [] h = refl
  take-short (suc n) (x ∷ xs) h = ap (λ l. x ∷ l) (take-short n xs (omega (arith, h)))

  take-take : (n : ℕ) (xs : List A) → take n (take (suc n) xs) ≡ take n xs
  take-take zero xs = refl
  take-take (suc n) [] = refl
  take-take (suc n) (x ∷ xs) = ap (λ l. x ∷ l) (take-take n xs)

  length-take : (n : ℕ) (xs : List A) → (n < length (take (suc n) xs)) ↔ (n < length xs)
  length-take n [] = (λ h. omega arith, λ h. omega arith)
  length-take zero (x ∷ xs) = (λ h. omega arith, λ h. omega arith)
  length-take (suc n) (x ∷ xs) = (
    λ h. omega (arith, (length-take n xs).0 (omega (arith, h))),
    λ h. omega (arith, (length-take n xs).1 (omega (arith, h))),
  )

  length-drop : (n : ℕ) (xs : List A) (k : ℕ) → (k < length (drop n xs)) ↔ (n + k < length xs)
  length-drop zero xs k = (λ h. omega arith, λ h. omega arith)
  length-drop (suc n) [] k = (λ h. omega arith, λ h. omega arith)
  length-drop (suc n) (x ∷ xs) k =
      (λ h. omega (arith, (length-drop n xs k).0 h), λ h. (length-drop n xs k).1 (omega (arith, h)))

  page_take : (n : ℕ) (xs : List A) → length xs ≤ n → take (suc n) xs ≡ take n xs
  page_take n xs h = take-short (suc n) xs (omega (arith, h)) ∙ sym (take-short n xs h)

lt→ltb : (a b : ℕ) → a < b → ltb a b ≡ true
lt→ltb a b h = ground arith

ltb→lt : (a b : ℕ) → ltb a b ≡ true → a < b
ltb→lt a b h = ground arith

ge→le : (a b : ℕ) → ltb a b ≡ false → b ≤ a
ge→le a b h = ground arith

ltb_not : (a b : ℕ) → ltb a b ≡ false → ¬ (a < b)
ltb_not a b h lt = omega (arith, ge→le a b h, lt)

ltb_iff : (a b c d : ℕ) → (a < b) ↔ (c < d) → ltb a b ≡ ltb c d
ltb_iff a b c d h = elim (Bool-cases (ltb a b)) [
  | inl lt ↦ lt ∙ sym (lt→ltb c d (h.0 (ltb→lt a b lt)))
  | inr ge ↦ elim (Bool-cases (ltb c d)) [
    | inl lt ↦ absurd (ltb_not a b ge (h.1 (ltb→lt c d lt)))
    | inr ge' ↦ ge ∙ sym ge'
  ]
]

short :
    {A : Type 0} (n : ℕ) (xs : List A) → ltb n (length (take (suc n) xs)) ≡ false → length xs ≤ n
short n xs last = elim (Bool-cases (ltb n (length xs))) [
  | inl lt ↦
      let q : n < length xs = ltb→lt n (length xs) lt in
      let r : n < length (take (suc n) xs) = (length-take n xs).1 q in
      absurd (ltb_not n (length (take (suc n) xs)) last r)
  | inr ge ↦ ge→le n (length xs) ge
]

-- The page of the given size behind the offset.
abbrev pub page : ℕ → ℕ → List BrowserEvent → BrowserResult
page n offset rows = record {
  events = take n (drop offset rows);
  total = length rows;
  limit = n;
  offset = offset;
  has_more = ltb (offset + n) (length rows);
}

page_of-page :
    (n offset : ℕ) (rows : List BrowserEvent)
    → page_of n offset (length rows) (take (suc n) (drop offset rows)) ≡ page n offset rows
unfolding page_of
page_of-page n offset rows =
    let xs = drop offset rows in
    let same : ltb n (length (take (suc n) xs)) ≡ ltb (offset + n) (length rows) =
      ltb_iff n (length (take (suc n) xs)) (offset + n) (length rows) (
        λ h. (length-drop offset rows n).0 ((length-take n xs).0 h),
        λ h. (length-take n xs).1 ((length-drop offset rows n).1 h),
      ) in
    let shown : (if ltb n (length (take (suc n) xs))
          then take n (take (suc n) xs)
          else take (suc n) xs)
        ≡ take n xs =
      elim (Bool-cases (ltb n (length (take (suc n) xs)))) [
        | inl more ↦ rw more (take-take n xs)
        | inr last ↦ rw last (page_take n xs (short n xs last))
      ] in
    ap₂
      (λ es m. record {
        events = es;
        total = length rows;
        limit = n;
        offset = offset;
        has_more = m;
      })
      shown same

-- The database answers with `rows`: their number, and a slice of them for LIMIT and OFFSET.
pub record IsAnswered (db : Database) (t : Texts) (f : BrowserFilter) (rows : List BrowserEvent)
    : Type 0 where
  pub counts :
      db.count (count_query (browser_conditions t f)) (browser_conditions t f).args
      ≡ some (length rows)
  pub slices :
      (n offset : ℕ)
      → db.fetch
          (fetch_query (browser_conditions t f))
          (fetch_args (browser_conditions t f) n offset)
        ≡ some (take (suc n) (drop offset rows))

-- Where the database answers the two queries with the rows of the filter: the browser gets the rows
-- behind the offset, as many as the limit allows, with the number of all rows; HasMore says exactly
-- whether there are rows behind the page; and the limit lies between 1 and 200.
pub query_browser_events-page :
    (db : Database) (t : Texts) (f : BrowserFilter) (rows : List BrowserEvent) (limit offset : ℕ)
    → IsAnswered db t f rows
    → (query_browser_events (some db) t f limit offset ≡ some (page (page_limit limit) offset rows))
      × (1 ≤ page_limit limit)
      × (page_limit limit ≤ 200)
unfolding query_browser_events counted fetched page_limit
query_browser_events-page db t f rows limit offset h = (
  rw (h.counts, h.slices (page_limit limit) offset)
      (ap some (page_of-page (page_limit limit) offset rows)),
  ground arith,
  ground arith,
)
