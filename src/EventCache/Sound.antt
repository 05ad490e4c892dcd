-- ===== src/EventCache/Sound.antt =====
-- The answers of the event cache are events that were cached under what is asked for.
use cloistr_relay.Prelude.{
  ℕ, ◌≡◌, refl, String, Bool, true, false, ◌⊎◌, inl, inr, Option, none, some, List, [], ◌∷◌, map,
  All, In, All-In, sym, if◌then◌else◌,
}
use cloistr_relay.Nostr.{Event, Fetched, failed, missing, found}
use cloistr_relay.Redis.{Redis}
use cloistr_relay.EventCache.Cache.{
  Config, Codec, event_key, pubkey_kind_key, get, get_by_pubkey_kind, decode, multi_get, decode_all,
  prepend, decode_answer,
}
use cloistr_relay.EventCache.Keys.{event_key_inj, event_key-ne, pubkey_kind_key_inj}
use cloistr_relay.EventCache.Invariant.{
  IsFaithful, Op, cached, IsPlain, run, Holds, IsSound, run-IsSound,
}

-- A question to the cache, with its time.
pub data Query : Type 0 where
  by_id : ℕ → String → Query
  by_author : ℕ → String → ℕ → Query
  by_ids : ℕ → List String → Query

abbrev pub Matches : Query → Event → Type 0
Matches (by_id now id) e = e.id ≡ id
Matches (by_author now pubkey kind) e = (e.pubkey ≡ pubkey) × (e.kind ≡ kind)
Matches (by_ids now ids) e = In e.id ids

abbrev pub IsPlainQuery : Query → Type 0
IsPlainQuery (by_id now id) = Unit
IsPlainQuery (by_author now pubkey kind) = IsPlain pubkey kind
IsPlainQuery (by_ids now ids) = Unit

abbrev to_list : Option Event → List Event
to_list none = []
to_list (some e) = e ∷ []

to_list-All :
    (P : Event → Type 0) (o : Option Event) → ((e : Event) → o ≡ some e → P e) → All P (to_list o)
to_list-All P none h = tt
to_list-All P (some e) h = (h e refl, tt)

All-map :
    {A : Type 0} (P Q : A → Type 0) (xs : List A) → ((x : A) → P x → Q x) → All P xs → All Q xs
All-map P Q [] h p = tt
All-map P Q (x ∷ xs) h p = (h x p.0, All-map P Q xs h p.1)

All-self : {A : Type 0} (xs : List A) → All (λ x. In x xs) xs
All-self [] = tt
All-self (x ∷ xs) = (inl refl, All-map _ _ xs (λ y i. inr i) (All-self xs))

some_of_else :
    {A : Type 0} (b : Bool) (o : Option A) (a : A) → (if b then none else o) ≡ some a → o ≡ some a
some_of_else true o a h = cc
some_of_else false o a h = h

id_of_place :
    (cfg : Config) (id : String) (e : Event)
    → (event_key cfg id ≡ event_key cfg e.id)
      ⊎ (event_key cfg id ≡ pubkey_kind_key cfg e.pubkey e.kind)
    → e.id ≡ id
id_of_place cfg id e (inl p) = sym (event_key_inj cfg id e.id p)
id_of_place cfg id e (inr p) = absurd (event_key-ne cfg id e.pubkey e.kind p)

author_of_place :
    (cfg : Config) (pubkey : String) (kind : ℕ) (e : Event)
    → IsPlain e.pubkey e.kind
    → IsPlain pubkey kind
    → (pubkey_kind_key cfg pubkey kind ≡ event_key cfg e.id)
      ⊎ (pubkey_kind_key cfg pubkey kind ≡ pubkey_kind_key cfg e.pubkey e.kind)
    → (e.pubkey ≡ pubkey) × (e.kind ≡ kind)
author_of_place cfg pubkey kind e plain asked (inl p) =
    absurd (event_key-ne cfg e.id pubkey kind (sym p))
author_of_place cfg pubkey kind e plain asked (inr p) =
    let h = pubkey_kind_key_inj cfg pubkey e.pubkey kind e.kind asked.0 plain.0 asked.1 plain.1 p in
    (sym h.0, sym h.1)

module _ {Data : Type 0} (redis : Redis Data) (c : Codec Data) (cfg : Config)
    (has_redis : Bool) where
  Holds-event :
      (es : List Event) (k : String) (d : Data) (e : Event)
      → Holds redis c cfg has_redis es k d
      → c.unmarshal d ≡ some e
      → In e es × ((k ≡ event_key cfg e.id) ⊎ (k ≡ pubkey_kind_key cfg e.pubkey e.kind))
  Holds-event es k d e h q =
      let same : h.event ≡ e = cc (h.reads, q) in rw (← same) (h.member, h.place)

  decode-Holds :
      (es : List Event) (now : ℕ) (k : String) (s : redis.Store) (e : Event)
      → IsSound redis c cfg has_redis es s
      → decode redis c cfg has_redis (redis.get now k s) ≡ some e
      → In e es × ((k ≡ event_key cfg e.id) ⊎ (k ≡ pubkey_kind_key cfg e.pubkey e.kind))
  unfolding decode
  decode-Holds es now k s e sound h = of_answer (redis.get now k s) refl h
    where
      of_answer :
          (a : Fetched Data)
          → redis.get now k s ≡ a
          → decode redis c cfg has_redis a ≡ some e
          → In e es × ((k ≡ event_key cfg e.id) ⊎ (k ≡ pubkey_kind_key cfg e.pubkey e.kind))
      of_answer failed p q = cc
      of_answer missing p q = cc
      of_answer (found d) p q = Holds-event es k d e (sound now k d (redis.get_found now k s d p)) q

  by_id_sound :
      (es : List Event) (now : ℕ) (id : String) (s : redis.Store) (e : Event)
      → IsSound redis c cfg has_redis es s
      → get redis c cfg has_redis now id s ≡ some e
      → (e.id ≡ id) × In e es
  unfolding get
  by_id_sound es now id s e sound h =
      let r = decode-Holds es now (event_key cfg id) s e sound (some_of_else _ _ e h) in
      (id_of_place cfg id e r.1, r.0)

  by_author_sound :
      (es : List Event) (now : ℕ) (pubkey : String) (kind : ℕ) (s : redis.Store) (e : Event)
      → IsSound redis c cfg has_redis es s
      → All (λ a. IsPlain a.pubkey a.kind) es
      → IsPlain pubkey kind
      → get_by_pubkey_kind redis c cfg has_redis now pubkey kind s ≡ some e
      → ((e.pubkey ≡ pubkey) × (e.kind ≡ kind)) × In e es
  unfolding get_by_pubkey_kind
  by_author_sound es now pubkey kind s e sound plain asked h =
      let r =
        decode-Holds es now (pubkey_kind_key cfg pubkey kind) s e sound
          (some_of_else _ _ e (some_of_else _ _ e h)) in
      (
        author_of_place cfg pubkey kind e (All-In (λ a. IsPlain a.pubkey a.kind) e es plain r.0)
            asked r.1,
        r.0,
      )

  decode_all-All :
      (P : Event → Type 0) (o : Option Data) (ds : List (Option Data))
      → ((d : Data) (e : Event) → o ≡ some d → c.unmarshal d ≡ some e → P e)
      → All P (decode_all redis c cfg has_redis ds)
      → All P (decode_all redis c cfg has_redis (o ∷ ds))
  unfolding decode_all prepend
  decode_all-All P none ds h rest = rest
  decode_all-All P (some d) ds h rest = go (c.unmarshal d) refl
    where
      go :
          (o : Option Event)
          → c.unmarshal d ≡ o
          → All P (prepend o (decode_all redis c cfg has_redis ds))
      go none q = rest
      go (some e) q = (h d e refl q, rest)

  by_ids_sound :
      (es : List Event) (all ids : List String) (now : ℕ) (s : redis.Store)
      → IsSound redis c cfg has_redis es s
      → ((id : String) → In id ids → In id all)
      → All
          (λ e. In e.id all × In e es)
          (decode_all redis c cfg has_redis (map (redis.view s now) (map (event_key cfg) ids)))
  unfolding decode_all
  by_ids_sound es all [] now s sound sub = tt
  by_ids_sound es all (id ∷ ids) now s sound sub =
      decode_all-All (λ e. In e.id all × In e es) (redis.view s now (event_key cfg id)) _
        (λ d e p q.
          let r = Holds-event es (event_key cfg id) d e (sound now (event_key cfg id) d p) q in
          (rw (id_of_place cfg id e r.1) (sub id (inl refl)), r.0))
        (by_ids_sound es all ids now s sound (λ j i. sub j (inr i)))

  multi_get_sound :
      (es : List Event) (now : ℕ) (ids : List String) (s : redis.Store)
      → IsSound redis c cfg has_redis es s
      → All (λ e. In e.id ids × In e es) (multi_get redis c cfg has_redis now ids s)
  unfolding multi_get decode_answer
  multi_get_sound es now [] s sound = tt
  multi_get_sound es now (id ∷ ids) s sound =
      unless _ _ (of_answer (redis.mget now (map (event_key cfg) (id ∷ ids)) s) refl)
    where
      unless :
          (b : Bool) (l : List Event)
          → All (λ e. In e.id (id ∷ ids) × In e es) l
          → All (λ e. In e.id (id ∷ ids) × In e es) (if b then [] else l)
      unless true l h = tt
      unless false l h = h

      of_answer :
          (a : Option (List (Option Data)))
          → redis.mget now (map (event_key cfg) (id ∷ ids)) s ≡ a
          → All (λ e. In e.id (id ∷ ids) × In e es) (decode_answer redis c cfg has_redis a)
      of_answer none p = tt
      of_answer (some ds) p =
          rw (redis.mget_lem now (map (event_key cfg) (id ∷ ids)) s ds p)
            (by_ids_sound es (id ∷ ids) (id ∷ ids) now s sound (λ j i. i))

  unfoldable pub answers : Query → redis.Store → List Event
  answers (by_id now id) s = to_list (get redis c cfg has_redis now id s)
  answers (by_author now pubkey kind) s =
      to_list (get_by_pubkey_kind redis c cfg has_redis now pubkey kind s)
  answers (by_ids now ids) s = multi_get redis c cfg has_redis now ids s

  answers_sound :
      (es : List Event) (q : Query) (s : redis.Store)
      → IsSound redis c cfg has_redis es s
      → All (λ a. IsPlain a.pubkey a.kind) es
      → IsPlainQuery q
      → All (λ e. Matches q e × In e es) (answers q s)
  unfolding answers
  answers_sound es (by_id now id) s sound plain asked =
      to_list-All _ _ (λ e h. by_id_sound es now id s e sound h)
  answers_sound es (by_author now pubkey kind) s sound plain asked =
      to_list-All _ _ (λ e h. by_author_sound es now pubkey kind s e sound plain asked h)
  answers_sound es (by_ids now ids) s sound plain asked = multi_get_sound es now ids s sound

  -- Where the cache starts empty, the codec reads what it wrote, and the cached events have
  -- hexadecimal keys: after any sequence of Set, Delete and Invalidate, whichever of their commands
  -- fail and whatever has expired, the events that Get, GetByPubkeyKind and MultiGet answer were
  -- cached by one of the Set, and have the id, the author and the kind, or one of the ids, that
  -- were asked for.
  pub run-answers :
      (ops : List Op) (q : Query) (s : redis.Store)
      → IsFaithful c
      → ((u : ℕ) (k : String) → redis.view s u k ≡ none)
      → All (λ a. IsPlain a.pubkey a.kind) (cached ops)
      → IsPlainQuery q
      → All (λ e. Matches q e × In e (cached ops)) (answers q (run redis c cfg has_redis ops s))
  run-answers ops q s faithful empty plain asked =
      answers_sound (cached ops) q (run redis c cfg has_redis ops s)
        (run-IsSound redis c cfg has_redis faithful (cached ops) ops s (All-self (cached ops))
          (λ u k d h. cc (h, empty u k)))
        plain asked
