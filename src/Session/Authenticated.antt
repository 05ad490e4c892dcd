-- ===== src/Session/Authenticated.antt =====
-- What a session's state says after a sequence of operations: who is authenticated, and which
-- subscriptions are open (internal/session/session.go).
use text.Mathlib.TextLemmas.{append_cancel_left}
use cloistr_relay.Prelude.{
  ℕ, ◌≤◌, ◌≡◌, refl, sym, ap, ◌∙◌, String, Bool, true, false, inl, inr, Option, none, some, List,
  [], ◌∷◌, ◌++◌, All, In, Bool-cases, if◌then◌else◌, eq_iff, string_eq,
}
use cloistr_relay.Nostr.{Fetched, failed, missing, found}
use cloistr_relay.Redis.{Redis}
use cloistr_relay.Session.Store.{
  State, Config, Codec, Moment, Outcome, ok, key, put, put_encoded, create, get, decode,
  set_auth_pubkey, write_back, change_read, change, add_subscription, remove_subscription, touch,
  delete, is_off,
}
use cloistr_relay.Session.Proper.{
  IsFaithful, Op, moment, create_of, authenticate_of, subscribe_of, unsubscribe_of, touch_of,
  delete_of, grants, all_grants, IsProper, fresh-IsProper, authenticated-IsProper, Keeps,
  subscribed-Keeps, unsubscribed-Keeps, touched-Keeps,
}

some_of_else :
    {A : Type 0} (b : Bool) (o : Option A) (a : A) → (if b then none else o) ≡ some a → o ≡ some a
some_of_else true o a h = cc
some_of_else false o a h = h

In-append_left : (k : String) (xs ys : List String) → In k xs → In k (xs ++ ys)
In-append_left k [] ys i = absurd i
In-append_left k (x ∷ xs) ys (inl e) = inl e
In-append_left k (x ∷ xs) ys (inr i) = inr (In-append_left k xs ys i)

In-append_right : (k : String) (xs ys : List String) → In k ys → In k (xs ++ ys)
In-append_right k [] ys i = i
In-append_right k (x ∷ xs) ys i = inr (In-append_right k xs ys i)

key_inj : (cfg : Config) (a b : String) → key cfg a ≡ key cfg b → a ≡ b
unfolding key
key_inj cfg a b e = append_cancel_left cfg.key_prefix a b e

module _ {Data : Type 0} (redis : Redis Data) (c : Codec Data) (cfg : Config)
    (has_redis : Bool) where
  unfoldable pub step : Op → redis.Store → redis.Store
  step (create_of m id ip) s = (create redis c cfg has_redis m id ip s).1
  step (authenticate_of m id pubkey) s = (set_auth_pubkey redis c cfg has_redis m id pubkey s).1
  step (subscribe_of m id sub) s = (add_subscription redis c cfg has_redis m id sub s).1
  step (unsubscribe_of m id sub) s = (remove_subscription redis c cfg has_redis m id sub s).1
  step (touch_of m id) s = (touch redis c cfg has_redis m id s).1
  step (delete_of m id) s = delete redis c cfg has_redis m id s

  unfoldable pub run : List Op → redis.Store → redis.Store
  unfolding step
  run [] s = s
  run (op ∷ ops) s = run ops (step op s)

  -- From the time `since` on, the session's entry is proper.
  abbrev IsGood : ℕ → String → List String → redis.Store → Type 0
  IsGood since id granted s =
      (u : ℕ) (d : Data) (st : State)
      → since ≤ u
      → redis.view s u (key cfg id) ≡ some d
      → c.unmarshal d ≡ some st
      → IsProper id granted st

  module _ (faithful : IsFaithful c) (since : ℕ) (id : String) (granted : List String) where
    set-IsGood :
        (t : ℕ) (j : String) (d : Data) (st : State) (s : redis.Store)
        → c.unmarshal d ≡ some st
        → (j ≡ id → IsProper id granted st)
        → IsGood since id granted s
        → IsGood since id granted (redis.set t cfg.session_ttl (key cfg j) d s).1
    set-IsGood t j d st s reads new old u e st' late h q =
        elim (redis.set_lem t cfg.session_ttl (key cfg j) d s u (key cfg id) e h) [
          | inl p ↦
              let same : st ≡ st' = cc (reads, p.1, q) in
              rw (← same) (new (sym (key_inj cfg id j p.0)))
          | inr r ↦ old u e st' late r q
        ]

    put-IsGood :
        (t : ℕ) (j : String) (st : State) (s : redis.Store)
        → (j ≡ id → IsProper id granted st)
        → IsGood since id granted s
        → IsGood since id granted (put redis c cfg has_redis t j st s).1
    unfolding put put_encoded
    put-IsGood t j st s new old = go (c.marshal st) refl
      where
        go :
            (o : Option Data)
            → c.marshal st ≡ o
            → IsGood since id granted (put_encoded redis c cfg has_redis t j o s).1
        go none e = old
        go (some d) e = set-IsGood t j d st s (faithful st d e) new old

    del-IsGood :
        (t : ℕ) (k : String) (s : redis.Store)
        → IsGood since id granted s
        → IsGood since id granted (redis.del t k s).1
    del-IsGood t k s old u d st late h = old u d st late (redis.del_lem t k s u (key cfg id) d h)

    get-IsProper :
        (t : ℕ) (s : redis.Store) (st : State)
        → since ≤ t
        → IsGood since id granted s
        → get redis c cfg has_redis t id s ≡ some st
        → IsProper id granted st
    unfolding get decode
    get-IsProper t s st late good h =
        of_answer (redis.get t (key cfg id) s) refl (some_of_else _ _ st h)
      where
        of_answer :
            (a : Fetched Data)
            → redis.get t (key cfg id) s ≡ a
            → decode redis c cfg has_redis a ≡ some st
            → IsProper id granted st
        of_answer failed p q = cc
        of_answer missing p q = cc
        of_answer (found d) p q = good t d st late (redis.get_found t (key cfg id) s d p) q

    choose :
        (b : Bool) (x y : Outcome × redis.Store)
        → IsGood since id granted x.1
        → IsGood since id granted y.1
        → IsGood since id granted (if b then x else y).1
    choose true x y h k = h
    choose false x y h k = k

    choose_store :
        (b : Bool) (x y : redis.Store)
        → IsGood since id granted x
        → IsGood since id granted y
        → IsGood since id granted (if b then x else y)
    choose_store true x y h k = h
    choose_store false x y h k = k

    change-IsGood :
        (m : Moment) (j : String) (f : State → Option State) (s : redis.Store)
        → since ≤ m.read_at
        → Keeps id granted f
        → IsGood since id granted s
        → IsGood since id granted (change redis c cfg has_redis m j f s).1
    unfolding change change_read write_back
    change-IsGood m j f s late keeps old =
        choose _ (ok, s) _ old (read (get redis c cfg has_redis m.read_at j s) refl)
      where
        written :
            (st : State) (o : Option State)
            → get redis c cfg has_redis m.read_at j s ≡ some st
            → f st ≡ o
            → IsGood since id granted (write_back redis c cfg has_redis m.write_at j o s).1
        written st none e q = old
        written st (some st') e q =
            put-IsGood m.write_at j st' s
              (λ same. keeps st st' q (
                get-IsProper m.read_at s st late old
                  (sym (ap (λ k. get redis c cfg has_redis m.read_at k s) same) ∙ e)))
              old

        read :
            (o : Option State)
            → get redis c cfg has_redis m.read_at j s ≡ o
            → IsGood since id granted (change_read redis c cfg has_redis m j f o s).1
        read none e = old
        read (some st) e = written st (f st) e refl

    step-IsGood :
        (op : Op) (s : redis.Store)
        → since ≤ (moment op).read_at
        → ((k : String) → In k (grants id op) → In k granted)
        → IsGood since id granted s
        → IsGood since id granted (step op s)
    unfolding step create set_auth_pubkey add_subscription remove_subscription touch delete
    step-IsGood (create_of m j ip) s late sub old =
        choose _ (ok, s) _ old
          (put-IsGood m.write_at j _ s (λ same. rw same (fresh-IsProper id granted m.unix ip)) old)
    step-IsGood (authenticate_of m j pubkey) s late sub old =
        choose _ (ok, s) _ old
          (put-IsGood m.write_at j _ s
            (λ same. rw same (
              authenticated-IsProper id granted m.unix pubkey _
                (sub pubkey (rw ((eq_iff j id).1 same) (inl refl)))
                (λ st e. get-IsProper m.read_at s st late old e)))
            old)
    step-IsGood (subscribe_of m j x) s late sub old =
        change-IsGood m j _ s late (subscribed-Keeps id granted m.unix x) old
    step-IsGood (unsubscribe_of m j x) s late sub old =
        change-IsGood m j _ s late (unsubscribed-Keeps id granted m.unix x) old
    step-IsGood (touch_of m j) s late sub old =
        change-IsGood m j _ s late (touched-Keeps id granted m.unix) old
    step-IsGood (delete_of m j) s late sub old =
        choose_store _ s _ old (del-IsGood m.write_at (key cfg j) s old)

    run-IsGood :
        (ops : List Op) (s : redis.Store)
        → All (λ op. since ≤ (moment op).read_at) ops
        → ((k : String) → In k (all_grants id ops) → In k granted)
        → IsGood since id granted s
        → IsGood since id granted (run ops s)
    unfolding run
    run-IsGood [] s late sub old = old
    run-IsGood (op ∷ ops) s late sub old =
        run-IsGood ops (step op s) late.1
          (λ k i. sub k (In-append_right k (grants id op) (all_grants id ops) i))
          (step-IsGood op s late.0
            (λ k i. sub k (In-append_left k (grants id op) (all_grants id ops) i)) old)

  get-on :
      (t : ℕ) (id : String) (s : redis.Store) (st : State)
      → get redis c cfg has_redis t id s ≡ some st
      → is_off redis c cfg has_redis ≡ false
  unfolding get
  get-on t id s st h = elim (Bool-cases (is_off redis c cfg has_redis)) [
    | inl off ↦ let gone : ◌≡◌ {A = Option State} none (some st) = rw off at h in cc
    | inr on ↦ on
  ]

  delete-view :
      (m : Moment) (id : String) (s : redis.Store) (u : ℕ)
      → is_off redis c cfg has_redis ≡ false
      → (redis.del m.write_at (key cfg id) s).0 ≡ true
      → m.write_at ≤ u
      → redis.view (delete redis c cfg has_redis m id s) u (key cfg id) ≡ none
  unfolding delete
  delete-view m id s u on done late = rw on (redis.del_done m.write_at (key cfg id) s u done late)

  -- A deletion ends a session: if Redis confirms the DEL, then after any operations on any sessions
  -- that read and end up at later times, whichever of their commands fail and whatever expires, the
  -- state that is read for the session has its id, names no key as authenticated but one that
  -- SetAuthPubkey was called with for this session since, and lists no subscription twice. The JSON
  -- codec reads what it wrote.
  pub deleted-IsProper :
      (m : Moment) (id : String) (ops : List Op) (s : redis.Store) (t : ℕ) (st : State)
      → IsFaithful c
      → (redis.del m.write_at (key cfg id) s).0 ≡ true
      → All (λ op. m.write_at ≤ (moment op).read_at) ops
      → m.write_at ≤ t
      → get redis c cfg has_redis t id (run ops (delete redis c cfg has_redis m id s)) ≡ some st
      → IsProper id (all_grants id ops) st
  deleted-IsProper m id ops s t st faithful done late now h =
      let start = delete redis c cfg has_redis m id s in
      let on = get-on t id (run ops start) st h in
      get-IsProper faithful m.write_at id (all_grants id ops) t (run ops start) st now
        (run-IsGood faithful m.write_at id (all_grants id ops) ops start late (λ k i. i)
          (λ u d st' after v q. cc (v, delete-view m id s u on done after)))
        h
