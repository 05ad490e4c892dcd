-- ===== src/Session/Proper.antt =====
-- Proper states of a session, and the changes that keep them proper (internal/session/session.go).
use cloistr_relay.Prelude.{
  ℕ, ◌≡◌, refl, String, not, ◌⊎◌, inl, inr, Option, none, some, List, [], ◌∷◌, ◌++◌, In, Bool-cases,
  if◌then◌else◌, select, contains, string_eq, ◌==◌,
}
use cloistr_relay.Prelude.Distinct.{Distinct, Distinct-append, Distinct-select}
use cloistr_relay.Session.Store.{
  State, Codec, Moment, fresh, authenticated, subscribed, unsubscribed, touched,
}

-- What is marshalled is read again.
abbrev pub IsFaithful : {Data : Type 0} → Codec Data → Type 0
IsFaithful {Data} c = (st : State) (d : Data) → c.marshal st ≡ some d → c.unmarshal d ≡ some st

-- An operation, with its session.
pub data Op : Type 0 where
  create_of : Moment → String → String → Op
  authenticate_of : Moment → String → String → Op
  subscribe_of : Moment → String → String → Op
  unsubscribe_of : Moment → String → String → Op
  touch_of : Moment → String → Op
  delete_of : Moment → String → Op

abbrev pub moment : Op → Moment
moment (create_of m id ip) = m
moment (authenticate_of m id pubkey) = m
moment (subscribe_of m id sub) = m
moment (unsubscribe_of m id sub) = m
moment (touch_of m id) = m
moment (delete_of m id) = m

-- The keys that SetAuthPubkey is called with for a session.
abbrev pub grants : String → Op → List String
grants id (create_of m j ip) = []
grants id (authenticate_of m j pubkey) = if j == id then pubkey ∷ [] else []
grants id (subscribe_of m j sub) = []
grants id (unsubscribe_of m j sub) = []
grants id (touch_of m j) = []
grants id (delete_of m j) = []

abbrev pub all_grants : String → List Op → List String
all_grants id [] = []
all_grants id (op ∷ ops) = grants id op ++ all_grants id ops

pub record IsProper (id : String) (granted : List String) (st : State) : Type 0 where
  pub named : st.session_id ≡ id
  pub authorized : (st.auth_pubkey ≡ "") ⊎ In st.auth_pubkey granted
  pub distinct : Distinct st.subscriptions

module _ (id : String) (granted : List String) where
  pub fresh-IsProper : (now : ℕ) (ip : String) → IsProper id granted (fresh now id ip)
  unfolding fresh
  fresh-IsProper now ip = record { named = refl; authorized = inl refl; distinct = tt }

  pub authenticated-IsProper :
      (now : ℕ) (pubkey : String) (o : Option State)
      → In pubkey granted
      → ((st : State) → o ≡ some st → IsProper id granted st)
      → IsProper id granted (authenticated now id pubkey o)
  unfolding authenticated
  authenticated-IsProper now pubkey none i h = record {
    named = refl;
    authorized = inr i;
    distinct = tt;
  }
  authenticated-IsProper now pubkey (some st) i h =
      let old = h st refl in
      record { named = old.named; authorized = inr i; distinct = old.distinct }

  -- A change of a state that keeps it proper.
  abbrev pub Keeps : (State → Option State) → Type 0
  Keeps f = (st st' : State) → f st ≡ some st' → IsProper id granted st → IsProper id granted st'

  pub subscribed-Keeps : (now : ℕ) (sub : String) → Keeps (subscribed now sub)
  unfolding subscribed
  subscribed-Keeps now sub st st' e old = elim (Bool-cases (contains st.subscriptions sub)) [
    | inl there ↦ let h = rw there at e in cc
    | inr new ↦
        let h : some
              (record st { subscriptions = st.subscriptions ++ sub ∷ []; last_activity = now })
            ≡ some st' =
          rw new at e in
        let same : record st { subscriptions = st.subscriptions ++ sub ∷ []; last_activity = now }
            ≡ st' =
          cc h in
        rw (← same) (record {
          named = old.named;
          authorized = old.authorized;
          distinct = Distinct-append st.subscriptions sub old.distinct new;
        })
  ]

  pub unsubscribed-Keeps : (now : ℕ) (sub : String) → Keeps (unsubscribed now sub)
  unfolding unsubscribed
  unsubscribed-Keeps now sub st st' e old =
      let same : record st {
        subscriptions = select (λ x. not (x == sub)) st.subscriptions;
        last_activity = now;
      }
          ≡ st' =
        cc e in
      rw (← same) (record {
        named = old.named;
        authorized = old.authorized;
        distinct = Distinct-select _ st.subscriptions old.distinct;
      })

  pub touched-Keeps : (now : ℕ) → Keeps (touched now)
  unfolding touched
  touched-Keeps now st st' e old =
      let same : record st { last_activity = now } ≡ st' = cc e in
      rw (← same)
        (record { named = old.named; authorized = old.authorized; distinct = old.distinct })
