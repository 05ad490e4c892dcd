-- ===== src/Wot/Trust.antt =====
-- Trust levels of internal/wot/types.go and their computation from the follow graph (trust.go). The
-- store's two queries are parameters, `none` where they fail.
use cloistr_relay.Prelude.{
  ℕ, ◌≤◌, String, ◌≡◌, refl, sym, ap, ◌∙◌, inl, inr, Bool, true, false, ◌&&◌, Option, none, some,
  List, [], ◌∷◌, arith, ◌==◌, nat_eq, string_eq, contains, any_of, In, any_of-In, In-any_of, leb,
  if◌then◌else◌, Bool-cases,
}

pub data TrustLevel : Type 0 where
  paid owner follow follow_of_follow unknown : TrustLevel

-- `IsFollowing` and `GetFollows`.
pub record FollowStore : Type 0 where
  pub is_following : String → String → Option Bool
  pub get_follows : String → Option (List String)

pub record Calculator : Type 0 where
  pub store : FollowStore
  pub trust_roots : List String
  pub max_depth : ℕ

-- NewTrustCalculator
unfoldable pub keep_named : List String → List String
keep_named [] = []
keep_named (r ∷ roots) = let rest = keep_named roots in if r == "" then rest else r ∷ rest

abbrev pub new_trust_calculator : FollowStore → List String → ℕ → Calculator
new_trust_calculator store trust_roots max_depth = record {
  store = store;
  trust_roots = keep_named trust_roots;
  max_depth = if max_depth == 0 then 2 else max_depth;
}

-- An error is passed over, as a missing follow.
abbrev succeeds : Option Bool → Bool
succeeds none = false
succeeds (some b) = b

abbrev listed : Option (List String) → List String
listed none = []
listed (some follows) = follows

unfoldable pub is_followed : FollowStore → String → String → Bool
is_followed s pubkey follower = succeeds (s.is_following follower pubkey)

unfoldable pub is_followed_by_follow : FollowStore → String → String → Bool
is_followed_by_follow s pubkey root = any_of (is_followed s pubkey) (listed (s.get_follows root))

unfoldable pub calculate_trust_level : Calculator → String → TrustLevel
calculate_trust_level tc pubkey =
    if contains tc.trust_roots pubkey
    then owner
    else if any_of (is_followed tc.store pubkey) tc.trust_roots
    then follow
    else if leb 2 tc.max_depth && any_of (is_followed_by_follow tc.store pubkey) tc.trust_roots
    then follow_of_follow
    else unknown

-- The answers of a store that reads the graph: an answer may be missing, and is right if it is not.
pub record ReadsGraph (follows : String → String → Bool) (s : FollowStore) : Type 0 where
  pub following : (a b : String) (x : Bool) → s.is_following a b ≡ some x → x ≡ follows a b
  pub list :
      (a : String) (l : List String)
      → s.get_follows a ≡ some l
      → (b : String) → In b l
      → follows a b ≡ true

-- The store answers every query, with the whole graph.
pub record IsComplete (follows : String → String → Bool) (s : FollowStore) : Type 0 where
  pub following_all : (a b : String) → s.is_following a b ≡ some (follows a b)
  pub list_all :
      (a : String)
      → (l : List String) × (s.get_follows a ≡ some l)
        × ((b : String) → follows a b ≡ true → In b l)

module _ (follows : String → String → Bool) (tc : Calculator) (pubkey : String) where
  abbrev pub IsRoot : Type 0
  IsRoot = contains tc.trust_roots pubkey ≡ true

  abbrev pub IsFollowed : Type 0
  IsFollowed = (r : String) × In r tc.trust_roots × (follows r pubkey ≡ true)

  abbrev pub IsFollowedByFollow : Type 0
  IsFollowedByFollow =
      (r : String) × In r tc.trust_roots
      × ((m : String) × (follows r m ≡ true) × (follows m pubkey ≡ true))

  -- What a level says of the graph.
  abbrev pub IsJustified : TrustLevel → Type 0
  IsJustified paid = ⊥
  IsJustified owner = IsRoot
  IsJustified follow = IsFollowed
  IsJustified follow_of_follow = IsFollowedByFollow × (2 ≤ tc.max_depth)
  IsJustified unknown = Unit

  -- What a level rules out: that a closer one was due.
  abbrev pub IsClosest : TrustLevel → Type 0
  IsClosest paid = ⊥
  IsClosest owner = Unit
  IsClosest follow = ¬ IsRoot
  IsClosest follow_of_follow = (¬ IsRoot) × (¬ IsFollowed)
  IsClosest unknown = (¬ IsRoot) × (¬ IsFollowed) × (¬ ((2 ≤ tc.max_depth) × IsFollowedByFollow))

  -- The third test of the calculation.
  abbrev deep : Bool
  deep = leb 2 tc.max_depth && any_of (is_followed_by_follow tc.store pubkey) tc.trust_roots

  module _ (reads : ReadsGraph follows tc.store) where
    is_followed-follows :
        (a : String) → is_followed tc.store pubkey a ≡ true → follows a pubkey ≡ true
    unfolding is_followed
    is_followed-follows a h = go (tc.store.is_following a pubkey) refl h
      where
        go :
            (x : Option Bool)
            → tc.store.is_following a pubkey ≡ x
            → succeeds x ≡ true
            → follows a pubkey ≡ true
        go none e t = absurd (ground (arith, t))
        go (some b) e t = sym (reads.following a pubkey b e) ∙ t

    listed-follows : (a b : String) → In b (listed (tc.store.get_follows a)) → follows a b ≡ true
    listed-follows a b i = go (tc.store.get_follows a) refl i
      where
        go :
            (x : Option (List String))
            → tc.store.get_follows a ≡ x
            → In b (listed x)
            → follows a b ≡ true
        go none e j = absurd j
        go (some l) e j = reads.list a l e b j

    by_follow :
        any_of (is_followed_by_follow tc.store pubkey) tc.trust_roots ≡ true → IsFollowedByFollow
    unfolding is_followed_by_follow
    by_follow hit =
        let (r, i, h) = any_of-In (is_followed_by_follow tc.store pubkey) tc.trust_roots hit in
        let (m, j, k) =
          any_of-In (is_followed tc.store pubkey) (listed (tc.store.get_follows r)) h in
        (r, i, (m, listed-follows r m j, is_followed-follows m k))

    -- A trust level is never higher than the follow graph justifies, whichever queries fail: the
    -- owner's level is a root's, the next one that of a key that a root follows, and the third that
    -- of a key that is followed by one whom a root follows.
    pub calculate_trust_level-IsJustified : IsJustified (calculate_trust_level tc pubkey)
    unfolding calculate_trust_level
    calculate_trust_level-IsJustified = elim (Bool-cases (contains tc.trust_roots pubkey)) [
      | inl root ↦ rw root root
      | inr r0 ↦ rw r0 (elim (Bool-cases (any_of (is_followed tc.store pubkey) tc.trust_roots)) [
        | inl hit ↦
            let (r, i, h) = any_of-In (is_followed tc.store pubkey) tc.trust_roots hit in
            rw hit (r, i, is_followed-follows r h)
        | inr r1 ↦ rw r1 (elim (Bool-cases deep) [
          | inl hit ↦ rw hit (by_follow (ground (arith, hit)), ground (arith, hit))
          | inr r2 ↦ rw r2 tt
        ])
      ])
    ]

  module _ (complete : IsComplete follows tc.store) where
    follows-is_followed :
        (a : String) → follows a pubkey ≡ true → is_followed tc.store pubkey a ≡ true
    unfolding is_followed
    follows-is_followed a h = ap succeeds (complete.following_all a pubkey) ∙ h

    follows-by_follow :
        IsFollowedByFollow → any_of (is_followed_by_follow tc.store pubkey) tc.trust_roots ≡ true
    unfolding is_followed_by_follow
    follows-by_follow (r, i, (m, f, g)) =
        let (l, e, all) = complete.list_all r in
        let j : In m (listed (tc.store.get_follows r)) = rw e (all m f) in
        In-any_of (is_followed_by_follow tc.store pubkey) r tc.trust_roots i (
          In-any_of (is_followed tc.store pubkey) m (listed (tc.store.get_follows r)) j
            (follows-is_followed m g))

    -- If the store answers every query, the level is the closest: no key gets a lower one than its
    -- distance from the roots in the follow graph gives it, up to the depth that is configured.
    pub calculate_trust_level-IsClosest : IsClosest (calculate_trust_level tc pubkey)
    unfolding calculate_trust_level
    calculate_trust_level-IsClosest = elim (Bool-cases (contains tc.trust_roots pubkey)) [
      | inl root ↦ rw root tt
      | inr r0 ↦
          let no_root : ¬ IsRoot = λ h. ground (arith, h, r0) in
          rw r0 (elim (Bool-cases (any_of (is_followed tc.store pubkey) tc.trust_roots)) [
            | inl hit ↦ rw hit no_root
            | inr r1 ↦
                let not_followed : ¬ IsFollowed = λ (r, i, f). ground (
                  arith,
                  r1,
                  In-any_of (is_followed tc.store pubkey) r tc.trust_roots i
                      (follows-is_followed r f),
                ) in
                rw r1 (elim (Bool-cases deep) [
                  | inl hit ↦ rw hit (no_root, not_followed)
                  | inr r2 ↦
                      rw r2 (
                        no_root,
                        not_followed,
                        λ (d, f). ground (arith, r2, d, follows-by_follow f),
                      )
                ])
          ])
    ]
