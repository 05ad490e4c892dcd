-- ===== src/Examples/Trust.antt =====
-- A root that follows "bob", who follows "carol" (internal/wot).
use cloistr_relay.Prelude.{
  String, ◌≢◌, refl, Bool, false, ◌&&◌, ◌||◌, none, some, [], ◌∷◌, arith, eq_iff, ◌==◌, string_eq,
  nat_eq, ◌≤◌, ◌+◌, ◌*◌, ◌-◌,
}
use cloistr_relay.Wot.Trust.{
  Calculator, FollowStore, ReadsGraph, IsComplete, IsJustified, IsClosest, calculate_trust_level,
  calculate_trust_level-IsJustified, calculate_trust_level-IsClosest,
}
use cloistr_relay.Wot.Bucket.{new_bucket, granted, granted-bound, allow, allow-burst, token}
use cloistr_relay.Wot.Gate.{collab_key}

abbrev follows : String → String → Bool
follows a b = a == "root" && b == "bob" || a == "bob" && b == "carol"

abbrev store : FollowStore
store = record { is_following = λ a b. some (follows a b); get_follows = λ a. none }

abbrev calculator : Calculator
calculator = record { store = store; trust_roots = "root" ∷ []; max_depth = 2 }

store_reads : ReadsGraph follows store
store_reads = record {
  following = λ a b x e. ground (arith, e);
  list = λ a l e b i. absurd (ground (arith, e));
}

calculate_trust_level-IsJustified_example :
    IsJustified follows calculator "bob" (calculate_trust_level calculator "bob")
calculate_trust_level-IsJustified_example =
    calculate_trust_level-IsJustified follows calculator "bob" store_reads

-- A graph in which nobody follows anybody.
abbrev nobody : String → String → Bool
nobody a b = false

abbrev lonely : Calculator
lonely = record {
  store = record { is_following = λ a b. some false; get_follows = λ a. some [] };
  trust_roots = "root" ∷ [];
  max_depth = 2;
}

lonely-IsComplete : IsComplete nobody lonely.store
lonely-IsComplete = record {
  following_all = λ a b. refl;
  list_all = λ a. ([], refl, λ b e. absurd (ground (arith, e)));
}

calculate_trust_level-IsClosest_example :
    IsClosest nobody lonely "carol" (calculate_trust_level lonely "carol")
calculate_trust_level-IsClosest_example =
    calculate_trust_level-IsClosest nobody lonely "carol" lonely-IsComplete

granted-bound_example :
    granted (0 ∷ 5 ∷ 1000000000 ∷ []) (new_bucket 0 5) * token ≤ 5 * token + (1000000000 - 0) * 5
granted-bound_example =
    granted-bound (0 ∷ 5 ∷ 1000000000 ∷ []) (new_bucket 0 5) 1000000000
      (omega arith, (omega arith, (omega arith, omega arith)))

allow-burst_example : (allow 7 (new_bucket 0 5)).1.tokens ≤ 5 * 2 * token
allow-burst_example = allow-burst 7 (new_bucket 0 5)

abbrev bob : String
bob = "bob"

abbrev carol : String
carol = "carol"

carol_not_bob : carol ≢ bob
carol_not_bob e = ground (arith, e, eq_iff carol bob)

carol_not_collab : carol ≢ collab_key bob
unfolding collab_key
carol_not_collab e = ground (arith, e, eq_iff carol "collab:bob")
