-- ===== src/Wot/Gate.antt =====
-- RejectEventByTrust of internal/wot/trust.go, with the buckets of every key. The leading zero bits
-- are those of internal/handlers, whose function is repeated there.
use cloistr_relay.Prelude.{
  ℕ, String, Bool, false, not, ◌&&◌, ◌||◌, Option, none, some, List, [], ◌∷◌, ◌==◌, nat_eq,
  string_eq, contains, ltb, if◌then◌else◌,
}
use cloistr_relay.Nostr.{Event, Message, msg, num, str, Verdict, accept, reject}
use cloistr_relay.Handlers.Checks.{count_leading_zero_bits}
use cloistr_relay.Wot.Bucket.{RateBucket, new_bucket, allow}
use cloistr_relay.Wot.Trust.{TrustLevel, paid, owner, follow, follow_of_follow, unknown}

pub record TrustPolicy : Type 0 where
  pub events_per_second : ℕ
  pub require_pow : Bool
  pub min_pow_difficulty : ℕ

abbrev pub default_policies : TrustLevel → TrustPolicy
default_policies paid = record {
  events_per_second = 50;
  require_pow = false;
  min_pow_difficulty = 0;
}
default_policies owner = record {
  events_per_second = 100;
  require_pow = false;
  min_pow_difficulty = 0;
}
default_policies follow = record {
  events_per_second = 50;
  require_pow = false;
  min_pow_difficulty = 0;
}
default_policies follow_of_follow = record {
  events_per_second = 20;
  require_pow = false;
  min_pow_difficulty = 0;
}
default_policies unknown = record {
  events_per_second = 5;
  require_pow = false;
  min_pow_difficulty = 0;
}

abbrev pub level_name : TrustLevel → String
level_name paid = "paid"
level_name owner = "owner"
level_name follow = "follow"
level_name follow_of_follow = "follow-of-follow"
level_name unknown = "unknown"

pub record Handler : Type 0 where
  pub trust_roots : List String
  pub policies : TrustLevel → TrustPolicy
  pub allowed_pubkeys : List String
  pub is_paid_member : String → Bool
  pub graph_level : String → TrustLevel
  pub collab_kinds : List ℕ
  pub collab_rate : ℕ

-- getTrustLevel. `graph_level` is the answer of the PageRank or of the follow graph, as configured;
-- without a membership integration nobody is a paid member.
unfoldable pub get_trust_level : Handler → String → TrustLevel
get_trust_level h pubkey =
    if contains h.trust_roots pubkey
    then owner
    else if h.is_paid_member pubkey
    then paid
    else h.graph_level pubkey

abbrev pub Buckets : Type 0
Buckets = String → Option RateBucket

abbrev or_new : ℕ → ℕ → Option RateBucket → RateBucket
or_new now rate none = new_bucket now rate
or_new now rate (some b) = b

-- getOrCreateBucket and allow, of the bucket of that key.
unfoldable pub draw : ℕ → ℕ → String → Buckets → Bool × Buckets
draw now rate key buckets =
    let (ok, b) = allow now (or_new now rate (buckets key)) in
    (ok, λ k. if k == key then some b else buckets k)

abbrev max : ℕ → ℕ → ℕ
max a b = if ltb a b then b else a

unfoldable pub collab_key : String → String
collab_key pubkey = Prim.Native.String.◌++◌ "collab:" pubkey

abbrev pub author_is_authenticated : String → String → Bool
author_is_authenticated authed pubkey = not (authed == "") && authed == pubkey

-- Which bucket an event draws from, and its rate.
pub data Charge : Type 0 where
  free : Charge
  collab : ℕ → Charge
  general : ℕ → Charge

unfoldable pub charge : Handler → ℕ → ℕ → Charge
charge h kind rate =
    if rate == 0
    then free
    else if contains h.collab_kinds kind && ltb 0 h.collab_rate
    then collab (max rate h.collab_rate)
    else general rate

abbrev limited : String → TrustLevel → ℕ → Message
limited format level rate = msg format (str (level_name level) ∷ num rate ∷ [])

-- The refusal of an empty bucket, if any.
unfoldable pub rate_limit : ℕ → TrustLevel → String → Charge → Buckets → Option Message × Buckets
rate_limit now level pubkey free buckets = (none, buckets)
rate_limit now level pubkey (collab rate) buckets =
    let (ok, buckets') = draw now rate (collab_key pubkey) buckets in
    (
      if ok
          then none
          else some (
              limited "rate-limited: trust level %s allows %d collaboration events/sec" level rate),
      buckets',
    )
rate_limit now level pubkey (general rate) buckets =
    let (ok, buckets') = draw now rate pubkey buckets in
    (
      if ok
          then none
          else some (limited "rate-limited: trust level %s allows %d events/sec" level rate),
      buckets',
    )

unfoldable pub pow_gate : TrustPolicy → String → Event → Verdict
pow_gate policy authed event =
    let difficulty = count_leading_zero_bits event.id in
    if author_is_authenticated authed event.pubkey
    then accept
    else if policy.require_pow
        && ltb 0 policy.min_pow_difficulty
        && ltb difficulty policy.min_pow_difficulty
    then reject (
        msg "pow: low trust requires proof of work (got %d, need %d)"
          (num difficulty ∷ num policy.min_pow_difficulty ∷ []))
    else accept

unfoldable pub is_exempt : Handler → Event → Bool
is_exempt h event = event.kind == 24133 || contains h.allowed_pubkeys event.pubkey

abbrev refuse_or : Option Message → Verdict → Verdict
refuse_or none v = v
refuse_or (some m) v = reject m

unfoldable pub gate : Handler → ℕ → String → TrustLevel → Event → Buckets → Verdict × Buckets
gate h now authed level event buckets =
    let policy = h.policies level in
    let (refusal, buckets') =
      rate_limit now level event.pubkey (charge h event.kind policy.events_per_second) buckets in
    (refuse_or refusal (pow_gate policy authed event), buckets')

unfoldable pub reject_event_by_trust : Handler → ℕ → String → Event → Buckets → Verdict × Buckets
reject_event_by_trust h now authed event buckets =
    if is_exempt h event
    then (accept, buckets)
    else gate h now authed (get_trust_level h event.pubkey) event buckets
