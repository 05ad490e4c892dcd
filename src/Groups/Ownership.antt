-- ===== src/Groups/Ownership.antt =====
-- Transfers of ownership (walkTransferChain of internal/groups/resolve.go).
use cloistr_relay.Prelude.{
  ℕ, zero, suc, String, ◌≡◌, refl, ap, ◌⊎◌, inl, inr, Bool, true, List, [], ◌∷◌, arith, string_eq,
  eq_iff, select,
}
use cloistr_relay.Prelude.Sorting.{sort_by, first}
use cloistr_relay.Nostr.{Event}
use cloistr_relay.Groups.Resolve.{
  newer, named_successor, is_from, latest_event_from, successor_of, walk, walk_transfer_chain,
  max_transfer_depth,
}
use cloistr_relay.Groups.Latest.{select-select}

-- A set of keys such that an owner in it only ever transfers to a key in it.
abbrev pub KeepsOwnership : List Event → (String → Bool) → Type 0
KeepsOwnership events trusted =
    (o : String)
    → trusted o ≡ true
    → (successor_of events o ≡ "") ⊎ (trusted (successor_of events o) ≡ true)

module _ (events : List Event) (trusted : String → Bool) where
  abbrev pub theirs : List Event
  theirs = select (λ (e : Event). trusted e.pubkey) events

  theirs-is_from :
      (o : String) → trusted o ≡ true → (e : Event) → is_from o e ≡ true → trusted e.pubkey ≡ true
  unfolding is_from
  theirs-is_from o t e h = let same : e.pubkey ≡ o = ground (arith, eq_iff e.pubkey o) in rw same t

  successor_of-theirs :
      (o : String) → trusted o ≡ true → successor_of theirs o ≡ successor_of events o
  unfolding successor_of latest_event_from is_from
  successor_of-theirs o t =
      let trust : Event → Bool = λ e. trusted e.pubkey in
      ap (λ (es : List Event). named_successor (first (sort_by newer es)))
        (select-select trust (is_from o) events (theirs-is_from o t))

  walk-theirs :
      KeepsOwnership events trusted
      → (depth : ℕ) (visited : List String) (o : String) → trusted o ≡ true
      → (walk depth events visited o ≡ walk depth theirs visited o)
        × (trusted (walk depth events visited o) ≡ true)
  unfolding walk
  walk-theirs keeps zero visited o t = (refl, t)
  walk-theirs keeps (suc depth) visited o t =
      let next = successor_of events o in
      let same = successor_of-theirs o t in
      elim (keeps o t) [
        | inl end ↦ rw same (rw end (refl, t))
        | inr inside ↦
            let (ih, stays) = walk-theirs keeps depth (next ∷ visited) next inside in
            rw same (ground (arith, ih, stays))
      ]

  -- Outsiders cannot move ownership: if every owner in a set of keys only ever transfers to a key in
  -- the set, then the chain from an owner in the set ends in the set, and at the same key whatever
  -- metadata events other keys have stored for the group.
  pub walk_transfer_chain-theirs :
      KeepsOwnership events trusted
      → (o : String) → trusted o ≡ true
      → (walk_transfer_chain events o ≡ walk_transfer_chain theirs o)
        × (trusted (walk_transfer_chain events o) ≡ true)
  walk_transfer_chain-theirs keeps o t = walk-theirs keeps max_transfer_depth (o ∷ []) o t
