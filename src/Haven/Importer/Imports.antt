-- ===== src/Haven/Importer/Imports.antt =====
-- What an importer stores (internal/haven/importer.go).
use cloistr_relay.Prelude.{
  ℕ, ◌+◌, ◌≡◌, ◌≢◌, String, true, false, ◌⊎◌, List, [], ◌∷◌, ◌++◌, map, length, All, string_eq,
  nat_eq, contains,
}
use cloistr_relay.Prelude.Distinct.{Distinct}
use cloistr_relay.Nostr.{Event}
use cloistr_relay.Haven.Router.{Router, is_addressed_to_owner}
use cloistr_relay.Haven.Importer.{Importer, PollFate, poll_only_relay}

module _ (r : Router) where
  -- Someone else's event, of a chat kind or addressed to the owner, that is not of a private kind.
  abbrev pub IsImportable : Event → Type 0
  IsImportable e =
      (e.pubkey ≢ r.config.owner_pubkey)
      × (contains r.private_kinds e.kind ≡ false)
      × ((contains r.chat_kinds e.kind ≡ true) ⊎ (is_addressed_to_owner r e ≡ true))

  -- The stored events, with `n` of them counted outside the statistics: those of the poll that runs.
  pub record IsSound (n : ℕ) (imp : Importer) : Type 0 where
    pub wanted : All IsImportable imp.stored
    pub counted : imp.stats.events_imported + n ≡ length imp.stored
    -- The ids that are stored since the last cleanup are those that were seen, all different.
    pub older : List Event
    pub recent : List Event
    pub parts : imp.stored ≡ older ++ recent
    pub ids : map (λ e. e.id) recent ≡ imp.seen_events
    pub distinct : Distinct imp.seen_events

  -- Rounds of an importer with the relay `url` only, one after the other.
  unfoldable pub rounds : String → List PollFate → Importer → Importer
  rounds url [] imp = imp
  rounds url (f ∷ fates) imp = rounds url fates (poll_only_relay r url f imp)
