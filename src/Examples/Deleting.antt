-- ===== src/Examples/Deleting.antt =====
-- A deleted event that is posted again while PostgreSQL fails over (internal/storage).
use cloistr_relay.Prelude.{◌≢◌, inl, refl, true, none, [], ◌∷◌, arith}
use cloistr_relay.Nostr.{Event, accept}
use cloistr_relay.Storage.Tombstone.{
  Table, Attempt, errored, answered, eof, alive, reject_republished_deletion_event,
}
use cloistr_relay.Storage.Deleted.{Deletion, record_all, deleted-refused}

abbrev note : Event
note = record { id = "1"; pubkey = "alice"; created_at = 5; kind = 1; tags = []; content = "" }

abbrev nothing : Table
nothing id = none

abbrev deletion : Deletion
deletion = record { executed = true; id = "1"; kind = 1; now = 6 }

abbrev broken : Attempt
broken = errored eof alive

deleted-refused_example :
    reject_republished_deletion_event
      (record_all (deletion ∷ []) nothing)
      (record_all [] (record_all (deletion ∷ []) nothing))
      broken
      answered
      note
    ≢ accept
deleted-refused_example =
    deleted-refused deletion [] [] nothing broken answered note refl refl (inl (omega arith))
