-- ===== src/Groups/Opening.antt =====
-- A metadata edit without a privacy tag opens its group.
use cloistr_relay.Prelude.{
  String, ◌≡◌, refl, Bool, true, false, some, ◌==◌, string_eq, nat_eq, eq_iff, arith, ap,
}
use cloistr_relay.Nostr.{Event, Filter, accept}
use cloistr_relay.Groups.Kinds.{privacy_of, other, can_read, show_metadata}
use cloistr_relay.Groups.Store.{
  Store, Config, Sql, Group, get_group, update_group_metadata, updated_group, with_metadata,
}
use cloistr_relay.Groups.Roster.{is_member}
use cloistr_relay.Groups.Handler.{
  get_group_id_from_event, get_group_id_from_filter, last_value, reject_filter, check_group_filter,
  kind_edit_metadata,
}
use cloistr_relay.Groups.Saved.{Parsers, on_event_saved, process_edit_metadata, edited}

abbrev pub no_text : String
no_text = ""

unnamed_level : (s : String) → s ≡ no_text → privacy_of s ≡ other no_text
unfolding privacy_of
unnamed_level s e = rw e refl

unnamed-accept :
    (authed : String) (f : Filter) (member : Bool) (g : Group)
    → g.row.privacy ≡ other no_text
    → check_group_filter authed f member (some g) ≡ accept
unfolding check_group_filter can_read show_metadata
unnamed-accept authed f member g e =
    ground (arith, ap (λ l. can_read l member) e, ap (λ l. show_metadata l member) e)

module _ (cfg : Config) (parsers : Parsers) (q : Sql) (e : Event) (st : Store) (g : Group) where
  opened_level :
      last_value "privacy" "" e.tags ≡ no_text
      → (with_metadata (edited e) g.row).privacy ≡ other no_text
  unfolding with_metadata edited
  opened_level silent = unnamed_level (last_value "privacy" "" e.tags) silent

  edited-cache :
      cfg.enabled ≡ true
      → e.kind ≡ kind_edit_metadata
      → (get_group_id_from_event e == no_text) ≡ false
      → q.group_updated ≡ true
      → st.cache (get_group_id_from_event e) ≡ some g
      → get_group ((on_event_saved cfg parsers q e st).1) (get_group_id_from_event e)
        ≡ some (record g { row = with_metadata (edited e) g.row })
  unfolding on_event_saved process_edit_metadata update_group_metadata get_group updated_group
  edited-cache on kind named up cached = ground (
    arith,
    on,
    kind,
    named,
    up,
    cached,
    eq_iff (get_group_id_from_event e) (get_group_id_from_event e),
  )

  -- An edit of the metadata without a privacy tag lets every client read a group, whatever its
  -- privacy was: all its filters are accepted, also those without authentication.
  pub edited-accept :
      cfg.enabled ≡ true
      → e.kind ≡ kind_edit_metadata
      → (get_group_id_from_event e == no_text) ≡ false
      → q.group_updated ≡ true
      → st.cache (get_group_id_from_event e) ≡ some g
      → last_value "privacy" "" e.tags ≡ no_text
      → (authed : String) (f : Filter) → get_group_id_from_filter f ≡ get_group_id_from_event e
      → reject_filter cfg authed ((on_event_saved cfg parsers q e st).1) f ≡ accept
  unfolding reject_filter
  edited-accept on kind named up cached silent authed f asked =
      let id : String = get_group_id_from_event e in
      let st' : Store = (on_event_saved cfg parsers q e st).1 in
      let g' : Group = record g { row = with_metadata (edited e) g.row } in
      let opened : g'.row.privacy ≡ other no_text = opened_level silent in
      rw (asked, edited-cache on kind named up cached)
        (ground (arith, on, named, unnamed-accept authed f (is_member st' id authed) g' opened))
