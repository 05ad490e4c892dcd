-- ===== src/Lib.antt =====
-- The Nostr relay of this repository: what decides which events it takes in and which it gives out.
--
-- The relay is built on the khatru framework. Each package below `internal/` appends handlers to the
-- framework's lists: a RejectEvent handler answers an event, a RejectFilter handler a question, an
-- OverwriteFilter handler rewrites a question before that, and an OnEventSaved handler follows a
-- stored event. A handler is a function here, from its configuration, the key that the client is
-- authenticated as ("" if it is not), and the event or filter, to a verdict: accept, or reject with
-- a message. A handler that changes state takes the state and returns the new one; sequences of
-- calls are lists of steps. Errors of a database are values, or arguments that say which query fails.
--
-- Files:
--   Prelude and its children  booleans, texts, lists, sorting, the order of texts
--   Nostr, Strings, Decimal   events, filters, verdicts; the functions of Go's packages strings and
--                             strconv, the latter with the round trip of Itoa and Atoi
--   Redis, Sql                the commands of a Redis server as a record of operations and laws; rows
--                             under the conditions of a SELECT; Builders, which put the conditions and
--                             the numbered arguments of a query together; and Reader, which reads the
--                             text of such a query
--   Haven                     `internal/haven`: Types (types.go), Router and Router/ForUser (router.go),
--                             Handlers (handlers.go), Blastr (blastr.go); proofs in Refusal, Writing,
--                             Reading, MultiUser, and in Blastr: Waiting, Delivery, Tries;
--                             Importer (importer.go), proofs in Imports, Lost; Subscriber
--                             (subscriber.go), proofs in Spacing
--   ArbiterClaim              `internal/arbiterclaim`: Claim (claim.go), Store (store.go, handler.go);
--                             proofs in Race, Winner, Handler
--   Auth                      `internal/auth/auth.go`
--   Handlers                  `internal/handlers/handlers.go`: Checks, Expiry; proofs in Bits, Pow
--   Protected, GiftWrap       `internal/protected/protected.go`, `internal/giftwrap/giftwrap.go`
--   Groups                    `internal/groups`: Kinds (types.go, ownership.go), Resolve (resolve.go),
--                             Metadata (reject_metadata.go), Scope (scope.go), Store and Roster
--                             (store.go), Handler and Saved (handler.go); proofs in Latest, Ownership,
--                             Metadata, Visibility, Counting, Coherence, Moderation, Entitlement,
--                             Admitted, Opening
--   Polls                     `internal/polls`: Types (types.go); proofs in RoundTrip, Validity
--   RateLimit                 `internal/ratelimit/memory.go`
--   Storage                   `internal/storage`: Tombstone (tombstone.go); proofs in Deleted
--   Wot                       `internal/wot`: Trust (types.go, trust.go), Bucket and Gate (trust.go);
--                             proofs in Trust, Bucket, Isolation
--   EventCache                `internal/eventcache`: Cache; proofs in Keys, Invariant, Sound
--   Session                   `internal/session`: Store; proofs in Proper, Authenticated
--   Expiry                    `internal/expiry/sweeper.go`: Sweeper; proofs in Batches, Sweeping
--   Search                    `internal/search/search.go`: Query, Setup; proofs in Selects, Settled
--   Management                `internal/management`: Access (store.go, handler.go), Reload
--                             (access_cache.go), Browser (query.go); proofs in Exclusion, Freshness,
--                             Bans, Browsing
--   Membership                `internal/membership`: Join (handler.go, types.go, store.go), Payments
--                             (payments.go, http.go, scheduler.go); proofs in Admission, Invites,
--                             Settlement, Grants, Webhooks
--   Gates                     `cmd/relay/gates.go`: Chain; proofs in Order, Admissible
--   WriteAhead                `internal/writeahead`: Queue (writeahead.go); Ops has the specification,
--                             proofs in Refinement, Accounting, Shutdown, Recovery
--   Examples                  concrete applications of the theorems
--
-- How the parts interact: the checks of Handlers, Auth, Protected and the gates of Wot and Haven all
-- stand on the same list of RejectEvent handlers, and an event is stored if none refuses it; Gates has
-- the first part of that list, with the deletion check of Storage and the bans of Management. Gate uses
-- the buckets of Bucket and the leading zero bits of Checks. Haven's multi-user mode asks the member
-- store of the membership package through an interface, a parameter here. Groups.Scope wraps the
-- query handlers of the store, which are parameters. EventCache and Session stand on the record of
-- Redis, a parameter of their sections; Search and Management.Browser stand on Sql. Importer and
-- Subscriber route an event with Haven's Router and then call the same store function.
--
-- Conventions and bounds: a count, a kind and a Unix time is a natural number; a limit that the
-- configuration turns off with zero or less is 0. Texts that the code cuts by bytes (keys, ids) are
-- hexadecimal, so that a byte is a character. A Go map that is only asked for membership is a list; a
-- map that is iterated is a list in any order, taken as an argument. The transfer chain of a group is
-- walked for 20 turns, as in the code. The token buckets of Wot count in 10⁻⁹ tokens and nanoseconds,
-- so that no rounding occurs. The table of claims is served one INSERT at a time, as Postgres orders
-- conflicting writes to one row. The loop of the write-ahead log's drain at a shutdown runs on fuel;
-- one more than the entries of the queue is enough. What Redis, PostgreSQL and the clock answer in a
-- step of the write-ahead log or of the group store is an argument of the step. The reloads of
-- Management and the webhooks of Membership.Payments are goroutines that interleave at every query:
-- a run is a list of moves, and a move that cannot be made changes nothing. The sweeper's loop of
-- batches runs on fuel, more than there are expired events is enough; the loop of retrySetup too, one
-- more than the attempts that fail is enough. A DELETE with a LIMIT takes the first rows of the
-- table that match. A poll of the importer runs while no other one does, and the subscriber's
-- events arrive one at a time. An LPop or the RPush of a write of the write-ahead log, a command of the
-- caches and the sessions, MarkSettled, and a statement on the groups' tables that fail may have been
-- carried out.
--
-- Parameters: the SQL and Redis stores, relay29 (its map of groups and its handlers), khatru's
-- authentication, the signature check and `Tags.GetD` of go-nostr. What a theorem needs of them is a
-- hypothesis of its own: that a COUNT counts the matching events and reads #h (ReadsHTags), that
-- group ids are different (HasUniqueKeys), that the store's follow queries read one graph
-- (ReadsGraph, IsComplete), that the JSON codec of the write-ahead log reads what it wrote
-- (IsFaithful), that ZRANGEBYSCORE answers members of its set (IsRange). The laws of Redis say what
-- GET and MGET read after SET and DEL. Also parameters: Go's `strings.ToLower` and `time.Parse`, and
-- what the full text search and ILIKE of PostgreSQL find.
--
-- Not modelled: the connections of Haven's blastr, importer and subscriber, its organization of kinds
-- for display, and its metrics; the DDL and the backfill of the search index; the concurrent polls of
-- an importer with several relays; the Redis rate limiter, pub/sub, PageRank, feeds, zaps, lists,
-- calendar and communities, the HTTP interface of payments and of management, HTTP pages,
-- configuration, logging and metrics: they move data to or from a
-- framework, or read settings. The rounding of floating point is left out.
pub mod Prelude
pub mod Nostr
pub mod Strings
pub mod Decimal
pub mod Haven
pub mod ArbiterClaim
pub mod Auth
pub mod Handlers
pub mod Polls
pub mod Protected
pub mod GiftWrap
pub mod Groups
pub mod RateLimit
pub mod Storage
pub mod Wot
pub mod WriteAhead
pub mod Management
pub mod Membership
pub mod Gates
pub mod Redis
pub mod Sql
pub mod EventCache
pub mod Session
pub mod Expiry
pub mod Search
pub mod Examples
