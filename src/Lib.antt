-- ===== src/Lib.antt =====
-- The relay's own logic: which service and grants a request gets, who holds a track, who waits for
-- one, and what is counted on the way. A verification library beside src/.
--
-- The parts, and the files that model them:
--   Base            shared lists, Boolean tests, association lists, track names
--   SafeName        src/SafeTrackName.cpp: safeName and parseSafe* as safe_* and parse_safe_*
--   Auth.Cbor       src/auth/CborReader.h: each read takes the unread bytes and returns the rest
--   Auth.Action     src/auth/Action.h: the names of actions
--   Auth.Grants     src/auth/Auth.h, src/auth/Auth.cpp, src/auth/Action.h: match rules, allows
--   Auth.Claims     src/auth/Auth.cpp: hasOnlyEnforcedClaims, on top of Auth.Cbor
--   Auth.Tokens     src/auth/Auth.cpp: the grants of a token
--   Auth.Verifier   src/auth/Auth.cpp: AuthTokenVerifier; Auth.Verifier.Requests: authenticateSetup
--                   and authorize
--   ServiceMatcher  src/ServiceMatcher.cpp
--   Registry        src/SubscriptionRegistry.cpp: operations; Registry.Views: lookups;
--                   Registry.Lifecycle: the rest, and the steps of the registry as a relation
--   NamespaceTree   src/NamespaceTree.cpp: its children Routes, Nodes (counts and pruning),
--                   Operations, Subscriptions and Queries; a flat map in Runs, which the tree
--                   implements
--   PropertyRanking src/relay/PropertyRanking.cpp: its children Tracks, Groups, Thresholds,
--                   Operations, Moves and Sessions. The namespace tree holds rankings by identity
--                   and reports the calls that it makes of them
--   TopNFilter      src/relay/TopNFilter.cpp: checkProperties and publishDone, which call the
--                   observers that a ranking registers
--   Rendezvous      src/PendingRendezvousTree.cpp; Rendezvous.Timeout: takeRendezvousTimeout
--   Config          src/config/ConfigResolver.cpp: TLS, cache and auth settings; the last
--                   become the AuthConfig of Auth.Verifier
--   Stats           src/stats/BoundedHistogram.h, src/relay/RecentGroupWindow.h, and IngestCounters
--                   of src/SubscriptionRegistry.h
--
-- Each file names the code it is about. Strings are lists of bytes; integers are natural numbers
-- that wrap where the code's do. A map is an association list. Shared pointers to objects of
-- moxygen are numbers. State is passed on explicitly.
--
-- Fuel: only `skip` of Auth.Cbor needs any, the number of unread bytes and one more for the nesting
-- of items, and that is enough on every input. All else recurs on the structure of its input.
--
-- Parameters: catapult, OpenSSL and the clock (the record Library of Auth.Tokens), std::sort
-- (ServiceMatcher, PropertyRanking), MoQSession::sessionId (NamespaceTree), the clock and the last
-- activity of a track (PropertyRanking), the integer extensions of an object (TopNFilter), the order
-- on locations (Stats.Ingest), the forwarders' `empty` (Registry), folly::trimWhitespace
-- (Auth.Action), the version of a session and the parameters of a request (Rendezvous.Timeout),
-- and files, the environment and loadPkcs12File (Config.Tls). Config.Auth holds for
-- any function in place of the canonical_action of Auth.Action.
--
-- Not modelled: the cache, the relay's coroutines and the filters between executors, the upstream
-- provider, and the code that reads configuration files or starts servers. A baton is not signalled:
-- a wake-up returns those to signal. The callbacks of the property ranking and of the filter
-- are events, and do not call back. The counts of active children in the namespace tree have no bound.
pub mod Auth
pub mod Base
pub mod Config
pub mod NamespaceTree
pub mod PropertyRanking
pub mod Registry
pub mod Rendezvous
pub mod SafeName
pub mod ServiceMatcher
pub mod Stats
pub mod TopNFilter
