-- ===== src/Lib.antt =====
-- permissions-api decides who may do what: a policy of resource types and actions is compiled to a
-- schema for SpiceDB, and an engine keeps the roles, role bindings and relationships that SpiceDB
-- decides by, partly in a database and partly in SpiceDB.
--
-- Parts and files:
-- - Base, with children: the conditional, options, lists and the names of the libraries.
-- - Dict: Go's maps with text keys as association lists. Where the code ranges over a map the
--   model takes a Runtime, any choice of an order that visits each entry once.
-- - Types: the records of internal/types/types.go.
-- - Iapl: internal/iapl/policy.go and internal/iapl/rbac.go. Iapl/Document has the policy document
--   and how documents and files are merged (LoadPolicyDocumentFromFiles), Iapl/Rbac the names and
--   the generated conditions and actions of RBAC, Iapl/Policy NewPolicy with its expansions,
--   Iapl/Validate the method Validate, Iapl/Schema the method Schema, and Iapl/Default the default
--   policy of internal/iapl/default.go. The specifications are
--   Iapl/Valid/Spec and Iapl/Schema/Called; the proofs stand beside them and in Iapl/Merge and
--   Iapl/Built, and what the expansion of unions gives is in Iapl/Expand.
-- - Query: internal/query. Query/Messages has what is exchanged with SpiceDB and the database,
--   Query/Engine the engine of internal/query/service.go and its look-ups, Query/Updates the
--   relationships that are written, Query/Diff the function diff, Query/Monad the calls of the
--   outside, Query/Roles and Query/Relations the operations of internal/query/relations.go and the
--   tokens of internal/query/zedtokens.go, Query/Listings the lists of roles and relationships,
--   Query/RoleBindings and Query/BindingLists internal/query/rolebindings.go, and Query/RolesV2 with
--   Query/RolesV2/Relations internal/query/roles_v2.go.
--   The proofs are the other files of Query/RolesV2, and Query/Names, Query/Rollback,
--   Query/Permission, Query/Steps, Query/Transactions, Query/Deletion, Query/Requests, Query/Tokens,
--   Query/Caches, Query/Inversion, Query/Reads and Query/BindingFilters.
-- - Api: internal/api. Api/Http has what the handlers share, Api/RolesV2, Api/RoleBindings,
--   Api/Roles, Api/Assignments and Api/Relationships the handlers of the files of these names,
--   Api/Checks those of internal/api/permissions.go, and Api/Pool the workers of checkAllActions as
--   a step relation, with its proofs in Api/Pool/Invariant, Api/Pool/Status, Api/Pool/Safety and
--   Api/Pool/Progress. Api/Mediation, Api/Targets and the three Mediated files are about the
--   permission that a handler checks.
-- - Pubsub: internal/pubsub/subscriber.go, with its proofs in Pubsub/Answers, Pubsub/Replies and
--   Pubsub/Settling.
-- - Hosts: pkg/permissions/internal/selecthost, how the client finds the servers, checks them and
--   chooses one. Hosts.antt has hosts, their order and their checks (host.go and helpers.go),
--   Hosts/Selector the choice and the checks of all hosts (selector.go), Hosts/Discovery the
--   configuration and diffHosts, and Hosts/Transport http.go. The proofs are Hosts/Order,
--   Hosts/Choice, Hosts/Checks, Hosts/Found, Hosts/Removal and Hosts/Failover.
-- - Client: the rest of pkg/permissions, the middleware, the checkers and the requests for
--   relationships, with its proofs in Client/Allowed, which joins it to Api/Pool, and
--   Client/Submitted.
-- - Tests: small inputs, runs and the theorems at these inputs.
--
-- How the code is modelled: a function of the source has its name in snake_case. A function that
-- returns an error returns an Option of its sentinel, or an Outcome, which is a result, an error or
-- a panic. An operation of the engine maps a state, the world and a log, to an Outcome and a state.
-- The log records what the operation has asked for: the transaction begun, committed or rolled
-- back, and what was written to and deleted from SpiceDB. Pointers to empty structs are Booleans.
-- A handler answers a status with a body, the status of an error, or a panic. The goroutines of
-- checkAllActions are a step relation: a step is taken by any of the workers, by the collector of
-- the results, or by the clock. A host of the client, which several fields of the selector may point
-- to, is an address in a heap that a selector carries.
--
-- Parameters: Backend, what the database behind internal/storage, SpiceDB and gidx answer, as
-- functions of the arguments and of a world that any call may change; the prefixes that gidx
-- accepts; Runtime; what the web framework gives for a request (its parameters, its actor, its
-- body), TrimSpace of the standard library, and a message of the events package with the errors
-- that its methods give; for the client, the readings of the clock, the answers of the network, the
-- functions of strings, strconv and net that it calls (Texts), and sort.Sort as a function that gives
-- some permutation. Query/Rollback takes the store of SpiceDB as a parameter, with the documented
-- effect of an update as its one law. All loops are structural recursion on a list, or on the number
-- of runs of a check, so no fuel is needed. Times and durations are natural numbers without a bound.
--
-- Not modelled: logging, tracing and the texts of errors; opening and decoding files; the SQL of
-- internal/storage; the template of internal/spicedbx; the routes, the middleware and the answers
-- of bulkCheckActions of internal/api; the timers, quick starts and HTTP clients of pkg/permissions;
-- commands, configuration and test helpers.
pub mod Base
pub mod Dict
pub mod Hosts
pub mod Client
pub mod Types
pub mod Iapl
pub mod Query
pub mod Api
pub mod Pubsub
pub mod Tests
