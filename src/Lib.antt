-- ===== src/Lib.antt =====
-- Quiver's core: a daemon that installs, runs, updates and removes arrows (programs that a manifest
-- describes), and keeps what it knows of each as an event-sourced aggregate.
--
-- Parts, and the files that model them:
-- - Domain, for internal/domain: the states of an arrow (Domain/ArrowState), the steps of a method with
--   their overrides for a platform (Domain/Step), the record of an execution (Domain/Execution), the
--   parts of a namespace (Domain/Identity), the apps of an install (Domain/Portable), selectors and refs
--   (Domain/Selector) and requirements (Domain/Requirement).
-- - Ruleset, for internal/engine/manifold/ruleset: the rule on the states that a manifest may name.
-- - Runtime, for internal/app/repositories/runtime/internal/commands: each command of the runtime
--   aggregate is a module of Runtime/Commands with `validate` and `emit`, as Validate and EmitEvent;
--   Runtime/Command puts them together; Runtime/History is about sequences of accepted commands, and
--   Runtime/Recovery is the recovery of runs at a start (internal/app/repositories/runtime/internal).
-- - Deptree, for internal/engine/deptree: the depth-first search that orders the dependencies of an
--   arrow for its installation. Deptree/Graph says what an order and a cycle are without a search.
-- - Logring, for internal/core/logring: the ring of the latest log records, its replay and its live
--   streams. Logring/Delivery is about any sequence of events at a ring.
-- - Vault, for internal/engine/vault/pathsafe.go: the name on disk of an arrow's identity (Vault/Escape,
--   Vault/Dirs), and the way back.
-- - Netbridge, for internal/engine/netbridge and internal/domain/netbridge: the search for a free port
--   (Netbridge/Search), and the service that allocates and releases ports (Netbridge/Service).
-- - Versioning, for internal/engine/manifold/versioning and internal/engine/manifold/resolver/resolvers:
--   the patterns of a tag (Versioning/Pattern, Versioning/Number), its channel among others
--   (Versioning/Classify), the order of a channel and of a constraint (Versioning/Ranking), the listed
--   channels (Versioning/Channels), what a selector follows (Versioning/Selector), whether a row is
--   behind it (Versioning/Drift), what it may be declared at (Versioning/Admit), and the cache of refs
--   (Versioning/Snapshot).
-- - Auth, for internal/domain/auth, internal/app/repositories/pairingcode and device, the use case
--   internal/app/usecases/auth.go and internal/api/middleware/ratelimit.go: codes (Auth/Code), devices
--   (Auth/Device), the exchange of a code for a token (Auth/Redeem) and the limit of attempts
--   (Auth/Limiter).
-- - Prelude: names of the libraries, tests, lists over native numbers, strings, integers, maps.
--
-- The parts meet in the runtime aggregate: a resolved order decides which arrows are installed first,
-- each installation is a sequence of commands at one aggregate, and what happens is logged.
--
-- Correspondence. A Go struct is a record with the fields under their own names, a pointer that may be
-- nil an Option, a string type with constants a data type or a list of bytes (Str), an error an Option
-- or a constructor. A method that changes its receiver returns the changed one. The event store
-- (asynx, third-party) is its contract: a command gets the current aggregate or nil, and what it emits
-- is stored when it validates (`Accepts`). A Go channel is the list of what was sent and not yet
-- received, with whether it is closed; a mutex makes each method one step, so a run is any sequence
-- of steps. Callbacks of a caller are parameters, and so is path.Match of Go's standard library. Cases
-- of letters are folded in ASCII. A sort by a total order is an insertion sort, since a list has one
-- sorted order. A regular expression is the list of its ways to match, in the order of its choices.
--
-- Bounds. Sequence numbers of the ring are those of a uint64, with its wrap-around. The search recurses
-- on fuel, and `starved` is the end of it; each call below another has marked one more arrow, so fuel
-- for one more call than there are reachable arrows is enough. Loops over lists and ranges are structural.
--
-- Not modelled: input and output (processes, files, network, the terminal), encodings (YAML, JSON,
-- SQL), third-party libraries, the texts of errors, times and durations where nothing depends on them.
pub mod Prelude
pub mod Domain
pub mod Ruleset
pub mod Deptree
pub mod Logring
pub mod Runtime
pub mod Vault
pub mod Versioning
pub mod Auth
pub mod Netbridge
