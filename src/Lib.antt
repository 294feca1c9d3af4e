-- ===== src/Lib.antt =====
-- A service for posts and threads of comments under them, with a GraphQL interface, two backends for
-- storage and two for events. This library models its core: the domain, the services, the backends that
-- keep everything in memory, the limits and the loaders of the GraphQL interface, and the container that
-- puts the parts together.
--
-- The parts, and the files that model them:
-- - Prelude.antt (Prelude/Tests, Prelude/Lists, Prelude/Int): numbers, lists, options and Boolean tests,
--   with the lemmas that the parts share.
-- - Go.antt: what the program uses of Go and its standard library. Go/Text: strings as lists of bytes,
--   with strings.TrimSpace (Go/Text/Space) and utf8.RuneCountInString (Go/Text/Runes). Go/Time:
--   time.Time as an instant and a location. Go/Base64: the raw URL encoding, with padding left out.
--   Go/Map: maps as lists of entries, in the order in which `range` meets them. Go/Sort: sort.Slice as an
--   insertion sort; any sort gives the same result on what is sorted here, as Go/Sort/Unique shows.
-- - Domain.antt: internal/domain. Domain/Errors is errors.go, Domain/Ids ids.go, Domain/Pagination
--   pagination.go, Domain/Post post.go and Domain/Comment comment.go. NewComment is `new_comment`, and so
--   for the other names. Go's pair of a value and an error is `Result`.
-- - Memory.antt: internal/adapters/storage/memory. Memory/Store is store.go, Memory/Posts
--   post_repository.go and Memory/Comments comment_repository.go; Memory/Paginate is the sort and the page
--   loop that both contain, Memory/Groups the loops of the Batch methods. A method takes the store, and
--   gives its result with the store that it leaves, if it writes. Each method holds the store's lock from
--   beginning to end, so it is one step.
-- - Application.antt: internal/application. Application/Services is services.go, with the interfaces as
--   records of operations on a world; Application/Posts is posts.go, Application/Comments comments.go.
--   Application/Tx is txctx/after_commit.go with the TxManager of the memory backend
--   (internal/adapters/storage/memory/tx_manager.go); what runs in a transaction is a monad over a
--   context that holds the world and the registry of actions. Application/InMemory wires the services to
--   the memory backend; its world also holds the sources of identifiers and of times and the state of
--   whatever takes the events.
-- - Events.antt: internal/adapters/events/memory/bus.go. A subscriber is the address of its channel
--   (Go/Channel); a panic is `none`. The methods hold the bus's lock, but PublishCommentAdded sends after
--   it has released the lock, so it is the two steps `targets` and `deliver`. Events/Consistent,
--   Events/Removal, Events/Delivery, Events/Calls and Events/Closing are its theorems.
-- - Postgres.antt: internal/adapters/storage/postgres and internal/adapters/events/postgres. Postgres/Sql
--   is the statements as data: the conditions, the column and the limit of each query, in place of its
--   text, with the answer that SQL gives on tables. Postgres/Database is pgx: the record `Database` is what
--   is called, `IsSql` what is relied on. Postgres/Posts is post_repository.go, Postgres/Comments
--   comment_repository.go with helpers.go; a method takes the transaction of its context. Postgres/Tx is
--   tx_manager.go and context.go, where a session is the world with the transaction that the context
--   carries, and wires the services to these repositories. The theorems compare each method with that of
--   the memory backend on the store that the tables hold (Postgres/View): Posts/Reads, Posts/Writes,
--   Comments/Single, Comments/Ranked, Comments/Batched and Comments/Counts; Postgres/Rows, Pages,
--   Ranking, Counting and Replies carry them. Tx/Rollback, Tx/Ended and Tx/Atomic are about
--   transactions that fail. Postgres/Bus is events/postgres/bus.go, with the subscribers and channels of
--   Events: dispatch takes what other goroutines do on the bus before each of its sends, and the loop of
--   the listener what they do while it waits. Bus/Dispatch, Bus/Listening and Bus/Closing are its theorems.
-- - Graphql.antt: internal/adapters/graphql. Graphql/Guards is guards.go: selections are a mutual data type,
--   the recursion through fragments is on fuel, and the visited names are a list. Graphql/Guards/Fuel shows
--   that the fuel suffices, Depth and Longest what the depth is, First what is asked for, Accepted what is
--   let through. Graphql/Mappers is mappers.go, with the models of graph/model; Graphql/Loaders is
--   loaders.go: a batch function takes the order in which `range` hands out its groups, and the results are
--   a list of entries that are filled or nil. Loaders/Agrees compares a batch with single calls, for any
--   service whose batched calls do what its single calls do, as the one over the memory backend does
--   (Loaders/InMemory). Graphql/Presenter is errors.go, Graphql/Request actor.go and request_state.go, and
--   Graphql/Resolvers schema.resolvers.go with helpers.go: a resolver takes a request, which is the world
--   and what the context holds, and gives its result and the request that it leaves. The goroutine of the
--   subscription (Graphql/Resolvers/Subscription) is a function of what it meets in its selects.
-- - Di.antt: internal/di. Di/Init is NewContainer, Di/Build is Build with its steps, Di/Lifecycle is
--   Close and Shutdown, all of container.go; the errors of errors.go stand in Di. What the container
--   asks of the process is the record `Platform`. Build may panic: httpserver.New registers patterns on
--   the multiplexer of net/http, and what that takes is a field of `Platform`. Di/Build/Steps, Wired,
--   Backends and Started are about what is built, Di/Lifecycle/Closing about the order of closing.
-- - Config.antt: internal/config/config.go. Config/Usable says what Validate accepts, Config/Load is Load
--   with the readers of environment variables. `IsUsable` is stated with equations and bounds, without the
--   tests of Validate.
-- - Examples.antt: the theorems at concrete values.
--
-- Bounds and fuel. LimitPlusOne wraps at 64 bits; `IsSmall` says that a page size and one more fit a
-- signed int of 64 bits, which is wider than the Int of GraphQL. The client that follows cursors
-- (Memory/Paginate/Walk) makes at most `fuel` requests, and more requests than there are items suffice.
-- The guards enter fragments with as much fuel as there are fragment names, since a name is entered only
-- while it is not visited. rune_count and trim_space run on the length of their text, and Go/Text/Runes
-- shows that this suffices.
--
-- What is taken as given, with the documented behaviour as fields: github.com/google/uuid (`UuidText`)
-- and encoding/json at the types Cursor (`CursorJson`) and payload (`PayloadJson`); PostgreSQL under
-- pgx, with one client at a time (`IsSql`), where a time loses what a timestamptz does not keep,
-- identifiers are primary keys and the groups of `group by` come in any order; that BeginTx opens a
-- transaction and that Commit and Rollback end it (`IsTracked`); that the texts of
-- identifiers are ordered as their bytes (`OrdersTexts`), where the two backends are compared; and,
-- without any assumption, the environment variables, their parsers and the command line
-- (`Environment`), strconv.Atoi and a document's fragments (`Fragments`, which finds definitions only
-- under names that it lists), what the container calls (`Platform`) and the loaders of a request
-- (`RequestLoaders`). The theorems on histories of requests start from a source of identifiers that
-- repeats none, as the random UUIDs are used by the program.
--
-- Not modelled: the server set-up of the GraphQL layer; the library dataloader, which collects keys
-- and caches results around the batch functions; formatSQL and the text of the statements; two clients
-- of the database at once; the handlers of the HTTP server, and logging, which are input and output or
-- are built on code outside the repository; generated code; a panic of make for a page size that
-- memory cannot hold; contexts that are cancelled, but for the subscription; and the interleaving of
-- two requests between their calls of the repositories.
mod Prelude
pub mod Go
pub mod Domain
pub mod Memory
pub mod Postgres
pub mod Application
pub mod Events
pub mod Config
pub mod Graphql
pub mod Di
mod Examples
