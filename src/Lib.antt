-- ===== src/Lib.antt =====
-- The gno.land block indexer: three programs that share one PostgreSQL database and one message
-- broker. The block synchronizer polls a GraphQL server for blocks and subscribes to new ones, and
-- publishes each block with its transactions. The event processor takes these messages from a queue,
-- stores them and keeps the balances of the token accounts. The REST interface answers queries for
-- balances and transfers, through a local cache.
--
-- Which module models which part, with paths from the repository's root:
--   Model: model/model.go and the message of externals/msgbroker/msgbroker.go.
--   Ent: the client in ent/. Error has its error values, Tables the rows and the keys of
--     ent/schema/ and ent/migrate/schema.go, Client what a builder's Save does with the row. Mutation,
--     Create and Update are the generated mutations and builders themselves, one child for each entity
--     of ent/mutation.go and the files named after it. Database is the interface to the server behind
--     the client: its statements and queries, and the laws IsLawful that they obey; Groups is what a
--     grouped sum may answer, in whatever order the server adds. Memory has two databases that obey
--     the laws. Action is a call on the database that
--     may return an error, Post its postconditions, Balances the balance of an address in a table,
--     Accounts the tables of accounts up to the order of their rows, a quotient, WellFormed the
--     invariant of the tables.
--   Repository: repository/repository_ent.go, one child for each kind of row, Convert for the JSON
--     columns and Builders for the builders that the operations chain together. Laws beside an operation
--     say what it does to the tables.
--   EventProcessor: cmd/event-processor/service/service.go. Attributes is the loop over an event's
--     attributes, Handlers the mint, burn and transfer handlers, Process the rest up to
--     ProcessBlockWithTransactions, Queue the handler behind the broker, Delivery the way of a message
--     from the synchronizer's broker to this queue. Ledger is the abstract specification: a function from
--     address and token to a balance, with no tables and no errors.
--     Statements is the same code as programs that run one statement at a time (Ent.Program), and
--     Workers runs five of them on one database behind the channel of SubscribeAndHandle; Others is
--     what other workers may do between two statements of one. Begun reads off a
--     sequence of moves whose processing begins. ReadBack takes the processing and
--     GetBalances together. Success has the conditions on a block and the accounts under which nothing can go wrong.
--   BlockSynchronizer: cmd/block-synchronizer/service/service.go and repository/repository_ent.go
--     beside it. Poll is PollBlocks and PollTransactions, History the restoring history, Restore
--     RestoreMissingBlockAndTransactions and processBlockWithTransactions, Session and Subscribe
--     SubscribeLastestBlock, Push SubscribeAndPush with its workers, Highest GetHighestBlock.
--   Broker: externals/msgbroker/msgbroker_localstack.go over the AWS services of Aws. Service has what
--     is relied on of SNS and SQS, Local services that satisfy it.
--   Rest: controller/controller.go and service/service.go of cmd/indexer-rest.
--   Startup: NewService of the synchronizer and of the event processor and NewRepositoryEnt, with the
--     configurations of the controllers.
--   Text and Float64: what the code uses of strings, strconv and float64.
--   Prelude: the names and lemmas that all modules share. Tests: the development at concrete inputs.
--
-- How the state is modelled. A call on the database takes its state and returns a result or an error
-- and the new state; what was written before an error stays written, since the code opens no
-- transaction. The loop over websocket messages, the pollers and the channel with its workers are step
-- functions, run over a sequence of the rounds or moves that happen; every statement over all such
-- sequences is one over all interleavings. The broker's methods hold its lock, so each is one step.
-- Errors keep the kind that the code tests for: Errorf prints its cause, so the kind is lost.
--
-- Numbers. Go's int and int64 are integers, with the wrap-around written out where the code adds or
-- negates. An amount is a float64; the amounts that the code computes are sums of converted integers,
-- so a float64 is modelled by an integer, rounded to 53 bits, half to even.
--
-- Bounds and fuel. The restore's loop takes fuel, and no result stands for fuel that ran out; a
-- theorem below says how much is enough. The printing of a number takes the number's successor as
-- fuel, more than it has digits. All other loops recur on the list that they go through. The channels
-- hold 1000 and 100 blocks and a window has 100 heights, as in the code.
--
-- What is a parameter: the database server, the GraphQL server, the AWS services, the parser of times,
-- the encoder and decoder of JSON, the router and the renderer of the web framework, the cache. What a
-- theorem needs of them is a named hypothesis: IsLawful and IsReliable of a database, HonoursBlocks
-- and HonoursTransactions of a GraphQL server, Delivers of a bus, Service of the AWS services,
-- Remembers of a cache. Of a query without ORDER BY, IsLawful fixes the order of the rows, that in
-- which they were written, which PostgreSQL leaves open. Service says of SNS and SQS that an accepted
-- message is delivered at least once, in no fixed order.
--
-- What is not modelled: the goroutines that the controllers start, logging, the SQL, the generated
-- query builders, hooks, edges and deletions of ent/, which the program does not call or which only
-- write SQL, the metrics of the subscription, the close of a channel that the subscription still writes
-- to, and the broker's Close, which only waits.
pub mod Prelude
pub mod Text
pub mod Float64
pub mod Model
pub mod Ent
pub mod Repository
pub mod EventProcessor
pub mod BlockSynchronizer
pub mod Broker
pub mod Rest
pub mod Startup
pub mod Tests
