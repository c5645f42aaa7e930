-- ===== src/Lib.antt =====
-- A document-processing pipeline: documents are submitted over HTTP, an extractor finds the
-- entities of a document, a classifier gives each of them a category, and Postgres holds the
-- documents, their tokens and an outbox of messages, which a relay publishes to Redis streams.
--
-- The parts, and where they are modelled:
--   Config: internal/config/config.go, Load.
--   Domain, Domain.Labels, Domain.Durations: internal/domain/domain.go, the structs, the string
--     enumerations with Valid, and Document.Durations.
--   Json: the values of encoding/json that the jobs use.
--   Store: internal/store. The tables are one state Db; Store.Tx has the transactions of store.go
--     (WithinTx), Store.Documents the statements of documents.go and store.go, Store.Tokens and
--     Store.Query those of tokens.go, Store.Real the rounding of a confidence to its REAL column,
--     Store.Outbox those of outbox.go, Store.Sha256 HashText.
--     Store.Robust shows what a lost connection does to a transaction.
--   Queue: internal/queue/queue.go, the stream names and messages; Queue.Consumer the loop of
--     internal/queue/redis.go, with ensureGroup before it, and Publish.
--   Pipeline.Jobs, Pipeline.Extraction, Pipeline.Classification: internal/pipeline, the jobs.go,
--     extractor.go and classifier.go of it: handle, Process, and the transactions claim, persist
--     and apply. Pipeline.Runner: runner.go, the consumers of a worker.
--   Service: internal/service/document.go, Submit; Status and Tokens are in Api, beside the handlers.
--   Api, Api.Requests: internal/api, the handlers of server.go and the shapes of dto.go and helpers.go;
--     Api.Routes the patterns of Handler, the access log and the health check (Health of
--     internal/service/document.go).
--   Strings: what is used of Go's strings, strconv and unicode/utf8.
--   Nlp: internal/nlp/mock.go, the sentences (Nlp.Sentences), the word lists (Nlp.Words) and the rules.
--   Llm: internal/llm, the rules of mock.go; of ollama.go Llm.Retry has doWithRetry, Llm.Reading the
--     decoding of a reply, Llm.Ollama the requests, do and Classify.
--   Relay: internal/outbox/relay.go, drainBatch and drainAll; World.Relaying its Run.
--   Bootstrap: internal/app/app.go, retry, NewStore, NewBroker and NewClassifier; Bootstrap.Migrations
--     Migrate of internal/store/store.go; Bootstrap.Commands the main functions of cmd/api,
--     cmd/classifier and cmd/extractor.
--   System, Coverage: the invariants of the tables and of the outbox.
--   World: the parts together: any list of the transactions above, each at any input. World.Stream
--     adds the deliveries and acknowledgements of the broker, World.Completion the deliveries of one
--     document, World.Lifecycle an abstract machine of the manifests,
--     World.Traced where the stored answers come from.
--   Tests: concrete inputs.
--
-- How the code is read. A Go string is a list of bytes, a time a number of nanoseconds, a float64
-- that is only passed on its bit pattern. A table is in the order of its ids. Each SQL statement is
-- one function on the tables, and a transaction is a chain of them over a connection that may fail
-- at any statement (link counts the statements until it does); WithinTx commits, or leaves the
-- tables as they were. Row locks make a transaction atomic, so an interleaving of the API, the
-- workers and the relay is a list of transactions; a worker's two transactions are two events, and
-- the second takes any snapshot that the first may have returned. A message may be delivered late,
-- twice, or for a superseded run. What a relay has published stays published when its transaction
-- rolls back, so a drain returns the log of what it published. drainAll runs on fuel: a round that
-- goes on has published a full batch, so one round more than the outbox has rows is enough.
--
-- The automaton of Nlp.Sentences reads the pattern that ends sentences. Llm.Retry counts the attempts
-- that are left, and gives each attempt what it meets; the backoff wraps as its int64 does. Numbers of
-- an HTTP answer that are rounded floats appear as what they are computed from, and a mock's
-- confidence as hundredths.
--
-- A tick of the relay runs drainAll on such fuel, and any events may happen before it. In World.Stream
-- the rows that the relay has published stand in one list until they are acknowledged, and the read and
-- the write of a worker are two events, so that anything may happen between them.
--
-- A consumer runs for any number of rounds, the commands of Redis are an interface on a state, and
-- what they do to the pending list is a hypothesis (KeepsPending).
--
-- Parameters: the extractor and the classifier of a stage, the broker that the relay publishes to,
-- what other workers do between the two transactions of a worker, and the rows that another relay
-- has locked; the patterns of the rules, strings.ToUpper, time.ParseDuration, the %q of fmt, the lexing
-- of JSON and the replies of the model's server; what Postgres and Redis answer at the start,
-- whether the relay's goroutine panics before main returns, the files
-- of the embedded directory, and what a server or worker returns; the Wait of errgroup, which answers
-- nil or the error of a goroutine (Waits).
--
-- Not modelled: Postgres, Redis and pgx themselves, the SQL of the migrations, overflow of INTEGER
-- columns (a page filter beyond int4 is refused by pgx), a commit whose acknowledgement is lost (the
-- caller then sees an error though the tables changed), the gaps that rolled-back transactions leave
-- in serial ids, deadlocks, log lines but those of the access log, net/http and its path cleaning, and
-- the goroutine of cmd/api that shuts the server down.
pub mod Prelude
pub mod Strings
pub mod Json
pub mod Config
pub mod Domain
pub mod Store
pub mod Queue
pub mod Pipeline
pub mod Service
pub mod Api
pub mod Bootstrap
pub mod Nlp
pub mod Llm
pub mod System
pub mod Relay
pub mod Coverage
pub mod World
pub mod Tests
