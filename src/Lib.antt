-- ===== src/Lib.antt =====
-- Clash of Tokens: a gateway that sends each request to one of many sources of language models,
-- and holds every source, quota domain, account and itself within its limits.
--
-- The part modelled here is the router of internal/routing with what it reads, and its neighbours:
-- the versioned configuration, the retries, uploads, streams and management jobs of the server, the
-- protocol's requests, events and results, the credential vault, and the evidence store.
--
-- * Config and its children are internal/config: the records of config.go and accounts.go with the
--   fields that they have there, Tier, the metadata of a source and its checks (metadata.go), the
--   prices of a model (pricing.go), the browsers of browser_profiles.go (Profiles), ValidateAccounts
--   and the bindings of accounts.go (Accounts), and Validate of config.go (Validate, with the loops
--   over sources and groups in Validate.Sources and Validate.Groups). Config.Registry is what
--   Validate reads of internal/providerdef/registry.go. Each check is a list of guards in the code's
--   order; a loop carries the maps that the code fills as lists. What Go's net, net/url and
--   path/filepath answer is the record Net, a parameter; a text's length is counted in bytes of its
--   UTF-8. The configuration is data: the router only reads it.
-- * Config.Service is the versioned configuration of internal/config/service.go: Preview, Apply and
--   Rollback, and what readJournal asks of a journal. JSON and the file system are the record Host.
-- * Protocol.Result is the result of an execution of internal/protocol (execution.go), and
--   redaction.go.
-- * Protocol.Inspect is Inspect and Rewrite of internal/protocol/request.go, over Protocol.Scan, which
--   finds where a part of a JSON text ends, and Protocol.Request, which reads keys, numbers and
--   images.
-- * Protocol.Sse is sse.go: the reader of events over bytes that may be cut anywhere (Sse.Split says
--   byte by byte where an event ends), and SSEData. Protocol.Usage and Protocol.Observer are the
--   CompletionObserver of execution.go. What encoding/json makes of bytes is the record Json.
-- * Routing.Types has the records of router.go. Pointers are addresses: a System is the heap of the
--   process, with the states and quotas that routers share (accounts are quotas), the routers and
--   the shared capacity. A new router (Adopt) may stand beside an old one, and both may hold the
--   same state object.
-- * Routing.Compile is New. Its heap grows by fresh addresses (Routing.Compile.Apart).
-- * Routing.Eligible, Preferences, Pools and Choose are eligible, comparePreferences,
--   poolPreferences and choose, pure functions of the heap and the time. Early returns are lists of
--   guards, of which the first that holds is the reason. The loop of choose is structural on the
--   candidates in the order of its position.
-- * Routing.Queue and Acquire are the waiters, signal, turn and Acquire. Acquire holds the lock
--   but where it waits, so that one round of its loop is a step, `attempt`, and a return after
--   queueing another, `leave`; a history of the process is any sequence of such steps, of
--   results recorded, releases, switches and adoptions (Routing.Traces).
-- * Routing.Events and Release are recordEvent with its ring of events, and Release; Routing.Output
--   is RecordExecution and FirstOutput.
-- * Routing.Adopt is Adopt, and SetEnabled; Routing.Explain is Explain, Simulate and the health of
--   Status.
-- * Api.Attempts is internal/api/attempts.go: the limit of attempts and the end of each round of
--   acquireResponse, which is a step like those of Acquire.
-- * Api.Stream is streamResponse of internal/api/stream.go: it reads events, observes each and relays
--   it; the client's answers are an input of each round. Api.Ingress and Api.Budget are, of
--   server.go, readIngressBody for a chunked upload, and the bytes and places that generate reserves
--   and gives back, with the requests in any order beside one another.
-- * Api.Jobs is jobs.go: the list of management jobs, with each function under its lock a step; and
--   Api.Operations has the paths, the resources and the commit of an operation.
-- * Credentials is the vault of internal/credentials: the records (store.go), and the document of the
--   accounts (accounts.go). Credentials.Vault and Credentials.Owners are the calls on it,
--   Credentials.Refresh both parts of refreshOAuth (oauth.go), Credentials.Grants and
--   Credentials.Inputs the checks of oauth.go and external.go, and Credentials.History what any
--   sequence of calls does. What the platform does with a save is the parameter Disk.
-- * Evidence is Append of internal/evidence/store.go, with JSON and the file system as the record
--   Disk.
--
-- Loops are structural recursion, but for seven that take fuel. The reader of events reads a byte in
-- each round but the last, and the stream an event of a byte at least, so that the bytes there are,
-- and one, are enough for each; SSEData takes a byte at least with each line; a chunked upload ends
-- after at most 100 reads for each byte of its limit, and 101; and in the three loops of request.go
-- each round goes on by a byte at least, so that one more than the bytes there are is enough. Their
-- theorems show that they return, or for SSEData what it returns. Numbers: a Go int is an integer of
-- Base.Int where its sign is read, and a natural number where it counts; uint64 and int counters
-- that may wrap (the cursor, the sequence numbers, completions and failures) keep the wrap; a count
-- of slots in use is a natural number, whose subtraction stops at 0. Times are nanoseconds; `clock`
-- numbers the readings of the time within a step. A float64 is a type F with the operations of the
-- instance Float64, of which a theorem that needs order asks StrictOrder (true of IEEE numbers where
-- no operand is NaN as its fields say); the tests use thousandths. SHA-256 is a parameter
-- (crypto/sha256 is Go's own), and so are the contexts, as the predicate `canceled`. A map is an
-- association list: Go iterates over maps in no fixed order, and the loops over maps modelled here
-- do not depend on it, but for which error a vault's document meets first. The wait between two
-- rounds, 250 ms or a token, is not modelled: a round may come at any time.
--
-- Not modelled: the providers, drivers and browser automation (each a client of a remote service),
-- the other HTTP handlers and the control plane of internal/api, the opening and the encryption of
-- the vault, and the commands. Of streams and uploads the deadlines of reads and writes are left out.
pub mod Base
pub mod Config
pub mod Protocol
pub mod Routing
pub mod Api
pub mod Evidence
pub mod Credentials
mod Tests
