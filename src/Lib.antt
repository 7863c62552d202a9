-- ===== src/Lib.antt =====
-- Reelm, a proxy that records the answers of language-model providers as cassettes and replays
-- them. The model follows the Go packages; each file below opens with the code that it is about.
--
-- * Store (pkg/store): Cassette holds the recorded data, Serializer the choice of an encoding,
--   Index the bolt database from hashes to paths and from namespaces to hashes, DiskStore the files
--   with the index (Save, LoadByHash, LoadByNamespace, Delete, List, Prune, RebuildIndex,
--   NewDiskStore). Interface is the Store that the proxy takes; DiskStore.Implements fills it.
-- * Streaming (pkg/streaming): Recorder is PipeAndRecord, which passes an event stream on and cuts
--   it into chunks; Replayer is Replay, which sends the chunks again.
-- * Hasher (pkg/hasher): the canonical request, its normal form and its hash.
-- * Providers (pkg/hasher/providers): Registry says which provider a request is for; OpenAi, Azure,
--   Anthropic and Gemini make the canonical request of a body; Shared is what they have in common.
-- * Config (pkg/config): the configuration, its defaults, Load, and what Validate accepts.
-- * Proxy (pkg/proxy): Handler is ServeHTTP in the modes record, replay and auto, with Forward and
--   Upstream for what it sends on; Middleware is pkg/proxy/middleware.go. Tls is pkg/proxy/tls.go: Ca
--   the CA and the certificates of hosts, Ca.Threads the concurrent calls of its cache, Conn the
--   writer over a connection, Connect HandleConnect. Server is NewServer with NewHandler, Start and
--   Shutdown.
-- * Command (cmd/reelm/main.go): runServe up to the start of the server; Lifecycle is the rest of
--   it, in which the server's goroutine and the signals interleave with it. Telemetry
--   (pkg/telemetry): what the settings choose for the logs.
-- * Testutil (internal/testutil/mock_upstream.go): the handlers of the mock upstream, and its counter.
-- * Http and Base: what the code uses of net/http, and of Go's strings and lists.
--
-- The proxy finds the provider of a request, has it canonicalized and hashed, and then serves the
-- cassette of that hash from the store, or sends the request upstream, passes the answer on (through
-- the recorder, if it is an event stream) and saves it. A cassette is replayed through the replayer.
--
-- Texts are lists of code points, and bodies the texts that their UTF-8 holds: what is no UTF-8 is
-- left out, and where the code counts bytes, as for the first two of a hash, the model counts code
-- points, which are the same in ASCII, hence in a hexadecimal hash. Times are nanoseconds as natural numbers, durations integers of
-- them without the bound of 64 bits. State is passed explicitly: a World of the handler is the
-- store, the requests with which httpClient.Do was called (those that it sends of itself, to follow
-- a redirect or to try again, are the HTTP client's) and the client's writer, whose trace lists the writes, the
-- flushes and the sleeps in order. An upstream body is a text and the way it ends; ReadBytes is
-- modelled by the lines of that text. Every loop is structural, but for the decimal digits of a
-- number (Base.Strings), which have the number and one for fuel, more of which would not change them,
-- and Streaming.Recorder.Loop, the loop of PipeAndRecord as it is written, which has for fuel one
-- round more than the body has bytes: each round but the last takes a byte or more.
--
-- Parameters stand for code that is not of the repository: bbolt and the encodings (Backend, with
-- IsLawful for what they document), the system calls that fail and what a failed write leaves
-- (Disk), the clock, the HTTP client,
-- url parsing and fmt's quoting (Outside), viper (Viper, with the variables of the environment), SHA-256 and encoding/json in Hash. A map of
-- Go is an association list, so its order of iteration is the list's.
--
-- The keys and certificates of crypto/x509 are the record Crypto, whose randomness is drawn by
-- number. A client that opens a tunnel is the record Client: its TLS hello, whether the handshake
-- succeeds, and the requests that http.ReadRequest returns until its first error, whatever bytes it
-- takes for them; the loop of HandleConnect is a recursion on them. A CONNECT inside a tunnel is refused, for the writer of a tunnel cannot be
-- taken over, so HandleConnect does not call itself without end.
--
-- Not modelled: the commands and flags of cobra, the listening and the timeouts of the server,
-- logging, locks, and the start and stop of the mock upstream's server. The closing of the database
-- is counted in Command.Lifecycle; what bbolt does then is its own. A call of a store is one step:
-- two calls do not interleave. The connection of a tunnel takes every write.
pub mod Base
pub mod Http
pub mod Store
pub mod Streaming
pub mod Hasher
pub mod Providers
pub mod Config
pub mod Proxy
pub mod Telemetry
pub mod Command
pub mod Testutil
