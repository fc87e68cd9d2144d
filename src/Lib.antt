-- ===== src/Lib.antt =====
-- fq-client-go: a Go client of the FQ server, which counts, limits rates and hands out quotas.
-- A caller holds a `Client` (client.go), which has a pool of connections (conn_pool.go). A method
-- writes its command as text, takes a connection out of the pool, sends the command as one frame and
-- reads the response (tcp_client.go), reconnects when the server had closed the connection, parses the
-- response (response.go) and gives the connection back.
--
-- Files:
--   Common and below: numbers, lists and tests; texts are lists of byte values.
--   Errors: the sentinels, wrapped errors and `errors.Is`; results.
--   Text, Decimal: what the code uses of the packages bytes, strings and strconv.
--   Types: the structs of client.go.
--   Response and below: response.go. `parse_frame` is the frame that all parsers share; Readers has
--     one reader for each parser, with their names; Protocol has the error codes; Replies has all
--     answers of the server in one type; Spelled says, without the readers, what the fields of a frame
--     stand for.
--   Command and below: the `write...Command` functions of client.go and inspect.go. Request is the
--     abstract command; Grammar is the grammar of the server, as an independent reader, and Decode reads
--     back what the writers write.
--   Exec, Net: a step is a function from a state to a result and a state. The peer, the dials, the
--     clock and `ctx.Err()` answer from scripts, over which every theorem quantifies: `Wire` has the
--     bytes that will arrive, the error behind them, the answers of `Write` and of `SetDeadline`.
--   Tcp and below: tcp_client.go. Tcp has frames and `Send`, Connect the handshake and `Reconnect`,
--     Chunked `SendChunked`, Stream `Stream`, Retry `sendWithReconnect` and its copy in inspect.go.
--   Buffers: bytes_pool.go and bytes_buffer_pool.go. Tcp/Pooled has `Send`, `SendChunked` and `Stream`
--     again, with the pooled buffer that the response is read into.
--   Options: options.go, over the files, certificates and key pairs that the system answers with.
--   Pool and below: conn_pool.go and `NewTCPClient`. Sharing has the calls one after another, each
--     ended before the next begins; Races has the atomic parts of the calls, in any order.
--   Client and below: client.go and `Inspect` of inspect.go; Streams has the event streams, Methods the
--     methods that one frame answers, in one type.
--   Sharded and below: sharded_client.go. Cursor has the scan over the shards, MDel the grouping of `MDel`,
--     whose map may be ranged over in any order, Methods the methods over those of a shard, Open
--     `NewSharded`, `Close` and `Shard`, Served the methods by key over those of a client. Events is
--     `streamEvents` with its goroutines, channel and contexts as a step relation; Streams has the four
--     methods that stream, each over the method of a client, which is run with a function that replays
--     the answers of the caller's function.
--   Examples: the theorems at concrete inputs.
--
-- Bounds: integers are natural numbers; a parser checks the width where strconv does, and a
-- conversion to uint32 keeps `% 2 ^ 32`. Sizes are below 2 ^ 63, as lengths of slices are, and
-- that of a pool is not negative. The loops
-- of `SendChunked` and `Stream` run on fuel, one more than the bytes that still arrive, since each
-- round reads a header; the loop of a stream over reconnects runs on one more than the dials that are
-- left, since each round but the first uses one up.
--
-- Blocking: a call that blocks for ever on the channel of the pool has no result (`none`); in the step
-- relations, what blocks has no step. Only Races has calls of a pool that overlap.
--
-- Not modelled: the structs of the inspection report, which encoding/json fills (a parameter of
-- `Inspect`) and which hold no logic; the tests. The methods of client.go are over connections that
-- read into fresh buffers; the calls of a connection are modelled over fresh and over pooled ones.
pub mod Common
pub mod Errors
pub mod Text
pub mod Decimal
pub mod Types
pub mod Response
pub mod Command
pub mod Exec
pub mod Net
pub mod Buffers
pub mod Tcp
pub mod Options
pub mod Pool
pub mod Client
pub mod Sharded
pub mod Examples
