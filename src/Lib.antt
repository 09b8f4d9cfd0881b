-- ===== src/Lib.antt =====
-- tradingview-go: a Go client of TradingView's candle data. It normalises what a user asks for
-- (protocol.go), answers from a TTL and LRU cache where one is enabled (cache.go), and otherwise
-- fetches over a pooled WebSocket connection whose messages are length-prefixed frames
-- (protocol.go). A streamer keeps such a connection open and hands its candles on; ta annotates
-- candles with indicators; mcp wraps the client and ta as tools, and cmd has two programs over them.
--
-- Files:
--   Common     shared names, Boolean tests, lists over the native numbers, Go's int
--   Text       strings as bytes: package strings and strconv where the program calls them
--   Frames     protocol.go: encodeFrame, decodeFrames, heartbeatPong
--   Sessions   protocol.go: genSessionID
--   Symbols    protocol.go: NormalizeSymbol, NormalizeResolution and their tables
--   Types      types.go
--   Errors     errors.go
--   Config     config.go: DefaultConfig and withDefaults
--   Payload    protocol.go: parseCandles and asFloat
--   Conn       conn.go: dial, authenticate, send and fetchSeries
--   Stream     stream.go: NewStreamer, Subscribe with its goroutine, stream and Close
--   Search     search.go: SearchSymbols and stripEm
--   Ta         ta/ta.go: the enrichers, their names and texts, EnrichTimeframe, EnrichMulti, Compute
--   Pool       pool.go: the pool's sections under its mutex; Pool/World has the goroutines around them
--   Client     client.go: Fetch, fetchOnce and FetchMulti over the pool and the cache; Client/Origin
--              puts them on the connections, Client/History has the interleavings of Fetch and Close
--   Cache      cache.go: makeCacheKey, lruCache with get and put; Cache/Spec is its specification
--   Mcp        mcp/helpers.go, mcp/fetch.go, mcp/search.go, mcp/analyze.go: wrapErr, defaultInt and
--              the handlers; Mcp/Tools has the lists of mcp/mcp.go and mcp/excluded.go
--   Cmd        Cmd/Fetch is cmd/tradingview-fetch/main.go, Cmd/Server cmd/tradingview-mcp/main.go
--
-- A Go string is the list of its bytes; case mapping and trimming know ASCII letters and spaces only.
-- An int is an integer with two constructors, a length or a time a natural number. A function that
-- changes shared state under a mutex returns the new state, so a call is one step. A `break` or an
-- `ok` result is an Option. Parameters: json.Valid, json.Marshal, json.Unmarshal, strconv.ParseBool,
-- strconv.Quote, the type of a float64 with its operations, sort.Slice, the indicator library,
-- mcptool's PageOf, the semaphore of golang.org/x/sync, the flags, files and variables that the
-- programs read, and the answers of the network. A Go map that is only looked up is a list of its
-- entries. A function of the indicator library returns, except that Ema may panic for a period that is
-- not between one and the length of the series.
--
-- The loop of decodeFrames runs on fuel, one more than the length of the text: every round takes a
-- header of at least six bytes off it. The eviction loop of put has the length of the list. Decimal
-- printing has the number plus one.
--
-- The goroutines of the pool are a step relation: a step is one section under the mutex, or one
-- operation of the semaphore or of the network. The loop of fetchSeries runs over the list of what its
-- reads give before the deadline, and the end of that list is the deadline; that of a stream runs over
-- what its reads have given so far. The loop of a subscription runs over the connections that it makes
-- before Close.
--
-- Not modelled: logger.go, which only prints; the formulas of the indicator library, the decoding of
-- a tool's input and the server of mcp-go, which are third party; the random delays between the
-- attempts of dial, the wait of a subscription before it reconnects, the wait groups and the read
-- deadlines, which decide when a step happens and not what it does; the headers of the requests; a
-- caller that writes to a chart which the cache still holds.
pub mod Common
pub mod Text
pub mod Frames
pub mod Sessions
pub mod Stream
pub mod Symbols
pub mod Types
pub mod Errors
pub mod Config
pub mod Payload
pub mod Conn
pub mod Search
pub mod Ta
pub mod Pool
pub mod Client
pub mod Mcp
pub mod Cmd
pub mod Cache
