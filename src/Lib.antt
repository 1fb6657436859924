-- ===== src/Lib.antt =====
-- A model of elton, a web framework for Go, and what it shows of the framework.
--
-- The parts and how they interact. A request enters `ServeHTTP` (elton.go), which hands it to the
-- router of net/http behind an edge writer (route.go). The router finds the function that `Handle`
-- registered; it takes a context from a pool, resets it (context.go), fills the values of the
-- path's wildcards (route_params.go) and enters the chain of handlers with `c.Next()`. Behind the
-- chain the response is sent. The middleware are handlers of the chain.
--
--   Http.antt, Http/              `http.Header` and `http.ResponseWriter`, as far as they are used
--   Context.antt                  context.go: the context, one function per method
--   Context/Address.antt          context.go: `RealIP`, `ClientIP` and what they read
--   Context/Contents, Cookies     context.go: bodies and content types, plain and signed cookies
--   Context/Laws, AddressLaws     what these operations leave, and which hop is the client's
--   Context/CookieLaws            which signed cookies are accepted
--   SignedKeys.antt, Current      signed_keys.go, and the signer that elton.go makes of the keys
--   Reading.antt, Whole           util.go: the reading of a body to its end
--   Groups.antt, Guarded, Added   elton.go: groups, and the handlers before a group's routes
--   Trace.antt, Own               trace.go, and `ServerTiming` of context.go
--   RouteParams.antt, its Laws    route_params.go
--   Chain.antt                    context.go `chainNext`, elton.go `Compose`
--   Chain/Onion, Composed, Fuel   the onion order, composed handlers, the end of every request
--   Chain/Continued.antt          a handler around whatever handlers are within
--   Route.antt                    route.go: `normalizeRoutePath`, `extractParamNames`
--   Route/Segments, Names         the same by segments, and by pieces of a pattern
--   EdgeWriter.antt, its Laws     route.go: `edgeWriter`
--   Server.antt                   elton.go: registration, and the function that `Handle` registers
--   Server/Finish, Writes, Answer what the client gets behind the chain, and the body that is closed
--   Server/Serve, Mux             elton.go: `ServeHTTP`, and the answers of the router itself
--   Server/Isolation.antt         what one request sees of the one before
--   Server/Lifecycle, Shutdown    elton.go: `GracefulClose`, and how its calls end
--   Server/Closing.antt           the requests that come then
--   Fresh.antt, its Laws          fresh.go: conditional requests
--   Middleware/HeaderCodec        middleware/http_header.go: the compact form of header fields
--   Middleware/CacheResponse      middleware/cache.go: the stored form of a response
--   Middleware/Cache.antt         middleware/cache.go: the handler of `NewCache`
--   Middleware/Cache/MaxAge       which responses are stored
--   Middleware/Cache/Answer, Hit  the requests that they answer
--   Middleware/Conditional        middleware/etag.go, middleware/fresh.go
--   Middleware/Error, Responder   middleware/error.go, middleware/responder.go
--   Middleware/Answered           the last two together
--   Middleware/LruStore           middleware/lru_store.go
--   Middleware/Limiter            middleware/concurrent_limiter.go: `NewGlobalConcurrentLimiter`
--   Middleware/RouterLimiter      middleware/router_concurrent_limiter.go
--   Middleware/Skipper, Guards    middleware/middleware.go, size_limiter.go and timeout.go
--   Middleware/Recover, Contained middleware/recover.go
--   Middleware/BodyParser, below  middleware/body_parser.go: the limit, the decoders, the handler
--   Middleware/StaticServe, below middleware/static_serve.go, and the files that it can name
--   Middleware/BasicAuth          middleware/basic_auth.go
--   Middleware/Cors, below        middleware/cors.go, and the origins that it allows
--   Middleware/ConcurrentLimiter  middleware/concurrent_limiter.go: `NewConcurrentLimiter`
--   Middleware/Compress, Lossless middleware/compress.go, and what a client decodes
--   Middleware/RequestId          middleware/request_id.go
--   Middleware/Tracker, below     middleware/tracker.go: the masks, and the cuts of long values
--   Common.antt, Common/          bytes, texts, decimal and big-endian numbers, lists, file paths
--   Examples/                     tests, and the theorems at concrete inputs
--
-- How code and model correspond. A string or a slice of bytes is a list of bytes. A method with a
-- pointer receiver is a function that returns the new value. A Go map is an association list in the
-- order in which `range` happens to visit it, under the hypothesis that its keys differ. A handler is
-- the tree of what it does between its calls of `c.Next()`; the cursor of the chain is the state of
-- the machine `Chain.exec`, and a panic is an outcome. Numbers are unbounded where the source has an
-- `int`; the 16 and 32 bits of the stored form are written out in Common/Endian, the counters of the
-- limiters wrap at 2^32, and the age of a stored response is an integer of 64 bits (Common/Integers).
-- Goroutines that share a counter or the status are steps that interleave in any order.
--
-- Bounds and fuel. `Chain.exec` spends one unit of fuel per handler that is nested in the one that
-- calls `c.Next()`; `Chain.Fuel.WeighAll` is the bound that is enough. `convert` and `extract` in
-- Route.antt have the length of the path as fuel and drop a byte in each round. The loops that read
-- a body end with any fuel above the number of the bytes that are left, and a limited loop with any
-- fuel above its limit as well. `add_group` spends a unit per level of groups; their number is enough.
--
-- What is not modelled. `http.ServeMux` and the patterns that it accepts, the text of an error, the
-- library hes, the parser of dates, SHA-1 and HMAC, the LRU cache of hashicorp/golang-lru, base64,
-- the file system, the lock of the concurrent limiter and the codecs of the compressors are
-- parameters. The writer of the server takes the bytes of a body in full, but for a status that has
-- no body, and it sends none for a HEAD request; that a declared `Content-Length` limits them, and
-- the error events of a write that it refuses, are left out. The context of a route writes to it past
-- the edge writer, with which it agrees where no informational status is announced. Spaces are those
-- of ASCII where the source trims all of Unicode. No handler of the chain is timed, and a duration is
-- not negative. The logger, the statistics, the renderer and its templates, the prefix of a URL, the
-- proxy, the recommended stack, multipart forms, uploaded files, and the methods by which a context
-- is a `context.Context` are not part of the model.

mod Common
pub mod Http
pub mod RouteParams
pub mod Context
pub mod Chain
pub mod Reading
pub mod Route
pub mod EdgeWriter
pub mod Server
pub mod Groups
pub mod Trace
pub mod SignedKeys
pub mod Fresh
pub mod Middleware
mod Examples
