-- ===== src/Lib.antt =====
-- rice: the HTTP framework's routing, its requests, its life cycle and its middleware.
--
-- The program registers routes on an App (route.go, group.go), each into a radix tree for its
-- method (internal/router), compiles the middleware around every handler at Build (build.go,
-- internal/chain), and dispatches a request by a lookup in the tree of its method (app.go), on a
-- Ctx from a pool (ctx.go, pool.go). Handlers and middleware return errors, which end in one
-- ErrorHandler (errors.go). Serve and Shutdown (server.go, lifecycle.go, conns.go) start and stop
-- all of it.
--
-- Prelude     shared notation: lists and Boolean tests over the native numbers, byte strings.
-- Router      internal/router. Router.Params is params.go, Router.Pattern pattern.go (parsePattern
--             and its checks), Router.Tree the nodes and the lookup of tree.go, Router.Insert its
--             insertion, Router.RouteTree router.go. Router.Table is the contract: a tree stands for
--             a table from patterns, as strings of symbols, to handlers.
-- Accept      ctx_accept.go: Accepts, negotiate, offerQuality, matchRange, parseQ, nextItem,
--             splitOffer, addVaryAccept.
-- Chain       internal/chain/chain.go: Compile.
-- App         method.go (App.Method), treeFor and lookupEntry (App.Trees), the setup calls of
--             route.go and group.go (App.Register), build.go and the choice of the handler in handle
--             (App.Build), and an App as a sequence of setup calls leaves it (App.Setup).
-- RateLimit   middleware/ratelimit.go (params, retryAfter, the handler of RateLimit) and
--             middleware/memorystore.go (Take and its sweep).
-- Auth        middleware/auth.go, basicauth.go and keyauth.go: cutScheme, isToken, validRealm, the
--             checks and the handlers of BasicAuth and KeyAuth.
-- Errors      errors.go: HTTPError and PanicError in trees of wrapped errors, validStatus, respond,
--             DefaultErrorHandler (Funnel what it answers).
-- Ctx         ctx.go, ctx_store.go, ctx_param.go, pool.go, poison_debug.go: the context of a
--             request, its keyed store (Store), the pool and the poison of a debug build (Pool).
-- Request     app.go (handle, callErrorHandler), ctx.go (HandleError, SetContext), stream.go
--             (registerStream): one request from the pool and back. Settling is about requests that
--             HandleError settled, Panics about failing handlers, Whole about requests through one
--             pool, Released about a Ctx that is used behind its request; Wrappers has middleware/recover.go, timeout.go and logger.go, and Wrappers/Laws
--             what they change.
-- Life        server.go, lifecycle.go, conns.go: Serve and Shutdown. Life has the App's flags and a
--             call's steps, System any number of calls at once, Order the threads that the flags
--             speak of, Listener whose listener the App's is, Turns, Progress and Cut what follows,
--             Hooks the hooks and the time of a shutdown.
-- Sse         stream.go and sse.go: a Stream and the framing of Send. Client is the reader that the
--             HTML standard gives an event stream, Lines the lines of an event's data, Reading and
--             Roundtrip what the one reads of the other.
-- RealIp      middleware/realip.go: the scan of the forwarded lines (Entries which entry it finds).
-- Cors        middleware/cors.go: the configuration and the handler (Origins which are allowed).
-- Static      static.go: the handler around fasthttp's (Paths) and its redirects (Redirects).
-- Respond     ctx_response.go, sse.go (SSE): the calls of a Ctx that write a response.
-- Health      health/health.go: liveness and readiness (Readiness what a probe is answered).
-- Binding     binding/binding.go: what follows decoding (Answers what a client is answered).
-- RequestId   middleware/requestid.go: the check, the choice and the reading of a request's id.
--
-- A handler is a tree of its calls on its Ctx (Request.Prog): what it does next may depend on all
-- that it can read, so that every handler that ends has such a tree. An ErrorHandler that calls
-- HandleError is run to a depth; handle settles the request first, so that depth 1 is enough. A
-- call of Serve or Shutdown steps from one lock, atomic or channel operation to the next, and the
-- steps of all calls interleave freely; the turn of a Shutdown is a flag, a sync.Once one flag for
-- its beginning and one for its end. The connections of a cut are closed in the order of a list.
-- The wait of the drain delay changes nothing and is left out.
--
-- State is passed explicitly: an operation returns the state that it leaves, and a panic is a
-- value (`none`, or the constructor `panic`). A Go string or []byte is the list of its bytes.
-- Pointers into the tree are never shared, so a tree is a value; a *Group is an index into the
-- App's store of groups, since Use on a group reaches the routes that are already registered on
-- it.
--
-- Fuel: insertStatic takes a byte of its text in each round, so the text's length is enough; the
-- loop over the items of a header line takes a byte in each round, so the line's length is enough;
-- the loop over the ancestors of a group meets every group once at most, so their number is
-- enough.
--
-- url.PathUnescape, which only words an error, base64 decoding, Validate, the hash of a rate
-- limit's key, the time of a request, the text of a status, the derived context of a timeout and
-- the end of its deadline, net.ParseIP, the escaping of a path, fasthttp's file handler, the
-- results of decoding and of a check, the digits of a number and the failures of a stream's writer
-- are arguments. The rounds of a scan are bounded by the length of its line, those over an event's
-- data by two more than its length. fasthttp's part of Serve and Shutdown, and whether it
-- or a hook comes back at all, is a result that a step is given. Not modelled: what is logged, the writer goroutine of a stream, RunContext, the
-- registration of file routes and the OpenTelemetry adapter.
pub mod Prelude
pub mod Router
pub mod Accept
pub mod Chain
pub mod App
pub mod RateLimit
pub mod Auth
pub mod Errors
pub mod Ctx
pub mod Request
pub mod Life
pub mod Sse
pub mod RealIp
pub mod Cors
pub mod Static
pub mod Respond
pub mod Health
pub mod Binding
pub mod RequestId
