-- ===== src/Lib.antt =====
-- A verification of atscppapi, the C++ wrapper of Traffic Server's plugin API.
--
-- The program's parts. A plugin (src/Plugin.cc, src/GlobalPlugin.cc, src/TransactionPlugin.cc)
-- asks for hooks; Traffic Server's events come back through src/utils_internal.cc, which finds the
-- Transaction object (src/Transaction.cc) and calls the plugin's method. Through the transaction a
-- plugin reaches requests and responses (src/Request.cc, src/ClientRequest.cc, src/Response.cc),
-- which hold headers (src/Headers.cc) and URLs (src/Url.cc): caches in front of Traffic Server's
-- marshal buffers, built on src/include/InitializableValue.h. Headers are kept in a map ordered by
-- src/CaseInsensitiveStringComparator.cc. A TransformationPlugin (src/TransformationPlugin.cc)
-- sits between two streams; src/GzipDeflateTransformation.cc and src/GzipInflateTransformation.cc
-- are two of them. src/AsyncTimer.cc and src/AsyncHttpFetch.cc are asynchronous providers in the
-- sense of src/include/atscppapi/Async.h, which locks mutexes of src/include/atscppapi/Mutex.h;
-- src/Logger.cc and src/Stat.cc wrap logs and statistics, and src/utils.cc prints addresses.
--
-- Which file models which part. Methods keep their names, in snake case; a getter that fills a
-- cache gives its result and the new state. Traffic Server is never defined here: each part takes
-- a record of the functions that it calls (Mime.MimeApi, Url.UrlApi, Request.RequestApi,
-- Response.ResponseApi, Transformation.TransformApi, Logger.TextLogApi, AsyncTimer.TimerApi,
-- Stat.StatApi, AsyncHttpFetch.Events.FetchApi, TransactionManagement.Forwarding.TxnApi), over a
-- type `World` of its state, and so are zlib (Zlib.ZlibApi), pthread mutexes (Mutex.PthreadApi) and
-- inet_ntop (Address.InetApi). What a theorem relies on is a record of laws beside it.
--   Common           shared names, Boolean tests, lists over native numbers
--   StdString        `compare` and `<` of std::string
--   StdMap           std::map as a sorted association list, with its laws
--   Comparator       src/CaseInsensitiveStringComparator.cc
--   InitializableValue  src/include/InitializableValue.h
--   Headers          src/Headers.cc: State (the object), Fields (reading and writing the buffer),
--                    Values (the public operations), CookieText (the text of cookies), Cookies (the
--                    cookie operations); Detached, Joined, CookieOps, CookieJar, Caching, Reading,
--                    Gathered, Attached and the children of CookieText hold the proofs
--   Url              src/Url.cc
--   HttpMethod, HttpVersion, Request, ClientRequest, Response  the files of these names
--   Hooks            the hooks and events of src/include/atscppapi/Plugin.h, src/utils_internal.cc
--   TransactionManagement  the life of a transaction in src/utils_internal.cc, src/Transaction.cc;
--                    Forwarding has the methods that call Traffic Server and the destructor, ErrorBody
--                    and Released their proofs
--   CString          stores in bounds and strncpy, for setErrorBody
--   Transformation   src/TransformationPlugin.cc: Output, Input, Stream, Delivery, Lost and Tally hold
--                    the proofs
--   Zlib, GzipDeflate, GzipInflate  the gzip transformations: Laws says what zlib documents of
--                    deflate, Chunks and Finish hold the proofs of the one, Blocks, Returned and
--                    Sanity those of the other
--   Mutex            src/include/atscppapi/Mutex.h; Scopes has code that nests the scoped locks
--   Async            src/include/atscppapi/Async.h with many threads, as steps; Threads, Frames and
--                    Moves prove the invariant that Alive uses
--   PluginHooks      construction, hooks and destruction of plugins in src/GlobalPlugin.cc,
--                    src/TransactionPlugin.cc and src/TransformationPlugin.cc, as lists of calls
--   Address          the addresses of src/utils.cc
--   Loops            how a loop on fuel ended
--   Logger, Stat, AsyncTimer, RemapPlugin  the files of these names
--   AsyncHttpFetch   Text is the request, Events the state of a fetch and its event
--   Tests            concrete runs
--
-- Representation. A string is a list of bytes, a nullable pointer an `Option` or, where only null
-- matters, a `Bool`. A machine integer is its bit pattern. The global flag for caching of
-- transaction data is the argument `caching`. The value that a map iterator points at stands for
-- the iterator.
--
-- Loops. The loops over fields and the cookie parser recurse on fuel: a field list on the number
-- of fields that Traffic Server counts, the parser on the length of the text, of which each round
-- takes at least one byte. The loops of the gzip transformations say whether they ended or ran out
-- of fuel. To deflate, one more is enough than a bound on zlib's work for the flush, which each round
-- that fills its buffer lowers; to inflate, one more than the bytes that zlib owes and those of the
-- input, since every round but the last takes some of these. Five digits are enough for a port.
-- All other loops are structural. The sizes of the gzip buffers are taken to fit an `int`.
--
-- Threads. In Async a step is what one thread does up to a place where another may come in: taking a
-- mutex, looking at the receiver, the receiver's method as a whole, clearing the receiver, giving the
-- mutex back. A thread is in one dispatch or one destructor at a time, and holds no other mutex of
-- these: a receiver that destroys itself in its own method is not modelled there. In AsyncTimer a
-- dispatch is one step.
--
-- Plugins. What a transformation does in a method is a function of the methods called before; it
-- does not look at the results of `produce` in between.
--
-- Not modelled. Memory management, debug output, the call of TSFetchUrl beyond the text it is given,
-- what `doRemap` of a remap plugin does, and the example plugins.
pub mod Common
pub mod StdString
pub mod Comparator
pub mod StdMap
pub mod InitializableValue
pub mod Mime
pub mod Headers
pub mod Url
pub mod Hooks
pub mod TransactionManagement
pub mod Transformation
pub mod Logger
pub mod Async
pub mod AsyncTimer
pub mod HttpVersion
pub mod Response
pub mod Stat
pub mod RemapPlugin
pub mod AsyncHttpFetch
pub mod Tests
pub mod HttpMethod
pub mod Request
pub mod ClientRequest
pub mod PluginHooks
pub mod CString
pub mod Address
pub mod Mutex
pub mod Zlib
pub mod GzipDeflate
pub mod GzipInflate
pub mod Loops
