-- ===== src/Lib.antt =====
-- another-rust-load-balancer: a reverse proxy that chooses a backend pool for each HTTP request, a
-- backend of the pool by a load balancing strategy, and passes the request through the pool's chain
-- of middlewares to that backend.
--
-- How the parts interact. `Server.call` is the call of `MainService` in src/server.rs: it first asks
-- the challenges of src/acme.rs for an answer, then looks for the first pool whose schemes and whose
-- rule (src/backend_pool_matcher.rs) fit the request. Of that pool it takes the addresses that the
-- checks of src/health.rs found healthy, or else slow, lets the pool's strategy
-- (src/load_balancing/) select one of them, and forwards the request through the chain of
-- src/middleware/. The client of a pool tells the strategy of connections that open and close.
-- src/configuration.rs builds the pools from a file and replaces them when the file changes.
--
-- Which file models which part:
--   Server           src/server.rs: pools, builder, `pool_by_req`, `call`. `Server.Pools` is about
--                    the choice of pool and addresses, `Server.Answers` about the branches of a call.
--                    `Server.Listening` is `create`.
--   Listeners        src/listeners.rs: the connections that the two listeners yield.
--   LoadBalancing    src/load_balancing/mod.rs: contexts and forwarders. RoundRobin, IpHash, Random,
--                    LeastConnection and StickyCookie are the files of those names;
--                    `LoadBalancing.Dispatch` is the trait object, with one constructor for each type.
--   Middleware       src/middleware/mod.rs: the request to the backend; `Middleware.Chain` is the
--                    trait, its defaults and the chain. RateLimiter, MaxBodySize, HttpsRedirector,
--                    CustomErrorPages, Authentication and Compression are the files of those names.
--   Matcher          src/backend_pool_matcher.rs: rules, their equality and when a request meets one.
--                    `Matcher.Pom` is what the parser uses of the pom crate, with its laws, and
--                    `Matcher.Pom.Standard` an instance that computes; `Matcher.Grammar` has one
--                    definition for each parser of the file. Spelling is an independent description
--                    of the texts that spell a rule, Printing a printer of rules.
--   Health           src/health.rs: the check of one backend; `Health.Rounds` is a round over all pools,
--                    `Health.Watching` the loop.
--   HttpClient       src/http_client.rs: the connector and the drop of a stream; `HttpClient.Opened` is
--                    about the runs of the two.
--   Tls              src/tls.rs: certificates with their keys, and their choice by server name.
--   Acme             src/acme.rs: the open challenges and the answers; `Acme.Ordering` is the order of a
--                    certificate, with the thread that talks to the certificate authority.
--   Configuration    src/configuration.rs: from the deserialized file to chains and strategies, and in
--                    Pools to pools. Runtime holds the types and the defaults, Certificates the loading
--                    and the order of certificates, Reading the way from the file to the runtime
--                    configuration, Watching the turns of the watcher. Describing says which middleware
--                    an entry of a file describes, Chains which chain a table gives. Serving is about
--                    the calls that the server answers with the pools as they were made, Warnings about
--                    what is printed of a file, Checked about the certificates that clients get.
--                    `Configuration.Loads` are calls that may fail, panic or wait and that open
--                    challenges meanwhile.
--   ErrorResponse, Scheme, Utils, Logging   src/error_response.rs, `Scheme` of src/server.rs,
--                    src/utils.rs, the level of src/logging.rs.
--   Http             what the program uses of the hyper and http crates, as records of operations and
--                    of documented laws; `Http.Assoc` is an instance of them that computes.
--   Prelude          lists, texts and numbers, calls that may panic or wait, maps, parsed numbers.
--   Samples          the data on which the theorems are run; the runs are in the modules named Tests.
--
-- How code corresponds to definitions. A value behind a mutex, a lock or an atomic pointer is its
-- content, and a method that changes it returns the new value: one call of a method is one atomic
-- step, as the locks make it. A call that may panic (an `unwrap`, an index, a remainder by zero)
-- returns an `Outcome`; `Result` and `Option` are the sums of Rust. Integers are natural numbers with
-- the wrap-around of a release build written out; an i64 is an integer with its bounds where they
-- matter. A text is the list of its code points. A `HashMap` is the list of its entries in the order
-- in which it iterates, whatever that order is. Asynchronous calls return their result; where several
-- calls interleave, as in `LoadBalancing.Dispatch.Notify`, the steps form a relation. A call that also
-- waits for another thread is a `Task`, which ends, panics or waits on. The connections that the
-- client of a pool opens and closes while a call of the server runs are a sequence of notifications,
-- any sequence, which the pool's strategy has got when the call ends.
--
-- Bounds. Loops are recursion on the list that they run over, with two exceptions. `Matcher.Grammar.value`
-- calls itself behind a parenthesis, at most to a depth that is a parameter; `from` gives it one more than
-- the length of the text, which is enough for every text. The thread of an order runs for a number of
-- rounds that is a parameter; in rounds that are too few it has not ended, and whoever waits for it
-- waits.
--
-- Third-party crates are parameters: the header maps and bodies of hyper, regular expressions, the
-- parsing of query strings and cookies, the hasher, the random generator, the linked hash map, the
-- LDAP server, the encoders, the toml reader, the parser combinators, the client of the certificate
-- authority, the decoding of certificates and the network. Laws that a theorem needs of them are
-- named hypotheses, which the instances in `Samples`, `Http.Assoc` and `Matcher.Pom.Standard` satisfy.
--
-- Not modelled: the passing of time in src/health.rs; the thread of src/configuration.rs that passes on
-- the events of the file system, and the warnings of changed addresses; src/main.rs, which runs the parts in one task, and the
-- set-up of the logger in src/logging.rs; the polling of streams in src/http_client.rs, which is passed
-- on to the socket.
pub mod Prelude
pub mod Http
pub mod LoadBalancing
pub mod Matcher
pub mod ErrorResponse
pub mod Health
pub mod Scheme
pub mod Utils
pub mod Middleware
pub mod Acme
pub mod Server
pub mod Configuration
pub mod Tls
pub mod HttpClient
pub mod Listeners
pub mod Logging
pub mod Samples
