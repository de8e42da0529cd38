-- ===== src/Lib.antt =====
-- WebBench2: what is proved about the program that benchmarks a web server.
--
-- The program reads its settings from the command line (src/arguments.c), builds one HTTP request
-- from them (src/request.c), and gives both to an engine that sends the request over many
-- connections for a number of seconds and prints how many responses it has counted. This library
-- models the settings, the request, the engine of worker threads (src/bench2.c) with the blocking
-- calls that a worker makes (src/communicator.c), the epoll engine (src/bench_epoll.c), the poll
-- engine (src/bench_poll.c) with the bitmap that it marks its connections in (src/bitmap.c), and the
-- select engine (src/bench_select.c). Main joins them as `main` (src/webbench2.c) does, which calls
-- the epoll engine.
--
-- Parts and files:
--   * Prelude: lists, options, Boolean tests and integers over the native numbers; Prelude/Digits is
--     how a number is printed and read; Prelude/Outcomes is a computation that returns, calls `exit`
--     or is undefined in C (`fault`: a NULL dereference or a write behind an array).
--   * CString: `strncpy`, `strncat`, `snprintf`, `strchr`, `strstr`, `strtol` and the others that
--     the sources use. A string is the list of its bytes without the NUL; a copy into an array
--     takes the size of the array.
--   * Bitmap: `set_bitmap` and `get_bitmap`; Bitmap/Marks has their laws.
--   * Arguments: the settings; Arguments/Url is `set_arguments_from_url` (Shapes and Bounds are
--     about its result and its arrays), Arguments/Options is `set_arguments_values` (Proxy and Run).
--     `errno` is a part of the state there, since the URL's port is read with the `errno` that is left
--     from before. What `getopt_long` returns is an argument.
--   * Request: `build_request`; Request/Message says which HTTP message is meant, Request/Build and
--     Request/Version are about the result.
--   * Connection: the `connection` struct, its states, and the answers of the system to one call.
--   * Epoll: Tls (`get_global_ssl_ctx`, `setup_ssl_context`), Proxy (`send_proxy_connect`,
--     `handle_proxy_response`), Socket (`create_nonblocking_socket`, `init_connection`,
--     `cleanup_connection`, `allocate_socket`), Setup (`setup_connection_to_epoll_instance`), Ready
--     (`handle_ready_connection`, one function for each case of its switch), Bench (`bench_epoll`).
--     Epoll/WellFormed is the invariant of a connection, Epoll/Ready has the laws of the handler
--     (Edges, Counters, Keeps, Wire over many events, Progress), Epoll/Bench those of whole runs.
--   * Poll: what bench_poll.c does otherwise than bench_epoll.c. Poll/Proxy, Poll/Socket and
--     Poll/Ready have the functions of the same names (Ready/Same compares the handlers of the two
--     engines); Poll/Setup is `setup_connection_fdsets`, of which Spec says what one round has to do
--     and Marks what the loop leaves; Poll/Bench is `bench_poll`, of which Each and Rounds say what
--     a round does to each connection, Returns, Invariant and Safe are about whole runs and Blocked
--     about rounds that are lost. Poll/WellFormed has the invariant of a connection for this engine.
--   * Select: what bench_select.c does otherwise. Select/Proxy, Select/Socket and Select/Ready have
--     the functions of the names above (Ready/Plain compares the handler with that of the poll
--     engine on connections over plain HTTP, Ready/Partial is about the CONNECT request);
--     Select/Sets is `setup_connection_fdsets`, Select/Bench is `bench_select`, of which Limits is
--     about the descriptors that a set has room for.
--   * Communicator: Tls (`send_tls_data`, `recv_tls_data`; Sending and Receiving are about them),
--     Socket (`Socket`), Talk (`handle_proxy_connect`, `communicate_through_http`,
--     `communicate_through_https`, `communicate`); Closes is about descriptors, Walk and Ends about
--     how a call ends, Reset about a failed `recv`, Force joins it to the thread engine.
--   * Threads: src/bench2.c, the engine of worker threads; Threads/Totals is about its results. What
--     the calls of `communicate` return is an argument.
--   * Main: `main`; Message is about the request that a whole run sends.
--   * Tests: the theorems at concrete inputs.
--
-- Numbers: an `int` or a `long` from outside is an integer, a `size_t` is a number with the wrap at
-- 2 ^ 64 written out, the counters of a connection are held as their 32 bits. In the select engine
-- `bytes_sent` and `bytes_received` are of type `int`: they stay below the sizes of the two arrays,
-- so Select has them without a wrap. There is no fuel: every
-- loop of the modelled code runs over a list (options, addresses, connections, reports, rounds) or a
-- number of connections. The main loop of `bench_epoll` runs while time is left; the rounds that
-- begin in time are a list of any length. Progress is stated over lists of events, with the length
-- that is enough.
--
-- The operating system and OpenSSL are arguments: Connection's `Answers` holds what each call
-- of the handler is answered, `Resolver` what `getaddrinfo`, `socket` and `connect` do, Epoll/Bench's
-- `Round` what `epoll_wait` reports, Poll/Bench's what `poll` reports for an entry of its array,
-- Select/Bench's the descriptors that `select` leaves in the sets, Communicator/Talk's `Calls` what
-- the blocking calls are answered: a loop that has used up the answers is waiting. Where a theorem relies on them it says so: `Obeys`, `Fits`, `Within` and
-- `Delivers` are that no call takes or gives more bytes than it was asked to.
--
-- Not modelled: messages and the usage text, the set-up and the freeing of OpenSSL's library, the
-- tests and the playground. A NULL pointer that no caller passes has no counterpart.
pub mod Prelude
pub mod CString
pub mod Bitmap
pub mod Arguments
pub mod Request
pub mod Connection
pub mod Epoll
pub mod Communicator
pub mod Poll
pub mod Select
pub mod Threads
pub mod Main
pub mod Tests
