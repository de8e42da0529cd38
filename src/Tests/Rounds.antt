-- ===== src/Tests/Rounds.antt =====
-- src/bench_epoll.c: sockets, rounds and whole runs at concrete answers of the system.
use web_bench.Prelude.{
  ℕ, ◌-◌, ◌<◌, ◌≡◌, ◌%◌, refl, true, false, none, some, List, [], ◌∷◌, ◌++◌, arith, take, All, done,
  exit, subst, some-injective,
}
use web_bench.Prelude.Int.{pos, minus_one, two_32}
use web_bench.Prelude.Digits.{print_int}
use web_bench.CString.{codes, snprintf, strstr, cut_nul}
use web_bench.Arguments.{Arguments}
use web_bench.Connection.{
  ConnState, completed, proxy_connect, proxy_response, tls_handshake, Connection, Answers, Events,
  count, refused, handled, again, fatal,
}
use web_bench.Epoll.Proxy.{
  connect_request, send_proxy_connect, handle_proxy_response, recv_response, read_response,
  established, need_connect_proxy,
}
use web_bench.Epoll.Proxy.Laws.{Tunnels, send_proxy_connect-refused}
use web_bench.Epoll.Proxy.Tunnel.{AllWrite, run_events-connect, ready_proxy_response-stuck}
use web_bench.Epoll.Socket.{
  Attempt, Resolver, zero_connection, init_connection, allocate_socket, open_socket,
  create_nonblocking_socket, try_addresses, cleanup_connection, close,
}
use web_bench.Epoll.Setup.{
  SetupEnv, added, setup_connection_to_epoll_instance, register_from, restart, setup_result,
}
use web_bench.Epoll.Ready.{
  ready_proxy_response, handle_ready_connection, dispatch, ready_connecting, ready_sending,
  send_request, wrote,
}
use web_bench.Epoll.Ready.Wire.{run_events}
use web_bench.Epoll.WellFormed.{WellFormed, Obeys}
use web_bench.Epoll.Bench.{
  Report, Round, World, Run, Finished, num_connections, init_connections, run_round, run_rounds,
  wait_and_handle, handle_reports, handle_report, summarize, release_all, finish, bench_epoll,
}
use web_bench.Epoll.Bench.Invariant.{About, ReportsObey, RoundsObey, set_up}
use web_bench.Epoll.Bench.Sums.{sum, start, bench_epoll-totals, bench_epoll-force}
use web_bench.Epoll.Bench.Safe.{run_rounds-WellFormed}
use web_bench.Epoll.Bench.Closed.{run_rounds-first_unreachable}

abbrev args : Arguments
args = record {
  clients = pos 1;
  force = 1;
  force_reload = 0;
  proxy_host = [];
  proxy_port = pos 80;
  target_host = codes "ab";
  target_port = pos 80;
  bench_time = pos 30;
  protocol = 0;
  http10 = 2;
  method = 0;
  url = codes "http://ab/";
}

abbrev tunnel_args : Arguments
tunnel_args = record args {
  proxy_host = codes "p";
  proxy_port = pos 3128;
  target_port = pos 443;
  protocol = 1;
}

abbrev body : List ℕ
body = codes "GET /"

abbrev answers : Answers
answers = record {
  ctl_del = true;
  getsockopt = pos 0;
  so_error = pos 0;
  ctx_new = true;
  ssl_new = false;
  ssl_set_fd = false;
  send = count 1;
  recv = some (codes "HTTP/1.1 200 Connection established\r\n\r\n");
  errno = again;
  ssl_connect = minus_one;
  ssl_write = count 0;
  ssl_read = none;
  ssl_error = fatal;
}

abbrev on_write : Events
on_write = record { readable = false; writable = true; broken = false }

abbrev on_read : Events
on_read = record { readable = true; writable = false; broken = false }

-- A connection that has a socket and goes through the proxy.
abbrev asking : Connection
asking = record zero_connection { state = proxy_connect; sockfd = pos 7; is_https = true }

asking-Tunnels : Tunnels tunnel_args asking
unfolding connect_request snprintf print_int
asking-Tunnels = record {
  proxy = refl;
  target = refl;
  proxy_port = refl;
  target_port = refl;
  socket = refl;
  sent = omega arith;
}

abbrev refuses : Answers
refuses = record answers { send = refused }

send_proxy_connect-refused_example :
    (asking.bytes_sent ≡ 0
      → send_proxy_connect refuses false asking tunnel_args
        ≡ handled (record asking { bytes_sent = 0 }) false (pos 1))
    × (0 < asking.bytes_sent
        → send_proxy_connect refuses false asking tunnel_args
          ≡ handled (record asking { bytes_sent = asking.bytes_sent - 1 }) false (pos 0))
send_proxy_connect-refused_example =
    send_proxy_connect-refused tunnel_args refuses false asking asking-Tunnels refl

-- One byte of the 60 is left.
abbrev almost : Connection
almost = record asking { bytes_sent = 59 }

almost-Tunnels : Tunnels tunnel_args almost
unfolding connect_request snprintf print_int
almost-Tunnels = record {
  proxy = refl;
  target = refl;
  proxy_port = refl;
  target_port = refl;
  socket = refl;
  sent = omega arith;
}

abbrev last_byte : List (Answers × Events)
last_byte = (answers, on_write) ∷ []

last_byte-AllWrite : AllWrite tunnel_args (pos 3) false almost last_byte
unfolding connect_request snprintf print_int
last_byte-AllWrite = (
  record {
    valid = refl;
    removed = refl;
    intact = refl;
    writable = refl;
    readable = refl;
    size = 1;
    send = refl;
    positive = omega arith;
    fits = λ h. omega arith;
  },
  tt,
)

run_events-connect_example :
    (take 59 (connect_request (codes "ab") (pos 443))
        ++ (run_events tunnel_args (pos 3) false almost last_byte).out
      ≡ connect_request (codes "ab") (pos 443))
    × ((run_events tunnel_args (pos 3) false almost last_byte).conn.state ≡ proxy_response)
    × ((run_events tunnel_args (pos 3) false almost last_byte).conn.bytes_sent ≡ 0)
unfolding connect_request snprintf print_int
run_events-connect_example =
    run_events-connect tunnel_args (pos 3) false almost last_byte almost-Tunnels refl
      last_byte-AllWrite (omega arith)

-- The proxy has answered, and no SSL object can be made.
abbrev answered : Connection
answered = record asking { state = proxy_response }

abbrev later_events : List (Answers × Events)
later_events = (answers, on_read) ∷ ((answers, on_write) ∷ [])

ready_proxy_response-stuck_example :
    ((ready_proxy_response answers false answered on_read).ret ≡ pos 0)
    × ((ready_proxy_response answers false answered on_read).conn.state ≡ tls_handshake)
    × ((run_events tunnel_args
          (pos 3)
          (ready_proxy_response answers false answered on_read).ctx
          (ready_proxy_response answers false answered on_read).conn
          later_events).conn
        ≡ (ready_proxy_response answers false answered on_read).conn)
unfolding handle_proxy_response recv_response read_response established strstr cut_nul
ready_proxy_response-stuck_example =
    ready_proxy_response-stuck tunnel_args (pos 3) answers false answered on_read later_events refl
      refl refl refl (refl, (refl, tt))

-- A host with an address that refuses and one that connects.
abbrev two_addresses : List Attempt
two_addresses =
    record { socket = pos 7; connects = false } ∷ (record { socket = pos 8; connects = true } ∷ [])

abbrev reachable : Resolver
reachable = λ host port. some two_addresses

abbrev unreachable : Resolver
unreachable = λ host port. none

abbrev setup : Resolver → SetupEnv
setup resolve = record { resolve = λ i. resolve; ctl_add = λ i. added }

abbrev connecting_one : Connection
connecting_one = record zero_connection { state = ConnState.connecting; sockfd = pos 8 }

abbrev over_one : Connection
over_one = record zero_connection { state = completed; sockfd = pos 8 }

-- A round in which the first connection can be written to, and one without an event.
abbrev writing_round : Round
writing_round = record {
  setup = setup reachable;
  wait = some (
      record {
        index = 0;
        events = on_write;
        answers = record answers { send = count 5; recv = none };
      }
      ∷ []);
}

abbrev quiet_round : Round
quiet_round = record { setup = setup unreachable; wait = some [] }

-- One connection that connects and writes all its request.
abbrev pub short_run : Run
short_run = record {
  calloc = true;
  resolve = λ i. reachable;
  epoll_create = pos 3;
  rounds = writing_round ∷ (writing_round ∷ []);
}

abbrev pub results : Finished
results = record {
  totals = record { failed = 0; speed = 0; bytes = 0 };
  released = close (pos 8) ∷ [];
  ctx_freed = false;
}

short_run-results : bench_epoll short_run args body ≡ done (some results)
unfolding bench_epoll num_connections init_connections init_connection allocate_socket open_socket
    need_connect_proxy create_nonblocking_socket try_addresses run_rounds run_round
    setup_connection_to_epoll_instance setup_result register_from restart wait_and_handle
    handle_reports handle_report handle_ready_connection dispatch ready_connecting ready_sending
    send_request wrote finish summarize release_all cleanup_connection
short_run-results = refl

bench_epoll-force_example : (results.totals.speed ≡ 0) × (results.totals.bytes ≡ 0)
bench_epoll-force_example =
    bench_epoll-force short_run args body results (omega arith) short_run-results

bench_epoll-totals_example :
    (n : ℕ) × (w : World) × (num_connections args.clients ≡ done n)
    × (run_rounds args (pos 3) (start short_run args body n) short_run.rounds ≡ done w)
    × (0 ≡ sum (λ c. c.failed) w.conns % two_32)
    × (0 ≡ sum (λ c. c.speed) w.conns % two_32)
    × (0 ≡ sum (λ c. c.bytes) w.conns % two_32)
bench_epoll-totals_example = bench_epoll-totals short_run args body results short_run-results

-- A round without an event.
abbrev quiet_rounds : List Round
quiet_rounds = quiet_round ∷ []

run_rounds-first_unreachable_example :
    run_rounds args
      (pos 3)
      (record { conns = over_one ∷ (connecting_one ∷ []); ctx = false })
      (quiet_round ∷ (quiet_round ∷ []))
    ≡ exit 1
run_rounds-first_unreachable_example =
    run_rounds-first_unreachable args (pos 3) over_one (connecting_one ∷ []) false quiet_round
      quiet_round [] [] (λ host port. refl) refl refl refl refl

-- The first round of the short run.
abbrev first_run : Run
first_run = record short_run { rounds = writing_round ∷ [] }

abbrev sending_one : World
sending_one = record {
  conns =
      record zero_connection {
        state = ConnState.sending;
        sockfd = pos 8;
        force_flag = 1;
        request = body;
        request_len = 5;
      }
      ∷ [];
  ctx = false;
}

first_run-done :
    run_rounds args (pos 3) (start first_run args body 1) first_run.rounds ≡ done sending_one
unfolding init_connections init_connection allocate_socket open_socket need_connect_proxy
    create_nonblocking_socket try_addresses run_rounds run_round setup_connection_to_epoll_instance
    setup_result register_from restart wait_and_handle handle_reports handle_report
    handle_ready_connection dispatch ready_connecting
first_run-done = refl

abbrev first_report : Report
first_report = record {
  index = 0;
  events = on_write;
  answers = record answers { send = count 5; recv = none };
}

first_report-About :
    About
      (Obeys args)
      (set_up args (pos 3) (start first_run args body 1) writing_round)
      first_report
unfolding init_connections init_connection allocate_socket open_socket need_connect_proxy
    create_nonblocking_socket try_addresses setup_connection_to_epoll_instance setup_result
    register_from restart
first_report-About c e =
    subst (λ d. Obeys args first_report.answers d) (some-injective _ c e)
      (record {
        send = omega arith;
        ssl_write = omega arith;
        recv = omega arith;
        ssl_read = omega arith;
      })

first_run-Obeys :
    RoundsObey (About (Obeys args)) args (pos 3) (start first_run args body 1) first_run.rounds
first_run-Obeys = (
  λ reports e.
      subst
        (λ rs.
          ReportsObey (About (Obeys args)) args (pos 3)
            (set_up args (pos 3) (start first_run args body 1) writing_round) rs)
        (some-injective (first_report ∷ []) reports e) (first_report-About, tt),
  λ w e. tt,
)

run_rounds-WellFormed_example : All (WellFormed args body) sending_one.conns
run_rounds-WellFormed_example =
    run_rounds-WellFormed first_run args body 1 sending_one (omega arith) first_run-Obeys
      first_run-done
