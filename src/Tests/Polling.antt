-- ===== src/Tests/Polling.antt =====
-- src/bench_poll.c: rounds of the poll loop at concrete answers of the system.
use web_bench.Prelude.{
  ℕ, ◌≡◌, refl, true, false, none, some, List, [], ◌∷◌, length, arith, done, ◌++◌, replicate,
}
use web_bench.Prelude.Int.{pos, minus_one}
use web_bench.CString.{codes, strstr, cut_nul}
use web_bench.Arguments.{Arguments}
use web_bench.Connection.{
  idle, connecting, sending, receiving, completed, tls_handshake, Connection, Answers, Events,
  count, again, fatal,
}
use web_bench.Epoll.Socket.{Resolver, close, try_addresses}
use web_bench.Epoll.Bench.{World, summarize}
use web_bench.Epoll.Ready as Epoll
use web_bench.Epoll.Ready.{send_request, wrote, read_socket, got_bytes, has_header_end}
use web_bench.Poll.Proxy.{need_connect_proxy}
use web_bench.Poll.Socket.{
  init_connection, allocate_socket, open_socket, create_nonblocking_socket, cleanup_connection,
}
use web_bench.Poll.Ready.{
  handle_ready_connection, dispatch, ready_connecting, ready_sending, ready_receiving,
}
use web_bench.Poll.Ready.Same.{SameEffect, handle_ready_connection-SameEffect}
use web_bench.Bitmap.{set_bitmap, get_bitmap}
use web_bench.Poll.Setup.{SetupResult, PollFd, setup_from, setup_result, setup_connection_fdsets}
use web_bench.Poll.Setup.Spec.{clear}
use web_bench.Epoll.WellFormed.{WellFormed}
use web_bench.Poll.Bench.{
  ready, Finished, Round, continue, run_round, run_rounds, Run, finish, bench_poll,
  connection_count, bench_with, bitmap_size, init_connections, poll_and_handle, handle_from,
  release_all,
}
use web_bench.Poll.Bench.Each.{poll_each}
use web_bench.Poll.Bench.Rounds.{run_round-each}
use web_bench.Poll.Bench.Returns.{bench_poll-returns}

abbrev args : Arguments
args = record {
  clients = pos 2;
  force = 0;
  force_reload = 0;
  proxy_host = [];
  proxy_port = pos 80;
  target_host = codes "ab";
  target_port = pos 80;
  bench_time = pos 30;
  protocol = 0;
  http10 = 2;
  method = 0;
  url = codes "http://ab/";
}

abbrev body : List ℕ
body = codes "GET /"

abbrev answers : Answers
answers = record {
  ctl_del = true;
  getsockopt = pos 0;
  so_error = pos 0;
  ctx_new = true;
  ssl_new = true;
  ssl_set_fd = true;
  send = count 5;
  recv = some (codes "HTTP/1.1 200 OK\r\n\r\n");
  errno = again;
  ssl_connect = minus_one;
  ssl_write = count 0;
  ssl_read = none;
  ssl_error = fatal;
}

abbrev fresh : Connection
fresh = record {
  state = idle;
  sockfd = minus_one;
  ssl_context = false;
  ssl = false;
  is_https = false;
  request = body;
  response = [];
  request_len = 5;
  force_flag = 0;
  bytes_sent = 0;
  bytes_received = 0;
  speed = 0;
  failed = 0;
  bytes = 0;
}

-- One connection waits for its response, one is over and one sends.
abbrev waits : Connection
waits = record fresh { state = receiving; sockfd = pos 4 }

abbrev over : Connection
over = record fresh { state = completed; sockfd = pos 5; speed = 1 }

abbrev sends : Connection
sends = record fresh { state = sending; sockfd = pos 6 }

abbrev found : ℕ → Resolver
found i host port = some (record { socket = pos 7; connects = true } ∷ [])

abbrev all_events : PollFd → Events
all_events entry = record { readable = true; writable = true; broken = false }

abbrev round : Round
round = record { resolve = found; poll = ready all_events; answers = λ i. answers }

two_fit : clear 0 (waits ∷ (over ∷ (sends ∷ []))) ≡ true
unfolding clear
two_fit = refl

run_round-each_example :
    run_round args 1 (record { conns = waits ∷ (over ∷ (sends ∷ [])); ctx = false }) round
    ≡ done (
        continue
          (poll_each found args all_events (λ i. answers) 0 false (waits ∷ (over ∷ (sends ∷ [])))))
run_round-each_example =
    run_round-each args 1 waits (over ∷ (sends ∷ [])) false round (omega arith) (omega arith) refl
      all_events two_fit refl

abbrev run : Run
run = record { malloc = true; resolve = found; rounds = round ∷ (round ∷ []) }

bench_poll-returns_example :
    (w : World) × (bench_poll run args body ≡ done (some (finish args w)))
    × (length w.conns ≡ connection_count 2)
bench_poll-returns_example = bench_poll-returns run args body 2 refl (omega arith) refl

-- 64 connections and a handshake behind them.
handshake_refused :
    clear 0 (replicate 64 waits ++ (record fresh { state = tls_handshake } ∷ [])) ≡ false
unfolding clear
handshake_refused = refl

handle_ready_connection-SameEffect_example :
    SameEffect
      (handle_ready_connection args answers false waits
        (all_events (record { fd = pos 4; events = record { readable = true; writable = false } })))
      (Epoll.handle_ready_connection args answers false waits
        (all_events (record { fd = pos 4; events = record { readable = true; writable = false } }))
        (pos 3))
handle_ready_connection-SameEffect_example =
    handle_ready_connection-SameEffect args answers false waits
      (all_events (record { fd = pos 4; events = record { readable = true; writable = false } }))
      (λ e. cc) (λ e. cc) refl (pos 3) refl refl (λ e. cc)

-- Three rounds connect, send and receive: two responses of 19 bytes.
abbrev three_rounds : Run
three_rounds = record run { rounds = round ∷ (round ∷ (round ∷ [])) }

abbrev two_responses : Finished
two_responses = record {
  totals = record { failed = 0; speed = 2; bytes = 38 };
  released = close (pos 7) ∷ (close (pos 7) ∷ []);
  ctx_freed = false;
}

two_clients : bench_poll three_rounds args body ≡ done (some two_responses)
unfolding bench_poll bench_with bitmap_size init_connections allocate_socket open_socket
    create_nonblocking_socket try_addresses init_connection need_connect_proxy run_rounds run_round
    setup_connection_fdsets setup_from setup_result set_bitmap get_bitmap poll_and_handle
    handle_from handle_ready_connection dispatch ready_connecting ready_sending ready_receiving
    Epoll.ready_sending Epoll.ready_receiving send_request wrote read_socket got_bytes
    has_header_end strstr cut_nul finish summarize release_all cleanup_connection
two_clients = refl

-- A run of one round, in which both connections connect.
abbrev one_round : Run
one_round = record run { rounds = round ∷ [] }

abbrev joined : Connection
joined = record fresh { state = connecting; sockfd = pos 7 }

abbrev first_set : SetupResult
first_set = record {
  conns = joined ∷ (joined ∷ []);
  polled =
      record { fd = pos 7; events = record { readable = false; writable = true } }
      ∷ (record { fd = pos 7; events = record { readable = false; writable = true } } ∷ []);
  bitmap = 192 ∷ [];
  count = pos 2;
}
