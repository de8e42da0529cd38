-- ===== src/Tests/Selecting.antt =====
-- src/bench_select.c: rounds of the select loop at concrete answers of the system.
use web_bench.Prelude.{
  ℕ, ◌+◌, ◌≡◌, refl, true, false, none, some, List, [], ◌∷◌, arith, done, fault,
}
use web_bench.Prelude.Int.{pos, minus_one}
use web_bench.CString.{codes, strstr, cut_nul}
use web_bench.Arguments.{Arguments}
use web_bench.Connection.{ConnState, Connection, Answers, Handled, count, again, fatal}
use web_bench.Epoll.Socket.{Resolver, close, zero_connection, cleanup_connection}
use web_bench.Epoll.Bench.{summarize}
use web_bench.Epoll.Ready.{has_header_end}
use web_bench.Epoll.WellFormed.{WellFormed, Obeys}
use web_bench.Poll.Ready as Poll
use web_bench.Poll.Ready.Same.{SameEffect}
use web_bench.Poll.Socket.{init_connection}
use web_bench.Select.Proxy.{need_connect_proxy}
use web_bench.Select.Socket.{allocate_socket, open_socket, create_nonblocking_socket, try_addresses}
use web_bench.Select.Sets.{
  FdSets, fd_set, fd_isset, set_read, set_write, setup_state, setup_connection_fdsets,
}
use web_bench.Select.Ready.{
  handle_ready_connection, dispatch, ready_connecting, ready_sending, send_request, wrote,
  ready_receiving, recv_response, got_bytes, events_of,
}
use web_bench.Select.Ready.Plain.{handle_ready_connection-plain}
use web_bench.Select.Bench.{
  restart, setup_all, ready, Round, Run, still, handle_from, select_and_handle, run_round,
  run_rounds, init_connections, release_all, Finished, finish, bench_with, bench_select,
}
use web_bench.Select.Bench.Limits.{Settles, all_have_place, setup_all-Settles}

abbrev args : Arguments
args = record {
  clients = pos 2;
  force = 0;
  force_reload = 0;
  proxy_host = [];
  proxy_port = pos 80;
  target_host = codes "ab";
  target_port = pos 80;
  bench_time = pos 30;
  protocol = 0;
  http10 = 2;
  method = 0;
  url = codes "http://ab/";
}

abbrev body : List ℕ
body = codes "GET /"

abbrev answers : Answers
answers = record {
  ctl_del = true;
  getsockopt = pos 0;
  so_error = pos 0;
  ctx_new = true;
  ssl_new = true;
  ssl_set_fd = true;
  send = count 5;
  recv = some (codes "HTTP/1.1 200 OK\r\n\r\n");
  errno = again;
  ssl_connect = minus_one;
  ssl_write = count 0;
  ssl_read = none;
  ssl_error = fatal;
}

-- A connection that sends, and one that sends over a descriptor too great.
abbrev sends : Connection
sends = record zero_connection {
  state = ConnState.sending;
  sockfd = pos 4;
  request = body;
  request_len = 5;
}

abbrev beyond : Connection
beyond = record sends { sockfd = pos 1024 }

abbrev found : ℕ → Resolver
found i host port = some (record { socket = pos (i + 7); connects = true } ∷ [])

abbrev empty : FdSets
empty = record { read = []; write = []; max_fd = 0 }

setup_all-Settles_example :
    Settles
      (all_have_place (sends ∷ (beyond ∷ [])))
      (setup_all found args 0 (sends ∷ (beyond ∷ [])) empty)
setup_all-Settles_example =
    setup_all-Settles found args 0 (sends ∷ (beyond ∷ [])) empty (refl, (refl, tt))

-- Two connections, and a descriptor of 1024.
written_behind : setup_all found args 0 (sends ∷ (beyond ∷ [])) empty ≡ fault
unfolding setup_all restart setup_connection_fdsets setup_state set_write fd_set
written_behind = refl

sends-WellFormed : WellFormed args body sends
sends-WellFormed = record {
  request = refl;
  request_len = refl;
  short = omega arith;
  secure = refl;
  force = refl;
  received = omega arith;
  response = refl;
  sent = omega arith;
  tls = refl;
  socket = refl;
}

answers-Obeys : Obeys args answers sends
answers-Obeys = record {
  send = omega arith;
  ssl_write = omega arith;
  recv = omega arith;
  ssl_read = omega arith;
}

handle_ready_connection-plain_example :
    (h : Handled) × (handle_ready_connection args answers false sends [] (4 ∷ []) ≡ done h)
    × SameEffect h
        (Poll.handle_ready_connection args answers false sends (events_of [] (4 ∷ []) (pos 4)))
handle_ready_connection-plain_example =
    handle_ready_connection-plain args body answers false sends sends-WellFormed answers-Obeys []
      (4 ∷ []) refl (omega arith) refl

-- Three rounds connect, send and receive: two responses of 19 bytes.
abbrev round : Round
round = record { resolve = found; select = ready (λ fd. true) (λ fd. true); answers = λ i. answers }

abbrev run : Run
run = record { malloc = true; resolve = found; rounds = round ∷ (round ∷ (round ∷ [])) }

abbrev two_responses : Finished
two_responses = record {
  totals = record { failed = 0; speed = 2; bytes = 38 };
  released = close (pos 7) ∷ (close (pos 8) ∷ []);
  ctx_freed = false;
}

two_selected : bench_select run args body ≡ done (some two_responses)
unfolding bench_select bench_with init_connections allocate_socket open_socket need_connect_proxy
    create_nonblocking_socket try_addresses init_connection run_rounds run_round setup_all restart
    setup_connection_fdsets setup_state set_read set_write fd_set select_and_handle still
    handle_from handle_ready_connection fd_isset dispatch ready_connecting ready_sending
    send_request wrote ready_receiving recv_response got_bytes has_header_end strstr cut_nul finish
    summarize release_all cleanup_connection
two_selected = refl
