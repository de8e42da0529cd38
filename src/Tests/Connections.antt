-- ===== src/Tests/Connections.antt =====
-- src/bench_epoll.c: connections at concrete events.
use web_bench.Prelude.{ℕ, ◌≡◌, refl, true, false, none, List, [], ◌∷◌, arith, take, replicate}
use web_bench.Prelude.Int.{pos, minus_one, add_int}
use web_bench.CString.{codes}
use web_bench.Arguments.{Arguments}
use web_bench.Connection.{
  ConnState, sending, receiving, completed, Connection, Answers, Events, count, again, fatal,
}
use web_bench.Epoll.Socket.{zero_connection}
use web_bench.Epoll.Ready.{handle_ready_connection, dispatch, ready_sending, send_request, wrote}
use web_bench.Epoll.Ready.Edges.{Edge, handle_ready_connection-Edge}
use web_bench.Epoll.Ready.Counters.{Counted, handle_ready_connection-Counted}
use web_bench.Epoll.Ready.Wire.{run_events, run_events-body, is_sent, AllObey}
use web_bench.Epoll.Ready.Progress.{receiving-completes, AllFeed}
use web_bench.Epoll.WellFormed.{WellFormed, Obeys}
use web_bench.Epoll.WellFormed.Handler.{handle_ready_connection-WellFormed}

abbrev args : Arguments
args = record {
  clients = pos 1;
  force = 0;
  force_reload = 0;
  proxy_host = [];
  proxy_port = pos 80;
  target_host = codes "ab";
  target_port = pos 80;
  bench_time = pos 30;
  protocol = 0;
  http10 = 2;
  method = 0;
  url = codes "http://ab/";
}

abbrev body : List ℕ
body = codes "GET /"

-- A connection in the sending state, and one with a receive buffer of which one byte is left.
abbrev writer : Connection
writer = record zero_connection {
  state = ConnState.sending;
  sockfd = pos 7;
  request = body;
  request_len = 5;
}

abbrev reader : Connection
reader = record writer {
  state = ConnState.receiving;
  bytes_sent = 5;
  response = replicate 8095 b'x';
  bytes_received = 8095;
}

-- The system takes 3 bytes, and has nothing to read.
abbrev takes_three : Answers
takes_three = record {
  ctl_del = true;
  getsockopt = pos 0;
  so_error = pos 0;
  ctx_new = false;
  ssl_new = false;
  ssl_set_fd = false;
  send = count 3;
  recv = none;
  errno = again;
  ssl_connect = minus_one;
  ssl_write = count 0;
  ssl_read = none;
  ssl_error = fatal;
}

abbrev takes_two : Answers
takes_two = record takes_three { send = count 2 }

abbrev takes_none : Answers
takes_none = record takes_three { send = count 0 }

abbrev on_write : Events
on_write = record { readable = false; writable = true; broken = false }

abbrev on_read : Events
on_read = record { readable = true; writable = false; broken = false }

writer-WellFormed : WellFormed args body writer
writer-WellFormed = record {
  request = refl;
  request_len = refl;
  short = omega arith;
  secure = refl;
  force = refl;
  received = omega arith;
  response = refl;
  sent = omega arith;
  tls = refl;
  socket = refl;
}

reader-WellFormed : WellFormed args body reader
reader-WellFormed = record {
  request = refl;
  request_len = refl;
  short = omega arith;
  secure = refl;
  force = refl;
  received = omega arith;
  response = refl;
  sent = omega arith;
  tls = refl;
  socket = refl;
}

takes_three-Obeys : Obeys args takes_three writer
takes_three-Obeys = record {
  send = omega arith;
  ssl_write = omega arith;
  recv = omega arith;
  ssl_read = omega arith;
}

handle_ready_connection-WellFormed_example :
    WellFormed args body
      (handle_ready_connection args takes_three false writer on_write (pos 3)).conn
handle_ready_connection-WellFormed_example =
    handle_ready_connection-WellFormed args body takes_three false writer on_write (pos 3)
      writer-WellFormed takes_three-Obeys

handle_ready_connection-Edge_example :
    Edge false 0 sending
      (handle_ready_connection args takes_three false writer on_write (pos 3)).conn.state
handle_ready_connection-Edge_example =
    handle_ready_connection-Edge args takes_three false writer on_write (pos 3)

handle_ready_connection-Counted_example :
    Counted reader (handle_ready_connection args takes_three false reader on_read (pos 3))
handle_ready_connection-Counted_example =
    handle_ready_connection-Counted args takes_three false reader on_read (pos 3)

-- Five bytes go out in two pieces.
abbrev two_writes : List (Answers × Events)
two_writes = (takes_three, on_write) ∷ ((takes_two, on_write) ∷ [])

two_writes-AllObey : AllObey args (pos 3) false writer two_writes
unfolding handle_ready_connection dispatch ready_sending send_request wrote
two_writes-AllObey = (
  takes_three-Obeys,
  (
    record {
      send = omega arith;
      ssl_write = omega arith;
      recv = omega arith;
      ssl_read = omega arith;
    },
    tt,
  ),
)

run_events-body_example :
    ((run_events args (pos 3) false writer two_writes).out
      ≡ take (run_events args (pos 3) false writer two_writes).conn.bytes_sent body)
    × (is_sent (run_events args (pos 3) false writer two_writes).conn.state ≡ true
        → (run_events args (pos 3) false writer two_writes).out ≡ body)
run_events-body_example =
    run_events-body args body (pos 3) false writer two_writes writer-WellFormed two_writes-AllObey
      refl refl

two_writes-sent : (run_events args (pos 3) false writer two_writes).conn.state ≡ receiving
unfolding run_events handle_ready_connection dispatch ready_sending send_request wrote
two_writes-sent = refl

-- The last event of a reception: the buffer is full.
abbrev last_read : List (Answers × Events)
last_read = (takes_none, on_read) ∷ []

last_read-AllObey : AllObey args (pos 3) false reader last_read
last_read-AllObey = (
  record {
    send = omega arith;
    ssl_write = omega arith;
    recv = omega arith;
    ssl_read = omega arith;
  },
  tt,
)

last_read-AllFeed : AllFeed args (pos 3) false reader last_read
last_read-AllFeed = (
  record {
    valid = refl;
    removed = refl;
    intact = refl;
    readable = refl;
    data_ready = λ h. absurd (omega arith);
  },
  tt,
)

receiving-completes_example :
    ((run_events args (pos 3) false reader last_read).conn.state ≡ completed)
    × ((run_events args (pos 3) false reader last_read).conn.speed ≡ add_int 0 1)
receiving-completes_example =
    receiving-completes args body (pos 3) false reader last_read reader-WellFormed last_read-AllObey
      last_read-AllFeed refl (omega arith)
