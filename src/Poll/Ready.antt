-- ===== src/Poll/Ready.antt =====
-- src/bench_poll.c: `handle_ready_connection`, one function for each case of its switch.
--
-- `broken` stands for POLLERR, POLLHUP or POLLNVAL among the events.
pub mod Same
use web_bench.Prelude.{Bool, ◌&&◌, ◌||◌, if◌then◌else◌}
use web_bench.Prelude.Int.{pos, minus_one, is_zero, is_positive, equals}
use web_bench.Arguments.{Arguments}
use web_bench.Connection.{
  ConnState, idle, connecting, proxy_connect, proxy_response, tls_handshake, sending, receiving,
  completed, error, Connection, Answers, Events, Handled, handled, fail,
}
use web_bench.Epoll.Ready as Copied
use web_bench.Epoll.Ready.{start_tls, after_response, wants_retry}
use web_bench.Poll.Proxy.{need_connect_proxy, send_proxy_connect, handle_proxy_response}

unfoldable pub ready_connecting : Arguments → Answers → Bool → Connection → Events → Handled
ready_connecting args a ctx conn ev =
    if ev.writable
    then (if is_zero a.getsockopt && is_zero a.so_error
        then (if need_connect_proxy args && conn.is_https
            then handled (record conn { state = proxy_connect }) ctx (pos 0)
            else if conn.is_https
            then start_tls a ctx conn
            else handled (record conn { state = sending }) ctx (pos 0))
        else handled (fail conn) ctx minus_one)
    else handled conn ctx (pos 0)

unfoldable pub ready_proxy_connect : Arguments → Answers → Bool → Connection → Events → Handled
ready_proxy_connect args a ctx conn ev =
    let sent = send_proxy_connect a ctx conn args in
    if ev.writable
    then (if is_positive sent.ret
        then record sent { conn = record (sent.conn) { state = proxy_response }; ret = pos 0 }
        else if is_zero sent.ret
        then record sent { ret = pos 0 }
        else record sent { conn = fail sent.conn; ret = minus_one })
    else handled conn ctx (pos 0)

-- What follows the answer of the proxy is that of bench_epoll.c.
unfoldable pub ready_proxy_response : Answers → Bool → Connection → Events → Handled
ready_proxy_response a ctx conn ev =
    if ev.readable
    then after_response a (handle_proxy_response a ctx conn)
    else handled conn ctx (pos 0)

unfoldable pub ready_tls_handshake : Answers → Bool → Connection → Events → Handled
ready_tls_handshake a ctx conn ev =
    if conn.ssl && (ev.readable || ev.writable)
    then (if equals 1 a.ssl_connect
        then handled (record conn { state = sending }) ctx (pos 0)
        else if wants_retry a.ssl_error
        then handled conn ctx (pos 0)
        else handled (fail conn) ctx minus_one)
    else handled conn ctx (pos 0)

-- These two cases are those of bench_epoll.c.
unfoldable pub ready_sending : Answers → Bool → Connection → Events → Handled
ready_sending a ctx conn ev = Copied.ready_sending a ctx conn ev

unfoldable pub ready_receiving : Answers → Bool → Connection → Events → Handled
ready_receiving a ctx conn ev = Copied.ready_receiving a ctx conn ev

-- The switch on the state.
unfoldable pub dispatch : ConnState → Arguments → Answers → Bool → Connection → Events → Handled
dispatch connecting args a ctx conn ev = ready_connecting args a ctx conn ev
dispatch proxy_connect args a ctx conn ev = ready_proxy_connect args a ctx conn ev
dispatch proxy_response args a ctx conn ev = ready_proxy_response a ctx conn ev
dispatch tls_handshake args a ctx conn ev = ready_tls_handshake a ctx conn ev
dispatch sending args a ctx conn ev = ready_sending a ctx conn ev
dispatch receiving args a ctx conn ev = ready_receiving a ctx conn ev
dispatch idle args a ctx conn ev = handled conn ctx (pos 0)
dispatch completed args a ctx conn ev = handled conn ctx (pos 0)
dispatch error args a ctx conn ev = handled conn ctx (pos 0)

unfoldable pub handle_ready_connection : Arguments → Answers → Bool → Connection → Events → Handled
handle_ready_connection args a ctx conn ev =
    if ev.broken then handled (fail conn) ctx minus_one else dispatch conn.state args a ctx conn ev
