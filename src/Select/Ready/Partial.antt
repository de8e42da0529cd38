-- ===== src/Select/Ready/Partial.antt =====
-- src/bench_select.c: a CONNECT request of which the system takes a part.
use web_bench.Prelude.{
  ℕ, ◌<◌, ◌≡◌, refl, Bool, true, false, List, arith, length, take, ltb, ◌==◌, done,
}
use web_bench.Prelude.Int.{pos, is_nonneg}
use web_bench.Arguments.{Arguments}
use web_bench.Connection.{proxy_connect, proxy_response, Connection, Answers, count}
use web_bench.Epoll.Proxy.{connect_request}
use web_bench.Poll.Proxy.{is_port}
use web_bench.Select.Proxy.{send_proxy_connect, send_connect}
use web_bench.Select.Sets.{fd_isset}
use web_bench.Select.Ready.{ready_proxy_connect, dispatch, handle_ready_connection}

-- The hosts and ports of a tunnel.
pub record CanTunnel (args : Arguments) : Type 0 where
  pub proxy : (length args.proxy_host == 0) ≡ false
  pub target : (length args.target_host == 0) ≡ false
  pub proxy_port : is_port args.proxy_port ≡ true
  pub target_port : is_port args.target_port ≡ true

-- When `send` takes `n` bytes of the CONNECT request, 1 or more, the connection goes on to wait for the proxy's answer whatever `n` is: only the first `n` bytes have gone out, and nothing in the connection remembers how many, so the rest is never sent.
pub handle_ready_connection-partial_connect :
    (args : Arguments) (a : Answers) (ctx : Bool) (c : Connection) (read write : List ℕ) (n : ℕ)
    → CanTunnel args
    → c.state ≡ proxy_connect
    → is_nonneg c.sockfd ≡ true
    → fd_isset c.sockfd write ≡ true
    → a.send ≡ count n
    → 0 < n
    → handle_ready_connection args a ctx c read write
      ≡ done (record {
        conn = record c { state = proxy_response };
        ctx = ctx;
        ret = pos 0;
        out = take n (connect_request args.target_host args.target_port);
      })
unfolding handle_ready_connection dispatch ready_proxy_connect send_proxy_connect send_connect
handle_ready_connection-partial_connect args a ctx c read write n t s o w e p =
    let more : ltb 0 n ≡ true = ground arith in
    simp (s, w, e, more, o, t.proxy, t.target, t.proxy_port, t.target_port) refl
