-- ===== src/Epoll/Tls.antt =====
-- src/bench_epoll.c: `get_global_ssl_ctx` and `setup_ssl_context`. The static `global_ssl_ctx` is
-- explicit: it says whether the pointer is set.
use web_bench.Prelude.{Bool, true, if◌then◌else◌}
use web_bench.Prelude.Int.{pos, minus_one}
use web_bench.Connection.{Connection, Answers, Handled, handled}

-- The context after the call is also its result.
unfoldable pub get_global_ssl_ctx : Answers → Bool → Bool
get_global_ssl_ctx a ctx = if ctx then true else a.ctx_new

unfoldable pub setup_ssl_context : Answers → Bool → Connection → Handled
unfolding get_global_ssl_ctx
setup_ssl_context a ctx conn =
    let ctx' = get_global_ssl_ctx a ctx in
    let with_context = record conn { ssl_context = ctx' } in
    let with_ssl = record with_context { ssl = a.ssl_new } in
    if ctx'
    then (if a.ssl_new
        then (if a.ssl_set_fd
            then handled with_ssl ctx' (pos 1)
            else handled with_ssl ctx' minus_one)
        else handled with_ssl ctx' minus_one)
    else handled with_context ctx' minus_one
