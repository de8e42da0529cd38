-- ===== src/Request/Version.antt =====
-- src/request.c: the HTTP version that a request ends up with.
use Prim.Native.Nat.{max}
use web_bench.Prelude.{ℕ, ◌≤◌, ◌≡◌, not, ◌&&◌, ◌||◌, ◌==◌, if◌then◌else◌, arith}
use web_bench.Arguments.{Arguments, method_head, method_options, method_trace}
use web_bench.Request.{adjust_version, has_proxy}

-- The least version that the settings need: 1.1 for OPTIONS and TRACE, 1.0 for HEAD and for a reload through a proxy.
abbrev pub least_version : Arguments → ℕ
least_version args =
    if args.method == method_options || args.method == method_trace
    then 2
    else if args.method == method_head || (not (args.force_reload == 0) && has_proxy args)
    then 1
    else 0

-- For any version from 0.9 to 1.1 that was asked for, the request has the greater of it and of the least version that the method and a reload through a proxy need, no other setting changes, and a second call changes nothing.
pub adjust_version-max :
    (args : Arguments)
    → args.http10 ≤ 2
    → (adjust_version args ≡ record args { http10 = max args.http10 (least_version args) })
      × (adjust_version (adjust_version args) ≡ adjust_version args)
unfolding adjust_version
adjust_version-max args h = ground arith
