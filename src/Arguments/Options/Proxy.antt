-- ===== src/Arguments/Options/Proxy.antt =====
-- src/arguments.c: the forms of `--proxy`, and the numbers that `--clients` and `--time` take.
use web_bench.Prelude.{
  ℕ, ◌+◌, ◌*◌, ◌-◌, ◌<◌, ◌≡◌, refl, ◌∙◌, false, List, [], ◌∷◌, ◌++◌, ◌==◌, inr, length, arith, done,
  take_all, take_left, length-append,
}
use web_bench.Prelude.Int.{pos, int_of_long, two_31, two_32, two_63}
use web_bench.Prelude.Digits.{print_nat, print_nat-IsDigit, print_nat_pos, length-print_nat}
use web_bench.CString.{codes, snprintf}
use web_bench.CString.Laws.{Lacks, strrchr-none, strrchr_last, digits-Lacks, strtol-print_nat}
use web_bench.Arguments.{host_name_len}
use web_bench.Arguments.Url.Target.{drop_left_suc}
use web_bench.Arguments.Options.{
  Parse, positive_number, set_proxy, set_proxy_host, set_proxy_port, with_proxy, set_clients,
  set_time,
}

-- A number that `strtol` reads is stored by a cast to `int`.
pub positive_number-print_nat :
    (n : ℕ) → 0 < n → n < two_63 → positive_number (print_nat n) ≡ done (int_of_long (pos n))
unfolding positive_number
positive_number-print_nat n p h =
    let some_digits = print_nat_pos n in rw (strtol-print_nat n h) (ground arith)

-- `--clients` and `--time` check the sign of the `long` that they read and not that of the `int` they keep: the print of any multiple of 2 ^ 32 that a `long` holds is accepted, and leaves 0 clients, or a run of 0 seconds.
pub set_clients_wraps :
    (p : Parse) (k : ℕ)
    → 0 < k
    → k * two_32 < two_63
    → (set_clients p (print_nat (k * two_32))
        ≡ done (record { args = record (p.args) { clients = pos 0 }; errno = 0 }))
      × (set_time p (print_nat (k * two_32))
          ≡ done (record { args = record (p.args) { bench_time = pos 0 }; errno = 0 }))
unfolding set_clients set_time
set_clients_wraps p k h b =
    let zero_int : int_of_long (pos (k * two_32)) ≡ pos 0 = ground arith in
    (
      rw (positive_number-print_nat (k * two_32) (omega arith) b, zero_int) refl,
      rw (positive_number-print_nat (k * two_32) (omega arith) b, zero_int) refl,
    )

snprintf_fits : (s : List ℕ) → length s < host_name_len → snprintf host_name_len s ≡ s
unfolding snprintf
snprintf_fits s h = take_all (host_name_len - 1) s (omega arith)

module _ (p : Parse) (host : List ℕ) where
  -- no colon
  set_proxy-host :
      length host < host_name_len
      → Lacks b':' host
      → set_proxy p host ≡ done (record p { args = with_proxy p.args host (pos 80) })
  unfolding set_proxy set_proxy_host
  set_proxy-host h c = rw (snprintf_fits host h, strrchr-none host b':' c) refl

  set_proxy-last :
      (t : List ℕ)
      → length (host ++ (b':' ∷ t)) < host_name_len
      → Lacks b':' t
      → set_proxy p (host ++ (b':' ∷ t)) ≡ set_proxy_port p (host ++ (b':' ∷ t)) (length host)
  unfolding set_proxy set_proxy_host
  set_proxy-last t h c = rw (snprintf_fits _ h, strrchr_last host t b':' c) refl

  set_proxy_port-empty :
      set_proxy_port p (host ++ (b':' ∷ [])) (length host)
      ≡ done (record p { args = with_proxy p.args host (pos 80) })
  unfolding set_proxy_port
  set_proxy_port-empty =
      let long = length-append host (b':' ∷ []) in
      let copied = take_left host (b':' ∷ []) in ground arith

  set_proxy_port-number :
      (n : ℕ)
      → 0 < n
      → n < two_31
      → 0 < length host
      → set_proxy_port p (host ++ (b':' ∷ print_nat n)) (length host)
        ≡ done (record { args = with_proxy p.args host (pos n); errno = 0 })
  unfolding set_proxy_port
  set_proxy_port-number n pn h nonempty =
      let long = length-append host (b':' ∷ print_nat n) in
      let copied = take_left host (b':' ∷ print_nat n) in
      let digits = print_nat_pos n in
      let test : (length host == length (host ++ (b':' ∷ print_nat n)) - 1) ≡ false =
        ground arith in
      let first : (length host == 0) ≡ false = ground arith in
      let small : int_of_long (pos n) ≡ pos n = ground arith in
      rw
        (
          test,
          drop_left_suc host (print_nat n) b':',
          positive_number-print_nat n pn (omega arith),
          first,
          copied,
          small,
        )
        refl

no_host_number :
    (p : Parse) (n : ℕ)
    → 0 < n
    → n < two_31
    → set_proxy_port p (b':' ∷ print_nat n) 0
      ≡ done (record { args = with_proxy p.args (codes "127.0.0.1") (pos n); errno = 0 })
unfolding set_proxy_port snprintf
no_host_number p n pn h =
    let digits = print_nat_pos n in
    let test : (0 == length (print_nat n)) ≡ false = ground arith in
    let last : length {A = ℕ} (b':' ∷ print_nat n) - 1 ≡ length (print_nat n) = omega arith in
    let small : int_of_long (pos n) ≡ pos n = ground arith in
    rw (last, test, positive_number-print_nat n pn (omega arith), small) refl

-- The forms of `--proxy`, for a host that is not empty, has no colon and leaves room for a port, and a port from 1 to 2147483647: `host` and `host:` give the host and port 80, `host:port` gives both, and `:port` gives 127.0.0.1 and the port. Only a port that is parsed clears `errno`.
pub set_proxy-forms :
    (p : Parse) (host : List ℕ) (n : ℕ)
    → 0 < length host
    → length host + 11 < host_name_len
    → Lacks b':' host
    → 0 < n
    → n < two_31
    → (set_proxy p host ≡ done (record p { args = with_proxy p.args host (pos 80) }))
      × (set_proxy p (host ++ (b':' ∷ []))
          ≡ done (record p { args = with_proxy p.args host (pos 80) }))
      × (set_proxy p (host ++ (b':' ∷ print_nat n))
          ≡ done (record { args = with_proxy p.args host (pos n); errno = 0 }))
      × (set_proxy p (b':' ∷ print_nat n)
          ≡ done (record { args = with_proxy p.args (codes "127.0.0.1") (pos n); errno = 0 }))
set_proxy-forms p host n nonempty room c pn h =
    let digits = length-print_nat 9 n (omega arith) in
    let no_colon = digits-Lacks (print_nat n) b':' (inr (omega arith)) (print_nat-IsDigit n) in
    (
      set_proxy-host p host (omega arith) c,
      set_proxy-last p host [] (omega (arith, length-append host (b':' ∷ []))) tt
          ∙ set_proxy_port-empty p host,
      set_proxy-last p host (print_nat n) (omega (arith, length-append host (b':' ∷ print_nat n)))
            no_colon
          ∙ set_proxy_port-number p host n pn h nonempty,
      set_proxy-last p [] (print_nat n) (omega arith) no_colon ∙ no_host_number p n pn h,
    )
