-- ===== src/Poll/Setup/Spec.antt =====
-- src/bench_poll.c: the set-up of one round, seen connection by connection.
use web_bench.Prelude.{
  ℕ, suc, ◌≡◌, refl, Bool, true, false, not, ◌&&◌, ◌||◌, none, some, List, [], ◌∷◌, leb, ◌==◌,
  if◌then◌else◌,
}
use web_bench.Arguments.{Arguments}
use web_bench.Connection.{
  Connection, ConnState, idle, connecting, proxy_connect, proxy_response, tls_handshake, sending,
  receiving, completed, error,
}
use web_bench.Epoll.Socket.{Resolver}
use web_bench.Epoll.Setup.{Interest}
use web_bench.Poll.Setup.{PollFd, wanted, restart}

-- A handshake behind the bits of a pointer's size is refused by `set_bitmap`.
abbrev pub blocked : ℕ → ConnState → Bool
blocked i tls_handshake = leb 64 i
blocked i _ = false

abbrev pub is_wanted : ConnState → Bool
is_wanted s = elim (wanted s) [ none ↦ false | some events ↦ true ]

-- No handshake is refused, from index `i` on.
unfoldable pub clear : ℕ → List Connection → Bool
clear i [] = true
clear i (c ∷ cs) = not (blocked i c.state) && clear (suc i) cs

-- The connections that are over are restarted, up to the first handshake that is refused.
unfoldable pub after_setup : (ℕ → Resolver) → Arguments → ℕ → List Connection → List Connection
after_setup resolve args i [] = []
after_setup resolve args i (c ∷ cs) =
    let rest = after_setup resolve args (suc i) cs in
    if blocked i c.state then c ∷ cs else restart (resolve i) args c.state c ∷ rest

-- The entries of the array.
unfoldable pub entries_of : List Connection → List PollFd
entries_of [] = []
entries_of (c ∷ cs) = elim (wanted c.state) [
  | none ↦ entries_of cs
  | some events ↦ record { fd = c.sockfd; events = events } ∷ entries_of cs
]

-- The positions that are marked.
unfoldable pub marked : ℕ → List Connection → ℕ → Bool
marked i [] q = false
marked i (c ∷ cs) q = (is_wanted c.state && i == q) || marked (suc i) cs q

-- A state that is not polled is not refused.
pub unwanted_free : (i : ℕ) (s : ConnState) → wanted s ≡ none → blocked i s ≡ false
unwanted_free i tls_handshake h = cc
unwanted_free i idle h = refl
unwanted_free i connecting h = refl
unwanted_free i proxy_connect h = refl
unwanted_free i proxy_response h = refl
unwanted_free i sending h = refl
unwanted_free i receiving h = refl
unwanted_free i completed h = refl
unwanted_free i error h = refl

-- A connection that is polled is not restarted.
pub restart-wanted :
    (resolve : Resolver) (args : Arguments) (s : ConnState) (c : Connection) (events : Interest)
    → wanted s ≡ some events
    → restart resolve args s c ≡ c
unfolding restart
restart-wanted resolve args tls_handshake c events h = refl
restart-wanted resolve args idle c events h = refl
restart-wanted resolve args connecting c events h = refl
restart-wanted resolve args proxy_connect c events h = refl
restart-wanted resolve args proxy_response c events h = refl
restart-wanted resolve args sending c events h = refl
restart-wanted resolve args receiving c events h = refl
restart-wanted resolve args completed c events h = cc
restart-wanted resolve args error c events h = cc

module _ (resolve : ℕ → Resolver) (args : Arguments) (i : ℕ) (c : Connection)
    (cs : List Connection) where
  pub after_setup-wanted :
      (events : Interest)
      → wanted c.state ≡ some events
      → blocked i c.state ≡ false
      → after_setup resolve args i (c ∷ cs) ≡ c ∷ after_setup resolve args (suc i) cs
  unfolding after_setup
  after_setup-wanted events w free =
      rw (free, restart-wanted (resolve i) args c.state c events w) refl

  pub after_setup-unwanted :
      wanted c.state ≡ none
      → after_setup resolve args i (c ∷ cs)
        ≡ restart (resolve i) args c.state c ∷ after_setup resolve args (suc i) cs
  unfolding after_setup
  after_setup-unwanted w = rw (unwanted_free i c.state w) refl

pub entries_of-wanted :
    (c : Connection) (cs : List Connection) (events : Interest)
    → wanted c.state ≡ some events
    → entries_of (c ∷ cs) ≡ record { fd = c.sockfd; events = events } ∷ entries_of cs
unfolding entries_of
entries_of-wanted c cs events w = rw (w, entries_of) refl

pub entries_of-unwanted :
    (c : Connection) (cs : List Connection)
    → wanted c.state ≡ none
    → entries_of (c ∷ cs) ≡ entries_of cs
unfolding entries_of
entries_of-unwanted c cs w = rw (w, entries_of) refl
