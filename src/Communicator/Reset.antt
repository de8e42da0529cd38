-- ===== src/Communicator/Reset.antt =====
-- src/communicator.c: a failed `recv` of the response over HTTP.
use web_bench.Prelude.{ℕ, Option, none, some, List, [], ◌∷◌, ◌++◌, map}
use web_bench.Arguments.{Arguments}
use web_bench.Communicator.Talk.{Calls}

-- The calls of `recv` bring the blocks, then come the answers `rest`.
abbrev pub then_comes : Calls → List (List ℕ) → List (Option (List ℕ)) → Calls
then_comes calls blocks rest = record calls { recvs = map some blocks ++ rest }

module _ (rest : List (Option (List ℕ))) where
  module _ (calls : Calls) (blocks : List (List ℕ)) where
    abbrev pub after_error : Calls
    after_error = then_comes calls blocks (none ∷ rest)

    abbrev pub after_end : Calls
    after_end = then_comes calls blocks (some [] ∷ rest)
