-- ===== src/Main/Message.antt =====
-- src/webbench2.c: the message that a whole run sends.
use web_bench.Prelude.{ℕ, ◌≡◌, List, length, All}
use web_bench.Arguments.{Arguments}
use web_bench.Request.{adjust_version}
use web_bench.Request.Message.{print_message, message_of}
use web_bench.Connection.{Connection}
use web_bench.Epoll.Bench.{Run, World, Finished, finish}

-- The connection sends this request.
pub record Carries (body : List ℕ) (c : Connection) : Type 0 where
  pub request : c.request ≡ body
  pub request_len : c.request_len ≡ length body

-- What a run of the program comes to that was given the arguments `args`, with the final version.
pub record Benched (args : Arguments) (run : Run) (body : List ℕ) (f : Finished) : Type 0 where
  pub world : World
  pub carries : All (Carries body) world.conns
  pub finished : f ≡ finish args world

-- The message of the settings that the command line leaves.
abbrev pub request_of : Arguments → List ℕ
request_of args = print_message (message_of (adjust_version args))
