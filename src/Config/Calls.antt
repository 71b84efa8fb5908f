-- ===== src/Config/Calls.antt =====
-- What the calls of a set-up (src/Server.cpp, src/Client.cpp) must come to, whatever their order is.
use web_socket_sh.Prelude.{ℕ, ◌≡◌, List, [], ◌∷◌, ◌++◌, ◌⊎◌, All}
use web_socket_sh.Config.{
  SetupCall, init_asio, start_perpetual, on_message, on_close, on_open, on_fail, listen, run,
}

-- A call after which nothing is served yet.
abbrev pub IsQuiet : SetupCall → Type 0
IsQuiet (listen port) = ⊥
IsQuiet run = ⊥
IsQuiet _ = Unit {0}

abbrev pub IsAmong : SetupCall → List SetupCall → Type 0
IsAmong call [] = ⊥
IsAmong call (other ∷ calls) = (call ≡ other) ⊎ IsAmong call calls

-- The calls that a connection needs, on either side.
abbrev pub connection_calls : List SetupCall
connection_calls = init_asio ∷ start_perpetual ∷ on_message ∷ on_close ∷ on_open ∷ on_fail ∷ []

-- The last two calls listen on the port and run; before them nothing listens or runs, and each of
-- the calls that are needed has been made.
pub record Serves (port : ℕ) (needed calls : List SetupCall) : Type 0 where
  pub before : List SetupCall
  pub in_order : calls ≡ before ++ listen port ∷ run ∷ []
  pub quiet : All IsQuiet before
  pub complete : All (λ call. IsAmong call before) needed

-- The same for a client, which does not listen.
pub record Runs (needed calls : List SetupCall) : Type 0 where
  pub before : List SetupCall
  pub in_order : calls ≡ before ++ run ∷ []
  pub quiet : All IsQuiet before
  pub complete : All (λ call. IsAmong call before) needed
