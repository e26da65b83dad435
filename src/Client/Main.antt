-- ===== src/Client/Main.antt =====
-- main of src/trader_client.c and src/market_data_client.c: from the command line to the loop.
pub mod Exit
use the_socket_exchange.Prelude.{
  ℕ, ◌+◌, ◌≤◌, ◌<◌, ◌≡◌, refl, Bool, true, false, not, List, [], ◌∷◌, ◌++◌, Option, none, some,
  codes, line_feed, leb, ◌==◌, if◌then◌else◌, length, get_elem?,
}
use the_socket_exchange.Port.{parse_port, text_of}
use the_socket_exchange.Output.{WriteAnswer}
use the_socket_exchange.Client.{Client, buffer_size, show, Polls, write_all, communicate}

-- What the two programs differ in: the command that they send first, and its name.
pub record Program : Type 0 where
  pub command : List ℕ

abbrev pub trader_program : Program
trader_program = record { command = codes "LOGIN" }

abbrev pub market_program : Program
market_program = record { command = codes "SUBSCRIBE" }

-- The answers of signal, socket, inet_pton and connect.
pub record Network : Type 0 where
  pub signal : Bool
  pub socket : Bool
  pub inet_pton : List ℕ → Bool
  pub connect : List ℕ → ℕ → Bool

-- The globals before main.
abbrev pub new_client : Client
new_client = record {
  inbuf = [];
  discarding = false;
  recvbuf = [];
  half_closed = false;
  calls = 0;
  sent = [];
  shown = [];
}

-- A run of main: the client, whether the socket was opened and closed, and the exit code if main
-- has returned.
pub record Run : Type 0 where
  pub client : Client
  pub opened : Bool
  pub closed : Bool
  pub code : Option ℕ

abbrev pub server_ip : List ℕ
server_ip = codes "127.0.0.1"

abbrev pub host_of : Option (List ℕ) → List ℕ
host_of none = server_ip
host_of (some host) = host

-- What snprintf writes of the first command, if its buffer is large enough.
abbrev pub greeting : Program → List ℕ → List ℕ
greeting program arg = program.command ++ (codes " " ++ (arg ++ line_feed ∷ []))

-- A return before the socket is opened, and after.
abbrev pub exits : List ℕ → Client → Run
exits message c = record { client = show message c; opened = false; closed = false; code = some 1 }

abbrev pub gives_up : List ℕ → Client → Run
gives_up message c = record { client = show message c; opened = true; closed = true; code = some 1 }

-- The end of main, when communicate has returned or still waits.
abbrev pub leaves : Client × Bool → Run
leaves (c, true) = record { client = c; opened = true; closed = true; code = some 0 }
leaves (c, false) = record { client = c; opened = true; closed = false; code = none }

module _ (program : Program) (write : ℕ → List ℕ → WriteAnswer) (polls : Polls) where
  -- After the first command.
  abbrev pub greeted : Client × Bool → Run
  greeted (c, true) = leaves (communicate write polls c)
  greeted (c, false) = gives_up (codes "Failed to send " ++ program.command) c

  -- The connection stands; `arg` is the user name or the instrument, if there is one.
  unfoldable pub with_connection : Option (List ℕ) → Client → Run
  unfolding communicate write_all
  with_connection none c = leaves (communicate write polls c)
  with_connection (some arg) c =
      if leb buffer_size (length (greeting program arg))
      then greeted (c, false)
      else greeted (write_all write c (greeting program arg))

  unfoldable pub with_port : Network → List (List ℕ) → Option ℕ → Run
  unfolding with_connection
  with_port net args none = exits (codes "Invalid port: " ++ text_of (get_elem? args 1)) new_client
  with_port net args (some port) =
      if not net.socket
      then exits (codes "Failed to create socket") new_client
      else if not (net.inet_pton (host_of (get_elem? args 0)))
      then gives_up (codes "Invalid server address: " ++ host_of (get_elem? args 0)) new_client
      else if not (net.connect (host_of (get_elem? args 0)) port)
      then gives_up (codes "Failed to connect to server") new_client
      else with_connection (get_elem? args 2) new_client

  -- main, at the arguments after the program's name.
  unfoldable pub client_main : Network → List (List ℕ) → Run
  unfolding with_port parse_port
  client_main net args =
      if not net.signal
      then exits (codes "Failed to ignore SIGPIPE") new_client
      else with_port net args (parse_port (get_elem? args 1))
