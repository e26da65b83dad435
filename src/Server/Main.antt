-- ===== src/Server/Main.antt =====
-- main of src/exchange_server.c: the set-up, the waiting for events, and the shutdown.
pub mod Exit
use the_socket_exchange.Prelude.{
  ℕ, zero, suc, Bool, true, false, List, [], ◌∷◌, ◌++◌, Option, none, some, codes, if◌then◌else◌,
  length, get_elem?, not,
}
use the_socket_exchange.Port.{parse_port, text_of}
use the_socket_exchange.Output.{ClientConnection, Env, Os}
use the_socket_exchange.Exchange.{slot}
use the_socket_exchange.Server.{Server, close_fd, remove_client, ServerEvent, serve, started}

-- What kevent returns, call by call: events; an interrupted call; another failure. `stopped` is
-- the loop's test after a signal, and `waits` a call that does not return.
pub data Waits : Type 0 where
  batch : List ServerEvent → Waits → Waits
  interrupted : Waits → Waits
  wait_failed stopped waits : Waits

-- The answers to the calls before the loop; the socket and the queue are descriptors.
pub record Setup : Type 0 where
  pub ignore_sigpipe : Bool
  pub install_shutdown : Bool
  pub socket : Option ℕ
  pub inet_pton : List ℕ → Bool
  pub setsockopt : Bool
  pub bind : Option (List ℕ) → ℕ → Bool
  pub listen : Bool
  pub kqueue : Option ℕ
  pub watch : Bool
  pub calloc_conns : Bool

-- A run of main that returns 1 with a message, one that still waits, or one that returns 0.
pub data Outcome : Type 0 where
  refused : List ℕ → Outcome
  serving : Server → Outcome
  finished : Server → Outcome

abbrev pub valid_host : Setup → Option (List ℕ) → Bool
valid_host setup none = true
valid_host setup (some host) = setup.inet_pton host

abbrev pub close_slot : ℕ → Server → Option ClientConnection → Server
close_slot i s none = s
close_slot i s (some conn) = remove_client i s

-- The loop over the slots after the main loop: `n` slots from number `i` on.
unfoldable pub close_slots : ℕ → ℕ → Server → Server
unfolding remove_client
close_slots zero i s = s
close_slots (suc n) i s = close_slots n (suc i) (close_slot i s (slot (s.exchange).conns i))

-- What main does once it has left its loop.
unfoldable pub shut_down : ℕ → ℕ → Server → Server
unfolding close_slots
shut_down server_fd kq s =
    close_fd kq (close_fd server_fd (close_slots (length (s.exchange).conns) 0 s))

module _ (env : Env) where
  unfoldable pub main_loop : ℕ → ℕ → Waits → Server → Outcome
  unfolding serve shut_down
  main_loop server_fd kq (batch events rest) s = main_loop server_fd kq rest (serve env events s)
  main_loop server_fd kq (interrupted rest) s = main_loop server_fd kq rest s
  main_loop server_fd kq wait_failed s = finished (shut_down server_fd kq s)
  main_loop server_fd kq stopped s = finished (shut_down server_fd kq s)
  main_loop server_fd kq waits s = serving s

  module _ (setup : Setup) (events : Waits) (os : Os) where
    unfoldable pub with_queue : ℕ → Option ℕ → Outcome
    unfolding main_loop started
    with_queue server_fd none = refused (codes "Failed to create kqueue instance")
    with_queue server_fd (some kq) =
        if not setup.watch
        then refused (codes "Failed to add server socket to kqueue")
        else if not setup.calloc_conns
        then refused (codes "Failed to allocate connection table")
        else main_loop server_fd kq events (started os)

    unfoldable pub with_socket : Option (List ℕ) → ℕ → Option ℕ → Outcome
    unfolding with_queue
    with_socket host port none = refused (codes "Failed to create socket")
    with_socket host port (some server_fd) =
        if not (valid_host setup host)
        then refused (codes "Invalid bind address: " ++ text_of host)
        else if not setup.setsockopt
        then refused (codes "Failed to set socket options")
        else if not (setup.bind host port)
        then refused (codes "Failed to bind socket")
        else if not setup.listen
        then refused (codes "Failed to listen on socket")
        else with_queue server_fd setup.kqueue

    unfoldable pub at_port : List (List ℕ) → Option ℕ → Outcome
    unfolding with_socket
    at_port args none = refused (codes "Invalid port: " ++ text_of (get_elem? args 1))
    at_port args (some port) = with_socket (get_elem? args 0) port setup.socket

    -- main, at the arguments after the program's name.
    unfoldable pub server_main : List (List ℕ) → Outcome
    unfolding at_port parse_port
    server_main args =
        if not setup.ignore_sigpipe
        then refused (codes "Failed to ignore SIGPIPE")
        else if not setup.install_shutdown
        then refused (codes "Failed to install shutdown handler")
        else at_port args (parse_port (get_elem? args 1))
