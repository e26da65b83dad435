-- ===== src/Server.antt =====
-- src/includes/server.c, removeClient of src/includes/io.c, and the loop over the events in
-- src/exchange_server.c: connections come, are served and go.
pub mod Events
pub mod Growth
pub mod Invariant
pub mod Ledger
pub mod Main
pub mod Owners
pub mod Removal
pub mod Shutdown
use the_socket_exchange.Prelude.{
  ℕ, zero, suc, ◌*◌, ◌-◌, pos, Bool, true, false, not, ◌&&◌, ◌||◌, List, [], ◌∷◌, ◌++◌, Option,
  none, some, leb, if◌then◌else◌, length, set, replicate,
}
use the_socket_exchange.Config.{min_capacity}
use the_socket_exchange.Book.{init_orderbook, detach_client_orders}
use the_socket_exchange.Output.{ClientConnection, undecided, Env, Os, flush_to_client}
use the_socket_exchange.Exchange.{Exchange, slot, on_self}
use the_socket_exchange.Framing.{Reads, communicate}

-- The exchange, and the descriptors that it has closed, oldest first.
pub record Server : Type 0 where
  pub exchange : Exchange
  pub closed : List ℕ

abbrev pub close_fd : ℕ → Server → Server
close_fd fd s = record s { closed = s.closed ++ fd ∷ [] }

abbrev pub put_slot : ℕ → Option ClientConnection → Server → Server
put_slot fd x s = record s {
  exchange = record (s.exchange) { conns = set (s.exchange).conns fd x };
}

-- The doubling of growConns; `fuel` bounds its rounds.
unfoldable pub grown_cap : ℕ → ℕ → ℕ → ℕ
grown_cap zero client_fd new_cap = new_cap
grown_cap (suc fuel) client_fd new_cap = elim (leb new_cap client_fd) [
  | true ↦ grown_cap fuel client_fd (new_cap * 2)
  | false ↦ new_cap
]

-- growConns: the table afterwards, and whether it has grown. `realloc` says whether that succeeds.
unfoldable pub grow_conns :
    Bool → ℕ → List (Option ClientConnection) → List (Option ClientConnection) × Bool
unfolding grown_cap
grow_conns realloc client_fd conns =
    if realloc
    then (
      conns ++ replicate (grown_cap client_fd client_fd (length conns) - length conns) none,
      true,
    )
    else (conns, false)

-- What calloc leaves, and the descriptor.
abbrev pub new_connection : ℕ → ClientConnection
new_connection client_fd = record {
  outbuf_allocated = false;
  outbuf = [];
  inbuf = [];
  scanned = 0;
  client_fd = client_fd;
  type = undecided;
  logged_in = false;
  discarding = false;
  closing = false;
  subscribed_jnst = false;
  subscribed_imct = false;
  username = [];
}

-- registerClient, by whether calloc and kevent succeed.
unfoldable pub register_client : Bool → Bool → ℕ → Server → Server × Bool
register_client calloc kevent client_fd s =
    if calloc
    then (if kevent
        then (put_slot client_fd (some (new_connection client_fd)) s, true)
        else (close_fd client_fd (put_slot client_fd none s), false))
    else (close_fd client_fd (put_slot client_fd none s), false)

-- The answers to the calls of accept of one run of acceptClients: a new descriptor, with the
-- answers of realloc, calloc and kevent to what follows; an attempt that is worth another; the end.
pub data Accepts : Type 0 where
  accepted : ℕ → Bool → Bool → Bool → Accepts → Accepts
  again : Accepts → Accepts
  stops : Accepts

abbrev pub set_conns : List (Option ClientConnection) → Server → Server
set_conns conns s = record s { exchange = record (s.exchange) { conns = conns } }

-- One round of acceptClients for a new descriptor.
unfoldable pub accept_one : Bool → Bool → Bool → ℕ → Server → Server
unfolding grow_conns register_client
accept_one realloc calloc kevent client_fd s =
    let grown = grow_conns realloc client_fd (s.exchange).conns in
    if leb (length (s.exchange).conns) client_fd
    then (if grown.1
        then (register_client calloc kevent client_fd (set_conns grown.0 s)).0
        else close_fd client_fd s)
    else (register_client calloc kevent client_fd s).0

unfoldable pub accept_clients : Accepts → Server → Server
unfolding accept_one
accept_clients (accepted fd realloc calloc kevent rest) s =
    accept_clients rest (accept_one realloc calloc kevent fd s)
accept_clients (again rest) s = accept_clients rest s
accept_clients stops s = s

-- removeClient: the resting orders stay, without an owner.
unfoldable pub remove_client : ℕ → Server → Server
unfolding detach_client_orders
remove_client client_fd s =
    let w = s.exchange in
    close_fd client_fd (record s {
      exchange = record w {
        orderbook = detach_client_orders w.orderbook (pos client_fd);
        conns = set w.conns client_fd none;
      };
    })

pub data Filter : Type 0 where
  readable writable : Filter

-- What handleClientEvent reads of a kevent.
pub record Kevent : Type 0 where
  pub ident : ℕ
  pub filter : Filter
  pub ev_error : Bool
  pub ev_eof : Bool

abbrev pub is_writable : Filter → Bool
is_writable writable = true
is_writable readable = false

module _ (env : Env) where
  -- The test of the event's flags, then the flush, then the reading; the result says `done`.
  unfoldable pub event_flushed : Kevent → Exchange → Exchange × Bool
  unfolding flush_to_client
  event_flushed ev w =
      let done = ev.ev_error || (is_writable ev.filter && ev.ev_eof) in
      if not done && is_writable ev.filter
      then on_self (λ os c. flush_to_client env os c) ev.ident w
      else (w, done)

  unfoldable pub event_read : Kevent → Reads → Exchange × Bool → Exchange × Bool
  unfolding communicate
  event_read ev reads r =
      if not r.1 && not (is_writable ev.filter) then communicate env ev.ident reads r.0 else r

  unfoldable pub handle_found : Kevent → Reads → Server → Option ClientConnection → Server
  unfolding event_flushed event_read remove_client
  handle_found ev reads s none = s
  handle_found ev reads s (some conn) =
      let r = event_read ev reads (event_flushed ev s.exchange) in
      let s' = record s { exchange = r.0 } in if r.1 then remove_client ev.ident s' else s'

  unfoldable pub handle_client_event : Kevent → Reads → Server → Server
  unfolding handle_found
  handle_client_event ev reads s = handle_found ev reads s (slot (s.exchange).conns ev.ident)

-- The events that the main loop takes from kqueue, each with the kernel's answers to what follows.
pub data ServerEvent : Type 0 where
  incoming : Accepts → ServerEvent
  client : Kevent → Reads → ServerEvent

-- What main sets up before its loop.
unfoldable pub started : Os → Server
started os = record {
  exchange = record {
    conns = replicate min_capacity none;
    orderbook = init_orderbook;
    next_order_id = 0;
    os = os;
  };
  closed = [];
}

module _ (env : Env) where
  unfoldable pub dispatch : ServerEvent → Server → Server
  unfolding accept_clients handle_client_event
  dispatch (incoming accepts) s = accept_clients accepts s
  dispatch (client ev reads) s = handle_client_event env ev reads s

  -- The main loop, over all events of a run.
  unfoldable pub serve : List ServerEvent → Server → Server
  unfolding dispatch
  serve [] s = s
  serve (e ∷ events) s = serve events (dispatch e s)

  unfoldable pub run_server : List ServerEvent → Os → Server
  unfolding serve started
  run_server events os = serve events (started os)
