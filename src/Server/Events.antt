-- ===== src/Server/Events.antt =====
-- What the events of the server keep, whatever holds of the exchange.
use the_socket_exchange.Prelude.{
  ℕ, zero, suc, ◌≡◌, refl, ap, pos, if_elim, Bool, true, false, List, [], ◌∷◌, ◌++◌, Option, none,
  some, leb, length, set, replicate, not, ◌&&◌, ◌||◌,
}
use the_socket_exchange.Book.{detach_client_orders}
use the_socket_exchange.Output.{ClientConnection, Env, flush_to_client}
use the_socket_exchange.Session.Roles.{flush_to_client-Keeps}
use the_socket_exchange.Exchange.{Exchange, slot}
use the_socket_exchange.Exchange.Table.{on_self-Talks}
use the_socket_exchange.Exchange.Steps.{Steps, here, Steps-trans, talked}
use the_socket_exchange.Process.Steps.{MayOrder}
use the_socket_exchange.Framing.{Reads}
use the_socket_exchange.Framing.Steps.{communicate-Steps}
use the_socket_exchange.Server.{
  Server, grow_conns, new_connection, register_client, Accepts, accepted, again, stops, set_conns,
  accept_one, accept_clients, remove_client, Kevent, is_writable, event_flushed, event_read,
  handle_found, handle_client_event, ServerEvent, incoming, client, dispatch, serve,
}

-- A slot after a write to the same or another, or past the end of the table.
pub set-elim {ℓ} :
    (P : Option ClientConnection → Type ℓ) (conns : List (Option ClientConnection)) (fd g : ℕ)
    (x : Option ClientConnection)
    → (fd ≡ g → P x)
    → P (slot conns g)
    → P (slot (set conns fd x) g)
set-elim P [] fd g x hit other = other
set-elim P (y ∷ conns) zero zero x hit other = hit refl
set-elim P (y ∷ conns) zero (suc g) x hit other = other
set-elim P (y ∷ conns) (suc fd) zero x hit other = other
set-elim P (y ∷ conns) (suc fd) (suc g) x hit other =
    set-elim P conns fd g x (λ e. hit (ap suc e)) other

pub slot-replicate : (n fd : ℕ) → slot (replicate n none) fd ≡ none
slot-replicate zero fd = refl
slot-replicate (suc n) zero = refl
slot-replicate (suc n) (suc fd) = slot-replicate n fd

-- New slots are empty, as those past the end of the table were.
pub slot-grown :
    (conns : List (Option ClientConnection)) (n fd : ℕ)
    → slot (conns ++ replicate n none) fd ≡ slot conns fd
slot-grown [] n fd = slot-replicate n fd
slot-grown (x ∷ conns) n zero = refl
slot-grown (x ∷ conns) n (suc fd) = slot-grown conns n fd

-- What accept's descriptors are when they come, along a run.
unfoldable pub AcceptsAre : (ℕ → Exchange → Type 0) → Accepts → Server → Type 0
AcceptsAre Is (accepted fd realloc calloc kevent rest) s =
    Is fd s.exchange × AcceptsAre Is rest (accept_one realloc calloc kevent fd s)
AcceptsAre Is (again rest) s = AcceptsAre Is rest s
AcceptsAre Is stops s = Unit

unfoldable pub ArrivalsAre : (ℕ → Exchange → Type 0) → Env → List ServerEvent → Server → Type 0
unfolding AcceptsAre
ArrivalsAre Is env [] s = Unit
ArrivalsAre Is env (incoming accepts ∷ events) s =
    AcceptsAre Is accepts s × ArrivalsAre Is env events (accept_clients accepts s)
ArrivalsAre Is env (client ev reads ∷ events) s =
    ArrivalsAre Is env events (handle_client_event env ev reads s)

abbrev pub grown : Exchange → ℕ → Exchange
grown w n = record w { conns = w.conns ++ replicate n none }

abbrev pub filled : Exchange → ℕ → Option ClientConnection → Exchange
filled w fd x = record w { conns = set w.conns fd x }

abbrev pub left : Exchange → ℕ → Exchange
left w fd = record w {
  orderbook = detach_client_orders w.orderbook (pos fd);
  conns = set w.conns fd none;
}

-- A property of exchanges, and one of a new descriptor in it, that the steps of the commands and
-- the changes of the table keep.
pub record Kept (P : Exchange → Type 0) (Is : ℕ → Exchange → Type 0) : Type 0 where
  pub steps : (self : ℕ) (w w' : Exchange) → Steps MayOrder self w w' → P w → P w'
  pub grows : (w : Exchange) (n : ℕ) → P w → P (grown w n)
  pub still_is : (w : Exchange) (n fd : ℕ) → Is fd w → Is fd (grown w n)
  pub comes : (w : Exchange) (fd : ℕ) → Is fd w → P w → P (filled w fd (some (new_connection fd)))
  pub empties : (w : Exchange) (fd : ℕ) → Is fd w → P w → P (filled w fd none)
  pub leaves : (w : Exchange) (fd : ℕ) → P w → P (left w fd)

-- A client's event, before the connection is perhaps removed.
module _ (env : Env) where
  event_flushed-Steps :
      (ev : Kevent) (w : Exchange) → Steps MayOrder ev.ident w (event_flushed env ev w).0
  unfolding event_flushed
  event_flushed-Steps ev w =
      let done = ev.ev_error || (is_writable ev.filter && ev.ev_eof) in
      if_elim (λ (r : Exchange × Bool). Steps MayOrder ev.ident w r.0)
        (not done && is_writable ev.filter)
        (λ _. talked MayOrder w _ (
          on_self-Talks (λ os c. flush_to_client env os c) ev.ident w
            (λ os c. flush_to_client-Keeps env os c)))
        (λ _. here)

  event_read-Steps :
      (ev : Kevent) (reads : Reads) (r : Exchange × Bool)
      → Steps MayOrder ev.ident r.0 (event_read env ev reads r).0
  unfolding event_read
  event_read-Steps ev reads r =
      if_elim (λ (x : Exchange × Bool). Steps MayOrder ev.ident r.0 x.0)
        (not r.1 && not (is_writable ev.filter)) (λ _. communicate-Steps env ev.ident reads r.0)
        (λ _. here)

  pub event-Steps :
      (ev : Kevent) (reads : Reads) (w : Exchange)
      → Steps MayOrder ev.ident w (event_read env ev reads (event_flushed env ev w)).0
  event-Steps ev reads w =
      Steps-trans MayOrder (event_flushed-Steps ev w)
        (event_read-Steps ev reads (event_flushed env ev w))

module _ (P : Exchange → Type 0) (Is : ℕ → Exchange → Type 0) (kept : Kept P Is) where
  register_client-kept :
      (calloc kevent : Bool) (fd : ℕ) (s : Server)
      → Is fd s.exchange
      → P s.exchange
      → P (register_client calloc kevent fd s).0.exchange
  unfolding register_client
  register_client-kept calloc kevent fd s is v =
      if_elim Outcome calloc
        (λ _. if_elim Outcome kevent (λ _. kept.comes s.exchange fd is v) (λ _. emptied))
        (λ _. emptied)
    where
      emptied : P (filled s.exchange fd none)
      emptied = kept.empties s.exchange fd is v

      Outcome : Server × Bool → Type 0
      Outcome r = P r.0.exchange

  grow_conns-kept :
      (realloc : Bool) (fd : ℕ) (s : Server)
      → Is fd s.exchange
      → P s.exchange
      → let s' = set_conns (grow_conns realloc fd (s.exchange).conns).0 s in
        Is fd s'.exchange × P s'.exchange
  unfolding grow_conns
  grow_conns-kept true fd s is v = (kept.still_is s.exchange _ fd is, kept.grows s.exchange _ v)
  grow_conns-kept false fd s is v = (is, v)

  accept_one-kept :
      (realloc calloc kevent : Bool) (fd : ℕ) (s : Server)
      → Is fd s.exchange
      → P s.exchange
      → P (accept_one realloc calloc kevent fd s).exchange
  unfolding accept_one
  accept_one-kept realloc calloc kevent fd s is v =
      let conns = (s.exchange).conns in
      let more = grow_conns-kept realloc fd s is v in
      if_elim Outcome (leb (length conns) fd)
        (λ _.
          if_elim Outcome (grow_conns realloc fd conns).1
            (λ _.
              register_client-kept calloc kevent fd (set_conns (grow_conns realloc fd conns).0 s)
                more.0 more.1)
            (λ _. v))
        (λ _. register_client-kept calloc kevent fd s is v)
    where
      Outcome : Server → Type 0
      Outcome r = P r.exchange

  accept_clients-kept :
      (a : Accepts) (s : Server)
      → AcceptsAre Is a s
      → P s.exchange
      → P (accept_clients a s).exchange
  unfolding accept_clients AcceptsAre
  accept_clients-kept (accepted fd realloc calloc kevent rest) s are v =
      accept_clients-kept rest _ are.1 (accept_one-kept realloc calloc kevent fd s are.0 v)
  accept_clients-kept (again rest) s are v = accept_clients-kept rest s are v
  accept_clients-kept stops s are v = v

  pub remove_client-kept : (fd : ℕ) (s : Server) → P s.exchange → P (remove_client fd s).exchange
  unfolding remove_client
  remove_client-kept fd s v = kept.leaves s.exchange fd v

  module _ (env : Env) where
    handle_found-kept :
        (ev : Kevent) (reads : Reads) (s : Server) (x : Option ClientConnection)
        → P s.exchange
        → P (handle_found env ev reads s x).exchange
    unfolding handle_found
    handle_found-kept ev reads s none v = v
    handle_found-kept ev reads s (some conn) v =
        let r = event_read env ev reads (event_flushed env ev s.exchange) in
        let w = kept.steps ev.ident s.exchange r.0 (event-Steps env ev reads s.exchange) v in
        if_elim (λ (s : Server). P s.exchange) r.1
          (λ _. remove_client-kept ev.ident (record s { exchange = r.0 }) w) (λ _. w)

    -- What the events keep, a run keeps.
    pub serve-kept :
        (events : List ServerEvent) (s : Server)
        → ArrivalsAre Is env events s
        → P s.exchange
        → P (serve env events s).exchange
    unfolding serve dispatch handle_client_event ArrivalsAre
    serve-kept [] s are v = v
    serve-kept (incoming accepts ∷ events) s are v =
        serve-kept events _ are.1 (accept_clients-kept accepts s are.0 v)
    serve-kept (client ev reads ∷ events) s are v =
        serve-kept events _ are (handle_found-kept ev reads s (slot (s.exchange).conns ev.ident) v)
