-- ===== src/Server/Ledger/Run.antt =====
-- The descriptors that accept has returned, along a run of the server.
use the_socket_exchange.Prelude.{
  ℕ, ◌+◌, ◌<◌, ◌≡◌, refl, ◌∙◌, subst, if_elim, List, [], ◌∷◌, ◌++◌, Option, none, some, arith,
  length, length-set,
}
use the_socket_exchange.Config.{min_capacity}
use the_socket_exchange.Output.{ClientConnection, Env, Os}
use the_socket_exchange.Exchange.{Exchange, slot}
use the_socket_exchange.Exchange.Table.{KeepsAt, slot-set-elim}
use the_socket_exchange.Exchange.Steps.{Step, talks, signs, takes_out, places, Steps, Steps-kept}
use the_socket_exchange.Process.Steps.{MayOrder}
use the_socket_exchange.Framing.{Reads}
use the_socket_exchange.Server.{
  Server, Accepts, accepted, again, stops, accept_clients, Kevent, event_flushed, event_read,
  handle_found, handle_client_event, ServerEvent, incoming, client, dispatch, serve, started,
  run_server,
}
use the_socket_exchange.Server.Events.{slot-replicate, AcceptsAre, ArrivalsAre, event-Steps}
use the_socket_exchange.Server.Owners.{Unused}
use the_socket_exchange.Server.Ledger.{
  count, held, tally, Books, Books-refl, Books-trans, removed, accept_one-Books,
}

-- The descriptors that accept returns in one run of acceptClients, and over all events.
unfoldable pub accepted_fds : Accepts → List ℕ
accepted_fds (accepted fd realloc calloc kevent rest) = fd ∷ accepted_fds rest
accepted_fds (again rest) = accepted_fds rest
accepted_fds stops = []

unfoldable pub arrivals : List ServerEvent → List ℕ
unfolding accepted_fds
arrivals [] = []
arrivals (incoming accepts ∷ events) = accepted_fds accepts ++ arrivals events
arrivals (client ev reads ∷ events) = arrivals events

-- The same slots hold a connection.
pub record SameSlots (w w' : Exchange) : Type 0 where
  pub size : length w'.conns ≡ length w.conns
  pub slots : (fd : ℕ) → held (slot w'.conns fd) ≡ held (slot w.conns fd)

KeepsAt-held : (x y : Option ClientConnection) → KeepsAt x y → held y ≡ held x
KeepsAt-held none none k = refl
KeepsAt-held (some c) (some d) k = refl
KeepsAt-held none (some d) k = absurd k
KeepsAt-held (some c) none k = absurd k

Step-SameSlots :
    (self : ℕ) (u v w : Exchange) → Step MayOrder self v w → SameSlots u v → SameSlots u w
Step-SameSlots self u _ _ (talks v w t) h = record {
  size = t.same_length ∙ h.size;
  slots = λ fd. KeepsAt-held (slot v.conns fd) (slot w.conns fd) (t.serves fd) ∙ h.slots fd;
}
Step-SameSlots self u _ _ (signs name v c d os at s) h = record {
  size = length-set v.conns self (some d) ∙ h.size;
  slots = λ fd.
      slot-set-elim (λ x. held x ≡ held (slot v.conns fd)) v.conns self fd c d at
        (λ here. subst (λ k. 1 ≡ held (slot v.conns k)) here (rw at refl)) refl
      ∙ h.slots fd;
}
Step-SameSlots self u _ _ (takes_out k before o after v split mine) h = record {
  size = h.size;
  slots = h.slots;
}
Step-SameSlots self u _ _ (places realloc ord v permitted mine fresh priced) h = record {
  size = h.size;
  slots = h.slots;
}

Steps-SameSlots : {self : ℕ} {w w' : Exchange} → Steps MayOrder self w w' → SameSlots w w'
Steps-SameSlots {self} {w} q =
    Steps-kept MayOrder (SameSlots w) (λ u v s h. Step-SameSlots self w u v s h) q
      (record { size = refl; slots = λ fd. refl })

accept_clients-Books :
    (a : Accepts) (s : Server)
    → 0 < length (s.exchange).conns
    → AcceptsAre Unused a s
    → Books s (accepted_fds a) (accept_clients a s)
unfolding accept_clients AcceptsAre accepted_fds
accept_clients-Books (accepted fd realloc calloc kevent rest) s some_room unused =
    let b = accept_one-Books realloc calloc kevent fd s some_room unused.0 in
    Books-trans b (accept_clients-Books rest _ b.some_room unused.1)
accept_clients-Books (again rest) s some_room unused = accept_clients-Books rest s some_room unused
accept_clients-Books stops s some_room unused = Books-refl s some_room

still :
    (s : Server) (w : Exchange)
    → 0 < length (s.exchange).conns
    → SameSlots s.exchange w
    → Books s [] (record s { exchange = w })
unfolding count
still s w some_room same = record {
  some_room = omega (arith, same.size);
  balance = λ fd. omega (arith, same.slots fd);
}

module _ (env : Env) where
  handle_found-Books :
      (ev : Kevent) (reads : Reads) (s : Server) (x : Option ClientConnection)
      → 0 < length (s.exchange).conns
      → slot (s.exchange).conns ev.ident ≡ x
      → Books s [] (handle_found env ev reads s x)
  unfolding handle_found
  handle_found-Books ev reads s none some_room at = Books-refl s some_room
  handle_found-Books ev reads s (some conn) some_room at =
      let r = event_read env ev reads (event_flushed env ev s.exchange) in
      let same = Steps-SameSlots (event-Steps env ev reads s.exchange) in
      let served = record s { exchange = r.0 } in
      let b = still s r.0 some_room same in
      if_elim (Books s []) r.1
        (λ _. Books-trans b (removed served ev.ident (same.slots ev.ident ∙ rw at refl))) (λ _. b)

  pub serve-Books :
      (events : List ServerEvent) (s : Server)
      → 0 < length (s.exchange).conns
      → ArrivalsAre Unused env events s
      → Books s (arrivals events) (serve env events s)
  unfolding serve dispatch handle_client_event ArrivalsAre arrivals
  serve-Books [] s some_room unused = Books-refl s some_room
  serve-Books (incoming accepts ∷ events) s some_room unused =
      let b = accept_clients-Books accepts s some_room unused.0 in
      Books-trans b (serve-Books events _ b.some_room unused.1)
  serve-Books (client ev reads ∷ events) s some_room unused =
      let b = handle_found-Books ev reads s (slot (s.exchange).conns ev.ident) some_room refl in
      Books-trans b (serve-Books events _ b.some_room unused)

  pub started-tally : (os : Os) (fd : ℕ) → tally fd (started os) ≡ 0
  unfolding started count
  started-tally os fd = rw (slot-replicate min_capacity fd) refl

  pub run_server-Books :
      (events : List ServerEvent) (os : Os)
      → ArrivalsAre Unused env events (started os)
      → Books (started os) (arrivals events) (run_server env events os)
  unfolding run_server started
  run_server-Books events os unused = serve-Books events (started os) (omega arith) unused

  -- If accept only ever returns descriptors that no client of the table has, then after every
  -- sequence of events every descriptor has been closed, or stands in the table, as often as accept
  -- has returned it in all: none is lost, none closed twice, and none closed that is still in use,
  -- also where the allocators and kevent fail.
  pub run_server-ledger :
      (events : List ServerEvent) (os : Os) (fd : ℕ)
      → ArrivalsAre Unused env events (started os)
      → count fd (run_server env events os).closed
          + held (slot ((run_server env events os).exchange).conns fd)
        ≡ count fd (arrivals events)
  run_server-ledger events os fd unused =
      omega (arith, (run_server-Books events os unused).balance fd, started-tally os fd)
