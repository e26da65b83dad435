-- ===== src/Server/Ledger.antt =====
-- src/includes/server.c and removeClient: the descriptors that accept has returned, and where they are.
pub mod Run
use the_socket_exchange.Prelude.{
  ℕ, zero, suc, ◌+◌, ◌<◌, ◌≡◌, ◌≢◌, refl, sym, ap, ◌∙◌, subst, inl, inr, if_elim, Bool, true, false,
  Bool-cases, eq_cases, List, [], ◌∷◌, ◌++◌, Option, none, some, arith, leb, ◌==◌, ==_iff, not,
  ◌&&◌, ◌||◌, if◌then◌else◌, length, length-set, get_elem?-set_self, set,
}
use the_socket_exchange.Output.{ClientConnection, Env, flush_to_client}
use the_socket_exchange.Session.Roles.{flush_to_client-Keeps}
use the_socket_exchange.Exchange.{Exchange, slot, flatten}
use the_socket_exchange.Exchange.Table.{KeepsAt, slot-set_ne, slot-set-elim, on_self-Talks}
use the_socket_exchange.Exchange.Steps.{
  Step, talks, signs, takes_out, places, Steps, Steps-kept, talked,
}
use the_socket_exchange.Process.Steps.{MayOrder}
use the_socket_exchange.Framing.{Reads}
use the_socket_exchange.Framing.Steps.{communicate-Steps}
use the_socket_exchange.Server.{
  Server, close_fd, put_slot, set_conns, grow_conns, new_connection, register_client, Accepts,
  accepted, again, stops, accept_one, accept_clients, remove_client, Kevent, is_writable,
  event_flushed, event_read, handle_found, handle_client_event, ServerEvent, incoming, client,
  dispatch, serve, started, run_server,
}
use the_socket_exchange.Server.Events.{AcceptsAre, ArrivalsAre}
use the_socket_exchange.Server.Owners.{Unused}
use the_socket_exchange.Server.Growth.{grow_conns-covers}

-- How often a descriptor stands in a list.
unfoldable pub count : ℕ → List ℕ → ℕ
count fd [] = 0
count fd (x ∷ xs) = (if x == fd then 1 else 0) + count fd xs

pub count-append : (fd : ℕ) (xs ys : List ℕ) → count fd (xs ++ ys) ≡ count fd xs + count fd ys
unfolding count
count-append fd [] ys = omega arith
count-append fd (x ∷ xs) ys = omega (arith, count-append fd xs ys)

-- The connections in a slot.
abbrev pub held : Option ClientConnection → ℕ
held none = 0
held (some c) = 1

-- How often a descriptor is in the table or closed.
abbrev pub tally : ℕ → Server → ℕ
tally fd s = count fd s.closed + held (slot (s.exchange).conns fd)

-- From one state to another come the descriptors `fds`, and none is lost or closed twice.
pub record Books (s : Server) (fds : List ℕ) (s' : Server) : Type 0 where
  pub some_room : 0 < length (s'.exchange).conns
  pub balance : (fd : ℕ) → tally fd s' ≡ tally fd s + count fd fds

pub Books-trans :
    {s t u : Server} {xs ys : List ℕ} → Books s xs t → Books t ys u → Books s (xs ++ ys) u
Books-trans {s} {t} {u} {xs} {ys} p q = record {
  some_room = q.some_room;
  balance = λ fd. omega (arith, p.balance fd, q.balance fd, count-append fd xs ys);
}

pub Books-refl : (s : Server) → 0 < length (s.exchange).conns → Books s [] s
unfolding count
Books-refl s some_room = record { some_room = some_room; balance = λ fd. omega arith }

pub slot-filled :
    (conns : List (Option ClientConnection)) (fd : ℕ) (x : Option ClientConnection)
    → fd < length conns
    → slot (set conns fd x) fd ≡ x
slot-filled conns fd x inside = ap flatten (get_elem?-set_self conns fd x inside)

-- A slot is written, and perhaps its descriptor closed.
pub written :
    (s : Server) (fd : ℕ) (x : Option ClientConnection) (closed new : List ℕ)
    → fd < length (s.exchange).conns
    → held x + count fd closed ≡ tally fd s + count fd new
    → ((g : ℕ) → fd ≢ g → count g closed ≡ count g s.closed + count g new)
    → Books s new (record (put_slot fd x s) { closed = closed })
written s fd x closed new inside here others = record {
  some_room = omega (arith, length-set (s.exchange).conns fd x);
  balance = λ g. elim (eq_cases fd g) [
    | inl same ↦
        subst
          (λ k.
            count k closed + held (slot (set (s.exchange).conns fd x) k) ≡ tally k s + count k new)
          same (omega (arith, here, ap held (slot-filled (s.exchange).conns fd x inside)))
    | inr ne ↦ omega (arith, others g ne, ap held (slot-set_ne (s.exchange).conns fd g x ne))
  ];
}

count-once : (fd : ℕ) → count fd (fd ∷ []) ≡ 1
unfolding count
count-once fd = ground (arith, (==_iff fd fd).1 refl)

count-other : (fd g : ℕ) → fd ≢ g → count g (fd ∷ []) ≡ 0
unfolding count
count-other fd g ne = ground arith

-- A new descriptor whose slot is empty is put into the table.
opened :
    (s : Server) (fd : ℕ) (c : ClientConnection)
    → fd < length (s.exchange).conns
    → Unused fd s.exchange
    → Books s (fd ∷ []) (put_slot fd (some c) s)
opened s fd c inside unused =
    written s fd (some c) s.closed (fd ∷ []) inside (omega (arith, ap held unused, count-once fd))
      (λ g ne. omega (arith, count-other fd g ne))

-- It is closed.
shut :
    (s : Server) (fd : ℕ)
    → fd < length (s.exchange).conns
    → Unused fd s.exchange
    → Books s (fd ∷ []) (close_fd fd (put_slot fd none s))
shut s fd inside unused =
    written s fd none (s.closed ++ fd ∷ []) (fd ∷ []) inside
      (omega (arith, ap held unused, count-append fd s.closed (fd ∷ [])))
      (λ g ne. count-append g s.closed (fd ∷ []))

held-inside :
    (conns : List (Option ClientConnection)) (fd : ℕ) → held (slot conns fd) ≡ 1 → fd < length conns
held-inside [] fd at = ground arith
held-inside (x ∷ conns) zero at = omega arith
held-inside (x ∷ conns) (suc fd) at = omega (arith, held-inside conns fd at)

-- A connection goes, and its descriptor is closed.
pub removed :
    (s : Server) (fd : ℕ) → held (slot (s.exchange).conns fd) ≡ 1 → Books s [] (remove_client fd s)
unfolding remove_client count
removed s fd at =
    let b =
      written s fd none (s.closed ++ fd ∷ []) [] (held-inside (s.exchange).conns fd at)
        (omega (arith, at, count-append fd s.closed (fd ∷ []), count-once fd))
        (λ g ne. omega (arith, count-append g s.closed (fd ∷ []), count-other fd g ne)) in
    record { some_room = b.some_room; balance = b.balance }

register_client-Books :
    (calloc kevent : Bool) (fd : ℕ) (s : Server)
    → fd < length (s.exchange).conns
    → Unused fd s.exchange
    → Books s (fd ∷ []) (register_client calloc kevent fd s).0
unfolding register_client
register_client-Books calloc kevent fd s inside unused =
    if_elim Outcome calloc
      (λ _.
        if_elim Outcome kevent (λ _. opened s fd (new_connection fd) inside unused)
          (λ _. shut s fd inside unused))
      (λ _. shut s fd inside unused)
  where
    Outcome : Server × Bool → Type 0
    Outcome r = Books s (fd ∷ []) r.0

-- The table has grown.
grown-Books :
    (s : Server) (fd : ℕ)
    → 0 < length (s.exchange).conns
    → Books s [] (set_conns (grow_conns true fd (s.exchange).conns).0 s)
unfolding count
grown-Books s fd some_room =
    let covers = grow_conns-covers fd (s.exchange).conns some_room in
    record {
      some_room = omega (arith, covers.0);
      balance = λ g. omega (arith, ap held (covers.1 g));
    }

pub accept_one-Books :
    (realloc calloc kevent : Bool) (fd : ℕ) (s : Server)
    → 0 < length (s.exchange).conns
    → Unused fd s.exchange
    → Books s (fd ∷ []) (accept_one realloc calloc kevent fd s)
unfolding accept_one grow_conns
accept_one-Books realloc calloc kevent fd s some_room unused =
    if_elim (Books s (fd ∷ [])) (leb (length (s.exchange).conns) fd) (λ _. by_growing realloc)
      (λ inside. register_client-Books calloc kevent fd s (ground arith) unused)
  where
    refused : Books s (fd ∷ []) (close_fd fd s)
    refused = record {
      some_room = some_room;
      balance = λ g. omega (arith, count-append g s.closed (fd ∷ []));
    }

    by_growing :
        (b : Bool)
        → Books s (fd ∷ []) (
            let g = grow_conns b fd (s.exchange).conns in
            if g.1 then (register_client calloc kevent fd (set_conns g.0 s)).0 else close_fd fd s)
    by_growing true =
        let s' = set_conns (grow_conns true fd (s.exchange).conns).0 s in
        let covers = grow_conns-covers fd (s.exchange).conns some_room in
        Books-trans (grown-Books s fd some_room)
          (register_client-Books calloc kevent fd s' covers.0 (covers.1 fd ∙ unused))
    by_growing false = refused
