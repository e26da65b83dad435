-- ===== src/Server/Invariant.antt =====
-- The events of the server and the validity of the exchange.
use the_socket_exchange.Prelude.{
  ℕ, ◌≡◌, ◌≢◌, refl, subst, inr, pos, List, [], ◌∷◌, Option, none, some, arith, set,
}
use the_socket_exchange.Book.{
  init_orderbook, detach_client_orders, jnst_buy, jnst_sell, imct_buy, imct_sell,
}
use the_socket_exchange.Config.{min_capacity}
use the_socket_exchange.Book.Invariant.{init_orderbook-IsValid}
use the_socket_exchange.Book.Detach.{detach_client_orders-IsValid}
use the_socket_exchange.Book.Ids.{IdsBelow-detach_client_orders}
use the_socket_exchange.Output.{ClientConnection, Env, Os}
use the_socket_exchange.Exchange.{Exchange, slot}
use the_socket_exchange.Exchange.Invariant.{
  IsValid, SettledAt, name_at, book-IsValid, Steps-IsValid,
}
use the_socket_exchange.Process.Steps.{MayOrder}
use the_socket_exchange.Server.{
  Server, new_connection, Accepts, accepted, again, stops, ServerEvent, incoming, client, started,
  run_server,
}
use the_socket_exchange.Server.Events.{
  set-elim, slot-replicate, slot-grown, AcceptsAre, ArrivalsAre, grown, filled, left, Kept,
  serve-kept,
}

-- A table with the same slots.
grown-IsValid : (w : Exchange) (n : ℕ) → IsValid w → IsValid (grown w n)
grown-IsValid w n v = record {
  book = v.book;
  ids = v.ids;
  settled = λ fd. rw (slot-grown w.conns n fd) (v.settled fd);
  names = λ i j name e f.
      v.names i j name (rw (slot-grown w.conns n i) at e) (rw (slot-grown w.conns n j) at f);
}

none-some {ℓ} : {A : Type ℓ} (name : A) → none ≢ some name
none-some name e = cc

-- A slot that is emptied, or filled by a connection that has no name.
put-IsValid :
    (w : Exchange) (fd : ℕ) (x : Option ClientConnection)
    → SettledAt fd x
    → name_at x ≡ none
    → IsValid w
    → IsValid (filled w fd x)
put-IsValid w fd x settled nameless v = record {
  book = v.book;
  ids = v.ids;
  settled = λ g.
      set-elim (SettledAt g) w.conns fd g x (λ e. subst (λ k. SettledAt k x) e settled)
        (v.settled g);
  names = λ i j name e f. v.names i j name (held i name e) (held j name f);
}
  where
    held :
        (i : ℕ) (name : List ℕ)
        → name_at (slot (set w.conns fd x) i) ≡ some name
        → name_at (slot w.conns i) ≡ some name
    held i name =
        set-elim (λ y. name_at y ≡ some name → name_at (slot w.conns i) ≡ some name) w.conns fd i x
          (λ _ e. absurd (none-some name (rw nameless at e))) (λ e. e)

left-IsValid : (w : Exchange) (fd : ℕ) → IsValid w → IsValid (left w fd)
left-IsValid w fd v =
    let b = detach_client_orders w.orderbook (pos fd) in
    put-IsValid (record w { orderbook = b }) fd none tt refl
      (book-IsValid w b w.next_order_id (detach_client_orders-IsValid w.orderbook (pos fd) v.book)
        (IdsBelow-detach_client_orders w.next_order_id w.orderbook (pos fd) v.ids) v)

-- Nothing is asked of the descriptors.
abbrev Any : ℕ → Exchange → Type 0
Any fd w = Unit

pub Kept-IsValid : Kept IsValid Any
Kept-IsValid = record {
  steps = λ self w w' q v. Steps-IsValid MayOrder q v;
  grows = grown-IsValid;
  still_is = λ w n fd is. tt;
  comes = λ w fd is v.
      put-IsValid w fd (some (new_connection fd))
        (((refl, refl, refl), omega arith), refl, (omega arith, inr refl)) refl v;
  empties = λ w fd is v. put-IsValid w fd none tt refl v;
  leaves = left-IsValid;
}

AcceptsAre-Any : (a : Accepts) (s : Server) → AcceptsAre Any a s
unfolding AcceptsAre
AcceptsAre-Any (accepted fd realloc calloc kevent rest) s = (tt, AcceptsAre-Any rest _)
AcceptsAre-Any (again rest) s = AcceptsAre-Any rest s
AcceptsAre-Any stops s = tt

module _ (env : Env) where
  ArrivalsAre-Any : (events : List ServerEvent) (s : Server) → ArrivalsAre Any env events s
  unfolding ArrivalsAre
  ArrivalsAre-Any [] s = tt
  ArrivalsAre-Any (incoming accepts ∷ events) s =
      (AcceptsAre-Any accepts s, ArrivalsAre-Any events _)
  ArrivalsAre-Any (client ev reads ∷ events) s = ArrivalsAre-Any events _

  started-IsValid : (os : Os) → IsValid (started os).exchange
  unfolding started init_orderbook
  started-IsValid os = record {
    book = init_orderbook-IsValid;
    ids = elim [ jnst_buy ↦ tt | jnst_sell ↦ tt | imct_buy ↦ tt | imct_sell ↦ tt ];
    settled = λ fd. rw (slot-replicate min_capacity fd) tt;
    names = λ i j name e f. absurd (none-some name (rw (slot-replicate min_capacity i) at e));
  }

  -- Whatever clients come, send and go, in whatever order, with whatever answers of the kernel
  -- and of the allocators, a server that has started with an empty table and an empty book has a
  -- valid exchange after every sequence of events.
  pub run_server-IsValid :
      (events : List ServerEvent) (os : Os) → IsValid (run_server env events os).exchange
  unfolding run_server
  run_server-IsValid events os =
      serve-kept IsValid Any Kept-IsValid env events (started os)
        (ArrivalsAre-Any events (started os)) (started-IsValid os)
