-- ===== src/Examples/Runs.antt =====
-- Runs of the framing, the commands and the whole server at concrete inputs.
use the_socket_exchange.Prelude.{
  length, ◌<◌, ℕ, zero, suc, ◌≡◌, ◌≢◌, refl, inr, pos, true, false, List, [], ◌∷◌, ◌++◌, none, some,
  map, codes, arith, line_feed, All,
}
use the_socket_exchange.Book.{
  sell, jnst_buy, jnst_sell, imct_buy, imct_sell, init_orderbook, deref, cancel_order,
}
use the_socket_exchange.Book.Invariant.{init_orderbook-IsValid}
use the_socket_exchange.Book.Detach.{anonymous}
use the_socket_exchange.Exchange.{Exchange, slot, place_order}
use the_socket_exchange.Exchange.Invariant.{
  IsValid, SettledAt, DistinctNames, name_at, place_order-IsValid,
}
use the_socket_exchange.Framing.{Reads, got, eof, Flow, continues, read_loop}
use the_socket_exchange.Framing.Bytes.{settle, and_then, feed_byte, feed}
use the_socket_exchange.Framing.Chunks.{bytes_of, end_of, closed, read_loop-feed}
use the_socket_exchange.Server.{
  accepted, again, stops, readable, ServerEvent, incoming, client, grow_conns, remove_client,
  run_server,
}
use the_socket_exchange.Server.Invariant.{run_server-IsValid}
use the_socket_exchange.Server.Removal.{remove_client_lem}
use the_socket_exchange.Server.Growth.{grow_conns-covers}
use the_socket_exchange.Process.{process_line}
use the_socket_exchange.Process.Access.{SameMarket, process_line-SameMarket}
use the_socket_exchange.Process.Invariant.{process_line-IsValid}
use the_socket_exchange.Examples.{env, fresh, os₀}

-- An exchange in which two clients have connected, as descriptors 4 and 5.
abbrev pub connected : Exchange
connected = record {
  conns = none ∷ none ∷ none ∷ none ∷ some (fresh 4) ∷ some (fresh 5) ∷ [];
  orderbook = init_orderbook;
  next_order_id = 1;
  os = os₀;
}

connected-settled : (fd : ℕ) → SettledAt fd (slot connected.conns fd)
connected-settled zero = tt
connected-settled (suc zero) = tt
connected-settled (suc (suc zero)) = tt
connected-settled (suc (suc (suc zero))) = tt
connected-settled (suc (suc (suc (suc zero)))) =
    (((refl, refl, refl), omega arith), refl, (omega arith, inr refl))
connected-settled (suc (suc (suc (suc (suc zero))))) =
    (((refl, refl, refl), omega arith), refl, (omega arith, inr refl))
connected-settled (suc (suc (suc (suc (suc (suc fd)))))) = tt

connected-nameless : (fd : ℕ) → name_at (slot connected.conns fd) ≡ none
connected-nameless zero = refl
connected-nameless (suc zero) = refl
connected-nameless (suc (suc zero)) = refl
connected-nameless (suc (suc (suc zero))) = refl
connected-nameless (suc (suc (suc (suc zero)))) = refl
connected-nameless (suc (suc (suc (suc (suc zero))))) = refl
connected-nameless (suc (suc (suc (suc (suc (suc fd)))))) = refl

connected-names : DistinctNames connected.conns
connected-names i j name e f = absurd (cc (connected-nameless i))

connected-IsValid : IsValid connected
unfolding init_orderbook
connected-IsValid = record {
  book = init_orderbook-IsValid;
  ids = elim [ jnst_buy ↦ tt | jnst_sell ↦ tt | imct_buy ↦ tt | imct_sell ↦ tt ];
  settled = connected-settled;
  names = connected-names;
}

-- After a login and an order of the first client.
abbrev pub logged_in : Exchange
logged_in = (process_line env (codes "LOGIN alice") 4 connected).0

abbrev pub quoted : Exchange
quoted = (process_line env (codes "SELL JNST 10 100") 4 logged_in).0

logged_in-IsValid : IsValid logged_in
logged_in-IsValid = process_line-IsValid env (codes "LOGIN alice") 4 connected connected-IsValid

process_line-IsValid_example : IsValid (process_line env (codes "SELL JNST 10 100") 4 logged_in).0
process_line-IsValid_example =
    process_line-IsValid env (codes "SELL JNST 10 100") 4 logged_in logged_in-IsValid

place_order-IsValid_example :
    IsValid (place_order env sell (codes "JNST") (pos 10) (pos 100) 4 logged_in).0
place_order-IsValid_example =
    place_order-IsValid env sell (codes "JNST") (pos 10) (pos 100) 4 logged_in logged_in-IsValid

process_line-SameMarket_example :
    SameMarket connected (process_line env (codes "BUY JNST 10 100") 5 connected)
process_line-SameMarket_example =
    process_line-SameMarket env 5 connected refl (codes "BUY JNST 10 100")

-- Lines that are only collected.
abbrev pub collect : List ℕ → List (List ℕ) → List (List ℕ) × Flow
collect line s = (s ++ line ∷ [], continues)

abbrev pub collect_full : List (List ℕ) → List (List ℕ) × Flow
collect_full s = (s, continues)

abbrev pub pieces : Reads
pieces =
    got (codes "LOG") (Reads.eintr (got (codes "IN bob" ++ line_feed ∷ codes "QU") Reads.eagain))

collected :
    read_loop collect collect_full pieces [] 0 []
    ≡ record { inbuf = codes "QU"; scanned = 2; state = codes "LOGIN bob" ∷ []; flow = continues }
unfolding read_loop
collected = refl

read_loop-feed_example :
    settle (read_loop collect collect_full pieces [] 0 [])
    ≡ and_then
        (feed collect collect_full (bytes_of pieces) [] [])
        (closed collect collect_full (end_of pieces))
unfolding feed feed_byte
read_loop-feed_example =
    read_loop-feed collect collect_full pieces [] [] (omega arith) (omega arith, (omega arith, tt))

-- A client that comes, logs in, sells, and goes.
abbrev pub stay : List ServerEvent
stay =
    incoming (accepted 12 true true true (again stops))
    ∷ client (record { ident = 12; filter = readable; ev_error = false; ev_eof = false })
        (got (codes "LOGIN alice" ++ line_feed ∷ (codes "SELL JNST 10 100" ++ line_feed ∷ []))
          Reads.eagain)
    ∷ client (record { ident = 12; filter = readable; ev_error = false; ev_eof = false }) eof
    ∷ []

run_server-IsValid_example : IsValid (run_server env stay os₀).exchange
run_server-IsValid_example = run_server-IsValid env stay os₀

grow_conns-covers_example :
    (12 < length (grow_conns true 12 connected.conns).0)
    × ((g : ℕ) → slot (grow_conns true 12 connected.conns).0 g ≡ slot connected.conns g)
grow_conns-covers_example = grow_conns-covers 12 connected.conns (omega arith)

remove_client_example :
    (slot ((remove_client 4 (record { exchange = quoted; closed = [] })).exchange).conns 4 ≡ none)
    × (slot ((remove_client 4 (record { exchange = quoted; closed = [] })).exchange).conns 5
        ≡ slot quoted.conns 5)
    × (map anonymous (
          deref jnst_sell
            ((remove_client 4 (record { exchange = quoted; closed = [] })).exchange).orderbook)
        ≡ map anonymous (deref jnst_sell quoted.orderbook))
    × All
        (λ o. o.client_fd ≢ pos 4)
        (deref jnst_sell
          ((remove_client 4 (record { exchange = quoted; closed = [] })).exchange).orderbook)
    × ((cancel_order
          ((remove_client 4 (record { exchange = quoted; closed = [] })).exchange).orderbook
          0
          (pos 4)).1
        ≡ false)
remove_client_example =
    remove_client_lem 4 (record { exchange = quoted; closed = [] }) jnst_sell 0 5
      (λ e. ground arith)
