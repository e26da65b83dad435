-- ===== src/Examples.antt =====
-- Runs of the book and of a connection's output at concrete inputs.
pub mod Clients
pub mod Events
pub mod Queues
pub mod Runs
use the_socket_exchange.Prelude.{
  length, ◌<◌, ℕ, zero, suc, ◌≡◌, ◌≢◌, refl, inr, pos, Bool, true, false, List, [], ◌∷◌, ◌++◌, none,
  some, map, codes, arith, line_feed, All, ltb, ◌==◌, ◌+◌, if◌then◌else◌,
}
use the_socket_exchange.Book.{
  Head, OrderSide, buy, sell, jnst, Order, LimitOrderBook, jnst_buy, jnst_sell, imct_buy, imct_sell,
  init_orderbook, deref, push_fill, grow_fills, fill_of, add_order, cancel_order,
  detach_client_orders,
}
use the_socket_exchange.Book.Levels.{at_price, consume, total}
use the_socket_exchange.Book.Fills.{trades}
use the_socket_exchange.Book.Withdraw.{cancel_order-add_order}
use the_socket_exchange.Book.Matching.{
  level, after_add, remainder, add_order-levels, add_order-fills,
}
use the_socket_exchange.Book.Conservation.{traded, add_order-conserves}
use the_socket_exchange.Book.Invariant
use the_socket_exchange.Book.Invariant.{init_orderbook-IsValid, add_order-IsValid}
use the_socket_exchange.Book.Cancel.{CancelOutcome, cancel_order-outcome}
use the_socket_exchange.Book.Detach.{anonymous, detach_client_orders_lem}
use the_socket_exchange.Output.{
  ClientConnection, WriteAnswer, wrote, eagain, eintr, Env, Os, send_to_client, flush_to_client,
}
use the_socket_exchange.Output.Stream.{stream, received}
use the_socket_exchange.Output.Flush.{Ends, flush_to_client-Ends}
use the_socket_exchange.Output.Runs.{
  Op, sends, flushes, payload, use_once, run, IsBounded, run-stream, run-others, run-IsBounded,
}
use the_socket_exchange.Exchange.Invariant.{IsValid}
use the_socket_exchange.Server.{new_connection, again}

-- Orders.
abbrev order_at : ℕ → ℕ → ℕ → ℕ → OrderSide → Order
order_at id quantity price fd side = record {
  id = id;
  quantity = quantity;
  price = price;
  client_fd = pos fd;
  type = side;
  instrument = jnst;
}

abbrev plenty : ℕ → Bool
plenty n = true

abbrev first_sell : Order
first_sell = order_at 1 10 100 4 sell

abbrev second_sell : Order
second_sell = order_at 2 5 100 5 sell

abbrev taker : Order
taker = order_at 3 12 100 6 buy

abbrev one_sell : LimitOrderBook
one_sell = (add_order plenty init_orderbook first_sell).0

abbrev two_sells : LimitOrderBook
two_sells = (add_order plenty one_sell second_sell).0

two_sells_queue : deref jnst_sell two_sells ≡ first_sell ∷ second_sell ∷ []
unfolding add_order init_orderbook
two_sells_queue = refl

taken_queue :
    deref jnst_sell (add_order plenty two_sells taker).0 ≡ record second_sell { quantity = 3 } ∷ []
unfolding add_order init_orderbook
taken_queue = refl

taken_fills : map (λ f. f.quantity) (add_order plenty two_sells taker).1 ≡ 10 ∷ 2 ∷ []
unfolding add_order init_orderbook push_fill grow_fills fill_of
taken_fills = refl

two_sells-IsValid : Invariant.IsValid two_sells
two_sells-IsValid =
    add_order-IsValid plenty one_sell second_sell
      (add_order-IsValid plenty init_orderbook first_sell init_orderbook-IsValid (omega arith))
      (omega arith)

add_order-levels_example :
    (at_price 100 (deref jnst_sell (after_add plenty two_sells taker)) ≡ (
      if 100 == 100
      then consume 12 (level plenty two_sells taker)
      else at_price 100 (deref jnst_sell two_sells)))
    × (deref jnst_buy (after_add plenty two_sells taker) ≡ (
        if ltb (total (level plenty two_sells taker)) 12
        then deref jnst_buy two_sells ++ remainder plenty two_sells taker ∷ []
        else deref jnst_buy two_sells))
    × (deref imct_sell (after_add plenty two_sells taker) ≡ deref imct_sell two_sells)
add_order-levels_example = add_order-levels plenty two_sells taker 100 sell

add_order-fills_example :
    (add_order plenty two_sells taker).1 ≡ trades taker 12 (level plenty two_sells taker)
add_order-fills_example = add_order-fills plenty two_sells taker (λ n. refl)

add_order-conserves_example :
    (total (deref jnst_sell (after_add plenty two_sells taker))
        + traded (add_order plenty two_sells taker).1
      ≡ total (deref jnst_sell two_sells))
    × (total (deref jnst_buy (after_add plenty two_sells taker))
          + traded (add_order plenty two_sells taker).1
        ≡ total (deref jnst_buy two_sells) + 12)
add_order-conserves_example = add_order-conserves plenty two_sells taker (λ n. refl)

add_order-IsValid_example : Invariant.IsValid (add_order plenty two_sells taker).0
add_order-IsValid_example = add_order-IsValid plenty two_sells taker two_sells-IsValid (omega arith)

cancel_order-outcome_example : CancelOutcome 2 (pos 5) two_sells (cancel_order two_sells 2 (pos 5))
cancel_order-outcome_example = cancel_order-outcome two_sells 2 (pos 5)

-- A buy order above the two sells rests, and goes again.
abbrev high_buy : Order
high_buy = order_at 3 12 101 6 buy

high_buy_is_fresh : (h : Head) → All (λ o. o.id ≢ high_buy.id) (deref h two_sells)
unfolding add_order init_orderbook
high_buy_is_fresh = elim [
  | jnst_buy ↦ tt
  | jnst_sell ↦ ground arith
  | imct_buy ↦ tt
  | imct_sell ↦ tt
]

cancel_order-add_order_example :
    cancel_order (add_order plenty two_sells high_buy).0 3 (pos 6) ≡ (two_sells, true)
unfolding add_order init_orderbook at_price
cancel_order-add_order_example =
    cancel_order-add_order two_sells high_buy high_buy_is_fresh plenty refl (omega arith)

detach_client_orders_example :
    (map anonymous (deref jnst_sell (detach_client_orders two_sells (pos 5)))
      ≡ map anonymous (deref jnst_sell two_sells))
    × All (λ o. o.client_fd ≢ pos 5) (deref jnst_sell (detach_client_orders two_sells (pos 5)))
    × (cancel_order (detach_client_orders two_sells (pos 5)) 2 (pos 5)
        ≡ (detach_client_orders two_sells (pos 5), false))
detach_client_orders_example = detach_client_orders_lem two_sells 5 jnst_sell 2

-- A kernel that takes two bytes of the first write, is full at the second, and then takes all.
abbrev kernel : ℕ → WriteAnswer
kernel zero = eintr (wrote 1)
kernel (suc zero) = eagain
kernel (suc (suc n)) = wrote 4095

abbrev pub env : Env
env = record {
  write = λ i fd bytes. kernel i;
  malloc = λ i. true;
  calloc_order = λ i. true;
  realloc_fills = λ i n. true;
  out_of_range = λ z. z;
}

abbrev pub fresh : ℕ → ClientConnection
fresh fd = new_connection fd

abbrev pub os₀ : Os
os₀ = record { calls = 0; wire = [] }

abbrev uses : List Op
uses = sends (codes "OK") ∷ sends (codes "TRADE") ∷ flushes ∷ flushes ∷ []

run_test : received 4 (run env os₀ (fresh 4) uses).os.wire ≡ codes "OKTRADE"
unfolding run use_once send_to_client flush_to_client received
run_test = refl

run-stream_example :
    stream (run env os₀ (fresh 4) uses).os.wire (run env os₀ (fresh 4) uses).conn
    ≡ stream [] (fresh 4) ++ payload uses
unfolding run use_once send_to_client flush_to_client
run-stream_example = run-stream env uses os₀ (fresh 4) refl

run-others_example : received 5 (run env os₀ (fresh 4) uses).os.wire ≡ received 5 []
run-others_example = run-others env uses os₀ (fresh 4) 5 (λ e. ground arith)

run-IsBounded_example : IsBounded (run env os₀ (fresh 4) uses).conn
run-IsBounded_example = run-IsBounded env uses os₀ (fresh 4) (omega arith, inr refl)

flush_to_client-Ends_example :
    Ends env
      (record (fresh 4) { outbuf = codes "TRADE"; outbuf_allocated = true })
      (flush_to_client env os₀
        (record (fresh 4) { outbuf = codes "TRADE"; outbuf_allocated = true }))
flush_to_client-Ends_example =
    flush_to_client-Ends env os₀
      (record (fresh 4) { outbuf = codes "TRADE"; outbuf_allocated = true })
