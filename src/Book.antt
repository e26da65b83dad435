-- ===== src/Book.antt =====
-- src/includes/orderbook.h and src/includes/orderbook.c: the four order queues and the matching
-- of a new order. A doubly linked queue is the list of its orders, in the order of the `next`
-- pointers; appending at the tail and unlinking a node are the list operations that they perform.
pub mod Cancel
pub mod Conservation
pub mod Detach
pub mod Everywhere
pub mod Fills
pub mod Ids
pub mod Invariant
pub mod Levels
pub mod Matching
pub mod Round
pub mod Withdraw
use the_socket_exchange.Prelude.{
  ℕ, ◌+◌, ◌-◌, ◌*◌, ℤ, negsuc, Bool, true, false, ◌&&◌, List, [], ◌∷◌, ◌++◌, ltb, ◌==◌,
  if◌then◌else◌, eq_ℤ, length,
}

pub data OrderSide : Type 0 where
  buy sell : OrderSide

pub data Instrument : Type 0 where
  jnst imct : Instrument

-- `client_fd` is -1 in an order whose client has left.
pub record Order : Type 0 where
  pub id : ℕ
  pub quantity : ℕ
  pub price : ℕ
  pub client_fd : ℤ
  pub type : OrderSide
  pub instrument : Instrument

pub record Fill : Type 0 where
  pub price : ℕ
  pub quantity : ℕ
  pub buy_client_fd : ℤ
  pub sell_client_fd : ℤ
  pub instrument : Instrument

pub record LimitOrderBook : Type 0 where
  pub jnst_buy_orders : List Order
  pub jnst_sell_orders : List Order
  pub imct_buy_orders : List Order
  pub imct_sell_orders : List Order

unfoldable pub init_orderbook : LimitOrderBook
init_orderbook = record {
  jnst_buy_orders = [];
  jnst_sell_orders = [];
  imct_buy_orders = [];
  imct_sell_orders = [];
}

unfoldable pub append : List Order → Order → List Order
append [] ord = ord ∷ []
append (cur ∷ rest) ord = cur ∷ append rest ord

-- What a `struct Order **` into the book points at: one of its four heads.
pub data Head : Type 0 where
  jnst_buy jnst_sell imct_buy imct_sell : Head

abbrev pub deref : Head → LimitOrderBook → List Order
deref jnst_buy b = b.jnst_buy_orders
deref jnst_sell b = b.jnst_sell_orders
deref imct_buy b = b.imct_buy_orders
deref imct_sell b = b.imct_sell_orders

abbrev pub assign : Head → List Order → LimitOrderBook → LimitOrderBook
assign jnst_buy l b = record b { jnst_buy_orders = l }
assign jnst_sell l b = record b { jnst_sell_orders = l }
assign imct_buy l b = record b { imct_buy_orders = l }
assign imct_sell l b = record b { imct_sell_orders = l }

abbrev pub own_head : Instrument → OrderSide → Head
own_head jnst buy = jnst_buy
own_head jnst sell = jnst_sell
own_head imct buy = imct_buy
own_head imct sell = imct_sell

abbrev pub opp_head : Instrument → OrderSide → Head
opp_head jnst buy = jnst_sell
opp_head jnst sell = jnst_buy
opp_head imct buy = imct_sell
opp_head imct sell = imct_buy

abbrev pub own_list : Order → Head
own_list ord = own_head ord.instrument ord.type

abbrev pub opp_list : Order → Head
opp_list ord = opp_head ord.instrument ord.type

-- The array behind `*fills`: `count` is the length of `filled`, and `reallocs` numbers the calls
-- of realloc that one `add_order` has made.
pub record FillBuffer : Type 0 where
  pub filled : List Fill
  pub cap : ℕ
  pub reallocs : ℕ

abbrev pub fills_initial_capacity : ℕ
fills_initial_capacity = 16

abbrev pub empty_buffer : FillBuffer
empty_buffer = record { filled = []; cap = 0; reallocs = 0 }

unfoldable pub fill_of : Order → Order → ℕ → Fill
fill_of ord cur qty = elim ord.type [
  | buy ↦ record {
    price = cur.price;
    quantity = qty;
    buy_client_fd = ord.client_fd;
    sell_client_fd = cur.client_fd;
    instrument = ord.instrument;
  }
  | sell ↦ record {
    price = cur.price;
    quantity = qty;
    buy_client_fd = cur.client_fd;
    sell_client_fd = ord.client_fd;
    instrument = ord.instrument;
  }
]

-- A loop over a queue, seen from one of its orders: the order that the queue keeps in its place,
-- if any, the new order and the buffer.
pub record Visit : Type 0 where
  pub kept : List Order
  pub ord : Order
  pub buffer : FillBuffer

-- What is left of the new order is linked into its own queue; an order that is used up is freed.
unfoldable pub rest_or_free : Head → Order → LimitOrderBook → LimitOrderBook
unfolding append
rest_or_free own ord book =
    if ltb 0 ord.quantity then assign own (append (deref own book) ord) book else book

-- `realloc n` says whether call number n of realloc, by this `add_order`, succeeds.
module _ (realloc : ℕ → Bool) where
  unfoldable pub grow_fills : FillBuffer → FillBuffer
  grow_fills b =
      if length b.filled == b.cap
      then (if realloc b.reallocs
          then record b {
            cap = if b.cap == 0 then fills_initial_capacity else b.cap * 2;
            reallocs = b.reallocs + 1;
          }
          else record b { reallocs = b.reallocs + 1 })
      else b

  unfoldable pub push_fill : FillBuffer → Fill → FillBuffer
  push_fill b f =
      let b' = grow_fills b in
      if ltb (length b'.filled) b'.cap then record b' { filled = b'.filled ++ f ∷ [] } else b'

  unfoldable pub execute : Order → Order → FillBuffer → Visit
  execute ord cur b =
      let qty = if ltb ord.quantity cur.quantity then ord.quantity else cur.quantity in
      let cur' = record cur { quantity = cur.quantity - qty } in
      record {
        kept = if cur'.quantity == 0 then [] else cur' ∷ [];
        ord = record ord { quantity = ord.quantity - qty };
        buffer = push_fill b (fill_of ord cur qty);
      }

  unfoldable pub visit : Order → Order → FillBuffer → Visit
  unfolding execute
  visit ord cur b =
      if cur.price == ord.price
      then execute ord cur b
      else record { kept = cur ∷ []; ord = ord; buffer = b }

  -- The `while` loop of addOrder from `cur` on.
  unfoldable pub match_loop : Order → FillBuffer → List Order → Visit
  unfolding visit
  match_loop ord b [] = record { kept = []; ord = ord; buffer = b }
  match_loop ord b (cur ∷ nxt) =
      let v = visit ord cur b in
      let rest = match_loop v.ord v.buffer nxt in
      if ltb 0 ord.quantity
      then record rest { kept = v.kept ++ rest.kept }
      else record { kept = cur ∷ nxt; ord = ord; buffer = b }

  unfoldable pub add_order : LimitOrderBook → Order → LimitOrderBook × List Fill
  unfolding match_loop rest_or_free
  add_order book ord =
      let m = match_loop ord empty_buffer (deref (opp_list ord) book) in
      (rest_or_free (own_list ord) m.ord (assign (opp_list ord) m.kept book), m.buffer.filled)

unfoldable pub detach_in : List Order → ℤ → List Order
detach_in [] client_fd = []
detach_in (cur ∷ next) client_fd =
    (if eq_ℤ cur.client_fd client_fd then record cur { client_fd = negsuc 0 } else cur)
    ∷ detach_in next client_fd

unfoldable pub detach_client_orders : LimitOrderBook → ℤ → LimitOrderBook
unfolding detach_in
detach_client_orders book client_fd = record {
  jnst_buy_orders = detach_in book.jnst_buy_orders client_fd;
  jnst_sell_orders = detach_in book.jnst_sell_orders client_fd;
  imct_buy_orders = detach_in book.imct_buy_orders client_fd;
  imct_sell_orders = detach_in book.imct_sell_orders client_fd;
}

-- The queue afterwards, and whether an order was taken out.
unfoldable pub cancel_in : List Order → ℕ → ℤ → List Order × Bool
cancel_in [] id client_fd = ([], false)
cancel_in (cur ∷ next) id client_fd =
    let rest = cancel_in next id client_fd in
    if cur.id == id && eq_ℤ cur.client_fd client_fd then (next, true) else (cur ∷ rest.0, rest.1)

abbrev pub or_else : LimitOrderBook × Bool → LimitOrderBook × Bool → LimitOrderBook × Bool
or_else first second = if first.1 then first else second

abbrev pub cancel_at : Head → LimitOrderBook → ℕ → ℤ → LimitOrderBook × Bool
cancel_at h book id client_fd =
    let c = cancel_in (deref h book) id client_fd in (assign h c.0 book, c.1)

unfoldable pub cancel_order : LimitOrderBook → ℕ → ℤ → LimitOrderBook × Bool
unfolding cancel_in
cancel_order book id client_fd = or_else (cancel_at jnst_buy book id client_fd) (
    or_else (cancel_at jnst_sell book id client_fd)
      (or_else (cancel_at imct_buy book id client_fd) (cancel_at imct_sell book id client_fd)))
