-- ===== src/Exchange.antt =====
-- The whole exchange: the table of connections, the order book, the next order id; and the
-- commands of src/includes/commands.c that work on the book.
pub mod Invariant
pub mod Steps
pub mod Table
use the_socket_exchange.Prelude.{
  ℕ, suc, ◌+◌, ◌^◌, ◌-◌, ℤ, pos, negsuc, Bool, true, false, ◌&&◌, ◌||◌, List, [], ◌∷◌, ◌++◌, Option,
  none, some, codes, line_feed, decimal, ltb, ◌==◌, eq_ℤ, if◌then◌else◌, take, get_elem?, set,
}
use the_socket_exchange.Book.{
  OrderSide, buy, sell, Instrument, jnst, imct, Order, Fill, LimitOrderBook, add_order,
  cancel_order,
}
use the_socket_exchange.Output.{ClientConnection, Env, Os, Sent}
use the_socket_exchange.Session.{is_market, subscribed, find_instrument, send_line, reply_error}

-- `curr_cap` is the length of `conns`.
pub record Exchange : Type 0 where
  pub conns : List (Option ClientConnection)
  pub orderbook : LimitOrderBook
  pub next_order_id : ℕ
  pub os : Os

abbrev pub flatten {ℓ} : {A : Type ℓ} → Option (Option A) → Option A
flatten none = none
flatten (some a) = a

-- conns[fd], and NULL outside of the table.
abbrev pub slot : List (Option ClientConnection) → ℕ → Option ClientConnection
slot conns fd = flatten (get_elem? conns fd)

-- What a handler does to the connection of `fd`, and whether that is to be removed.
abbrev pub on_slot :
    (Os → ClientConnection → Sent) → ℕ → Exchange → Option ClientConnection → Exchange × Bool
on_slot handler fd w none = (w, false)
on_slot handler fd w (some c) =
    let r = handler w.os c in
    (record w { conns = set w.conns fd (some r.conn); os = r.os }, r.failed)

abbrev pub on_self : (Os → ClientConnection → Sent) → ℕ → Exchange → Exchange × Bool
on_self handler fd w = on_slot handler fd w (slot w.conns fd)

abbrev pub instrument_name : Instrument → List ℕ
instrument_name jnst = codes "JNST"
instrument_name imct = codes "IMCT"

-- snprintf into 128 bytes of a line with an id, or of one about a fill.
unfoldable pub id_line : List ℕ → ℕ → List ℕ
id_line word id = take 127 (word ++ (codes " " ++ (decimal id ++ line_feed ∷ [])))

unfoldable pub fill_line : List ℕ → Fill → List ℕ
fill_line word f = take 127 (
    word
    ++ (codes " "
        ++ (instrument_name f.instrument
            ++ (codes " "
                ++ (decimal f.quantity ++ (codes " " ++ (decimal f.price ++ line_feed ∷ [])))))))

abbrev pub wants : Instrument → Option ClientConnection → Bool
wants i none = false
wants i (some sub) = is_market sub.type && subscribed i sub

-- The order that placeOrder makes.
abbrev pub new_order : OrderSide → Instrument → ℕ → ℕ → ℕ → Exchange → Order
new_order side i quantity price self w = record {
  id = w.next_order_id;
  quantity = quantity;
  price = price;
  client_fd = pos self;
  type = side;
  instrument = i;
}

module _ (env : Env) where
  unfoldable pub send_to : List ℕ → ℕ → Exchange → Exchange × Bool
  send_to line = on_self (λ os c. send_line env os c line)

  unfoldable pub refuse : List ℕ → ℕ → Exchange → Exchange × Bool
  refuse reason = on_self (λ os c. reply_error env os c reason)

  -- `done` is set when the message to the client itself fails; any other failure is passed over.
  unfoldable pub notify_client : ℤ → List ℕ → ℕ → Exchange × Bool → Exchange × Bool
  unfolding send_to
  notify_client (negsuc n) msg self (w, done) = (w, done)
  notify_client (pos fd) msg self (w, done) =
      let r = send_to msg fd w in (r.0, done || (fd == self && r.1))

  -- A round of the inner loop of placeOrder at a connection.
  unfoldable pub offer : Instrument → List ℕ → Os → ClientConnection → Sent
  offer i msg os sub =
      if wants i (some sub)
      then send_line env os sub msg
      else record { os = os; conn = sub; failed = false }

  -- The inner loop of placeOrder, over the rest of the table; failures are passed over.
  unfoldable pub broadcast :
      Instrument
      → List ℕ
      → Os
      → List (Option ClientConnection)
      → Os × List (Option ClientConnection)
  unfolding offer
  broadcast i msg os [] = (os, [])
  broadcast i msg os (none ∷ conns) = let rest = broadcast i msg os conns in (rest.0, none ∷ rest.1)
  broadcast i msg os (some sub ∷ conns) =
      let now = offer i msg os sub in
      let rest = broadcast i msg now.os conns in (rest.0, some now.conn ∷ rest.1)

  unfoldable pub publish : Fill → Exchange → Exchange
  unfolding broadcast
  publish f w =
      let r = broadcast f.instrument (fill_line (codes "TRADE") f) w.os w.conns in
      record w { os = r.0; conns = r.1 }

  -- One round of the loop over the fills.
  unfoldable pub announce : Fill → ℕ → Exchange × Bool → Exchange × Bool
  unfolding notify_client publish
  announce f self s =
      let s₁ = notify_client f.buy_client_fd (fill_line (codes "BOUGHT") f) self s in
      let s₂ = notify_client f.sell_client_fd (fill_line (codes "SOLD") f) self s₁ in
      (publish f s₂.0, s₂.1)

  unfoldable pub announce_all : List Fill → ℕ → Exchange × Bool → Exchange × Bool
  unfolding announce
  announce_all [] self s = s
  announce_all (f ∷ fs) self s = announce_all fs self (announce f self s)

  -- placeOrder from the allocation of the order on.
  unfoldable pub accept_order : OrderSide → Instrument → ℕ → ℕ → ℕ → Exchange → Exchange × Bool
  unfolding announce_all send_to
  accept_order side i quantity price self w =
      let order = new_order side i quantity price self w in
      let s =
        send_to (id_line (codes "ORDER_ACCEPTED") order.id) self
          (record w { next_order_id = w.next_order_id + 1 }) in
      let added = add_order (env.realloc_fills w.os.calls) (s.0).orderbook order in
      announce_all added.1 self (record (s.0) { orderbook = added.0 }, s.1)

  unfoldable pub place_known : OrderSide → Instrument → ℤ → ℤ → ℕ → Exchange → Exchange × Bool
  unfolding accept_order refuse
  place_known side i (pos (suc quantity)) (pos (suc price)) self w =
      if env.calloc_order w.os.calls
      then accept_order side i (suc quantity) (suc price) self w
      else refuse (codes "Internal server error") self w
  place_known side i _ _ self w = refuse (codes "Quantity and price must be positive") self w

  unfoldable pub place_found :
      OrderSide → Option Instrument → ℤ → ℤ → ℕ → Exchange → Exchange × Bool
  unfolding place_known refuse
  place_found side (some i) quantity price self w = place_known side i quantity price self w
  place_found side none quantity price self w = refuse (codes "Invalid instrument") self w

  unfoldable pub place_order : OrderSide → List ℕ → ℤ → ℤ → ℕ → Exchange → Exchange × Bool
  unfolding place_found
  place_order side instrument quantity price self w =
      place_found side (find_instrument instrument) quantity price self w
