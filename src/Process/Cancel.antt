-- ===== src/Process/Cancel.antt =====
-- The line CANCEL of processLine of src/includes/io.c, with cancelUserOrder of
-- src/includes/commands.c.
use the_socket_exchange.Prelude.{
  ℕ, ◌<◌, ◌≤◌, ◌≡◌, pos, Bool, List, [], ◌∷◌, ◌++◌, codes, line_feed, decimal, All,
}
use the_socket_exchange.Book.{Order, Head, deref, assign}
use the_socket_exchange.Book.Cancel.{Owns, Foreign}
use the_socket_exchange.Output.{Env}
use the_socket_exchange.Exchange.{Exchange, send_to, refuse}
use the_socket_exchange.Process.{int_max}

module _ (env : Env) (id self : ℕ) (w : Exchange) where
  -- What the server makes of the line, by the id and the book.
  pub data CancelReply (r : Exchange × Bool) : Type 0 where
    too_large : int_max < id → r ≡ refuse env (codes "Invalid order id") self w → CancelReply r
    unknown :
        id ≤ int_max
        → ((h : Head) → All (Foreign id (pos self)) (deref h w.orderbook))
        → r ≡ refuse env (codes "No such order") self w
        → CancelReply r
    cancelled :
        (h : Head) (before : List Order) (o : Order) (after : List Order)
        → id ≤ int_max
        → deref h w.orderbook ≡ before ++ o ∷ after
        → Owns id (pos self) o
        → r
          ≡ send_to env
              (codes "ORDER_CANCELLED " ++ (decimal id ++ line_feed ∷ []))
              self
              (record w { orderbook = assign h (before ++ after) w.orderbook })
        → CancelReply r
