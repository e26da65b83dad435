-- ===== src/Exchange/Steps.antt =====
-- The steps that the commands of src/includes/commands.c are made of.
use the_socket_exchange.Prelude.{
  ◌∷◌, ◌++◌, ℕ, suc, ◌+◌, ◌<◌, ◌≡◌, refl, ap, ℤ, pos, if_elim, Bool, List, Option, none, some,
  arith, codes, set,
}
use the_socket_exchange.Book.{Head, deref, assign, OrderSide, Instrument, Order, add_order}
use the_socket_exchange.Output.{ClientConnection, Env, Os}
use the_socket_exchange.Session.{find_instrument}
use the_socket_exchange.Session.Roles.{Signs}
use the_socket_exchange.Exchange.{
  Exchange, slot, send_to, refuse, id_line, new_order, accept_order, place_known, place_found,
  place_order,
}
use the_socket_exchange.Exchange.Table.{
  Talks, Talks-trans, send_to-Talks, refuse-Talks, announce_all-Talks,
}

-- One step of an exchange for the client `self`: it talks to its clients; `self` signs in under a
-- free name; an order of `self` is taken out; an order of `self`, which it may place, with the next
-- id, is matched.
pub data Step (Permits : Exchange → ℕ → Type 0) (self : ℕ) : Exchange → Exchange → Type 0 where
  talks : (w w' : Exchange) → Talks w w' → Step Permits self w w'
  signs :
      (name : List ℕ) (w : Exchange) (c d : ClientConnection) (os : Os)
      → slot w.conns self ≡ some c
      → Signs w.conns name c d
      → Step Permits self w (record w { conns = set w.conns self (some d); os = os })
  takes_out :
      (h : Head) (before : List Order) (o : Order) (after : List Order) (w : Exchange)
      → deref h w.orderbook ≡ before ++ o ∷ after
      → o.client_fd ≡ pos self
      → Step Permits self w (record w { orderbook = assign h (before ++ after) w.orderbook })
  places :
      (realloc : ℕ → Bool) (ord : Order) (w : Exchange)
      → Permits w self
      → ord.client_fd ≡ pos self
      → ord.id ≡ w.next_order_id
      → 0 < ord.price
      → Step Permits self w (record w {
        orderbook = (add_order realloc w.orderbook ord).0;
        next_order_id = w.next_order_id + 1;
      })

pub data Steps (Permits : Exchange → ℕ → Type 0) (self : ℕ) (w : Exchange) : Exchange → Type 0 where
  here : Steps Permits self w w
  next : {u v : Exchange} → Steps Permits self w u → Step Permits self u v → Steps Permits self w v

module _ (Permits : Exchange → ℕ → Type 0) where
  pub Steps-trans :
      {self : ℕ} {u v w : Exchange}
      → Steps Permits self u v
      → Steps Permits self v w
      → Steps Permits self u w
  Steps-trans p here = p
  Steps-trans p (next q s) = next (Steps-trans p q) s

  pub talked : {self : ℕ} (w w' : Exchange) → Talks w w' → Steps Permits self w w'
  talked w w' t = next here (talks w w' t)

  -- What every step keeps, a sequence of steps keeps.
  pub Steps-kept {ℓ} :
      (P : Exchange → Type ℓ)
      → {self : ℕ} → ((u v : Exchange) → Step Permits self u v → P u → P v)
      → {w w' : Exchange} → Steps Permits self w w'
      → P w
      → P w'
  Steps-kept P kept here p = p
  Steps-kept P kept (next q s) p = kept _ _ s (Steps-kept P kept q p)

  module _ (env : Env) where
    accept_order-Steps :
        (side : OrderSide) (i : Instrument) (quantity price self : ℕ) (w : Exchange)
        → 0 < price
        → Permits w self
        → Steps Permits self w (accept_order env side i quantity price self w).0
    unfolding accept_order
    accept_order-Steps side i quantity price self w priced permitted =
        let order = new_order side i quantity price self w in
        let counted = record w { next_order_id = w.next_order_id + 1 } in
        let told = send_to-Talks env (id_line (codes "ORDER_ACCEPTED") order.id) self counted in
        let s = send_to env (id_line (codes "ORDER_ACCEPTED") order.id) self counted in
        let realloc = env.realloc_fills w.os.calls in
        let added = add_order realloc (s.0).orderbook order in
        next (next here (places realloc order w permitted refl refl priced)) (
          talks _ _ (
            Talks-trans
              (record {
                serves = told.serves;
                same_book = ap (λ b. (add_order realloc b order).0) told.same_book;
                same_id = told.same_id;
                same_length = told.same_length;
              })
              (announce_all-Talks env added.1 self (record (s.0) { orderbook = added.0 }, s.1))))

    pub refuse-Steps :
        (reason : List ℕ) (self : ℕ) (w : Exchange)
        → Steps Permits self w (refuse env reason self w).0
    refuse-Steps reason self w = talked w _ (refuse-Talks env reason self w)

    place_known-Steps :
        (side : OrderSide) (i : Instrument) (quantity price : ℤ) (self : ℕ) (w : Exchange)
        → Permits w self
        → Steps Permits self w (place_known env side i quantity price self w).0
    unfolding place_known
    place_known-Steps side i (pos (suc quantity)) (pos (suc price)) self w permitted =
        if_elim (λ (r : Exchange × Bool). Steps Permits self w r.0) (env.calloc_order w.os.calls)
          (λ _. accept_order-Steps side i (suc quantity) (suc price) self w (omega arith) permitted)
          (λ _. refuse-Steps _ self w)
    place_known-Steps side i _ _ self w permitted = refuse-Steps _ self w

    pub place_order-Steps :
        (side : OrderSide) (instrument : List ℕ) (quantity price : ℤ) (self : ℕ) (w : Exchange)
        → Permits w self
        → Steps Permits self w (place_order env side instrument quantity price self w).0
    unfolding place_order place_found
    place_order-Steps side instrument quantity price self w permitted =
        found (find_instrument instrument)
      where
        found :
            (i : Option Instrument)
            → Steps Permits self w (place_found env side i quantity price self w).0
        found none = refuse-Steps _ self w
        found (some i) = place_known-Steps side i quantity price self w permitted
