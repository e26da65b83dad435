-- ===== src/Book/Withdraw.antt =====
-- addOrder and cancelOrder, one after the other.
use the_socket_exchange.Prelude.{
  ℕ, ◌<◌, ◌≡◌, ◌≢◌, refl, ap, ◌∙◌, ℤ, eq_ℤ, eq_ℤ_iff, Bool, true, false, List, [], ◌∷◌, ◌++◌, arith,
  ltb, ◌==◌, ◌&&◌, All,
}
use the_socket_exchange.Book.{
  Order, LimitOrderBook, Head, jnst_buy, jnst_sell, imct_buy, imct_sell, deref, assign, own_list,
  opp_list, empty_buffer, visit, match_loop, rest_or_free, add_order, cancel_in, cancel_order,
}
use the_socket_exchange.Book.Levels.{at_price}
use the_socket_exchange.Book.Matching.{append-snoc}

-- The loop goes past a queue without orders at the new order's price.
match_loop_past :
    (realloc : ℕ → Bool) (ord : Order) (os : List Order)
    → at_price ord.price os ≡ []
    → match_loop realloc ord empty_buffer os
      ≡ record { kept = os; ord = ord; buffer = empty_buffer }
unfolding match_loop visit at_price
match_loop_past realloc ord [] none_there = refl
match_loop_past realloc ord (o ∷ os) none_there =
    let other : (o.price == ord.price) ≡ false = ground arith in
    let rest : at_price ord.price os ≡ [] = ground arith in
    rw (other, match_loop, visit, match_loop_past realloc ord os rest) (ground arith)

module _ (id : ℕ) (fd : ℤ) where
  abbrev Unlike : Order → Type 0
  Unlike o = o.id ≢ id

  cancel_in-Unlike : (os : List Order) → All Unlike os → cancel_in os id fd ≡ (os, false)
  unfolding cancel_in
  cancel_in-Unlike [] fresh = refl
  cancel_in-Unlike (o ∷ os) fresh =
      let other : (o.id == id) ≡ false = ground (arith, fresh.0) in
      rw (other, cancel_in, cancel_in-Unlike os fresh.1) refl

  cancel_in-last :
      (os : List Order) (x : Order)
      → All Unlike os
      → x.id ≡ id
      → x.client_fd ≡ fd
      → cancel_in (os ++ x ∷ []) id fd ≡ (os, true)
  unfolding cancel_in
  cancel_in-last [] x fresh same own =
      let hit : (x.id == id && eq_ℤ x.client_fd fd) ≡ true =
        ground (arith, eq_ℤ_iff x.client_fd fd) in
      rw (hit, cancel_in) refl
  cancel_in-last (o ∷ os) x fresh same own =
      let other : (o.id == id) ≡ false = ground (arith, fresh.0) in
      rw (other, cancel_in, cancel_in-last os x fresh.1 same own) refl

module _ (book : LimitOrderBook) (x : Order)
    (fresh : (h : Head) → All (λ o. o.id ≢ x.id) (deref h book)) where
  unlike : (h : Head) → cancel_in (deref h book) x.id x.client_fd ≡ (deref h book, false)
  unlike h = cancel_in-Unlike x.id x.client_fd (deref h book) (fresh h)

  last : (h : Head) → cancel_in (deref h book ++ x ∷ []) x.id x.client_fd ≡ (deref h book, true)
  last h = cancel_in-last x.id x.client_fd (deref h book) x (fresh h) refl refl

  -- An order at the end of its queue is found, whatever queue that is.
  cancel_order-last :
      (h : Head)
      → cancel_order (assign h (deref h book ++ x ∷ []) book) x.id x.client_fd ≡ (book, true)
  unfolding cancel_order
  cancel_order-last jnst_buy = rw (last jnst_buy) refl
  cancel_order-last jnst_sell = rw (unlike jnst_buy, last jnst_sell) refl
  cancel_order-last imct_buy = rw (unlike jnst_buy, unlike jnst_sell, last imct_buy) refl
  cancel_order-last imct_sell =
      rw (unlike jnst_buy, unlike jnst_sell, unlike imct_buy, last imct_sell) refl

  assign_same : (h : Head) → assign h (deref h book) book ≡ book
  assign_same h = ground arith

  module _ (realloc : ℕ → Bool) where
    add_order_resting :
        at_price x.price (deref (opp_list x) book) ≡ []
        → 0 < x.quantity
        → (add_order realloc book x).0
          ≡ assign (own_list x) (deref (own_list x) book ++ x ∷ []) book
    unfolding add_order rest_or_free
    add_order_resting none_there some_left =
        let some_left_test : ltb 0 x.quantity ≡ true = ground arith in
        rw
          (
            match_loop_past realloc x (deref (opp_list x) book) none_there,
            assign_same (opp_list x),
            some_left_test,
            rest_or_free,
            append-snoc (deref (own_list x) book) x,
          )
          refl

    -- A new order of positive quantity that meets no order of the other side at its price, and whose
    -- id no resting order has, is found by the cancellation of that id for its owner, and the book is
    -- then what it was before the order came, with every queue in its order.
    pub cancel_order-add_order :
        at_price x.price (deref (opp_list x) book) ≡ []
        → 0 < x.quantity
        → cancel_order (add_order realloc book x).0 x.id x.client_fd ≡ (book, true)
    cancel_order-add_order none_there some_left =
        ap (λ b. cancel_order b x.id x.client_fd) (add_order_resting none_there some_left)
        ∙ cancel_order-last (own_list x)
