-- ===== src/Book/Matching.antt =====
-- What addOrder does to the book and to the fills, against the description by price levels.
use the_socket_exchange.Prelude.{
  ℕ, ◌-◌, ◌≡◌, ◌≢◌, refl, sym, ap, ◌∙◌, inl, inr, Bool, true, false, Bool-cases, List, [], ◌∷◌,
  ◌++◌, arith, ltb, ◌==◌, if◌then◌else◌,
}
use the_socket_exchange.Book.{
  Order, LimitOrderBook, Instrument, OrderSide, jnst, imct, Head, deref, assign, own_head, opp_head,
  own_list, opp_list, empty_buffer, append, rest_or_free, match_loop, add_order,
}
use the_socket_exchange.Book.Levels.{
  at_price, consume, total, at_price-match_loop, residual-match_loop,
}
use the_socket_exchange.Book.Fills.{trades, filled-match_loop}

pub append-snoc : (os : List Order) (o : Order) → append os o ≡ os ++ o ∷ []
unfolding append
append-snoc [] o = refl
append-snoc (x ∷ os) o = ap (◌∷◌ x) (append-snoc os o)

pub deref-assign_self :
    (h : Head) (l : List Order) (b : LimitOrderBook) → deref h (assign h l b) ≡ l
deref-assign_self h l b = ground arith

pub deref-assign_ne :
    (g h : Head) (l : List Order) (b : LimitOrderBook) → g ≢ h → deref h (assign g l b) ≡ deref h b
deref-assign_ne g h l b ne = ground arith

pub own-ne-opp : (i : Instrument) (s : OrderSide) → own_head i s ≢ opp_head i s
own-ne-opp i s e = ground arith

abbrev pub other : Instrument → Instrument
other jnst = imct
other imct = jnst

pub own-ne-other : (i : Instrument) (s t : OrderSide) → own_head i s ≢ own_head (other i) t
own-ne-other i s t e = ground arith

pub opp-ne-other : (i : Instrument) (s t : OrderSide) → opp_head i s ≢ own_head (other i) t
opp-ne-other i s t e = ground arith

module _ (realloc : ℕ → Bool) (book : LimitOrderBook) (ord : Order) where
  -- The orders that the new one can trade with.
  abbrev pub level : List Order
  level = at_price ord.price (deref (opp_list ord) book)

  abbrev pub after_add : LimitOrderBook
  after_add = (add_order realloc book ord).0

  abbrev pub remainder : Order
  remainder = record ord { quantity = ord.quantity - total level }

  abbrev pub kept : List Order
  kept = (match_loop realloc ord empty_buffer (deref (opp_list ord) book)).kept

  left : (match_loop realloc ord empty_buffer (deref (opp_list ord) book)).ord ≡ remainder
  left = residual-match_loop realloc ord empty_buffer (deref (opp_list ord) book)

  after_add_lem : after_add ≡ (
      if ltb (total level) ord.quantity
      then assign
          (own_list ord)
          (deref (own_list ord) book ++ remainder ∷ [])
          (assign (opp_list ord) kept book)
      else assign (opp_list ord) kept book)
  unfolding add_order
  after_add_lem = elim (Bool-cases (ltb (total level) ord.quantity)) [
    | inl more ↦
        let e : ltb 0 (ord.quantity - total level) ≡ true = ground arith in
        rw (after_add, left, more, rest_or_free, e)
          (ap (λ l. assign (own_list ord) l (assign (opp_list ord) kept book))
            (append-snoc _ remainder
              ∙ ap (λ l. l ++ remainder ∷ [])
                  (deref-assign_ne (opp_list ord) (own_list ord) kept book
                    (λ e. own-ne-opp ord.instrument ord.type (sym e)))))
    | inr done ↦
        let e : ltb 0 (ord.quantity - total level) ≡ false = ground arith in
        rw (after_add, left, done, rest_or_free, e)
  ]

  pub opposite_lem : deref (opp_list ord) after_add ≡ kept
  opposite_lem = elim (Bool-cases (ltb (total level) ord.quantity)) [
    | inl more ↦
        rw (after_add_lem, more)
          (deref-assign_ne (own_list ord) (opp_list ord) _ _ (own-ne-opp ord.instrument ord.type)
            ∙ deref-assign_self (opp_list ord) kept book)
    | inr done ↦ rw (after_add_lem, done) (deref-assign_self (opp_list ord) kept book)
  ]

  pub opposite_levels :
      (p : ℕ)
      → at_price p (deref (opp_list ord) after_add) ≡ (
          if p == ord.price
          then consume ord.quantity level
          else at_price p (deref (opp_list ord) book))
  opposite_levels p =
      rw (opposite_lem, at_price-match_loop realloc p ord empty_buffer (deref (opp_list ord) book))
        (ground arith)

  pub own_lem : deref (own_list ord) after_add ≡ (
      if ltb (total level) ord.quantity
      then deref (own_list ord) book ++ remainder ∷ []
      else deref (own_list ord) book)
  own_lem = elim (Bool-cases (ltb (total level) ord.quantity)) [
    | inl more ↦ rw (after_add_lem, more) (deref-assign_self (own_list ord) _ _)
    | inr done ↦
        rw (after_add_lem, done)
          (deref-assign_ne (opp_list ord) (own_list ord) kept book
            (λ e. own-ne-opp ord.instrument ord.type (sym e)))
  ]

  pub other_lem :
      (h : Head) → own_list ord ≢ h → opp_list ord ≢ h → deref h after_add ≡ deref h book
  other_lem h own opp = elim (Bool-cases (ltb (total level) ord.quantity)) [
    | inl more ↦
        rw (after_add_lem, more)
          (deref-assign_ne (own_list ord) h _ _ own
            ∙ deref-assign_ne (opp_list ord) h kept book opp)
    | inr done ↦ rw (after_add_lem, done) (deref-assign_ne (opp_list ord) h kept book opp)
  ]

  -- addOrder, seen one price at a time: the opposite queue keeps at the new order's price what a
  -- taker of its quantity leaves, served oldest first, and every other price level of it is
  -- untouched; the own queue gets the unfilled remainder at its end exactly if the level does
  -- not hold enough; the queues of the other instrument are unchanged.
  pub add_order-levels :
      (p : ℕ) (s : OrderSide)
      → (at_price p (deref (opp_list ord) after_add) ≡ (
          if p == ord.price
          then consume ord.quantity level
          else at_price p (deref (opp_list ord) book)))
        × (deref (own_list ord) after_add ≡ (
            if ltb (total level) ord.quantity
            then deref (own_list ord) book ++ remainder ∷ []
            else deref (own_list ord) book))
        × (deref (own_head (other ord.instrument) s) after_add
            ≡ deref (own_head (other ord.instrument) s) book)
  add_order-levels p s = (
    opposite_levels p,
    own_lem,
    other_lem _ (own-ne-other ord.instrument ord.type s) (opp-ne-other ord.instrument ord.type s),
  )

  -- When no allocation fails, addOrder reports one fill for each resting order that the new one
  -- trades with, oldest first, each with the price of the resting order, the quantity traded, the
  -- owner of the buy order as the buyer, that of the sell order as the seller, and the instrument.
  pub add_order-fills :
      ((n : ℕ) → realloc n ≡ true) → (add_order realloc book ord).1 ≡ trades ord ord.quantity level
  unfolding add_order
  add_order-fills memory =
      filled-match_loop realloc memory ord empty_buffer (deref (opp_list ord) book) (omega arith)
