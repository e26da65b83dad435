-- ===== src/Book/Invariant.antt =====
-- What makes a book valid, and addOrder.
use mathlib.Core.List.{append-nil}
use the_socket_exchange.Prelude.{
  ℕ, ◌<◌, ◌≡◌, ◌⊎◌, refl, inl, inr, ◌∙◌, Bool, true, false, Bool-cases, List, [], ◌∷◌, arith, ltb,
  ◌==◌, ==_iff, All, All-append,
}
use the_socket_exchange.Book.{
  Order, FillBuffer, LimitOrderBook, Instrument, OrderSide, jnst, imct, buy, sell, Head, jnst_buy,
  jnst_sell, imct_buy, imct_sell, deref, own_head, opp_head, own_list, opp_list, init_orderbook,
  empty_buffer, visit, match_loop, add_order,
}
use the_socket_exchange.Book.Round.{round, skipped, partly, wholly}
use the_socket_exchange.Book.Levels.{at_price, consume, total, at_price-append, consume-all}
use the_socket_exchange.Book.Matching.{
  after_add, level, remainder, opposite_lem, opposite_levels, own_lem, other_lem, other,
  own-ne-other, opp-ne-other,
}

-- A resting order stands in the queue of its instrument and side, with something left to trade.
abbrev pub Rests : Head → Order → Type 0
Rests h o = (own_list o ≡ h) × (0 < o.quantity) × (0 < o.price)

-- No buy order and sell order of an instrument rest at one price.
abbrev pub Uncrossed : List Order → List Order → Type 0
Uncrossed buys sells = (p : ℕ) → (at_price p buys ≡ []) ⊎ (at_price p sells ≡ [])

pub record IsValid (book : LimitOrderBook) : Type 0 where
  pub rests : (h : Head) → All (Rests h) (deref h book)
  pub uncrossed :
      (i : Instrument) → Uncrossed (deref (own_head i buy) book) (deref (own_head i sell) book)

module _ (realloc : ℕ → Bool) where
  Rests-match_loop :
      (h : Head) (ord : Order) (b : FillBuffer) (os : List Order)
      → All (Rests h) os
      → All (Rests h) (match_loop realloc ord b os).kept
  unfolding match_loop
  Rests-match_loop h ord b [] a = tt
  Rests-match_loop h ord b (o ∷ os) a = elim (Bool-cases (ltb 0 ord.quantity)) [
    | inr stop ↦ rw (stop, match_loop) a
    | inl go ↦
        let v = visit realloc ord o b in
        let rest = Rests-match_loop h v.ord v.buffer os a.1 in
        rw (go, match_loop)
          (All-append (Rests h) v.kept _
            (elim (round realloc ord o b) [
              | skipped ne e ↦ rw e (a.0, tt)
              | partly same less e ↦ rw e ((a.0.0, omega arith, a.0.2), tt)
              | wholly same more e ↦ rw e tt
            ])
            rest)
  ]

module _ (realloc : ℕ → Bool) (book : LimitOrderBook) (ord : Order) where
  abbrev own : LimitOrderBook → List Order
  own b = deref (own_list ord) b

  abbrev opp : LimitOrderBook → List Order
  opp b = deref (opp_list ord) b

  abbrev after : LimitOrderBook
  after = after_add realloc book ord

  own-grows : (p : ℕ) → (p == ord.price) ≡ false → at_price p (own after) ≡ at_price p (own book)
  unfolding at_price
  own-grows p differs = elim (Bool-cases (ltb (total (level realloc book ord)) ord.quantity)) [
    | inl more ↦
        rw
          (
            own_lem realloc book ord,
            more,
            at_price-append p (own book) (remainder realloc book ord ∷ []),
          )
          (ground (arith, append-nil (at_price p (own book))))
    | inr done ↦ rw (own_lem realloc book ord, done)
  ]

  level-empty :
      (p : ℕ) → (p == ord.price) ≡ true → at_price p (opp book) ≡ [] → at_price p (opp after) ≡ []
  unfolding consume
  level-empty p same e =
      let here : level realloc book ord ≡ [] = rw (← (==_iff p ord.price).0 same) e in
      rw (opposite_levels realloc book ord p, same, here)

  -- The pair of queues that addOrder works on.
  uncrossed_pair :
      (p : ℕ)
      → (at_price p (own book) ≡ []) ⊎ (at_price p (opp book) ≡ [])
      → (at_price p (own after) ≡ []) ⊎ (at_price p (opp after) ≡ [])
  uncrossed_pair p u = elim (Bool-cases (p == ord.price)) [
    | inr differs ↦ elim u [
      | inl e ↦ inl (own-grows p differs ∙ e)
      | inr e ↦ inr (rw (opposite_levels realloc book ord p, differs) e)
    ]
    | inl same ↦ elim (Bool-cases (ltb (total (level realloc book ord)) ord.quantity)) [
      | inl more ↦ inr (
          rw (opposite_levels realloc book ord p, same)
            (consume-all ord.quantity (level realloc book ord) (ground arith)))
      | inr done ↦ elim u [
        | inl e ↦ inl (rw (own_lem realloc book ord, done) e)
        | inr e ↦ inr (level-empty p same e)
      ]
    ]
  ]

Instrument-cases : (i j : Instrument) → (i ≡ j) ⊎ (i ≡ other j)
Instrument-cases jnst jnst = inl refl
Instrument-cases imct imct = inl refl
Instrument-cases jnst imct = inr refl
Instrument-cases imct jnst = inr refl

pub Head-cases :
    (h : Head) (i : Instrument) (s : OrderSide)
    → (own_head i s ≡ h) ⊎ ((opp_head i s ≡ h) ⊎ ((t : OrderSide) × (own_head (other i) t ≡ h)))
Head-cases jnst_buy jnst buy = inl refl
Head-cases jnst_buy jnst sell = inr (inl refl)
Head-cases jnst_sell jnst buy = inr (inl refl)
Head-cases jnst_sell jnst sell = inl refl
Head-cases imct_buy jnst s = inr (inr (buy, refl))
Head-cases imct_sell jnst s = inr (inr (sell, refl))
Head-cases jnst_buy imct s = inr (inr (buy, refl))
Head-cases jnst_sell imct s = inr (inr (sell, refl))
Head-cases imct_buy imct buy = inl refl
Head-cases imct_buy imct sell = inr (inl refl)
Head-cases imct_sell imct buy = inr (inl refl)
Head-cases imct_sell imct sell = inl refl

⊎-swap {ℓ κ} : {A : Type ℓ} {B : Type κ} → A ⊎ B → B ⊎ A
⊎-swap (inl a) = inr a
⊎-swap (inr b) = inl b

-- The queues of an instrument, named from the side of an order or from the side of `buy`.
as_own :
    (i : Instrument) (s : OrderSide) (b : LimitOrderBook)
    → Uncrossed (deref (own_head i buy) b) (deref (own_head i sell) b)
    → Uncrossed (deref (own_head i s) b) (deref (opp_head i s) b)
as_own jnst buy b u = u
as_own imct buy b u = u
as_own jnst sell b u = λ p. ⊎-swap (u p)
as_own imct sell b u = λ p. ⊎-swap (u p)

of_own :
    (i : Instrument) (s : OrderSide) (b : LimitOrderBook)
    → Uncrossed (deref (own_head i s) b) (deref (opp_head i s) b)
    → Uncrossed (deref (own_head i buy) b) (deref (own_head i sell) b)
of_own jnst buy b u = u
of_own imct buy b u = u
of_own jnst sell b u = λ p. ⊎-swap (u p)
of_own imct sell b u = λ p. ⊎-swap (u p)

-- Adding an order of positive price to a valid book leaves the book valid: every order stands in
-- the queue of its instrument and side with a positive quantity and price, and no buy and sell
-- order of an instrument rest at one price.
pub add_order-IsValid :
    (realloc : ℕ → Bool) (book : LimitOrderBook) (ord : Order)
    → IsValid book
    → 0 < ord.price
    → IsValid (add_order realloc book ord).0
add_order-IsValid realloc book ord v priced = record {
  rests = λ h. elim (Head-cases h ord.instrument ord.type) [
    | inl e ↦ rw (← e) own_rests
    | inr (inl e) ↦ rw (← e) (
        rw (opposite_lem realloc book ord)
          (Rests-match_loop realloc _ ord empty_buffer _ (v.rests (opp_list ord))))
    | inr (inr (t, e)) ↦ rw (← e) (rw (unmoved t) (v.rests _))
  ];
  uncrossed = λ i. elim (Instrument-cases i ord.instrument) [
    | inl e ↦ rw e (
        of_own ord.instrument ord.type _ (λ p.
          uncrossed_pair realloc book ord p
            (as_own ord.instrument ord.type book (v.uncrossed ord.instrument) p)))
    | inr e ↦ rw e (rw (unmoved buy, unmoved sell) (v.uncrossed _))
  ];
}
  where
    unmoved :
        (t : OrderSide)
        → deref (own_head (other ord.instrument) t) (after_add realloc book ord)
          ≡ deref (own_head (other ord.instrument) t) book
    unmoved t =
        other_lem realloc book ord _ (own-ne-other ord.instrument ord.type t)
          (opp-ne-other ord.instrument ord.type t)

    own_rests : All (Rests (own_list ord)) (deref (own_list ord) (after_add realloc book ord))
    own_rests = elim (Bool-cases (ltb (total (level realloc book ord)) ord.quantity)) [
      | inl more ↦
          rw (own_lem realloc book ord, more)
            (All-append _ (deref (own_list ord) book) _ (v.rests _)
              ((refl, ground arith, priced), tt))
      | inr done ↦ rw (own_lem realloc book ord, done) (v.rests _)
    ]

pub init_orderbook-IsValid : IsValid init_orderbook
unfolding init_orderbook at_price
init_orderbook-IsValid = record {
  rests = elim [ jnst_buy ↦ tt | jnst_sell ↦ tt | imct_buy ↦ tt | imct_sell ↦ tt ];
  uncrossed = elim [ jnst ↦ λ p. inl refl | imct ↦ λ p. inl refl ];
}
