-- ===== src/Book/Conservation.antt =====
-- Quantities before and after addOrder.
use the_socket_exchange.Prelude.{
  ℕ, ◌+◌, ◌-◌, ◌≡◌, inl, inr, Bool, true, Bool-cases, List, [], ◌∷◌, ◌++◌, arith, ltb, ap,
}
use the_socket_exchange.Book.{
  Order, Fill, FillBuffer, LimitOrderBook, deref, own_list, opp_list, empty_buffer, visit,
  match_loop, add_order,
}
use the_socket_exchange.Book.Round.{round, skipped, partly, wholly}
use the_socket_exchange.Book.Levels.{total, residual-match_loop}
use the_socket_exchange.Book.Fills.{deal, trades}
use the_socket_exchange.Book.Matching.{
  after_add, level, remainder, opposite_lem, own_lem, add_order-fills,
}

-- The quantity that a list of fills reports.
unfoldable pub traded : List Fill → ℕ
traded [] = 0
traded (f ∷ fs) = f.quantity + traded fs

traded-append : (xs ys : List Fill) → traded (xs ++ ys) ≡ traded xs + traded ys
unfolding traded
traded-append [] ys = omega arith
traded-append (x ∷ xs) ys = omega (arith, traded-append xs ys)

pub total-append : (xs ys : List Order) → total (xs ++ ys) ≡ total xs + total ys
unfolding total
total-append [] ys = omega arith
total-append (x ∷ xs) ys = omega (arith, total-append xs ys)

-- The fills of a taker add up to what it can get.
traded-trades :
    (ord : Order) (q : ℕ) (os : List Order) → traded (trades ord q os) + (q - total os) ≡ q
unfolding traded trades total deal
traded-trades ord q [] = omega arith
traded-trades ord q (o ∷ os) = ground (arith, traded-trades ord (q - o.quantity) os)

module _ (realloc : ℕ → Bool) where
  total-match_loop :
      (ord : Order) (b : FillBuffer) (os : List Order)
      → total (match_loop realloc ord b os).kept + ord.quantity
        ≡ total os + (match_loop realloc ord b os).ord.quantity
  unfolding match_loop total
  total-match_loop ord b [] = omega arith
  total-match_loop ord b (o ∷ os) = elim (Bool-cases (ltb 0 ord.quantity)) [
    | inr stop ↦ rw (stop, match_loop)
    | inl go ↦
        let v = visit realloc ord o b in
        let rest = match_loop realloc v.ord v.buffer os in
        rw (go, match_loop)
          (elim (round realloc ord o b) [
            | skipped ne e ↦ omega (
              arith,
              total-append v.kept rest.kept,
              total-match_loop v.ord v.buffer os,
              ap (λ w. total w.kept) e,
              ap (λ w. w.ord.quantity) e,
            )
            | partly same less e ↦ omega (
              arith,
              total-append v.kept rest.kept,
              total-match_loop v.ord v.buffer os,
              ap (λ w. total w.kept) e,
              ap (λ w. w.ord.quantity) e,
            )
            | wholly same more e ↦ omega (
              arith,
              total-append v.kept rest.kept,
              total-match_loop v.ord v.buffer os,
              ap (λ w. total w.kept) e,
              ap (λ w. w.ord.quantity) e,
            )
          ])
  ]

module _ (realloc : ℕ → Bool) (book : LimitOrderBook) (ord : Order)
    (memory : (n : ℕ) → realloc n ≡ true) where
  reported :
      traded (add_order realloc book ord).1 + (ord.quantity - total (level realloc book ord))
      ≡ ord.quantity
  reported =
      rw (add_order-fills realloc book ord memory)
        (traded-trades ord ord.quantity (level realloc book ord))

  -- When no allocation fails, the opposite queue loses exactly the quantity that the fills
  -- report, and the own queue gains the new order's quantity less what they report.
  pub add_order-conserves :
      (total (deref (opp_list ord) (after_add realloc book ord))
          + traded (add_order realloc book ord).1
        ≡ total (deref (opp_list ord) book))
      × (total (deref (own_list ord) (after_add realloc book ord))
            + traded (add_order realloc book ord).1
          ≡ total (deref (own_list ord) book) + ord.quantity)
  unfolding total
  add_order-conserves = (
    omega (
      arith,
      reported,
      ap total (opposite_lem realloc book ord),
      total-match_loop realloc ord empty_buffer (deref (opp_list ord) book),
      ap (λ o. o.quantity)
          (residual-match_loop realloc ord empty_buffer (deref (opp_list ord) book)),
    ),
    elim (Bool-cases (ltb (total (level realloc book ord)) ord.quantity)) [
      | inl more ↦
          rw (own_lem realloc book ord, more)
            (ground (
              arith,
              reported,
              total-append (deref (own_list ord) book) (remainder realloc book ord ∷ []),
            ))
      | inr done ↦ rw (own_lem realloc book ord, done) (ground (arith, reported))
    ],
  )
