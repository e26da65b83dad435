-- ===== src/Book/Levels.antt =====
-- An independent description of matching, one price level at a time.
use the_socket_exchange.Prelude.{
  ◌<◌, ℕ, ◌+◌, ◌-◌, ◌≡◌, refl, inl, inr, Bool, true, false, Bool-cases, List, [], ◌∷◌, ◌++◌, arith,
  ltb, ◌==◌, if◌then◌else◌,
}
use the_socket_exchange.Book.Round.{round, skipped, partly, wholly}
use the_socket_exchange.Book.{Order, FillBuffer, execute, visit, match_loop}

-- The orders that rest at a price, oldest first.
unfoldable pub at_price : ℕ → List Order → List Order
at_price p [] = []
at_price p (o ∷ os) = let rest = at_price p os in if o.price == p then o ∷ rest else rest

-- What a taker of quantity `q` leaves of one level: it takes from the oldest order first, and
-- from an order only after all older ones are used up.
unfoldable pub consume : ℕ → List Order → List Order
consume q [] = []
consume q (o ∷ os) =
    let rest = consume (q - o.quantity) os in
    if q == 0
    then o ∷ os
    else if ltb q o.quantity
    then record o { quantity = o.quantity - q } ∷ os
    else rest

-- The quantity that rests in a list of orders.
unfoldable pub total : List Order → ℕ
total [] = 0
total (o ∷ os) = o.quantity + total os

pub at_price-append :
    (p : ℕ) (xs ys : List Order) → at_price p (xs ++ ys) ≡ at_price p xs ++ at_price p ys
unfolding at_price
at_price-append p [] ys = refl
at_price-append p (x ∷ xs) ys = ground (arith, at_price-append p xs ys)

consume-zero : (q : ℕ) (os : List Order) → ltb 0 q ≡ false → consume q os ≡ os
unfolding consume
consume-zero q [] h = refl
consume-zero q (o ∷ os) h = ground arith

pub consume-at_zero : (os : List Order) → consume 0 os ≡ os
consume-at_zero os = consume-zero 0 os refl

pub consume-all : (q : ℕ) (os : List Order) → total os < q → consume q os ≡ []
unfolding consume total
consume-all q [] h = refl
consume-all q (o ∷ os) h = ground (arith, consume-all (q - o.quantity) os)

-- The level that the taker trades on, or another.
abbrev left_on : ℕ → Order → List Order → List Order
left_on p ord os = if p == ord.price then consume ord.quantity (at_price p os) else at_price p os

level_nil : (p : ℕ) (ord : Order) → at_price p [] ≡ left_on p ord []
unfolding at_price consume
level_nil p ord = ground arith

module _ (realloc : ℕ → Bool) where
  -- One round of the loop, against the description.
  left_on-visit :
      (p : ℕ) (ord o : Order) (b : FillBuffer) (os : List Order)
      → ltb 0 ord.quantity ≡ true
      → at_price p (visit realloc ord o b).kept ++ left_on p (visit realloc ord o b).ord os
        ≡ left_on p ord (o ∷ os)
  unfolding at_price consume
  left_on-visit p ord o b os h = elim (round realloc ord o b) [
    | skipped ne e ↦ rw e (ground arith)
    | partly same less e ↦ rw e (ground (arith, consume-at_zero (at_price p os)))
    | wholly same more e ↦ rw e (ground arith)
  ]

  -- On every level the loop leaves what the description says.
  pub at_price-match_loop :
      (p : ℕ) (ord : Order) (b : FillBuffer) (os : List Order)
      → at_price p (match_loop realloc ord b os).kept
        ≡ (if p == ord.price then consume ord.quantity (at_price p os) else at_price p os)
  unfolding match_loop
  at_price-match_loop p ord b [] = level_nil p ord
  at_price-match_loop p ord b (o ∷ os) = elim (Bool-cases (ltb 0 ord.quantity)) [
    | inl go ↦
        let v = visit realloc ord o b in
        rw (go, match_loop)
          (rw (at_price-append p v.kept, at_price-match_loop p v.ord v.buffer os)
            (left_on-visit p ord o b os go))
    | inr stop ↦
        rw (stop, match_loop) (ground (arith, consume-zero ord.quantity (at_price p (o ∷ os)) stop))
  ]

  pub residual-match_loop :
      (ord : Order) (b : FillBuffer) (os : List Order)
      → (match_loop realloc ord b os).ord
        ≡ record ord { quantity = ord.quantity - total (at_price ord.price os) }
  unfolding match_loop visit execute at_price total
  residual-match_loop ord b [] = ground arith
  residual-match_loop ord b (o ∷ os) =
      let v = visit realloc ord o b in ground (arith, residual-match_loop v.ord v.buffer os)
