-- ===== src/Book/Fills.antt =====
-- The fills of addOrder, against an independent description of them.
use the_socket_exchange.Prelude.{
  ℤ, ◌≤◌, ◌∙◌, length, length-append, sym, ap, ℕ, ◌-◌, ◌≡◌, refl, inl, inr, Bool, true, false,
  Bool-cases, List, [], ◌∷◌, ◌++◌, arith, ltb, ◌==◌, if◌then◌else◌,
}
use mathlib.Core.List.{append_assoc, append-nil}
use the_socket_exchange.Book.Round.{round, skipped, partly, wholly}
use the_socket_exchange.Book.{
  push_fill, grow_fills, Order, OrderSide, buy, sell, Fill, FillBuffer, fill_of, visit, match_loop,
}
use the_socket_exchange.Book.Levels.{at_price}

-- The owner of the order on one side of a trade, by the side of the taker.
abbrev pub owner_on : OrderSide → OrderSide → ℤ → ℤ → ℤ
owner_on buy buy taker maker = taker
owner_on buy sell taker maker = maker
owner_on sell buy taker maker = maker
owner_on sell sell taker maker = taker

-- A trade of a taker with a resting order: it is made at the price of the resting order.
unfoldable pub deal : Order → Order → ℕ → Fill
deal taker maker q = record {
  price = maker.price;
  quantity = q;
  buy_client_fd = owner_on buy taker.type taker.client_fd maker.client_fd;
  sell_client_fd = owner_on sell taker.type taker.client_fd maker.client_fd;
  instrument = taker.instrument;
}

-- The fills of a taker of quantity `q` at one level.
unfoldable pub trades : Order → ℕ → List Order → List Fill
unfolding deal
trades ord q [] = []
trades ord q (o ∷ os) =
    let rest = trades ord (q - o.quantity) os in
    if q == 0
    then []
    else if ltb q o.quantity
    then deal ord o q ∷ []
    else deal ord o o.quantity ∷ rest

fill_of-deal : (taker maker : Order) (q : ℕ) → fill_of taker maker q ≡ deal taker maker q
unfolding fill_of deal
fill_of-deal taker maker q = sides taker.type
  where
    sides :
        (s : OrderSide)
        → fill_of (record taker { type = s }) maker q ≡ deal (record taker { type = s }) maker q
    sides buy = refl
    sides sell = refl

-- The same fills, as the code writes them.
unfoldable traded_by_code : Order → ℕ → List Order → List Fill
traded_by_code ord q [] = []
traded_by_code ord q (o ∷ os) =
    let rest = traded_by_code ord (q - o.quantity) os in
    if q == 0
    then []
    else if ltb q o.quantity
    then fill_of ord o q ∷ []
    else fill_of ord o o.quantity ∷ rest

traded_by_code-trades :
    (ord : Order) (q : ℕ) (os : List Order) → traded_by_code ord q os ≡ trades ord q os
unfolding traded_by_code trades
traded_by_code-trades ord q [] = refl
traded_by_code-trades ord q (o ∷ os) =
    rw
      (
        fill_of-deal ord o q,
        fill_of-deal ord o o.quantity,
        traded_by_code-trades ord (q - o.quantity) os,
      )
      refl

traded_by_code_zero :
    (ord : Order) (q : ℕ) (os : List Order) → ltb 0 q ≡ false → traded_by_code ord q os ≡ []
unfolding traded_by_code
traded_by_code_zero ord q [] h = refl
traded_by_code_zero ord q (o ∷ os) h = ground arith

traded_by_code_quantity :
    (ord : Order) (n q : ℕ) (os : List Order)
    → traded_by_code (record ord { quantity = n }) q os ≡ traded_by_code ord q os
unfolding traded_by_code fill_of
traded_by_code_quantity ord n q [] = refl
traded_by_code_quantity ord n q (o ∷ os) = rw (traded_by_code_quantity ord n (q - o.quantity) os)

module _ (realloc : ℕ → Bool) (memory : (n : ℕ) → realloc n ≡ true) where
  abbrev Fits : FillBuffer → Type 0
  Fits b = length b.filled ≤ b.cap

  push_fill-Fits : (b : FillBuffer) (f : Fill) → Fits b → Fits (push_fill realloc b f)
  unfolding push_fill grow_fills
  push_fill-Fits b f h = ground (arith, length-append b.filled (f ∷ []))

  filled-push_fill :
      (b : FillBuffer) (f : Fill) → Fits b → (push_fill realloc b f).filled ≡ b.filled ++ f ∷ []
  unfolding push_fill grow_fills
  filled-push_fill b f h = ground (arith, memory b.reallocs)

  filled-visit :
      (ord o : Order) (b : FillBuffer) (os : List Order)
      → ltb 0 ord.quantity ≡ true
      → Fits b
      → Fits (visit realloc ord o b).buffer
        × ((visit realloc ord o b).buffer.filled
              ++ traded_by_code
                  (visit realloc ord o b).ord
                  (visit realloc ord o b).ord.quantity
                  (at_price (visit realloc ord o b).ord.price os)
            ≡ b.filled ++ traded_by_code ord ord.quantity (at_price ord.price (o ∷ os)))
  unfolding at_price traded_by_code
  filled-visit ord o b os h fits = elim (round realloc ord o b) [
    | skipped ne e ↦ rw e (ground arith)
    | partly same less e ↦
        let f = fill_of ord o ord.quantity in
        let level = at_price ord.price os in
        rw e (
          push_fill-Fits b f fits,
          rw (filled-push_fill b f fits, append_assoc)
              (ap (◌++◌ b.filled) (
                ground (
                  arith,
                  traded_by_code_quantity ord 0 0 level,
                  traded_by_code_zero ord 0 level refl,
                ))),
        )
    | wholly same more e ↦
        let f = fill_of ord o o.quantity in
        let left = ord.quantity - o.quantity in
        rw e (
          push_fill-Fits b f fits,
          rw (filled-push_fill b f fits, append_assoc)
              (ap (◌++◌ b.filled)
                (ground (arith, traded_by_code_quantity ord left left (at_price ord.price os)))),
        )
  ]

  traded_by_code_nil :
      (ord : Order) (b : FillBuffer)
      → b.filled ≡ b.filled ++ traded_by_code ord ord.quantity (at_price ord.price [])
  unfolding traded_by_code at_price
  traded_by_code_nil ord b = sym (append-nil b.filled)

  filled_by_code-match_loop :
      (ord : Order) (b : FillBuffer) (os : List Order)
      → Fits b
      → (match_loop realloc ord b os).buffer.filled
        ≡ b.filled ++ traded_by_code ord ord.quantity (at_price ord.price os)
  unfolding match_loop
  filled_by_code-match_loop ord b [] fits = traded_by_code_nil ord b
  filled_by_code-match_loop ord b (o ∷ os) fits = elim (Bool-cases (ltb 0 ord.quantity)) [
    | inl go ↦
        let v = visit realloc ord o b in
        let step = filled-visit ord o b os go fits in
        rw (go, match_loop) (filled_by_code-match_loop v.ord v.buffer os step.0 ∙ step.1)
    | inr stop ↦
        rw
          (
            stop,
            match_loop,
            traded_by_code_zero ord ord.quantity (at_price ord.price (o ∷ os)) stop,
          )
          (sym (append-nil b.filled))
  ]

  pub filled-match_loop :
      (ord : Order) (b : FillBuffer) (os : List Order)
      → Fits b
      → (match_loop realloc ord b os).buffer.filled
        ≡ b.filled ++ trades ord ord.quantity (at_price ord.price os)
  filled-match_loop ord b os fits =
      filled_by_code-match_loop ord b os fits
      ∙ ap (◌++◌ b.filled) (traded_by_code-trades ord ord.quantity (at_price ord.price os))
