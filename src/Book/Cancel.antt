-- ===== src/Book/Cancel.antt =====
-- cancelOrder and detachClientOrders: who can take an order out, and what stays.
use the_socket_exchange.Prelude.{
  ℕ, ◌≡◌, ◌⊎◌, refl, inl, inr, ap, ℤ, eq_ℤ, eq_ℤ_iff, Bool, true, false, Bool-cases, ◌&&◌, List, [],
  ◌∷◌, ◌++◌, arith, ◌==◌, All,
}
use the_socket_exchange.Book.{
  Order, LimitOrderBook, Head, jnst_buy, jnst_sell, imct_buy, imct_sell, buy, sell, deref, assign,
  own_head, cancel_in, cancel_at, or_else, cancel_order,
}
use the_socket_exchange.Book.Levels.{at_price}
use the_socket_exchange.Book.Invariant.{Rests, IsValid}
use the_socket_exchange.Book.Matching.{deref-assign_self, deref-assign_ne}

abbrev pub Owns : ℕ → ℤ → Order → Type 0
Owns id fd o = (o.id ≡ id) × (o.client_fd ≡ fd)

abbrev pub Foreign : ℕ → ℤ → Order → Type 0
Foreign id fd o = ¬ Owns id fd o

-- What one queue can look like before and after.
data Cancels (id : ℕ) (fd : ℤ) (os : List Order) : Type 0 where
  absent : All (Foreign id fd) os → cancel_in os id fd ≡ (os, false) → Cancels id fd os
  found :
      (before : List Order) (o : Order) (after : List Order)
      → os ≡ before ++ o ∷ after
      → All (Foreign id fd) before
      → Owns id fd o
      → cancel_in os id fd ≡ (before ++ after, true)
      → Cancels id fd os

is_own : ℕ → ℤ → Order → Bool
is_own id fd o = o.id == id && eq_ℤ o.client_fd fd

is_own→Owns : (id : ℕ) (fd : ℤ) (o : Order) → is_own id fd o ≡ true → Owns id fd o
unfolding is_own
is_own→Owns id fd o h = ground (arith, eq_ℤ_iff o.client_fd fd)

not-is_own→Foreign : (id : ℕ) (fd : ℤ) (o : Order) → is_own id fd o ≡ false → Foreign id fd o
unfolding is_own
not-is_own→Foreign id fd o h = λ w. ground (arith, eq_ℤ_iff o.client_fd fd)

cancels : (id : ℕ) (fd : ℤ) (os : List Order) → Cancels id fd os
unfolding cancel_in is_own
cancels id fd [] = absent tt refl
cancels id fd (o ∷ os) = elim (Bool-cases (is_own id fd o)) [
  | inl own ↦ found [] o os refl tt (is_own→Owns id fd o own) (rw (own, cancel_in))
  | inr other ↦ elim (cancels id fd os) [
    | absent none_own e ↦
        absent (not-is_own→Foreign id fd o other, none_own) (rw (other, cancel_in, e))
    | found before x after split front own e ↦
        found (o ∷ before) x after (ap (◌∷◌ o) split) (not-is_own→Foreign id fd o other, front) own
          (rw (other, cancel_in, e))
  ]
]

empty-remove :
    (p : ℕ) (xs : List Order) (o : Order) (ys : List Order)
    → at_price p (xs ++ o ∷ ys) ≡ []
    → at_price p (xs ++ ys) ≡ []
unfolding at_price
empty-remove p [] o ys h = ground arith
empty-remove p (x ∷ xs) o ys h = ground (arith, empty-remove p xs o ys)

module _ {ℓ} (P : Order → Type ℓ) where
  pub All-remove :
      (xs : List Order) (o : Order) (ys : List Order) → All P (xs ++ o ∷ ys) → All P (xs ++ ys)
  All-remove [] o ys a = a.1
  All-remove (x ∷ xs) o ys a = (a.0, All-remove xs o ys a.1)

-- The two results of cancelOrder: nothing is the client's, and nothing happens; or one order that
-- the client owns under this id leaves its queue, and the rest keeps its order.
pub data CancelOutcome (id : ℕ) (fd : ℤ) (book : LimitOrderBook) (r : LimitOrderBook × Bool)
    : Type 0 where
  no_such :
      ((h : Head) → All (Foreign id fd) (deref h book))
      → r ≡ (book, false)
      → CancelOutcome id fd book r
  taken :
      (h : Head) (before : List Order) (o : Order) (after : List Order)
      → deref h book ≡ before ++ o ∷ after
      → Owns id fd o
      → r ≡ (assign h (before ++ after) book, true)
      → CancelOutcome id fd book r

module _ (book : LimitOrderBook) (id : ℕ) (fd : ℤ) where
  assign_same : (h : Head) → assign h (deref h book) book ≡ book
  assign_same h = ground arith

  -- One of the four searches.
  search_at :
      (h : Head)
      → (All (Foreign id fd) (deref h book) × (cancel_at h book id fd ≡ (book, false)))
        ⊎ (CancelOutcome id fd book (cancel_at h book id fd) × ((cancel_at h book id fd).1 ≡ true))
  search_at h = elim (cancels id fd (deref h book)) [
    | absent foreign e ↦ inl (foreign, rw e (ap (λ b. (b, false)) (assign_same h)))
    | found before o after split front own e ↦ inr (taken h before o after split own (rw e), rw e)
  ]

  or_else-found :
      (r s : LimitOrderBook × Bool)
      → CancelOutcome id fd book r × (r.1 ≡ true)
      → CancelOutcome id fd book (or_else r s)
  or_else-found (b, true) s (o, t) = o
  or_else-found (b, false) s (o, t) = cc

  or_else-missed :
      (r s : LimitOrderBook × Bool)
      → r ≡ (book, false)
      → CancelOutcome id fd book s
      → CancelOutcome id fd book (or_else r s)
  or_else-missed r s e o = rw (ap (λ (x : LimitOrderBook × Bool). x.1) e) o

  everywhere :
      (P : Order → Type 0)
      → All P book.jnst_buy_orders
      → All P book.jnst_sell_orders
      → All P book.imct_buy_orders
      → All P book.imct_sell_orders
      → (h : Head) → All P (deref h book)
  everywhere P a b c d = elim [ jnst_buy ↦ a | jnst_sell ↦ b | imct_buy ↦ c | imct_sell ↦ d ]

  -- cancelOrder takes out one order, of that id and owner, and leaves all else in its place; or
  -- the book has none, and nothing changes.
  pub cancel_order-outcome : CancelOutcome id fd book (cancel_order book id fd)
  unfolding cancel_order
  cancel_order-outcome = elim (search_at jnst_buy) [
    | inr hit ↦ or_else-found _ _ hit
    | inl (a, e) ↦ or_else-missed _ _ e (elim (search_at jnst_sell) [
      | inr hit ↦ or_else-found _ _ hit
      | inl (b, e) ↦ or_else-missed _ _ e (elim (search_at imct_buy) [
        | inr hit ↦ or_else-found _ _ hit
        | inl (c, e) ↦ or_else-missed _ _ e (elim (search_at imct_sell) [
          | inr hit ↦ hit.0
          | inl (d, e) ↦ no_such (everywhere (Foreign id fd) a b c d) e
        ])
      ])
    ])
  ]

-- A book whose queues lose levels and gain none is still valid.
pub shrink-IsValid :
    (book book' : LimitOrderBook)
    → IsValid book
    → ((h : Head) → All (Rests h) (deref h book'))
    → ((h : Head) (p : ℕ) → at_price p (deref h book) ≡ [] → at_price p (deref h book') ≡ [])
    → IsValid book'
shrink-IsValid book book' v rests shrinks = record {
  rests = rests;
  uncrossed = λ i p. elim (v.uncrossed i p) [
    | inl e ↦ inl (shrinks (own_head i buy) p e)
    | inr e ↦ inr (shrinks (own_head i sell) p e)
  ];
}

Head-discrete : Discrete Head
Head-discrete = hlevel

pub assign-cases {ℓ} :
    (P : List Order → Type ℓ) (h g : Head) (l : List Order) (book : LimitOrderBook)
    → (h ≡ g → P l)
    → P (deref g book)
    → P (deref g (assign h l book))
assign-cases P h g l book new old = elim (Head-discrete h g) [
  | yes e ↦ rw (← e) (rw (deref-assign_self h l book) (new e))
  | no ne ↦ rw (deref-assign_ne h g l book ne) old
]

pub remove-IsValid :
    (book : LimitOrderBook) (h : Head) (before : List Order) (o : Order) (after : List Order)
    → deref h book ≡ before ++ o ∷ after
    → IsValid book
    → IsValid (assign h (before ++ after) book)
remove-IsValid book h before o after split v =
    shrink-IsValid book _ v
      (λ g.
        assign-cases (All (Rests g)) h g _ book
          (λ e. All-remove (Rests g) before o after (rw (← split, e) (v.rests g))) (v.rests g))
      (λ g p empty.
        assign-cases (λ l. at_price p l ≡ []) h g _ book
          (λ e. empty-remove p before o after (rw (← split, e) empty)) empty)
