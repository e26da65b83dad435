-- ===== src/Book/Ids.antt =====
-- The ids of the resting orders, and a bound for them.
use the_socket_exchange.Prelude.{ℕ, ◌≤◌, ◌<◌, ℤ, Bool, List, [], ◌∷◌, arith, All}
use the_socket_exchange.Book.{
  Order, LimitOrderBook, deref, add_order, detach_in, detach_client_orders,
}
use the_socket_exchange.Book.Everywhere.{Everywhere, Everywhere-add_order}
use the_socket_exchange.Book.Detach.{deref-detach}

abbrev pub Below : ℕ → Order → Type 0
Below n o = o.id < n

abbrev pub IdsBelow : ℕ → LimitOrderBook → Type 0
IdsBelow n = Everywhere (Below n)

pub IdsBelow-add_order :
    (n : ℕ) (realloc : ℕ → Bool) (book : LimitOrderBook) (ord : Order)
    → IdsBelow n book
    → ord.id < n
    → IdsBelow n (add_order realloc book ord).0
IdsBelow-add_order n realloc = Everywhere-add_order (Below n) (λ o q b. b) realloc

Below-mono : (m n : ℕ) (os : List Order) → m ≤ n → All (Below m) os → All (Below n) os
Below-mono m n [] h a = tt
Below-mono m n (o ∷ os) h a = (omega arith, Below-mono m n os h a.1)

pub IdsBelow-mono : (m n : ℕ) (book : LimitOrderBook) → m ≤ n → IdsBelow m book → IdsBelow n book
IdsBelow-mono m n book le below = λ h. Below-mono m n (deref h book) le (below h)

Below-detach_in :
    (n : ℕ) (os : List Order) (fd : ℤ) → All (Below n) os → All (Below n) (detach_in os fd)
unfolding detach_in
Below-detach_in n [] fd a = tt
Below-detach_in n (o ∷ os) fd a = (ground arith, Below-detach_in n os fd a.1)

pub IdsBelow-detach_client_orders :
    (n : ℕ) (book : LimitOrderBook) (fd : ℤ)
    → IdsBelow n book
    → IdsBelow n (detach_client_orders book fd)
IdsBelow-detach_client_orders n book fd below =
    λ h. rw (deref-detach h book fd) (Below-detach_in n (deref h book) fd (below h))
