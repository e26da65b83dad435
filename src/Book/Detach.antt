-- ===== src/Book/Detach.antt =====
-- detachClientOrders, and the orders of a departed client.
use the_socket_exchange.Prelude.{
  ℕ, ◌≡◌, ◌≢◌, refl, ℤ, pos, negsuc, eq_ℤ_iff, false, List, [], ◌∷◌, ◌++◌, map, arith, All,
}
use the_socket_exchange.Book.{
  Order, LimitOrderBook, Head, jnst_buy, jnst_sell, imct_buy, imct_sell, deref, cancel_order,
  detach_in, detach_client_orders,
}
use the_socket_exchange.Book.Levels.{at_price}
use the_socket_exchange.Book.Invariant.{Rests, IsValid}
use the_socket_exchange.Book.Cancel.{no_such, taken, cancel_order-outcome, shrink-IsValid}

-- An order less its owner.
abbrev pub anonymous : Order → Order
anonymous o = record o { client_fd = negsuc 0 }

pub deref-detach :
    (h : Head) (book : LimitOrderBook) (fd : ℤ)
    → deref h (detach_client_orders book fd) ≡ detach_in (deref h book) fd
unfolding detach_client_orders
deref-detach jnst_buy book fd = refl
deref-detach jnst_sell book fd = refl
deref-detach imct_buy book fd = refl
deref-detach imct_sell book fd = refl

detach_in-anonymous :
    (os : List Order) (fd : ℤ) → map anonymous (detach_in os fd) ≡ map anonymous os
unfolding detach_in
detach_in-anonymous [] fd = refl
detach_in-anonymous (o ∷ os) fd = ground (arith, detach_in-anonymous os fd)

detach_in-ne : (os : List Order) (fd : ℕ) → All (λ o. o.client_fd ≢ pos fd) (detach_in os (pos fd))
unfolding detach_in
detach_in-ne [] fd = tt
detach_in-ne (o ∷ os) fd = (λ e. ground (arith, eq_ℤ_iff o.client_fd (pos fd)), detach_in-ne os fd)

detach_in-Rests :
    (h : Head) (os : List Order) (fd : ℤ) → All (Rests h) os → All (Rests h) (detach_in os fd)
unfolding detach_in
detach_in-Rests h [] fd a = tt
detach_in-Rests h (o ∷ os) fd a = (ground arith, detach_in-Rests h os fd a.1)

detach_in-empty :
    (p : ℕ) (os : List Order) (fd : ℤ) → at_price p os ≡ [] → at_price p (detach_in os fd) ≡ []
unfolding detach_in at_price
detach_in-empty p [] fd e = refl
detach_in-empty p (o ∷ os) fd e = ground (arith, detach_in-empty p os fd)

All-at {ℓ} :
    (P : Order → Type ℓ) (xs : List Order) (o : Order) (ys : List Order)
    → All P (xs ++ o ∷ ys)
    → P o
All-at P [] o ys a = a.0
All-at P (x ∷ xs) o ys a = All-at P xs o ys a.1

module _ (book : LimitOrderBook) (fd : ℕ) where
  abbrev detached : LimitOrderBook
  detached = detach_client_orders book (pos fd)

  nobody : (h : Head) → All (λ o. o.client_fd ≢ pos fd) (deref h detached)
  nobody h = rw (deref-detach h book (pos fd)) (detach_in-ne (deref h book) fd)

  -- detachClientOrders keeps every order in its place and whole but for the owner, leaves none
  -- that names the descriptor, and no cancellation through that descriptor can take one out
  -- afterwards.
  pub detach_client_orders_lem :
      (h : Head) (id : ℕ)
      → (map anonymous (deref h detached) ≡ map anonymous (deref h book))
        × All (λ o. o.client_fd ≢ pos fd) (deref h detached)
        × (cancel_order detached id (pos fd) ≡ (detached, false))
  detach_client_orders_lem h id = (
    rw (deref-detach h book (pos fd)) (detach_in-anonymous (deref h book) (pos fd)),
    nobody h,
    elim (cancel_order-outcome detached id (pos fd)) [
      | no_such foreign e ↦ e
      | taken g before o after split own e ↦
          absurd (All-at _ before o after (rw split at (nobody g)) own.1)
    ],
  )

pub detach_client_orders-IsValid :
    (book : LimitOrderBook) (fd : ℤ) → IsValid book → IsValid (detach_client_orders book fd)
detach_client_orders-IsValid book fd v =
    shrink-IsValid book _ v
      (λ h. rw (deref-detach h book fd) (detach_in-Rests h (deref h book) fd (v.rests h)))
      (λ h p empty. rw (deref-detach h book fd) (detach_in-empty p (deref h book) fd empty))
