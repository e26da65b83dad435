-- ===== src/Book/Everywhere.antt =====
-- What all resting orders have in common, whatever their quantities.
use the_socket_exchange.Prelude.{
  ◌≡◌, ◌++◌, ℕ, inl, inr, Bool, Bool-cases, List, [], ◌∷◌, ltb, All, All-append,
}
use the_socket_exchange.Book.{
  assign, Order, LimitOrderBook, Head, deref, own_list, opp_list, FillBuffer, empty_buffer, visit,
  match_loop, add_order,
}
use the_socket_exchange.Book.Round.{round, skipped, partly, wholly}
use the_socket_exchange.Book.Levels.{total}
use the_socket_exchange.Book.Matching.{
  level, opposite_lem, own_lem, other_lem, own-ne-other, opp-ne-other,
}
use the_socket_exchange.Book.Invariant.{Head-cases}
use the_socket_exchange.Book.Cancel.{All-remove, assign-cases}

abbrev pub Everywhere : (Order → Type 0) → LimitOrderBook → Type 0
Everywhere Q book = (h : Head) → All Q (deref h book)

module _ (Q : Order → Type 0)
    (any_quantity : (o : Order) (n : ℕ) → Q o → Q (record o { quantity = n }))
    (realloc : ℕ → Bool) where
  All-match_loop :
      (ord : Order) (b : FillBuffer) (os : List Order)
      → All Q os
      → All Q (match_loop realloc ord b os).kept
  unfolding match_loop
  All-match_loop ord b [] a = tt
  All-match_loop ord b (o ∷ os) a = elim (Bool-cases (ltb 0 ord.quantity)) [
    | inr stop ↦ rw (stop, match_loop) a
    | inl go ↦
        let v = visit realloc ord o b in
        rw (go, match_loop)
          (All-append Q v.kept _
            (elim (round realloc ord o b) [
              | skipped ne e ↦ rw e (a.0, tt)
              | partly same less e ↦ rw e (any_quantity o _ a.0, tt)
              | wholly same more e ↦ rw e tt
            ])
            (All-match_loop v.ord v.buffer os a.1))
  ]

  pub Everywhere-add_order :
      (book : LimitOrderBook) (ord : Order)
      → Everywhere Q book
      → Q ord
      → Everywhere Q (add_order realloc book ord).0
  Everywhere-add_order book ord below fresh = λ h. elim (Head-cases h ord.instrument ord.type) [
    | inl e ↦ rw (← e) (elim (Bool-cases (ltb (total (level realloc book ord)) ord.quantity)) [
      | inl more ↦
          rw (own_lem realloc book ord, more)
            (All-append Q (deref (own_list ord) book) _ (below _) (any_quantity ord _ fresh, tt))
      | inr done ↦ rw (own_lem realloc book ord, done) (below _)
    ])
    | inr (inl e) ↦ rw (← e) (
        rw (opposite_lem realloc book ord)
          (All-match_loop ord empty_buffer _ (below (opp_list ord))))
    | inr (inr (t, e)) ↦ rw (← e) (
        rw
          (other_lem realloc book ord _ (own-ne-other ord.instrument ord.type t)
            (opp-ne-other ord.instrument ord.type t))
          (below _))
  ]

pub Everywhere-remove :
    (Q : Order → Type 0) (book : LimitOrderBook) (h : Head) (before : List Order) (o : Order)
    (after : List Order)
    → deref h book ≡ before ++ o ∷ after
    → Everywhere Q book
    → Everywhere Q (assign h (before ++ after) book)
Everywhere-remove Q book h before o after split below = λ g.
    assign-cases (All Q) h g _ book (λ _. All-remove Q before o after (rw (← split) (below h)))
      (below g)
