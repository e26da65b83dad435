-- ===== src/Book/Round.antt =====
-- One round of the matching loop in its three cases.
use the_socket_exchange.Prelude.{
  ℕ, ◌-◌, ◌≤◌, ◌<◌, ◌≡◌, ◌≢◌, inl, inr, Bool, [], ◌∷◌, arith, ltb, ◌==◌, Bool-cases,
}
use the_socket_exchange.Book.{Order, FillBuffer, fill_of, push_fill, execute, visit}

module _ (realloc : ℕ → Bool) (ord cur : Order) (b : FillBuffer) where
  -- Another price; a resting order that outlasts the new one; a resting order that is used up.
  pub data Round : Type 0 where
    skipped :
        cur.price ≢ ord.price
        → visit realloc ord cur b ≡ record { kept = cur ∷ []; ord = ord; buffer = b }
        → Round
    partly :
        cur.price ≡ ord.price
        → ord.quantity < cur.quantity
        → visit realloc ord cur b ≡ record {
          kept = record cur { quantity = cur.quantity - ord.quantity } ∷ [];
          ord = record ord { quantity = 0 };
          buffer = push_fill realloc b (fill_of ord cur ord.quantity);
        }
        → Round
    wholly :
        cur.price ≡ ord.price
        → cur.quantity ≤ ord.quantity
        → visit realloc ord cur b ≡ record {
          kept = [];
          ord = record ord { quantity = ord.quantity - cur.quantity };
          buffer = push_fill realloc b (fill_of ord cur cur.quantity);
        }
        → Round

  pub round : Round
  unfolding visit execute
  round = elim (Bool-cases (cur.price == ord.price)) [
    | inr other ↦ skipped (ground arith) (rw (other, visit))
    | inl same ↦ elim (Bool-cases (ltb ord.quantity cur.quantity)) [
      | inl less ↦ partly (ground arith) (ground arith) (rw (same, less, visit) (ground arith))
      | inr more ↦ wholly (ground arith) (ground arith) (rw (same, more, visit) (ground arith))
    ]
  ]
