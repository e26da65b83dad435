-- ===== src/Queue/Matching.antt =====
-- The loop of addOrder on a queue in memory does what Book's does on the list of its orders.
use mathlib.Core.List.{append_assoc, map-append}
use the_socket_exchange.Prelude.{
  ℕ, zero, suc, ◌-◌, ◌≤◌, ◌≡◌, ◌≢◌, refl, sym, ap, subst, ◌∙◌, Bool, true, false, ltb, ◌==◌,
  if◌then◌else◌, List, [], ◌∷◌, ◌++◌, Option, none, some, arith, length, All-append,
}
use the_socket_exchange.Book.{
  Order, FillBuffer, Visit, fill_of, push_fill, execute, visit, match_loop,
}
use the_socket_exchange.Queue.{
  Node, Heap, ◌>>=◌, put_node, free, remove_node, if_used_up, if_more, trade, if_price, match_from,
}
use the_socket_exchange.Queue.Shape.{
  Cell, orders, first_of, last_of, Stands, Apart-sym, Distinct-split, bind-some, stood, put-Stands,
}
use the_socket_exchange.Queue.Remove.{remove_node-Removed, free-Stands}

abbrev kept_cells : Bool → Cell → List Cell
kept_cells b c = if b then [] else c ∷ []

orders-kept_cells : (b : Bool) (c : Cell) → orders (kept_cells b c) ≡ (if b then [] else c.1 ∷ [])
orders-kept_cells true c = refl
orders-kept_cells false c = refl

-- A node that is used up leaves the queue.
if_used_up-Stands :
    (b : Bool) (h : Heap) (xs : List Cell) (c : Cell) (ys : List Cell)
    → Stands h (xs ++ c ∷ ys)
    → (h' : Heap) × (if_used_up b c.0 h ≡ some h') × Stands h' (xs ++ (kept_cells b c ++ ys))
if_used_up-Stands true h xs c ys stands =
    let removed = remove_node-Removed h xs c ys stands in
    let parts = Distinct-split xs (c ∷ ys) stands.distinct in
    let fresh = All-append (λ d. d.0 ≢ c.0) xs ys (Apart-sym xs (c ∷ ys) parts.2).0 parts.1.0 in
    (
      free c.0 removed.heap,
      bind-some (remove_node c.0 h) removed.heap (λ h₁. some (free c.0 h₁)) removed.done,
      free-Stands removed.heap c.0 (xs ++ ys) fresh removed.stands,
    )
if_used_up-Stands false h xs c ys stands = (h, refl, stands)

module _ (realloc : ℕ → Bool) where
  -- A round of the loop, after `xs` and before `ys`.
  record Round (v : Visit) (xs ys : List Cell) (r : Option (Heap × Order × FillBuffer))
      : Type 0 where
    heap : Heap
    cells : List Cell
    done : r ≡ some (heap, v.ord, v.buffer)
    stands : Stands heap (xs ++ (cells ++ ys))
    rest : orders cells ≡ v.kept

  module _ (ord : Order) (b : FillBuffer) (h : Heap) (xs : List Cell) (c : Cell) (ys : List Cell)
      (stands : Stands h (xs ++ c ∷ ys)) where
    abbrev node : Node
    node = record { next = first_of ys none; prev = last_of none xs; order = c.1 }

    trade-Round : Round (execute realloc ord c.1 b) xs ys (trade realloc c.0 node ord b h)
    unfolding trade execute
    trade-Round =
        let cur = c.1 in
        let qty = if ltb ord.quantity cur.quantity then ord.quantity else cur.quantity in
        let left = cur.quantity - qty in
        let d : Cell = (c.0, record cur { quantity = left }) in
        let h₁ = put_node c.0 (some (record node { order = d.1 })) h in
        let used = if_used_up-Stands (left == 0) h₁ xs d ys (put-Stands h xs c ys d.1 stands) in
        record {
          heap = used.0;
          cells = kept_cells (left == 0) d;
          done =
              bind-some (if_used_up (left == 0) c.0 h₁) used.0
                (λ h₂. some (
                  h₂,
                  record ord { quantity = ord.quantity - qty },
                  push_fill realloc b (fill_of ord cur qty),
                ))
                used.1;
          stands = used.2;
          rest = orders-kept_cells (left == 0) d;
        }

    if_price-Round :
        (p : Bool)
        → Round
            (if p
              then execute realloc ord c.1 b
              else record { kept = c.1 ∷ []; ord = ord; buffer = b })
            xs
            ys
            (if_price realloc p c.0 node ord b h)
    if_price-Round true = trade-Round
    if_price-Round false = record {
      heap = h;
      cells = c ∷ [];
      done = refl;
      stands = stands;
      rest = refl;
    }

    visit-Round :
        Round
          (visit realloc ord c.1 b)
          xs
          ys
          (if_price realloc (c.1.price == ord.price) c.0 node ord b h)
    unfolding visit
    visit-Round = if_price-Round (c.1.price == ord.price)

  record Matches (v : Visit) (xs : List Cell) (r : Option (Heap × Order × FillBuffer))
      : Type 0 where
    heap : Heap
    cells : List Cell
    done : r ≡ some (heap, v.ord, v.buffer)
    stands : Stands heap (xs ++ cells)
    rest : orders cells ≡ v.kept

  -- A round, and what follows.
  module _ (fuel : ℕ) (ord : Order) (b : FillBuffer) (h : Heap) (xs : List Cell) (c : Cell)
      (ys : List Cell) (stands : Stands h (xs ++ c ∷ ys)) where
    abbrev v : Visit
    v = visit realloc ord c.1 b

    abbrev after : Visit
    after = match_loop realloc v.ord v.buffer (orders ys)

    abbrev go_on : Option (Heap × Order × FillBuffer)
    go_on = do
      n ← h.node c.0
      r ← if_price realloc (n.order.price == ord.price) c.0 n ord b h
      match_from realloc fuel r.1 r.2 n.next r.0

    followed :
        (r : Round v xs ys
          (if_price realloc (c.1.price == ord.price) c.0 (node ord b h xs c ys stands) ord b h))
        → Matches after
            (xs ++ r.cells)
            (match_from realloc fuel v.ord v.buffer (first_of ys none) r.heap)
        → Matches (record after { kept = v.kept ++ after.kept }) xs go_on
    followed r m = record {
      heap = m.heap;
      cells = r.cells ++ m.cells;
      done =
          bind-some (h.node c.0) (node ord b h xs c ys stands)
            (λ n. if_price realloc (n.order.price == ord.price) c.0 n ord b h >>= λ r.
              match_from realloc fuel r.1 r.2 n.next r.0)
            (stood h xs c ys stands)
          ∙ bind-some
              (if_price realloc (c.1.price == ord.price) c.0 (node ord b h xs c ys stands) ord b h)
              (r.heap, v.ord, v.buffer)
              (λ r. match_from realloc fuel r.1 r.2 (first_of ys none) r.0) r.done
          ∙ m.done;
      stands = subst (Stands m.heap) (append_assoc xs r.cells m.cells) m.stands;
      rest =
          map-append (λ d. d.1) r.cells m.cells
          ∙ ap (λ t. t ++ orders m.cells) r.rest
          ∙ ap (λ t. v.kept ++ t) m.rest;
    }

    branches :
        (more : Bool)
        → Matches (record after { kept = v.kept ++ after.kept }) xs go_on
        → Matches
            (if more
              then record after { kept = v.kept ++ after.kept }
              else record { kept = c.1 ∷ orders ys; ord = ord; buffer = b })
            xs
            (if_more more go_on (h, ord, b))
    branches true m = m
    branches false m = record {
      heap = h;
      cells = c ∷ ys;
      done = refl;
      stands = stands;
      rest = refl;
    }

  match_from-Matches :
      (fuel : ℕ) (ord : Order) (b : FillBuffer) (h : Heap) (xs ys : List Cell)
      → Stands h (xs ++ ys)
      → length ys ≤ fuel
      → Matches
          (match_loop realloc ord b (orders ys))
          xs
          (match_from realloc fuel ord b (first_of ys none) h)
  unfolding match_from match_loop
  match_from-Matches fuel ord b h xs [] stands enough = record {
    heap = h;
    cells = [];
    done = refl;
    stands = stands;
    rest = refl;
  }
  match_from-Matches zero ord b h xs (c ∷ ys) stands enough = absurd (omega (arith, enough))
  match_from-Matches (suc fuel) ord b h xs (c ∷ ys) stands enough =
      let r = visit-Round ord b h xs c ys stands in
      let next = visit realloc ord c.1 b in
      branches fuel ord b h xs c ys stands (ltb 0 ord.quantity) (
        followed fuel ord b h xs c ys stands r (
          match_from-Matches fuel next.ord next.buffer r.heap (xs ++ r.cells) ys
            (subst (Stands r.heap) (sym (append_assoc xs r.cells ys)) r.stands)
            (omega (arith, enough))))

  -- The loop of addOrder on a doubly linked queue in memory, with fuel for as many nodes as it has,
  -- succeeds. What it leaves of the new order and the fills that it reports are those of Book's
  -- match_loop on the list of the orders, and the queue that it leaves, linked both ways and without
  -- the orders that are used up, stands for the list that match_loop leaves.
  pub match_from-match_loop :
      (fuel : ℕ) (ord : Order) (b : FillBuffer) (h : Heap) (cs : List Cell)
      → Stands h cs
      → length cs ≤ fuel
      → let m = match_loop realloc ord b (orders cs) in
        (h' : Heap) × (cs' : List Cell) × (match_from realloc fuel ord b h.head h
          ≡ some (h', m.ord, m.buffer))
        × Stands h' cs'
        × (orders cs' ≡ m.kept)
  match_from-match_loop fuel ord b h cs stands enough =
      let r = match_from-Matches fuel ord b h [] cs stands enough in
      (
        r.heap,
        r.cells,
        ap (λ t. match_from realloc fuel ord b t h) stands.head ∙ r.done,
        r.stands,
        r.rest,
      )
