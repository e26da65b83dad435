-- ===== src/Queue/Search.antt =====
-- cancelIn and detachIn on a queue in memory do what Book's do on the list of its orders.
use mathlib.Core.List.{append_assoc, append-nil, map-append}
use the_socket_exchange.Prelude.{
  ℕ, zero, suc, ◌≤◌, ◌≡◌, ◌≢◌, refl, sym, ap, subst, ◌∙◌, inl, inr, ℤ, negsuc, Bool, true, false,
  Bool-cases, ◌&&◌, ◌==◌, eq_ℤ, if◌then◌else◌, List, [], ◌∷◌, ◌++◌, Option, none, some, arith,
  length, All-append,
}
use the_socket_exchange.Book.{Order, cancel_in, detach_in}
use the_socket_exchange.Queue.{
  Node, Heap, free, remove_node, if_match, if_owned, cancel_from, cancel_list, detach_from,
  detach_list,
}
use the_socket_exchange.Queue.Shape.{
  Cell, orders, first_of, last_of, Stands, Apart-sym, Distinct-split, bind-some, stood, put-Stands,
}
use the_socket_exchange.Queue.Remove.{remove_node-Removed, free-Stands}

-- The search of cancelIn has gone over `xs`, and goes on with `ys`.
record Cancels (id : ℕ) (fd : ℤ) (h : Heap) (xs ys : List Cell) (r : Option (Heap × Bool))
    : Type 0 where
  heap : Heap
  cells : List Cell
  done : r ≡ some (heap, (cancel_in (orders ys) id fd).1)
  stands : Stands heap cells
  rest : orders cells ≡ orders xs ++ (cancel_in (orders ys) id fd).0

module _ (id : ℕ) (fd : ℤ) where
  abbrev matches : Order → Bool
  matches o = o.id == id && eq_ℤ o.client_fd fd

  cancel_in-hit :
      (o : Order) (os : List Order) → matches o ≡ true → cancel_in (o ∷ os) id fd ≡ (os, true)
  unfolding cancel_in
  cancel_in-hit o os hit = rw hit refl

  cancel_in-miss :
      (o : Order) (os : List Order)
      → matches o ≡ false
      → cancel_in (o ∷ os) id fd ≡ (o ∷ (cancel_in os id fd).0, (cancel_in os id fd).1)
  unfolding cancel_in
  cancel_in-miss o os miss = rw miss refl

  module _ (fuel : ℕ) (h : Heap) (xs : List Cell) (c : Cell) (ys : List Cell)
      (stands : Stands h (xs ++ c ∷ ys)) where
    -- The round at the cell.
    step :
        (b : Bool)
        → matches c.1 ≡ b
        → cancel_from (suc fuel) id fd (some c.0) h
          ≡ if_match b c.0 h (cancel_from fuel id fd (first_of ys none) h)
    unfolding cancel_from
    step b e =
        bind-some (h.node c.0)
          (record { next = first_of ys none; prev = last_of none xs; order = c.1 })
          (λ n. if_match (matches n.order) c.0 h (cancel_from fuel id fd n.next h))
          (stood h xs c ys stands)
        ∙ ap (λ b. if_match b c.0 h (cancel_from fuel id fd (first_of ys none) h)) e

    found :
        matches c.1 ≡ true → Cancels id fd h xs (c ∷ ys) (cancel_from (suc fuel) id fd (some c.0) h)
    found hit =
        let removed = remove_node-Removed h xs c ys stands in
        let parts = Distinct-split xs (c ∷ ys) stands.distinct in
        let fresh = All-append (λ d. d.0 ≢ c.0) xs ys (Apart-sym xs (c ∷ ys) parts.2).0 parts.1.0 in
        let e = cancel_in-hit c.1 (orders ys) hit in
        record {
          heap = free c.0 removed.heap;
          cells = xs ++ ys;
          done =
              step true hit
              ∙ bind-some (remove_node c.0 h) removed.heap (λ h₁. some (free c.0 h₁, true))
                  removed.done
              ∙ ap (λ (r : List Order × Bool). some (free c.0 removed.heap, r.1)) (sym e);
          stands = free-Stands removed.heap c.0 (xs ++ ys) fresh removed.stands;
          rest =
              map-append (λ d. d.1) xs ys
              ∙ ap (λ (r : List Order × Bool). orders xs ++ r.0) (sym e);
        }

    passed :
        matches c.1 ≡ false
        → Cancels id fd h (xs ++ c ∷ []) ys (cancel_from fuel id fd (first_of ys none) h)
        → Cancels id fd h xs (c ∷ ys) (cancel_from (suc fuel) id fd (some c.0) h)
    passed miss r =
        let e = cancel_in-miss c.1 (orders ys) miss in
        record {
          heap = r.heap;
          cells = r.cells;
          done =
              step false miss ∙ r.done ∙ ap (λ (q : List Order × Bool). some (r.heap, q.1)) (sym e);
          stands = r.stands;
          rest =
              r.rest
              ∙ ap (λ t. t ++ (cancel_in (orders ys) id fd).0) (map-append (λ d. d.1) xs (c ∷ []))
              ∙ append_assoc (orders xs) (c.1 ∷ []) (cancel_in (orders ys) id fd).0
              ∙ ap (λ (q : List Order × Bool). orders xs ++ q.0) (sym e);
        }

  cancel_from-Cancels :
      (fuel : ℕ) (h : Heap) (xs ys : List Cell)
      → Stands h (xs ++ ys)
      → length ys ≤ fuel
      → Cancels id fd h xs ys (cancel_from fuel id fd (first_of ys none) h)
  unfolding cancel_from cancel_in
  cancel_from-Cancels fuel h xs [] stands enough = record {
    heap = h;
    cells = xs;
    done = refl;
    stands = subst (Stands h) (append-nil xs) stands;
    rest = sym (append-nil (orders xs));
  }
  cancel_from-Cancels zero h xs (c ∷ ys) stands enough = absurd (omega (arith, enough))
  cancel_from-Cancels (suc fuel) h xs (c ∷ ys) stands enough = elim (Bool-cases (matches c.1)) [
    | inl hit ↦ found fuel h xs c ys stands hit
    | inr miss ↦ passed fuel h xs c ys stands miss (
        cancel_from-Cancels fuel h (xs ++ c ∷ []) ys
          (subst (Stands h) (sym (append_assoc xs (c ∷ []) ys)) stands) (omega (arith, enough)))
  ]

-- cancelIn on a doubly linked queue in memory, with fuel for as many nodes as it has, succeeds. It
-- says whether it has taken out an order as Book's cancel_in does for the list of the orders, and the
-- queue that it leaves, linked both ways, stands for the list that cancel_in leaves.
pub cancel_list-cancel_in :
    (fuel id : ℕ) (fd : ℤ) (h : Heap) (cs : List Cell)
    → Stands h cs
    → length cs ≤ fuel
    → (h' : Heap) × (cs' : List Cell) × (cancel_list fuel id fd h
        ≡ some (h', (cancel_in (orders cs) id fd).1))
      × Stands h' cs'
      × (orders cs' ≡ (cancel_in (orders cs) id fd).0)
unfolding cancel_list
cancel_list-cancel_in fuel id fd h cs stands enough =
    let r = cancel_from-Cancels id fd fuel h [] cs stands enough in
    (r.heap, r.cells, ap (λ t. cancel_from fuel id fd t h) stands.head ∙ r.done, r.stands, r.rest)

-- The loop of detachIn has gone over `xs`, and goes on with `ys`.
record Detaches (fd : ℤ) (h : Heap) (xs ys : List Cell) (r : Option Heap) : Type 0 where
  heap : Heap
  cells : List Cell
  done : r ≡ some heap
  stands : Stands heap (xs ++ cells)
  rest : orders cells ≡ detach_in (orders ys) fd

abbrev owned : ℤ → Order → Bool
owned fd o = eq_ℤ o.client_fd fd

-- A round at a cell, and what it makes of the order.
abbrev detached : Bool → Order → Order
detached b o = if b then record o { client_fd = negsuc 0 } else o

round-Stands :
    (b : Bool) (h : Heap) (xs : List Cell) (c : Cell) (ys : List Cell)
    → Stands h (xs ++ c ∷ ys)
    → Stands
        (if_owned b c.0 (record { next = first_of ys none; prev = last_of none xs; order = c.1 }) h)
        (xs ++ (c.0, detached b c.1) ∷ ys)
round-Stands true h xs c ys stands = put-Stands h xs c ys (detached true c.1) stands
round-Stands false h xs c ys stands = stands

detach_from-Detaches :
    (fd : ℤ) (fuel : ℕ) (h : Heap) (xs ys : List Cell)
    → Stands h (xs ++ ys)
    → length ys ≤ fuel
    → Detaches fd h xs ys (detach_from fuel fd (first_of ys none) h)
unfolding detach_from detach_in
detach_from-Detaches fd fuel h xs [] stands enough = record {
  heap = h;
  cells = [];
  done = refl;
  stands = stands;
  rest = refl;
}
detach_from-Detaches fd zero h xs (c ∷ ys) stands enough = absurd (omega (arith, enough))
detach_from-Detaches fd (suc fuel) h xs (c ∷ ys) stands enough =
    let n : Node = record { next = first_of ys none; prev = last_of none xs; order = c.1 } in
    let b = owned fd c.1 in
    let d : Cell = (c.0, detached b c.1) in
    let h₁ = if_owned b c.0 n h in
    let r =
      detach_from-Detaches fd fuel h₁ (xs ++ d ∷ []) ys
        (subst (Stands h₁) (sym (append_assoc xs (d ∷ []) ys)) (round-Stands b h xs c ys stands))
        (omega (arith, enough)) in
    record {
      heap = r.heap;
      cells = d ∷ r.cells;
      done =
          bind-some (h.node c.0) n
            (λ n. detach_from fuel fd n.next (if_owned (owned fd n.order) c.0 n h))
            (stood h xs c ys stands)
          ∙ r.done;
      stands = subst (Stands r.heap) (append_assoc xs (d ∷ []) r.cells) r.stands;
      rest = ap (λ t. detached b c.1 ∷ t) r.rest;
    }

-- detachIn on a doubly linked queue in memory, with fuel for as many nodes as it has, succeeds, and
-- the queue that it leaves, linked both ways, stands for the list that Book's detach_in makes of the
-- orders.
pub detach_list-detach_in :
    (fuel : ℕ) (fd : ℤ) (h : Heap) (cs : List Cell)
    → Stands h cs
    → length cs ≤ fuel
    → (h' : Heap) × (cs' : List Cell) × (detach_list fuel fd h ≡ some h')
      × Stands h' cs'
      × (orders cs' ≡ detach_in (orders cs) fd)
unfolding detach_list
detach_list-detach_in fuel fd h cs stands enough =
    let r = detach_from-Detaches fd fuel h [] cs stands enough in
    (r.heap, r.cells, ap (λ t. detach_from fuel fd t h) stands.head ∙ r.done, r.stands, r.rest)
