-- ===== src/Examples/Queues.antt =====
-- A queue of two orders in memory.
use the_socket_exchange.Prelude.{
  ℕ, ◌≡◌, refl, pos, true, List, [], ◌∷◌, none, some, arith, ◌==◌, if◌then◌else◌,
}
use the_socket_exchange.Book.{
  Order, buy, sell, jnst, empty_buffer, cancel_in, detach_in, match_loop,
}
use the_socket_exchange.Queue.{Heap, append_node, remove_node, cancel_list, detach_list, match_from}
use the_socket_exchange.Queue.Shape.{Cell, orders, Stands}
use the_socket_exchange.Queue.Append.{Appended, append_node-Appended}
use the_socket_exchange.Queue.Remove.{Removed, remove_node-Removed}
use the_socket_exchange.Queue.Search.{cancel_list-cancel_in, detach_list-detach_in}
use the_socket_exchange.Queue.Matching.{match_from-match_loop}

abbrev resting : ℕ → ℕ → Order
resting id quantity = record {
  id = id;
  quantity = quantity;
  price = 100;
  client_fd = pos 7;
  type = sell;
  instrument = jnst;
}

abbrev taker : Order
taker = record {
  id = 3;
  quantity = 7;
  price = 100;
  client_fd = pos 8;
  type = buy;
  instrument = jnst;
}

abbrev first : Cell
first = (1, resting 1 5)

abbrev second : Cell
second = (2, resting 2 4)

-- The nodes 1 and 2 are the queue, and the node 3 is new.
abbrev heap : Heap
heap = record {
  head = some 1;
  node = λ p.
      if p == 1
      then some (record { next = some 2; prev = none; order = first.1 })
      else if p == 2
      then some (record { next = none; prev = some 1; order = second.1 })
      else if p == 3
      then some (record { next = some 9; prev = some 9; order = taker })
      else none;
}

heap-Stands : Stands heap (first ∷ second ∷ [])
heap-Stands = record {
  head = refl;
  piece = (refl, (refl, tt));
  distinct = ((λ e. omega (arith, e), tt), (tt, tt));
}

remove_node_example : Removed heap (first ∷ []) second [] (remove_node 2 heap)
remove_node_example = remove_node-Removed heap (first ∷ []) second [] heap-Stands

append_node_example : Appended heap (first ∷ second ∷ []) (3, taker) (append_node 2 3 heap)
append_node_example =
    append_node-Appended 2 heap (first ∷ second ∷ []) 3
      (record { next = some 9; prev = some 9; order = taker }) heap-Stands
      (λ e. omega (arith, e), (λ e. omega (arith, e), tt)) refl (omega arith)

cancel_list_example :
    (h : Heap) × (cs : List Cell) × (cancel_list 2 2 (pos 7) heap
      ≡ some (h, (cancel_in (orders (first ∷ second ∷ [])) 2 (pos 7)).1))
    × Stands h cs
    × (orders cs ≡ (cancel_in (orders (first ∷ second ∷ [])) 2 (pos 7)).0)
cancel_list_example =
    cancel_list-cancel_in 2 2 (pos 7) heap (first ∷ second ∷ []) heap-Stands (omega arith)

detach_list_example :
    (h : Heap) × (cs : List Cell) × (detach_list 2 (pos 7) heap ≡ some h)
    × Stands h cs
    × (orders cs ≡ detach_in (orders (first ∷ second ∷ [])) (pos 7))
detach_list_example =
    detach_list-detach_in 2 (pos 7) heap (first ∷ second ∷ []) heap-Stands (omega arith)

match_from_example :
    let m = match_loop (λ n. true) taker empty_buffer (orders (first ∷ second ∷ [])) in
    (h : Heap) × (cs : List Cell) × (match_from (λ n. true) 2 taker empty_buffer heap.head heap
      ≡ some (h, m.ord, m.buffer))
    × Stands h cs
    × (orders cs ≡ m.kept)
match_from_example =
    match_from-match_loop (λ n. true) 2 taker empty_buffer heap (first ∷ second ∷ []) heap-Stands
      (omega arith)
