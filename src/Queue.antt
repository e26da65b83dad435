-- ===== src/Queue.antt =====
-- src/includes/orderbook.c: append, removeNode, detachIn, cancelIn and the loop of addOrder on a
-- doubly linked queue of nodes in memory, which Book takes for the list of the queue's orders.
pub mod Append
pub mod Links
pub mod Matching
pub mod Remove
pub mod Search
pub mod Shape
use the_socket_exchange.Prelude.{
  ℕ, zero, suc, ℤ, negsuc, Bool, true, false, ◌&&◌, ◌-◌, ltb, Option, none, some, ◌==◌, eq_ℤ,
  if◌then◌else◌,
}
use the_socket_exchange.Book.{Order, FillBuffer, fill_of, push_fill}

-- A struct Order: its two pointers, and its other fields. NULL is `none`.
pub record Node : Type 0 where
  pub next : Option ℕ
  pub prev : Option ℕ
  pub order : Order

-- The memory, with one head of the book.
pub record Heap : Type 0 where
  pub head : Option ℕ
  pub node : ℕ → Option Node

-- An access to memory that holds no node has no result.
infixl 5 ◌>>=◌
abbrev pub ◌>>=◌ {ℓ κ} : {A : Type ℓ} {B : Type κ} → Option A → (A → Option B) → Option B
none >>= k = none
some a >>= k = k a

abbrev pub update : (ℕ → Option Node) → ℕ → Option Node → ℕ → Option Node
update node p x q = if p == q then x else node q

abbrev pub put_node : ℕ → Option Node → Heap → Heap
put_node p x h = record h { node = update h.node p x }

abbrev pub set_head : Option ℕ → Heap → Heap
set_head v h = record h { head = v }

-- p->next = v, p->prev = v and free(p).
unfoldable pub set_next : ℕ → Option ℕ → Heap → Option Heap
set_next p v h = do n ← h.node p; some (put_node p (some (record n { next = v })) h)

unfoldable pub set_prev : ℕ → Option ℕ → Heap → Option Heap
set_prev p v h = do n ← h.node p; some (put_node p (some (record n { prev = v })) h)

abbrev pub free : ℕ → Heap → Heap
free p h = put_node p none h

-- The walk to the tail, of at most `fuel` nodes.
unfoldable pub last : ℕ → ℕ → Heap → Option ℕ
last zero cur h = none
last (suc fuel) cur h = do
  n ← h.node cur
  elim n.next [ none ↦ some cur | some nxt ↦ last fuel nxt h ]

-- append, after the two assignments to the new node.
unfoldable pub append_to : ℕ → ℕ → Heap → Option ℕ → Option Heap
unfolding last set_next set_prev
append_to fuel p h none = some (set_head (some p) h)
append_to fuel p h (some cur) = do
  tail ← last fuel cur h
  h₁ ← set_next tail (some p) h
  set_prev p (some tail) h₁

unfoldable pub append_node : ℕ → ℕ → Heap → Option Heap
unfolding append_to
append_node fuel p h = do
  h₁ ← set_next p none h
  h₂ ← set_prev p none h₁
  append_to fuel p h₂ h₂.head

-- The two links past a node.
abbrev pub link_next : Option ℕ → Option ℕ → Heap → Option Heap
link_next none v h = some (set_head v h)
link_next (some q) v h = set_next q v h

abbrev pub link_prev : Option ℕ → Option ℕ → Heap → Option Heap
link_prev none v h = some h
link_prev (some q) v h = set_prev q v h

unfoldable pub remove_node : ℕ → Heap → Option Heap
unfolding set_next set_prev
remove_node p h = do
  n ← h.node p
  h₁ ← link_next n.prev n.next h
  m ← h₁.node p
  h₂ ← link_prev m.next m.prev h₁
  h₃ ← set_next p none h₂
  set_prev p none h₃

-- A round of detachIn, by whether the order is the client's.
abbrev pub if_owned : Bool → ℕ → Node → Heap → Heap
if_owned true cur n h =
    put_node cur (some (record n { order = record (n.order) { client_fd = negsuc 0 } })) h
if_owned false cur n h = h

-- The loop of detachIn from `cur` on.
unfoldable pub detach_from : ℕ → ℤ → Option ℕ → Heap → Option Heap
detach_from fuel fd none h = some h
detach_from zero fd (some cur) h = none
detach_from (suc fuel) fd (some cur) h = do
  n ← h.node cur
  detach_from fuel fd n.next (if_owned (eq_ℤ n.order.client_fd fd) cur n h)

-- A round of cancelIn, by whether the order is the one.
abbrev pub if_match : Bool → ℕ → Heap → Option (Heap × Bool) → Option (Heap × Bool)
if_match true cur h rest = do h₁ ← remove_node cur h; some (free cur h₁, true)
if_match false cur h rest = rest

-- The loop of cancelIn from `cur` on.
unfoldable pub cancel_from : ℕ → ℕ → ℤ → Option ℕ → Heap → Option (Heap × Bool)
unfolding remove_node
cancel_from fuel id fd none h = some (h, false)
cancel_from zero id fd (some cur) h = none
cancel_from (suc fuel) id fd (some cur) h = do
  n ← h.node cur
  if_match (n.order.id == id && eq_ℤ n.order.client_fd fd) cur h (cancel_from fuel id fd n.next h)

unfoldable pub cancel_list : ℕ → ℕ → ℤ → Heap → Option (Heap × Bool)
unfolding cancel_from
cancel_list fuel id fd h = cancel_from fuel id fd h.head h

unfoldable pub detach_list : ℕ → ℤ → Heap → Option Heap
unfolding detach_from
detach_list fuel fd h = detach_from fuel fd h.head h

-- After a trade, at `cur->quantity == 0`.
abbrev pub if_used_up : Bool → ℕ → Heap → Option Heap
if_used_up true cur h = do h₁ ← remove_node cur h; some (free cur h₁)
if_used_up false cur h = some h

abbrev pub if_more {ℓ} : {A : Type ℓ} → Bool → Option A → A → Option A
if_more true next stop = next
if_more false next stop = some stop

-- `realloc n` says whether call number n of realloc, by this addOrder, succeeds.
module _ (realloc : ℕ → Bool) where
  -- A trade of the new order with the node `cur`.
  unfoldable pub trade : ℕ → Node → Order → FillBuffer → Heap → Option (Heap × Order × FillBuffer)
  unfolding remove_node
  trade cur n ord b h =
      let qty = if ltb ord.quantity n.order.quantity then ord.quantity else n.order.quantity in
      let left = n.order.quantity - qty in
      do
        h₁ ←
            if_used_up (left == 0) cur
              (put_node cur (some (record n { order = record (n.order) { quantity = left } })) h)
        some (
          h₁,
          record ord { quantity = ord.quantity - qty },
          push_fill realloc b (fill_of ord n.order qty),
        )

  abbrev pub if_price :
      Bool → ℕ → Node → Order → FillBuffer → Heap → Option (Heap × Order × FillBuffer)
  if_price true cur n ord b h = trade cur n ord b h
  if_price false cur n ord b h = some (h, ord, b)

  -- The loop of addOrder from `cur` on.
  unfoldable pub match_from :
      ℕ → Order → FillBuffer → Option ℕ → Heap → Option (Heap × Order × FillBuffer)
  unfolding trade
  match_from fuel ord b none h = some (h, ord, b)
  match_from zero ord b (some cur) h = none
  match_from (suc fuel) ord b (some cur) h =
      if_more (ltb 0 ord.quantity)
        (do
          n ← h.node cur
          r ← if_price (n.order.price == ord.price) cur n ord b h
          match_from fuel r.1 r.2 n.next r.0)
        (h, ord, b)
