-- ===== src/Server/Removal.antt =====
-- What removeClient leaves of a client.
use the_socket_exchange.Prelude.{
  ℕ, zero, suc, ◌≡◌, ◌≢◌, refl, ap, pos, false, List, [], ◌∷◌, Option, none, map, set, All,
}
use the_socket_exchange.Book.{Head, deref, cancel_order}
use the_socket_exchange.Book.Detach.{anonymous, detach_client_orders_lem}
use the_socket_exchange.Output.{ClientConnection}
use the_socket_exchange.Exchange.{slot}
use the_socket_exchange.Exchange.Table.{slot-set_ne}
use the_socket_exchange.Server.{Server, remove_client}

slot-set-none :
    (conns : List (Option ClientConnection)) (fd : ℕ) → slot (set conns fd none) fd ≡ none
slot-set-none [] fd = refl
slot-set-none (x ∷ conns) zero = refl
slot-set-none (x ∷ conns) (suc fd) = slot-set-none conns fd

-- removeClient empties the descriptor's slot and leaves any other as it was, and leaves every
-- resting order in its place, whole but for its owner, with none that names the descriptor: a later
-- client that gets the same descriptor finds no order that it could cancel.
pub remove_client_lem :
    (fd : ℕ) (s : Server) (h : Head) (id g : ℕ)
    → fd ≢ g
    → (slot ((remove_client fd s).exchange).conns fd ≡ none)
      × (slot ((remove_client fd s).exchange).conns g ≡ slot (s.exchange).conns g)
      × (map anonymous (deref h ((remove_client fd s).exchange).orderbook)
          ≡ map anonymous (deref h (s.exchange).orderbook))
      × All (λ o. o.client_fd ≢ pos fd) (deref h ((remove_client fd s).exchange).orderbook)
      × ((cancel_order ((remove_client fd s).exchange).orderbook id (pos fd)).1 ≡ false)
unfolding remove_client
remove_client_lem fd s h id g ne =
    let w = s.exchange in
    let detached = detach_client_orders_lem w.orderbook fd h id in
    (
      slot-set-none w.conns fd,
      slot-set_ne w.conns fd g none ne,
      detached.0,
      detached.1,
      ap (λ r. r.1) detached.2,
    )
