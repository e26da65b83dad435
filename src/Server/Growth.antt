-- ===== src/Server/Growth.antt =====
-- growConns: the doubling, and the table that it makes.
use the_socket_exchange.Prelude.{
  ℕ, zero, suc, ◌+◌, ◌-◌, ◌*◌, ◌≤◌, ◌<◌, ◌≡◌, inl, inr, true, Bool-cases, List, Option, none, arith,
  leb, length, length-append, replicate, length-replicate,
}
use the_socket_exchange.Output.{ClientConnection}
use the_socket_exchange.Exchange.{slot}
use the_socket_exchange.Server.{grown_cap, grow_conns}
use the_socket_exchange.Server.Events.{slot-grown}

grown_cap-covers :
    (fuel fd cap : ℕ)
    → 0 < cap
    → fd < cap + fuel
    → (fd < grown_cap fuel fd cap) × (cap ≤ grown_cap fuel fd cap)
unfolding grown_cap
grown_cap-covers zero fd cap some_room enough = (omega arith, omega arith)
grown_cap-covers (suc fuel) fd cap some_room enough = elim (Bool-cases (leb cap fd)) [
  | inl small ↦
      let rest = grown_cap-covers fuel fd (cap * 2) (omega arith) (ground arith) in
      rw (small, grown_cap) (rest.0, omega (arith, rest.1))
  | inr large ↦ rw (large, grown_cap) (ground arith, omega arith)
]

-- When realloc succeeds, growConns makes a table of at least one slot long enough for the
-- descriptor, and every slot holds what it held, one past the old end nothing.
pub grow_conns-covers :
    (fd : ℕ) (conns : List (Option ClientConnection))
    → 0 < length conns
    → (fd < length (grow_conns true fd conns).0)
      × ((g : ℕ) → slot (grow_conns true fd conns).0 g ≡ slot conns g)
unfolding grow_conns
grow_conns-covers fd conns some_room =
    let cap = grown_cap fd fd (length conns) in
    let covers = grown_cap-covers fd fd (length conns) some_room (omega arith) in
    let more = replicate {A = Option ClientConnection} (cap - length conns) none in
    (
      omega (
        arith,
        covers.0,
        covers.1,
        length-append conns more,
        length-replicate {A = Option ClientConnection} (cap - length conns) none,
      ),
      λ g. slot-grown conns (cap - length conns) g,
    )
