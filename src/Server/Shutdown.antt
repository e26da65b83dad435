-- ===== src/Server/Shutdown.antt =====
-- The shutdown in src/exchange_server.c.
use the_socket_exchange.Prelude.{
  ℕ, zero, suc, ◌+◌, ◌<◌, ◌≤◌, ◌≡◌, ◌≢◌, refl, ap, ◌∙◌, subst, inl, inr, ℤ, pos, negsuc, Bool-cases,
  true, false, List, [], ◌∷◌, ◌++◌, Option, none, some, arith, All-map, ltb, eq_cases, length,
  length-set, set,
}
use the_socket_exchange.Book.{Order, deref}
use the_socket_exchange.Book.Everywhere.{Everywhere}
use the_socket_exchange.Output.{ClientConnection, Env, Os}
use the_socket_exchange.Exchange.{Exchange, slot}
use the_socket_exchange.Process.{is_logged_in}
use the_socket_exchange.Server.{Server, remove_client, ServerEvent, started, run_server}
use the_socket_exchange.Server.Events.{ArrivalsAre, set-elim, remove_client-kept}
use the_socket_exchange.Server.Owners.{
  Unused, OwnerIn, Owned, OwnedIn, Kept-Owned, run_server-Owned,
}
use the_socket_exchange.Server.Ledger.{
  count, count-append, held, Books, Books-refl, Books-trans, removed,
}
use the_socket_exchange.Server.Ledger.Run.{arrivals, run_server-ledger, run_server-Books}
use the_socket_exchange.Server.Main.{close_slot, close_slots, shut_down}

-- The slots below a bound are empty.
abbrev EmptyBelow : ℕ → Server → Type 0
EmptyBelow n s = (fd : ℕ) → fd < n → slot (s.exchange).conns fd ≡ none

-- What closing the slots has done so far.
record Closes (s : Server) (i : ℕ) (s' : Server) : Type 0 where
  books : Books s [] s'
  size : length (s'.exchange).conns ≡ length (s.exchange).conns
  owned : Owned s.exchange → Owned s'.exchange
  empty : EmptyBelow i s → EmptyBelow (suc i) s'

set-none : (conns : List (Option ClientConnection)) (fd : ℕ) → slot (set conns fd none) fd ≡ none
set-none [] fd = refl
set-none (x ∷ conns) zero = refl
set-none (x ∷ conns) (suc fd) = set-none conns fd

below_suc :
    (s : Server) (i : ℕ) → EmptyBelow i s → slot (s.exchange).conns i ≡ none → EmptyBelow (suc i) s
below_suc s i below at = λ fd lt. elim (eq_cases i fd) [
  | inl same ↦ subst (λ k. slot (s.exchange).conns k ≡ none) same at
  | inr other ↦ below fd (omega (arith, lt, other))
]

close_slot-Closes :
    (i : ℕ) (s : Server) (x : Option ClientConnection)
    → 0 < length (s.exchange).conns
    → slot (s.exchange).conns i ≡ x
    → Closes s i (close_slot i s x)
unfolding remove_client
close_slot-Closes i s none some_room at = record {
  books = Books-refl s some_room;
  size = refl;
  owned = λ own. own;
  empty = λ below. below_suc s i below at;
}
close_slot-Closes i s (some conn) some_room at = record {
  books = removed s i (rw at refl);
  size = length-set (s.exchange).conns i none;
  owned = remove_client-kept Owned Unused Kept-Owned i s;
  empty = λ below.
      below_suc (remove_client i s) i
        (λ fd lt. set-elim (λ x. x ≡ none) (s.exchange).conns i fd none (λ hit. refl) (below fd lt))
        (set-none (s.exchange).conns i);
}

-- The whole loop over the slots.
close_slots-Closes :
    (n i : ℕ) (s : Server)
    → 0 < length (s.exchange).conns
    → Books s [] (close_slots n i s)
      × (length ((close_slots n i s).exchange).conns ≡ length (s.exchange).conns)
      × (Owned s.exchange → Owned (close_slots n i s).exchange)
      × (EmptyBelow i s → EmptyBelow (i + n) (close_slots n i s))
unfolding close_slots
close_slots-Closes zero i s some_room =
    (Books-refl s some_room, refl, λ own. own, λ below fd lt. below fd (omega (arith, lt)))
close_slots-Closes (suc n) i s some_room =
    let c = close_slot-Closes i s (slot (s.exchange).conns i) some_room refl in
    let rest = close_slots-Closes n (suc i) _ c.books.some_room in
    (
      Books-trans c.books rest.0,
      rest.1 ∙ c.size,
      λ own. rest.2 (c.owned own),
      λ below fd lt. rest.3 (c.empty below) fd (omega (arith, lt)),
    )

slot-outside :
    (conns : List (Option ClientConnection)) (fd : ℕ) → length conns ≤ fd → slot conns fd ≡ none
slot-outside [] fd out = refl
slot-outside (x ∷ conns) zero out = absurd (omega (arith, out))
slot-outside (x ∷ conns) (suc fd) out = slot-outside conns fd (omega (arith, out))

all_empty :
    (s : Server)
    → EmptyBelow (length (s.exchange).conns) s
    → (fd : ℕ) → slot (s.exchange).conns fd ≡ none
all_empty s below fd = elim (Bool-cases (ltb fd (length (s.exchange).conns))) [
  | inl inside ↦ below fd (ground arith)
  | inr outside ↦ slot-outside (s.exchange).conns fd (ground arith)
]

-- An order that belongs to nobody.
abbrev pub Ownerless : Order → Type 0
Ownerless o = o.client_fd ≡ negsuc 0

OwnerIn-empty :
    (conns : List (Option ClientConnection)) (x : ℤ)
    → ((fd : ℕ) → slot conns fd ≡ none)
    → OwnerIn conns x
    → x ≡ negsuc 0
OwnerIn-empty conns (pos fd) empty own =
    absurd (off (subst (λ y. is_logged_in y ≡ true) (empty fd) own))
  where
    off : false ≢ true
    off e = cc
OwnerIn-empty conns (negsuc n) empty own = ap negsuc own

Owned-empty :
    (w : Exchange)
    → ((fd : ℕ) → slot w.conns fd ≡ none)
    → Owned w
    → Everywhere Ownerless w.orderbook
Owned-empty w empty own = λ h.
    All-map (OwnedIn w.conns) Ownerless (deref h w.orderbook)
      (λ o. OwnerIn-empty w.conns o.client_fd empty) (own h)

-- At the shutdown after any sequence of events, if accept only ever returns descriptors that no
-- client of the table has, every slot of the table is emptied, every resting order is left without
-- an owner, and every descriptor has been closed exactly as often as the server has got it, from
-- accept, as its socket or as its queue.
pub shut_down-closes :
    (env : Env) (events : List ServerEvent) (os : Os) (server_fd kq fd : ℕ)
    → ArrivalsAre Unused env events (started os)
    → let s = shut_down server_fd kq (run_server env events os) in
      (slot (s.exchange).conns fd ≡ none)
      × Everywhere Ownerless (s.exchange).orderbook
      × (count fd s.closed ≡ count fd (arrivals events ++ (server_fd ∷ kq ∷ [])))
unfolding shut_down count
shut_down-closes env events os server_fd kq fd unused =
    let s = run_server env events os in
    let n = length (s.exchange).conns in
    let before = run_server-Books env events os unused in
    let c = close_slots-Closes n 0 s before.some_room in
    let s' = close_slots n 0 s in
    let empty =
      all_empty s'
        (λ g lt. c.3 (λ k below. absurd (omega (arith, below))) g (omega (arith, lt, c.1))) in
    let ledger = run_server-ledger env events os fd unused in
    (
      empty fd,
      Owned-empty s'.exchange empty (c.2 (run_server-Owned env events os unused)),
      omega (
        arith,
        c.0.balance fd,
        ledger,
        ap held (empty fd),
        count-append fd s'.closed (server_fd ∷ []),
        count-append fd (s'.closed ++ server_fd ∷ []) (kq ∷ []),
        count-append fd (arrivals events) (server_fd ∷ kq ∷ []),
      ),
    )
