-- ===== src/Server/Owners.antt =====
-- Who owns the resting orders, along the events of the server.
use the_socket_exchange.Prelude.{
  ℕ, ◌≡◌, ◌≢◌, refl, sym, ap, ◌∙◌, subst, inl, inr, ℤ, pos, negsuc, eq_ℤ, eq_ℤ_iff, true, false,
  Bool-cases, List, [], ◌∷◌, Option, none, some, arith, All, All-map, set,
}
use the_socket_exchange.Book.{
  Order, LimitOrderBook, deref, jnst_buy, jnst_sell, imct_buy, imct_sell, init_orderbook, detach_in,
}
use the_socket_exchange.Book.Everywhere.{Everywhere, Everywhere-add_order, Everywhere-remove}
use the_socket_exchange.Book.Detach.{deref-detach}
use the_socket_exchange.Output.{ClientConnection, Env, Os}
use the_socket_exchange.Session.Roles.{identity}
use the_socket_exchange.Exchange.{Exchange, slot}
use the_socket_exchange.Exchange.Table.{KeepsAt, slot-set-elim}
use the_socket_exchange.Exchange.Steps.{Step, talks, signs, takes_out, places, Steps-kept}
use the_socket_exchange.Process.{is_logged_in}
use the_socket_exchange.Process.Steps.{MayOrder}
use the_socket_exchange.Server.{new_connection, ServerEvent, started, run_server}
use the_socket_exchange.Server.Events.{
  set-elim, slot-grown, ArrivalsAre, grown, filled, left, Kept, serve-kept,
}

-- An order's owner: -1, or the descriptor of a client that is logged in.
abbrev pub OwnerIn : List (Option ClientConnection) → ℤ → Type 0
OwnerIn conns (pos fd) = is_logged_in (slot conns fd) ≡ true
OwnerIn conns (negsuc n) = n ≡ 0

abbrev pub OwnedIn : List (Option ClientConnection) → Order → Type 0
OwnedIn conns o = OwnerIn conns o.client_fd

abbrev pub Owned : Exchange → Type 0
Owned w = Everywhere (OwnedIn w.conns) w.orderbook

-- A descriptor that no client of the table has.
abbrev pub Unused : ℕ → Exchange → Type 0
Unused fd w = slot w.conns fd ≡ none

-- Every client that was logged in still is.
abbrev StaysIn : List (Option ClientConnection) → List (Option ClientConnection) → Type 0
StaysIn conns conns' =
    (fd : ℕ) → is_logged_in (slot conns fd) ≡ true → is_logged_in (slot conns' fd) ≡ true

OwnerIn-stays :
    (conns conns' : List (Option ClientConnection)) (x : ℤ)
    → StaysIn conns conns'
    → OwnerIn conns x
    → OwnerIn conns' x
OwnerIn-stays conns conns' (pos fd) stays own = stays fd own
OwnerIn-stays conns conns' (negsuc n) stays own = own

Owned-stays :
    (conns conns' : List (Option ClientConnection)) (b : LimitOrderBook)
    → StaysIn conns conns'
    → Everywhere (OwnedIn conns) b
    → Everywhere (OwnedIn conns') b
Owned-stays conns conns' b stays own = λ h.
    All-map (OwnedIn conns) (OwnedIn conns') (deref h b)
      (λ o. OwnerIn-stays conns conns' o.client_fd stays) (own h)

identity-logged_in : (c : ClientConnection) → c.logged_in ≡ true → identity c ≡ some c.username
identity-logged_in c e = rw e refl

logged_in-identity :
    (c : ClientConnection) (name : List ℕ) → identity c ≡ some name → c.logged_in ≡ true
logged_in-identity c name e = elim (Bool-cases c.logged_in) [
  | inl on ↦ on
  | inr off ↦ absurd (none_some name (sym (rw off refl) ∙ e))
]
  where
    none_some : (name : List ℕ) → none ≢ some name
    none_some name e = cc

KeepsAt-logged_in :
    (x y : Option ClientConnection) → KeepsAt x y → is_logged_in x ≡ true → is_logged_in y ≡ true
KeepsAt-logged_in (some c) (some d) k on =
    logged_in-identity d c.username (k.name ∙ identity-logged_in c on)
KeepsAt-logged_in none (some d) k on = absurd k
KeepsAt-logged_in (some c) none k on = absurd k
KeepsAt-logged_in none none k on = on

Step-Owned : (self : ℕ) (w w' : Exchange) → Step MayOrder self w w' → Owned w → Owned w'
Step-Owned self _ _ (talks w w' t) own = rw t.same_book (
    Owned-stays w.conns w'.conns w.orderbook
      (λ fd. KeepsAt-logged_in (slot w.conns fd) (slot w'.conns fd) (t.serves fd)) own)
Step-Owned self _ _ (signs name w c d os at s) own =
    Owned-stays w.conns (set w.conns self (some d)) w.orderbook
      (λ fd on.
        slot-set-elim (λ x. is_logged_in x ≡ true) w.conns self fd c d at
          (λ here. logged_in-identity d name s.signed) on)
      own
Step-Owned self _ _ (takes_out h before o after w split mine) own =
    Everywhere-remove (OwnedIn w.conns) w.orderbook h before o after split own
Step-Owned self _ _ (places realloc ord w permitted mine fresh priced) own =
    Everywhere-add_order (OwnedIn w.conns) (λ o n q. q) realloc w.orderbook ord own
      (rw mine permitted)

-- A change of an unused slot.
filled-Owned :
    (w : Exchange) (fd : ℕ) (x : Option ClientConnection)
    → Unused fd w
    → Owned w
    → Owned (filled w fd x)
filled-Owned w fd x unused own =
    Owned-stays w.conns (set w.conns fd x) w.orderbook
      (λ g.
        set-elim (λ y. is_logged_in (slot w.conns g) ≡ true → is_logged_in y ≡ true) w.conns fd g x
          (λ here on. absurd (off g (ap (slot w.conns) (sym here) ∙ unused) on)) (λ on. on))
      own
  where
    off : (g : ℕ) → slot w.conns g ≡ none → is_logged_in (slot w.conns g) ≢ true
    off g empty on = not_on (subst (λ y. is_logged_in y ≡ true) empty on)
      where
        not_on : false ≢ true
        not_on e = cc

-- An order that is not the leaving client's, once its slot is empty.
OwnerIn-left :
    (conns : List (Option ClientConnection)) (fd : ℕ) (x : ℤ)
    → x ≢ pos fd
    → OwnerIn conns x
    → OwnerIn (set conns fd none) x
OwnerIn-left conns fd (pos g) other own =
    set-elim (λ y. is_logged_in y ≡ true) conns fd g none
      (λ here. absurd (other (ap pos (sym here)))) own
OwnerIn-left conns fd (negsuc n) other own = own

detach_in-Owned :
    (conns : List (Option ClientConnection)) (fd : ℕ) (os : List Order)
    → All (OwnedIn conns) os
    → All (OwnedIn (set conns fd none)) (detach_in os (pos fd))
unfolding detach_in
detach_in-Owned conns fd [] a = tt
detach_in-Owned conns fd (o ∷ os) a = (
  elim (Bool-cases (eq_ℤ o.client_fd (pos fd))) [
    | inl same ↦ rw same refl
    | inr other ↦ rw other (
        OwnerIn-left conns fd o.client_fd (λ e. ground (arith, (eq_ℤ_iff o.client_fd (pos fd)).1 e))
          a.0)
  ],
  detach_in-Owned conns fd os a.1,
)

left-Owned : (w : Exchange) (fd : ℕ) → Owned w → Owned (left w fd)
left-Owned w fd own = λ h.
    rw (deref-detach h w.orderbook (pos fd))
      (detach_in-Owned w.conns fd (deref h w.orderbook) (own h))

grown-stays : (w : Exchange) (n : ℕ) → StaysIn w.conns (grown w n).conns
grown-stays w n = λ fd on. rw (slot-grown w.conns n fd) on

pub Kept-Owned : Kept Owned Unused
Kept-Owned = record {
  steps = λ self w w' q own. Steps-kept MayOrder Owned (Step-Owned self) q own;
  grows = λ w n own. Owned-stays w.conns (grown w n).conns w.orderbook (grown-stays w n) own;
  still_is = λ w n fd unused. slot-grown w.conns n fd ∙ unused;
  comes = λ w fd unused own. filled-Owned w fd (some (new_connection fd)) unused own;
  empties = λ w fd unused own. filled-Owned w fd none unused own;
  leaves = left-Owned;
}

pub started-Owned : (os : Os) → Owned (started os).exchange
unfolding started init_orderbook
started-Owned os = elim [ jnst_buy ↦ tt | jnst_sell ↦ tt | imct_buy ↦ tt | imct_sell ↦ tt ]

-- If accept only ever returns descriptors that no client of the table has, then after every
-- sequence of events every resting order belongs to nobody, by the owner -1, or to a client that
-- is in the table and logged in: no order outlives its owner's connection under its descriptor, so
-- that the next client that gets the descriptor inherits none.
pub run_server-Owned :
    (env : Env) (events : List ServerEvent) (os : Os)
    → ArrivalsAre Unused env events (started os)
    → Owned (run_server env events os).exchange
unfolding run_server
run_server-Owned env events os unused =
    serve-kept Owned Unused Kept-Owned env events (started os) unused (started-Owned os)
