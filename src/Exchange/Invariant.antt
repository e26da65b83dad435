-- ===== src/Exchange/Invariant.antt =====
-- What makes an exchange valid, and the steps that keep it so.
use the_socket_exchange.Prelude.{
  ℕ, zero, suc, ◌+◌, ◌≡◌, ◌≢◌, ◌⊎◌, refl, ap, sym, ◌∙◌, subst, inl, inr, ℤ, true, false, List, [],
  ◌∷◌, Option, none, some, arith, set,
}
use the_socket_exchange.Book.{OrderSide, LimitOrderBook}
use the_socket_exchange.Book.Invariant
use the_socket_exchange.Book.Invariant.{add_order-IsValid}
use the_socket_exchange.Book.Cancel.{remove-IsValid}
use the_socket_exchange.Book.Everywhere.{Everywhere-remove}
use the_socket_exchange.Book.Ids.{Below, IdsBelow, IdsBelow-add_order, IdsBelow-mono}
use the_socket_exchange.Output.{ClientConnection, Env, Os}
use the_socket_exchange.Output.Runs.{IsBounded}
use the_socket_exchange.Session.{slot_has, name_in_use}
use the_socket_exchange.Session.Names.{slot_has-identity}
use the_socket_exchange.Session.Roles.{Signs, HasRole, identity}
use the_socket_exchange.Exchange.{Exchange, slot, place_order}
use the_socket_exchange.Exchange.Table.{KeepsAt, Talks, slot-set-elim}
use the_socket_exchange.Exchange.Steps.{
  Step, talks, signs, takes_out, places, Steps, Steps-kept, place_order-Steps,
}

-- The connection in slot `fd`: its own descriptor, one role, a name and a buffer that fit.
abbrev pub SettledAt : ℕ → Option ClientConnection → Type 0
SettledAt fd none = Unit
SettledAt fd (some c) = HasRole c × (c.client_fd ≡ fd) × IsBounded c

abbrev pub name_at : Option ClientConnection → Option (List ℕ)
name_at none = none
name_at (some c) = identity c

-- No two clients are logged in under one name.
abbrev pub DistinctNames : List (Option ClientConnection) → Type 0
DistinctNames conns =
    (i j : ℕ) (name : List ℕ)
    → name_at (slot conns i) ≡ some name
    → name_at (slot conns j) ≡ some name
    → i ≡ j

pub record IsValid (w : Exchange) : Type 0 where
  pub book : Invariant.IsValid w.orderbook
  pub ids : IdsBelow w.next_order_id w.orderbook
  pub settled : (fd : ℕ) → SettledAt fd (slot w.conns fd)
  pub names : DistinctNames w.conns

KeepsAt-settled :
    (fd : ℕ) (x y : Option ClientConnection) → KeepsAt x y → SettledAt fd x → SettledAt fd y
KeepsAt-settled fd none none k s = tt
KeepsAt-settled fd (some c) (some d) k (role, own, bounded) =
    (k.role role, k.fd ∙ own, k.within bounded)
KeepsAt-settled fd none (some d) k s = absurd k
KeepsAt-settled fd (some c) none k s = tt

KeepsAt-name : (x y : Option ClientConnection) → KeepsAt x y → name_at y ≡ name_at x
KeepsAt-name none none k = refl
KeepsAt-name (some c) (some d) k = k.name
KeepsAt-name none (some d) k = absurd k
KeepsAt-name (some c) none k = absurd k

pub Talks-IsValid : (w w' : Exchange) → Talks w w' → IsValid w → IsValid w'
Talks-IsValid w w' t v = record {
  book = subst Invariant.IsValid (sym t.same_book) v.book;
  ids = rw (t.same_book, t.same_id) v.ids;
  settled =
      λ fd. KeepsAt-settled fd (slot w.conns fd) (slot w'.conns fd) (t.serves fd) (v.settled fd);
  names = λ i j name p q. v.names i j name (sym (kept i) ∙ p) (sym (kept j) ∙ q);
}
  where
    kept : (fd : ℕ) → name_at (slot w'.conns fd) ≡ name_at (slot w.conns fd)
    kept fd = KeepsAt-name (slot w.conns fd) (slot w'.conns fd) (t.serves fd)

-- A new book, and perhaps a new bound for the ids.
pub book-IsValid :
    (w : Exchange) (b : LimitOrderBook) (n : ℕ)
    → Invariant.IsValid b
    → IdsBelow n b
    → IsValid w
    → IsValid (record w { orderbook = b; next_order_id = n })
book-IsValid w b n valid below v = record {
  book = valid;
  ids = below;
  settled = v.settled;
  names = v.names;
}

-- A name that loginUser does not find in the table is no client's.
name_free :
    (conns : List (Option ClientConnection)) (name : List ℕ) (j : ℕ)
    → name_in_use conns name ≡ false
    → name_at (slot conns j) ≢ some name
unfolding name_in_use
name_free [] name j free e = cc
name_free (none ∷ conns) name zero free e = cc
name_free (none ∷ conns) name (suc j) free e = name_free conns name j free e
name_free (some c ∷ conns) name zero free e =
    let found : slot_has name (some c) ≡ true = slot_has-identity c name e in ground (arith, found)
name_free (some c ∷ conns) name (suc j) free e = name_free conns name j (ground arith) e

same_name : (a b : List ℕ) → some a ≡ some b → a ≡ b
same_name a b e = cc

-- Who holds a name after a login in slot `self`.
module _ (arg : List ℕ) (self : ℕ) (w : Exchange) (c d : ClientConnection) (os : Os)
    (at : slot w.conns self ≡ some c) (s : Signs w.conns arg c d) where
  holder :
      (i : ℕ) (name : List ℕ)
      → name_at (slot (set w.conns self (some d)) i) ≡ some name
      → ((self ≡ i) × (name ≡ arg)) ⊎ (name_at (slot w.conns i) ≡ some name)
  holder i name =
      slot-set-elim
        (λ x.
          name_at x ≡ some name
          → ((self ≡ i) × (name ≡ arg)) ⊎ (name_at (slot w.conns i) ≡ some name))
        w.conns self i c d at (λ here e. inl (here, same_name name arg (sym e ∙ s.signed)))
        (λ e. inr e)

  signed-names : DistinctNames w.conns → DistinctNames (set w.conns self (some d))
  signed-names v i j name p q = elim (holder i name p) [
    | inl (e, n) ↦ elim (holder j name q) [
      | inl (e', n') ↦ sym e ∙ e'
      | inr q' ↦ absurd (name_free w.conns arg j s.free (q' ∙ ap some n))
    ]
    | inr p' ↦ elim (holder j name q) [
      | inl (e', n') ↦ absurd (name_free w.conns arg i s.free (p' ∙ ap some n'))
      | inr q' ↦ v i j name p' q'
    ]
  ]

  signed-IsValid : IsValid w → IsValid (record w { conns = set w.conns self (some d); os = os })
  signed-IsValid v = record {
    book = v.book;
    ids = v.ids;
    settled = λ fd.
        slot-set-elim (SettledAt fd) w.conns self fd c d at
          (λ here.
            let old : SettledAt self (some c) = subst (SettledAt self) at (v.settled self) in
            (s.role old.0, s.fd ∙ old.1 ∙ here, s.within old.2))
          (v.settled fd);
    names = signed-names v.names;
  }

module _ (Permits : Exchange → ℕ → Type 0) where
  Step-IsValid : (self : ℕ) (w w' : Exchange) → Step Permits self w w' → IsValid w → IsValid w'
  Step-IsValid self _ _ (talks w w' t) v = Talks-IsValid w w' t v
  Step-IsValid self _ _ (signs name w c d os at s) v = signed-IsValid name self w c d os at s v
  Step-IsValid self _ _ (takes_out h before o after w split own) v =
      book-IsValid w _ w.next_order_id (remove-IsValid w.orderbook h before o after split v.book)
        (Everywhere-remove (Below w.next_order_id) w.orderbook h before o after split v.ids) v
  Step-IsValid self _ _ (places realloc ord w permitted own fresh priced) v =
      book-IsValid w _ (w.next_order_id + 1)
        (add_order-IsValid realloc w.orderbook ord v.book priced)
        (IdsBelow-add_order (w.next_order_id + 1) realloc w.orderbook ord
          (IdsBelow-mono w.next_order_id (w.next_order_id + 1) w.orderbook (omega arith) v.ids)
          (rw fresh (omega arith)))
        v

  -- Every sequence of steps, whoever may place orders, leaves a valid exchange valid.
  pub Steps-IsValid :
      {self : ℕ} {w w' : Exchange} → Steps Permits self w w' → IsValid w → IsValid w'
  Steps-IsValid {self} q v = Steps-kept Permits IsValid (Step-IsValid self) q v

-- placeOrder keeps a valid exchange valid, whatever it is asked to place.
pub place_order-IsValid :
    (env : Env) (side : OrderSide) (instrument : List ℕ) (quantity price : ℤ) (self : ℕ)
    (w : Exchange)
    → IsValid w
    → IsValid (place_order env side instrument quantity price self w).0
place_order-IsValid env side instrument quantity price self w v =
    Steps-IsValid (λ _ _. Unit)
      (place_order-Steps (λ _ _. Unit) env side instrument quantity price self w tt) v
