-- ===== src/Exchange/Table.antt =====
-- The table of connections, and the steps that change output buffers alone.
use the_socket_exchange.Prelude.{
  ℤ, pos, negsuc, if_elim, ℕ, zero, suc, ◌≡◌, ◌≢◌, refl, ap, sym, subst, ◌∙◌, inl, inr, Bool, List,
  [], ◌∷◌, Option, none, some, eq_cases, set, length, length-set,
}
use the_socket_exchange.Book.{Instrument, Fill}
use the_socket_exchange.Output.{ClientConnection, Env, Os, Sent}
use the_socket_exchange.Session.{send_line, reply_error}
use the_socket_exchange.Session.Roles.{
  Keeps, Keeps-refl, Keeps-trans, send_line-Keeps, reply_error-Keeps,
}
use the_socket_exchange.Exchange.{
  Exchange, slot, on_slot, on_self, wants, offer, send_to, refuse, notify_client, broadcast,
  publish, announce, announce_all,
}

pub slot-set_self :
    (conns : List (Option ClientConnection)) (fd : ℕ) {c d : ClientConnection}
    → slot conns fd ≡ some c
    → slot (set conns fd (some d)) fd ≡ some d
slot-set_self [] fd h = cc
slot-set_self (x ∷ conns) zero h = refl
slot-set_self (x ∷ conns) (suc fd) h = slot-set_self conns fd h

pub slot-set_ne :
    (conns : List (Option ClientConnection)) (fd g : ℕ) (v : Option ClientConnection)
    → fd ≢ g
    → slot (set conns fd v) g ≡ slot conns g
slot-set_ne [] fd g v ne = refl
slot-set_ne (x ∷ conns) zero zero v ne = absurd (ne refl)
slot-set_ne (x ∷ conns) zero (suc g) v ne = refl
slot-set_ne (x ∷ conns) (suc fd) zero v ne = refl
slot-set_ne (x ∷ conns) (suc fd) (suc g) v ne = slot-set_ne conns fd g v (λ e. ne (ap suc e))

-- A property of one slot, after another or the same is set.
pub slot-set-elim {ℓ} :
    (P : Option ClientConnection → Type ℓ) (conns : List (Option ClientConnection)) (fd g : ℕ)
    (c d : ClientConnection)
    → slot conns fd ≡ some c
    → (fd ≡ g → P (some d))
    → P (slot conns g)
    → P (slot (set conns fd (some d)) g)
slot-set-elim P conns fd g c d at here there = elim (eq_cases fd g) [
  | inl e ↦
      subst (λ k. P (slot (set conns fd (some d)) k)) e
        (rw (slot-set_self conns fd {c = c} {d = d} at) (here e))
  | inr ne ↦ rw (slot-set_ne conns fd g (some d) ne) there
]

-- A step from one table to another that keeps every connection, in the sense of `Keeps`.
abbrev pub KeepsAt : Option ClientConnection → Option ClientConnection → Type 0
KeepsAt none none = Unit
KeepsAt (some c) (some d) = Keeps c d
KeepsAt none (some d) = ⊥
KeepsAt (some c) none = ⊥

abbrev pub Serves : List (Option ClientConnection) → List (Option ClientConnection) → Type 0
Serves conns conns' = (fd : ℕ) → KeepsAt (slot conns fd) (slot conns' fd)

KeepsAt-refl : (x : Option ClientConnection) → KeepsAt x x
KeepsAt-refl none = tt
KeepsAt-refl (some c) = Keeps-refl c

KeepsAt-trans : (x y z : Option ClientConnection) → KeepsAt x y → KeepsAt y z → KeepsAt x z
KeepsAt-trans none none none p q = tt
KeepsAt-trans (some c) (some d) (some e) p q = Keeps-trans p q
KeepsAt-trans none (some d) z p q = absurd p
KeepsAt-trans (some c) none z p q = absurd p
KeepsAt-trans none none (some e) p q = q
KeepsAt-trans (some c) (some d) none p q = q

pub Serves-refl : (conns : List (Option ClientConnection)) → Serves conns conns
Serves-refl conns = λ fd. KeepsAt-refl (slot conns fd)

pub Serves-trans : (a b c : List (Option ClientConnection)) → Serves a b → Serves b c → Serves a c
Serves-trans a b c p q = λ fd. KeepsAt-trans (slot a fd) (slot b fd) (slot c fd) (p fd) (q fd)

pub Serves-set :
    (conns : List (Option ClientConnection)) (fd : ℕ) (c d : ClientConnection)
    → slot conns fd ≡ some c
    → Keeps c d
    → Serves conns (set conns fd (some d))
Serves-set conns fd c d at k = λ g.
    slot-set-elim (KeepsAt (slot conns g)) conns fd g c d at
      (λ here. subst (λ x. KeepsAt x (some d)) (sym at ∙ ap (slot conns) here) k)
      (KeepsAt-refl (slot conns g))

-- What an exchange keeps while it only talks to its clients.
pub record Talks (w w' : Exchange) : Type 0 where
  pub serves : Serves w.conns w'.conns
  pub same_book : w'.orderbook ≡ w.orderbook
  pub same_id : w'.next_order_id ≡ w.next_order_id
  pub same_length : length w'.conns ≡ length w.conns

pub Talks-refl : (w : Exchange) → Talks w w
Talks-refl w = record {
  serves = Serves-refl w.conns;
  same_book = refl;
  same_id = refl;
  same_length = refl;
}

pub Talks-trans : {u v w : Exchange} → Talks u v → Talks v w → Talks u w
Talks-trans {u} {v} {w} p q = record {
  serves = Serves-trans u.conns v.conns w.conns p.serves q.serves;
  same_book = q.same_book ∙ p.same_book;
  same_id = q.same_id ∙ p.same_id;
  same_length = q.same_length ∙ p.same_length;
}

on_slot-Talks :
    (handler : Os → ClientConnection → Sent) (fd : ℕ) (w : Exchange) (x : Option ClientConnection)
    → slot w.conns fd ≡ x
    → ((os : Os) (c : ClientConnection) → Keeps c (handler os c).conn)
    → Talks w (on_slot handler fd w x).0
on_slot-Talks handler fd w none at k = Talks-refl w
on_slot-Talks handler fd w (some c) at k = record {
  serves = Serves-set w.conns fd c (handler w.os c).conn at (k w.os c);
  same_book = refl;
  same_id = refl;
  same_length = length-set w.conns fd (some (handler w.os c).conn);
}

pub on_self-Talks :
    (handler : Os → ClientConnection → Sent) (fd : ℕ) (w : Exchange)
    → ((os : Os) (c : ClientConnection) → Keeps c (handler os c).conn)
    → Talks w (on_self handler fd w).0
on_self-Talks handler fd w k = on_slot-Talks handler fd w (slot w.conns fd) refl k

module _ (env : Env) where
  pub send_to-Talks : (line : List ℕ) (fd : ℕ) (w : Exchange) → Talks w (send_to env line fd w).0
  unfolding send_to
  send_to-Talks line fd w =
      on_self-Talks (λ os c. send_line env os c line) fd w λ os c. send_line-Keeps env os c line

  pub refuse-Talks : (reason : List ℕ) (fd : ℕ) (w : Exchange) → Talks w (refuse env reason fd w).0
  unfolding refuse
  refuse-Talks reason fd w =
      on_self-Talks (λ os c. reply_error env os c reason) fd w
        λ os c. reply_error-Keeps env os c reason

  notify_client-Talks :
      (fd : ℤ) (msg : List ℕ) (self : ℕ) (s : Exchange × Bool)
      → Talks s.0 (notify_client env fd msg self s).0
  unfolding notify_client
  notify_client-Talks (negsuc n) msg self (w, done) = Talks-refl w
  notify_client-Talks (pos fd) msg self (w, done) = send_to-Talks msg fd w

  offer-Keeps :
      (i : Instrument) (msg : List ℕ) (os : Os) (sub : ClientConnection)
      → Keeps sub (offer env i msg os sub).conn
  unfolding offer
  offer-Keeps i msg os sub =
      if_elim (λ (r : Sent). Keeps sub r.conn) (wants i (some sub))
        (λ _. send_line-Keeps env os sub msg) (λ _. Keeps-refl sub)

  broadcast-Serves :
      (i : Instrument) (msg : List ℕ) (os : Os) (conns : List (Option ClientConnection))
      → Serves conns (broadcast env i msg os conns).1
  unfolding broadcast
  broadcast-Serves i msg os [] = λ fd. tt
  broadcast-Serves i msg os (none ∷ conns) = elim [
    | zero ↦ tt
    | suc fd ↦ broadcast-Serves i msg os conns fd
  ]
  broadcast-Serves i msg os (some sub ∷ conns) = elim [
    | zero ↦ offer-Keeps i msg os sub
    | suc fd ↦ broadcast-Serves i msg (offer env i msg os sub).os conns fd
  ]

  length-broadcast :
      (i : Instrument) (msg : List ℕ) (os : Os) (conns : List (Option ClientConnection))
      → length (broadcast env i msg os conns).1 ≡ length conns
  unfolding broadcast
  length-broadcast i msg os [] = refl
  length-broadcast i msg os (none ∷ conns) = ap suc (length-broadcast i msg os conns)
  length-broadcast i msg os (some sub ∷ conns) =
      ap suc (length-broadcast i msg (offer env i msg os sub).os conns)

  publish-Talks : (f : Fill) (w : Exchange) → Talks w (publish env f w)
  unfolding publish
  publish-Talks f w = record {
    serves = broadcast-Serves f.instrument _ w.os w.conns;
    same_book = refl;
    same_id = refl;
    same_length = length-broadcast f.instrument _ w.os w.conns;
  }

  announce-Talks : (f : Fill) (self : ℕ) (s : Exchange × Bool) → Talks s.0 (announce env f self s).0
  unfolding announce
  announce-Talks f self s =
      Talks-trans (notify_client-Talks f.buy_client_fd _ self s)
        (Talks-trans (notify_client-Talks f.sell_client_fd _ self _) (publish-Talks f _))

  pub announce_all-Talks :
      (fs : List Fill) (self : ℕ) (s : Exchange × Bool) → Talks s.0 (announce_all env fs self s).0
  unfolding announce_all
  announce_all-Talks [] self s = Talks-refl s.0
  announce_all-Talks (f ∷ fs) self s =
      Talks-trans (announce-Talks f self s) (announce_all-Talks fs self (announce env f self s))
