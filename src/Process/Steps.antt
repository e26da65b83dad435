-- ===== src/Process/Steps.antt =====
-- One line, as a sequence of steps of the exchange.
use the_socket_exchange.Prelude.{
  if◌then◌else◌, ℕ, ◌-◌, ◌≤◌, ◌≡◌, refl, sym, subst, ◌++◌, inl, inr, ℤ, pos, if_elim, Bool, true,
  List, [], Option, none, some, arith, codes, ltb, leb, str_eq, length, length-set,
}
use the_socket_exchange.Config.{username_length, max_cmd_len}
use the_socket_exchange.Book.{LimitOrderBook, assign, buy, sell}
use the_socket_exchange.Book.Cancel.{no_such, taken, cancel_order-outcome}
use the_socket_exchange.Output.{ClientConnection, Env}
use the_socket_exchange.Session.{login_user, subscribe_client, unsubscribe_client, quit_user}
use the_socket_exchange.Session.Roles.{
  login_user-outcome, subscribe_client-Keeps, unsubscribe_client-Keeps, quit_user-Keeps,
}
use the_socket_exchange.Exchange.{Exchange, slot, on_slot, send_to, id_line, refuse}
use the_socket_exchange.Exchange.Table.{Serves-set, on_self-Talks, send_to-Talks}
use the_socket_exchange.Exchange.Steps.{
  talks, signs, takes_out, Steps, here, next, talked, refuse-Steps, place_order-Steps,
}
use the_socket_exchange.Process.{
  cancel_found, cancel_number, cancel_user_order, process_order, log_in, process_session,
  process_scanned, process_command, process_matched, process_line, otherwise, logged_in_at,
  command_of, int_max, stored,
}
use the_socket_exchange.Scan.{Scanned, nothing, one, two, three, four, strtol, sscanf}

-- A client that may place orders.
abbrev pub MayOrder : Exchange → ℕ → Type 0
MayOrder w self = logged_in_at w self ≡ true

abbrev Ends : ℕ → Exchange → Exchange × Bool → Type 0
Ends self w r = Steps MayOrder self w r.0

abbrev EndsAt : ℕ → Exchange → Option (Exchange × Bool) → Type 0
EndsAt self w none = Unit
EndsAt self w (some r) = Ends self w r

module _ (env : Env) where
  cancel_found-Steps :
      (id self : ℕ) (w : Exchange) → Steps MayOrder self w (cancel_found env id self w).0
  unfolding cancel_found
  cancel_found-Steps id self w = elim (cancel_order-outcome w.orderbook id (pos self)) [
    | no_such foreign e ↦ subst Cancelled (sym e) (refuse-Steps MayOrder env _ self w)
    | taken h before o after split own e ↦ subst Cancelled (sym e) (
        next (next here (takes_out h before o after w split own.1)) (
          talks _ _ (
            send_to-Talks env _ self
              (record w { orderbook = assign h (before ++ after) w.orderbook }))))
  ]
    where
      Cancelled : LimitOrderBook × Bool → Type 0
      Cancelled r = Ends self w (
          if r.1
          then send_to env (id_line (codes "ORDER_CANCELLED") id) self
              (record w { orderbook = r.0 })
          else refuse env (codes "No such order") self w)

  cancel_number-Steps :
      (n : Option (ℤ × List ℕ)) (self : ℕ) (w : Exchange)
      → Steps MayOrder self w (cancel_number env n self w).0
  unfolding cancel_number
  cancel_number-Steps (some (pos id, [])) self w =
      if_elim (Ends self w) (leb id int_max) (λ _. cancel_found-Steps id self w)
        (λ _. refuse-Steps MayOrder env _ self w)
  cancel_number-Steps _ self w = refuse-Steps MayOrder env _ self w

  process_order-Steps :
      (sc : Scanned) (self : ℕ) (w : Exchange)
      → MayOrder w self
      → Steps MayOrder self w (process_order env sc self w).0
  unfolding process_order cancel_user_order
  process_order-Steps (four cmd arg quantity price) self w signed =
      if_elim (Ends self w) (str_eq cmd (codes "BUY"))
        (λ _.
          place_order-Steps MayOrder env buy arg (stored env quantity) (stored env price) self w
            signed)
        λ _.
          if_elim (Ends self w) (str_eq cmd (codes "SELL"))
            (λ _.
              place_order-Steps MayOrder env sell arg (stored env quantity) (stored env price) self
                w signed)
            (λ _. refuse-Steps MayOrder env _ self w)
  process_order-Steps (two cmd arg) self w signed =
      if_elim (Ends self w) (str_eq cmd (codes "CANCEL"))
        (λ _. cancel_number-Steps (strtol arg) self w) (λ _. refuse-Steps MayOrder env _ self w)
  process_order-Steps _ self w signed = refuse-Steps MayOrder env _ self w

  -- LOGIN, in the cases of the client's slot.
  login_at :
      (arg : List ℕ) (self : ℕ) (w : Exchange) (x : Option ClientConnection)
      → length arg ≤ username_length - 1
      → slot w.conns self ≡ x
      → Steps MayOrder self w (on_slot (login_user env w.conns arg) self w x).0
  login_at arg self w none fits at = here
  login_at arg self w (some c) fits at = elim (login_user-outcome env w.conns arg w.os c fits) [
    | inl k ↦ talked MayOrder w _ (record {
      serves = Serves-set w.conns self c (login_user env w.conns arg w.os c).conn at k;
      same_book = refl;
      same_id = refl;
      same_length = length-set w.conns self (some (login_user env w.conns arg w.os c).conn);
    })
    | inr s ↦
        let r = login_user env w.conns arg w.os c in next here (signs arg w c r.conn r.os at s)
  ]

  log_in-Steps :
      (arg : List ℕ) (self : ℕ) (w : Exchange) → Steps MayOrder self w (log_in env arg self w).0
  unfolding log_in
  log_in-Steps arg self w =
      if_elim (Ends self w) (ltb (username_length - 1) (length arg))
        (λ _. refuse-Steps MayOrder env _ self w)
        (λ fits. login_at arg self w (slot w.conns self) (ground arith) refl)

  process_session-Steps :
      (sc : Scanned) (self : ℕ) (w : Exchange) → EndsAt self w (process_session env sc self w)
  unfolding process_session
  process_session-Steps (two cmd arg) self w =
      if_elim (EndsAt self w) (str_eq cmd (codes "LOGIN")) (λ _. log_in-Steps arg self w)
        λ _.
          if_elim (EndsAt self w) (str_eq cmd (codes "SUBSCRIBE"))
            (λ _.
              talked MayOrder w _
                (on_self-Talks (subscribe_client env arg) self w (subscribe_client-Keeps env arg)))
            λ _.
              if_elim (EndsAt self w) (str_eq cmd (codes "UNSUBSCRIBE"))
                (λ _. talked MayOrder w _ (
                  on_self-Talks (unsubscribe_client env arg) self w
                    (unsubscribe_client-Keeps env arg)))
                (λ _. tt)
  process_session-Steps (one cmd) self w =
      if_elim (EndsAt self w) (str_eq cmd (codes "QUIT"))
        (λ _. talked MayOrder w _ (on_self-Talks (quit_user env) self w (quit_user-Keeps env)))
        (λ _. tt)
  process_session-Steps _ self w = tt

  process_scanned-Steps :
      (sc : Scanned) (self : ℕ) (w : Exchange)
      → Steps MayOrder self w (process_scanned env sc self w).0
  unfolding process_scanned
  process_scanned-Steps sc self w =
      either (process_session env sc self w) (process_session-Steps sc self w)
    where
      rest :
          Steps MayOrder self w
            (if logged_in_at w self
              then process_order env sc self w
              else refuse env (codes "Not logged in") self w).0
      rest =
          if_elim (Ends self w) (logged_in_at w self)
            (λ signed. process_order-Steps sc self w signed)
            (λ _. refuse-Steps MayOrder env _ self w)

      either :
          (o : Option (Exchange × Bool))
          → EndsAt self w o
          → Steps MayOrder self w
              (otherwise o (
                if logged_in_at w self
                then process_order env sc self w
                else refuse env (codes "Not logged in") self w)).0
      either (some done) h = h
      either none h = rest

  process_command-Steps :
      (sc : Scanned) (self : ℕ) (w : Exchange)
      → Steps MayOrder self w (process_command env sc self w).0
  unfolding process_command
  process_command-Steps sc self w =
      if_elim (Ends self w) (ltb max_cmd_len (length (command_of sc)))
        (λ _. refuse-Steps MayOrder env _ self w) (λ _. process_scanned-Steps sc self w)

  process_matched-Steps :
      (sc : Scanned) (self : ℕ) (w : Exchange)
      → Steps MayOrder self w (process_matched env sc self w).0
  unfolding process_matched
  process_matched-Steps nothing self w = here
  process_matched-Steps (one cmd) self w = process_command-Steps (one cmd) self w
  process_matched-Steps (two cmd arg) self w = process_command-Steps (two cmd arg) self w
  process_matched-Steps (three cmd arg q) self w = process_command-Steps (three cmd arg q) self w
  process_matched-Steps (four cmd arg q p) self w = process_command-Steps (four cmd arg q p) self w

  -- Whatever line a client sends, and whatever the kernel and the allocators answer, the exchange
  -- only takes steps of four kinds: it talks to its clients, which changes neither the book, nor the
  -- next order id, nor who is logged in; the client that sent the line signs in under a name that no
  -- client holds; one resting order whose owner is that client is taken out; and an order that
  -- carries the next id, that client's descriptor and a positive price is matched, if the client is
  -- logged in.
  pub process_line-Steps :
      (line : List ℕ) (self : ℕ) (w : Exchange)
      → Steps MayOrder self w (process_line env line self w).0
  unfolding process_line
  process_line-Steps line self w = process_matched-Steps (sscanf line) self w
