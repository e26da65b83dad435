-- ===== src/Process/Access.antt =====
-- Who may change the book.
use the_socket_exchange.Prelude.{
  ℕ, ◌≡◌, refl, if_elim, Bool, false, List, Option, none, some, codes, ltb, str_eq, length, ◌-◌,
}
use the_socket_exchange.Config.{username_length, max_cmd_len}
use the_socket_exchange.Output.{ClientConnection, Env, Os, Sent}
use the_socket_exchange.Session.{
  reply_error, login_user, subscribe_client, unsubscribe_client, quit_user,
}
use the_socket_exchange.Exchange.{Exchange, slot, on_slot, on_self, refuse}
use the_socket_exchange.Process.{
  log_in, process_session, process_scanned, process_command, process_matched, process_line,
  otherwise, logged_in_at, command_of,
}
use the_socket_exchange.Scan.{Scanned, nothing, one, two, three, four, sscanf}

-- The market as it was: the book, and the id that the next order gets.
abbrev pub SameMarket : Exchange → Exchange × Bool → Type 0
SameMarket w r = (r.0.orderbook ≡ w.orderbook) × (r.0.next_order_id ≡ w.next_order_id)

on_self-SameMarket :
    (handler : Os → ClientConnection → Sent) (fd : ℕ) (w : Exchange)
    → SameMarket w (on_self handler fd w)
on_self-SameMarket handler fd w = at (slot w.conns fd)
  where
    at : (x : Option ClientConnection) → SameMarket w (on_slot handler fd w x)
    at none = (refl, refl)
    at (some c) = (refl, refl)

module _ (env : Env) where
  refuse-SameMarket :
      (reason : List ℕ) (self : ℕ) (w : Exchange) → SameMarket w (refuse env reason self w)
  unfolding refuse
  refuse-SameMarket reason self w = on_self-SameMarket (λ os c. reply_error env os c reason) self w

  log_in-SameMarket :
      (arg : List ℕ) (self : ℕ) (w : Exchange) → SameMarket w (log_in env arg self w)
  unfolding log_in
  log_in-SameMarket arg self w =
      if_elim (SameMarket w) (ltb (username_length - 1) (length arg))
        (λ _. refuse-SameMarket (codes "Username too long") self w)
        (λ _. on_self-SameMarket (login_user env w.conns arg) self w)

  abbrev SameMarketAt : Exchange → Option (Exchange × Bool) → Type 0
  SameMarketAt w none = Unit
  SameMarketAt w (some r) = SameMarket w r

  process_session-SameMarket :
      (sc : Scanned) (self : ℕ) (w : Exchange) → SameMarketAt w (process_session env sc self w)
  unfolding process_session
  process_session-SameMarket (two cmd arg) self w =
      if_elim (SameMarketAt w) (str_eq cmd (codes "LOGIN")) (λ _. log_in-SameMarket arg self w)
        λ _.
          if_elim (SameMarketAt w) (str_eq cmd (codes "SUBSCRIBE"))
            (λ _. on_self-SameMarket (subscribe_client env arg) self w)
            λ _.
              if_elim (SameMarketAt w) (str_eq cmd (codes "UNSUBSCRIBE"))
                (λ _. on_self-SameMarket (unsubscribe_client env arg) self w) (λ _. tt)
  process_session-SameMarket (one cmd) self w =
      if_elim (SameMarketAt w) (str_eq cmd (codes "QUIT"))
        (λ _. on_self-SameMarket (quit_user env) self w) (λ _. tt)
  process_session-SameMarket _ self w = tt

  module _ (self : ℕ) (w : Exchange) (outsider : logged_in_at w self ≡ false) where
    process_scanned-SameMarket : (sc : Scanned) → SameMarket w (process_scanned env sc self w)
    unfolding process_scanned
    process_scanned-SameMarket sc =
        rw outsider (either (process_session env sc self w) (process_session-SameMarket sc self w))
      where
        either :
            (o : Option (Exchange × Bool))
            → SameMarketAt w o
            → SameMarket w (otherwise o (refuse env (codes "Not logged in") self w))
        either (some done) h = h
        either none h = refuse-SameMarket (codes "Not logged in") self w

    process_command-SameMarket : (sc : Scanned) → SameMarket w (process_command env sc self w)
    unfolding process_command
    process_command-SameMarket sc =
        if_elim (SameMarket w) (ltb max_cmd_len (length (command_of sc)))
          (λ _. refuse-SameMarket (codes "Unknown command") self w)
          (λ _. process_scanned-SameMarket sc)

    process_matched-SameMarket : (sc : Scanned) → SameMarket w (process_matched env sc self w)
    unfolding process_matched
    process_matched-SameMarket nothing = (refl, refl)
    process_matched-SameMarket (one cmd) = process_command-SameMarket (one cmd)
    process_matched-SameMarket (two cmd arg) = process_command-SameMarket (two cmd arg)
    process_matched-SameMarket (three cmd arg q) = process_command-SameMarket (three cmd arg q)
    process_matched-SameMarket (four cmd arg q p) = process_command-SameMarket (four cmd arg q p)

    -- No line from a client that is not logged in changes the order book or uses up an order id.
    pub process_line-SameMarket : (line : List ℕ) → SameMarket w (process_line env line self w)
    unfolding process_line
    process_line-SameMarket line = process_matched-SameMarket (sscanf line)
