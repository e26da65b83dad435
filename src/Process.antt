-- ===== src/Process.antt =====
-- cancelUserOrder of src/includes/commands.c and processLine of src/includes/io.c: one line.
pub mod Access
pub mod Cancel
pub mod Invariant
pub mod Steps
use the_socket_exchange.Prelude.{
  ℕ, zero, suc, ◌+◌, ◌-◌, ◌<◌, ℤ, pos, negsuc, Bool, true, false, List, [], ◌∷◌, Option, none, some,
  codes, str_eq, ltb, leb, ◌==◌, if◌then◌else◌, length,
}
use the_socket_exchange.Config.{max_cmd_len, username_length}
use the_socket_exchange.Book.{OrderSide, buy, sell, cancel_order}
use the_socket_exchange.Output.{ClientConnection, Env, Os}
use the_socket_exchange.Session.{
  reply_error, login_user, subscribe_client, unsubscribe_client, quit_user,
}
use the_socket_exchange.Exchange.{Exchange, slot, on_self, id_line, send_to, refuse, place_order}
use the_socket_exchange.Scan.{Scanned, nothing, one, two, three, four, strtol, sscanf}

abbrev pub int_max : ℕ
int_max = 0x7fff_ffff

-- An int variable after %d: what scanf stores for a number out of range is not specified.
abbrev pub stored : Env → ℤ → ℤ
stored env (pos n) = if leb n int_max then pos n else env.out_of_range (pos n)
stored env (negsuc n) = if leb n int_max then negsuc n else env.out_of_range (negsuc n)

abbrev pub is_logged_in : Option ClientConnection → Bool
is_logged_in none = false
is_logged_in (some c) = c.logged_in

abbrev pub logged_in_at : Exchange → ℕ → Bool
logged_in_at w self = is_logged_in (slot w.conns self)

abbrev pub otherwise : Option (Exchange × Bool) → Exchange × Bool → Exchange × Bool
otherwise (some done) rest = done
otherwise none rest = rest

abbrev pub command_of : Scanned → List ℕ
command_of nothing = []
command_of (one cmd) = cmd
command_of (two cmd arg) = cmd
command_of (three cmd arg quantity) = cmd
command_of (four cmd arg quantity price) = cmd

module _ (env : Env) where
  unfoldable pub cancel_found : ℕ → ℕ → Exchange → Exchange × Bool
  unfolding send_to refuse
  cancel_found id self w =
      let r = cancel_order w.orderbook id (pos self) in
      if r.1
      then send_to env (id_line (codes "ORDER_CANCELLED") id) self (record w { orderbook = r.0 })
      else refuse env (codes "No such order") self w

  unfoldable pub cancel_number : Option (ℤ × List ℕ) → ℕ → Exchange → Exchange × Bool
  unfolding cancel_found refuse
  cancel_number (some (pos id, [])) self w =
      if leb id int_max
      then cancel_found id self w
      else refuse env (codes "Invalid order id") self w
  cancel_number _ self w = refuse env (codes "Invalid order id") self w

  unfoldable pub cancel_user_order : List ℕ → ℕ → Exchange → Exchange × Bool
  unfolding cancel_number strtol
  cancel_user_order order_id_str self w = cancel_number (strtol order_id_str) self w

  -- The commands on the book, for clients that are logged in.
  unfoldable pub process_order : Scanned → ℕ → Exchange → Exchange × Bool
  unfolding place_order cancel_user_order refuse str_eq
  process_order (four cmd arg quantity price) self w =
      if str_eq cmd (codes "BUY")
      then place_order env buy arg (stored env quantity) (stored env price) self w
      else if str_eq cmd (codes "SELL")
      then place_order env sell arg (stored env quantity) (stored env price) self w
      else refuse env (codes "Unknown command") self w
  process_order (two cmd arg) self w =
      if str_eq cmd (codes "CANCEL")
      then cancel_user_order arg self w
      else refuse env (codes "Unknown command") self w
  process_order _ self w = refuse env (codes "Unknown command") self w

  -- The commands that anyone may give come first; `log_in` is the branch behind the length test.
  unfoldable pub log_in : List ℕ → ℕ → Exchange → Exchange × Bool
  unfolding login_user refuse
  log_in arg self w =
      if ltb (username_length - 1) (length arg)
      then refuse env (codes "Username too long") self w
      else on_self (login_user env w.conns arg) self w

  unfoldable pub process_session : Scanned → ℕ → Exchange → Option (Exchange × Bool)
  unfolding log_in subscribe_client unsubscribe_client quit_user str_eq
  process_session (two cmd arg) self w =
      if str_eq cmd (codes "LOGIN")
      then some (log_in arg self w)
      else if str_eq cmd (codes "SUBSCRIBE")
      then some (on_self (subscribe_client env arg) self w)
      else if str_eq cmd (codes "UNSUBSCRIBE")
      then some (on_self (unsubscribe_client env arg) self w)
      else none
  process_session (one cmd) self w =
      if str_eq cmd (codes "QUIT") then some (on_self (quit_user env) self w) else none
  process_session _ self w = none

  unfoldable pub process_scanned : Scanned → ℕ → Exchange → Exchange × Bool
  unfolding process_session process_order refuse
  process_scanned sc self w = otherwise (process_session sc self w) (
      if logged_in_at w self
      then process_order sc self w
      else refuse env (codes "Not logged in") self w)

  -- The test of the command's length comes before the commands.
  unfoldable pub process_command : Scanned → ℕ → Exchange → Exchange × Bool
  unfolding process_scanned refuse
  process_command sc self w =
      if ltb max_cmd_len (length (command_of sc))
      then refuse env (codes "Unknown command") self w
      else process_scanned sc self w

  -- `matched < 1` is a line with no command.
  unfoldable pub process_matched : Scanned → ℕ → Exchange → Exchange × Bool
  unfolding process_command
  process_matched nothing self w = (w, false)
  process_matched (one cmd) self w = process_command (one cmd) self w
  process_matched (two cmd arg) self w = process_command (two cmd arg) self w
  process_matched (three cmd arg quantity) self w = process_command (three cmd arg quantity) self w
  process_matched (four cmd arg quantity price) self w =
      process_command (four cmd arg quantity price) self w

  unfoldable pub process_line : List ℕ → ℕ → Exchange → Exchange × Bool
  unfolding process_matched sscanf
  process_line line self w = process_matched (sscanf line) self w
