-- ===== src/Session.antt =====
-- The commands of src/includes/commands.c that change no more than the client's own connection,
-- and sendLine and replyError of src/includes/io.c. A handler gets its own connection as a value
-- and returns it; the table of connections is read by `login_user` alone.
pub mod Names
pub mod Roles
use the_socket_exchange.Prelude.{
  ℕ, ◌+◌, ◌-◌, Bool, true, false, ◌&&◌, ◌||◌, List, [], ◌∷◌, ◌++◌, Option, none, some, codes,
  line_feed, str_eq, ◌==◌, if◌then◌else◌, take,
}
use the_socket_exchange.Config.{username_length}
use the_socket_exchange.Book.{Instrument, jnst, imct}
use the_socket_exchange.Output.{
  ClientType, undecided, trader, market, ClientConnection, outlen, Env, Os, Sent, send_to_client,
}

abbrev pub is_trader : ClientType → Bool
is_trader trader = true
is_trader undecided = false
is_trader market = false

abbrev pub is_market : ClientType → Bool
is_market market = true
is_market undecided = false
is_market trader = false

abbrev pub ok_line : List ℕ
ok_line = codes "OK" ++ line_feed ∷ []

-- snprintf into 64 bytes, one of them for the terminator.
unfoldable pub error_line : List ℕ → List ℕ
error_line reason = take 63 (codes "ERROR " ++ (reason ++ line_feed ∷ []))

-- The conversions of an instrument's name, as the handlers test it.
unfoldable pub find_instrument : List ℕ → Option Instrument
unfolding str_eq
find_instrument name =
    if str_eq name (codes "JNST")
    then some jnst
    else if str_eq name (codes "IMCT")
    then some imct
    else none

-- The test of one slot in loginUser's search.
abbrev pub slot_has : List ℕ → Option ClientConnection → Bool
slot_has username none = false
slot_has username (some c) = c.logged_in && str_eq c.username username

unfoldable pub name_in_use : List (Option ClientConnection) → List ℕ → Bool
name_in_use [] username = false
name_in_use (slot ∷ conns) username = slot_has username slot || name_in_use conns username

abbrev pub subscribed : Instrument → ClientConnection → Bool
subscribed jnst c = c.subscribed_jnst
subscribed imct c = c.subscribed_imct

abbrev pub set_subscribed : Instrument → Bool → ClientConnection → ClientConnection
set_subscribed jnst on c = record c { subscribed_jnst = on }
set_subscribed imct on c = record c { subscribed_imct = on }

abbrev pub not_subscribed_text : Instrument → List ℕ
not_subscribed_text jnst = codes "Not subscribed to JNST"
not_subscribed_text imct = codes "Not subscribed to IMCT"

abbrev pub already_subscribed_text : Instrument → List ℕ
already_subscribed_text jnst = codes "Already subscribed to JNST"
already_subscribed_text imct = codes "Already subscribed to IMCT"

module _ (env : Env) where
  unfoldable pub send_line : Os → ClientConnection → List ℕ → Sent
  send_line os c line = send_to_client env os c line

  unfoldable pub reply_error : Os → ClientConnection → List ℕ → Sent
  reply_error os c reason = send_line os c (error_line reason)

  unfoldable pub login_user : List (Option ClientConnection) → List ℕ → Os → ClientConnection → Sent
  login_user conns username os self =
      if is_market self.type
      then reply_error os self (codes "Market data clients cannot log in")
      else if self.logged_in
      then reply_error os self (codes "Already logged in")
      else if name_in_use conns username
      then reply_error os self (codes "Username already in use")
      else send_line os
          (record self {
            type = trader;
            username = take (username_length - 1) username;
            logged_in = true;
          })
          ok_line

  unfoldable pub subscribe_to : Instrument → Os → ClientConnection → Sent
  subscribe_to i os self =
      if subscribed i self
      then reply_error os self (already_subscribed_text i)
      else send_line os (record (set_subscribed i true self) { type = market }) ok_line

  unfoldable pub subscribe_found : Option Instrument → Os → ClientConnection → Sent
  unfolding subscribe_to
  subscribe_found (some i) os self = subscribe_to i os self
  subscribe_found none os self = reply_error os self (codes "Invalid instrument")

  unfoldable pub subscribe_client : List ℕ → Os → ClientConnection → Sent
  unfolding subscribe_found
  subscribe_client instrument os self =
      if is_trader self.type
      then reply_error os self (codes "Traders cannot subscribe to market data")
      else subscribe_found (find_instrument instrument) os self

  unfoldable pub unsubscribe_from : Instrument → Os → ClientConnection → Sent
  unsubscribe_from i os self =
      if subscribed i self
      then send_line os (set_subscribed i false self) ok_line
      else reply_error os self (not_subscribed_text i)

  unfoldable pub unsubscribe_found : Option Instrument → Os → ClientConnection → Sent
  unfolding unsubscribe_from
  unsubscribe_found (some i) os self = unsubscribe_from i os self
  unsubscribe_found none os self = reply_error os self (codes "Invalid instrument")

  unfoldable pub unsubscribe_client : List ℕ → Os → ClientConnection → Sent
  unfolding unsubscribe_found
  unsubscribe_client instrument os self =
      if is_trader self.type
      then reply_error os self (codes "Traders cannot unsubscribe from market data")
      else unsubscribe_found (find_instrument instrument) os self

  -- The connection closes at once if nothing waits to be sent, or when that is sent.
  unfoldable pub quit_user : Os → ClientConnection → Sent
  quit_user os self =
      let r = send_line os (record self { closing = true }) ok_line in
      record r { failed = r.failed || (outlen r.conn == 0) }
