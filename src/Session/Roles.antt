-- ===== src/Session/Roles.antt =====
-- The roles of a client, and the commands on its own connection.
use the_socket_exchange.Prelude.{
  ℕ, ◌-◌, ◌≤◌, ◌⊎◌, ◌≡◌, refl, sym, ap, ◌∙◌, subst, if◌then◌else◌, Bool, true, false, if_elim, inl,
  inr, List, Option, none, some, zero, suc, arith, length, take, length-take_le, take-all,
}
use the_socket_exchange.Config.{username_length}
use the_socket_exchange.Book.{Instrument, jnst, imct}
use the_socket_exchange.Output.{
  ClientType, undecided, trader, market, ClientConnection, Env, Os, Sent, flush_to_client,
}
use the_socket_exchange.Output.Frame.{strip, strip-send_to_client, strip-flush_to_client}
use the_socket_exchange.Output.Runs.{IsBounded, send_to_client-IsBounded, flush_to_client-IsBounded}
use the_socket_exchange.Session.{
  is_trader, is_market, subscribed, set_subscribed, ok_line, error_line, name_in_use, send_line,
  reply_error, login_user, subscribe_to, subscribe_client, unsubscribe_from, subscribe_found,
  unsubscribe_found, unsubscribe_client, quit_user, find_instrument,
}

abbrev pub RoleOf : ClientType → Bool → Bool → Bool → Type 0
RoleOf undecided logged_in jnst_on imct_on =
    (logged_in ≡ false) × (jnst_on ≡ false) × (imct_on ≡ false)
RoleOf trader logged_in jnst_on imct_on = (logged_in ≡ true) × (jnst_on ≡ false) × (imct_on ≡ false)
RoleOf market logged_in jnst_on imct_on = logged_in ≡ false

-- A connection has one role, and its user name fits its buffer.
abbrev pub HasRole : ClientConnection → Type 0
HasRole c =
    RoleOf c.type c.logged_in c.subscribed_jnst c.subscribed_imct × (length c.username ≤ 127)

HasRole-strip : (a b : ClientConnection) → strip a ≡ strip b → HasRole b → HasRole a
HasRole-strip a b e h = subst HasRole (sym e) h

abbrev pub logged_in_as : List ℕ → ClientConnection → ClientConnection
logged_in_as username c = record c {
  type = trader;
  username = take (username_length - 1) username;
  logged_in = true;
}

logged_in_as-HasRole :
    (c : ClientConnection) (username : List ℕ)
    → is_market c.type ≡ false
    → c.logged_in ≡ false
    → HasRole c
    → HasRole (logged_in_as username c)
logged_in_as-HasRole c username m l h = ground (zero, suc, arith, length-take_le 127 username)

subscribe-HasRole :
    (i : Instrument) (c : ClientConnection)
    → is_trader c.type ≡ false
    → HasRole c
    → HasRole (record (set_subscribed i true c) { type = market })
subscribe-HasRole i c t h = ground arith

unsubscribe-HasRole :
    (i : Instrument) (c : ClientConnection)
    → subscribed i c ≡ true
    → HasRole c
    → HasRole (set_subscribed i false c)
unsubscribe-HasRole i c on h = ground arith

-- The name that a connection holds.
abbrev pub identity : ClientConnection → Option (List ℕ)
identity c = if c.logged_in then some c.username else none

-- A change that no other client and no later command can tell from none, but for the output, the
-- subscriptions and the will to close.
pub record Keeps (c d : ClientConnection) : Type 0 where
  pub role : HasRole c → HasRole d
  pub name : identity d ≡ identity c
  pub fd : d.client_fd ≡ c.client_fd
  pub within : IsBounded c → IsBounded d

pub Keeps-refl : (c : ClientConnection) → Keeps c c
Keeps-refl c = record { role = λ h. h; name = refl; fd = refl; within = λ b. b }

pub Keeps-trans : {c d e : ClientConnection} → Keeps c d → Keeps d e → Keeps c e
Keeps-trans p q = record {
  role = λ h. q.role (p.role h);
  name = q.name ∙ p.name;
  fd = q.fd ∙ p.fd;
  within = λ b. q.within (p.within b);
}

-- What a login makes of a connection.
pub record Signs (conns : List (Option ClientConnection)) (name : List ℕ) (c d : ClientConnection)
    : Type 0 where
  pub free : name_in_use conns name ≡ false
  pub signed : identity d ≡ some name
  pub role : HasRole c → HasRole d
  pub fd : d.client_fd ≡ c.client_fd
  pub within : IsBounded c → IsBounded d

closing-Keeps : (c : ClientConnection) → Keeps c (record c { closing = true })
closing-Keeps c = record { role = λ h. h; name = refl; fd = refl; within = λ b. b }

subscribe-Keeps :
    (i : Instrument) (c : ClientConnection)
    → is_trader c.type ≡ false
    → Keeps c (record (set_subscribed i true c) { type = market })
subscribe-Keeps jnst c t = record {
  role = subscribe-HasRole jnst c t;
  name = refl;
  fd = refl;
  within = λ b. b;
}
subscribe-Keeps imct c t = record {
  role = subscribe-HasRole imct c t;
  name = refl;
  fd = refl;
  within = λ b. b;
}

unsubscribe-Keeps :
    (i : Instrument) (c : ClientConnection)
    → subscribed i c ≡ true
    → Keeps c (set_subscribed i false c)
unsubscribe-Keeps jnst c on = record {
  role = unsubscribe-HasRole jnst c on;
  name = refl;
  fd = refl;
  within = λ b. b;
}
unsubscribe-Keeps imct c on = record {
  role = unsubscribe-HasRole imct c on;
  name = refl;
  fd = refl;
  within = λ b. b;
}

module _ (env : Env) where
  pub strip-send_line :
      (os : Os) (c : ClientConnection) (line : List ℕ)
      → strip (send_line env os c line).conn ≡ strip c
  unfolding send_line
  strip-send_line os c line = strip-send_to_client env os c line

  send_line-IsBounded :
      (os : Os) (c : ClientConnection) (line : List ℕ)
      → IsBounded c
      → IsBounded (send_line env os c line).conn
  unfolding send_line
  send_line-IsBounded os c line b = send_to_client-IsBounded env os c line b

  pub send_line-Keeps :
      (os : Os) (c : ClientConnection) (line : List ℕ) → Keeps c (send_line env os c line).conn
  send_line-Keeps os c line =
      let e = strip-send_line os c line in
      record {
        role = λ h. HasRole-strip (send_line env os c line).conn c e h;
        name = ap identity e;
        fd = ap (λ (x : ClientConnection). x.client_fd) e;
        within = send_line-IsBounded os c line;
      }

  pub flush_to_client-Keeps :
      (os : Os) (c : ClientConnection) → Keeps c (flush_to_client env os c).conn
  flush_to_client-Keeps os c =
      let e = strip-flush_to_client env os c in
      record {
        role = λ h. HasRole-strip (flush_to_client env os c).conn c e h;
        name = ap identity e;
        fd = ap (λ (x : ClientConnection). x.client_fd) e;
        within = λ b. flush_to_client-IsBounded env os c b;
      }

  pub reply_error-Keeps :
      (os : Os) (c : ClientConnection) (reason : List ℕ)
      → Keeps c (reply_error env os c reason).conn
  unfolding reply_error
  reply_error-Keeps os c reason = send_line-Keeps os c (error_line reason)

  pub subscribe_client-Keeps :
      (instrument : List ℕ) (os : Os) (c : ClientConnection)
      → Keeps c (subscribe_client env instrument os c).conn
  unfolding subscribe_client subscribe_found subscribe_to
  subscribe_client-Keeps instrument os c =
      if_elim P (is_trader c.type) (λ t. reply_error-Keeps os c _)
        (λ t. found t (find_instrument instrument))
    where
      P : Sent → Type 0
      P r = Keeps c r.conn

      found : is_trader c.type ≡ false → (i : Option Instrument) → P (subscribe_found env i os c)
      found t none = reply_error-Keeps os c _
      found t (some i) =
          if_elim P (subscribed i c) (λ s. reply_error-Keeps os c _)
            λ s.
              Keeps-trans (subscribe-Keeps i c t)
                (send_line-Keeps os (record (set_subscribed i true c) { type = market }) ok_line)

  pub unsubscribe_client-Keeps :
      (instrument : List ℕ) (os : Os) (c : ClientConnection)
      → Keeps c (unsubscribe_client env instrument os c).conn
  unfolding unsubscribe_client unsubscribe_found unsubscribe_from
  unsubscribe_client-Keeps instrument os c =
      if_elim P (is_trader c.type) (λ t. reply_error-Keeps os c _)
        (λ t. found (find_instrument instrument))
    where
      P : Sent → Type 0
      P r = Keeps c r.conn

      found : (i : Option Instrument) → P (unsubscribe_found env i os c)
      found none = reply_error-Keeps os c _
      found (some i) =
          if_elim P (subscribed i c)
            (λ s.
              Keeps-trans (unsubscribe-Keeps i c s)
                (send_line-Keeps os (set_subscribed i false c) ok_line))
            (λ s. reply_error-Keeps os c _)

  pub quit_user-Keeps : (os : Os) (c : ClientConnection) → Keeps c (quit_user env os c).conn
  unfolding quit_user
  quit_user-Keeps os c =
      Keeps-trans (closing-Keeps c) (send_line-Keeps os (record c { closing = true }) ok_line)

  accepted :
      (conns : List (Option ClientConnection)) (username : List ℕ) (os : Os) (c : ClientConnection)
      → length username ≤ username_length - 1
      → is_market c.type ≡ false
      → c.logged_in ≡ false
      → name_in_use conns username ≡ false
      → Signs conns username c (send_line env os (logged_in_as username c) ok_line).conn
  accepted conns username os c fits m l n =
      let k = send_line-Keeps os (logged_in_as username c) ok_line in
      record {
        free = n;
        signed = k.name ∙ ap some (take-all 127 username fits);
        role = λ h. k.role (logged_in_as-HasRole c username m l h);
        fd = k.fd;
        within = k.within;
      }

  -- LOGIN is refused and keeps the connection, or signs in a client whose name no one uses.
  pub login_user-outcome :
      (conns : List (Option ClientConnection)) (username : List ℕ) (os : Os) (c : ClientConnection)
      → length username ≤ username_length - 1
      → Keeps c (login_user env conns username os c).conn
        ⊎ Signs conns username c (login_user env conns username os c).conn
  unfolding login_user
  login_user-outcome conns username os c fits =
      if_elim P (is_market c.type) (λ m. inl (reply_error-Keeps os c _))
        λ m.
          if_elim P c.logged_in (λ l. inl (reply_error-Keeps os c _))
            λ l.
              if_elim P (name_in_use conns username) (λ n. inl (reply_error-Keeps os c _))
                λ n. inr (accepted conns username os c fits m l n)
    where
      P : Sent → Type 0
      P r = Keeps c r.conn ⊎ Signs conns username c r.conn
