-- ===== src/Session/Names.antt =====
-- loginUser's search for a name.
use the_socket_exchange.Prelude.{ℕ, ◌≡◌, true, List, some, arith, str_eq_refl}
use the_socket_exchange.Output.{ClientConnection}
use the_socket_exchange.Session.{slot_has}
use the_socket_exchange.Session.Roles.{identity}

identity-some :
    (c : ClientConnection) (name : List ℕ)
    → identity c ≡ some name
    → (c.logged_in ≡ true) × (c.username ≡ name)
identity-some c name e = ground arith

pub slot_has-identity :
    (c : ClientConnection) (name : List ℕ) → identity c ≡ some name → slot_has name (some c) ≡ true
slot_has-identity c name e = let (on, same) = identity-some c name e in simp (on, same, str_eq_refl)
