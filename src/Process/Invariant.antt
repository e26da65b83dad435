-- ===== src/Process/Invariant.antt =====
-- One line and the validity of the exchange.
use the_socket_exchange.Prelude.{ℕ, List}
use the_socket_exchange.Output.{Env}
use the_socket_exchange.Exchange.{Exchange}
use the_socket_exchange.Exchange.Invariant.{IsValid, Steps-IsValid}
use the_socket_exchange.Process.{process_line}
use the_socket_exchange.Process.Steps.{MayOrder, process_line-Steps}

-- In a valid exchange, any one line of any client, with any answers of the kernel and of the
-- allocators, leaves the exchange valid: every order in the queue of its instrument and side with
-- a positive quantity and price, no buy and sell order of an instrument at one price, order ids
-- below the next one, every connection in one role with a buffer within bounds, and no two
-- clients logged in under one name.
pub process_line-IsValid :
    (env : Env) (line : List ℕ) (self : ℕ) (w : Exchange)
    → IsValid w
    → IsValid (process_line env line self w).0
process_line-IsValid env line self w v =
    Steps-IsValid MayOrder (process_line-Steps env line self w) v
