-- ===== src/Port.antt =====
-- The port on the command line, which src/exchange_server.c, src/trader_client.c and
-- src/market_data_client.c read in the same way.
use the_socket_exchange.Prelude.{
  ℕ, zero, suc, ◌≤◌, ◌<◌, ◌≡◌, ℤ, pos, true, List, [], Option, none, some, arith, leb,
  if◌then◌else◌, decimal,
}
use the_socket_exchange.Scan.{strtol}
use the_socket_exchange.Scan.Decimal.{strtol-decimal}

abbrev pub default_port : ℕ
default_port = 8080

-- A number with nothing behind it, from 1 to 65535; `none` is the refusal.
unfoldable pub port_of_number : Option (ℤ × List ℕ) → Option ℕ
port_of_number (some (pos (suc n), [])) = if leb (suc n) 65535 then some (suc n) else none
port_of_number _ = none

-- The port, by the second argument if there is one.
unfoldable pub parse_port : Option (List ℕ) → Option ℕ
unfolding port_of_number strtol
parse_port none = some default_port
parse_port (some text) = port_of_number (strtol text)

-- What a message shows of an argument that is refused.
abbrev pub text_of : Option (List ℕ) → List ℕ
text_of none = []
text_of (some text) = text

port_of_number-range :
    (x : Option (ℤ × List ℕ)) (p : ℕ) → port_of_number x ≡ some p → (0 < p) × (p ≤ 65535)
unfolding port_of_number
port_of_number-range (some (pos (suc n), [])) p e = ground arith
port_of_number-range _ p e = cc

-- A port that the program goes on with is a port number, whatever the command line says.
pub parse_port-range :
    (arg : Option (List ℕ)) (p : ℕ) → parse_port arg ≡ some p → (0 < p) × (p ≤ 65535)
unfolding parse_port
parse_port-range none p e = ground arith
parse_port-range (some text) p e = port_of_number-range (strtol text) p e

port_of_number-pos : (q : ℕ) → 0 < q → q ≤ 65535 → port_of_number (some (pos q, [])) ≡ some q
unfolding port_of_number
port_of_number-pos zero low high = absurd (omega arith)
port_of_number-pos (suc q) low high = let e : leb (suc q) 65535 ≡ true = ground arith in rw e

-- Every port number, written in decimal digits, is taken as it is.
pub parse_port-decimal : (q : ℕ) → 0 < q → q ≤ 65535 → parse_port (some (decimal q)) ≡ some q
unfolding parse_port
parse_port-decimal q low high = rw (strtol-decimal q (omega arith)) (port_of_number-pos q low high)
