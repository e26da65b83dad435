-- ===== src/Examples/Clients.antt =====
-- Runs of the clients at concrete inputs.
use the_socket_exchange.Prelude.{
  ℕ, zero, suc, ◌≤◌, ◌<◌, ◌≡◌, refl, true, false, List, [], ◌∷◌, ◌++◌, some, map, codes, line_feed,
  carriage_return, Bool, arith, decimal,
}
use the_socket_exchange.Port.{parse_port, parse_port-range, parse_port-decimal}
use the_socket_exchange.Output.{WriteAnswer, wrote, failed, retry}
use the_socket_exchange.Client.{
  ready, waits, got, eof, write_all, communicate, from_server, from_input, poll_round,
}
use the_socket_exchange.Client.Lines.{unlines}
use the_socket_exchange.Client.Receive.{arrivals, concat, communicate-lines}
use the_socket_exchange.Client.Write.{Writes, Takes, write_all-Writes, write_all-succeeds}
use the_socket_exchange.Client.Typing.{type_all, type_byte, sendable}
use the_socket_exchange.Client.Input.{keystrokes, communicate-sendable}
use the_socket_exchange.Client.Room.{HasRoom, communicate-HasRoom}
use the_socket_exchange.Client.Main.{Network, new_client, trader_program, client_main}
use the_socket_exchange.Client.Main.Exit.{Ends, client_main-Ends}

-- A socket that takes three bytes at a time.
abbrev by_three : ℕ → List ℕ → WriteAnswer
by_three i bytes = wrote 2

by_three-Takes : Takes by_three
unfolding retry
by_three-Takes i bytes = (3, refl)

-- A socket that breaks at the second write.
abbrev breaks : ℕ → List ℕ → WriteAnswer
breaks zero bytes = wrote 2
breaks (suc n) bytes = failed

write_all-Writes_example :
    Writes new_client (codes "LOGIN bob") (write_all breaks new_client (codes "LOGIN bob"))
write_all-Writes_example = write_all-Writes breaks new_client (codes "LOGIN bob")

write_all-succeeds_example :
    ((write_all by_three new_client (codes "LOGIN bob")).1 ≡ true)
    × ((write_all by_three new_client (codes "LOGIN bob")).0.sent ≡ [] ++ codes "LOGIN bob")
write_all-succeeds_example =
    write_all-succeeds by_three new_client (codes "LOGIN bob") by_three-Takes

-- Two lines and the beginning of a third, in two pieces.
abbrev news : List (List ℕ)
news =
    (codes "OK" ++ line_feed ∷ codes "TRA")
    ∷ (codes "DE JNST 1 2" ++ carriage_return ∷ line_feed ∷ codes "TR")
    ∷ []

abbrev news_lines : List (List ℕ × Bool)
news_lines = (codes "OK", false) ∷ (codes "TRADE JNST 1 2", true) ∷ []

communicate-lines_example :
    communicate by_three (arrivals news) new_client
    ≡ (record new_client { recvbuf = codes "TR"; shown = [] ++ map (λ l. l.0) news_lines }, false)
unfolding concat unlines
communicate-lines_example =
    communicate-lines by_three news news_lines (codes "TR") new_client refl refl (ground arith)
      (ground arith)

-- An order and an empty line, in two pieces.
abbrev keys : List (List ℕ)
keys = codes "BUY JNST" ∷ (codes " 1 2" ++ line_feed ∷ line_feed ∷ codes "QU") ∷ []

abbrev key_lines : List (List ℕ)
key_lines = codes "BUY JNST 1 2" ∷ [] ∷ []

communicate-sendable_example :
    ((communicate by_three (keystrokes keys) new_client).1 ≡ false)
    × ((communicate by_three (keystrokes keys) new_client).0.sent
        ≡ [] ++ unlines (sendable key_lines))
unfolding concat unlines type_all type_byte
communicate-sendable_example =
    communicate-sendable by_three by_three-Takes keys key_lines (codes "QU") new_client refl refl
      (ground arith) (ground arith) (omega arith)

communicate-HasRoom_example :
    HasRoom (communicate by_three (ready (some (got (codes "OK"))) (some eof) waits) new_client).0
unfolding communicate poll_round from_server from_input
communicate-HasRoom_example =
    communicate-HasRoom by_three (ready (some (got (codes "OK"))) (some eof) waits) new_client
      (omega arith, omega arith) (omega arith, tt, λ _. tt) refl

abbrev net : Network
net = record { signal = true; socket = true; inet_pton = λ host. true; connect = λ host port. true }

client_main-Ends_example :
    Ends trader_program by_three waits net (codes "127.0.0.1" ∷ codes "5000" ∷ codes "alice" ∷ []) (
      client_main trader_program by_three waits net
        (codes "127.0.0.1" ∷ codes "5000" ∷ codes "alice" ∷ []))
client_main-Ends_example =
    client_main-Ends trader_program by_three waits net
      (codes "127.0.0.1" ∷ codes "5000" ∷ codes "alice" ∷ [])

parse_port-range_example : (0 < 5000) × (5000 ≤ 65535)
parse_port-range_example =
    parse_port-range (some (decimal 5000)) 5000
      (parse_port-decimal 5000 (omega arith) (omega arith))

parse_port-decimal_example : parse_port (some (decimal 5000)) ≡ some 5000
parse_port-decimal_example = parse_port-decimal 5000 (omega arith) (omega arith)
