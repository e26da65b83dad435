-- ===== src/Examples/Events.antt =====
-- Runs of the server's events at concrete inputs.
use the_socket_exchange.Prelude.{
  arith, ◌≡◌, refl, ◌+◌, true, List, [], ◌∷◌, ◌++◌, none, some, codes, length, decimal,
}
use the_socket_exchange.Book.{jnst_sell, deref, add_order, init_orderbook, cancel_order}
use the_socket_exchange.Session.{name_in_use, send_line, find_instrument}
use the_socket_exchange.Output.{send_to_client}
use the_socket_exchange.Book.Everywhere.{Everywhere}
use the_socket_exchange.Exchange.{Exchange, slot, id_line}
use the_socket_exchange.Framing.{read_loop}
use the_socket_exchange.Framing.Bytes.{settle, and_then, feed, feed_byte}
use the_socket_exchange.Framing.Chunks.{bytes_of, end_of, closed}
use the_socket_exchange.Framing.Lines.{run_lines, after_lines, read_loop-lines}
use the_socket_exchange.Client.Lines.{unlines}
use the_socket_exchange.Exchange.Steps.{Steps}
use the_socket_exchange.Process.{process_line}
use the_socket_exchange.Process.Steps.{MayOrder, process_line-Steps}
use the_socket_exchange.Server.{accepted, again, stops, ServerEvent, incoming, run_server, started}
use the_socket_exchange.Server.Events.{AcceptsAre, ArrivalsAre}
use the_socket_exchange.Server.Owners.{Unused, Owned, run_server-Owned}
use the_socket_exchange.Server.Ledger.{count, held}
use the_socket_exchange.Server.Ledger.Run.{accepted_fds, arrivals, run_server-ledger}
use the_socket_exchange.Server.Main.{
  Setup, Waits, batch, interrupted, stopped, shut_down, server_main,
}
use the_socket_exchange.Server.Main.Exit.{Ends, server_main-Ends}
use the_socket_exchange.Server.Shutdown.{Ownerless, shut_down-closes}
use the_socket_exchange.Examples.{env, os₀}
use the_socket_exchange.Examples.Runs.{collect, collect_full, pieces, logged_in, quoted, stay}

process_line-Steps_example :
    Steps MayOrder 4 logged_in (process_line env (codes "SELL JNST 10 100") 4 logged_in).0
process_line-Steps_example = process_line-Steps env (codes "SELL JNST 10 100") 4 logged_in

-- Another client cannot.
abbrev both : Exchange
both = (process_line env (codes "LOGIN bob") 5 quoted).0

cancelled_by_seller :
    length (deref jnst_sell (process_line env (codes "CANCEL 1") 4 both).0.orderbook) ≡ 0
unfolding process_line name_in_use send_line send_to_client find_instrument add_order init_orderbook
    id_line decimal cancel_order
cancelled_by_seller = refl

kept_from_buyer :
    length (deref jnst_sell (process_line env (codes "CANCEL 1") 5 both).0.orderbook) ≡ 1
unfolding process_line name_in_use send_line send_to_client find_instrument add_order init_orderbook
    id_line decimal cancel_order
kept_from_buyer = refl

-- One line in two reads, with the beginning of another.
read_loop-lines_example :
    settle (read_loop collect collect_full pieces [] 0 [])
    ≡ and_then
        (after_lines (codes "QU") (run_lines collect (codes "LOGIN bob" ∷ []) []))
        (closed collect collect_full (end_of pieces))
unfolding feed feed_byte bytes_of unlines
read_loop-lines_example =
    read_loop-lines collect collect_full pieces (codes "LOGIN bob" ∷ []) (codes "QU") [] refl
      (ground arith) (ground arith) (omega arith, (omega arith, tt))

stay-Unused : ArrivalsAre Unused env stay (started os₀)
unfolding ArrivalsAre AcceptsAre started
stay-Unused = ((refl, tt), tt)

run_server-Owned_example : Owned (run_server env stay os₀).exchange
run_server-Owned_example = run_server-Owned env stay os₀ stay-Unused

-- The descriptor of `stay` is closed once, when its client goes.
run_server-ledger_example :
    count 12 (run_server env stay os₀).closed
      + held (slot ((run_server env stay os₀).exchange).conns 12)
    ≡ count 12 (arrivals stay)
run_server-ledger_example = run_server-ledger env stay os₀ 12 stay-Unused

-- The first event of `stay` alone: its client is still there at the shutdown.
abbrev come : List ServerEvent
come = incoming (accepted 12 true true true (again stops)) ∷ []

come-Unused : ArrivalsAre Unused env come (started os₀)
unfolding ArrivalsAre AcceptsAre started
come-Unused = ((refl, tt), tt)

shut_down-closes_example :
    (slot ((shut_down 3 5 (run_server env come os₀)).exchange).conns 12 ≡ none)
    × Everywhere Ownerless ((shut_down 3 5 (run_server env come os₀)).exchange).orderbook
    × (count 12 (shut_down 3 5 (run_server env come os₀)).closed
        ≡ count 12 (arrivals come ++ (3 ∷ 5 ∷ [])))
shut_down-closes_example = shut_down-closes env come os₀ 3 5 12 come-Unused

closed_once : count 12 (arrivals come ++ (3 ∷ 5 ∷ [])) ≡ 1
unfolding count arrivals accepted_fds
closed_once = refl

abbrev setup : Setup
setup = record {
  ignore_sigpipe = true;
  install_shutdown = true;
  socket = some 3;
  inet_pton = λ host. true;
  setsockopt = true;
  bind = λ host port. true;
  listen = true;
  kqueue = some 5;
  watch = true;
  calloc_conns = true;
}

abbrev waited : Waits
waited = batch come (interrupted stopped)

server_main-Ends_example :
    Ends env setup waited os₀
      (codes "127.0.0.1" ∷ codes "9000" ∷ [])
      (server_main env setup waited os₀ (codes "127.0.0.1" ∷ codes "9000" ∷ []))
server_main-Ends_example =
    server_main-Ends env setup waited os₀ (codes "127.0.0.1" ∷ codes "9000" ∷ [])
