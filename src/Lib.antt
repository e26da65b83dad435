-- ===== src/Lib.antt =====
-- The Socket Exchange: a kqueue server on which traders place and cancel limit orders in two
-- instruments, and subscribers watch the trades.
--
-- The parts, and how they meet. src/exchange_server.c waits for events and hands a readable socket
-- to communicate (src/includes/io.c). That cuts what the client sends into lines and gives each
-- to processLine, which scans it and calls a command (src/includes/commands.c). The commands on the
-- market call the order book (src/includes/orderbook.c); all of them answer through sendToClient
-- (src/includes/io.c), which keeps in the connection's buffer what the socket does not take, for
-- flushToClient to send later. The two clients, src/trader_client.c and src/market_data_client.c,
-- send what their user types line by line, and print what the server sends line by line.
--
-- Which file models which part:
--   Prelude   what all files share: Boolean tests, lists measured by native numbers, C's int, texts
--   Config    src/includes/config.h
--   Book      src/includes/orderbook.h and orderbook.c: add_order, cancel_order and
--             detach_client_orders are addOrder, cancelOrder and detachClientOrders.
--             Its children: Round (one round of the matching loop), Levels (an independent
--             description of matching by price levels), Fills (the fills of a new order), Matching,
--             Conservation, Invariant, Cancel, Detach, Everywhere (what all orders have in common),
--             Ids and Withdraw (addOrder, then cancelOrder)
--   Queue     append, removeNode, detachIn, cancelIn and the loop of addOrder on nodes in memory, with
--             their next and prev pointers: append_node, remove_node, detach_list, cancel_list and
--             match_from. Its children: Shape (the list that a queue in memory stands for), Links,
--             Append, Remove, Search and Matching
--   Output    the connection of src/includes/server.h, and send_to_client and flush_to_client, the
--             sendToClient and flushToClient of src/includes/io.c. Its children: Stream, Runs,
--             Flush and Frame (what sending leaves alone)
--   Session   loginUser, subscribeClient, unsubscribeClient and quitUser of
--             src/includes/commands.c. Its children: Roles and Names
--   Exchange  the state of the whole server, and placeOrder with its notifications. Its children:
--             Table (what a handler leaves alone in the other slots), Steps (the steps that an
--             exchange may take) and Invariant
--   Scan      what the code uses of sscanf and strtol. Its child: Decimal
--   Process   processLine of src/includes/io.c, and cancelUserOrder. Its children: Steps, Invariant,
--             Access and Cancel (the line CANCEL)
--   Framing   communicate of src/includes/io.c. Its children: Bytes (an independent description, one
--             byte at a time), Chunks, Lines and Steps
--   Server    src/includes/server.c, removeClient of src/includes/io.c, and the loop of
--             src/exchange_server.c. Its children: Events (what the events keep), Growth, Invariant,
--             Owners, Ledger (the descriptors, with Run below it), Removal, Main (main of
--             src/exchange_server.c, server_main, with Exit below it) and Shutdown
--   Port      the port argument of the three programs
--   Client    src/trader_client.c: client_main is its main. Its children: Lines (lines and their bytes),
--             Write, Receive, Typing (an independent description of the input, one byte at a time),
--             Input, Room and Main, with Exit below it
--   MarketData  src/market_data_client.c, which has the trader client's functions again
--   Examples  runs at concrete inputs
--
-- How state corresponds. A C structure is a record with the same fields, an enum a data type. A
-- queue is the list of its orders along the `next` pointers; unlinking and freeing a node takes it
-- out of the list. Queue has the pointers, for one queue of the memory at a time; a walk along them
-- has as much fuel as the queue has nodes, and an access to memory that holds no node has no
-- result. A `struct Order **` is the name of one of the four heads. The table `conns` is a list of
-- optional connections, a pointer into it is the slot's index, and a handler that changes its
-- connection returns it. A function whose result asks for the connection's removal returns
-- that Boolean. A buffer with a length is the list of the bytes in use.
--
-- The environment is a parameter, `Env`: the answers to write, by the number of the call, and
-- whether malloc, calloc and realloc succeed. The answers to read are an argument of communicate,
-- those to accept, realloc, calloc and kevent one of acceptClients, and the events that kqueue
-- reports one of the main loop. The results of the calls that set a program up are the records Setup
-- and Network. That accept returns no descriptor of a client that is still in the table is a
-- hypothesis where it is needed: the kernel hands out descriptors that are not open, and the server
-- closes one only as it empties its slot.
--
-- Bounds and fuel. A call that is interrupted is tried again; the answers are finite nestings, so no
-- call is interrupted for ever. A write that succeeds takes at least one byte, so flushToClient
-- needs no more rounds than there are bytes waiting, which is its fuel. Each doubling of growConns
-- adds at least one slot, so the descriptor is fuel enough. A text of decimal digits is written with
-- as much fuel as the number, since each digit divides it. Prices, quantities and order
-- ids are natural numbers: the parser only lets through those that an int holds, and an id beyond
-- 2^31 - 1, where the counter's increment is undefined in C, is not modelled. A number that no int
-- holds is read by %d as the environment says.
--
-- Not modelled: the peer's address and the log lines, which nothing reads back; the terminators
-- written over bytes of `inbuf` that are consumed; what the calls before the loop of
-- src/exchange_server.c do beyond their results; the signal handler, which only ends that loop; the
-- freeing of the table after the shutdown; int overflow in growConns' doubling,
-- which a descriptor beyond 2^30 would take; the scripts.
pub mod Book
pub mod Client
pub mod Config
pub mod Examples
pub mod Exchange
pub mod Framing
pub mod MarketData
pub mod Output
pub mod Port
pub mod Prelude
pub mod Process
pub mod Queue
pub mod Scan
pub mod Server
pub mod Session
