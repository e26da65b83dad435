-- ===== src/Client.antt =====
-- src/trader_client.c: a client's buffers, and what it does with the bytes of its user and of the
-- server. src/market_data_client.c has the same functions under the same names.
pub mod Input
pub mod Lines
pub mod Main
pub mod Receive
pub mod Room
pub mod Typing
pub mod Write
use the_socket_exchange.Prelude.{
  ℕ, zero, suc, ◌+◌, Bool, true, false, List, [], ◌∷◌, ◌++◌, Option, none, some, codes, line_feed,
  ltb, ◌==◌, if◌then◌else◌, length, take, drop,
}
use the_socket_exchange.Output.{WriteAnswer, Written, took, would_block, broken, retry}
use the_socket_exchange.Framing.{c_string, strip_cr}

abbrev pub buffer_size : ℕ
buffer_size = 1024

abbrev pub recvbuf_size : ℕ
recvbuf_size = 128

-- The globals `inbuf`, `discarding` and `recvbuf`, each buffer by its bytes in use; whether the
-- client has stopped polling its input; the number of writes so far, the bytes that the server's
-- socket took, and the lines printed, oldest first.
pub record Client : Type 0 where
  pub inbuf : List ℕ
  pub discarding : Bool
  pub recvbuf : List ℕ
  pub half_closed : Bool
  pub calls : ℕ
  pub sent : List ℕ
  pub shown : List (List ℕ)

abbrev pub show : List ℕ → Client → Client
show line c = record c { shown = c.shown ++ line ∷ [] }

-- What printf's %s shows of a line: up to the carriage return before the newline, or to a
-- terminator within the line.
unfoldable pub printed : List ℕ → List ℕ
unfolding c_string strip_cr
printed line = c_string (strip_cr line)

-- One round of writeAll at the kernel's answer; `again` is the next round.
unfoldable pub write_round :
    (Client → List ℕ → Client × Bool) → Client → List ℕ → Written → Client × Bool
write_round again c bytes (took n) =
    again (record c { sent = c.sent ++ take n bytes }) (drop n bytes)
write_round again c bytes would_block = (c, false)
write_round again c bytes broken = (c, false)

-- drainResponses: the complete responses are printed, the tail is kept.
unfoldable pub drain_loop : (line rest : List ℕ) → Client → Client
drain_loop line [] c = record c { recvbuf = line }
drain_loop line (b ∷ bs) c = elim (b == line_feed) [
  | true ↦ drain_loop [] bs (show (printed line) c)
  | false ↦ drain_loop (line ++ b ∷ []) bs c
]

unfoldable pub drain_responses : Client → Client
unfolding drain_loop
drain_responses c = drain_loop [] c.recvbuf c

-- What one call of read returns: bytes, -1 or 0.
pub data Got : Type 0 where
  got : List ℕ → Got
  failed eof : Got

-- The branch of the server's socket; the Boolean says that communicate returns.
unfoldable pub from_server : Option Got → Client → Client × Bool
unfolding drain_responses
from_server none c = (c, false)
from_server (some failed) c = (show (codes "Failed to read from server") c, true)
from_server (some eof) c = (show (codes "Server closed the connection") c, true)
from_server (some (got bytes)) c =
    let c' = drain_responses (record c { recvbuf = c.recvbuf ++ bytes }) in
    if length c'.recvbuf == recvbuf_size
    then (show (codes "Server sent an over-long response") c', true)
    else (c', false)

-- A full buffer with no newline in it is dropped, with what follows up to the next newline.
unfoldable pub input_full : Client × Bool → Client × Bool
input_full (c, true) =
    if length c.inbuf == buffer_size
    then (
      record (show (codes "Input line too long, discarded") c) { discarding = true; inbuf = [] },
      true,
    )
    else (c, true)
input_full (c, false) = (c, false)

abbrev pub pending_next : (Client → Client × Bool) → Client × Bool → Client × Bool
pending_next next (c, true) = next c
pending_next next (c, false) = (c, false)

-- poll's answers, with those of the reads that follow each: whether the server's socket and the
-- input are ready. `waits` is a call of poll that does not return.
pub data Polls : Type 0 where
  ready : Option Got → Option Got → Polls → Polls
  interrupted : Polls → Polls
  poll_failed waits : Polls

-- The input's descriptor is -1 once the input has ended, and poll passes it over.
abbrev pub typed : Bool → Option Got → Option Got
typed true input = none
typed false input = input

abbrev pub unless_left : (Client → Client × Bool) → Client × Bool → Client × Bool
unless_left next (c, true) = (c, true)
unless_left next (c, false) = next c

-- The answers to write, by the number of the call.
module _ (write : ℕ → List ℕ → WriteAnswer) where
  -- The rounds of writeAll, at most as many as there are bytes: each that goes on has sent one.
  unfoldable pub write_loop : ℕ → Client → List ℕ → Client × Bool
  unfolding write_round retry
  write_loop zero c bytes = (c, true)
  write_loop (suc fuel) c bytes =
      if length bytes == 0
      then (c, true)
      else write_round (write_loop fuel) (record c { calls = c.calls + 1 }) bytes
          (retry (write c.calls bytes))

  unfoldable pub write_all : Client → List ℕ → Client × Bool
  unfolding write_loop
  write_all c bytes = write_loop (length bytes) c bytes

  -- A complete line of the input, less its newline.
  unfoldable pub pending_line : List ℕ → Client → Client × Bool
  unfolding write_all
  pending_line line c =
      if c.discarding
      then (record c { discarding = false }, true)
      else if ltb 1 (length line + 1)
      then write_all c (line ++ line_feed ∷ [])
      else (c, true)

  -- The loop of sendPendingCommands; a failed write returns at once, with the buffer as it was.
  unfoldable pub pending_loop : (line rest : List ℕ) → Client → Client × Bool
  unfolding pending_line
  pending_loop line [] c = (record c { inbuf = line }, true)
  pending_loop line (b ∷ bs) c = elim (b == line_feed) [
    | true ↦ pending_next (pending_loop [] bs) (pending_line line c)
    | false ↦ pending_loop (line ++ b ∷ []) bs c
  ]

  unfoldable pub send_pending_commands : Client → Client × Bool
  unfolding pending_loop input_full
  send_pending_commands c = input_full (pending_loop [] c.inbuf c)

  -- The branch of the input.
  unfoldable pub from_input : Option Got → Client → Client × Bool
  unfolding send_pending_commands
  from_input none c = (c, false)
  from_input (some failed) c = (show (codes "Failed to read input") c, true)
  from_input (some eof) c = (record c { half_closed = true }, false)
  from_input (some (got bytes)) c =
      let r = send_pending_commands (record c { inbuf = c.inbuf ++ bytes }) in
      if r.1 then (r.0, false) else (show (codes "Failed to write to server") r.0, true)

  -- One round of communicate: the server is serviced first.
  unfoldable pub poll_round : Option Got → Option Got → Client → Client × Bool
  unfolding from_server from_input
  poll_round server input c =
      let r = from_server server c in
      if r.1 then r else from_input (typed (r.0).half_closed input) r.0

  -- communicate; the Boolean says that it has returned.
  unfoldable pub communicate : Polls → Client → Client × Bool
  unfolding poll_round
  communicate (ready server input polls) c =
      unless_left (communicate polls) (poll_round server input c)
  communicate (interrupted polls) c = communicate polls c
  communicate poll_failed c = (show (codes "Failed to wait for input") c, true)
  communicate waits c = (c, false)
