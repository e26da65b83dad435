-- ===== src/Output.antt =====
-- src/includes/server.h (the connection record) and the sending half of src/includes/io.c.
-- A text is the list of its bytes. What the kernel answers to a write is a parameter.
pub mod Flush
pub mod Frame
pub mod Runs
pub mod Stream
use the_socket_exchange.Prelude.{
  ℕ, zero, suc, ◌+◌, ℤ, Bool, true, false, not, ◌&&◌, ◌||◌, List, [], ◌∷◌, ◌++◌, ltb, ◌==◌,
  if◌then◌else◌, length, take, drop,
}
use the_socket_exchange.Config.{outbuf_size}

-- `enum Type`; its `none` is spelled `undecided`.
pub data ClientType : Type 0 where
  undecided trader market : ClientType

-- `outbuf` and `inbuf` hold the bytes in use, so `outlen` and `inlen` are their lengths.
-- The peer's address, which only the log prints, is left out.
pub record ClientConnection : Type 0 where
  pub outbuf_allocated : Bool
  pub outbuf : List ℕ
  pub inbuf : List ℕ
  pub scanned : ℕ
  pub client_fd : ℕ
  pub type : ClientType
  pub logged_in : Bool
  pub discarding : Bool
  pub closing : Bool
  pub subscribed_jnst : Bool
  pub subscribed_imct : Bool
  pub username : List ℕ

abbrev pub outlen : ClientConnection → ℕ
outlen c = length c.outbuf

-- The answers to a write of at least one byte to a socket. `eintr` is an interrupted attempt, with
-- the answer to the next one: no call is interrupted for ever. `wrote n` takes n + 1 bytes, or all
-- if there are fewer.
pub data WriteAnswer : Type 0 where
  eintr : WriteAnswer → WriteAnswer
  wrote : ℕ → WriteAnswer
  eagain failed : WriteAnswer

-- The environment, by the number of output calls made so far: the answer to a write of some bytes
-- to a descriptor; whether an output buffer, an order and (by the number of the attempt) a larger
-- array of fills can be allocated; and what scanf's %d stores for a number that no int holds,
-- which C leaves open.
pub record Env : Type 0 where
  pub write : ℕ → ℕ → List ℕ → WriteAnswer
  pub malloc : ℕ → Bool
  pub calloc_order : ℕ → Bool
  pub realloc_fills : ℕ → ℕ → Bool
  pub out_of_range : ℤ → ℤ

-- What the server has done to the environment: the number of writes, and the bytes that each
-- descriptor took, oldest first.
pub record Os : Type 0 where
  pub calls : ℕ
  pub wire : List (ℕ × List ℕ)

-- A write that goes on until it is not interrupted.
pub data Written : Type 0 where
  took : ℕ → Written
  would_block broken : Written

unfoldable pub retry : WriteAnswer → Written
retry (eintr next) = retry next
retry (wrote n) = took (suc n)
retry eagain = would_block
retry failed = broken

pub record Sent : Type 0 where
  pub os : Os
  pub conn : ClientConnection
  pub failed : Bool

abbrev pub count_call : Os → Os
count_call os = record os { calls = os.calls + 1 }

abbrev pub put_wire : Os → ℕ → List ℕ → Os
put_wire os fd bytes = record os { wire = os.wire ++ (fd, bytes) ∷ [] }

-- The second half of sendToClient: what the kernel did not take is kept. `room` says whether the
-- buffer, if it is still to be allocated, can be.
unfoldable pub keep_rest : Bool → Os → ClientConnection → List ℕ → Sent
keep_rest room os conn rest =
    if length rest == 0
    then record { os = os; conn = conn; failed = false }
    else if not conn.outbuf_allocated && not room
    then record { os = os; conn = conn; failed = true }
    else if ltb outbuf_size (outlen conn + length rest)
    then record { os = os; conn = record conn { outbuf_allocated = true }; failed = true }
    else record {
      os = os;
      conn = record conn { outbuf_allocated = true; outbuf = conn.outbuf ++ rest };
      failed = false;
    }

-- The first half, when nothing is waiting: the answer of the kernel decides.
unfoldable pub after_write : Bool → Os → ClientConnection → List ℕ → Written → Sent
unfolding keep_rest
after_write room os conn bytes (took n) =
    keep_rest room (put_wire os conn.client_fd (take n bytes)) conn (drop n bytes)
after_write room os conn bytes would_block = keep_rest room os conn bytes
after_write room os conn bytes broken = record { os = os; conn = conn; failed = true }

-- One round of flushToClient at the kernel's answer; `again` is the next round.
unfoldable pub flush_round : (Os → ClientConnection → Sent) → Os → ClientConnection → Written → Sent
flush_round again os conn (took n) =
    again (put_wire os conn.client_fd (take n conn.outbuf))
      (record conn { outbuf = drop n conn.outbuf })
flush_round again os conn would_block = record { os = os; conn = conn; failed = false }
flush_round again os conn broken = record { os = os; conn = conn; failed = true }

module _ (env : Env) where
  unfoldable pub send_to_client : Os → ClientConnection → List ℕ → Sent
  unfolding after_write keep_rest retry
  send_to_client os conn bytes =
      let room = env.malloc os.calls in
      if outlen conn == 0
      then after_write room (count_call os) conn bytes
          (retry (env.write os.calls conn.client_fd bytes))
      else keep_rest room (count_call os) conn bytes

  -- The rounds of flushToClient, at most as many as there are bytes waiting: a round that goes on
  -- has sent at least one.
  unfoldable pub flush_loop : ℕ → Os → ClientConnection → Sent
  unfolding flush_round retry
  flush_loop zero os conn = record { os = os; conn = conn; failed = conn.closing }
  flush_loop (suc fuel) os conn =
      if outlen conn == 0
      then record { os = os; conn = conn; failed = conn.closing }
      else flush_round (flush_loop fuel) (count_call os) conn
          (retry (env.write os.calls conn.client_fd conn.outbuf))

  unfoldable pub flush_to_client : Os → ClientConnection → Sent
  unfolding flush_loop
  flush_to_client os conn = flush_loop (outlen conn) os conn
