-- ===== src/Output/Frame.antt =====
-- Sending and flushing, and the rest of a connection.
use the_socket_exchange.Prelude.{
  ℕ, zero, suc, ◌≡◌, refl, inl, inr, Bool, false, Bool-cases, List, [], arith, ◌==◌, take, drop,
}
use the_socket_exchange.Output.{
  ClientConnection, outlen, Env, Os, Sent, Written, took, would_block, broken, retry, count_call,
  put_wire, flush_round, keep_rest, after_write, send_to_client, flush_loop, flush_to_client,
}

-- A connection without its output buffer.
abbrev pub strip : ClientConnection → ClientConnection
strip c = record c { outbuf_allocated = false; outbuf = [] }

strip-keep_rest :
    (room : Bool) (os : Os) (c : ClientConnection) (rest : List ℕ)
    → strip (keep_rest room os c rest).conn ≡ strip c
unfolding keep_rest
strip-keep_rest room os c rest = ground arith

strip-after_write :
    (room : Bool) (os : Os) (c : ClientConnection) (bytes : List ℕ) (w : Written)
    → strip (after_write room os c bytes w).conn ≡ strip c
unfolding after_write
strip-after_write room os c bytes (took n) = strip-keep_rest room _ c _
strip-after_write room os c bytes would_block = strip-keep_rest room _ c _
strip-after_write room os c bytes broken = refl

strip-flush_round :
    (again : Os → ClientConnection → Sent)
    → ((os : Os) (c : ClientConnection) → strip (again os c).conn ≡ strip c)
    → (os : Os) (c : ClientConnection) (w : Written)
    → strip (flush_round again os c w).conn ≡ strip c
unfolding flush_round
strip-flush_round again ih os c (took n) =
    ih (put_wire os c.client_fd (take n c.outbuf)) (record c { outbuf = drop n c.outbuf })
strip-flush_round again ih os c would_block = refl
strip-flush_round again ih os c broken = refl

module _ (env : Env) where
  pub strip-send_to_client :
      (os : Os) (c : ClientConnection) (bytes : List ℕ)
      → strip (send_to_client env os c bytes).conn ≡ strip c
  unfolding send_to_client
  strip-send_to_client os c bytes = elim (Bool-cases (outlen c == 0)) [
    | inl idle ↦
        rw (idle, send_to_client)
          (strip-after_write (env.malloc os.calls) (count_call os) c bytes
            (retry (env.write os.calls c.client_fd bytes)))
    | inr busy ↦
        rw (busy, send_to_client) (strip-keep_rest (env.malloc os.calls) (count_call os) c bytes)
  ]

  strip-flush_loop :
      (fuel : ℕ) (os : Os) (c : ClientConnection) → strip (flush_loop env fuel os c).conn ≡ strip c
  unfolding flush_loop
  strip-flush_loop zero os c = refl
  strip-flush_loop (suc fuel) os c = elim (Bool-cases (outlen c == 0)) [
    | inl idle ↦ rw (idle, flush_loop)
    | inr busy ↦
        rw (busy, flush_loop)
          (strip-flush_round (flush_loop env fuel) (strip-flush_loop fuel) (count_call os) c
            (retry (env.write os.calls c.client_fd c.outbuf)))
  ]

  pub strip-flush_to_client :
      (os : Os) (c : ClientConnection) → strip (flush_to_client env os c).conn ≡ strip c
  unfolding flush_to_client
  strip-flush_to_client os c = strip-flush_loop (outlen c) os c
