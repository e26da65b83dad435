-- ===== src/Output/Runs.antt =====
-- Any sequence of sends and flushes to one connection.
use mathlib.Core.List.{append_assoc, append-nil}
use the_socket_exchange.Prelude.{
  ℕ, zero, suc, ◌≤◌, ◌≡◌, ◌≢◌, ◌⊎◌, refl, sym, ap, ◌∙◌, inl, inr, Bool, true, false, Bool-cases,
  ◌||◌, List, [], ◌∷◌, ◌++◌, arith, ◌==◌, length-append, length-drop, drop,
}
use the_socket_exchange.Config.{outbuf_size}
use the_socket_exchange.Output.{
  ClientConnection, outlen, Env, Os, Sent, Written, took, would_block, broken, retry, count_call,
  keep_rest, after_write, send_to_client, flush_round, flush_loop, flush_to_client,
}
use the_socket_exchange.Output.Stream.{
  Grows, received, stream, send_to_client-Grows, flush_loop-Flushes,
}

-- The uses of a connection's output.
pub data Op : Type 0 where
  sends : List ℕ → Op
  flushes : Op

-- All that a sequence of uses sends.
unfoldable pub payload : List Op → List ℕ
payload [] = []
payload (sends bytes ∷ ops) = bytes ++ payload ops
payload (flushes ∷ ops) = payload ops

-- The buffer fits its allocation.
abbrev pub IsBounded : ClientConnection → Type 0
IsBounded c = (outlen c ≤ outbuf_size) × ((c.outbuf_allocated ≡ true) ⊎ (c.outbuf ≡ []))

or-false : (a b : Bool) → (a || b) ≡ false → (a ≡ false) × (b ≡ false)
or-false a b h = ground arith

whole_of_unfailed :
    {wire : List (ℕ × List ℕ)} {c : ClientConnection} {bytes : List ℕ} {r : Sent}
    → Grows wire c bytes r
    → r.failed ≡ false
    → stream r.os.wire r.conn ≡ stream wire c ++ bytes
whole_of_unfailed g h = sym (append-nil _) ∙ ap (◌++◌ _) (sym (g.nothing_lost h)) ∙ g.whole

module _ (env : Env) where
  unfoldable pub use_once : Os → ClientConnection → Op → Sent
  use_once os c (sends bytes) = send_to_client env os c bytes
  use_once os c flushes = flush_to_client env os c

  -- A sequence of uses; `failed` says whether any asked for the connection's end.
  unfoldable pub run : Os → ClientConnection → List Op → Sent
  unfolding use_once
  run os c [] = record { os = os; conn = c; failed = false }
  run os c (op ∷ ops) =
      let now = use_once os c op in
      let later = run now.os now.conn ops in record later { failed = now.failed || later.failed }

  -- Over any sequence of sends and flushes to one connection none of which asks for the
  -- connection's end, what the client received followed by what waits in the buffer grows by
  -- exactly the bytes sent, in order.
  pub run-stream :
      (ops : List Op) (os : Os) (c : ClientConnection)
      → (run os c ops).failed ≡ false
      → stream (run os c ops).os.wire (run os c ops).conn ≡ stream os.wire c ++ payload ops
  unfolding run payload flush_to_client
  run-stream [] os c h = sym (append-nil _)
  run-stream (sends bytes ∷ ops) os c h =
      let r = send_to_client env os c bytes in
      let later = run r.os r.conn ops in
      let g = send_to_client-Grows env os c bytes in
      let done = or-false r.failed later.failed h in
      run-stream ops r.os r.conn done.1
      ∙ ap (λ l. l ++ payload ops) (whole_of_unfailed g done.0)
      ∙ append_assoc (stream os.wire c) bytes (payload ops)
  run-stream (flushes ∷ ops) os c h =
      let r = flush_to_client env os c in
      let later = run r.os r.conn ops in
      let g = flush_loop-Flushes env (outlen c) os c in
      run-stream ops r.os r.conn (or-false r.failed later.failed h).1
      ∙ ap (λ l. l ++ payload ops) g.same_stream

  -- No sequence of sends and flushes to one connection lets another descriptor receive anything.
  pub run-others :
      (ops : List Op) (os : Os) (c : ClientConnection) (fd : ℕ)
      → fd ≢ c.client_fd
      → received fd (run os c ops).os.wire ≡ received fd os.wire
  unfolding run flush_to_client
  run-others [] os c fd ne = refl
  run-others (sends bytes ∷ ops) os c fd ne =
      let r = send_to_client env os c bytes in
      let g = send_to_client-Grows env os c bytes in
      run-others ops r.os r.conn fd (λ e. ne (e ∙ g.same_fd)) ∙ g.others fd ne
  run-others (flushes ∷ ops) os c fd ne =
      let r = flush_to_client env os c in
      let g = flush_loop-Flushes env (outlen c) os c in
      run-others ops r.os r.conn fd (λ e. ne (e ∙ g.same_fd)) ∙ g.others fd ne

keep_rest-IsBounded :
    (room : Bool) (os : Os) (c : ClientConnection) (rest : List ℕ)
    → IsBounded c
    → IsBounded (keep_rest room os c rest).conn
unfolding keep_rest
keep_rest-IsBounded room os c rest b = ground (arith, length-append c.outbuf rest)

after_write-IsBounded :
    (room : Bool) (os : Os) (c : ClientConnection) (bytes : List ℕ) (w : Written)
    → IsBounded c
    → IsBounded (after_write room os c bytes w).conn
unfolding after_write
after_write-IsBounded room os c bytes (took n) b = keep_rest-IsBounded room _ c _ b
after_write-IsBounded room os c bytes would_block b = keep_rest-IsBounded room _ c _ b
after_write-IsBounded room os c bytes broken b = b

drop-IsBounded :
    (n : ℕ) (c : ClientConnection) → IsBounded c → IsBounded (record c { outbuf = drop n c.outbuf })
drop-IsBounded n c (fits, inl a) = (omega (arith, length-drop n c.outbuf), inl a)
drop-IsBounded n c (fits, inr e) = (omega (arith, length-drop n c.outbuf), inr (rw e (drop_nil n)))
  where
    drop_nil : (n : ℕ) → drop {A = ℕ} n [] ≡ []
    drop_nil zero = refl
    drop_nil (suc n) = refl

flush_round-IsBounded :
    (again : Os → ClientConnection → Sent)
    → ((os : Os) (c : ClientConnection) → IsBounded c → IsBounded (again os c).conn)
    → (os : Os) (c : ClientConnection) (w : Written) → IsBounded c
    → IsBounded (flush_round again os c w).conn
unfolding flush_round
flush_round-IsBounded again ih os c (took n) b = ih _ _ (drop-IsBounded n c b)
flush_round-IsBounded again ih os c would_block b = b
flush_round-IsBounded again ih os c broken b = b

module _ (env : Env) where
  pub send_to_client-IsBounded :
      (os : Os) (c : ClientConnection) (bytes : List ℕ)
      → IsBounded c
      → IsBounded (send_to_client env os c bytes).conn
  unfolding send_to_client
  send_to_client-IsBounded os c bytes b = elim (Bool-cases (outlen c == 0)) [
    | inl idle ↦
        rw (idle, send_to_client)
          (after_write-IsBounded (env.malloc os.calls) (count_call os) c bytes
            (retry (env.write os.calls c.client_fd bytes)) b)
    | inr busy ↦
        rw (busy, send_to_client)
          (keep_rest-IsBounded (env.malloc os.calls) (count_call os) c bytes b)
  ]

  flush_loop-IsBounded :
      (fuel : ℕ) (os : Os) (c : ClientConnection)
      → IsBounded c
      → IsBounded (flush_loop env fuel os c).conn
  unfolding flush_loop
  flush_loop-IsBounded zero os c b = b
  flush_loop-IsBounded (suc fuel) os c b = elim (Bool-cases (outlen c == 0)) [
    | inl idle ↦ rw (idle, flush_loop) b
    | inr busy ↦
        rw (busy, flush_loop)
          (flush_round-IsBounded (flush_loop env fuel) (flush_loop-IsBounded fuel) (count_call os) c
            (retry (env.write os.calls c.client_fd c.outbuf)) b)
  ]

  pub flush_to_client-IsBounded :
      (os : Os) (c : ClientConnection) → IsBounded c → IsBounded (flush_to_client env os c).conn
  unfolding flush_to_client
  flush_to_client-IsBounded os c b = flush_loop-IsBounded (outlen c) os c b

  -- No sequence of sends and flushes, failed ones included, puts more into a connection's buffer
  -- than the buffer holds, or anything into a buffer that is not allocated.
  pub run-IsBounded :
      (ops : List Op) (os : Os) (c : ClientConnection)
      → IsBounded c
      → IsBounded (run env os c ops).conn
  unfolding run flush_to_client
  run-IsBounded [] os c b = b
  run-IsBounded (sends bytes ∷ ops) os c b =
      run-IsBounded ops _ _ (send_to_client-IsBounded os c bytes b)
  run-IsBounded (flushes ∷ ops) os c b =
      run-IsBounded ops _ _ (flush_loop-IsBounded (outlen c) os c b)
