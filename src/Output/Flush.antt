-- ===== src/Output/Flush.antt =====
-- How flushToClient ends.
use the_socket_exchange.Prelude.{
  ℕ, zero, suc, ◌+◌, ◌≤◌, ◌<◌, ◌≡◌, ◌⊎◌, refl, inl, inr, true, false, Bool-cases, [], arith, ◌==◌,
  length-drop,
}
use the_socket_exchange.Output.{
  ClientConnection, outlen, Env, WriteAnswer, eintr, wrote, eagain, failed, Os, Sent, Written, took,
  would_block, broken, retry, flush_round, flush_loop, flush_to_client,
}
use the_socket_exchange.Output.Stream.{nil_of_length}

-- A write that takes something takes at least one byte.
pub retry-took : (a : WriteAnswer) (n : ℕ) → retry a ≡ took n → 0 < n
unfolding retry
retry-took (eintr next) n e = retry-took next n e
retry-took (wrote m) n e = ground arith
retry-took eagain n e = cc
retry-took failed n e = cc

-- The kernel's last answer to a write, once it has not been interrupted: EAGAIN, or another error.
abbrev pub IsEagain : WriteAnswer → Type 0
IsEagain (eintr next) = IsEagain next
IsEagain (wrote n) = ⊥
IsEagain eagain = Unit
IsEagain failed = ⊥

abbrev pub IsFailure : WriteAnswer → Type 0
IsFailure (eintr next) = IsFailure next
IsFailure (wrote n) = ⊥
IsFailure eagain = ⊥
IsFailure failed = Unit

retry-IsEagain : (a : WriteAnswer) → retry a ≡ would_block → IsEagain a
unfolding retry
retry-IsEagain (eintr next) e = retry-IsEagain next e
retry-IsEagain (wrote n) e = cc
retry-IsEagain eagain e = tt
retry-IsEagain failed e = cc

retry-IsFailure : (a : WriteAnswer) → retry a ≡ broken → IsFailure a
unfolding retry
retry-IsFailure (eintr next) e = retry-IsFailure next e
retry-IsFailure (wrote n) e = cc
retry-IsFailure eagain e = cc
retry-IsFailure failed e = tt

-- How flushToClient ends: everything is sent, and the result tells whether the connection was
-- closing; or the socket takes no more for now; or it is broken.
abbrev pub Ends : Env → ClientConnection → Sent → Type 0
Ends env c r =
    ((r.conn.outbuf ≡ []) × (r.failed ≡ c.closing))
    ⊎ (((i : ℕ) × (i + 1 ≡ r.os.calls)
          × IsEagain (env.write i c.client_fd r.conn.outbuf)
          × (r.failed ≡ false))
        ⊎ ((i : ℕ) × (i + 1 ≡ r.os.calls)
            × IsFailure (env.write i c.client_fd r.conn.outbuf)
            × (r.failed ≡ true)))

pub Written-cases : (w : Written) → (w ≡ would_block) ⊎ ((w ≡ broken) ⊎ ((n : ℕ) × (w ≡ took n)))
Written-cases would_block = inl refl
Written-cases broken = inr (inl refl)
Written-cases (took n) = inr (inr (n, refl))

module _ (env : Env) where
  abbrev answer : Os → ClientConnection → Written
  answer os c = retry (env.write os.calls c.client_fd c.outbuf)

  flush_loop-Ends :
      (fuel : ℕ) (os : Os) (c : ClientConnection)
      → outlen c ≤ fuel
      → Ends env c (flush_loop env fuel os c)
  unfolding flush_loop flush_round
  flush_loop-Ends zero os c h = inl (nil_of_length c.outbuf (ground arith), refl)
  flush_loop-Ends (suc fuel) os c h = elim (Bool-cases (outlen c == 0)) [
    | inl idle ↦ rw (idle, flush_loop) (inl (nil_of_length c.outbuf idle, refl))
    | inr busy ↦ elim (Written-cases (answer os c)) [
      | inl e ↦
          rw (busy, e, flush_loop, flush_round)
            (inr (
              inl
                (os.calls, refl, retry-IsEagain (env.write os.calls c.client_fd c.outbuf) e, refl)))
      | inr (inl e) ↦
          rw (busy, e, flush_loop, flush_round)
            (inr (
              inr (
                os.calls,
                refl,
                retry-IsFailure (env.write os.calls c.client_fd c.outbuf) e,
                refl,
              )))
      | inr (inr (n, e)) ↦
          rw (busy, e, flush_loop, flush_round)
            (flush_loop-Ends fuel _ _ (
              ground (
                arith,
                length-drop n c.outbuf,
                retry-took (env.write os.calls c.client_fd c.outbuf) n e,
              )))
    ]
  ]

  -- flushToClient ends in one of three ways: with an empty buffer, and then it asks for the
  -- connection's end exactly if that was closing; when its last write, of what is left, is, once not
  -- interrupted, answered with EAGAIN, and then the connection stays; or when it is answered with
  -- another error, and then it ends.
  pub flush_to_client-Ends :
      (os : Os) (c : ClientConnection) → Ends env c (flush_to_client env os c)
  unfolding flush_to_client
  flush_to_client-Ends os c = flush_loop-Ends (outlen c) os c (omega arith)
