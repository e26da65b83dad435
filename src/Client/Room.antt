-- ===== src/Client/Room.antt =====
-- The room in a client's buffers: a read of no bytes would look like the end of the input.
use the_socket_exchange.Prelude.{
  ℕ, ◌+◌, ◌≤◌, ◌<◌, ◌≡◌, refl, sym, ap, subst, ◌∙◌, inl, inr, Bool, true, false, Bool-cases,
  if_elim, List, [], ◌∷◌, ◌++◌, Option, none, some, arith, line_feed, ltb, ◌==◌, if◌then◌else◌,
  length, length-append, codes,
}
use the_socket_exchange.Output.{WriteAnswer}
use the_socket_exchange.Client.{
  Client, buffer_size, recvbuf_size, show, drain_responses, input_full, pending_next, pending_line,
  pending_loop, send_pending_commands, Got, got, failed, eof, from_server, from_input, poll_round,
  Polls, ready, interrupted, poll_failed, waits, typed, unless_left, communicate,
}
use the_socket_exchange.Client.Lines.{tail_after}
use the_socket_exchange.Client.Receive.{drain_loop_lem}
use the_socket_exchange.Client.Write.{write_all-Writes}

-- Both buffers have room for another byte.
abbrev pub HasRoom : Client → Type 0
HasRoom c = (length c.inbuf < buffer_size) × (length c.recvbuf < recvbuf_size)

tail_after-length : (line bs : List ℕ) → length (tail_after line bs) ≤ length line + length bs
unfolding tail_after
tail_after-length line [] = omega arith
tail_after-length line (b ∷ bs) = elim (Bool-cases (b == line_feed)) [
  | inl e ↦ rw (e, tail_after) (omega (arith, tail_after-length [] bs))
  | inr e ↦
      rw (e, tail_after)
        (omega (arith, tail_after-length (line ++ b ∷ []) bs, length-append line (b ∷ [])))
]

-- What a read may return, by the bytes in the buffer.
abbrev pub FitsIn : ℕ → List ℕ → Option Got → Type 0
FitsIn size buffer none = Unit
FitsIn size buffer (some (got bytes)) = length buffer + length bytes ≤ size
FitsIn size buffer (some failed) = Unit
FitsIn size buffer (some eof) = Unit

-- A result that goes on has room, and the input's buffer is the one before.
abbrev Received : Client → Client × Bool → Type 0
Received c r = (r.1 ≡ false → length r.0.recvbuf < recvbuf_size) × (r.0.inbuf ≡ c.inbuf)

from_server-Received :
    (server : Option Got) (c : Client)
    → length c.recvbuf < recvbuf_size
    → FitsIn recvbuf_size c.recvbuf server
    → Received c (from_server server c)
unfolding from_server drain_responses
from_server-Received none c room fits = (λ _. room, refl)
from_server-Received (some failed) c room fits = (λ e. cc, refl)
from_server-Received (some eof) c room fits = (λ e. cc, refl)
from_server-Received (some (got bytes)) c room fits =
    let d = record c { recvbuf = c.recvbuf ++ bytes } in
    subst
      (λ c'. Received c (
        if length c'.recvbuf == recvbuf_size
        then (show (codes "Server sent an over-long response") c', true)
        else (c', false)))
      (sym (drain_loop_lem [] (c.recvbuf ++ bytes) d))
      (if_elim (Received c) (length (tail_after [] (c.recvbuf ++ bytes)) == recvbuf_size)
        (λ _. (λ e. cc, refl))
        (λ other. (
          λ _.
              ground
                (arith, tail_after-length [] (c.recvbuf ++ bytes), length-append c.recvbuf bytes),
          refl,
        )))

-- A success keeps at most `n` bytes of input, and the receive buffer is the one before.
abbrev Pends : ℕ → Client → Client × Bool → Type 0
Pends n c r = (r.1 ≡ true → length r.0.inbuf ≤ n) × (r.0.recvbuf ≡ c.recvbuf)

module _ (write : ℕ → List ℕ → WriteAnswer) where
  pending_line-recvbuf :
      (line : List ℕ) (c : Client) → (pending_line write line c).0.recvbuf ≡ c.recvbuf
  unfolding pending_line
  pending_line-recvbuf line c =
      if_elim (λ (r : Client × Bool). r.0.recvbuf ≡ c.recvbuf) c.discarding (λ _. refl)
        λ _.
          if_elim (λ (r : Client × Bool). r.0.recvbuf ≡ c.recvbuf) (ltb 1 (length line + 1))
            (λ _.
              ap (λ (d : Client). d.recvbuf)
                (write_all-Writes write c (line ++ line_feed ∷ [])).quiet)
            (λ _. refl)

  pending_next-Pends :
      (n : ℕ) (c : Client) (next : Client → Client × Bool) (r : Client × Bool)
      → ((d : Client) → Pends n d (next d))
      → r.0.recvbuf ≡ c.recvbuf
      → Pends n c (pending_next next r)
  pending_next-Pends n c next (d, true) h e = ((h d).0, (h d).1 ∙ e)
  pending_next-Pends n c next (d, false) h e = (λ f. cc, e)

  pending_loop-Pends :
      (bs line : List ℕ) (c : Client)
      → Pends (length line + length bs) c (pending_loop write line bs c)
  unfolding pending_loop
  pending_loop-Pends [] line c = (λ _. omega arith, refl)
  pending_loop-Pends (b ∷ bs) line c = elim (Bool-cases (b == line_feed)) [
    | inl nl ↦
        rw (nl, pending_loop)
          (pending_next-Pends (length line + length (b ∷ bs)) c (λ d. pending_loop write [] bs d)
            (pending_line write line c)
            (λ d. (
              λ done. omega (arith, (pending_loop-Pends bs [] d).0 done),
              (pending_loop-Pends bs [] d).1,
            ))
            (pending_line-recvbuf line c))
    | inr other ↦
        let ih = pending_loop-Pends bs (line ++ b ∷ []) c in
        rw (other, pending_loop)
          (λ done. omega (arith, ih.0 done, length-append line (b ∷ [])), ih.1)
  ]

  input_full-room :
      (c : Client) (r : Client × Bool)
      → Pends buffer_size c r
      → ((input_full r).1 ≡ true → length (input_full r).0.inbuf < buffer_size)
        × ((input_full r).0.recvbuf ≡ c.recvbuf)
  unfolding input_full
  input_full-room c (d, true) p =
      if_elim
        (λ (r : Client × Bool).
          (r.1 ≡ true → length r.0.inbuf < buffer_size) × (r.0.recvbuf ≡ c.recvbuf))
        (length d.inbuf == buffer_size) (λ _. (λ _. omega arith, p.1))
        (λ other. (λ _. ground (arith, p.0 refl), p.1))
  input_full-room c (d, false) p = (λ e. cc, p.1)

  -- A result that goes on has room for input, and the receive buffer is the one before.
  abbrev Typed : Client → Client × Bool → Type 0
  Typed c r = (r.1 ≡ false → length r.0.inbuf < buffer_size) × (r.0.recvbuf ≡ c.recvbuf)

  from_input-Typed :
      (input : Option Got) (c : Client)
      → length c.inbuf < buffer_size
      → FitsIn buffer_size c.inbuf input
      → Typed c (from_input write input c)
  unfolding from_input send_pending_commands
  from_input-Typed none c room fits = (λ _. room, refl)
  from_input-Typed (some failed) c room fits = (λ e. cc, refl)
  from_input-Typed (some eof) c room fits = (λ _. room, refl)
  from_input-Typed (some (got bytes)) c room fits =
      let d = record c { inbuf = c.inbuf ++ bytes } in
      let r = send_pending_commands write d in
      let p = pending_loop-Pends (c.inbuf ++ bytes) [] d in
      let q =
        input_full-room c (pending_loop write [] (c.inbuf ++ bytes) d)
          (λ done. omega (arith, p.0 done, length-append c.inbuf bytes), p.1) in
      if_elim (Typed c) r.1 (λ done. (λ _. q.0 done, q.1)) (λ _. (λ e. cc, q.1))

  typed-FitsIn :
      (b : Bool) (buffer : List ℕ) (input : Option Got)
      → FitsIn buffer_size buffer input
      → FitsIn buffer_size buffer (typed b input)
  typed-FitsIn true buffer input h = tt
  typed-FitsIn false buffer input h = h

  poll_round-HasRoom :
      (server input : Option Got) (c : Client)
      → HasRoom c
      → FitsIn recvbuf_size c.recvbuf server
      → FitsIn buffer_size c.inbuf input
      → (poll_round write server input c).1 ≡ false
      → HasRoom (poll_round write server input c).0
  unfolding poll_round
  poll_round-HasRoom server input c room fits₁ fits₂ =
      let r = from_server server c in
      let s = from_server-Received server c room.1 fits₁ in
      if_elim (λ (x : Client × Bool). x.1 ≡ false → HasRoom x.0) r.1 (λ left e. cc)
        λ stays e.
          let t =
            from_input-Typed (typed r.0.half_closed input) r.0 (rw s.1 room.0)
              (rw s.1 (typed-FitsIn r.0.half_closed c.inbuf input fits₂)) in
          (t.0 e, rw t.1 (s.0 stays))

  -- No read of the run returns more than the room in its buffer.
  abbrev pub AllFit : Polls → Client → Type 0
  AllFit (ready server input polls) c =
      FitsIn recvbuf_size c.recvbuf server
      × FitsIn buffer_size c.inbuf input
      × ((poll_round write server input c).1 ≡ false
          → AllFit polls (poll_round write server input c).0)
  AllFit (interrupted polls) c = AllFit polls c
  AllFit poll_failed c = Unit
  AllFit waits c = Unit

  unless_left-HasRoom :
      (next : Client → Client × Bool) (r : Client × Bool)
      → (r.1 ≡ false → (next r.0).1 ≡ false → HasRoom (next r.0).0)
      → (unless_left next r).1 ≡ false
      → HasRoom (unless_left next r).0
  unless_left-HasRoom next (c, true) h e = cc
  unless_left-HasRoom next (c, false) h e = h refl e

  -- As long as communicate goes on, both of its buffers have room for another byte, when no read
  -- returns more than it was asked for: so it never asks for no bytes, and a read that returns none
  -- is the end of what the server or the user sends.
  pub communicate-HasRoom :
      (polls : Polls) (c : Client)
      → HasRoom c
      → AllFit polls c
      → (communicate write polls c).1 ≡ false
      → HasRoom (communicate write polls c).0
  unfolding communicate
  communicate-HasRoom (ready server input polls) c room fits =
      let r = poll_round write server input c in
      unless_left-HasRoom (λ d. communicate write polls d) r
        (λ stays.
          communicate-HasRoom polls r.0 (poll_round-HasRoom server input c room fits.0 fits.1 stays)
            (fits.2 stays))
  communicate-HasRoom (interrupted polls) c room fits = communicate-HasRoom polls c room fits
  communicate-HasRoom poll_failed c room fits = λ e. cc
  communicate-HasRoom waits c room fits = λ _. room
