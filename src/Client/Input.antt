-- ===== src/Client/Input.antt =====
-- What a client sends of what its user types.
use the_socket_exchange.Prelude.{
  ℕ, ◌+◌, ◌≤◌, ◌<◌, ◌≡◌, refl, sym, ap, subst, ◌∙◌, inl, inr, Bool, true, false, Bool-cases, List,
  [], ◌∷◌, ◌++◌, none, some, arith, line_feed, ltb, ◌==◌, if◌then◌else◌, length, length-append, All,
}
use the_socket_exchange.Output.{WriteAnswer}
use the_socket_exchange.Client.{
  Client, buffer_size, input_full, pending_next, pending_line, pending_loop, send_pending_commands,
  got, from_server, from_input, poll_round, Polls, ready, waits, typed, unless_left, communicate,
}
use the_socket_exchange.Client.Lines.{unlines, IsLine}
use the_socket_exchange.Client.Receive.{concat}
use the_socket_exchange.Client.Write.{Takes, Writes, write_all-Writes, write_all-succeeds}
use the_socket_exchange.Client.Typing.{
  Typing, finish, type_byte, type_all, sendable, start, Roomy, type_all-Roomy, type_all-append,
  type_all-line, type_all-unlines, type_all-sent, type_all-half_closed,
}

-- A client's input, as the description has it.
abbrev pub view : Client → Typing
view c = record {
  line = c.inbuf;
  discarding = c.discarding;
  half_closed = c.half_closed;
  sent = c.sent;
}

-- The same for a line in the middle of the buffer.
abbrev view_at : List ℕ → Client → Typing
view_at line c = record (view c) { line = line }

pending_next-true :
    (next : Client → Client × Bool) (r : Client × Bool)
    → r.1 ≡ true
    → pending_next next r ≡ next r.0
pending_next-true next (c, true) h = refl
pending_next-true next (c, false) h = cc

-- A success that the description agrees with.
abbrev Agrees : Client × Bool → Typing → Type 0
Agrees r k = (r.1 ≡ true) × (view r.0 ≡ k)

-- The branches of the code and of the description, at the results of their tests.
branches :
    (on more some_byte : Bool) (line : List ℕ) (c : Client) (r : Client × Bool)
    → more ≡ some_byte
    → Writes c (line ++ line_feed ∷ []) r
    → (r.1 ≡ true) × (r.0.sent ≡ c.sent ++ (line ++ line_feed ∷ []))
    → let k = view_at line c in
      let x =
        if on then (record c { discarding = false }, true) else if more then r else (c, true) in
      (x.1 ≡ true)
      × (view_at [] x.0 ≡ (
          if on
          then record k { line = []; discarding = false }
          else if some_byte
          then record k { line = []; sent = k.sent ++ (k.line ++ line_feed ∷ []) }
          else record k { line = [] }))
branches true more some_byte line c r e w done = (refl, refl)
branches false true true line c r e w done =
    (done.0, ap (view_at []) w.quiet ∙ ap (λ s. record (view_at [] c) { sent = s }) done.1)
branches false false false line c r e w done = (refl, refl)
branches false true false line c r e w done = cc
branches false false true line c r e w done = cc

dropped :
    (line : List ℕ) (c : Client)
    → length line ≡ buffer_size
    → Agrees
        (input_full (record c { inbuf = line }, true))
        (record (view_at line c) { line = []; discarding = true })
unfolding input_full
dropped line c full =
    let e : (length line == buffer_size) ≡ true = ground arith in rw e (refl, refl)

kept :
    (line : List ℕ) (c : Client)
    → length line < buffer_size
    → Agrees (input_full (record c { inbuf = line }, true)) (view_at line c)
unfolding input_full
kept line c room = let e : (length line == buffer_size) ≡ false = ground arith in rw e (refl, refl)

succeeded :
    (other : Client × Bool) (r : Client × Bool) (k : Typing)
    → Agrees r k
    → let x = if r.1 then (r.0, false) else other in (x.1 ≡ false) × (view x.0 ≡ k)
succeeded other (c, true) k a = (refl, a.1)
succeeded other (c, false) k a = cc

-- The buffer is searched again from its front.
resumed :
    (bytes : List ℕ) (c : Client)
    → Roomy (view c)
    → type_all (c.inbuf ++ bytes) (record (view c) { line = [] }) ≡ type_all bytes (view c)
resumed bytes c roomy =
    type_all-append c.inbuf bytes (record (view c) { line = [] })
    ∙ ap (type_all bytes)
        (type_all-line c.inbuf (record (view c) { line = [] }) roomy.0 (omega (arith, roomy.1)))

unless_left-false :
    (next : Client → Client × Bool) (r : Client × Bool)
    → r.1 ≡ false
    → unless_left next r ≡ next r.0
unless_left-false next (c, false) h = refl
unless_left-false next (c, true) h = cc

unfoldable pub keystrokes : List (List ℕ) → Polls
keystrokes [] = waits
keystrokes (bytes ∷ pieces) = ready none (some (got bytes)) (keystrokes pieces)

-- No read returns more than the room in the buffer, which is what communicate asks for.
abbrev pub Fits : List (List ℕ) → Typing → Type 0
Fits [] k = Unit
Fits (bytes ∷ pieces) k =
    (length k.line + length bytes ≤ buffer_size) × Fits pieces (type_all bytes k)

module _ (write : ℕ → List ℕ → WriteAnswer) (takes : Takes write) where
  pending_line-finish :
      (line : List ℕ) (c : Client)
      → ((pending_line write line c).1 ≡ true)
        × (view_at [] (pending_line write line c).0 ≡ finish (view_at line c))
  unfolding pending_line finish
  pending_line-finish line c =
      branches c.discarding (ltb 1 (length line + 1)) (ltb 0 (length line)) line c _ (ground arith)
        (write_all-Writes write c (line ++ line_feed ∷ []))
        (write_all-succeeds write c (line ++ line_feed ∷ []) takes)

  filled :
      (b : ℕ) (bs line : List ℕ) (c : Client)
      → length line ≡ buffer_size
      → length bs ≤ 0
      → Agrees
          (input_full (pending_loop write line bs c))
          (type_all bs (record (view_at line c) { line = []; discarding = true }))
  unfolding pending_loop type_all
  filled b [] line c full none_left = dropped line c full
  filled b (x ∷ bs) line c full none_left = absurd (omega arith)

  -- The search for newlines, and the test for a full buffer, against the bytes one at a time.
  pending_loop-type_all :
      (bs line : List ℕ) (c : Client)
      → length line < buffer_size
      → length line + length bs ≤ buffer_size
      → Agrees (input_full (pending_loop write line bs c)) (type_all bs (view_at line c))
  unfolding pending_loop type_all type_byte
  pending_loop-type_all [] line c room fits = kept line c room
  pending_loop-type_all (b ∷ bs) line c room fits = elim (Bool-cases (b == line_feed)) [
    | inl nl ↦
        let r = pending_line write line c in
        let done = pending_line-finish line c in
        rw (nl, pending_loop, type_byte)
          (subst (λ x. Agrees (input_full x) (type_all bs (finish (view_at line c))))
            (sym (pending_next-true (λ d. pending_loop write [] bs d) r done.0))
            (subst (λ k. Agrees (input_full (pending_loop write [] bs r.0)) (type_all bs k)) done.1
              (pending_loop-type_all bs [] r.0 (omega arith) (omega arith))))
    | inr other ↦ elim (Bool-cases (length line + 1 == buffer_size)) [
      | inl last ↦
          rw (other, last, pending_loop, type_byte)
            (filled b bs (line ++ b ∷ []) c (ground (arith, length-append line (b ∷ [])))
              (ground arith))
      | inr more ↦
          rw (other, more, pending_loop, type_byte)
            (pending_loop-type_all bs (line ++ b ∷ []) c
              (ground (arith, length-append line (b ∷ [])))
              (ground (arith, length-append line (b ∷ []))))
    ]
  ]

  -- One read of the input.
  from_input-type_all :
      (bytes : List ℕ) (c : Client)
      → Roomy (view c)
      → length c.inbuf + length bytes ≤ buffer_size
      → ((from_input write (some (got bytes)) c).1 ≡ false)
        × (view (from_input write (some (got bytes)) c).0 ≡ type_all bytes (view c))
  unfolding from_input send_pending_commands
  from_input-type_all bytes c roomy fits =
      let d = record c { inbuf = c.inbuf ++ bytes } in
      succeeded _ (send_pending_commands write d) _ (
        subst (Agrees (send_pending_commands write d)) (resumed bytes c roomy) (
          pending_loop-type_all (c.inbuf ++ bytes) [] d (omega arith)
            (omega (arith, length-append c.inbuf bytes))))

  -- Pieces of what the user types, with nothing from the server meanwhile.
  poll_round-type_all :
      (bytes : List ℕ) (c : Client)
      → Roomy (view c)
      → length c.inbuf + length bytes ≤ buffer_size
      → c.half_closed ≡ false
      → ((poll_round write none (some (got bytes)) c).1 ≡ false)
        × (view (poll_round write none (some (got bytes)) c).0 ≡ type_all bytes (view c))
  unfolding poll_round from_server
  poll_round-type_all bytes c roomy fits open_input =
      subst
        (λ b.
          ((from_input write (typed b (some (got bytes))) c).1 ≡ false)
          × (view (from_input write (typed b (some (got bytes))) c).0 ≡ type_all bytes (view c)))
        (sym open_input) (from_input-type_all bytes c roomy fits)

  communicate-type_all :
      (pieces : List (List ℕ)) (c : Client)
      → Roomy (view c)
      → c.half_closed ≡ false
      → Fits pieces (view c)
      → ((communicate write (keystrokes pieces) c).1 ≡ false)
        × (view (communicate write (keystrokes pieces) c).0 ≡ type_all (concat pieces) (view c))
  unfolding communicate keystrokes concat type_all
  communicate-type_all [] c roomy open_input fits = (refl, refl)
  communicate-type_all (bytes ∷ pieces) c roomy open_input fits =
      let r = poll_round write none (some (got bytes)) c in
      let done = poll_round-type_all bytes c roomy fits.0 open_input in
      let k = type_all bytes (view c) in
      let still : r.0.half_closed ≡ false =
        ap (λ (k : Typing). k.half_closed) done.1
        ∙ type_all-half_closed bytes (view c)
        ∙ open_input in
      let ih =
        communicate-type_all pieces r.0
          (subst Roomy (sym done.1) (type_all-Roomy bytes (view c) roomy)) still
          (subst (Fits pieces) (sym done.1) fits.1) in
      let e = unless_left-false (λ d. communicate write (keystrokes pieces) d) r done.0 in
      (
        ap (λ (x : Client × Bool). x.1) e ∙ ih.0,
        ap (λ (x : Client × Bool). view x.0) e
            ∙ ih.1
            ∙ ap (type_all (concat pieces)) done.1
            ∙ sym (type_all-append bytes (concat pieces) (view c)),
      )

  -- When the kernel always takes something of a write and no read returns more than it was asked
  -- for, a client whose input buffer is empty, who is not discarding the rest of a line that was
  -- too long and whose input has not ended, and whose user types these lines and perhaps the
  -- beginning of one more while the server sends nothing, sends exactly the lines that are not empty
  -- and have less than 1024 bytes, in order, each with its newline, and goes on, however the bytes
  -- are cut into reads.
  pub communicate-sendable :
      (pieces ls : List (List ℕ)) (t : List ℕ) (c : Client)
      → view c ≡ start false c.sent
      → concat pieces ≡ unlines ls ++ t
      → All IsLine ls
      → IsLine t
      → Fits pieces (view c)
      → ((communicate write (keystrokes pieces) c).1 ≡ false)
        × ((communicate write (keystrokes pieces) c).0.sent ≡ c.sent ++ unlines (sendable ls))
  communicate-sendable pieces ls t c fresh same lines last fits =
      let r =
        communicate-type_all pieces c (subst Roomy (sym fresh) (tt, omega arith))
          (ap (λ (k : Typing). k.half_closed) fresh) fits in
      let k = type_all (concat pieces) (view c) in
      let e : k ≡ type_all t (start false (c.sent ++ unlines (sendable ls))) =
        ap (type_all (concat pieces)) fresh
        ∙ ap (λ bs. type_all bs (start false c.sent)) same
        ∙ type_all-unlines ls t false c.sent lines in
      (
        r.0,
        ap (λ (x : Typing). x.sent) (r.1 ∙ e)
            ∙ type_all-sent t (start false (c.sent ++ unlines (sendable ls))) last,
      )
