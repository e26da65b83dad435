-- ===== src/Output/Stream.antt =====
-- The bytes that a client receives, and those that it is sent.
use mathlib.Core.List.{append_assoc, append-nil}
use the_socket_exchange.Prelude.{
  ℕ, zero, suc, ◌+◌, ◌≡◌, ◌≢◌, refl, sym, ap, ◌∙◌, inl, inr, Bool, true, false, Bool-cases, not,
  ◌&&◌, List, [], ◌∷◌, ◌++◌, arith, ltb, ◌==◌, if◌then◌else◌, length, take, drop, take-append-drop,
}
use the_socket_exchange.Config.{outbuf_size}
use the_socket_exchange.Output.{
  ClientConnection, outlen, Env, Os, Sent, Written, took, would_block, broken, retry, count_call,
  put_wire, flush_round, keep_rest, after_write, send_to_client, flush_loop,
}

-- What a descriptor received, over the whole run.
unfoldable pub received : ℕ → List (ℕ × List ℕ) → List ℕ
received fd [] = []
received fd ((g, bytes) ∷ wire) =
    let rest = received fd wire in if g == fd then bytes ++ rest else rest

received-append :
    (fd : ℕ) (xs ys : List (ℕ × List ℕ)) → received fd (xs ++ ys) ≡ received fd xs ++ received fd ys
unfolding received
received-append fd [] ys = refl
received-append fd ((g, bytes) ∷ xs) ys = elim (Bool-cases (g == fd)) [
  | inl e ↦
      rw (e, received) (ap (◌++◌ bytes) (received-append fd xs ys) ∙ sym (append_assoc bytes _ _))
  | inr e ↦ rw (e, received) (received-append fd xs ys)
]

-- A client's stream so far: what it received, and what waits for it.
abbrev pub stream : List (ℕ × List ℕ) → ClientConnection → List ℕ
stream wire c = received c.client_fd wire ++ c.outbuf

-- One outcome of sending: the stream has grown by all of the bytes, or by a part if the send
-- failed; no other descriptor received anything; and the buffer holds.
pub record Grows (wire : List (ℕ × List ℕ)) (c : ClientConnection) (bytes : List ℕ) (r : Sent)
    : Type 0 where
  pub same_fd : r.conn.client_fd ≡ c.client_fd
  pub lost : List ℕ
  pub whole : stream r.os.wire r.conn ++ lost ≡ stream wire c ++ bytes
  pub nothing_lost : r.failed ≡ false → lost ≡ []
  pub others : (fd : ℕ) → fd ≢ c.client_fd → received fd r.os.wire ≡ received fd wire

pub nil_of_length : (xs : List ℕ) → (length xs == 0) ≡ true → xs ≡ []
nil_of_length [] h = refl
nil_of_length (x ∷ xs) h = ground arith

keep_rest-Grows :
    (room : Bool) (os : Os) (c : ClientConnection) (rest : List ℕ)
    → Grows os.wire c rest (keep_rest room os c rest)
unfolding keep_rest
keep_rest-Grows room os c rest = elim (Bool-cases (length rest == 0)) [
  | inl empty ↦
      rw (empty, keep_rest)
        (record {
          same_fd = refl;
          lost = [];
          whole = rw (nil_of_length rest empty);
          nothing_lost = λ _. refl;
          others = λ _ _. refl;
        })
  | inr some_left ↦ elim (Bool-cases (not c.outbuf_allocated && not room)) [
    | inl full ↦
        rw (some_left, full, keep_rest)
          (record {
            same_fd = refl;
            lost = rest;
            whole = refl;
            nothing_lost = λ h. cc;
            others = λ _ _. refl;
          })
    | inr space ↦ elim (Bool-cases (ltb outbuf_size (outlen c + length rest))) [
      | inl long ↦
          rw (some_left, space, long, keep_rest)
            (record {
              same_fd = refl;
              lost = rest;
              whole = refl;
              nothing_lost = λ h. cc;
              others = λ _ _. refl;
            })
      | inr fits ↦
          rw (some_left, space, fits, keep_rest)
            (record {
              same_fd = refl;
              lost = [];
              whole =
                  append-nil _ ∙ sym (append_assoc (received c.client_fd os.wire) c.outbuf rest);
              nothing_lost = λ _. refl;
              others = λ _ _. refl;
            })
    ]
  ]
]

-- The log after one more write.
received-put_wire :
    (fd g : ℕ) (os : Os) (bytes : List ℕ)
    → received fd (put_wire os g bytes).wire
      ≡ received fd os.wire ++ (if g == fd then bytes else [])
unfolding received
received-put_wire fd g os bytes =
    received-append fd os.wire ((g, bytes) ∷ [])
    ∙ ap (◌++◌ (received fd os.wire)) (one_entry fd g bytes)
  where
    one_entry :
        (fd g : ℕ) (bytes : List ℕ)
        → received fd ((g, bytes) ∷ []) ≡ (if g == fd then bytes else [])
    one_entry fd g bytes = ground (arith, append-nil bytes)

received-put_wire_self :
    (g : ℕ) (os : Os) (bytes : List ℕ)
    → received g (put_wire os g bytes).wire ≡ received g os.wire ++ bytes
received-put_wire_self g os bytes =
    let e : (g == g) ≡ true = ground arith in rw (received-put_wire g g os bytes, e)

received-put_wire_ne :
    (fd g : ℕ) (os : Os) (bytes : List ℕ)
    → fd ≢ g
    → received fd (put_wire os g bytes).wire ≡ received fd os.wire
received-put_wire_ne fd g os bytes ne =
    let e : (g == fd) ≡ false = ground arith in
    rw (received-put_wire fd g os bytes, e) (append-nil _)

-- Sending when nothing waits: the kernel takes a part first.
after_write-Grows :
    (room : Bool) (os : Os) (c : ClientConnection) (bytes : List ℕ) (w : Written)
    → c.outbuf ≡ []
    → Grows os.wire c bytes (after_write room os c bytes w)
unfolding after_write
after_write-Grows room os c bytes would_block idle = keep_rest-Grows room os c bytes
after_write-Grows room os c bytes broken idle = record {
  same_fd = refl;
  lost = bytes;
  whole = refl;
  nothing_lost = λ h. cc;
  others = λ _ _. refl;
}
after_write-Grows room os c bytes (took n) idle = record {
  same_fd = kept.same_fd;
  lost = kept.lost;
  whole =
      kept.whole
      ∙ rw (idle, received-put_wire_self c.client_fd os (take n bytes))
          (simp (append_assoc, append-nil, take-append-drop));
  nothing_lost = kept.nothing_lost;
  others = λ fd ne. kept.others fd ne ∙ received-put_wire_ne fd c.client_fd os (take n bytes) ne;
}
  where
    kept :
        Grows
          (put_wire os c.client_fd (take n bytes)).wire
          c
          (drop n bytes)
          (after_write room os c bytes (took n))
    kept = keep_rest-Grows room (put_wire os c.client_fd (take n bytes)) c (drop n bytes)

module _ (env : Env) where
  pub send_to_client-Grows :
      (os : Os) (c : ClientConnection) (bytes : List ℕ)
      → Grows os.wire c bytes (send_to_client env os c bytes)
  unfolding send_to_client
  send_to_client-Grows os c bytes = elim (Bool-cases (outlen c == 0)) [
    | inl idle ↦
        rw (idle, send_to_client)
          (after_write-Grows (env.malloc os.calls) (count_call os) c bytes
            (retry (env.write os.calls c.client_fd bytes)) (nil_of_length c.outbuf idle))
    | inr busy ↦
        rw (busy, send_to_client) (keep_rest-Grows (env.malloc os.calls) (count_call os) c bytes)
  ]

-- One outcome of flushing: bytes move from the buffer to the wire, in order, and no other
-- descriptor receives anything.
pub record Flushes (wire : List (ℕ × List ℕ)) (c : ClientConnection) (r : Sent) : Type 0 where
  pub same_fd : r.conn.client_fd ≡ c.client_fd
  pub same_stream : stream r.os.wire r.conn ≡ stream wire c
  pub others : (fd : ℕ) → fd ≢ c.client_fd → received fd r.os.wire ≡ received fd wire

flush_round-Flushes :
    (again : Os → ClientConnection → Sent)
    → ((os : Os) (c : ClientConnection) → Flushes os.wire c (again os c))
    → (os : Os) (c : ClientConnection) (w : Written) → Flushes os.wire c (flush_round again os c w)
unfolding flush_round
flush_round-Flushes again ih os c would_block = record {
  same_fd = refl;
  same_stream = refl;
  others = λ _ _. refl;
}
flush_round-Flushes again ih os c broken = record {
  same_fd = refl;
  same_stream = refl;
  others = λ _ _. refl;
}
flush_round-Flushes again ih os c (took n) =
    let os' = put_wire os c.client_fd (take n c.outbuf) in
    let c' = record c { outbuf = drop n c.outbuf } in
    let later = ih os' c' in
    record {
      same_fd = later.same_fd;
      same_stream =
          later.same_stream
          ∙ rw (received-put_wire_self c.client_fd os (take n c.outbuf))
              (simp (append_assoc, take-append-drop));
      others =
          λ fd ne. later.others fd ne ∙ received-put_wire_ne fd c.client_fd os (take n c.outbuf) ne;
    }

module _ (env : Env) where
  pub flush_loop-Flushes :
      (fuel : ℕ) (os : Os) (c : ClientConnection) → Flushes os.wire c (flush_loop env fuel os c)
  unfolding flush_loop
  flush_loop-Flushes zero os c = record { same_fd = refl; same_stream = refl; others = λ _ _. refl }
  flush_loop-Flushes (suc fuel) os c = elim (Bool-cases (outlen c == 0)) [
    | inl idle ↦
        rw (idle, flush_loop) (record { same_fd = refl; same_stream = refl; others = λ _ _. refl })
    | inr busy ↦
        rw (busy, flush_loop)
          (flush_round-Flushes (flush_loop env fuel) (flush_loop-Flushes fuel) (count_call os) c _)
  ]
