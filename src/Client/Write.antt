-- ===== src/Client/Write.antt =====
-- writeAll: what reaches the server's socket.
use mathlib.Core.List.{append_assoc, append-nil}
use the_socket_exchange.Prelude.{
  ℕ, zero, suc, ◌+◌, ◌≤◌, ◌≡◌, ◌≢◌, refl, sym, ap, ◌∙◌, inl, inr, Bool, true, false, Bool-cases,
  List, [], ◌∷◌, ◌++◌, arith, ◌==◌, length, length-drop, take, drop, take-append-drop,
}
use the_socket_exchange.Output.{WriteAnswer, took, retry}
use the_socket_exchange.Output.Flush.{retry-took, Written-cases}
use the_socket_exchange.Output.Stream.{nil_of_length}
use the_socket_exchange.Client.{Client, write_round, write_loop, write_all}

-- What a run of writeAll does: it sends a part of the bytes from the front, all of them exactly if
-- it succeeds, and touches nothing else.
pub record Writes (c : Client) (bytes : List ℕ) (r : Client × Bool) : Type 0 where
  pub part : List ℕ
  pub rest : List ℕ
  pub split : part ++ rest ≡ bytes
  pub sent : r.0.sent ≡ c.sent ++ part
  pub whole : r.1 ≡ true → rest ≡ []
  pub cut : r.1 ≡ false → rest ≢ []
  pub quiet : r.0 ≡ record c { calls = r.0.calls; sent = r.0.sent }

nothing_left : (c : Client) → Writes c [] (c, true)
nothing_left c = record {
  part = [];
  rest = [];
  split = refl;
  sent = sym (append-nil c.sent);
  whole = λ _. refl;
  cut = λ e. cc;
  quiet = refl;
}

stops_short :
    (c : Client) (n : ℕ) (bytes : List ℕ)
    → (length bytes == 0) ≡ false
    → Writes c bytes (record c { calls = n }, false)
stops_short c n bytes some_left = record {
  part = [];
  rest = bytes;
  split = refl;
  sent = sym (append-nil c.sent);
  whole = λ e. cc;
  cut = λ _ e. ground (arith, e);
  quiet = refl;
}

-- A round that has sent `n` bytes, and what follows it.
goes_on :
    (c : Client) (k n : ℕ) (bytes : List ℕ) (r : Client × Bool)
    → Writes (record c { calls = k; sent = c.sent ++ take n bytes }) (drop n bytes) r
    → Writes c bytes r
goes_on c k n bytes r w = record {
  part = take n bytes ++ w.part;
  rest = w.rest;
  split =
      append_assoc (take n bytes) w.part w.rest
      ∙ ap (◌++◌ (take n bytes)) w.split
      ∙ take-append-drop n bytes;
  sent = w.sent ∙ append_assoc c.sent (take n bytes) w.part;
  whole = w.whole;
  cut = w.cut;
  quiet = w.quiet;
}

-- The kernel always takes something of a write, if perhaps after interruptions.
abbrev pub Takes : (ℕ → List ℕ → WriteAnswer) → Type 0
Takes write = (i : ℕ) (bytes : List ℕ) → (n : ℕ) × (retry (write i bytes) ≡ took n)

module _ (write : ℕ → List ℕ → WriteAnswer) where
  write_loop-Writes :
      (fuel : ℕ) (c : Client) (bytes : List ℕ)
      → length bytes ≤ fuel
      → Writes c bytes (write_loop write fuel c bytes)
  unfolding write_loop write_round
  write_loop-Writes zero c [] h = nothing_left c
  write_loop-Writes zero c (b ∷ bytes) h = absurd (omega arith)
  write_loop-Writes (suc fuel) c bytes h = elim (Bool-cases (length bytes == 0)) [
    | inl done ↦ rw (done, nil_of_length bytes done, write_loop) (nothing_left c)
    | inr more ↦ elim (Written-cases (retry (write c.calls bytes))) [
      | inl e ↦ rw (more, e, write_loop, write_round) (stops_short c (c.calls + 1) bytes more)
      | inr (inl e) ↦ rw (more, e, write_loop, write_round) (stops_short c (c.calls + 1) bytes more)
      | inr (inr (n, e)) ↦
          rw (more, e, write_loop, write_round)
            (goes_on c (c.calls + 1) n bytes _ (
              write_loop-Writes fuel _ (drop n bytes)
                (ground (arith, length-drop n bytes, retry-took (write c.calls bytes) n e))))
    ]
  ]

  -- writeAll, whatever the kernel answers, ends; it has then sent a part of the bytes from the
  -- front, all of them exactly if it reports success, and has touched nothing but the socket.
  pub write_all-Writes : (c : Client) (bytes : List ℕ) → Writes c bytes (write_all write c bytes)
  unfolding write_all
  write_all-Writes c bytes = write_loop-Writes (length bytes) c bytes (omega arith)

  write_loop-succeeds :
      Takes write
      → (fuel : ℕ) (c : Client) (bytes : List ℕ) → (write_loop write fuel c bytes).1 ≡ true
  unfolding write_loop write_round
  write_loop-succeeds takes zero c bytes = refl
  write_loop-succeeds takes (suc fuel) c bytes = elim (Bool-cases (length bytes == 0)) [
    | inl done ↦ rw (done, write_loop)
    | inr more ↦
        let (n, e) = takes c.calls bytes in
        rw (more, e, write_loop, write_round) (write_loop-succeeds takes fuel _ (drop n bytes))
  ]

  -- When the kernel always takes something of a write, writeAll sends all of its bytes and
  -- reports success.
  pub write_all-succeeds :
      (c : Client) (bytes : List ℕ)
      → Takes write
      → ((write_all write c bytes).1 ≡ true) × ((write_all write c bytes).0.sent ≡ c.sent ++ bytes)
  unfolding write_all
  write_all-succeeds c bytes takes =
      let r = write_loop write (length bytes) c bytes in
      let done : r.1 ≡ true = write_loop-succeeds takes (length bytes) c bytes in
      let w = write_all-Writes c bytes in
      (
        done,
        w.sent
            ∙ ap (◌++◌ c.sent)
                (sym (append-nil w.part) ∙ ap (◌++◌ w.part) (sym (w.whole done)) ∙ w.split),
      )
