-- ===== src/Framing/Chunks.antt =====
-- The loop of communicate, against the description one byte at a time.
use the_socket_exchange.Prelude.{
  ℕ, ◌+◌, ◌≤◌, ◌<◌, ◌≡◌, refl, sym, ap, ◌∙◌, subst, true, Bool-cases, inl, inr, List, [], ◌∷◌, ◌++◌,
  arith, line_feed, ◌==◌, length, length-append, take, drop,
}
use the_socket_exchange.Config.{inbuf_size}
use the_socket_exchange.Framing.{
  Reads, got, eintr, eagain, failed, eof, Flow, continues, returns, Step, after_read,
  unless_returned, read_loop,
}
use the_socket_exchange.Framing.Bytes.{
  step_of, and_then_at, and_then, and_then_assoc, settle_at, settle, feed_byte, feed, feed-append,
  find_lines-feed,
}

-- All that the calls of read deliver, and how the last one ends the loop.
unfoldable pub bytes_of : Reads → List ℕ
bytes_of (got bytes reads) = bytes ++ bytes_of reads
bytes_of (eintr reads) = bytes_of reads
bytes_of eagain = []
bytes_of failed = []
bytes_of eof = []

unfoldable pub end_of : Reads → Flow
end_of (got bytes reads) = end_of reads
end_of (eintr reads) = end_of reads
end_of eagain = continues
end_of failed = returns true
end_of eof = returns true

take-length_append : (xs ys : List ℕ) → take (length xs) (xs ++ ys) ≡ xs
take-length_append [] ys = refl
take-length_append (x ∷ xs) ys = ap (◌∷◌ x) (take-length_append xs ys)

drop-length_append : (xs ys : List ℕ) → drop (length xs) (xs ++ ys) ≡ ys
drop-length_append [] ys = refl
drop-length_append (x ∷ xs) ys = drop-length_append xs ys

-- A buffer that the next read finds: room for a byte, and all of it searched.
abbrev pub Ready {ℓ} : {S : Type ℓ} → Step S → Type 0
Ready r = (length r.inbuf < inbuf_size) × (r.scanned ≡ length r.inbuf)

module _ {ℓ} {S : Type ℓ} where
  and_then-Ready :
      (r : Step S) (k : List ℕ → S → Step S) (f : Flow)
      → Ready r
      → ((l : List ℕ) (s : S) → length l < inbuf_size → Ready (k l s))
      → Ready (and_then_at r k f)
  and_then-Ready r k continues ready h = h r.inbuf r.state ready.0
  and_then-Ready r k (returns result) ready h = ready

  settle-continues : (r : Step S) → r.flow ≡ continues → settle r ≡ r
  settle-continues r e = ap (settle_at r) e

module _ {ℓ} {S : Type ℓ} (on_line : List ℕ → S → S × Flow) (on_full : S → S × Flow) where
  abbrev fed : List ℕ → List ℕ → S → Step S
  fed bs line s = feed on_line on_full bs line s

  feed_byte-Ready :
      (b : ℕ) (line : List ℕ) (s : S)
      → length line < inbuf_size
      → Ready (feed_byte on_line on_full b line s)
  unfolding feed_byte
  feed_byte-Ready b line s room = elim (Bool-cases (b == line_feed)) [
    | inl nl ↦ rw (nl, feed_byte) (omega arith, refl)
    | inr other ↦ elim (Bool-cases (length line + 1 == inbuf_size)) [
      | inl last ↦ rw (other, last, feed_byte) (omega arith, refl)
      | inr more ↦ rw (other, more, feed_byte) (ground (arith, length-append line (b ∷ [])), refl)
    ]
  ]

  feed-Ready : (bs line : List ℕ) (s : S) → length line < inbuf_size → Ready (fed bs line s)
  unfolding feed
  feed-Ready [] line s room = (room, refl)
  feed-Ready (b ∷ bs) line s room =
      let r = feed_byte on_line on_full b line s in
      and_then-Ready r (λ l t. fed bs l t) r.flow (feed_byte-Ready b line s room)
        (λ l t h. feed-Ready bs l t h)

  -- One read, whatever it found, against its bytes one at a time.
  after_read-feed :
      (inbuf bytes : List ℕ) (s : S)
      → length inbuf < inbuf_size
      → length inbuf + length bytes ≤ inbuf_size
      → settle (after_read on_line on_full inbuf (length inbuf) bytes s) ≡ fed bytes inbuf s
  unfolding after_read
  after_read-feed inbuf bytes s room fits =
      rw (take-length_append inbuf bytes, drop-length_append inbuf bytes)
        (find_lines-feed on_line on_full (inbuf ++ bytes) (length inbuf) bytes inbuf s room fits)

  abbrev UnlessOver : (List ℕ → S → Type 0) → Step S → Flow → Type 0
  UnlessOver P r continues = P r.inbuf r.state
  UnlessOver P r (returns result) = Unit

  -- No read returns more than the room in the buffer, which is what communicate asks for.
  abbrev pub Fits : Reads → List ℕ → S → Type 0
  Fits (got bytes reads) inbuf s =
      (length inbuf + length bytes ≤ inbuf_size)
      × UnlessOver (λ l t. Fits reads l t) (fed bytes inbuf s) (fed bytes inbuf s).flow
  Fits (eintr reads) inbuf s = Fits reads inbuf s
  Fits eagain inbuf s = Unit
  Fits failed inbuf s = Unit
  Fits eof inbuf s = Unit

  -- What the last call of read makes of the line that it leaves unfinished.
  abbrev pub closed : Flow → List ℕ → S → Step S
  closed f line s = settle (step_of line (s, f))

  -- The loop after one read.
  resumed :
      (reads : Reads) (K : List ℕ → S → Step S)
      → ((l : List ℕ) (t : S)
          → length l < inbuf_size
          → Fits reads l t
          → settle (read_loop on_line on_full reads l (length l) t) ≡ K l t)
      → (r : Step S) (f : Flow) → r.flow ≡ f
      → Ready (settle_at r f)
      → UnlessOver (Fits reads) (settle_at r f) (settle_at r f).flow
      → settle (
          unless_returned on_line on_full r
            (λ r'. read_loop on_line on_full reads r'.inbuf r'.scanned r'.state)
            f)
        ≡ and_then (settle_at r f) K
  resumed reads K ih r continues e ready fits =
      ap (λ n. settle (read_loop on_line on_full reads r.inbuf n r.state)) ready.1
      ∙ ih r.inbuf r.state ready.0 (subst (UnlessOver (Fits reads) r) e fits)
      ∙ sym (ap (and_then_at r K) e)
  resumed reads K ih r (returns result) e ready fits =
      ap (settle_at r) e ∙ sym (ap (and_then_at (record r { inbuf = []; scanned = 0 }) K) e)

  -- From a buffer with room and all of it searched, the loop of communicate does what its bytes do
  -- one at a time, whatever the lines and a full buffer do, when each read returns at most the room
  -- in the buffer: however the bytes are cut into reads, and however often a read is interrupted,
  -- the same lines are handled in the same order, and the buffer is left with the same unfinished
  -- line, unless the loop ends in a return that gives the connection up or closes it.
  pub read_loop-feed :
      (reads : Reads) (inbuf : List ℕ) (s : S)
      → length inbuf < inbuf_size
      → Fits reads inbuf s
      → settle (read_loop on_line on_full reads inbuf (length inbuf) s)
        ≡ and_then (feed on_line on_full (bytes_of reads) inbuf s) (closed (end_of reads))
  unfolding read_loop bytes_of end_of feed
  read_loop-feed (got bytes reads) inbuf s room fits =
      let r = after_read on_line on_full inbuf (length inbuf) bytes s in
      let end = closed (end_of reads) in
      let K : List ℕ → S → Step S = λ l t. and_then (fed (bytes_of reads) l t) end in
      subst
        (λ R.
          Ready R
          → UnlessOver (Fits reads) R R.flow
          → settle (
              unless_returned on_line on_full r
                (λ r'. read_loop on_line on_full reads r'.inbuf r'.scanned r'.state) r.flow)
            ≡ and_then R K)
        (after_read-feed inbuf bytes s room fits.0)
        (resumed reads K (λ l t h f. read_loop-feed reads l t h f) r r.flow refl)
        (feed-Ready bytes inbuf s room) fits.1
      ∙ sym (
          and_then_assoc (fed bytes inbuf s) (fed (bytes_of reads)) end (fed bytes inbuf s).flow
            refl)
      ∙ sym (ap (λ x. and_then x end) (feed-append on_line on_full bytes (bytes_of reads) inbuf s))
  read_loop-feed (eintr reads) inbuf s room fits = read_loop-feed reads inbuf s room fits
  read_loop-feed eagain inbuf s room fits = refl
  read_loop-feed failed inbuf s room fits = refl
  read_loop-feed eof inbuf s room fits = refl
