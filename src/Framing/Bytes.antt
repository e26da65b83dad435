-- ===== src/Framing/Bytes.antt =====
-- An independent description of communicate, which takes the client's bytes one at a time.
use the_socket_exchange.Prelude.{
  ℕ, ◌+◌, ◌≤◌, ◌<◌, ◌≡◌, refl, sym, ap, ◌∙◌, true, false, Bool-cases, inl, inr, List, [], ◌∷◌, ◌++◌,
  arith, line_feed, ◌==◌, if◌then◌else◌, length, length-append,
}
use the_socket_exchange.Config.{inbuf_size}
use the_socket_exchange.Framing.{
  Flow, continues, returns, Step, line_end, find_lines, emptied, check_full, compacted,
}

-- The bytes of a line so far, what the lines act on, and how the step ends.
abbrev pub step_of {ℓ} : {S : Type ℓ} → List ℕ → S × Flow → Step S
step_of line x = record { inbuf = line; scanned = length line; state = x.0; flow = x.1 }

abbrev pub and_then_at {ℓ} : {S : Type ℓ} → Step S → (List ℕ → S → Step S) → Flow → Step S
and_then_at r k continues = k r.inbuf r.state
and_then_at r k (returns result) = r

-- A step, and after it another unless it returned.
abbrev pub and_then {ℓ} : {S : Type ℓ} → Step S → (List ℕ → S → Step S) → Step S
and_then r k = and_then_at r k r.flow

abbrev pub settle_at {ℓ} : {S : Type ℓ} → Step S → Flow → Step S
settle_at r continues = r
settle_at r (returns result) = record r { inbuf = []; scanned = 0 }

-- A step less the buffer that a return leaves behind, which is never read again.
abbrev pub settle {ℓ} : {S : Type ℓ} → Step S → Step S
settle r = settle_at r r.flow

module _ {ℓ} {S : Type ℓ} where
  pub and_then_assoc :
      (r : Step S) (k j : List ℕ → S → Step S) (f : Flow)
      → r.flow ≡ f
      → and_then (and_then_at r k f) j ≡ and_then_at r (λ l s. and_then (k l s) j) f
  and_then_assoc r k j continues e = refl
  and_then_assoc r k j (returns result) e = ap (and_then_at r j) e

  and_then_ext :
      (r : Step S) (k j : List ℕ → S → Step S) (f : Flow)
      → ((l : List ℕ) (s : S) → k l s ≡ j l s)
      → and_then_at r k f ≡ and_then_at r j f
  and_then_ext r k j continues h = h r.inbuf r.state
  and_then_ext r k j (returns result) h = refl

module _ {ℓ} {S : Type ℓ} (on_line : List ℕ → S → S × Flow) (on_full : S → S × Flow) where
  -- One byte after the `line` so far: a newline completes it, and the last byte that the buffer
  -- can take makes it too long.
  unfoldable pub feed_byte : ℕ → List ℕ → S → Step S
  feed_byte b line s =
      if b == line_feed
      then step_of [] (on_line line s)
      else if length line + 1 == inbuf_size
      then step_of [] (on_full s)
      else step_of (line ++ b ∷ []) (s, continues)

  -- All the bytes, up to the first that ends the run.
  unfoldable pub feed : List ℕ → List ℕ → S → Step S
  feed [] line s = step_of line (s, continues)
  feed (b ∷ bs) line s = and_then (feed_byte b line s) (λ l t. feed bs l t)

  pub feed-append :
      (xs ys line : List ℕ) (s : S)
      → feed (xs ++ ys) line s ≡ and_then (feed xs line s) (λ l t. feed ys l t)
  unfolding feed
  feed-append [] ys line s = refl
  feed-append (x ∷ xs) ys line s =
      let r = feed_byte x line s in
      and_then_ext r (λ l t. feed (xs ++ ys) l t) (λ l t. and_then (feed xs l t) (feed ys)) r.flow
        (λ l t. feed-append xs ys l t)
      ∙ sym (and_then_assoc r (λ l t. feed xs l t) (feed ys) r.flow refl)

  -- The search of one read, up to the buffer that a return leaves behind.
  abbrev pub finish : List ℕ → ℕ → Step S → Step S
  finish all scanned r = settle (compacted on_line on_full all scanned r r.flow)

  line_done :
      (all : List ℕ) (n : ℕ) (bs : List ℕ) (x : S × Flow)
      → ((s : S) → finish all n (find_lines on_line on_full [] bs s) ≡ feed bs [] s)
      → finish all n (line_end on_line on_full (find_lines on_line on_full [] bs) bs x)
        ≡ and_then (step_of [] x) (feed bs)
  unfolding line_end compacted
  line_done all n bs (s, continues) ih = ih s
  line_done all n bs (s, returns result) ih = refl

  full_done :
      (r : Step S) (x : S × Flow)
      → settle (emptied on_line on_full r x) ≡ and_then (step_of [] x) (feed [])
  unfolding emptied feed
  full_done r (s, continues) = refl
  full_done r (s, returns result) = refl

  -- The last byte that the buffer can take.
  filled :
      (all : List ℕ) (n : ℕ) (bs line : List ℕ) (s : S)
      → length line ≡ inbuf_size
      → length bs ≤ 0
      → finish all n (find_lines on_line on_full line bs s)
        ≡ and_then (step_of [] (on_full s)) (feed bs)
  unfolding find_lines compacted check_full
  filled all n [] line s full none_left =
      let e : (length line == inbuf_size) ≡ true = ground arith in
      rw e (full_done (step_of line (s, continues)) (on_full s))
  filled all n (b ∷ bs) line s full none_left = absurd (omega arith)

  not_full :
      (all : List ℕ) (n : ℕ) (line : List ℕ) (s : S)
      → length line < inbuf_size
      → finish all n (find_lines on_line on_full line [] s) ≡ step_of line (s, continues)
  unfolding find_lines compacted check_full
  not_full all n line s room =
      let e : (length line == inbuf_size) ≡ false = ground arith in rw e refl

  pub find_lines-feed :
      (all : List ℕ) (n : ℕ) (bs line : List ℕ) (s : S)
      → length line < inbuf_size
      → length line + length bs ≤ inbuf_size
      → finish all n (find_lines on_line on_full line bs s) ≡ feed bs line s
  unfolding find_lines feed feed_byte
  find_lines-feed all n [] line s room fits = not_full all n line s room
  find_lines-feed all n (b ∷ bs) line s room fits = elim (Bool-cases (b == line_feed)) [
    | inl nl ↦
        rw (nl, find_lines, feed_byte)
          (line_done all n bs (on_line line s)
            (λ t. find_lines-feed all n bs [] t (omega arith) (omega arith)))
    | inr other ↦ elim (Bool-cases (length line + 1 == inbuf_size)) [
      | inl last ↦
          rw (other, last, find_lines, feed_byte)
            (filled all n bs (line ++ b ∷ []) s (ground (arith, length-append line (b ∷ [])))
              (ground arith))
      | inr more ↦
          rw (other, more, find_lines, feed_byte)
            (find_lines-feed all n bs (line ++ b ∷ []) s
              (ground (arith, length-append line (b ∷ [])))
              (ground (arith, length-append line (b ∷ []))))
    ]
  ]
