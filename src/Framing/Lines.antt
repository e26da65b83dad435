-- ===== src/Framing/Lines.antt =====
-- communicate on whole lines.
use mathlib.Core.List.{append_assoc, append-nil}
use the_socket_exchange.Prelude.{
  ℕ, ◌+◌, ◌<◌, ◌≡◌, refl, sym, ap, ◌∙◌, false, List, [], ◌∷◌, ◌++◌, arith, line_feed, ◌==◌, length,
  length-append, All,
}
use the_socket_exchange.Config.{inbuf_size}
use the_socket_exchange.Client.Lines.{unlines, IsLine, ShortLine}
use the_socket_exchange.Framing.{Reads, Flow, continues, returns, Step, read_loop}
use the_socket_exchange.Framing.Bytes.{step_of, and_then, settle, feed_byte, feed, feed-append}
use the_socket_exchange.Framing.Chunks.{bytes_of, end_of, closed, Fits, read_loop-feed}

module _ {ℓ} {S : Type ℓ} (on_line : List ℕ → S → S × Flow) where
  abbrev next_lines : (S → S × Flow) → S × Flow → S × Flow
  next_lines next (s, continues) = next s
  next_lines next (s, returns result) = (s, returns result)

  -- Lines one after the other, up to the first that ends the run.
  unfoldable pub run_lines : List (List ℕ) → S → S × Flow
  run_lines [] s = (s, continues)
  run_lines (l ∷ ls) s = next_lines (run_lines ls) (on_line l s)

-- What lines and the beginning of one more leave.
abbrev pub after_lines {ℓ} : {S : Type ℓ} → List ℕ → S × Flow → Step S
after_lines t (s, continues) = step_of t (s, continues)
after_lines t (s, returns result) = step_of [] (s, returns result)

module _ {ℓ} {S : Type ℓ} (on_line : List ℕ → S → S × Flow) (on_full : S → S × Flow) where
  -- Bytes without a newline are collected.
  feed-collects :
      (bs line : List ℕ) (s : S)
      → IsLine bs
      → length line + length bs < inbuf_size
      → feed on_line on_full bs line s ≡ step_of (line ++ bs) (s, continues)
  unfolding feed feed_byte
  feed-collects [] line s is_line fits = ap (λ l. step_of l (s, continues)) (sym (append-nil line))
  feed-collects (b ∷ bs) line s is_line fits =
      let room : (length line + 1 == inbuf_size) ≡ false = ground arith in
      rw (is_line.0, room)
        (feed-collects bs (line ++ b ∷ []) s is_line.1
            (omega (arith, fits, length-append line (b ∷ [])))
          ∙ ap (λ l. step_of l (s, continues)) (append_assoc line (b ∷ []) bs))

  -- A line, its newline, and what comes behind.
  feed-line :
      (l rest : List ℕ) (s : S)
      → ShortLine inbuf_size l
      → feed on_line on_full (l ++ line_feed ∷ rest) [] s
        ≡ and_then (step_of [] (on_line l s)) (λ k t. feed on_line on_full rest k t)
  unfolding feed feed_byte
  feed-line l rest s short =
      feed-append on_line on_full l (line_feed ∷ rest) [] s
      ∙ ap (λ r. and_then r (λ k t. feed on_line on_full (line_feed ∷ rest) k t))
          (feed-collects l [] s short.0 (omega (arith, short.1)))

  -- What follows a line, if that goes on.
  followed :
      (rest t : List ℕ) (next : S → S × Flow) (x : S × Flow)
      → ((u : S) → feed on_line on_full rest [] u ≡ after_lines t (next u))
      → and_then (step_of [] x) (λ k u. feed on_line on_full rest k u)
        ≡ after_lines t (next_lines on_line next x)
  followed rest t next (u, continues) ih = ih u
  followed rest t next (u, returns result) ih = refl

  feed-lines :
      (ls : List (List ℕ)) (t : List ℕ) (s : S)
      → All (ShortLine inbuf_size) ls
      → ShortLine inbuf_size t
      → feed on_line on_full (unlines ls ++ t) [] s ≡ after_lines t (run_lines on_line ls s)
  unfolding unlines run_lines
  feed-lines [] t s short last = feed-collects t [] s last.0 (omega (arith, last.1))
  feed-lines (l ∷ ls) t s short last =
      ap (λ bs. feed on_line on_full bs [] s) (append_assoc l (line_feed ∷ unlines ls) t)
      ∙ feed-line l (unlines ls ++ t) s short.0
      ∙ followed (unlines ls ++ t) t (run_lines on_line ls) (on_line l s)
          (λ u. feed-lines ls t u short.1 last)

  -- From an empty buffer, when the socket delivers lines shorter than the buffer, and perhaps the
  -- beginning of one more, the loop of communicate gives exactly these lines, in order, to the
  -- code for a line, up to the first that ends the run; it never takes the buffer for full, and
  -- keeps the beginning: however the bytes are cut into reads of at most the room that is left, and
  -- however often one is interrupted.
  pub read_loop-lines :
      (reads : Reads) (ls : List (List ℕ)) (t : List ℕ) (s : S)
      → bytes_of reads ≡ unlines ls ++ t
      → All (ShortLine inbuf_size) ls
      → ShortLine inbuf_size t
      → Fits on_line on_full reads [] s
      → settle (read_loop on_line on_full reads [] 0 s)
        ≡ and_then (after_lines t (run_lines on_line ls s)) (closed on_line on_full (end_of reads))
  read_loop-lines reads ls t s same short last fits =
      read_loop-feed on_line on_full reads [] s (omega arith) fits
      ∙ ap (λ r. and_then r (closed on_line on_full (end_of reads)))
          (ap (λ bs. feed on_line on_full bs [] s) same ∙ feed-lines ls t s short last)
