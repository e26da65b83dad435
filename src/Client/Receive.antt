-- ===== src/Client/Receive.antt =====
-- What a client prints of what the server sends it.
use mathlib.Core.List.{append_assoc, append-nil, map-append}
use the_socket_exchange.Prelude.{
  ℕ, ◌<◌, ◌≡◌, refl, sym, ap, ◌∙◌, inl, inr, Bool, true, false, Bool-cases, List, [], ◌∷◌, ◌++◌,
  none, some, map, arith, line_feed, carriage_return, ◌==◌, length, All, All-append, All-map,
}
use the_socket_exchange.Output.{WriteAnswer}
use the_socket_exchange.Framing.{c_string, strip_cr}
use the_socket_exchange.Client.{
  Client, recvbuf_size, printed, show, drain_loop, drain_responses, got, from_server, from_input,
  poll_round, Polls, ready, waits, typed, communicate,
}
use the_socket_exchange.Client.Lines.{
  unlines, IsLine, ShortLine, after_resumed, tail_after-IsLine, lines_after, tail_after, StaysShort,
  lines_after-append, tail_after-append, StaysShort-append, lines_after-unlines, StaysShort-unlines,
  All-IsLine,
}

pub drain_loop_lem :
    (line bs : List ℕ) (c : Client)
    → drain_loop line bs c ≡ record c {
      recvbuf = tail_after line bs;
      shown = c.shown ++ map printed (lines_after line bs);
    }
unfolding drain_loop tail_after lines_after
drain_loop_lem line [] c =
    ap (λ s. record c { recvbuf = line; shown = s }) (sym (append-nil c.shown))
drain_loop_lem line (b ∷ bs) c = elim (Bool-cases (b == line_feed)) [
  | inl e ↦
      rw (e, drain_loop, tail_after, lines_after)
        (drain_loop_lem [] bs (show (printed line) c)
          ∙ ap (λ s. record c { recvbuf = tail_after [] bs; shown = s })
              (append_assoc c.shown (printed line ∷ []) (map printed (lines_after [] bs))))
  | inr e ↦ rw (e, drain_loop, tail_after, lines_after) (drain_loop_lem (line ++ b ∷ []) bs c)
]

-- Pieces of what the server sends, with nothing typed meanwhile.
unfoldable pub arrivals : List (List ℕ) → Polls
arrivals [] = waits
arrivals (bytes ∷ pieces) = ready (some (got bytes)) none (arrivals pieces)

unfoldable pub concat : List (List ℕ) → List ℕ
concat [] = []
concat (bytes ∷ pieces) = bytes ++ concat pieces

-- What a read of these bytes makes of the client.
abbrev received : Client → List ℕ → Client
received c bytes = record c {
  recvbuf = tail_after c.recvbuf bytes;
  shown = c.shown ++ map printed (lines_after c.recvbuf bytes);
}

typed-none : (b : Bool) → typed b none ≡ none
typed-none true = refl
typed-none false = refl

from_server-received :
    (bytes : List ℕ) (c : Client)
    → IsLine c.recvbuf
    → length (tail_after c.recvbuf bytes) < recvbuf_size
    → from_server (some (got bytes)) c ≡ (received c bytes, false)
unfolding from_server drain_responses
from_server-received bytes c is_line short =
    let d = record c { recvbuf = c.recvbuf ++ bytes } in
    let again = after_resumed c.recvbuf bytes is_line in
    let e : drain_loop [] (c.recvbuf ++ bytes) d ≡ received c bytes =
      drain_loop_lem [] (c.recvbuf ++ bytes) d
      ∙ ap
          (λ ls. record c {
            recvbuf = tail_after [] (c.recvbuf ++ bytes);
            shown = c.shown ++ map printed ls;
          })
          again.0
      ∙ ap
          (λ t. record c {
            recvbuf = t;
            shown = c.shown ++ map printed (lines_after c.recvbuf bytes);
          })
          again.1 in
    let room : (length (tail_after c.recvbuf bytes) == recvbuf_size) ≡ false = ground arith in
    rw (e, room)

-- A text of the server, and whether a carriage return stands before the newline.
abbrev pub on_wire : List ℕ × Bool → List ℕ
on_wire (text, true) = text ++ carriage_return ∷ []
on_wire (text, false) = text

abbrev pub IsText : List ℕ → Type 0
IsText =
    All (λ b. ((b == line_feed) ≡ false) × ((b == carriage_return) ≡ false) × ((b == 0) ≡ false))

IsLine-text : (l : List ℕ) → IsText l → IsLine l
IsLine-text l =
    All-map
      (λ b. ((b == line_feed) ≡ false) × ((b == carriage_return) ≡ false) × ((b == 0) ≡ false))
      (λ b. (b == line_feed) ≡ false) l (λ b p. p.0)

IsLine-on_wire : (l : List ℕ × Bool) → IsText l.0 → IsLine (on_wire l)
IsLine-on_wire (text, true) h =
    All-append (λ b. (b == line_feed) ≡ false) text (carriage_return ∷ []) (IsLine-text text h)
      (refl, tt)
IsLine-on_wire (text, false) h = IsLine-text text h

c_string_text : (l : List ℕ) → IsText l → c_string l ≡ l
unfolding c_string
c_string_text [] h = refl
c_string_text (b ∷ l) h = rw (h.0.2, c_string_text l h.1) refl

strip_cr_text : (l : List ℕ) → IsText l → strip_cr l ≡ l
unfolding strip_cr
strip_cr_text [] h = refl
strip_cr_text (b ∷ []) h = rw (h.0.1) refl
strip_cr_text (b ∷ d ∷ l) h = ap (λ t. b ∷ t) (strip_cr_text (d ∷ l) h.1)

strip_cr-carriage_return : (l : List ℕ) → strip_cr (l ++ carriage_return ∷ []) ≡ l
unfolding strip_cr
strip_cr-carriage_return [] = refl
strip_cr-carriage_return (b ∷ []) = refl
strip_cr-carriage_return (b ∷ d ∷ l) = ap (λ t. b ∷ t) (strip_cr-carriage_return (d ∷ l))

-- What printf shows of a line is the text.
printed_text : (l : List ℕ × Bool) → IsText l.0 → printed (on_wire l) ≡ l.0
unfolding printed
printed_text (text, true) h = ap c_string (strip_cr-carriage_return text) ∙ c_string_text text h
printed_text (text, false) h = ap c_string (strip_cr_text text h) ∙ c_string_text text h

abbrev Printable : List (List ℕ × Bool) → Type 0
Printable = All (λ l. IsText l.0 × (length (on_wire l) < recvbuf_size))

printed-on_wire :
    (ls : List (List ℕ × Bool)) → Printable ls → map printed (map on_wire ls) ≡ map (λ l. l.0) ls
printed-on_wire [] h = refl
printed-on_wire (l ∷ ls) h = rw (printed_text l h.0.0, printed-on_wire ls h.1) refl

All-on_wire :
    (ls : List (List ℕ × Bool)) → Printable ls → All (ShortLine recvbuf_size) (map on_wire ls)
All-on_wire [] h = tt
All-on_wire (l ∷ ls) h = ((IsLine-on_wire l h.0.0, h.0.1), All-on_wire ls h.1)

module _ (write : ℕ → List ℕ → WriteAnswer) where
  poll_round-received :
      (bytes : List ℕ) (c : Client)
      → IsLine c.recvbuf
      → length (tail_after c.recvbuf bytes) < recvbuf_size
      → poll_round write (some (got bytes)) none c ≡ (received c bytes, false)
  unfolding poll_round from_input
  poll_round-received bytes c is_line short =
      rw (from_server-received bytes c is_line short) (rw (typed-none c.half_closed))

  communicate-arrivals :
      (pieces : List (List ℕ)) (c : Client)
      → IsLine c.recvbuf
      → StaysShort recvbuf_size c.recvbuf (concat pieces)
      → communicate write (arrivals pieces) c ≡ (received c (concat pieces), false)
  unfolding communicate arrivals concat lines_after tail_after
  communicate-arrivals [] c is_line short =
      ap (λ s. (record c { shown = s }, false)) (sym (append-nil c.shown))
  communicate-arrivals (bytes ∷ pieces) c is_line short =
      let rest = concat pieces in
      let next = StaysShort-append recvbuf_size c.recvbuf bytes rest short in
      rw (poll_round-received bytes c is_line next.0) (
        communicate-arrivals pieces (received c bytes) (tail_after-IsLine c.recvbuf bytes is_line)
          next.1
        ∙ ap
            (λ t. (
              record c {
                recvbuf = t;
                shown =
                    (c.shown ++ map printed (lines_after c.recvbuf bytes))
                    ++ map printed (lines_after (tail_after c.recvbuf bytes) rest);
              },
              false,
            ))
            (sym (tail_after-append c.recvbuf bytes rest))
        ∙ ap (λ s. (record c { recvbuf = tail_after c.recvbuf (bytes ++ rest); shown = s }, false))
            (append_assoc c.shown (map printed (lines_after c.recvbuf bytes))
                (map printed (lines_after (tail_after c.recvbuf bytes) rest))
              ∙ ap (◌++◌ c.shown) (
                  sym (
                    map-append printed (lines_after c.recvbuf bytes)
                      (lines_after (tail_after c.recvbuf bytes) rest))
                  ∙ ap (map printed) (sym (lines_after-append c.recvbuf bytes rest)))))

  communicate-printed :
      (pieces ls : List (List ℕ)) (t : List ℕ) (c : Client)
      → c.recvbuf ≡ []
      → concat pieces ≡ unlines ls ++ t
      → All (ShortLine recvbuf_size) ls
      → ShortLine recvbuf_size t
      → communicate write (arrivals pieces) c
        ≡ (record c { recvbuf = t; shown = c.shown ++ map printed ls }, false)
  communicate-printed pieces ls t c empty same short last =
      let cut = lines_after-unlines ls t (All-IsLine recvbuf_size ls short) last.0 in
      communicate-arrivals pieces c (rw empty tt)
        (rw (empty, same) (StaysShort-unlines recvbuf_size ls t short last))
      ∙ rw (empty, same, cut.0, cut.1)

  -- A client with an empty receive buffer that gets lines from the server, each a text without
  -- carriage returns, newlines and terminators, with a carriage return behind it or not, of less
  -- than 128 bytes before the newline, and perhaps the beginning of one more line, shorter than 128
  -- bytes, prints exactly these texts, in order, keeps the beginning, changes nothing else and goes
  -- on, however the bytes are cut into reads, when nothing is typed meanwhile.
  pub communicate-lines :
      (pieces : List (List ℕ)) (ls : List (List ℕ × Bool)) (t : List ℕ) (c : Client)
      → c.recvbuf ≡ []
      → concat pieces ≡ unlines (map on_wire ls) ++ t
      → All (λ l. IsText l.0 × (length (on_wire l) < recvbuf_size)) ls
      → ShortLine recvbuf_size t
      → communicate write (arrivals pieces) c
        ≡ (record c { recvbuf = t; shown = c.shown ++ map (λ l. l.0) ls }, false)
  communicate-lines pieces ls t c empty same texts last =
      communicate-printed pieces (map on_wire ls) t c empty same (All-on_wire ls texts) last
      ∙ ap (λ s. (record c { recvbuf = t; shown = c.shown ++ s }, false)) (printed-on_wire ls texts)
