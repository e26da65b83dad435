-- ===== src/Client/Typing.antt =====
-- An independent description of a client's input, one byte at a time.
use mathlib.Core.List.{append_assoc, append-nil}
use the_socket_exchange.Prelude.{
  ℕ, ◌+◌, ◌≤◌, ◌<◌, ◌≡◌, refl, sym, ap, ◌∙◌, inl, inr, Bool, true, false, Bool-cases, ◌&&◌, List,
  [], ◌∷◌, ◌++◌, arith, line_feed, ltb, ◌==◌, if◌then◌else◌, if_elim, length, length-append, All,
  All-append,
}
use the_socket_exchange.Client.{buffer_size}
use the_socket_exchange.Client.Lines.{unlines, IsLine}

-- The line so far, whether it is being dropped, whether the input has ended, and all that was sent.
pub record Typing : Type 0 where
  pub line : List ℕ
  pub discarding : Bool
  pub half_closed : Bool
  pub sent : List ℕ

-- A line that is complete goes out, unless it is empty or the rest of one that was too long.
unfoldable pub finish : Typing → Typing
finish k =
    if k.discarding
    then record k { line = []; discarding = false }
    else if ltb 0 (length k.line)
    then record k { line = []; sent = k.sent ++ (k.line ++ line_feed ∷ []) }
    else record k { line = [] }

unfoldable pub type_byte : ℕ → Typing → Typing
unfolding finish
type_byte b k =
    if b == line_feed
    then finish k
    else if length k.line + 1 == buffer_size
    then record k { line = []; discarding = true }
    else record k { line = k.line ++ b ∷ [] }

unfoldable pub type_all : List ℕ → Typing → Typing
type_all [] k = k
type_all (b ∷ bs) k = type_all bs (type_byte b k)

-- A line that the buffer has room for, and that is not empty.
abbrev pub is_sendable : List ℕ → Bool
is_sendable l = ltb 0 (length l) && ltb (length l) buffer_size

unfoldable pub sendable : List (List ℕ) → List (List ℕ)
sendable [] = []
sendable (l ∷ ls) = if is_sendable l then l ∷ sendable ls else sendable ls

pub type_all-append :
    (xs ys : List ℕ) (k : Typing) → type_all (xs ++ ys) k ≡ type_all ys (type_all xs k)
unfolding type_all
type_all-append [] ys k = refl
type_all-append (x ∷ xs) ys k = type_all-append xs ys (type_byte x k)

-- The line so far has no newline and fits the buffer with room for a byte.
abbrev pub Roomy : Typing → Type 0
Roomy k = IsLine k.line × (length k.line < buffer_size)

finish-Roomy : (k : Typing) → Roomy (finish k)
unfolding finish
finish-Roomy k =
    if_elim Roomy k.discarding (λ _. (tt, omega arith))
      λ _. if_elim Roomy (ltb 0 (length k.line)) (λ _. (tt, omega arith)) (λ _. (tt, omega arith))

type_byte-Roomy : (b : ℕ) (k : Typing) → Roomy k → Roomy (type_byte b k)
unfolding type_byte finish
type_byte-Roomy b k h = elim (Bool-cases (b == line_feed)) [
  | inl e ↦ rw (e, type_byte) (finish-Roomy k)
  | inr e ↦ elim (Bool-cases (length k.line + 1 == buffer_size)) [
    | inl full ↦ rw (e, full, type_byte) (tt, omega arith)
    | inr more ↦
        rw (e, more, type_byte)
          (
            All-append (λ x. (x == line_feed) ≡ false) k.line (b ∷ []) h.0 (e, tt),
            ground (arith, length-append k.line (b ∷ []), h.1),
          )
  ]
]

pub type_all-Roomy : (bs : List ℕ) (k : Typing) → Roomy k → Roomy (type_all bs k)
unfolding type_all
type_all-Roomy [] k h = h
type_all-Roomy (b ∷ bs) k h = type_all-Roomy bs (type_byte b k) (type_byte-Roomy b k h)

-- A text without a newline that fits.
pub type_all-line :
    (l : List ℕ) (k : Typing)
    → IsLine l
    → length k.line + length l < buffer_size
    → type_all l k ≡ record k { line = k.line ++ l }
unfolding type_all type_byte
type_all-line [] k h fits = ap (λ l. record k { line = l }) (sym (append-nil k.line))
type_all-line (b ∷ l) k h fits =
    let more : (length k.line + 1 == buffer_size) ≡ false = ground arith in
    rw (h.0, more, type_byte)
      (type_all-line l (record k { line = k.line ++ b ∷ [] }) h.1
          (omega (arith, length-append k.line (b ∷ [])))
        ∙ ap (λ l. record k { line = l }) (append_assoc k.line (b ∷ []) l))

-- Any text without a newline: only the line changes, and what is dropped stays dropped.
type_all-dropping :
    (l : List ℕ) (k : Typing)
    → IsLine l
    → k.discarding ≡ true
    → (line : List ℕ) × (type_all l k ≡ record k { line = line })
unfolding type_all type_byte
type_all-dropping [] k h on = (k.line, refl)
type_all-dropping (b ∷ l) k h on = elim (Bool-cases (length k.line + 1 == buffer_size)) [
  | inl full ↦
      let (line, e) = type_all-dropping l (record k { line = []; discarding = true }) h.1 refl in
      (
        line,
        rw (h.0, full, type_byte) (e ∙ ap (λ d. record k { line = line; discarding = d }) (sym on)),
      )
  | inr more ↦
      let (line, e) = type_all-dropping l (record k { line = k.line ++ b ∷ [] }) h.1 on in
      (line, rw (h.0, more, type_byte) e)
]

type_all-long :
    (l : List ℕ) (k : Typing)
    → IsLine l
    → length k.line < buffer_size
    → buffer_size ≤ length k.line + length l
    → (line : List ℕ) × (type_all l k ≡ record k { line = line; discarding = true })
unfolding type_all type_byte
type_all-long [] k h room long = absurd (ground arith)
type_all-long (b ∷ l) k h room long = elim (Bool-cases (length k.line + 1 == buffer_size)) [
  | inl full ↦
      let (line, e) = type_all-dropping l (record k { line = []; discarding = true }) h.1 refl in
      (line, rw (h.0, full, type_byte) e)
  | inr more ↦
      let (line, e) =
        type_all-long l (record k { line = k.line ++ b ∷ [] }) h.1
          (ground (arith, length-append k.line (b ∷ [])))
          (ground (arith, length-append k.line (b ∷ []))) in
      (line, rw (h.0, more, type_byte) e)
]

abbrev pub start : Bool → List ℕ → Typing
start half_closed sent = record {
  line = [];
  discarding = false;
  half_closed = half_closed;
  sent = sent;
}

finish_whole :
    (l : List ℕ) (hc : Bool) (sent : List ℕ)
    → length l < buffer_size
    → finish (record (start hc sent) { line = l })
      ≡ start hc (if is_sendable l then sent ++ (l ++ line_feed ∷ []) else sent)
unfolding finish
finish_whole l hc sent short = elim (Bool-cases (ltb 0 (length l))) [
  | inl some_byte ↦ let s : ltb (length l) buffer_size ≡ true = ground arith in rw (some_byte, s)
  | inr empty ↦ rw empty
]

finish_dropped :
    (l line : List ℕ) (hc : Bool) (sent : List ℕ)
    → buffer_size ≤ length l
    → finish (record (start hc sent) { line = line; discarding = true })
      ≡ start hc (if is_sendable l then sent ++ (l ++ line_feed ∷ []) else sent)
unfolding finish
finish_dropped l line hc sent long = let s : is_sendable l ≡ false = ground arith in rw s

type_one :
    (l : List ℕ) (hc : Bool) (sent : List ℕ)
    → IsLine l
    → type_all (l ++ line_feed ∷ []) (start hc sent)
      ≡ start hc (if is_sendable l then sent ++ (l ++ line_feed ∷ []) else sent)
unfolding type_all type_byte
type_one l hc sent h = elim (Bool-cases (ltb (length l) buffer_size)) [
  | inl short ↦
      type_all-append l (line_feed ∷ []) (start hc sent)
      ∙ ap finish (type_all-line l (start hc sent) h (ground arith))
      ∙ finish_whole l hc sent (ground arith)
  | inr long ↦
      let (line, e) = type_all-long l (start hc sent) h (omega arith) (ground arith) in
      type_all-append l (line_feed ∷ []) (start hc sent)
      ∙ ap finish e
      ∙ finish_dropped l line hc sent (ground arith)
]

unlines-sendable :
    (l : List ℕ) (ls : List (List ℕ)) (sent : List ℕ)
    → (if is_sendable l then sent ++ (l ++ line_feed ∷ []) else sent) ++ unlines (sendable ls)
      ≡ sent ++ unlines (sendable (l ∷ ls))
unfolding sendable unlines
unlines-sendable l ls sent = elim (Bool-cases (is_sendable l)) [
  | inl e ↦ rw e (
      append_assoc sent (l ++ line_feed ∷ []) (unlines (sendable ls))
      ∙ ap (◌++◌ sent) (append_assoc l (line_feed ∷ []) (unlines (sendable ls))))
  | inr e ↦ rw e
]

-- Complete lines go out, unless they are empty or too long; then the rest is typed.
pub type_all-unlines :
    (ls : List (List ℕ)) (t : List ℕ) (hc : Bool) (sent : List ℕ)
    → All IsLine ls
    → type_all (unlines ls ++ t) (start hc sent)
      ≡ type_all t (start hc (sent ++ unlines (sendable ls)))
unfolding unlines sendable
type_all-unlines [] t hc sent h = ap (λ s. type_all t (start hc s)) (sym (append-nil sent))
type_all-unlines (l ∷ ls) t hc sent h =
    let rest = unlines ls ++ t in
    let grown : List ℕ = if is_sendable l then sent ++ (l ++ line_feed ∷ []) else sent in
    let e : unlines (l ∷ ls) ++ t ≡ (l ++ line_feed ∷ []) ++ rest =
      append_assoc l (line_feed ∷ unlines ls) t ∙ sym (append_assoc l (line_feed ∷ []) rest) in
    ap (λ bs. type_all bs (start hc sent)) e
    ∙ type_all-append (l ++ line_feed ∷ []) rest (start hc sent)
    ∙ ap (type_all rest) (type_one l hc sent h.0)
    ∙ type_all-unlines ls t hc grown h.1
    ∙ ap (λ s. type_all t (start hc s)) (unlines-sendable l ls sent)

type_byte-sent : (b : ℕ) (k : Typing) → (b == line_feed) ≡ false → (type_byte b k).sent ≡ k.sent
unfolding type_byte
type_byte-sent b k other = elim (Bool-cases (length k.line + 1 == buffer_size)) [
  | inl full ↦ rw (other, full, type_byte)
  | inr more ↦ rw (other, more, type_byte)
]

-- Without a newline nothing goes out.
pub type_all-sent : (l : List ℕ) (k : Typing) → IsLine l → (type_all l k).sent ≡ k.sent
unfolding type_all
type_all-sent [] k h = refl
type_all-sent (b ∷ l) k h = type_all-sent l (type_byte b k) h.1 ∙ type_byte-sent b k h.0

type_byte-half_closed : (b : ℕ) (k : Typing) → (type_byte b k).half_closed ≡ k.half_closed
unfolding type_byte finish
type_byte-half_closed b k = ground arith

pub type_all-half_closed : (bs : List ℕ) (k : Typing) → (type_all bs k).half_closed ≡ k.half_closed
unfolding type_all
type_all-half_closed [] k = refl
type_all-half_closed (b ∷ bs) k =
    type_all-half_closed bs (type_byte b k) ∙ type_byte-half_closed b k
