-- ===== src/Client/Lines.antt =====
-- Lines, and the bytes that they make on the wire.
use mathlib.Core.List.{append_assoc, append-nil}
use the_socket_exchange.Prelude.{
  ℕ, ◌+◌, ◌<◌, ◌≡◌, refl, sym, ap, subst, ◌∙◌, inl, inr, true, false, Bool-cases, List, [], ◌∷◌,
  ◌++◌, arith, line_feed, ◌==◌, length, length-append, All, All-append,
}

-- Each line and its newline.
unfoldable pub unlines : List (List ℕ) → List ℕ
unlines [] = []
unlines (l ∷ ls) = l ++ (line_feed ∷ unlines ls)

-- A text with no newline in it.
abbrev pub IsLine : List ℕ → Type 0
IsLine l = All (λ b. (b == line_feed) ≡ false) l

abbrev pub ShortLine : ℕ → List ℕ → Type 0
ShortLine n l = IsLine l × (length l < n)

-- The lines that are complete in a text, of which `line` has been read before.
unfoldable pub lines_after : (line rest : List ℕ) → List (List ℕ)
lines_after line [] = []
lines_after line (b ∷ bs) = elim (b == line_feed) [
  | true ↦ line ∷ lines_after [] bs
  | false ↦ lines_after (line ++ b ∷ []) bs
]

-- What follows the last of them.
unfoldable pub tail_after : (line rest : List ℕ) → List ℕ
tail_after line [] = line
tail_after line (b ∷ bs) = elim (b == line_feed) [
  | true ↦ tail_after [] bs
  | false ↦ tail_after (line ++ b ∷ []) bs
]

-- No line on the way, the unfinished one included, is as long as `n`.
unfoldable pub StaysShort : ℕ → (line rest : List ℕ) → Type 0
StaysShort n line [] = length line < n
StaysShort n line (b ∷ bs) = (length line < n) × (elim (b == line_feed) [
  | true ↦ StaysShort n [] bs
  | false ↦ StaysShort n (line ++ b ∷ []) bs
])

pub lines_after-append :
    (line xs ys : List ℕ)
    → lines_after line (xs ++ ys) ≡ lines_after line xs ++ lines_after (tail_after line xs) ys
unfolding lines_after tail_after
lines_after-append line [] ys = refl
lines_after-append line (x ∷ xs) ys = elim (Bool-cases (x == line_feed)) [
  | inl e ↦ rw (e, lines_after, tail_after) (ap (◌∷◌ line) (lines_after-append [] xs ys))
  | inr e ↦ rw (e, lines_after, tail_after) (lines_after-append (line ++ x ∷ []) xs ys)
]

pub tail_after-append :
    (line xs ys : List ℕ) → tail_after line (xs ++ ys) ≡ tail_after (tail_after line xs) ys
unfolding tail_after
tail_after-append line [] ys = refl
tail_after-append line (x ∷ xs) ys = elim (Bool-cases (x == line_feed)) [
  | inl e ↦ rw (e, tail_after) (tail_after-append [] xs ys)
  | inr e ↦ rw (e, tail_after) (tail_after-append (line ++ x ∷ []) xs ys)
]

pub StaysShort-append :
    (n : ℕ) (line xs ys : List ℕ)
    → StaysShort n line (xs ++ ys)
    → (length (tail_after line xs) < n) × StaysShort n (tail_after line xs) ys
unfolding StaysShort tail_after
StaysShort-append n line [] [] h = (h, h)
StaysShort-append n line [] (y ∷ ys) h = (h.0, h)
StaysShort-append n line (x ∷ xs) ys h = elim (Bool-cases (x == line_feed)) [
  | inl e ↦ rw (e, tail_after) (StaysShort-append n [] xs ys (rw (e, StaysShort) at h.1))
  | inr e ↦
      rw (e, tail_after) (StaysShort-append n (line ++ x ∷ []) xs ys (rw (e, StaysShort) at h.1))
]

-- A text without a newline goes on the line before it.
tail_after-line :
    (line l : List ℕ) → IsLine l → (lines_after line l ≡ []) × (tail_after line l ≡ line ++ l)
unfolding lines_after tail_after
tail_after-line line [] h = (refl, sym (append-nil line))
tail_after-line line (b ∷ l) h =
    let ih = tail_after-line (line ++ b ∷ []) l h.1 in
    rw (h.0, lines_after, tail_after) (ih.0, ih.1 ∙ append_assoc line (b ∷ []) l)

pub lines_after-unlines :
    (ls : List (List ℕ)) (t : List ℕ)
    → All IsLine ls
    → IsLine t
    → (lines_after [] (unlines ls ++ t) ≡ ls) × (tail_after [] (unlines ls ++ t) ≡ t)
unfolding unlines lines_after tail_after
lines_after-unlines [] t all last = tail_after-line [] t last
lines_after-unlines (l ∷ ls) t all last =
    let rest = unlines ls ++ t in
    let ih = lines_after-unlines ls t all.1 last in
    let line = tail_after-line [] l all.0 in
    let e : unlines (l ∷ ls) ++ t ≡ l ++ (line_feed ∷ rest) =
      append_assoc l (line_feed ∷ unlines ls) t in
    (
      rw (e, lines_after-append [] l (line_feed ∷ rest), line.0, line.1) (ap (◌∷◌ l) ih.0),
      rw (e, tail_after-append [] l (line_feed ∷ rest), line.1) ih.1,
    )

StaysShort-line :
    (n : ℕ) (line l rest : List ℕ)
    → IsLine l
    → length line + length l < n
    → StaysShort n (line ++ l) rest
    → StaysShort n line (l ++ rest)
unfolding StaysShort
StaysShort-line n line [] rest is_line short h =
    subst (λ x. StaysShort n x rest) (append-nil line) h
StaysShort-line n line (b ∷ l) rest is_line short h = (
  omega arith,
  rw (is_line.0, StaysShort)
      (StaysShort-line n (line ++ b ∷ []) l rest is_line.1
        (omega (arith, length-append line (b ∷ [])))
        (subst (λ x. StaysShort n x rest) (sym (append_assoc line (b ∷ []) l)) h)),
)

pub StaysShort-unlines :
    (n : ℕ) (ls : List (List ℕ)) (t : List ℕ)
    → All (ShortLine n) ls
    → ShortLine n t
    → StaysShort n [] (unlines ls ++ t)
unfolding unlines StaysShort
StaysShort-unlines n [] t all last =
    rw (← append-nil t) (StaysShort-line n [] t [] last.0 (omega (arith, last.1)) last.1)
StaysShort-unlines n (l ∷ ls) t all last =
    let rest = unlines ls ++ t in
    rw (append_assoc l (line_feed ∷ unlines ls) t) (
      StaysShort-line n [] l (line_feed ∷ rest) all.0.0 (omega (arith, all.0.1))
        (all.0.1, StaysShort-unlines n ls t all.1 last))

pub All-IsLine : (n : ℕ) (ls : List (List ℕ)) → All (ShortLine n) ls → All IsLine ls
All-IsLine n [] a = tt
All-IsLine n (l ∷ ls) a = (a.0.0, All-IsLine n ls a.1)

pub tail_after-IsLine : (line bs : List ℕ) → IsLine line → IsLine (tail_after line bs)
unfolding tail_after
tail_after-IsLine line [] h = h
tail_after-IsLine line (b ∷ bs) h = elim (Bool-cases (b == line_feed)) [
  | inl e ↦ rw (e, tail_after) (tail_after-IsLine [] bs tt)
  | inr e ↦
      rw (e, tail_after)
        (tail_after-IsLine (line ++ b ∷ []) bs
          (All-append (λ x. (x == line_feed) ≡ false) line (b ∷ []) h (e, tt)))
]

-- An unfinished line can be read again.
pub after_resumed :
    (line bs : List ℕ)
    → IsLine line
    → (lines_after [] (line ++ bs) ≡ lines_after line bs)
      × (tail_after [] (line ++ bs) ≡ tail_after line bs)
after_resumed line bs h =
    let l = tail_after-line [] line h in
    (rw (lines_after-append [] line bs, l.0, l.1), rw (tail_after-append [] line bs, l.1))
