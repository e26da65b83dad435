-- ===== src/Scan.antt =====
-- What the server uses of C's number and token scanning: strtol in base 10, and sscanf with the
-- format "%159s %159s %d %d" of processLine.
pub mod Decimal
use the_socket_exchange.Prelude.{
  ℕ, zero, suc, ◌+◌, ◌-◌, ◌*◌, ℤ, pos, negsuc, Bool, ◌&&◌, ◌||◌, List, [], ◌∷◌, Option, none, some,
  leb, ◌==◌, if◌then◌else◌, min,
}
use the_socket_exchange.Config.{max_token_len}

abbrev pub is_space : ℕ → Bool
is_space c = c == 32 || (leb 9 c && leb c 13)

abbrev pub is_digit : ℕ → Bool
is_digit c = leb b'0' c && leb c b'9'

-- Both conversions skip white space first.
unfoldable pub skip_space : List ℕ → List ℕ
skip_space [] = []
skip_space (c ∷ cs) = let rest = skip_space cs in if is_space c then rest else c ∷ cs

-- The digits at the front, as a number, and what follows them.
unfoldable pub digits_loop : ℕ → List ℕ → ℕ × List ℕ
digits_loop value [] = (value, [])
digits_loop value (c ∷ cs) =
    let rest = digits_loop (value * 10 + (c - b'0')) cs in
    if is_digit c then rest else (value, c ∷ cs)

unfoldable pub unsigned : List ℕ → Option (ℕ × List ℕ)
unfolding digits_loop
unsigned [] = none
unsigned (c ∷ cs) = if is_digit c then some (digits_loop 0 (c ∷ cs)) else none

abbrev pub negative : ℕ → ℤ
negative zero = pos zero
negative (suc n) = negsuc n

abbrev pub signed : (ℕ → ℤ) → Option (ℕ × List ℕ) → Option (ℤ × List ℕ)
signed sign none = none
signed sign (some (n, rest)) = some (sign n, rest)

-- A sign and digits: the number and what follows it, or `none` if there is no number.
unfoldable pub number : List ℕ → Option (ℤ × List ℕ)
unfolding unsigned
number [] = none
number (c ∷ cs) =
    if c == b'-'
    then signed negative (unsigned cs)
    else if c == b'+'
    then signed pos (unsigned cs)
    else signed pos (unsigned (c ∷ cs))

abbrev pub long_max : ℕ
long_max = 0x7fff_ffff_ffff_ffff

abbrev pub clamp_long : ℤ → ℤ
clamp_long (pos n) = pos (min n long_max)
clamp_long (negsuc n) = negsuc (min n long_max)

abbrev pub clamped : Option (ℤ × List ℕ) → Option (ℤ × List ℕ)
clamped none = none
clamped (some (n, rest)) = some (clamp_long n, rest)

-- strtol(s, &end, 10): the value, clamped to a long, and the text at `end`; `none` if there is no
-- number, where `end` is `s`.
unfoldable pub strtol : List ℕ → Option (ℤ × List ℕ)
unfolding number skip_space
strtol s = clamped (number (skip_space s))

-- The characters of one %159s, the first of which is not white space.
unfoldable pub token_loop : ℕ → List ℕ → List ℕ × List ℕ
token_loop zero cs = ([], cs)
token_loop (suc width) [] = ([], [])
token_loop (suc width) (c ∷ cs) =
    let rest = token_loop width cs in if is_space c then ([], c ∷ cs) else (c ∷ rest.0, rest.1)

unfoldable pub token : List ℕ → Option (List ℕ × List ℕ)
unfolding token_loop skip_space
token s = elim (skip_space s) [ [] ↦ none | c ∷ cs ↦ some (token_loop max_token_len (c ∷ cs)) ]

-- One %d: the number, before it is stored in an int.
unfoldable pub scan_int : List ℕ → Option (ℤ × List ℕ)
unfolding number skip_space
scan_int s = number (skip_space s)

-- The conversions that sscanf made, and so the value of `matched`.
pub data Scanned : Type 0 where
  nothing : Scanned
  one : List ℕ → Scanned
  two : List ℕ → List ℕ → Scanned
  three : List ℕ → List ℕ → ℤ → Scanned
  four : List ℕ → List ℕ → ℤ → ℤ → Scanned

abbrev pub scan_price : List ℕ → List ℕ → ℤ → Option (ℤ × List ℕ) → Scanned
scan_price cmd arg quantity none = three cmd arg quantity
scan_price cmd arg quantity (some (price, rest)) = four cmd arg quantity price

abbrev pub scan_quantity : List ℕ → List ℕ → Option (ℤ × List ℕ) → Scanned
scan_quantity cmd arg none = two cmd arg
scan_quantity cmd arg (some (quantity, rest)) = scan_price cmd arg quantity (scan_int rest)

abbrev pub scan_arg : List ℕ → Option (List ℕ × List ℕ) → Scanned
scan_arg cmd none = one cmd
scan_arg cmd (some (arg, rest)) = scan_quantity cmd arg (scan_int rest)

abbrev pub scan_cmd : Option (List ℕ × List ℕ) → Scanned
scan_cmd none = nothing
scan_cmd (some (cmd, rest)) = scan_arg cmd (token rest)

unfoldable pub sscanf : List ℕ → Scanned
unfolding token scan_int
sscanf line = scan_cmd (token line)
