-- ===== src/Scan/Decimal.antt =====
-- A number as the server prints it, and as it reads it.
use the_socket_exchange.Prelude.{
  ℕ, zero, suc, ◌+◌, ◌-◌, ◌*◌, ◌/◌, ◌%◌, ◌<◌, ◌≤◌, ◌≡◌, refl, sym, ap, ◌∙◌, inl, inr, pos, true,
  false, Bool-cases, List, [], ◌∷◌, some, arith, ltb, ◌==◌, min, decimal_loop, decimal, length, All,
}
use the_socket_exchange.Scan.{
  is_space, is_digit, skip_space, digits_loop, unsigned, signed, number, long_max, clamped, strtol,
}

digits_loop-digit :
    (value k : ℕ) (acc : List ℕ)
    → k < 10
    → digits_loop value ((48 + k) ∷ acc) ≡ digits_loop (value * 10 + k) acc
unfolding digits_loop
digits_loop-digit value k acc small =
    let d : is_digit (48 + k) ≡ true = ground arith in
    let e : (48 + k) - 48 ≡ k = omega arith in rw (d, e) refl

-- Reading the digits of `n` from the front gives `n`, and goes on with what follows them.
digits_loop-decimal_loop :
    (fuel n : ℕ) (acc : List ℕ)
    → n < fuel
    → digits_loop 0 (decimal_loop fuel n acc) ≡ digits_loop n acc
unfolding decimal_loop
digits_loop-decimal_loop zero n acc enough = absurd (omega arith)
digits_loop-decimal_loop (suc fuel) n acc enough = elim (Bool-cases (ltb n 10)) [
  | inl one ↦
      rw (one, decimal_loop)
        (digits_loop-digit 0 n acc (ground arith) ∙ ap (λ m. digits_loop m acc) (omega arith))
  | inr more ↦
      rw (more, decimal_loop)
        (digits_loop-decimal_loop fuel (n / 10) ((48 + n % 10) ∷ acc) (ground arith)
          ∙ digits_loop-digit (n / 10) (n % 10) acc (omega arith)
          ∙ ap (λ m. digits_loop m acc) (omega arith))
]

-- A text that begins with a digit.
abbrev StartsWithDigit : List ℕ → Type 0
StartsWithDigit cs = (c : ℕ) × (rest : List ℕ) × (cs ≡ c ∷ rest) × (is_digit c ≡ true)

decimal_loop-StartsWithDigit :
    (fuel n : ℕ) (acc : List ℕ) → n < fuel → StartsWithDigit (decimal_loop fuel n acc)
unfolding decimal_loop
decimal_loop-StartsWithDigit zero n acc enough = absurd (omega arith)
decimal_loop-StartsWithDigit (suc fuel) n acc enough = elim (Bool-cases (ltb n 10)) [
  | inl one ↦ rw (one, decimal_loop) (48 + n, acc, refl, ground arith)
  | inr more ↦
      rw (more, decimal_loop)
        (decimal_loop-StartsWithDigit fuel (n / 10) ((48 + n % 10) ∷ acc) (ground arith))
]

-- A text that begins with a digit is read as its digits.
strtol-digits :
    (c : ℕ) (rest : List ℕ)
    → is_digit c ≡ true
    → strtol (c ∷ rest) ≡ clamped (signed pos (some (digits_loop 0 (c ∷ rest))))
unfolding strtol number skip_space unsigned
strtol-digits c rest d =
    let no_space : is_space c ≡ false = ground arith in
    let no_minus : (c == 45) ≡ false = ground arith in
    let no_plus : (c == 43) ≡ false = ground arith in rw (no_space, no_minus, no_plus, d) refl

-- The least number with more than `k` digits.
abbrev pub power_of_ten : ℕ → ℕ
power_of_ten zero = 1
power_of_ten (suc k) = 10 * power_of_ten k

length-decimal_loop :
    (k fuel n : ℕ) (acc : List ℕ)
    → n < power_of_ten (suc k)
    → n < fuel
    → length (decimal_loop fuel n acc) ≤ length acc + suc k
unfolding decimal_loop
length-decimal_loop k zero n acc short enough = absurd (omega arith)
length-decimal_loop zero (suc fuel) n acc short enough =
    let one : ltb n 10 ≡ true = ground arith in rw (one, decimal_loop) (omega arith)
length-decimal_loop (suc k) (suc fuel) n acc short enough = elim (Bool-cases (ltb n 10)) [
  | inl one ↦ rw (one, decimal_loop) (omega arith)
  | inr more ↦
      let fewer : n / 10 < power_of_ten (suc k) = omega arith in
      let longer = length-decimal_loop k fuel (n / 10) ((48 + n % 10) ∷ acc) fewer (ground arith) in
      rw (more, decimal_loop) (omega arith)
]

pub length-decimal : (k n : ℕ) → n < power_of_ten (suc k) → length (decimal n) ≤ suc k
unfolding decimal
length-decimal k n short = omega (arith, length-decimal_loop k (n + 1) n [] short (omega arith))

-- No digit is white space.
abbrev pub IsWord : List ℕ → Type 0
IsWord = All (λ c. is_space c ≡ false)

decimal_loop-IsWord : (fuel n : ℕ) (acc : List ℕ) → IsWord acc → IsWord (decimal_loop fuel n acc)
unfolding decimal_loop
decimal_loop-IsWord zero n acc word = word
decimal_loop-IsWord (suc fuel) n acc word = elim (Bool-cases (ltb n 10)) [
  | inl one ↦ rw (one, decimal_loop) (ground arith, word)
  | inr more ↦
      rw (more, decimal_loop)
        (decimal_loop-IsWord fuel (n / 10) ((48 + n % 10) ∷ acc) (ground arith, word))
]

pub decimal-IsWord : (n : ℕ) → IsWord (decimal n)
unfolding decimal
decimal-IsWord n = decimal_loop-IsWord (n + 1) n [] tt

pub decimal_cons : (n : ℕ) → (c : ℕ) × (rest : List ℕ) × (decimal n ≡ c ∷ rest)
unfolding decimal
decimal_cons n =
    let (c, rest, e, d) = decimal_loop-StartsWithDigit (n + 1) n [] (omega arith) in (c, rest, e)

pub strtol-decimal : (n : ℕ) → n ≤ long_max → strtol (decimal n) ≡ some (pos n, [])
unfolding decimal digits_loop
strtol-decimal n fits =
    let (c, rest, e, d) = decimal_loop-StartsWithDigit (n + 1) n [] (omega arith) in
    ap strtol e
    ∙ strtol-digits c rest d
    ∙ ap (λ cs. clamped (signed pos (some (digits_loop 0 cs)))) (sym e)
    ∙ ap (λ r. clamped (signed pos (some r))) (digits_loop-decimal_loop (n + 1) n [] (omega arith))
    ∙ ap (λ m. some (pos m, [])) {x = min n long_max} {y = n} (omega arith)
