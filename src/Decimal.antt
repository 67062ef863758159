-- ===== src/Decimal.antt =====
-- How JavaScript prints a natural number in base 10.
use html_terminal.Prelude.{
  ℕ, zero, suc, ◌+◌, ◌*◌, ◌-◌, ◌/◌, ◌%◌, ◌<◌, ◌≡◌, [], ◌∷◌, Text, ltb, if◌then◌else◌, arith, ◌≤◌,
  ◌≢◌, All, Bool-cases, inl, inr, subst,
}

abbrev pub digit : ℕ → ℕ
digit n = b'0' + n

-- The digits of `n` before `rest`; `n + 1` rounds are enough.
decimal_before : ℕ → ℕ → Text → Text
decimal_before zero n rest = rest
decimal_before (suc fuel) n rest =
    let more = decimal_before fuel (n / 10) (digit (n % 10) ∷ rest) in
    if ltb n 10 then digit n ∷ rest else more

-- `n.toString()`
unfoldable pub decimal : ℕ → Text
unfolding decimal_before
decimal n = decimal_before (n + 1) n []

-- Reading the digits again, most significant first.
abbrev pub value_from : ℕ → Text → ℕ
value_from a [] = a
value_from a (c ∷ s) = value_from (a * 10 + (c - b'0')) s

value_from-decimal_before :
    (fuel n : ℕ) (rest : Text)
    → n < fuel
    → value_from 0 (decimal_before fuel n rest) ≡ value_from n rest
unfolding decimal_before
value_from-decimal_before zero n rest h = elim h [ ]
value_from-decimal_before (suc fuel) n rest h =
    ground (arith, value_from-decimal_before fuel (n / 10) (digit (n % 10) ∷ rest))

-- The digits printed for a number read back as that number, and the rounds suffice.
pub value-decimal : (n : ℕ) → value_from 0 (decimal n) ≡ n
unfolding decimal
value-decimal n = value_from-decimal_before (n + 1) n [] (omega arith)

abbrev pub IsDigit : ℕ → Type 0
IsDigit c = (b'0' ≤ c) × (c ≤ b'9')

decimal_before-digits :
    (fuel n : ℕ) (rest : Text) → All IsDigit rest → All IsDigit (decimal_before fuel n rest)
unfolding decimal_before
decimal_before-digits zero n rest h = h
decimal_before-digits (suc fuel) n rest h = elim (Bool-cases (ltb n 10)) [
  | inl e ↦ rw e ((omega arith, ground arith), h)
  | inr e ↦
      rw e (
        decimal_before-digits fuel (n / 10) (digit (n % 10) ∷ rest) ((omega arith, omega arith), h))
]

pub decimal-digits : (n : ℕ) → All IsDigit (decimal n)
unfolding decimal
decimal-digits n = decimal_before-digits (n + 1) n [] tt

decimal_before-ne_nil : (fuel n c : ℕ) (rest : Text) → decimal_before fuel n (c ∷ rest) ≢ []
unfolding decimal_before
decimal_before-ne_nil zero n c rest e = cc
decimal_before-ne_nil (suc fuel) n c rest e = elim (Bool-cases (ltb n 10)) [
  | inl less ↦ let e' : digit n ∷ c ∷ rest ≡ [] = rw less at e in cc
  | inr more ↦
      let e' : decimal_before fuel (n / 10) (digit (n % 10) ∷ c ∷ rest) ≡ [] = rw more at e in
      decimal_before-ne_nil fuel (n / 10) (digit (n % 10)) (c ∷ rest) e'
]

-- At least one round runs.
decimal_before_once : (fuel n : ℕ) → decimal_before (suc fuel) n [] ≢ []
unfolding decimal_before
decimal_before_once fuel n e = elim (Bool-cases (ltb n 10)) [
  | inl less ↦ let e' : digit n ∷ [] ≡ [] = rw less at e in cc
  | inr more ↦
      let e' : decimal_before fuel (n / 10) (digit (n % 10) ∷ []) ≡ [] = rw more at e in
      decimal_before-ne_nil fuel (n / 10) (digit (n % 10)) [] e'
]

pub decimal-ne_nil : (n : ℕ) → decimal n ≢ []
unfolding decimal
decimal-ne_nil n e =
    let one_more : n + 1 ≡ suc n = omega arith in
    decimal_before_once n n (subst (λ fuel. decimal_before fuel n [] ≡ []) one_more e)
