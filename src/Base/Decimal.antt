-- ===== src/Base/Decimal.antt =====
-- Numbers as `format!` prints them and `str::parse` reads them.
use passkey.Base.{
  All-append, ℕ, zero, suc, ◌+◌, ◌*◌, ◌/◌, ◌%◌, ◌<◌, ◌≤◌, ◌≡◌, ◌≢◌, refl, sym, ap, ◌∙◌, [], ◌∷◌,
  ◌++◌, Option, none, some, if◌then◌else◌, ltb, All, arith, Bool-cases, inl, inr, ltb→lt,
  not_ltb→le, ==_ne,
}
use mathlib.Core.Option.{some-injective}
use passkey.Base.Text.{Text, parse_unsigned, parse_digits}

-- The digits of a number, with fuel for their number.
unfoldable decimal_loop : ℕ → ℕ → Text
decimal_loop zero n = []
decimal_loop (suc fuel) n =
    let rest = decimal_loop fuel (n / 10) in
    if ltb n 10 then (48 + n) ∷ [] else rest ++ (48 + n % 10) ∷ []

unfoldable pub decimal : ℕ → Text
unfolding decimal_loop
decimal n = decimal_loop (suc n) n

test_decimal : decimal 4096 ≡ 52 ∷ 48 ∷ 57 ∷ 54 ∷ []
unfolding decimal
test_decimal = refl

parse_digits-none : (limit : ℕ) (t : Text) → parse_digits limit none t ≡ none
parse_digits-none limit [] = refl
parse_digits-none limit (c ∷ t) = refl

parse_digits-append :
    (limit : ℕ) (s t : Text) (n : Option ℕ)
    → parse_digits limit n (s ++ t) ≡ parse_digits limit (parse_digits limit n s) t
parse_digits-append limit [] t n = refl
parse_digits-append limit (c ∷ s) t none = sym (parse_digits-none limit t)
parse_digits-append limit (c ∷ s) t (some n) = parse_digits-append limit s t _

-- A further digit.
parse_digit :
    (limit n d : ℕ)
    → d < 10
    → n * 10 + d < limit
    → parse_digits limit (some n) ((48 + d) ∷ []) ≡ some (n * 10 + d)
parse_digit limit n d h k = ground arith

abbrev pub IsDigit : ℕ → Type 0
IsDigit c = (48 ≤ c) × (c ≤ 57)

decimal_loop-digits : (fuel n : ℕ) → All IsDigit (decimal_loop fuel n)
unfolding decimal_loop
decimal_loop-digits zero n = tt
decimal_loop-digits (suc fuel) n = elim (Bool-cases (ltb n 10)) [
  | inl h ↦ rw h ((omega arith, let k : n < 10 = ltb→lt n 10 h in omega arith), tt)
  | inr h ↦ rw h (
      All-append IsDigit (decimal_loop fuel (n / 10)) ((48 + n % 10) ∷ [])
        (decimal_loop-digits fuel (n / 10)) ((omega arith, omega arith), tt))
]

pub decimal-digits : (n : ℕ) → All IsDigit (decimal n)
unfolding decimal
decimal-digits n = decimal_loop-digits (suc n) n

parse_digits-decimal_loop :
    (limit fuel n : ℕ)
    → n < fuel
    → n < limit
    → parse_digits limit (some 0) (decimal_loop fuel n) ≡ some n
unfolding decimal_loop
parse_digits-decimal_loop limit zero n h k = elim h [ ]
parse_digits-decimal_loop limit (suc fuel) n h k = elim (Bool-cases (ltb n 10)) [
  | inl e ↦ rw e (parse_digit limit 0 n (ltb→lt n 10 e) (omega arith) ∙ ap some (omega arith))
  | inr e ↦
      let ten : 10 ≤ n = not_ltb→le n 10 e in
      rw
        (
          e,
          parse_digits-append limit (decimal_loop fuel (n / 10)) ((48 + n % 10) ∷ []) (some 0),
          parse_digits-decimal_loop limit fuel (n / 10) (omega arith) (omega arith),
        )
        (parse_digit limit (n / 10) (n % 10) (omega arith) (omega arith) ∙ ap some (omega arith))
]

parse_unsigned-digits :
    (limit : ℕ) (t : Text) (n : ℕ)
    → All IsDigit t
    → parse_digits limit (some 0) t ≡ some n
    → t ≢ []
    → parse_unsigned limit t ≡ some n
unfolding parse_unsigned
parse_unsigned-digits limit [] n h e k = absurd (k refl)
parse_unsigned-digits limit (c ∷ t) n h e k = rw (==_ne c 43 (λ q. absurd (omega arith))) e

decimal_loop-ne-nil : (fuel n : ℕ) → decimal_loop (suc fuel) n ≢ []
unfolding decimal_loop
decimal_loop-ne-nil fuel n h = elim (Bool-cases (ltb n 10)) [
  | inl e ↦ cc (rw e at h)
  | inr e ↦ not_nil (decimal_loop fuel (n / 10)) (rw e at h)
]
  where
    not_nil : (t : Text) → t ++ (48 + n % 10) ∷ [] ≢ []
    not_nil [] e = cc e
    not_nil (c ∷ t) e = cc e

pub decimal-ne-nil : (n : ℕ) → decimal n ≢ []
unfolding decimal
decimal-ne-nil n = decimal_loop-ne-nil n n

-- A number below the limit is read as it was printed.
pub parse_unsigned-decimal : (limit n : ℕ) → n < limit → parse_unsigned limit (decimal n) ≡ some n
unfolding decimal
parse_unsigned-decimal limit n h =
    parse_unsigned-digits limit (decimal n) n (decimal-digits n)
      (parse_digits-decimal_loop limit (suc n) n (omega arith) h) (decimal-ne-nil n)

pub decimal-injective : (m n : ℕ) → decimal m ≡ decimal n → m ≡ n
decimal-injective m n e = some-injective m n (
    sym (parse_unsigned-decimal (suc (m + n)) m (omega arith))
    ∙ ap (parse_unsigned (suc (m + n))) e
    ∙ parse_unsigned-decimal (suc (m + n)) n (omega arith))
