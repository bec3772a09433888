-- ===== src/Wifi/Hex.antt =====
-- The hexadecimal form of a pin or secret, printed and read.
use passkey.Base.{
  ℕ, zero, suc, ◌+◌, ◌*◌, ◌/◌, ◌%◌, ◌<◌, ◌≡◌, ◌≢◌, refl, ap, List, [], ◌∷◌, Option, none, some,
  ◌==◌, ==_eq, length, All, arith, subst, Option-cases, Bool-cases, inl, inr, ==_iff,
}
use mathlib.Core.Option.{some-injective}
use passkey.Base.Text.{Text}
use passkey.Auth.Base64.{IsByte}
use passkey.Wifi.{hex_digit, hex, hex_value, unhex_pairs, unhex}

pub hex_value-digit : (n : ℕ) → n < 16 → hex_value (hex_digit n) ≡ some n
unfolding hex_value
hex_value-digit n h = ground arith

pub length-hex : (vs : List ℕ) → length (hex vs) ≡ length vs + length vs
unfolding hex
length-hex [] = omega arith
length-hex (v ∷ vs) = omega (arith, length-hex vs)

unhex_pairs-hex : (vs : List ℕ) → All IsByte vs → unhex_pairs (hex vs) ≡ some vs
unfolding hex unhex_pairs
unhex_pairs-hex [] h = refl
unhex_pairs-hex (v ∷ vs) h =
    let whole : v / 16 * 16 + v % 16 ≡ v = omega arith in
    rw
      (
        hex_value-digit (v / 16) (omega (arith, h.0)),
        hex_value-digit (v % 16) (omega arith),
        unhex_pairs,
      )
      (rw (unhex_pairs-hex vs h.1, whole))

-- 32 bytes come back from their hexadecimal form.
pub unhex-hex : (vs : List ℕ) → All IsByte vs → length vs ≡ 32 → unhex (hex vs) ≡ some vs
unfolding unhex
unhex-hex vs h n =
    rw (==_eq (length (hex vs)) 64 (omega (arith, length-hex vs))) (unhex_pairs-hex vs h)

-- What is read is bytes, and half as many as the digits.
or_zero : Option ℕ → ℕ
or_zero none = 0
or_zero (some n) = n

hex_value_small : (c : ℕ) → or_zero (hex_value c) < 16
unfolding hex_value or_zero
hex_value_small c = ground arith

hex_value_bound : (c n : ℕ) → hex_value c ≡ some n → n < 16
unfolding or_zero
hex_value_bound c n e = rw e at (hex_value_small c)

unhex_pairs_sound :
    (k : ℕ) (t : Text) (vs : List ℕ)
    → length t ≡ k + k
    → unhex_pairs t ≡ some vs
    → All IsByte vs × (length vs ≡ k)
unfolding unhex_pairs
unhex_pairs_sound zero [] vs n e =
    subst (λ x. All IsByte x × (length x ≡ 0)) (some-injective [] vs e) (tt, refl)
unhex_pairs_sound zero (c ∷ t) vs n e = absurd (omega arith)
unhex_pairs_sound (suc k) [] vs n e = absurd (omega arith)
unhex_pairs_sound (suc k) (c ∷ []) vs n e = absurd (omega arith)
unhex_pairs_sound (suc k) (c ∷ d ∷ t) vs n e = elim (Option-cases (hex_value c)) [
  | inl a ↦ cc (rw (a, unhex_pairs) at e)
  | inr (hi, a) ↦ elim (Option-cases (hex_value d)) [
    | inl b ↦ cc (rw (b, unhex_pairs) at (rw (a, unhex_pairs) at e))
    | inr (lo, b) ↦ elim (Option-cases (unhex_pairs t)) [
      | inl r ↦ cc (rw (r, unhex_pairs) at (rw (b, unhex_pairs) at (rw (a, unhex_pairs) at e)))
      | inr (us, r) ↦
          let rest : All IsByte us × (length us ≡ k) = unhex_pairs_sound k t us (omega arith) r in
          subst (λ x. All IsByte x × (length x ≡ suc k))
            (some-injective ((hi * 16 + lo) ∷ us) vs
              (rw r at (rw (b, unhex_pairs) at (rw (a, unhex_pairs) at e))))
            (
              (omega (arith, hex_value_bound c hi a, hex_value_bound d lo b), rest.0),
              omega (arith, rest.1),
            )
    ]
  ]
]

pub unhex_sound : (t : Text) (vs : List ℕ) → unhex t ≡ some vs → All IsByte vs × (length vs ≡ 32)
unfolding unhex
unhex_sound t vs e = elim (Bool-cases (length t == 64)) [
  | inl h ↦ unhex_pairs_sound 32 t vs ((==_iff (length t) 64).0 h) (rw h at e)
  | inr h ↦ cc (rw h at e)
]

pub Without-hex :
    (sep : ℕ) (vs : List ℕ) → hex_value sep ≡ none → All IsByte vs → All (λ c. c ≢ sep) (hex vs)
unfolding hex
Without-hex sep [] n h = tt
Without-hex sep (v ∷ vs) n h = (
  (λ e. cc (ap hex_value e, hex_value-digit (v / 16) (omega (arith, h.0)), n)),
  ((λ e. cc (ap hex_value e, hex_value-digit (v % 16) (omega arith), n)), Without-hex sep vs n h.1),
)
